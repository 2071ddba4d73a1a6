-- ===== src/Kernel/Tateti/Turns.antt =====
-- Three processes, of which one has the turn.
use famaf_unc.Kernel.Semaphore.{Kernel}
use famaf_unc.Kernel.PingPong.{Turn, move, prints}
use famaf_unc.Kernel.PingPong.Turns.{
  opened, Idle, Apart, HasTurn, heard, move_turn, move_rest, moves_left,
}
use famaf_unc.Kernel.Tateti.Others.{move_raises, move_turn-Spares, move_rest-Spares}
use famaf_unc.Base.{ℕ, suc, ◌≡◌, ◌∙◌, true, false, Bool, List, ◌⊎◌, inl, inr, ◌<◌}

-- `me` at `t` has the turn; after it comes `you` at `u`, and then `they` at `v`.
pub record HasTurnOfThree (k : Kernel) (own next last me you they : ℕ) (t : Turn) (m : ℕ) (b : Bool)
    (u : Turn) (y : ℕ) (v : Turn) (z : ℕ) : Type 0 where
  pub turn : HasTurn k own next me you t m b u y
  pub last_shut : k.sem_array last ≡ opened 0
  pub last_rest : Idle k last 0 they v z

-- Three semaphores and three processes.
pub record AllApart (own next last me you they : ℕ) : Type 0 where
  pub near : Apart own next me you
  pub far : Apart next last you they
  pub back : Apart last own they me

pub rotated :
    {own next last me you they : ℕ}
    → AllApart own next last me you they
    → AllApart next last own you they me
rotated g = record { near = g.far; far = g.back; back = g.near }

abbrev flipped : {own other me you : ℕ} → Apart own other me you → Apart other own you me
flipped g = record {
  own_valid = g.other_valid;
  other_valid = g.own_valid;
  own_other = g.other_own;
  other_own = g.own_other;
  me_you = g.you_me;
  you_me = g.me_you;
}

-- What `t` prints is not heard.
abbrev pub IsSilent : (W : Type 0) → Turn → Type 0
IsSilent W t = (w : W) (out : List W) → prints w t out ≡ out

module _ (W : Type 0) (k : Kernel) (own next last me you they : ℕ)
    (g : AllApart own next last me you they) {t : Turn} {m : ℕ} {b : Bool} {u : Turn} {y : ℕ}
    {v : Turn} {z : ℕ} (h : HasTurnOfThree k own next last me you they t m b u y v z) where
  -- A move of the process with the turn: it keeps it, or gives it to the next one.
  pub move_first :
      ((c : Bool) × HasTurnOfThree
          (move me own next t k).0
          own
          next
          last
          me
          you
          they
          (move me own next t k).1
          m
          c
          u
          y
          v
          z
        × ((m ≡ 0) ⊎ (moves_left (move me own next t k).1 < moves_left t))
        × ((w : W) (out : List W) → prints w t (heard w b out) ≡ heard w c out))
      ⊎ ((l : ℕ) × (m ≡ suc l)
          × (b ≡ true)
          × HasTurnOfThree
              (move me own next t k).0
              next
              last
              own
              you
              they
              me
              u
              y
              false
              v
              z
              (move me own next t k).1
              l
          × IsSilent W t)
  move_first =
      let s =
        move_turn-Spares k own next me last they g.near.own_valid g.near.other_valid
          g.back.own_other g.far.other_own g.back.me_you t m b h.turn.other_shut h.turn.active in
      elim (move_turn W k own next me you g.near h.turn) [
        | inl (c, h2, nearer, words) ↦ inl (
          c,
          record {
            turn = h2;
            last_shut = s.same_sem ∙ h.last_shut;
            last_rest = s.same_idle h.last_rest;
          },
          nearer,
          words,
        )
        | inr (l, e, f, h2, words) ↦ inr (
          l,
          e,
          f,
          record {
            turn = record {
              active = h2.active;
              other_shut = s.same_sem ∙ h.last_shut;
              rest = s.same_idle h.last_rest;
            };
            last_shut = h2.other_shut;
            last_rest = h2.rest;
          },
          words,
        )
      ]

  -- Moves of the others.
  pub move_second :
      HasTurnOfThree
        (move you next last u k).0
        own
        next
        last
        me
        you
        they
        t
        m
        b
        (move you next last u k).1
        y
        v
        z
      × IsSilent W u
  move_second =
      let s =
        move_rest-Spares k next own you last they g.near.other_valid g.near.own_valid
          g.far.other_own g.back.own_other g.far.you_me u y h.turn.other_shut h.turn.rest in
      let (h2, words) = move_rest W k own next me you g.near h.turn in
      rw (move_raises k you next last own u h.turn.rest) (
        record {
          turn = h2;
          last_shut = s.same_sem ∙ h.last_shut;
          last_rest = s.same_idle h.last_rest;
        },
        words,
      )

  pub move_third :
      HasTurnOfThree
        (move they last own v k).0
        own
        next
        last
        me
        you
        they
        t
        m
        b
        u
        y
        (move they last own v k).1
        z
      × IsSilent W v
  move_third =
      let s =
        move_rest-Spares k last own they next you g.far.other_valid g.near.own_valid g.far.own_other
          g.near.other_own g.far.me_you v z h.last_shut h.last_rest in
      let outer : HasTurn k own last me they t m b v z = record {
        active = h.turn.active;
        other_shut = h.last_shut;
        rest = h.last_rest;
      } in
      let (h2, words) = move_rest W k own last me they (flipped g.back) outer in
      (
        record {
          turn = record {
            active = h2.active;
            other_shut = s.same_sem ∙ h.turn.other_shut;
            rest = s.same_idle h.turn.rest;
          };
          last_shut = h2.other_shut;
          last_rest = h2.rest;
        },
        words,
      )
