-- ===== src/Kernel/PingPong/Rounds.antt =====
-- The rounds that the two processes go through.
use famaf_unc.Kernel.Semaphore.{Kernel, user, max_sem, with_sem}
use famaf_unc.Kernel.Semaphore.Effects.{sys_sem_open-opens}
use famaf_unc.Kernel.PingPong.{
  Game, before, Word, say_ping, say_pong, ping_of, pong_of, start, move, prints, step, play,
}
use famaf_unc.Kernel.PingPong.Turns.{Apart, HasTurn, is_free, is_ready, heard, move_turn, move_rest}
use famaf_unc.Base.{
  ℕ, zero, suc, ◌+◌, ◌<◌, ◌≡◌, refl, ap, subst, ◌∙◌, Bool, true, false, List, [], ◌∷◌, some, ◌==◌,
  arith, inl, inr, updated_self, updated-ne,
}

-- What is printed in so many rounds, the last word first.
abbrev pub said : ℕ → List Word
said zero = []
said (suc i) = say_pong ∷ say_ping ∷ said i

-- After `i` rounds, the child has the turn, or its parent has.
pub data IsRound (n child_pid pid : ℕ) (g : Game) : Type 0 where
  of_child :
      (i m : ℕ) (b : Bool)
      → i + m ≡ n
      → HasTurn g.kernel (ping_of pid) (pong_of pid) child_pid pid g.child m b g.parent m
      → g.printed ≡ heard say_ping b (said i)
      → IsRound n child_pid pid g
  of_parent :
      (i m : ℕ) (b : Bool)
      → i + suc m ≡ n
      → HasTurn g.kernel (pong_of pid) (ping_of pid) pid child_pid g.parent (suc m) b g.child m
      → g.printed ≡ heard say_pong b (say_ping ∷ said i)
      → IsRound n child_pid pid g

module _ (n child_pid pid : ℕ) (valid : pong_of pid < max_sem)
    (apart : (child_pid == pid) ≡ false) where
  pub child-Apart : Apart (ping_of pid) (pong_of pid) child_pid pid
  child-Apart = record {
    own_valid = omega arith;
    other_valid = valid;
    own_other = ground arith;
    other_own = ground arith;
    me_you = apart;
    you_me = ground arith;
  }

  pub parent-Apart : Apart (pong_of pid) (ping_of pid) pid child_pid
  parent-Apart =
      let a = child-Apart in
      record {
        own_valid = a.other_valid;
        other_valid = a.own_valid;
        own_other = a.other_own;
        other_own = a.own_other;
        me_you = a.you_me;
        you_me = a.me_you;
      }

  step-IsRound :
      (b : Bool) (g : Game)
      → IsRound n child_pid pid g
      → IsRound n child_pid pid (step child_pid pid b g)
  unfolding step
  step-IsRound true g (of_child i m b e h out) =
      elim (move_turn Word g.kernel (ping_of pid) (pong_of pid) child_pid pid child-Apart h) [
        | inl (c, h2, nearer, words) ↦
            of_child i m c e h2 (ap (prints say_ping g.child) out ∙ words say_ping (said i))
        | inr (l, e2, e3, h2, words) ↦
            of_parent i l false (subst (λ z. i + z ≡ n) e2 e)
              (subst
                (λ z.
                  HasTurn (move child_pid (ping_of pid) (pong_of pid) g.child g.kernel).0
                    (pong_of pid) (ping_of pid) pid child_pid g.parent z false
                    (move child_pid (ping_of pid) (pong_of pid) g.child g.kernel).1 l)
                e2 h2)
              (words say_ping g.printed ∙ out ∙ ap (λ c. heard say_ping c (said i)) e3)
      ]
  step-IsRound false g (of_child i m b e h out) =
      let (h2, words) =
        move_rest Word g.kernel (ping_of pid) (pong_of pid) child_pid pid child-Apart h in
      of_child i m b e h2 (words say_pong g.printed ∙ out)
  step-IsRound false g (of_parent i m b e h out) =
      elim (move_turn Word g.kernel (pong_of pid) (ping_of pid) pid child_pid parent-Apart h) [
        | inl (c, h2, nearer, words) ↦
            of_parent i m c e h2
              (ap (prints say_pong g.parent) out ∙ words say_pong (say_ping ∷ said i))
        | inr (l, e2, e3, h2, words) ↦
            let same : l ≡ m = omega arith in
            of_child (suc i) m false (omega arith)
              (subst
                (λ z.
                  HasTurn (move pid (pong_of pid) (ping_of pid) g.parent g.kernel).0 (ping_of pid)
                    (pong_of pid) child_pid pid g.child m false
                    (move pid (pong_of pid) (ping_of pid) g.parent g.kernel).1 z)
                same h2)
              (words say_pong g.printed ∙ out ∙ ap (λ c. heard say_pong c (say_ping ∷ said i)) e3)
      ]
  step-IsRound true g (of_parent i m b e h out) =
      let (h2, words) =
        move_rest Word g.kernel (pong_of pid) (ping_of pid) pid child_pid parent-Apart h in
      of_parent i m b e h2 (words say_ping g.printed ∙ out)

  pub play-IsRound :
      (bs : List Bool) (g : Game)
      → IsRound n child_pid pid g
      → IsRound n child_pid pid (play child_pid pid bs g)
  unfolding play
  play-IsRound [] g h = h
  play-IsRound (b ∷ bs) g h = play-IsRound bs (step child_pid pid b g) (step-IsRound b g h)

  pub start-IsRound :
      (k : Kernel)
      → (k.sem_array (ping_of pid)).is_use ≡ false
      → (k.sem_array (pong_of pid)).is_use ≡ false
      → k.proc child_pid ≡ user
      → k.proc pid ≡ user
      → (g : Game) × ((start pid n k).1 ≡ some g) × IsRound n child_pid pid g
  unfolding start
  start-IsRound k ping_free pong_free child_user pid_user =
      let a = child-Apart in
      let k1 = with_sem k (ping_of pid) (record { is_use = true; value = 1 }) in
      let first = sys_sem_open-opens k (ping_of pid) a.own_valid 1 ping_free (omega arith) in
      let still =
        updated-ne k.sem_array (ping_of pid) (pong_of pid) (record { is_use = true; value = 1 })
          a.other_own in
      let second =
        sys_sem_open-opens k1 (pong_of pid) valid 0 (ap (λ s. s.is_use) still ∙ pong_free)
          (omega arith) in
      (
        record {
          kernel = with_sem k1 (pong_of pid) (record { is_use = true; value = 0 });
          child = before n;
          parent = before n;
          printed = [];
        },
        rw (first, second) refl,
        of_child 0 n false (omega arith)
            (record {
              active =
                  is_free
                    (updated-ne k1.sem_array (pong_of pid) (ping_of pid)
                        (record { is_use = true; value = 0 }) a.own_other
                      ∙ updated_self k.sem_array (ping_of pid)
                          (record { is_use = true; value = 1 }))
                    (is_ready child_user);
              other_shut =
                  updated_self k1.sem_array (pong_of pid) (record { is_use = true; value = 0 });
              rest = is_ready pid_user;
            })
            refl,
      )
