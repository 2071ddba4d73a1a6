-- ===== src/Kernel/PingPong/Turns.antt =====
-- One process has the turn: what a move of it does, and that one of the other leaves it the turn.
use famaf_unc.Kernel.Semaphore.{
  Kernel, Semaphore, user, asleep, awake, roused, wakeup, with_sem, with_proc, max_sem, sem_down,
  down_test, sys_sem_down, sys_sem_up, resume,
}
use famaf_unc.Kernel.Semaphore.Effects.{valid-index, sys_sem_up-zero, resume-takes, resume-sleeps}
use famaf_unc.Kernel.PingPong.{
  Turn, before, waiting, printing, raising, finished, lowered, woken, move, prints,
}
use famaf_unc.Base.{
  ℕ, zero, suc, ◌<◌, ◌≡◌, refl, ap, ◌∙◌, Bool, true, false, List, ◌∷◌, none, some, ◌==◌, arith, inl,
  inr, ◌⊎◌, updated_self, updated-ne, eq_self,
}

abbrev pub opened : ℕ → Semaphore
opened v = record { is_use = true; value = v }

-- A process outside of its turn, with the value of its semaphore and the rounds that it has left; when
-- the value is not 0 it does not sleep.
pub data Idle (k : Kernel) (own v pid : ℕ) : Turn → ℕ → Type 0 where
  is_ready : {left : ℕ} → k.proc pid ≡ user → Idle k own v pid (before left) left
  is_done : k.proc pid ≡ user → Idle k own v pid finished 0
  sleeps : {left : ℕ} → k.proc pid ≡ asleep own → v ≡ 0 → Idle k own v pid (waiting left) (suc left)
  is_awake : {left : ℕ} → k.proc pid ≡ awake own → Idle k own v pid (waiting left) (suc left)

-- The process that has the turn, with the rounds that it has left, and whether it has printed in this one.
pub data Active (k : Kernel) (own pid : ℕ) : Turn → ℕ → Bool → Type 0 where
  is_free :
      {t : Turn} {m : ℕ}
      → k.sem_array own ≡ opened 1
      → Idle k own 1 pid t m
      → Active k own pid t m false
  prints_next :
      {l : ℕ}
      → k.sem_array own ≡ opened 0
      → k.proc pid ≡ user
      → Active k own pid (printing l) (suc l) false
  raises_next :
      {l : ℕ}
      → k.sem_array own ≡ opened 0
      → k.proc pid ≡ user
      → Active k own pid (raising l) (suc l) true

-- Two semaphores and two processes.
pub record Apart (own other me you : ℕ) : Type 0 where
  pub own_valid : own < max_sem
  pub other_valid : other < max_sem
  pub own_other : (own == other) ≡ false
  pub other_own : (other == own) ≡ false
  pub me_you : (me == you) ≡ false
  pub you_me : (you == me) ≡ false

-- `me` at `t` has the turn, `you` at `u` has not.
pub record HasTurn (k : Kernel) (own other me you : ℕ) (t : Turn) (m : ℕ) (b : Bool) (u : Turn)
    (y : ℕ) : Type 0 where
  pub active : Active k own me t m b
  pub other_shut : k.sem_array other ≡ opened 0
  pub rest : Idle k other 0 you u y

pub Idle-same :
    (k l : Kernel) (own v pid : ℕ) {t : Turn} {m : ℕ}
    → l.proc pid ≡ k.proc pid
    → Idle k own v pid t m
    → Idle l own v pid t m
Idle-same k l own v pid e (is_ready p) = is_ready (e ∙ p)
Idle-same k l own v pid e (is_done p) = is_done (e ∙ p)
Idle-same k l own v pid e (sleeps p z) = sleeps (e ∙ p) z
Idle-same k l own v pid e (is_awake p) = is_awake (e ∙ p)

-- Raising the semaphore that a process waits for wakes it.
Idle-raised :
    (k l : Kernel) (own pid : ℕ) {t : Turn} {m : ℕ}
    → l.proc pid ≡ roused own (k.proc pid)
    → Idle k own 0 pid t m
    → Idle l own 1 pid t m
unfolding roused
Idle-raised k l own pid e (is_ready p) = is_ready (rw p at e)
Idle-raised k l own pid e (is_done p) = is_done (rw p at e)
Idle-raised k l own pid e (sleeps p z) = is_awake (e ∙ ap (roused own) p ∙ rw (eq_self own) refl)
Idle-raised k l own pid e (is_awake p) = is_awake (rw p at e)

module _ (k : Kernel) (sem pid : ℕ) (valid : sem < max_sem) where
  pub sys_sem_down-zero :
      k.sem_array sem ≡ opened 0 → sys_sem_down pid sem k ≡ (with_proc k pid (asleep sem), none)
  unfolding sys_sem_down sem_down down_test
  sys_sem_down-zero e = rw (valid-index sem valid, e) refl

  pub sys_sem_down-one :
      k.sem_array sem ≡ opened 1
      → sys_sem_down pid sem k ≡ (with_proc (with_sem k sem (opened 0)) pid user, some 1)
  unfolding sys_sem_down sem_down down_test
  sys_sem_down-one e = rw (valid-index sem valid, e) refl

  pub resume-zero :
      k.sem_array sem ≡ opened 0 → resume pid sem k ≡ (with_proc k pid (asleep sem), none)
  resume-zero e = resume-sleeps k pid sem (ap (λ s. s.value) e)

  pub resume-one :
      k.sem_array sem ≡ opened 1
      → resume pid sem k ≡ (with_proc (with_sem k sem (opened 0)) pid user, some 1)
  resume-one e =
      resume-takes k pid sem 0 (ap (λ s. s.value) e) (omega arith)
      ∙ ap (λ s. (with_proc (with_sem k sem (record s { value = 0 })) pid user, some 1)) e

-- What is printed by a process that has or has not printed in its round, before which there was `out`.
abbrev pub heard : {W : Type 0} → W → Bool → List W → List W
heard w false out = out
heard w true out = w ∷ out

-- How many moves a process with the turn and rounds left is from giving the turn on.
abbrev pub moves_left : Turn → ℕ
moves_left (before i) = 3
moves_left (waiting i) = 3
moves_left (printing i) = 2
moves_left (raising i) = 1
moves_left finished = 3

-- After a move of the process that has the turn: it still has it, or it has given it on.
abbrev pub Moved :
    (W : Type 0) → (own other me you : ℕ) → Turn → ℕ → Bool → Turn → ℕ → Kernel × Turn → Type 0
Moved W own other me you t m b u y r =
    ((c : Bool) × HasTurn r.0 own other me you r.1 m c u y
      × ((m ≡ 0) ⊎ (moves_left r.1 < moves_left t))
      × ((w : W) (out : List W) → prints w t (heard w b out) ≡ heard w c out))
    ⊎ ((l : ℕ) × (m ≡ suc l)
        × (b ≡ true)
        × HasTurn r.0 other own you me u y false r.1 l
        × ((w : W) (out : List W) → prints w t out ≡ out))

module _ (W : Type 0) (k : Kernel) (own other me you : ℕ) (g : Apart own other me you) where
  module _ {u : Turn} {y : ℕ} (shut : k.sem_array other ≡ opened 0)
      (idle : Idle k other 0 you u y) where
    taken :
        (l : ℕ)
        → HasTurn
            (with_proc (with_sem k own (opened 0)) me user)
            own
            other
            me
            you
            (printing l)
            (suc l)
            false
            u
            y
    taken l = record {
      active = prints_next (updated_self k.sem_array own (opened 0)) (updated_self k.proc me user);
      other_shut = updated-ne k.sem_array own other (opened 0) g.other_own ∙ shut;
      rest = Idle-same k _ other 0 you (updated-ne k.proc me you user g.you_me) idle;
    }

    given :
        (l : ℕ)
        → k.sem_array own ≡ opened 0
        → k.proc me ≡ user
        → HasTurn (sys_sem_up other k).0 other own you me u y false (before l) l
    unfolding wakeup roused
    given l own_shut me_user =
        let up =
          sys_sem_up-zero k other g.other_valid (ap (λ s. s.is_use) shut)
            (ap (λ s. s.value) shut) in
        rw up (record {
          active =
              is_free (updated_self k.sem_array other (opened 1))
                (Idle-raised k _ other you refl idle);
          other_shut = updated-ne k.sem_array other own (opened 1) g.own_other ∙ own_shut;
          rest = is_ready (rw me_user refl);
        })

    move_free :
        (t : Turn) (m : ℕ)
        → k.sem_array own ≡ opened 1
        → Idle k own 1 me t m
        → Moved W own other me you t m false u y (move me own other t k)
    unfolding move lowered woken prints
    move_free (before zero) m one (is_ready p) = inl (
      false,
      record { active = is_free one (is_done p); other_shut = shut; rest = idle },
      inl refl,
      λ w out. refl,
    )
    move_free (before (suc l)) m one (is_ready p) =
        rw (sys_sem_down-one k own me g.own_valid one)
          (inl (false, taken l, inr (omega arith), λ w out. refl))
    move_free (printing l) m one p = elim p [ ]
    move_free (raising l) m one p = elim p [ ]
    move_free finished m one (is_done p) = inl (
      false,
      record { active = is_free one (is_done p); other_shut = shut; rest = idle },
      inl refl,
      λ w out. refl,
    )
    move_free (waiting l) m one (sleeps p z) = absurd (omega arith)
    move_free (waiting l) m one (is_awake p) =
        rw (p, resume-one k own me g.own_valid one)
          (inl (false, taken l, inr (omega arith), λ w out. refl))

    move-Active :
        (t : Turn) (m : ℕ) (b : Bool)
        → Active k own me t m b
        → Moved W own other me you t m b u y (move me own other t k)
    unfolding move prints
    move-Active t m false (is_free one p) = move_free t m one p
    move-Active (printing l) m false (prints_next zero_left p) = inl (
      true,
      record { active = raises_next zero_left p; other_shut = shut; rest = idle },
      inr (omega arith),
      λ w out. refl,
    )
    move-Active (before l) m true p = elim p [ ]
    move-Active (waiting l) m true p = elim p [ ]
    move-Active (printing l) m true p = elim p [ ]
    move-Active finished m true p = elim p [ ]
    move-Active (raising l) m true (raises_next zero_left p) =
        inr (l, refl, refl, given l zero_left p, λ w out. refl)

  pub move_turn :
      {t : Turn} {m : ℕ} {b : Bool} {u : Turn} {y : ℕ}
      → HasTurn k own other me you t m b u y
      → Moved W own other me you t m b u y (move me own other t k)
  move_turn {t} {m} {b} {u} {y} h = move-Active h.other_shut h.rest t m b h.active

  Active-same :
      (l : Kernel) {t : Turn} {m : ℕ} {b : Bool}
      → l.sem_array own ≡ k.sem_array own
      → l.proc me ≡ k.proc me
      → Active k own me t m b
      → Active l own me t m b
  Active-same l e f (is_free one p) = is_free (e ∙ one) (Idle-same k l own 1 me f p)
  Active-same l e f (prints_next shut p) = prints_next (e ∙ shut) (f ∙ p)
  Active-same l e f (raises_next shut p) = raises_next (e ∙ shut) (f ∙ p)

  module _ {t : Turn} {m : ℕ} {b : Bool} (active : Active k own me t m b)
      (shut : k.sem_array other ≡ opened 0) where
    slept :
        (l : ℕ)
        → HasTurn (with_proc k you (asleep other)) own other me you t m b (waiting l) (suc l)
    slept l = record {
      active = Active-same _ refl (updated-ne k.proc you me (asleep other) g.me_you) active;
      other_shut = shut;
      rest = sleeps (updated_self k.proc you (asleep other)) refl;
    }

    move-Idle :
        (u : Turn) (y : ℕ)
        → Idle k other 0 you u y
        → HasTurn (move you other own u k).0 own other me you t m b (move you other own u k).1 y
          × ((w : W) (out : List W) → prints w u out ≡ out)
    unfolding move lowered woken prints
    move-Idle (before zero) y (is_ready p) =
        (record { active = active; other_shut = shut; rest = is_done p }, λ w out. refl)
    move-Idle (before (suc l)) y (is_ready p) =
        rw (sys_sem_down-zero k other you g.other_valid shut) (slept l, λ w out. refl)
    move-Idle finished y (is_done p) =
        (record { active = active; other_shut = shut; rest = is_done p }, λ w out. refl)
    move-Idle (waiting l) y (sleeps p z) =
        rw p (record { active = active; other_shut = shut; rest = sleeps p z }, λ w out. refl)
    move-Idle (waiting l) y (is_awake p) =
        rw (p, resume-zero k other you g.other_valid shut) (slept l, λ w out. refl)
    move-Idle (printing l) y p = elim p [ ]
    move-Idle (raising l) y p = elim p [ ]

  -- A move of the other process leaves the turn where it is.
  pub move_rest :
      {t : Turn} {m : ℕ} {b : Bool} {u : Turn} {y : ℕ}
      → HasTurn k own other me you t m b u y
      → HasTurn (move you other own u k).0 own other me you t m b (move you other own u k).1 y
        × ((w : W) (out : List W) → prints w u out ≡ out)
  move_rest {t} {m} {b} {u} {y} h = move-Idle h.active h.other_shut u y h.rest

  -- Without rounds left, the next move of a process is behind its loop.
  pub move_last :
      (v : ℕ) (t : Turn) (m : ℕ)
      → Idle k own v me t m
      → m ≡ 0
      → (move me own other t k).1 ≡ finished
  unfolding move
  move_last v (before zero) m (is_ready p) z = refl
  move_last v (before (suc l)) m (is_ready p) z = absurd (omega arith)
  move_last v finished m (is_done p) z = refl
  move_last v (waiting l) m (sleeps p e) z = absurd (omega arith)
  move_last v (waiting l) m (is_awake p) z = absurd (omega arith)
  move_last v (printing l) m p z = elim p [ ]
  move_last v (raising l) m p z = elim p [ ]
