-- ===== src/Kernel/Tateti/Others.antt =====
-- What a move of one process leaves alone: a third process, and the semaphore that this one waits for.
use famaf_unc.Kernel.Semaphore.{Kernel, user, asleep, roused, wakeup, with_sem, with_proc, max_sem}
use famaf_unc.Kernel.Semaphore.Effects.{sys_sem_up-zero}
use famaf_unc.Kernel.PingPong.{
  Turn, before, waiting, printing, raising, finished, lowered, woken, move,
}
use famaf_unc.Kernel.PingPong.Turns.{
  opened, Idle, is_ready, is_done, sleeps, is_awake, Active, is_free, prints_next, raises_next,
  Idle-same, sys_sem_down-one, sys_sem_down-zero, resume-one, resume-zero,
}
use famaf_unc.Base.{
  ℕ, zero, suc, ◌<◌, ◌≡◌, refl, ap, ◌∙◌, Bool, true, false, ◌==◌, arith, updated-ne,
}

-- The semaphore `sem` is as it was, and the process `pid` that waits for it is, too.
pub record Spares (k l : Kernel) (sem pid : ℕ) : Type 0 where
  pub same_sem : l.sem_array sem ≡ k.sem_array sem
  pub same_idle : {t : Turn} {m : ℕ} → Idle k sem 0 pid t m → Idle l sem 0 pid t m

-- A process outside of its turn does not look at the semaphore that it raises.
pub move_raises :
    (k : Kernel) (pid own a b : ℕ) {v m : ℕ} (t : Turn)
    → Idle k own v pid t m
    → move pid own a t k ≡ move pid own b t k
unfolding move
move_raises k pid own a b (before zero) p = refl
move_raises k pid own a b (before (suc i)) p = refl
move_raises k pid own a b (waiting i) p = refl
move_raises k pid own a b (printing i) p = elim p [ ]
move_raises k pid own a b (raising i) p = elim p [ ]
move_raises k pid own a b finished p = refl

module _ (k : Kernel) (own other me sem pid : ℕ) (own_valid : own < max_sem)
    (other_valid : other < max_sem) (not_own : (sem == own) ≡ false)
    (not_other : (sem == other) ≡ false) (not_me : (pid == me) ≡ false) where
  spared : Spares k k sem pid
  spared = record { same_sem = refl; same_idle = λ p. p }

  lowering : Spares k (with_proc (with_sem k own (opened 0)) me user) sem pid
  lowering = record {
    same_sem = updated-ne k.sem_array own sem (opened 0) not_own;
    same_idle = λ p. Idle-same k _ sem 0 pid (updated-ne k.proc me pid user not_me) p;
  }

  sleeping : Spares k (with_proc k me (asleep own)) sem pid
  sleeping = record {
    same_sem = refl;
    same_idle = λ p. Idle-same k _ sem 0 pid (updated-ne k.proc me pid (asleep own) not_me) p;
  }

  -- wakeup of another semaphore.
  raised :
      {t : Turn} {m : ℕ} (l : Kernel)
      → l.proc pid ≡ roused other (k.proc pid)
      → Idle k sem 0 pid t m
      → Idle l sem 0 pid t m
  unfolding roused
  raised l e (is_ready p) = is_ready (rw p at e)
  raised l e (is_done p) = is_done (rw p at e)
  raised l e (sleeps p z) = sleeps (e ∙ ap (roused other) p ∙ rw not_other refl) z
  raised l e (is_awake p) = is_awake (rw p at e)

  move_free :
      (t : Turn) (m : ℕ)
      → k.sem_array own ≡ opened 1
      → Idle k own 1 me t m
      → Spares k (move me own other t k).0 sem pid
  unfolding move lowered woken
  move_free (before zero) m one p = spared
  move_free (before (suc l)) m one p = rw (sys_sem_down-one k own me own_valid one) lowering
  move_free (printing l) m one p = elim p [ ]
  move_free (raising l) m one p = elim p [ ]
  move_free finished m one p = spared
  move_free (waiting l) m one (sleeps p z) = absurd (omega arith)
  move_free (waiting l) m one (is_awake p) = rw (p, resume-one k own me own_valid one) lowering

  -- A move of the process that has the turn.
  pub move_turn-Spares :
      (t : Turn) (m : ℕ) (b : Bool)
      → k.sem_array other ≡ opened 0
      → Active k own me t m b
      → Spares k (move me own other t k).0 sem pid
  unfolding move wakeup roused
  move_turn-Spares t m false shut (is_free one p) = move_free t m one p
  move_turn-Spares (printing l) m false shut (prints_next zero_left p) = spared
  move_turn-Spares (before l) m true shut p = elim p [ ]
  move_turn-Spares (waiting l) m true shut p = elim p [ ]
  move_turn-Spares (printing l) m true shut p = elim p [ ]
  move_turn-Spares finished m true shut p = elim p [ ]
  move_turn-Spares (raising l) m true shut (raises_next zero_left p) =
      rw (sys_sem_up-zero k other other_valid (ap (λ s. s.is_use) shut) (ap (λ s. s.value) shut))
        (record {
          same_sem = updated-ne k.sem_array other sem (opened 1) not_other;
          same_idle = λ q. raised _ refl q;
        })

  -- A move of one that has not.
  pub move_rest-Spares :
      (t : Turn) (m : ℕ)
      → k.sem_array own ≡ opened 0
      → Idle k own 0 me t m
      → Spares k (move me own other t k).0 sem pid
  unfolding move lowered woken
  move_rest-Spares (before zero) m shut p = spared
  move_rest-Spares (before (suc l)) m shut p =
      rw (sys_sem_down-zero k own me own_valid shut) sleeping
  move_rest-Spares (printing l) m shut p = elim p [ ]
  move_rest-Spares (raising l) m shut p = elim p [ ]
  move_rest-Spares finished m shut p = spared
  move_rest-Spares (waiting l) m shut (sleeps p z) = rw p spared
  move_rest-Spares (waiting l) m shut (is_awake p) =
      rw (p, resume-zero k own me own_valid shut) sleeping
