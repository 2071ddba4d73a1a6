-- ===== src/Kernel/Semaphore/Stranded.antt =====
-- Processes that wait while a semaphore is closed, reset, raised or while they are killed.
use famaf_unc.Kernel.Semaphore.Effects.{
  sem_array-wakeup, resume-takes, sys_sem_open-opens, resume-sleeps, sys_sem_up-zero,
  sys_sem_up-positive, sys_sem_close-closes, wakeup-wakes,
}
use famaf_unc.Base.{eq_self, ap, ℕ, suc, ◌^◌, ◌<◌, ◌≡◌, refl, true, false, none, some, ltb, arith}
use famaf_unc.Kernel.Semaphore.{
  Kernel, user, asleep, awake, with_sem, wakeup, interrupted, kill, closed_sem_val, max_sem,
  sem_init, sys_sem_init, resume, sys_sem_open, sys_sem_close, sys_sem_up, Reachable,
}
use famaf_unc.Kernel.Semaphore.Sleepers.{Reachable-asleep}

-- If a process sleeps on a semaphore when some process calls sem_init, and the semaphore is opened
-- after that with a positive value, then the process sleeps on, although the semaphore is
-- free, and a call of sem_up does not wake it.
pub sys_sem_init-strands :
    (k : Kernel) (pid sem value : ℕ)
    → k.proc pid ≡ asleep sem
    → sem < max_sem
    → suc value < 2 ^ 31
    → let l = (sys_sem_open sem (suc value) (sys_sem_init k).0).0 in
      ((sys_sem_open sem (suc value) (sys_sem_init k).0).1 ≡ 1)
      × ((l.sem_array sem).value ≡ suc value)
      × (l.proc pid ≡ asleep sem)
      × ((sys_sem_up sem l).0.proc pid ≡ asleep sem)
unfolding sys_sem_init sem_init
sys_sem_init-strands k pid sem value e h small =
    let inside : ltb sem 260 ≡ true = ground arith in
    let reset = sem_init k in
    let is_closed : (reset.sem_array sem).is_use ≡ false = rw inside refl in
    let l : Kernel = with_sem reset sem (record { is_use = true; value = suc value }) in
    let opens = sys_sem_open-opens reset sem h (suc value) is_closed small in
    let raises =
      sys_sem_up-positive l sem h value (rw (eq_self sem) refl) (rw (eq_self sem) refl) in
    rw opens (refl, rw (eq_self sem) refl, e, rw raises e)

-- If a semaphore is closed and opened again with a positive value before a process that slept on it
-- runs, that process takes one from the new semaphore, and its sem_down succeeds.
pub resume-reopened :
    (k : Kernel) (pid sem value : ℕ)
    → k.proc pid ≡ asleep sem
    → (k.sem_array sem).is_use ≡ true
    → sem < max_sem
    → suc value < 2 ^ 31
    → let l = (sys_sem_open sem (suc value) (sys_sem_close sem k).0).0 in
      (l.proc pid ≡ awake sem)
      × ((resume pid sem l).1 ≡ some 1)
      × (((resume pid sem l).0.sem_array sem).value ≡ value)
resume-reopened k pid sem value e u h small =
    let shut : Kernel =
      wakeup sem (with_sem k sem (record { is_use = false; value = closed_sem_val })) in
    let is_closed : (shut.sem_array sem).is_use ≡ false =
      ap (λ s. s.is_use) (sem_array-wakeup k sem _) in
    let l : Kernel = with_sem shut sem (record { is_use = true; value = suc value }) in
    let opens = sys_sem_open-opens shut sem h (suc value) is_closed small in
    let takes = resume-takes l pid sem value (rw (eq_self sem) refl) small in
    rw (sys_sem_close-closes k sem h u, opens)
      (wakeup-wakes _ pid sem e, rw takes refl, rw (takes, eq_self sem) refl)

-- A process that is killed while it sleeps in sem_down goes back to sleep when it runs.
pub resume-kill :
    {k : Kernel} (pid sem : ℕ)
    → Reachable k
    → k.proc pid ≡ asleep sem
    → ((kill pid k).proc pid ≡ awake sem)
      × ((resume pid sem (kill pid k)).1 ≡ none)
      × ((resume pid sem (kill pid k)).0.proc pid ≡ asleep sem)
unfolding kill interrupted
resume-kill {k} pid sem r e =
    let (_, zero_value) = Reachable-asleep pid sem r e in
    let sleeps = resume-sleeps (kill pid k) pid sem zero_value in
    (rw (eq_self pid, e) refl, rw sleeps refl, rw (sleeps, eq_self pid) refl)

-- When a semaphore is raised on which a process sleeps, that process wakes, and if it is the next
-- to run its sem_down succeeds and leaves the value 0 again.
pub resume-sys_sem_up :
    {k : Kernel} (pid sem : ℕ)
    → Reachable k
    → k.proc pid ≡ asleep sem
    → sem < max_sem
    → let l = (sys_sem_up sem k).0 in
      ((sys_sem_up sem k).1 ≡ 1)
      × (l.proc pid ≡ awake sem)
      × ((resume pid sem l).1 ≡ some 1)
      × (((resume pid sem l).0.sem_array sem).value ≡ 0)
      × ((resume pid sem l).0.proc pid ≡ user)
resume-sys_sem_up {k} pid sem r e h =
    let (u, zero_value) = Reachable-asleep pid sem r e in
    let l : Kernel = with_sem (wakeup sem k) sem (record { is_use = true; value = 1 }) in
    let takes = resume-takes l pid sem 0 (rw (eq_self sem) refl) (omega arith) in
    rw (sys_sem_up-zero k sem h u zero_value) (
      refl,
      wakeup-wakes k pid sem e,
      rw takes refl,
      rw (takes, eq_self sem) refl,
      rw (takes, eq_self pid) refl,
    )
