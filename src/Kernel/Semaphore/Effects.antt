-- ===== src/Kernel/Semaphore/Effects.antt =====
-- What each operation on a semaphore makes of the kernel, in the cases that the other proofs need.
use famaf_unc.Base.{
  eq_self, ℕ, suc, ◌+◌, ◌-◌, ◌^◌, ◌%◌, ◌<◌, ◌≡◌, refl, true, false, none, some, ◌==◌, arith,
}
use famaf_unc.Kernel.Semaphore.{
  Kernel, user, asleep, awake, with_sem, with_proc, roused, wakeup, closed_sem_val, is_valid_sem,
  is_negative, max_sem, sem_open, sem_close, sem_up, incremented, down_test, resume, sys_sem_open,
  sys_sem_close, sys_sem_up, Semaphore,
}

pub valid-index : (sem : ℕ) → sem < max_sem → is_valid_sem sem ≡ true
valid-index sem h = ground arith

not_negative : (value : ℕ) → value < 2 ^ 31 → is_negative value ≡ false
not_negative value h = ground arith

module _ (k : Kernel) (sem : ℕ) (h : sem < max_sem) where
  pub sys_sem_open-opens :
      (value : ℕ)
      → (k.sem_array sem).is_use ≡ false
      → value < 2 ^ 31
      → sys_sem_open sem value k ≡ (with_sem k sem (record { is_use = true; value = value }), 1)
  unfolding sys_sem_open sem_open
  sys_sem_open-opens value u l = rw (valid-index sem h, not_negative value l, u) refl

  pub sys_sem_close-closes :
      (k.sem_array sem).is_use ≡ true
      → sys_sem_close sem k
        ≡ (wakeup sem (with_sem k sem (record { is_use = false; value = closed_sem_val })), 1)
  unfolding sys_sem_close sem_close
  sys_sem_close-closes u = rw (valid-index sem h, u) refl

  pub sys_sem_up-zero :
      (k.sem_array sem).is_use ≡ true
      → (k.sem_array sem).value ≡ 0
      → sys_sem_up sem k ≡ (with_sem (wakeup sem k) sem (record { is_use = true; value = 1 }), 1)
  unfolding sys_sem_up sem_up incremented
  sys_sem_up-zero u z = rw (valid-index sem h, u, z) refl

  pub sys_sem_up-positive :
      (value : ℕ)
      → (k.sem_array sem).is_use ≡ true
      → (k.sem_array sem).value ≡ suc value
      → sys_sem_up sem k ≡ (with_sem k sem (incremented (k.sem_array sem)), 1)
  unfolding sys_sem_up sem_up
  sys_sem_up-positive value u z =
      let nonzero : ((k.sem_array sem).value == 0) ≡ false = ground arith in
      rw (valid-index sem h, u, nonzero) refl

pub resume-takes :
    (k : Kernel) (pid sem value : ℕ)
    → (k.sem_array sem).value ≡ suc value
    → suc value < 2 ^ 31
    → resume pid sem k
      ≡ (with_proc (with_sem k sem (record (k.sem_array sem) { value = value })) pid user, some 1)
unfolding resume down_test
resume-takes k pid sem value e l =
    let still_open : (suc value == closed_sem_val) ≡ false = ground arith in
    let nonzero : (suc value == 0) ≡ false = ground arith in
    let less : (suc value + 2 ^ 32 - 1) % 2 ^ 32 ≡ value = omega arith in
    rw (e, still_open, nonzero, less) refl

pub resume-sleeps :
    (k : Kernel) (pid sem : ℕ)
    → (k.sem_array sem).value ≡ 0
    → resume pid sem k ≡ (with_proc k pid (asleep sem), none)
unfolding resume down_test
resume-sleeps k pid sem e = rw e refl

pub wakeup-wakes :
    (k : Kernel) (pid sem : ℕ) → k.proc pid ≡ asleep sem → (wakeup sem k).proc pid ≡ awake sem
unfolding wakeup roused
wakeup-wakes k pid sem e = rw (e, eq_self sem) refl

pub sem_array-wakeup :
    (k : Kernel) (sem : ℕ) (s : Semaphore) → (wakeup sem (with_sem k sem s)).sem_array sem ≡ s
unfolding wakeup
sem_array-wakeup k sem s = rw (eq_self sem) refl
