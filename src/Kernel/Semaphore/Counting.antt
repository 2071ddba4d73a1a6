-- ===== src/Kernel/Semaphore/Counting.antt =====
-- The value of a semaphore counts: what is taken from it and what is left is what it held and was given.
use famaf_unc.Base.{
  eq_self, ℕ, suc, ◌+◌, ◌-◌, ◌^◌, ◌<◌, ◌≡◌, refl, some, ◌==◌, arith, Bool-cases, inl, inr,
}
use famaf_unc.Kernel.Semaphore.{
  Kernel, closed_sem_val, is_valid_sem, sem_up, incremented, down_test, sem_down, resume,
  sys_sem_up, sys_sem_down, Step,
}

-- A run from `k` to the last kernel in which `ups` calls of sem_up on `sem` and `downs` calls of sem_down
-- on it returned 1, the second kind at once or behind a sleep, among steps that leave its value.
pub data Run (sem : ℕ) (k : Kernel) : (l : Kernel) (ups downs : ℕ) → Type 0 where
  start : Run sem k k 0 0
  up :
      {l : Kernel} {u d : ℕ}
      → Run sem k l u d
      → (sys_sem_up sem l).1 ≡ 1
      → Run sem k (sys_sem_up sem l).0 (suc u) d
  down :
      {l : Kernel} {u d : ℕ} (pid : ℕ)
      → Run sem k l u d
      → (sys_sem_down pid sem l).1 ≡ some 1
      → Run sem k (sys_sem_down pid sem l).0 u (suc d)
  slept :
      {l : Kernel} {u d : ℕ} (pid : ℕ)
      → Run sem k l u d
      → (resume pid sem l).1 ≡ some 1
      → Run sem k (resume pid sem l).0 u (suc d)
  other :
      {l m : Kernel} {u d : ℕ}
      → Run sem k l u d
      → Step l m
      → (m.sem_array sem).value ≡ (l.sem_array sem).value
      → Run sem k m u d

down_test-counts :
    (pid sem : ℕ) (k : Kernel)
    → (down_test pid sem k).1 ≡ some 1
    → (k.sem_array sem).value < 2 ^ 32
    → suc ((down_test pid sem k).0.sem_array sem).value ≡ (k.sem_array sem).value
unfolding down_test
down_test-counts pid sem k e l = elim (Bool-cases ((k.sem_array sem).value == 0)) [
  | inl z ↦ absurd (ground arith)
  | inr z ↦
      let positive : 0 < (k.sem_array sem).value = ground arith in rw (z, eq_self sem) (omega arith)
]

resume-counts :
    (pid sem : ℕ) (k : Kernel)
    → (resume pid sem k).1 ≡ some 1
    → (k.sem_array sem).value < 2 ^ 32
    → suc ((resume pid sem k).0.sem_array sem).value ≡ (k.sem_array sem).value
unfolding resume
resume-counts pid sem k e l = elim (Bool-cases ((k.sem_array sem).value == closed_sem_val)) [
  | inl z ↦ absurd (ground arith)
  | inr z ↦ rw z (down_test-counts pid sem k (rw z at e) l)
]

sys_sem_down-counts :
    (pid sem : ℕ) (k : Kernel)
    → (sys_sem_down pid sem k).1 ≡ some 1
    → (k.sem_array sem).value < 2 ^ 32
    → suc ((sys_sem_down pid sem k).0.sem_array sem).value ≡ (k.sem_array sem).value
unfolding sys_sem_down sem_down
sys_sem_down-counts pid sem k e l = elim (Bool-cases (is_valid_sem sem)) [
  | inl v ↦ elim (Bool-cases (k.sem_array sem).is_use) [
    | inl u ↦ rw (v, u) (down_test-counts pid sem k (rw (v, u) at e) l)
    | inr u ↦ let refused = rw (v, u) at e in absurd (ground arith)
  ]
  | inr v ↦ let refused = rw v at e in absurd (ground arith)
]

sys_sem_up-counts :
    (sem : ℕ) (k : Kernel)
    → (sys_sem_up sem k).1 ≡ 1
    → (k.sem_array sem).value < 2 ^ 32 - 1
    → ((sys_sem_up sem k).0.sem_array sem).value ≡ suc (k.sem_array sem).value
unfolding sys_sem_up sem_up incremented
sys_sem_up-counts sem k e l = elim (Bool-cases (is_valid_sem sem)) [
  | inl v ↦ elim (Bool-cases (k.sem_array sem).is_use) [
    | inl u ↦ rw (v, u, eq_self sem) (omega arith)
    | inr u ↦ let refused = rw (v, u) at e in absurd (ground arith)
  ]
  | inr v ↦ let refused = rw v at e in absurd (ground arith)
]

-- In every run whose steps, but for the calls of sem_up and sem_down on one semaphore that return 1, leave its
-- value as it is, and in which the value at the start and the calls of sem_up together stay
-- below 2 ^ 31, the value at the end and those calls of sem_down add up to the value at the start and
-- those calls of sem_up. So from the value 1 on, at most one process more has entered than has left.
pub Run-counts :
    {sem : ℕ} {k l : Kernel} {ups downs : ℕ}
    → Run sem k l ups downs
    → (k.sem_array sem).value + ups < 2 ^ 31
    → (l.sem_array sem).value + downs ≡ (k.sem_array sem).value + ups
Run-counts start h = refl
Run-counts {sem} (up {l} r e) h =
    let before = Run-counts r (omega arith) in
    let more = sys_sem_up-counts sem l e (omega (arith, before)) in omega (arith, before, more)
Run-counts {sem} (down {l} pid r e) h =
    let before = Run-counts r h in
    let less = sys_sem_down-counts pid sem l e (omega (arith, before)) in
    omega (arith, before, less)
Run-counts {sem} (slept {l} pid r e) h =
    let before = Run-counts r h in
    let less = resume-counts pid sem l e (omega (arith, before)) in omega (arith, before, less)
Run-counts (other r s e) h = let before = Run-counts r h in omega (arith, before, e)
