-- ===== src/Kernel/Semaphore/Sleepers.antt =====
-- No wakeup is lost: who sleeps in sem_down sleeps on an open semaphore with the value 0.
use famaf_unc.Base.{
  updated, not, some, ℕ, ◌^◌, ◌≡◌, refl, Bool, true, false, ◌||◌, leb, ◌==◌, if◌then◌else◌, arith,
  sym, ap, ◌∙◌, ◌≢◌, subst, Bool-cases, inl, inr,
}
use famaf_unc.Kernel.Semaphore.{
  is_valid_sem, is_negative, error, Kernel, Process, Semaphore, user, asleep, awake, with_sem,
  with_proc, closed_sem_val, roused, wakeup, interrupted, kill, sem_open, sem_close, sem_up,
  incremented, down_test, sem_down, resume, sys_sem_open, sys_sem_close, sys_sem_up, sys_sem_down,
  Step, opened, closed, raised, lowered, resumed, killed, Reachable, started, after,
}

-- Of one process, with this array.
abbrev Fine : (ℕ → Semaphore) → Process → Type 0
Fine a user = Unit {0}
Fine a (asleep sem) = ((a sem).is_use ≡ true) × ((a sem).value ≡ 0)
Fine a (awake sem) = ((a sem).is_use || ((a sem).value == closed_sem_val)) ≡ true

abbrev AllFine : Kernel → Type 0
AllFine k = (pid : ℕ) → Fine k.sem_array (k.proc pid)

abbrev Usable : Semaphore → Type 0
Usable s = (s.is_use || (s.value == closed_sem_val)) ≡ true

Fine-updated :
    (a : ℕ → Semaphore) (sem : ℕ) (s : Semaphore) (p : Process)
    → Usable s
    → ((a sem).is_use ≡ true → (a sem).value ≢ 0)
    → Fine a p
    → Fine (updated a sem s) p
Fine-updated a sem s user good awake_only f = tt
Fine-updated a sem s (asleep i) good awake_only f = elim (Bool-cases (i == sem)) [
  | inl e ↦
      let q : i ≡ sem = ground arith in
      absurd
        (awake_only (ap (λ j. (a j).is_use) (sym q) ∙ f.0) (ap (λ j. (a j).value) (sym q) ∙ f.1))
  | inr e ↦ rw e f
]
Fine-updated a sem s (awake i) good awake_only f = elim (Bool-cases (i == sem)) [
  | inl e ↦ rw e good
  | inr e ↦ rw e f
]

Fine-roused :
    (a : ℕ → Semaphore) (sem : ℕ) (s : Semaphore) (p : Process)
    → Usable s
    → Fine a p
    → Fine (updated a sem s) (roused sem p)
unfolding roused
Fine-roused a sem s user good f = tt
Fine-roused a sem s (asleep i) good f = elim (Bool-cases (i == sem)) [
  | inl e ↦ rw (e, e) good
  | inr e ↦ rw (e, e) f
]
Fine-roused a sem s (awake i) good f = elim (Bool-cases (i == sem)) [
  | inl e ↦ rw e good
  | inr e ↦ rw e f
]

AllFine-with_proc :
    (k : Kernel) (pid : ℕ) (p : Process)
    → Fine k.sem_array p
    → AllFine k
    → AllFine (with_proc k pid p)
AllFine-with_proc k pid p f h i = elim (Bool-cases (i == pid)) [
  | inl e ↦ rw e f
  | inr e ↦ rw e (h i)
]

Fine-interrupted : (a : ℕ → Semaphore) (p : Process) → Fine a p → Fine a (interrupted p)
unfolding interrupted
Fine-interrupted a user f = tt
Fine-interrupted a (asleep i) f = rw f.0 refl
Fine-interrupted a (awake i) f = f

down_test-AllFine :
    (k : Kernel) (pid sem : ℕ)
    → (k.sem_array sem).is_use ≡ true
    → AllFine k
    → AllFine (down_test pid sem k).0
unfolding down_test
down_test-AllFine k pid sem u h = elim (Bool-cases ((k.sem_array sem).value == 0)) [
  | inl e ↦
      let z : (k.sem_array sem).value ≡ 0 = ground arith in
      rw e (AllFine-with_proc k pid (asleep sem) (u, z) h)
  | inr e ↦ rw e (
      AllFine-with_proc (with_sem k sem _) pid user tt
        (λ i. Fine-updated k.sem_array sem _ (k.proc i) (rw u refl) (λ a. ground arith) (h i)))
]

sem_open-AllFine : (k : Kernel) (sem value : ℕ) → AllFine k → AllFine (sem_open sem value k).0
unfolding sem_open
sem_open-AllFine k sem value h = elim (Bool-cases (k.sem_array sem).is_use) [
  | inl e ↦ rw e h
  | inr e ↦ elim (Bool-cases (leb (2 ^ 31) value)) [
    | inl n ↦ rw (e, n) h
    | inr n ↦
        rw (e, n) (λ i. Fine-updated k.sem_array sem _ (k.proc i) refl (λ u. ground arith) (h i))
  ]
]

sem_close-AllFine : (k : Kernel) (sem : ℕ) → AllFine k → AllFine (sem_close sem k).0
unfolding sem_close wakeup
sem_close-AllFine k sem h = elim (Bool-cases (k.sem_array sem).is_use) [
  | inl e ↦ rw e (λ i. Fine-roused k.sem_array sem _ (k.proc i) refl (h i))
  | inr e ↦ rw e h
]

sem_up-AllFine : (k : Kernel) (sem : ℕ) → AllFine k → AllFine (sem_up sem k).0
unfolding sem_up wakeup incremented
sem_up-AllFine k sem h = elim (Bool-cases (k.sem_array sem).is_use) [
  | inl e ↦ elim (Bool-cases ((k.sem_array sem).value == 0)) [
    | inl z ↦ rw (e, z) (λ i. Fine-roused k.sem_array sem _ (k.proc i) refl (h i))
    | inr z ↦
        rw (e, z) (λ i. Fine-updated k.sem_array sem _ (k.proc i) refl (λ u. ground arith) (h i))
  ]
  | inr e ↦ rw e h
]

sem_down-AllFine : (k : Kernel) (pid sem : ℕ) → AllFine k → AllFine (sem_down pid sem k).0
unfolding sem_down
sem_down-AllFine k pid sem h = elim (Bool-cases (k.sem_array sem).is_use) [
  | inl e ↦ rw e (down_test-AllFine k pid sem e h)
  | inr e ↦ rw e h
]

guarded :
    {A : Type 0} (b : Bool) (k : Kernel) (x : A) (r : Kernel × A)
    → AllFine k
    → AllFine r.0
    → AllFine (if b then (k, x) else r).0
guarded true k x r h g = h
guarded false k x r h g = g

Step-AllFine : {k l : Kernel} → Step k l → AllFine k → AllFine l
unfolding sys_sem_open sys_sem_close sys_sem_up sys_sem_down sem_down resume kill
Step-AllFine {k} (opened sem value) h =
    guarded (not (is_valid_sem sem)) k error
      (if is_negative value then (k, error) else sem_open sem value k) h
      (guarded (is_negative value) k error (sem_open sem value k) h
        (sem_open-AllFine k sem value h))
Step-AllFine {k} (closed sem) h =
    guarded (not (is_valid_sem sem)) k error (sem_close sem k) h (sem_close-AllFine k sem h)
Step-AllFine {k} (raised sem) h =
    guarded (not (is_valid_sem sem)) k error (sem_up sem k) h (sem_up-AllFine k sem h)
Step-AllFine {k} (lowered pid sem u) h =
    guarded (not (is_valid_sem sem)) k (some error) (sem_down pid sem k) h
      (sem_down-AllFine k pid sem h)
Step-AllFine {k} (resumed pid sem u) h =
    elim (Bool-cases ((k.sem_array sem).value == closed_sem_val)) [
      | inl e ↦ rw e (AllFine-with_proc k pid user tt h)
      | inr e ↦
          let waiting : Fine k.sem_array (awake sem) = subst (Fine k.sem_array) u (h pid) in
          let opened_sem : (k.sem_array sem).is_use ≡ true = ground arith in
          rw e (down_test-AllFine k pid sem opened_sem h)
    ]
Step-AllFine {k} (killed pid) h =
    AllFine-with_proc k pid _ (Fine-interrupted k.sem_array (k.proc pid) (h pid)) h

Reachable-AllFine : {k : Kernel} → Reachable k → AllFine k
Reachable-AllFine started = λ pid. tt
Reachable-AllFine (after r s) = Step-AllFine s (Reachable-AllFine r)

-- In whatever order the processes open, close, raise and lower semaphores and are killed, but without
-- a call of sem_init, a process that sleeps in sem_down sleeps on an open semaphore whose value is 0:
-- none sleeps on a closed semaphore or on one that it could take.
pub Reachable-asleep :
    {k : Kernel} (pid sem : ℕ)
    → Reachable k
    → k.proc pid ≡ asleep sem
    → ((k.sem_array sem).is_use ≡ true) × ((k.sem_array sem).value ≡ 0)
Reachable-asleep {k} pid sem r e = subst (Fine k.sem_array) e (Reachable-AllFine r pid)
