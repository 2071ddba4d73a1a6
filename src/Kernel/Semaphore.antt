-- ===== src/Kernel/Semaphore.antt =====
-- kernel/semaphore.c and the system calls of kernel/sysproc.c on it, with the sleep, wakeup and kill of
-- kernel/proc.c as far as they concern a process in sem_down.
pub mod Sleepers
pub mod Effects
pub mod Counting
pub mod Stranded
use famaf_unc.Base.{
  updated, eq_self, ℕ, zero, suc, ◌+◌, ◌-◌, ◌*◌, ◌^◌, ◌%◌, ◌≤◌, ◌<◌, ◌≡◌, refl, Bool, true, false,
  not, ◌||◌, ◌&&◌, Option, none, some, ltb, leb, ◌==◌, if◌then◌else◌,
}

-- MAX_SEM, and CLOSED_SEM_VAL, which is -1: an int is its two's complement.
abbrev pub max_sem : ℕ
max_sem = 260

abbrev pub closed_sem_val : ℕ
closed_sem_val = 2 ^ 32 - 1

abbrev pub is_negative : ℕ → Bool
is_negative value = leb (2 ^ 31) value

-- struct semaphore_t without its lock: an operation holds the lock from its first line to its last,
-- and gives it up in between only in sleep.
pub record Semaphore : Type 0 where
  pub is_use : Bool
  pub value : ℕ

-- A process outside sem_down, asleep in it, or made runnable in it but not yet behind its call of sleep.
pub data Process : Type 0 where
  user : Process
  asleep awake : ℕ → Process

-- The array `sem_array`, by index, and the processes, by pid.
pub record Kernel : Type 0 where
  pub sem_array : ℕ → Semaphore
  pub proc : ℕ → Process

abbrev pub with_sem : Kernel → ℕ → Semaphore → Kernel
with_sem k sem s = record k { sem_array = updated k.sem_array sem s }

abbrev pub with_proc : Kernel → ℕ → Process → Kernel
with_proc k pid p = record k { proc = updated k.proc pid p }

unfoldable pub roused : ℕ → Process → Process
roused sem user = user
roused sem (awake i) = awake i
roused sem (asleep i) = if i == sem then awake i else asleep i

unfoldable pub wakeup : ℕ → Kernel → Kernel
wakeup sem k = record k { proc = λ pid. roused sem (k.proc pid) }

-- Of a process that sleeps.
unfoldable pub interrupted : Process → Process
interrupted user = user
interrupted (awake i) = awake i
interrupted (asleep i) = awake i

unfoldable pub kill : ℕ → Kernel → Kernel
kill pid k = with_proc k pid (interrupted (k.proc pid))

unfoldable pub sem_init : Kernel → Kernel
sem_init k = record k {
  sem_array = λ i.
      if ltb i max_sem then record { is_use = false; value = closed_sem_val } else k.sem_array i;
}

unfoldable pub sem_open : ℕ → (value : ℕ) → Kernel → Kernel × ℕ
sem_open sem value k =
    if (k.sem_array sem).is_use
    then (k, 0)
    else if is_negative value
    then (k, 0)
    else (with_sem k sem (record { is_use = true; value = value }), 1)

unfoldable pub sem_close : ℕ → Kernel → Kernel × ℕ
sem_close sem k =
    if not (k.sem_array sem).is_use
    then (k, 0)
    else (wakeup sem (with_sem k sem (record { is_use = false; value = closed_sem_val })), 1)

unfoldable pub incremented : Semaphore → Semaphore
incremented s = record s { value = (s.value + 1) % 2 ^ 32 }

unfoldable pub sem_up : ℕ → Kernel → Kernel × ℕ
sem_up sem k =
    let s = k.sem_array sem in
    if not s.is_use
    then (k, 0)
    else let woken = if s.value == 0 then wakeup sem k else k in
      (with_sem woken sem (incremented s), 1)

-- The test of the loop of sem_down by process `pid`, and what follows it: the process falls asleep,
-- and there is no result yet, or it takes one from the value.
unfoldable pub down_test : (pid sem : ℕ) → Kernel → Kernel × Option ℕ
down_test pid sem k =
    let s = k.sem_array sem in
    if s.value == 0 then (with_proc k pid (asleep sem), none) else (
      with_proc (with_sem k sem (record s { value = (s.value + 2 ^ 32 - 1) % 2 ^ 32 })) pid user,
      some 1,
    )

unfoldable pub sem_down : (pid sem : ℕ) → Kernel → Kernel × Option ℕ
sem_down pid sem k = if not (k.sem_array sem).is_use then (k, some 0) else down_test pid sem k

-- A process goes on behind its call of sleep.
unfoldable pub resume : (pid sem : ℕ) → Kernel → Kernel × Option ℕ
resume pid sem k =
    if (k.sem_array sem).value == closed_sem_val
    then (with_proc k pid user, some 0)
    else down_test pid sem k

-- (uint64) -1
abbrev pub error : ℕ
error = 2 ^ 64 - 1

abbrev pub is_valid_sem : ℕ → Bool
is_valid_sem sem = not (is_negative sem || leb max_sem sem)

unfoldable pub sys_sem_open : ℕ → (value : ℕ) → Kernel → Kernel × ℕ
sys_sem_open sem value k =
    if not (is_valid_sem sem)
    then (k, error)
    else if is_negative value
    then (k, error)
    else sem_open sem value k

unfoldable pub sys_sem_close : ℕ → Kernel → Kernel × ℕ
sys_sem_close sem k = if not (is_valid_sem sem) then (k, error) else sem_close sem k

unfoldable pub sys_sem_up : ℕ → Kernel → Kernel × ℕ
sys_sem_up sem k = if not (is_valid_sem sem) then (k, error) else sem_up sem k

unfoldable pub sys_sem_down : (pid sem : ℕ) → Kernel → Kernel × Option ℕ
sys_sem_down pid sem k = if not (is_valid_sem sem) then (k, some error) else sem_down pid sem k

unfoldable pub sys_sem_init : Kernel → Kernel × ℕ
sys_sem_init k = (sem_init k, 1)

-- What the processes do in any order, except the call of sem_init.
pub data Step (k : Kernel) : Kernel → Type 0 where
  opened : (sem value : ℕ) → Step k (sys_sem_open sem value k).0
  closed : (sem : ℕ) → Step k (sys_sem_close sem k).0
  raised : (sem : ℕ) → Step k (sys_sem_up sem k).0
  lowered : (pid sem : ℕ) → k.proc pid ≡ user → Step k (sys_sem_down pid sem k).0
  resumed : (pid sem : ℕ) → k.proc pid ≡ awake sem → Step k (resume pid sem k).0
  killed : (pid : ℕ) → Step k (kill pid k)

-- The array lies in memory that is zero when the kernel starts, and the kernel does not call sem_init.
abbrev pub boot : Kernel
boot = record { sem_array = λ i. record { is_use = false; value = 0 }; proc = λ pid. user }

pub data Reachable : Kernel → Type 0 where
  started : Reachable boot
  after : {k l : Kernel} → Reachable k → Step k l → Reachable l
