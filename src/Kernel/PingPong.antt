-- ===== src/Kernel/PingPong.antt =====
-- user/pingpong.c: two processes that print in turn, on the system calls of Kernel/Semaphore.
pub mod Turns
pub mod Rounds
pub mod Finish
pub mod Alternation
use famaf_unc.Kernel.Semaphore.{
  Kernel, Process, user, asleep, awake, sys_sem_open, sys_sem_close, sys_sem_down, sys_sem_up,
  resume,
}
use famaf_unc.Base.{
  ℕ, zero, suc, ◌+◌, ◌*◌, Bool, true, false, List, [], ◌∷◌, Option, none, some, ◌==◌, if◌then◌else◌,
}

pub data Word : Type 0 where
  say_ping say_pong : Word

-- Where a process stands in its loop: before the test of the loop, asleep or awake in sem_down, before its printf,
-- before its sem_up, or behind the loop. The number is that of the rounds that follow: at `before` it
-- counts the one that may begin, and elsewhere not the one that has begun.
pub data Turn : Type 0 where
  before waiting printing raising : ℕ → Turn
  finished : Turn

-- The child prints ping, its parent pong; `printed` has the last word first.
pub record Game : Type 0 where
  pub kernel : Kernel
  pub child : Turn
  pub parent : Turn
  pub printed : List Word

-- The ids of the semaphores, by the parent's pid.
abbrev pub ping_of : ℕ → ℕ
ping_of pid = (pid + 64) * 2

abbrev pub pong_of : ℕ → ℕ
pong_of pid = ping_of pid + 1

-- Both calls of sem_open, and a fork that succeeds; none if the program ends with an error.
unfoldable pub start : (pid n : ℕ) → Kernel → Kernel × Option Game
start pid n k =
    let (k1, r1) = sys_sem_open (ping_of pid) 1 k in
    let (k2, r2) = sys_sem_open (pong_of pid) 0 k1 in
    if r1 == 0
    then (k1, none)
    else if r2 == 0
    then ((sys_sem_close (ping_of pid) k2).0, none)
    else (k2, some (record { kernel = k2; child = before n; parent = before n; printed = [] }))

-- After a call of sem_down, whose result is not looked at.
unfoldable pub lowered : ℕ → Kernel × Option ℕ → Kernel × Turn
lowered i (k, none) = (k, waiting i)
lowered i (k, some r) = (k, printing i)

-- A process asleep does not move.
unfoldable pub woken : (pid own i : ℕ) → Process → Kernel → Kernel × Turn
woken pid own i (awake sem) k = lowered i (resume pid own k)
woken pid own i user k = (k, waiting i)
woken pid own i (asleep sem) k = (k, waiting i)

-- The next move of process `pid`, which waits for the semaphore `own` and raises `other`; printing is apart.
unfoldable pub move : (pid own other : ℕ) → Turn → Kernel → Kernel × Turn
move pid own other (before zero) k = (k, finished)
move pid own other (before (suc i)) k = lowered i (sys_sem_down pid own k)
move pid own other (waiting i) k = woken pid own i (k.proc pid) k
move pid own other (printing i) k = (k, raising i)
move pid own other (raising i) k = ((sys_sem_up other k).0, before i)
move pid own other finished k = (k, finished)

unfoldable pub prints : {W : Type 0} → W → Turn → List W → List W
prints w (before i) out = out
prints w (waiting i) out = out
prints w (printing i) out = w ∷ out
prints w (raising i) out = out
prints w finished out = out

-- A move of the child, or of the parent.
unfoldable pub step : (child_pid pid : ℕ) → (of_child : Bool) → Game → Game
step child_pid pid true g =
    let (k, t) = move child_pid (ping_of pid) (pong_of pid) g.child g.kernel in
    record { kernel = k; child = t; parent = g.parent; printed = prints say_ping g.child g.printed }
step child_pid pid false g =
    let (k, t) = move pid (pong_of pid) (ping_of pid) g.parent g.kernel in
    record { kernel = k; child = g.child; parent = t; printed = prints say_pong g.parent g.printed }

-- The moves in the order of a schedule.
unfoldable pub play : (child_pid pid : ℕ) → List Bool → Game → Game
play child_pid pid [] g = g
play child_pid pid (b ∷ bs) g = play child_pid pid bs (step child_pid pid b g)

-- The calls of sem_close at the end.
unfoldable pub close_both : ℕ → Kernel → Kernel
close_both pid k = (sys_sem_close (pong_of pid) (sys_sem_close (ping_of pid) k).0).0
