-- ===== src/Kernel/Tests.antt =====
-- A kernel on which the theorems on semaphores are used.
mod Games
use famaf_unc.Base.{suc, ◌+◌, ◌^◌, ◌<◌, ◌≡◌, refl, true, none, some, arith}
use famaf_unc.Kernel.Semaphore.{
  Kernel, user, asleep, awake, kill, resume, sys_sem_open, sys_sem_close, sys_sem_up, sys_sem_down,
  sys_sem_init, opened, lowered, started, after, Reachable, boot, sem_open, sem_down, down_test,
  sem_up, incremented,
}
use famaf_unc.Kernel.Semaphore.Sleepers.{Reachable-asleep}
use famaf_unc.Kernel.Semaphore.Counting.{Run, start, up, down, Run-counts}
use famaf_unc.Kernel.Semaphore.Stranded.{
  sys_sem_init-strands, resume-reopened, resume-kill, resume-sys_sem_up,
}

-- Semaphore 3 is open with the value 0, and process 7 sleeps on it.
abbrev idle : Kernel
idle = (sys_sem_open 3 0 boot).0

abbrev waiting : Kernel
waiting = (sys_sem_down 7 3 idle).0

idle-user : idle.proc 7 ≡ user
unfolding sys_sem_open sem_open
idle-user = refl

waiting-Reachable : Reachable waiting
waiting-Reachable = after (after started (opened 3 0)) (lowered 7 3 idle-user)

waiting-asleep : waiting.proc 7 ≡ asleep 3
unfolding sys_sem_open sem_open sys_sem_down sem_down down_test
waiting-asleep = refl

waiting-in_use : (waiting.sem_array 3).is_use ≡ true
unfolding sys_sem_open sem_open sys_sem_down sem_down down_test
waiting-in_use = refl

Reachable-asleep_example : ((waiting.sem_array 3).is_use ≡ true) × ((waiting.sem_array 3).value ≡ 0)
Reachable-asleep_example = Reachable-asleep 7 3 waiting-Reachable waiting-asleep

sys_sem_init-strands_example :
    let l = (sys_sem_open 3 (suc 4) (sys_sem_init waiting).0).0 in
    ((sys_sem_open 3 (suc 4) (sys_sem_init waiting).0).1 ≡ 1)
    × ((l.sem_array 3).value ≡ suc 4)
    × (l.proc 7 ≡ asleep 3)
    × ((sys_sem_up 3 l).0.proc 7 ≡ asleep 3)
sys_sem_init-strands_example =
    sys_sem_init-strands waiting 7 3 4 waiting-asleep (omega arith) (omega arith)

resume-reopened_example :
    let l = (sys_sem_open 3 (suc 4) (sys_sem_close 3 waiting).0).0 in
    (l.proc 7 ≡ awake 3) × ((resume 7 3 l).1 ≡ some 1) × (((resume 7 3 l).0.sem_array 3).value ≡ 4)
resume-reopened_example =
    resume-reopened waiting 7 3 4 waiting-asleep waiting-in_use (omega arith) (omega arith)

resume-sys_sem_up_example :
    let l = (sys_sem_up 3 waiting).0 in
    ((sys_sem_up 3 waiting).1 ≡ 1)
    × (l.proc 7 ≡ awake 3)
    × ((resume 7 3 l).1 ≡ some 1)
    × (((resume 7 3 l).0.sem_array 3).value ≡ 0)
    × ((resume 7 3 l).0.proc 7 ≡ user)
resume-sys_sem_up_example = resume-sys_sem_up 7 3 waiting-Reachable waiting-asleep (omega arith)

-- Open with the value 1, raised once, lowered once.
abbrev free_one : Kernel
free_one = (sys_sem_open 3 1 boot).0

abbrev raised_once : Kernel
raised_once = (sys_sem_up 3 free_one).0

run : Run 3 free_one (sys_sem_down 7 3 raised_once).0 1 1
unfolding sys_sem_open sem_open sys_sem_down sem_down down_test sys_sem_up sem_up incremented
run = down 7 (up start refl) refl

free_one-small : (free_one.sem_array 3).value + 1 < 2 ^ 31
unfolding sys_sem_open sem_open
free_one-small = omega arith

Run-counts_example :
    ((sys_sem_down 7 3 raised_once).0.sem_array 3).value + 1 ≡ (free_one.sem_array 3).value + 1
Run-counts_example = Run-counts run free_one-small
