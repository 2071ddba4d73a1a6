-- ===== src/Kernel/Tateti.antt =====
-- user/tateti.c: three processes that print in turn. Each moves as a process of Kernel/PingPong does, with a semaphore
-- that it waits for and another that it raises.
pub mod Others
pub mod Turns
pub mod Rounds
pub mod Alternation
pub mod Finish
pub mod Cycle
use famaf_unc.Kernel.Semaphore.{Kernel, sys_sem_open, sys_sem_close}
use famaf_unc.Kernel.PingPong.{Turn, before, move, prints}
use famaf_unc.Base.{ℕ, zero, suc, ◌-◌, List, [], ◌∷◌, Option, none, some, ◌==◌, if◌then◌else◌}

pub data Syllable : Type 0 where
  say_ta say_te say_ti : Syllable

-- The first child prints Ta, the second Te, the parent Ti; `printed` has the last one first.
pub record Board : Type 0 where
  pub kernel : Kernel
  pub ta : Turn
  pub te : Turn
  pub ti : Turn
  pub printed : List Syllable

abbrev pub dir1 : ℕ
dir1 = 0

abbrev pub dir2 : ℕ
dir2 = 1

abbrev pub dir3 : ℕ
dir3 = 2

-- The pids of the children and the parent.
pub record Players : Type 0 where
  pub ta_pid : ℕ
  pub te_pid : ℕ
  pub ti_pid : ℕ

-- The three calls of sem_open, and two forks that succeed; none if the program ends with an error.
unfoldable pub open_board : (n : ℕ) → Kernel → Kernel × Option Board
open_board n k =
    let (k1, r1) = sys_sem_open dir1 1 k in
    let (k2, r2) = sys_sem_open dir2 0 k1 in
    let (k3, r3) = sys_sem_open dir3 0 k2 in
    if r1 == 0
    then (k1, none)
    else if r2 == 0
    then ((sys_sem_close dir1 k2).0, none)
    else if r3 == 0
    then ((sys_sem_close dir2 (sys_sem_close dir1 k3).0).0, none)
    else (
      k3,
      some (record { kernel = k3; ta = before n; te = before n; ti = before n; printed = [] }),
    )

-- Who moves.
pub data Player : Type 0 where
  plays_ta plays_te plays_ti : Player

unfoldable pub board_step : Players → Player → Board → Board
board_step ps plays_ta g =
    let (k, t) = move ps.ta_pid dir1 dir2 g.ta g.kernel in
    record { kernel = k; ta = t; te = g.te; ti = g.ti; printed = prints say_ta g.ta g.printed }
board_step ps plays_te g =
    let (k, t) = move ps.te_pid dir2 dir3 g.te g.kernel in
    record { kernel = k; ta = g.ta; te = t; ti = g.ti; printed = prints say_te g.te g.printed }
board_step ps plays_ti g =
    let (k, t) = move ps.ti_pid dir3 dir1 g.ti g.kernel in
    record { kernel = k; ta = g.ta; te = g.te; ti = t; printed = prints say_ti g.ti g.printed }

-- The moves in the order of a schedule.
unfoldable pub play_board : Players → List Player → Board → Board
play_board ps [] g = g
play_board ps (p ∷ more) g = play_board ps more (board_step ps p g)

-- The calls of sem_close at the end.
unfoldable pub close_board : Kernel → Kernel
close_board k = (sys_sem_close dir3 (sys_sem_close dir2 (sys_sem_close dir1 k).0).0).0
