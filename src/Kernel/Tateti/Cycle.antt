-- ===== src/Kernel/Tateti/Cycle.antt =====
-- The three processes of user/tateti.c in any order of their moves.
use famaf_unc.Kernel.Semaphore.{Kernel, user}
use famaf_unc.Kernel.Tateti.{Board, dir1, dir2, dir3, Players, open_board, Player, play_board}
use famaf_unc.Kernel.Tateti.Rounds.{said, AreApart, play_board-IsRound}
use famaf_unc.Kernel.Tateti.Alternation.{
  InTurn, AllFinished, IsRound-InTurn, IsRound-AllFinished, open_board-IsRound,
}
use famaf_unc.Kernel.Tateti.Finish.{CanFinish, IsRound-CanFinish}
use famaf_unc.Base.{ℕ, ◌≡◌, false, List, some}

-- When the semaphores 0, 1 and 2 are unused and three different processes run, the three calls of sem_open succeed,
-- and after any moves of the three in any order, the output is some rounds of Ta, Te and Ti, at most n of them, or
-- fewer than n rounds and then Ta, or Ta and Te; when all have left their loops, it is n rounds; and there is always
-- a way on in which all leave their loops.
pub play_board-InTurn :
    (n : ℕ) (ps : Players) (apart : AreApart ps) (k : Kernel)
    → (k.sem_array dir1).is_use ≡ false
    → (k.sem_array dir2).is_use ≡ false
    → (k.sem_array dir3).is_use ≡ false
    → k.proc ps.ta_pid ≡ user
    → k.proc ps.te_pid ≡ user
    → k.proc ps.ti_pid ≡ user
    → (g : Board) × ((open_board n k).1 ≡ some g)
      × ((moves : List Player)
          → InTurn n (play_board ps moves g)
            × (AllFinished (play_board ps moves g) → (play_board ps moves g).printed ≡ said n)
            × CanFinish n ps apart (play_board ps moves g))
play_board-InTurn n ps apart k f1 f2 f3 u1 u2 u3 =
    let (g, run, round) = open_board-IsRound n ps k f1 f2 f3 u1 u2 u3 in
    (
      g,
      run,
      λ moves.
          let later = play_board-IsRound n ps apart moves g round in
          let after = play_board ps moves g in
          (
            IsRound-InTurn n ps after later,
            IsRound-AllFinished n ps after later,
            IsRound-CanFinish n ps apart after later,
          ),
    )
