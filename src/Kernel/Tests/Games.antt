-- ===== src/Kernel/Tests/Games.antt =====
-- A game of three rounds, by process 3 and its child 4, and one by process 3 and its children 4 and 5.
use famaf_unc.Kernel.Semaphore.{boot}
use famaf_unc.Kernel.PingPong.{Game, start, play}
use famaf_unc.Kernel.PingPong.Finish.{CanFinish}
use famaf_unc.Kernel.PingPong.Alternation.{Alternates, play-Alternates}
use famaf_unc.Kernel.Tateti.{Board, Players, Player, open_board, play_board}
use famaf_unc.Kernel.Tateti.Rounds.{said, AreApart}
use famaf_unc.Kernel.Tateti.Alternation.{InTurn, AllFinished}
use famaf_unc.Kernel.Tateti.Finish.{CanFinish as CanFinishBoard}
use famaf_unc.Kernel.Tateti.Cycle.{play_board-InTurn}
use famaf_unc.Base.{◌≡◌, refl, Bool, List, some, arith}

play-Alternates_example :
    (g : Game) × ((start 3 3 boot).1 ≡ some g)
    × ((schedule : List Bool)
        → Alternates 3 4 3 (omega arith) refl (play 4 3 schedule g)
          × CanFinish 3 4 3 (omega arith) refl (play 4 3 schedule g))
play-Alternates_example = play-Alternates 3 4 3 (omega arith) refl boot refl refl refl refl

abbrev players : Players
players = record { ta_pid = 4; te_pid = 5; ti_pid = 3 }

players-AreApart : AreApart players
players-AreApart = record { ta_te = refl; te_ti = refl; ti_ta = refl }

play_board-InTurn_example :
    (g : Board) × ((open_board 3 boot).1 ≡ some g)
    × ((moves : List Player)
        → InTurn 3 (play_board players moves g)
          × (AllFinished (play_board players moves g)
              → (play_board players moves g).printed ≡ said 3)
          × CanFinishBoard 3 players players-AreApart (play_board players moves g))
play_board-InTurn_example =
    play_board-InTurn 3 players players-AreApart boot refl refl refl refl refl refl
