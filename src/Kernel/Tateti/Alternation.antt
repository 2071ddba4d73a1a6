-- ===== src/Kernel/Tateti/Alternation.antt =====
-- What is printed in every interleaving of user/tateti.c.
use famaf_unc.Kernel.Semaphore.{Kernel, user, with_sem}
use famaf_unc.Kernel.Semaphore.Effects.{sys_sem_open-opens}
use famaf_unc.Kernel.PingPong.{before, finished}
use famaf_unc.Kernel.PingPong.Turns.{opened, is_ready, is_free}
use famaf_unc.Kernel.PingPong.Alternation.{Active-finished, Active-printed}
use famaf_unc.Kernel.Tateti.{say_ta, say_te, Board, dir1, dir2, dir3, Players, open_board}
use famaf_unc.Kernel.Tateti.Rounds.{said, IsRound, of_ta, of_te, of_ti}
use famaf_unc.Base.{
  ℕ, suc, ◌<◌, ◌≤◌, ◌≡◌, refl, ap, ◌∙◌, true, false, [], ◌∷◌, some, arith, inl, inr, ◌⊎◌,
}

-- Some whole rounds, or such rounds and the beginning of one.
abbrev pub InTurn : (n : ℕ) → Board → Type 0
InTurn n g =
    (i : ℕ) × (((i ≤ n) × (g.printed ≡ said i))
      ⊎ ((i < n) × ((g.printed ≡ say_ta ∷ said i) ⊎ (g.printed ≡ say_te ∷ say_ta ∷ said i))))

abbrev pub AllFinished : Board → Type 0
AllFinished g = (g.ta ≡ finished) × (g.te ≡ finished) × (g.ti ≡ finished)

pub IsRound-InTurn : (n : ℕ) (ps : Players) (g : Board) → IsRound n ps g → InTurn n g
IsRound-InTurn n ps g (of_ta i x y z false e ey ez h out) = (i, inl (omega arith, out))
IsRound-InTurn n ps g (of_ta i x y z true e ey ez h out) =
    let some_left = Active-printed h.turn.active in (i, inr (omega arith, inl out))
IsRound-InTurn n ps g (of_te i x y z false e ey ez h out) = (i, inr (omega arith, inl out))
IsRound-InTurn n ps g (of_te i x y z true e ey ez h out) = (i, inr (omega arith, inr out))
IsRound-InTurn n ps g (of_ti i x y z false e ey ez h out) = (i, inr (omega arith, inr out))
IsRound-InTurn n ps g (of_ti i x y z true e ey ez h out) = (suc i, inl (omega arith, out))

pub IsRound-AllFinished :
    (n : ℕ) (ps : Players) (g : Board) → IsRound n ps g → AllFinished g → g.printed ≡ said n
IsRound-AllFinished n ps g (of_ta i x y z false e ey ez h out) (a, b, c) =
    let none_left : x ≡ 0 = Active-finished h.turn.active a in
    let all : i ≡ n = omega arith in out ∙ ap said all
IsRound-AllFinished n ps g (of_ta i x y z true e ey ez h out) (a, b, c) =
    let some_left = Active-printed h.turn.active in
    let none_left : x ≡ 0 = Active-finished h.turn.active a in absurd (omega arith)
IsRound-AllFinished n ps g (of_te i x y z t e ey ez h out) (a, b, c) =
    let none_left : x ≡ 0 = Active-finished h.turn.active b in absurd (omega arith)
IsRound-AllFinished n ps g (of_ti i x y z t e ey ez h out) (a, b, c) =
    let none_left : x ≡ 0 = Active-finished h.turn.active c in absurd (omega arith)

-- The three calls of sem_open.
pub open_board-IsRound :
    (n : ℕ) (ps : Players) (k : Kernel)
    → (k.sem_array dir1).is_use ≡ false
    → (k.sem_array dir2).is_use ≡ false
    → (k.sem_array dir3).is_use ≡ false
    → k.proc ps.ta_pid ≡ user
    → k.proc ps.te_pid ≡ user
    → k.proc ps.ti_pid ≡ user
    → (g : Board) × ((open_board n k).1 ≡ some g) × IsRound n ps g
unfolding open_board
open_board-IsRound n ps k f1 f2 f3 u1 u2 u3 =
    let k1 = with_sem k dir1 (opened 1) in
    let k2 = with_sem k1 dir2 (opened 0) in
    let k3 = with_sem k2 dir3 (opened 0) in
    let first = sys_sem_open-opens k dir1 (omega arith) 1 f1 (omega arith) in
    let second = sys_sem_open-opens k1 dir2 (omega arith) 0 f2 (omega arith) in
    let third = sys_sem_open-opens k2 dir3 (omega arith) 0 f3 (omega arith) in
    (
      record { kernel = k3; ta = before n; te = before n; ti = before n; printed = [] },
      rw (first, second, third) refl,
      of_ta 0 n n n false (omega arith) refl refl
          (record {
            turn = record {
              active = is_free refl (is_ready u1);
              other_shut = refl;
              rest = is_ready u2;
            };
            last_shut = refl;
            last_rest = is_ready u3;
          })
          refl,
    )
