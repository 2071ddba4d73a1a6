-- ===== src/Kernel/Tateti/Finish.antt =====
-- From each round on, some order of the moves leads the three processes behind their loops.
use famaf_unc.Kernel.Semaphore.{Kernel}
use famaf_unc.Kernel.PingPong.{Turn, before, waiting, printing, raising, finished, move, prints}
use famaf_unc.Kernel.PingPong.Turns.{
  Idle, Active, is_free, prints_next, raises_next, heard, moves_left, move_last,
}
use famaf_unc.Kernel.Tateti.{
  Syllable, say_ta, say_te, say_ti, Board, dir1, dir2, dir3, Players, Player, plays_ta, plays_te,
  plays_ti, board_step, play_board,
}
use famaf_unc.Kernel.Tateti.Turns.{HasTurnOfThree, move_first, move_second}
use famaf_unc.Kernel.Tateti.Rounds.{
  AreApart, IsRound, of_ta, of_te, of_ti, said, ta-AllApart, te-AllApart, ti-AllApart,
}
use famaf_unc.Kernel.Tateti.Alternation.{AllFinished}
use famaf_unc.Base.{
  ℕ, zero, suc, ◌+◌, ◌*◌, ◌<◌, ◌≤◌, ◌≡◌, ap, ◌∙◌, Bool, false, List, [], ◌∷◌, arith, inl, inr, ◌⊎◌,
}

moves_left-bounds : (t : Turn) → (0 < moves_left t) × (moves_left t ≤ 3)
moves_left-bounds (before i) = (omega arith, omega arith)
moves_left-bounds (waiting i) = (omega arith, omega arith)
moves_left-bounds (printing i) = (omega arith, omega arith)
moves_left-bounds (raising i) = (omega arith, omega arith)
moves_left-bounds finished = (omega arith, omega arith)

Active-Idle :
    {k : Kernel} {own p m : ℕ} {t : Turn} {b : Bool}
    → Active k own p t m b
    → m ≡ 0
    → Idle k own 1 p t m
Active-Idle (is_free one idle) e = idle
Active-Idle (prints_next shut p) e = absurd (omega arith)
Active-Idle (raises_next shut p) e = absurd (omega arith)

module _ (n : ℕ) (ps : Players) (apart : AreApart ps) where
  -- A schedule after which all are behind their loops.
  abbrev pub CanFinish : Board → Type 0
  CanFinish g = (moves : List Player) × AllFinished (play_board ps moves g)

  CanFinish-step : (p : Player) (g : Board) → CanFinish (board_step ps p g) → CanFinish g
  unfolding play_board
  CanFinish-step p g (moves, done) = (p ∷ moves, done)

  -- The moves of the processes with the turn up to the last one.
  rounds_left : {g : Board} → IsRound n ps g → ℕ
  rounds_left {g} (of_ta i x y z b e ey ez h out) = 9 * x + 6 + moves_left g.ta
  rounds_left {g} (of_te i x y z b e ey ez h out) = 9 * x + 3 + moves_left g.te
  rounds_left {g} (of_ti i x y z b e ey ez h out) = 9 * x + moves_left g.ti

  last-finishes :
      (g : Board) (x y z : ℕ) (b : Bool)
      → y ≡ x
      → z ≡ x
      → HasTurnOfThree g.kernel dir1 dir2 dir3 ps.ta_pid ps.te_pid ps.ti_pid g.ta x b g.te y g.ti z
      → x ≡ 0
      → CanFinish g
  unfolding play_board board_step
  last-finishes g x y z b ey ez h e =
      let a = ta-AllApart n ps apart in
      let one =
        move_last Syllable g.kernel dir1 dir2 ps.ta_pid ps.te_pid a.near 1 g.ta x
          (Active-Idle h.turn.active e) e in
      elim (move_first Syllable g.kernel dir1 dir2 dir3 ps.ta_pid ps.te_pid ps.ti_pid a h) [
        | inr (l, el, eb, h2, words) ↦ absurd (omega arith)
        | inl (c, h2, nearer, words) ↦
            let k1 = (move ps.ta_pid dir1 dir2 g.ta g.kernel).0 in
            let two =
              move_last Syllable k1 dir2 dir3 ps.te_pid ps.ti_pid a.far 0 g.te y h2.turn.rest
                (omega arith) in
            let (h3, silent) =
              move_second Syllable k1 dir1 dir2 dir3 ps.ta_pid ps.te_pid ps.ti_pid a h2 in
            let k2 = (move ps.te_pid dir2 dir3 g.te k1).0 in
            let three =
              move_last Syllable k2 dir3 dir1 ps.ti_pid ps.ta_pid a.back 0 g.ti z h3.last_rest
                (omega arith) in
            (plays_ta ∷ plays_te ∷ plays_ti ∷ [], (one, two, three))
      ]

  -- A round that is not the last one goes on.
  abbrev GoesOn : (g : Board) → IsRound n ps g → Type 0
  GoesOn g h =
      CanFinish g
      ⊎ ((p : Player) × (after : IsRound n ps (board_step ps p g)) × (rounds_left after
            < rounds_left h))

  IsRound-GoesOn : (g : Board) (h : IsRound n ps g) → GoesOn g h
  unfolding board_step rounds_left
  IsRound-GoesOn g (of_ta i x y z b e ey ez h out) =
      let (pos, low) = moves_left-bounds g.ta in
      let (next_pos, next_low) = moves_left-bounds g.te in
      elim (move_first Syllable g.kernel dir1 dir2 dir3 ps.ta_pid ps.te_pid ps.ti_pid
        (ta-AllApart n ps apart) h) [
          | inl (c, h2, inl none_left, words) ↦ inl (last-finishes g x y z b ey ez h none_left)
          | inl (c, h2, inr less, words) ↦ inr (
            plays_ta,
            of_ta i x y z c e ey ez h2 (ap (prints say_ta g.ta) out ∙ words say_ta (said i)),
            omega arith,
          )
          | inr (l, el, eb, h2, words) ↦ inr (
            plays_ta,
            of_te i y z l false (omega arith) (omega arith) (omega arith) h2
                (words say_ta g.printed ∙ out ∙ ap (λ c. heard say_ta c (said i)) eb),
            omega arith,
          )
        ]
  IsRound-GoesOn g (of_te i x y z b e ey ez h out) =
      let (pos, low) = moves_left-bounds g.te in
      let (next_pos, next_low) = moves_left-bounds g.ti in
      elim (move_first Syllable g.kernel dir2 dir3 dir1 ps.te_pid ps.ti_pid ps.ta_pid
        (te-AllApart n ps apart) h) [
          | inl (c, h2, inl none_left, words) ↦ absurd (omega arith)
          | inl (c, h2, inr less, words) ↦ inr (
            plays_te,
            of_te i x y z c e ey ez h2
                (ap (prints say_te g.te) out ∙ words say_te (say_ta ∷ said i)),
            omega arith,
          )
          | inr (l, el, eb, h2, words) ↦ inr (
            plays_te,
            of_ti i y z l false (omega arith) (omega arith) (omega arith) h2
                (words say_te g.printed ∙ out ∙ ap (λ c. heard say_te c (say_ta ∷ said i)) eb),
            omega arith,
          )
        ]
  IsRound-GoesOn g (of_ti i x y z b e ey ez h out) =
      let (pos, low) = moves_left-bounds g.ti in
      let (next_pos, next_low) = moves_left-bounds g.ta in
      elim (move_first Syllable g.kernel dir3 dir1 dir2 ps.ti_pid ps.ta_pid ps.te_pid
        (ti-AllApart n ps apart) h) [
          | inl (c, h2, inl none_left, words) ↦ absurd (omega arith)
          | inl (c, h2, inr less, words) ↦ inr (
            plays_ti,
            of_ti i x y z c e ey ez h2
                (ap (prints say_ti g.ti) out ∙ words say_ti (say_te ∷ say_ta ∷ said i)),
            omega arith,
          )
          | inr (l, el, eb, h2, words) ↦ inr (
            plays_ti,
            of_ta (suc i) y z l false (omega arith) (omega arith) (omega arith) h2 (
                words say_ti g.printed
                ∙ out
                ∙ ap (λ c. heard say_ti c (say_te ∷ say_ta ∷ said i)) eb),
            omega arith,
          )
        ]

  finishes-within : (fuel : ℕ) (g : Board) (h : IsRound n ps g) → rounds_left h < fuel → CanFinish g
  finishes-within zero g h f = absurd (omega arith)
  finishes-within (suc fuel) g h f = elim (IsRound-GoesOn g h) [
    | inl done ↦ done
    | inr (p, after, less) ↦
        CanFinish-step p g (finishes-within fuel (board_step ps p g) after (omega arith))
  ]

  pub IsRound-CanFinish : (g : Board) → IsRound n ps g → CanFinish g
  IsRound-CanFinish g h = finishes-within (suc (rounds_left h)) g h (omega arith)
