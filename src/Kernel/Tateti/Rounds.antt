-- ===== src/Kernel/Tateti/Rounds.antt =====
-- In every interleaving the three processes print in turn.
use famaf_unc.Kernel.PingPong.{prints}
use famaf_unc.Kernel.PingPong.Turns.{heard}
use famaf_unc.Kernel.Tateti.{
  Syllable, say_ta, say_te, say_ti, Board, dir1, dir2, dir3, Players, Player, plays_ta, plays_te,
  plays_ti, board_step, play_board,
}
use famaf_unc.Kernel.Tateti.Turns.{
  HasTurnOfThree, AllApart, rotated, move_first, move_second, move_third,
}
use famaf_unc.Base.{
  ℕ, zero, suc, ◌+◌, ◌≡◌, refl, ap, ◌∙◌, Bool, false, List, [], ◌∷◌, ◌==◌, arith, inl, inr,
}

-- What is printed in so many rounds, the last syllable first.
abbrev pub said : ℕ → List Syllable
said zero = []
said (suc i) = say_ti ∷ say_te ∷ say_ta ∷ said i

-- The pids are three.
pub record AreApart (ps : Players) : Type 0 where
  pub ta_te : (ps.ta_pid == ps.te_pid) ≡ false
  pub te_ti : (ps.te_pid == ps.ti_pid) ≡ false
  pub ti_ta : (ps.ti_pid == ps.ta_pid) ≡ false

-- After `i` rounds, with `x` rounds left for the process that has the turn, `y` for the next one, and `z` for the last.
pub data IsRound (n : ℕ) (ps : Players) (g : Board) : Type 0 where
  of_ta :
      (i x y z : ℕ) (b : Bool)
      → i + x ≡ n
      → y ≡ x
      → z ≡ x
      → HasTurnOfThree g.kernel dir1 dir2 dir3 ps.ta_pid ps.te_pid ps.ti_pid g.ta x b g.te y g.ti z
      → g.printed ≡ heard say_ta b (said i)
      → IsRound n ps g
  of_te :
      (i x y z : ℕ) (b : Bool)
      → i + x ≡ n
      → y ≡ x
      → suc z ≡ x
      → HasTurnOfThree g.kernel dir2 dir3 dir1 ps.te_pid ps.ti_pid ps.ta_pid g.te x b g.ti y g.ta z
      → g.printed ≡ heard say_te b (say_ta ∷ said i)
      → IsRound n ps g
  of_ti :
      (i x y z : ℕ) (b : Bool)
      → i + x ≡ n
      → suc y ≡ x
      → suc z ≡ x
      → HasTurnOfThree g.kernel dir3 dir1 dir2 ps.ti_pid ps.ta_pid ps.te_pid g.ti x b g.ta y g.te z
      → g.printed ≡ heard say_ti b (say_te ∷ say_ta ∷ said i)
      → IsRound n ps g

module _ (n : ℕ) (ps : Players) (apart : AreApart ps) where
  pub ta-AllApart : AllApart dir1 dir2 dir3 ps.ta_pid ps.te_pid ps.ti_pid
  ta-AllApart =
      let a = apart.ta_te in
      let b = apart.te_ti in
      let c = apart.ti_ta in
      record {
        near = record {
          own_valid = omega arith;
          other_valid = omega arith;
          own_other = refl;
          other_own = refl;
          me_you = a;
          you_me = ground arith;
        };
        far = record {
          own_valid = omega arith;
          other_valid = omega arith;
          own_other = refl;
          other_own = refl;
          me_you = b;
          you_me = ground arith;
        };
        back = record {
          own_valid = omega arith;
          other_valid = omega arith;
          own_other = refl;
          other_own = refl;
          me_you = c;
          you_me = ground arith;
        };
      }

  pub te-AllApart : AllApart dir2 dir3 dir1 ps.te_pid ps.ti_pid ps.ta_pid
  te-AllApart = rotated ta-AllApart

  pub ti-AllApart : AllApart dir3 dir1 dir2 ps.ti_pid ps.ta_pid ps.te_pid
  ti-AllApart = rotated te-AllApart

  step-of_ta :
      (p : Player) (g : Board) (i x y z : ℕ) (b : Bool)
      → i + x ≡ n
      → y ≡ x
      → z ≡ x
      → HasTurnOfThree g.kernel dir1 dir2 dir3 ps.ta_pid ps.te_pid ps.ti_pid g.ta x b g.te y g.ti z
      → g.printed ≡ heard say_ta b (said i)
      → IsRound n ps (board_step ps p g)
  unfolding board_step
  step-of_ta plays_ta g i x y z b e ey ez h out =
      elim (move_first Syllable g.kernel dir1 dir2 dir3 ps.ta_pid ps.te_pid ps.ti_pid ta-AllApart
        h) [
          | inl (c, h2, nearer, words) ↦
              of_ta i x y z c e ey ez h2 (ap (prints say_ta g.ta) out ∙ words say_ta (said i))
          | inr (l, el, eb, h2, words) ↦
              of_te i y z l false (omega arith) (omega arith) (omega arith) h2
                (words say_ta g.printed ∙ out ∙ ap (λ c. heard say_ta c (said i)) eb)
        ]
  step-of_ta plays_te g i x y z b e ey ez h out =
      let (h2, words) =
        move_second Syllable g.kernel dir1 dir2 dir3 ps.ta_pid ps.te_pid ps.ti_pid ta-AllApart h in
      of_ta i x y z b e ey ez h2 (words say_te g.printed ∙ out)
  step-of_ta plays_ti g i x y z b e ey ez h out =
      let (h2, words) =
        move_third Syllable g.kernel dir1 dir2 dir3 ps.ta_pid ps.te_pid ps.ti_pid ta-AllApart h in
      of_ta i x y z b e ey ez h2 (words say_ti g.printed ∙ out)

  step-of_te :
      (p : Player) (g : Board) (i x y z : ℕ) (b : Bool)
      → i + x ≡ n
      → y ≡ x
      → suc z ≡ x
      → HasTurnOfThree g.kernel dir2 dir3 dir1 ps.te_pid ps.ti_pid ps.ta_pid g.te x b g.ti y g.ta z
      → g.printed ≡ heard say_te b (say_ta ∷ said i)
      → IsRound n ps (board_step ps p g)
  unfolding board_step
  step-of_te plays_te g i x y z b e ey ez h out =
      elim (move_first Syllable g.kernel dir2 dir3 dir1 ps.te_pid ps.ti_pid ps.ta_pid te-AllApart
        h) [
          | inl (c, h2, nearer, words) ↦
              of_te i x y z c e ey ez h2
                (ap (prints say_te g.te) out ∙ words say_te (say_ta ∷ said i))
          | inr (l, el, eb, h2, words) ↦
              of_ti i y z l false (omega arith) (omega arith) (omega arith) h2
                (words say_te g.printed ∙ out ∙ ap (λ c. heard say_te c (say_ta ∷ said i)) eb)
        ]
  step-of_te plays_ti g i x y z b e ey ez h out =
      let (h2, words) =
        move_second Syllable g.kernel dir2 dir3 dir1 ps.te_pid ps.ti_pid ps.ta_pid te-AllApart h in
      of_te i x y z b e ey ez h2 (words say_ti g.printed ∙ out)
  step-of_te plays_ta g i x y z b e ey ez h out =
      let (h2, words) =
        move_third Syllable g.kernel dir2 dir3 dir1 ps.te_pid ps.ti_pid ps.ta_pid te-AllApart h in
      of_te i x y z b e ey ez h2 (words say_ta g.printed ∙ out)

  step-of_ti :
      (p : Player) (g : Board) (i x y z : ℕ) (b : Bool)
      → i + x ≡ n
      → suc y ≡ x
      → suc z ≡ x
      → HasTurnOfThree g.kernel dir3 dir1 dir2 ps.ti_pid ps.ta_pid ps.te_pid g.ti x b g.ta y g.te z
      → g.printed ≡ heard say_ti b (say_te ∷ say_ta ∷ said i)
      → IsRound n ps (board_step ps p g)
  unfolding board_step
  step-of_ti plays_ti g i x y z b e ey ez h out =
      elim (move_first Syllable g.kernel dir3 dir1 dir2 ps.ti_pid ps.ta_pid ps.te_pid ti-AllApart
        h) [
          | inl (c, h2, nearer, words) ↦
              of_ti i x y z c e ey ez h2
                (ap (prints say_ti g.ti) out ∙ words say_ti (say_te ∷ say_ta ∷ said i))
          | inr (l, el, eb, h2, words) ↦
              of_ta (suc i) y z l false (omega arith) (omega arith) (omega arith) h2 (
                words say_ti g.printed
                ∙ out
                ∙ ap (λ c. heard say_ti c (say_te ∷ say_ta ∷ said i)) eb)
        ]
  step-of_ti plays_ta g i x y z b e ey ez h out =
      let (h2, words) =
        move_second Syllable g.kernel dir3 dir1 dir2 ps.ti_pid ps.ta_pid ps.te_pid ti-AllApart h in
      of_ti i x y z b e ey ez h2 (words say_ta g.printed ∙ out)
  step-of_ti plays_te g i x y z b e ey ez h out =
      let (h2, words) =
        move_third Syllable g.kernel dir3 dir1 dir2 ps.ti_pid ps.ta_pid ps.te_pid ti-AllApart h in
      of_ti i x y z b e ey ez h2 (words say_te g.printed ∙ out)

  step-IsRound : (p : Player) (g : Board) → IsRound n ps g → IsRound n ps (board_step ps p g)
  step-IsRound p g (of_ta i x y z b e ey ez h out) = step-of_ta p g i x y z b e ey ez h out
  step-IsRound p g (of_te i x y z b e ey ez h out) = step-of_te p g i x y z b e ey ez h out
  step-IsRound p g (of_ti i x y z b e ey ez h out) = step-of_ti p g i x y z b e ey ez h out

  pub play_board-IsRound :
      (moves : List Player) (g : Board) → IsRound n ps g → IsRound n ps (play_board ps moves g)
  unfolding play_board
  play_board-IsRound [] g h = h
  play_board-IsRound (p ∷ moves) g h =
      play_board-IsRound moves (board_step ps p g) (step-IsRound p g h)
