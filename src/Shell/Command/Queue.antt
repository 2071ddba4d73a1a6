-- ===== src/Shell/Command/Queue.antt =====
-- A simple command is a queue of arguments.
use famaf_unc.Shell.Outcome.{Text, Outcome, returned, ◌>>=◌}
use famaf_unc.Shell.Command.{
  Scommand, scommand_new, scommand_push_back, scommand_pop_front, scommand_front, scommand_is_empty,
}
use famaf_unc.Base.{
  ℕ, zero, suc, ◌+◌, ◌-◌, ◌^◌, ◌%◌, ◌≡◌, ◌<◌, refl, false, List, [], ◌∷◌, ◌++◌, ◌==◌, length, ap,
  ◌∙◌, arith, length-append, append_assoc, append-nil,
}

abbrev pub push_all : List Text → Scommand → Outcome Scommand
push_all [] self = returned self
push_all (x ∷ xs) self = scommand_push_back self x >>= λ after. push_all xs after

-- The fronts of `n` calls of scommand_front, each before a call of scommand_pop_front.
abbrev pub drain : (n : ℕ) → Scommand → Outcome (List Text)
drain zero self = returned []
drain (suc n) self = scommand_front self >>= λ x.
    scommand_pop_front self >>= λ rest. drain n rest >>= λ xs. returned (x ∷ xs)

-- Without redirections.
abbrev sized : List Text → Scommand
sized xs = record scommand_new { args = xs; size = length xs }

scommand_push_back-sized :
    (ys : List Text) (x : Text)
    → suc (length ys) < 2 ^ 32
    → scommand_push_back (sized ys) x ≡ returned (sized (ys ++ (x ∷ [])))
unfolding scommand_push_back scommand_is_empty
scommand_push_back-sized ys x h =
    let more : (length ys + 1) % 2 ^ 32 ≡ length (ys ++ (x ∷ [])) =
      omega (arith, length-append ys (x ∷ [])) in
    let filled : (length (ys ++ (x ∷ [])) == 0) ≡ false =
      ground (arith, length-append ys (x ∷ [])) in
    rw (more, filled) refl

scommand_pop_front-sized :
    (x : Text) (xs : List Text)
    → suc (length xs) < 2 ^ 32
    → scommand_pop_front (sized (x ∷ xs)) ≡ returned (sized xs)
unfolding scommand_pop_front scommand_is_empty
scommand_pop_front-sized x xs h =
    let less : (suc (length xs) + 2 ^ 32 - 1) % 2 ^ 32 ≡ length xs = omega arith in
    let filled : (suc (length xs) == 0) ≡ false = ground arith in rw (filled, less) refl

push_all-sized :
    (xs ys : List Text)
    → length ys + length xs < 2 ^ 32
    → push_all xs (sized ys) ≡ returned (sized (ys ++ xs))
push_all-sized [] ys h = rw (append-nil ys) refl
push_all-sized (x ∷ xs) ys h = rw (scommand_push_back-sized ys x (omega arith)) (
    push_all-sized xs (ys ++ (x ∷ [])) (omega (arith, length-append ys (x ∷ [])))
    ∙ ap (λ zs. returned (sized zs)) (append_assoc ys (x ∷ []) xs))

scommand_front-sized : (x : Text) (xs : List Text) → scommand_front (sized (x ∷ xs)) ≡ returned x
unfolding scommand_front scommand_is_empty
scommand_front-sized x xs =
    let filled : (suc (length xs) == 0) ≡ false = ground arith in rw filled refl

drain-sized : (xs : List Text) → length xs < 2 ^ 32 → drain (length xs) (sized xs) ≡ returned xs
drain-sized [] h = refl
drain-sized (x ∷ xs) h =
    rw (scommand_front-sized x xs, scommand_pop_front-sized x xs h, drain-sized xs (omega arith))
      refl

-- Fewer than 2 ^ 32 arguments that are pushed come out of the front in the order in which they went in.
pub drain-push_all :
    (xs : List Text)
    → length xs < 2 ^ 32
    → (push_all xs scommand_new >>= λ self. drain (length xs) self) ≡ returned xs
drain-push_all xs h = rw (push_all-sized xs [] (omega arith)) (drain-sized xs h)
