-- ===== src/Shell/Parsing/Arguments.antt =====
-- parse_scommand makes of the arguments what they say.
use famaf_unc.Shell.Outcome.{Text, returned}
use famaf_unc.Shell.Command.{Scommand, scommand_push_back, scommand_is_empty}
use famaf_unc.Shell.Parsing.{
  ArgKind, arg_normal, arg_input, arg_output, Parser, with_argument, parse_arguments,
  parse_scommand,
}
use famaf_unc.Base.{
  ℕ, zero, suc, ◌+◌, ◌^◌, ◌%◌, ◌≡◌, ◌<◌, refl, ap, ◌∙◌, false, Option, none, some, List, [], ◌∷◌,
  ◌++◌, length, ◌==◌, arith, append-nil, append_assoc, length-append,
}

-- From the state `s` on the parser gives these arguments, then NULL in the state `t`.
abbrev pub Gives : {P : Type 0} → Parser P → P → List (ArgKind × Text) → P → Type 0
Gives p s [] t = p.next_argument s ≡ (t, none)
Gives {P} p s (a ∷ as') t = (u : P) × (p.next_argument s ≡ (u, some a)) × Gives p u as' t

abbrev pub normal : List (ArgKind × Text) → List Text
normal [] = []
normal ((arg_normal, x) ∷ rest) = x ∷ normal rest
normal ((arg_input, x) ∷ rest) = normal rest
normal ((arg_output, x) ∷ rest) = normal rest

-- The last argument of a kind, or the text before them.
abbrev pub last_input : Option Text → List (ArgKind × Text) → Option Text
last_input o [] = o
last_input o ((arg_normal, x) ∷ rest) = last_input o rest
last_input o ((arg_input, x) ∷ rest) = last_input (some x) rest
last_input o ((arg_output, x) ∷ rest) = last_input o rest

abbrev pub last_output : Option Text → List (ArgKind × Text) → Option Text
last_output o [] = o
last_output o ((arg_normal, x) ∷ rest) = last_output o rest
last_output o ((arg_input, x) ∷ rest) = last_output o rest
last_output o ((arg_output, x) ∷ rest) = last_output (some x) rest

abbrev command : List Text → Option Text → Option Text → Scommand
command xs i o = record { args = xs; redir_in = i; redir_out = o; size = length xs }

scommand_push_back-command :
    (ys : List Text) (x : Text) (i o : Option Text)
    → suc (length ys) < 2 ^ 32
    → scommand_push_back (command ys i o) x ≡ returned (command (ys ++ (x ∷ [])) i o)
unfolding scommand_push_back scommand_is_empty
scommand_push_back-command ys x i o h =
    let more : (length ys + 1) % 2 ^ 32 ≡ length (ys ++ (x ∷ [])) =
      omega (arith, length-append ys (x ∷ [])) in
    let filled : (length (ys ++ (x ∷ [])) == 0) ≡ false =
      ground (arith, length-append ys (x ∷ [])) in
    rw (more, filled) refl

parse_arguments-Gives :
    {P : Type 0} (p : Parser P) (fuel : ℕ) (given : List (ArgKind × Text)) (ys : List Text)
    (i o : Option Text) (s t : P)
    → Gives p s given t
    → length given < fuel
    → length ys + length given < 2 ^ 32
    → parse_arguments p fuel (command ys i o) s
      ≡ returned (t, command (ys ++ normal given) (last_input i given) (last_output o given))
unfolding parse_arguments with_argument
parse_arguments-Gives p zero given ys i o s t g f h = absurd (omega arith)
parse_arguments-Gives p (suc fuel) [] ys i o s t g f h = rw (g, append-nil ys) refl
parse_arguments-Gives p (suc fuel) ((arg_normal, x) ∷ given) ys i o s t (u, e, g) f h =
    rw (e, scommand_push_back-command ys x i o (omega arith))
      (parse_arguments-Gives p fuel given (ys ++ (x ∷ [])) i o u t g (omega arith)
          (omega (arith, length-append ys (x ∷ [])))
        ∙ ap (λ zs. returned (t, command zs (last_input i given) (last_output o given)))
            (append_assoc ys (x ∷ []) (normal given)))
parse_arguments-Gives p (suc fuel) ((arg_input, x) ∷ given) ys i o s t (u, e, g) f h =
    rw e (parse_arguments-Gives p fuel given ys (some x) o u t g (omega arith) (omega arith))
parse_arguments-Gives p (suc fuel) ((arg_output, x) ∷ given) ys i o s t (u, e, g) f h =
    rw e (parse_arguments-Gives p fuel given ys i (some x) u t g (omega arith) (omega arith))

-- If the parser gives fewer than 2 ^ 32 arguments and then NULL, parse_scommand ends, with a command whose
-- arguments are the normal ones in their order, and whose redirections are the last input and the
-- last output.
pub parse_scommand-Gives :
    {P : Type 0} (p : Parser P) (fuel : ℕ) (given : List (ArgKind × Text)) (s t : P)
    → Gives p s given t
    → length given < fuel
    → length given < 2 ^ 32
    → (cmd : Scommand) × (parse_scommand p fuel s ≡ returned (t, cmd))
      × (cmd.args ≡ normal given)
      × (cmd.redir_in ≡ last_input none given)
      × (cmd.redir_out ≡ last_output none given)
unfolding parse_scommand
parse_scommand-Gives p fuel given s t g f h =
    (_, parse_arguments-Gives p fuel given [] none none s t g f (omega arith), refl, refl, refl)
