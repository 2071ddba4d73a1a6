-- ===== src/Shell/Tests/Pipelines.antt =====
-- A pipeline of two commands whose second fork fails.
use famaf_unc.Shell.Outcome.{Text, returned, aborted}
use famaf_unc.Shell.Parsing.{
  ArgKind, arg_normal, Parser, parse_scommand, parse_arguments, with_argument,
}
use famaf_unc.Shell.Loop.{LeadingPipe, main_loop, main_loop-LeadingPipe}
use famaf_unc.Shell.Tests.{library, ls}
use famaf_unc.Shell.Command.{Scommand, Pipeline, scommand_push_back, scommand_is_empty}
use famaf_unc.Shell.Release.Total.{sized_pipeline}
use famaf_unc.Shell.Execute.{Parent, piped, execute_piped}
use famaf_unc.Shell.Execute.Ends.{closed_fds, execute_piped-closed_fds}
use famaf_unc.Base.{
  ℕ, zero, suc, leb, refl, false, Option, ◌≡◌, ◌==◌, true, none, some, [], ◌∷◌, if◌then◌else◌,
  arith,
}

abbrev one_word : Scommand
one_word = record { args = (b'a' ∷ []) ∷ []; redir_in = none; redir_out = none; size = 1 }

abbrev piped_parent : Parent
piped_parent = record {
  fork_answers = λ i. if i == 0 then some 10 else none;
  pipe_answers = λ i. none;
  trace = piped 3 4 ∷ [];
  background_pids = [];
}

execute_piped-closed_fds_example :
    (rest : Pipeline) × (t : Parent) × (execute_piped
        (sized_pipeline (one_word ∷ one_word ∷ []) true)
        (piped_parent, some ((3, 4) ∷ []))
      ≡ returned (rest, t))
    × (closed_fds t.trace ≡ 4 ∷ 3 ∷ [])
execute_piped-closed_fds_example =
    execute_piped-closed_fds (one_word ∷ one_word ∷ []) true ((3, 4) ∷ []) piped_parent
      (omega arith)

-- The line "| a", by the number of calls that were made on it.
abbrev next_of : ℕ → Option (ArgKind × Text)
next_of zero = none
next_of (suc zero) = none
next_of (suc (suc zero)) = some (arg_normal, b'a' ∷ [])
next_of (suc (suc (suc n))) = none

abbrev counting_parser : Parser ℕ
counting_parser = record {
  next_argument = λ n. (suc n, next_of n);
  skip_blanks = λ n. n;
  at_eof = λ n. leb 5 n;
  op_pipe = λ n. (suc n, n == 1);
  op_background = λ n. (n, false);
  garbage = λ n. (n, false);
}

counting_parser-LeadingPipe : LeadingPipe counting_parser 3 0 one_word
unfolding parse_scommand parse_arguments with_argument scommand_push_back scommand_is_empty
counting_parser-LeadingPipe = record {
  begun = 1;
  behind_pipe = 2;
  behind_command = 4;
  at_end = 5;
  not_eof = refl;
  no_argument = refl;
  is_pipe = refl;
  command = refl;
  no_pipe = refl;
}

main_loop-LeadingPipe_example :
    main_loop counting_parser library 4 (λ parent. []) 1 0 ls piped_parent ≡ aborted
main_loop-LeadingPipe_example =
    main_loop-LeadingPipe counting_parser library (λ parent. []) 0 2 0 one_word ls piped_parent
      counting_parser-LeadingPipe
