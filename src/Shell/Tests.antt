-- ===== src/Shell/Tests.antt =====
-- Commands, a parser that reads a list of arguments, and a process that knows its directory.
mod Pipelines
use famaf_unc.Shell.Release.Total.{
  times, pipeline_blocks, sized_pipeline, pipeline_destroy-sized_pipeline,
}
use famaf_unc.Shell.Release.{Freed, pipeline_destroy}
use famaf_unc.Shell.Outcome.{Text, returned, ◌>>=◌}
use famaf_unc.Shell.Command.{Scommand, scommand_new, Pipeline, pipeline_to_string}
use famaf_unc.Shell.Command.Queue.{push_all, drain, drain-push_all}
use famaf_unc.Shell.Parsing.{ArgKind, arg_normal, arg_output, Parser, parse_scommand}
use famaf_unc.Shell.Parsing.Arguments.{Gives, normal, last_input, last_output, parse_scommand-Gives}
use famaf_unc.Shell.Builtin.{Library, continued, cd_name, builtin_run, change_directory}
use famaf_unc.Base.{◌≡◌, refl, arith, false, Option, none, some, List, [], ◌∷◌, true, Bool}

abbrev ls : Text
ls = b'l' ∷ b's' ∷ []

abbrev home : Text
home = b'/' ∷ b'h' ∷ []

abbrev words : List Text
words = cd_name ∷ home ∷ []

drain-push_all_example : (push_all words scommand_new >>= λ self. drain 2 self) ≡ returned words
drain-push_all_example = drain-push_all words (omega arith)

abbrev pair : Pipeline
pair = record {
  commands =
      record { args = words; redir_in = some ls; redir_out = some home; size = 2 }
      ∷ scommand_new
      ∷ [];
  wait = false;
  size = 2;
}

-- The state is what is left to read.
abbrev next_of : List (ArgKind × Text) → List (ArgKind × Text) × Option (ArgKind × Text)
next_of [] = ([], none)
next_of (a ∷ rest) = (rest, some a)

abbrev list_parser : Parser (List (ArgKind × Text))
list_parser = record {
  next_argument = next_of;
  skip_blanks = λ s. s;
  at_eof = λ s. false;
  op_pipe = λ s. (s, false);
  op_background = λ s. (s, false);
  garbage = λ s. (s, false);
}

abbrev line : List (ArgKind × Text)
line = (arg_normal, ls) ∷ (arg_output, home) ∷ (arg_normal, home) ∷ []

line-Gives : Gives list_parser line line []
line-Gives = (_, refl, (_, refl, (_, refl, refl)))

parse_scommand-Gives_example :
    (cmd : Scommand) × (parse_scommand list_parser 4 line ≡ returned ([], cmd))
    × (cmd.args ≡ normal line)
    × (cmd.redir_in ≡ last_input none line)
    × (cmd.redir_out ≡ last_output none line)
parse_scommand-Gives_example =
    parse_scommand-Gives list_parser 4 line line [] line-Gives (omega arith) (omega arith)

-- The state is the directory.
abbrev library : Library Text
library = record {
  chdir = λ s path. (path, false);
  getenv_home = λ s. some home;
  perror = λ s text. s;
  printf = λ s. s;
}

abbrev cd_home : Scommand
cd_home = record { args = words; redir_in = none; redir_out = none; size = 2 }

pipeline_destroy-sized_pipeline_example :
    (freed : List Freed) × (pipeline_destroy 3 (sized_pipeline (cd_home ∷ scommand_new ∷ []) true)
      ≡ returned (none, freed))
    × ((f : Freed → Bool) → times f freed ≡ times f (pipeline_blocks (cd_home ∷ scommand_new ∷ [])))
pipeline_destroy-sized_pipeline_example =
    pipeline_destroy-sized_pipeline 3 (cd_home ∷ scommand_new ∷ []) true (omega arith) (omega arith)
