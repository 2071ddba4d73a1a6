-- ===== src/Shell/Builtin.antt =====
-- builtin.c: the commands that the shell runs itself.
pub mod Run
use famaf_unc.Shell.Outcome.{Text, Outcome, returned, aborted, ◌>>=◌}
use famaf_unc.Shell.Command.{
  Scommand, scommand_pop_front, scommand_is_empty, scommand_front, Pipeline, pipeline_length,
  pipeline_front,
}
use famaf_unc.Base.{
  ℕ, Bool, true, false, not, ◌&&◌, Option, none, some, List, [], ◌∷◌, ◌==◌, if◌then◌else◌,
}

-- The calls of the C library, on the state `S` of the process. `chdir` gives whether it failed, and `printf`
-- prints the help text.
pub record Library (S : Type 0) : Type 0 where
  pub chdir : S → Text → S × Bool
  pub getenv_home : S → Option Text
  pub perror : S → Text → S
  pub printf : S → S

-- What becomes of the process.
pub data Process (S : Type 0) : Type 0 where
  continued exited : S → Process S

-- strcmp(a, b) == 0
abbrev pub same_text : Text → Text → Bool
same_text [] [] = true
same_text [] (d ∷ ds) = false
same_text (c ∷ cs) [] = false
same_text (c ∷ cs) (d ∷ ds) = c == d && same_text cs ds

abbrev pub cd_name : Text
cd_name = b'c' ∷ b'd' ∷ []

abbrev pub help_name : Text
help_name = b'h' ∷ b'e' ∷ b'l' ∷ b'p' ∷ []

abbrev pub exit_name : Text
exit_name = b'e' ∷ b'x' ∷ b'i' ∷ b't' ∷ []

-- If chdir(path) != 0, perror("cd").
unfoldable pub change_directory : {S : Type 0} → Library S → Option Text → S → S
change_directory lib none s = s
change_directory lib (some path) s =
    if (lib.chdir s path).1 then lib.perror (lib.chdir s path).0 cd_name else (lib.chdir s path).0

unfoldable pub cd_internal : {S : Type 0} → Library S → Scommand → S → Outcome (Process S)
cd_internal lib cmd s = scommand_pop_front cmd >>= λ rest.
    (if not (scommand_is_empty rest)
      then (scommand_front rest >>= λ path. returned (some path))
      else returned (lib.getenv_home s))
    >>= λ path. returned (continued (change_directory lib path s))

abbrev pub help_internal : {S : Type 0} → Library S → Scommand → S → Outcome (Process S)
help_internal lib cmd s = returned (continued (lib.printf s))

abbrev pub exit_internal : {S : Type 0} → Library S → Scommand → S → Outcome (Process S)
exit_internal lib cmd s = returned (exited s)

-- The rows of cmd_table.
abbrev pub cmd_table : {S : Type 0} → Library S → List (Text × (Scommand → S → Outcome (Process S)))
cmd_table lib =
    (cd_name, cd_internal lib)
    ∷ (help_name, help_internal lib)
    ∷ (exit_name, exit_internal lib)
    ∷ []

-- The handler in the first row with this name.
unfoldable pub find_handler : {A : Type 0} → Text → List (Text × A) → Option A
find_handler name [] = none
find_handler name ((row, handler) ∷ rows) =
    if same_text name row then some handler else find_handler name rows

abbrev pub is_some : {A : Type 0} → Option A → Bool
is_some none = false
is_some (some x) = true

unfoldable pub builtin_is_internal : {S : Type 0} → Library S → Scommand → Outcome Bool
builtin_is_internal lib cmd =
    scommand_front cmd >>= λ name. returned (is_some (find_handler name (cmd_table lib)))

unfoldable pub builtin_alone : {S : Type 0} → Library S → Pipeline → Outcome Bool
builtin_alone lib p =
    if pipeline_length p == 1
    then (pipeline_front p >>= λ first. builtin_is_internal lib first)
    else returned false

abbrev pub run_handler :
    {S : Type 0} → Option (Scommand → S → Outcome (Process S)) → Scommand → S → Outcome (Process S)
run_handler none cmd s = returned (continued s)
run_handler (some handler) cmd s = handler cmd s

unfoldable pub builtin_run : {S : Type 0} → Library S → Scommand → S → Outcome (Process S)
builtin_run lib cmd s = builtin_is_internal lib cmd >>= λ internal.
    if internal
    then (scommand_front cmd >>= λ name. run_handler (find_handler name (cmd_table lib)) cmd s)
    else aborted
