-- ===== src/Shell/Execute/Program.antt =====
-- execute_scommand of execute.c: what a child does with its command.
use famaf_unc.Shell.Outcome.{Text, Outcome, returned, aborted, ◌>>=◌}
use famaf_unc.Shell.Command.{
  Scommand, scommand_is_empty, scommand_length, scommand_front, scommand_pop_front,
}
use famaf_unc.Shell.Builtin.{Library, builtin_is_internal, builtin_run, Process}
use famaf_unc.Base.{
  ℕ, zero, suc, Bool, true, false, Option, none, some, List, [], ◌∷◌, if◌then◌else◌,
}

-- The calls that execute_scommand makes in the child, on its state: open for reading or for writing, none for -1,
-- dup2, close, perror, and execvp, which gives no state if it succeeds.
pub record ChildCalls (S : Type 0) : Type 0 where
  pub open_file : S → (writable : Bool) → Text → S × Option ℕ
  pub dup2 : S → (old new : ℕ) → S
  pub close : S → ℕ → S
  pub perror : S → S
  pub execvp : S → Text → List Text → Option S

-- The child runs a program, exits with a failure, or comes back from a builtin command.
pub data Ended (S : Type 0) : Type 0 where
  ran : Text → List Text → Ended S
  exited_failure : S → Ended S
  came_back : Process S → Ended S

-- The loop that takes the arguments out of the command.
unfoldable pub take_args : ℕ → Scommand → Outcome (List Text × Scommand)
take_args zero cmd = returned ([], cmd)
take_args (suc n) cmd = scommand_front cmd >>= λ arg.
    scommand_pop_front cmd >>= λ rest. take_args n rest >>= λ r. returned (arg ∷ r.0, r.1)

-- One redirection, to the descriptor `std`; the program exits when the file does not open.
unfoldable pub redirect :
    {S : Type 0} → ChildCalls S → (writable : Bool) → (std : ℕ) → Option Text → S → S × Bool
redirect sys writable std none s = (s, true)
redirect sys writable std (some path) s =
    let (t, fd) = sys.open_file s writable path in
    elim fd [ none ↦ (sys.perror t, false) | some d ↦ (sys.close (sys.dup2 t d std) d, true) ]

unfoldable pub run_program : {S : Type 0} → ChildCalls S → List Text → S → Outcome (Ended S)
run_program sys [] s = aborted
run_program sys (name ∷ args) s = elim (sys.execvp s name (name ∷ args)) [
  | none ↦ returned (ran name (name ∷ args))
  | some t ↦ returned (exited_failure (sys.perror t))
]

abbrev pub if_opened : {S : Type 0} → S × Bool → (S → Outcome (Ended S)) → Outcome (Ended S)
if_opened (s, false) next = returned (exited_failure s)
if_opened (s, true) next = next s

unfoldable pub execute_scommand :
    {S : Type 0} → Library S → ChildCalls S → Scommand → S → Outcome (Ended S)
execute_scommand lib sys cmd s =
    if scommand_is_empty cmd
    then aborted
    else (builtin_is_internal lib cmd >>= λ internal.
        if internal
        then (builtin_run lib cmd s >>= λ r. returned (came_back r))
        else (take_args (scommand_length cmd) cmd >>= λ r.
            if_opened (redirect sys false 0 (r.1).redir_in s) (λ t.
              if_opened (redirect sys true 1 (r.1).redir_out t) (λ u. run_program sys r.0 u))))
