-- ===== src/Shell/Execute.antt =====
-- execute.c: the processes and pipes of a pipeline, and the list of background processes.
pub mod Ends
pub mod Program
use famaf_unc.Shell.Outcome.{Text, Outcome, returned, aborted, ◌>>=◌}
use famaf_unc.Shell.Command.{
  Scommand, scommand_is_empty, scommand_length, scommand_front, scommand_pop_front, Pipeline,
  pipeline_length, pipeline_front, pipeline_pop_front,
}
use famaf_unc.Shell.Builtin.{Library, builtin_is_internal, builtin_run, Process, continued, exited}
use famaf_unc.Base.{
  ℕ, zero, suc, ◌+◌, ◌-◌, Bool, true, false, not, ◌||◌, Option, none, some, List, [], ◌∷◌, ◌++◌,
  ltb, ◌==◌, if◌then◌else◌, length, get_elem?, take,
}

-- What the child of a fork does before execute_scommand: the ends of pipes that it takes for its input and its
-- output, the ends that it closes, and then its command.
pub record Child : Type 0 where
  pub input : Option ℕ
  pub output : Option ℕ
  pub closes : List ℕ
  pub command : Scommand

-- The calls of the parent.
pub data Event : Type 0 where
  forked : (pid : ℕ) → Child → Event
  piped : (read write : ℕ) → Event
  closed waited : ℕ → Event
  complained : Event

-- The parent, with what its next forks and pipes will answer, none for -1. `trace` has the last call first. The
-- list holds the entries of background_pids that background_count counts.
pub record Parent : Type 0 where
  pub fork_answers : ℕ → Option ℕ
  pub pipe_answers : ℕ → Option (ℕ × ℕ)
  pub trace : List Event
  pub background_pids : List ℕ

abbrev pub max_background_procs : ℕ
max_background_procs = 100

abbrev pub emit : Event → Parent → Parent
emit e s = record s { trace = e ∷ s.trace }

unfoldable pub fork : Child → Parent → Parent × Option ℕ
fork child s =
    let later : Parent = record s { fork_answers = λ i. s.fork_answers (suc i) } in
    elim (s.fork_answers 0) [
      | none ↦ (later, none)
      | some pid ↦ (emit (forked pid child) later, some pid)
    ]

unfoldable pub pipe : Parent → Parent × Option (ℕ × ℕ)
pipe s =
    let later : Parent = record s { pipe_answers = λ i. s.pipe_answers (suc i) } in
    elim (s.pipe_answers 0) [
      | none ↦ (later, none)
      | some (r, w) ↦ (emit (piped r w) later, some (r, w))
    ]

unfoldable pub add_background_pid : ℕ → Parent → Parent
add_background_pid pid s =
    if ltb (length s.background_pids) max_background_procs
    then record s { background_pids = s.background_pids ++ (pid ∷ []) }
    else emit complained s

-- The shift to the left from the first entry that is `pid`.
unfoldable pub without_pid : ℕ → List ℕ → List ℕ
without_pid pid [] = []
without_pid pid (p ∷ ps) = let rest = without_pid pid ps in if p == pid then ps else p ∷ rest

-- The list gives what waitpid finds until it finds none.
unfoldable pub cleanup_zombies : List ℕ → Parent → Parent
cleanup_zombies [] s = s
cleanup_zombies (pid ∷ ended) s =
    cleanup_zombies ended (record s { background_pids = without_pid pid s.background_pids })

abbrev pub with_ends :
    Parent × Option (ℕ × ℕ) → Parent × Option (List (ℕ × ℕ)) → Parent × Option (List (ℕ × ℕ))
with_ends (s, none) later = (emit complained s, none)
with_ends (s, some ends) (t, none) = (t, none)
with_ends (s, some ends) (t, some rest) = (t, some (ends ∷ rest))

-- The pipes from the first to the last; none when one fails, and then no more are opened.
unfoldable pub open_pipes : ℕ → Parent → Parent × Option (List (ℕ × ℕ))
open_pipes zero s = (s, some [])
open_pipes (suc n) s = let rest = open_pipes n (pipe s).0 in with_ends (pipe s) rest

abbrev pub ends_of : List (ℕ × ℕ) → List ℕ
ends_of [] = []
ends_of ((r, w) ∷ pipes) = r ∷ w ∷ ends_of pipes

-- The loop `for (int j = 0; j < n; j++)` with the calls of close on both ends of a pipe; `pipes` begins with the
-- pipe `j`. No pipe behind the last one is closed.
unfoldable pub close_pipes : (n : ℕ) → List (ℕ × ℕ) → Parent → Parent
close_pipes zero pipes s = s
close_pipes (suc n) [] s = s
close_pipes (suc n) ((r, w) ∷ pipes) s = close_pipes n pipes (emit (closed w) (emit (closed r) s))

abbrev pub read_end : Option (ℕ × ℕ) → Option ℕ
read_end none = none
read_end (some (r, w)) = some r

abbrev pub write_end : Option (ℕ × ℕ) → Option ℕ
write_end none = none
write_end (some (r, w)) = some w

-- The child for command `i` of `n_pipe`: the read end of the pipe before it, and the write end of the pipe behind it.
unfoldable pub child_of : (n_pipe : ℕ) → List (ℕ × ℕ) → (i : ℕ) → Scommand → Child
child_of n_pipe pipes i cmd = record {
  input = if ltb 0 i then read_end (get_elem? pipes (i - 1)) else none;
  output = if ltb i (n_pipe - 1) then write_end (get_elem? pipes i) else none;
  closes = ends_of (take (n_pipe - 1) pipes);
  command = cmd;
}

abbrev pub abandoned : (n_pipe : ℕ) → List (ℕ × ℕ) → Parent → Parent × Option (List ℕ)
abandoned n_pipe pipes s = (close_pipes (n_pipe - 1) pipes (emit complained s), none)

-- After a fork: the next round of the loop, with the new pid behind the others.
abbrev pub after_fork :
    (n_pipe : ℕ)
    → List (ℕ × ℕ)
    → Pipeline
    → Parent × Option ℕ
    → (ℕ → Parent → Outcome (Pipeline × (Parent × Option (List ℕ))))
    → Outcome (Pipeline × (Parent × Option (List ℕ)))
after_fork n_pipe pipes p (s, none) next = returned (p, abandoned n_pipe pipes s)
after_fork n_pipe pipes p (s, some pid) next = next pid s

-- The loop over the `left` commands from `i` on; `pids` holds the children so far. None after an error. The pipeline
-- is what the calls of pipeline_pop_front leave of it.
unfoldable pub spawn :
    (n_pipe left i : ℕ)
    → List (ℕ × ℕ)
    → Pipeline
    → List ℕ
    → Parent
    → Outcome (Pipeline × (Parent × Option (List ℕ)))
spawn n_pipe zero i pipes p pids s = returned (p, (s, some pids))
spawn n_pipe (suc left) i pipes p pids s = pipeline_front p >>= λ cmd.
    if scommand_is_empty cmd
    then returned (p, abandoned n_pipe pipes s)
    else after_fork n_pipe pipes p (fork (child_of n_pipe pipes i cmd) s) (λ pid t.
      pipeline_pop_front p >>= λ rest. spawn n_pipe left (i + 1) pipes rest (pids ++ (pid ∷ [])) t)

unfoldable pub wait_all : List ℕ → Parent → Parent
wait_all [] s = s
wait_all (pid ∷ pids) s = wait_all pids (emit (waited pid) s)

unfoldable pub add_all : List ℕ → Parent → Parent
add_all [] s = s
add_all (pid ∷ pids) s = add_all pids (add_background_pid pid s)

abbrev pub awaited : (wait : Bool) → List ℕ → Parent → Parent
awaited true pids s = wait_all pids s
awaited false pids s = add_all pids s

unfoldable pub finish_pipeline :
    (n_pipe : ℕ) (wait : Bool) → List (ℕ × ℕ) → Parent × Option (List ℕ) → Parent
finish_pipeline n_pipe wait pipes (s, none) = s
finish_pipeline n_pipe wait pipes (s, some pids) =
    awaited wait pids (close_pipes (n_pipe - 1) pipes s)

unfoldable pub execute_piped :
    Pipeline → Parent × Option (List (ℕ × ℕ)) → Outcome (Pipeline × Parent)
execute_piped p (s, none) = returned (p, s)
execute_piped p (s, some pipes) =
    let n_pipe = pipeline_length p in
    spawn n_pipe n_pipe 0 pipes p [] s >>= λ r.
    returned (r.0, finish_pipeline n_pipe r.0.wait pipes r.1)

abbrev pub simple_child : Scommand → Child
simple_child cmd = record { input = none; output = none; closes = []; command = cmd }

unfoldable pub after_single : (wait : Bool) → Parent × Option ℕ → Parent
after_single wait (s, none) = emit complained s
after_single wait (s, some pid) = awaited wait (pid ∷ []) s

-- malloc does not fail. The state of the shell itself changes only by a builtin command, the pipeline only where
-- its commands are run behind pipes.
unfoldable pub execute_pipeline :
    {S : Type 0} → Library S → Pipeline → S → Parent → Outcome (Pipeline × (Process S × Parent))
execute_pipeline lib p s parent =
    if pipeline_length p == 0
    then returned (p, (continued s, emit complained parent))
    else (pipeline_front p >>= λ first. builtin_is_internal lib first >>= λ internal.
        if internal
        then (builtin_run lib first s >>= λ r. returned (p, (r, parent)))
        else if pipeline_length p == 1
        then returned (p, (continued s, after_single p.wait (fork (simple_child first) parent)))
        else (execute_piped p (open_pipes (pipeline_length p - 1) parent) >>= λ t.
            returned (t.0, (continued s, t.1))))
