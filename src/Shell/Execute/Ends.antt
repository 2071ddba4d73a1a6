-- ===== src/Shell/Execute/Ends.antt =====
-- The parent closes the ends of its pipes whatever happens to the commands.
use famaf_unc.Shell.Outcome.{Outcome, returned}
use famaf_unc.Shell.Command.{
  Scommand, Pipeline, scommand_is_empty, pipeline_front, pipeline_pop_front, pipeline_is_empty,
}
use famaf_unc.Shell.Release.Total.{sized_pipeline}
use famaf_unc.Shell.Execute.{
  Parent, Event, forked, piped, closed, waited, complained, emit, fork, child_of,
  add_background_pid, max_background_procs, ends_of, close_pipes, abandoned, after_fork, spawn,
  wait_all, add_all, awaited, finish_pipeline, execute_piped,
}
use famaf_unc.Base.{
  ℕ, suc, ◌+◌, ◌-◌, ◌%◌, ◌^◌, ◌<◌, ◌≡◌, refl, sym, ap, subst, ◌∙◌, Bool, true, false, Option, none,
  some, List, [], ◌∷◌, ◌++◌, length, ltb, ◌==◌, arith, Bool-cases, Option-cases, inl, inr, take,
  zero,
}

-- The descriptors that were closed, the last one first.
abbrev pub closed_fds : List Event → List ℕ
closed_fds [] = []
closed_fds (forked pid child ∷ es) = closed_fds es
closed_fds (piped r w ∷ es) = closed_fds es
closed_fds (closed fd ∷ es) = fd ∷ closed_fds es
closed_fds (waited pid ∷ es) = closed_fds es
closed_fds (complained ∷ es) = closed_fds es

-- The second list below the first one, which is turned over.
abbrev pub onto : List ℕ → List ℕ → List ℕ
onto [] fds = fds
onto (d ∷ ds) fds = onto ds (d ∷ fds)

close_pipes-closed_fds :
    (n : ℕ) (pipes : List (ℕ × ℕ)) (s : Parent)
    → closed_fds (close_pipes n pipes s).trace ≡ onto (ends_of (take n pipes)) (closed_fds s.trace)
unfolding close_pipes
close_pipes-closed_fds zero pipes s = refl
close_pipes-closed_fds (suc n) [] s = refl
close_pipes-closed_fds (suc n) ((r, w) ∷ pipes) s =
    close_pipes-closed_fds n pipes (emit (closed w) (emit (closed r) s))

wait_all-closed_fds :
    (pids : List ℕ) (s : Parent) → closed_fds (wait_all pids s).trace ≡ closed_fds s.trace
unfolding wait_all
wait_all-closed_fds [] s = refl
wait_all-closed_fds (pid ∷ pids) s = wait_all-closed_fds pids (emit (waited pid) s)

add_background_pid-closed_fds :
    (pid : ℕ) (s : Parent) → closed_fds (add_background_pid pid s).trace ≡ closed_fds s.trace
unfolding add_background_pid
add_background_pid-closed_fds pid s =
    elim (Bool-cases (ltb (length s.background_pids) max_background_procs)) [
      | inl e ↦ rw e refl
      | inr e ↦ rw e refl
    ]

add_all-closed_fds :
    (pids : List ℕ) (s : Parent) → closed_fds (add_all pids s).trace ≡ closed_fds s.trace
unfolding add_all
add_all-closed_fds [] s = refl
add_all-closed_fds (pid ∷ pids) s =
    add_all-closed_fds pids (add_background_pid pid s) ∙ add_background_pid-closed_fds pid s

awaited-closed_fds :
    (wait : Bool) (pids : List ℕ) (s : Parent)
    → closed_fds (awaited wait pids s).trace ≡ closed_fds s.trace
awaited-closed_fds true pids s = wait_all-closed_fds pids s
awaited-closed_fds false pids s = add_all-closed_fds pids s

front-sized_pipeline :
    (c : Scommand) (cs : List Scommand) (wait : Bool)
    → pipeline_front (sized_pipeline (c ∷ cs) wait) ≡ returned c
unfolding pipeline_front pipeline_is_empty
front-sized_pipeline c cs wait =
    let filled : (suc (length cs) == 0) ≡ false = ground arith in rw filled refl

pop_front-sized_pipeline :
    (c : Scommand) (cs : List Scommand) (wait : Bool)
    → length cs < 2 ^ 31
    → pipeline_pop_front (sized_pipeline (c ∷ cs) wait) ≡ returned (sized_pipeline cs wait)
unfolding pipeline_pop_front pipeline_is_empty
pop_front-sized_pipeline c cs wait h =
    let filled : (suc (length cs) == 0) ≡ false = ground arith in
    let less : (suc (length cs) + 2 ^ 32 - 1) % 2 ^ 32 ≡ length cs = omega arith in
    rw (filled, less) refl

-- The outcome of the loop and of what follows it, from the parent `s` on.
abbrev Closes :
    (n_pipe : ℕ) → List (ℕ × ℕ) → Parent → Outcome (Pipeline × (Parent × Option (List ℕ))) → Type 0
Closes n_pipe pipes s run =
    (r : Pipeline × (Parent × Option (List ℕ))) × (run ≡ returned r)
    × (closed_fds (finish_pipeline n_pipe r.0.wait pipes r.1).trace
        ≡ onto (ends_of (take (n_pipe - 1) pipes)) (closed_fds s.trace))

after_fork-Closes :
    (n_pipe : ℕ) (p : Pipeline) (pipes : List (ℕ × ℕ)) (s : Parent) (i : ℕ) (c : Scommand)
    (next : ℕ → Parent → Outcome (Pipeline × (Parent × Option (List ℕ))))
    → ((pid : ℕ) (t : Parent)
        → closed_fds t.trace ≡ closed_fds s.trace
        → Closes n_pipe pipes s (next pid t))
    → Closes n_pipe pipes s (after_fork n_pipe pipes p (fork (child_of n_pipe pipes i c) s) next)
unfolding fork finish_pipeline
after_fork-Closes n_pipe p pipes s i c next h =
    let child = child_of n_pipe pipes i c in
    let t : Parent = record s { fork_answers = λ j. s.fork_answers (suc j) } in
    elim (Option-cases (s.fork_answers 0)) [
      | inl e ↦
          let run : fork child s ≡ (t, none) = rw (e, fork) refl in
          subst (λ z. Closes n_pipe pipes s (after_fork n_pipe pipes p z next)) (sym run)
            (
              (p, abandoned n_pipe pipes t),
              refl,
              close_pipes-closed_fds (n_pipe - 1) pipes (emit complained t),
            )
      | inr (pid, e) ↦
          let run : fork child s ≡ (emit (forked pid child) t, some pid) = rw (e, fork) refl in
          subst (λ z. Closes n_pipe pipes s (after_fork n_pipe pipes p z next)) (sym run)
            (h pid (emit (forked pid child) t) refl)
    ]

spawn-Closes :
    (n_pipe : ℕ) (cs : List Scommand) (i : ℕ) (wait : Bool) (pipes : List (ℕ × ℕ)) (pids : List ℕ)
    (s : Parent)
    → length cs < 2 ^ 31
    → Closes n_pipe pipes s (spawn n_pipe (length cs) i pipes (sized_pipeline cs wait) pids s)
unfolding spawn finish_pipeline
spawn-Closes n_pipe [] i wait pipes pids s h = (
  _,
  refl,
  awaited-closed_fds wait pids (close_pipes (n_pipe - 1) pipes s)
      ∙ close_pipes-closed_fds (n_pipe - 1) pipes s,
)
spawn-Closes n_pipe (c ∷ cs) i wait pipes pids s h =
    rw (front-sized_pipeline c cs wait) (elim (Bool-cases (scommand_is_empty c)) [
      | inl e ↦ rw e (_, refl, close_pipes-closed_fds (n_pipe - 1) pipes (emit complained s))
      | inr e ↦ rw e (
          after_fork-Closes n_pipe (sized_pipeline (c ∷ cs) wait) pipes s i c _ λ pid t same.
            let small : length cs < 2 ^ 31 = omega arith in
            rw (pop_front-sized_pipeline c cs wait small) (
              let (r, run, e) =
                spawn-Closes n_pipe cs (i + 1) wait pipes (pids ++ (pid ∷ [])) t small in
              (r, run, e ∙ ap (onto (ends_of (take (n_pipe - 1) pipes))) same)))
    ])

-- For a pipeline of fewer than 2 ^ 31 commands whose size is their number, and whatever pipes are open: execute_pipeline
-- behind the opening of its pipes ends without a failed assert, whether commands are empty, forks fail or
-- all succeed, and the parent has then closed both ends of each of its first pipes, one fewer than its
-- commands, in their order, and no other descriptor.
pub execute_piped-closed_fds :
    (cs : List Scommand) (wait : Bool) (pipes : List (ℕ × ℕ)) (s : Parent)
    → length cs < 2 ^ 31
    → (rest : Pipeline) × (t : Parent) × (execute_piped (sized_pipeline cs wait) (s, some pipes)
        ≡ returned (rest, t))
      × (closed_fds t.trace ≡ onto (ends_of (take (length cs - 1) pipes)) (closed_fds s.trace))
unfolding execute_piped
execute_piped-closed_fds cs wait pipes s h =
    let (r, run, e) = spawn-Closes (length cs) cs 0 wait pipes [] s h in
    (r.0, finish_pipeline (length cs) r.0.wait pipes r.1, rw run refl, e)
