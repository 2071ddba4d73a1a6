-- ===== src/Shell/Loop.antt =====
-- The loop of mybash.c, over the parser, the builtin commands and the processes.
use famaf_unc.Shell.Outcome.{Outcome, returned, aborted, out_of_fuel, ◌>>=◌}
use famaf_unc.Shell.Command.{
  Scommand, scommand_new, scommand_is_empty, scommand_front, Pipeline, pipeline_new,
  pipeline_push_back, pipeline_is_empty, pipeline_front,
}
use famaf_unc.Shell.Parsing.{
  Parser, parse_arguments, parse_scommand, parse_pipes, unless_blank, parse_pipeline,
}
use famaf_unc.Shell.Builtin.{Library, Process, continued, exited, builtin_is_internal}
use famaf_unc.Shell.Release.{pipeline_destroy}
use famaf_unc.Shell.Execute.{Parent, cleanup_zombies, execute_pipeline}
use famaf_unc.Base.{
  ℕ, zero, suc, ◌≡◌, refl, ap, Bool, true, false, not, Option, none, some, List, [], ◌∷◌,
  if◌then◌else◌,
}

module _ {P S : Type 0} (p : Parser P) (lib : Library S) (fuel : ℕ) (ended : Parent → List ℕ) where
  -- What follows parse_pipeline: pipeline_destroy releases what execute_pipeline has left of the pipeline.
  unfoldable pub execute_line :
      (again : S → Parent → Outcome (Process S × Parent))
      → Option Pipeline
      → S
      → Parent
      → Outcome (Process S × Parent)
  execute_line again none s parent = again s parent
  execute_line again (some line) s parent = execute_pipeline lib line s parent >>= λ r. elim r.1.0 [
    | continued t ↦ pipeline_destroy fuel r.0 >>= λ gone. again t r.1.1
    | exited t ↦ returned r.1
  ]

  -- One round for each unit of `rounds`. The prompt only prints.
  unfoldable pub main_loop : (rounds : ℕ) → P → S → Parent → Outcome (Process S × Parent)
  main_loop zero input s parent = out_of_fuel
  main_loop (suc rounds) input s parent = parse_pipeline p fuel input >>= λ parsed.
      execute_line
        (λ t q.
          if p.at_eof parsed.0 then returned (continued t, q) else main_loop rounds parsed.0 t q)
        parsed.1 s (cleanup_zombies (ended parent) parent)

-- The parser meets a pipe where a command may begin, then a command, and no other pipe.
pub record LeadingPipe {P : Type 0} (p : Parser P) (fuel : ℕ) (input : P) (cmd : Scommand)
    : Type 0 where
  pub begun : P
  pub behind_pipe : P
  pub behind_command : P
  pub at_end : P
  pub not_eof : p.at_eof (p.skip_blanks input) ≡ false
  pub no_argument : p.next_argument (p.skip_blanks input) ≡ (begun, none)
  pub is_pipe : p.op_pipe (p.skip_blanks begun) ≡ (behind_pipe, true)
  pub command : parse_scommand p fuel behind_pipe ≡ returned (behind_command, cmd)
  pub no_pipe :
      p.op_pipe (p.skip_blanks (p.skip_blanks (p.skip_blanks behind_command))) ≡ (at_end, false)

abbrev blank_first : Scommand → (wait : Bool) → Pipeline
blank_first cmd wait = record { commands = scommand_new ∷ cmd ∷ []; wait = wait; size = 2 }

module _ {P S : Type 0} (p : Parser P) (lib : Library S) (ended : Parent → List ℕ) where
  execute_pipeline-blank_first :
      (cmd : Scommand) (wait : Bool) (s : S) (parent : Parent)
      → execute_pipeline lib (blank_first cmd wait) s parent ≡ aborted
  unfolding execute_pipeline pipeline_front pipeline_is_empty builtin_is_internal scommand_front
      scommand_is_empty
  execute_pipeline-blank_first cmd wait s parent = refl

  parse_scommand-none :
      (fuel : ℕ) (input begun : P)
      → p.next_argument input ≡ (begun, none)
      → parse_scommand p (suc fuel) input ≡ returned (begun, scommand_new)
  unfolding parse_scommand parse_arguments
  parse_scommand-none fuel input begun e = rw (e, parse_arguments) refl

  parse_pipes-LeadingPipe :
      (fuel : ℕ) (input : P) (cmd : Scommand)
      → (h : LeadingPipe p (suc fuel) input cmd)
      → parse_pipes p (suc (suc fuel)) pipeline_new scommand_new h.begun
        ≡ returned (p.skip_blanks h.at_end, blank_first cmd true)
  unfolding parse_pipes pipeline_push_back pipeline_is_empty
  parse_pipes-LeadingPipe fuel input cmd h =
      let behind = ap (λ r. r.0) h.is_pipe in
      let yes = ap (λ r. r.1) h.is_pipe in
      let end = ap (λ r. r.0) h.no_pipe in
      let no = ap (λ r. r.1) h.no_pipe in rw (yes, behind, h.command, no, end) refl

  parse_pipeline-LeadingPipe :
      (fuel : ℕ) (input : P) (cmd : Scommand)
      → LeadingPipe p (suc fuel) input cmd
      → (after : P) × (wait : Bool) × (parse_pipeline p (suc (suc fuel)) input
          ≡ returned (after, some (blank_first cmd wait)))
  unfolding parse_pipeline unless_blank
  parse_pipeline-LeadingPipe fuel input cmd h =
      let background = p.op_background (p.skip_blanks h.at_end) in
      (
        (p.garbage background.0).0,
        not background.1,
        rw
            (
              h.not_eof,
              parse_scommand-none (suc fuel) (p.skip_blanks input) h.begun h.no_argument,
              parse_pipes-LeadingPipe fuel input cmd h,
            )
            refl,
      )

  -- When the parser meets a pipe where a line begins, and behind it a command and no other pipe, then with enough fuel for
  -- that command the loop of the shell is stopped by a failed assert.
  pub main_loop-LeadingPipe :
      (rounds fuel : ℕ) (input : P) (cmd : Scommand) (s : S) (parent : Parent)
      → LeadingPipe p (suc fuel) input cmd
      → main_loop p lib (suc (suc fuel)) ended (suc rounds) input s parent ≡ aborted
  unfolding main_loop execute_line
  main_loop-LeadingPipe rounds fuel input cmd s parent h =
      let (after, wait, run) = parse_pipeline-LeadingPipe fuel input cmd h in
      rw (run, execute_pipeline-blank_first cmd wait s (cleanup_zombies (ended parent) parent)) refl
