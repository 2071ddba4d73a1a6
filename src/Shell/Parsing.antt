-- ===== src/Shell/Parsing.antt =====
-- parsing.c over the parser of parser.h, which the repository holds as object files only.
pub mod Arguments
use famaf_unc.Shell.Outcome.{Text, Outcome, returned, aborted, out_of_fuel, ◌>>=◌, assert}
use famaf_unc.Shell.Command.{
  Scommand, scommand_new, scommand_push_back, scommand_set_redir_in, scommand_set_redir_out,
  Pipeline, pipeline_new, pipeline_push_back, pipeline_set_wait, pipeline_length, pipeline_front,
  scommand_length,
}
use famaf_unc.Base.{ℕ, zero, suc, Bool, true, false, not, Option, none, some, ◌==◌, if◌then◌else◌}

-- arg_kind_t: the kinds that parser_next_argument gives.
pub data ArgKind : Type 0 where
  arg_normal arg_input arg_output : ArgKind

-- The calls of the parser, on its state `P`. An argument that is NULL is `none`.
pub record Parser (P : Type 0) : Type 0 where
  pub next_argument : P → P × Option (ArgKind × Text)
  pub skip_blanks : P → P
  pub at_eof : P → Bool
  pub op_pipe : P → P × Bool
  pub op_background : P → P × Bool
  pub garbage : P → P × Bool

unfoldable pub with_argument : Scommand → ArgKind → Text → Outcome Scommand
with_argument cmd arg_normal arg = scommand_push_back cmd arg
with_argument cmd arg_input arg = returned (scommand_set_redir_in cmd (some arg))
with_argument cmd arg_output arg = returned (scommand_set_redir_out cmd (some arg))

-- What follows a call of parser_next_argument in the loop of parse_scommand. Its last branch, for a
-- kind that is none of the three, is not reached.
abbrev pub after_argument :
    {P : Type 0}
    → (again : Scommand → P → Outcome (P × Scommand)) → Scommand
    → P × Option (ArgKind × Text)
    → Outcome (P × Scommand)
after_argument again cmd (s, none) = returned (s, cmd)
after_argument again cmd (s, some (kind, arg)) =
    with_argument cmd kind arg >>= λ after. again after s

unfoldable pub parse_arguments :
    {P : Type 0} → Parser P → (fuel : ℕ) → Scommand → P → Outcome (P × Scommand)
parse_arguments p zero cmd s = out_of_fuel
parse_arguments p (suc fuel) cmd s = after_argument (parse_arguments p fuel) cmd (p.next_argument s)

unfoldable pub parse_scommand : {P : Type 0} → Parser P → (fuel : ℕ) → P → Outcome (P × Scommand)
parse_scommand p fuel s = parse_arguments p fuel scommand_new s

-- The loop of parse_pipeline, entered with the command `cmd`; the tests of `error` are not reached.
unfoldable pub parse_pipes :
    {P : Type 0} → Parser P → (fuel : ℕ) → Pipeline → Scommand → P → Outcome (P × Pipeline)
parse_pipes p zero result cmd s = out_of_fuel
parse_pipes p (suc fuel) result cmd s = pipeline_push_back result cmd >>= λ longer.
    let piped = p.op_pipe (p.skip_blanks s) in
    elim piped.1 [
      | true ↦ parse_scommand p fuel piped.0 >>= λ parsed.
          parse_pipes p fuel longer parsed.1 (p.skip_blanks (p.skip_blanks parsed.0))
      | false ↦ returned (p.skip_blanks piped.0, longer)
    ]

-- A pipeline of one command without arguments is none.
unfoldable pub unless_blank : Pipeline → Outcome (Option Pipeline)
unless_blank result =
    if pipeline_length result == 1
    then (pipeline_front result >>= λ first.
        returned (if scommand_length first == 0 then none else some result))
    else returned (some result)

unfoldable pub parse_pipeline :
    {P : Type 0} → Parser P → (fuel : ℕ) → P → Outcome (P × Option Pipeline)
parse_pipeline p fuel s =
    let begun = p.skip_blanks s in
    if p.at_eof begun
    then returned (begun, none)
    else parse_scommand p fuel begun >>= λ parsed.
        parse_pipes p fuel pipeline_new parsed.1 parsed.0 >>= λ piped.
        let background = p.op_background piped.0 in
        unless_blank (pipeline_set_wait piped.1 (not background.1)) >>= λ result.
        returned ((p.garbage background.0).0, result)
