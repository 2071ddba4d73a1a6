-- ===== src/Shell/Builtin/Run.antt =====
-- The run of a builtin command.
use famaf_unc.Shell.Outcome.{Text, returned}
use famaf_unc.Shell.Command.{Scommand, scommand_pop_front, scommand_is_empty, scommand_front}
use famaf_unc.Shell.Builtin.{
  Library, continued, cd_name, cd_internal, change_directory, builtin_run, builtin_is_internal,
  find_handler,
}
use famaf_unc.Base.{
  suc, ◌+◌, ◌-◌, ◌%◌, ◌^◌, ◌<◌, ◌≡◌, refl, arith, length, false, Option, some, List, [], ◌∷◌, ◌==◌,
}

-- The directory that cd is given, or else HOME.
abbrev directory : {S : Type 0} → Library S → List Text → S → Option Text
directory lib [] s = lib.getenv_home s
directory lib (path ∷ more) s = some path

-- If a command has the arguments "cd" and `rest`, and its size is their number, then builtin_run changes to
-- the first of `rest`, or to HOME if there is none, and the shell goes on; no assert fails.
builtin_run-cd :
    {S : Type 0} (lib : Library S) (cmd : Scommand) (rest : List Text) (s : S)
    → cmd.args ≡ cd_name ∷ rest
    → cmd.size ≡ suc (length rest)
    → suc (length rest) < 2 ^ 32
    → builtin_run lib cmd s ≡ returned (continued (change_directory lib (directory lib rest s) s))
unfolding builtin_run builtin_is_internal find_handler cd_internal scommand_front scommand_pop_front
    scommand_is_empty
builtin_run-cd lib cmd [] s e z h = rw (z, e) refl
builtin_run-cd lib cmd (path ∷ more) s e z h =
    let less : (suc (suc (length more)) + 2 ^ 32 - 1) % 2 ^ 32 ≡ suc (length more) = omega arith in
    let filled : (suc (suc (length more)) == 0) ≡ false = ground arith in
    let left : (suc (length more) == 0) ≡ false = ground arith in
    simp (z, e, filled, less, left) refl
