-- ===== src/Shell/Command/Print.antt =====
-- The printed forms pass the asserts at their end.
use famaf_unc.Shell.Outcome.{Text, returned, assert}
use famaf_unc.Shell.Command.{
  Scommand, Pipeline, scommand_to_string, joined, redirection, is_null, scommand_is_empty,
  joined_commands, background_sign, pipeline_to_string, pipeline_is_empty,
}
use famaf_unc.Base.{
  ◌≡◌, refl, Bool, true, false, ◌||◌, Option, none, some, List, [], ◌∷◌, ◌++◌, ltb, length, arith,
  length-append,
}

or_true : (b : Bool) → (b || true) ≡ true
or_true true = refl
or_true false = refl

assert-or_true : {A : Type 0} (b : Bool) (x : A) → assert (b || true) x ≡ returned x
assert-or_true b x = rw (or_true b) refl

assert-redirected :
    (b : Bool) (text : Text) (i o : Option Text)
    → let res = text ++ (redirection b'<' i ++ redirection b'>' o) in
      assert (b || (is_null i || (is_null o || ltb 0 (length res)))) res ≡ returned res
unfolding redirection
assert-redirected b text none o = assert-or_true b _
assert-redirected b text (some i) none = assert-or_true b _
assert-redirected b text (some i) (some o) =
    let res = text ++ (redirection b'<' (some i) ++ redirection b'>' (some o)) in
    let long : ltb 0 (length res) ≡ true =
      ground (arith, length-append text (redirection b'<' (some i) ++ redirection b'>' (some o))) in
    rw (long, or_true b) refl

scommand_to_string-returned :
    (self : Scommand)
    → scommand_to_string self
      ≡ returned
          (joined self.args ++ (redirection b'<' self.redir_in ++ redirection b'>' self.redir_out))
unfolding scommand_to_string
scommand_to_string-returned self =
    assert-redirected (scommand_is_empty self) (joined self.args) self.redir_in self.redir_out

joined_commands-returned :
    (cs : List Scommand) → (text : Text) × (joined_commands cs ≡ returned text)
unfolding joined_commands
joined_commands-returned [] = ([], refl)
joined_commands-returned (c ∷ []) = (_, scommand_to_string-returned c)
joined_commands-returned (c ∷ d ∷ cs) =
    let (rest, e) = joined_commands-returned (d ∷ cs) in
    let first = joined c.args ++ (redirection b'<' c.redir_in ++ redirection b'>' c.redir_out) in
    (first ++ (b' ' ∷ b'|' ∷ b' ' ∷ rest), rw (scommand_to_string-returned c, e) refl)

assert-background :
    (b wait : Bool) (text : Text)
    → let res = text ++ background_sign wait in
      assert (b || (wait || ltb 0 (length res))) res ≡ returned res
unfolding background_sign
assert-background b true text = assert-or_true b _
assert-background b false text =
    let long : ltb 0 (length (text ++ background_sign false)) ≡ true =
      ground (arith, length-append text (background_sign false)) in
    rw (long, or_true b) refl

-- Every pipeline has a printed form: no assert fails in pipeline_to_string or in the calls that it makes.
pipeline_to_string-returned :
    (self : Pipeline) → (text : Text) × (pipeline_to_string self ≡ returned text)
unfolding pipeline_to_string
pipeline_to_string-returned self =
    let (text, e) = joined_commands-returned self.commands in
    (
      text ++ background_sign self.wait,
      rw e (assert-background (pipeline_is_empty self) self.wait text),
    )
