-- ===== src/Shell/Command.antt =====
-- command.c: simple commands and pipelines. A GList is a list. What is released is in Release.
pub mod Queue
pub mod Print
use famaf_unc.Shell.Outcome.{Text, Outcome, returned, aborted, ◌>>=◌, assert}
use famaf_unc.Base.{
  ℕ, zero, suc, ◌+◌, ◌-◌, ◌*◌, ◌^◌, ◌%◌, Bool, true, false, not, ◌||◌, ◌&&◌, Option, none, some,
  List, [], ◌∷◌, ◌++◌, ltb, ◌==◌, if◌then◌else◌, length,
}

-- struct scommand_s; a name that is NULL is `none`.
pub record Scommand : Type 0 where
  pub args : List Text
  pub redir_in : Option Text
  pub redir_out : Option Text
  pub size : ℕ

abbrev pub scommand_new : Scommand
scommand_new = record { args = []; redir_in = none; redir_out = none; size = 0 }

unfoldable pub scommand_is_empty : Scommand → Bool
scommand_is_empty self = self.size == 0

-- An unsigned int goes up and down by one.
abbrev pub increment : ℕ → ℕ
increment n = (n + 1) % 2 ^ 32

abbrev pub decrement : ℕ → ℕ
decrement n = (n + 2 ^ 32 - 1) % 2 ^ 32

unfoldable pub scommand_push_back : Scommand → Text → Outcome Scommand
unfolding scommand_is_empty
scommand_push_back self argument =
    let after = record self { args = self.args ++ (argument ∷ []); size = increment self.size } in
    assert (not (scommand_is_empty after)) after

-- An empty list has no front to free.
abbrev pub without_front : {A : Type 0} → List A → Outcome (List A)
without_front [] = aborted
without_front (x ∷ xs) = returned xs

unfoldable pub scommand_pop_front : Scommand → Outcome Scommand
scommand_pop_front self =
    if scommand_is_empty self
    then aborted
    else without_front self.args >>= λ rest.
        returned (record self { args = rest; size = decrement self.size })

abbrev pub scommand_set_redir_in : Scommand → Option Text → Scommand
scommand_set_redir_in self filename = record self { redir_in = filename }

abbrev pub scommand_set_redir_out : Scommand → Option Text → Scommand
scommand_set_redir_out self filename = record self { redir_out = filename }

abbrev pub scommand_length : Scommand → ℕ
scommand_length self = self.size

abbrev pub front_of : {A : Type 0} → List A → Outcome A
front_of [] = aborted
front_of (x ∷ xs) = returned x

unfoldable pub scommand_front : Scommand → Outcome Text
scommand_front self = if scommand_is_empty self then aborted else front_of self.args

unfoldable pub joined : List Text → Text
joined [] = []
joined (a ∷ []) = a
joined (a ∷ c ∷ cs) = a ++ (b' ' ∷ joined (c ∷ cs))

-- " < " or " > " and the name.
unfoldable pub redirection : (sign : ℕ) → Option Text → Text
redirection sign none = []
redirection sign (some name) = b' ' ∷ sign ∷ b' ' ∷ name

abbrev pub is_null : {A : Type 0} → Option A → Bool
is_null none = true
is_null (some x) = false

unfoldable pub scommand_to_string : Scommand → Outcome Text
scommand_to_string self =
    let res =
      joined self.args ++ (redirection b'<' self.redir_in ++ redirection b'>' self.redir_out) in
    assert
      (scommand_is_empty self
        || (is_null self.redir_in || (is_null self.redir_out || ltb 0 (length res))))
      res

-- struct pipeline_s
pub record Pipeline : Type 0 where
  pub commands : List Scommand
  pub wait : Bool
  pub size : ℕ

abbrev pub pipeline_new : Pipeline
pipeline_new = record { commands = []; wait = true; size = 0 }

unfoldable pub pipeline_is_empty : Pipeline → Bool
pipeline_is_empty self = self.size == 0

unfoldable pub pipeline_push_back : Pipeline → Scommand → Outcome Pipeline
unfolding pipeline_is_empty
pipeline_push_back self sc =
    let after = record self { commands = self.commands ++ (sc ∷ []); size = increment self.size } in
    assert (not (pipeline_is_empty after)) after

unfoldable pub pipeline_pop_front : Pipeline → Outcome Pipeline
pipeline_pop_front self =
    if pipeline_is_empty self
    then aborted
    else without_front self.commands >>= λ rest.
        returned (record self { commands = rest; size = decrement self.size })

abbrev pub pipeline_set_wait : Pipeline → Bool → Pipeline
pipeline_set_wait self w = record self { wait = w }

abbrev pub pipeline_length : Pipeline → ℕ
pipeline_length self = self.size

unfoldable pub pipeline_front : Pipeline → Outcome Scommand
pipeline_front self = if pipeline_is_empty self then aborted else front_of self.commands

unfoldable pub joined_commands : List Scommand → Outcome Text
joined_commands [] = returned []
joined_commands (c ∷ []) = scommand_to_string c
joined_commands (c ∷ d ∷ cs) = scommand_to_string c >>= λ text.
    joined_commands (d ∷ cs) >>= λ rest. returned (text ++ (b' ' ∷ b'|' ∷ b' ' ∷ rest))

unfoldable pub background_sign : Bool → Text
background_sign true = []
background_sign false = b' ' ∷ b'&' ∷ b' ' ∷ []

unfoldable pub pipeline_to_string : Pipeline → Outcome Text
pipeline_to_string self = joined_commands self.commands >>= λ text.
    let res = text ++ background_sign self.wait in
    assert (pipeline_is_empty self || (self.wait || ltb 0 (length res))) res
