-- ===== src/Shell/Outcome.antt =====
-- What a call of the shell's functions comes to: a value, a failed assert, or a loop without fuel.
use famaf_unc.Base.{ℕ, List, Bool, true, false}

-- A char * that is not NULL: the characters up to the zero.
abbrev pub Text : Type 0
Text = List ℕ

pub data Outcome {ℓ} (A : Type ℓ) : Type ℓ where
  returned : A → Outcome A
  aborted out_of_fuel : Outcome A

infixl 20 ◌>>=◌
abbrev pub ◌>>=◌ {ℓ κ} : {A : Type ℓ} {B : Type κ} → Outcome A → (A → Outcome B) → Outcome B
returned x >>= f = f x
aborted >>= f = aborted
out_of_fuel >>= f = out_of_fuel

abbrev pub assert {ℓ} : {A : Type ℓ} → Bool → A → Outcome A
assert true x = returned x
assert false x = aborted
