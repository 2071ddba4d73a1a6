-- ===== src/Base/Updates.antt =====
-- A function changed at one number, for arrays and memory.
use Prim.Native.Nat.{ℕ}
use mathlib.Core.Path.{◌≡◌, refl}
use mathlib.Core.Bool.{true, false}
use native.Mathlib.Omega.{arith}
use famaf_unc.Base.Tests.{◌==◌, if◌then◌else◌}

abbrev pub updated {ℓ} : {A : Type ℓ} → (ℕ → A) → ℕ → A → ℕ → A
updated f i x j = if j == i then x else f j

pub eq_self : (i : ℕ) → (i == i) ≡ true
eq_self i = ground arith

pub updated_self {ℓ} : {A : Type ℓ} (f : ℕ → A) (i : ℕ) (x : A) → updated f i x i ≡ x
updated_self f i x = rw (eq_self i) refl

pub updated-ne {ℓ} :
    {A : Type ℓ} (f : ℕ → A) (i j : ℕ) (x : A) → (j == i) ≡ false → updated f i x j ≡ f j
updated-ne f i j x h = rw h refl
