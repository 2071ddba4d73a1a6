-- ===== src/Fat/Mount/Powers.antt =====
-- What the bit operations compute on powers of two.
use native.Mathlib.Nat.{
  mul_assoc, pow-suc, add-mod_right, mod-eq_of_lt, pow-le-pow_right, div-div-eq-div-mul,
}
use famaf_unc.Fat.Mount.Bits.{bit_and, highest_bit, is_power_of_2, bsr}
use famaf_unc.Fat.Table.Sizes.{pow-pos}
use famaf_unc.Base.{
  ℕ, zero, suc, ◌+◌, ◌-◌, ◌*◌, ◌/◌, ◌%◌, ◌^◌, ◌<◌, ◌≤◌, ◌≡◌, refl, sym, ap, ◌∙◌, true, false, not,
  ◌&&◌, ◌==◌, ltb, arith, none, some, inl, inr, ◌⊎◌, Bool-cases, min, ltb→lt, subst,
}

bit_and_self : (w n : ℕ) → n < 2 ^ w → bit_and w n n ≡ n
unfolding bit_and
bit_and_self zero n h = omega arith
bit_and_self (suc w) n h = omega (arith, pow-suc 2 w, bit_and_self w (n / 2))

highest_bit-two : (w n : ℕ) → 2 ≤ n → highest_bit (suc w) n ≡ suc (highest_bit w (n / 2))
unfolding highest_bit
highest_bit-two w n h = ground arith

highest_bit-one : (w n : ℕ) → n < 2 → highest_bit (suc w) n ≡ 0
unfolding highest_bit
highest_bit-one w n h = ground arith

half-pred :
    (n : ℕ)
    → 2 ≤ n
    → ((n % 2 ≡ 0) × ((n - 1) / 2 ≡ n / 2 - 1)) ⊎ ((n % 2 ≡ 1) × ((n - 1) / 2 ≡ n / 2))
half-pred n h = elim (Bool-cases (n % 2 == 0)) [
  | inl e ↦ let even : n % 2 ≡ 0 = ground arith in inl (even, omega arith)
  | inr e ↦ let odd : n % 2 ≡ 1 = ground arith in inr (odd, omega arith)
]

-- A number of `w` bits that shares no bit with the one before it is the power of two of its highest bit.
bit_and-pred : (w n : ℕ) → 0 < n → n < 2 ^ w → bit_and w n (n - 1) ≡ 0 → n ≡ 2 ^ highest_bit w n
unfolding bit_and
bit_and-pred zero n pos h e = absurd (omega arith)
bit_and-pred (suc w) n pos h e =
    let small : n / 2 < 2 ^ w = omega (arith, pow-suc 2 w) in
    elim (Bool-cases (ltb n 2)) [
      | inl t ↦ rw (highest_bit-one w n (ltb→lt n 2 t)) (let lt_two = ltb→lt n 2 t in omega arith)
      | inr f ↦
          let two : 2 ≤ n = ground arith in
          rw (highest_bit-two w n two) (elim (half-pred n two) [
            | inl (even, half) ↦
                let shared : bit_and w (n / 2) (n / 2 - 1) ≡ 0 =
                  subst (λ z. bit_and w (n / 2) z ≡ 0) half (omega arith) in
                omega (
                  arith,
                  pow-suc 2 (highest_bit w (n / 2)),
                  bit_and-pred w (n / 2) (omega arith) small shared,
                )
            | inr (odd, half) ↦
                let shared : bit_and w (n / 2) (n / 2) ≡ 0 =
                  subst (λ z. bit_and w (n / 2) z ≡ 0) half (omega arith) in
                absurd (omega (arith, bit_and_self w (n / 2) small))
          ])
    ]

bit_and-pow : (w k : ℕ) → bit_and w (2 ^ k) (2 ^ k - 1) ≡ 0
unfolding bit_and
bit_and-pow zero k = refl
bit_and-pow (suc w) zero = bit_and_self (suc w) 0 (pow-pos (suc w))
bit_and-pow (suc w) (suc k) =
    let half : 2 ^ suc k / 2 ≡ 2 ^ k = omega (arith, pow-suc 2 k) in
    let below : (2 ^ suc k - 1) / 2 ≡ 2 ^ k - 1 = omega (arith, pow-suc 2 k, pow-pos k) in
    let even : 2 ^ suc k % 2 ≡ 0 = omega (arith, pow-suc 2 k) in
    rw (even, half, below, bit_and-pow w k) (omega arith)

pred-mod : (n : ℕ) → 0 < n → n < 2 ^ 64 → (n + 2 ^ 64 - 1) % 2 ^ 64 ≡ n - 1
pred-mod n pos h =
    let e : n + 2 ^ 64 - 1 ≡ n - 1 + 2 ^ 64 = omega arith in
    ap (λ z. z % 2 ^ 64) e ∙ add-mod_right (n - 1) (2 ^ 64) ∙ mod-eq_of_lt (omega arith)

some-power : (n : ℕ) → 0 < n → (n == 0) ≡ false
some-power n pos = ground arith

is_power_of_2-pos : (n : ℕ) → is_power_of_2 n ≡ true → 0 < n
unfolding is_power_of_2
is_power_of_2-pos n e = ground arith

pub is_power_of_2-pow : (n : ℕ) → n < 2 ^ 64 → is_power_of_2 n ≡ true → n ≡ 2 ^ highest_bit 64 n
unfolding is_power_of_2
is_power_of_2-pow n h e =
    let pos = is_power_of_2-pos n e in
    let q = subst (λ z. (bit_and 64 n z == 0 && not (n == 0)) ≡ true) (pred-mod n pos h) e in
    let shared : bit_and 64 n (n - 1) ≡ 0 = ground arith in bit_and-pred 64 n pos h shared

two_pos : 0 < 2
two_pos = omega arith

-- A power of two is one by the bits.
pub is_power_of_2-of : (k : ℕ) → k < 64 → is_power_of_2 (2 ^ k) ≡ true
unfolding is_power_of_2
is_power_of_2-of k h =
    let small : 2 ^ k ≤ 2 ^ 63 = pow-le-pow_right two_pos {j = 63} (omega arith) in
    rw
      (pred-mod (2 ^ k) (pow-pos k) (omega arith), bit_and-pow 64 k, some-power (2 ^ k) (pow-pos k))
      refl

highest_bit-pow : (w k : ℕ) → k < w → highest_bit w (2 ^ k) ≡ k
highest_bit-pow zero k h = absurd (omega arith)
highest_bit-pow (suc w) zero h = highest_bit-one w 1 (omega arith)
highest_bit-pow (suc w) (suc k) h =
    let half : 2 ^ suc k / 2 ≡ 2 ^ k = omega (arith, pow-suc 2 k) in
    highest_bit-two w (2 ^ suc k) (omega (arith, pow-suc 2 k, pow-pos k))
    ∙ ap suc (ap (highest_bit w) half ∙ highest_bit-pow w k (omega arith))

pub bsr-pow : (n k : ℕ) → n ≡ 2 ^ k → k < 64 → bsr n ≡ some k
unfolding bsr
bsr-pow n k e h =
    let pos : 0 < n = omega (arith, pow-pos k) in
    rw (some-power n pos, e, highest_bit-pow 64 k h) refl

pub bsr-cases : (n : ℕ) → (bsr n ≡ none) ⊎ (bsr n ≡ some (highest_bit 64 n))
unfolding bsr
bsr-cases n = elim (Bool-cases (n == 0)) [ inl e ↦ inl (rw e refl) | inr e ↦ inr (rw e refl) ]

div-twice : (a k : ℕ) → a / 2 / 2 ^ k ≡ a / 2 ^ suc k
div-twice a k = div-div-eq-div-mul a 2 (2 ^ k) ∙ ap (λ z. a / z) (omega (arith, pow-suc 2 k))

bit_and-ones : (w a : ℕ) → a < 2 ^ w → bit_and w a (2 ^ w - 1) ≡ a
unfolding bit_and
bit_and-ones zero a small = omega arith
bit_and-ones (suc w) a small =
    let odd : (2 ^ suc w - 1) % 2 ≡ 1 = omega (arith, pow-suc 2 w, pow-pos w) in
    let half : (2 ^ suc w - 1) / 2 ≡ 2 ^ w - 1 = omega (arith, pow-suc 2 w, pow-pos w) in
    let rest = bit_and-ones w (a / 2) (omega (arith, pow-suc 2 w)) in
    rw (odd, half, rest) (omega arith)

-- The mask of all bits from the `k`-th on.
pub bit_and-mask :
    (w k a : ℕ) → k ≤ w → a < 2 ^ w → bit_and w a (2 ^ w - 2 ^ k) ≡ 2 ^ k * (a / 2 ^ k)
unfolding bit_and
bit_and-mask zero zero a h small = omega arith
bit_and-mask zero (suc k) a h small = absurd (omega arith)
bit_and-mask (suc w) zero a h small = let all = bit_and-ones (suc w) a small in omega arith
bit_and-mask (suc w) (suc k) a h small =
    let le : 2 ^ k ≤ 2 ^ w = pow-le-pow_right two_pos (omega arith) in
    let even : (2 ^ suc w - 2 ^ suc k) % 2 ≡ 0 = omega (arith, pow-suc 2 w, pow-suc 2 k) in
    let half : (2 ^ suc w - 2 ^ suc k) / 2 ≡ 2 ^ w - 2 ^ k =
      omega (arith, pow-suc 2 w, pow-suc 2 k) in
    let rest = bit_and-mask w k (a / 2) (omega arith) (omega (arith, pow-suc 2 w)) in
    let q = a / 2 ^ suc k in
    let apart : min (a % 2) 0 + 2 * (2 ^ k * q) ≡ 2 * (2 ^ k * q) = omega arith in
    rw (even, half, rest, div-twice a k)
      (apart ∙ sym (mul_assoc 2 (2 ^ k) q) ∙ ap (λ z. z * q) (omega (arith, pow-suc 2 k)))
