-- ===== src/Fat/Mount/Bits.antt =====
-- The bit operations of fat_util.h that the mounting of a volume uses.
use famaf_unc.Base.{
  ℕ, zero, suc, ◌+◌, ◌-◌, ◌*◌, ◌/◌, ◌%◌, ◌^◌, min, Bool, not, ◌&&◌, Option, none, some, ◌==◌, ltb,
  if◌then◌else◌,
}

-- a & b, for numbers of `w` bits.
unfoldable pub bit_and : (w a b : ℕ) → ℕ
bit_and zero a b = 0
bit_and (suc w) a b = min (a % 2) (b % 2) + 2 * bit_and w (a / 2) (b / 2)

-- ~a, for a number of 64 bits.
abbrev pub complement : ℕ → ℕ
complement a = 2 ^ 64 - 1 - a

-- The position of the highest bit of a number of `w` bits that is not 0.
unfoldable pub highest_bit : (w n : ℕ) → ℕ
highest_bit zero n = 0
highest_bit (suc w) n = let above = highest_bit w (n / 2) in if ltb n 2 then 0 else 1 + above

-- none if the assertion of bsr fails.
unfoldable pub bsr : ℕ → Option ℕ
bsr n = if n == 0 then none else some (highest_bit 64 n)

unfoldable pub is_power_of_2 : ℕ → Bool
is_power_of_2 n = bit_and 64 n ((n + 2 ^ 64 - 1) % 2 ^ 64) == 0 && not (n == 0)
