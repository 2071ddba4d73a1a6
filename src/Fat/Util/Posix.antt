-- ===== src/Fat/Util/Posix.antt =====
-- What a volume's descriptor answers, as POSIX states it for a file that no signal disturbs.
use famaf_unc.Base.{ℕ, ◌+◌, ◌-◌, ◌≤◌, ◌<◌, ◌≡◌, ◌&&◌, List, ltb, leb, if◌then◌else◌, length}
use famaf_unc.Fat.Device.{Device, done}
use famaf_unc.Fat.Util.{get_or}

-- The answers of a volume whose bytes are `contents`, inside its first `size` bytes and in a state
-- in which no signal is pending: a call moves at least one byte and no more than asked for; a read
-- gives the bytes that are there and changes none, a write changes those that it moves.
pub record IsVolume {D : Type 0} (dev : Device D) (contents : D → ℕ → ℕ) (size : ℕ)
    (IsCalm : D → Type 0) : Type 0 where
  pub reads :
      (d : D) (count offset : ℕ)
      → IsCalm d
      → 0 < count
      → offset + count ≤ size
      → (bs : List ℕ) × ((dev.pread d count offset).1 ≡ done bs)
        × (0 < length bs)
        × (length bs ≤ count)
        × ((i x : ℕ) → i < length bs → get_or bs i x ≡ contents d (offset + i))
  pub read_keeps :
      (d : D) (count offset i : ℕ) → contents (dev.pread d count offset).0 i ≡ contents d i
  pub read_calm : (d : D) (count offset : ℕ) → IsCalm d → IsCalm (dev.pread d count offset).0
  pub writes :
      (d : D) (bs : List ℕ) (offset : ℕ)
      → IsCalm d
      → 0 < length bs
      → offset + length bs ≤ size
      → (n : ℕ) × ((dev.pwrite d bs offset).1 ≡ done n)
        × (0 < n)
        × (n ≤ length bs)
        × ((i : ℕ)
            → contents (dev.pwrite d bs offset).0 i ≡ (
                if leb offset i && ltb i (offset + n)
                then get_or bs (i - offset) 0
                else contents d i))
  pub write_calm : (d : D) (bs : List ℕ) (offset : ℕ) → IsCalm d → IsCalm (dev.pwrite d bs offset).0
