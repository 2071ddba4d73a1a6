-- ===== src/Fat/Util/Write.antt =====
-- full_pwrite on such a volume.
use famaf_unc.Base.{
  ℕ, zero, suc, ◌+◌, ◌-◌, ◌^◌, ◌≤◌, ◌<◌, ◌≡◌, refl, ap, ◌∙◌, ◌&&◌, arith, ltb, leb, if◌then◌else◌,
  length,
}
use famaf_unc.Fat.Device.{Device, Volume, done, ok}
use famaf_unc.Fat.Util.{get_or, load_bytes, pwrite_from, moved, full_pwrite_loop, full_pwrite}
use famaf_unc.Fat.Util.Posix.{IsVolume}
use famaf_unc.Fat.Util.Read.{sub64-sub}

-- `w` is `v` with the `count` bytes of memory from `buf` on stored in the volume at `offset`.
pub record Stored {D : Type 0} (contents : D → ℕ → ℕ) (IsCalm : D → Type 0) (v w : Volume D)
    (buf count offset : ℕ) : Type 0 where
  pub calm : IsCalm w.disk
  pub table : w.table ≡ v.table
  pub errno : w.errno ≡ v.errno
  pub memory : w.mem ≡ v.mem
  pub disk :
      (i : ℕ)
      → contents w.disk i ≡ (
          if leb offset i && ltb i (offset + count)
          then v.mem (buf + (i - offset))
          else contents v.disk i)

pub length-load_bytes : (mem : ℕ → ℕ) (buf n : ℕ) → length (load_bytes mem buf n) ≡ n
length-load_bytes mem buf zero = refl
length-load_bytes mem buf (suc n) = ap suc (length-load_bytes mem (buf + 1) n)

pub get_or-load_bytes :
    (mem : ℕ → ℕ) (buf n i x : ℕ) → i < n → get_or (load_bytes mem buf n) i x ≡ mem (buf + i)
get_or-load_bytes mem buf zero i x h = elim h [ ]
get_or-load_bytes mem buf (suc n) zero x h = ap mem (omega arith)
get_or-load_bytes mem buf (suc n) (suc i) x h =
    get_or-load_bytes mem (buf + 1) n i x (omega arith) ∙ ap mem (omega arith)

full_pwrite_loop-advance :
    {D : Type 0} (dev : Device D) (fuel buf n offset m : ℕ) (v : Volume D)
    → (dev.pwrite v.disk (load_bytes v.mem buf (suc n)) offset).1 ≡ done (suc m)
    → m ≤ n
    → suc n < 2 ^ 64
    → full_pwrite_loop dev (suc fuel) buf (suc n) offset v
      ≡ full_pwrite_loop dev fuel
          (buf + suc m)
          (suc n - suc m)
          (offset + suc m)
          (record v { disk = (dev.pwrite v.disk (load_bytes v.mem buf (suc n)) offset).0 })
unfolding full_pwrite_loop
full_pwrite_loop-advance dev fuel buf n offset m v e h k =
    rw (e, full_pwrite_loop, pwrite_from, moved)
      (rw (sub64-sub (suc n) (suc m) (omega arith) k) refl)

-- Bytes stored piece by piece.
disk-step :
    (f g mem : ℕ → ℕ) (buf count offset m i : ℕ)
    → m ≤ count
    → ((i : ℕ)
        → g i ≡ (
            if leb offset i && ltb i (offset + m)
            then get_or (load_bytes mem buf count) (i - offset) 0
            else f i))
    → (if leb (offset + m) i && ltb i (offset + m + (count - m))
        then mem (buf + m + (i - (offset + m)))
        else g i)
      ≡ (if leb offset i && ltb i (offset + count) then mem (buf + (i - offset)) else f i)
disk-step f g mem buf count offset m i l h =
    ground (arith, h i, get_or-load_bytes mem buf count (i - offset) 0)

module _ {D : Type 0} {dev : Device D} {contents : D → ℕ → ℕ} {size : ℕ} {IsCalm : D → Type 0}
    (volume : IsVolume dev contents size IsCalm) where
  full_pwrite_loop-Stored :
      (fuel buf remaining offset : ℕ) (v : Volume D)
      → remaining < fuel
      → remaining < 2 ^ 64
      → offset + remaining ≤ size
      → IsCalm v.disk
      → (w : Volume D) × (full_pwrite_loop dev fuel buf remaining offset v ≡ ok 0 w)
        × Stored contents IsCalm v w buf remaining offset
  unfolding full_pwrite_loop
  full_pwrite_loop-Stored zero buf remaining offset v f l s k = absurd (omega arith)
  full_pwrite_loop-Stored (suc fuel) buf zero offset v f l s k = (
    v,
    refl,
    record { calm = k; table = refl; errno = refl; memory = refl; disk = λ i. ground arith },
  )
  full_pwrite_loop-Stored (suc fuel) buf (suc n) offset v f l s k =
      let bs = load_bytes v.mem buf (suc n) in
      let len : length bs ≡ suc n = length-load_bytes v.mem buf (suc n) in
      let (moved, e, p, q, d) =
        volume.writes v.disk bs offset k (omega (arith, len)) (omega (arith, len)) in
      let m : ℕ = moved - 1 in
      let e' : (dev.pwrite v.disk bs offset).1 ≡ done (suc m) =
        e ∙ ap (λ z. done z) (omega arith) in
      let (w, run, g) =
        full_pwrite_loop-Stored fuel (buf + suc m) (suc n - suc m) (offset + suc m)
          (record v { disk = (dev.pwrite v.disk bs offset).0 }) (omega arith) (omega arith)
          (omega (arith, len)) (volume.write_calm v.disk bs offset k) in
      (
        w,
        full_pwrite_loop-advance dev fuel buf n offset m v e' (omega (arith, len)) l ∙ run,
        record {
          calm = g.calm;
          table = g.table;
          errno = g.errno;
          memory = g.memory;
          disk = λ i.
              g.disk i
              ∙ disk-step (contents v.disk) (contents (dev.pwrite v.disk bs offset).0) v.mem buf
                  (suc n) offset (suc m) i (omega (arith, len))
                  (λ j.
                    d j
                    ∙ ap
                        (λ (z : ℕ).
                          if leb offset j && ltb j (offset + z)
                          then get_or bs (j - offset) 0
                          else contents v.disk j)
                        (omega arith));
        },
      )

  -- On a calm device whose calls in range transfer at least one byte, with more fuel than bytes,
  -- and for a range in the volume and fewer than 2 ^ 64 bytes, full_pwrite writes all that it is
  -- given: it returns `count`, the `count` bytes of memory from `buf` on are in the volume at
  -- `offset`, and no other byte of the volume changes.
  pub full_pwrite-Stored :
      (fuel buf count offset : ℕ) (v : Volume D)
      → count < fuel
      → count < 2 ^ 64
      → offset + count ≤ size
      → IsCalm v.disk
      → (w : Volume D) × (full_pwrite dev fuel buf count offset v ≡ ok count w)
        × Stored contents IsCalm v w buf count offset
  unfolding full_pwrite
  full_pwrite-Stored fuel buf count offset v f l s k =
      let (w, run, g) = full_pwrite_loop-Stored fuel buf count offset v f l s k in
      (w, rw run (ap (λ n. ok n w) (omega arith)), g)
