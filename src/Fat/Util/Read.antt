-- ===== src/Fat/Util/Read.antt =====
-- full_pread on a device that is never interrupted and does not fail, but may move
-- fewer bytes than asked for at a call.
use famaf_unc.Base.{
  ℕ, zero, suc, ◌+◌, ◌-◌, ◌^◌, ◌≤◌, ◌<◌, ◌≡◌, refl, ap, ◌∙◌, ◌&&◌, List, arith, ltb, leb,
  if◌then◌else◌, length,
}
use famaf_unc.Fat.Device.{Device, Volume, Io, done, failed, ok}
use famaf_unc.Fat.Util.Posix.{IsVolume}
use famaf_unc.Fat.Util.{get_or, store_bytes, sub64, pread_into, full_pread_loop, full_pread, moved}

-- `w` is `v` with the `count` bytes of the volume from `offset` on in memory at `buf`.
pub record Delivered {D : Type 0} (contents : D → ℕ → ℕ) (IsCalm : D → Type 0) (v w : Volume D)
    (buf count offset : ℕ) : Type 0 where
  pub calm : IsCalm w.disk
  pub table : w.table ≡ v.table
  pub errno : w.errno ≡ v.errno
  pub disk : (i : ℕ) → contents w.disk i ≡ contents v.disk i
  pub memory :
      (a : ℕ)
      → w.mem a ≡ (
          if leb buf a && ltb a (buf + count)
          then contents v.disk (offset + (a - buf))
          else v.mem a)

pread_into-done :
    {D : Type 0} (buf : ℕ) (p : D × Io (List ℕ)) (v : Volume D) (bs : List ℕ)
    → p.1 ≡ done bs
    → pread_into buf p v
      ≡ (record v { disk = p.0; mem = store_bytes v.mem buf bs }, done (length bs))
unfolding pread_into
pread_into-done buf (d, done xs) v bs e = let q : xs ≡ bs = cc in rw q
pread_into-done buf (d, failed n) v bs e = cc

pub sub64-sub : (a b : ℕ) → b ≤ a → a < 2 ^ 64 → sub64 a b ≡ a - b
sub64-sub a b h l = omega arith

full_pread_loop-advance :
    {D : Type 0} (dev : Device D) (fuel buf n offset m : ℕ) (v : Volume D) (bs : List ℕ)
    → (dev.pread v.disk (suc n) offset).1 ≡ done bs
    → length bs ≡ suc m
    → m ≤ n
    → suc n < 2 ^ 64
    → full_pread_loop dev (suc fuel) buf (suc n) offset v
      ≡ full_pread_loop dev fuel
          (buf + length bs)
          (suc n - length bs)
          (offset + length bs)
          (record v { disk = (dev.pread v.disk (suc n) offset).0; mem = store_bytes v.mem buf bs })
unfolding full_pread_loop
full_pread_loop-advance dev fuel buf n offset m v bs e l h k =
    rw (pread_into-done buf (dev.pread v.disk (suc n) offset) v bs e, full_pread_loop)
      (rw (l, moved) (rw (sub64-sub (suc n) (suc m) (omega arith) k) refl))

-- Bytes stored piece by piece.
memory-step :
    (f g mem : ℕ → ℕ) (bs : List ℕ) (buf count offset a : ℕ)
    → length bs ≤ count
    → ((i x : ℕ) → i < length bs → get_or bs i x ≡ f (offset + i))
    → ((i : ℕ) → g i ≡ f i)
    → (if leb (buf + length bs) a && ltb a (buf + length bs + (count - length bs))
        then g (offset + length bs + (a - (buf + length bs)))
        else store_bytes mem buf bs a)
      ≡ (if leb buf a && ltb a (buf + count) then f (offset + (a - buf)) else mem a)
memory-step f g mem bs buf count offset a l h k =
    ground (arith, h (a - buf) (mem a), k (offset + length bs + (a - (buf + length bs))))

module _ {D : Type 0} {dev : Device D} {contents : D → ℕ → ℕ} {size : ℕ} {IsCalm : D → Type 0}
    (volume : IsVolume dev contents size IsCalm) where
  pub full_pread_loop-Delivered :
      (fuel buf remaining offset : ℕ) (v : Volume D)
      → remaining < fuel
      → remaining < 2 ^ 64
      → offset + remaining ≤ size
      → IsCalm v.disk
      → (w : Volume D) × (full_pread_loop dev fuel buf remaining offset v ≡ ok 0 w)
        × Delivered contents IsCalm v w buf remaining offset
  unfolding full_pread_loop
  full_pread_loop-Delivered zero buf remaining offset v f l s k = absurd (omega arith)
  full_pread_loop-Delivered (suc fuel) buf zero offset v f l s k = (
    v,
    refl,
    record { calm = k; table = refl; errno = refl; disk = λ i. refl; memory = λ a. ground arith },
  )
  full_pread_loop-Delivered (suc fuel) buf (suc n) offset v f l s k =
      let (bs, e, p, q, r) = volume.reads v.disk (suc n) offset k (omega arith) s in
      let (w, run, g) =
        full_pread_loop-Delivered fuel (buf + length bs) (suc n - length bs) (offset + length bs)
          (record v { disk = (dev.pread v.disk (suc n) offset).0; mem = store_bytes v.mem buf bs })
          (omega arith) (omega arith) (omega arith) (volume.read_calm v.disk (suc n) offset k) in
      (
        w,
        full_pread_loop-advance dev fuel buf n offset (length bs - 1) v bs e (omega arith)
              (omega arith) l
            ∙ run,
        record {
          calm = g.calm;
          table = g.table;
          errno = g.errno;
          disk = λ i. g.disk i ∙ volume.read_keeps v.disk (suc n) offset i;
          memory = λ a.
              g.memory a
              ∙ memory-step (contents v.disk) (contents (dev.pread v.disk (suc n) offset).0) v.mem
                  bs buf (suc n) offset a q r (volume.read_keeps v.disk (suc n) offset);
        },
      )

  -- On a calm device whose calls in range transfer at least one byte, with more fuel than bytes,
  -- and for a range in the volume and fewer than 2 ^ 64 bytes, full_pread reads all that it is
  -- asked for: it returns `count`, the bytes of the volume from `offset` on are in memory at
  -- `buf`, and nothing else in memory changes.
  pub full_pread-Delivered :
      (fuel buf count offset : ℕ) (v : Volume D)
      → count < fuel
      → count < 2 ^ 64
      → offset + count ≤ size
      → IsCalm v.disk
      → (w : Volume D) × (full_pread dev fuel buf count offset v ≡ ok count w)
        × Delivered contents IsCalm v w buf count offset
  unfolding full_pread
  full_pread-Delivered fuel buf count offset v f l s k =
      let (w, run, g) = full_pread_loop-Delivered fuel buf count offset v f l s k in
      (w, rw run (ap (λ n. ok n w) (omega arith)), g)
