-- ===== src/Fat/Util.antt =====
-- full_pread and full_pwrite of fat_util.c. Each loop runs on fuel: a device that is interrupted for
-- ever keeps it going for ever.
pub mod Posix
pub mod Read
pub mod Write
pub mod Interrupt
use famaf_unc.Base.{
  not, true, false, ℕ, zero, suc, ◌+◌, ◌-◌, ◌%◌, ◌^◌, ◌&&◌, List, [], ◌∷◌, ltb, leb, ◌==◌,
  if◌then◌else◌, length,
}
use famaf_unc.Fat.Device.{
  ◌>>=◌, pure, Device, Volume, Io, done, failed, Run, ok, out_of_fuel, Cmd, eintr, eio, einval,
}

abbrev pub get_or : List ℕ → ℕ → ℕ → ℕ
get_or [] i d = d
get_or (b ∷ bs) zero d = b
get_or (b ∷ bs) (suc i) d = get_or bs i d

-- Memory after the bytes have been stored from address `buf` on.
abbrev pub store_bytes : (ℕ → ℕ) → ℕ → List ℕ → ℕ → ℕ
store_bytes mem buf bs a =
    if leb buf a && ltb a (buf + length bs) then get_or bs (a - buf) (mem a) else mem a

-- The `count` bytes at address `buf`.
abbrev pub load_bytes : (ℕ → ℕ) → ℕ → ℕ → List ℕ
load_bytes mem buf zero = []
load_bytes mem buf (suc n) = mem buf ∷ load_bytes mem (buf + 1) n

-- `size_t` difference.
abbrev pub sub64 : ℕ → ℕ → ℕ
sub64 a b = (a + 2 ^ 64 - b) % 2 ^ 64

-- What pread moved, as a count, and the volume after the call.
pub pread_into : {D : Type 0} → ℕ → D × Io (List ℕ) → Volume D → Volume D × Io ℕ
pread_into buf (d, done bs) v =
    (record v { disk = d; mem = store_bytes v.mem buf bs }, done (length bs))
pread_into buf (d, failed e) v = (record v { disk = d }, failed e)

-- What follows a call that moved `r` bytes, or failed. After `continue` the loop's increments run
-- with `bytes_read == -1`: one byte more remains, and `buf` and `offset` have moved back by one. A
-- call at offset -1 fails with `EINVAL`.
pub moved :
    {D : Type 0}
    → ((buf remaining offset : ℕ) → Cmd D ℕ)
    → (buf remaining offset : ℕ) → Volume D × Io ℕ
    → Run D ℕ
moved again buf remaining offset (w, done zero) = ok remaining (record w { errno = eio })
moved again buf remaining offset (w, done (suc n)) =
    again (buf + suc n) (sub64 remaining (suc n)) (offset + suc n) w
moved again buf remaining offset (w, failed e) =
    if not (e == eintr)
    then ok remaining (record w { errno = e })
    else if offset == 0
    then ok ((remaining + 1) % 2 ^ 64) (record w { errno = einval })
    else again (buf - 1) ((remaining + 1) % 2 ^ 64) (offset - 1) (record w { errno = e })

pub full_pread_loop : {D : Type 0} → Device D → ℕ → (buf remaining offset : ℕ) → Cmd D ℕ
unfolding pread_into moved
full_pread_loop dev zero buf remaining offset v = out_of_fuel
full_pread_loop dev (suc fuel) buf zero offset v = ok 0 v
full_pread_loop dev (suc fuel) buf (suc n) offset v =
    moved (full_pread_loop dev fuel) buf (suc n) offset
      (pread_into buf (dev.pread v.disk (suc n) offset) v)

-- The loop's result is `bytes_remaining`.
unfoldable pub full_pread : {D : Type 0} → Device D → ℕ → (buf count offset : ℕ) → Cmd D ℕ
unfolding full_pread_loop
full_pread dev fuel buf count offset = do
  remaining ← full_pread_loop dev fuel buf count offset
  pure (sub64 count remaining)

pub pwrite_from : {D : Type 0} → D × Io ℕ → Volume D → Volume D × Io ℕ
pwrite_from (d, r) v = (record v { disk = d }, r)

pub full_pwrite_loop : {D : Type 0} → Device D → ℕ → (buf remaining offset : ℕ) → Cmd D ℕ
unfolding pwrite_from moved
full_pwrite_loop dev zero buf remaining offset v = out_of_fuel
full_pwrite_loop dev (suc fuel) buf zero offset v = ok 0 v
full_pwrite_loop dev (suc fuel) buf (suc n) offset v =
    moved (full_pwrite_loop dev fuel) buf (suc n) offset
      (pwrite_from (dev.pwrite v.disk (load_bytes v.mem buf (suc n)) offset) v)

unfoldable pub full_pwrite : {D : Type 0} → Device D → ℕ → (buf count offset : ℕ) → Cmd D ℕ
unfolding full_pwrite_loop
full_pwrite dev fuel buf count offset = do
  remaining ← full_pwrite_loop dev fuel buf count offset
  pure (sub64 count remaining)
