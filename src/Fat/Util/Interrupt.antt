-- ===== src/Fat/Util/Interrupt.antt =====
-- full_pread when a signal interrupts its first call.
use famaf_unc.Base.{List, ◌==◌, false, ℕ, suc, ◌+◌, ◌-◌, ◌^◌, ◌≤◌, ◌<◌, ◌≡◌, refl, ap, arith, ◌%◌}
use famaf_unc.Fat.Device.{Io, done, Cmd, Device, Volume, failed, ok, eintr}
use famaf_unc.Fat.Util.{pread_into, moved, full_pread_loop, full_pread}
use famaf_unc.Fat.Util.Posix.{IsVolume}
use famaf_unc.Fat.Util.Read.{Delivered, full_pread_loop-Delivered}

pread_into-failed :
    {D : Type 0} (buf : ℕ) (p : D × Io (List ℕ)) (v : Volume D) (n : ℕ)
    → p.1 ≡ failed n
    → pread_into buf p v ≡ (record v { disk = p.0 }, failed n)
unfolding pread_into
pread_into-failed buf (d, done xs) v n e = cc
pread_into-failed buf (d, failed m) v n e = let q : m ≡ n = cc in rw q

moved-interrupted :
    {D : Type 0} (again : (buf remaining offset : ℕ) → Cmd D ℕ) (buf n offset : ℕ) (w : Volume D)
    → suc n + 1 < 2 ^ 64
    → moved again (suc buf) (suc n) (suc offset) (w, failed eintr)
      ≡ again buf (suc n + 1) offset (record w { errno = eintr })
unfolding moved
moved-interrupted again buf n offset w l =
    let nonzero : (suc offset == 0) ≡ false = ground arith in
    let back : suc buf - 1 ≡ buf = omega arith in
    let one : suc offset - 1 ≡ offset = omega arith in
    let more : (suc n + 1) % 2 ^ 64 ≡ suc n + 1 = omega arith in rw (nonzero, back, one, more) refl

full_pread_loop-interrupted :
    {D : Type 0} (dev : Device D) (fuel buf n offset : ℕ) (v : Volume D)
    → (dev.pread v.disk (suc n) (suc offset)).1 ≡ failed eintr
    → suc n + 1 < 2 ^ 64
    → full_pread_loop dev (suc fuel) (suc buf) (suc n) (suc offset) v
      ≡ full_pread_loop dev fuel buf
          (suc n + 1)
          offset
          (record v { disk = (dev.pread v.disk (suc n) (suc offset)).0; errno = eintr })
unfolding full_pread_loop
full_pread_loop-interrupted dev fuel buf n offset v e l =
    rw
      (
        pread_into-failed (suc buf) (dev.pread v.disk (suc n) (suc offset)) v eintr e,
        full_pread_loop,
      )
      (moved-interrupted (full_pread_loop dev fuel) buf n offset
        (record v { disk = (dev.pread v.disk (suc n) (suc offset)).0 }) l)

-- If the first call of a read of some bytes is interrupted and the device is calm from then on,
-- then, with fuel enough and the range and the byte before it in the volume, full_pread does not
-- read the bytes again that it was asked for: it reads one more than asked for, from one place
-- earlier in the volume, and stores them from one byte before `buf`. It returns `count` all the
-- same.
pub full_pread-interrupted :
    {D : Type 0} {dev : Device D} {contents : D → ℕ → ℕ} {size : ℕ} {IsCalm : D → Type 0}
    (volume : IsVolume dev contents size IsCalm) (fuel buf n offset : ℕ) (v : Volume D)
    → (dev.pread v.disk (suc n) (suc offset)).1 ≡ failed eintr
    → IsCalm (dev.pread v.disk (suc n) (suc offset)).0
    → suc n + 1 < fuel
    → suc n + 1 < 2 ^ 64
    → offset + suc n + 1 ≤ size
    → (w : Volume D) × (full_pread dev (suc fuel) (suc buf) (suc n) (suc offset) v ≡ ok (suc n) w)
      × Delivered contents IsCalm
          (record v { disk = (dev.pread v.disk (suc n) (suc offset)).0; errno = eintr })
          w
          buf
          (suc n + 1)
          offset
unfolding full_pread
full_pread-interrupted {dev} volume fuel buf n offset v e calm f l s =
    let (w, run, g) =
      full_pread_loop-Delivered volume fuel buf (suc n + 1) offset
        (record v { disk = (dev.pread v.disk (suc n) (suc offset)).0; errno = eintr }) f l
        (omega arith) calm in
    (
      w,
      rw (full_pread_loop-interrupted dev fuel buf n offset v e l, run)
          (ap (λ n. ok n w) (omega arith)),
      g,
    )
