-- ===== src/Fat/Mount/Descriptors.antt =====
-- fat_volume_mount closes the descriptor that it has opened, unless it gives a volume that holds it.
use famaf_unc.Fat.Device.{Device, Volume, Io, done, failed, ok, fault, Run, einval}
use famaf_unc.Fat.Util.Posix.{IsVolume}
use famaf_unc.Fat.Util.Read.{full_pread-Delivered}
use famaf_unc.Fat.Mount.{
  FatVolume, Mounting, Parsed, accepted, refused, aborted, boot_sector_at, read_fields, parsed,
  read_boot_sector, is_writable, is_page_size, fat_aligned_size_bytes, fat_aligned_offset,
  fat_size_bytes, mapped, map_fat, finish_mount, map_or_close, mount_opened, fat_volume_mount,
}
use famaf_unc.Base.{
  ℕ, ◌<◌, ◌≤◌, ◌≡◌, ◌∙◌, refl, ap, sym, Bool, true, false, Option, none, some, ◌==◌, arith, ltb,
  ◌⊎◌, inl, inr, updated, Bool-cases, List,
}

-- What the calls do to the open descriptors: open gives one that is not open, close closes it, also where it fails, and
-- the others open and close none. The volume is one of `size` bytes that no signal disturbs.
pub record Accounts {D : Type 0} (dev : Device D) (sys : Mounting D) (contents : D → ℕ → ℕ)
    (size : ℕ) (is_open : D → ℕ → Bool) : Type 0 where
  pub volume :
      (descriptors : ℕ → Bool)
      → IsVolume dev contents size (λ d. (j : ℕ) → is_open d j ≡ descriptors j)
  pub opens :
      (d : D) (w : Bool) (fd : ℕ)
      → (sys.open_volume d w).1 ≡ done fd
      → (is_open d fd ≡ false)
        × ((j : ℕ) → is_open (sys.open_volume d w).0 j ≡ updated (is_open d) fd true j)
  pub refuses :
      (d : D) (w : Bool) (e : ℕ)
      → (sys.open_volume d w).1 ≡ failed e
      → (j : ℕ) → is_open (sys.open_volume d w).0 j ≡ is_open d j
  pub closes : (d : D) (fd j : ℕ) → is_open (sys.close d fd).0 j ≡ updated (is_open d) fd false j
  pub maps :
      (d : D) (n : ℕ) (w : Bool) (fd q j : ℕ) → is_open (sys.mmap d n w fd q).0 j ≡ is_open d j

-- No volume and the same descriptors, or a volume and its descriptor more.
abbrev pub Balanced : {D : Type 0} → (D → ℕ → Bool) → D → Option FatVolume → D → Type 0
Balanced is_open d none e = (j : ℕ) → is_open e j ≡ is_open d j
Balanced is_open d (some vol) e =
    (is_open d vol.fd ≡ false) × ((j : ℕ) → is_open e j ≡ updated (is_open d) vol.fd true j)

mapped-ends :
    {D : Type 0} (page_size : ℕ) (vol : FatVolume) (p : D × Io (ℕ × List ℕ)) (v : Volume D)
    → (o : Option FatVolume) × (w : Volume D) × (mapped page_size vol p v ≡ ok o w) × (w.disk ≡ p.0)
unfolding mapped
mapped-ends page_size vol (d, failed e) v = (none, _, refl, refl)
mapped-ends page_size vol (d, done (ptr, bytes)) v = (_, record v { disk = d }, refl, refl)

module _ {D : Type 0} {dev : Device D} {sys : Mounting D} {contents : D → ℕ → ℕ} {size : ℕ}
    {is_open : D → ℕ → Bool} (laws : Accounts dev sys contents size is_open) where
  module _ (d : D) (fd : ℕ) (shut : is_open d fd ≡ false) where
    -- The descriptor is the only one that has been opened.
    abbrev Holds : D → Type 0
    Holds e = (j : ℕ) → is_open e j ≡ updated (is_open d) fd true j

    given_up-Balanced :
        (u : Volume D) → Holds u.disk → Balanced is_open d none (sys.close u.disk fd).0
    given_up-Balanced u h j = elim (Bool-cases (j == fd)) [
      | inl e ↦
          let same : j ≡ fd = ground arith in laws.closes u.disk fd j ∙ rw (e, same) (sym shut)
      | inr e ↦ laws.closes u.disk fd j ∙ rw e (h j ∙ rw e refl)
    ]

    map_fat-Holds :
        (vol : FatVolume) (flags : ℕ) (u : Volume D)
        → Holds u.disk
        → (o : Option FatVolume) × (w : Volume D) × (map_fat sys vol fd flags u ≡ ok o w)
          × Holds w.disk
    unfolding map_fat
    map_fat-Holds vol flags u h = elim (Bool-cases (is_page_size sys.page_size)) [
      | inr e ↦ (none, record u { errno = einval }, rw (e, map_fat) refl, h)
      | inl e ↦
          elim (Bool-cases (ltb (fat_aligned_size_bytes sys.page_size vol) (fat_size_bytes vol))) [
            | inl f ↦ (none, record u { errno = einval }, rw (e, f, map_fat) refl, h)
            | inr f ↦
                let n = fat_aligned_size_bytes sys.page_size vol in
                let q = fat_aligned_offset sys.page_size vol in
                let (o, w, run, same) =
                  mapped-ends sys.page_size vol (sys.mmap u.disk n (is_writable flags) fd q) u in
                (
                  o,
                  w,
                  rw (e, f, map_fat) run,
                  λ j.
                      ap (λ x. is_open x j) same
                      ∙ laws.maps u.disk n (is_writable flags) fd q j
                      ∙ h j,
                )
          ]
    ]

    finish_mount-Balanced :
        (flags : ℕ) (o : Option FatVolume) (u : Volume D)
        → Holds u.disk
        → (r : Option FatVolume) × (w : Volume D) × (finish_mount sys fd flags o u ≡ ok r w)
          × Balanced is_open d r w.disk
    unfolding finish_mount
    finish_mount-Balanced flags none u h = (none, _, refl, given_up-Balanced u h)
    finish_mount-Balanced flags (some vol) u h = (_, u, refl, (shut, h))

    map_or_close-Balanced :
        (flags : ℕ) (o : Option FatVolume) (u : Volume D)
        → Holds u.disk
        → (r : Option FatVolume) × (w : Volume D) × (map_or_close sys fd flags o u ≡ ok r w)
          × Balanced is_open d r w.disk
    unfolding map_or_close
    map_or_close-Balanced flags none u h = (none, _, refl, given_up-Balanced u h)
    map_or_close-Balanced flags (some vol) u h =
        let (o, w, run, kept) = map_fat-Holds vol flags u h in
        let (r, x, ends, even) = finish_mount-Balanced flags o w kept in (r, x, rw run ends, even)

  -- The run has ended and the descriptors are accounted for, or an assertion on the boot sector has failed.
  abbrev pub Settled : (buf : ℕ) → FatVolume → D → Run D (Option FatVolume) → Type 0
  Settled buf zeroed d run =
      ((o : Option FatVolume) × (w : Volume D) × (run ≡ ok o w) × Balanced is_open d o w.disk)
      ⊎ ((run ≡ fault) × (mem : ℕ → ℕ) × (read_fields (boot_sector_at mem buf) zeroed ≡ aborted))

  Parsed-cases :
      (p : Parsed) → ((vol : FatVolume) × (p ≡ accepted vol)) ⊎ ((p ≡ refused) ⊎ (p ≡ aborted))
  Parsed-cases (accepted vol) = inl (vol, refl)
  Parsed-cases refused = inr (inl refl)
  Parsed-cases aborted = inr (inr refl)

  mount_opened-Settled :
      (fuel buf flags : ℕ) (zeroed : FatVolume) (d : D) (p : D × Io ℕ) (v : Volume D)
      → 128 < fuel
      → 128 ≤ size
      → ((e : ℕ) → p.1 ≡ failed e → (j : ℕ) → is_open p.0 j ≡ is_open d j)
      → ((fd : ℕ)
          → p.1 ≡ done fd
          → (is_open d fd ≡ false) × ((j : ℕ) → is_open p.0 j ≡ updated (is_open d) fd true j))
      → Settled buf zeroed d (mount_opened dev sys fuel buf flags zeroed p v)
  unfolding mount_opened read_boot_sector parsed
  mount_opened-Settled fuel buf flags zeroed d (e, failed n) v f s bad good =
      inl (none, _, refl, bad n refl)
  mount_opened-Settled fuel buf flags zeroed d (e, done fd) v f s bad good =
      let (shut, held) = good fd refl in
      let (u, run, got) =
        full_pread-Delivered (laws.volume (updated (is_open d) fd true)) fuel buf 128 0
          (record v { disk = e }) f (omega arith) s held in
      elim (Parsed-cases (read_fields (boot_sector_at u.mem buf) zeroed)) [
        | inl (vol, q) ↦
            let (o, w, ends, even) = map_or_close-Balanced d fd shut flags (some vol) u got.calm in
            inl (o, w, rw (run, q) ends, even)
        | inr (inl q) ↦
            let (o, w, ends, even) =
              map_or_close-Balanced d fd shut flags none (record u { errno = einval }) got.calm in
            inl (o, w, rw (run, q) ends, even)
        | inr (inr q) ↦ inr (rw (run, q) refl, u.mem, q)
      ]

  -- When open gives a descriptor that was not open, close closes it, mmap and the calls on the volume leave the
  -- descriptors alone, the volume has at least 128 bytes, and there is fuel for the read of them, then
  -- fat_volume_mount stops at an assertion on the boot sector or ends: with NULL, and the same descriptors are open
  -- as before, or with a volume, and its descriptor, which was not open before, is the only one more.
  pub fat_volume_mount-Settled :
      (fuel buf flags : ℕ) (zeroed : FatVolume) (v : Volume D)
      → 128 < fuel
      → 128 ≤ size
      → Settled buf zeroed v.disk (fat_volume_mount dev sys fuel buf flags zeroed v)
  unfolding fat_volume_mount
  fat_volume_mount-Settled fuel buf flags zeroed v f s =
      mount_opened-Settled fuel buf flags zeroed v.disk (sys.open_volume v.disk (is_writable flags))
        v f s (laws.refuses v.disk (is_writable flags)) (laws.opens v.disk (is_writable flags))
