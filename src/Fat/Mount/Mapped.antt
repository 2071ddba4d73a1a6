-- ===== src/Fat/Mount/Mapped.antt =====
-- The map of the first FAT holds the entries that stand on the volume.
use native.Mathlib.Nat.{mul-le-mul, pow-le-pow_right, mod-eq_of_lt, mul-div-le}
use famaf_unc.Fat.Device.{Volume, done, ok}
use famaf_unc.Fat.Util.{load_bytes}
use famaf_unc.Fat.Mount.Bits.{complement}
use famaf_unc.Fat.Mount.Powers.{is_power_of_2-of, bit_and-mask}
use famaf_unc.Fat.Table.Sizes.{pow-pos}
use famaf_unc.Fat.Mount.{
  FatVolume, Mounting, le32_at, is_writable, entries, fat_offset_of, fat_size_bytes,
  fat_aligned_offset, fat_aligned_size_bytes, is_page_size, with_map, mapped, map_fat,
}
use famaf_unc.Base.{
  ℕ, zero, suc, ◌+◌, ◌-◌, ◌*◌, ◌/◌, ◌%◌, ◌^◌, ◌<◌, ◌≤◌, ◌≡◌, refl, sym, ap, subst, ◌∙◌, Bool, true,
  false, ◌==◌, ltb, leb, arith, some, ◌∷◌, drop, get_elem?,
}

drop-load_bytes :
    (mem : ℕ → ℕ) (buf n c : ℕ) → drop n (load_bytes mem buf (n + c)) ≡ load_bytes mem (buf + n) c
drop-load_bytes mem buf zero c =
    let none_before : 0 + c ≡ c = omega arith in
    let here : buf + 0 ≡ buf = omega arith in rw (none_before, here) refl
drop-load_bytes mem buf (suc n) c =
    let next : suc n + c ≡ suc (n + c) = omega arith in
    let here : buf + 1 + n ≡ buf + suc n = omega arith in
    rw next (drop-load_bytes mem (buf + 1) n c ∙ ap (λ b. load_bytes mem b c) here)

entries-load_bytes :
    (mem : ℕ → ℕ) (buf c : ℕ)
    → entries (load_bytes mem buf (suc (suc (suc (suc c)))))
      ≡ le32_at mem buf ∷ entries (load_bytes mem (buf + 4) c)
unfolding entries
entries-load_bytes mem buf c =
    let two : buf + 1 + 1 ≡ buf + 2 = omega arith in
    let four : buf + 2 + 1 + 1 ≡ buf + 4 = omega arith in rw (two, four) refl

get_elem?-entries :
    (mem : ℕ → ℕ) (buf c i : ℕ)
    → 4 * i + 3 < c
    → get_elem? (entries (load_bytes mem buf c)) i ≡ some (le32_at mem (buf + 4 * i))
get_elem?-entries mem buf zero i h = absurd (omega arith)
get_elem?-entries mem buf (suc zero) i h = absurd (omega arith)
get_elem?-entries mem buf (suc (suc zero)) i h = absurd (omega arith)
get_elem?-entries mem buf (suc (suc (suc zero))) i h = absurd (omega arith)
get_elem?-entries mem buf (suc (suc (suc (suc c)))) zero h =
    let here : buf + 4 * 0 ≡ buf = omega arith in rw (entries-load_bytes mem buf c, here) refl
get_elem?-entries mem buf (suc (suc (suc (suc c)))) (suc i) h =
    let later : buf + 4 + 4 * i ≡ buf + 4 * suc i = omega arith in
    rw (entries-load_bytes mem buf c)
      (get_elem?-entries mem (buf + 4) c i (omega arith) ∙ ap (λ b. some (le32_at mem b)) later)

two_pos : 0 < 2
two_pos = omega arith

is_page_size-pow : (n k : ℕ) → n ≡ 2 ^ k → k ≤ 31 → is_page_size n ≡ true
is_page_size-pow n k e h =
    let pos = pow-pos k in
    let le : 2 ^ k ≤ 2 ^ 31 = pow-le-pow_right two_pos {j = 31} h in
    let power = is_power_of_2-of k (omega arith) in
    let one : (2 ^ k == 0) ≡ false = ground arith in
    let two : leb (2 ^ 63) (2 ^ k) ≡ false = ground arith in
    let three : ltb (2 ^ 31) (2 ^ k) ≡ false = ground arith in rw (e, power, one, two, three) refl

-- The numbers have the sizes of their fields, and the pages are those of a machine.
pub record CanMap {D : Type 0} (sys : Mounting D) (vol : FatVolume) (k : ℕ) : Type 0 where
  pub page : sys.page_size ≡ 2 ^ k
  pub page_max : k ≤ 31
  pub reserved : vol.reserved_sectors < 2 ^ 16
  pub per_fat : vol.sectors_per_fat < 2 ^ 32
  pub order : vol.sector_order ≤ 12

-- An mmap at a whole number of pages maps the bytes of the file.
abbrev pub Maps : {D : Type 0} → Mounting D → (file : ℕ → ℕ) → Type 0
Maps {D} sys file =
    (d : D) (n : ℕ) (writable : Bool) (fd q : ℕ)
    → (e : D) × (ptr : ℕ) × (sys.mmap d n writable fd (sys.page_size * q)
        ≡ (e, done (ptr, load_bytes file (sys.page_size * q) n)))

module _ {D : Type 0} (sys : Mounting D) (vol : FatVolume) (k : ℕ) (c : CanMap sys vol k) where
  offset-le : fat_offset_of vol ≤ 2 ^ 28
  offset-le =
      let h : vol.reserved_sectors ≤ 2 ^ 16 = let r = c.reserved in omega arith in
      let o : 2 ^ vol.sector_order ≤ 2 ^ 12 = pow-le-pow_right two_pos {j = 12} c.order in
      let m : fat_offset_of vol ≤ 2 ^ 16 * 2 ^ 12 = mul-le-mul h o in omega arith

  size-le : vol.sectors_per_fat * 2 ^ vol.sector_order ≤ 2 ^ 44
  size-le =
      let h : vol.sectors_per_fat ≤ 2 ^ 32 = let r = c.per_fat in omega arith in
      let o : 2 ^ vol.sector_order ≤ 2 ^ 12 = pow-le-pow_right two_pos {j = 12} c.order in
      let m : vol.sectors_per_fat * 2 ^ vol.sector_order ≤ 2 ^ 32 * 2 ^ 12 = mul-le-mul h o in
      omega arith

  size-exact : fat_size_bytes vol ≡ vol.sectors_per_fat * 2 ^ vol.sector_order
  size-exact = mod-eq_of_lt (let h = size-le in omega arith)

  aligned-page :
      fat_aligned_offset sys.page_size vol ≡ sys.page_size * (fat_offset_of vol / sys.page_size)
  unfolding fat_aligned_offset
  aligned-page =
      let pos = pow-pos k in
      let le : 2 ^ k ≤ 2 ^ 31 = pow-le-pow_right two_pos {j = 31} c.page_max in
      let mask : complement (2 ^ k - 1) ≡ 2 ^ 64 - 2 ^ k = omega arith in
      rw (c.page, mask)
        (bit_and-mask 64 k (fat_offset_of vol) (let h = c.page_max in omega arith)
          (let off = offset-le in omega arith))

  aligned-le : fat_aligned_offset sys.page_size vol ≤ fat_offset_of vol
  aligned-le = rw aligned-page (mul-div-le (fat_offset_of vol) sys.page_size)

  aligned-size :
      fat_aligned_size_bytes sys.page_size vol
      ≡ fat_offset_of vol - fat_aligned_offset sys.page_size vol + fat_size_bytes vol
  unfolding fat_aligned_size_bytes
  aligned-size =
      let exact = size-exact in
      let small = size-le in
      let off = offset-le in
      let before = fat_offset_of vol - fat_aligned_offset sys.page_size vol in
      let le : before ≤ 2 ^ 28 = omega arith in
      let swap : fat_size_bytes vol + before ≡ before + fat_size_bytes vol = omega arith in
      ap (λ z. z % 2 ^ 64) swap ∙ mod-eq_of_lt (omega arith)

  with_map-entries :
      (file : ℕ → ℕ) (ptr i : ℕ)
      → 4 * i + 3 < vol.sectors_per_fat * 2 ^ vol.sector_order
      → get_elem?
          (with_map sys.page_size ptr
            (load_bytes file
              (fat_aligned_offset sys.page_size vol)
              (fat_aligned_size_bytes sys.page_size vol))
            vol).table.fat_map
          i
        ≡ some (le32_at file (fat_offset_of vol + 4 * i))
  unfolding with_map
  with_map-entries file ptr i h =
      let aligned = fat_aligned_offset sys.page_size vol in
      let le = aligned-le in
      let back : aligned + (fat_offset_of vol - aligned) ≡ fat_offset_of vol = omega arith in
      rw
        (
          aligned-size,
          drop-load_bytes file aligned (fat_offset_of vol - aligned) (fat_size_bytes vol),
          back,
          size-exact,
        )
        (get_elem?-entries file (fat_offset_of vol) (vol.sectors_per_fat * 2 ^ vol.sector_order) i
          h)

  -- On a machine with pages of a power of two of at most 2 ^ 31 bytes, for a volume whose numbers are in the range of
  -- their fields, and when mmap at a whole number of pages maps the file's bytes, map_fat succeeds: it
  -- asks for a whole number of pages, and entry `i` of the map is the little-endian number that stands
  -- in the file 4 * i bytes behind the reserved sectors, for each entry that lies in the
  -- sectors of one FAT.
  pub map_fat-entries :
      (file : ℕ → ℕ) (fd mount_flags : ℕ) (v : Volume D)
      → Maps sys file
      → (w : FatVolume) × (u : Volume D) × (map_fat sys vol fd mount_flags v ≡ ok (some w) u)
        × (w.table.fat_offset ≡ vol.reserved_sectors * 2 ^ vol.sector_order)
        × ((i : ℕ)
            → 4 * i + 3 < vol.sectors_per_fat * 2 ^ vol.sector_order
            → get_elem? w.table.fat_map i
              ≡ some (le32_at file (vol.reserved_sectors * 2 ^ vol.sector_order + 4 * i)))
  unfolding map_fat mapped with_map
  map_fat-entries file fd mount_flags v maps =
      let n = fat_aligned_size_bytes sys.page_size vol in
      let page = is_page_size-pow sys.page_size k c.page c.page_max in
      let fits : ltb n (fat_size_bytes vol) ≡ false = let e = aligned-size in ground arith in
      let (d, ptr, run) =
        maps v.disk n (is_writable mount_flags) fd (fat_offset_of vol / sys.page_size) in
      let at_page =
        subst
          (λ a.
            sys.mmap v.disk n (is_writable mount_flags) fd a ≡ (d, done (ptr, load_bytes file a n)))
          (sym aligned-page) run in
      (
        with_map sys.page_size ptr (load_bytes file (fat_aligned_offset sys.page_size vol) n) vol,
        record v { disk = d },
        rw (page, fits) (ap (λ r. mapped sys.page_size vol r v) at_page),
        refl,
        λ i h. with_map-entries file ptr i h,
      )
