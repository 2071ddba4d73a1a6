-- ===== src/Fat/Mount/Sector.antt =====
-- Which boot sectors read_dos_2_0_bpb accepts.
use famaf_unc.Fat.Mount.Bits.{bsr, is_power_of_2}
use famaf_unc.Fat.Mount.Powers.{is_power_of_2-of, is_power_of_2-pow, bsr-pow, bsr-cases}
use famaf_unc.Fat.Mount.{
  FatBootSector, FatVolume, Parsed, accepted, refused, read_dos_2_0_bpb, read_counts,
  read_cluster_order, read_sector_order,
}
use famaf_unc.Base.{
  ℕ, ◌+◌, ◌^◌, ◌<◌, ◌≤◌, ◌≡◌, refl, sym, ap, ◌∙◌, Bool, true, false, not, ◌&&◌, ◌||◌, ◌==◌, ltb,
  arith, Option, none, some, if◌then◌else◌, inl, inr, ◌⊎◌, ◌↔◌, Bool-cases,
}

-- 2 ^ k bytes per sector, 2 ^ j sectors per cluster, one table or two.
pub record IsGeometry (boot_sec : FatBootSector) (k j : ℕ) : Type 0 where
  pub sector : boot_sec.bytes_per_sector ≡ 2 ^ k
  pub sector_min : 5 ≤ k
  pub sector_max : k ≤ 12
  pub cluster : boot_sec.sectors_per_cluster ≡ 2 ^ j
  pub cluster_max : j ≤ 7
  pub tables : (boot_sec.num_tables ≡ 1) ⊎ (boot_sec.num_tables ≡ 2)

-- The volume with these orders and the numbers of the boot sector.
unfoldable pub with_geometry : FatBootSector → FatVolume → (k j : ℕ) → FatVolume
with_geometry boot_sec vol k j = record vol {
  bytes_per_sector = boot_sec.bytes_per_sector;
  sector_order = k;
  sectors_per_cluster = boot_sec.sectors_per_cluster;
  sectors_per_cluster_order = j;
  table = record (vol.table) { cluster_order = k + j };
  reserved_sectors = boot_sec.reserved_sectors;
  num_tables = boot_sec.num_tables;
  max_root_entries = boot_sec.max_root_entries;
  total_sectors = boot_sec.total_sectors;
  media_descriptor = boot_sec.media_descriptor;
  sectors_per_fat = boot_sec.sectors_per_fat;
}

if-refused :
    (c : Bool) (r : Parsed) (w : FatVolume)
    → (if c then refused else r) ≡ accepted w
    → (c ≡ false) × (r ≡ accepted w)
if-refused true r w e = absurd cc
if-refused false r w e = (refl, e)

module _ (boot_sec : FatBootSector) (w : FatVolume) where
  read_counts-tables :
      (vol : FatVolume)
      → read_counts boot_sec vol ≡ accepted w
      → (boot_sec.num_tables ≡ 1) ⊎ (boot_sec.num_tables ≡ 2)
  unfolding read_counts
  read_counts-tables vol e =
      let (none_of, _) =
        if-refused (not (boot_sec.num_tables == 1) && not (boot_sec.num_tables == 2)) _ w e in
      elim (Bool-cases (boot_sec.num_tables == 1)) [
        | inl one ↦ inl (ground arith)
        | inr more ↦ inr (ground arith)
      ]

  read_cluster_order-order :
      (vol : FatVolume) (o : Option ℕ)
      → read_cluster_order boot_sec vol o ≡ accepted w
      → (j : ℕ) × (o ≡ some j)
        × (is_power_of_2 boot_sec.sectors_per_cluster ≡ true)
        × (j ≤ 7)
        × ((boot_sec.num_tables ≡ 1) ⊎ (boot_sec.num_tables ≡ 2))
  unfolding read_cluster_order
  read_cluster_order-order vol none e = absurd cc
  read_cluster_order-order vol (some j) e =
      let (passed, rest) =
        if-refused (not (is_power_of_2 boot_sec.sectors_per_cluster) || ltb 7 j) _ w e in
      (j, refl, ground arith, ground arith, read_counts-tables _ rest)

  read_sector_order-order :
      (vol : FatVolume) (o : Option ℕ)
      → read_sector_order boot_sec vol o ≡ accepted w
      → (k : ℕ) × (o ≡ some k)
        × (is_power_of_2 boot_sec.bytes_per_sector ≡ true)
        × (5 ≤ k)
        × (k ≤ 12)
        × (v : FatVolume) × (read_cluster_order boot_sec v (bsr boot_sec.sectors_per_cluster)
            ≡ accepted w)
  unfolding read_sector_order
  read_sector_order-order vol none e = absurd cc
  read_sector_order-order vol (some k) e =
      let (passed, rest) =
        if-refused (not (is_power_of_2 boot_sec.bytes_per_sector) || (ltb k 5 || ltb 12 k)) _ w e in
      (k, refl, ground arith, ground arith, ground arith, _, rest)

order-pow : (n k : ℕ) → n < 2 ^ 64 → is_power_of_2 n ≡ true → bsr n ≡ some k → n ≡ 2 ^ k
order-pow n k h p e =
    is_power_of_2-pow n h p
    ∙ ap (λ z. 2 ^ z) (elim (bsr-cases n) [ inl e2 ↦ absurd cc | inr e2 ↦ cc ])

read-IsGeometry :
    (boot_sec : FatBootSector) (vol w : FatVolume)
    → boot_sec.bytes_per_sector < 2 ^ 16
    → boot_sec.sectors_per_cluster < 2 ^ 8
    → read_dos_2_0_bpb boot_sec vol ≡ accepted w
    → (k : ℕ) × (j : ℕ) × IsGeometry boot_sec k j
unfolding read_dos_2_0_bpb
read-IsGeometry boot_sec vol w hs hc e =
    let (k, first, pk, mink, maxk, v, rest) =
      read_sector_order-order boot_sec w vol (bsr boot_sec.bytes_per_sector) e in
    let (j, second, pj, maxj, tables) =
      read_cluster_order-order boot_sec w v (bsr boot_sec.sectors_per_cluster) rest in
    (
      k,
      j,
      record {
        sector = order-pow boot_sec.bytes_per_sector k (omega arith) pk first;
        sector_min = mink;
        sector_max = maxk;
        cluster = order-pow boot_sec.sectors_per_cluster j (omega arith) pj second;
        cluster_max = maxj;
        tables = tables;
      },
    )

tables-pass : (n : ℕ) → (n ≡ 1) ⊎ (n ≡ 2) → (not (n == 1) && not (n == 2)) ≡ false
tables-pass n (inl e) = rw e refl
tables-pass n (inr e) = rw e refl

read-accepts :
    (boot_sec : FatBootSector) (vol : FatVolume) (k j : ℕ)
    → IsGeometry boot_sec k j
    → read_dos_2_0_bpb boot_sec vol ≡ accepted (with_geometry boot_sec vol k j)
unfolding read_dos_2_0_bpb read_sector_order read_cluster_order read_counts with_geometry
read-accepts boot_sec vol k j g =
    let first =
      bsr-pow boot_sec.bytes_per_sector k g.sector (let h = g.sector_max in omega arith) in
    let second =
      bsr-pow boot_sec.sectors_per_cluster j g.cluster (let h = g.cluster_max in omega arith) in
    let sector_two : is_power_of_2 boot_sec.bytes_per_sector ≡ true =
      rw g.sector (is_power_of_2-of k (let h = g.sector_max in omega arith)) in
    let cluster_two : is_power_of_2 boot_sec.sectors_per_cluster ≡ true =
      rw g.cluster (is_power_of_2-of j (let h = g.cluster_max in omega arith)) in
    let low : ltb k 5 ≡ false = let h = g.sector_min in ground arith in
    let high : ltb 12 k ≡ false = let h = g.sector_max in ground arith in
    let wide : ltb 7 j ≡ false = let h = g.cluster_max in ground arith in
    let counted = tables-pass boot_sec.num_tables g.tables in
    rw
      (
        first, read_sector_order, sector_two, low, high, second, read_cluster_order, cluster_two,
        wide, read_counts, counted,
      )
      refl

-- For 16 bits of bytes per sector and 8 of sectors per cluster, read_dos_2_0_bpb accepts exactly the boot sectors with
-- a power of two from 32 to 4096 bytes per sector, one from 1 to 128 sectors per cluster, and one table
-- or two, and the volume that it makes has their exponents as orders, their sum as the order of a
-- cluster, and the other numbers as they stand in the boot sector.
pub read_dos_2_0_bpb_iff :
    (boot_sec : FatBootSector) (vol w : FatVolume)
    → boot_sec.bytes_per_sector < 2 ^ 16
    → boot_sec.sectors_per_cluster < 2 ^ 8
    → (read_dos_2_0_bpb boot_sec vol ≡ accepted w)
      ↔ ((k : ℕ) × (j : ℕ) × IsGeometry boot_sec k j × (w ≡ with_geometry boot_sec vol k j))
read_dos_2_0_bpb_iff boot_sec vol w hs hc = (
  λ e.
      let (k, j, g) = read-IsGeometry boot_sec vol w hs hc e in
      let same = sym e ∙ read-accepts boot_sec vol k j g in (k, j, g, cc),
  λ (k, j, g, e). read-accepts boot_sec vol k j g ∙ ap accepted (sym e),
)
