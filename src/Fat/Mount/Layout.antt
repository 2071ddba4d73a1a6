-- ===== src/Fat/Mount/Layout.antt =====
-- Where the clusters of a mounted volume lie on it.
use native.Mathlib.Nat.{zero-div, pow-suc, mod-eq_of_lt, add-mod_right, mul-div_cancel}
use famaf_unc.Fat.Device.{FatTable}
use famaf_unc.Fat.Table.{is_valid_cluster_number, cluster_offset, bytes_per_cluster}
use famaf_unc.Fat.Table.Sizes.{pow-pos}
use famaf_unc.Fat.Mount.{FatVolume, num_data_sectors, count_clusters, data_start}
use famaf_unc.Base.{
  ℕ, zero, suc, ◌+◌, ◌-◌, ◌*◌, ◌/◌, ◌%◌, ◌^◌, ◌<◌, ◌≡◌, refl, ap, ◌∙◌, true, ltb, leb, arith,
}

-- No entries of a root directory, as on FAT32, and behind the reserved sectors as many as `m` clusters take;
-- the sums fit their fields.
pub record HasClusters (vol : FatVolume) (m : ℕ) : Type 0 where
  pub no_root : vol.max_root_entries ≡ 0
  pub total : vol.total_sectors ≡ vol.reserved_sectors + m * 2 ^ vol.sectors_per_cluster_order
  pub total_max : vol.total_sectors < 2 ^ 32
  pub some_cluster : 0 < m
  pub order : vol.table.cluster_order ≡ vol.sector_order + vol.sectors_per_cluster_order
  pub start_max : vol.num_tables * vol.sectors_per_fat + vol.reserved_sectors < 2 ^ 32

-- The table that the mount leaves.
abbrev pub mounted_table : FatVolume → FatTable
mounted_table vol = record ((count_clusters vol).table) { data_start_offset = data_start vol }

pow-sum : (a b : ℕ) → 2 ^ (a + b) ≡ 2 ^ b * 2 ^ a
pow-sum zero b = let e : 0 + b ≡ b = omega arith in rw e (omega arith)
pow-sum (suc a) b =
    let e : suc a + b ≡ suc (a + b) = omega arith in
    let rest = pow-sum a b in rw e (grind (arith, pow-suc 2 (a + b), pow-suc 2 a))

sectors-sum : (f r n j k : ℕ) → (f + r) * k + n * (j * k) + j * k ≡ (r + suc n * j + f) * k
sectors-sum f r n j k = grind arith

mod-two-turns : (x : ℕ) → x < 2 ^ 32 → (x + 2 ^ 32 + 2 ^ 32) % 2 ^ 32 ≡ x
mod-two-turns x h = add-mod_right (x + 2 ^ 32) (2 ^ 32) ∙ add-mod_right x (2 ^ 32) ∙ mod-eq_of_lt h

module _ (vol : FatVolume) (m : ℕ) (h : HasClusters vol m) where
  num_data_sectors-clusters : num_data_sectors vol ≡ m * 2 ^ vol.sectors_per_cluster_order
  unfolding num_data_sectors
  num_data_sectors-clusters =
      let z : vol.max_root_entries * 32 / 2 ^ vol.sector_order ≡ 0 =
        rw h.no_root (zero-div (2 ^ vol.sector_order)) in
      let x = m * 2 ^ vol.sectors_per_cluster_order in
      let total = h.total in
      let top = h.total_max in
      let e : vol.total_sectors + 2 * 2 ^ 32 - vol.reserved_sectors - 0 ≡ x + 2 ^ 32 + 2 ^ 32 =
        omega arith in
      rw (z, e) (mod-two-turns x (omega arith))

  num_data_clusters-m : (mounted_table vol).num_data_clusters ≡ m
  unfolding count_clusters
  num_data_clusters-m =
      rw num_data_sectors-clusters (mul-div_cancel m (pow-pos vol.sectors_per_cluster_order))

  data_start-sectors :
      data_start vol
      ≡ (vol.num_tables * vol.sectors_per_fat + vol.reserved_sectors) * 2 ^ vol.sector_order
  unfolding data_start
  data_start-sectors =
      let z : vol.max_root_entries / 2 ^ (vol.sector_order - 5) ≡ 0 =
        rw h.no_root (zero-div (2 ^ (vol.sector_order - 5))) in
      let n = vol.num_tables * vol.sectors_per_fat + vol.reserved_sectors in
      let e : n + 0 ≡ n = omega arith in rw (z, e, mod-eq_of_lt h.start_max) refl

  cluster_order-sum :
      (mounted_table vol).cluster_order ≡ vol.sector_order + vol.sectors_per_cluster_order
  unfolding count_clusters
  cluster_order-sum = h.order

  -- A volume without entries of a root directory, whose sectors behind the reserved ones are those of `m` whole clusters,
  -- where m is not 0 and m + 2 fits 32 bits: the table that the mount leaves takes the cluster
  -- m + 1 for valid, and that cluster ends behind the end of the volume, by the sectors of all the FATs.
  pub last_cluster-beyond :
      m + 2 < 2 ^ 32
      → (is_valid_cluster_number (mounted_table vol) (m + 1) ≡ true)
        × (cluster_offset (mounted_table vol) (m + 1) + bytes_per_cluster (mounted_table vol)
            ≡ (vol.total_sectors + vol.num_tables * vol.sectors_per_fat) * 2 ^ vol.sector_order)
  unfolding is_valid_cluster_number cluster_offset
  last_cluster-beyond small =
      let n = m - 1 in
      let some' = h.some_cluster in
      let fit : (m + 2) % 2 ^ 32 ≡ m + 2 = mod-eq_of_lt small in
      let low : leb 1 (m + 1) ≡ true = ground arith in
      let high : ltb (m + 1) (m + 2) ≡ true = ground arith in
      let back : (m + 1 + 2 ^ 32 - 2) % 2 ^ 32 ≡ n =
        let e : m + 1 + 2 ^ 32 - 2 ≡ n + 2 ^ 32 = omega arith in
        ap (λ z. z % 2 ^ 32) e ∙ add-mod_right n (2 ^ 32) ∙ mod-eq_of_lt (omega arith) in
      let next : suc n ≡ m = omega arith in
      (
        rw (num_data_clusters-m, fit, low, high) refl,
        rw
            (
              data_start-sectors,
              back,
              cluster_order-sum,
              pow-sum vol.sector_order vol.sectors_per_cluster_order,
              h.total,
            )
            (sectors-sum (vol.num_tables * vol.sectors_per_fat) vol.reserved_sectors n
                (2 ^ vol.sectors_per_cluster_order) (2 ^ vol.sector_order)
              ∙ ap
                  (λ z.
                    (vol.reserved_sectors
                      + z * 2 ^ vol.sectors_per_cluster_order
                      + vol.num_tables * vol.sectors_per_fat)
                    * 2 ^ vol.sector_order)
                  next),
      )
