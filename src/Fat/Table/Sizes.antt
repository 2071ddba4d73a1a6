-- ===== src/Fat/Table/Sizes.antt =====
-- Arithmetic of clusters: how many a size needs, how much of one is left, where one lies.
use native.Mathlib.Nat.{pow-suc}
use famaf_unc.Base.{ℕ, zero, suc, ◌+◌, ◌*◌, ◌^◌, ◌≤◌, ◌<◌, arith}
use famaf_unc.Fat.Device.{FatTable}
use famaf_unc.Fat.Table.{
  bytes_per_cluster, mask_offset, get_cluster_remaining_bytes, get_clusters_for_size,
  cluster_offset,
}

pub pow-pos : (n : ℕ) → 0 < 2 ^ n
pow-pos zero = omega arith
pow-pos (suc n) = omega (arith, pow-suc 2 n, pow-pos n)

-- A size of less than 2^32 bytes gets as many clusters as hold it, and no fewer hold it.
pub get_clusters_for_size_bounds :
    (t : FatTable) (size : ℕ)
    → size < 2 ^ 32
    → (size ≤ get_clusters_for_size t size * bytes_per_cluster t)
      × (get_clusters_for_size t size * bytes_per_cluster t < size + bytes_per_cluster t)
unfolding get_clusters_for_size
get_clusters_for_size_bounds t size h = grind (arith, pow-pos t.cluster_order)

-- What is read or written at one go is no more than what is asked for, stays in the cluster, and is
-- something if something is asked for.
pub get_cluster_remaining_bytes_bounds :
    (t : FatTable) (remaining offset : ℕ)
    → let r = get_cluster_remaining_bytes t remaining offset in
      (r ≤ remaining) × (mask_offset offset t + r ≤ bytes_per_cluster t) × (0 < remaining → 0 < r)
unfolding get_cluster_remaining_bytes
get_cluster_remaining_bytes_bounds t remaining offset = omega (arith, pow-pos t.cluster_order)

-- Two clusters with numbers from 2 on and below 2 ^ 32 occupy disjoint ranges of the volume, in
-- the order of their numbers.
pub cluster_offset-lt :
    (t : FatTable) (c d : ℕ)
    → 2 ≤ c
    → c < d
    → d < 2 ^ 32
    → cluster_offset t c + bytes_per_cluster t ≤ cluster_offset t d
unfolding cluster_offset
cluster_offset-lt t c d h k l = grind arith
