-- ===== src/Fat/File/Truncate.antt =====
-- fat_file_truncate.
use famaf_unc.Fat.Dentry.{FatFile}
use famaf_unc.Fat.Table.{get_clusters_for_size}
use famaf_unc.Fat.File.{truncate, get_clusters_for_size, FatFile}
use famaf_unc.Fat.Table.Sizes.{get_clusters_for_size_bounds}
use famaf_unc.Fat.Table.{bytes_per_cluster}
use famaf_unc.Base.{suc, ◌*◌, ◌^◌, ℕ, ◌<◌, ◌≤◌, ◌≡◌, refl, true, arith, max, ltb, ◌||◌, leb}
use famaf_unc.Fat.Device.{Device, FatTable, Volume, ok}

-- The number of clusters that truncation reckons with for a size.
abbrev pub clusters : FatTable → ℕ → ℕ
clusters t size = max 1 (get_clusters_for_size t size)

-- Truncation beyond the end of the file does nothing.
truncate-beyond :
    {D : Type 0} (dev : Device D) (fuel : ℕ) (file parent : FatFile) (offset : ℕ) (v : Volume D)
    → file.dentry.file_size < offset
    → truncate dev fuel file offset parent v ≡ ok file v
unfolding truncate
truncate-beyond dev fuel file parent offset v h =
    let beyond : ltb file.dentry.file_size offset ≡ true = ground arith in rw beyond refl

-- Truncation to a size that needs as many clusters as the file has does nothing.
truncate-same_clusters :
    {D : Type 0} (dev : Device D) (fuel : ℕ) (file parent : FatFile) (offset : ℕ) (v : Volume D)
    → clusters v.table file.dentry.file_size ≤ clusters v.table offset
    → truncate dev fuel file offset parent v ≡ ok file v
unfolding truncate
truncate-same_clusters dev fuel file parent offset v h =
    let nothing : (ltb file.dentry.file_size offset
          || leb (clusters v.table file.dentry.file_size) (clusters v.table offset))
        ≡ true =
      ground arith in
    rw nothing refl

mul-lt : (x y b : ℕ) → x * b < y * b → x < y
mul-lt x y b h = grind arith

clusters-last :
    (t : FatTable) (size offset k : ℕ)
    → size ≤ suc k * bytes_per_cluster t
    → k * bytes_per_cluster t < offset
    → size < 2 ^ 32
    → offset < 2 ^ 32
    → clusters t size ≤ clusters t offset
clusters-last t size offset k within beyond l m =
    let (_, few) = get_clusters_for_size_bounds t size l in
    let (many, _) = get_clusters_for_size_bounds t offset m in
    let upper =
      mul-lt (get_clusters_for_size t size) (suc (suc k)) (bytes_per_cluster t) (grind arith) in
    let lower = mul-lt k (get_clusters_for_size t offset) (bytes_per_cluster t) (omega arith) in
    omega arith

-- Truncation of a file of less than 2 ^ 32 bytes to a size that ends in the same cluster, the one with the
-- number `k` of the file, leaves the file, the table and the volume as they are: the size is
-- not set.
pub truncate-last_cluster :
    {D : Type 0} (dev : Device D) (fuel : ℕ) (file parent : FatFile) (offset k : ℕ) (v : Volume D)
    → file.dentry.file_size ≤ suc k * bytes_per_cluster v.table
    → k * bytes_per_cluster v.table < offset
    → file.dentry.file_size < 2 ^ 32
    → offset < 2 ^ 32
    → truncate dev fuel file offset parent v ≡ ok file v
truncate-last_cluster dev fuel file parent offset k v within beyond l m =
    truncate-same_clusters dev fuel file parent offset v
      (clusters-last v.table file.dentry.file_size offset k within beyond l m)
