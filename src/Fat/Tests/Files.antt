-- ===== src/Fat/Tests/Files.antt =====
-- Reads, writes and chains on the volume in memory.
use famaf_unc.Fat.File.Free.{free_clusters-freed}
use famaf_unc.Fat.File.Walk.{byte_position}
use famaf_unc.Fat.Util.Read.{Delivered, full_pread-Delivered}
use famaf_unc.Fat.File.Truncate.{truncate-last_cluster}
use famaf_unc.Fat.File.Extend.{MapsDataClusters, next_or_new_cluster-extends}
use famaf_unc.Fat.Table.Chain.{nth_cluster, has, Follows}
use famaf_unc.Fat.Util.Write.{Stored, full_pwrite-Stored}
use famaf_unc.Fat.File.Pread.{available, pread-Fetched}
use famaf_unc.Fat.File.Read.{IsFileChain}
use famaf_unc.Fat.Dentry.{FatFile}
use famaf_unc.Fat.Util.{full_pread, full_pwrite}
use famaf_unc.Fat.Tests.{
  Disk, mem_device, Quiet, mem_device-IsVolume, table, volume, file, root, chain, table-Follows,
  table-two_valid, mem_device-WritesSomething, FatFile,
}
use famaf_unc.Base.{
  ℕ, zero, suc, ◌+◌, ◌-◌, ◌*◌, ◌≤◌, ◌≡◌, ◌≢◌, refl, ◌&&◌, true, false, [], ◌∷◌, ◌++◌, arith, ltb,
  leb, if◌then◌else◌, length, some,
}
use famaf_unc.Fat.Table.{
  bytes_per_cluster, cluster_is_valid, is_valid_cluster_number, cluster_offset, entry, cluster_free,
}
use famaf_unc.Fat.File.{pread, next_or_new_cluster, free_clusters, truncate}
use famaf_unc.Fat.Device.{Volume, ok}

chain_inside :
    (n : ℕ)
    → n ≤ 2
    → cluster_offset table (nth_cluster (2 ∷ chain) n) + bytes_per_cluster table ≤ 2000
unfolding cluster_offset
chain_inside zero h = omega arith
chain_inside (suc zero) h = omega arith
chain_inside (suc (suc zero)) h = omega arith
chain_inside (suc (suc (suc n))) h = absurd (omega arith)

pub chain-IsFileChain : IsFileChain table 2000 2 chain
chain-IsFileChain = record {
  start = omega arith;
  valid = table-two_valid;
  follows = table-Follows;
  inside = chain_inside;
}

pub size-within : 150 ≤ length (2 ∷ chain) * bytes_per_cluster table
size-within = omega arith

pread-Fetched_example :
    (file' : FatFile) × (w : Volume Disk) × (pread mem_device 200 file 5000 100 60 root volume
      ≡ ok (available file 100 60, file') w)
    × (w.table ≡ table)
    × ((a : ℕ)
        → w.mem a ≡ (
            if leb 5000 a && ltb a (5000 + available file 100 60)
            then byte_position table (2 ∷ chain) (60 + (a - 5000))
            else 0))
pread-Fetched_example =
    pread-Fetched (mem_device-IsVolume 2000) table 2 chain chain-IsFileChain 200 file root 5000 100
      60 volume refl refl (omega arith) size-within (omega arith) (omega arith) tt

full_pread-Delivered_example :
    (w : Volume Disk) × (full_pread mem_device 200 5000 100 60 volume ≡ ok 100 w)
    × Delivered (λ d i. d i) Quiet volume w 5000 100 60
full_pread-Delivered_example =
    full_pread-Delivered (mem_device-IsVolume 2000) 200 5000 100 60 volume (omega arith)
      (omega arith) (omega arith) tt

full_pwrite-Stored_example :
    (w : Volume Disk) × (full_pwrite mem_device 200 5000 100 60 volume ≡ ok 100 w)
    × Stored (λ d i. d i) Quiet volume w 5000 100 60
full_pwrite-Stored_example =
    full_pwrite-Stored (mem_device-IsVolume 2000) 200 5000 100 60 volume (omega arith) (omega arith)
      (omega arith) tt

free_clusters-freed_example :
    (w : Volume Disk) × (free_clusters mem_device 9 file volume ≡ ok tt w)
    × (w.mem ≡ volume.mem)
    × ((j : ℕ) → has j (2 ∷ chain) ≡ true → entry w.table j ≡ some cluster_free)
    × ((j : ℕ) → has j (2 ∷ chain) ≡ false → entry w.table j ≡ entry table j)
free_clusters-freed_example =
    free_clusters-freed mem_device mem_device-WritesSomething 9 file chain volume table-two_valid
      table-Follows (omega arith)

table-MapsDataClusters : MapsDataClusters table
unfolding is_valid_cluster_number cluster_is_valid
table-MapsDataClusters k two inside = (ground arith, ground arith)

next_or_new_cluster-extends_example :
    (new : ℕ) × (w : Volume Disk) × (next_or_new_cluster mem_device 4 volume ≡ ok new w)
    × (entry table new ≡ some cluster_free)
    × Follows w.table 2 (chain ++ new ∷ [])
    × ((k : ℕ) → k ≢ 4 → k ≢ new → entry w.table k ≡ entry table k)
next_or_new_cluster-extends_example =
    next_or_new_cluster-extends mem_device mem_device-WritesSomething 2 chain 5 volume
      table-MapsDataClusters table-Follows (λ e. ground arith) (omega arith) refl

truncate-last_cluster_example : truncate mem_device 9 file 140 root volume ≡ ok file volume
truncate-last_cluster_example =
    truncate-last_cluster mem_device 9 file root 140 2 volume (omega arith) (omega arith)
      (omega arith) (omega arith)
