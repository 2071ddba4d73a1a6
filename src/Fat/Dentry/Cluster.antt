-- ===== src/Fat/Dentry/Cluster.antt =====
-- The first cluster of an entry, which is split over two fields, and the size of an entry on disk.
use famaf_unc.Base.{ℕ, ◌^◌, ◌<◌, ◌≡◌, refl, arith, length, length-append}
use famaf_unc.Fat.Dentry.{
  FatDirEntry, dentry_bytes, entry_size, set_first_cluster, file_start_cluster,
}

-- A cluster number of 32 bits is read back as it was stored, and the copy touches no other field.
file_start_cluster-set :
    (e : FatDirEntry) (cluster : ℕ)
    → cluster < 2 ^ 32
    → (file_start_cluster (set_first_cluster e cluster) ≡ cluster)
      × (record (set_first_cluster e cluster) {
        start_cluster_low = e.start_cluster_low;
        start_cluster_high = e.start_cluster_high;
      }
          ≡ e)
unfolding file_start_cluster set_first_cluster
file_start_cluster-set e cluster h = (omega arith, refl)

-- An entry whose name has 8 bytes and whose extension has 3 takes 32 bytes on disk.
length-dentry_bytes :
    (e : FatDirEntry)
    → length e.base_name ≡ 8
    → length e.extension ≡ 3
    → length (dentry_bytes e) ≡ entry_size
unfolding dentry_bytes
length-dentry_bytes e b x = omega (arith, length-append {0})
