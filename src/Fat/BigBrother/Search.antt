-- ===== src/Fat/BigBrother/Search.antt =====
-- The search looks for the mark where it cannot be seen.
use famaf_unc.Fat.Table.{get_next_cluster, bad_sector, cluster_is_bad_sector, end_unless_valid}
use famaf_unc.Fat.BigBrother.{
  search_loop, search_bb_orphan_dir_cluster, cluster_is_bad_sector, no_cluster,
}
use famaf_unc.Base.{
  ℕ, zero, suc, ◌+◌, ◌≤◌, ◌<◌, ◌≡◌, refl, false, some, arith, length, get_elem?_of_lt, ◌-◌,
}
use famaf_unc.Fat.Device.{Device, FatTable, Volume, ok}

-- fat_table_get_next_cluster reports a bad sector as the end of a chain, unless the volume has more
-- than 2^28 clusters.
next-not-bad :
    (t : FatTable) (c n : ℕ)
    → t.num_data_clusters + 2 ≤ bad_sector
    → get_next_cluster t c ≡ some n
    → cluster_is_bad_sector n ≡ false
unfolding get_next_cluster cluster_is_bad_sector
next-not-bad t c n h e = ground arith

get_next_cluster-total :
    (t : FatTable) (c : ℕ) → c < length t.fat_map → (n : ℕ) × (get_next_cluster t c ≡ some n)
unfolding get_next_cluster
get_next_cluster-total t c h =
    let (x, e) = get_elem?_of_lt t.fat_map c h in (end_unless_valid t x, rw e refl)

search_loop-nothing :
    {D : Type 0} (dev : Device D) (fuel buf left curr : ℕ) (v : Volume D)
    → v.table.num_data_clusters + 2 ≤ bad_sector
    → curr + left ≤ length v.table.fat_map
    → search_loop dev fuel buf left curr v ≡ ok no_cluster v
unfolding search_loop
search_loop-nothing dev fuel buf zero curr v h l = refl
search_loop-nothing dev fuel buf (suc left) curr v h l =
    let (n, e) = get_next_cluster-total v.table curr (omega arith) in
    simp (e, next-not-bad v.table curr n h e)
      (search_loop-nothing dev fuel buf left (curr + 1) v h (omega arith))

-- On a volume whose cluster numbers end below the bad-sector mark, whose map has at least 10000
-- entries and whose root directory starts at cluster 10000 at most, the search finds nothing,
-- whatever the FAT holds: it returns BAD_CLUSTER, as if there were no hidden directory.
pub search_bb_orphan_dir_cluster-nothing :
    {D : Type 0} (dev : Device D) (fuel buf root : ℕ) (v : Volume D)
    → v.table.num_data_clusters + 2 ≤ bad_sector
    → 10000 ≤ length v.table.fat_map
    → root ≤ 10000
    → search_bb_orphan_dir_cluster dev fuel buf root v ≡ ok no_cluster v
unfolding search_bb_orphan_dir_cluster
search_bb_orphan_dir_cluster-nothing dev fuel buf root v h l r =
    search_loop-nothing dev fuel buf (10000 - root) root v h (omega arith)
