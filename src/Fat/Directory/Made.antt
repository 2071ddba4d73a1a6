-- ===== src/Fat/Directory/Made.antt =====
-- fat_file_init on a volume with a free cluster, and the entry that a new file gets in its parent.
use famaf_unc.Fat.Device.{Device, Volume, ok}
use famaf_unc.Fat.Table.{
  get_next_free_cluster, is_cluster_used, entry, cluster_free, with_entry, end_of_chain_max,
}
use famaf_unc.Fat.File.Free.{WritesSomething, set_next_cluster-writes}
use famaf_unc.Fat.Dentry.{
  FatFile, FatDirEntry, fill_dentry_time_now, dentry_add_child, file_start_cluster,
}
use famaf_unc.Fat.Dentry.Write.{write_dir_entry-keeps}
use famaf_unc.Fat.Directory.{file_init, init_direntry, file_of_dentry}
use famaf_unc.Base.{ℕ, ◌≡◌, refl, Bool, List, some, lt_of_get_elem?, ◌+◌, ◌%◌, ◌^◌}

init_direntry-keeps :
    {D : Type 0} (dev : Device D) (is_dir : Bool) (filepath : List ℕ) (c : ℕ) (v : Volume D)
    → (e : FatDirEntry) × (d : D) × (init_direntry dev is_dir filepath c v
        ≡ ok e (record v { disk = d }))
unfolding init_direntry fill_dentry_time_now
init_direntry-keeps dev is_dir filepath c v = (_, _, refl)

-- It makes a file with this path, whose one cluster ends its chain.
pub file_init-made :
    {D : Type 0} (dev : Device D) (writes : WritesSomething dev) (is_dir : Bool) (filepath : List ℕ)
    (c : ℕ) (v : Volume D)
    → get_next_free_cluster v.table ≡ some c
    → entry v.table c ≡ some cluster_free
    → (file : FatFile) × (w : Volume D) × (file_init dev is_dir filepath v ≡ ok (some file) w)
      × (file.filepath ≡ filepath)
      × (w.table ≡ with_entry v.table c end_of_chain_max)
      × (w.errno ≡ v.errno)
unfolding file_init is_cluster_used
file_init-made dev writes is_dir filepath c v next free =
    let (e, d, init) = init_direntry-keeps dev is_dir filepath c v in
    let (w, run, t, _, kept) =
      set_next_cluster-writes dev writes c end_of_chain_max (record v { disk = d })
        (lt_of_get_elem? v.table.fat_map c free) in
    (
      file_of_dentry e filepath (file_start_cluster e),
      w,
      simp (next, free, init, run) refl,
      refl,
      t,
      kept,
    )

pub dentry_add_child-keeps :
    {D : Type 0} (dev : Device D) (parent child : FatFile) (v : Volume D)
    → (parent' child' : FatFile) × (w : Volume D) × (dentry_add_child dev parent child v
        ≡ ok (parent', child') w)
      × (parent'.filepath ≡ parent.filepath)
      × (child'.filepath ≡ child.filepath)
      × (child'.pos_in_parent ≡ parent.nentries)
      × (w.table ≡ v.table)
unfolding dentry_add_child
dentry_add_child-keeps dev parent child v =
    let child' = record child { pos_in_parent = parent.nentries } in
    let (st, w, run, t, _) = write_dir_entry-keeps dev parent child' v in
    (
      record parent { nentries = (parent.nentries + 1) % 2 ^ 32 },
      child',
      w,
      rw run refl,
      refl,
      refl,
      refl,
      t,
    )
