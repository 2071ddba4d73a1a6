-- ===== src/Fat/Directory.antt =====
-- The functions of fat_file.c that make files: from an entry on disk, and anew.
pub mod Full
pub mod Made
use famaf_unc.Fat.Filename.{
  build_filename, filename_from_path, filepath_from_name, file_basename_valid, file_extension_valid,
}
use famaf_unc.Fat.Table.{
  is_valid_cluster_number, cluster_is_valid, get_next_free_cluster, bytes_per_cluster,
  cluster_offset, is_cluster_used, set_next_cluster, get_next_cluster, end_of_chain_max, success,
  failure,
}
use famaf_unc.Fat.File.{on_table, set_errno}
use famaf_unc.Fat.Dentry.{
  FatDirEntry, FatFile, entry_size, has_attribute, fill_dentry_time_now, file_start_cluster,
  set_first_cluster,
}
use famaf_unc.Base.{
  ℕ, zero, suc, ◌+◌, ◌-◌, ◌*◌, ◌/◌, ◌%◌, ◌^◌, Bool, true, false, not, ◌||◌, ◌&&◌, List, [], ◌∷◌,
  ◌++◌, Option, none, some, ltb, leb, ◌==◌, if◌then◌else◌, length, take, replicate,
}
use famaf_unc.Fat.Device.{
  Device, Volume, Run, ok, fault, out_of_fuel, Cmd, pure, lift, ◌>>=◌, ◌>>◌, eio, enospc,
}
use famaf_unc.Fat.Util.{get_or, load_bytes, full_pread}

abbrev pub le16_at : (ℕ → ℕ) → ℕ → ℕ
le16_at mem a = mem a + mem (a + 1) * 256

-- The entry whose 32 bytes lie at address `a`.
unfoldable pub dentry_at : (ℕ → ℕ) → ℕ → FatDirEntry
dentry_at mem a = record {
  base_name = load_bytes mem a 8;
  extension = load_bytes mem (a + 8) 3;
  attribs = mem (a + 11);
  reserved = mem (a + 12);
  create_time_fine_res = mem (a + 13);
  create_time = le16_at mem (a + 14);
  create_date = le16_at mem (a + 16);
  last_access_date = le16_at mem (a + 18);
  start_cluster_high = le16_at mem (a + 20);
  last_modified_time = le16_at mem (a + 22);
  last_modified_date = le16_at mem (a + 24);
  start_cluster_low = le16_at mem (a + 26);
  file_size = le16_at mem (a + 28) + le16_at mem (a + 30) * 65536;
}

unfoldable pub is_end_of_directory : FatDirEntry → Bool
is_end_of_directory e = get_or e.base_name 0 0 == 0

unfoldable pub ignore_dentry : FatDirEntry → Bool
ignore_dentry e =
    has_attribute 3 e
    || (not (file_basename_valid e.base_name) || not (file_extension_valid e.extension))

unfoldable pub init_file_from_dentry : FatDirEntry → (parent : FatFile) → FatFile
init_file_from_dentry e parent =
    let name = build_filename e.base_name e.extension in
    record {
      dentry = e;
      name = name;
      filepath = filepath_from_name parent.filepath name;
      start_cluster = file_start_cluster e;
      nentries = 0;
      pos_in_parent = parent.nentries;
      num_times_opened = 0;
      children_read = false;
    }

-- The loop over the `left` entries that remain of a cluster, `done` of which have been processed; the
-- entry is at address `a`. The children are given in the order in which they are appended.
unfoldable pub parse_entries : (ℕ → ℕ) → (left done a : ℕ) → FatFile → FatFile × List FatFile
parse_entries mem zero done a dir = (dir, [])
parse_entries mem (suc left) done a dir =
    let dir' = record dir { nentries = done } in
    let rest = parse_entries mem left (done + 1) (a + entry_size) dir' in
    if is_end_of_directory (dentry_at mem a)
    then (record dir' { children_read = true }, [])
    else if ignore_dentry (dentry_at mem a)
    then rest
    else (rest.0, init_file_from_dentry (dentry_at mem a) dir' ∷ rest.1)

unfoldable pub parse_dir_entries_in_cluster :
    (ℕ → ℕ) → ℕ → (buf : ℕ) → FatFile → FatFile × List FatFile
parse_dir_entries_in_cluster mem bytes buf dir = parse_entries mem (bytes / entry_size) 0 buf dir

-- The loop over the clusters of a directory; `none` stands for NULL after an error.
unfoldable pub read_clusters :
    {D : Type 0}
    → Device D
    → ℕ
    → ℕ
    → (buf cluster : ℕ) → FatFile
    → List FatFile
    → Cmd D (FatFile × Option (List FatFile))
read_clusters dev fuel zero buf cluster dir children v = out_of_fuel
read_clusters dev fuel (suc rounds) buf cluster dir children v =
    if not (cluster_is_valid cluster)
    then ok (record dir { children_read = true }, some children) v
    else let bytes = bytes_per_cluster v.table % 2 ^ 32 in
      (do
        got ← full_pread dev fuel buf bytes (cluster_offset v.table cluster)
        if not (got == bytes) then (do set_errno eio; pure (dir, none)) else λ w.
            let (dir', more) = parse_dir_entries_in_cluster w.mem bytes buf dir in
            (do
              next ← on_table λ t. get_next_cluster t cluster
              read_clusters dev fuel rounds buf next dir' (children ++ more))
              w)
        v

-- `buf` is the address that alloca gives.
unfoldable pub read_children :
    {D : Type 0} → Device D → ℕ → (buf : ℕ) → FatFile → Cmd D (FatFile × Option (List FatFile))
read_children dev fuel buf dir v =
    if is_valid_cluster_number v.table dir.start_cluster
    then read_clusters dev fuel fuel buf dir.start_cluster dir [] v
    else ok (dir, none) (record v { errno = eio })

abbrev pub blank_dentry : FatDirEntry
blank_dentry = record {
  base_name = replicate 8 0;
  extension = replicate 3 0;
  attribs = 0;
  reserved = 0;
  create_time_fine_res = 0;
  create_time = 0;
  create_date = 0;
  last_access_date = 0;
  start_cluster_high = 0;
  last_modified_time = 0;
  last_modified_date = 0;
  start_cluster_low = 0;
  file_size = 0;
}

-- Memory is never exhausted.
unfoldable pub init_direntry :
    {D : Type 0} → Device D → Bool → (filepath : List ℕ) → (start_cluster : ℕ) → Cmd D FatDirEntry
init_direntry dev is_dir filepath start_cluster =
    let (base, extension) = filename_from_path (dev.basename filepath) in
    let named = record blank_dentry {
      base_name = base;
      extension = extension;
      attribs = if is_dir then 0x10 else 0x20;
    } in
    do
      (filled, e) ← fill_dentry_time_now dev named true true
      pure (record (set_first_cluster e start_cluster) { file_size = 0 })

abbrev pub file_of_dentry : FatDirEntry → (filepath : List ℕ) → (start_cluster : ℕ) → FatFile
file_of_dentry e filepath start_cluster = record {
  dentry = e;
  name = build_filename e.base_name e.extension;
  filepath = filepath;
  start_cluster = start_cluster;
  nentries = 0;
  pos_in_parent = 0;
  num_times_opened = 0;
  children_read = false;
}

unfoldable pub init_orphan_dir :
    {D : Type 0} → Device D → (name : List ℕ) → (start_cluster : ℕ) → Cmd D FatFile
init_orphan_dir dev name start_cluster = do
  e ← init_direntry dev true name start_cluster
  pure (file_of_dentry e name start_cluster)

-- A new file with one cluster; `none` stands for NULL.
unfoldable pub file_init :
    {D : Type 0} → Device D → Bool → (filepath : List ℕ) → Cmd D (Option FatFile)
file_init dev is_dir filepath = do
  start_cluster ← on_table get_next_free_cluster
  used ← on_table λ t. is_cluster_used t start_cluster
  if used then (do set_errno enospc; pure none) else do
    e ← init_direntry dev is_dir filepath start_cluster
    ended ← set_next_cluster dev start_cluster end_of_chain_max
    elim ended [
      | success ↦ pure (some (file_of_dentry e filepath (file_start_cluster e)))
      | failure ↦ pure none
    ]
