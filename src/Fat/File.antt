-- ===== src/Fat/File.antt =====
-- The data operations of fat_file.c. Each loop runs on fuel; the theorems give enough.
pub mod Free
pub mod Walk
pub mod Read
pub mod Touch
pub mod Pread
pub mod Truncate
pub mod Extend
pub mod Positions
pub mod Written
pub mod Pwrite
pub mod WriteRead
use famaf_unc.Base.{
  ℕ, zero, suc, ◌+◌, ◌-◌, ◌%◌, ◌^◌, min, max, Bool, true, false, not, ◌||◌, ◌&&◌, Option, ltb, leb,
  ◌==◌, if◌then◌else◌,
}
use famaf_unc.Fat.Device.{
  Device, FatTable, Volume, Run, ok, out_of_fuel, Cmd, pure, lift, ◌>>=◌, ◌>>◌, eio, eoverflow,
}
use famaf_unc.Fat.Table.{
  Status, success, failure, end_of_chain_max, cluster_free, get_next_cluster, bytes_per_cluster,
  mask_offset, get_cluster_remaining_bytes, get_clusters_for_size, get_next_free_cluster,
  cluster_offset, seek_cluster, cluster_is_eoc, cluster_is_valid, set_next_cluster,
}
use famaf_unc.Fat.Util.{full_pread, full_pwrite}
use famaf_unc.Fat.Dentry.{FatDirEntry, FatFile, fill_dentry_time_now, write_dir_entry}

module _ {D : Type 0} where
  -- A question to the table in memory, which may read outside the map.
  abbrev pub on_table : {A : Type 0} → (FatTable → Option A) → Cmd D A
  on_table q v = lift (q v.table) v

  abbrev pub get_table : Cmd D FatTable
  get_table v = ok v.table v

  abbrev pub get_errno : Cmd D ℕ
  get_errno v = ok v.errno v

  abbrev pub set_errno : ℕ → Cmd D (Unit {0})
  set_errno e v = ok tt (record v { errno = e })

-- The loop of fat_file_free_clusters, which passes over an entry that cannot be written.
unfoldable pub free_loop : {D : Type 0} → Device D → ℕ → ℕ → Cmd D (Unit {0})
free_loop dev zero cluster v = out_of_fuel
free_loop dev (suc fuel) cluster v =
    if cluster_is_valid cluster
    then (do
      next ← on_table λ t. get_next_cluster t cluster
      set_next_cluster dev cluster cluster_free
      free_loop dev fuel next)
        v
    else ok tt v

unfoldable pub free_clusters : {D : Type 0} → Device D → ℕ → FatFile → Cmd D (Unit {0})
free_clusters dev fuel file = free_loop dev fuel file.start_cluster

-- The loop of fat_file_truncate, which stops at an entry that cannot be written.
unfoldable pub cut_loop : {D : Type 0} → Device D → ℕ → ℕ → Cmd D Status
cut_loop dev zero cluster v = out_of_fuel
cut_loop dev (suc fuel) cluster v =
    if cluster_is_valid cluster
    then (do
      next ← on_table λ t. get_next_cluster t cluster
      written ← set_next_cluster dev cluster cluster_free
      elim written [ success ↦ cut_loop dev fuel next | failure ↦ pure failure ])
        v
    else ok success v

-- The new times and size reach the entry on disk, and the file is returned.
unfoldable pub touch : {D : Type 0} → Device D → (file parent : FatFile) → Bool → Cmd D FatFile
touch dev file parent modified = do
  (filled, e) ← fill_dentry_time_now dev file.dentry false modified
  let file' = record file { dentry = e }
  write_dir_entry dev parent file'
  pure file'

abbrev pub resize : FatFile → ℕ → FatFile
resize file size = record file { dentry = record file.dentry { file_size = size } }

unfoldable pub truncate :
    {D : Type 0} → Device D → ℕ → (file : FatFile) → ℕ → (parent : FatFile) → Cmd D FatFile
truncate dev fuel file offset parent = do
  t ← get_table
  let current_num_clusters = max 1 (get_clusters_for_size t file.dentry.file_size)
  let new_num_clusters = max 1 (get_clusters_for_size t offset)
  if ltb file.dentry.file_size offset || leb current_num_clusters new_num_clusters
      then pure file
      else do
        last ← lift (seek_cluster t file.start_cluster offset)
        errno ← get_errno
        if not (errno == 0) then pure file else do
          next ← on_table λ u. get_next_cluster u last
          ended ← set_next_cluster dev last end_of_chain_max
          elim ended [
            | failure ↦ pure file
            | success ↦ do
              cut ← cut_loop dev fuel next
              elim cut [
                | failure ↦ pure file
                | success ↦ touch dev (resize file (offset % 2 ^ 32)) parent true
              ]
          ]

-- Gives 0 where no cluster can be had. The status of the first write is overwritten by that of the
-- second.
unfoldable pub next_or_new_cluster : {D : Type 0} → Device D → ℕ → Cmd D ℕ
next_or_new_cluster dev last = do
  next ← on_table λ t. get_next_cluster t last
  if not (cluster_is_eoc next) then pure next else do
    new ← on_table get_next_free_cluster
    if cluster_is_eoc new then pure 0 else do
      set_next_cluster dev last new
      ended ← set_next_cluster dev new end_of_chain_max
      elim ended [ success ↦ pure new | failure ↦ pure 0 ]

-- The loop of fat_file_pread; its result is `bytes_remaining`.
unfoldable pub read_loop :
    {D : Type 0} → Device D → ℕ → ℕ → (buf remaining offset cluster : ℕ) → Cmd D ℕ
read_loop dev fuel zero buf remaining offset cluster v = out_of_fuel
read_loop dev fuel (suc rounds) buf zero offset cluster v = ok zero v
read_loop dev fuel (suc rounds) buf (suc n) offset cluster v =
    if not (cluster_is_valid cluster)
    then ok (suc n) v
    else let wanted = get_cluster_remaining_bytes v.table (suc n) offset in
      (do
        got ←
            full_pread dev fuel buf wanted
              (cluster_offset v.table cluster + mask_offset offset v.table)
        if not (got == wanted) then pure (suc n) else do
          next ← on_table λ t. get_next_cluster t cluster
          read_loop dev fuel rounds (buf + got) (suc n - got) (offset + got) next)
        v

-- The count of bytes read, and the file with its new access date.
unfoldable pub pread :
    {D : Type 0}
    → Device D
    → ℕ
    → (file : FatFile) (buf size offset : ℕ) (parent : FatFile) → Cmd D (ℕ × FatFile)
pread dev fuel file buf size offset parent =
    if ltb file.dentry.file_size offset
    then (do set_errno eoverflow; pure (0, file))
    else let wanted = min size (file.dentry.file_size - offset) in
      if wanted == 0 then pure (0, file) else do
        cluster ← on_table λ t. seek_cluster t file.start_cluster offset
        if cluster == 0 then pure (0, file) else do
          remaining ← read_loop dev fuel (wanted + 1) buf wanted offset cluster
          file' ← touch dev file parent false
          pure (wanted - remaining, file')

-- The loop of fat_file_pwrite; its result is `bytes_remaining`.
unfoldable pub write_loop :
    {D : Type 0} → Device D → ℕ → ℕ → (buf remaining offset cluster : ℕ) → Cmd D ℕ
write_loop dev fuel zero buf remaining offset cluster v = out_of_fuel
write_loop dev fuel (suc rounds) buf zero offset cluster v = ok zero v
write_loop dev fuel (suc rounds) buf (suc n) offset cluster v =
    let wanted = get_cluster_remaining_bytes v.table (suc n) offset in
    (do
      got ←
          full_pwrite dev fuel buf wanted
            (cluster_offset v.table cluster + mask_offset offset v.table)
      if not (got == wanted) then pure (suc n - got) else if suc n - got == 0 then pure zero else do
        next ← next_or_new_cluster dev cluster
        if next == 0 || not (cluster_is_valid next)
            then pure (suc n - got)
            else write_loop dev fuel rounds (buf + got) (suc n - got) (offset + got) next)
      v

-- The first cluster to write: behind the end of a full last cluster it is a new one.
unfoldable pub start_of_write : {D : Type 0} → Device D → FatFile → ℕ → Cmd D ℕ
start_of_write dev file offset = do
  t ← get_table
  cluster ← lift (seek_cluster t file.start_cluster (offset - 1))
  if (offset % bytes_per_cluster t == 0) && (not (cluster == 0) && not (offset == 0))
      then next_or_new_cluster dev cluster
      else pure cluster

unfoldable pub pwrite :
    {D : Type 0}
    → Device D
    → ℕ
    → (file : FatFile) (buf size offset : ℕ) (parent : FatFile) → Cmd D (ℕ × FatFile)
pwrite dev fuel file buf size offset parent =
    if ltb file.dentry.file_size offset then (do set_errno eoverflow; pure (0, file)) else do
      cluster ← start_of_write dev file offset
      if cluster == 0 then (do set_errno eio; pure (0, file)) else do
        remaining ← write_loop dev fuel (size + 1) buf size offset cluster
        let reached = offset + size - remaining
        let grown =
            if ltb file.dentry.file_size reached then resize file (reached % 2 ^ 32) else file
        file' ← touch dev grown parent true
        pure (size - remaining, file')
