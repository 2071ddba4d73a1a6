-- ===== src/Fat/Dentry.antt =====
-- Directory entries and files: fat_file.h, and the functions of fat_file.c that work on an entry.
pub mod Cluster
pub mod Write
use famaf_unc.Base.{
  ℕ, zero, suc, ◌+◌, ◌-◌, ◌*◌, ◌/◌, ◌%◌, ◌^◌, Bool, true, false, not, ◌||◌, ◌&&◌, List, [], ◌∷◌,
  ◌++◌, ltb, leb, ◌==◌, if◌then◌else◌,
}
use famaf_unc.Fat.Device.{Device, Volume, Io, done, failed, Run, ok, Cmd, pure, ◌>>=◌, ◌>>◌}
use famaf_unc.Fat.Table.{Status, success, failure, bytes_per_cluster, cluster_offset}
use famaf_unc.Fat.Time.{fill_date, fill_time}

-- `struct fat_dir_entry_s`; `base_name` has 8 bytes and `extension` 3. The union is named as FAT32
-- reads it.
pub record FatDirEntry : Type 0 where
  pub base_name : List ℕ
  pub extension : List ℕ
  pub attribs : ℕ
  pub reserved : ℕ
  pub create_time_fine_res : ℕ
  pub create_time : ℕ
  pub create_date : ℕ
  pub last_access_date : ℕ
  pub start_cluster_high : ℕ
  pub last_modified_time : ℕ
  pub last_modified_date : ℕ
  pub start_cluster_low : ℕ
  pub file_size : ℕ

-- `struct fat_file_s`, for a file that has an entry; `nentries` is the union's one number, which a
-- file that is no directory uses as `num_clusters`. Every file belongs to the volume's table.
pub record FatFile : Type 0 where
  pub dentry : FatDirEntry
  pub name : List ℕ
  pub filepath : List ℕ
  pub start_cluster : ℕ
  pub nentries : ℕ
  pub pos_in_parent : ℕ
  pub num_times_opened : ℕ
  pub children_read : Bool

-- The packed layout on disk, little-endian.
abbrev pub le16_bytes : ℕ → List ℕ
le16_bytes n = n % 256 ∷ n / 256 % 256 ∷ []

unfoldable pub dentry_bytes : FatDirEntry → List ℕ
dentry_bytes e =
    e.base_name
    ++ (e.extension
        ++ (e.attribs
            ∷ e.reserved
            ∷ e.create_time_fine_res
            ∷ (le16_bytes e.create_time
                ++ (le16_bytes e.create_date
                    ++ (le16_bytes e.last_access_date
                        ++ (le16_bytes e.start_cluster_high
                            ++ (le16_bytes e.last_modified_time
                                ++ (le16_bytes e.last_modified_date
                                    ++ (le16_bytes e.start_cluster_low
                                        ++ (le16_bytes e.file_size
                                            ++ le16_bytes (e.file_size / 65536)))))))))))

-- sizeof(struct fat_dir_entry_s)
abbrev pub entry_size : ℕ
entry_size = 32

-- The copy of the four bytes of the cluster's number into the two fields.
unfoldable pub set_first_cluster : FatDirEntry → ℕ → FatDirEntry
set_first_cluster e cluster = record e {
  start_cluster_low = cluster % 2 ^ 16;
  start_cluster_high = cluster / 2 ^ 16 % 2 ^ 16;
}

unfoldable pub file_start_cluster : FatDirEntry → ℕ
file_start_cluster e = e.start_cluster_low + e.start_cluster_high * 2 ^ 16

-- The current time is read first; with `fill_create` and not `fill_modified` nothing is filled.
unfoldable pub fill_times : FatDirEntry → Bool → Bool → ℕ → ℕ → FatDirEntry
fill_times e create modified date time =
    let touched =
      if modified
      then record e {
        last_modified_date = date;
        last_modified_time = time;
        last_access_date = date;
      }
      else record e { last_access_date = date } in
    if create
    then record touched {
      create_date = touched.last_modified_date;
      create_time = touched.last_modified_time;
    }
    else touched

unfoldable pub fill_dentry_time_now :
    {D : Type 0} → Device D → FatDirEntry → Bool → Bool → Cmd D (Status × FatDirEntry)
unfolding fill_times fill_time
fill_dentry_time_now dev e create modified v =
    let (d, now) = dev.time v.disk in
    if not (not create || modified)
    then ok (failure, e) (record v { disk = d })
    else ok (success, fill_times e create modified (fill_time dev now).0 (fill_time dev now).1)
        (record v { disk = d })

-- FILE_ATTRIBUTE_DIRECTORY is bit 4, FILE_ATTRIBUTE_READONLY bit 0, FILE_ATTRIBUTE_VOLUME bit 3.
abbrev pub has_attribute : ℕ → FatDirEntry → Bool
has_attribute bit e = e.attribs / 2 ^ bit % 2 == 1

-- Each file that fat_file.c hands out has an entry, the root too (fat_file_init_orphan_dir), so the test for an entry
-- that is NULL never succeeds.
unfoldable pub is_directory : FatFile → Bool
is_directory f = has_attribute 4 f.dentry

-- The counter has 31 bits.
unfoldable pub inc_num_times_opened : FatFile → FatFile
inc_num_times_opened f = record f { num_times_opened = (f.num_times_opened + 1) % 2 ^ 31 }

unfoldable pub dec_num_times_opened : FatFile → FatFile
dec_num_times_opened f = record f { num_times_opened = (f.num_times_opened + 2 ^ 31 - 1) % 2 ^ 31 }

-- An `ssize_t` as an operand of a comparison with a `size_t`: -1 becomes the greatest number.
abbrev pub as_size_t : Io ℕ → ℕ
as_size_t (failed e) = 2 ^ 64 - 1
as_size_t (done n) = n

abbrev pub errno_behind : Io ℕ → ℕ → ℕ
errno_behind (failed e) errno = e
errno_behind (done n) errno = errno

-- The answer of `pwrite`: the comparison `written_bytes < entry_size`, and `errno` as the call left it.
unfoldable pub after_dentry_write : {D : Type 0} → D × Io ℕ → Cmd D Status
after_dentry_write (d, written) v =
    ok (if ltb (as_size_t written) entry_size then failure else success)
      (record v { disk = d; errno = errno_behind written v.errno })

-- `chunk_size` is a `u32`.
unfoldable pub write_dir_entry : {D : Type 0} → Device D → (parent file : FatFile) → Cmd D Status
unfolding after_dentry_write
write_dir_entry dev parent file v =
    if leb (bytes_per_cluster v.table % 2 ^ 32) (file.pos_in_parent * entry_size)
    then ok failure v
    else after_dentry_write
        (dev.pwrite v.disk (dentry_bytes file.dentry)
          (file.pos_in_parent * entry_size + cluster_offset v.table parent.start_cluster))
        v

-- The times of `struct utimbuf` are two arguments; the access time's clock is not kept.
unfoldable pub fat_utime :
    {D : Type 0} → Device D → (file parent : FatFile) → (actime modtime : ℕ) → Cmd D FatFile
unfolding write_dir_entry fill_time
fat_utime dev file parent actime modtime =
    let file' = record file {
      dentry = record file.dentry {
        last_access_date = (fill_time dev actime).0;
        last_modified_date = (fill_time dev modtime).0;
        last_modified_time = (fill_time dev modtime).1;
      };
    } in
    do write_dir_entry dev parent file'; pure file'

-- The new parent and the new child.
unfoldable pub dentry_add_child :
    {D : Type 0} → Device D → (parent child : FatFile) → Cmd D (FatFile × FatFile)
unfolding write_dir_entry
dentry_add_child dev parent child =
    let child' = record child { pos_in_parent = parent.nentries } in
    do
      write_dir_entry dev parent child'
      pure (record parent { nentries = (parent.nentries + 1) % 2 ^ 32 }, child')

abbrev pub set_first : List ℕ → ℕ → List ℕ
set_first [] b = []
set_first (x ∷ xs) b = b ∷ xs

-- FILE_FOR_DELETION goes to the first byte of the name.
unfoldable pub remove_dentry : {D : Type 0} → Device D → (file parent : FatFile) → Cmd D FatFile
unfolding write_dir_entry
remove_dentry dev file parent =
    let file' = record file {
      dentry = record file.dentry { base_name = set_first file.dentry.base_name 0xe5 };
    } in
    do write_dir_entry dev parent file'; pure file'
