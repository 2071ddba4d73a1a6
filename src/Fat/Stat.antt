-- ===== src/Fat/Stat.antt =====
-- fat_file_to_stbuf of fat_file.c: what stat tells of a file.
pub mod Times
use famaf_unc.Fat.Device.{Device, FatTable}
use famaf_unc.Fat.Table.{get_clusters_for_size, bytes_per_cluster}
use famaf_unc.Fat.Time.{time_to_unix_time}
use famaf_unc.Fat.Dentry.{FatFile, has_attribute, is_directory}
use famaf_unc.Base.{ℕ, ◌+◌, true, false, if◌then◌else◌}

-- The fields of struct stat that are set; the others are 0.
pub record Stat : Type 0 where
  pub st_nlink : ℕ
  pub st_mode : ℕ
  pub st_size : ℕ
  pub st_blocks : ℕ
  pub st_blksize : ℕ
  pub st_ctime : ℕ
  pub st_atime : ℕ
  pub st_mtime : ℕ

-- S_IFDIR is 0040000 and S_IFREG 0100000; the permissions 0555 and 0777 are other bits.
unfoldable pub mode : FatFile → ℕ
mode file =
    (if is_directory file then 0x4000 else 0x8000)
    + (if has_attribute 0 file.dentry then 0x16d else 0x1ff)

unfoldable pub file_to_stbuf : {D : Type 0} → Device D → FatTable → FatFile → Stat
file_to_stbuf dev t file = record {
  st_nlink = 1;
  st_mode = mode file;
  st_size = file.dentry.file_size;
  st_blocks = get_clusters_for_size t file.dentry.file_size;
  st_blksize = bytes_per_cluster t;
  st_ctime = time_to_unix_time dev file.dentry.create_date file.dentry.create_time;
  st_atime = time_to_unix_time dev file.dentry.last_access_date 0;
  st_mtime = time_to_unix_time dev file.dentry.last_modified_date file.dentry.last_modified_time;
}
