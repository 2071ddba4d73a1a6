-- ===== src/Fat/Tests/Mounts.antt =====
-- A concrete boot sector and its volume.
use famaf_unc.Fat.Device.{done, Volume, ok}
use famaf_unc.Fat.Util.{load_bytes}
use famaf_unc.Fat.Table.{is_valid_cluster_number, cluster_offset, bytes_per_cluster}
use famaf_unc.Fat.Tests.{volume, Disk}
use famaf_unc.Fat.Mount.{
  FatBootSector, FatVolume, Mounting, accepted, read_dos_2_0_bpb, map_fat, le32_at,
}
use famaf_unc.Fat.Mount.Sector.{IsGeometry, with_geometry, read_dos_2_0_bpb_iff}
use famaf_unc.Fat.Mount.Mapped.{CanMap, Maps, map_fat-entries}
use famaf_unc.Fat.Mount.Layout.{HasClusters, mounted_table, last_cluster-beyond}
use famaf_unc.Base.{ℕ, ◌+◌, ◌*◌, ◌<◌, ◌^◌, ◌%◌, ◌≡◌, ◌↔◌, refl, true, [], get_elem?, some, arith}

-- 512 bytes per sector, 8 sectors per cluster, 32 sectors reserved, two tables of 16 sectors, and 100
-- clusters' worth of sectors behind the reserved ones.
abbrev small_sector : FatBootSector
small_sector = record {
  oem_name = [];
  bytes_per_sector = 512;
  sectors_per_cluster = 8;
  reserved_sectors = 32;
  num_tables = 2;
  max_root_entries = 0;
  total_sectors = 832;
  media_descriptor = 248;
  sectors_per_fat = 16;
  sectors_per_track = 0;
  num_heads = 0;
  hidden_sectors = 0;
  total_sectors_32 = 0;
  sectors_per_fat_32 = 0;
  drive_description = 0;
  version = 0;
  root_dir_start_cluster = 2;
  fs_info_sector = 1;
  alt_boot_sector = 6;
  physical_drive_num = 0;
  extended_boot_sig = 0;
  volume_id = 0;
  volume_label = [];
  fs_type = [];
}

abbrev zeroed : FatVolume
zeroed = record {
  table = record {
    fat_map = [];
    fat_offset = 0;
    num_data_clusters = 0;
    data_start_offset = 0;
    cluster_order = 0;
  };
  fat_map_address = 0;
  fd = 0;
  mount_flags = 0;
  max_allocated_files = 0;
  oem_name = [];
  bytes_per_sector = 0;
  sector_order = 0;
  sectors_per_cluster = 0;
  sectors_per_cluster_order = 0;
  reserved_sectors = 0;
  num_tables = 0;
  max_root_entries = 0;
  media_descriptor = 0;
  total_sectors = 0;
  sectors_per_fat = 0;
  sectors_per_track = 0;
  num_heads = 0;
  hidden_sectors = 0;
  drive_description = 0;
  version = 0;
  root_dir_start_cluster = 0;
  fs_info_sector = 0;
  alt_boot_sector = 0;
  physical_drive_num = 0;
  extended_boot_sig = 0;
  volume_id = 0;
  volume_label = [];
  fs_type = [];
}

abbrev pub small_volume : FatVolume
small_volume = record zeroed {
  table = record (zeroed.table) { cluster_order = 12 };
  bytes_per_sector = 512;
  sector_order = 9;
  sectors_per_cluster = 8;
  sectors_per_cluster_order = 3;
  reserved_sectors = 32;
  num_tables = 2;
  media_descriptor = 248;
  total_sectors = 832;
  sectors_per_fat = 16;
}

read_dos_2_0_bpb_iff_example : (read_dos_2_0_bpb small_sector zeroed ≡ accepted small_volume) ↔ (
    (k : ℕ) × (j : ℕ) × IsGeometry small_sector k j
    × (small_volume ≡ with_geometry small_sector zeroed k j))
read_dos_2_0_bpb_iff_example =
    read_dos_2_0_bpb_iff small_sector zeroed small_volume (omega arith) (omega arith)

abbrev image : ℕ → ℕ
image i = i % 256

abbrev machine : Mounting Disk
machine = record {
  open_volume = λ d writable. (d, done 3);
  close = λ d fd. (d, done 0);
  mmap = λ d n writable fd offset. (d, done (2 ^ 20, load_bytes image offset n));
  munmap = λ d address n. (d, done 0);
  page_size = 4096;
}

machine-Maps : Maps machine image
machine-Maps = λ d n writable fd q. (d, 2 ^ 20, refl)

machine-CanMap : CanMap machine small_volume 12
machine-CanMap = record {
  page = refl;
  page_max = omega arith;
  reserved = omega arith;
  per_fat = omega arith;
  order = omega arith;
}

map_fat-entries_example :
    (w : FatVolume) × (u : Volume Disk) × (map_fat machine small_volume 3 2 volume ≡ ok (some w) u)
    × (w.table.fat_offset ≡ 16384)
    × ((i : ℕ)
        → 4 * i + 3 < 8192
        → get_elem? w.table.fat_map i ≡ some (le32_at image (16384 + 4 * i)))
map_fat-entries_example =
    map_fat-entries machine small_volume 12 machine-CanMap image 3 2 volume machine-Maps

small_volume-HasClusters : HasClusters small_volume 100
small_volume-HasClusters = record {
  no_root = refl;
  total = refl;
  total_max = omega arith;
  some_cluster = omega arith;
  order = refl;
  start_max = omega arith;
}

last_cluster-beyond_example :
    (is_valid_cluster_number (mounted_table small_volume) 101 ≡ true)
    × (cluster_offset (mounted_table small_volume) 101
          + bytes_per_cluster (mounted_table small_volume)
        ≡ 864 * 512)
last_cluster-beyond_example =
    last_cluster-beyond small_volume 100 small_volume-HasClusters (omega arith)
