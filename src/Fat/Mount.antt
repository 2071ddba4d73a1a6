-- ===== src/Fat/Mount.antt =====
-- fat_volume.c: what is read from the boot sector, the map of the first FAT, and the layout of a mounted volume.
pub mod Bits
pub mod Powers
pub mod Sector
pub mod Mapped
pub mod Layout
pub mod Descriptors
use famaf_unc.Fat.Mount.Bits.{bit_and, complement, bsr, is_power_of_2}
use famaf_unc.Fat.Device.{
  Device, Volume, FatTable, Io, done, failed, Run, ok, fault, Cmd, pure, ◌>>=◌, einval,
}
use famaf_unc.Fat.Util.{full_pread, get_or, load_bytes}
use famaf_unc.Fat.Paths.{remove_trailing_spaces}
use famaf_unc.Base.{
  ℕ, zero, suc, ◌+◌, ◌-◌, ◌*◌, ◌/◌, ◌%◌, ◌^◌, Bool, true, false, not, ◌&&◌, ◌||◌, Option, none,
  some, List, [], ◌∷◌, ◌==◌, ltb, leb, drop, if◌then◌else◌,
}

-- `struct fat_boot_sector_disk` with its parts, little-endian numbers as such.
pub record FatBootSector : Type 0 where
  pub oem_name : List ℕ
  pub bytes_per_sector : ℕ
  pub sectors_per_cluster : ℕ
  pub reserved_sectors : ℕ
  pub num_tables : ℕ
  pub max_root_entries : ℕ
  pub total_sectors : ℕ
  pub media_descriptor : ℕ
  pub sectors_per_fat : ℕ
  pub sectors_per_track : ℕ
  pub num_heads : ℕ
  pub hidden_sectors : ℕ
  pub total_sectors_32 : ℕ
  pub sectors_per_fat_32 : ℕ
  pub drive_description : ℕ
  pub version : ℕ
  pub root_dir_start_cluster : ℕ
  pub fs_info_sector : ℕ
  pub alt_boot_sector : ℕ
  pub physical_drive_num : ℕ
  pub extended_boot_sig : ℕ
  pub volume_id : ℕ
  pub volume_label : List ℕ
  pub fs_type : List ℕ

abbrev pub le16_at : (ℕ → ℕ) → ℕ → ℕ
le16_at mem i = mem i + 256 * mem (i + 1)

abbrev pub le32_at : (ℕ → ℕ) → ℕ → ℕ
le32_at mem i = le16_at mem i + 2 ^ 16 * le16_at mem (i + 2)

-- The packed struct that begins at the address `buf`.
unfoldable pub boot_sector_at : (ℕ → ℕ) → (buf : ℕ) → FatBootSector
boot_sector_at mem buf = record {
  oem_name = load_bytes mem (buf + 3) 8;
  bytes_per_sector = le16_at mem (buf + 11);
  sectors_per_cluster = mem (buf + 13);
  reserved_sectors = le16_at mem (buf + 14);
  num_tables = mem (buf + 16);
  max_root_entries = le16_at mem (buf + 17);
  total_sectors = le16_at mem (buf + 19);
  media_descriptor = mem (buf + 21);
  sectors_per_fat = le16_at mem (buf + 22);
  sectors_per_track = le16_at mem (buf + 24);
  num_heads = le16_at mem (buf + 26);
  hidden_sectors = le32_at mem (buf + 28);
  total_sectors_32 = le32_at mem (buf + 32);
  sectors_per_fat_32 = le32_at mem (buf + 36);
  drive_description = le16_at mem (buf + 40);
  version = le16_at mem (buf + 42);
  root_dir_start_cluster = le32_at mem (buf + 44);
  fs_info_sector = le16_at mem (buf + 48);
  alt_boot_sector = le16_at mem (buf + 50);
  physical_drive_num = mem (buf + 64);
  extended_boot_sig = mem (buf + 66);
  volume_id = le32_at mem (buf + 67);
  volume_label = load_bytes mem (buf + 71) 11;
  fs_type = load_bytes mem (buf + 82) 8;
}

-- `struct fat_volume_s`, without the tree of files, with the table that it points to. `fat_map_address` is
-- `table->fat_map`; the field `fat_map` of the table is what the map holds.
pub record FatVolume : Type 0 where
  pub table : FatTable
  pub fat_map_address : ℕ
  pub fd : ℕ
  pub mount_flags : ℕ
  pub max_allocated_files : ℕ
  pub oem_name : List ℕ
  pub bytes_per_sector : ℕ
  pub sector_order : ℕ
  pub sectors_per_cluster : ℕ
  pub sectors_per_cluster_order : ℕ
  pub reserved_sectors : ℕ
  pub num_tables : ℕ
  pub max_root_entries : ℕ
  pub media_descriptor : ℕ
  pub total_sectors : ℕ
  pub sectors_per_fat : ℕ
  pub sectors_per_track : ℕ
  pub num_heads : ℕ
  pub hidden_sectors : ℕ
  pub drive_description : ℕ
  pub version : ℕ
  pub root_dir_start_cluster : ℕ
  pub fs_info_sector : ℕ
  pub alt_boot_sector : ℕ
  pub physical_drive_num : ℕ
  pub extended_boot_sig : ℕ
  pub volume_id : ℕ
  pub volume_label : List ℕ
  pub fs_type : List ℕ

-- A volume is read, refused with EINVAL, or an assertion of bsr stops the program.
pub data Parsed : Type 0 where
  accepted : FatVolume → Parsed
  refused aborted : Parsed

abbrev pub and_read : Parsed → (FatVolume → Parsed) → Parsed
and_read (accepted vol) k = k vol
and_read refused k = refused
and_read aborted k = aborted

-- The text up to the first zero.
unfoldable pub c_string : List ℕ → List ℕ
c_string [] = []
c_string (c ∷ cs) = let rest = c_string cs in if c == 0 then [] else c ∷ rest

-- After the test of the sectors per cluster.
unfoldable pub read_counts : FatBootSector → FatVolume → Parsed
read_counts boot_sec vol =
    if not (boot_sec.num_tables == 1) && not (boot_sec.num_tables == 2)
    then refused
    else accepted (record vol {
      reserved_sectors = boot_sec.reserved_sectors;
      num_tables = boot_sec.num_tables;
      max_root_entries = boot_sec.max_root_entries;
      total_sectors = boot_sec.total_sectors;
      media_descriptor = boot_sec.media_descriptor;
      sectors_per_fat = boot_sec.sectors_per_fat;
    })

-- With the order of the sectors per cluster.
unfoldable pub read_cluster_order : FatBootSector → FatVolume → Option ℕ → Parsed
read_cluster_order boot_sec vol none = aborted
read_cluster_order boot_sec vol (some order) =
    if not (is_power_of_2 boot_sec.sectors_per_cluster) || ltb 7 order
    then refused
    else read_counts boot_sec (record vol {
      sectors_per_cluster = boot_sec.sectors_per_cluster;
      sectors_per_cluster_order = order;
      table = record (vol.table) { cluster_order = vol.sector_order + order };
    })

-- With the order of the bytes per sector.
unfoldable pub read_sector_order : FatBootSector → FatVolume → Option ℕ → Parsed
read_sector_order boot_sec vol none = aborted
read_sector_order boot_sec vol (some order) =
    if not (is_power_of_2 boot_sec.bytes_per_sector) || (ltb order 5 || ltb 12 order)
    then refused
    else read_cluster_order boot_sec
        (record vol { bytes_per_sector = boot_sec.bytes_per_sector; sector_order = order })
        (bsr boot_sec.sectors_per_cluster)

unfoldable pub read_dos_2_0_bpb : FatBootSector → FatVolume → Parsed
read_dos_2_0_bpb boot_sec vol = read_sector_order boot_sec vol (bsr boot_sec.bytes_per_sector)

unfoldable pub read_dos_3_31_bpb : FatBootSector → FatVolume → Parsed
read_dos_3_31_bpb boot_sec vol = accepted (record vol {
  sectors_per_track = boot_sec.sectors_per_track;
  num_heads = boot_sec.num_heads;
  hidden_sectors = boot_sec.hidden_sectors;
})

unfoldable pub read_nonfat32_ebpb : FatBootSector → FatVolume → Parsed
read_nonfat32_ebpb ebpb vol = accepted (record vol {
  physical_drive_num = ebpb.physical_drive_num;
  extended_boot_sig = ebpb.extended_boot_sig;
  volume_id = ebpb.volume_id;
  volume_label = remove_trailing_spaces (c_string ebpb.volume_label);
  fs_type = remove_trailing_spaces (c_string ebpb.fs_type);
})

-- The number of sectors per FAT; the shifts are those of a `size_t`.
unfoldable pub read_sectors_per_fat : FatBootSector → FatVolume → Parsed
read_sectors_per_fat ebpb vol =
    let n = ebpb.sectors_per_fat_32 in
    if n == 0
    then accepted vol
    else if not (n * 2 ^ vol.sector_order % 2 ^ 64 / 2 ^ vol.sector_order == n)
    then refused
    else accepted (record vol { sectors_per_fat = n })

unfoldable pub read_fs_info : FatBootSector → FatVolume → Parsed
read_fs_info ebpb vol =
    let sector = if ebpb.fs_info_sector == 0xFFFF then 0 else ebpb.fs_info_sector in
    if not (sector == 0) && ltb vol.sector_order 9
    then refused
    else accepted (record vol { fs_info_sector = sector; alt_boot_sector = ebpb.alt_boot_sector })

unfoldable pub read_root : FatBootSector → FatVolume → Parsed
read_root ebpb vol =
    if not (ebpb.version == 0)
    then refused
    else if ebpb.root_dir_start_cluster == 0
    then refused
    else read_fs_info ebpb (record vol {
      drive_description = ebpb.drive_description;
      version = ebpb.version;
      root_dir_start_cluster = ebpb.root_dir_start_cluster;
    })

unfoldable pub read_fat32_ebpb : FatBootSector → FatVolume → Parsed
read_fat32_ebpb ebpb vol = and_read (read_sectors_per_fat ebpb vol) (read_root ebpb)

-- The `u32` of the sectors behind the reserved ones.
unfoldable pub num_data_sectors : FatVolume → ℕ
num_data_sectors vol =
    (vol.total_sectors
      + 2 * 2 ^ 32
      - vol.reserved_sectors
      - vol.max_root_entries * 32 / 2 ^ vol.sector_order)
    % 2 ^ 32

unfoldable pub count_clusters : FatVolume → FatVolume
count_clusters vol = record vol {
  table = record (vol.table) {
    num_data_clusters = num_data_sectors vol / 2 ^ vol.sectors_per_cluster_order;
  };
}

-- read_boot_sector behind its read.
unfoldable pub read_fields : FatBootSector → FatVolume → Parsed
read_fields boot_sec vol =
    and_read
      (read_dos_2_0_bpb boot_sec
        (record vol { oem_name = remove_trailing_spaces (c_string boot_sec.oem_name) }))
      (λ v2. and_read (read_dos_3_31_bpb boot_sec v2) (λ v3.
        and_read (read_fat32_ebpb boot_sec v3)
          (λ v32. and_read (read_nonfat32_ebpb boot_sec v32) (λ v. accepted (count_clusters v)))))

-- open of the volume's path for reading or for both, close, mmap of a length at an offset of the descriptor (the
-- address and the bytes there), munmap, and sysconf(_SC_PAGESIZE) as 64 bits.
pub record Mounting (D : Type 0) : Type 0 where
  pub open_volume : D → (writable : Bool) → D × Io ℕ
  pub close : D → (fd : ℕ) → D × Io ℕ
  pub mmap : D → (length : ℕ) → (writable : Bool) → (fd offset : ℕ) → D × Io (ℕ × List ℕ)
  pub munmap : D → (address length : ℕ) → D × Io ℕ
  pub page_size : ℕ

-- mount_flags & FAT_MOUNT_FLAG_READWRITE
abbrev pub is_writable : ℕ → Bool
is_writable mount_flags = mount_flags / 2 % 2 == 1

-- The entries that bytes are read as.
unfoldable pub entries : List ℕ → List ℕ
entries (a ∷ b ∷ c ∷ d ∷ rest) = (a + 256 * b + 2 ^ 16 * (c + 256 * d)) ∷ entries rest
entries _ = []

abbrev pub fat_offset_of : FatVolume → ℕ
fat_offset_of vol = vol.reserved_sectors * 2 ^ vol.sector_order

abbrev pub fat_size_bytes : FatVolume → ℕ
fat_size_bytes vol = vol.sectors_per_fat * 2 ^ vol.sector_order % 2 ^ 64

unfoldable pub fat_aligned_offset : (page_size : ℕ) → FatVolume → ℕ
fat_aligned_offset page_size vol = bit_and 64 (fat_offset_of vol) (complement (page_size - 1))

unfoldable pub fat_aligned_size_bytes : (page_size : ℕ) → FatVolume → ℕ
fat_aligned_size_bytes page_size vol =
    (fat_size_bytes vol + (fat_offset_of vol - fat_aligned_offset page_size vol)) % 2 ^ 64

abbrev pub is_page_size : ℕ → Bool
is_page_size n = not ((n == 0) || (leb (2 ^ 63) n || (not (is_power_of_2 n) || ltb (2 ^ 31) n)))

unfoldable pub data_start : FatVolume → ℕ
data_start vol =
    (vol.num_tables * vol.sectors_per_fat
      + vol.reserved_sectors
      + vol.max_root_entries / 2 ^ (vol.sector_order - 5))
    % 2 ^ 32
    * 2 ^ vol.sector_order

-- The volume with a map at `ptr` that holds the bytes.
unfoldable pub with_map : (page_size ptr : ℕ) → List ℕ → FatVolume → FatVolume
with_map page_size ptr bytes vol =
    let before = fat_offset_of vol - fat_aligned_offset page_size vol in
    record vol {
      fat_map_address = ptr + before;
      table = record (vol.table) {
        fat_map = entries (drop before bytes);
        fat_offset = fat_offset_of vol;
      };
    }

module _ {D : Type 0} where
  -- After mmap; none for -1.
  unfoldable pub mapped :
      (page_size : ℕ) → FatVolume → D × Io (ℕ × List ℕ) → Cmd D (Option FatVolume)
  mapped page_size vol (d, failed e) v = ok none (record v { disk = d; errno = e })
  mapped page_size vol (d, done (ptr, bytes)) v =
      ok (some (with_map page_size ptr bytes vol)) (record v { disk = d })

  unfoldable pub map_fat : Mounting D → FatVolume → (fd mount_flags : ℕ) → Cmd D (Option FatVolume)
  map_fat sys vol fd mount_flags v =
      if not (is_page_size sys.page_size)
      then ok none (record v { errno = einval })
      else if ltb (fat_aligned_size_bytes sys.page_size vol) (fat_size_bytes vol)
      then ok none (record v { errno = einval })
      else mapped sys.page_size vol
          (sys.mmap v.disk (fat_aligned_size_bytes sys.page_size vol) (is_writable mount_flags) fd
            (fat_aligned_offset sys.page_size vol))
          v

  unfoldable pub parsed : Parsed → Cmd D (Option FatVolume)
  parsed (accepted vol) v = ok (some vol) v
  parsed refused v = ok none (record v { errno = einval })
  parsed aborted v = fault

  -- `buf` is the array on the stack.
  unfoldable pub read_boot_sector : Device D → (fuel buf : ℕ) → FatVolume → Cmd D (Option FatVolume)
  read_boot_sector dev fuel buf vol = full_pread dev fuel buf 128 0 >>= λ n.
      if not (n == 128)
      then pure none
      else (λ v. parsed (read_fields (boot_sector_at v.mem buf) vol) v)

  -- close, whose result is not looked at, and NULL.
  abbrev pub given_up : Mounting D → (fd : ℕ) → Cmd D (Option FatVolume)
  given_up sys fd v = ok none (record v { disk = (sys.close v.disk fd).0 })

  unfoldable pub finish_mount :
      Mounting D → (fd mount_flags : ℕ) → Option FatVolume → Cmd D (Option FatVolume)
  finish_mount sys fd mount_flags none = given_up sys fd
  finish_mount sys fd mount_flags (some vol) = pure (
      some (record vol {
        fd = fd;
        mount_flags = mount_flags;
        max_allocated_files = 100;
        table = record (vol.table) { data_start_offset = data_start vol };
      }))

  unfoldable pub map_or_close :
      Mounting D → (fd mount_flags : ℕ) → Option FatVolume → Cmd D (Option FatVolume)
  map_or_close sys fd mount_flags none = given_up sys fd
  map_or_close sys fd mount_flags (some vol) =
      map_fat sys vol fd mount_flags >>= finish_mount sys fd mount_flags

  unfoldable pub mount_opened :
      Device D
      → Mounting D
      → (fuel buf mount_flags : ℕ) → FatVolume
      → D × Io ℕ
      → Cmd D (Option FatVolume)
  mount_opened dev sys fuel buf mount_flags zeroed (d, failed e) v =
      ok none (record v { disk = d; errno = e })
  mount_opened dev sys fuel buf mount_flags zeroed (d, done fd) v =
      (read_boot_sector dev fuel buf zeroed >>= map_or_close sys fd mount_flags)
        (record v { disk = d })

  -- `zeroed` is what calloc gives; it does not fail. The result is none for NULL.
  unfoldable pub fat_volume_mount :
      Device D → Mounting D → (fuel buf mount_flags : ℕ) → FatVolume → Cmd D (Option FatVolume)
  fat_volume_mount dev sys fuel buf mount_flags zeroed v =
      mount_opened dev sys fuel buf mount_flags zeroed
        (sys.open_volume v.disk (is_writable mount_flags)) v

  -- The calls of the operating system; the result is that of close.
  unfoldable pub fat_volume_unmount : Mounting D → FatVolume → D → D × Io ℕ
  fat_volume_unmount sys vol d =
      let (e, r) = sys.close d vol.fd in
      ((sys.munmap e vol.fat_map_address (fat_size_bytes vol)).0, r)
