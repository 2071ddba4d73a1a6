-- ===== src/Fat/Table.antt =====
-- fat_table.c: the FAT and the chains of clusters that it links.
pub mod Chain
pub mod Distinct
pub mod Alloc
pub mod Sizes
pub mod Entries
use famaf_unc.Base.{
  ℕ, zero, suc, ◌+◌, ◌-◌, ◌*◌, ◌/◌, ◌%◌, ◌^◌, min, Bool, not, ◌&&◌, Option, none, some, List, [],
  ◌∷◌, ltb, leb, ◌==◌, if◌then◌else◌, ◌>>=?◌, get_elem?, set, drop, length,
}
use famaf_unc.Fat.Device.{Device, FatTable, ok, fault, Cmd, Io, done, failed}

-- FAT_CLUSTER_END_OF_CHAIN_MIN, FAT_CLUSTER_END_OF_CHAIN_MAX, FAT_CLUSTER_FREE,
-- FAT_CLUSTER_BAD_SECTOR
abbrev pub end_of_chain_min : ℕ
end_of_chain_min = 0x0FFFFFF8

abbrev pub end_of_chain_max : ℕ
end_of_chain_max = 0x0FFFFFFF

abbrev pub cluster_free : ℕ
cluster_free = 0

abbrev pub bad_sector : ℕ
bad_sector = 0x0FFFFFF7

-- The sum is a `u32`.
unfoldable pub is_valid_cluster_number : FatTable → ℕ → Bool
is_valid_cluster_number t cluster =
    leb 1 cluster && ltb cluster ((t.num_data_clusters + 2) % 2 ^ 32)

-- A read of the map at `cluster`; `none` is a read outside the map.
abbrev pub entry : FatTable → ℕ → Option ℕ
entry t cluster = get_elem? t.fat_map cluster

-- `if◌then◌else◌` on an entry read.
unfoldable pub end_unless_valid : FatTable → ℕ → ℕ
unfolding is_valid_cluster_number
end_unless_valid t next = if is_valid_cluster_number t next then next else end_of_chain_max

unfoldable pub get_next_cluster : FatTable → ℕ → Option ℕ
unfolding end_unless_valid
get_next_cluster t cur = entry t cur >>=? λ next. some (end_unless_valid t next)

abbrev pub bytes_per_cluster : FatTable → ℕ
bytes_per_cluster t = 2 ^ t.cluster_order

-- `offset & (bytes_per_cluster - 1)`, for a power of two.
abbrev pub mask_offset : ℕ → FatTable → ℕ
mask_offset offset t = offset % bytes_per_cluster t

unfoldable pub get_cluster_remaining_bytes : FatTable → ℕ → ℕ → ℕ
get_cluster_remaining_bytes t bytes_remaining offset =
    min (bytes_per_cluster t - mask_offset offset t) bytes_remaining

-- `>> cluster_order`, and the conversion to the `u32` that is returned.
unfoldable pub get_clusters_for_size : FatTable → ℕ → ℕ
get_clusters_for_size t file_size =
    ((file_size + (bytes_per_cluster t - 1)) / bytes_per_cluster t) % 2 ^ 32

-- The loop from entry `i`, where `es` is the rest of the map; past its end the read faults.
unfoldable pub first_free : ℕ → List ℕ → Option ℕ
first_free i [] = none
first_free i (e ∷ es) = if e == cluster_free then some i else first_free (i + 1) es

unfoldable pub get_next_free_cluster : FatTable → Option ℕ
unfolding first_free end_unless_valid
get_next_free_cluster t = first_free 2 (drop 2 t.fat_map) >>=? λ c. some (end_unless_valid t c)

-- `cluster - 2` is a `u32`.
unfoldable pub cluster_offset : FatTable → ℕ → ℕ
cluster_offset t cluster =
    t.data_start_offset + ((cluster + 2 ^ 32 - 2) % 2 ^ 32) * 2 ^ t.cluster_order

unfoldable pub is_cluster_used : FatTable → ℕ → Option Bool
is_cluster_used t cluster = entry t cluster >>=? λ e. some (not (e == cluster_free))

unfoldable pub seek_loop : ℕ → FatTable → ℕ → Option ℕ
seek_loop zero t cluster = some cluster
seek_loop (suc n) t cluster =
    if cluster == end_of_chain_max
    then some 0
    else get_next_cluster t cluster >>=? λ next. seek_loop n t next

-- `positions_to_move` is a `u32`.
unfoldable pub seek_cluster : FatTable → ℕ → ℕ → Option ℕ
unfolding seek_loop
seek_cluster t start offset = seek_loop (offset / 2 ^ t.cluster_order % 2 ^ 32) t start

unfoldable pub cluster_is_eoc : ℕ → Bool
cluster_is_eoc cluster = leb end_of_chain_min cluster && leb cluster end_of_chain_max

unfoldable pub cluster_is_bad_sector : ℕ → Bool
cluster_is_bad_sector cluster = cluster == bad_sector

unfoldable pub cluster_is_valid : ℕ → Bool
unfolding cluster_is_eoc cluster_is_bad_sector
cluster_is_valid cluster = not (cluster_is_eoc cluster) && not (cluster_is_bad_sector cluster)

-- The four bytes of a little-endian `u32`.
abbrev pub le32_bytes : ℕ → List ℕ
le32_bytes n = n % 256 ∷ n / 256 % 256 ∷ n / 65536 % 256 ∷ n / 16777216 % 256 ∷ []

-- The int that a function of the table returns: 0, or -1.
pub data Status : Type 0 where
  success failure : Status

-- The table with the entry of `cluster` overwritten.
abbrev pub with_entry : FatTable → ℕ → ℕ → FatTable
with_entry t cluster next = record t { fat_map = set t.fat_map cluster next }

-- The in-memory write; outside the map it faults.
unfoldable pub set_entry : {D : Type 0} → ℕ → ℕ → Cmd D Status
set_entry cur next v =
    if ltb cur (length v.table.fat_map)
    then ok success (record v { table = with_entry v.table cur next })
    else fault

-- After the call of `pwrite`: the map is changed only if something was written.
unfoldable pub after_entry_write : {D : Type 0} → ℕ → ℕ → Io ℕ → Cmd D Status
unfolding set_entry
after_entry_write cur next (failed e) v = ok failure (record v { errno = e })
after_entry_write cur next (done zero) v = ok failure v
after_entry_write cur next (done (suc n)) v = set_entry cur next v

-- `cur_cluster * 4` is a `u32`.
unfoldable pub set_next_cluster : {D : Type 0} → Device D → ℕ → ℕ → Cmd D Status
unfolding after_entry_write
set_next_cluster dev cur next v =
    let (disk', r) =
      dev.pwrite v.disk (le32_bytes next) ((cur * 4) % 2 ^ 32 + v.table.fat_offset) in
    after_entry_write cur next r (record v { disk = disk' })
