-- ===== src/Fat/Tests.antt =====
-- A volume in memory that meets the hypotheses of the theorems on the file system.
use famaf_unc.Fat.Directory.{blank_dentry}
use famaf_unc.Fat.Util.Write.{length-load_bytes, get_or-load_bytes}
use famaf_unc.Fat.Table.Chain.{Follows}
use famaf_unc.Fat.Table.{end_of_chain_max, get_next_cluster, cluster_is_valid}
use famaf_unc.Fat.File.Free.{WritesSomething}
use famaf_unc.Fat.Util.{load_bytes, get_or, store_bytes}
use famaf_unc.Fat.Util.Posix.{IsVolume}
use famaf_unc.Fat.Dentry.{FatFile}
mod Tables
mod Files
mod Writing
mod Faults
mod Trees
mod Mounts
mod Operations
mod Unlisted
mod Descriptors
mod Listing
use famaf_unc.Base.{
  ℕ, zero, suc, ◌+◌, ◌-◌, ◌≤◌, ◌<◌, ◌≡◌, refl, ◌&&◌, true, false, List, [], ◌∷◌, arith, ltb, leb,
  if◌then◌else◌, length,
}
use famaf_unc.Fat.Device.{Device, FatTable, Volume, Tm, done, Io, failed}

abbrev Disk : Type 0
Disk = ℕ → ℕ

abbrev new_year : Tm
new_year = record { sec = 31; minute = 59; hour = 23; mday = 1; mon = 0; year = 125 }

abbrev mem_device : Device Disk
mem_device = record {
  pread = λ d count offset. (d, done (load_bytes d offset count));
  pwrite = λ d bs offset. (store_bytes d offset bs, done (length bs));
  time = λ d. (d, 0);
  gmtime_r = λ t. new_year;
  mktime = λ t. 0;
  basename = λ p. p;
}

pub get_or-default : (bs : List ℕ) (i x y : ℕ) → i < length bs → get_or bs i x ≡ get_or bs i y
get_or-default [] i x y h = elim h [ ]
get_or-default (b ∷ bs) zero x y h = refl
get_or-default (b ∷ bs) (suc i) x y h = get_or-default bs i x y (omega arith)

abbrev Quiet : Disk → Type 0
Quiet d = Unit {0}

mem_device-IsVolume : (size : ℕ) → IsVolume mem_device (λ d i. d i) size Quiet
mem_device-IsVolume size = record {
  reads = λ d count offset calm some' fits. (
    load_bytes d offset count,
    refl,
    omega (arith, length-load_bytes d offset count),
    omega (arith, length-load_bytes d offset count),
    λ i x h. get_or-load_bytes d offset count i x (omega (arith, length-load_bytes d offset count)),
  );
  read_keeps = λ d count offset i. refl;
  read_calm = λ d count offset c. c;
  writes = λ d bs offset calm some' fits. (
    length bs,
    refl,
    some',
    omega arith,
    λ i. ground (arith, get_or-default bs (i - offset) (d i) 0),
  );
  write_calm = λ d bs offset c. c;
}

-- Eight entries: the chain 2, 3, 4, then two free clusters, and the root directory at 7.
abbrev table : FatTable
table = record {
  fat_map =
      end_of_chain_max ∷ end_of_chain_max ∷ 3 ∷ 4 ∷ end_of_chain_max ∷ 0 ∷ 0 ∷ end_of_chain_max
      ∷ [];
  fat_offset = 512;
  num_data_clusters = 6;
  data_start_offset = 1024;
  cluster_order = 6;
}

abbrev volume : Volume Disk
volume = record { table = table; disk = λ i. i; errno = 0; mem = λ a. 0 }

abbrev file : FatFile
file = record {
  dentry = record blank_dentry { file_size = 150; attribs = 0x20 };
  name = b'a' ∷ [];
  filepath = b'/' ∷ b'a' ∷ [];
  start_cluster = 2;
  nentries = 0;
  pos_in_parent = 1;
  num_times_opened = 0;
  children_read = false;
}

abbrev root : FatFile
root = record file { start_cluster = 7; filepath = b'/' ∷ []; nentries = 2; children_read = true }

abbrev chain : List ℕ
chain = 3 ∷ 4 ∷ []

table-Follows : Follows table 2 chain
unfolding get_next_cluster cluster_is_valid
table-Follows = (refl, refl, (refl, refl, refl))

table-two_valid : cluster_is_valid 2 ≡ true
unfolding cluster_is_valid
table-two_valid = refl

mem_device-WritesSomething : WritesSomething mem_device
mem_device-WritesSomething d [] offset h = elim h [ ]
mem_device-WritesSomething d (b ∷ bs) offset h = (length bs, refl)
