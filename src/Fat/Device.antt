-- ===== src/Fat/Device.antt =====
-- What the file system is given by the operating system, and the state its functions share.
-- `pread` and `pwrite` on the volume's descriptor are parameters: the state of the outside world
-- is an abstract type `D`, and so are the clock and the calendar. A volume is its FAT table, the
-- outside world, `errno`, and the memory that `buf` pointers point into.
use famaf_unc.Base.{ℕ, List, Option, none, some}

-- The result of a system call: a value, or -1 with the value of `errno`.
pub data Io {ℓ} (A : Type ℓ) : Type ℓ where
  done : A → Io A
  failed : ℕ → Io A

-- `struct tm`, as far as it is used; `year` counts from 1900 and `mon` from 0.
pub record Tm : Type 0 where
  pub sec : ℕ
  pub minute : ℕ
  pub hour : ℕ
  pub mday : ℕ
  pub mon : ℕ
  pub year : ℕ

-- `pread d count offset`, `pwrite d bytes offset`, `time(NULL)`, `gmtime_r`, `mktime`, and
-- `basename` of libgen.h.
pub record Device (D : Type 0) : Type 0 where
  pub pread : D → ℕ → ℕ → D × Io (List ℕ)
  pub pwrite : D → List ℕ → ℕ → D × Io ℕ
  pub time : D → D × ℕ
  pub gmtime_r : ℕ → Tm
  pub mktime : Tm → ℕ
  pub basename : List ℕ → List ℕ

-- `struct fat_table_s`, without the descriptor.
pub record FatTable : Type 0 where
  pub fat_map : List ℕ
  pub fat_offset : ℕ
  pub num_data_clusters : ℕ
  pub data_start_offset : ℕ
  pub cluster_order : ℕ

pub record Volume (D : Type 0) : Type 0 where
  pub table : FatTable
  pub disk : D
  pub errno : ℕ
  pub mem : ℕ → ℕ

-- The values of `errno` that the functions test or set.
abbrev pub eintr : ℕ
eintr = 4

abbrev pub eio : ℕ
eio = 5

abbrev pub einval : ℕ
einval = 22

abbrev pub enospc : ℕ
enospc = 28

abbrev pub eoverflow : ℕ
eoverflow = 75

-- A run ends with a value and a volume, reads or writes outside an array, or runs out of fuel.
pub data Run (D A : Type 0) : Type 0 where
  ok : A → Volume D → Run D A
  fault : Run D A
  out_of_fuel : Run D A

abbrev pub Cmd : Type 0 → Type 0 → Type 0
Cmd D A = Volume D → Run D A

module _ {D A : Type 0} where
  abbrev pub pure : A → Cmd D A
  pure = ok

  -- A read of the in-memory table, which faults outside of the map.
  abbrev pub lift : Option A → Cmd D A
  lift none v = fault
  lift (some a) v = ok a v

  abbrev pub and_then : {B : Type 0} → Run D A → (A → Cmd D B) → Run D B
  and_then (ok a v) k = k a v
  and_then fault k = fault
  and_then out_of_fuel k = out_of_fuel

module _ {D A B : Type 0} where
  infixl 5 ◌>>=◌ ◌>>◌
  abbrev pub ◌>>=◌ : Cmd D A → (A → Cmd D B) → Cmd D B
  m >>= k = λ v. and_then (m v) k

  abbrev pub ◌>>◌ : Cmd D A → Cmd D B → Cmd D B
  m >> k = m >>= λ _. k
