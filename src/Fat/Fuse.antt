-- ===== src/Fat/Fuse.antt =====
-- fat_fuse_ops.c: the operations that FUSE calls. The state joins the volume, the nodes of the tree and the files in
-- memory. This file holds that state and its commands, the children the operations.
pub mod Log
pub mod Load
pub mod Start
pub mod Attributes
pub mod Handles
pub mod Transfer
pub mod Create
pub mod Change
pub mod Remove
pub mod Found
pub mod Opened
pub mod Removed
pub mod Unlisted
pub mod Linked
pub mod Created
pub mod Overflow
pub mod Listed
use famaf_unc.Base.{
  ℕ, zero, suc, ◌+◌, Bool, List, Option, none, some, ◌==◌, if◌then◌else◌, updated, ◌≡◌, ap, ◌∙◌,
}
use famaf_unc.Fat.Device
use famaf_unc.Fat.NodeStore
use famaf_unc.Fat.Device.{Device, Volume}
use famaf_unc.Fat.NodeStore.{Store}
use famaf_unc.Fat.Dentry.{FatFile}
use famaf_unc.Fat.Hierarchy.{null}
use famaf_unc.Fat.FileTree.{Files, FatTree, fat_tree_node_search, fat_tree_get_file}

-- What an operation is called with besides its arguments: the device, the fuel of each loop, the address of a buffer
-- of the directory reader (alloca) and of the buffer of the log line, both outside of what the caller passes,
-- `strftime` of `localtime` for the log, the name that getpwuid gives, and `dirname` of libgen.h.
pub record System (D : Type 0) : Type 0 where
  pub device : Device D
  pub fuel : ℕ
  pub dir_buf : ℕ
  pub log_buf : ℕ
  pub date_text : ℕ → List ℕ
  pub pw_name : Option (List ℕ)
  pub dirname : List ℕ → List ℕ

-- The volume that get_fat_volume gives, and what it points to. `next_file` is the address of the next `struct
-- fat_file_s`; malloc does not fail.
pub record Fuse (D : Type 0) : Type 0 where
  pub volume : Volume D
  pub store : Store
  pub files : ℕ → FatFile
  pub next_file : ℕ
  pub file_tree : FatTree
  pub root_dir_start_cluster : ℕ

-- The int that an operation returns.
pub data ℤ : Type 0 where
  pos : ℕ → ℤ
  negsuc : ℕ → ℤ

abbrev pub minus : ℕ → ℤ
minus zero = pos zero
minus (suc n) = negsuc n

-- A run ends with a value and a state, reads or writes outside of an object, or runs out of fuel.
pub data Run (D A : Type 0) : Type 0 where
  ok : A → Fuse D → Run D A
  fault : Run D A
  out_of_fuel : Run D A

abbrev pub Cmd : Type 0 → Type 0 → Type 0
Cmd D A = Fuse D → Run D A

module _ {D A : Type 0} where
  abbrev pub pure : A → Cmd D A
  pure = ok

  abbrev pub and_then : {B : Type 0} → Run D A → (A → Cmd D B) → Run D B
  and_then (ok a s) k = k a s
  and_then fault k = fault
  and_then out_of_fuel k = out_of_fuel

  abbrev pub from_volume : Fuse D → Device.Run D A → Run D A
  from_volume s (Device.Run.ok a v) = ok a (record s { volume = v })
  from_volume s Device.Run.fault = fault
  from_volume s Device.Run.out_of_fuel = out_of_fuel

  -- A command of the volume.
  abbrev pub on_volume : Device.Cmd D A → Cmd D A
  on_volume c s = from_volume s (c s.volume)

  abbrev pub from_store : Fuse D → NodeStore.Run A → Run D A
  from_store s (NodeStore.Run.ok a w) = ok a (record s { store = w })
  from_store s NodeStore.Run.fault = fault
  from_store s NodeStore.Run.out_of_fuel = out_of_fuel

  -- A command of the tree.
  abbrev pub on_store : NodeStore.Cmd A → Cmd D A
  on_store c s = from_store s (c s.store)

-- A run whose first part is known.
pub and_then-ok :
    {D A B : Type 0} {r : Run D A} {a : A} {w : Fuse D} {z : Run D B} (k : A → Cmd D B)
    → r ≡ ok a w
    → k a w ≡ z
    → and_then r k ≡ z
and_then-ok k e h = ap (λ x. and_then x k) e ∙ h

pub and_then-fault :
    {D A B : Type 0} {r : Run D A} (k : A → Cmd D B) → r ≡ fault → and_then r k ≡ fault
and_then-fault k e = ap (λ x. and_then x k) e

module _ {D A B : Type 0} where
  infixl 5 ◌>>=◌ ◌>>◌
  abbrev pub ◌>>=◌ : Cmd D A → (A → Cmd D B) → Cmd D B
  m >>= k = λ s. and_then (m s) k

  abbrev pub ◌>>◌ : Cmd D A → Cmd D B → Cmd D B
  m >> k = m >>= λ _. k

-- The only key of a call is the path that it is given, at this address.
abbrev pub path_key : ℕ
path_key = 1

module _ {D : Type 0} where
  abbrev pub get_errno : Cmd D ℕ
  get_errno s = ok s.volume.errno s

  abbrev pub set_errno : ℕ → Cmd D (Unit {0})
  set_errno e s = ok tt (record s { volume = record s.volume { errno = e } })

  -- `errno = e; return -errno;`
  abbrev pub fail_with : ℕ → Cmd D ℤ
  fail_with e = do set_errno e; pure (minus e)

  -- `return -errno;`
  abbrev pub return_errno : Cmd D ℤ
  return_errno s = ok (minus s.volume.errno) s

  -- A read of the file behind a pointer, which faults for NULL.
  unfoldable pub file_at : ℕ → Cmd D FatFile
  file_at p s = if p == null then fault else ok (s.files p) s

  abbrev pub put_file : ℕ → FatFile → Cmd D (Unit {0})
  put_file p file s = ok tt (record s { files = updated s.files p file })

  -- A file that a function of fat_file.c has allocated.
  unfoldable pub new_file : FatFile → Cmd D ℕ
  new_file file s =
      ok s.next_file
        (record s { files = updated s.files s.next_file file; next_file = s.next_file + 1 })

  abbrev pub get_tree : Cmd D FatTree
  get_tree s = ok s.file_tree s

  abbrev pub set_tree : FatTree → Cmd D (Unit {0})
  set_tree tree s = ok tt (record s { file_tree = tree })

  abbrev pub with_path : Fuse D → List ℕ → Files
  with_path s path = record { files = s.files; text = λ k. path }

  -- fat_tree_node_search(vol->file_tree, path), which goes through `file_tree`.
  unfoldable pub node_search : System D → (path : List ℕ) → Cmd D ℕ
  node_search sys path s = elim s.file_tree [
    | none ↦ fault
    | some root ↦ on_store (fat_tree_node_search (with_path s path) sys.fuel root path_key) s
  ]

  -- fat_tree_get_file(node) and a read of that file.
  unfoldable pub file_of : ℕ → Cmd D (ℕ × FatFile)
  file_of node = do p ← on_store (fat_tree_get_file node); file ← file_at p; pure (p, file)
