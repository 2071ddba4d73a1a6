-- ===== src/Fat/BigBrother.antt =====
-- big_brother.c: the search for the hidden directory with the log, which a bad sector marks.
use famaf_unc.Fat.Table.{get_next_cluster, cluster_is_bad_sector}
use famaf_unc.Fat.File.{on_table}
use famaf_unc.Fat.Directory.{init_orphan_dir, read_children}
use famaf_unc.Fat.Dentry.{FatDirEntry, FatFile}
pub mod Search
use famaf_unc.Base.{
  ℕ, zero, suc, ◌+◌, ◌-◌, Bool, true, false, not, ◌||◌, ◌&&◌, List, [], ◌∷◌, Option, none, some,
  ◌==◌, if◌then◌else◌,
}
use famaf_unc.Fat.Device.{Device, Volume, Cmd, pure, ◌>>=◌, ok, out_of_fuel}

-- strncmp(prefix, name, length of prefix) == 0, for a text without zeros.
abbrev pub begins_with : List ℕ → List ℕ → Bool
begins_with [] name = true
begins_with (c ∷ cs) [] = false
begins_with (c ∷ cs) (d ∷ ds) = c == d && begins_with cs ds

-- LOG_FILE_BASENAME is "fs" and LOG_FILE_EXTENSION "log".
unfoldable pub is_log_file_dentry : FatDirEntry → Bool
is_log_file_dentry e =
    begins_with (b'f' ∷ b's' ∷ []) e.base_name && begins_with (b'l' ∷ b'o' ∷ b'g' ∷ []) e.extension

abbrev pub any_log_file : List FatFile → Bool
any_log_file [] = false
any_log_file (f ∷ fs) = is_log_file_dentry f.dentry || any_log_file fs

-- ".bb_orphan"
abbrev pub orphan_name : List ℕ
orphan_name = b'.' ∷ b'b' ∷ b'b' ∷ b'_' ∷ b'o' ∷ b'r' ∷ b'p' ∷ b'h' ∷ b'a' ∷ b'n' ∷ []

-- A NULL list is the empty list.
abbrev pub children_or_none : Option (List FatFile) → List FatFile
children_or_none none = []
children_or_none (some fs) = fs

unfoldable pub verify_orphan_directory : {D : Type 0} → Device D → ℕ → (buf : ℕ) → ℕ → Cmd D Bool
verify_orphan_directory dev fuel buf cluster = do
  tmp_dir ← init_orphan_dir dev orphan_name cluster
  (_, children) ← read_children dev fuel buf tmp_dir
  pure (any_log_file (children_or_none children))

-- BAD_CLUSTER
abbrev pub no_cluster : ℕ
no_cluster = 0

-- The loop from cluster `curr`, with `left` clusters below 10000.
unfoldable pub search_loop : {D : Type 0} → Device D → ℕ → (buf left curr : ℕ) → Cmd D ℕ
search_loop dev fuel buf zero curr = pure no_cluster
search_loop dev fuel buf (suc left) curr = do
  next ← on_table λ t. get_next_cluster t curr
  if cluster_is_bad_sector next
      then (do
        found ← verify_orphan_directory dev fuel buf curr
        if found then pure curr else search_loop dev fuel buf left (curr + 1))
      else search_loop dev fuel buf left (curr + 1)

-- `root` is `root_dir_start_cluster`.
unfoldable pub search_bb_orphan_dir_cluster : {D : Type 0} → Device D → ℕ → (buf root : ℕ) → Cmd D ℕ
search_bb_orphan_dir_cluster dev fuel buf root = search_loop dev fuel buf (10000 - root) root
