-- ===== src/Fat/Fuse/Change.antt =====
-- fat_fuse_utime and fat_fuse_truncate.
use famaf_unc.Fat.Dentry.{is_directory, fat_utime}
use famaf_unc.Fat.File.{truncate}
use famaf_unc.Fat.Hierarchy.{null}
use famaf_unc.Fat.FileTree.{fat_tree_get_parent}
use famaf_unc.Fat.Fuse.{
  System, Cmd, pure, ◌>>=◌, ◌>>◌, ℤ, pos, minus, on_volume, on_store, file_at, put_file,
  node_search, file_of, set_errno, get_errno, fail_with, return_errno,
}
use famaf_unc.Fat.Fuse.Load.{enoent}
use famaf_unc.Fat.Fuse.Handles.{inc_opened, eisdir}
use famaf_unc.Base.{ℕ, true, false, not, ◌||◌, List, ◌==◌}

module _ {D : Type 0} (sys : System D) where
  -- The times of `buf` are two arguments.
  unfoldable pub utime : (path : List ℕ) → (actime modtime : ℕ) → Cmd D ℤ
  utime path actime modtime = do
    set_errno 0
    file_node ← node_search sys path
    e ← get_errno
    elim (file_node == null || not (e == 0)) [
      | true ↦ fail_with enoent
      | false ↦ do
        q ← on_store (fat_tree_get_parent file_node)
        e' ← get_errno
        elim (q == null || not (e' == 0)) [
          | true ↦ pure (pos 0)
          | false ↦ do
            (p, file) ← file_of file_node
            parent ← file_at q
            file' ← on_volume (fat_utime sys.device file parent actime modtime)
            put_file p file'
            return_errno
        ]
    ]

  -- The counters are increased between the search for the file and its change. A file that is no directory has a
  -- parent.
  unfoldable pub truncate_at : (file_node offset : ℕ) → Cmd D ℤ
  truncate_at file_node offset = do
    q ← on_store (fat_tree_get_parent file_node)
    inc_opened sys file_node
    (p, file) ← file_of file_node
    parent ← file_at q
    file' ← on_volume (truncate sys.device sys.fuel file offset parent)
    put_file p file'
    return_errno

  unfoldable pub fuse_truncate : (path : List ℕ) → (offset : ℕ) → Cmd D ℤ
  fuse_truncate path offset = do
    set_errno 0
    file_node ← node_search sys path
    e ← get_errno
    elim (file_node == null || not (e == 0)) [
      | true ↦ fail_with enoent
      | false ↦ do
        (p, file) ← file_of file_node
        elim (is_directory file) [
          | true ↦ pure (minus eisdir)
          | false ↦ truncate_at file_node offset
        ]
    ]
