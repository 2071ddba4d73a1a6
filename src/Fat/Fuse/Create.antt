-- ===== src/Fat/Fuse/Create.antt =====
-- fat_fuse_mkdir and fat_fuse_mknod: new directories and files.
use famaf_unc.Fat.Dentry.{is_directory}
use famaf_unc.Fat.Directory.{file_init}
use famaf_unc.Fat.Hierarchy.{null}
use famaf_unc.Fat.Fuse.{
  System, Cmd, ◌>>=◌, ◌>>◌, ℤ, on_volume, new_file, node_search, file_of, set_errno, get_errno,
  fail_with, return_errno,
}
use famaf_unc.Fat.Fuse.Load.{insert_file, enoent, enotdir}
use famaf_unc.Fat.Fuse.Start.{new_or_null, add_child}
use famaf_unc.Base.{ℕ, true, false, List, none, some, ◌==◌}

module _ {D : Type 0} (sys : System D) where
  -- What both do with a parent that is a directory and a new file.
  unfoldable pub link_child : (parent_node parent new : ℕ) → Cmd D ℤ
  link_child parent_node parent new = do
    insert_file sys parent_node new
    add_child sys parent new
    return_errno

  -- The branch of mkdir behind its tests: errno tells whether the file could be made.
  unfoldable pub make_dir : (path : List ℕ) → (parent_node parent : ℕ) → Cmd D ℤ
  make_dir path parent_node parent = do
    made ← on_volume (file_init sys.device true path)
    new ← new_or_null sys made
    e ← get_errno
    elim (e == 0) [ false ↦ return_errno | true ↦ link_child parent_node parent new ]

  -- That of mknod: NULL tells it.
  unfoldable pub make_file : (path : List ℕ) → (parent_node parent : ℕ) → Cmd D ℤ
  make_file path parent_node parent = do
    made ← on_volume (file_init sys.device false path)
    elim made [
      | none ↦ return_errno
      | some file ↦ do new ← new_file file; link_child parent_node parent new
    ]

  -- The search for the parent, with which both begin, and what follows it.
  unfoldable pub in_parent : (path : List ℕ) → (make : (parent_node parent : ℕ) → Cmd D ℤ) → Cmd D ℤ
  in_parent path make = do
    set_errno 0
    parent_node ← node_search sys (sys.dirname path)
    elim (parent_node == null) [
      | true ↦ fail_with enoent
      | false ↦ do
        (p, parent) ← file_of parent_node
        elim (is_directory parent) [ false ↦ fail_with enotdir | true ↦ make parent_node p ]
    ]

  unfoldable pub mkdir : (path : List ℕ) → Cmd D ℤ
  mkdir path = in_parent path (make_dir path)

  unfoldable pub mknod : (path : List ℕ) → Cmd D ℤ
  mknod path = in_parent path (make_file path)
