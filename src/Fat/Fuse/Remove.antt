-- ===== src/Fat/Fuse/Remove.antt =====
-- fat_fuse_unlink and fat_fuse_rmdir: files and directories are removed from the disk and the tree.
use famaf_unc.Fat.Dentry.{FatFile, is_directory, remove_dentry}
use famaf_unc.Fat.File.{free_clusters}
use famaf_unc.Fat.Directory.{read_children}
use famaf_unc.Fat.BigBrother.{children_or_none}
use famaf_unc.Fat.Hierarchy.{null}
use famaf_unc.Fat.FileTree.{fat_tree_get_file, fat_tree_get_parent, fat_tree_delete}
use famaf_unc.Fat.Fuse.{
  System, Cmd, pure, ◌>>=◌, ◌>>◌, ℤ, on_volume, on_store, file_at, put_file, node_search, file_of,
  set_errno, get_errno, get_tree, set_tree, fail_with, return_errno, path_key, with_path,
  out_of_fuel,
}
use famaf_unc.Fat.Fuse.Load.{enoent, enotdir}
use famaf_unc.Fat.Fuse.Handles.{eisdir}
use famaf_unc.Base.{ℕ, zero, suc, Bool, true, false, not, ◌||◌, List, [], ◌∷◌, ◌==◌}

module _ {D : Type 0} (sys : System D) where
  -- `vol->file_tree = fat_tree_delete(vol->file_tree, path)`
  unfoldable pub delete_path : List ℕ → Cmd D (Unit {0})
  delete_path path s =
      (do
        tree ← get_tree
        tree' ← on_store (fat_tree_delete (with_path s path) sys.fuel tree path_key)
        set_tree tree')
        s

  -- fat_file_free_clusters and fat_file_remove_dentry on pointers.
  unfoldable pub free_file_clusters : (file : ℕ) → Cmd D (Unit {0})
  free_file_clusters p = do file ← file_at p; on_volume (free_clusters sys.device sys.fuel file)

  unfoldable pub remove_entry : (file parent : ℕ) → Cmd D (Unit {0})
  remove_entry p q = do
    file ← file_at p
    parent ← file_at q
    file' ← on_volume (remove_dentry sys.device file parent)
    put_file p file'

  -- Whether a pointer to a parent is NULL or no directory.
  unfoldable pub no_directory : (parent : ℕ) → Cmd D Bool
  no_directory q = elim (q == null) [
    | true ↦ pure true
    | false ↦ do parent ← file_at q; pure (not (is_directory parent))
  ]

  -- The tests of unlink on a node that was found, and the removal.
  unfoldable pub unlink_node : (path : List ℕ) → (file_node : ℕ) → Cmd D ℤ
  unlink_node path file_node = do
    p ← on_store (fat_tree_get_file file_node)
    elim (p == null) [
      | true ↦ return_errno
      | false ↦ do
        file ← file_at p
        elim (is_directory file) [
          | true ↦ fail_with eisdir
          | false ↦ do
            q ← on_store (fat_tree_get_parent file_node)
            refused ← no_directory q
            elim refused [
              | true ↦ fail_with enotdir
              | false ↦ do free_file_clusters p; remove_entry p q; delete_path path; return_errno
            ]
        ]
    ]

  unfoldable pub unlink : (path : List ℕ) → Cmd D ℤ
  unlink path = do
    set_errno 0
    file_node ← node_search sys path
    e ← get_errno
    elim (file_node == null || not (e == 0)) [
      | true ↦ fail_with enoent
      | false ↦ unlink_node path file_node
    ]

  -- The end of rmdir, behind the loop over the children.
  unfoldable pub remove_dir : (path : List ℕ) → (dir_node directory : ℕ) → Cmd D ℤ
  remove_dir path dir_node directory = do
    q ← on_store (fat_tree_get_parent dir_node)
    refused ← no_directory q
    elim refused [
      | true ↦ fail_with enotdir
      | false ↦ do
        remove_entry directory q
        free_file_clusters directory
        delete_path path
        return_errno
    ]

  -- The loop of rmdir over the children, with rmdir for the directories among them.
  unfoldable pub remove_children : (rmdir : List ℕ → Cmd D ℤ) → List FatFile → Cmd D (Unit {0})
  remove_children rmdir [] = pure tt
  remove_children rmdir (child ∷ children) = do
    elim (is_directory child) [ true ↦ rmdir child.filepath | false ↦ unlink child.filepath ]
    remove_children rmdir children

  -- The fuel counts the directories that contain each other.
  unfoldable pub rmdir : (fuel : ℕ) → (path : List ℕ) → Cmd D ℤ
  rmdir zero path = λ s. out_of_fuel
  rmdir (suc fuel) path = do
    set_errno 0
    dir_node ← node_search sys path
    elim (dir_node == null) [
      | true ↦ fail_with enoent
      | false ↦ do
        (p, directory) ← file_of dir_node
        elim (is_directory directory) [
          | false ↦ fail_with enotdir
          | true ↦ do
            (directory', children) ←
                on_volume (read_children sys.device sys.fuel sys.dir_buf directory)
            put_file p directory'
            remove_children (rmdir fuel) (children_or_none children)
            remove_dir path dir_node p
        ]
    ]
