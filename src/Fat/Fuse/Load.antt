-- ===== src/Fat/Fuse/Load.antt =====
-- Directories that are read into the tree: fat_fuse_load_directory_children and fat_fuse_load_path.
use famaf_unc.Fat.Dentry.{FatFile, is_directory}
use famaf_unc.Fat.Directory.{read_children}
use famaf_unc.Fat.BigBrother.{children_or_none}
use famaf_unc.Fat.Hierarchy.{null}
use famaf_unc.Fat.FileTree.{fat_tree_insert}
use famaf_unc.Fat.Fuse.{
  System, Cmd, pure, ◌>>=◌, ◌>>◌, ℤ, pos, on_volume, on_store, put_file, new_file, get_tree,
  set_tree, node_search, file_of, fail_with,
}
use famaf_unc.Base.{ℕ, true, false, List, [], ◌∷◌, ◌++◌, ◌==◌}

-- ENOENT and ENOTDIR
abbrev pub enoent : ℕ
enoent = 2

abbrev pub enotdir : ℕ
enotdir = 20

module _ {D : Type 0} (sys : System D) where
  -- `vol->file_tree = fat_tree_insert(vol->file_tree, parent, file)`
  unfoldable pub insert_file : (parent file : ℕ) → Cmd D (Unit {0})
  insert_file parent file s =
      (do
        tree ← get_tree
        tree' ←
            on_store (
              fat_tree_insert (record { files = s.files; text = λ k. [] }) sys.fuel tree parent
                file)
        set_tree tree')
        s

  -- The children get their memory as they are inserted.
  unfoldable pub insert_children : (dir_node : ℕ) → List FatFile → Cmd D (Unit {0})
  insert_children dir_node [] = pure tt
  insert_children dir_node (child ∷ children) = do
    p ← new_file child
    insert_file dir_node p
    insert_children dir_node children

  unfoldable pub load_directory_children : (dir_node : ℕ) → Cmd D (Unit {0})
  load_directory_children dir_node = do
    (p, dir) ← file_of dir_node
    (dir', children) ← on_volume (read_children sys.device sys.fuel sys.dir_buf dir)
    put_file p dir'
    insert_children dir_node (children_or_none children)

  -- The loop of fat_fuse_load_path, where `prefix` is the path up to the place `i`, and the rest begins there. The end
  -- of the path is no '/', so that the test for it is not reached.
  unfoldable pub load_path_loop : (prefix rest : List ℕ) → Cmd D ℤ
  load_path_loop prefix [] = pure (pos 0)
  load_path_loop prefix (c ∷ rest) = elim (c == b'/') [
    | false ↦ load_path_loop (prefix ++ (c ∷ [])) rest
    | true ↦ do
      dir_node ← node_search sys prefix
      elim (dir_node == null) [
        | true ↦ fail_with enoent
        | false ↦ do
          (p, dir) ← file_of dir_node
          elim (is_directory dir) [
            | false ↦ fail_with enotdir
            | true ↦ do
              elim dir.children_read [ true ↦ pure tt | false ↦ load_directory_children dir_node ]
              load_path_loop (prefix ++ (c ∷ [])) rest
          ]
      ]
  ]

  unfoldable pub load_path : List ℕ → Cmd D ℤ
  load_path [] = pure (pos 0)
  load_path (c ∷ rest) = load_path_loop (c ∷ []) rest
