-- ===== src/Fat/Fuse/Start.antt =====
-- The start of the file system: fat_fuse_init, and the hidden directory of the log in `vigilante`.
use famaf_unc.Fat.Table.{get_next_free_cluster, set_next_cluster, bad_sector}
use famaf_unc.Fat.File.{on_table}
use famaf_unc.Fat.Dentry.{FatFile, dentry_add_child}
use famaf_unc.Fat.Directory.{init_orphan_dir, file_init}
use famaf_unc.Fat.BigBrother.{search_bb_orphan_dir_cluster, no_cluster}
use famaf_unc.Fat.Hierarchy.{null}
use famaf_unc.Fat.FileTree.{fat_tree_init, fat_tree_get_file}
use famaf_unc.Fat.Fuse.{
  System, Cmd, pure, ◌>>=◌, ◌>>◌, on_volume, on_store, file_at, put_file, new_file, set_tree,
  set_errno, node_search,
}
use famaf_unc.Fat.Fuse.Load.{insert_file, load_directory_children}
use famaf_unc.Fat.Fuse.Log.{log_path}
use famaf_unc.Base.{ℕ, true, false, List, [], ◌∷◌, Option, none, some, ◌==◌}

-- "/" and "/bb"
abbrev pub root_path : List ℕ
root_path = b'/' ∷ []

abbrev pub bb_path : List ℕ
bb_path = b'/' ∷ b'b' ∷ b'b' ∷ []

module _ {D : Type 0} (sys : System D) where
  -- The pointer to a file that fat_file_init gives, which is NULL if there is none.
  unfoldable pub new_or_null : Option FatFile → Cmd D ℕ
  new_or_null none = pure null
  new_or_null (some file) = new_file file

  -- fat_file_dentry_add_child on pointers.
  unfoldable pub add_child : (parent child : ℕ) → Cmd D (Unit {0})
  add_child parent child = do
    p ← file_at parent
    c ← file_at child
    (p', c') ← on_volume (dentry_add_child sys.device p c)
    put_file parent p'
    put_file child c'

  -- A new directory object for "/bb" in a cluster, and its node below the root.
  unfoldable pub insert_bb_dir : (root_dir_node cluster : ℕ) → Cmd D ℕ
  insert_bb_dir root_dir_node cluster = do
    dir ← on_volume (init_orphan_dir sys.device bb_path cluster)
    bb_dir ← new_file dir
    insert_file sys root_dir_node bb_dir
    pure bb_dir

  -- The branch that makes the directory and the log.
  unfoldable pub create_vigilante : (root_dir_node : ℕ) → Cmd D (Unit {0})
  create_vigilante root_dir_node = do
    free_cluster ← on_volume (on_table get_next_free_cluster)
    res_set ← on_volume (set_next_cluster sys.device free_cluster bad_sector)
    bb_dir ← insert_bb_dir root_dir_node free_cluster
    root ← on_store (fat_tree_get_file root_dir_node)
    add_child root bb_dir
    made ← on_volume (file_init sys.device false log_path)
    vigilante_file ← new_or_null made
    bb_log_node ← node_search sys bb_path
    insert_file sys bb_log_node vigilante_file
    add_child bb_dir vigilante_file

  -- The branch that reads the directory that is there.
  unfoldable pub load_vigilante : (root_dir_node bad_cluster : ℕ) → Cmd D (Unit {0})
  load_vigilante root_dir_node bad_cluster = do
    insert_bb_dir root_dir_node bad_cluster
    bb_dir_node ← node_search sys bb_path
    load_directory_children sys bb_dir_node

  unfoldable pub vigilante : (root_dir_node : ℕ) → Cmd D (Unit {0})
  vigilante root_dir_node s =
      (do
        bad_cluster ←
            on_volume (
              search_bb_orphan_dir_cluster sys.device sys.fuel sys.dir_buf s.root_dir_start_cluster)
        elim (bad_cluster == no_cluster) [
          | true ↦ create_vigilante root_dir_node
          | false ↦ load_vigilante root_dir_node bad_cluster
        ])
        s

  -- The tree is printed at the end, which is left out.
  unfoldable pub fuse_init : Cmd D (Unit {0})
  fuse_init s =
      (do
        set_errno 0
        dir ← on_volume (init_orphan_dir sys.device root_path s.root_dir_start_cluster)
        root_dir ← new_file dir
        set_tree fat_tree_init
        insert_file sys null root_dir
        root_dir_node ← node_search sys root_path
        load_directory_children sys root_dir_node
        vigilante root_dir_node)
        s
