-- ===== src/Fat/Fuse/Attributes.antt =====
-- fat_fuse_fgetattr and fat_fuse_getattr: the stat buffer of a file.
use famaf_unc.Fat.Stat.{Stat, file_to_stbuf}
use famaf_unc.Fat.Hierarchy.{null}
use famaf_unc.Fat.FileTree.{fat_tree_search}
use famaf_unc.Fat.Fuse.{
  System, Cmd, pure, ◌>>=◌, ◌>>◌, ℤ, pos, on_volume, on_store, file_at, file_of, get_tree,
  fail_with, path_key, with_path,
}
use famaf_unc.Fat.File.{get_table}
use famaf_unc.Fat.Fuse.Load.{load_path, enoent}
use famaf_unc.Base.{ℕ, true, false, List, Option, none, some, ◌==◌}

module _ {D : Type 0} (sys : System D) where
  -- `fh` is the node that open has put into `fi`.
  unfoldable pub fgetattr : (fh : ℕ) → Cmd D (ℤ × Stat)
  fgetattr fh = do
    (p, file) ← file_of fh
    t ← on_volume get_table
    pure (pos 0, file_to_stbuf sys.device t file)

  -- fat_tree_search(vol->file_tree, path)
  unfoldable pub file_search : List ℕ → Cmd D ℕ
  file_search path s =
      (do tree ← get_tree; on_store (fat_tree_search (with_path s path) sys.fuel tree path_key)) s

  -- `none` if the buffer is not written. What load_path returns is not looked at.
  unfoldable pub getattr : List ℕ → Cmd D (ℤ × Option Stat)
  getattr path = do
    load_path sys path
    p ← file_search path
    elim (p == null) [
      | true ↦ do r ← fail_with enoent; pure (r, none)
      | false ↦ do
        file ← file_at p
        t ← on_volume get_table
        pure (pos 0, some (file_to_stbuf sys.device t file))
    ]
