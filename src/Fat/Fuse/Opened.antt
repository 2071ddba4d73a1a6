-- ===== src/Fat/Fuse/Opened.antt =====
-- A file that is opened and closed again.
use famaf_unc.Fat.Dentry.{is_directory}
use famaf_unc.Fat.Hierarchy.Shape.{Tree, count}
use famaf_unc.Fat.FileTree.Opened.{HasAncestors, fat_tree_dec-inc}
use famaf_unc.Fat.Fuse.{System, Fuse, ok, pos, and_then-ok}
use famaf_unc.Fat.Fuse.Found.{
  HasTree, node_with, node_search-some, HasFile, some_node, file_of-HasFile,
}
use famaf_unc.Fat.Fuse.Handles.{inc_opened, dec_opened, fuse_open, release}
use famaf_unc.Base.{ℕ, ◌<◌, ◌≡◌, ◌^◌, refl, false, List, some, length}

module _ {D : Type 0} (sys : System D) (s : Fuse D) (root : ℕ) (t : Tree)
    (h : HasTree s root t) where
  -- When a node of the tree with the path is live and its file is no directory, its parents end at a node with
  -- none, and the fuel is more than the nodes of the tree and than these parents with the node, then fat_fuse_open
  -- of the path gives 0 and the node as the handle, and fat_fuse_release of the handle gives 0 after it; behind both
  -- each file whose counter was below 2 ^ 31 is as it was before, and so is all the rest of the state.
  pub release-fuse_open :
      (path : List ℕ) (node d : ℕ) (ds : List ℕ)
      → count t < sys.fuel
      → node_with s path t ≡ some node
      → HasFile s.store node d
      → is_directory (s.files d) ≡ false
      → HasAncestors s.store node ds
      → length ds < sys.fuel
      → (opened closed : Fuse D) × (fuse_open sys path s ≡ ok (pos 0, some node) opened)
        × (release sys node opened ≡ ok (pos 0) closed)
        × (closed ≡ record s { files = closed.files })
        × ((x : ℕ) → (s.files x).num_times_opened < 2 ^ 31 → closed.files x ≡ s.files x)
  unfolding fuse_open release inc_opened dec_opened
  release-fuse_open path node d ds f found hf plain up g =
      let (opened, closed, opens, closes, same) =
        fat_tree_dec-inc sys.fuel node ds s.store s.files up g in
      (
        record s { files = opened },
        record s { files = closed },
        and_then-ok _ (node_search-some sys s root t h path node f found) (
            rw (some_node s.store node d hf)
              (and_then-ok _ (file_of-HasFile s node d hf) (rw (plain, opens) refl))),
        rw closes refl,
        refl,
        same,
      )
