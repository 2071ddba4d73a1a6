-- ===== src/Fat/Fuse/Found.antt =====
-- The searches of the operations, on a tree that is well formed.
use famaf_unc.Fat.NodeStore
use famaf_unc.Fat.NodeStore.{load, Store}
use famaf_unc.Fat.Dentry.{is_directory}
use famaf_unc.Fat.Fuse.Remove.{no_directory}
use famaf_unc.Fat.Hierarchy.{null, h_tree_get_data, h_tree_get_h_parent}
use famaf_unc.Fat.Hierarchy.Shape.{Tree, count, IsTree}
use famaf_unc.Fat.Hierarchy.Search.{find, address_of, h_tree_search-IsTree}
use famaf_unc.Fat.FileTree.{
  fat_tree_node_search, file_cmp_path, fat_tree_get_parent, fat_tree_get_file,
}
use famaf_unc.Fat.FileTree.Paths.{fat_tree_search-IsTree, found_file}
use famaf_unc.Fat.Fuse.{
  System, Fuse, ok, node_search, with_path, path_key, null, file_at, file_of, and_then-ok, Store,
  from_store,
}
use famaf_unc.Fat.Fuse.Attributes.{file_search}
use famaf_unc.Base.{ℕ, ◌<◌, ◌≡◌, refl, List, Option, some, ◌∙◌, none, ap, true, ◌==◌, false, arith}

-- The file tree of a state.
pub record HasTree {D : Type 0} (s : Fuse D) (root : ℕ) (t : Tree) : Type 0 where
  pub at_root : s.file_tree ≡ some root
  pub is_tree : IsTree s.store root t

-- The node and the file with a path.
abbrev pub node_with : {D : Type 0} → Fuse D → List ℕ → Tree → Option ℕ
node_with s path t = find (file_cmp_path (with_path s path)) path_key t

abbrev pub file_with : {D : Type 0} → Fuse D → List ℕ → Tree → Option ℕ
file_with s path t = found_file (file_cmp_path (with_path s path)) path_key t

module _ {D : Type 0} (sys : System D) (s : Fuse D) (root : ℕ) (t : Tree)
    (h : HasTree s root t) where
  node_search-HasTree :
      (path : List ℕ)
      → count t < sys.fuel
      → node_search sys path s ≡ ok (address_of (node_with s path t)) s
  unfolding node_search fat_tree_node_search
  node_search-HasTree path f =
      rw
        (
          h.at_root,
          h_tree_search-IsTree (file_cmp_path (with_path s path)) sys.fuel path_key t s.store root
              refl h.is_tree f,
        )
        refl

  pub file_search-HasTree :
      (path : List ℕ)
      → count t < sys.fuel
      → file_search sys path s ≡ ok (address_of (file_with s path t)) s
  unfolding file_search
  file_search-HasTree path f =
      rw
        (
          h.at_root,
          fat_tree_search-IsTree (with_path s path) sys.fuel path_key t s.store root refl h.is_tree
              f,
        )
        refl

  pub node_search-some :
      (path : List ℕ) (node : ℕ)
      → count t < sys.fuel
      → node_with s path t ≡ some node
      → node_search sys path s ≡ ok node s
  node_search-some path node f e = node_search-HasTree path f ∙ ap (λ o. ok (address_of o) s) e

  pub node_search-none :
      (path : List ℕ)
      → count t < sys.fuel
      → node_with s path t ≡ none
      → node_search sys path s ≡ ok null s
  node_search-none path f e = node_search-HasTree path f ∙ ap (λ o. ok (address_of o) s) e

-- A live node whose file is at `d`.
pub record HasFile (s : Store) (p d : ℕ) : Type 0 where
  pub node_pos : 0 < p
  pub live : s.is_live p ≡ true
  pub holds : (s.node p).data_ptr ≡ d
  pub file_pos : 0 < d

-- Any pointer that is not NULL points to a file.
pub file_at-pos : {D : Type 0} (s : Fuse D) (d : ℕ) → 0 < d → file_at d s ≡ ok (s.files d) s
unfolding file_at
file_at-pos s d h = let some_file : (d == null) ≡ false = ground arith in rw some_file refl

module _ (s : Store) (p d : ℕ) (h : HasFile s p d) where
  pub some_node : (p == null) ≡ false
  some_node = let pos : 0 < p = h.node_pos in ground arith

  pub some_file : (d == null) ≡ false
  some_file = let pos : 0 < d = h.file_pos in ground arith

  pub get_file-HasFile : fat_tree_get_file p s ≡ NodeStore.ok d s
  unfolding h_tree_get_data load
  get_file-HasFile = rw (some_node, h.live, h.holds) refl

pub file_of-HasFile :
    {D : Type 0} (s : Fuse D) (p d : ℕ) → HasFile s.store p d → file_of p s ≡ ok (d, s.files d) s
unfolding file_of
file_of-HasFile s p d h =
    and_then-ok _ (ap (from_store s) (get_file-HasFile s.store p d h))
      (and_then-ok _ (file_at-pos s d h.file_pos) refl)

-- A node whose parent in the hierarchy has the file at `q`.
pub record HasParent (s : Store) (p q : ℕ) : Type 0 where
  pub node_pos : 0 < p
  pub live : s.is_live p ≡ true
  pub parent_file : HasFile s (s.node p).h_parent q

pub get_parent-HasParent :
    (s : Store) (p q : ℕ) → HasParent s p q → fat_tree_get_parent p s ≡ NodeStore.ok q s
unfolding fat_tree_get_parent h_tree_get_h_parent load
get_parent-HasParent s p q h =
    let pos : 0 < p = h.node_pos in
    let some_node : (p == null) ≡ false = ground arith in
    rw (some_node, h.live) (get_file-HasFile s (s.node p).h_parent q h.parent_file)

pub no_directory-false :
    {D : Type 0} (sys : System D) (s : Fuse D) (q : ℕ)
    → 0 < q
    → is_directory (s.files q) ≡ true
    → no_directory sys q s ≡ ok false s
unfolding no_directory
no_directory-false sys s q pos dir =
    let some_parent : (q == null) ≡ false = ground arith in
    rw (some_parent, no_directory) (and_then-ok _ (file_at-pos s q pos) (rw dir refl))
