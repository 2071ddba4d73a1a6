-- ===== src/Fat/Fuse/Linked.antt =====
-- The node and the entry of a new file, which mkdir and mknod make.
use famaf_unc.Fat.NodeStore.{Store}
use famaf_unc.Fat.Directory.Made.{dentry_add_child-keeps}
use famaf_unc.Fat.Hierarchy.{null, Comparison}
use famaf_unc.Fat.Hierarchy.Shape.{Tree, leaf, node, count, IsTree, IsDistinct}
use famaf_unc.Fat.Hierarchy.Links.{CanInsert}
use famaf_unc.Fat.Hierarchy.Insert.{
  insert_tree, count-insert_tree, h_tree_insert-IsTree, Ordering-cases,
}
use famaf_unc.Fat.Hierarchy.Search.{or_new, address_of}
use famaf_unc.Fat.FileTree.{strcmp, file_cmp, file_cmp_path, fat_tree_insert}
use famaf_unc.Fat.FileTree.Paths.{found_file, found_file-insert_tree, file_cmp-Agrees}
use famaf_unc.Fat.Fuse.{System, Fuse, ok, minus, and_then-ok, with_path, path_key, from_volume}
use famaf_unc.Fat.Fuse.Load.{insert_file}
use famaf_unc.Fat.Fuse.Start.{add_child}
use famaf_unc.Fat.Fuse.Attributes.{file_search}
use famaf_unc.Fat.Fuse.Create.{link_child}
use famaf_unc.Fat.Fuse.Found.{HasTree, file_with, file_search-HasTree, file_at-pos}
use famaf_unc.Fat.Fuse.Removed.{same_comparison, updated-keeps}
use famaf_unc.Base.{
  ℕ, suc, ◌<◌, ◌≡◌, ◌∙◌, ◌^◌, refl, sym, ap, false, List, [], some, ◌==◌, arith, updated, inl, inr,
  updated_self,
}

-- No node of the tree has the file at `d`.
abbrev pub Fresh : (d : ℕ) → Tree → Type 0
Fresh d leaf = Unit {0}
Fresh d (node a x l r) = ((x == d) ≡ false) × Fresh d l × Fresh d r

-- Two comparisons that agree on the files of a tree find the same.
pub found_file-Fresh :
    (cmp other : Comparison) (k d : ℕ) (t : Tree)
    → ((x : ℕ) → (x == d) ≡ false → cmp x k ≡ other x k)
    → Fresh d t
    → found_file cmp k t ≡ found_file other k t
unfolding found_file
found_file-Fresh cmp other k d leaf same f = refl
found_file-Fresh cmp other k d (node a x l r) same f =
    let e = same x f.0 in
    let left = found_file-Fresh cmp other k d l same f.1 in
    let right = found_file-Fresh cmp other k d r same f.2 in
    elim (Ordering-cases (other x k)) [
      | inl o ↦ simp (found_file, e, o, left) refl
      | inr (inl o) ↦ simp (found_file, e, o, right) refl
      | inr (inr o) ↦ simp (found_file, e, o) refl
    ]

-- Nodes among which one more can be inserted below the node `hp`.
pub record CanLink {D : Type 0} (sys : System D) (s : Store) (t : Tree) (hp : ℕ) : Type 0 where
  pub distinct : IsDistinct t
  pub room : CanInsert s hp
  pub fuelled : suc (count t) < sys.fuel
  pub small : suc (count t) < 2 ^ 32

module _ {D : Type 0} (sys : System D) (s : Fuse D) (root : ℕ) (t : Tree) (h : HasTree s root t)
    (hp d : ℕ) (c : CanLink sys s.store t hp) (some_data : 0 < d) where
  -- The tree with the file.
  abbrev pub linked_tree : Tree
  linked_tree = insert_tree (file_cmp (with_path s [])) s.store.next d t

  insert_file-ok :
      (q : ℕ) × (σ : Store) × (insert_file sys hp d s
        ≡ ok tt (record s { store = σ; file_tree = some q }))
      × IsTree σ q linked_tree
  unfolding insert_file fat_tree_insert
  insert_file-ok =
      let given : (d == null) ≡ false = ground arith in
      let less = c.fuelled in
      let (q, σ, run, tree, _) =
        h_tree_insert-IsTree (file_cmp (with_path s [])) sys.fuel d hp t s.store root given
          h.is_tree c.distinct c.room (omega arith) c.small in
      (q, σ, rw (h.at_root, given, run) refl, tree)

  -- What the search finds in a state with that tree and the same paths.
  found-linked :
      (w : Fuse D) (q : ℕ)
      → HasTree w q linked_tree
      → ((x : ℕ) → (w.files x).filepath ≡ (s.files x).filepath)
      → (path : List ℕ)
      → file_search sys path w
        ≡ ok (address_of (or_new (strcmp (s.files d).filepath path) d (file_with s path t))) w
  unfolding file_cmp file_cmp_path
  found-linked w q hw same path =
      let less = c.fuelled in
      let more = count-insert_tree (file_cmp (with_path s [])) s.store.next d t in
      let moved : file_with w path linked_tree ≡ file_with s path linked_tree =
        ap (λ k. found_file k path_key linked_tree) (same_comparison s w path same) in
      let inserted =
        found_file-insert_tree (file_cmp (with_path s [])) (file_cmp_path (with_path s path))
          s.store.next d path_key t (file_cmp-Agrees (with_path s path) d path_key) in
      file_search-HasTree sys w q linked_tree hw path (omega arith)
      ∙ ap (λ o. ok (address_of o) w) (moved ∙ inserted)

  -- Behind link_child a search finds what it found, and else the new file if that has the path.
  pub link_child-found :
      (p : ℕ)
      → 0 < p
      → (e : ℕ) × (w : Fuse D) × (link_child sys hp p d s ≡ ok (minus e) w)
        × (w.volume.table ≡ s.volume.table)
        × ((w.files d).pos_in_parent ≡ (s.files p).nentries)
        × ((path : List ℕ)
            → file_search sys path w
              ≡ ok
                  (address_of (or_new (strcmp (s.files d).filepath path) d (file_with s path t)))
                  w)
  unfolding link_child add_child
  link_child-found p some_parent =
      let (q, σ, inserts, tree) = insert_file-ok in
      let s1 = record s { store = σ; file_tree = some q } in
      let (parent', child', v, adds, pp, cp, pos, table) =
        dentry_add_child-keeps sys.device (s.files p) (s.files d) s.volume in
      let s2 = record s1 { volume = v; files = updated s.files p parent' } in
      let w = record s2 { files = updated s2.files d child' } in
      let paths : (x : ℕ) → (w.files x).filepath ≡ (s.files x).filepath = λ x.
        updated-keeps (λ r. r.filepath) s2.files d x child'
          (cp ∙ sym (updated-keeps (λ r. r.filepath) s.files p d parent' pp))
        ∙ updated-keeps (λ r. r.filepath) s.files p x parent' pp in
      let run : add_child sys p d s1 ≡ ok tt w = and_then-ok _ (file_at-pos s1 p some_parent) (
        and_then-ok _ (file_at-pos s1 d some_data)
          (and_then-ok _ (ap (from_volume s1) adds) refl)) in
      (
        v.errno,
        w,
        and_then-ok _ inserts (and_then-ok _ run refl),
        table,
        ap (λ r. r.pos_in_parent) (updated_self s2.files d child') ∙ pos,
        found-linked w q (record { at_root = refl; is_tree = tree }) paths,
      )
