-- ===== src/Fat/FileTree/Paths.antt =====
-- A file that was inserted is found by its path.
use famaf_unc.Fat.NodeStore.{Store, ok, load}
use famaf_unc.Fat.Hierarchy.{null, h_tree_get_data, Comparison}
use famaf_unc.Fat.Hierarchy.Shape.{Tree, leaf, node, count, IsTree, IsDistinct}
use famaf_unc.Fat.Hierarchy.Links.{CanInsert}
use famaf_unc.Fat.Hierarchy.Insert.{
  insert_tree, count-insert_tree, h_tree_insert-IsTree, Ordering-cases,
}
use famaf_unc.Fat.Hierarchy.Search.{
  find, Agrees, opposite, or_new, address_of, h_tree_search-IsTree,
}
use famaf_unc.Fat.FileTree.{
  strcmp, Files, file_cmp, file_cmp_path, fat_tree_insert, fat_tree_search, fat_tree_node_search,
}
use Prim.Native.Nat.{compare}
use Prim.Native.Nat.Ordering.{lt, eq, gt}
use famaf_unc.Base.{
  ℕ, suc, ◌<◌, ◌≡◌, ◌^◌, refl, sym, ap, ◌∙◌, false, List, [], ◌∷◌, Option, none, some, arith, ◌==◌,
  inl, inr,
}

compare-eq : (c d : ℕ) → compare c d ≡ eq → c ≡ d
compare-eq c d h = ground arith

strcmp-eq : (cs ds : List ℕ) → strcmp cs ds ≡ eq → cs ≡ ds
unfolding strcmp
strcmp-eq [] [] h = refl
strcmp-eq [] (d ∷ ds) h = cc
strcmp-eq (c ∷ cs) [] h = cc
strcmp-eq (c ∷ cs) (d ∷ ds) h = ground (arith, strcmp-eq cs ds)

strcmp-opposite : (cs ds : List ℕ) → strcmp cs ds ≡ opposite (strcmp ds cs)
unfolding strcmp
strcmp-opposite [] [] = refl
strcmp-opposite [] (d ∷ ds) = refl
strcmp-opposite (c ∷ cs) [] = refl
strcmp-opposite (c ∷ cs) (d ∷ ds) = ground (arith, strcmp-opposite cs ds)

-- The comparison of files with a path agrees with that of files with the file of that path.
pub file_cmp-Agrees : (m : Files) (d k : ℕ) → Agrees (file_cmp m) (file_cmp_path m) d k
unfolding file_cmp file_cmp_path
file_cmp-Agrees m d k e x =
    let same = strcmp-eq (m.files d).filepath (m.text k) e in
    rw (sym same) (strcmp-opposite (m.files x).filepath (m.files d).filepath)

-- The file that a search for the key `k` finds.
unfoldable pub found_file : Comparison → (k : ℕ) → Tree → Option ℕ
found_file cmp_key k leaf = none
found_file cmp_key k (node a x l r) = elim (cmp_key x k) [
  | lt ↦ found_file cmp_key k r
  | gt ↦ found_file cmp_key k l
  | eq ↦ some x
]

pub found_file-insert_tree :
    (cmp cmp_key : Comparison) (new d k : ℕ) (t : Tree)
    → Agrees cmp cmp_key d k
    → found_file cmp_key k (insert_tree cmp new d t)
      ≡ or_new (cmp_key d k) d (found_file cmp_key k t)
unfolding found_file insert_tree
found_file-insert_tree cmp cmp_key new d k leaf g = ground arith
found_file-insert_tree cmp cmp_key new d k (node a x l r) g = ground (
  arith,
  found_file-insert_tree cmp cmp_key new d k l g,
  found_file-insert_tree cmp cmp_key new d k r g,
  λ (e : cmp_key d k ≡ eq). g e x,
)

h_tree_get_data-find :
    (cmp_key : Comparison) (k : ℕ) (t : Tree) (s : Store) (p : ℕ)
    → IsTree s p t
    → h_tree_get_data (address_of (find cmp_key k t)) s ≡ ok (address_of (found_file cmp_key k t)) s
unfolding h_tree_get_data find found_file load
h_tree_get_data-find cmp_key k leaf s p h = refl
h_tree_get_data-find cmp_key k (node a x l r) s p h =
    let some_root : (a == null) ≡ false = let pos : 0 < a = h.1 in ground arith in
    elim (Ordering-cases (cmp_key x k)) [
      | inl e ↦ rw (e, find, found_file) (h_tree_get_data-find cmp_key k l s (s.node a).left h.5)
      | inr (inl e) ↦
          rw (e, find, found_file) (h_tree_get_data-find cmp_key k r s (s.node a).right h.6)
      | inr (inr e) ↦ simp (e, find, found_file, some_root, h.2, h.3) refl
    ]

pub fat_tree_search-IsTree :
    (m : Files) (fuel k : ℕ) (t : Tree) (s : Store) (p : ℕ)
    → (k == null) ≡ false
    → IsTree s p t
    → count t < fuel
    → fat_tree_search m fuel (some p) k s ≡ ok (address_of (found_file (file_cmp_path m) k t)) s
unfolding fat_tree_search fat_tree_node_search found_file
fat_tree_search-IsTree m fuel k leaf s p some_key h f = rw (some_key, h) refl
fat_tree_search-IsTree m fuel k (node a x l r) s p some_key h f =
    let some_root : (a == null) ≡ false = let pos : 0 < a = h.1 in ground arith in
    let found = h_tree_search-IsTree (file_cmp_path m) fuel k (node a x l r) s p some_key h f in
    let read = h_tree_get_data-find (file_cmp_path m) k (node a x l r) s p h in
    let root_kept : (p == null) ≡ false = rw h.0 some_root in rw (some_key, root_kept, found) read

-- In a tree of fewer than 2 ^ 32 files with right sizes, with a fresh address for the next node, a parent that is none or
-- a node, and more fuel than files, fat_tree_insert of a file ends with a tree in which fat_tree_search for a path
-- that is not NULL gives the file that the search gave before; where there was none, it gives the new file if that
-- has the path, and NULL if not.
fat_tree_search-insert :
    (m : Files) (fuel d hp : ℕ) (t : Tree) (s : Store) (p : ℕ)
    → (d == null) ≡ false
    → IsTree s p t
    → IsDistinct t
    → CanInsert s hp
    → suc (count t) < fuel
    → suc (count t) < 2 ^ 32
    → (q : ℕ) × (w : Store) × (fat_tree_insert m fuel (some p) hp d s ≡ ok (some q) w)
      × ((k : ℕ)
          → (k == null) ≡ false
          → (found : Option ℕ) × (fat_tree_search m fuel (some p) k s ≡ ok (address_of found) s)
            × (fat_tree_search m fuel (some q) k w
                ≡ ok (address_of (or_new (strcmp (m.files d).filepath (m.text k)) d found)) w))
unfolding fat_tree_insert file_cmp_path
fat_tree_search-insert m fuel d hp t s p some_data h u c f small =
    let (q, w, run, tree, _) =
      h_tree_insert-IsTree (file_cmp m) fuel d hp t s p some_data h u c (omega arith) small in
    (
      q,
      w,
      rw (some_data, run) refl,
      λ k some_key. (
        found_file (file_cmp_path m) k t,
        fat_tree_search-IsTree m fuel k t s p some_key h (omega arith),
        fat_tree_search-IsTree m fuel k (insert_tree (file_cmp m) s.next d t) w q some_key tree
              (omega (arith, count-insert_tree (file_cmp m) s.next d t))
            ∙ ap (λ r. ok (address_of r) w)
                (found_file-insert_tree (file_cmp m) (file_cmp_path m) s.next d k t
                  (file_cmp-Agrees m d k)),
      ),
    )
