-- ===== src/Fat/Tests/Trees.antt =====
-- Concrete trees of nodes and files.
use famaf_unc.Fat.NodeStore.{Node, Store, ok}
use famaf_unc.Fat.Hierarchy.{
  null, h_tree_insert, h_tree_iterate_preorder, h_tree_flatten_preorder, delete_root,
}
use famaf_unc.Fat.Hierarchy.Shape.{Tree, leaf, node, has_node, IsTree, IsDistinct, Keeps}
use famaf_unc.Fat.Hierarchy.Links.{CanInsert}
use famaf_unc.Fat.Hierarchy.Insert.{insert_tree, h_tree_insert-IsTree}
use famaf_unc.Fat.Hierarchy.Flatten.{laid_out, h_tree_flatten_preorder-iterate}
use famaf_unc.Fat.Hierarchy.Delete.{IsDeep, delete_root-no_tree}
use famaf_unc.Fat.FileTree.{Files}
use famaf_unc.Fat.FileTree.Opened.{HasAncestors}
use famaf_unc.Fat.Tests.{file}
use Prim.Native.Nat.{compare}
use famaf_unc.Base.{
  ℕ, ◌+◌, ◌≡◌, refl, true, false, ◌==◌, leb, ltb, ◌&&◌, if◌then◌else◌, List, [], ◌∷◌, length, arith,
  inr,
}

-- Data 10 at 5, 4 at 6 and 20 at 7; 6 and 7 are children of 5 in the hierarchy.
abbrev root_node : Node
root_node = record {
  data_ptr = 10;
  right = 7;
  left = 6;
  h_parent = null;
  h_next_sibling = null;
  h_children = 7;
  size = 3;
}

abbrev child_node : (d sibling : ℕ) → Node
child_node d sibling = record {
  data_ptr = d;
  right = null;
  left = null;
  h_parent = 5;
  h_next_sibling = sibling;
  h_children = null;
  size = 1;
}

abbrev three_store : Store
three_store = record {
  node = λ p. if p == 5 then root_node else if p == 6 then child_node 4 null else child_node 20 6;
  is_live = λ p. leb 5 p && ltb p 8;
  next = 8;
  destroyed = [];
}

abbrev three_tree : Tree
three_tree = node 5 10 (node 6 4 leaf leaf) (node 7 20 leaf leaf)

three_tree-IsTree : IsTree three_store 5 three_tree
three_tree-IsTree = (
  refl,
  omega arith,
  refl,
  refl,
  refl,
  (refl, omega arith, refl, refl, refl, refl, refl),
  (refl, omega arith, refl, refl, refl, refl, refl),
)

apart : (p : ℕ) → has_node p (node 6 4 leaf leaf) ≡ true → has_node p (node 7 20 leaf leaf) ≡ false
apart p h = ground arith

single : (a d p : ℕ) → has_node p leaf ≡ true → has_node p leaf ≡ false
single a d p h = refl

three_tree-IsDistinct : IsDistinct three_tree
three_tree-IsDistinct =
    (refl, refl, apart, (refl, refl, single 6 4, tt, tt), (refl, refl, single 7 20, tt, tt))

three_store-CanInsert : CanInsert three_store 5
three_store-CanInsert = record { next_pos = omega arith; fresh = refl; parent = inr refl }

h_tree_insert-IsTree_example :
    (q : ℕ) × (w : Store) × (h_tree_insert compare 9 5 15 5 three_store ≡ ok q w)
    × IsTree w q (node 5 10 (node 6 4 leaf leaf) (node 7 20 (node 8 15 leaf leaf) leaf))
    × ((z : ℕ) → has_node z three_tree ≡ false → (z == 8) ≡ false → Keeps three_store w z)
unfolding insert_tree
h_tree_insert-IsTree_example =
    h_tree_insert-IsTree compare 9 15 5 three_tree three_store 5 refl three_tree-IsTree
      three_tree-IsDistinct three_store-CanInsert (omega arith) (omega arith)

h_tree_flatten_preorder-iterate_example :
    (ds : List ℕ) × (h_tree_iterate_preorder 9 5 three_store ≡ ok ds three_store)
    × (length ds ≡ 3)
    × (h_tree_flatten_preorder 9 5 0 (λ i. 0) three_store ≡ ok (laid_out ds 0 (λ i. 0)) three_store)
h_tree_flatten_preorder-iterate_example =
    h_tree_flatten_preorder-iterate 9 three_tree three_store 5 0 (λ i. 0) three_tree-IsTree
      (omega arith)

-- The path of a file is its number.
abbrev numbered : Files
numbered = record { files = λ d. record file { filepath = d ∷ [] }; text = λ k. k ∷ [] }

three_store-HasAncestors : HasAncestors three_store 6 (4 ∷ 10 ∷ [])
three_store-HasAncestors = (omega arith, refl, refl, (omega arith, refl, refl, refl))

-- 2 and 3 are the children of 1, 4 is the left child of 3, and 5 that of 4.
abbrev deep_store : Store
deep_store = record {
  node = λ p. record {
    data_ptr = p + 8;
    right = if p == 1 then 3 else null;
    left = if p == 1 then 2 else if p == 3 then 4 else if p == 4 then 5 else null;
    h_parent = null;
    h_next_sibling = null;
    h_children = null;
    size = if p == 1 then 5 else if p == 3 then 3 else if p == 4 then 2 else 1;
  };
  is_live = λ p. leb 1 p && ltb p 6;
  next = 6;
  destroyed = [];
}

deep_store-IsDeep : IsDeep deep_store 1 2 3 4 5
deep_store-IsDeep = record {
  live = (refl, refl, refl, refl, refl);
  some_data = refl;
  left_of_a = refl;
  right_of_a = refl;
  left_of_r = refl;
  left_of_b = refl;
  left_of_m = refl;
  right_of_m = refl;
  not_null = (refl, refl, refl, refl);
  a_apart = (refl, refl, refl, refl);
  others_apart = (refl, refl, refl);
}

delete_root-no_tree_example :
    (w : Store) × (delete_root 5 1 deep_store ≡ ok 5 w)
    × ((t : Tree) → ¬ IsTree w 5 t)
    × ((w.node 5).right ≡ 3)
    × ((w.node 3).left ≡ 4)
    × ((w.node 4).left ≡ 5)
    × ((w.node 5).left ≡ null)
    × (w.destroyed ≡ 9 ∷ 9 ∷ [])
delete_root-no_tree_example = delete_root-no_tree 2 deep_store 1 2 3 4 5 deep_store-IsDeep
