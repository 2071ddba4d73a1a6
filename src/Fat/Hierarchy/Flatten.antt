-- ===== src/Fat/Hierarchy/Flatten.antt =====
-- The two ways to list a tree, h_tree_flatten_preorder and h_tree_iterate_preorder, agree.
use famaf_unc.Fat.NodeStore.{Store, ok, load}
use famaf_unc.Fat.Hierarchy.{null, h_tree_iterate_preorder, h_tree_flatten_preorder}
use famaf_unc.Fat.Hierarchy.Shape.{Tree, leaf, node, count, preorder, IsTree, h_tree_size-IsTree}
use famaf_unc.Base.{
  ℕ, zero, suc, ◌+◌, ◌<◌, ◌≡◌, refl, sym, ap, ◌∙◌, false, List, [], ◌∷◌, ◌++◌, arith, ◌==◌, updated,
  length, length-append,
}

-- The array with a list laid out from the place `at` on.
abbrev pub laid_out : List ℕ → (at : ℕ) → (ℕ → ℕ) → ℕ → ℕ
laid_out [] at array = array
laid_out (x ∷ xs) at array = laid_out xs (at + 1) (updated array at x)

laid_out-append :
    (xs ys : List ℕ) (at : ℕ) (array : ℕ → ℕ)
    → laid_out ys (at + length xs) (laid_out xs at array) ≡ laid_out (xs ++ ys) at array
laid_out-append [] ys at array = ap (λ z. laid_out ys z array) (omega arith)
laid_out-append (x ∷ xs) ys at array =
    ap (λ z. laid_out ys z (laid_out xs (at + 1) (updated array at x))) (omega arith)
    ∙ laid_out-append xs ys (at + 1) (updated array at x)

length-preorder : (t : Tree) → length (preorder t) ≡ count t
length-preorder leaf = refl
length-preorder (node a d l r) =
    omega (arith, length-append (preorder l) (preorder r), length-preorder l, length-preorder r)

iterate-IsTree :
    (fuel : ℕ) (t : Tree) (s : Store) (p : ℕ)
    → IsTree s p t
    → count t < fuel
    → h_tree_iterate_preorder fuel p s ≡ ok (preorder t) s
unfolding h_tree_iterate_preorder load
iterate-IsTree zero t s p h f = absurd (omega arith)
iterate-IsTree (suc fuel) leaf s p h f = rw h refl
iterate-IsTree (suc fuel) (node a d l r) s p h f =
    let some_root : (a == null) ≡ false = let pos : 0 < a = h.1 in ground arith in
    let ls = iterate-IsTree fuel l s (s.node a).left h.5 (omega arith) in
    let rs = iterate-IsTree fuel r s (s.node a).right h.6 (omega arith) in
    rw h.0 (simp (some_root, h_tree_iterate_preorder, h.2, ls, rs, h.3) refl)

flatten-IsTree :
    (fuel : ℕ) (t : Tree) (s : Store) (p at : ℕ) (array : ℕ → ℕ)
    → IsTree s p t
    → count t < fuel
    → h_tree_flatten_preorder fuel p at array s ≡ ok (laid_out (preorder t) at array) s
unfolding h_tree_flatten_preorder load
flatten-IsTree zero t s p at array h f = absurd (omega arith)
flatten-IsTree (suc fuel) leaf s p at array h f = rw h refl
flatten-IsTree (suc fuel) (node a d l r) s p at array h f =
    let some_root : (a == null) ≡ false = let pos : 0 < a = h.1 in ground arith in
    let first = updated array at d in
    let ls = flatten-IsTree fuel l s (s.node a).left (at + 1) first h.5 (omega arith) in
    let size = h_tree_size-IsTree s (s.node a).left l h.5 in
    let rs =
      flatten-IsTree fuel r s (s.node a).right (at + 1 + count l)
        (laid_out (preorder l) (at + 1) first) h.6 (omega arith) in
    let joined =
      ap (λ n. laid_out (preorder r) (at + 1 + n) (laid_out (preorder l) (at + 1) first))
        (sym (length-preorder l))
      ∙ laid_out-append (preorder l) (preorder r) (at + 1) first in
    rw h.0 (
      simp (some_root, h_tree_flatten_preorder, h.2, h.3, ls, size, rs) refl
      ∙ ap (λ z. ok z s) joined)

-- On a tree of nodes with right sizes, and with more fuel than nodes, h_tree_iterate_preorder ends and visits as many
-- data as the tree has nodes, and h_tree_flatten_preorder ends and lays out in the array, from the given place on,
-- exactly the data that h_tree_iterate_preorder visits, in the same order; neither changes the store.
pub h_tree_flatten_preorder-iterate :
    (fuel : ℕ) (t : Tree) (s : Store) (p at : ℕ) (array : ℕ → ℕ)
    → IsTree s p t
    → count t < fuel
    → (ds : List ℕ) × (h_tree_iterate_preorder fuel p s ≡ ok ds s)
      × (length ds ≡ count t)
      × (h_tree_flatten_preorder fuel p at array s ≡ ok (laid_out ds at array) s)
h_tree_flatten_preorder-iterate fuel t s p at array h f = (
  preorder t,
  iterate-IsTree fuel t s p h f,
  length-preorder t,
  flatten-IsTree fuel t s p at array h f,
)
