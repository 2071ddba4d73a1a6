-- ===== src/Fat/Hierarchy/Shape.antt =====
-- The binary tree that the nodes below a pointer form.
use famaf_unc.Fat.NodeStore.{Node, Store, ok, load, modify, with_node}
use famaf_unc.Fat.Hierarchy.{null, h_tree_size, update_size}
use famaf_unc.Base.{
  ℕ, ◌+◌, ◌<◌, ◌≡◌, ◌%◌, ◌^◌, refl, subst, ◌∙◌, ◌||◌, true, false, Bool, List, [], ◌∷◌, ◌++◌, arith,
  ◌==◌, Bool-cases, inl, inr, eq_self,
}

-- With the address and the data of each node.
pub data Tree : Type 0 where
  leaf : Tree
  node : (address data_ptr : ℕ) (l r : Tree) → Tree

abbrev pub count : Tree → ℕ
count leaf = 0
count (node a d l r) = 1 + count l + count r

-- Whether the tree has a node at this address.
abbrev pub has_node : ℕ → Tree → Bool
has_node p leaf = false
has_node p (node a d l r) = (p == a) || (has_node p l || has_node p r)

abbrev pub preorder : Tree → List ℕ
preorder leaf = []
preorder (node a d l r) = d ∷ (preorder l ++ preorder r)

-- In the store, the nodes below the pointer `p` are those of the tree, all live, and their sizes are right.
abbrev pub IsTree : Store → ℕ → Tree → Type 0
IsTree s p leaf = p ≡ null
IsTree s p (node a d l r) =
    (p ≡ a)
    × (0 < a)
    × (s.is_live a ≡ true)
    × ((s.node a).data_ptr ≡ d)
    × ((s.node a).size ≡ count (node a d l r))
    × IsTree s (s.node a).left l
    × IsTree s (s.node a).right r

-- No node stands at two places of the tree.
abbrev pub IsDistinct : Tree → Type 0
IsDistinct leaf = Unit {0}
IsDistinct (node a d l r) =
    (has_node a l ≡ false)
    × (has_node a r ≡ false)
    × ((p : ℕ) → has_node p l ≡ true → has_node p r ≡ false)
    × IsDistinct l
    × IsDistinct r

-- The node at `p` is as it was, but for the hierarchy.
abbrev pub Keeps : Store → Store → ℕ → Type 0
Keeps s w p =
    (s.is_live p ≡ true → w.is_live p ≡ true)
    × ((w.node p).data_ptr ≡ (s.node p).data_ptr)
    × ((w.node p).left ≡ (s.node p).left)
    × ((w.node p).right ≡ (s.node p).right)
    × ((w.node p).size ≡ (s.node p).size)

pub Keeps-trans : (s u w : Store) (p : ℕ) → Keeps s u p → Keeps u w p → Keeps s w p
Keeps-trans s u w p h k = (λ l. k.0 (h.0 l), k.1 ∙ h.1, k.2 ∙ h.2, k.3 ∙ h.3, k.4 ∙ h.4)

-- A change that keeps the nodes of a tree keeps the tree.
pub IsTree-Keeps :
    (s w : Store) (p : ℕ) (t : Tree)
    → ((q : ℕ) → has_node q t ≡ true → Keeps s w q)
    → IsTree s p t
    → IsTree w p t
IsTree-Keeps s w p leaf k h = h
IsTree-Keeps s w p (node a d l r) k h =
    let (live, data_kept, left_kept, right_kept, size_kept) = k a (rw (eq_self a) refl) in
    (
      h.0,
      h.1,
      live h.2,
      data_kept ∙ h.3,
      size_kept ∙ h.4,
      rw left_kept (IsTree-Keeps s w (s.node a).left l (λ q m. k q (ground arith)) h.5),
      rw right_kept (IsTree-Keeps s w (s.node a).right r (λ q m. k q (ground arith)) h.6),
    )

pub h_tree_size-IsTree :
    (s : Store) (p : ℕ) (t : Tree) → IsTree s p t → h_tree_size p s ≡ ok (count t) s
unfolding h_tree_size load
h_tree_size-IsTree s p leaf h = rw h refl
h_tree_size-IsTree s p (node a d l r) h =
    let nonzero : (a == 0) ≡ false = ground arith in rw (h.0, nonzero, h.2, h.4) refl

pub Keeps-with_node :
    (s : Store) (a p : ℕ) (n : Node) → (p == a) ≡ false → Keeps s (with_node s a n) p
Keeps-with_node s a p n ne = (λ l. l, rw ne refl, rw ne refl, rw ne refl, rw ne refl)

has_node-ne : (a q : ℕ) (t : Tree) → has_node a t ≡ false → has_node q t ≡ true → (q == a) ≡ false
has_node-ne a q t out m = elim (Bool-cases (q == a)) [
  | inl e ↦
      let same : q ≡ a = ground arith in
      let inside = subst (λ z. has_node z t ≡ true) same m in absurd (ground (arith, inside))
  | inr e ↦ e
]

-- A node that is no part of a tree may change.
pub IsTree-with_node :
    (s : Store) (a p : ℕ) (n : Node) (t : Tree)
    → has_node a t ≡ false
    → IsTree s p t
    → IsTree (with_node s a n) p t
IsTree-with_node s a p n t out h =
    IsTree-Keeps s (with_node s a n) p t (λ q m. Keeps-with_node s a q n (has_node-ne a q t out m))
      h

pub update_size-IsTree :
    (s : Store) (a : ℕ) (l r : Tree)
    → s.is_live a ≡ true
    → IsTree s (s.node a).left l
    → IsTree s (s.node a).right r
    → 1 + count l + count r < 2 ^ 32
    → update_size a s ≡ ok tt (with_node s a (record (s.node a) { size = 1 + count l + count r }))
unfolding update_size load modify
update_size-IsTree s a l r live hl hr small =
    let fits : (1 + count l + count r) % 2 ^ 32 ≡ 1 + count l + count r = omega arith in
    simp
      (
        live,
        h_tree_size-IsTree s (s.node a).left l hl,
        h_tree_size-IsTree s (s.node a).right r hr,
        fits,
      )
      refl

pub IsTree-is_live :
    (s : Store) (p q : ℕ) (t : Tree) → IsTree s p t → has_node q t ≡ true → s.is_live q ≡ true
IsTree-is_live s p q leaf h m = absurd (ground arith)
IsTree-is_live s p q (node a d l r) h m = elim (Bool-cases (q == a)) [
  | inl e ↦ let same : a ≡ q = ground arith in subst (λ z. s.is_live z ≡ true) same h.2
  | inr e ↦ elim (Bool-cases (has_node q l)) [
    | inl i ↦ IsTree-is_live s (s.node a).left q l h.5 i
    | inr i ↦ IsTree-is_live s (s.node a).right q r h.6 (ground arith)
  ]
]
