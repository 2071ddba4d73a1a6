-- ===== src/Fat/Hierarchy/Insert.antt =====
-- h_tree_insert puts a new node where a search for its data ends.
use famaf_unc.Fat.NodeStore.{Store, ok, load, modify}
use famaf_unc.Fat.Hierarchy.{null, h_tree_insert, Comparison}
use famaf_unc.Fat.Hierarchy.Shape.{
  Tree, leaf, node, count, has_node, IsTree, IsDistinct, Keeps, Keeps-trans, IsTree-Keeps,
  IsTree-is_live,
}
use Prim.Native.Nat.{Ordering}
use Prim.Native.Nat.Ordering.{lt, eq, gt}
use famaf_unc.Fat.Hierarchy.Links.{resized, relinked, h_node_init-IsTree, next-ne, CanInsert}
use famaf_unc.Base.{
  ℕ, zero, suc, ◌≤◌, ◌<◌, ◌≡◌, ◌^◌, refl, sym, subst, ◌∙◌, true, false, arith, ◌==◌, Bool-cases,
  inl, inr, ◌⊎◌,
}

-- The insertion on trees, with the address of the new node.
unfoldable pub insert_tree : Comparison → (new d : ℕ) → Tree → Tree
insert_tree cmp new d leaf = node new d leaf leaf
insert_tree cmp new d (node a x l r) = elim (cmp d x) [
  | gt ↦ node a x l (insert_tree cmp new d r)
  | lt ↦ node a x (insert_tree cmp new d l) r
  | eq ↦ node a x l r
]

module _ (cmp : Comparison) (new d a x : ℕ) (l r : Tree) where
  insert_tree-gt :
      cmp d x ≡ gt → insert_tree cmp new d (node a x l r) ≡ node a x l (insert_tree cmp new d r)
  unfolding insert_tree
  insert_tree-gt e = rw (e, insert_tree) refl

  insert_tree-lt :
      cmp d x ≡ lt → insert_tree cmp new d (node a x l r) ≡ node a x (insert_tree cmp new d l) r
  unfolding insert_tree
  insert_tree-lt e = rw (e, insert_tree) refl

  insert_tree-eq : cmp d x ≡ eq → insert_tree cmp new d (node a x l r) ≡ node a x l r
  unfolding insert_tree
  insert_tree-eq e = rw (e, insert_tree) refl

has_node-insert_tree :
    (cmp : Comparison) (new d z : ℕ) (t : Tree)
    → has_node z t ≡ false
    → (z == new) ≡ false
    → has_node z (insert_tree cmp new d t) ≡ false
unfolding insert_tree
has_node-insert_tree cmp new d z leaf h ne = rw ne refl
has_node-insert_tree cmp new d z (node a x l r) h ne =
    ground (arith, has_node-insert_tree cmp new d z l, has_node-insert_tree cmp new d z r)

pub count-insert_tree :
    (cmp : Comparison) (new d : ℕ) (t : Tree) → count (insert_tree cmp new d t) ≤ suc (count t)
unfolding insert_tree
count-insert_tree cmp new d leaf = omega arith
count-insert_tree cmp new d (node a x l r) =
    ground (arith, count-insert_tree cmp new d l, count-insert_tree cmp new d r)

pub Ordering-cases : (o : Ordering) → (o ≡ gt) ⊎ ((o ≡ lt) ⊎ (o ≡ eq))
Ordering-cases gt = inl refl
Ordering-cases lt = inr (inl refl)
Ordering-cases eq = inr (inr refl)

-- The outcome of an insertion into the tree `t` of the store `s`.
abbrev Inserts : Comparison → (fuel p d hp : ℕ) → Store → Tree → Type 0
Inserts cmp fuel p d hp s t =
    (q : ℕ) × (w : Store) × (h_tree_insert cmp fuel p d hp s ≡ ok q w)
    × IsTree w q (insert_tree cmp s.next d t)
    × ((z : ℕ) → has_node z t ≡ false → (z == s.next) ≡ false → Keeps s w z)

module _ (cmp : Comparison) (fuel a x d hp : ℕ) (l r : Tree) (s : Store) (c : CanInsert s hp)
    (some_data : (d == null) ≡ false) (h : IsTree s a (node a x l r))
    (u : IsDistinct (node a x l r)) (small : suc (count (node a x l r)) < 2 ^ 32) where
  some_root : (a == null) ≡ false
  some_root = let pos : 0 < a = h.1 in ground arith

  outside_of_node :
      (z : ℕ)
      → has_node z (node a x l r) ≡ false
      → ((z == a) ≡ false) × (has_node z l ≡ false) × (has_node z r ≡ false)
  outside_of_node z out = ground arith

  insert_right :
      cmp d x ≡ gt
      → Inserts cmp fuel (s.node a).right d hp s r
      → Inserts cmp (suc fuel) a d hp s (node a x l r)
  unfolding h_tree_insert insert_tree load modify
  insert_right e (q, w, run, tree, keeps) =
      let not_new = next-ne s a c h.2 in
      let (live_kept, data_kept, left_kept, _, _) = keeps a u.1 not_new in
      let left_tree =
        IsTree-Keeps s w (s.node a).left l
          (λ z m. keeps z (u.2 z m) (next-ne s z c (IsTree-is_live s (s.node a).left z l h.5 m)))
          h.5 in
      let (v, relink, whole, others, _) =
        relinked w a x (record (w.node a) { right = q }) l (insert_tree cmp s.next d r) h.1
          (live_kept h.2) (data_kept ∙ h.3) u.0 (has_node-insert_tree cmp s.next d a r u.1 not_new)
          (rw left_kept left_tree) tree (omega (arith, count-insert_tree cmp s.next d r)) in
      (
        a,
        v,
        simp (some_data, h_tree_insert, some_root, h.2, h.3, e, run, live_kept h.2, relink) refl,
        subst (IsTree v a) (sym (insert_tree-gt cmp s.next d a x l r e)) whole,
        λ z out ne.
            let (za, zl, zr) = outside_of_node z out in
            Keeps-trans s w v z (keeps z zr ne) (others z za),
      )

  swapped : (z : ℕ) → has_node z r ≡ true → has_node z l ≡ false
  swapped z m = elim (Bool-cases (has_node z l)) [
    | inl i ↦ absurd (ground (arith, u.2 z i))
    | inr i ↦ i
  ]

  insert_left :
      cmp d x ≡ lt
      → Inserts cmp fuel (s.node a).left d hp s l
      → Inserts cmp (suc fuel) a d hp s (node a x l r)
  unfolding h_tree_insert insert_tree load modify
  insert_left e (q, w, run, tree, keeps) =
      let not_new = next-ne s a c h.2 in
      let (live_kept, data_kept, _, right_kept, _) = keeps a u.0 not_new in
      let right_tree =
        IsTree-Keeps s w (s.node a).right r
          (λ z m.
            keeps z (swapped z m) (next-ne s z c (IsTree-is_live s (s.node a).right z r h.6 m)))
          h.6 in
      let (v, relink, whole, others, _) =
        relinked w a x (record (w.node a) { left = q }) (insert_tree cmp s.next d l) r h.1
          (live_kept h.2) (data_kept ∙ h.3) (has_node-insert_tree cmp s.next d a l u.0 not_new) u.1
          tree (rw right_kept right_tree) (omega (arith, count-insert_tree cmp s.next d l)) in
      (
        a,
        v,
        simp (some_data, h_tree_insert, some_root, h.2, h.3, e, run, live_kept h.2, relink) refl,
        subst (IsTree v a) (sym (insert_tree-lt cmp s.next d a x l r e)) whole,
        λ z out ne.
            let (za, zl, zr) = outside_of_node z out in
            Keeps-trans s w v z (keeps z zl ne) (others z za),
      )

  insert_here : cmp d x ≡ eq → Inserts cmp (suc fuel) a d hp s (node a x l r)
  unfolding h_tree_insert insert_tree load modify
  insert_here e =
      let (v, resize, whole, others, _) =
        resized s a x l r h.1 h.2 h.3 u.0 u.1 h.5 h.6 (omega arith) in
      (
        a,
        v,
        simp (some_data, h_tree_insert, some_root, h.2, h.3, e, resize) refl,
        subst (IsTree v a) (sym (insert_tree-eq cmp s.next d a x l r e)) whole,
        λ z out ne. others z (outside_of_node z out).0,
      )

-- Fewer than 2 ^ 32 nodes form a tree in the store, none of them at two places; some data are given, the address of
-- the next node is free, the parent in the hierarchy is none or a node, and the fuel is more than the number of
-- nodes. Then h_tree_insert ends, the nodes below its result form the tree in which the data are inserted, by the
-- new node, where a search for them ends, or the same tree if they are there; all sizes are right, and no other
-- node has changed but for the hierarchy.
pub h_tree_insert-IsTree :
    (cmp : Comparison) (fuel d hp : ℕ) (t : Tree) (s : Store) (p : ℕ)
    → (d == null) ≡ false
    → IsTree s p t
    → IsDistinct t
    → CanInsert s hp
    → count t < fuel
    → suc (count t) < 2 ^ 32
    → (q : ℕ) × (w : Store) × (h_tree_insert cmp fuel p d hp s ≡ ok q w)
      × IsTree w q (insert_tree cmp s.next d t)
      × ((z : ℕ) → has_node z t ≡ false → (z == s.next) ≡ false → Keeps s w z)
unfolding h_tree_insert insert_tree
h_tree_insert-IsTree cmp zero d hp t s p some_data h u c f small = absurd (omega arith)
h_tree_insert-IsTree cmp (suc fuel) d hp leaf s p some_data h u c f small =
    let (w, run, tree, keeps, _) = h_node_init-IsTree s d hp c in
    (s.next, w, rw h (simp (some_data, h_tree_insert) run), tree, λ z out ne. keeps z ne)
h_tree_insert-IsTree cmp (suc fuel) d hp (node a x l r) s p some_data h u c f small =
    let at_root : IsTree s a (node a x l r) = (refl, h.1, h.2, h.3, h.4, h.5, h.6) in
    subst (λ z. Inserts cmp (suc fuel) z d hp s (node a x l r)) (sym h.0)
      (elim (Ordering-cases (cmp d x)) [
        | inl e ↦ insert_right cmp fuel a x d hp l r s c some_data at_root u small e (
            h_tree_insert-IsTree cmp fuel d hp r s (s.node a).right some_data h.6 u.4 c
              (omega arith) (omega arith))
        | inr (inl e) ↦ insert_left cmp fuel a x d hp l r s c some_data at_root u small e (
            h_tree_insert-IsTree cmp fuel d hp l s (s.node a).left some_data h.5 u.3 c (omega arith)
              (omega arith))
        | inr (inr e) ↦ insert_here cmp fuel a x d hp l r s c some_data at_root u small e
      ])
