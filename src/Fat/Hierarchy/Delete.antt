-- ===== src/Fat/Hierarchy/Delete.antt =====
-- delete_root on a root with two children whose right child has a left child with a left child.
use famaf_unc.Fat.Hierarchy.Shape.{Tree, IsTree, node, leaf}
use famaf_unc.Fat.NodeStore.{Node, Store, ok, load, modify, with_node, destroy, free}
use famaf_unc.Fat.Hierarchy.{
  null, shrink, swap_nodes, delete_root, find_minimum, destroy, is_minimum, free,
}
use famaf_unc.Base.{
  ℕ, ◌≡◌, refl, ap, ◌∙◌, true, false, ◌∷◌, arith, ◌==◌, inl, inr, eq_self, subst, sym, suc, updated,
}
use famaf_unc.Fat.Hierarchy.Swap.{
  SameLinks, SameLinks-trans, shrink-SameLinks, Swapped, swap_nodes-Swapped,
}

-- The nodes on the way: the root `a` with its children `l` and `r`, the left child `b` of `r`, and the left child
-- `m` of `b`, which has no children and is the minimum on the right.
pub record IsDeep (s : Store) (a l r b m : ℕ) : Type 0 where
  pub live :
      (s.is_live a ≡ true)
      × (s.is_live l ≡ true)
      × (s.is_live r ≡ true)
      × (s.is_live b ≡ true)
      × (s.is_live m ≡ true)
  pub some_data : ((s.node a).data_ptr == null) ≡ false
  pub left_of_a : (s.node a).left ≡ l
  pub right_of_a : (s.node a).right ≡ r
  pub left_of_r : (s.node r).left ≡ b
  pub left_of_b : (s.node b).left ≡ m
  pub left_of_m : (s.node m).left ≡ null
  pub right_of_m : (s.node m).right ≡ null
  pub not_null :
      ((l == null) ≡ false) × ((r == null) ≡ false) × ((b == null) ≡ false) × ((m == null) ≡ false)
  pub a_apart : ((a == l) ≡ false) × ((a == r) ≡ false) × ((a == b) ≡ false) × ((a == m) ≡ false)
  pub others_apart : ((r == b) ≡ false) × ((r == m) ≡ false) × ((b == m) ≡ false)

-- What is left then.
pub record IsCycle (s w : Store) (a r b m : ℕ) : Type 0 where
  pub left_of_m : (w.node m).left ≡ null
  pub right_of_m : (w.node m).right ≡ r
  pub left_of_r : (w.node r).left ≡ b
  pub left_of_b : (w.node b).left ≡ m
  pub destroyed : w.destroyed ≡ (s.node a).data_ptr ∷ (s.node a).data_ptr ∷ s.destroyed

is_minimum-left : (n : Node) (p : ℕ) → n.left ≡ p → is_minimum n ≡ (p == null)
unfolding is_minimum
is_minimum-left n p e = ap (λ z. z == null) e

find_minimum-step :
    (fuel : ℕ) (s : Store) (r b m : ℕ)
    → s.is_live b ≡ true
    → s.is_live m ≡ true
    → (s.node b).left ≡ m
    → (m == null) ≡ false
    → (s.node m).left ≡ null
    → (w : Store) × (find_minimum (suc (suc fuel)) b r s ≡ ok (m, m) w) × SameLinks s w
unfolding find_minimum load
find_minimum-step fuel s r b m live_b live_m e ne last =
    let (w, run, same) = shrink-SameLinks s m live_m in
    let inner = is_minimum-left (s.node b) m e ∙ ne in
    let outer = is_minimum-left (w.node m) null (same.left m ∙ last) in
    let live = same.is_live m ∙ live_m in (w, simp (live_b, inner, e, run, live, outer) refl, same)

delete_root-leaf :
    (fuel : ℕ) (s : Store) (a : ℕ)
    → s.is_live a ≡ true
    → ((s.node a).data_ptr == null) ≡ false
    → (s.node a).left ≡ null
    → delete_root (suc fuel) a s
      ≡ ok (s.node a).right (record s {
        is_live = updated s.is_live a false;
        destroyed = (s.node a).data_ptr ∷ s.destroyed;
      })
unfolding delete_root load destroy free
delete_root-leaf fuel s a live some_data e = simp (live, some_data, e) refl

-- The store behind each call on the way.
module _ (fuel : ℕ) (s s2 s3 s4 : Store) (a l r b m : ℕ) (h : IsDeep s a l r b m) where
  abbrev last_store : Store
  last_store =
      let s5 : Store = record s4 {
        is_live = updated s4.is_live a false;
        destroyed = (s4.node a).data_ptr ∷ s4.destroyed;
      } in
      with_node s5 m (record (s4.node m) { left = null })

  delete_root-run :
      shrink r (record s { destroyed = (s.node a).data_ptr ∷ s.destroyed }) ≡ ok tt s2
      → find_minimum (suc (suc fuel)) b r s2 ≡ ok (m, m) s3
      → swap_nodes a m s3 ≡ ok tt s4
      → s4.is_live a ≡ true
      → s4.is_live m ≡ true
      → ((s4.node a).data_ptr == null) ≡ false
      → (s4.node a).left ≡ null
      → (s4.node a).right ≡ null
      → delete_root (suc (suc (suc fuel))) a s ≡ ok m last_store
  unfolding delete_root load destroy modify
  delete_root-run shrunk found swap live_a live_m some_data no_left no_right =
      let emptied = delete_root-leaf (suc fuel) s4 a live_a some_data no_left in
      let apart : (m == a) ≡ false = let ne = h.a_apart.3 in ground arith in
      let deep = is_minimum-left (s.node r) b h.left_of_r ∙ h.not_null.2 in
      simp
        (
          h.live.0, h.some_data, deep, h.left_of_a, h.right_of_a, h.not_null.0, h.not_null.1,
          h.live.2, h.left_of_r, h.not_null.2, shrunk, found, swap, emptied, no_right, apart,
          live_m,
        )
        refl

  delete_root-left :
      SameLinks (record s { destroyed = (s.node a).data_ptr ∷ s.destroyed }) s3
      → Swapped a m s3 s4
      → IsCycle s last_store a r b m
  delete_root-left same swapped =
      let ra : (r == a) ≡ false = let ne = h.a_apart.1 in ground arith in
      let ba : (b == a) ≡ false = let ne = h.a_apart.2 in ground arith in
      record {
        left_of_m = rw (eq_self m) refl;
        right_of_m = rw (eq_self m) (swapped.at_m.1 ∙ same.right a ∙ h.right_of_a);
        left_of_r =
            rw h.others_apart.1 (swapped.left r ra h.others_apart.1 ∙ same.left r ∙ h.left_of_r);
        left_of_b =
            rw h.others_apart.2 (swapped.left b ba h.others_apart.2 ∙ same.left b ∙ h.left_of_b);
        destroyed =
            ap (λ d. d ∷ s4.destroyed) (swapped.data_ptr a ∙ same.data_ptr a)
            ∙ ap (λ ds. (s.node a).data_ptr ∷ ds) (swapped.destroyed ∙ same.destroyed);
      }

delete_root-IsCycle :
    (fuel : ℕ) (s : Store) (a l r b m : ℕ)
    → IsDeep s a l r b m
    → (w : Store) × (delete_root (suc (suc (suc fuel))) a s ≡ ok m w) × IsCycle s w a r b m
delete_root-IsCycle fuel s a l r b m h =
    let s1 : Store = record s { destroyed = (s.node a).data_ptr ∷ s.destroyed } in
    let (s2, shrunk, same1) = shrink-SameLinks s1 r h.live.2 in
    let (s3, found, same2) =
      find_minimum-step fuel s2 r b m (same1.is_live b ∙ h.live.3) (same1.is_live m ∙ h.live.4)
        (same1.left b ∙ h.left_of_b) h.not_null.3 (same1.left m ∙ h.left_of_m) in
    let same = SameLinks-trans s1 s2 s3 same1 same2 in
    let (s4, swap, swapped) =
      swap_nodes-Swapped s3 a m h.a_apart.3 (same.is_live a ∙ h.live.0) (same.is_live m ∙ h.live.4)
        (inr (ap s3.is_live (same.left a ∙ h.left_of_a) ∙ same.is_live l ∙ h.live.1))
        (inr (ap s3.is_live (same.right a ∙ h.right_of_a) ∙ same.is_live r ∙ h.live.2))
        (inl (same.left m ∙ h.left_of_m)) (inl (same.right m ∙ h.right_of_m)) in
    (
      last_store fuel s s2 s3 s4 a l r b m h,
      delete_root-run fuel s s2 s3 s4 a l r b m h shrunk found swap
          (swapped.is_live a ∙ same.is_live a ∙ h.live.0)
          (swapped.is_live m ∙ same.is_live m ∙ h.live.4)
          (ap (λ z. z == null) (swapped.data_ptr a ∙ same.data_ptr a) ∙ h.some_data)
          (swapped.at_a.0 ∙ same.left m ∙ h.left_of_m)
          (swapped.at_a.1 ∙ same.right m ∙ h.right_of_m),
      delete_root-left fuel s s2 s3 s4 a l r b m h same swapped,
    )

-- A cycle is no tree.
IsCycle-no_tree :
    (s w : Store) (a r b m : ℕ)
    → IsCycle s w a r b m
    → (m == null) ≡ false
    → (r == null) ≡ false
    → (b == null) ≡ false
    → (t : Tree) → ¬ IsTree w m t
IsCycle-no_tree s w a r b m c nm nr nb leaf h = ground arith
IsCycle-no_tree s w a r b m c nm nr nb (node x d t leaf) h =
    let none_right : r ≡ null = sym c.right_of_m ∙ ap (λ z. (w.node z).right) h.0 ∙ h.6 in
    ground arith
IsCycle-no_tree s w a r b m c nm nr nb (node x d t (node y e leaf v)) h =
    let at_r : r ≡ y = sym c.right_of_m ∙ ap (λ z. (w.node z).right) h.0 ∙ h.6.0 in
    let none_left : b ≡ null = sym c.left_of_r ∙ ap (λ z. (w.node z).left) at_r ∙ h.6.5 in
    ground arith
IsCycle-no_tree s w a r b m c nm nr nb (node x d t (node y e (node z f below u) v)) h =
    let at_r : r ≡ y = sym c.right_of_m ∙ ap (λ z. (w.node z).right) h.0 ∙ h.6.0 in
    let at_b : b ≡ z = sym c.left_of_r ∙ ap (λ z. (w.node z).left) at_r ∙ h.6.5.0 in
    let back : m ≡ (w.node z).left = sym c.left_of_b ∙ ap (λ z. (w.node z).left) at_b in
    IsCycle-no_tree s w a r b m c nm nr nb below (subst (λ z. IsTree w z below) (sym back) h.6.5.5)

-- When delete_root deletes a live node with two children, whose right child has a left child that has a left child
-- without children, it ends and returns that last node; but no tree is left below it: its right child is the
-- right child of the deleted node, the left links lead from there back to the node itself, and its left child
-- is NULL, where the deleted node had one. The data of the deleted node have been destroyed twice.
pub delete_root-no_tree :
    (fuel : ℕ) (s : Store) (a l r b m : ℕ)
    → IsDeep s a l r b m
    → (w : Store) × (delete_root (suc (suc (suc fuel))) a s ≡ ok m w)
      × ((t : Tree) → ¬ IsTree w m t)
      × ((w.node m).right ≡ r)
      × ((w.node r).left ≡ b)
      × ((w.node b).left ≡ m)
      × ((w.node m).left ≡ null)
      × (w.destroyed ≡ (s.node a).data_ptr ∷ (s.node a).data_ptr ∷ s.destroyed)
delete_root-no_tree fuel s a l r b m h =
    let (w, run, c) = delete_root-IsCycle fuel s a l r b m h in
    (
      w,
      run,
      IsCycle-no_tree s w a r b m c h.not_null.3 h.not_null.1 h.not_null.2,
      c.right_of_m,
      c.left_of_r,
      c.left_of_b,
      c.left_of_m,
      c.destroyed,
    )
