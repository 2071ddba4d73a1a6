-- ===== src/Fat/Hierarchy/Swap.antt =====
-- The writes of sizes and links in hierarchy_tree.c, and swap_nodes.
use famaf_unc.Fat.NodeStore.{Store, ok, load, modify, with_node}
use famaf_unc.Fat.Hierarchy.{null, shrink, update_size, h_tree_size, swap_nodes}
use famaf_unc.Base.{
  ℕ, ◌+◌, ◌≡◌, ◌%◌, ◌^◌, refl, ap, ◌∙◌, true, false, arith, ◌==◌, Bool-cases, inl, inr, ◌⊎◌, ◌-◌,
  eq_self, subst, sym,
}

-- Only sizes differ.
pub record SameLinks (s w : Store) : Type 0 where
  pub is_live : (z : ℕ) → w.is_live z ≡ s.is_live z
  pub data_ptr : (z : ℕ) → (w.node z).data_ptr ≡ (s.node z).data_ptr
  pub left : (z : ℕ) → (w.node z).left ≡ (s.node z).left
  pub right : (z : ℕ) → (w.node z).right ≡ (s.node z).right
  pub destroyed : w.destroyed ≡ s.destroyed

pub SameLinks-trans : (s u w : Store) → SameLinks s u → SameLinks u w → SameLinks s w
SameLinks-trans s u w h k = record {
  is_live = λ z. k.is_live z ∙ h.is_live z;
  data_ptr = λ z. k.data_ptr z ∙ h.data_ptr z;
  left = λ z. k.left z ∙ h.left z;
  right = λ z. k.right z ∙ h.right z;
  destroyed = k.destroyed ∙ h.destroyed;
}

size_only :
    (s : Store) (p k z : ℕ)
    → let w = with_node s p (record (s.node p) { size = k }) in
      ((w.node z).data_ptr ≡ (s.node z).data_ptr)
      × ((w.node z).left ≡ (s.node z).left)
      × ((w.node z).right ≡ (s.node z).right)
size_only s p k z = elim (Bool-cases (z == p)) [
  | inl e ↦
      let same : p ≡ z = ground arith in
      (
        rw e (ap (λ i. (s.node i).data_ptr) same),
        rw e (ap (λ i. (s.node i).left) same),
        rw e (ap (λ i. (s.node i).right) same),
      )
  | inr e ↦ (rw e refl, rw e refl, rw e refl)
]

SameLinks-size :
    (s : Store) (p k : ℕ) → SameLinks s (with_node s p (record (s.node p) { size = k }))
SameLinks-size s p k = record {
  is_live = λ z. refl;
  data_ptr = λ z. (size_only s p k z).0;
  left = λ z. (size_only s p k z).1;
  right = λ z. (size_only s p k z).2;
  destroyed = refl;
}

pub shrink-SameLinks :
    (s : Store) (p : ℕ) → s.is_live p ≡ true → (w : Store) × (shrink p s ≡ ok tt w) × SameLinks s w
unfolding shrink modify
shrink-SameLinks s p live = (
  with_node s p (record (s.node p) { size = ((s.node p).size + 2 ^ 32 - 1) % 2 ^ 32 }),
  rw live refl,
  SameLinks-size s p _,
)

abbrev pub NullOrLive : Store → ℕ → Type 0
NullOrLive s p = (p ≡ null) ⊎ (s.is_live p ≡ true)

h_tree_size-NullOrLive : (s : Store) (p : ℕ) → NullOrLive s p → (n : ℕ) × (h_tree_size p s ≡ ok n s)
unfolding h_tree_size load
h_tree_size-NullOrLive s p (inl e) = (0, rw e refl)
h_tree_size-NullOrLive s p (inr e) = elim (Bool-cases (p == null)) [
  | inl z ↦ (0, rw z refl)
  | inr z ↦ ((s.node p).size, simp (z, e) refl)
]

update_size-SameLinks :
    (s : Store) (p : ℕ)
    → s.is_live p ≡ true
    → NullOrLive s (s.node p).left
    → NullOrLive s (s.node p).right
    → (w : Store) × (update_size p s ≡ ok tt w) × SameLinks s w
unfolding update_size load modify
update_size-SameLinks s p live hl hr =
    let (j, l) = h_tree_size-NullOrLive s (s.node p).left hl in
    let (k, r) = h_tree_size-NullOrLive s (s.node p).right hr in
    (
      with_node s p (record (s.node p) { size = (1 + j + k) % 2 ^ 32 }),
      simp (live, l, r) refl,
      SameLinks-size s p _,
    )

-- The children of two nodes have changed places.
pub record Swapped (a m : ℕ) (s w : Store) : Type 0 where
  pub is_live : (z : ℕ) → w.is_live z ≡ s.is_live z
  pub data_ptr : (z : ℕ) → (w.node z).data_ptr ≡ (s.node z).data_ptr
  pub at_m : ((w.node m).left ≡ (s.node a).left) × ((w.node m).right ≡ (s.node a).right)
  pub at_a : ((w.node a).left ≡ (s.node m).left) × ((w.node a).right ≡ (s.node m).right)
  pub left : (z : ℕ) → (z == a) ≡ false → (z == m) ≡ false → (w.node z).left ≡ (s.node z).left
  pub destroyed : w.destroyed ≡ s.destroyed

Swapped-SameLinks : {a m : ℕ} (s u w : Store) → Swapped a m s u → SameLinks u w → Swapped a m s w
Swapped-SameLinks {a} {m} s u w h k = record {
  is_live = λ z. k.is_live z ∙ h.is_live z;
  data_ptr = λ z. k.data_ptr z ∙ h.data_ptr z;
  at_m = (k.left m ∙ h.at_m.0, k.right m ∙ h.at_m.1);
  at_a = (k.left a ∙ h.at_a.0, k.right a ∙ h.at_a.1);
  left = λ z na nm. k.left z ∙ h.left z na nm;
  destroyed = k.destroyed ∙ h.destroyed;
}

abbrev with_links : Store → ℕ → (l r : ℕ) → Store
with_links s p l r = with_node s p (record (s.node p) { left = l; right = r })

data_ptr-with_links :
    (s : Store) (p l r z : ℕ) → ((with_links s p l r).node z).data_ptr ≡ (s.node z).data_ptr
data_ptr-with_links s p l r z = elim (Bool-cases (z == p)) [
  | inl e ↦ let same : p ≡ z = ground arith in rw e (ap (λ i. (s.node i).data_ptr) same)
  | inr e ↦ rw e refl
]

module _ (s : Store) (a m : ℕ) (apart : (a == m) ≡ false) where
  apart' : (m == a) ≡ false
  apart' = ground arith

  abbrev swapped_links : Store
  swapped_links =
      with_links (with_links s a (s.node m).left (s.node m).right) m (s.node a).left
        (s.node a).right

  swapped_links-Swapped : Swapped a m s swapped_links
  swapped_links-Swapped = record {
    is_live = λ z. refl;
    data_ptr = λ z.
        data_ptr-with_links (with_links s a (s.node m).left (s.node m).right) m _ _ z
        ∙ data_ptr-with_links s a _ _ z;
    at_m = (rw (eq_self m) refl, rw (eq_self m) refl);
    at_a = (rw (apart, eq_self a) refl, rw (apart, eq_self a) refl);
    left = λ z na nm. rw (nm, na) refl;
    destroyed = refl;
  }

  pub swap_nodes-Swapped :
      s.is_live a ≡ true
      → s.is_live m ≡ true
      → NullOrLive s (s.node a).left
      → NullOrLive s (s.node a).right
      → NullOrLive s (s.node m).left
      → NullOrLive s (s.node m).right
      → (w : Store) × (swap_nodes a m s ≡ ok tt w) × Swapped a m s w
  unfolding swap_nodes load modify
  swap_nodes-Swapped live_a live_m la ra lm rm =
      let start = swapped_links-Swapped in
      let (u, first, same) =
        update_size-SameLinks swapped_links m live_m
          (subst (NullOrLive swapped_links) (sym start.at_m.0) la)
          (subst (NullOrLive swapped_links) (sym start.at_m.1) ra) in
      let next = Swapped-SameLinks s swapped_links u start same in
      let moved : (p : ℕ) → NullOrLive s p → NullOrLive u p =
        λ p n. elim n [ inl z ↦ inl z | inr l ↦ inr (next.is_live p ∙ l) ] in
      let (w, second, same') =
        update_size-SameLinks u a (next.is_live a ∙ live_a)
          (subst (NullOrLive u) (sym next.at_a.0) (moved (s.node m).left lm))
          (subst (NullOrLive u) (sym next.at_a.1) (moved (s.node m).right rm)) in
      (w, simp (live_a, live_m, first, second) refl, Swapped-SameLinks s u w next same')
