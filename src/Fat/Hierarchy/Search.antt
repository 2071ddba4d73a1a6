-- ===== src/Fat/Hierarchy/Search.antt =====
-- h_tree_search finds what h_tree_insert put into the tree.
use famaf_unc.Fat.NodeStore.{Store, ok, load}
use famaf_unc.Fat.Hierarchy.{null, h_tree_insert, h_tree_search, Comparison}
use famaf_unc.Fat.Hierarchy.Shape.{Tree, leaf, node, count, IsTree, IsDistinct}
use famaf_unc.Fat.Hierarchy.Links.{CanInsert}
use famaf_unc.Fat.Hierarchy.Insert.{
  insert_tree, count-insert_tree, h_tree_insert-IsTree, Ordering-cases,
}
use Prim.Native.Nat.{Ordering}
use Prim.Native.Nat.Ordering.{lt, eq, gt}
use famaf_unc.Base.{
  ℕ, zero, suc, ◌<◌, ◌≡◌, ◌^◌, refl, ap, ◌∙◌, false, Option, none, some, arith, ◌==◌, inl, inr,
}

-- The node that a search for the key `k` reaches.
unfoldable pub find : Comparison → (k : ℕ) → Tree → Option ℕ
find cmp_key k leaf = none
find cmp_key k (node a x l r) = elim (cmp_key x k) [
  | lt ↦ find cmp_key k r
  | gt ↦ find cmp_key k l
  | eq ↦ some a
]

abbrev pub address_of : Option ℕ → ℕ
address_of none = null
address_of (some a) = a

abbrev pub opposite : Ordering → Ordering
opposite lt = gt
opposite gt = lt
opposite eq = eq

-- The new node where nothing was found, if its data have the key.
abbrev pub or_new : Ordering → (new : ℕ) → Option ℕ → Option ℕ
or_new o new (some a) = some a
or_new lt new none = none
or_new gt new none = none
or_new eq new none = some new

pub h_tree_search-IsTree :
    (cmp_key : Comparison) (fuel k : ℕ) (t : Tree) (s : Store) (p : ℕ)
    → (k == null) ≡ false
    → IsTree s p t
    → count t < fuel
    → h_tree_search cmp_key fuel p k s ≡ ok (address_of (find cmp_key k t)) s
unfolding h_tree_search find load
h_tree_search-IsTree cmp_key zero k t s p some_key h f = absurd (omega arith)
h_tree_search-IsTree cmp_key (suc fuel) k leaf s p some_key h f =
    rw h (simp (some_key, h_tree_search, find) refl)
h_tree_search-IsTree cmp_key (suc fuel) k (node a x l r) s p some_key h f =
    let some_root : (a == null) ≡ false = let pos : 0 < a = h.1 in ground arith in
    let go_right =
      h_tree_search-IsTree cmp_key fuel k r s (s.node a).right some_key h.6 (omega arith) in
    let go_left =
      h_tree_search-IsTree cmp_key fuel k l s (s.node a).left some_key h.5 (omega arith) in
    rw h.0 (elim (Ordering-cases (cmp_key x k)) [
      | inl e ↦ simp (some_key, h_tree_search, find, some_root, h.2, h.3, e, go_left) refl
      | inr (inl e) ↦ simp (some_key, h_tree_search, find, some_root, h.2, h.3, e, go_right) refl
      | inr (inr e) ↦ simp (some_key, h_tree_search, find, some_root, h.2, h.3, e) refl
    ])

-- A comparison of data with the key of `d` is one with `d`.
abbrev pub Agrees : (cmp cmp_key : Comparison) → (d k : ℕ) → Type 0
Agrees cmp cmp_key d k = cmp_key d k ≡ eq → (x : ℕ) → cmp_key x k ≡ opposite (cmp d x)

find-insert_tree :
    (cmp cmp_key : Comparison) (new d k : ℕ) (t : Tree)
    → Agrees cmp cmp_key d k
    → find cmp_key k (insert_tree cmp new d t) ≡ or_new (cmp_key d k) new (find cmp_key k t)
unfolding find insert_tree
find-insert_tree cmp cmp_key new d k leaf g = ground arith
find-insert_tree cmp cmp_key new d k (node a x l r) g = ground (
  arith,
  find-insert_tree cmp cmp_key new d k l g,
  find-insert_tree cmp cmp_key new d k r g,
  λ (e : cmp_key d k ≡ eq). g e x,
)

-- After an insertion as in h_tree_insert-IsTree, and with a comparison of data with keys that agrees with the one of
-- data, a search with more fuel than nodes for any key but NULL finds the node that it found before; where it
-- found none, it finds the new node if its data have the key, and none if not.
h_tree_search-insert :
    (cmp cmp_key : Comparison) (fuel d hp : ℕ) (t : Tree) (s : Store) (p : ℕ)
    → (d == null) ≡ false
    → IsTree s p t
    → IsDistinct t
    → CanInsert s hp
    → suc (count t) < fuel
    → suc (count t) < 2 ^ 32
    → (q : ℕ) × (w : Store) × (h_tree_insert cmp fuel p d hp s ≡ ok q w)
      × ((k : ℕ)
          → (k == null) ≡ false
          → Agrees cmp cmp_key d k
          → h_tree_search cmp_key fuel q k w
            ≡ ok (address_of (or_new (cmp_key d k) s.next (find cmp_key k t))) w)
h_tree_search-insert cmp cmp_key fuel d hp t s p some_data h u c f small =
    let (q, w, run, tree, _) =
      h_tree_insert-IsTree cmp fuel d hp t s p some_data h u c (omega arith) small in
    (
      q,
      w,
      run,
      λ k some_key g.
          h_tree_search-IsTree cmp_key fuel k (insert_tree cmp s.next d t) w q some_key tree
            (omega (arith, count-insert_tree cmp s.next d t))
          ∙ ap (λ r. ok (address_of r) w) (find-insert_tree cmp cmp_key s.next d k t g),
    )
