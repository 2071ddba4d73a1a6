-- ===== src/Fat/Hierarchy/Freed.antt =====
-- h_tree_delete frees the node that has the key, whatever becomes of the others.
use famaf_unc.Fat.NodeStore.{
  Node, Store, Cmd, Run, ok, fault, out_of_fuel, and_then, load, modify, free, pure, ◌>>◌,
}
use famaf_unc.Fat.Hierarchy.{
  null, update_size, h_tree_size, delete_root, h_tree_delete, is_minimum, Comparison,
  remove_child_from_h, shrink, find_minimum, swap_nodes,
}
use famaf_unc.Fat.Hierarchy.Shape.{Tree, leaf, node, IsTree}
use famaf_unc.Fat.Hierarchy.Search.{find}
use famaf_unc.Fat.Hierarchy.Insert.{Ordering-cases}
use Prim.Native.Nat.Ordering.{lt, eq, gt}
use famaf_unc.Base.{
  ℕ, zero, suc, ◌≡◌, ◌<◌, refl, sym, ap, subst, ◌∙◌, Bool, if◌then◌else◌, ◌||◌, true, false, some,
  arith, ◌==◌, Bool-cases, inl, inr, eq_self,
}

-- Where the run ends, its store has the property.
abbrev pub Ends : {A : Type 0} → (Store → Type 0) → Run A → Type 0
Ends P (ok a w) = P w
Ends P fault = Unit {0}
Ends P out_of_fuel = Unit {0}

abbrev pub IsFreed : ℕ → Store → Type 0
IsFreed p s = s.is_live p ≡ false

Ends-after :
    {A B : Type 0} (P : Store → Type 0) (r : Run A) (k : A → Cmd B)
    → ((a : A) (w : Store) → Ends P (k a w))
    → Ends P (and_then r k)
Ends-after P (ok a w) k h = h a w
Ends-after P fault k h = tt
Ends-after P out_of_fuel k h = tt

pub Ends-then :
    {A B : Type 0} (P : Store → Type 0) (r : Run A) (k : A → Cmd B)
    → Ends P r
    → ((a : A) (w : Store) → P w → Ends P (k a w))
    → Ends P (and_then r k)
Ends-then P (ok a w) k e h = h a w e
Ends-then P fault k e h = tt
Ends-then P out_of_fuel k e h = tt

load-keeps : (p q : ℕ) (s : Store) → IsFreed p s → Ends (IsFreed p) (load q s)
unfolding load
load-keeps p q s h = elim (Bool-cases (s.is_live q)) [ inl e ↦ rw e h | inr e ↦ rw e tt ]

modify-keeps :
    (p q : ℕ) (f : Node → Node) (s : Store) → IsFreed p s → Ends (IsFreed p) (modify q f s)
unfolding modify
modify-keeps p q f s h = elim (Bool-cases (s.is_live q)) [ inl e ↦ rw e h | inr e ↦ rw e tt ]

free-IsFreed : (p : ℕ) (s : Store) → Ends (IsFreed p) (free p s)
unfolding free
free-IsFreed p s = elim (Bool-cases (s.is_live p)) [
  | inl e ↦ rw e (rw (eq_self p) refl)
  | inr e ↦ rw e tt
]

Ends-if :
    {A : Type 0} (P : Store → Type 0) (b : Bool) (m n : Cmd A) (s : Store)
    → Ends P (m s)
    → Ends P (n s)
    → Ends P ((if b then m else n) s)
Ends-if P true m n s h k = h
Ends-if P false m n s h k = k

h_tree_size-keeps : (p q : ℕ) (s : Store) → IsFreed p s → Ends (IsFreed p) (h_tree_size q s)
unfolding h_tree_size
h_tree_size-keeps p q s h =
    Ends-if (IsFreed p) (q == null) _ _ s h
      (Ends-then (IsFreed p) (load q s) _ (load-keeps p q s h) λ n w g. g)

update_size-keeps : (p q : ℕ) (s : Store) → IsFreed p s → Ends (IsFreed p) (update_size q s)
unfolding update_size
update_size-keeps p q s h = Ends-then (IsFreed p) (load q s) _ (load-keeps p q s h) λ n s1 h1.
    Ends-then (IsFreed p) (h_tree_size n.left s1) _ (h_tree_size-keeps p n.left s1 h1) λ l s2 h2.
      Ends-then (IsFreed p) (h_tree_size n.right s2) _ (h_tree_size-keeps p n.right s2 h2)
        λ r s3 h3. modify-keeps p q _ s3 h3

-- The links of a node are set, its size is counted again, and a pointer is returned.
relinked-keeps :
    (p q x : ℕ) (f : Node → Node) (s : Store)
    → IsFreed p s
    → Ends (IsFreed p) ((modify q f >> (update_size q >> pure x)) s)
relinked-keeps p q x f s h =
    Ends-then (IsFreed p) (modify q f s) _ (modify-keeps p q f s h) λ a s1 h1.
      Ends-then (IsFreed p) (update_size q s1) _ (update_size-keeps p q s1 h1) λ b s2 h2. h2

IsFreed-pure : (p x : ℕ) (s : Store) → Ends (IsFreed p) ((free p >> pure x) s)
IsFreed-pure p x s = Ends-then (IsFreed p) (free p s) _ (free-IsFreed p s) λ a w h. h

-- What follows the inner call of delete_root.
put_back-keeps :
    (p minimum minimum_parent : ℕ) (r : Run ℕ)
    → Ends (IsFreed p) r
    → Ends
        (IsFreed p)
        (and_then r λ l. modify minimum_parent (λ m. record m { left = l }) >> pure minimum)
put_back-keeps p minimum minimum_parent r h = Ends-then (IsFreed p) r _ h λ l w freed.
    Ends-then (IsFreed p) (modify minimum_parent (λ m. record m { left = l }) w) _
      (modify-keeps p minimum_parent _ w freed) λ u x g. g

-- Whatever the nodes below it: where delete_root ends, the root that it was given is freed.
delete_root-IsFreed : (fuel root : ℕ) (s : Store) → Ends (IsFreed root) (delete_root fuel root s)
unfolding delete_root
delete_root-IsFreed zero root s = tt
delete_root-IsFreed (suc fuel) root s =
    let P = IsFreed root in
    Ends-after P (load root s) _ λ n s1. Ends-after P _ _ λ a s2.
      Ends-if P (n.left == null || n.right == null) _ _ s2 (IsFreed-pure root _ s2) (
        Ends-after P (load n.right s2) _ λ r s3.
          Ends-if P (is_minimum r) _ _ s3
            (Ends-after P (modify n.right (λ m. record m { left = n.left }) s3) _
              λ b s4. Ends-after P (update_size n.right s4) _ λ d s5. IsFreed-pure root n.right s5)
            (Ends-after P (shrink n.right s3) _ λ b s4.
              Ends-after P (find_minimum fuel r.left n.right s4) _ λ m s5.
                Ends-after P (swap_nodes root m.0 s5) _ λ d s6.
                  put_back-keeps root m.0 m.1 (delete_root fuel root s6)
                    (delete_root-IsFreed fuel root s6)))

module _ (cmp : Comparison) (key a x : ℕ) (l r : Tree) where
  find-left : cmp x key ≡ gt → find cmp key (node a x l r) ≡ find cmp key l
  unfolding find
  find-left e = rw (e, find) refl

  find-right : cmp x key ≡ lt → find cmp key (node a x l r) ≡ find cmp key r
  unfolding find
  find-right e = rw (e, find) refl

  find-here : cmp x key ≡ eq → find cmp key (node a x l r) ≡ some a
  unfolding find
  find-here e = rw (e, find) refl

-- The first call of h_tree_delete, by the answer of the comparison.
module _ (cmp : Comparison) (fuel a key : ℕ) (s : Store) (k : 0 < key) (some_root : 0 < a)
    (live : s.is_live a ≡ true) where
  delete-left :
      cmp (s.node a).data_ptr key ≡ gt
      → h_tree_delete cmp (suc fuel) a key s
        ≡ and_then
            (h_tree_delete cmp fuel (s.node a).left key s)
            (λ l. modify a (λ m. record m { left = l }) >> (update_size a >> pure a))
  unfolding h_tree_delete load
  delete-left e =
      let has_key : (key == null) ≡ false = ground arith in
      let has_root : (a == null) ≡ false = ground arith in
      simp (has_key, has_root, live, e, h_tree_delete) refl

  delete-right :
      cmp (s.node a).data_ptr key ≡ lt
      → h_tree_delete cmp (suc fuel) a key s
        ≡ and_then
            (h_tree_delete cmp fuel (s.node a).right key s)
            (λ r. modify a (λ m. record m { right = r }) >> (update_size a >> pure a))
  unfolding h_tree_delete load
  delete-right e =
      let has_key : (key == null) ≡ false = ground arith in
      let has_root : (a == null) ≡ false = ground arith in
      simp (has_key, has_root, live, e, h_tree_delete) refl

  delete-here :
      cmp (s.node a).data_ptr key ≡ eq
      → h_tree_delete cmp (suc fuel) a key s
        ≡ and_then (remove_child_from_h fuel a s) (λ u. delete_root fuel a)
  unfolding h_tree_delete load
  delete-here e =
      let has_key : (key == null) ≡ false = ground arith in
      let has_root : (a == null) ≡ false = ground arith in
      simp (has_key, has_root, live, e, h_tree_delete) refl

-- Where h_tree_delete ends, the node that a search for the key finds is freed.
pub h_tree_delete-IsFreed :
    (cmp : Comparison) (fuel root key p : ℕ) (t : Tree) (s : Store)
    → IsTree s root t
    → 0 < key
    → find cmp key t ≡ some p
    → Ends (IsFreed p) (h_tree_delete cmp fuel root key s)
unfolding h_tree_delete find
h_tree_delete-IsFreed cmp zero root key p t s h k e = tt
h_tree_delete-IsFreed cmp (suc fuel) root key p leaf s h k e = absurd (ground arith)
h_tree_delete-IsFreed cmp (suc fuel) root key p (node a x l r) s h k e =
    let P = IsFreed p in
    let same_data = ap (λ d. cmp d key) h.3 in
    subst (λ q. Ends P (h_tree_delete cmp (suc fuel) q key s)) (sym h.0)
      (elim (Ordering-cases (cmp x key)) [
        | inl go_left ↦
            let below =
              h_tree_delete-IsFreed cmp fuel (s.node a).left key p l s h.5 k
                (sym (find-left cmp key a x l r go_left) ∙ e) in
            subst (Ends P) (sym (delete-left cmp fuel a key s k h.1 h.2 (same_data ∙ go_left)))
              (Ends-then P _ _ below λ q w freed. relinked-keeps p a a _ w freed)
        | inr (inl go_right) ↦
            let below =
              h_tree_delete-IsFreed cmp fuel (s.node a).right key p r s h.6 k
                (sym (find-right cmp key a x l r go_right) ∙ e) in
            subst (Ends P) (sym (delete-right cmp fuel a key s k h.1 h.2 (same_data ∙ go_right)))
              (Ends-then P _ _ below λ q w freed. relinked-keeps p a a _ w freed)
        | inr (inr here) ↦
            let at : a ≡ p = let same = sym (find-here cmp key a x l r here) ∙ e in ground arith in
            subst (Ends P) (sym (delete-here cmp fuel a key s k h.1 h.2 (same_data ∙ here))) (
              Ends-after P _ _ λ u w.
                subst (λ q. Ends (IsFreed q) (delete_root fuel a w)) at
                  (delete_root-IsFreed fuel a w))
      ])
