-- ===== src/Fat/Hierarchy/Links.antt =====
-- The writes of a new node and of the links of an old one, and the trees that they make.
use famaf_unc.Fat.NodeStore.{Node, Store, ok, load, modify, alloc, with_node, with_new}
use famaf_unc.Fat.Hierarchy.{null, update_size, h_node_init}
use famaf_unc.Fat.Hierarchy.Shape.{
  Tree, leaf, node, count, has_node, IsTree, Keeps, Keeps-trans, IsTree-Keeps, Keeps-with_node,
  IsTree-with_node, update_size-IsTree,
}
use famaf_unc.Base.{
  ℕ, suc, ◌+◌, ◌<◌, ◌≡◌, ◌^◌, refl, ap, true, false, arith, ◌==◌, Bool-cases, inl, inr, ◌⊎◌,
  eq_self,
}

-- update_size makes a tree of a node and the trees below it.
pub resized :
    (s : Store) (a x : ℕ) (l r : Tree)
    → 0 < a
    → s.is_live a ≡ true
    → (s.node a).data_ptr ≡ x
    → has_node a l ≡ false
    → has_node a r ≡ false
    → IsTree s (s.node a).left l
    → IsTree s (s.node a).right r
    → 1 + count l + count r < 2 ^ 32
    → (w : Store) × (update_size a s ≡ ok tt w)
      × IsTree w a (node a x l r)
      × ((z : ℕ) → (z == a) ≡ false → Keeps s w z)
      × (w.next ≡ s.next)
resized s a x l r pos live e outl outr hl hr small =
    let n = record (s.node a) { size = 1 + count l + count r } in
    (
      with_node s a n,
      update_size-IsTree s a l r live hl hr small,
      (
        refl,
        pos,
        live,
        rw (eq_self a) e,
        rw (eq_self a) refl,
        rw (eq_self a) (IsTree-with_node s a (s.node a).left n l outl hl),
        rw (eq_self a) (IsTree-with_node s a (s.node a).right n r outr hr),
      ),
      λ z ne. Keeps-with_node s a z n ne,
      refl,
    )

-- So it does when the links of the node are written first.
pub relinked :
    (s : Store) (a x : ℕ) (n : Node) (l r : Tree)
    → 0 < a
    → s.is_live a ≡ true
    → n.data_ptr ≡ x
    → has_node a l ≡ false
    → has_node a r ≡ false
    → IsTree s n.left l
    → IsTree s n.right r
    → 1 + count l + count r < 2 ^ 32
    → (w : Store) × (update_size a (with_node s a n) ≡ ok tt w)
      × IsTree w a (node a x l r)
      × ((z : ℕ) → (z == a) ≡ false → Keeps s w z)
      × (w.next ≡ s.next)
relinked s a x n l r pos live e outl outr hl hr small =
    let (w, run, tree, keeps, next) =
      resized (with_node s a n) a x l r pos live (rw (eq_self a) e) outl outr
        (rw (eq_self a) (IsTree-with_node s a n.left n l outl hl))
        (rw (eq_self a) (IsTree-with_node s a n.right n r outr hr)) small in
    (
      w,
      run,
      tree,
      λ z ne. Keeps-trans s (with_node s a n) w z (Keeps-with_node s a z n ne) (keeps z ne),
      next,
    )

-- An address is free for the next node, and the parent in the hierarchy is none or a node.
pub record CanInsert (s : Store) (h_parent : ℕ) : Type 0 where
  pub next_pos : 0 < s.next
  pub fresh : s.is_live s.next ≡ false
  pub parent : (h_parent ≡ null) ⊎ (s.is_live h_parent ≡ true)

Keeps-with_new : (s : Store) (n : Node) (z : ℕ) → (z == s.next) ≡ false → Keeps s (with_new s n) z
Keeps-with_new s n z ne = (λ l. rw ne l, rw ne refl, rw ne refl, rw ne refl, rw ne refl)

Keeps-with_links :
    (s : Store) (p z : ℕ) (n : Node)
    → n.data_ptr ≡ (s.node p).data_ptr
    → n.left ≡ (s.node p).left
    → n.right ≡ (s.node p).right
    → n.size ≡ (s.node p).size
    → Keeps s (with_node s p n) z
Keeps-with_links s p z n e l r k = elim (Bool-cases (z == p)) [
  | inl same ↦
      let at : p ≡ z = ground arith in
      let here : (s.node p) ≡ (s.node z) = ap s.node at in
      (
        λ h. h,
        rw same (rw here at e),
        rw same (rw here at l),
        rw same (rw here at r),
        rw same (rw here at k),
      )
  | inr ne ↦ Keeps-with_node s p z n ne
]

pub next-ne :
    {hp : ℕ} (s : Store) (a : ℕ) → CanInsert s hp → s.is_live a ≡ true → (a == s.next) ≡ false
next-ne s a c live = elim (Bool-cases (a == s.next)) [
  | inl e ↦
      let same : a ≡ s.next = ground arith in absurd (ground (arith, ap s.is_live same, c.fresh))
  | inr e ↦ e
]

pub h_node_init-IsTree :
    (s : Store) (d hp : ℕ)
    → CanInsert s hp
    → (w : Store) × (h_node_init d hp s ≡ ok s.next w)
      × IsTree w s.next (node s.next d leaf leaf)
      × ((z : ℕ) → (z == s.next) ≡ false → Keeps s w z)
      × (w.next ≡ suc s.next)
unfolding h_node_init load modify alloc
h_node_init-IsTree s d hp c =
    let n0 : Node = record {
      data_ptr = d;
      right = null;
      left = null;
      h_parent = hp;
      h_next_sibling = null;
      h_children = null;
      size = 1;
    } in
    let s1 : Store = with_new s n0 in
    let lone : IsTree s1 s.next (node s.next d leaf leaf) = (
      refl,
      c.next_pos,
      rw (eq_self s.next) refl,
      rw (eq_self s.next) refl,
      rw (eq_self s.next) refl,
      rw (eq_self s.next) refl,
      rw (eq_self s.next) refl,
    ) in
    elim (Bool-cases (hp == null)) [
      | inl e ↦ (s1, rw e refl, lone, Keeps-with_new s n0, refl)
      | inr e ↦
          let live : s.is_live hp ≡ true = elim c.parent [
            | inl z ↦ absurd (ground arith)
            | inr l ↦ l
          ] in
          let apart : (hp == s.next) ≡ false = next-ne s hp c live in
          let s2 : Store =
            with_node s1 s.next
              (record (s1.node s.next) { h_next_sibling = (s1.node hp).h_children }) in
          let s3 : Store = with_node s2 hp (record (s2.node hp) { h_children = s.next }) in
          let linked : (z : ℕ) → Keeps s1 s3 z = λ z.
            Keeps-trans s1 s2 s3 z (Keeps-with_links s1 s.next z _ refl refl refl refl)
              (Keeps-with_links s2 hp z _ refl refl refl refl) in
          (
            s3,
            simp (e, apart, live, eq_self s.next) refl,
            IsTree-Keeps s1 s3 s.next (node s.next d leaf leaf) (λ q m. linked q) lone,
            λ z ne. Keeps-trans s s1 s3 z (Keeps-with_new s n0 z ne) (linked z),
            refl,
          )
    ]
