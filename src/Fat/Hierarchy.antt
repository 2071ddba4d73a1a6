-- ===== src/Fat/Hierarchy.antt =====
-- hierarchy_tree.c: a binary search tree of data whose nodes also form a hierarchy.
pub mod Shape
pub mod Links
pub mod Insert
pub mod Search
pub mod Flatten
pub mod Swap
pub mod Delete
pub mod Freed
use famaf_unc.Fat.NodeStore.{
  Node, out_of_fuel, Cmd, pure, ◌>>=◌, ◌>>◌, load, modify, alloc, free, destroy,
}
use famaf_unc.Base.{
  ℕ, zero, suc, ◌+◌, ◌-◌, ◌%◌, ◌^◌, Bool, true, false, not, ◌&&◌, ◌||◌, List, [], ◌∷◌, ◌++◌, ◌==◌,
  if◌then◌else◌, updated,
}
use Prim.Native.Nat.{Ordering}
use Prim.Native.Nat.Ordering.{lt, eq, gt}

-- `data_cmp_fn`, on the pointers that it is called with; its sign is all that the callers look at.
abbrev pub Comparison : Type 0
Comparison = ℕ → ℕ → Ordering

abbrev pub null : ℕ
null = 0

-- A new node in front of the children of its parent.
unfoldable pub h_node_init : (new_data h_parent : ℕ) → Cmd ℕ
h_node_init new_data h_parent = do
  new_node ← alloc (record {
    data_ptr = new_data;
    right = null;
    left = null;
    h_parent = h_parent;
    h_next_sibling = null;
    h_children = null;
    size = 1;
  })
  if h_parent == null then pure new_node else do
    parent ← load h_parent
    modify new_node λ n. record n { h_next_sibling = parent.h_children }
    modify h_parent λ n. record n { h_children = new_node }
    pure new_node

unfoldable pub h_tree_destroy : (fuel root : ℕ) → Cmd (Unit {0})
h_tree_destroy zero root = λ s. out_of_fuel
h_tree_destroy (suc fuel) root = elim (root == null) [
  | true ↦ pure tt
  | false ↦ do
    n ← load root
    destroy n.data_ptr
    h_tree_destroy fuel n.right
    m ← load root
    h_tree_destroy fuel m.left
    free root
]

unfoldable pub h_tree_size : ℕ → Cmd ℕ
h_tree_size root = if root == null then pure 0 else (load root >>= λ n. pure n.size)

unfoldable pub h_tree_get_data : ℕ → Cmd ℕ
h_tree_get_data root = if root == null then pure null else (load root >>= λ n. pure n.data_ptr)

unfoldable pub h_tree_get_h_parent : ℕ → Cmd ℕ
h_tree_get_h_parent root = if root == null then pure null else (load root >>= λ n. pure n.h_parent)

unfoldable pub h_tree_search : Comparison → (fuel root key : ℕ) → Cmd ℕ
h_tree_search cmp zero root key = λ s. out_of_fuel
h_tree_search cmp (suc fuel) root key = elim (key == null || root == null) [
  | true ↦ pure null
  | false ↦ do
    n ← load root
    elim (cmp n.data_ptr key) [
      | lt ↦ h_tree_search cmp fuel n.right key
      | gt ↦ h_tree_search cmp fuel n.left key
      | eq ↦ pure root
    ]
]

-- An int wraps.
unfoldable pub update_size : ℕ → Cmd (Unit {0})
update_size root = do
  n ← load root
  l ← h_tree_size n.left
  r ← h_tree_size n.right
  modify root λ m. record m { size = (1 + l + r) % 2 ^ 32 }

unfoldable pub h_tree_insert : Comparison → (fuel root new_data h_parent : ℕ) → Cmd ℕ
h_tree_insert cmp zero root new_data h_parent = λ s. out_of_fuel
h_tree_insert cmp (suc fuel) root new_data h_parent = elim (new_data == null) [
  | true ↦ pure root
  | false ↦ elim (root == null) [
    | true ↦ h_node_init new_data h_parent
    | false ↦ do
      n ← load root
      elim (cmp new_data n.data_ptr) [
        | gt ↦ do
          r ← h_tree_insert cmp fuel n.right new_data h_parent
          modify root λ m. record m { right = r }
        | lt ↦ do
          l ← h_tree_insert cmp fuel n.left new_data h_parent
          modify root λ m. record m { left = l }
        | eq ↦ pure tt
      ]
      update_size root
      pure root
  ]
]

unfoldable pub is_minimum : Node → Bool
is_minimum n = n.left == null

unfoldable pub swap_nodes : (old_file new_file : ℕ) → Cmd (Unit {0})
swap_nodes old_file new_file = do
  o ← load old_file
  n ← load new_file
  modify old_file λ m. record m { left = n.left; right = n.right }
  modify new_file λ m. record m { left = o.left; right = o.right }
  update_size new_file
  update_size old_file

-- The last child before `h_child`, or the last child of all.
unfoldable pub sibling_before : (fuel child_iterator h_child : ℕ) → Cmd ℕ
sibling_before zero child_iterator h_child = λ s. out_of_fuel
sibling_before (suc fuel) child_iterator h_child = do
  n ← load child_iterator
  elim (not (n.h_next_sibling == h_child) && not (n.h_next_sibling == null)) [
    | true ↦ sibling_before fuel n.h_next_sibling h_child
    | false ↦ pure child_iterator
  ]

unfoldable pub remove_child_from_h : (fuel h_child : ℕ) → Cmd (Unit {0})
remove_child_from_h fuel h_child = elim (h_child == null) [
  | true ↦ pure tt
  | false ↦ do
    c ← load h_child
    elim (c.h_parent == null) [
      | true ↦ pure tt
      | false ↦ do
        parent ← load c.h_parent
        elim (parent.h_children == null) [
          | true ↦ pure tt
          | false ↦ elim (parent.h_children == h_child) [
            | true ↦ modify c.h_parent λ m. record m { h_children = c.h_next_sibling }
            | false ↦ do
              before ← sibling_before fuel parent.h_children h_child
              modify before λ m. record m { h_next_sibling = c.h_next_sibling }
          ]
        ]
    ]
]

-- An int goes down by one.
unfoldable pub shrink : ℕ → Cmd (Unit {0})
shrink p = modify p λ m. record m { size = (m.size + 2 ^ 32 - 1) % 2 ^ 32 }

-- The loop of delete_root: `minimum` and `minimum_parent` behind it.
unfoldable pub find_minimum : (fuel minimum minimum_parent : ℕ) → Cmd (ℕ × ℕ)
find_minimum zero minimum minimum_parent = λ s. out_of_fuel
find_minimum (suc fuel) minimum minimum_parent = do
  n ← load minimum
  if is_minimum n
      then pure (minimum, minimum_parent)
      else do shrink n.left; find_minimum fuel n.left n.left

unfoldable pub delete_root : (fuel root : ℕ) → Cmd ℕ
delete_root zero root = λ s. out_of_fuel
delete_root (suc fuel) root = do
  n ← load root
  if n.data_ptr == null then pure tt else destroy n.data_ptr
  if n.left == null || n.right == null
      then (do free root; pure (if n.left == null then n.right else n.left))
      else do
        r ← load n.right
        if is_minimum r
            then (do
              modify n.right λ m. record m { left = n.left }
              update_size n.right
              free root
              pure n.right)
            else do
              shrink n.right
              (minimum, minimum_parent) ← find_minimum fuel r.left n.right
              swap_nodes root minimum
              l ← delete_root fuel root
              modify minimum_parent λ m. record m { left = l }
              pure minimum

unfoldable pub h_tree_delete : Comparison → (fuel root key : ℕ) → Cmd ℕ
h_tree_delete cmp zero root key = λ s. out_of_fuel
h_tree_delete cmp (suc fuel) root key = elim (key == null || root == null) [
  | true ↦ pure root
  | false ↦ do
    n ← load root
    elim (cmp n.data_ptr key) [
      | eq ↦ do remove_child_from_h fuel root; delete_root fuel root
      | lt ↦ do
        r ← h_tree_delete cmp fuel n.right key
        modify root λ m. record m { right = r }
        update_size root
        pure root
      | gt ↦ do
        l ← h_tree_delete cmp fuel n.left key
        modify root λ m. record m { left = l }
        update_size root
        pure root
    ]
]

-- The data in the order of the visits; `mod_fn` is called on each.
unfoldable pub h_tree_iterate_preorder : (fuel root : ℕ) → Cmd (List ℕ)
h_tree_iterate_preorder zero root = λ s. out_of_fuel
h_tree_iterate_preorder (suc fuel) root = elim (root == null) [
  | true ↦ pure []
  | false ↦ do
    n ← load root
    ls ← h_tree_iterate_preorder fuel n.left
    rs ← h_tree_iterate_preorder fuel n.right
    pure (n.data_ptr ∷ (ls ++ rs))
]

-- The data of a node and its parents, up to one that has none.
unfoldable pub h_tree_iterate_h_ancestors : (fuel root : ℕ) → Cmd (List ℕ)
h_tree_iterate_h_ancestors zero root = λ s. out_of_fuel
h_tree_iterate_h_ancestors (suc fuel) root = elim (root == null) [
  | true ↦ pure []
  | false ↦ do
    n ← load root
    rest ← h_tree_iterate_h_ancestors fuel n.h_parent
    pure (n.data_ptr ∷ rest)
]

-- `elem_array` begins at the place `at` of the array.
unfoldable pub h_tree_flatten_preorder : (fuel root at : ℕ) → (array : ℕ → ℕ) → Cmd (ℕ → ℕ)
h_tree_flatten_preorder zero root at array = λ s. out_of_fuel
h_tree_flatten_preorder (suc fuel) root at array = elim (root == null) [
  | true ↦ pure array
  | false ↦ do
    n ← load root
    filled ← h_tree_flatten_preorder fuel n.left (at + 1) (updated array at n.data_ptr)
    l ← h_tree_size n.left
    h_tree_flatten_preorder fuel n.right (at + 1 + l) filled
]

-- The loop of h_tree_flatten_h_children, and the NULL behind the last child.
unfoldable pub flatten_siblings : (fuel child_it at : ℕ) → (array : ℕ → ℕ) → Cmd (ℕ → ℕ)
flatten_siblings zero child_it at array = λ s. out_of_fuel
flatten_siblings (suc fuel) child_it at array = elim (child_it == null) [
  | true ↦ pure (updated array at null)
  | false ↦ do
    n ← load child_it
    flatten_siblings fuel n.h_next_sibling (at + 1) (updated array at n.data_ptr)
]

unfoldable pub h_tree_flatten_h_children : (fuel root at : ℕ) → (array : ℕ → ℕ) → Cmd (ℕ → ℕ)
h_tree_flatten_h_children fuel root at array = elim (root == null) [
  | true ↦ pure array
  | false ↦ do n ← load root; flatten_siblings fuel n.h_children at array
]
