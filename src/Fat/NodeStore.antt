-- ===== src/Fat/NodeStore.antt =====
-- The nodes that hierarchy_tree.c allocates, the pointers between them, and the commands on them.
use famaf_unc.Base.{ℕ, suc, Bool, true, false, List, ◌∷◌, if◌then◌else◌, updated}

-- `struct h_tree_s`. A pointer is a number, NULL is 0; `data` is a pointer, too.
pub record Node : Type 0 where
  pub data_ptr : ℕ
  pub right : ℕ
  pub left : ℕ
  pub h_parent : ℕ
  pub h_next_sibling : ℕ
  pub h_children : ℕ
  pub size : ℕ

-- `is_live p` if `p` is the address of a node that was allocated and not freed. `destroyed` holds the
-- data that were handed to the function `data_destroy`, the last one first.
pub record Store : Type 0 where
  pub node : ℕ → Node
  pub is_live : ℕ → Bool
  pub next : ℕ
  pub destroyed : List ℕ

-- A run ends with a value and a store, goes through a pointer to no node, or runs out of fuel.
pub data Run (A : Type 0) : Type 0 where
  ok : A → Store → Run A
  fault : Run A
  out_of_fuel : Run A

abbrev pub Cmd : Type 0 → Type 0
Cmd A = Store → Run A

module _ {A : Type 0} where
  abbrev pub pure : A → Cmd A
  pure = ok

  abbrev pub and_then : {B : Type 0} → Run A → (A → Cmd B) → Run B
  and_then (ok a s) k = k a s
  and_then fault k = fault
  and_then out_of_fuel k = out_of_fuel

module _ {A B : Type 0} where
  infixl 5 ◌>>=◌ ◌>>◌
  abbrev pub ◌>>=◌ : Cmd A → (A → Cmd B) → Cmd B
  m >>= k = λ s. and_then (m s) k

  abbrev pub ◌>>◌ : Cmd A → Cmd B → Cmd B
  m >> k = m >>= λ _. k

-- A read of the node behind a pointer.
unfoldable pub load : ℕ → Cmd Node
load p s = if s.is_live p then ok (s.node p) s else fault

abbrev pub with_node : Store → ℕ → Node → Store
with_node s p n = record s { node = updated s.node p n }

-- A write of some fields of it.
unfoldable pub modify : ℕ → (Node → Node) → Cmd (Unit {0})
modify p f s = if s.is_live p then ok tt (with_node s p (f (s.node p))) else fault

abbrev pub with_new : Store → Node → Store
with_new s n = record (with_node s s.next n) {
  is_live = updated s.is_live s.next true;
  next = suc s.next;
}

-- malloc, which does not fail, and the writes that fill the new node.
unfoldable pub alloc : Node → Cmd ℕ
alloc n s = ok s.next (with_new s n)

unfoldable pub free : ℕ → Cmd (Unit {0})
free p s = if s.is_live p then ok tt (record s { is_live = updated s.is_live p false }) else fault

unfoldable pub destroy : ℕ → Cmd (Unit {0})
destroy d s = ok tt (record s { destroyed = d ∷ s.destroyed })
