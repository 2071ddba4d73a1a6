-- ===== src/Fat/FileTree/Freed.antt =====
-- fat_tree_delete frees the node that has the key.
use famaf_unc.Fat.NodeStore.{Store}
use famaf_unc.Fat.Hierarchy.{null, h_tree_delete, Comparison}
use famaf_unc.Fat.Hierarchy.Shape.{Tree, leaf, node, IsTree}
use famaf_unc.Fat.Hierarchy.Search.{find}
use famaf_unc.Fat.Hierarchy.Freed.{Ends, IsFreed, Ends-then, h_tree_delete-IsFreed}
use famaf_unc.Fat.FileTree.{Files, fat_tree_delete, file_cmp_path}
use famaf_unc.Base.{ℕ, ◌≡◌, ◌<◌, false, some, arith, ◌==◌}

found-pos :
    (cmp : Comparison) (key root p : ℕ) (t : Tree) (s : Store)
    → IsTree s root t
    → find cmp key t ≡ some p
    → 0 < root
unfolding find
found-pos cmp key root p leaf s h e = absurd (ground arith)
found-pos cmp key root p (node a x l r) s h e = omega (arith, h.0, h.1)

pub fat_tree_delete-IsFreed :
    (m : Files) (fuel root key p : ℕ) (t : Tree) (s : Store)
    → IsTree s root t
    → 0 < key
    → find (file_cmp_path m) key t ≡ some p
    → Ends (IsFreed p) (fat_tree_delete m fuel (some root) key s)
unfolding fat_tree_delete
fat_tree_delete-IsFreed m fuel root key p t s h k e =
    let pos = found-pos (file_cmp_path m) key root p t s h e in
    let has_key : (key == null) ≡ false = ground arith in
    let has_root : (root == null) ≡ false = ground arith in
    rw (has_key, has_root)
      (Ends-then (IsFreed p) (h_tree_delete (file_cmp_path m) fuel root key s) _
        (h_tree_delete-IsFreed (file_cmp_path m) fuel root key p t s h k e) λ q w freed. freed)
