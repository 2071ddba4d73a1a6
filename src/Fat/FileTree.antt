-- ===== src/Fat/FileTree.antt =====
-- fat_fs_tree.c: the tree of the files that were looked up, by path. A `fat_tree` is the pointer to its root node,
-- none for NULL; a file is a pointer, and `files` holds the file behind each.
pub mod Paths
pub mod Freed
pub mod Opened
use famaf_unc.Fat.NodeStore.{Store, Run, ok, Cmd, pure, ◌>>=◌, ◌>>◌, load}
use famaf_unc.Fat.Hierarchy.{
  Comparison, null, h_tree_destroy, h_tree_size, h_tree_get_data, h_tree_get_h_parent,
  h_tree_search, h_tree_insert, h_tree_delete, h_tree_iterate_preorder, h_tree_iterate_h_ancestors,
  h_tree_flatten_preorder, h_tree_flatten_h_children,
}
use famaf_unc.Fat.Dentry.{FatFile, inc_num_times_opened, dec_num_times_opened}
use Prim.Native.Nat.{Ordering, compare}
use Prim.Native.Nat.Ordering.{lt, eq, gt}
use famaf_unc.Base.{
  ℕ, ◌+◌, ◌-◌, ◌^◌, ◌||◌, List, [], ◌∷◌, Option, none, some, ◌==◌, if◌then◌else◌, updated,
}

-- strcmp, for texts without zeros.
unfoldable pub strcmp : List ℕ → List ℕ → Ordering
strcmp [] [] = eq
strcmp [] (d ∷ ds) = lt
strcmp (c ∷ cs) [] = gt
strcmp (c ∷ cs) (d ∷ ds) = elim (compare c d) [ lt ↦ lt | gt ↦ gt | eq ↦ strcmp cs ds ]

-- The files in memory, and the texts of the keys.
pub record Files : Type 0 where
  pub files : ℕ → FatFile
  pub text : ℕ → List ℕ

unfoldable pub file_cmp : Files → Comparison
file_cmp m file1 file2 = strcmp (m.files file1).filepath (m.files file2).filepath

unfoldable pub file_cmp_path : Files → Comparison
file_cmp_path m file1 filepath = strcmp (m.files file1).filepath (m.text filepath)

abbrev pub FatTree : Type 0
FatTree = Option ℕ

abbrev pub fat_tree_init : FatTree
fat_tree_init = some null

unfoldable pub fat_tree_destroy : (fuel : ℕ) → FatTree → Cmd (Unit {0})
fat_tree_destroy fuel none = pure tt
fat_tree_destroy fuel (some root) = if root == null then pure tt else h_tree_destroy fuel root

-- -1 for NULL.
unfoldable pub fat_tree_size : FatTree → Cmd ℕ
fat_tree_size none = pure (2 ^ 32 - 1)
fat_tree_size (some root) = h_tree_size root

unfoldable pub fat_tree_insert : Files → (fuel : ℕ) → FatTree → (parent new_file : ℕ) → Cmd FatTree
fat_tree_insert m fuel none parent new_file = pure none
fat_tree_insert m fuel (some root) parent new_file =
    if new_file == null
    then pure none
    else (h_tree_insert (file_cmp m) fuel root new_file parent >>= λ q. pure (some q))

unfoldable pub fat_tree_node_search : Files → (fuel : ℕ) → (root key : ℕ) → Cmd ℕ
fat_tree_node_search m fuel root key = h_tree_search (file_cmp_path m) fuel root key

unfoldable pub fat_tree_search : Files → (fuel : ℕ) → FatTree → (key : ℕ) → Cmd ℕ
fat_tree_search m fuel none key = pure null
fat_tree_search m fuel (some root) key =
    if key == null || root == null
    then pure null
    else (fat_tree_node_search m fuel root key >>= λ node. h_tree_get_data node)

abbrev pub fat_tree_get_file : ℕ → Cmd ℕ
fat_tree_get_file node = h_tree_get_data node

unfoldable pub fat_tree_get_parent : ℕ → Cmd ℕ
fat_tree_get_parent node = h_tree_get_h_parent node >>= λ parent. h_tree_get_data parent

-- A call of `f` on each file of a list.
abbrev pub applied : (FatFile → FatFile) → List ℕ → (ℕ → FatFile) → ℕ → FatFile
applied f [] files = files
applied f (p ∷ ps) files = applied f ps (updated files p (f (files p)))

unfoldable pub fat_tree_inc_num_times_opened : (fuel node : ℕ) → (ℕ → FatFile) → Cmd (ℕ → FatFile)
fat_tree_inc_num_times_opened fuel node files =
    h_tree_iterate_h_ancestors fuel node >>= λ ps. pure (applied inc_num_times_opened ps files)

unfoldable pub fat_tree_dec_num_times_opened : (fuel node : ℕ) → (ℕ → FatFile) → Cmd (ℕ → FatFile)
fat_tree_dec_num_times_opened fuel node files =
    h_tree_iterate_h_ancestors fuel node >>= λ ps. pure (applied dec_num_times_opened ps files)

unfoldable pub fat_tree_delete : Files → (fuel : ℕ) → FatTree → (key : ℕ) → Cmd FatTree
fat_tree_delete m fuel none key = pure none
fat_tree_delete m fuel (some root) key =
    if key == null || root == null
    then pure (some root)
    else (h_tree_delete (file_cmp_path m) fuel root key >>= λ q. pure (some q))

-- The files in the order in which they are visited.
unfoldable pub fat_tree_iterate_preorder : (fuel : ℕ) → FatTree → Cmd (List ℕ)
fat_tree_iterate_preorder fuel none = pure []
fat_tree_iterate_preorder fuel (some root) = h_tree_iterate_preorder fuel root

-- The array that calloc gives holds zeros; none for NULL.
unfoldable pub fat_tree_flatten_preorder : (fuel : ℕ) → FatTree → Cmd (Option (ℕ → ℕ))
fat_tree_flatten_preorder fuel none = pure none
fat_tree_flatten_preorder fuel (some root) = h_tree_size root >>= λ n.
    if n == 0
    then pure none
    else (h_tree_flatten_preorder fuel root 0 (λ i. 0) >>= λ array. pure (some array))

-- With the number of places that calloc gives; what is written behind them is outside of the array.
unfoldable pub fat_tree_flatten_h_children :
    (fuel dir_node : ℕ) → (ℕ → FatFile) → Cmd (Option (ℕ × (ℕ → ℕ)))
fat_tree_flatten_h_children fuel dir_node files = h_tree_size dir_node >>= λ n.
    if dir_node == null || n == 0 then pure none else (do
      file ← fat_tree_get_file dir_node
      array ← h_tree_flatten_h_children fuel dir_node 0 (λ i. 0)
      pure (some ((files file).nentries + 1, array)))
