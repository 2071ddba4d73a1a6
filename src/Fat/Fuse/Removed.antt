-- ===== src/Fat/Fuse/Removed.antt =====
-- fat_fuse_unlink of a file that is in the tree.
use famaf_unc.Fat.File.{free_clusters}
use famaf_unc.Fat.Table.Chain.{Follows, has}
use famaf_unc.Fat.Table.{cluster_is_valid, entry, cluster_free}
use famaf_unc.Fat.File.Free.{WritesSomething, free_clusters-freed}
use famaf_unc.Fat.NodeStore
use famaf_unc.Fat.NodeStore.{Store, load}
use famaf_unc.Fat.Device.{Device, Volume}
use famaf_unc.Fat.Device
use famaf_unc.Fat.Dentry.{is_directory, FatFile, remove_dentry, set_first}
use famaf_unc.Fat.Dentry.Write.{write_dir_entry-keeps}
use famaf_unc.Fat.Hierarchy.Shape.{Tree, count}
use famaf_unc.Fat.Hierarchy.Freed.{Ends, IsFreed}
use famaf_unc.Fat.FileTree.Freed.{fat_tree_delete-IsFreed}
use famaf_unc.Fat.FileTree.{fat_tree_delete, FatTree, file_cmp_path}
use famaf_unc.Fat.Fuse.{
  System, Fuse, ok, and_then-ok, with_path, path_key, minus, from_store, from_volume,
}
use famaf_unc.Fat.Fuse.Found.{
  HasTree, node_with, HasParent, node_search-some, get_file-HasFile, file_at-pos,
  get_parent-HasParent, no_directory-false,
}
use famaf_unc.Fat.Fuse.Found.{HasFile, some_node, some_file}
use famaf_unc.Fat.Fuse.Remove.{delete_path, unlink, unlink_node, free_file_clusters, remove_entry}
use famaf_unc.Base.{
  ℕ, ◌≡◌, refl, false, true, List, some, ◌==◌, arith, updated, Bool-cases, inl, inr, fun_ext, ◌<◌,
  suc, length, ◌∷◌, ap, ◌∙◌, updated-ne, subst,
}

abbrev marked : FatFile → FatFile
marked file = record file {
  dentry = record file.dentry { base_name = set_first file.dentry.base_name 0xe5 };
}

-- A file that has lost its entry keeps its path.
remove_dentry-keeps :
    {D : Type 0} (dev : Device D) (file parent : FatFile) (v : Volume D)
    → (file' : FatFile) × (w : Volume D) × (remove_dentry dev file parent v ≡ Device.Run.ok file' w)
      × (file'.filepath ≡ file.filepath)
      × (file'.start_cluster ≡ file.start_cluster)
      × (w.table ≡ v.table)
unfolding remove_dentry
remove_dentry-keeps dev file parent v =
    let file' = marked file in
    let (st, w, run, t, _) = write_dir_entry-keeps dev parent file' v in
    (file', w, rw run refl, refl, refl, t)

-- The comparison with a path looks at the paths of the files only.
pub same_comparison :
    {D : Type 0} (s w : Fuse D) (path : List ℕ)
    → ((x : ℕ) → (w.files x).filepath ≡ (s.files x).filepath)
    → file_cmp_path (with_path w path) ≡ file_cmp_path (with_path s path)
unfolding file_cmp_path
same_comparison s w path same = fun_ext λ x. fun_ext λ k. rw (same x) refl

-- A change of a file that keeps what `f` reads of it keeps that of all files.
pub updated-keeps {ℓ} :
    {B : Type ℓ} (f : FatFile → B) (files : ℕ → FatFile) (d x : ℕ) (file : FatFile)
    → f file ≡ f (files d)
    → f (updated files d file x) ≡ f (files x)
updated-keeps f files d x file e = elim (Bool-cases (x == d)) [
  | inl same ↦ let q : x ≡ d = ground arith in rw (same, q) e
  | inr ne ↦ rw ne refl
]

module _ {D : Type 0} (sys : System D) (s : Fuse D) (d : ℕ) (some_file : 0 < d) where
  pub free_file_clusters-ok :
      (v : Volume D)
      → free_clusters sys.device sys.fuel (s.files d) s.volume ≡ Device.Run.ok tt v
      → free_file_clusters sys d s ≡ ok tt (record s { volume = v })
  unfolding free_file_clusters
  free_file_clusters-ok v run = and_then-ok _ (file_at-pos s d some_file) (ap (from_volume s) run)

  pub remove_entry-keeps :
      (q : ℕ)
      → 0 < q
      → (file' : FatFile) × (v : Volume D) × (remove_entry sys d q s
          ≡ ok tt (record s { volume = v; files = updated s.files d file' }))
        × (file'.filepath ≡ (s.files d).filepath)
        × (file'.start_cluster ≡ (s.files d).start_cluster)
        × (v.table ≡ s.volume.table)
  unfolding remove_entry
  remove_entry-keeps q some_parent =
      let (file', v, run, path, start, t) =
        remove_dentry-keeps sys.device (s.files d) (s.files q) s.volume in
      (
        file',
        v,
        and_then-ok _ (file_at-pos s d some_file) (
            and_then-ok _ (file_at-pos s q some_parent)
              (and_then-ok _ (ap (from_volume s) run) refl)),
        path,
        start,
        t,
      )

module _ {D : Type 0} (sys : System D) (s : Fuse D) (root : ℕ) (t : Tree)
    (h : HasTree s root t) where
  -- The steps of a removal behind the tests.
  pub delete_path-keeps :
      (w : Fuse D) (path : List ℕ) (tree : FatTree) (after : Store)
      → w.file_tree ≡ some root
      → w.store ≡ s.store
      → ((x : ℕ) → (w.files x).filepath ≡ (s.files x).filepath)
      → fat_tree_delete (with_path s path) sys.fuel (some root) path_key s.store
        ≡ NodeStore.ok tree after
      → delete_path sys path w ≡ ok tt (record w { store = after; file_tree = tree })
  unfolding delete_path fat_tree_delete
  delete_path-keeps w path tree after at same_store same run =
      rw (at, same_store, same_comparison s w path same, run) refl

  -- Where fat_tree_delete ends, it has freed the node with the path.
  pub deleted-IsFreed :
      (path : List ℕ) (node : ℕ) (tree : FatTree) (after : Store)
      → node_with s path t ≡ some node
      → fat_tree_delete (with_path s path) sys.fuel (some root) path_key s.store
        ≡ NodeStore.ok tree after
      → after.is_live node ≡ false
  deleted-IsFreed path node tree after found run = subst (Ends (IsFreed node)) run (
      fat_tree_delete-IsFreed (with_path s path) sys.fuel root path_key node t s.store h.is_tree
        (omega arith) found)

  -- When the device writes at least one byte of each write, the tree has a live node with the path, whose file is no
  -- directory, whose parent is one, and whose clusters form a valid chain, the fuel is more than the nodes of the
  -- tree and than one more than the clusters behind the first, and fat_tree_delete ends on the tree, then
  -- fat_fuse_unlink of the path ends: each cluster of the chain is free, every other entry of the table is as it was,
  -- the tree is the one that fat_tree_delete gives, and no other file in memory changes.
  pub unlink-freed :
      (path : List ℕ) (node d q : ℕ) (cs : List ℕ) (tree : FatTree) (after : Store)
      → WritesSomething sys.device
      → count t < sys.fuel
      → node_with s path t ≡ some node
      → HasFile s.store node d
      → is_directory (s.files d) ≡ false
      → HasParent s.store node q
      → is_directory (s.files q) ≡ true
      → cluster_is_valid (s.files d).start_cluster ≡ true
      → Follows s.volume.table (s.files d).start_cluster cs
      → suc (length cs) < sys.fuel
      → fat_tree_delete (with_path s path) sys.fuel (some root) path_key s.store
        ≡ NodeStore.ok tree after
      → (e : ℕ) × (w : Fuse D) × (unlink sys path s ≡ ok (minus e) w)
        × (w.file_tree ≡ tree)
        × (w.store ≡ after)
        × ((j : ℕ)
            → has j ((s.files d).start_cluster ∷ cs) ≡ true
            → entry w.volume.table j ≡ some cluster_free)
        × ((j : ℕ)
            → has j ((s.files d).start_cluster ∷ cs) ≡ false
            → entry w.volume.table j ≡ entry s.volume.table j)
        × ((x : ℕ) → (x == d) ≡ false → w.files x ≡ s.files x)
  unfolding unlink unlink_node free_file_clusters remove_entry
  unlink-freed path node d q cs tree after writes f found hf plain hp dir valid chain g deleted =
      let s0 = record s { volume = record s.volume { errno = 0 } } in
      let h0 : HasTree s0 root t = record { at_root = h.at_root; is_tree = h.is_tree } in
      let (v1, frees, _, gone, kept) =
        free_clusters-freed sys.device writes sys.fuel (s.files d) cs s0.volume valid chain g in
      let s1 = record s { volume = v1 } in
      let (file', v2, unlinks, same, _, t2) =
        remove_entry-keeps sys s1 d hf.file_pos q hp.parent_file.file_pos in
      let s2 = record s { volume = v2; files = updated s.files d file' } in
      (
        v2.errno,
        record s2 { store = after; file_tree = tree },
        and_then-ok _ (node_search-some sys s0 root t h0 path node f found) (
            rw (some_node s.store node d hf) (
              and_then-ok _ (ap (from_store s0) (get_file-HasFile s.store node d hf)) (
                rw (some_file s.store node d hf) (
                  and_then-ok _ (file_at-pos s0 d hf.file_pos) (
                    rw plain (
                      and_then-ok _ (ap (from_store s0) (get_parent-HasParent s.store node q hp)) (
                        and_then-ok _ (no_directory-false sys s0 q hp.parent_file.file_pos dir) (
                          and_then-ok _ (free_file_clusters-ok sys s0 d hf.file_pos v1 frees) (
                            and_then-ok _ unlinks (
                              and_then-ok _
                                (delete_path-keeps s2 path tree after h.at_root refl
                                  (λ x. updated-keeps (λ r. r.filepath) s.files d x file' same)
                                  deleted)
                                refl)))))))))),
        refl,
        refl,
        λ j m. ap (λ u. entry u j) t2 ∙ gone j m,
        λ j m. ap (λ u. entry u j) t2 ∙ kept j m,
        λ x ne. updated-ne s.files d x file' ne,
      )
