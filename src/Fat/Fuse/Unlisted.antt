-- ===== src/Fat/Fuse/Unlisted.antt =====
-- fat_fuse_rmdir of a directory whose children on disk are not in the tree.
use famaf_unc.Fat.Table.Chain.{Follows, has}
use famaf_unc.Fat.Table.{cluster_is_valid, entry, cluster_free}
use famaf_unc.Fat.Directory.{read_children}
use famaf_unc.Fat.File.Free.{WritesSomething, free_clusters-freed}
use famaf_unc.Fat.NodeStore.{Store}
use famaf_unc.Fat.FileTree.{FatTree, fat_tree_delete}
use famaf_unc.Fat.Device.{Volume}
use famaf_unc.Fat.NodeStore
use famaf_unc.Fat.Device
use famaf_unc.Fat.Dentry.{is_directory, FatFile}
use famaf_unc.Fat.Hierarchy.Shape.{Tree, count}
use famaf_unc.Fat.Hierarchy.Search.{find}
use famaf_unc.Fat.Fuse.{
  System, Fuse, ok, minus, and_then-ok, path_key, FatTree, Store, with_path, from_volume,
  from_store,
}
use famaf_unc.Fat.Fuse.Load.{enoent}
use famaf_unc.Fat.Fuse.Found.{
  HasTree, node_with, node_search-none, HasFile, HasParent, node_search-some, some_node,
  file_of-HasFile, get_parent-HasParent, no_directory-false,
}
use famaf_unc.Fat.Fuse.Removed.{
  same_comparison, updated-keeps, remove_entry-keeps, free_file_clusters-ok, delete_path-keeps,
  deleted-IsFreed,
}
use famaf_unc.Fat.Fuse.Remove.{unlink, rmdir, remove_children, remove_dir}
use famaf_unc.Base.{
  ℕ, suc, ◌<◌, ◌≡◌, ◌∙◌, refl, ap, List, [], ◌∷◌, none, All, Bool-cases, inl, inr, Bool, some, true,
  length, false, updated,
}

-- The state behind a failure with ENOENT.
abbrev missed : {D : Type 0} → Fuse D → Fuse D
missed s = record s { volume = record s.volume { errno = enoent } }

module _ {D : Type 0} (sys : System D) (s : Fuse D) (root : ℕ) (t : Tree)
    (f : count t < sys.fuel) where
  -- The paths of the files in memory are those of `s`.
  abbrev SamePaths : Fuse D → Type 0
  SamePaths w = (x : ℕ) → (w.files x).filepath ≡ (s.files x).filepath

  missing :
      (w : Fuse D) (path : List ℕ)
      → SamePaths w
      → node_with s path t ≡ none
      → node_with w path t ≡ none
  missing w path same e = ap (λ c. find c path_key t) (same_comparison s w path same) ∙ e

  unlink-missing :
      (w : Fuse D) (path : List ℕ)
      → HasTree w root t
      → node_with w path t ≡ none
      → unlink sys path w ≡ ok (minus enoent) (missed w)
  unfolding unlink
  unlink-missing w path h e =
      let h0 : HasTree (record w { volume = record w.volume { errno = 0 } }) root t = record {
        at_root = h.at_root;
        is_tree = h.is_tree;
      } in
      and_then-ok _ (node_search-none sys _ root t h0 path f e) refl

  rmdir-missing :
      (fuel : ℕ) (w : Fuse D) (path : List ℕ)
      → HasTree w root t
      → node_with w path t ≡ none
      → rmdir sys (suc fuel) path w ≡ ok (minus enoent) (missed w)
  unfolding rmdir
  rmdir-missing fuel w path h e =
      let h0 : HasTree (record w { volume = record w.volume { errno = 0 } }) root t = record {
        at_root = h.at_root;
        is_tree = h.is_tree;
      } in
      and_then-ok _ (node_search-none sys _ root t h0 path f e) refl

  remove_children-missing :
      (fuel : ℕ) (children : List FatFile) (w : Fuse D)
      → HasTree w root t
      → SamePaths w
      → All (λ c. node_with s c.filepath t ≡ none) children
      → (e : ℕ) × (remove_children sys (rmdir sys (suc fuel)) children w
          ≡ ok tt (record w { volume = record w.volume { errno = e } }))
  unfolding remove_children
  remove_children-missing fuel [] w h same e = (w.volume.errno, refl)
  remove_children-missing fuel (child ∷ children) w h same e =
      let h' : HasTree (missed w) root t = record { at_root = h.at_root; is_tree = h.is_tree } in
      let out = missing w child.filepath same e.0 in
      let (n, rest) = remove_children-missing fuel children (missed w) h' same e.1 in
      elim (Bool-cases (is_directory child)) [
        | inl dir ↦ (
          n,
          rw (dir, remove_children)
              (and_then-ok _ (rmdir-missing fuel w child.filepath h out) rest),
        )
        | inr plain ↦ (
          n,
          rw (plain, remove_children) (and_then-ok _ (unlink-missing w child.filepath h out) rest),
        )
      ]

  -- When the device writes at least one byte of each write, the tree has a live node with the path, whose file and
  -- whose parent are directories, fat_file_read_children gives children of which none has a path in the tree, the
  -- clusters of the directory form a valid chain, the fuel is more than the nodes of the tree and than one more than
  -- the clusters behind the first, and fat_tree_delete ends on the tree, then fat_fuse_rmdir of the path ends,
  -- the tree is the one that fat_tree_delete gives, the node of the directory is freed, and the clusters of its chain
  -- are free; but every other entry of the table, those of the clusters of its children among them, is as it was
  -- when the children had been read.
  pub rmdir-unlisted :
      (path : List ℕ) (p d q fuel n c : ℕ) (b : Bool) (children : List FatFile) (v : Volume D)
      (cs : List ℕ) (tree : FatTree) (after : Store)
      → HasTree s root t
      → WritesSomething sys.device
      → node_with s path t ≡ some p
      → HasFile s.store p d
      → is_directory (s.files d) ≡ true
      → HasParent s.store p q
      → is_directory (s.files q) ≡ true
      → read_children sys.device sys.fuel sys.dir_buf (s.files d) (record s.volume { errno = 0 })
        ≡ Device.Run.ok (record (s.files d) { nentries = n; children_read = b }, some children) v
      → All (λ child. node_with s child.filepath t ≡ none) children
      → (s.files d).start_cluster ≡ c
      → cluster_is_valid c ≡ true
      → Follows v.table c cs
      → suc (length cs) < sys.fuel
      → fat_tree_delete (with_path s path) sys.fuel (some root) path_key s.store
        ≡ NodeStore.ok tree after
      → (e : ℕ) × (w : Fuse D) × (rmdir sys (suc (suc fuel)) path s ≡ ok (minus e) w)
        × (w.file_tree ≡ tree)
        × (w.store ≡ after)
        × (w.store.is_live p ≡ false)
        × ((j : ℕ) → has j (c ∷ cs) ≡ true → entry w.volume.table j ≡ some cluster_free)
        × ((j : ℕ) → has j (c ∷ cs) ≡ false → entry w.volume.table j ≡ entry v.table j)
  unfolding rmdir remove_dir is_directory
  rmdir-unlisted path p d q fuel n c b children v cs tree after h writes found hf dir hp pdir reads
        out at valid chain g deleted =
      let s0 = record s { volume = record s.volume { errno = 0 } } in
      let h0 : HasTree s0 root t = record { at_root = h.at_root; is_tree = h.is_tree } in
      let dir' = record (s.files d) { nentries = n; children_read = b } in
      let s1 = record s { volume = v; files = updated s.files d dir' } in
      let h1 : HasTree s1 root t = record { at_root = h.at_root; is_tree = h.is_tree } in
      let paths : SamePaths s1 = λ x. updated-keeps (λ r. r.filepath) s.files d x dir' refl in
      let (e, loop) = remove_children-missing fuel children s1 h1 paths out in
      let s2 = record s1 { volume = record v { errno = e } } in
      let (file', v3, removes, fp, st, t3) =
        remove_entry-keeps sys s2 d hf.file_pos q hp.parent_file.file_pos in
      let s3 = record s2 { volume = v3; files = updated s2.files d file' } in
      let start : (s3.files d).start_cluster ≡ c =
        updated-keeps (λ r. r.start_cluster) s2.files d d file' st
        ∙ updated-keeps (λ r. r.start_cluster) s.files d d dir' refl
        ∙ at in
      let (v4, frees, _, gone, kept) =
        free_clusters-freed sys.device writes sys.fuel (s3.files d) cs v3 (rw start valid)
          (rw (start, t3) chain) g in
      (
        v4.errno,
        record s3 { volume = v4; store = after; file_tree = tree },
        and_then-ok _ (node_search-some sys s0 root t h0 path p f found) (
            rw (some_node s.store p d hf) (
              and_then-ok _ (file_of-HasFile s0 p d hf) (
                rw dir (
                  and_then-ok _ (ap (from_volume s0) reads) (
                    and_then-ok _ loop (
                      and_then-ok _ (ap (from_store s2) (get_parent-HasParent s.store p q hp)) (
                        and_then-ok _
                          (no_directory-false sys s2 q hp.parent_file.file_pos
                            (updated-keeps is_directory s.files d q dir' refl ∙ pdir))
                          (and_then-ok _ removes (
                            and_then-ok _ (free_file_clusters-ok sys s3 d hf.file_pos v4 frees) (
                              and_then-ok _
                                (delete_path-keeps sys s root t h _ path tree after h.at_root refl
                                  (λ x.
                                    updated-keeps (λ r. r.filepath) s2.files d x file' fp ∙ paths x)
                                  deleted)
                                refl)))))))))),
        refl,
        refl,
        deleted-IsFreed sys s root t h path p tree after found deleted,
        λ j m. gone j (rw start m),
        λ j m. kept j (rw start m) ∙ ap (λ u. entry u j) t3,
      )
