-- ===== src/Fat/Fuse/Created.antt =====
-- fat_fuse_mknod and fat_fuse_mkdir make a file that fat_fuse_getattr and the others find.
use famaf_unc.Fat.Device.{Volume}
use famaf_unc.Fat.Dentry.{FatFile, is_directory}
use famaf_unc.Fat.Table.{get_next_free_cluster, entry, cluster_free, with_entry, end_of_chain_max}
use famaf_unc.Fat.File.Free.{WritesSomething}
use famaf_unc.Fat.Directory.Made.{file_init-made}
use famaf_unc.Fat.Hierarchy.Shape.{Tree}
use famaf_unc.Fat.Hierarchy.Search.{or_new, address_of}
use famaf_unc.Fat.FileTree.{strcmp, file_cmp_path}
use famaf_unc.Fat.Fuse.{
  System, Fuse, Cmd, ok, ℤ, minus, and_then-ok, new_file, with_path, path_key, from_volume,
}
use famaf_unc.Fat.Fuse.Start.{new_or_null}
use famaf_unc.Fat.Fuse.Attributes.{file_search}
use famaf_unc.Fat.Fuse.Create.{link_child, make_dir, make_file, in_parent, mkdir, mknod}
use famaf_unc.Fat.Fuse.Found.{
  HasTree, HasFile, node_with, file_with, node_search-some, file_search-HasTree, some_node,
  file_of-HasFile,
}
use famaf_unc.Fat.Fuse.Linked.{CanLink, Fresh, found_file-Fresh, link_child-found}
use famaf_unc.Base.{
  ℕ, ◌+◌, ◌<◌, ◌≡◌, ◌∙◌, ap, false, true, List, Option, some, ◌==◌, arith, updated, updated_self,
  updated-ne,
}

-- The parent of a new file, and a place for it in memory that no file of the tree has.
pub record HasPlace {D : Type 0} (sys : System D) (s : Fuse D) (t : Tree) (path : List ℕ) (p q : ℕ)
    : Type 0 where
  pub found : node_with s (sys.dirname path) t ≡ some p
  pub has_file : HasFile s.store p q
  pub is_dir : is_directory (s.files q) ≡ true
  pub can_link : CanLink sys s.store t p
  pub next_pos : 0 < s.next_file
  pub next_fresh : Fresh s.next_file t
  pub not_next : (q == s.next_file) ≡ false

-- A search finds what it found in `s`, and else the new file if that has the path.
abbrev pub Finds : {D : Type 0} → System D → (s w : Fuse D) → (path : List ℕ) → Type 0
Finds sys s w path =
    (k : List ℕ)
    → (found : Option ℕ) × (file_search sys k s ≡ ok (address_of found) s)
      × (file_search sys k w ≡ ok (address_of (or_new (strcmp path k) s.next_file found)) w)

module _ {D : Type 0} (sys : System D) (s : Fuse D) (root : ℕ) (t : Tree) (h : HasTree s root t)
    (path : List ℕ) (p q : ℕ) (place : HasPlace sys s t path p q) where
  -- The state behind new_file.
  abbrev with_new : FatFile → Volume D → Fuse D
  with_new file v = record s {
    volume = v;
    files = updated s.files s.next_file file;
    next_file = s.next_file + 1;
  }

  same_found :
      (file : FatFile) (v : Volume D) (k : List ℕ)
      → file_with (with_new file v) k t ≡ file_with s k t
  unfolding file_cmp_path
  same_found file v k =
      found_file-Fresh (file_cmp_path (with_path (with_new file v) k))
        (file_cmp_path (with_path s k)) path_key s.next_file t
        (λ x ne. ap (λ r. strcmp r.filepath k) (updated-ne s.files s.next_file x file ne))
        place.next_fresh

  link_new :
      (file : FatFile) (v : Volume D)
      → file.filepath ≡ path
      → (e : ℕ) × (w : Fuse D) × (link_child sys p q s.next_file (with_new file v) ≡ ok (minus e) w)
        × (w.volume.table ≡ v.table)
        × ((w.files s.next_file).pos_in_parent ≡ (s.files q).nentries)
        × Finds sys s w path
  link_new file v same =
      let s2 = with_new file v in
      let less = place.can_link.fuelled in
      let h2 : HasTree s2 root t = record { at_root = h.at_root; is_tree = h.is_tree } in
      let (e, w, run, table, at, finds) =
        link_child-found sys s2 root t h2 p s.next_file place.can_link place.next_pos q
          place.has_file.file_pos in
      let new_path : (s2.files s.next_file).filepath ≡ path =
        ap (λ r. r.filepath) (updated_self s.files s.next_file file) ∙ same in
      (
        e,
        w,
        run,
        table,
        at ∙ ap (λ r. r.nentries) (updated-ne s.files s.next_file q file place.not_next),
        λ k. (
          file_with s k t,
          file_search-HasTree sys s root t h k (omega arith),
          finds k
              ∙ ap (λ f. ok (address_of (or_new (strcmp f k) s.next_file (file_with s2 k t))) w)
                  new_path
              ∙ ap (λ o. ok (address_of (or_new (strcmp path k) s.next_file o)) w)
                  (same_found file v k),
        ),
      )

  -- The searches of both for the parent.
  in_parent-makes :
      (make : (parent_node parent : ℕ) → Cmd D ℤ) (e : ℕ) (w : Fuse D)
      → make p q (record s { volume = record s.volume { errno = 0 } }) ≡ ok (minus e) w
      → in_parent sys path make s ≡ ok (minus e) w
  unfolding in_parent
  in_parent-makes make e w run =
      let s0 = record s { volume = record s.volume { errno = 0 } } in
      let h0 : HasTree s0 root t = record { at_root = h.at_root; is_tree = h.is_tree } in
      let less = place.can_link.fuelled in
      and_then-ok _
        (node_search-some sys s0 root t h0 (sys.dirname path) p (omega arith) place.found)
        (rw (some_node s.store p q place.has_file)
          (and_then-ok _ (file_of-HasFile s0 p q place.has_file) (rw place.is_dir run)))

  module _ (writes : WritesSomething sys.device) (c : ℕ)
      (search_free : get_next_free_cluster s.volume.table ≡ some c)
      (is_free : entry s.volume.table c ≡ some cluster_free) where
    -- When the tree has a directory with the path that dirname gives, a place for a file that no file of the tree has,
    -- and room for a node, the device writes at least one byte of each write, and the search of the table gives a free
    -- cluster, then fat_fuse_mknod of the path ends: the cluster ends a chain and no other entry of the table
    -- changes, the new file has the number of the entries of its parent as its place there, and a search for any
    -- path finds the file that it found before; where it found none, it finds the new file if that has the path,
    -- however long its name is.
    pub mknod-Finds :
        (e : ℕ) × (w : Fuse D) × (mknod sys path s ≡ ok (minus e) w)
        × (w.volume.table ≡ with_entry s.volume.table c end_of_chain_max)
        × ((w.files s.next_file).pos_in_parent ≡ (s.files q).nentries)
        × Finds sys s w path
    unfolding mknod make_file new_file
    mknod-Finds =
        let (file, v, init, same, table, _) =
          file_init-made sys.device writes false path c (record s.volume { errno = 0 }) search_free
            is_free in
        let (e, w, run, kept, at, finds) = link_new file v same in
        (
          e,
          w,
          in_parent-makes (make_file sys path) e w (
              and_then-ok _
                (ap (from_volume (record s { volume = record s.volume { errno = 0 } })) init) run),
          kept ∙ table,
          at,
          finds,
        )

    -- The same of fat_fuse_mkdir.
    mkdir-Finds :
        (e : ℕ) × (w : Fuse D) × (mkdir sys path s ≡ ok (minus e) w)
        × (w.volume.table ≡ with_entry s.volume.table c end_of_chain_max)
        × ((w.files s.next_file).pos_in_parent ≡ (s.files q).nentries)
        × Finds sys s w path
    unfolding mkdir make_dir new_or_null new_file
    mkdir-Finds =
        let (file, v, init, same, table, calm) =
          file_init-made sys.device writes true path c (record s.volume { errno = 0 }) search_free
            is_free in
        let (e, w, run, kept, at, finds) = link_new file v same in
        (
          e,
          w,
          in_parent-makes (make_dir sys path) e w (
              and_then-ok _
                (ap (from_volume (record s { volume = record s.volume { errno = 0 } })) init)
                (rw calm run)),
          kept ∙ table,
          at,
          finds,
        )
