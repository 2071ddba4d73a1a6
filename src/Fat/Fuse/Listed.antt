-- ===== src/Fat/Fuse/Listed.antt =====
-- fat_fuse_readdir of a directory whose children have been read.
use famaf_unc.Fat.NodeStore
use famaf_unc.Fat.NodeStore.{Store, load}
use famaf_unc.Fat.Dentry.{FatFile, is_directory}
use famaf_unc.Fat.Hierarchy.{null, flatten_siblings, h_tree_flatten_h_children, h_tree_size}
use famaf_unc.Fat.Hierarchy.Flatten.{laid_out}
use famaf_unc.Fat.FileTree.{fat_tree_flatten_h_children}
use famaf_unc.Fat.Fuse.{System, Fuse, ok, pos, and_then-ok, from_store, file_at}
use famaf_unc.Fat.Fuse.Handles.{is_bb, fill_children, fill_from, readdir_children, readdir}
use famaf_unc.Fat.Fuse.Found.{HasFile, some_node, get_file-HasFile, file_of-HasFile, file_at-pos}
use famaf_unc.Base.{
  ℕ, zero, suc, ◌+◌, ◌<◌, ◌≤◌, ◌≡◌, ◌∙◌, refl, ap, Bool, true, false, List, [], ◌∷◌, ◌++◌, some,
  ◌==◌, arith, leb, length, updated, updated_self, updated-ne, Bool-cases, inl, inr, if◌then◌else◌,
  append_assoc, append-nil, All, sym,
}

-- The files of the node behind `p`, of its next sibling, and so on to the last one.
abbrev pub HasSiblings : Store → (p : ℕ) → (files : List ℕ) → Type 0
HasSiblings s p [] = p ≡ null
HasSiblings s p (d ∷ ds) =
    (0 < p)
    × (s.is_live p ≡ true)
    × ((s.node p).data_ptr ≡ d)
    × HasSiblings s (s.node p).h_next_sibling ds

-- The array holds the files from the place `i` on, and then NULL.
abbrev Lists : (array : ℕ → ℕ) → (i : ℕ) → List ℕ → Type 0
Lists array i [] = array i ≡ null
Lists array i (d ∷ ds) = (array i ≡ d) × Lists array (i + 1) ds

laid_out-below :
    (ds : List ℕ) (at j : ℕ) (array : ℕ → ℕ) → j < at → laid_out ds at array j ≡ array j
laid_out-below [] at j array h = refl
laid_out-below (d ∷ ds) at j array h =
    laid_out-below ds (at + 1) j (updated array at d) (omega arith)
    ∙ updated-ne array at j d (ground arith)

-- What flatten_siblings makes of a list.
abbrev ended : List ℕ → (at : ℕ) → (ℕ → ℕ) → ℕ → ℕ
ended [] at array = updated array at null
ended (d ∷ ds) at array = ended ds (at + 1) (updated array at d)

ended-below : (ds : List ℕ) (at j : ℕ) (array : ℕ → ℕ) → j < at → ended ds at array j ≡ array j
ended-below [] at j array h = updated-ne array at j null (ground arith)
ended-below (d ∷ ds) at j array h =
    ended-below ds (at + 1) j (updated array at d) (omega arith)
    ∙ updated-ne array at j d (ground arith)

ended-Lists : (ds : List ℕ) (at : ℕ) (array : ℕ → ℕ) → Lists (ended ds at array) at ds
ended-Lists [] at array = updated_self array at null
ended-Lists (d ∷ ds) at array = (
  ended-below ds (at + 1) at (updated array at d) (omega arith) ∙ updated_self array at d,
  ended-Lists ds (at + 1) (updated array at d),
)

flatten_siblings-ended :
    (fuel p at : ℕ) (array : ℕ → ℕ) (s : Store) (ds : List ℕ)
    → HasSiblings s p ds
    → length ds < fuel
    → flatten_siblings fuel p at array s ≡ NodeStore.ok (ended ds at array) s
unfolding flatten_siblings load
flatten_siblings-ended zero p at array s ds h f = absurd (omega arith)
flatten_siblings-ended (suc fuel) p at array s [] h f = rw h refl
flatten_siblings-ended (suc fuel) p at array s (d ∷ ds) h f =
    let some_child : (p == null) ≡ false = let pos : 0 < p = h.0 in ground arith in
    let rest =
      flatten_siblings-ended fuel (s.node p).h_next_sibling (at + 1) (updated array at d) s ds h.3
        (omega arith) in
    simp (flatten_siblings, some_child, h.1, h.2, rest) refl

-- The names of all but the hidden directory.
unfoldable pub shown : (ℕ → FatFile) → List ℕ → List (List ℕ)
shown files [] = []
shown files (d ∷ ds) =
    let rest = shown files ds in if is_bb (files d).name then rest else ((files d).name ∷ rest)

-- A filler that never fails.
abbrev pub collect : List (List ℕ) → List ℕ → List (List ℕ) × Bool
collect buf name = (buf ++ (name ∷ []), false)

module _ {D : Type 0} (sys : System D) where
  flatten-ended :
      (s : Fuse D) (fh d : ℕ) (ds : List ℕ)
      → HasFile s.store fh d
      → 0 < (s.store.node fh).size
      → HasSiblings s.store (s.store.node fh).h_children ds
      → length ds < sys.fuel
      → fat_tree_flatten_h_children sys.fuel fh s.files s.store
        ≡ NodeStore.ok (some ((s.files d).nentries + 1, ended ds 0 (λ i. 0))) s.store
  unfolding fat_tree_flatten_h_children h_tree_flatten_h_children h_tree_size load
  flatten-ended s fh d ds hf some_nodes siblings f =
      let node_given = some_node s.store fh d hf in
      let counted : ((s.store.node fh).size == 0) ≡ false = ground arith in
      let run =
        flatten_siblings-ended sys.fuel (s.store.node fh).h_children 0 (λ i. 0) s.store ds siblings
          f in
      let flat : h_tree_flatten_h_children sys.fuel fh 0 (λ i. 0) s.store
          ≡ NodeStore.ok (ended ds 0 (λ i. 0)) s.store =
        rw (node_given, h_tree_flatten_h_children, hf.live) run in
      rw (node_given, hf.live, counted, get_file-HasFile s.store fh d hf, flat) refl

  fill_children-shown :
      (fuel size : ℕ) (array : ℕ → ℕ) (i : ℕ) (buf : List (List ℕ)) (s : Fuse D) (ds : List ℕ)
      → Lists array i ds
      → All (λ d. 0 < d) ds
      → i + length ds < size
      → length ds < fuel
      → fill_children sys collect fuel size array i buf s ≡ ok (buf ++ shown s.files ds) s
  unfolding fill_children shown
  fill_children-shown zero size array i buf s ds h g l f = absurd (omega arith)
  fill_children-shown (suc fuel) size array i buf s [] h g l f =
      let within : leb size i ≡ false = ground arith in
      rw (within, h, fill_children) (ap (λ b. ok b s) (sym (append-nil buf)))
  fill_children-shown (suc fuel) size array i buf s (d ∷ ds) h g l f =
      let within : leb size i ≡ false = ground arith in
      let given : 0 < d = g.0 in
      let some_child : (array i == null) ≡ false = rw h.0 (ground arith) in
      let read : file_at (array i) s ≡ ok (s.files d) s = rw h.0 (file_at-pos s d g.0) in
      let name = (s.files d).name in
      elim (Bool-cases (is_bb name)) [
        | inl e ↦
            let rest =
              fill_children-shown fuel size array (i + 1) buf s ds h.1 g.1 (omega arith)
                (omega arith) in
            rw (within, some_child, fill_children) (and_then-ok _ read (rw e rest))
        | inr e ↦
            let rest =
              fill_children-shown fuel size array (i + 1) (buf ++ (name ∷ [])) s ds h.1 g.1
                (omega arith) (omega arith) in
            rw (within, some_child, fill_children)
              (and_then-ok _ read
                (rw e (rest ∙ ap (λ b. ok b s) (append_assoc buf (name ∷ []) (shown s.files ds)))))
      ]

  -- When the handle is a live node whose file is a directory that has been read, its children are siblings that end,
  -- none of them is NULL, their number is at most the number of entries of the directory and less than the fuel, and
  -- the filler never fails, then fat_fuse_readdir gives 0 and fills in ".", "..", and the name of each child in order
  -- but for those with the name "bb"; of the state only errno changes.
  pub readdir-shown :
      (s : Fuse D) (fh d : ℕ) (ds : List ℕ)
      → HasFile s.store fh d
      → 0 < (s.store.node fh).size
      → is_directory (s.files d) ≡ true
      → (s.files d).children_read ≡ true
      → HasSiblings s.store (s.store.node fh).h_children ds
      → All (λ c. 0 < c) ds
      → length ds ≤ (s.files d).nentries
      → length ds < sys.fuel
      → readdir sys collect fh [] s
        ≡ ok
            (pos 0, (b'.' ∷ []) ∷ (b'.' ∷ b'.' ∷ []) ∷ shown s.files ds)
            (record s { volume = record s.volume { errno = 0 } })
  unfolding readdir readdir_children fill_from
  readdir-shown s fh d ds hf some_nodes dir is_read siblings given room f =
      let s0 = record s { volume = record s.volume { errno = 0 } } in
      let files = flatten-ended s fh d ds hf some_nodes siblings f in
      let filled =
        fill_children-shown sys.fuel ((s.files d).nentries + 1) (ended ds 0 (λ i. 0)) 0
          ((b'.' ∷ []) ∷ (b'.' ∷ b'.' ∷ []) ∷ []) s0 ds (ended-Lists ds 0 (λ i. 0)) given
          (omega arith) f in
      and_then-ok _ (ap (from_store s0) (get_file-HasFile s.store fh d hf)) (
        and_then-ok _ (file_of-HasFile s0 fh d hf) (
          rw (dir, is_read) (and_then-ok _ (ap (from_store s0) files) (and_then-ok _ filled refl))))
