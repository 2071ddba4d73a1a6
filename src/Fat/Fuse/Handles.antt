-- ===== src/Fat/Fuse/Handles.antt =====
-- The operations on handles: open, opendir, release, releasedir and readdir.
use famaf_unc.Fat.Dentry.{is_directory}
use famaf_unc.Fat.Hierarchy.{null}
use famaf_unc.Fat.FileTree.{
  fat_tree_get_file, fat_tree_inc_num_times_opened, fat_tree_dec_num_times_opened,
  fat_tree_flatten_h_children,
}
use famaf_unc.Fat.Fuse.{
  System, ok, fault, out_of_fuel, Cmd, pure, ◌>>=◌, ◌>>◌, ℤ, pos, minus, on_store, file_at,
  node_search, file_of, fail_with, return_errno, set_errno,
}
use famaf_unc.Fat.Fuse.Load.{load_directory_children, enotdir}
use famaf_unc.Base.{
  ℕ, zero, suc, ◌+◌, Bool, true, false, ◌&&◌, List, [], ◌∷◌, Option, none, some, ◌==◌, leb,
}

-- EISDIR
abbrev pub eisdir : ℕ
eisdir = 21

-- strcmp(name, "bb") == 0
abbrev pub is_bb : List ℕ → Bool
is_bb (c ∷ d ∷ []) = c == b'b' && d == b'b'
is_bb name = false

module _ {D : Type 0} (sys : System D) where
  -- The counters are in the files.
  unfoldable pub inc_opened : (node : ℕ) → Cmd D (Unit {0})
  inc_opened node s =
      (do
        files ← on_store (fat_tree_inc_num_times_opened sys.fuel node s.files)
        (λ w. ok tt (record w { files = files })))
        s

  unfoldable pub dec_opened : (node : ℕ) → Cmd D (Unit {0})
  dec_opened node s =
      (do
        files ← on_store (fat_tree_dec_num_times_opened sys.fuel node s.files)
        (λ w. ok tt (record w { files = files })))
        s

  -- With the node that is put into `fi->fh`.
  unfoldable pub fuse_open : List ℕ → Cmd D (ℤ × Option ℕ)
  fuse_open path = do
    file_node ← node_search sys path
    elim (file_node == null) [
      | true ↦ do r ← return_errno; pure (r, none)
      | false ↦ do
        (p, file) ← file_of file_node
        elim (is_directory file) [
          | true ↦ pure (minus eisdir, none)
          | false ↦ do inc_opened file_node; pure (pos 0, some file_node)
        ]
    ]

  unfoldable pub opendir : List ℕ → Cmd D (ℤ × Option ℕ)
  opendir path = do
    file_node ← node_search sys path
    elim (file_node == null) [
      | true ↦ do r ← return_errno; pure (r, none)
      | false ↦ do
        (p, file) ← file_of file_node
        elim (is_directory file) [
          | false ↦ pure (minus enotdir, none)
          | true ↦ do inc_opened file_node; pure (pos 0, some file_node)
        ]
    ]

  unfoldable pub release : (fh : ℕ) → Cmd D ℤ
  release fh = do dec_opened fh; pure (pos 0)

  unfoldable pub releasedir : (fh : ℕ) → Cmd D ℤ
  releasedir fh = do dec_opened fh; pure (pos 0)

  -- `filler` of FUSE is a parameter, which adds a name to a buffer and tells whether it failed; it does not set
  -- errno.
  module _ {B : Type 0} (filler : B → List ℕ → B × Bool) where
    -- The loop over the array of children from place `i`, of which `size` have been allocated.
    unfoldable pub fill_children : (fuel size : ℕ) → (array : ℕ → ℕ) → (i : ℕ) → B → Cmd D B
    fill_children zero size array i buf = λ s. out_of_fuel
    fill_children (suc fuel) size array i buf = elim (leb size i) [
      | true ↦ λ s. fault
      | false ↦ elim (array i == null) [
        | true ↦ pure buf
        | false ↦ do
          child ← file_at (array i)
          elim (is_bb child.name) [
            | true ↦ fill_children fuel size array (i + 1) buf
            | false ↦ elim (filler buf child.name).1 [
              | true ↦ pure (filler buf child.name).0
              | false ↦ fill_children fuel size array (i + 1) (filler buf child.name).0
            ]
          ]
      ]
    ]

    -- The loop over what fat_tree_flatten_h_children gives, NULL included.
    unfoldable pub fill_from : Option (ℕ × (ℕ → ℕ)) → B → Cmd D B
    fill_from none buf = λ s. fault
    fill_from (some (size, array)) buf = fill_children sys.fuel size array 0 buf

    -- The branch behind "." and "..". After the load `errno < 0` never holds, since errno is set to constants that
    -- are positive.
    unfoldable pub readdir_children : (fh : ℕ) → B → Cmd D (ℤ × B)
    readdir_children fh buf = do
      (p, dir) ← file_of fh
      elim (is_directory dir) [
        | false ↦ do r ← fail_with enotdir; pure (r, buf)
        | true ↦ do
          elim dir.children_read [ true ↦ pure tt | false ↦ load_directory_children sys fh ]
          children ← λ s. on_store (fat_tree_flatten_h_children sys.fuel fh s.files) s
          filled ← fill_from children buf
          pure (pos 0, filled)
      ]

    -- `dir` is read before the first name is filled in.
    unfoldable pub readdir : (fh : ℕ) → B → Cmd D (ℤ × B)
    readdir fh buf = do
      set_errno 0
      dir ← on_store (fat_tree_get_file fh)
      let one = filler buf (b'.' ∷ [])
      let two = filler one.0 (b'.' ∷ b'.' ∷ [])
      elim one.1 [
        | true ↦ do r ← return_errno; pure (r, one.0)
        | false ↦ elim two.1 [
          | true ↦ do r ← return_errno; pure (r, two.0)
          | false ↦ readdir_children fh two.0
        ]
      ]
