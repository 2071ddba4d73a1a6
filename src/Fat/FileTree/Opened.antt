-- ===== src/Fat/FileTree/Opened.antt =====
-- The counters of the opened files: opening and closing a file counts at all its ancestors.
use famaf_unc.Fat.NodeStore.{Store, ok, load}
use famaf_unc.Fat.Dentry.{FatFile, inc_num_times_opened, dec_num_times_opened}
use famaf_unc.Fat.Hierarchy.{null, h_tree_iterate_h_ancestors}
use famaf_unc.Fat.FileTree.{applied, fat_tree_inc_num_times_opened, fat_tree_dec_num_times_opened}
use famaf_unc.Base.{
  ℕ, zero, suc, ◌+◌, ◌%◌, ◌-◌, ◌<◌, ◌≡◌, ◌^◌, refl, ap, ◌∙◌, true, false, List, [], ◌∷◌, arith,
  ◌==◌, updated, length, Bool-cases, inl, inr, if◌then◌else◌,
}

-- `files` are the data of the node behind `p`, of its parent in the hierarchy, and so on to a node
-- with no parent.
abbrev pub HasAncestors : Store → (p : ℕ) → (files : List ℕ) → Type 0
HasAncestors s p [] = p ≡ null
HasAncestors s p (d ∷ ds) =
    (0 < p)
    × (s.is_live p ≡ true)
    × ((s.node p).data_ptr ≡ d)
    × HasAncestors s (s.node p).h_parent ds

iterate-HasAncestors :
    (fuel p : ℕ) (s : Store) (ds : List ℕ)
    → HasAncestors s p ds
    → length ds < fuel
    → h_tree_iterate_h_ancestors fuel p s ≡ ok ds s
unfolding h_tree_iterate_h_ancestors load
iterate-HasAncestors zero p s ds h f = absurd (omega arith)
iterate-HasAncestors (suc fuel) p s [] h f = rw h refl
iterate-HasAncestors (suc fuel) p s (d ∷ ds) h f =
    let some_node : (p == null) ≡ false = let pos : 0 < p = h.0 in ground arith in
    let rest = iterate-HasAncestors fuel (s.node p).h_parent s ds h.3 (omega arith) in
    simp (h_tree_iterate_h_ancestors, some_node, h.1, h.2, rest) refl

eq-of : (x p : ℕ) → (x == p) ≡ true → p ≡ x
eq-of x p e = ground arith

-- `f`, as often as `x` stands in the list.
abbrev times : (FatFile → FatFile) → (x : ℕ) → List ℕ → FatFile → FatFile
times f x [] file = file
times f x (p ∷ ps) file = times f x ps (if x == p then f file else file)

times-applied :
    (f : FatFile → FatFile) (x : ℕ) (ps : List ℕ) (files : ℕ → FatFile)
    → applied f ps files x ≡ times f x ps (files x)
times-applied f x [] files = refl
times-applied f x (p ∷ ps) files =
    let rest = times-applied f x ps (updated files p (f (files p))) in
    elim (Bool-cases (x == p)) [
      | inl e ↦ rest ∙ rw (e, ap files (eq-of x p e)) refl
      | inr e ↦ rest ∙ rw e refl
    ]

times_comm :
    (f : FatFile → FatFile) (x : ℕ) (ps : List ℕ) (file : FatFile)
    → times f x ps (f file) ≡ f (times f x ps file)
times_comm f x [] file = refl
times_comm f x (p ∷ ps) file = elim (Bool-cases (x == p)) [
  | inl e ↦ rw e (times_comm f x ps (f file))
  | inr e ↦ rw e (times_comm f x ps file)
]

times-bound :
    (x : ℕ) (ps : List ℕ) (file : FatFile)
    → file.num_times_opened < 2 ^ 31
    → (times inc_num_times_opened x ps file).num_times_opened < 2 ^ 31
unfolding inc_num_times_opened
times-bound x [] file h = h
times-bound x (p ∷ ps) file h = elim (Bool-cases (x == p)) [
  | inl e ↦ rw (e, times) (times-bound x ps (inc_num_times_opened file) (omega arith))
  | inr e ↦ rw (e, times) (times-bound x ps file h)
]

dec-inc :
    (file : FatFile)
    → file.num_times_opened < 2 ^ 31
    → dec_num_times_opened (inc_num_times_opened file) ≡ file
unfolding inc_num_times_opened dec_num_times_opened
dec-inc file h =
    ap (λ n. record file { num_times_opened = n })
      (let e : ((file.num_times_opened + 1) % 2 ^ 31 + 2 ^ 31 - 1) % 2 ^ 31
            ≡ file.num_times_opened =
          omega arith in
        e)

times-dec-inc :
    (x : ℕ) (ps : List ℕ) (file : FatFile)
    → file.num_times_opened < 2 ^ 31
    → times dec_num_times_opened x ps (times inc_num_times_opened x ps file) ≡ file
times-dec-inc x [] file h = refl
times-dec-inc x (p ∷ ps) file h =
    let rest = times-dec-inc x ps file h in
    elim (Bool-cases (x == p)) [
      | inl e ↦
          rw (e, times_comm inc_num_times_opened x ps file)
            (rw (dec-inc (times inc_num_times_opened x ps file) (times-bound x ps file h)) rest)
      | inr e ↦ rw e rest
    ]

-- When a node and its ancestors in the hierarchy end at one with no parent, and the fuel is more than their number,
-- then fat_tree_inc_num_times_opened on the node ends, fat_tree_dec_num_times_opened on it after that ends too, the
-- store of nodes does not change, and each file whose counter was below 2 ^ 31 is as it was before both.
pub fat_tree_dec-inc :
    (fuel p : ℕ) (ds : List ℕ) (s : Store) (files : ℕ → FatFile)
    → HasAncestors s p ds
    → length ds < fuel
    → (opened closed : ℕ → FatFile) × (fat_tree_inc_num_times_opened fuel p files s ≡ ok opened s)
      × (fat_tree_dec_num_times_opened fuel p opened s ≡ ok closed s)
      × ((x : ℕ) → (files x).num_times_opened < 2 ^ 31 → closed x ≡ files x)
unfolding fat_tree_inc_num_times_opened fat_tree_dec_num_times_opened
fat_tree_dec-inc fuel p ds s files h f =
    let run = iterate-HasAncestors fuel p s ds h f in
    let opened = applied inc_num_times_opened ds files in
    (
      opened,
      applied dec_num_times_opened ds opened,
      rw run refl,
      rw run refl,
      λ x small.
          times-applied dec_num_times_opened x ds opened
          ∙ ap (times dec_num_times_opened x ds) (times-applied inc_num_times_opened x ds files)
          ∙ times-dec-inc x ds (files x) small,
    )
