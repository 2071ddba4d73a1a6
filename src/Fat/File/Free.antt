-- ===== src/Fat/File/Free.antt =====
-- fat_file_free_clusters frees the chain of a file and nothing else.
use famaf_unc.Fat.Dentry.{FatFile}
use famaf_unc.Fat.Table.Entries.{set_next_cluster-success}
use famaf_unc.Fat.Table.Distinct.{Follows-not-mem, Follows-with_entry}
use famaf_unc.Fat.File.{free_loop, cluster_free, cluster_is_valid, success, free_clusters, FatFile}
use famaf_unc.Fat.Table.Chain.{has, Follows, end-not-valid}
use famaf_unc.Fat.Table.{
  with_entry, set_next_cluster, get_next_cluster, entry, cluster_free, cluster_is_valid, success,
  le32_bytes,
}
use famaf_unc.Base.{
  ℕ, zero, suc, ◌+◌, ◌<◌, ◌≡◌, refl, sym, ap, ◌∙◌, true, false, some, List, [], ◌∷◌, arith, length,
  ◌==◌, Bool-cases, inl, inr, get_elem?-set_self, get_elem?-set_ne, lt_of_get_elem?, Option-cases,
  ◌*◌, ◌%◌, subst, ◌^◌, ◌≢◌,
}
use famaf_unc.Fat.Device.{Device, FatTable, Volume, done, ok}

-- Every write of some bytes to the volume moves some of them.
abbrev pub WritesSomething : {D : Type 0} → Device D → Type 0
WritesSomething {D} dev =
    (d : D) (bs : List ℕ) (offset : ℕ)
    → 0 < length bs
    → (n : ℕ) × ((dev.pwrite d bs offset).1 ≡ done (suc n))

-- The table with the entries of these clusters freed.
abbrev pub freed : FatTable → List ℕ → FatTable
freed t [] = t
freed t (c ∷ cs) = freed (with_entry t c cluster_free) cs

pub get_next_cluster-bound :
    (t : FatTable) (c n : ℕ) → get_next_cluster t c ≡ some n → c < length t.fat_map
unfolding get_next_cluster
get_next_cluster-bound t c n h = elim (Option-cases (entry t c)) [
  | inl e ↦ absurd (ground arith)
  | inr (x, e) ↦ lt_of_get_elem? t.fat_map c e
]

pub Follows-bound : (t : FatTable) (c : ℕ) (cs : List ℕ) → Follows t c cs → c < length t.fat_map
Follows-bound t c [] f = get_next_cluster-bound t c _ f
Follows-bound t c (d ∷ cs) f = get_next_cluster-bound t c d f.0

module _ {D : Type 0} (dev : Device D) (writes : WritesSomething dev) where
  pub set_next_cluster-writes :
      (cur next : ℕ) (v : Volume D)
      → cur < length v.table.fat_map
      → (w : Volume D) × (set_next_cluster dev cur next v ≡ ok success w)
        × (w.table ≡ with_entry v.table cur next)
        × (w.mem ≡ v.mem)
        × (w.errno ≡ v.errno)
  set_next_cluster-writes cur next v h =
      let (n, e) =
        writes v.disk (le32_bytes next) ((cur * 4) % 2 ^ 32 + v.table.fat_offset) (omega arith) in
      (_, set_next_cluster-success dev cur next v (suc n) e (omega arith) h, refl, refl, refl)

  free_loop-freed :
      (fuel c : ℕ) (cs : List ℕ) (v : Volume D)
      → cluster_is_valid c ≡ true
      → Follows v.table c cs
      → suc (length cs) < fuel
      → (w : Volume D) × (free_loop dev fuel c v ≡ ok tt w)
        × (w.table ≡ freed v.table (c ∷ cs))
        × (w.mem ≡ v.mem)
  unfolding free_loop
  free_loop-freed zero c cs v valid f h = absurd (omega arith)
  free_loop-freed (suc zero) c cs v valid f h = absurd (omega arith)
  free_loop-freed (suc (suc fuel)) c [] v valid f h =
      let (u, run, ut, um, _) =
        set_next_cluster-writes c cluster_free v (Follows-bound v.table c [] f) in
      (u, simp (valid, f, run, end-not-valid) refl, ut, um)
  free_loop-freed (suc (suc fuel)) c (d ∷ cs) v valid f h =
      let (u, run, ut, um, _) =
        set_next_cluster-writes c cluster_free v (Follows-bound v.table c (d ∷ cs) f) in
      let out = Follows-not-mem v.table c (d ∷ cs) f in
      let after = Follows-with_entry v.table c cluster_free d cs out f.2 in
      let (w, rest, wt, wm) =
        free_loop-freed (suc fuel) d cs u f.1 (subst (λ t. Follows t d cs) (sym ut) after)
          (omega arith) in
      (w, simp (valid, f.0, run, rest) refl, wt ∙ ap (λ t. freed t (d ∷ cs)) ut, wm ∙ um)

-- What the freed table holds.
freed-not-mem :
    (t : FatTable) (cs : List ℕ) (j : ℕ) → has j cs ≡ false → entry (freed t cs) j ≡ entry t j
freed-not-mem t [] j h = refl
freed-not-mem t (c ∷ cs) j h = elim (Bool-cases (j == c)) [
  | inl e ↦ absurd (ground arith)
  | inr e ↦
      let ne : c ≢ j = ground arith in
      freed-not-mem (with_entry t c cluster_free) cs j (ground arith)
      ∙ get_elem?-set_ne t.fat_map cluster_free ne
]

freed-free :
    (t : FatTable) (cs : List ℕ) (j : ℕ)
    → entry t j ≡ some cluster_free
    → entry (freed t cs) j ≡ some cluster_free
freed-free t [] j h = h
freed-free t (c ∷ cs) j h = elim (Bool-cases (c == j)) [
  | inl e ↦
      let q : c ≡ j = ground arith in
      freed-free (with_entry t c cluster_free) cs j
        (rw q (get_elem?-set_self t.fat_map j cluster_free (lt_of_get_elem? t.fat_map j h)))
  | inr e ↦
      let ne : c ≢ j = ground arith in
      freed-free (with_entry t c cluster_free) cs j (get_elem?-set_ne t.fat_map cluster_free ne ∙ h)
]

freed-head :
    (t : FatTable) (c : ℕ) (cs : List ℕ) (j : ℕ)
    → c < length t.fat_map
    → c ≡ j
    → entry (freed t (c ∷ cs)) j ≡ some cluster_free
freed-head t c cs j h e = freed-free (with_entry t c cluster_free) cs j (
    subst (λ z. entry (with_entry t c cluster_free) z ≡ some cluster_free) e
      (get_elem?-set_self t.fat_map c cluster_free h))

freed-mem :
    (t : FatTable) (c : ℕ) (cs : List ℕ) (j : ℕ)
    → Follows t c cs
    → has j (c ∷ cs) ≡ true
    → entry (freed t (c ∷ cs)) j ≡ some cluster_free
freed-mem t c [] j f m = freed-head t c [] j (Follows-bound t c [] f) (ground arith)
freed-mem t c (d ∷ ds) j f m = elim (Bool-cases (j == c)) [
  | inl e ↦ freed-head t c (d ∷ ds) j (Follows-bound t c (d ∷ ds) f) (ground arith)
  | inr e ↦
      freed-mem (with_entry t c cluster_free) d ds j
        (Follows-with_entry t c cluster_free d ds (Follows-not-mem t c (d ∷ ds) f) f.2)
        (ground arith)
]

-- If every write of some bytes to the volume moves some of them, and a valid chain of clusters
-- starts at the first cluster of the file, then with at least two units of fuel more than the
-- clusters behind it fat_file_free_clusters ends: every cluster of the chain is free, and every
-- other entry of the table, and memory, are as they were.
pub free_clusters-freed :
    {D : Type 0} (dev : Device D) (writes : WritesSomething dev) (fuel : ℕ) (file : FatFile)
    (cs : List ℕ) (v : Volume D)
    → cluster_is_valid file.start_cluster ≡ true
    → Follows v.table file.start_cluster cs
    → suc (length cs) < fuel
    → (w : Volume D) × (free_clusters dev fuel file v ≡ ok tt w)
      × (w.mem ≡ v.mem)
      × ((j : ℕ) → has j (file.start_cluster ∷ cs) ≡ true → entry w.table j ≡ some cluster_free)
      × ((j : ℕ) → has j (file.start_cluster ∷ cs) ≡ false → entry w.table j ≡ entry v.table j)
unfolding free_clusters
free_clusters-freed dev writes fuel file cs v valid f h =
    let (w, run, wt, wm) = free_loop-freed dev writes fuel file.start_cluster cs v valid f h in
    (
      w,
      run,
      wm,
      λ j m. ap (λ t. entry t j) wt ∙ freed-mem v.table file.start_cluster cs j f m,
      λ j m. ap (λ t. entry t j) wt ∙ freed-not-mem v.table (file.start_cluster ∷ cs) j m,
    )
