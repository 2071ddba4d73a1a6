-- ===== src/Fat/File/Extend.antt =====
-- next_or_new_cluster: the step along a file's chain that makes it longer at its end.
use famaf_unc.Fat.Table.Alloc.{get_next_free_cluster-least}
use famaf_unc.Fat.Table.Distinct.{Follows-not-mem, get_next_cluster-with_entry}
use famaf_unc.Fat.File.Free.{
  Follows-bound, WritesSomething, set_next_cluster-writes, get_next_cluster-bound,
}
use famaf_unc.Fat.Table.{
  cluster_is_valid, with_entry, get_next_cluster, is_valid_cluster_number, end_of_chain_max,
  cluster_is_eoc, entry, cluster_free, end_unless_valid, get_next_free_cluster,
}
use famaf_unc.Fat.File.{
  next_or_new_cluster, cluster_is_eoc, end_of_chain_max, cluster_free, get_next_free_cluster,
}
use famaf_unc.Fat.Table.Chain.{has, Follows, valid-ne-end}
use famaf_unc.Base.{
  ℕ, ◌<◌, ◌≡◌, refl, sym, ◌∙◌, true, false, some, List, [], ◌∷◌, ◌++◌, arith, length, ◌==◌,
  Bool-cases, inl, inr, subst, ◌≢◌, get_elem?-set_self, get_elem?-set_ne, set, length-set, ◌≤◌,
  lt_of_get_elem?, ap,
}
use famaf_unc.Fat.Device.{Device, FatTable, Volume, ok}

valid-not-eoc : (c : ℕ) → cluster_is_valid c ≡ true → cluster_is_eoc c ≡ false
unfolding cluster_is_valid cluster_is_eoc
valid-not-eoc c h = ground arith

abbrev pub last_cluster : ℕ → List ℕ → ℕ
last_cluster c [] = c
last_cluster c (d ∷ cs) = last_cluster d cs

has-last : (c : ℕ) (cs : List ℕ) → has (last_cluster c cs) (c ∷ cs) ≡ true
has-last c [] = ground arith
has-last c (d ∷ cs) = ground (arith, has-last d cs)

get_next_cluster-free :
    (t : FatTable) (c : ℕ)
    → entry t c ≡ some cluster_free
    → get_next_cluster t c ≡ some end_of_chain_max
unfolding get_next_cluster
get_next_cluster-free t c h = rw h refl

not_eq_of_has : (c d : ℕ) (cs : List ℕ) → has c cs ≡ false → has d cs ≡ true → (c == d) ≡ false
not_eq_of_has c d cs out m = elim (Bool-cases (c == d)) [
  | inl e ↦ let q : c ≡ d = ground arith in let m' = subst (λ z. has z cs ≡ true) (sym q) m in cc
  | inr e ↦ e
]

-- A free cluster is in no chain whose last entry is not free.
free-not-mem :
    (t : FatTable) (c new : ℕ) (cs : List ℕ)
    → Follows t c cs
    → entry t new ≡ some cluster_free
    → entry t (last_cluster c cs) ≢ some cluster_free
    → has new (c ∷ cs) ≡ false
free-not-mem t c new [] f free used = elim (Bool-cases (new == c)) [
  | inl e ↦
      let q : new ≡ c = ground arith in
      absurd (used (subst (λ z. entry t z ≡ some cluster_free) q free))
  | inr e ↦ ground arith
]
free-not-mem t c new (d ∷ cs) f free used = elim (Bool-cases (new == c)) [
  | inl e ↦
      let q : new ≡ c = ground arith in
      let g = get_next_cluster-free t c (subst (λ z. entry t z ≡ some cluster_free) q free) in
      absurd (ground (arith, valid-ne-end d f.1))
  | inr e ↦ ground (arith, free-not-mem t d new cs f.2 free used)
]

-- Inside a chain it gives the next cluster and changes nothing.
pub next_or_new_cluster-next :
    {D : Type 0} (dev : Device D) (c d : ℕ) (v : Volume D)
    → get_next_cluster v.table c ≡ some d
    → cluster_is_valid d ≡ true
    → next_or_new_cluster dev c v ≡ ok d v
unfolding next_or_new_cluster
next_or_new_cluster-next dev c d v next valid =
    let inside : cluster_is_eoc d ≡ false = valid-not-eoc d valid in simp (next, inside) refl

abbrev pub appended : FatTable → ℕ → ℕ → FatTable
appended t last new = with_entry (with_entry t last new) new end_of_chain_max

get_next_cluster-appended_last :
    (t : FatTable) (last new : ℕ)
    → (last == new) ≡ false
    → is_valid_cluster_number t new ≡ true
    → last < length t.fat_map
    → get_next_cluster (appended t last new) last ≡ some new
unfolding get_next_cluster
get_next_cluster-appended_last t last new ne num l =
    let q : new ≢ last = ground arith in
    rw
      (
        get_elem?-set_ne (set t.fat_map last new) end_of_chain_max q,
        get_elem?-set_self t.fat_map last new l,
      )
      (rw num refl)

get_next_cluster-appended_new :
    (t : FatTable) (last new : ℕ)
    → new < length t.fat_map
    → get_next_cluster (appended t last new) new ≡ some end_of_chain_max
unfolding get_next_cluster
get_next_cluster-appended_new t last new l =
    rw
      (get_elem?-set_self (set t.fat_map last new) new end_of_chain_max
        (omega (arith, length-set t.fat_map last new)))
      (ground arith)

-- Linking a new cluster behind the last one puts it at the end of the chain.
Follows-append :
    (t : FatTable) (c new : ℕ) (cs : List ℕ)
    → Follows t c cs
    → has new (c ∷ cs) ≡ false
    → cluster_is_valid new ≡ true
    → is_valid_cluster_number t new ≡ true
    → new < length t.fat_map
    → Follows (appended t (last_cluster c cs) new) c (cs ++ new ∷ [])
Follows-append t c new [] f out valid num l = (
  get_next_cluster-appended_last t c new (ground arith) num (Follows-bound t c [] f),
  valid,
  get_next_cluster-appended_new t c new l,
)
Follows-append t c new (d ∷ cs) f out valid num l =
    let last = last_cluster d cs in
    let self = Follows-not-mem t c (d ∷ cs) f in
    let ne : (c == last) ≡ false = not_eq_of_has c last (d ∷ cs) self (has-last d cs) in
    (
      get_next_cluster-with_entry (with_entry t last new) new end_of_chain_max c (ground arith)
          ∙ get_next_cluster-with_entry t last new c ne
          ∙ f.0,
      f.1,
      Follows-append t d new cs f.2 (ground arith) valid num l,
    )

get_next_cluster-last :
    (t : FatTable) (c : ℕ) (cs : List ℕ)
    → Follows t c cs
    → get_next_cluster t (last_cluster c cs) ≡ some end_of_chain_max
get_next_cluster-last t c [] f = f
get_next_cluster-last t c (d ∷ cs) f = get_next_cluster-last t d cs f.2

-- The numbers of the map's entries are those of the volume's data clusters.
abbrev pub MapsDataClusters : FatTable → Type 0
MapsDataClusters t =
    (k : ℕ)
    → 2 ≤ k
    → k < length t.fat_map
    → (is_valid_cluster_number t k ≡ true) × (cluster_is_valid k ≡ true)

eoc-end : cluster_is_eoc end_of_chain_max ≡ true
unfolding cluster_is_eoc
eoc-end = refl

end_unless_valid-valid :
    (t : FatTable) (c : ℕ) → is_valid_cluster_number t c ≡ true → end_unless_valid t c ≡ c
unfolding end_unless_valid
end_unless_valid-valid t c h = ground (arith, h)

next_or_new_cluster-run :
    {D : Type 0} (dev : Device D) (writes : WritesSomething dev) (last new : ℕ) (v : Volume D)
    → get_next_cluster v.table last ≡ some end_of_chain_max
    → get_next_free_cluster v.table ≡ some new
    → cluster_is_eoc new ≡ false
    → last < length v.table.fat_map
    → new < length v.table.fat_map
    → (w : Volume D) × (next_or_new_cluster dev last v ≡ ok new w)
      × (w.table ≡ appended v.table last new)
unfolding next_or_new_cluster
next_or_new_cluster-run dev writes last new v end free fits l m =
    let (u, run, ut, _, _) = set_next_cluster-writes dev writes last new v l in
    let len = ap (λ t. length t.fat_map) ut ∙ length-set v.table.fat_map last new in
    let (w, run', wt, _, _) =
      set_next_cluster-writes dev writes new end_of_chain_max u (omega (arith, len)) in
    (
      w,
      simp (end, eoc-end, free, fits, run, run') refl,
      wt ∙ ap (λ t. with_entry t new end_of_chain_max) ut,
    )

-- At the end of a chain whose last entry is not free, in a map whose entries from 2 on all stand
-- for data clusters, with a free cluster left and every write of some bytes moving some of them,
-- next_or_new_cluster gives a cluster that was free, which is now the last of the chain; no entry
-- but those of the two last clusters has changed.
pub next_or_new_cluster-extends :
    {D : Type 0} (dev : Device D) (writes : WritesSomething dev) (c : ℕ) (cs : List ℕ) (j : ℕ)
    (v : Volume D)
    → MapsDataClusters v.table
    → Follows v.table c cs
    → entry v.table (last_cluster c cs) ≢ some cluster_free
    → 2 ≤ j
    → entry v.table j ≡ some cluster_free
    → (new : ℕ) × (w : Volume D) × (next_or_new_cluster dev (last_cluster c cs) v ≡ ok new w)
      × (entry v.table new ≡ some cluster_free)
      × Follows w.table c (cs ++ new ∷ [])
      × ((k : ℕ) → k ≢ last_cluster c cs → k ≢ new → entry w.table k ≡ entry v.table k)
next_or_new_cluster-extends dev writes c cs j v maps f used two free =
    let t = v.table in
    let last = last_cluster c cs in
    let (new, least, _, search) = get_next_free_cluster-least t j two free in
    let l = lt_of_get_elem? t.fat_map new least.free in
    let (num, valid) = maps new least.above l in
    let found = search ∙ ap (λ n. some n) (end_unless_valid-valid t new num) in
    let end = get_next_cluster-last t c cs f in
    let (w, run, wt) =
      next_or_new_cluster-run dev writes last new v end found (valid-not-eoc new valid)
        (get_next_cluster-bound t last _ end) l in
    let out = free-not-mem t c new cs f least.free used in
    (
      new,
      w,
      run,
      least.free,
      subst (λ z. Follows z c (cs ++ new ∷ [])) (sym wt)
          (Follows-append t c new cs f out valid num l),
      λ k a b.
          ap (λ z. entry z k) wt
          ∙ get_elem?-set_ne (set t.fat_map last new) end_of_chain_max (λ e. b (sym e))
          ∙ get_elem?-set_ne t.fat_map new (λ e. a (sym e)),
    )
