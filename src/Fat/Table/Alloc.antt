-- ===== src/Fat/Table/Alloc.antt =====
-- fat_table_get_next_free_cluster finds the least free cluster.
use famaf_unc.Base.{
  ℕ, zero, suc, ◌+◌, ◌-◌, ◌≤◌, ◌<◌, ◌≡◌, refl, sym, ◌∙◌, ◌≢◌, false, none, some, List, [], ◌∷◌,
  arith, ◌==◌, get_elem?, drop, Bool-cases, inl, inr, ◌⊎◌,
}
use famaf_unc.Fat.Device.{FatTable}
use famaf_unc.Fat.Table.{entry, cluster_free, first_free, end_unless_valid, get_next_free_cluster}

-- `c` is the first free cluster behind the two reserved entries.
pub record IsLeastFree (t : FatTable) (c : ℕ) : Type 0 where
  pub above : 2 ≤ c
  pub free : entry t c ≡ some cluster_free
  pub least : (j : ℕ) → 2 ≤ j → j < c → entry t j ≢ some cluster_free

record IsFirst (es : List ℕ) (c : ℕ) : Type 0 where
  free : get_elem? es c ≡ some cluster_free
  least : (j : ℕ) → j < c → get_elem? es j ≢ some cluster_free

IsFirst-suc :
    (e : ℕ) (es : List ℕ) (c : ℕ)
    → (e == cluster_free) ≡ false
    → IsFirst es c
    → IsFirst (e ∷ es) (suc c)
IsFirst-suc e es c used f = record { free = f.free; least = later }
  where
    later : (j : ℕ) → j < suc c → get_elem? (e ∷ es) j ≢ some cluster_free
    later zero h q = ground arith
    later (suc j) h q = f.least j (omega arith) q

first_free-finds :
    (i j : ℕ) (es : List ℕ)
    → get_elem? es j ≡ some cluster_free
    → (c : ℕ) × IsFirst es c × (c ≤ j) × (first_free i es ≡ some (i + c))
unfolding first_free
first_free-finds i j [] h = absurd (ground arith)
first_free-finds i zero (e ∷ es) h =
    (0, record { free = h; least = λ k l q. omega arith }, omega arith, ground arith)
first_free-finds i (suc j) (e ∷ es) h = elim (Bool-cases (e == cluster_free)) [
  | inl z ↦
      (0, record { free = ground arith; least = λ k l q. omega arith }, omega arith, ground arith)
  | inr u ↦
      let (c, f, l, q) = first_free-finds (i + 1) j es h in
      (suc c, IsFirst-suc e es c u f, omega arith, ground arith)
]

first_free-full :
    (i : ℕ) (es : List ℕ) → ((j : ℕ) → get_elem? es j ≢ some cluster_free) → first_free i es ≡ none
unfolding first_free
first_free-full i [] h = refl
first_free-full i (e ∷ es) h = ground (arith, h 0, first_free-full (i + 1) es (λ j. h (suc j)))

get_elem?-drop : (n i : ℕ) (xs : List ℕ) → get_elem? (drop n xs) i ≡ get_elem? xs (n + i)
get_elem?-drop zero i xs = let e : zero + i ≡ i = omega arith in rw e
get_elem?-drop (suc n) i [] = refl
get_elem?-drop (suc n) i (x ∷ xs) =
    let e : suc n + i ≡ suc (n + i) = omega arith in rw e (get_elem?-drop n i xs)

-- If some entry behind the two reserved ones is free, the search ends at the first such entry, and
-- returns its number, or the end mark where that is no number of a data cluster.
pub get_next_free_cluster-least :
    (t : FatTable) (j : ℕ)
    → 2 ≤ j
    → entry t j ≡ some cluster_free
    → (c : ℕ) × IsLeastFree t c × (c ≤ j) × (get_next_free_cluster t ≡ some (end_unless_valid t c))
unfolding get_next_free_cluster
get_next_free_cluster-least t j h e =
    let shift : 2 + (j - 2) ≡ j = omega arith in
    let (c, f, l, q) =
      first_free-finds 2 (j - 2) (drop 2 t.fat_map)
        (rw (get_elem?-drop 2 (j - 2) t.fat_map, shift) e) in
    (
      2 + c,
      record {
        above = omega arith;
        free = sym (get_elem?-drop 2 c t.fat_map) ∙ f.free;
        least = λ k k2 kc r. f.least (k - 2) (omega arith) (
            get_elem?-drop 2 (k - 2) t.fat_map
            ∙ let back : 2 + (k - 2) ≡ k = omega arith in rw back r);
      },
      omega arith,
      rw q refl,
    )

-- If no entry behind the two reserved ones is free, the search reads past the end of the map: the
-- test that should report a full volume stands behind the loop.
pub get_next_free_cluster-full :
    (t : FatTable)
    → ((j : ℕ) → 2 ≤ j → entry t j ≢ some cluster_free)
    → get_next_free_cluster t ≡ none
unfolding get_next_free_cluster
get_next_free_cluster-full t full = rw (
    first_free-full 2 (drop 2 t.fat_map)
      (λ j e. full (2 + j) (omega arith) (sym (get_elem?-drop 2 j t.fat_map) ∙ e)))

-- Either some entry behind the two reserved ones is free or none is.
free_entry_cases :
    (es : List ℕ)
    → ((j : ℕ) → get_elem? es j ≢ some cluster_free)
      ⊎ ((j : ℕ) × (get_elem? es j ≡ some cluster_free))
free_entry_cases [] = inl (λ j e. ground arith)
free_entry_cases (e ∷ es) = elim (Bool-cases (e == cluster_free)) [
  | inl z ↦ inr (0, ground arith)
  | inr u ↦ elim (free_entry_cases es) [
    | inl all ↦ inl (later e es u all)
    | inr (j, q) ↦ inr (suc j, q)
  ]
]
  where
    later :
        (e : ℕ) (es : List ℕ)
        → (e == cluster_free) ≡ false
        → ((j : ℕ) → get_elem? es j ≢ some cluster_free)
        → (j : ℕ) → get_elem? (e ∷ es) j ≢ some cluster_free
    later e es u all zero q = ground arith
    later e es u all (suc j) q = all j q

pub free_cluster_cases :
    (t : FatTable)
    → ((j : ℕ) → 2 ≤ j → entry t j ≢ some cluster_free)
      ⊎ ((j : ℕ) × (2 ≤ j) × (entry t j ≡ some cluster_free))
free_cluster_cases t = elim (free_entry_cases (drop 2 t.fat_map)) [
  | inl all ↦ inl (λ j h e.
      let back : 2 + (j - 2) ≡ j = omega arith in
      all (j - 2) (get_elem?-drop 2 (j - 2) t.fat_map ∙ rw back e))
  | inr (j, e) ↦ inr (2 + j, omega arith, sym (get_elem?-drop 2 j t.fat_map) ∙ e)
]
