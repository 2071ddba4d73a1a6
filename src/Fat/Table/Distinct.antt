-- ===== src/Fat/Table/Distinct.antt =====
-- The clusters of a chain are distinct, and a chain survives a write to any other entry.
use famaf_unc.Base.{
  ℕ, ◌<◌, ◌≡◌, ap, subst, ◌≢◌, true, false, List, [], ◌∷◌, arith, ◌==◌, length, Bool-cases, inl,
  inr, get_elem?-set_ne,
}
use famaf_unc.Fat.Device.{FatTable}
use famaf_unc.Fat.Table.{get_next_cluster, with_entry}
use famaf_unc.Fat.Table.Chain.{Follows, Follows-unique, has}

-- From any cluster behind `c` on there is a shorter chain.
Follows-suffix :
    (t : FatTable) (c d : ℕ) (cs : List ℕ)
    → Follows t c cs
    → has d cs ≡ true
    → (ds : List ℕ) × Follows t d ds × (length ds < length cs)
Follows-suffix t c d [] f m = absurd (ground arith)
Follows-suffix t c d (n ∷ cs) f m = elim (Bool-cases (d == n)) [
  | inl e ↦ let q : n ≡ d = ground arith in (cs, subst (λ z. Follows t z cs) q f.2, omega arith)
  | inr e ↦ let (ds, g, l) = Follows-suffix t n d cs f.2 (ground arith) in (ds, g, omega arith)
]

pub Follows-not-mem : (t : FatTable) (c : ℕ) (cs : List ℕ) → Follows t c cs → has c cs ≡ false
Follows-not-mem t c cs f = elim (Bool-cases (has c cs)) [
  | inl m ↦
      let (ds, g, l) = Follows-suffix t c c cs f m in
      let e = ap length (Follows-unique t c ds cs g f) in absurd (omega (arith, e))
  | inr m ↦ m
]

pub get_next_cluster-with_entry :
    (t : FatTable) (j v c : ℕ)
    → (c == j) ≡ false
    → get_next_cluster (with_entry t j v) c ≡ get_next_cluster t c
unfolding get_next_cluster
get_next_cluster-with_entry t j v c ne =
    let q : j ≢ c = ground arith in rw (get_elem?-set_ne t.fat_map v q)

pub Follows-with_entry :
    (t : FatTable) (j v c : ℕ) (cs : List ℕ)
    → has j (c ∷ cs) ≡ false
    → Follows t c cs
    → Follows (with_entry t j v) c cs
Follows-with_entry t j v c [] out f = rw (get_next_cluster-with_entry t j v c (ground arith)) f
Follows-with_entry t j v c (n ∷ cs) out f = (
  rw (get_next_cluster-with_entry t j v c (ground arith)) f.0,
  f.1,
  Follows-with_entry t j v n cs (ground arith) f.2,
)
