-- ===== src/Fat/File/Positions.antt =====
-- No two bytes of a file lie at one place of the volume.
use famaf_unc.Fat.Device.{FatTable}
use famaf_unc.Fat.Table.{bytes_per_cluster, cluster_offset}
use famaf_unc.Fat.Table.Chain.{Follows, has, nth_cluster}
use famaf_unc.Fat.Table.Distinct.{Follows-not-mem}
use famaf_unc.Fat.Table.Sizes.{cluster_offset-lt, pow-pos}
use famaf_unc.Fat.File.Walk.{byte_position, div-lt}
use famaf_unc.Base.{
  ℕ, zero, suc, ◌+◌, ◌*◌, ◌/◌, ◌%◌, ◌^◌, ◌≤◌, ◌<◌, ◌≡◌, ◌≢◌, refl, ap, sym, true, List, [], ◌∷◌,
  arith, length, ◌==◌, Bool-cases, inl, inr, eq_self, ltb,
}

has-nth : (cs : List ℕ) (n : ℕ) → n < length cs → has (nth_cluster cs n) cs ≡ true
has-nth [] n h = absurd (omega arith)
has-nth (c ∷ cs) zero h = rw (eq_self c, has) refl
has-nth (c ∷ cs) (suc n) h = elim (Bool-cases (nth_cluster cs n == c)) [
  | inl e ↦ rw (e, has) refl
  | inr e ↦ rw (e, has) (has-nth cs n (omega arith))
]

nth-ne :
    (t : FatTable) (c : ℕ) (cs : List ℕ) (n m : ℕ)
    → Follows t c cs
    → n < m
    → m ≤ length cs
    → nth_cluster (c ∷ cs) n ≢ nth_cluster (c ∷ cs) m
nth-ne t c cs zero zero f h l e = absurd (omega arith)
nth-ne t c cs zero (suc m) f h l e =
    let inside = has-nth cs m (omega arith) in
    let out = Follows-not-mem t c cs f in let same : has c cs ≡ true = rw e inside in absurd cc
nth-ne t c cs (suc n) zero f h l e = absurd (omega arith)
nth-ne t c [] (suc n) (suc m) f h l e = absurd (omega arith)
nth-ne t c (d ∷ ds) (suc n) (suc m) f h l e = nth-ne t d ds n m f.2 (omega arith) (omega arith) e

-- Bytes of two clusters.
apart :
    (t : FatTable) (c d x y : ℕ)
    → c ≢ d
    → (2 ≤ c) × (c < 2 ^ 32)
    → (2 ≤ d) × (d < 2 ^ 32)
    → x < bytes_per_cluster t
    → y < bytes_per_cluster t
    → cluster_offset t c + x ≢ cluster_offset t d + y
apart t c d x y ne hc hd lx ly e = elim (Bool-cases (ltb c d)) [
  | inl l ↦
      let low : c < d = ground arith in
      let room = cluster_offset-lt t c d hc.0 low hd.1 in absurd (omega arith)
  | inr l ↦
      let low : d < c = ground arith in
      let room = cluster_offset-lt t d c hd.0 low hc.1 in absurd (omega arith)
]

mod-lt : (a b : ℕ) → 0 < b → a % b < b
mod-lt a b h = omega arith

same-parts : (i j b : ℕ) → 0 < b → i / b ≡ j / b → i % b ≡ j % b → i ≡ j
same-parts i j b h q r = grind arith

pub byte_position-injective :
    (t : FatTable) (c : ℕ) (cs : List ℕ) (i j : ℕ)
    → Follows t c cs
    → ((n : ℕ) → n ≤ length cs → (2 ≤ nth_cluster (c ∷ cs) n) × (nth_cluster (c ∷ cs) n < 2 ^ 32))
    → i < length (c ∷ cs) * bytes_per_cluster t
    → j < length (c ∷ cs) * bytes_per_cluster t
    → byte_position t (c ∷ cs) i ≡ byte_position t (c ∷ cs) j
    → i ≡ j
unfolding byte_position
byte_position-injective t c cs i j f numbers li lj e =
    let b : ℕ = bytes_per_cluster t in
    let some_bytes : 0 < b = pow-pos t.cluster_order in
    let at_i = div-lt i b (length (c ∷ cs)) li in
    let at_j = div-lt j b (length (c ∷ cs)) lj in
    let ne = λ (n m : ℕ) (l : n < m) (h : m ≤ length cs). nth-ne t c cs n m f l h in
    let near = λ (different : nth_cluster (c ∷ cs) (i / b) ≢ nth_cluster (c ∷ cs) (j / b)).
      apart t (nth_cluster (c ∷ cs) (i / b)) (nth_cluster (c ∷ cs) (j / b)) (i % b) (j % b)
        different (numbers (i / b) (omega arith)) (numbers (j / b) (omega arith))
        (mod-lt i b some_bytes) (mod-lt j b some_bytes) e in
    elim (Bool-cases (i / b == j / b)) [
      | inl same ↦
          let q : i / b ≡ j / b = ground arith in
          let shift : cluster_offset t (nth_cluster (c ∷ cs) (i / b))
              ≡ cluster_offset t (nth_cluster (c ∷ cs) (j / b)) =
            ap (λ n. cluster_offset t (nth_cluster (c ∷ cs) n)) q in
          same-parts i j b some_bytes q (omega arith)
      | inr other ↦ elim (Bool-cases (ltb (i / b) (j / b))) [
        | inl l ↦ absurd (near (ne (i / b) (j / b) (ground arith) (omega arith)))
        | inr l ↦ absurd (near (λ s. ne (j / b) (i / b) (ground arith) (omega arith) (sym s)))
      ]
    ]
