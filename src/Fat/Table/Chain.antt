-- ===== src/Fat/Table/Chain.antt =====
-- The chains that the FAT links, and the walk along one by fat_table_seek_cluster.
use famaf_unc.Base.{
  ℕ, zero, suc, ◌/◌, ◌%◌, ◌^◌, ◌≡◌, refl, sym, ap, subst, ◌∙◌, Bool, true, false, some, List, [],
  ◌∷◌, arith, ◌==◌,
}
use famaf_unc.Fat.Device.{FatTable}
use famaf_unc.Fat.Table.{
  end_of_chain_max, get_next_cluster, seek_loop, seek_cluster, cluster_is_valid,
}

-- The clusters behind `c` in its chain are `cs`.
abbrev pub Follows : FatTable → ℕ → List ℕ → Type 0
Follows t c [] = get_next_cluster t c ≡ some end_of_chain_max
Follows t c (n ∷ cs) =
    (get_next_cluster t c ≡ some n) × (cluster_is_valid n ≡ true) × Follows t n cs

abbrev pub has : ℕ → List ℕ → Bool
has c [] = false
has c (d ∷ ds) = elim (c == d) [ true ↦ true | false ↦ has c ds ]

-- The cluster at position `n` of the chain; the end mark is one place behind the last cluster.
abbrev pub nth_cluster : List ℕ → ℕ → ℕ
nth_cluster [] zero = end_of_chain_max
nth_cluster [] (suc n) = 0
nth_cluster (c ∷ cs) zero = c
nth_cluster (c ∷ cs) (suc n) = nth_cluster cs n

pub end-not-valid : cluster_is_valid end_of_chain_max ≡ false
unfolding cluster_is_valid
end-not-valid = refl

pub valid-ne-end : (c : ℕ) → cluster_is_valid c ≡ true → (c == end_of_chain_max) ≡ false
unfolding cluster_is_valid
valid-ne-end c h = ground arith

seek_loop-end : (n : ℕ) (t : FatTable) → seek_loop (suc n) t end_of_chain_max ≡ some 0
unfolding seek_loop
seek_loop-end n t = refl

seek_loop-Follows :
    (t : FatTable) (n c : ℕ) (cs : List ℕ)
    → cluster_is_valid c ≡ true
    → Follows t c cs
    → seek_loop n t c ≡ some (nth_cluster (c ∷ cs) n)
unfolding seek_loop
seek_loop-Follows t zero c cs v f = refl
seek_loop-Follows t (suc zero) c [] v f = rw (valid-ne-end c v, f) refl
seek_loop-Follows t (suc (suc n)) c [] v f = rw (valid-ne-end c v, f) refl
seek_loop-Follows t (suc n) c (d ∷ cs) v f =
    rw (valid-ne-end c v, f.0) (seek_loop-Follows t n d cs f.1 f.2)

-- Seeking along the chain of clusters `c ∷ cs`, whose numbers are valid, gives the cluster that
-- holds the offset, for an offset of less than 2 ^ 32 clusters; the end mark, and not 0, if the
-- offset lies in the cluster just behind the last one, and 0 if it lies further on.
pub seek_cluster-nth :
    (t : FatTable) (c : ℕ) (cs : List ℕ) (offset : ℕ)
    → cluster_is_valid c ≡ true
    → Follows t c cs
    → seek_cluster t c offset ≡ some (nth_cluster (c ∷ cs) (offset / 2 ^ t.cluster_order % 2 ^ 32))
unfolding seek_cluster
seek_cluster-nth t c cs offset v f =
    seek_loop-Follows t (offset / 2 ^ t.cluster_order % 2 ^ 32) c cs v f

-- A cluster has one chain.
pub Follows-unique :
    (t : FatTable) (c : ℕ) (xs ys : List ℕ) → Follows t c xs → Follows t c ys → xs ≡ ys
Follows-unique t c [] [] f g = refl
Follows-unique t c [] (y ∷ ys) f g = absurd (ground (arith, valid-ne-end y g.1))
Follows-unique t c (x ∷ xs) [] f g = absurd (ground (arith, valid-ne-end x f.1))
Follows-unique t c (x ∷ xs) (y ∷ ys) f g =
    let e : x ≡ y = ground arith in
    ap (λ zs. x ∷ zs) (Follows-unique t x xs ys f.2 (subst (λ z. Follows t z ys) (sym e) g.2))
    ∙ ap (λ z. z ∷ ys) e
