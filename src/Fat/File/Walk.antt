-- ===== src/Fat/File/Walk.antt =====
-- Positions in a file: the cluster and the byte of the volume where each byte of a file lies.
use famaf_unc.Base.{
  ℕ, zero, suc, ◌+◌, ◌-◌, ◌*◌, ◌/◌, ◌%◌, ◌≤◌, ◌<◌, ◌≡◌, true, some, List, [], ◌∷◌, arith, length,
}
use famaf_unc.Fat.Device.{FatTable}
use famaf_unc.Fat.Table.{get_next_cluster, cluster_is_valid, cluster_offset, bytes_per_cluster}
use famaf_unc.Fat.Table.Chain.{Follows, nth_cluster}

-- Inside a chain every position has a valid cluster, and the FAT leads from it to the next position.
pub Follows-nth :
    (t : FatTable) (c : ℕ) (cs : List ℕ) (n : ℕ)
    → cluster_is_valid c ≡ true
    → Follows t c cs
    → n ≤ length cs
    → (cluster_is_valid (nth_cluster (c ∷ cs) n) ≡ true)
      × (get_next_cluster t (nth_cluster (c ∷ cs) n) ≡ some (nth_cluster (c ∷ cs) (suc n)))
Follows-nth t c [] zero v f h = (v, f)
Follows-nth t c [] (suc n) v f h = absurd (omega arith)
Follows-nth t c (d ∷ cs) zero v f h = (v, f.0)
Follows-nth t c (d ∷ cs) (suc n) v f h = Follows-nth t d cs n f.1 f.2 (omega arith)

-- Where byte `i` of a file with these clusters lies.
unfoldable pub byte_position : FatTable → List ℕ → ℕ → ℕ
byte_position t chain i =
    cluster_offset t (nth_cluster chain (i / bytes_per_cluster t)) + i % bytes_per_cluster t

div_mod-add : (o j b : ℕ) → o % b + j < b → ((o + j) / b ≡ o / b) × ((o + j) % b ≡ o % b + j)
div_mod-add o j b h = grind arith

pub div-next : (o b : ℕ) → 0 < b → (o + (b - o % b)) / b ≡ suc (o / b)
div-next o b h = grind arith

pub div-lt : (o b n : ℕ) → o < n * b → o / b < n
div-lt o b n h = grind arith

-- The bytes of one cluster lie side by side.
pub byte_position-add :
    (t : FatTable) (chain : List ℕ) (o j : ℕ)
    → o % bytes_per_cluster t + j < bytes_per_cluster t
    → byte_position t chain (o + j) ≡ byte_position t chain o + j
unfolding byte_position
byte_position-add t chain o j h =
    let e = div_mod-add o j (bytes_per_cluster t) h in rw (e.0, e.1) (omega arith)

get_next_cluster-pos : (t : FatTable) (c n : ℕ) → get_next_cluster t c ≡ some n → 0 < n
unfolding get_next_cluster
get_next_cluster-pos t c n h = ground arith

pub nth-pos :
    (t : FatTable) (c : ℕ) (cs : List ℕ) (n : ℕ)
    → 0 < c
    → Follows t c cs
    → n ≤ length cs
    → 0 < nth_cluster (c ∷ cs) n
nth-pos t c cs zero p f h = p
nth-pos t c [] (suc n) p f h = absurd (omega arith)
nth-pos t c (d ∷ cs) (suc n) p f h =
    nth-pos t d cs n (get_next_cluster-pos t c d f.0) f.2 (omega arith)
