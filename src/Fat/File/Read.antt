-- ===== src/Fat/File/Read.antt =====
-- fat_file_pread reads the file's bytes.
use famaf_unc.Fat.Table.Sizes.{get_cluster_remaining_bytes_bounds, pow-pos}
use famaf_unc.Base.{
  ℕ, suc, ◌+◌, ◌-◌, ◌/◌, ◌%◌, ◌^◌, ◌≤◌, ◌<◌, ◌≡◌, refl, ◌&&◌, true, some, List, ◌∷◌, arith, length,
  ltb, leb, ◌==◌, if◌then◌else◌, ◌∙◌, ◌*◌, ap, sym, zero,
}
use famaf_unc.Fat.Device.{Device, FatTable, Volume, ok}
use famaf_unc.Fat.Table.{
  cluster_is_valid, cluster_offset, bytes_per_cluster, mask_offset, get_cluster_remaining_bytes,
}
use famaf_unc.Fat.Table.Chain.{Follows, nth_cluster}
use famaf_unc.Fat.Util.Posix.{IsVolume}
use famaf_unc.Fat.Util.Read.{Delivered, full_pread-Delivered}
use famaf_unc.Fat.Util.{full_pread}
use famaf_unc.Fat.File.{read_loop, get_next_cluster}
use famaf_unc.Fat.File.Walk.{Follows-nth, byte_position, byte_position-add, div-lt, div-next}

-- The clusters of a file in a table, all of them inside the volume's `size` bytes.
pub record IsFileChain (t : FatTable) (size c : ℕ) (cs : List ℕ) : Type 0 where
  pub start : 0 < c
  pub valid : cluster_is_valid c ≡ true
  pub follows : Follows t c cs
  pub inside :
      (n : ℕ)
      → n ≤ length cs
      → cluster_offset t (nth_cluster (c ∷ cs) n) + bytes_per_cluster t ≤ size

-- `w` is `v` with `count` bytes of the file from `offset` on in memory at `buf`.
pub record Fetched {D : Type 0} (contents : D → ℕ → ℕ) (IsCalm : D → Type 0) (t : FatTable)
    (chain : List ℕ) (v w : Volume D) (buf count offset : ℕ) : Type 0 where
  pub calm : IsCalm w.disk
  pub table : w.table ≡ v.table
  pub errno : w.errno ≡ v.errno
  pub disk : (i : ℕ) → contents w.disk i ≡ contents v.disk i
  pub memory :
      (a : ℕ)
      → w.mem a ≡ (
          if leb buf a && ltb a (buf + count)
          then contents v.disk (byte_position t chain (offset + (a - buf)))
          else v.mem a)

-- One round: the bytes that it wants are those of one cluster, and the walk stands at the next.
memory-join :
    (t : FatTable) (f g mem mem' : ℕ → ℕ) (chain : List ℕ) (buf count offset k a : ℕ)
    → k ≤ count
    → offset % bytes_per_cluster t + k ≤ bytes_per_cluster t
    → ((a : ℕ)
        → mem' a ≡ (
            if leb buf a && ltb a (buf + k)
            then f (byte_position t chain offset + (a - buf))
            else mem a))
    → ((i : ℕ) → g i ≡ f i)
    → (if leb (buf + k) a && ltb a (buf + k + (count - k))
        then g (byte_position t chain (offset + k + (a - (buf + k))))
        else mem' a)
      ≡ (if leb buf a && ltb a (buf + count)
          then f (byte_position t chain (offset + (a - buf)))
          else mem a)
memory-join t f g mem mem' chain buf count offset k a h l m e = ground (
  arith,
  m a,
  e (byte_position t chain (offset + k + (a - (buf + k)))),
  byte_position-add t chain offset (a - buf),
)

-- If bytes remain after a round, its cluster was read to the end.
next_position :
    (t : FatTable) (chain : List ℕ) (offset remaining : ℕ)
    → let k = get_cluster_remaining_bytes t remaining offset in
      0 < remaining - k
      → nth_cluster chain (suc (offset / bytes_per_cluster t))
        ≡ nth_cluster chain ((offset + k) / bytes_per_cluster t)
unfolding get_cluster_remaining_bytes
next_position t chain offset remaining h =
    let b = bytes_per_cluster t in
    let whole : get_cluster_remaining_bytes t remaining offset ≡ b - offset % b = omega arith in
    ap (nth_cluster chain)
      (sym (ap (λ k. (offset + k) / b) whole ∙ div-next offset b (pow-pos t.cluster_order)))

read_loop-round :
    {D : Type 0} (dev : Device D) (fuel rounds buf n offset cluster next k : ℕ) (t : FatTable)
    (v w : Volume D)
    → v.table ≡ t
    → w.table ≡ t
    → cluster_is_valid cluster ≡ true
    → get_cluster_remaining_bytes t (suc n) offset ≡ k
    → full_pread dev fuel buf k (cluster_offset t cluster + mask_offset offset t) v ≡ ok k w
    → get_next_cluster t cluster ≡ some next
    → read_loop dev fuel (suc rounds) buf (suc n) offset cluster v
      ≡ read_loop dev fuel rounds (buf + k) (suc n - k) (offset + k) next w
unfolding read_loop
read_loop-round dev fuel rounds buf n offset cluster next k t v w et eu valid want run step =
    let same : (k == k) ≡ true = ground arith in simp (valid, et, want, run, same, eu, step) refl

module _ {D : Type 0} {dev : Device D} {contents : D → ℕ → ℕ} {size : ℕ} {IsCalm : D → Type 0}
    (volume : IsVolume dev contents size IsCalm) (t : FatTable) (c : ℕ) (cs : List ℕ)
    (chain : IsFileChain t size c cs) (fuel : ℕ) where
  -- A round that reads `k` bytes of the cluster at position `q`, and goes on at the next position.
  read_round :
      (rounds buf n offset q k : ℕ) (v : Volume D)
      → v.table ≡ t
      → q ≤ length cs
      → offset / bytes_per_cluster t ≡ q
      → get_cluster_remaining_bytes t (suc n) offset ≡ k
      → offset % bytes_per_cluster t + k ≤ bytes_per_cluster t
      → k < fuel
      → k < 2 ^ 64
      → IsCalm v.disk
      → (u : Volume D) × (read_loop dev fuel
            (suc rounds)
            buf
            (suc n)
            offset
            (nth_cluster (c ∷ cs) q)
            v
          ≡ read_loop dev fuel rounds
              (buf + k)
              (suc n - k)
              (offset + k)
              (nth_cluster (c ∷ cs) (suc q))
              u)
        × Delivered contents IsCalm v u buf k (byte_position t (c ∷ cs) offset)
  unfolding byte_position
  read_round rounds buf n offset q k v et at here want fits f l calm =
      let (valid, step) = Follows-nth t c cs q chain.valid chain.follows at in
      let within = chain.inside q at in
      let (u, run, got) =
        full_pread-Delivered volume fuel buf k
          (cluster_offset t (nth_cluster (c ∷ cs) q) + mask_offset offset t) v f l
          (omega (arith, within)) calm in
      (
        u,
        read_loop-round dev fuel rounds buf n offset (nth_cluster (c ∷ cs) q)
            (nth_cluster (c ∷ cs) (suc q)) k t v u et (got.table ∙ et) valid want run step,
        rw here got,
      )

  pub read_loop-Fetched :
      (rounds buf remaining offset cluster : ℕ) (v : Volume D)
      → v.table ≡ t
      → remaining < rounds
      → remaining < fuel
      → remaining < 2 ^ 64
      → offset + remaining ≤ length (c ∷ cs) * bytes_per_cluster t
      → (0 < remaining → cluster ≡ nth_cluster (c ∷ cs) (offset / bytes_per_cluster t))
      → IsCalm v.disk
      → (w : Volume D) × (read_loop dev fuel rounds buf remaining offset cluster v ≡ ok 0 w)
        × Fetched contents IsCalm t (c ∷ cs) v w buf remaining offset
  unfolding read_loop
  read_loop-Fetched zero buf remaining offset cluster v et r f l s e calm = absurd (omega arith)
  read_loop-Fetched (suc rounds) buf zero offset cluster v et r f l s e calm = (
    v,
    refl,
    record {
      calm = calm;
      table = refl;
      errno = refl;
      disk = λ i. refl;
      memory = λ a. ground arith;
    },
  )
  read_loop-Fetched (suc rounds) buf (suc n) offset cluster v et r f l s e calm =
      let b : ℕ = bytes_per_cluster t in
      let at = div-lt offset b (length (c ∷ cs)) (omega arith) in
      let k : ℕ = get_cluster_remaining_bytes t (suc n) offset in
      let (le, fits, some') = get_cluster_remaining_bytes_bounds t (suc n) offset in
      let more = some' (omega arith) in
      let (u, run, got) =
        read_round rounds buf n offset (offset / b) k v et (omega arith) refl refl fits
          (omega arith) (omega arith) calm in
      let onward = λ (p : 0 < suc n - k). next_position t (c ∷ cs) offset (suc n) p in
      let (w, rest, fetched) =
        read_loop-Fetched rounds (buf + k) (suc n - k) (offset + k)
          (nth_cluster (c ∷ cs) (suc (offset / b))) u (got.table ∙ et) (omega arith) (omega arith)
          (omega arith) (omega arith) onward got.calm in
      (
        w,
        rw (e (omega arith)) run ∙ rest,
        record {
          calm = fetched.calm;
          table = fetched.table ∙ got.table;
          errno = fetched.errno ∙ got.errno;
          disk = λ i. fetched.disk i ∙ got.disk i;
          memory = λ a.
              fetched.memory a
              ∙ memory-join t (contents v.disk) (contents u.disk) v.mem u.mem (c ∷ cs) buf (suc n)
                  offset k a le fits got.memory got.disk;
        },
      )
