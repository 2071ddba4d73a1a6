-- ===== src/Fat/File/Written.antt =====
-- The loop of fat_file_pwrite stores the caller's bytes in the clusters of the file.
use famaf_unc.Fat.Device.{Device, FatTable, Volume, ok}
use famaf_unc.Fat.Table.{
  bytes_per_cluster, cluster_offset, mask_offset, get_cluster_remaining_bytes, get_next_cluster,
  cluster_is_valid, cluster_is_eoc,
}
use famaf_unc.Fat.Table.Chain.{nth_cluster}
use famaf_unc.Fat.Table.Sizes.{get_cluster_remaining_bytes_bounds, pow-pos}
use famaf_unc.Fat.Util.{full_pwrite}
use famaf_unc.Fat.Util.Posix.{IsVolume}
use famaf_unc.Fat.Util.Write.{Stored, full_pwrite-Stored}
use famaf_unc.Fat.File.{write_loop, next_or_new_cluster}
use famaf_unc.Fat.File.Read.{IsFileChain}
use famaf_unc.Fat.File.Walk.{
  Follows-nth, byte_position, byte_position-add, div-lt, div-next, nth-pos,
}
use famaf_unc.Fat.File.Positions.{byte_position-injective}
use famaf_unc.Base.{
  ℕ, zero, suc, ◌+◌, ◌-◌, ◌*◌, ◌/◌, ◌%◌, ◌^◌, ◌≤◌, ◌<◌, ◌≡◌, ◌≢◌, refl, sym, ap, ◌∙◌, true, false,
  List, ◌∷◌, some, arith, length, ◌==◌, Bool-cases, inl, inr, ltb, leb, ◌&&◌,
}

-- `w` is `v` with `count` bytes of memory from `buf` on at the bytes of the file from `offset` on.
pub record Kept {D : Type 0} (contents : D → ℕ → ℕ) (IsCalm : D → Type 0) (t : FatTable)
    (chain : List ℕ) (v w : Volume D) (buf count offset : ℕ) : Type 0 where
  pub calm : IsCalm w.disk
  pub table : w.table ≡ v.table
  pub errno : w.errno ≡ v.errno
  pub memory : w.mem ≡ v.mem
  pub bytes :
      (j : ℕ) → j < count → contents w.disk (byte_position t chain (offset + j)) ≡ v.mem (buf + j)
  pub others :
      (i : ℕ)
      → ((j : ℕ) → j < count → byte_position t chain (offset + j) ≢ i)
      → contents w.disk i ≡ contents v.disk i

-- A cluster that has one behind it needs no new one.
pub next_or_new_cluster-next :
    {D : Type 0} (dev : Device D) (last next : ℕ) (v : Volume D)
    → get_next_cluster v.table last ≡ some next
    → cluster_is_valid next ≡ true
    → next_or_new_cluster dev last v ≡ ok next v
unfolding next_or_new_cluster cluster_is_valid
next_or_new_cluster-next dev last next v e valid =
    let more : cluster_is_eoc next ≡ false = ground arith in rw (e, more) refl

write_loop-last :
    {D : Type 0} (dev : Device D) (fuel rounds buf n offset cluster k : ℕ) (t : FatTable)
    (v w : Volume D)
    → v.table ≡ t
    → get_cluster_remaining_bytes t (suc n) offset ≡ k
    → k ≡ suc n
    → full_pwrite dev fuel buf k (cluster_offset t cluster + mask_offset offset t) v ≡ ok k w
    → write_loop dev fuel (suc rounds) buf (suc n) offset cluster v ≡ ok 0 w
unfolding write_loop
write_loop-last dev fuel rounds buf n offset cluster k t v w et want all run =
    let same : (k == k) ≡ true = ground arith in
    let none_left : (suc n - k == 0) ≡ true = ground arith in
    simp (et, want, run, same, none_left) refl

write_loop-round :
    {D : Type 0} (dev : Device D) (fuel rounds buf n offset cluster next k : ℕ) (t : FatTable)
    (v w : Volume D)
    → v.table ≡ t
    → get_cluster_remaining_bytes t (suc n) offset ≡ k
    → k < suc n
    → full_pwrite dev fuel buf k (cluster_offset t cluster + mask_offset offset t) v ≡ ok k w
    → next_or_new_cluster dev cluster w ≡ ok next w
    → 0 < next
    → cluster_is_valid next ≡ true
    → write_loop dev fuel (suc rounds) buf (suc n) offset cluster v
      ≡ write_loop dev fuel rounds (buf + k) (suc n - k) (offset + k) next w
unfolding write_loop
write_loop-round dev fuel rounds buf n offset cluster next k t v w et want less run step p valid =
    let same : (k == k) ≡ true = ground arith in
    let some_left : (suc n - k == 0) ≡ false = ground arith in
    let some_next : (next == 0) ≡ false = ground arith in
    simp (et, want, run, same, some_left, step, some_next, valid) refl

module _ {D : Type 0} {dev : Device D} {contents : D → ℕ → ℕ} {size : ℕ} {IsCalm : D → Type 0}
    (volume : IsVolume dev contents size IsCalm) (t : FatTable) (c : ℕ) (cs : List ℕ)
    (chain : IsFileChain t size c cs)
    (numbers : (n : ℕ)
      → n ≤ length cs
      → (2 ≤ nth_cluster (c ∷ cs) n) × (nth_cluster (c ∷ cs) n < 2 ^ 32))
    (fuel : ℕ) where
  -- A round and the rounds behind it.
  joined :
      (buf count offset k : ℕ) (v u w : Volume D)
      → k ≤ count
      → offset % bytes_per_cluster t + k ≤ bytes_per_cluster t
      → offset + count ≤ length (c ∷ cs) * bytes_per_cluster t
      → Stored contents IsCalm v u buf k (byte_position t (c ∷ cs) offset)
      → Kept contents IsCalm t (c ∷ cs) u w (buf + k) (count - k) (offset + k)
      → Kept contents IsCalm t (c ∷ cs) v w buf count offset
  joined buf count offset k v u w le fits s got kept =
      let at : (j : ℕ) → ℕ = λ j. byte_position t (c ∷ cs) j in
      let p : ℕ = at offset in
      let split = λ (j : ℕ) (h : k ≤ j).
        ap at (let e : offset + k + (j - k) ≡ offset + j = omega arith in e) in
      record {
        calm = kept.calm;
        table = kept.table ∙ got.table;
        errno = kept.errno ∙ got.errno;
        memory = kept.memory ∙ got.memory;
        bytes = λ j l. elim (Bool-cases (ltb j k)) [
          | inl e ↦
              let low : j < k = ground arith in
              let place = byte_position-add t (c ∷ cs) offset j (omega arith) in
              kept.others (at (offset + j)) (λ i h same.
                let q =
                  byte_position-injective t c cs (offset + k + i) (offset + j) chain.follows numbers
                    (omega arith) (omega arith) same in
                absurd (omega arith))
              ∙ ap (contents u.disk) place
              ∙ got.disk (p + j)
              ∙ ground arith
          | inr e ↦
              let high : k ≤ j = ground arith in
              ap (contents w.disk) (sym (split j high))
              ∙ kept.bytes (j - k) (omega arith)
              ∙ ap (λ m. m (buf + k + (j - k))) got.memory
              ∙ ap v.mem (omega arith)
        ];
        others = λ i out.
            kept.others i (λ j h same.
              out (k + j) (omega arith)
                (ap at (let e : offset + (k + j) ≡ offset + k + j = omega arith in e) ∙ same))
            ∙ got.disk i
            ∙ elim (Bool-cases (leb p i && ltb i (p + k))) [
              | inl e ↦
                  let low : p ≤ i = ground arith in
                  let high : i < p + k = ground arith in
                  let place = byte_position-add t (c ∷ cs) offset (i - p) (omega arith) in
                  absurd (out (i - p) (omega arith) (place ∙ omega arith))
              | inr e ↦ rw e refl
            ];
      }

  nothing_left :
      (buf count offset : ℕ) (v : Volume D)
      → count ≡ 0
      → IsCalm v.disk
      → Kept contents IsCalm t (c ∷ cs) v v buf count offset
  nothing_left buf count offset v e calm = record {
    calm = calm;
    table = refl;
    errno = refl;
    memory = refl;
    bytes = λ j l. absurd (omega arith);
    others = λ i out. refl;
  }

  -- Where bytes remain, the round has written its cluster to the end.
  next_index :
      (offset remaining : ℕ)
      → get_cluster_remaining_bytes t remaining offset < remaining
      → (offset + get_cluster_remaining_bytes t remaining offset) / bytes_per_cluster t
        ≡ suc (offset / bytes_per_cluster t)
  unfolding get_cluster_remaining_bytes
  next_index offset remaining h =
      let b : ℕ = bytes_per_cluster t in
      let whole : get_cluster_remaining_bytes t remaining offset ≡ b - offset % b = omega arith in
      ap (λ k. (offset + k) / b) whole ∙ div-next offset b (pow-pos t.cluster_order)

  abbrev cluster_at : ℕ → ℕ
  cluster_at offset = nth_cluster (c ∷ cs) (offset / bytes_per_cluster t)

  -- A cluster with another one behind it.
  has_next :
      (q : ℕ)
      → suc q ≤ length cs
      → (get_next_cluster t (nth_cluster (c ∷ cs) q) ≡ some (nth_cluster (c ∷ cs) (suc q)))
        × (cluster_is_valid (nth_cluster (c ∷ cs) (suc q)) ≡ true)
        × (0 < nth_cluster (c ∷ cs) (suc q))
  has_next q h = (
    (Follows-nth t c cs q chain.valid chain.follows (omega arith)).1,
    (Follows-nth t c cs (suc q) chain.valid chain.follows h).0,
    nth-pos t c cs (suc q) chain.start chain.follows h,
  )

  pub write_loop-Kept :
      (rounds buf remaining offset : ℕ) (v : Volume D)
      → v.table ≡ t
      → remaining < rounds
      → remaining < fuel
      → remaining < 2 ^ 64
      → offset + remaining ≤ length (c ∷ cs) * bytes_per_cluster t
      → IsCalm v.disk
      → (w : Volume D) × (write_loop dev fuel rounds buf remaining offset (cluster_at offset) v
          ≡ ok 0 w)
        × Kept contents IsCalm t (c ∷ cs) v w buf remaining offset
  unfolding write_loop byte_position
  write_loop-Kept zero buf remaining offset v et r f l s calm = absurd (omega arith)
  write_loop-Kept (suc rounds) buf zero offset v et r f l s calm =
      (v, refl, nothing_left buf 0 offset v refl calm)
  write_loop-Kept (suc rounds) buf (suc n) offset v et r f l s calm =
      let b : ℕ = bytes_per_cluster t in
      let q : ℕ = offset / b in
      let at = div-lt offset b (length (c ∷ cs)) (omega arith) in
      let k : ℕ = get_cluster_remaining_bytes t (suc n) offset in
      let (le, fits, some') = get_cluster_remaining_bytes_bounds t (suc n) offset in
      let more = some' (omega arith) in
      let within = chain.inside q (omega arith) in
      let (u, run, got) =
        full_pwrite-Stored volume fuel buf k
          (cluster_offset t (cluster_at offset) + mask_offset offset t) v (omega arith)
          (omega arith) (omega (arith, within)) calm in
      elim (Bool-cases (k == suc n)) [
        | inl e ↦
            let all : k ≡ suc n = ground arith in
            (
              u,
              write_loop-last dev fuel rounds buf n offset (cluster_at offset) k t v u et refl all
                  run,
              joined buf (suc n) offset k v u u le fits s got
                  (nothing_left (buf + k) (suc n - k) (offset + k) u (omega arith) got.calm),
            )
        | inr e ↦
            let less : k < suc n = ground arith in
            let index = next_index offset (suc n) less in
            let inside = div-lt (offset + k) b (length (c ∷ cs)) (omega arith) in
            let (step, valid, given) = has_next q (omega arith) in
            let (w, rest, kept) =
              write_loop-Kept rounds (buf + k) (suc n - k) (offset + k) u (got.table ∙ et)
                (omega arith) (omega arith) (omega arith) (omega arith) got.calm in
            let onward =
              next_or_new_cluster-next dev (cluster_at offset) (nth_cluster (c ∷ cs) (suc q)) u
                (rw (got.table ∙ et) step) valid in
            let round =
              write_loop-round dev fuel rounds buf n offset (cluster_at offset)
                (nth_cluster (c ∷ cs) (suc q)) k t v u et refl less run onward given valid in
            (
              w,
              round
                  ∙ ap
                      (λ z.
                        write_loop dev fuel rounds (buf + k) (suc n - k) (offset + k)
                          (nth_cluster (c ∷ cs) z) u)
                      (sym index)
                  ∙ rest,
              joined buf (suc n) offset k v u w le fits s got kept,
            )
      ]
