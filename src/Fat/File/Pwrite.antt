-- ===== src/Fat/File/Pwrite.antt =====
-- fat_file_pwrite as a whole, inside the clusters that the file has.
use famaf_unc.Fat.Device.{Device, FatTable, Volume, ok}
use famaf_unc.Fat.Dentry.{FatFile}
use famaf_unc.Fat.Table.{bytes_per_cluster}
use famaf_unc.Fat.Table.Chain.{nth_cluster}
use famaf_unc.Fat.Table.Sizes.{pow-pos}
use famaf_unc.Fat.Util.Posix.{IsVolume}
use famaf_unc.Fat.File.{pwrite, start_of_write, touch, resize, write_loop}
use famaf_unc.Fat.File.Touch.{touch-keeps}
use famaf_unc.Fat.File.Pread.{seek-position}
use famaf_unc.Fat.File.Read.{IsFileChain}
use famaf_unc.Fat.File.Walk.{div-lt, nth-pos, Follows-nth}
use famaf_unc.Fat.File.Written.{Kept, next_or_new_cluster-next, write_loop-Kept}
use famaf_unc.Base.{
  ℕ, zero, suc, ◌+◌, ◌-◌, ◌*◌, ◌/◌, ◌%◌, ◌^◌, ◌≤◌, ◌<◌, ◌≡◌, refl, ◌∙◌, true, false, List, ◌∷◌,
  arith, length, ◌==◌, Bool-cases, inl, inr, ltb, if◌then◌else◌, ap,
}

before_start : (o b : ℕ) → 0 < b → suc o % b ≡ 0 → suc (o / b) ≡ suc o / b
before_start o b p h = grind arith

within_cluster : (o b : ℕ) → 0 < b → 0 < suc o % b → o / b ≡ suc o / b
within_cluster o b p h = grind arith

-- The file with the size that a write up to `reached` gives it.
abbrev pub grown : FatFile → ℕ → FatFile
grown file reached = if ltb file.dentry.file_size reached then resize file reached else file

grown-start :
    (file : FatFile) (reached : ℕ) → (grown file reached).start_cluster ≡ file.start_cluster
grown-start file reached = ground arith

grown-size :
    (file : FatFile) (reached : ℕ)
    → (grown file reached).dentry.file_size
      ≡ (if ltb file.dentry.file_size reached then reached else file.dentry.file_size)
grown-size file reached = ground arith

pwrite-all :
    {D : Type 0} (dev : Device D) (fuel buf count offset cluster : ℕ) (file parent file' : FatFile)
    (v u w : Volume D)
    → offset ≤ file.dentry.file_size
    → offset + count < 2 ^ 32
    → 0 < cluster
    → start_of_write dev file offset v ≡ ok cluster v
    → write_loop dev fuel (count + 1) buf count offset cluster v ≡ ok 0 u
    → touch dev (grown file (offset + count)) parent true u ≡ ok file' w
    → pwrite dev fuel file buf count offset parent v ≡ ok (count, file') w
unfolding pwrite
pwrite-all dev fuel buf count offset cluster file parent file' v u w at l pos seek run touched =
    let in_file : ltb file.dentry.file_size offset ≡ false = ground arith in
    let found : (cluster == 0) ≡ false = ground arith in
    let reached : (offset + count) % 2 ^ 32 ≡ offset + count = omega arith in
    let end : offset + count - 0 ≡ offset + count = omega arith in
    let all : count - 0 ≡ count = omega arith in
    simp (in_file, seek, found, run, end, reached, all, touched) refl

module _ (t : FatTable) (c : ℕ) (cs : List ℕ) (size : ℕ) (chain : IsFileChain t size c cs) where
  -- The first cluster to write is the one that holds the offset.
  start_of_write-nth :
      {D : Type 0} (dev : Device D) (file : FatFile) (offset : ℕ) (v : Volume D)
      → v.table ≡ t
      → file.start_cluster ≡ c
      → offset < 2 ^ 32
      → offset < length (c ∷ cs) * bytes_per_cluster t
      → start_of_write dev file offset v
        ≡ ok (nth_cluster (c ∷ cs) (offset / bytes_per_cluster t)) v
  unfolding start_of_write
  start_of_write-nth dev file zero v et start l fits =
      let seek = seek-position t c cs size 0 chain (omega arith) in
      let pos = nth-pos t c cs (0 / bytes_per_cluster t) chain.start chain.follows (omega arith) in
      let aligned : (0 % bytes_per_cluster t == 0) ≡ true = ground arith in
      let found : (nth_cluster (c ∷ cs) (0 / bytes_per_cluster t) == 0) ≡ false = ground arith in
      simp (et, start, seek, aligned, found) refl
  start_of_write-nth dev file (suc o) v et start l fits =
      let b : ℕ = bytes_per_cluster t in
      let some_bytes : 0 < b = pow-pos t.cluster_order in
      let at = div-lt (suc o) b (length (c ∷ cs)) fits in
      let seek = seek-position t c cs size o chain (omega arith) in
      let less : suc o - 1 ≡ o = omega arith in
      let moved : (suc o == 0) ≡ false = ground arith in
      elim (Bool-cases (suc o % b == 0)) [
        | inl e ↦
            let next : suc (o / b) ≡ suc o / b = before_start o b some_bytes (ground arith) in
            let pos = nth-pos t c cs (o / b) chain.start chain.follows (omega arith) in
            let found : (nth_cluster (c ∷ cs) (o / b) == 0) ≡ false = ground arith in
            let step = (Follows-nth t c cs (o / b) chain.valid chain.follows (omega arith)).1 in
            let valid =
              (Follows-nth t c cs (suc (o / b)) chain.valid chain.follows (omega arith)).0 in
            let onward =
              next_or_new_cluster-next dev (nth_cluster (c ∷ cs) (o / b))
                (nth_cluster (c ∷ cs) (suc (o / b))) v (rw et step) valid in
            simp (et, start, less, seek, e, found, moved, onward)
              (ap (λ n. ok (nth_cluster (c ∷ cs) n) v) next)
        | inr e ↦
            let same : o / b ≡ suc o / b = within_cluster o b some_bytes (ground arith) in
            simp (et, start, less, seek, e, same) refl
      ]

module _ {D : Type 0} {dev : Device D} {contents : D → ℕ → ℕ} {size : ℕ} {IsCalm : D → Type 0}
    (volume : IsVolume dev contents size IsCalm) (t : FatTable) (c : ℕ) (cs : List ℕ)
    (chain : IsFileChain t size c cs)
    (numbers : (n : ℕ)
      → n ≤ length cs
      → (2 ≤ nth_cluster (c ∷ cs) n) × (nth_cluster (c ∷ cs) n < 2 ^ 32))
    (fuel : ℕ) where
  -- On a calm device, for a file whose valid chain of clusters lies in the volume, has cluster
  -- numbers from 2 to 2 ^ 32, and holds more than the `count` bytes from the offset on, with the
  -- offset in the file, the end of the write below 2 ^ 32, and more fuel than `count`, a write ends
  -- and returns `count`. Just before the entry of the file is updated, the bytes of the file from
  -- the offset on are those of memory from `buf` on, and all other bytes of the volume are as
  -- before; the table and memory are unchanged in the end, and the size of the file is the end of
  -- the write where that is larger than the size before.
  pub pwrite-Kept :
      (file parent : FatFile) (buf count offset : ℕ) (v : Volume D)
      → v.table ≡ t
      → file.start_cluster ≡ c
      → offset ≤ file.dentry.file_size
      → offset + count < 2 ^ 32
      → offset + count ≤ length (c ∷ cs) * bytes_per_cluster t
      → offset < length (c ∷ cs) * bytes_per_cluster t
      → count < fuel
      → IsCalm v.disk
      → (file' : FatFile) × (u w : Volume D) × (pwrite dev fuel file buf count offset parent v
          ≡ ok (count, file') w)
        × Kept contents IsCalm t (c ∷ cs) v u buf count offset
        × (touch dev (grown file (offset + count)) parent true u ≡ ok file' w)
        × (w.table ≡ t)
        × (w.mem ≡ v.mem)
        × (file'.start_cluster ≡ c)
        × (file'.dentry.file_size ≡ (
            if ltb file.dentry.file_size (offset + count)
            then offset + count
            else file.dentry.file_size))
  pwrite-Kept file parent buf count offset v et start at l fits inside f calm =
      let q : ℕ = offset / bytes_per_cluster t in
      let index = div-lt offset (bytes_per_cluster t) (length (c ∷ cs)) inside in
      let pos = nth-pos t c cs q chain.start chain.follows (omega arith) in
      let seek =
        start_of_write-nth t c cs size chain dev file offset v et start (omega arith) inside in
      let (u, run, kept) =
        write_loop-Kept volume t c cs chain numbers fuel (count + 1) buf count offset v et
          (omega arith) f (omega arith) fits calm in
      let (file', w, touched, wt, wm, ws, wc) =
        touch-keeps dev (grown file (offset + count)) parent true u in
      (
        file',
        u,
        w,
        pwrite-all dev fuel buf count offset (nth_cluster (c ∷ cs) q) file parent file' v u w at l
            pos seek run touched,
        kept,
        touched,
        wt ∙ kept.table ∙ et,
        wm ∙ kept.memory,
        wc ∙ grown-start file (offset + count) ∙ start,
        ws ∙ grown-size file (offset + count),
      )
