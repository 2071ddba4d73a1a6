-- ===== src/Fat/File/Pread.antt =====
-- fat_file_pread as a whole.
use famaf_unc.Fat.File.Touch.{touch-keeps}
use famaf_unc.Fat.File.Walk.{byte_position, div-lt, nth-pos}
use famaf_unc.Fat.Util.Posix.{IsVolume}
use famaf_unc.Fat.Table.Sizes.{pow-pos}
use famaf_unc.Fat.Table.Chain.{nth_cluster, seek_cluster-nth}
use famaf_unc.Fat.Table.{seek_cluster, bytes_per_cluster}
use famaf_unc.Fat.Dentry.{FatFile}
use famaf_unc.Fat.File.{pread, seek_cluster, bytes_per_cluster}
use famaf_unc.Fat.File.Read.{IsFileChain, Fetched, read_loop-Fetched}
use famaf_unc.Base.{
  ℕ, ◌+◌, ◌-◌, ◌*◌, ◌/◌, ◌%◌, ◌^◌, ◌≤◌, ◌<◌, ◌≡◌, refl, sym, ap, ◌∙◌, min, ◌&&◌, true, false, some,
  List, ◌∷◌, arith, length, ltb, leb, ◌==◌, if◌then◌else◌, Bool-cases, inl, inr,
}
use famaf_unc.Fat.Device.{Device, FatTable, Volume, ok, eoverflow}

-- The bytes that a read of `size` bytes at `offset` can give.
abbrev pub available : FatFile → ℕ → ℕ → ℕ
available file size offset = min size (file.dentry.file_size - offset)

small : (o b : ℕ) → 0 < b → o < 2 ^ 32 → o / b % 2 ^ 32 ≡ o / b
small o b p h = grind arith

pub seek-position :
    (t : FatTable) (c : ℕ) (cs : List ℕ) (size offset : ℕ)
    → IsFileChain t size c cs
    → offset < 2 ^ 32
    → seek_cluster t c offset ≡ some (nth_cluster (c ∷ cs) (offset / bytes_per_cluster t))
seek-position t c cs size offset chain h =
    seek_cluster-nth t c cs offset chain.valid chain.follows
    ∙ ap (λ n. some (nth_cluster (c ∷ cs) n))
        (small offset (2 ^ t.cluster_order) (pow-pos t.cluster_order) h)

-- Past the end of the file nothing is read, and the error is EOVERFLOW.
pread-past_end :
    {D : Type 0} (dev : Device D) (fuel buf size offset : ℕ) (file parent : FatFile) (v : Volume D)
    → file.dentry.file_size < offset
    → pread dev fuel file buf size offset parent v ≡ ok (0, file) (record v { errno = eoverflow })
unfolding pread
pread-past_end dev fuel buf size offset file parent v h =
    let past : ltb file.dentry.file_size offset ≡ true = ground arith in rw past refl

module _ {D : Type 0} {dev : Device D} {contents : D → ℕ → ℕ} {size : ℕ} {IsCalm : D → Type 0}
    (volume : IsVolume dev contents size IsCalm) (t : FatTable) (c : ℕ) (cs : List ℕ)
    (chain : IsFileChain t size c cs) (fuel : ℕ) where
  pread-some :
      (file parent : FatFile) (buf wanted offset : ℕ) (v : Volume D)
      → v.table ≡ t
      → file.start_cluster ≡ c
      → 0 < available file wanted offset
      → file.dentry.file_size ≤ length (c ∷ cs) * bytes_per_cluster t
      → file.dentry.file_size < 2 ^ 32
      → file.dentry.file_size < fuel
      → IsCalm v.disk
      → (file' : FatFile) × (w u : Volume D) × (pread dev fuel file buf wanted offset parent v
          ≡ ok (available file wanted offset, file') w)
        × Fetched contents IsCalm t (c ∷ cs) v u buf (available file wanted offset) offset
        × (w.table ≡ u.table)
        × (w.mem ≡ u.mem)
  unfolding pread
  pread-some file parent buf wanted offset v et start more fits l f calm =
      let n : ℕ = available file wanted offset in
      let q : ℕ = offset / bytes_per_cluster t in
      let at = div-lt offset (bytes_per_cluster t) (length (c ∷ cs)) (omega arith) in
      let pos = nth-pos t c cs q chain.start chain.follows (omega arith) in
      let inside : ltb file.dentry.file_size offset ≡ false = ground arith in
      let wants : (n == 0) ≡ false = ground arith in
      let found : (nth_cluster (c ∷ cs) q == 0) ≡ false = ground arith in
      let seek = seek-position t c cs size offset chain (omega arith) in
      let (u, run, fetched) =
        read_loop-Fetched volume t c cs chain fuel (n + 1) buf n offset (nth_cluster (c ∷ cs) q) v
          et (omega arith) (omega arith) (omega arith) (omega arith) (λ p. refl) calm in
      let (file', w, touched, wt, wm, _, _) = touch-keeps dev file parent false u in
      let all : n - 0 ≡ n = omega arith in
      (
        file',
        w,
        u,
        simp (inside, wants, et, start, seek, found, run, touched, all) refl,
        fetched,
        wt,
        wm,
      )

  -- On a calm device, for a file of less than 2 ^ 32 bytes whose valid chain of clusters lies in
  -- the volume and holds its size, and with more fuel than its size, a read at an offset in the
  -- file ends and returns as many bytes as were asked for, or as are left of the file; these bytes
  -- of the file are in memory at `buf`, and the rest of memory, and the table, are unchanged.
  pub pread-Fetched :
      (file parent : FatFile) (buf wanted offset : ℕ) (v : Volume D)
      → v.table ≡ t
      → file.start_cluster ≡ c
      → offset ≤ file.dentry.file_size
      → file.dentry.file_size ≤ length (c ∷ cs) * bytes_per_cluster t
      → file.dentry.file_size < 2 ^ 32
      → file.dentry.file_size < fuel
      → IsCalm v.disk
      → (file' : FatFile) × (w : Volume D) × (pread dev fuel file buf wanted offset parent v
          ≡ ok (available file wanted offset, file') w)
        × (w.table ≡ t)
        × ((a : ℕ)
            → w.mem a ≡ (
                if leb buf a && ltb a (buf + available file wanted offset)
                then contents v.disk (byte_position t (c ∷ cs) (offset + (a - buf)))
                else v.mem a))
  unfolding pread
  pread-Fetched file parent buf wanted offset v et start within fits l f calm =
      let inside : ltb file.dentry.file_size offset ≡ false = ground arith in
      elim (Bool-cases (available file wanted offset == 0)) [
        | inl empty ↦
            let e : available file wanted offset ≡ 0 = ground arith in
            (
              file,
              v,
              rw (inside, empty) (ap (λ n. ok (n, file) v) (sym e)),
              et,
              λ a. ground (arith),
            )
        | inr more ↦
            let (file', w, u, run, fetched, wt, wm) =
              pread-some file parent buf wanted offset v et start (ground arith) fits l f calm in
            (file', w, run, wt ∙ fetched.table ∙ et, λ a. ap (λ m. m a) wm ∙ fetched.memory a)
      ]
