-- ===== src/Fat/File/WriteRead.antt =====
-- What the loop of fat_file_pwrite stores is what fat_file_pread gives.
use famaf_unc.Fat.Device.{Device, FatTable, Volume, ok}
use famaf_unc.Fat.Dentry.{FatFile}
use famaf_unc.Fat.Table.{bytes_per_cluster}
use famaf_unc.Fat.Table.Chain.{nth_cluster}
use famaf_unc.Fat.Util.Posix.{IsVolume}
use famaf_unc.Fat.File.{pread, write_loop}
use famaf_unc.Fat.File.Pread.{available, pread-Fetched}
use famaf_unc.Fat.File.Read.{IsFileChain}
use famaf_unc.Fat.File.Written.{write_loop-Kept}
use famaf_unc.Base.{
  ℕ, ◌+◌, ◌-◌, ◌*◌, ◌/◌, ◌^◌, ◌≤◌, ◌<◌, ◌≡◌, ap, ◌∙◌, true, List, ◌∷◌, arith, length, ltb, leb,
  ◌&&◌,
}

module _ {D : Type 0} {dev : Device D} {contents : D → ℕ → ℕ} {size : ℕ} {IsCalm : D → Type 0}
    (volume : IsVolume dev contents size IsCalm) (t : FatTable) (c : ℕ) (cs : List ℕ)
    (chain : IsFileChain t size c cs)
    (numbers : (n : ℕ)
      → n ≤ length cs
      → (2 ≤ nth_cluster (c ∷ cs) n) × (nth_cluster (c ∷ cs) n < 2 ^ 32))
    (fuel : ℕ) where
  -- On a calm device, for a file of less than 2 ^ 32 bytes whose valid chain of clusters lies in the
  -- volume, has cluster numbers from 2 to 2 ^ 32, and holds its size, for `count` bytes from an
  -- offset on that lie in the file, and with more fuel than its size: the loop of a write from `buf`
  -- ends with nothing left, a read of as many bytes at the offset after it returns `count`, and then
  -- memory from `to` on has the bytes that it had from `buf` on before the write.
  pub pread-write_loop :
      (file parent : FatFile) (buf to count offset : ℕ) (v : Volume D)
      → v.table ≡ t
      → file.start_cluster ≡ c
      → offset + count ≤ file.dentry.file_size
      → file.dentry.file_size ≤ length (c ∷ cs) * bytes_per_cluster t
      → file.dentry.file_size < 2 ^ 32
      → file.dentry.file_size < fuel
      → IsCalm v.disk
      → (u w : Volume D) × (file' : FatFile) × (write_loop dev fuel
            (count + 1)
            buf
            count
            offset
            (nth_cluster (c ∷ cs) (offset / bytes_per_cluster t))
            v
          ≡ ok 0 u)
        × (pread dev fuel file to count offset parent u ≡ ok (count, file') w)
        × ((j : ℕ) → j < count → w.mem (to + j) ≡ v.mem (buf + j))
  pread-write_loop file parent buf to count offset v et start fits inside l f calm =
      let (u, run, kept) =
        write_loop-Kept volume t c cs chain numbers fuel (count + 1) buf count offset v et
          (omega arith) (omega arith) (omega arith) (omega arith) calm in
      let (file', w, read, wt, memory) =
        pread-Fetched volume t c cs chain fuel file parent to count offset u (kept.table ∙ et) start
          (omega arith) inside l f kept.calm in
      let all : available file count offset ≡ count = omega arith in
      (
        u,
        w,
        file',
        run,
        read ∙ ap (λ n. ok (n, file') w) all,
        λ j h.
            let here : (leb to (to + j) && ltb (to + j) (to + available file count offset)) ≡ true =
              ground arith in
            let place : offset + (to + j - to) ≡ offset + j = omega arith in
            memory (to + j) ∙ rw (here, place) (kept.bytes j h),
      )
