-- ===== src/Fat/Tests/Writing.antt =====
-- A write on the volume in memory.
use famaf_unc.Fat.Device.{Volume, ok}
use famaf_unc.Fat.Dentry.{FatFile}
use famaf_unc.Fat.Table.Chain.{nth_cluster}
use famaf_unc.Fat.File.{pread, pwrite, touch, write_loop}
use famaf_unc.Fat.File.Pwrite.{grown, pwrite-Kept}
use famaf_unc.Fat.File.WriteRead.{pread-write_loop}
use famaf_unc.Fat.Table.{bytes_per_cluster}
use famaf_unc.Fat.File.Written.{Kept}
use famaf_unc.Fat.Tests.{
  Disk, mem_device, Quiet, mem_device-IsVolume, table, volume, file, root, chain,
}
use famaf_unc.Fat.Tests.Files.{chain-IsFileChain, size-within}
use famaf_unc.Base.{
  ℕ, zero, suc, ◌^◌, ◌≤◌, ◌<◌, ◌≡◌, refl, true, ◌∷◌, arith, if◌then◌else◌, ltb, ◌+◌, ◌/◌,
}

chain-numbers :
    (n : ℕ) → n ≤ 2 → (2 ≤ nth_cluster (2 ∷ chain) n) × (nth_cluster (2 ∷ chain) n < 2 ^ 32)
chain-numbers zero h = (omega arith, omega arith)
chain-numbers (suc zero) h = (omega arith, omega arith)
chain-numbers (suc (suc zero)) h = (omega arith, omega arith)
chain-numbers (suc (suc (suc n))) h = absurd (omega arith)

-- The volume with memory that has its address at each place.
abbrev counting : Volume Disk
counting = record volume { mem = λ a. a }

pwrite-Kept_example :
    (file' : FatFile) × (u w : Volume Disk) × (pwrite mem_device 200 file 5000 60 100 root counting
      ≡ ok (60, file') w)
    × Kept (λ d i. d i) Quiet table (2 ∷ chain) counting u 5000 60 100
    × (touch mem_device (grown file (100 + 60)) root true u ≡ ok file' w)
    × (w.table ≡ table)
    × (w.mem ≡ counting.mem)
    × (file'.start_cluster ≡ 2)
    × (file'.dentry.file_size
        ≡ (if ltb file.dentry.file_size (100 + 60) then 100 + 60 else file.dentry.file_size))
pwrite-Kept_example =
    pwrite-Kept (mem_device-IsVolume 2000) table 2 chain chain-IsFileChain chain-numbers 200 file
      root 5000 60 100 counting refl refl (omega arith) (omega arith) (omega arith) (omega arith)
      (omega arith) tt

pread-write_loop_example :
    (u w : Volume Disk) × (file' : FatFile) × (write_loop mem_device 200
        (100 + 1)
        5000
        100
        40
        (nth_cluster (2 ∷ chain) (40 / bytes_per_cluster table))
        counting
      ≡ ok 0 u)
    × (pread mem_device 200 file 6000 100 40 root u ≡ ok (100, file') w)
    × ((j : ℕ) → j < 100 → w.mem (6000 + j) ≡ counting.mem (5000 + j))
pread-write_loop_example =
    pread-write_loop (mem_device-IsVolume 2000) table 2 chain chain-IsFileChain chain-numbers 200
      file root 5000 6000 100 40 counting refl refl (omega arith) size-within (omega arith)
      (omega arith) tt
