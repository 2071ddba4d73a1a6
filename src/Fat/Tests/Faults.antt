-- ===== src/Fat/Tests/Faults.antt =====
-- Devices that fail, and volumes on which the code meets its limits.
use famaf_unc.Fat.Util.Interrupt.{full_pread-interrupted}
use famaf_unc.Fat.BigBrother.Search.{search_bb_orphan_dir_cluster-nothing}
use famaf_unc.Fat.Dentry.Write.{write_dir_entry-success_iff, dentry_write, IsTaken}
use famaf_unc.Fat.Directory.Full.{file_init-full}
use famaf_unc.Fat.Util.Read.{Delivered}
use famaf_unc.Fat.Dentry.{write_dir_entry, entry_size}
use famaf_unc.Fat.BigBrother.{search_bb_orphan_dir_cluster, no_cluster}
use famaf_unc.Fat.Util.{full_pread, store_bytes, get_or, load_bytes}
use famaf_unc.Fat.Directory.{file_init}
use famaf_unc.Fat.Tests.{
  Disk, new_year, mem_device, mem_device-IsVolume, table, volume, file, root, get_or, load_bytes,
  store_bytes,
}
use famaf_unc.Fat.Table.{end_of_chain_max, entry, cluster_free, success, Status, bytes_per_cluster}
use famaf_unc.Fat.Util.Posix.{IsVolume}
use famaf_unc.Base.{
  ℕ, zero, suc, ◌+◌, ◌≤◌, ◌<◌, ◌≡◌, ◌≢◌, refl, true, false, List, [], ◌∷◌, arith, length, some,
  replicate, Bool, ap, ◌↔◌, ◌*◌,
}
use famaf_unc.Fat.Device.{Device, Volume, done, Io, failed, ok, fault, eintr, eio}

-- A signal interrupts the first call of `pread`, if the flag is set.
abbrev flaky_read : Bool → ℕ → Disk → ℕ → (Bool × Disk) × Io (List ℕ)
flaky_read true count d offset = ((false, d), failed eintr)
flaky_read false count d offset = ((false, d), done (load_bytes d offset count))

abbrev flaky_device : Device (Bool × Disk)
flaky_device = record {
  pread = λ s count offset. flaky_read s.0 count s.1 offset;
  pwrite = λ s bs offset. ((s.0, store_bytes s.1 offset bs), done (length bs));
  time = λ s. (s, 0);
  gmtime_r = λ t. new_year;
  mktime = λ t. 0;
  basename = λ p. p;
}

flaky_reads :
    (b : Bool) (d : Disk) (count offset : ℕ)
    → b ≡ false
    → 0 < count
    → (bs : List ℕ) × ((flaky_read b count d offset).1 ≡ done bs)
      × (0 < length bs)
      × (length bs ≤ count)
      × ((i x : ℕ) → i < length bs → get_or bs i x ≡ d (offset + i))
flaky_reads true d count offset e some' = absurd (ground arith)
flaky_reads false d count offset e some' =
    let r = mem_device-IsVolume (offset + count) in r.reads d count offset tt some' (omega arith)

flaky_keeps : (b : Bool) (d : Disk) (count offset i : ℕ) → (flaky_read b count d offset).0.1 i ≡ d i
flaky_keeps true d count offset i = refl
flaky_keeps false d count offset i = refl

flaky_calm : (b : Bool) (d : Disk) (count offset : ℕ) → (flaky_read b count d offset).0.0 ≡ false
flaky_calm true d count offset = refl
flaky_calm false d count offset = refl

flaky_device-IsVolume : IsVolume flaky_device (λ s i. s.1 i) 2000 (λ s. s.0 ≡ false)
flaky_device-IsVolume = record {
  reads = λ s count offset calm some' fits. flaky_reads s.0 s.1 count offset calm some';
  read_keeps = λ s count offset i. flaky_keeps s.0 s.1 count offset i;
  read_calm = λ s count offset c. flaky_calm s.0 s.1 count offset;
  writes = λ s bs offset calm some' fits.
      let r = mem_device-IsVolume 2000 in r.writes s.1 bs offset tt some' fits;
  write_calm = λ s bs offset c. c;
}

abbrev flaky_volume : Volume (Bool × Disk)
flaky_volume = record { table = table; disk = (true, λ i. i); errno = 0; mem = λ a. 0 }

full_pread-interrupted_example :
    (w : Volume (Bool × Disk)) × (full_pread flaky_device
        (suc 9)
        (suc 5000)
        (suc 3)
        (suc 60)
        flaky_volume
      ≡ ok (suc 3) w)
    × Delivered
        (λ s i. s.1 i)
        (λ s. s.0 ≡ false)
        (record flaky_volume { disk = (false, λ i. i); errno = eintr })
        w
        5000
        (suc 3 + 1)
        60
full_pread-interrupted_example =
    full_pread-interrupted flaky_device-IsVolume 9 5000 3 60 flaky_volume refl refl (omega arith)
      (omega arith) (omega arith)

-- No write to this device succeeds.
abbrev broken_device : Device Disk
broken_device = record mem_device { pwrite = λ d bs offset. (d, failed eio) }

write_dir_entry-success_iff_example :
    (s : Status) × (w : Volume Disk) × (write_dir_entry broken_device root file volume ≡ ok s w)
    × ((s ≡ success) ↔ (
        (1 * entry_size < bytes_per_cluster table)
        × IsTaken (dentry_write broken_device root file volume).1))
    × ((e : ℕ)
        → 1 * entry_size < bytes_per_cluster table
        → (dentry_write broken_device root file volume).1 ≡ failed e
        → w.errno ≡ e)
write_dir_entry-success_iff_example =
    write_dir_entry-success_iff broken_device root file volume (omega arith)

-- Four entries, none of them free.
abbrev full_volume : Volume Disk
full_volume = record volume {
  table = record table { num_data_clusters = 2; fat_map = replicate 4 end_of_chain_max };
}

none_free : (j : ℕ) → entry full_volume.table j ≢ some cluster_free
none_free zero e = ground arith
none_free (suc zero) e = ground arith
none_free (suc (suc zero)) e = ground arith
none_free (suc (suc (suc zero))) e = ground arith
none_free (suc (suc (suc (suc j)))) e = ground arith

file_init-full_example : file_init mem_device false (b'/' ∷ b'c' ∷ []) full_volume ≡ fault
file_init-full_example =
    file_init-full mem_device false (b'/' ∷ b'c' ∷ []) full_volume
      (λ j two e. absurd (none_free j e)) (omega arith)

length-replicate : (n x : ℕ) → length (replicate n x) ≡ n
length-replicate zero x = refl
length-replicate (suc n) x = ap suc (length-replicate n x)

abbrev wide_volume : ℕ → Volume Disk
wide_volume n = record volume {
  table = record table { num_data_clusters = 9998; fat_map = replicate n end_of_chain_max };
}

search_bb_orphan_dir_cluster-nothing_example :
    search_bb_orphan_dir_cluster mem_device 9 5000 2 (wide_volume 10000)
    ≡ ok no_cluster (wide_volume 10000)
search_bb_orphan_dir_cluster-nothing_example =
    search_bb_orphan_dir_cluster-nothing mem_device 9 5000 2 (wide_volume 10000) (omega arith)
      (omega (arith, length-replicate 10000 end_of_chain_max)) (omega arith)
