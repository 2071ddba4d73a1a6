-- ===== src/Fat/Tests/Descriptors.antt =====
-- A machine with open descriptors and a volume in memory.
use famaf_unc.Fat.Device.{Device, Volume, Io, done, failed}
use famaf_unc.Fat.Util.{load_bytes, store_bytes}
use famaf_unc.Fat.Util.Posix.{IsVolume}
use famaf_unc.Fat.Util.Write.{length-load_bytes, get_or-load_bytes}
use famaf_unc.Fat.Mount.{Mounting, fat_volume_mount}
use famaf_unc.Fat.Mount.Descriptors.{Accounts, Settled, fat_volume_mount-Settled}
use famaf_unc.Fat.Tests.{mem_device, table, get_or-default}
use famaf_unc.Fat.Tests.Mounts.{small_volume}
use famaf_unc.Base.{ℕ, ◌-◌, ◌≡◌, refl, Bool, true, false, arith, length, updated, sym, ◌^◌}

record Machine : Type 0 where
  bytes : ℕ → ℕ
  descriptors : ℕ → Bool

abbrev with_bytes : Machine → (ℕ → ℕ) → Machine
with_bytes m b = record m { bytes = b }

abbrev disk_device : Device Machine
disk_device = record {
  pread = λ d count offset. (d, done (load_bytes d.bytes offset count));
  pwrite = λ d bs offset. (with_bytes d (store_bytes d.bytes offset bs), done (length bs));
  time = λ d. (d, 0);
  gmtime_r = mem_device.gmtime_r;
  mktime = λ t. 0;
  basename = λ p. p;
}

-- EMFILE is 24.
abbrev descriptor_for : Bool → Machine → Machine × Io ℕ
descriptor_for true d = (d, failed 24)
descriptor_for false d = (record d { descriptors = updated d.descriptors 3 true }, done 3)

abbrev kernel : Mounting Machine
kernel = record {
  open_volume = λ d writable. descriptor_for (d.descriptors 3) d;
  close = λ d fd. (record d { descriptors = updated d.descriptors fd false }, done 0);
  mmap = λ d n writable fd offset. (d, done (2 ^ 20, load_bytes d.bytes offset n));
  munmap = λ d address n. (d, done 0);
  page_size = 4096;
}

disk_device-IsVolume :
    (size : ℕ) (descriptors : ℕ → Bool)
    → IsVolume disk_device (λ d i. d.bytes i) size (λ d. (j : ℕ) → d.descriptors j ≡ descriptors j)
disk_device-IsVolume size descriptors = record {
  reads = λ d count offset calm some' fits. (
    load_bytes d.bytes offset count,
    refl,
    omega (arith, length-load_bytes d.bytes offset count),
    omega (arith, length-load_bytes d.bytes offset count),
    λ i x h.
        get_or-load_bytes d.bytes offset count i x
          (omega (arith, length-load_bytes d.bytes offset count)),
  );
  read_keeps = λ d count offset i. refl;
  read_calm = λ d count offset c. c;
  writes = λ d bs offset calm some' fits. (
    length bs,
    refl,
    some',
    omega arith,
    λ i. ground (arith, get_or-default bs (i - offset) (d.bytes i) 0),
  );
  write_calm = λ d bs offset c. c;
}

descriptor_for-opens :
    (d : Machine) (b : Bool) (fd : ℕ)
    → d.descriptors 3 ≡ b
    → (descriptor_for b d).1 ≡ done fd
    → (d.descriptors fd ≡ false)
      × ((j : ℕ) → (descriptor_for b d).0.descriptors j ≡ updated d.descriptors fd true j)
descriptor_for-opens d true fd e h = absurd cc
descriptor_for-opens d false fd e h = let same : 3 ≡ fd = cc in rw (sym same) (e, λ j. refl)

descriptor_for-refuses :
    (d : Machine) (b : Bool) (n : ℕ)
    → (descriptor_for b d).1 ≡ failed n
    → (j : ℕ) → (descriptor_for b d).0.descriptors j ≡ d.descriptors j
descriptor_for-refuses d true n h j = refl
descriptor_for-refuses d false n h j = absurd cc

kernel-Accounts : Accounts disk_device kernel (λ d i. d.bytes i) 4096 (λ d. d.descriptors)
kernel-Accounts = record {
  volume = disk_device-IsVolume 4096;
  opens = λ d w fd h. descriptor_for-opens d (d.descriptors 3) fd refl h;
  refuses = λ d w e h. descriptor_for-refuses d (d.descriptors 3) e h;
  closes = λ d fd j. refl;
  maps = λ d n w fd q j. refl;
}

abbrev machine_volume : Volume Machine
machine_volume = record {
  table = table;
  disk = record { bytes = λ i. 0; descriptors = λ j. false };
  errno = 0;
  mem = λ a. 0;
}

fat_volume_mount-Settled_example :
    Settled kernel-Accounts 5000 small_volume machine_volume.disk
      (fat_volume_mount disk_device kernel 200 5000 2 small_volume machine_volume)
fat_volume_mount-Settled_example =
    fat_volume_mount-Settled kernel-Accounts 200 5000 2 small_volume machine_volume (omega arith)
      (omega arith)
