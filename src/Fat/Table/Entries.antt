-- ===== src/Fat/Table/Entries.antt =====
-- fat_table_set_next_cluster on every outcome of the write to the volume.
use famaf_unc.Base.{ℕ, zero, suc, ◌+◌, ◌*◌, ◌%◌, ◌^◌, ◌<◌, ◌≡◌, refl, arith, length, lt→ltb}
use famaf_unc.Fat.Device.{Device, Volume, Io, done, failed, ok}
use famaf_unc.Fat.Table.{
  with_entry, le32_bytes, success, failure, after_entry_write, set_next_cluster,
}

-- The answer of `pwrite` to the write of an entry, and the volume behind it.
abbrev pub entry_write : {D : Type 0} → Device D → ℕ → ℕ → Volume D → D × Io ℕ
entry_write dev cur next v =
    dev.pwrite v.disk (le32_bytes next) ((cur * 4) % 2 ^ 32 + v.table.fat_offset)

after_entry_write-failure :
    {D : Type 0} (cur next : ℕ) (r : Io ℕ) (v : Volume D)
    → ((n : ℕ) → r ≡ done n → n ≡ 0)
    → (w : Volume D) × (after_entry_write cur next r v ≡ ok failure w) × (w.table ≡ v.table)
unfolding after_entry_write
after_entry_write-failure cur next (failed e) v h = (record v { errno = e }, refl, refl)
after_entry_write-failure cur next (done zero) v h = (v, refl, refl)
after_entry_write-failure cur next (done (suc n)) v h = absurd (omega (arith, h (suc n) refl))

module _ {D : Type 0} (dev : Device D) (cur next : ℕ) (v : Volume D) where
  -- If at least one byte is written and the entry lies in the map, the call succeeds, the entry is
  -- `next` in the table in memory, and nothing else in the table or in `errno` changes.
  pub set_next_cluster-success :
      (n : ℕ)
      → (entry_write dev cur next v).1 ≡ done n
      → 0 < n
      → cur < length v.table.fat_map
      → set_next_cluster dev cur next v
        ≡ ok success (record v {
          table = with_entry v.table cur next;
          disk = (entry_write dev cur next v).0;
        })
  unfolding set_next_cluster
  set_next_cluster-success n e p l = ground (arith, lt→ltb cur (length v.table.fat_map) l)

  -- If `pwrite` fails or writes nothing, the call fails and the table in memory stays as it was.
  set_next_cluster-failure :
      ((n : ℕ) → (entry_write dev cur next v).1 ≡ done n → n ≡ 0)
      → (w : Volume D) × (set_next_cluster dev cur next v ≡ ok failure w) × (w.table ≡ v.table)
  unfolding set_next_cluster
  set_next_cluster-failure h =
      after_entry_write-failure cur next (entry_write dev cur next v).1
        (record v { disk = (entry_write dev cur next v).0 }) h
