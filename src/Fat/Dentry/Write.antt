-- ===== src/Fat/Dentry/Write.antt =====
-- write_dir_entry on every outcome, and the state that its callers leave behind.
use famaf_unc.Base.{
  Bool-cases, inl, inr, leb, ◌%◌, ℕ, ◌+◌, ◌*◌, ◌^◌, ◌≤◌, ◌<◌, ◌≡◌, refl, arith, ◌⊎◌, ◌↔◌, false,
  ◌≢◌, ltb, ◌∙◌, sym,
}
use famaf_unc.Fat.Device.{Device, Volume, Io, done, failed, ok}
use famaf_unc.Fat.Table.{success, failure, bytes_per_cluster, cluster_offset}
use famaf_unc.Fat.Dentry.{
  FatFile, dentry_bytes, entry_size, after_dentry_write, write_dir_entry, Status,
}

abbrev pub dentry_write : {D : Type 0} → Device D → FatFile → FatFile → Volume D → D × Io ℕ
dentry_write dev parent file v =
    dev.pwrite v.disk (dentry_bytes file.dentry)
      (file.pos_in_parent * entry_size + cluster_offset v.table parent.start_cluster)

after_dentry_write-keeps :
    {D : Type 0} (p : D × Io ℕ) (v : Volume D)
    → (s : Status) × (w : Volume D) × (after_dentry_write p v ≡ ok s w)
      × (w.table ≡ v.table)
      × (w.mem ≡ v.mem)
      × (w.disk ≡ p.0)
unfolding after_dentry_write
after_dentry_write-keeps (d, failed e) v =
    (success, record v { disk = d; errno = e }, refl, refl, refl, refl)
after_dentry_write-keeps (d, done n) v = (_, record v { disk = d }, refl, refl, refl, refl)

-- The answers of `pwrite` that the caller takes for a whole entry.
abbrev pub IsTaken : Io ℕ → Type 0
IsTaken written =
    ((e : ℕ) × (written ≡ failed e)) ⊎ ((n : ℕ) × (written ≡ done n) × (entry_size ≤ n))

failure-not_success : failure ≢ success
failure-not_success e = ground arith

failed-ne-done : {A : Type 0} (e : ℕ) (x : A) → failed e ≢ done x
failed-ne-done e x h = ground arith

done-injective : (m n : ℕ) → done m ≡ done n → m ≡ n
done-injective m n h = ground arith

after_dentry_write-success_iff :
    {D : Type 0} (p : D × Io ℕ) (v : Volume D)
    → (s : Status) × (w : Volume D) × (after_dentry_write p v ≡ ok s w)
      × ((s ≡ success) ↔ IsTaken p.1)
      × ((e : ℕ) → p.1 ≡ failed e → w.errno ≡ e)
unfolding after_dentry_write
after_dentry_write-success_iff (d, failed e) v = (
  success,
  record v { disk = d; errno = e },
  refl,
  (λ z. inl (e, refl), λ z. refl),
  λ n h. ground arith,
)
after_dentry_write-success_iff (d, done n) v = elim (Bool-cases (ltb n entry_size)) [
  | inl short ↦ (
    failure,
    record v { disk = d },
    rw short refl,
    (
      λ z. absurd (failure-not_success z),
      λ z. elim z [
        | inl (e, h) ↦ absurd (failed-ne-done e n (sym h))
        | inr (m, h, l) ↦ let same = done-injective n m h in absurd (ground arith)
      ],
    ),
    λ e h. absurd (failed-ne-done e n (sym h)),
  )
  | inr whole ↦ (
    success,
    record v { disk = d },
    rw whole refl,
    (λ z. inr (n, refl, ground arith), λ z. refl),
    λ e h. absurd (failed-ne-done e n (sym h)),
  )
]

module _ {D : Type 0} (dev : Device D) (parent file : FatFile) (v : Volume D) where
  -- It always returns, and leaves the table and memory alone.
  pub write_dir_entry-keeps :
      (s : Status) × (w : Volume D) × (write_dir_entry dev parent file v ≡ ok s w)
      × (w.table ≡ v.table)
      × (w.mem ≡ v.mem)
  unfolding write_dir_entry
  write_dir_entry-keeps =
      elim (Bool-cases
        (leb (bytes_per_cluster v.table % 2 ^ 32) (file.pos_in_parent * entry_size))) [
          | inl full ↦ (failure, v, rw (full, write_dir_entry) refl, refl, refl)
          | inr fits ↦
              let (s, w, run, t, m, d) =
                after_dentry_write-keeps (dentry_write dev parent file v) v in
              (s, w, rw (fits, write_dir_entry) run, t, m)
        ]

  -- An entry whose place lies behind the end of the directory's first cluster is not written: the call
  -- fails, and nothing changes.
  write_dir_entry-full :
      bytes_per_cluster v.table < 2 ^ 32
      → bytes_per_cluster v.table ≤ file.pos_in_parent * entry_size
      → write_dir_entry dev parent file v ≡ ok failure v
  unfolding write_dir_entry
  write_dir_entry-full l h = ground arith

  write_dir_entry-fits :
      bytes_per_cluster v.table < 2 ^ 32
      → file.pos_in_parent * entry_size < bytes_per_cluster v.table
      → write_dir_entry dev parent file v ≡ after_dentry_write (dentry_write dev parent file v) v
  unfolding write_dir_entry
  write_dir_entry-fits l h =
      let room : leb (bytes_per_cluster v.table % 2 ^ 32) (file.pos_in_parent * entry_size)
          ≡ false =
        ground arith in
      rw room refl

  -- With clusters of less than 2 ^ 32 bytes, writing the entry of a file into its directory ends, and reports success
  -- in just two cases: the entry's place lies in the first cluster of the directory, and `pwrite` either fails
  -- or writes 32 bytes at least. So a short write and a full directory are reported, but a write that fails
  -- is not; only errno tells of it.
  pub write_dir_entry-success_iff :
      bytes_per_cluster v.table < 2 ^ 32
      → (s : Status) × (w : Volume D) × (write_dir_entry dev parent file v ≡ ok s w)
        × ((s ≡ success) ↔ (
            (file.pos_in_parent * entry_size < bytes_per_cluster v.table)
            × IsTaken (dentry_write dev parent file v).1))
        × ((e : ℕ)
            → file.pos_in_parent * entry_size < bytes_per_cluster v.table
            → (dentry_write dev parent file v).1 ≡ failed e
            → w.errno ≡ e)
  write_dir_entry-success_iff l =
      elim (Bool-cases (ltb (file.pos_in_parent * entry_size) (bytes_per_cluster v.table))) [
        | inl e ↦
            let fits : file.pos_in_parent * entry_size < bytes_per_cluster v.table = ground arith in
            let (s, w, run, taken, errno) =
              after_dentry_write-success_iff (dentry_write dev parent file v) v in
            (
              s,
              w,
              write_dir_entry-fits l fits ∙ run,
              (λ z. (fits, taken.0 z), λ z. taken.1 z.1),
              λ n h failure_of. errno n failure_of,
            )
        | inr e ↦
            let full : bytes_per_cluster v.table ≤ file.pos_in_parent * entry_size = ground arith in
            (
              failure,
              v,
              write_dir_entry-full l full,
              (λ z. absurd (failure-not_success z), λ z. absurd (omega (arith, z.0))),
              λ n h _. absurd (omega arith),
            )
      ]
