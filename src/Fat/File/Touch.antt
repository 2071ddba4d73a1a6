-- ===== src/Fat/File/Touch.antt =====
-- What the update of a file's entry leaves alone.
use famaf_unc.Fat.Dentry.Write.{write_dir_entry-keeps}
use famaf_unc.Fat.Table.{success}
use famaf_unc.Fat.Time.{fill_time}
use famaf_unc.Fat.Dentry.{fill_times, fill_dentry_time_now, FatFile, FatDirEntry}
use famaf_unc.Fat.File.{touch, success}
use famaf_unc.Base.{ℕ, ◌≡◌, refl, false, arith, Bool}
use famaf_unc.Fat.Device.{Device, Volume, ok}

fill_dentry_time_now-keeps :
    {D : Type 0} (dev : Device D) (e : FatDirEntry) (modified : Bool) (v : Volume D)
    → fill_dentry_time_now dev e false modified v
      ≡ ok
          (
            success,
            fill_times e false modified
                (fill_time dev (dev.time v.disk).1).0
                (fill_time dev (dev.time v.disk).1).1,
          )
          (record v { disk = (dev.time v.disk).0 })
unfolding fill_dentry_time_now
fill_dentry_time_now-keeps dev e modified v = refl

fill_times-size :
    (e : FatDirEntry) (modified : Bool) (date time : ℕ)
    → (fill_times e false modified date time).file_size ≡ e.file_size
unfolding fill_times
fill_times-size e modified date time = ground arith

-- It returns, and leaves the table, memory, and the file's size and place alone.
pub touch-keeps :
    {D : Type 0} (dev : Device D) (file parent : FatFile) (modified : Bool) (v : Volume D)
    → (file' : FatFile) × (w : Volume D) × (touch dev file parent modified v ≡ ok file' w)
      × (w.table ≡ v.table)
      × (w.mem ≡ v.mem)
      × (file'.dentry.file_size ≡ file.dentry.file_size)
      × (file'.start_cluster ≡ file.start_cluster)
unfolding touch
touch-keeps dev file parent modified v =
    let e =
      fill_times file.dentry false modified (fill_time dev (dev.time v.disk).1).0
        (fill_time dev (dev.time v.disk).1).1 in
    let file' = record file { dentry = e } in
    let (s, w, run, t, m) =
      write_dir_entry-keeps dev parent file' (record v { disk = (dev.time v.disk).0 }) in
    (
      file',
      w,
      rw (fill_dentry_time_now-keeps dev file.dentry modified v, run) refl,
      t,
      m,
      fill_times-size file.dentry modified _ _,
      refl,
    )
