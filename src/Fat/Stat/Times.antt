-- ===== src/Fat/Stat/Times.antt =====
-- stat shows the date that was stored.
use famaf_unc.Fat.Device.{Device, FatTable, Tm}
use famaf_unc.Fat.Time.{fill_date, fill_clock, time_to_unix_time}
use famaf_unc.Fat.Time.Roundtrip.{IsFatTime, unpack_time-fill}
use famaf_unc.Fat.Dentry.{FatFile, fill_times}
use famaf_unc.Fat.Stat.{file_to_stbuf}
use famaf_unc.Base.{◌/◌, ◌*◌, ◌≡◌, ap, true, false}

-- If an entry is filled as on a write, with a date from 1980 to 2107, then stat gives as the time
-- of the last modification what mktime makes of that date, down to two seconds.
pub file_to_stbuf-fill_times :
    {D : Type 0} (dev : Device D) (t : FatTable) (file : FatFile) (tm : Tm)
    → IsFatTime tm
    → (file_to_stbuf dev t (record file {
      dentry = fill_times file.dentry false true (fill_date tm) (fill_clock tm);
    })).st_mtime
      ≡ dev.mktime (record tm { sec = tm.sec / 2 * 2 })
unfolding file_to_stbuf time_to_unix_time fill_times
file_to_stbuf-fill_times dev t file tm h = ap dev.mktime (unpack_time-fill tm h)
