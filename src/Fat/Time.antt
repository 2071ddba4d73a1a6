-- ===== src/Fat/Time.antt =====
-- fill_time and time_to_unix_time of fat_util.c: dates and times packed into 16 bits. The machine is
-- little-endian, so that cpu_to_le16 and le16_to_cpu are the identity. Each `|=` joins numbers with no
-- common bit, and stands here as a sum; each mask of low bits stands as a remainder.
pub mod Roundtrip
use famaf_unc.Base.{ℕ, ◌+◌, ◌-◌, ◌*◌, ◌/◌, ◌%◌, ◌^◌}
use famaf_unc.Fat.Device.{Device, Tm}

abbrev pub u16 : ℕ → ℕ
u16 n = n % 2 ^ 16

-- `tm_year + 1900 - 1980` is a signed number, negative before 1980.
unfoldable pub fill_date : Tm → ℕ
fill_date t =
    let month = u16 (u16 t.mday % 32 + (u16 t.mon + 1) * 32) % 512 in
    u16 (month + u16 (t.year + 1900 + 2 ^ 16 - 1980) * 512)

unfoldable pub fill_clock : Tm → ℕ
fill_clock t =
    let minutes = u16 (u16 (t.sec / 2) % 32 + u16 t.minute * 32) % 2048 in
    u16 (minutes + u16 t.hour * 2048)

-- Both numbers of `fill_time`.
unfoldable pub fill_time : {D : Type 0} → Device D → ℕ → ℕ × ℕ
unfolding fill_date fill_clock
fill_time dev t = (fill_date (dev.gmtime_r t), fill_clock (dev.gmtime_r t))

-- The `struct tm` that is handed to mktime.
unfoldable pub unpack_time : ℕ → ℕ → Tm
unpack_time date time = record {
  sec = time % 32 * 2;
  minute = time / 32 % 64;
  hour = time / 2048;
  mday = date % 32;
  mon = u16 (date / 32 % 16 + 2 ^ 16 - 1);
  year = date / 512 + (1980 - 1900);
}

unfoldable pub time_to_unix_time : {D : Type 0} → Device D → ℕ → ℕ → ℕ
unfolding unpack_time
time_to_unix_time dev date time = dev.mktime (unpack_time date time)
