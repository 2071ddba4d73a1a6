-- ===== src/Fat/Time/Roundtrip.antt =====
-- Packing and unpacking of dates and times.
use famaf_unc.Base.{◌+◌, ◌*◌, ◌%◌, ◌^◌, ◌-◌, ◌*◌, ◌/◌, ◌<◌, ◌≤◌, ◌≡◌, arith}
use famaf_unc.Fat.Device.{Tm}
use famaf_unc.Fat.Time.{u16, fill_date, fill_clock, unpack_time}

-- The dates that the format can hold: the years 1980 to 2107.
pub record IsFatTime (t : Tm) : Type 0 where
  pub sec : t.sec < 60
  pub minute : t.minute < 60
  pub hour : t.hour < 24
  pub mday : (1 ≤ t.mday) × (t.mday ≤ 31)
  pub mon : t.mon < 12
  pub year : (80 ≤ t.year) × (t.year < 208)

module _ (t : Tm) (h : IsFatTime t) where
  date_fields :
      (fill_date t % 32 ≡ t.mday)
      × (u16 (fill_date t / 32 % 16 + 2 ^ 16 - 1) ≡ t.mon)
      × (fill_date t / 512 + (1980 - 1900) ≡ t.year)
  unfolding fill_date
  date_fields = omega arith

  clock_fields :
      (fill_clock t % 32 * 2 ≡ t.sec / 2 * 2)
      × (fill_clock t / 32 % 64 ≡ t.minute)
      × (fill_clock t / 2048 ≡ t.hour)
  unfolding fill_clock
  clock_fields = omega arith

  -- What fill_time packs of a date from 1980 to 2107, time_to_unix_time unpacks: the same date and
  -- time, down to two seconds.
  pub unpack_time-fill : unpack_time (fill_date t) (fill_clock t) ≡ record t { sec = t.sec / 2 * 2 }
  unfolding unpack_time
  unpack_time-fill = λ i. record {
    sec = clock_fields.0 i;
    minute = clock_fields.1 i;
    hour = clock_fields.2 i;
    mday = date_fields.0 i;
    mon = date_fields.1 i;
    year = date_fields.2 i;
  }
