-- ===== src/Fat/Tests/Tables.antt =====
-- Concrete tables, dates and names.
use famaf_unc.Fat.Stat.Times.{file_to_stbuf-fill_times}
use famaf_unc.Fat.Stat.{file_to_stbuf}
use famaf_unc.Fat.Table.Chain.{nth_cluster, seek_cluster-nth}
use famaf_unc.Fat.Filename.Roundtrip.{IsPlain, build_filename-from_path}
use famaf_unc.Fat.Dentry.{fill_times}
use famaf_unc.Fat.Filename.{build_filename, filename_from_path, dot}
use famaf_unc.Fat.Tests.{new_year, mem_device, table, file, chain, table-Follows, table-two_valid}
use famaf_unc.Fat.Table.{seek_cluster}
use famaf_unc.Base.{true, false, ℕ, ◌≡◌, refl, List, [], ◌∷◌, ◌++◌, arith, some, ◌/◌, ◌^◌, ◌%◌}
use famaf_unc.Fat.Time.Roundtrip.{IsFatTime}
use famaf_unc.Fat.Time.{fill_date, fill_clock}

seek_cluster-nth_example :
    seek_cluster table 2 130 ≡ some (nth_cluster (2 ∷ chain) (130 / 2 ^ 6 % 2 ^ 32))
seek_cluster-nth_example = seek_cluster-nth table 2 chain 130 table-two_valid table-Follows

new_year-IsFatTime : IsFatTime new_year
new_year-IsFatTime = record {
  sec = omega arith;
  minute = omega arith;
  hour = omega arith;
  mday = (omega arith, omega arith);
  mon = omega arith;
  year = (omega arith, omega arith);
}

abbrev ok_name : List ℕ
ok_name = b'O' ∷ b'K' ∷ []

abbrev log_extension : List ℕ
log_extension = b'L' ∷ b'O' ∷ b'G' ∷ []

ok_name-IsPlain : IsPlain ok_name
ok_name-IsPlain = ((refl, refl, refl), ((refl, refl, refl), tt))

log_extension-IsPlain : IsPlain log_extension
log_extension-IsPlain = ((refl, refl, refl), ((refl, refl, refl), ((refl, refl, refl), tt)))

build_filename-from_path_example :
    build_filename
      (filename_from_path (ok_name ++ (dot ∷ log_extension))).0
      (filename_from_path (ok_name ++ (dot ∷ log_extension))).1
    ≡ ok_name ++ (dot ∷ log_extension)
build_filename-from_path_example =
    build_filename-from_path ok_name log_extension ok_name-IsPlain log_extension-IsPlain
      (omega arith) (omega arith) (omega arith) (omega arith)

file_to_stbuf-fill_times_example :
    (file_to_stbuf mem_device table (record file {
      dentry = fill_times file.dentry false true (fill_date new_year) (fill_clock new_year);
    })).st_mtime
    ≡ 0
file_to_stbuf-fill_times_example =
    file_to_stbuf-fill_times mem_device table file new_year new_year-IsFatTime
