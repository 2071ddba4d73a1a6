-- ===== src/Fat/Fuse/Overflow.antt =====
-- The log line of a file with a long path.
use famaf_unc.Fat.Device
use famaf_unc.Fat.Device.{Volume}
use famaf_unc.Fat.Dentry.{FatFile}
use famaf_unc.Fat.File.{pread}
use famaf_unc.Fat.Fuse.{System, Fuse, fault, and_then-ok, from_store, from_volume, and_then-fault}
use famaf_unc.Fat.Fuse.Found.{
  HasFile, HasParent, get_file-HasFile, get_parent-HasParent, file_at-pos,
}
use famaf_unc.Fat.Fuse.Log.{
  log_line, login_of, log_message_size, read_type, now_to_str, fill_log_buf, log_activity,
}
use famaf_unc.Fat.Fuse.Transfer.{read}
use famaf_unc.Base.{
  ℕ, ◌+◌, ◌<◌, ◌≤◌, ◌≡◌, refl, ap, true, List, [], ◌∷◌, ◌++◌, arith, leb, length, length-append,
  updated, updated_self,
}

length-log_line :
    (date login path op : List ℕ)
    → length (log_line date login path op)
      ≡ length date + length login + length path + length op + 4
unfolding log_line
length-log_line date login path op = omega (
  arith,
  length-append date (9 ∷ (login ++ (9 ∷ (path ++ (9 ∷ (op ++ (10 ∷ []))))))),
  length-append login (9 ∷ (path ++ (9 ∷ (op ++ (10 ∷ []))))),
  length-append path (9 ∷ (op ++ (10 ∷ []))),
  length-append op (10 ∷ []),
)

module _ {D : Type 0} (sys : System D) (dates : (now : ℕ) → length (sys.date_text now) ≡ 16) where
  log_activity-long :
      (s : Fuse D) (p : ℕ)
      → 0 < p
      → 75 ≤ length (s.files p).filepath + length (login_of sys.pw_name)
      → log_activity sys read_type p s ≡ fault
  unfolding log_activity now_to_str fill_log_buf
  log_activity-long s p some_file long =
      let (d, now) = sys.device.time s.volume.disk in
      let s1 = record s { volume = record s.volume { disk = d } } in
      let date = sys.date_text now in
      let line = log_line date (login_of sys.pw_name) (s.files p).filepath read_type in
      let full : leb log_message_size (length line) ≡ true =
        let size = length-log_line date (login_of sys.pw_name) (s.files p).filepath read_type in
        let short = dates now in let much : 100 ≤ length line = omega arith in ground arith in
      and_then-ok _ (file_at-pos s1 p some_file) (rw full refl)

  -- When the texts of the dates have 16 characters ("%d-%m-%Y %H:%M"), the handle is a live node whose file has a
  -- parent, fat_file_pread of the file ends, and the path of the file and the name of the user have at least 75
  -- characters together, then fat_fuse_read writes outside of the buffer for the log line.
  pub read-long_path :
      (s : Fuse D) (buf size offset fh p q n : ℕ) (file' : FatFile) (v : Volume D)
      → HasFile s.store fh p
      → HasParent s.store fh q
      → pread sys.device sys.fuel
          (s.files p)
          buf
          size
          offset
          (s.files q)
          (record s.volume { errno = 0 })
        ≡ Device.Run.ok (n, file') v
      → 75 ≤ length file'.filepath + length (login_of sys.pw_name)
      → read sys buf size offset fh s ≡ fault
  unfolding read
  read-long_path s buf size offset fh p q n file' v hf hp reads long =
      let s0 = record s { volume = record s.volume { errno = 0 } } in
      let s1 = record s { volume = v; files = updated s.files p file' } in
      let same = ap (λ r. length r.filepath) (updated_self s.files p file') in
      and_then-ok _ (ap (from_store s0) (get_file-HasFile s.store fh p hf)) (
        and_then-ok _ (ap (from_store s0) (get_parent-HasParent s.store fh q hp)) (
          and_then-ok _ (file_at-pos s0 p hf.file_pos) (
            and_then-ok _ (file_at-pos s0 q hp.parent_file.file_pos) (
              and_then-ok _ (ap (from_volume s0) reads)
                (and_then-fault _ (log_activity-long s1 p hf.file_pos (omega arith)))))))
