-- ===== src/Fat/Fuse/Log.antt =====
-- fat_fuse_log_activity of fat_fuse_ops.c: the line that a read or a write adds to /bb/fs.log.
use famaf_unc.Fat.Util.{store_bytes}
use famaf_unc.Fat.File.{pwrite}
use famaf_unc.Fat.FileTree.{fat_tree_get_file, fat_tree_get_parent}
use famaf_unc.Fat.Fuse.{
  System, ok, fault, Cmd, ◌>>=◌, ◌>>◌, on_volume, on_store, file_at, put_file, node_search,
}
use famaf_unc.Base.{ℕ, List, [], ◌∷◌, ◌++◌, Option, none, some, leb, if◌then◌else◌, length}

-- LOG_MESSAGE_SIZE
abbrev pub log_message_size : ℕ
log_message_size = 100

-- "/bb/fs.log"
abbrev pub log_path : List ℕ
log_path = b'/' ∷ b'b' ∷ b'b' ∷ b'/' ∷ b'f' ∷ b's' ∷ b'.' ∷ b'l' ∷ b'o' ∷ b'g' ∷ []

-- ".read" and ".write"
abbrev pub read_type : List ℕ
read_type = b'.' ∷ b'r' ∷ b'e' ∷ b'a' ∷ b'd' ∷ []

abbrev pub write_type : List ℕ
write_type = b'.' ∷ b'w' ∷ b'r' ∷ b'i' ∷ b't' ∷ b'e' ∷ []

-- "vigilante"
abbrev pub default_login : List ℕ
default_login = b'v' ∷ b'i' ∷ b'g' ∷ b'i' ∷ b'l' ∷ b'a' ∷ b'n' ∷ b't' ∷ b'e' ∷ []

abbrev pub login_of : Option (List ℕ) → List ℕ
login_of none = default_login
login_of (some name) = name

-- The text that the calls of strcat put together.
unfoldable pub log_line : (date login filepath operation_type : List ℕ) → List ℕ
log_line date login filepath operation_type =
    date ++ (9 ∷ (login ++ (9 ∷ (filepath ++ (9 ∷ (operation_type ++ (10 ∷ [])))))))

module _ {D : Type 0} (sys : System D) where
  unfoldable pub now_to_str : Cmd D (List ℕ)
  now_to_str s =
      let (d, now) = sys.device.time s.volume.disk in
      ok (sys.date_text now) (record s { volume = record s.volume { disk = d } })

  -- The text in the buffer `buf`, which has log_message_size bytes, with the zero at its end.
  unfoldable pub fill_log_buf : List ℕ → Cmd D (Unit {0})
  fill_log_buf line s =
      if leb log_message_size (length line)
      then fault
      else ok tt (record s {
        volume = record s.volume { mem = store_bytes s.volume.mem sys.log_buf (line ++ (0 ∷ [])) };
      })

  -- What pwrite leaves of the message is only printed.
  unfoldable pub log_activity : (operation_type : List ℕ) → (file : ℕ) → Cmd D (Unit {0})
  log_activity operation_type file = do
    date ← now_to_str
    f ← file_at file
    let line = log_line date (login_of sys.pw_name) f.filepath operation_type
    fill_log_buf line
    vigilante_node ← node_search sys log_path
    vigilate_file ← on_store (fat_tree_get_file vigilante_node)
    parent ← on_store (fat_tree_get_parent vigilante_node)
    log ← file_at vigilate_file
    dir ← file_at parent
    (written, log') ←
        on_volume
          (pwrite sys.device sys.fuel log sys.log_buf (length line) log.dentry.file_size dir)
    put_file vigilate_file log'
