-- ===== src/Fat/Fuse/Transfer.antt =====
-- fat_fuse_read and fat_fuse_write: a transfer, and a line in the log. A handle that they are given comes from
-- fat_fuse_open, which refuses directories, so that its file has a parent.
use famaf_unc.Fat.Device.{eoverflow}
use famaf_unc.Fat.File.{pread, pwrite}
use famaf_unc.Fat.FileTree.{fat_tree_get_parent, fat_tree_get_file}
use famaf_unc.Fat.Fuse.{
  System, Cmd, pure, ◌>>=◌, ◌>>◌, ℤ, pos, minus, on_volume, on_store, file_at, put_file, set_errno,
}
use famaf_unc.Fat.Fuse.Log.{log_activity, read_type, write_type}
use famaf_unc.Base.{ℕ, true, false, ◌==◌, ltb}

module _ {D : Type 0} (sys : System D) where
  -- `buf` is an address. The transfers that FUSE asks for are shorter than 2 ^ 31 bytes.
  unfoldable pub read : (buf size offset fh : ℕ) → Cmd D ℤ
  read buf size offset fh = do
    set_errno 0
    p ← on_store (fat_tree_get_file fh)
    q ← on_store (fat_tree_get_parent fh)
    file ← file_at p
    parent ← file_at q
    (bytes_read, file') ← on_volume (pread sys.device sys.fuel file buf size offset parent)
    put_file p file'
    log_activity sys read_type p
    pure (pos bytes_read)

  -- The transfer of write from the file at `p`, whose parent is at `q`.
  unfoldable pub write_bytes : (buf size offset p q : ℕ) → Cmd D ℤ
  write_bytes buf size offset p q = do
    file ← file_at p
    parent ← file_at q
    (bytes_written, file') ← on_volume (pwrite sys.device sys.fuel file buf size offset parent)
    put_file p file'
    log_activity sys write_type p
    pure (pos bytes_written)

  unfoldable pub write : (buf size offset fh : ℕ) → Cmd D ℤ
  write buf size offset fh = do
    p ← on_store (fat_tree_get_file fh)
    q ← on_store (fat_tree_get_parent fh)
    elim (size == 0) [
      | true ↦ pure (pos 0)
      | false ↦ do
        file ← file_at p
        elim (ltb file.dentry.file_size offset) [
          | true ↦ pure (minus eoverflow)
          | false ↦ write_bytes buf size offset p q
        ]
    ]
