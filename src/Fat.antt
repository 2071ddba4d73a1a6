-- ===== src/Fat.antt =====
-- The FAT file system of labs/so25lab3g16, mounted through FUSE.
pub mod Device
pub mod Table
pub mod Util
pub mod Time
pub mod Dentry
pub mod File
pub mod Filename
pub mod Directory
pub mod BigBrother
pub mod Stat
pub mod NodeStore
pub mod Hierarchy
pub mod FileTree
pub mod Mount
pub mod Paths
pub mod Fuse
mod Tests
