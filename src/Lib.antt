-- ===== src/Lib.antt =====
-- Models of the programs of the operating systems course, and what they do.
--
-- The repository holds three labs under Sistema_operativo_2025/labs: a shell (so25lab1g16), the
-- kernel xv6 with named semaphores (so25lab2g16) and a FAT file system that FUSE mounts
-- (so25lab3g16). This library models the parts that its authors wrote.
--
-- Base: notation and lemmas on lists, options and Booleans.
--
-- The file system, so25lab3g16, is under Fat:
-- Fat/Device holds the system calls on the volume and the clock, which are a parameter `Device`; the
-- state `Volume` of one mounted volume (the table in memory, the disk, errno, the memory that
-- buffers point into); and `Cmd`, the commands on it. A read of the table outside its map ends
-- the run with `fault`, a loop without fuel with `out_of_fuel`.
-- Fat/Table holds fat_table.c. fat_table_set_next_cluster is `set_next_cluster`, and so on.
-- Fat/Util holds full_pread and full_pwrite of fat_util.c. Fat/Time: the dates of fat_util.c.
-- Fat/Dentry holds struct fat_dir_entry_s, and the writing of entries in fat_file.c.
-- Fat/File holds fat_file_pread, fat_file_pwrite, fat_file_truncate and fat_file_free_clusters.
-- Fat/Filename holds fat_filename_util.c. Fat/Directory: fat_file_read_children and fat_file_init.
-- Fat/BigBrother holds the search for the hidden directory, big_brother.c, and Fat/Paths its tests on
-- a path, with remove_trailing_spaces of fat_util.c. Fat/Stat holds fat_file_to_stbuf.
-- A file calls the table for the cluster of an offset and the transfers for the bytes of one
-- cluster; a directory reads its clusters in the same way; big brother reads a directory at each
-- cluster that the table marks as bad.
--
-- Fat/Hierarchy is hierarchy_tree.c on the store of nodes of Fat/NodeStore: an access through a pointer to no node
-- ends the run with `fault`. Each function that follows pointers has fuel, and one unit more than the
-- nodes of the tree is enough. Fat/FileTree is fat_fs_tree.c, the client of it that orders files by their path.
-- Fat/Mount is fat_volume.c with bsr and is_power_of_2 of fat_util.h: the boot sector is decoded from the memory
-- that full_pread filled, `Parsed` tells a refused sector from one at which an assertion stops the program,
-- and the interface `Mounting` holds open, close, mmap, munmap and the size of a page. calloc and malloc
-- do not fail, and the volume's tree of files is not part of `FatVolume`.
--
-- Fat/Fuse is fat_fuse_ops.c: its state `Fuse` joins the volume of Fat/Device, the nodes of Fat/NodeStore, the files in
-- memory, each behind a pointer, and vol->file_tree; `on_volume` and `on_store` run the commands of the lower parts on it.
-- The children hold the operations: Log the lines of fs.log, Load the directories read into the tree, Start fat_fuse_init
-- with the hidden directory, Attributes getattr, Handles open, release and readdir, Transfer read and write, Create mknod
-- and mkdir, Change utime and truncate, Remove unlink and rmdir. The record `System` holds what they are given: the
-- device, the fuel, the addresses of two local buffers, the text of a date, the name of the user and dirname. The path
-- of a call is the text behind its only key. fat_fuse_rmdir has fuel for the directories inside of each other.
--
-- Buffers are addresses in one memory of bytes. A u32 or size_t is a number below 2 ^ 32 or
-- 2 ^ 64, and where an operation of the source can wrap, `% 2 ^ w` is written. The loops over a
-- transfer have fuel: one unit more than the number of bytes is enough on a device whose every
-- transfer moves a byte, and the loops over a chain need one unit more than its clusters.
--
-- Kernel/Semaphore is kernel/semaphore.c of so25lab2g16, the system calls of kernel/sysproc.c on it, and
-- what sleep, wakeup and kill of kernel/proc.c do to a process in sem_down. An operation holds the
-- semaphore's lock from its first line to its last, so it is one step of `Step`; sem_down is two
-- steps when it sleeps, up to its call of sleep and from there on. Kernel/PingPong is user/pingpong.c on these
-- calls: a schedule is the list of which process moves next, and a fork succeeds. Kernel/Tateti is user/tateti.c, with
-- three processes that move in the same way. The array is a function on
-- indexes, which the system calls keep below MAX_SEM. The rest of xv6 is the work of others.
--
-- The shell, so25lab1g16, is under Shell:
-- Shell/Command is command.c, with each assert that can fail, Shell/Parsing is parsing.c over an interface
-- `Parser` for parser.h, whose code the repository has as object files only, and Shell/Builtin
-- is builtin.c over an interface `Library` for chdir, getenv, perror and printf. Shell/Release holds
-- the two destroy functions of command.c, with a list of what they release, and strmerge of strextra.c. parse_scommand needs one unit of
-- fuel more than the arguments that the parser gives, pipeline_destroy one more than its commands.
-- Shell/Execute is execute.c: the parent's state `Parent` holds what its next forks and pipes will answer, the calls that
-- it has made, and the background processes; a fork records what its child does, and Shell/Execute/Program
-- is execute_scommand in the child. The loops run as often as their bounds say. Shell/Loop is the loop of mybash.c over
-- all of these, with fuel for the number of its rounds.
--
-- Not modelled: what is printed (the prompt of the shell, the listings of the tree, the messages), the command line of
-- fat_fuse.c, which hands the table of operations to FUSE, xv6 itself, which is the work of others, its user programs
-- and tools, and all tests.
pub mod Base
pub mod Fat
pub mod Kernel
pub mod Shell
