-- ===== src/Fat/Tests/Unlisted.antt =====
-- A directory with a file on disk that is not in the tree, and a file with a long path.
use famaf_unc.Fat.Fuse.Unlisted.{rmdir-unlisted}
use famaf_unc.Fat.Table.Chain.{Follows, has}
use famaf_unc.Fat.Fuse.Overflow.{read-long_path}
use famaf_unc.Fat.Hierarchy.{
  h_tree_delete, remove_child_from_h, delete_root, update_size, h_tree_size,
}
use famaf_unc.Fat.Fuse.Transfer.{read}
use famaf_unc.Fat.Fuse.Remove.{rmdir}
use famaf_unc.Fat.File.{pread}
use famaf_unc.Fat.NodeStore.{Store, load, modify, free, destroy}
use famaf_unc.Fat.Filename.{
  file_basename_valid, file_extension_valid, char_legal_in_filename, legal_prefix,
  filepath_from_name, build_filename, filename_len,
}
use famaf_unc.Fat.Device
use famaf_unc.Fat.NodeStore
use famaf_unc.Fat.Device.{FatTable, Volume}
use famaf_unc.Fat.Dentry.{FatFile, is_directory}
use famaf_unc.Fat.Directory.{
  read_children, read_clusters, parse_dir_entries_in_cluster, parse_entries, dentry_at,
  is_end_of_directory, ignore_dentry, init_file_from_dentry,
}
use famaf_unc.Fat.Hierarchy.Search.{find}
use famaf_unc.Fat.FileTree.{strcmp, file_cmp_path, fat_tree_delete}
use famaf_unc.Fat.Table.{
  cluster_is_valid, end_of_chain_max, is_valid_cluster_number, get_next_cluster, cluster_offset,
  entry, cluster_free,
}
use famaf_unc.Fat.Util.{get_or, full_pread}
use famaf_unc.Fat.Fuse.{Fuse, with_path, minus, path_key, ok, fault}
use famaf_unc.Fat.Fuse.Found.{node_with}
use famaf_unc.Fat.Tests.{Disk, volume, file, mem_device, Follows, mem_device-WritesSomething}
use famaf_unc.Fat.Tests.Operations.{
  path_a, mounted, two_nodes, dir_root, store_of, system, nodes, nodes-HasFile, nodes-HasParent,
  mounted-HasTree, dir_root-dir,
}
use famaf_unc.Base.{
  ℕ, ◌≡◌, ◌-◌, ◌++◌, refl, true, List, [], ◌∷◌, none, Option, some, replicate, length, All, arith,
  false,
}

-- The directory "/a" is cluster 2, and the file "/a/B" cluster 3.
abbrev dir_table : FatTable
dir_table = record {
  fat_map =
      end_of_chain_max ∷ end_of_chain_max ∷ end_of_chain_max ∷ end_of_chain_max ∷ 0 ∷ 0 ∷ 0
      ∷ end_of_chain_max ∷ [];
  fat_offset = 512;
  num_data_clusters = 6;
  data_start_offset = 1024;
  cluster_order = 6;
}

-- "B       " and "   ", attribs, and cluster 3.
abbrev entry_b : List ℕ
entry_b = (b'B' ∷ replicate 10 32) ++ (0x20 ∷ (replicate 14 0 ++ (3 ∷ [])))

abbrev dir_volume : Volume Disk
dir_volume = record {
  table = dir_table;
  disk = λ i. get_or entry_b (i - 1024) 0;
  errno = 0;
  mem = λ a. 0;
}

abbrev dir_a : FatFile
dir_a = record file { dentry = record file.dentry { attribs = 0x10 } }

abbrev has_dir : Fuse Disk
has_dir = mounted dir_volume dir_a

dir_a-dir : is_directory dir_a ≡ true
unfolding is_directory
dir_a-dir = refl

dir_found : node_with has_dir path_a two_nodes ≡ some 6
unfolding find file_cmp_path strcmp
dir_found = refl

abbrev reading : Device.Run Disk (FatFile × Option (List FatFile))
reading = read_children mem_device 200 3000 dir_a dir_volume

abbrev children_of : Device.Run Disk (FatFile × Option (List FatFile)) → List FatFile
children_of (Device.Run.ok (dir, some fs) v) = fs
children_of (Device.Run.ok (dir, none) v) = []
children_of Device.Run.fault = []
children_of Device.Run.out_of_fuel = []

abbrev volume_of : {A : Type 0} → Device.Run Disk A → Volume Disk
volume_of (Device.Run.ok a v) = v
volume_of Device.Run.fault = volume
volume_of Device.Run.out_of_fuel = volume

dir_read :
    reading
    ≡ Device.Run.ok
        (record dir_a { nentries = 1; children_read = true }, some (children_of reading))
        (volume_of reading)
unfolding read_children read_clusters is_valid_cluster_number cluster_is_valid full_pread
    parse_dir_entries_in_cluster parse_entries dentry_at is_end_of_directory ignore_dentry
    init_file_from_dentry get_next_cluster file_basename_valid file_extension_valid cluster_offset
    char_legal_in_filename legal_prefix
dir_read = refl

not_in_tree : All (λ child. node_with has_dir child.filepath two_nodes ≡ none) (children_of reading)
unfolding read_children read_clusters is_valid_cluster_number cluster_is_valid full_pread
    parse_dir_entries_in_cluster parse_entries dentry_at is_end_of_directory ignore_dentry
    init_file_from_dentry get_next_cluster file_basename_valid file_extension_valid cluster_offset
    char_legal_in_filename legal_prefix filepath_from_name build_filename filename_len find
    file_cmp_path strcmp
not_in_tree = (refl, tt)

dir-Follows : Follows (volume_of reading).table 2 []
unfolding read_children read_clusters is_valid_cluster_number cluster_is_valid full_pread
    parse_dir_entries_in_cluster parse_entries dentry_at is_end_of_directory ignore_dentry
    init_file_from_dentry get_next_cluster file_basename_valid file_extension_valid cluster_offset
    char_legal_in_filename legal_prefix
dir-Follows = refl

abbrev without_dir : Store
without_dir = store_of (fat_tree_delete (with_path has_dir path_a) 200 (some 5) path_key nodes)

delete_dir :
    fat_tree_delete (with_path has_dir path_a) 200 (some 5) path_key nodes
    ≡ NodeStore.Run.ok (some 5) without_dir
unfolding fat_tree_delete h_tree_delete file_cmp_path strcmp load modify remove_child_from_h
    delete_root update_size h_tree_size free destroy
delete_dir = refl

two-valid : cluster_is_valid 2 ≡ true
unfolding cluster_is_valid
two-valid = refl

rmdir-unlisted_example :
    (e : ℕ) × (w : Fuse Disk) × (rmdir system 2 path_a has_dir ≡ ok (minus e) w)
    × (w.file_tree ≡ some 5)
    × (w.store ≡ without_dir)
    × (w.store.is_live 6 ≡ false)
    × ((j : ℕ) → has j (2 ∷ []) ≡ true → entry w.volume.table j ≡ some cluster_free)
    × ((j : ℕ)
        → has j (2 ∷ []) ≡ false
        → entry w.volume.table j ≡ entry (volume_of reading).table j)
rmdir-unlisted_example =
    rmdir-unlisted system has_dir 5 two_nodes (omega arith) path_a 6 20 10 0 1 2 true
      (children_of reading) (volume_of reading) [] (some 5) without_dir
      (mounted-HasTree dir_volume dir_a) mem_device-WritesSomething dir_found nodes-HasFile
      dir_a-dir nodes-HasParent dir_root-dir dir_read not_in_tree refl two-valid dir-Follows
      (omega arith) delete_dir

-- A path of 75 characters, and a read of no bytes.
abbrev long_file : FatFile
long_file = record file { filepath = replicate 75 b'x' }

long_read :
    pread mem_device 200 long_file 5000 0 0 dir_root volume ≡ Device.Run.ok (0, long_file) volume
unfolding pread
long_read = refl

dates_16 : (now : ℕ) → length (system.date_text now) ≡ 16
dates_16 now = refl

read-long_path_example : read system 5000 0 0 6 (mounted volume long_file) ≡ fault
read-long_path_example =
    read-long_path system dates_16 (mounted volume long_file) 5000 0 0 6 20 10 0 long_file volume
      nodes-HasFile nodes-HasParent long_read (omega arith)
