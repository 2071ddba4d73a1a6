-- ===== src/Fat/Tests/Operations.antt =====
-- The operations of FUSE on a volume and a tree in memory.
use famaf_unc.Fat.NodeStore
use famaf_unc.Fat.NodeStore.{Node, Store, load, modify, free, destroy}
use famaf_unc.Fat.Device.{Volume}
use famaf_unc.Fat.Dentry.{FatFile, is_directory}
use famaf_unc.Fat.Hierarchy.{
  null, h_tree_delete, remove_child_from_h, delete_root, update_size, h_tree_size,
}
use famaf_unc.Fat.Hierarchy.Shape.{Tree, leaf, node, IsTree, IsDistinct}
use famaf_unc.Fat.Hierarchy.Search.{find}
use famaf_unc.Fat.FileTree.{strcmp, file_cmp_path, fat_tree_delete, FatTree}
use famaf_unc.Fat.FileTree.Opened.{HasAncestors}
use famaf_unc.Fat.Table.{get_next_free_cluster, entry, cluster_free, with_entry, end_of_chain_max}
use famaf_unc.Fat.Table.Chain.{has}
use famaf_unc.Fat.Fuse.{System, Fuse, ok, pos, minus, with_path, path_key}
use famaf_unc.Fat.Fuse.Handles.{fuse_open, release}
use famaf_unc.Fat.Fuse.Remove.{unlink}
use famaf_unc.Fat.Fuse.Create.{mknod}
use famaf_unc.Fat.Fuse.Found.{HasTree, HasFile, HasParent, node_with}
use famaf_unc.Fat.Fuse.Opened.{release-fuse_open}
use famaf_unc.Fat.Fuse.Removed.{unlink-freed}
use famaf_unc.Fat.Fuse.Created.{HasPlace, Finds, mknod-Finds}
use famaf_unc.Fat.Tests.{
  Disk, mem_device, mem_device-WritesSomething, table, volume, file, root, chain, table-Follows,
  table-two_valid,
}
use famaf_unc.Base.{
  ℕ, ◌<◌, ◌≡◌, ◌^◌, refl, ◌&&◌, true, false, List, [], ◌∷◌, none, some, arith, ltb, leb, ◌==◌,
  if◌then◌else◌, replicate, inr,
}

abbrev pub system : System Disk
system = record {
  device = mem_device;
  fuel = 200;
  dir_buf = 3000;
  log_buf = 9000;
  date_text = λ now. replicate 16 b'0';
  pw_name = none;
  dirname = λ path. b'/' ∷ [];
}

abbrev pub path_a : List ℕ
path_a = b'/' ∷ b'a' ∷ []

abbrev pub dir_root : FatFile
dir_root = record root { dentry = record root.dentry { attribs = 0x10 } }

-- The node of the root, whose file is at 10, and that of its child, whose file is at 20.
abbrev pub nodes : Store
nodes = record {
  node = λ p. record {
    data_ptr = if p == 5 then 10 else 20;
    right = if p == 5 then 6 else null;
    left = null;
    h_parent = if p == 5 then null else 5;
    h_next_sibling = null;
    h_children = if p == 5 then 6 else null;
    size = if p == 5 then 2 else 1;
  };
  is_live = λ p. leb 5 p && ltb p 7;
  next = 7;
  destroyed = [];
}

abbrev pub mounted : Volume Disk → FatFile → Fuse Disk
mounted v child = record {
  volume = v;
  store = nodes;
  files = λ p. if p == 10 then dir_root else child;
  next_file = 30;
  file_tree = some 5;
  root_dir_start_cluster = 7;
}

abbrev pub two_nodes : Tree
two_nodes = node 5 10 leaf (node 6 20 leaf leaf)

nodes-IsTree : IsTree nodes 5 two_nodes
nodes-IsTree =
    (refl, omega arith, refl, refl, refl, refl, (refl, omega arith, refl, refl, refl, refl, refl))

pub mounted-HasTree : (v : Volume Disk) (child : FatFile) → HasTree (mounted v child) 5 two_nodes
mounted-HasTree v child = record { at_root = refl; is_tree = nodes-IsTree }

pub nodes-HasFile : HasFile nodes 6 20
nodes-HasFile = record { node_pos = omega arith; live = refl; holds = refl; file_pos = omega arith }

pub root-HasFile : HasFile nodes 5 10
root-HasFile = record { node_pos = omega arith; live = refl; holds = refl; file_pos = omega arith }

pub nodes-HasParent : HasParent nodes 6 10
nodes-HasParent = record { node_pos = omega arith; live = refl; parent_file = root-HasFile }

nodes-HasAncestors : HasAncestors nodes 6 (20 ∷ 10 ∷ [])
nodes-HasAncestors = (omega arith, refl, refl, (omega arith, refl, refl, refl))

found_a : node_with (mounted volume file) path_a two_nodes ≡ some 6
unfolding find file_cmp_path strcmp
found_a = refl

file-plain : is_directory file ≡ false
unfolding is_directory
file-plain = refl

pub dir_root-dir : is_directory dir_root ≡ true
unfolding is_directory
dir_root-dir = refl

release-fuse_open_example :
    (opened closed : Fuse Disk) × (fuse_open system path_a (mounted volume file)
      ≡ ok (pos 0, some 6) opened)
    × (release system 6 opened ≡ ok (pos 0) closed)
    × (closed ≡ record (mounted volume file) { files = closed.files })
    × ((x : ℕ)
        → ((mounted volume file).files x).num_times_opened < 2 ^ 31
        → closed.files x ≡ (mounted volume file).files x)
release-fuse_open_example =
    release-fuse_open system (mounted volume file) 5 two_nodes (mounted-HasTree volume file) path_a
      6 20 (20 ∷ 10 ∷ []) (omega arith) found_a nodes-HasFile file-plain nodes-HasAncestors
      (omega arith)

abbrev pub store_of : NodeStore.Run FatTree → Store
store_of (NodeStore.Run.ok tree w) = w
store_of NodeStore.Run.fault = nodes
store_of NodeStore.Run.out_of_fuel = nodes

abbrev without_a : Store
without_a =
    store_of (fat_tree_delete (with_path (mounted volume file) path_a) 200 (some 5) path_key nodes)

delete_a :
    fat_tree_delete (with_path (mounted volume file) path_a) 200 (some 5) path_key nodes
    ≡ NodeStore.Run.ok (some 5) without_a
unfolding fat_tree_delete h_tree_delete file_cmp_path strcmp load modify remove_child_from_h
    delete_root update_size h_tree_size free destroy
delete_a = refl

unlink-freed_example :
    (e : ℕ) × (w : Fuse Disk) × (unlink system path_a (mounted volume file) ≡ ok (minus e) w)
    × (w.file_tree ≡ some 5)
    × (w.store ≡ without_a)
    × ((j : ℕ) → has j (2 ∷ chain) ≡ true → entry w.volume.table j ≡ some cluster_free)
    × ((j : ℕ) → has j (2 ∷ chain) ≡ false → entry w.volume.table j ≡ entry table j)
    × ((x : ℕ) → (x == 20) ≡ false → w.files x ≡ (mounted volume file).files x)
unlink-freed_example =
    unlink-freed system (mounted volume file) 5 two_nodes (mounted-HasTree volume file) path_a 6 20
      10 chain (some 5) without_a mem_device-WritesSomething (omega arith) found_a nodes-HasFile
      file-plain nodes-HasParent dir_root-dir table-two_valid table-Follows (omega arith) delete_a

nodes-IsDistinct : IsDistinct two_nodes
nodes-IsDistinct = (
  refl,
  refl,
  λ p e. absurd (ground arith),
  tt,
  (refl, refl, λ p e. absurd (ground arith), tt, tt),
)

path_b : List ℕ
path_b = b'/' ∷ b'b' ∷ []

root_found : node_with (mounted volume file) (b'/' ∷ []) two_nodes ≡ some 5
unfolding find file_cmp_path strcmp
root_found = refl

mounted-HasPlace : HasPlace system (mounted volume file) two_nodes path_b 5 10
mounted-HasPlace = record {
  found = root_found;
  has_file = root-HasFile;
  is_dir = dir_root-dir;
  can_link = record {
    distinct = nodes-IsDistinct;
    room = record { next_pos = omega arith; fresh = refl; parent = inr refl };
    fuelled = omega arith;
    small = omega arith;
  };
  next_pos = omega arith;
  next_fresh = (refl, tt, (refl, tt, tt));
  not_next = refl;
}

five_is_next : get_next_free_cluster table ≡ some 5
unfolding get_next_free_cluster
five_is_next = refl

mknod-Finds_example :
    (e : ℕ) × (w : Fuse Disk) × (mknod system path_b (mounted volume file) ≡ ok (minus e) w)
    × (w.volume.table ≡ with_entry table 5 end_of_chain_max)
    × ((w.files 30).pos_in_parent ≡ 2)
    × Finds system (mounted volume file) w path_b
mknod-Finds_example =
    mknod-Finds system (mounted volume file) 5 two_nodes (mounted-HasTree volume file) path_b 5 10
      mounted-HasPlace mem_device-WritesSomething 5 five_is_next refl
