-- ===== src/Vfs/Tests.antt =====
-- A file system at `/` with one directory `a`, and files in memory.
use kernix_os.Base.{
  false, ℕ, ◌≡◌, refl, ◌≢◌, ◌⊎◌, true, none, some, List, [], ◌∷◌, replicate, length-replicate, drop,
  arith, ◌==◌, if◌then◌else◌,
}
use kernix_os.Str.{str_len}
use kernix_os.Vfs.{FsMnt, FsFile, FsNode, Vfs, find_mnt, fs_alloc_fd, tmpfs_read, tmpfs_write}
use kernix_os.Vfs.Descriptor.{Opened, fs_alloc_fd-Opened}
use kernix_os.Vfs.Mount.{NoLonger, Longest, find_mnt-Longest}
use kernix_os.Vfs.Tmpfs.{copied_out, tmpfs_read-take}
use kernix_os.Vfs.Write.{Written, tmpfs_write-Written}
use kernix_os.Vfs.Commands.{FsOps, FileSystem}
use kernix_os.Vfs.Resolve.{fs_resolve, follow, names_of, skip_slash, fs_resolve-follow}

abbrev root_mount : FsMnt
root_mount = record { path = 47 ∷ []; fs_type = 1; root = 900; active = true }

abbrev vfs : Vfs
vfs = record { mnts = root_mount ∷ []; fds = replicate 64 0; types = replicate 8 0; type_cnt = 0 }

-- `/a`
abbrev path_a : List ℕ
path_a = 47 ∷ 97 ∷ []

abbrev children : ℕ → List ℕ → ℕ
children node name = if node == 900 then 901 else 0

fs_alloc_fd-Opened_example : Opened 5000 vfs (fs_alloc_fd 5000 vfs)
fs_alloc_fd-Opened_example = fs_alloc_fd-Opened 5000 vfs refl

find_mnt-Longest_example :
    ((find_mnt path_a vfs ≡ none) × NoLonger path_a 0 vfs.mnts)
    ⊎ ((m : FsMnt) × (find_mnt path_a vfs ≡ some m) × Longest path_a 0 vfs.mnts m)
find_mnt-Longest_example = find_mnt-Longest path_a vfs

fs_resolve-follow_example :
    (find_mnt path_a vfs ≡ none → fs_resolve children path_a vfs ≡ 0)
    × ((m : FsMnt) → find_mnt path_a vfs ≡ some m → m.root ≡ 0 → fs_resolve children path_a vfs ≡ 0)
    × ((m : FsMnt)
        → find_mnt path_a vfs ≡ some m
        → m.root ≢ 0
        → fs_resolve children path_a vfs
          ≡ follow children (names_of (skip_slash (drop (str_len m.path) path_a))) m.root)
fs_resolve-follow_example = fs_resolve-follow children path_a vfs refl

abbrev empty_file : FsNode
empty_file = record { node_type = 1; size = 0; priv = none }

abbrev opened : FsFile
opened = record { node = 901; pos = 0; flags = 3 }

abbrev three_bytes : List ℕ
three_bytes = 10 ∷ 20 ∷ 30 ∷ []

tmpfs_write-Written_example :
    Written opened three_bytes []
      (tmpfs_write empty_file three_bytes opened true (some (replicate 4096 0)))
tmpfs_write-Written_example =
    tmpfs_write-Written empty_file [] three_bytes (replicate 4096 0) opened (refl, (refl, refl))
      (omega arith) (omega arith) (length-replicate {A = ℕ} 4096 0)

abbrev short_file : FsNode
short_file = record {
  node_type = 1;
  size = 3;
  priv = some (record { data_bytes = some (10 ∷ 20 ∷ 30 ∷ 0 ∷ []); cap = 4 });
}

abbrev past_first : FsFile
past_first = record { node = 901; pos = 1; flags = 3 }

tmpfs_read-take_example : tmpfs_read short_file 9 past_first ≡ copied_out past_first (20 ∷ 30 ∷ [])
tmpfs_read-take_example =
    tmpfs_read-take short_file three_bytes 9 past_first (refl, (omega arith, refl, refl))
      (omega arith)

abbrev tree_ops : FsOps ℕ
tree_ops = record {
  lookup = λ nodes. children;
  create = λ parent name nodes. (false, nodes);
  mkdir = λ parent name nodes. (false, nodes);
  open_node = λ node file nodes. (true, file, nodes);
  close_node = λ node nodes. nodes;
}

abbrev file_system : FileSystem ℕ
file_system = record { vfs = vfs; files = λ x. opened; nodes = 0 }
