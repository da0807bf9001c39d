-- ===== src/Vfs.antt =====
-- The file layer of core/fs/vfs: vfs.c (mounts, descriptors, positions) and tmpfs/tmpfs.c (files in
-- memory). Files, nodes and file system types are addresses, 0 is NULL; a descriptor is an `int` in
-- two's complement, so a negative one is 2 ^ 31 or more; a path that is not NULL is a string as in
-- Str.antt.
pub mod Descriptor
pub mod Mount
pub mod Tmpfs
pub mod Write
pub mod Resolve
pub mod Commands
pub mod Tree
pub mod Mounting
mod Tests
use kernix_os.Base.{
  ℕ, zero, suc, ◌+◌, ◌-◌, ◌*◌, ◌/◌, ◌%◌, ◌^◌, Bool, true, false, not, ◌&&◌, Option, none, some,
  List, [], ◌∷◌, get_or, set, length, replicate, take, drop, ◌++◌, ltb, leb, ◌==◌, if◌then◌else◌,
  u64,
}
use kernix_os.Str.{str_len, str_starts_with}

-- `fs_mnt`, without `priv`, which nothing reads
pub record FsMnt : Type 0 where
  pub path : List ℕ
  pub fs_type : ℕ
  pub root : ℕ
  pub active : Bool

-- `fs_file`
pub record FsFile : Type 0 where
  pub node : ℕ
  pub pos : ℕ
  pub flags : ℕ

-- `mnts`, `fds`, `types` and `type_cnt`
pub record Vfs : Type 0 where
  pub mnts : List FsMnt
  pub fds : List ℕ
  pub types : List ℕ
  pub type_cnt : ℕ

abbrev pub fs_max_fds : ℕ
fs_max_fds = 64

-- The loop of `find_mnt` over the mounts from one on; the result is `best`, `none` for NULL.
pub find_mnt_from : List ℕ → Option FsMnt → ℕ → List FsMnt → Option FsMnt
find_mnt_from path best best_len [] = best
find_mnt_from path best best_len (m ∷ ms) =
    let len = str_len m.path in
    let better = find_mnt_from path (some m) len ms in
    let rest = find_mnt_from path best best_len ms in
    if not m.active
    then rest
    else if ltb best_len len && str_starts_with path m.path
    then better
    else rest

pub find_mnt : List ℕ → Vfs → Option FsMnt
unfolding find_mnt_from
find_mnt path v = find_mnt_from path none 0 v.mnts

-- The loop of `fs_alloc_fd` from descriptor `i` on; `none` is -1.
pub alloc_fd_from : ℕ → ℕ → ℕ → List ℕ → Option ℕ × List ℕ
alloc_fd_from zero i file fds = (none, fds)
alloc_fd_from (suc left) i file fds =
    let rest = alloc_fd_from left (i + 1) file fds in
    if get_or fds i 0 == 0 then (some i, set fds i file) else rest

pub fs_alloc_fd : ℕ → Vfs → Option ℕ × Vfs
unfolding alloc_fd_from
fs_alloc_fd file v =
    let r = alloc_fd_from (fs_max_fds - 3) 3 file v.fds in (r.0, record v { fds = r.1 })

pub fs_free_fd : ℕ → Vfs → Vfs
fs_free_fd fd v = if ltb fd fs_max_fds then record v { fds = set v.fds fd 0 } else v

pub fs_get_file : ℕ → Vfs → ℕ
fs_get_file fd v = if leb fs_max_fds fd then 0 else get_or v.fds fd 0

-- The result `none` is -1.
pub fs_register : ℕ → Vfs → Option ℕ × Vfs
fs_register t v =
    if (t == 0)
    then (none, v)
    else if leb 8 v.type_cnt
    then (none, v)
    else (some 0, record v { types = set v.types v.type_cnt t; type_cnt = v.type_cnt + 1 })

pub fs_init : Vfs → Vfs
fs_init v = record {
  mnts = deactivate v.mnts;
  fds = replicate fs_max_fds 0;
  types = replicate 8 0;
  type_cnt = 0;
}
  where
    deactivate : List FsMnt → List FsMnt
    deactivate [] = []
    deactivate (m ∷ ms) = record m { active = false } ∷ deactivate ms

-- `fs_lseek` on the file that the descriptor names; `none` is -1.
pub seek : (size offset whence : ℕ) → FsFile → Option ℕ × FsFile
seek size offset whence f =
    if whence == 0
    then (some offset, record f { pos = offset })
    else if whence == 1
    then (some (u64 (f.pos + offset)), record f { pos = u64 (f.pos + offset) })
    else if whence == 2
    then (some (u64 (size + offset)), record f { pos = u64 (size + offset) })
    else (none, f)

abbrev pub Files : Type 0
Files = ℕ → FsFile

pub fs_lseek : (size_of : ℕ → ℕ) (fd offset whence : ℕ) → Vfs → Files → Option ℕ × Files
unfolding fs_get_file seek
fs_lseek size_of fd offset whence v files =
    let file = fs_get_file fd v in
    let r = seek (size_of (files file).node) offset whence (files file) in
    if file == 0 then (none, files) else (r.0, λ x. if x == file then r.1 else files x)

-- `tmpfs_data`: the `cap` bytes at `data`; `none` is NULL.
pub record TmpfsData : Type 0 where
  pub data_bytes : Option (List ℕ)
  pub cap : ℕ

-- `fs_node` as tmpfs reads and writes it
pub record FsNode : Type 0 where
  pub node_type : ℕ
  pub size : ℕ
  pub priv : Option TmpfsData

abbrev pub fs_file_type : ℕ
fs_file_type = 1

-- `memcpy` to a place in a block of memory
pub copy_to : ℕ → List ℕ → List ℕ → List ℕ
copy_to zero [] memory = memory
copy_to zero (b ∷ bytes) [] = []
copy_to zero (b ∷ bytes) (m ∷ memory) = b ∷ copy_to zero bytes memory
copy_to (suc pos) bytes [] = []
copy_to (suc pos) bytes (m ∷ memory) = m ∷ copy_to pos bytes memory

pub read_bytes : FsNode → ℕ → FsFile → Option (List ℕ) → Option (List ℕ) × FsFile
read_bytes node cnt f none = (some [], f)
read_bytes node cnt f (some bytes) =
    let to_read = if ltb node.size (u64 (f.pos + cnt)) then node.size - f.pos else cnt in
    if leb node.size f.pos
    then (some [], f)
    else (some (take to_read (drop f.pos bytes)), record f { pos = u64 (f.pos + to_read) })

pub read_data : FsNode → ℕ → FsFile → Option TmpfsData → Option (List ℕ) × FsFile
unfolding read_bytes
read_data node cnt f none = (some [], f)
read_data node cnt f (some d) = read_bytes node cnt f d.data_bytes

-- The bytes that are copied to `buf`, their number being the result; `none` is -1.
pub tmpfs_read : FsNode → ℕ → FsFile → Option (List ℕ) × FsFile
unfolding read_data
tmpfs_read node cnt f =
    if not (node.node_type == fs_file_type) then (none, f) else read_data node cnt f node.priv

-- `(needed + 4095) & ~4095`
abbrev pub page_up : ℕ → ℕ
page_up n = u64 (n + 4095) / 4096 * 4096

pub keep_bytes : ℕ → List ℕ → Option (List ℕ) → List ℕ
unfolding copy_to
keep_bytes size new_data none = new_data
keep_bytes size new_data (some old) =
    if ltb 0 size then copy_to 0 (take size old) new_data else new_data

-- A larger block with the old bytes; `fresh` is what `kernel_memory_create` returns.
pub grow : ℕ → (needed : ℕ) → TmpfsData → Option (List ℕ) → Option TmpfsData
unfolding keep_bytes
grow size needed d none = none
grow size needed d (some new_data) =
    some
      (record { data_bytes = some (keep_bytes size new_data d.data_bytes); cap = page_up needed })

pub copy_bytes : ℕ → List ℕ → Option (List ℕ) → Option (List ℕ)
unfolding copy_to
copy_bytes pos buf none = none
copy_bytes pos buf (some bytes) = some (copy_to pos buf bytes)

-- `memcpy` to the data, and the new position and size
pub store_bytes : FsNode → List ℕ → FsFile → Option TmpfsData → Option ℕ × FsNode × FsFile
unfolding copy_bytes
store_bytes node buf f none = (none, node, f)
store_bytes node buf f (some d) =
    let pos = u64 (f.pos + length buf) in
    (
      some (length buf),
      record node {
        size = (if ltb node.size pos then pos else node.size);
        priv = some (record d { data_bytes = copy_bytes f.pos buf d.data_bytes });
      },
      record f { pos = pos },
    )

pub write_data : FsNode → List ℕ → FsFile → Option (List ℕ) → TmpfsData → Option ℕ × FsNode × FsFile
unfolding grow store_bytes
write_data node buf f fresh d =
    let needed = u64 (f.pos + length buf) in
    let with_data = record node { priv = some d } in
    if ltb d.cap needed
    then store_bytes with_data buf f (grow node.size needed d fresh)
    else store_bytes with_data buf f (some d)

-- `meta` says whether the `tmpfs_data` can be made, where there is none.
pub with_meta :
    FsNode
    → List ℕ
    → FsFile
    → Bool
    → Option (List ℕ)
    → Option TmpfsData
    → Option ℕ × FsNode × FsFile
unfolding write_data
with_meta node buf f meta fresh none =
    if not meta
    then (none, node, f)
    else write_data node buf f fresh (record { data_bytes = none; cap = 0 })
with_meta node buf f meta fresh (some d) = write_data node buf f fresh d

pub tmpfs_write :
    FsNode
    → List ℕ
    → FsFile
    → (meta : Bool) → (fresh : Option (List ℕ)) → Option ℕ × FsNode × FsFile
unfolding with_meta
tmpfs_write node buf f meta fresh =
    if not (node.node_type == fs_file_type)
    then (none, node, f)
    else with_meta node buf f meta fresh node.priv
