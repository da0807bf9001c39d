-- ===== src/Vfs/Commands.antt =====
-- The calls on paths and descriptors of core/fs/vfs/commands.c. The operations of a file system are a
-- parameter: `nodes` is the state that they work on. A node without `lookup`, `create` or `mkdir` is one
-- whose operation fails, and one without `open` or `close` is one whose operation does nothing. The
-- address that `kernel_memory_create` gives to a file is an argument, 0 if it fails. `none` as a whole result
-- is a write past the end of `ppath` or of `fname`.
pub mod Opening
use kernix_os.Base.{
  ℕ, zero, suc, ◌+◌, ◌-◌, ◌/◌, ◌%◌, Bool, true, false, not, ◌&&◌, ◌||◌, Option, none, some, List,
  [], ◌∷◌, take, drop, length, leb, ◌==◌, if◌then◌else◌,
}
use kernix_os.Vfs.{FsFile, Vfs, Files, fs_alloc_fd, fs_free_fd, fs_get_file}
use kernix_os.Vfs.Resolve.{fs_resolve}

-- `fs_ops`; the Boolean results say that the C function returns 0.
pub record FsOps (N : Type 0) : Type 0 where
  pub lookup : N → ℕ → List ℕ → ℕ
  pub create : ℕ → List ℕ → N → Bool × N
  pub mkdir : ℕ → List ℕ → N → Bool × N
  pub open_node : ℕ → FsFile → N → Bool × FsFile × N
  pub close_node : ℕ → N → N

pub record FileSystem (N : Type 0) : Type 0 where
  pub vfs : Vfs
  pub files : Files
  pub nodes : N

-- The index of the last slash, `last` if there is none from index `i` on
pub last_slash : (i last : ℕ) → List ℕ → ℕ
last_slash i last [] = last
last_slash i last (c ∷ cs) = last_slash (i + 1) (if c == 47 then i else last) cs

-- `plen`
pub parent_length : List ℕ → ℕ
unfolding last_slash
parent_length path = let n = last_slash 0 0 path in if n == 0 then 1 else n

-- `ppath`
pub parent_path : List ℕ → List ℕ
unfolding parent_length
parent_path path = take (parent_length path) path

-- `fname` or `dname`
pub base_name : List ℕ → List ℕ
unfolding last_slash
base_name path = drop (last_slash 0 0 path + 1) path

-- `ppath[plen]` with FS_MAX_PATH bytes, and `str_copy(fname, last + 1)` with 64
pub too_long : List ℕ → Bool
unfolding parent_length base_name
too_long path = leb 200 (parent_length path) || leb 64 (length (base_name path))

-- `flags & O_CREAT`
abbrev pub creates : ℕ → Bool
creates flags = flags / 4 % 2 == 1

module _ {N : Type 0} (ops : FsOps N) where
  pub resolve : List ℕ → FileSystem N → ℕ
  resolve path s = fs_resolve (ops.lookup s.nodes) path s.vfs

  -- `if (!node && (flags & O_CREAT)) { ... }`
  pub find_or_create : List ℕ → (flags : ℕ) → FileSystem N → Option (ℕ × FileSystem N)
  unfolding resolve parent_path base_name too_long
  find_or_create path flags s =
      let node = resolve path s in
      let parent = resolve (parent_path path) s in
      let s' = record s { nodes = (ops.create parent (base_name path) s.nodes).1 } in
      if not ((node == 0) && creates flags)
      then some (node, s)
      else if too_long path
      then none
      else if parent == 0
      then some (0, s)
      else some (resolve path s', s')

  -- The rest of `fs_open` once the node opened: the result `none` is -1.
  pub give_fd : ℕ → Option ℕ × Vfs → FileSystem N → Option ℕ × FileSystem N
  give_fd file r s = (r.0, record s { vfs = r.1 })

  -- The file that `fs_open` makes, and what the node's `open` does with it
  pub opening : (node flags : ℕ) → N → Bool × FsFile × N
  opening node flags nodes =
      ops.open_node node (record { node = node; pos = 0; flags = flags }) nodes

  -- From `if (!node) return -1;` on
  pub open_file : (node flags file : ℕ) → FileSystem N → Option ℕ × FileSystem N
  unfolding give_fd opening
  open_file node flags file s =
      let r = opening node flags s.nodes in
      let s2 = record s { files = λ x. if x == file then r.1 else s.files x; nodes = r.2 } in
      if node == 0
      then (none, s)
      else if file == 0
      then (none, s)
      else if not r.0
      then (none, s2)
      else give_fd file (fs_alloc_fd file s2.vfs) s2

  pub fs_open : List ℕ → (flags file : ℕ) → FileSystem N → Option (Option ℕ × FileSystem N)
  unfolding find_or_create open_file
  fs_open path flags file s = elim (find_or_create path flags s) [
    | none ↦ none
    | some r ↦ some (open_file r.0 flags file r.1)
  ]

  -- The result `false` is -1.
  pub fs_close : ℕ → FileSystem N → Bool × FileSystem N
  fs_close fd s =
      let file = fs_get_file fd s.vfs in
      if file == 0 then (false, s) else (
        true,
        record s { vfs = fs_free_fd fd s.vfs; nodes = ops.close_node (s.files file).node s.nodes },
      )

  pub fs_mkdir : List ℕ → FileSystem N → Option (Bool × FileSystem N)
  unfolding resolve parent_path base_name too_long
  fs_mkdir path s =
      let parent = resolve (parent_path path) s in
      let r = ops.mkdir parent (base_name path) s.nodes in
      if too_long path
      then none
      else if parent == 0
      then some (false, s)
      else some (r.0, record s { nodes = r.1 })
