-- ===== src/Vfs/Tree.antt =====
-- The node tree: `fs_mknode` and `fs_addchild` of core/fs/vfs/vfs.c, and looking up, creating and making
-- directories in core/fs/vfs/tmpfs/tmpfs.c. A node is an address, 0 is NULL; `fresh` is what
-- `kernel_memory_create` returns. The loop over the children runs on fuel, and `none` means it ran out.
use kernix_os.Base.{
  ℕ, zero, suc, Bool, true, false, not, Option, none, some, List, ◌≡◌, ◌≢◌, ◌==◌, if◌then◌else◌,
  arith,
}
use kernix_os.Str.{str_equals}
use kernix_os.Str.Compare.{str_equals_self}

-- `fs_node`, as far as the tree goes; `ops` is the address of the operations.
pub record TreeNode : Type 0 where
  pub name : List ℕ
  pub node_type : ℕ
  pub ops : ℕ
  pub children : ℕ
  pub next : ℕ
  pub parent : ℕ

abbrev pub Nodes : Type 0
Nodes = ℕ → TreeNode

pub write_node : ℕ → TreeNode → Nodes → Nodes
write_node p n nodes x = if x == p then n else nodes x

pub fs_mknode : (name : List ℕ) (node_type fresh : ℕ) → Nodes → ℕ × Nodes
unfolding write_node
fs_mknode name node_type fresh nodes =
    let node : TreeNode = record {
      name = name;
      node_type = node_type;
      ops = 0;
      children = 0;
      next = 0;
      parent = 0;
    } in
    if fresh == 0 then (0, nodes) else (fresh, write_node fresh node nodes)

-- The three assignments, one after the other
pub fs_addchild : (parent child : ℕ) → Nodes → Nodes
unfolding write_node
fs_addchild parent child nodes =
    let nodes1 = write_node child (record (nodes child) { parent = parent }) nodes in
    let nodes2 =
      write_node child (record (nodes1 child) { next = (nodes1 parent).children }) nodes1 in
    if parent == 0
    then nodes
    else if child == 0
    then nodes
    else write_node parent (record (nodes2 parent) { children = child }) nodes2

pub find_child : (fuel child : ℕ) → List ℕ → Nodes → Option ℕ
find_child zero child name nodes = none
find_child (suc fuel) child name nodes =
    let rest = find_child fuel (nodes child).next name nodes in
    if child == 0 then some 0 else if str_equals (nodes child).name name then some child else rest

abbrev pub fs_dir_type : ℕ
fs_dir_type = 2

pub tmpfs_lookup : (fuel dir : ℕ) → List ℕ → Nodes → Option ℕ
unfolding find_child
tmpfs_lookup fuel dir name nodes =
    if not ((nodes dir).node_type == fs_dir_type)
    then some 0
    else find_child fuel (nodes dir).children name nodes

-- From `fs_mknode` on; the result `false` is -1.
pub add_node : (dir : ℕ) → List ℕ → (node_type fresh : ℕ) → Nodes → Bool × Nodes
unfolding fs_mknode fs_addchild write_node
add_node dir name node_type fresh nodes =
    let r = fs_mknode name node_type fresh nodes in
    let with_ops = write_node r.0 (record (r.1 r.0) { ops = (r.1 dir).ops }) r.1 in
    if r.0 == 0 then (false, r.1) else (true, fs_addchild dir r.0 with_ops)

pub add_new : (dir : ℕ) → List ℕ → (node_type fresh : ℕ) → Nodes → Option ℕ → Option (Bool × Nodes)
unfolding add_node
add_new dir name node_type fresh nodes none = none
add_new dir name node_type fresh nodes (some found) =
    if not (found == 0) then some (false, nodes) else some (add_node dir name node_type fresh nodes)

-- `tmpfs_create` with FS_FILE, and `tmpfs_mkdir` with FS_DIR
pub tmpfs_add :
    (node_type : ℕ) → (fuel dir : ℕ) → List ℕ → (fresh : ℕ) → Nodes → Option (Bool × Nodes)
unfolding tmpfs_lookup add_new
tmpfs_add node_type fuel dir name fresh nodes =
    if not ((nodes dir).node_type == fs_dir_type)
    then some (false, nodes)
    else add_new dir name node_type fresh nodes (tmpfs_lookup fuel dir name nodes)

-- A node that was added under a directory is what a lookup of its name in that directory finds.
pub tmpfs_lookup-add_node :
    (fuel dir : ℕ) (name : List ℕ) (node_type fresh : ℕ) (nodes : Nodes)
    → (nodes dir).node_type ≡ fs_dir_type
    → dir ≢ 0
    → fresh ≢ 0
    → fresh ≢ dir
    → tmpfs_lookup (suc fuel) dir name (add_node dir name node_type fresh nodes).1 ≡ some fresh
unfolding tmpfs_lookup add_node fs_mknode fs_addchild write_node find_child
tmpfs_lookup-add_node fuel dir name node_type fresh nodes t d f ne =
    ground (arith, str_equals_self name)
