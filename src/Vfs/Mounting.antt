-- ===== src/Vfs/Mounting.antt =====
-- Mounting: `fs_mount` of core/fs/vfs/vfs.c and `tmpfs_mount` of core/fs/vfs/tmpfs/tmpfs.c. The result is
-- an `int` in two's complement. Printing and the field `priv` are left out.
use kernix_os.Base.{
  ℕ, zero, suc, ◌+◌, ◌-◌, ◌^◌, true, false, Option, none, some, List, [], ◌∷◌, get_or, set, ◌==◌,
  if◌then◌else◌, ◌≡◌, refl,
}
use kernix_os.Str.{str_equals}
use kernix_os.Vfs.{FsMnt, Vfs}
use kernix_os.Vfs.Tree.{Nodes, write_node, fs_mknode, fs_dir_type}

-- The first mount, counted from `i`, that is not active
pub inactive_from : ℕ → List FsMnt → Option (ℕ × FsMnt)
inactive_from i [] = none
inactive_from i (m ∷ ms) =
    let rest = inactive_from (i + 1) ms in if m.active then rest else some (i, m)

-- The first of the types from `i` on, of which there are `left` more, that has the name; `name_of` gives
-- the name that stands at a type's address.
pub find_type : (name_of : ℕ → List ℕ) → List ℕ → (left i : ℕ) → List ℕ → Option ℕ
find_type name_of name zero i types = none
find_type name_of name (suc left) i types =
    let rest = find_type name_of name left (i + 1) types in
    if str_equals (name_of (get_or types i 0)) name then some (get_or types i 0) else rest

-- What follows `type->mount`, which returns `ret` and leaves the mount as `m`
pub activate : ℕ → ℕ × FsMnt → Vfs → ℕ × Vfs
activate i (ret, m) v =
    if ret == 0
    then (0, record v { mnts = set v.mnts i (record m { active = true }) })
    else (ret, record v { mnts = set v.mnts i m })

-- The mount at a place that is free, for a type that is found or not; `mount` is the type's function.
pub mount_at :
    (mount : ℕ → FsMnt → ℕ × FsMnt) → List ℕ → Option (ℕ × FsMnt) → Option ℕ → Vfs → ℕ × Vfs
unfolding activate
mount_at mount tgt none type v = (2 ^ 32 - 1, v)
mount_at mount tgt (some (i, m)) none v = (2 ^ 32 - 1, v)
mount_at mount tgt (some (i, m)) (some type) v =
    activate i (mount type (record m { path = tgt; fs_type = type; root = 0 })) v

-- The mount of `tgt`, with a target and the name of a type that are not NULL
pub fs_mount :
    (name_of : ℕ → List ℕ) (mount : ℕ → FsMnt → ℕ × FsMnt)
    → (tgt type_name : List ℕ) → Vfs
    → ℕ × Vfs
unfolding mount_at inactive_from find_type
fs_mount name_of mount tgt type_name v =
    mount_at mount tgt (inactive_from 0 v.mnts) (find_type name_of type_name v.type_cnt 0 v.types) v

-- `root` is the node that `fs_mknode` makes, 0 if there is no memory for it, and `ops` the address of
-- `tmpfs_ops`.
pub mount_root : (root ops : ℕ) → Nodes → FsMnt → ℕ × FsMnt × Nodes
mount_root root ops nodes m =
    if root == 0
    then (2 ^ 32 - 1, m, nodes)
    else (0, record m { root = root }, write_node root (record (nodes root) { ops = ops }) nodes)

pub tmpfs_mount : (fresh ops : ℕ) → Nodes → FsMnt → ℕ × FsMnt × Nodes
unfolding mount_root
tmpfs_mount fresh ops nodes m =
    let r = fs_mknode (47 ∷ []) fs_dir_type fresh nodes in mount_root r.0 ops r.1 m

-- The second place is free and takes the mount of the second type.
fs_mount_takes :
    let m : FsMnt = record { path = []; fs_type = 0; root = 0; active = false } in
    let v : Vfs = record {
      mnts = record m { active = true } ∷ m ∷ [];
      fds = [];
      types = 5 ∷ 6 ∷ [];
      type_cnt = 2;
    } in
    let r = fs_mount (λ t. t ∷ []) (λ t n. (0, record n { root = 9 })) (47 ∷ []) (6 ∷ []) v in
    r.1.mnts
    ≡ record m { active = true }
      ∷ record { path = 47 ∷ []; fs_type = 6; root = 9; active = true }
      ∷ []
unfolding fs_mount str_equals
fs_mount_takes = refl
