-- ===== src/Ext4.antt =====
-- Blocks and inodes of core/fs/ext4/ext4.c; Ext4/File reads and writes files and takes inodes. The disk
-- and the buffers give a byte at each address. Inputs from other parts: `answers`, whether a sector of
-- the partition can be read or written, and `room`, whether the kernel memory has room for a block
-- buffer; every function frees the buffer that it takes. A `str_copy` past the end of an inode or a
-- buffer is a result of its own. Not modelled: mounting, the names in directories, and the creation of
-- nodes.
pub mod Block
pub mod Store
pub mod File
mod Tests
use kernix_os.Base.{
  ℕ, zero, suc, ◌+◌, ◌-◌, ◌*◌, ◌/◌, ◌%◌, ◌^◌, Bool, true, false, not, ◌&&◌, Option, none, some, min,
  bit_and, bit_or, ltb, leb, ◌==◌, if◌then◌else◌, u32, u64,
}
use kernix_os.Mem.{Memory, store_byte}

-- `ext4_data`: the partition, if its index is not negative, or else the device in memory; `bytes` are those
-- of either. Of the group descriptors, the blocks of each group's inode bitmap and inode table.
pub record Ext4 : Type 0 where
  pub on_partition : Bool
  pub bytes : Memory
  pub inodes_count : ℕ
  pub inodes_per_group : ℕ
  pub inode_bitmap : ℕ → ℕ
  pub inode_table : ℕ → ℕ
  pub block_size : ℕ
  pub inode_size : ℕ

-- `for (i = 0; i < n; i++) dst[d + i] = src[s + i];`, with `n` rounds left
pub copy_bytes : (n i d s : ℕ) → (src dst : Memory) → Memory
copy_bytes zero i d s src dst = dst
copy_bytes (suc n) i d s src dst =
    copy_bytes n (i + 1) d s src (store_byte (d + i) (src (s + i)) dst)

-- Little-endian numbers
pub le16 : Memory → ℕ → ℕ
le16 m at = m at + m (at + 1) * 256

pub le32 : Memory → ℕ → ℕ
le32 m at = le16 m at + le16 m (at + 2) * 65536

-- The packed `ext4_inode` as its bytes, each field at its offset
abbrev pub i_size_lo : Memory → ℕ
i_size_lo inode = le32 inode 4

abbrev pub i_flags : Memory → ℕ
i_flags inode = le32 inode 32

abbrev pub i_block : Memory → ℕ → ℕ
i_block inode k = le32 inode (40 + 4 * k)

-- The header of the extents, which lies over `i_block`, and the extents behind it
abbrev pub eh_magic : Memory → ℕ
eh_magic inode = le16 inode 40

abbrev pub eh_entries : Memory → ℕ
eh_entries inode = le16 inode 42

abbrev pub ee_block : Memory → ℕ → ℕ
ee_block inode i = le32 inode (52 + 12 * i)

abbrev pub ee_len : Memory → ℕ → ℕ
ee_len inode i = le16 inode (52 + 12 * i + 4)

abbrev pub ee_start : Memory → ℕ → ℕ
ee_start inode i = le32 inode (52 + 12 * i + 8) + le16 inode (52 + 12 * i + 6) * 2 ^ 32

-- The loop over the extents, from extent `i` on with `left` of them
pub find_extent : (left i block_index : ℕ) → Memory → ℕ
find_extent zero i block_index inode = 0
find_extent (suc left) i block_index inode =
    let rest = find_extent left (i + 1) block_index inode in
    if leb (ee_block inode i) block_index
      && ltb block_index (u32 (ee_block inode i + ee_len inode i))
    then u64 (ee_start inode i + (block_index - ee_block inode i))
    else rest

pub ext4_get_block_from_extents : (inode : Memory) → (block_index : ℕ) → ℕ
ext4_get_block_from_extents inode block_index =
    if i_flags inode / 0x80000 % 2 == 0
    then (if ltb block_index 12 then i_block inode block_index else 0)
    else if eh_magic inode == 0xF30A
    then find_extent (eh_entries inode) 0 block_index inode
    else 0

-- A byte of the C string at `at` is copied if no byte before it is NUL.
pub before_nul : (src : Memory) → (at k : ℕ) → Bool
before_nul src at zero = true
before_nul src at (suc k) = not (src (at + k) == 0) && before_nul src at k

-- `str_copy(dst + d, src + s)`
pub copy_string : (d s : ℕ) → (src dst : Memory) → Memory
copy_string d s src dst x = if leb d x && before_nul src s (x - d) then src (s + (x - d)) else dst x

-- `str_copy` between an inode and a block buffer goes past the end of one of them if no byte of both is NUL;
-- `sizeof(ext4_inode)` is 156.
pub overruns : Ext4 → (src : Memory) → (at offset : ℕ) → Bool
overruns s src at offset = before_nul src at (min 156 (s.block_size - offset))

-- The result of reading an inode: -1, an overrun, or the inode's bytes
pub data InodeRead : Type 0 where
  failed : InodeRead
  overrun : InodeRead
  loaded : Memory → InodeRead

-- The block that holds an inode, counted from `inode_num - 1` in a `u32`, and where in it the inode is;
-- `index * inode_size` is a `u32`.
pub inode_block : Ext4 → (inode_num : ℕ) → ℕ
inode_block s inode_num = u32 (
    s.inode_table (u32 (inode_num + 0xFFFFFFFF) / s.inodes_per_group)
    + u32 (u32 (inode_num + 0xFFFFFFFF) % s.inodes_per_group * s.inode_size) / s.block_size)

pub inode_offset : Ext4 → (inode_num : ℕ) → ℕ
inode_offset s inode_num =
    u32 (u32 (inode_num + 0xFFFFFFFF) % s.inodes_per_group * s.inode_size) % s.block_size

-- A fresh block buffer, which `kernel_memory_alloc` has cleared
abbrev pub cleared : Memory
cleared x = 0

-- A sector of 512 bytes
pub move_sector : (to from : ℕ) → (src dst : Memory) → Memory
move_sector to from src dst = copy_bytes 512 0 (to * 512) (from * 512) src dst

module _ (answers : ℕ → Bool) where
  -- The loop over the sectors of a block, from sector `i` on with `left` of them; `none` is -1.
  pub read_sectors : (left i first : ℕ) → (bytes buf : Memory) → Option Memory
  read_sectors zero i first bytes buf = some buf
  read_sectors (suc left) i first bytes buf =
      let rest = read_sectors left (i + 1) first bytes (move_sector i (first + i) bytes buf) in
      if answers (first + i) then rest else none

  pub ext4_read_block : Ext4 → (block : ℕ) → (buf : Memory) → Option Memory
  ext4_read_block s block buf =
      if s.on_partition
      then read_sectors (s.block_size / 512) 0 (block * (s.block_size / 512)) s.bytes buf
      else some (copy_bytes s.block_size 0 0 (block * s.block_size) s.bytes buf)

  -- A sector that is not written ends the loop: whether all were, and the bytes of the partition
  pub write_sectors : (left i first : ℕ) → (buf bytes : Memory) → Bool × Memory
  write_sectors zero i first buf bytes = (true, bytes)
  write_sectors (suc left) i first buf bytes =
      let rest = write_sectors left (i + 1) first buf (move_sector (first + i) i buf bytes) in
      if answers (first + i) then rest else (false, bytes)

  pub ext4_write_block : Ext4 → (block : ℕ) → (buf : Memory) → Bool × Memory
  ext4_write_block s block buf =
      if s.on_partition
      then write_sectors (s.block_size / 512) 0 (block * (s.block_size / 512)) buf s.bytes
      else (true, copy_bytes s.block_size 0 (block * s.block_size) 0 buf s.bytes)

  pub with_inode : Ext4 → Memory → (offset : ℕ) → Option Memory → InodeRead
  with_inode s inode offset none = failed
  with_inode s inode offset (some buf) =
      if overruns s buf offset offset then overrun else loaded (copy_string 0 offset buf inode)

  -- `inode` is what the caller's `ext4_inode` holds before the call.
  pub ext4_read_inode : (room : Bool) → Ext4 → (inode_num : ℕ) → (inode : Memory) → InodeRead
  ext4_read_inode room s inode_num inode =
      if room
      then with_inode s inode (inode_offset s inode_num)
          (ext4_read_block s (inode_block s inode_num) cleared)
      else failed

  -- What follows the block's reading: whether all was written, and the bytes of the device; `none` is an
  -- overrun.
  pub put_inode : Ext4 → (inode_num : ℕ) → (inode : Memory) → Option Memory → Option (Bool × Memory)
  put_inode s inode_num inode none = some (false, s.bytes)
  put_inode s inode_num inode (some buf) =
      if overruns s inode 0 (inode_offset s inode_num)
      then none
      else some (
          ext4_write_block s (inode_block s inode_num)
            (copy_string (inode_offset s inode_num) 0 inode buf))

  pub ext4_write_inode :
      (room : Bool) → Ext4 → (inode_num : ℕ) → (inode : Memory) → Option (Bool × Memory)
  ext4_write_inode room s inode_num inode =
      if room
      then put_inode s inode_num inode (ext4_read_block s (inode_block s inode_num) cleared)
      else some (false, s.bytes)
