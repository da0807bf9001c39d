-- ===== src/Ext4/File.antt =====
-- Reading and writing a file, and taking an inode, in core/fs/ext4/ext4.c. The loops run on fuel. `room` says
-- at each request whether the kernel memory has room for a block buffer; the first request is 0.
pub mod Piece
pub mod Read
pub mod Write
pub mod Inode
use kernix_os.Base.{
  ℕ, zero, suc, ◌+◌, ◌-◌, ◌*◌, ◌/◌, ◌%◌, ◌^◌, Bool, true, false, not, ◌&&◌, Option, none, some, min,
  bit_and, bit_or, ltb, leb, ◌==◌, if◌then◌else◌, u32, u64,
}
use kernix_os.Mem.{Memory, store_byte}
use kernix_os.Ext4.{
  Ext4, copy_bytes, i_size_lo, ext4_get_block_from_extents, cleared, ext4_read_block,
  ext4_write_block, failed, overrun, loaded, ext4_read_inode, ext4_write_inode,
}

-- What `ext4_read` leaves: its result, with `none` for -1, the place in the file, and the memory of `buf`
pub record ReadResult : Type 0 where
  pub value : Option ℕ
  pub pos : ℕ
  pub mem : Memory

-- What `ext4_write` leaves: its result, the place in the file, and the bytes of the device
pub record WriteResult : Type 0 where
  pub value : Option ℕ
  pub pos : ℕ
  pub bytes : Memory

module _ (answers : ℕ → Bool) where
  -- The loop of `ext4_read`; `none` is fuel that has run out.
  pub read_loop :
      (fuel n : ℕ)
      → (room : ℕ → Bool) (s : Ext4) (inode : Memory) (buf cnt read pos : ℕ) → Memory
      → Option ReadResult
  read_loop zero n room s inode buf cnt read pos mem = none
  read_loop (suc fuel) n room s inode buf cnt read pos mem =
      let block = ext4_get_block_from_extents inode (pos / s.block_size) in
      let to_read = min (s.block_size - pos % s.block_size) cnt in
      let failed : Option ReadResult = some (record { value = none; pos = pos; mem = mem }) in
      let more : Memory → Option ReadResult = λ block_buf.
        read_loop fuel (n + 1) room s inode (buf + to_read) (cnt - to_read) (read + to_read)
          (u64 (pos + to_read))
          (copy_bytes to_read 0 (buf + read) (pos % s.block_size) block_buf mem) in
      if cnt == 0
      then some (record { value = some read; pos = pos; mem = mem })
      else if block == 0
      then some (record { value = some read; pos = pos; mem = mem })
      else if not (room n)
      then failed
      else elim (ext4_read_block answers s block cleared) [
        | none ↦ failed
        | some block_buf ↦ more block_buf
      ]

  -- `none` is fuel that has run out, or an overrun when the inode is read.
  pub ext4_read :
      (fuel : ℕ)
      → (room : ℕ → Bool) (s : Ext4) (inode_num : ℕ) (inode : Memory) (buf cnt pos : ℕ) → Memory
      → Option ReadResult
  ext4_read fuel room s inode_num inode buf cnt pos mem =
      elim (ext4_read_inode answers (room 0) s inode_num inode) [
        | failed ↦ some (record { value = none; pos = pos; mem = mem })
        | overrun ↦ none
        | loaded i ↦
            if leb (i_size_lo i) pos
            then some (record { value = some 0; pos = pos; mem = mem })
            else read_loop fuel 1 room s i buf
                (if ltb (i_size_lo i) (u64 (pos + cnt)) then i_size_lo i - pos else cnt) 0 pos mem
      ]

  pub write_loop :
      (fuel n : ℕ)
      → (room : ℕ → Bool) (s : Ext4) (inode : Memory) (buf cnt written pos : ℕ) → Memory
      → Option WriteResult
  write_loop zero n room s inode buf cnt written pos mem = none
  write_loop (suc fuel) n room s inode buf cnt written pos mem =
      let block = ext4_get_block_from_extents inode (pos / s.block_size) in
      let to_write = min (s.block_size - pos % s.block_size) cnt in
      let result : Option ℕ → Memory → Option WriteResult =
        λ v bytes. some (record { value = v; pos = pos; bytes = bytes }) in
      let more : Memory → Option WriteResult = λ bytes.
        write_loop fuel (n + 1) room (record s { bytes = bytes }) inode (buf + to_write)
          (cnt - to_write) (written + to_write) (u64 (pos + to_write)) mem in
      if cnt == 0
      then result (some written) s.bytes
      else if block == 0
      then result (some written) s.bytes
      else if not (room n)
      then result none s.bytes
      else elim (ext4_read_block answers s block cleared) [
        | none ↦ result none s.bytes
        | some block_buf ↦
            let (ok, bytes) =
              ext4_write_block answers s block
                (copy_bytes to_write 0 (pos % s.block_size) (buf + written) mem block_buf) in
            elim ok [ true ↦ more bytes | false ↦ result none bytes ]
      ]

  -- `inode.i_size_lo = pos`, in the bytes of the inode
  pub set_size : (size : ℕ) → Memory → Memory
  set_size size inode = store_byte 7 (size / 2 ^ 24 % 256) (
      store_byte 6 (size / 2 ^ 16 % 256)
        (store_byte 5 (size / 256 % 256) (store_byte 4 (size % 256) inode)))

  -- The file grows when the loop has ended without an error. `room_for` is the room for the inode's block;
  -- the result of the write is ignored, and `none` is an overrun.
  pub grow_file :
      (room_for : Bool) (s : Ext4) (inode_num : ℕ) (inode : Memory)
      → WriteResult
      → Option WriteResult
  grow_file room_for s inode_num inode r = elim r.value [
    | none ↦ some r
    | some written ↦
        if ltb (i_size_lo inode) r.pos
        then elim (ext4_write_inode answers room_for (record s { bytes = r.bytes }) inode_num
            (set_size r.pos inode)) [ none ↦ none | some w ↦ some (record r { bytes = w.1 }) ]
        else some r
  ]

  pub ext4_write :
      (fuel : ℕ)
      → (room : ℕ → Bool) (room_for : Bool) (s : Ext4) (inode_num : ℕ) (inode : Memory)
      → (buf cnt pos : ℕ) → Memory
      → Option WriteResult
  ext4_write fuel room room_for s inode_num inode buf cnt pos mem =
      elim (ext4_read_inode answers (room 0) s inode_num inode) [
        | failed ↦ some (record { value = none; pos = pos; bytes = s.bytes })
        | overrun ↦ none
        | loaded i ↦ elim (write_loop fuel 1 room s i buf cnt 0 pos mem) [
          | none ↦ none
          | some r ↦ grow_file room_for s inode_num i r
        ]
      ]

  -- The loop of `ext4_alloc_inode` from inode `ino` on, with `left` more: the inode, 0 for none, and the
  -- bytes of the device. The result of the write is ignored.
  pub search_inode : (left ino : ℕ) → (room : ℕ → Bool) → Ext4 → ℕ × Memory
  search_inode zero ino room s = (0, s.bytes)
  search_inode (suc left) ino room s =
      let rest = search_inode left (ino + 1) room s in
      let index = u32 (ino + 0xFFFFFFFF) % s.inodes_per_group in
      let bitmap_block = s.inode_bitmap (u32 (ino + 0xFFFFFFFF) / s.inodes_per_group) in
      if not (room ino)
      then (0, s.bytes)
      else elim (ext4_read_block answers s bitmap_block cleared) [
        | none ↦ (0, s.bytes)
        | some bitmap ↦
            if bit_and (bitmap (index / 8)) (2 ^ (index % 8)) == 0
            then (
              ino,
              (ext4_write_block answers s bitmap_block (
                  store_byte (index / 8) (bit_or (bitmap (index / 8)) (2 ^ (index % 8))) bitmap)).1,
            )
            else rest
      ]

  pub ext4_alloc_inode : (room : ℕ → Bool) → Ext4 → ℕ × Memory
  ext4_alloc_inode room s = search_inode (s.inodes_count - 12) 12 room s
