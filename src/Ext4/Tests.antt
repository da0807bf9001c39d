-- ===== src/Ext4/Tests.antt =====
-- A disk in memory with blocks of 1024 bytes, a range over two blocks and a bitmap of inodes.
use kernix_os.Base.{
  ℕ, zero, suc, ◌+◌, ◌/◌, ◌<◌, Bool, true, false, some, ◌==◌, if◌then◌else◌, ◌≡◌, refl, arith, ◌⊎◌,
}
use kernix_os.Mem.{Memory, store_byte}
use kernix_os.Ext4.{
  Ext4, copy_bytes, copy_string, ext4_read_inode, with_inode, inode_offset, inode_block, overruns,
  loaded, ext4_read_block, le16, le32, before_nul, ext4_get_block_from_extents, i_size_lo,
}
use kernix_os.Ext4.File.{ext4_read, ReadResult, write_loop, WriteResult, ext4_alloc_inode}
use kernix_os.Ext4.File.Piece.{block_of, IsMapped}
use kernix_os.Ext4.File.Read.{Scattered, available, ext4_read-Scattered}
use kernix_os.Ext4.File.Write.{IsApart, Placed, write_loop-Placed}
use kernix_os.Ext4.File.Inode.{TakesFirst, TakesNone, ext4_alloc_inode-First}

-- Ones, but for a NUL at byte 100 of inode 12
abbrev ones : Memory
ones x = if x == 4580 then 0 else 1

abbrev disk : Ext4
disk = record {
  on_partition = false;
  bytes = ones;
  inodes_count = 100;
  inodes_per_group = 32;
  inode_bitmap = λ g. 2;
  inode_table = λ g. 3;
  block_size = 1024;
  inode_size = 128;
}

abbrev always : ℕ → Bool
always i = true

-- Inode 12 of the disk, up to its first NUL, on a stack of zeros
abbrev inode : Memory
inode = copy_string 0 384 (copy_bytes 1024 0 0 4096 ones (λ x. 0)) (λ x. 0)

inode_read : ext4_read_inode always true disk 12 (λ x. 0) ≡ loaded inode
unfolding ext4_read_inode with_inode inode_offset inode_block ext4_read_block overruns before_nul
    copy_bytes store_byte
inode_read = refl

inode-block_of : (k : ℕ) → k < 4 → block_of disk inode (1022 + k) ≡ 0x01010101
unfolding ext4_get_block_from_extents le16 le32 copy_string copy_bytes before_nul store_byte
inode-block_of zero h = refl
inode-block_of (suc zero) h = refl
inode-block_of (suc (suc zero)) h = refl
inode-block_of (suc (suc (suc zero))) h = refl
inode-block_of (suc (suc (suc (suc k)))) h = absurd (omega arith)

inode-IsMapped : IsMapped disk inode 1022 (available (i_size_lo inode) 4 1022)
inode-IsMapped k h e = omega (arith, inode-block_of k (omega arith), e)

ext4_read-Scattered_example :
    (r : ReadResult) × (ext4_read always 5 always disk 12 (λ x. 0) 7000 4 1022 (λ x. 0) ≡ some r)
    × Scattered disk inode 7000 0 (available (i_size_lo inode) 4 1022) 1022 (λ x. 0) r
ext4_read-Scattered_example =
    ext4_read-Scattered always always disk 12 7000 4 1022 inode (λ x. 0) (λ x. 0) refl (omega arith)
      (λ i. refl) (λ n. refl) inode_read (omega arith) inode-IsMapped 5 (omega arith)

-- A file whose blocks 0 and 1 are the disk's blocks 5 and 6
abbrev two_blocks : Memory
two_blocks x = if x == 40 then 5 else if x == 44 then 6 else 0

two_blocks-block_of : (k : ℕ) → k < 4 → block_of disk two_blocks (1022 + k) ≡ 5 + (1022 + k) / 1024
unfolding ext4_get_block_from_extents le16 le32
two_blocks-block_of zero h = refl
two_blocks-block_of (suc zero) h = refl
two_blocks-block_of (suc (suc zero)) h = refl
two_blocks-block_of (suc (suc (suc zero))) h = refl
two_blocks-block_of (suc (suc (suc (suc k)))) h = absurd (omega arith)

two_blocks-IsApart : IsApart disk two_blocks 1022 4
two_blocks-IsApart j k hj hk ne eq =
    ne (omega (arith, two_blocks-block_of j hj, two_blocks-block_of k hk, eq))

two_blocks-IsMapped : IsMapped disk two_blocks 1022 4
two_blocks-IsMapped k h e = omega (arith, two_blocks-block_of k h, e)

write_loop-Placed_example :
    (r : WriteResult) × (write_loop always 5 1 always disk two_blocks 7000 4 0 1022 (λ x. x)
      ≡ some r)
    × Placed disk two_blocks 7000 0 4 1022 (λ x. x) r
write_loop-Placed_example =
    write_loop-Placed always always two_blocks (λ i. refl) (λ n. refl) 5 1 disk 7000 4 0 1022
      (λ x. x) refl (omega arith) (omega arith) (omega arith) two_blocks-IsMapped two_blocks-IsApart

ext4_alloc_inode-First_example :
    TakesFirst disk 12 100
      (ext4_alloc_inode always always disk).0
      (ext4_alloc_inode always always disk).1
    ⊎ TakesNone disk 12 100
        (ext4_alloc_inode always always disk).0
        (ext4_alloc_inode always always disk).1
ext4_alloc_inode-First_example =
    ext4_alloc_inode-First always always disk refl (omega arith) (omega arith) (λ i. refl)
      (λ n. refl) (omega arith)
