-- ===== src/Ext4/File/Inode.antt =====
-- The bitmap of inodes of core/fs/ext4/ext4.c.
use kernix_os.Base.{
  ℕ, zero, suc, ◌+◌, ◌-◌, ◌*◌, ◌/◌, ◌%◌, ◌^◌, ◌≤◌, ◌<◌, Bool, true, false, some, bit_and, bit_or,
  ◌==◌, if◌then◌else◌, u32, ◌≡◌, refl, sym, ap, subst, ◌∙◌, arith, ◌⊎◌, inl, inr, Bool-cases,
  if_true, if_false,
}
use native.Mathlib.Nat.{mod-lt}
use kernix_os.Mem.{Memory, store_byte}
use kernix_os.Ext4.{Ext4, ext4_read_block, ext4_write_block, cleared}
use kernix_os.Ext4.File.{search_inode, ext4_alloc_inode}
use kernix_os.Ext4.Block.{within, IsSectors, ext4_read_block-answered}
use kernix_os.Ext4.Store.{ext4_write_block-outside, ext4_write_block-puts}
use kernix_os.Ext4.File.Piece.{filled_block}

-- Where the bit of an inode is: the number of its group's bitmap, the byte in it, and the bit
abbrev pub bitmap_of : Ext4 → ℕ → ℕ
bitmap_of s ino = s.inode_bitmap (u32 (ino + 0xFFFFFFFF) / s.inodes_per_group)

abbrev pub index_of : Ext4 → ℕ → ℕ
index_of s ino = u32 (ino + 0xFFFFFFFF) % s.inodes_per_group

abbrev pub byte_of : Ext4 → ℕ → ℕ
byte_of s ino = bitmap_of s ino * s.block_size + index_of s ino / 8

abbrev pub bit_of : Ext4 → ℕ → ℕ
bit_of s ino = 2 ^ (index_of s ino % 8)

abbrev pub is_free : Ext4 → ℕ → Bool
is_free s ino = bit_and (s.bytes (byte_of s ino)) (bit_of s ino) == 0

-- The lowest free inode from `lo` on, and the disk with its bit set and nothing else changed
pub record TakesFirst (s : Ext4) (lo hi ino : ℕ) (bytes : Memory) : Type 0 where
  pub low : lo ≤ ino
  pub high : ino < hi
  pub free : is_free s ino ≡ true
  pub first : (j : ℕ) → lo ≤ j → j < ino → is_free s j ≡ false
  pub disk :
      (x : ℕ)
      → bytes x ≡ (if x == byte_of s ino then bit_or (s.bytes x) (bit_of s ino) else s.bytes x)

pub record TakesNone (s : Ext4) (lo hi ino : ℕ) (bytes : Memory) : Type 0 where
  pub zero : ino ≡ 0
  pub taken : (j : ℕ) → lo ≤ j → j < hi → is_free s j ≡ false
  pub disk : (x : ℕ) → bytes x ≡ s.bytes x

module _ (answers room : ℕ → Bool) (s : Ext4) (sectors : IsSectors s)
    (grouped : 0 < s.inodes_per_group) (held : s.inodes_per_group ≤ 8 * s.block_size)
    (answered : (i : ℕ) → answers i ≡ true) (roomy : (n : ℕ) → room n ≡ true) where
  patch-inside :
      (block i w : ℕ) (bitmap : Memory)
      → ((k : ℕ) → k < s.block_size → bitmap k ≡ s.bytes (block * s.block_size + k))
      → i < s.block_size
      → (k : ℕ) → k < s.block_size
      → (ext4_write_block answers s block (store_byte i (bit_or (bitmap i) w) bitmap)).1
          (block * s.block_size + k)
        ≡ (if block * s.block_size + k == block * s.block_size + i
            then bit_or (s.bytes (block * s.block_size + k)) w
            else s.bytes (block * s.block_size + k))
  unfolding store_byte
  patch-inside block i w bitmap filled lt k h =
      ext4_write_block-puts answers s block (store_byte i (bit_or (bitmap i) w) bitmap) k sectors
        answered h
      ∙ elim (Bool-cases (k == i)) [
        | inl e ↦
            let same : k ≡ i = ground arith in
            ground (arith, ap (λ b. bit_or b w) (filled k h), ap (λ j. bit_or (bitmap j) w) same)
        | inr e ↦ ground (arith, filled k h)
      ]

  -- A byte of a block that is read, changed and written back
  patch-disk :
      (block i w : ℕ) (bitmap : Memory)
      → ((k : ℕ) → k < s.block_size → bitmap k ≡ s.bytes (block * s.block_size + k))
      → i < s.block_size
      → (x : ℕ)
      → (ext4_write_block answers s block (store_byte i (bit_or (bitmap i) w) bitmap)).1 x
        ≡ (if x == block * s.block_size + i then bit_or (s.bytes x) w else s.bytes x)
  patch-disk block i w bitmap filled lt x =
      elim (Bool-cases (within (block * s.block_size) s.block_size x)) [
        | inl e ↦
            let place : block * s.block_size + (x - block * s.block_size) ≡ x = ground arith in
            subst
              (λ y.
                (ext4_write_block answers s block (store_byte i (bit_or (bitmap i) w) bitmap)).1 y
                ≡ (if y == block * s.block_size + i then bit_or (s.bytes y) w else s.bytes y))
              place
              (patch-inside block i w bitmap filled lt (x - block * s.block_size) (ground arith))
        | inr e ↦
            ext4_write_block-outside answers s block (store_byte i (bit_or (bitmap i) w) bitmap) x
              sectors e
            ∙ ground arith
      ]

  search_inode-step :
      (left ino : ℕ) (bitmap : Memory)
      → ext4_read_block answers s (bitmap_of s ino) cleared ≡ some bitmap
      → search_inode answers (suc left) ino room s ≡ (
          if bit_and (bitmap (index_of s ino / 8)) (bit_of s ino) == 0
          then (
            ino,
            (ext4_write_block answers s (bitmap_of s ino) (
                store_byte
                  (index_of s ino / 8)
                  (bit_or (bitmap (index_of s ino / 8)) (bit_of s ino))
                  bitmap)).1,
          )
          else search_inode answers left (ino + 1) room s)
  unfolding search_inode
  search_inode-step left ino bitmap h = rw (search_inode, roomy ino, h)

  also :
      (left ino j : ℕ)
      → is_free s ino ≡ false
      → ino ≤ j
      → (ino + 1 ≤ j → is_free s j ≡ false)
      → is_free s j ≡ false
  also left ino j e low later = elim (Bool-cases (ino == j)) [
    | inl same ↦ subst (λ n. is_free s n ≡ false) (ground arith) e
    | inr other ↦ later (ground arith)
  ]

  -- A taken inode in front of the search
  later-First :
      (left ino : ℕ) {p : ℕ × Memory}
      → is_free s ino ≡ false
      → TakesFirst s (ino + 1) (ino + 1 + left) p.0 p.1
        ⊎ TakesNone s (ino + 1) (ino + 1 + left) p.0 p.1
      → TakesFirst s ino (ino + suc left) p.0 p.1 ⊎ TakesNone s ino (ino + suc left) p.0 p.1
  later-First left ino e (inl r) = inl (record {
    low = omega (arith, r.low);
    high = omega (arith, r.high);
    free = r.free;
    first = λ j low high. also left ino j e low (λ l. r.first j l high);
    disk = r.disk;
  })
  later-First left ino e (inr r) = inr (record {
    zero = r.zero;
    taken = λ j low high. also left ino j e low (λ l. r.taken j l (omega arith));
    disk = r.disk;
  })

  search_inode-First :
      (left ino : ℕ)
      → TakesFirst s ino
          (ino + left)
          (search_inode answers left ino room s).0
          (search_inode answers left ino room s).1
        ⊎ TakesNone s ino
            (ino + left)
            (search_inode answers left ino room s).0
            (search_inode answers left ino room s).1
  unfolding search_inode
  search_inode-First zero ino =
      inr (record { zero = refl; taken = λ j low high. absurd (omega arith); disk = λ x. refl })
  search_inode-First (suc left) ino =
      let (bitmap, eq) = ext4_read_block-answered answers s (bitmap_of s ino) cleared answered in
      let filled = filled_block answers s (bitmap_of s ino) bitmap sectors eq in
      let small : index_of s ino / 8 < s.block_size =
        omega (arith, mod-lt (u32 (ino + 0xFFFFFFFF)) grouped) in
      let read = filled (index_of s ino / 8) small in
      let step = search_inode-step left ino bitmap eq in
      elim (Bool-cases (is_free s ino)) [
        | inl e ↦
            subst
              (λ p.
                TakesFirst s ino (ino + suc left) p.0 p.1
                ⊎ TakesNone s ino (ino + suc left) p.0 p.1)
              (sym (step ∙ if_true _ _ _ (ap (λ m. bit_and m (bit_of s ino) == 0) read ∙ e)))
              (inl (record {
                low = omega arith;
                high = omega arith;
                free = e;
                first = λ j low high. absurd (omega arith);
                disk =
                    patch-disk (bitmap_of s ino) (index_of s ino / 8) (bit_of s ino) bitmap filled
                      small;
              }))
        | inr e ↦
            subst
              (λ p.
                TakesFirst s ino (ino + suc left) p.0 p.1
                ⊎ TakesNone s ino (ino + suc left) p.0 p.1)
              (sym (step ∙ if_false _ _ _ (ap (λ m. bit_and m (bit_of s ino) == 0) read ∙ e)))
              (later-First left ino e (search_inode-First left (ino + 1)))
      ]

  -- With a disk that answers, room for each buffer and the bits of a group within one block,
  -- `ext4_alloc_inode` gives the lowest inode from 12 on whose bit is clear, below the count of inodes, and
  -- sets that bit and changes nothing else on the disk; if there is none it gives 0 and changes nothing.
  pub ext4_alloc_inode-First :
      12 ≤ s.inodes_count
      → TakesFirst s 12 s.inodes_count
          (ext4_alloc_inode answers room s).0
          (ext4_alloc_inode answers room s).1
        ⊎ TakesNone s 12 s.inodes_count
            (ext4_alloc_inode answers room s).0
            (ext4_alloc_inode answers room s).1
  unfolding ext4_alloc_inode
  ext4_alloc_inode-First le =
      subst
        (λ hi.
          TakesFirst s 12 hi (ext4_alloc_inode answers room s).0 (ext4_alloc_inode answers room s).1
          ⊎ TakesNone s 12 hi (ext4_alloc_inode answers room s).0
              (ext4_alloc_inode answers room s).1)
        (omega arith) (search_inode-First (s.inodes_count - 12) 12)
