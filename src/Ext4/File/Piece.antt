-- ===== src/Ext4/File/Piece.antt =====
-- The pieces of a file in core/fs/ext4/ext4.c: where its bytes are on the disk, and how the loops cut a
-- range.
use kernix_os.Base.{
  ℕ, ◌+◌, ◌-◌, ◌*◌, ◌/◌, ◌%◌, ◌≤◌, ◌<◌, Bool, false, some, min, ◌==◌, ◌≡◌, ◌≢◌, sym, ap, subst, ◌∙◌,
  arith,
}
use native.Mathlib.Nat.{
  div-add-mod', mod-lt, mul-add-div_right, div-eq_of_lt, le-div_iff_mul-le, mul-le-mul_right,
  mod-eq-sub-div-mul,
}
use kernix_os.Mem.{Memory}
use kernix_os.Ext4.{Ext4, ext4_read_block, ext4_get_block_from_extents, cleared}
use kernix_os.Ext4.Block.{IsSectors, ext4_read_block-fills}

-- The place of a byte of a file: the block that its inode names, and the rest in it
abbrev pub block_of : Ext4 → (inode : Memory) → (at : ℕ) → ℕ
block_of s inode at = ext4_get_block_from_extents inode (at / s.block_size)

abbrev pub place : Ext4 → (inode : Memory) → (at : ℕ) → ℕ
place s inode at = block_of s inode at * s.block_size + at % s.block_size

abbrev pub IsMapped : Ext4 → (inode : Memory) → (pos cnt : ℕ) → Type 0
IsMapped s inode pos cnt = (k : ℕ) → k < cnt → block_of s inode (pos + k) ≢ 0

-- How far the block of `at` starts after `pos`
abbrev pub lead : (size pos at : ℕ) → ℕ
lead size pos at = at / size * size - pos

-- The first piece: the rest of the block, or all that is asked for
abbrev pub piece : (size cnt pos : ℕ) → ℕ
piece size cnt pos = min (size - pos % size) cnt

module _ (size pos : ℕ) (positive : 0 < size) where
  parts : pos / size * size + pos % size ≡ pos
  parts = div-add-mod' pos size

  -- The bytes of the first piece are in the block of `pos`.
  pub div-same : (k : ℕ) → pos % size + k < size → (pos + k) / size ≡ pos / size
  div-same k h =
      let again : pos + k ≡ pos / size * size + (pos % size + k) = omega (arith, parts) in
      let over : (pos % size + k) / size ≡ 0 = div-eq_of_lt h in
      ap (λ n. n / size) again
      ∙ mul-add-div_right positive (pos / size) (pos % size + k)
      ∙ omega (arith, over)

  pub mod-same : (k : ℕ) → pos % size + k < size → (pos + k) % size ≡ pos % size + k
  mod-same k h =
      mod-eq-sub-div-mul (pos + k) size
      ∙ ap (λ n. pos + k - n * size) (div-same k h)
      ∙ omega (arith, parts)

  -- A later byte is in a block that starts behind the first piece.
  pub behind : (k : ℕ) → size ≤ pos % size + k → pos + (size - pos % size) ≤ (pos + k) / size * size
  behind k h =
      let room : (pos / size + 1) * size ≤ pos + k = omega (arith, parts) in
      let more : (pos / size + 1) * size ≤ (pos + k) / size * size =
        mul-le-mul_right size ((le-div_iff_mul-le positive).1 room) in
      omega (arith, parts)

  -- The bytes of the first piece are not moved, and the later ones as the rest of the loop moves them.
  pub lead-first :
      (base cnt k : ℕ) → k < piece size cnt pos → base + k + lead size pos (pos + k) ≡ base + k
  lead-first base cnt k h =
      let inside : pos % size + k < size = omega (arith, mod-lt pos positive) in
      let low : (pos + k) / size * size ≤ pos =
        subst (λ q. q * size ≤ pos) (sym (div-same k inside)) (omega (arith, parts)) in
      omega (arith, low)

  pub lead-later :
      (buf done cnt k : ℕ)
      → k < cnt
      → piece size cnt pos ≤ k
      → buf + done + k + lead size pos (pos + k)
        ≡ buf
          + piece size cnt pos
          + (done + piece size cnt pos)
          + (k - piece size cnt pos)
          + lead size (pos + piece size cnt pos) (pos + k)
  lead-later buf done cnt k h le =
      let far : size ≤ pos % size + k = omega arith in
      let far' = behind k far in omega (arith, far')

-- The bytes of the first piece follow each other in the block of `pos`.
pub place-same :
    (s : Ext4) (inode : Memory) (positive : 0 < s.block_size) (pos k : ℕ)
    → pos % s.block_size + k < s.block_size
    → block_of s inode pos * s.block_size + (pos % s.block_size + k) ≡ place s inode (pos + k)
place-same s inode positive pos k inside =
    ap (λ q. ext4_get_block_from_extents inode q * s.block_size + (pos % s.block_size + k))
      (sym (div-same s.block_size pos positive k inside))
    ∙ ap (λ m. block_of s inode (pos + k) * s.block_size + m)
        (sym (mod-same s.block_size pos positive k inside))

pub not_zero : (n : ℕ) → n ≢ 0 → (n == 0) ≡ false
not_zero n h = ground arith

pub filled_block :
    (answers : ℕ → Bool) (s : Ext4) (block : ℕ) (block_buf : Memory)
    → IsSectors s
    → ext4_read_block answers s block cleared ≡ some block_buf
    → (k : ℕ) → k < s.block_size
    → block_buf k ≡ s.bytes (block * s.block_size + k)
filled_block answers s block block_buf sectors eq k h =
    ext4_read_block-fills answers s block cleared block_buf sectors eq k ∙ ground arith
