-- ===== src/Ext4/File/Read.antt =====
-- Reading a file of core/fs/ext4/ext4.c. The loop moves `buf` on by a piece and adds `read` to it as well, so
-- the bytes of a piece land twice as far from the start as they are in the file.
use kernix_os.Base.{
  ℕ, zero, suc, ◌+◌, ◌-◌, ◌*◌, ◌%◌, ◌^◌, ◌≤◌, ◌<◌, Bool, true, false, some, min, ltb, leb, ◌==◌,
  if◌then◌else◌, u64, ◌≡◌, ◌≢◌, refl, sym, ap, subst, ◌∙◌, arith, inl, inr, Bool-cases,
}
use native.Mathlib.Nat.{mod-lt, mod-eq_of_lt}
use kernix_os.Mem.{Memory}
use kernix_os.Ext4.{Ext4, copy_bytes, ext4_read_block, cleared, ext4_read_inode, loaded, i_size_lo}
use kernix_os.Ext4.File.{ReadResult, read_loop, ext4_read}
use kernix_os.Ext4.Block.{copy_bytes-at, copy_bytes-inside, IsSectors, ext4_read_block-answered}
use kernix_os.Ext4.File.Piece.{
  block_of, place, IsMapped, lead, piece, lead-first, lead-later, place-same, not_zero,
  filled_block,
}

-- What `cnt` bytes from `pos` on leave: byte `k` is moved by as much as its block starts after `pos`.
pub record Scattered (s : Ext4) (inode : Memory) (buf read cnt pos : ℕ) (mem : Memory)
    (r : ReadResult) : Type 0 where
  pub value : r.value ≡ some (read + cnt)
  pub at : r.pos ≡ pos + cnt
  pub bytes :
      (k : ℕ)
      → k < cnt
      → r.mem (buf + read + k + lead s.block_size pos (pos + k)) ≡ s.bytes (place s inode (pos + k))
  pub before : (a : ℕ) → a < buf + read → r.mem a ≡ mem a

module _ (s : Ext4) (inode : Memory) (positive : 0 < s.block_size) (buf read cnt pos : ℕ)
    (mem block_buf : Memory) (r : ReadResult)
    (filled : (k : ℕ)
      → k < s.block_size
      → block_buf k ≡ s.bytes (block_of s inode pos * s.block_size + k)) where
  abbrev t : ℕ
  t = piece s.block_size cnt pos

  abbrev copied : Memory
  copied = copy_bytes t 0 (buf + read) (pos % s.block_size) block_buf mem

  copied-inside : (k : ℕ) → k < t → copied (buf + read + k) ≡ s.bytes (place s inode (pos + k))
  copied-inside k h =
      let inside : pos % s.block_size + k < s.block_size = omega (arith, mod-lt pos positive) in
      copy_bytes-inside t (buf + read) (pos % s.block_size) block_buf mem k h
      ∙ filled (pos % s.block_size + k) inside
      ∙ ap s.bytes (place-same s inode positive pos k inside)

  copied-before : (a : ℕ) → a < buf + read → copied a ≡ mem a
  copied-before a h =
      copy_bytes-at t 0 (buf + read) (pos % s.block_size) block_buf mem a ∙ ground arith

  -- A piece, and what follows it with the address and the count both moved on
  pub first_piece-Scattered :
      Scattered s inode (buf + t) (read + t) (cnt - t) (pos + t) copied r
      → Scattered s inode buf read cnt pos mem r
  first_piece-Scattered later = record {
    value = later.value ∙ ap (λ n. some n) (omega arith);
    at = later.at ∙ omega arith;
    bytes = λ k h. elim (Bool-cases (ltb k t)) [
      | inl e ↦
          let inside : k < t = ground arith in
          ap r.mem (lead-first s.block_size pos positive (buf + read) cnt k inside)
          ∙ later.before (buf + read + k) (omega arith)
          ∙ copied-inside k inside
      | inr e ↦
          let le : t ≤ k = ground arith in
          let same : pos + t + (k - t) ≡ pos + k = omega arith in
          ap r.mem (lead-later s.block_size pos positive buf read cnt k h le)
          ∙ ap (λ x. r.mem (buf + t + (read + t) + (k - t) + lead s.block_size (pos + t) x))
              (sym same)
          ∙ later.bytes (k - t) (omega arith)
          ∙ ap (λ x. s.bytes (place s inode x)) same
    ];
    before = λ a h. later.before a (omega arith) ∙ copied-before a h;
  }

module _ (answers room : ℕ → Bool) (s : Ext4) (inode : Memory) (sectors : IsSectors s)
    (positive : 0 < s.block_size) (answered : (i : ℕ) → answers i ≡ true)
    (roomy : (n : ℕ) → room n ≡ true) where
  nothing-Scattered :
      (buf read pos : ℕ) (mem : Memory) (cnt : ℕ)
      → cnt ≡ 0
      → Scattered s inode buf read cnt pos mem (record { value = some read; pos = pos; mem = mem })
  nothing-Scattered buf read pos mem cnt e = record {
    value = ap (λ n. some n) (omega arith);
    at = omega arith;
    bytes = λ k h. absurd (omega arith);
    before = λ a h. refl;
  }

  read_loop-end :
      (fuel n buf cnt read pos : ℕ) (mem : Memory)
      → (cnt == 0) ≡ true
      → read_loop answers (suc fuel) n room s inode buf cnt read pos mem
        ≡ some (record { value = some read; pos = pos; mem = mem })
  unfolding read_loop
  read_loop-end fuel n buf cnt read pos mem h = rw h

  read_loop-step :
      (fuel n buf cnt read pos : ℕ) (mem block_buf : Memory)
      → (cnt == 0) ≡ false
      → (block_of s inode pos == 0) ≡ false
      → u64 (pos + piece s.block_size cnt pos) ≡ pos + piece s.block_size cnt pos
      → ext4_read_block answers s (block_of s inode pos) cleared ≡ some block_buf
      → read_loop answers (suc fuel) n room s inode buf cnt read pos mem
        ≡ read_loop answers fuel
            (n + 1)
            room
            s
            inode
            (buf + piece s.block_size cnt pos)
            (cnt - piece s.block_size cnt pos)
            (read + piece s.block_size cnt pos)
            (pos + piece s.block_size cnt pos)
            (copy_bytes
              (piece s.block_size cnt pos)
              0
              (buf + read)
              (pos % s.block_size)
              block_buf
              mem)
  unfolding read_loop
  read_loop-step fuel n buf cnt read pos mem block_buf h0 h1 h2 h3 = rw (h0, h1, roomy n, h3, h2)

  read_loop-Scattered :
      (fuel n buf cnt read pos : ℕ) (mem : Memory)
      → cnt < fuel
      → pos + cnt < 2 ^ 64
      → IsMapped s inode pos cnt
      → (r : ReadResult) × (read_loop answers fuel n room s inode buf cnt read pos mem ≡ some r)
        × Scattered s inode buf read cnt pos mem r
  read_loop-Scattered zero n buf cnt read pos mem lt fits mapped = absurd (omega arith)
  read_loop-Scattered (suc fuel) n buf cnt read pos mem lt fits mapped =
      elim (Bool-cases (cnt == 0)) [
        | inl e ↦
            let e' : cnt ≡ 0 = ground arith in
            (
              record { value = some read; pos = pos; mem = mem },
              read_loop-end fuel n buf cnt read pos mem e,
              nothing-Scattered buf read pos mem cnt e',
            )
        | inr e ↦
            let (block_buf, eq) =
              ext4_read_block-answered answers s (block_of s inode pos) cleared answered in
            let some_left : 0 < cnt = ground arith in
            let named : (block_of s inode pos == 0) ≡ false =
              subst (λ x. (block_of s inode x == 0) ≡ false) (omega arith)
                (not_zero (block_of s inode (pos + 0)) (mapped 0 some_left)) in
            let wraps : u64 (pos + piece s.block_size cnt pos) ≡ pos + piece s.block_size cnt pos =
              mod-eq_of_lt (omega arith) in
            let advance : 0 < piece s.block_size cnt pos = omega (arith, mod-lt pos positive) in
            let (r, runs, later) =
              read_loop-Scattered fuel (n + 1) (buf + piece s.block_size cnt pos)
                (cnt - piece s.block_size cnt pos) (read + piece s.block_size cnt pos)
                (pos + piece s.block_size cnt pos)
                (copy_bytes (piece s.block_size cnt pos) 0 (buf + read) (pos % s.block_size)
                  block_buf mem)
                (omega arith) (omega arith)
                (λ k h.
                  subst (λ x. block_of s inode x ≢ 0) (omega arith)
                    (mapped (piece s.block_size cnt pos + k) (omega arith))) in
            (
              r,
              read_loop-step fuel n buf cnt read pos mem block_buf e named wraps eq ∙ runs,
              first_piece-Scattered s inode positive buf read cnt pos mem block_buf r
                  (filled_block answers s (block_of s inode pos) block_buf sectors eq) later,
            )
      ]

-- The bytes that are asked for and that the file has
abbrev pub available : (size cnt pos : ℕ) → ℕ
available size cnt pos = min cnt (size - pos)

module _ (answers room : ℕ → Bool) (s : Ext4) (inode_num buf cnt pos : ℕ) (inode old mem : Memory)
    (sectors : IsSectors s) (positive : 0 < s.block_size) (answered : (i : ℕ) → answers i ≡ true)
    (roomy : (n : ℕ) → room n ≡ true)
    (inode_read : ext4_read_inode answers (room 0) s inode_num old ≡ loaded inode)
    (fits : pos + cnt < 2 ^ 64)
    (mapped : IsMapped s inode pos (available (i_size_lo inode) cnt pos)) where
  abbrev count : ℕ
  count = if ltb (i_size_lo inode) (u64 (pos + cnt)) then i_size_lo inode - pos else cnt

  count-available : leb (i_size_lo inode) pos ≡ false → count ≡ available (i_size_lo inode) cnt pos
  count-available h =
      let wraps : u64 (pos + cnt) ≡ pos + cnt = mod-eq_of_lt fits in ground (arith, wraps)

  past_end :
      (fuel : ℕ)
      → leb (i_size_lo inode) pos ≡ true
      → ext4_read answers fuel room s inode_num old buf cnt pos mem
        ≡ some (record { value = some 0; pos = pos; mem = mem })
  unfolding ext4_read
  past_end fuel e = ground arith

  into_loop :
      (fuel : ℕ)
      → leb (i_size_lo inode) pos ≡ false
      → ext4_read answers fuel room s inode_num old buf cnt pos mem
        ≡ read_loop answers fuel 1 room s inode buf (available (i_size_lo inode) cnt pos) 0 pos mem
  unfolding ext4_read
  into_loop fuel e = rw (ext4_read, inode_read, e, count-available e)

  -- With an inode that is read without an overrun, a readable disk, room for each buffer, a block for
  -- each byte of the range and fuel for each of its bytes, `ext4_read` ends and returns how many of the
  -- bytes asked for the file has, and moves the place in the file by as many. Byte `k` of them is the
  -- one of the file at `pos + k`, found by its block, but it lies `k` bytes behind `buf` and as many
  -- more as its block starts after `pos`: in the place asked for up to the end of the first block, and
  -- twice as far for a block's first byte after that. No byte before `buf` changes.
  pub ext4_read-Scattered :
      (fuel : ℕ)
      → cnt < fuel
      → (r : ReadResult) × (ext4_read answers fuel room s inode_num old buf cnt pos mem ≡ some r)
        × Scattered s inode buf 0 (available (i_size_lo inode) cnt pos) pos mem r
  ext4_read-Scattered fuel lt = elim (Bool-cases (leb (i_size_lo inode) pos)) [
    | inl e ↦ (
      record { value = some 0; pos = pos; mem = mem },
      past_end fuel e,
      nothing-Scattered answers room s inode sectors positive answered roomy buf 0 pos mem
          (available (i_size_lo inode) cnt pos) (ground arith),
    )
    | inr e ↦
        let (r, runs, scattered) =
          read_loop-Scattered answers room s inode sectors positive answered roomy fuel 1 buf
            (available (i_size_lo inode) cnt pos) 0 pos mem (omega arith) (omega arith) mapped in
        (r, into_loop fuel e ∙ runs, scattered)
  ]
