-- ===== src/Ext4/File/Write.antt =====
-- Writing a file of core/fs/ext4/ext4.c: the loop, which takes its bytes as far apart as reading puts them.
use kernix_os.Base.{
  ℕ, zero, suc, ◌+◌, ◌-◌, ◌*◌, ◌/◌, ◌%◌, ◌^◌, ◌≤◌, ◌<◌, Bool, true, false, some, ltb, ◌==◌, u64,
  ◌≡◌, ◌≢◌, refl, sym, ap, subst, ◌∙◌, arith, inl, inr, Bool-cases,
}
use native.Mathlib.Nat.{mod-lt, mul-le-mul_right, mod-eq_of_lt, div-mul-le_self}
use kernix_os.Mem.{Memory}
use kernix_os.Ext4.{Ext4, copy_bytes, ext4_read_block, ext4_write_block, cleared}
use kernix_os.Ext4.File.{WriteResult, write_loop}
use kernix_os.Ext4.Block.{within, copy_bytes-inside, IsSectors, ext4_read_block-answered}
use kernix_os.Ext4.Store.{
  ext4_write_block-outside, ext4_write_block-answered, ext4_write_block-puts,
}
use kernix_os.Ext4.File.Piece.{
  block_of, place, IsMapped, lead, piece, lead-first, lead-later, div-same, behind, place-same,
  not_zero,
}

-- No two of the range's blocks are one and the same block of the disk.
abbrev pub IsApart : Ext4 → (inode : Memory) → (pos cnt : ℕ) → Type 0
IsApart s inode pos cnt =
    (j k : ℕ)
    → j < cnt
    → k < cnt
    → (pos + j) / s.block_size ≢ (pos + k) / s.block_size
    → block_of s inode (pos + j) ≢ block_of s inode (pos + k)

-- A byte of the disk that is in none of the range's blocks
abbrev pub IsElsewhere : Ext4 → (inode : Memory) → (pos cnt x : ℕ) → Type 0
IsElsewhere s inode pos cnt x =
    (k : ℕ) → k < cnt → within (block_of s inode (pos + k) * s.block_size) s.block_size x ≡ false

-- What writing `cnt` bytes from `pos` on leaves
pub record Placed (s : Ext4) (inode : Memory) (buf written cnt pos : ℕ) (mem : Memory)
    (r : WriteResult) : Type 0 where
  pub value : r.value ≡ some (written + cnt)
  pub at : r.pos ≡ pos + cnt
  pub bytes :
      (k : ℕ)
      → k < cnt
      → r.bytes (place s inode (pos + k))
        ≡ mem (buf + written + k + lead s.block_size pos (pos + k))
  pub outside : (x : ℕ) → IsElsewhere s inode pos cnt x → r.bytes x ≡ s.bytes x

-- Different blocks have no byte in common.
blocks_apart : (a b size m : ℕ) → a ≢ b → m < size → within (a * size) size (b * size + m) ≡ false
blocks_apart a b size m ne lt = elim (Bool-cases (ltb a b)) [
  | inl e ↦
      let lt' : a + 1 ≤ b = ground arith in
      let far : (a + 1) * size ≤ b * size = mul-le-mul_right size lt' in ground arith
  | inr e ↦
      let lt' : b + 1 ≤ a = ground arith in
      let far : (b + 1) * size ≤ a * size = mul-le-mul_right size lt' in ground arith
]

module _ (answers : ℕ → Bool) (s : Ext4) (inode : Memory) (sectors : IsSectors s)
    (positive : 0 < s.block_size) (answered : (i : ℕ) → answers i ≡ true) (buf written cnt pos : ℕ)
    (mem block_buf : Memory) (r : WriteResult) (some_left : 0 < cnt)
    (apart : IsApart s inode pos cnt) where
  abbrev t : ℕ
  t = piece s.block_size cnt pos

  abbrev patched : Memory
  patched = copy_bytes t 0 (pos % s.block_size) (buf + written) mem block_buf

  abbrev stored : Memory
  stored = (ext4_write_block answers s (block_of s inode pos) patched).1

  first_piece-bytes : (k : ℕ) → k < t → stored (place s inode (pos + k)) ≡ mem (buf + written + k)
  first_piece-bytes k h =
      let inside : pos % s.block_size + k < s.block_size = omega (arith, mod-lt pos positive) in
      ap stored (sym (place-same s inode positive pos k inside))
      ∙ ext4_write_block-puts answers s (block_of s inode pos) patched (pos % s.block_size + k)
          sectors answered inside
      ∙ copy_bytes-inside t (pos % s.block_size) (buf + written) mem block_buf k h

  later_block :
      (j k : ℕ) → j < cnt - t → k < t → (pos + (t + j)) / s.block_size ≢ (pos + k) / s.block_size
  later_block j k hj hk e =
      let inside : pos % s.block_size + k < s.block_size = omega (arith, mod-lt pos positive) in
      let same : (pos + (t + j)) / s.block_size * s.block_size ≡ pos / s.block_size * s.block_size =
        ap (λ q. q * s.block_size) (e ∙ div-same s.block_size pos positive k inside) in
      let far = behind s.block_size pos positive (t + j) (omega arith) in
      omega (arith, same, far, div-mul-le_self pos s.block_size, mod-lt pos positive)

  later-IsElsewhere :
      (k : ℕ) → k < t → IsElsewhere s inode (pos + t) (cnt - t) (place s inode (pos + k))
  later-IsElsewhere k hk j hj =
      let ne : block_of s inode (pos + t + j) ≢ block_of s inode (pos + k) =
        subst (λ n. block_of s inode n ≢ block_of s inode (pos + k)) (omega arith)
          (apart (t + j) k (omega arith) (omega arith) (later_block j k hj hk)) in
      blocks_apart (block_of s inode (pos + t + j)) (block_of s inode (pos + k)) s.block_size
        ((pos + k) % s.block_size) ne (mod-lt (pos + k) positive)

  pub first_piece-Placed :
      Placed (record s { bytes = stored }) inode (buf + t) (written + t) (cnt - t) (pos + t) mem r
      → Placed s inode buf written cnt pos mem r
  first_piece-Placed later = record {
    value = later.value ∙ ap (λ n. some n) (omega arith);
    at = later.at ∙ omega arith;
    bytes = λ k h. elim (Bool-cases (ltb k t)) [
      | inl e ↦
          let inside : k < t = ground arith in
          later.outside (place s inode (pos + k)) (later-IsElsewhere k inside)
          ∙ first_piece-bytes k inside
          ∙ ap mem (sym (lead-first s.block_size pos positive (buf + written) cnt k inside))
      | inr e ↦
          let le : t ≤ k = ground arith in
          let same : pos + t + (k - t) ≡ pos + k = omega arith in
          ap (λ x. r.bytes (place s inode x)) (sym same)
          ∙ later.bytes (k - t) (omega arith)
          ∙ ap (λ x. mem (buf + t + (written + t) + (k - t) + lead s.block_size (pos + t) x)) same
          ∙ ap mem (sym (lead-later s.block_size pos positive buf written cnt k h le))
    ];
    outside = λ x out.
        later.outside x (λ k h.
          subst (λ n. within (block_of s inode n * s.block_size) s.block_size x ≡ false)
            (omega arith) (out (t + k) (omega arith)))
        ∙ ext4_write_block-outside answers s (block_of s inode pos) patched x sectors (
            subst (λ n. within (block_of s inode n * s.block_size) s.block_size x ≡ false)
              (omega arith) (out 0 some_left));
  }

module _ (answers room : ℕ → Bool) (inode : Memory) (answered : (i : ℕ) → answers i ≡ true)
    (roomy : (n : ℕ) → room n ≡ true) where
  IsMapped-later :
      (s : Ext4) (pos cnt t : ℕ) → IsMapped s inode pos cnt → IsMapped s inode (pos + t) (cnt - t)
  IsMapped-later s pos cnt t mapped k h =
      subst (λ x. block_of s inode x ≢ 0) (omega arith) (mapped (t + k) (omega arith))

  IsApart-later :
      (s : Ext4) (pos cnt t : ℕ) → IsApart s inode pos cnt → IsApart s inode (pos + t) (cnt - t)
  IsApart-later s pos cnt t apart j k hj hk =
      let ej : pos + (t + j) ≡ pos + t + j = omega arith in
      let ek : pos + (t + k) ≡ pos + t + k = omega arith in
      subst
        (λ m.
          m / s.block_size ≢ (pos + t + k) / s.block_size
          → block_of s inode m ≢ block_of s inode (pos + t + k))
        ej
        (subst
          (λ m.
            (pos + (t + j)) / s.block_size ≢ m / s.block_size
            → block_of s inode (pos + (t + j)) ≢ block_of s inode m)
          ek (apart (t + j) (t + k) (omega arith) (omega arith)))

  write_loop-end :
      (s : Ext4) (fuel n buf cnt written pos : ℕ) (mem : Memory)
      → (cnt == 0) ≡ true
      → write_loop answers (suc fuel) n room s inode buf cnt written pos mem
        ≡ some (record { value = some written; pos = pos; bytes = s.bytes })
  unfolding write_loop
  write_loop-end s fuel n buf cnt written pos mem h = rw h

  nothing-Placed :
      (s : Ext4) (buf cnt written pos : ℕ) (mem : Memory)
      → cnt ≡ 0
      → Placed s inode buf written cnt pos mem
          (record { value = some written; pos = pos; bytes = s.bytes })
  nothing-Placed s buf cnt written pos mem e = record {
    value = ap (λ n. some n) (omega arith);
    at = omega arith;
    bytes = λ k h. absurd (omega arith);
    outside = λ x out. refl;
  }

  write_loop-step :
      (s : Ext4) (fuel n buf cnt written pos : ℕ) (mem block_buf : Memory)
      → (cnt == 0) ≡ false
      → (block_of s inode pos == 0) ≡ false
      → u64 (pos + piece s.block_size cnt pos) ≡ pos + piece s.block_size cnt pos
      → ext4_read_block answers s (block_of s inode pos) cleared ≡ some block_buf
      → write_loop answers (suc fuel) n room s inode buf cnt written pos mem
        ≡ write_loop answers fuel
            (n + 1)
            room
            (record s {
              bytes =
                  (ext4_write_block answers s (block_of s inode pos) (
                    copy_bytes
                      (piece s.block_size cnt pos)
                      0
                      (pos % s.block_size)
                      (buf + written)
                      mem
                      block_buf)).1;
            })
            inode
            (buf + piece s.block_size cnt pos)
            (cnt - piece s.block_size cnt pos)
            (written + piece s.block_size cnt pos)
            (pos + piece s.block_size cnt pos)
            mem
  unfolding write_loop
  write_loop-step s fuel n buf cnt written pos mem block_buf h0 h1 h2 h3 = rw (
    h0,
    h1,
    roomy n,
    h3,
    ext4_write_block-answered answers s (block_of s inode pos)
        (copy_bytes (piece s.block_size cnt pos) 0 (pos % s.block_size) (buf + written) mem
          block_buf)
        answered,
    h2,
  )

  -- With a disk that answers, room for each buffer, a block of its own for each index in the range and fuel
  -- for each byte, the loop ends and returns `written` and the count of the bytes, and moves the place in
  -- the file by as many. The byte of the file at `pos + k` becomes the one that lies `k` bytes behind
  -- `buf + written` and as many more as its block starts after `pos`: from where `ext4_read` puts it. No
  -- byte of the disk outside the blocks of the range changes.
  pub write_loop-Placed :
      (fuel n : ℕ) (s : Ext4) (buf cnt written pos : ℕ) (mem : Memory)
      → IsSectors s
      → 0 < s.block_size
      → cnt < fuel
      → pos + cnt < 2 ^ 64
      → IsMapped s inode pos cnt
      → IsApart s inode pos cnt
      → (r : WriteResult) × (write_loop answers fuel n room s inode buf cnt written pos mem
          ≡ some r)
        × Placed s inode buf written cnt pos mem r
  write_loop-Placed zero n s buf cnt written pos mem sectors positive lt fits mapped apart =
      absurd (omega arith)
  write_loop-Placed (suc fuel) n s buf cnt written pos mem sectors positive lt fits mapped apart =
      elim (Bool-cases (cnt == 0)) [
        | inl e ↦
            let e' : cnt ≡ 0 = ground arith in
            (
              record { value = some written; pos = pos; bytes = s.bytes },
              write_loop-end s fuel n buf cnt written pos mem e,
              nothing-Placed s buf cnt written pos mem e',
            )
        | inr e ↦
            let (block_buf, eq) =
              ext4_read_block-answered answers s (block_of s inode pos) cleared answered in
            let t = piece s.block_size cnt pos in
            let some_left : 0 < cnt = ground arith in
            let named : (block_of s inode pos == 0) ≡ false =
              subst (λ x. (block_of s inode x == 0) ≡ false) (omega arith)
                (not_zero (block_of s inode (pos + 0)) (mapped 0 some_left)) in
            let wraps : u64 (pos + t) ≡ pos + t = mod-eq_of_lt (omega arith) in
            let advance : 0 < t = omega (arith, mod-lt pos positive) in
            let (r, runs, later) =
              write_loop-Placed fuel (n + 1)
                (record s {
                  bytes =
                      (ext4_write_block answers s (block_of s inode pos)
                        (copy_bytes t 0 (pos % s.block_size) (buf + written) mem block_buf)).1;
                })
                (buf + t) (cnt - t) (written + t) (pos + t) mem sectors positive (omega arith)
                (omega arith) (IsMapped-later s pos cnt t mapped)
                (IsApart-later s pos cnt t apart) in
            (
              r,
              write_loop-step s fuel n buf cnt written pos mem block_buf e named wraps eq ∙ runs,
              first_piece-Placed answers s inode sectors positive answered buf written cnt pos mem
                  block_buf r some_left apart later,
            )
      ]
