-- ===== src/Ext4/Store.antt =====
-- Writing a block of core/fs/ext4/ext4.c.
use kernix_os.Base.{
  ℕ, zero, suc, ◌+◌, ◌-◌, ◌*◌, ◌/◌, ◌<◌, Bool, true, false, if◌then◌else◌, ◌≡◌, refl, ap, subst,
  ◌∙◌, arith, inl, inr, Bool-cases,
}
use kernix_os.Mem.{Memory}
use kernix_os.Ext4.{Ext4, move_sector, write_sectors, ext4_write_block}
use kernix_os.Ext4.Block.{
  within, copy_bytes-at, copy_bytes-inside, move_sector-at, IsSectors, start_of,
}

-- The byte of a sector that is written
sector_put :
    (i first : ℕ) (buf bytes : Memory) (k : ℕ)
    → within (i * 512) 512 k ≡ true
    → (if within ((first + i) * 512) 512 (first * 512 + k)
        then buf (i * 512 + (first * 512 + k - (first + i) * 512))
        else bytes (first * 512 + k))
      ≡ buf k
sector_put i first buf bytes k e =
    let same : i * 512 + (first * 512 + k - (first + i) * 512) ≡ k = ground arith in
    ground (arith, ap buf same)

module _ (answers : ℕ → Bool) where
  -- A write changes bytes of the sectors that it is asked for only, also when it ends early.
  write_sectors-outside :
      (left i first : ℕ) (buf bytes : Memory) (k : ℕ)
      → within ((first + i) * 512) (left * 512) k ≡ false
      → (write_sectors answers left i first buf bytes).1 k ≡ bytes k
  unfolding write_sectors
  write_sectors-outside zero i first buf bytes k h = refl
  write_sectors-outside (suc left) i first buf bytes k h =
      let rest =
        write_sectors-outside left (i + 1) first buf (move_sector (first + i) i buf bytes) k
          (ground arith) in
      let this = move_sector-at (first + i) i buf bytes k in
      elim (Bool-cases (answers (first + i))) [ inl e ↦ ground arith | inr e ↦ ground arith ]

  pub ext4_write_block-outside :
      (s : Ext4) (block : ℕ) (buf : Memory) (k : ℕ)
      → IsSectors s
      → within (block * s.block_size) s.block_size k ≡ false
      → (ext4_write_block answers s block buf).1 k ≡ s.bytes k
  unfolding ext4_write_block
  ext4_write_block-outside s block buf k sectors out =
      let start = start_of block (s.block_size / 512) s.block_size sectors in
      elim (Bool-cases s.on_partition) [
        | inl e ↦
            let rest =
              write_sectors-outside (s.block_size / 512) 0 (block * (s.block_size / 512)) buf
                s.bytes k (ground arith) in
            ground arith
        | inr e ↦
            let rest = copy_bytes-at s.block_size 0 (block * s.block_size) 0 buf s.bytes k in
            ground arith
      ]

  write_sectors-answered :
      (left i first : ℕ) (buf bytes : Memory)
      → ((i : ℕ) → answers i ≡ true)
      → (write_sectors answers left i first buf bytes).0 ≡ true
  unfolding write_sectors
  write_sectors-answered zero i first buf bytes h = refl
  write_sectors-answered (suc left) i first buf bytes h =
      let rest =
        write_sectors-answered left (i + 1) first buf (move_sector (first + i) i buf bytes) h in
      ground (arith, h (first + i))

  pub ext4_write_block-answered :
      (s : Ext4) (block : ℕ) (buf : Memory)
      → ((i : ℕ) → answers i ≡ true)
      → (ext4_write_block answers s block buf).0 ≡ true
  unfolding ext4_write_block
  ext4_write_block-answered s block buf h = elim (Bool-cases s.on_partition) [
    | inl e ↦
        let rest =
          write_sectors-answered (s.block_size / 512) 0 (block * (s.block_size / 512)) buf s.bytes
            h in
        ground arith
    | inr e ↦ ground arith
  ]

  write_sectors-puts :
      (left i first : ℕ) (buf bytes : Memory) (k : ℕ)
      → ((i : ℕ) → answers i ≡ true)
      → within (i * 512) (left * 512) k ≡ true
      → (write_sectors answers left i first buf bytes).1 (first * 512 + k) ≡ buf k
  unfolding write_sectors
  write_sectors-puts zero i first buf bytes k h inside = absurd (ground arith)
  write_sectors-puts (suc left) i first buf bytes k h inside =
      let next = move_sector (first + i) i buf bytes in
      ap
        (λ b.
          (if b then write_sectors answers left (i + 1) first buf next else (false, bytes)).1
            (first * 512 + k))
        (h (first + i))
      ∙ elim (Bool-cases (within ((i + 1) * 512) (left * 512) k)) [
        | inl e ↦ write_sectors-puts left (i + 1) first buf next k h e
        | inr e ↦
            write_sectors-outside left (i + 1) first buf next (first * 512 + k) (ground arith)
            ∙ move_sector-at (first + i) i buf bytes (first * 512 + k)
            ∙ sector_put i first buf bytes k (ground arith)
      ]

  pub ext4_write_block-puts :
      (s : Ext4) (block : ℕ) (buf : Memory) (k : ℕ)
      → IsSectors s
      → ((i : ℕ) → answers i ≡ true)
      → k < s.block_size
      → (ext4_write_block answers s block buf).1 (block * s.block_size + k) ≡ buf k
  unfolding ext4_write_block
  ext4_write_block-puts s block buf k sectors h lt =
      let start = start_of block (s.block_size / 512) s.block_size sectors in
      elim (Bool-cases s.on_partition) [
        | inl e ↦
            let puts =
              write_sectors-puts (s.block_size / 512) 0 (block * (s.block_size / 512)) buf s.bytes k
                h (ground arith) in
            let moved =
              subst
                (λ m.
                  (write_sectors answers (s.block_size / 512) 0 (block * (s.block_size / 512)) buf
                      s.bytes).1
                    (m + k)
                  ≡ buf k)
                start puts in
            ground arith
        | inr e ↦
            let puts = copy_bytes-inside s.block_size (block * s.block_size) 0 buf s.bytes k lt in
            ground arith
      ]
