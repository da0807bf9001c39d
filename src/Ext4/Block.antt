-- ===== src/Ext4/Block.antt =====
-- Reading and writing a block of core/fs/ext4/ext4.c.
use kernix_os.Base.{
  ℕ, zero, suc, ◌+◌, ◌-◌, ◌*◌, ◌/◌, ◌<◌, Bool, true, ◌&&◌, Option, none, some, ltb, leb, ◌==◌,
  if◌then◌else◌, ◌≡◌, refl, sym, ap, ◌∙◌, arith, inl, inr, Bool-cases,
}
use native.Mathlib.Nat.{mul_assoc}
use kernix_os.Mem.{Memory, store_byte}
use kernix_os.Ext4.{Ext4, copy_bytes, move_sector, read_sectors, ext4_read_block}

-- What is in a destination once `n` bytes from `lo` on came from elsewhere
abbrev pub within : (lo n x : ℕ) → Bool
within lo n x = leb lo x && ltb x (lo + n)

index_at : (x d i : ℕ) → (x == d + i) ≡ true → x - d ≡ i
index_at x d i e = ground arith

pub copy_bytes-at :
    (n i d s : ℕ) (src dst : Memory) (x : ℕ)
    → copy_bytes n i d s src dst x ≡ (if within (d + i) n x then src (s + (x - d)) else dst x)
unfolding copy_bytes store_byte
copy_bytes-at zero i d s src dst x = ground arith
copy_bytes-at (suc n) i d s src dst x =
    copy_bytes-at n (i + 1) d s src (store_byte (d + i) (src (s + i)) dst) x
    ∙ elim (Bool-cases (x == d + i)) [
      | inl e ↦ ground (arith, ap (λ k. src (s + k)) (index_at x d i e))
      | inr e ↦ ground arith
    ]

-- A read that succeeded, and what it brought
pub record Answered (want : Memory) (o : Option Memory) : Type 0 where
  pub value : Memory
  pub is_some : o ≡ some value
  pub holds : (k : ℕ) → value k ≡ want k

pub copy_bytes-inside :
    (n d s : ℕ) (src dst : Memory) (k : ℕ)
    → k < n
    → copy_bytes n 0 d s src dst (d + k) ≡ src (s + k)
copy_bytes-inside n d s src dst k h =
    let same : d + k - d ≡ k = omega arith in
    copy_bytes-at n 0 d s src dst (d + k)
    ∙ ap (λ j. if within (d + 0) n (d + k) then src (s + j) else dst (d + k)) same
    ∙ ground arith

-- A byte of a buffer that may not be there
abbrev pub at_byte : ℕ → Option Memory → ℕ
at_byte k none = 0
at_byte k (some r) = r k

-- The size of a block on a partition is a multiple of the sector's.
abbrev pub IsSectors : Ext4 → Type 0
IsSectors s = s.block_size ≡ s.block_size / 512 * 512

pub start_of : (block n size : ℕ) → size ≡ n * 512 → block * n * 512 ≡ block * size
start_of block n size e = mul_assoc block n 512 ∙ ap (λ x. block * x) (sym e)

-- The bytes of a block that is read into `buf`
abbrev pub read_into : (size start : ℕ) → (bytes buf : Memory) → Memory
read_into size start bytes buf k = if within 0 size k then bytes (start + k) else buf k

pub move_sector-at :
    (to from : ℕ) (src dst : Memory) (x : ℕ)
    → move_sector to from src dst x
      ≡ (if within (to * 512) 512 x then src (from * 512 + (x - to * 512)) else dst x)
unfolding move_sector
move_sector-at to from src dst x =
    copy_bytes-at 512 0 (to * 512) (from * 512) src dst x ∙ ground arith

sector_index :
    (first i k : ℕ)
    → within (i * 512) 512 k ≡ true
    → (first + i) * 512 + (k - i * 512) ≡ first * 512 + k
sector_index first i k e = ground arith

-- The sector that is read joins those read after it.
joined :
    (left i first : ℕ) (bytes buf : Memory) (k z : ℕ)
    → z ≡ (if within (i * 512) 512 k then bytes ((first + i) * 512 + (k - i * 512)) else buf k)
    → (if within ((i + 1) * 512) (left * 512) k then bytes (first * 512 + k) else z)
      ≡ (if within (i * 512) (suc left * 512) k then bytes (first * 512 + k) else buf k)
joined left i first bytes buf k z h = elim (Bool-cases (within (i * 512) 512 k)) [
  | inl e ↦ ground (arith, ap bytes (sector_index first i k e))
  | inr e ↦ ground arith
]

module _ (answers : ℕ → Bool) where
  read_sectors-fills :
      (left i first : ℕ) (bytes buf r : Memory)
      → read_sectors answers left i first bytes buf ≡ some r
      → (k : ℕ) → r k ≡ (if within (i * 512) (left * 512) k then bytes (first * 512 + k) else buf k)
  unfolding read_sectors
  read_sectors-fills zero i first bytes buf r h k = ground arith
  read_sectors-fills (suc left) i first bytes buf r h k = elim (Bool-cases (answers (first + i))) [
    | inl e ↦
        let later : read_sectors answers left (i + 1) first bytes
              (move_sector i (first + i) bytes buf)
            ≡ some r =
          ground arith in
        read_sectors-fills left (i + 1) first bytes _ r later k
        ∙ joined left i first bytes buf k _ (move_sector-at i (first + i) bytes buf k)
    | inr e ↦ absurd (ground arith)
  ]

  read_sectors-answered :
      (left i first : ℕ) (bytes buf : Memory)
      → ((i : ℕ) → answers i ≡ true)
      → (r : Memory) × (read_sectors answers left i first bytes buf ≡ some r)
  unfolding read_sectors
  read_sectors-answered zero i first bytes buf h = (buf, refl)
  read_sectors-answered (suc left) i first bytes buf h =
      let (r, eq) =
        read_sectors-answered left (i + 1) first bytes (move_sector i (first + i) bytes buf) h in
      (r, ground (arith, h (first + i)))

  pub ext4_read_block-fills :
      (s : Ext4) (block : ℕ) (buf r : Memory)
      → IsSectors s
      → ext4_read_block answers s block buf ≡ some r
      → (k : ℕ) → r k ≡ read_into s.block_size (block * s.block_size) s.bytes buf k
  unfolding ext4_read_block
  ext4_read_block-fills s block buf r sectors h k =
      let start = start_of block (s.block_size / 512) s.block_size sectors in
      elim (Bool-cases s.on_partition) [
        | inl e ↦
            let read : read_sectors answers (s.block_size / 512) 0 (block * (s.block_size / 512))
                  s.bytes buf
                ≡ some r =
              ground arith in
            read_sectors-fills (s.block_size / 512) 0 (block * (s.block_size / 512)) s.bytes buf r
              read k
            ∙ (ap (λ m. if within 0 (s.block_size / 512 * 512) k then s.bytes (m + k) else buf k)
                  start
                ∙ ap (λ n. if within 0 n k then s.bytes (block * s.block_size + k) else buf k)
                    (sym sectors))
        | inr e ↦
            let read : some (copy_bytes s.block_size 0 0 (block * s.block_size) s.bytes buf)
                ≡ some r =
              ground arith in
            ap (at_byte k) (sym read)
            ∙ copy_bytes-at s.block_size 0 0 (block * s.block_size) s.bytes buf k
            ∙ ap
                (λ j. if within 0 s.block_size k then s.bytes (block * s.block_size + j) else buf k)
                (omega arith)
      ]

  pub ext4_read_block-answered :
      (s : Ext4) (block : ℕ) (buf : Memory)
      → ((i : ℕ) → answers i ≡ true)
      → (r : Memory) × (ext4_read_block answers s block buf ≡ some r)
  unfolding ext4_read_block
  ext4_read_block-answered s block buf h = elim (Bool-cases s.on_partition) [
    | inl e ↦
        let (r, eq) =
          read_sectors-answered (s.block_size / 512) 0 (block * (s.block_size / 512)) s.bytes buf
            h in
        (r, ground arith)
    | inr e ↦ (copy_bytes s.block_size 0 0 (block * s.block_size) s.bytes buf, ground arith)
  ]
