-- ===== src/Phys/Boot/Covered.antt =====
-- After `physmem_init` a frame is free only if a usable entry of the memory map holds it and the
-- allocator's own tables do not.
use kernix_os.Base.{
  ℕ, zero, suc, ◌+◌, ◌-◌, ◌*◌, ◌/◌, ◌%◌, ◌^◌, bit_and, ◌≤◌, ◌<◌, ◌≡◌, refl, ◌∙◌, ap, ◌⊎◌, inl, inr,
  subst, true, false, ◌&&◌, Option, none, some, List, [], ◌∷◌, arith, ltb, lt→ltb, leb, ◌==◌,
  if◌then◌else◌, Bool-cases, replicate, u64, length, get_or, length-replicate,
}
use kernix_os.Base.Bytes.{every_below, test_below}
use kernix_os.Base.Panic.{returns, Returns}
use kernix_os.Phys.{
  PageFrame, Physmem, page_size, mark_free, mark_kernel, mark_used, Marking, clamp_end, bitmap_test,
  physmem_addr_mark_used, mark_range,
}
use kernix_os.Phys.Mark.{IsValid, Marked, mark_each-Marked, mark_range-Marked, used_at}
use kernix_os.Phys.Boot.{
  MemmapType, usable, bootloader_reclaimable, other, is_usable, MemmapEntry, mark_entry,
  mark_entries, physmem_addr_mark, first_entry, physmem_addr_get_tracking, or_else, base_or_null,
  used_bytes_to_frame_count, raise, highest_addr, frames_of, bitmap_size, table_bytes, blank,
  physmem_init,
}
use kernix_os.Phys.Boot.Aligned.{AreAligned, tracking_aligned}

-- The entry is usable and frees frame `i`, which need not lie in it at its start.
abbrev Here : MemmapEntry → ℕ → Type 0
Here e i =
    (is_usable e.kind ≡ true) × (e.base / page_size ≤ i) × (i < (e.base + e.length) / page_size)

abbrev Reached : List MemmapEntry → ℕ → Type 0
Reached [] i = ⊥
Reached (e ∷ es) i = Here e i ⊎ Reached es i

-- Every byte of frame `i` lies in one of the usable entries.
abbrev pub Covered : List MemmapEntry → ℕ → Type 0
Covered [] i = ⊥
Covered (e ∷ es) i =
    ((is_usable e.kind ≡ true)
      × (e.base ≤ i * page_size)
      × (i * page_size + page_size ≤ e.base + e.length))
    ⊎ Covered es i

Reached-Covered : (es : List MemmapEntry) (i : ℕ) → AreAligned es → Reached es i → Covered es i
Reached-Covered [] i aligned h = h
Reached-Covered (e ∷ es) i aligned (inl here) =
    let even = aligned.0 here.0 in inl (here.0, omega (arith, even, here.1), omega (arith, here.2))
Reached-Covered (e ∷ es) i aligned (inr later) = inr (Reached-Covered es i aligned.1 later)

-- No entry wraps round the end of the address space.
abbrev pub InRange : List MemmapEntry → Type 0
InRange [] = Unit
InRange (e ∷ es) = (e.base + e.length < 2 ^ 64) × InRange es

-- What a step may free.
record Freed (C : ℕ → Type 0) (p q : Physmem) : Type 0 where
  valid : IsValid q
  same_total : q.total ≡ p.total
  freed : (i : ℕ) → used_at q i ≡ false → (used_at p i ≡ false) ⊎ C i

module _ (e : MemmapEntry) {p : Physmem} (small : e.base + e.length < 2 ^ 64) (v : IsValid p) where
  abbrev marking : Marking
  marking = if is_usable e.kind then mark_free else mark_kernel

  abbrev rounds : ℕ
  rounds = clamp_end p.total (u64 (e.base + e.length) / page_size) - e.base / page_size

  mark_entry-Marked :
      leb p.total (e.base / page_size) ≡ false
      → Marked marking rounds (e.base / page_size) p (mark_entry e p)
  unfolding mark_entry
  mark_entry-Marked inside =
      rw inside (mark_each-Marked marking rounds (e.base / page_size) v (ground arith))

  mark_entry-Freed : Freed (Here e) p (mark_entry e p)
  unfolding mark_entry
  mark_entry-Freed = elim (Bool-cases (leb p.total (e.base / page_size))) [
    | inl behind ↦ rw behind (record { valid = v; same_total = refl; freed = λ i h. inl h })
    | inr inside ↦
        let marked = mark_entry-Marked inside in
        record {
          valid = marked.valid;
          same_total = marked.same_total;
          freed = λ i h. ground (arith, marked.bits i);
        }
  ]

mark_entries-Freed :
    (es : List MemmapEntry) {p : Physmem}
    → InRange es
    → IsValid p
    → Freed (Reached es) p (mark_entries es p)
unfolding mark_entries
mark_entries-Freed [] small v = record { valid = v; same_total = refl; freed = λ i h. inl h }
mark_entries-Freed (e ∷ es) small v =
    let one = mark_entry-Freed e small.0 v in
    let rest = mark_entries-Freed es small.1 one.valid in
    record {
      valid = rest.valid;
      same_total = rest.same_total ∙ one.same_total;
      freed = λ i h. elim (rest.freed i h) [
        | inl before ↦ elim (one.freed i before) [ inl at ↦ inl at | inr here ↦ inr (inl here) ]
        | inr later ↦ inr (inr later)
      ];
    }

get_or-replicate :
    (n i : ℕ) → get_or (replicate n 255) i 0 ≡ (if◌then◌else◌ {A = ℕ} (ltb i n) 255 0)
get_or-replicate zero i = ground arith
get_or-replicate (suc n) zero = ground arith
get_or-replicate (suc n) (suc i) = ground (arith, get_or-replicate n i)

all_ones : (k : ℕ) → k < 8 → (bit_and (255 / 2 ^ k) 1 == 1) ≡ true
unfolding every_below
all_ones k h = test_below 8 (λ k. bit_and (255 / 2 ^ k) 1 == 1) k ones h
  where
    ones : every_below 8 (λ k. bit_and (255 / 2 ^ k) 1 == 1) ≡ true
    ones = refl

length-frames_of : (memory : ℕ → PageFrame) (n at : ℕ) → length (frames_of memory n at) ≡ n
unfolding frames_of
length-frames_of memory zero at = refl
length-frames_of memory (suc n) at = ap suc (length-frames_of memory n (at + 1))

module _ (memory : ℕ → PageFrame) (total : ℕ) where
  blank-IsValid : total ≤ 2 ^ 52 → IsValid (blank memory total)
  unfolding blank
  blank-IsValid small = record {
    tracked = refl;
    bytes = λ i. ground (arith, get_or-replicate (bitmap_size total) i);
    covered = omega (arith, length-replicate {A = ℕ} (bitmap_size total) 255);
    frames = length-frames_of memory total 0;
    small = small;
  }

  total-blank : (blank memory total).total ≡ total
  unfolding blank
  total-blank = refl

  tracked-blank : (blank memory total).tracked ≡ true
  unfolding blank
  tracked-blank = refl

  -- after the `memset` every frame counts as used
  blank-used : (i : ℕ) → i < total → used_at (blank memory total) i ≡ true
  unfolding blank bitmap_test
  blank-used i h =
      rw (get_or-replicate (bitmap_size total) (i / 8))
        (rw (lt→ltb (i / 8) (bitmap_size total) (omega arith)) (all_ones (i % 8) (omega arith)))

-- What `physmem_init` leaves behind: the tables at `addr` are in use, and a free frame is usable memory.
pub record Booted (es : List MemmapEntry) (addr : ℕ) (p : Physmem) : Type 0 where
  pub valid : IsValid p
  pub tables_used :
      (i : ℕ)
      → addr < i * page_size + page_size
      → i * page_size < addr + table_bytes p.total
      → i < p.total
      → used_at p i ≡ true
  pub free_usable : (i : ℕ) → i < p.total → used_at p i ≡ false → Covered es i

raise_lt :
    (k : MemmapType) (end highest : ℕ)
    → end < 2 ^ 64
    → highest < 2 ^ 64
    → raise k end highest < 2 ^ 64
unfolding raise
raise_lt usable end highest he h = ground arith
raise_lt other end highest he h = h
raise_lt bootloader_reclaimable end highest he h = ground arith

highest_addr_lt :
    (highest : ℕ) (es : List MemmapEntry) → highest < 2 ^ 64 → highest_addr highest es < 2 ^ 64
unfolding highest_addr
highest_addr_lt highest [] h = h
highest_addr_lt highest (e ∷ es) h =
    highest_addr_lt (raise e.kind (u64 (e.base + e.length)) highest) es
      (raise_lt e.kind (u64 (e.base + e.length)) highest (omega arith) h)

abbrev IsAddress : Option ℕ → Type 0
IsAddress none = Unit
IsAddress (some base) = base < 2 ^ 64

first_entry-IsAddress :
    (floor size : ℕ) (es : List MemmapEntry) → InRange es → IsAddress (first_entry floor size es)
unfolding first_entry
first_entry-IsAddress floor size [] small = tt
first_entry-IsAddress floor size (e ∷ es) small =
    elim (Bool-cases (is_usable e.kind && leb size e.length && leb floor e.base)) [
      | inl fits ↦ rw fits (omega arith)
      | inr not_fits ↦ rw not_fits (first_entry-IsAddress floor size es small.1)
    ]

or_else-IsAddress : (a b : Option ℕ) → IsAddress a → IsAddress b → IsAddress (or_else a b)
or_else-IsAddress none b ha hb = hb
or_else-IsAddress (some x) b ha hb = ha

base_or_null_lt : (o : Option ℕ) → IsAddress o → base_or_null o < 2 ^ 64
unfolding base_or_null
base_or_null_lt none h = omega arith
base_or_null_lt (some base) h = h

tracking_lt :
    (size : ℕ) (es : List MemmapEntry) → InRange es → physmem_addr_get_tracking size es < 2 ^ 64
unfolding physmem_addr_get_tracking
tracking_lt size es small = base_or_null_lt _ (
    or_else-IsAddress _ _ (first_entry-IsAddress 0x1000000 size es small) (
      or_else-IsAddress _ _ (first_entry-IsAddress 0x100000 size es small)
        (first_entry-IsAddress 0 size es small)))

mark_eq_returns :
    (es : List MemmapEntry) (p : Physmem)
    → p.tracked ≡ true
    → physmem_addr_mark es p ≡ returns (mark_entries es p)
unfolding physmem_addr_mark
mark_eq_returns es p h = ground arith

mark_used_eq_returns :
    (addr count : ℕ) (p : Physmem)
    → p.tracked ≡ true
    → physmem_addr_mark_used addr count p
      ≡ returns (mark_range mark_used (addr / page_size) (u64 (addr / page_size + count)) p)
unfolding physmem_addr_mark_used
mark_used_eq_returns addr count p h = ground arith

used_bytes_lt :
    (total : ℕ) → total ≤ 2 ^ 52 → used_bytes_to_frame_count (table_bytes total) < 2 ^ 44
unfolding used_bytes_to_frame_count
used_bytes_lt total h = omega arith

-- A frame with a byte of the tables is one of those that are marked.
table_frame :
    (total addr i : ℕ)
    → addr % page_size ≡ 0
    → total ≤ 2 ^ 52
    → addr < i * page_size + page_size
    → i * page_size < addr + table_bytes total
    → (addr / page_size ≤ i)
      × (i < addr / page_size + used_bytes_to_frame_count (table_bytes total))
unfolding used_bytes_to_frame_count
table_frame total addr i even bounded low high = (omega arith, omega arith)

-- The last step of `physmem_init`, which marks the tables' own frames.
module _ (es : List MemmapEntry) (addr : ℕ) {p : Physmem} (v : IsValid p) (small : addr < 2 ^ 64)
    (even : addr % page_size ≡ 0)
    (covered : (i : ℕ) → i < p.total → used_at p i ≡ false → Covered es i) where
  tables_marked :
      (total : ℕ)
      → total ≤ 2 ^ 52
      → p.total ≡ total
      → let count = used_bytes_to_frame_count (table_bytes total) in
        Booted es addr (mark_range mark_used (addr / page_size) (u64 (addr / page_size + count)) p)
  tables_marked total bounded same =
      let count = used_bytes_to_frame_count (table_bytes total) in
      let m = mark_range-Marked mark_used (addr / page_size) (u64 (addr / page_size + count)) v in
      record {
        valid = m.valid;
        tables_used = λ i lo hi h.
            let same' : (mark_range mark_used (addr / page_size) (u64 (addr / page_size + count))
                  p).total
                ≡ total =
              m.same_total ∙ same in
            let at =
              table_frame total addr i even bounded lo
                (subst (λ t. i * page_size < addr + table_bytes t) same' hi) in
            ground (
              arith,
              m.bits i,
              ap (λ t. used_bytes_to_frame_count (table_bytes t)) (m.same_total ∙ same),
              m.same_total,
              v.small,
              used_bytes_lt total,
            );
        free_usable =
            λ i h unused. covered i (omega (arith, m.same_total)) (ground (arith, m.bits i));
      }

abbrev pub tables_at : List MemmapEntry → ℕ
tables_at es = physmem_addr_get_tracking (table_bytes (highest_addr 0 es / page_size)) es

-- If no entry of the memory map wraps round the end of the address space, the usable ones start at a page
-- and one of them, not at address 0, holds the tables, `physmem_init` returns; then the allocator is valid,
-- each frame with a byte of the tables is in use and every byte of a free frame lies in a usable entry.
pub physmem_init-Booted :
    (memory : ℕ → PageFrame) (es : List MemmapEntry)
    → InRange es
    → AreAligned es
    → 0 < tables_at es
    → Returns (physmem_init memory es) (Booted es (tables_at es))
unfolding physmem_init
physmem_init-Booted memory es small aligned found =
    let total : ℕ = highest_addr 0 es / page_size in
    let bounded : total ≤ 2 ^ 52 = omega (arith, highest_addr_lt 0 es (omega arith)) in
    let nonzero : (tables_at es == 0) ≡ false = ground arith in
    let kept = mark_entries-Freed es small (blank-IsValid memory total bounded) in
    let same = kept.same_total ∙ total-blank memory total in
    let count = used_bytes_to_frame_count (table_bytes total) in
    rw
      (
        nonzero,
        mark_eq_returns es (blank memory total) (tracked-blank memory total),
        mark_used_eq_returns (tables_at es) count (mark_entries es (blank memory total))
            kept.valid.tracked,
      )
      (tables_marked es (tables_at es) kept.valid (tracking_lt _ es small)
        (tracking_aligned _ es aligned)
        (λ i h unused. elim (kept.freed i unused) [
          | inl before ↦ cc (blank-used memory total i (omega (arith, same)), before)
          | inr c ↦ Reached-Covered es i aligned c
        ])
        total bounded same)
