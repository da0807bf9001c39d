-- ===== src/Paging/Room.antt =====
-- Free frames that an allocation of one frame can take, and what is left of them.
use kernix_os.Base.{ℕ, zero, suc, ◌+◌, ◌≤◌, ◌<◌, ◌≡◌, false, inl, inr, Bool-cases, ◌==◌, arith}
use kernix_os.Phys.{Physmem, start_search, mark_used}
use kernix_os.Phys.Mark.{Marked, used_at}
use kernix_os.Phys.Alloc.{Allocated, Outcome}

-- At least `n` frames from `lo` on are free.
abbrev pub Room : ℕ → Physmem → ℕ → Type 0
Room zero p lo = Unit {0}
Room (suc n) p lo = (f : ℕ) × (lo ≤ f) × (f < p.total) × (used_at p f ≡ false) × Room n p (f + 1)

Room-down : (n : ℕ) (p : Physmem) (lo lo' : ℕ) → lo' ≤ lo → Room n p lo → Room n p lo'
Room-down zero p lo lo' h r = tt
Room-down (suc n) p lo lo' h (f, above, below, free, rest) = (f, omega arith, below, free, rest)

module _ (frame : ℕ) {p q : Physmem} (m : Marked mark_used 1 frame p q) where
  Room-above : (n lo : ℕ) → frame < lo → Room n p lo → Room n q lo
  Room-above zero lo h r = tt
  Room-above (suc n) lo h (f, above, below, free, rest) = (
    f,
    above,
    omega (arith, m.same_total),
    ground (arith, m.bits f),
    Room-above n (f + 1) (omega arith) rest,
  )

  -- Taking a frame leaves one fewer.
  pub Room-Marked : (n lo : ℕ) → Room (suc n) p lo → Room n q lo
  Room-Marked zero lo r = tt
  Room-Marked (suc n) lo (f, above, below, free, rest) = elim (Bool-cases (f == frame)) [
    | inl e ↦
        Room-down (suc n) q (f + 1) lo (omega arith)
          (Room-above (suc n) (f + 1) (ground arith) rest)
    | inr e ↦ (
      f,
      above,
      omega (arith, m.same_total),
      ground (arith, m.bits f),
      Room-Marked n (f + 1) rest,
    )
  ]

-- With room for a frame, an allocation of one does not fail.
pub Outcome-Allocated :
    (n : ℕ) {p : Physmem} (addr : ℕ) (q : Physmem)
    → Room (suc n) p start_search
    → Outcome 1 p (addr, q)
    → (0 < addr) × Allocated 1 p addr q
Outcome-Allocated n addr q (f, above, below, free, rest) (inl (z, same, none_free)) =
    absurd (none_free f above (omega arith) (λ i lo hi. ground arith))
Outcome-Allocated n addr q r (inr a) = a

pub Room-fewer : (n : ℕ) (p : Physmem) (lo : ℕ) → Room (suc n) p lo → Room n p lo
Room-fewer zero p lo r = tt
Room-fewer (suc n) p lo (f, above, below, free, rest) =
    (f, above, below, free, Room-fewer n p (f + 1) rest)
