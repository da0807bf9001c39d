-- ===== src/Phys/Alloc.antt =====
-- `physmem_alloc_to` and `physmem_free_to` as a client sees them.
use kernix_os.Base.{
  ℕ, ◌+◌, ◌-◌, ◌*◌, ◌/◌, ◌%◌, ◌^◌, ◌≤◌, ◌<◌, ◌≡◌, refl, subst, ◌⊎◌, inl, inr, false, Option, none,
  some, arith, ltb, ◌==◌, if◌then◌else◌, u64,
}
use kernix_os.Base.Panic.{returns, Returns, Returns-bind, Returns-map}
use kernix_os.Phys.{
  Physmem, page_size, mark_free, mark_used, Marking, mark_range, clamp_end, physmem_addr_mark_used,
  physmem_addr_mark_free, scan, start_search, take_frames, physmem_alloc_to, physmem_free_to,
}
use kernix_os.Phys.Mark.{IsValid, Marked, mark_range-Marked, used_at}
use kernix_os.Phys.Scan.{FreeRun, FirstFit, scan-FirstFit'}

-- The two marking calls, on a range of frames that exist.
module _ (frame count : ℕ) {p : Physmem} (v : IsValid p) (fits : frame + count ≤ p.total) where
  exact : clamp_end p.total (u64 (frame + count)) - frame ≡ count
  exact = ground (arith, v.small)

  mark_at :
      (m : Marking) (s : ℕ)
      → s ≡ frame
      → Marked m count frame p (mark_range m s (u64 (s + count)) p)
  mark_at m s e = rw e (
      subst (λ n. Marked m n frame p (mark_range m frame (u64 (frame + count)) p)) exact
        (mark_range-Marked m frame (u64 (frame + count)) v))

  pub mark_used-Marked :
      (addr : ℕ)
      → addr / page_size ≡ frame
      → Returns (physmem_addr_mark_used addr count p) (λ q. Marked mark_used count frame p q)
  unfolding physmem_addr_mark_used
  mark_used-Marked addr e = simp v.tracked (mark_at mark_used (addr / page_size) e)

  pub mark_free-Marked :
      (addr : ℕ)
      → addr / page_size ≡ frame
      → Returns (physmem_addr_mark_free addr count p) (λ q. Marked mark_free count frame p q)
  unfolding physmem_addr_mark_free
  mark_free-Marked addr e = simp v.tracked (mark_at mark_free (addr / page_size) e)

-- A successful allocation of `count` frames.
pub record Allocated (count : ℕ) (p : Physmem) (addr : ℕ) (q : Physmem) : Type 0 where
  pub valid : IsValid q
  pub same_total : q.total ≡ p.total
  pub aligned : addr % page_size ≡ 0
  pub above : start_search ≤ addr / page_size
  pub below : addr / page_size + count ≤ p.total
  pub was_free : FreeRun p.bitmap (addr / page_size) count
  pub lowest : (s : ℕ) → start_search ≤ s → s < addr / page_size → ¬ FreeRun p.bitmap s count
  pub marked : Marked mark_used count (addr / page_size) p q

-- What `physmem_alloc_to` promises: a first-fit allocation, or 0 with nothing changed where no run
-- of free frames is long enough.
abbrev pub Outcome : ℕ → Physmem → ℕ × Physmem → Type 0
Outcome count p (addr, q) =
    ((addr ≡ 0)
      × (q ≡ p)
      × ((s : ℕ) → start_search ≤ s → s + count ≤ p.total → ¬ FreeRun p.bitmap s count))
    ⊎ ((0 < addr) × Allocated count p addr q)

module _ (count : ℕ) {p : Physmem} (v : IsValid p) (pos : 0 < count) where
  take_frames-Outcome :
      (r : Option ℕ)
      → FirstFit p.bitmap count start_search (start_search + (p.total - start_search)) r
      → Returns (take_frames count p r) (Outcome count p)
  unfolding take_frames
  take_frames-Outcome none fit = inl (refl, refl, λ s lo hi. fit s lo (omega arith))
  take_frames-Outcome (some start) (lo, hi, free, lowest) =
      let small : start + count ≤ 2 ^ 52 = omega (arith, v.small) in
      let exact : u64 (start * page_size) ≡ start * page_size = omega arith in
      let frame : start * page_size / page_size ≡ start = omega arith in
      rw exact (
        Returns-bind (physmem_addr_mark_used (start * page_size) count p)
          (λ q. returns (start * page_size, q)) (Outcome count p)
          (mark_used-Marked start count v (omega arith) (start * page_size) frame)
          λ q marked. inr (
            omega arith,
            record {
              valid = marked.valid;
              same_total = marked.same_total;
              aligned = omega arith;
              above = omega arith;
              below = omega arith;
              was_free = rw frame free;
              lowest = rw frame lowest;
              marked = rw frame marked;
            },
          ))

  -- For a valid allocator and a count above 0 the call returns, and either allocates the lowest run
  -- of `count` free frames from frame 512 on, or returns 0 and changes nothing because no such run
  -- exists.
  pub physmem_alloc_to-Outcome : Returns (physmem_alloc_to count p) (Outcome count p)
  unfolding physmem_alloc_to
  physmem_alloc_to-Outcome =
      let nonzero : (count == 0) ≡ false = ground arith in
      rw nonzero (
        take_frames-Outcome (scan count p.bitmap (p.total - start_search) start_search 0 0)
          (scan-FirstFit' p.bitmap count (p.total - start_search) start_search pos))

  -- The outcome of a call that is known to have returned.
  pub alloc-Outcome :
      (addr : ℕ) (q : Physmem)
      → physmem_alloc_to count p ≡ returns (addr, q)
      → Outcome count p (addr, q)
  alloc-Outcome addr q e = subst (λ r. Returns r (Outcome count p)) e physmem_alloc_to-Outcome

  pub alloc-Allocated :
      (addr : ℕ) (q : Physmem)
      → physmem_alloc_to count p ≡ returns (addr, q)
      → 0 < addr
      → Allocated count p addr q
  alloc-Allocated addr q e ne = elim (alloc-Outcome addr q e) [
    | inl z ↦ absurd (omega (arith, z.0))
    | inr a ↦ a.1
  ]

  -- For a valid allocator and a count above 0: after a call that returned an address other than 0,
  -- freeing as many frames at that address returns, leaves the allocator valid, and makes every bit of
  -- the bitmap what it was before the call.
  pub alloc-free :
      (addr : ℕ) (q : Physmem)
      → physmem_alloc_to count p ≡ returns (addr, q)
      → 0 < addr
      → Returns
          (physmem_free_to addr count q)
          (λ r. IsValid r × ((i : ℕ) → used_at r i ≡ used_at p i))
  unfolding physmem_free_to
  alloc-free addr q e ne =
      let a = alloc-Allocated addr q e ne in
      let nonzero : (count == 0) ≡ false = ground arith in
      rw nonzero (
        Returns-map (physmem_addr_mark_free addr count q)
          (mark_free-Marked (addr / page_size) count a.valid (omega (arith, a.same_total, a.below))
            addr refl)
          λ r f. (f.valid, λ i. ground (arith, f.bits i, a.marked.bits i, a.was_free i)))

-- From a valid allocator, two allocations of at least one frame each that follow one another and both
-- return an address other than 0 share no frame.
pub alloc-alloc_disjoint :
    (m n : ℕ) {p q r : Physmem} (a b : ℕ)
    → IsValid p
    → 0 < m
    → 0 < n
    → physmem_alloc_to m p ≡ returns (a, q)
    → physmem_alloc_to n q ≡ returns (b, r)
    → 0 < a
    → 0 < b
    → (a / page_size + m ≤ b / page_size) ⊎ (b / page_size + n ≤ a / page_size)
alloc-alloc_disjoint m n {p} {q} {r} a b v hm hn ea eb ha hb =
    let x = alloc-Allocated m v hm a q ea ha in
    let y = alloc-Allocated n x.valid hn b r eb hb in
    let i = (if ltb (a / page_size) (b / page_size) then b / page_size else a / page_size) in
    ground (arith, x.marked.bits i, y.was_free i)
