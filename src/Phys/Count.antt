-- ===== src/Phys/Count.antt =====
-- `physmem_free_get` counts the free frames, and an allocation takes exactly its frames off it.
use kernix_os.Base.{
  ℕ, zero, suc, ◌+◌, ◌-◌, ◌≤◌, ◌<◌, ◌≡◌, false, List, arith, if◌then◌else◌, min, ap,
}
use Prim.Native.Nat.{max}
use kernix_os.Base.Panic.{returns}
use kernix_os.Phys.{Physmem, bitmap_test, free_from, physmem_free_get, physmem_alloc_to, mark_used}
use kernix_os.Phys.Mark.{IsValid, Marked, used_at}
use kernix_os.Phys.Alloc.{alloc-Allocated}

-- the free frames among the `n` from `frame` on
free_count : List ℕ → ℕ → ℕ → ℕ
free_count bitmap zero frame = 0
free_count bitmap (suc n) frame =
    (if bitmap_test bitmap frame then 0 else 1) + free_count bitmap n (frame + 1)

free_from-eq-add :
    (bitmap : List ℕ) (n frame count : ℕ)
    → free_from bitmap n frame count ≡ count + free_count bitmap n frame
unfolding free_from free_count
free_from-eq-add bitmap zero frame count = omega arith
free_from-eq-add bitmap (suc n) frame count = ground (
  arith,
  free_from-eq-add bitmap n (frame + 1) (count + 1),
  free_from-eq-add bitmap n (frame + 1) count,
)

module _ {count start : ℕ} {p q : Physmem} (marked : Marked mark_used count start p q)
    (was_free : (i : ℕ) → start ≤ i → i < start + count → used_at p i ≡ false) where
  -- the frames from `frame` to `frame + n` that lie in the marked range
  overlap : ℕ → ℕ → ℕ
  overlap n frame = min (frame + n) (start + count) - max frame start

  free_count-marked :
      (n frame : ℕ) → free_count q.bitmap n frame + overlap n frame ≡ free_count p.bitmap n frame
  unfolding free_count overlap
  free_count-marked zero frame = omega arith
  free_count-marked (suc n) frame =
      ground (arith, marked.bits frame, was_free frame, free_count-marked n (frame + 1))

-- After a call on a valid allocator that returned `count` frames, at least one, at an address other
-- than 0, `physmem_free_get` reports `count` fewer.
pub free_get-alloc :
    (count addr : ℕ) {p q : Physmem}
    → IsValid p
    → 0 < count
    → physmem_alloc_to count p ≡ returns (addr, q)
    → 0 < addr
    → physmem_free_get q + count ≡ physmem_free_get p
unfolding physmem_free_get overlap
free_get-alloc count addr {p} {q} v pos e ne =
    let a = alloc-Allocated count v pos addr q e ne in
    omega (
      arith,
      a.same_total,
      a.below,
      free_from-eq-add q.bitmap q.total 0 0,
      free_from-eq-add p.bitmap p.total 0 0,
      ap (λ t. free_count q.bitmap t 0) a.same_total,
      free_count-marked a.marked a.was_free p.total 0,
    )
