-- ===== src/Phys/Tests.antt =====
-- Runs of the frame allocator on 520 frames, all free.
use kernix_os.Base.{
  ℕ, zero, suc, ◌*◌, ◌<◌, ◌≡◌, refl, true, arith, replicate, get_or, length-replicate,
}
use kernix_os.Base.Panic.{returns, Returns}
use kernix_os.Phys.{
  Physmem, bitmap_test, bitmap_set, mark_used, mark_frame, mark_each, mark_range,
  physmem_addr_mark_used, scan, take_frames, physmem_alloc_to, physmem_free_to,
}
use kernix_os.Phys.Mark.{IsValid, no_frame, used_at}
use kernix_os.Phys.Alloc.{Outcome, physmem_alloc_to-Outcome, alloc-free}

abbrev all_free : Physmem
all_free = record {
  tracked = true;
  pageframes = replicate 520 no_frame;
  total = 520;
  bitmap = replicate 65 0;
}

replicate-zero : (n i : ℕ) → get_or (replicate n 0) i 0 < 256
replicate-zero zero i = omega arith
replicate-zero (suc n) zero = omega arith
replicate-zero (suc n) (suc i) = replicate-zero n i

all_free-IsValid : IsValid all_free
all_free-IsValid = record {
  tracked = refl;
  bytes = replicate-zero 65;
  covered = omega (arith, length-replicate {A = ℕ} 65 0);
  frames = length-replicate 520 no_frame;
  small = omega arith;
}

abbrev first_four : ℕ
first_four = 512 * 4096

after_four : Physmem
after_four = mark_range mark_used 512 516 all_free

after_six : Physmem
after_six = mark_range mark_used 516 518 after_four

take_four : physmem_alloc_to 4 all_free ≡ returns (first_four, after_four)
unfolding physmem_alloc_to take_frames scan bitmap_test physmem_addr_mark_used after_four
take_four = refl

take_two : physmem_alloc_to 2 after_four ≡ returns (516 * 4096, after_six)
unfolding physmem_alloc_to take_frames scan bitmap_test physmem_addr_mark_used after_four after_six
    mark_range mark_each mark_frame bitmap_set
take_two = refl

physmem_alloc_to-Outcome_example : Returns (physmem_alloc_to 4 all_free) (Outcome 4 all_free)
physmem_alloc_to-Outcome_example = physmem_alloc_to-Outcome 4 all_free-IsValid (omega arith)

alloc-free_example :
    Returns
      (physmem_free_to first_four 4 after_four)
      (λ r. IsValid r × ((i : ℕ) → used_at r i ≡ used_at all_free i))
alloc-free_example =
    alloc-free 4 all_free-IsValid (omega arith) first_four after_four take_four (omega arith)
