-- ===== src/Paging/Tests.antt =====
-- Mapping from one empty table at frame 1, with the frames from 2 on free.
use kernix_os.Base.{
  ℕ, zero, suc, ◌/◌, ◌<◌, ◌≡◌, refl, true, Option, none, some, List, [], ◌∷◌, replicate, get_or,
  bit_or, length-replicate, arith,
}
use kernix_os.Base.Panic.{Returns, panics}
use kernix_os.Phys.{Physmem, page_size, bitmap_test, start_search}
use kernix_os.Phys.Mark.{IsValid, no_frame, used_at}
use kernix_os.Paging.{Paging, page_base, paging_map_page, map_frames, is_page_mapped, clear_bytes}
use kernix_os.Paging.Room.{Room}
use kernix_os.Paging.Tree.{reach, follow, IsTree}
use kernix_os.Paging.Map.{Mapped, paging_map_page-Mapped}
use kernix_os.Paging.Region.{RegionMapped, map_frames-RegionMapped}

abbrev frames : Physmem
frames = record {
  tracked = true;
  pageframes = replicate 520 no_frame;
  total = 520;
  bitmap = 2 ∷ replicate 64 0;
}

replicate-zero : (n i : ℕ) → get_or (replicate n 0) i 0 < 256
replicate-zero zero i = omega arith
replicate-zero (suc n) zero = omega arith
replicate-zero (suc n) (suc i) = replicate-zero n i

bytes : (i : ℕ) → get_or (2 ∷ replicate 64 0) i 0 < 256
bytes zero = omega arith
bytes (suc i) = replicate-zero 64 i

frames-IsValid : IsValid frames
frames-IsValid = record {
  tracked = refl;
  bytes = bytes;
  covered = omega (arith, length-replicate {A = ℕ} 64 0);
  frames = length-replicate 520 no_frame;
  small = omega arith;
}

abbrev empty : Paging
empty = record { pml4 = 4096; entries = λ t i. 0; phys = frames }

follow-none : (i : ℕ) (r : Option ℕ) → follow (λ t i. 0) i r ≡ none
follow-none i none = refl
follow-none i (some t) = refl

reach-none : (i : ℕ) (q : List ℕ) → reach 4096 (λ t i. 0) (i ∷ q) ≡ none
unfolding reach
reach-none i q = follow-none i (reach 4096 (λ t i. 0) q)

empty-in_use :
    (q : List ℕ) (t : ℕ) → reach 4096 (λ t i. 0) q ≡ some t → used_at frames (t / page_size) ≡ true
unfolding reach bitmap_test
empty-in_use [] t r = let root : t ≡ 4096 = cc in rw root
empty-in_use (i ∷ q) t r = absurd (let n = reach-none i q in cc)

empty-distinct :
    (p q : List ℕ) (t : ℕ)
    → reach 4096 (λ t i. 0) p ≡ some t
    → reach 4096 (λ t i. 0) q ≡ some t
    → p ≡ q
empty-distinct [] [] t r r' = refl
empty-distinct [] (i ∷ q) t r r' = absurd (let n = reach-none i q in cc)
empty-distinct (i ∷ p) q t r r' = absurd (let n = reach-none i p in cc)

empty-IsTree : IsTree empty
empty-IsTree = record {
  valid = frames-IsValid;
  small = omega arith;
  in_use = λ q t l r. empty-in_use q t r;
  distinct = λ p q t l l' r r'. empty-distinct p q t r r';
  small_pages = λ q t j l r h. refl;
}

six_free : Room 6 frames start_search
unfolding bitmap_test
six_free = (
  512,
  omega arith,
  omega arith,
  refl,
  (
    513,
    omega arith,
    omega arith,
    refl,
    (
      514,
      omega arith,
      omega arith,
      refl,
      (
        515,
        omega arith,
        omega arith,
        refl,
        (516, omega arith, omega arith, refl, (517, omega arith, omega arith, refl, tt)),
      ),
    ),
  ),
)

paging_map_page-Mapped_example :
    Returns
      (paging_map_page 0x40001000 0x5000 3 empty)
      (Mapped 0x40001000 (bit_or (page_base 0x5000) 3) 3 empty)
paging_map_page-Mapped_example =
    paging_map_page-Mapped 0x40001000 0x5000 3 3 empty empty-IsTree six_free refl

map_frames-RegionMapped_example :
    Returns (map_frames 2 0 0x5000 0x40001000 empty) (RegionMapped 2 0 0x5000 0x40001000 0 empty)
map_frames-RegionMapped_example =
    map_frames-RegionMapped 0x5000 0x40001000 0 2 0 empty empty-IsTree (omega arith) (omega arith)
      (omega arith) six_free

-- A page that is not mapped faults when it is cleared.
faults : clear_bytes 1 0x40001000 empty ≡ panics
unfolding clear_bytes is_page_mapped
faults = refl
