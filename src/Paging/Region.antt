-- ===== src/Paging/Region.antt =====
-- The loop of `map_region` maps the pages of a region one by one to consecutive physical pages.
use kernix_os.Base.{
  ℕ, zero, suc, ◌+◌, ◌*◌, ◌^◌, ◌≤◌, ◌<◌, ◌≡◌, ◌≢◌, refl, ◌∙◌, inl, inr, Bool-cases, some, ◌==◌,
  bit_or, arith, u64,
}
use kernix_os.Base.Panic.{Returns, Returns-bind, Returns-map}
use kernix_os.Phys.{page_size, start_search}
use kernix_os.Paging.{Paging, page_base, paging_map_page, map_frames}
use kernix_os.Paging.Room.{Room}
use kernix_os.Paging.Tree.{translate, IsTree}
use kernix_os.Paging.Entry.{page_of}
use kernix_os.Paging.Map.{Mapped, paging_map_page-Mapped}

-- The `frames` pages from the `i`-th of the region on are mapped, and no address outside them.
pub record RegionMapped (frames i phys virt n : ℕ) (s r : Paging) : Type 0 where
  pub tree : IsTree r
  pub mapped :
      (j : ℕ)
      → i ≤ j
      → j < i + frames
      → translate r.pml4 r.entries (virt + j * page_size)
        ≡ some (bit_or (page_base (phys + j * page_size)) 3)
  pub others :
      (w : ℕ)
      → ((j : ℕ) → i ≤ j → j < i + frames → page_of w ≢ page_of (virt + j * page_size))
      → translate r.pml4 r.entries w ≡ translate s.pml4 s.entries w
  pub room : Room n r.phys start_search

-- Three free frames are enough for each page.
abbrev pub frames_for : ℕ → ℕ → ℕ
frames_for zero n = n
frames_for (suc frames) n = suc (suc (suc (frames_for frames n)))

page_of-apart :
    (virt i j : ℕ)
    → i < j
    → j < i + 2 ^ 36
    → page_of (virt + i * page_size) ≢ page_of (virt + j * page_size)
unfolding page_of
page_of-apart virt i j l h e = omega arith

module _ (phys virt n : ℕ) where
  first_then :
      (frames i : ℕ) (s m r : Paging)
      → suc frames ≤ 2 ^ 36
      → Mapped
          (virt + i * page_size)
          (bit_or (page_base (phys + i * page_size)) 3)
          (frames_for frames n)
          s
          m
      → RegionMapped frames (i + 1) phys virt n m r
      → RegionMapped (suc frames) i phys virt n s r
  first_then frames i s m r fits first rest = record {
    tree = rest.tree;
    mapped = λ j lo hi. elim (Bool-cases (j == i)) [
      | inl e ↦
          let same : j ≡ i = ground arith in
          rw same (
            rest.others (virt + i * page_size)
              (λ k lo' hi'. page_of-apart virt i k (omega arith) (omega arith))
            ∙ first.mapped)
      | inr e ↦ rest.mapped j (ground arith) (omega arith)
    ];
    others = λ w out.
        rest.others w (λ j lo hi. out j (omega arith) (omega arith))
        ∙ first.others w (out i (omega arith) (omega arith));
    room = rest.room;
  }

  -- The loop of `map_region` over `frames` pages of a region from page `i` on. Where the tables are a
  -- tree of frames in use and name no large page, with three free frames from frame 512 on for each
  -- page and `n` more, for at most 2 ^ 36 pages that end at 2 ^ 64 at most, as their frames do, the
  -- loop returns. Each page is then translated to the physical page at the same distance from `phys` by
  -- an entry that is present and writable, every address outside these pages is translated as before,
  -- the tables are such a tree again, and `n` free frames are left. The clearing of the region that
  -- follows in `map_region` is not part of this.
  pub map_frames-RegionMapped :
      (frames i : ℕ) (s : Paging)
      → IsTree s
      → frames ≤ 2 ^ 36
      → virt + (i + frames) * page_size ≤ 2 ^ 64
      → phys + (i + frames) * page_size ≤ 2 ^ 64
      → Room (frames_for frames n) s.phys start_search
      → Returns (map_frames frames i phys virt s) (RegionMapped frames i phys virt n s)
  unfolding map_frames
  map_frames-RegionMapped zero i s tree few fits fits' room = record {
    tree = tree;
    mapped = λ j lo hi. absurd (omega arith);
    others = λ w out. refl;
    room = room;
  }
  map_frames-RegionMapped (suc frames) i s tree few fits fits' room =
      let v : u64 (virt + i * page_size) ≡ virt + i * page_size = omega arith in
      let p : u64 (phys + i * page_size) ≡ phys + i * page_size = omega arith in
      rw (v, p)
        (Returns-bind (paging_map_page (virt + i * page_size) (phys + i * page_size) 3 s)
          (map_frames frames (i + 1) phys virt) (RegionMapped (suc frames) i phys virt n s)
          (paging_map_page-Mapped (virt + i * page_size) (phys + i * page_size) 3
            (frames_for frames n) s tree room refl)
          λ m first.
            Returns-map (map_frames frames (i + 1) phys virt m)
              (map_frames-RegionMapped frames (i + 1) m first.tree (omega arith) (omega arith)
                (omega arith) first.room)
              λ r rest. first_then frames i s m r (omega arith) first rest)
