-- ===== src/Paging/Map.antt =====
-- `paging_map_page` maps the page and no other, and the tables stay a tree of frames in use.
use kernix_os.Base.{
  ℕ, suc, ◌/◌, ◌^◌, ◌≤◌, ◌<◌, ◌≡◌, ◌≢◌, refl, ◌∙◌, inl, inr, Bool, true, false, Bool-cases, Option,
  none, some, List, [], ◌∷◌, length, ◌==◌, bit_or, arith,
}
use kernix_os.Base.Panic.{Returns, Returns-bind}
use kernix_os.Phys.{Physmem, page_size, start_search, physmem_alloc_to}
use kernix_os.Phys.Mark.{used_at}
use kernix_os.Phys.Alloc.{Outcome, physmem_alloc_to-Outcome}
use kernix_os.Paging.{
  Paging, page_base, is_present, pt_index, pd_index, pdp_index, pml4_index, new_table, write_entry,
  descend, paging_map_page, is_page_mapped,
}
use kernix_os.Paging.Bits.{is_present-bit_or}
use kernix_os.Paging.Room.{Room, Room-Marked, Room-fewer, Outcome-Allocated}
use kernix_os.Paging.Tree.{reach, path_of, translate, IsTree}
use kernix_os.Paging.Grow.{grown-IsTree, reach-grown_new, translate-grown}
use kernix_os.Paging.Entry.{page_of, written-IsTree, translate-written, translate-written_ne}

-- The table `r.0` at the end of the path, in a state `r.1` that translates as before.
pub record Descended (s : Paging) (path : List ℕ) (n : ℕ) (r : ℕ × Paging) : Type 0 where
  pub tree : IsTree r.1
  pub there : reach r.1.pml4 r.1.entries path ≡ some r.0
  pub same : (w : ℕ) → translate r.1.pml4 r.1.entries w ≡ translate s.pml4 s.entries w
  pub room : Room n r.1.phys start_search

module _ (s : Paging) (tree : IsTree s) (p : List ℕ) (t i n : ℕ) (short : length p ≤ 2)
    (here : reach s.pml4 s.entries p ≡ some t) (room : Room (suc n) s.phys start_search) where
  new_table-Descended :
      is_present (s.entries t i) ≡ false
      → (r : ℕ × Physmem) → Outcome 1 s.phys r
      → Returns (new_table t i s.entries s.pml4 r) (Descended s (i ∷ p) n)
  unfolding new_table
  new_table-Descended absent (addr, phys) o =
      let a = Outcome-Allocated n addr phys room o in
      let free : used_at s.phys (addr / page_size) ≡ false =
        a.1.was_free (addr / page_size) (omega arith) (omega arith) in
      let small : addr / page_size < 2 ^ 40 = omega (arith, a.1.below, tree.small) in
      let nonzero : (addr == 0) ≡ false = ground arith in
      rw nonzero (record {
        tree =
            grown-IsTree s tree p t i addr short here absent free a.1.aligned small phys a.1.marked;
        there = reach-grown_new s tree p t i addr short here absent free a.1.aligned small;
        same = translate-grown s tree p t i addr short here absent free a.1.aligned small;
        room = Room-Marked (addr / page_size) a.1.marked n start_search room;
      })

  follow_present :
      is_present (s.entries t i) ≡ true
      → reach s.pml4 s.entries (i ∷ p) ≡ some (page_base (s.entries t i))
  unfolding reach
  follow_present e = rw here (rw e)

  descend-Descended : Returns (descend t i s) (Descended s (i ∷ p) n)
  unfolding descend
  descend-Descended = elim (Bool-cases (is_present (s.entries t i))) [
    | inl e ↦ rw e (record {
      tree = tree;
      there = follow_present e;
      same = λ w. refl;
      room = Room-fewer n s.phys start_search room;
    })
    | inr e ↦ rw e (
        Returns-bind (physmem_alloc_to 1 s.phys) (new_table t i s.entries s.pml4)
          (Descended s (i ∷ p) n) (physmem_alloc_to-Outcome 1 tree.valid (omega arith))
          (new_table-Descended e))
  ]

-- The state `r` maps the address to the entry, translates all addresses outside its page as `s` does, its
-- tables are a tree of frames in use, and `n` free frames are left.
pub record Mapped (v entry n : ℕ) (s r : Paging) : Type 0 where
  pub tree : IsTree r
  pub mapped : translate r.pml4 r.entries v ≡ some entry
  pub others :
      (w : ℕ) → page_of w ≢ page_of v → translate r.pml4 r.entries w ≡ translate s.pml4 s.entries w
  pub room : Room n r.phys start_search

-- The last table is reached: the entry is written there.
entry-Mapped :
    (v entry n : ℕ) (s : Paging) (pt : ℕ) (s3 : Paging)
    → is_present entry ≡ true
    → ((w : ℕ) → translate s3.pml4 s3.entries w ≡ translate s.pml4 s.entries w)
    → Descended s3 (path_of v) n (pt, s3)
    → Mapped v entry n s (record s3 { entries = write_entry pt (pt_index v) entry s3.entries })
entry-Mapped v entry n s pt s3 present before d = record {
  tree = written-IsTree s3 d.tree v pt entry d.there;
  mapped = translate-written s3 d.tree v pt entry d.there ∙ (rw present refl);
  others = λ w ne. translate-written_ne s3 d.tree v pt entry d.there w ne ∙ before w;
  room = d.room;
}

root-reach : (s : Paging) → reach s.pml4 s.entries [] ≡ some s.pml4
unfolding reach
root-reach s = refl

-- Where the tables are a tree of frames in use and name no large page, and three frames from frame 512
-- on and `n` more are free, `paging_map_page` with flags that say present returns. The address is then
-- translated to the physical page with the flags, every address of another page is translated as
-- before, the tables are such a tree again, and `n` free frames are left.
pub paging_map_page-Mapped :
    (v physical_addr flags n : ℕ) (s : Paging)
    → IsTree s
    → Room (suc (suc (suc n))) s.phys start_search
    → is_present flags ≡ true
    → Returns
        (paging_map_page v physical_addr flags s)
        (Mapped v (bit_or (page_base physical_addr) flags) n s)
unfolding paging_map_page
paging_map_page-Mapped v physical_addr flags n s tree room present =
    let entry = bit_or (page_base physical_addr) flags in
    Returns-bind (descend s.pml4 (pml4_index v) s) _ (Mapped v entry n s)
      (descend-Descended s tree [] s.pml4 (pml4_index v) (suc (suc n)) (omega arith) (root-reach s)
        room)
      λ r1 d1.
        Returns-bind (descend r1.0 (pdp_index v) r1.1) _ (Mapped v entry n s)
          (descend-Descended r1.1 d1.tree (pml4_index v ∷ []) r1.0 (pdp_index v) (suc n)
            (omega arith) d1.there d1.room)
          λ r2 d2.
            Returns-bind (descend r2.0 (pd_index v) r2.1) _ (Mapped v entry n s)
              (descend-Descended r2.1 d2.tree (pdp_index v ∷ pml4_index v ∷ []) r2.0 (pd_index v) n
                (omega arith) d2.there d2.room)
              λ r3 d3.
                entry-Mapped v entry n s r3.0 r3.1 (is_present-bit_or physical_addr flags present)
                  (λ w. d3.same w ∙ d2.same w ∙ d1.same w)
                  (record { tree = d3.tree; there = d3.there; same = λ w. refl; room = d3.room })

abbrev pub is_some : Option ℕ → Bool
is_some none = false
is_some (some e) = true

-- `is_page_mapped` tells whether the address is translated.
pub is_page_mapped-translate :
    (v : ℕ) (s : Paging) → is_page_mapped v s ≡ is_some (translate s.pml4 s.entries v)
unfolding is_page_mapped translate reach
is_page_mapped-translate v s = ground arith
