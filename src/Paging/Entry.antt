-- ===== src/Paging/Entry.antt =====
-- What writing an entry of a page table does to the walks of paging.c.
use kernix_os.Base.{
  ℕ, ◌/◌, ◌%◌, ◌^◌, ◌≤◌, ◌≡◌, ◌≢◌, refl, sym, ap, subst, ◌∙◌, inl, inr, true, false, Option, none,
  some, List, [], ◌∷◌, length, if◌then◌else◌, arith,
}
use kernix_os.Phys.{page_size}
use kernix_os.Paging.{Paging, is_present, pt_index, write_entry}
use kernix_os.Paging.Tree.{
  Entries, path-cases, follow, reach, path_of, entry_in, translate, IsTree, is_huge,
}

-- Addresses of one page have the same indices, and others do not.
unfoldable pub page_of : ℕ → ℕ
page_of v = v / page_size % 2 ^ 36

head : ℕ → List ℕ → ℕ
head d [] = d
head d (x ∷ xs) = x

tail : List ℕ → List ℕ
tail [] = []
tail (x ∷ xs) = xs

pub page_of_path :
    (v w : ℕ) → path_of v ≡ path_of w → pt_index v ≡ pt_index w → page_of v ≡ page_of w
unfolding page_of head tail
page_of_path v w e e' =
    omega (arith, ap (head 0) e, ap (λ p. head 0 (tail p)) e, ap (λ p. head 0 (tail (tail p))) e)

-- The entry `e` for the address `v`, in the page table `t` that its path reaches
module _ (s : Paging) (tree : IsTree s) (v t e : ℕ)
    (here : reach s.pml4 s.entries (path_of v) ≡ some t) where
  abbrev pub written : Entries
  written = write_entry t (pt_index v) e s.entries

  step-written :
      (j : ℕ) (q : List ℕ) (r : Option ℕ)
      → length q ≤ 2
      → reach s.pml4 s.entries q ≡ r
      → follow written j r ≡ follow s.entries j r
  unfolding write_entry
  step-written j q none l h = refl
  step-written j q (some u) l h =
      let apart : u ≢ t = λ k. omega (
        arith,
        ap length
            (tree.distinct q (path_of v) u (omega arith) (omega arith) h (here ∙ ap some (sym k))),
      ) in
      ground arith

  pub reach-written :
      (q : List ℕ) → length q ≤ 3 → reach s.pml4 written q ≡ reach s.pml4 s.entries q
  unfolding reach
  reach-written [] l = refl
  reach-written (j ∷ q) l =
      ap (follow written j) (reach-written q (omega arith))
      ∙ step-written j q (reach s.pml4 s.entries q) (omega arith) refl

  written-above :
      (q : List ℕ) (u j : ℕ)
      → length q ≤ 2
      → reach s.pml4 s.entries q ≡ some u
      → written u j ≡ s.entries u j
  unfolding write_entry
  written-above q u j l h =
      let apart : u ≢ t = λ k. omega (
        arith,
        ap length
            (tree.distinct q (path_of v) u (omega arith) (omega arith) h (here ∙ ap some (sym k))),
      ) in
      ground arith

  pub written-IsTree : IsTree (record s { entries = written })
  written-IsTree = record {
    valid = tree.valid;
    small = tree.small;
    in_use = λ q u l r. tree.in_use q u l (sym (reach-written q l) ∙ r);
    distinct = λ q q' u l l' r r'.
        tree.distinct q q' u l l' (sym (reach-written q l) ∙ r) (sym (reach-written q' l') ∙ r');
    small_pages = λ q u j l r h.
        let before : reach s.pml4 s.entries q ≡ some u = sym (reach-written q (omega arith)) ∙ r in
        let kept : written u j ≡ s.entries u j = written-above q u j l before in
        subst (λ x. is_huge x ≡ false) (sym kept)
          (tree.small_pages q u j l before (subst (λ x. is_present x ≡ true) kept h));
  }

  entry_in-written :
      entry_in written (pt_index v) (some t) ≡ (if is_present e then some e else none)
  unfolding write_entry
  entry_in-written = ground arith

  pub translate-written : translate s.pml4 written v ≡ (if is_present e then some e else none)
  unfolding translate
  translate-written =
      ap (entry_in written (pt_index v)) (reach-written (path_of v) (omega arith) ∙ here)
      ∙ entry_in-written

  entry_in_other :
      (w : ℕ) (r : Option ℕ)
      → page_of w ≢ page_of v
      → reach s.pml4 s.entries (path_of w) ≡ r
      → entry_in written (pt_index w) r ≡ entry_in s.entries (pt_index w) r
  unfolding write_entry
  entry_in_other w none ne h = refl
  entry_in_other w (some u) ne h = elim (path-cases (path_of w) (path_of v)) [
    | inl same ↦
        let apart : pt_index w ≢ pt_index v = λ k. ne (page_of_path w v same k) in ground arith
    | inr other ↦
        let apart : u ≢ t = λ k. other (
          tree.distinct (path_of w) (path_of v) u (omega arith) (omega arith) h
            (here ∙ ap some (sym k))) in
        ground arith
  ]

  pub translate-written_ne :
      (w : ℕ) → page_of w ≢ page_of v → translate s.pml4 written w ≡ translate s.pml4 s.entries w
  unfolding translate
  translate-written_ne w ne =
      ap (entry_in written (pt_index w)) (reach-written (path_of w) (omega arith))
      ∙ entry_in_other w (reach s.pml4 s.entries (path_of w)) ne refl
