-- ===== src/Paging/Grow.antt =====
-- What a new table and a new entry do to the walks of paging.c.
use kernix_os.Base.{
  ℕ, ◌+◌, ◌/◌, ◌%◌, ◌^◌, ◌≤◌, ◌<◌, ◌≡◌, ◌≢◌, refl, sym, ap, subst, ◌∙◌, ◌⊎◌, inl, inr, true, false,
  Option, none, some, List, [], ◌∷◌, length, arith,
}
use kernix_os.Phys.{Physmem, page_size, mark_used}
use kernix_os.Phys.Mark.{Marked, used_at}
use kernix_os.Paging.{Paging, page_base, is_present, pt_index, write_entry, clear_table}
use kernix_os.Paging.Bits.{page_base-table}
use kernix_os.Paging.Tree.{
  Entries, path-cases, follow, reach, path_of, entry_in, translate, IsTree, is_huge,
}

head : ℕ → List ℕ → ℕ
head d [] = d
head d (x ∷ xs) = x

tail : List ℕ → List ℕ
tail [] = []
tail (x ∷ xs) = xs

-- A new table `f` at the entry `i` of the table `t`, which the path `p` reaches.
module _ (s : Paging) (tree : IsTree s) (p : List ℕ) (t i f : ℕ) (short : length p ≤ 2)
    (here : reach s.pml4 s.entries p ≡ some t) (absent : is_present (s.entries t i) ≡ false)
    (free : used_at s.phys (f / page_size) ≡ false) (aligned : f % page_size ≡ 0)
    (below : f / page_size < 2 ^ 40) where
  abbrev pub grown : Entries
  grown = clear_table f (write_entry t i (page_base f + 3) s.entries)

  t-ne-f : (q : List ℕ) (u : ℕ) → length q ≤ 3 → reach s.pml4 s.entries q ≡ some u → u ≢ f
  t-ne-f q u l r e = ground (arith, tree.in_use q u l r)

  grown_new : follow grown i (some t) ≡ some f
  unfolding clear_table write_entry
  grown_new = ground (arith, t-ne-f p t (omega arith) here, page_base-table f aligned below)

  grown_empty : (j : ℕ) → follow grown j (some f) ≡ none
  unfolding clear_table write_entry
  grown_empty j = ground arith

  grown_other :
      (q : List ℕ) (u j : ℕ)
      → length q ≤ 3
      → reach s.pml4 s.entries q ≡ some u
      → (q ≢ p) ⊎ (j ≢ i)
      → grown u j ≡ s.entries u j
  unfolding clear_table write_entry
  grown_other q u j l r (inl ne) =
      let apart : u ≢ t =
        λ e. ne (tree.distinct q p u l (omega arith) r (here ∙ ap some (sym e))) in
      ground (arith, t-ne-f q u l r)
  grown_other q u j l r (inr ne) = ground (arith, t-ne-f q u l r)

  was_none : reach s.pml4 s.entries (i ∷ p) ≡ none
  unfolding reach
  was_none = rw here (rw absent)

  abbrev Grows : List ℕ → Type 0
  Grows q =
      (q ≡ i ∷ p → reach s.pml4 grown q ≡ some f)
      × (q ≢ i ∷ p → reach s.pml4 grown q ≡ reach s.pml4 s.entries q)

  Grows-new : (j : ℕ) (q : List ℕ) → q ≡ i ∷ p → reach s.pml4 grown q ≡ some f → Grows (j ∷ q)
  unfolding reach
  Grows-new j q e r = (
    λ e'. absurd (omega (arith, ap length e, ap length e')),
    λ _.
        rw r (
          grown_empty j ∙ sym (ap (follow s.entries j) (ap (reach s.pml4 s.entries) e ∙ was_none))),
  )

  differs : (j : ℕ) (q : List ℕ) → j ∷ q ≢ i ∷ p → (q ≢ p) ⊎ (j ≢ i)
  differs j q ne = elim (path-cases q p) [
    | inl e ↦ inr (λ e'. ne (ap (λ x. x ∷ q) e' ∙ ap (λ x. i ∷ x) e))
    | inr e ↦ inl e
  ]

  follow-other :
      (u j : ℕ) → grown u j ≡ s.entries u j → follow grown j (some u) ≡ follow s.entries j (some u)
  follow-other u j e = rw e

  Grows-old :
      (j : ℕ) (q : List ℕ) (r : Option ℕ)
      → length q ≤ 2
      → reach s.pml4 s.entries q ≡ r
      → reach s.pml4 grown q ≡ r
      → Grows (j ∷ q)
  unfolding reach head tail
  Grows-old j q none l e e' = (
    λ h. absurd (
        let same : q ≡ p = ap tail h in
        let r = sym e ∙ ap (reach s.pml4 s.entries) same ∙ here in cc),
    λ _. rw (e, e'),
  )
  Grows-old j q (some u) l e e' = (
    λ h.
        let same : q ≡ p = ap tail h in
        let first : j ≡ i = ap (head 0) h in
        let at : some u ≡ some t = sym e ∙ ap (reach s.pml4 s.entries) same ∙ here in
        ap (λ x. follow grown j x) (e' ∙ at) ∙ ap (λ k. follow grown k (some t)) first ∙ grown_new,
    λ ne. rw (e, e') (follow-other u j (grown_other q u j (omega arith) e (differs j q ne))),
  )

  reach-grown : (q : List ℕ) → length q ≤ 3 → Grows q
  unfolding reach
  reach-grown [] l = (λ e. absurd (omega (arith, ap length e)), λ _. refl)
  reach-grown (j ∷ q) l = elim (path-cases q (i ∷ p)) [
    | inl e ↦ Grows-new j q e ((reach-grown q (omega arith)).0 e)
    | inr ne ↦
        Grows-old j q (reach s.pml4 s.entries q) (omega arith) refl
          ((reach-grown q (omega arith)).1 ne)
  ]

  -- The state with the new table, whose frame the allocator has marked.
  module _ (phys : Physmem) (m : Marked mark_used 1 (f / page_size) s.phys phys) where
    abbrev pub with_table : Paging
    with_table = record { pml4 = s.pml4; entries = grown; phys = phys }

    still_used : (n : ℕ) → used_at s.phys n ≡ true → used_at phys n ≡ true
    still_used n u = ground (arith, m.bits n)

    old_reach :
        (q : List ℕ) (u : ℕ)
        → length q ≤ 3
        → q ≢ i ∷ p
        → reach s.pml4 grown q ≡ some u
        → reach s.pml4 s.entries q ≡ some u
    old_reach q u l ne r = sym ((reach-grown q l).1 ne) ∙ r

    new_reach :
        (q : List ℕ) (u : ℕ) → length q ≤ 3 → q ≡ i ∷ p → reach s.pml4 grown q ≡ some u → u ≡ f
    new_reach q u l e r = let at = sym r ∙ (reach-grown q l).0 e in cc

    small_new : (j : ℕ) → is_present (grown f j) ≡ true → is_huge (grown f j) ≡ false
    unfolding clear_table write_entry
    small_new j h = absurd (ground arith)

    small_entry : is_huge (grown t i) ≡ false
    unfolding clear_table write_entry
    small_entry = ground (arith, t-ne-f p t (omega arith) here)

    small_old :
        (q : List ℕ) (u j : ℕ)
        → length q ≤ 2
        → reach s.pml4 s.entries q ≡ some u
        → is_present (grown u j) ≡ true
        → is_huge (grown u j) ≡ false
    unfolding head tail
    small_old q u j l r h = elim (path-cases (j ∷ q) (i ∷ p)) [
      | inl e ↦
          let same : q ≡ p = ap tail e in
          let first : j ≡ i = ap (head 0) e in
          let at : some u ≡ some t = sym r ∙ ap (reach s.pml4 s.entries) same ∙ here in
          let table : u ≡ t = cc in rw (table, first) small_entry
      | inr ne ↦
          let kept : grown u j ≡ s.entries u j =
            grown_other q u j (omega arith) r (differs j q ne) in
          subst (λ x. is_huge x ≡ false) (sym kept)
            (tree.small_pages q u j l r (subst (λ x. is_present x ≡ true) kept h))
    ]

    pub grown-IsTree : IsTree with_table
    grown-IsTree = record {
      valid = m.valid;
      small = omega (arith, m.same_total, tree.small);
      in_use = λ q u l r. elim (path-cases q (i ∷ p)) [
        | inl e ↦ let at = new_reach q u l e r in ground (arith, m.bits (u / page_size))
        | inr ne ↦ still_used (u / page_size) (tree.in_use q u l (old_reach q u l ne r))
      ];
      distinct = λ q q' u l l' r r'. elim (path-cases q (i ∷ p)) [
        | inl e ↦ elim (path-cases q' (i ∷ p)) [
          | inl e' ↦ e ∙ sym e'
          | inr ne' ↦ absurd (t-ne-f q' u l' (old_reach q' u l' ne' r') (new_reach q u l e r))
        ]
        | inr ne ↦ elim (path-cases q' (i ∷ p)) [
          | inl e' ↦ absurd (t-ne-f q u l (old_reach q u l ne r) (new_reach q' u l' e' r'))
          | inr ne' ↦ tree.distinct q q' u l l' (old_reach q u l ne r) (old_reach q' u l' ne' r')
        ]
      ];
      small_pages = λ q u j l r h. elim (path-cases q (i ∷ p)) [
        | inl e ↦
            let at : u ≡ f = new_reach q u (omega arith) e r in
            subst (λ x. is_huge (grown x j) ≡ false) (sym at)
              (small_new j (subst (λ x. is_present (grown x j) ≡ true) at h))
        | inr ne ↦ small_old q u j l (old_reach q u (omega arith) ne r) h
      ];
    }

  pub reach-grown_new : reach s.pml4 grown (i ∷ p) ≡ some f
  reach-grown_new = (reach-grown (i ∷ p) (omega arith)).0 refl

  pub reach-grown_kept :
      (q : List ℕ) (u : ℕ)
      → length q ≤ 3
      → reach s.pml4 s.entries q ≡ some u
      → reach s.pml4 grown q ≡ some u
  reach-grown_kept q u l r = elim (path-cases q (i ∷ p)) [
    | inl e ↦ absurd (let at = sym r ∙ ap (reach s.pml4 s.entries) e ∙ was_none in cc)
    | inr ne ↦ (reach-grown q l).1 ne ∙ r
  ]

  translate_old :
      (w : ℕ) (r : Option ℕ)
      → reach s.pml4 s.entries (path_of w) ≡ r
      → entry_in grown (pt_index w) r ≡ entry_in s.entries (pt_index w) r
  translate_old w none e = refl
  translate_old w (some u) e =
      let same =
        grown_other (path_of w) u (pt_index w) (omega arith) e
          (inl (λ e'. omega (arith, ap length e'))) in
      rw same

  entry_in_new : (j : ℕ) → entry_in grown j (some f) ≡ none
  unfolding clear_table write_entry
  entry_in_new j = ground arith

  -- No address is translated otherwise than before.
  pub translate-grown : (w : ℕ) → translate s.pml4 grown w ≡ translate s.pml4 s.entries w
  unfolding translate
  translate-grown w = elim (path-cases (path_of w) (i ∷ p)) [
    | inl e ↦
        ap (entry_in grown (pt_index w)) ((reach-grown (path_of w) (omega arith)).0 e)
        ∙ entry_in_new (pt_index w)
        ∙ sym (ap (entry_in s.entries (pt_index w)) (ap (reach s.pml4 s.entries) e ∙ was_none))
    | inr ne ↦
        ap (entry_in grown (pt_index w)) ((reach-grown (path_of w) (omega arith)).1 ne)
        ∙ translate_old w (reach s.pml4 s.entries (path_of w)) refl
  ]
