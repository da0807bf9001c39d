-- ===== src/Paging/Tree.antt =====
-- The tables that the walks of paging.c reach. A path is
-- the list of the indices that a walk follows, the last of them first.
use kernix_os.Base.{
  ℕ, ◌/◌, ◌%◌, ◌^◌, ◌≤◌, ◌≡◌, ◌≢◌, refl, ap, ◌⊎◌, inl, inr, Bool, true, false, Bool-cases, Option,
  none, some, List, [], ◌∷◌, length, ◌==◌, if◌then◌else◌, arith,
}
use kernix_os.Phys.{page_size}
use kernix_os.Phys.Mark.{IsValid, used_at}
use kernix_os.Paging.{Paging, is_present, pt_index, pd_index, pdp_index, pml4_index, next_table}

abbrev pub Entries : Type 0
Entries = ℕ → ℕ → ℕ

pub same_path : List ℕ → List ℕ → Bool
same_path [] [] = true
same_path [] (j ∷ q) = false
same_path (i ∷ p) [] = false
same_path (i ∷ p) (j ∷ q) = let rest = same_path p q in if i == j then rest else false

pub same_path-true : (p q : List ℕ) → same_path p q ≡ true → p ≡ q
unfolding same_path
same_path-true [] [] e = refl
same_path-true [] (j ∷ q) e = cc
same_path-true (i ∷ p) [] e = cc
same_path-true (i ∷ p) (j ∷ q) e = ground (arith, same_path-true p q)

same_path_self : (p : List ℕ) → same_path p p ≡ true
unfolding same_path
same_path_self [] = refl
same_path_self (i ∷ p) = ground (arith, same_path_self p)

pub path-cases : (p q : List ℕ) → (p ≡ q) ⊎ (p ≢ q)
path-cases p q = elim (Bool-cases (same_path p q)) [
  | inl e ↦ inl (same_path-true p q e)
  | inr e ↦ inr (λ h. ground (arith, same_path_self q, ap (λ x. same_path x q) h))
]

abbrev pub follow : Entries → ℕ → Option ℕ → Option ℕ
follow entries index none = none
follow entries index (some table) = next_table entries index table

-- The table at the end of a path from `root`
unfoldable pub reach : (root : ℕ) → Entries → List ℕ → Option ℕ
reach root entries [] = some root
reach root entries (index ∷ path) = follow entries index (reach root entries path)

abbrev pub path_of : ℕ → List ℕ
path_of v = pd_index v ∷ pdp_index v ∷ pml4_index v ∷ []

abbrev pub entry_in : Entries → ℕ → Option ℕ → Option ℕ
entry_in entries index none = none
entry_in entries index (some table) =
    if is_present (entries table index) then some (entries table index) else none

-- `entry & PTE_HUGE`
abbrev pub is_huge : ℕ → Bool
is_huge entry = entry / 128 % 2 == 1

-- The page table entry that the processor finds for an address, `none` if one on the way is not present. It
-- finds that one where no entry on the way has PTE_HUGE, as in the trees below; what the entries on the way
-- allow (writing, user mode) is left out.
unfoldable pub translate : (root : ℕ) → Entries → ℕ → Option ℕ
unfolding reach
translate root entries v = entry_in entries (pt_index v) (reach root entries (path_of v))

-- The tables are frames in use, no table is reached by two paths, and above the page tables no present entry
-- is that of a large page.
pub record IsTree (s : Paging) : Type 0 where
  pub valid : IsValid s.phys
  pub small : s.phys.total ≤ 2 ^ 40
  pub in_use :
      (q : List ℕ) (t : ℕ)
      → length q ≤ 3
      → reach s.pml4 s.entries q ≡ some t
      → used_at s.phys (t / page_size) ≡ true
  pub distinct :
      (p q : List ℕ) (t : ℕ)
      → length p ≤ 3
      → length q ≤ 3
      → reach s.pml4 s.entries p ≡ some t
      → reach s.pml4 s.entries q ≡ some t
      → p ≡ q
  pub small_pages :
      (q : List ℕ) (t j : ℕ)
      → length q ≤ 2
      → reach s.pml4 s.entries q ≡ some t
      → is_present (s.entries t j) ≡ true
      → is_huge (s.entries t j) ≡ false
