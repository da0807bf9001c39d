-- ===== src/Phys/Boot/Aligned.antt =====
-- What the boot loader promises of the entries' bases, and that `physmem_addr_get_tracking` keeps it.
use kernix_os.Base.{
  ℕ, ◌%◌, ◌≡◌, refl, true, ◌&&◌, Option, none, some, List, [], ◌∷◌, arith, leb, Bool-cases, inl,
  inr,
}
use kernix_os.Phys.{page_size}
use kernix_os.Phys.Boot.{
  is_usable, MemmapEntry, first_entry, physmem_addr_get_tracking, or_else, base_or_null,
}

-- The Limine protocol aligns the bases of usable entries to pages.
abbrev pub AreAligned : List MemmapEntry → Type 0
AreAligned [] = Unit
AreAligned (e ∷ es) = (is_usable e.kind ≡ true → e.base % page_size ≡ 0) × AreAligned es

abbrev OnPage : Option ℕ → Type 0
OnPage none = Unit
OnPage (some base) = base % page_size ≡ 0

first_entry-OnPage :
    (floor size : ℕ) (es : List MemmapEntry) → AreAligned es → OnPage (first_entry floor size es)
unfolding first_entry
first_entry-OnPage floor size [] aligned = tt
first_entry-OnPage floor size (e ∷ es) aligned =
    elim (Bool-cases (is_usable e.kind && leb size e.length && leb floor e.base)) [
      | inl fits ↦ rw fits (aligned.0 (ground arith))
      | inr not_here ↦ rw not_here (first_entry-OnPage floor size es aligned.1)
    ]

or_else-OnPage : (a b : Option ℕ) → OnPage a → OnPage b → OnPage (or_else a b)
or_else-OnPage none b ha hb = hb
or_else-OnPage (some x) b ha hb = ha

base_or_null-OnPage : (o : Option ℕ) → OnPage o → base_or_null o % page_size ≡ 0
unfolding base_or_null
base_or_null-OnPage none h = refl
base_or_null-OnPage (some base) h = h

pub tracking_aligned :
    (size : ℕ) (es : List MemmapEntry)
    → AreAligned es
    → physmem_addr_get_tracking size es % page_size ≡ 0
unfolding physmem_addr_get_tracking
tracking_aligned size es aligned = base_or_null-OnPage _ (
    or_else-OnPage _ _ (first_entry-OnPage 0x1000000 size es aligned) (
      or_else-OnPage _ _ (first_entry-OnPage 0x100000 size es aligned)
        (first_entry-OnPage 0 size es aligned)))
