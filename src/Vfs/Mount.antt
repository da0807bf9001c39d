-- ===== src/Vfs/Mount.antt =====
-- A path belongs to the mount with the longest path that is a prefix of it.
use kernix_os.Base.{
  ℕ, ◌≤◌, ◌<◌, ◌≡◌, refl, ◌∙◌, ◌⊎◌, inl, inr, Bool, true, ◌&&◌, Option, none, some, List, [], ◌∷◌,
  ltb, if◌then◌else◌, arith, Bool-cases,
}
use kernix_os.Str.{str_len, str_starts_with}
use kernix_os.Vfs.{FsMnt, Vfs, find_mnt_from, find_mnt}

-- The mount is active, and its path is a prefix.
abbrev pub Covers : List ℕ → FsMnt → Type 0
Covers path m = (m.active ≡ true) × (str_starts_with path m.path ≡ true)

-- No mount of the list that covers the path has a path longer than `len`.
abbrev pub NoLonger : List ℕ → ℕ → List FsMnt → Type 0
NoLonger path len [] = Unit
NoLonger path len (m ∷ ms) = (Covers path m → str_len m.path ≤ len) × NoLonger path len ms

abbrev pub Member : FsMnt → List FsMnt → Type 0
Member m [] = ⊥
Member m (x ∷ xs) = (m ≡ x) ⊎ Member m xs

pub record Longest (path : List ℕ) (above : ℕ) (ms : List FsMnt) (m : FsMnt) : Type 0 where
  pub member : Member m ms
  pub covers : Covers path m
  pub longer : above < str_len m.path
  pub longest : NoLonger path (str_len m.path) ms

-- What the search found from `ms` on, with `best` found before.
abbrev Searched : List ℕ → Option FsMnt → ℕ → List FsMnt → Option FsMnt → Type 0
Searched path best best_len ms r =
    ((r ≡ best) × NoLonger path best_len ms)
    ⊎ ((m : FsMnt) × (r ≡ some m) × Longest path best_len ms m)

abbrev is_better : List ℕ → ℕ → FsMnt → Bool
is_better path best_len m =
    m.active && (ltb best_len (str_len m.path) && str_starts_with path m.path)

mount_step :
    (path : List ℕ) (best : Option FsMnt) (best_len : ℕ) (m : FsMnt) (ms : List FsMnt)
    → find_mnt_from path best best_len (m ∷ ms) ≡ (
        if is_better path best_len m
        then find_mnt_from path (some m) (str_len m.path) ms
        else find_mnt_from path best best_len ms)
unfolding find_mnt_from
mount_step path best best_len m ms = elim (Bool-cases m.active) [
  | inl active ↦ simp active refl
  | inr idle ↦ simp idle refl
]

find_mnt_from-Searched :
    (path : List ℕ) (best : Option FsMnt) (best_len : ℕ) (ms : List FsMnt)
    → Searched path best best_len ms (find_mnt_from path best best_len ms)
unfolding find_mnt_from
find_mnt_from-Searched path best best_len [] = inl (refl, tt)
find_mnt_from-Searched path best best_len (m ∷ ms) =
    let step = mount_step path best best_len m ms in
    elim (Bool-cases (is_better path best_len m)) [
      | inl better ↦
          let active : m.active ≡ true = ground arith in
          let prefix : str_starts_with path m.path ≡ true = ground arith in
          let above : best_len < str_len m.path = ground arith in
          let here = step ∙ rw better refl in
          elim (find_mnt_from-Searched path (some m) (str_len m.path) ms) [
            | inl (e, shorter) ↦ inr (
              m,
              here ∙ e,
              record {
                member = inl refl;
                covers = (active, prefix);
                longer = above;
                longest = ((λ c. omega arith), shorter);
              },
            )
            | inr (x, e, l) ↦ inr (
              x,
              here ∙ e,
              record {
                member = inr l.member;
                covers = l.covers;
                longer = omega (arith, l.longer);
                longest = ((λ c. omega (arith, l.longer)), l.longest);
              },
            )
          ]
      | inr worse ↦
          let here = step ∙ rw worse refl in
          elim (find_mnt_from-Searched path best best_len ms) [
            | inl (e, shorter) ↦ inl (here ∙ e, ((λ c. let (a, p) = c in ground arith), shorter))
            | inr (x, e, l) ↦ inr (
              x,
              here ∙ e,
              record {
                member = inr l.member;
                covers = l.covers;
                longer = l.longer;
                longest = ((λ c. let (a, p) = c in ground (arith, l.longer)), l.longest);
              },
            )
          ]
    ]

-- `find_mnt` gives a mount that is active, whose path is not empty and a prefix of the given one, and
-- no active mount's path that is a prefix is longer; or NULL, and then no such path is a prefix.
pub find_mnt-Longest :
    (path : List ℕ) (v : Vfs)
    → ((find_mnt path v ≡ none) × NoLonger path 0 v.mnts)
      ⊎ ((m : FsMnt) × (find_mnt path v ≡ some m) × Longest path 0 v.mnts m)
unfolding find_mnt
find_mnt-Longest path v = find_mnt_from-Searched path none 0 v.mnts
