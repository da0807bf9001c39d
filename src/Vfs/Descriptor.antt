-- ===== src/Vfs/Descriptor.antt =====
-- Descriptors: the lowest free one is given out, and it names its file until it is freed.
use kernix_os.Base.{
  ℕ, zero, suc, ◌+◌, ◌≤◌, ◌<◌, ◌≡◌, refl, ◌≢◌, ◌∙◌, ap, sym, subst, true, false, Option, none, some,
  List, length, get_or, set, get_or-set_self, get_or-set_ne, length-set, ltb, leb, ◌==◌,
  if◌then◌else◌, arith, Bool-cases, inl, inr,
}
use kernix_os.Vfs.{Vfs, alloc_fd_from, fs_alloc_fd, fs_free_fd, fs_get_file}

-- All descriptors from `i` up to `k` are taken.
abbrev pub Taken : ℕ → ℕ → List ℕ → Type 0
Taken i k fds = (j : ℕ) → i ≤ j → j < k → get_or fds j 0 ≢ 0

abbrev pub Lowest : (i end file : ℕ) → List ℕ → Option ℕ × List ℕ → Type 0
Lowest i end file fds (none, fds') = Taken i end fds × (fds' ≡ fds)
Lowest i end file fds (some k, fds') =
    (i ≤ k) × (k < end) × (get_or fds k 0 ≡ 0) × Taken i k fds × (fds' ≡ set fds k file)

Lowest-further :
    (i end file : ℕ) (fds : List ℕ) (r : Option ℕ × List ℕ)
    → get_or fds i 0 ≢ 0
    → Lowest (i + 1) end file fds r
    → Lowest i end file fds r
Lowest-further i end file fds (none, fds') ne (taken, same) =
    ((λ j le lt. taken_from j le lt), same)
  where
    taken_from : Taken i end fds
    taken_from j le lt = elim (Bool-cases (j == i)) [
      | inl here ↦ ground arith
      | inr behind ↦ taken j (ground arith) lt
    ]
Lowest-further i end file fds (some k, fds') ne (le, lt, free, taken, same) =
    (omega arith, lt, free, taken_from, same)
  where
    taken_from : Taken i k fds
    taken_from j le' lt' = elim (Bool-cases (j == i)) [
      | inl here ↦ ground arith
      | inr behind ↦ taken j (ground arith) lt'
    ]

alloc_fd_from-Lowest :
    (left i file : ℕ) (fds : List ℕ) → Lowest i (i + left) file fds (alloc_fd_from left i file fds)
unfolding alloc_fd_from
alloc_fd_from-Lowest zero i file fds = ((λ j le lt. absurd (omega arith)), refl)
alloc_fd_from-Lowest (suc left) i file fds = elim (Bool-cases (get_or fds i 0 == 0)) [
  | inl free ↦
      rw free (omega arith, omega arith, ground arith, (λ j le lt. absurd (omega arith)), refl)
  | inr used ↦ rw used (
      Lowest-further i (i + suc left) file fds _ (ground arith) (
        subst (λ e. Lowest (i + 1) e file fds (alloc_fd_from left (i + 1) file fds)) (omega arith)
          (alloc_fd_from-Lowest left (i + 1) file fds)))
]

-- What `fs_alloc_fd` did: the descriptor is the lowest free one from 3 on, and names the file, and no
-- other descriptor changed; or all from 3 to 63 are taken, and nothing changed.
abbrev pub Opened : ℕ → Vfs → Option ℕ × Vfs → Type 0
Opened file v (none, v') = Taken 3 64 v.fds × (v'.fds ≡ v.fds)
Opened file v (some k, v') =
    (3 ≤ k)
    × (k < 64)
    × (fs_get_file k v ≡ 0)
    × Taken 3 k v.fds
    × (fs_get_file k v' ≡ file)
    × ((j : ℕ) → j ≢ k → fs_get_file j v' ≡ fs_get_file j v)
    × (fs_get_file k (fs_free_fd k v') ≡ 0)

-- `fs_alloc_fd` gives out the lowest free descriptor from 3 on, which `fs_get_file` then resolves to
-- the file, and no other descriptor changes; freed, it names no file. If all are taken it fails and
-- changes nothing.
pub fs_alloc_fd-Opened :
    (file : ℕ) (v : Vfs) → length v.fds ≡ 64 → Opened file v (fs_alloc_fd file v)
unfolding fs_alloc_fd fs_get_file fs_free_fd
fs_alloc_fd-Opened file v len =
    opened (alloc_fd_from 61 3 file v.fds) (alloc_fd_from-Lowest 61 3 file v.fds)
  where
    opened :
        (r : Option ℕ × List ℕ)
        → Lowest 3 64 file v.fds r
        → Opened file v (r.0, record v { fds = r.1 })
    opened (none, fds') l = l
    opened (some k, fds') (le, lt, free, taken, same) =
        let (inside, inside') : (leb 64 k ≡ false) × (ltb k 64 ≡ true) =
          (ground arith, ground arith) in
        (
          le,
          lt,
          rw inside free,
          taken,
          rw (inside, same) (get_or-set_self v.fds k file 0 (omega arith)),
          (λ j ne.
              ap (λ xs. if leb 64 j then 0 else get_or xs j 0) same
              ∙ ap (λ n. if leb 64 j then 0 else n)
                  (get_or-set_ne v.fds k j file 0 (λ e. ne (sym e)))),
          rw (inside', inside)
              (get_or-set_self fds' k 0 0 (omega (arith, ap length same, length-set v.fds k file))),
        )
