-- ===== src/Vfs/Resolve.antt =====
-- `fs_resolve` of core/fs/vfs/vfs.c: from the root of the mount, one lookup for each name of the path.
-- `lookup` stands for the `lookup` of a node's file system: it gives 0 for no such child, and for a node
-- that has no `lookup`.
use kernix_os.Base.{
  ℕ, zero, suc, ◌≤◌, ◌≡◌, refl, ◌≢◌, ◌∙◌, ap, sym, Bool, true, false, not, Option, none, some, List,
  [], ◌∷◌, ◌++◌, length, take, drop, snoc, length-snoc, ltb, ltb→lt, ◌==◌, if◌then◌else◌, arith,
  Bool-cases, inl, inr,
}
use kernix_os.Str.{str_len}
use kernix_os.Vfs.{FsMnt, Vfs, find_mnt}

abbrev pub is_empty : List ℕ → Bool
is_empty [] = true
is_empty (c ∷ cs) = false

-- The loop over the rest of the path and what follows it; `comp` has 64 places, with one for NUL.
pub walk : (lookup : ℕ → List ℕ → ℕ) (rel comp : List ℕ) (cur : ℕ) → ℕ
walk lookup [] comp cur = if is_empty comp then cur else lookup cur comp
walk lookup (c ∷ rel) comp cur =
    let child = lookup cur comp in
    let down = walk lookup rel [] child in
    let same = walk lookup rel [] cur in
    let on = walk lookup rel (if ltb (length comp) 63 then comp ++ (c ∷ []) else comp) cur in
    if c == 47 then (if is_empty comp then same else if child == 0 then 0 else down) else on

abbrev pub skip_slash : List ℕ → List ℕ
skip_slash [] = []
skip_slash (c ∷ cs) = if c == 47 then cs else c ∷ cs

abbrev pub starts_with_slash : List ℕ → Bool
starts_with_slash [] = false
starts_with_slash (c ∷ cs) = c == 47

pub resolve_in : (lookup : ℕ → List ℕ → ℕ) → List ℕ → Option FsMnt → ℕ
unfolding walk
resolve_in lookup path none = 0
resolve_in lookup path (some m) =
    let rel = skip_slash (drop (str_len m.path) path) in
    if m.root == 0 then 0 else if is_empty rel then m.root else walk lookup rel [] m.root

pub fs_resolve : (lookup : ℕ → List ℕ → ℕ) → List ℕ → Vfs → ℕ
unfolding resolve_in
fs_resolve lookup path v =
    if not (starts_with_slash path) then 0 else resolve_in lookup path (find_mnt path v)

-- The names of a path: what stands between its slashes. `pieces` gives the first, and then the others.
abbrev pub add_name : List ℕ → List (List ℕ) → List (List ℕ)
add_name [] names = names
add_name (c ∷ cs) names = take 63 (c ∷ cs) ∷ names

abbrev pub pieces : List ℕ → List ℕ × List (List ℕ)
pieces [] = ([], [])
pieces (c ∷ path) =
    let r = pieces path in if c == 47 then ([], add_name r.0 r.1) else (c ∷ r.0, r.1)

-- The names that are not empty, cut to 63 bytes
abbrev pub names_of : List ℕ → List (List ℕ)
names_of path = add_name (pieces path).0 (pieces path).1

-- One lookup after the other, to the first that fails
abbrev pub follow : (lookup : ℕ → List ℕ → ℕ) → List (List ℕ) → ℕ → ℕ
follow lookup [] cur = cur
follow lookup (n ∷ names) cur =
    let rest = follow lookup names (lookup cur n) in if lookup cur n == 0 then 0 else rest

take-exact : (n : ℕ) (xs ys : List ℕ) → length xs ≡ n → take n (xs ++ ys) ≡ xs
take-exact zero [] ys e = refl
take-exact zero (x ∷ xs) ys e = absurd (omega arith)
take-exact (suc n) [] ys e = absurd (omega arith)
take-exact (suc n) (x ∷ xs) ys e = ap (λ l. x ∷ l) (take-exact n xs ys (omega arith))

take-within : (n : ℕ) (xs : List ℕ) → length xs ≤ n → take n (xs ++ []) ≡ xs
take-within zero [] le = refl
take-within zero (x ∷ xs) le = absurd (omega arith)
take-within (suc n) [] le = refl
take-within (suc n) (x ∷ xs) le = ap (λ l. x ∷ l) (take-within n xs (omega arith))

-- A 64th byte is not read.
add_name-full :
    (comp rest rest' : List ℕ) (names : List (List ℕ))
    → length comp ≡ 63
    → add_name (comp ++ rest) names ≡ add_name (comp ++ rest') names
add_name-full [] rest rest' names e = absurd (omega arith)
add_name-full (x ∷ comp) rest rest' names e =
    ap (λ n. n ∷ names) (take-exact 63 (x ∷ comp) rest e ∙ sym (take-exact 63 (x ∷ comp) rest' e))

module _ (lookup : ℕ → List ℕ → ℕ) where
  follow-name :
      (x : ℕ) (comp : List ℕ) (names : List (List ℕ)) (cur : ℕ)
      → length (x ∷ comp) ≤ 63
      → follow lookup (add_name ((x ∷ comp) ++ []) names) cur
        ≡ follow lookup ((x ∷ comp) ∷ names) cur
  follow-name x comp names cur le =
      ap (λ n. follow lookup (n ∷ names) cur) (take-within 63 (x ∷ comp) le)

  -- `comp` is what was read of a name, at most 63 bytes.
  walk-follow :
      (rel comp : List ℕ) (cur : ℕ)
      → length comp ≤ 63
      → walk lookup rel comp cur
        ≡ follow lookup (add_name (comp ++ (pieces rel).0) (pieces rel).1) cur
  unfolding walk
  walk-follow [] [] cur le = refl
  walk-follow [] (x ∷ comp) cur le = sym (follow-name x comp [] cur le ∙ ground arith)
  walk-follow (c ∷ rel) comp cur le = elim (Bool-cases (c == 47)) [
    | inl slash ↦ rw slash (at_slash (λ k. walk-follow rel [] k (omega arith)) comp le)
    | inr char ↦ rw char (elim (Bool-cases (ltb (length comp) 63)) [
      | inl room ↦ rw room (
          walk-follow rel (comp ++ (c ∷ [])) cur
            (omega (arith, length-snoc comp c, ltb→lt _ _ room))
          ∙ ap (λ l. follow lookup (add_name l (pieces rel).1) cur) (snoc comp c (pieces rel).0))
      | inr full ↦ rw full (
          walk-follow rel comp cur le
          ∙ ap (λ names. follow lookup names cur)
              (add_name-full comp (pieces rel).0 (c ∷ (pieces rel).0) (pieces rel).1
                (ground arith)))
    ])
  ]
    where
      at_slash :
          ((k : ℕ) → walk lookup rel [] k ≡ follow lookup (names_of rel) k)
          → (read : List ℕ) → length read ≤ 63
          → (if is_empty read
              then walk lookup rel [] cur
              else (if lookup cur read == 0 then 0 else walk lookup rel [] (lookup cur read)))
            ≡ follow lookup (add_name (read ++ []) (names_of rel)) cur
      at_slash walked [] le' = walked cur
      at_slash walked (x ∷ read) le' =
          ap (λ n. if lookup cur (x ∷ read) == 0 then 0 else n) (walked (lookup cur (x ∷ read)))
          ∙ sym (follow-name x read (names_of rel) cur le')

  resolve_in-follow :
      (path : List ℕ) (m : FsMnt)
      → m.root ≢ 0
      → resolve_in lookup path (some m)
        ≡ follow lookup (names_of (skip_slash (drop (str_len m.path) path))) m.root
  unfolding resolve_in
  resolve_in-follow path m ne =
      let test : (m.root == 0) ≡ false = ground arith in
      rw test (rest (skip_slash (drop (str_len m.path) path)))
    where
      rest :
          (rel : List ℕ)
          → (if is_empty rel then m.root else walk lookup rel [] m.root)
            ≡ follow lookup (names_of rel) m.root
      rest [] = refl
      rest (c ∷ rel) = walk-follow (c ∷ rel) [] m.root (omega arith)

  -- For a path that begins with a slash, `fs_resolve` follows its names behind the path of the mount
  -- that `find_mnt` gives, from that mount's root and one lookup after the other, to the first that
  -- fails, where it gives NULL; without a mount or a root it gives NULL.
  pub fs_resolve-follow :
      (path : List ℕ) (v : Vfs)
      → starts_with_slash path ≡ true
      → (find_mnt path v ≡ none → fs_resolve lookup path v ≡ 0)
        × ((m : FsMnt) → find_mnt path v ≡ some m → m.root ≡ 0 → fs_resolve lookup path v ≡ 0)
        × ((m : FsMnt)
            → find_mnt path v ≡ some m
            → m.root ≢ 0
            → fs_resolve lookup path v
              ≡ follow lookup (names_of (skip_slash (drop (str_len m.path) path))) m.root)
  unfolding fs_resolve
  fs_resolve-follow path v slash = (
    (λ e. rw (slash, e) refl),
    (λ m e null. rw (slash, e) (ground arith)),
    λ m e ne. rw (slash, e) (resolve_in-follow path m ne),
  )
