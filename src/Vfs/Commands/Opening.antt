-- ===== src/Vfs/Commands/Opening.antt =====
-- What opening and closing a file do to the descriptors, and how a path is split.
use kernix_os.Base.{
  ℕ, suc, ◌+◌, ◌≤◌, ◌<◌, ◌≡◌, refl, ◌≢◌, ◌∙◌, ap, true, false, Option, none, some, List, [], ◌∷◌,
  ◌++◌, length, take, drop, ◌==◌, if◌then◌else◌, arith, ◌⊎◌,
}
use kernix_os.Vfs.{Vfs, fs_get_file}
use kernix_os.Vfs.Descriptor.{Taken}
use kernix_os.Vfs.Commands.{
  FsOps, FileSystem, last_slash, parent_length, parent_path, base_name, resolve, too_long, creates,
  opening,
}

-- A name without a slash
abbrev pub IsName : List ℕ → Type 0
IsName [] = Unit
IsName (c ∷ cs) = (c ≢ 47) × IsName cs

last_slash-name : (name : List ℕ) (i last : ℕ) → IsName name → last_slash i last name ≡ last
unfolding last_slash
last_slash-name [] i last n = refl
last_slash-name (c ∷ cs) i last n =
    let other : (c == 47) ≡ false = ground (arith, n.0) in
    rw other (last_slash-name cs (i + 1) last n.1)

last_slash-split :
    (dir name : List ℕ) (i last : ℕ)
    → IsName name
    → last_slash i last (dir ++ (47 ∷ name)) ≡ i + length dir
unfolding last_slash
last_slash-split [] name i last n = last_slash-name name (i + 1) i n ∙ omega arith
last_slash-split (c ∷ dir) name i last n =
    last_slash-split dir name (i + 1) (if c == 47 then i else last) n ∙ omega arith

take-length : (xs ys : List ℕ) → take (length xs) (xs ++ ys) ≡ xs
take-length [] ys = refl
take-length (x ∷ xs) ys = ap (λ l. x ∷ l) (take-length xs ys)

drop-length : (xs : List ℕ) (y : ℕ) (ys : List ℕ) → drop (suc (length xs)) (xs ++ (y ∷ ys)) ≡ ys
drop-length [] y ys = refl
drop-length (x ∷ xs) y ys = drop-length xs y ys

-- The directory and the name of a path, which is the directory, a slash and the name; the directory of a
-- name at the root is `/`.
pub parent_path-base_name :
    (d : ℕ) (dir name : List ℕ)
    → IsName name
    → (base_name ((d ∷ dir) ++ (47 ∷ name)) ≡ name)
      × (parent_path ((d ∷ dir) ++ (47 ∷ name)) ≡ d ∷ dir)
      × (base_name (47 ∷ name) ≡ name)
      × (parent_path (47 ∷ name) ≡ 47 ∷ [])
unfolding base_name parent_path parent_length
parent_path-base_name d dir name n =
    let at : last_slash 0 0 ((d ∷ dir) ++ (47 ∷ name)) ≡ suc (length dir) =
      last_slash-split (d ∷ dir) name 0 0 n ∙ omega arith in
    let root : last_slash 0 0 (47 ∷ name) ≡ 0 = last_slash-split [] name 0 0 n ∙ omega arith in
    let path = (d ∷ dir) ++ (47 ∷ name) in
    let next : suc (length dir) + 1 ≡ suc (suc (length dir)) = omega arith in
    let some_dir : (suc (length dir) == 0) ≡ false = ground arith in
    (
      ap (λ n. drop (n + 1) path) at ∙ ap (λ n. drop n path) next ∙ drop-length (d ∷ dir) 47 name,
      ap (λ n. take (if n == 0 then 1 else n) path) at
          ∙ ap (λ b. take (if b then 1 else suc (length dir)) path) some_dir
          ∙ take-length (d ∷ dir) (47 ∷ name),
      ap (λ n. drop (n + 1) (47 ∷ name)) root,
      ap (λ n. take (if n == 0 then 1 else n) (47 ∷ name)) root,
    )

module _ {N : Type 0} (ops : FsOps N) where
  -- The node of the path: the one that the path names; or, where it names none, the flags say O_CREAT and its
  -- directory exists, the one it names once `create` was called there.
  abbrev pub Located : List ℕ → (flags : ℕ) → FileSystem N → (node : ℕ) → FileSystem N → Type 0
  Located path flags s node s1 =
      ((s1 ≡ s)
        × (node ≡ resolve ops path s)
        × ((node ≢ 0) ⊎ (creates flags ≡ false) ⊎ (resolve ops (parent_path path) s ≡ 0)))
      ⊎ ((resolve ops path s ≡ 0)
          × (creates flags ≡ true)
          × (resolve ops (parent_path path) s ≢ 0)
          × (s1 ≡ record s {
            nodes = (ops.create (resolve ops (parent_path path) s) (base_name path) s.nodes).1;
          })
          × (node ≡ resolve ops path s1))

  -- A failure has one of four causes and changes no descriptor. Otherwise the lowest descriptor that was free
  -- names the file, which is as the node's `open` left it, and no other descriptor changed.
  abbrev pub FileOpened : (node flags file : ℕ) → FileSystem N → Option ℕ × FileSystem N → Type 0
  FileOpened node flags file s (none, s') =
      (s'.vfs.fds ≡ s.vfs.fds)
      × ((node ≡ 0)
          ⊎ (file ≡ 0)
          ⊎ ((opening ops node flags s.nodes).0 ≡ false)
          ⊎ Taken 3 64 s.vfs.fds)
  FileOpened node flags file s (some fd, s') =
      (node ≢ 0)
      × (file ≢ 0)
      × ((opening ops node flags s.nodes).0 ≡ true)
      × (s'.files file ≡ (opening ops node flags s.nodes).1)
      × (3 ≤ fd)
      × (fd < 64)
      × (fs_get_file fd s.vfs ≡ 0)
      × Taken 3 fd s.vfs.fds
      × (fs_get_file fd s'.vfs ≡ file)
      × ((j : ℕ) → j ≢ fd → fs_get_file j s'.vfs ≡ fs_get_file j s.vfs)

  -- The whole of `fs_open`
  abbrev pub OpenOutcome :
      List ℕ → (flags file : ℕ) → FileSystem N → Option (Option ℕ × FileSystem N) → Type 0
  OpenOutcome path flags file s none =
      (too_long path ≡ true) × (resolve ops path s ≡ 0) × (creates flags ≡ true)
  OpenOutcome path flags file s (some r) =
      (node : ℕ) × (s1 : FileSystem N) × Located path flags s node s1
      × (s1.vfs ≡ s.vfs)
      × FileOpened node flags file s1 r

  -- What `find_or_create` gives
  abbrev Found : List ℕ → (flags : ℕ) → FileSystem N → Option (ℕ × FileSystem N) → Type 0
  Found path flags s none =
      (too_long path ≡ true) × (resolve ops path s ≡ 0) × (creates flags ≡ true)
  Found path flags s (some (node, s1)) = Located path flags s node s1 × (s1.vfs ≡ s.vfs)
