-- ===== src/Vfs/Tmpfs.antt =====
-- A tmpfs file is its list of bytes: reading copies from the position on, writing overwrites and extends.
use kernix_os.Base.{
  ℕ, zero, suc, ◌+◌, ◌-◌, ◌^◌, min, ◌≤◌, ◌<◌, ◌≡◌, refl, ◌∙◌, ap, sym, false, not, Option, none,
  some, List, [], ◌∷◌, length, take, drop, length-take, length-drop, ltb, leb, ◌==◌, if◌then◌else◌,
  arith, Bool-cases, inl, inr, u64,
}
use kernix_os.Vfs.{FsFile, TmpfsData, FsNode, read_bytes, read_data, tmpfs_read}

-- A regular file whose bytes are `content`: they lie at the start of a block of `cap` bytes, or there
-- is none yet.
abbrev pub HasBlock : ℕ → List ℕ → ℕ → Option (List ℕ) → Type 0
HasBlock size content cap none = (size ≡ 0) × (content ≡ []) × (cap ≡ 0)
HasBlock size content cap (some bytes) =
    (size ≤ cap) × (length bytes ≡ cap) × (content ≡ take size bytes)

abbrev pub HasBytes : ℕ → List ℕ → Option TmpfsData → Type 0
HasBytes size content none = (size ≡ 0) × (content ≡ [])
HasBytes size content (some d) = HasBlock size content d.cap d.data_bytes

abbrev pub IsTmpfsFile : FsNode → List ℕ → Type 0
IsTmpfsFile node content = (node.node_type ≡ 1) × HasBytes node.size content node.priv

pub take-take : (a b : ℕ) (xs : List ℕ) → take a (take b xs) ≡ take (min a b) xs
take-take zero b xs = ap (λ n. take n xs) least
  where
    least : 0 ≡ min 0 b
    least = omega arith
take-take (suc a) zero xs = ap (λ n. take n xs) least
  where
    least : 0 ≡ min (suc a) 0
    least = omega arith
take-take (suc a) (suc b) [] = ap (λ n. take n []) least
  where
    least : suc (min a b) ≡ min (suc a) (suc b)
    least = omega arith
take-take (suc a) (suc b) (x ∷ xs) =
    ap (λ l. x ∷ l) (take-take a b xs) ∙ ap (λ n. take n (x ∷ xs)) least
  where
    least : suc (min a b) ≡ min (suc a) (suc b)
    least = omega arith

abbrev the_nil : List ℕ
the_nil = []

take-nil : (n : ℕ) → take n the_nil ≡ the_nil
take-nil zero = refl
take-nil (suc n) = refl

drop-take : (pos size : ℕ) (xs : List ℕ) → drop pos (take size xs) ≡ take (size - pos) (drop pos xs)
drop-take zero size xs = ap (λ n. take n xs) whole
  where
    whole : size ≡ size - 0
    whole = omega arith
drop-take (suc pos) zero xs = ap (λ n. take n (drop (suc pos) xs)) nothing
  where
    nothing : 0 ≡ 0 - suc pos
    nothing = omega arith
drop-take (suc pos) (suc size) [] = sym (take-nil (suc size - suc pos))
drop-take (suc pos) (suc size) (x ∷ xs) =
    drop-take pos size xs ∙ ap (λ n. take n (drop pos xs)) less
  where
    less : size - pos ≡ suc size - suc pos
    less = omega arith

take_past : (n pos : ℕ) (xs : List ℕ) → length xs ≤ pos → take n (drop pos xs) ≡ []
take_past zero pos xs le = refl
take_past (suc n) zero [] le = refl
take_past (suc n) zero (x ∷ xs) le = absurd (omega arith)
take_past (suc n) (suc pos) [] le = refl
take_past (suc n) (suc pos) (x ∷ xs) le = take_past (suc n) pos xs (omega arith)

-- What a read of `bytes` returns.
abbrev pub copied_out : FsFile → List ℕ → Option (List ℕ) × FsFile
copied_out f bytes = (some bytes, record f { pos = f.pos + length bytes })

read-nothing :
    (f : FsFile) (bytes : List ℕ)
    → bytes ≡ []
    → ◌≡◌ {A = Option (List ℕ) × FsFile} (some [], f) (copied_out f bytes)
read-nothing f bytes e = ap (λ n. (some [], record f { pos = n })) same ∙ ap (copied_out f) (sym e)
  where
    same : f.pos ≡ f.pos + 0
    same = omega arith

read_bytes-block :
    (node : FsNode) (content : List ℕ) (cnt : ℕ) (f : FsFile) (cap : ℕ) (b : Option (List ℕ))
    → HasBlock node.size content cap b
    → f.pos + cnt < 2 ^ 64
    → read_bytes node cnt f b ≡ copied_out f (take cnt (drop f.pos content))
unfolding read_bytes
read_bytes-block node content cnt f cap none (z, e, _) lt =
    read-nothing f (take cnt (drop f.pos content))
      (ap (λ c. take cnt (drop f.pos c)) e ∙ take_past cnt f.pos [] (omega arith))
read_bytes-block node content cnt f cap (some bytes) (le, len, e) lt =
    elim (Bool-cases (leb node.size f.pos)) [
      | inl past ↦
          let short : length content ≤ f.pos =
            ground (arith, ap length e, length-take node.size bytes) in
          rw past
            (read-nothing f (take cnt (drop f.pos content)) (take_past cnt f.pos content short))
      | inr inside ↦
          let to_read = if ltb node.size (u64 (f.pos + cnt)) then node.size - f.pos else cnt in
          let count : to_read ≡ min cnt (node.size - f.pos) = ground (arith) in
          let same : take cnt (drop f.pos content) ≡ take to_read (drop f.pos bytes) =
            ap (λ c. take cnt (drop f.pos c)) e
            ∙ ap (take cnt) (drop-take f.pos node.size bytes)
            ∙ take-take cnt (node.size - f.pos) (drop f.pos bytes)
            ∙ ap (λ n. take n (drop f.pos bytes)) (sym count) in
          let moved : u64 (f.pos + to_read) ≡ f.pos + length (take to_read (drop f.pos bytes)) =
            ground (arith, length-take to_read (drop f.pos bytes), length-drop f.pos bytes) in
          rw inside (
            ap (λ n. (some (take to_read (drop f.pos bytes)), record f { pos = n })) moved
            ∙ ap (copied_out f) (sym same))
    ]

-- `tmpfs_read` of a file returns the bytes from its position on, `cnt` of them or as many as there are,
-- and moves the position by their number. Position and count do not overflow together.
pub tmpfs_read-take :
    (node : FsNode) (content : List ℕ) (cnt : ℕ) (f : FsFile)
    → IsTmpfsFile node content
    → f.pos + cnt < 2 ^ 64
    → tmpfs_read node cnt f ≡ copied_out f (take cnt (drop f.pos content))
unfolding tmpfs_read read_data
tmpfs_read-take node content cnt f (t, h) lt =
    let test : not (node.node_type == 1) ≡ false = ground arith in rw test (read_at node.priv h)
  where
    read_at :
        (d : Option TmpfsData)
        → HasBytes node.size content d
        → read_data node cnt f d ≡ copied_out f (take cnt (drop f.pos content))
    read_at none (z, e) =
        read-nothing f (take cnt (drop f.pos content))
          (ap (λ c. take cnt (drop f.pos c)) e ∙ take_past cnt f.pos [] (omega arith))
    read_at (some d) hb = read_bytes-block node content cnt f d.cap d.data_bytes hb lt
