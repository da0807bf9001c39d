-- ===== src/Vfs/Write.antt =====
-- A write to a tmpfs file replaces the bytes from its position on and extends the file.
use kernix_os.Base.{
  ℕ, zero, suc, ◌+◌, ◌-◌, ◌^◌, ◌≤◌, ◌<◌, ◌≡◌, refl, ◌∙◌, ap, sym, true, false, not, Option, none,
  some, List, [], ◌∷◌, ◌++◌, length, take, drop, length-take, ltb, ◌==◌, if◌then◌else◌, arith,
  Bool-cases, inl, inr, u64,
}
use mathlib.Core.List.{append-nil}
use kernix_os.Vfs.{
  FsFile, TmpfsData, FsNode, copy_to, page_up, keep_bytes, grow, copy_bytes, store_bytes,
  write_data, with_meta, tmpfs_write,
}
use kernix_os.Vfs.Tmpfs.{HasBlock, HasBytes, IsTmpfsFile}

drop-nil : (n : ℕ) (xs : List ℕ) → xs ≡ [] → drop n xs ≡ []
drop-nil zero xs e = e
drop-nil (suc n) xs e = ap (drop (suc n)) e

length-copy_to :
    (pos : ℕ) (buf m : List ℕ) → pos + length buf ≤ length m → length (copy_to pos buf m) ≡ length m
unfolding copy_to
length-copy_to zero [] m le = refl
length-copy_to zero (b ∷ buf) [] le = absurd (omega arith)
length-copy_to zero (b ∷ buf) (x ∷ m) le = ap suc (length-copy_to zero buf m (omega arith))
length-copy_to (suc pos) buf [] le = refl
length-copy_to (suc pos) buf (x ∷ m) le = ap suc (length-copy_to pos buf m (omega arith))

-- The bytes of a file after a copy of `buf` to `pos`
abbrev pub overwritten : ℕ → List ℕ → List ℕ → List ℕ
overwritten pos buf content = take pos content ++ (buf ++ drop (pos + length buf) content)

take-copy_to :
    (pos size n s : ℕ) (buf m : List ℕ)
    → pos ≤ size
    → size ≤ length m
    → n ≤ length m
    → n ≡ pos + length buf
    → s ≡ size + (n - size)
    → take s (copy_to pos buf m) ≡ take pos (take size m) ++ (buf ++ drop n (take size m))
unfolding copy_to
take-copy_to zero size zero s [] m p q r e f = ap (λ k. take k m) (omega arith)
take-copy_to zero size (suc n) s [] m p q r e f = absurd (omega arith)
take-copy_to zero size n s (b ∷ buf) [] p q r e f = absurd (omega arith)
take-copy_to zero size zero s (b ∷ buf) (x ∷ m) p q r e f = absurd (omega arith)
take-copy_to zero size (suc n) zero (b ∷ buf) (x ∷ m) p q r e f = absurd (omega arith)
take-copy_to zero zero (suc n) (suc s) (b ∷ buf) (x ∷ m) p q r e f =
    ap (λ l. b ∷ l)
      (take-copy_to zero zero n s buf m (omega arith) (omega arith) (omega arith) (omega arith)
          (omega arith)
        ∙ ap (λ l. buf ++ l) (drop-nil n [] refl))
take-copy_to zero (suc size) (suc n) (suc s) (b ∷ buf) (x ∷ m) p q r e f =
    ap (λ l. b ∷ l)
      (take-copy_to zero size n s buf m (omega arith) (omega arith) (omega arith) (omega arith)
        (omega arith))
take-copy_to (suc pos) zero n s buf m p q r e f = absurd (omega arith)
take-copy_to (suc pos) (suc size) n s buf [] p q r e f = absurd (omega arith)
take-copy_to (suc pos) (suc size) zero s buf (x ∷ m) p q r e f = absurd (omega arith)
take-copy_to (suc pos) (suc size) (suc n) zero buf (x ∷ m) p q r e f = absurd (omega arith)
take-copy_to (suc pos) (suc size) (suc n) (suc s) buf (x ∷ m) p q r e f =
    ap (λ l. x ∷ l)
      (take-copy_to pos size n s buf m (omega arith) (omega arith) (omega arith) (omega arith)
        (omega arith))

-- The result of a write that succeeds
abbrev pub Written : FsFile → List ℕ → List ℕ → Option ℕ × FsNode × FsFile → Type 0
Written f buf content (n, node, f') =
    (n ≡ some (length buf))
    × IsTmpfsFile node (overwritten f.pos buf content)
    × (f' ≡ record f { pos = f.pos + length buf })

overwritten-nil :
    (pos : ℕ) (buf content : List ℕ)
    → content ≡ []
    → length buf ≡ 0
    → overwritten pos buf content ≡ []
overwritten-nil zero [] content e z = e
overwritten-nil (suc pos) [] content e z =
    ap (λ c. take (suc pos) c ++ drop (suc pos + 0) c) e ∙ drop-nil (suc pos + 0) [] refl
overwritten-nil pos (b ∷ buf) content e z = absurd (omega arith)

take-zero : (n : ℕ) (xs : List ℕ) → n ≡ 0 → take n xs ≡ []
take-zero n xs e = ap (λ k. take k xs) e

block-fits :
    (size cap : ℕ) (content : List ℕ) (b : Option (List ℕ))
    → HasBlock size content cap b
    → size ≤ cap
block-fits size cap content none (z, _, _) = omega arith
block-fits size cap content (some bytes) (fits, _, _) = fits

-- The block of a larger capacity holds the same bytes.
keep_bytes-HasBlock :
    (size cap cap' : ℕ) (content new : List ℕ) (b : Option (List ℕ))
    → HasBlock size content cap b
    → size ≤ cap'
    → length new ≡ cap'
    → HasBlock size content cap' (some (keep_bytes size new b))
unfolding keep_bytes
keep_bytes-HasBlock size cap cap' content new none (z, e, _) le len =
    (le, len, e ∙ sym (take-zero size new z))
keep_bytes-HasBlock size cap cap' content new (some old) (fits, len_old, e) le len =
    elim (Bool-cases (ltb 0 size)) [
      | inl some_bytes ↦
          let count : length (take size old) ≡ size = omega (arith, length-take size old) in
          rw some_bytes (
            le,
            length-copy_to 0 (take size old) new (omega arith) ∙ len,
            e
                ∙ sym (
                    take-copy_to 0 0 size size (take size old) new (omega arith) (omega arith)
                      (omega arith) (omega arith) (omega arith)
                    ∙ ap (λ l. take size old ++ l) (drop-nil size [] refl)
                    ∙ append-nil (take size old)),
          )
      | inr empty ↦
          let z : size ≡ 0 = ground arith in
          rw empty (le, len, e ∙ take-zero size old z ∙ sym (take-zero size new z))
    ]

module _ (node : FsNode) (content buf : List ℕ) (f : FsFile) (t : node.node_type ≡ 1)
    (within : f.pos ≤ node.size) (no_wrap : f.pos + length buf + 4095 < 2 ^ 64) where
  abbrev end : ℕ
  end = f.pos + length buf

  store_bytes-Written :
      (d : TmpfsData)
      → HasBlock node.size content d.cap d.data_bytes
      → end ≤ d.cap
      → Written f buf content (store_bytes node buf f (some d))
  unfolding store_bytes
  store_bytes-Written d h le =
      (refl, (t, stored d.data_bytes h), ap (λ n. record f { pos = n }) (ground arith))
    where
      stored :
          (b : Option (List ℕ))
          → HasBlock node.size content d.cap b
          → HasBlock
              (if ltb node.size (u64 (f.pos + length buf))
                then u64 (f.pos + length buf)
                else node.size)
              (overwritten f.pos buf content)
              d.cap
              (copy_bytes f.pos buf b)
      stored none (z, e, z') =
          (ground (arith), overwritten-nil f.pos buf content e (omega arith), z')
      stored (some bytes) (fits, len, e) =
          let size' : (if ltb node.size (u64 (f.pos + length buf))
                then u64 (f.pos + length buf)
                else node.size)
              ≡ node.size + (end - node.size) =
            ground arith in
          (
            omega arith,
            length-copy_to f.pos buf bytes (omega arith) ∙ len,
            ap (overwritten f.pos buf) e
                ∙ sym (
                    take-copy_to f.pos node.size end (node.size + (end - node.size)) buf bytes
                      within (omega arith) (omega arith) refl refl)
                ∙ ap (λ k. take k (copy_to f.pos buf bytes)) (sym size'),
          )

module _ (node : FsNode) (content buf new : List ℕ) (f : FsFile) (t : node.node_type ≡ 1)
    (within : f.pos ≤ node.size) (no_wrap : f.pos + length buf + 4095 < 2 ^ 64)
    (size_new : length new ≡ page_up (f.pos + length buf)) where
  write_data-Written :
      (d : TmpfsData)
      → HasBlock node.size content d.cap d.data_bytes
      → Written f buf content (write_data node buf f (some new) d)
  unfolding write_data grow
  write_data-Written d h =
      let needed : u64 (f.pos + length buf) ≡ f.pos + length buf = ground arith in
      let node' = record node { priv = some d } in
      elim (Bool-cases (ltb d.cap (u64 (f.pos + length buf)))) [
        | inl more ↦
            let cap = page_up (u64 (f.pos + length buf)) in
            let fits = block-fits node.size d.cap content d.data_bytes h in
            let bound : u64 (f.pos + length buf) ≤ cap = omega arith in
            rw more (
              store_bytes-Written node' content buf f t within no_wrap
                (record { data_bytes = some (keep_bytes node.size new d.data_bytes); cap = cap })
                (keep_bytes-HasBlock node.size d.cap cap content new d.data_bytes h (ground arith)
                  (size_new ∙ ap page_up (sym needed)))
                (omega arith))
        | inr enough ↦
            rw enough (store_bytes-Written node' content buf f t within no_wrap d h (ground arith))
      ]

  with_meta-Written :
      (b : Option TmpfsData)
      → HasBytes node.size content b
      → Written f buf content (with_meta node buf f true (some new) b)
  unfolding with_meta
  with_meta-Written none (z, e) =
      write_data-Written (record { data_bytes = none; cap = 0 }) (z, e, refl)
  with_meta-Written (some d) h = write_data-Written d h

-- A write to a tmpfs file at a position that is not past its end, with memory for what the write
-- allocates, writes all bytes: the file then holds them from the position on, and its other bytes
-- before and behind as they were; the position is behind the bytes written. Position and count do
-- not overflow when they are rounded up to pages.
pub tmpfs_write-Written :
    (node : FsNode) (content buf new : List ℕ) (f : FsFile)
    → IsTmpfsFile node content
    → f.pos ≤ node.size
    → f.pos + length buf + 4095 < 2 ^ 64
    → length new ≡ page_up (f.pos + length buf)
    → Written f buf content (tmpfs_write node buf f true (some new))
unfolding tmpfs_write
tmpfs_write-Written node content buf new f (t, h) within no_wrap size_new =
    let test : not (node.node_type == 1) ≡ false = ground arith in
    rw test (with_meta-Written node content buf new f t within no_wrap size_new node.priv h)
