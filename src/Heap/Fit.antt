-- ===== src/Heap/Fit.antt =====
-- The search of `malloc` is best fit: a smallest free block that is large enough.
use kernix_os.Base.{
  ℕ, zero, suc, ◌≤◌, ◌<◌, ◌≡◌, refl, subst, ◌⊎◌, true, false, not, ◌&&◌, some, List, [], ◌∷◌, leb,
  ltb, ◌==◌, if◌then◌else◌, arith, Bool-cases, inl, inr, length,
}
use kernix_os.Heap.{Store, find_best}
use kernix_os.Heap.Layout.{Cell, Right, unzip}

-- The search on the list of blocks.
pub pick : ℕ → ℕ → ℕ → List Cell → ℕ
pick size best best_size [] = best
pick size best best_size (c ∷ cs) =
    let taken = pick size c.addr c.size cs in
    let passed = pick size best best_size cs in
    if not c.used && leb size c.size && ltb c.size best_size
    then (if c.size == size then c.addr else taken)
    else passed

-- With a round for each block and one for NULL the loop ends.
pub find_best-pick :
    (fuel : ℕ) (st : Store) (size prev p best best_size : ℕ) (cs : List Cell)
    → Right st prev p cs
    → length cs < fuel
    → find_best fuel st size p best best_size ≡ some (pick size best best_size cs)
unfolding find_best pick
find_best-pick zero st size prev p best best_size cs r lt = absurd (omega arith)
find_best-pick (suc fuel) st size prev p best best_size [] r lt = ground arith
find_best-pick (suc fuel) st size prev p best best_size (c ∷ cs) (n, e, pos, h, rest) lt = ground (
  arith,
  find_best-pick fuel st size p n p c.size cs rest,
  find_best-pick fuel st size p n best best_size cs rest,
)

-- No free block of the list that is large enough is smaller than `b`.
abbrev pub NoBetter : ℕ → ℕ → List Cell → Type 0
NoBetter size b [] = Unit
NoBetter size b (c ∷ cs) = (c.used ≡ false → size ≤ c.size → b ≤ c.size) × NoBetter size b cs

NoBetter-exact : (size : ℕ) (cs : List Cell) → NoBetter size size cs
NoBetter-exact size [] = tt
NoBetter-exact size (c ∷ cs) = ((λ u h. h), NoBetter-exact size cs)

-- A best fit among `cs`, which lie behind `before` in the list `all`.
pub record BestFit (size : ℕ) (before cs : List Cell) (r best_size : ℕ) : Type 0 where
  pub left : List Cell
  pub cell : Cell
  pub right : List Cell
  pub here : r ≡ cell.addr
  pub split : unzip left (cell ∷ right) ≡ unzip before cs
  pub unused : cell.used ≡ false
  pub fits : size ≤ cell.size
  pub smaller : cell.size < best_size
  pub best : NoBetter size cell.size cs

-- The block that a search behind `c` found, seen from `c` on.
further :
    (size b : ℕ) (before cs : List Cell) (c : Cell) (r b' : ℕ)
    → b' ≤ b
    → (f : BestFit size (c ∷ before) cs r b')
    → (c.used ≡ false → size ≤ c.size → f.cell.size ≤ c.size)
    → BestFit size before (c ∷ cs) r b
further size b before cs c r b' le f beats = record {
  left = f.left;
  cell = f.cell;
  right = f.right;
  here = f.here;
  split = f.split;
  unused = f.unused;
  fits = f.fits;
  smaller = omega (arith, f.smaller);
  best = (beats, f.best);
}

-- The cell itself is the best.
itself :
    (size b : ℕ) (before cs : List Cell) (c : Cell) (r : ℕ)
    → r ≡ c.addr
    → c.used ≡ false
    → size ≤ c.size
    → c.size < b
    → NoBetter size c.size cs
    → BestFit size before (c ∷ cs) r b
itself size b before cs c r e unused fits lt nb = record {
  left = before;
  cell = c;
  right = cs;
  here = e;
  split = refl;
  unused = unused;
  fits = fits;
  smaller = lt;
  best = ((λ u h. omega arith), nb);
}

taken-fits :
    (size b : ℕ) (c : Cell)
    → (not c.used && leb size c.size && ltb c.size b) ≡ true
    → (c.used ≡ false) × (size ≤ c.size) × (c.size < b)
taken-fits size b c h = (ground arith, ground arith, ground arith)

pub pick-BestFit :
    (size best best_size : ℕ) (before cs : List Cell)
    → ((pick size best best_size cs ≡ best) × NoBetter size best_size cs)
      ⊎ BestFit size before cs (pick size best best_size cs) best_size
unfolding pick
pick-BestFit size best best_size before [] = inl (refl, tt)
pick-BestFit size best best_size before (c ∷ cs) =
    elim (Bool-cases (not c.used && leb size c.size && ltb c.size best_size)) [
      | inl fits ↦
          let (u, le, lt) = taken-fits size best_size c fits in
          elim (Bool-cases (c.size == size)) [
            | inl exact ↦
                rw (fits, exact)
                  (inr (
                    itself size best_size before cs c c.addr refl u le lt
                      (subst (λ b. NoBetter size b cs) (ground arith) (NoBetter-exact size cs))))
            | inr larger ↦
                rw (fits, larger)
                  (elim (pick-BestFit size c.addr c.size (c ∷ before) cs) [
                    | inl none_better ↦
                        inr
                          (itself size best_size before cs c _ none_better.0 u le lt none_better.1)
                    | inr f ↦ inr (
                        further size best_size before cs c _ c.size (omega arith) f
                          (λ v h. omega (arith, f.smaller)))
                  ])
          ]
      | inr skipped ↦ rw (skipped) (elim (pick-BestFit size best best_size (c ∷ before) cs) [
        | inl none_better ↦ inl (none_better.0, ((λ u h. ground arith), none_better.1))
        | inr f ↦ inr (
            further size best_size before cs c _ best_size (omega arith) f
              (λ u h. ground (arith, f.smaller)))
      ])
    ]
