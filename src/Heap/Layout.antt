-- ===== src/Heap/Layout.antt =====
-- A well-formed heap: blocks that tile the heap area without a gap, linked both ways in that order.
use kernix_os.Base.{
  ℕ, ◌+◌, ◌≤◌, ◌<◌, ◌^◌, ◌≡◌, refl, ◌≢◌, ◌∙◌, sym, subst, Bool, List, [], ◌∷◌, arith,
}
use kernix_os.Heap.{Block, block_magic, header, Store, write, set_prev, set_prev_checked}

-- A block as the list of blocks shows it.
pub record Cell : Type 0 where
  pub addr : ℕ
  pub size : ℕ
  pub used : Bool

-- The header that stands for a cell between the two neighbours.
abbrev pub hdr : Cell → ℕ → ℕ → Block
hdr c next prev = record {
  magic = block_magic;
  size = c.size;
  next = next;
  prev = prev;
  used = c.used;
}

-- From `p` the `next` pointers lead through `cells` to NULL, and `prev` is before the first.
abbrev pub Right : Store → ℕ → ℕ → List Cell → Type 0
Right st prev p [] = p ≡ 0
Right st prev p (c ∷ cs) =
    (n : ℕ) × (p ≡ c.addr) × (0 < p) × (st p ≡ hdr c n prev) × Right st p n cs

-- The `prev` pointers lead back from `prev` through `cells`, the nearest first, to NULL, and `next`
-- is behind the nearest.
abbrev pub Left : Store → ℕ → ℕ → List Cell → Type 0
Left st next prev [] = prev ≡ 0
Left st next prev (c ∷ cs) =
    (q : ℕ) × (prev ≡ c.addr) × (0 < prev) × (st prev ≡ hdr c next q) × Left st prev q cs

-- The cells tile the addresses from `from` to `end`.
abbrev pub TileRight : ℕ → List Cell → ℕ → Type 0
TileRight from [] end = from ≡ end
TileRight from (c ∷ cs) end = (c.addr ≡ from) × TileRight (from + header + c.size) cs end

-- The cells, the nearest first, tile the addresses from `start` to `here`.
abbrev pub TileLeft : ℕ → List Cell → ℕ → Type 0
TileLeft start [] here = here ≡ start
TileLeft start (c ∷ cs) here = (c.addr + header + c.size ≡ here) × TileLeft start cs c.addr

pub from-le-end : (from : ℕ) (cs : List Cell) (end : ℕ) → TileRight from cs end → from ≤ end
from-le-end from [] end t = omega arith
from-le-end from (c ∷ cs) end t = omega (arith, from-le-end (from + header + c.size) cs end t.1)

-- A change of headers below `from` leaves the right side.
pub Right-frame :
    (st st' : Store) (from prev p : ℕ) (cs : List Cell) (end : ℕ)
    → ((x : ℕ) → from ≤ x → st' x ≡ st x)
    → TileRight from cs end
    → Right st prev p cs
    → Right st' prev p cs
Right-frame st st' from prev p [] end same t r = r
Right-frame st st' from prev p (c ∷ cs) end same t (n, e, pos, h, rest) = (
  n,
  e,
  pos,
  same p (omega (arith, t.0)) ∙ h,
  Right-frame st st' (from + header + c.size) p n cs end (λ x le. same x (omega arith)) t.1 rest,
)

-- A change of headers from `here` on leaves the left side.
pub Left-frame :
    (st st' : Store) (here next prev start : ℕ) (cs : List Cell)
    → ((x : ℕ) → x < here → st' x ≡ st x)
    → TileLeft start cs here
    → Left st next prev cs
    → Left st' next prev cs
Left-frame st st' here next prev start [] same t l = l
Left-frame st st' here next prev start (c ∷ cs) same t (q, e, pos, h, rest) = (
  q,
  e,
  pos,
  same prev (omega (arith, t.0)) ∙ h,
  Left-frame st st' c.addr prev q start cs (λ x lt. same x (omega (arith, t.0))) t.1 rest,
)

-- A new predecessor for what stands to the right.
pub set_prev-Right :
    (st : Store) (from prev q p : ℕ) (cs : List Cell) (end : ℕ)
    → TileRight from cs end
    → Right st prev p cs
    → Right (set_prev p q st) q p cs
unfolding set_prev write
set_prev-Right st from prev q p [] end t r = r
set_prev-Right st from prev q p (c ∷ cs) end t (n, e, pos, h, rest) = (
  n,
  e,
  pos,
  ground arith,
  Right-frame st (set_prev p q st) (from + header + c.size) p n cs end (λ x le. ground (arith, t.0))
      t.1 rest,
)

pub set_prev_checked-Right :
    (st : Store) (from prev q p : ℕ) (cs : List Cell) (end : ℕ)
    → TileRight from cs end
    → Right st prev p cs
    → Right (set_prev_checked p q st) q p cs
unfolding set_prev_checked write
set_prev_checked-Right st from prev q p [] end t r = r
set_prev_checked-Right st from prev q p (c ∷ cs) end t (n, e, pos, h, rest) = (
  n,
  e,
  pos,
  ground arith,
  Right-frame st (set_prev_checked p q st) (from + header + c.size) p n cs end
      (λ x le. ground (arith, t.0)) t.1 rest,
)

-- The heap seen from the block boundary at `here`: `left` lies before it, nearest first, and `right`
-- behind it; `p` and `prev` are the pointers across the boundary.
pub record Zip (st : Store) (start here end prev p : ℕ) (left right : List Cell) : Type 0 where
  pub before : Left st p prev left
  pub behind : Right st prev p right
  pub tile_left : TileLeft start left here
  pub tile_right : TileRight here right end
  pub small : end < 2 ^ 63

-- A pointer to what stands to the right is no address below it.
pub next-apart :
    (st : Store) (from prev p x : ℕ) (cs : List Cell) (end : ℕ)
    → TileRight from cs end
    → Right st prev p cs
    → x < from
    → 0 < x
    → p ≢ x
next-apart st from prev p x [] end t r lt pos e = omega arith
next-apart st from prev p x (c ∷ cs) end t (n, ep, pp, h, rest) lt pos e = omega (arith, t.0)

-- All cells, from the first on.
abbrev pub unzip : List Cell → List Cell → List Cell
unzip [] right = right
unzip (c ∷ left) right = unzip left (c ∷ right)

module _ {st : Store} {start end : ℕ} where
  pub move_right :
      (here prev p : ℕ) (left : List Cell) (c : Cell) (right : List Cell)
      → Zip st start here end prev p left (c ∷ right)
      → (n : ℕ) × Zip st start (here + header + c.size) end p n (c ∷ left) right
  move_right here prev p left c right z =
      let (n, e, pos, h, rest) = z.behind in
      (
        n,
        record {
          before = (prev, e, pos, h, z.before);
          behind = rest;
          tile_left = (
            omega (arith, z.tile_right.0),
            subst (TileLeft start left) (sym z.tile_right.0) z.tile_left,
          );
          tile_right = z.tile_right.1;
          small = z.small;
        },
      )

  pub move_left :
      (here prev p : ℕ) (left : List Cell) (c : Cell) (right : List Cell)
      → Zip st start here end prev p (c ∷ left) right
      → (q : ℕ) × Zip st start c.addr end q prev left (c ∷ right)
  move_left here prev p left c right z =
      let (q, e, pos, h, rest) = z.before in
      (
        q,
        record {
          before = rest;
          behind = (p, e, pos, h, z.behind);
          tile_left = z.tile_left.1;
          tile_right = (refl, subst (λ a. TileRight a right end) (sym z.tile_left.0) z.tile_right);
          small = z.small;
        },
      )

-- The whole heap: its blocks are `cells`, from `start` to `end`.
pub record IsHeap (st : Store) (start end : ℕ) (cells : List Cell) : Type 0 where
  pub first : ℕ
  pub zip : Zip st start start end 0 first [] cells

-- The heap at one of its boundaries.
pub record At (st : Store) (start end : ℕ) (left right : List Cell) : Type 0 where
  pub here : ℕ
  pub prev : ℕ
  pub p : ℕ
  pub zip : Zip st start here end prev p left right

pub IsHeap-At :
    {st : Store} {start end : ℕ} (left right : List Cell)
    → IsHeap st start end (unzip left right)
    → At st start end left right
IsHeap-At {start} [] right h = record { here = start; prev = 0; p = h.first; zip = h.zip }
IsHeap-At (c ∷ left) right h =
    let a = IsHeap-At left (c ∷ right) h in
    let (n, z) = move_right a.here a.prev a.p left c right a.zip in
    record { here = _; prev = a.p; p = n; zip = z }

pub At-IsHeap :
    {st : Store} {start end : ℕ} (left right : List Cell)
    → At st start end left right
    → IsHeap st start end (unzip left right)
At-IsHeap {st} {start} {end} [] right a =
    let z = a.zip in
    record {
      first = a.p;
      zip = record {
        before = refl;
        behind = subst (λ q. Right st q a.p right) z.before z.behind;
        tile_left = refl;
        tile_right = subst (λ x. TileRight x right end) z.tile_left z.tile_right;
        small = z.small;
      };
    }
At-IsHeap (c ∷ left) right a =
    let (q, z) = move_left a.here a.prev a.p left c right a.zip in
    At-IsHeap left (c ∷ right) (record { here = c.addr; prev = q; p = a.prev; zip = z })
