-- ===== src/Heap/Claim.antt =====
-- What `malloc` does to the block that it has chosen.
use kernix_os.Base.{
  ℕ, ◌+◌, ◌-◌, ◌≤◌, ◌<◌, ◌≡◌, refl, ◌≢◌, ◌∙◌, ap, subst, true, false, List, ◌∷◌, leb, leb→le, ◌==◌,
  if◌then◌else◌, arith, Bool-cases, inl, inr, u64,
}
use kernix_os.Heap.{block_magic, header, Store, write, sub64, set_prev, split_block, take_block}
use kernix_os.Heap.Layout.{
  Cell, hdr, Right, Left, TileRight, Right-frame, Left-frame, set_prev-Right, next-apart,
  from-le-end, Zip,
}

-- The cells that stand for the chosen cell afterwards.
abbrev pub claimed : Cell → ℕ → List Cell → List Cell
claimed c size right =
    if leb (size + header + 16) c.size
    then record { addr = c.addr; size = size; used = true }
      ∷ record { addr = c.addr + header + size; size = c.size - size - header; used = false }
      ∷ right
    else record { addr = c.addr; size = c.size; used = true } ∷ right

module _ (st : Store) (start here end prev p : ℕ) (left : List Cell) (c : Cell) (right : List Cell)
    (z : Zip st start here end prev p left (c ∷ right)) (size : ℕ) (fits : size ≤ c.size)
    (unused : c.used ≡ false) where
  bound : here + header + c.size ≤ end
  bound = from-le-end (here + header + c.size) right end z.tile_right.1

  keep_left : (st' : Store) → ((x : ℕ) → x < here → st' x ≡ st x) → Left st' p prev left
  keep_left st' same = Left-frame st st' here p prev start left same z.tile_left z.before

  -- the block is taken whole
  take_whole :
      (st' : Store)
      → st' ≡ write p (record (st p) { used = true }) st
      → Zip st' start here end prev p left
          (record { addr = c.addr; size = c.size; used = true } ∷ right)
  unfolding write
  take_whole st' e =
      let (n, ep, pos, h, rest) = z.behind in
      record {
        before = keep_left st' (λ x lt. ground (arith, ap (λ s. s x) e, z.tile_right.0));
        behind = (
          n,
          ep,
          pos,
          ground (arith, ap (λ s. s p) e),
          Right-frame st st' (here + header + c.size) p n right end
              (λ x le. ground (arith, ap (λ s. s x) e, z.tile_right.0)) z.tile_right.1 rest,
        );
        tile_left = z.tile_left;
        tile_right = z.tile_right;
        small = z.small;
      }

  -- the header behind the first `size` bytes, and the link back to it, before the chosen block's own
  abbrev cut : ℕ → Store
  cut n = set_prev n (p + header + size) (
      write (p + header + size)
        (record {
          magic = block_magic;
          size = sub64 (sub64 c.size size) header;
          next = n;
          prev = p;
          used = false;
        })
        st)

  cut_right :
      (n : ℕ)
      → p ≡ c.addr
      → 0 < p
      → size + header + 16 ≤ c.size
      → Right st p n right
      → (cut n (p + header + size)
          ≡ hdr
              (record { addr = p + header + size; size = c.size - size - header; used = false })
              n
              p)
        × Right (cut n) (p + header + size) n right
        × ((x : ℕ) → x < p + header + size → cut n x ≡ st x)
  unfolding write set_prev
  cut_right n ep pos room rest =
      let new_block = p + header + size in
      let from = here + header + c.size in
      let st1 =
        write new_block
          (record {
            magic = block_magic;
            size = sub64 (sub64 c.size size) header;
            next = n;
            prev = p;
            used = false;
          })
          st in
      let tile = z.tile_right.1 in
      let at : here ≡ p = omega (arith, z.tile_right.0) in
      let far : n ≢ new_block =
        next-apart st from p n new_block right end tile rest (omega arith) (omega arith) in
      (
        ground (arith, bound, z.small),
        set_prev-Right st1 from p new_block n right end tile
            (Right-frame st st1 from p n right end (λ x le. ground arith) tile rest),
        λ x lt. elim (Bool-cases (x == 0)) [
          | inl null ↦ ground arith
          | inr pos_x ↦
              ground
                (arith, next-apart st from p n x right end tile rest (omega arith) (ground arith))
        ],
      )

  split_block-cut :
      (n : ℕ)
      → st p ≡ hdr c n prev
      → split_block p size st
        ≡ write p (record (cut n p) { size = size; next = p + header + size }) (cut n)
  unfolding split_block
  split_block-cut n h =
      ap
        (λ b.
          let s2 = set_prev b.next (p + header + size) (
            write (p + header + size)
              (record {
                magic = block_magic;
                size = sub64 (sub64 b.size size) header;
                next = b.next;
                prev = p;
                used = false;
              })
              st) in
          write p (record (s2 p) { size = size; next = p + header + size }) s2)
        h

  take_block-split :
      (n : ℕ)
      → st p ≡ hdr c n prev
      → size + header + 16 ≤ c.size
      → (x : ℕ)
      → take_block p size st x
        ≡ write p
            (record (cut n p) { size = size; next = p + header + size; used = true })
            (cut n)
            x
  unfolding take_block write
  take_block-split n h room x =
      let split : leb (u64 (size + header + 16)) (st p).size ≡ true =
        ap (λ b. leb (u64 (size + header + 16)) b.size) h ∙ ground (arith, bound, z.small) in
      rw (split)
        (ground (arith, ap (λ s. s x) (split_block-cut n h), ap (λ s. s p) (split_block-cut n h)))

  -- the block is split
  take_split :
      (st' : Store)
      → size + header + 16 ≤ c.size
      → st' ≡ take_block p size st
      → Zip st' start here end prev p left (claimed c size right)
  unfolding write
  take_split st' room e =
      let (n, ep, pos, h, rest) = z.behind in
      let (h_new, rest_new, low) = cut_right n ep pos room rest in
      let new_block = p + header + size in
      let fresh : Cell = record { addr = new_block; size = c.size - size - header; used = false } in
      let taken : Cell = record { addr = c.addr; size = size; used = true } in
      let at : here ≡ p = omega (arith, z.tile_right.0) in
      let room_test : leb (size + header + 16) c.size ≡ true = ground arith in
      let val = λ (x : ℕ). ap (λ s. s x) e ∙ take_block-split n h room x in
      let outside : (x : ℕ) → x ≢ p → st' x ≡ cut n x = λ x ne. ground (arith, val x) in
      simp room_test (record {
        before = keep_left st' (λ x lt. outside x (omega arith) ∙ low x (omega arith));
        behind = (
          new_block,
          ep,
          pos,
          ground (arith, val p, low p),
          (
            n,
            omega arith,
            omega arith,
            outside new_block (omega arith) ∙ h_new,
            Right-frame (cut n) st' (here + header + c.size) new_block n right end
                (λ x le. outside x (omega arith)) z.tile_right.1 rest_new,
          ),
        );
        tile_left = z.tile_left;
        tile_right = (
          z.tile_right.0,
          (
            omega (arith, z.tile_right.0),
            subst (λ a. TileRight a right end) (omega arith) z.tile_right.1,
          ),
        );
        small = z.small;
      })

  take_block-whole :
      leb (size + header + 16) c.size ≡ false
      → take_block p size st ≡ write p (record (st p) { used = true }) st
  unfolding take_block
  take_block-whole tight =
      let (n, ep, pos, h, rest) = z.behind in
      let no_room : leb (u64 (size + header + 16)) (st p).size ≡ false =
        ap (λ b. leb (u64 (size + header + 16)) b.size) h ∙ ground (arith, bound, z.small) in
      rw no_room refl

  -- `malloc` on the chosen block: it splits a block with room for a header and 16 bytes more, and
  -- takes any other whole.
  pub take_block-Zip : Zip (take_block p size st) start here end prev p left (claimed c size right)
  take_block-Zip = elim (Bool-cases (leb (size + header + 16) c.size)) [
    | inl room ↦ take_split (take_block p size st) (leb→le _ _ room) refl
    | inr tight ↦ simp tight (take_whole (take_block p size st) (take_block-whole tight))
  ]
