-- ===== src/Heap/Free.antt =====
-- What `free` returns, and that it undoes `malloc` on a heap without adjacent free blocks.
use kernix_os.Base.{
  ℕ, ◌+◌, ◌<◌, ◌≡◌, refl, ◌∙◌, ap, sym, true, false, some, List, [], ◌∷◌, ◌==◌, arith, length,
}
use kernix_os.Heap.{
  block_magic, header, Store, write, sub64, merge_backward, then_backward, heap_merge_free_blocks,
  free_block, free,
}
use kernix_os.Heap.Layout.{
  Cell, hdr, unzip, IsHeap, At, IsHeap-At, At-IsHeap, from-le-end, Right-frame, Left-frame,
}
use kernix_os.Heap.Release.{
  merge, run_free, drop_free, join_right, join_left, Merged, merge_forward-At, merge_backward-At,
  step_right, step_left,
}

abbrev pub released : Cell → Cell
released c = record { addr = c.addr; size = c.size; used = false }

addr-join_right : (c : Cell) (rs : List Cell) → (join_right c rs).addr ≡ c.addr
addr-join_right c [] = refl
addr-join_right c (r ∷ rs) = ground (arith, addr-join_right (merge c r) rs)

free_block-live :
    (fuel : ℕ) (st : Store) (p : ℕ)
    → (st p).magic ≡ block_magic
    → (st p).used ≡ true
    → free_block fuel p st
      ≡ heap_merge_free_blocks fuel p (write p (record (st p) { used = false }) st)
unfolding free_block
free_block-live fuel st p magic live = ground (arith)

module _ (start end : ℕ) where
  heap_merge_free_blocks-At :
      (fuel : ℕ) (st : Store) (c : Cell) (left right : List Cell)
      → At st start end left (c ∷ right)
      → length left < fuel
      → length right < fuel
      → Merged start end
          (run_free right + run_free left)
          (drop_free left)
          (join_left (join_right c right) left ∷ drop_free right)
          (heap_merge_free_blocks fuel c.addr st)
  unfolding heap_merge_free_blocks then_backward
  heap_merge_free_blocks-At fuel st c left right a lt_left lt_right =
      let (n, e, pos, h, _) = a.zip.behind in
      let magic : (st c.addr).magic ≡ block_magic =
        ap (λ x. (st x).magic) (sym e) ∙ ap (λ b. b.magic) h in
      let (st1, e1, a1) =
        merge_forward-At start end fuel st 0 c left right (step_right left c right a) lt_right in
      let c1 = join_right c right in
      let (st2, e2, a2) =
        merge_backward-At start end fuel st1 (run_free right) c1 left (drop_free right)
          (step_left left c1 (drop_free right) a1) lt_left in
      (
        st2,
        rw magic (
            ap (then_backward fuel c.addr) e1
            ∙ ap (λ n. merge_backward fuel c.addr n st1) (omega arith)
            ∙ ap (λ x. merge_backward fuel x (run_free right) st1) (sym (addr-join_right c right))
            ∙ e2),
        a2,
      )

  mark-At :
      (st : Store) (c : Cell) (left right : List Cell)
      → At st start end left (c ∷ right)
      → At
          (write c.addr (record (st c.addr) { used = false }) st)
          start
          end
          left
          (released c ∷ right)
  unfolding write
  mark-At st c left right a =
      let (n, e, pos, h, rest) = a.zip.behind in
      let st' = write c.addr (record (st c.addr) { used = false }) st in
      let same : (st c.addr) ≡ hdr c n a.prev = ap st (sym e) ∙ h in
      let tile = a.zip.tile_right in
      record {
        here = a.here;
        prev = a.prev;
        p = a.p;
        zip = record {
          before =
              Left-frame st st' a.here a.p a.prev start left (λ x lt. ground (arith, tile.0))
                a.zip.tile_left a.zip.before;
          behind = (
            n,
            e,
            pos,
            ground (arith),
            Right-frame st st' (a.here + header + c.size) a.p n right end
                (λ x le. ground (arith, tile.0)) tile.1 rest,
          );
          tile_left = a.zip.tile_left;
          tile_right = tile;
          small = a.zip.small;
        };
      }

  free-At :
      (fuel : ℕ) (st : Store) (c : Cell) (left right : List Cell)
      → At st start end left (c ∷ right)
      → c.used ≡ true
      → length left < fuel
      → length right < fuel
      → Merged start end
          (run_free right + run_free left)
          (drop_free left)
          (join_left (join_right (released c) right) left ∷ drop_free right)
          (free fuel (c.addr + header) st)
  unfolding free free_block
  free-At fuel st c left right a used lt_left lt_right =
      let (n, e, pos, h, _) = a.zip.behind in
      let same : st c.addr ≡ hdr c n a.prev = ap st (sym e) ∙ h in
      let bound = from-le-end (a.here + header + c.size) right end a.zip.tile_right.1 in
      let back : sub64 (c.addr + header) header ≡ c.addr =
        omega (arith, bound, a.zip.small, a.zip.tile_right.0) in
      let null : ((c.addr + header) == 0) ≡ false = ground arith in
      let magic : (st c.addr).magic ≡ block_magic = ap (λ b. b.magic) same in
      let live : (st c.addr).used ≡ true = ap (λ b. b.used) same ∙ used in
      let (st', e1, a1) =
        heap_merge_free_blocks-At fuel (write c.addr (record (st c.addr) { used = false }) st)
          (released c) left right (mark-At st c left right a) lt_left lt_right in
      (
        st',
        rw (null) (
            ap (λ p. free_block fuel p st) back ∙ (free_block-live fuel st c.addr magic live ∙ e1)),
        a1,
      )

  pub free-IsHeap :
      (fuel : ℕ) (st : Store) (c : Cell) (left right : List Cell)
      → IsHeap st start end (unzip left (c ∷ right))
      → c.used ≡ true
      → length left < fuel
      → length right < fuel
      → (st' : Store) × (free fuel (c.addr + header) st
          ≡ some (run_free right + run_free left, st'))
        × IsHeap st' start end (
            unzip
              (drop_free left)
              (join_left (join_right (released c) right) left ∷ drop_free right))
  free-IsHeap fuel st c left right h used lt_left lt_right =
      let (st', e, a) =
        free-At fuel st c left right (IsHeap-At left (c ∷ right) h) used lt_left lt_right in
      (st', e, At-IsHeap _ _ a)
