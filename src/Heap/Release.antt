-- ===== src/Heap/Release.antt =====
-- What `free` does: the block and the free blocks around it become one.
use kernix_os.Base.{
  ℕ, zero, suc, ◌+◌, ◌<◌, ◌≡◌, refl, ◌∙◌, ap, sym, subst, inl, inr, Bool, false, not, Option, some,
  List, [], ◌∷◌, ◌==◌, if◌then◌else◌, arith, length, Bool-cases, u64,
}
use kernix_os.Heap.{
  header, Store, write, can_merge, set_prev_checked, absorb, merge_forward, merge_backward,
}
use kernix_os.Heap.Layout.{
  Cell, hdr, TileRight, Zip, At, from-le-end, Right-frame, Left-frame, set_prev_checked-Right,
  next-apart, move_left, move_right,
}

abbrev pub merge : Cell → Cell → Cell
merge low high = record { addr = low.addr; size = low.size + header + high.size; used = low.used }

module _ {st : Store} {start end : ℕ} where
  absorb-Zip :
      (here prev p : ℕ) (low high : Cell) (left right : List Cell)
      → Zip st start here end prev p (low ∷ left) (high ∷ right)
      → (q : ℕ) × Zip (absorb prev p st) start low.addr end q prev left (merge low high ∷ right)
  unfolding absorb set_prev_checked write
  absorb-Zip here prev p low high left right z =
      let (q, e_low, pos_low, h_low, before) = z.before in
      let (n, e_high, pos_high, h_high, behind) = z.behind in
      let from = here + header + high.size in
      let tile = z.tile_right.1 in
      let st1 =
        write prev
          (record (st prev) {
            size = u64 ((st prev).size + header + (st p).size);
            next = (st p).next;
          })
          st in
      let st2 = set_prev_checked n prev st1 in
      let next : (st p).next ≡ n = ap (λ b. b.next) h_high in
      let e : absorb prev p st ≡ st2 = ap (λ x. set_prev_checked x prev st1) next in
      let bound = from-le-end from right end tile in
      let order : prev < here = omega (arith, z.tile_left.0) in
      let low_same : (x : ℕ) → x < from → st2 x ≡ st1 x = λ x lt. elim (Bool-cases (x == 0)) [
        | inl null ↦ ground arith
        | inr pos ↦ ground (arith, next-apart st from p n x right end tile behind lt (ground arith))
      ] in
      (
        q,
        subst (λ s. Zip s start low.addr end q prev left (merge low high ∷ right)) (sym e)
            (record {
              before =
                  Left-frame st st2 low.addr prev q start left
                    (λ x lt. low_same x (omega (arith, z.tile_left.0)) ∙ ground arith) z.tile_left.1
                    before;
              behind = (
                n,
                e_low,
                pos_low,
                low_same prev (omega arith) ∙ ground (arith, z.small, z.tile_left.0, bound),
                set_prev_checked-Right st1 from p prev n right end tile
                    (Right-frame st st1 from p n right end (λ x le. ground arith) tile behind),
              );
              tile_left = z.tile_left.1;
              tile_right =
                  (refl, subst (λ a. TileRight a right end) (omega (arith, z.tile_left.0)) tile);
              small = z.small;
            }),
      )

-- The free blocks at the head of a list: how many there are, what is behind them, and the block that
-- they become together with `c` before them, or behind them.
abbrev pub run_free : List Cell → ℕ
run_free [] = 0
run_free (r ∷ rs) = if r.used then 0 else suc (run_free rs)

abbrev pub drop_free : List Cell → List Cell
drop_free [] = []
drop_free (r ∷ rs) = if r.used then r ∷ rs else drop_free rs

abbrev pub join_right : Cell → List Cell → Cell
join_right c [] = c
join_right c (r ∷ rs) = if r.used then c else join_right (merge c r) rs

abbrev pub join_left : Cell → List Cell → Cell
join_left c [] = c
join_left c (l ∷ ls) = if l.used then c else join_left (merge l c) ls

can_merge-hdr :
    (st : Store) (p : ℕ) (c : Cell) (n q : ℕ)
    → st p ≡ hdr c n q
    → 0 < p
    → can_merge st p ≡ not c.used
unfolding can_merge
can_merge-hdr st p c n q h pos = ground (arith, ap (λ b. b.used) h, ap (λ b. b.magic) h)

-- The heap after a merging loop that merged `n` blocks.
abbrev pub Merged : (start end n : ℕ) → List Cell → List Cell → Option (ℕ × Store) → Type 0
Merged start end n left right r = (st' : Store) × (r ≡ some (n, st')) × At st' start end left right

abbrev pub head_free : List Cell → Bool
head_free [] = false
head_free (r ∷ rs) = not r.used

can_merge-null : (st : Store) (p : ℕ) → p ≡ 0 → can_merge st p ≡ false
unfolding can_merge
can_merge-null st p e = ground arith

module _ {st : Store} {start end : ℕ} where
  link_next :
      (c : Cell) (left right : List Cell) (a : At st start end (c ∷ left) right)
      → (st c.addr).next ≡ a.p
  link_next c left right a =
      let (q, e, _, h, _) = a.zip.before in ap (λ x. (st x).next) (sym e) ∙ ap (λ b. b.next) h

  link_prev :
      (c : Cell) (left right : List Cell) (a : At st start end left (c ∷ right))
      → (st c.addr).prev ≡ a.prev
  link_prev c left right a =
      let (n, e, _, h, _) = a.zip.behind in ap (λ x. (st x).prev) (sym e) ∙ ap (λ b. b.prev) h

  can_merge-right :
      (left right : List Cell) (a : At st start end left right) → can_merge st a.p ≡ head_free right
  can_merge-right left [] a = can_merge-null st a.p a.zip.behind
  can_merge-right left (r ∷ rs) a =
      let (n, e, pos, h, _) = a.zip.behind in can_merge-hdr st a.p r n a.prev h pos

  can_merge-left :
      (left right : List Cell) (a : At st start end left right)
      → can_merge st a.prev ≡ head_free left
  can_merge-left [] right a = can_merge-null st a.prev a.zip.before
  can_merge-left (l ∷ ls) right a =
      let (q, e, pos, h, _) = a.zip.before in can_merge-hdr st a.prev l a.p q h pos

  pub step_right :
      (left : List Cell) (c : Cell) (right : List Cell)
      → At st start end left (c ∷ right)
      → At st start end (c ∷ left) right
  step_right left c right a =
      let (n, z) = move_right a.here a.prev a.p left c right a.zip in
      record { here = _; prev = a.p; p = n; zip = z }

  pub step_left :
      (left : List Cell) (c : Cell) (right : List Cell)
      → At st start end (c ∷ left) right
      → At st start end left (c ∷ right)
  step_left left c right a =
      let (q, z) = move_left a.here a.prev a.p left c right a.zip in
      record { here = c.addr; prev = q; p = a.prev; zip = z }

  absorb-At :
      (low high : Cell) (left right : List Cell)
      → At st start end (low ∷ left) (high ∷ right)
      → At (absorb low.addr high.addr st) start end left (merge low high ∷ right)
  absorb-At low high left right a =
      let (q, z) = absorb-Zip a.here a.prev a.p low high left right a.zip in
      let (_, e_low, _, _, _) = a.zip.before in
      let (_, e_high, _, _, _) = a.zip.behind in
      subst (λ s. At s start end left (merge low high ∷ right))
        (ap (λ x. absorb x a.p st) e_low ∙ ap (λ x. absorb low.addr x st) e_high)
        (record { here = low.addr; prev = q; p = a.prev; zip = z })

forward_step :
    (fuel : ℕ) (st : Store) (ret b n : ℕ) (on : Bool)
    → (st b).next ≡ n
    → can_merge st n ≡ on
    → merge_forward (suc fuel) b ret st
      ≡ (if on then merge_forward fuel b (ret + 1) (absorb b n st) else some (ret, st))
unfolding merge_forward
forward_step fuel st ret b n on e t =
    ap
      (λ x.
        if can_merge st x then merge_forward fuel b (ret + 1) (absorb b x st) else some (ret, st))
      e
    ∙ ap (λ g. if g then merge_forward fuel b (ret + 1) (absorb b n st) else some (ret, st)) t

backward_step :
    (fuel : ℕ) (st : Store) (ret b n : ℕ) (on : Bool)
    → (st b).prev ≡ n
    → can_merge st n ≡ on
    → merge_backward (suc fuel) b ret st
      ≡ (if on then merge_backward fuel n (ret + 1) (absorb n b st) else some (ret, st))
unfolding merge_backward
backward_step fuel st ret b n on e t =
    ap
      (λ x.
        if can_merge st x then merge_backward fuel x (ret + 1) (absorb x b st) else some (ret, st))
      e
    ∙ ap (λ g. if g then merge_backward fuel n (ret + 1) (absorb n b st) else some (ret, st)) t

module _ (start end : ℕ) where
  pub merge_forward-At :
      (fuel : ℕ) (st : Store) (ret : ℕ) (c : Cell) (left right : List Cell)
      → At st start end (c ∷ left) right
      → length right < fuel
      → Merged start end
          (ret + run_free right)
          (join_right c right ∷ left)
          (drop_free right)
          (merge_forward fuel c.addr ret st)
  unfolding merge_forward
  merge_forward-At zero st ret c left right a lt = absurd (omega arith)
  merge_forward-At (suc fuel) st ret c left [] a lt =
      let stop : can_merge st (st c.addr).next ≡ false =
        ap (can_merge st) (link_next c left [] a) ∙ can_merge-right (c ∷ left) [] a in
      rw stop (st, ap (λ n. some (n, st)) (omega arith), a)
  merge_forward-At (suc fuel) st ret c left (r ∷ rs) a lt =
      let (_, e, _, _, _) = a.zip.behind in
      let at : (st c.addr).next ≡ r.addr = link_next c left (r ∷ rs) a ∙ e in
      let test : can_merge st r.addr ≡ not r.used =
        ap (can_merge st) (sym e) ∙ can_merge-right (c ∷ left) (r ∷ rs) a in
      let step = forward_step fuel st ret c.addr r.addr (not r.used) at test in
      elim (Bool-cases r.used) [
        | inl used ↦ simp used (st, (step ∙ rw used (ap (λ n. some (n, st)) (omega arith))), a)
        | inr free_next ↦
            let st1 = absorb c.addr r.addr st in
            let (st', eq, a') =
              merge_forward-At fuel st1 (ret + 1) (merge c r) left rs
                (step_right left (merge c r) rs (absorb-At c r left rs a)) (omega arith) in
            simp free_next
              (st', (step ∙ rw free_next (eq ∙ ap (λ n. some (n, st')) (omega arith))), a')
      ]

  pub merge_backward-At :
      (fuel : ℕ) (st : Store) (ret : ℕ) (c : Cell) (left right : List Cell)
      → At st start end left (c ∷ right)
      → length left < fuel
      → Merged start end
          (ret + run_free left)
          (drop_free left)
          (join_left c left ∷ right)
          (merge_backward fuel c.addr ret st)
  unfolding merge_backward
  merge_backward-At zero st ret c left right a lt = absurd (omega arith)
  merge_backward-At (suc fuel) st ret c [] right a lt =
      let stop : can_merge st (st c.addr).prev ≡ false =
        ap (can_merge st) (link_prev c [] right a) ∙ can_merge-left [] (c ∷ right) a in
      rw stop (st, ap (λ n. some (n, st)) (omega arith), a)
  merge_backward-At (suc fuel) st ret c (l ∷ ls) right a lt =
      let (_, e, _, _, _) = a.zip.before in
      let at : (st c.addr).prev ≡ l.addr = link_prev c (l ∷ ls) right a ∙ e in
      let test : can_merge st l.addr ≡ not l.used =
        ap (can_merge st) (sym e) ∙ can_merge-left (l ∷ ls) (c ∷ right) a in
      let step = backward_step fuel st ret c.addr l.addr (not l.used) at test in
      elim (Bool-cases l.used) [
        | inl used ↦ simp used (st, (step ∙ rw used (ap (λ n. some (n, st)) (omega arith))), a)
        | inr free_prev ↦
            let st1 = absorb l.addr c.addr st in
            let (st', eq, a') =
              merge_backward-At fuel st1 (ret + 1) (merge l c) ls right (absorb-At l c ls right a)
                (omega arith) in
            simp free_prev (
              st',
              (step ∙ rw free_prev (eq ∙ ap (λ n. some (n, st')) (omega arith))),
              simp free_prev at a',
            )
      ]
