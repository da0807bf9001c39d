-- ===== src/Phys/Mark.antt =====
-- What the marking loops of physmem.c do to the bitmap and to the frame records.
use kernix_os.Base.{
  ℕ, zero, suc, ◌+◌, ◌-◌, ◌*◌, ◌^◌, ◌≤◌, ◌<◌, ◌≡◌, refl, ◌∙◌, Bool, true, ◌&&◌, arith, ltb, leb,
  ◌==◌, if◌then◌else◌, Bool-cases, inl, inr, length, get_or, length-set, get_or-set_self,
  get_or-set_ne,
}
use kernix_os.Phys.{
  PageFrame, Physmem, bitmap_test, Marking, mark_frame, mark_each, mark_range, clamp_end,
}
use kernix_os.Phys.Bits.{
  AreBytes, test-set, test-clear, bitmap_set-AreBytes, bitmap_clear-AreBytes, length-bitmap_set,
  length-bitmap_clear,
}

-- The tables cover every frame, and every frame has an address below 2 ^ 64.
pub record IsValid (p : Physmem) : Type 0 where
  pub tracked : p.tracked ≡ true
  pub bytes : AreBytes p.bitmap
  pub covered : p.total ≤ 8 * length p.bitmap
  pub frames : length p.pageframes ≡ p.total
  pub small : p.total ≤ 2 ^ 52

abbrev pub no_frame : PageFrame
no_frame = record { rc = 0; flags = 0 }

abbrev pub used_at : Physmem → ℕ → Bool
used_at p i = bitmap_test p.bitmap i

abbrev pub frame_at : Physmem → ℕ → PageFrame
frame_at p i = get_or p.pageframes i no_frame

-- `i` is one of the `n` frames from `frame` on.
abbrev pub within : ℕ → ℕ → ℕ → Bool
within frame n i = leb frame i && ltb i (frame + n)

module _ (m : Marking) (frame : ℕ) {p : Physmem} (v : IsValid p) (inside : frame < p.total) where
  mark_frame-IsValid : IsValid (mark_frame m frame p)
  unfolding mark_frame
  mark_frame-IsValid = elim (Bool-cases m.used) [
    | inl e ↦ record {
      tracked = v.tracked;
      bytes = rw e (bitmap_set-AreBytes p.bitmap v.bytes frame (omega (arith, v.covered)));
      covered = rw e (omega (arith, v.covered, length-bitmap_set p.bitmap frame));
      frames = omega (arith, v.frames, length-set p.pageframes frame m.frame);
      small = v.small;
    }
    | inr e ↦ record {
      tracked = v.tracked;
      bytes = rw e (bitmap_clear-AreBytes p.bitmap v.bytes frame (omega (arith, v.covered)));
      covered = rw e (omega (arith, v.covered, length-bitmap_clear p.bitmap frame));
      frames = omega (arith, v.frames, length-set p.pageframes frame m.frame);
      small = v.small;
    }
  ]

  used_at-mark_frame :
      (i : ℕ) → used_at (mark_frame m frame p) i ≡ (if frame == i then m.used else used_at p i)
  unfolding mark_frame
  used_at-mark_frame i = elim (Bool-cases m.used) [
    | inl e ↦ rw (e) (test-set p.bitmap v.bytes frame (omega (arith, v.covered)) i)
    | inr e ↦ rw (e) (test-clear p.bitmap v.bytes frame (omega (arith, v.covered)) i)
  ]

  frame_at-mark_frame :
      (i : ℕ) → frame_at (mark_frame m frame p) i ≡ (if frame == i then m.frame else frame_at p i)
  unfolding mark_frame
  frame_at-mark_frame i = elim (Bool-cases (frame == i)) [
    | inl e ↦ ground (arith, v.frames, get_or-set_self p.pageframes frame m.frame no_frame)
    | inr e ↦ ground (arith, get_or-set_ne p.pageframes frame i m.frame no_frame)
  ]

-- The result of marking `n` frames from `frame` on.
pub record Marked (m : Marking) (n frame : ℕ) (p q : Physmem) : Type 0 where
  pub valid : IsValid q
  pub same_total : q.total ≡ p.total
  pub bits : (i : ℕ) → used_at q i ≡ (if within frame n i then m.used else used_at p i)
  pub records : (i : ℕ) → frame_at q i ≡ (if within frame n i then m.frame else frame_at p i)

total-mark_frame : (m : Marking) (frame : ℕ) (p : Physmem) → (mark_frame m frame p).total ≡ p.total
unfolding mark_frame
total-mark_frame m frame p = refl

mark_none :
    (m : Marking) (frame : ℕ) {p : Physmem} → IsValid p → Marked m 0 frame p (mark_each m 0 frame p)
unfolding mark_each
mark_none m frame v = record {
  valid = v;
  same_total = refl;
  bits = λ i. ground arith;
  records = λ i. ground arith;
}

pub mark_each-Marked :
    (m : Marking) (n frame : ℕ) {p : Physmem}
    → IsValid p
    → frame + n ≤ p.total
    → Marked m n frame p (mark_each m n frame p)
unfolding mark_each
mark_each-Marked m zero frame v h = mark_none m frame v
mark_each-Marked m (suc n) frame {p} v h =
    let inside : frame < p.total = omega arith in
    let rest =
      mark_each-Marked m n (frame + 1) (mark_frame-IsValid m frame v inside)
        (omega (arith, total-mark_frame m frame p)) in
    record {
      valid = rest.valid;
      same_total = rest.same_total ∙ total-mark_frame m frame p;
      bits = λ i. ground (arith, rest.bits i, used_at-mark_frame m frame v inside i);
      records = λ i. ground (arith, rest.records i, frame_at-mark_frame m frame v inside i);
    }

-- A range is marked up to the last frame, and one that starts behind it marks nothing.
pub mark_range-Marked :
    (m : Marking) (frame_start frame_end : ℕ) {p : Physmem}
    → IsValid p
    → Marked m
        (clamp_end p.total frame_end - frame_start)
        frame_start
        p
        (mark_range m frame_start frame_end p)
unfolding mark_range
mark_range-Marked m s e {p} v = elim (Bool-cases (leb s p.total)) [
  | inl h ↦ mark_each-Marked m (clamp_end p.total e - s) s v (ground arith)
  | inr h ↦
      let none_left : clamp_end p.total e - s ≡ 0 = ground arith in rw none_left (mark_none m s v)
]
