-- ===== src/Mouse/Packet.antt =====
-- A packet of core/drivers/ps2/mouse/mouse.c, and the direction of its movement on the screen.
use kernix_os.Base.{
  ℕ, ◌+◌, ◌-◌, ◌/◌, ◌%◌, ◌^◌, ◌≤◌, ◌<◌, Bool, true, false, ◌&&◌, ◌||◌, List, [], ◌∷◌, ◌++◌, ltb,
  ◌==◌, u32, ◌≡◌, refl, sym, ap, subst, ◌∙◌, arith, if_true, if_false,
}
use kernix_os.Mouse.{
  Mouse, Screen, MouseCall, irq_ack, cursor_width, cursor_height, extended, fast, scaled, kept,
  place_mouse, move_mouse, put_byte, clamp, mouse_interrupt_handler, interrupts,
}
use kernix_os.Mouse.Word.{OnScreen, IsScreen, MovesOn, MovesBack, clamp-forward, clamp-back}
use kernix_os.Mouse.Place.{Shown}
use kernix_os.Mouse.Scale.{size_of, distance, fast_size, scaled_forward, scaled_back}

-- One coordinate under a movement that is added, and under one that is subtracted
module _ (fb size p a : ℕ) (screen : IsScreen fb size) (on : OnScreen fb size p a) (quick : Bool)
    (b f : ℕ) (hf : f ≤ 500) where
  added_forward :
      b < 128
      → MovesOn fb size p a
          (distance quick b f)
          (clamp fb size (u32 (a + scaled quick (extended b) f))).0
  added_forward h =
      let (most, eq) = scaled_forward quick b f h hf in
      subst (λ x. MovesOn fb size p a (distance quick b f) (clamp fb size (u32 (a + x))).0) (sym eq)
        (clamp-forward fb size p a screen on (distance quick b f) most)

  added_back :
      128 ≤ b
      → b < 256
      → MovesBack p a
          (distance quick (256 - b) f)
          (clamp fb size (u32 (a + scaled quick (extended b) f))).0
  added_back h h' =
      let (most, eq) = scaled_back quick b f h h' hf in
      let e = distance quick (256 - b) f in
      let same : u32 (a + u32 (2 ^ 32 - e)) ≡ u32 (a + 2 ^ 32 - e) = omega (arith, most) in
      subst (λ x. MovesBack p a e (clamp fb size (u32 (a + x))).0) (sym eq)
        (subst (λ x. MovesBack p a e (clamp fb size x).0) (sym same)
          (clamp-back fb size p a screen on e most))

  taken_back :
      b < 128
      → MovesBack p a
          (distance quick b f)
          (clamp fb size (u32 (a + 2 ^ 32 - scaled quick (extended b) f))).0
  taken_back h =
      let (most, eq) = scaled_forward quick b f h hf in
      let e = distance quick b f in
      subst (λ x. MovesBack p a e (clamp fb size (u32 (a + 2 ^ 32 - x))).0) (sym eq)
        (clamp-back fb size p a screen on e most)

  taken_forward :
      128 ≤ b
      → b < 256
      → MovesOn fb size p a
          (distance quick (256 - b) f)
          (clamp fb size (u32 (a + 2 ^ 32 - scaled quick (extended b) f))).0
  taken_forward h h' =
      let (most, eq) = scaled_back quick b f h h' hf in
      let d = distance quick (256 - b) f in
      let same : u32 (a + 2 ^ 32 - u32 (2 ^ 32 - d)) ≡ u32 (a + d) = omega (arith, most) in
      subst (λ x. MovesOn fb size p a d (clamp fb size (u32 (a + 2 ^ 32 - x))).0) (sym eq)
        (subst (λ x. MovesOn fb size p a d (clamp fb size x).0) (sym same)
          (clamp-forward fb size p a screen on d most))

-- The pointer moves by the distances that the bytes stand for: y counts upwards in a packet and downwards on
-- the screen.
pub record Follows (screen : Screen) (width height b1 b2 : ℕ) (m m' : Mouse) : Type 0 where
  pub quick : Bool
  pub is_quick : quick ≡ (ltb 5 (size_of b1) || ltb 5 (size_of b2))
  pub right :
      b1 < 128
      → MovesOn screen.fb_width width m.mouse_x m.mouse_x_accum
          (distance quick b1 m.mouse_sensitivity_factor)
          m'.mouse_x
  pub left :
      128 ≤ b1
      → MovesBack m.mouse_x m.mouse_x_accum
          (distance quick (256 - b1) m.mouse_sensitivity_factor)
          m'.mouse_x
  pub up :
      b2 < 128
      → MovesBack m.mouse_y m.mouse_y_accum
          (distance quick b2 m.mouse_sensitivity_factor)
          m'.mouse_y
  pub down :
      128 ≤ b2
      → MovesOn screen.fb_height height m.mouse_y m.mouse_y_accum
          (distance quick (256 - b2) m.mouse_sensitivity_factor)
          m'.mouse_y

module _ (screen : Screen) (width height : ℕ) (fits_x : IsScreen screen.fb_width width)
    (fits_y : IsScreen screen.fb_height height) (m : Mouse) (wide : cursor_width m ≡ width)
    (high : cursor_height m ≡ height)
    (on_x : OnScreen screen.fb_width width m.mouse_x m.mouse_x_accum)
    (on_y : OnScreen screen.fb_height height m.mouse_y m.mouse_y_accum)
    (factor : m.mouse_sensitivity_factor ≤ 500) (byte_x : m.packet_x < 256)
    (byte_y : m.packet_y < 256) where
  kept-clamp :
      (fb size size' accum : ℕ)
      → size ≡ size'
      → (kept screen fb size accum).0 ≡ (clamp fb size' accum).0
  unfolding kept
  kept-clamp fb size size' accum e =
      let shown : (ltb 0 screen.fb_width && ltb 0 screen.fb_height) ≡ true =
        ground (arith, fits_x.larger, fits_y.larger) in
      ap (λ (q : ℕ × ℕ). q.0) (if_true _ _ _ shown) ∙ ap (λ s. (clamp fb s accum).0) e

  move_mouse-Follows : Follows screen width height m.packet_x m.packet_y m (move_mouse screen m).1
  unfolding move_mouse place_mouse
  move_mouse-Follows =
      let quick = fast (extended m.packet_x) || fast (extended m.packet_y) in
      let f = m.mouse_sensitivity_factor in
      let at_x : (move_mouse screen m).1.mouse_x
          ≡ (clamp screen.fb_width width
              (u32 (m.mouse_x_accum + scaled quick (extended m.packet_x) f))).0 =
        kept-clamp screen.fb_width (cursor_width m) width _ wide in
      let at_y : (move_mouse screen m).1.mouse_y
          ≡ (clamp screen.fb_height height
              (u32 (m.mouse_y_accum + 2 ^ 32 - scaled quick (extended m.packet_y) f))).0 =
        kept-clamp screen.fb_height (cursor_height m) height _ high in
      record {
        quick = quick;
        is_quick =
            ap (λ x. x || fast (extended m.packet_y)) (fast_size m.packet_x byte_x)
            ∙ ap (λ y. ltb 5 (size_of m.packet_x) || y) (fast_size m.packet_y byte_y);
        right = λ h.
            subst
              (MovesOn screen.fb_width width m.mouse_x m.mouse_x_accum
                (distance quick m.packet_x f))
              (sym at_x)
              (added_forward screen.fb_width width m.mouse_x m.mouse_x_accum fits_x on_x quick
                m.packet_x f factor h);
        left = λ h.
            subst (MovesBack m.mouse_x m.mouse_x_accum (distance quick (256 - m.packet_x) f))
              (sym at_x)
              (added_back screen.fb_width width m.mouse_x m.mouse_x_accum fits_x on_x quick
                m.packet_x f factor h byte_x);
        up = λ h.
            subst (MovesBack m.mouse_y m.mouse_y_accum (distance quick m.packet_y f)) (sym at_y) (
              taken_back screen.fb_height height m.mouse_y m.mouse_y_accum fits_y on_y quick
                m.packet_y f factor h);
        down = λ h.
            subst
              (MovesOn screen.fb_height height m.mouse_y m.mouse_y_accum
                (distance quick (256 - m.packet_y) f))
              (sym at_y)
              (taken_forward screen.fb_height height m.mouse_y m.mouse_y_accum fits_y on_y quick
                m.packet_y f factor h byte_y);
      }

-- One interrupt that is counted, and what it leaves of a packet
abbrev counted : Mouse → Mouse
counted m = record m { mouse_interrupt_count = u32 (m.mouse_interrupt_count + 1) }

module _ (screen : Screen) (status b : ℕ) (m : Mouse)
    (ready : (status / 0x20 % 2 == 0) ≡ false) where
  handler-byte :
      (m.mouse_cycle == 0 && b / 8 % 2 == 0) ≡ false
      → ((put_byte b (counted m)).mouse_cycle == 3) ≡ false
      → mouse_interrupt_handler status b screen m ≡ (irq_ack 12 ∷ [], put_byte b (counted m))
  unfolding mouse_interrupt_handler
  handler-byte h k = if_false _ _ _ ready ∙ if_false _ _ _ h ∙ if_false _ _ _ k

  handler-last :
      (m.mouse_cycle == 0 && b / 8 % 2 == 0) ≡ false
      → ((put_byte b (counted m)).mouse_cycle == 3) ≡ true
      → mouse_interrupt_handler status b screen m ≡ (
        (move_mouse screen (put_byte b (counted m))).0 ++ (irq_ack 12 ∷ []),
        (move_mouse screen (put_byte b (counted m))).1,
      )
  unfolding mouse_interrupt_handler
  handler-last h k = if_false _ _ _ ready ∙ if_false _ _ _ h ∙ if_true _ _ _ k

-- The mouse that has taken in a packet
abbrev received : (b0 b1 b2 : ℕ) → Mouse → Mouse
received b0 b1 b2 m = put_byte b2 (counted (put_byte b1 (counted (put_byte b0 (counted m)))))

interrupts-packet :
    (screen : Screen) (s0 s1 s2 b0 b1 b2 : ℕ) (m : Mouse)
    → (s0 / 0x20 % 2 == 0) ≡ false
    → (s1 / 0x20 % 2 == 0) ≡ false
    → (s2 / 0x20 % 2 == 0) ≡ false
    → (b0 / 8 % 2 == 0) ≡ false
    → (interrupts ((s0, b0) ∷ (s1, b1) ∷ (s2, b2) ∷ []) screen (record m { mouse_cycle = 0 })).1
      ≡ (move_mouse screen (received b0 b1 b2 (record m { mouse_cycle = 0 }))).1
unfolding interrupts put_byte
interrupts-packet screen s0 s1 s2 b0 b1 b2 m h0 h1 h2 start =
    let m0 : Mouse = record m { mouse_cycle = 0 } in
    let m1 : Mouse = put_byte b0 (counted m0) in
    let m2 : Mouse = put_byte b1 (counted m1) in
    ap (λ (r : List MouseCall × Mouse). (interrupts ((s1, b1) ∷ (s2, b2) ∷ []) screen r.1).1)
      (handler-byte screen s0 b0 m0 h0 start refl)
    ∙ ap (λ (r : List MouseCall × Mouse). (interrupts ((s2, b2) ∷ []) screen r.1).1)
        (handler-byte screen s1 b1 m1 h1 refl refl)
    ∙ ap (λ (r : List MouseCall × Mouse). r.1) (handler-last screen s2 b2 m2 h2 refl refl)

-- A packet of three bytes, the first with bit 3, that comes when none is begun, on a screen larger than
-- the cursor and small enough that no accumulator overflows, and with a factor of at most 500. The
-- second and the third byte are signed, their sizes times the factor are hundredths of a pixel, and 1.4
-- times as many in a packet with a byte of size above 5. The pointer moves by as many from its
-- accumulators, to the right and up for bytes below 128 and to the left and down for the others, and
-- stops at the edges of the screen; it never moves the other way. The buttons are the three low bits of
-- the first byte, and the next packet can begin.
pub packet-Follows :
    (screen : Screen) (width height : ℕ)
    → IsScreen screen.fb_width width
    → IsScreen screen.fb_height height
    → (s0 s1 s2 b0 b1 b2 : ℕ) (m : Mouse) → (s0 / 0x20 % 2 == 0) ≡ false
    → (s1 / 0x20 % 2 == 0) ≡ false
    → (s2 / 0x20 % 2 == 0) ≡ false
    → (b0 / 8 % 2 == 0) ≡ false
    → b1 < 256
    → b2 < 256
    → m.mouse_cycle ≡ 0
    → m.mouse_sensitivity_factor ≤ 500
    → Shown screen width height m
    → (let m' = (interrupts ((s0, b0) ∷ (s1, b1) ∷ (s2, b2) ∷ []) screen m).1 in
        Follows screen width height b1 b2 m m' × (m'.mouse_buttons ≡ b0 % 8) × (m'.mouse_cycle ≡ 0))
unfolding put_byte move_mouse place_mouse
packet-Follows screen width height fits_x fits_y s0 s1 s2 b0 b1 b2 m h0 h1 h2 start byte_x byte_y
      cycle factor shown =
    let m0 : Mouse = record m { mouse_cycle = 0 } in
    let all : Mouse → Type 0 = λ m'.
      Follows screen width height b1 b2 m m' × (m'.mouse_buttons ≡ b0 % 8) × (m'.mouse_cycle ≡ 0) in
    let same : interrupts ((s0, b0) ∷ (s1, b1) ∷ (s2, b2) ∷ []) screen m0
        ≡ interrupts ((s0, b0) ∷ (s1, b1) ∷ (s2, b2) ∷ []) screen m =
      ap
        (λ c.
          interrupts ((s0, b0) ∷ (s1, b1) ∷ (s2, b2) ∷ []) screen (record m { mouse_cycle = c }))
        (sym cycle) in
    let moved =
      move_mouse-Follows screen width height fits_x fits_y (received b0 b1 b2 m0) shown.wide
        shown.high shown.x shown.y factor byte_x byte_y in
    subst all
      (sym (interrupts-packet screen s0 s1 s2 b0 b1 b2 m h0 h1 h2 start)
        ∙ ap (λ (r : List MouseCall × Mouse). r.1) same)
      (
        record {
          quick = moved.quick;
          is_quick = moved.is_quick;
          right = moved.right;
          left = moved.left;
          up = moved.up;
          down = moved.down;
        },
        refl,
        refl,
      )
