-- ===== src/Mouse/Place.antt =====
-- The pointer's place in core/drivers/ps2/mouse/mouse.c, through any sequence of interrupts.
use kernix_os.Base.{
  ℕ, ◌+◌, ◌-◌, ◌/◌, ◌%◌, ◌^◌, ◌<◌, Bool, true, false, ◌&&◌, ◌||◌, List, [], ◌∷◌, ◌++◌, ltb, ◌==◌,
  if◌then◌else◌, u32, ◌≡◌, refl, sym, subst, arith, if_true,
}
use kernix_os.Mouse.{
  Mouse, Screen, MouseCall, callback, irq_ack, cursor_width, cursor_height, extended, fast, scaled,
  kept, place_mouse, move_mouse, put_byte, mouse_interrupt_handler, interrupts,
}
use kernix_os.Mouse.Word.{OnScreen, IsScreen, clamp-OnScreen}

-- Both coordinates are on the screen with a whole cursor of this size, and no packet is complete.
pub record Shown (screen : Screen) (width height : ℕ) (m : Mouse) : Type 0 where
  pub cycle : m.mouse_cycle < 3
  pub wide : cursor_width m ≡ width
  pub high : cursor_height m ≡ height
  pub x : OnScreen screen.fb_width width m.mouse_x m.mouse_x_accum
  pub y : OnScreen screen.fb_height height m.mouse_y m.mouse_y_accum

-- The callback is given a place on the screen, and the bits of three buttons.
abbrev pub IsInside : Screen → (width height : ℕ) → MouseCall → Type 0
IsInside screen width height (callback x y buttons) =
    (x + width < screen.fb_width) × (y + height < screen.fb_height) × (buttons < 8)
IsInside screen width height (irq_ack num) = num ≡ 12

abbrev pub AreInside : Screen → (width height : ℕ) → List MouseCall → Type 0
AreInside screen width height [] = Unit {0}
AreInside screen width height (c ∷ cs) =
    IsInside screen width height c × AreInside screen width height cs

module _ (screen : Screen) (width height : ℕ) (fits_x : IsScreen screen.fb_width width)
    (fits_y : IsScreen screen.fb_height height) where
  -- What a call of the handler leaves
  abbrev IsGood : List MouseCall × Mouse → Type 0
  IsGood r = AreInside screen width height r.0 × Shown screen width height r.1

  either :
      (b : Bool) (r s : List MouseCall × Mouse)
      → (b ≡ true → IsGood r)
      → (b ≡ false → IsGood s)
      → IsGood (if b then r else s)
  either true r s h k = h refl
  either false r s h k = k refl

  AreInside-append :
      (cs ds : List MouseCall)
      → AreInside screen width height cs
      → AreInside screen width height ds
      → AreInside screen width height (cs ++ ds)
  AreInside-append [] ds h k = k
  AreInside-append (c ∷ cs) ds h k = (h.0, AreInside-append cs ds h.1 k)

  kept-OnScreen :
      (fb size n : ℕ)
      → IsScreen fb size
      → OnScreen fb size (kept screen fb size (u32 n)).0 (kept screen fb size (u32 n)).1
  unfolding kept
  kept-OnScreen fb size n fits =
      let shown : (ltb 0 screen.fb_width && ltb 0 screen.fb_height) ≡ true =
        ground (arith, fits_x.larger, fits_y.larger) in
      let on : ℕ × ℕ → Type 0 = λ p. OnScreen fb size p.0 p.1 in
      subst on (sym (if_true _ _ _ shown)) (clamp-OnScreen fb size (u32 n) fits (omega arith))

  place_mouse-IsGood :
      (at_x at_y : ℕ × ℕ) (m : Mouse)
      → OnScreen screen.fb_width width at_x.0 at_x.1
      → OnScreen screen.fb_height height at_y.0 at_y.1
      → cursor_width m ≡ width
      → cursor_height m ≡ height
      → IsGood (place_mouse at_x at_y m)
  unfolding place_mouse
  place_mouse-IsGood at_x at_y m on_x on_y wide high = (
    elim m.has_callback
        as (λ b.
          AreInside screen width height
            (if b then callback at_x.0 at_y.0 (m.packet_state % 8) ∷ [] else [])) [
              | true ↦ ((on_x.inside, on_y.inside, omega arith), tt)
              | false ↦ tt
            ],
    record { cycle = omega arith; wide = wide; high = high; x = on_x; y = on_y },
  )

  move_mouse-IsGood :
      (m : Mouse) → cursor_width m ≡ width → cursor_height m ≡ height → IsGood (move_mouse screen m)
  unfolding move_mouse
  move_mouse-IsGood m wide high =
      let quick = fast (extended m.packet_x) || fast (extended m.packet_y) in
      let x = m.mouse_x_accum + scaled quick (extended m.packet_x) m.mouse_sensitivity_factor in
      let y =
        m.mouse_y_accum + 2 ^ 32 - scaled quick (extended m.packet_y) m.mouse_sensitivity_factor in
      let at_x = kept screen screen.fb_width (cursor_width m) (u32 x) in
      let at_y = kept screen screen.fb_height (cursor_height m) (u32 y) in
      let on_x : OnScreen screen.fb_width width at_x.0 at_x.1 =
        subst
          (λ w.
            OnScreen screen.fb_width width (kept screen screen.fb_width w (u32 x)).0
              (kept screen screen.fb_width w (u32 x)).1)
          (sym wide) (kept-OnScreen screen.fb_width width x fits_x) in
      let on_y : OnScreen screen.fb_height height at_y.0 at_y.1 =
        subst
          (λ w.
            OnScreen screen.fb_height height (kept screen screen.fb_height w (u32 y)).0
              (kept screen screen.fb_height w (u32 y)).1)
          (sym high) (kept-OnScreen screen.fb_height height y fits_y) in
      place_mouse-IsGood at_x at_y m on_x on_y wide high

  mouse_interrupt_handler-IsGood :
      (status b : ℕ) (m : Mouse)
      → Shown screen width height m
      → IsGood (mouse_interrupt_handler status b screen m)
  unfolding mouse_interrupt_handler put_byte
  mouse_interrupt_handler-IsGood status b m h =
      let m1 : Mouse = record m { mouse_interrupt_count = u32 (m.mouse_interrupt_count + 1) } in
      let m2 : Mouse = put_byte b m1 in
      let ignored : IsGood ([], m1) =
        (tt, record { cycle = h.cycle; wide = h.wide; high = h.high; x = h.x; y = h.y }) in
      let moved : IsGood ((move_mouse screen m2).0 ++ (irq_ack 12 ∷ []), (move_mouse screen m2).1) =
        let r = move_mouse-IsGood m2 h.wide h.high in
        (AreInside-append (move_mouse screen m2).0 (irq_ack 12 ∷ []) r.0 (refl, tt), r.1) in
      let waiting : (m2.mouse_cycle == 3) ≡ false → IsGood (irq_ack 12 ∷ [], m2) = λ e. (
        (refl, tt),
        record { cycle = ground (arith, h.cycle); wide = h.wide; high = h.high; x = h.x; y = h.y },
      ) in
      either (status / 0x20 % 2 == 0) _ _ (λ e. ignored)
        (λ e.
          either (m.mouse_cycle == 0 && b / 8 % 2 == 0) _ _ (λ e. ignored)
            (λ e. either (m2.mouse_cycle == 3) _ _ (λ e. moved) waiting))

  -- On a screen larger than the cursor, and small enough that no accumulator overflows, whatever bytes come:
  -- the pointer stays on the screen with the whole cursor, its accumulators stay those of its place, no
  -- packet is longer than three bytes, and the callback is given places on the screen only.
  pub interrupts-Shown :
      (es : List (ℕ × ℕ)) (m : Mouse)
      → Shown screen width height m
      → AreInside screen width height (interrupts es screen m).0
        × Shown screen width height (interrupts es screen m).1
  unfolding interrupts
  interrupts-Shown [] m h = (tt, h)
  interrupts-Shown ((status, b) ∷ es) m h =
      let (inside, next) = mouse_interrupt_handler-IsGood status b m h in
      let later = interrupts-Shown es (mouse_interrupt_handler status b screen m).1 next in
      (
        AreInside-append (mouse_interrupt_handler status b screen m).0
            (interrupts es screen (mouse_interrupt_handler status b screen m).1).0 inside later.0,
        later.1,
      )
