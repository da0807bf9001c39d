-- ===== src/Mouse.antt =====
-- The mouse of core/drivers/ps2/mouse/mouse.c: packets of three bytes, and the place of the pointer. An
-- `int32_t` is kept as its 32 bits. Inputs from other parts: the two bytes that the ports give, and the
-- size of the screen. Not modelled: the commands to the controller, the cursor's image but its size,
-- and drawing.
pub mod Word
pub mod Scale
pub mod Packet
pub mod Place
mod Tests
use kernix_os.Base.{
  ℕ, ◌+◌, ◌-◌, ◌*◌, ◌/◌, ◌%◌, ◌^◌, Bool, true, false, not, ◌&&◌, ◌||◌, Option, none, some, List, [],
  ◌∷◌, ◌++◌, ltb, leb, ◌==◌, if◌then◌else◌, u8, u32,
}

-- The sign bit, and the bits of the negated number
abbrev pub negative : ℕ → Bool
negative x = leb (2 ^ 31) x

abbrev pub negated : ℕ → ℕ
negated x = u32 (2 ^ 32 - x)

-- `x >= y` on signed numbers
pub at_least : (x y : ℕ) → Bool
at_least x y = if negative x then negative y && leb y x else negative y || leb y x

-- `x / d` for a positive `d`, towards 0
pub quotient : (x d : ℕ) → ℕ
quotient x d = if negative x then negated (negated x / d) else x / d

-- `(int)(int8_t)b`
pub extended : (b : ℕ) → ℕ
extended b = if ltb b 128 then b else b + (2 ^ 32 - 256)

-- `rel > 5 || rel < -5`
pub fast : (rel : ℕ) → Bool
fast rel = if negative rel then ltb 5 (negated rel) else ltb 5 rel

pub record Mouse : Type 0 where
  pub mouse_x_accum : ℕ
  pub mouse_y_accum : ℕ
  pub prev_mouse_x : ℕ
  pub prev_mouse_y : ℕ
  pub mouse_cycle : ℕ
  pub packet_state : ℕ
  pub packet_x : ℕ
  pub packet_y : ℕ
  pub mouse_x : ℕ
  pub mouse_y : ℕ
  pub mouse_buttons : ℕ
  pub mouse_interrupt_count : ℕ
  pub mouse_cursor_needs_redraw : ℕ
  pub mouse_sensitivity_factor : ℕ
  pub has_callback : Bool
  pub cursor : Option (ℕ × ℕ)

-- `get_fb_width()` and `get_fb_height()`
pub record Screen : Type 0 where
  pub fb_width : ℕ
  pub fb_height : ℕ

-- What a handler calls
pub data MouseCall : Type 0 where
  callback : (x y buttons : ℕ) → MouseCall
  irq_ack : (num : ℕ) → MouseCall

abbrev pub cursor_width : Mouse → ℕ
cursor_width m = elim m.cursor [ none ↦ 16 | some c ↦ c.0 ]

abbrev pub cursor_height : Mouse → ℕ
cursor_height m = elim m.cursor [ none ↦ 16 | some c ↦ c.1 ]

-- The scaled movement, 1.4 times as far for a fast one
pub scaled : (quick : Bool) → (rel factor : ℕ) → ℕ
scaled quick rel factor =
    if quick then quotient (u32 (u32 (rel * factor) * 14)) 10 else u32 (rel * factor)

-- A coordinate and its accumulator: not below 0, and not beyond a screen of size `fb` for a cursor of `size`
pub not_below : (new accum : ℕ) → ℕ × ℕ
not_below new accum = if negative new then (0, 0) else (new, accum)

pub not_beyond : (fb size : ℕ) → ℕ × ℕ → ℕ × ℕ
not_beyond fb size (new, accum) =
    let last = u32 (fb + 2 ^ 32 - size + 2 ^ 32 - 1) in
    if at_least new (u32 (fb + 2 ^ 32 - size)) then (last, u32 (last * 100)) else (new, accum)

pub clamp : (fb size accum : ℕ) → ℕ × ℕ
clamp fb size accum = not_beyond fb size (not_below (quotient accum 100) accum)

-- Clamped, if there is a screen
pub kept : Screen → (fb size accum : ℕ) → ℕ × ℕ
kept screen fb size accum =
    if ltb 0 screen.fb_width && ltb 0 screen.fb_height
    then clamp fb size accum
    else (quotient accum 100, accum)

-- The new place with its accumulators, and the call of `mouse_callback`
pub place_mouse : (at_x at_y : ℕ × ℕ) → Mouse → List MouseCall × Mouse
place_mouse at_x at_y m = (
  (if m.has_callback then callback at_x.0 at_y.0 (m.packet_state % 8) ∷ [] else []),
  record m {
    mouse_cycle = 0;
    mouse_x_accum = at_x.1;
    mouse_y_accum = at_y.1;
    prev_mouse_x = m.mouse_x;
    prev_mouse_y = m.mouse_y;
    mouse_x = at_x.0;
    mouse_y = at_y.0;
    mouse_buttons = m.packet_state % 8;
    mouse_cursor_needs_redraw = 1;
  },
)

-- A whole packet
pub move_mouse : Screen → Mouse → List MouseCall × Mouse
move_mouse screen m =
    let rel_x = extended m.packet_x in
    let rel_y = extended m.packet_y in
    let quick = fast rel_x || fast rel_y in
    let accum_x = u32 (m.mouse_x_accum + scaled quick rel_x m.mouse_sensitivity_factor) in
    let accum_y = u32 (m.mouse_y_accum + 2 ^ 32 - scaled quick rel_y m.mouse_sensitivity_factor) in
    place_mouse (kept screen screen.fb_width (cursor_width m) accum_x)
      (kept screen screen.fb_height (cursor_height m) accum_y) m

-- `mouse_packet[mouse_cycle] = b; mouse_cycle++;`
pub put_byte : ℕ → Mouse → Mouse
put_byte b m = record m {
  mouse_cycle = u8 (m.mouse_cycle + 1);
  packet_state = (if m.mouse_cycle == 0 then b else m.packet_state);
  packet_x = (if m.mouse_cycle == 1 then b else m.packet_x);
  packet_y = (if m.mouse_cycle == 2 then b else m.packet_y);
}

pub mouse_interrupt_handler : (status b : ℕ) → Screen → Mouse → List MouseCall × Mouse
mouse_interrupt_handler status b screen m =
    let m1 = record m { mouse_interrupt_count = u32 (m.mouse_interrupt_count + 1) } in
    let m2 = put_byte b m1 in
    let moved = move_mouse screen m2 in
    if status / 0x20 % 2 == 0
    then ([], m1)
    else if m.mouse_cycle == 0 && b / 8 % 2 == 0
    then ([], m1)
    else if m2.mouse_cycle == 3
    then (moved.0 ++ (irq_ack 12 ∷ []), moved.1)
    else (irq_ack 12 ∷ [], m2)

-- The interrupts of a list of bytes, each with the status of the controller
pub interrupts : List (ℕ × ℕ) → Screen → Mouse → List MouseCall × Mouse
interrupts [] screen m = ([], m)
interrupts ((status, b) ∷ es) screen m =
    let (calls, m1) = mouse_interrupt_handler status b screen m in
    let (later, m2) = interrupts es screen m1 in (calls ++ later, m2)

pub mouse_set_position : (x y : ℕ) → Mouse → Mouse
mouse_set_position x y m = record m {
  mouse_x = x;
  mouse_y = y;
  mouse_x_accum = u32 (x * 100);
  mouse_y_accum = u32 (y * 100);
}

pub mouse_set_buttons : ℕ → Mouse → Mouse
mouse_set_buttons buttons m = record m { mouse_buttons = buttons }

pub mouse_set_sensitivity : (factor : ℕ) → Mouse → Mouse
mouse_set_sensitivity factor m =
    let low = (if at_least factor 10 then factor else 10) in
    record m { mouse_sensitivity_factor = (if at_least low 501 then 500 else low) }

-- What `mouse_init` sets once the device has answered
pub mouse_init_place : Screen → Mouse → Mouse
mouse_init_place screen m =
    let shown = ltb 0 screen.fb_width && ltb 0 screen.fb_height in
    let x = (if shown then screen.fb_width / 2 else m.mouse_x) in
    let y = (if shown then screen.fb_height / 2 else m.mouse_y) in
    record m {
      mouse_x = x;
      mouse_y = y;
      mouse_x_accum = (if shown then u32 (x * 100) else m.mouse_x_accum);
      mouse_y_accum = (if shown then u32 (y * 100) else m.mouse_y_accum);
      prev_mouse_x = x;
      prev_mouse_y = y;
    }
