-- ===== src/Mouse/Tests.antt =====
-- Packets on a screen of 800 by 600.
use kernix_os.Base.{ℕ, ◌%◌, true, none, List, [], ◌∷◌, ◌≡◌, refl, arith}
use kernix_os.Mouse.{
  Mouse, Screen, callback, irq_ack, interrupts, mouse_interrupt_handler, put_byte, move_mouse,
  place_mouse, kept, clamp, not_below, not_beyond, scaled, fast, extended, quotient, at_least,
}
use kernix_os.Mouse.Word.{IsScreen}
use kernix_os.Mouse.Place.{Shown, AreInside, interrupts-Shown}
use kernix_os.Mouse.Packet.{Follows, packet-Follows}

abbrev screen : Screen
screen = record { fb_width = 800; fb_height = 600 }

abbrev mouse : Mouse
mouse = record {
  mouse_x_accum = 40000;
  mouse_y_accum = 30000;
  prev_mouse_x = 400;
  prev_mouse_y = 300;
  mouse_cycle = 0;
  packet_state = 0;
  packet_x = 0;
  packet_y = 0;
  mouse_x = 400;
  mouse_y = 300;
  mouse_buttons = 0;
  mouse_interrupt_count = 0;
  mouse_cursor_needs_redraw = 1;
  mouse_sensitivity_factor = 120;
  has_callback = true;
  cursor = none;
}

abbrev packet : List (ℕ × ℕ)
packet = (0x20, 0x09) ∷ (0x20, 10) ∷ (0x20, 0xFE) ∷ []

-- 10 to the right at 1.2 times 1.4, and 2 down at the same
packet_moves :
    (interrupts packet screen mouse).0
    ≡ irq_ack 12 ∷ irq_ack 12 ∷ callback 416 303 1 ∷ irq_ack 12 ∷ []
unfolding interrupts mouse_interrupt_handler put_byte move_mouse place_mouse kept clamp not_below
    not_beyond scaled fast extended quotient at_least
packet_moves = refl

-- A byte without bit 3 does not begin a packet, and is not acknowledged.
out_of_step : (mouse_interrupt_handler 0x20 0x01 screen mouse).0 ≡ []
unfolding mouse_interrupt_handler
out_of_step = refl

wide : IsScreen 800 16
wide = record { larger = omega arith; fits = omega arith }

high : IsScreen 600 16
high = record { larger = omega arith; fits = omega arith }

mouse-Shown : Shown screen 16 16 mouse
unfolding quotient
mouse-Shown = record {
  cycle = omega arith;
  wide = refl;
  high = refl;
  x = record { inside = omega arith; agrees = refl; bits = omega arith };
  y = record { inside = omega arith; agrees = refl; bits = omega arith };
}

interrupts-Shown_example :
    AreInside screen 16 16 (interrupts packet screen mouse).0
    × Shown screen 16 16 (interrupts packet screen mouse).1
interrupts-Shown_example = interrupts-Shown screen 16 16 wide high packet mouse mouse-Shown

packet-Follows_example :
    Follows screen 16 16 10 0xFE mouse (interrupts packet screen mouse).1
    × ((interrupts packet screen mouse).1.mouse_buttons ≡ 0x09 % 8)
    × ((interrupts packet screen mouse).1.mouse_cycle ≡ 0)
packet-Follows_example =
    packet-Follows screen 16 16 wide high 0x20 0x20 0x20 0x09 10 0xFE mouse refl refl refl refl
      (omega arith) (omega arith) refl (omega arith) mouse-Shown
