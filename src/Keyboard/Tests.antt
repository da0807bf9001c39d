-- ===== src/Keyboard/Tests.antt =====
-- A buffer of two events.
use kernix_os.Base.{◌-◌, ◌^◌, ◌≡◌, refl, [], ◌∷◌, arith, replicate}
use kernix_os.Keyboard.{KeyEvent, Keyboard, keyboard_init, keyboard_put, keyboard_next}
use kernix_os.Keyboard.Put.{Contains, keyboard_init-Contains, keyboard_put-Contains}
use kernix_os.Keyboard.Next.{keyboard_next_jams}

abbrev key : KeyEvent
key = record { scancode = 30; modifiers = 0; pressed = 1 }

abbrev empty_buffer : Keyboard
empty_buffer = keyboard_init (replicate 2 key) 2

empty_buffer-Contains : Contains empty_buffer []
empty_buffer-Contains = keyboard_init-Contains (replicate 2 key) 2 refl (omega arith) (omega arith)

one_key : Contains (keyboard_put empty_buffer key).1 (key ∷ [])
unfolding keyboard_init
one_key = (keyboard_put-Contains [] key empty_buffer-Contains).1

keyboard_put-Contains_example :
    ((keyboard_put empty_buffer key).0 ≡ 0) × Contains (keyboard_put empty_buffer key).1 (key ∷ [])
unfolding keyboard_init
keyboard_put-Contains_example = keyboard_put-Contains [] key empty_buffer-Contains

keyboard_next_jams_example :
    let after = (keyboard_next empty_buffer).2 in
    (after.count ≡ 2 ^ 32 - 1)
    × (keyboard_put after key ≡ (1, after))
    × ((keyboard_next after).0 ≡ 0)
unfolding keyboard_init
keyboard_next_jams_example = keyboard_next_jams empty_buffer key (omega arith)
