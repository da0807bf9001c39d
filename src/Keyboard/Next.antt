-- ===== src/Keyboard/Next.antt =====
-- `keyboard_next` after `if (kbrb->count = 0)`: the count wraps to the largest `u32`, so the buffer
-- never reports that it is empty and takes no further event.
use kernix_os.Base.{◌-◌, ◌^◌, ◌<◌, ◌≡◌, refl, List, ◌∷◌, some, arith}
use kernix_os.Base.Ring.{Holds-head}
use kernix_os.Keyboard.{KeyEvent, Keyboard, keyboard_put, keyboard_next}
use kernix_os.Keyboard.Put.{Contains}

-- On a buffer that holds some event, `keyboard_next` reads the oldest and returns 0.
pub keyboard_next-oldest :
    {kbrb : Keyboard} (e : KeyEvent) (es : List KeyEvent)
    → Contains kbrb (e ∷ es)
    → let (status, out, after) = keyboard_next kbrb in (status ≡ 0) × (out ≡ some e)
unfolding keyboard_next
keyboard_next-oldest {kbrb} e es c =
    (refl, Holds-head kbrb.len kbrb.buf kbrb.tail c.capacity c.inside e es c.items)

-- After one `keyboard_next`, on any buffer shorter than the largest `u32`, `keyboard_put` refuses
-- every event and changes nothing, and the next read returns 0 again, though it may have no event.
pub keyboard_next_jams :
    (kbrb : Keyboard) (event : KeyEvent)
    → kbrb.len < 2 ^ 32
    → let after = (keyboard_next kbrb).2 in
      (after.count ≡ 2 ^ 32 - 1)
      × (keyboard_put after event ≡ (1, after))
      × ((keyboard_next after).0 ≡ 0)
unfolding keyboard_next keyboard_put
keyboard_next_jams kbrb event small = (refl, ground arith, refl)
