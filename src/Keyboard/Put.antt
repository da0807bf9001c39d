-- ===== src/Keyboard/Put.antt =====
-- `keyboard_put` appends to the events that the buffer holds.
use kernix_os.Base.{
  ℕ, ◌+◌, ◌%◌, ◌^◌, ◌≤◌, ◌<◌, ◌≡◌, refl, subst, sym, List, [], ◌∷◌, ◌++◌, arith, leb, if◌then◌else◌,
  u32, Bool-cases, inl, inr, length, set, length-set, length-append,
}
use kernix_os.Base.Ring.{Holds, Holds-push, mod_wrap}
use kernix_os.Keyboard.{KeyEvent, Keyboard, keyboard_init, keyboard_put}

-- The buffer holds the events `es`, oldest first.
pub record Contains (kbrb : Keyboard) (es : List KeyEvent) : Type 0 where
  pub capacity : length kbrb.buf ≡ kbrb.len
  pub small : kbrb.len < 2 ^ 31
  pub inside : kbrb.tail < kbrb.len
  pub head_at : kbrb.head ≡ (kbrb.tail + kbrb.count) % kbrb.len
  pub counted : kbrb.count ≡ length es
  pub bounded : kbrb.count ≤ kbrb.len
  pub items : Holds kbrb.len kbrb.buf kbrb.tail es

-- A new buffer is empty.
pub keyboard_init-Contains :
    (buf : List KeyEvent) (len : ℕ)
    → length buf ≡ len
    → 0 < len
    → len < 2 ^ 31
    → Contains (keyboard_init buf len) []
unfolding keyboard_init
keyboard_init-Contains buf len h pos small = record {
  capacity = ground arith;
  small = ground arith;
  inside = ground arith;
  head_at = ground (arith, mod_wrap (0 + 0) (u32 len));
  counted = refl;
  bounded = omega arith;
  items = λ i lt. absurd (omega arith);
}

-- On a buffer that holds `es`, with room left the event goes behind the others and the result is 0; a
-- full buffer is left alone and the result is 1.
pub keyboard_put-Contains :
    {kbrb : Keyboard} (es : List KeyEvent) (event : KeyEvent)
    → Contains kbrb es
    → let (status, after) = keyboard_put kbrb event in
      (status ≡ (if leb kbrb.len (length es) then 1 else 0))
      × Contains after (if leb kbrb.len (length es) then es else es ++ (event ∷ []))
unfolding keyboard_put
keyboard_put-Contains {kbrb} es event c =
    let at_end : kbrb.head ≡ (kbrb.tail + length es) % kbrb.len =
      subst (λ n. kbrb.head ≡ (kbrb.tail + n) % kbrb.len) c.counted c.head_at in
    elim (Bool-cases (leb kbrb.len kbrb.count)) [
      | inl full ↦ simp (full, ← c.counted) (refl, c)
      | inr room ↦
          simp (room, ← c.counted)
            (
              refl,
              record {
                capacity = omega (arith, c.capacity, length-set kbrb.buf kbrb.head event);
                small = c.small;
                inside = c.inside;
                head_at = ground (
                  arith,
                  mod_wrap (kbrb.tail + kbrb.count) kbrb.len,
                  mod_wrap (kbrb.tail + (kbrb.count + 1)) kbrb.len,
                  mod_wrap (kbrb.head + 1) kbrb.len,
                );
                counted = ground (arith, length-append es (event ∷ []));
                bounded = ground arith;
                items =
                    subst
                      (λ at. Holds kbrb.len (set kbrb.buf at event) kbrb.tail (es ++ (event ∷ [])))
                      (sym at_end)
                      (Holds-push kbrb.len kbrb.buf kbrb.tail c.capacity c.inside es event
                        (ground arith) c.items);
              },
            )
    ]
