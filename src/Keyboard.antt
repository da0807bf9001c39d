-- ===== src/Keyboard.antt =====
-- The key event buffer of core/kernel/mem/graphics_manager/keyboard.c. The buffer's fields are
-- `u32`, and wrap. `keyboard_next` is written as the source has it, `if (kbrb->count = 0)`.
pub mod Put
pub mod Next
mod Tests
use kernix_os.Base.{
  ℕ, ◌+◌, ◌-◌, ◌%◌, ◌^◌, Bool, true, false, Option, none, some, List, leb, ◌==◌, if◌then◌else◌,
  get_elem?, set, u32,
}

-- `key_event_t`
pub record KeyEvent : Type 0 where
  pub scancode : ℕ
  pub modifiers : ℕ
  pub pressed : ℕ

-- `keyboardrb_t`
pub record Keyboard : Type 0 where
  pub buf : List KeyEvent
  pub len : ℕ
  pub head : ℕ
  pub tail : ℕ
  pub count : ℕ

-- The fields that `graphics_manager_keyboard_init` sets, over the buffer that it allocates.
pub keyboard_init : List KeyEvent → ℕ → Keyboard
keyboard_init buf count = record { buf = buf; len = u32 count; head = 0; tail = 0; count = 0 }

-- The result 1 says that the buffer is full, and 0 that the event is stored.
pub keyboard_put : Keyboard → KeyEvent → ℕ × Keyboard
keyboard_put kbrb event = if leb kbrb.len kbrb.count then (1, kbrb) else (
  0,
  record kbrb {
    buf = set kbrb.buf kbrb.head event;
    head = u32 (kbrb.head + 1) % kbrb.len;
    count = u32 (kbrb.count + 1);
  },
)

-- The assignment in the condition is made, and its value 0 makes the test fail.
pub keyboard_next : Keyboard → ℕ × Option KeyEvent × Keyboard
keyboard_next kbrb =
    let assigned : Keyboard = record kbrb { count = 0 } in
    (
      0,
      get_elem? assigned.buf assigned.tail,
      record assigned {
        tail = u32 (assigned.tail + 1) % assigned.len;
        count = (assigned.count + 2 ^ 32 - 1) % 2 ^ 32;
      },
    )
