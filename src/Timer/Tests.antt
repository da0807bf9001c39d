-- ===== src/Timer/Tests.antt =====
-- An interrupt with one subscriber that is due once, and one that recurs.
use kernix_os.Base.{ℕ, refl, List, [], ◌∷◌, replicate, arith}
use kernix_os.Timer.{TimerEvent, TimerSystem, blank_event, timer_handle_interrupt}
use kernix_os.Timer.Fire.{Split, Fired, kept, called, timer_handle_interrupt-Fired}

abbrev once : TimerEvent
once = record {
  id = 1;
  handler = 500;
  user_data = 7;
  interval_ticks = 10;
  next_trigger = 10;
  recurring = 0;
}

abbrev often : TimerEvent
often = record {
  id = 2;
  handler = 600;
  user_data = 8;
  interval_ticks = 3;
  next_trigger = 9;
  recurring = 1;
}

abbrev both : List TimerEvent
both = once ∷ often ∷ []

abbrev timer : TimerSystem
timer = record {
  total_ticks = 9;
  boot_time_ticks = 0;
  subscribers = once ∷ often ∷ replicate 14 blank_event;
  subscriber_count = 2;
}

timer-Split : Split timer [] both
timer-Split = record {
  stale = replicate 14 blank_event;
  content = refl;
  counted = refl;
  room = refl;
}

timer_handle_interrupt-Fired_example :
    Fired 10 (kept 10 both) (called 10 both) (timer_handle_interrupt timer)
timer_handle_interrupt-Fired_example =
    timer_handle_interrupt-Fired timer both timer-Split (λ e. absurd (omega arith))

abbrev callback : ℕ
callback = 700
