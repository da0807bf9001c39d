-- ===== src/Timer.antt =====
-- The timer of core/kernel/interrupts/timer/timer.c: its ticks and its subscribers. A callback and its
-- data are addresses, 0 is NULL; an interrupt records the calls that it makes, in their order. The ports
-- of the timer chip and of the interrupt controller are not modelled, except for the divisor.
pub mod Fire
pub mod Subscribe
mod Tests
use kernix_os.Base.{
  ℕ, zero, suc, ◌+◌, ◌-◌, ◌*◌, ◌/◌, ◌%◌, ◌^◌, Bool, true, false, not, ◌||◌, Option, none, some,
  List, [], ◌∷◌, ◌++◌, length, get_or, set, replicate, shift_down, ltb, leb, ◌==◌, if◌then◌else◌,
  u64,
}

-- `timer_event_t`
pub record TimerEvent : Type 0 where
  pub id : ℕ
  pub handler : ℕ
  pub user_data : ℕ
  pub interval_ticks : ℕ
  pub next_trigger : ℕ
  pub recurring : ℕ

-- `timer_system_t`; `subscribers` has 16 places.
pub record TimerSystem : Type 0 where
  pub total_ticks : ℕ
  pub boot_time_ticks : ℕ
  pub subscribers : List TimerEvent
  pub subscriber_count : ℕ

abbrev pub max_event_subscribers : ℕ
max_event_subscribers = 16

abbrev pub blank_event : TimerEvent
blank_event = record {
  id = 0;
  handler = 0;
  user_data = 0;
  interval_ticks = 0;
  next_trigger = 0;
  recurring = 0;
}

-- The calls of `event->handler(event->user_data)`
abbrev pub Calls : Type 0
Calls = List (ℕ × ℕ)

abbrev pub call : TimerEvent → Calls → Calls
call e calls = if e.handler == 0 then calls else calls ++ ((e.handler, e.user_data) ∷ [])

-- The loop that moves the later subscribers down, and the smaller count
pub remove_at : ℕ → TimerSystem → TimerSystem
remove_at i t = record t {
  subscribers = shift_down blank_event (t.subscriber_count - 1 - i) i t.subscribers;
  subscriber_count = t.subscriber_count - 1;
}

pub rearm : ℕ → TimerEvent → TimerSystem → TimerSystem
rearm i e t = record t {
  subscribers =
      set t.subscribers i (record e { next_trigger = u64 (t.total_ticks + e.interval_ticks) });
}

-- The loop over the subscribers; after a removal the same index is tried again.
pub fire_from : ℕ → ℕ → TimerSystem → Calls → Option (TimerSystem × Calls)
unfolding remove_at rearm
fire_from zero i t calls = none
fire_from (suc fuel) i t calls =
    let e = get_or t.subscribers i blank_event in
    let again = fire_from fuel (i + 1) (rearm i e t) (call e calls) in
    let once = fire_from fuel i (remove_at i t) (call e calls) in
    let wait = fire_from fuel (i + 1) t calls in
    if not (ltb i t.subscriber_count)
    then some (t, calls)
    else if leb e.next_trigger t.total_ticks
    then (if e.recurring == 0 then once else again)
    else wait

-- One round for each subscriber, and one more to leave the loop.
pub timer_handle_interrupt : TimerSystem → Option (TimerSystem × Calls)
unfolding fire_from
timer_handle_interrupt t =
    if t.total_ticks == 0
    then some (t, [])
    else fire_from (t.subscriber_count + 1) 0 (record t { total_ticks = u64 (t.total_ticks + 1) })
        []

-- The frequency, and the divisor that is sent to the chip
pub timer_divisor : ℕ → ℕ
timer_divisor target_frequency =
    let frequency =
      if (target_frequency == 0) || ltb 1193182 target_frequency then 300 else target_frequency in
    let divisor = 1193182 / frequency in
    if ltb divisor 1 then 1 else if ltb 65535 divisor then 65535 else divisor

pub timer_system_initialize : TimerSystem → TimerSystem
timer_system_initialize t = record t { subscriber_count = 0; boot_time_ticks = 0; total_ticks = 1 }

-- The result is an id, or `none` for -1.
pub timer_subscribe_event :
    (callback user_data interval_ms repeat : ℕ) → TimerSystem → Option ℕ × TimerSystem
timer_subscribe_event callback user_data interval_ms repeat t =
    let count = t.subscriber_count + 1 in
    let ticks = u64 (interval_ms * 300) / 1000 in
    let event : TimerEvent = record {
      id = count;
      handler = callback;
      user_data = user_data;
      interval_ticks = ticks;
      next_trigger = u64 (t.total_ticks + ticks);
      recurring = repeat;
    } in
    if (callback == 0) || leb max_event_subscribers t.subscriber_count then (none, t) else (
      some count,
      record t {
        subscribers = set t.subscribers t.subscriber_count event;
        subscriber_count = count;
      },
    )

-- The loop of `timer_unsubscribe_event` from index `i` on, with so many subscribers left
pub unsubscribe_from : ℕ → ℕ → ℕ → TimerSystem → TimerSystem
unfolding remove_at
unsubscribe_from zero i subscription t = t
unsubscribe_from (suc left) i subscription t =
    let rest = unsubscribe_from left (i + 1) subscription t in
    if (get_or t.subscribers i blank_event).id == subscription then remove_at i t else rest

pub timer_unsubscribe_event : ℕ → TimerSystem → TimerSystem
unfolding unsubscribe_from
timer_unsubscribe_event subscription t = unsubscribe_from t.subscriber_count 0 subscription t

pub timer_retrieve_current_ticks : TimerSystem → ℕ
timer_retrieve_current_ticks t = t.total_ticks

pub timer_calculate_elapsed_seconds : TimerSystem → ℕ
timer_calculate_elapsed_seconds t = if t.total_ticks == 0 then 0 else t.total_ticks / 300

pub timer_calculate_elapsed_milliseconds : TimerSystem → ℕ
timer_calculate_elapsed_milliseconds t =
    if t.total_ticks == 0 then 0 else u64 (t.total_ticks * 1000) / 300

pub timer_record_boot_timestamp : TimerSystem → TimerSystem
timer_record_boot_timestamp t = record t { boot_time_ticks = t.total_ticks }

pub timer_get_system_uptime_seconds : TimerSystem → ℕ
timer_get_system_uptime_seconds t =
    if t.total_ticks == 0 then 0 else u64 (t.total_ticks + 2 ^ 64 - t.boot_time_ticks) / 300
