-- ===== src/Timer/Subscribe.antt =====
-- A subscription goes behind all others, and its end takes out the first with its id.
use kernix_os.Base.{
  ℕ, ◌+◌, ◌*◌, ◌/◌, ◌≤◌, ◌<◌, ◌≡◌, ◌≢◌, ◌∙◌, ap, sym, subst, false, none, some, List, [], ◌∷◌, ◌++◌,
  length, get_or, set, set-at, length-append, length-set, snoc, length-snoc, leb, ◌==◌, ◌||◌,
  if◌then◌else◌, arith, Bool-cases, inl, inr, u64,
}
use kernix_os.Timer.{
  TimerEvent, TimerSystem, blank_event, timer_subscribe_event, unsubscribe_from,
  timer_unsubscribe_event,
}
use kernix_os.Timer.Fire.{Split, Split-remove, Split-wait, event-at, Split-all}

-- Without the first subscriber that has the id.
abbrev pub without : ℕ → List TimerEvent → List TimerEvent
without id [] = []
without id (e ∷ es) = if e.id == id then es else e ∷ without id es

unsubscribe_from-Split :
    (id : ℕ) (done todo : List TimerEvent) (t : TimerSystem)
    → Split t done todo
    → Split (unsubscribe_from (length todo) (length done) id t) [] (done ++ without id todo)
unfolding unsubscribe_from
unsubscribe_from-Split id done [] t s = Split-all done [] s
unsubscribe_from-Split id done (e ∷ todo) t s =
    let same : ((get_or t.subscribers (length done) blank_event).id == id) ≡ (e.id == id) =
      ap (λ x. x.id == id) (event-at s) in
    elim (Bool-cases (e.id == id)) [
      | inl found ↦ rw (same, found) (Split-all done todo (Split-remove s))
      | inr other ↦
          rw (same, other)
            (subst (λ l. Split (unsubscribe_from (length todo) (length done + 1) id t) [] l)
              (snoc done e (without id todo))
              (subst
                (λ n.
                  Split (unsubscribe_from (length todo) n id t) []
                    ((done ++ (e ∷ [])) ++ without id todo))
                (length-snoc done e)
                (unsubscribe_from-Split id (done ++ (e ∷ [])) todo t (Split-wait s))))
    ]

-- With `live` subscribed, in order, `timer_unsubscribe_event` leaves all of them but the first that has
-- the id, if any has it.
pub timer_unsubscribe_event-Split :
    (id : ℕ) (live : List TimerEvent) (t : TimerSystem)
    → Split t [] live
    → Split (timer_unsubscribe_event id t) [] (without id live)
unfolding timer_unsubscribe_event
timer_unsubscribe_event-Split id live t s =
    let all : t.subscriber_count ≡ length live = omega (arith, s.counted) in
    subst (λ n. Split (unsubscribe_from n 0 id t) [] (without id live)) (sym all)
      (unsubscribe_from-Split id [] live t s)

abbrev pub new_event : TimerSystem → (n callback user_data interval_ms repeat : ℕ) → TimerEvent
new_event t n callback user_data interval_ms repeat =
    let ticks = u64 (interval_ms * 300) / 1000 in
    record {
      id = n + 1;
      handler = callback;
      user_data = user_data;
      interval_ticks = ticks;
      next_trigger = u64 (t.total_ticks + ticks);
      recurring = repeat;
    }

subscribe_room :
    (t : TimerSystem) (live : List TimerEvent) (s : Split t [] live) (e : TimerEvent)
    → length live < 16
    → Split
        (record t {
          subscribers = set t.subscribers (length live) e;
          subscriber_count = length live + 1;
        })
        []
        (live ++ (e ∷ []))
subscribe_room t live s e lt = room_in s.stale s.content
  where
    room_in :
        (stale : List TimerEvent)
        → t.subscribers ≡ live ++ stale
        → Split
            (record t {
              subscribers = set t.subscribers (length live) e;
              subscriber_count = length live + 1;
            })
            []
            (live ++ (e ∷ []))
    room_in [] c = absurd (omega (arith, ap length c, length-append live [], s.room))
    room_in (old ∷ stale) c = record {
      stale = stale;
      content =
          ap (λ xs. set xs (length live) e) c ∙ set-at live old e stale ∙ sym (snoc live e stale);
      counted = omega (arith, length-snoc live e);
      room = length-set t.subscribers (length live) e ∙ s.room;
    }

-- With `live` subscribed, `timer_subscribe_event` with a callback and with a place left adds a
-- subscription behind the others, whose id is their number and whose first tick is an interval from
-- now; without a callback, or with 16 subscribers, it fails and changes nothing.
pub timer_subscribe_event-Split :
    (callback user_data interval_ms repeat : ℕ) (live : List TimerEvent) (t : TimerSystem)
    → Split t [] live
    → let r = timer_subscribe_event callback user_data interval_ms repeat t in
      let e = new_event t (length live) callback user_data interval_ms repeat in
      (callback ≢ 0
        → length live < 16
        → (r.0 ≡ some (length live + 1)) × Split r.1 [] (live ++ (e ∷ [])))
      × (callback ≡ 0 → r ≡ (none, t))
      × (16 ≤ length live → r ≡ (none, t))
unfolding timer_subscribe_event
timer_subscribe_event-Split callback user_data interval_ms repeat live t s = (
  (λ ne lt.
      let test : ((callback == 0) || leb 16 t.subscriber_count) ≡ false =
        ground (arith, s.counted) in
      let all : length live ≡ t.subscriber_count = omega (arith, s.counted) in
      rw test (
        ap some (omega (arith, s.counted)),
        subst
            (λ n.
              Split
                (record t {
                  subscribers =
                      set t.subscribers n (new_event t n callback user_data interval_ms repeat);
                  subscriber_count = n + 1;
                })
                [] (live ++ (new_event t (length live) callback user_data interval_ms repeat ∷ [])))
            all
            (subscribe_room t live s
              (new_event t (length live) callback user_data interval_ms repeat) lt),
      )),
  (λ null. ground (arith)),
  λ full. ground (arith, s.counted),
)
