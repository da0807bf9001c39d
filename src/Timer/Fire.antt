-- ===== src/Timer/Fire.antt =====
-- An interrupt calls the due subscribers in order, each once, and keeps all others.
use kernix_os.Base.{
  ℕ, zero, suc, ◌+◌, ◌-◌, ◌<◌, ◌≡◌, refl, ◌≢◌, ◌∙◌, ap, sym, subst, Bool, true, false, Option, none,
  some, List, [], ◌∷◌, ◌++◌, length, get_or, set, shift_down, last_of, get_or-at, set-at,
  shift_down-at, length-append, length-set, length-shift_down, snoc, length-snoc, ltb, leb, ◌==◌,
  if◌then◌else◌, arith, Bool-cases, inl, inr, u64,
}
use mathlib.Core.List.{append_assoc, append-nil}
use kernix_os.Timer.{
  TimerEvent, TimerSystem, blank_event, Calls, call, remove_at, rearm, fire_from,
  timer_handle_interrupt,
}

-- The first places of the array are the subscribers, `done` and then `todo`.
pub record Split (t : TimerSystem) (done todo : List TimerEvent) : Type 0 where
  pub stale : List TimerEvent
  pub content : t.subscribers ≡ done ++ (todo ++ stale)
  pub counted : t.subscriber_count ≡ length done + length todo
  pub room : length t.subscribers ≡ 16

abbrev pub due : ℕ → TimerEvent → Bool
due now e = leb e.next_trigger now

-- The subscribers after an interrupt at tick `now`.
abbrev pub kept : ℕ → List TimerEvent → List TimerEvent
kept now [] = []
kept now (e ∷ es) =
    if due now e
    then (if e.recurring == 0
        then kept now es
        else record e { next_trigger = u64 (now + e.interval_ticks) } ∷ kept now es)
    else e ∷ kept now es

-- The calls that it makes.
abbrev pub called : ℕ → List TimerEvent → Calls
called now [] = []
called now (e ∷ es) =
    if due now e
    then (if e.handler == 0 then called now es else (e.handler, e.user_data) ∷ called now es)
    else called now es

abbrev pub Fired : ℕ → List TimerEvent → Calls → Option (TimerSystem × Calls) → Type 0
Fired now live calls none = ⊥
Fired now live calls (some (t, made)) = Split t live [] × (t.total_ticks ≡ now) × (made ≡ calls)

module _ {t : TimerSystem} {done todo : List TimerEvent} {e : TimerEvent}
    (s : Split t done (e ∷ todo)) where
  pub Split-wait : Split t (done ++ (e ∷ [])) todo
  Split-wait = record {
    stale = s.stale;
    content = s.content ∙ sym (snoc done e (todo ++ s.stale));
    counted = omega (arith, s.counted, length-snoc done e);
    room = s.room;
  }

  Split-rearm :
      Split
        (rearm (length done) e t)
        (done ++ (record e { next_trigger = u64 (t.total_ticks + e.interval_ticks) } ∷ []))
        todo
  unfolding rearm
  Split-rearm =
      let e' = record e { next_trigger = u64 (t.total_ticks + e.interval_ticks) } in
      record {
        stale = s.stale;
        content =
            ap (λ xs. set xs (length done) e') s.content
            ∙ set-at done e e' (todo ++ s.stale)
            ∙ sym (snoc done e' (todo ++ s.stale));
        counted = omega (arith, s.counted, length-snoc done e');
        room = length-set t.subscribers (length done) e' ∙ s.room;
      }

  pub Split-remove : Split (remove_at (length done) t) done todo
  unfolding remove_at
  Split-remove =
      let behind : t.subscriber_count - 1 - length done ≡ length todo = omega (arith, s.counted) in
      record {
        stale = last_of e todo ∷ s.stale;
        content =
            ap (λ n. shift_down blank_event n (length done) t.subscribers) behind
            ∙ ap (shift_down blank_event (length todo) (length done)) s.content
            ∙ shift_down-at blank_event e done todo s.stale;
        counted = omega (arith, s.counted);
        room =
            length-shift_down blank_event (t.subscriber_count - 1 - length done) (length done)
              t.subscribers
            ∙ s.room;
      }

  pub event-at : get_or t.subscribers (length done) blank_event ≡ e
  event-at =
      ap (λ xs. get_or xs (length done) blank_event) s.content
      ∙ get_or-at done e (todo ++ s.stale) blank_event

  active : ltb (length done) t.subscriber_count ≡ true
  active = ground (arith, s.counted)

fire_step :
    (fuel i : ℕ) (t : TimerSystem) (calls : Calls) (e : TimerEvent)
    → get_or t.subscribers i blank_event ≡ e
    → ltb i t.subscriber_count ≡ true
    → fire_from (suc fuel) i t calls ≡ (
        if due t.total_ticks e
        then (if e.recurring == 0
            then fire_from fuel i (remove_at i t) (call e calls)
            else fire_from fuel (i + 1) (rearm i e t) (call e calls))
        else fire_from fuel (i + 1) t calls)
unfolding fire_from
fire_step fuel i t calls e same more = rw more (
    ap
      (λ x.
        if due t.total_ticks x
        then (if x.recurring == 0
            then fire_from fuel i (remove_at i t) (call x calls)
            else fire_from fuel (i + 1) (rearm i x t) (call x calls))
        else fire_from fuel (i + 1) t calls)
      same)

Fired-eq :
    (now : ℕ) {l l' : List TimerEvent} {c c' : Calls} {r r' : Option (TimerSystem × Calls)}
    → l ≡ l'
    → c ≡ c'
    → r' ≡ r
    → Fired now l c r
    → Fired now l' c' r'
Fired-eq now {l'} {c} {r} {r'} e f g h =
    subst (λ x. Fired now l' x r') f
      (subst (λ x. Fired now l' c x) (sym g) (subst (λ x. Fired now x c r) e h))

pub Split-all :
    {t : TimerSystem} (done todo : List TimerEvent) → Split t done todo → Split t [] (done ++ todo)
Split-all done todo s = record {
  stale = s.stale;
  content = s.content ∙ sym (append_assoc done todo s.stale);
  counted = omega (arith, s.counted, length-append done todo);
  room = s.room;
}

call-called :
    (now : ℕ) (e : TimerEvent) (calls : Calls) (todo : List TimerEvent)
    → due now e ≡ true
    → call e calls ++ called now todo ≡ calls ++ called now (e ∷ todo)
call-called now e calls todo d = elim (Bool-cases (e.handler == 0)) [
  | inl none_set ↦ simp (d, none_set) refl
  | inr set_one ↦ simp (d, set_one) (snoc calls (e.handler, e.user_data) (called now todo))
]

module _ (now : ℕ) where
  fire_from-Fired :
      (fuel : ℕ) (done todo : List TimerEvent) (t : TimerSystem) (calls : Calls)
      → Split t done todo
      → t.total_ticks ≡ now
      → length todo < fuel
      → Fired now
          (done ++ kept now todo)
          (calls ++ called now todo)
          (fire_from fuel (length done) t calls)
  unfolding fire_from
  fire_from-Fired zero done todo t calls s at lt = absurd (omega arith)
  fire_from-Fired (suc fuel) done [] t calls s at lt =
      let over : ltb (length done) t.subscriber_count ≡ false = ground (arith, s.counted) in
      rw over (subst (λ d. Split t d []) (sym (append-nil done)) s, at, sym (append-nil calls))
  fire_from-Fired (suc fuel) done (e ∷ todo) t calls s at lt =
      let same = event-at s in
      let more = active s in
      let step = fire_step fuel (length done) t calls e same more in
      let step' : fire_from (suc fuel) (length done) t calls ≡ (
          if due now e
          then (if e.recurring == 0
              then fire_from fuel (length done) (remove_at (length done) t) (call e calls)
              else fire_from fuel (length done + 1) (rearm (length done) e t) (call e calls))
          else fire_from fuel (length done + 1) t calls) =
        step
        ∙ ap
            (λ n.
              if due n e
              then (if e.recurring == 0
                  then fire_from fuel (length done) (remove_at (length done) t) (call e calls)
                  else fire_from fuel (length done + 1) (rearm (length done) e t) (call e calls))
              else fire_from fuel (length done + 1) t calls)
            at in
      elim (Bool-cases (due now e)) [
        | inl is_due ↦ elim (Bool-cases (e.recurring == 0)) [
          | inl last ↦
              Fired-eq now (simp (is_due, last) refl) (call-called now e calls todo is_due)
                (step' ∙ rw (is_due, last) refl)
                (fire_from-Fired fuel done todo (remove_at (length done) t) (call e calls)
                  (Split-remove s) at (omega arith))
          | inr again ↦
              let e' = record e { next_trigger = u64 (t.total_ticks + e.interval_ticks) } in
              Fired-eq now (snoc done e' (kept now todo) ∙ simp (is_due, again, at) refl)
                (call-called now e calls todo is_due)
                (step'
                  ∙ rw (is_due, again)
                      (ap (λ i. fire_from fuel i (rearm (length done) e t) (call e calls))
                        (sym (length-snoc done e'))))
                (fire_from-Fired fuel (done ++ (e' ∷ [])) todo (rearm (length done) e t)
                  (call e calls) (Split-rearm s) at (omega arith))
        ]
        | inr not_due ↦
            Fired-eq now (snoc done e (kept now todo) ∙ simp not_due refl) (simp not_due refl)
              (step' ∙ rw not_due (ap (λ i. fire_from fuel i t calls) (sym (length-snoc done e))))
              (fire_from-Fired fuel (done ++ (e ∷ [])) todo t calls (Split-wait s) at (omega arith))
      ]

-- With `live` subscribed, in order, and the timer running, an interrupt ends: the tick count is one
-- more; the handlers of the subscribers whose tick has come are called, in order and each once; those
-- that do not recur are gone, those that do wait for their interval again, and all others stay, in
-- the same order.
pub timer_handle_interrupt-Fired :
    (t : TimerSystem) (live : List TimerEvent)
    → Split t [] live
    → t.total_ticks ≢ 0
    → Fired
        (u64 (t.total_ticks + 1))
        (kept (u64 (t.total_ticks + 1)) live)
        (called (u64 (t.total_ticks + 1)) live)
        (timer_handle_interrupt t)
unfolding timer_handle_interrupt
timer_handle_interrupt-Fired t live s running =
    let now = u64 (t.total_ticks + 1) in
    let test : (t.total_ticks == 0) ≡ false = ground arith in
    let t1 = record t { total_ticks = now } in
    let s1 : Split t1 [] live = record {
      stale = s.stale;
      content = s.content;
      counted = s.counted;
      room = s.room;
    } in
    rw test (
      fire_from-Fired now (t.subscriber_count + 1) [] live t1 [] s1 refl (omega (arith, s.counted)))
