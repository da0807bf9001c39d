-- ===== src/Sched/Queue/Fifo.antt =====
-- A ready queue is a bounded first-in first-out queue, and the 32 of them serve the lowest level first.
use kernix_os.Base.{
  ℕ, suc, ◌+◌, ◌%◌, ◌≤◌, ◌<◌, ◌≡◌, refl, sym, ap, subst, true, false, Option, none, some, List, [],
  ◌∷◌, ◌++◌, arith, leb, ltb, ◌==◌, if◌then◌else◌, Bool-cases, inl, inr, length, set, length-set,
  length-append, get_elem?-eq-get_or,
}
use kernix_os.Base.Ring.{Holds, Holds-push, Holds-pop, Holds-clear, Holds-head}
use kernix_os.Sched.Queue.{
  max_task_count, TaskQueue, initialize_task_queue, task_queue_push, task_queue_pop,
  task_queue_pop_priority,
}

-- The array's entries for the tasks `ts`.
abbrev pub slots : List ℕ → List (Option ℕ)
slots [] = []
slots (t ∷ ts) = some t ∷ slots ts

length-slots : (ts : List ℕ) → length (slots ts) ≡ length ts
length-slots [] = refl
length-slots (t ∷ ts) = ap suc (length-slots ts)

slots-append : (ts : List ℕ) (t : ℕ) → slots (ts ++ (t ∷ [])) ≡ slots ts ++ (some t ∷ [])
slots-append [] t = refl
slots-append (u ∷ ts) t = ap (λ r. some u ∷ r) (slots-append ts t)

-- The queue holds the tasks `ts`, the one that waits longest first.
pub record Queued (q : TaskQueue) (ts : List ℕ) : Type 0 where
  pub size : length q.task_list ≡ max_task_count
  pub inside : q.start_index < max_task_count
  pub end_at : q.end_index ≡ (q.start_index + q.item_count) % max_task_count
  pub counted : q.item_count ≡ length ts
  pub bounded : q.item_count ≤ max_task_count
  pub items : Holds max_task_count q.task_list q.start_index (slots ts)

pub initialize_task_queue-Queued : Queued initialize_task_queue []
unfolding initialize_task_queue
initialize_task_queue-Queued = record {
  size = refl;
  inside = omega arith;
  end_at = refl;
  counted = refl;
  bounded = omega arith;
  items = λ i lt. absurd (omega arith);
}

-- On a queue that holds `ts`, pushing appends the task; a queue of 256 tasks is left as it is.
pub task_queue_push-Queued :
    {q : TaskQueue} (ts : List ℕ) (t : ℕ)
    → Queued q ts
    → Queued (task_queue_push q t) (if leb max_task_count (length ts) then ts else ts ++ (t ∷ []))
unfolding task_queue_push
task_queue_push-Queued {q} ts t h =
    let at_end : q.end_index ≡ (q.start_index + length (slots ts)) % max_task_count =
      omega (arith, h.end_at, h.counted, length-slots ts) in
    elim (Bool-cases (leb max_task_count q.item_count)) [
      | inl full ↦ simp (full, ← h.counted) h
      | inr room ↦
          simp (room, ← h.counted)
            (record {
              size = omega (arith, h.size, length-set q.task_list q.end_index (some t));
              inside = h.inside;
              end_at = omega (arith, h.end_at);
              counted = ground (arith, h.counted, length-append ts (t ∷ []));
              bounded = ground arith;
              items =
                  subst
                    (λ at.
                      Holds max_task_count (set q.task_list at (some t)) q.start_index
                        (slots (ts ++ (t ∷ []))))
                    (sym at_end)
                    (subst (Holds max_task_count _ q.start_index) (sym (slots-append ts t)) (
                      Holds-push max_task_count q.task_list q.start_index h.size h.inside (slots ts)
                        (some t) (ground (arith, h.counted, length-slots ts)) h.items));
            })
    ]

-- Popping an empty queue gives NULL and changes nothing.
pub task_queue_pop-empty : {q : TaskQueue} → Queued q [] → task_queue_pop q ≡ (none, q)
unfolding task_queue_pop
task_queue_pop-empty {q} h = elim (Bool-cases (q.item_count == 0)) [
  | inl zero_items ↦ simp zero_items refl
  | inr some_items ↦ absurd (ground (arith, h.counted))
]

-- On a queue that holds some task, popping takes the one that waits longest, and leaves the others in
-- their order.
pub task_queue_pop-Queued :
    {q : TaskQueue} (t : ℕ) (ts : List ℕ)
    → Queued q (t ∷ ts)
    → ((task_queue_pop q).0 ≡ some t) × Queued (task_queue_pop q).1 ts
unfolding task_queue_pop
task_queue_pop-Queued {q} t ts h =
    let room : length (slots ts) < max_task_count =
      omega (arith, h.counted, h.bounded, length-slots ts) in
    let head =
      Holds-head max_task_count q.task_list q.start_index h.size h.inside (some t) (slots ts)
        h.items in
    let stuck : (q.item_count == 0) ≡ false = ground (arith, h.counted) in
    simp stuck (
      ground (arith, head, get_elem?-eq-get_or q.task_list q.start_index none),
      record {
        size = omega (arith, h.size, length-set q.task_list q.start_index none);
        inside = omega arith;
        end_at = omega (arith, h.end_at, h.counted);
        counted = omega (arith, h.counted);
        bounded = omega (arith, h.bounded);
        items =
            Holds-clear max_task_count q.task_list q.start_index h.size h.inside (slots ts) none
              room
              (Holds-pop max_task_count q.task_list q.start_index h.size h.inside (some t)
                (slots ts) room h.items);
      },
    )

-- The ready queues of one CPU, level by level.
abbrev pub AllQueued : List TaskQueue → List (List ℕ) → Type 0
AllQueued [] [] = Unit
AllQueued (q ∷ qs) (ts ∷ tss) = Queued q ts × AllQueued qs tss
AllQueued _ _ = ⊥

-- The specification of `task_queue_pop_priority`: the head of the first non-empty list.
unfoldable pub pop_lowest : List (List ℕ) → Option ℕ × List (List ℕ)
pop_lowest [] = (none, [])
pop_lowest ([] ∷ tss) = let (t, rest) = pop_lowest tss in (t, [] ∷ rest)
pop_lowest ((t ∷ ts) ∷ tss) = (some t, ts ∷ tss)

-- The task picked is the one that waits longest at the lowest level that has a task, and only that
-- task leaves the queues.
pub task_queue_pop_priority_lem :
    (qs : List TaskQueue) (tss : List (List ℕ))
    → AllQueued qs tss
    → ((task_queue_pop_priority qs).0 ≡ (pop_lowest tss).0)
      × AllQueued (task_queue_pop_priority qs).1 (pop_lowest tss).1
unfolding task_queue_pop_priority pop_lowest
task_queue_pop_priority_lem [] [] h = (refl, tt)
task_queue_pop_priority_lem [] (ts ∷ tss) h = elim h [ ]
task_queue_pop_priority_lem (q ∷ qs) [] h = elim h [ ]
task_queue_pop_priority_lem (q ∷ qs) ([] ∷ tss) h =
    let rest = task_queue_pop_priority_lem qs tss h.1 in
    let none_here : ltb 0 q.item_count ≡ false = ground (arith, h.0.counted) in
    simp none_here (rest.0, (h.0, rest.1))
task_queue_pop_priority_lem (q ∷ qs) ((t ∷ ts) ∷ tss) h =
    let here : ltb 0 q.item_count ≡ true = ground (arith, h.0.counted) in
    let popped = task_queue_pop-Queued t ts h.0 in simp here (popped.0, (popped.1, h.1))
