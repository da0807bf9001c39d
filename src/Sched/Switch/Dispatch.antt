-- ===== src/Sched/Switch/Dispatch.antt =====
-- A context switch of `perform_scheduling`.
use kernix_os.Base.{
  ℕ, zero, suc, ◌≡◌, refl, ◌≢◌, ◌∙◌, ap, true, false, Option, none, some, List, [], ◌∷◌, ◌++◌,
  get_elem?, set, inl, inr, leb, if◌then◌else◌, Bool-cases, Option-cases, length,
}
use kernix_os.Sched.{Task, ready}
use kernix_os.Sched.Queue.{TaskQueue, max_task_count, task_queue_push}
use kernix_os.Sched.Queue.Fifo.{AllQueued, task_queue_push-Queued}
use kernix_os.Sched.Cpu.{Cpu, System}
use kernix_os.Sched.Switch.{
  update_task, set_status, update_cpu, push_ready, is_running, requeue_old,
}
use kernix_os.Sched.Switch.Update.{
  cpu-update_cpu, cpu-update_cpu_ne, pool-update_cpu, task-update_task, task-update_task_ne,
  cpus-update_task,
}

-- The task `t` at the end of level `p`, if its queue has room.
pub push_level : ℕ → ℕ → List (List ℕ) → List (List ℕ)
push_level p t [] = []
push_level zero t (ts ∷ tss) = (if leb max_task_count (length ts) then ts else ts ++ (t ∷ [])) ∷ tss
push_level (suc p) t (ts ∷ tss) = ts ∷ push_level p t tss

push_queues : ℕ → ℕ → List TaskQueue → List TaskQueue
push_queues p t qs = elim (get_elem? qs p) [ none ↦ qs | some q ↦ set qs p (task_queue_push q t) ]

push_queues-AllQueued :
    (p t : ℕ) (qs : List TaskQueue) (tss : List (List ℕ))
    → AllQueued qs tss
    → AllQueued (push_queues p t qs) (push_level p t tss)
unfolding push_queues push_level
push_queues-AllQueued p t [] [] h = tt
push_queues-AllQueued p t [] (ts ∷ tss) h = elim h [ ]
push_queues-AllQueued p t (q ∷ qs) [] h = elim h [ ]
push_queues-AllQueued zero t (q ∷ qs) (ts ∷ tss) h = (task_queue_push-Queued ts t h.0, h.1)
push_queues-AllQueued (suc p) t (q ∷ qs) (ts ∷ tss) h =
    let rest = push_queues-AllQueued p t qs tss h.1 in
    elim (Option-cases (get_elem? qs p)) [
      | inl e ↦ rw (e, push_queues) (h.0, rw (e, push_queues) at rest)
      | inr (r, e) ↦ rw (e, push_queues) (h.0, rw (e, push_queues) at rest)
    ]

queues-push_ready :
    (p t : ℕ) (c : Cpu) → (push_ready p t c).ready_queues ≡ push_queues p t c.ready_queues
unfolding push_ready push_queues
queues-push_ready p t c = elim (Option-cases (get_elem? c.ready_queues p)) [
  | inl e ↦ rw (e, push_ready, push_queues) refl
  | inr (q, e) ↦ rw (e, push_ready, push_queues) refl
]

-- The lists after a preempted task went back to the end of its level.
pub requeued : Option ℕ → List Task → List (List ℕ) → List (List ℕ)
requeued none pool tss = tss
requeued (some old) pool tss = elim (get_elem? pool old) [
  | none ↦ tss
  | some task ↦ if is_running task.status then push_level task.priority_level old tss else tss
]

-- The record of a preempted task.
pub preempt : Task → Task
preempt task = if is_running task.status then set_status ready task else task

module _ (old : ℕ) (task : Task) (pool : List Task) (tss : List (List ℕ))
    (h : get_elem? pool old ≡ some task) where
  requeued_running :
      is_running task.status ≡ true
      → requeued (some old) pool tss ≡ push_level task.priority_level old tss
  unfolding requeued
  requeued_running run = rw (h, requeued) (simp run)

  requeued_resting : is_running task.status ≡ false → requeued (some old) pool tss ≡ tss
  unfolding requeued
  requeued_resting rest = rw (h, requeued) (simp rest)

requeued_missing :
    (old : ℕ) (pool : List Task) (tss : List (List ℕ))
    → get_elem? pool old ≡ none
    → requeued (some old) pool tss ≡ tss
unfolding requeued
requeued_missing old pool tss h = rw (h, requeued) refl

preempt_running : (t : Task) → is_running t.status ≡ true → preempt t ≡ set_status ready t
unfolding preempt
preempt_running t run = simp run

preempt_resting : (t : Task) → is_running t.status ≡ false → preempt t ≡ t
unfolding preempt
preempt_resting t rest = simp rest

-- What `requeue_old` does to the system `s`, whose CPU `me` has its tasks in `tss`.
pub record Requeued (me : ℕ) (old : Option ℕ) (tss : List (List ℕ)) (s s' : System) : Type 0 where
  pub cpu : Cpu
  pub at_me : get_elem? s'.cpus me ≡ some cpu
  pub queues : AllQueued cpu.ready_queues (requeued old s.task_pool tss)
  pub cpus_elsewhere : (j : ℕ) → me ≢ j → get_elem? s'.cpus j ≡ get_elem? s.cpus j
  pub old_task :
      (o : ℕ) (task : Task)
      → old ≡ some o
      → get_elem? s.task_pool o ≡ some task
      → get_elem? s'.task_pool o ≡ some (preempt task)
  pub tasks_elsewhere : (u : ℕ) → old ≢ some u → get_elem? s'.task_pool u ≡ get_elem? s.task_pool u

module _ (me : ℕ) (tss : List (List ℕ)) (s : System) (c : Cpu) (at : get_elem? s.cpus me ≡ some c)
    (queued : AllQueued c.ready_queues tss) where
  unchanged-Requeued :
      (old : Option ℕ)
      → requeued old s.task_pool tss ≡ tss
      → ((o : ℕ) (task : Task)
          → old ≡ some o
          → get_elem? s.task_pool o ≡ some task
          → preempt task ≡ task)
      → Requeued me old tss s s
  unchanged-Requeued old same kept = record {
    cpu = c;
    at_me = at;
    queues = rw same queued;
    cpus_elsewhere = λ j ne. refl;
    old_task = λ o task e h. rw (kept o task e h) h;
    tasks_elsewhere = λ u ne. refl;
  }

  preempted-Requeued :
      (old : ℕ) (task : Task)
      → get_elem? s.task_pool old ≡ some task
      → is_running task.status ≡ true
      → Requeued me (some old) tss s (
          update_cpu me (push_ready task.priority_level old) (update_task old (set_status ready) s))
  preempted-Requeued old task h run =
      let s1 = update_task old (set_status ready) s in
      let f = push_ready task.priority_level old in
      let at1 : get_elem? s1.cpus me ≡ some c = rw (cpus-update_task old (set_status ready) s) at in
      record {
        cpu = f c;
        at_me = cpu-update_cpu me f s1 c at1;
        queues =
            rw
              (
                requeued_running old task s.task_pool tss h run,
                queues-push_ready task.priority_level old c,
              )
              (push_queues-AllQueued task.priority_level old c.ready_queues tss queued);
        cpus_elsewhere = λ j ne.
            cpu-update_cpu_ne me f s1 j ne
            ∙ ap (λ cs. get_elem? cs j) (cpus-update_task old (set_status ready) s);
        old_task = λ o t e ht.
            let same_index : o ≡ old = cc in
            let same_record : t ≡ task = cc in
            ap (λ ts. get_elem? ts o) (pool-update_cpu me f s1)
            ∙ rw (same_index, same_record, preempt_running task run)
                (task-update_task old (set_status ready) s task h);
        tasks_elsewhere = λ u ne.
            ap (λ ts. get_elem? ts u) (pool-update_cpu me f s1)
            ∙ task-update_task_ne old (set_status ready) s u (λ e. ne (ap some e));
      }

  missing :
      (old o : ℕ) (task : Task)
      → get_elem? s.task_pool old ≡ none
      → ◌≡◌ {A = Option ℕ} (some old) (some o)
      → get_elem? s.task_pool o ≡ some task
      → ⊥
  missing old o task e eo h =
      let same_index : o ≡ old = cc in cc (ap (get_elem? s.task_pool) same_index)

  resting :
      (old o : ℕ) (task t : Task)
      → get_elem? s.task_pool old ≡ some task
      → ◌≡◌ {A = Option ℕ} (some old) (some o)
      → get_elem? s.task_pool o ≡ some t
      → is_running task.status ≡ false
      → is_running t.status ≡ false
  resting old o task t e eo h rest =
      let same_index : o ≡ old = cc in
      let same_record : t ≡ task = cc (ap (get_elem? s.task_pool) same_index) in rw same_record rest

  pub requeue_old-Requeued : (old : Option ℕ) → Requeued me old tss s (requeue_old me old s)
  unfolding requeue_old requeued
  requeue_old-Requeued none = unchanged-Requeued none refl (λ o task e h. cc)
  requeue_old-Requeued (some old) = elim (Option-cases (get_elem? s.task_pool old)) [
    | inl e ↦
        rw (e, requeue_old)
          (unchanged-Requeued (some old) (requeued_missing old s.task_pool tss e)
            (λ o task eo h. absurd (missing old o task e eo h)))
    | inr (task, e) ↦ elim (Bool-cases (is_running task.status)) [
      | inl run ↦ rw (e, requeue_old) (simp run (preempted-Requeued old task e run))
      | inr rest ↦
          rw (e, requeue_old)
            (simp rest (
              unchanged-Requeued (some old) (requeued_resting old task s.task_pool tss e rest)
                λ o t eo h. preempt_resting t (resting old o task t e eo h rest)))
    ]
  ]
