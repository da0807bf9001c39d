-- ===== src/Sched/Switch.antt =====
-- Choosing and switching tasks: `perform_scheduling` and its callers in
-- core/kernel/processes/scheduler.c. What comes after a context switch is another task's code, so a
-- call ends with what it hands to `perform_task_switch`, or in the idle loop.
pub mod Update
pub mod Dispatch
pub mod Effect
pub mod Revive
use kernix_os.Base.{
  ℕ, zero, suc, ◌+◌, ◌-◌, ◌%◌, ◌^◌, Bool, true, false, Option, none, some, List, [], ◌∷◌, ltb, ◌==◌,
  if◌then◌else◌, get_elem?, set,
}
use kernix_os.Sched.{Task, Status, ready, running, blocked, terminated}
use kernix_os.Sched.Queue.{TaskQueue, task_queue_push, task_queue_pop_priority}
use kernix_os.Sched.Cpu.{Cpu, System, per_cpu_current, per_cpu_get}

-- How a call of `perform_scheduling` ends: it returns, it switches between two contexts, it enters
-- `idle_task_entry`, or it reads through a NULL task.
pub data Ending : Type 0 where
  stays : Ending
  switches : Option ℕ → ℕ → Ending
  idles : Ending
  faults : Ending

abbrev pub time_slice_ticks : ℕ
time_slice_ticks = 10

-- A write through a task pointer.
unfoldable pub update_task : ℕ → (Task → Task) → System → System
update_task t f s = elim (get_elem? s.task_pool t) [
  | none ↦ s
  | some task ↦ record s { task_pool = set s.task_pool t (f task) }
]

abbrev pub set_status : Status → Task → Task
set_status st task = record task { status = st }

abbrev pub set_ticks : ℕ → Task → Task
set_ticks n task = record task { remaining_ticks = n }

-- A write to a record of `per_cpu_data`.
unfoldable pub update_cpu : ℕ → (Cpu → Cpu) → System → System
update_cpu i f s = elim (get_elem? s.cpus i) [
  | none ↦ s
  | some c ↦ record s { cpus = set s.cpus i (f c) }
]

-- `task_queue_push(&pcpu->ready_queues[priority], task)`, where the priority is one of the 32 levels:
-- the creation of a task with another one faults (`out_of_array`).
unfoldable pub push_ready : ℕ → ℕ → Cpu → Cpu
push_ready priority t c = elim (get_elem? c.ready_queues priority) [
  | none ↦ c
  | some q ↦ record c { ready_queues = set c.ready_queues priority (task_queue_push q t) }
]

abbrev pub is_running : Status → Bool
is_running running = true
is_running _ = false

abbrev pub same_task : Option ℕ → Option ℕ → Bool
same_task none none = true
same_task (some a) (some b) = a == b
same_task _ _ = false

-- `if (old_task && old_task->status == TASK_STATE_RUNNING) { ... }`
pub requeue_old : ℕ → Option ℕ → System → System
unfolding update_task update_cpu push_ready
requeue_old me none s = s
requeue_old me (some old) s = elim (get_elem? s.task_pool old) [
  | none ↦ s
  | some task ↦
      if is_running task.status
      then update_cpu me (push_ready task.priority_level old) (update_task old (set_status ready) s)
      else s
]

-- From `pcpu->current_task = next_task` on.
pub switch_in : ℕ → Cpu → ℕ → System → System × Ending
unfolding update_task update_cpu
switch_in me pcpu next s =
    let s1 = update_cpu me (λ c. record c { current_task = some next }) s in
    let s2 = update_task next (λ t. set_ticks time_slice_ticks (set_status running t)) s1 in
    (s2, if same_task (some next) pcpu.idle_task then idles else switches pcpu.current_task next)

-- `if (!next_task) next_task = pcpu->idle_task;`
abbrev pub or_idle : Option ℕ → Option ℕ → Option ℕ
or_idle none idle = idle
or_idle (some t) idle = some t

-- What follows once `next_task` is chosen. `pcpu` is the CPU's record from before.
pub run_next : ℕ → Cpu → Option ℕ → System → System × Ending
unfolding update_task requeue_old switch_in
run_next me pcpu none s = (s, faults)
run_next me pcpu (some next) s =
    if same_task (some next) pcpu.current_task
    then (update_task next (set_ticks time_slice_ticks) s, stays)
    else switch_in me pcpu next (requeue_old me pcpu.current_task s)

pub schedule_on : ℕ → Cpu → System → System × Ending
unfolding update_cpu run_next
schedule_on me pcpu s =
    let (task, queues) = task_queue_pop_priority pcpu.ready_queues in
    run_next me pcpu (or_idle task pcpu.idle_task)
      (update_cpu me (λ c. record c { ready_queues = queues }) s)

-- `apic` is what `smp_get_current_apic_id` returns.
unfoldable pub perform_scheduling : ℕ → System → System × Ending
unfolding schedule_on per_cpu_current
perform_scheduling apic s = elim (per_cpu_current apic 0 s.cpus) [
  | none ↦ (s, stays)
  | some me ↦ elim (get_elem? s.cpus me) [ none ↦ (s, stays) | some c ↦ schedule_on me c s ]
]

-- The current CPU's index and its current task.
pub current : ℕ → System → Option (ℕ × ℕ)
unfolding per_cpu_current
current apic s = elim (per_cpu_current apic 0 s.cpus) [
  | none ↦ none
  | some me ↦ elim (get_elem? s.cpus me) [
    | none ↦ none
    | some c ↦ elim c.current_task [ none ↦ none | some t ↦ some (me, t) ]
  ]
]

pub get_current_task : ℕ → System → Option ℕ
unfolding current
get_current_task apic s = elim (current apic s) [ none ↦ none | some (me, t) ↦ some t ]

unfoldable pub yield_current_task : ℕ → System → System × Ending
unfolding current perform_scheduling
yield_current_task apic s = elim (current apic s) [
  | none ↦ (s, stays)
  | some (me, t) ↦ perform_scheduling apic s
]

-- The two tests of `handle_scheduler_timer`, on the ticks of the current task.
pub tick : ℕ → ℕ → ℕ → System → System × Ending
unfolding update_task perform_scheduling
tick apic t ticks s =
    let left = (if ltb 0 ticks then ticks - 1 else ticks) in
    let s1 = update_task t (set_ticks left) s in
    if left == 0 then perform_scheduling apic s1 else (s1, stays)

unfoldable pub handle_scheduler_timer : ℕ → System → System × Ending
unfolding current tick
handle_scheduler_timer apic s = elim (current apic s) [
  | none ↦ (s, stays)
  | some (me, t) ↦ elim (get_elem? s.task_pool t) [
    | none ↦ (s, faults)
    | some task ↦ tick apic t task.remaining_ticks s
  ]
]

unfoldable pub block_current_task : ℕ → System → System × Ending
unfolding current update_task perform_scheduling
block_current_task apic s = elim (current apic s) [
  | none ↦ (s, stays)
  | some (me, t) ↦ perform_scheduling apic (update_task t (set_status blocked) s)
]

abbrev pub is_blocked : Status → Bool
is_blocked blocked = true
is_blocked _ = false

unfoldable pub unblock_task : ℕ → System → System
unfolding update_task update_cpu push_ready
unblock_task t s = elim (get_elem? s.task_pool t) [
  | none ↦ s
  | some task ↦
      if is_blocked task.status
      then elim (get_elem? s.cpus task.assigned_cpu) [
        | none ↦ s
        | some c ↦
            update_cpu task.assigned_cpu (push_ready task.priority_level t)
              (update_task t (set_status ready) s)
      ]
      else s
]

-- `task_count` is a `u32` and wraps.
abbrev pub count_down : Cpu → Cpu
count_down c = record c { task_count = (c.task_count + 2 ^ 32 - 1) % 2 ^ 32 }

unfoldable pub terminate_task : ℕ → ℕ → System → System × Ending
unfolding update_task update_cpu current perform_scheduling
terminate_task apic t s = elim (get_elem? s.task_pool t) [
  | none ↦ (s, faults)
  | some task ↦
      let s1 = update_cpu task.assigned_cpu count_down (update_task t (set_status terminated) s) in
      elim (current apic s1) [
        | none ↦ (s1, stays)
        | some (me, now) ↦
            if t == now
            then perform_scheduling apic (update_cpu me (λ c. record c { current_task = none }) s1)
            else (s1, stays)
      ]
]
