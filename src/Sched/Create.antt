-- ===== src/Sched/Create.antt =====
-- `create_new_task` and the start of the scheduler on a CPU, in core/kernel/processes/scheduler.c.
pub mod Placement
pub mod Stacks
use kernix_os.Base.{
  ℕ, zero, suc, ◌+◌, ◌-◌, ◌/◌, ◌%◌, ◌^◌, Bool, true, false, Option, none, some, List, [], ◌∷◌, ltb,
  leb, ◌==◌, if◌then◌else◌, ◌&&◌, ◌||◌, get_elem?, get_or, set, u32, replicate,
}
use kernix_os.Sched.{Task, Status, ready, running, blocked, terminated}
use kernix_os.Sched.Queue.{initialize_task_queue, max_task_count, max_priority_levels}
use kernix_os.Sched.Cpu.{Cpu, System, per_cpu_current}
use kernix_os.Sched.Switch.{update_task, set_status, update_cpu, push_ready, time_slice_ticks}

-- `create_new_task` returns a task or NULL, or reads through a NULL CPU or writes outside an array.
pub data Creation : Type 0 where
  made : ℕ → Creation
  null : Creation
  faulted : Creation

abbrev pub u32_max : ℕ
u32_max = 2 ^ 32 - 1

-- The first loop: the online CPU with the fewest tasks, from CPU `i` on, where `best` is the one
-- found so far and `min_count` its count.
pub least_loaded : ℕ → ℕ → Option ℕ → List Cpu → Option ℕ
least_loaded i min_count best [] = best
least_loaded i min_count best (c ∷ cs) =
    let better = c.is_online && ltb c.task_count min_count in
    least_loaded (i + 1) (if better then c.task_count else min_count)
      (if better then some i else best) cs

abbrev pub is_terminated : Status → Bool
is_terminated terminated = true
is_terminated _ = false

-- The second loop: the first slot of `task_pool` that holds no live task.
unfoldable pub free_slot : ℕ → List Task → Option ℕ
free_slot i [] = none
free_slot i (t ∷ ts) =
    if is_terminated t.status || (t.identifier == 0) then some i else free_slot (i + 1) ts

-- `*(task->stack_pointer--) = word;` for each word in turn. The pointer counts words of the stack.
pub push_words : List ℕ → ℕ → List ℕ → List ℕ × ℕ
push_words [] pointer stack = (stack, pointer)
push_words (w ∷ ws) pointer stack = push_words ws (pointer - 1) (set stack pointer w)

-- The first words on a new stack: the entry point, six zeros and the flags register.
abbrev pub first_words : ℕ → List ℕ
first_words entry = entry ∷ 0 ∷ 0 ∷ 0 ∷ 0 ∷ 0 ∷ 0 ∷ 0x202 ∷ []

-- The record that the slot receives. `execution_context` is not written.
pub new_task : System → List ℕ → ℕ → ℕ → ℕ → ℕ → Task
unfolding push_words
new_task s name entry priority stack_size cpu_id =
    let stack = get_or s.task_stacks s.stack_index [] in
    record {
      identifier = s.next_task_id;
      status = ready;
      priority_level = priority;
      stack_pointer = (push_words (first_words entry) (stack_size / 8 - 1) stack).1;
      stack_start = s.stack_index;
      stack_capacity = stack_size;
      start_function = entry;
      task_name = name;
      remaining_ticks = time_slice_ticks;
      assigned_cpu = cpu_id;
    }

-- The eight words that are pushed do not fit the array of 1024 words, or there is no such queue.
pub out_of_array : (priority stack_size : ℕ) → Bool
out_of_array priority stack_size =
    leb 32 priority || ltb (stack_size / 8) 8 || ltb 1024 (stack_size / 8)

-- From `task->identifier = next_task_id++` on: the slot `slot`, on the CPU at index `target`.
pub place_task : System → List ℕ → ℕ → ℕ → ℕ → (slot target : ℕ) → Cpu → System
unfolding update_task update_cpu push_ready push_words
place_task s name entry priority stack_size slot target pcpu =
    let stack = get_or s.task_stacks s.stack_index [] in
    let task = new_task s name entry priority stack_size pcpu.cpu_id in
    let s1 : System = record (update_task slot (λ t. task) s) {
      next_task_id = u32 (s.next_task_id + 1);
      stack_index = s.stack_index + 1;
      task_stacks =
          set s.task_stacks s.stack_index
            (push_words (first_words entry) (stack_size / 8 - 1) stack).0;
    } in
    update_cpu target
      (λ c. record (push_ready priority slot c) { task_count = u32 (c.task_count + 1) }) s1

abbrev pub or_current : Option ℕ → Option ℕ → Option ℕ
or_current none c = c
or_current (some i) c = some i

pub create_on : System → List ℕ → ℕ → ℕ → ℕ → (slot target : Option ℕ) → Creation × System
unfolding place_task
create_on s name entry priority stack_size none target = (null, s)
create_on s name entry priority stack_size (some slot) none =
    if leb max_task_count s.stack_index then (null, s) else (faulted, s)
create_on s name entry priority stack_size (some slot) (some target) =
    if leb max_task_count s.stack_index then (null, s) else elim (get_elem? s.cpus target) [
      | none ↦ (faulted, s)
      | some pcpu ↦
          (if out_of_array priority stack_size
            then (faulted, s)
            else (made slot, place_task s name entry priority stack_size slot target pcpu))
    ]

-- `apic` names the calling CPU, which is the target if no CPU is online.
pub create_new_task : ℕ → List ℕ → ℕ → ℕ → ℕ → System → Creation × System
unfolding create_on least_loaded per_cpu_current free_slot
create_new_task apic name entry priority stack_size s =
    create_on s name entry priority stack_size (free_slot 0 s.task_pool)
      (or_current (least_loaded 0 u32_max none s.cpus) (per_cpu_current apic 0 s.cpus))

-- `initialize_scheduler` and `initialize_ap_scheduler`, which differ in the idle task's name. They
-- halt (`none`) where the CPU has no record or the idle task cannot be made.
pub set_idle : ℕ → Creation × System → Option System
unfolding update_cpu update_task
set_idle me (made t, s) = some (
    update_task t (set_status running)
      (update_cpu me (λ c. record c { idle_task = some t; current_task = some t }) s))
set_idle me (_, s) = none

pub initialize_scheduler : ℕ → List ℕ → ℕ → System → Option System
unfolding per_cpu_current update_cpu create_new_task set_idle
initialize_scheduler apic idle_name idle_entry s = elim (per_cpu_current apic 0 s.cpus) [
  | none ↦ none
  | some me ↦ set_idle me (
      create_new_task apic idle_name idle_entry 0 4096 (
        update_cpu me
          (λ c. record c { ready_queues = replicate max_priority_levels initialize_task_queue }) s))
]
