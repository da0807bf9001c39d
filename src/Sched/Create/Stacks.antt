-- ===== src/Sched/Create/Stacks.antt =====
-- Stacks are handed out in order and never taken back, so a system makes at most 256 tasks.
use kernix_os.Base.{
  ℕ, ◌+◌, ◌≤◌, ◌<◌, ◌≡◌, refl, Option, none, some, List, [], ◌∷◌, arith, inl, inr, leb, get_elem?,
  Bool-cases, Option-cases,
}
use kernix_os.Sched.Queue.{max_task_count}
use kernix_os.Sched.Cpu.{Cpu, System, per_cpu_current}
use kernix_os.Sched.Switch.{
  perform_scheduling, yield_current_task, handle_scheduler_timer, block_current_task, unblock_task,
  terminate_task, update_cpu,
}
use kernix_os.Sched.Create.{
  Creation, made, null, faulted, place_task, create_on, create_new_task, free_slot, or_current,
  least_loaded, u32_max, out_of_array,
}

stack_index-update_cpu :
    (i : ℕ) (f : Cpu → Cpu) (s : System) → (update_cpu i f s).stack_index ≡ s.stack_index
unfolding update_cpu
stack_index-update_cpu i f s = elim (Option-cases (get_elem? s.cpus i)) [
  | inl e ↦ rw (e, update_cpu) refl
  | inr (c, e) ↦ rw (e, update_cpu) refl
]

-- One stack is used up by a call that makes a task, and none by another.
abbrev pub StackUsed : System → Creation × System → Type 0
StackUsed s (made t, s') = (s.stack_index < max_task_count) × (s'.stack_index ≡ s.stack_index + 1)
StackUsed s (_, s') = s' ≡ s

create_on-StackUsed :
    (s : System) (name : List ℕ) (entry priority stack_size : ℕ) (slot target : Option ℕ)
    → StackUsed s (create_on s name entry priority stack_size slot target)
unfolding create_on place_task
create_on-StackUsed s name entry priority stack_size none target = refl
create_on-StackUsed s name entry priority stack_size (some slot) none =
    elim (Bool-cases (leb max_task_count s.stack_index)) [
      | inl full ↦ simp full refl
      | inr room ↦ simp room refl
    ]
create_on-StackUsed s name entry priority stack_size (some slot) (some target) =
    elim (Bool-cases (leb max_task_count s.stack_index)) [
      | inl full ↦ simp full refl
      | inr room ↦ elim (Option-cases (get_elem? s.cpus target)) [
        | inl e ↦ rw (room, create_on) (rw (e, create_on) refl)
        | inr (c, e) ↦ elim (Bool-cases (out_of_array priority stack_size)) [
          | inl outside ↦ simp (room, e, outside) refl
          | inr inside ↦ simp (room, e, inside) (ground arith, stack_index-update_cpu target _ _)
        ]
      ]
    ]

create_new_task-StackUsed :
    (apic : ℕ) (name : List ℕ) (entry priority stack_size : ℕ) (s : System)
    → StackUsed s (create_new_task apic name entry priority stack_size s)
unfolding create_new_task
create_new_task-StackUsed apic name entry priority stack_size s =
    create_on-StackUsed s name entry priority stack_size (free_slot 0 s.task_pool)
      (or_current (least_loaded 0 u32_max none s.cpus) (per_cpu_current apic 0 s.cpus))

-- A call of the scheduler's interface by some CPU.
pub data Call : Type 0 where
  create : List ℕ → ℕ → ℕ → ℕ → Call
  schedule yield timer block : Call
  unblock terminate : ℕ → Call

-- The tasks that a call makes, and the system after it.
pub count_made : Creation × System → ℕ × System
count_made (made t, s) = (1, s)
count_made (_, s) = (0, s)

pub perform : ℕ → Call → System → ℕ × System
unfolding count_made create_new_task perform_scheduling yield_current_task handle_scheduler_timer
    block_current_task unblock_task terminate_task
perform apic (create name entry priority size) s =
    count_made (create_new_task apic name entry priority size s)
perform apic schedule s = (0, (perform_scheduling apic s).0)
perform apic yield s = (0, (yield_current_task apic s).0)
perform apic timer s = (0, (handle_scheduler_timer apic s).0)
perform apic block s = (0, (block_current_task apic s).0)
perform apic (unblock t) s = (0, unblock_task t s)
perform apic (terminate t) s = (0, (terminate_task apic t s).0)

-- Calls in any order by any CPUs, with the number of tasks made in all.
pub run : List (ℕ × Call) → System → ℕ × System
unfolding perform
run [] s = (0, s)
run ((apic, call) ∷ calls) s =
    let (n, s1) = perform apic call s in let (m, s2) = run calls s1 in (n + m, s2)

-- The stacks used and the tasks made keep step, below MAX_TASK_COUNT.
abbrev Accounted : System → ℕ × System → Type 0
Accounted s (n, s') =
    (s'.stack_index ≡ s.stack_index + n)
    × (s.stack_index ≤ max_task_count → s'.stack_index ≤ max_task_count)

count_made-Accounted :
    (s : System) (r : Creation × System) → StackUsed s r → Accounted s (count_made r)
unfolding count_made
count_made-Accounted s (made t, s') h = omega arith
count_made-Accounted s (null, s') h = ground arith
count_made-Accounted s (faulted, s') h = ground arith

stack_index-terminate_task :
    (apic t : ℕ) (s : System) → (terminate_task apic t s).0.stack_index ≡ s.stack_index
unfolding terminate_task
stack_index-terminate_task apic t s = ground arith

unused-Accounted : (s s' : System) → s'.stack_index ≡ s.stack_index → Accounted s (0, s')
unused-Accounted s s' h = omega arith

perform-Accounted : (apic : ℕ) (call : Call) (s : System) → Accounted s (perform apic call s)
unfolding perform
perform-Accounted apic (create name entry priority size) s =
    count_made-Accounted s _ (create_new_task-StackUsed apic name entry priority size s)
perform-Accounted apic schedule s = ground arith
perform-Accounted apic yield s = ground arith
perform-Accounted apic timer s = ground arith
perform-Accounted apic block s = ground arith
perform-Accounted apic (unblock t) s = ground arith
perform-Accounted apic (terminate t) s =
    unused-Accounted s (terminate_task apic t s).0 (stack_index-terminate_task apic t s)

run-Accounted : (calls : List (ℕ × Call)) (s : System) → Accounted s (run calls s)
unfolding run
run-Accounted [] s = omega arith
run-Accounted ((apic, call) ∷ calls) s =
    let one = perform-Accounted apic call s in
    let rest = run-Accounted calls (perform apic call s).1 in omega arith

-- However many tasks are terminated in between, the calls of the scheduler make no more tasks than
-- there are stacks left: none at all once 256 have been made since the start.
pub run-made-le :
    (calls : List (ℕ × Call)) (s : System)
    → s.stack_index ≤ max_task_count
    → (run calls s).0 + s.stack_index ≤ max_task_count
run-made-le calls s h = let a = run-Accounted calls s in omega (arith, a.0, a.1 h)
