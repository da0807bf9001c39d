-- ===== src/Sched/Tests.antt =====
-- One CPU whose idle task 0 runs, and the task 1 that waits at level 0.
use kernix_os.Base.{ℕ, zero, suc, ◌+◌, ◌≤◌, ◌≡◌, refl, true, some, List, [], ◌∷◌, replicate, arith}
use kernix_os.Sched.{Task, ready, running, terminated}
use kernix_os.Sched.Queue.{
  TaskQueue, initialize_task_queue, task_queue_push, task_queue_pop_priority,
}
use kernix_os.Sched.Queue.Fifo.{
  Queued, initialize_task_queue-Queued, task_queue_push-Queued, AllQueued, pop_lowest,
  task_queue_pop_priority_lem,
}
use kernix_os.Sched.Cpu.{Cpu, System, per_cpu_current}
use kernix_os.Sched.Switch.{perform_scheduling, terminate_task}
use kernix_os.Sched.Switch.Effect.{Switched, perform_scheduling-Switched}
use kernix_os.Sched.Switch.Revive.{status_of, terminate_task-revived}
use kernix_os.Sched.Create.{free_slot}
use kernix_os.Sched.Create.Stacks.{yield, run, run-made-le}

abbrev idle : Task
idle = record {
  identifier = 1;
  status = running;
  priority_level = 0;
  stack_pointer = 500;
  stack_start = 0;
  stack_capacity = 4096;
  start_function = 77;
  task_name = [];
  remaining_ticks = 3;
  assigned_cpu = 0;
}

abbrev waiting : Task
waiting = record idle { identifier = 2; status = ready }

abbrev one_waits : TaskQueue
one_waits = task_queue_push initialize_task_queue 1

abbrev queues : List TaskQueue
queues = one_waits ∷ replicate 31 initialize_task_queue

abbrev waits : List (List ℕ)
waits = (1 ∷ []) ∷ replicate 31 []

abbrev cpu : Cpu
cpu = record {
  cpu_id = 0;
  apic_id = 4;
  is_online = true;
  current_task = some 0;
  idle_task = some 0;
  ready_queues = queues;
  task_count = 2;
}

abbrev system : System
system = record {
  task_pool = idle ∷ waiting ∷ [];
  next_task_id = 3;
  stack_index = 2;
  task_stacks = [];
  cpus = cpu ∷ [];
}

one_waits-Queued : Queued one_waits (1 ∷ [])
one_waits-Queued = task_queue_push-Queued [] 1 initialize_task_queue-Queued

replicate-AllQueued : (n : ℕ) → AllQueued (replicate n initialize_task_queue) (replicate n [])
replicate-AllQueued zero = tt
replicate-AllQueued (suc n) = (initialize_task_queue-Queued, replicate-AllQueued n)

queues-AllQueued : AllQueued queues waits
queues-AllQueued = (one_waits-Queued, replicate-AllQueued 31)

here : per_cpu_current 4 0 system.cpus ≡ some 0
unfolding per_cpu_current
here = refl

lowest : (pop_lowest waits).0 ≡ some 1
unfolding pop_lowest
lowest = refl

task_queue_pop_priority_lem_example :
    ((task_queue_pop_priority queues).0 ≡ (pop_lowest waits).0)
    × AllQueued (task_queue_pop_priority queues).1 (pop_lowest waits).1
task_queue_pop_priority_lem_example = task_queue_pop_priority_lem queues waits queues-AllQueued

perform_scheduling-Switched_example :
    Switched 0 (some 0) 1 waiting (some 0) (pop_lowest waits).1 system (perform_scheduling 4 system)
unfolding pop_lowest
perform_scheduling-Switched_example =
    perform_scheduling-Switched 4 0 system cpu waits 1 waiting here refl queues-AllQueued refl refl
      refl

terminate_task-revived_example :
    let killed = (terminate_task 4 1 system).0 in
    (status_of 1 killed ≡ some terminated)
    × (status_of 1 (perform_scheduling 4 killed).0 ≡ some running)
terminate_task-revived_example =
    terminate_task-revived 4 0 1 system cpu waits waiting here refl queues-AllQueued lowest refl
      refl

abbrev dead : Task
dead = record idle { status = terminated }

slot_found : free_slot 0 (idle ∷ dead ∷ []) ≡ some 1
unfolding free_slot
slot_found = refl

run-made-le_example : (run ((4, yield) ∷ []) system).0 + 2 ≤ 256
run-made-le_example = run-made-le ((4, yield) ∷ []) system (omega arith)
