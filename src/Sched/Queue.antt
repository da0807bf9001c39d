-- ===== src/Sched/Queue.antt =====
-- `task_queue_t` of core/kernel/processes/scheduler.h and its operations: the ready queue of one
-- priority, a ring of MAX_TASK_COUNT task pointers.
pub mod Fifo
use kernix_os.Base.{
  ℕ, zero, suc, ◌+◌, ◌-◌, ◌%◌, Option, none, some, List, [], ◌∷◌, leb, ltb, ◌==◌, if◌then◌else◌,
  set, get_or, replicate,
}

abbrev pub max_task_count : ℕ
max_task_count = 256

abbrev pub max_priority_levels : ℕ
max_priority_levels = 32

pub record TaskQueue : Type 0 where
  pub task_list : List (Option ℕ)
  pub item_count : ℕ
  pub start_index : ℕ
  pub end_index : ℕ

unfoldable pub initialize_task_queue : TaskQueue
initialize_task_queue = record {
  task_list = replicate max_task_count none;
  item_count = 0;
  start_index = 0;
  end_index = 0;
}

-- A full queue drops the task without a word.
pub task_queue_push : TaskQueue → ℕ → TaskQueue
task_queue_push queue task = if leb max_task_count queue.item_count then queue else record queue {
  task_list = set queue.task_list queue.end_index (some task);
  end_index = (queue.end_index + 1) % max_task_count;
  item_count = queue.item_count + 1;
}

pub task_queue_pop : TaskQueue → Option ℕ × TaskQueue
task_queue_pop queue = if queue.item_count == 0 then (none, queue) else (
  get_or queue.task_list queue.start_index none,
  record queue {
    task_list = set queue.task_list queue.start_index none;
    start_index = (queue.start_index + 1) % max_task_count;
    item_count = queue.item_count - 1;
  },
)

-- The first non-empty queue gives its oldest task: level 0 comes before level 1, and so on.
pub task_queue_pop_priority : List TaskQueue → Option ℕ × List TaskQueue
unfolding task_queue_pop
task_queue_pop_priority [] = (none, [])
task_queue_pop_priority (q ∷ qs) =
    let (task, q') = task_queue_pop q in
    let (task', qs') = task_queue_pop_priority qs in
    if ltb 0 q.item_count then (task, q' ∷ qs) else (task', q ∷ qs')
