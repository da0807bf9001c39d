-- ===== src/Sched.antt =====
-- The scheduler of core/kernel/processes/scheduler.c over the per-CPU records of
-- core/kernel/cpu/per_cpu.c. A task is named by its index in `task_pool`, and NULL is `none`. One
-- call runs from its first statement to its last with no other CPU in between, so the spin lock
-- that guards a ready queue is free again at the end of each critical section, and is left out here.
pub mod Queue
pub mod Cpu
pub mod Switch
pub mod Create
mod Tests
use kernix_os.Base.{ℕ, List}

-- `task_status_t`
pub data Status : Type 0 where
  ready running blocked terminated : Status

pub record Task : Type 0 where
  pub identifier : ℕ
  pub status : Status
  pub priority_level : ℕ
  pub stack_pointer : ℕ
  pub stack_start : ℕ
  pub stack_capacity : ℕ
  pub start_function : ℕ
  pub task_name : List ℕ
  pub remaining_ticks : ℕ
  pub assigned_cpu : ℕ
