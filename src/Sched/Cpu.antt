-- ===== src/Sched/Cpu.antt =====
-- The per-CPU records of core/kernel/cpu/per_cpu.c, and the scheduler's whole state: those records,
-- `task_pool` and the counters of core/kernel/processes/scheduler.c. The fields that no code of the
-- scheduler reads (the times, the interrupt nesting) are left out.
use kernix_os.Base.{
  ℕ, ◌+◌, Bool, Option, none, some, List, [], ◌∷◌, ◌==◌, if◌then◌else◌, get_elem?, set, replicate,
}
use kernix_os.Sched.{Task}
use kernix_os.Sched.Queue.{TaskQueue, initialize_task_queue, max_priority_levels}

-- `per_cpu_data_t`
pub record Cpu : Type 0 where
  pub cpu_id : ℕ
  pub apic_id : ℕ
  pub is_online : Bool
  pub current_task : Option ℕ
  pub idle_task : Option ℕ
  pub ready_queues : List TaskQueue
  pub task_count : ℕ

pub record System : Type 0 where
  pub task_pool : List Task
  pub next_task_id : ℕ
  pub stack_index : ℕ
  pub task_stacks : List (List ℕ)
  pub cpus : List Cpu

-- An entry of `cpu_list`, as `per_cpu_init` reads it.
pub record CpuInfo : Type 0 where
  pub apic_id : ℕ
  pub online : Bool

-- The loop of `per_cpu_init` from CPU `i` on.
pub per_cpu_init : ℕ → List CpuInfo → List Cpu
unfolding initialize_task_queue
per_cpu_init i [] = []
per_cpu_init i (c ∷ cs) =
    record {
      cpu_id = i;
      apic_id = c.apic_id;
      is_online = c.online;
      current_task = none;
      idle_task = none;
      ready_queues = replicate max_priority_levels initialize_task_queue;
      task_count = 0;
    }
    ∷ per_cpu_init (i + 1) cs

-- The loop of `per_cpu_current`: the index of the first record with the APIC id of the calling CPU.
unfoldable pub per_cpu_current : ℕ → ℕ → List Cpu → Option ℕ
per_cpu_current apic i [] = none
per_cpu_current apic i (c ∷ cs) =
    if c.apic_id == apic then some i else per_cpu_current apic (i + 1) cs

pub per_cpu_get : ℕ → System → Option Cpu
per_cpu_get cpu_id s = get_elem? s.cpus cpu_id

pub per_cpu_set_online : ℕ → Bool → System → System
per_cpu_set_online cpu_id online s = elim (get_elem? s.cpus cpu_id) [
  | none ↦ s
  | some c ↦ record s { cpus = set s.cpus cpu_id (record c { is_online = online }) }
]
