-- ===== src/Sched/Switch/Update.antt =====
-- What a write through a task pointer or to a per-CPU record changes, and what it leaves.
use kernix_os.Base.{
  ℕ, ◌≡◌, refl, ◌≢◌, some, get_elem?, get_elem?-set_self, get_elem?-set_ne, lt_of_get_elem?,
  Option-cases, inl, inr,
}
use kernix_os.Sched.{Task}
use kernix_os.Sched.Cpu.{Cpu, System}
use kernix_os.Sched.Switch.{update_task, update_cpu}

module _ (i : ℕ) (f : Cpu → Cpu) (s : System) where
  pub cpu-update_cpu :
      (c : Cpu) → get_elem? s.cpus i ≡ some c → get_elem? (update_cpu i f s).cpus i ≡ some (f c)
  unfolding update_cpu
  cpu-update_cpu c h =
      rw (h, update_cpu) (get_elem?-set_self s.cpus i (f c) (lt_of_get_elem? s.cpus i c h))

  pub cpu-update_cpu_ne : (j : ℕ) → i ≢ j → get_elem? (update_cpu i f s).cpus j ≡ get_elem? s.cpus j
  unfolding update_cpu
  cpu-update_cpu_ne j ne = elim (Option-cases (get_elem? s.cpus i)) [
    | inl e ↦ rw (e, update_cpu) refl
    | inr (c, e) ↦ rw (e, update_cpu) (get_elem?-set_ne s.cpus (f c) ne)
  ]

  pub pool-update_cpu : (update_cpu i f s).task_pool ≡ s.task_pool
  unfolding update_cpu
  pool-update_cpu = elim (Option-cases (get_elem? s.cpus i)) [
    | inl e ↦ rw (e, update_cpu) refl
    | inr (c, e) ↦ rw (e, update_cpu) refl
  ]

module _ (t : ℕ) (f : Task → Task) (s : System) where
  pub task-update_task :
      (task : Task)
      → get_elem? s.task_pool t ≡ some task
      → get_elem? (update_task t f s).task_pool t ≡ some (f task)
  unfolding update_task
  task-update_task task h =
      rw (h, update_task)
        (get_elem?-set_self s.task_pool t (f task) (lt_of_get_elem? s.task_pool t task h))

  pub task-update_task_ne :
      (u : ℕ) → t ≢ u → get_elem? (update_task t f s).task_pool u ≡ get_elem? s.task_pool u
  unfolding update_task
  task-update_task_ne u ne = elim (Option-cases (get_elem? s.task_pool t)) [
    | inl e ↦ rw (e, update_task) refl
    | inr (task, e) ↦ rw (e, update_task) (get_elem?-set_ne s.task_pool (f task) ne)
  ]

  pub cpus-update_task : (update_task t f s).cpus ≡ s.cpus
  unfolding update_task
  cpus-update_task = elim (Option-cases (get_elem? s.task_pool t)) [
    | inl e ↦ rw (e, update_task) refl
    | inr (task, e) ↦ rw (e, update_task) refl
  ]
