-- ===== src/Sched/Switch/Revive.antt =====
-- A task that is terminated while it waits in a ready queue is run again: `terminate_task` leaves it
-- in the queue, and `perform_scheduling` does not look at the status of the task that it picks.
use kernix_os.Base.{
  ℕ, zero, suc, ◌+◌, ◌≡◌, refl, some, none, List, [], ◌∷◌, Option, get_elem?, set, ◌∙◌, ap, sym,
  subst, false, ◌==◌, inl, inr, Bool-cases, Option-cases, arith,
}
use kernix_os.Sched.{Task, Status, running, terminated}
use kernix_os.Sched.Queue.Fifo.{AllQueued, pop_lowest}
use kernix_os.Sched.Cpu.{Cpu, System, per_cpu_current}
use kernix_os.Sched.Switch.{
  stays, same_task, or_idle, set_status, update_task, update_cpu, count_down, current,
  terminate_task, perform_scheduling,
}
use kernix_os.Sched.Switch.Update.{
  task-update_task, cpus-update_task, cpu-update_cpu, cpu-update_cpu_ne, pool-update_cpu,
}
use kernix_os.Sched.Switch.Effect.{perform_scheduling-Switched}

per_cpu_current-set :
    (apic k i : ℕ) (cs : List Cpu) (c d : Cpu)
    → get_elem? cs i ≡ some c
    → d.apic_id ≡ c.apic_id
    → per_cpu_current apic k (set cs i d) ≡ per_cpu_current apic k cs
unfolding per_cpu_current
per_cpu_current-set apic k i [] c d h e = refl
per_cpu_current-set apic k zero (b ∷ cs) c d h e = ground arith
per_cpu_current-set apic k (suc i) (b ∷ cs) c d h e =
    ground (arith, per_cpu_current-set apic (k + 1) i cs c d)

per_cpu_current-update_cpu :
    (apic i : ℕ) (f : Cpu → Cpu) (s : System)
    → ((c : Cpu) → (f c).apic_id ≡ c.apic_id)
    → per_cpu_current apic 0 (update_cpu i f s).cpus ≡ per_cpu_current apic 0 s.cpus
unfolding update_cpu
per_cpu_current-update_cpu apic i f s keeps = elim (Option-cases (get_elem? s.cpus i)) [
  | inl e ↦ rw (e, update_cpu) refl
  | inr (c, e) ↦ rw (e, update_cpu) (per_cpu_current-set apic 0 i s.cpus c (f c) e (keeps c))
]

-- Another record of the same CPU, which may count another number of tasks.
record SameCpu (c d : Cpu) : Type 0 where
  current_same : d.current_task ≡ c.current_task
  idle_same : d.idle_task ≡ c.idle_task
  queues_same : d.ready_queues ≡ c.ready_queues

-- `terminate_task` of a task that waits: the status and the count change, and nothing else.
module _ (apic me t : ℕ) (s : System) (c : Cpu) (task : Task)
    (found : per_cpu_current apic 0 s.cpus ≡ some me) (at : get_elem? s.cpus me ≡ some c)
    (other : same_task (some t) c.current_task ≡ false)
    (there : get_elem? s.task_pool t ≡ some task) where
  abbrev dead : System
  dead = update_cpu task.assigned_cpu count_down (update_task t (set_status terminated) s)

  cpus_before : get_elem? (update_task t (set_status terminated) s).cpus me ≡ some c
  cpus_before = ap (λ cs. get_elem? cs me) (cpus-update_task t (set_status terminated) s) ∙ at

  at_dead : (d : Cpu) × (get_elem? dead.cpus me ≡ some d) × SameCpu c d
  at_dead =
      let s1 = update_task t (set_status terminated) s in
      let own_cpu = task.assigned_cpu in
      elim (Bool-cases (own_cpu == me)) [
        | inl own ↦
            let e : own_cpu ≡ me = ground arith in
            (
              count_down c,
              ap (get_elem? dead.cpus) (sym e)
                  ∙ cpu-update_cpu own_cpu count_down s1 c (ap (get_elem? s1.cpus) e ∙ cpus_before),
              record { current_same = refl; idle_same = refl; queues_same = refl },
            )
        | inr foreign ↦ (
          c,
          cpu-update_cpu_ne own_cpu count_down s1 me (ground arith) ∙ cpus_before,
          record { current_same = refl; idle_same = refl; queues_same = refl },
        )
      ]

  found_dead : per_cpu_current apic 0 dead.cpus ≡ some me
  found_dead =
      per_cpu_current-update_cpu apic task.assigned_cpu count_down
        (update_task t (set_status terminated) s) (λ d. refl)
      ∙ ap (per_cpu_current apic 0) (cpus-update_task t (set_status terminated) s)
      ∙ found

  task_dead : get_elem? dead.task_pool t ≡ some (set_status terminated task)
  task_dead =
      ap (λ ts. get_elem? ts t)
        (pool-update_cpu task.assigned_cpu count_down (update_task t (set_status terminated) s))
      ∙ task-update_task t (set_status terminated) s task there

  current-dead :
      (d : Cpu) (o : Option ℕ)
      → get_elem? dead.cpus me ≡ some d
      → d.current_task ≡ o
      → current apic dead ≡ elim o [ none ↦ none | some now ↦ some (me, now) ]
  unfolding current
  current-dead d o at_d e = rw (found_dead, current) (rw (at_d, current) (rw (e, current) refl))

  not_current : (now : ℕ) → c.current_task ≡ some now → (t == now) ≡ false
  not_current now e = sym (ap (same_task (some t)) e) ∙ other

  terminate_task-waiting :
      (d : Cpu) (o : Option ℕ)
      → get_elem? dead.cpus me ≡ some d
      → SameCpu c d
      → c.current_task ≡ o
      → terminate_task apic t s ≡ (dead, stays)
  unfolding terminate_task
  terminate_task-waiting d none at_d same e =
      rw (there, terminate_task)
        (rw (current-dead d none at_d (same.current_same ∙ e), terminate_task) refl)
  terminate_task-waiting d (some now) at_d same e =
      rw (there, terminate_task)
        (rw (current-dead d (some now) at_d (same.current_same ∙ e), terminate_task)
          (rw (not_current now e) refl))

abbrev pub status_of : ℕ → System → Option Status
status_of t s = elim (get_elem? s.task_pool t) [ none ↦ none | some task ↦ some task.status ]

-- Let `t` be the task that the CPU `me` would pick next, and not its current task. After
-- `terminate_task` its status is TERMINATED, and after the next `perform_scheduling` it is RUNNING.
pub terminate_task-revived :
    (apic me t : ℕ) (s : System) (c : Cpu) (tss : List (List ℕ)) (task : Task)
    → per_cpu_current apic 0 s.cpus ≡ some me
    → get_elem? s.cpus me ≡ some c
    → AllQueued c.ready_queues tss
    → (pop_lowest tss).0 ≡ some t
    → same_task (some t) c.current_task ≡ false
    → get_elem? s.task_pool t ≡ some task
    → let killed = (terminate_task apic t s).0 in
      (status_of t killed ≡ some terminated)
      × (status_of t (perform_scheduling apic killed).0 ≡ some running)
terminate_task-revived apic me t s c tss task found at queued choice other there =
    let (d, at_d, same) = at_dead apic me t s c task found at other there in
    let after =
      terminate_task-waiting apic me t s c task found at other there d c.current_task at_d same
        refl in
    let x = dead apic me t s c task found at other there in
    let r =
      perform_scheduling-Switched apic me x d tss t (set_status terminated task)
        (found_dead apic me t s c task found at other there) at_d
        (subst (λ qs. AllQueued qs tss) (sym same.queues_same) queued)
        (ap (λ o. or_idle o d.idle_task) choice) (ap (same_task (some t)) same.current_same ∙ other)
        (task_dead apic me t s c task found at other there) in
    rw after (
      rw (task_dead apic me t s c task found at other there, status_of) refl,
      rw (r.next_runs, status_of) refl,
    )
