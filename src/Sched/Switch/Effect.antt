-- ===== src/Sched/Switch/Effect.antt =====
-- What one call of `perform_scheduling` does when it changes tasks.
use kernix_os.Base.{
  ℕ, ◌≡◌, refl, ◌≢◌, ◌∙◌, ap, sym, subst, false, Option, none, some, List, get_elem?, arith,
  if◌then◌else◌,
}
use kernix_os.Sched.{Task, running}
use kernix_os.Sched.Queue.{task_queue_pop_priority}
use kernix_os.Sched.Queue.Fifo.{AllQueued, pop_lowest, task_queue_pop_priority_lem}
use kernix_os.Sched.Cpu.{Cpu, System, per_cpu_current}
use kernix_os.Sched.Switch.{
  Ending, switches, idles, time_slice_ticks, set_status, set_ticks, update_cpu, same_task,
  requeue_old, switch_in, or_idle, run_next, schedule_on, perform_scheduling,
}
use kernix_os.Sched.Switch.Update.{
  cpu-update_cpu, cpu-update_cpu_ne, pool-update_cpu, task-update_task, task-update_task_ne,
  cpus-update_task,
}
use kernix_os.Sched.Switch.Dispatch.{requeued, preempt, Requeued, requeue_old-Requeued}

-- A change from the task `old` to the task `next`, which had the record `task`. `tss` are the lists
-- of the ready queues after the pick.
pub record Switched (me : ℕ) (old : Option ℕ) (next : ℕ) (task : Task) (idle : Option ℕ)
    (tss : List (List ℕ)) (s : System) (r : System × Ending) : Type 0 where
  pub cpu : Cpu
  pub at_me : get_elem? r.0.cpus me ≡ some cpu
  pub now_current : cpu.current_task ≡ some next
  pub queues : AllQueued cpu.ready_queues (requeued old s.task_pool tss)
  pub next_runs :
      get_elem? r.0.task_pool next ≡ some (set_ticks time_slice_ticks (set_status running task))
  pub old_preempted :
      (o : ℕ) (t : Task)
      → old ≡ some o
      → get_elem? s.task_pool o ≡ some t
      → get_elem? r.0.task_pool o ≡ some (preempt t)
  pub tasks_elsewhere :
      (u : ℕ) → old ≢ some u → u ≢ next → get_elem? r.0.task_pool u ≡ get_elem? s.task_pool u
  pub cpus_elsewhere : (j : ℕ) → me ≢ j → get_elem? r.0.cpus j ≡ get_elem? s.cpus j
  pub ends : r.1 ≡ (if same_task (some next) idle then idles else switches old next)

ne_of_same_task : (old : Option ℕ) (next : ℕ) → same_task (some next) old ≡ false → old ≢ some next
ne_of_same_task none next h e = cc
ne_of_same_task (some o) next h e = ground arith

module _ (me next : ℕ) (pcpu : Cpu) (task : Task) (tss : List (List ℕ)) (s : System)
    (other : same_task (some next) pcpu.current_task ≡ false)
    (there : get_elem? s.task_pool next ≡ some task) where
  switch_in-Switched :
      {s' : System}
      → Requeued me pcpu.current_task tss s s'
      → Switched me pcpu.current_task next task pcpu.idle_task tss s (switch_in me pcpu next s')
  unfolding switch_in
  switch_in-Switched {s'} r =
      let f : Cpu → Cpu = λ c. record c { current_task = some next } in
      let g : Task → Task = λ t. set_ticks time_slice_ticks (set_status running t) in
      let s1 = update_cpu me f s' in
      let pool1 = pool-update_cpu me f s' in
      let cpus2 = cpus-update_task next g s1 in
      let apart = ne_of_same_task pcpu.current_task next other in
      record {
        cpu = f r.cpu;
        at_me = ap (λ cs. get_elem? cs me) cpus2 ∙ cpu-update_cpu me f s' r.cpu r.at_me;
        now_current = refl;
        queues = r.queues;
        next_runs =
            task-update_task next g s1 task
              (ap (λ ts. get_elem? ts next) pool1 ∙ r.tasks_elsewhere next apart ∙ there);
        old_preempted = λ o t e h.
            task-update_task_ne next g s1 o (λ same. apart (e ∙ ap some (sym same)))
            ∙ ap (λ ts. get_elem? ts o) pool1
            ∙ r.old_task o t e h;
        tasks_elsewhere = λ u nold nnext.
            task-update_task_ne next g s1 u (λ same. nnext (sym same))
            ∙ ap (λ ts. get_elem? ts u) pool1
            ∙ r.tasks_elsewhere u nold;
        cpus_elsewhere = λ j ne.
            ap (λ cs. get_elem? cs j) cpus2
            ∙ cpu-update_cpu_ne me f s' j ne
            ∙ r.cpus_elsewhere j ne;
        ends = refl;
      }

-- The call, reduced to the choice that it makes.
perform_scheduling-run_next :
    (apic me : ℕ) (s : System) (c : Cpu)
    → per_cpu_current apic 0 s.cpus ≡ some me
    → get_elem? s.cpus me ≡ some c
    → perform_scheduling apic s
      ≡ run_next me c (or_idle (task_queue_pop_priority c.ready_queues).0 c.idle_task) (
          update_cpu me
            (λ d. record d { ready_queues = (task_queue_pop_priority c.ready_queues).1 })
            s)
unfolding perform_scheduling schedule_on
perform_scheduling-run_next apic me s c found at =
    rw (found, perform_scheduling) (rw (at, perform_scheduling) refl)

-- The pick itself changes neither the task pool nor another CPU.
rebase :
    {me : ℕ} {old : Option ℕ} {tss : List (List ℕ)} {s s0 s' : System}
    → Requeued me old tss s0 s'
    → s0.task_pool ≡ s.task_pool
    → ((j : ℕ) → me ≢ j → get_elem? s0.cpus j ≡ get_elem? s.cpus j)
    → Requeued me old tss s s'
rebase {old} {tss} r pool cpus = record {
  cpu = r.cpu;
  at_me = r.at_me;
  queues = subst (λ ts. AllQueued r.cpu.ready_queues (requeued old ts tss)) pool r.queues;
  cpus_elsewhere = λ j ne. r.cpus_elsewhere j ne ∙ cpus j ne;
  old_task = λ o t e h. r.old_task o t e (ap (λ ts. get_elem? ts o) pool ∙ h);
  tasks_elsewhere = λ u ne. r.tasks_elsewhere u ne ∙ ap (λ ts. get_elem? ts u) pool;
}

run_next-some :
    (me next : ℕ) (c : Cpu) (s : System)
    → same_task (some next) c.current_task ≡ false
    → run_next me c (some next) s ≡ switch_in me c next (requeue_old me c.current_task s)
unfolding run_next
run_next-some me next c s other = simp other refl

-- On the CPU `me`, whose ready queues hold the tasks `tss`, let `next` be the longest waiting task of
-- the lowest non-empty level, or the idle task if no level has one, and let it not be the current
-- task. Then `next` becomes the current task, is RUNNING and has a whole time slice; the task that
-- ran is READY and at the end of its own level if it was RUNNING and the level has room; no other
-- task and no other CPU changes; and the call ends in the idle loop exactly if `next` is the idle task.
pub perform_scheduling-Switched :
    (apic me : ℕ) (s : System) (c : Cpu) (tss : List (List ℕ)) (next : ℕ) (task : Task)
    → per_cpu_current apic 0 s.cpus ≡ some me
    → get_elem? s.cpus me ≡ some c
    → AllQueued c.ready_queues tss
    → or_idle (pop_lowest tss).0 c.idle_task ≡ some next
    → same_task (some next) c.current_task ≡ false
    → get_elem? s.task_pool next ≡ some task
    → Switched me c.current_task next task c.idle_task
        (pop_lowest tss).1
        s
        (perform_scheduling apic s)
perform_scheduling-Switched apic me s c tss next task found at queued choice other there =
    let popped = task_queue_pop_priority_lem c.ready_queues tss queued in
    let f : Cpu → Cpu =
      λ d. record d { ready_queues = (task_queue_pop_priority c.ready_queues).1 } in
    let s0 = update_cpu me f s in
    let picked : or_idle (task_queue_pop_priority c.ready_queues).0 c.idle_task ≡ some next =
      ap (λ t. or_idle t c.idle_task) popped.0 ∙ choice in
    let r =
      rebase
        (requeue_old-Requeued me (pop_lowest tss).1 s0 (f c) (cpu-update_cpu me f s c at) popped.1
          c.current_task)
        (pool-update_cpu me f s) (cpu-update_cpu_ne me f s) in
    subst (Switched me c.current_task next task c.idle_task (pop_lowest tss).1 s)
      (sym (
        perform_scheduling-run_next apic me s c found at
        ∙ ap (λ t. run_next me c t s0) picked
        ∙ run_next-some me next c s0 other))
      (switch_in-Switched me next c task (pop_lowest tss).1 s other there r)
