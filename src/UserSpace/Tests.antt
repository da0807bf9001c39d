-- ===== src/UserSpace/Tests.antt =====
-- Two processes in a small pool: made, run through, and killed.
use kernix_os.Base.{◌≡◌, refl, [], ◌∷◌, some, arith}
use kernix_os.UserSpace.{
  Proc, created, UserSpace, user_space_init, user_space_proc_create, user_space_proc_kill,
}
use kernix_os.UserSpace.Pool.{IsPool, create-IsPool, proc_addr}
use kernix_os.UserSpace.Turns.{Reached, schedule-Reached}
use kernix_os.UserSpace.Kill.{ended, kill-ended}
use kernix_os.UserSpace.Steps.{here, next, creates, Isolated, Reach-Isolated}

abbrev blank : Proc
blank = record {
  pid = 0;
  name = [];
  state = created;
  entry_point = 0;
  heap_base = 0;
  heap_size = 0;
  stack_base = 0;
  stack_size = 0;
  phys_heap = 0;
  phys_stack = 0;
  user_space = 0;
  next = 0;
  prev = 0;
}

abbrev initial : UserSpace
initial = record {
  ptr_proc_list = 0;
  ptr_proc_curr = 0;
  pid_next = 1;
  tid_next = 1;
  pool_base = 5000;
  pool_size = 1000;
  pool_used = 0;
  base = 0x40000000;
  size = 0xFFFFFFFF;
  used = 0x40000000;
  proc_at = λ p. blank;
}

initial-IsPool : IsPool initial 0
initial-IsPool = record {
  pool_used = refl;
  within = omega arith;
  pool_pos = omega arith;
  pool_small = omega arith;
  size_small = omega arith;
  base_small = omega arith;
  used = refl;
  pid_next = refl;
  list = refl;
  procs = λ k h. absurd (omega arith);
}

abbrev one : UserSpace
one = (user_space_proc_create (97 ∷ []) 0 initial).1

one-IsPool : IsPool one 1
one-IsPool = (create-IsPool initial 0 initial-IsPool (97 ∷ []) 0 (omega arith)).1

kill-ended_example : user_space_proc_kill 2 1 one ≡ some (0, ended (proc_addr one.pool_base 0) one)
kill-ended_example = kill-ended 2 1 1 one one-IsPool (omega arith)

schedule-Reached_example : Reached one 1 0
unfolding user_space_proc_create
schedule-Reached_example =
    schedule-Reached one 1 0 0 (record { pool = one-IsPool; curr = refl; made = omega arith })
      (omega arith)

initialised : user_space_init 4000 2000 1000 7 8 initial ≡ some initial
unfolding user_space_init
initialised = refl

Reach-Isolated_example : Isolated one
Reach-Isolated_example =
    Reach-Isolated 4000 2000 1000 7 8 initial initial one (omega arith) (omega arith) (omega arith)
      (omega arith) initialised (next initial one here (creates (97 ∷ []) 0 initial))
