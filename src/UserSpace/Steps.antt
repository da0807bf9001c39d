-- ===== src/UserSpace/Steps.antt =====
-- What the calls of user_space.c can lead to, in any order and number.
use kernix_os.Base.{
  ℕ, ◌+◌, ◌-◌, ◌*◌, ◌^◌, ◌≤◌, ◌<◌, ◌≡◌, sym, subst, ◌⊎◌, inl, inr, true, some, List, arith, ltb,
  leb, ◌==◌, ◌&&◌, Bool-cases,
}
use kernix_os.UserSpace.{
  created, zombie, Proc, UserSpace, proc_size, write_proc, user_space_init, user_space_proc_create,
  user_space_proc_kill, user_space_schedule, user_space_load_program, sys_exit,
}
use kernix_os.UserSpace.Pool.{proc_addr, IsProc, IsPool, create-IsPool}
use kernix_os.UserSpace.Turns.{schedule-IsPool}
use kernix_os.UserSpace.Kill.{kill-ended, ended, ended-IsPool}

-- A call, on a pool of processes; the loop of `user_space_proc_kill` has fuel for every process of the pool.
pub data Call : UserSpace → UserSpace → Type 0 where
  creates :
      (name : List ℕ) (entry_point : ℕ) (u : UserSpace)
      → Call u (user_space_proc_create name entry_point u).1
  kills :
      (fuel pid r : ℕ) (u v : UserSpace)
      → u.pool_used < fuel
      → user_space_proc_kill fuel pid u ≡ some (r, v)
      → Call u v
  schedules : (u : UserSpace) → Call u (user_space_schedule u)
  loads : (proc code_size : ℕ) (u : UserSpace) → Call u (user_space_load_program proc code_size u).1
  exits : (proc : ℕ) (u : UserSpace) → Call u (sys_exit proc u).1

-- The states that calls lead to after `user_space_init` has returned `u`
pub data Reach (u : UserSpace) : UserSpace → Type 0 where
  here : Reach u u
  next : (v w : UserSpace) → Reach u v → Call v w → Reach u w

abbrev pub Pooled : UserSpace → Type 0
Pooled u = (n : ℕ) × IsPool u n

create-Pooled :
    (name : List ℕ) (entry : ℕ) (u : UserSpace)
    → Pooled u
    → Pooled (user_space_proc_create name entry u).1
unfolding user_space_proc_create
create-Pooled name entry u (n, pool) =
    elim (Bool-cases (ltb u.pool_size (u.pool_used + proc_size))) [
      | inl full ↦ (n, subst (λ r. IsPool r.1 n) (sym (refused full)) pool)
      | inr room ↦ (n + 1, (create-IsPool u n pool name entry (ground arith)).1)
    ]
  where
    refused :
        ltb u.pool_size (u.pool_used + proc_size) ≡ true
        → user_space_proc_create name entry u ≡ (0, u)
    refused full = ground (arith, pool.within, pool.size_small)

load-IsProc :
    (procs : ℕ → Proc) (proc q b c k : ℕ)
    → IsProc b c k (procs q)
    → IsProc b c k
        (write_proc proc (record (procs proc) { entry_point = (procs proc).heap_base }) procs q)
unfolding write_proc
load-IsProc procs proc q b c k i = elim (Bool-cases (q == proc)) [
  | inl e ↦
      let same : q ≡ proc = ground arith in
      let i' = subst (λ x. IsProc b c k (procs x)) same i in
      rw e (record {
        pid = i'.pid;
        next = i'.next;
        stack = i'.stack;
        stack_size = i'.stack_size;
        heap = i'.heap;
        heap_size = i'.heap_size;
        state = i'.state;
      })
  | inr e ↦ rw e i
]

load-Pooled :
    (proc code_size : ℕ) (u : UserSpace)
    → Pooled u
    → Pooled (user_space_load_program proc code_size u).1
unfolding user_space_load_program
load-Pooled proc code_size u (n, pool) =
    elim (Bool-cases (ltb (u.proc_at proc).heap_size code_size)) [
      | inl e ↦ rw e (n, pool)
      | inr e ↦ rw e (
        n,
        record {
          pool_used = pool.pool_used;
          within = pool.within;
          pool_pos = pool.pool_pos;
          pool_small = pool.pool_small;
          size_small = pool.size_small;
          base_small = pool.base_small;
          used = pool.used;
          pid_next = pool.pid_next;
          list = pool.list;
          procs = λ k h.
              load-IsProc u.proc_at proc (proc_addr u.pool_base k) u.pool_base u.base k
                (pool.procs k h);
        },
      )
    ]

kill-Pooled :
    (fuel pid r : ℕ) (u v : UserSpace)
    → u.pool_used < fuel
    → user_space_proc_kill fuel pid u ≡ some (r, v)
    → Pooled u
    → Pooled v
kill-Pooled fuel pid r u v h e (n, pool) = elim (Bool-cases (ltb 0 pid && leb pid n)) [
  | inl t ↦
      let k = kill-ended fuel pid n u pool (omega (arith, pool.pool_used)) in
      let same : v ≡ ended (proc_addr u.pool_base (pid - 1)) u = ground arith in
      (
        n,
        subst (λ x. IsPool x n) (sym same) (ended-IsPool (proc_addr u.pool_base (pid - 1)) n pool),
      )
  | inr f ↦
      let k = kill-ended fuel pid n u pool (omega (arith, pool.pool_used)) in
      let same : v ≡ u = ground arith in (n, subst (λ x. IsPool x n) (sym same) pool)
]

pub Call-Pooled : (u v : UserSpace) → Call u v → Pooled u → Pooled v
unfolding sys_exit
Call-Pooled u v (creates name entry u') p = create-Pooled name entry u p
Call-Pooled u v (kills fuel pid r u' v' h e) p = kill-Pooled fuel pid r u v h e p
Call-Pooled u v (schedules u') (n, pool) = (n, schedule-IsPool u n pool)
Call-Pooled u v (loads proc code_size u') p = load-Pooled proc code_size u p
Call-Pooled u v (exits proc u') (n, pool) = (n, ended-IsPool proc n pool)

Reach-Pooled : (u v : UserSpace) → Reach u v → Pooled u → Pooled v
Reach-Pooled u v here p = p
Reach-Pooled u v (next w x r c) p = Call-Pooled w v c (Reach-Pooled u w r p)

init-IsPool :
    (start meta header km gm : ℕ) (w u : UserSpace)
    → 0 < start
    → header ≤ meta
    → start + meta < 2 ^ 64
    → meta < 2 ^ 32
    → user_space_init start meta header km gm w ≡ some u
    → IsPool u 0
unfolding user_space_init
init-IsPool start meta header km gm w u pos le small short e = record {
  pool_used = ground arith;
  within = ground arith;
  pool_pos = ground arith;
  pool_small = ground arith;
  size_small = ground arith;
  base_small = ground arith;
  used = ground arith;
  pid_next = ground arith;
  list = ground arith;
  procs = λ k h. absurd (omega arith);
}

abbrev pub proc : UserSpace → ℕ → Proc
proc u k = u.proc_at (proc_addr u.pool_base k)

-- The processes whose records fill the used part of the pool have regions of their own, and none is ready
-- or running.
pub record Isolated (u : UserSpace) : Type 0 where
  pub count : ℕ
  pub made : u.pool_used ≡ count * proc_size
  pub fits : u.pool_used ≤ u.pool_size
  pub numbered : (k : ℕ) → k < count → (proc u k).pid ≡ k + 1
  pub own_region :
      (k : ℕ) → k < count → (proc u k).stack_base + (proc u k).stack_size ≡ (proc u k).heap_base
  pub apart :
      (i j : ℕ)
      → i < j
      → j < count
      → (proc u i).heap_base + (proc u i).heap_size ≤ (proc u j).stack_base
  pub never_runs : (k : ℕ) → k < count → ((proc u k).state ≡ created) ⊎ ((proc u k).state ≡ zombie)

-- After `user_space_init` on an area of less than 2 ^ 32 bytes, from address 1 on and below 2 ^ 64,
-- with room for the header, calls in any order and number lead only to states where the used part of
-- the pool is whole records, as many as there are processes, these are numbered from 1 in the order in
-- which they were made, the heap of each follows its stack, the regions of two processes do not meet,
-- the records fit in the pool, and each process is CREATED or a ZOMBIE: none is ever READY or RUNNING.
pub Reach-Isolated :
    (start meta header km gm : ℕ) (w u v : UserSpace)
    → 0 < start
    → header ≤ meta
    → start + meta < 2 ^ 64
    → meta < 2 ^ 32
    → user_space_init start meta header km gm w ≡ some u
    → Reach u v
    → Isolated v
Reach-Isolated start meta header km gm w u v pos le small short e r =
    let (n, pool) =
      Reach-Pooled u v r (0, init-IsPool start meta header km gm w u pos le small short e) in
    record {
      count = n;
      made = pool.pool_used;
      fits = pool.within;
      numbered = λ k h. (pool.procs k h).pid;
      own_region = λ k h.
          omega (arith, (pool.procs k h).stack, (pool.procs k h).stack_size, (pool.procs k h).heap);
      apart = λ i j h h'. omega (
        arith,
        (pool.procs i (omega arith)).heap,
        (pool.procs i (omega arith)).heap_size,
        (pool.procs j h').stack,
      );
      never_runs = λ k h. (pool.procs k h).state;
    }
