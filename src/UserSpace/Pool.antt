-- ===== src/UserSpace/Pool.antt =====
-- The processes stand in the pool one behind the other, each linked to the one made before it, and with a
-- region of its own.
use kernix_os.Base.{
  ℕ, zero, suc, ◌+◌, ◌*◌, ◌^◌, ◌≤◌, ◌<◌, ◌≡◌, refl, ap, sym, subst, ◌∙◌, ◌⊎◌, inl, inr, true, false,
  List, arith, ◌==◌, Bool-cases,
}
use kernix_os.UserSpace.{
  created, zombie, Proc, UserSpace, proc_size, write_proc, new_proc, link_back,
  user_space_proc_create,
}

abbrev pub region_size : ℕ
region_size = 16 * 1024 + 64 * 1024

abbrev pub proc_addr : (pool_base k : ℕ) → ℕ
proc_addr pool_base k = pool_base + k * proc_size

-- The process made before the `k`-th, 0 for the first
abbrev pub before : (pool_base k : ℕ) → ℕ
before pool_base zero = 0
before pool_base (suc k) = proc_addr pool_base k

-- The `k`-th process that was made
pub record IsProc (pool_base base k : ℕ) (p : Proc) : Type 0 where
  pub pid : p.pid ≡ k + 1
  pub next : p.next ≡ before pool_base k
  pub stack : p.stack_base ≡ base + k * region_size
  pub stack_size : p.stack_size ≡ 16 * 1024
  pub heap : p.heap_base ≡ base + k * region_size + 16 * 1024
  pub heap_size : p.heap_size ≡ 64 * 1024
  pub state : (p.state ≡ created) ⊎ (p.state ≡ zombie)

pub before_next : (b n : ℕ) → before b (n + 1) ≡ proc_addr b n
before_next b n = let e : n + 1 ≡ suc n = omega arith in ap (before b) e

-- A pool with `n` processes
pub record IsPool (u : UserSpace) (n : ℕ) : Type 0 where
  pub pool_used : u.pool_used ≡ n * proc_size
  pub within : u.pool_used ≤ u.pool_size
  pub pool_pos : 0 < u.pool_base
  pub pool_small : u.pool_base + u.pool_size < 2 ^ 64
  pub size_small : u.pool_size < 2 ^ 32
  pub base_small : u.base < 2 ^ 32
  pub used : u.used ≡ u.base + n * region_size
  pub pid_next : u.pid_next ≡ n + 1
  pub list : u.ptr_proc_list ≡ before u.pool_base n
  pub procs : (k : ℕ) → k < n → IsProc u.pool_base u.base k (u.proc_at (proc_addr u.pool_base k))

-- Linking back writes only `prev`.
link_back-IsProc :
    (list proc q : ℕ) (procs : ℕ → Proc) (pool_base base k : ℕ)
    → IsProc pool_base base k (procs q)
    → IsProc pool_base base k (link_back list proc procs q)
unfolding link_back write_proc
link_back-IsProc list proc q procs pool_base base k h = elim (Bool-cases (list == 0)) [
  | inl e ↦ rw e h
  | inr e ↦ rw e (elim (Bool-cases (q == list)) [
    | inl e' ↦
        let same : q ≡ list = ground arith in
        rw e' (prev_only (procs list) (subst (λ x. IsProc pool_base base k (procs x)) same h))
    | inr e' ↦ rw e' h
  ])
]
  where
    prev_only :
        (p : Proc) → IsProc pool_base base k p → IsProc pool_base base k (record p { prev = proc })
    prev_only p i = record {
      pid = i.pid;
      next = i.next;
      stack = i.stack;
      stack_size = i.stack_size;
      heap = i.heap;
      heap_size = i.heap_size;
      state = i.state;
    }

module _ (u : UserSpace) (n : ℕ) (pool : IsPool u n) (name : List ℕ) (entry : ℕ)
    (room : u.pool_used + proc_size ≤ u.pool_size) where
  abbrev made : UserSpace
  made = record u {
    pool_used = u.pool_used + proc_size;
    pid_next = u.pid_next + 1;
    used = u.used + region_size;
    ptr_proc_list = proc_addr u.pool_base n;
    proc_at =
        link_back u.ptr_proc_list (proc_addr u.pool_base n)
          (write_proc (proc_addr u.pool_base n) (new_proc name entry u) u.proc_at);
  }

  create-made : user_space_proc_create name entry u ≡ (proc_addr u.pool_base n, made)
  unfolding user_space_proc_create
  create-made = ground (
    arith, pool.pool_used, pool.pool_small, pool.size_small, pool.base_small, pool.used,
    pool.pid_next,
  )

  written-IsProc :
      (k : ℕ)
      → k < n + 1
      → IsProc u.pool_base u.base k (
          write_proc
            (proc_addr u.pool_base n)
            (new_proc name entry u)
            u.proc_at
            (proc_addr u.pool_base k))
  unfolding write_proc new_proc
  written-IsProc k h = elim (Bool-cases (k == n)) [
    | inl e ↦
        let same : k ≡ n = ground arith in
        let at : (proc_addr u.pool_base k == proc_addr u.pool_base n) ≡ true = ground arith in
        rw at (record {
          pid = omega (arith, pool.pid_next);
          next = pool.list ∙ ap (before u.pool_base) (sym same);
          stack = omega (arith, pool.used);
          stack_size = refl;
          heap = omega (
            arith, pool.used, pool.within, pool.pool_used, pool.pool_small, pool.size_small,
            pool.base_small,
          );
          heap_size = refl;
          state = inl refl;
        })
    | inr e ↦
        let at : (proc_addr u.pool_base k == proc_addr u.pool_base n) ≡ false = ground arith in
        rw at (pool.procs k (ground arith))
  ]

  made-IsPool : IsPool made (n + 1)
  made-IsPool = record {
    pool_used = omega (arith, pool.pool_used);
    within = room;
    pool_pos = pool.pool_pos;
    pool_small = pool.pool_small;
    size_small = pool.size_small;
    base_small = pool.base_small;
    used = omega (arith, pool.used);
    pid_next = omega (arith, pool.pid_next);
    list = sym (before_next u.pool_base n);
    procs = λ k h.
        link_back-IsProc u.ptr_proc_list (proc_addr u.pool_base n) (proc_addr u.pool_base k)
          (write_proc (proc_addr u.pool_base n) (new_proc name entry u) u.proc_at) u.pool_base
          u.base k (written-IsProc k h);
  }

  pub create-IsPool :
      ((user_space_proc_create name entry u).0 ≡ proc_addr u.pool_base n)
      × IsPool (user_space_proc_create name entry u).1 (n + 1)
  create-IsPool =
      subst (λ r. (r.0 ≡ proc_addr u.pool_base n) × IsPool r.1 (n + 1)) (sym create-made)
        (refl, made-IsPool)
