-- ===== src/UserSpace/Turns.antt =====
-- `user_space_schedule` goes round the processes.
use kernix_os.Base.{
  ℕ, zero, suc, ◌+◌, ◌-◌, ◌≤◌, ◌<◌, ◌≡◌, refl, ap, sym, subst, ◌∙◌, ◌⊎◌, inl, inr, true, false,
  arith, ltb, ◌==◌, Bool-cases,
}
use kernix_os.UserSpace.{
  created, zombie, Proc, UserSpace, write_proc, next_proc, run_state, user_space_schedule,
}
use kernix_os.UserSpace.Pool.{proc_addr, before, IsProc, IsPool}

-- The current process is the `c`-th that was made, counted from 1, or none for 0.
pub record At (u : UserSpace) (n c : ℕ) : Type 0 where
  pub pool : IsPool u n
  pub curr : u.ptr_proc_curr ≡ before u.pool_base c
  pub made : c ≤ n

-- No state that a process has here is changed.
same_state : (p : Proc) (b c k : ℕ) → IsProc b c k p → run_state p.state ≡ p.state
unfolding run_state
same_state p b c k i = elim i.state [ inl e ↦ rw e | inr e ↦ rw e ]

run-IsProc :
    (procs : ℕ → Proc) (curr q b c k : ℕ)
    → IsProc b c k (procs q)
    → IsProc b c k
        (write_proc curr (record (procs curr) { state = run_state (procs curr).state }) procs q)
unfolding write_proc
run-IsProc procs curr q b c k i = elim (Bool-cases (q == curr)) [
  | inl e ↦
      let same : q ≡ curr = ground arith in
      let i' = subst (λ x. IsProc b c k (procs x)) same i in
      rw e (record {
        pid = i'.pid;
        next = i'.next;
        stack = i'.stack;
        stack_size = i'.stack_size;
        heap = i'.heap;
        heap_size = i'.heap_size;
        state =
            subst (λ x. (x ≡ created) ⊎ (x ≡ zombie)) (sym (same_state (procs curr) b c k i'))
              i'.state;
      })
  | inr e ↦ rw e i
]

module _ (u : UserSpace) (n : ℕ) (pool : IsPool u n) (pos : 0 < n) where
  list_pos : (u.ptr_proc_list == 0) ≡ false
  list_pos = from n pos pool.list
    where
      from :
          (m : ℕ) → 0 < m → u.ptr_proc_list ≡ before u.pool_base m → (u.ptr_proc_list == 0) ≡ false
      from zero h e = absurd (omega arith)
      from (suc m) h e = ground (arith, pool.pool_pos)

  abbrev turned : UserSpace
  turned = record u {
    ptr_proc_curr = next_proc u;
    proc_at =
        write_proc (next_proc u)
          (record (u.proc_at (next_proc u)) { state = run_state (u.proc_at (next_proc u)).state })
          u.proc_at;
  }

  schedule-turned : user_space_schedule u ≡ turned
  unfolding user_space_schedule
  schedule-turned = rw list_pos

  turned-IsPool : IsPool turned n
  turned-IsPool = record {
    pool_used = pool.pool_used;
    within = pool.within;
    pool_pos = pool.pool_pos;
    pool_small = pool.pool_small;
    size_small = pool.size_small;
    base_small = pool.base_small;
    used = pool.used;
    pid_next = pool.pid_next;
    list = pool.list;
    procs = λ k h.
        run-IsProc u.proc_at (next_proc u) (proc_addr u.pool_base k) u.pool_base u.base k
          (pool.procs k h);
  }

  schedule-At :
      (c : ℕ) → c ≤ n → next_proc u ≡ before u.pool_base c → At (user_space_schedule u) n c
  schedule-At c h e =
      subst (λ v. At v n c) (sym schedule-turned)
        (record { pool = turned-IsPool; curr = e; made = h })

-- A call keeps the pool well formed, also an empty one.
pub schedule-IsPool : (u : UserSpace) (n : ℕ) → IsPool u n → IsPool (user_space_schedule u) n
unfolding user_space_schedule
schedule-IsPool u zero pool =
    let empty : (u.ptr_proc_list == 0) ≡ true = ground (arith, pool.list) in rw empty pool
schedule-IsPool u (suc n) pool =
    subst (λ v. IsPool v (suc n)) (sym (schedule-turned u (suc n) pool (omega arith)))
      (turned-IsPool u (suc n) pool (omega arith))

module _ (u : UserSpace) (n : ℕ) where
  -- Behind the process that was made first comes the last one.
  turn_wrap : (c : ℕ) → c ≤ 1 → 0 < n → At u n c → At (user_space_schedule u) n n
  unfolding next_proc
  turn_wrap zero h pos a = schedule-At u n a.pool pos n (omega arith) (rw (a.curr) (a.pool.list))
  turn_wrap (suc zero) h pos a =
      let first = a.pool.procs 0 (omega arith) in
      let last : (u.proc_at u.ptr_proc_curr).next ≡ 0 =
        ap (λ x. (u.proc_at x).next) a.curr ∙ first.next in
      schedule-At u n a.pool pos n (omega arith) (ground arith)
  turn_wrap (suc (suc c)) h pos a = absurd (omega arith)

  turn_down : (c : ℕ) → At u n (suc (suc c)) → At (user_space_schedule u) n (suc c)
  unfolding next_proc
  turn_down c a =
      let p = a.pool.procs (suc c) (omega (arith, a.made)) in
      let older : (u.proc_at u.ptr_proc_curr).next ≡ proc_addr u.pool_base c =
        ap (λ x. (u.proc_at x).next) a.curr ∙ p.next in
      schedule-At u n a.pool (omega (arith, a.made)) (suc c) (omega (arith, a.made)) (ground arith)

-- That many calls of `user_space_schedule` in a row
pub turns : ℕ → UserSpace → UserSpace
turns zero u = u
turns (suc m) u = turns m (user_space_schedule u)

turns-add : (a b : ℕ) (u : UserSpace) → turns (a + b) u ≡ turns b (turns a u)
unfolding turns
turns-add zero b u = let e : 0 + b ≡ b = omega arith in ap (λ m. turns m u) e
turns-add (suc a) b u =
    let e : suc a + b ≡ suc (a + b) = omega arith in
    ap (λ m. turns m u) e ∙ turns-add a b (user_space_schedule u)

turns_down : (m c d n : ℕ) (u : UserSpace) → d ≡ m + suc c → At u n d → At (turns m u) n (suc c)
unfolding turns
turns_down zero c d n u e a = let e' : d ≡ suc c = omega arith in subst (At u n) e' a
turns_down (suc m) c d n u e a =
    let e' : d ≡ suc (suc (m + c)) = omega arith in
    turns_down m c (suc (m + c)) n (user_space_schedule u) (omega arith)
      (turn_down u n (m + c) (subst (At u n) e' a))

-- Some number of calls, from 1 to the number of processes, makes the process current.
pub record Reached (u : UserSpace) (n j : ℕ) : Type 0 where
  pub calls : ℕ
  pub some_call : 0 < calls
  pub few : calls ≤ n
  pub at : At (turns calls u) n (suc j)

from_top :
    (u : UserSpace) (n c j m : ℕ)
    → j < n
    → m ≡ c + (n - suc j)
    → 0 < c
    → c ≤ n
    → m ≤ n
    → At (turns c u) n n
    → Reached u n j
from_top u n c j m h e pos le few a = record {
  calls = m;
  some_call = omega arith;
  few = few;
  at =
      subst (λ x. At (turns x u) n (suc j)) (sym e)
        (subst (λ v. At v n (suc j)) (sym (turns-add c (n - suc j) u))
          (turns_down (n - suc j) j n n (turns c u) (omega arith) a));
}

to_top : (c n : ℕ) (u : UserSpace) → 0 < n → At u n (suc c) → At (turns (c + 1) u) n n
unfolding turns
to_top c n u pos a =
    subst (λ v. At v n n) (sym (turns-add c 1 u))
      (one (turns c u) (turns_down c 0 (suc c) n u (omega arith) a))
  where
    one : (v : UserSpace) → At v n 1 → At (turns 1 v) n n
    one v b = turn_wrap v n 1 (omega arith) pos b

-- In a pool of `n` processes, whichever is current or if none is, every process becomes the current one
-- within the next `n` calls of `user_space_schedule`; the pool stays well formed.
pub schedule-Reached : (u : UserSpace) (n c j : ℕ) → At u n c → j < n → Reached u n j
unfolding turns
schedule-Reached u n zero j a h =
    from_top u n 1 j (1 + (n - suc j)) h refl (omega arith) (omega arith) (omega arith)
      (turn_wrap u n 0 (omega arith) (omega arith) a)
schedule-Reached u n (suc c) j a h = elim (Bool-cases (ltb j c)) [
  | inl below ↦
      let under : j < c = ground arith in
      record {
        calls = c - j;
        some_call = omega arith;
        few = omega (arith, a.made);
        at = turns_down (c - j) j (suc c) n u (omega arith) a;
      }
  | inr above ↦
      let over : c ≤ j = ground arith in
      from_top u n (c + 1) j (c + 1 + (n - suc j)) h refl (omega arith) (omega arith) (omega arith)
        (to_top c n u (omega arith) a)
]
