-- ===== src/UserSpace/Kill.antt =====
-- `user_space_proc_kill` and `sys_exit` end a process and leave the others alone.
use kernix_os.Base.{
  ℕ, zero, suc, ◌-◌, ◌≤◌, ◌<◌, ◌≡◌, refl, ap, subst, ◌∙◌, ◌⊎◌, inl, inr, true, false, some, arith,
  ltb, leb, ◌==◌, ◌&&◌, if◌then◌else◌, Bool-cases,
}
use kernix_os.UserSpace.{
  zombie, Proc, UserSpace, write_proc, find_proc, kill_found, kill_result, user_space_proc_kill,
}
use kernix_os.UserSpace.Pool.{proc_addr, before, IsProc, IsPool}

-- The record of the process with the number `pid`, 0 if there is none
abbrev pub addr_of_pid : (pool_base n pid : ℕ) → ℕ
addr_of_pid pool_base n pid = if ltb 0 pid && leb pid n then proc_addr pool_base (pid - 1) else 0

module _ (u : UserSpace) (n : ℕ) (pool : IsPool u n) (pid : ℕ) where
  find_at :
      (fuel c : ℕ)
      → c ≤ n
      → c < fuel
      → find_proc fuel pid (before u.pool_base c) u.proc_at ≡ some (addr_of_pid u.pool_base c pid)
  unfolding find_proc
  find_at zero c le lt = absurd (omega arith)
  find_at (suc fuel) zero le lt = ground arith
  find_at (suc fuel) (suc c) le lt =
      let p = pool.procs c (omega arith) in
      let back : find_proc fuel pid (u.proc_at (proc_addr u.pool_base c)).next u.proc_at
          ≡ some (addr_of_pid u.pool_base c pid) =
        ap (λ x. find_proc fuel pid x u.proc_at) p.next
        ∙ find_at fuel c (omega arith) (omega arith) in
      ground (arith, p.pid, pool.pool_pos)

  pub find_proc-pid :
      (fuel : ℕ)
      → n < fuel
      → find_proc fuel pid u.ptr_proc_list u.proc_at ≡ some (addr_of_pid u.pool_base n pid)
  find_proc-pid fuel h =
      ap (λ x. find_proc fuel pid x u.proc_at) pool.list ∙ find_at fuel n (omega arith) h

zombie-IsProc :
    (procs : ℕ → Proc) (proc q b c k : ℕ)
    → IsProc b c k (procs q)
    → IsProc b c k (write_proc proc (record (procs proc) { state = zombie }) procs q)
unfolding write_proc
zombie-IsProc procs proc q b c k i = elim (Bool-cases (q == proc)) [
  | inl e ↦
      let same : q ≡ proc = ground arith in
      let i' = subst (λ x. IsProc b c k (procs x)) same i in
      rw e (record {
        pid = i'.pid;
        next = i'.next;
        stack = i'.stack;
        stack_size = i'.stack_size;
        heap = i'.heap;
        heap_size = i'.heap_size;
        state = inr refl;
      })
  | inr e ↦ rw e i
]

abbrev pub ended : (proc : ℕ) → UserSpace → UserSpace
ended proc u = record u {
  proc_at = write_proc proc (record (u.proc_at proc) { state = zombie }) u.proc_at;
}

pub ended-IsPool : (proc n : ℕ) {u : UserSpace} → IsPool u n → IsPool (ended proc u) n
ended-IsPool proc n {u} pool = record {
  pool_used = pool.pool_used;
  within = pool.within;
  pool_pos = pool.pool_pos;
  pool_small = pool.pool_small;
  size_small = pool.size_small;
  base_small = pool.base_small;
  used = pool.used;
  pid_next = pool.pid_next;
  list = pool.list;
  procs = λ k h.
      zombie-IsProc u.proc_at proc (proc_addr u.pool_base k) u.pool_base u.base k (pool.procs k h);
}

-- In a pool of `n` processes, with fuel for each and one more, `user_space_proc_kill` returns. For a
-- number from 1 to `n` the result is 0 and just the process with that number becomes a zombie; for any
-- other it is 1 and nothing changes.
pub kill-ended :
    (fuel pid n : ℕ) (u : UserSpace)
    → IsPool u n
    → n < fuel
    → user_space_proc_kill fuel pid u
      ≡ some (
          if ltb 0 pid && leb pid n then (0, ended (proc_addr u.pool_base (pid - 1)) u) else (1, u))
unfolding user_space_proc_kill kill_result kill_found
kill-ended fuel pid n u pool h =
    ap (kill_result u) (find_proc-pid u n pool pid fuel h)
    ∙ ap some (found (Bool-cases (ltb 0 pid && leb pid n)))
  where
    found :
        ((ltb 0 pid && leb pid n) ≡ true) ⊎ ((ltb 0 pid && leb pid n) ≡ false)
        → kill_found u (addr_of_pid u.pool_base n pid) ≡ (
            if ltb 0 pid && leb pid n
            then (0, ended (proc_addr u.pool_base (pid - 1)) u)
            else (1, u))
    found (inl e) =
        let pos : (proc_addr u.pool_base (pid - 1) == 0) ≡ false = ground (arith, pool.pool_pos) in
        rw e (rw pos)
    found (inr e) = rw e
