-- ===== src/UserSpace.antt =====
-- Processes of core/kernel/mem/user_space/user_space.c. Records of processes are addresses in the pool, 0 is
-- NULL. Not modelled: threads, the printing of the list, and the bytes of programs and of their memory.
pub mod Pool
pub mod Turns
pub mod Kill
pub mod Steps
mod Tests
use kernix_os.Base.{
  ℕ, zero, suc, ◌+◌, ◌-◌, ◌*◌, ◌/◌, ◌%◌, ◌^◌, Bool, true, false, Option, none, some, List, [], ◌∷◌,
  ltb, ◌==◌, if◌then◌else◌, u64,
}
use kernix_os.Base.Panic.{Kernel, returns, panics, ◌>>=◌}
use kernix_os.Phys.{Physmem, page_size, physmem_alloc_to}
use kernix_os.Paging.{Paging, map_region}

-- PROC_CREATED and so on
pub data ProcState : Type 0 where
  created ready running blocked zombie : ProcState

-- `user_space_proc_t`, without `priority` and `ptr_pagetable`, which nothing sets
pub record Proc : Type 0 where
  pub pid : ℕ
  pub name : List ℕ
  pub state : ProcState
  pub entry_point : ℕ
  pub heap_base : ℕ
  pub heap_size : ℕ
  pub stack_base : ℕ
  pub stack_size : ℕ
  pub phys_heap : ℕ
  pub phys_stack : ℕ
  pub user_space : ℕ
  pub next : ℕ
  pub prev : ℕ

-- `user_space_t`, without threads, and the records of processes at their addresses
pub record UserSpace : Type 0 where
  pub ptr_proc_list : ℕ
  pub ptr_proc_curr : ℕ
  pub pid_next : ℕ
  pub tid_next : ℕ
  pub pool_base : ℕ
  pub pool_size : ℕ
  pub pool_used : ℕ
  pub base : ℕ
  pub size : ℕ
  pub used : ℕ
  pub proc_at : ℕ → Proc

-- `sizeof(user_space_proc_t)`: 14 words and a name of 64 bytes
abbrev pub proc_size : ℕ
proc_size = 176

pub write_proc : ℕ → Proc → (ℕ → Proc) → ℕ → Proc
write_proc p proc procs q = if q == p then proc else procs q

-- `start` is ULIME_START, `meta` ULIME_META_SIZE, and `header` the size of `user_space_t`; 0 is NULL.
pub user_space_init :
    (start meta header kernel_memory graphics_manager : ℕ) → UserSpace → Option UserSpace
user_space_init start meta header kernel_memory graphics_manager u =
    let fresh : UserSpace = record u {
      ptr_proc_list = 0;
      ptr_proc_curr = 0;
      pid_next = 1;
      tid_next = 1;
      pool_base = start + header;
      pool_size = meta - header;
      pool_used = 0;
      base = 0x40000000;
      size = 0xFFFFFFFF;
      used = 0x40000000;
    } in
    if kernel_memory == 0 then none else if graphics_manager == 0 then none else some fresh

-- The record that `user_space_proc_create` fills: `memset` clears it after `user_space` is written.
pub new_proc : (name : List ℕ) → (entry_point : ℕ) → UserSpace → Proc
new_proc name entry_point u = record {
  pid = u.pid_next;
  name = name;
  state = created;
  entry_point = entry_point;
  stack_base = u.used;
  stack_size = 16 * 1024;
  heap_base = u64 (u.used + 16 * 1024);
  heap_size = 64 * 1024;
  phys_heap = 0;
  phys_stack = 0;
  user_space = 0;
  next = u.ptr_proc_list;
  prev = 0;
}

-- `if (ptr_proc_list) ptr_proc_list->prev = proc`
pub link_back : (list proc : ℕ) → (ℕ → Proc) → ℕ → Proc
unfolding write_proc
link_back list proc procs =
    if list == 0 then procs else write_proc list (record (procs list) { prev = proc }) procs

-- The result 0 is NULL. A name of 64 bytes or more is written past its field, and is not followed.
pub user_space_proc_create : (name : List ℕ) → (entry_point : ℕ) → UserSpace → ℕ × UserSpace
unfolding new_proc link_back write_proc
user_space_proc_create name entry_point u =
    let proc = u64 (u.pool_base + u.pool_used) in
    let after : UserSpace = record u {
      pool_used = u64 (u.pool_used + proc_size);
      pid_next = u64 (u.pid_next + 1);
      used = u64 (u.used + 16 * 1024 + 64 * 1024);
      ptr_proc_list = proc;
      proc_at =
          link_back u.ptr_proc_list proc (write_proc proc (new_proc name entry_point u) u.proc_at);
    } in
    if ltb u.pool_size (u64 (u.pool_used + proc_size)) then (0, u) else (proc, after)

-- The loop of `user_space_proc_kill`: the address of the process, 0 if there is none; `none` is no fuel left.
pub find_proc : (fuel pid proc : ℕ) → (ℕ → Proc) → Option ℕ
find_proc zero pid proc procs = none
find_proc (suc fuel) pid proc procs =
    let rest = find_proc fuel pid (procs proc).next procs in
    if proc == 0 then some 0 else if (procs proc).pid == pid then some proc else rest

-- What follows the loop: `zombie`, and the result 0; or the result 1
pub kill_found : UserSpace → ℕ → ℕ × UserSpace
unfolding write_proc
kill_found u proc = if proc == 0 then (1, u) else (
  0,
  record u { proc_at = write_proc proc (record (u.proc_at proc) { state = zombie }) u.proc_at },
)

pub kill_result : UserSpace → Option ℕ → Option (ℕ × UserSpace)
unfolding kill_found
kill_result u none = none
kill_result u (some proc) = some (kill_found u proc)

pub user_space_proc_kill : (fuel pid : ℕ) → UserSpace → Option (ℕ × UserSpace)
unfolding kill_result find_proc
user_space_proc_kill fuel pid u = kill_result u (find_proc fuel pid u.ptr_proc_list u.proc_at)

-- The next process, from the list's start again behind its end
pub next_proc : UserSpace → ℕ
next_proc u =
    if u.ptr_proc_curr == 0
    then u.ptr_proc_list
    else if (u.proc_at u.ptr_proc_curr).next == 0
    then u.ptr_proc_list
    else (u.proc_at u.ptr_proc_curr).next

pub run_state : ProcState → ProcState
run_state ready = running
run_state created = created
run_state running = running
run_state blocked = blocked
run_state zombie = zombie

pub user_space_schedule : UserSpace → UserSpace
unfolding next_proc run_state write_proc
user_space_schedule u =
    let curr = next_proc u in
    let p = u.proc_at curr in
    if u.ptr_proc_list == 0 then u else record u {
      ptr_proc_curr = curr;
      proc_at = write_proc curr (record p { state = run_state p.state }) u.proc_at;
    }

pub user_space_load_program : (proc code_size : ℕ) → UserSpace → ℕ × UserSpace
unfolding write_proc
user_space_load_program proc code_size u =
    let p = u.proc_at proc in
    if ltb p.heap_size code_size then (1, u) else (
      0,
      record u { proc_at = write_proc proc (record p { entry_point = p.heap_base }) u.proc_at },
    )

pub sys_exit : (proc : ℕ) → UserSpace → ℕ × UserSpace
unfolding write_proc
sys_exit proc u = (
  0,
  record u { proc_at = write_proc proc (record (u.proc_at proc) { state = zombie }) u.proc_at },
)

-- The loop of `sys_write`, which raises the bound `count` in each round; `none` is no fuel left.
pub sys_write_loop : (fuel i count : ℕ) → Option ℕ
sys_write_loop zero i count = none
sys_write_loop (suc fuel) i count =
    let rest = sys_write_loop fuel (u64 (i + 1)) (u64 (count + 1)) in
    if ltb i count then rest else some count

-- The regions of a process are mapped once both have frames. `curr` is the process.
pub mmap_regions : (stack_pos heap_pos : ℕ) → Proc → Paging → Kernel Paging
mmap_regions stack_pos heap_pos p m =
    map_region stack_pos p.stack_base p.stack_size m >>= map_region heap_pos p.heap_base p.heap_size

pub mmap_heap :
    (proc stack_pos : ℕ) → UserSpace → Paging → ℕ × Physmem → Kernel (ℕ × UserSpace × Paging)
unfolding mmap_regions write_proc
mmap_heap proc stack_pos u m (heap_pos, phys) =
    let p = u.proc_at proc in
    let done : UserSpace = record u {
      proc_at =
          write_proc proc (record p { phys_stack = stack_pos; phys_heap = heap_pos }) u.proc_at;
    } in
    if heap_pos == 0
    then returns (1, u, record m { phys = phys })
    else mmap_regions stack_pos heap_pos p (record m { phys = phys }) >>= λ m'.
        returns (0, done, m')

pub mmap_stack : (proc : ℕ) → UserSpace → Paging → ℕ × Physmem → Kernel (ℕ × UserSpace × Paging)
unfolding mmap_heap
mmap_stack proc u m (stack_pos, phys) =
    if stack_pos == 0
    then returns (1, u, record m { phys = phys })
    else physmem_alloc_to ((u.proc_at proc).heap_size / page_size) phys
      >>= mmap_heap proc stack_pos u (record m { phys = phys })

-- A failure for the heap leaves the frames of the stack in use.
pub user_space_proc_mmap : (proc : ℕ) → UserSpace → Paging → Kernel (ℕ × UserSpace × Paging)
unfolding mmap_stack
user_space_proc_mmap proc u m =
    physmem_alloc_to ((u.proc_at proc).stack_size / page_size) m.phys >>= mmap_stack proc u m
