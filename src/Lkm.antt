-- ===== src/Lkm.antt =====
-- The table of loadable modules of core/kernel/module/lkm.c. What `elf_load_module` gives, and what the
-- module's own functions return, are arguments; the calls of `exit` and of `kfree` are recorded.
-- Addresses are numbers, and 0 is NULL.
pub mod Table
mod Tests
use kernix_os.Base.{
  ℕ, zero, suc, ◌+◌, ◌-◌, Bool, true, false, not, ◌||◌, Option, none, some, List, [], ◌∷◌, get_or,
  set, replicate, shift_down, leb, ◌==◌, if◌then◌else◌,
}
use kernix_os.Str.{str_equals}

-- `struct lkm_module`, without `version` and `depends`, which nothing reads
pub record LkmModule : Type 0 where
  pub name : List ℕ
  pub init : ℕ
  pub exit : ℕ
  pub module_core : ℕ
  pub size : ℕ

pub data LkmCall : Type 0 where
  exit_called kfree_called : ℕ → LkmCall

-- `loaded_lkms` and `lkm_count`
pub record Lkms : Type 0 where
  pub loaded_lkms : List LkmModule
  pub lkm_count : ℕ
  pub calls : List LkmCall

abbrev pub max_lkms : ℕ
max_lkms = 256

abbrev pub blank_module : LkmModule
blank_module = record { name = []; init = 0; exit = 0; module_core = 0; size = 0 }

pub lkm_init : Lkms → Lkms
lkm_init s = record s { loaded_lkms = replicate max_lkms blank_module; lkm_count = 0 }

-- "unknown"
abbrev pub unknown : List ℕ
unknown = 117 ∷ 110 ∷ 107 ∷ 110 ∷ 111 ∷ 119 ∷ 110 ∷ []

-- What `elf_load_module` stores through its pointers
pub record Image : Type 0 where
  pub module_base : ℕ
  pub module_size : ℕ
  pub entry_point : ℕ

-- The new entry; `exit` is what the place held before.
abbrev pub load_entry : Image → LkmModule → LkmModule
load_entry i old = record old {
  name = unknown;
  module_core = i.module_base;
  size = i.module_size;
  init = i.entry_point;
}

pub load_image : Option Image → (init_result : ℕ) → Lkms → Bool × Lkms
load_image none init_result s = (false, s)
load_image (some i) init_result s =
    let old = get_or s.loaded_lkms s.lkm_count blank_module in
    if not (init_result == 0)
    then (false, record s { calls = kfree_called i.module_base ∷ s.calls })
    else (
      true,
      record s {
        loaded_lkms = set s.loaded_lkms s.lkm_count (load_entry i old);
        lkm_count = s.lkm_count + 1;
      },
    )

-- The result `false` is -1.
pub lkm_load : Option Image → (init_result : ℕ) → Lkms → Bool × Lkms
unfolding load_image
lkm_load image init_result s =
    if leb max_lkms s.lkm_count then (false, s) else load_image image init_result s

-- The calls for a module that goes, the last first
pub leave_calls : LkmModule → List LkmCall → List LkmCall
leave_calls m calls =
    let exited = if m.exit == 0 then calls else exit_called m.exit ∷ calls in
    if m.module_core == 0 then exited else kfree_called m.module_core ∷ exited

pub unload_at : ℕ → Lkms → Lkms
unfolding leave_calls
unload_at i s = record {
  loaded_lkms = shift_down blank_module (s.lkm_count - 1 - i) i s.loaded_lkms;
  lkm_count = s.lkm_count - 1;
  calls = leave_calls (get_or s.loaded_lkms i blank_module) s.calls;
}

-- The loop of `lkm_unload` from index `i` on, with so many modules left
pub unload_from : ℕ → ℕ → List ℕ → Lkms → Bool × Lkms
unfolding unload_at
unload_from zero i name s = (false, s)
unload_from (suc left) i name s =
    let rest = unload_from left (i + 1) name s in
    if str_equals (get_or s.loaded_lkms i blank_module).name name
    then (true, unload_at i s)
    else rest

pub lkm_unload : List ℕ → Lkms → Bool × Lkms
unfolding unload_from
lkm_unload name s = unload_from s.lkm_count 0 name s

pub find_from : ℕ → ℕ → List ℕ → List LkmModule → Option ℕ
find_from zero i name modules = none
find_from (suc left) i name modules =
    let rest = find_from left (i + 1) name modules in
    if str_equals (get_or modules i blank_module).name name then some i else rest

pub lkm_find : List ℕ → Lkms → Option ℕ
unfolding find_from
lkm_find name s = find_from s.lkm_count 0 name s.loaded_lkms

-- A NULL module is `none`.
pub lkm_register_builtin : Option LkmModule → Lkms → Bool × Lkms
lkm_register_builtin none s = (false, s)
lkm_register_builtin (some m) s = if leb max_lkms s.lkm_count then (false, s) else (
  true,
  record s { loaded_lkms = set s.loaded_lkms s.lkm_count m; lkm_count = s.lkm_count + 1 },
)
