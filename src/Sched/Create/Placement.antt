-- ===== src/Sched/Create/Placement.antt =====
-- Where `create_new_task` puts a task.
use kernix_os.Base.{
  ℕ, zero, suc, ◌+◌, ◌≤◌, ◌<◌, ◌≡◌, refl, ◌∙◌, ap, ◌⊎◌, true, false, Option, none, some, List, [],
  ◌∷◌, ltb, ◌==◌, ◌&&◌, ◌||◌, get_elem?, arith, inl, inr, Bool-cases,
}
use kernix_os.Sched.{Task}
use kernix_os.Sched.Cpu.{Cpu}
use kernix_os.Sched.Create.{least_loaded, u32_max, is_terminated, free_slot}

-- Every online CPU of the list has at least `n` tasks.
abbrev pub AllAbove : ℕ → List Cpu → Type 0
AllAbove n [] = Unit
AllAbove n (c ∷ cs) = (c.is_online ≡ true → n ≤ c.task_count) × AllAbove n cs

-- An online CPU of the list with fewest tasks among the online ones, at index `k`.
abbrev pub Least : ℕ → List Cpu → Type 0
Least k cs = (c : Cpu) × (get_elem? cs k ≡ some c) × (c.is_online ≡ true) × AllAbove c.task_count cs

-- The loop from index `i` on keeps `best`, or chooses a CPU with fewer than `min_count` tasks.
abbrev Pick : ℕ → ℕ → Option ℕ → List Cpu → Option ℕ → Type 0
Pick i min_count best cs r =
    ((r ≡ best) × AllAbove min_count cs)
    ⊎ ((j : ℕ) × (c : Cpu) × (r ≡ some (i + j))
        × (get_elem? cs j ≡ some c)
        × (c.is_online ≡ true)
        × (c.task_count < min_count)
        × AllAbove c.task_count cs)

least_loaded-Pick :
    (i min_count : ℕ) (best : Option ℕ) (cs : List Cpu)
    → Pick i min_count best cs (least_loaded i min_count best cs)
unfolding least_loaded
least_loaded-Pick i m best [] = inl (refl, tt)
least_loaded-Pick i m best (c ∷ cs) = elim (Bool-cases (c.is_online && ltb c.task_count m)) [
  | inl better ↦ simp better (elim (least_loaded-Pick (i + 1) c.task_count (some i) cs) [
    | inl (kept, above) ↦ inr (
      0,
      c,
      kept ∙ ap some (omega arith),
      refl,
      ground arith,
      ground arith,
      ((λ _. omega arith), above),
    )
    | inr (j, d, chosen, at, online, fewer, above) ↦ inr (
      suc j,
      d,
      chosen ∙ ap some (omega arith),
      at,
      online,
      ground arith,
      ((λ _. omega arith), above),
    )
  ])
  | inr worse ↦ simp worse (elim (least_loaded-Pick (i + 1) m best cs) [
    | inl (kept, above) ↦ inl (kept, ((λ online. ground arith), above))
    | inr (j, d, chosen, at, online, fewer, above) ↦
        inr (
          suc j,
          d,
          chosen ∙ ap some (omega arith),
          at,
          online,
          fewer,
          ((λ up. ground arith), above),
        )
  ])
]

-- A new task goes to the online CPU with fewest tasks; only if no online CPU has fewer tasks than
-- the largest `u32` is there none.
pub least_loaded-Least :
    (cs : List Cpu)
    → ((k : ℕ) × (least_loaded 0 u32_max none cs ≡ some k) × Least k cs)
      ⊎ ((least_loaded 0 u32_max none cs ≡ none) × AllAbove u32_max cs)
least_loaded-Least cs = elim (least_loaded-Pick 0 u32_max none cs) [
  | inl (kept, above) ↦ inr (kept, above)
  | inr (j, c, chosen, at, online, fewer, above) ↦
      inl (j, chosen ∙ ap some (omega arith), (c, at, online, above))
]

-- A slot that may be given to a new task.
abbrev pub IsFree : Task → Type 0
IsFree t = (is_terminated t.status ≡ true) ⊎ (t.identifier ≡ 0)

-- A slot that `free_slot` finds holds a terminated task or none, and every earlier slot of the pool
-- holds a live one.
pub free_slot-first :
    (i k : ℕ) (ts : List Task)
    → free_slot i ts ≡ some k
    → (j : ℕ) × (t : Task) × (k ≡ i + j)
      × (get_elem? ts j ≡ some t)
      × IsFree t
      × ((m : ℕ) (u : Task) → m < j → get_elem? ts m ≡ some u → ¬ IsFree u)
unfolding free_slot
free_slot-first i k [] h = cc
free_slot-first i k (t ∷ ts) h = elim (Bool-cases (is_terminated t.status || (t.identifier == 0))) [
  | inl free ↦ (0, t, ground arith, refl, ground arith, λ m u lt. absurd (omega arith))
  | inr busy ↦
      let (j, u, e, at, free, before) = free_slot-first (i + 1) k ts (ground arith) in
      (suc j, u, omega arith, at, free, later t ts j busy before)
]
  where
    later :
        (t : Task) (ts : List Task) (j : ℕ)
        → (is_terminated t.status || (t.identifier == 0)) ≡ false
        → ((m : ℕ) (u : Task) → m < j → get_elem? ts m ≡ some u → ¬ IsFree u)
        → (m : ℕ) (u : Task) → m < suc j
        → get_elem? (t ∷ ts) m ≡ some u
        → ¬ IsFree u
    later t ts j busy before zero u lt at = ground arith
    later t ts j busy before (suc m) u lt at = before m u (omega arith) at
