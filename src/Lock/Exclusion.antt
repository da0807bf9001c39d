-- ===== src/Lock/Exclusion.antt =====
-- The lock excludes: at most one processor is inside.
use kernix_os.Base.{ℕ, ◌≡◌, refl, ◌∙◌, sym, ◌⊎◌, inl, inr, true, false, ◌==◌, arith, Bool-cases}
use kernix_os.Lock.{
  spinlock_init, spinlock_try_acquire, spinlock_release, Machine, enter, Step, tries, leaves,
  Reachable, start, next,
}

-- The lock is free and nobody is inside, or it is taken and only its owner is.
record Exclusive (m : Machine) : Type 0 where
  owner : ℕ
  state :
      ((m.lock.locked ≡ 0) × ((i : ℕ) → m.inside i ≡ false))
      ⊎ ((m.lock.locked ≡ 1) × ((i : ℕ) → m.inside i ≡ true → i ≡ owner))

Step-Exclusive : (m n : Machine) → Step m n → Exclusive m → Exclusive n
unfolding spinlock_try_acquire spinlock_release enter
Step-Exclusive m n (tries cpu m' outside) x = elim x.state [
  | inl (free, nobody) ↦
      let test : (m.lock.locked == 0) ≡ true = ground arith in
      rw test (record { owner = cpu; state = inr (refl, λ i h. ground (arith, nobody i)) })
  | inr (taken, only) ↦
      let test : (m.lock.locked == 0) ≡ false = ground arith in
      rw test (record { owner = x.owner; state = inr (taken, only) })
]
Step-Exclusive m n (leaves cpu m' within) x = elim x.state [
  | inl (free, nobody) ↦ absurd (ground (arith, nobody cpu))
  | inr (taken, only) ↦ record {
    owner = x.owner;
    state = inl (
      refl,
      λ i. elim (Bool-cases (m.inside i)) [
        | inl here ↦ let a = only i here in let b = only cpu within in ground arith
        | inr away ↦ ground arith
      ],
    );
  }
]

Reachable-Exclusive : (m : Machine) → Reachable m → Exclusive m
unfolding spinlock_init
Reachable-Exclusive m start = record { owner = 0; state = inl (refl, λ i. refl) }
Reachable-Exclusive m (next k n r s) = Step-Exclusive k n s (Reachable-Exclusive k r)

-- In every state that processors reach from a new lock, in any interleaving of their rounds of
-- `spinlock_acquire` and their releases, two processors that are inside are the same.
pub Reachable-one_inside :
    (m : Machine) (i j : ℕ) → Reachable m → m.inside i ≡ true → m.inside j ≡ true → i ≡ j
Reachable-one_inside m i j r hi hj =
    let x = Reachable-Exclusive m r in
    elim x.state [
      | inl (free, nobody) ↦ absurd (ground (arith, nobody i))
      | inr (taken, only) ↦ only i hi ∙ sym (only j hj)
    ]
