-- ===== src/Base/Panic.antt =====
-- What a kernel routine does: it returns a value, or it calls `initiate_panic` of
-- core/kernel/interrupts/panic/panic.c, which never returns.

pub data Kernel {ℓ} (A : Type ℓ) : Type ℓ where
  returns : A → Kernel A
  panics : Kernel A

infixl 5 ◌>>=◌
abbrev pub ◌>>=◌ {ℓ κ} : {A : Type ℓ} {B : Type κ} → Kernel A → (A → Kernel B) → Kernel B
returns a >>= f = f a
panics >>= f = panics

-- The call returns, and its value satisfies `P`.
abbrev pub Returns {ℓ} : {A : Type ℓ} → Kernel A → (A → Type 0) → Type 0
Returns (returns a) P = P a
Returns panics P = ⊥

pub Returns-bind :
    {A B : Type 0} {P : A → Type 0} (m : Kernel A) (f : A → Kernel B) (Q : B → Type 0)
    → Returns m P
    → ((a : A) → P a → Returns (f a) Q)
    → Returns (m >>= f) Q
Returns-bind (returns a) f Q h k = k a h
Returns-bind panics f Q h k = h

pub Returns-map :
    {A : Type 0} {P Q : A → Type 0} (m : Kernel A)
    → Returns m P
    → ((a : A) → P a → Q a)
    → Returns m Q
Returns-map (returns a) h k = k a h
Returns-map panics h k = h
