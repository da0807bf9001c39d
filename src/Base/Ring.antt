-- ===== src/Base/Ring.antt =====
-- Circular buffers of a fixed capacity, as the task queues and the keyboard buffers use them: an
-- array, the index of the oldest item, and indices that go round at the capacity.
use kernix_os.Base.Tests.{ltb, ltb→lt, if◌then◌else◌, Bool-cases}
use kernix_os.Base.Arrays.{
  length, get_elem?, set, get_elem?-set_self, get_elem?-set_ne, length-append,
}
use Prim.Native.Nat.{ℕ, zero, suc, ◌+◌, ◌-◌, ◌%◌, ◌<◌}
use mathlib.Core.Path.{◌≡◌, refl, sym, ◌∙◌}
use mathlib.Core.Logic.{inl, inr}
use mathlib.Core.Option.{some}
use mathlib.Core.List.{List, [], ◌∷◌, ◌++◌}
use native.Mathlib.Nat.{mod-eq_of_lt, mod-eq-sub-mod}
use native.Mathlib.Omega.{arith}

-- An index goes round at most once.
pub mod_wrap : (n cap : ℕ) → n < cap + cap → n % cap ≡ (if ltb n cap then n else n - cap)
mod_wrap n cap h = elim (Bool-cases (ltb n cap)) [
  | inl e ↦ rw e (mod-eq_of_lt (ltb→lt n cap e))
  | inr e ↦ rw e (
      mod-eq-sub-mod {n = n} {m = cap} (ground arith)
      ∙ mod-eq_of_lt {n = n - cap} {m = cap} (ground arith))
]

module _ {ℓ} {A : Type ℓ} where
  -- The `length xs` items from index `start` on are `xs`, oldest first.
  abbrev pub Holds : ℕ → List A → ℕ → List A → Type ℓ
  Holds cap buf start xs =
      (i : ℕ) → i < length xs → get_elem? buf ((start + i) % cap) ≡ get_elem? xs i

  get_elem?-append_left :
      (xs ys : List A) (i : ℕ) → i < length xs → get_elem? (xs ++ ys) i ≡ get_elem? xs i
  get_elem?-append_left [] ys i h = absurd (omega arith)
  get_elem?-append_left (x ∷ xs) ys zero h = refl
  get_elem?-append_left (x ∷ xs) ys (suc i) h = get_elem?-append_left xs ys i (omega arith)

  get_elem?-append_last : (xs : List A) (y : A) → get_elem? (xs ++ (y ∷ [])) (length xs) ≡ some y
  get_elem?-append_last [] y = refl
  get_elem?-append_last (x ∷ xs) y = get_elem?-append_last xs y

  module _ (cap : ℕ) (buf : List A) (start : ℕ) (room : length buf ≡ cap)
      (inside : start < cap) where
    -- Writing behind the last item appends it.
    pub Holds-push :
        (xs : List A) (x : A)
        → length xs < cap
        → Holds cap buf start xs
        → Holds cap (set buf ((start + length xs) % cap) x) start (xs ++ (x ∷ []))
    Holds-push xs x space holds i h = elim (Bool-cases (ltb i (length xs))) [
      | inl old ↦
          get_elem?-set_ne buf {j = (start + i) % cap} x
            (ground (arith, mod_wrap (start + i) cap, mod_wrap (start + length xs) cap))
          ∙ holds i (ltb→lt _ _ old)
          ∙ sym (get_elem?-append_left xs (x ∷ []) i (ltb→lt _ _ old))
      | inr new ↦
          let last : i ≡ length xs = ground (arith, length-append {ℓ} xs (x ∷ [])) in
          rw last (
            get_elem?-set_self buf ((start + length xs) % cap) x
              (ground (arith, mod_wrap (start + length xs) cap))
            ∙ sym (get_elem?-append_last xs x))
    ]

    -- Moving `start` on by one drops the oldest item.
    pub Holds-pop :
        (x : A) (xs : List A)
        → length xs < cap
        → Holds cap buf start (x ∷ xs)
        → Holds cap buf ((start + 1) % cap) xs
    Holds-pop x xs space holds i h = rw same (holds (suc i) (omega arith))
      where
        same : ((start + 1) % cap + i) % cap ≡ (start + suc i) % cap
        same = ground (
          arith,
          mod_wrap (start + 1) cap,
          mod_wrap (start + suc i) cap,
          mod_wrap ((start + 1) % cap + i) cap,
        )

    -- A write to a slot outside the items changes none of them.
    pub Holds-clear :
        (xs : List A) (v : A)
        → length xs < cap
        → Holds cap buf ((start + 1) % cap) xs
        → Holds cap (set buf start v) ((start + 1) % cap) xs
    Holds-clear xs v space holds i h =
        get_elem?-set_ne buf {i = start} {j = ((start + 1) % cap + i) % cap} v
          (ground (arith, mod_wrap (start + 1) cap, mod_wrap ((start + 1) % cap + i) cap))
        ∙ holds i h

    pub Holds-head :
        (x : A) (xs : List A) → Holds cap buf start (x ∷ xs) → get_elem? buf start ≡ some x
    Holds-head x xs holds = rw e at (holds 0 (omega arith))
      where
        e : (start + 0) % cap ≡ start
        e = ground (arith, mod_wrap (start + 0) cap)
