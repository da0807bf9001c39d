-- ===== src/Base/Shift.antt =====
-- Arrays that hold their live entries first: access to an entry, and the loop that closes the gap of a
-- removed one.
use Prim.Native.Nat.{ℕ, zero, suc, ◌+◌}
use mathlib.Core.Path.{◌≡◌, refl, ap, ◌∙◌}
use mathlib.Core.List.{List, [], ◌∷◌, ◌++◌}
use mathlib.Core.List.{append_assoc}
use native.Mathlib.Omega.{arith}
use kernix_os.Base.Arrays.{length, get_or, set, length-set, length-append}

module _ {ℓ} {A : Type ℓ} where
  -- `for (j = from; j < from + steps; j++) xs[j] = xs[j + 1];`
  abbrev pub shift_down : A → ℕ → ℕ → List A → List A
  shift_down d zero from xs = xs
  shift_down d (suc steps) from xs =
      shift_down d steps (suc from) (set xs from (get_or xs (suc from) d))

  abbrev pub last_of : A → List A → A
  last_of x [] = x
  last_of x (y ∷ ys) = last_of y ys

  pub get_or-at :
      (done : List A) (x : A) (rest : List A) (d : A)
      → get_or (done ++ (x ∷ rest)) (length done) d ≡ x
  get_or-at [] x rest d = refl
  get_or-at (y ∷ done) x rest d = get_or-at done x rest d

  pub set-at :
      (done : List A) (x v : A) (rest : List A)
      → set (done ++ (x ∷ rest)) (length done) v ≡ done ++ (v ∷ rest)
  set-at [] x v rest = refl
  set-at (y ∷ done) x v rest = ap (λ xs. y ∷ xs) (set-at done x v rest)

  shift-suc :
      (d x : A) (steps from : ℕ) (xs : List A)
      → shift_down d steps (suc from) (x ∷ xs) ≡ x ∷ shift_down d steps from xs
  shift-suc d x zero from xs = refl
  shift-suc d x (suc steps) from xs =
      shift-suc d x steps (suc from) (set xs from (get_or xs (suc from) d))

  shift-here :
      (d x : A) (todo stale : List A)
      → shift_down d (length todo) 0 (x ∷ (todo ++ stale)) ≡ todo ++ (last_of x todo ∷ stale)
  shift-here d x [] stale = refl
  shift-here d x (y ∷ todo) stale =
      shift-suc d y (length todo) 0 (y ∷ (todo ++ stale))
      ∙ ap (λ xs. y ∷ xs) (shift-here d y todo stale)

  -- The loop moves what is behind the gap down by one and leaves the last entry twice.
  pub shift_down-at :
      (d x : A) (done todo stale : List A)
      → shift_down d (length todo) (length done) (done ++ (x ∷ (todo ++ stale)))
        ≡ done ++ (todo ++ (last_of x todo ∷ stale))
  shift_down-at d x [] todo stale = shift-here d x todo stale
  shift_down-at d x (y ∷ done) todo stale =
      shift-suc d y (length todo) (length done) _
      ∙ ap (λ xs. y ∷ xs) (shift_down-at d x done todo stale)

  pub length-shift_down :
      (d : A) (steps from : ℕ) (xs : List A) → length (shift_down d steps from xs) ≡ length xs
  length-shift_down d zero from xs = refl
  length-shift_down d (suc steps) from xs =
      length-shift_down d steps (suc from) (set xs from (get_or xs (suc from) d))
      ∙ length-set xs from (get_or xs (suc from) d)

  pub snoc : (xs : List A) (y : A) (ys : List A) → (xs ++ (y ∷ [])) ++ ys ≡ xs ++ (y ∷ ys)
  snoc xs y ys = append_assoc xs (y ∷ []) ys

  pub length-snoc : (xs : List A) (y : A) → length (xs ++ (y ∷ [])) ≡ length xs + 1
  length-snoc xs y = omega (arith, length-append xs (y ∷ []))
