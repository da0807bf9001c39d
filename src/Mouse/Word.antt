-- ===== src/Mouse/Word.antt =====
-- The signed numbers of Mouse as their 32 bits.
use kernix_os.Base.{
  ℕ, ◌+◌, ◌-◌, ◌*◌, ◌/◌, ◌^◌, ◌≤◌, ◌<◌, true, false, min, ltb, leb, if◌then◌else◌, u32, ◌≡◌, refl,
  sym, ap, ◌∙◌, arith, ◌⊎◌, inl, inr, Bool-cases, if_true, if_false, subst,
}
use kernix_os.Mouse.{negative, at_least, quotient, not_below, not_beyond, clamp}

-- A clamped coordinate is on the screen with the whole cursor, and it is the one of its accumulator.
pub record OnScreen (fb size place accum : ℕ) : Type 0 where
  pub inside : place + size < fb
  pub agrees : quotient accum 100 ≡ place
  pub bits : accum < 2 ^ 32

-- A screen that is larger than the cursor, and small enough for an accumulator and one movement
pub record IsScreen (fb size : ℕ) : Type 0 where
  pub larger : size < fb
  pub fits : fb * 100 + 89600 < 2 ^ 31

-- Dividing by 100 a number that is not negative, one above -100, and one that is lower
quotient_small : (x : ℕ) → x < 2 ^ 31 → quotient x 100 ≡ x / 100
unfolding quotient
quotient_small x h = ground arith

quotient_above : (x : ℕ) → x < 2 ^ 32 → 2 ^ 32 < x + 100 → quotient x 100 ≡ 0
unfolding quotient
quotient_above x h h' = ground arith

quotient-negative : (x : ℕ) → 2 ^ 31 ≤ x → x + 100 ≤ 2 ^ 32 → negative (quotient x 100) ≡ true
unfolding quotient
quotient-negative x h h' = ground arith

quotient_back : (n : ℕ) → n * 100 < 2 ^ 31 → quotient (u32 (n * 100)) 100 ≡ n
unfolding quotient
quotient_back n h = ground arith

-- A coordinate that is not negative and belongs to its accumulator
pub record Agrees (p : ℕ × ℕ) : Type 0 where
  pub positive : p.0 < 2 ^ 31
  pub same : quotient p.1 100 ≡ p.0
  pub bits : p.1 < 2 ^ 32

not_below-Agrees : (accum : ℕ) → accum < 2 ^ 32 → Agrees (not_below (quotient accum 100) accum)
unfolding not_below
not_below-Agrees accum h = elim (Bool-cases (ltb accum (2 ^ 31))) [
  | inl e ↦
      let eq : quotient accum 100 ≡ accum / 100 = quotient_small accum (ground arith) in
      let kept : negative (quotient accum 100) ≡ false = ground (arith, eq) in
      subst Agrees (sym (if_false _ _ _ kept))
        (record { positive = ground (arith, eq); same = refl; bits = h })
  | inr e ↦ elim (Bool-cases (leb (accum + 100) (2 ^ 32))) [
    | inl e' ↦
        subst Agrees (sym (if_true _ _ _ (quotient-negative accum (ground arith) (ground arith))))
          (record {
            positive = omega arith;
            same = quotient_small 0 (omega arith);
            bits = omega arith;
          })
    | inr e' ↦
        let eq : quotient accum 100 ≡ 0 = quotient_above accum h (ground arith) in
        let kept : negative (quotient accum 100) ≡ false = ground (arith, eq) in
        subst Agrees (sym (if_false _ _ _ kept))
          (record { positive = omega (arith, eq); same = refl; bits = h })
  ]
]

at_least_small : (x y : ℕ) → x < 2 ^ 31 → y < 2 ^ 31 → at_least x y ≡ leb y x
unfolding at_least
at_least_small x y hx hy = ground arith

beyond_test :
    (fb size new : ℕ)
    → IsScreen fb size
    → new < 2 ^ 31
    → at_least new (u32 (fb + 2 ^ 32 - size)) ≡ leb (fb - size) new
beyond_test fb size new screen h =
    let limit : u32 (fb + 2 ^ 32 - size) ≡ fb - size = omega (arith, screen.larger, screen.fits) in
    ap (at_least new) limit ∙ at_least_small new (fb - size) h (omega (arith, screen.fits))

not_beyond-OnScreen :
    (fb size : ℕ) (p : ℕ × ℕ)
    → IsScreen fb size
    → Agrees p
    → OnScreen fb size (not_beyond fb size p).0 (not_beyond fb size p).1
unfolding not_beyond
not_beyond-OnScreen fb size (new, accum) screen agrees =
    let last : u32 (fb + 2 ^ 32 - size + 2 ^ 32 - 1) ≡ fb - size - 1 =
      omega (arith, screen.larger, screen.fits) in
    let test = beyond_test fb size new screen agrees.positive in
    let on : ℕ × ℕ → Type 0 = λ p. OnScreen fb size p.0 p.1 in
    elim (Bool-cases (leb (fb - size) new)) [
      | inl e ↦
          subst on (sym (if_true _ _ _ (test ∙ e) ∙ ap (λ n. (n, u32 (n * 100))) last)) (record {
            inside = omega (arith, screen.larger);
            agrees = quotient_back (fb - size - 1) (omega (arith, screen.larger, screen.fits));
            bits = omega arith;
          })
      | inr e ↦ subst on (sym (if_false _ _ _ (test ∙ e))) (record {
        inside = ground (arith, screen.larger);
        agrees = agrees.same;
        bits = agrees.bits;
      })
    ]

pub clamp-OnScreen :
    (fb size accum : ℕ)
    → IsScreen fb size
    → accum < 2 ^ 32
    → OnScreen fb size (clamp fb size accum).0 (clamp fb size accum).1
unfolding clamp
clamp-OnScreen fb size accum screen h =
    not_beyond-OnScreen fb size (not_below (quotient accum 100) accum) screen
      (not_below-Agrees accum h)

beyond_place :
    (fb size : ℕ) (p : ℕ × ℕ)
    → IsScreen fb size
    → p.0 < 2 ^ 31
    → (not_beyond fb size p).0 ≡ min p.0 (fb - size - 1)
unfolding not_beyond
beyond_place fb size (new, accum) screen h =
    let last : u32 (fb + 2 ^ 32 - size + 2 ^ 32 - 1) ≡ fb - size - 1 =
      omega (arith, screen.larger, screen.fits) in
    let test = beyond_test fb size new screen h in
    elim (Bool-cases (leb (fb - size) new)) [
      | inl e ↦ ap (λ (q : ℕ × ℕ). q.0) (if_true _ _ _ (test ∙ e)) ∙ ground (arith, last)
      | inr e ↦ ap (λ (q : ℕ × ℕ). q.0) (if_false _ _ _ (test ∙ e)) ∙ ground arith
    ]

below_small : (n : ℕ) → n < 2 ^ 31 → (not_below (quotient n 100) n).0 ≡ n / 100
unfolding not_below
below_small n h = let eq : quotient n 100 ≡ n / 100 = quotient_small n h in ground (arith, eq)

below_negative : (n : ℕ) → 2 ^ 31 ≤ n → n < 2 ^ 32 → (not_below (quotient n 100) n).0 ≡ 0
unfolding not_below
below_negative n h h' = elim (Bool-cases (leb (n + 100) (2 ^ 32))) [
  | inl e ↦ ap (λ (q : ℕ × ℕ). q.0) (if_true _ _ _ (quotient-negative n h (ground arith)))
  | inr e ↦ let eq : quotient n 100 ≡ 0 = quotient_above n h' (ground arith) in ground (arith, eq)
]

-- The place that a clamped accumulator gives
clamp_forward :
    (fb size n : ℕ)
    → IsScreen fb size
    → n < 2 ^ 31
    → (clamp fb size n).0 ≡ min (n / 100) (fb - size - 1)
unfolding clamp
clamp_forward fb size n screen h =
    let small = below_small n h in
    beyond_place fb size (not_below (quotient n 100) n) screen (omega (arith, small))
    ∙ ap (λ x. min x (fb - size - 1)) small

clamp_below : (fb size n : ℕ) → IsScreen fb size → 2 ^ 31 ≤ n → n < 2 ^ 32 → (clamp fb size n).0 ≡ 0
unfolding clamp
clamp_below fb size n screen h h' =
    let small = below_negative n h h' in
    beyond_place fb size (not_below (quotient n 100) n) screen (omega (arith, small))
    ∙ ap (λ x. min x (fb - size - 1)) small
    ∙ omega arith

-- A place whose accumulator is not negative, or is above -100
accum_of :
    (a p : ℕ)
    → quotient a 100 ≡ p
    → p < 2 ^ 31
    → a < 2 ^ 32
    → (a < 2 ^ 31 × p ≡ a / 100) ⊎ (2 ^ 32 < a + 100 × p ≡ 0)
accum_of a p eq small bits = elim (Bool-cases (ltb a (2 ^ 31))) [
  | inl e ↦ inl (ground arith, sym eq ∙ quotient_small a (ground arith))
  | inr e ↦ elim (Bool-cases (leb (a + 100) (2 ^ 32))) [
    | inl e' ↦ let low = quotient-negative a (ground arith) (ground arith) in absurd (ground arith)
    | inr e' ↦ inr (ground arith, sym eq ∙ quotient_above a bits (ground arith))
  ]
]

-- The place of accumulator `a`, which may be one from -99 to -1, after a movement forward, and after one back
abbrev pub ahead : (a d : ℕ) → ℕ
ahead a d = (if ltb a (2 ^ 31) then a + d else a + d - 2 ^ 32) / 100

abbrev pub back : (a e : ℕ) → ℕ
back a e = (if ltb a (2 ^ 31) then a - e else 0) / 100

-- `q` is the place of `a` moved on by `d`, at most the last one of the screen.
pub record MovesOn (fb size p a d q : ℕ) : Type 0 where
  pub exact : q ≡ min (ahead a d) (fb - size - 1)
  pub order : p ≤ q

-- `q` is the place of `a` moved back by `e`, at least 0.
pub record MovesBack (p a e q : ℕ) : Type 0 where
  pub exact : q ≡ back a e
  pub order : q ≤ p

module _ (fb size p a : ℕ) (screen : IsScreen fb size) (on : OnScreen fb size p a) where
  at_clamp :
      (n n' : ℕ) → n ≡ n' → n' < 2 ^ 31 → (clamp fb size n).0 ≡ min (n' / 100) (fb - size - 1)
  at_clamp n n' e low = ap (λ k. (clamp fb size k).0) e ∙ clamp_forward fb size n' screen low

  pub clamp-forward : (d : ℕ) → d ≤ 89600 → MovesOn fb size p a d (clamp fb size (u32 (a + d))).0
  clamp-forward d h =
      elim (accum_of a p on.agrees (omega (arith, on.inside, screen.fits)) on.bits) [
        | inl (low, eq) ↦
            let far : a + d < 2 ^ 31 = omega (arith, on.inside, screen.fits, eq) in
            let place = at_clamp (u32 (a + d)) (a + d) (omega (arith, far)) far in
            record { exact = ground (arith, place); order = omega (arith, place, eq, on.inside) }
        | inr (high, eq) ↦ elim (Bool-cases (ltb (a + d) (2 ^ 32))) [
          | inl before ↦
              let same : u32 (a + d) ≡ a + d = ground arith in
              let place =
                ap (λ k. (clamp fb size k).0) same
                ∙ clamp_below fb size (a + d) screen (omega arith) (ground arith) in
              record { exact = ground (arith, place); order = omega (arith, eq) }
          | inr past ↦
              let same : u32 (a + d) ≡ a + d - 2 ^ 32 = ground (arith, on.bits) in
              let place = at_clamp (u32 (a + d)) (a + d - 2 ^ 32) same (omega (arith, on.bits)) in
              record { exact = ground (arith, place); order = omega (arith, eq) }
        ]
      ]

  pub clamp-back : (e : ℕ) → e ≤ 89600 → MovesBack p a e (clamp fb size (u32 (a + 2 ^ 32 - e))).0
  clamp-back e h = elim (accum_of a p on.agrees (omega (arith, on.inside, screen.fits)) on.bits) [
    | inl (low, eq) ↦ elim (Bool-cases (leb e a)) [
      | inl room ↦
          let same : u32 (a + 2 ^ 32 - e) ≡ a - e = ground arith in
          let place = at_clamp (u32 (a + 2 ^ 32 - e)) (a - e) same (omega arith) in
          record { exact = ground (arith, place, on.inside, eq); order = omega (arith, place, eq) }
      | inr over ↦
          let place =
            clamp_below fb size (u32 (a + 2 ^ 32 - e)) screen (ground arith) (omega arith) in
          record { exact = ground (arith, place); order = omega (arith, place) }
    ]
    | inr (high, eq) ↦
        let place =
          clamp_below fb size (u32 (a + 2 ^ 32 - e)) screen (omega (arith, on.bits))
            (omega arith) in
        record { exact = ground (arith, place); order = omega (arith, place) }
  ]
