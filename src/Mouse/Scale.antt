-- ===== src/Mouse/Scale.antt =====
-- The distance that a byte of a packet stands for in core/drivers/ps2/mouse/mouse.c.
use kernix_os.Base.{
  ℕ, ◌+◌, ◌-◌, ◌*◌, ◌/◌, ◌^◌, ◌≤◌, ◌<◌, Bool, true, false, ltb, if◌then◌else◌, u32, ◌≡◌, sym, ap,
  ◌∙◌, arith,
}
use native.Mathlib.Nat.{mul-le-mul, add-mul}
use kernix_os.Mouse.{fast, quotient, extended, scaled}

-- The product of a byte and the factor: forward, or back
product_forward : (b f : ℕ) → b < 128 → f ≤ 500 → (b * f ≤ 64000) × (u32 (extended b * f) ≡ b * f)
unfolding extended
product_forward b f h hf =
    let below : b ≤ 127 = omega arith in
    let most : b * f ≤ 127 * 500 = mul-le-mul below hf in
    let same : extended b ≡ b = ground arith in
    (omega (arith, most), ap (λ x. u32 (x * f)) same ∙ omega (arith, most))

modulo : (x n f : ℕ) → x + n ≡ 2 ^ 32 * f → n ≤ 64000 → u32 x ≡ u32 (2 ^ 32 - n)
modulo x n f h h' = omega arith

product_back :
    (b f : ℕ)
    → 128 ≤ b
    → b < 256
    → f ≤ 500
    → ((256 - b) * f ≤ 64000) × (u32 (extended b * f) ≡ u32 (2 ^ 32 - (256 - b) * f))
unfolding extended
product_back b f h h' hf =
    let below : 256 - b ≤ 128 = omega arith in
    let most : (256 - b) * f ≤ 128 * 500 = mul-le-mul below hf in
    let same : extended b ≡ b + (2 ^ 32 - 256) = ground arith in
    let sum : b + (2 ^ 32 - 256) + (256 - b) ≡ 2 ^ 32 = omega arith in
    let whole : (b + (2 ^ 32 - 256)) * f + (256 - b) * f ≡ 2 ^ 32 * f =
      sym (add-mul (b + (2 ^ 32 - 256)) (256 - b) f) ∙ ap (λ n. n * f) sum in
    (
      omega (arith, most),
      ap (λ x. u32 (x * f)) same ∙ modulo ((b + (2 ^ 32 - 256)) * f) ((256 - b) * f) f whole most,
    )

quick_forward : (n : ℕ) → n ≤ 64000 → quotient (u32 (n * 14)) 10 ≡ n * 14 / 10
unfolding quotient
quick_forward n h = ground arith

quick_back :
    (n : ℕ) → n ≤ 64000 → quotient (u32 (u32 (2 ^ 32 - n) * 14)) 10 ≡ u32 (2 ^ 32 - n * 14 / 10)
unfolding quotient
quick_back n h = ground arith

-- The size of a signed byte
abbrev pub size_of : (b : ℕ) → ℕ
size_of b = if ltb b 128 then b else 256 - b

-- What a size stands for: 1.4 times as much in a quick movement
abbrev pub distance : (quick : Bool) → (size f : ℕ) → ℕ
distance quick size f = if quick then size * f * 14 / 10 else size * f

-- A movement is quick with a byte of more than 5.
pub fast_size : (b : ℕ) → b < 256 → fast (extended b) ≡ ltb 5 (size_of b)
unfolding fast extended
fast_size b h = ground arith

pub scaled_forward :
    (quick : Bool) (b f : ℕ)
    → b < 128
    → f ≤ 500
    → (distance quick b f ≤ 89600) × (scaled quick (extended b) f ≡ distance quick b f)
unfolding scaled
scaled_forward true b f h hf =
    let (most, eq) = product_forward b f h hf in
    (omega (arith, most), ap (λ x. quotient (u32 (x * 14)) 10) eq ∙ quick_forward (b * f) most)
scaled_forward false b f h hf =
    let (most, eq) = product_forward b f h hf in (omega (arith, most), eq)

pub scaled_back :
    (quick : Bool) (b f : ℕ)
    → 128 ≤ b
    → b < 256
    → f ≤ 500
    → (distance quick (256 - b) f ≤ 89600)
      × (scaled quick (extended b) f ≡ u32 (2 ^ 32 - distance quick (256 - b) f))
unfolding scaled
scaled_back true b f h h' hf =
    let (most, eq) = product_back b f h h' hf in
    (omega (arith, most), ap (λ x. quotient (u32 (x * 14)) 10) eq ∙ quick_back ((256 - b) * f) most)
scaled_back false b f h h' hf =
    let (most, eq) = product_back b f h h' hf in (omega (arith, most), eq)
