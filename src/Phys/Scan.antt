-- ===== src/Phys/Scan.antt =====
-- The search loop of `physmem_alloc_to` is a first-fit search: it finds the lowest run of free frames
-- that is long enough, and fails only where there is none.
use kernix_os.Base.{
  ℕ, zero, suc, ◌+◌, ◌≤◌, ◌<◌, ◌≡◌, refl, ◌≢◌, inl, inr, true, false, Option, none, some, List,
  arith, leb, leb→le, ltb, ltb→lt, ◌==◌, if◌then◌else◌, Bool-cases,
}
use kernix_os.Phys.{bitmap_test, scan}

-- All of the `count` frames from `start` on are free.
abbrev pub FreeRun : List ℕ → ℕ → ℕ → Type 0
FreeRun bitmap start count = (i : ℕ) → start ≤ i → i < start + count → bitmap_test bitmap i ≡ false

-- What the search says of the frames from `from` up to `end`.
abbrev pub FirstFit : List ℕ → ℕ → ℕ → ℕ → Option ℕ → Type 0
FirstFit bitmap count from end none =
    (s : ℕ) → from ≤ s → s + count ≤ end → ¬ FreeRun bitmap s count
FirstFit bitmap count from end (some start) =
    (from ≤ start)
    × (start + count ≤ end)
    × FreeRun bitmap start count
    × ((s : ℕ) → from ≤ s → s < start → ¬ FreeRun bitmap s count)

-- The loop's invariant at `frame`: the last `consecutive` frames are free, they begin at
-- `start_frame`, and no run that begins before them fits.
pub record Scanning (bitmap : List ℕ) (count from frame consecutive start_frame : ℕ) : Type 0 where
  begins : consecutive ≢ 0 → start_frame + consecutive ≡ frame
  enough : consecutive < count
  ahead : from + consecutive ≤ frame
  free : (i : ℕ) → frame ≤ i + consecutive → i < frame → bitmap_test bitmap i ≡ false
  none_before : (s : ℕ) → from ≤ s → s + consecutive < frame → ¬ FreeRun bitmap s count

module _ (bitmap : List ℕ) (count from : ℕ) where
  abbrev next_start : (frame consecutive start_frame : ℕ) → ℕ
  next_start frame c sf = if c == 0 then frame else sf

  module _ {frame c sf : ℕ} (inv : Scanning bitmap count from frame c sf) where
    next_start-add : next_start frame c sf + c ≡ frame
    next_start-add = ground (arith, inv.begins)

    -- a free frame lengthens the run
    extend :
        bitmap_test bitmap frame ≡ false
        → c + 1 < count
        → Scanning bitmap count from (frame + 1) (c + 1) (next_start frame c sf)
    extend unused more = record {
      begins = λ _. omega (arith, next_start-add);
      enough = more;
      ahead = omega (arith, inv.ahead);
      free = λ i lo hi. elim (Bool-cases (i == frame)) [
        | inl e ↦ ground arith
        | inr e ↦ inv.free i (omega arith) (ground arith)
      ];
      none_before = λ s lo hi. inv.none_before s lo (omega arith);
    }

    -- a used frame rules out every run through it
    restart : bitmap_test bitmap frame ≡ true → Scanning bitmap count from (frame + 1) 0 sf
    restart taken = record {
      begins = λ ne. absurd (ne refl);
      enough = omega (arith, inv.enough);
      ahead = omega (arith, inv.ahead);
      free = λ i lo hi. absurd (omega arith);
      none_before = λ s lo hi run. elim (Bool-cases (ltb (s + c) frame)) [
        | inl e ↦ inv.none_before s lo (ltb→lt _ _ e) run
        | inr e ↦ cc (run frame (omega arith) (ground (arith, inv.enough)))
      ];
    }

    complete :
        (rounds : ℕ)
        → bitmap_test bitmap frame ≡ false
        → count ≤ c + 1
        → FirstFit bitmap count from (frame + suc rounds) (some (next_start frame c sf))
    complete rounds unused last = (
      omega (arith, next_start-add, inv.ahead),
      omega (arith, next_start-add, inv.enough),
      (λ i lo hi. elim (Bool-cases (i == frame)) [
        | inl e ↦ ground arith
        | inr e ↦
            inv.free i (omega (arith, next_start-add)) (ground (arith, next_start-add, inv.enough))
      ]),
      λ s lo hi. inv.none_before s lo (omega (arith, next_start-add)),
    )

  scan-FirstFit :
      (rounds frame c sf end : ℕ)
      → Scanning bitmap count from frame c sf
      → frame + rounds ≡ end
      → FirstFit bitmap count from end (scan count bitmap rounds frame c sf)
  unfolding scan
  scan-FirstFit zero frame c sf end inv e =
      λ s lo hi. inv.none_before s lo (omega (arith, inv.enough))
  scan-FirstFit (suc rounds) frame c sf end inv e = elim (Bool-cases (bitmap_test bitmap frame)) [
    | inl taken ↦
        rw taken (scan-FirstFit rounds (frame + 1) 0 sf end (restart inv taken) (omega arith))
    | inr unused ↦ elim (Bool-cases (leb count (c + 1))) [
      | inl last ↦ rw (unused, last, ← e) (complete inv rounds unused (leb→le _ _ last))
      | inr more ↦
          rw (unused, more)
            (scan-FirstFit rounds (frame + 1) (c + 1) (next_start frame c sf) end
              (extend inv unused (ground arith)) (omega arith))
    ]
  ]

-- The search from `from` over `rounds` frames, as `physmem_alloc_to` starts it.
pub scan-FirstFit' :
    (bitmap : List ℕ) (count rounds from : ℕ)
    → 0 < count
    → FirstFit bitmap count from (from + rounds) (scan count bitmap rounds from 0 0)
scan-FirstFit' bitmap count rounds from pos =
    scan-FirstFit bitmap count from rounds from 0 0 (from + rounds)
      (record {
        begins = λ ne. absurd (ne refl);
        enough = pos;
        ahead = omega arith;
        free = λ i lo hi. absurd (omega arith);
        none_before = λ s lo hi. absurd (omega arith);
      })
      refl
