-- ===== src/Component/Registry.antt =====
-- The registry is a list of handlers: enrolling appends, removing takes out the first of a name.
use kernix_os.Base.{
  ℕ, zero, suc, ◌+◌, ◌≤◌, ◌<◌, ◌≡◌, refl, ◌≢◌, ◌⊎◌, ◌∙◌, ap, sym, Bool, true, false, ◌||◌, Option,
  none, some, List, [], ◌∷◌, ◌++◌, length, get_or, set, replicate, get_or-at, set-at, snoc,
  length-snoc, leb, ◌==◌, if◌then◌else◌, arith, Bool-cases, inl, inr,
}
use kernix_os.Component.{
  Components, component_limit, Enrolled, refused, failed, enrolled, initialize_component_system,
  known_from, start_component, enroll_component,
}

-- The handlers stand first, and NULL behind them to the end of the array.
pub record Registered (r : Components) (live : List ℕ) : Type 0 where
  pub free : ℕ
  pub content : r.registered_handlers ≡ live ++ replicate free 0
  pub counted : r.handler_total ≡ length live
  pub limit : length live + free ≡ component_limit

-- A new registry is empty.
pub initialize_component_system-Registered :
    (r : Components) → Registered (initialize_component_system r) []
unfolding initialize_component_system
initialize_component_system-Registered r = record {
  free = component_limit;
  content = refl;
  counted = refl;
  limit = refl;
}

abbrev pub member : ℕ → List ℕ → Bool
member h [] = false
member h (x ∷ xs) = if x == h then true else member h xs

known_from-step :
    (h n : ℕ) (done rest : List ℕ) (x : ℕ)
    → known_from n (length done + 1) h (done ++ (x ∷ rest))
      ≡ known_from n (length (done ++ (x ∷ []))) h ((done ++ (x ∷ [])) ++ rest)
known_from-step h n done rest x =
    ap (λ i. known_from n i h (done ++ (x ∷ rest))) (sym (length-snoc done x))
    ∙ ap (known_from n (length (done ++ (x ∷ []))) h) (sym (snoc done x rest))

known_from-member :
    (h : ℕ) (done todo rest : List ℕ)
    → known_from (length todo) (length done) h (done ++ (todo ++ rest)) ≡ member h todo
unfolding known_from
known_from-member h done [] rest = refl
known_from-member h done (x ∷ todo) rest =
    let here : (get_or (done ++ (x ∷ (todo ++ rest))) (length done) 0 == h) ≡ (x == h) =
      ap (λ y. y == h) (get_or-at done x (todo ++ rest) 0) in
    rw here (
      ap (λ b. if x == h then true else b)
        (known_from-step h (length todo) done (todo ++ rest) x
          ∙ known_from-member h (done ++ (x ∷ [])) todo rest))

added :
    (h : ℕ) (live : List ℕ) (r : Components)
    → Registered r live
    → length live < component_limit
    → Registered
        (record r {
          registered_handlers = set r.registered_handlers r.handler_total h;
          handler_total = r.handler_total + 1;
        })
        (live ++ (h ∷ []))
added h live r s lt = room_in s.free s.content s.limit
  where
    room_in :
        (free : ℕ)
        → r.registered_handlers ≡ live ++ replicate free 0
        → length live + free ≡ component_limit
        → Registered
            (record r {
              registered_handlers = set r.registered_handlers r.handler_total h;
              handler_total = r.handler_total + 1;
            })
            (live ++ (h ∷ []))
    room_in zero c e = absurd (omega arith)
    room_in (suc free) c e = record {
      free = free;
      content =
          ap (λ n. set r.registered_handlers n h) s.counted
          ∙ ap (λ xs. set xs (length live) h) c
          ∙ set-at live 0 h (replicate free 0)
          ∙ sym (snoc live h (replicate free 0));
      counted = omega (arith, s.counted, length-snoc live h);
      limit = omega (arith, length-snoc live h);
    }

-- A handler that is not NULL, in a registry that is not full and does not have it
abbrev pub Admissible : ℕ → List ℕ → Type 0
Admissible h live = (h ≢ 0) × (length live < component_limit) × (member h live ≡ false)

abbrev pub Enrolling : ℕ → List ℕ → Option ℕ → Components → Enrolled × Components → Type 0
Enrolling h live startup r (refused, r') =
    (r' ≡ r) × ((h ≡ 0) ⊎ ((256 ≤ length live) ⊎ (member h live ≡ true)))
Enrolling h live startup r (failed code, r') =
    (r' ≡ r) × (startup ≡ some code) × (code ≢ 0) × Admissible h live
Enrolling h live startup r (enrolled, r') =
    Registered r' (live ++ (h ∷ [])) × ((startup ≡ none) ⊎ (startup ≡ some 0)) × Admissible h live

start_component-Enrolling :
    (h : ℕ) (live : List ℕ) (startup : Option ℕ) (r : Components)
    → Registered r live
    → Admissible h live
    → Enrolling h live startup r (start_component h startup r)
unfolding start_component
start_component-Enrolling h live none r s new = (added h live r s new.1, inl refl, new)
start_component-Enrolling h live (some result) r s new = elim (Bool-cases (result == 0)) [
  | inl fine ↦ rw fine (added h live r s new.1, inr (ap some (ground arith)), new)
  | inr bad ↦ rw bad (refl, refl, ground arith, new)
]

-- With `live` registered, `enroll_component` refuses a NULL handler, a 257th and one that is already
-- there, and changes nothing. Only a handler that is none of these is started: the code of a `startup` that
-- fails is given and nothing changes, and a handler without `startup`, or with one that succeeds, is
-- registered behind the others.
pub enroll_component-Enrolling :
    (startup_of : ℕ → Option ℕ) (h : ℕ) (live : List ℕ) (r : Components)
    → Registered r live
    → Enrolling h live (startup_of h) r (enroll_component startup_of h r)
unfolding enroll_component
enroll_component-Enrolling startup_of h live r s =
    let known : known_from r.handler_total 0 h r.registered_handlers ≡ member h live =
      ap (λ n. known_from n 0 h r.registered_handlers) s.counted
      ∙ ap (known_from (length live) 0 h) s.content
      ∙ known_from-member h [] live (replicate s.free 0) in
    elim (Bool-cases ((h == 0) || leb component_limit r.handler_total)) [
      | inl bad ↦ rw bad (
        refl,
        elim (Bool-cases (h == 0)) [
          | inl null ↦ inl (ground arith)
          | inr pos ↦ inr (inl (ground (arith, s.counted)))
        ],
      )
      | inr room ↦ elim (Bool-cases (member h live)) [
        | inl there ↦ rw (room, known, there) (refl, inr (inr there))
        | inr new ↦
            rw (room, known, new)
              (start_component-Enrolling h live (startup_of h) r s
                (λ e. absurd (ground arith), ground (arith, s.counted), new))
      ]
    ]
