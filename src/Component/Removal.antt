-- ===== src/Component/Removal.antt =====
-- Searching and removing by name in the registry.
use kernix_os.Base.{
  ℕ, suc, ◌+◌, ◌-◌, ◌≡◌, refl, ◌≢◌, ◌∙◌, ap, sym, subst, Bool, false, not, ◌&&◌, Option, none, some,
  List, [], ◌∷◌, ◌++◌, length, get_or, set, replicate, shift_down, last_of, get_or-at, set-at,
  shift_down-at, length-append, snoc, length-snoc, ◌==◌, if◌then◌else◌, arith, Bool-cases, inl, inr,
}
use mathlib.Core.List.{append_assoc}
use kernix_os.Component.{
  Components, named, search_from, remove_index, remove_component, handler_at, locate_component,
}
use kernix_os.Component.Registry.{Registered}

module _ (identifier_of : ℕ → Option (List ℕ)) (identifier : List ℕ) where
  abbrev pub is_named : ℕ → Bool
  is_named h = not (h == 0) && named identifier (identifier_of h)

  -- The first handler of the name, and 0 if there is none
  abbrev pub first_named : List ℕ → ℕ
  first_named [] = 0
  first_named (h ∷ hs) = if is_named h then h else first_named hs

  -- The others
  abbrev pub without : List ℕ → List ℕ
  without [] = []
  without (h ∷ hs) = if is_named h then hs else h ∷ without hs

  -- Where the search stops
  abbrev Found : List ℕ → List ℕ → Option ℕ → Type 0
  Found done todo none = (first_named todo ≡ 0) × (without todo ≡ todo)
  Found done todo (some i) =
      (before : List ℕ) × (h : ℕ) × (after : List ℕ) × (done ++ todo ≡ before ++ (h ∷ after))
      × (i ≡ length before)
      × (first_named todo ≡ h)
      × (done ++ without todo ≡ before ++ after)
      × (h ≢ 0)

  search_from-step :
      (n : ℕ) (done rest : List ℕ) (x : ℕ)
      → search_from identifier_of n (length done + 1) identifier (done ++ (x ∷ rest))
        ≡ search_from identifier_of n
            (length (done ++ (x ∷ [])))
            identifier
            ((done ++ (x ∷ [])) ++ rest)
  search_from-step n done rest x =
      ap (λ i. search_from identifier_of n i identifier (done ++ (x ∷ rest)))
        (sym (length-snoc done x))
      ∙ ap (search_from identifier_of n (length (done ++ (x ∷ []))) identifier)
          (sym (snoc done x rest))

  Found-snoc :
      (done todo : List ℕ) (x : ℕ) (r : Option ℕ)
      → is_named x ≡ false
      → Found (done ++ (x ∷ [])) todo r
      → Found done (x ∷ todo) r
  Found-snoc done todo x none e f = (simp e f.0, simp e (ap (λ l. x ∷ l) f.1))
  Found-snoc done todo x (some i) e (before, h, after, all, at, first, rest, ne) = (
    before,
    h,
    after,
    sym (snoc done x todo) ∙ all,
    at,
    simp e first,
    simp e (sym (snoc done x (without todo)) ∙ rest),
    ne,
  )

  search_from-Found :
      (done todo rest : List ℕ)
      → Found done todo (
          search_from identifier_of (length todo) (length done) identifier (done ++ (todo ++ rest)))
  unfolding search_from
  search_from-Found done [] rest = (refl, refl)
  search_from-Found done (x ∷ todo) rest =
      let at = get_or-at done x (todo ++ rest) 0 in
      let here : is_named (get_or (done ++ (x ∷ (todo ++ rest))) (length done) 0) ≡ is_named x =
        ap is_named at in
      elim (Bool-cases (is_named x)) [
        | inl found ↦
            rw (here, found)
              (done, x, todo, refl, refl, simp found refl, simp found refl, ground arith)
        | inr other ↦
            rw (here, other)
              (Found-snoc done todo x _ other (
                subst (Found (done ++ (x ∷ [])) todo)
                  (sym (search_from-step (length todo) done (todo ++ rest) x))
                  (search_from-Found (done ++ (x ∷ [])) todo rest)))
      ]

  stops_at :
      (live : List ℕ) (r : Components)
      → Registered r live
      → Found [] live (search_from identifier_of r.handler_total 0 identifier r.registered_handlers)
  stops_at live r s =
      subst (Found [] live)
        (sym (
          ap (λ n. search_from identifier_of n 0 identifier r.registered_handlers) s.counted
          ∙ ap (search_from identifier_of (length live) 0 identifier) s.content))
        (search_from-Found [] live (replicate s.free 0))

  remove_index-Registered :
      (before : List ℕ) (h : ℕ) (after : List ℕ) (r : Components)
      → Registered r (before ++ (h ∷ after))
      → Registered (remove_index (some (length before)) r) (before ++ after)
        × (get_or r.registered_handlers (length before) 0 ≡ h)
  unfolding remove_index
  remove_index-Registered before h after r s =
      let len = length-append before (h ∷ after) in
      let len' = length-append before after in
      let behind : r.handler_total - 1 - length before ≡ length after = omega (arith, s.counted) in
      let last : r.handler_total - 1 ≡ length (before ++ after) = omega (arith, s.counted) in
      let nulls = replicate s.free 0 in
      let shape : r.registered_handlers ≡ before ++ (h ∷ (after ++ nulls)) =
        s.content ∙ append_assoc before (h ∷ after) nulls in
      (
        record {
          free = s.free + 1;
          content =
              ap
                (λ n.
                  set (shift_down 0 n (length before) r.registered_handlers) (r.handler_total - 1)
                    0)
                behind
              ∙ ap
                  (λ n. set (shift_down 0 (length after) (length before) r.registered_handlers) n 0)
                  last
              ∙ ap
                  (λ xs.
                    set (shift_down 0 (length after) (length before) xs) (length (before ++ after))
                      0)
                  shape
              ∙ ap (λ xs. set xs (length (before ++ after)) 0)
                  (shift_down-at 0 h before after nulls)
              ∙ ap (λ xs. set xs (length (before ++ after)) 0)
                  (sym (append_assoc before after (last_of h after ∷ nulls)))
              ∙ set-at (before ++ after) (last_of h after) 0 nulls
              ∙ ap (λ n. (before ++ after) ++ replicate n 0) more;
          counted = last;
          limit = omega (arith, s.limit);
        },
        ap (λ xs. get_or xs (length before) 0) shape ∙ get_or-at before h (after ++ nulls) 0,
      )
    where
      more : suc s.free ≡ s.free + 1
      more = omega arith

  -- With `live` registered, `locate_component` gives the first handler of the name, and NULL if no
  -- handler has it.
  pub locate_component-first_named :
      (live : List ℕ) (r : Components)
      → Registered r live
      → locate_component identifier_of identifier r ≡ first_named live
  unfolding locate_component handler_at
  locate_component-first_named live r s =
      located (search_from identifier_of r.handler_total 0 identifier r.registered_handlers)
        (stops_at live r s)
    where
      located : (o : Option ℕ) → Found [] live o → handler_at o r ≡ first_named live
      located none f = sym f.0
      located (some i) (before, h, after, all, at, first, _, _) =
          let (_, here) = remove_index-Registered before h after r (subst (Registered r) all s) in
          ap (λ n. get_or r.registered_handlers n 0) at ∙ here ∙ sym first

  abbrev pub Removed : List ℕ → Components → Components → Type 0
  Removed live r r' =
      Registered r' (without live)
      × (first_named live ≡ 0 → r' ≡ r)
      × (first_named live ≢ 0 → r'.shut_down ≡ first_named live ∷ r.shut_down)

  -- With `live` registered, `remove_component` leaves all handlers but the first of the name; that one
  -- is shut down, and if no handler has the name, nothing changes.
  pub remove_component-Removed :
      (live : List ℕ) (r : Components)
      → Registered r live
      → Removed live r (remove_component identifier_of identifier r)
  unfolding remove_component remove_index
  remove_component-Removed live r s =
      removed (search_from identifier_of r.handler_total 0 identifier r.registered_handlers)
        (stops_at live r s)
    where
      removed : (o : Option ℕ) → Found [] live o → Removed live r (remove_index o r)
      removed none f = (subst (Registered r) (sym f.1) s, (λ e. refl), λ ne. absurd (ne f.0))
      removed (some i) (before, h, after, all, at, first, rest, ne) =
          let (left, here) =
            remove_index-Registered before h after r (subst (Registered r) all s) in
          (
            subst (λ n. Registered (remove_index (some n) r) (without live)) (sym at)
                (subst (Registered (remove_index (some (length before)) r)) (sym rest) left),
            (λ null. absurd (ne (sym first ∙ null))),
            λ some_handler.
                ap (λ x. x ∷ r.shut_down)
                  (ap (λ n. get_or r.registered_handlers n 0) at ∙ here ∙ sym first),
          )
