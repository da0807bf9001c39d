-- ===== src/Lkm/Table.antt =====
-- The table is a list of modules: unloading takes out the first of a name and calls what it must, and
-- loading leaves the `exit` function of whatever stood in the place before.
use kernix_os.Base.{
  ℕ, ◌+◌, ◌-◌, ◌<◌, ◌≡◌, refl, ◌∙◌, ap, sym, subst, Bool, true, false, some, List, [], ◌∷◌, ◌++◌,
  length, get_or, set, shift_down, last_of, get_or-at, set-at, shift_down-at, snoc, length-snoc,
  leb, if◌then◌else◌, arith, Bool-cases, inl, inr,
}
use kernix_os.Str.{str_equals}
use kernix_os.Lkm.{
  LkmModule, Lkms, blank_module, Image, load_entry, load_image, lkm_load, leave_calls, unload_at,
  unload_from, lkm_unload,
}

-- The modules `done` and then `todo` are loaded, and `stale` is behind them in the array.
pub record Loaded (s : Lkms) (done todo stale : List LkmModule) : Type 0 where
  pub content : s.loaded_lkms ≡ done ++ (todo ++ stale)
  pub counted : s.lkm_count ≡ length done + length todo

-- The modules that stay, behind `done`, the calls of the one that goes, and what is then stale
abbrev pub Unloaded : Lkms → List ℕ → (done todo stale : List LkmModule) → Bool × Lkms → Type 0
Unloaded s name done [] stale (found, s') = (found ≡ false) × (s' ≡ s)
Unloaded s name done (m ∷ todo) stale r =
    if str_equals m.name name
    then (r.0 ≡ true)
      × Loaded r.1 done todo (last_of m todo ∷ stale)
      × (r.1.calls ≡ leave_calls m s.calls)
    else Unloaded s name (done ++ (m ∷ [])) todo stale r

unload_from-Unloaded :
    (name : List ℕ) (s : Lkms) (done todo stale : List LkmModule)
    → Loaded s done todo stale
    → Unloaded s name done todo stale (unload_from (length todo) (length done) name s)
unfolding unload_from unload_at
unload_from-Unloaded name s done [] stale l = (refl, refl)
unload_from-Unloaded name s done (m ∷ todo) stale l =
    let at : get_or s.loaded_lkms (length done) blank_module ≡ m =
      ap (λ xs. get_or xs (length done) blank_module) l.content
      ∙ get_or-at done m (todo ++ stale) blank_module in
    let same : str_equals (get_or s.loaded_lkms (length done) blank_module).name name
        ≡ str_equals m.name name =
      ap (λ x. str_equals x.name name) at in
    let behind : s.lkm_count - 1 - length done ≡ length todo = omega (arith, l.counted) in
    elim (Bool-cases (str_equals m.name name)) [
      | inl found ↦
          rw (same, found)
            (
              refl,
              record {
                content =
                    ap (λ n. shift_down blank_module n (length done) s.loaded_lkms) behind
                    ∙ ap (shift_down blank_module (length todo) (length done)) l.content
                    ∙ shift_down-at blank_module m done todo stale;
                counted = omega (arith, l.counted);
              },
              ap (λ x. leave_calls x s.calls) at,
            )
      | inr other ↦
          rw (same, other)
            (subst
              (λ n.
                Unloaded s name (done ++ (m ∷ [])) todo stale (unload_from (length todo) n name s))
              (length-snoc done m)
              (unload_from-Unloaded name s (done ++ (m ∷ [])) todo stale (record {
                content = l.content ∙ sym (snoc done m (todo ++ stale));
                counted = omega (arith, l.counted, length-snoc done m);
              })))
    ]

-- With `live` loaded, `lkm_unload` takes out the first module of the name, whose `exit` is called and
-- whose memory is freed where these are not NULL, and the others stay in order; without a module of
-- the name it fails and changes nothing.
pub lkm_unload-Unloaded :
    (name : List ℕ) (s : Lkms) (live stale : List LkmModule)
    → Loaded s [] live stale
    → Unloaded s name [] live stale (lkm_unload name s)
unfolding lkm_unload
lkm_unload-Unloaded name s live stale l =
    let all : s.lkm_count ≡ length live = omega (arith, l.counted) in
    subst (λ n. Unloaded s name [] live stale (unload_from n 0 name s)) (sym all)
      (unload_from-Unloaded name s [] live stale l)

-- With `live` loaded and fewer than 256 modules, a load that succeeds puts the image behind the
-- others, in `load_entry` with the `exit` function of the entry that stood in its place.
pub lkm_load_keeps_exit :
    (s : Lkms) (live stale : List LkmModule) (old : LkmModule) (i : Image)
    → Loaded s [] live (old ∷ stale)
    → length live < 256
    → let r = lkm_load (some i) 0 s in
      (r.0 ≡ true) × Loaded r.1 [] (live ++ (load_entry i old ∷ [])) stale
unfolding lkm_load load_image
lkm_load_keeps_exit s live stale old i l lt =
    let all : s.lkm_count ≡ length live = omega (arith, l.counted) in
    let room : leb 256 s.lkm_count ≡ false = ground arith in
    let at : get_or s.loaded_lkms s.lkm_count blank_module ≡ old =
      ap get_or_at_count all
      ∙ ap (λ xs. get_or xs (length live) blank_module) l.content
      ∙ get_or-at live old stale blank_module in
    let new = load_entry i old in
    let entry : load_entry i (get_or s.loaded_lkms s.lkm_count blank_module) ≡ new =
      ap (load_entry i) at in
    rw room (
      refl,
      record {
        content =
            ap (set s.loaded_lkms s.lkm_count) entry
            ∙ ap (λ n. set s.loaded_lkms n new) all
            ∙ ap (λ xs. set xs (length live) new) l.content
            ∙ set-at live old new stale
            ∙ sym (snoc live new stale);
        counted = omega (arith, length-snoc live new);
      },
    )
  where
    get_or_at_count : ℕ → LkmModule
    get_or_at_count n = get_or s.loaded_lkms n blank_module
