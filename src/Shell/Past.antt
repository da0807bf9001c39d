-- ===== src/Shell/Past.antt =====
-- The history of the console.
use kernix_os.Base.{
  ℕ, ◌≤◌, ◌<◌, true, false, ◌&&◌, Bool-cases, inl, inr, List, [], ◌∷◌, ◌++◌, length, drop,
  length-append, length-drop, ltb, ◌==◌, if◌then◌else◌, ◌≡◌, ◌≢◌, refl, sym, ◌∙◌, arith,
}
use kernix_os.Str.{str_len, str_equals}
use kernix_os.Str.Compare.{IsString, str_equals_iff}
use kernix_os.Shell.{max_history, last_or, add_to_history}

-- Every line is a string that is not empty, and no line follows itself.
abbrev pub IsLines : List (List ℕ) → Type 0
IsLines [] = Unit {0}
IsLines (l ∷ []) = IsString l × (l ≢ [])
IsLines (l ∷ m ∷ ls) = IsString l × (l ≢ []) × (l ≢ m) × IsLines (m ∷ ls)

pub record IsHistory (h : List (List ℕ)) : Type 0 where
  pub lines : IsLines h
  pub few : length h ≤ max_history

IsLines-tail : (l : List ℕ) (ls : List (List ℕ)) → IsLines (l ∷ ls) → IsLines ls
IsLines-tail l [] h = tt
IsLines-tail l (m ∷ ls) h = h.3

IsLines-drop : (ls : List (List ℕ)) → IsLines ls → IsLines (drop 1 ls)
IsLines-drop [] h = tt
IsLines-drop (l ∷ ls) h = IsLines-tail l ls h

IsLines-snoc :
    (l : List ℕ) (ls : List (List ℕ)) (c : List ℕ)
    → IsLines (l ∷ ls)
    → IsString c
    → c ≢ []
    → last_or l ls ≢ c
    → IsLines (l ∷ (ls ++ (c ∷ [])))
unfolding last_or
IsLines-snoc l [] c h str ne last = (h.0, h.1, last, (str, ne))
IsLines-snoc l (m ∷ ls) c h str ne last = (h.0, h.1, h.2, IsLines-snoc m ls c h.3 str ne last)

last-IsString' : (l : List ℕ) (ls : List (List ℕ)) → IsLines (l ∷ ls) → IsString (last_or l ls)
unfolding last_or
last-IsString' l [] h = h.0
last-IsString' l (m ∷ ls) h = last-IsString' m ls h.3

pub last_or-append : (d : List ℕ) (ls : List (List ℕ)) (c : List ℕ) → last_or d (ls ++ (c ∷ [])) ≡ c
unfolding last_or
last_or-append d [] c = refl
last_or-append d (l ∷ ls) c = last_or-append l ls c

-- The lines that a new one is put behind, in a full history and in another
abbrev pub kept : List (List ℕ) → List (List ℕ)
kept h = if ltb (length h) max_history then h else drop 1 h

-- What a line does to the history
pub record Remembered (command : List ℕ) (h r : List (List ℕ)) : Type 0 where
  pub history : IsHistory r
  pub empty : command ≡ [] → r ≡ h
  pub latest : command ≢ [] → last_or [] r ≡ command
  pub same : last_or [] h ≡ command → r ≡ h
  pub added : command ≢ [] → last_or [] h ≢ command → r ≡ kept h ++ (command ∷ [])

IsLines-append :
    (ls : List (List ℕ)) (c : List ℕ)
    → IsLines ls
    → IsString c
    → c ≢ []
    → last_or [] ls ≢ c
    → IsLines (ls ++ (c ∷ []))
unfolding last_or
IsLines-append [] c h str ne last = (str, ne)
IsLines-append (l ∷ ls) c h str ne last = IsLines-snoc l ls c h str ne last

last-drop : (g : List (List ℕ)) → 2 ≤ length g → last_or [] (drop 1 g) ≡ last_or [] g
unfolding last_or
last-drop [] le = absurd (omega arith)
last-drop (l ∷ []) le = absurd (omega arith)
last-drop (l ∷ m ∷ g) le = refl

last-kept : (h : List (List ℕ)) → last_or [] (kept h) ≡ last_or [] h
last-kept h = elim (Bool-cases (ltb (length h) max_history)) [
  | inl e ↦ rw e
  | inr e ↦ rw e (last-drop h (ground arith))
]

IsLines-kept : (h : List (List ℕ)) → IsLines h → IsLines (kept h)
IsLines-kept h i = elim (Bool-cases (ltb (length h) max_history)) [
  | inl e ↦ rw e i
  | inr e ↦ rw e (IsLines-drop h i)
]

length-kept : (h : List (List ℕ)) → length h ≤ max_history → length (kept h) < max_history
length-kept h le = ground (arith, length-drop 1 h)

last-IsString : (h : List (List ℕ)) → IsLines h → IsString (last_or [] h)
unfolding last_or
last-IsString [] i = tt
last-IsString (l ∷ ls) i = last-IsString' l ls i

str_len_pos : (c : List ℕ) → c ≢ [] → (str_len c == 0) ≡ false
unfolding str_len
str_len_pos [] ne = absurd (ne refl)
str_len_pos (x ∷ c) ne = ground arith

add-append :
    (command : List ℕ) (h : List (List ℕ))
    → command ≢ []
    → (ltb 0 (length h) && str_equals (last_or [] h) command) ≡ false
    → add_to_history command h ≡ kept h ++ (command ∷ [])
unfolding add_to_history
add-append command h ne e = rw (str_len_pos command ne) (rw e (ground arith))

nonempty_last : (h : List (List ℕ)) → last_or [] h ≢ [] → ltb 0 (length h) ≡ true
unfolding last_or
nonempty_last [] ne = absurd (ne refl)
nonempty_last (l ∷ ls) ne = ground arith

add-same :
    (command : List ℕ) (h : List (List ℕ))
    → (ltb 0 (length h) && str_equals (last_or [] h) command) ≡ true
    → add_to_history command h ≡ h
unfolding add_to_history
add-same command h e = ground (arith)

add-empty : (h : List (List ℕ)) → add_to_history [] h ≡ h
unfolding add_to_history str_len
add-empty h = refl

module _ (command : List ℕ) (h : List (List ℕ)) (i : IsHistory h) (str : IsString command) where
  Remembered-same :
      command ≢ [] → last_or [] h ≡ command → Remembered command h (add_to_history command h)
  Remembered-same ne e =
      let eq : str_equals (last_or [] h) command ≡ true =
        (str_equals_iff (last_or [] h) command (last-IsString h i.lines) str).1 e in
      let some_line : ltb 0 (length h) ≡ true = nonempty_last h (λ z. ne (sym e ∙ z)) in
      rw (add-same command h (ground arith)) (record {
        history = i;
        empty = λ z. absurd (ne z);
        latest = λ _. e;
        same = λ _. refl;
        added = λ _ ne'. absurd (ne' e);
      })

  Remembered-new :
      command ≢ []
      → (ltb 0 (length h) && str_equals (last_or [] h) command) ≡ false
      → last_or [] h ≢ command
      → Remembered command h (add_to_history command h)
  Remembered-new ne t ne' = rw (add-append command h ne t) (record {
    history = record {
      lines =
          IsLines-append (kept h) command (IsLines-kept h i.lines) str ne
            (λ z. ne' (sym (last-kept h) ∙ z));
      few = omega (arith, length-append (kept h) (command ∷ []), length-kept h i.few);
    };
    empty = λ z. absurd (ne z);
    latest = λ _. last_or-append [] (kept h) command;
    same = λ e. absurd (ne' e);
    added = λ _ _. refl;
  })

remember :
    (command : List ℕ) (h : List (List ℕ))
    → IsHistory h
    → IsString command
    → command ≢ []
    → Remembered command h (add_to_history command h)
remember command h i str ne =
    elim (Bool-cases (ltb 0 (length h) && str_equals (last_or [] h) command)) [
      | inl t ↦
          Remembered-same command h i str ne
            ((str_equals_iff (last_or [] h) command (last-IsString h i.lines) str).0 (ground arith))
      | inr f ↦ Remembered-new command h i str ne f (λ e. differs e f)
    ]
  where
    differs :
        last_or [] h ≡ command → (ltb 0 (length h) && str_equals (last_or [] h) command) ≡ false → ⊥
    differs e f =
        let eq : str_equals (last_or [] h) command ≡ true =
          (str_equals_iff (last_or [] h) command (last-IsString h i.lines) str).1 e in
        let some_line : ltb 0 (length h) ≡ true = nonempty_last h (λ z. ne (sym e ∙ z)) in
        ground arith

-- The history keeps at most 50 lines, none empty and none equal to the one before it. A line that is
-- not empty is the latest one afterwards: it changes nothing if it was the latest before, and is put
-- behind the others if not, of which a full history loses the oldest. An empty line changes nothing.
pub add_to_history-Remembered :
    (command : List ℕ) (h : List (List ℕ))
    → IsHistory h
    → IsString command
    → Remembered command h (add_to_history command h)
add_to_history-Remembered [] h i str = rw (add-empty h) (record {
  history = i;
  empty = λ _. refl;
  latest = λ ne. absurd (ne refl);
  same = λ _. refl;
  added = λ ne _. absurd (ne refl);
})
add_to_history-Remembered (c ∷ command) h i str = remember (c ∷ command) h i str (λ e. cc)
