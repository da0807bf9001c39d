-- ===== src/Shell/Commands/Chain.antt =====
-- Lines of commands with `&&`, and finding a command by its name.
use kernix_os.Base.{
  ℕ, zero, suc, ◌+◌, ◌≤◌, ◌<◌, false, List, [], ◌∷◌, ◌++◌, length, length-append, ◌==◌, ◌≡◌, ◌≢◌,
  refl, sym, ap, ◌∙◌, subst, arith,
}
use kernix_os.Shell.Commands.{
  skip_spaces, max_chained_cmds, amp, full, Part, take_part, chain_on, split_chain, trim_spaces,
  executed, parse_and_execute_chained,
}

-- No ampersand
abbrev pub NoAmp : List ℕ → Type 0
NoAmp [] = Unit {0}
NoAmp (c ∷ cs) = (c ≢ 38) × NoAmp cs

take_part-amp :
    (room : ℕ) (c rest : List ℕ)
    → NoAmp c
    → length c < room
    → take_part room (c ++ (38 ∷ 38 ∷ rest)) ≡ record { text = c; rest = rest; stop = amp }
unfolding take_part
take_part-amp zero c rest n h = absurd (omega arith)
take_part-amp (suc room) [] rest n h = refl
take_part-amp (suc room) (x ∷ c) rest n h =
    let other : (x == 38) ≡ false = ground arith in
    rw other (
      ap (λ (p : Part). record p { text = x ∷ p.text })
        (take_part-amp room c rest n.1 (omega arith)))

take_part-full :
    (room : ℕ) (c : List ℕ)
    → NoAmp c
    → length c ≤ room
    → take_part room c ≡ record { text = c; rest = []; stop = full }
unfolding take_part
take_part-full zero [] n h = refl
take_part-full zero (x ∷ c) n h = absurd (omega arith)
take_part-full (suc room) [] n h = refl
take_part-full (suc room) (x ∷ c) n h =
    let other : (x == 38) ≡ false = ground arith in
    rw other
      (ap (λ (p : Part). record p { text = x ∷ p.text }) (take_part-full room c n.1 (omega arith)))

-- A command as it is passed on: it begins with no blank, and its trailing blanks are cut.
pub record IsCommand (c : List ℕ) : Type 0 where
  pub first : ℕ
  pub others : List ℕ
  pub shape : c ≡ first ∷ others
  pub no_blank : first ≢ 32
  pub no_amp : NoAmp c
  pub short : length c < 255
  pub trimmed : trim_spaces c ≡ c

abbrev pub AreCommands : List (List ℕ) → Type 0
AreCommands [] = Unit {0}
AreCommands (c ∷ cs) = IsCommand c × AreCommands cs

-- The commands with `&&` between them
abbrev pub joined : List (List ℕ) → List ℕ
joined [] = []
joined (c ∷ []) = c
joined (c ∷ d ∷ cs) = c ++ (38 ∷ 38 ∷ joined (d ∷ cs))

skip_first : (x : ℕ) (xs : List ℕ) → x ≢ 32 → skip_spaces (x ∷ xs) ≡ x ∷ xs
unfolding skip_spaces
skip_first x xs ne = let other : (x == 32) ≡ false = ground arith in rw other

split_one :
    (left i x : ℕ) (junk : ℕ → List ℕ) (xs : List ℕ)
    → x ≢ 32
    → NoAmp (x ∷ xs)
    → length (x ∷ xs) < 255
    → split_chain (suc left) i junk (x ∷ xs) ≡ (x ∷ xs) ∷ []
unfolding split_chain chain_on
split_one left i x junk xs ne n h =
    rw (skip_first x xs ne) (rw (take_part-full 255 (x ∷ xs) n (omega arith)))

split_more :
    (left i x : ℕ) (junk : ℕ → List ℕ) (xs rest : List ℕ)
    → x ≢ 32
    → NoAmp (x ∷ xs)
    → length (x ∷ xs) < 255
    → 0 < length rest
    → split_chain (suc left) i junk ((x ∷ xs) ++ (38 ∷ 38 ∷ rest))
      ≡ (x ∷ xs) ∷ split_chain left (i + 1) junk rest
unfolding split_chain chain_on
split_more left i x junk xs rest ne n h pos =
    let some_left : (length rest == 0) ≡ false = ground arith in
    rw (skip_first x (xs ++ (38 ∷ 38 ∷ rest)) ne)
      (rw (take_part-amp 255 (x ∷ xs) rest n (omega arith)) (rw some_left))

joined_pos : (c : List ℕ) (cs : List (List ℕ)) → IsCommand c → 0 < length (joined (c ∷ cs))
joined_pos c [] k = omega (arith, ap length k.shape)
joined_pos c (d ∷ cs) k = omega (arith, length-append c (38 ∷ 38 ∷ joined (d ∷ cs)))

split_chain-joined :
    (left i : ℕ) (junk : ℕ → List ℕ) (c : List ℕ) (cs : List (List ℕ))
    → AreCommands (c ∷ cs)
    → length (c ∷ cs) ≤ left
    → split_chain left i junk (joined (c ∷ cs)) ≡ c ∷ cs
split_chain-joined zero i junk c cs k h = absurd (omega arith)
split_chain-joined (suc left) i junk c [] (k, ks) h =
    subst (λ d. split_chain (suc left) i junk d ≡ d ∷ []) (sym k.shape)
      (split_one left i k.first junk k.others k.no_blank (subst NoAmp k.shape k.no_amp)
        (omega (arith, ap length k.shape, k.short)))
split_chain-joined (suc left) i junk c (d ∷ cs) (k, ks) h =
    subst
      (λ e.
        split_chain (suc left) i junk (e ++ (38 ∷ 38 ∷ joined (d ∷ cs)))
        ≡ e ∷ split_chain left (i + 1) junk (joined (d ∷ cs)))
      (sym k.shape)
      (split_more left i k.first junk k.others (joined (d ∷ cs)) k.no_blank
        (subst NoAmp k.shape k.no_amp) (omega (arith, ap length k.shape, k.short))
        (joined_pos d cs ks.0))
    ∙ ap (λ r. c ∷ r) (split_chain-joined left (i + 1) junk d cs ks (omega arith))

executed-commands : (cs : List (List ℕ)) → AreCommands cs → executed cs ≡ cs
unfolding executed
executed-commands [] k = refl
executed-commands (c ∷ cs) (k, ks) =
    let nonempty : (length c == 0) ≡ false = ground (arith, ap length k.shape) in
    rw (k.trimmed) (rw nonempty (ap (λ r. c ∷ r) (executed-commands cs ks)))

-- A line of one to eight commands with `&&` between them, each shorter than 255 bytes, without an
-- ampersand and without a blank at its ends, leads to the calls of just these commands in their order.
pub parse_and_execute_chained-joined :
    (junk : ℕ → List ℕ) (c : List ℕ) (cs : List (List ℕ))
    → AreCommands (c ∷ cs)
    → length (c ∷ cs) ≤ max_chained_cmds
    → parse_and_execute_chained junk (joined (c ∷ cs)) ≡ c ∷ cs
unfolding parse_and_execute_chained
parse_and_execute_chained-joined junk c cs k h =
    ap executed (split_chain-joined max_chained_cmds 0 junk c cs k h) ∙ executed-commands (c ∷ cs) k
