-- ===== src/Shell/Edit.antt =====
-- The editor of a line in acsh.c: what the keys do to the text before and behind the cursor.
use kernix_os.Base.{
  ℕ, zero, suc, ◌+◌, ◌-◌, ◌<◌, Bool, true, false, ◌&&◌, none, List, [], ◌∷◌, ◌++◌, length, get_or,
  set, length-append, length-set, ltb, leb, ◌==◌, if◌then◌else◌, ◌≡◌, ◌≢◌, refl, sym, ap, ◌∙◌,
  subst, arith,
}
use mathlib.Core.List.{append_assoc, append-nil}
use kernix_os.Str.{str_len}
use kernix_os.Shell.{
  Shell, Call, execute, chained, text_of, max_input_len, has_chain, line_call, handle_enter,
  add_to_history, handle_backspace, close_gap, open_gap, insert_char, console_handle_key,
}
use kernix_os.Shell.Gap.{
  HasText, HasText-append, str_len-length, text_of-append, set-at, close_gap-append,
  open_gap-append, length-open_gap, length-close_gap,
}

-- The console edits the line `left ++ right`, with the cursor between the two.
pub record Line (s : Shell) (left right : List ℕ) : Type 0 where
  pub rest : List ℕ
  pub buffer : s.input_buffer ≡ left ++ (right ++ (0 ∷ rest))
  pub pos : s.input_pos ≡ length left
  pub before : HasText left
  pub behind : HasText right
  pub size : length s.input_buffer ≡ max_input_len
  pub console : s.gui_running ≡ false
  pub no_editor : s.in_kedit ≡ false

text_of-Line :
    (s : Shell) (left right : List ℕ) → Line s left right → text_of s.input_buffer ≡ left ++ right
text_of-Line s left right l =
    ap text_of (l.buffer ∙ sym (append_assoc left right (0 ∷ l.rest)))
    ∙ text_of-append (left ++ right) l.rest (HasText-append left right l.before l.behind)

str_len-Line :
    (s : Shell) (left right : List ℕ)
    → Line s left right
    → str_len (text_of s.input_buffer) ≡ length left + length right
str_len-Line s left right l =
    ap str_len (text_of-Line s left right l)
    ∙ str_len-length (left ++ right)
    ∙ length-append left right

-- The array has a byte behind the NUL of a line that is not full.
spare :
    (rest left right : List ℕ)
    → length (left ++ (right ++ (0 ∷ rest))) ≡ max_input_len
    → length left + length right < max_input_len - 1
    → (r : ℕ) × (rest' : List ℕ) × (rest ≡ r ∷ rest')
spare [] left right e h =
    absurd (omega (arith, length-append left (right ++ (0 ∷ [])), length-append right (0 ∷ [])))
spare (r ∷ rest) left right e h = (r, rest, refl)

module _ (s : Shell) (left right : List ℕ) (l : Line s left right) where
  inserted :
      (c : ℕ)
      → length left + length right < max_input_len - 1
      → (rest' : List ℕ) × (set
            (open_gap
              (str_len (text_of s.input_buffer) + 1 - s.input_pos)
              s.input_pos
              s.input_buffer)
            s.input_pos
            c
          ≡ left ++ (c ∷ (right ++ (0 ∷ rest'))))
  inserted c h =
      let (r, rest', e) = spare l.rest left right (sym (ap length l.buffer) ∙ l.size) h in
      let rounds : str_len (text_of s.input_buffer) + 1 - s.input_pos ≡ length right + 1 =
        omega (arith, str_len-Line s left right l, l.pos) in
      (rest', rw (rounds, l.pos, l.buffer, e) (open_gap-append left right r c rest'))

  insert_char-Line :
      (c : ℕ)
      → length left + length right < max_input_len - 1
      → c ≢ 0
      → Line (insert_char c s) (left ++ (c ∷ [])) right
  unfolding insert_char
  insert_char-Line c h nz =
      let room : ltb (str_len (text_of s.input_buffer)) (max_input_len - 1) ≡ true =
        ground (arith, str_len-Line s left right l) in
      let (rest', e) = inserted c h in
      let n = str_len (text_of s.input_buffer) + 1 - s.input_pos in
      rw room (record {
        rest = rest';
        buffer = e ∙ sym (append_assoc left (c ∷ []) (right ++ (0 ∷ rest')));
        pos = omega (arith, l.pos, length-append left (c ∷ []));
        before = HasText-append left (c ∷ []) l.before (nz, tt);
        behind = l.behind;
        size =
            length-set (open_gap n s.input_pos s.input_buffer) s.input_pos c
            ∙ length-open_gap n s.input_pos s.input_buffer
            ∙ l.size;
        console = l.console;
        no_editor = l.no_editor;
      })

  fresh_pos : Line (record s { history_pos = none }) left right
  fresh_pos = record {
    rest = l.rest;
    buffer = l.buffer;
    pos = l.pos;
    before = l.before;
    behind = l.behind;
    size = l.size;
    console = l.console;
    no_editor = l.no_editor;
  }

-- A key that types a character
abbrev pub printable : ℕ → Bool
printable c = leb 32 c && leb c 126

key-printable :
    (c : ℕ) (s : Shell)
    → s.gui_running ≡ false
    → s.in_kedit ≡ false
    → printable c ≡ true
    → console_handle_key c s ≡ ([], insert_char c (record s { history_pos = none }))
unfolding console_handle_key
key-printable c s g k p = ground arith

abbrev pub AllPrintable : List ℕ → Type 0
AllPrintable [] = Unit {0}
AllPrintable (c ∷ cs) = (printable c ≡ true) × AllPrintable cs

-- The keys of a list one after the other, with all calls that they lead to
unfoldable pub type_keys : List ℕ → Shell → List Call × Shell
type_keys [] s = ([], s)
type_keys (c ∷ cs) s =
    let first = console_handle_key c s in
    let rest = type_keys cs first.1 in (first.0 ++ rest.0, rest.1)

-- On a line with room for them, the characters of printable keys come to stand before the cursor in
-- their order, the text behind the cursor stays, and nothing is called.
pub type_keys-Line :
    (keys : List ℕ) (s : Shell) (left right : List ℕ)
    → Line s left right
    → AllPrintable keys
    → length left + length right + length keys < max_input_len
    → ((type_keys keys s).0 ≡ []) × Line (type_keys keys s).1 (left ++ keys) right
unfolding type_keys
type_keys-Line [] s left right l p h = (refl, subst (λ t. Line s t right) (sym (append-nil left)) l)
type_keys-Line (c ∷ keys) s left right l p h =
    let e = key-printable c s l.console l.no_editor p.0 in
    let s' = insert_char c (record s { history_pos = none }) in
    let l' =
      insert_char-Line (record s { history_pos = none }) left right (fresh_pos s left right l) c
        (omega arith) (ground arith) in
    let later =
      type_keys-Line keys s' (left ++ (c ∷ [])) right l' p.1
        (omega (arith, length-append left (c ∷ []))) in
    subst
      (λ r.
        (r.0 ++ (type_keys keys r.1).0 ≡ [])
        × Line (type_keys keys r.1).1 (left ++ (c ∷ keys)) right)
      (sym e)
      (
        later.0,
        subst (λ t. Line (type_keys keys s').1 t right) (append_assoc left (c ∷ []) keys) later.1,
      )

-- Backspace takes the character before the cursor out of the line.
pub handle_backspace-Line :
    (s : Shell) (left : List ℕ) (c : ℕ) (right : List ℕ)
    → Line s (left ++ (c ∷ [])) right
    → Line (handle_backspace s) left right
unfolding handle_backspace
handle_backspace-Line s left c right l =
    let parts = length-append left (c ∷ []) in
    let some_left : ltb 0 s.input_pos ≡ true = ground (arith, l.pos, parts) in
    let at : s.input_pos - 1 ≡ length left = omega (arith, l.pos, parts) in
    let whole = l.buffer ∙ append_assoc left (c ∷ []) (right ++ (0 ∷ l.rest)) in
    let texts = text_split left c l.before in
    let size' = length-append left (c ∷ (right ++ (0 ∷ l.rest))) in
    let size'' = length-append right (0 ∷ l.rest) in
    let n = length s.input_buffer in
    rw some_left (record {
      rest = 0 ∷ l.rest;
      buffer =
          ap (λ i. close_gap n i s.input_buffer) at
          ∙ ap (close_gap n (length left)) whole
          ∙ close_gap-append n left c right l.rest texts.0 texts.1 l.behind
              (omega (arith, ap length whole, size', size''));
      pos = at;
      before = texts.0;
      behind = l.behind;
      size = length-close_gap n (s.input_pos - 1) s.input_buffer ∙ l.size;
      console = l.console;
      no_editor = l.no_editor;
    })
  where
    text_split : (xs : List ℕ) (d : ℕ) → HasText (xs ++ (d ∷ [])) → HasText xs × (d ≢ 0)
    text_split [] d h = (tt, h.0)
    text_split (x ∷ xs) d h = let r = text_split xs d h.1 in ((h.0, r.0), r.1)

-- The list has two ampersands in a row.
pub has_amps : List ℕ → Bool
has_amps [] = false
has_amps (c ∷ cs) = let rest = has_amps cs in if c == 38 && get_or cs 0 0 == 38 then true else rest

chain_cons : (n i x : ℕ) (b : List ℕ) → has_chain n (i + 1) (x ∷ b) ≡ has_chain n i b
unfolding has_chain
chain_cons zero i x b = refl
chain_cons (suc n) i x b =
    let e : i + 1 + 1 ≡ suc (i + 1) = omega arith in
    let e' : i + 1 ≡ suc i = omega arith in
    ground (
      arith,
      chain_cons n (i + 1) x b,
      ap (λ k. get_or (x ∷ b) k 0) e,
      ap (λ k. get_or (x ∷ b) k 0) e',
    )

has_chain-amps :
    (left ys : List ℕ) → has_chain (length left - 1) 0 (left ++ (0 ∷ ys)) ≡ has_amps left
unfolding has_chain has_amps
has_chain-amps [] ys = refl
has_chain-amps (c ∷ []) ys = ground arith
has_chain-amps (c ∷ d ∷ left) ys =
    ground
      (arith, has_chain-amps (d ∷ left) ys, chain_cons (length left) 0 c ((d ∷ left) ++ (0 ∷ ys)))

cut_at :
    (left right rest : List ℕ)
    → (ys : List ℕ) × (set (left ++ (right ++ (0 ∷ rest))) (length left) 0 ≡ left ++ (0 ∷ ys))
cut_at left [] rest = (rest, set-at left 0 0 rest)
cut_at left (d ∷ right) rest = (right ++ (0 ∷ rest), set-at left d 0 (right ++ (0 ∷ rest)))

-- What Enter leads to
pub record Entered (s : Shell) (left : List ℕ) (r : List Call × Shell) : Type 0 where
  pub called : r.0 ≡ (if has_amps left then chained left else execute left) ∷ []
  pub empty : Line r.1 [] []
  pub remembered : r.1.history ≡ add_to_history left s.history
  pub from_end : r.1.history_pos ≡ none

line_call-cut :
    (left ys : List ℕ)
    → HasText left
    → line_call (length left) (left ++ (0 ∷ ys))
      ≡ (if has_amps left then chained left else execute left)
unfolding line_call
line_call-cut left ys h = rw (has_chain-amps left ys, text_of-append left ys h)

-- Enter with text before the cursor runs just that text, as several commands if it has `&&`, and
-- remembers it; what stood behind the cursor is dropped, and the line is empty then.
pub handle_enter-Entered :
    (s : Shell) (c : ℕ) (left right : List ℕ)
    → Line s (c ∷ left) right
    → Entered s (c ∷ left) (handle_enter s)
unfolding handle_enter
handle_enter-Entered s c left right l =
    let (ys, cut) = cut_at (c ∷ left) right l.rest in
    let whole = (c ∷ left) ++ (right ++ (0 ∷ l.rest)) in
    let buffer : set s.input_buffer s.input_pos 0 ≡ (c ∷ left) ++ (0 ∷ ys) =
      ap (λ b. set b s.input_pos 0) l.buffer ∙ ap (λ p. set whole p 0) l.pos ∙ cut in
    let some_left : ltb 0 s.input_pos ≡ true = ground (arith, l.pos) in
    rw some_left (record {
      called =
          ap (λ x. x ∷ [])
            (ap (λ p. line_call p (set s.input_buffer s.input_pos 0)) l.pos
              ∙ ap (line_call (length (c ∷ left))) buffer
              ∙ line_call-cut (c ∷ left) ys l.before);
      empty = record {
        rest = left ++ (0 ∷ ys);
        buffer = ap (λ b. set b 0 0) buffer;
        pos = refl;
        before = tt;
        behind = tt;
        size =
            length-set (set s.input_buffer s.input_pos 0) 0 0
            ∙ length-set s.input_buffer s.input_pos 0
            ∙ l.size;
        console = l.console;
        no_editor = l.no_editor;
      };
      remembered =
          ap (λ t. add_to_history t s.history)
            (ap text_of buffer ∙ text_of-append (c ∷ left) ys l.before);
      from_end = refl;
    })
