-- ===== src/Shell/Gap.antt =====
-- The loops of acsh.c that move the end of a line one place on or back.
use kernix_os.Base.{
  ℕ, zero, suc, ◌+◌, ◌≤◌, ◌<◌, true, false, List, [], ◌∷◌, ◌++◌, length, get_or, set, take, drop,
  length-append, length-set, leb, ◌≡◌, ◌≢◌, refl, sym, ap, ◌∙◌, arith,
}
use mathlib.Core.List.{append_assoc}
use kernix_os.Str.{str_len}
use kernix_os.Shell.{text_of, close_gap, open_gap}

-- No byte is NUL.
abbrev pub HasText : List ℕ → Type 0
HasText [] = Unit {0}
HasText (c ∷ cs) = (c ≢ 0) × HasText cs

pub HasText-append : (a b : List ℕ) → HasText a → HasText b → HasText (a ++ b)
HasText-append [] b h k = k
HasText-append (c ∷ a) b h k = (h.0, HasText-append a b h.1 k)

pub str_len-length : (s : List ℕ) → str_len s ≡ length s
unfolding str_len
str_len-length [] = refl
str_len-length (c ∷ cs) = omega (arith, str_len-length cs)

pub text_of-append : (t rest : List ℕ) → HasText t → text_of (t ++ (0 ∷ rest)) ≡ t
unfolding text_of
text_of-append [] rest h = refl
text_of-append (c ∷ t) rest h = ground (arith, text_of-append t rest h.1)

pub set-at :
    (left : List ℕ) (c v : ℕ) (xs : List ℕ)
    → set (left ++ (c ∷ xs)) (length left) v ≡ left ++ (v ∷ xs)
set-at [] c v xs = refl
set-at (x ∷ left) c v xs = ap (λ t. x ∷ t) (set-at left c v xs)

get_or-next :
    (left : List ℕ) (c d : ℕ) (xs : List ℕ) → get_or (left ++ (c ∷ d ∷ xs)) (length left + 1) 0 ≡ d
get_or-next [] c d xs = refl
get_or-next (x ∷ left) c d xs =
    let e : suc (length left) + 1 ≡ suc (length left + 1) = omega arith in
    rw e (get_or-next left c d xs)

length-snoc : (left : List ℕ) (c : ℕ) → length (left ++ (c ∷ [])) ≡ length left + 1
length-snoc left c = omega (arith, length-append left (c ∷ []))

-- One round of `close_gap` at the cursor
close_round :
    (n : ℕ) (left : List ℕ) (c d : ℕ) (xs : List ℕ)
    → length left ≤ str_len (text_of (left ++ (c ∷ d ∷ xs)))
    → close_gap (suc n) (length left) (left ++ (c ∷ d ∷ xs))
      ≡ close_gap n (length left + 1) (left ++ (d ∷ d ∷ xs))
unfolding close_gap
close_round n left c d xs h =
    let test : leb (length left) (str_len (text_of (left ++ (c ∷ d ∷ xs)))) ≡ true = ground arith in
    rw test (rw (get_or-next left c d xs) (rw (set-at left c d (d ∷ xs))))

close_end :
    (n : ℕ) (left rest : List ℕ)
    → HasText left
    → close_gap n (length left + 1) (left ++ (0 ∷ rest)) ≡ left ++ (0 ∷ rest)
unfolding close_gap
close_end zero left rest h = refl
close_end (suc n) left rest h =
    let len : str_len (text_of (left ++ (0 ∷ rest))) ≡ length left =
      ap str_len (text_of-append left rest h) ∙ str_len-length left in
    let test : leb (length left + 1) (str_len (text_of (left ++ (0 ∷ rest)))) ≡ false =
      ground arith in
    rw test

still_text :
    (left right rest : List ℕ) (c : ℕ)
    → HasText left
    → c ≢ 0
    → HasText right
    → length left ≤ str_len (text_of (left ++ (c ∷ (right ++ (0 ∷ rest)))))
still_text left right rest c hl hc hr =
    let whole : text_of (left ++ (c ∷ (right ++ (0 ∷ rest)))) ≡ left ++ (c ∷ right) =
      ap text_of (sym (append_assoc left (c ∷ right) (0 ∷ rest)))
      ∙ text_of-append (left ++ (c ∷ right)) rest (HasText-append left (c ∷ right) hl (hc, hr)) in
    omega (
      arith,
      ap str_len whole,
      str_len-length (left ++ (c ∷ right)),
      length-append left (c ∷ right),
    )

-- The character behind the cursor goes, and the rest of the line moves up to it.
pub close_gap-append :
    (n : ℕ) (left : List ℕ) (c : ℕ) (right rest : List ℕ)
    → HasText left
    → c ≢ 0
    → HasText right
    → length right < n
    → close_gap n (length left) (left ++ (c ∷ (right ++ (0 ∷ rest))))
      ≡ left ++ (right ++ (0 ∷ 0 ∷ rest))
close_gap-append zero left c right rest hl hc hr lt = absurd (omega arith)
close_gap-append (suc n) left c [] rest hl hc hr lt =
    close_round n left c 0 rest (still_text left [] rest c hl hc hr)
    ∙ close_end n left (0 ∷ rest) hl
close_gap-append (suc n) left c (d ∷ right) rest hl hc hr lt =
    let snoc : (xs : List ℕ) → (left ++ (d ∷ [])) ++ xs ≡ left ++ (d ∷ xs) =
      λ xs. append_assoc left (d ∷ []) xs in
    close_round n left c d (right ++ (0 ∷ rest)) (still_text left (d ∷ right) rest c hl hc hr)
    ∙ ap (λ i. close_gap n i (left ++ (d ∷ d ∷ (right ++ (0 ∷ rest))))) (sym (length-snoc left d))
    ∙ ap (close_gap n (length (left ++ (d ∷ [])))) (sym (snoc (d ∷ (right ++ (0 ∷ rest)))))
    ∙ close_gap-append n (left ++ (d ∷ [])) d right rest
        (HasText-append left (d ∷ []) hl (hr.0, tt)) hr.0 hr.1 (omega arith)
    ∙ snoc (right ++ (0 ∷ 0 ∷ rest))

open_cons : (n p x : ℕ) (ys : List ℕ) → open_gap n (suc p) (x ∷ ys) ≡ x ∷ open_gap n p ys
unfolding open_gap
open_cons zero p x ys = refl
open_cons (suc n) p x ys =
    let e : suc p + n + 1 ≡ suc (p + n + 1) = omega arith in
    let e' : suc p + n ≡ suc (p + n) = omega arith in
    rw (e, e') (open_cons n p x (set ys (p + n + 1) (get_or ys (p + n) 0)))

open_append :
    (n : ℕ) (left ys : List ℕ) → open_gap n (length left) (left ++ ys) ≡ left ++ open_gap n 0 ys
open_append n [] ys = refl
open_append n (x ∷ left) ys =
    open_cons n (length left) x (left ++ ys) ∙ ap (λ t. x ∷ t) (open_append n left ys)

abbrev shifted : ℕ → List ℕ → List ℕ
shifted n ys = get_or ys 0 0 ∷ (take n ys ++ drop (n + 1) ys)

take-set : (n : ℕ) (ys : List ℕ) (v : ℕ) → take n (set ys n v) ≡ take n ys
take-set zero ys v = refl
take-set (suc n) [] v = refl
take-set (suc n) (y ∷ ys) v = ap (λ t. y ∷ t) (take-set n ys v)

drop-set : (n : ℕ) (ys : List ℕ) (v : ℕ) → n < length ys → drop n (set ys n v) ≡ v ∷ drop (n + 1) ys
drop-set zero [] v h = absurd (omega arith)
drop-set zero (y ∷ ys) v h = refl
drop-set (suc n) [] v h = absurd (omega arith)
drop-set (suc n) (y ∷ ys) v h =
    let e : suc n + 1 ≡ suc (n + 1) = omega arith in rw e (drop-set n ys v (omega arith))

take-suc :
    (n : ℕ) (ys zs : List ℕ)
    → n < length ys
    → take n ys ++ (get_or ys n 0 ∷ zs) ≡ take (suc n) ys ++ zs
take-suc n [] zs h = absurd (omega arith)
take-suc zero (y ∷ ys) zs h = refl
take-suc (suc n) (y ∷ ys) zs h = ap (λ t. y ∷ t) (take-suc n ys zs (omega arith))

take-set_suc : (n : ℕ) (ys : List ℕ) (v : ℕ) → take n (set ys (n + 1) v) ≡ take n ys
take-set_suc zero ys v = refl
take-set_suc (suc n) [] v = refl
take-set_suc (suc n) (y ∷ ys) v =
    let e : suc n + 1 ≡ suc (n + 1) = omega arith in rw e (ap (λ t. y ∷ t) (take-set_suc n ys v))

first-set : (n : ℕ) (ys : List ℕ) (v : ℕ) → get_or (set ys (n + 1) v) 0 0 ≡ get_or ys 0 0
first-set n [] v = refl
first-set n (y ∷ ys) v = let e : n + 1 ≡ suc n = omega arith in rw e

open_shifts : (n : ℕ) (ys : List ℕ) → n < length ys → open_gap n 0 ys ≡ shifted n ys
unfolding open_gap
open_shifts zero [] h = absurd (omega arith)
open_shifts zero (y ∷ ys) h = refl
open_shifts (suc n) ys h =
    let v = get_or ys n 0 in
    let e : 0 + n + 1 ≡ n + 1 = omega arith in
    let e' : 0 + n ≡ n = omega arith in
    let zs = set ys (n + 1) v in
    let longer : n < length zs = omega (arith, length-set ys (n + 1) v) in
    rw (e, e')
      (open_shifts n zs longer
        ∙ ap (λ x. x ∷ (take n zs ++ drop (n + 1) zs)) (first-set n ys v)
        ∙ ap (λ t. get_or ys 0 0 ∷ (t ++ drop (n + 1) zs)) (take-set_suc n ys v)
        ∙ ap (λ t. get_or ys 0 0 ∷ (take n ys ++ t)) (drop-set (n + 1) ys v (omega arith))
        ∙ ap (λ t. get_or ys 0 0 ∷ t) (take-suc n ys (drop (n + 1 + 1) ys) (omega arith))
        ∙ ap (λ k. get_or ys 0 0 ∷ (take (suc n) ys ++ drop k ys)) (tail_at n))
  where
    tail_at : (k : ℕ) → k + 1 + 1 ≡ suc k + 1
    tail_at k = omega arith

halves :
    (right : List ℕ) (r : ℕ) (rest : List ℕ)
    → take (length right + 1) (right ++ (0 ∷ r ∷ rest))
        ++ drop (length right + 1 + 1) (right ++ (0 ∷ r ∷ rest))
      ≡ right ++ (0 ∷ rest)
halves [] r rest = refl
halves (x ∷ right) r rest =
    let e : suc (length right) + 1 ≡ suc (length right + 1) = omega arith in
    let e' : suc (length right) + 1 + 1 ≡ suc (length right + 1 + 1) = omega arith in
    rw (e', e) (ap (λ t. x ∷ t) (halves right r rest))

-- The line behind the cursor moves on, and the character stands in the gap. A byte behind the NUL is lost.
pub open_gap-append :
    (left right : List ℕ) (r c : ℕ) (rest : List ℕ)
    → set
        (open_gap (length right + 1) (length left) (left ++ (right ++ (0 ∷ r ∷ rest))))
        (length left)
        c
      ≡ left ++ (c ∷ (right ++ (0 ∷ rest)))
open_gap-append left right r c rest =
    let n = length right + 1 in
    let ys = right ++ (0 ∷ r ∷ rest) in
    let fits : n < length ys = omega (arith, length-append right (0 ∷ r ∷ rest)) in
    ap (λ b. set b (length left) c)
      (open_append n left ys ∙ ap (λ t. left ++ t) (open_shifts n ys fits))
    ∙ set-at left (get_or ys 0 0) c (take n ys ++ drop (n + 1) ys)
    ∙ ap (λ t. left ++ (c ∷ t)) (halves right r rest)

pub length-open_gap : (n pos : ℕ) (ys : List ℕ) → length (open_gap n pos ys) ≡ length ys
unfolding open_gap
length-open_gap zero pos ys = refl
length-open_gap (suc n) pos ys =
    length-open_gap n pos (set ys (pos + n + 1) (get_or ys (pos + n) 0))
    ∙ length-set ys (pos + n + 1) (get_or ys (pos + n) 0)

pub length-close_gap : (n i : ℕ) (ys : List ℕ) → length (close_gap n i ys) ≡ length ys
unfolding close_gap
length-close_gap zero i ys = refl
length-close_gap (suc n) i ys = ground (
  arith,
  length-close_gap n (i + 1) (set ys i (get_or ys (i + 1) 0)),
  length-set ys i (get_or ys (i + 1) 0),
)
