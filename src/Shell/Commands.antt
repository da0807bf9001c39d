-- ===== src/Shell/Commands.antt =====
-- Finding and running a command, and lines of several commands: acsh.c and parser.c. Commands are
-- places in the table of names; what a command does is not modelled.
pub mod Chain
pub mod Find
use kernix_os.Base.{
  ℕ, zero, suc, ◌+◌, ◌-◌, Bool, true, false, not, ◌&&◌, ◌||◌, Option, none, some, List, [], ◌∷◌,
  ◌++◌, length, get_elem?, take, ltb, leb, ◌==◌, if◌then◌else◌,
}
use kernix_os.Shell.{text_of}

-- The loop of `console_find_cmd` over the letters: both strings end together without a difference.
pub same_name : List ℕ → List ℕ → Bool
same_name [] [] = true
same_name [] (d ∷ name) = false
same_name (c ∷ wanted) [] = false
same_name (c ∷ wanted) (d ∷ name) =
    let rest = same_name wanted name in if c == d then rest else false

-- The place of the first command with the name, from `i` on; `none` in the table is an entry without one.
pub console_find_cmd : List ℕ → ℕ → List (Option (List ℕ)) → Option ℕ
unfolding same_name
console_find_cmd wanted i [] = none
console_find_cmd wanted i (none ∷ names) = console_find_cmd wanted (i + 1) names
console_find_cmd wanted i (some name ∷ names) =
    let rest = console_find_cmd wanted (i + 1) names in
    if same_name wanted name then some i else rest

pub skip_spaces : List ℕ → List ℕ
skip_spaces [] = []
skip_spaces (c ∷ cs) = let rest = skip_spaces cs in if c == 32 then rest else c ∷ cs

-- The word up to a blank, and what follows it
pub split_word : List ℕ → List ℕ × List ℕ
split_word [] = ([], [])
split_word (c ∷ cs) =
    let rest = split_word cs in if c == 32 then ([], c ∷ cs) else (c ∷ rest.0, rest.1)

pub data Color : Type 0 where
  black white red green blue cyan yellow purple : Color

-- `parse_color` compares letter by letter with each name, and with the NUL behind it.
pub parse_color : List ℕ → Option Color
unfolding skip_spaces same_name
parse_color input =
    let p = skip_spaces input in
    if same_name (98 ∷ 108 ∷ 97 ∷ 99 ∷ 107 ∷ []) p
    then some black
    else if same_name (119 ∷ 104 ∷ 105 ∷ 116 ∷ 101 ∷ []) p
    then some white
    else if same_name (114 ∷ 101 ∷ 100 ∷ []) p
    then some red
    else if same_name (103 ∷ 114 ∷ 101 ∷ 101 ∷ 110 ∷ []) p
    then some green
    else if same_name (98 ∷ 108 ∷ 117 ∷ 101 ∷ []) p
    then some blue
    else if same_name (99 ∷ 121 ∷ 97 ∷ 110 ∷ []) p
    then some cyan
    else if same_name (121 ∷ 101 ∷ 108 ∷ 108 ∷ 111 ∷ 119 ∷ []) p
    then some yellow
    else if same_name (112 ∷ 117 ∷ 114 ∷ 112 ∷ 108 ∷ 101 ∷ []) p
    then some purple
    else none

-- What `console_execute` does: nothing, a call of a command with its arguments, or a message about a name
pub data Execution : Type 0 where
  nothing : Execution
  runs : ℕ → List ℕ → Execution
  unknown : List ℕ → Execution

pub run_found : List ℕ → List ℕ → Option ℕ → Execution
run_found name args none = unknown name
run_found name args (some i) = runs i args

-- A line without leading blanks; a name keeps its first 63 letters.
pub execute_line : List (Option (List ℕ)) → List ℕ → Execution
unfolding split_word skip_spaces console_find_cmd run_found
execute_line names [] = nothing
execute_line names (c ∷ cs) =
    let word = split_word (c ∷ cs) in
    let name = if leb 64 (length word.0) then take 63 word.0 else word.0 in
    run_found name (skip_spaces word.1) (console_find_cmd name 0 names)

unfoldable pub console_execute : List (Option (List ℕ)) → List ℕ → Execution
unfolding execute_line skip_spaces
console_execute names input = execute_line names (skip_spaces input)

abbrev pub max_chained_cmds : ℕ
max_chained_cmds = 8

-- How the inner loop of `parse_and_execute_chained` ends: behind `&&`, or at the end of the input or
-- the buffer
pub data Stop : Type 0 where
  amp full : Stop

pub record Part : Type 0 where
  pub text : List ℕ
  pub rest : List ℕ
  pub stop : Stop

abbrev pub starts_amp : List ℕ → Bool
starts_amp [] = false
starts_amp (d ∷ rest) = d == 38

abbrev pub behind_amp : List ℕ → List ℕ
behind_amp [] = []
behind_amp (d ∷ rest) = rest

-- The inner loop with room for `room` more characters
pub take_part : (room : ℕ) → List ℕ → Part
take_part zero input = record { text = []; rest = input; stop = full }
take_part (suc room) [] = record { text = []; rest = []; stop = full }
take_part (suc room) (c ∷ cs) =
    let later = take_part room cs in
    if c == 38 && starts_amp cs
    then record { text = []; rest = behind_amp cs; stop = amp }
    else record later { text = c ∷ later.text }

-- What follows the inner loop: `more` are the commands behind, and `junk` is what stands in the next
-- buffer. Behind an `&&` at the end of the input that one is taken too, with its first `length text`
-- bytes.
pub chain_on :
    Stop → (text rest : List ℕ) → (junk : List ℕ) → (more : List (List ℕ)) → List (List ℕ)
unfolding text_of
chain_on full text rest junk more = text ∷ []
chain_on amp text rest junk more =
    text ∷ (if length rest == 0 then text_of (take (length text) junk) ∷ [] else more)

-- The outer loop with room for `left` more commands, of which `i` are there
pub split_chain : (left i : ℕ) → (junk : ℕ → List ℕ) → List ℕ → List (List ℕ)
unfolding take_part skip_spaces chain_on
split_chain zero i junk input = []
split_chain (suc left) i junk [] = []
split_chain (suc left) i junk (c ∷ cs) =
    let p = take_part 255 (skip_spaces (c ∷ cs)) in
    let more = split_chain left (i + 1) junk p.rest in
    chain_on p.stop p.text p.rest (junk (i + 1)) more

-- `while (len >= 0 && commands[i][len] == ' ')`, from the end on
unfoldable pub trim_spaces : List ℕ → List ℕ
trim_spaces [] = []
trim_spaces (c ∷ cs) = let t = trim_spaces cs in if c == 32 && length t == 0 then [] else c ∷ t

pub executed : List (List ℕ) → List (List ℕ)
unfolding trim_spaces
executed [] = []
executed (command ∷ commands) =
    let t = trim_spaces command in
    if length t == 0 then executed commands else t ∷ executed commands

-- The lines that `parse_and_execute_chained` passes to `console_execute`
unfoldable pub parse_and_execute_chained : (junk : ℕ → List ℕ) → List ℕ → List (List ℕ)
unfolding split_chain executed
parse_and_execute_chained junk input = executed (split_chain max_chained_cmds 0 junk input)
