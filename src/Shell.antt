-- ===== src/Shell.antt =====
-- The console of core/kernel/shell: acsh.c (keys, history, commands) and parser.c. Drawing is not
-- modelled; what the console runs is a list of calls. `input_buffer` is an array with what stands
-- behind its NUL, since one key leaves it without a new one; `int` positions are natural numbers, with
-- `none` for -1.
pub mod Commands
pub mod Gap
pub mod Edit
pub mod Past
mod Tests
use kernix_os.Base.{
  ℕ, zero, suc, ◌+◌, ◌-◌, ◌*◌, ◌^◌, Bool, true, false, not, ◌&&◌, ◌||◌, Option, none, some, List,
  [], ◌∷◌, ◌++◌, length, get_elem?, get_or, set, take, drop, replicate, ltb, leb, ◌==◌,
  if◌then◌else◌,
}
use kernix_os.Str.{str_len, str_equals}

abbrev pub max_input_len : ℕ
max_input_len = 256

abbrev pub max_history : ℕ
max_history = 50

-- A call that a key leads to: a line to `console_execute`, one to `parse_and_execute_chained`, or a key
-- to the editor
pub data Call : Type 0 where
  execute chained : List ℕ → Call
  kedit : ℕ → Call

pub record Shell : Type 0 where
  pub input_buffer : List ℕ
  pub input_pos : ℕ
  pub history : List (List ℕ)
  pub history_pos : Option ℕ
  pub gui_running : Bool
  pub in_kedit : Bool

-- The string in an array: the bytes before the first NUL
pub text_of : List ℕ → List ℕ
text_of [] = []
text_of (c ∷ cs) = let rest = text_of cs in if c == 0 then [] else c ∷ rest

pub last_or : List ℕ → List (List ℕ) → List ℕ
last_or d [] = d
last_or d (h ∷ hs) = last_or h hs

-- `command_history` up to `history_count`: a full one loses its oldest line.
pub add_to_history : List ℕ → List (List ℕ) → List (List ℕ)
unfolding last_or str_len str_equals
add_to_history command history =
    if str_len command == 0
    then history
    else if ltb 0 (length history) && str_equals (last_or [] history) command
    then history
    else if ltb (length history) max_history
    then history ++ (command ∷ [])
    else drop 1 history ++ (command ∷ [])

pub get_history_command : ℕ → List (List ℕ) → Option (List ℕ)
get_history_command pos history = get_elem? history pos

-- `for (int i = 0; i < input_pos - 1; i++)`, with the rounds left
pub has_chain : (rounds i : ℕ) → List ℕ → Bool
has_chain zero i buffer = false
has_chain (suc rounds) i buffer =
    let rest = has_chain rounds (i + 1) buffer in
    if get_or buffer i 0 == 38 && get_or buffer (i + 1) 0 == 38 then true else rest

pub line_call : (pos : ℕ) → List ℕ → Call
unfolding has_chain text_of
line_call pos buffer =
    if has_chain (pos - 1) 0 buffer then chained (text_of buffer) else execute (text_of buffer)

pub handle_enter : Shell → List Call × Shell
unfolding line_call add_to_history text_of
handle_enter s =
    let buffer = set s.input_buffer s.input_pos 0 in
    let after : Shell = record s {
      input_buffer = set buffer 0 0;
      input_pos = 0;
      history = add_to_history (text_of buffer) s.history;
      history_pos = none;
    } in
    if ltb 0 s.input_pos then (line_call s.input_pos buffer ∷ [], after) else ([], s)

-- `for (int i = input_pos; i <= str_len(input_buffer); i++)`, whose bound is read anew in each round;
-- one round for each place of the array is enough.
pub close_gap : (rounds i : ℕ) → List ℕ → List ℕ
unfolding text_of str_len
close_gap zero i buffer = buffer
close_gap (suc rounds) i buffer =
    let rest = close_gap rounds (i + 1) (set buffer i (get_or buffer (i + 1) 0)) in
    if leb i (str_len (text_of buffer)) then rest else buffer

pub handle_backspace : Shell → Shell
unfolding close_gap
handle_backspace s =
    if ltb 0 s.input_pos
    then record s {
      input_pos = s.input_pos - 1;
      input_buffer = close_gap (length s.input_buffer) (s.input_pos - 1) s.input_buffer;
    }
    else s

-- `for (int i = str_len; i >= input_pos; i--) input_buffer[i+1] = input_buffer[i];`, with the rounds left
pub open_gap : (rounds pos : ℕ) → List ℕ → List ℕ
open_gap zero pos buffer = buffer
open_gap (suc rounds) pos buffer =
    open_gap rounds pos (set buffer (pos + rounds + 1) (get_or buffer (pos + rounds) 0))

-- A character at the cursor, if the line is not full
pub insert_char : ℕ → Shell → Shell
unfolding open_gap text_of str_len
insert_char c s =
    let len = str_len (text_of s.input_buffer) in
    if ltb len (max_input_len - 1)
    then record s {
      input_buffer =
          set (open_gap (len + 1 - s.input_pos) s.input_pos s.input_buffer) s.input_pos c;
      input_pos = s.input_pos + 1;
    }
    else s

pub handle_tab : Shell → Shell
unfolding insert_char
handle_tab s = insert_char 32 (insert_char 32 (insert_char 32 (insert_char 32 s)))

-- `str_copy(input_buffer, cmd)`, which writes a NUL behind the line and leaves the rest
pub copy_line : List ℕ → List ℕ → List ℕ
copy_line line buffer = line ++ (0 ∷ drop (length line + 1) buffer)

pub show_line : Option (List ℕ) → Shell → Shell
unfolding copy_line str_len
show_line none s = s
show_line (some line) s = record s {
  input_buffer = copy_line line s.input_buffer;
  input_pos = str_len line;
}

-- Key 0x80 at a place in the history: the next line, counted from the oldest
pub go_up : Option ℕ → Shell → Shell
unfolding show_line
go_up none s =
    let ended : Shell = record s { input_buffer = set s.input_buffer s.input_pos 0 } in
    if ltb 0 (length s.history)
    then show_line (get_history_command 0 s.history) (record ended { history_pos = some 0 })
    else ended
go_up (some pos) s =
    if ltb (pos + 1) (length s.history)
    then show_line (get_history_command (pos + 1) s.history)
        (record s { history_pos = some (pos + 1) })
    else s

-- Key 0x81
pub go_down : Option ℕ → Shell → Shell
unfolding show_line
go_down none s = s
go_down (some zero) s = record s {
  history_pos = none;
  input_buffer = set s.input_buffer 0 0;
  input_pos = 0;
}
go_down (some (suc pos)) s =
    show_line (get_history_command pos s.history) (record s { history_pos = some pos })

-- A printable character; a full line leaves the buffer alone.
pub handle_printable : ℕ → Shell → Shell
unfolding insert_char
handle_printable c s =
    if leb 32 c && leb c 126 then insert_char c (record s { history_pos = none }) else s

pub console_handle_key : ℕ → Shell → List Call × Shell
unfolding handle_enter handle_backspace handle_tab go_up go_down handle_printable text_of str_len
console_handle_key c s =
    if s.gui_running
    then ([], s)
    else if s.in_kedit
    then (kedit c ∷ [], s)
    else if c == 10
    then handle_enter s
    else if c == 13
    then (
      [],
      record s { input_buffer = set s.input_buffer s.input_pos 10; input_pos = s.input_pos + 1 },
    )
    else if c == 3
    then ([], record s { input_buffer = set s.input_buffer 0 0; input_pos = 0 })
    else if c == 8
    then ([], handle_backspace s)
    else if c == 9
    then ([], handle_tab s)
    else if c == 0x80
    then ([], go_up s.history_pos s)
    else if c == 0x81
    then ([], go_down s.history_pos s)
    else if c == 0x82
    then ([], if ltb 0 s.input_pos then record s { input_pos = s.input_pos - 1 } else s)
    else if c == 0x83
    then (
      [],
      if ltb s.input_pos (str_len (text_of s.input_buffer))
          then record s { input_pos = s.input_pos + 1 }
          else s,
    )
    else if c == 0x84
    then ([], record s { input_pos = 0 })
    else if c == 0x85
    then ([], record s { input_pos = str_len (text_of s.input_buffer) })
    else ([], handle_printable c s)
