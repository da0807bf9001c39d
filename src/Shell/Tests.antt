-- ===== src/Shell/Tests.antt =====
-- Keys typed at the prompt, and lines of commands.
use kernix_os.Base.{
  ℕ, none, some, false, [], ◌∷◌, ◌++◌, replicate, ◌≡◌, refl, arith, length-replicate,
}
use kernix_os.Shell.{Shell, execute, console_handle_key, handle_enter, add_to_history}
use kernix_os.Shell.Edit.{Line, type_keys, type_keys-Line, Entered, handle_enter-Entered}
use kernix_os.Shell.Past.{IsHistory, Remembered, add_to_history-Remembered}
use kernix_os.Shell.Commands.Find.{FirstCommand, console_find_cmd-First}
use kernix_os.Shell.Commands.Chain.{IsCommand, parse_and_execute_chained-joined}
use kernix_os.Shell.Commands.{
  trim_spaces, console_find_cmd, console_execute, runs, parse_and_execute_chained,
}

abbrev prompt : Shell
prompt = record {
  input_buffer = replicate 12 0;
  input_pos = 0;
  history = [];
  history_pos = none;
  gui_running = false;
  in_kedit = false;
}

-- `lx`, left, `s`, right, backspace: the line is `ls`.
line_typed :
    (console_handle_key 10 (type_keys (108 ∷ 120 ∷ 0x82 ∷ 115 ∷ 0x83 ∷ 8 ∷ []) prompt).1).0
    ≡ execute (108 ∷ 115 ∷ []) ∷ []
unfolding type_keys console_handle_key
line_typed = refl

-- Enter with the cursor in the middle drops the rest of the line.
line_cut :
    (console_handle_key 10 (type_keys (108 ∷ 115 ∷ 0x82 ∷ []) prompt).1).0 ≡ execute (108 ∷ []) ∷ []
unfolding type_keys console_handle_key
line_cut = refl

runs_second :
    console_execute (some (97 ∷ []) ∷ none ∷ some (98 ∷ []) ∷ []) (32 ∷ 98 ∷ 32 ∷ 32 ∷ 99 ∷ [])
    ≡ runs 2 (99 ∷ [])
unfolding console_execute
runs_second = refl

-- `a &&` runs what stood in the second buffer.
chain_open :
    parse_and_execute_chained (λ i. 120 ∷ 121 ∷ 0 ∷ []) (97 ∷ 32 ∷ 38 ∷ 38 ∷ [])
    ≡ (97 ∷ []) ∷ (120 ∷ 121 ∷ []) ∷ []
unfolding parse_and_execute_chained
chain_open = refl

abbrev empty_prompt : Shell
empty_prompt = record prompt { input_buffer = replicate 256 0 }

empty_prompt-Line : Line empty_prompt [] []
empty_prompt-Line = record {
  rest = replicate 255 0;
  buffer = refl;
  pos = refl;
  before = tt;
  behind = tt;
  size = length-replicate {A = ℕ} 256 0;
  console = refl;
  no_editor = refl;
}

type_keys-Line_example :
    ((type_keys (108 ∷ 115 ∷ []) empty_prompt).0 ≡ [])
    × Line (type_keys (108 ∷ 115 ∷ []) empty_prompt).1 ([] ++ (108 ∷ 115 ∷ [])) []
type_keys-Line_example =
    type_keys-Line (108 ∷ 115 ∷ []) empty_prompt [] [] empty_prompt-Line (refl, (refl, tt))
      (omega arith)

handle_enter-Entered_example :
    Entered
      (type_keys (108 ∷ 115 ∷ []) empty_prompt).1
      (108 ∷ 115 ∷ [])
      (handle_enter (type_keys (108 ∷ 115 ∷ []) empty_prompt).1)
handle_enter-Entered_example =
    handle_enter-Entered (type_keys (108 ∷ 115 ∷ []) empty_prompt).1 108 (115 ∷ []) []
      type_keys-Line_example.1

no_lines-IsHistory : IsHistory []
no_lines-IsHistory = record { lines = tt; few = omega arith }

add_to_history-Remembered_example :
    Remembered (108 ∷ 115 ∷ []) [] (add_to_history (108 ∷ 115 ∷ []) [])
add_to_history-Remembered_example =
    add_to_history-Remembered (108 ∷ 115 ∷ []) [] no_lines-IsHistory
      (omega arith, (omega arith, tt))

console_find_cmd-First_example :
    FirstCommand
      (98 ∷ [])
      0
      (some (97 ∷ []) ∷ none ∷ some (98 ∷ []) ∷ [])
      (console_find_cmd (98 ∷ []) 0 (some (97 ∷ []) ∷ none ∷ some (98 ∷ []) ∷ []))
console_find_cmd-First_example =
    console_find_cmd-First (98 ∷ []) (some (97 ∷ []) ∷ none ∷ some (98 ∷ []) ∷ [])

ab-IsCommand : IsCommand (97 ∷ 98 ∷ [])
unfolding trim_spaces
ab-IsCommand = record {
  first = 97;
  others = 98 ∷ [];
  shape = refl;
  no_blank = λ e. omega arith;
  no_amp = ((λ e. omega arith), ((λ e. omega arith), tt));
  short = omega arith;
  trimmed = refl;
}

parse_and_execute_chained-joined_example :
    parse_and_execute_chained (λ i. []) (97 ∷ 98 ∷ 38 ∷ 38 ∷ 97 ∷ 98 ∷ [])
    ≡ (97 ∷ 98 ∷ []) ∷ (97 ∷ 98 ∷ []) ∷ []
parse_and_execute_chained-joined_example =
    parse_and_execute_chained-joined (λ i. []) (97 ∷ 98 ∷ []) ((97 ∷ 98 ∷ []) ∷ [])
      (ab-IsCommand, (ab-IsCommand, tt)) (omega arith)
