-- ===== src/Shell/Keys.antt =====
-- src/common_io/lineio_async.c: `shell_tick`, what a received byte does.
use rewind_os.Base.{ℕ, ◌+◌, ◌-◌, ◌&&◌, ◌||◌, Option, none, some}
use rewind_os.Base.{List, [], ◌∷◌, update, ltb, leb, ◌==◌, if◌then◌else◌}
use rewind_os.Shell.{Shell, line_max, write, erase_one, shell_history_up, shell_history_down}
use rewind_os.Shell.{shell_submit_line}

-- The rest of a line end of two or three bytes is taken in: then there is no more to do for the byte.
pub data Eol : Type 0 where
  swallowed : Shell → Eol
  goes_on : Shell → Eol

unfoldable pub eol_step : ℕ → Shell → Eol
eol_step c s =
    if s.eol_state == 1
    then (if c == 10
        then swallowed (record s { eol_state = 0 })
        else (if c == 13
            then swallowed (record s { eol_state = 2 })
            else goes_on (record s { eol_state = 0 })))
    else (if s.eol_state == 2
        then (if c == 10
            then swallowed (record s { eol_state = 0 })
            else goes_on (record s { eol_state = 0 }))
        else goes_on s)

unfoldable pub arrow : ℕ → Shell → Shell
arrow c s =
    if c == b'A' then shell_history_up s else (if c == b'B' then shell_history_down s else s)

unfoldable pub backspace : Shell → Shell
backspace s = if ltb 0 s.len then erase_one (record s { len = s.len - 1 }) else s

unfoldable pub insert_char : ℕ → Shell → Shell
insert_char c s =
    if ltb s.len (line_max - 1)
    then write (c ∷ []) (record s { line = update s.line s.len c; len = s.len + 1 })
    else write (7 ∷ []) s

unfoldable pub edit : ℕ → Shell → Shell
edit c s =
    if (c == 8) || (c == 0x7f)
    then backspace s
    else (if leb 0x20 c && leb c 0x7e then insert_char c s else s)

unfoldable pub plain_key : ℕ → Shell → Option (List ℕ) × Shell
plain_key c s =
    if c == 0x1b
    then (none, record s { eol_state = 0; escape_state = 1 })
    else (if c == 13
        then shell_submit_line (record s { eol_state = 1 })
        else (if c == 10 then shell_submit_line (record s { eol_state = 0 }) else (none, edit c s)))

unfoldable pub key : ℕ → Shell → Option (List ℕ) × Shell
key c s =
    if s.escape_state == 1
    then (none, record s { escape_state = if c == b'[' then 2 else 0 })
    else (if s.escape_state == 2
        then (none, arrow c (record s { escape_state = 0 }))
        else plain_key c s)

unfoldable pub after_eol : ℕ → Eol → Option (List ℕ) × Shell
after_eol c (swallowed s) = (none, s)
after_eol c (goes_on s) = key c s

-- What a byte does: the line that is dispatched, if any, and the editor after it.
unfoldable pub shell_byte : ℕ → Shell → Option (List ℕ) × Shell
shell_byte c s = after_eol c (eol_step c s)

-- The source of the bytes: `uart_async_getc`, and `journal_capture_input_byte`, whose result is not used.
module _ (Input : Type 0) (getc : Input → Option ℕ × Input) (capture : ℕ → Input → Input) where
  unfoldable pub tick_with : Option ℕ × Input → Shell → Option (List ℕ) × (Shell × Input)
  tick_with (none, i) s = (none, (s, i))
  tick_with (some c, i) s = let r = shell_byte c s in (r.0, (r.1, capture c i))

  unfoldable pub shell_tick : Input → Shell → Option (List ℕ) × (Shell × Input)
  shell_tick i s = tick_with (getc i) s
