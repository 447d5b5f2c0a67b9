-- ===== src/Shell.antt =====
-- The line editor: src/common_io/lineio_async.c and include/lineio_async.h. A char array is a function of
-- its index, `none` for a `nav_index` of -1, and `console` has the bytes that were written to the console.
-- The line that is dispatched is a result: the command it runs is no part of the editor. Where the bytes
-- come from (`uart_async_getc` and the journal) is a parameter of `shell_tick`.
pub mod Arrays
pub mod History
pub mod Bounds
pub mod Keys
pub mod Safe
pub mod Bytes
pub mod Recall
pub mod Lines
pub mod Submit
pub mod Blocking
pub mod Agree
pub mod Rounds
mod Tests
use rewind_os.Base.{
  ℕ, zero, suc, ◌+◌, ◌-◌, ◌%◌, ◌≡◌, Bool, true, false, ◌&&◌, ◌||◌, Option, none, some,
}
use rewind_os.Base.{List, [], ◌∷◌, ◌++◌, replicate, update, ltb, leb, ◌==◌, if◌then◌else◌}

pub record Shell : Type 0 where
  pub line : ℕ → ℕ
  pub history : ℕ → ℕ → ℕ
  pub nav_scratch : ℕ → ℕ
  pub len : ℕ
  pub hist_head : ℕ
  pub hist_count : ℕ
  pub nav_scratch_len : ℕ
  pub nav_index : Option ℕ
  pub prompt_str : List ℕ
  pub escape_state : ℕ
  pub eol_state : ℕ
  pub console : List ℕ

abbrev pub line_max : ℕ
line_max = 128

abbrev pub history_max : ℕ
history_max = 8

-- `for (i = 0; i < n; i++) dst[i] = src[i]`.
unfoldable pub copy : ℕ → (ℕ → ℕ) → (ℕ → ℕ) → ℕ → ℕ
copy zero src dst = dst
copy (suc n) src dst = update (copy n src dst) n (src n)

-- The first bytes of an array.
unfoldable pub text : ℕ → (ℕ → ℕ) → List ℕ
text zero f = []
text (suc n) f = text n f ++ (f n ∷ [])

-- The first index from `i` on that holds a zero; `n` rounds at most.
unfoldable pub scan : ℕ → (ℕ → ℕ) → ℕ → ℕ
scan zero f i = i
scan (suc n) f i = elim (f i == 0) [ true ↦ i | false ↦ scan n f (suc i) ]

abbrev pub str_len : (ℕ → ℕ) → ℕ
str_len f = scan (line_max - 1) f 0

abbrev pub write : List ℕ → Shell → Shell
write bs s = record s { console = s.console ++ bs }

unfoldable pub erase_one : Shell → Shell
erase_one s = write (8 ∷ 32 ∷ 8 ∷ []) s

abbrev pub paint : Shell → List ℕ
paint s = 13 ∷ (s.prompt_str ++ text s.len s.line)

unfoldable pub redraw : ℕ → Shell → Shell
redraw old_len s =
    if ltb s.len old_len
    then write (paint s ++ (replicate (old_len - s.len) 32 ++ paint s)) s
    else write (paint s) s

unfoldable pub shell_redraw_line : (ℕ → ℕ) → ℕ → Shell → Shell
shell_redraw_line src n s =
    let m = if ltb (line_max - 1) n then line_max - 1 else n in
    redraw s.len (record s { line = update (copy m src s.line) m 0; len = m })

-- `while (idx < 0) idx += SHELL_HISTORY_MAX`, where idx is `a - b`; `b` rounds are enough.
unfoldable pub wrap : ℕ → ℕ → ℕ → ℕ
wrap zero a b = a - b
wrap (suc n) a b = elim (ltb a b) [ true ↦ wrap n (a + history_max) b | false ↦ a - b ]

unfoldable pub shell_hist_recent_index : ℕ → ℕ → ℕ
shell_hist_recent_index head nav = wrap (1 + nav) head (1 + nav)

-- `while (i < len && a[i] == b[i]) i++`, with `n` for `len - i`.
unfoldable pub matched : ℕ → (ℕ → ℕ) → (ℕ → ℕ) → ℕ → ℕ
matched zero a b i = i
matched (suc n) a b i = elim (a i == b i) [ true ↦ matched n a b (suc i) | false ↦ i ]

-- The entry is the first `n` bytes of the line, as a string.
unfoldable pub is_entry : ℕ → (ℕ → ℕ) → (ℕ → ℕ) → Bool
is_entry n entry src = let i = matched n entry src 0 in (i == n) && (entry i == 0)

unfoldable pub is_repeated : ℕ → (ℕ → ℕ) → Shell → Bool
is_repeated n src s =
    ltb 0 s.hist_count && is_entry n (s.history (shell_hist_recent_index s.hist_head 0)) src

unfoldable pub push_entry : (ℕ → ℕ) → ℕ → Shell → Shell
push_entry src n s = record s {
  history = update s.history s.hist_head (update (copy n src (s.history s.hist_head)) n 0);
  hist_head = (s.hist_head + 1) % history_max;
  hist_count = if ltb s.hist_count history_max then s.hist_count + 1 else s.hist_count;
}

unfoldable pub shell_history_push : (ℕ → ℕ) → ℕ → Shell → Shell
shell_history_push src n s =
    if n == 0
    then s
    else (let m = if ltb (line_max - 1) n then line_max - 1 else n in
        if is_repeated m src s then s else push_entry src m s)

unfoldable pub show_entry : ℕ → Shell → Shell
show_entry nav s =
    let entry = s.history (shell_hist_recent_index s.hist_head nav) in
    shell_redraw_line entry (str_len entry) s

-- The first step back keeps the line that was typed.
unfoldable pub nav_up : Option ℕ → Shell → ℕ × Shell
nav_up none s = (
  0,
  record s {
    nav_scratch = update (copy s.len s.line s.nav_scratch) s.len 0;
    nav_scratch_len = s.len;
    nav_index = some 0;
  },
)
nav_up (some i) s =
    let j = if ltb (i + 1) s.hist_count then i + 1 else i in (j, record s { nav_index = some j })

unfoldable pub shell_history_up : Shell → Shell
shell_history_up s =
    if s.hist_count == 0
    then s
    else (let moved = nav_up s.nav_index s in show_entry moved.0 moved.1)

unfoldable pub nav_down : Option ℕ → Shell → Shell
nav_down none s = s
nav_down (some zero) s = record (shell_redraw_line s.nav_scratch s.nav_scratch_len s) {
  nav_index = none;
}
nav_down (some (suc i)) s = show_entry i (record s { nav_index = some i })

unfoldable pub shell_history_down : Shell → Shell
shell_history_down s = nav_down s.nav_index s

-- The line that goes to the dispatcher, and the editor after it.
unfoldable pub shell_submit_line : Shell → Option (List ℕ) × Shell
shell_submit_line s =
    let line = update s.line s.len 0 in
    let s₁ = shell_history_push line s.len (record (write (13 ∷ 10 ∷ []) s) { line = line }) in
    (some (text (str_len line) line), record s₁ { nav_index = none; nav_scratch_len = 0; len = 0 })

unfoldable pub shell_state_init : List ℕ → Shell → Shell
shell_state_init prompt s = record s {
  len = 0;
  hist_head = 0;
  hist_count = 0;
  nav_scratch_len = 0;
  nav_index = none;
  prompt_str = prompt;
  escape_state = 0;
  eol_state = 0;
  console = s.console ++ prompt;
}

unfoldable pub shell_rx_idle : Shell → Shell
shell_rx_idle s = record s { eol_state = 0 }
