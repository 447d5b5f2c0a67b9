-- ===== src/Shell/Bytes.antt =====
-- Every byte keeps the editor's state inside its bounds.
use native.Mathlib.Decide.{ℕ_discrete}
use rewind_os.Base.{ℕ, ◌+◌, ◌-◌, ◌≤◌, ◌<◌, ◌≢◌, sym, ap, ◌∙◌, ◌&&◌, ◌||◌, Option, none}
use rewind_os.Base.{
  List, [], ◌∷◌, update, update_self, update_ne, ltb, leb, ◌==◌, if◌then◌else◌, arith, if-cases,
  ltb→lt,
}
use rewind_os.Shell.{Shell, write, erase_one, shell_submit_line, shell_state_init, shell_rx_idle}
use rewind_os.Shell.Keys.{
  Eol, swallowed, goes_on, eol_step, arrow, backspace, insert_char, edit, plain_key, key, after_eol,
  shell_byte,
}
use rewind_os.Shell.Bounds.{IsTyped, ShellOk}
use rewind_os.Shell.Safe.{
  write-ShellOk, with_line-ShellOk, shell_history_push-ShellOk, shell_history_up-ShellOk,
  shell_history_down-ShellOk,
}

-- The end of the text is written behind it.
pub ended-IsTyped : (f : ℕ → ℕ) (n : ℕ) → IsTyped f n → IsTyped (update f n 0) n
ended-IsTyped f n ty = record {
  chars = λ i lt e. ty.chars i lt (sym (update_ne f n i 0 (omega arith)) ∙ e);
  fits = ty.fits;
}

cleared-ShellOk :
    (s : Shell) → ShellOk s → ShellOk (record s { nav_index = none; nav_scratch_len = 0; len = 0 })
cleared-ShellOk s h = record {
  typed = record { chars = λ i lt. absurd (omega arith); fits = omega arith };
  scratch = record { chars = λ i lt. absurd (omega arith); fits = omega arith };
  head_fits = h.head_fits;
  count_fits = h.count_fits;
  nav_fits = tt;
  strings = h.strings;
  escape_fits = h.escape_fits;
  eol_fits = h.eol_fits;
}

abbrev ended : Shell → Shell
ended s = record (write (13 ∷ 10 ∷ []) s) { line = update s.line s.len 0 }

ended-ShellOk : (s : Shell) → ShellOk s → ShellOk (ended s)
ended-ShellOk s h =
    with_line-ShellOk (update s.line s.len 0) s.len s.nav_index s.escape_state s.eol_state
      (write (13 ∷ 10 ∷ []) s) (ended-IsTyped s.line s.len h.typed) h.nav_fits h.escape_fits
      h.eol_fits (write-ShellOk (13 ∷ 10 ∷ []) s h)

pub shell_submit_line-ShellOk : (s : Shell) → ShellOk s → ShellOk (shell_submit_line s).1
unfolding shell_submit_line
shell_submit_line-ShellOk s h = cleared-ShellOk _ (
    shell_history_push-ShellOk (update s.line s.len 0) s.len (ended s)
      (ended-IsTyped s.line s.len h.typed) (ended-ShellOk s h))

pub states-ShellOk :
    (escape eol : ℕ) (s : Shell)
    → escape ≤ 2
    → eol ≤ 2
    → ShellOk s
    → ShellOk (record s { escape_state = escape; eol_state = eol })
states-ShellOk escape eol s e2 l2 h =
    with_line-ShellOk s.line s.len s.nav_index escape eol s h.typed h.nav_fits e2 l2 h

EolOk : Eol → Type 0
EolOk (swallowed s) = ShellOk s
EolOk (goes_on s) = ShellOk s

eol_step-EolOk : (c : ℕ) (s : Shell) → ShellOk s → EolOk (eol_step c s)
unfolding eol_step EolOk
eol_step-EolOk c s h =
    let to = λ (n : ℕ) (le : n ≤ 2). states-ShellOk s.escape_state n s h.escape_fits le h in
    if-cases EolOk (s.eol_state == 1) _ _
      (λ e.
        if-cases EolOk (c == 10) _ _ (λ f. to 0 (omega arith))
          (λ f. if-cases EolOk (c == 13) _ _ (λ g. to 2 (omega arith)) (λ g. to 0 (omega arith))))
      (λ e.
        if-cases EolOk (s.eol_state == 2) _ _
          (λ f. if-cases EolOk (c == 10) _ _ (λ g. to 0 (omega arith)) (λ g. to 0 (omega arith)))
          (λ f. h))

backspace-ShellOk : (s : Shell) → ShellOk s → ShellOk (backspace s)
unfolding backspace erase_one
backspace-ShellOk s h =
    let fits = h.typed.fits in
    if-cases ShellOk (ltb 0 s.len) _ _
      (λ e. write-ShellOk _ _ (
        with_line-ShellOk s.line (s.len - 1) s.nav_index s.escape_state s.eol_state s
          (record { chars = λ i lt. h.typed.chars i (omega arith); fits = omega arith }) h.nav_fits
          h.escape_fits h.eol_fits h))
      (λ e. h)

inserted-IsTyped :
    (f : ℕ → ℕ) (n c : ℕ) → IsTyped f n → c ≢ 0 → n < 127 → IsTyped (update f n c) (n + 1)
inserted-IsTyped f n c ty nonzero lt = record {
  chars = λ i li e. elim (ℕ_discrete n i) [
    | yes here ↦ nonzero (sym (update_self f n c) ∙ ap (update f n c) here ∙ e)
    | no ne ↦ ty.chars i (omega arith) (sym (update_ne f n i c ne) ∙ e)
  ];
  fits = omega arith;
}

insert_char-ShellOk : (c : ℕ) (s : Shell) → c ≢ 0 → ShellOk s → ShellOk (insert_char c s)
unfolding insert_char
insert_char-ShellOk c s nonzero h =
    if-cases ShellOk (ltb s.len 127) _ _
      (λ e. write-ShellOk _ _ (
        with_line-ShellOk (update s.line s.len c) (s.len + 1) s.nav_index s.escape_state s.eol_state
          s (inserted-IsTyped s.line s.len c h.typed nonzero (ltb→lt _ _ e)) h.nav_fits
          h.escape_fits h.eol_fits h))
      (λ e. write-ShellOk _ s h)

edit-ShellOk : (c : ℕ) (s : Shell) → ShellOk s → ShellOk (edit c s)
unfolding edit
edit-ShellOk c s h =
    if-cases ShellOk ((c == 8) || (c == 0x7f)) _ _ (λ e. backspace-ShellOk s h)
      (λ e.
        if-cases ShellOk (leb 0x20 c && leb c 0x7e) _ _
          (λ f. insert_char-ShellOk c s (ground arith) h) (λ f. h))

-- The editor after a byte.
Keeps : Option (List ℕ) × Shell → Type 0
Keeps r = ShellOk r.1

plain_key-Keeps : (c : ℕ) (s : Shell) → ShellOk s → Keeps (plain_key c s)
unfolding plain_key Keeps
plain_key-Keeps c s h =
    let to = λ (escape eol : ℕ) (a : escape ≤ 2) (b : eol ≤ 2). states-ShellOk escape eol s a b h in
    if-cases Keeps (c == 0x1b) _ _ (λ e. to 1 0 (omega arith) (omega arith))
      (λ e.
        if-cases Keeps (c == 13) _ _
          (λ f. shell_submit_line-ShellOk _ (to s.escape_state 1 h.escape_fits (omega arith)))
          (λ f.
            if-cases Keeps (c == 10) _ _
              (λ g. shell_submit_line-ShellOk _ (to s.escape_state 0 h.escape_fits (omega arith)))
              (λ g. edit-ShellOk c s h)))

arrow-ShellOk : (c : ℕ) (s : Shell) → ShellOk s → ShellOk (arrow c s)
unfolding arrow
arrow-ShellOk c s h =
    if-cases ShellOk (c == b'A') _ _ (λ e. shell_history_up-ShellOk s h)
      (λ e. if-cases ShellOk (c == b'B') _ _ (λ f. shell_history_down-ShellOk s h) (λ f. h))

key-Keeps : (c : ℕ) (s : Shell) → ShellOk s → Keeps (key c s)
unfolding key Keeps
key-Keeps c s h =
    let to = λ (n : ℕ) (le : n ≤ 2). states-ShellOk n s.eol_state s le h.eol_fits h in
    if-cases Keeps (s.escape_state == 1) _ _ (λ e. to (if c == b'[' then 2 else 0) (ground arith))
      (λ e.
        if-cases Keeps (s.escape_state == 2) _ _ (λ f. arrow-ShellOk c _ (to 0 (omega arith)))
          (λ f. plain_key-Keeps c s h))

after_eol-Keeps : (c : ℕ) (e : Eol) → EolOk e → Keeps (after_eol c e)
unfolding after_eol EolOk Keeps
after_eol-Keeps c (swallowed s) h = h
after_eol-Keeps c (goes_on s) h = key-Keeps c s h

pub shell_byte-ShellOk : (c : ℕ) (s : Shell) → ShellOk s → ShellOk (shell_byte c s).1
unfolding shell_byte Keeps
shell_byte-ShellOk c s h = after_eol-Keeps c (eol_step c s) (eol_step-EolOk c s h)

pub shell_state_init-ShellOk : (prompt : List ℕ) (s : Shell) → ShellOk (shell_state_init prompt s)
unfolding shell_state_init
shell_state_init-ShellOk prompt s = record {
  typed = record { chars = λ i lt. absurd (omega arith); fits = omega arith };
  scratch = record { chars = λ i lt. absurd (omega arith); fits = omega arith };
  head_fits = omega arith;
  count_fits = omega arith;
  nav_fits = tt;
  strings = λ k lt. absurd (omega arith);
  escape_fits = omega arith;
  eol_fits = omega arith;
}

-- What reaches the editor: a byte, or the notice that no byte has come for a while.
pub data Arrival : Type 0 where
  byte : ℕ → Arrival
  pause : Arrival

abbrev pub arrive : List Arrival → Shell → Shell
arrive [] s = s
arrive (byte c ∷ rest) s = arrive rest (shell_byte c s).1
arrive (pause ∷ rest) s = arrive rest (shell_rx_idle s)

rx_idle-ShellOk : (s : Shell) → ShellOk s → ShellOk (shell_rx_idle s)
unfolding shell_rx_idle
rx_idle-ShellOk s h = states-ShellOk s.escape_state 0 s h.escape_fits (omega arith) h

arrive_from : (arrivals : List Arrival) (s : Shell) → ShellOk s → ShellOk (arrive arrivals s)
arrive_from [] s h = h
arrive_from (byte c ∷ rest) s h = arrive_from rest (shell_byte c s).1 (shell_byte-ShellOk c s h)
arrive_from (pause ∷ rest) s h = arrive_from rest (shell_rx_idle s) (rx_idle-ShellOk s h)

-- From its initial state, whatever bytes and pauses arrive, the editor keeps its bounds: the line and the typed
-- text that is kept aside have at most 127 bytes and no zero in them, the history has at most 8 entries, each a
-- string that fits its row, the place in the history is one of them, and the two state numbers are at most 2.
pub arrive-ShellOk :
    (arrivals : List Arrival) (prompt : List ℕ) (s : Shell)
    → ShellOk (arrive arrivals (shell_state_init prompt s))
arrive-ShellOk arrivals prompt s =
    arrive_from arrivals (shell_state_init prompt s) (shell_state_init-ShellOk prompt s)
