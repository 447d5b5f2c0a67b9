-- ===== src/Shell/Tests.antt =====
-- The theorems on the line editor at short inputs.
use rewind_os.Base.{ℕ, zero, suc, ◌<◌, ◌≡◌, ◌≢◌, refl, List, [], ◌∷◌, arith, none}
use rewind_os.Base.{Bool, true, false}
use rewind_os.Shell.Blocking.{shell_loop}
use rewind_os.Shell.Agree.{Agree, NoEscape, hear}
use rewind_os.Shell.Rounds.{shell_loop_agrees}
use rewind_os.Shell.{Shell, text, shell_history_push, push_entry, is_repeated, shell_state_init}
use rewind_os.Shell.Bounds.{IsTyped, ShellOk, Pushed, shell_history_push_lem}
use rewind_os.Shell.Bytes.{Arrival, byte, pause, arrive, arrive-ShellOk, shell_state_init-ShellOk}
use rewind_os.Shell.Recall.{ups, downs, typed_text, ups-downs}
use rewind_os.Shell.Safe.{shell_history_push-ShellOk}
use rewind_os.Shell.History.{past}
use rewind_os.Shell.Lines.{feed}
use rewind_os.Shell.Submit.{lf, crcrlf, LineEnd, IsIdle, line_bytes, feed_lines}

abbrev blank : Shell
blank = record {
  line = λ i. 0;
  history = λ i j. 0;
  nav_scratch = λ i. 0;
  len = 0;
  hist_head = 0;
  hist_count = 0;
  nav_scratch_len = 0;
  nav_index = none;
  prompt_str = [];
  escape_state = 0;
  eol_state = 0;
  console = [];
}

abbrev prompt : List ℕ
prompt = b'>' ∷ 32 ∷ []

abbrev started : Shell
started = shell_state_init prompt blank

started-IsIdle : IsIdle started
unfolding shell_state_init
started-IsIdle = record {
  ready = record { okay = shell_state_init-ShellOk prompt blank; no_escape = refl };
  no_text = refl;
}

-- "ab", CR LF, then ESC [ A.
abbrev arrivals : List Arrival
arrivals = byte b'a' ∷ byte b'b' ∷ byte 13 ∷ byte 10 ∷ pause ∷ byte 27 ∷ byte b'[' ∷ byte b'A' ∷ []

arrive-ShellOk_example : ShellOk (arrive arrivals started)
arrive-ShellOk_example = arrive-ShellOk arrivals prompt blank

abbrev two_lines : List (List ℕ × LineEnd)
two_lines = (b'a' ∷ b'b' ∷ [], crcrlf) ∷ (b'c' ∷ [], lf) ∷ []

feed_lines_example :
    ((feed (line_bytes two_lines) started).0 ≡ (b'a' ∷ b'b' ∷ []) ∷ (b'c' ∷ []) ∷ [])
    × IsIdle (feed (line_bytes two_lines) started).1
feed_lines_example = feed_lines two_lines started started-IsIdle (
  (((omega arith, omega arith), ((omega arith, omega arith), tt)), (cc, omega arith)),
  ((((omega arith, omega arith), tt), (cc, omega arith)), tt),
)

abbrev ab : ℕ → ℕ
ab zero = b'a'
ab (suc zero) = b'b'
ab (suc (suc i)) = 0

ab_nonzero : (i : ℕ) → i < 2 → ab i ≢ 0
ab_nonzero zero lt = omega arith
ab_nonzero (suc zero) lt = omega arith
ab_nonzero (suc (suc i)) lt = absurd (omega arith)

ab-IsTyped : IsTyped ab 2
ab-IsTyped = record { chars = λ i lt. ab_nonzero i lt; fits = omega arith }

shell_history_push_lem_example : Pushed (text 2 ab) started (shell_history_push ab 2 started)
shell_history_push_lem_example =
    shell_history_push_lem ab 2 started (shell_state_init-ShellOk prompt blank) ab-IsTyped

-- With "ab" in the history, and nothing typed.
abbrev recorded : Shell
recorded = shell_history_push ab 2 started

recorded-ShellOk : ShellOk recorded
recorded-ShellOk =
    shell_history_push-ShellOk ab 2 started ab-IsTyped (shell_state_init-ShellOk prompt blank)

recorded_lem : (recorded.nav_index ≡ none) × (recorded.hist_count ≡ 1)
unfolding shell_history_push push_entry is_repeated shell_state_init
recorded_lem = (refl, refl)

ups-downs_example :
    (typed_text (ups 1 recorded) ≡ past recorded 0)
    × ((typed_text (downs 1 (ups 1 recorded)) ≡ typed_text recorded)
        × ((downs 1 (ups 1 recorded)).nav_index ≡ none))
ups-downs_example =
    ups-downs 0 recorded recorded-ShellOk recorded_lem.0 (omega (arith, recorded_lem.1))

-- "a", CR, a pause, LF, "b", backspace, LF.
abbrev typed_bytes : List (Bool × ℕ)
typed_bytes =
    (false, b'a') ∷ (false, 13) ∷ (true, 10) ∷ (false, b'b') ∷ (false, 8) ∷ (false, 10) ∷ []

typed_bytes-NoEscape : NoEscape typed_bytes
typed_bytes-NoEscape =
    (omega arith, (omega arith, (omega arith, (omega arith, (omega arith, (omega arith, tt))))))

shell_loop_agrees_example :
    ((hear typed_bytes started).0 ≡ (shell_loop prompt typed_bytes blank.line).0)
    × Agree (hear typed_bytes started).1 (shell_loop prompt typed_bytes blank.line).1
shell_loop_agrees_example = shell_loop_agrees prompt typed_bytes blank typed_bytes-NoEscape
