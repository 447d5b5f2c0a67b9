-- ===== src/Shell/Safe.antt =====
-- The moves through the history keep the editor's state inside its bounds.
use rewind_os.Base.{ℕ, zero, suc, ◌+◌, ◌≤◌, ◌<◌, ◌≡◌, Option, none, some}
use rewind_os.Base.{List, update, ltb, ◌==◌, if◌then◌else◌, arith, if-cases}
use rewind_os.Shell.{
  Shell, copy, write, redraw, shell_redraw_line, is_repeated, push_entry, shell_history_push,
  show_entry, nav_up, nav_down, shell_history_up, shell_history_down,
}
use rewind_os.Shell.Arrays.{IsString, str_len-string, copied-IsString}
use rewind_os.Shell.History.{row, row-push_zero, row-push_suc}
use rewind_os.Shell.Bounds.{IsTyped, NavFits, ShellOk}

pub write-ShellOk : (bs : List ℕ) (s : Shell) → ShellOk s → ShellOk (write bs s)
write-ShellOk bs s h = record {
  typed = h.typed;
  scratch = h.scratch;
  head_fits = h.head_fits;
  count_fits = h.count_fits;
  nav_fits = h.nav_fits;
  strings = h.strings;
  escape_fits = h.escape_fits;
  eol_fits = h.eol_fits;
}

-- Another line, another place in the history, and other states of the escape and the line end.
pub with_line-ShellOk :
    (f : ℕ → ℕ) (n : ℕ) (nav : Option ℕ) (escape eol : ℕ) (s : Shell)
    → IsTyped f n
    → NavFits nav s.hist_count
    → escape ≤ 2
    → eol ≤ 2
    → ShellOk s
    → ShellOk
        (record s { line = f; len = n; nav_index = nav; escape_state = escape; eol_state = eol })
with_line-ShellOk f n nav escape eol s ty fits e2 l2 h = record {
  typed = ty;
  scratch = h.scratch;
  head_fits = h.head_fits;
  count_fits = h.count_fits;
  nav_fits = fits;
  strings = h.strings;
  escape_fits = e2;
  eol_fits = l2;
}

redraw-ShellOk : (old_len : ℕ) (s : Shell) → ShellOk s → ShellOk (redraw old_len s)
unfolding redraw
redraw-ShellOk old_len s h =
    if-cases ShellOk (ltb s.len old_len) _ _ (λ e. write-ShellOk _ s h) (λ e. write-ShellOk _ s h)

pub string-IsTyped : (f : ℕ → ℕ) (n : ℕ) → IsString f n → IsTyped f n
string-IsTyped f n st = record { chars = st.chars; fits = st.fits }

copied-IsTyped : (f dst : ℕ → ℕ) (n : ℕ) → IsTyped f n → IsTyped (update (copy n f dst) n 0) n
copied-IsTyped f dst n ty = string-IsTyped _ n (copied-IsString n f dst ty.chars ty.fits)

pub typed_whole : (f : ℕ → ℕ) (n : ℕ) → IsTyped f n → (if ltb 127 n then 127 else n) ≡ n
typed_whole f n ty = let fits = ty.fits in ground arith

pub shell_redraw_line-ShellOk :
    (src : ℕ → ℕ) (n : ℕ) (s : Shell)
    → IsTyped src n
    → ShellOk s
    → ShellOk (shell_redraw_line src n s)
unfolding shell_redraw_line
shell_redraw_line-ShellOk src n s ty h = rw (typed_whole src n ty) (
    redraw-ShellOk s.len _ (
      with_line-ShellOk (update (copy n src s.line) n 0) n s.nav_index s.escape_state s.eol_state s
        (copied-IsTyped src s.line n ty) h.nav_fits h.escape_fits h.eol_fits h))

show_entry-ShellOk :
    (nav : ℕ) (s : Shell) → nav < s.hist_count → ShellOk s → ShellOk (show_entry nav s)
unfolding show_entry
show_entry-ShellOk nav s lt h =
    let st = h.strings nav lt in
    rw (str_len-string (row s nav) st.0 st.1)
      (shell_redraw_line-ShellOk (row s nav) st.0 s (string-IsTyped (row s nav) st.0 st.1) h)

nav_grows : (nav : Option ℕ) (count more : ℕ) → count ≤ more → NavFits nav count → NavFits nav more
nav_grows none count more le h = tt
nav_grows (some i) count more le h = omega arith

push_count :
    (src : ℕ → ℕ) (n : ℕ) (s : Shell)
    → s.hist_count ≤ 8
    → (s.hist_count ≤ (push_entry src n s).hist_count)
      × ((push_entry src n s).hist_count ≤ s.hist_count + 1)
      × ((push_entry src n s).hist_count ≤ 8)
unfolding push_entry
push_count src n s le = ground arith

push_entry-strings :
    (src : ℕ → ℕ) (n : ℕ) (s : Shell)
    → IsTyped src n
    → ShellOk s
    → (k : ℕ) → k < (push_entry src n s).hist_count
    → (m : ℕ) × IsString (row (push_entry src n s) k) m
push_entry-strings src n s ty h zero lt = (
  n,
  rw (row-push_zero src n s h.head_fits)
      (copied-IsString n src (s.history s.hist_head) ty.chars ty.fits),
)
push_entry-strings src n s ty h (suc k) lt =
    let bounds = push_count src n s h.count_fits in
    let most = bounds.1 in
    let full = bounds.2 in
    let near : k < 7 = omega arith in
    let old = h.strings k (omega arith) in
    (old.0, rw (row-push_suc src n s k h.head_fits near) old.1)

push_entry-ShellOk :
    (src : ℕ → ℕ) (n : ℕ) (s : Shell) → IsTyped src n → ShellOk s → ShellOk (push_entry src n s)
unfolding push_entry
push_entry-ShellOk src n s ty h =
    let bounds = push_count src n s h.count_fits in
    record {
      typed = h.typed;
      scratch = h.scratch;
      head_fits = omega arith;
      count_fits = bounds.2;
      nav_fits = nav_grows s.nav_index _ _ bounds.0 h.nav_fits;
      strings = push_entry-strings src n s ty h;
      escape_fits = h.escape_fits;
      eol_fits = h.eol_fits;
    }

pub shell_history_push-ShellOk :
    (src : ℕ → ℕ) (n : ℕ) (s : Shell)
    → IsTyped src n
    → ShellOk s
    → ShellOk (shell_history_push src n s)
unfolding shell_history_push
shell_history_push-ShellOk src n s ty h =
    if-cases ShellOk (n == 0) _ _ (λ e. h)
      (λ e. rw (typed_whole src n ty) (
        if-cases ShellOk (is_repeated n src s) _ _ (λ f. h) (λ f. push_entry-ShellOk src n s ty h)))

pub nav_up-ShellOk :
    (nav : Option ℕ) (s : Shell)
    → NavFits nav s.hist_count
    → 0 < s.hist_count
    → ShellOk s
    → ShellOk (nav_up nav s).1 × ((nav_up nav s).0 < (nav_up nav s).1.hist_count)
unfolding nav_up
nav_up-ShellOk none s fits some_entry h = (
  record {
    typed = h.typed;
    scratch = copied-IsTyped s.line s.nav_scratch s.len h.typed;
    head_fits = h.head_fits;
    count_fits = h.count_fits;
    nav_fits = some_entry;
    strings = h.strings;
    escape_fits = h.escape_fits;
    eol_fits = h.eol_fits;
  },
  some_entry,
)
nav_up-ShellOk (some i) s fits some_entry h =
    let next : (if ltb (i + 1) s.hist_count then i + 1 else i) < s.hist_count = ground arith in
    (
      with_line-ShellOk s.line s.len _ s.escape_state s.eol_state s h.typed next h.escape_fits
          h.eol_fits h,
      next,
    )

pub shell_history_up-ShellOk : (s : Shell) → ShellOk s → ShellOk (shell_history_up s)
unfolding shell_history_up
shell_history_up-ShellOk s h =
    if-cases ShellOk (s.hist_count == 0) _ _ (λ e. h)
      (λ e.
        let some_entry : 0 < s.hist_count = ground arith in
        let moved = nav_up-ShellOk s.nav_index s h.nav_fits some_entry h in
        show_entry-ShellOk (nav_up s.nav_index s).0 (nav_up s.nav_index s).1 moved.1 moved.0)

redraw_nav :
    (src : ℕ → ℕ) (n : ℕ) (nav : Option ℕ) (s : Shell)
    → ShellOk (shell_redraw_line src n s)
    → NavFits nav (shell_redraw_line src n s).hist_count
    → ShellOk (record (shell_redraw_line src n s) { nav_index = nav })
redraw_nav src n nav s h fits =
    let t = shell_redraw_line src n s in
    with_line-ShellOk t.line t.len nav t.escape_state t.eol_state t h.typed fits h.escape_fits
      h.eol_fits h

nav_down-ShellOk :
    (nav : Option ℕ) (s : Shell) → NavFits nav s.hist_count → ShellOk s → ShellOk (nav_down nav s)
unfolding nav_down
nav_down-ShellOk none s fits h = h
nav_down-ShellOk (some zero) s fits h =
    redraw_nav s.nav_scratch s.nav_scratch_len none s
      (shell_redraw_line-ShellOk s.nav_scratch s.nav_scratch_len s h.scratch h) tt
nav_down-ShellOk (some (suc i)) s fits h =
    let lt : i < s.hist_count = omega arith in
    show_entry-ShellOk i (record s { nav_index = some i }) lt
      (with_line-ShellOk s.line s.len (some i) s.escape_state s.eol_state s h.typed lt h.escape_fits
        h.eol_fits h)

pub shell_history_down-ShellOk : (s : Shell) → ShellOk s → ShellOk (shell_history_down s)
unfolding shell_history_down
shell_history_down-ShellOk s h = nav_down-ShellOk s.nav_index s h.nav_fits h
