-- ===== src/Shell/Recall.antt =====
-- The arrow keys: the steps back through the history, and forward to the text that was being typed.
use rewind_os.Base.{ℕ, zero, suc, ◌+◌, ◌<◌, ◌≡◌, refl, ap, ap₂, ◌∙◌, false, Option, none, some}
use rewind_os.Base.{List, update, ltb, ◌==◌, if◌then◌else◌, arith, if-cases}
use rewind_os.Shell.{
  Shell, copy, text, str_len, write, redraw, shell_redraw_line, shell_hist_recent_index, show_entry,
  nav_up, nav_down, shell_history_up, shell_history_down,
}
use rewind_os.Shell.Arrays.{str_len-string, text-copied}
use rewind_os.Shell.History.{row, past, past_of}
use rewind_os.Shell.Bounds.{IsTyped, ShellOk}
use rewind_os.Shell.Safe.{
  string-IsTyped, with_line-ShellOk, typed_whole, nav_up-ShellOk, shell_history_up-ShellOk,
  shell_history_down-ShellOk,
}

-- The text of the input line.
abbrev pub typed_text : Shell → List ℕ
typed_text s = text s.len s.line

-- `t` is `s` with another text in the line and other bytes on the console.
pub record Redrawn (content : List ℕ) (s t : Shell) : Type 0 where
  pub shown : typed_text t ≡ content
  pub same_rows : t.history ≡ s.history
  pub same_head : t.hist_head ≡ s.hist_head
  pub same_count : t.hist_count ≡ s.hist_count
  pub same_nav : t.nav_index ≡ s.nav_index
  pub same_scratch : text t.nav_scratch_len t.nav_scratch ≡ text s.nav_scratch_len s.nav_scratch

written-Redrawn :
    (content bs : List ℕ) (s t : Shell) → Redrawn content s t → Redrawn content s (write bs t)
written-Redrawn content bs s t h = record {
  shown = h.shown;
  same_rows = h.same_rows;
  same_head = h.same_head;
  same_count = h.same_count;
  same_nav = h.same_nav;
  same_scratch = h.same_scratch;
}

redraw-Redrawn :
    (content : List ℕ) (old_len : ℕ) (s t : Shell)
    → Redrawn content s t
    → Redrawn content s (redraw old_len t)
unfolding redraw
redraw-Redrawn content old_len s t h =
    if-cases (Redrawn content s) (ltb t.len old_len) _ _ (λ e. written-Redrawn content _ s t h)
      (λ e. written-Redrawn content _ s t h)

pub shell_redraw_line-Redrawn :
    (src : ℕ → ℕ) (n : ℕ) (s : Shell)
    → IsTyped src n
    → Redrawn (text n src) s (shell_redraw_line src n s)
unfolding shell_redraw_line
shell_redraw_line-Redrawn src n s ty =
    let whole = typed_whole src n ty in
    rw whole (
      redraw-Redrawn (text n src) s.len s _ (record {
        shown = text-copied n src s.line;
        same_rows = refl;
        same_head = refl;
        same_count = refl;
        same_nav = refl;
        same_scratch = refl;
      }))

show_entry-Redrawn :
    (nav : ℕ) (s : Shell)
    → ShellOk s
    → nav < s.hist_count
    → Redrawn (past s nav) s (show_entry nav s)
unfolding show_entry
show_entry-Redrawn nav s h lt =
    let st = h.strings nav lt in
    shell_redraw_line-Redrawn (row s nav) (str_len (row s nav)) s
      (rw (str_len-string (row s nav) st.0 st.1) (string-IsTyped (row s nav) st.0 st.1))

-- `t` shows the entry that is `k` steps back in the history of `s`, and keeps the text of `s` aside.
pub record At (s : Shell) (k : ℕ) (t : Shell) : Type 0 where
  pub okay : ShellOk t
  pub here : t.nav_index ≡ some k
  pub shows : typed_text t ≡ past s k
  pub aside : text t.nav_scratch_len t.nav_scratch ≡ typed_text s
  pub same_rows : t.history ≡ s.history
  pub same_head : t.hist_head ≡ s.hist_head
  pub same_count : t.hist_count ≡ s.hist_count

nav_up_first :
    (nav : Option ℕ) (s : Shell)
    → nav ≡ none
    → nav_up nav s ≡ (
      0,
      record s {
        nav_scratch = update (copy s.len s.line s.nav_scratch) s.len 0;
        nav_scratch_len = s.len;
        nav_index = some 0;
      },
    )
unfolding nav_up
nav_up_first none s e = refl
nav_up_first (some i) s e = cc

nav_up_next :
    (nav : Option ℕ) (s : Shell) (i : ℕ)
    → nav ≡ some i
    → i + 1 < s.hist_count
    → nav_up nav s ≡ (i + 1, record s { nav_index = some (i + 1) })
unfolding nav_up
nav_up_next none s i e lt = cc
nav_up_next (some j) s i e lt =
    let same : j ≡ i = cc in
    let t : (if ltb (j + 1) s.hist_count then j + 1 else j) ≡ i + 1 = ground arith in
    ap (λ k. (k, record s { nav_index = some k })) t

up_shows :
    (s : Shell)
    → ShellOk s
    → 0 < s.hist_count
    → let moved = nav_up s.nav_index s in
      Redrawn (past moved.1 moved.0) moved.1 (shell_history_up s)
unfolding shell_history_up
up_shows s h some_entry =
    let moved = nav_up-ShellOk s.nav_index s h.nav_fits some_entry h in
    let t : (s.hist_count == 0) ≡ false = ground arith in
    rw t (show_entry-Redrawn (nav_up s.nav_index s).0 (nav_up s.nav_index s).1 moved.0 moved.1)

up_first :
    (s : Shell) → ShellOk s → s.nav_index ≡ none → 0 < s.hist_count → At s 0 (shell_history_up s)
up_first s h start some_entry =
    let r = rw (nav_up_first s.nav_index s start) at (up_shows s h some_entry) in
    record {
      okay = shell_history_up-ShellOk s h;
      here = r.same_nav;
      shows = r.shown;
      aside = r.same_scratch ∙ text-copied s.len s.line s.nav_scratch;
      same_rows = r.same_rows;
      same_head = r.same_head;
      same_count = r.same_count;
    }

-- The history is the same, so its entries are.
past_same :
    (s t : Shell) (k : ℕ) → t.history ≡ s.history → t.hist_head ≡ s.hist_head → past t k ≡ past s k
past_same s t k rows head =
    ap₂ (λ (h : ℕ → ℕ → ℕ) (i : ℕ). past_of (h (shell_hist_recent_index i k))) rows head

up_next :
    (s t : Shell) (k : ℕ) → At s k t → k + 1 < s.hist_count → At s (k + 1) (shell_history_up t)
up_next s t k a lt =
    let count = a.same_count in
    let r =
      rw (nav_up_next t.nav_index t k a.here (omega arith)) at (up_shows t a.okay (omega arith)) in
    record {
      okay = shell_history_up-ShellOk t a.okay;
      here = r.same_nav;
      shows = r.shown ∙ past_same s t (k + 1) a.same_rows a.same_head;
      aside = r.same_scratch ∙ a.aside;
      same_rows = r.same_rows ∙ a.same_rows;
      same_head = r.same_head ∙ a.same_head;
      same_count = r.same_count ∙ a.same_count;
    }

nav_down_back :
    (nav : Option ℕ) (t : Shell) (k : ℕ)
    → nav ≡ some (suc k)
    → nav_down nav t ≡ show_entry k (record t { nav_index = some k })
unfolding nav_down
nav_down_back none t k e = cc
nav_down_back (some zero) t k e = absurd (cc)
nav_down_back (some (suc i)) t k e =
    let same : i ≡ k = cc in ap (λ j. show_entry j (record t { nav_index = some j })) same

nav_down_typed :
    (nav : Option ℕ) (t : Shell)
    → nav ≡ some 0
    → nav_down nav t
      ≡ (record (shell_redraw_line t.nav_scratch t.nav_scratch_len t) { nav_index = none })
unfolding nav_down
nav_down_typed none t e = cc
nav_down_typed (some zero) t e = refl
nav_down_typed (some (suc i)) t e = absurd (cc)

down_unfolded : (t : Shell) → shell_history_down t ≡ nav_down t.nav_index t
unfolding shell_history_down
down_unfolded t = refl

abbrev aside_text : Shell → List ℕ
aside_text t = text t.nav_scratch_len t.nav_scratch

down_next :
    (s t : Shell) (k : ℕ) → At s (suc k) t → k < s.hist_count → At s k (shell_history_down t)
down_next s t k a lt =
    let count = a.same_count in
    let h = a.okay in
    let nt : k < t.hist_count = omega arith in
    let moved =
      with_line-ShellOk t.line t.len (some k) t.escape_state t.eol_state t h.typed nt h.escape_fits
        h.eol_fits h in
    let r = show_entry-Redrawn k (record t { nav_index = some k }) moved nt in
    let step : shell_history_down t ≡ show_entry k (record t { nav_index = some k }) =
      down_unfolded t ∙ nav_down_back t.nav_index t k a.here in
    record {
      okay = shell_history_down-ShellOk t h;
      here = ap (λ u. u.nav_index) step ∙ r.same_nav;
      shows = ap typed_text step ∙ r.shown ∙ past_same s t k a.same_rows a.same_head;
      aside = ap aside_text step ∙ r.same_scratch ∙ a.aside;
      same_rows = ap (λ u. u.history) step ∙ r.same_rows ∙ a.same_rows;
      same_head = ap (λ u. u.hist_head) step ∙ r.same_head ∙ a.same_head;
      same_count = ap (λ u. u.hist_count) step ∙ r.same_count ∙ a.same_count;
    }

down_last :
    (s t : Shell)
    → At s 0 t
    → (typed_text (shell_history_down t) ≡ typed_text s) × ((shell_history_down t).nav_index ≡ none)
down_last s t a =
    let r = shell_redraw_line-Redrawn t.nav_scratch t.nav_scratch_len t a.okay.scratch in
    let step = down_unfolded t ∙ nav_down_typed t.nav_index t a.here in
    (ap typed_text step ∙ r.shown ∙ a.aside, ap (λ u. u.nav_index) step)

-- The up key, and then the down key, so many times.
abbrev pub ups : ℕ → Shell → Shell
ups zero s = s
ups (suc k) s = shell_history_up (ups k s)

abbrev pub downs : ℕ → Shell → Shell
downs zero s = s
downs (suc k) s = downs k (shell_history_down s)

ups-At :
    (k : ℕ) (s : Shell) → ShellOk s → s.nav_index ≡ none → k < s.hist_count → At s k (ups (suc k) s)
ups-At zero s h start lt = up_first s h start lt
ups-At (suc k) s h start lt =
    let n : suc k ≡ k + 1 = omega arith in
    rw n (up_next s (ups (suc k) s) k (ups-At k s h start (omega arith)) (omega arith))

downs-typed :
    (k : ℕ) (s t : Shell)
    → At s k t
    → k < s.hist_count
    → (typed_text (downs (suc k) t) ≡ typed_text s) × ((downs (suc k) t).nav_index ≡ none)
downs-typed zero s t a lt = down_last s t a
downs-typed (suc k) s t a lt =
    downs-typed k s (shell_history_down t) (down_next s t k a (omega arith)) (omega arith)

-- From the text being typed, the up key pressed k + 1 times shows the entry k steps back, and the down key
-- pressed as often shows the text again and leaves the history, if there are more than k entries.
pub ups-downs :
    (k : ℕ) (s : Shell)
    → ShellOk s
    → s.nav_index ≡ none
    → k < s.hist_count
    → (typed_text (ups (suc k) s) ≡ past s k)
      × ((typed_text (downs (suc k) (ups (suc k) s)) ≡ typed_text s)
          × ((downs (suc k) (ups (suc k) s)).nav_index ≡ none))
ups-downs k s h start lt =
    let a = ups-At k s h start lt in (a.shows, downs-typed k s (ups (suc k) s) a lt)
