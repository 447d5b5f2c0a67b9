-- ===== src/Shell/Bounds.antt =====
-- What holds of the editor's state at all times: every index stays inside its array, the text of the line
-- and of the history has no zero in it, and the entries of the history are strings.
use native.Mathlib.Decide.{ℕ_discrete}
use rewind_os.Base.{
  ℕ, zero, suc, ◌+◌, ◌≤◌, ◌<◌, ◌≡◌, ◌≢◌, ◌⊎◌, inl, inr, refl, ap, ◌∙◌, Bool, true, false, ◌&&◌,
  Option, none, some,
}
use rewind_os.Base.{
  List, [], ◌∷◌, length, length-append, ltb, ◌==◌, if◌then◌else◌, arith, min, if-cases, ltb→lt,
}
use rewind_os.Shell.{Shell, text, is_entry, is_repeated, push_entry, shell_history_push}
use rewind_os.Shell.Arrays.{IsString, str_len-string, copied-IsString, text-copied}
use rewind_os.Shell.History.{
  row, past, past_of, row-push_zero, row-push_suc, is_entry-true, is_entry-false,
}

-- The first `n` bytes are no zeros, and they fit with one at the end.
pub record IsTyped (f : ℕ → ℕ) (n : ℕ) : Type 0 where
  pub chars : (i : ℕ) → i < n → f i ≢ 0
  pub fits : n ≤ 127

abbrev pub NavFits : Option ℕ → ℕ → Type 0
NavFits none count = Unit {0}
NavFits (some i) count = i < count

pub record ShellOk (s : Shell) : Type 0 where
  pub typed : IsTyped s.line s.len
  pub scratch : IsTyped s.nav_scratch s.nav_scratch_len
  pub head_fits : s.hist_head < 8
  pub count_fits : s.hist_count ≤ 8
  pub nav_fits : NavFits s.nav_index s.hist_count
  pub strings : (k : ℕ) → k < s.hist_count → (n : ℕ) × IsString (row s k) n
  pub escape_fits : s.escape_state ≤ 2
  pub eol_fits : s.eol_state ≤ 2

-- What a submitted text does to the history.
pub data Pushed (new : List ℕ) (s s' : Shell) : Type 0 where
  empty : new ≡ [] → s' ≡ s → Pushed new s s'
  kept : 0 < s.hist_count → past s 0 ≡ new → s' ≡ s → Pushed new s s'
  added :
      0 < length new
      → (s.hist_count ≡ 0) ⊎ (past s 0 ≢ new)
      → s'.hist_count ≡ min 8 (s.hist_count + 1)
      → past s' 0 ≡ new
      → ((k : ℕ) → k < 7 → past s' (suc k) ≡ past s k)
      → Pushed new s s'

past-push :
    (src : ℕ → ℕ) (n : ℕ) (s : Shell)
    → s.hist_head < 8
    → IsTyped src n
    → past (push_entry src n s) 0 ≡ text n src
past-push src n s lt ty =
    ap past_of (row-push_zero src n s lt)
    ∙ rw (str_len-string _ n (copied-IsString n src (s.history s.hist_head) ty.chars ty.fits))
        (text-copied n src (s.history s.hist_head))

and_true : (a b : Bool) → (a && b) ≡ true → (a ≡ true) × (b ≡ true)
and_true a b e = ground arith

-- The test for a repeated line.
is_repeated-true :
    (src : ℕ → ℕ) (n : ℕ) (s : Shell)
    → ShellOk s
    → IsTyped src n
    → is_repeated n src s ≡ true
    → (0 < s.hist_count) × (past s 0 ≡ text n src)
unfolding is_repeated
is_repeated-true src n s okay ty e =
    let both = and_true (ltb 0 s.hist_count) (is_entry n (row s 0) src) e in
    let lt = ltb→lt 0 s.hist_count both.0 in
    let st = okay.strings 0 lt in (lt, is_entry-true n st.0 (row s 0) src st.1 ty.chars both.1)

is_repeated-false :
    (src : ℕ → ℕ) (n : ℕ) (s : Shell)
    → ShellOk s
    → IsTyped src n
    → is_repeated n src s ≡ false
    → (s.hist_count ≡ 0) ⊎ (past s 0 ≢ text n src)
unfolding is_repeated
is_repeated-false src n s okay ty e = elim (ℕ_discrete s.hist_count 0) [
  | yes z ↦ inl z
  | no nz ↦
      (let lt : 0 < s.hist_count = omega arith in
        let st = okay.strings 0 lt in
        let test : is_entry n (row s 0) src ≡ false = ground arith in
        inr (is_entry-false n st.0 (row s 0) src st.1 ty.chars test))
]

text_nonempty : (n : ℕ) (src : ℕ → ℕ) → 0 < n → 0 < length (text n src)
unfolding text
text_nonempty zero src lt = absurd (omega arith)
text_nonempty (suc n) src lt = omega (arith, length-append (text n src) (src n ∷ []))

push_entry-added :
    (src : ℕ → ℕ) (n : ℕ) (s : Shell)
    → ShellOk s
    → IsTyped src n
    → 0 < length (text n src)
    → (s.hist_count ≡ 0) ⊎ (past s 0 ≢ text n src)
    → Pushed (text n src) s (push_entry src n s)
unfolding push_entry
push_entry-added src n s okay ty some_text new =
    let full = okay.count_fits in
    added some_text new (ground arith) (past-push src n s okay.head_fits ty)
      (λ k lt. ap past_of (row-push_suc src n s k okay.head_fits lt))

-- Submitting a text to the history does nothing if it is empty or repeats the latest entry; else the text
-- becomes the latest entry, the others move back by one place, and the ninth is dropped.
pub shell_history_push_lem :
    (src : ℕ → ℕ) (n : ℕ) (s : Shell)
    → ShellOk s
    → IsTyped src n
    → Pushed (text n src) s (shell_history_push src n s)
unfolding shell_history_push text
shell_history_push_lem src n s okay ty =
    let fits = ty.fits in
    let whole : (if ltb 127 n then 127 else n) ≡ n = ground arith in
    if-cases (Pushed (text n src) s) (n == 0) _ _
      (λ e. let z : n ≡ 0 = ground arith in empty (rw z refl) refl)
      (λ e.
        let some_text = text_nonempty n src (ground arith) in
        rw whole (
          if-cases (Pushed (text n src) s) (is_repeated n src s) _ _
            (λ rep. let t = is_repeated-true src n s okay ty rep in kept t.0 t.1 refl)
            (λ rep.
              push_entry-added src n s okay ty some_text (is_repeated-false src n s okay ty rep))))
