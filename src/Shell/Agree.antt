-- ===== src/Shell/Agree.antt =====
-- The two line editors step by step: a byte does the same to their lines.
use rewind_os.Base.{
  ℕ, ◌≡◌, ◌≢◌, refl, sym, ap, ap₂, ◌∙◌, Bool, true, false, ◌&&◌, ◌||◌, Option, none, List, [], ◌∷◌,
  update, ltb, leb, ◌==◌, if◌then◌else◌, if-cases, arith,
}
use mathlib.Core.Path.{subst}
use rewind_os.Shell.{
  Shell, shell_rx_idle, write, erase_one, shell_history_push, push_entry, is_repeated,
  shell_submit_line,
}
use rewind_os.Shell.Keys.{
  Eol, swallowed, goes_on, eol_step, key, plain_key, edit, backspace, insert_char, after_eol,
  shell_byte,
}
use rewind_os.Shell.Lines.{emit}
use rewind_os.Shell.Blocking.{
  Editor, Tail, taken, other, tail_step, dispatch_line, rub_out, type_char, edit_byte, quiet,
}

-- What holds of both branches of two tests that are one holds of the tests.
if-cases₂ {ℓ ℓ' ℓ''} :
    {A : Type ℓ} {B : Type ℓ'} (P : A → B → Type ℓ'') (b : Bool) (x y : A) (x' y' : B)
    → (b ≡ true → P x x')
    → (b ≡ false → P y y')
    → P (if b then x else y) (if b then x' else y')
if-cases₂ P true x y x' y' f g = f refl
if-cases₂ P false x y x' y' f g = g refl

-- The editors have the same line, and no escape sequence has begun.
pub record Agree (s : Shell) (e : Editor) : Type 0 where
  pub same_line : s.line ≡ e.line
  pub same_len : s.len ≡ e.len
  pub same_eol : s.eol_state ≡ e.eol_state
  pub no_escape : s.escape_state ≡ 0

-- The state of the other editor, with what it has sent.
abbrev seen : List ℕ → Shell → Editor
seen out s = record { line = s.line; len = s.len; eol_state = s.eol_state; console = out }

unfoldable pub Both : Option (List ℕ) × Shell → Option (List ℕ) × Editor → Type 0
Both r q = (r.0 ≡ q.0) × Agree r.1 q.1

BothEol : Eol → Tail → Type 0
BothEol (swallowed s) (taken e) = Agree s e
BothEol (goes_on s) (other e) = Agree s e
BothEol _ _ = ⊥

seen-Agree : (out : List ℕ) (s : Shell) → s.escape_state ≡ 0 → Agree s (seen out s)
seen-Agree out s z = record { same_line = refl; same_len = refl; same_eol = refl; no_escape = z }

eol-BothEol :
    (c : ℕ) (out : List ℕ) (s : Shell)
    → s.escape_state ≡ 0
    → BothEol (eol_step c s) (tail_step c (seen out s))
unfolding eol_step tail_step BothEol
eol-BothEol c out s z =
    let at = λ (n : ℕ). seen-Agree out (record s { eol_state = n }) z in
    if-cases₂ BothEol (s.eol_state == 1) _ _ _ _
      (λ e.
        if-cases₂ BothEol (c == 10) _ _ _ _ (λ f. at 0)
          (λ f. if-cases₂ BothEol (c == 13) _ _ _ _ (λ g. at 2) (λ g. at 0)))
      (λ e.
        if-cases₂ BothEol (s.eol_state == 2) _ _ _ _
          (λ f. if-cases₂ BothEol (c == 10) _ _ _ _ (λ g. at 0) (λ g. at 0))
          (λ f. seen-Agree out s z))

push_keeps :
    (src : ℕ → ℕ) (n : ℕ) (s : Shell)
    → ((shell_history_push src n s).line ≡ s.line)
      × ((shell_history_push src n s).escape_state ≡ s.escape_state)
      × ((shell_history_push src n s).eol_state ≡ s.eol_state)
unfolding shell_history_push push_entry
push_keeps src n s =
    let P = λ (t : Shell).
      (t.line ≡ s.line) × (t.escape_state ≡ s.escape_state) × (t.eol_state ≡ s.eol_state) in
    if-cases P (n == 0) _ _ (λ e. (refl, refl, refl))
      (λ e.
        if-cases P (is_repeated (if ltb 127 n then 127 else n) src s) _ _ (λ f. (refl, refl, refl))
          (λ f. (refl, refl, refl)))

submit-Both :
    (prompt out : List ℕ) (s : Shell)
    → s.escape_state ≡ 0
    → Both (shell_submit_line s) (dispatch_line prompt (seen out s))
unfolding shell_submit_line dispatch_line Both
submit-Both prompt out s z =
    let kept =
      push_keeps (update s.line s.len 0) s.len
        (record (write (13 ∷ 10 ∷ []) s) { line = update s.line s.len 0 }) in
    (
      refl,
      record { same_line = kept.0; same_len = refl; same_eol = kept.2; no_escape = kept.1 ∙ z },
    )

edit-Agree :
    (c : ℕ) (out : List ℕ) (s : Shell)
    → s.escape_state ≡ 0
    → Agree (edit c s) (
        if (c == 8) || (c == 0x7f)
        then rub_out (seen out s)
        else (if leb 0x20 c && leb c 0x7e then type_char c (seen out s) else seen out s))
unfolding edit backspace insert_char erase_one rub_out type_char
edit-Agree c out s z =
    let same : (t : Shell) (o : List ℕ) → t.escape_state ≡ 0 → Agree t (seen o t) =
      λ t o e. seen-Agree o t e in
    if-cases₂ Agree ((c == 8) || (c == 0x7f)) _ _ _ _
      (λ e.
        if-cases₂ Agree (ltb 0 s.len) _ _ _ _
          (λ f. record { same_line = refl; same_len = refl; same_eol = refl; no_escape = z })
          (λ f. seen-Agree out s z))
      (λ e.
        if-cases₂ Agree (leb 0x20 c && leb c 0x7e) _ _ _ _
          (λ f.
            if-cases₂ Agree (ltb s.len 127) _ _ _ _
              (λ g. record { same_line = refl; same_len = refl; same_eol = refl; no_escape = z })
              (λ g. record { same_line = refl; same_len = refl; same_eol = refl; no_escape = z }))
          (λ f. seen-Agree out s z))

key-Both :
    (prompt : List ℕ) (c : ℕ) (out : List ℕ) (s : Shell)
    → s.escape_state ≡ 0
    → c ≢ 0x1b
    → Both (key c s) (edit_byte prompt c (seen out s))
unfolding key plain_key edit_byte Both
key-Both prompt c out s z ne =
    let a : (s.escape_state == 1) ≡ false = ground arith in
    let b : (s.escape_state == 2) ≡ false = ground arith in
    let d : (c == 0x1b) ≡ false = ground arith in
    rw (a, b, d)
      (if-cases₂ Both (c == 13) _ _ _ _ (λ e. submit-Both prompt out (record s { eol_state = 1 }) z)
        (λ e.
          if-cases₂ Both (c == 10) _ _ _ _
            (λ f. submit-Both prompt out (record s { eol_state = 0 }) z)
            (λ f. (refl, edit-Agree c out s z))))

-- The lines that the asynchronous editor dispatches while the bytes come in; it is told of an idle receiver
-- by `shell_rx_idle`.
abbrev pub rested : Bool → Shell → Shell
rested idle s = if idle then shell_rx_idle s else s

abbrev pub hear : List (Bool × ℕ) → Shell → List (List ℕ) × Shell
hear [] s = ([], s)
hear ((idle, c) ∷ bs) s =
    let rest = hear bs (shell_byte c (rested idle s)).1 in
    (emit (shell_byte c (rested idle s)).0 rest.0, rest.1)

abbrev pub NoEscape : List (Bool × ℕ) → Type 0
NoEscape [] = Unit {0}
NoEscape ((idle, c) ∷ bs) = (c ≢ 0x1b) × NoEscape bs

unfoldable pub on_tail : List ℕ → ℕ → Tail → Option (List ℕ) × Editor
on_tail prompt c (taken e) = (none, e)
on_tail prompt c (other e) = edit_byte prompt c e

Agree-seen : (s : Shell) (e : Editor) → Agree s e → e ≡ seen e.console s
Agree-seen s e a =
    let from : (ℕ → ℕ) → ℕ → ℕ → Editor =
      λ f n k. record { line = f; len = n; eol_state = k; console = e.console } in
    ap (λ f. from f e.len e.eol_state) (sym a.same_line)
    ∙ ap₂ (λ n k. from s.line n k) (sym a.same_len) (sym a.same_eol)

step-Both :
    (prompt : List ℕ) (c : ℕ) (x : Eol) (y : Tail)
    → c ≢ 0x1b
    → BothEol x y
    → Both (after_eol c x) (on_tail prompt c y)
unfolding after_eol on_tail BothEol Both
step-Both prompt c (swallowed s) (taken e) ne h = (refl, h)
step-Both prompt c (swallowed s) (other e) ne h = absurd h
step-Both prompt c (goes_on s) (taken e) ne h = absurd h
step-Both prompt c (goes_on s) (other e) ne h =
    subst (λ k. Both (key c s) (edit_byte prompt c k)) (sym (Agree-seen s e h))
      (key-Both prompt c e.console s h.no_escape ne)

pub byte-Both :
    (prompt : List ℕ) (c : ℕ) (s : Shell) (e : Editor)
    → c ≢ 0x1b
    → Agree s e
    → Both (shell_byte c s) (on_tail prompt c (tail_step c e))
unfolding shell_byte
byte-Both prompt c s e ne h =
    subst (λ k. Both (after_eol c (eol_step c s)) (on_tail prompt c (tail_step c k)))
      (sym (Agree-seen s e h))
      (step-Both prompt c (eol_step c s) (tail_step c (seen e.console s)) ne
        (eol-BothEol c e.console s h.no_escape))

pub rested-Agree :
    (idle : Bool) (s : Shell) (e : Editor) → Agree s e → Agree (rested idle s) (quiet idle e)
unfolding quiet shell_rx_idle
rested-Agree true s e h = record {
  same_line = h.same_line;
  same_len = h.same_len;
  same_eol = refl;
  no_escape = h.no_escape;
}
rested-Agree false s e h = h
