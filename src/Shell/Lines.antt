-- ===== src/Shell/Lines.antt =====
-- Typing printable bytes, and the line that a submission sends.
use rewind_os.Base.{
  ℕ, suc, ◌+◌, ◌≤◌, ◌<◌, ◌≡◌, ◌≢◌, ◌⊎◌, inl, inr, refl, sym, ap, ap₂, ◌∙◌, true, false, Option,
  none, some,
}
use rewind_os.Base.{
  List, [], ◌∷◌, ◌++◌, append-nil, append_assoc, length, update, update_self, ltb, leb, ◌==◌,
  if◌then◌else◌, arith, if-cases,
}
use mathlib.Core.Path.{subst}
use rewind_os.Shell.{
  Shell, text, write, shell_submit_line, shell_history_push, push_entry, is_repeated,
}
use rewind_os.Shell.Keys.{
  Eol, goes_on, eol_step, insert_char, edit, plain_key, key, after_eol, shell_byte,
}
use rewind_os.Shell.Arrays.{IsString, str_len-string, text-update}
use rewind_os.Shell.Bounds.{ShellOk}
use rewind_os.Shell.Bytes.{shell_byte-ShellOk, ended-IsTyped}
use rewind_os.Shell.Recall.{typed_text}

abbrev pub emit : Option (List ℕ) → List (List ℕ) → List (List ℕ)
emit none lines = lines
emit (some line) lines = line ∷ lines

-- The lines that are dispatched while the bytes come in, and the editor after them.
unfoldable pub feed : List ℕ → Shell → List (List ℕ) × Shell
feed [] s = ([], s)
feed (c ∷ cs) s = let rest = feed cs (shell_byte c s).1 in (emit (shell_byte c s).0 rest.0, rest.1)

pub feed_step :
    (c : ℕ) (cs : List ℕ) (s t : Shell) (line : Option (List ℕ))
    → shell_byte c s ≡ (line, t)
    → feed (c ∷ cs) s ≡ (emit line (feed cs t).0, (feed cs t).1)
unfolding feed
feed_step c cs s t line e = ap (λ r. (emit r.0 (feed cs r.1).0, (feed cs r.1).1)) e

abbrev pub IsPrintable : ℕ → Type 0
IsPrintable c = (0x20 ≤ c) × (c ≤ 0x7e)

-- A byte that is no line end closes one that was begun.
eol_step-other :
    (c : ℕ) (s : Shell)
    → c ≢ 10
    → c ≢ 13
    → s.eol_state ≤ 2
    → eol_step c s ≡ goes_on (record s { eol_state = 0 })
unfolding eol_step
eol_step-other c s nl nc le =
    let P = λ (e : Eol). e ≡ goes_on (record s { eol_state = 0 }) in
    let a : (c == 10) ≡ false = ground arith in
    let b : (c == 13) ≡ false = ground arith in
    rw (a, b)
      (if-cases P (s.eol_state == 1) _ _ (λ e. refl)
        (λ e.
          if-cases P (s.eol_state == 2) _ _ (λ f. refl)
            (λ f.
              let z : s.eol_state ≡ 0 = ground arith in
              ap (λ n. goes_on (record s { eol_state = n })) z)))

abbrev inserted : ℕ → Shell → Shell
inserted c s =
    write (c ∷ []) (record s { line = update s.line s.len c; len = s.len + 1; eol_state = 0 })

key-printable :
    (c : ℕ) (s : Shell)
    → IsPrintable c
    → s.escape_state ≡ 0
    → s.len < 127
    → key c (record s { eol_state = 0 }) ≡ (none, inserted c s)
unfolding key plain_key edit insert_char
key-printable c s (lo, hi) esc lt =
    let e1 : (s.escape_state == 1) ≡ false = ground arith in
    let e2 : (s.escape_state == 2) ≡ false = ground arith in
    let a : (c == 0x1b) ≡ false = ground arith in
    let b : (c == 13) ≡ false = ground arith in
    let d : (c == 10) ≡ false = ground arith in
    let bs : (c == 8) ≡ false = ground arith in
    let del : (c == 0x7f) ≡ false = ground arith in
    let low : leb 0x20 c ≡ true = ground arith in
    let high : leb c 0x7e ≡ true = ground arith in
    let fits : ltb s.len 127 ≡ true = ground arith in
    rw (e1, e2, a, b, d, bs, del, low, high, fits) refl

shell_byte-printable :
    (c : ℕ) (s : Shell)
    → IsPrintable c
    → s.escape_state ≡ 0
    → s.eol_state ≤ 2
    → s.len < 127
    → shell_byte c s ≡ (none, inserted c s)
unfolding shell_byte after_eol
shell_byte-printable c s (lo, hi) esc le lt =
    rw (eol_step-other c s (omega arith) (omega arith) le) (key-printable c s (lo, hi) esc lt)

typed_text-inserted : (c : ℕ) (s : Shell) → typed_text (inserted c s) ≡ typed_text s ++ (c ∷ [])
unfolding text
typed_text-inserted c s =
    let n : s.len + 1 ≡ suc s.len = omega arith in
    ap (λ k. text k (update s.line s.len c)) n
    ∙ ap₂ (λ l a. l ++ (a ∷ [])) (text-update s.len s.line s.len c (omega arith))
        (update_self s.line s.len c)

-- Between two keys, with no escape sequence begun.
pub record IsReady (s : Shell) : Type 0 where
  pub okay : ShellOk s
  pub no_escape : s.escape_state ≡ 0

inserted-IsReady :
    (c : ℕ) (s : Shell) → IsPrintable c → IsReady s → s.len < 127 → IsReady (inserted c s)
inserted-IsReady c s p r lt =
    let step = shell_byte-printable c s p r.no_escape r.okay.eol_fits lt in
    record {
      okay = subst ShellOk (ap (λ x. x.1) step) (shell_byte-ShellOk c s r.okay);
      no_escape = r.no_escape;
    }

abbrev pub ArePrintable : List ℕ → Type 0
ArePrintable [] = Unit {0}
ArePrintable (c ∷ cs) = IsPrintable c × ArePrintable cs

-- What typing leaves: the text is longer, and nothing is dispatched.
pub record Typed (cs : List ℕ) (s : Shell) (r : List (List ℕ) × Shell) : Type 0 where
  pub none_sent : r.0 ≡ []
  pub typed : typed_text r.1 ≡ typed_text s ++ cs
  pub ready : IsReady r.1
  pub new_len : r.1.len ≡ s.len + length cs

pub feed-printable :
    (cs : List ℕ) (s : Shell)
    → ArePrintable cs
    → IsReady s
    → s.len + length cs ≤ 127
    → Typed cs s (feed cs s)
unfolding feed
feed-printable [] s p r le = record {
  none_sent = refl;
  typed = sym (append-nil (typed_text s));
  ready = r;
  new_len = omega arith;
}
feed-printable (c ∷ cs) s (p, ps) r le =
    let step = shell_byte-printable c s p r.no_escape r.okay.eol_fits (omega arith) in
    let rest =
      feed-printable cs (inserted c s) ps (inserted-IsReady c s p r (omega arith)) (omega arith) in
    let n = rest.new_len in
    rw (feed_step c cs s _ none step) (record {
      none_sent = rest.none_sent;
      typed =
          rest.typed
          ∙ ap (λ l. l ++ cs) (typed_text-inserted c s)
          ∙ append_assoc (typed_text s) (c ∷ []) cs;
      ready = rest.ready;
      new_len = omega arith;
    })

-- A line end that has been begun is over once a byte was typed.
pub feed-printable-eol :
    (cs : List ℕ) (s : Shell)
    → ArePrintable cs
    → IsReady s
    → s.len + length cs ≤ 127
    → (cs ≢ []) ⊎ (s.eol_state ≡ 0)
    → (feed cs s).1.eol_state ≡ 0
unfolding feed
feed-printable-eol [] s p r le (inl ne) = absurd (ne refl)
feed-printable-eol [] s p r le (inr z) = z
feed-printable-eol (c ∷ cs) s (p, ps) r le closed =
    let step = shell_byte-printable c s p r.no_escape r.okay.eol_fits (omega arith) in
    let ready = inserted-IsReady c s p r (omega arith) in
    ap (λ r. r.1.eol_state) (feed_step c cs s _ none step)
    ∙ (feed-printable-eol cs (inserted c s) ps ready (omega arith) (inr refl))

pub push_same :
    (src : ℕ → ℕ) (n : ℕ) (s : Shell)
    → ((shell_history_push src n s).escape_state ≡ s.escape_state)
      × ((shell_history_push src n s).eol_state ≡ s.eol_state)
unfolding shell_history_push push_entry
push_same src n s =
    let P = λ (t : Shell). (t.escape_state ≡ s.escape_state) × (t.eol_state ≡ s.eol_state) in
    if-cases P (n == 0) _ _ (λ e. (refl, refl))
      (λ e.
        if-cases P (is_repeated (if ltb 127 n then 127 else n) src s) _ _ (λ f. (refl, refl))
          (λ f. (refl, refl)))

-- The line that a submission sends is the text.
pub submit-sent : (s : Shell) → ShellOk s → (shell_submit_line s).0 ≡ some (typed_text s)
unfolding shell_submit_line
submit-sent s h =
    let ended = ended-IsTyped s.line s.len h.typed in
    let st : IsString (update s.line s.len 0) s.len = record {
      chars = ended.chars;
      end = update_self s.line s.len 0;
      fits = ended.fits;
    } in
    rw (str_len-string (update s.line s.len 0) s.len st)
      (ap some (text-update s.len s.line s.len 0 (omega arith)))
