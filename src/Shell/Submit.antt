-- ===== src/Shell/Submit.antt =====
-- The lines that are dispatched: those that were typed, whichever line end the terminal sends.
use rewind_os.Base.{ℕ, ◌≤◌, ◌≡◌, ◌≢◌, inl, refl, ap, ap₂, ◌∙◌, true, false, Option, none, some}
use rewind_os.Base.{List, [], ◌∷◌, ◌++◌, length, update, ◌==◌, arith}
use rewind_os.Shell.{Shell, text, write, shell_submit_line}
use rewind_os.Shell.Keys.{goes_on, eol_step, plain_key, key, after_eol, shell_byte}
use rewind_os.Shell.Bytes.{states-ShellOk, shell_submit_line-ShellOk}
use rewind_os.Shell.Recall.{typed_text}
use rewind_os.Shell.Lines.{
  feed, emit, feed_step, IsReady, ArePrintable, feed-printable, feed-printable-eol, push_same,
  submit-sent,
}

-- The line ends that a terminal may send.
pub data LineEnd : Type 0 where
  cr : LineEnd
  lf : LineEnd
  crlf : LineEnd
  crcrlf : LineEnd

abbrev pub end_bytes : LineEnd → List ℕ
end_bytes cr = 13 ∷ []
end_bytes lf = 10 ∷ []
end_bytes crlf = 13 ∷ 10 ∷ []
end_bytes crcrlf = 13 ∷ 13 ∷ 10 ∷ []

-- At the start of a line.
pub record IsIdle (s : Shell) : Type 0 where
  pub ready : IsReady s
  pub no_text : s.len ≡ 0

abbrev submitted : ℕ → Shell → Shell
submitted eol s = (shell_submit_line (record s { eol_state = eol })).1

eol_step-closed : (c : ℕ) (s : Shell) → s.eol_state ≡ 0 → eol_step c s ≡ goes_on s
unfolding eol_step
eol_step-closed c s z =
    let a : (s.eol_state == 1) ≡ false = ground arith in
    let b : (s.eol_state == 2) ≡ false = ground arith in rw (a, b) refl

-- A CR or an LF submits the line.
shell_byte-cr :
    (s : Shell)
    → IsReady s
    → s.eol_state ≡ 0
    → shell_byte 13 s ≡ (some (typed_text s), submitted 1 s)
unfolding shell_byte after_eol key plain_key
shell_byte-cr s r z =
    let esc = r.no_escape in
    let e1 : (s.escape_state == 1) ≡ false = ground arith in
    let e2 : (s.escape_state == 2) ≡ false = ground arith in
    let to = states-ShellOk s.escape_state 1 s r.okay.escape_fits (omega arith) r.okay in
    rw (eol_step-closed 13 s z, e1, e2)
      (ap (λ o. (o, submitted 1 s)) (submit-sent (record s { eol_state = 1 }) to))

shell_byte-lf :
    (s : Shell)
    → IsReady s
    → s.eol_state ≡ 0
    → shell_byte 10 s ≡ (some (typed_text s), submitted 0 s)
unfolding shell_byte after_eol key plain_key
shell_byte-lf s r z =
    let esc = r.no_escape in
    let e1 : (s.escape_state == 1) ≡ false = ground arith in
    let e2 : (s.escape_state == 2) ≡ false = ground arith in
    let to = states-ShellOk s.escape_state 0 s r.okay.escape_fits (omega arith) r.okay in
    rw (eol_step-closed 10 s z, e1, e2)
      (ap (λ o. (o, submitted 0 s)) (submit-sent (record s { eol_state = 0 }) to))

submitted-IsIdle :
    (eol : ℕ) (s : Shell)
    → eol ≤ 2
    → IsReady s
    → IsIdle (submitted eol s) × ((submitted eol s).eol_state ≡ eol)
unfolding shell_submit_line
submitted-IsIdle eol s le r =
    let same =
      push_same (update s.line s.len 0) s.len
        (record (write (13 ∷ 10 ∷ []) (record s { eol_state = eol })) {
          line = update s.line s.len 0;
        }) in
    let to = states-ShellOk s.escape_state eol s r.okay.escape_fits le r.okay in
    (
      record {
        ready = record {
          okay = shell_submit_line-ShellOk (record s { eol_state = eol }) to;
          no_escape = same.0 ∙ r.no_escape;
        };
        no_text = refl;
      },
      same.1,
    )

-- The bytes of a line end after the first one are taken in.
swallow_lf : (s : Shell) → s.eol_state ≡ 1 → shell_byte 10 s ≡ (none, record s { eol_state = 0 })
unfolding shell_byte after_eol eol_step
swallow_lf s one = let t : (s.eol_state == 1) ≡ true = ground arith in rw t refl

swallow_cr : (s : Shell) → s.eol_state ≡ 1 → shell_byte 13 s ≡ (none, record s { eol_state = 2 })
unfolding shell_byte after_eol eol_step
swallow_cr s one = let t : (s.eol_state == 1) ≡ true = ground arith in rw t refl

swallow_last : (s : Shell) → s.eol_state ≡ 2 → shell_byte 10 s ≡ (none, record s { eol_state = 0 })
unfolding shell_byte after_eol eol_step
swallow_last s two =
    let a : (s.eol_state == 1) ≡ false = ground arith in
    let b : (s.eol_state == 2) ≡ true = ground arith in rw (a, b) refl

with_eol-IsIdle : (eol : ℕ) (s : Shell) → eol ≤ 2 → IsIdle s → IsIdle (record s { eol_state = eol })
with_eol-IsIdle eol s le i = record {
  ready = record {
    okay = states-ShellOk s.escape_state eol s i.ready.okay.escape_fits le i.ready.okay;
    no_escape = i.ready.no_escape;
  };
  no_text = i.no_text;
}

-- One line is dispatched, and the editor is at the start of the next.
Sends : List ℕ → List (List ℕ) × Shell → Type 0
Sends line r = (r.0 ≡ line ∷ []) × IsIdle r.1

line_by :
    (c : ℕ) (cs line : List ℕ) (s t u : Shell)
    → shell_byte c s ≡ (some line, t)
    → feed cs t ≡ ([], u)
    → IsIdle u
    → Sends line (feed (c ∷ cs) s)
unfolding Sends
line_by c cs line s t u first rest idle =
    rw (feed_step c cs s t (some line) first, rest) (refl, idle)

one_more :
    (c : ℕ) (cs : List ℕ) (s t u : Shell)
    → shell_byte c s ≡ (none, t)
    → feed cs t ≡ ([], u)
    → feed (c ∷ cs) s ≡ ([], u)
one_more c cs s t u first rest = feed_step c cs s t none first ∙ rest

feed_nil : (s : Shell) → feed [] s ≡ ([], s)
unfolding feed
feed_nil s = refl

feed-end :
    (e : LineEnd) (s : Shell)
    → IsReady s
    → s.eol_state ≡ 0
    → Sends (typed_text s) (feed (end_bytes e) s)
feed-end cr s r z =
    line_by 13 [] (typed_text s) s (submitted 1 s) _ (shell_byte-cr s r z) (feed_nil _)
      (submitted-IsIdle 1 s (omega arith) r).0
feed-end lf s r z =
    line_by 10 [] (typed_text s) s (submitted 0 s) _ (shell_byte-lf s r z) (feed_nil _)
      (submitted-IsIdle 0 s (omega arith) r).0
feed-end crlf s r z =
    let i = submitted-IsIdle 1 s (omega arith) r in
    line_by 13 (10 ∷ []) (typed_text s) s (submitted 1 s) _ (shell_byte-cr s r z)
      (one_more 10 [] (submitted 1 s) _ _ (swallow_lf (submitted 1 s) i.1) (feed_nil _))
      (with_eol-IsIdle 0 (submitted 1 s) (omega arith) i.0)
feed-end crcrlf s r z =
    let i = submitted-IsIdle 1 s (omega arith) r in
    let after = record (submitted 1 s) { eol_state = 2 } in
    line_by 13 (13 ∷ 10 ∷ []) (typed_text s) s (submitted 1 s) _ (shell_byte-cr s r z)
      (one_more 13 (10 ∷ []) (submitted 1 s) after _ (swallow_cr (submitted 1 s) i.1)
        (one_more 10 [] after _ _ (swallow_last after refl) (feed_nil _)))
      (with_eol-IsIdle 0 (submitted 1 s) (omega arith) i.0)

emit-append : (o : Option (List ℕ)) (xs ys : List (List ℕ)) → emit o (xs ++ ys) ≡ emit o xs ++ ys
emit-append none xs ys = refl
emit-append (some line) xs ys = refl

feed-append :
    (xs ys : List ℕ) (s : Shell)
    → feed (xs ++ ys) s ≡ ((feed xs s).0 ++ (feed ys (feed xs s).1).0, (feed ys (feed xs s).1).1)
unfolding feed
feed-append [] ys s = refl
feed-append (c ∷ cs) ys s =
    feed_step c (cs ++ ys) s (shell_byte c s).1 (shell_byte c s).0 refl
    ∙ ap (λ r. (emit (shell_byte c s).0 r.0, r.1)) (feed-append cs ys (shell_byte c s).1)
    ∙ ap (λ l. (l, (feed ys (feed cs (shell_byte c s).1).1).1))
        (emit-append (shell_byte c s).0 (feed cs (shell_byte c s).1).0
          (feed ys (feed cs (shell_byte c s).1).1).0)

-- A line that fits, is not empty and has printable bytes only, and how it ends.
abbrev pub AreLines : List (List ℕ × LineEnd) → Type 0
AreLines [] = Unit {0}
AreLines ((line, e) ∷ ls) = (ArePrintable line × ((line ≢ []) × (length line ≤ 127))) × AreLines ls

abbrev pub line_bytes : List (List ℕ × LineEnd) → List ℕ
line_bytes [] = []
line_bytes ((line, e) ∷ ls) = (line ++ end_bytes e) ++ line_bytes ls

abbrev pub lines_of : List (List ℕ × LineEnd) → List (List ℕ)
lines_of [] = []
lines_of ((line, e) ∷ ls) = line ∷ lines_of ls

feed-line :
    (line : List ℕ) (e : LineEnd) (s : Shell)
    → IsIdle s
    → ArePrintable line
    → line ≢ []
    → length line ≤ 127
    → Sends line (feed (line ++ end_bytes e) s)
unfolding Sends text
feed-line line e s i p ne fits =
    let start = i.no_text in
    let t = feed-printable line s p i.ready (omega arith) in
    let closed = feed-printable-eol line s p i.ready (omega arith) (inl ne) in
    let whole : typed_text (feed line s).1 ≡ line =
      t.typed ∙ ap (λ n. text n s.line ++ line) start in
    let sent = feed-end e (feed line s).1 t.ready closed in
    rw (feed-append line (end_bytes e) s) (
      ap (λ l. l ++ (feed (end_bytes e) (feed line s).1).0) t.none_sent
          ∙ sent.0
          ∙ ap (λ l. l ∷ []) whole,
      sent.1,
    )

-- Lines of printable bytes, none empty and none longer than 127 bytes, are dispatched as they were typed and
-- in that order, each exactly once, whether a line ends with CR, LF, CR LF or CR CR LF; the ends may differ
-- from line to line.
pub feed_lines :
    (ls : List (List ℕ × LineEnd)) (s : Shell)
    → IsIdle s
    → AreLines ls
    → ((feed (line_bytes ls) s).0 ≡ lines_of ls) × IsIdle (feed (line_bytes ls) s).1
unfolding feed Sends
feed_lines [] s i ok = (refl, i)
feed_lines ((line, e) ∷ ls) s i ((p, (ne, fits)), ok) =
    let one = feed-line line e s i p ne fits in
    let rest = feed_lines ls (feed (line ++ end_bytes e) s).1 one.1 ok in
    rw (feed-append (line ++ end_bytes e) (line_bytes ls) s)
      (ap₂ (λ a b. a ++ b) one.0 rest.0, rest.1)
