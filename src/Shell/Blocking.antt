-- ===== src/Shell/Blocking.antt =====
-- src/common_io/lineio.c: the line editor of the boot image, which waits for its bytes. A received byte stands
-- with whether the receiver was idle before it. `console` has what was sent.
use rewind_os.Base.{
  ℕ, zero, suc, ◌+◌, ◌-◌, Bool, true, false, ◌&&◌, ◌||◌, Option, none, some, List, [], ◌∷◌, ◌++◌,
  update, ltb, leb, ◌==◌, if◌then◌else◌, length,
}
use rewind_os.Shell.{text, str_len}
use rewind_os.Shell.Lines.{emit}

-- The local variables of `shell_loop`.
pub record Editor : Type 0 where
  pub line : ℕ → ℕ
  pub len : ℕ
  pub eol_state : ℕ
  pub console : List ℕ

abbrev pub put : List ℕ → Editor → Editor
put bs e = record e { console = e.console ++ bs }

-- The byte is the rest of a line end, or the editor goes on with it.
pub data Tail : Type 0 where
  taken : Editor → Tail
  other : Editor → Tail

unfoldable pub tail_step : ℕ → Editor → Tail
tail_step c e =
    if e.eol_state == 1
    then (if c == 10
        then taken (record e { eol_state = 0 })
        else (if c == 13
            then taken (record e { eol_state = 2 })
            else other (record e { eol_state = 0 })))
    else (if e.eol_state == 2
        then (if c == 10
            then taken (record e { eol_state = 0 })
            else other (record e { eol_state = 0 }))
        else other e)

unfoldable pub dispatch_line : List ℕ → Editor → Option (List ℕ) × Editor
dispatch_line prompt e =
    let line = update e.line e.len 0 in
    (
      some (text (str_len line) line),
      record e { line = line; len = 0; console = e.console ++ (13 ∷ 10 ∷ prompt) },
    )

unfoldable pub rub_out : Editor → Editor
rub_out e = if ltb 0 e.len then put (8 ∷ 32 ∷ 8 ∷ []) (record e { len = e.len - 1 }) else e

unfoldable pub type_char : ℕ → Editor → Editor
type_char c e =
    if ltb e.len 127
    then put (c ∷ []) (record e { line = update e.line e.len c; len = e.len + 1 })
    else put (7 ∷ []) e

-- A byte that is no escape.
unfoldable pub edit_byte : List ℕ → ℕ → Editor → Option (List ℕ) × Editor
edit_byte prompt c e =
    if c == 13
    then dispatch_line prompt (record e { eol_state = 1 })
    else (if c == 10 then dispatch_line prompt (record e { eol_state = 0 }) else (
      none,
      if (c == 8) || (c == 0x7f)
          then rub_out e
          else (if leb 0x20 c && leb c 0x7e then type_char c e else e),
    ))

unfoldable pub quiet : Bool → Editor → Editor
quiet idle e = if idle then record e { eol_state = 0 } else e

-- The bytes of an escape sequence that follow the escape are passed over.
abbrev pub after_escape : List (Bool × ℕ) → List (Bool × ℕ)
after_escape [] = []
after_escape ((idle, a) ∷ []) = []
after_escape ((idle, a) ∷ next ∷ rest) = if a == b'[' then rest else next ∷ rest

-- The lines that are dispatched while the bytes come in, and the editor after them: `n` rounds, of which
-- the count of the bytes is enough.
unfoldable pub rounds : List ℕ → ℕ → List (Bool × ℕ) → Editor → List (List ℕ) × Editor
rounds prompt zero bs e = ([], e)
rounds prompt (suc n) [] e = ([], e)
rounds prompt (suc n) ((idle, c) ∷ bs) e = elim (tail_step c (quiet idle e)) [
  | taken e₁ ↦ rounds prompt n bs e₁
  | other e₁ ↦ elim (c == 0x1b) [
    | true ↦ rounds prompt n (after_escape bs) (record e₁ { eol_state = 0 })
    | false ↦
        (let r = edit_byte prompt c e₁ in
          let rest = rounds prompt n bs r.1 in (emit r.0 rest.0, rest.1))
  ]
]

unfoldable pub shell_loop : List ℕ → List (Bool × ℕ) → (ℕ → ℕ) → List (List ℕ) × Editor
shell_loop prompt bs line =
    rounds prompt (length bs) bs (record { line = line; len = 0; eol_state = 0; console = prompt })
