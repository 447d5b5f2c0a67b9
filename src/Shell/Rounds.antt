-- ===== src/Shell/Rounds.antt =====
-- The lines that the two editors dispatch, over all rounds.
use rewind_os.Base.{
  ℕ, zero, suc, ◌≤◌, ◌≡◌, ◌≢◌, refl, sym, ap, ap₂, ◌∙◌, Bool, true, false, List, [], ◌∷◌, ◌==◌,
  arith, length,
}
use mathlib.Core.Path.{subst}
use rewind_os.Shell.{Shell, shell_state_init}
use rewind_os.Shell.Keys.{shell_byte}
use rewind_os.Shell.Lines.{emit}
use rewind_os.Shell.Blocking.{
  Editor, Tail, taken, other, tail_step, edit_byte, quiet, rounds, after_escape, shell_loop,
}
use rewind_os.Shell.Agree.{Agree, on_tail, rested, hear, NoEscape, Both, byte-Both, rested-Agree}

tail_cases :
    (prompt : List ℕ) (n c : ℕ) (bs : List (Bool × ℕ)) (y : Tail)
    → (c == 0x1b) ≡ false
    → elim y [
      | taken e ↦ rounds prompt n bs e
      | other e ↦ elim (c == 0x1b) [
        | true ↦ rounds prompt n (after_escape bs) (record e { eol_state = 0 })
        | false ↦
            (let r = edit_byte prompt c e in
              let rest = rounds prompt n bs r.1 in (emit r.0 rest.0, rest.1))
      ]
    ]
      ≡ (
        emit (on_tail prompt c y).0 (rounds prompt n bs (on_tail prompt c y).1).0,
        (rounds prompt n bs (on_tail prompt c y).1).1,
      )
unfolding on_tail
tail_cases prompt n c bs (taken e) t = refl
tail_cases prompt n c bs (other e) t = rw t refl

rounds_step :
    (prompt : List ℕ) (n c : ℕ) (idle : Bool) (bs : List (Bool × ℕ)) (e : Editor)
    → c ≢ 0x1b
    → let r = on_tail prompt c (tail_step c (quiet idle e)) in
      rounds prompt (suc n) ((idle, c) ∷ bs) e
      ≡ (emit r.0 (rounds prompt n bs r.1).0, (rounds prompt n bs r.1).1)
unfolding rounds
rounds_step prompt n c idle bs e ne =
    tail_cases prompt n c bs (tail_step c (quiet idle e)) (ground arith)

rounds_match :
    (prompt : List ℕ) (n : ℕ) (bs : List (Bool × ℕ)) (s : Shell) (e : Editor)
    → length bs ≤ n
    → NoEscape bs
    → Agree s e
    → ((hear bs s).0 ≡ (rounds prompt n bs e).0) × Agree (hear bs s).1 (rounds prompt n bs e).1
unfolding rounds Both
rounds_match prompt zero [] s e le ne h = (refl, h)
rounds_match prompt (suc n) [] s e le ne h = (refl, h)
rounds_match prompt zero (b ∷ bs) s e le ne h = absurd (omega arith)
rounds_match prompt (suc n) ((idle, c) ∷ bs) s e le (ne, nes) h =
    let step = byte-Both prompt c (rested idle s) (quiet idle e) ne (rested-Agree idle s e h) in
    let next = on_tail prompt c (tail_step c (quiet idle e)) in
    let rest =
      rounds_match prompt n bs (shell_byte c (rested idle s)).1 next.1 (omega arith) nes step.1 in
    let eq = rounds_step prompt n c idle bs e ne in
    (
      ap₂ emit step.0 rest.0 ∙ ap (λ r. r.0) (sym eq),
      subst (λ r. Agree (hear ((idle, c) ∷ bs) s).1 r.1) (sym eq) rest.1,
    )

-- Both editors, started with the same content of the line, dispatch the same lines in the same order for any
-- bytes and pauses with no escape among them, and their lines are the same afterwards. For these bytes the rounds that
-- `shell_loop` is given are enough.
pub shell_loop_agrees :
    (prompt : List ℕ) (bs : List (Bool × ℕ)) (s : Shell)
    → NoEscape bs
    → let started = shell_state_init prompt s in
      ((hear bs started).0 ≡ (shell_loop prompt bs s.line).0)
      × Agree (hear bs started).1 (shell_loop prompt bs s.line).1
unfolding shell_loop shell_state_init
shell_loop_agrees prompt bs s ne =
    rounds_match prompt (length bs) bs (shell_state_init prompt s) _ (omega arith) ne
      (record { same_line = refl; same_len = refl; same_eol = refl; no_escape = refl })
