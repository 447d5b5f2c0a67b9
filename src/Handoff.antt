-- ===== src/Handoff.antt =====
-- src/common_io/rewind_restore.c and include/rewind_restore.h: the words at the end of the memory through
-- which the boot image tells the main image that a snapshot was restored. `rewind_restore_stack_top` and
-- `rewind_resume_entry` are addresses and the entry of the image, and `rewind_journal_replay` is a call of
-- Journal.Replay.

mod Tests
use Prim.Native.Nat.{bit_and}
use rewind_os.Base.{
  ℕ, zero, suc, ◌+◌, ◌^◌, ◌≤◌, ◌<◌, ◌≡◌, ◌≢◌, refl, Bool, true, false, not, List, [], ◌∷◌,
}
use rewind_os.Base.{if◌then◌else◌, ◌==◌, update, update_self, update_ne, arith}

-- `rewind_handoff_t` is seven words and nine reserved ones; the memory is a function of the word's address.
abbrev pub handoff_words : ℕ
handoff_words = 16

abbrev pub handoff_magic : ℕ
handoff_magic = 0x54535752

abbrev pub flag_resume : ℕ
flag_resume = 1

-- The loop that clears `n` words from `base` on.
unfoldable pub clear_words : ℕ → ℕ → (ℕ → ℕ) → ℕ → ℕ
clear_words zero base m = m
clear_words (suc n) base m = update (clear_words n base m) (base + n) 0

unfoldable pub rewind_handoff_clear : ℕ → (ℕ → ℕ) → ℕ → ℕ
rewind_handoff_clear base m = clear_words handoff_words base m

abbrev pub mark_words : ℕ → ℕ → ℕ → ℕ → ℕ → (ℕ → ℕ) → ℕ → ℕ
mark_words base slot seq start blocks m =
    let m₁ = update m base handoff_magic in
    let m₂ = update m₁ (base + 1) 1 in
    let m₃ = update m₂ (base + 2) flag_resume in
    let m₄ = update m₃ (base + 3) slot in
    let m₅ = update m₄ (base + 4) seq in
    let m₆ = update m₅ (base + 5) start in update m₆ (base + 6) blocks

unfoldable pub rewind_handoff_mark_resume : ℕ → ℕ → ℕ → ℕ → ℕ → (ℕ → ℕ) → ℕ → ℕ
rewind_handoff_mark_resume base slot seq start blocks m =
    mark_words base slot seq start blocks (rewind_handoff_clear base m)

unfoldable pub rewind_handoff_resume_requested : ℕ → (ℕ → ℕ) → Bool
rewind_handoff_resume_requested base m =
    if not (m base == handoff_magic)
    then false
    else (if not (m (base + 1) == 1) then false else not (bit_and (m (base + 2)) flag_resume == 0))

-- What is read, as the words of the structure: `n` of them from `base + i` on.
unfoldable pub read_words : ℕ → ℕ → ℕ → (ℕ → ℕ) → List ℕ
read_words zero base i m = []
read_words (suc n) base i m = m (base + i) ∷ read_words n base (i + 1) m

unfoldable pub rewind_handoff_read : ℕ → (ℕ → ℕ) → List ℕ
rewind_handoff_read base m = read_words handoff_words base 0 m

clear_words-in :
    (n base : ℕ) (m : ℕ → ℕ) (x : ℕ) → base ≤ x → x < base + n → clear_words n base m x ≡ 0
unfolding clear_words
clear_words-in zero base m x le lt = absurd (omega arith)
clear_words-in (suc n) base m x le lt = ground (arith, clear_words-in n base m x)

clear_words-out : (n base : ℕ) (m : ℕ → ℕ) (x : ℕ) → (x < base) → clear_words n base m x ≡ m x
unfolding clear_words
clear_words-out zero base m x lt = refl
clear_words-out (suc n) base m x lt = ground (arith, clear_words-out n base m x)

zero_word : (base i : ℕ) (m : ℕ → ℕ) → i < 16 → rewind_handoff_clear base m (base + i) ≡ 0
unfolding rewind_handoff_clear
zero_word base i m lt = clear_words-in 16 base m (base + i) (omega arith) (omega arith)

module _ (base slot seq start blocks : ℕ) (m : ℕ → ℕ) where
  abbrev marked : ℕ → ℕ
  marked = rewind_handoff_mark_resume base slot seq start blocks m

  field_words :
      (x : ℕ)
      → (x ≡ base → marked x ≡ handoff_magic)
        × (x ≡ base + 1 → marked x ≡ 1)
        × (x ≡ base + 2 → marked x ≡ 1)
        × (x ≡ base + 3 → marked x ≡ slot)
        × (x ≡ base + 4 → marked x ≡ seq)
        × (x ≡ base + 5 → marked x ≡ start)
        × (x ≡ base + 6 → marked x ≡ blocks)
  unfolding rewind_handoff_mark_resume
  field_words x = (
    λ e. ground arith,
    λ e. ground arith,
    λ e. ground arith,
    λ e. ground arith,
    λ e. ground arith,
    λ e. ground arith,
    λ e. ground arith,
  )

  marked_zero : (i : ℕ) → 7 ≤ i → i < 16 → marked (base + i) ≡ 0
  unfolding rewind_handoff_mark_resume
  marked_zero i le lt = ground (arith, zero_word base i m lt)

  marked_out : (x : ℕ) → x < base → marked x ≡ m x
  unfolding rewind_handoff_mark_resume rewind_handoff_clear
  marked_out x lt = ground (arith, clear_words-out 16 base m x lt)

  requested_marked : rewind_handoff_resume_requested base marked ≡ true
  unfolding rewind_handoff_resume_requested
  requested_marked =
      let w = field_words base in
      rw
        (
          (field_words base).0 refl,
          (field_words (base + 1)).1 refl,
          (field_words (base + 2)).2 refl,
        )
        refl

requested_cleared :
    (base : ℕ) (m : ℕ → ℕ)
    → rewind_handoff_resume_requested base (rewind_handoff_clear base m) ≡ false
unfolding rewind_handoff_resume_requested rewind_handoff_clear
requested_cleared base m = rw (clear_words-in 16 base m base (omega arith) (omega arith)) refl

-- After the boot image has marked a resume, the main image sees that one was requested and reads the slot, the
-- number and the journal's place that were given, with zeros behind; once it is cleared, none is requested. A
-- word below the structure is not touched.
pub mark_resume-read :
    (base slot seq start blocks : ℕ) (m : ℕ → ℕ)
    → let marked = rewind_handoff_mark_resume base slot seq start blocks m in
      (rewind_handoff_resume_requested base marked ≡ true)
      × ((rewind_handoff_read base marked
            ≡ handoff_magic ∷ 1 ∷ 1 ∷ slot ∷ seq ∷ start ∷ blocks ∷ 0 ∷ 0 ∷ 0 ∷ 0 ∷ 0 ∷ 0 ∷ 0 ∷ 0
              ∷ 0 ∷ [])
          × ((rewind_handoff_resume_requested base (rewind_handoff_clear base marked) ≡ false)
              × ((x : ℕ) → x < base → marked x ≡ m x)))
unfolding rewind_handoff_read read_words
mark_resume-read base slot seq start blocks m =
    let w = field_words base slot seq start blocks m in
    let z = marked_zero base slot seq start blocks m in
    (
      requested_marked base slot seq start blocks m,
      (
        rw
            (
              (w (base + 0)).0 (omega arith),
              (w (base + 1)).1 refl,
              (w (base + 2)).2 refl,
              (w (base + 3)).3 refl,
              (w (base + 4)).4 refl,
              (w (base + 5)).5 refl,
              (w (base + 6)).6 refl,
              z 7 (omega arith) (omega arith),
              z 8 (omega arith) (omega arith),
              z 9 (omega arith) (omega arith),
              z 10 (omega arith) (omega arith),
              z 11 (omega arith) (omega arith),
              z 12 (omega arith) (omega arith),
              z 13 (omega arith) (omega arith),
              z 14 (omega arith) (omega arith),
              z 15 (omega arith) (omega arith),
            )
            refl,
        (
          requested_cleared base (rewind_handoff_mark_resume base slot seq start blocks m),
          marked_out base slot seq start blocks m,
        ),
      ),
    )
