-- ===== src/Handoff/Tests.antt =====
-- The handoff words in a memory of sevens.
use rewind_os.Base.{ℕ, ◌<◌, ◌≡◌, true, false, [], ◌∷◌}
use rewind_os.Handoff.{
  handoff_magic, rewind_handoff_clear, rewind_handoff_mark_resume, rewind_handoff_resume_requested,
  rewind_handoff_read, mark_resume-read,
}

abbrev sevens : ℕ → ℕ
sevens i = 7

abbrev marked : ℕ → ℕ
marked = rewind_handoff_mark_resume 100 2 9 3 128 sevens

mark_resume-read_example :
    (rewind_handoff_resume_requested 100 marked ≡ true)
    × ((rewind_handoff_read 100 marked
          ≡ handoff_magic ∷ 1 ∷ 1 ∷ 2 ∷ 9 ∷ 3 ∷ 128 ∷ 0 ∷ 0 ∷ 0 ∷ 0 ∷ 0 ∷ 0 ∷ 0 ∷ 0 ∷ 0 ∷ [])
        × ((rewind_handoff_resume_requested 100 (rewind_handoff_clear 100 marked) ≡ false)
            × ((x : ℕ) → x < 100 → marked x ≡ 7)))
mark_resume-read_example = mark_resume-read 100 2 9 3 128 sevens
