-- ===== src/Sched/Pick/Highest.antt =====
-- `highest_ready_prio` is the highest priority among the tasks that wait.
use rewind_os.Base.{
  ◌==◌, ℕ, zero, suc, ◌+◌, ◌≤◌, ◌<◌, ◌≡◌, sym, ◌∙◌, true, false, Option, none, some, arith,
  Option-cases, inl, inr, ◌⊎◌, ◌↔◌,
}
use native.Mathlib.Decide.{dec_lt, ℕ_discrete}
use rewind_os.Base.Bits.{test_bit}
use rewind_os.Sched.{Sched, sched_max_ao, is_clear}
use rewind_os.Sched.Bitmap.{is_clear-test_bit}
use rewind_os.Sched.Inv.{SchedOk, none_busy, Slot, IsLive-at, own_pointer}
use rewind_os.Sched.Pick.{better, consider, highest_from, highest_ready_prio, IsWaiting}

-- In a scheduler in order, a task waits exactly where the bitmap says so.
pub is_clear-IsWaiting :
    {s : Sched} (i : ℕ)
    → SchedOk none_busy s
    → i < sched_max_ao
    → IsWaiting s i × (is_clear s.ready_bitmap i ≡ false)
      ⊎ (¬ IsWaiting s i) × (is_clear s.ready_bitmap i ≡ true)
is_clear-IsWaiting {s} i ok_s hi = elim (Option-cases (s.table i)) [
  | inl e ↦ inr (
    (λ w. cc (sym e ∙ w.0)),
    let b : Slot (none_busy == i) i none (s.aos i) (test_bit s.ready_bitmap i) =
          rw e at (ok_s.slot i hi) in
        ground (arith, is_clear-test_bit s.ready_bitmap i hi, b.0),
  )
  | inr (p, e) ↦
      let l = IsLive-at ok_s hi e in
      let own = own_pointer ok_s hi e in
      elim (dec_lt 0 (s.aos i).q.count) [
        | yes some_event ↦
            inl ((own, some_event), ground (arith, is_clear-test_bit s.ready_bitmap i hi, l.bit))
        | no nothing ↦
            inr ((λ w. nothing w.1), ground (arith, is_clear-test_bit s.ready_bitmap i hi, l.bit))
      ]
]

-- The priority `m` does not exceed the result.
abbrev pub AtMost : ℕ → Option ℕ → Type 0
AtMost m none = ⊥
AtMost m (some r) = m ≤ r

better-AtMost : (m : ℕ) (best : Option ℕ) (prio : ℕ) → AtMost m best → AtMost m (better best prio)
unfolding better
better-AtMost m none prio h = absurd h
better-AtMost m (some b) prio h = ground arith

better_new : (best : Option ℕ) (prio : ℕ) → AtMost prio (better best prio)
unfolding better
better_new none prio = omega arith
better_new (some b) prio = ground arith

better_source :
    (best : Option ℕ) (prio m : ℕ) → better best prio ≡ some m → (best ≡ some m) ⊎ (prio ≡ m)
unfolding better
better_source none prio m e = inr (ground arith)
better_source (some b) prio m e = ground arith

-- One round at a task that waits, and at an entry where none does.
consider_waiting :
    (s : Sched) (i : ℕ) (best : Option ℕ)
    → IsWaiting s i
    → is_clear s.ready_bitmap i ≡ false
    → consider s i best ≡ better best (s.aos i).prio
unfolding consider
consider_waiting s i best w c = rw (c, w.0)

consider_clear :
    (s : Sched) (i : ℕ) (best : Option ℕ)
    → is_clear s.ready_bitmap i ≡ true
    → consider s i best ≡ best
unfolding consider
consider_clear s i best c = rw c

module _ {s : Sched} (ok_s : SchedOk none_busy s) where
  consider-AtMost :
      (i m : ℕ) (best : Option ℕ) → i < sched_max_ao → AtMost m best → AtMost m (consider s i best)
  consider-AtMost i m best hi h = elim (is_clear-IsWaiting i ok_s hi) [
    | inl (w, c) ↦ rw (consider_waiting s i best w c) (better-AtMost m best (s.aos i).prio h)
    | inr (_, c) ↦ rw (consider_clear s i best c) h
  ]

  highest_from_keeps :
      (n i m : ℕ) (best : Option ℕ)
      → i + n ≤ sched_max_ao
      → AtMost m best
      → AtMost m (highest_from n i best s)
  unfolding highest_from
  highest_from_keeps zero i m best h a = a
  highest_from_keeps (suc n) i m best h a =
      highest_from_keeps n (i + 1) m (consider s i best) (omega arith)
        (consider-AtMost i m best (omega arith) a)

  -- Every task that waits among the entries of the loop is within the result.
  highest_from_above :
      (n i j : ℕ) (best : Option ℕ)
      → i + n ≤ sched_max_ao
      → i ≤ j
      → j < i + n
      → IsWaiting s j
      → AtMost (s.aos j).prio (highest_from n i best s)
  unfolding highest_from
  highest_from_above zero i j best h lo hi w = absurd (omega arith)
  highest_from_above (suc n) i j best h lo hi w = elim (ℕ_discrete i j) [
    | no ne ↦
        highest_from_above n (i + 1) j (consider s i best) (omega arith) (omega arith) (omega arith)
          w
    | yes e ↦
        highest_from_keeps n (i + 1) (s.aos j).prio (consider s i best) (omega arith)
          (rw e (at_j w))
  ]
    where
      at_j : IsWaiting s j → AtMost (s.aos j).prio (consider s j best)
      at_j w = elim (is_clear-IsWaiting j ok_s (omega arith)) [
        | inl (_, c) ↦ rw (consider_waiting s j best w c) (better_new best (s.aos j).prio)
        | inr (idle, _) ↦ absurd (idle w)
      ]

  -- The result is the value before the loop or the priority of a task that waits.
  highest_from_source :
      (n i m : ℕ) (best : Option ℕ)
      → i + n ≤ sched_max_ao
      → highest_from n i best s ≡ some m
      → (best ≡ some m) ⊎ ((j : ℕ) × (j < sched_max_ao) × IsWaiting s j × ((s.aos j).prio ≡ m))
  unfolding highest_from
  highest_from_source zero i m best h e = inl e
  highest_from_source (suc n) i m best h e =
      elim (highest_from_source n (i + 1) m (consider s i best) (omega arith) e) [
        | inr found ↦ inr found
        | inl here ↦ elim (is_clear-IsWaiting i ok_s (omega arith)) [
          | inr (_, c) ↦ inl (sym (consider_clear s i best c) ∙ here)
          | inl (w, c) ↦
              elim (better_source best (s.aos i).prio m
                (sym (consider_waiting s i best w c) ∙ here)) [
                  | inl old ↦ inl old
                  | inr new ↦ inr (i, omega arith, w, new)
                ]
        ]
      ]

-- In a scheduler in order, `highest_ready_prio` finds nothing exactly when no task waits, and
-- otherwise returns the priority of a task that waits, which no task that waits exceeds.
pub highest_ready_prio_lem :
    {s : Sched}
    → SchedOk none_busy s
    → ((highest_ready_prio s ≡ none) ↔ ((j : ℕ) → j < sched_max_ao → ¬ IsWaiting s j))
      × ((m : ℕ)
          → highest_ready_prio s ≡ some m
          → ((j : ℕ) × (j < sched_max_ao) × IsWaiting s j × ((s.aos j).prio ≡ m))
            × ((j : ℕ) → j < sched_max_ao → IsWaiting s j → (s.aos j).prio ≤ m))
unfolding highest_ready_prio
highest_ready_prio_lem {s} ok_s = (
  ((λ e j hj w. rw e at (above j hj w)), nothing),
  (λ m e. (found m e, (λ j hj w. rw e at (above j hj w)))),
)
  where
    above :
        (j : ℕ) → j < sched_max_ao → IsWaiting s j → AtMost (s.aos j).prio (highest_ready_prio s)
    above j hj w =
        highest_from_above ok_s sched_max_ao 0 j none (omega arith) (omega arith) (omega arith) w

    found :
        (m : ℕ)
        → highest_ready_prio s ≡ some m
        → (j : ℕ) × (j < sched_max_ao) × IsWaiting s j × ((s.aos j).prio ≡ m)
    found m e = elim (highest_from_source ok_s sched_max_ao 0 m none (omega arith) e) [
      | inl absent ↦ absurd (cc absent)
      | inr task ↦ task
    ]

    nothing : ((j : ℕ) → j < sched_max_ao → ¬ IsWaiting s j) → highest_ready_prio s ≡ none
    nothing idle = elim (Option-cases (highest_ready_prio s)) [
      | inl e ↦ e
      | inr (m, e) ↦ let (j, hj, w, _) = found m e in absurd (idle j hj w)
    ]
