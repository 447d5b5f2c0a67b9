-- ===== src/Sched/Pick/Fair.antt =====
-- `pick_ready_rr` takes turns: among the tasks of one priority that wait, it picks the first one
-- behind the cursor, and moves the cursor there.
use Prim.Native.Nat.{bit_and}
use rewind_os.Base.{
  ℕ, zero, suc, ◌+◌, ◌-◌, ◌%◌, ◌^◌, ◌≤◌, ◌<◌, ◌≡◌, ◌≢◌, refl, sym, ◌∙◌, ap, true, false, some,
  arith, update, Option-cases, inl, inr, ◌⊎◌,
}
use native.Mathlib.Decide.{ℕ_discrete}
use rewind_os.Sched.{Sched, sched_max_ao}
use rewind_os.Sched.Bitmap.{bit_and_31}
use rewind_os.Sched.Inv.{SchedOk, none_busy, own_pointer}
use rewind_os.Base.{update_self}
use rewind_os.Sched.Pick.{is_candidate, pick_from, pick_ready_rr, IsWaiting}
use rewind_os.Sched.Pick.Highest.{is_clear-IsWaiting}

-- How far the entry `j` is from the one behind the cursor, going round the table.
abbrev pub distance : Sched → ℕ → ℕ → ℕ
distance s prio j = (j + 31 - s.rr_cursor prio % 32) % 32

-- A task of the priority that waits.
abbrev pub Waits : Sched → ℕ → ℕ → Type 0
Waits s prio j = IsWaiting s j × ((s.aos j).prio ≡ prio)

module _ {s : Sched} (ok_s : SchedOk none_busy s) (prio : ℕ) where
  candidate_cases :
      (j : ℕ)
      → j < sched_max_ao
      → Waits s prio j × (is_candidate s prio j (s.table j) ≡ true)
        ⊎ (¬ Waits s prio j) × (is_candidate s prio j (s.table j) ≡ false)
  unfolding is_candidate
  candidate_cases j hj = elim (Option-cases (s.table j)) [
    | inl e ↦ inr ((λ w. cc (sym e ∙ w.0.0)), rw e refl)
    | inr (p, e) ↦
        let own = own_pointer ok_s hj e in
        elim (is_clear-IsWaiting j ok_s hj) [
          | inr (idle, c) ↦ inr ((λ w. idle w.0), rw own (ground arith))
          | inl (w, c) ↦ elim (ℕ_discrete (s.aos j).prio prio) [
            | yes same ↦ inl ((w, same), rw own (ground arith))
            | no other ↦ inr ((λ v. other v.1), rw own (ground arith))
          ]
        ]
  ]

  -- The task that the loop picks, the offset at which it stands, and the new cursor.
  record IsPicked (i start p k : ℕ) (s' : Sched) : Type 0 where
    offset : i ≤ k
    place : (start + k) % 32 ≡ p
    waits : Waits s prio p
    cursor : s' ≡ record s { rr_cursor = update s.rr_cursor prio p }

  pick_from_finds :
      (n i start k j : ℕ)
      → i ≤ k
      → k < i + n
      → (start + k) % 32 ≡ j
      → Waits s prio j
      → (p : ℕ) × (k' : ℕ) × (k' ≤ k)
        × ((pick_from n i start prio s).0 ≡ some p)
        × IsPicked i start p k' (pick_from n i start prio s).1
  unfolding pick_from
  pick_from_finds zero i start k j lo hi at_j w = absurd (omega arith)
  pick_from_finds (suc n) i start k j lo hi at_j w =
      let e31 : bit_and (start + i) 31 ≡ (start + i) % 32 = bit_and_31 (start + i) in
      rw e31 (elim (candidate_cases ((start + i) % 32) (omega arith)) [
        | inl (here, c) ↦
            rw (c, here.0.0)
              (
                (start + i) % 32,
                i,
                lo,
                refl,
                record { offset = omega arith; place = refl; waits = here; cursor = refl },
              )
        | inr (absent, c) ↦ rw c (
            let ne : i ≢ k = λ e. absent (rw (ap (λ t. (start + t) % 32) e ∙ at_j) w) in
            let (p, k', le, e, picked) =
              pick_from_finds n (i + 1) start k j (omega arith) (omega arith) at_j w in
            (
              p,
              k',
              le,
              e,
              record {
                offset = omega (arith, picked.offset);
                place = picked.place;
                waits = picked.waits;
                cursor = picked.cursor;
              },
            ))
      ])

-- The entry at an offset from behind the cursor, and the offset at which an entry stands.
at_distance : (c j : ℕ) → j < 32 → ((c + 1) % 2 ^ 8 + (j + 31 - c % 32) % 32) % 32 ≡ j
at_distance c j h = omega arith

distance_at : (c k p : ℕ) → k < 32 → ((c + 1) % 2 ^ 8 + k) % 32 ≡ p → (p + 31 - c % 32) % 32 ≡ k
distance_at c k p h e = omega arith

-- Once the cursor stands at `p`, an entry behind `p` is nearer by the distance of `p`.
distance_from :
    (c j p : ℕ)
    → j < 32
    → p < 32
    → (p + 31 - c % 32) % 32 ≤ (j + 31 - c % 32) % 32
    → p ≢ j
    → (j + 31 - p % 32) % 32 < (j + 31 - c % 32) % 32
distance_from c j p hj hp le ne = omega arith

-- If a task of the priority waits, `pick_ready_rr` picks one that waits, moves the cursor of the
-- priority to it and changes nothing else. No waiting task of the priority is nearer to the old
-- cursor, and each that was not picked is nearer to the new cursor than to the old one. The
-- scheduler is in order: its invariant `SchedOk` holds.
pub pick_ready_rr_fair :
    {s : Sched} (prio j : ℕ)
    → SchedOk none_busy s
    → j < sched_max_ao
    → Waits s prio j
    → let (out, s') = pick_ready_rr s prio in
      (p : ℕ) × (out ≡ some p)
      × (p < sched_max_ao)
      × Waits s prio p
      × (s' ≡ record s { rr_cursor = update s.rr_cursor prio p })
      × (distance s prio p ≤ distance s prio j)
      × (p ≢ j → distance s' prio j < distance s prio j)
unfolding pick_ready_rr
pick_ready_rr_fair {s} prio j ok_s hj w =
    let c = s.rr_cursor prio in
    let (p, k, le, e, picked) =
      pick_from_finds ok_s prio sched_max_ao 0 ((c + 1) % 2 ^ 8) (distance s prio j) j (omega arith)
        (omega arith) (at_distance c j hj) w in
    let at_k : distance s prio p ≡ k = distance_at c k p (omega arith) picked.place in
    let hp : p < sched_max_ao = omega (arith, picked.place) in
    let near : distance s prio p ≤ distance s prio j = omega (arith, at_k, le) in
    (
      p,
      e,
      hp,
      picked.waits,
      picked.cursor,
      near,
      (λ ne.
          rw (picked.cursor, update_self s.rr_cursor prio p) (distance_from c j p hj hp near ne)),
    )
