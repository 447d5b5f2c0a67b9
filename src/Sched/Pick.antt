-- ===== src/Sched/Pick.antt =====
-- Which task runs next: `highest_ready_prio` and `pick_ready_rr` of src/scheduler/scheduler.c.
pub mod Highest
pub mod Fair
use Prim.Native.Nat.{bit_and}
use rewind_os.Base.{
  ℕ, zero, suc, ◌+◌, ◌%◌, ◌^◌, ◌≡◌, ◌<◌, Bool, true, false, Option, none, some, if◌then◌else◌, ltb,
  ◌==◌, update,
}
use rewind_os.Sched.{Sched, Ao, sched_max_ao, is_clear}

-- `if (prio > best) best = prio`, `none` being -1
unfoldable pub better : Option ℕ → ℕ → Option ℕ
better none prio = some prio
better (some best) prio = if ltb best prio then some prio else some best

-- The body of the loop of `highest_ready_prio`.
unfoldable pub consider : Sched → ℕ → Option ℕ → Option ℕ
unfolding better
consider s id best =
    if is_clear s.ready_bitmap id
    then best
    else elim (s.table id) [ none ↦ best | some p ↦ better best (s.aos p).prio ]

-- The loop from index `id`, with `n` rounds left.
unfoldable pub highest_from : ℕ → ℕ → Option ℕ → Sched → Option ℕ
unfolding consider
highest_from zero id best s = best
highest_from (suc n) id best s = highest_from n (id + 1) (consider s id best) s

unfoldable pub highest_ready_prio : Sched → Option ℕ
unfolding highest_from
highest_ready_prio s = highest_from sched_max_ao 0 none s

-- The tests of the loop of `pick_ready_rr` at the entry `t` of index `id`.
unfoldable pub is_candidate : Sched → ℕ → ℕ → Option ℕ → Bool
is_candidate s prio id none = false
is_candidate s prio id (some p) =
    if (s.aos p).prio == prio then if is_clear s.ready_bitmap id then false else true else false

-- The loop from round `i`, with `n` rounds left. A task that is found is written to the cursor.
unfoldable pub pick_from : ℕ → ℕ → ℕ → ℕ → Sched → Option ℕ × Sched
unfolding is_candidate
pick_from zero i start prio s = (none, s)
pick_from (suc n) i start prio s =
    let id = bit_and (start + i) 31 in
    let rest = pick_from n (i + 1) start prio s in
    if is_candidate s prio id (s.table id)
    then (s.table id, record s { rr_cursor = update s.rr_cursor prio id })
    else rest

unfoldable pub pick_ready_rr : Sched → ℕ → Option ℕ × Sched
unfolding pick_from
pick_ready_rr s prio = pick_from sched_max_ao 0 ((s.rr_cursor prio + 1) % 2 ^ 8) prio s

-- A registered task with an event in its queue.
abbrev pub IsWaiting : Sched → ℕ → Type 0
IsWaiting s i = (s.table i ≡ some i) × (0 < (s.aos i).q.count)
