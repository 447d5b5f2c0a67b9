-- ===== src/Sched.antt =====
-- src/scheduler/scheduler.c, include/scheduler.h and include/task_spec.h: the table of active
-- objects, its ready bitmap and the calls `sched_*`. The loop `sched_run` is in `Sched.Run`.
-- An `ao_t *` is an address, a number; `g_task_aos[i]` stands at the address `i`, and `none` is the
-- null pointer. Function, context and name pointers are opaque numbers. The scheduler is a value,
-- so the tests of `s` and `e` against null have no counterpart. The arrays `table` and `rr_cursor`
-- are functions of the index, which the code keeps below `SCHED_MAX_AO` by its own tests. A call is one
-- step here; Sched.Race has the posts and rounds that interrupts come into.
mod Tests
pub mod Bitmap
pub mod Inv
pub mod Register
pub mod Calls
pub mod Pick
pub mod Run
pub mod Serve
pub mod Rounds
pub mod Race
use Prim.Native.Nat.{bit_and, bit_or}
use rewind_os.Base.{
  ℕ, zero, suc, ◌+◌, ◌-◌, ◌%◌, ◌^◌, Bool, true, false, Option, none, some, List, [], ◌∷◌,
  if◌then◌else◌, ltb, leb, ◌==◌, not, ◌||◌, update,
}
use rewind_os.Event.{
  Event, EventQueue, EqStatus, eq_init, eq_push, eq_push_isr, eq_pop, eq_is_empty, eq_drain,
}

-- `SCHED_OK` and the `SCHED_ERR_*` codes
pub data SchedStatus : Type 0 where
  ok err_param err_full err_exists err_not_found err_queue_full err_disabled : SchedStatus

abbrev pub sched_max_ao : ℕ
sched_max_ao = 32

abbrev pub ao_flag_accept_events : ℕ
ao_flag_accept_events = 1

-- `struct ao`
pub record Ao : Type 0 where
  pub id : ℕ  -- uint8
  pub prio : ℕ  -- uint8
  pub reserved : ℕ
  pub q : EventQueue
  pub dispatch : Option ℕ
  pub state : Option ℕ
  pub flags : ℕ  -- uint32
  pub rtc_max_ticks : ℕ  -- uint32
  pub events_handled : ℕ  -- uint32
  pub name : Option ℕ

-- `task_spec_t`
pub record TaskSpec : Type 0 where
  pub id : ℕ  -- uint8
  pub prio : ℕ  -- uint8
  pub dispatch : Option ℕ
  pub ctx : Option ℕ
  pub queue_storage : Option (List Event)
  pub queue_capacity : ℕ  -- uint16
  pub rtc_budget_ticks : ℕ  -- uint32
  pub name : Option ℕ

-- `scheduler_t` and the memory of the active objects
pub record Sched : Type 0 where
  pub aos : ℕ → Ao
  pub table : ℕ → Option ℕ
  pub ready_bitmap : ℕ  -- uint32
  pub rr_cursor : ℕ → ℕ
  pub idle_hook : Option ℕ

abbrev pub is_null {ℓ} : {A : Type ℓ} → Option A → Bool
is_null none = true
is_null (some a) = false

-- `1u << id`, `bitmap | (1u << id)`, `bitmap & ~(1u << id)` and `(bitmap & (1u << id)) == 0u`
abbrev pub ao_bit : ℕ → ℕ
ao_bit id = 2 ^ id % 2 ^ 32

unfoldable pub set_ready : ℕ → ℕ → ℕ
set_ready bitmap id = bit_or bitmap (ao_bit id)

unfoldable pub clear_ready : ℕ → ℕ → ℕ
clear_ready bitmap id = bit_and bitmap (2 ^ 32 - 1 - ao_bit id)

unfoldable pub is_clear : ℕ → ℕ → Bool
is_clear bitmap id = bit_and bitmap (ao_bit id) == 0

-- A write to `*ao`.
abbrev pub put_ao : Sched → ℕ → Ao → Sched
put_ao s p ao = record s { aos = update s.aos p ao }

-- Only the fields that `sched_init` writes; the memory of the active objects stays.
unfoldable pub sched_init : Sched → Option ℕ → Sched
sched_init s hook = record s {
  table = λ i. none;
  rr_cursor = λ i. 0;
  ready_bitmap = 0;
  idle_hook = hook;
}

-- The part of `sched_register` behind its tests.
enter : Sched → ℕ → Ao → Sched
enter s p ao =
    let s' = record s {
      aos = update s.aos p (record ao {
        flags = bit_or ao.flags ao_flag_accept_events;
        rtc_max_ticks = 0;
        events_handled = 0;
      });
      table = update s.table ao.id (some p);
    } in
    if ltb 0 ao.q.count then record s' { ready_bitmap = set_ready s.ready_bitmap ao.id } else s'

unfoldable pub sched_register : Sched → ℕ → SchedStatus × Sched
unfolding enter
sched_register s p =
    let ao = s.aos p in
    if is_null ao.dispatch
    then (err_param, s)
    else if leb sched_max_ao ao.id || leb sched_max_ao ao.prio
    then (err_param, s)
    else if is_null ao.q.buf || ao.q.capacity == 0
    then (err_param, s)
    else if is_null (s.table ao.id)
    then (ok, enter s p ao)
    else (err_exists, s)

-- What `sched_register_task` writes into `g_task_aos[spec->id]`.
abbrev pub task_ao : TaskSpec → Ao
task_ao spec = record {
  id = spec.id;
  prio = spec.prio;
  reserved = 0;
  q = eq_init spec.queue_storage spec.queue_capacity;
  dispatch = spec.dispatch;
  state = spec.ctx;
  flags = ao_flag_accept_events;
  rtc_max_ticks = spec.rtc_budget_ticks;
  events_handled = 0;
  name = spec.name;
}

unfoldable pub sched_register_task : Sched → TaskSpec → SchedStatus × Sched
sched_register_task s spec =
    if is_null spec.dispatch || is_null spec.ctx
    then (err_param, s)
    else if leb sched_max_ao spec.id || leb sched_max_ao spec.prio
    then (err_param, s)
    else if is_null spec.queue_storage || spec.queue_capacity == 0
    then (err_param, s)
    else if is_null (s.table spec.id)
    then sched_register (put_ao s spec.id (task_ao spec)) spec.id
    else (err_exists, s)

-- The part of `sched_unregister` behind its tests, `s->table[ao_id]` being `p`.
pub remove : Sched → ℕ → ℕ → Sched
remove s ao_id p =
    let ao = s.aos p in
    let ao' = record ao {
      q = eq_drain ao.q;
      flags = 0;
      dispatch = none;
      state = none;
      name = none;
      events_handled = 0;
      rtc_max_ticks = 0;
    } in
    record s {
      aos = update s.aos p ao';
      table = update s.table ao_id none;
      ready_bitmap = clear_ready s.ready_bitmap ao_id;
    }

unfoldable pub sched_unregister : Sched → ℕ → SchedStatus × Sched
unfolding remove
sched_unregister s ao_id =
    if leb sched_max_ao ao_id
    then (err_param, s)
    else elim (s.table ao_id) [ none ↦ (err_not_found, s) | some p ↦ (ok, remove s ao_id p) ]

abbrev pub is_ok : EqStatus → Bool
is_ok EqStatus.ok = true
is_ok _ = false

-- The part of `sched_post_common` behind the look-up, `push` being `eq_push` or `eq_push_isr`, when no
-- interrupt comes between the push and the end of the update of the bitmap, which are not masked together.
pub post_to :
    Sched → ℕ → ℕ → Event → (EventQueue → Event → EqStatus × EventQueue) → SchedStatus × Sched
post_to s ao_id p e push =
    let ao = s.aos p in
    let (rc, q') = push ao.q e in
    let s' = put_ao s p (record ao { q = q' }) in
    if bit_and ao.flags ao_flag_accept_events == 0
    then (err_disabled, s)
    else if is_ok rc
    then (ok, record s' { ready_bitmap = set_ready s.ready_bitmap ao_id })
    else (err_queue_full, s')

sched_post_common : Sched → ℕ → Event → Bool → SchedStatus × Sched
unfolding post_to
sched_post_common s ao_id e is_isr =
    if leb sched_max_ao ao_id then (err_param, s) else elim (s.table ao_id) [
      | none ↦ (err_not_found, s)
      | some p ↦ post_to s ao_id p e (if is_isr then eq_push_isr else eq_push)
    ]

unfoldable pub sched_post : Sched → ℕ → Event → SchedStatus × Sched
unfolding sched_post_common
sched_post s ao_id e = sched_post_common s ao_id e false

unfoldable pub sched_post_isr : Sched → ℕ → Event → SchedStatus × Sched
unfolding sched_post_common
sched_post_isr s ao_id e = sched_post_common s ao_id e true

-- `sched_pause_accept` and `sched_resume_accept` differ in the new flags.
pub set_flags : Sched → ℕ → (ℕ → ℕ) → SchedStatus × Sched
set_flags s ao_id new_flags =
    if leb sched_max_ao ao_id then (err_param, s) else elim (s.table ao_id) [
      | none ↦ (err_not_found, s)
      | some p ↦ (ok, put_ao s p (record (s.aos p) { flags = new_flags (s.aos p).flags }))
    ]

unfoldable pub sched_pause_accept : Sched → ℕ → SchedStatus × Sched
unfolding set_flags
sched_pause_accept s ao_id = set_flags s ao_id (λ f. bit_and f (2 ^ 32 - 1 - ao_flag_accept_events))

unfoldable pub sched_resume_accept : Sched → ℕ → SchedStatus × Sched
unfolding set_flags
sched_resume_accept s ao_id = set_flags s ao_id (λ f. bit_or f ao_flag_accept_events)

-- The body of the loop of `sched_flush_all`, `s->table[i]` being `t`.
unfoldable pub drain_entry : Sched → Option ℕ → Sched
drain_entry s none = s
drain_entry s (some p) = put_ao s p (record (s.aos p) { q = eq_drain (s.aos p).q })

-- The loop from index `i`, with `n` rounds left.
unfoldable pub flush_from : ℕ → ℕ → Sched → Sched
unfolding drain_entry
flush_from zero i s = s
flush_from (suc n) i s = flush_from n (i + 1) (drain_entry s (s.table i))

unfoldable pub sched_flush_all : Sched → Sched
unfolding flush_from
sched_flush_all s = record (flush_from sched_max_ao 0 s) { ready_bitmap = 0 }
