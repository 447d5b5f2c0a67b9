-- ===== src/Event.antt =====
-- include/event.h and the event queues of src/scheduler/scheduler.c: `event_t`,
-- `event_queue_t` and the functions `eq_*`.
-- A function that updates `*q` returns the new queue beside its status. The queue and the event
-- are values here, so the tests of `q`, `e` and `out` against a null pointer have no counterpart;
-- `buf`, which the state holds, can be null (`none`). `irq_save` and `irq_restore` keep an
-- interrupt from running between two statements of a call, so a call is one step.
pub mod Fifo
pub mod Run
mod Tests
use rewind_os.Base.{
  ℕ, ◌+◌, ◌-◌, ◌%◌, ◌^◌, Bool, true, false, Option, none, some, List, [], ◌∷◌, if◌then◌else◌, ltb,
  leb, ◌==◌, get_or, set,
}

-- `event_t`
pub record Event : Type 0 where
  pub sig : ℕ  -- uint16
  pub src : ℕ  -- uint16
  pub arg0 : ℕ
  pub arg1 : ℕ
  pub tick : ℕ  -- uint32

-- What a read outside the storage yields; `Fifo.IsValid` rules such a read out.
abbrev pub no_event : Event
no_event = record { sig = 0; src = 0; arg0 = 0; arg1 = 0; tick = 0 }

-- `EQ_OK`, `EQ_ERR_PARAM`, `EQ_ERR_FULL`, `EQ_ERR_EMPTY`
pub data EqStatus : Type 0 where
  ok err_param err_full err_empty : EqStatus

-- `event_queue_t`
pub record EventQueue : Type 0 where
  pub buf : Option (List Event)
  pub capacity : ℕ  -- uint16
  pub head : ℕ  -- uint16, the next write
  pub tail : ℕ  -- uint16, the next read
  pub count : ℕ  -- uint16
  pub high_watermark : ℕ  -- uint16
  pub dropped : ℕ  -- uint32

unfoldable pub eq_init : Option (List Event) → ℕ → EventQueue
eq_init storage size = record {
  buf = storage;
  capacity = size;
  head = 0;
  tail = 0;
  count = 0;
  high_watermark = 0;
  dropped = 0;
}

-- The part of `eq_push_common` behind the parameter tests, `q->buf` being `b`.
push_into : List Event → EventQueue → Event → EqStatus × EventQueue
push_into b q e =
    let count' = (q.count + 1) % 2 ^ 16 in
    if leb q.capacity q.count
    then (err_full, record q { dropped = (q.dropped + 1) % 2 ^ 32 })
    else (
      ok,
      record q {
        buf = some (set b q.head e);
        head = (q.head + 1) % q.capacity % 2 ^ 16;
        count = count';
        high_watermark = if ltb q.high_watermark count' then count' else q.high_watermark;
      },
    )

unfoldable pub eq_push_common : EventQueue → Event → EqStatus × EventQueue
unfolding push_into
eq_push_common q e = elim q.buf [
  | none ↦ (err_param, q)
  | some b ↦ if q.capacity == 0 then (err_param, q) else push_into b q e
]

-- `eq_push` is `eq_push_common` with interrupts masked.
unfoldable pub eq_push : EventQueue → Event → EqStatus × EventQueue
unfolding eq_push_common
eq_push q e = eq_push_common q e

unfoldable pub eq_push_isr : EventQueue → Event → EqStatus × EventQueue
unfolding eq_push_common
eq_push_isr q e = eq_push_common q e

-- The option is what goes through `out`.
pop_from : List Event → EventQueue → EqStatus × Option Event × EventQueue
pop_from b q = if q.count == 0 then (err_empty, none, q) else (
  ok,
  some (get_or b q.tail no_event),
  record q { tail = (q.tail + 1) % q.capacity % 2 ^ 16; count = q.count - 1 },
)

unfoldable pub eq_pop : EventQueue → EqStatus × Option Event × EventQueue
unfolding pop_from
eq_pop q = elim q.buf [
  | none ↦ (err_param, none, q)
  | some b ↦ if q.capacity == 0 then (err_param, none, q) else pop_from b q
]

unfoldable pub eq_is_empty : EventQueue → Bool
eq_is_empty q = q.count == 0

unfoldable pub eq_drain : EventQueue → EventQueue
eq_drain q = record q { head = 0; tail = 0; count = 0 }
