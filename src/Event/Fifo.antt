-- ===== src/Event/Fifo.antt =====
-- An event queue behaves as a first-in first-out list of at most `capacity` events.
use rewind_os.Base.{
  ℕ, ◌+◌, ◌-◌, ◌%◌, ◌^◌, ◌≤◌, ◌<◌, ◌≡◌, refl, sym, ap, Option, none, some, List, [], ◌∷◌, ◌++◌,
  arith, if◌then◌else◌, ltb, leb, length, get_or, set, length-set, Option-cases, ◌⊎◌, inl, inr, suc,
}
use rewind_os.Ring.{window, advance_head, advance_tail, length-window, window_of_pos, window-set}
use Prim.Native.Nat.{max}
use native.Mathlib.Decide.{dec_lt}
use native.Mathlib.Nat.{mod-eq_of_lt}
use rewind_os.Event.{
  Event, EventQueue, EqStatus, ok, err_full, err_empty, no_event, eq_init, eq_push, eq_pop,
  eq_drain,
}

abbrev pub cells : EventQueue → List Event
cells q = elim q.buf [ none ↦ [] | some b ↦ b ]

-- The representation invariant: the indices lie inside the storage, the write index stands
-- `count` places after the read index, and the high watermark bounds the count.
pub record IsValid (q : EventQueue) : Type 0 where
  pub storage : q.capacity ≤ length (cells q)
  pub present : 0 < q.capacity
  pub small : q.capacity < 2 ^ 16
  pub tail_in : q.tail < q.capacity
  pub count_in : q.count ≤ q.capacity
  pub head_at : q.head ≡ (q.tail + q.count) % q.capacity
  pub mark_in : q.high_watermark ≤ q.capacity
  pub mark_above : q.count ≤ q.high_watermark

-- The events that wait, the oldest first.
abbrev pub contents : EventQueue → List Event
contents q = window no_event (cells q) q.capacity q.tail q.count

-- The specification: a list to which a push adds at the end unless it holds `size` events.
unfoldable pub fifo_push : ℕ → List Event → Event → EqStatus × List Event
fifo_push size l e = if leb size (length l) then (err_full, l) else (ok, l ++ (e ∷ []))

unfoldable pub fifo_pop : List Event → EqStatus × Option Event × List Event
fifo_pop [] = (err_empty, none, [])
fifo_pop (e ∷ l) = (ok, some e, l)

pub length-contents : (q : EventQueue) → length (contents q) ≡ q.count
length-contents q = length-window no_event (cells q) q.capacity q.tail q.count

-- `eq_init` on storage of at least `size` cells gives a valid queue with no event in it.
pub eq_init-IsValid :
    (b : List Event) (size : ℕ)
    → 0 < size
    → size < 2 ^ 16
    → size ≤ length b
    → IsValid (eq_init (some b) size) × (contents (eq_init (some b) size) ≡ [])
unfolding eq_init
eq_init-IsValid b size p s l = (
  record {
    storage = l;
    present = p;
    small = s;
    tail_in = p;
    count_in = omega arith;
    head_at = sym (mod-eq_of_lt p);
    mark_in = omega arith;
    mark_above = omega arith;
  },
  refl,
)

-- The queue after a push that fits, with no wrap to 16 bits left in it.
abbrev pushed : List Event → EventQueue → Event → EventQueue
pushed b q e = record q {
  buf = some (set b q.head e);
  head = (q.head + 1) % q.capacity;
  count = q.count + 1;
  high_watermark = if ltb q.high_watermark (q.count + 1) then q.count + 1 else q.high_watermark;
}

-- The queue after a pop of one event.
abbrev popped : EventQueue → EventQueue
popped q = record q { tail = (q.tail + 1) % q.capacity; count = q.count - 1 }

module _ {q : EventQueue} (v : IsValid q) where
  stored : (b : List Event) → q.buf ≡ some b → q.capacity ≤ length b
  stored b has = rw has at (v.storage)

  has_buf : (b : List Event) × (q.buf ≡ some b)
  has_buf = elim (Option-cases q.buf) [
    | inl missing ↦
        absurd (let l : q.capacity ≤ 0 = rw missing at (v.storage) in omega (arith, l, v))
    | inr found ↦ found
  ]

  next_small : (i : ℕ) → (i + 1) % q.capacity % 2 ^ 16 ≡ (i + 1) % q.capacity
  next_small i = omega (arith, v)

  push_full :
      (e : Event)
      → q.capacity ≤ q.count
      → eq_push q e ≡ (err_full, record q { dropped = (q.dropped + 1) % 2 ^ 32 })
  unfolding eq_push
  push_full e full = let (b, has) = has_buf in rw has (ground arith)

  push_room :
      (b : List Event) (e : Event)
      → q.buf ≡ some b
      → q.count < q.capacity
      → eq_push q e ≡ (ok, pushed b q e)
  unfolding eq_push
  push_room b e has room = rw has (ground (arith, next_small q.head))

  pushed-IsValid :
      (b : List Event) (e : Event) → q.buf ≡ some b → q.count < q.capacity → IsValid (pushed b q e)
  pushed-IsValid b e has room = record {
    storage = rw (length-set b q.head e) (stored b has);
    present = v.present;
    small = v.small;
    tail_in = v.tail_in;
    count_in = omega arith;
    head_at = advance_head q.capacity q.tail q.count q.head v.head_at;
    mark_in = ground arith;
    mark_above = ground arith;
  }

  contents-pushed :
      (b : List Event) (e : Event)
      → q.buf ≡ some b
      → q.count < q.capacity
      → contents (pushed b q e) ≡ contents q ++ (e ∷ [])
  contents-pushed b e has room =
      let e1 : q.count + 1 ≡ suc q.count = omega arith in
      rw (e1, has)
        (window-set no_event b q.capacity e q.count q.tail q.head (stored b has) v.tail_in room
          v.head_at)

  pop_some :
      (b : List Event)
      → q.buf ≡ some b
      → 0 < q.count
      → eq_pop q ≡ (ok, some (get_or b q.tail no_event), popped q)
  unfolding eq_pop
  pop_some b has some_event = rw has (ground (arith, next_small q.tail))

  pop_none : q.count ≡ 0 → eq_pop q ≡ (err_empty, none, q)
  unfolding eq_pop
  pop_none nothing = ground (arith, has_buf)

  popped-IsValid : 0 < q.count → IsValid (popped q)
  popped-IsValid some_event = record {
    storage = v.storage;
    present = v.present;
    small = v.small;
    tail_in = omega (arith, v);
    count_in = omega (arith, v);
    head_at = advance_tail q.capacity q.tail q.count q.head some_event v.head_at;
    mark_in = v.mark_in;
    mark_above = omega (arith, v);
  }

-- Any push on a valid queue keeps it valid and returns the status of the bounded list: a full
-- queue keeps its events in order, any other holds the new event last. The capacity stays, and the
-- high watermark is the greater of its old value and the new count.
pub eq_push_refines :
    {q : EventQueue} (e : Event)
    → IsValid q
    → let (s, q') = eq_push q e in
      IsValid q'
      × ((s, contents q') ≡ fifo_push q.capacity (contents q) e)
      × (q'.capacity ≡ q.capacity)
      × (q'.high_watermark ≡ max q.high_watermark q'.count)
unfolding fifo_push
eq_push_refines {q} e v = elim (dec_lt q.count q.capacity) [
  | yes room ↦
      let (b, has) = has_buf v in
      rw (push_room v b e has room) (
        pushed-IsValid v b e has room,
        ground (arith, contents-pushed v b e has room, length-contents q),
        refl,
        ground arith,
      )
  | no full ↦
      rw (push_full v e (omega arith))
        (v_dropped v, ground (arith, length-contents q), refl, omega (arith, v))
]
  where
    v_dropped : IsValid q → IsValid (record q { dropped = (q.dropped + 1) % 2 ^ 32 })
    v_dropped w = ground arith

-- What a push does to the count.
pub eq_push_count :
    {q : EventQueue} (e : Event)
    → IsValid q
    → ((eq_push q e).0 ≡ ok) × ((eq_push q e).1.count ≡ q.count + 1)
      ⊎ ((eq_push q e).0 ≡ err_full) × ((eq_push q e).1.count ≡ q.count)
eq_push_count {q} e v = elim (dec_lt q.count q.capacity) [
  | yes room ↦ let (b, has) = has_buf v in rw (push_room v b e has room) (inl (refl, refl))
  | no full ↦ rw (push_full v e (omega arith)) (inr (refl, refl))
]

-- A pop on a valid queue keeps it valid, keeps its capacity, and returns the status and the event
-- of the list: the oldest event, or none from an empty queue.
pub eq_pop_refines :
    {q : EventQueue}
    → IsValid q
    → let (s, out, q') = eq_pop q in
      IsValid q' × ((s, out, contents q') ≡ fifo_pop (contents q)) × (q'.capacity ≡ q.capacity)
unfolding fifo_pop
eq_pop_refines {q} v = elim (dec_lt 0 q.count) [
  | yes some_event ↦
      let (b, has) = has_buf v in
      rw (pop_some v b has some_event) (
        popped-IsValid v some_event,
        rw (window_of_pos no_event (cells q) q.capacity q.tail q.count some_event) (rw has),
        refl,
      )
  | no nothing ↦ let z : q.count ≡ 0 = omega arith in rw (pop_none v z) (v, rw z, refl)
]

nonempty : (l : List Event) → 0 < length l → (e : Event) × (l' : List Event) × (l ≡ e ∷ l')
nonempty [] h = absurd (omega arith)
nonempty (e ∷ l) h = (e, l, refl)

-- A pop on a valid queue with an event in it takes the oldest.
pub eq_pop_oldest :
    {q : EventQueue}
    → IsValid q
    → 0 < q.count
    → (e : Event) × (l : List Event) × (contents q ≡ e ∷ l)
      × ((eq_pop q).1 ≡ some e)
      × (contents (eq_pop q).2 ≡ l)
      × IsValid (eq_pop q).2
unfolding fifo_pop
eq_pop_oldest {q} v waits =
    let (e, l, same) = nonempty (contents q) (rw (length-contents q) waits) in
    let (v', pops, _) = eq_pop_refines v in
    let now : ((eq_pop q).0, (eq_pop q).1, contents (eq_pop q).2) ≡ (ok, some e, l) =
      rw same at pops in
    (e, l, same, ap (λ t. t.1) now, ap (λ t. t.2) now, v')

-- `eq_drain` leaves a valid queue with no event in it.
pub eq_drain-IsValid :
    {q : EventQueue} → IsValid q → IsValid (eq_drain q) × (contents (eq_drain q) ≡ [])
unfolding eq_drain
eq_drain-IsValid {q} v = (
  record {
    storage = v.storage;
    present = v.present;
    small = v.small;
    tail_in = v.present;
    count_in = omega arith;
    head_at = sym (mod-eq_of_lt v.present);
    mark_in = v.mark_in;
    mark_above = omega arith;
  },
  refl,
)
