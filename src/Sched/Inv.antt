-- ===== src/Sched/Inv.antt =====
-- The invariant of the scheduler and that the calls on a registered task keep it.
use rewind_os.Base.{
  update_self, update_ne, ℕ, ◌≤◌, ◌<◌, ◌≡◌, ◌≢◌, refl, Bool, true, false, Option, none, some, arith,
  ltb, ◌==◌, update, Bool-cases, Option-cases, inl, inr, lt→leb,
}
use Prim.Native.Nat.{bit_and}
use rewind_os.Base.Bits.{test_bit}
use native.Mathlib.Decide.{dec_lt, ℕ_discrete}
use rewind_os.Event.{Event, EventQueue, eq_push}
use rewind_os.Event.Fifo.{IsValid, eq_push_refines, eq_push_count}
use rewind_os.Sched.{
  Sched, Ao, SchedStatus, sched_max_ao, is_null, put_ao, post_to, sched_post, remove, set_ready,
  clear_ready,
}
use rewind_os.Sched.Bitmap.{test_bit-set_ready, test_bit-clear_ready}

-- What the ready bit says of the count of a queue. While a handler of a task runs, its bit may
-- still be set over an empty queue, since `sched_run` clears it after the handler has returned.
abbrev pub BitOk : Bool → Bool → ℕ → Type 0
BitOk true ready n = 0 < n → ready ≡ true
BitOk false ready n = ready ≡ ltb 0 n

pub bit_full : (busy : Bool) (n : ℕ) → 0 < n → BitOk busy true n
bit_full true n h = λ _. refl
bit_full false n h = ground arith

pub bit_empty : (busy : Bool) (n : ℕ) → n ≡ 0 → BitOk busy false n
bit_empty true n h = λ k. absurd (omega arith)
bit_empty false n h = ground arith

-- A registered task: its active object stands at the address of its own id and can run, and its
-- ready bit is right.
pub record IsLive (busy : Bool) (i p : ℕ) (ao : Ao) (ready : Bool) : Type 0 where
  pub pointer : p ≡ i
  pub named : ao.id ≡ i
  pub prio_in : ao.prio < sched_max_ao
  pub handled : is_null ao.dispatch ≡ false
  pub queue : IsValid ao.q
  pub bit : BitOk busy ready ao.q.count

-- One entry of the table. An entry that is null has its ready bit clear; if its handler has just
-- unregistered itself, the active object still has the id of the entry.
abbrev pub Slot : Bool → ℕ → Option ℕ → Ao → Bool → Type 0
Slot busy i none ao ready = (ready ≡ false) × (busy ≡ true → ao.id ≡ i)
Slot busy i (some p) ao ready = IsLive busy i p ao ready

abbrev pub SlotOf : ℕ → Sched → ℕ → Type 0
SlotOf x s i = Slot (x == i) i (s.table i) (s.aos i) (test_bit s.ready_bitmap i)

-- The invariant, while the handler of the task `x` runs.
pub record SchedOk (x : ℕ) (s : Sched) : Type 0 where
  pub slot : (i : ℕ) → i < sched_max_ao → SlotOf x s i

-- The invariant between two rounds, when no handler runs.
abbrev pub none_busy : ℕ
none_busy = 32

-- `s'` has the entry `j` of `s`.
abbrev pub SameSlot : Sched → Sched → ℕ → Type 0
SameSlot s s' j =
    (s'.table j ≡ s.table j)
    × (s'.aos j ≡ s.aos j)
    × (test_bit s'.ready_bitmap j ≡ test_bit s.ready_bitmap j)

-- A step that changes one entry has that entry to answer for.
pub change_slot :
    {x : ℕ} {s : Sched} (s' : Sched) (i : ℕ)
    → SchedOk x s
    → SlotOf x s' i
    → ((j : ℕ) → j < sched_max_ao → i ≢ j → SameSlot s s' j)
    → SchedOk x s'
change_slot {x} {s} s' i ok_s at_i others = record { slot = go }
  where
    go : (j : ℕ) → j < sched_max_ao → SlotOf x s' j
    go j hj = elim (ℕ_discrete i j) [
      | yes e ↦ rw e at at_i
      | no ne ↦ let (t, a, b) = others j hj ne in rw (t, a, b) (ok_s.slot j hj)
    ]

pub IsLive-at :
    {x : ℕ} {s : Sched} {i p : ℕ}
    → SchedOk x s
    → i < sched_max_ao
    → s.table i ≡ some p
    → IsLive (x == i) i p (s.aos i) (test_bit s.ready_bitmap i)
IsLive-at {s} {i} ok_s hi e = rw e at (ok_s.slot i hi)

-- The entry `i` after a write to its active object, with the table as it was.
pub put_live :
    (x : ℕ) (s : Sched) (i : ℕ) (ao : Ao) (bitmap : ℕ)
    → s.table i ≡ some i
    → IsLive (x == i) i i ao (test_bit bitmap i)
    → SlotOf x (record s { aos = update s.aos i ao; ready_bitmap = bitmap }) i
put_live x s i ao bitmap has live = rw (has, update_self s.aos i ao) live

-- A task with its queue exchanged.
pub requeue :
    {busy : Bool} {i p : ℕ} {ao : Ao} {ready : Bool} (q : EventQueue) (ready' : Bool)
    → IsLive busy i p ao ready
    → IsValid q
    → BitOk busy ready' q.count
    → IsLive busy i p (record ao { q = q }) ready'
requeue q ready' live v bit = record {
  pointer = live.pointer;
  named = live.named;
  prio_in = live.prio_in;
  handled = live.handled;
  queue = v;
  bit = bit;
}

pub set_ready_others : (m i j : ℕ) → i < 32 → i ≢ j → test_bit (set_ready m i) j ≡ test_bit m j
set_ready_others m i j hi ne = ground (arith, test_bit-set_ready m i j hi)

pub clear_ready_others :
    (m i j : ℕ) → i < 32 → j < 32 → i ≢ j → test_bit (clear_ready m i) j ≡ test_bit m j
clear_ready_others m i j hi hj ne = ground (arith, test_bit-clear_ready m i j hi hj)

pub set_ready_self : (m i : ℕ) → i < 32 → test_bit (set_ready m i) i ≡ true
set_ready_self m i hi = ground (arith, test_bit-set_ready m i i hi)

pub clear_ready_self : (m i : ℕ) → i < 32 → test_bit (clear_ready m i) i ≡ false
clear_ready_self m i hi = ground (arith, test_bit-clear_ready m i i hi hi)

module _ {x : ℕ} {s : Sched} (i : ℕ) (ok_s : SchedOk x s) (hi : i < sched_max_ao)
    (has : s.table i ≡ some i) where
  live : IsLive (x == i) i i (s.aos i) (test_bit s.ready_bitmap i)
  live = IsLive-at ok_s hi has

  -- Writing the active object of a registered task, its ready bit as it should be.
  pub put-SchedOk :
      (ao : Ao) → IsLive (x == i) i i ao (test_bit s.ready_bitmap i) → SchedOk x (put_ao s i ao)
  put-SchedOk ao l =
      change_slot (put_ao s i ao) i ok_s (put_live x s i ao s.ready_bitmap has l)
        (λ j hj ne. (refl, update_ne s.aos i j ao ne, refl))

  mark-SchedOk :
      (ao : Ao)
      → IsLive (x == i) i i ao true
      → SchedOk x (record (put_ao s i ao) { ready_bitmap = set_ready s.ready_bitmap i })
  mark-SchedOk ao l =
      change_slot (record (put_ao s i ao) { ready_bitmap = set_ready s.ready_bitmap i }) i ok_s
        (put_live x s i ao (set_ready s.ready_bitmap i) has
          (rw (set_ready_self s.ready_bitmap i hi) l))
        (λ j hj ne. (refl, update_ne s.aos i j ao ne, set_ready_others s.ready_bitmap i j hi ne))

  pub unmark-SchedOk :
      (ao : Ao)
      → IsLive (x == i) i i ao false
      → SchedOk x (record (put_ao s i ao) { ready_bitmap = clear_ready s.ready_bitmap i })
  unmark-SchedOk ao l =
      change_slot (record (put_ao s i ao) { ready_bitmap = clear_ready s.ready_bitmap i }) i ok_s
        (put_live x s i ao (clear_ready s.ready_bitmap i) has
          (rw (clear_ready_self s.ready_bitmap i hi) l))
        (λ j hj ne.
          (refl, update_ne s.aos i j ao ne, clear_ready_others s.ready_bitmap i j hi hj ne))

  post_to-SchedOk : (e : Event) → SchedOk x (post_to s i i e eq_push).1
  unfolding post_to
  post_to-SchedOk e = elim (Bool-cases (bit_and (s.aos i).flags 1 == 0)) [
    | inl disabled ↦ rw disabled ok_s
    | inr enabled ↦ rw enabled (
        let q' = (eq_push (s.aos i).q e).1 in
        let v = (eq_push_refines e live.queue).0 in
        elim (eq_push_count e live.queue) [
          | inl (accepted, count) ↦ rw accepted (
              mark-SchedOk (record (s.aos i) { q = q' })
                (requeue q' true live v (rw count (bit_full (x == i) _ (omega arith)))))
          | inr (full, count) ↦ rw full (
              put-SchedOk (record (s.aos i) { q = q' })
                (requeue q' (test_bit s.ready_bitmap i) live v (rw count live.bit)))
        ])
  ]

  pub remove-SchedOk : SchedOk x (remove s i i)
  unfolding remove
  remove-SchedOk =
      change_slot (remove s i i) i ok_s
        (rw (update_self s.table i none, update_self s.aos i)
          (clear_ready_self s.ready_bitmap i hi, (λ _. live.named)))
        (λ j hj ne. (
          update_ne s.table i j none ne,
          update_ne s.aos i j _ ne,
          clear_ready_others s.ready_bitmap i j hi hj ne,
        ))

  pub set_flags-SchedOk : (f : ℕ) → SchedOk x (put_ao s i (record (s.aos i) { flags = f }))
  set_flags-SchedOk f =
      put-SchedOk (record (s.aos i) { flags = f })
        (record {
          pointer = live.pointer;
          named = live.named;
          prio_in = live.prio_in;
          handled = live.handled;
          queue = live.queue;
          bit = live.bit;
        })

-- A registered entry points at its own active object.
pub own_pointer :
    {x : ℕ} {s : Sched} {i p : ℕ}
    → SchedOk x s
    → i < sched_max_ao
    → s.table i ≡ some p
    → s.table i ≡ some i
own_pointer {s} {i} ok_s hi e = rw (e, (IsLive-at ok_s hi e).pointer)

-- A call on a task, by what the table holds at its id: refused out of range or at a null entry.
pub by_entry :
    {x : ℕ} {s : Sched} (op : SchedStatus × Sched) (i : ℕ)
    → SchedOk x s
    → (sched_max_ao ≤ i → op.1 ≡ s)
    → (s.table i ≡ none → op.1 ≡ s)
    → (i < sched_max_ao → s.table i ≡ some i → SchedOk x op.1)
    → SchedOk x op.1
by_entry {x} {s} op i ok_s out empty entry = elim (dec_lt i sched_max_ao) [
  | no far ↦ rw (out (omega arith)) ok_s
  | yes hi ↦ elim (Option-cases (s.table i)) [
    | inl e ↦ rw (empty e) ok_s
    | inr (p, e) ↦ entry hi (own_pointer ok_s hi e)
  ]
]

pub sched_post-SchedOk :
    {x : ℕ} {s : Sched} (i : ℕ) (e : Event) → SchedOk x s → SchedOk x (sched_post s i e).1
unfolding sched_post
sched_post-SchedOk {x} {s} i e ok_s =
    by_entry (sched_post s i e) i ok_s (λ far. ground arith) (λ none_there. ground arith)
      (λ hi has. rw (lt→leb i sched_max_ao hi, has) (post_to-SchedOk i ok_s hi has e))
