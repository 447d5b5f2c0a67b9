-- ===== src/Sched/Serve.antt =====
-- The invariant while a task's handler runs and when it has returned.
use rewind_os.Base.{
  ℕ, ◌+◌, ◌%◌, ◌^◌, ◌<◌, ◌≡◌, ◌≢◌, refl, Bool, true, false, Option, none, some, arith, ltb, ◌==◌,
}
use native.Mathlib.Decide.{ℕ_discrete}
use rewind_os.Base.Bits.{test_bit}
use rewind_os.Event.{EventQueue, eq_is_empty}
use rewind_os.Event.Fifo.{IsValid}
use rewind_os.Sched.{Sched, Ao, sched_max_ao, put_ao, clear_ready, is_null}
use rewind_os.Sched.Inv.{
  SchedOk, SlotOf, Slot, IsLive, none_busy, IsLive-at, change_slot, clear_ready_self,
  clear_ready_others, put-SchedOk, requeue,
}
use rewind_os.Base.{update_self, update_ne}
use rewind_os.Sched.Pick.{IsWaiting}
use rewind_os.Sched.Run.{count_event, settle}

-- The cursor is no part of the invariant.
pub move_cursor :
    {x : ℕ} {s : Sched} (c : ℕ → ℕ) → SchedOk x s → SchedOk x (record s { rr_cursor = c })
move_cursor c ok_s = record { slot = ok_s.slot }

same_id : (p : ℕ) → (p == p) ≡ true
same_id p = ground arith

other_id : (p i : ℕ) → p ≢ i → (p == i) ≡ false
other_id p i ne = ground arith

-- A task may become the one that is served.
pub start_busy :
    {s : Sched} (p : ℕ) → SchedOk none_busy s → p < sched_max_ao → s.table p ≡ some p → SchedOk p s
start_busy {s} p ok_s hp has = record { slot = go }
  where
    lax :
        IsLive (none_busy == p) p p (s.aos p) (test_bit s.ready_bitmap p)
        → IsLive true p p (s.aos p) (test_bit s.ready_bitmap p)
    lax l = record {
      pointer = l.pointer;
      named = l.named;
      prio_in = l.prio_in;
      handled = l.handled;
      queue = l.queue;
      bit = λ waits. ground (arith, l.bit);
    }

    go : (i : ℕ) → i < sched_max_ao → SlotOf p s i
    go i hi = elim (ℕ_discrete p i) [
      | yes e ↦ rw (← e, same_id p, has) (lax (IsLive-at ok_s hp has))
      | no ne ↦ rw (other_id p i ne) (rw (other_id none_busy i (omega arith)) at (ok_s.slot i hi))
    ]

-- After the handler of `p` the invariant holds without exception, if it does at the entry `p`.
end_busy :
    {s : Sched} (p : ℕ)
    → SchedOk p s
    → (p < sched_max_ao → SlotOf none_busy s p)
    → SchedOk none_busy s
end_busy {s} p ok_s at_p = record { slot = go }
  where
    go : (i : ℕ) → i < sched_max_ao → SlotOf none_busy s i
    go i hi = elim (ℕ_discrete p i) [
      | yes e ↦ rw e at (at_p (omega arith))
      | no ne ↦ rw (other_id none_busy i (omega arith)) (rw (other_id p i ne) at (ok_s.slot i hi))
    ]

-- The entry of the task that was served, when its bit is right again.
exact_entry :
    (t : Option ℕ) (i : ℕ) (ao : Ao) (ready : Bool)
    → Slot true i t ao ready
    → (is_null t ≡ false → ready ≡ ltb 0 ao.q.count)
    → Slot false i t ao ready
exact_entry none i ao ready h exact = (h.0, (λ b. cc b))
exact_entry (some p) i ao ready h exact = record {
  pointer = h.pointer;
  named = h.named;
  prio_in = h.prio_in;
  handled = h.handled;
  queue = h.queue;
  bit = exact refl;
}

entry_name : (t : Option ℕ) (i : ℕ) (ao : Ao) (ready : Bool) → Slot true i t ao ready → ao.id ≡ i
entry_name none i ao ready h = h.1 refl
entry_name (some p) i ao ready h = h.named

entry_empty :
    (t : Option ℕ) (i : ℕ) (ao : Ao) (ready : Bool)
    → Slot true i t ao ready
    → ao.q.count ≡ 0
    → Slot true i t ao false
entry_empty none i ao ready h e = (refl, h.1)
entry_empty (some p) i ao ready h e = record {
  pointer = h.pointer;
  named = h.named;
  prio_in = h.prio_in;
  handled = h.handled;
  queue = h.queue;
  bit = λ waits. absurd (omega arith);
}

entry_waits :
    (t : Option ℕ) (i : ℕ) (ao : Ao) (ready : Bool)
    → Slot true i t ao ready
    → 0 < ao.q.count
    → is_null t ≡ false
    → ready ≡ ltb 0 ao.q.count
entry_waits none i ao ready h w e = cc e
entry_waits (some p) i ao ready h w e = ground (arith, h.bit w)

module _ {s : Sched} (p : ℕ) (ok_s : SchedOk p s) (hp : p < sched_max_ao) where
  busy-Slot : Slot true p (s.table p) (s.aos p) (test_bit s.ready_bitmap p)
  busy-Slot = rw (same_id p) at (ok_s.slot p hp)

  pub settle-SchedOk : SchedOk none_busy (settle s p)
  unfolding settle eq_is_empty
  settle-SchedOk = elim (ℕ_discrete (s.aos p).q.count 0) [
    | yes e ↦
        let bm = clear_ready s.ready_bitmap p in
        let s' = record s { ready_bitmap = bm } in
        let cleared = clear_ready_self s.ready_bitmap p hp in
        let named = entry_name (s.table p) p (s.aos p) (test_bit s.ready_bitmap p) busy-Slot in
        let at_p : Slot true p (s.table p) (s.aos p) (test_bit bm p) =
          rw cleared
            (entry_empty (s.table p) p (s.aos p) (test_bit s.ready_bitmap p) busy-Slot e) in
        let ok' : SchedOk p s' =
          change_slot s' p ok_s (rw (same_id p) at_p)
            (λ j hj ne. (refl, refl, clear_ready_others s.ready_bitmap p j hp hj ne)) in
        rw (e, named)
          (end_busy p ok' (λ _.
            rw (other_id none_busy p (omega arith)) (
              exact_entry (s.table p) p (s.aos p) (test_bit bm p) at_p
                (λ _. rw (cleared, e) refl))))
    | no ne ↦
        let waits : 0 < (s.aos p).q.count = omega arith in
        let kept : ((s.aos p).q.count == 0) ≡ false = ground arith in
        rw kept (
          end_busy p ok_s (λ _. rw (other_id none_busy p (omega arith)) (
            exact_entry (s.table p) p (s.aos p) (test_bit s.ready_bitmap p) busy-Slot
              (entry_waits (s.table p) p (s.aos p) (test_bit s.ready_bitmap p) busy-Slot waits))))
  ]

entry_events :
    (t : Option ℕ) (busy : Bool) (i n : ℕ) (ao : Ao) (ready : Bool)
    → Slot busy i t ao ready
    → Slot busy i t (record ao { events_handled = n }) ready
entry_events none busy i n ao ready h = h
entry_events (some p) busy i n ao ready h = record {
  pointer = h.pointer;
  named = h.named;
  prio_in = h.prio_in;
  handled = h.handled;
  queue = h.queue;
  bit = h.bit;
}

pub count_event-SchedOk :
    {s : Sched} (p : ℕ) → SchedOk p s → p < sched_max_ao → SchedOk p (count_event s p)
unfolding count_event
count_event-SchedOk {s} p ok_s hp =
    let n = ((s.aos p).events_handled + 1) % 2 ^ 32 in
    let ao = record (s.aos p) { events_handled = n } in
    change_slot (put_ao s p ao) p ok_s
      (rw (update_self s.aos p ao) (
        entry_events (s.table p) (p == p) p n (s.aos p) (test_bit s.ready_bitmap p)
          (ok_s.slot p hp)))
      (λ j hj ne. (refl, update_ne s.aos p j ao ne, refl))

-- The state in which the handler runs.
pub pop-SchedOk :
    {s : Sched} (p : ℕ) (q : EventQueue)
    → SchedOk none_busy s
    → p < sched_max_ao
    → IsWaiting s p
    → IsValid q
    → SchedOk p (put_ao s p (record (s.aos p) { q = q }))
pop-SchedOk {s} p q ok_s hp w v =
    let ok' = start_busy p ok_s hp w.0 in
    let l = IsLive-at ok' hp w.0 in
    let b : test_bit s.ready_bitmap p ≡ true = ground (arith, (IsLive-at ok_s hp w.0).bit) in
    put-SchedOk p ok' hp w.0 (record (s.aos p) { q = q })
      (requeue q (test_bit s.ready_bitmap p) l v (rw (same_id p) (λ _. b)))
