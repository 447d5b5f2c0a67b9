-- ===== src/Event/Run.antt =====
-- Whole runs of an event queue give what the bounded list gives.
use rewind_os.Base.{ℕ, ◌≡◌, refl, ap, Option, none, List, [], ◌∷◌, arith}
use rewind_os.Event.{Event, EventQueue, EqStatus, ok, eq_push, eq_push_isr, eq_pop, eq_drain}
use rewind_os.Event.Fifo.{
  IsValid, contents, fifo_push, fifo_pop, eq_push_refines, eq_pop_refines, eq_drain-IsValid,
}

-- What the tasks and the interrupts do to one queue, in the order in which it happens.
pub data QueueOp : Type 0 where
  push push_isr : Event → QueueOp
  pop drain : QueueOp

unfoldable pub apply : QueueOp → EventQueue → EqStatus × Option Event × EventQueue
apply (push e) q = let (s, q') = eq_push q e in (s, none, q')
apply (push_isr e) q = let (s, q') = eq_push_isr q e in (s, none, q')
apply pop q = eq_pop q
apply drain q = (ok, none, eq_drain q)

unfoldable pub fifo_apply : ℕ → QueueOp → List Event → EqStatus × Option Event × List Event
fifo_apply size (push e) l = let (s, l') = fifo_push size l e in (s, none, l')
fifo_apply size (push_isr e) l = let (s, l') = fifo_push size l e in (s, none, l')
fifo_apply size pop l = fifo_pop l
fifo_apply size drain l = (ok, none, [])

-- The statuses and the events that come out.
unfoldable pub run : List QueueOp → EventQueue → List (EqStatus × Option Event)
unfolding apply
run [] q = []
run (o ∷ ops) q = let (s, out, q') = apply o q in (s, out) ∷ run ops q'

unfoldable pub fifo_run : ℕ → List QueueOp → List Event → List (EqStatus × Option Event)
fifo_run size [] l = []
fifo_run size (o ∷ ops) l =
    let (s, out, l') = fifo_apply size o l in (s, out) ∷ fifo_run size ops l'

eq_push_isr-eq_push : (q : EventQueue) (e : Event) → eq_push_isr q e ≡ eq_push q e
unfolding eq_push_isr eq_push
eq_push_isr-eq_push q e = refl

pub apply_refines :
    {q : EventQueue} (o : QueueOp)
    → IsValid q
    → let (s, out, q') = apply o q in
      IsValid q'
      × ((s, out, contents q') ≡ fifo_apply q.capacity o (contents q))
      × (q'.capacity ≡ q.capacity)
unfolding apply fifo_apply eq_drain
apply_refines (push e) v = ground (arith, eq_push_refines e v)
apply_refines {q} (push_isr e) v =
    rw (eq_push_isr-eq_push q e) (ground (arith, eq_push_refines e v))
apply_refines pop v = eq_pop_refines v
apply_refines drain v = let (v', none_left) = eq_drain-IsValid v in (v', refl, refl)

-- Whatever sequence of pushes, pushes from interrupts, pops and drains reaches a valid queue, its
-- statuses and the events that come out are those of the list bounded by the queue's capacity.
pub run_refines :
    (ops : List QueueOp) {q : EventQueue}
    → IsValid q
    → run ops q ≡ fifo_run q.capacity ops (contents q)
unfolding run fifo_run
run_refines [] v = refl
run_refines (o ∷ ops) {q} v =
    let (v', same, stays) = apply_refines o v in
    let (s, out, q') = apply o q in
    rw (run_refines ops v', ← same) (ap (λ k. (s, out) ∷ fifo_run k ops (contents q')) stays)
