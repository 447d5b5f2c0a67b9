-- ===== src/Event/Tests.antt =====
-- Runs of the event queues, and their theorems at concrete queues.
use rewind_os.Base.{ℕ, ◌≡◌, refl, some, none, List, [], ◌∷◌, arith}
use rewind_os.Event.{
  Event, EventQueue, ok, err_full, err_empty, no_event, eq_push, eq_push_isr, eq_pop, eq_drain,
}
use rewind_os.Event.Fifo.{IsValid}
use rewind_os.Event.Run.{fifo_run, push, push_isr, pop, drain, QueueOp, run, run_refines}

abbrev signal : ℕ → Event
signal n = record { sig = n; src = 0; arg0 = 0; arg1 = 0; tick = 0 }

-- Three cells; the two waiting events go round the end of the storage.
abbrev wrapped : EventQueue
wrapped = record {
  buf = some (signal 9 ∷ no_event ∷ signal 8 ∷ []);
  capacity = 3;
  head = 1;
  tail = 2;
  count = 2;
  high_watermark = 2;
  dropped = 0;
}

abbrev script : List QueueOp
script = push (signal 1) ∷ push_isr (signal 2) ∷ pop ∷ pop ∷ push (signal 3) ∷ drain ∷ pop ∷ []

wrapped-IsValid : IsValid wrapped
wrapped-IsValid = omega arith

run-wrapped :
    run script wrapped
    ≡ (ok, none)
      ∷ (err_full, none)
      ∷ (ok, some (signal 8))
      ∷ (ok, some (signal 9))
      ∷ (ok, none)
      ∷ (ok, none)
      ∷ (err_empty, none)
      ∷ []
unfolding run eq_push eq_push_isr eq_pop eq_drain
run-wrapped = refl

run_refines_example : run script wrapped ≡ fifo_run 3 script (signal 8 ∷ signal 9 ∷ [])
run_refines_example = run_refines script wrapped-IsValid
