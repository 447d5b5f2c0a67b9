-- ===== src/Sched/Race/NoPanic.antt =====
-- No interrupt, wherever it comes, makes the scheduler call a task that has no handler.
use rewind_os.Base.{ℕ, ◌+◌, ◌%◌, ◌^◌, ◌≡◌, refl, false, Option, none, some, List, [], ◌∷◌}
use rewind_os.Event.{Event, eq_pop}
use rewind_os.Sched.{Sched, is_null, sched_init, sched_max_ao}
use rewind_os.Sched.Calls.{exec}
use rewind_os.Sched.Run.{Outcome, next, count_event}
use rewind_os.Sched.Pick.{pick_ready_rr, highest_ready_prio}
use rewind_os.Sched.Race.{
  interrupts, RaceProg, run_race_prog, Interrupts, RaceAct, amid_round, between, handle_amid,
  deliver_amid, serve_amid, rest_amid, picked_amid, prio_amid, sched_round_amid, sched_run_amid,
}
use rewind_os.Sched.Race.Kept.{
  CanRun, put-CanRun, interrupts-CanRun, exec-CanRun, settle-CanRun, run-CanRun, pick_from-IsPick,
}

module _ {W : Type 0} (handler : ℕ → ℕ → Event → W → RaceProg W) (idle : ℕ → W → RaceProg W) where
  -- The outcome is no panic, and its state can go on.
  GoesOn : Outcome W → Type 0
  GoesOn r = (s : Sched) × (w : W) × (r ≡ next s w) × CanRun s

  goes_on : (s : Sched) (w : W) → CanRun s → GoesOn (next s w)
  unfolding GoesOn
  goes_on s w h = (s, w, refl, h)

  handle-CanRun :
      (s : Sched) (w : W) (p f : ℕ) (out : Option Event)
      → CanRun s
      → CanRun (handle_amid handler idle s w p f out).0
  unfolding handle_amid count_event
  handle-CanRun s w p f none h = h
  handle-CanRun s w p f (some e) h =
      let s' = (run_race_prog (handler f p e w) s).0 in
      let n = ((s'.aos p).events_handled + 1) % 2 ^ 32 in
      put-CanRun s' p (record (s'.aos p) { events_handled = n }) refl
        (run-CanRun (handler f p e w) s h)

  serve-GoesOn :
      (t : Interrupts) (s : Sched) (w : W) (p : ℕ) (dispatch : Option ℕ)
      → CanRun s
      → is_null dispatch ≡ false
      → GoesOn (serve_amid handler idle t s w p dispatch)
  unfolding serve_amid deliver_amid
  serve-GoesOn t s w p none h can = cc can
  serve-GoesOn t s w p (some f) h can =
      let (rc, out, q') = eq_pop (s.aos p).q in
      let popped = put-CanRun s p (record (s.aos p) { q = q' }) refl h in
      let s' = (deliver_amid handler idle t s w p f).0 in
      let handled = handle-CanRun _ w p f out (interrupts-CanRun t.after_pop _ popped) in
      goes_on _ _
        (settle-CanRun t.after_test t.amid_clear _ p (interrupts-CanRun t.after_handler s' handled))

  rest-GoesOn :
      (s : Sched) (w : W) (hook : Option ℕ) → CanRun s → GoesOn (rest_amid handler idle s w hook)
  unfolding rest_amid
  rest-GoesOn s w none h = goes_on s w h
  rest-GoesOn s w (some k) h = goes_on _ _ (run-CanRun (idle k w) s h)

  picked-GoesOn :
      (t : Interrupts) (s : Sched) (w : W) (o : Option ℕ)
      → CanRun s
      → ((p : ℕ) → o ≡ some p → is_null (s.aos p).dispatch ≡ false)
      → GoesOn (picked_amid handler idle t s w o)
  unfolding picked_amid
  picked-GoesOn t s w none h can = goes_on s w h
  picked-GoesOn t s w (some p) h can =
      serve-GoesOn t _ w p (s.aos p).dispatch (interrupts-CanRun t.after_pick s h) (can p refl)

  prio-GoesOn :
      (t : Interrupts) (s : Sched) (w : W) (o : Option ℕ)
      → CanRun s
      → GoesOn (prio_amid handler idle t s w o)
  unfolding prio_amid pick_ready_rr
  prio-GoesOn t s w none h = rest-GoesOn s w s.idle_hook h
  prio-GoesOn t s w (some prio) h =
      let s₁ = interrupts t.before_pick s in
      let h₁ = interrupts-CanRun t.before_pick s h in
      let start = (s₁.rr_cursor prio + 1) % 2 ^ 8 in
      let (can, same, tab) = pick_from-IsPick sched_max_ao 0 start prio s₁ h₁ in
      picked-GoesOn t _ w _ (rw (same, tab) h₁) (λ p e. rw same (can p e))

  round-GoesOn :
      (t : Interrupts) (s : Sched) (w : W) → CanRun s → GoesOn (sched_round_amid handler idle t s w)
  unfolding sched_round_amid
  round-GoesOn t s w h = prio-GoesOn t s w (highest_ready_prio s) h

  run-GoesOn :
      (acts : List RaceAct) (s : Sched) (w : W)
      → CanRun s
      → GoesOn (sched_run_amid handler idle acts s w)
  unfolding sched_run_amid GoesOn
  run-GoesOn [] s w h = goes_on s w h
  run-GoesOn (between c ∷ acts) s w h = run-GoesOn acts (exec c s).1 w (exec-CanRun c s h)
  run-GoesOn (amid_round t ∷ acts) s w h =
      let (s₁, w₁, e, h₁) = round-GoesOn t s w h in
      rw (e, sched_run_amid) (run-GoesOn acts s₁ w₁ h₁)

  -- From `sched_init` on, `sched_run` never calls `kernel_panic`, whatever calls of `Call` come between the
  -- rounds and are made by the handlers and the idle hook, and whatever posts of interrupts come in the
  -- midst of the handlers' posts and between the steps of a round: before and after the choice of the task,
  -- after its event is taken, after its handler, and in the test of the queue and the update of the
  -- bitmap. At the end every registered task stands at its own place and has a handler.
  pub sched_run_safe :
      (acts : List RaceAct) (memory : Sched) (hook : Option ℕ) (w : W)
      → (s : Sched) × (w' : W) × (sched_run_amid handler idle acts (sched_init memory hook) w
          ≡ next s w')
        × CanRun s
  unfolding sched_init GoesOn
  sched_run_safe acts memory hook w = run-GoesOn acts (sched_init memory hook) w (λ i p e. cc e)
