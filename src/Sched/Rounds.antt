-- ===== src/Sched/Rounds.antt =====
-- What a round of `sched_run` does when no interrupt comes in the middle of it.
use rewind_os.Base.{
  ℕ, ◌≤◌, ◌<◌, ◌≡◌, refl, ◌∙◌, ap, Option, none, some, arith, update, Option-cases, inl, inr, List,
  [], ◌∷◌,
}
use rewind_os.Event.{Event, EventQueue, eq_pop}
use rewind_os.Event.Fifo.{contents, eq_pop_oldest}
use rewind_os.Sched.{Sched, sched_init, sched_max_ao, put_ao}
use rewind_os.Sched.Inv.{SchedOk, none_busy, IsLive-at}
use rewind_os.Sched.Calls.{exec, exec-SchedOk, sched_init-SchedOk}
use rewind_os.Sched.Pick.{highest_ready_prio, pick_ready_rr, IsWaiting}
use rewind_os.Sched.Pick.Highest.{highest_ready_prio_lem}
use rewind_os.Sched.Pick.Fair.{pick_ready_rr_fair}
use rewind_os.Sched.Run.{
  Prog, run_prog, IsGoodProg, run_prog-SchedOk, Outcome, next, count_event, settle, deliver, serve,
  serve_by, rest, Act, AreGood, round, interrupt, sched_run, sched_round,
}
use rewind_os.Sched.Serve.{move_cursor, settle-SchedOk, count_event-SchedOk, pop-SchedOk}

module _ {W : Type 0} (handler : ℕ → ℕ → Event → W → Prog W) (idle : ℕ → W → Prog W)
    (good : (f p : ℕ) (e : Event) (w : W) → IsGoodProg (handler f p e w))
    (good_idle : (h : ℕ) (w : W) → IsGoodProg (idle h w)) where
  -- A round that takes the oldest event `e` of the task `p` and calls its handler `f` with it.
  pub record Serves (s : Sched) (w : W) (p : ℕ) (after : Outcome W) : Type 0 where
    pub f : ℕ
    pub e : Event
    pub q : EventQueue
    pub l : List Event
    pub waits : IsWaiting s p
    pub highest : (j : ℕ) → j < sched_max_ao → IsWaiting s j → (s.aos j).prio ≤ (s.aos p).prio
    pub handled : (s.aos p).dispatch ≡ some f
    pub oldest : contents (s.aos p).q ≡ e ∷ l
    pub rest_of : contents q ≡ l
    pub ends :
        let before = record s {
          aos = update s.aos p (record (s.aos p) { q = q });
          rr_cursor = update s.rr_cursor (s.aos p).prio p;
        } in
        let (s', w') = run_prog (handler f p e w) before in
        after ≡ next (settle (count_event s' p) p) w'

  rest-SchedOk :
      (s : Sched) (w : W)
      → SchedOk none_busy s
      → (s' : Sched) × (w' : W) × (rest handler idle s w ≡ next s' w') × SchedOk none_busy s'
  unfolding rest
  rest-SchedOk s w ok_s = elim (Option-cases s.idle_hook) [
    | inl e ↦ (s, w, rw e, ok_s)
    | inr (h, e) ↦
        let (s', w') = run_prog (idle h w) s in
        (s', w', rw e, run_prog-SchedOk (idle h w) s (good_idle h w) ok_s)
  ]

  -- The state in which the handler of `p` runs.
  abbrev popped : Sched → ℕ → Sched
  popped s p = put_ao s p (record (s.aos p) { q = (eq_pop (s.aos p).q).2 })

  deliver_eq :
      (s : Sched) (w : W) (p f : ℕ) (e : Event)
      → (eq_pop (s.aos p).q).1 ≡ some e
      → let (s', w') = run_prog (handler f p e w) (popped s p) in
        deliver handler idle s w p f ≡ (count_event s' p, w')
  unfolding deliver
  deliver_eq s w p f e out = rw (out, deliver) refl

  serve_eq :
      (s : Sched) (w : W) (p f : ℕ) (e : Event)
      → (s.aos p).dispatch ≡ some f
      → (eq_pop (s.aos p).q).1 ≡ some e
      → let (s', w') = run_prog (handler f p e w) (popped s p) in
        serve handler idle s w p ≡ next (settle (count_event s' p) p) w'
  unfolding serve
  serve_eq s w p f e has out =
      ap (serve_by handler idle s w p) has
      ∙ ap (λ (d : Sched × W). next (settle d.0 p) d.1) (deliver_eq s w p f e out)

  serve_lem :
      (s : Sched) (w : W) (p : ℕ)
      → SchedOk none_busy s
      → p < sched_max_ao
      → IsWaiting s p
      → (f : ℕ) × (e : Event) × (q : EventQueue) × (l : List Event) × ((s.aos p).dispatch ≡ some f)
        × (contents (s.aos p).q ≡ e ∷ l)
        × (contents q ≡ l)
        × (let (s', w') = run_prog (handler f p e w) (put_ao s p (record (s.aos p) { q = q })) in
            (serve handler idle s w p ≡ next (settle (count_event s' p) p) w')
            × SchedOk none_busy (settle (count_event s' p) p))
  serve_lem s w p ok_s hp waits =
      let live = IsLive-at ok_s hp waits.0 in
      let (e, l, same, out, left, v) = eq_pop_oldest live.queue waits.1 in
      let q = (eq_pop (s.aos p).q).2 in
      elim (Option-cases (s.aos p).dispatch) [
        | inl missing ↦ absurd (ground (arith, live.handled))
        | inr (f, has) ↦
            let before = put_ao s p (record (s.aos p) { q = q }) in
            let (s', w') = run_prog (handler f p e w) before in
            (
              f,
              e,
              q,
              l,
              has,
              same,
              left,
              (
                serve_eq s w p f e has out,
                settle-SchedOk p
                    (count_event-SchedOk p
                      (run_prog-SchedOk (handler f p e w) before (good f p e w)
                        (pop-SchedOk p q ok_s hp waits v))
                      hp)
                    hp,
              ),
            )
      ]

  picks :
      (s : Sched) (prio p : ℕ) (w : W)
      → highest_ready_prio s ≡ some prio
      → (pick_ready_rr s prio).0 ≡ some p
      → (pick_ready_rr s prio).1 ≡ record s { rr_cursor = update s.rr_cursor prio p }
      → sched_round handler idle s w
        ≡ serve handler idle (record s { rr_cursor = update s.rr_cursor prio p }) w p
  unfolding sched_round
  picks s prio p w top out after = rw (top, out, after, sched_round) refl

  -- With handlers and an idle hook whose calls are as the interface asks, on a scheduler in order
  -- in which a task waits, a round of `sched_run` takes the oldest event of a waiting task that no
  -- waiting task exceeds in priority, calls that task's handler with it once, counts it, and
  -- leaves the scheduler in order. It does not panic.
  pub sched_round-Serves :
      (s : Sched) (w : W) (j : ℕ)
      → SchedOk none_busy s
      → j < sched_max_ao
      → IsWaiting s j
      → (p : ℕ) × (s' : Sched) × (w' : W) × (sched_round handler idle s w ≡ next s' w')
        × Serves s w p (next s' w')
        × SchedOk none_busy s'
  sched_round-Serves s w j ok_s hj waits =
      let (idle_iff, top) = highest_ready_prio_lem ok_s in
      elim (Option-cases (highest_ready_prio s)) [
        | inl nothing ↦ absurd (idle_iff.0 nothing j hj waits)
        | inr (prio, e) ↦
            let ((i, hi, wi, same), above) = top prio e in
            let (p, out, hp, (wp, at_prio), after, _, _) =
              pick_ready_rr_fair prio i ok_s hi (wi, same) in
            let s1 = record s { rr_cursor = update s.rr_cursor prio p } in
            let (f, ev, q, l, has, oldest, left, (ends, ok')) =
              serve_lem s1 w p (move_cursor (update s.rr_cursor prio p) ok_s) hp wp in
            let (s', w') = run_prog (handler f p ev w) (put_ao s1 p (record (s.aos p) { q = q })) in
            (
              p,
              settle (count_event s' p) p,
              w',
              picks s prio p w e out after ∙ ends,
              record {
                f = f;
                e = ev;
                q = q;
                l = l;
                waits = wp;
                highest = λ k hk wk. rw at_prio (above k hk wk);
                handled = has;
                oldest = oldest;
                rest_of = left;
                ends = rw at_prio refl;
              },
              ok',
            )
      ]

  sched_round-idle :
      (s : Sched) (w : W)
      → SchedOk none_busy s
      → highest_ready_prio s ≡ none
      → sched_round handler idle s w ≡ rest handler idle s w
  unfolding sched_round
  sched_round-idle s w ok_s nothing = rw (nothing, sched_round) refl

  sched_round-SchedOk :
      (s : Sched) (w : W)
      → SchedOk none_busy s
      → (s' : Sched) × (w' : W) × (sched_round handler idle s w ≡ next s' w') × SchedOk none_busy s'
  sched_round-SchedOk s w ok_s = elim (Option-cases (highest_ready_prio s)) [
    | inl nothing ↦
        let (s', w', e, ok') = rest-SchedOk s w ok_s in
        (s', w', sched_round-idle s w ok_s nothing ∙ e, ok')
    | inr (prio, top) ↦
        let ((i, hi, wi, _), _) = (highest_ready_prio_lem ok_s).1 prio top in
        let (p, s', w', e, _, ok') = sched_round-Serves s w i ok_s hi wi in (s', w', e, ok')
  ]

  sched_run-SchedOk :
      (acts : List Act) (s : Sched) (w : W)
      → AreGood acts
      → SchedOk none_busy s
      → (s' : Sched) × (w' : W) × (sched_run handler idle acts s w ≡ next s' w')
        × SchedOk none_busy s'
  unfolding sched_run
  sched_run-SchedOk [] s w ok_acts ok_s = (s, w, refl, ok_s)
  sched_run-SchedOk (interrupt c ∷ acts) s w ok_acts ok_s =
      sched_run-SchedOk acts (exec c s).1 w ok_acts.1 (exec-SchedOk c ok_acts.0 ok_s)
  sched_run-SchedOk (round ∷ acts) s w ok_acts ok_s =
      let (s1, w1, e, ok1) = sched_round-SchedOk s w ok_s in
      let (s', w', e', ok') = sched_run-SchedOk acts s1 w1 ok_acts ok1 in
      (s', w', rw (e, sched_run) e', ok')

  -- From `sched_init` on, whatever calls of `Call` come in between the rounds and are made by the
  -- handlers and the idle hook, all of them as the interface asks, the scheduler is in order at
  -- the end of any number of rounds: a ready bit is set exactly where an event waits. No interrupt
  -- comes in the middle of a call or at the end of a round (Sched.Race has those).
  pub sched_run_in_order :
      (acts : List Act) (memory : Sched) (hook : Option ℕ) (w : W)
      → AreGood acts
      → (s : Sched) × (w' : W) × (sched_run handler idle acts (sched_init memory hook) w
          ≡ next s w')
        × SchedOk none_busy s
  sched_run_in_order acts memory hook w ok_acts =
      sched_run-SchedOk acts (sched_init memory hook) w ok_acts (sched_init-SchedOk memory hook)
