-- ===== src/Sched/Run.antt =====
-- The loop of `sched_run`. What the tasks' handlers and the idle hook do is not fixed by the
-- scheduler: they are parameters, which run on a state `W` of their own and make calls of the
-- scheduler's interface, each call chosen in the light of the statuses of those before. Calls that
-- an interrupt makes between two calls of a handler are among the handler's; between two rounds they
-- are steps of their own. Here no interrupt comes in the middle of a call, or between the test of
-- the queue and the update of the bitmap at the end of a round, though the code masks interrupts
-- in neither place: Sched.Race has the rounds with such interrupts.
use rewind_os.Base.{ℕ, ◌+◌, ◌%◌, ◌^◌, Option, none, some, if◌then◌else◌, List, [], ◌∷◌}
use rewind_os.Event.{Event, eq_pop, eq_is_empty}
use rewind_os.Sched.{Sched, SchedStatus, put_ao, clear_ready}
use rewind_os.Sched.Inv.{SchedOk}
use rewind_os.Sched.Calls.{Call, exec, IsGood, exec-SchedOk}
use rewind_os.Sched.Pick.{highest_ready_prio, pick_ready_rr}

-- What a handler does: it ends, or makes a call and goes on with its status.
pub data Prog (W : Type 0) : Type 0 where
  done : W → Prog W
  call : Call → (SchedStatus → Prog W) → Prog W

unfoldable pub run_prog : {W : Type 0} → Prog W → Sched → Sched × W
run_prog (done w) s = (s, w)
run_prog (call c next) s = let (rc, s') = exec c s in run_prog (next rc) s'

-- The calls that a handler makes are as the interface asks, whatever the statuses.
abbrev pub IsGoodProg : {W : Type 0} → Prog W → Type 0
IsGoodProg (done w) = Unit {0}
IsGoodProg (call c next) = IsGood c × ((rc : SchedStatus) → IsGoodProg (next rc))

pub run_prog-SchedOk :
    {W : Type 0} {x : ℕ} (m : Prog W) (s : Sched)
    → IsGoodProg m
    → SchedOk x s
    → SchedOk x (run_prog m s).0
unfolding run_prog
run_prog-SchedOk (done w) s good ok_s = ok_s
run_prog-SchedOk (call c next) s good ok_s =
    run_prog-SchedOk (next (exec c s).0) (exec c s).1 (good.1 (exec c s).0)
      (exec-SchedOk c good.0 ok_s)

-- A round of the loop ends with the new state, or in a call of `kernel_panic`.
pub data Outcome (W : Type 0) : Type 0 where
  next : Sched → W → Outcome W
  panic : Outcome W

-- `ao->events_handled++`
unfoldable pub count_event : Sched → ℕ → Sched
count_event s p =
    put_ao s p (record (s.aos p) { events_handled = ((s.aos p).events_handled + 1) % 2 ^ 32 })

-- The end of a round, with no interrupt in it: the ready bit of a task whose queue has run empty is
-- cleared.
unfoldable pub settle : Sched → ℕ → Sched
settle s p =
    if eq_is_empty (s.aos p).q
    then record s { ready_bitmap = clear_ready s.ready_bitmap (s.aos p).id }
    else s

-- What happens over time: rounds of the loop, and calls that interrupts make between them.
pub data Act : Type 0 where
  round : Act
  interrupt : Call → Act

-- The calls of interrupts are as the interface asks.
abbrev pub AreGood : List Act → Type 0
AreGood [] = Unit {0}
AreGood (round ∷ acts) = AreGood acts
AreGood (interrupt c ∷ acts) = IsGood c × AreGood acts

-- `handler f p e w` is the function at the pointer `f`, called on the active object `p` and the
-- event `e`.
module _ {W : Type 0} (handler : ℕ → ℕ → Event → W → Prog W) (idle : ℕ → W → Prog W) where
  -- `eq_pop(&ao->q, &e)` and the call of `ao->dispatch`, which is `f`.
  unfoldable pub deliver : Sched → W → ℕ → ℕ → Sched × W
  deliver s w p f =
      let (rc, out, q') = eq_pop (s.aos p).q in
      let s' = put_ao s p (record (s.aos p) { q = q' }) in
      elim out [
        | none ↦ (s', w)
        | some e ↦ let (s'', w') = run_prog (handler f p e w) s' in (count_event s'' p, w')
      ]

  -- The rest of a round, for the task at `p`, `ao->dispatch` being `fn`.
  unfoldable pub serve_by : Sched → W → ℕ → Option ℕ → Outcome W
  serve_by s w p none = panic
  serve_by s w p (some f) = let (s', w') = deliver s w p f in next (settle s' p) w'

  unfoldable pub serve : Sched → W → ℕ → Outcome W
  unfolding serve_by
  serve s w p = serve_by s w p (s.aos p).dispatch

  -- The idle hook, or nothing if there is none.
  unfoldable pub rest : Sched → W → Outcome W
  rest s w = elim s.idle_hook [
    | none ↦ next s w
    | some h ↦ let (s', w') = run_prog (idle h w) s in next s' w'
  ]

  -- One round of the `for (;;)` of `sched_run`.
  unfoldable pub sched_round : Sched → W → Outcome W
  sched_round s w = elim (highest_ready_prio s) [
    | none ↦ rest s w
    | some prio ↦
        let (picked, s') = pick_ready_rr s prio in
        elim picked [ none ↦ next s' w | some p ↦ serve s' w p ]
  ]

  unfoldable pub sched_run : List Act → Sched → W → Outcome W
  sched_run [] s w = next s w
  sched_run (interrupt c ∷ acts) s w = sched_run acts (exec c s).1 w
  sched_run (round ∷ acts) s w = elim (sched_round s w) [
    | panic ↦ panic
    | next s' w' ↦ sched_run acts s' w'
  ]
