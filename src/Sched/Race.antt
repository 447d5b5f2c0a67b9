-- ===== src/Sched/Race.antt =====
-- src/scheduler/scheduler.c where an interrupt comes in the middle. The queue operations mask interrupts, but
-- the read, change and write of `ready_bitmap` at the end of `sched_post_common`, and the test of the queue with
-- the clearing of the bit at the end of a round of `sched_run`, do not. The interrupts that come in are lists
-- of posts; each post runs to its end before the next.
pub mod Kept
pub mod NoPanic
pub mod Lost
use rewind_os.Base.{ℕ, Option, none, some, List, [], ◌∷◌, if◌then◌else◌, leb, ◌==◌}
use Prim.Native.Nat.{bit_and}
use rewind_os.Event.{Event, eq_push, eq_pop, eq_is_empty}
use rewind_os.Sched.{
  Sched, SchedStatus, ok, err_param, err_not_found, err_disabled, err_queue_full, sched_max_ao,
  is_ok, put_ao, set_ready, clear_ready, sched_post_isr, ao_flag_accept_events,
}
use rewind_os.Sched.Calls.{Call, exec}
use rewind_os.Sched.Run.{Outcome, next, panic, count_event}
use rewind_os.Sched.Pick.{highest_ready_prio, pick_ready_rr}

-- The posts of interrupts: the id and the event of each.
abbrev pub Posts : Type 0
Posts = List (ℕ × Event)

unfoldable pub interrupts : Posts → Sched → Sched
interrupts [] s = s
interrupts ((i, e) ∷ posts) s = interrupts posts (sched_post_isr s i e).1

-- `s->ready_bitmap = change(s->ready_bitmap)` with interrupts between the read and the write: what they
-- write to the bitmap is lost.
unfoldable pub write_bitmap : (ℕ → ℕ) → Posts → Sched → Sched
write_bitmap change posts s = record (interrupts posts s) { ready_bitmap = change s.ready_bitmap }

-- The part of `sched_post_common` behind the look-up, with interrupts after `eq_push` and then in
-- the update of the bitmap.
unfoldable pub post_to_amid : Posts → Posts → Sched → ℕ → ℕ → Event → SchedStatus × Sched
post_to_amid after_push amid s ao_id p e =
    let ao = s.aos p in
    let (rc, q') = eq_push ao.q e in
    let s' = interrupts after_push (put_ao s p (record ao { q = q' })) in
    if bit_and ao.flags ao_flag_accept_events == 0
    then (err_disabled, s)
    else if is_ok rc
    then (ok, write_bitmap (λ b. set_ready b ao_id) amid s')
    else (err_queue_full, s')

unfoldable pub sched_post_amid : Posts → Posts → Sched → ℕ → Event → SchedStatus × Sched
sched_post_amid after_push amid s ao_id e =
    if leb sched_max_ao ao_id then (err_param, s) else elim (s.table ao_id) [
      | none ↦ (err_not_found, s)
      | some p ↦ post_to_amid after_push amid s ao_id p e
    ]

-- The end of a round, with interrupts between the test of the queue and the update of the bitmap,
-- and in that update.
unfoldable pub settle_amid : Posts → Posts → Sched → ℕ → Sched
settle_amid after_test amid s p =
    let s' = interrupts after_test s in
    if eq_is_empty (s.aos p).q then write_bitmap (λ b. clear_ready b (s'.aos p).id) amid s' else s'

-- What a handler does: a call of the scheduler, or a post that interrupts come into.
pub data RaceProg (W : Type 0) : Type 0 where
  done : W → RaceProg W
  call : Call → (SchedStatus → RaceProg W) → RaceProg W
  post_amid : Posts → Posts → ℕ → Event → (SchedStatus → RaceProg W) → RaceProg W

unfoldable pub run_race_prog : {W : Type 0} → RaceProg W → Sched → Sched × W
run_race_prog (done w) s = (s, w)
run_race_prog (call c go) s = let (rc, s') = exec c s in run_race_prog (go rc) s'
run_race_prog (post_amid after_push amid i e go) s =
    let (rc, s') = sched_post_amid after_push amid s i e in run_race_prog (go rc) s'

-- Where the interrupts come in a round: before the task is picked, after it is picked, after its event
-- is taken, after the handler, and twice at the end.
pub record Interrupts : Type 0 where
  pub before_pick : Posts
  pub after_pick : Posts
  pub after_pop : Posts
  pub after_handler : Posts
  pub after_test : Posts
  pub amid_clear : Posts

-- What happens over time: rounds with the interrupts that come in them, and calls between them.
pub data RaceAct : Type 0 where
  amid_round : Interrupts → RaceAct
  between : Call → RaceAct

module _ {W : Type 0} (handler : ℕ → ℕ → Event → W → RaceProg W) (idle : ℕ → W → RaceProg W) where
  -- The call of `ao->dispatch`, which is `f`, with the event that was taken.
  unfoldable pub handle_amid : Sched → W → ℕ → ℕ → Option Event → Sched × W
  handle_amid s w p f none = (s, w)
  handle_amid s w p f (some e) =
      let (s', w') = run_race_prog (handler f p e w) s in (count_event s' p, w')

  unfoldable pub deliver_amid : Interrupts → Sched → W → ℕ → ℕ → Sched × W
  deliver_amid t s w p f =
      let (rc, out, q') = eq_pop (s.aos p).q in
      let s' = interrupts t.after_pop (put_ao s p (record (s.aos p) { q = q' })) in
      handle_amid s' w p f out

  -- The rest of a round for the task at `p`, `ao->dispatch` being the option.
  unfoldable pub serve_amid : Interrupts → Sched → W → ℕ → Option ℕ → Outcome W
  serve_amid t s w p none = panic
  serve_amid t s w p (some f) =
      let (s', w') = deliver_amid t s w p f in
      next (settle_amid t.after_test t.amid_clear (interrupts t.after_handler s') p) w'

  -- The idle hook, or nothing if there is none.
  unfoldable pub rest_amid : Sched → W → Option ℕ → Outcome W
  rest_amid s w none = next s w
  rest_amid s w (some h) = let (s', w') = run_race_prog (idle h w) s in next s' w'

  -- What `pick_ready_rr` has returned.
  unfoldable pub picked_amid : Interrupts → Sched → W → Option ℕ → Outcome W
  picked_amid t s w none = next s w
  picked_amid t s w (some p) = serve_amid t (interrupts t.after_pick s) w p (s.aos p).dispatch

  -- What `highest_ready_prio` has returned.
  unfoldable pub prio_amid : Interrupts → Sched → W → Option ℕ → Outcome W
  prio_amid t s w none = rest_amid s w s.idle_hook
  prio_amid t s w (some prio) =
      let (picked, s') = pick_ready_rr (interrupts t.before_pick s) prio in
      picked_amid t s' w picked

  -- One round of the `for (;;)` of `sched_run`.
  unfoldable pub sched_round_amid : Interrupts → Sched → W → Outcome W
  sched_round_amid t s w = prio_amid t s w (highest_ready_prio s)

  unfoldable pub sched_run_amid : List RaceAct → Sched → W → Outcome W
  sched_run_amid [] s w = next s w
  sched_run_amid (between c ∷ acts) s w = sched_run_amid acts (exec c s).1 w
  sched_run_amid (amid_round t ∷ acts) s w = elim (sched_round_amid t s w) [
    | panic ↦ panic
    | next s' w' ↦ sched_run_amid acts s' w'
  ]
