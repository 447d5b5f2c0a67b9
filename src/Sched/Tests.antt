-- ===== src/Sched/Tests.antt =====
-- A small run of the scheduler, and the theorems at it.
use rewind_os.Base.{ℕ, ◌+◌, ◌≤◌, ◌<◌, ◌≡◌, ◌≢◌, ◌↔◌, refl, none, some, List, [], ◌∷◌, arith, update}
use rewind_os.Event.{Event, no_event, eq_init, eq_push}
use rewind_os.Event.Fifo.{contents}
use rewind_os.Sched.{
  Sched, Ao, TaskSpec, ok, sched_max_ao, sched_init, sched_register, sched_register_task,
  sched_post,
}
use rewind_os.Sched.Inv.{SchedOk, none_busy}
use rewind_os.Sched.Register.{
  IsGoodSpec, IsAccepted, fresh_ao, sched_register_task_lem, sched_register_task_budget,
}
use rewind_os.Sched.Calls.{Call, register, post, unregister, exec, exec-SchedOk, sched_init-SchedOk}
use rewind_os.Sched.Pick.{highest_ready_prio, pick_ready_rr, IsWaiting}
use rewind_os.Sched.Pick.Highest.{highest_ready_prio_lem}
use rewind_os.Sched.Pick.Fair.{Waits, distance, pick_ready_rr_fair}
use rewind_os.Sched.Run.{Prog, done, call, next, sched_round}
use rewind_os.Sched.Rounds.{Serves, sched_round-Serves}
use rewind_os.Sched.Race.{
  RaceProg, post_amid, Interrupts, RaceAct, amid_round, between, sched_run_amid,
}
use rewind_os.Sched.Race.NoPanic.{sched_run_safe}
use rewind_os.Sched.Race.Kept.{CanRun}

abbrev signal : ℕ → Event
signal n = record no_event { sig = n }

abbrev blank : Ao
blank = record {
  id = 0;
  prio = 0;
  reserved = 0;
  q = eq_init none 0;
  dispatch = none;
  state = none;
  flags = 0;
  rtc_max_ticks = 0;
  events_handled = 0;
  name = none;
}

abbrev memory : Sched
memory = record {
  aos = λ i. blank;
  table = λ i. none;
  ready_bitmap = 7;
  rr_cursor = λ i. 0;
  idle_hook = none;
}

abbrev task : ℕ → ℕ → TaskSpec
task id prio = record {
  id = id;
  prio = prio;
  dispatch = some 1;
  ctx = some 1;
  queue_storage = some (no_event ∷ no_event ∷ []);
  queue_capacity = 2;
  rtc_budget_ticks = 5;
  name = none;
}

task-IsGoodSpec : (id prio : ℕ) → IsGoodSpec (task id prio)
task-IsGoodSpec id prio = record { small = omega arith; storage = λ b e. ground arith }

abbrev fresh : Sched
fresh = sched_init memory none

fresh-SchedOk : SchedOk none_busy fresh
fresh-SchedOk = sched_init-SchedOk memory none

-- Two tasks of priority 2 and one of priority 1; all but task 4 have an event.
abbrev calls : List Call
calls =
    register (task 3 2)
    ∷ register (task 4 2)
    ∷ register (task 9 1)
    ∷ post 3 (signal 7)
    ∷ post 9 (signal 8)
    ∷ post 9 (signal 9)
    ∷ []

exec_all : List Call → Sched → Sched
exec_all [] s = s
exec_all (c ∷ cs) s = exec_all cs (exec c s).1

abbrev busy : Sched
busy = exec_all calls fresh

busy-SchedOk : SchedOk none_busy busy
unfolding exec_all
busy-SchedOk = exec-SchedOk (post 9 (signal 9)) tt (
    exec-SchedOk (post 9 (signal 8)) tt (
      exec-SchedOk (post 3 (signal 7)) tt (
        exec-SchedOk (register (task 9 1)) (task-IsGoodSpec 9 1) (
          exec-SchedOk (register (task 4 2)) (task-IsGoodSpec 4 2)
            (exec-SchedOk (register (task 3 2)) (task-IsGoodSpec 3 2) fresh-SchedOk)))))

IsWaiting-3 : IsWaiting busy 3
unfolding exec_all exec sched_register_task sched_register sched_post eq_init eq_push sched_init
IsWaiting-3 = (refl, omega arith)

exec-SchedOk_example : SchedOk none_busy (exec (unregister 3) busy).1
exec-SchedOk_example = exec-SchedOk (unregister 3) tt busy-SchedOk

sched_register_task_lem_example :
    let (rc, s') = sched_register_task fresh (task 3 2) in
    ((rc ≡ ok) ↔ IsAccepted fresh (task 3 2))
    × (rc ≢ ok → s' ≡ fresh)
    × (rc ≡ ok
        → (s'.table 3 ≡ some 3)
          × (s'.aos 3 ≡ fresh_ao (task 3 2))
          × (contents (s'.aos 3).q ≡ [])
          × ((j : ℕ) → 3 ≢ j → (s'.table j ≡ fresh.table j) × (s'.aos j ≡ fresh.aos j)))
    × SchedOk none_busy s'
sched_register_task_lem_example =
    sched_register_task_lem (task 3 2) fresh-SchedOk (task-IsGoodSpec 3 2)

registered : (sched_register_task fresh (task 3 2)).0 ≡ ok
unfolding sched_register_task sched_register sched_init eq_init
registered = refl

sched_register_task_budget_example :
    ((sched_register_task fresh (task 3 2)).1.aos 3).rtc_max_ticks ≡ 0
sched_register_task_budget_example = sched_register_task_budget fresh (task 3 2) registered

highest_ready_prio_lem_example :
    ((highest_ready_prio busy ≡ none) ↔ ((j : ℕ) → j < sched_max_ao → ¬ IsWaiting busy j))
    × ((m : ℕ)
        → highest_ready_prio busy ≡ some m
        → ((j : ℕ) × (j < sched_max_ao) × IsWaiting busy j × ((busy.aos j).prio ≡ m))
          × ((j : ℕ) → j < sched_max_ao → IsWaiting busy j → (busy.aos j).prio ≤ m))
highest_ready_prio_lem_example = highest_ready_prio_lem busy-SchedOk

Waits-3 : Waits busy 2 3
unfolding exec_all exec sched_register_task sched_register sched_post eq_init eq_push sched_init
Waits-3 = (IsWaiting-3, refl)

pick_ready_rr_fair_example :
    let (out, s') = pick_ready_rr busy 2 in
    (p : ℕ) × (out ≡ some p)
    × (p < sched_max_ao)
    × Waits busy 2 p
    × (s' ≡ record busy { rr_cursor = update busy.rr_cursor 2 p })
    × (distance busy 2 p ≤ distance busy 2 3)
    × (p ≢ 3 → distance s' 2 3 < distance busy 2 3)
pick_ready_rr_fair_example = pick_ready_rr_fair 2 3 busy-SchedOk (omega arith) Waits-3

-- A handler that posts an event to the task 4 and counts its own calls.
abbrev handler : ℕ → ℕ → Event → ℕ → Prog ℕ
handler f p e w = call (post 4 (signal 1)) (λ rc. done (w + 1))

abbrev idle : ℕ → ℕ → Prog ℕ
idle h w = done w

sched_round-Serves_example :
    (p : ℕ) × (s' : Sched) × (w' : ℕ) × (sched_round handler idle busy 0 ≡ next s' w')
    × Serves handler idle (λ f p e w. (tt, (λ rc. tt))) (λ h w. tt) busy 0 p (next s' w')
    × SchedOk none_busy s'
sched_round-Serves_example =
    sched_round-Serves handler idle (λ f p e w. (tt, (λ rc. tt))) (λ h w. tt) busy 0 3 busy-SchedOk
      (omega arith) IsWaiting-3

-- A handler whose post an interrupt comes into, which posts to its own task.
abbrev race_handler : ℕ → ℕ → Event → ℕ → RaceProg ℕ
race_handler f p e w = post_amid [] ((3, signal 6) ∷ []) 4 (signal 1) (λ rc. RaceProg.done (w + 1))

abbrev race_idle : ℕ → ℕ → RaceProg ℕ
race_idle h w = RaceProg.done w

-- An interrupt posts to the task 3 at the end of a round.
abbrev late : Interrupts
late = record {
  before_pick = [];
  after_pick = [];
  after_pop = [];
  after_handler = [];
  after_test = (3, signal 5) ∷ [];
  amid_clear = [];
}

abbrev race_acts : List RaceAct
race_acts =
    between (register (task 3 2))
    ∷ between (register (task 4 2))
    ∷ between (post 3 (signal 7))
    ∷ amid_round late
    ∷ amid_round late
    ∷ []

sched_run_safe_example :
    (s : Sched) × (w' : ℕ) × (sched_run_amid race_handler race_idle race_acts
        (sched_init memory none)
        0
      ≡ next s w')
    × CanRun s
sched_run_safe_example = sched_run_safe race_handler race_idle race_acts memory none 0

abbrev one_task : Sched
one_task = (exec (register (task 3 2)) fresh).1
