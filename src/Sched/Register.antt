-- ===== src/Sched/Register.antt =====
-- Registering tasks: what `sched_register_task` accepts, and the entry that it makes.
use rewind_os.Base.{
  ℕ, ◌^◌, ◌≤◌, ◌<◌, ◌≡◌, ◌≢◌, ◌↔◌, refl, ap, Bool, true, false, none, some, List, arith, [], ◌||◌,
  leb, ◌==◌, length, update, Bool-cases, Option-cases, inl, inr, ◌⊎◌,
}
use rewind_os.Base.Bits.{test_bit}
use rewind_os.Event.{Event, eq_init}
use rewind_os.Event.Fifo.{IsValid, eq_init-IsValid, contents}
use rewind_os.Sched.{
  Sched, Ao, TaskSpec, ok, sched_max_ao, is_null, task_ao, sched_register, sched_register_task,
}
use rewind_os.Sched.Inv.{SchedOk, Slot, IsLive, bit_empty, change_slot}
use rewind_os.Base.{update_self, update_ne}

-- What a caller promises of a task specification: the capacity is a uint16, and the storage that
-- it hands over has that many cells.
pub record IsGoodSpec (spec : TaskSpec) : Type 0 where
  pub small : spec.queue_capacity < 2 ^ 16
  pub storage : (b : List Event) → spec.queue_storage ≡ some b → spec.queue_capacity ≤ length b

-- What the tests of `sched_register_task` let through.
pub record IsAccepted (s : Sched) (spec : TaskSpec) : Type 0 where
  pub dispatch : is_null spec.dispatch ≡ false
  pub ctx : is_null spec.ctx ≡ false
  pub id_in : spec.id < sched_max_ao
  pub prio_in : spec.prio < sched_max_ao
  pub queue : is_null spec.queue_storage ≡ false
  pub present : 0 < spec.queue_capacity
  pub free : is_null (s.table spec.id) ≡ true

-- The active object of a task that has just been registered.
abbrev pub fresh_ao : TaskSpec → Ao
fresh_ao spec = record (task_ao spec) { flags = 1; rtc_max_ticks = 0 }

abbrev pub entered : Sched → TaskSpec → Sched
entered s spec = record s {
  aos = update (update s.aos spec.id (task_ao spec)) spec.id (fresh_ao spec);
  table = update s.table spec.id (some spec.id);
}

pub register_accepted :
    (s : Sched) (spec : TaskSpec)
    → IsAccepted s spec
    → sched_register_task s spec ≡ (ok, entered s spec)
unfolding sched_register_task sched_register eq_init
register_accepted s spec a = ground arith

pub register_cases :
    (s : Sched) (spec : TaskSpec)
    → IsAccepted s spec
      ⊎ ((sched_register_task s spec).1 ≡ s) × ((sched_register_task s spec).0 ≢ ok)
unfolding sched_register_task
register_cases s spec = elim (Bool-cases (is_null spec.dispatch || is_null spec.ctx)) [
  | inl refused ↦ rw refused (inr (refl, (λ e. cc)))
  | inr r1 ↦ elim (Bool-cases (leb sched_max_ao spec.id || leb sched_max_ao spec.prio)) [
    | inl refused ↦ rw (r1, refused) (inr (refl, (λ e. cc)))
    | inr r2 ↦ elim (Bool-cases (is_null spec.queue_storage || spec.queue_capacity == 0)) [
      | inl refused ↦ rw (r1, r2, refused) (inr (refl, (λ e. cc)))
      | inr r3 ↦ elim (Bool-cases (is_null (s.table spec.id))) [
        | inr refused ↦ rw (r1, r2, r3, refused) (inr (refl, (λ e. cc)))
        | inl r4 ↦ inl (record {
          dispatch = ground arith;
          ctx = ground arith;
          id_in = ground arith;
          prio_in = ground arith;
          queue = ground arith;
          present = ground arith;
          free = r4;
        })
      ]
    ]
  ]
]

fresh_queue :
    (s : Sched) (spec : TaskSpec)
    → IsGoodSpec spec
    → IsAccepted s spec
    → IsValid (fresh_ao spec).q × (contents (fresh_ao spec).q ≡ [])
fresh_queue s spec good a = elim (Option-cases spec.queue_storage) [
  | inl missing ↦ absurd (ground (arith, a.queue))
  | inr (b, has) ↦
      rw has (eq_init-IsValid b spec.queue_capacity a.present good.small (good.storage b has))
]

fresh-IsLive :
    (busy : Bool) (s : Sched) (spec : TaskSpec)
    → IsGoodSpec spec
    → IsAccepted s spec
    → IsLive busy spec.id spec.id (fresh_ao spec) false
unfolding eq_init
fresh-IsLive busy s spec good a = record {
  pointer = refl;
  named = refl;
  prio_in = a.prio_in;
  handled = a.dispatch;
  queue = (fresh_queue s spec good a).0;
  bit = bit_empty busy 0 refl;
}

-- A null entry has its ready bit clear.
free_bit :
    {x : ℕ} {s : Sched} (i : ℕ)
    → SchedOk x s
    → i < sched_max_ao
    → is_null (s.table i) ≡ true
    → test_bit s.ready_bitmap i ≡ false
free_bit {x} {s} i ok_s hi free = elim (Option-cases (s.table i)) [
  | inl e ↦
      let h : Slot (x == i) i none (s.aos i) (test_bit s.ready_bitmap i) =
        rw e at (ok_s.slot i hi) in
      h.0
  | inr (p, e) ↦ absurd (ground arith)
]

entered-SchedOk :
    {x : ℕ} {s : Sched} (spec : TaskSpec)
    → IsGoodSpec spec
    → SchedOk x s
    → IsAccepted s spec
    → SchedOk x (entered s spec)
entered-SchedOk {x} {s} spec good ok_s a =
    change_slot (entered s spec) spec.id ok_s
      (rw
        (
          update_self s.table spec.id (some spec.id),
          update_self (update s.aos spec.id (task_ao spec)) spec.id (fresh_ao spec),
          free_bit spec.id ok_s a.id_in a.free,
        )
        (fresh-IsLive (x == spec.id) s spec good a))
      (λ j hj ne. (update_ne s.table spec.id j (some spec.id) ne, ground arith, refl))

pub sched_register_task-SchedOk :
    {x : ℕ} {s : Sched} (spec : TaskSpec)
    → IsGoodSpec spec
    → SchedOk x s
    → SchedOk x (sched_register_task s spec).1
sched_register_task-SchedOk {x} {s} spec good ok_s = elim (register_cases s spec) [
  | inl a ↦ rw (register_accepted s spec a) (entered-SchedOk spec good ok_s a)
  | inr (same, refused) ↦ rw same ok_s
]

-- Registering a task whose queue storage holds its capacity on a scheduler in order succeeds exactly when the dispatch function, the
-- context and the storage are there, the id and the priority are below 32, the capacity is not 0
-- and the id is free. Success enters the task under its id with an empty queue, open for events,
-- and changes no other entry; a refusal changes nothing.
pub sched_register_task_lem :
    {x : ℕ} {s : Sched} (spec : TaskSpec)
    → SchedOk x s
    → IsGoodSpec spec
    → let (rc, s') = sched_register_task s spec in
      ((rc ≡ ok) ↔ IsAccepted s spec)
      × (rc ≢ ok → s' ≡ s)
      × (rc ≡ ok
          → (s'.table spec.id ≡ some spec.id)
            × (s'.aos spec.id ≡ fresh_ao spec)
            × (contents (s'.aos spec.id).q ≡ [])
            × ((j : ℕ) → spec.id ≢ j → (s'.table j ≡ s.table j) × (s'.aos j ≡ s.aos j)))
      × SchedOk x s'
sched_register_task_lem {x} {s} spec ok_s good = elim (register_cases s spec) [
  | inl a ↦ rw (register_accepted s spec a) (
    ((λ e. a), (λ b. refl)),
    (λ ne. absurd (ne refl)),
    (λ e. (
      update_self s.table spec.id (some spec.id),
      update_self (update s.aos spec.id (task_ao spec)) spec.id (fresh_ao spec),
      rw (update_self (update s.aos spec.id (task_ao spec)) spec.id (fresh_ao spec))
          (fresh_queue s spec good a).1,
      (λ j ne. (update_ne s.table spec.id j (some spec.id) ne, ground arith)),
    )),
    entered-SchedOk spec good ok_s a,
  )
  | inr (same, refused) ↦ (
    ((λ e. absurd (refused e)), (λ b. ap (λ r. r.0) (register_accepted s spec b))),
    (λ ne. same),
    (λ e. absurd (refused e)),
    sched_register_task-SchedOk spec good ok_s,
  )
]

-- The budget of the specification is lost: a task that `sched_register_task` has just registered
-- with success has `rtc_max_ticks` 0, whatever the specification says.
pub sched_register_task_budget :
    (s : Sched) (spec : TaskSpec)
    → (sched_register_task s spec).0 ≡ ok
    → ((sched_register_task s spec).1.aos spec.id).rtc_max_ticks ≡ 0
sched_register_task_budget s spec e = elim (register_cases s spec) [
  | inl a ↦ rw (register_accepted s spec a) (ground arith)
  | inr (same, refused) ↦ absurd (refused e)
]
