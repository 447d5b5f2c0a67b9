-- ===== src/Restore/Tests.antt =====
-- Runs of the restore loader, and the theorems at a table with one descriptor.
use rewind_os.Base.{
  ℕ, ◌+◌, ◌≤◌, ◌≡◌, ◌≢◌, ◌↔◌, refl, true, Option, some, none, List, [], ◌∷◌, arith, if◌then◌else◌,
  take,
}
use rewind_os.Sched.{SchedStatus}
use rewind_os.Restore.Registry.{
  Descriptor, Registry, restore_registry_init, restore_registry_register_descriptor,
  restore_registry_find,
}
use rewind_os.Restore.Found.{IsUsable, IsSound, restore_registry_lem}
use rewind_os.Restore.Loader.{
  Region, Progress, Stats, loader_ok, loader_err_restore, apply_all, start,
  restore_loader_apply_regions,
}
use rewind_os.Restore.Sim.{
  Item, Sim, restore_sim_reset, restore_sim_apply, restore_sim_pending, load, is_ok,
}
use rewind_os.Restore.Batch.{Saved, region_at, checkpoint, enqueue_all, oks, restore_sim_apply_lem}
use rewind_os.Restore.Treated.{TreatedAll}
use rewind_os.Restore.Applied.{restore_loader_safe}

abbrev counter : Descriptor
counter = record {
  task_id = 3;
  task_class = 0;
  state_version = 1;
  min_state_len = 4;
  max_state_len = 16;
  register_fn = some 1;
  get_state_fn = some 2;
  restore_fn = some 3;
  ui_rehydrate_fn = none;
}

init-IsSound : IsSound restore_registry_init
unfolding restore_registry_init
init-IsSound i d e = cc

restore_registry_lem_example :
    let (rc, g) = restore_registry_register_descriptor (some counter) restore_registry_init in
    ((rc ≡ SchedStatus.ok)
      ↔ (IsUsable counter × (restore_registry_find restore_registry_init 3 ≡ none)))
    × (rc ≡ SchedStatus.ok
        → (restore_registry_find g 3 ≡ some counter)
          × ((i : ℕ)
              → ◌≢◌ {A = ℕ} 3 i
              → restore_registry_find g i ≡ restore_registry_find restore_registry_init i))
    × (rc ≢ SchedStatus.ok → g ≡ restore_registry_init)
    × ((restore_registry_register_descriptor none restore_registry_init).1 ≡ restore_registry_init)
    × IsSound g
restore_registry_lem_example = restore_registry_lem counter init-IsSound

abbrev one_task : Registry
one_task = (restore_registry_register_descriptor (some counter) restore_registry_init).1

one_task-IsSound : IsSound one_task
one_task-IsSound = (restore_registry_lem counter init-IsSound).4

-- The second region runs over the end of the payload, the third is of no task.
abbrev regions : List Region
regions =
    record { region_id = 3; state_version = 1; offset = 0; length = 8; crc32 = 0 }
    ∷ record { region_id = 259; state_version = 1; offset = 96; length = 8; crc32 = 0 }
    ∷ record { region_id = 4; state_version = 1; offset = 0; length = 8; crc32 = 0 }
    ∷ []

-- A state that counts the calls.
abbrev call_register : Option ℕ → ℕ → SchedStatus × ℕ
call_register f w = (SchedStatus.ok, w + 100)

abbrev call_restore : ℕ → ℕ → ℕ → ℕ → SchedStatus × ℕ
call_restore f offset size w = (SchedStatus.ok, w + 1)

abbrev no_stats : Stats
no_stats = record { calls = 0; applied = 0; skipped = 0; failed = 0; last_rc = loader_ok }

-- The task is registered once, and restored once.
regions_run :
    (restore_loader_apply_regions call_register call_restore one_task true
      (some regions)
      3
      true
      100
      0
      no_stats).2
    ≡ record { calls = 1; applied = 1; skipped = 0; failed = 2; last_rc = loader_err_restore }
unfolding restore_loader_apply_regions restore_registry_register_descriptor restore_registry_init
    restore_registry_find apply_all
regions_run = refl

-- The states that were handed to restore functions, each with its place and its length.
abbrev Handed : Type 0
Handed = List (ℕ × ℕ)

abbrev log_register : Option ℕ → Handed → SchedStatus × Handed
log_register f w = (SchedStatus.err_exists, w)

abbrev log_restore : ℕ → ℕ → ℕ → Handed → SchedStatus × Handed
log_restore f offset size w = (SchedStatus.ok, (offset, size) ∷ w)

-- They all lie in a payload of 100 bytes.
abbrev Inside : Handed → Type 0
Inside [] = Unit {0}
Inside ((offset, size) ∷ w) = (offset + size ≤ 100) × Inside w

restore_loader_safe_example :
    let (rc, out, stats) =
      restore_loader_apply_regions log_register log_restore one_task true
        (some regions)
        3
        true
        100
        []
        no_stats in
    (st : Progress Handed) × (out ≡ some st)
    × TreatedAll log_register log_restore 100 one_task [] (take 3 regions) (start []) st
    × (st.applied + st.skipped + st.failed ≡ 3)
    × ((rc ≡ loader_ok) ↔ (st.failed ≡ 0))
    × (stats.last_rc ≡ rc)
    × Inside st.world
restore_loader_safe_example =
    restore_loader_safe log_register log_restore 100 Inside (λ f w k. k)
      (λ f offset size w inside small k. (inside, k)) regions 3 [] no_stats one_task-IsSound
      (omega arith, (omega arith, (omega arith, tt))) (omega arith) (omega arith) (omega arith) tt

abbrev two_states : List Saved
two_states =
    record { region_id = 3; state_version = 1; state = 1 ∷ 2 ∷ 3 ∷ 4 ∷ [] }
    ∷ record { region_id = 4; state_version = 1; state = 9 ∷ [] }
    ∷ []

abbrev no_item : Item
no_item = record {
  seq = 0;
  action = 0;
  entry_state = 0;
  region = region_at 0 (record { region_id = 0; state_version = 0; state = [] });
  blob = [];
}

abbrev used_queue : Sim
used_queue = record {
  items = λ i. no_item;
  read_idx = 5;
  write_idx = 2;
  count = 5;
  generation = 1;
  next_seq = 9;
}

-- The state counts the calls.
abbrev restore_counted : List ℕ → ℕ → ℕ → ℕ → ℕ → SchedStatus × ℕ
restore_counted payload f offset len w = (SchedStatus.ok, w + 1)

restore_sim_apply_lem_example :
    let filled = enqueue_all two_states (restore_sim_reset used_queue) in
    let out = restore_sim_apply call_register restore_counted one_task true filled.1 0 no_stats in
    let called =
      load call_register restore_counted one_task true (checkpoint 0 two_states) 0 no_stats in
    (filled.0 ≡ oks two_states)
    × ((out.0 ≡ called) × (restore_sim_pending out.1 ≡ (if is_ok called.0 then 0 else 2)))
restore_sim_apply_lem_example =
    restore_sim_apply_lem call_register restore_counted two_states used_queue one_task true 0
      no_stats (omega arith) (omega arith) (omega arith, (omega arith, tt))
