-- ===== src/Restore/Sim.antt =====
-- src/kernel/restore_sim.c: a queue of task states that are restored in one call of the loader. The first
-- `region.length` bytes of an item's `blob` stand for the array; `none` for `blob` is a null pointer.
use rewind_os.Base.{
  ℕ, zero, suc, ◌+◌, ◌%◌, ◌^◌, Bool, true, false, Option, none, some, List, [], ◌∷◌, ◌++◌,
  if◌then◌else◌, ltb, leb, ◌==◌, ◌&&◌, not, update, take, length,
}
use rewind_os.Sched.{SchedStatus}
use rewind_os.Restore.Registry.{Registry}
use rewind_os.Restore.Loader.{
  Region, LoaderStatus, loader_ok, Stats, Progress, start, restore_loader_apply_regions,
}

abbrev pub max_items : ℕ
max_items = 8

abbrev pub max_blob : ℕ
max_blob = 512

-- `restore_sim_item_t`; an `entry_state` of 0 is pending, of 1 done, of 2 failed.
pub record Item : Type 0 where
  pub seq : ℕ
  pub action : ℕ
  pub entry_state : ℕ
  pub region : Region
  pub blob : List ℕ

-- `g_items` and `g_q`.
pub record Sim : Type 0 where
  pub items : ℕ → Item
  pub read_idx : ℕ
  pub write_idx : ℕ
  pub count : ℕ
  pub generation : ℕ
  pub next_seq : ℕ

unfoldable pub restore_sim_reset : Sim → Sim
restore_sim_reset q = record q {
  read_idx = 0;
  write_idx = 0;
  count = 0;
  generation = (q.generation + 1) % 2 ^ 32;
  next_seq = 1;
}

abbrev pub new_item : ℕ → ℕ → List ℕ → ℕ → ℕ → Item
new_item region_id state_version bytes len seq = record {
  seq = seq;
  action = 1;
  entry_state = 0;
  region = record {
    region_id = region_id;
    state_version = state_version;
    offset = 0;
    length = len;
    crc32 = 0;
  };
  blob = take len bytes;
}

unfoldable pub enqueue_item : ℕ → ℕ → List ℕ → ℕ → Sim → Sim
enqueue_item region_id state_version bytes len q = record q {
  items = update q.items q.write_idx (new_item region_id state_version bytes len q.next_seq);
  write_idx = (q.write_idx + 1) % max_items;
  count = q.count + 1;
  next_seq = (q.next_seq + 1) % 2 ^ 32;
}

unfoldable pub enqueue_blob : ℕ → ℕ → Option (List ℕ) → ℕ → Sim → SchedStatus × Sim
enqueue_blob region_id state_version none len q =
    if not (len == 0)
    then (SchedStatus.err_param, q)
    else (SchedStatus.ok, enqueue_item region_id state_version [] len q)
enqueue_blob region_id state_version (some bytes) len q =
    (SchedStatus.ok, enqueue_item region_id state_version bytes len q)

unfoldable pub restore_sim_enqueue : ℕ → ℕ → Option (List ℕ) → ℕ → Sim → SchedStatus × Sim
restore_sim_enqueue region_id state_version blob len q =
    if leb max_items q.count
    then (SchedStatus.err_full, q)
    else (if ltb max_blob len
        then (SchedStatus.err_param, q)
        else enqueue_blob region_id state_version blob len q)

-- The regions and the payload of the pending items, `remain` of them from `idx` on.
unfoldable pub collect : ℕ → (ℕ → Item) → ℕ → ℕ → List Region × List ℕ
collect zero items idx used = ([], [])
collect (suc remain) items idx used =
    let it = items idx in
    let next = (idx + 1) % max_items in
    elim ((it.action == 1) && (it.entry_state == 0)) [
      | true ↦
          (let rest = collect remain items next ((used + it.region.length) % 2 ^ 32) in
            ((record it.region { offset = used }) ∷ rest.0, it.blob ++ rest.1))
      | false ↦ collect remain items next used
    ]

unfoldable pub mark_all : ℕ → ℕ → ℕ → (ℕ → Item) → ℕ → Item
mark_all zero idx state items = items
mark_all (suc remain) idx state items =
    mark_all remain ((idx + 1) % max_items) state
      (update items idx (record (items idx) { entry_state = state }))

abbrev pub is_ok : LoaderStatus → Bool
is_ok loader_ok = true
is_ok _ = false

-- After the call of the loader: all items are done and leave the queue, or all have failed and stay.
unfoldable pub settle_items : LoaderStatus → Sim → Sim
settle_items rc q =
    let marked = record q {
      items = mark_all q.count q.read_idx (if is_ok rc then 1 else 2) q.items;
    } in
    if is_ok rc
    then record marked {
      read_idx = q.write_idx;
      count = 0;
      generation = (q.generation + 1) % 2 ^ 32;
    }
    else marked

-- The result of a call of the loader.
abbrev pub Outcome : Type 0 → Type 0
Outcome W = LoaderStatus × Option (Progress W) × Stats

module _ {W : Type 0} (call_register : Option ℕ → W → SchedStatus × W)
    (call_restore : List ℕ → ℕ → ℕ → ℕ → W → SchedStatus × W) where
  -- The loader works on the payload that the items make up.
  unfoldable pub load : Registry → Bool → List Region × List ℕ → W → Stats → Outcome W
  load g sched (regions, payload) w stats =
      restore_loader_apply_regions call_register (call_restore payload) g sched (some regions)
        (length regions) true (length payload) w stats

  unfoldable pub apply_with :
      Registry → Bool → List Region × List ℕ → Sim → W → Stats → Outcome W × Sim
  apply_with g sched ([], payload) q w stats = ((loader_ok, some (start w), stats), q)
  apply_with g sched (r ∷ rs, payload) q w stats =
      let out = load g sched (r ∷ rs, payload) w stats in (out, settle_items out.0 q)

  unfoldable pub restore_sim_apply : Registry → Bool → Sim → W → Stats → Outcome W × Sim
  restore_sim_apply g sched q w stats =
      apply_with g sched (collect q.count q.items q.read_idx 0) q w stats

unfoldable pub restore_sim_pending : Sim → ℕ
restore_sim_pending q = q.count

unfoldable pub restore_sim_generation : Sim → ℕ
restore_sim_generation q = q.generation
