-- ===== src/Restore/Loader.antt =====
-- src/kernel/restore_loader.c and include/restore_loader.h. The functions behind the pointers of the
-- descriptors are parameters: they run on a state `W`, which holds the scheduler and the tasks. A
-- restore function is given the place of the state in the payload, as an offset and a length.
use Prim.Native.Nat.{bit_and, bit_or}
use rewind_os.Base.{
  ℕ, ◌+◌, ◌/◌, ◌%◌, ◌^◌, Bool, true, false, Option, none, some, List, [], ◌∷◌, if◌then◌else◌, ltb,
  ◌==◌, ◌&&◌, ◌||◌, not, update, take,
}
use rewind_os.Sched.{SchedStatus}
use rewind_os.Restore.Registry.{
  Descriptor, Registry, restore_registry_find, restart_only, non_restorable,
}

-- `checkpoint_v2_region_t`
pub record Region : Type 0 where
  pub region_id : ℕ  -- uint16
  pub state_version : ℕ  -- uint16
  pub offset : ℕ  -- uint32
  pub length : ℕ  -- uint32
  pub crc32 : ℕ  -- uint32

abbrev pub max_task_state_blob : ℕ
max_task_state_blob = 4096

-- The codes that `restore_loader_apply_regions` returns: 0, -1 and -6.
pub data LoaderStatus : Type 0 where
  loader_ok loader_err_param loader_err_restore : LoaderStatus

-- `restore_loader_stats_t`
pub record Stats : Type 0 where
  pub calls : ℕ  -- uint32
  pub applied : ℕ  -- uint32
  pub skipped : ℕ  -- uint32
  pub failed : ℕ  -- uint32
  pub last_rc : LoaderStatus

-- The words of `registered`, by their index: whether the bit was set, and the words after.
unfoldable pub bitmap_test_and_set : (ℕ → ℕ) → ℕ → Bool × (ℕ → ℕ)
bitmap_test_and_set bits task_id =
    let word = task_id / 2 ^ 5 % 2 ^ 8 in
    let mask = 2 ^ bit_and task_id 31 in
    (not (bit_and (bits word) mask == 0), update bits word (bit_or (bits word) mask))

-- The local variables of the loop, and the state that the called functions work on.
pub record Progress (W : Type 0) : Type 0 where
  pub applied : ℕ
  pub skipped : ℕ
  pub failed : ℕ
  pub registered : ℕ → ℕ
  pub world : W

abbrev pub add_applied : {W : Type 0} → Progress W → Progress W
add_applied st = record st { applied = (st.applied + 1) % 2 ^ 32 }

abbrev pub add_skipped : {W : Type 0} → Progress W → Progress W
add_skipped st = record st { skipped = (st.skipped + 1) % 2 ^ 32 }

abbrev pub add_failed : {W : Type 0} → Progress W → Progress W
add_failed st = record st { failed = (st.failed + 1) % 2 ^ 32 }

-- `rc != SCHED_OK && rc != SCHED_ERR_EXISTS`, and `rc != SCHED_OK`
abbrev pub is_not_registered : SchedStatus → Bool
is_not_registered SchedStatus.ok = false
is_not_registered SchedStatus.err_exists = false
is_not_registered _ = true

abbrev pub is_not_ok : SchedStatus → Bool
is_not_ok SchedStatus.ok = false
is_not_ok _ = true

-- The tests on the version and the place of the state: each of them fails the region.
unfoldable pub is_bad_region : Descriptor → Region → ℕ → Bool
is_bad_region d r payload_len =
    let end_off = (r.offset + r.length) % 2 ^ 32 in
    not (d.state_version == r.state_version)
    || (ltb r.length d.min_state_len
        || (ltb d.max_state_len r.length
            || (ltb max_task_state_blob r.length
                || (ltb end_off r.offset || ltb payload_len end_off))))

-- Where the loop starts.
abbrev pub start : {W : Type 0} → W → Progress W
start w = record { applied = 0; skipped = 0; failed = 0; registered = λ i. 0; world = w }

-- A call that is refused.
abbrev pub refuse : Stats → Stats
refuse stats = record stats { calls = (stats.calls + 1) % 2 ^ 32; last_rc = loader_err_param }

-- The end of the function.
unfoldable pub conclude : {W : Type 0} → Progress W → Stats → LoaderStatus × Stats
conclude st stats =
    let rc = if st.failed == 0 then loader_ok else loader_err_restore in
    (
      rc,
      record {
        calls = (stats.calls + 1) % 2 ^ 32;
        applied = (stats.applied + st.applied) % 2 ^ 32;
        skipped = (stats.skipped + st.skipped) % 2 ^ 32;
        failed = (stats.failed + st.failed) % 2 ^ 32;
        last_rc = rc;
      },
    )

module _ {W : Type 0} (call_register : Option ℕ → W → SchedStatus × W)
    (call_restore : ℕ → ℕ → ℕ → W → SchedStatus × W) where
  -- `desc->restore_fn` at the end of the body.
  unfoldable pub restore_with : Option ℕ → Region → Progress W → Progress W
  restore_with none r st = add_failed st
  restore_with (some f) r st =
      let (rc, w) = call_restore f r.offset r.length st.world in
      let st' = record st { world = w } in if is_not_ok rc then add_failed st' else add_applied st'

  -- The body behind the registration.
  unfoldable pub apply_state : Descriptor → Region → ℕ → Progress W → Progress W
  unfolding restore_with is_bad_region
  apply_state d r payload_len st =
      if d.task_class == non_restorable || d.task_class == restart_only
      then add_skipped st
      else if is_bad_region d r payload_len
      then add_failed st
      else restore_with d.restore_fn r st

  -- The body for a descriptor that was found: its task is registered the first time.
  unfoldable pub apply_found : Descriptor → Region → ℕ → Progress W → Progress W
  unfolding apply_state bitmap_test_and_set
  apply_found d r payload_len st =
      let (already, bits) = bitmap_test_and_set st.registered d.task_id in
      let (rc, w) = call_register d.register_fn st.world in
      let st' = record st { registered = bits } in
      let new = record st' { world = w } in
      if already
      then apply_state d r payload_len st'
      else if is_not_registered rc
      then add_failed new
      else apply_state d r payload_len new

  unfoldable pub apply_region : Registry → Region → ℕ → Progress W → Progress W
  unfolding apply_found
  apply_region g r payload_len st = elim (restore_registry_find g (r.region_id % 2 ^ 8)) [
    | none ↦ add_failed st
    | some d ↦ apply_found d r payload_len st
  ]

  unfoldable pub apply_all : Registry → List Region → ℕ → Progress W → Progress W
  unfolding apply_region
  apply_all g [] payload_len st = st
  apply_all g (r ∷ rs) payload_len st = apply_all g rs payload_len (apply_region g r payload_len st)

  -- `sched` and `payload` are whether the scheduler and `payload_base` are there. The middle result holds the counts for `out_applied`,
  -- `out_skipped` and `out_failed`; a refused call writes none of them.
  unfoldable pub restore_loader_apply_regions :
      Registry
      → Bool
      → Option (List Region)
      → ℕ
      → Bool
      → ℕ
      → W
      → Stats
      → LoaderStatus × Option (Progress W) × Stats
  unfolding conclude
  restore_loader_apply_regions g sched none region_count payload payload_len w stats =
      if not sched || (not (region_count == 0) || (not payload && not (payload_len == 0)))
      then (loader_err_param, none, refuse stats)
      else let (rc, stats') = conclude (start w) stats in (rc, some (start w), stats')
  restore_loader_apply_regions g sched (some regions) region_count payload payload_len w stats =
      let st = apply_all g (take region_count regions) payload_len (start w) in
      let (rc, stats') = conclude st stats in
      if not sched || (not payload && not (payload_len == 0))
      then (loader_err_param, none, refuse stats)
      else (rc, some st, stats')
