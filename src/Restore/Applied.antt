-- ===== src/Restore/Applied.antt =====
-- What the loader has done at the end.
use rewind_os.Base.{
  ℕ, zero, suc, ◌+◌, ◌-◌, ◌%◌, ◌^◌, ◌≤◌, ◌<◌, ◌≡◌, ◌≢◌, ◌↔◌, refl, true, false, Option, none, some,
  List, [], ◌∷◌, if◌then◌else◌, ◌==◌, ◌||◌, arith, length, take, length-take, if-cases,
  Option-cases, inl, inr,
}
use native.Mathlib.Decide.{ℕ_discrete}
use rewind_os.Sched.{SchedStatus}
use rewind_os.Restore.Registry.{
  Descriptor, Registry, restore_registry_find, non_restorable, restart_only,
}
use rewind_os.Restore.Found.{IsSound}
use rewind_os.Restore.Treated.{AreWords, TreatedAll}
use rewind_os.Restore.Treated.Regions.{apply_all-start}
use rewind_os.Restore.Loader.{
  Region, Progress, Stats, loader_ok, loader_err_restore, add_applied, add_failed, add_skipped,
  is_bad_region, is_not_ok, is_not_registered, restore_with, apply_state, apply_found, apply_region,
  apply_all, start, conclude, bitmap_test_and_set, restore_loader_apply_regions,
  max_task_state_blob,
}

-- The number of regions that have been counted.
abbrev total : {W : Type 0} → Progress W → ℕ
total st = st.applied + st.skipped + st.failed

-- A call of a task's register function at a pointer that is not null, and a call of its restore
-- function on a state that lies in the payload and is not too large, keep `Keeps`.
module _ {W : Type 0} (call_register : Option ℕ → W → SchedStatus × W)
    (call_restore : ℕ → ℕ → ℕ → W → SchedStatus × W) (payload_len : ℕ) (Keeps : W → Type 0)
    (register_keeps : (f : ℕ) (w : W) → Keeps w → Keeps (call_register (some f) w).1)
    (restore_keeps : (f offset size : ℕ) (w : W)
      → offset + size ≤ payload_len
      → size ≤ max_task_state_blob
      → Keeps w
      → Keeps (call_restore f offset size w).1) where
  abbrev Good : ℕ → Progress W → Type 0
  Good n st = (total st ≡ n) × Keeps st.world

  -- A region of 32-bit fields that is not bad lies in the payload.
  in_payload :
      (d : Descriptor) (r : Region)
      → r.offset < 2 ^ 32
      → is_bad_region d r payload_len ≡ false
      → (r.offset + r.length ≤ payload_len) × (r.length ≤ max_task_state_blob)
  unfolding is_bad_region
  in_payload d r word good = ground arith

  restore_with-Good :
      (f : Option ℕ) (r : Region) (st : Progress W)
      → total st < 2 ^ 32 - 1
      → r.offset + r.length ≤ payload_len
      → r.length ≤ max_task_state_blob
      → Keeps st.world
      → Good (total st + 1) (restore_with call_register call_restore f r st)
  unfolding restore_with
  restore_with-Good none r st lt inside small k = (omega arith, k)
  restore_with-Good (some f) r st lt inside small k =
      let (rc, w) = call_restore f r.offset r.length st.world in
      let st' = record st { world = w } in
      let k' = restore_keeps f r.offset r.length st.world inside small k in
      if-cases (Good (total st + 1)) (is_not_ok rc) (add_failed st') (add_applied st')
        (λ bad. (omega arith, k')) (λ good. (omega arith, k'))

  apply_state-Good :
      (d : Descriptor) (r : Region) (st : Progress W)
      → total st < 2 ^ 32 - 1
      → r.offset < 2 ^ 32
      → Keeps st.world
      → Good (total st + 1) (apply_state call_register call_restore d r payload_len st)
  unfolding apply_state
  apply_state-Good d r st lt word k =
      let restored = restore_with call_register call_restore d.restore_fn r st in
      if-cases (Good (total st + 1))
        (d.task_class == non_restorable || d.task_class == restart_only) (add_skipped st)
        (if is_bad_region d r payload_len then add_failed st else restored) (λ e. (omega arith, k))
        (λ e.
          if-cases (Good (total st + 1)) (is_bad_region d r payload_len) (add_failed st) restored
            (λ bad. (omega arith, k))
            (λ good.
              let (inside, small) = in_payload d r word good in
              restore_with-Good d.restore_fn r st lt inside small k))

  apply_found-Good :
      (d : Descriptor) (f : ℕ) (r : Region) (st : Progress W)
      → d.register_fn ≡ some f
      → total st < 2 ^ 32 - 1
      → r.offset < 2 ^ 32
      → Keeps st.world
      → Good (total st + 1) (apply_found call_register call_restore d r payload_len st)
  unfolding apply_found
  apply_found-Good d f r st there lt word k =
      let (already, bits) = bitmap_test_and_set st.registered d.task_id in
      let (rc, w) = call_register d.register_fn st.world in
      let st' = record st { registered = bits } in
      let new = record st' { world = w } in
      let k' : Keeps w = rw there (register_keeps f st.world k) in
      let applied = apply_state call_register call_restore d r payload_len new in
      if-cases (Good (total st + 1)) already
        (apply_state call_register call_restore d r payload_len st')
        (if is_not_registered rc then add_failed new else applied)
        (λ e. apply_state-Good d r st' lt word k)
        (λ e.
          if-cases (Good (total st + 1)) (is_not_registered rc) (add_failed new) applied
            (λ bad. (omega arith, k')) (λ good. apply_state-Good d r new lt word k'))

  apply_region-Good :
      {g : Registry} (r : Region) (st : Progress W)
      → IsSound g
      → total st < 2 ^ 32 - 1
      → r.offset < 2 ^ 32
      → Keeps st.world
      → Good (total st + 1) (apply_region call_register call_restore g r payload_len st)
  unfolding apply_region restore_registry_find
  apply_region-Good {g} r st sound lt word k = elim (Option-cases (g (r.region_id % 2 ^ 8))) [
    | inl nothing ↦ rw (nothing, apply_region) (omega arith, k)
    | inr (d, found) ↦
        let (f, there) = (sound (r.region_id % 2 ^ 8) d found).0.0 in
        rw (found, apply_region) (apply_found-Good d f r st there lt word k)
  ]

  apply_all-Good :
      {g : Registry} (rs : List Region) (st : Progress W)
      → IsSound g
      → total st + length rs < 2 ^ 32
      → AreWords rs
      → Keeps st.world
      → Good (total st + length rs) (apply_all call_register call_restore g rs payload_len st)
  unfolding apply_all
  apply_all-Good [] st sound lt words k = (omega arith, k)
  apply_all-Good {g} (r ∷ rs) st sound lt (word, words) k =
      let (one, k') = apply_region-Good r st sound (omega arith) word k in
      let next = apply_region call_register call_restore g r payload_len st in
      let (others, k'') = apply_all-Good rs next sound (omega arith) words k' in (omega arith, k'')

err_not_ok : loader_err_restore ≢ loader_ok
err_not_ok e = cc

take-AreWords : (n : ℕ) (rs : List Region) → AreWords rs → AreWords (take n rs)
take-AreWords zero rs words = tt
take-AreWords (suc n) [] words = tt
take-AreWords (suc n) (r ∷ rs) (word, words) = (word, take-AreWords n rs words)

no_failure :
    {W : Type 0} (st : Progress W) (stats : Stats)
    → ((conclude st stats).0 ≡ loader_ok) ↔ (st.failed ≡ 0)
unfolding conclude
no_failure st stats = elim (ℕ_discrete st.failed 0) [
  | yes none_failed ↦ rw none_failed ((λ e. refl), (λ e. refl))
  | no some_failed ↦
      let t : (st.failed == 0) ≡ false = ground arith in
      rw t ((λ e. absurd (err_not_ok e)), (λ e. absurd (some_failed e)))
]

-- On a sound table of descriptors, for `region_count` regions (fewer than `2 ^ 16`, all of them there) with
-- 32-bit offsets and a 32-bit payload length, `restore_loader_apply_regions` treats the regions in
-- their order, as `Treated` says: the task of a known id is registered at the first region that has it and
-- the region fails if that fails; the region is skipped if the task's class has no state; otherwise it is
-- applied exactly if its state fits, the task has a restore function and that returns success on
-- it, and fails if not. Each region is counted once, and success is returned exactly if none failed.
-- Whatever holds of the tasks before, and is kept by each call of a register function and by each
-- call of a restore function on a state of at most 4096 bytes that lies in the payload, holds after.
pub restore_loader_safe :
    {W : Type 0} (call_register : Option ℕ → W → SchedStatus × W)
    (call_restore : ℕ → ℕ → ℕ → W → SchedStatus × W) (payload_len : ℕ) (Keeps : W → Type 0)
    → ((f : ℕ) (w : W) → Keeps w → Keeps (call_register (some f) w).1)
    → ((f offset size : ℕ) (w : W)
        → offset + size ≤ payload_len
        → size ≤ max_task_state_blob
        → Keeps w
        → Keeps (call_restore f offset size w).1)
    → {g : Registry} (regions : List Region) (region_count : ℕ) (w : W) (stats : Stats) → IsSound g
    → AreWords regions
    → region_count ≤ length regions
    → region_count < 2 ^ 16
    → payload_len < 2 ^ 32
    → Keeps w
    → let (rc, out, stats') =
        restore_loader_apply_regions call_register call_restore g true
          (some regions)
          region_count
          true
          payload_len
          w
          stats in
      (st : Progress W) × (out ≡ some st)
      × TreatedAll call_register call_restore payload_len g []
          (take region_count regions)
          (start w)
          st
      × (st.applied + st.skipped + st.failed ≡ region_count)
      × ((rc ≡ loader_ok) ↔ (st.failed ≡ 0))
      × (stats'.last_rc ≡ rc)
      × Keeps st.world
unfolding restore_loader_apply_regions conclude
restore_loader_safe register restore payload_len Keeps kr ks regions region_count w stats sound
      words there few len k =
    let rs = take region_count regions in
    let size : length rs ≡ region_count = omega (arith, length-take region_count regions) in
    let (all, kept) =
      apply_all-Good register restore payload_len Keeps kr ks rs (start w) sound (omega arith)
        (take-AreWords region_count regions words) k in
    let st = apply_all register restore _ rs payload_len (start w) in
    let cut = take-AreWords region_count regions words in
    let treated = apply_all-start register restore payload_len rs w sound cut len in
    (st, refl, treated, omega arith, no_failure st stats, refl, kept)
