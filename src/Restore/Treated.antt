-- ===== src/Restore/Treated.antt =====
-- What the loader does with a region, said without its code: which task is registered, which state is
-- handed to which restore function, and how the region is counted.
pub mod Marks
pub mod Regions
use rewind_os.Base.{
  ℕ, zero, suc, ◌+◌, ◌/◌, ◌%◌, ◌^◌, ◌≤◌, ◌<◌, ◌≡◌, ◌≢◌, refl, sym, ap, ◌∙◌, Bool, true, false,
  Option, none, some, List, [], ◌∷◌, if◌then◌else◌, ◌==◌, ◌||◌, not, arith, Bool-cases,
  Option-cases, if-cases, inl, inr, ◌⊎◌, update, update_self, update_ne,
}
use Prim.Native.Nat.{bit_and, bit_or}
use native.Mathlib.Decide.{ℕ_discrete}
use rewind_os.Base.Bits.{test_bit, test_bit-or, test_bit-pow, test_bit-zero, bit_and-pow_eq_zero}
use rewind_os.Sched.{SchedStatus}
use rewind_os.Sched.Bitmap.{bit_and_31}
use rewind_os.Restore.Registry.{
  Descriptor, Registry, restore_registry_find, non_restorable, restart_only,
}
use rewind_os.Restore.Found.{IsSound}
use rewind_os.Restore.Loader.{
  Region, Progress, add_applied, add_failed, add_skipped, is_bad_region, is_not_ok,
  is_not_registered, restore_with, apply_state, apply_found, apply_region, apply_all, start,
  bitmap_test_and_set, max_task_state_blob,
}

-- The offsets of the regions are 32-bit words.
abbrev pub AreWords : List Region → Type 0
AreWords [] = Unit {0}
AreWords (r ∷ rs) = (r.offset < 2 ^ 32) × AreWords rs

-- A state that may be handed to a restore function.
pub record Fits (d : Descriptor) (r : Region) (payload_len : ℕ) : Type 0 where
  pub version : d.state_version ≡ r.state_version
  pub long : d.min_state_len ≤ r.length
  pub short : r.length ≤ d.max_state_len
  pub small : r.length ≤ max_task_state_blob
  pub inside : r.offset + r.length ≤ payload_len

-- One of the regions before had the id.
abbrev pub is_in : ℕ → List ℕ → Bool
is_in id [] = false
is_in id (i ∷ is) = (i == id) || is_in id is

-- The counts after a region that is applied, skipped or failed, and the state of the tasks.
abbrev pub CountsApplied : {W : Type 0} → W → Progress W → Progress W → Type 0
CountsApplied w st st' =
    (st'.applied ≡ (st.applied + 1) % 2 ^ 32)
    × (st'.skipped ≡ st.skipped)
    × (st'.failed ≡ st.failed)
    × (st'.world ≡ w)

abbrev pub CountsSkipped : {W : Type 0} → W → Progress W → Progress W → Type 0
CountsSkipped w st st' =
    (st'.applied ≡ st.applied)
    × (st'.skipped ≡ (st.skipped + 1) % 2 ^ 32)
    × (st'.failed ≡ st.failed)
    × (st'.world ≡ w)

abbrev pub CountsFailed : {W : Type 0} → W → Progress W → Progress W → Type 0
CountsFailed w st st' =
    (st'.applied ≡ st.applied)
    × (st'.skipped ≡ st.skipped)
    × (st'.failed ≡ (st.failed + 1) % 2 ^ 32)
    × (st'.world ≡ w)

-- The task is there after the call of its register function.
abbrev pub IsThere : SchedStatus → Type 0
IsThere rc = (rc ≡ SchedStatus.ok) ⊎ (rc ≡ SchedStatus.err_exists)

module _ {W : Type 0} (call_register : Option ℕ → W → SchedStatus × W)
    (call_restore : ℕ → ℕ → ℕ → W → SchedStatus × W) (payload_len : ℕ) where
  -- What comes of a region whose task is registered, with the tasks in the state `w`.
  pub data Restored (d : Descriptor) (r : Region) (w : W) (st st' : Progress W) : Type 0 where
    passed_over :
        (d.task_class ≡ non_restorable) ⊎ (d.task_class ≡ restart_only)
        → CountsSkipped w st st'
        → Restored d r w st st'
    unfit :
        d.task_class ≢ non_restorable
        → d.task_class ≢ restart_only
        → ¬ Fits d r payload_len
        → CountsFailed w st st'
        → Restored d r w st st'
    no_function :
        d.task_class ≢ non_restorable
        → d.task_class ≢ restart_only
        → Fits d r payload_len
        → d.restore_fn ≡ none
        → CountsFailed w st st'
        → Restored d r w st st'
    called :
        (f : ℕ)
        → d.task_class ≢ non_restorable
        → d.task_class ≢ restart_only
        → Fits d r payload_len
        → d.restore_fn ≡ some f
        → (let (rc, w') = call_restore f r.offset r.length w in
            ((rc ≡ SchedStatus.ok) × CountsApplied w' st st')
            ⊎ ((rc ≢ SchedStatus.ok) × CountsFailed w' st st'))
        → Restored d r w st st'

  -- What comes of a region, the regions before having had the ids `seen`. A task is registered at the first
  -- region that has its id, and at no other.
  pub data Treated (g : Registry) (seen : List ℕ) (r : Region) (st st' : Progress W) : Type 0 where
    unknown :
        g (r.region_id % 2 ^ 8) ≡ none → CountsFailed st.world st st' → Treated g seen r st st'
    again :
        (d : Descriptor)
        → g (r.region_id % 2 ^ 8) ≡ some d
        → is_in (r.region_id % 2 ^ 8) seen ≡ true
        → Restored d r st.world st st'
        → Treated g seen r st st'
    first :
        (d : Descriptor)
        → g (r.region_id % 2 ^ 8) ≡ some d
        → is_in (r.region_id % 2 ^ 8) seen ≡ false
        → (let (rc, w) = call_register d.register_fn st.world in
            (((rc ≡ SchedStatus.ok) ⊎ (rc ≡ SchedStatus.err_exists)) × Restored d r w st st')
            ⊎ ((rc ≢ SchedStatus.ok) × (rc ≢ SchedStatus.err_exists) × CountsFailed w st st'))
        → Treated g seen r st st'

  -- The regions in their order.
  abbrev pub TreatedAll : Registry → List ℕ → List Region → Progress W → Progress W → Type 0
  TreatedAll g seen [] st st' = st' ≡ st
  TreatedAll g seen (r ∷ rs) st st' =
      (mid : Progress W) × Treated g seen r st mid
      × TreatedAll g ((r.region_id % 2 ^ 8) ∷ seen) rs mid st'
