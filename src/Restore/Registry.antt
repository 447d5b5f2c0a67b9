-- ===== src/Restore/Registry.antt =====
-- src/kernel/restore_registry.c and include/restore_registry.h. Function pointers are opaque numbers,
-- `none` being null, and `g_registry` is a function of the task id.
use rewind_os.Base.{ℕ, Bool, Option, none, some, if◌then◌else◌, ltb, ◌==◌, ◌&&◌, ◌||◌, update}
use rewind_os.Sched.{SchedStatus, is_null}

-- `TASK_CLASS_RESTORABLE_NOW`, `TASK_CLASS_RESTART_ONLY`, `TASK_CLASS_NON_RESTORABLE`; the field of
-- a descriptor is a byte and may hold any other value.
abbrev pub restorable_now : ℕ
restorable_now = 0

abbrev pub restart_only : ℕ
restart_only = 1

abbrev pub non_restorable : ℕ
non_restorable = 2

-- `restore_task_descriptor_t`
pub record Descriptor : Type 0 where
  pub task_id : ℕ  -- uint8
  pub task_class : ℕ  -- uint8
  pub state_version : ℕ  -- uint16
  pub min_state_len : ℕ  -- uint32
  pub max_state_len : ℕ  -- uint32
  pub register_fn : Option ℕ
  pub get_state_fn : Option ℕ
  pub restore_fn : Option ℕ
  pub ui_rehydrate_fn : Option ℕ

-- `g_registry`
abbrev pub Registry : Type 0
Registry = ℕ → Option Descriptor

unfoldable pub restore_registry_init : Registry
restore_registry_init i = none

-- The tests of `restore_registry_register_descriptor` on the descriptor itself.
unfoldable pub is_refused : Descriptor → Bool
is_refused d =
    ltb non_restorable d.task_class
    || (ltb d.max_state_len d.min_state_len
        || (is_null d.register_fn
            || (d.task_class == restorable_now
                && (is_null d.get_state_fn || is_null d.restore_fn))))

unfoldable pub restore_registry_register_descriptor :
    Option Descriptor → Registry → SchedStatus × Registry
unfolding is_refused
restore_registry_register_descriptor none g = (SchedStatus.err_param, g)
restore_registry_register_descriptor (some d) g =
    if is_refused d
    then (SchedStatus.err_param, g)
    else if is_null (g d.task_id)
    then (SchedStatus.ok, update g d.task_id (some d))
    else (SchedStatus.err_exists, g)

unfoldable pub restore_registry_find : Registry → ℕ → Option Descriptor
restore_registry_find g task_id = g task_id
