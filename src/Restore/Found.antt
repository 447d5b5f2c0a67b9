-- ===== src/Restore/Found.antt =====
-- The table holds under each id what was registered first, and only descriptors that can be used.
use rewind_os.Base.{
  ℕ, ◌≤◌, ◌≡◌, ◌≢◌, ◌↔◌, refl, sym, ap, ◌∙◌, true, false, Option, none, some, ltb, ◌==◌, arith,
  update, Bool-cases, Option-cases, inl, inr,
}
use native.Mathlib.Decide.{ℕ_discrete}
use rewind_os.Base.{update_self, update_ne}
use rewind_os.Sched.{SchedStatus, is_null}
use rewind_os.Restore.Registry.{
  Descriptor, Registry, is_refused, restorable_now, non_restorable,
  restore_registry_register_descriptor, restore_registry_find,
}

-- A descriptor that the loader can work with: it has a register function, and a restore function
-- and a function that reads the state if its class asks for them; its class is one of the three and
-- its bounds are in order.
abbrev pub IsUsable : Descriptor → Type 0
IsUsable d =
    ((f : ℕ) × (d.register_fn ≡ some f))
    × (d.task_class ≤ non_restorable)
    × (d.min_state_len ≤ d.max_state_len)
    × (d.task_class ≡ restorable_now → (d.get_state_fn ≢ none) × (d.restore_fn ≢ none))

-- Each descriptor of the table is usable and stands under its own id.
abbrev pub IsSound : Registry → Type 0
IsSound g = (i : ℕ) (d : Descriptor) → g i ≡ some d → IsUsable d × (d.task_id ≡ i)

accepted-IsUsable : (d : Descriptor) → is_refused d ≡ false → IsUsable d
unfolding is_refused
accepted-IsUsable d e = (
  elim (Option-cases d.register_fn) [
    | inl nothing ↦ absurd (ground (arith, rw nothing at e))
    | inr found ↦ found
  ],
  ground (arith, e),
  ground (arith, e),
  (λ now. ((λ h. ground (arith, rw h at e)), (λ h. ground (arith, rw h at e)))),
)

present : (o : Option ℕ) → o ≢ none → is_null o ≡ false
present none ne = absurd (ne refl)
present (some a) ne = refl

usable-accepted : (d : Descriptor) → IsUsable d → is_refused d ≡ false
unfolding is_refused
usable-accepted d ((f, there), class, bounds, now) =
    let a : ltb non_restorable d.task_class ≡ false = ground arith in
    let b : ltb d.max_state_len d.min_state_len ≡ false = ground arith in
    elim (ℕ_discrete d.task_class restorable_now) [
      | yes e ↦
          let (get, restore) = now e in
          let n1 = present d.get_state_fn get in
          let n2 = present d.restore_fn restore in
          let t : (d.task_class == 0) ≡ true = ground arith in
          rw (a, b, there, t, n1, n2, is_refused) refl
      | no ne ↦
          let t : (d.task_class == 0) ≡ false = ground arith in rw (a, b, there, t, is_refused) refl
    ]

add-IsSound :
    (d : Descriptor) {g : Registry} → IsSound g → IsUsable d → IsSound (update g d.task_id (some d))
add-IsSound d {g} sound good i d' at = elim (ℕ_discrete d.task_id i) [
  | yes own ↦
      let same : some d ≡ some d' =
        sym (update_self g d.task_id (some d)) ∙ ap (update g d.task_id (some d)) own ∙ at in
      let dd : d ≡ d' = cc same in rw (← dd) (good, own)
  | no other ↦ sound i d' (sym (update_ne g d.task_id i (some d) other) ∙ at)
]

-- On a sound table, registering a descriptor succeeds exactly if it is usable and its id is free.
-- Success makes it the one that is found under its id and changes no other entry; a refusal, a null
-- pointer's included, changes nothing. The table stays sound.
pub restore_registry_lem :
    (d : Descriptor) {g : Registry}
    → IsSound g
    → let (rc, g') = restore_registry_register_descriptor (some d) g in
      ((rc ≡ SchedStatus.ok) ↔ (IsUsable d × (restore_registry_find g d.task_id ≡ none)))
      × (rc ≡ SchedStatus.ok
          → (restore_registry_find g' d.task_id ≡ some d)
            × ((i : ℕ) → d.task_id ≢ i → restore_registry_find g' i ≡ restore_registry_find g i))
      × (rc ≢ SchedStatus.ok → g' ≡ g)
      × ((restore_registry_register_descriptor none g).1 ≡ g)
      × IsSound g'
unfolding restore_registry_register_descriptor restore_registry_find
restore_registry_lem d {g} sound = elim (Bool-cases (is_refused d)) [
  | inl bad ↦
      rw bad
        (((λ e. cc), (λ h. cc (usable-accepted d h.0, bad))), (λ e. cc), (λ ne. refl), refl, sound)
  | inr good ↦ elim (Option-cases (g d.task_id)) [
    | inl free ↦
        rw (good, free)
          (
            ((λ e. (accepted-IsUsable d good, refl)), (λ h. refl)),
            (λ e.
                (update_self g d.task_id (some d), (λ i ne. update_ne g d.task_id i (some d) ne))),
            (λ ne. absurd (ne refl)),
            refl,
            add-IsSound d sound (accepted-IsUsable d good),
          )
    | inr (old, taken) ↦
        rw (good, taken) (((λ e. cc), (λ h. cc h.1)), (λ e. cc), (λ ne. refl), refl, sound)
  ]
]
