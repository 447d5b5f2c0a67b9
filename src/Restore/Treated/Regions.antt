-- ===== src/Restore/Treated/Regions.antt =====
-- The loader treats the regions as Restore.Treated says.
use rewind_os.Base.{
  ℕ, ◌%◌, ◌^◌, ◌<◌, ◌≡◌, ◌≢◌, refl, sym, ap, ◌∙◌, true, false, Option, none, some, List, [], ◌∷◌,
  if◌then◌else◌, ◌==◌, ◌||◌, arith, Bool-cases, Option-cases, if-cases, inl, inr, ◌⊎◌,
}
use native.Mathlib.Decide.{ℕ_discrete}
use rewind_os.Sched.{SchedStatus}
use rewind_os.Restore.Registry.{
  Descriptor, Registry, restore_registry_find, non_restorable, restart_only,
}
use rewind_os.Restore.Found.{IsSound}
use rewind_os.Restore.Loader.{
  Region, Progress, add_failed, is_bad_region, is_not_ok, is_not_registered, restore_with,
  apply_state, apply_found, apply_region, apply_all, start, bitmap_test_and_set,
}
use rewind_os.Restore.Treated.{
  AreWords, Fits, IsThere, is_in, CountsApplied, CountsFailed, Restored, passed_over, unfit,
  no_function, called, Treated, unknown, again, first, TreatedAll,
}
use rewind_os.Restore.Treated.Marks.{marked, Marks, set_seen, none_marked}

ok_cases :
    (rc : SchedStatus)
    → (rc ≡ SchedStatus.ok) × (is_not_ok rc ≡ false) ⊎ (rc ≢ SchedStatus.ok) × (is_not_ok rc ≡ true)
ok_cases SchedStatus.ok = inl (refl, refl)
ok_cases SchedStatus.err_param = inr ((λ e. cc e), refl)
ok_cases SchedStatus.err_full = inr ((λ e. cc e), refl)
ok_cases SchedStatus.err_exists = inr ((λ e. cc e), refl)
ok_cases SchedStatus.err_not_found = inr ((λ e. cc e), refl)
ok_cases SchedStatus.err_queue_full = inr ((λ e. cc e), refl)
ok_cases SchedStatus.err_disabled = inr ((λ e. cc e), refl)

IsThere-cases :
    (rc : SchedStatus)
    → IsThere rc × (is_not_registered rc ≡ false)
      ⊎ ((rc ≢ SchedStatus.ok) × (rc ≢ SchedStatus.err_exists)) × (is_not_registered rc ≡ true)
IsThere-cases SchedStatus.ok = inl (inl refl, refl)
IsThere-cases SchedStatus.err_exists = inl (inr refl, refl)
IsThere-cases SchedStatus.err_param = inr (((λ e. cc e), (λ e. cc e)), refl)
IsThere-cases SchedStatus.err_full = inr (((λ e. cc e), (λ e. cc e)), refl)
IsThere-cases SchedStatus.err_not_found = inr (((λ e. cc e), (λ e. cc e)), refl)
IsThere-cases SchedStatus.err_queue_full = inr (((λ e. cc e), (λ e. cc e)), refl)
IsThere-cases SchedStatus.err_disabled = inr (((λ e. cc e), (λ e. cc e)), refl)

class_cases :
    (class : ℕ)
    → (class == non_restorable || class == restart_only) ≡ true
    → (class ≡ non_restorable) ⊎ (class ≡ restart_only)
class_cases class e = ground arith

module _ {W : Type 0} (call_register : Option ℕ → W → SchedStatus × W)
    (call_restore : ℕ → ℕ → ℕ → W → SchedStatus × W) (payload_len : ℕ) where
  Fits-of_good :
      (d : Descriptor) (r : Region)
      → r.offset < 2 ^ 32
      → is_bad_region d r payload_len ≡ false
      → Fits d r payload_len
  unfolding is_bad_region
  Fits-of_good d r word good = record {
    version = ground arith;
    long = ground arith;
    short = ground arith;
    small = ground arith;
    inside = ground arith;
  }

  not-Fits-of_bad :
      (d : Descriptor) (r : Region)
      → payload_len < 2 ^ 32
      → is_bad_region d r payload_len ≡ true
      → ¬ Fits d r payload_len
  unfolding is_bad_region
  not-Fits-of_bad d r word bad fits =
      ground (arith, fits.version, fits.long, fits.short, fits.small, fits.inside)

  restored_by :
      (f : ℕ) (r : Region) (st : Progress W)
      → let (rc, w') = call_restore f r.offset r.length st.world in
        let st' = restore_with call_register call_restore (some f) r st in
        ((rc ≡ SchedStatus.ok) × CountsApplied w' st st')
        ⊎ ((rc ≢ SchedStatus.ok) × CountsFailed w' st st')
  unfolding restore_with
  restored_by f r st = elim (ok_cases (call_restore f r.offset r.length st.world).0) [
    | inl (good, test) ↦ rw test (inl (good, (refl, refl, refl, refl)))
    | inr (bad, test) ↦ rw test (inr (bad, (refl, refl, refl, refl)))
  ]

  with_function :
      (d : Descriptor) (r : Region) (st : Progress W) (o : Option ℕ)
      → d.task_class ≢ non_restorable
      → d.task_class ≢ restart_only
      → Fits d r payload_len
      → d.restore_fn ≡ o
      → Restored call_register call_restore payload_len d r st.world st
          (restore_with call_register call_restore o r st)
  unfolding restore_with
  with_function d r st none non restart fits e =
      no_function non restart fits e (refl, refl, refl, refl)
  with_function d r st (some f) non restart fits e =
      called f non restart fits e (restored_by f r st)

  apply_state-Restored :
      (d : Descriptor) (r : Region) (st : Progress W)
      → r.offset < 2 ^ 32
      → payload_len < 2 ^ 32
      → Restored call_register call_restore payload_len d r st.world st
          (apply_state call_register call_restore d r payload_len st)
  unfolding apply_state restore_with
  apply_state-Restored d r st word len =
      elim (Bool-cases (d.task_class == non_restorable || d.task_class == restart_only)) [
        | inl over ↦ rw over (passed_over (class_cases d.task_class over) (refl, refl, refl, refl))
        | inr live ↦
            let not_non : d.task_class ≢ non_restorable = λ e. ground arith in
            let not_restart : d.task_class ≢ restart_only = λ e. ground arith in
            elim (Bool-cases (is_bad_region d r payload_len)) [
              | inl bad ↦
                  rw (live, bad)
                    (unfit not_non not_restart (not-Fits-of_bad d r len bad)
                      (refl, refl, refl, refl))
              | inr good ↦
                  let fits = Fits-of_good d r word good in
                  rw (live, good) (with_function d r st d.restore_fn not_non not_restart fits refl)
            ]
      ]

  -- The bitmap and the state of the tasks before the registration do not matter to the counts.
  unmark :
      (d : Descriptor) (r : Region) (w v : W) (bits : ℕ → ℕ) (st st' : Progress W)
      → Restored call_register call_restore payload_len d r w
          (record st { registered = bits; world = v })
          st'
      → Restored call_register call_restore payload_len d r w st st'
  unmark d r w v bits st st' (passed_over c k) = passed_over c k
  unmark d r w v bits st st' (unfit a b c k) = unfit a b c k
  unmark d r w v bits st st' (no_function a b c e k) = no_function a b c e k
  unmark d r w v bits st st' (called f a b c e k) = called f a b c e k

  -- The same bitmap.
  SameMarks : (ℕ → ℕ) → Progress W → Type 0
  SameMarks bits st = st.registered ≡ bits

  restore_with-SameMarks :
      (o : Option ℕ) (r : Region) (st : Progress W)
      → SameMarks st.registered (restore_with call_register call_restore o r st)
  unfolding restore_with SameMarks
  restore_with-SameMarks none r st = refl
  restore_with-SameMarks (some f) r st =
      if-cases (SameMarks st.registered) (is_not_ok (call_restore f r.offset r.length st.world).0) _
        _ (λ e. refl) (λ e. refl)

  apply_state-SameMarks :
      (d : Descriptor) (r : Region) (st : Progress W)
      → SameMarks st.registered (apply_state call_register call_restore d r payload_len st)
  unfolding apply_state SameMarks
  apply_state-SameMarks d r st =
      if-cases (SameMarks st.registered)
        (d.task_class == non_restorable || d.task_class == restart_only) _ _ (λ e. refl)
        (λ e.
          if-cases (SameMarks st.registered) (is_bad_region d r payload_len) _ _ (λ f. refl)
            (λ f. restore_with-SameMarks d.restore_fn r st))

  apply_found-SameMarks :
      (d : Descriptor) (r : Region) (st : Progress W)
      → SameMarks
          (bitmap_test_and_set st.registered d.task_id).1
          (apply_found call_register call_restore d r payload_len st)
  unfolding apply_found SameMarks
  apply_found-SameMarks d r st =
      let (already, bits) = bitmap_test_and_set st.registered d.task_id in
      let (rc, w) = call_register d.register_fn st.world in
      if-cases (SameMarks bits) already _ _
        (λ e. apply_state-SameMarks d r (record st { registered = bits }))
        (λ e.
          if-cases (SameMarks bits) (is_not_registered rc) _ _ (λ f. refl)
            (λ f. apply_state-SameMarks d r (record st { registered = bits; world = w })))

  -- A region whose id has a descriptor.
  apply_found-Treated :
      (g : Registry) (seen : List ℕ) (d : Descriptor) (r : Region) (st : Progress W)
      → r.offset < 2 ^ 32
      → payload_len < 2 ^ 32
      → g (r.region_id % 2 ^ 8) ≡ some d
      → marked st.registered d.task_id ≡ is_in (r.region_id % 2 ^ 8) seen
      → Treated call_register call_restore payload_len g seen r st
          (apply_found call_register call_restore d r payload_len st)
  unfolding apply_found
  apply_found-Treated g seen d r st word len has mark =
      let (already, bits) = bitmap_test_and_set st.registered d.task_id in
      let (rc, w) = call_register d.register_fn st.world in
      let st' = record st { registered = bits } in
      let new = record st' { world = w } in
      let applied = apply_state call_register call_restore d r payload_len new in
      if-cases (Treated call_register call_restore payload_len g seen r st) already
        (apply_state call_register call_restore d r payload_len st')
        (if is_not_registered rc then add_failed new else applied)
        (λ e.
          again d has (sym mark ∙ e)
            (unmark d r st.world st.world bits st _ (apply_state-Restored d r st' word len)))
        (λ e. first d has (sym mark ∙ e) (elim (IsThere-cases rc) [
          | inl (there, test) ↦
              rw test
                (inl (there, unmark d r w w bits st _ (apply_state-Restored d r new word len)))
          | inr (bad, test) ↦ rw test (inr (bad.0, bad.1, (refl, refl, refl, refl)))
        ]))

  apply_region-Treated :
      {g : Registry} (seen : List ℕ) (r : Region) (st : Progress W)
      → IsSound g
      → r.offset < 2 ^ 32
      → payload_len < 2 ^ 32
      → Marks g st.registered seen
      → let st' = apply_region call_register call_restore g r payload_len st in
        Treated call_register call_restore payload_len g seen r st st'
        × Marks g st'.registered ((r.region_id % 2 ^ 8) ∷ seen)
  unfolding apply_region restore_registry_find SameMarks
  apply_region-Treated {g} seen r st sound word len marks =
      let id = r.region_id % 2 ^ 8 in
      let small : id < 256 = omega arith in
      elim (Option-cases (g id)) [
        | inl nothing ↦
            rw (nothing, apply_region)
              (
                unknown nothing (refl, refl, refl, refl),
                (λ i d lt has.
                    let other : (id == i) ≡ false = elim (ℕ_discrete id i) [
                      | yes e ↦ let clash : none ≡ some d = sym nothing ∙ ap g e ∙ has in cc
                      | no ne ↦ ground arith
                    ] in
                    rw other (marks i d lt has)),
              )
        | inr (d, found) ↦
            let named = (sound id d found).1 in
            rw (found, apply_region)
              (
                apply_found-Treated g seen d r st word len found
                    (rw named (marks id d small found)),
                (λ i d' lt has.
                    ap (λ bits. marked bits i) (apply_found-SameMarks d r st)
                    ∙ set_seen st.registered d.task_id i seen (rw named small) lt
                        (marks i d' lt has)
                    ∙ ap (λ k. (k == i) || is_in i seen) named),
              )
      ]

  apply_all-Treated :
      {g : Registry} (seen : List ℕ) (rs : List Region) (st : Progress W)
      → IsSound g
      → AreWords rs
      → payload_len < 2 ^ 32
      → Marks g st.registered seen
      → TreatedAll call_register call_restore payload_len g seen rs st
          (apply_all call_register call_restore g rs payload_len st)
  unfolding apply_all
  apply_all-Treated seen [] st sound words len marks = refl
  apply_all-Treated {g} seen (r ∷ rs) st sound (word, words) len marks =
      let (one, marks') = apply_region-Treated seen r st sound word len marks in
      let mid = apply_region call_register call_restore g r payload_len st in
      (mid, one, apply_all-Treated ((r.region_id % 2 ^ 8) ∷ seen) rs mid sound words len marks')

  -- All regions, from the start of the loop.
  pub apply_all-start :
      {g : Registry} (rs : List Region) (w : W)
      → IsSound g
      → AreWords rs
      → payload_len < 2 ^ 32
      → TreatedAll call_register call_restore payload_len g [] rs
          (start w)
          (apply_all call_register call_restore g rs payload_len (start w))
  apply_all-start rs w sound words len =
      apply_all-Treated [] rs (start w) sound words len (λ id d lt has. none_marked id lt)
