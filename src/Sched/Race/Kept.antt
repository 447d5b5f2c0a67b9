-- ===== src/Sched/Race/Kept.antt =====
-- Every call, every post of an interrupt, and every update that one comes into leaves the tasks of the table with
-- their handlers.
use rewind_os.Base.{
  ℕ, zero, suc, ◌+◌, ◌-◌, ◌^◌, ◌≡◌, ◌≢◌, refl, ◌∙◌, sym, false, Option, none, some, [], ◌∷◌, update,
  update_self, update_ne, Option-cases, inl, inr, ◌==◌, leb, if-cases,
}
use Prim.Native.Nat.{bit_and, bit_or}
use native.Mathlib.Decide.{ℕ_discrete}
use rewind_os.Event.{Event, eq_push, eq_is_empty, eq_drain}
use rewind_os.Sched.{
  Sched, Ao, TaskSpec, SchedStatus, is_null, put_ao, sched_register_task, sched_unregister,
  sched_post, sched_pause_accept, sched_resume_accept, sched_flush_all, flush_from, task_ao, is_ok,
  drain_entry, set_flags, remove, post_to, sched_max_ao, ao_flag_accept_events,
}
use rewind_os.Sched.Register.{fresh_ao, register_cases, register_accepted}
use rewind_os.Sched.Calls.{
  Call, register, unregister, pause, resume, post, post_isr, flush_all, exec, sched_post_isr-eq,
}
use rewind_os.Sched.Pick.{is_candidate, pick_from}
use rewind_os.Sched.Race.{
  Posts, interrupts, write_bitmap, post_to_amid, sched_post_amid, settle_amid, RaceProg, done, call,
  post_amid, run_race_prog,
}

-- Every task in the table stands at its own place and has a handler.
abbrev pub CanRun : Sched → Type 0
CanRun s = (i p : ℕ) → s.table i ≡ some p → (p ≡ i) × (is_null (s.aos p).dispatch ≡ false)

-- A write to an object that leaves its handler.
pub put-CanRun :
    (s : Sched) (p : ℕ) (ao : Ao)
    → ao.dispatch ≡ (s.aos p).dispatch
    → CanRun s
    → CanRun (put_ao s p ao)
put-CanRun s p ao same h i q has = elim (ℕ_discrete p q) [
  | yes e ↦ ((h i q has).0, rw (← e, update_self s.aos p ao, same) (rw (← e) at (h i q has).1))
  | no ne ↦ ((h i q has).0, rw (update_ne s.aos p q ao ne) (h i q has).1)
]

register-CanRun : (s : Sched) (spec : TaskSpec) → CanRun s → CanRun (sched_register_task s spec).1
register-CanRun s spec h = elim (register_cases s spec) [
  | inr (same, refused) ↦ rw same h
  | inl a ↦ rw (register_accepted s spec a) (λ i p has. elim (ℕ_discrete spec.id i) [
    | yes e ↦
        let here : some spec.id ≡ some p =
          sym (update_self s.table spec.id (some spec.id)) ∙ rw (← e) at has in
        let own : p ≡ spec.id = cc in
        (
          own ∙ e,
          rw (own, update_self (update s.aos spec.id (task_ao spec)) spec.id (fresh_ao spec))
              a.dispatch,
        )
    | no ne ↦
        let (own, can) = h i p (sym (update_ne s.table spec.id i (some spec.id) ne) ∙ has) in
        let apart : spec.id ≢ p = λ e. ne (e ∙ own) in
        (
          own,
          rw
              (
                update_ne (update s.aos spec.id (task_ao spec)) spec.id p (fresh_ao spec) apart,
                update_ne s.aos spec.id p (task_ao spec) apart,
              )
              can,
        )
  ])
]

unregister-CanRun : (s : Sched) (i : ℕ) → CanRun s → CanRun (sched_unregister s i).1
unfolding sched_unregister remove
unregister-CanRun s i h =
    if-cases (λ (r : SchedStatus × Sched). CanRun r.1) (leb sched_max_ao i) _ _ (λ e. h)
      (λ e. elim (Option-cases (s.table i)) [
        | inl nothing ↦ rw nothing h
        | inr (p, has) ↦ rw has (λ j q there. elim (ℕ_discrete i j) [
          | yes same ↦
              let gone : none ≡ some q = sym (update_self s.table i none) ∙ rw (← same) at there in
              cc
          | no ne ↦
              let (own, can) = h j q (sym (update_ne s.table i j none ne) ∙ there) in
              let apart : p ≢ q = λ f. ne (sym (h i p has).0 ∙ f ∙ own) in
              (own, rw (update_ne s.aos p q _ apart) can)
        ])
      ])

flags-CanRun : (s : Sched) (i : ℕ) (f : ℕ → ℕ) → CanRun s → CanRun (set_flags s i f).1
unfolding set_flags
flags-CanRun s i f h =
    if-cases (λ (r : SchedStatus × Sched). CanRun r.1) (leb sched_max_ao i) _ _ (λ e. h)
      (λ e. elim (Option-cases (s.table i)) [
        | inl nothing ↦ rw nothing h
        | inr (p, has) ↦
            rw has (put-CanRun s p (record (s.aos p) { flags = f (s.aos p).flags }) refl h)
      ])

post-CanRun : (s : Sched) (i : ℕ) (e : Event) → CanRun s → CanRun (sched_post s i e).1
unfolding sched_post post_to
post-CanRun s i e h =
    if-cases (λ (r : SchedStatus × Sched). CanRun r.1) (leb sched_max_ao i) _ _ (λ f. h)
      (λ f. elim (Option-cases (s.table i)) [
        | inl nothing ↦ rw nothing h
        | inr (p, has) ↦ rw has (
            let pushed =
              put-CanRun s p (record (s.aos p) { q = (eq_push (s.aos p).q e).1 }) refl h in
            if-cases (λ (r : SchedStatus × Sched). CanRun r.1)
              (bit_and (s.aos p).flags ao_flag_accept_events == 0) _ _ (λ g. h)
              (λ g.
                if-cases (λ (r : SchedStatus × Sched). CanRun r.1) (is_ok (eq_push (s.aos p).q e).0)
                  _ _ (λ k. pushed) (λ k. pushed)))
      ])

flush_from-CanRun : (n i : ℕ) (s : Sched) → CanRun s → CanRun (flush_from n i s)
unfolding flush_from drain_entry
flush_from-CanRun zero i s h = h
flush_from-CanRun (suc n) i s h =
    flush_from-CanRun n (i + 1) (drain_entry s (s.table i)) (elim (Option-cases (s.table i)) [
      | inl nothing ↦ rw nothing h
      | inr (p, has) ↦
          rw has (put-CanRun s p (record (s.aos p) { q = eq_drain (s.aos p).q }) refl h)
    ])

flush-CanRun : (s : Sched) → CanRun s → CanRun (sched_flush_all s)
unfolding sched_flush_all
flush-CanRun s h = flush_from-CanRun sched_max_ao 0 s h

pub exec-CanRun : (c : Call) (s : Sched) → CanRun s → CanRun (exec c s).1
unfolding exec sched_pause_accept sched_resume_accept
exec-CanRun (register spec) s h = register-CanRun s spec h
exec-CanRun (unregister i) s h = unregister-CanRun s i h
exec-CanRun (pause i) s h = flags-CanRun s i (λ f. bit_and f (2 ^ 32 - 1 - ao_flag_accept_events)) h
exec-CanRun (resume i) s h = flags-CanRun s i (λ f. bit_or f ao_flag_accept_events) h
exec-CanRun (post i e) s h = post-CanRun s i e h
exec-CanRun (post_isr i e) s h = rw (sched_post_isr-eq s i e) (post-CanRun s i e h)
exec-CanRun flush_all s h = flush-CanRun s h

pub interrupts-CanRun : (posts : Posts) (s : Sched) → CanRun s → CanRun (interrupts posts s)
unfolding interrupts
interrupts-CanRun [] s h = h
interrupts-CanRun ((i, e) ∷ posts) s h =
    interrupts-CanRun posts _ (rw (sched_post_isr-eq s i e) (post-CanRun s i e h))

post_amid-CanRun :
    (a b : Posts) (s : Sched) (i : ℕ) (e : Event) → CanRun s → CanRun (sched_post_amid a b s i e).1
unfolding sched_post_amid post_to_amid write_bitmap
post_amid-CanRun a b s i e h =
    if-cases (λ (r : SchedStatus × Sched). CanRun r.1) (leb sched_max_ao i) _ _ (λ f. h)
      (λ f. elim (Option-cases (s.table i)) [
        | inl nothing ↦ rw nothing h
        | inr (p, has) ↦ rw has (
            let pushed =
              put-CanRun s p (record (s.aos p) { q = (eq_push (s.aos p).q e).1 }) refl h in
            let s' = put_ao s p (record (s.aos p) { q = (eq_push (s.aos p).q e).1 }) in
            let once = interrupts-CanRun a s' pushed in
            if-cases (λ (r : SchedStatus × Sched). CanRun r.1)
              (bit_and (s.aos p).flags ao_flag_accept_events == 0) _ _ (λ g. h)
              (λ g.
                if-cases (λ (r : SchedStatus × Sched). CanRun r.1) (is_ok (eq_push (s.aos p).q e).0)
                  _ _ (λ k. interrupts-CanRun b _ once) (λ k. once)))
      ])

pub settle-CanRun : (a b : Posts) (s : Sched) (p : ℕ) → CanRun s → CanRun (settle_amid a b s p)
unfolding settle_amid write_bitmap
settle-CanRun a b s p h =
    let once = interrupts-CanRun a s h in
    if-cases CanRun (eq_is_empty (s.aos p).q) _ _ (λ e. interrupts-CanRun b _ once) (λ e. once)

pub run-CanRun : {W : Type 0} (m : RaceProg W) (s : Sched) → CanRun s → CanRun (run_race_prog m s).0
unfolding run_race_prog
run-CanRun (done w) s h = h
run-CanRun (call c go) s h = run-CanRun (go (exec c s).0) (exec c s).1 (exec-CanRun c s h)
run-CanRun (post_amid a b i e go) s h =
    let r = sched_post_amid a b s i e in run-CanRun (go r.0) r.1 (post_amid-CanRun a b s i e h)

-- What is picked stands in the table.
abbrev pub IsPick : Sched → Option ℕ × Sched → Type 0
IsPick s r =
    ((p : ℕ) → r.0 ≡ some p → is_null (s.aos p).dispatch ≡ false)
    × (r.1.aos ≡ s.aos)
    × (r.1.table ≡ s.table)

pub pick_from-IsPick :
    (n i start prio : ℕ) (s : Sched) → CanRun s → IsPick s (pick_from n i start prio s)
unfolding pick_from
pick_from-IsPick zero i start prio s h = ((λ p e. cc e), refl, refl)
pick_from-IsPick (suc n) i start prio s h =
    let id = bit_and (start + i) 31 in
    if-cases (IsPick s) (is_candidate s prio id (s.table id)) _ _
      (λ e. ((λ p has. (h id p has).1), refl, refl))
      (λ e. pick_from-IsPick n (i + 1) start prio s h)
