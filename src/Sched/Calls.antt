-- ===== src/Sched/Calls.antt =====
-- The calls of the scheduler's interface, but `sched_register` itself, keep its invariant.
use rewind_os.Base.{
  ℕ, zero, suc, ◌+◌, ◌-◌, ◌^◌, ◌≤◌, ◌<◌, ◌≡◌, refl, ◌∙◌, Bool, false, Option, none, some, arith,
  ltb, leb, lt→leb, ap, if◌then◌else◌, ◌==◌, ◌&&◌,
}
use Prim.Native.Nat.{bit_and, bit_or}
use rewind_os.Base.Bits.{test_bit, test_bit-zero}
use rewind_os.Event.{Event, eq_push, eq_push_isr, eq_drain}
use rewind_os.Event.Fifo.{eq_drain-IsValid}
use rewind_os.Sched.{
  Sched, Ao, TaskSpec, SchedStatus, ok, sched_max_ao, ao_flag_accept_events, sched_init,
  sched_register_task, sched_unregister, sched_post, sched_post_isr, sched_pause_accept,
  sched_resume_accept, sched_flush_all, flush_from, set_flags, drain_entry,
}
use rewind_os.Sched.Inv.{
  SchedOk, none_busy, bit_empty, SlotOf, Slot, IsLive-at, by_entry, set_flags-SchedOk,
  remove-SchedOk, sched_post-SchedOk, requeue,
}
use rewind_os.Sched.Register.{IsGoodSpec, sched_register_task-SchedOk}

-- `sched_init` makes a scheduler in order out of any memory.
pub sched_init-SchedOk : (s : Sched) (hook : Option ℕ) → SchedOk none_busy (sched_init s hook)
unfolding sched_init
sched_init-SchedOk s hook = record {
  slot = λ i hi. (test_bit-zero i, (λ b. absurd (ground arith)));
}

pub sched_post_isr-eq : (s : Sched) (i : ℕ) (e : Event) → sched_post_isr s i e ≡ sched_post s i e
unfolding sched_post_isr sched_post eq_push_isr eq_push
sched_post_isr-eq s i e = refl

sched_unregister-SchedOk :
    {x : ℕ} {s : Sched} (i : ℕ) → SchedOk x s → SchedOk x (sched_unregister s i).1
unfolding sched_unregister
sched_unregister-SchedOk {x} {s} i ok_s =
    by_entry (sched_unregister s i) i ok_s (λ far. ground arith) (λ none_there. ground arith)
      (λ hi has. rw (lt→leb i sched_max_ao hi, has) (remove-SchedOk i ok_s hi has))

flags-SchedOk :
    {x : ℕ} {s : Sched} (i : ℕ) (f : ℕ → ℕ) → SchedOk x s → SchedOk x (set_flags s i f).1
unfolding set_flags
flags-SchedOk {x} {s} i f ok_s =
    by_entry (set_flags s i f) i ok_s (λ far. ground arith) (λ none_there. ground arith)
      (λ hi has.
        rw (lt→leb i sched_max_ao hi, has) (set_flags-SchedOk i ok_s hi has (f (s.aos i).flags)))

sched_pause_accept-SchedOk :
    {x : ℕ} {s : Sched} (i : ℕ) → SchedOk x s → SchedOk x (sched_pause_accept s i).1
unfolding sched_pause_accept
sched_pause_accept-SchedOk i ok_s =
    flags-SchedOk i (λ f. bit_and f (2 ^ 32 - 1 - ao_flag_accept_events)) ok_s

sched_resume_accept-SchedOk :
    {x : ℕ} {s : Sched} (i : ℕ) → SchedOk x s → SchedOk x (sched_resume_accept s i).1
unfolding sched_resume_accept
sched_resume_accept-SchedOk i ok_s = flags-SchedOk i (λ f. bit_or f ao_flag_accept_events) ok_s

-- The active object of the entry `i` after `sched_flush_all` has passed it.
pub flushed : Option ℕ → Ao → Ao
flushed none ao = ao
flushed (some p) ao = record ao { q = eq_drain ao.q }

abbrev OwnPointers : Sched → Type 0
OwnPointers s = (i p : ℕ) → i < sched_max_ao → s.table i ≡ some p → p ≡ i

drain_entry-aos :
    (s : Sched) (t : Option ℕ) (i j : ℕ)
    → ((p : ℕ) → t ≡ some p → p ≡ i)
    → ((drain_entry s t).table ≡ s.table)
      × ((drain_entry s t).ready_bitmap ≡ s.ready_bitmap)
      × ((drain_entry s t).aos j ≡ (if i == j then flushed t (s.aos i) else s.aos j))
unfolding drain_entry flushed
drain_entry-aos s none i j own = (refl, refl, ground arith)
drain_entry-aos s (some p) i j own = (refl, refl, ground (arith, own p refl))

flush_from-aos :
    (n i j : ℕ) (s : Sched)
    → OwnPointers s
    → i + n ≤ sched_max_ao
    → ((flush_from n i s).table ≡ s.table)
      × ((flush_from n i s).aos j
          ≡ (if leb i j && ltb j (i + n) then flushed (s.table j) (s.aos j) else s.aos j))
unfolding flush_from
flush_from-aos zero i j s own h = (refl, ground arith)
flush_from-aos (suc n) i j s own h =
    let s' = drain_entry s (s.table i) in
    let (same, _, here) = drain_entry-aos s (s.table i) i j (λ p e. own i p (omega arith) e) in
    let (t, a) = flush_from-aos n (i + 1) j s' (rw same own) (omega arith) in
    (t ∙ same, ground (arith, a, here, ap (λ (f : ℕ → Option ℕ). f j) same))

flushed-Slot :
    (busy : Bool) (t : Option ℕ) (i : ℕ) (ao : Ao) (ready : Bool)
    → Slot busy i t ao ready
    → Slot busy i t (flushed t ao) false
unfolding flushed eq_drain
flushed-Slot busy none i ao ready h = (refl, h.1)
flushed-Slot busy (some p) i ao ready h =
    requeue (eq_drain ao.q) false h (eq_drain-IsValid h.queue).0 (bit_empty busy 0 refl)

-- What `sched_flush_all` leaves at each entry.
pub sched_flush_all-entry :
    {x : ℕ} {s : Sched} (j : ℕ)
    → SchedOk x s
    → j < sched_max_ao
    → ((sched_flush_all s).table j ≡ s.table j)
      × ((sched_flush_all s).aos j ≡ flushed (s.table j) (s.aos j))
unfolding sched_flush_all
sched_flush_all-entry {x} {s} j ok_s hj =
    let own : OwnPointers s = λ i p hi e. (IsLive-at ok_s hi e).pointer in
    let (t, a) = flush_from-aos sched_max_ao 0 j s own (omega arith) in
    (ap (λ (f : ℕ → Option ℕ). f j) t, ground (arith, a))

sched_flush_all-SchedOk : {x : ℕ} {s : Sched} → SchedOk x s → SchedOk x (sched_flush_all s)
sched_flush_all-SchedOk {x} {s} ok_s = record { slot = go }
  where
    bits : (j : ℕ) → test_bit (sched_flush_all s).ready_bitmap j ≡ false
    bits j = unfold sched_flush_all in test_bit-zero j

    go : (j : ℕ) → j < sched_max_ao → SlotOf x (sched_flush_all s) j
    go j hj =
        let (t, a) = sched_flush_all-entry j ok_s hj in
        rw (t, a, bits j)
          (flushed-Slot (x == j) (s.table j) j (s.aos j) (test_bit s.ready_bitmap j)
            (ok_s.slot j hj))

-- The calls of the interface. `sched_register`, which nothing but `sched_register_task` calls, enters an object
-- of the caller's own, at an address that is not that of its id; it is left out here.
pub data Call : Type 0 where
  register : TaskSpec → Call
  unregister pause resume : ℕ → Call
  post post_isr : ℕ → Event → Call
  flush_all : Call

unfoldable pub exec : Call → Sched → SchedStatus × Sched
exec (register spec) s = sched_register_task s spec
exec (unregister i) s = sched_unregister s i
exec (pause i) s = sched_pause_accept s i
exec (resume i) s = sched_resume_accept s i
exec (post i e) s = sched_post s i e
exec (post_isr i e) s = sched_post_isr s i e
exec flush_all s = (ok, sched_flush_all s)

-- A call whose arguments are as the interface asks.
abbrev pub IsGood : Call → Type 0
IsGood (register spec) = IsGoodSpec spec
IsGood _ = Unit {0}

-- Every call of the interface but a direct `sched_register`, accepted or refused, keeps the scheduler
-- in order: a ready bit is set exactly where an event waits, and every registered task can run.
-- The call runs without an interrupt in the middle of it, all tasks have been registered by
-- `sched_register_task`, and a specification gives its queue the storage that it claims.
pub exec-SchedOk : {x : ℕ} {s : Sched} (c : Call) → IsGood c → SchedOk x s → SchedOk x (exec c s).1
unfolding exec
exec-SchedOk (register spec) good ok_s = sched_register_task-SchedOk spec good ok_s
exec-SchedOk (unregister i) good ok_s = sched_unregister-SchedOk i ok_s
exec-SchedOk (pause i) good ok_s = sched_pause_accept-SchedOk i ok_s
exec-SchedOk (resume i) good ok_s = sched_resume_accept-SchedOk i ok_s
exec-SchedOk (post i e) good ok_s = sched_post-SchedOk i e ok_s
exec-SchedOk {x} {s} (post_isr i e) good ok_s =
    rw (sched_post_isr-eq s i e) (sched_post-SchedOk i e ok_s)
exec-SchedOk flush_all good ok_s = sched_flush_all-SchedOk ok_s
