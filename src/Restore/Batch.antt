-- ===== src/Restore/Batch.antt =====
-- The items that are queued reach the loader as one checkpoint, in their order.
use rewind_os.Base.{
  ℕ, suc, ◌+◌, ◌*◌, ◌%◌, ◌^◌, ◌≤◌, ◌<◌, ◌≡◌, refl, sym, ap, ap₂, ◌∙◌, Bool, true, false, Option,
  some, List, [], ◌∷◌, ◌++◌, if◌then◌else◌, ltb, leb, ◌==◌, ◌&&◌, update, update_self, update_ne,
  take, take_all, length, length-append, arith, if-cases, append_assoc, append-nil,
}
use mathlib.Core.Path.{subst}
use rewind_os.Sched.{SchedStatus}
use rewind_os.Restore.Registry.{Registry}
use rewind_os.Restore.Loader.{Region, LoaderStatus, Stats}
use rewind_os.Restore.Sim.{
  Item, Sim, restore_sim_reset, new_item, enqueue_item, enqueue_blob, restore_sim_enqueue, collect,
  settle_items, is_ok, load, apply_with, restore_sim_apply, restore_sim_pending,
}

-- A task's state: its region id, its version and its bytes.
pub record Saved : Type 0 where
  pub region_id : ℕ
  pub state_version : ℕ
  pub state : List ℕ

-- All are queued, one after the other; the results are those of the calls.
abbrev pub enqueue_all : List Saved → Sim → List SchedStatus × Sim
enqueue_all [] q = ([], q)
enqueue_all (e ∷ es) q =
    let r = restore_sim_enqueue e.region_id e.state_version (some e.state) (length e.state) q in
    let rest = enqueue_all es r.1 in (r.0 ∷ rest.0, rest.1)

-- The checkpoint that the states make up, when `used` bytes stand before them.
abbrev pub region_at : ℕ → Saved → Region
region_at used e = record {
  region_id = e.region_id;
  state_version = e.state_version;
  offset = used;
  length = length e.state;
  crc32 = 0;
}

abbrev pub checkpoint : ℕ → List Saved → List Region × List ℕ
checkpoint used [] = ([], [])
checkpoint used (e ∷ es) =
    let rest = checkpoint (used + length e.state) es in
    (region_at used e ∷ rest.0, e.state ++ rest.1)

-- Each state fits its item.
abbrev pub Fit : List Saved → Type 0
Fit [] = Unit {0}
Fit (e ∷ es) = (length e.state ≤ 512) × Fit es

-- The items from `i` on are the states, and are pending.
Queued : (ℕ → Item) → ℕ → List Saved → Type 0
Queued items i [] = Unit {0}
Queued items i (e ∷ es) =
    ((seq : ℕ) × (items i ≡ new_item e.region_id e.state_version e.state (length e.state) seq))
    × Queued items (i + 1) es

item_behind :
    (items : ℕ → Item) (i k : ℕ) (es : List Saved) (e : Saved) (seq : ℕ)
    → k ≡ i + length es
    → Queued items i es
    → Queued
        (update items k (new_item e.region_id e.state_version e.state (length e.state) seq))
        i
        (es ++ (e ∷ []))
unfolding Queued
item_behind items i k [] e seq at q =
    let same : k ≡ i = omega arith in
    (
      (
        seq,
        ap (update items k (new_item e.region_id e.state_version e.state (length e.state) seq))
              (sym same)
            ∙ update_self items k
                (new_item e.region_id e.state_version e.state (length e.state) seq),
      ),
      tt,
    )
item_behind items i k (f ∷ fs) e seq at ((s, here), q) = (
  (s, update_ne items k i _ (omega arith) ∙ here),
  item_behind items (i + 1) k fs e seq (omega arith) q,
)

-- What is known of the queue while it is filled from its reset on.
record Filled (done : List Saved) (q : Sim) : Type 0 where
  queued : Queued q.items 0 done
  reads : q.read_idx ≡ 0
  counts : q.count ≡ length done
  writes : q.write_idx ≡ length done % 8

enqueue_one :
    (done : List Saved) (e : Saved) (q : Sim)
    → Filled done q
    → length done < 8
    → length e.state ≤ 512
    → let r = restore_sim_enqueue e.region_id e.state_version (some e.state) (length e.state) q in
      (r.0 ≡ SchedStatus.ok) × Filled (done ++ (e ∷ [])) r.1
unfolding restore_sim_enqueue enqueue_blob enqueue_item
enqueue_one done e q f lt fits =
    let counts = f.counts in
    let writes = f.writes in
    let a : leb 8 q.count ≡ false = ground arith in
    let b : ltb 512 (length e.state) ≡ false = ground arith in
    let n = length-append done (e ∷ []) in
    simp (a, b)
      (
        refl,
        record {
          queued = item_behind q.items 0 q.write_idx done e q.next_seq (omega arith) f.queued;
          reads = f.reads;
          counts = omega arith;
          writes = omega arith;
        },
      )

abbrev pub oks : List Saved → List SchedStatus
oks [] = []
oks (e ∷ es) = SchedStatus.ok ∷ oks es

fill :
    (es done : List Saved) (q : Sim)
    → Filled done q
    → length done + length es ≤ 8
    → Fit es
    → ((enqueue_all es q).0 ≡ oks es) × Filled (done ++ es) (enqueue_all es q).1
fill [] done q f le fits = (refl, subst (λ d. Filled d q) (sym (append-nil done)) f)
fill (e ∷ es) done q f le (fe, fits) =
    let one = enqueue_one done e q f (omega arith) fe in
    let n = length-append done (e ∷ []) in
    let rest = fill es (done ++ (e ∷ [])) _ one.1 (omega arith) fits in
    (
      ap₂ (λ a l. a ∷ l) one.0 rest.0,
      subst (λ d. Filled d (enqueue_all (e ∷ es) q).1) (append_assoc done (e ∷ []) es) rest.1,
    )

collect_pending :
    (n idx used seq : ℕ) (items : ℕ → Item) (e : Saved)
    → items idx ≡ new_item e.region_id e.state_version e.state (length e.state) seq
    → let rest = collect n items ((idx + 1) % 8) ((used + length e.state) % 2 ^ 32) in
      collect (suc n) items idx used
      ≡ (region_at used e ∷ rest.0, take (length e.state) e.state ++ rest.1)
unfolding collect
collect_pending n idx used seq items e here =
    let next = (idx + 1) % 8 in
    let taken : Item → List Region × List ℕ = λ it.
      (let rest = collect n items next ((used + it.region.length) % 2 ^ 32) in
        ((record it.region { offset = used }) ∷ rest.0, it.blob ++ rest.1)) in
    ap
      (λ (it : Item). elim ((it.action == 1) && (it.entry_state == 0)) [
        | true ↦ taken it
        | false ↦ collect n items next used
      ])
      here

collect_lem :
    (es : List Saved) (items : ℕ → Item) (i used : ℕ)
    → Queued items i es
    → Fit es
    → i + length es ≤ 8
    → used ≤ 512 * i
    → collect (length es) items (i % 8) used ≡ checkpoint used es
unfolding collect Queued
collect_lem [] items i used q fits le small = refl
collect_lem (e ∷ es) items i used ((seq, here), q) (fe, fits) le small =
    let at : i % 8 ≡ i = omega arith in
    let next : (i % 8 + 1) % 8 ≡ (i + 1) % 8 = omega arith in
    let sum : (used + length e.state) % 2 ^ 32 ≡ used + length e.state = omega arith in
    let rest =
      collect_lem es items (i + 1) (used + length e.state) q fits (omega arith) (omega arith) in
    let both : collect (length es) items ((i % 8 + 1) % 8) ((used + length e.state) % 2 ^ 32)
        ≡ checkpoint (used + length e.state) es =
      ap₂ (λ a b. collect (length es) items a b) next sum ∙ rest in
    collect_pending (length es) (i % 8) used seq items e (ap items at ∙ here)
    ∙ ap₂ (λ (b : List ℕ) (r : List Region × List ℕ). (region_at used e ∷ r.0, b ++ r.1))
        (take_all (length e.state) e.state (omega arith)) both

checkpoint_length : (es : List Saved) → 0 < length es → 0 < length ((checkpoint 0 es).0)
checkpoint_length [] lt = lt
checkpoint_length (e ∷ es) lt = omega arith

module _ {W : Type 0} (call_register : Option ℕ → W → SchedStatus × W)
    (call_restore : List ℕ → ℕ → ℕ → ℕ → W → SchedStatus × W) where
  apply_with_pending :
      (g : Registry) (sched : Bool) (r : List Region × List ℕ) (q : Sim) (w : W) (stats : Stats)
      → 0 < length r.0
      → apply_with call_register call_restore g sched r q w stats ≡ (
        load call_register call_restore g sched r w stats,
        settle_items (load call_register call_restore g sched r w stats).0 q,
      )
  unfolding apply_with
  apply_with_pending g sched ([], payload) q w stats lt = absurd (omega arith)
  apply_with_pending g sched (x ∷ xs, payload) q w stats lt = refl

  settled_count :
      (rc : LoaderStatus) (q : Sim) → (settle_items rc q).count ≡ (if is_ok rc then 0 else q.count)
  unfolding settle_items
  settled_count rc q =
      if-cases (λ (x : Sim). x.count ≡ (if is_ok rc then 0 else q.count)) (is_ok rc) _ _
        (λ e. rw e refl) (λ e. rw e refl)

  -- One to eight states of at most 512 bytes that are queued after a reset are all accepted, and reach the
  -- loader in one call, as the checkpoint with the states one behind the other in their order; the queue is
  -- empty after a call that succeeds, and has all items still after one that fails.
  pub restore_sim_apply_lem :
      (es : List Saved) (q : Sim) (g : Registry) (sched : Bool) (w : W) (stats : Stats)
      → 0 < length es
      → length es ≤ 8
      → Fit es
      → let filled = enqueue_all es (restore_sim_reset q) in
        let out = restore_sim_apply call_register call_restore g sched filled.1 w stats in
        let called = load call_register call_restore g sched (checkpoint 0 es) w stats in
        (filled.0 ≡ oks es)
        × ((out.0 ≡ called)
            × (restore_sim_pending out.1 ≡ (if is_ok called.0 then 0 else length es)))
  unfolding restore_sim_apply restore_sim_reset restore_sim_pending Queued
  restore_sim_apply_lem es q g sched w stats some_item most fits =
      let empty : Filled [] (restore_sim_reset q) = record {
        queued = tt;
        reads = refl;
        counts = refl;
        writes = omega arith;
      } in
      let f = fill es [] (restore_sim_reset q) empty (omega arith) fits in
      let filled = (enqueue_all es (restore_sim_reset q)).1 in
      let found : collect filled.count filled.items filled.read_idx 0 ≡ checkpoint 0 es =
        ap₂ (λ n i. collect n filled.items i 0) f.1.counts (f.1.reads ∙ omega arith)
        ∙ collect_lem es filled.items 0 0 f.1.queued fits (omega arith) (omega arith) in
      let many = checkpoint_length es some_item in
      let step =
        ap (λ r. apply_with call_register call_restore g sched r filled w stats) found
        ∙ apply_with_pending g sched (checkpoint 0 es) filled w stats many in
      (
        f.0,
        (
          ap (λ r. r.0) step,
          ap (λ r. r.1.count) step
              ∙ settled_count (load call_register call_restore g sched (checkpoint 0 es) w stats).0
                  filled
              ∙ ap
                  (λ n.
                    if is_ok (load call_register call_restore g sched (checkpoint 0 es) w stats).0
                    then 0
                    else n)
                  f.1.counts,
        ),
      )
