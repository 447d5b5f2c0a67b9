-- ===== src/Journal/Frozen.antt =====
-- While the journal is replayed, nothing is written to it: neither the bytes that the terminal reads from the
-- replayed input nor the owners that it takes are captured again.
use rewind_os.Base.{
  ℕ, zero, suc, ◌+◌, ◌-◌, ◌%◌, ◌^◌, ◌≡◌, refl, sym, ap, ◌∙◌, Bool, true, false, not, ◌&&◌, ◌||◌,
  Option, none, some, if-cases,
}
use mathlib.Core.Path.{subst}
use rewind_os.Base.{List, [], ◌∷◌, length, get_or, if◌then◌else◌, ◌==◌, leb, ltb, arith}
use rewind_os.Media.{Code, ok, err, ReadResult, got, failed, BlockDevice, IsLawful}
use rewind_os.Journal.{Entry, Journal, jrnl_block_validate, evt_rx_bytes, evt_io_owner}
use rewind_os.Journal.Calls.{
  is_off, on_block, jrnl_append_record, flushed, jrnl_flush_pending_rx, journal_capture_input_byte,
  journal_capture_io_owner,
}
use rewind_os.Journal.Replay.{
  Terminal, World, capture_all, capture_owner, replay_bytes, replay_owner, replay_entry, in_order,
  replay_if_due, on_entry, replay_from,
}

-- So many bytes to pass over.
abbrev pub passing : ℕ → Journal → Journal
passing n j = record j { suppress_rx_bytes = n }

abbrev pub off : Journal → Journal
off j = record j { replaying = false }

or_true : (b : Bool) → (b || true) ≡ true
or_true b = ground arith

module _ (D : BlockDevice) where
  open D use {Card}

  -- A byte that comes in during the replay is not captured.
  capture_frozen :
      (b : ℕ) (j : Journal) (c : Card)
      → j.replaying ≡ true
      → (journal_capture_input_byte D b j c).1 ≡ (j, c)
  unfolding journal_capture_input_byte
  capture_frozen b j c e =
      let t : (is_off j || j.replaying) ≡ true = ap (λ r. is_off j || r) e ∙ or_true (is_off j) in
      simp t refl

  pub capture_passed :
      (b n : ℕ) (j : Journal) (c : Card)
      → is_off j ≡ false
      → j.replaying ≡ false
      → j.suppress_rx_bytes ≡ suc n
      → journal_capture_input_byte D b j c ≡ (ok, (passing n j, c))
  unfolding journal_capture_input_byte
  capture_passed b n j c on e count =
      let t : (is_off j || j.replaying) ≡ false = ground arith in
      let u : ltb 0 j.suppress_rx_bytes ≡ true = ground arith in
      let v : j.suppress_rx_bytes - 1 ≡ n = omega arith in
      simp (t, u) (ap (λ m. (ok, (passing m j, c))) v)

  append_frozen :
      (typ : ℕ) (payload : List ℕ) (j : Journal) (c : Card)
      → j.replaying ≡ true
      → jrnl_append_record D typ payload j c ≡ (err 6, (j, c))
  unfolding jrnl_append_record
  append_frozen typ payload j c e =
      let t : (is_off j || j.replaying) ≡ true = ap (λ r. is_off j || r) e ∙ or_true (is_off j) in
      simp t refl

  flush_frozen :
      (j : Journal) (c : Card) → j.replaying ≡ true → (jrnl_flush_pending_rx D j c).1 ≡ (j, c)
  unfolding jrnl_flush_pending_rx flushed
  flush_frozen j c e =
      if-cases (λ (r : Code × (Journal × Card)). r.1 ≡ (j, c)) (length j.pending == 0) _ _
        (λ z. refl) (λ z. ap (λ r. (flushed D r).1) (append_frozen evt_rx_bytes j.pending j c e))

  owner_frozen :
      (owner : ℕ) (acquired : Bool) (j : Journal) (c : Card)
      → j.replaying ≡ true
      → (journal_capture_io_owner D owner acquired j c).1 ≡ (j, c)
  unfolding journal_capture_io_owner
  owner_frozen owner acquired j c e =
      let payload = owner ∷ (if acquired then 1 else 0) ∷ [] in
      if-cases (λ (r : Code × (Journal × Card)). r.1 ≡ (j, c)) (is_off j) _ _ (λ z. refl)
        (λ z.
          ap (λ q. (jrnl_append_record D evt_io_owner payload q.0 q.1).1) (flush_frozen j c e)
          ∙ ap (λ r. r.1) (append_frozen evt_io_owner payload j c e))

module _ (D : BlockDevice) (T : Terminal) where
  open D use {Card}

  capture_all_frozen :
      (bs : List ℕ) (w : World D T) → w.journal.replaying ≡ true → capture_all D T bs w ≡ w
  unfolding capture_all
  capture_all_frozen [] w e = refl
  capture_all_frozen (b ∷ bs) w e =
      ap (λ r. capture_all D T bs (record w { journal = r.0; card = r.1 }))
        (capture_frozen D b w.journal w.card e)
      ∙ capture_all_frozen bs w e

  -- What a replayed record of bytes does to the journal: it counts the bytes that the terminal was given,
  -- and the terminal's reading of them does not count them down.
  pub replay_bytes_lem :
      (payload : List ℕ) (w : World D T)
      → w.journal.replaying ≡ true
      → let taken = T.inject payload w.terminal in
        replay_bytes D T payload w ≡ (record {
          journal = record w.journal {
            suppress_rx_bytes = (w.journal.suppress_rx_bytes + taken.0) % 2 ^ 32;
          };
          card = w.card;
          terminal = (T.drain taken.1).1;
        })
  unfolding replay_bytes
  replay_bytes_lem payload w e = capture_all_frozen _ _ e

  -- The journal and the blocks of the card are as they were, but for the count of bytes to pass over.
  pub record Kept (j : Journal) (c : Card) (w : World D T) : Type 0 where
    pub same : w.journal ≡ (record j { suppress_rx_bytes = w.journal.suppress_rx_bytes })
    pub same_card : (x : ℕ) → D.content w.card x ≡ D.content c x

  module _ (j : Journal) (c : Card) (on : j.replaying ≡ true) where
    unfoldable pub K : World D T → Type 0
    K w = Kept j c w

    replaying_lem : (w : World D T) → Kept j c w → w.journal.replaying ≡ true
    replaying_lem w k = ap (λ q. q.replaying) k.same ∙ on

    capture_owner-K :
        (owner : ℕ) (acquired : Bool) (r : Bool × T.State) (w : World D T)
        → K w
        → K (capture_owner D T owner acquired r w)
    unfolding capture_owner K
    capture_owner-K owner acquired (false, t) w k = record {
      same = k.same;
      same_card = k.same_card;
    }
    capture_owner-K owner acquired (true, t) w k =
        let frozen = owner_frozen D owner acquired w.journal w.card (replaying_lem w k) in
        subst (λ q. Kept j c (record { journal = q.0; card = q.1; terminal = t })) (sym frozen)
          (record { same = k.same; same_card = k.same_card })

    replay_entry-K : (e : Entry) (w : World D T) → K w → K (replay_entry D T e w)
    unfolding replay_entry replay_owner K
    replay_entry-K e w k =
        if-cases K (e.event_type == evt_rx_bytes) _ _
          (λ t. subst K (sym (replay_bytes_lem e.payload w (replaying_lem w k))) (record {
            same =
                ap
                  (passing
                    ((w.journal.suppress_rx_bytes + (T.inject e.payload w.terminal).0) % 2 ^ 32))
                  k.same;
            same_card = k.same_card;
          }))
          (λ t.
            if-cases K ((e.event_type == evt_io_owner) && leb 2 (length e.payload)) _ _
              (λ u.
                if-cases K (get_or e.payload 1 0 % 2 == 1) _ _
                  (λ v.
                    capture_owner-K (get_or e.payload 0 0) true
                      (T.acquire (get_or e.payload 0 0) w.terminal) w k)
                  (λ v.
                    capture_owner-K (get_or e.payload 0 0) false
                      (T.release (get_or e.payload 0 0) w.terminal) w k))
              (λ u. k))

    module _ (law : IsLawful D) where
      read-K : (lba : ℕ) (w : World D T) → K w → K (record w { card = (D.read lba w.card).1 })
      unfolding K
      read-K lba w k = record {
        same = k.same;
        same_card = λ x. law.content-read w.card lba x ∙ k.same_card x;
      }

      due-K : (seq : ℕ) (e : Entry) (w : World D T) → K w → K (replay_if_due D T seq e w)
      unfolding replay_if_due
      due-K seq e w k =
          if-cases K (ltb e.snap_seq_base seq) _ _ (λ t. k) (λ t. replay_entry-K e w k)

      on_block-K :
          (r : ReadResult) (stop : World D T) (next : List ℕ → World D T)
          → K stop
          → ((b : List ℕ) → K (next b))
          → K (on_block r stop next)
      on_block-K (got b) stop next k h = h b
      on_block-K (failed n) stop next k h = k

      on_entry-K :
          (o : Option Entry) (stop : World D T) (next : Entry → World D T)
          → K stop
          → ((e : Entry) → K (next e))
          → K (on_entry D T o stop next)
      unfolding on_entry
      on_entry-K none stop next k h = k
      on_entry-K (some e) stop next k h = h e

      elim_order : (b : Bool) (x y : World D T) → K x → K y → K (elim b [ false ↦ x | true ↦ y ])
      elim_order true x y kx ky = ky
      elim_order false x y kx ky = kx

      pub replay_from-K :
          (n seq from i : ℕ) (prev : Option ℕ) (again : World D T → World D T) (w : World D T)
          → ((x : World D T) → K x → K (again x))
          → K w
          → K (replay_from D T n seq from i prev again w)
      unfolding replay_from
      replay_from-K zero seq from i prev again w ag k = k
      replay_from-K (suc n) seq from i prev again w ag k =
          let lba = (w.journal.start_lba + (from + i) % w.journal.blocks) % 2 ^ 32 in
          let w₁ = record w { card = (D.read lba w.card).1 } in
          let k₁ = read-K lba w k in
          on_block-K (D.read lba w.card).0 w₁ _ k₁ (λ b.
            on_entry-K (jrnl_block_validate b) _ _
              (if-cases K ((i == 0) && not (from == 0)) _ _ (λ t. ag w₁ k₁) (λ t. k₁))
              (λ e. elim_order (in_order D T prev e) w₁ _ k₁ (
                replay_from-K n seq from (i + 1) (some e.rec_seq) again (replay_if_due D T seq e w₁)
                  ag (due-K seq e w₁ k₁))))
