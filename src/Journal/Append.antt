-- ===== src/Journal/Append.antt =====
-- A record that is appended becomes the newest of the ring, and takes the place of the oldest.
use mathlib.Core.Path.{subst}
use native.Mathlib.Decide.{ℕ_discrete}
use rewind_os.Base.{
  ℕ, ◌+◌, ◌-◌, ◌%◌, ◌^◌, ◌<◌, ◌≡◌, ◌≢◌, ◌⊎◌, inl, inr, refl, sym, ap, ◌∙◌, Bool, true, false, not,
  ◌||◌, Option, some, if-cases,
}
use rewind_os.Base.{List, if◌then◌else◌, leb, arith}
use rewind_os.Media.{Code, ok, err, BlockDevice, IsLawful}
use rewind_os.Media.Ready.{media_ready, content-media_ready}
use rewind_os.Journal.{Entry, Journal, block_of, jrnl_block_validate}
use rewind_os.Journal.Block.{IsEntry, jrnl_block_validate-block_of}
use rewind_os.Journal.Calls.{
  is_off, next_place, next_entry, jrnl_append_record, append_ready, append_with, store_with,
  jrnl_scan_tail,
}
use rewind_os.Journal.Newest.{Numbered}
use rewind_os.Journal.Ring.{IsRing, IsSettled}

module _ (size : ℕ) (v w : ℕ → Option Entry) (next : ℕ) (bound : next + 1 < 2 ^ 31) where
  numbered_same : (seq r : ℕ) → w r ≡ v r → Numbered (v r) seq → Numbered (w r) seq
  numbered_same seq r e h = subst (λ o. Numbered o seq) (sym e) h

  -- The next block is not the first one again.
  end_moves :
      (place : ℕ) (full : Bool)
      → IsRing size v place next full
      → Numbered (w place) next
      → ((r : ℕ) → r < size → place ≢ r → w r ≡ v r)
      → place + 1 < size
      → IsRing size w (place + 1) (next + 1) full
  end_moves place full ring new same lt = record {
    inside = lt;
    small = bound;
    recent = λ r rt. elim (ℕ_discrete place r) [
      | yes e ↦ (next, (omega arith, subst (λ x. Numbered (w x) next) e new))
      | no ne ↦
          (let o = ring.recent r (omega arith) in
            let eq = o.1.0 in
            (o.0, (omega arith, numbered_same o.0 r (same r (omega arith) ne) o.1.1)))
    ];
    older = λ f r le rt.
        (let o = ring.older f r (omega arith) rt in
          let eq = o.1.0 in
          (o.0, (omega arith, numbered_same o.0 r (same r rt (omega arith)) o.1.1)));
    unused = λ f r le rt. same r rt (omega arith) ∙ ring.unused f r (omega arith) rt;
    counted = λ f. (let n = ring.counted f in omega arith);
    numbered = (let n = ring.numbered in omega arith);
    numbered_full = λ f. (let n = ring.numbered_full f in omega arith);
  }

  -- It is the first one again.
  end_wraps :
      (place : ℕ) (full : Bool)
      → IsRing size v place next full
      → Numbered (w place) next
      → ((r : ℕ) → r < size → place ≢ r → w r ≡ v r)
      → place + 1 ≡ size
      → IsRing size w 0 (next + 1) true
  end_wraps place full ring new same e = record {
    inside = omega arith;
    small = bound;
    recent = λ r rt. absurd (omega arith);
    older = λ f r le rt. elim (ℕ_discrete place r) [
      | yes h ↦ (next, (omega arith, subst (λ x. Numbered (w x) next) h new))
      | no ne ↦
          (let o = ring.recent r (omega arith) in
            let eq = o.1.0 in (o.0, (omega arith, numbered_same o.0 r (same r rt ne) o.1.1)))
    ];
    unused = λ f. absurd (cc);
    counted = λ f. absurd (cc);
    numbered = omega arith;
    numbered_full = λ f. (let n = ring.numbered in omega arith);
  }

module _ (D : BlockDevice) (law : IsLawful D) where
  open D use {Card}

  -- A record that was written without an error.
  record Stored (typ : ℕ) (payload : List ℕ) (j : Journal) (c : Card) (r : Code × (Journal × Card))
      : Type 0 where
    before : Card
    same_card : (x : ℕ) → D.content before x ≡ D.content c x
    wrote : (D.write j.next_lba (block_of (next_entry D typ payload j)) before).0 ≡ ok
    new_card : r.1.1 ≡ (D.write j.next_lba (block_of (next_entry D typ payload j)) before).1
    new_state : r.1.0 ≡ (record j {
      next_lba = next_place j;
      next_seq = (j.next_seq + 1) % 2 ^ 32;
      last_err = ok;
    })

  IfOk : ℕ → List ℕ → Journal → Card → Code × (Journal × Card) → Type 0
  IfOk typ payload j c r = r.0 ≡ ok → Stored typ payload j c r

  store_with-IfOk :
      (typ : ℕ) (payload : List ℕ) (j : Journal) (c before : Card) (r : Code × Card)
      → ((x : ℕ) → D.content before x ≡ D.content c x)
      → r ≡ D.write j.next_lba (block_of (next_entry D typ payload j)) before
      → IfOk typ payload j c (store_with D j r)
  unfolding IfOk store_with
  store_with-IfOk typ payload j c before (ok, c') same e = λ done. record {
    before = before;
    same_card = same;
    wrote = ap (λ q. q.0) (sym e);
    new_card = ap (λ q. q.1) e;
    new_state = refl;
  }
  store_with-IfOk typ payload j c before (err n, c') same e = λ done. cc

  append_with-IfOk :
      (typ : ℕ) (payload : List ℕ) (j : Journal) (c : Card) (r : Code × Card)
      → ((x : ℕ) → D.content r.1 x ≡ D.content c x)
      → IfOk typ payload j c (append_with D typ payload j r)
  unfolding IfOk append_with
  append_with-IfOk typ payload j c (ok, c') same =
      store_with-IfOk typ payload j c c'
        (D.write j.next_lba (block_of (next_entry D typ payload j)) c') same refl
  append_with-IfOk typ payload j c (err n, c') same = λ done. cc

  append_ready-IfOk :
      (typ : ℕ) (payload : List ℕ) (j : Journal) (c : Card)
      → IfOk typ payload j c (append_ready D typ payload (j, c))
  unfolding append_ready IfOk
  append_ready-IfOk typ payload j c =
      if-cases (IfOk typ payload j c) (not j.scan_ready) _ _ (λ e done. cc)
        (λ e.
          if-cases (IfOk typ payload j c) (D.busy c) _ _ (λ f done. cc)
            (λ f. append_with-IfOk typ payload j c (media_ready D c) (content-media_ready D law c)))

  append-IfOk :
      (typ : ℕ) (payload : List ℕ) (j : Journal) (c : Card)
      → j.scan_ready ≡ true
      → IfOk typ payload j c (jrnl_append_record D typ payload j c)
  unfolding jrnl_append_record IfOk
  append-IfOk typ payload j c ready =
      let skip : (if j.scan_ready then (j, c) else jrnl_scan_tail D j c) ≡ (j, c) =
        ap (λ b. if b then (j, c) else jrnl_scan_tail D j c) ready in
      if-cases (IfOk typ payload j c) (is_off j || j.replaying) _ _ (λ e done. cc)
        (λ e.
          subst (λ q. IfOk typ payload j c (append_ready D typ payload q)) (sym skip)
            (append_ready-IfOk typ payload j c))

  next_place_lem :
      (full : Bool) (j : Journal) (c : Card) (st : IsSettled D full j c)
      → (st.place + 1 < j.blocks) × (next_place j ≡ j.start_lba + (st.place + 1))
        ⊎ (st.place + 1 ≡ j.blocks) × (next_place j ≡ j.start_lba + 0)
  unfolding next_place
  next_place_lem full j c st =
      let at = st.at_place in
      let fits = st.fits in
      let inside = st.is_ring.inside in
      elim (ℕ_discrete (st.place + 1) j.blocks) [
        | yes e ↦
            (let t : leb ((j.start_lba + j.blocks + 2 ^ 32 - 1) % 2 ^ 32) j.next_lba ≡ true =
                ground arith in
              inr (e, ground arith))
        | no ne ↦
            (let t : leb ((j.start_lba + j.blocks + 2 ^ 32 - 1) % 2 ^ 32) j.next_lba ≡ false =
                ground arith in
              inl (omega arith, ground arith))
      ]

  settled :
      (full : Bool) (j : Journal) (c : Card)
      → (st : IsSettled D full j c) → j.next_seq + 1 < 2 ^ 31
      → (k : Journal) (d : Card)
      → k ≡ (record j {
        next_lba = next_place j;
        next_seq = (j.next_seq + 1) % 2 ^ 32;
        last_err = ok;
      })
      → (e : Entry)
      → (jrnl_block_validate (D.content d j.next_lba) ≡ some e) × (e.rec_seq ≡ j.next_seq)
      → ((x : ℕ) → j.next_lba ≢ x → D.content d x ≡ D.content c x)
      → (full' : Bool) × IsSettled D full' k d
  settled full j c st bound k d new e (here, seq) others =
      let at = st.at_place in
      let fits = st.fits in
      let v = λ (r : ℕ). jrnl_block_validate (D.content c (j.start_lba + r)) in
      let w = λ (r : ℕ). jrnl_block_validate (D.content d (j.start_lba + r)) in
      let first : Numbered (w st.place) j.next_seq =
        (e, (ap (λ a. jrnl_block_validate (D.content d a)) (sym at) ∙ here, seq)) in
      let same = λ (r : ℕ) (lt : r < j.blocks) (ne : st.place ≢ r).
        ap jrnl_block_validate (others (j.start_lba + r) (omega arith)) in
      let j' = record j {
        next_lba = next_place j;
        next_seq = (j.next_seq + 1) % 2 ^ 32;
        last_err = ok;
      } in
      let count : j.next_seq + 1 ≡ (j.next_seq + 1) % 2 ^ 32 = omega arith in
      let to =
        λ (f : Bool) (p : ℕ) (ring : IsRing j.blocks w p (j.next_seq + 1) f)
            (next : next_place j ≡ j.start_lba + p).
          subst (λ q. IsSettled D f q d) (sym new)
            (record {
              place = p;
              is_ring = subst (λ n. IsRing j.blocks w p n f) count ring;
              at_place = next;
              fits = fits;
              is_ready = st.is_ready;
            }) in
      elim (next_place_lem full j c st) [
        | inl (lt, next) ↦ (
          full,
          to full (st.place + 1)
              (end_moves j.blocks v w j.next_seq bound st.place full st.is_ring first same lt) next,
        )
        | inr (eq, next) ↦ (
          true,
          to true 0 (end_wraps j.blocks v w j.next_seq bound st.place full st.is_ring first same eq)
              next,
        )
      ]

  -- A record that is appended without an error to a ring that the journal knows the end of is stored at the
  -- end and is the newest of the ring: what is read back there is the record. The other blocks are as they
  -- were, and the journal knows the new end. The record's number stays below 2 ^ 31, its fields are words, its
  -- payload has at most 468 bytes.
  pub append-IsSettled :
      (typ : ℕ) (payload : List ℕ) (full : Bool) (j : Journal) (c : Card)
      → IsSettled D full j c
      → IsEntry (next_entry D typ payload j)
      → j.next_seq + 1 < 2 ^ 31
      → let r = jrnl_append_record D typ payload j c in
        r.0 ≡ ok
        → (jrnl_block_validate (D.content r.1.1 j.next_lba) ≡ some (next_entry D typ payload j))
          × (((x : ℕ) → j.next_lba ≢ x → D.content r.1.1 x ≡ D.content c x)
              × ((full' : Bool) × IsSettled D full' r.1.0 r.1.1))
  unfolding IfOk
  append-IsSettled typ payload full j c st entry bound done =
      let s = append-IfOk typ payload j c st.is_ready done in
      let e = next_entry D typ payload j in
      let r = jrnl_append_record D typ payload j c in
      let here : jrnl_block_validate (D.content r.1.1 j.next_lba) ≡ some e =
        ap (λ d. jrnl_block_validate (D.content d j.next_lba)) s.new_card
        ∙ ap jrnl_block_validate (law.content-write s.before j.next_lba (block_of e) s.wrote)
        ∙ jrnl_block_validate-block_of e entry in
      let others = λ (x : ℕ) (ne : j.next_lba ≢ x).
        ap (λ d. D.content d x) s.new_card
        ∙ law.content-write_ne s.before j.next_lba (block_of e) x ne
        ∙ s.same_card x in
      (here, (others, settled full j c st bound r.1.0 r.1.1 s.new_state e (here, refl) others))
