-- ===== src/Journal/Pending.antt =====
-- The bytes that wait to be written: they fit their buffer, and the payload of the record that they make.
use rewind_os.Base.{ℕ, ◌≤◌, ◌<◌, ◌≡◌, refl, ◌∙◌, false, not, ◌||◌, Option, none, some, if-cases}
use rewind_os.Base.{List, [], ◌∷◌, ◌++◌, ◌==◌, leb, ltb, arith, length, length-append}
use rewind_os.Media.{Code, ok, err, BlockDevice}
use rewind_os.Media.Ready.{media_ready}
use rewind_os.Journal.{Journal, block_of, evt_rx_bytes}
use rewind_os.Journal.Calls.{
  is_off, next_entry, scanned, scan_with, jrnl_scan_tail, store_with, append_with, append_ready,
  jrnl_append_record, drop_one, flushed, jrnl_flush_pending_rx, keep_byte, keep_or_drop,
  journal_capture_input_byte,
}
use rewind_os.Base.{ap, Bool-cases, inl, inr}
use rewind_os.Journal.Checked.{
  append_checked, flushed_checked, flush_checked, keep_checked, after_flush, capture_checked,
}

module _ (D : BlockDevice) where
  open D use {Card}

  -- The same bytes wait.
  Same : List ℕ → Journal × Card → Type 0
  Same p r = r.0.pending ≡ p

  SameOf : List ℕ → Code × (Journal × Card) → Type 0
  SameOf p r = Same p r.1

  scanned_pending : (o : Option (ℕ × ℕ)) (j : Journal) → (scanned o j).pending ≡ j.pending
  unfolding scanned
  scanned_pending none j = refl
  scanned_pending (some (seq, i)) j = refl

  scan_with-Same : (j : Journal) (r : Code × Card) → Same j.pending (scan_with D j r)
  unfolding scan_with Same
  scan_with-Same j (ok, c) = scanned_pending _ j
  scan_with-Same j (err n, c) = refl

  scan_tail-Same : (j : Journal) (c : Card) → Same j.pending (jrnl_scan_tail D j c)
  unfolding jrnl_scan_tail Same
  scan_tail-Same j c =
      if-cases (Same j.pending) (is_off j) _ _ (λ e. refl)
        (λ e. scan_with-Same (record j { scan_ready = false }) (media_ready D c))

  store_with-Same : (j : Journal) (r : Code × Card) → SameOf j.pending (store_with D j r)
  unfolding store_with SameOf Same drop_one
  store_with-Same j (ok, c) = refl
  store_with-Same j (err n, c) = refl

  append_with-Same :
      (typ : ℕ) (payload : List ℕ) (j : Journal) (r : Code × Card)
      → SameOf j.pending (append_with D typ payload j r)
  unfolding append_with SameOf Same drop_one
  append_with-Same typ payload j (ok, c) =
      store_with-Same j (D.write j.next_lba (block_of (next_entry D typ payload j)) c)
  append_with-Same typ payload j (err n, c) = refl

  append_ready-Same :
      (typ : ℕ) (payload p : List ℕ) (r : Journal × Card)
      → Same p r
      → SameOf p (append_ready D typ payload r)
  unfolding append_ready SameOf Same drop_one
  append_ready-Same typ payload p (j, c) e =
      if-cases (SameOf p) (not j.scan_ready) _ _ (λ f. e)
        (λ f.
          if-cases (SameOf p) (D.busy c) _ _ (λ g. e)
            (λ g. append_with-Same typ payload j (media_ready D c) ∙ e))

  append-Same :
      (typ : ℕ) (payload : List ℕ) (j : Journal) (c : Card)
      → SameOf j.pending (jrnl_append_record D typ payload j c)
  unfolding jrnl_append_record SameOf Same
  append-Same typ payload j c =
      if-cases (SameOf j.pending) (is_off j || j.replaying) _ _ (λ e. refl)
        (λ e.
          append_ready-Same typ payload j.pending _
            (if-cases (Same j.pending) j.scan_ready _ _ (λ f. refl) (λ f. scan_tail-Same j c)))

  -- The buffer holds what waits.
  Fits : Journal × Card → Type 0
  Fits r = length (r.0.pending) ≤ 64

  FitsOf : Code × (Journal × Card) → Type 0
  FitsOf r = Fits r.1

  flushed-Fits : (r : Code × (Journal × Card)) → FitsOf r → FitsOf (flushed D r)
  unfolding flushed FitsOf Fits
  flushed-Fits (ok, (j, c)) h = omega arith
  flushed-Fits (err n, r) h = h

  flush-Fits :
      (j : Journal) (c : Card) → length j.pending ≤ 64 → FitsOf (jrnl_flush_pending_rx D j c)
  unfolding jrnl_flush_pending_rx FitsOf Fits SameOf Same
  flush-Fits j c le =
      let same = append-Same evt_rx_bytes j.pending j c in
      if-cases FitsOf (length j.pending == 0) _ _ (λ e. le)
        (λ e. flushed-Fits (jrnl_append_record D evt_rx_bytes j.pending j c) (rw same le))

  keep_byte-Fits :
      (b : ℕ) (r : Journal × Card) → length (r.0.pending) < 64 → FitsOf (keep_byte D b r)
  unfolding keep_byte FitsOf Fits
  keep_byte-Fits b (j, c) lt =
      let j₁ = record j { pending = j.pending ++ (b ∷ []) } in
      let le : length (j.pending ++ (b ∷ [])) ≤ 64 =
        omega (arith, length-append j.pending (b ∷ [])) in
      if-cases FitsOf ((b == 13) || (b == 10)) _ _ (λ e. flush-Fits j₁ c le) (λ e. le)

  keep_or_drop-Fits : (b : ℕ) (r : Journal × Card) → Fits r → FitsOf (keep_or_drop D b r)
  unfolding keep_or_drop FitsOf Fits drop_one
  keep_or_drop-Fits b (j, c) le =
      if-cases FitsOf (leb 64 (length j.pending)) _ _ (λ e. le)
        (λ e. keep_byte-Fits b (j, c) (ground arith))

  append_checked_lem :
      (typ : ℕ) (payload : List ℕ) (j : Journal) (c : Card)
      → length payload ≤ 64
      → append_checked D typ payload j c ≡ some (jrnl_append_record D typ payload j c)
  unfolding append_checked
  append_checked_lem typ payload j c le =
      let small : ltb 468 (length payload) ≡ false = ground arith in rw small refl

  flush_checked_lem :
      (j : Journal) (c : Card)
      → length j.pending ≤ 64
      → flush_checked D j c ≡ some (jrnl_flush_pending_rx D j c)
  unfolding flush_checked jrnl_flush_pending_rx flushed_checked
  flush_checked_lem j c le =
      let written = append_checked_lem evt_rx_bytes j.pending j c le in
      elim (Bool-cases (length j.pending == 0)) [
        | inl e ↦ rw e refl
        | inr e ↦ rw (e, written, flushed_checked) refl
      ]

  keep_checked_lem :
      (b : ℕ) (r : Journal × Card)
      → length (r.0.pending) < 64
      → keep_checked D b r ≡ some (keep_byte D b r)
  unfolding keep_checked keep_byte
  keep_checked_lem b (j, c) lt =
      let j₁ = record j { pending = j.pending ++ (b ∷ []) } in
      let flushes = flush_checked_lem j₁ c (omega (arith, length-append j.pending (b ∷ []))) in
      elim (Bool-cases ((b == 13) || (b == 10))) [ inl e ↦ rw e flushes | inr e ↦ rw e refl ]

  after_flush_lem :
      (b : ℕ) (r : Code × (Journal × Card)) → after_flush D b (some r) ≡ some (keep_or_drop D b r.1)
  unfolding after_flush keep_or_drop
  after_flush_lem b (rc, (j, c)) = elim (Bool-cases (leb 64 (length j.pending))) [
    | inl e ↦ rw e refl
    | inr e ↦ rw e (keep_checked_lem b (j, c) (ground arith))
  ]

  capture_checked_lem :
      (b : ℕ) (j : Journal) (c : Card)
      → length j.pending ≤ 64
      → capture_checked D b j c ≡ some (journal_capture_input_byte D b j c)
  unfolding capture_checked journal_capture_input_byte
  capture_checked_lem b j c le = elim (Bool-cases (is_off j || j.replaying)) [
    | inl e ↦ rw e refl
    | inr on ↦ elim (Bool-cases (ltb 0 j.suppress_rx_bytes)) [
      | inl e ↦ rw (on, e) refl
      | inr new ↦ elim (Bool-cases (leb 64 (length j.pending))) [
        | inl e ↦
            rw (on, new, e)
              (ap (after_flush D b) (flush_checked_lem j c le)
                ∙ after_flush_lem b (jrnl_flush_pending_rx D j c))
        | inr e ↦ rw (on, new, e) (keep_checked_lem b (j, c) (ground arith))
      ]
    ]
  ]

  capture_bound :
      (b : ℕ) (j : Journal) (c : Card)
      → length j.pending ≤ 64
      → length ((journal_capture_input_byte D b j c).1.0.pending) ≤ 64
  unfolding journal_capture_input_byte FitsOf Fits
  capture_bound b j c le =
      if-cases FitsOf (is_off j || j.replaying) _ _ (λ e. le)
        (λ e.
          if-cases FitsOf (ltb 0 j.suppress_rx_bytes) _ _ (λ f. le)
            (λ f.
              if-cases FitsOf (leb 64 (length j.pending)) _ _
                (λ g. keep_or_drop-Fits b (jrnl_flush_pending_rx D j c).1 (flush-Fits j c le))
                (λ g. keep_byte-Fits b (j, c) (ground arith))))

  -- Whatever byte is captured, in whatever state, at most 64 bytes wait afterwards if at most 64 waited before,
  -- and the panic of `jrnl_append_record` on a payload above 468 bytes does not come: with the panic
  -- written out the capture returns, and what it returns is the same.
  pub capture_fits :
      (b : ℕ) (j : Journal) (c : Card)
      → length j.pending ≤ 64
      → (length ((journal_capture_input_byte D b j c).1.0.pending) ≤ 64)
        × (capture_checked D b j c ≡ some (journal_capture_input_byte D b j c))
  capture_fits b j c le = (capture_bound b j c le, capture_checked_lem b j c le)
