-- ===== src/Journal/Calls.antt =====
-- src/common_io/journal.c: the scan, the records that are written, and what is captured. `D` is the driver of
-- the card. The messages on the UART are not modelled; a result of `none` is a kernel panic. The panic of a
-- payload that is too large is left out here and written out in Journal.Checked.
use rewind_os.Base.{
  ℕ, zero, suc, ◌+◌, ◌-◌, ◌%◌, ◌^◌, Bool, true, false, ◌||◌, not, Option, none, some,
}
use rewind_os.Base.{List, [], ◌∷◌, ◌++◌, length, ltb, leb, ◌==◌, if◌then◌else◌}
use rewind_os.Media.{Code, ok, err, ReadResult, got, failed, BlockDevice}
use rewind_os.Media.Ready.{media_ready}
use rewind_os.Journal.{
  Entry, Journal, block_of, jrnl_block_validate, jrnl_seq_newer, evt_rx_bytes, evt_io_owner,
}

abbrev pub sched_err_full : Code
sched_err_full = err 2

abbrev pub sched_err_disabled : Code
sched_err_disabled = err 6

abbrev pub pending_cap : ℕ
pending_cap = 64

abbrev pub journal_blocks_max : ℕ
journal_blocks_max = 4096

-- Not configured, or of no blocks.
abbrev pub is_off : Journal → Bool
is_off j = not j.configured || (j.blocks == 0)

-- The newest record so far, and its place in the ring.
unfoldable pub newest_of : Option Entry → ℕ → Option (ℕ × ℕ) → Option (ℕ × ℕ)
newest_of none i best = best
newest_of (some e) i none = some (e.rec_seq, i)
newest_of (some e) i (some (seq, k)) =
    if jrnl_seq_newer e.rec_seq seq then some (e.rec_seq, i) else some (seq, k)

unfoldable pub next_place : Journal → ℕ
next_place j =
    if leb ((j.start_lba + j.blocks + 2 ^ 32 - 1) % 2 ^ 32) j.next_lba
    then j.start_lba
    else (j.next_lba + 1) % 2 ^ 32

-- One more record was dropped, with an error that is kept.
unfoldable pub drop_one : Journal → Journal
drop_one j = record j { dropped = (j.dropped + 1) % 2 ^ 32 }

-- The scan is over: the next record comes after the newest one.
unfoldable pub scanned : Option (ℕ × ℕ) → Journal → Journal
scanned none j = record j { next_seq = 1; next_lba = j.start_lba; scan_ready = true; last_err = ok }
scanned (some (seq, i)) j = record j {
  next_seq = (seq + 1) % 2 ^ 32;
  next_lba = (j.start_lba + (i + 1) % 2 ^ 32 % j.blocks) % 2 ^ 32;
  scan_ready = true;
  last_err = ok;
}

-- What follows a read that succeeds, or else.
abbrev pub on_block {ℓ} : {A : Type ℓ} → ReadResult → A → (List ℕ → A) → A
on_block (got b) stop next = next b
on_block (failed n) stop next = stop

module _ (D : BlockDevice) where
  open D use {Card}

  -- The blocks from `i` on, `n` of them; it stops at the first that cannot be read.
  unfoldable pub scan_from : ℕ → ℕ → ℕ → Option (ℕ × ℕ) → Card → Option (ℕ × ℕ) × Card
  scan_from zero start i best c = (best, c)
  scan_from (suc n) start i best c =
      let read = D.read ((start + i) % 2 ^ 32) c in
      on_block read.0 (best, read.1)
        (λ b. scan_from n start (i + 1) (newest_of (jrnl_block_validate b) i best) read.1)

  unfoldable pub scan_with : Journal → Code × Card → Journal × Card
  scan_with j (ok, c) =
      let found = scan_from j.blocks j.start_lba 0 none c in (scanned found.0 j, found.1)
  scan_with j (err n, c) =
      (record j { last_err = err n; next_seq = 1; next_lba = j.start_lba; scan_ready = true }, c)

  unfoldable pub jrnl_scan_tail : Journal → Card → Journal × Card
  jrnl_scan_tail j c =
      let j₁ = record j { scan_ready = false } in
      if is_off j then (j₁, c) else scan_with j₁ (media_ready D c)

  unfoldable pub store_with : Journal → Code × Card → Code × (Journal × Card)
  store_with j (ok, c) = (
    ok,
    (record j { next_lba = next_place j; next_seq = (j.next_seq + 1) % 2 ^ 32; last_err = ok }, c),
  )
  store_with j (err n, c) = (err n, (record (drop_one j) { last_err = err n }, c))

  abbrev pub next_entry : ℕ → List ℕ → Journal → Entry
  next_entry typ payload j = record {
    rec_seq = j.next_seq;
    snap_seq_base = j.last_snapshot_seq;
    event_type = typ;
    payload = payload;
  }

  unfoldable pub append_with : ℕ → List ℕ → Journal → Code × Card → Code × (Journal × Card)
  append_with typ payload j (ok, c) =
      store_with j (D.write j.next_lba (block_of (next_entry typ payload j)) c)
  append_with typ payload j (err n, c) = (err n, (record (drop_one j) { last_err = err n }, c))

  unfoldable pub append_ready : ℕ → List ℕ → Journal × Card → Code × (Journal × Card)
  append_ready typ payload (j, c) =
      if not j.scan_ready
      then (sched_err_disabled, (j, c))
      else (if D.busy c
          then (sched_err_disabled, (drop_one j, c))
          else append_with typ payload j (media_ready D c))

  unfoldable pub jrnl_append_record : ℕ → List ℕ → Journal → Card → Code × (Journal × Card)
  jrnl_append_record typ payload j c =
      if is_off j || j.replaying
      then (sched_err_disabled, (j, c))
      else append_ready typ payload (if j.scan_ready then (j, c) else jrnl_scan_tail j c)

  unfoldable pub flushed : Code × (Journal × Card) → Code × (Journal × Card)
  flushed (ok, (j, c)) = (ok, (record j { pending = [] }, c))
  flushed (err n, r) = (err n, r)

  unfoldable pub jrnl_flush_pending_rx : Journal → Card → Code × (Journal × Card)
  jrnl_flush_pending_rx j c =
      if length j.pending == 0
      then (ok, (j, c))
      else flushed (jrnl_append_record evt_rx_bytes j.pending j c)

  -- The state at the start, before the count of blocks is looked at.
  unfoldable pub cleared : ℕ → ℕ → Journal → Journal
  cleared start seq j = record j {
    configured = false;
    scan_ready = false;
    replaying = false;
    pending = [];
    suppress_rx_bytes = 0;
    last_snapshot_seq = seq;
    start_lba = start;
    next_lba = start;
    next_seq = 1;
    last_err = ok;
    dropped = 0;
  }

  unfoldable pub journal_configure : ℕ → ℕ → ℕ → Journal → Card → Option (Journal × Card)
  journal_configure start blocks seq j c =
      let j₁ = cleared start seq j in
      if (blocks == 0) || ltb journal_blocks_max blocks
      then some (record j₁ { blocks = 0 }, c)
      else (if start == 0
          then none
          else (let j₂ = record j₁ { blocks = blocks; configured = true } in
              if seq == 0
              then some (record j₂ { scan_ready = true }, c)
              else some (jrnl_scan_tail j₂ c)))

  unfoldable pub journal_note_snapshot_seq : ℕ → Journal → Card → Journal × Card
  journal_note_snapshot_seq seq j c =
      let r = (jrnl_flush_pending_rx j c).1 in
      (if ltb r.0.last_snapshot_seq seq then record r.0 { last_snapshot_seq = seq } else r.0, r.1)

  -- The byte is kept, and written with the others when it ends a line.
  unfoldable pub keep_byte : ℕ → Journal × Card → Code × (Journal × Card)
  keep_byte b (j, c) =
      let j₁ = record j { pending = j.pending ++ (b ∷ []) } in
      if (b == 13) || (b == 10) then jrnl_flush_pending_rx j₁ c else (ok, (j₁, c))

  unfoldable pub keep_or_drop : ℕ → Journal × Card → Code × (Journal × Card)
  keep_or_drop b (j, c) =
      if leb pending_cap (length j.pending)
      then (sched_err_full, (drop_one j, c))
      else keep_byte b (j, c)

  unfoldable pub journal_capture_input_byte : ℕ → Journal → Card → Code × (Journal × Card)
  journal_capture_input_byte b j c =
      if is_off j || j.replaying
      then (sched_err_disabled, (j, c))
      else (if ltb 0 j.suppress_rx_bytes
          then (ok, (record j { suppress_rx_bytes = j.suppress_rx_bytes - 1 }, c))
          else (if leb pending_cap (length j.pending)
              then keep_or_drop b (jrnl_flush_pending_rx j c).1
              else keep_byte b (j, c)))

  unfoldable pub journal_capture_io_owner : ℕ → Bool → Journal → Card → Code × (Journal × Card)
  journal_capture_io_owner owner acquired j c =
      if is_off j
      then (sched_err_disabled, (j, c))
      else (let r = (jrnl_flush_pending_rx j c).1 in
          jrnl_append_record evt_io_owner (owner ∷ (if acquired then 1 else 0) ∷ []) r.0 r.1)
