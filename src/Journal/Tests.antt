-- ===== src/Journal/Tests.antt =====
-- The theorems on the journal at a ring of four blocks in memory.
use rewind_os.Base.{
  ℕ, ◌≤◌, ◌≡◌, ◌≢◌, refl, Bool, true, false, none, some, List, [], ◌∷◌, ◌++◌, length, arith,
}
use rewind_os.Media.{Code, ok}
use rewind_os.Media.Words.{words}
use rewind_os.Media.Ready.{media_ready, ready_with, init_card}
use rewind_os.Media.Memory.{MemoryCard, memory_card, memory_card-IsLawful}
use rewind_os.Disk.Crash.{Reads}
use rewind_os.Journal.{
  Entry, Journal, block_of, jrnl_block_validate, validate_words, block_ok, hdr_ok,
}
use rewind_os.Journal.Block.{IsEntry, jrnl_block_validate-block_of}
use rewind_os.Journal.Calls.{
  next_entry, jrnl_append_record, append_ready, append_with, store_with, jrnl_scan_tail,
  journal_capture_input_byte,
}
use rewind_os.Journal.Ring.{IsSettled, jrnl_scan_tail-IsSettled}
use rewind_os.Journal.Append.{append-IsSettled}
use rewind_os.Journal.Checked.{capture_checked}
use rewind_os.Journal.Pending.{capture_fits}
use rewind_os.Journal.Replay.{Terminal, World, replay_bytes, replay_ring}
use rewind_os.Journal.Frozen.{off, passing}
use rewind_os.Journal.Typed.{replay_ring_lem, typed_after_replay}

abbrev entry : Entry
entry = record { rec_seq = 7; snap_seq_base = 2; event_type = 1; payload = b'l' ∷ b's' ∷ 13 ∷ [] }

entry-IsEntry : IsEntry entry
entry-IsEntry = record {
  seq_word = omega arith;
  base_word = omega arith;
  type_word = omega arith;
  payload_fits = omega arith;
}

jrnl_block_validate-block_of_example : jrnl_block_validate (block_of entry) ≡ some entry
jrnl_block_validate-block_of_example = jrnl_block_validate-block_of entry entry-IsEntry

memory_card-Reads : Reads memory_card
memory_card-Reads c lba = (c.blocks lba, refl)

abbrev blank_card : MemoryCard
blank_card = record { codes = []; size = 64; blocks = λ x. [] }

abbrev fresh : Journal
fresh = record {
  configured = true;
  scan_ready = true;
  replaying = false;
  pending = [];
  start_lba = 3;
  blocks = 4;
  next_lba = 3;
  next_seq = 1;
  last_snapshot_seq = 0;
  suppress_rx_bytes = 0;
  last_err = ok;
  dropped = 0;
}

blank_block : jrnl_block_validate [] ≡ none
unfolding jrnl_block_validate validate_words block_ok hdr_ok words
blank_block = refl

fresh-IsSettled : IsSettled memory_card false fresh blank_card
fresh-IsSettled = record {
  place = 0;
  is_ring = record {
    inside = omega arith;
    small = omega arith;
    recent = λ r lt. absurd (omega arith);
    older = λ f. absurd (cc);
    unused = λ f r le lt. blank_block;
    counted = λ f. omega arith;
    numbered = omega arith;
    numbered_full = λ f. absurd (cc);
  };
  at_place = omega arith;
  fits = omega arith;
  is_ready = refl;
}

abbrev payload : List ℕ
payload = b'l' ∷ b's' ∷ 13 ∷ []

abbrev after : Code × (Journal × MemoryCard)
after = jrnl_append_record memory_card 1 payload fresh blank_card

after_ok : after.0 ≡ ok
unfolding jrnl_append_record append_ready append_with store_with media_ready ready_with init_card
after_ok = refl

append-IsSettled_example :
    (jrnl_block_validate (after.1.1.blocks 3) ≡ some (next_entry memory_card 1 payload fresh))
    × (((x : ℕ) → 3 ≢ x → after.1.1.blocks x ≡ [])
        × ((full : Bool) × IsSettled memory_card full after.1.0 after.1.1))
append-IsSettled_example =
    append-IsSettled memory_card memory_card-IsLawful 1 payload false fresh blank_card
      fresh-IsSettled
      (record {
        seq_word = omega arith;
        base_word = omega arith;
        type_word = omega arith;
        payload_fits = omega arith;
      })
      (omega arith) after_ok

after_ready : (media_ready memory_card after.1.1).0 ≡ ok
unfolding media_ready ready_with init_card
after_ready = refl

after_ring : (after.1.0.start_lba ≡ 3) × (after.1.0.blocks ≡ 4)
unfolding jrnl_append_record append_ready append_with store_with media_ready ready_with init_card
after_ring = (refl, refl)

jrnl_scan_tail-IsSettled_example :
    let found = (jrnl_scan_tail memory_card fresh after.1.1).0 in
    (found.next_seq ≡ after.1.0.next_seq)
    × ((found.next_lba ≡ after.1.0.next_lba) × (found.scan_ready ≡ true))
jrnl_scan_tail-IsSettled_example =
    jrnl_scan_tail-IsSettled memory_card memory_card-IsLawful memory_card-Reads
      append-IsSettled_example.1.1.0 after.1.0 fresh after.1.1 append-IsSettled_example.1.1.1
      after_ready refl (omega (arith, after_ring.0)) (omega (arith, after_ring.1))

capture_fits_example :
    let out = journal_capture_input_byte memory_card b'x' fresh blank_card in
    (length (out.1.0.pending) ≤ 64) × (capture_checked memory_card b'x' fresh blank_card ≡ some out)
capture_fits_example = capture_fits memory_card b'x' fresh blank_card (omega arith)

-- A terminal that takes all bytes and reads all that it has.
abbrev line : Terminal
line = record {
  State = List ℕ;
  inject = λ bs s. (length bs, s ++ bs);
  drain = λ s. (s, []);
  acquire = λ owner s. (true, s);
  release = λ owner s. (true, s);
}

abbrev world : World memory_card line
world = record { journal = record fresh { replaying = true }; card = blank_card; terminal = [] }

replay_ring_lem_example :
    let done = replay_ring memory_card line 0 world in
    (done.journal
      ≡ (record fresh { suppress_rx_bytes = done.journal.suppress_rx_bytes; replaying = false }))
    × ((x : ℕ) → done.card.blocks x ≡ [])
replay_ring_lem_example = replay_ring_lem memory_card line memory_card-IsLawful 0 world

typed_after_replay_example :
    let done = replay_bytes memory_card line payload world in
    journal_capture_input_byte memory_card b'x' (off done.journal) done.card
    ≡ (ok, (passing 2 fresh, blank_card))
typed_after_replay_example =
    typed_after_replay memory_card line memory_card-IsLawful payload world 2 b'x' refl refl refl
      refl (omega arith)
