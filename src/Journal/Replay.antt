-- ===== src/Journal/Replay.antt =====
-- src/common_io/journal.c: `journal_replay_from_snapshot`. The terminal takes the bytes and the changes of
-- owner; what it does is a parameter, but for the bytes and owners that it hands back to the journal.
use rewind_os.Base.{
  ℕ, zero, suc, ◌+◌, ◌-◌, ◌%◌, ◌^◌, Bool, true, false, ◌&&◌, ◌||◌, not, Option, none, some,
}
use rewind_os.Base.{List, [], ◌∷◌, length, get_or, ltb, leb, ◌==◌, if◌then◌else◌}
use rewind_os.Media.{ReadResult, got, failed, BlockDevice}
use rewind_os.Journal.{
  Entry, Journal, jrnl_block_validate, jrnl_seq_newer, evt_rx_bytes, evt_io_owner,
}
use rewind_os.Journal.Calls.{
  on_block, journal_configure, jrnl_flush_pending_rx, journal_capture_input_byte,
  journal_capture_io_owner,
}

-- `inject` is `uart_async_inject_rx`, with the count of the bytes that it took; `drain` is
-- `terminal_replay_drain`, with the bytes that it reads and hands to `journal_capture_input_byte`; `acquire`
-- and `release` are `terminal_stdin_acquire` and `terminal_stdin_release`, which tell whether they call
-- `journal_capture_io_owner`.
pub record Terminal : Type 1 where
  pub State : Type 0
  pub inject : List ℕ → State → ℕ × State
  pub drain : State → List ℕ × State
  pub acquire : ℕ → State → Bool × State
  pub release : ℕ → State → Bool × State

module _ (D : BlockDevice) (T : Terminal) where
  open D use {Card}

  pub record World : Type 0 where
    pub journal : Journal
    pub card : Card
    pub terminal : T.State

  unfoldable pub capture_all : List ℕ → World → World
  capture_all [] w = w
  capture_all (b ∷ bs) w =
      let r = (journal_capture_input_byte D b w.journal w.card).1 in
      capture_all bs (record w { journal = r.0; card = r.1 })

  unfoldable pub capture_owner : ℕ → Bool → Bool × T.State → World → World
  capture_owner owner acquired (false, t) w = record w { terminal = t }
  capture_owner owner acquired (true, t) w =
      let r = (journal_capture_io_owner D owner acquired w.journal w.card).1 in
      record { journal = r.0; card = r.1; terminal = t }

  unfoldable pub replay_bytes : List ℕ → World → World
  replay_bytes payload w =
      let taken = T.inject payload w.terminal in
      let drained = T.drain taken.1 in
      let j = record w.journal {
        suppress_rx_bytes = (w.journal.suppress_rx_bytes + taken.0) % 2 ^ 32;
      } in
      capture_all drained.0 (record w { journal = j; terminal = drained.1 })

  unfoldable pub replay_owner : List ℕ → World → World
  replay_owner payload w =
      let owner = get_or payload 0 0 in
      if get_or payload 1 0 % 2 == 1
      then capture_owner owner true (T.acquire owner w.terminal) w
      else capture_owner owner false (T.release owner w.terminal) w

  unfoldable pub replay_entry : Entry → World → World
  replay_entry e w =
      if e.event_type == evt_rx_bytes
      then replay_bytes e.payload w
      else (if (e.event_type == evt_io_owner) && leb 2 (length e.payload)
          then replay_owner e.payload w
          else w)

  -- A record that does not come after the one before it ends the replay.
  unfoldable pub in_order : Option ℕ → Entry → Bool
  in_order none e = true
  in_order (some prev) e = jrnl_seq_newer e.rec_seq prev

  -- A record of an older snapshot is passed over.
  unfoldable pub replay_if_due : ℕ → Entry → World → World
  replay_if_due seq e w = if ltb e.snap_seq_base seq then w else replay_entry e w

  unfoldable pub on_entry : Option Entry → World → (Entry → World) → World
  on_entry none stop next = stop
  on_entry (some e) stop next = next e

  -- The blocks from place `i` on, `n` of them; `again` starts over when the first one is no record.
  unfoldable pub replay_from : ℕ → ℕ → ℕ → ℕ → Option ℕ → (World → World) → World → World
  replay_from zero seq from i prev again w = w
  replay_from (suc n) seq from i prev again w =
      let read = D.read ((w.journal.start_lba + (from + i) % w.journal.blocks) % 2 ^ 32) w.card in
      let w₁ = record w { card = read.1 } in
      on_block read.0 w₁ (λ b.
        on_entry (jrnl_block_validate b) (if (i == 0) && not (from == 0) then again w₁ else w₁)
          (λ e. elim (in_order prev e) [
            | false ↦ w₁
            | true ↦ replay_from n seq from (i + 1) (some e.rec_seq) again (replay_if_due seq e w₁)
          ]))

  -- With a full ring the oldest record stands at the write place.
  unfoldable pub start_place : ReadResult → ℕ → ℕ
  start_place (got b) rel = elim (jrnl_block_validate b) [ none ↦ 0 | some e ↦ rel ]
  start_place (failed n) rel = 0

  unfoldable pub replay_ring : ℕ → World → World
  replay_ring seq w =
      let j = w.journal in
      let first = D.read j.next_lba w.card in
      let from = start_place first.0 ((j.next_lba + 2 ^ 32 - j.start_lba) % 2 ^ 32) in
      let w₁ = record w { journal = record j { replaying = true }; card = first.1 } in
      let over = replay_from j.blocks seq 0 0 none (λ x. x) in
      let done = replay_from j.blocks seq from 0 none over w₁ in
      record done { journal = record done.journal { replaying = false } }

  unfoldable pub replay_ready : ℕ → World → Option World
  replay_ready seq w =
      let r = (jrnl_flush_pending_rx D w.journal w.card).1 in
      if leb r.0.blocks ((r.0.next_lba + 2 ^ 32 - r.0.start_lba) % 2 ^ 32)
      then none
      else some (replay_ring seq (record w { journal = r.0; card = r.1 }))

  unfoldable pub replay_configured : ℕ → World → Option (Journal × Card) → Option World
  replay_configured seq w none = none
  replay_configured seq w (some (j, c)) =
      let w₁ = record w { journal = j; card = c } in
      if not j.configured || not j.scan_ready then some w₁ else replay_ready seq w₁

  -- `none` is a kernel panic.
  unfoldable pub journal_replay_from_snapshot : ℕ → ℕ → ℕ → World → Option World
  journal_replay_from_snapshot seq start blocks w =
      if (start == 0) || (blocks == 0)
      then some w
      else replay_configured seq w (journal_configure D start blocks seq w.journal w.card)
