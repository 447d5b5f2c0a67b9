-- ===== src/Journal/Typed.antt =====
-- What the whole replay leaves in the journal, and what that does to the bytes that are typed next.
use rewind_os.Base.{ℕ, suc, ◌+◌, ◌-◌, ◌%◌, ◌^◌, ◌<◌, ◌≡◌, refl, ap, ◌∙◌, true, false, none}
use rewind_os.Base.{List, arith}
use rewind_os.Media.{ok, BlockDevice, IsLawful}
use rewind_os.Journal.Calls.{is_off, journal_capture_input_byte}
use rewind_os.Journal.Replay.{Terminal, World, replay_bytes, replay_from, replay_ring, start_place}
use rewind_os.Journal.Frozen.{
  off, passing, Kept, replay_bytes_lem, replay_from-K, capture_passed, K,
}

module _ (D : BlockDevice) (T : Terminal) (law : IsLawful D) where
  open D use {Card}

  -- The replay of the ring writes no block of the card, and leaves the journal as it was, but for the count of
  -- bytes to pass over, and but for the mark of a replay, which is off at the end: what the terminal reads
  -- and acquires while it is given the recorded input is not recorded a second time.
  pub replay_ring_lem :
      (seq : ℕ) (w : World D T)
      → let done = replay_ring D T seq w in
        (done.journal ≡ (record w.journal {
          suppress_rx_bytes = done.journal.suppress_rx_bytes;
          replaying = false;
        }))
        × ((x : ℕ) → D.content done.card x ≡ D.content w.card x)
  unfolding replay_ring K
  replay_ring_lem seq w =
      let j = w.journal in
      let first = D.read j.next_lba w.card in
      let from = start_place D T first.0 ((j.next_lba + 2 ^ 32 - j.start_lba) % 2 ^ 32) in
      let on = record j { replaying = true } in
      let w₁ = record w { journal = on; card = first.1 } in
      let start : Kept D T on w.card w₁ = record {
        same = refl;
        same_card = λ x. law.content-read w.card j.next_lba x;
      } in
      let over = replay_from D T j.blocks seq 0 0 none (λ x. x) in
      let k =
        replay_from-K D T on w.card refl law j.blocks seq from 0 none over w₁
          (λ x kx.
            replay_from-K D T on w.card refl law j.blocks seq 0 0 none (λ y. y) x (λ y ky. ky) kx)
          start in
      (ap off k.same, k.same_card)

  -- Bytes that a replayed record injects are counted, and the count is not lowered when the terminal reads
  -- them: after the replay of a record of which the terminal took n + 1 bytes, with none counted before, the
  -- next byte that is typed is passed over: it is neither kept nor written, and n more are to come.
  pub typed_after_replay :
      (payload : List ℕ) (w : World D T) (n b : ℕ)
      → is_off w.journal ≡ false
      → w.journal.replaying ≡ true
      → w.journal.suppress_rx_bytes ≡ 0
      → (T.inject payload w.terminal).0 ≡ suc n
      → n + 1 < 2 ^ 32
      → let done = replay_bytes D T payload w in
        journal_capture_input_byte D b (off done.journal) done.card
        ≡ (ok, (passing n (off w.journal), w.card))
  typed_after_replay payload w n b on replaying none_before taken small =
      let m = (w.journal.suppress_rx_bytes + (T.inject payload w.terminal).0) % 2 ^ 32 in
      let count : m ≡ suc n = omega arith in
      ap (λ (r : World D T). journal_capture_input_byte D b (off r.journal) r.card)
        (replay_bytes_lem D T payload w replaying)
      ∙ capture_passed D b n (off (passing m w.journal)) w.card on refl count
