-- ===== src/Journal.antt =====
-- The journal of inputs: src/common_io/journal.c. A record is one block of the card: a header of seven
-- words, the payload, a tail of four words, and zeros. The records stand in a ring of blocks.
-- Journal.Calls has the functions on the state and the card, Journal.Replay the replay.
pub mod Block
pub mod Calls
pub mod Newest
pub mod Ring
pub mod Append
pub mod Checked
pub mod Pending
pub mod Replay
pub mod Frozen
pub mod Typed
mod Tests
use rewind_os.Base.{ℕ, ◌+◌, ◌-◌, ◌%◌, ◌^◌, ◌≡◌, Bool, true, false, ◌&&◌, Option, none, some}
use rewind_os.Base.{
  List, [], ◌∷◌, ◌++◌, length, get_or, take, drop, replicate, ltb, leb, ◌==◌, if◌then◌else◌,
}
use rewind_os.Media.{Code}
use rewind_os.Media.Words.{words, bytes}
use rewind_os.Media.Checksum.{checksum}

abbrev pub block_size : ℕ
block_size = 512

abbrev pub hdr_size : ℕ
hdr_size = 28

abbrev pub tail_size : ℕ
tail_size = 16

abbrev pub payload_max : ℕ
payload_max = block_size - hdr_size - tail_size

abbrev pub jrnl_magic : ℕ
jrnl_magic = 0x4c4e524a

abbrev pub jend_magic : ℕ
jend_magic = 0x444e454a

abbrev pub evt_rx_bytes : ℕ
evt_rx_bytes = 1

abbrev pub evt_io_owner : ℕ
evt_io_owner = 2

-- What a record says: the fields of its header, and its payload.
pub record Entry : Type 0 where
  pub rec_seq : ℕ
  pub snap_seq_base : ℕ
  pub event_type : ℕ
  pub payload : List ℕ

-- The header without its own checksum, and the tail without its own.
abbrev pub hdr_words : Entry → List ℕ
hdr_words e =
    jrnl_magic
    ∷ e.rec_seq
    ∷ e.snap_seq_base
    ∷ e.event_type
    ∷ length e.payload
    ∷ checksum e.payload
    ∷ []

abbrev pub tail_words : Entry → List ℕ
tail_words e = jend_magic ∷ e.rec_seq ∷ checksum e.payload ∷ []

abbrev pub sealed : List ℕ → List ℕ
sealed ws = ws ++ (checksum ws ∷ [])

-- The block that is written for a record.
unfoldable pub block_of : Entry → List ℕ
block_of e =
    bytes (sealed (hdr_words e))
    ++ (e.payload
        ++ (bytes (sealed (tail_words e))
            ++ replicate (block_size - hdr_size - tail_size - length e.payload) 0))

-- The tail that stands after the payload, for the header's sequence number and checksum of the payload.
unfoldable pub tail_ok : List ℕ → ℕ → ℕ → Bool
tail_ok t seq crc =
    (get_or t 0 0 == jend_magic)
    && ((get_or t 1 0 == seq) && ((get_or t 2 0 == crc) && (get_or t 3 0 == checksum (take 3 t))))

unfoldable pub payload_of : List ℕ → ℕ → List ℕ
payload_of blk len = take len (drop hdr_size blk)

unfoldable pub hdr_ok : List ℕ → Bool
hdr_ok h =
    (get_or h 0 0 == jrnl_magic)
    && (leb (get_or h 4 0) payload_max && (get_or h 6 0 == checksum (take 6 h)))

unfoldable pub block_ok : List ℕ → List ℕ → Bool
block_ok blk h =
    hdr_ok h
    && (leb (hdr_size + get_or h 4 0) (block_size - tail_size)
        && (tail_ok (words (drop (hdr_size + get_or h 4 0) blk)) (get_or h 1 0) (get_or h 5 0)
            && (get_or h 5 0 == checksum (payload_of blk (get_or h 4 0)))))

unfoldable pub validate_words : List ℕ → List ℕ → Option Entry
validate_words blk h =
    if block_ok blk h
    then some (record {
      rec_seq = get_or h 1 0;
      snap_seq_base = get_or h 2 0;
      event_type = get_or h 3 0;
      payload = payload_of blk (get_or h 4 0);
    })
    else none

unfoldable pub jrnl_block_validate : List ℕ → Option Entry
unfolding words
jrnl_block_validate blk = validate_words blk (words blk)

-- `((int32_t)(a - b)) > 0`.
unfoldable pub jrnl_seq_newer : ℕ → ℕ → Bool
jrnl_seq_newer a b = let d = (a + 2 ^ 32 - b) % 2 ^ 32 in ltb 0 d && ltb d (2 ^ 31)

-- `journal_ctx_t`: `pending` has the first `pending_len` bytes of `pending_rx`.
pub record Journal : Type 0 where
  pub configured : Bool
  pub scan_ready : Bool
  pub replaying : Bool
  pub pending : List ℕ
  pub start_lba : ℕ
  pub blocks : ℕ
  pub next_lba : ℕ
  pub next_seq : ℕ
  pub last_snapshot_seq : ℕ
  pub suppress_rx_bytes : ℕ
  pub last_err : Code
  pub dropped : ℕ
