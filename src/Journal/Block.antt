-- ===== src/Journal/Block.antt =====
-- A record is read back from the block that holds it.
use rewind_os.Base.{ℕ, ◌+◌, ◌-◌, ◌^◌, ◌≤◌, ◌<◌, ◌≡◌, refl, sym, ap, ◌∙◌, true, some}
use rewind_os.Base.{
  List, ◌++◌, length, take, drop, replicate, arith, take-append_length, drop-append_length,
  drop-drop,
}
use rewind_os.Media.Words.{words, bytes, words-bytes, AreWords}
use rewind_os.Media.Checksum.{checksum, checksum_lt}
use rewind_os.Journal.{
  Entry, block_of, hdr_words, tail_words, sealed, tail_ok, payload_of, hdr_ok, block_ok,
  validate_words, jrnl_block_validate,
}

-- The fields are words, and the payload fits.
pub record IsEntry (e : Entry) : Type 0 where
  pub seq_word : e.rec_seq < 2 ^ 32
  pub base_word : e.snap_seq_base < 2 ^ 32
  pub type_word : e.event_type < 2 ^ 32
  pub payload_fits : length e.payload ≤ 468

abbrev rest_of : Entry → List ℕ
rest_of e =
    e.payload ++ (bytes (sealed (tail_words e)) ++ replicate (512 - 28 - 16 - length e.payload) 0)

hdr_AreWords : (e : Entry) → IsEntry e → AreWords (sealed (hdr_words e))
hdr_AreWords e i =
    let a = i.seq_word in
    let b = i.base_word in
    let c = i.type_word in
    let d = i.payload_fits in ground (arith, checksum_lt e.payload, checksum_lt (hdr_words e))

tail_AreWords : (e : Entry) → IsEntry e → AreWords (sealed (tail_words e))
tail_AreWords e i =
    let a = i.seq_word in ground (arith, checksum_lt e.payload, checksum_lt (tail_words e))

words-block :
    (e : Entry) → IsEntry e → words (block_of e) ≡ sealed (hdr_words e) ++ words (rest_of e)
unfolding block_of
words-block e i = words-bytes (sealed (hdr_words e)) (rest_of e) (hdr_AreWords e i)

drop-block : (e : Entry) → drop 28 (block_of e) ≡ rest_of e
unfolding block_of bytes
drop-block e = refl

payload-block : (e : Entry) → payload_of (block_of e) (length e.payload) ≡ e.payload
unfolding payload_of
payload-block e = ap (take (length e.payload)) (drop-block e) ∙ take-append_length e.payload _

tail-block :
    (e : Entry)
    → drop (28 + length e.payload) (block_of e)
      ≡ bytes (sealed (tail_words e)) ++ replicate (512 - 28 - 16 - length e.payload) 0
tail-block e =
    sym (drop-drop 28 (length e.payload) (block_of e))
    ∙ ap (drop (length e.payload)) (drop-block e)
    ∙ drop-append_length e.payload _

tail_ok-block :
    (e : Entry)
    → IsEntry e
    → tail_ok (words (drop (28 + length e.payload) (block_of e))) e.rec_seq (checksum e.payload)
      ≡ true
unfolding tail_ok
tail_ok-block e i =
    rw
      (
        tail-block e,
        words-bytes (sealed (tail_words e)) (replicate (512 - 28 - 16 - length e.payload) 0)
            (tail_AreWords e i),
      )
      (ground arith)

-- What is written for a record is read back as that record, if its fields are 32-bit words and its payload
-- has at most 468 bytes.
pub jrnl_block_validate-block_of :
    (e : Entry) → IsEntry e → jrnl_block_validate (block_of e) ≡ some e
unfolding jrnl_block_validate validate_words block_ok hdr_ok
jrnl_block_validate-block_of e i =
    let fits = i.payload_fits in
    rw (words-block e i, tail_ok-block e i, payload-block e) (ground arith)
