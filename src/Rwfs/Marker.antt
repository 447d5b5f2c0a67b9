-- ===== src/Rwfs/Marker.antt =====
-- The blocks before and behind the content of a file pass the tests that are made when it is read.
use rewind_os.Base.{
  ℕ, ◌^◌, ◌<◌, ◌≡◌, refl, sym, ap, ◌∙◌, true, List, [], ◌∷◌, ◌++◌, get_or, replicate, arith,
  append-nil,
}
use rewind_os.Media.Words.{words, bytes, words-bytes, AreWords}
use rewind_os.Media.Checksum.{checksum, checksum_lt}
use rewind_os.Rwfs.{IndexEntry, marker_fields, marker_block, marker_ok}

-- What a block has whose words are these.
pub words-bytes_all : (ws : List ℕ) → AreWords ws → words (bytes ws) ≡ ws
unfolding words
words-bytes_all ws h =
    ap words (sym (append-nil (bytes ws))) ∙ words-bytes ws [] h ∙ rw (append-nil ws) refl

-- The five fields that differ from file to file are words.
pub record IsMarker (magic hash gen len crc : ℕ) : Type 0 where
  pub magic_word : magic < 2 ^ 32
  pub hash_word : hash < 2 ^ 32
  pub gen_word : gen < 2 ^ 32
  pub len_word : len < 2 ^ 32
  pub crc_word : crc < 2 ^ 32

module _ (magic hash gen len crc : ℕ) (h : IsMarker magic hash gen len crc) where
  abbrev marker_words : List ℕ
  marker_words =
      let ws = marker_fields magic hash gen len crc in ws ++ (checksum ws ∷ replicate 121 0)

  words-marker_block : words (marker_block magic hash gen len crc) ≡ marker_words
  unfolding marker_block
  words-marker_block =
      let a = h.magic_word in
      let b = h.hash_word in
      let c = h.gen_word in
      let d = h.len_word in
      let e = h.crc_word in
      words-bytes_all marker_words
        (ground (arith, checksum_lt (marker_fields magic hash gen len crc)))

  pub marker_ok-marker_block :
      (e : IndexEntry)
      → e.generation ≡ gen
      → e.data_len ≡ len
      → marker_ok magic hash e (words (marker_block magic hash gen len crc)) ≡ true
  unfolding marker_ok
  marker_ok-marker_block e g l = rw words-marker_block (ground (arith, g, l))

  pub crc-marker_block : get_or (words (marker_block magic hash gen len crc)) 5 0 ≡ crc
  crc-marker_block = rw words-marker_block refl
