-- ===== src/Rwfs.antt =====
-- The file system of the card: src/common_io/rwfs.c, include/rwfs.h. A region of the card has two copies of a
-- superblock, four blocks of index entries, and the files, each a header block, its content and a tail
-- block. Here are the names and the formats. Rwfs.Mount has the functions that find or format the region,
-- Rwfs.Files those on files; the other children have their proofs.
-- A string is the list of its bytes; behind it stands a NUL.
pub mod Mount
pub mod Files
pub mod Reads
pub mod Names
pub mod Payload
pub mod Record
pub mod Supers
pub mod Index
pub mod Mounted
pub mod Find
pub mod Steps
pub mod Commit
pub mod Write
pub mod RoundTrip
pub mod ReadBack
pub mod Total
pub mod Format
pub mod Marker
pub mod Entries
mod Tests
use rewind_os.Base.{ℕ, zero, suc, ◌+◌, ◌-◌, ◌*◌, ◌/◌, ◌%◌, ◌^◌, Bool, true, false, ◌&&◌, not}
use rewind_os.Base.{
  List, [], ◌∷◌, ◌++◌, length, get_or, take, drop, replicate, ltb, leb, ◌==◌, if◌then◌else◌,
}
use rewind_os.Media.{Code, err}
use rewind_os.Media.Words.{words, bytes}
use rewind_os.Media.Checksum.{checksum}

abbrev pub rwfs_name_max : ℕ
rwfs_name_max = 32

abbrev pub rwfs_magic : ℕ
rwfs_magic = 0x53465752

abbrev pub fdat_magic : ℕ
fdat_magic = 0x54414446

abbrev pub fden_magic : ℕ
fden_magic = 0x4e454446

-- Where the files start in the region: behind two superblocks and four blocks of the index.
abbrev pub data_off : ℕ
data_off = 6

-- `sizeof(entries) / sizeof(entries[0])`: 2048 bytes of 60-byte entries.
abbrev pub total_entries : ℕ
total_entries = 34

abbrev pub entries_per_block : ℕ
entries_per_block = 8

abbrev pub entry_free : ℕ
entry_free = 0

abbrev pub entry_live : ℕ
entry_live = 1

abbrev pub err_name : Code
err_name = err 20

abbrev pub err_full : Code
err_full = err 21

abbrev pub err_not_found : Code
err_not_found = err 22

abbrev pub err_corrupt : Code
err_corrupt = err 23

abbrev pub err_busy : Code
err_busy = err 24

-- Bytes up to the NUL, `max` at most.
unfoldable pub rwfs_strnlen : List ℕ → ℕ → ℕ
rwfs_strnlen s zero = 0
rwfs_strnlen [] (suc max) = 0
rwfs_strnlen (c ∷ s) (suc max) = if c == 0 then 0 else suc (rwfs_strnlen s max)

unfoldable pub rwfs_name_valid : List ℕ → Bool
rwfs_name_valid name =
    not (get_or name 0 0 == 0)
    && (not (rwfs_strnlen name rwfs_name_max == 0)
        && ltb (rwfs_strnlen name rwfs_name_max) rwfs_name_max)

-- The next byte, and what follows.
abbrev pub next_byte : List ℕ → ℕ
next_byte [] = 0
next_byte (c ∷ s) = c

abbrev pub after_byte : List ℕ → List ℕ
after_byte [] = []
after_byte (c ∷ s) = s

-- The rounds of the comparison that are left.
unfoldable pub streq_from : ℕ → List ℕ → List ℕ → Bool
streq_from zero a b = true
streq_from (suc n) a b =
    if not (next_byte a == next_byte b)
    then false
    else (if next_byte a == 0 then true else streq_from n (after_byte a) (after_byte b))

unfoldable pub rwfs_streq_name : List ℕ → List ℕ → Bool
unfolding streq_from
rwfs_streq_name a b = streq_from rwfs_name_max a b

-- 31 bytes at most, and NULs up to the end of the field.
unfoldable pub rwfs_name_copy : List ℕ → List ℕ
unfolding rwfs_strnlen
rwfs_name_copy s =
    let n = rwfs_strnlen s (rwfs_name_max - 1) in take n s ++ replicate (rwfs_name_max - n) 0

unfoldable pub rwfs_name_hash : List ℕ → ℕ
unfolding checksum rwfs_strnlen
rwfs_name_hash name = checksum (take (rwfs_strnlen name rwfs_name_max) name)

unfoldable pub rwfs_div_up : ℕ → ℕ → ℕ
rwfs_div_up n d = if d == 0 then 0 else (n + d + 2 ^ 32 - 1) % 2 ^ 32 / d

-- `rwfs_super_t`: eleven fields, their checksum, and the words that fill the block.
pub record Super : Type 0 where
  pub magic : ℕ
  pub version : ℕ
  pub generation : ℕ
  pub region_start_lba : ℕ
  pub region_blocks : ℕ
  pub index_start_lba : ℕ
  pub index_blocks : ℕ
  pub data_start_lba : ℕ
  pub data_blocks : ℕ
  pub entry_count : ℕ
  pub next_data_lba : ℕ
  pub checksum_word : ℕ
  pub reserved : List ℕ

-- The words that the checksum covers.
abbrev pub super_fields : Super → List ℕ
super_fields s =
    s.magic ∷ s.version ∷ s.generation ∷ s.region_start_lba ∷ s.region_blocks ∷ s.index_start_lba
    ∷ s.index_blocks ∷ s.data_start_lba ∷ s.data_blocks ∷ s.entry_count ∷ s.next_data_lba ∷ []

-- `s.checksum = rwfs_checksum_words(&s, 11)`.
abbrev pub seal_super : Super → Super
seal_super s = record s { checksum_word = checksum (super_fields s) }

abbrev pub super_words : Super → List ℕ
super_words s = super_fields s ++ (s.checksum_word ∷ s.reserved)

abbrev pub super_block : Super → List ℕ
super_block s = bytes (super_words s)

abbrev pub super_of : List ℕ → Super
super_of w = record {
  magic = get_or w 0 0;
  version = get_or w 1 0;
  generation = get_or w 2 0;
  region_start_lba = get_or w 3 0;
  region_blocks = get_or w 4 0;
  index_start_lba = get_or w 5 0;
  index_blocks = get_or w 6 0;
  data_start_lba = get_or w 7 0;
  data_blocks = get_or w 8 0;
  entry_count = get_or w 9 0;
  next_data_lba = get_or w 10 0;
  checksum_word = get_or w 11 0;
  reserved = take 116 (drop 12 w);
}

-- The end of the region, and the first block that files may have.
abbrev pub region_end : Super → ℕ
region_end s = (s.region_start_lba + s.region_blocks) % 2 ^ 32

abbrev pub first_data : Super → ℕ
first_data s = (s.region_start_lba + data_off) % 2 ^ 32

unfoldable pub rwfs_super_valid : Super → Bool
rwfs_super_valid s =
    (s.magic == rwfs_magic)
    && ((s.version == 1)
        && ((s.index_blocks == 4)
            && ((s.entry_count == total_entries)
                && (leb (first_data s) s.data_start_lba
                    && (leb s.data_start_lba s.next_data_lba
                        && (leb s.next_data_lba (region_end s)
                            && (s.checksum_word == checksum (super_fields s))))))))

-- `rwfs_index_entry_t`; `name` has the 32 bytes of the field.
pub record IndexEntry : Type 0 where
  pub name : List ℕ
  pub state : ℕ
  pub data_lba : ℕ
  pub data_len : ℕ
  pub generation : ℕ
  pub content_crc : ℕ
  pub record_blocks : ℕ
  pub entry_crc : ℕ

abbrev pub entry_fields : IndexEntry → List ℕ
entry_fields e =
    words e.name
    ++ (e.state ∷ e.data_lba ∷ e.data_len ∷ e.generation ∷ e.content_crc ∷ e.record_blocks ∷ [])

abbrev pub entry_words : IndexEntry → List ℕ
entry_words e = entry_fields e ++ (e.entry_crc ∷ [])

unfoldable pub rwfs_entry_crc : IndexEntry → ℕ
rwfs_entry_crc e = checksum (entry_fields e)

-- The entry that stands in 15 words, eight of which have the name.
abbrev pub entry_with : List ℕ → List ℕ → IndexEntry
entry_with name w = record {
  name = name;
  state = get_or w 0 0;
  data_lba = get_or w 1 0;
  data_len = get_or w 2 0;
  generation = get_or w 3 0;
  content_crc = get_or w 4 0;
  record_blocks = get_or w 5 0;
  entry_crc = get_or w 6 0;
}

abbrev pub entry_of : List ℕ → IndexEntry
entry_of w = entry_with (bytes (take 8 w)) (drop 8 w)

-- The words of the `k`-th entry of a block, and the block with others there.
unfoldable pub slot_words : ℕ → List ℕ → List ℕ
slot_words zero w = take 15 w
slot_words (suc k) w = slot_words k (drop 15 w)

unfoldable pub with_slot : ℕ → List ℕ → List ℕ → List ℕ
with_slot zero x w = x ++ drop 15 w
with_slot (suc k) x w = take 15 w ++ with_slot k x (drop 15 w)

-- The six words of the block that stands before the content of a file, and of the one behind it.
abbrev pub marker_fields : ℕ → ℕ → ℕ → ℕ → ℕ → List ℕ
marker_fields magic hash gen len crc = magic ∷ 1 ∷ hash ∷ gen ∷ len ∷ crc ∷ []

unfoldable pub marker_block : ℕ → ℕ → ℕ → ℕ → ℕ → List ℕ
unfolding bytes checksum
marker_block magic hash gen len crc =
    let ws = marker_fields magic hash gen len crc in bytes (ws ++ (checksum ws ∷ replicate 121 0))

-- What is tested of such a block when a file is read.
unfoldable pub marker_ok : ℕ → ℕ → IndexEntry → List ℕ → Bool
marker_ok magic hash e t =
    (get_or t 0 0 == magic)
    && ((get_or t 1 0 == 1)
        && ((get_or t 2 0 == hash)
            && ((get_or t 3 0 == e.generation)
                && ((get_or t 4 0 == e.data_len) && (get_or t 6 0 == checksum (take 6 t))))))
