-- ===== src/Disk.antt =====
-- The partition table of the card: include/rwos_disk.h, and the parsing and the layout of
-- src/common_io/rwos_disk.c. The table is stored twice, in blocks 1 and 2. Disk.Table has the functions
-- that read and write it, over any card. The messages on the UART are not modelled.
pub mod Image
pub mod Table
pub mod Calls
pub mod Crash
pub mod Update
pub mod Start
pub mod Format
mod Tests
use rewind_os.Base.{
  ℕ, ◌+◌, ◌-◌, ◌*◌, ◌/◌, ◌%◌, ◌^◌, ◌<◌, ◌≡◌, Bool, true, false, ◌&&◌, Option, none, some,
}
use rewind_os.Base.{
  List, [], ◌∷◌, ◌++◌, length, get_or, take, drop, replicate, ltb, ◌==◌, if◌then◌else◌,
}
use rewind_os.Media.Words.{words, bytes, AreWords}
use rewind_os.Media.Checksum.{checksum}

-- `rwos_disk_t`: 18 fields, their checksum, and the words that fill the block.
pub record RwosDisk : Type 0 where
  pub magic : ℕ
  pub version : ℕ
  pub generation : ℕ
  pub total_blocks : ℕ
  pub journal_start_lba : ℕ
  pub journal_blocks : ℕ
  pub snap_start_lba : ℕ
  pub snap_blocks : ℕ
  pub snap_slots : ℕ
  pub snap_slot_blocks : ℕ
  pub snap_interval_s : ℕ
  pub rwfs_start_lba : ℕ
  pub rwfs_blocks : ℕ
  pub boot_target_mode : ℕ
  pub boot_target_slot : ℕ
  pub boot_target_seq : ℕ
  pub last_snap_slot : ℕ
  pub last_snap_seq : ℕ
  pub checksum_word : ℕ
  pub reserved : List ℕ

-- The words that the checksum covers.
abbrev pub fields : RwosDisk → List ℕ
fields d =
    d.magic ∷ d.version ∷ d.generation ∷ d.total_blocks ∷ d.journal_start_lba ∷ d.journal_blocks
    ∷ d.snap_start_lba ∷ d.snap_blocks ∷ d.snap_slots ∷ d.snap_slot_blocks ∷ d.snap_interval_s
    ∷ d.rwfs_start_lba ∷ d.rwfs_blocks ∷ d.boot_target_mode ∷ d.boot_target_slot ∷ d.boot_target_seq
    ∷ d.last_snap_slot ∷ d.last_snap_seq ∷ []

abbrev pub to_words : RwosDisk → List ℕ
to_words d = fields d ++ (d.checksum_word ∷ d.reserved)

-- The block that holds a table.
abbrev pub image : RwosDisk → List ℕ
image d = bytes (to_words d)

abbrev pub of_words : List ℕ → RwosDisk
of_words w = record {
  magic = get_or w 0 0;
  version = get_or w 1 0;
  generation = get_or w 2 0;
  total_blocks = get_or w 3 0;
  journal_start_lba = get_or w 4 0;
  journal_blocks = get_or w 5 0;
  snap_start_lba = get_or w 6 0;
  snap_blocks = get_or w 7 0;
  snap_slots = get_or w 8 0;
  snap_slot_blocks = get_or w 9 0;
  snap_interval_s = get_or w 10 0;
  rwfs_start_lba = get_or w 11 0;
  rwfs_blocks = get_or w 12 0;
  boot_target_mode = get_or w 13 0;
  boot_target_slot = get_or w 14 0;
  boot_target_seq = get_or w 15 0;
  last_snap_slot = get_or w 16 0;
  last_snap_seq = get_or w 17 0;
  checksum_word = get_or w 18 0;
  reserved = take 109 (drop 19 w);
}

abbrev pub disk_magic : ℕ
disk_magic = 0x49445752

abbrev pub admin_magic : ℕ
admin_magic = 0x53535752

unfoldable pub rwos_disk_checksum : RwosDisk → ℕ
rwos_disk_checksum d = checksum (fields d)

-- `d->checksum = rwos_disk_checksum(d)`.
abbrev pub seal : RwosDisk → RwosDisk
seal d = record d { checksum_word = rwos_disk_checksum d }

-- The table that stands for a block of the boot menu's format.
unfoldable pub of_admin : List ℕ → RwosDisk
of_admin w =
    let rwfs_start = (get_or w 7 0 + get_or w 8 0) % 2 ^ 32 in
    seal (record {
      magic = disk_magic;
      version = 1;
      generation = get_or w 2 0;
      total_blocks = get_or w 3 0;
      journal_start_lba = get_or w 15 0;
      journal_blocks = get_or w 16 0;
      snap_start_lba = get_or w 7 0;
      snap_blocks = get_or w 8 0;
      snap_slots = get_or w 5 0;
      snap_slot_blocks = get_or w 9 0;
      snap_interval_s = get_or w 6 0;
      rwfs_start_lba = rwfs_start;
      rwfs_blocks = if ltb rwfs_start (get_or w 3 0) then get_or w 3 0 - rwfs_start else 0;
      boot_target_mode = get_or w 10 0;
      boot_target_slot = get_or w 11 0;
      boot_target_seq = get_or w 12 0;
      last_snap_slot = get_or w 13 0;
      last_snap_seq = get_or w 14 0;
      checksum_word = 0;
      reserved = replicate 109 0;
    })

unfoldable parse_native : RwosDisk → Option RwosDisk
parse_native d = if d.checksum_word == rwos_disk_checksum d then some d else none

unfoldable parse_admin : List ℕ → Option RwosDisk
parse_admin w =
    if (get_or w 0 0 == admin_magic) && (get_or w 1 0 == 1) then some (of_admin w) else none

unfoldable parse_words : List ℕ → Option RwosDisk
unfolding parse_native parse_admin
parse_words w =
    if (get_or w 0 0 == disk_magic) && (get_or w 1 0 == 1)
    then parse_native (of_words w)
    else parse_admin w

unfoldable pub rwos_disk_parse : List ℕ → Option RwosDisk
unfolding parse_words words
rwos_disk_parse blk = parse_words (words blk)

-- A table that the native format can hold, with its checksum.
pub record IsSealed (d : RwosDisk) : Type 0 where
  pub magic_lem : d.magic ≡ disk_magic
  pub version_lem : d.version ≡ 1
  pub checksum_lem : d.checksum_word ≡ rwos_disk_checksum d
  pub are_words : AreWords (to_words d)
  pub reserved_length : length d.reserved ≡ 109
