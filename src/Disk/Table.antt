-- ===== src/Disk/Table.antt =====
-- src/common_io/rwos_disk.c: the functions that read and write the table, over a card. `D` is the
-- driver of the card, and `sram` the count of bytes between the linker's `_sram_start` and `_sram_end`.
use rewind_os.Base.{ℕ, ◌+◌, ◌-◌, ◌*◌, ◌/◌, ◌%◌, ◌^◌, Bool, Option, none, some}
use rewind_os.Base.{leb, ◌==◌, if◌then◌else◌, replicate}
use rewind_os.Media.{Code, ok, err, ReadResult, got, failed, BlockDevice}
use rewind_os.Disk.{RwosDisk, image, disk_magic, seal, rwos_disk_parse}

-- `g_rwos_disk` and `g_rwos_disk_valid`.
pub record Disk : Type 0 where
  pub table : RwosDisk
  pub valid : Bool

abbrev pub sd_err_param : Code
sd_err_param = err 6

abbrev pub admin_end_lba : ℕ
admin_end_lba = 3

abbrev pub journal_blocks_default : ℕ
journal_blocks_default = 128

abbrev pub slots_default : ℕ
slots_default = 4

abbrev pub hdr_blocks : ℕ
hdr_blocks = 16

abbrev pub min_rwfs_blocks : ℕ
min_rwfs_blocks = 64

-- A copy counts when it was read and parses.
unfoldable pub copy_of : ReadResult → Option RwosDisk
copy_of (got blk) = rwos_disk_parse blk
copy_of (failed n) = none

-- Copy A, unless only copy B is there or B has a greater generation.
unfoldable pub choose : Option RwosDisk → Option RwosDisk → Option RwosDisk
choose none none = none
choose (some a) none = some a
choose none (some b) = some b
choose (some a) (some b) = if leb b.generation a.generation then some a else some b

unfoldable pub disk_sram_blocks : ℕ → ℕ
disk_sram_blocks sram = if sram == 0 then 640 else (sram + 511) % 2 ^ 32 / 512

-- Where the region of the files starts.
unfoldable pub slot_blocks : ℕ → ℕ
slot_blocks sram = (disk_sram_blocks sram + hdr_blocks) % 2 ^ 32

unfoldable pub rwfs_start : ℕ → ℕ
rwfs_start sram =
    (admin_end_lba + journal_blocks_default + slots_default * slot_blocks sram % 2 ^ 32) % 2 ^ 32

unfoldable pub formatted : ℕ → ℕ → RwosDisk
formatted sram card_blocks = seal (record {
  magic = disk_magic;
  version = 1;
  generation = 1;
  total_blocks = card_blocks;
  journal_start_lba = admin_end_lba;
  journal_blocks = journal_blocks_default;
  snap_start_lba = admin_end_lba + journal_blocks_default;
  snap_blocks = slots_default * slot_blocks sram % 2 ^ 32;
  snap_slots = slots_default;
  snap_slot_blocks = slot_blocks sram;
  snap_interval_s = 60;
  rwfs_start_lba = rwfs_start sram;
  rwfs_blocks = card_blocks - rwfs_start sram;
  boot_target_mode = 0;
  boot_target_slot = 0;
  boot_target_seq = 0;
  last_snap_slot = 0;
  last_snap_seq = 0;
  checksum_word = 0;
  reserved = replicate 109 0;
})

-- The generation stops at its greatest value.
unfoldable pub next_generation : ℕ → ℕ
next_generation g = if g == 0xffffffff then g else g + 1

unfoldable pub with_boot_target : ℕ → ℕ → ℕ → RwosDisk → RwosDisk
with_boot_target mode slot seq d = seal (record d {
  generation = next_generation d.generation;
  boot_target_mode = mode;
  boot_target_slot = slot;
  boot_target_seq = seq;
})

unfoldable pub with_last_snap : ℕ → ℕ → RwosDisk → RwosDisk
with_last_snap slot seq d = seal (record d {
  generation = next_generation d.generation;
  last_snap_slot = slot;
  last_snap_seq = seq;
})

unfoldable pub rwos_disk_get : Disk → Option RwosDisk
rwos_disk_get g = if g.valid then some g.table else none

module _ (D : BlockDevice) where
  open D use {Card}

  unfoldable pub read_second : ReadResult × Card → Option RwosDisk × Card
  read_second (first, c) = (choose (copy_of first) (copy_of (D.read 2 c).0), (D.read 2 c).1)

  -- `none` for the result 0.
  unfoldable pub rwos_disk_read_best : Card → Option RwosDisk × Card
  unfolding read_second
  rwos_disk_read_best c = read_second (D.read 1 c)

  unfoldable pub write_second : RwosDisk → Code × Card → Code × Card
  write_second d (ok, c) = D.write 2 (image d) c
  write_second d (err n, c) = (err n, c)

  -- Copy B is written when copy A was.
  unfoldable pub rwos_disk_write_both : RwosDisk → Card → Code × Card
  unfolding write_second
  rwos_disk_write_both d c = write_second d (D.write 1 (image d) c)
