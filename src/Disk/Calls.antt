-- ===== src/Disk/Calls.antt =====
-- src/common_io/rwos_disk.c: the format of an empty card and the functions of include/rwos_disk.h, on
-- the table in memory and the card.
use rewind_os.Base.{ℕ, ◌+◌, ◌^◌, ◌%◌, true, false, ◌||◌, not, Option, none, some, ltb, ◌==◌}
use rewind_os.Base.{if◌then◌else◌}
use rewind_os.Media.{Code, ok, err, SdInfo, BlockDevice}
use rewind_os.Media.Ready.{sd_err_no_init, media_ready}
use rewind_os.Disk.{RwosDisk}
use rewind_os.Disk.Table.{
  Disk, sd_err_param, min_rwfs_blocks, rwfs_start, formatted, with_boot_target, with_last_snap,
  rwos_disk_read_best, rwos_disk_write_both,
}

module _ (D : BlockDevice) where
  open D use {Card}

  -- The table is set, and written to the card.
  unfoldable pub write_table : RwosDisk → Disk → Card → Code × (Disk × Card)
  write_table d g c =
      ((rwos_disk_write_both D d c).0, (record g { table = d }, (rwos_disk_write_both D d c).1))

  unfoldable pub format_with : ℕ → SdInfo → Disk → Card → Code × (Disk × Card)
  format_with sram i g c =
      if not i.initialized || (i.capacity_blocks == 0)
      then (sd_err_no_init, (g, c))
      else (if ltb i.capacity_blocks ((rwfs_start sram + min_rwfs_blocks) % 2 ^ 32)
          then (sd_err_param, (g, c))
          else write_table (formatted sram i.capacity_blocks) g c)

  unfoldable pub rwos_disk_auto_format : ℕ → Disk → Card → Code × (Disk × Card)
  unfolding format_with
  rwos_disk_auto_format sram g c = format_with sram (D.info c) g c

  -- The table counts when the format succeeded.
  unfoldable pub mark_formatted : Code × (Disk × Card) → Code × (Disk × Card)
  mark_formatted (ok, (g, c)) = (ok, (record g { valid = true }, c))
  mark_formatted (err n, r) = (err n, r)

  unfoldable pub loaded : ℕ → Disk → Option RwosDisk × Card → Code × (Disk × Card)
  loaded sram g (some d, c) = (ok, (record { table = d; valid = true }, c))
  loaded sram g (none, c) = mark_formatted (rwos_disk_auto_format sram g c)

  unfoldable pub after_ready : ℕ → Disk → Code × Card → Code × (Disk × Card)
  after_ready sram g (ok, c) = loaded sram g (rwos_disk_read_best D c)
  after_ready sram g (err n, c) = (err n, (g, c))

  unfoldable pub rwos_disk_init : ℕ → Disk → Card → Code × (Disk × Card)
  unfolding after_ready loaded mark_formatted
  rwos_disk_init sram g c = after_ready sram (record g { valid = false }) (media_ready D c)

  unfoldable pub rwos_disk_set_boot_target : ℕ → ℕ → ℕ → Disk → Card → Code × (Disk × Card)
  rwos_disk_set_boot_target mode slot seq g c =
      if g.valid
      then write_table (with_boot_target mode slot seq g.table) g c
      else (sd_err_no_init, (g, c))

  unfoldable pub rwos_disk_set_last_snap : ℕ → ℕ → Disk → Card → Code × (Disk × Card)
  rwos_disk_set_last_snap slot seq g c =
      if g.valid
      then write_table (with_last_snap slot seq g.table) g c
      else (sd_err_no_init, (g, c))
