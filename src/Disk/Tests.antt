-- ===== src/Disk/Tests.antt =====
-- The theorems on the table at a card in memory, whose second write fails.
use rewind_os.Base.{◌≡◌, ◌⊎◌, inl, inr, refl, true, none, some, [], ◌∷◌, arith, update_self}
use rewind_os.Media.{ok, err}
use rewind_os.Media.Memory.{
  MemoryCard, memory_card, memory_card-IsLawful, stored, stored-cases, next_code,
}
use rewind_os.Disk.{
  RwosDisk, IsSealed, image, rwos_disk_parse, parse_words, parse_native, parse_admin,
  rwos_disk_checksum,
}
use rewind_os.Media.Words.{words, bytes}
use rewind_os.Media.Ready.{media_ready, ready_with, init_card}
use rewind_os.Media.Checksum.{checksum, fnv_loop}
use rewind_os.Disk.Table.{
  Disk, formatted, with_boot_target, with_last_snap, rwos_disk_read_best, rwos_disk_write_both,
  rwos_disk_get, write_second, read_second, copy_of, choose, next_generation, rwfs_start,
  slot_blocks, disk_sram_blocks,
}
use rewind_os.Disk.Calls.{
  write_table, rwos_disk_set_boot_target, rwos_disk_set_last_snap, rwos_disk_init,
  rwos_disk_auto_format, after_ready, loaded, mark_formatted,
}
use rewind_os.Disk.Crash.{Reads, TearsDetectably}
use rewind_os.Disk.Update.{IsRetargeted}
use rewind_os.Disk.Start.{set_boot_target-init, set_boot_target_survives}
use rewind_os.Disk.Format.{formatted-IsSealed, AfterFormat, auto_format_cases}

memory_card-Reads : Reads memory_card
memory_card-Reads c lba = (c.blocks lba, refl)

parse_empty : rwos_disk_parse [] ≡ none
unfolding rwos_disk_parse parse_words parse_native parse_admin words
parse_empty = refl

memory_card-TearsDetectably : TearsDetectably memory_card
memory_card-TearsDetectably c lba b =
    let here = update_self c.blocks lba (stored (next_code c.codes) b) in
    elim (stored-cases (next_code c.codes) b) [
      | inl e ↦ inl (rw (here, e) parse_empty)
      | inr e ↦ inr (inr (rw (here, e) refl))
    ]

-- 320 KB of memory and a card of 4096 blocks.
abbrev old_table : RwosDisk
old_table = formatted 327680 4096

abbrev loaded_table : Disk
loaded_table = record { table = old_table; valid = true }

old_table-IsSealed : IsSealed old_table
old_table-IsSealed = formatted-IsSealed 327680 4096 (omega arith)

abbrev torn : MemoryCard
torn = record { codes = ok ∷ err 4 ∷ []; size = 4096; blocks = λ j. image old_table }

abbrev sound : MemoryCard
sound = record torn { codes = [] }

auto_format_cases_example :
    AfterFormat memory_card 327680 loaded_table sound
      (rwos_disk_auto_format memory_card 327680 loaded_table sound)
auto_format_cases_example =
    auto_format_cases memory_card 327680 loaded_table sound (omega arith) (omega arith)

abbrev after_target : MemoryCard
after_target = (rwos_disk_set_boot_target memory_card 2 1 7 loaded_table torn).1.1

started_target : (rwos_disk_init memory_card 327680 loaded_table after_target).0 ≡ ok
unfolding rwos_disk_init rwos_disk_set_boot_target write_table rwos_disk_write_both write_second
    media_ready ready_with init_card after_ready loaded mark_formatted rwos_disk_read_best
    read_second copy_of choose rwos_disk_parse parse_words parse_native parse_admin words bytes
    rwos_disk_checksum checksum fnv_loop formatted with_boot_target next_generation rwfs_start
    slot_blocks disk_sram_blocks
started_target = refl

set_boot_target_survives_example :
    let started = rwos_disk_init memory_card 327680 loaded_table after_target in
    (rwos_disk_get started.1.0 ≡ some old_table)
    ⊎ (rwos_disk_get started.1.0 ≡ some (with_boot_target 2 1 7 old_table))
set_boot_target_survives_example =
    set_boot_target_survives memory_card memory_card-IsLawful memory_card-Reads
      memory_card-TearsDetectably 2 1 7 loaded_table loaded_table torn 327680 refl
      old_table-IsSealed (omega arith, (omega arith, (omega arith, tt))) (refl, refl) started_target

abbrev after_snap : MemoryCard
after_snap = (rwos_disk_set_last_snap memory_card 1 7 loaded_table torn).1.1

started_snap : (rwos_disk_init memory_card 327680 loaded_table after_snap).0 ≡ ok
unfolding rwos_disk_init rwos_disk_set_last_snap write_table rwos_disk_write_both write_second
    media_ready ready_with init_card after_ready loaded mark_formatted rwos_disk_read_best
    read_second copy_of choose rwos_disk_parse parse_words parse_native parse_admin words bytes
    rwos_disk_checksum checksum fnv_loop formatted with_last_snap next_generation rwfs_start
    slot_blocks disk_sram_blocks
started_snap = refl

abbrev after_sound : MemoryCard
after_sound = (rwos_disk_set_boot_target memory_card 2 1 7 loaded_table sound).1.1

set_sound : (rwos_disk_set_boot_target memory_card 2 1 7 loaded_table sound).0 ≡ ok
unfolding rwos_disk_set_boot_target write_table rwos_disk_write_both write_second
set_sound = refl

started_sound : (rwos_disk_init memory_card 327680 loaded_table after_sound).0 ≡ ok
unfolding rwos_disk_init rwos_disk_set_boot_target write_table rwos_disk_write_both write_second
    media_ready ready_with init_card after_ready loaded mark_formatted rwos_disk_read_best
    read_second copy_of choose rwos_disk_parse parse_words parse_native parse_admin words bytes
    rwos_disk_checksum checksum fnv_loop formatted with_boot_target next_generation rwfs_start
    slot_blocks disk_sram_blocks
started_sound = refl

set_boot_target-init_example :
    (d : RwosDisk) × ((rwos_disk_get
          (rwos_disk_init memory_card 327680 loaded_table after_sound).1.0
        ≡ some d)
      × IsRetargeted 2 1 7 old_table d)
set_boot_target-init_example =
    set_boot_target-init memory_card memory_card-IsLawful memory_card-Reads 2 1 7 loaded_table
      loaded_table sound 327680 refl old_table-IsSealed
      (omega arith, (omega arith, (omega arith, tt))) set_sound started_sound
