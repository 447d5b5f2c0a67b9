-- ===== src/Rwfs/Tests.antt =====
-- The theorems on files at a region of 40 blocks in memory, and runs of the calls.
use rewind_os.Base.{
  ℕ, ◌≡◌, refl, ap, true, false, Option, none, some, List, [], ◌∷◌, length, replicate, arith,
}
use rewind_os.Media.{Code, ok, err, ReadResult, got}
use rewind_os.Media.Words.{words, bytes}
use rewind_os.Media.Checksum.{checksum, fnv_loop}
use rewind_os.Media.Ready.{media_ready, ready_with, init_card}
use rewind_os.Media.Memory.{MemoryCard, memory_card, memory_card-IsLawful}
use rewind_os.Disk.{RwosDisk}
use rewind_os.Disk.Table.{formatted}
use rewind_os.Disk.Crash.{Reads}
use rewind_os.Rwfs.{
  Super, rwfs_strnlen, rwfs_name_valid, streq_from, rwfs_streq_name, rwfs_name_copy, rwfs_name_hash,
  rwfs_div_up, rwfs_super_valid, rwfs_entry_crc, slot_words, with_slot, marker_block,
}
use rewind_os.Rwfs.Mount.{
  Rwfs, checked, load_slots, super_copy, newer_copy, new_super, emptied, rwfs_media_ready,
  rwfs_read_super_copy, rwfs_write_super_both, read_blocks, rwfs_read_index, rwfs_write_index_entry,
  clear_index, format_done, rwfs_format_region, mounted_with, mount_super, mount_region, mount_disk,
  rwfs_init_or_mount,
}
use rewind_os.Rwfs.Files.{
  find_from, rwfs_find_entry, free_from, rwfs_find_free_entry, place_for, new_entry, advanced,
  if_written, write_payload, publish, commit, write_tail, write_record, finish_write, write_at,
  write_placed, write_mounted, write_valid, rwfs_write_all_atomic,
}
use rewind_os.Rwfs.Reads.{rwfs_read_all}
use rewind_os.Rwfs.Mounted.{StaysReady, HasFiles}
use rewind_os.Rwfs.Format.{IsFormatted, format_region_lem}
use rewind_os.Rwfs.ReadBack.{IsKept, write-read, write-IsKept}
use rewind_os.Rwfs.Total.{file_calls_end}

memory_card-Reads : Reads memory_card
memory_card-Reads c lba = (c.blocks lba, refl)

memory_card-StaysReady : StaysReady memory_card
unfolding rwfs_media_ready media_ready ready_with init_card
memory_card-StaysReady c = refl

abbrev table : RwosDisk
table = record (formatted 327680 4096) { rwfs_start_lba = 100; rwfs_blocks = 40 }

abbrev unmounted : Rwfs
unmounted = record {
  mounted = false;
  formatted = false;
  last_err = ok;
  super = new_super 0 0;
  entries = λ i. record {
    name = [];
    state = 0;
    data_lba = 0;
    data_len = 0;
    generation = 0;
    content_crc = 0;
    record_blocks = 0;
    entry_crc = 0;
  };
}

abbrev blank_card : MemoryCard
blank_card = record { codes = []; size = 140; blocks = λ j. [] }

-- After a format.
abbrev after_format : Code × (Rwfs × MemoryCard)
after_format = rwfs_format_region memory_card 100 40 (unmounted, blank_card)

result_ok : (r : Code × (Rwfs × MemoryCard)) → r.0 ≡ ok → r ≡ (ok, (r.1.0, r.1.1))
result_ok (c, (g, m)) e = ap (λ (x : Code). (x, (g, m))) e

formats : after_format.0 ≡ ok
unfolding rwfs_format_region format_done clear_index rwfs_write_super_both new_super
formats = refl

format_region_lem_example :
    IsFormatted memory_card memory_card-IsLawful 100 40 after_format.1.0 after_format.1.1
format_region_lem_example =
    format_region_lem memory_card memory_card-IsLawful 100 40 unmounted after_format.1.0 blank_card
      after_format.1.1 (omega arith) (result_ok after_format formats)

there : HasFiles memory_card 100 40 (new_super 100 40) after_format.1.1
there = format_region_lem_example.files

abbrev name : List ℕ
name = b'a' ∷ b'b' ∷ []

abbrev content : List ℕ
content = replicate 600 b'x'

abbrev code_of : Option (Code × (Rwfs × MemoryCard)) → Code
code_of none = err 0
code_of (some r) = r.0

abbrev state_of : Option (Code × (Rwfs × MemoryCard)) → Rwfs × MemoryCard
state_of none = (unmounted, blank_card)
state_of (some r) = r.1

-- A file of two blocks is written.
abbrev after_write : Option (Code × (Rwfs × MemoryCard))
after_write =
    rwfs_write_all_atomic memory_card (some table) (some name) (some content) (length content)
      (unmounted, after_format.1.1)

written_ok :
    (r : Option (Code × (Rwfs × MemoryCard)))
    → code_of r ≡ ok
    → r ≡ some (ok, ((state_of r).0, (state_of r).1))
written_ok none e = let clash : err 0 ≡ ok = e in cc
written_ok (some (c, (g, m))) e = ap (λ (x : Code). some (x, (g, m))) e

writes : code_of after_write ≡ ok
unfolding rwfs_format_region format_done clear_index rwfs_write_super_both new_super emptied
    rwfs_write_all_atomic write_valid write_mounted write_placed write_at finish_write write_record
    write_tail if_written write_payload commit publish rwfs_write_index_entry rwfs_name_valid
    rwfs_strnlen rwfs_init_or_mount mount_disk mount_region mount_super mounted_with newer_copy
    rwfs_read_super_copy super_copy rwfs_super_valid rwfs_read_index read_blocks load_slots checked
    slot_words with_slot words bytes checksum fnv_loop rwfs_media_ready media_ready ready_with
    init_card rwfs_find_entry find_from rwfs_find_free_entry free_from place_for new_entry advanced
    rwfs_streq_name streq_from rwfs_name_copy rwfs_name_hash rwfs_div_up rwfs_entry_crc marker_block
writes = refl

write-read_example :
    (r : Rwfs × MemoryCard) × (rwfs_read_all memory_card
        (some table)
        (some name)
        true
        1024
        (unmounted, (state_of after_write).1)
      ≡ some (got content, r))
write-read_example =
    write-read memory_card memory_card-IsLawful memory_card-Reads memory_card-StaysReady table name
      content (new_super 100 40) unmounted (state_of after_write).0 unmounted after_format.1.1
      (state_of after_write).1 1024 there (omega arith) (omega arith) (omega arith)
      (written_ok after_write writes)

write-IsKept_example :
    (s' : Super) × IsKept memory_card memory_card-IsLawful memory_card-Reads memory_card-StaysReady
      100 40
      (new_super 100 40)
      s'
      after_format.1.1
      (state_of after_write).1
write-IsKept_example =
    write-IsKept memory_card memory_card-IsLawful memory_card-Reads memory_card-StaysReady table
      name content (new_super 100 40) unmounted (state_of after_write).0 after_format.1.1
      (state_of after_write).1 there (omega arith) (omega arith) (written_ok after_write writes)

abbrev full_codes : MemoryCard
full_codes = record blank_card { codes = err 4 ∷ [] }

file_calls_end_example :
    ((x : Code × (Rwfs × MemoryCard)) × (rwfs_write_all_atomic memory_card
          (some table)
          (some name)
          (some content)
          600
          (unmounted, full_codes)
        ≡ some x))
    × ((y : ReadResult × (Rwfs × MemoryCard)) × (rwfs_read_all memory_card
            (some table)
            (some name)
            true
            600
            (unmounted, full_codes)
          ≡ some y))
file_calls_end_example =
    file_calls_end memory_card (some table) (some name) (some content) true 600
      (unmounted, full_codes)
