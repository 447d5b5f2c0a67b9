-- ===== src/Rwfs/Files.antt =====
-- src/common_io/rwfs.c: a file is written. The region is mounted first. A state is the file
-- system's and the card's. The loop over the content of a file has fuel, and a result of `none` says
-- that it ran out. The bytes at a pointer that is not null are as many as the length that is passed with it.
use rewind_os.Base.{ℕ, zero, suc, ◌+◌, ◌-◌, ◌%◌, ◌^◌, true, false, ◌&&◌, Option, none, some}
use rewind_os.Base.{List, [], ◌++◌, take, drop, replicate, update, ltb, ◌==◌, if◌then◌else◌}
use rewind_os.Media.{Code, ok, err, BlockDevice}
use rewind_os.Media.Checksum.{checksum}
use rewind_os.Disk.{RwosDisk}
use rewind_os.Disk.Table.{sd_err_param}
use rewind_os.Rwfs.{
  Super, seal_super, region_end, IndexEntry, rwfs_entry_crc, marker_block, fdat_magic, fden_magic,
  rwfs_name_valid, rwfs_streq_name, rwfs_name_copy, rwfs_name_hash, rwfs_div_up, entry_free,
  entry_live, err_name, err_full,
}
use rewind_os.Rwfs.Mount.{Rwfs, rwfs_init_or_mount, rwfs_write_index_entry, rwfs_write_super_both}

-- The first live entry of that name, `n` places to go from `i` on.
unfoldable pub find_from : ℕ → ℕ → List ℕ → (ℕ → IndexEntry) → Option ℕ
find_from zero i name es = none
find_from (suc n) i name es =
    if ((es i).state == entry_live) && rwfs_streq_name (es i).name name
    then some i
    else find_from n (i + 1) name es

unfoldable pub rwfs_find_entry : List ℕ → Rwfs → Option ℕ
unfolding find_from
rwfs_find_entry name g = find_from g.super.entry_count 0 name g.entries

unfoldable pub free_from : ℕ → ℕ → (ℕ → IndexEntry) → Option ℕ
free_from zero i es = none
free_from (suc n) i es = if (es i).state == entry_free then some i else free_from n (i + 1) es

unfoldable pub rwfs_find_free_entry : Rwfs → Option ℕ
unfolding free_from
rwfs_find_free_entry g = free_from g.super.entry_count 0 g.entries

-- The place of a file that is there, with the generation of its content, or a free one.
unfoldable pub place_for : (ℕ → IndexEntry) → Option ℕ → Option ℕ → Option (ℕ × ℕ)
place_for es (some i) free = some (i, (es i).generation)
place_for es none (some i) = some (i, 0)
place_for es none none = none

-- The bytes of a block that are still to come.
abbrev pub chunk : ℕ → ℕ
chunk rem = if ltb 512 rem then 512 else rem

-- The entry of a file that was written.
unfoldable pub new_entry : List ℕ → ℕ → ℕ → ℕ → ℕ → ℕ → IndexEntry
new_entry name lba len gen crc blocks =
    let e : IndexEntry = record {
      name = rwfs_name_copy name;
      state = entry_live;
      data_lba = lba;
      data_len = len;
      generation = gen;
      content_crc = crc;
      record_blocks = blocks;
      entry_crc = 0;
    } in
    record e { entry_crc = rwfs_entry_crc e }

-- The superblock after a file of so many blocks.
unfoldable pub advanced : ℕ → Super → Super
advanced blocks s = seal_super (record s {
  next_data_lba = (s.next_data_lba + blocks) % 2 ^ 32;
  generation = (s.generation + 1) % 2 ^ 32;
})

abbrev pub record_size : ℕ → ℕ
record_size len = 2 + rwfs_div_up len 512

-- What follows a write in the loop.
unfoldable pub if_written : {C : Type 0} → Code × C → (C → Option (Code × C)) → Option (Code × C)
if_written (ok, c) next = next c
if_written (err n, c) next = some (err n, c)

module _ (D : BlockDevice) where
  open D use {Card}

  -- The content goes to the blocks from `lba` on, `rem` bytes to go.
  unfoldable pub write_payload : ℕ → List ℕ → ℕ → ℕ → Card → Option (Code × Card)
  write_payload zero src rem lba c = none
  write_payload (suc fuel) src rem lba c = elim (rem == 0) [
    | true ↦ some (ok, c)
    | false ↦
        let n = chunk rem in
        if_written (D.write lba (take n src ++ replicate (512 - n) 0) c)
          (write_payload fuel (drop n src) (rem - n) ((lba + 1) % 2 ^ 32))
  ]

  abbrev pub FileState : Type 0
  FileState = Rwfs × Card

  -- The superblock is counted on in memory before it is written.
  unfoldable pub publish : Rwfs → Code × Card → Code × FileState
  publish g (ok, c) = (ok, (record g { last_err = ok }, c))
  publish g (err n, c) = (err n, (g, c))

  unfoldable pub commit : ℕ → ℕ → IndexEntry → Rwfs → Code × Card → Code × FileState
  commit idx blocks e g (ok, c) =
      let s = advanced blocks g.super in
      publish (record g { super = s; entries = update g.entries idx e })
        (rwfs_write_super_both D s c)
  commit idx blocks e g (err n, c) = (err n, (g, c))

  -- The blocks of a file: its header, its content and its tail.
  unfoldable pub write_tail : ℕ → List ℕ → Option (Code × Card) → Option (Code × Card)
  write_tail lba tail none = none
  write_tail lba tail (some (ok, c)) = some (D.write lba tail c)
  write_tail lba tail (some (err n, c)) = some (err n, c)

  unfoldable pub write_record : ℕ → ℕ → List ℕ → ℕ → List ℕ → List ℕ → Card → Option (Code × Card)
  write_record lba blocks src len hdr tail c = if_written (D.write lba hdr c) (λ c'.
      write_tail ((lba + blocks + 2 ^ 32 - 1) % 2 ^ 32) tail
        (write_payload (len + 1) src len ((lba + 1) % 2 ^ 32) c'))

  unfoldable pub finish_write :
      ℕ → ℕ → IndexEntry → Rwfs → Option (Code × Card) → Option (Code × FileState)
  finish_write idx blocks e g none = none
  finish_write idx blocks e g (some (ok, c)) =
      some (commit idx blocks e g (rwfs_write_index_entry D g.super idx e c))
  finish_write idx blocks e g (some (err n, c)) = some (err n, (g, c))

  -- A file gets the place `idx`, and its content the generation `gen`.
  unfoldable pub write_at : List ℕ → List ℕ → ℕ → ℕ → ℕ → FileState → Option (Code × FileState)
  write_at name src len idx gen (g, c) =
      let blocks = record_size len in
      let lba = g.super.next_data_lba in
      let hash = rwfs_name_hash name in
      let crc = checksum src in
      if ltb (region_end g.super) ((lba + blocks) % 2 ^ 32)
      then some (err_full, (g, c))
      else finish_write idx blocks (new_entry name lba len gen crc blocks) g (
          write_record lba blocks src len (marker_block fdat_magic hash gen len crc)
            (marker_block fden_magic hash gen len crc) c)

  unfoldable pub write_placed :
      List ℕ → List ℕ → ℕ → Option (ℕ × ℕ) → FileState → Option (Code × FileState)
  write_placed name src len none r = some (err_full, r)
  write_placed name src len (some (idx, prior)) r =
      write_at name src len idx ((prior + 1) % 2 ^ 32) r

  unfoldable pub write_mounted : List ℕ → List ℕ → ℕ → Code × FileState → Option (Code × FileState)
  write_mounted name src len (ok, (g, c)) =
      write_placed name src len
        (place_for g.entries (rwfs_find_entry name g) (rwfs_find_free_entry g)) (g, c)
  write_mounted name src len (err n, r) = some (err n, r)

  -- The bytes at a pointer, which may be null where the length is 0.
  unfoldable pub write_valid :
      Option RwosDisk → List ℕ → Option (List ℕ) → ℕ → FileState → Option (Code × FileState)
  write_valid disk name none len (g, c) =
      if ltb 0 len
      then some (sd_err_param, (g, c))
      else write_mounted name [] len (rwfs_init_or_mount D disk g c)
  write_valid disk name (some src) len (g, c) =
      write_mounted name src len (rwfs_init_or_mount D disk g c)

  unfoldable pub rwfs_write_all_atomic :
      Option RwosDisk
      → Option (List ℕ)
      → Option (List ℕ)
      → ℕ
      → FileState
      → Option (Code × FileState)
  rwfs_write_all_atomic disk none src len r = some (err_name, r)
  rwfs_write_all_atomic disk (some name) src len r =
      if rwfs_name_valid name then write_valid disk name src len r else some (err_name, r)
