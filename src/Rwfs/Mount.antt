-- ===== src/Rwfs/Mount.antt =====
-- src/common_io/rwfs.c: the region of the files is found on the card or formatted. `D` is the driver of the
-- card, `disk` what `rwos_disk_get` returns. The panics on the sizes of the structures cannot occur: the
-- sizes are those of the formats.
use rewind_os.Base.{
  ℕ, zero, suc, ◌+◌, ◌-◌, ◌*◌, ◌/◌, ◌%◌, ◌^◌, Bool, true, ◌&&◌, ◌||◌, not, Option, none, some,
}
use rewind_os.Base.{List, replicate, update, ltb, leb, ◌==◌, if◌then◌else◌}
use rewind_os.Media.{Code, ok, err, ReadResult, got, failed, BlockDevice}
use rewind_os.Media.Words.{words, bytes}
use rewind_os.Media.Ready.{media_ready, sd_err_no_init}
use rewind_os.Disk.{RwosDisk}
use rewind_os.Rwfs.{
  Super, super_of, super_block, seal_super, rwfs_super_valid, IndexEntry, entry_of, entry_words,
  slot_words, with_slot, rwfs_entry_crc, rwfs_magic, data_off, total_entries, entries_per_block,
  entry_free, entry_live, err_full, err_corrupt, err_busy,
}

-- `rwfs_ctx_t`.
pub record Rwfs : Type 0 where
  pub mounted : Bool
  pub formatted : Bool
  pub last_err : Code
  pub super : Super
  pub entries : ℕ → IndexEntry

abbrev pub index_blocks_count : ℕ
index_blocks_count = 4

-- An error that is kept.
abbrev pub keep_error : {A : Type 0} → Code → Rwfs × A → Code × (Rwfs × A)
keep_error e (g, c) = (e, (record g { last_err = e }, c))

-- A live entry whose checksum is wrong counts as free.
unfoldable pub checked : IndexEntry → IndexEntry
checked e =
    if (e.state == entry_live) && not (e.entry_crc == rwfs_entry_crc e)
    then record e { state = entry_free }
    else e

-- The entries of a block, `n` to go from the `i`-th on, are copied from the place `idx` on.
unfoldable pub load_slots : ℕ → ℕ → ℕ → List ℕ → (ℕ → IndexEntry) → ℕ → IndexEntry
unfolding checked slot_words bytes
load_slots zero i idx w es = es
load_slots (suc n) i idx w es =
    load_slots n (i + 1) (idx + 1) w
      (if ltb idx total_entries then update es idx (checked (entry_of (slot_words i w))) else es)

-- A copy of the superblock counts when it was read and is valid.
unfoldable pub super_copy : ReadResult → Option Super
super_copy (got b) =
    if rwfs_super_valid (super_of (words b)) then some (super_of (words b)) else none
super_copy (failed n) = none

-- Copy A, unless only copy B is there or B has a greater generation.
unfoldable pub newer_copy : Option Super → Option Super → Option Super
newer_copy none b = b
newer_copy (some a) none = some a
newer_copy (some a) (some b) = if leb b.generation a.generation then some a else some b

unfoldable pub new_super : ℕ → ℕ → Super
new_super start blocks = seal_super (record {
  magic = rwfs_magic;
  version = 1;
  generation = 1;
  region_start_lba = start;
  region_blocks = blocks;
  index_start_lba = (start + 2) % 2 ^ 32;
  index_blocks = index_blocks_count;
  data_start_lba = (start + data_off) % 2 ^ 32;
  data_blocks = blocks - data_off;
  entry_count = total_entries;
  next_data_lba = (start + data_off) % 2 ^ 32;
  checksum_word = 0;
  reserved = replicate 116 0;
})

-- The file system after a format: no entry is live.
unfoldable pub emptied : Super → Rwfs → Rwfs
emptied s g = record g {
  mounted = true;
  formatted = true;
  last_err = ok;
  super = s;
  entries =
      λ i. if ltb i s.entry_count then record (g.entries i) { state = entry_free } else g.entries i;
}

-- What follows a read, by its result.
abbrev pub on_read {ℓ} :
    {A : Type ℓ} {C : Type 0} → ReadResult × C → (ℕ → C → A) → (List ℕ → C → A) → A
on_read (got b, c) stop next = next b c
on_read (failed n, c) stop next = stop n c

-- What follows a step that returned 0.
abbrev pub and_then : {C : Type 0} → Code × C → (C → Code × C) → Code × C
and_then (ok, c) next = next c
and_then (err n, c) next = (err n, c)

module _ (D : BlockDevice) where
  open D use {Card}

  unfoldable pub rwfs_media_ready : Card → Code × Card
  rwfs_media_ready c = if D.busy c then (err_busy, c) else media_ready D c

  unfoldable pub rwfs_read_super_copy : ℕ → Card → Option Super × Card
  rwfs_read_super_copy lba c = (super_copy (D.read lba c).0, (D.read lba c).1)

  -- Copy B is written when copy A was.
  unfoldable pub rwfs_write_super_both : Super → Card → Code × Card
  rwfs_write_super_both s c =
      and_then (D.write s.region_start_lba (super_block s) c)
        (D.write ((s.region_start_lba + 1) % 2 ^ 32) (super_block s))

  -- The blocks of the index from `b` on, `n` to go.
  unfoldable pub read_blocks :
      ℕ → ℕ → Super → (ℕ → IndexEntry) × Card → Code × ((ℕ → IndexEntry) × Card)
  read_blocks zero b s (es, c) = (ok, (es, c))
  read_blocks (suc n) b s (es, c) =
      on_read (D.read ((s.index_start_lba + b) % 2 ^ 32) c) (λ e c'. (err e, (es, c')))
        (λ blk c'.
          read_blocks n (b + 1) s
            (load_slots entries_per_block 0 (entries_per_block * b) (words blk) es, c'))

  unfoldable pub rwfs_read_index :
      Super → (ℕ → IndexEntry) × Card → Code × ((ℕ → IndexEntry) × Card)
  rwfs_read_index s r = read_blocks index_blocks_count 0 s r

  unfoldable pub rwfs_write_index_entry : Super → ℕ → IndexEntry → Card → Code × Card
  rwfs_write_index_entry s idx e c =
      let lba = (s.index_start_lba + idx / entries_per_block) % 2 ^ 32 in
      if leb index_blocks_count (idx / entries_per_block)
      then (err_corrupt, c)
      else on_read (D.read lba c) (λ n c'. (err n, c'))
          (λ b c'.
            D.write lba (bytes (with_slot (idx % entries_per_block) (entry_words e) (words b))) c')

  -- Blocks of zeros, `n` to go from the `b`-th block of the index on.
  unfoldable pub clear_index : ℕ → ℕ → Super → Card → Code × Card
  clear_index zero b s c = (ok, c)
  clear_index (suc n) b s c =
      and_then (D.write ((s.index_start_lba + b) % 2 ^ 32) (replicate 512 0) c)
        (clear_index n (b + 1) s)

  unfoldable pub format_done : Super → Rwfs → Code × Card → Code × (Rwfs × Card)
  format_done s g (ok, c) = (ok, (emptied s g, c))
  format_done s g (err n, c) = (err n, (g, c))

  unfoldable pub rwfs_format_region : ℕ → ℕ → Rwfs × Card → Code × (Rwfs × Card)
  rwfs_format_region start blocks (g, c) =
      if leb blocks data_off
      then (err_full, (g, c))
      else (let s = new_super start blocks in
          format_done s g
            (and_then (clear_index index_blocks_count 0 s c) (rwfs_write_super_both s)))

  unfoldable pub mounted_with : Rwfs → Code × ((ℕ → IndexEntry) × Card) → Code × (Rwfs × Card)
  mounted_with g (ok, (es, c)) =
      (ok, (record g { mounted = true; formatted = true; last_err = ok; entries = es }, c))
  mounted_with g (err n, (es, c)) = (err n, (record g { last_err = err n; entries = es }, c))

  -- The superblock that was found, or none.
  unfoldable pub mount_super : ℕ → ℕ → Option Super → Rwfs × Card → Code × (Rwfs × Card)
  mount_super start blocks none r = rwfs_format_region start blocks r
  mount_super start blocks (some s) (g, c) =
      if not (s.region_start_lba == start) || ltb blocks s.region_blocks
      then rwfs_format_region start blocks (record g { super = s }, c)
      else mounted_with (record g { super = s }) (rwfs_read_index s (g.entries, c))

  -- The region of the table of the card.
  unfoldable pub mount_region : ℕ → ℕ → Rwfs × Card → Code × (Rwfs × Card)
  mount_region start blocks (g, c) =
      if leb blocks data_off
      then keep_error err_full (g, c)
      else (let a = rwfs_read_super_copy start c in
          let b = rwfs_read_super_copy ((start + 1) % 2 ^ 32) a.1 in
          mount_super start blocks (newer_copy a.0 b.0) (g, b.1))

  unfoldable pub mount_disk : Option RwosDisk → Rwfs → Code × Card → Code × (Rwfs × Card)
  mount_disk disk g (err n, c) = keep_error (err n) (g, c)
  mount_disk none g (ok, c) = keep_error sd_err_no_init (g, c)
  mount_disk (some d) g (ok, c) = mount_region d.rwfs_start_lba d.rwfs_blocks (g, c)

  unfoldable pub rwfs_init_or_mount : Option RwosDisk → Rwfs → Card → Code × (Rwfs × Card)
  rwfs_init_or_mount disk g c = mount_disk disk g (rwfs_media_ready c)
