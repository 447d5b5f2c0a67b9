-- ===== src/Rwfs/Reads.antt =====
-- src/common_io/rwfs.c: files are read and listed, and the status is told. The region is mounted first. The
-- loop over the content has fuel, and a result of `none` says that it ran out. What a call writes to the
-- buffers of its caller is its result; what a failed read leaves in the buffer is not modelled.
use rewind_os.Base.{
  ℕ, zero, suc, ◌+◌, ◌-◌, ◌%◌, ◌^◌, Bool, true, false, ◌&&◌, ◌||◌, not, Option, none, some,
}
use rewind_os.Base.{List, [], ◌∷◌, ◌++◌, get_or, take, ltb, ◌==◌, if◌then◌else◌}
use rewind_os.Media.{Code, ok, err, ReadResult, got, failed, BlockDevice}
use rewind_os.Media.Words.{words}
use rewind_os.Media.Checksum.{checksum}
use rewind_os.Disk.{RwosDisk}
use rewind_os.Rwfs.{
  IndexEntry, marker_ok, fdat_magic, fden_magic, rwfs_name_valid, rwfs_name_copy, rwfs_name_hash,
  entry_live,
}
use rewind_os.Rwfs.Mount.{Rwfs, on_read, rwfs_init_or_mount}
use rewind_os.Rwfs.Files.{chunk, rwfs_find_entry}

-- How many files there are, `n` places to go from `i` on.
unfoldable pub count_from : ℕ → ℕ → (ℕ → IndexEntry) → ℕ
count_from zero i es = 0
count_from (suc n) i es = (if (es i).state == entry_live then 1 else 0) + count_from n (i + 1) es

-- `rwfs_file_info_t`.
pub record FileInfo : Type 0 where
  pub name : List ℕ
  pub size_bytes : ℕ
  pub generation : ℕ

abbrev pub info_of : IndexEntry → FileInfo
info_of e = record {
  name = rwfs_name_copy e.name;
  size_bytes = e.data_len;
  generation = e.generation;
}

-- The files in the order of the index, the first `room` of them.
unfoldable pub list_from : ℕ → ℕ → ℕ → (ℕ → IndexEntry) → List FileInfo
list_from zero i room es = []
list_from (suc n) i room es =
    let live = (es i).state == entry_live in
    let fits = live && ltb 0 room in
    let later = list_from n (i + 1) (if fits then room - 1 else room) es in
    if fits then info_of (es i) ∷ later else later

-- `rwfs_status_t`.
pub record Status : Type 0 where
  pub mounted : Bool
  pub formatted : Bool
  pub last_err : Code
  pub region_start_lba : ℕ
  pub region_blocks : ℕ
  pub next_data_lba : ℕ
  pub super_generation : ℕ
  pub file_count : ℕ

unfoldable pub rwfs_get_status : Rwfs → Status
unfolding count_from
rwfs_get_status g = record {
  mounted = g.mounted;
  formatted = g.formatted;
  last_err = g.last_err;
  region_start_lba = g.super.region_start_lba;
  region_blocks = g.super.region_blocks;
  next_data_lba = g.super.next_data_lba;
  super_generation = g.super.generation;
  file_count = count_from g.super.entry_count 0 g.entries;
}

-- The tests after the content was read. The pointer to the header is one into the buffer of blocks, which
-- has the tail by then: the tail's word is compared twice, the header's never.
unfoldable pub read_checked : IndexEntry → ℕ → List ℕ → List ℕ → ReadResult
read_checked e hash content t =
    if not (marker_ok fden_magic hash e t)
    then failed 23
    else (if not (get_or t 5 0 == e.content_crc) || not (get_or t 5 0 == e.content_crc)
        then failed 23
        else (if checksum content == e.content_crc then got content else failed 23))

unfoldable pub with_state :
    {C : Type 0} → Rwfs → Option (ReadResult × C) → Option (ReadResult × (Rwfs × C))
with_state g none = none
with_state g (some (r, c)) = some (r, (g, c))

module _ (D : BlockDevice) where
  open D use {Card}

  -- The content comes from the blocks from `lba` on, behind the bytes that are there.
  unfoldable pub read_payload : ℕ → List ℕ → ℕ → ℕ → Card → Option (Code × (List ℕ × Card))
  read_payload zero dst rem lba c = none
  read_payload (suc fuel) dst rem lba c = elim (rem == 0) [
    | true ↦ some (ok, (dst, c))
    | false ↦
        let n = chunk rem in
        on_read (D.read lba c) (λ e c'. some (err e, (dst, c')))
          (λ b c'. read_payload fuel (dst ++ take n b) (rem - n) ((lba + 1) % 2 ^ 32) c')
  ]

  unfoldable pub read_tail :
      IndexEntry → ℕ → Option (Code × (List ℕ × Card)) → Option (ReadResult × Card)
  read_tail e hash none = none
  read_tail e hash (some (ok, (content, c))) =
      on_read (D.read ((e.data_lba + e.record_blocks + 2 ^ 32 - 1) % 2 ^ 32) c)
        (λ n c'. some (failed n, c')) (λ b c'. some (read_checked e hash content (words b), c'))
  read_tail e hash (some (err n, (content, c))) = some (failed n, c)

  -- The file of an entry: its header, its content, its tail.
  unfoldable pub read_record : IndexEntry → ℕ → Card → Option (ReadResult × Card)
  read_record e hash c =
      on_read (D.read e.data_lba c) (λ n c'. some (failed n, c'))
        (λ b c'.
          if not (marker_ok fdat_magic hash e (words b))
          then some (failed 23, c')
          else read_tail e hash
              (read_payload (e.data_len + 1) [] e.data_len ((e.data_lba + 1) % 2 ^ 32) c'))

  unfoldable pub read_found :
      List ℕ → ℕ → Option ℕ → Rwfs × Card → Option (ReadResult × (Rwfs × Card))
  read_found name cap none r = some (failed 22, r)
  read_found name cap (some i) (g, c) =
      if ltb cap (g.entries i).data_len
      then some (failed 6, (g, c))
      else with_state g (read_record (g.entries i) (rwfs_name_hash name) c)

  unfoldable pub read_mounted :
      List ℕ → ℕ → Code × (Rwfs × Card) → Option (ReadResult × (Rwfs × Card))
  read_mounted name cap (ok, (g, c)) = read_found name cap (rwfs_find_entry name g) (g, c)
  read_mounted name cap (err n, r) = some (failed n, r)

  -- `there` says that neither the buffer nor the place for the length is null.
  unfoldable pub rwfs_read_all :
      Option RwosDisk
      → Option (List ℕ)
      → Bool
      → ℕ
      → Rwfs × Card
      → Option (ReadResult × (Rwfs × Card))
  rwfs_read_all disk none there cap r = some (failed 6, r)
  rwfs_read_all disk (some name) there cap (g, c) =
      if not (rwfs_name_valid name) || not there
      then some (failed 6, (g, c))
      else read_mounted name cap (rwfs_init_or_mount D disk g c)

  -- What the list has, and how many files there are.
  unfoldable pub listed : ℕ → Code × (Rwfs × Card) → Code × ((List FileInfo × ℕ) × (Rwfs × Card))
  listed room (ok, (g, c)) =
      let n = g.super.entry_count in
      (ok, ((list_from n 0 room g.entries, count_from n 0 g.entries), (g, c)))
  listed room (err n, r) = (err n, (([], 0), r))

  -- The room of the list is 0 where its pointer is null; the pointer to the count is not.
  unfoldable pub rwfs_list :
      Option RwosDisk → ℕ → Rwfs × Card → Code × ((List FileInfo × ℕ) × (Rwfs × Card))
  rwfs_list disk room (g, c) = listed room (rwfs_init_or_mount D disk g c)
