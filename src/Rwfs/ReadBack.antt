-- ===== src/Rwfs/ReadBack.antt =====
-- What was written is read.
use rewind_os.Base.{ℕ, ◌+◌, ◌^◌, ◌≤◌, ◌<◌, ◌≡◌, ◌≢◌, refl, ap, ◌∙◌, true, false, ◌&&◌, some}
use rewind_os.Base.{◌==◌, take, List, length, ltb, arith}
use rewind_os.Media.{ok, got, BlockDevice, IsLawful}
use rewind_os.Media.Checksum.{checksum_lt}
use rewind_os.Disk.{RwosDisk}
use rewind_os.Disk.Crash.{Reads}
use rewind_os.Rwfs.{
  Super, IndexEntry, rwfs_strnlen, rwfs_name_max, rwfs_name_valid, rwfs_name_hash, rwfs_div_up,
  rwfs_streq_name, entry_live,
}
use rewind_os.Rwfs.Mount.{Rwfs}
use rewind_os.Rwfs.Files.{
  new_entry, advanced, record_size, find_from, rwfs_find_entry, rwfs_write_all_atomic,
}
use rewind_os.Rwfs.Reads.{read_record, read_found, read_mounted, with_state, rwfs_read_all}
use rewind_os.Rwfs.Names.{AreBytes, streq_name-name_copy}
use rewind_os.Rwfs.Record.{IsStored-same, Describes, read_record-IsStored}
use rewind_os.Rwfs.Index.{index_entry}
use rewind_os.Rwfs.Mounted.{StaysReady, HasFiles, mount-HasFiles}
use rewind_os.Rwfs.Find.{hit, find_from_first}
use rewind_os.Rwfs.Write.{div_up_fits, entry_for}
use rewind_os.Rwfs.RoundTrip.{Wrote, write-Wrote, hit_same, entry_count_lem}

module _ (D : BlockDevice) (law : IsLawful D) (reads : Reads D) (ready : StaysReady D) where
  open D use {Card}

  read_found_lem :
      (name src : List ℕ) (cap idx : ℕ) (e : IndexEntry) (g : Rwfs) (c c' : Card)
      → g.entries idx ≡ e
      → e.data_len ≤ cap
      → read_record D e (rwfs_name_hash name) c ≡ some (got src, c')
      → read_found D name cap (some idx) (g, c) ≡ some (got src, (g, c'))
  unfolding read_found with_state
  read_found_lem name src cap idx e g c c' same fits r =
      let room : ltb cap e.data_len ≡ false = ground arith in simp (same, room, r) refl

  hit_entry :
      (name src : List ℕ) (s : Super) (gen idx : ℕ) (es : ℕ → IndexEntry)
      → es idx ≡ entry_for D name src idx gen s
      → rwfs_name_valid name ≡ true
      → hit name es idx ≡ true
  unfolding hit new_entry
  hit_entry name src s gen idx es e v =
      ap (λ (x : IndexEntry). (x.state == entry_live) && rwfs_streq_name x.name name) e
      ∙ streq_name-name_copy name v

  -- The entry of the file is the first of its name in the new index.
  first_lem :
      (d : RwosDisk) (name src : List ℕ) (s : Super) (c c' : Card) (es : ℕ → IndexEntry)
      → (w : Wrote D law reads ready d name src s c c')
      → ((k : ℕ) → k < 32 → es k ≡ index_entry D (advanced (record_size (length src)) s) c' k)
      → find_from 34 0 name es ≡ some w.idx
  first_lem d name src s c c' es w loaded =
      let f = w.file in
      let e = entry_for D name src w.idx w.gen s in
      let here : es w.idx ≡ e = loaded w.idx f.written.place ∙ f.written.entry_lem in
      find_from_first 34 0 name es w.idx (omega (arith, f.written.place)) (record {
        from = omega arith;
        match_lem = hit_entry name src s w.gen w.idx es here w.valid;
        earlier = λ j low lt.
            hit_same D law reads ready name es (index_entry D s c) j (
              loaded j (omega (arith, f.written.place))
              ∙ f.written.others j (omega (arith, f.written.place)) (λ p. absurd (omega arith)))
            ∙ w.earlier j lt (omega (arith, f.written.place));
      })

  described :
      (d : RwosDisk) (name src : List ℕ) (s : Super) (c c' : Card)
      → HasFiles D d.rwfs_start_lba d.rwfs_blocks s c
      → length src + 511 < 2 ^ 32
      → (w : Wrote D law reads ready d name src s c c')
      → Describes D law reads
          (entry_for D name src w.idx w.gen s)
          (rwfs_name_hash name)
          (rwfs_div_up (length src) 512)
          src
  unfolding new_entry rwfs_name_hash
  described d name src s c c' files short w =
      let fit = div_up_fits (length src) short in
      let room = w.file.room in
      let small = files.super.small in
      let inside = files.super.fits in
      record {
        len = refl;
        crc = refl;
        blocks = refl;
        fits = fit.0;
        small = omega arith;
        gen_word = w.gen_word;
        hash_word = checksum_lt (take (rwfs_strnlen name rwfs_name_max) name);
        len_word = omega arith;
      }

  module _ (d : RwosDisk) (name src : List ℕ) (s : Super) (g g' g₂ : Rwfs) (c c' : Card)
      (cap : ℕ) where
    -- A file that was written without an error is read with the same content: by the same system or after a
    -- restart, with whatever state it has in memory. The card had the files of the region before, the name is
    -- one of bytes, the content is shorter than 2^32 - 511 bytes and fits the buffer, the blocks can be
    -- read, and the card stays ready.
    pub write-read :
        HasFiles D d.rwfs_start_lba d.rwfs_blocks s c
        → AreBytes name
        → length src + 511 < 2 ^ 32
        → length src ≤ cap
        → rwfs_write_all_atomic D (some d) (some name) (some src) (length src) (g, c)
          ≡ some (ok, (g', c'))
        → (r : Rwfs × Card) × (rwfs_read_all D (some d) (some name) true cap (g₂, c')
            ≡ some (got src, r))
    unfolding rwfs_read_all read_mounted rwfs_find_entry new_entry
    write-read files bytes short fits e =
        let w = write-Wrote D law reads ready d name src s g g' c c' files bytes short e in
        let f = w.file in
        let s' = advanced (record_size (length src)) s in
        let m = mount-HasFiles D law reads d s' g₂ c' ready f.written.files in
        let g₃ = m.0 in
        let c₃ = m.1.0 in
        let is = m.1.1.1 in
        let lba = s.next_data_lba in
        let k = rwfs_div_up (length src) 512 in
        let en = entry_for D name src w.idx w.gen s in
        let stored = IsStored-same D lba k _ src _ c' c₃ is.same f.stored in
        let r =
          read_record-IsStored D law reads en (rwfs_name_hash name) k src
            (described d name src s c c' files short w) c₃ stored in
        let count : g₃.super.entry_count ≡ 34 =
          ap (λ (x : Super). x.entry_count) is.super_lem
          ∙ entry_count_lem s' f.written.files.super in
        let found : rwfs_find_entry name g₃ ≡ some w.idx =
          ap (λ (n : ℕ). find_from n 0 name g₃.entries) count
          ∙ first_lem d name src s c c' g₃.entries w is.entries_lem in
        let here : g₃.entries w.idx ≡ en =
          is.entries_lem w.idx f.written.place ∙ f.written.entry_lem in
        (
          (g₃, r.0),
          simp w.valid (
              ap (read_mounted D name cap) m.1.1.0
              ∙ ap (λ o. read_found D name cap o (g₃, c₃)) found
              ∙ read_found_lem name src cap w.idx en g₃ c₃ r.0 here fits r.1.0),
        )

  -- What is kept when a file is written: the region has its files, with a later place for the next one, and of
  -- the files that were there at most one entry changes and no block.
  pub record IsKept (start blocks : ℕ) (s s' : Super) (c c' : Card) : Type 0 where
    pub idx : ℕ
    pub files : HasFiles D start blocks s' c'
    pub later : s.next_data_lba + 2 ≤ s'.next_data_lba
    pub entries_lem : (j : ℕ) → j < 32 → idx ≢ j → index_entry D s' c' j ≡ index_entry D s c j
    pub blocks_lem : (j : ℕ) → start + 6 ≤ j → j < s.next_data_lba → D.content c' j ≡ D.content c j

  -- A write that returns 0 on a card with the files of a region leaves such a card, whose next free block
  -- is a later one; all entries but one and all blocks of the files that were there are as before. The name
  -- is one of bytes, the content is shorter than 2^32 - 511 bytes, the blocks can be read, and the
  -- card stays ready.
  pub write-IsKept :
      (d : RwosDisk) (name src : List ℕ) (s : Super) (g g' : Rwfs) (c c' : Card)
      → HasFiles D d.rwfs_start_lba d.rwfs_blocks s c
      → AreBytes name
      → length src + 511 < 2 ^ 32
      → rwfs_write_all_atomic D (some d) (some name) (some src) (length src) (g, c)
        ≡ some (ok, (g', c'))
      → (s' : Super) × IsKept d.rwfs_start_lba d.rwfs_blocks s s' c c'
  unfolding advanced
  write-IsKept d name src s g g' c c' files bytes short e =
      let w = write-Wrote D law reads ready d name src s g g' c c' files bytes short e in
      let f = w.file in
      let room = f.room in
      let small = files.super.small in
      let inside = files.super.fits in
      (
        advanced (record_size (length src)) s,
        record {
          idx = w.idx;
          files = f.written.files;
          later = omega arith;
          entries_lem = f.written.others;
          blocks_lem = f.older;
        },
      )
