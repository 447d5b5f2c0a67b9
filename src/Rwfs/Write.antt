-- ===== src/Rwfs/Write.antt =====
-- What a call of `rwfs_write_all_atomic` that returns 0 has done.
use rewind_os.Base.{ℕ, ◌+◌, ◌*◌, ◌%◌, ◌^◌, ◌≤◌, ◌<◌, ◌≡◌, refl, Bool, true, false}
use rewind_os.Base.{Option, none, some, List, length, ltb, if◌then◌else◌, arith}
use mathlib.Core.Path.{subst}
use rewind_os.Media.{Code, ok, err, BlockDevice, IsLawful}
use rewind_os.Media.Checksum.{checksum, checksum_lt}
use rewind_os.Disk.Crash.{Reads}
use rewind_os.Rwfs.{
  Super, IndexEntry, marker_block, fdat_magic, fden_magic, rwfs_name_hash, rwfs_div_up, region_end,
  rwfs_entry_crc,
}
use rewind_os.Rwfs.Mount.{Rwfs, rwfs_write_index_entry, rwfs_write_super_both}
use rewind_os.Rwfs.Files.{new_entry, advanced, record_size, publish, commit, finish_write, write_at}
use rewind_os.Rwfs.Names.{AreBytes, length-name_copy, name_copy-AreBytes}
use rewind_os.Rwfs.Record.{IsStored, write_record-IsStored}
use rewind_os.Rwfs.Entries.{IsIndexEntry}
use rewind_os.Rwfs.Supers.{next_in}
use rewind_os.Rwfs.Mounted.{HasFiles}
use rewind_os.Rwfs.Steps.{write_super_both_lem, write_index_entry_lem}
use rewind_os.Rwfs.Commit.{IsWritten, written_lem, stored_after, older_same}

-- The blocks of a content of less than 4 GiB, less one block.
pub div_up_fits :
    (n : ℕ) → n + 511 < 2 ^ 32 → (n ≤ 512 * rwfs_div_up n 512) × (rwfs_div_up n 512 ≤ 2 ^ 23)
unfolding rwfs_div_up
div_up_fits n h = ground arith

pub new_entry-IsIndexEntry :
    (name : List ℕ) (lba len gen crc blocks : ℕ)
    → AreBytes name
    → lba < 2 ^ 32
    → len < 2 ^ 32
    → gen < 2 ^ 32
    → crc < 2 ^ 32
    → blocks < 2 ^ 32
    → IsIndexEntry (new_entry name lba len gen crc blocks)
unfolding new_entry rwfs_entry_crc
new_entry-IsIndexEntry name lba len gen crc blocks h a b c d f = record {
  name_size = length-name_copy name;
  name_bytes = name_copy-AreBytes name h;
  live = refl;
  lba_word = a;
  len_word = b;
  gen_word = c;
  crc_word = d;
  blocks_word = f;
  sealed_lem = refl;
}

-- A test that did not refuse.
pub not_refused :
    {A : Type 0} (b : Bool) (n : ℕ) (a t : A) (y : Option (Code × A))
    → (if b then some (err n, a) else y) ≡ some (ok, t)
    → (b ≡ false) × (y ≡ some (ok, t))
not_refused true n a t y e = cc
not_refused false n a t y e = (refl, e)

module _ (D : BlockDevice) where
  open D use {Card}

  publish_inv :
      (g : Rwfs) (r : Code × Card) (g' : Rwfs) (c' : Card)
      → publish D g r ≡ (ok, (g', c'))
      → (r.0 ≡ ok) × (r.1 ≡ c')
  unfolding publish
  publish_inv g (ok, c) g' c' e = (refl, cc)
  publish_inv g (err n, c) g' c' e = cc

  commit_inv :
      (idx blocks : ℕ) (e : IndexEntry) (g : Rwfs) (r : Code × Card) (g' : Rwfs) (c' : Card)
      → commit D idx blocks e g r ≡ (ok, (g', c'))
      → let w = rwfs_write_super_both D (advanced blocks g.super) r.1 in
        (r.0 ≡ ok) × ((w.0 ≡ ok) × (w.1 ≡ c'))
  unfolding commit
  commit_inv idx blocks e g (ok, c) g' c' h =
      (refl, publish_inv _ (rwfs_write_super_both D (advanced blocks g.super) c) g' c' h)
  commit_inv idx blocks e g (err n, c) g' c' h = cc

  finish_write_inv :
      (idx blocks : ℕ) (e : IndexEntry) (g : Rwfs) (r : Option (Code × Card)) (g' : Rwfs)
      (c' : Card)
      → finish_write D idx blocks e g r ≡ some (ok, (g', c'))
      → (c : Card) × ((r ≡ some (ok, c))
          × (commit D idx blocks e g (rwfs_write_index_entry D g.super idx e c) ≡ (ok, (g', c'))))
  unfolding finish_write
  finish_write_inv idx blocks e g none g' c' h = cc
  finish_write_inv idx blocks e g (some (ok, c)) g' c' h = (c, (refl, cc))
  finish_write_inv idx blocks e g (some (err n, c)) g' c' h = cc

  module _ (name src : List ℕ) (idx gen : ℕ) (s : Super) where
    abbrev len : ℕ
    len = length src

    abbrev pub entry_for : IndexEntry
    entry_for = new_entry name s.next_data_lba len gen (checksum src) (record_size len)

    abbrev marker : ℕ → List ℕ
    marker magic = marker_block magic (rwfs_name_hash name) gen len (checksum src)

    -- The file is there, and so is its entry.
    pub record HasFile (start blocks : ℕ) (c c' : Card) : Type 0 where
      pub written : IsWritten D start blocks s (advanced (record_size len) s) idx entry_for c c'
      pub stored :
          IsStored D s.next_data_lba
            (rwfs_div_up len 512)
            (marker fdat_magic)
            src
            (marker fden_magic)
            c'
      pub room : s.next_data_lba + record_size len ≤ start + s.region_blocks
      pub older : (j : ℕ) → start + 6 ≤ j → j < s.next_data_lba → D.content c' j ≡ D.content c j

  module _ (law : IsLawful D) (reads : Reads D) where
    pub write_at_lem :
        (start blocks : ℕ) (name src : List ℕ) (idx gen : ℕ) (g : Rwfs) (c : Card) (g' : Rwfs)
        (c' : Card)
        → HasFiles D start blocks g.super c
        → AreBytes name
        → length src + 511 < 2 ^ 32
        → gen < 2 ^ 32
        → write_at D name src (length src) idx gen (g, c) ≡ some (ok, (g', c'))
        → HasFile name src idx gen g.super start blocks c c'
    unfolding write_at advanced
    write_at_lem start blocks name src idx gen g c g' c' files bytes short gw e =
        let s = g.super in
        let k = rwfs_div_up (length src) 512 in
        let fits = div_up_fits (length src) short in
        let fit =
          not_refused (ltb (region_end s) ((s.next_data_lba + record_size (length src)) % 2 ^ 32))
            21 (g, c) (g', c') _ e in
        let next = next_in s files.super in
        let at_start = files.super.start_lem in
        let at_index = files.super.index_lem in
        let small = files.super.small in
        let inside = files.super.fits in
        let begun = files.super.room in
        let more : s.next_data_lba + record_size (length src) ≤ start + s.region_blocks =
          ground (arith, fit.0, fits) in
        let w = finish_write_inv idx (record_size (length src)) _ g _ g' c' fit.1 in
        let stored =
          write_record-IsStored D law s.next_data_lba k _ src _ c w.0 fits.0 (omega arith) w.1.0 in
        let i = commit_inv idx (record_size (length src)) _ g _ g' c' w.1.1 in
        let e' = entry_for name src idx gen s in
        let he =
          new_entry-IsIndexEntry name s.next_data_lba (length src) gen (checksum src)
            (record_size (length src)) bytes (omega arith) (omega arith) gw (checksum_lt src)
            (omega arith) in
        let entered = write_index_entry_lem D law reads s idx e' w.0 (omega arith) i.0 in
        let c₃ = (rwfs_write_index_entry D s idx e' w.0).1 in
        let copies =
          write_super_both_lem D law start (advanced (record_size (length src)) s) c₃
            files.super.start_lem (omega arith) i.1.0 in
        subst (λ (x : Card). HasFile name src idx gen s start blocks c x) i.1.1
          (record {
            written =
                written_lem D start blocks k idx s e' c w.0 c₃ _ files he more stored.1 entered
                  copies;
            stored =
                stored_after D start blocks k idx s e' c w.0 c₃ _ files he more stored.1 entered
                  copies _ src _ stored.0;
            room = more;
            older =
                older_same D start blocks k idx s e' c w.0 c₃ _ files he more stored.1 entered
                  copies;
          })
