-- ===== src/Rwfs/Commit.antt =====
-- The card after a file was written: the index has the new entry in its place and the others as they
-- were, and the region still has its files.
use rewind_os.Base.{ℕ, ◌+◌, ◌/◌, ◌%◌, ◌≤◌, ◌<◌, ◌≡◌, ◌≢◌, sym, ap, ◌∙◌, List, length, arith, inl}
use native.Mathlib.Decide.{ℕ_discrete}
use rewind_os.Media.{BlockDevice}
use rewind_os.Media.Words.{words, bytes}
use rewind_os.Rwfs.{Super, IndexEntry, entry_words, entry_of, slot_words, with_slot}
use rewind_os.Rwfs.Mount.{checked}
use rewind_os.Rwfs.Files.{advanced}
use rewind_os.Rwfs.Names.{length-words}
use rewind_os.Rwfs.Marker.{words-bytes_all}
use rewind_os.Rwfs.Payload.{Keeps, Holds}
use rewind_os.Rwfs.Record.{IsStored}
use rewind_os.Rwfs.Entries.{
  IsBlock, IsIndexEntry, words-AreWords, bytes-IsBlock, with_slot-AreWords, length-with_slot,
  slot_words-with_slot_self, slot_words-with_slot_ne, length-entry_words, entry_words-AreWords,
  entry_of-entry_words, checked_lem,
}
use rewind_os.Rwfs.Supers.{advanced-IsSuper, next_in}
use rewind_os.Rwfs.Index.{index_entry}
use rewind_os.Rwfs.Mounted.{HasFiles}
use rewind_os.Rwfs.Steps.{HasEntry, HasCopies}

-- An entry, by the block it stands in.
abbrev entry_in : List ℕ → ℕ → IndexEntry
entry_in b k = checked (entry_of (slot_words (k % 8) (words b)))

module _ (idx : ℕ) (e : IndexEntry) (he : IsIndexEntry e) (b b' : List ℕ) (block : IsBlock b)
    (new : b' ≡ bytes (with_slot (idx % 8) (entry_words e) (words b))) where
  size : length (words b) ≡ 128
  size = length-words 128 b (omega (arith, block.size))

  there : words b' ≡ with_slot (idx % 8) (entry_words e) (words b)
  there =
      ap words new
      ∙ words-bytes_all _ (
          with_slot-AreWords (idx % 8) (entry_words e) (words b) (entry_words-AreWords e he)
            (words-AreWords b block.are_bytes))

  after-IsBlock : IsBlock b'
  after-IsBlock = rw new (
      bytes-IsBlock _ (
        length-with_slot (idx % 8) (entry_words e) (words b) (length-entry_words e he)
          (omega (arith, size))
        ∙ size))

  entry_self : entry_in b' idx ≡ e
  entry_self =
      ap (λ w. checked (entry_of (slot_words (idx % 8) w))) there
      ∙ ap (λ w. checked (entry_of w))
          (slot_words-with_slot_self (idx % 8) (entry_words e) (words b) (length-entry_words e he)
            (omega (arith, size)))
      ∙ ap checked (entry_of-entry_words e he)
      ∙ checked_lem e he

  entry_ne : (j : ℕ) → idx % 8 ≢ j % 8 → entry_in b' j ≡ entry_in b j
  entry_ne j ne =
      ap (λ w. checked (entry_of (slot_words (j % 8) w))) there
      ∙ ap (λ w. checked (entry_of w))
          (slot_words-with_slot_ne (idx % 8) (j % 8) (entry_words e) (words b)
            (length-entry_words e he) (omega (arith, size)) ne)

module _ (D : BlockDevice) where
  open D use {Card}

  -- What a write leaves, for the superblock `s` and the card `c` it started from.
  pub record IsWritten (start blocks : ℕ) (s s' : Super) (idx : ℕ) (e : IndexEntry) (c c' : Card)
      : Type 0 where
    pub files : HasFiles D start blocks s' c'
    pub place : idx < 32
    pub entry_lem : index_entry D s' c' idx ≡ e
    pub others : (j : ℕ) → j < 32 → idx ≢ j → index_entry D s' c' j ≡ index_entry D s c j

  module _ (start blocks k idx : ℕ) (s : Super) (e : IndexEntry) (c c₂ c₃ c' : Card)
      (files : HasFiles D start blocks s c) (he : IsIndexEntry e)
      (more : s.next_data_lba + (2 + k) ≤ start + s.region_blocks)
      (kept : Keeps D s.next_data_lba (k + 2) c c₂) (entered : HasEntry D s idx e c₂ c₃)
      (copies : HasCopies D start (advanced (2 + k) s) c₃ c') where
    -- The blocks of the index, which the content is behind.
    index_kept : (b : ℕ) → b < 4 → D.content c₂ (start + 2 + b) ≡ D.content c (start + 2 + b)
    unfolding Keeps
    index_kept b lt = let n = next_in s files.super in kept (start + 2 + b) (inl (omega arith))

    index_copied : (b : ℕ) → b < 4 → D.content c' (start + 2 + b) ≡ D.content c₃ (start + 2 + b)
    index_copied b lt = copies.others (start + 2 + b) (omega arith) (omega arith)

    index_same :
        (b : ℕ) → b < 4 → idx / 8 ≢ b → D.content c' (start + 2 + b) ≡ D.content c (start + 2 + b)
    index_same b lt ne =
        let at_index = files.super.index_lem in
        index_copied b lt ∙ entered.others (start + 2 + b) (omega arith) ∙ index_kept b lt

    index_new :
        D.content c' (start + 2 + idx / 8)
        ≡ bytes (with_slot (idx % 8) (entry_words e) (words (D.content c (start + 2 + idx / 8))))
    index_new =
        let at_index : s.index_start_lba + idx / 8 ≡ start + 2 + idx / 8 =
          omega (arith, files.super.index_lem) in
        let low : idx / 8 < 4 = omega (arith, entered.place) in
        index_copied (idx / 8) low
        ∙ ap (D.content c₃) (sym at_index)
        ∙ entered.block
        ∙ ap (λ (n : ℕ). bytes (with_slot (idx % 8) (entry_words e) (words (D.content c₂ n))))
            at_index
        ∙ ap (λ b. bytes (with_slot (idx % 8) (entry_words e) (words b))) (index_kept (idx / 8) low)

    old-IsBlock : IsBlock (D.content c (start + 2 + idx / 8))
    old-IsBlock = files.index (idx / 8) (omega (arith, entered.place))

    files_after : HasFiles D start blocks (advanced (2 + k) s) c'
    files_after = record {
      super = advanced-IsSuper (2 + k) s files.super more;
      first = copies.first;
      second = copies.second;
      index = λ b lt. elim (ℕ_discrete (idx / 8) b) [
        | yes p ↦ rw (← p) (after-IsBlock idx e he _ _ old-IsBlock index_new)
        | no np ↦ rw (index_same b lt np) (files.index b lt)
      ];
    }

    same_entry :
        (j : ℕ)
        → j < 32
        → idx ≢ j
        → entry_in (D.content c' (start + 2 + j / 8)) j
          ≡ entry_in (D.content c (start + 2 + j / 8)) j
    same_entry j lt ne = elim (ℕ_discrete (idx / 8) (j / 8)) [
      | yes p ↦ rw (← p) (
          entry_ne idx e he _ _ old-IsBlock index_new j (λ (q : idx % 8 ≡ j % 8). ne (omega arith)))
      | no np ↦ ap (λ b. entry_in b j) (index_same (j / 8) (omega arith) np)
    ]

    others_after :
        (j : ℕ) → j < 32 → idx ≢ j → index_entry D (advanced (2 + k) s) c' j ≡ index_entry D s c j
    unfolding index_entry advanced
    others_after j lt ne =
        let at_index : s.index_start_lba + j / 8 ≡ start + 2 + j / 8 =
          omega (arith, files.super.index_lem) in
        ap (λ (n : ℕ). entry_in (D.content c' n) j) at_index
        ∙ same_entry j lt ne
        ∙ ap (λ (n : ℕ). entry_in (D.content c n) j) (sym at_index)

    pub written_lem : IsWritten start blocks s (advanced (2 + k) s) idx e c c'
    unfolding index_entry advanced
    written_lem = record {
      files = files_after;
      place = entered.place;
      entry_lem =
          ap (λ (n : ℕ). entry_in (D.content c' n) idx) (omega (arith, files.super.index_lem))
          ∙ entry_self idx e he _ _ old-IsBlock index_new;
      others = others_after;
    }

    -- The blocks behind the index are those that were written before.
    data_same : (j : ℕ) → start + 6 ≤ j → D.content c' j ≡ D.content c₂ j
    data_same j far =
        let at_index = files.super.index_lem in
        let low = entered.place in
        copies.others j (omega arith) (omega arith) ∙ entered.others j (omega arith)

    pub stored_after :
        (hdr src tail : List ℕ)
        → IsStored D s.next_data_lba k hdr src tail c₂
        → IsStored D s.next_data_lba k hdr src tail c'
    unfolding Holds
    stored_after hdr src tail st =
        let n = next_in s files.super in
        record {
          header = data_same s.next_data_lba (omega arith) ∙ st.header;
          content = λ i lt. data_same (s.next_data_lba + 1 + i) (omega arith) ∙ st.content i lt;
          trailer = data_same (s.next_data_lba + k + 1) (omega arith) ∙ st.trailer;
        }

    -- The files that were there keep their blocks.
    pub older_same : (j : ℕ) → start + 6 ≤ j → j < s.next_data_lba → D.content c' j ≡ D.content c j
    unfolding Keeps
    older_same j far before = data_same j far ∙ kept j (inl before)
