-- ===== src/Rwfs/Supers.antt =====
-- The superblock, as it stands on the card.
use rewind_os.Base.{
  ℕ, ◌+◌, ◌^◌, ◌≤◌, ◌<◌, ◌≡◌, refl, ap, ◌∙◌, true, none, some, ◌∷◌, length, arith, take_all,
  if◌then◌else◌,
}
use rewind_os.Media.{got}
use rewind_os.Media.Words.{words, AreWords, AreWords-append, AreWords-zeros}
use rewind_os.Media.Checksum.{checksum_lt}
use rewind_os.Rwfs.{Super, super_fields, super_words, super_block, super_of, rwfs_super_valid}
use rewind_os.Rwfs.Mount.{super_copy, newer_copy, new_super}
use rewind_os.Rwfs.Files.{advanced}
use rewind_os.Rwfs.Marker.{words-bytes_all}

-- A superblock that is valid and can be stored, of a region that lies in the `blocks` blocks from `start`
-- on, below block 2^31, and has its index where a format puts it.
pub record IsSuper (start blocks : ℕ) (s : Super) : Type 0 where
  pub valid : rwfs_super_valid s ≡ true
  pub are_words : AreWords (super_words s)
  pub reserved_length : length s.reserved ≡ 116
  pub start_lem : s.region_start_lba ≡ start
  pub index_lem : s.index_start_lba ≡ start + 2
  pub room : 6 < s.region_blocks
  pub fits : s.region_blocks ≤ blocks
  pub small : start + blocks < 2 ^ 31

valid_copy :
    (s t : Super)
    → t ≡ s
    → rwfs_super_valid s ≡ true
    → (if rwfs_super_valid t then some t else none) ≡ some s
valid_copy s t e v = rw e (rw v refl)

-- What is read of a stored superblock.
pub super_copy-super_block :
    {start blocks : ℕ} (s : Super)
    → IsSuper start blocks s
    → super_copy (got (super_block s)) ≡ some s
unfolding super_copy
super_copy-super_block s h =
    let whole : super_of (super_words s) ≡ s =
      ap (λ r. record s { reserved = r })
        (take_all 116 s.reserved (omega (arith, h.reserved_length))) in
    valid_copy s (super_of (words (super_block s)))
      (ap super_of (words-bytes_all (super_words s) h.are_words) ∙ whole) h.valid

pub newer_copy_same : (s : Super) → newer_copy (some s) (some s) ≡ some s
unfolding newer_copy
newer_copy_same s = ground arith

-- A format makes such a superblock.
pub new_super-IsSuper :
    (start blocks : ℕ)
    → 6 < blocks
    → start + blocks < 2 ^ 31
    → IsSuper start blocks (new_super start blocks)
unfolding new_super rwfs_super_valid
new_super-IsSuper start blocks more small = record {
  valid = ground arith;
  are_words =
      AreWords-append (super_fields (new_super start blocks))
        ((new_super start blocks).checksum_word ∷ (new_super start blocks).reserved) (ground arith)
        ((checksum_lt (super_fields (new_super start blocks)), AreWords-zeros 116));
  reserved_length = refl;
  start_lem = refl;
  index_lem = omega arith;
  room = omega arith;
  fits = omega arith;
  small = small;
}

-- Where files may be.
pub next_in :
    {start blocks : ℕ} (s : Super)
    → IsSuper start blocks s
    → (start + 6 ≤ s.next_data_lba) × (s.next_data_lba ≤ start + s.region_blocks)
unfolding rwfs_super_valid
next_in s h =
    let v = h.valid in
    let a = h.start_lem in let b = h.room in let c = h.fits in let d = h.small in ground arith

-- So does a file that fits.
pub advanced-IsSuper :
    {start blocks : ℕ} (n : ℕ) (s : Super)
    → IsSuper start blocks s
    → s.next_data_lba + n ≤ start + s.region_blocks
    → IsSuper start blocks (advanced n s)
unfolding advanced rwfs_super_valid
advanced-IsSuper n s h more = record {
  valid =
      let v = h.valid in let a = h.start_lem in let b = h.fits in let c = h.small in ground arith;
  are_words =
      let w = h.are_words in
      AreWords-append (super_fields (advanced n s))
        ((advanced n s).checksum_word ∷ (advanced n s).reserved) (ground arith)
        ((checksum_lt (super_fields (advanced n s)), h.are_words.1.1.1.1.1.1.1.1.1.1.1.1));
  reserved_length = h.reserved_length;
  start_lem = h.start_lem;
  index_lem = h.index_lem;
  room = h.room;
  fits = h.fits;
  small = h.small;
}
