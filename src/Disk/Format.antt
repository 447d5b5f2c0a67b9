-- ===== src/Disk/Format.antt =====
-- The layout that `rwos_disk_auto_format` of src/common_io/rwos_disk.c writes on an empty card.
use rewind_os.Base.{
  ℕ, ◌+◌, ◌*◌, ◌%◌, ◌^◌, ◌≤◌, ◌<◌, ◌≡◌, ◌⊎◌, refl, Bool, true, false, ◌||◌, not, inl, List, [], ◌∷◌,
  ◌++◌, arith, ◌==◌, ltb, replicate, if-cases, ltb→lt,
}
use rewind_os.Media.{Code, err, BlockDevice}
use rewind_os.Media.Words.{AreWords-append, AreWords-zeros}
use rewind_os.Disk.Update.{rwos_disk_checksum_lt}
use rewind_os.Disk.{RwosDisk, fields, IsSealed, rwos_disk_checksum}
use rewind_os.Disk.Table.{
  Disk, disk_sram_blocks, slot_blocks, rwfs_start, formatted, min_rwfs_blocks,
}
use rewind_os.Disk.Calls.{rwos_disk_auto_format, format_with, write_table}

-- The regions follow each other from block 3 to the end of the card, a slot holds the memory and the
-- header blocks, and the region of the files has 64 blocks at least.
pub record IsLaidOut (sram card_blocks : ℕ) (d : RwosDisk) : Type 0 where
  pub after_tables : d.journal_start_lba ≡ 3
  pub after_journal : d.snap_start_lba ≡ d.journal_start_lba + d.journal_blocks
  pub slots_fill : d.snap_blocks ≡ d.snap_slots * d.snap_slot_blocks
  pub slot_holds : sram + 16 * 512 ≤ d.snap_slot_blocks * 512
  pub after_snap : d.rwfs_start_lba ≡ d.snap_start_lba + d.snap_blocks
  pub to_end : d.rwfs_start_lba + d.rwfs_blocks ≡ card_blocks
  pub files_fit : 64 ≤ d.rwfs_blocks
  pub whole_card : d.total_blocks ≡ card_blocks

disk_sram_blocks_lem :
    (sram : ℕ)
    → sram + 512 ≤ 2 ^ 32
    → (sram ≤ disk_sram_blocks sram * 512) × (disk_sram_blocks sram ≤ 2 ^ 23)
unfolding disk_sram_blocks
disk_sram_blocks_lem sram lt = ground arith

slot_blocks_lem :
    (sram : ℕ)
    → sram + 512 ≤ 2 ^ 32
    → (sram + 16 * 512 ≤ slot_blocks sram * 512) × (slot_blocks sram ≤ 2 ^ 23 + 16)
unfolding slot_blocks
slot_blocks_lem sram lt =
    let holds = disk_sram_blocks_lem sram lt in
    let a = holds.0 in let b = holds.1 in (omega arith, omega arith)

rwfs_start_lem : (sram : ℕ) → sram + 512 ≤ 2 ^ 32 → rwfs_start sram ≡ 131 + 4 * slot_blocks sram
unfolding rwfs_start
rwfs_start_lem sram lt = let b = (slot_blocks_lem sram lt).1 in omega arith

formatted-IsLaidOut :
    (sram card_blocks : ℕ)
    → sram + 512 ≤ 2 ^ 32
    → rwfs_start sram + 64 ≤ card_blocks
    → IsLaidOut sram card_blocks (formatted sram card_blocks)
unfolding formatted
formatted-IsLaidOut sram card_blocks lt le =
    let holds = (slot_blocks_lem sram lt).0 in
    let small = (slot_blocks_lem sram lt).1 in
    let start = rwfs_start_lem sram lt in
    record {
      after_tables = refl;
      after_journal = refl;
      slots_fill = omega arith;
      slot_holds = holds;
      after_snap = omega arith;
      to_end = omega arith;
      files_fit = omega arith;
      whole_card = refl;
    }

abbrev sealed_fields : RwosDisk → List ℕ
sealed_fields d = fields d ++ (rwos_disk_checksum d ∷ [])

pub formatted-IsSealed :
    (sram card_blocks : ℕ) → card_blocks < 2 ^ 32 → IsSealed (formatted sram card_blocks)
unfolding formatted rwos_disk_checksum slot_blocks rwfs_start
formatted-IsSealed sram card_blocks lt = record {
  magic_lem = refl;
  version_lem = refl;
  checksum_lem = refl;
  are_words =
      AreWords-append (sealed_fields (formatted sram card_blocks)) (replicate 109 0)
        (ground (arith, rwos_disk_checksum_lt (formatted sram card_blocks))) (AreWords-zeros 109);
  reserved_length = refl;
}

no_card_lem : (b : Bool) (n : ℕ) → (not b || (n == 0)) ≡ true → (b ≡ false) ⊎ (n ≡ 0)
no_card_lem true n e = ground arith
no_card_lem false n e = inl refl

not_ltb→le : (a b : ℕ) → ltb a b ≡ false → b ≤ a
not_ltb→le a b e = ground arith

-- The card is initialised and not empty.
abbrev pub HasCard : (D : BlockDevice) → D.Card → Type 0
HasCard D c = ((D.info c).initialized ≡ true) × (0 < (D.info c).capacity_blocks)

card_lem : (b : Bool) (n : ℕ) → (not b || (n == 0)) ≡ false → (b ≡ true) × (0 < n)
card_lem true n e = (refl, ground arith)
card_lem false n e = absurd (cc e)

-- What a format may come to: the conditions of the three cases exclude each other.
pub data AfterFormat (D : BlockDevice) (sram : ℕ) (g : Disk) (c : D.Card)
    : Code × (Disk × D.Card) → Type 0 where
  no_card :
      ((D.info c).initialized ≡ false) ⊎ ((D.info c).capacity_blocks ≡ 0)
      → AfterFormat D sram g c (err 5, (g, c))
  too_small :
      HasCard D c
      → (D.info c).capacity_blocks < 131 + 4 * slot_blocks sram + 64
      → AfterFormat D sram g c (err 6, (g, c))
  written :
      (d : RwosDisk)
      → HasCard D c
      → 131 + 4 * slot_blocks sram + 64 ≤ (D.info c).capacity_blocks
      → IsLaidOut sram (D.info c).capacity_blocks d
      → IsSealed d
      → AfterFormat D sram g c (write_table D d g c)

-- The format of a card, on every branch: it is refused with no change exactly if the card is not initialised
-- or empty (status 5), or else has fewer blocks than the regions need (status 6); otherwise the table is
-- laid out over the card, and what is returned and left on the card is what the write of both copies
-- makes of it. The memory and the count of blocks are 32-bit numbers, and the memory is 512 bytes
-- short of all addresses.
pub auto_format_cases :
    (D : BlockDevice) (sram : ℕ) (g : Disk) (c : D.Card)
    → sram + 512 ≤ 2 ^ 32
    → (D.info c).capacity_blocks < 2 ^ 32
    → AfterFormat D sram g c (rwos_disk_auto_format D sram g c)
unfolding rwos_disk_auto_format format_with
auto_format_cases D sram g c lt fits =
    let start = rwfs_start_lem sram lt in
    let small = (slot_blocks_lem sram lt).1 in
    if-cases (AfterFormat D sram g c)
      (not (D.info c).initialized || ((D.info c).capacity_blocks == 0)) _ _
      (λ e. no_card (no_card_lem (D.info c).initialized (D.info c).capacity_blocks e))
      (λ e.
        let has = card_lem (D.info c).initialized (D.info c).capacity_blocks e in
        if-cases (AfterFormat D sram g c)
          (ltb (D.info c).capacity_blocks ((rwfs_start sram + min_rwfs_blocks) % 2 ^ 32)) _ _
          (λ f. too_small has (let f' = ltb→lt _ _ f in omega arith))
          (λ f.
            written (formatted sram (D.info c).capacity_blocks) has
              (let f' = not_ltb→le _ _ f in omega arith)
              (formatted-IsLaidOut sram (D.info c).capacity_blocks lt
                (let f' = not_ltb→le _ _ f in omega arith))
              (formatted-IsSealed sram (D.info c).capacity_blocks fits)))
