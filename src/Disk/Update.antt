-- ===== src/Disk/Update.antt =====
-- The updates of the table keep it sealed, and the next start finds them.
use rewind_os.Base.{ℕ, ◌≤◌, ◌<◌, ◌^◌, ◌≡◌, refl, [], ◌∷◌, arith}
use rewind_os.Media.Words.{AreWords}
use rewind_os.Media.Checksum.{checksum_lt}
use rewind_os.Disk.{RwosDisk, IsSealed, rwos_disk_checksum}
use rewind_os.Disk.Table.{next_generation, with_boot_target, with_last_snap}

next_generation_lt : (g : ℕ) → g < 2 ^ 32 → next_generation g < 2 ^ 32
unfolding next_generation
next_generation_lt g lt = ground arith

next_generation_le : (g : ℕ) → g ≤ next_generation g
unfolding next_generation
next_generation_le g = ground arith

pub rwos_disk_checksum_lt : (d : RwosDisk) → rwos_disk_checksum d < 2 ^ 32
unfolding rwos_disk_checksum
rwos_disk_checksum_lt d = checksum_lt _

pub with_boot_target-IsSealed :
    (mode slot seq : ℕ) (d : RwosDisk)
    → AreWords (mode ∷ slot ∷ seq ∷ [])
    → IsSealed d
    → IsSealed (with_boot_target mode slot seq d)
unfolding with_boot_target rwos_disk_checksum
with_boot_target-IsSealed mode slot seq d (m, (sl, (sq, u))) s =
    let w = s.are_words in
    record {
      magic_lem = s.magic_lem;
      version_lem = s.version_lem;
      checksum_lem = refl;
      are_words = ground (
        arith,
        next_generation_lt d.generation,
        rwos_disk_checksum_lt (record d {
          generation = next_generation d.generation;
          boot_target_mode = mode;
          boot_target_slot = slot;
          boot_target_seq = seq;
        }),
      );
      reserved_length = s.reserved_length;
    }

pub with_last_snap-IsSealed :
    (slot seq : ℕ) (d : RwosDisk)
    → AreWords (slot ∷ seq ∷ [])
    → IsSealed d
    → IsSealed (with_last_snap slot seq d)
unfolding with_last_snap rwos_disk_checksum
with_last_snap-IsSealed slot seq d (sl, (sq, u)) s =
    let w = s.are_words in
    record {
      magic_lem = s.magic_lem;
      version_lem = s.version_lem;
      checksum_lem = refl;
      are_words = ground (
        arith,
        next_generation_lt d.generation,
        rwos_disk_checksum_lt (record d {
          generation = next_generation d.generation;
          last_snap_slot = slot;
          last_snap_seq = seq;
        }),
      );
      reserved_length = s.reserved_length;
    }

-- A table with another boot target, and the rest of the old one but for the generation and the checksum.
pub record IsRetargeted (mode slot seq : ℕ) (old d : RwosDisk) : Type 0 where
  pub new_mode : d.boot_target_mode ≡ mode
  pub new_slot : d.boot_target_slot ≡ slot
  pub new_seq : d.boot_target_seq ≡ seq
  pub same_journal :
      (d.journal_start_lba ≡ old.journal_start_lba) × (d.journal_blocks ≡ old.journal_blocks)
  pub same_snap : (d.snap_start_lba ≡ old.snap_start_lba) × (d.snap_blocks ≡ old.snap_blocks)
  pub same_slots : (d.snap_slots ≡ old.snap_slots) × (d.snap_slot_blocks ≡ old.snap_slot_blocks)
  pub same_rwfs : (d.rwfs_start_lba ≡ old.rwfs_start_lba) × (d.rwfs_blocks ≡ old.rwfs_blocks)
  pub same_last_snap :
      (d.last_snap_slot ≡ old.last_snap_slot) × (d.last_snap_seq ≡ old.last_snap_seq)

pub with_boot_target-IsRetargeted :
    (mode slot seq : ℕ) (d : RwosDisk)
    → IsRetargeted mode slot seq d (with_boot_target mode slot seq d)
unfolding with_boot_target
with_boot_target-IsRetargeted mode slot seq d = record {
  new_mode = refl;
  new_slot = refl;
  new_seq = refl;
  same_journal = (refl, refl);
  same_snap = (refl, refl);
  same_slots = (refl, refl);
  same_rwfs = (refl, refl);
  same_last_snap = (refl, refl);
}

pub with_boot_target-generation :
    (mode slot seq : ℕ) (d : RwosDisk)
    → d.generation ≤ (with_boot_target mode slot seq d).generation
unfolding with_boot_target
with_boot_target-generation mode slot seq d = next_generation_le d.generation

pub with_last_snap-generation :
    (slot seq : ℕ) (d : RwosDisk) → d.generation ≤ (with_last_snap slot seq d).generation
unfolding with_last_snap
with_last_snap-generation slot seq d = next_generation_le d.generation
