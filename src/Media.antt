-- ===== src/Media.antt =====
-- The SD card as the disk code sees it: the functions of include/sd.h, which src/drivers/sd implements
-- on the registers of the SDMMC peripheral. They are a record of operations on a state that is not
-- looked into, with the laws that the disk code relies on: a read that succeeds hands out the content
-- of the block, a write that succeeds stores the block, and no operation touches another block. What
-- a write that fails leaves in its own block is open. Media.Words and Media.Checksum have what the
-- formats on the card share, Media.Ready how it is made ready, and Media.Memory a card that keeps the laws.
pub mod Words
pub mod Checksum
pub mod Memory
pub mod Ready
use rewind_os.Base.{ℕ, ◌≡◌, ◌≢◌, Bool, List}

-- An int result: 0, or `-n` for `err n`.
pub data Code : Type 0 where
  ok : Code
  err : ℕ → Code

-- What a read leaves: the 512 bytes of the block in the buffer, or an error.
pub data ReadResult : Type 0 where
  got : List ℕ → ReadResult
  failed : ℕ → ReadResult

-- The fields of `sd_info_t` that the disk code reads.
pub record SdInfo : Type 0 where
  pub initialized : Bool
  pub capacity_blocks : ℕ

-- `sd_detect_init` and `sd_is_detected`, `sd_use_pll48` and `sd_set_data_clkdiv`, `sd_get_info`, `sd_init`,
-- `sd_read_blocks` and `sd_write_blocks` of one block, and `busy` for the test of `g_sd_ctx` that an
-- asynchronous transfer is under way. `content` is what the card holds.
pub record BlockDevice : Type 1 where
  pub Card : Type 0
  pub detect : Card → Bool × Card
  pub set_clock : Card → Card
  pub info : Card → SdInfo
  pub init : Card → Code × Card
  pub busy : Card → Bool
  pub read : ℕ → Card → ReadResult × Card
  pub write : ℕ → List ℕ → Card → Code × Card
  pub content : Card → ℕ → List ℕ

pub record IsLawful (D : BlockDevice) : Type 0 where
  pub content-detect : (s : D.Card) (j : ℕ) → D.content (D.detect s).1 j ≡ D.content s j
  pub content-set_clock : (s : D.Card) (j : ℕ) → D.content (D.set_clock s) j ≡ D.content s j
  pub content-init : (s : D.Card) (j : ℕ) → D.content (D.init s).1 j ≡ D.content s j
  pub content-read : (s : D.Card) (lba j : ℕ) → D.content (D.read lba s).1 j ≡ D.content s j
  pub read_got :
      (s : D.Card) (lba : ℕ) (b : List ℕ) → (D.read lba s).0 ≡ got b → b ≡ D.content s lba
  pub content-write :
      (s : D.Card) (lba : ℕ) (b : List ℕ)
      → (D.write lba b s).0 ≡ ok
      → D.content (D.write lba b s).1 lba ≡ b
  pub content-write_ne :
      (s : D.Card) (lba : ℕ) (b : List ℕ) (j : ℕ)
      → lba ≢ j
      → D.content (D.write lba b s).1 j ≡ D.content s j
