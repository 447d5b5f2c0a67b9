-- ===== src/Media/Ready.antt =====
-- `rwos_disk_media_ready` of src/common_io/rwos_disk.c, which the journal and the file system have as
-- `jrnl_media_ready` and `rwfs_media_ready`: the card is made ready before it is used.
use rewind_os.Base.{Bool, ◌≡◌, refl, ◌∙◌, true, false, ℕ, if◌then◌else◌}
use rewind_os.Media.{Code, ok, err, SdInfo, BlockDevice, IsLawful}

abbrev pub sd_err_no_init : Code
sd_err_no_init = err 5

module _ (D : BlockDevice) where
  open D use {Card}

  unfoldable pub init_card : SdInfo → Card → Code × Card
  init_card i c = if i.initialized then (ok, c) else D.init c

  -- After the detection: a card that is there is given its clock, and is initialised once.
  unfoldable pub ready_with : Bool × Card → Code × Card
  ready_with (true, c) = init_card (D.info (D.set_clock c)) (D.set_clock c)
  ready_with (false, c) = (sd_err_no_init, c)

  unfoldable pub media_ready : Card → Code × Card
  unfolding ready_with init_card
  media_ready c = ready_with (D.detect c)

module _ (D : BlockDevice) (law : IsLawful D) where
  open D use {Card}

  content-init_card :
      (b : Bool) (c : Card) (j : ℕ)
      → D.content (if b then (ok, c) else D.init c).1 j ≡ D.content c j
  content-init_card true c j = refl
  content-init_card false c j = law.content-init c j

  content-ready_with : (r : Bool × Card) (j : ℕ) → D.content (ready_with D r).1 j ≡ D.content r.1 j
  unfolding ready_with init_card
  content-ready_with (true, c) j =
      content-init_card (D.info (D.set_clock c)).initialized (D.set_clock c) j
      ∙ law.content-set_clock c j
  content-ready_with (false, c) j = refl

  -- The blocks of the card are as they were.
  pub content-media_ready : (c : Card) (j : ℕ) → D.content (media_ready D c).1 j ≡ D.content c j
  unfolding media_ready
  content-media_ready c j = content-ready_with (D.detect c) j ∙ law.content-detect c j
