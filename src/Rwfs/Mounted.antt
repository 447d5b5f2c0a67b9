-- ===== src/Rwfs/Mounted.antt =====
-- `rwfs_init_or_mount` on a card that has the files of a region, and after a format.
use rewind_os.Base.{ℕ, ◌+◌, ◌%◌, ◌^◌, ◌<◌, ◌≡◌, refl, ap, ap₂, ◌∙◌, true, false, not, ◌||◌}
use rewind_os.Base.{some, ltb, leb, ◌==◌, if-cases, arith}
use rewind_os.Media.{Code, ok, err, got, BlockDevice, IsLawful}
use rewind_os.Media.Ready.{content-media_ready}
use rewind_os.Disk.{RwosDisk}
use rewind_os.Disk.Crash.{Reads}
use rewind_os.Rwfs.{Super, super_block, IndexEntry}
use rewind_os.Rwfs.Mount.{
  Rwfs, super_copy, newer_copy, rwfs_media_ready, rwfs_read_super_copy, rwfs_read_index,
  mounted_with, mount_super, mount_region, mount_disk, rwfs_init_or_mount,
}
use rewind_os.Rwfs.Entries.{IsBlock}
use rewind_os.Rwfs.Supers.{IsSuper, super_copy-super_block, newer_copy_same}
use rewind_os.Rwfs.Index.{index_entry, index_entry_same, Loads, read_blocks_lem}

-- The card stays in its slot, and no transfer is under way.
abbrev pub StaysReady : BlockDevice → Type 0
StaysReady D = (c : D.Card) → (rwfs_media_ready D c).0 ≡ ok

module _ (D : BlockDevice) where
  open D use {Card}

  -- Both copies of the superblock are there, and the blocks of the index have 512 bytes.
  pub record HasFiles (start blocks : ℕ) (s : Super) (c : Card) : Type 0 where
    pub super : IsSuper start blocks s
    pub first : D.content c start ≡ super_block s
    pub second : D.content c (start + 1) ≡ super_block s
    pub index : (b : ℕ) → b < 4 → IsBlock (D.content c (start + 2 + b))

  -- What is in memory after a mount: the superblock and the entries of the card.
  pub record IsMounted (s : Super) (c : Card) (g : Rwfs) (c' : Card) : Type 0 where
    pub super_lem : g.super ≡ s
    pub entries_lem : (k : ℕ) → k < 32 → g.entries k ≡ index_entry D s c k
    pub same : (j : ℕ) → D.content c' j ≡ D.content c j

  pub HasFiles-same :
      {start blocks : ℕ} (s : Super) (c c' : Card)
      → ((j : ℕ) → D.content c' j ≡ D.content c j)
      → HasFiles start blocks s c
      → HasFiles start blocks s c'
  HasFiles-same {start} s c c' same h = record {
    super = h.super;
    first = same start ∙ h.first;
    second = same (start + 1) ∙ h.second;
    index = λ b lt. rw (same (start + 2 + b)) (h.index b lt);
  }

  module _ (law : IsLawful D) where
    pub content-rwfs_media_ready :
        (c : Card) (j : ℕ) → D.content (rwfs_media_ready D c).1 j ≡ D.content c j
    unfolding rwfs_media_ready
    content-rwfs_media_ready c j =
        if-cases (λ (r : Code × Card). D.content r.1 j ≡ D.content c j) (D.busy c) _ _ (λ e. refl)
          (λ e. content-media_ready D law c j)

    module _ (reads : Reads D) where
      -- A copy that is there is found, and reading it changes nothing.
      copy_found :
          {start blocks : ℕ} (s : Super) (lba : ℕ) (c : Card)
          → IsSuper start blocks s
          → D.content c lba ≡ super_block s
          → (rwfs_read_super_copy D lba c).0 ≡ some s
      unfolding rwfs_read_super_copy
      copy_found s lba c h e =
          let found = reads c lba in
          ap super_copy found.1
          ∙ ap (λ b. super_copy (got b)) (law.read_got c lba found.0 found.1 ∙ e)
          ∙ super_copy-super_block s h

      read_same :
          (lba : ℕ) (c : Card) (j : ℕ)
          → D.content (rwfs_read_super_copy D lba c).1 j ≡ D.content c j
      unfolding rwfs_read_super_copy
      read_same lba c j = law.content-read c lba j

      -- What is mounted of a card with the same blocks.
      later :
          (s : Super) (c c₁ : Card) (g' : Rwfs) (c' : Card)
          → ((j : ℕ) → D.content c₁ j ≡ D.content c j)
          → IsMounted s c₁ g' c'
          → IsMounted s c g' c'
      later s c c₁ g' c' same m = record {
        super_lem = m.super_lem;
        entries_lem = λ k lt. m.entries_lem k lt ∙ index_entry_same D law reads s c c₁ k same;
        same = λ j. m.same j ∙ same j;
      }

      mount_disk_ok :
          (d : RwosDisk) (g : Rwfs) (r : Code × Card)
          → r.0 ≡ ok
          → mount_disk D (some d) g r ≡ mount_region D d.rwfs_start_lba d.rwfs_blocks (g, r.1)
      unfolding mount_disk
      mount_disk_ok d g (ok, c) e = refl
      mount_disk_ok d g (err n, c) e = cc

      mounted_lem :
          (s : Super) (g : Rwfs) (c : Card) (r : Code × ((ℕ → IndexEntry) × Card))
          (new : ℕ → IndexEntry) (c' : Card) (old : ℕ → IndexEntry)
          → r ≡ (ok, (new, c'))
          → Loads D s 0 4 old new c c'
          → (g' : Rwfs) × ((mounted_with D (record g { super = s }) r ≡ (ok, (g', c')))
              × IsMounted s c g' c')
      unfolding mounted_with
      mounted_lem s g c r new c' old e l = (
        record g { super = s; mounted = true; formatted = true; last_err = ok; entries = new },
        (
          ap (mounted_with D (record g { super = s })) e,
          record {
            super_lem = refl;
            entries_lem = λ k lt. l.inside k (omega arith) (omega arith);
            same = l.same;
          },
        ),
      )

      mount_super_found :
          {start blocks : ℕ} (s : Super) (g : Rwfs) (c : Card)
          → IsSuper start blocks s
          → (g' : Rwfs) × ((c' : Card) × ((mount_super D start blocks (some s) (g, c)
                  ≡ (ok, (g', c')))
                × IsMounted s c g' c'))
      unfolding mount_super rwfs_read_index
      mount_super_found {start} {blocks} s g c h =
          let a = h.start_lem in
          let b = h.fits in
          let here : (not (s.region_start_lba == start) || ltb blocks s.region_blocks) ≡ false =
            ground arith in
          let loads =
            read_blocks_lem D law reads 4 0 4 s g.entries c refl (omega arith)
              (omega (arith, h.index_lem, h.small, h.room, h.fits)) in
          let m =
            mounted_lem s g c (rwfs_read_index D s (g.entries, c)) loads.0 loads.1.0 g.entries
              loads.1.1.0 loads.1.1.1 in
          (m.0, (loads.1.0, (simp here (m.1.0), m.1.1)))

      mount_region_found :
          {start blocks : ℕ} (s : Super) (g : Rwfs) (c : Card)
          → HasFiles start blocks s c
          → (g' : Rwfs) × ((c' : Card) × ((mount_region D start blocks (g, c) ≡ (ok, (g', c')))
                × IsMounted s c g' c'))
      unfolding mount_region
      mount_region_found {start} {blocks} s g c h =
          let enough : leb blocks 6 ≡ false = ground (arith, h.super.room, h.super.fits) in
          let wraps : (start + 1) % 2 ^ 32 ≡ start + 1 =
            omega (arith, h.super.small, h.super.room, h.super.fits) in
          let a = copy_found s start c h.super h.first in
          let c₁ = (rwfs_read_super_copy D start c).1 in
          let c₂ = (rwfs_read_super_copy D (start + 1) c₁).1 in
          let same₁ : (j : ℕ) → D.content c₁ j ≡ D.content c j = λ j. read_same start c j in
          let b = copy_found s (start + 1) c₁ h.super (same₁ (start + 1) ∙ h.second) in
          let m = mount_super_found {start = start} {blocks = blocks} s g c₂ h.super in
          let best : newer_copy (rwfs_read_super_copy D start c).0
                (rwfs_read_super_copy D (start + 1) c₁).0
              ≡ some s =
            ap₂ newer_copy a b ∙ newer_copy_same s in
          (
            m.0,
            (
              m.1.0,
              (
                simp (enough, wraps)
                    (ap (λ o. mount_super D start blocks o (g, c₂)) best ∙ m.1.1.0),
                later s c c₂ m.0 m.1.0 (λ j. read_same (start + 1) c₁ j ∙ same₁ j) m.1.1.1,
              ),
            ),
          )

      -- A card with files is mounted without an error: the superblock and the 32 entries are those on the card,
      -- and no block changes.
      pub mount-HasFiles :
          (d : RwosDisk) (s : Super) (g : Rwfs) (c : Card)
          → StaysReady D
          → HasFiles d.rwfs_start_lba d.rwfs_blocks s c
          → (g' : Rwfs) × ((c' : Card) × ((rwfs_init_or_mount D (some d) g c ≡ (ok, (g', c')))
                × IsMounted s c g' c'))
      unfolding rwfs_init_or_mount
      mount-HasFiles d s g c ready h =
          let c₁ = (rwfs_media_ready D c).1 in
          let same = content-rwfs_media_ready c in
          let m = mount_region_found s g c₁ (HasFiles-same s c c₁ same h) in
          (
            m.0,
            (
              m.1.0,
              (
                mount_disk_ok d g (rwfs_media_ready D c) (ready c) ∙ m.1.1.0,
                later s c c₁ m.0 m.1.0 same m.1.1.1,
              ),
            ),
          )
