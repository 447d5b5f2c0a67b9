-- ===== src/Disk/Crash.antt =====
-- The two copies of the table: what is found on the card after a write that succeeds, and after one
-- that fails or is cut off.
use rewind_os.Base.{ℕ, ◌≤◌, ◌≡◌, ◌⊎◌, inl, inr, refl, sym, ap, ◌∙◌, Option, none, some, List, arith}
use rewind_os.Media.{Code, ok, err, got, BlockDevice, IsLawful}
use rewind_os.Disk.{RwosDisk, image, IsSealed, rwos_disk_parse}
use rewind_os.Disk.Table.{
  copy_of, choose, rwos_disk_read_best, read_second, rwos_disk_write_both, write_second,
}
use rewind_os.Disk.Image.{rwos_disk_parse-image}

-- Every block can be read.
abbrev pub Reads : BlockDevice → Type 0
Reads D = (c : D.Card) (lba : ℕ) → (b : List ℕ) × ((D.read lba c).0 ≡ got b)

-- A write of a block, however it ends, leaves one that is no table, the table that was there, or the one
-- that was to be written: the checksum tells a half-written one.
abbrev pub TearsDetectably : BlockDevice → Type 0
TearsDetectably D =
    (c : D.Card) (lba : ℕ) (b : List ℕ)
    → let after = rwos_disk_parse (D.content (D.write lba b c).1 lba) in
      (after ≡ none) ⊎ ((after ≡ rwos_disk_parse (D.content c lba)) ⊎ (after ≡ rwos_disk_parse b))

-- What a copy of the old or the new table may be.
OneOf : RwosDisk → RwosDisk → Option RwosDisk → Type 0
OneOf old new o = (o ≡ some old) ⊎ (o ≡ some new)

choose_same : (d : RwosDisk) → choose (some d) (some d) ≡ some d
unfolding choose
choose_same d = ground arith

-- Copy B still has the old table.
choose_first_torn :
    (old new : RwosDisk) (a : Option RwosDisk)
    → old.generation ≤ new.generation
    → (a ≡ none) ⊎ ((a ≡ some old) ⊎ (a ≡ some new))
    → OneOf old new (choose a (some old))
unfolding choose OneOf
choose_first_torn old new a le (inl e) = rw e (inl refl)
choose_first_torn old new a le (inr (inl e)) = rw e (inl (choose_same old))
choose_first_torn old new a le (inr (inr e)) = rw e (inr (ground arith))

-- Copy A has the new table.
choose_second_torn :
    (old new : RwosDisk) (b : Option RwosDisk)
    → old.generation ≤ new.generation
    → (b ≡ none) ⊎ ((b ≡ some old) ⊎ (b ≡ some new))
    → choose (some new) b ≡ some new
unfolding choose
choose_second_torn old new b le (inl e) = rw e refl
choose_second_torn old new b le (inr (inl e)) = rw e (ground arith)
choose_second_torn old new b le (inr (inr e)) = rw e (choose_same new)

module _ (D : BlockDevice) (law : IsLawful D) (reads : Reads D) where
  open D use {Card}

  copy_of-read : (c : Card) (lba : ℕ) → copy_of (D.read lba c).0 ≡ rwos_disk_parse (D.content c lba)
  unfolding copy_of
  copy_of-read c lba =
      let found = reads c lba in
      rw found.1 (ap rwos_disk_parse (law.read_got c lba found.0 found.1))

  -- The choice is made between what the two blocks hold.
  pub read_best_lem :
      (c : Card)
      → (rwos_disk_read_best D c).0
        ≡ choose (rwos_disk_parse (D.content c 1)) (rwos_disk_parse (D.content c 2))
  unfolding rwos_disk_read_best read_second
  read_best_lem c =
      rw (copy_of-read c 1, copy_of-read (D.read 1 c).1 2, law.content-read c 1 2) refl

  Written : RwosDisk → Code × Card → Type 0
  Written d (code, c) = code ≡ ok → (D.content c 1 ≡ image d) × (D.content c 2 ≡ image d)

  write_second-Written :
      (d : RwosDisk) (r : Code × Card)
      → (r.0 ≡ ok → D.content r.1 1 ≡ image d)
      → Written d (write_second D d r)
  unfolding Written write_second
  write_second-Written d (ok, c) first = λ e. (
    law.content-write_ne c 2 (image d) 1 (omega arith) ∙ first refl,
    law.content-write c 2 (image d) e,
  )
  write_second-Written d (err n, c) first = λ e. cc

  -- A write that succeeds leaves the table in both blocks.
  pub write_both_ok :
      (d : RwosDisk) (c : Card)
      → (rwos_disk_write_both D d c).0 ≡ ok
      → (D.content (rwos_disk_write_both D d c).1 1 ≡ image d)
        × (D.content (rwos_disk_write_both D d c).1 2 ≡ image d)
  unfolding rwos_disk_write_both Written
  write_both_ok d c =
      write_second-Written d (D.write 1 (image d) c) (law.content-write c 1 (image d))

  -- A table that was written without an error is the one that the next start of the system finds: the
  -- table has its magic, version and checksum and fits its block, and the blocks can be read.
  pub write_both-read_best :
      (d : RwosDisk) (c : Card)
      → IsSealed d
      → (rwos_disk_write_both D d c).0 ≡ ok
      → (rwos_disk_read_best D (rwos_disk_write_both D d c).1).0 ≡ some d
  write_both-read_best d c s e =
      let there = write_both_ok d c e in
      let parses = rwos_disk_parse-image d s in
      read_best_lem (rwos_disk_write_both D d c).1 ∙ rw (there.0, there.1, parses) (choose_same d)

  module _ (tears : TearsDetectably D) (old new : RwosDisk) where
    Torn : ℕ → Card → Type 0
    Torn lba c =
        let found = rwos_disk_parse (D.content c lba) in
        (found ≡ none) ⊎ ((found ≡ some old) ⊎ (found ≡ some new))

    block_after :
        (c : Card) (lba : ℕ)
        → IsSealed old
        → IsSealed new
        → D.content c lba ≡ image old
        → Torn lba (D.write lba (image new) c).1
    unfolding Torn
    block_after c lba so sn e =
        rw (sym (rwos_disk_parse-image old so), sym (rwos_disk_parse-image new sn), sym e)
          (tears c lba (image new))

    Survives : Card → Type 0
    Survives c =
        OneOf old new (choose (rwos_disk_parse (D.content c 1)) (rwos_disk_parse (D.content c 2)))

    after_second :
        (r : Code × Card)
        → old.generation ≤ new.generation
        → IsSealed old
        → IsSealed new
        → D.content r.1 2 ≡ image old
        → Torn 1 r.1
        → (r.0 ≡ ok → D.content r.1 1 ≡ image new)
        → Survives (write_second D new r).1
    unfolding write_second Survives Torn OneOf
    after_second (ok, c) le so sn second torn first =
        let one = law.content-write_ne c 2 (image new) 1 (omega arith) ∙ first refl in
        let two = block_after c 2 so sn second in
        inr (rw (one, rwos_disk_parse-image new sn) (choose_second_torn old new _ le two))
    after_second (err n, c) le so sn second torn first =
        rw (second, rwos_disk_parse-image old so) (choose_first_torn old new _ le torn)

    -- Whatever the writes of the two copies return, and whatever a write that fails leaves in its block,
    -- the next start finds the old or the new table: both blocks held the old one, the generation does not
    -- go down, both tables are sealed, the blocks can be read, and a half-written one does not parse.
    pub write_both_survives :
        (c : Card)
        → old.generation ≤ new.generation
        → IsSealed old
        → IsSealed new
        → D.content c 1 ≡ image old
        → D.content c 2 ≡ image old
        → let found = (rwos_disk_read_best D (rwos_disk_write_both D new c).1).0 in
          (found ≡ some old) ⊎ (found ≡ some new)
    unfolding rwos_disk_write_both Survives OneOf
    write_both_survives c le so sn one two = rw (read_best_lem (rwos_disk_write_both D new c).1) (
        after_second (D.write 1 (image new) c) le so sn
          (law.content-write_ne c 1 (image new) 2 (omega arith) ∙ two) (block_after c 1 so sn one)
          (law.content-write c 1 (image new)))
