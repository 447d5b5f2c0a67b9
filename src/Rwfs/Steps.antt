-- ===== src/Rwfs/Steps.antt =====
-- The writes of the superblock and of an index entry, block by block.
use rewind_os.Base.{ℕ, ◌+◌, ◌/◌, ◌%◌, ◌^◌, ◌<◌, ◌≡◌, ◌≢◌, refl, sym, ap, ◌∙◌, leb}
use rewind_os.Base.{List, arith, Bool-cases, inl, inr}
use mathlib.Core.Path.{subst}
use rewind_os.Media.{Code, ok, err, BlockDevice, IsLawful}
use rewind_os.Media.Words.{words, bytes}
use rewind_os.Disk.Crash.{Reads}
use rewind_os.Rwfs.{Super, super_block, IndexEntry, entry_words, with_slot}
use rewind_os.Rwfs.Mount.{and_then, on_read, rwfs_write_super_both, rwfs_write_index_entry}
use rewind_os.Rwfs.Payload.{on_read_got}

module _ (D : BlockDevice) where
  open D use {Card}

  pub and_then_inv :
      (r : Code × Card) (next : Card → Code × Card)
      → (and_then r next).0 ≡ ok
      → (r.0 ≡ ok) × (and_then r next ≡ next r.1)
  and_then_inv (ok, c) next e = (refl, refl)
  and_then_inv (err n, c) next e = cc

  -- Both copies are there.
  pub record HasCopies (start : ℕ) (s : Super) (c c' : Card) : Type 0 where
    pub first : D.content c' start ≡ super_block s
    pub second : D.content c' (start + 1) ≡ super_block s
    pub others : (j : ℕ) → start ≢ j → start + 1 ≢ j → D.content c' j ≡ D.content c j

  -- The block of the index has the entry.
  pub record HasEntry (s : Super) (idx : ℕ) (e : IndexEntry) (c c' : Card) : Type 0 where
    pub place : idx < 32
    pub block :
        D.content c' (s.index_start_lba + idx / 8)
        ≡ bytes (
            with_slot (idx % 8) (entry_words e) (words (D.content c (s.index_start_lba + idx / 8))))
    pub others : (j : ℕ) → s.index_start_lba + idx / 8 ≢ j → D.content c' j ≡ D.content c j

  module _ (law : IsLawful D) where
    -- A block is written to two places.
    record HasBoth (x y : ℕ) (b : List ℕ) (c c' : Card) : Type 0 where
      at_x : D.content c' x ≡ b
      at_y : D.content c' y ≡ b
      elsewhere : (j : ℕ) → x ≢ j → y ≢ j → D.content c' j ≡ D.content c j

    two_writes :
        (x y : ℕ) (b : List ℕ) (c : Card)
        → y ≢ x
        → (and_then (D.write x b c) (D.write y b)).0 ≡ ok
        → HasBoth x y b c (and_then (D.write x b c) (D.write y b)).1
    two_writes x y b c ne e =
        let i = and_then_inv (D.write x b c) (D.write y b) e in
        let c₁ = (D.write x b c).1 in
        let done : (D.write y b c₁).0 ≡ ok = ap (λ (r : Code × Card). r.0) (sym i.1) ∙ e in
        subst (λ (r : Code × Card). HasBoth x y b c r.1) (sym i.1)
          (record {
            at_x = law.content-write_ne c₁ y b x ne ∙ law.content-write c x b i.0;
            at_y = law.content-write c₁ y b done;
            elsewhere =
                λ j nx ny. law.content-write_ne c₁ y b j ny ∙ law.content-write_ne c x b j nx;
          })

    pub write_super_both_lem :
        (start : ℕ) (s : Super) (c : Card)
        → s.region_start_lba ≡ start
        → start + 1 < 2 ^ 32
        → (rwfs_write_super_both D s c).0 ≡ ok
        → HasCopies start s c (rwfs_write_super_both D s c).1
    unfolding rwfs_write_super_both
    write_super_both_lem start s c same_start small e =
        let wraps : (s.region_start_lba + 1) % 2 ^ 32 ≡ start + 1 = omega arith in
        let c' = (rwfs_write_super_both D s c).1 in
        let both =
          two_writes s.region_start_lba _ (super_block s) c (λ p. absurd (omega arith)) e in
        record {
          first = ap (D.content c') (sym same_start) ∙ both.at_x;
          second = ap (D.content c') (sym wraps) ∙ both.at_y;
          others = λ j n m. both.elsewhere j (λ p. n (sym same_start ∙ p)) (λ p. m (sym wraps ∙ p));
        }

    module _ (reads : Reads D) where
      -- A block is read, changed and written.
      record IsChanged (lba : ℕ) (f : List ℕ → List ℕ) (c c' : Card) : Type 0 where
        changed : D.content c' lba ≡ f (D.content c lba)
        elsewhere : (j : ℕ) → lba ≢ j → D.content c' j ≡ D.content c j

      abbrev change : ℕ → (List ℕ → List ℕ) → Card → Code × Card
      change lba f c = on_read (D.read lba c) (λ n c'. (err n, c')) (λ b c'. D.write lba (f b) c')

      change_lem :
          (lba : ℕ) (f : List ℕ → List ℕ) (c : Card)
          → (change lba f c).0 ≡ ok
          → IsChanged lba f c (change lba f c).1
      change_lem lba f c e =
          let found = reads c lba in
          let c₁ = (D.read lba c).1 in
          let step : change lba f c ≡ D.write lba (f found.0) c₁ =
            on_read_got (D.read lba c) found.0 _ _ found.1 in
          let done : (D.write lba (f found.0) c₁).0 ≡ ok =
            ap (λ (r : Code × Card). r.0) (sym step) ∙ e in
          subst (λ (r : Code × Card). IsChanged lba f c r.1) (sym step)
            (record {
              changed =
                  law.content-write c₁ lba (f found.0) done
                  ∙ ap f (law.read_got c lba found.0 found.1);
              elsewhere =
                  λ j ne. law.content-write_ne c₁ lba (f found.0) j ne ∙ law.content-read c lba j;
            })

      pub write_index_entry_lem :
          (s : Super) (idx : ℕ) (e : IndexEntry) (c : Card)
          → s.index_start_lba + 4 < 2 ^ 32
          → (rwfs_write_index_entry D s idx e c).0 ≡ ok
          → HasEntry s idx e c (rwfs_write_index_entry D s idx e c).1
      unfolding rwfs_write_index_entry
      write_index_entry_lem s idx e c small done =
          let f = λ (b : List ℕ). bytes (with_slot (idx % 8) (entry_words e) (words b)) in
          let lba = (s.index_start_lba + idx / 8) % 2 ^ 32 in
          elim (Bool-cases (leb 4 (idx / 8))) [
            | inl out ↦
                let none : (rwfs_write_index_entry D s idx e c).0 ≡ err 23 = simp out refl in cc
            | inr within ↦
                let place : idx < 32 = ground (arith, within) in
                let wraps : lba ≡ s.index_start_lba + idx / 8 = omega arith in
                let step : rwfs_write_index_entry D s idx e c ≡ change lba f c = simp within refl in
                let c' = (change lba f c).1 in
                let l = change_lem lba f c (ap (λ (r : Code × Card). r.0) (sym step) ∙ done) in
                subst (λ (r : Code × Card). HasEntry s idx e c r.1) (sym step)
                  (record {
                    place = place;
                    block =
                        ap (D.content c') (sym wraps)
                        ∙ l.changed
                        ∙ ap (λ (n : ℕ). f (D.content c n)) wraps;
                    others = λ j ne. l.elsewhere j (λ p. ne (sym wraps ∙ p));
                  })
          ]
