-- ===== src/Rwfs/Index.antt =====
-- What is loaded of the index.
use rewind_os.Base.{
  ℕ, zero, suc, ◌+◌, ◌*◌, ◌/◌, ◌%◌, ◌^◌, ◌≤◌, ◌<◌, ◌≡◌, ◌⊎◌, inl, refl, sym, ap, ap₂, ◌∙◌, true,
  List, ltb, arith, update_self,
}
use native.Mathlib.Decide.{dec_lt}
use rewind_os.Media.{ok, BlockDevice, IsLawful}
use rewind_os.Media.Words.{words}
use rewind_os.Disk.Crash.{Reads}
use rewind_os.Rwfs.{Super, IndexEntry, entry_of, slot_words}
use rewind_os.Rwfs.Mount.{checked, load_slots, read_blocks}
use rewind_os.Rwfs.Payload.{on_read_got}

abbrev loaded_from : ℕ → List ℕ → IndexEntry
loaded_from i w = checked (entry_of (slot_words i w))

load_slots_out :
    (n i idx : ℕ) (w : List ℕ) (es : ℕ → IndexEntry) (k : ℕ)
    → (k < idx) ⊎ (idx + n ≤ k)
    → load_slots n i idx w es k ≡ es k
unfolding load_slots
load_slots_out zero i idx w es k out = refl
load_slots_out (suc n) i idx w es k out =
    load_slots_out n (i + 1) (idx + 1) w _ k (ground (arith, out)) ∙ ground (arith, out)

load_slots_in :
    (n i idx : ℕ) (w : List ℕ) (es : ℕ → IndexEntry) (m : ℕ)
    → m < n
    → idx + n ≤ 34
    → load_slots n i idx w es (idx + m) ≡ loaded_from (i + m) w
unfolding load_slots
load_slots_in zero i idx w es m h fits = absurd (omega arith)
load_slots_in (suc n) i idx w es zero h fits =
    let here : ltb idx 34 ≡ true = ground arith in
    let a : idx + 0 ≡ idx = omega arith in
    let b : i + 0 ≡ i = omega arith in
    rw (a, b, here)
      (load_slots_out n (i + 1) (idx + 1) w _ idx (inl (omega arith))
        ∙ update_self es idx (loaded_from i w))
load_slots_in (suc n) i idx w es (suc m) h fits =
    let a : idx + suc m ≡ idx + 1 + m = omega arith in
    let b : i + suc m ≡ i + 1 + m = omega arith in
    rw (a, b) (load_slots_in n (i + 1) (idx + 1) w _ m (omega arith) (omega arith))

module _ (D : BlockDevice) where
  open D use {Card}

  -- The `k`-th entry of the index on the card.
  unfoldable pub index_entry : Super → Card → ℕ → IndexEntry
  index_entry s c k = loaded_from (k % 8) (words (D.content c (s.index_start_lba + k / 8)))

  -- What the blocks from `b` to `e` leave in the table.
  pub record Loads (s : Super) (b e : ℕ) (old new : ℕ → IndexEntry) (c c' : Card) : Type 0 where
    pub inside : (k : ℕ) → 8 * b ≤ k → k < 8 * e → new k ≡ index_entry s c k
    pub outside : (k : ℕ) → (k < 8 * b) ⊎ (8 * e ≤ k) → new k ≡ old k
    pub same : (j : ℕ) → D.content c' j ≡ D.content c j

  module _ (law : IsLawful D) (reads : Reads D) where
    -- The cell of a block that was just loaded.
    first_block :
        (s : Super) (b k : ℕ) (es : ℕ → IndexEntry) (c : Card)
        → 8 * b ≤ k
        → k < 8 * (b + 1)
        → b < 4
        → load_slots 8 0 (8 * b) (words (D.content c (s.index_start_lba + b))) es k
          ≡ index_entry s c k
    unfolding index_entry
    first_block s b k es c low high four =
        let w = words (D.content c (s.index_start_lba + b)) in
        let m : 8 * b + k % 8 ≡ k = omega arith in
        let q : b ≡ k / 8 = omega arith in
        ap (load_slots 8 0 (8 * b) w es) (sym m)
        ∙ load_slots_in 8 0 (8 * b) w es (k % 8) (omega arith) (omega arith)
        ∙ ap₂ (λ i n. loaded_from i (words (D.content c (s.index_start_lba + n)))) (omega arith) q

    pub index_entry_same :
        (s : Super) (c c₁ : Card) (k : ℕ)
        → ((j : ℕ) → D.content c₁ j ≡ D.content c j)
        → index_entry s c₁ k ≡ index_entry s c k
    unfolding index_entry
    index_entry_same s c c₁ k same =
        ap (λ b. loaded_from (k % 8) (words b)) (same (s.index_start_lba + k / 8))

    -- One more block before the others.
    Loads-before :
        (s : Super) (b e : ℕ) (es new : ℕ → IndexEntry) (c c₁ c' : Card)
        → b < e
        → e ≤ 4
        → ((j : ℕ) → D.content c₁ j ≡ D.content c j)
        → Loads s
            (b + 1)
            e
            (load_slots 8 0 (8 * b) (words (D.content c (s.index_start_lba + b))) es)
            new
            c₁
            c'
        → Loads s b e es new c c'
    Loads-before s b e es new c c₁ c' lt le same₁ l = record {
      inside = λ k low high. elim (dec_lt k (8 * (b + 1))) [
        | yes near ↦ l.outside k (inl near) ∙ first_block s b k es c low near (omega arith)
        | no far ↦ l.inside k (omega arith) high ∙ index_entry_same s c c₁ k same₁
      ];
      outside = λ k out.
          l.outside k (ground (arith, out))
          ∙ load_slots_out 8 0 (8 * b) (words (D.content c (s.index_start_lba + b))) es k
              (ground (arith, out));
      same = λ j. l.same j ∙ same₁ j;
    }

    pub read_blocks_lem :
        (n b e : ℕ) (s : Super) (es : ℕ → IndexEntry) (c : Card)
        → b + n ≡ e
        → e ≤ 4
        → s.index_start_lba + 4 < 2 ^ 32
        → (new : ℕ → IndexEntry) × ((c' : Card) × ((read_blocks D n b s (es, c) ≡ (ok, (new, c')))
              × Loads s b e es new c c'))
    unfolding read_blocks
    read_blocks_lem zero b e s es c at_end le small = (
      es,
      (
        c,
        (
          refl,
          record {
            inside = λ k l r. absurd (omega arith);
            outside = λ k out. refl;
            same = λ j. refl;
          },
        ),
      ),
    )
    read_blocks_lem (suc n) b e s es c at_end le small =
        let lba : (s.index_start_lba + b) % 2 ^ 32 ≡ s.index_start_lba + b = omega arith in
        let found = reads c (s.index_start_lba + b) in
        let c₁ = (D.read (s.index_start_lba + b) c).1 in
        let content = law.read_got c (s.index_start_lba + b) found.0 found.1 in
        let es₁ = load_slots 8 0 (8 * b) (words (D.content c (s.index_start_lba + b))) es in
        let ih = read_blocks_lem n (b + 1) e s es₁ c₁ (omega arith) le small in
        (
          ih.0,
          (
            ih.1.0,
            (
              simp lba (on_read_got (D.read (s.index_start_lba + b) c) found.0 _ _ found.1)
                  ∙ ap
                      (λ blk. read_blocks D n (b + 1) s (load_slots 8 0 (8 * b) (words blk) es, c₁))
                      content
                  ∙ ih.1.1.0,
              Loads-before s b e es ih.0 c c₁ ih.1.0 (omega arith) le
                  (law.content-read c (s.index_start_lba + b)) ih.1.1.1,
            ),
          ),
        )
