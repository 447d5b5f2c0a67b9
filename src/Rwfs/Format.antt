-- ===== src/Rwfs/Format.antt =====
-- A format leaves a region with a superblock, an index of blocks, and no files.
use rewind_os.Base.{
  ℕ, zero, suc, ◌+◌, ◌/◌, ◌%◌, ◌^◌, ◌≤◌, ◌<◌, ◌≡◌, ◌⊎◌, inl, refl, sym, ap, ◌∙◌, Bool, true, false,
  leb,
}
use rewind_os.Base.{
  List, [], ◌∷◌, take, drop, get_or, replicate, arith, length-replicate, if◌then◌else◌,
}
use native.Mathlib.Decide.{ℕ_discrete}
use mathlib.Core.Path.{subst}
use rewind_os.Media.{Code, ok, err, BlockDevice, IsLawful}
use rewind_os.Media.Words.{words}
use rewind_os.Rwfs.{Super, IndexEntry, entry_of, slot_words}
use rewind_os.Rwfs.Mount.{
  Rwfs, checked, new_super, emptied, and_then, clear_index, format_done, rwfs_write_super_both,
  rwfs_format_region,
}
use rewind_os.Rwfs.Names.{AreBytes}
use rewind_os.Rwfs.Entries.{IsBlock}
use rewind_os.Rwfs.Supers.{new_super-IsSuper}
use rewind_os.Rwfs.Index.{index_entry}
use rewind_os.Rwfs.Mounted.{HasFiles}
use rewind_os.Rwfs.Steps.{and_then_inv, HasCopies, write_super_both_lem}

abbrev AreZero : List ℕ → Type 0
AreZero [] = Unit {0}
AreZero (x ∷ xs) = (x ≡ 0) × AreZero xs

AreZero-drop : (n : ℕ) (xs : List ℕ) → AreZero xs → AreZero (drop n xs)
AreZero-drop zero xs h = h
AreZero-drop (suc n) [] h = tt
AreZero-drop (suc n) (x ∷ xs) (e, h) = AreZero-drop n xs h

AreZero-take : (n : ℕ) (xs : List ℕ) → AreZero xs → AreZero (take n xs)
AreZero-take zero xs h = tt
AreZero-take (suc n) [] h = tt
AreZero-take (suc n) (x ∷ xs) (e, h) = (e, AreZero-take n xs h)

slot_words-AreZero : (k : ℕ) (w : List ℕ) → AreZero w → AreZero (slot_words k w)
unfolding slot_words
slot_words-AreZero zero w h = AreZero-take 15 w h
slot_words-AreZero (suc k) w h = slot_words-AreZero k (drop 15 w) (AreZero-drop 15 w h)

first_zero : (xs : List ℕ) → AreZero xs → get_or xs 0 0 ≡ 0
first_zero [] h = refl
first_zero (x ∷ xs) (e, h) = e

AreZero-replicate : (n : ℕ) → AreZero (replicate n 0)
AreZero-replicate zero = tt
AreZero-replicate (suc n) = (refl, AreZero-replicate n)

checked_free : (e : IndexEntry) → e.state ≡ 0 → (checked e).state ≡ 0
unfolding checked
checked_free e h = ground arith

words-AreZero : AreZero (words (replicate 512 0))
unfolding words
words-AreZero = AreZero-replicate 128

AreZero-AreBytes : (xs : List ℕ) → AreZero xs → AreBytes xs
AreZero-AreBytes [] h = tt
AreZero-AreBytes (x ∷ xs) (e, h) = (omega arith, AreZero-AreBytes xs h)

zeros-IsBlock : IsBlock (replicate 512 0)
zeros-IsBlock = record {
  size = length-replicate {A = ℕ} 512 0;
  are_bytes = AreZero-AreBytes (replicate 512 0) (AreZero-replicate 512);
}

module _ (D : BlockDevice) (law : IsLawful D) where
  open D use {Card}

  passed :
      {A : Type 0} (b : Bool) (n : ℕ) (a t : A) (y : Code × A)
      → (if b then (err n, a) else y) ≡ (ok, t)
      → (b ≡ false) × (y ≡ (ok, t))
  passed true n a t y e = let clash : err n ≡ ok = cc in cc
  passed false n a t y e = (refl, e)

  format_done_inv :
      (s : Super) (g : Rwfs) (r : Code × Card) (g' : Rwfs) (c' : Card)
      → format_done D s g r ≡ (ok, (g', c'))
      → (r ≡ (ok, c')) × (g' ≡ emptied s g)
  unfolding format_done
  format_done_inv s g (ok, c) g' c' e = (cc, cc)
  format_done_inv s g (err n, c) g' c' e = let clash : err n ≡ ok = cc in cc

  -- The blocks of the index from `b` to `e` are cleared, and no other block is touched.
  record IsCleared (s : Super) (b e : ℕ) (c c' : Card) : Type 0 where
    inside : (i : ℕ) → b ≤ i → i < e → D.content c' (s.index_start_lba + i) ≡ replicate 512 0
    outside :
        (j : ℕ)
        → (j < s.index_start_lba + b) ⊎ (s.index_start_lba + e ≤ j)
        → D.content c' j ≡ D.content c j

  clear_index_lem :
      (n b e : ℕ) (s : Super) (c : Card)
      → b + n ≡ e
      → s.index_start_lba + e < 2 ^ 32
      → (clear_index D n b s c).0 ≡ ok
      → IsCleared s b e c (clear_index D n b s c).1
  unfolding clear_index
  clear_index_lem zero b e s c at_end small done = record {
    inside = λ i low high. absurd (omega arith);
    outside = λ j out. refl;
  }
  clear_index_lem (suc n) b e s c at_end small done =
      let lba : (s.index_start_lba + b) % 2 ^ 32 ≡ s.index_start_lba + b = omega arith in
      let w = D.write ((s.index_start_lba + b) % 2 ^ 32) (replicate 512 0) c in
      let i = and_then_inv D w (clear_index D n (b + 1) s) done in
      let done' : (clear_index D n (b + 1) s w.1).0 ≡ ok =
        ap (λ (r : Code × Card). r.0) (sym i.1) ∙ done in
      let ih = clear_index_lem n (b + 1) e s w.1 (omega arith) small done' in
      let c' = (clear_index D n (b + 1) s w.1).1 in
      subst (λ (r : Code × Card). IsCleared s b e c r.1) (sym i.1)
        (record {
          inside = λ k low high. elim (ℕ_discrete b k) [
            | yes p ↦ rw (← p) (
                ih.outside (s.index_start_lba + b) (inl (omega arith))
                ∙ ap (D.content w.1) (sym lba)
                ∙ law.content-write c _ _ i.0)
            | no np ↦ ih.inside k (omega arith) high
          ];
          outside = λ j out.
              ih.outside j (ground (arith, out))
              ∙ law.content-write_ne c _ (replicate 512 0) j (ground (arith, out, lba));
        })

  -- What a format that returned 0 leaves: no entry of the index is live, on the card or in memory.
  pub record IsFormatted (start blocks : ℕ) (g : Rwfs) (c : Card) : Type 0 where
    pub files : HasFiles D start blocks (new_super start blocks) c
    pub no_file : (k : ℕ) → k < 32 → (index_entry D (new_super start blocks) c k).state ≡ 0
    pub super_lem : g.super ≡ new_super start blocks
    pub no_entry : (k : ℕ) → k < 34 → (g.entries k).state ≡ 0

  formatted_lem :
      (start blocks : ℕ) (g g' : Rwfs) (c₁ c' : Card)
      → 6 < blocks
      → start + blocks < 2 ^ 31
      → ((b : ℕ) → b < 4 → D.content c₁ (start + 2 + b) ≡ replicate 512 0)
      → HasCopies D start (new_super start blocks) c₁ c'
      → g' ≡ emptied (new_super start blocks) g
      → IsFormatted start blocks g' c'
  unfolding index_entry emptied new_super
  formatted_lem start blocks g g' c₁ c' enough small cleared copies e =
      let super = new_super-IsSuper start blocks enough small in
      let index = λ (b : ℕ) (lt : b < 4).
        copies.others (start + 2 + b) (λ p. absurd (omega arith)) (λ p. absurd (omega arith))
        ∙ cleared b lt in
      record {
        files = record {
          super = super;
          first = copies.first;
          second = copies.second;
          index = λ b lt. rw (index b lt) zeros-IsBlock;
        };
        no_file = λ k lt.
            ap (λ b. (checked (entry_of (slot_words (k % 8) (words b)))).state)
              (ap (λ (n : ℕ). D.content c' (n + k / 8)) super.index_lem
                ∙ index (k / 8) (omega arith))
            ∙ checked_free _ (
                first_zero _ (
                  AreZero-drop 8 _
                    (slot_words-AreZero (k % 8) (words (replicate 512 0)) words-AreZero)));
        super_lem = ap (λ (x : Rwfs). x.super) e;
        no_entry = λ k lt. ap (λ (x : Rwfs). (x.entries k).state) e ∙ ground arith;
      }

  -- After a format that returned 0 the region, which ends below block 2^31, has both copies of its new superblock
  -- and no file.
  pub format_region_lem :
      (start blocks : ℕ) (g g' : Rwfs) (c c' : Card)
      → start + blocks < 2 ^ 31
      → rwfs_format_region D start blocks (g, c) ≡ (ok, (g', c'))
      → IsFormatted start blocks g' c'
  unfolding rwfs_format_region
  format_region_lem start blocks g g' c c' small e =
      let s = new_super start blocks in
      let clear = clear_index D 4 0 s c in
      let more = passed (leb blocks 6) 21 (g, c) (g', c') _ e in
      let done = format_done_inv s g _ g' c' more.1 in
      let all : (and_then clear (rwfs_write_super_both D s)).0 ≡ ok =
        ap (λ (r : Code × Card). r.0) done.0 in
      let enough : 6 < blocks = ground (arith, more.0) in
      let super = new_super-IsSuper start blocks enough small in
      let i = and_then_inv D clear (rwfs_write_super_both D s) all in
      let both : (rwfs_write_super_both D s clear.1).0 ≡ ok =
        ap (λ (r : Code × Card). r.0) (sym i.1) ∙ all in
      let there : (rwfs_write_super_both D s clear.1).1 ≡ c' =
        ap (λ (r : Code × Card). r.1) (sym i.1 ∙ done.0) in
      let cleared = clear_index_lem 4 0 4 s c refl (omega (arith, super.index_lem)) i.0 in
      let copies =
        subst (λ (x : Card). HasCopies D start s clear.1 x) there
          (write_super_both_lem D law start s clear.1 super.start_lem (omega arith) both) in
      formatted_lem start blocks g g' clear.1 c' enough small
        (λ b lt.
          ap (λ (n : ℕ). D.content clear.1 (n + b)) (sym super.index_lem)
          ∙ cleared.inside b (omega arith) lt)
        copies done.1
