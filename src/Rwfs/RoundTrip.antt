-- ===== src/Rwfs/RoundTrip.antt =====
-- A file that was written is read back, by this or a later start of the system.
use rewind_os.Base.{ℕ, ◌+◌, ◌%◌, ◌^◌, ◌<◌, ◌≡◌, refl, sym, ap, ◌∙◌, Bool, true, false, ◌&&◌}
use rewind_os.Base.{Option, none, some, List, length, ◌==◌, if◌then◌else◌, arith}
use mathlib.Core.Path.{subst}
use rewind_os.Media.{Code, ok, err, BlockDevice, IsLawful}
use rewind_os.Disk.{RwosDisk}
use rewind_os.Disk.Crash.{Reads}
use rewind_os.Rwfs.{Super, IndexEntry, rwfs_super_valid, rwfs_name_valid, rwfs_streq_name}
use rewind_os.Rwfs.Mount.{Rwfs}
use rewind_os.Rwfs.Files.{
  find_from, rwfs_find_entry, place_for, write_at, write_placed, write_mounted, write_valid,
  rwfs_write_all_atomic,
}
use rewind_os.Rwfs.Names.{AreBytes}
use rewind_os.Rwfs.Supers.{IsSuper}
use rewind_os.Rwfs.Index.{index_entry, index_entry_same}
use rewind_os.Rwfs.Mounted.{StaysReady, HasFiles, HasFiles-same, mount-HasFiles}
use rewind_os.Rwfs.Find.{hit, find_from-some, find_from-none}
use rewind_os.Rwfs.Write.{HasFile, write_at_lem}

-- The place is in front of every live entry of the name but its own.
pub record IsPlace (name : List ℕ) (es : ℕ → IndexEntry) (idx : ℕ) : Type 0 where
  pub earlier : (j : ℕ) → j < idx → j < 34 → hit name es j ≡ false

place_for-IsPlace :
    (name : List ℕ) (es : ℕ → IndexEntry) (f free : Option ℕ) (idx prior : ℕ)
    → find_from 34 0 name es ≡ f
    → place_for es f free ≡ some (idx, prior)
    → IsPlace name es idx
unfolding place_for
place_for-IsPlace name es (some i) free idx prior e p =
    let found = find_from-some 34 0 name es i e in
    let same : i ≡ idx = cc in
    record { earlier = λ j lt in_table. found.earlier j (omega arith) (omega arith) }
place_for-IsPlace name es none (some i) idx prior e p = record {
  earlier = λ j lt in_table. find_from-none 34 0 name es e j (omega arith) (omega arith);
}
place_for-IsPlace name es none none idx prior e p = cc

pub entry_count_lem : {start blocks : ℕ} (s : Super) → IsSuper start blocks s → s.entry_count ≡ 34
unfolding rwfs_super_valid
entry_count_lem s h = let v = h.valid in ground arith

module _ (D : BlockDevice) (law : IsLawful D) (reads : Reads D) (ready : StaysReady D) where
  open D use {Card}

  -- What a write that returned 0 started from, and what it left.
  pub record Wrote (d : RwosDisk) (name src : List ℕ) (s : Super) (c c' : Card) : Type 0 where
    pub idx : ℕ
    pub gen : ℕ
    pub gen_word : gen < 2 ^ 32
    pub valid : rwfs_name_valid name ≡ true
    pub earlier : (j : ℕ) → j < idx → j < 32 → hit name (index_entry D s c) j ≡ false
    pub file : HasFile D name src idx gen s d.rwfs_start_lba d.rwfs_blocks c c'

  -- The write of a file at the place `p`.
  Goes : List ℕ → List ℕ → Rwfs × Card → Option (ℕ × ℕ) → Rwfs → Card → Type 0
  Goes name src r p g' c' =
      (idx : ℕ) × ((prior : ℕ) × ((p ≡ some (idx, prior))
          × (write_at D name src (length src) idx ((prior + 1) % 2 ^ 32) r ≡ some (ok, (g', c')))))

  write_placed_inv :
      (name src : List ℕ) (r : Rwfs × Card) (p : Option (ℕ × ℕ)) (g' : Rwfs) (c' : Card)
      → write_placed D name src (length src) p r ≡ some (ok, (g', c'))
      → Goes name src r p g' c'
  unfolding write_placed Goes
  write_placed_inv name src r none g' c' h = let no_way : err 21 ≡ ok = cc in cc
  write_placed_inv name src r (some (i, p)) g' c' h = (i, (p, (refl, h)))

  named :
      {A : Type 0} (b : Bool) (n : ℕ) (a t : A) (y : Option (Code × A))
      → (if b then y else some (err n, a)) ≡ some (ok, t)
      → (b ≡ true) × (y ≡ some (ok, t))
  named true n a t y e = (refl, e)
  named false n a t y e = cc

  pub hit_same :
      (name : List ℕ) (es new : ℕ → IndexEntry) (j : ℕ)
      → es j ≡ new j
      → hit name es j ≡ hit name new j
  unfolding hit
  hit_same name es new j e =
      ap (λ (x : IndexEntry). (x.state == 1) && rwfs_streq_name x.name name) e

  HasFile-same :
      (d : RwosDisk) (name src : List ℕ) (idx gen : ℕ) (s : Super) (c c₁ c' : Card)
      → ((j : ℕ) → D.content c₁ j ≡ D.content c j)
      → HasFile D name src idx gen s d.rwfs_start_lba d.rwfs_blocks c₁ c'
      → HasFile D name src idx gen s d.rwfs_start_lba d.rwfs_blocks c c'
  HasFile-same d name src idx gen s c c₁ c' same f = record {
    written = record {
      files = f.written.files;
      place = f.written.place;
      entry_lem = f.written.entry_lem;
      others = λ j lt ne. f.written.others j lt ne ∙ index_entry_same D law reads s c c₁ j same;
    };
    stored = f.stored;
    room = f.room;
    older = λ j far before. f.older j far before ∙ same j;
  }

  pub write-Wrote :
      (d : RwosDisk) (name src : List ℕ) (s : Super) (g g' : Rwfs) (c c' : Card)
      → HasFiles D d.rwfs_start_lba d.rwfs_blocks s c
      → AreBytes name
      → length src + 511 < 2 ^ 32
      → rwfs_write_all_atomic D (some d) (some name) (some src) (length src) (g, c)
        ≡ some (ok, (g', c'))
      → Wrote d name src s c c'
  unfolding rwfs_write_all_atomic write_valid write_mounted Goes rwfs_find_entry
  write-Wrote d name src s g g' c c' files bytes short e =
      let start = d.rwfs_start_lba in
      let blocks = d.rwfs_blocks in
      let v = named (rwfs_name_valid name) 20 (g, c) (g', c') _ e in
      let m = mount-HasFiles D law reads d s g c ready files in
      let g₁ = m.0 in
      let c₁ = m.1.0 in
      let is = m.1.1.1 in
      let there : HasFiles D start blocks g₁.super c₁ =
        subst (λ (x : Super). HasFiles D start blocks x c₁) (sym is.super_lem)
          (HasFiles-same D s c c₁ is.same files) in
      let goes : write_mounted D name src (length src) (ok, (g₁, c₁)) ≡ some (ok, (g', c')) =
        ap (write_mounted D name src (length src)) (sym m.1.1.0) ∙ v.1 in
      let p = write_placed_inv name src (g₁, c₁) _ g' c' goes in
      let gen = (p.1.0 + 1) % 2 ^ 32 in
      let f =
        write_at_lem D law reads start blocks name src p.0 gen g₁ c₁ g' c' there bytes short
          (omega arith) p.1.1.1 in
      let f' =
        subst (λ (x : Super). HasFile D name src p.0 gen x start blocks c₁ c') is.super_lem f in
      let count = entry_count_lem g₁.super there.super in
      let searched : find_from 34 0 name g₁.entries ≡ rwfs_find_entry name g₁ =
        ap (λ (n : ℕ). find_from n 0 name g₁.entries) (sym count) in
      let place = place_for-IsPlace name g₁.entries _ _ p.0 p.1.0 searched p.1.1.0 in
      record {
        idx = p.0;
        gen = gen;
        gen_word = omega arith;
        valid = v.0;
        earlier = λ j lt in_index.
            sym (hit_same name g₁.entries (index_entry D s c) j (is.entries_lem j in_index))
            ∙ place.earlier j lt (omega arith);
        file = HasFile-same d name src p.0 gen s c c₁ c' is.same f';
      }
