-- ===== src/Journal/Ring.antt =====
-- The ring of records on the card: where a scan after a restart finds its end, and what a record that is
-- appended does to it.
use mathlib.Core.Path.{subst}
use native.Mathlib.Nat.{mod_self, mod-eq_of_lt}
use rewind_os.Base.{
  ℕ, zero, suc, ◌+◌, ◌-◌, ◌%◌, ◌^◌, ◌≤◌, ◌<◌, ◌≡◌, ◌⊎◌, inl, inr, refl, ap, ap₂, ◌∙◌, fun_ext, Bool,
  true, false, Option, none, some,
}
use rewind_os.Base.{List, arith}
use rewind_os.Media.{Code, ok, err, got, BlockDevice, IsLawful}
use rewind_os.Disk.Crash.{Reads}
use rewind_os.Journal.{Entry, Journal, jrnl_block_validate}
use rewind_os.Media.Ready.{media_ready, content-media_ready}
use rewind_os.Journal.Calls.{
  is_off, on_block, jrnl_scan_tail, newest_of, scanned, scan_from, scan_with,
}
use rewind_os.Journal.Newest.{
  newest_from, newest_from-add, Numbered, newest_started, newest_stale, newest_empty,
}

-- The ring has `size` blocks, `v` tells what they hold, the next record comes to block `place` with number
-- `next`. Before it stand the latest records; behind it stand older ones, or none if the ring was never full.
pub record IsRing (size : ℕ) (v : ℕ → Option Entry) (place next : ℕ) (full : Bool) : Type 0 where
  pub inside : place < size
  pub small : next < 2 ^ 31
  pub recent : (r : ℕ) → r < place → (seq : ℕ) × ((seq + place ≡ next + r) × Numbered (v r) seq)
  pub older :
      full ≡ true
      → (r : ℕ) → place ≤ r
      → r < size
      → (seq : ℕ) × ((seq + place + size ≡ next + r) × Numbered (v r) seq)
  pub unused : full ≡ false → (r : ℕ) → place ≤ r → r < size → v r ≡ none
  pub counted : full ≡ false → next ≡ place + 1
  pub numbered : place < next
  pub numbered_full : full ≡ true → size < next

abbrev pub newest_in : ℕ → ℕ → ℕ → Bool → Option (ℕ × ℕ)
newest_in size zero next false = none
newest_in size zero next true = some (next - 1, size - 1)
newest_in size (suc p) next full = some (next - 1, p)

module _ (size : ℕ) (v : ℕ → Option Entry) (next : ℕ) where
  -- The blocks behind the place are not newer.
  behind :
      (p : ℕ) (full : Bool)
      → IsRing size v (suc p) next full
      → (r : ℕ) → r < size - suc p
      → (v (0 + suc p + r) ≡ none)
        ⊎ ((seq : ℕ) × ((seq ≤ next - 1) × Numbered (v (0 + suc p + r)) seq))
  behind p true ring r lt =
      let k = 0 + suc p + r in
      let old = ring.older refl k (omega arith) (omega arith) in
      let e = old.1.0 in inr (old.0, (omega arith, old.1.1))
  behind p false ring r lt = inl (ring.unused refl (0 + suc p + r) (omega arith) (omega arith))

  numbered_at : (a b r : ℕ) → a ≡ b → Numbered (v r) a → Numbered (v r) b
  numbered_at a b r e h = subst (λ m. Numbered (v r) m) e h

  at_zero : (r : ℕ) {seq : ℕ} → Numbered (v r) seq → Numbered (v (0 + r)) seq
  at_zero r {seq} h = let e : r ≡ 0 + r = omega arith in subst (λ m. Numbered (v m) seq) e h

  -- A ring's newest record is the one before the place.
  pub newest_lem :
      (place : ℕ) (full : Bool)
      → IsRing size v place next full
      → newest_from size v 0 none ≡ newest_in size place next full
  newest_lem zero false ring =
      newest_empty size v 0 (λ r lt. ring.unused refl (0 + r) (omega arith) (omega arith))
  newest_lem zero true ring =
      let inside = ring.inside in
      let bound = ring.small in
      let low = ring.numbered_full refl in
      let x = next - 1 - size in
      let n = size - 1 in
      let len : size ≡ suc n = omega arith in
      let seq : x + suc n ≡ next - 1 = omega arith in
      let all = λ (r : ℕ) (lt : r < suc n).
        (let o = ring.older refl r (omega arith) (omega arith) in
          let eq = o.1.0 in numbered_at o.0 (x + 1 + r) (0 + r) (omega arith) (at_zero r o.1.1)) in
      ap (λ m. newest_from m v 0 none) len
      ∙ newest_started n v 0 x all (omega arith)
      ∙ ap₂ (λ a b. some (a, b)) seq (let z : 0 + n ≡ size - 1 = omega arith in z)
  newest_lem (suc p) full ring =
      let inside = ring.inside in
      let bound = ring.small in
      let low = ring.numbered in
      let x = next - 1 - suc p in
      let more = size - suc p in
      let len : size ≡ suc p + more = omega arith in
      let seq : x + suc p ≡ next - 1 = omega arith in
      let all = λ (r : ℕ) (lt : r < suc p).
        (let o = ring.recent r (omega arith) in
          let eq = o.1.0 in numbered_at o.0 (x + 1 + r) (0 + r) (omega arith) (at_zero r o.1.1)) in
      ap (λ m. newest_from m v 0 none) len
      ∙ newest_from-add (suc p) more v 0 none
      ∙ ap (newest_from more v (0 + suc p)) (
          newest_started p v 0 x all (omega arith)
          ∙ ap₂ (λ a b. some (a, b)) seq (let z : 0 + p ≡ p = omega arith in z))
      ∙ newest_stale more v (0 + suc p) (next - 1) p (behind p full ring) (omega arith)

-- A journal that knows the end of the ring that is on the card.
pub record IsSettled (D : BlockDevice) (full : Bool) (j : Journal) (c : D.Card) : Type 0 where
  pub place : ℕ
  pub is_ring :
      IsRing j.blocks
        (λ r. jrnl_block_validate (D.content c (j.start_lba + r)))
        place
        j.next_seq
        full
  pub at_place : j.next_lba ≡ j.start_lba + place
  pub fits : j.start_lba + j.blocks < 2 ^ 32
  pub is_ready : j.scan_ready ≡ true

module _ (D : BlockDevice) (law : IsLawful D) (reads : Reads D) where
  open D use {Card}

  abbrev held : Card → ℕ → ℕ → Option Entry
  held c start r = jrnl_block_validate (D.content c (start + r))

  held_same : (c : Card) (lba start : ℕ) → held (D.read lba c).1 start ≡ held c start
  held_same c lba start = fun_ext (λ r. ap jrnl_block_validate (law.content-read c lba (start + r)))

  scan_step :
      (n start i lba : ℕ) (best : Option (ℕ × ℕ)) (c : Card) (b : List ℕ)
      → (start + i) % 2 ^ 32 ≡ lba
      → (D.read lba c).0 ≡ got b
      → scan_from D (suc n) start i best c
        ≡ scan_from D n start (i + 1) (newest_of (jrnl_block_validate b) i best) (D.read lba c).1
  unfolding scan_from
  scan_step n start i lba best c b here e =
      let next = λ (a : ℕ) (x : List ℕ).
        scan_from D n start (i + 1) (newest_of (jrnl_block_validate x) i best) (D.read a c).1 in
      ap (λ a. on_block (D.read a c).0 (best, (D.read a c).1) (next a)) here
      ∙ ap (λ r. on_block r (best, (D.read lba c).1) (next lba)) e

  -- The scan reads the blocks one after the other.
  scan_from_lem :
      (n start i : ℕ) (best : Option (ℕ × ℕ)) (c : Card)
      → start + i + n < 2 ^ 32
      → (scan_from D n start i best c).0 ≡ newest_from n (held c start) i best
  unfolding scan_from
  scan_from_lem zero start i best c fits = refl
  scan_from_lem (suc n) start i best c fits =
      let lba : (start + i) % 2 ^ 32 ≡ start + i = omega arith in
      let r = reads c (start + i) in
      let b = law.read_got c (start + i) r.0 r.1 in
      let next = newest_of (held c start i) i best in
      ap (λ q. q.0) (scan_step n start i (start + i) best c r.0 lba r.1)
      ∙ (scan_from_lem n start (i + 1) (newest_of (jrnl_block_validate r.0) i best)
            (D.read (start + i) c).1 (omega arith)
          ∙ ap₂ (λ h o. newest_from n h (i + 1) (newest_of o i best))
              (held_same c (start + i) start) (ap jrnl_block_validate b))

  -- What the scan makes of a ring.
  scanned_ring :
      (size place next : ℕ) (full : Bool) (k : Journal) (v : ℕ → Option Entry)
      → k.blocks ≡ size
      → IsRing size v place next full
      → k.start_lba + size < 2 ^ 32
      → let found = scanned (newest_in size place next full) k in
        (found.next_seq ≡ next)
        × ((found.next_lba ≡ k.start_lba + place) × (found.scan_ready ≡ true))
  unfolding scanned
  scanned_ring size zero next false k v e ring fits =
      let n = ring.counted refl in (omega arith, (omega arith, refl))
  scanned_ring size zero next true k v e ring fits =
      let a = ring.inside in
      let b = ring.small in
      let c = ring.numbered in
      let whole : (size - 1 + 1) % 2 ^ 32 % k.blocks ≡ 0 =
        (let same : (size - 1 + 1) % 2 ^ 32 ≡ size = omega arith in
          ap₂ (λ x y. x % y) same e ∙ mod_self size) in
      (omega arith, (omega (arith, whole), refl))
  scanned_ring size (suc p) next full k v e ring fits =
      let a = ring.inside in
      let b = ring.small in
      let c = ring.numbered in
      let w : (p + 1) % 2 ^ 32 % k.blocks ≡ p + 1 =
        (let same : (p + 1) % 2 ^ 32 ≡ p + 1 = omega arith in
          ap₂ (λ x y. x % y) same e ∙ mod-eq_of_lt (omega arith)) in
      (omega arith, (omega (arith, w), refl))

  scan_with_ok :
      (k : Journal) (r : Code × Card)
      → r.0 ≡ ok
      → (scan_with D k r).0 ≡ scanned (scan_from D k.blocks k.start_lba 0 none r.1).0 k
  unfolding scan_with
  scan_with_ok k (ok, c) e = refl
  scan_with_ok k (err n, c) e = cc

  -- A journal that does not know the end of its ring finds it again by the scan: the place and the number of
  -- the next record are those that it had before the restart, whether the ring has been full or not. Every
  -- block of the card can be read, and the numbers are below 2 ^ 31.
  pub jrnl_scan_tail-IsSettled :
      (full : Bool) (j k : Journal) (c : Card)
      → IsSettled D full j c
      → (media_ready D c).0 ≡ ok
      → is_off k ≡ false
      → k.start_lba ≡ j.start_lba
      → k.blocks ≡ j.blocks
      → let found = (jrnl_scan_tail D k c).0 in
        (found.next_seq ≡ j.next_seq) × ((found.next_lba ≡ j.next_lba) × (found.scan_ready ≡ true))
  unfolding jrnl_scan_tail
  jrnl_scan_tail-IsSettled full j k c st ready on same_start same_size =
      let k₁ = record k { scan_ready = false } in
      let r = st.is_ring in
      let after = (media_ready D c).1 in
      let same : held after k.start_lba ≡ held c j.start_lba = fun_ext (λ x.
        ap jrnl_block_validate (
          content-media_ready D law c (k.start_lba + x)
          ∙ ap (λ a. D.content c (a + x)) same_start)) in
      let found : (scan_from D k.blocks k.start_lba 0 none after).0
          ≡ newest_in j.blocks st.place j.next_seq full =
        scan_from_lem k.blocks k.start_lba 0 none after (let f = st.fits in omega arith)
        ∙ ap₂ (λ n v. newest_from n v 0 none) same_size same
        ∙ newest_lem j.blocks (held c j.start_lba) j.next_seq st.place full r in
      let scan : (jrnl_scan_tail D k c).0
          ≡ scanned (newest_in j.blocks st.place j.next_seq full) k₁ =
        rw on (scan_with_ok k₁ (media_ready D c) ready ∙ ap (λ b. scanned b k₁) found) in
      let all =
        scanned_ring j.blocks st.place j.next_seq full k₁ (held c j.start_lba) same_size r
          (let f = st.fits in omega arith) in
      let at = st.at_place in
      (
        ap (λ x. x.next_seq) scan ∙ all.0,
        (ap (λ x. x.next_lba) scan ∙ all.1.0 ∙ omega arith, ap (λ x. x.scan_ready) scan ∙ all.1.1),
      )
