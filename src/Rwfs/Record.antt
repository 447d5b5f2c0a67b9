-- ===== src/Rwfs/Record.antt =====
-- A file's blocks are read as they were written.
use rewind_os.Base.{
  ℕ, ◌+◌, ◌-◌, ◌*◌, ◌%◌, ◌^◌, ◌≤◌, ◌<◌, ◌≡◌, ◌≢◌, inl, refl, sym, ap, ◌∙◌, Option, none, some, List,
  [], length, arith,
}
use rewind_os.Media.{Code, ok, err, got, BlockDevice, IsLawful}
use rewind_os.Media.Words.{words}
use rewind_os.Media.Checksum.{checksum, checksum_lt}
use rewind_os.Disk.Crash.{Reads}
use rewind_os.Rwfs.{IndexEntry, marker_block, fdat_magic, fden_magic}
use rewind_os.Rwfs.Mount.{on_read}
use rewind_os.Rwfs.Files.{if_written, write_tail, write_record}
use rewind_os.Rwfs.Reads.{read_payload, read_checked, read_tail, read_record}
use rewind_os.Rwfs.Payload.{
  on_read_got, Holds, Holds-same, Keeps, write_payload-Holds, read_payload-Holds,
}
use rewind_os.Rwfs.Marker.{IsMarker, marker_ok-marker_block, crc-marker_block}

module _ (D : BlockDevice) where
  open D use {Card}

  -- The blocks of a file of `k` blocks of content, from `lba` on.
  pub record IsStored (lba k : ℕ) (hdr src tail : List ℕ) (c : Card) : Type 0 where
    pub header : D.content c lba ≡ hdr
    pub content : Holds D (lba + 1) src c
    pub trailer : D.content c (lba + k + 1) ≡ tail

  pub IsStored-same :
      (lba k : ℕ) (hdr src tail : List ℕ) (c c' : Card)
      → ((j : ℕ) → D.content c' j ≡ D.content c j)
      → IsStored lba k hdr src tail c
      → IsStored lba k hdr src tail c'
  IsStored-same lba k hdr src tail c c' same h = record {
    header = same lba ∙ h.header;
    content = Holds-same D (lba + 1) src c c' same h.content;
    trailer = same (lba + k + 1) ∙ h.trailer;
  }

  wrote_inv :
      (r : Code × Card) (next : Card → Option (Code × Card)) {c' : Card}
      → if_written r next ≡ some (ok, c')
      → (r.0 ≡ ok) × (next r.1 ≡ some (ok, c'))
  unfolding if_written
  wrote_inv (ok, c) next e = (refl, e)
  wrote_inv (err n, c) next e = cc

  write_tail_inv :
      (lba : ℕ) (tail : List ℕ) (r : Option (Code × Card)) (c' : Card)
      → write_tail D lba tail r ≡ some (ok, c')
      → (c : Card) × ((r ≡ some (ok, c)) × (D.write lba tail c ≡ (ok, c')))
  unfolding write_tail
  write_tail_inv lba tail none c' e = cc
  write_tail_inv lba tail (some (ok, c)) c' e = (c, (refl, cc))
  write_tail_inv lba tail (some (err n, c)) c' e = cc

  module _ (law : IsLawful D) where
    stored_lem :
        (lba k : ℕ) (hdr src tail : List ℕ) (c c₁ c' : Card)
        → (D.write lba hdr c).0 ≡ ok
        → Holds D (lba + 1) src c₁ × Keeps D (lba + 1) k (D.write lba hdr c).1 c₁
        → D.write (lba + k + 1) tail c₁ ≡ (ok, c')
        → length src ≤ 512 * k
        → IsStored lba k hdr src tail c' × Keeps D lba (k + 2) c c'
    unfolding Keeps Holds
    stored_lem lba k hdr src tail c c₁ c' done (held, kept) last fits =
        let last_ok : (D.write (lba + k + 1) tail c₁).0 ≡ ok = ap (λ (r : Code × Card). r.0) last in
        let there : (D.write (lba + k + 1) tail c₁).1 ≡ c' = ap (λ (r : Code × Card). r.1) last in
        let before = λ (j : ℕ) (ne : lba + k + 1 ≢ j).
          ap (λ (x : Card). D.content x j) (sym there)
          ∙ law.content-write_ne c₁ (lba + k + 1) tail j ne in
        (
          record {
            header =
                before lba (omega arith)
                ∙ kept lba (inl (omega arith))
                ∙ law.content-write c lba hdr done;
            content = λ i lt. before (lba + 1 + i) (omega arith) ∙ held i lt;
            trailer =
                ap (λ (x : Card). D.content x (lba + k + 1)) (sym there)
                ∙ law.content-write c₁ (lba + k + 1) tail last_ok;
          },
          λ j out.
              before j (ground (arith, out))
              ∙ kept j (ground (arith, out))
              ∙ law.content-write_ne c lba hdr j (ground (arith, out)),
        )

    -- A file that was written without an error is on the card, and no other block has changed.
    pub write_record-IsStored :
        (lba k : ℕ) (hdr src tail : List ℕ) (c c' : Card)
        → length src ≤ 512 * k
        → lba + k + 1 < 2 ^ 32
        → write_record D lba (2 + k) src (length src) hdr tail c ≡ some (ok, c')
        → IsStored lba k hdr src tail c' × Keeps D lba (k + 2) c c'
    unfolding write_record
    write_record-IsStored lba k hdr src tail c c' fits small e =
        let first = wrote_inv (D.write lba hdr c) _ e in
        let place : (lba + (2 + k) + 2 ^ 32 - 1) % 2 ^ 32 ≡ lba + k + 1 = omega arith in
        let next : (lba + 1) % 2 ^ 32 ≡ lba + 1 = omega arith in
        let end = write_tail_inv _ tail _ c' first.1 in
        stored_lem lba k hdr src tail c end.0 c' first.0
          (write_payload-Holds D law (length src + 1) k src (lba + 1) (D.write lba hdr c).1 end.0
            fits (omega arith) (rw (← next) (end.1.0)))
          (rw (← place) (end.1.1)) fits

    module _ (reads : Reads D) (e : IndexEntry) (hash k : ℕ) (src : List ℕ) where
      abbrev marker : ℕ → List ℕ
      marker magic = marker_block magic hash e.generation e.data_len e.content_crc

      -- The entry tells of the content, in numbers that are words.
      pub record Describes : Type 0 where
        pub len : length src ≡ e.data_len
        pub crc : e.content_crc ≡ checksum src
        pub blocks : e.record_blocks ≡ 2 + k
        pub fits : length src ≤ 512 * k
        pub small : e.data_lba + k + 1 < 2 ^ 32
        pub gen_word : e.generation < 2 ^ 32
        pub hash_word : hash < 2 ^ 32
        pub len_word : e.data_len < 2 ^ 32

      -- A block that holds what it should, once it is read.
      block_read :
          {A : Type 0} (lba : ℕ) (c : Card) (b : List ℕ) (stop : ℕ → Card → A)
          (next : List ℕ → Card → A)
          → D.content c lba ≡ b
          → on_read (D.read lba c) stop next ≡ next b (D.read lba c).1
      block_read lba c b stop next e =
          let found = reads c lba in
          on_read_got (D.read lba c) found.0 stop next found.1
          ∙ ap (λ l. next l (D.read lba c).1) (law.read_got c lba found.0 found.1 ∙ e)

      module _ (d : Describes) where
        magic-IsMarker :
            (magic : ℕ) → magic < 2 ^ 32 → IsMarker magic hash e.generation e.data_len e.content_crc
        magic-IsMarker magic h = record {
          magic_word = h;
          hash_word = d.hash_word;
          gen_word = d.gen_word;
          len_word = d.len_word;
          crc_word = rw d.crc (checksum_lt src);
        }

        read_checked_lem : read_checked e hash src (words (marker fden_magic)) ≡ got src
        unfolding read_checked
        read_checked_lem =
            let m = magic-IsMarker fden_magic (omega arith) in
            let passes = marker_ok-marker_block _ _ _ _ _ m e refl refl in
            let crc = crc-marker_block _ _ _ _ _ m in rw (passes, crc, ← d.crc) (ground arith)

        read_tail_lem :
            (c c₁ : Card)
            → D.content c₁ (e.data_lba + k + 1) ≡ marker fden_magic
            → ((j : ℕ) → D.content c₁ j ≡ D.content c j)
            → (c' : Card) × ((read_tail D e hash (some (ok, (src, c₁))) ≡ some (got src, c'))
                × ((j : ℕ) → D.content c' j ≡ D.content c j))
        unfolding read_tail
        read_tail_lem c c₁ there same =
            let lba : (e.data_lba + e.record_blocks + 2 ^ 32 - 1) % 2 ^ 32 ≡ e.data_lba + k + 1 =
              omega (arith, d.blocks, d.small) in
            (
              (D.read (e.data_lba + k + 1) c₁).1,
              (
                simp lba (
                    block_read (e.data_lba + k + 1) c₁ (marker fden_magic) _ _ there
                    ∙ simp read_checked_lem refl),
                λ j. law.content-read c₁ (e.data_lba + k + 1) j ∙ same j,
              ),
            )

        -- A file that is on the card is read whole, and nothing on the card changes.
        pub read_record-IsStored :
            (c : Card)
            → IsStored e.data_lba k (marker fdat_magic) src (marker fden_magic) c
            → (c' : Card) × ((read_record D e hash c ≡ some (got src, c'))
                × ((j : ℕ) → D.content c' j ≡ D.content c j))
        unfolding read_record
        read_record-IsStored c s =
            let m = magic-IsMarker fdat_magic (omega arith) in
            let passes = marker_ok-marker_block _ _ _ _ _ m e refl refl in
            let c₁ = (D.read e.data_lba c).1 in
            let same = law.content-read c e.data_lba in
            let next : (e.data_lba + 1) % 2 ^ 32 ≡ e.data_lba + 1 = omega (arith, d.small) in
            let held : Holds D (e.data_lba + 1) src c₁ =
              Holds-same D (e.data_lba + 1) src c c₁ same s.content in
            let back =
              read_payload-Holds D law reads (length src + 1) k [] src (e.data_lba + 1) c₁
                (omega arith) d.fits (omega (arith, d.small)) held in
            let tail =
              read_tail_lem c back.0
                (back.1.1 (e.data_lba + k + 1) ∙ same (e.data_lba + k + 1) ∙ s.trailer)
                (λ j. back.1.1 j ∙ same j) in
            let loop : read_payload D (e.data_len + 1) [] e.data_len ((e.data_lba + 1) % 2 ^ 32) c₁
                ≡ some (ok, (src, back.0)) =
              ap (λ (n : ℕ). read_payload D (e.data_len + 1) [] e.data_len n c₁) next
              ∙ ap (λ (n : ℕ). read_payload D (n + 1) [] n (e.data_lba + 1) c₁) (sym d.len)
              ∙ back.1.0 in
            (
              tail.0,
              (
                block_read e.data_lba c (marker fdat_magic) _ _ s.header
                    ∙ simp passes (ap (read_tail D e hash) loop ∙ tail.1.0),
                tail.1.1,
              ),
            )
