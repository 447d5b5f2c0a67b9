-- ===== src/Rwfs/Entries.antt =====
-- Index entries in their blocks: an entry is read from the place it was written to, and the others stay.
use rewind_os.Base.{ℕ, zero, suc, ◌*◌, ◌^◌, ◌≤◌, ◌<◌, ◌≡◌, ◌≢◌, refl, sym, ap, ap₂, ◌∙◌}
use rewind_os.Base.{
  List, [], ◌∷◌, ◌++◌, length, take, drop, arith, length-append, length-drop, length-take,
  take-append_length, drop-append_length, append_assoc,
}
use rewind_os.Media.Words.{words, bytes, AreWords, AreWords-append}
use rewind_os.Media.Checksum.{checksum_lt}
use rewind_os.Rwfs.{
  IndexEntry, entry_fields, entry_words, entry_with, entry_of, rwfs_entry_crc, slot_words,
  with_slot, entry_live,
}
use rewind_os.Rwfs.Mount.{checked}
use rewind_os.Rwfs.Names.{AreBytes, bytes-words, length-words}

pub words-AreWords : (bs : List ℕ) → AreBytes bs → AreWords (words bs)
unfolding words
words-AreWords (a ∷ b ∷ c ∷ d ∷ bs) (ha, (hb, (hc, (hd, h)))) = (omega arith, words-AreWords bs h)
words-AreWords [] h = tt
words-AreWords (a ∷ []) h = tt
words-AreWords (a ∷ b ∷ []) h = tt
words-AreWords (a ∷ b ∷ c ∷ []) h = tt

bytes-AreBytes : (ws : List ℕ) → AreBytes (bytes ws)
unfolding bytes
bytes-AreBytes [] = tt
bytes-AreBytes (w ∷ ws) =
    (omega arith, (omega arith, (omega arith, (omega arith, bytes-AreBytes ws))))

length-bytes : (ws : List ℕ) → length (bytes ws) ≡ 4 * length ws
unfolding bytes
length-bytes [] = refl
length-bytes (w ∷ ws) = omega (arith, length-bytes ws)

-- A block of the card.
pub record IsBlock (b : List ℕ) : Type 0 where
  pub size : length b ≡ 512
  pub are_bytes : AreBytes b

pub bytes-IsBlock : (ws : List ℕ) → length ws ≡ 128 → IsBlock (bytes ws)
bytes-IsBlock ws h = record { size = omega (arith, length-bytes ws); are_bytes = bytes-AreBytes ws }

-- An entry whose numbers are words, live and with its checksum.
pub record IsIndexEntry (e : IndexEntry) : Type 0 where
  pub name_size : length e.name ≡ 32
  pub name_bytes : AreBytes e.name
  pub live : e.state ≡ entry_live
  pub lba_word : e.data_lba < 2 ^ 32
  pub len_word : e.data_len < 2 ^ 32
  pub gen_word : e.generation < 2 ^ 32
  pub crc_word : e.content_crc < 2 ^ 32
  pub blocks_word : e.record_blocks < 2 ^ 32
  pub sealed_lem : e.entry_crc ≡ rwfs_entry_crc e

take_append : (n : ℕ) (xs ys : List ℕ) → n ≤ length xs → take n (take n xs ++ ys) ≡ take n xs
take_append zero xs ys h = refl
take_append (suc n) [] ys h = absurd (omega arith)
take_append (suc n) (x ∷ xs) ys h = ap (λ l. x ∷ l) (take_append n xs ys (omega arith))

drop_append : (n : ℕ) (xs ys : List ℕ) → n ≤ length xs → drop n (take n xs ++ ys) ≡ ys
drop_append zero xs ys h = refl
drop_append (suc n) [] ys h = absurd (omega arith)
drop_append (suc n) (x ∷ xs) ys h = drop_append n xs ys (omega arith)

take_exact : (n : ℕ) (xs ys : List ℕ) → length xs ≡ n → take n (xs ++ ys) ≡ xs
take_exact n xs ys e = ap (λ k. take k (xs ++ ys)) (sym e) ∙ take-append_length xs ys

drop_exact : (n : ℕ) (xs ys : List ℕ) → length xs ≡ n → drop n (xs ++ ys) ≡ ys
drop_exact n xs ys e = ap (λ k. drop k (xs ++ ys)) (sym e) ∙ drop-append_length xs ys

module _ (e : IndexEntry) (h : IsIndexEntry e) where
  -- What follows the name.
  abbrev numbers : List ℕ
  numbers =
      e.state ∷ e.data_lba ∷ e.data_len ∷ e.generation ∷ e.content_crc ∷ e.record_blocks
      ∷ e.entry_crc ∷ []

  entry_crc_lt : rwfs_entry_crc e < 2 ^ 32
  unfolding rwfs_entry_crc
  entry_crc_lt = checksum_lt (entry_fields e)

  pub length-entry_words : length (entry_words e) ≡ 15
  length-entry_words = omega (
    arith,
    length-append (entry_fields e) (e.entry_crc ∷ []),
    length-append (words e.name)
        (e.state ∷ e.data_lba ∷ e.data_len ∷ e.generation ∷ e.content_crc ∷ e.record_blocks ∷ []),
    length-words 8 e.name h.name_size,
  )

  pub entry_words-AreWords : AreWords (entry_words e)
  entry_words-AreWords =
      let a = h.lba_word in
      let b = h.len_word in
      let c = h.gen_word in
      let d = h.crc_word in
      let f = h.blocks_word in
      let l = h.live in
      let named = words-AreWords e.name h.name_bytes in
      AreWords-append (entry_fields e) (e.entry_crc ∷ [])
        (AreWords-append (words e.name) (take 6 numbers) named (ground arith))
        (rw h.sealed_lem ((entry_crc_lt, tt)))

  pub entry_of-entry_words : entry_of (entry_words e) ≡ e
  entry_of-entry_words =
      let size = length-words 8 e.name h.name_size in
      ap entry_of (append_assoc (words e.name) _ (e.entry_crc ∷ []))
      ∙ ap₂ entry_with
          (ap bytes (take_exact 8 (words e.name) numbers size)
            ∙ bytes-words 8 e.name h.name_bytes h.name_size)
          (drop_exact 8 (words e.name) numbers size)

  pub checked_lem : checked e ≡ e
  unfolding checked
  checked_lem = let l = h.live in let s = h.sealed_lem in ground arith

-- The place that was written.
pub slot_words-with_slot_self :
    (k : ℕ) (x w : List ℕ)
    → length x ≡ 15
    → 15 * suc k ≤ length w
    → slot_words k (with_slot k x w) ≡ x
unfolding slot_words with_slot
slot_words-with_slot_self zero x w e fits = take_exact 15 x (drop 15 w) e
slot_words-with_slot_self (suc k) x w e fits =
    ap (slot_words k) (drop_append 15 w _ (omega arith))
    ∙ slot_words-with_slot_self k x (drop 15 w) e (omega (arith, length-drop 15 w))

-- Another place.
pub slot_words-with_slot_ne :
    (k j : ℕ) (x w : List ℕ)
    → length x ≡ 15
    → 15 * suc k ≤ length w
    → k ≢ j
    → slot_words j (with_slot k x w) ≡ slot_words j w
unfolding slot_words with_slot
slot_words-with_slot_ne zero zero x w e fits ne = absurd (ne refl)
slot_words-with_slot_ne zero (suc j) x w e fits ne =
    ap (slot_words j) (drop_exact 15 x (drop 15 w) e)
slot_words-with_slot_ne (suc k) zero x w e fits ne = take_append 15 w _ (omega arith)
slot_words-with_slot_ne (suc k) (suc j) x w e fits ne =
    ap (slot_words j) (drop_append 15 w _ (omega arith))
    ∙ slot_words-with_slot_ne k j x (drop 15 w) e (omega (arith, length-drop 15 w))
        (λ p. ne (ap suc p))

AreWords-take : (n : ℕ) (w : List ℕ) → AreWords w → AreWords (take n w)
AreWords-take zero w h = tt
AreWords-take (suc n) [] h = tt
AreWords-take (suc n) (x ∷ w) (lt, h) = (lt, AreWords-take n w h)

AreWords-drop : (n : ℕ) (w : List ℕ) → AreWords w → AreWords (drop n w)
AreWords-drop zero w h = h
AreWords-drop (suc n) [] h = tt
AreWords-drop (suc n) (x ∷ w) (lt, h) = AreWords-drop n w h

pub with_slot-AreWords :
    (k : ℕ) (x w : List ℕ) → AreWords x → AreWords w → AreWords (with_slot k x w)
unfolding with_slot
with_slot-AreWords zero x w hx h = AreWords-append x (drop 15 w) hx (AreWords-drop 15 w h)
with_slot-AreWords (suc k) x w hx h =
    AreWords-append (take 15 w) (with_slot k x (drop 15 w)) (AreWords-take 15 w h)
      (with_slot-AreWords k x (drop 15 w) hx (AreWords-drop 15 w h))

pub length-with_slot :
    (k : ℕ) (x w : List ℕ)
    → length x ≡ 15
    → 15 * suc k ≤ length w
    → length (with_slot k x w) ≡ length w
unfolding with_slot
length-with_slot zero x w e fits = omega (arith, length-append x (drop 15 w), length-drop 15 w)
length-with_slot (suc k) x w e fits = omega (
  arith,
  length-append (take 15 w) (with_slot k x (drop 15 w)),
  length-take 15 w,
  length-drop 15 w,
  length-with_slot k x (drop 15 w) e,
)
