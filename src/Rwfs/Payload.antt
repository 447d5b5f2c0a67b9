-- ===== src/Rwfs/Payload.antt =====
-- The content of a file, over its blocks: what the loops of `rwfs_write_all_atomic` and `rwfs_read_all` do.
use rewind_os.Base.{
  ℕ, zero, suc, ◌+◌, ◌-◌, ◌*◌, ◌%◌, ◌^◌, ◌≤◌, ◌<◌, ◌≡◌, ◌⊎◌, inl, inr, refl, sym, ap, ◌∙◌,
}
use rewind_os.Base.{
  false, Option, some, List, [], ◌∷◌, ◌++◌, length, take, drop, replicate, ltb, ◌==◌, arith,
  Bool-cases, append-nil, append_assoc, length-drop, drop-drop, drop_all,
}
use rewind_os.Media.{Code, ok, err, ReadResult, got, failed, BlockDevice, IsLawful}
use rewind_os.Disk.Crash.{Reads}
use rewind_os.Rwfs.Mount.{on_read}
use rewind_os.Rwfs.Files.{chunk, if_written, write_payload}
use rewind_os.Rwfs.Reads.{read_payload}

-- The block that starts with the first bytes.
abbrev pub pad_block : List ℕ → List ℕ
pad_block src = take (chunk (length src)) src ++ replicate (512 - chunk (length src)) 0

take-drop_append : (n : ℕ) (xs : List ℕ) → take n xs ++ drop n xs ≡ xs
take-drop_append zero xs = refl
take-drop_append (suc n) [] = refl
take-drop_append (suc n) (x ∷ xs) = ap (λ l. x ∷ l) (take-drop_append n xs)

take_append : (n : ℕ) (xs ys : List ℕ) → n ≤ length xs → take n (take n xs ++ ys) ≡ take n xs
take_append zero xs ys h = refl
take_append (suc n) [] ys h = absurd (omega arith)
take_append (suc n) (x ∷ xs) ys h = ap (λ l. x ∷ l) (take_append n xs ys (omega arith))

chunk_le : (n : ℕ) → chunk n ≤ n
chunk_le n = ground arith

-- What is behind the first block.
drop-chunk : (xs : List ℕ) → drop (chunk (length xs)) xs ≡ drop 512 xs
drop-chunk xs = elim (Bool-cases (ltb 512 (length xs))) [
  | inl more ↦ rw more refl
  | inr less ↦
      rw less (drop_all (length xs) xs (omega arith) ∙ sym (drop_all 512 xs (ground (arith, less))))
]

pub on_read_got {ℓ} :
    {A : Type ℓ} {C : Type 0} (r : ReadResult × C) (b : List ℕ) (stop : ℕ → C → A)
    (next : List ℕ → C → A)
    → r.0 ≡ got b
    → on_read r stop next ≡ next b r.1
on_read_got (got a, c) b stop next e = let same : a ≡ b = cc in rw same refl
on_read_got (failed n, c) b stop next e = cc

module _ (D : BlockDevice) where
  open D use {Card}

  -- The blocks from `lba` on have these bytes.
  unfoldable pub Holds : ℕ → List ℕ → Card → Type 0
  Holds lba src c =
      (i : ℕ) → 512 * i < length src → D.content c (lba + i) ≡ pad_block (drop (512 * i) src)

  -- Only the `k` blocks from `lba` on differ.
  unfoldable pub Keeps : ℕ → ℕ → Card → Card → Type 0
  Keeps lba k c c' = (j : ℕ) → (j < lba) ⊎ (lba + k ≤ j) → D.content c' j ≡ D.content c j

  -- Cards with the same blocks.
  pub Holds-same :
      (lba : ℕ) (src : List ℕ) (c c' : Card)
      → ((j : ℕ) → D.content c' j ≡ D.content c j)
      → Holds lba src c
      → Holds lba src c'
  unfolding Holds
  Holds-same lba src c c' same h i lt = same (lba + i) ∙ h i lt

  wrote_ok :
      (r : Code × Card) (next : Card → Option (Code × Card)) {c' : Card}
      → if_written r next ≡ some (ok, c')
      → (r.0 ≡ ok) × (next r.1 ≡ some (ok, c'))
  unfolding if_written
  wrote_ok (ok, c) next e = (refl, e)
  wrote_ok (err n, c) next e = cc

  -- What is read ends well with these bytes, and the card is as it was.
  abbrev pub Back : Option (Code × (List ℕ × Card)) → List ℕ → Card → Type 0
  Back r want c =
      (c' : Card) × ((r ≡ some (ok, (want, c'))) × ((j : ℕ) → D.content c' j ≡ D.content c j))

  carry :
      (a b : Option (Code × (List ℕ × Card))) (w v : List ℕ) (c c₁ : Card)
      → b ≡ a
      → w ≡ v
      → ((j : ℕ) → D.content c₁ j ≡ D.content c j)
      → Back a w c₁
      → Back b v c
  carry a b w v c c₁ e f same (c', (x, y)) =
      let pack : List ℕ → Option (Code × (List ℕ × Card)) = λ l. some (ok, (l, c')) in
      (c', (e ∙ x ∙ ap pack f, λ j. y j ∙ same j))

  -- A round of a loop that is not at its end.
  write_round :
      (fuel : ℕ) (src : List ℕ) (rem lba : ℕ) (c : Card)
      → 0 < rem
      → write_payload D (suc fuel) src rem lba c
        ≡ if_written
            (D.write lba (take (chunk rem) src ++ replicate (512 - chunk rem) 0) c)
            (write_payload D fuel (drop (chunk rem) src) (rem - chunk rem) ((lba + 1) % 2 ^ 32))
  unfolding write_payload
  write_round fuel src rem lba c pos =
      let more : (rem == 0) ≡ false = ground arith in rw (more, write_payload) refl

  read_round :
      (fuel : ℕ) (dst b : List ℕ) (rem lba : ℕ) (c : Card)
      → 0 < rem
      → (D.read lba c).0 ≡ got b
      → read_payload D (suc fuel) dst rem lba c
        ≡ read_payload D fuel
            (dst ++ take (chunk rem) b)
            (rem - chunk rem)
            ((lba + 1) % 2 ^ 32)
            (D.read lba c).1
  unfolding read_payload
  read_round fuel dst b rem lba c pos e =
      let more : (rem == 0) ≡ false = ground arith in
      rw (more, read_payload) (on_read_got (D.read lba c) b _ _ e)

  module _ (law : IsLawful D) where
    Holds-next :
        (lba : ℕ) (src : List ℕ) (c : Card)
        → D.content c lba ≡ pad_block src
        → Holds (lba + 1) (drop 512 src) c
        → Holds lba src c
    unfolding Holds
    Holds-next lba src c first rest zero h = let e : lba + 0 ≡ lba = omega arith in rw e first
    Holds-next lba src c first rest (suc i) h =
        let e : lba + suc i ≡ lba + 1 + i = omega arith in
        let k : 512 + 512 * i ≡ 512 * suc i = omega arith in
        rw e (
          rest i (omega (arith, length-drop 512 src))
          ∙ ap pad_block (drop-drop 512 (512 * i) src ∙ ap (λ n. drop n src) k))

    Holds-after :
        (lba : ℕ) (src : List ℕ) (c : Card) → Holds lba src c → Holds (lba + 1) (drop 512 src) c
    unfolding Holds
    Holds-after lba src c h i lt =
        let e : lba + suc i ≡ lba + 1 + i = omega arith in
        let k : 512 + 512 * i ≡ 512 * suc i = omega arith in
        rw (← e) (
          h (suc i) (omega (arith, length-drop 512 src))
          ∙ ap pad_block (sym (drop-drop 512 (512 * i) src ∙ ap (λ n. drop n src) k)))

    -- A block is written, and then the others.
    one_more :
        (k : ℕ) (src : List ℕ) (lba : ℕ) (c c' : Card)
        → let w = D.write lba (pad_block src) c in
          w.0 ≡ ok
          → Holds (lba + 1) (drop (chunk (length src)) src) c' × Keeps (lba + 1) k w.1 c'
          → Holds lba src c' × Keeps lba (suc k) c c'
    unfolding Keeps
    one_more k src lba c c' done (rest, kept) = (
      Holds-next lba src c'
          (kept lba (inl (omega arith)) ∙ law.content-write c lba (pad_block src) done)
          (rw (drop-chunk src) at rest),
      λ j out.
          kept j (ground (arith, out))
          ∙ law.content-write_ne c lba (pad_block src) j (ground (arith, out)),
    )

    -- A loop that succeeds has stored the bytes, and only touched their blocks.
    pub write_payload-Holds :
        (fuel k : ℕ) (src : List ℕ) (lba : ℕ) (c c' : Card)
        → length src ≤ 512 * k
        → lba + k < 2 ^ 32
        → write_payload D fuel src (length src) lba c ≡ some (ok, c')
        → Holds lba src c' × Keeps lba k c c'
    unfolding write_payload Keeps Holds
    write_payload-Holds zero k src lba c c' fits small e = cc
    write_payload-Holds (suc fuel) k [] lba c c' fits small e =
        (λ i lt. absurd (omega arith), λ j out. cc)
    write_payload-Holds (suc fuel) zero (x ∷ xs) lba c c' fits small e = absurd (omega arith)
    write_payload-Holds (suc fuel) (suc k) (x ∷ xs) lba c c' fits small e =
        let src = x ∷ xs in
        let stored =
          wrote_ok (D.write lba (pad_block src) c) _
            (sym (write_round fuel src (length src) lba c (omega arith)) ∙ e) in
        let c₁ = (D.write lba (pad_block src) c).1 in
        let n = chunk (length src) in
        let len : length src - n ≡ length (drop n src) = sym (length-drop n src) in
        let next : (lba + 1) % 2 ^ 32 ≡ lba + 1 = omega arith in
        let again : write_payload D fuel (drop n src) (length (drop n src)) (lba + 1) c₁
            ≡ some (ok, c') =
          rw (← len, ← next) (stored.1) in
        let fewer : length (drop n src) ≤ 512 * k = ground (arith, len) in
        one_more k src lba c c' stored.0
          (write_payload-Holds fuel k (drop n src) (lba + 1) c₁ c' fewer (omega arith) again)

    module _ (reads : Reads D) where
      -- The bytes that are stored are read, behind those that are there, and nothing on the card changes.
      pub read_payload-Holds :
          (fuel k : ℕ) (dst src : List ℕ) (lba : ℕ) (c : Card)
          → length src < fuel
          → length src ≤ 512 * k
          → lba + k < 2 ^ 32
          → Holds lba src c
          → Back (read_payload D fuel dst (length src) lba c) (dst ++ src) c
      unfolding read_payload Holds
      read_payload-Holds zero k dst src lba c more fits small h = absurd (omega arith)
      read_payload-Holds (suc fuel) k dst [] lba c more fits small h =
          (c, (rw append-nil refl, λ j. refl))
      read_payload-Holds (suc fuel) zero dst (x ∷ xs) lba c more fits small h = absurd (omega arith)
      read_payload-Holds (suc fuel) (suc k) dst (x ∷ xs) lba c more fits small h =
          let src = x ∷ xs in
          let n = chunk (length src) in
          let found = reads c lba in
          let c₁ = (D.read lba c).1 in
          let b = found.0 in
          let rest = drop n src in
          let first : lba + 0 ≡ lba = omega arith in
          let is : b ≡ pad_block src =
            law.read_got c lba b found.1 ∙ sym (ap (D.content c) first) ∙ h 0 (omega arith) in
          let bytes : take n b ≡ take n src =
            ap (take n) is ∙ take_append n src _ (chunk_le (length src)) in
          let len : length rest ≡ length src - n = length-drop n src in
          let next : (lba + 1) % 2 ^ 32 ≡ lba + 1 = omega arith in
          let all : (dst ++ take n b) ++ rest ≡ dst ++ src =
            append_assoc dst (take n b) rest
            ∙ ap (λ l. dst ++ l) (ap (λ l. l ++ rest) bytes ∙ take-drop_append n src) in
          carry _ _ _ _ c c₁
            (read_round fuel dst b (length src) lba c (omega arith) found.1 ∙ rw (next, ← len) refl)
            all (law.content-read c lba)
            (read_payload-Holds fuel k (dst ++ take n b) rest (lba + 1) c₁ (ground (arith, len))
              (ground (arith, len)) (omega arith)
              (rw (drop-chunk src)
                (λ i lt. law.content-read c lba (lba + 1 + i) ∙ Holds-after lba src c h i lt)))
