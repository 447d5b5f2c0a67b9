-- ===== src/Media/Words.antt =====
-- Structures on the card are little-endian 32-bit words.
use rewind_os.Base.{
  ℕ, zero, suc, replicate, ◌+◌, ◌*◌, ◌/◌, ◌%◌, ◌^◌, ◌<◌, ◌≡◌, refl, ap₂, List, [], ◌∷◌, ◌++◌, arith,
}

-- The words that stand in an array of bytes; what is left over at the end is no word.
unfoldable pub words : List ℕ → List ℕ
words (a ∷ b ∷ c ∷ d ∷ bs) = (a + b * 2 ^ 8 + c * 2 ^ 16 + d * 2 ^ 24) ∷ words bs
words _ = []

-- The bytes of words.
unfoldable pub bytes : List ℕ → List ℕ
bytes [] = []
bytes (w ∷ ws) =
    (w % 2 ^ 8) ∷ (w / 2 ^ 8 % 2 ^ 8) ∷ (w / 2 ^ 16 % 2 ^ 8) ∷ (w / 2 ^ 24 % 2 ^ 8) ∷ bytes ws

abbrev pub AreWords : List ℕ → Type 0
AreWords [] = Unit {0}
AreWords (w ∷ ws) = (w < 2 ^ 32) × AreWords ws

pub words-bytes : (ws rest : List ℕ) → AreWords ws → words (bytes ws ++ rest) ≡ ws ++ words rest
unfolding words bytes
words-bytes [] rest h = refl
words-bytes (w ∷ ws) rest (lt, h) = ap₂ (λ a l. a ∷ l) (omega arith) (words-bytes ws rest h)

pub AreWords-append : (xs ys : List ℕ) → AreWords xs → AreWords ys → AreWords (xs ++ ys)
AreWords-append [] ys h k = k
AreWords-append (x ∷ xs) ys (lt, h) k = (lt, AreWords-append xs ys h k)

pub AreWords-zeros : (n : ℕ) → AreWords (replicate n 0)
AreWords-zeros zero = tt
AreWords-zeros (suc n) = (omega arith, AreWords-zeros n)
