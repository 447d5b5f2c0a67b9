-- ===== src/Rwfs/Names.antt =====
-- The names of files, as they stand in an index entry.
use rewind_os.Base.{ℕ, zero, suc, ◌+◌, ◌-◌, ◌*◌, ◌/◌, ◌%◌, ◌^◌, ◌≤◌, ◌<◌, ◌≡◌, refl, ap, ap₂, true}
use rewind_os.Base.{
  List, [], ◌∷◌, ◌++◌, length, take, replicate, arith, length-append, length-replicate, length-take,
}
use rewind_os.Media.Words.{words, bytes}
use rewind_os.Rwfs.{rwfs_strnlen, rwfs_name_valid, streq_from, rwfs_streq_name, rwfs_name_copy}

abbrev pub AreBytes : List ℕ → Type 0
AreBytes [] = Unit {0}
AreBytes (b ∷ bs) = (b < 256) × AreBytes bs

-- Words and back, four bytes each.
pub bytes-words : (k : ℕ) (bs : List ℕ) → AreBytes bs → length bs ≡ 4 * k → bytes (words bs) ≡ bs
unfolding bytes words
bytes-words zero [] h e = refl
bytes-words zero (a ∷ bs) h e = absurd (omega arith)
bytes-words (suc k) (a ∷ b ∷ c ∷ d ∷ bs) (ha, (hb, (hc, (hd, h)))) e =
    let ih = bytes-words k bs h (omega arith) in
    let lowest : (a + b * 2 ^ 8 + c * 2 ^ 16 + d * 2 ^ 24) % 2 ^ 8 ≡ a = omega arith in
    let second : (a + b * 2 ^ 8 + c * 2 ^ 16 + d * 2 ^ 24) / 2 ^ 8 % 2 ^ 8 ≡ b = omega arith in
    let third : (a + b * 2 ^ 8 + c * 2 ^ 16 + d * 2 ^ 24) / 2 ^ 16 % 2 ^ 8 ≡ c = omega arith in
    let top : (a + b * 2 ^ 8 + c * 2 ^ 16 + d * 2 ^ 24) / 2 ^ 24 % 2 ^ 8 ≡ d = omega arith in
    ap₂ (λ x l. x ∷ l) lowest
      (ap₂ (λ x l. x ∷ l) second (ap₂ (λ x l. x ∷ l) third (ap₂ (λ x l. x ∷ l) top ih)))
bytes-words (suc k) _ h e = absurd (omega arith)

pub length-words : (k : ℕ) (bs : List ℕ) → length bs ≡ 4 * k → length (words bs) ≡ k
unfolding words
length-words zero [] e = refl
length-words zero (a ∷ bs) e = absurd (omega arith)
length-words (suc k) (a ∷ b ∷ c ∷ d ∷ bs) e = ap suc (length-words k bs (omega arith))
length-words (suc k) _ e = absurd (omega arith)

rwfs_strnlen_le : (s : List ℕ) (m : ℕ) → rwfs_strnlen s m ≤ m
unfolding rwfs_strnlen
rwfs_strnlen_le s zero = omega arith
rwfs_strnlen_le [] (suc m) = omega arith
rwfs_strnlen_le (c ∷ s) (suc m) = ground (arith, rwfs_strnlen_le s m)

rwfs_strnlen_fits : (s : List ℕ) (m : ℕ) → rwfs_strnlen s m ≤ length s
unfolding rwfs_strnlen
rwfs_strnlen_fits s zero = omega arith
rwfs_strnlen_fits [] (suc m) = omega arith
rwfs_strnlen_fits (c ∷ s) (suc m) = ground (arith, rwfs_strnlen_fits s m)

-- The field is filled.
pub length-name_copy : (s : List ℕ) → length (rwfs_name_copy s) ≡ 32
unfolding rwfs_name_copy
length-name_copy s =
    let n = rwfs_strnlen s 31 in
    omega (
      arith,
      length-append (take n s) (replicate (32 - n) 0),
      length-replicate {A = ℕ} (32 - n) 0,
      length-take n s,
      rwfs_strnlen_fits s 31,
      rwfs_strnlen_le s 31,
    )

AreBytes-replicate : (k : ℕ) → AreBytes (replicate k 0)
AreBytes-replicate zero = tt
AreBytes-replicate (suc k) = (omega arith, AreBytes-replicate k)

AreBytes-take_append :
    (n : ℕ) (s ys : List ℕ) → AreBytes s → AreBytes ys → AreBytes (take n s ++ ys)
AreBytes-take_append zero s ys h k = k
AreBytes-take_append (suc n) [] ys h k = k
AreBytes-take_append (suc n) (x ∷ s) ys (lt, h) k = (lt, AreBytes-take_append n s ys h k)

pub name_copy-AreBytes : (s : List ℕ) → AreBytes s → AreBytes (rwfs_name_copy s)
unfolding rwfs_name_copy
name_copy-AreBytes s h =
    let n = rwfs_strnlen s 31 in
    AreBytes-take_append n s (replicate (32 - n) 0) h (AreBytes-replicate (32 - n))

-- A string that ends within the field is the one that is compared.
streq_from-padded :
    (rounds m k : ℕ) (s : List ℕ)
    → rwfs_strnlen s (suc m) < suc m
    → streq_from rounds (take (rwfs_strnlen s m) s ++ replicate (suc k) 0) s ≡ true
unfolding streq_from rwfs_strnlen
streq_from-padded zero m k s h = refl
streq_from-padded (suc r) zero k [] h = refl
streq_from-padded (suc r) (suc m) k [] h = refl
streq_from-padded (suc r) zero k (c ∷ s) h = ground (arith)
streq_from-padded (suc r) (suc m) k (c ∷ s) h = ground (arith, streq_from-padded r m k s)

valid_short : (s : List ℕ) → rwfs_name_valid s ≡ true → rwfs_strnlen s 32 < 32
unfolding rwfs_name_valid
valid_short s h = ground arith

-- A name that is valid is found under the field that it was copied to.
pub streq_name-name_copy :
    (s : List ℕ) → rwfs_name_valid s ≡ true → rwfs_streq_name (rwfs_name_copy s) s ≡ true
unfolding rwfs_name_valid rwfs_streq_name rwfs_name_copy
streq_name-name_copy s h =
    let n = rwfs_strnlen s 31 in
    let k : 32 - n ≡ suc (31 - n) = omega (arith, rwfs_strnlen_le s 31) in
    rw k (streq_from-padded 32 31 (31 - n) s (valid_short s h))
