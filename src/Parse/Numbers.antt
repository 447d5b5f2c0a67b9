-- ===== src/Parse/Numbers.antt =====
-- The numbers that the log prints are read back by `parse_u32`.
use Prim.Native.Nat.{bit_or, bit_and}
use rewind_os.Base.{
  ℕ, zero, suc, ◌+◌, ◌-◌, ◌*◌, ◌/◌, ◌%◌, ◌^◌, ◌<◌, ◌≡◌, refl, sym, ap, ◌∙◌, Bool, true, false, some,
  List, [], ◌∷◌, ltb, ◌==◌, ◌&&◌, ◌||◌, arith,
}
use native.Mathlib.Decide.{ℕ_discrete}
use native.Mathlib.Nat.{pow-suc, div-le_self, div-div-eq-div-mul}
use rewind_os.Base.Bits.{bit_and_step, bit_or_step, bit_and-zero, bit_or-zero}
use rewind_os.Log.{low_digits, turn_onto, decimal, hex32_from, hex_digit}
use rewind_os.Parse.{is_space, hexval, hex_loop, dec_loop, finish, parse_digits, parse_u32}

digit_not_space : (d : ℕ) → d < 10 → is_space (b'0' + d) ≡ false
unfolding is_space
digit_not_space d lt = ground arith

-- One round of the decimal loop at a digit.
dec_step :
    (d : ℕ) (s : List ℕ) (v : ℕ) (any : Bool)
    → d < 10
    → dec_loop ((b'0' + d) ∷ s) v any ≡ dec_loop s ((v * 10 % 2 ^ 32 + d) % 2 ^ 32) true
unfolding dec_loop
dec_step d s v any lt =
    let e2 : (ltb (b'0' + d) b'0' || ltb b'9' (b'0' + d)) ≡ false = ground arith in
    let e3 : b'0' + d - b'0' ≡ d = omega arith in rw (digit_not_space d lt, e2, e3, dec_loop)

no_digits : (n : ℕ) → low_digits n 0 ≡ []
unfolding low_digits
no_digits zero = refl
no_digits (suc n) = refl

turned_digits :
    (n v : ℕ) (s : List ℕ)
    → v < 10 ^ n
    → v < 2 ^ 32
    → dec_loop (turn_onto (low_digits n v) s) 0 false ≡ dec_loop s v (ltb 0 v)
unfolding low_digits turn_onto
turned_digits n zero s lt lt32 = rw (no_digits n)
turned_digits zero (suc v) s lt lt32 = absurd (omega arith)
turned_digits (suc n) (suc v) s lt lt32 =
    let w = suc v in
    let small : w / 10 < 10 ^ n = omega (arith, pow-suc 10 n) in
    let whole : (w / 10 * 10 % 2 ^ 32 + w % 10) % 2 ^ 32 ≡ w = omega arith in
    let t : ltb 0 w ≡ true = ground arith in
    rw t (
      turned_digits n (w / 10) ((b'0' + w % 10) ∷ s) small (omega arith)
      ∙ dec_step (w % 10) s (w / 10) (ltb 0 (w / 10)) (omega arith)
      ∙ ap (λ k. dec_loop s k true) whole)

hexval-hex_digit : (d : ℕ) → d < 16 → hexval (hex_digit d) ≡ some d
unfolding hexval hex_digit
hexval-hex_digit d lt = ground arith

hex_digit_not_space : (d : ℕ) → d < 16 → is_space (hex_digit d) ≡ false
unfolding is_space hex_digit
hex_digit_not_space d lt = ground arith

-- The four low bits.
low_nibble : (q : ℕ) → bit_and q 15 ≡ q % 16
low_nibble q = omega (
  arith,
  bit_and_step q 15,
  bit_and_step (q / 2) 7,
  bit_and_step (q / 2 / 2) 3,
  bit_and_step (q / 2 / 2 / 2) 1,
  bit_and-zero (q / 2 / 2 / 2 / 2),
)

-- A nibble is put into the four bits that a shift has left free.
join_nibble : (q : ℕ) → q < 2 ^ 32 → bit_or (q / 16 * 2 ^ 4 % 2 ^ 32) (q % 16) ≡ q
join_nibble q lt =
    let a = q / 16 * 2 ^ 4 % 2 ^ 32 in
    let h = q % 16 in
    let z : h / 2 / 2 / 2 / 2 ≡ 0 = omega arith in
    let top : bit_or (a / 2 / 2 / 2 / 2) (h / 2 / 2 / 2 / 2) ≡ a / 2 / 2 / 2 / 2 =
      rw z (bit_or-zero (a / 2 / 2 / 2 / 2)) in
    omega (
      arith,
      top,
      bit_or_step a h,
      bit_or_step (a / 2) (h / 2),
      bit_or_step (a / 2 / 2) (h / 2 / 2),
      bit_or_step (a / 2 / 2 / 2) (h / 2 / 2 / 2),
    )

-- One round of the hexadecimal loop at a digit.
hex_step :
    (d : ℕ) (s : List ℕ) (v : ℕ) (any : Bool)
    → d < 16
    → hex_loop (hex_digit d ∷ s) v any ≡ hex_loop s (bit_or (v * 2 ^ 4 % 2 ^ 32) d) true
unfolding hex_loop
hex_step d s v any lt = rw (hex_digit_not_space d lt, hexval-hex_digit d lt, hex_loop)

next_shift : (n v : ℕ) → v / 2 ^ (suc n * 4) ≡ v / 2 ^ (n * 4) / 16
next_shift n v =
    let k = n * 4 in
    let e : suc n * 4 ≡ suc (suc (suc (suc k))) = omega arith in
    let p : 2 ^ suc (suc (suc (suc k))) ≡ 2 ^ k * 16 = omega (
      arith,
      pow-suc 2 k,
      pow-suc 2 (suc k),
      pow-suc 2 (suc (suc k)),
      pow-suc 2 (suc (suc (suc k))),
    ) in
    rw (e, p) (sym (div-div-eq-div-mul v (2 ^ k) 16))

-- Round `i` adds a digit to the number that those before have given.
hex_round :
    (n i v : ℕ) (any : Bool)
    → i + suc n ≡ 8
    → v < 2 ^ 32
    → hex_loop (hex32_from (suc n) i v) (v / 2 ^ (suc n * 4)) any
      ≡ hex_loop (hex32_from n (i + 1) v) (v / 2 ^ (n * 4)) true
unfolding hex32_from
hex_round n i v any e lt =
    let sh : (7 - i) * 4 ≡ n * 4 = omega arith in
    let q = v / 2 ^ (n * 4) in
    let small : q < 2 ^ 32 = omega (arith, div-le_self v (2 ^ (n * 4))) in
    let nibble : q % 16 < 16 = omega arith in
    rw (
      sh,
      next_shift n v,
      low_nibble q,
      hex_step (q % 16) (hex32_from n (i + 1) v) (q / 16) any nibble,
      join_nibble q small,
    )

hex_rounds :
    (n i v : ℕ)
    → i + n ≡ 8
    → v < 2 ^ 32
    → hex_loop (hex32_from n i v) (v / 2 ^ (n * 4)) true ≡ some (v, true)
unfolding hex32_from hex_loop
hex_rounds zero i v e lt = ap (λ k. some (k, true)) (omega arith)
hex_rounds (suc n) i v e lt = hex_round n i v true e lt ∙ hex_rounds n (i + 1) v (omega arith) lt

-- A number below `2 ^ 32`, printed with the eight characters of `log_put_hex32` behind "0x", is read
-- back by `parse_u32`.
pub parse_u32-hex32 :
    (v : ℕ) → v < 2 ^ 32 → parse_u32 (some (b'0' ∷ b'x' ∷ hex32_from 8 0 v)) ≡ some v
unfolding parse_u32 parse_digits
parse_u32-hex32 v lt =
    let start : v / 2 ^ (8 * 4) ≡ 0 = omega arith in
    ap finish (
      ap (λ k. hex_loop (hex32_from 8 0 v) k false) (sym start)
      ∙ hex_round 7 0 v false refl lt
      ∙ hex_rounds 7 1 v refl lt)

-- A text that the decimal loop accepts is not taken for a hexadecimal number.
prefix_not_decimal :
    (c x : ℕ) (s : List ℕ) (r : ℕ × Bool)
    → dec_loop (c ∷ x ∷ s) 0 false ≡ some r
    → (c == b'0' && (x == b'x' || x == b'X')) ≡ false
unfolding dec_loop is_space
prefix_not_decimal c x s r e = ground arith

parse_decimal :
    (s : List ℕ) (r : ℕ × Bool) → dec_loop s 0 false ≡ some r → parse_digits s ≡ finish (some r)
unfolding parse_digits dec_loop finish
parse_decimal [] r e = ap finish e
parse_decimal (c ∷ []) r e = ap finish e
parse_decimal (c ∷ x ∷ s) r e = rw (prefix_not_decimal c x s r e) (ap finish e)

-- A number below `2 ^ 32`, printed by `log_put_u32`, is read back by `parse_u32`.
pub parse_u32-decimal : (v : ℕ) → v < 2 ^ 32 → parse_u32 (some (decimal v)) ≡ some v
unfolding parse_u32 decimal
parse_u32-decimal v lt = elim (ℕ_discrete v 0) [
  | yes z ↦ rw z (parse_decimal (b'0' ∷ []) (0, true) (dec_step 0 [] 0 false (omega arith)))
  | no nz ↦
      let t : (v == 0) ≡ false = ground arith in
      let pos : ltb 0 v ≡ true = ground arith in
      rw t (
        parse_decimal (turn_onto (low_digits 10 v) []) (v, true)
          (turned_digits 10 v [] (omega arith) lt ∙ ap (λ b. some (v, b)) pos))
]
