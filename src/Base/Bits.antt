-- ===== src/Base/Bits.antt =====
-- Bits of a word: the code's `&`, `|`, `~` and `1u << i`, told bit by bit.
use Prim.Native.Nat.{
  ℕ, zero, suc, ◌+◌, ◌-◌, ◌*◌, ◌/◌, ◌%◌, ◌^◌, ◌≤◌, ◌<◌, min, max, bit_and, bit_or, digits, bitwise,
  bit_and-bitwise, bit_or-bitwise, bit_xor, bit_xor-bitwise, differ,
}
use mathlib.Core.Path.{◌≡◌, refl, ◌∙◌}
use mathlib.Core.Bool.{Bool, true, false, ◌&&◌, ◌||◌}
use native.Mathlib.Omega.{arith}
use native.Mathlib.Nat.{pow-suc, one-le-pow, zero-add, suc-add}
use rewind_os.Base.Tests.{◌==◌, if◌then◌else◌}

-- `digits` has a count of the rounds to go; from the first number on, a round more changes nothing.
module _ (z : ℕ → ℕ) (f : ℕ → ℕ → ℕ) where
  one_more : (x y rounds : ℕ) → x ≤ rounds → digits z f (suc rounds) x y ≡ digits z f rounds x y
  one_more zero y zero le = refl
  one_more zero y (suc rounds) le = refl
  one_more (suc x) y zero le = absurd (omega arith)
  one_more (suc x) y (suc rounds) le =
      let lower = one_more (suc x / 2) (y / 2) rounds (omega arith) in omega (arith, lower)

  any_more :
      (extra x y rounds : ℕ) → x ≤ rounds → digits z f (extra + rounds) x y ≡ digits z f rounds x y
  any_more zero x y rounds le = rw (zero-add rounds)
  any_more (suc extra) x y rounds le =
      rw (suc-add extra rounds)
        (one_more x y (extra + rounds) (omega arith) ∙ any_more extra x y rounds le)

  lowest :
      (x y : ℕ)
      → bitwise z f (suc x) y ≡ bitwise z f (suc x / 2) (y / 2) * 2 + f (suc x % 2) (y % 2)
  lowest x y =
      let h = suc x / 2 in
      let all : x - h + h ≡ x = omega arith in
      let fewer = any_more (x - h) h (y / 2) h (omega arith) in omega (arith, rw all at fewer)

-- The lowest bit and the others.
pub bit_and_step : (x y : ℕ) → bit_and x y ≡ bit_and (x / 2) (y / 2) * 2 + min (x % 2) (y % 2)
bit_and_step zero y = omega (arith, bit_and-bitwise 0 y, bit_and-bitwise 0 (y / 2))
bit_and_step (suc x) y =
    let whole = bit_and-bitwise (suc x) y in
    let half = bit_and-bitwise (suc x / 2) (y / 2) in
    omega (arith, whole, half, lowest (λ k. 0) min x y)

pub bit_or_step : (x y : ℕ) → bit_or x y ≡ bit_or (x / 2) (y / 2) * 2 + max (x % 2) (y % 2)
bit_or_step zero y = omega (arith, bit_or-bitwise 0 y, bit_or-bitwise 0 (y / 2))
bit_or_step (suc x) y =
    let whole = bit_or-bitwise (suc x) y in
    let half = bit_or-bitwise (suc x / 2) (y / 2) in
    omega (arith, whole, half, lowest (λ k. k) max x y)

-- Bit `k` of a word, the lowest being bit 0.
unfoldable pub test_bit : ℕ → ℕ → Bool
test_bit a zero = a % 2 == 1
test_bit a (suc k) = test_bit (a / 2) k

pub test_bit-or : (k a b : ℕ) → test_bit (bit_or a b) k ≡ (test_bit a k || test_bit b k)
unfolding test_bit
test_bit-or zero a b = ground (arith, bit_or_step a b)
test_bit-or (suc k) a b =
    let e : bit_or a b / 2 ≡ bit_or (a / 2) (b / 2) = omega (arith, bit_or_step a b) in
    rw e (test_bit-or k (a / 2) (b / 2))

pub test_bit-and : (k a b : ℕ) → test_bit (bit_and a b) k ≡ (test_bit a k && test_bit b k)
unfolding test_bit
test_bit-and zero a b = ground (arith, bit_and_step a b)
test_bit-and (suc k) a b =
    let e : bit_and a b / 2 ≡ bit_and (a / 2) (b / 2) = omega (arith, bit_and_step a b) in
    rw e (test_bit-and k (a / 2) (b / 2))

pub test_bit-zero : (k : ℕ) → test_bit 0 k ≡ false
unfolding test_bit
test_bit-zero zero = refl
test_bit-zero (suc k) = test_bit-zero k

pow_half : (i : ℕ) → 2 ^ suc i / 2 ≡ 2 ^ i
pow_half i = omega (arith, pow-suc 2 i)

pub test_bit-pow : (i j : ℕ) → test_bit (2 ^ i) j ≡ (i == j)
unfolding test_bit
test_bit-pow zero zero = refl
test_bit-pow zero (suc j) = ground (arith, test_bit-zero j)
test_bit-pow (suc i) zero = ground (arith, pow-suc 2 i)
test_bit-pow (suc i) (suc j) = rw (pow_half i) (ground (arith, test_bit-pow i j))

bit_and-zero_below : (bound x : ℕ) → x ≤ bound → bit_and x 0 ≡ 0
bit_and-zero_below bound zero le = omega (arith, bit_and-bitwise 0 0)
bit_and-zero_below zero (suc x) le = absurd (omega arith)
bit_and-zero_below (suc bound) (suc x) le =
    let half = bit_and-zero_below bound (suc x / 2) (omega arith) in
    omega (arith, bit_and_step (suc x) 0, half)

pub bit_and-zero : (x : ℕ) → bit_and x 0 ≡ 0
bit_and-zero x = bit_and-zero_below x x (omega arith)

bit_or-zero_below : (bound x : ℕ) → x ≤ bound → bit_or x 0 ≡ x
bit_or-zero_below bound zero le = omega (arith, bit_or-bitwise 0 0)
bit_or-zero_below zero (suc x) le = absurd (omega arith)
bit_or-zero_below (suc bound) (suc x) le =
    let half = bit_or-zero_below bound (suc x / 2) (omega arith) in
    omega (arith, bit_or_step (suc x) 0, half)

pub bit_or-zero : (x : ℕ) → bit_or x 0 ≡ x
bit_or-zero x = bit_or-zero_below x x (omega arith)

pub two_pow_pos : (n : ℕ) → 0 < 2 ^ n
two_pow_pos n = one-le-pow n 2 (omega arith)

-- `(a & (1u << i)) == 0` is a test of bit `i`.
pub bit_and-pow_eq_zero :
    (i a : ℕ) → (bit_and a (2 ^ i) == 0) ≡ (if test_bit a i then false else true)
unfolding test_bit
bit_and-pow_eq_zero zero a = ground (arith, bit_and_step a 1, bit_and-zero (a / 2))
bit_and-pow_eq_zero (suc i) a =
    let e : bit_and a (2 ^ suc i) ≡ bit_and (a / 2) (2 ^ i) * 2 =
      omega (arith, rw (pow_half i) at (bit_and_step a (2 ^ suc i)), pow-suc 2 i) in
    rw e (ground (arith, bit_and-pow_eq_zero i (a / 2)))

pub two_pow_lt : (i n : ℕ) → i < n → 2 ^ i < 2 ^ n
two_pow_lt zero zero h = absurd (omega arith)
two_pow_lt zero (suc n) h = omega (arith, pow-suc 2 n, two_pow_pos n)
two_pow_lt (suc i) zero h = absurd (omega arith)
two_pow_lt (suc i) (suc n) h = omega (arith, pow-suc 2 n, pow-suc 2 i, two_pow_lt i n (omega arith))

test_bit-ones : (n j : ℕ) → j < n → test_bit (2 ^ n - 1) j ≡ true
unfolding test_bit
test_bit-ones zero j h = absurd (omega arith)
test_bit-ones (suc n) zero h = ground (arith, pow-suc 2 n, two_pow_pos n)
test_bit-ones (suc n) (suc j) h =
    let e : (2 ^ suc n - 1) / 2 ≡ 2 ^ n - 1 = omega (arith, pow-suc 2 n) in
    rw e (test_bit-ones n j (omega arith))

-- `~(1u << i)` on words of `n` bits has every bit but `i`.
pub test_bit-not_pow :
    (n i j : ℕ) → i < n → j < n → test_bit (2 ^ n - 1 - 2 ^ i) j ≡ (if i == j then false else true)
unfolding test_bit
test_bit-not_pow zero i j h k = absurd (omega arith)
test_bit-not_pow (suc n) zero zero h k = ground (arith, pow-suc 2 n, two_pow_pos n)
test_bit-not_pow (suc n) zero (suc j) h k =
    let e : (2 ^ suc n - 1 - 1) / 2 ≡ 2 ^ n - 1 = omega (arith, pow-suc 2 n) in
    rw e (ground (arith, test_bit-ones n j))
test_bit-not_pow (suc n) (suc i) zero h k = ground (arith, pow-suc 2 n, pow-suc 2 i, two_pow_lt i n)
test_bit-not_pow (suc n) (suc i) (suc j) h k =
    let e : (2 ^ suc n - 1 - 2 ^ suc i) / 2 ≡ 2 ^ n - 1 - 2 ^ i =
      omega (arith, pow-suc 2 n, pow-suc 2 i) in
    rw e (ground (arith, test_bit-not_pow n i j))

pub bit_xor_step : (x y : ℕ) → bit_xor x y ≡ bit_xor (x / 2) (y / 2) * 2 + differ (x % 2) (y % 2)
bit_xor_step zero y = omega (arith, bit_xor-bitwise 0 y, bit_xor-bitwise 0 (y / 2))
bit_xor_step (suc x) y =
    let whole = bit_xor-bitwise (suc x) y in
    let half = bit_xor-bitwise (suc x / 2) (y / 2) in
    omega (arith, whole, half, lowest (λ k. k) differ x y)

differ_lt : (x y : ℕ) → x < 2 → y < 2 → differ x y < 2
differ_lt zero y h k = k
differ_lt (suc x) zero h k = h
differ_lt (suc x) (suc y) h k = differ_lt x y (omega arith) (omega arith)

-- The exclusive or of two words of `n` bits is one.
pub bit_xor_lt : (n x y : ℕ) → x < 2 ^ n → y < 2 ^ n → bit_xor x y < 2 ^ n
bit_xor_lt zero zero zero h k = omega (arith, bit_xor-bitwise 0 0)
bit_xor_lt zero zero (suc y) h k = absurd (omega arith)
bit_xor_lt zero (suc x) y h k = absurd (omega arith)
bit_xor_lt (suc n) x y h k =
    let halves =
      bit_xor_lt n (x / 2) (y / 2) (omega (arith, pow-suc 2 n)) (omega (arith, pow-suc 2 n)) in
    let low = differ_lt (x % 2) (y % 2) (omega arith) (omega arith) in
    omega (arith, bit_xor_step x y, pow-suc 2 n, halves, low)
