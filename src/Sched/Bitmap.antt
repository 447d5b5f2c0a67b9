-- ===== src/Sched/Bitmap.antt =====
-- The ready bitmap of `scheduler_t`: setting or clearing a bit leaves the other 31 alone.
use Prim.Native.Nat.{bit_and}
use native.Mathlib.Nat.{mod-eq_of_lt}
use rewind_os.Base.{ℕ, ◌-◌, ◌/◌, ◌%◌, ◌^◌, ◌<◌, ◌≡◌, true, false, if◌then◌else◌, ◌==◌, arith}
use rewind_os.Base.Bits.{
  test_bit, test_bit-or, test_bit-and, test_bit-pow, test_bit-not_pow, bit_and-pow_eq_zero,
  bit_and_step, bit_and-zero, two_pow_lt,
}
use rewind_os.Sched.{ao_bit, set_ready, clear_ready, is_clear}

-- Every shift that the code makes keeps within the word.
pub ao_bit_in : (id : ℕ) → id < 32 → ao_bit id ≡ 2 ^ id
ao_bit_in id h = mod-eq_of_lt (two_pow_lt id 32 h)

pub test_bit-set_ready :
    (m i j : ℕ) → i < 32 → test_bit (set_ready m i) j ≡ (if i == j then true else test_bit m j)
unfolding set_ready
test_bit-set_ready m i j h =
    rw (ao_bit_in i h) (ground (arith, test_bit-or j m (2 ^ i), test_bit-pow i j))

pub test_bit-clear_ready :
    (m i j : ℕ)
    → i < 32
    → j < 32
    → test_bit (clear_ready m i) j ≡ (if i == j then false else test_bit m j)
unfolding clear_ready
test_bit-clear_ready m i j h k =
    rw (ao_bit_in i h)
      (ground (arith, test_bit-and j m (2 ^ 32 - 1 - 2 ^ i), test_bit-not_pow 32 i j h k))

pub is_clear-test_bit : (m i : ℕ) → i < 32 → is_clear m i ≡ (if test_bit m i then false else true)
unfolding is_clear
is_clear-test_bit m i h = rw (ao_bit_in i h) (bit_and-pow_eq_zero i m)

-- `x & 31` is `x` modulo 32.
pub bit_and_31 : (x : ℕ) → bit_and x 31 ≡ x % 32
bit_and_31 x = omega (
  arith,
  bit_and_step x 31,
  bit_and_step (x / 2) 15,
  bit_and_step (x / 2 / 2) 7,
  bit_and_step (x / 2 / 2 / 2) 3,
  bit_and_step (x / 2 / 2 / 2 / 2) 1,
  bit_and-zero (x / 2 / 2 / 2 / 2 / 2),
)
