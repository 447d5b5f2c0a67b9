-- ===== src/Restore/Treated/Marks.antt =====
-- The bitmap of the loader holds the ids that it has seen.
use rewind_os.Base.{
  ℕ, ◌/◌, ◌%◌, ◌^◌, ◌<◌, ◌≡◌, refl, ap, ◌∙◌, Bool, false, some, List, ◌∷◌, ◌==◌, ◌||◌, arith,
  update_self, update_ne,
}
use Prim.Native.Nat.{bit_and}
use native.Mathlib.Decide.{ℕ_discrete}
use rewind_os.Base.Bits.{test_bit, test_bit-or, test_bit-pow, test_bit-zero, bit_and-pow_eq_zero}
use rewind_os.Sched.Bitmap.{bit_and_31}
use rewind_os.Restore.Registry.{Descriptor, Registry}
use rewind_os.Restore.Loader.{bitmap_test_and_set}
use rewind_os.Restore.Treated.{is_in}

-- The bitmap says of each id with a descriptor whether it has been seen.
abbrev pub marked : (ℕ → ℕ) → ℕ → Bool
marked bits id = (bitmap_test_and_set bits id).0

abbrev pub Marks : Registry → (ℕ → ℕ) → List ℕ → Type 0
Marks g bits seen =
    (id : ℕ) (d : Descriptor) → id < 256 → g id ≡ some d → marked bits id ≡ is_in id seen

marked_eq :
    (bits : ℕ → ℕ) (id : ℕ) → id < 256 → marked bits id ≡ test_bit (bits (id / 32)) (id % 32)
unfolding bitmap_test_and_set
marked_eq bits id lt =
    let word : id / 2 ^ 5 % 2 ^ 8 ≡ id / 32 = omega arith in
    rw (word, bit_and_31 id) (ground (arith, bit_and-pow_eq_zero (id % 32) (bits (id / 32))))

marked-set :
    (bits : ℕ → ℕ) (a b : ℕ)
    → a < 256
    → b < 256
    → marked (bitmap_test_and_set bits a).1 b ≡ (a == b) || marked bits b
unfolding bitmap_test_and_set
marked-set bits a b ha hb =
    let word : a / 32 % 256 ≡ a / 32 = omega arith in
    let bit = 2 ^ bit_and a 31 in
    rw (marked_eq (bitmap_test_and_set bits a).1 b hb, marked_eq bits b hb, word)
      (elim (ℕ_discrete (a / 32) (b / 32)) [
        | yes e ↦
            let same : (a % 32 == b % 32) ≡ (a == b) = ground arith in
            let or_bit = test_bit-or (b % 32) (bits (b / 32)) (2 ^ (a % 32)) in
            rw
              (
                e,
                update_self bits (b / 32),
                bit_and_31 a,
                or_bit,
                test_bit-pow (a % 32) (b % 32),
                same,
              )
              (ground arith)
        | no ne ↦
            let apart : (a == b) ≡ false = ground arith in
            rw (update_ne bits (a / 32) (b / 32) _ ne, apart) refl
      ])

pub set_seen :
    (bits : ℕ → ℕ) (a b : ℕ) (seen : List ℕ)
    → a < 256
    → b < 256
    → marked bits b ≡ is_in b seen
    → marked (bitmap_test_and_set bits a).1 b ≡ is_in b (a ∷ seen)
set_seen bits a b seen ha hb e = marked-set bits a b ha hb ∙ ap (λ x. (a == b) || x) e

pub none_marked : (id : ℕ) → id < 256 → marked (λ i. 0) id ≡ false
none_marked id lt = marked_eq (λ i. 0) id lt ∙ test_bit-zero (id % 32)
