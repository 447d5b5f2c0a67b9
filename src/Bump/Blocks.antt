-- ===== src/Bump/Blocks.antt =====
-- The blocks that `bump_alloc` hands out lie in the memory, do not overlap and are aligned.
use Prim.Native.Nat.{bit_and}
use rewind_os.Base.{
  ℕ, zero, suc, ◌+◌, ◌-◌, ◌*◌, ◌/◌, ◌%◌, ◌^◌, ◌≤◌, ◌<◌, ◌≡◌, refl, Option, none, some, List, [],
  ◌∷◌, ltb, arith, true, false,
}
use rewind_os.Base.Bits.{bit_and_step, bit_and-zero, two_pow_pos}
use native.Mathlib.Nat.{pow-suc}
use native.Mathlib.Decide.{dec_lt}
use rewind_os.Bump.{Heap, align_up, bump_alloc, bump_init}

-- A mask of `k` ones changes no number of `k` bits.
bit_and-ones : (k a : ℕ) → a < 2 ^ k → bit_and a (2 ^ k - 1) ≡ a
bit_and-ones zero a lt = let z : a ≡ 0 = omega arith in rw z (bit_and-zero 0)
bit_and-ones (suc k) a lt =
    let double = pow-suc 2 k in
    let pos = two_pow_pos k in
    let half : (2 ^ suc k - 1) / 2 ≡ 2 ^ k - 1 = omega arith in
    let inner = bit_and-ones k (a / 2) (omega arith) in
    let step = bit_and_step a (2 ^ suc k - 1) in omega (arith, rw half at step)

-- Rounding up to a multiple of 8, where it does not leave the word.
align_up_8 : (n : ℕ) → n + 7 < 2 ^ 32 → align_up n 8 ≡ (n + 7) / 8 * 8
unfolding align_up
align_up_8 n lt =
    let x = (n + 7) % 2 ^ 32 in
    omega (
      arith,
      bit_and_step x (2 ^ 32 - 8),
      bit_and_step (x / 2) (2 ^ 31 - 4),
      bit_and_step (x / 2 / 2) (2 ^ 30 - 2),
      bit_and-ones 29 (x / 2 / 2 / 2) (omega arith),
    )

-- What the linker script and `bump_init` give, and each allocation keeps.
pub record IsValid (h : Heap) : Type 0 where
  pub above : h.start ≤ h.brk
  pub below : h.brk ≤ h.limit
  pub word : h.limit < 2 ^ 32
  pub aligned : h.brk % 8 ≡ 0

-- A request that does not run over the end of the address space.
abbrev pub IsSmall : ℕ → ℕ → Type 0
IsSmall limit n = limit + n + 7 < 2 ^ 32

-- On a valid heap, a request of `n` bytes that does not run over the end of the address space is
-- served exactly if `n` rounded up to a multiple of 8 fits below the limit. It then gets the memory
-- from the break on, which moves behind it; otherwise nothing changes. The heap stays valid.
pub bump_alloc_lem :
    (n : ℕ) {h : Heap}
    → IsValid h
    → IsSmall h.limit n
    → let size = (n + 7) / 8 * 8 in
      (h.limit < h.brk + size → bump_alloc n h ≡ (none, h))
      × (h.brk + size ≤ h.limit → bump_alloc n h ≡ (some h.brk, record h { brk = h.brk + size }))
      × IsValid (bump_alloc n h).1
unfolding bump_alloc
bump_alloc_lem n {h} v small =
    let size = (n + 7) / 8 * 8 in
    let a = align_up_8 n (omega arith) in
    let top : (h.brk + size) % 2 ^ 32 ≡ h.brk + size = omega (arith, v) in
    elim (dec_lt h.limit (h.brk + size)) [
      | yes full ↦
          let t : ltb h.limit (h.brk + size) ≡ true = ground arith in
          rw (a, top, t) ((λ e. refl), (λ le. absurd (omega arith)), v)
      | no room ↦
          let t : ltb h.limit (h.brk + size) ≡ false = ground arith in
          rw (a, top, t)
            (
              (λ lt. absurd (omega arith)),
              (λ le. refl),
              record {
                above = omega (arith, v);
                below = omega arith;
                word = v.word;
                aligned = omega (arith, v);
              },
            )
    ]

-- The address and the requested size of each block that a sequence of requests gets.
unfoldable pub add_block : ℕ → Option ℕ → List (ℕ × ℕ) → List (ℕ × ℕ)
add_block n none blocks = blocks
add_block n (some p) blocks = (p, n) ∷ blocks

unfoldable pub alloc_all : List ℕ → Heap → List (ℕ × ℕ)
unfolding add_block
alloc_all [] h = []
alloc_all (n ∷ ns) h = let (out, h') = bump_alloc n h in add_block n out (alloc_all ns h')

-- Aligned blocks in order, each behind the one before, between two addresses.
abbrev pub LieBetween : ℕ → ℕ → List (ℕ × ℕ) → Type 0
LieBetween low high [] = low ≤ high
LieBetween low high ((p, n) ∷ blocks) = (low ≤ p) × (p % 8 ≡ 0) × LieBetween (p + n) high blocks

abbrev pub AreSmall : ℕ → List ℕ → Type 0
AreSmall limit [] = Unit {0}
AreSmall limit (n ∷ ns) = IsSmall limit n × AreSmall limit ns

-- A lower bound may be lowered.
lower :
    (low low' high : ℕ) (blocks : List (ℕ × ℕ))
    → low' ≤ low
    → LieBetween low high blocks
    → LieBetween low' high blocks
lower low low' high [] le b = omega (arith, b)
lower low low' high ((p, n) ∷ blocks) le (a, at, rest) = (omega (arith, a), at, rest)

blocks_from :
    (ns : List ℕ) {h : Heap}
    → IsValid h
    → AreSmall h.limit ns
    → LieBetween h.brk h.limit (alloc_all ns h)
unfolding alloc_all
blocks_from [] v small = v.below
blocks_from (n ∷ ns) {h} v (small, others) =
    let size = (n + 7) / 8 * 8 in
    let (full, fits, v') = bump_alloc_lem n v small in
    elim (dec_lt h.limit (h.brk + size)) [
      | yes lt ↦ rw (full lt) (blocks_from ns v others)
      | no room ↦
          let e = fits (omega arith) in
          let v'' : IsValid (record h { brk = h.brk + size }) = rw e at v' in
          rw e (
            omega arith,
            v.aligned,
            lower (h.brk + size) (h.brk + n) h.limit
                (alloc_all ns (record h { brk = h.brk + size })) (omega arith)
                (blocks_from ns v'' others),
          )
    ]

-- After `bump_init`, whatever requests come that do not run over the end of the address space, the
-- blocks handed out begin at multiples of 8, lie one behind the other with no overlap, and keep
-- between the start and the limit of the memory. The start is a multiple of 8.
pub bump_blocks_apart :
    (ns : List ℕ) (h : Heap)
    → h.start % 8 ≡ 0
    → h.start ≤ h.limit
    → h.limit < 2 ^ 32
    → AreSmall h.limit ns
    → LieBetween h.start h.limit (alloc_all ns (bump_init h))
unfolding bump_init
bump_blocks_apart ns h aligned le word small =
    blocks_from ns (record { above = omega arith; below = le; word = word; aligned = aligned })
      small
