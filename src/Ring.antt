-- ===== src/Ring.antt =====
-- What the program's circular buffers share (event queues, log ring, UART rings): the elements
-- that lie between the read index and the write index of an array whose indices wrap at `size`.
use rewind_os.Base.{
  ℕ, zero, suc, ◌+◌, ◌-◌, ◌%◌, ◌≤◌, ◌<◌, ◌≡◌, ◌≢◌, refl, sym, ap, ap₂, ◌∙◌, List, [], ◌∷◌, ◌++◌,
  arith, length, get_or, set, take, drop, get_or-set_self, get_or-set_ne, ◌⊎◌, inl, inr,
}
use native.Mathlib.Nat.{mod-add-mod, mod-eq_of_lt, mod-eq-sub-mod, add-zero}
use native.Mathlib.Decide.{dec_lt}

mod_self_zero : (n : ℕ) → n % n ≡ 0
mod_self_zero zero = refl
mod_self_zero (suc n) = omega (arith, mod-eq-sub-mod {n = suc n} {m = suc n} (omega arith))

-- An index one past another wraps to 0 at the end of the array.
pub next_cases :
    (i size : ℕ)
    → i < size
    → ((i + 1) % size ≡ i + 1) × (i + 1 < size) ⊎ ((i + 1) % size ≡ 0) × (i + 1 ≡ size)
next_cases i size h = elim (dec_lt (i + 1) size) [
  | yes p ↦ inl (mod-eq_of_lt p, p)
  | no p ↦ let e : i + 1 ≡ size = omega arith in inr (rw e (mod_self_zero size), e)
]

-- Moving the start by one and the distance down by one reaches the same index.
pub shift_index : (size t n : ℕ) → (t + suc n) % size ≡ ((t + 1) % size + n) % size
shift_index size t n = rw mod-add-mod (ap (λ k. k % size) (omega arith))

-- The write index moves on with the count, and the read index against it.
pub advance_head : (size t n h : ℕ) → h ≡ (t + n) % size → (h + 1) % size ≡ (t + (n + 1)) % size
advance_head size t n h e = rw e (rw mod-add-mod (ap (λ k. k % size) (omega arith)))

pub advance_tail :
    (size t n h : ℕ) → 0 < n → h ≡ (t + n) % size → h ≡ ((t + 1) % size + (n - 1)) % size
advance_tail size t zero h p e = absurd (omega arith)
advance_tail size t (suc n) h p e =
    let f : suc n - 1 ≡ n = omega arith in rw f (e ∙ shift_index size t n)

pub moved_head : (size t n m : ℕ) → n ≤ m → (t + m) % size ≡ ((t + n) % size + (m - n)) % size
moved_head size t n m h = rw mod-add-mod (ap (λ k. k % size) (omega arith))

-- Fewer than `size` steps round the array do not come back.
pub around_ne : (size t k : ℕ) → t < size → suc k < size → (t + suc k) % size ≢ t
around_ne size t k ht hk = elim (dec_lt (t + suc k) size) [
  | yes p ↦ omega (arith, mod-eq_of_lt p)
  | no p ↦ omega (
    arith,
    mod-eq-sub-mod {n = t + suc k} {m = size} (omega arith),
    mod-eq_of_lt {n = t + suc k - size} {m = size} (omega arith),
  )
]

module _ {ℓ} {A : Type ℓ} (d : A) where
  -- The `n` elements from index `t` on, the oldest first.
  abbrev pub window : List A → ℕ → ℕ → ℕ → List A
  window b size t zero = []
  window b size t (suc n) = get_or b t d ∷ window b size ((t + 1) % size) n

  pub length-window : (b : List A) (size t n : ℕ) → length (window b size t n) ≡ n
  length-window b size t zero = refl
  length-window b size t (suc n) = ap suc (length-window b size ((t + 1) % size) n)

  -- The code tests the count against 0 where `window` matches on it.
  pub window_of_pos :
      (b : List A) (size t n : ℕ)
      → 0 < n
      → window b size t n ≡ get_or b t d ∷ window b size ((t + 1) % size) (n - 1)
  window_of_pos b size t zero h = absurd (omega arith)
  window_of_pos b size t (suc n) h = ap (λ k. window b size t (suc k)) (omega arith)

  -- A write just past the window adds the element at its end.
  pub window-set :
      (b : List A) (size : ℕ) (x : A) (n t i : ℕ)
      → size ≤ length b
      → t < size
      → n < size
      → i ≡ (t + n) % size
      → window (set b i x) size t (suc n) ≡ window b size t n ++ (x ∷ [])
  window-set b size x zero t i hb ht hn e =
      rw (e, add-zero, mod-eq_of_lt ht, get_or-set_self b t x d (omega arith))
  window-set b size x (suc n) t i hb ht hn e =
      ap₂ ◌∷◌ (get_or-set_ne b x d (rw e (around_ne size t n ht hn))) (
        window-set b size x n ((t + 1) % size) i hb (omega arith) (omega arith)
          (e ∙ shift_index size t n))

  pub take-window :
      (b : List A) (size t n m : ℕ) → n ≤ m → take n (window b size t m) ≡ window b size t n
  take-window b size t zero m h = refl
  take-window b size t (suc n) zero h = absurd (omega arith)
  take-window b size t (suc n) (suc m) h =
      ap (λ l. get_or b t d ∷ l) (take-window b size ((t + 1) % size) n m (omega arith))

  pub drop-window :
      (b : List A) (size t n m : ℕ)
      → t < size
      → n ≤ m
      → drop n (window b size t m) ≡ window b size ((t + n) % size) (m - n)
  drop-window b size t zero m ht h =
      let e : m ≡ m - 0 = omega arith in
      let f : t ≡ (t + 0) % size = rw (add-zero, mod-eq_of_lt ht) in ap₂ (window b size) f e
  drop-window b size t (suc n) zero ht h = absurd (omega arith)
  drop-window b size t (suc n) (suc m) ht h =
      let e : m - n ≡ suc m - suc n = omega arith in
      drop-window b size ((t + 1) % size) n m (omega arith) (omega arith)
      ∙ ap₂ (window b size) (sym (shift_index size t n)) e
