-- ===== src/Uart/Rings.antt =====
-- A ring of the driver holds its bytes in order, one cell staying free.
use rewind_os.Base.{
  ℕ, suc, ◌+◌, ◌-◌, ◌%◌, ◌^◌, ◌≤◌, ◌<◌, ◌≡◌, ◌≢◌, refl, sym, ◌∙◌, true, false, List, [], ◌∷◌, ◌++◌,
  if◌then◌else◌, ltb, arith, length, get_or, set, length-set, ◌⊎◌, inl, inr,
}
use native.Mathlib.Decide.{dec_lt}
use native.Mathlib.Nat.{mod-eq_of_lt, mod-eq-sub-mod}
use rewind_os.Ring.{window, window-set, next_cases}

-- The number of bytes between the read index `t` and the write index `h`.
unfoldable pub used : ℕ → ℕ → ℕ → ℕ
used size h t = if ltb h t then h + size - t else h - t

-- The bytes that wait, the oldest first.
abbrev pub queue : List ℕ → ℕ → ℕ → ℕ → List ℕ
queue b size h t = window 0 b size t (used size h t)

-- A ring whose indices lie in its storage.
pub record IsRing (b : List ℕ) (size h t : ℕ) : Type 0 where
  pub storage : size ≤ length b
  pub word : size < 2 ^ 16
  pub head_in : h < size
  pub tail_in : t < size

abbrev pub next_index : ℕ → ℕ → ℕ
next_index size i = (i + 1) % size % 2 ^ 16

-- An index `j` one past the index `i`.
abbrev IsNext : ℕ → ℕ → ℕ → Type 0
IsNext size i j = (j ≡ i + 1) × (i + 1 < size) ⊎ (j ≡ 0) × (i + 1 ≡ size)

next_index-IsNext : (size i : ℕ) → size < 2 ^ 16 → i < size → IsNext size i (next_index size i)
next_index-IsNext size i small lt = elim (next_cases i size lt) [
  | inl (e, le) ↦ inl (omega arith, le)
  | inr (e, le) ↦ inr (omega arith, le)
]

next_eq : (size i : ℕ) → size < 2 ^ 16 → i < size → next_index size i ≡ (i + 1) % size
next_eq size i small lt = elim (next_cases i size lt) [
  | inl (e, le) ↦ omega arith
  | inr (e, le) ↦ omega arith
]

next_in : (size i j : ℕ) → i < size → IsNext size i j → j < size
next_in size i j lt n = ground arith

used_below : (size h t : ℕ) → h < size → t < size → used size h t < size
unfolding used
used_below size h t hl tl = ground arith

used_put :
    (size h t j : ℕ)
    → h < size
    → t < size
    → IsNext size h j
    → j ≢ t
    → used size j t ≡ suc (used size h t)
unfolding used
used_put size h t j hl tl n ne = ground arith

used_take :
    (size h t j : ℕ)
    → h < size
    → t < size
    → IsNext size t j
    → h ≢ t
    → used size h t ≡ suc (used size h j)
unfolding used
used_take size h t j hl tl n ne = ground arith

-- The write index stands where the bytes that wait end.
head_at : (size h t : ℕ) → h < size → t < size → h ≡ (t + used size h t) % size
unfolding used
head_at size h t hl tl = elim (dec_lt h t) [
  | yes lt ↦
      let c : ltb h t ≡ true = ground arith in
      let e : t + (h + size - t) ≡ h + size = omega arith in
      rw (c, e)
        let f : h + size - size ≡ h = omega arith in
          sym (mod-eq-sub-mod {n = h + size} {m = size} (omega arith) ∙ rw f (mod-eq_of_lt hl))
  | no ge ↦
      let c : ltb h t ≡ false = ground arith in
      let e : t + (h - t) ≡ h = omega arith in rw (c, e) (sym (mod-eq_of_lt hl))
]

pub put-queue :
    (c : ℕ) {b : List ℕ} {size h t : ℕ}
    → IsRing b size h t
    → next_index size h ≢ t
    → IsRing (set b h c) size (next_index size h) t
      × (queue (set b h c) size (next_index size h) t ≡ queue b size h t ++ (c ∷ []))
put-queue c {b} {size} {h} {t} v ne =
    let n = next_index-IsNext size h v.word v.head_in in
    let more : used size (next_index size h) t ≡ suc (used size h t) =
      used_put size h t (next_index size h) v.head_in v.tail_in n ne in
    let room : used size h t < size = used_below size h t v.head_in v.tail_in in
    (
      record {
        storage = rw length-set v.storage;
        word = v.word;
        head_in = next_in size h (next_index size h) v.head_in n;
        tail_in = v.tail_in;
      },
      rw more (
          window-set 0 b size c (used size h t) t h v.storage v.tail_in room
            (head_at size h t v.head_in v.tail_in)),
    )

pub take-queue :
    {b : List ℕ} {size h t : ℕ}
    → IsRing b size h t
    → h ≢ t
    → IsRing b size h (next_index size t)
      × (queue b size h t ≡ get_or b t 0 ∷ queue b size h (next_index size t))
take-queue {b} {size} {h} {t} v ne =
    let e = next_eq size t v.word v.tail_in in
    let n = next_index-IsNext size t v.word v.tail_in in
    let less : used size h t ≡ suc (used size h (next_index size t)) =
      used_take size h t (next_index size t) v.head_in v.tail_in n ne in
    (
      record {
        storage = v.storage;
        word = v.word;
        head_in = v.head_in;
        tail_in = next_in size t (next_index size t) v.tail_in n;
      },
      rw (less, e) refl,
    )

none_used : (size i : ℕ) → used size i i ≡ 0
unfolding used
none_used size i = ground arith

pub queue_empty : (b : List ℕ) (size i : ℕ) → queue b size i i ≡ []
queue_empty b size i = let e : used size i i ≡ 0 = none_used size i in rw e refl
