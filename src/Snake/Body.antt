-- ===== src/Snake/Body.antt =====
-- The cells of the snake: they are on the board and differ, and they stay so when the head moves on.
use rewind_os.Base.{
  ℕ, zero, suc, ◌+◌, ◌-◌, ◌%◌, ◌≤◌, ◌<◌, ◌≡◌, refl, sym, ap, ◌∙◌, Bool, true, false, ◌&&◌, ◌||◌,
  not, arith, update, update_self, update_ne,
}
use native.Mathlib.Decide.{ℕ_discrete}
use rewind_os.Snake.{
  Cell, Game, snake_tail_index, snake_body_cell_from_tail, same_cell, on_board, apart_from,
  cells_valid, occupied_from,
}
use rewind_os.Snake.Play.{with_head}

pub or_false : (a b : Bool) → (a || b) ≡ false → (a ≡ false) × (b ≡ false)
or_false true b e = cc
or_false false b e = (refl, e)

pub and_true : (a b : Bool) → (a && b) ≡ true → (a ≡ true) × (b ≡ true)
and_true true b e = (refl, e)
and_true false b e = cc

pub and_holds : (a b : Bool) → a ≡ true → b ≡ true → (a && b) ≡ true
and_holds a b p q = rw (p, q) refl

pub not-true : (b : Bool) → not b ≡ true → b ≡ false
not-true true e = cc
not-true false e = refl

-- The cells from the tail on, `n` of them.
pub record IsSnake (n : ℕ) (cell : ℕ → Cell) : Type 0 where
  pub inside : (i : ℕ) → i < n → on_board (cell i) ≡ true
  pub apart : (i j : ℕ) → i < j → j < n → same_cell (cell i) (cell j) ≡ false

-- The tail moves on and the head is at `c`.
moved-IsSnake :
    (n : ℕ) (cell new : ℕ → Cell) (c : Cell)
    → IsSnake n cell
    → on_board c ≡ true
    → ((k : ℕ) → k + 1 < n → new k ≡ cell (k + 1))
    → ((k : ℕ) → k + 1 ≡ n → new k ≡ c)
    → ((k : ℕ) → 1 ≤ k → k < n → same_cell (cell k) c ≡ false)
    → IsSnake n new
moved-IsSnake n cell new c h b shift top free = record {
  inside = λ i lt. elim (ℕ_discrete (i + 1) n) [
    | yes p ↦ rw (top i p) b
    | no np ↦ rw (shift i (omega arith)) (h.inside (i + 1) (omega arith))
  ];
  apart = λ i j lt below. elim (ℕ_discrete (j + 1) n) [
    | yes p ↦ rw (top j p, shift i (omega arith)) (free (i + 1) (omega arith) (omega arith))
    | no np ↦
        rw (shift i (omega arith), shift j (omega arith))
          (h.apart (i + 1) (j + 1) (omega arith) (omega arith))
  ];
}

-- The snake is one cell longer.
grown-IsSnake :
    (n : ℕ) (cell new : ℕ → Cell) (c : Cell)
    → IsSnake n cell
    → on_board c ≡ true
    → ((k : ℕ) → k < n → new k ≡ cell k)
    → new n ≡ c
    → ((k : ℕ) → k < n → same_cell (cell k) c ≡ false)
    → IsSnake (n + 1) new
grown-IsSnake n cell new c h b same top free = record {
  inside = λ i lt. elim (ℕ_discrete i n) [
    | yes p ↦ rw (p, top) b
    | no np ↦ rw (same i (omega arith)) (h.inside i (omega arith))
  ];
  apart = λ i j lt below. elim (ℕ_discrete j n) [
    | yes p ↦ rw (p, top, same i (omega arith)) (free i (omega arith))
    | no np ↦ rw (same i (omega arith), same j (omega arith)) (h.apart i j lt (omega arith))
  ];
}

-- The index of a cell, counted from the head.
pub cell_at :
    (g : Game) (k : ℕ)
    → g.length ≤ 240
    → g.head_idx < 240
    → snake_body_cell_from_tail g k ≡ g.body ((g.head_idx + 241 - g.length + k) % 240)
unfolding snake_body_cell_from_tail snake_tail_index
cell_at g k le idx = ap g.body (omega arith)

abbrev pub cells : Game → ℕ → Cell
cells g = snake_body_cell_from_tail g

-- A step without food, or at full length.
pub with_head-IsSnake :
    (c : Cell) (g : Game)
    → g.length ≤ 240
    → g.head_idx < 240
    → 0 < g.length
    → IsSnake g.length (cells g)
    → on_board c ≡ true
    → ((k : ℕ) → 1 ≤ k → k < g.length → same_cell (cells g k) c ≡ false)
    → IsSnake g.length (cells (with_head c g))
unfolding with_head
with_head-IsSnake c g le idx pos h b free =
    let n = g.length in
    let top = (g.head_idx + 1) % 240 in
    moved-IsSnake n (cells g) (cells (with_head c g)) c h b
      (λ k lt.
        cell_at (with_head c g) k le (omega arith)
        ∙ update_ne g.body top ((top + 241 - n + k) % 240) c (omega arith)
        ∙ ap g.body (omega arith)
        ∙ sym (cell_at g (k + 1) le idx))
      (λ k e.
        cell_at (with_head c g) k le (omega arith)
        ∙ ap (update g.body top c) (omega arith)
        ∙ update_self g.body top c)
      free

-- A step with food.
pub grown-with_head-IsSnake :
    (c : Cell) (g : Game)
    → g.length < 240
    → g.head_idx < 240
    → IsSnake g.length (cells g)
    → on_board c ≡ true
    → ((k : ℕ) → k < g.length → same_cell (cells g k) c ≡ false)
    → IsSnake (g.length + 1) (cells (record (with_head c g) { length = g.length + 1 }))
unfolding with_head
grown-with_head-IsSnake c g lt idx h b free =
    let n = g.length in
    let top = (g.head_idx + 1) % 240 in
    let g' = record (with_head c g) { length = n + 1 } in
    grown-IsSnake n (cells g) (cells g') c h b
      (λ k below.
        cell_at g' k (omega arith) (omega arith)
        ∙ update_ne g.body top ((top + 241 - (n + 1) + k) % 240) c (omega arith)
        ∙ ap g.body (omega arith)
        ∙ sym (cell_at g k (omega arith) idx))
      (cell_at g' n (omega arith) (omega arith)
        ∙ ap (update g.body top c) (omega arith)
        ∙ update_self g.body top c)
      free

-- The loops of the tests.
pub occupied_from-false :
    (n i : ℕ) (c : Cell) (g : Game)
    → occupied_from n i c g ≡ false
    → (k : ℕ) → i ≤ k
    → k < i + n
    → same_cell (cells g k) c ≡ false
unfolding occupied_from
occupied_from-false zero i c g e k low high = absurd (omega arith)
occupied_from-false (suc n) i c g e k low high =
    let parts = or_false (same_cell (cells g i) c) (occupied_from n (i + 1) c g) e in
    elim (ℕ_discrete k i) [
      | yes p ↦ rw p parts.0
      | no np ↦ occupied_from-false n (i + 1) c g parts.1 k (omega arith) (omega arith)
    ]

-- What the test of validity says of the cells, and what makes it succeed.
apart_from-true :
    (n j : ℕ) (c : Cell) (g : Game)
    → apart_from n j c g ≡ true
    → (k : ℕ) → j ≤ k
    → k < j + n
    → same_cell c (cells g k) ≡ false
unfolding apart_from
apart_from-true zero j c g e k low high = absurd (omega arith)
apart_from-true (suc n) j c g e k low high =
    let parts = and_true (not (same_cell c (cells g j))) (apart_from n (j + 1) c g) e in
    elim (ℕ_discrete k j) [
      | yes p ↦ rw p (not-true (same_cell c (cells g j)) parts.0)
      | no np ↦ apart_from-true n (j + 1) c g parts.1 k (omega arith) (omega arith)
    ]

apart_from_holds :
    (n j : ℕ) (c : Cell) (g : Game)
    → ((k : ℕ) → j ≤ k → k < j + n → same_cell c (cells g k) ≡ false)
    → apart_from n j c g ≡ true
unfolding apart_from
apart_from_holds zero j c g h = refl
apart_from_holds (suc n) j c g h =
    rw (h j (omega arith) (omega arith))
      (apart_from_holds n (j + 1) c g (λ k low high. h k (omega arith) (omega arith)))

-- From the `i`-th cell on.
record AreApart (n i : ℕ) (g : Game) : Type 0 where
  inside_from : (k : ℕ) → i ≤ k → k < i + n → on_board (cells g k) ≡ true
  apart_pairs : (k j : ℕ) → i ≤ k → k < j → j < i + n → same_cell (cells g k) (cells g j) ≡ false

cells_valid-AreApart : (n i : ℕ) (g : Game) → cells_valid n i g ≡ true → AreApart n i g
unfolding cells_valid
cells_valid-AreApart zero i g e = record {
  inside_from = λ k low high. absurd (omega arith);
  apart_pairs = λ k j low lt high. absurd (omega arith);
}
cells_valid-AreApart (suc n) i g e =
    let c = cells g i in
    let one = and_true (on_board c) (apart_from n (i + 1) c g && cells_valid n (i + 1) g) e in
    let two = and_true (apart_from n (i + 1) c g) (cells_valid n (i + 1) g) one.1 in
    let rest = cells_valid-AreApart n (i + 1) g two.1 in
    record {
      inside_from = λ k low high. elim (ℕ_discrete k i) [
        | yes p ↦ rw p one.0
        | no np ↦ rest.inside_from k (omega arith) (omega arith)
      ];
      apart_pairs = λ k j low lt high. elim (ℕ_discrete k i) [
        | yes p ↦ rw p (apart_from-true n (i + 1) c g two.0 j (omega arith) (omega arith))
        | no np ↦ rest.apart_pairs k j (omega arith) lt (omega arith)
      ];
    }

cells_valid_holds : (n i : ℕ) (g : Game) → AreApart n i g → cells_valid n i g ≡ true
unfolding cells_valid
cells_valid_holds zero i g h = refl
cells_valid_holds (suc n) i g h =
    let here = h.inside_from i (omega arith) (omega arith) in
    let apart =
      apart_from_holds n (i + 1) (cells g i) g
        (λ k low high. h.apart_pairs i k (omega arith) (omega arith) (omega arith)) in
    let later = cells_valid_holds n (i + 1) g (record {
      inside_from = λ k low high. h.inside_from k (omega arith) (omega arith);
      apart_pairs = λ k j low lt high. h.apart_pairs k j (omega arith) lt (omega arith);
    }) in
    and_holds _ _ here (and_holds _ _ apart later)

pub cells_valid-IsSnake : (g : Game) → cells_valid g.length 0 g ≡ true → IsSnake g.length (cells g)
cells_valid-IsSnake g e =
    let h = cells_valid-AreApart g.length 0 g e in
    record {
      inside = λ i lt. h.inside_from i (omega arith) (omega arith);
      apart = λ i j lt below. h.apart_pairs i j (omega arith) lt (omega arith);
    }

pub IsSnake-cells_valid : (g : Game) → IsSnake g.length (cells g) → cells_valid g.length 0 g ≡ true
IsSnake-cells_valid g h = cells_valid_holds g.length 0 g (record {
  inside_from = λ k low high. h.inside k (omega arith);
  apart_pairs = λ k j low lt high. h.apart k j lt (omega arith);
})
