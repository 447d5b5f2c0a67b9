-- ===== src/Snake/Food.antt =====
-- The place of the food: the search visits every cell of the board once.
use rewind_os.Base.{
  ℕ, zero, suc, ◌+◌, ◌-◌, ◌*◌, ◌/◌, ◌%◌, ◌^◌, ◌≤◌, ◌<◌, ◌≡◌, ◌⊎◌, inl, inr, refl, sym, ap, ap₂, ◌∙◌,
  true, false, arith, Bool-cases, ltb,
}
use native.Mathlib.Decide.{ℕ_discrete}
use rewind_os.Snake.{
  Cell, Game, on_board, place_at, place_food, snake_spawn_food, snake_cell_occupied, ui_game_over,
  over_win, food_seed,
}

-- The food lies on a free cell of the board.
pub record HasFood (g : Game) (r : Game) : Type 0 where
  pub place : Cell
  pub inside : on_board place ≡ true
  pub free : snake_cell_occupied place false g ≡ false
  pub result : r ≡ record g { food_x = place.x; food_y = place.y }

abbrev pub won : Game → Game
won g = record g { ui_mode = ui_game_over; game_over_reason = over_win }

place_at-inside : (start step : ℕ) → on_board (place_at start step) ≡ true
place_at-inside start step =
    let idx = (start + step * 97) % 2 ^ 32 % 240 in
    let x : ltb (idx % 20) 20 ≡ true = ground arith in
    let y : ltb (idx / 20) 12 ≡ true = ground arith in rw (x, y) refl

-- The rounds either find a place or have seen that theirs are taken.
place_food_lem :
    (n step start : ℕ) (g : Game)
    → HasFood g (place_food n step start g)
      ⊎ ((place_food n step start g ≡ won g)
          × ((k : ℕ)
              → step ≤ k
              → k < step + n
              → snake_cell_occupied (place_at start k) false g ≡ true))
unfolding place_food
place_food_lem zero step start g = inr (refl, λ k low high. absurd (omega arith))
place_food_lem (suc n) step start g =
    elim (Bool-cases (snake_cell_occupied (place_at start step) false g)) [
      | inl taken ↦ elim (place_food_lem n (step + 1) start g) [
        | inl f ↦ inl (rw (taken, place_food) f)
        | inr (w, all) ↦ inr (
          rw (taken, place_food) w,
          λ k low high. elim (ℕ_discrete k step) [
            | yes p ↦ rw p taken
            | no np ↦ all k (omega arith) (omega arith)
          ],
        )
      ]
      | inr free ↦ inl (record {
        place = place_at start step;
        inside = place_at-inside start step;
        free = free;
        result = rw (free, place_food) refl;
      })
    ]

-- 97 * 193 is 1 modulo 240: each cell has its round.
round_of :
    (start : ℕ) (c : Cell)
    → start < 240
    → c.x < 20
    → c.y < 12
    → (k : ℕ) × ((k < 240) × (place_at start k ≡ c))
round_of start c lt hx hy =
    let idx = c.y * 20 + c.x in
    let k = (idx + 240 - start) * 193 % 240 in
    let at_idx : (start + k * 97) % 2 ^ 32 % 240 ≡ idx = omega arith in
    let x : (start + k * 97) % 2 ^ 32 % 240 % 20 ≡ c.x = omega arith in
    let y : (start + k * 97) % 2 ^ 32 % 240 / 20 ≡ c.y = omega arith in
    let make : ℕ → ℕ → Cell = λ a b. record { x = a; y = b } in (k, (omega arith, ap₂ make x y))

-- The food is put on a free cell of the board; or the game is over as won, and then each cell of the board has a part
-- of the snake.
pub spawn_food_lem :
    (g : Game)
    → HasFood g (snake_spawn_food g)
      ⊎ ((snake_spawn_food g ≡ won g)
          × ((c : Cell) → c.x < 20 → c.y < 12 → snake_cell_occupied c false g ≡ true))
unfolding snake_spawn_food
spawn_food_lem g = elim (place_food_lem 240 0 (food_seed g % 240) g) [
  | inl f ↦ inl f
  | inr (w, all) ↦ inr (
    w,
    λ c hx hy.
        let r = round_of (food_seed g % 240) c (omega arith) hx hy in
        ap (λ (x : Cell). snake_cell_occupied x false g) (sym r.1.1)
        ∙ all r.0 (omega arith) (omega (arith, r.1.0)),
  )
]
