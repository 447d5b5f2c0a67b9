-- ===== src/Snake/Kept.antt =====
-- Whatever event comes, the game stays one that a checkpoint can hold and a restore accepts.
use rewind_os.Base.{ℕ, ◌-◌, ◌≤◌, ◌<◌, ◌≡◌, ◌⊎◌, inl, inr, sym, ap, ◌∙◌, true, false, not, ◌||◌}
use rewind_os.Base.{some, arith, Bool-cases, if-cases, ltb, leb}
use rewind_os.Snake.{
  Cell, Game, on_board, snake_state_valid, fields_valid, cells_valid, snake_dir_valid,
  snake_tail_index, snake_body_cell_from_tail, snake_cell_occupied, snake_spawn_food,
  snake_dir_is_opposite,
}
use rewind_os.Snake.Play.{over, turned, next_cell, with_head, grown}
use rewind_os.Snake.Body.{
  IsSnake, cells, cell_at, with_head-IsSnake, grown-with_head-IsSnake, occupied_from-false,
  cells_valid-IsSnake, IsSnake-cells_valid, and_true, and_holds,
}
use rewind_os.Snake.Food.{spawn_food_lem}

-- The numbers of a game.
pub record HasFields (g : Game) : Type 0 where
  pub active_le : g.active ≤ 1
  pub ui_low : 1 ≤ g.ui_mode
  pub ui_high : g.ui_mode ≤ 4
  pub dir_low : 1 ≤ g.dir
  pub dir_high : g.dir ≤ 4
  pub pending_low : 1 ≤ g.pending_dir
  pub pending_high : g.pending_dir ≤ 4
  pub length_le : g.length ≤ 240
  pub head_lt : g.head_idx < 240
  pub food : ((g.food_x < 20) × (g.food_y < 12)) ⊎ ((g.ui_mode ≡ 4) × (g.game_over_reason ≡ 3))
  pub reason_le : g.game_over_reason ≤ 3
  pub alive : (g.active ≡ 0) ⊎ ((g.ui_mode ≡ 1) ⊎ (0 < g.length))

pub record IsGame (g : Game) : Type 0 where
  pub numbers : HasFields g
  pub snake : IsSnake g.length (cells g)

fields_valid-HasFields : (g : Game) → fields_valid g ≡ true → HasFields g
unfolding fields_valid snake_dir_valid
fields_valid-HasFields g e = ground arith

HasFields-fields_valid : (g : Game) → HasFields g → fields_valid g ≡ true
unfolding fields_valid snake_dir_valid
HasFields-fields_valid g h =
    let a = h.active_le in
    let b = h.ui_low in let c = h.ui_high in let d = h.food in let k = h.alive in ground arith

-- A state is valid exactly when it is a game.
pub snake_state_valid_iff :
    (g : Game) → (snake_state_valid g ≡ true → IsGame g) × (IsGame g → snake_state_valid g ≡ true)
unfolding snake_state_valid
snake_state_valid_iff g = (
  λ e.
      let parts = and_true (fields_valid g) (cells_valid g.length 0 g) e in
      record { numbers = fields_valid-HasFields g parts.0; snake = cells_valid-IsSnake g parts.1 },
  λ h. and_holds _ _ (HasFields-fields_valid g h.numbers) (IsSnake-cells_valid g h.snake),
)

abbrev pub without_food : Game → Game
without_food g = record g { food_x = 0; food_y = 0 }

pub spawn_food-IsGame :
    (g : Game) → IsGame (without_food g) → 0 < g.length → IsGame (snake_spawn_food g)
unfolding snake_body_cell_from_tail snake_tail_index
spawn_food-IsGame g h pos =
    let n = h.numbers in
    elim (spawn_food_lem g) [
      | inl f ↦
          let inside = f.inside in rw f.result (record { numbers = ground arith; snake = h.snake })
      | inr (w, all) ↦ rw w (record { numbers = ground arith; snake = h.snake })
    ]

module _ (g : Game) (h : IsGame g) where
  -- Changes that leave the cells alone.
  pub over-IsGame :
      (reason : ℕ) → reason ≤ 3 → g.ui_mode ≡ 2 → 0 < g.length → IsGame (over reason g)
  unfolding over snake_body_cell_from_tail snake_tail_index
  over-IsGame reason le playing pos = record {
    numbers = let n = h.numbers in ground arith;
    snake = h.snake;
  }

  pub turned-IsGame : IsGame (turned g)
  unfolding turned snake_body_cell_from_tail snake_tail_index
  turned-IsGame =
      if-cases IsGame (not (snake_dir_is_opposite g.dir g.pending_dir) || leb g.length 1)
        (record g { dir = g.pending_dir }) g
        (λ e. record { numbers = let n = h.numbers in ground arith; snake = h.snake }) (λ e. h)

  -- Where the food lies does not matter to a new place of it.
  pub no_food-IsGame : IsGame (without_food g)
  unfolding snake_body_cell_from_tail snake_tail_index
  no_food-IsGame = record { numbers = let n = h.numbers in ground arith; snake = h.snake }

  -- A step to a cell that the snake leaves or does not have.
  pub with_head-IsGame :
      (c : Cell)
      → 0 < g.length
      → on_board c ≡ true
      → snake_cell_occupied c true g ≡ false
      → IsGame (with_head c g)
  unfolding snake_cell_occupied with_head
  with_head-IsGame c pos b free =
      let n = h.numbers in
      record {
        numbers = ground arith;
        snake =
            with_head-IsSnake c g n.length_le n.head_lt pos h.snake b
              (λ k low lt. occupied_from-false (g.length - 1) 1 c g free k low (omega arith));
      }

  pub grown-IsGame :
      (c : Cell)
      → 0 < g.length
      → on_board c ≡ true
      → snake_cell_occupied c false g ≡ false
      → IsGame (grown (with_head c g))
  unfolding snake_cell_occupied grown with_head snake_body_cell_from_tail snake_tail_index
  grown-IsGame c pos b free =
      let n = h.numbers in
      let apart = λ (k : ℕ) (lt : k < g.length).
        occupied_from-false g.length 0 c g free k (omega arith) (omega arith) in
      elim (Bool-cases (ltb g.length 240)) [
        | inl room ↦
            let longer =
              grown-with_head-IsSnake c g (ground (arith, room)) n.head_lt h.snake b apart in
            rw room (record { numbers = ground (arith, room); snake = longer })
        | inr full ↦
            let moved =
              with_head-IsSnake c g n.length_le n.head_lt pos h.snake b (λ k low lt. apart k lt) in
            rw full (record { numbers = ground (arith, full); snake = moved })
      ]

-- The head lies on the board.
pub head-inside : (g : Game) → IsGame g → 0 < g.length → on_board (g.body g.head_idx) ≡ true
head-inside g h pos =
    let n = h.numbers in
    ap on_board (
      ap g.body (omega (arith, n.head_lt, n.length_le))
      ∙ sym (cell_at g (g.length - 1) n.length_le n.head_lt))
    ∙ h.snake.inside (g.length - 1) (omega arith)

pub next_cell-inside :
    (dir : ℕ) (c c' : Cell) → next_cell dir c ≡ some c' → on_board c ≡ true → on_board c' ≡ true
unfolding next_cell
next_cell-inside dir c c' e b = ground arith
