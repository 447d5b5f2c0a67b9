-- ===== src/Snake.antt =====
-- The snake game: src/scheduler/snake_task.c, include/snake_task.h. Its state is what a checkpoint keeps of it.
-- The snake lies in a circular array of cells, from the tail to the head. Here are the state, its validity, and
-- the search for a place of the food; Snake.Play has the moves and the keys, and Snake.Task what the
-- scheduler and the checkpoints call.
pub mod Play
pub mod Body
pub mod Food
pub mod Kept
pub mod Events
pub mod Task
pub mod Saved
mod Tests
use Prim.Native.Nat.{bit_xor, bit_or}
use rewind_os.Base.{ℕ, zero, suc, ◌+◌, ◌-◌, ◌*◌, ◌/◌, ◌%◌, ◌^◌, Bool, true, false, ◌&&◌, ◌||◌, not}
use rewind_os.Base.{update, ltb, leb, ◌==◌, if◌then◌else◌}

abbrev pub board_w : ℕ
board_w = 20

abbrev pub board_h : ℕ
board_h = 12

abbrev pub max_cells : ℕ
max_cells = board_w * board_h

abbrev pub ui_title : ℕ
ui_title = 1

abbrev pub ui_playing : ℕ
ui_playing = 2

abbrev pub ui_paused : ℕ
ui_paused = 3

abbrev pub ui_game_over : ℕ
ui_game_over = 4

abbrev pub dir_up : ℕ
dir_up = 1

abbrev pub dir_right : ℕ
dir_right = 2

abbrev pub dir_down : ℕ
dir_down = 3

abbrev pub dir_left : ℕ
dir_left = 4

abbrev pub over_none : ℕ
over_none = 0

abbrev pub over_wall : ℕ
over_wall = 1

abbrev pub over_self : ℕ
over_self = 2

abbrev pub over_win : ℕ
over_win = 3

abbrev pub default_tick_ms : ℕ
default_tick_ms = 160

-- `snake_cell_t`.
pub record Cell : Type 0 where
  pub x : ℕ
  pub y : ℕ

-- `snake_game_state_t`, without its padding.
pub record Game : Type 0 where
  pub active : ℕ
  pub ui_mode : ℕ
  pub dir : ℕ
  pub pending_dir : ℕ
  pub length : ℕ
  pub head_idx : ℕ
  pub food_x : ℕ
  pub food_y : ℕ
  pub game_over_reason : ℕ
  pub score : ℕ
  pub tick_interval_ms : ℕ
  pub next_tick : ℕ
  pub body : ℕ → Cell

abbrev pub origin : Cell
origin = record { x = 0; y = 0 }

-- `snake_task_reset_state`, as far as the game goes.
abbrev pub reset_game : Game
reset_game = record {
  active = 0;
  ui_mode = ui_title;
  dir = dir_right;
  pending_dir = dir_right;
  length = 0;
  head_idx = 0;
  food_x = 0;
  food_y = 0;
  game_over_reason = over_none;
  score = 0;
  tick_interval_ms = default_tick_ms;
  next_tick = 0;
  body = λ i. origin;
}

unfoldable pub snake_dir_valid : ℕ → Bool
snake_dir_valid dir = leb dir_up dir && leb dir dir_left

unfoldable pub snake_tail_index : Game → ℕ
snake_tail_index g = (g.head_idx + max_cells + 1 + 2 ^ 32 - g.length) % 2 ^ 32 % max_cells

-- The cell that stands so far from the tail.
unfoldable pub snake_body_cell_from_tail : Game → ℕ → Cell
snake_body_cell_from_tail g offset = g.body ((snake_tail_index g + offset) % max_cells)

abbrev pub same_cell : Cell → Cell → Bool
same_cell a b = (a.x == b.x) && (a.y == b.y)

abbrev pub on_board : Cell → Bool
on_board c = ltb c.x board_w && ltb c.y board_h

-- No cell from the `j`-th on, `n` to go, is the given one.
unfoldable pub apart_from : ℕ → ℕ → Cell → Game → Bool
apart_from zero j c g = true
apart_from (suc n) j c g =
    not (same_cell c (snake_body_cell_from_tail g j)) && apart_from n (j + 1) c g

-- The cells from the `i`-th on, `n` to go, are on the board and differ from the later ones.
unfoldable pub cells_valid : ℕ → ℕ → Game → Bool
cells_valid zero i g = true
cells_valid (suc n) i g =
    let c = snake_body_cell_from_tail g i in
    on_board c && (apart_from n (i + 1) c g && cells_valid n (i + 1) g)

abbrev pub food_valid : Game → Bool
food_valid g =
    (ltb g.food_x board_w && ltb g.food_y board_h)
    || ((g.ui_mode == ui_game_over) && (g.game_over_reason == over_win))

-- The tests before the loop over the cells.
unfoldable pub fields_valid : Game → Bool
fields_valid g =
    leb g.active 1
    && ((leb ui_title g.ui_mode && leb g.ui_mode ui_game_over)
        && ((snake_dir_valid g.dir && snake_dir_valid g.pending_dir)
            && (leb g.length max_cells
                && (ltb g.head_idx max_cells
                    && (food_valid g
                        && (leb g.game_over_reason over_win
                            && not (
                                not (g.active == 0)
                                && (not (g.ui_mode == ui_title) && (g.length == 0)))))))))

unfoldable pub snake_state_valid : Game → Bool
snake_state_valid g = fields_valid g && cells_valid g.length 0 g

unfoldable pub snake_mix_u32 : ℕ → ℕ → ℕ
snake_mix_u32 seed value =
    bit_xor seed ((value + 0x9e3779b9 + seed * 2 ^ 6 % 2 ^ 32 + seed / 2 ^ 2) % 2 ^ 32)

unfoldable pub snake_dir_is_opposite : ℕ → ℕ → Bool
snake_dir_is_opposite a b =
    ((a == dir_up) && (b == dir_down))
    || (((a == dir_down) && (b == dir_up))
        || (((a == dir_left) && (b == dir_right)) || ((a == dir_right) && (b == dir_left))))

-- The cells from the `i`-th on, `n` to go.
unfoldable pub occupied_from : ℕ → ℕ → Cell → Game → Bool
occupied_from zero i c g = false
occupied_from (suc n) i c g =
    same_cell (snake_body_cell_from_tail g i) c || occupied_from n (i + 1) c g

-- The tail is left out where it moves on.
unfoldable pub snake_cell_occupied : Cell → Bool → Game → Bool
snake_cell_occupied c ignore_tail g =
    if ignore_tail then occupied_from (g.length - 1) 1 c g else occupied_from g.length 0 c g

-- The seed takes in the cells from the `i`-th on, `n` to go.
unfoldable pub mix_body : ℕ → ℕ → Game → ℕ → ℕ
mix_body zero i g seed = seed
mix_body (suc n) i g seed =
    let c = snake_body_cell_from_tail g i in
    mix_body n (i + 1) g (snake_mix_u32 seed (bit_or (c.x * 2 ^ 8) c.y))

unfoldable pub food_seed : Game → ℕ
food_seed g = mix_body g.length 0 g (
    snake_mix_u32 (snake_mix_u32 (snake_mix_u32 (snake_mix_u32 0x51a7e5d3 g.score) g.length) g.dir)
      g.pending_dir)

-- The place that is tried in a round.
abbrev pub place_at : ℕ → ℕ → Cell
place_at start step =
    let idx = (start + step * 97) % 2 ^ 32 % max_cells in
    record { x = idx % board_w; y = idx / board_w }

-- The rounds from `step` on, `n` to go.
unfoldable pub place_food : ℕ → ℕ → ℕ → Game → Game
place_food zero step start g = record g { ui_mode = ui_game_over; game_over_reason = over_win }
place_food (suc n) step start g =
    let c = place_at start step in
    let rest = place_food n (step + 1) start g in
    if not (snake_cell_occupied c false g) then record g { food_x = c.x; food_y = c.y } else rest

unfoldable pub snake_spawn_food : Game → Game
snake_spawn_food g = place_food max_cells 0 (food_seed g % max_cells) g
