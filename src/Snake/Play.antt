-- ===== src/Snake/Play.antt =====
-- src/scheduler/snake_task.c: the moves of the snake and its keys. What a call asks of the console, the terminal
-- and the scheduler is a list of effects beside the new state; `now` is what `systick_now` returns.
use rewind_os.Base.{
  ℕ, ◌+◌, ◌-◌, ◌/◌, ◌%◌, ◌^◌, Bool, true, false, ◌&&◌, ◌||◌, not, Option, none, some,
}
use rewind_os.Base.{List, [], ◌∷◌, update, ltb, leb, ◌==◌, if◌then◌else◌}
use rewind_os.Event.{Event}
use rewind_os.Snake.{
  Cell, Game, reset_game, max_cells, board_w, board_h, ui_playing, ui_paused, ui_game_over, dir_up,
  dir_right, dir_down, dir_left, over_none, over_wall, over_self, over_win, origin,
  snake_dir_is_opposite, snake_cell_occupied, snake_spawn_food,
}

-- The game, the other variables of the file, and whether `g_snake_sched` is set.
pub record SnakeTask : Type 0 where
  pub game : Game
  pub tick_pending : Bool
  pub full_redraw : Bool
  pub state_restored : Bool
  pub needs_rebind : Bool
  pub attached : Bool

pub data Effect : Type 0 where
  draw : Bool → Game → Effect
  say_busy : Effect
  clear_screen : Effect
  release_stdin : Effect
  unregister : Effect

abbrev pub snake_sig_start : ℕ
snake_sig_start = 17

abbrev pub snake_sig_tick : ℕ
snake_sig_tick = 18

abbrev pub term_sig_stdin_raw : ℕ
term_sig_stdin_raw = 12

unfoldable pub snake_task_reset_state : SnakeTask → SnakeTask
snake_task_reset_state t = record t {
  game = reset_game;
  needs_rebind = false;
  tick_pending = false;
  full_redraw = true;
}

unfoldable pub snake_render : SnakeTask → SnakeTask × List Effect
snake_render t = (record t { full_redraw = false }, draw t.full_redraw t.game ∷ [])

abbrev pub after_interval : ℕ → Game → ℕ
after_interval now g = (now + g.tick_interval_ms) % 2 ^ 32

-- Three cells in the middle of the board, heading right.
unfoldable pub first_game : ℕ → Game → Game
first_game now g = record g {
  ui_mode = ui_playing;
  dir = dir_right;
  pending_dir = dir_right;
  length = 3;
  head_idx = 2;
  body =
      update
        (update (update (λ i. origin) 0 (record { x = board_w / 2 - 2; y = board_h / 2 })) 1
          (record { x = board_w / 2 - 1; y = board_h / 2 }))
        2 (record { x = board_w / 2; y = board_h / 2 });
  score = 0;
  game_over_reason = over_none;
  next_tick = after_interval now g;
}

unfoldable pub snake_start_game : ℕ → SnakeTask → SnakeTask
snake_start_game now t = record t {
  game = snake_spawn_food (first_game now t.game);
  tick_pending = false;
  full_redraw = true;
}

unfoldable pub snake_stop : SnakeTask → SnakeTask × List Effect
snake_stop t = (
  record t {
    game = record (t.game) { active = 0; next_tick = 0 };
    tick_pending = false;
    needs_rebind = false;
    full_redraw = true;
  },
  clear_screen ∷ release_stdin ∷ (if t.attached then unregister ∷ [] else []),
)

unfoldable pub over : ℕ → Game → Game
over reason g = record g { ui_mode = ui_game_over; game_over_reason = reason; next_tick = 0 }

unfoldable pub snake_game_over : ℕ → SnakeTask → SnakeTask × List Effect
snake_game_over reason t =
    snake_render (record t { game = over reason t.game; tick_pending = false })

-- The direction of this step.
unfoldable pub turned : Game → Game
turned g =
    if not (snake_dir_is_opposite g.dir g.pending_dir) || leb g.length 1
    then record g { dir = g.pending_dir }
    else g

-- The next place of the head, or none where the wall is.
unfoldable pub next_cell : ℕ → Cell → Option Cell
next_cell dir head =
    if dir == dir_up
    then (if head.y == 0 then none else some (record head { y = head.y - 1 }))
    else (if dir == dir_down
        then (if leb board_h ((head.y + 1) % 256)
            then none
            else some (record head { y = (head.y + 1) % 256 }))
        else (if dir == dir_left
            then (if head.x == 0 then none else some (record head { x = head.x - 1 }))
            else (if leb board_w ((head.x + 1) % 256)
                then none
                else some (record head { x = (head.x + 1) % 256 }))))

-- The head moves on.
unfoldable pub with_head : Cell → Game → Game
with_head c g =
    let i = (g.head_idx + 1) % max_cells in record g { body = update g.body i c; head_idx = i }

-- The snake has one cell more, if there is room.
unfoldable pub grown : Game → Game
grown g = record g {
  length = if ltb g.length max_cells then g.length + 1 else g.length;
  score = (g.score + 1) % 2 ^ 32;
}

unfoldable pub carry_on : ℕ → SnakeTask → SnakeTask × List Effect
carry_on now t =
    snake_render (record t { game = record (t.game) { next_tick = after_interval now t.game } })

-- After the food was placed anew, or the board is full.
unfoldable pub fed : ℕ → SnakeTask → SnakeTask × List Effect
fed now t = if t.game.ui_mode == ui_game_over then snake_render t else carry_on now t

unfoldable pub eat : ℕ → SnakeTask → SnakeTask × List Effect
eat now t =
    let g = grown t.game in
    if leb max_cells g.length
    then snake_game_over over_win (record t { game = g })
    else fed now (record t { game = snake_spawn_food g })

unfoldable pub move_to : ℕ → Cell → SnakeTask → SnakeTask × List Effect
move_to now c t =
    let grow = (t.game.food_x == c.x) && (t.game.food_y == c.y) in
    let moved = record t { game = with_head c t.game } in
    if snake_cell_occupied c (not grow) t.game
    then snake_game_over over_self t
    else (if grow then eat now moved else carry_on now moved)

unfoldable pub move_or_hit : ℕ → Option Cell → SnakeTask → SnakeTask × List Effect
move_or_hit now none t = snake_game_over over_wall t
move_or_hit now (some c) t = move_to now c t

unfoldable pub snake_step : ℕ → SnakeTask → SnakeTask × List Effect
snake_step now t =
    let g = t.game in
    let t₁ = record t { tick_pending = false } in
    let g₁ = turned g in
    if (g.active == 0) || (not (g.ui_mode == ui_playing) || (g.length == 0))
    then (t₁, [])
    else move_or_hit now (next_cell g₁.dir (g₁.body g₁.head_idx)) (record t₁ { game = g₁ })

-- 'p': a game is paused, or goes on.
unfoldable pub toggle_pause : ℕ → SnakeTask → SnakeTask × List Effect
toggle_pause now t =
    let g = t.game in
    if g.ui_mode == ui_playing
    then snake_render
        (record t { game = record g { ui_mode = ui_paused; next_tick = 0 }; tick_pending = false })
    else (if g.ui_mode == ui_paused
        then snake_render (record t {
          game = record g { ui_mode = ui_playing; next_tick = after_interval now g };
          tick_pending = false;
        })
        else (t, []))

abbrev pub is_key : ℕ → ℕ → ℕ → Bool
is_key key lower upper = (key == lower) || (key == upper)

unfoldable pub key_dir : ℕ → Option ℕ
key_dir key =
    if is_key key b'w' b'W'
    then some dir_up
    else (if is_key key b'd' b'D'
        then some dir_right
        else (if is_key key b's' b'S'
            then some dir_down
            else (if is_key key b'a' b'A' then some dir_left else none)))

unfoldable pub steer : Option ℕ → SnakeTask → SnakeTask
steer none t = t
steer (some dir) t =
    if not (snake_dir_is_opposite t.game.dir dir) || leb t.game.length 1
    then record t { game = record (t.game) { pending_dir = dir } }
    else t

unfoldable pub on_key : ℕ → ℕ → SnakeTask → SnakeTask × List Effect
on_key now key t =
    if is_key key b'q' b'Q'
    then snake_stop t
    else (if is_key key b'r' b'R'
        then snake_render (snake_start_game now t)
        else (if is_key key b'p' b'P'
            then toggle_pause now t
            else (if not (t.game.ui_mode == ui_playing) && not (t.game.ui_mode == ui_paused)
                then (t, [])
                else (steer (key_dir key) t, []))))

-- `snake_seed_new_session`.
unfoldable pub new_session : SnakeTask → SnakeTask
new_session t = record (snake_task_reset_state t) { game = record reset_game { active = 1 } }

unfoldable pub snake_task_dispatch : ℕ → Event → SnakeTask → SnakeTask × List Effect
snake_task_dispatch now e t =
    if e.sig == snake_sig_start
    then (if not (t.game.active == 0) then (t, say_busy ∷ []) else snake_render (new_session t))
    else (if t.game.active == 0
        then (t, [])
        else (if e.sig == snake_sig_tick
            then snake_step now t
            else (if e.sig == term_sig_stdin_raw then on_key now (e.arg0 % 256) t else (t, []))))
