-- ===== src/Snake/Events.antt =====
-- Whatever event comes, the game stays one that a checkpoint can hold and a restore accepts.
use rewind_os.Base.{ℕ, ◌%◌, ◌≤◌, ◌<◌, ◌≡◌, refl, ◌∙◌, true, false, not, ◌&&◌, ◌||◌}
use rewind_os.Base.{Option, none, some, List, [], ◌∷◌, arith, if-cases, leb, ◌==◌}
use rewind_os.Event.{Event}
use rewind_os.Snake.{
  Cell, Game, on_board, snake_tail_index, snake_body_cell_from_tail, snake_cell_occupied,
  snake_spawn_food, snake_dir_is_opposite, cells_valid, apart_from,
}
use rewind_os.Snake.Play.{
  SnakeTask, Effect, say_busy, snake_render, snake_game_over, turned, next_cell, with_head, grown,
  carry_on, fed, eat, move_to, move_or_hit, snake_step, first_game, snake_start_game, snake_stop,
  toggle_pause, key_dir, steer, on_key, new_session, snake_task_reset_state, snake_task_dispatch,
  is_key, snake_sig_start, snake_sig_tick, term_sig_stdin_raw,
}
use rewind_os.Snake.Body.{cells_valid-IsSnake}
use rewind_os.Snake.Kept.{
  IsGame, without_food, spawn_food-IsGame, over-IsGame, turned-IsGame, no_food-IsGame,
  with_head-IsGame, grown-IsGame, head-inside, next_cell-inside,
}

-- The game of the result.
unfoldable pub Keeps : SnakeTask × List Effect → Type 0
Keeps r = IsGame r.0.game

grown_mode : (g : Game) → (grown g).ui_mode ≡ g.ui_mode
unfolding grown
grown_mode g = refl

with_head_mode : (c : Cell) (g : Game) → (with_head c g).ui_mode ≡ g.ui_mode
unfolding with_head
with_head_mode c g = refl

grown_pos : (c : Cell) (g : Game) → 0 < g.length → 0 < (grown (with_head c g)).length
unfolding grown with_head
grown_pos c g pos = ground arith

turned_same : (g : Game) → ((turned g).ui_mode ≡ g.ui_mode) × ((turned g).length ≡ g.length)
unfolding turned
turned_same g = ground arith

carry_on-Keeps : (now : ℕ) (t : SnakeTask) → IsGame t.game → Keeps (carry_on now t)
unfolding Keeps carry_on snake_render snake_body_cell_from_tail snake_tail_index
carry_on-Keeps now t h = record { numbers = let n = h.numbers in ground arith; snake = h.snake }

render-Keeps : (t : SnakeTask) → IsGame t.game → Keeps (snake_render t)
unfolding Keeps snake_render
render-Keeps t h = h

still-Keeps : (t : SnakeTask) (effects : List Effect) → IsGame t.game → Keeps (t, effects)
unfolding Keeps
still-Keeps t effects h = h

game_over-Keeps :
    (reason : ℕ) (t : SnakeTask)
    → IsGame t.game
    → reason ≤ 3
    → t.game.ui_mode ≡ 2
    → 0 < t.game.length
    → Keeps (snake_game_over reason t)
unfolding Keeps snake_game_over snake_render
game_over-Keeps reason t h le playing pos = over-IsGame t.game h reason le playing pos

fed-Keeps : (now : ℕ) (t : SnakeTask) → IsGame t.game → Keeps (fed now t)
unfolding fed
fed-Keeps now t h =
    if-cases Keeps (t.game.ui_mode == 4) _ _ (λ e. render-Keeps t h) (λ e. carry_on-Keeps now t h)

eat-Keeps :
    (now : ℕ) (t : SnakeTask)
    → IsGame (grown t.game)
    → t.game.ui_mode ≡ 2
    → 0 < (grown t.game).length
    → Keeps (eat now t)
unfolding eat
eat-Keeps now t h playing pos =
    let g = grown t.game in
    if-cases Keeps (leb 240 g.length) _ _
      (λ e.
        game_over-Keeps 3 (record t { game = g }) h (omega arith) (grown_mode t.game ∙ playing) pos)
      (λ e.
        fed-Keeps now (record t { game = snake_spawn_food g })
          (spawn_food-IsGame g (no_food-IsGame g h) pos))

move_to-Keeps :
    (now : ℕ) (c : Cell) (t : SnakeTask)
    → IsGame t.game
    → t.game.ui_mode ≡ 2
    → 0 < t.game.length
    → on_board c ≡ true
    → Keeps (move_to now c t)
unfolding move_to
move_to-Keeps now c t h playing pos b =
    let grow = (t.game.food_x == c.x) && (t.game.food_y == c.y) in
    let moved = record t { game = with_head c t.game } in
    if-cases Keeps (snake_cell_occupied c (not grow) t.game) _ _
      (λ e. game_over-Keeps 2 t h (omega arith) playing pos)
      (λ free.
        if-cases Keeps grow _ _
          (λ y.
            eat-Keeps now moved (grown-IsGame t.game h c pos b (rw y at free))
              (with_head_mode c t.game ∙ playing) (grown_pos c t.game pos))
          (λ n. carry_on-Keeps now moved (with_head-IsGame t.game h c pos b (rw n at free))))

move_or_hit-Keeps :
    (now : ℕ) (o : Option Cell) (t : SnakeTask)
    → IsGame t.game
    → t.game.ui_mode ≡ 2
    → 0 < t.game.length
    → next_cell t.game.dir (t.game.body t.game.head_idx) ≡ o
    → Keeps (move_or_hit now o t)
unfolding move_or_hit
move_or_hit-Keeps now none t h playing pos e = game_over-Keeps 1 t h (omega arith) playing pos
move_or_hit-Keeps now (some c) t h playing pos e =
    move_to-Keeps now c t h playing pos
      (next_cell-inside t.game.dir (t.game.body t.game.head_idx) c e (head-inside t.game h pos))

step-Keeps : (now : ℕ) (t : SnakeTask) → IsGame t.game → Keeps (snake_step now t)
unfolding snake_step
step-Keeps now t h =
    let g = t.game in
    let g₁ = turned g in
    let same = turned_same g in
    if-cases Keeps ((g.active == 0) || (not (g.ui_mode == 2) || (g.length == 0))) _ _
      (λ e. still-Keeps (record t { tick_pending = false }) [] h)
      (λ e.
        move_or_hit-Keeps now _ (record t { tick_pending = false; game = g₁ }) (turned-IsGame g h)
          (ground (arith, e, same.0)) (ground (arith, e, same.1)) refl)

new_session-Keeps : (t : SnakeTask) → IsGame (new_session t).game
unfolding new_session snake_task_reset_state
new_session-Keeps t = record {
  numbers = ground arith;
  snake = record {
    inside = λ i lt. absurd (omega arith);
    apart = λ i j lt below. absurd (omega arith);
  };
}

first_cells : (now : ℕ) (g : Game) → cells_valid 3 0 (without_food (first_game now g)) ≡ true
unfolding first_game cells_valid apart_from snake_body_cell_from_tail snake_tail_index
first_cells now g = refl

first_game_pos : (now : ℕ) (g : Game) → 0 < (first_game now g).length
unfolding first_game
first_game_pos now g = omega arith

first_game-IsGame : (now : ℕ) (g : Game) → g.active ≤ 1 → IsGame (without_food (first_game now g))
unfolding first_game
first_game-IsGame now g le = record {
  numbers = ground arith;
  snake = cells_valid-IsSnake (without_food (first_game now g)) (first_cells now g);
}

start_game-Keeps : (now : ℕ) (t : SnakeTask) → IsGame t.game → IsGame (snake_start_game now t).game
unfolding snake_start_game
start_game-Keeps now t h =
    let n = h.numbers in
    spawn_food-IsGame (first_game now t.game) (first_game-IsGame now t.game n.active_le)
      (first_game_pos now t.game)

stop-Keeps : (t : SnakeTask) → IsGame t.game → Keeps (snake_stop t)
unfolding Keeps snake_stop snake_body_cell_from_tail snake_tail_index
stop-Keeps t h = record { numbers = let n = h.numbers in ground arith; snake = h.snake }

toggle-Keeps : (now : ℕ) (t : SnakeTask) → IsGame t.game → Keeps (toggle_pause now t)
unfolding toggle_pause snake_body_cell_from_tail snake_tail_index
toggle-Keeps now t h =
    let n = h.numbers in
    let g = t.game in
    if-cases Keeps (g.ui_mode == 2) _ _
      (λ e. render-Keeps _ (record { numbers = ground (arith, e); snake = h.snake }))
      (λ ne.
        if-cases Keeps (g.ui_mode == 3) _ _
          (λ e. render-Keeps _ (record { numbers = ground (arith, e); snake = h.snake }))
          (λ e. still-Keeps _ [] h))

key_dir_low : (key d : ℕ) → key_dir key ≡ some d → (1 ≤ d) × (d ≤ 4)
unfolding key_dir
key_dir_low key d e = ground arith

steer-Keeps :
    (o : Option ℕ) (t : SnakeTask)
    → IsGame t.game
    → ((d : ℕ) → o ≡ some d → (1 ≤ d) × (d ≤ 4))
    → IsGame (steer o t).game
unfolding steer snake_body_cell_from_tail snake_tail_index
steer-Keeps none t h low = h
steer-Keeps (some d) t h low =
    let n = h.numbers in
    let range = low d refl in
    if-cases (λ (x : SnakeTask). IsGame x.game)
      (not (snake_dir_is_opposite t.game.dir d) || leb t.game.length 1) _ _
      (λ e. record { numbers = ground arith; snake = h.snake }) (λ e. h)

key-Keeps : (now key : ℕ) (t : SnakeTask) → IsGame t.game → Keeps (on_key now key t)
unfolding on_key
key-Keeps now key t h =
    if-cases Keeps (is_key key b'q' b'Q') _ _ (λ e. stop-Keeps t h)
      (λ e.
        if-cases Keeps (is_key key b'r' b'R') _ _
          (λ e. render-Keeps (snake_start_game now t) (start_game-Keeps now t h))
          (λ e.
            if-cases Keeps (is_key key b'p' b'P') _ _ (λ e. toggle-Keeps now t h)
              (λ e.
                if-cases Keeps (not (t.game.ui_mode == 2) && not (t.game.ui_mode == 3)) _ _
                  (λ e. still-Keeps _ [] h)
                  (λ e. still-Keeps _ [] (steer-Keeps (key_dir key) t h (key_dir_low key))))))

pub dispatch-Keeps :
    (now : ℕ) (e : Event) (t : SnakeTask) → IsGame t.game → Keeps (snake_task_dispatch now e t)
unfolding snake_task_dispatch
dispatch-Keeps now e t h =
    if-cases Keeps (e.sig == snake_sig_start) _ _
      (λ a.
        if-cases Keeps (not (t.game.active == 0)) _ _ (λ b. still-Keeps t (say_busy ∷ []) h)
          (λ b. render-Keeps (new_session t) (new_session-Keeps t)))
      (λ a.
        if-cases Keeps (t.game.active == 0) _ _ (λ b. still-Keeps t [] h)
          (λ b.
            if-cases Keeps (e.sig == snake_sig_tick) _ _ (λ d. step-Keeps now t h)
              (λ d.
                if-cases Keeps (e.sig == term_sig_stdin_raw) _ _
                  (λ f. key-Keeps now (e.arg0 % 256) t h) (λ f. still-Keeps t [] h))))
