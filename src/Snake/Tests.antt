-- ===== src/Snake/Tests.antt =====
-- The theorems on the game at a start and a few steps.
use rewind_os.Base.{ℕ, ◌≡◌, ◌⊎◌, ◌<◌, refl, true, false, some, List, [], ◌∷◌, arith}
use rewind_os.Event.{Event}
use rewind_os.Sched.{ok}
use rewind_os.Snake.{
  Cell, reset_game, snake_state_valid, fields_valid, snake_dir_valid, cells_valid, snake_tail_index,
  snake_body_cell_from_tail, snake_spawn_food, place_food, food_seed, mix_body, snake_mix_u32,
  snake_cell_occupied, occupied_from, snake_dir_is_opposite,
}
use rewind_os.Snake.Play.{
  SnakeTask, snake_task_dispatch, on_key, snake_render, snake_start_game, first_game, new_session,
  snake_task_reset_state, snake_step, turned, next_cell, move_or_hit, move_to, with_head, carry_on,
  steer, key_dir,
}
use rewind_os.Snake.Food.{HasFood, won, spawn_food_lem}
use rewind_os.Snake.Task.{snake_restore_apply_state_fn, snake_restore_get_state_fn, size_of}
use rewind_os.Snake.Saved.{plays, rearmed, saved_game_restores}

abbrev idle : SnakeTask
idle = record {
  game = reset_game;
  tick_pending = false;
  full_redraw = true;
  state_restored = false;
  needs_rebind = false;
  attached = true;
}

abbrev event : ℕ → ℕ → Event
event sig arg = record { sig = sig; src = 0; arg0 = arg; arg1 = 0; tick = 0 }

-- Started by 'r', two steps, and a turn.
abbrev moves : List (ℕ × Event)
moves =
    (10, event 17 0)
    ∷ (20, event 12 b'r')
    ∷ (180, event 18 0)
    ∷ (200, event 12 b'w')
    ∷ (340, event 18 0)
    ∷ []

idle_valid : snake_state_valid reset_game ≡ true
unfolding snake_state_valid fields_valid snake_dir_valid cells_valid
idle_valid = refl

plays_on : (plays moves idle).game.active ≡ 1
unfolding plays snake_task_dispatch on_key snake_render snake_start_game first_game new_session
    snake_task_reset_state snake_step turned next_cell move_or_hit move_to with_head carry_on steer
    key_dir snake_spawn_food place_food food_seed mix_body snake_mix_u32 snake_cell_occupied
    occupied_from snake_dir_is_opposite snake_tail_index snake_body_cell_from_tail
plays_on = refl

saved_game_restores_example :
    let g = (plays moves idle).game in
    let r = snake_restore_apply_state_fn 1000 true ok (some g) size_of idle in
    (snake_restore_get_state_fn size_of (plays moves idle) ≡ (ok, some g))
    × ((r.0 ≡ ok) × (r.1.0.game ≡ rearmed 1000 g))
saved_game_restores_example =
    saved_game_restores moves idle idle 1000 true ok idle_valid
      (λ e. absurd (omega (arith, plays_on, e)))

spawn_food_lem_example :
    HasFood (first_game 20 reset_game) (snake_spawn_food (first_game 20 reset_game))
    ⊎ ((snake_spawn_food (first_game 20 reset_game) ≡ won (first_game 20 reset_game))
        × ((c : Cell)
            → c.x < 20
            → c.y < 12
            → snake_cell_occupied c false (first_game 20 reset_game) ≡ true))
spawn_food_lem_example = spawn_food_lem (first_game 20 reset_game)
