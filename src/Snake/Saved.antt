-- ===== src/Snake/Saved.antt =====
-- A checkpoint of a game that is under way is taken, and a restore goes on with it.
use rewind_os.Base.{
  ℕ, ◌≡◌, ◌≢◌, refl, ap, ◌∙◌, Bool, true, false, Option, some, List, [], ◌∷◌, arith, ◌==◌,
  if◌then◌else◌,
}
use rewind_os.Event.{Event}
use rewind_os.Sched.{SchedStatus, ok}
use rewind_os.Snake.{Game, snake_state_valid, ui_playing}
use rewind_os.Snake.Play.{SnakeTask, Effect, snake_task_dispatch, snake_render, after_interval}
use rewind_os.Snake.Kept.{IsGame, snake_state_valid_iff}
use rewind_os.Snake.Events.{Keeps, dispatch-Keeps}
use rewind_os.Snake.Task.{
  Outcome, size_of, snake_task_encode_state_blob, snake_task_decode_state_blob, resumed,
  snake_task_restore_state, snake_restore_get_state_fn, bound_again, apply_decoded,
  snake_restore_apply_state_fn,
}

-- The events that the task is handed, each with the time.
unfoldable pub plays : List (ℕ × Event) → SnakeTask → SnakeTask
plays [] t = t
plays ((now, e) ∷ es) t = plays es (snake_task_dispatch now e t).0

plays-IsGame : (es : List (ℕ × Event)) (t : SnakeTask) → IsGame t.game → IsGame (plays es t).game
unfolding plays Keeps
plays-IsGame [] t h = h
plays-IsGame ((now, e) ∷ es) t h = plays-IsGame es _ (dispatch-Keeps now e t h)

-- Every event keeps a valid state valid: the numbers are in range, and the cells of the snake are on the board
-- and differ from each other.
pub plays_valid :
    (es : List (ℕ × Event)) (t : SnakeTask)
    → snake_state_valid t.game ≡ true
    → snake_state_valid (plays es t).game ≡ true
plays_valid es t v =
    let start = (snake_state_valid_iff t.game).0 v in
    (snake_state_valid_iff (plays es t).game).1 (plays-IsGame es t start)

-- The game with the time of its next step set anew.
abbrev pub rearmed : ℕ → Game → Game
rearmed now g = record g { next_tick = if g.ui_mode == ui_playing then after_interval now g else 0 }

bound_again_game :
    (acquired : SchedStatus) (t : SnakeTask) (effects : List Effect)
    → let r = bound_again acquired (ok, (t, effects)) in (r.0 ≡ ok) × (r.1.0.game ≡ t.game)
unfolding bound_again snake_render
bound_again_game acquired t effects = ground arith

decoded :
    (g : Game)
    → snake_state_valid g ≡ true
    → snake_task_decode_state_blob (some g) size_of ≡ (ok, some g)
unfolding snake_task_decode_state_blob
decoded g v = rw v refl

restored :
    (now : ℕ) (registered : Bool) (g : Game) (other : SnakeTask)
    → snake_state_valid g ≡ true
    → g.active ≢ 0
    → snake_task_restore_state now registered (some g) other ≡ (ok, (resumed now g other, []))
unfolding snake_task_restore_state
restored now registered g other v live =
    let inactive : (g.active == 0) ≡ false = ground arith in simp (v, inactive) refl

handed_out :
    (t : SnakeTask)
    → snake_state_valid t.game ≡ true
    → t.game.active ≢ 0
    → snake_restore_get_state_fn size_of t ≡ (ok, some (t.game))
unfolding snake_restore_get_state_fn snake_task_encode_state_blob
handed_out t v live =
    let inactive : (t.game.active == 0) ≡ false = ground arith in simp (inactive, v) refl

apply_ok :
    (now : ℕ) (registered : Bool) (acquired : SchedStatus) (g : Game) (other : SnakeTask)
    → snake_task_decode_state_blob (some g) size_of ≡ (ok, some g)
    → snake_task_restore_state now registered (some g) other ≡ (ok, (resumed now g other, []))
    → snake_restore_apply_state_fn now registered acquired (some g) size_of other
      ≡ bound_again acquired (ok, (resumed now g other, []))
unfolding snake_restore_apply_state_fn apply_decoded
apply_ok now registered acquired g other d r =
    ap (λ (x : SchedStatus × Option Game). apply_decoded now registered acquired x other) d
    ∙ ap (bound_again acquired) r

restore_lem :
    (now : ℕ) (registered : Bool) (acquired : SchedStatus) (g : Game) (other : SnakeTask)
    → snake_state_valid g ≡ true
    → g.active ≢ 0
    → let r = snake_restore_apply_state_fn now registered acquired (some g) size_of other in
      (r.0 ≡ ok) × (r.1.0.game ≡ rearmed now g)
unfolding resumed
restore_lem now registered acquired g other v live =
    let step =
      apply_ok now registered acquired g other (decoded g v)
        (restored now registered g other v live) in
    let bound = bound_again_game acquired (resumed now g other) [] in
    (ap (λ (r : Outcome). r.0) step ∙ bound.0, ap (λ (r : Outcome). r.1.0.game) step ∙ bound.1)

-- After any events on a valid state, an active game is handed out for a checkpoint whole, and a restore of it, on
-- whatever state of the task, succeeds and has the same game again; only the time of the next step is counted from
-- now where the game is being played, and 0 where it is not.
pub saved_game_restores :
    (es : List (ℕ × Event)) (t other : SnakeTask) (now : ℕ) (registered : Bool)
    (acquired : SchedStatus)
    → snake_state_valid t.game ≡ true
    → (plays es t).game.active ≢ 0
    → let g = (plays es t).game in
      let r = snake_restore_apply_state_fn now registered acquired (some g) size_of other in
      (snake_restore_get_state_fn size_of (plays es t) ≡ (ok, some g))
      × ((r.0 ≡ ok) × (r.1.0.game ≡ rearmed now g))
saved_game_restores es t other now registered acquired v live =
    let w = plays_valid es t v in
    (
      handed_out (plays es t) w live,
      restore_lem now registered acquired (plays es t).game other w live,
    )
