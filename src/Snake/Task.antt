-- ===== src/Snake/Task.antt =====
-- src/scheduler/snake_task.c: what the scheduler, the commands and the checkpoints call. `registered` says
-- whether the task stands in the scheduler's table; the results of the scheduler's and the terminal's
-- functions are arguments, and the calls themselves are effects. A blob is the state that it is a copy of:
-- `size_of` is its size, and only the length that comes with it is compared.
use rewind_os.Base.{ℕ, ◌+◌, ◌-◌, ◌%◌, ◌^◌, Bool, true, false, ◌&&◌, ◌||◌, not, Option, none, some}
use rewind_os.Base.{List, [], ◌∷◌, ltb, leb, ◌==◌, if◌then◌else◌}
use rewind_os.Sched.{SchedStatus, ok, err_param, err_exists, err_not_found, err_disabled}
use rewind_os.Snake.{Game, snake_state_valid, ui_playing}
use rewind_os.Snake.Play.{
  SnakeTask, Effect, unregister, release_stdin, snake_render, snake_task_reset_state,
  after_interval,
}

-- `sizeof(snake_game_state_t)`.
abbrev pub size_of : ℕ
size_of = 12 + 12 + 480

-- Status, state and effects.
abbrev pub Outcome : Type 0
Outcome = SchedStatus × (SnakeTask × List Effect)

unfoldable pub snake_task_encode_state_blob : Option Game → ℕ → SchedStatus × Option Game
snake_task_encode_state_blob none room = (err_param, none)
snake_task_encode_state_blob (some g) room =
    if not (snake_state_valid g) || ltb room size_of then (err_param, none) else (ok, some g)

unfoldable pub snake_task_decode_state_blob : Option Game → ℕ → SchedStatus × Option Game
snake_task_decode_state_blob none len = (err_param, none)
snake_task_decode_state_blob (some g) len =
    if not (len == size_of) || not (snake_state_valid g) then (err_param, none) else (ok, some g)

-- The game of a checkpoint goes on from now.
unfoldable pub resumed : ℕ → Game → SnakeTask → SnakeTask
resumed now g t = record t {
  game = record g { next_tick = if g.ui_mode == ui_playing then after_interval now g else 0 };
  tick_pending = false;
  full_redraw = true;
  state_restored = true;
}

unfoldable pub snake_task_restore_state : ℕ → Bool → Option Game → SnakeTask → Outcome
snake_task_restore_state now registered none t = (err_param, (t, []))
snake_task_restore_state now registered (some g) t =
    if not (snake_state_valid g)
    then (err_param, (t, []))
    else (if g.active == 0
        then (
          ok,
          (
            record (snake_task_reset_state t) { state_restored = false },
            if t.attached && registered then unregister ∷ [] else [],
          ),
        )
        else (ok, (resumed now g t, [])))

-- An `ok` or `err_exists` of the terminal: the input is held.
unfoldable pub holds_stdin : SchedStatus → Bool
holds_stdin ok = true
holds_stdin err_exists = true
holds_stdin s = false

unfoldable pub snake_task_restore_rebind_stdin_if_needed :
    Bool → SchedStatus → SnakeTask → SnakeTask × List Effect
snake_task_restore_rebind_stdin_if_needed registered acquired t =
    if not t.needs_rebind
    then (t, [])
    else (if t.game.active == 0
        then (record t { needs_rebind = false }, [])
        else (if not t.attached || not registered
            then (t, [])
            else (if holds_stdin acquired
                then snake_render (record t { needs_rebind = false })
                else (t, []))))

unfoldable pub exists_is_ok : SchedStatus → SchedStatus
exists_is_ok err_exists = ok
exists_is_ok s = s

-- Before `sched_register_task` is called, whose status is `registers`.
unfoldable pub snake_task_register : Bool → SchedStatus → SnakeTask → SchedStatus × SnakeTask
snake_task_register sched registers t =
    let t₁ = record t { attached = true } in
    let t₂ = if not t.state_restored then snake_task_reset_state t₁ else t₁ in
    if not sched then (err_param, t) else (
      exists_is_ok registers,
      record t₂ {
        state_restored = false;
        needs_rebind = if not (t₂.game.active == 0) then true else t₂.needs_rebind;
      },
    )

-- A post that fails gives the input back.
unfoldable pub started : SchedStatus → SnakeTask → Outcome
started ok t = (ok, (record t { needs_rebind = false }, []))
started s t = (s, (t, release_stdin ∷ []))

unfoldable pub acquired_start : SchedStatus → SchedStatus → SnakeTask → Outcome
acquired_start ok post t = started post t
acquired_start s post t = (s, (t, []))

unfoldable pub snake_task_request_start : Bool → SchedStatus → SchedStatus → SnakeTask → Outcome
snake_task_request_start bg acquired post t =
    if not t.attached
    then (err_param, (t, []))
    else (if bg then (err_disabled, (t, [])) else acquired_start acquired post t)

-- `(int32_t)(now - next) < 0`.
abbrev pub is_early : ℕ → ℕ → Bool
is_early now next = leb (2 ^ 31) ((now + 2 ^ 32 - next) % 2 ^ 32)

unfoldable pub posted_tick : SchedStatus → SnakeTask → SnakeTask
posted_tick ok t = record t { tick_pending = true }
posted_tick s t = t

unfoldable pub snake_task_systick_hook : ℕ → Bool → SchedStatus → SnakeTask → SnakeTask
snake_task_systick_hook now registered post t =
    if not t.attached
    then t
    else (if not registered
        then record t { game = record (t.game) { active = 0; next_tick = 0 }; tick_pending = false }
        else (if (t.game.active == 0)
              || (not (t.game.ui_mode == ui_playing) || (t.tick_pending || (t.game.next_tick == 0)))
            then t
            else (if is_early now t.game.next_tick then t else posted_tick post t)))

-- The state of an active game for a checkpoint.
unfoldable pub snake_restore_get_state_fn : ℕ → SnakeTask → SchedStatus × Option Game
snake_restore_get_state_fn room t =
    if t.game.active == 0
    then (err_not_found, none)
    else snake_task_encode_state_blob (some t.game) room

unfoldable pub bound_again : SchedStatus → Outcome → Outcome
bound_again acquired (ok, (t, effects)) =
    if t.game.active == 0
    then (ok, (t, effects))
    else (if holds_stdin acquired
        then (ok, snake_render (record t { needs_rebind = false }))
        else (ok, (record t { needs_rebind = true }, [])))
bound_again acquired r = r

unfoldable pub apply_decoded :
    ℕ → Bool → SchedStatus → SchedStatus × Option Game → SnakeTask → Outcome
apply_decoded now registered acquired (ok, g) t =
    bound_again acquired (snake_task_restore_state now registered g t)
apply_decoded now registered acquired (s, g) t = (s, (t, []))

unfoldable pub snake_restore_apply_state_fn :
    ℕ → Bool → SchedStatus → Option Game → ℕ → SnakeTask → Outcome
snake_restore_apply_state_fn now registered acquired blob len t =
    apply_decoded now registered acquired (snake_task_decode_state_blob blob len) t
