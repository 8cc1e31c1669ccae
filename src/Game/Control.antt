-- ===== src/Game/Control.antt =====
-- The handlers of example/core/game/ctrl.go, and the messages that example/core/srv.go gives them.
use emt.Common.{ℕ, ◌≡◌, refl, Option, none, some, List, [], ◌∷◌}
use emt.Word.{ℤ}
use emt.Game.{
  Kind, frame, move_left, move_left_over, move_right, move_right_over, action, player_info, move_up,
  move_down, move_down_over, fall, idle, die, bounce, props, foot_board, hit, sync_gear, Game,
  login, relay, on_join_room, offline,
}

-- A handler is given the rest of the message, behind its ID, and the agent.
unfoldable pub on_frame : ℕ → ℕ → Game → Option Game
unfolding relay
on_frame = relay frame

unfoldable pub on_left : ℕ → ℕ → Game → Option Game
unfolding relay
on_left = relay move_left

unfoldable pub on_left_over : ℕ → ℕ → Game → Option Game
unfolding relay
on_left_over = relay move_left_over

unfoldable pub on_right : ℕ → ℕ → Game → Option Game
unfolding relay
on_right = relay move_right

unfoldable pub on_right_over : ℕ → ℕ → Game → Option Game
unfolding relay
on_right_over = relay move_right_over

unfoldable pub on_action : ℕ → ℕ → Game → Option Game
unfolding relay
on_action = relay action

unfoldable pub on_player_info : ℕ → ℕ → Game → Option Game
unfolding relay
on_player_info = relay player_info

unfoldable pub on_up : ℕ → ℕ → Game → Option Game
unfolding relay
on_up = relay move_up

unfoldable pub on_down : ℕ → ℕ → Game → Option Game
unfolding relay
on_down = relay move_down

unfoldable pub on_down_over : ℕ → ℕ → Game → Option Game
unfolding relay
on_down_over = relay move_down_over

unfoldable pub on_fall : ℕ → ℕ → Game → Option Game
unfolding relay
on_fall = relay fall

unfoldable pub on_idel : ℕ → ℕ → Game → Option Game
unfolding relay
on_idel = relay idle

unfoldable pub on_die : ℕ → ℕ → Game → Option Game
unfolding relay
on_die = relay die

unfoldable pub on_bounce : ℕ → ℕ → Game → Option Game
unfolding relay
on_bounce = relay bounce

unfoldable pub on_props : ℕ → ℕ → Game → Option Game
unfolding relay
on_props = relay props

unfoldable pub on_foot_board : ℕ → ℕ → Game → Option Game
unfolding relay
on_foot_board = relay foot_board

unfoldable pub on_hit : ℕ → ℕ → Game → Option Game
unfolding relay
on_hit = relay hit

unfoldable pub on_sync_gear : ℕ → ℕ → Game → Option Game
unfolding relay
on_sync_gear = relay sync_gear

-- What comes to the pipeline.
pub data Event : Type 0 where
  on_connect on_close : ℕ → Event
  join_room : ℤ → ℤ → ℕ → Event
  sends : Kind → ℕ → ℕ → Event

-- The handlers, as they are registered.
unfoldable pub handler_of : Kind → ℕ → ℕ → Game → Option Game
unfolding on_frame on_left on_left_over on_right on_right_over on_action on_player_info on_up
    on_down on_down_over on_fall on_idel on_die on_bounce on_props on_foot_board on_hit on_sync_gear
handler_of frame = on_frame
handler_of move_left = on_left
handler_of move_left_over = on_left_over
handler_of move_right = on_right
handler_of move_right_over = on_right_over
handler_of action = on_action
handler_of player_info = on_player_info
handler_of move_up = on_up
handler_of move_down = on_down
handler_of move_down_over = on_down_over
handler_of fall = on_fall
handler_of idle = on_idel
handler_of die = on_die
handler_of bounce = on_bounce
handler_of props = on_props
handler_of foot_board = on_foot_board
handler_of hit = on_hit
handler_of sync_gear = on_sync_gear

pub handler_of-relay : (kind : Kind) → handler_of kind ≡ relay kind
unfolding handler_of
handler_of-relay frame = refl
handler_of-relay move_left = refl
handler_of-relay move_left_over = refl
handler_of-relay move_right = refl
handler_of-relay move_right_over = refl
handler_of-relay action = refl
handler_of-relay player_info = refl
handler_of-relay move_up = refl
handler_of-relay move_down = refl
handler_of-relay move_down_over = refl
handler_of-relay fall = refl
handler_of-relay idle = refl
handler_of-relay die = refl
handler_of-relay bounce = refl
handler_of-relay props = refl
handler_of-relay foot_board = refl
handler_of-relay hit = refl
handler_of-relay sync_gear = refl

unfoldable pub handle : Event → Game → Option Game
unfolding handler_of offline on_join_room
handle (on_connect a) g = some (login a g)
handle (on_close a) g = offline a g
handle (join_room rid id a) g = on_join_room rid id a g
handle (sends kind content a) g = handler_of kind content a g

-- The pipeline runs the handlers in turn; a panic ends the program.
abbrev pub after : Option Game → (Game → Option Game) → Option Game
after none k = none
after (some g) k = k g

unfoldable pub run : List Event → Game → Option Game
unfolding handle
run [] g = some g
run (e ∷ es) g = after (handle e g) (run es)
