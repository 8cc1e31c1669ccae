-- ===== src/Game/Tests.antt =====
-- example/core/game with two agents in a room.
use emt.Common.{ℕ, ◌≡◌, refl, Option, none, some, List, [], ◌∷◌, Has}
use emt.Word.{ℤ, pos, negsuc}
use emt.Game.{
  frame, relayed, join_room_res, Game, Room, init, login, relay, on_join_room, offline, room_at,
  find,
}
use emt.Game.Control.{Event, on_connect, join_room, sends, run}
use emt.Game.Playing.{IsPlaying, login-IsPlaying, on_join_room-Goes, run-IsPlaying}
use emt.Game.Rooms.{relay-on_join_room, offline_lem}

init-IsPlaying : (seed : ℕ) → IsPlaying (init seed)
unfolding init
init-IsPlaying seed = record { all_rooms = refl; rids = λ p. refl; owners = λ a p e. absurd (cc e) }

-- Agents 5 and 6 join room 7 as the users 1 and 2, and 5 sends a frame.
abbrev calls : List Event
calls =
    on_connect 5
    ∷ on_connect 6
    ∷ join_room (pos 7) (pos 1) 5
    ∷ join_room (pos 7) (pos 2) 6
    ∷ sends frame 9 5
    ∷ []

abbrev connected : Game
connected = login 6 (login 5 (init 3))

abbrev game_of : Option Game → Game
game_of none = init 0
game_of (some g) = g

abbrev one_in : Game
one_in = game_of (on_join_room (pos 7) (pos 1) 5 connected)

abbrev both_in : Game
both_in = game_of (on_join_room (pos 7) (pos 2) 6 one_in)

written_to_both :
    (game_of (run calls (init 3))).written
    ≡ (5, join_room_res 3)
      ∷ (6, join_room_res 3)
      ∷ (5, relayed frame (pos 1) 9)
      ∷ (6, relayed frame (pos 1) 9)
      ∷ []
unfolding run init login emt.Word.to_i32 emt.Word.to_u32
written_to_both = refl

run-IsPlaying_example : (g' : Game) × (run calls (init 3) ≡ some g') × IsPlaying g'
run-IsPlaying_example =
    run-IsPlaying calls (init 3) (tt, (tt, (tt, (tt, (tt, tt))))) (init-IsPlaying 3)

connected-IsPlaying : IsPlaying connected
connected-IsPlaying = login-IsPlaying 6 _ (login-IsPlaying 5 _ (init-IsPlaying 3))

one_in-IsPlaying : IsPlaying one_in
one_in-IsPlaying =
    let (g', e, v) = on_join_room-Goes (pos 7) (pos 1) 5 connected tt connected-IsPlaying in rw e v

abbrev sent : Game
sent = game_of (relay frame 9 5 both_in)

relay-on_join_room_example : Has (6, relayed frame (pos 1) 9) sent.written
unfolding relay init login on_join_room emt.Word.to_i32 emt.Word.to_u32
relay-on_join_room_example =
    relay-on_join_room frame 9 5 6 0 1 (pos 7) (pos 2) one_in both_in sent one_in-IsPlaying refl
      refl refl refl refl refl

-- User 1 leaves room 7, and stays entered there.
abbrev room_7 : Room
room_7 = record { users = (pos 1, some 0) ∷ (pos 2, some 1) ∷ []; seed = 3 }

offline_lem_example :
    (g' : Game) × (r' : Room) × (offline 5 both_in ≡ some g')
    × (room_at (pos 7) g' ≡ some r')
    × (find (pos 1) r'.users ≡ some (some 0))
    × (g'.user_data 5 ≡ some 0)
unfolding init login on_join_room
offline_lem_example = offline_lem 5 0 room_7 (pos 1) both_in refl refl refl
