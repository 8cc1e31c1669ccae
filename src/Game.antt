-- ===== src/Game.antt =====
-- example/core/game: the rooms of the example game, as the handlers of one pipeline, which runs them
-- one after another. A user is shared by address between its agent, the table of users and the rooms.
pub mod Control
pub mod Playing
pub mod Rooms
pub mod Tests
use emt.Common.{
  ℕ, suc, ◌+◌, ◌==◌, ◌||◌, Bool, true, Option, none, some, List, [], ◌∷◌, ◌++◌, get_elem?, set, leb,
  replicate, if◌then◌else◌,
}
use emt.Word.{ℤ, pos, negsuc, eqb_ℤ, leb_ℤ, to_u32, to_i32}

-- The messages that are handed on, by their types in the protocol.
pub data Kind : Type 0 where
  frame move_left move_left_over move_right move_right_over action player_info move_up : Kind
  move_down move_down_over fall idle die bounce props foot_board hit sync_gear : Kind

-- What is written to an agent: a message of one of these types with its ID and the rest of it, or
-- `JoinRoomRes` with the seed.
pub data Message : Type 0 where
  relayed : Kind → ℤ → ℕ → Message
  join_room_res : ℕ → Message

-- `user`. Agents are numbers.
pub record User : Type 0 where
  pub a : ℕ
  pub id : ℤ
  pub rid : ℤ

-- A `map[int]*user`: the entries with their keys, each key once; a pointer may be nil.
abbrev pub Users : Type 0
Users = List (ℤ × Option ℕ)

abbrev pub put : ℤ → Option ℕ → Users → Users
put k p [] = (k, p) ∷ []
put k p ((j, q) ∷ us) = if eqb_ℤ k j then (k, p) ∷ us else (j, q) ∷ put k p us

abbrev pub find : ℤ → Users → Option (Option ℕ)
find k [] = none
find k ((j, q) ∷ us) = if eqb_ℤ k j then some q else find k us

-- `room`.
pub record Room : Type 0 where
  pub users : Users
  pub seed : ℕ

-- `Game`, with what the agents keep for it under the key `user`, the users that pointers stand for,
-- and what was written to agents, oldest first. A new user gets the next address.
pub record Game : Type 0 where
  pub users : Users
  pub rooms : List Room
  pub user_data : ℕ → Option ℕ
  pub at_address : ℕ → User
  pub next : ℕ
  pub written : List (ℕ × Message)

abbrev pub room_count : ℕ
room_count = 100

-- `Init`; the clock gives the seeds, here one for all rooms.
unfoldable pub init : ℕ → Game
init seed = record {
  users = [];
  rooms = replicate room_count (record { users = []; seed = seed });
  user_data = λ a. none;
  at_address = λ p. record { a = 0; id = pos 0; rid = negsuc 0 };
  next = 0;
  written = [];
}

-- Assignments through a pointer, and to the data of an agent.
abbrev pub update {ℓ} : {A : Type ℓ} → (ℕ → A) → ℕ → A → ℕ → A
update f p v q = if p == q then v else f q

-- `setAgentUser`, `getAgentUser`.
unfoldable pub set_agent_user : ℕ → ℕ → Game → Game
set_agent_user a p g = record g { user_data = update g.user_data a (some p) }

unfoldable pub get_agent_user : ℕ → Game → Option ℕ
get_agent_user a g = g.user_data a

-- `invaildRoom`.
unfoldable pub invaild_room : ℤ → Bool
invaild_room rid = eqb_ℤ rid (negsuc 0) || leb_ℤ (pos room_count) rid

-- `g.rooms[rid]`; `none` is the panic of an index out of range.
unfoldable pub room_at : ℤ → Game → Option Room
room_at (pos n) g = get_elem? g.rooms n
room_at (negsuc n) g = none

abbrev pub set_room : ℤ → Room → Game → Game
set_room (pos n) r g = record g { rooms = set g.rooms n r }
set_room (negsuc n) r g = g

-- `Login`.
unfoldable pub login : ℕ → Game → Game
unfolding set_agent_user
login a g =
    let u : User = record { a = a; id = pos 0; rid = negsuc 0 } in
    set_agent_user a g.next
      (record g { at_address = update g.at_address g.next u; next = suc g.next })

-- The loop of `broadcast`: a nil user is left out, and the sender is not.
unfoldable pub copies : (ℕ → User) → Message → Users → List (ℕ × Message)
copies at_address m [] = []
copies at_address m ((k, none) ∷ us) = copies at_address m us
copies at_address m ((k, some p) ∷ us) = ((at_address p).a, m) ∷ copies at_address m us

abbrev pub broadcast_in : Message → Option Room → Game → Option Game
broadcast_in m none g = none
broadcast_in m (some r) g = some (record g { written = g.written ++ copies g.at_address m r.users })

-- `broadcast`; `none` is a panic, here and below.
abbrev pub broadcast_from : Message → Option ℕ → Game → Option Game
broadcast_from m none g = some g
broadcast_from m (some p) g =
    let rid = (g.at_address p).rid in
    if invaild_room rid then some g else broadcast_in m (room_at rid g) g

unfoldable pub broadcast : ℕ → Message → Game → Option Game
unfolding get_agent_user invaild_room room_at copies
broadcast a m g = broadcast_from m (get_agent_user a g) g

-- The body that the handlers of ctrl.go share: the message gets the user's id, as an int32.
abbrev pub relay_from : Kind → ℕ → ℕ → Option ℕ → Game → Option Game
relay_from kind content a none g = some g
relay_from kind content a (some p) g =
    broadcast a (relayed kind (to_i32 (to_u32 (g.at_address p).id)) content) g

unfoldable pub relay : Kind → ℕ → ℕ → Game → Option Game
unfolding get_agent_user broadcast
relay kind content a g = relay_from kind content a (get_agent_user a g) g

-- `OnJoinRoom`. The user is entered by its id; it stays entered in a room that it was in before.
abbrev pub join_in : ℤ → ℤ → ℕ → ℕ → Option Room → Game → Option Game
join_in rid id p a none g = none
join_in rid id p a (some r) g =
    let g' = set_room rid (record r { users = put id (some p) r.users }) g in
    some (record g' { written = g'.written ++ ((a, join_room_res r.seed) ∷ []) })

abbrev pub enter : ℤ → ℤ → ℕ → Game → Game
enter rid id p g = record g {
  at_address = update g.at_address p (record (g.at_address p) { id = id; rid = rid });
  users = put id (some p) g.users;
}

abbrev pub join_from : ℤ → ℤ → ℕ → Option ℕ → Game → Option Game
join_from rid id a none g = some g
join_from rid id a (some p) g =
    if invaild_room rid then some g else join_in rid id p a (room_at rid g) (enter rid id p g)

unfoldable pub on_join_room : ℤ → ℤ → ℕ → Game → Option Game
unfolding get_agent_user invaild_room room_at
on_join_room rid id a g = join_from rid id a (get_agent_user a g) g

-- `exit`: the entry with this key is set to nil.
unfoldable pub exit : ℤ → Room → Room
exit id r = record r { users = put id none r.users }

-- `Offline`, which calls `exit` with the number of the room.
abbrev pub exit_in : ℤ → Option Room → Game → Option Game
exit_in rid none g = none
exit_in rid (some r) g = some (set_room rid (exit rid r) g)

abbrev pub forget : ℤ → Option Game → Option Game
forget id none = none
forget id (some g) = some (record g { users = put id none g.users })

abbrev pub offline_from : Option ℕ → Game → Option Game
offline_from none g = some g
offline_from (some p) g =
    let u = g.at_address p in
    forget u.id (if invaild_room u.rid then some g else exit_in u.rid (room_at u.rid g) g)

unfoldable pub offline : ℕ → Game → Option Game
unfolding get_agent_user invaild_room room_at exit
offline a g = offline_from (get_agent_user a g) g
