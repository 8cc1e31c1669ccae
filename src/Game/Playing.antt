-- ===== src/Game/Playing.antt =====
-- The handlers of example/core/game do not panic while no client asks for a negative room.
use emt.Common.{
  ℕ, zero, suc, ◌∙◌, if◌then◌else◌, ◌<◌, ◌==◌, ◌≡◌, refl, subst, inl, inr, false, Bool-cases,
  Option, none, some, List, [], ◌∷◌, get_elem?, All, length, length-set, arith,
}
use emt.Word.{ℤ, pos, negsuc}
use emt.Game.{
  update, Kind, Message, User, Room, Game, invaild_room, room_at, set_room, login, broadcast_in,
  broadcast, broadcast_from, relay_from, relay, put, join_in, enter, join_from, on_join_room,
  exit_in, forget, offline_from, offline, set_agent_user, get_agent_user, room_count,
}
use emt.Game.Control.{Event, on_connect, on_close, join_room, sends, handler_of-relay, handle, run}

-- -1, which stands for no room, or any number that is not negative.
abbrev pub IsRid : ℤ → Type 0
IsRid (pos n) = Unit {0}
IsRid (negsuc n) = n ≡ 0

-- There are as many rooms as the source declares, and no user is in one with a negative number. An
-- agent's user was made for that agent.
pub record IsPlaying (g : Game) : Type 0 where
  pub all_rooms : length g.rooms ≡ room_count
  pub rids : (p : ℕ) → IsRid (g.at_address p).rid
  pub owners : (a p : ℕ) → g.user_data a ≡ some p → ((g.at_address p).a ≡ a) × (p < g.next)

-- A request that does not ask for a negative room other than -1.
abbrev pub IsFair : Event → Type 0
IsFair (on_connect a) = Unit {0}
IsFair (on_close a) = Unit {0}
IsFair (join_room rid id a) = IsRid rid
IsFair (sends kind content a) = Unit {0}

-- The game goes on, and is as before.
abbrev pub Goes : Option Game → Type 0
Goes o = (g : Game) × (o ≡ some g) × IsPlaying g

get_below {ℓ} :
    {A : Type ℓ} (xs : List A) (n : ℕ) → n < length xs → (x : A) × (get_elem? xs n ≡ some x)
get_below [] n h = absurd (omega arith)
get_below (x ∷ xs) zero h = (x, refl)
get_below (x ∷ xs) (suc n) h = get_below xs n (omega arith)

room_at-some :
    (g : Game) (rid : ℤ)
    → length g.rooms ≡ room_count
    → IsRid rid
    → invaild_room rid ≡ false
    → (r : Room) × (room_at rid g ≡ some r)
unfolding room_at invaild_room
room_at-some g (pos n) l i v = get_below g.rooms n (ground arith)
room_at-some g (negsuc n) l i v = absurd (ground arith)

set_room-IsPlaying : (rid : ℤ) (r : Room) (g : Game) → IsPlaying g → IsPlaying (set_room rid r g)
set_room-IsPlaying (pos n) r g v = record {
  all_rooms = length-set g.rooms n r ∙ v.all_rooms;
  rids = v.rids;
  owners = v.owners;
}
set_room-IsPlaying (negsuc n) r g v = v

update-IsRid :
    (f : ℕ → User) (p : ℕ) (u : User) (q : ℕ)
    → IsRid u.rid
    → IsRid (f q).rid
    → IsRid (update f p u q).rid
update-IsRid f p u q h k = elim (Bool-cases (p == q)) [ inl e ↦ rw e h | inr e ↦ rw e k ]

login-owners :
    (a : ℕ) (g : Game)
    → IsPlaying g
    → (b p : ℕ) → (login a g).user_data b ≡ some p
    → (((login a g).at_address p).a ≡ b) × (p < suc g.next)
unfolding login set_agent_user
login-owners a g v b p e = elim (Bool-cases (a == b)) [
  | inl same ↦ ground (arith, rw same at e)
  | inr other ↦ ground (arith, v.owners b p (rw other at e))
]

pub login-IsPlaying : (a : ℕ) (g : Game) → IsPlaying g → IsPlaying (login a g)
unfolding login set_agent_user
login-IsPlaying a g v = record {
  all_rooms = v.all_rooms;
  rids = λ p. update-IsRid g.at_address g.next _ p refl (v.rids p);
  owners = login-owners a g v;
}

-- Where a handler looks for the room of a number that passed the test, it finds one.
in_room :
    (g g' : Game) (rid : ℤ) (k : Option Room → Option Game)
    → length g'.rooms ≡ room_count
    → IsRid rid
    → IsPlaying g
    → ((r : Room) → Goes (k (some r)))
    → Goes (if invaild_room rid then some g else k (room_at rid g'))
in_room g g' rid k l i v h = elim (Bool-cases (invaild_room rid)) [
  | inl bad ↦ rw bad (g, refl, v)
  | inr good ↦ let (r, e) = room_at-some g' rid l i good in rw (good, e) (h r)
]

broadcast-Goes : (a : ℕ) (m : Message) (g : Game) → IsPlaying g → Goes (broadcast a m g)
unfolding broadcast
broadcast-Goes a m g v = from_user (get_agent_user a g)
  where
    from_user : (o : Option ℕ) → Goes (broadcast_from m o g)
    from_user none = (g, refl, v)
    from_user (some p) =
        in_room g g (g.at_address p).rid (λ o. broadcast_in m o g) v.all_rooms (v.rids p) v
          (λ r. (_, refl, record { all_rooms = v.all_rooms; rids = v.rids; owners = v.owners }))

relay-Goes : (kind : Kind) (content a : ℕ) (g : Game) → IsPlaying g → Goes (relay kind content a g)
unfolding relay
relay-Goes kind content a g v = from_user (get_agent_user a g)
  where
    from_user : (o : Option ℕ) → Goes (relay_from kind content a o g)
    from_user none = (g, refl, v)
    from_user (some p) = broadcast-Goes a _ g v

enter-IsPlaying :
    (rid id : ℤ) (a p : ℕ) (g : Game) → IsRid rid → IsPlaying g → IsPlaying (enter rid id p g)
enter-IsPlaying rid id a p g i v = record {
  all_rooms = v.all_rooms;
  rids = λ q. update-IsRid g.at_address p _ q i (v.rids q);
  owners = λ b q e. ground (arith, v.owners b q e);
}

pub on_join_room-Goes :
    (rid id : ℤ) (a : ℕ) (g : Game) → IsRid rid → IsPlaying g → Goes (on_join_room rid id a g)
unfolding on_join_room
on_join_room-Goes rid id a g i v = from_user (get_agent_user a g)
  where
    from_user : (o : Option ℕ) → Goes (join_from rid id a o g)
    from_user none = (g, refl, v)
    from_user (some p) =
        in_room g g rid (λ o. join_in rid id p a o (enter rid id p g)) v.all_rooms i v
          λ r.
            let w =
              set_room-IsPlaying rid (record r { users = put id (some p) r.users }) _
                (enter-IsPlaying rid id a p g i v) in
            (_, refl, record { all_rooms = w.all_rooms; rids = w.rids; owners = w.owners })

offline-Goes : (a : ℕ) (g : Game) → IsPlaying g → Goes (offline a g)
unfolding offline
offline-Goes a g v = from_user (get_agent_user a g)
  where
    forgets : (id : ℤ) (o : Option Game) → Goes o → Goes (forget id o)
    forgets id none (g', e, w) = absurd (cc e)
    forgets id (some g1) (g', e, w) =
        let q : g' ≡ g1 = cc e in
        let w1 : IsPlaying g1 = subst IsPlaying q w in
        (_, refl, record { all_rooms = w1.all_rooms; rids = w1.rids; owners = w1.owners })

    from_user : (o : Option ℕ) → Goes (offline_from o g)
    from_user none = (g, refl, v)
    from_user (some p) = forgets _ _ (
        in_room g g (g.at_address p).rid (λ o. exit_in (g.at_address p).rid o g) v.all_rooms
          (v.rids p) v (λ r. (_, refl, set_room-IsPlaying (g.at_address p).rid _ g v)))

handle-Goes : (e : Event) (g : Game) → IsFair e → IsPlaying g → Goes (handle e g)
unfolding handle
handle-Goes (on_connect a) g i v = (_, refl, login-IsPlaying a g v)
handle-Goes (on_close a) g i v = offline-Goes a g v
handle-Goes (join_room rid id a) g i v = on_join_room-Goes rid id a g i v
handle-Goes (sends kind content a) g i v =
    rw (handler_of-relay kind) (relay-Goes kind content a g v)

-- Whatever the clients send and in whatever order they come and go, if no request asks for a room
-- below -1: no handler panics, the game goes on, and no user is in a room with a negative number.
pub run-IsPlaying :
    (es : List Event) (g : Game)
    → All IsFair es
    → IsPlaying g
    → (g' : Game) × (run es g ≡ some g') × IsPlaying g'
unfolding run
run-IsPlaying [] g i v = (g, refl, v)
run-IsPlaying (e ∷ es) g (i, is) v =
    let (g1, q, v1) = handle-Goes e g i v in
    let (g2, q2, v2) = run-IsPlaying es g1 is v1 in (g2, rw q q2, v2)
