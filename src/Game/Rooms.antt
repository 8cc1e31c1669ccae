-- ===== src/Game/Rooms.antt =====
-- Who gets what in a room of example/core/game, and what a leaving user leaves behind.
use emt.Common.{
  ℕ, zero, suc, ◌==◌, ◌≡◌, ◌↔◌, refl, ap, sym, ◌∙◌, subst, inl, inr, true, false, Bool-cases,
  Option, none, some, List, [], ◌∷◌, ◌++◌, Has, get_elem?-set_self, get_elem?, length, ◌<◌, arith,
  if◌then◌else◌,
}
use emt.Word.{ℤ, pos, negsuc, eqb_ℤ, to_u32, to_i32}
use emt.Game.{
  Kind, Message, relayed, join_room_res, User, Users, Room, Game, invaild_room, room_at, set_room,
  copies, relay, put, find, join_in, enter, on_join_room, exit, offline,
}
use emt.Game.Playing.{IsPlaying}

eqb_ℤ_iff : (a b : ℤ) → (eqb_ℤ a b ≡ true) ↔ (a ≡ b)
eqb_ℤ_iff a b = ground arith

find-put :
    (k j : ℤ) (p : Option ℕ) (us : Users)
    → find k (put j p us) ≡ (if eqb_ℤ k j then some p else find k us)
find-put k j p [] = refl
find-put k j p ((i, q) ∷ us) =
    ground (arith, eqb_ℤ_iff k j, eqb_ℤ_iff k i, eqb_ℤ_iff j i, find-put k j p us)

-- Whoever was entered gets a copy.
copies-put :
    (at_address : ℕ → User) (m : Message) (k : ℤ) (p : ℕ) (us : Users)
    → Has ((at_address p).a, m) (copies at_address m (put k (some p) us))
unfolding copies
copies-put f m k p [] = inl refl
copies-put f m k p ((j, none) ∷ us) = elim (Bool-cases (eqb_ℤ k j)) [
  | inl same ↦ rw same (inl refl)
  | inr other ↦ rw other (copies-put f m k p us)
]
copies-put f m k p ((j, some q) ∷ us) = elim (Bool-cases (eqb_ℤ k j)) [
  | inl same ↦ rw same (inl refl)
  | inr other ↦ rw other (inr (copies-put f m k p us))
]

Has-append : {A : Type 0} (x : A) (xs ys : List A) → Has x ys → Has x (xs ++ ys)
Has-append x [] ys h = h
Has-append x (y ∷ xs) ys h = inr (Has-append x xs ys h)

get-length {ℓ} :
    {A : Type ℓ} (xs : List A) (n : ℕ) {x : A} → get_elem? xs n ≡ some x → n < length xs
get-length [] n e = absurd (cc e)
get-length (y ∷ ys) zero e = omega arith
get-length (y ∷ ys) (suc n) e = omega (arith, get-length ys n e)

room_at-set_room :
    (rid : ℤ) (r r' : Room) (g : Game)
    → room_at rid g ≡ some r
    → room_at rid (set_room rid r' g) ≡ some r'
unfolding room_at
room_at-set_room (pos n) r r' g e = get_elem?-set_self g.rooms n r' (get-length g.rooms n e)
room_at-set_room (negsuc n) r r' g e = absurd (cc e)

-- A client that asks for a negative room other than -1 stops the program.
pub on_join_room_negative :
    (n a p : ℕ) (id : ℤ) (g : Game)
    → g.user_data a ≡ some p
    → on_join_room (negsuc (suc n)) id a g ≡ none
unfolding on_join_room
on_join_room_negative n a p id g e =
    let ok : invaild_room (negsuc (suc n)) ≡ false = ground arith in rw (e, ok) refl

-- The room has the user, which is still the agent's, and each agent has the user it had.
abbrev HasJoined : ℤ → ℤ → ℕ → ℕ → Game → Game → Type 0
HasJoined rid id b q g g1 =
    (r : Room) × (room_at rid g1 ≡ some (record r { users = put id (some q) r.users }))
    × ((g1.at_address q).a ≡ b)
    × ((a : ℕ) → g1.user_data a ≡ g.user_data a)

set_room-user_data :
    (rid : ℤ) (r : Room) (g : Game) (a : ℕ) → (set_room rid r g).user_data a ≡ g.user_data a
set_room-user_data (pos n) r g a = refl
set_room-user_data (negsuc n) r g a = refl

set_room-at_address : (rid : ℤ) (r : Room) (g : Game) → (set_room rid r g).at_address ≡ g.at_address
set_room-at_address (pos n) r g = refl
set_room-at_address (negsuc n) r g = refl

room_at-same_rooms : (rid : ℤ) (g h : Game) → g.rooms ≡ h.rooms → room_at rid g ≡ room_at rid h
unfolding room_at
room_at-same_rooms (pos n) g h e = ap (λ rs. get_elem? rs n) e
room_at-same_rooms (negsuc n) g h e = refl

enter-a :
    (rid id : ℤ) (q b : ℕ) (g : Game)
    → (g.at_address q).a ≡ b
    → ((enter rid id q g).at_address q).a ≡ b
enter-a rid id q b g e = let same : (q == q) ≡ true = ground arith in rw same e

join_in-HasJoined :
    (rid id : ℤ) (b q : ℕ) (o : Option Room) (g g1 : Game)
    → (g.at_address q).a ≡ b
    → room_at rid g ≡ o
    → join_in rid id q b o (enter rid id q g) ≡ some g1
    → HasJoined rid id b q g g1
join_in-HasJoined rid id b q none g g1 owner e j = absurd (cc j)
join_in-HasJoined rid id b q (some r) g g1 owner e j =
    let r' : Room = record r { users = put id (some q) r.users } in
    let h : Game = set_room rid r' (enter rid id q g) in
    let h' : Game = record h { written = h.written ++ ((b, join_room_res r.seed) ∷ []) } in
    let same : h' ≡ g1 = cc j in
    subst (HasJoined rid id b q g) same (
      r,
      room_at-same_rooms rid h' h refl
          ∙ room_at-set_room rid r r' (enter rid id q g)
              (room_at-same_rooms rid (enter rid id q g) g refl ∙ e),
      ap (λ (f : ℕ → User). (f q).a) (set_room-at_address rid r' (enter rid id q g))
          ∙ enter-a rid id q b g owner,
      λ a. set_room-user_data rid r' (enter rid id q g) a,
    )

on_join_room-HasJoined :
    (rid id : ℤ) (b q : ℕ) (g g1 : Game)
    → IsPlaying g
    → g.user_data b ≡ some q
    → invaild_room rid ≡ false
    → on_join_room rid id b g ≡ some g1
    → HasJoined rid id b q g g1
unfolding on_join_room
on_join_room-HasJoined rid id b q g g1 v d good e =
    join_in-HasJoined rid id b q (room_at rid g) g g1 (v.owners b q d).0 refl (rw (d, good) at e)

relay-copies :
    (kind : Kind) (content a p : ℕ) (r : Room) (g g2 : Game)
    → g.user_data a ≡ some p
    → invaild_room (g.at_address p).rid ≡ false
    → room_at (g.at_address p).rid g ≡ some r
    → relay kind content a g ≡ some g2
    → g2.written
      ≡ g.written
        ++ copies g.at_address (relayed kind (to_i32 (to_u32 (g.at_address p).id)) content) r.users
unfolding relay
relay-copies kind content a p r g g2 d good e h =
    let m = relayed kind (to_i32 (to_u32 (g.at_address p).id)) content in
    let same : record g { written = g.written ++ copies g.at_address m r.users } ≡ g2 =
      cc (rw (d, d, good, e) at h) in
    sym (ap (λ (k : Game). k.written) same)

-- After an agent has joined a room, it gets each message that an agent in that room sends next, with
-- the sender's id in it.
pub relay-on_join_room :
    (kind : Kind) (content a b p q : ℕ) (rid id : ℤ) (g g1 g2 : Game)
    → IsPlaying g
    → g.user_data a ≡ some p
    → g.user_data b ≡ some q
    → invaild_room rid ≡ false
    → on_join_room rid id b g ≡ some g1
    → (g1.at_address p).rid ≡ rid
    → relay kind content a g1 ≡ some g2
    → Has (b, relayed kind (to_i32 (to_u32 (g1.at_address p).id)) content) g2.written
relay-on_join_room kind content a b p q rid id g g1 g2 v da db good j there h =
    let (r, at, owner, same) = on_join_room-HasJoined rid id b q g g1 v db good j in
    let m = relayed kind (to_i32 (to_u32 (g1.at_address p).id)) content in
    let out =
      relay-copies kind content a p (record r { users = put id (some q) r.users }) g1 g2
        (same a ∙ da) (ap invaild_room there ∙ good) (ap (λ n. room_at n g1) there ∙ at) h in
    subst (Has (b, m)) (sym out) (
      Has-append (b, m) g1.written _
        (subst (λ (n : ℕ). Has (n, m) (copies g1.at_address m (put id (some q) r.users))) owner
          (copies-put g1.at_address m id q r.users)))

-- When an agent in a room goes offline, the entry of the room that is set to nil is the one whose key
-- is the number of the room; every other entry stays, and so does the agent's user.
pub offline_lem :
    (a p : ℕ) (r : Room) (k : ℤ) (g : Game)
    → g.user_data a ≡ some p
    → invaild_room (g.at_address p).rid ≡ false
    → room_at (g.at_address p).rid g ≡ some r
    → (g' : Game) × (r' : Room) × (offline a g ≡ some g')
      × (room_at (g.at_address p).rid g' ≡ some r')
      × (find k r'.users ≡ (if eqb_ℤ k (g.at_address p).rid then some none else find k r.users))
      × (g'.user_data a ≡ some p)
unfolding offline exit
offline_lem a p r k g d good e =
    let rid = (g.at_address p).rid in
    let h : Game = set_room rid (exit rid r) g in
    let g' : Game = record h { users = put (g.at_address p).id none h.users } in
    (
      g',
      exit rid r,
      rw (d, good, e) refl,
      room_at-same_rooms rid g' h refl ∙ room_at-set_room rid r (exit rid r) g e,
      find-put k rid none r.users,
      set_room-user_data rid (exit rid r) g a ∙ d,
    )
