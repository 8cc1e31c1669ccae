-- ===== src/Udp/Listener.antt =====
-- `Listener` of network/kcp/ln.go. The map, the accept queue and the program hold pointers to sessions;
-- here the sessions stand in a store, and a pointer is an index into it.
pub mod Map
pub mod Pointers
pub mod Reach
pub mod Parity
pub mod Sessions
use emt.Common.{
  same_bytes, ℕ, ◌+◌, Bool, true, false, ◌&&◌, Option, none, some, List, [], ◌∷◌, ◌++◌, length,
  drop, get_elem?, set, ltb, leb, ◌==◌, if◌then◌else◌,
}
use emt.Word.{ℤ}
use emt.Kcp.State.{overhead}
use emt.Fec.Packet.{type_data}
use emt.Udp.Session.{World, Session}
use emt.Udp.Input.{get16, get32, header_size_plus2, kcp_input}
use emt.Udp.Control.{new_session, close}

-- `addr.String()`, as its bytes.
abbrev pub Address : Type 0
Address = List ℕ

-- A session and its `remote`.
pub record Entry : Type 0 where
  pub remote : Address
  pub session : Session

-- `acceptBacklog`.
abbrev pub accept_backlog : ℕ
accept_backlog = 128

-- `IKcpSNOffset`.
abbrev pub sn_offset : ℕ
sn_offset = 12

pub record Listener : Type 0 where
  pub data_shards : ℤ
  pub parity_shards : ℤ
  pub store : List Entry
  pub sessions : List (Address × ℕ)
  pub accepts : List ℕ

-- The map of sessions.
abbrev pub lookup : Address → List (Address × ℕ) → Option ℕ
lookup a [] = none
lookup a ((b, i) ∷ rest) = if same_bytes a b then some i else lookup a rest

abbrev pub remove : Address → List (Address × ℕ) → List (Address × ℕ)
remove a [] = []
remove a ((b, i) ∷ rest) = if same_bytes a b then remove a rest else (b, i) ∷ remove a rest

-- `closeSession`.
unfoldable pub close_session : Address → Listener → Listener
close_session a l = record l { sessions = remove a l.sessions }

-- `Conv` and `SN` of a packet, as `lsess` reads them. A parity packet is not told from a plain one.
unfoldable pub packet_ids : List ℕ → ℕ × ℕ
packet_ids bytes =
    if get16 (drop 4 bytes) == type_data && leb (header_size_plus2 + overhead) (length bytes)
    then (get32 (drop header_size_plus2 bytes), get32 (drop (header_size_plus2 + sn_offset) bytes))
    else (get32 bytes, get32 (drop sn_offset bytes))

-- A session of the store, replaced.
abbrev pub put_session : ℕ → Entry → Session → Listener → Listener
put_session i e s l = record l { store = set l.store i (record e { session = s }) }

abbrev pub closed_entry : ℕ → Entry → Listener → Option (Bool × Session) → Option Listener
closed_entry i e l none = none
closed_entry i e l (some (true, s)) = some (close_session e.remote (put_session i e s l))
closed_entry i e l (some (false, s)) = some (put_session i e s l)

-- `Close` of a session of the listener, called by `lsess`, when nothing else runs in between. (With
-- other goroutines it is a sequence of steps: Udp/Listener/Reach.)
unfoldable pub close_entry : World → ℕ → Entry → Listener → Option Listener
unfolding close_session
close_entry w i e l = closed_entry i e l (close w e.session)

-- A new session enters the store, the map and the accept queue.
abbrev pub enlist : Address → Session → Listener → Listener
enlist a s l = record l {
  store = l.store ++ (record { remote = a; session = s } ∷ []);
  sessions = (a, length l.store) ∷ remove a l.sessions;
  accepts = l.accepts ++ (length l.store ∷ []);
}

-- The last part of `lsess`: a new session, if the accept queue has room.
unfoldable pub open_session : World → List ℕ → Address → Listener → Option Listener
unfolding new_session kcp_input
open_session w bytes a l =
    if ltb (length l.accepts) accept_backlog
    then elim (kcp_input w bytes
        (new_session w.codec (packet_ids bytes).0 l.data_shards l.parity_shards true)) [
          | none ↦ none
          | some s ↦ some (enlist a s l)
        ]
    else some l

-- The middle of `lsess`, for a session that the map has.
unfoldable pub known_session : World → List ℕ → Address → ℕ → Entry → Listener → Option Listener
unfolding packet_ids close_entry open_session
known_session w bytes a i e l =
    let (conv, sn) = packet_ids bytes in
    if conv == e.session.kcp.conv
    then elim (kcp_input w bytes e.session) [ none ↦ none | some s ↦ some (put_session i e s l) ]
    else if sn == 0
    then elim (close_entry w i e l) [ none ↦ none | some l' ↦ open_session w bytes a l' ]
    else some l

abbrev pub with_index : ℕ → Option Entry → Option (ℕ × Entry)
with_index i none = none
with_index i (some e) = some (i, e)

abbrev pub find_entry : Option ℕ → List Entry → Option (ℕ × Entry)
find_entry none store = none
find_entry (some i) store = with_index i (get_elem? store i)

-- `lsess`; `none` where Go panics.
unfoldable pub lsess : World → List ℕ → Address → Listener → Option Listener
unfolding known_session
lsess w bytes a l = elim (find_entry (lookup a l.sessions) l.store) [
  | none ↦ open_session w bytes a l
  | some (i, e) ↦ known_session w bytes a i e l
]

-- `packetInput` of the listener.
unfoldable pub packet_input : World → List ℕ → Address → Listener → Option Listener
unfolding lsess
packet_input w bytes a l = if leb overhead (length bytes) then lsess w bytes a l else some l

abbrev pub accept_from : List ℕ → Listener → Option (ℕ × Listener)
accept_from [] l = none
accept_from (i ∷ rest) l = some (i, record l { accepts = rest })

-- `AcceptKCP`, when it does not wait, but for the errors: the session that waits longest.
unfoldable pub accept : Listener → Option (ℕ × Listener)
accept l = accept_from l.accepts l
