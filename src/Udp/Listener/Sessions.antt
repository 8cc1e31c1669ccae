-- ===== src/Udp/Listener/Sessions.antt =====
-- The listener of network/kcp/ln.go keeps its map, its accept queue and its sessions together.
use emt.Common.{
  subst, ℕ, suc, ◌≡◌, ◌<◌, ◌≤◌, refl, ap, inl, inr, Bool, true, false, Option, none, some, List, [],
  ◌∷◌, ◌++◌, length, length-append, get_elem?, set, length-set, arith, ltb, leb, ◌==◌, Bool-cases,
  All, All-append, if◌then◌else◌,
}
use emt.Kcp.State.{overhead}
use emt.Udp.Session.{World, Session}
use emt.Udp.Input.{kcp_input}
use emt.Udp.Input.Closed.{Post, Post-bind}
use emt.Udp.Input.Open.{from_Post, kcp_input-settings}
use emt.Udp.Control.{new_session, close, closed, close_first}
use emt.Udp.Listener.{
  Address, Entry, closed_entry, with_index, accept_backlog, Listener, lookup, remove, close_session,
  packet_ids, put_session, close_entry, enlist, open_session, known_session, find_entry, lsess,
  packet_input,
}
use emt.Udp.Listener.Map.{IsMap, lookup-remove, remove-IsMap, All-remove}
use emt.Udp.Listener.Pointers.{
  Points, All-weaken, get_elem?-append, get_elem?-last, Points-set, Points-other,
}

-- No address stands twice in the map; each stands for a session with that address, which is open, or
-- the address is one that a call of `Close` is about to take out; the accept queue holds sessions of
-- the store, and no more than it takes.
pub record IsListening (closers : List Address) (l : Listener) : Type 0 where
  pub addresses : IsMap l.sessions
  pub points : All (Points closers l.store) l.sessions
  pub queued : All (λ i. i < length l.store) l.accepts
  pub backlog : length l.accepts ≤ accept_backlog

abbrev pub Listens : List Address → Option Listener → Type 0
Listens cs o = Post Unit (IsListening cs) o

-- A result, from what it is when it is there.
Post-of :
    {A : Type 0} (P : A → Type 0) (o : Option A) → ((a : A) → o ≡ some a → P a) → Post Unit P o
Post-of P none f = tt
Post-of P (some a) f = f a refl

kcp_input-die :
    (w : World) (bytes : List ℕ) (s : Session)
    → Post Unit (λ s'. s'.die ≡ s.die) (kcp_input w bytes s)
kcp_input-die w bytes s =
    Post-of (λ s'. s'.die ≡ s.die) (kcp_input w bytes s)
      (λ s' e. ap (λ t. t.die) (kcp_input-settings w bytes s s' e))

module _ (cs : List Address) (w : World) (i : ℕ) (e : Entry) (l : Listener) (v : IsListening cs l)
    (at : get_elem? l.store i ≡ some e) where
  queued-set : (e' : Entry) → All (λ j. j < length (set l.store i e')) l.accepts
  queued-set e' = rw length-set v.queued

  pub put_session-IsListening :
      (s : Session) → s.die ≡ e.session.die → IsListening cs (put_session i e s l)
  put_session-IsListening s d =
      let e' = record e { session = s } in
      record {
        addresses = v.addresses;
        points =
            All-weaken (Points cs l.store) (Points cs (set l.store i e')) l.sessions
              (λ x. Points-set cs l.store i e e' x at refl d) v.points;
        queued = queued-set e';
        backlog = v.backlog;
      }

  closed-IsListening : (s : Session) → IsListening cs (close_session e.remote (put_session i e s l))
  unfolding close_session
  closed-IsListening s =
      let e' = record e { session = s } in
      record {
        addresses = remove-IsMap e.remote l.sessions v.addresses;
        points =
            All-weaken _ (Points cs (set l.store i e')) (remove e.remote l.sessions)
              (λ x. Points-other cs l.store i e e' x at)
              (All-remove (Points cs l.store) e.remote l.sessions v.points);
        queued = queued-set e';
        backlog = v.backlog;
      }

  closed_entry-Listens : (o : Option Session) → Listens cs (closed_entry i e l (closed o))
  closed_entry-Listens none = tt
  closed_entry-Listens (some s) = closed-IsListening s

  close-Listens :
      (dead : Bool)
      → Listens cs (
          closed_entry i e l
            (if dead then some (false, e.session) else closed (close_first w e.session)))
  close-Listens true = put_session-IsListening e.session refl
  close-Listens false = closed_entry-Listens (close_first w e.session)

  -- `Close` of a session of the listener.
  pub close_entry-Listens : Listens cs (close_entry w i e l)
  unfolding close_entry close
  close_entry-Listens = close-Listens e.session.die

module _ (cs : List Address) (w : World) (bytes : List ℕ) (a : Address) where
  enlist-IsListening :
      (s : Session) (l : Listener)
      → IsListening cs l
      → length l.accepts < accept_backlog
      → s.die ≡ false
      → IsListening cs (enlist a s l)
  enlist-IsListening s l v room d =
      let new : Entry = record { remote = a; session = s } in
      let longer : length (l.store ++ (new ∷ [])) ≡ suc (length l.store) =
        omega (arith, length-append l.store (new ∷ [])) in
      record {
        addresses = (lookup-remove a l.sessions, remove-IsMap a l.sessions v.addresses);
        points = (
          (new, get_elem?-last l.store new, refl, inl d),
          All-weaken _ (Points cs (l.store ++ (new ∷ []))) (remove a l.sessions)
              (λ x p. Points-append l.store new x p.0)
              (All-remove (Points cs l.store) a l.sessions v.points),
        );
        queued = rw longer (
            All-append (λ i. i < suc (length l.store)) l.accepts (length l.store ∷ [])
              (All-weaken (λ i. i < length l.store) (λ i. i < suc (length l.store)) l.accepts
                (λ i h. omega arith) v.queued)
              (omega arith, tt));
        backlog = omega (arith, length-append l.accepts (length l.store ∷ []));
      }
    where
      Points-append :
          (store : List Entry) (new : Entry) (x : Address × ℕ)
          → Points cs store x
          → Points cs (store ++ (new ∷ [])) x
      Points-append store new (b, j) (e, e_at, r, d) =
          (e, get_elem?-append store (new ∷ []) j e e_at, r, d)

  enlisted-Listens :
      (l : Listener) (o : Option Session)
      → IsListening cs l
      → length l.accepts < accept_backlog
      → Post Unit (λ s. s.die ≡ false) o
      → Listens cs (elim o [ none ↦ none | some s ↦ some (enlist a s l) ])
  enlisted-Listens l none v room d = tt
  enlisted-Listens l (some s) v room d = enlist-IsListening s l v room d

  pub open_session-Listens :
      (l : Listener) → IsListening cs l → Listens cs (open_session w bytes a l)
  unfolding open_session
  open_session-Listens l v = elim (Bool-cases (ltb (length l.accepts) accept_backlog)) [
    | inl room ↦ rw room (
        enlisted-Listens l _ v (ground arith) (
          unfold new_session in
          kcp_input-die w bytes
            (new_session w.codec (packet_ids bytes).0 l.data_shards l.parity_shards true)))
    | inr full ↦ rw full v
  ]

  put-Listens :
      (i : ℕ) (e : Entry) (l : Listener) (o : Option Session)
      → IsListening cs l
      → get_elem? l.store i ≡ some e
      → Post Unit (λ s. s.die ≡ e.session.die) o
      → Listens cs (elim o [ none ↦ none | some s ↦ some (put_session i e s l) ])
  put-Listens i e l none v at d = tt
  put-Listens i e l (some s) v at d = put_session-IsListening cs w i e l v at s d

  known_session-Listens :
      (i : ℕ) (e : Entry) (l : Listener)
      → IsListening cs l
      → get_elem? l.store i ≡ some e
      → Listens cs (known_session w bytes a i e l)
  unfolding known_session
  known_session-Listens i e l v at =
      elim (Bool-cases ((packet_ids bytes).0 == e.session.kcp.conv)) [
        | inl same ↦ rw same (put-Listens i e l _ v at (kcp_input-die w bytes e.session))
        | inr other ↦ elim (Bool-cases ((packet_ids bytes).1 == 0)) [
          | inl first ↦
              rw (other, first)
                (Post-bind Unit (IsListening cs) (IsListening cs) (close_entry w i e l)
                  (open_session w bytes a) (close_entry-Listens cs w i e l v at)
                  open_session-Listens)
          | inr later ↦ rw (other, later) v
        ]
      ]

  found-Listens :
      (l : Listener) (o : Option ℕ)
      → IsListening cs l
      → Listens cs (elim (find_entry o l.store) [
        | none ↦ open_session w bytes a l
        | some (i, e) ↦ known_session w bytes a i e l
      ])
  found-Listens l none v = open_session-Listens l v
  found-Listens l (some i) v = at-Listens i (get_elem? l.store i) refl
    where
      at-Listens :
          (i : ℕ) (o : Option Entry)
          → get_elem? l.store i ≡ o
          → Listens cs (elim (with_index i o) [
            | none ↦ open_session w bytes a l
            | some (i, e) ↦ known_session w bytes a i e l
          ])
      at-Listens i none at = open_session-Listens l v
      at-Listens i (some e) at = known_session-Listens i e l v at

  -- Whatever packet comes from whatever address, the listener stays well behind `packetInput`.
  pub packet_input-IsListening :
      (l l' : Listener) → IsListening cs l → packet_input w bytes a l ≡ some l' → IsListening cs l'
  unfolding packet_input lsess
  packet_input-IsListening l l' v e = elim (Bool-cases (leb overhead (length bytes))) [
    | inl whole ↦
        from_Post Unit (IsListening cs) _ l' (rw whole at e)
          (found-Listens l (lookup a l.sessions) v)
    | inr short ↦ let same : l ≡ l' = cc (rw short at e) in subst (IsListening cs) same v
  ]
