-- ===== src/Udp/Listener/Reach.antt =====
-- The states that a listener of network/kcp/ln.go comes to.
use emt.Common.{
  ℕ, ◌≡◌, ◌<◌, refl, sym, ap, ◌∙◌, subst, inl, inr, true, false, some, List, [], ◌∷◌, ◌++◌, Has,
  length, length-set, get_elem?, set, get_elem?-set_self, get_elem?-set_ne, same_bytes,
  same_bytes_refl, arith, All,
}
use emt.Word.{ℤ}
use emt.Udp.Session.{World, Session}
use emt.Udp.Listener.{
  Address, Entry, Listener, remove, close_session, put_session, open_session, packet_input, accept,
  accept_from,
}
use emt.Udp.Listener.Map.{remove-IsMap, All-remove}
use emt.Udp.Listener.Pointers.{Points, All-weaken, ℕ-cases, get_elem?-lt}
use emt.Udp.Listener.Sessions.{
  IsListening, put_session-IsListening, open_session-Listens, packet_input-IsListening,
}
use emt.Udp.Input.Open.{from_Post}

-- `serveConn`: a listener with no sessions.
unfoldable pub new_listener : ℤ → ℤ → Listener
new_listener data_shards parity_shards = record {
  data_shards = data_shards;
  parity_shards = parity_shards;
  store = [];
  sessions = [];
  accepts = [];
}

-- A listener, and the addresses of the sessions whose `Close` has begun and not yet come to
-- `closeSession`.
pub record Running : Type 0 where
  pub listener : Listener
  pub closers : List Address

-- What happens to a listener: a packet comes, the program takes a session from the queue, uses a
-- session without closing it, or closes one. `Close` is a sequence of steps: `die` is closed, the
-- protocol sends what waits (a use), and `closeSession` takes the address out of the map; other steps
-- come in between. That `lsess` closes a session while others run is such a sequence too, behind which
-- it comes to its last part with any packet. A step that panics goes nowhere.
pub data Step (w : World) : Running → Running → Type 0 where
  packet :
      {l l' : Listener} {cs : List Address}
      → (bytes : List ℕ) → (a : Address) → packet_input w bytes a l ≡ some l'
      → Step w (record { listener = l; closers = cs }) (record { listener = l'; closers = cs })
  opens :
      {l l' : Listener} {cs : List Address}
      → (bytes : List ℕ) → (a : Address) → open_session w bytes a l ≡ some l'
      → Step w (record { listener = l; closers = cs }) (record { listener = l'; closers = cs })
  accepts :
      {l l' : Listener} {cs : List Address}
      → (i : ℕ) → accept l ≡ some (i, l')
      → Step w (record { listener = l; closers = cs }) (record { listener = l'; closers = cs })
  uses :
      {l : Listener} {cs : List Address}
      → (i : ℕ) → (e : Entry) → (s : Session) → get_elem? l.store i ≡ some e
      → s.die ≡ e.session.die
      → Step w
          (record { listener = l; closers = cs })
          (record { listener = put_session i e s l; closers = cs })
  closes :
      {l : Listener} {cs : List Address}
      → (i : ℕ) → (e : Entry) → get_elem? l.store i ≡ some e
      → e.session.die ≡ false
      → Step w
          (record { listener = l; closers = cs })
          (record {
            listener = put_session i e (record e.session { die = true }) l;
            closers = e.remote ∷ cs;
          })
  forgets :
      {l : Listener}
      → (cs : List Address) → (a : Address) → (cs' : List Address)
      → Step w
          (record { listener = l; closers = cs ++ (a ∷ cs') })
          (record { listener = close_session a l; closers = cs ++ cs' })

pub data Reaches (w : World) (data_shards parity_shards : ℤ) : Running → Type 0 where
  starts :
      Reaches w data_shards parity_shards
        (record { listener = new_listener data_shards parity_shards; closers = [] })
  steps :
      {r r' : Running}
      → Reaches w data_shards parity_shards r
      → Step w r r'
      → Reaches w data_shards parity_shards r'

accepted-IsListening :
    (cs : List Address) (l : Listener) (queue : List ℕ) (i : ℕ) (l' : Listener)
    → IsListening cs l
    → l.accepts ≡ queue
    → accept_from queue l ≡ some (i, l')
    → IsListening cs l'
accepted-IsListening cs l [] i l' v e h = absurd (cc h)
accepted-IsListening cs l (j ∷ rest) i l' v e h =
    let same : record l { accepts = rest } ≡ l' = cc h in
    subst (IsListening cs) same (record {
      addresses = v.addresses;
      points = v.points;
      queued = (subst (λ q. All (λ i. i < length l.store) q) e v.queued).1;
      backlog = omega (arith, v.backlog, ap length e);
    })

-- A pointer behind the first step of `Close`.
Points-closing :
    (cs : List Address) (store : List Entry) (i : ℕ) (e : Entry) (x : Address × ℕ)
    → get_elem? store i ≡ some e
    → Points cs store x
    → Points
        (e.remote ∷ cs)
        (set store i (record e { session = record e.session { die = true } }))
        x
Points-closing cs store i e (a, j) at (f, f_at, f_r, f_d) = elim (ℕ-cases i j) [
  | inl same ↦
      let e' : Entry = record e { session = record e.session { die = true } } in
      let is_e : e ≡ f = cc (sym at ∙ ap (get_elem? store) same ∙ f_at) in
      let address : e.remote ≡ a = ap (λ x. x.remote) is_e ∙ f_r in
      (
        e',
        ap (get_elem? (set store i e')) (sym same)
            ∙ get_elem?-set_self store i e' (get_elem?-lt store i e at),
        address,
        inr (inl address),
      )
  | inr other ↦ (
    f,
    get_elem?-set_ne store _ other ∙ f_at,
    f_r,
    elim f_d [ inl o ↦ inl o | inr c ↦ inr (inr c) ],
  )
]

closing-IsListening :
    (cs : List Address) (i : ℕ) (e : Entry) (l : Listener)
    → IsListening cs l
    → get_elem? l.store i ≡ some e
    → IsListening (e.remote ∷ cs) (put_session i e (record e.session { die = true }) l)
closing-IsListening cs i e l v at = record {
  addresses = v.addresses;
  points =
      All-weaken (Points cs l.store) _ l.sessions (λ x. Points-closing cs l.store i e x at)
        v.points;
  queued = rw length-set v.queued;
  backlog = v.backlog;
}

-- An address that is not the one that went out is still among the rest.
Has-without :
    (a b : Address) (cs cs' : List Address)
    → same_bytes a b ≡ false
    → Has b (cs ++ (a ∷ cs'))
    → Has b (cs ++ cs')
Has-without a b [] cs' n (inl e) =
    absurd (cc (sym (same_bytes_refl b) ∙ ap (λ r. same_bytes r b) (sym e) ∙ n))
Has-without a b [] cs' n (inr h) = h
Has-without a b (c ∷ cs) cs' n (inl e) = inl e
Has-without a b (c ∷ cs) cs' n (inr h) = inr (Has-without a b cs cs' n h)

Points-forgotten :
    (a : Address) (cs cs' : List Address) (store : List Entry) (x : Address × ℕ)
    → Points (cs ++ (a ∷ cs')) store x × (same_bytes a x.0 ≡ false)
    → Points (cs ++ cs') store x
Points-forgotten a cs cs' store (b, i) ((e, at, r, d), n) =
    (e, at, r, elim d [ inl o ↦ inl o | inr h ↦ inr (Has-without a b cs cs' n h) ])

forgotten-IsListening :
    (a : Address) (cs cs' : List Address) (l : Listener)
    → IsListening (cs ++ (a ∷ cs')) l
    → IsListening (cs ++ cs') (close_session a l)
unfolding close_session
forgotten-IsListening a cs cs' l v = record {
  addresses = remove-IsMap a l.sessions v.addresses;
  points =
      All-weaken _ (Points (cs ++ cs') l.store) (remove a l.sessions)
        (λ x. Points-forgotten a cs cs' l.store x)
        (All-remove (Points (cs ++ (a ∷ cs')) l.store) a l.sessions v.points);
  queued = v.queued;
  backlog = v.backlog;
}

abbrev pub IsRunning : Running → Type 0
IsRunning r = IsListening r.closers r.listener

step-IsRunning : (w : World) {r r' : Running} → Step w r r' → IsRunning r → IsRunning r'
step-IsRunning w (packet {cs = cs} bytes a e) v = packet_input-IsListening cs w bytes a _ _ v e
step-IsRunning w (opens {l = l} {l' = l'} {cs = cs} bytes a e) v =
    from_Post Unit (IsListening cs) _ l' e (open_session-Listens cs w bytes a l v)
step-IsRunning w (accepts {l = l} {cs = cs} i e) v =
    accepted-IsListening cs l l.accepts i _ v refl (unfold accept in e)
step-IsRunning w (uses {l = l} {cs = cs} i e s at d) v = put_session-IsListening cs w i e l v at s d
step-IsRunning w (closes {l = l} {cs = cs} i e at d) v = closing-IsListening cs i e l v at
step-IsRunning w (forgets {l = l} cs a cs') v = forgotten-IsListening a cs cs' l v

-- In every state that a listener comes to, by packets from any addresses, and calls of the program in
-- any order, also between the steps of any number of calls of `Close`: no address stands twice in its
-- map; each stands for a session in the store that has that address, and the session is open, or a call
-- of `Close` is about to take the address out of the map; and the accept queue holds no more than 128
-- sessions, all of the store.
pub Reaches-IsListening :
    (w : World) (data_shards parity_shards : ℤ) (r : Running)
    → Reaches w data_shards parity_shards r
    → IsListening r.closers r.listener
Reaches-IsListening w d p r starts =
    unfold new_listener in
    record { addresses = tt; points = tt; queued = tt; backlog = omega arith }
Reaches-IsListening w d p r (steps before s) =
    step-IsRunning w s (Reaches-IsListening w d p _ before)
