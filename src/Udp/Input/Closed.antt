-- ===== src/Udp/Input/Closed.antt =====
-- What a session of network/kcp/udp.go keeps through `packetInput`, from what each of the calls in it
-- keeps.
use emt.Common.{
  refl, ℕ, ◌+◌, ◌≤◌, ◌≡◌, inl, inr, Bool, true, false, ◌&&◌, ◌||◌, Option, none, some, List, [],
  ◌∷◌, length, take, drop, arith, leb, ◌==◌, Bool-cases, All, if◌then◌else◌,
}
use emt.Kcp.State.{Kcp, overhead}
use emt.Kcp.Input.{input}
use emt.Fec.Packet.{type_data, type_parity}
use emt.Fec.Decoder.{fec_decode}
use emt.Udp.Session.{
  World, Session, Counters, output, callback, callbacks, with_kcp, uncork, notify,
}
use emt.Udp.Input.{
  Tally, no_tally, feed, feed_regular, ranger, recovers, decoder_of, decoded, bigger_than, len_data,
  plain_input, count_input, kcp_input, packet_input, get16, header_size_plus2,
}

-- A result has the property; of a panic, `Fails` holds.
abbrev pub Post : Type 0 → {A : Type 0} → (A → Type 0) → Option A → Type 0
Post Fails P none = Fails
Post Fails P (some a) = P a

pub Post-bind :
    (Fails : Type 0) {A B : Type 0} (P : A → Type 0) (Q : B → Type 0) (o : Option A)
    (f : A → Option B)
    → Post Fails P o
    → ((a : A) → P a → Post Fails Q (f a))
    → Post Fails Q (elim o [ none ↦ none | some a ↦ f a ])
Post-bind Fails P Q none f h k = h
Post-bind Fails P Q (some a) f h k = k a h

-- A property of sessions that each of the calls keeps, for packets with the property `L` and bytes
-- with the property `B`.
pub record IsClosed (w : World) (Fails : Type 0) (L B : List ℕ → Type 0) (P : Session → Type 0)
    : Type 0 where
  pub dropped : (n : ℕ) (bytes : List ℕ) → B bytes → B (drop n bytes)
  pub taken : (n : ℕ) (bytes : List ℕ) → B bytes → B (take n bytes)
  pub fed :
      (bytes : List ℕ) (regular : Bool) (s : Session)
      → B bytes
      → P s
      → Post Fails
          (λ r. P (record s { kcp = record r.1 { sent = [] } }))
          (input w.clock bytes regular s.ack_no_delay s.kcp)
  pub runs : (s : Session) → P s → s.kcp.panicked ≡ true → Fails
  pub sends : (packet : List ℕ) (s : Session) → P s → Post Fails P (output w packet s)
  pub decodes :
      (bytes : List ℕ) (s : Session)
      → L bytes
      → B bytes
      → header_size_plus2 ≤ length bytes
      → P s
      → Post Fails
          (λ dec.
            Post Fails
              (λ r. All B r.0 × P (record s { fec_decoder = some r.1 }))
              (fec_decode w.codec w.fec_clock bytes dec))
          (decoder_of w.codec s.fec_decoder)
  pub writes : (s : Session) → P s → P (uncork w s)
  pub notifies : (s : Session) → P s → P (notify s)
  pub counts : (c : Counters) (s : Session) → P s → P (record s { counters = c })

-- The same for the session of a result.
abbrev Keeps : Type 0 → (Session → Type 0) → {A : Type 0} → Option (A × Session) → Type 0
Keeps Fails P o = Post Fails (λ r. P r.1) o

module _ (w : World) (Fails : Type 0) (L B : List ℕ → Type 0) (P : Session → Type 0)
    (cl : IsClosed w Fails L B P) where
  callback_lem : (packet : List ℕ) (s : Session) → P s → Post Fails P (callback w packet s)
  unfolding callback
  callback_lem packet s p =
      elim (Bool-cases (leb (overhead + s.header_size) (s.kcp.reserved + length packet))) [
        | inl whole ↦ rw whole (cl.sends _ s p)
        | inr short ↦ rw short p
      ]

  pub callbacks_lem : (ps : List (List ℕ)) (s : Session) → P s → Post Fails P (callbacks w ps s)
  unfolding callbacks
  callbacks_lem [] s p = p
  callbacks_lem (b ∷ bs) s p =
      Post-bind Fails P P (callback w b s) (callbacks w bs) (callback_lem b s p) (callbacks_lem bs)

  pub with_kcp_lem :
      (k : Kcp) (s : Session)
      → P (record s { kcp = record k { sent = [] } })
      → Post Fails P (with_kcp w k s)
  unfolding with_kcp
  with_kcp_lem k s q = by_flag k.panicked refl
    where
      by_flag :
          (b : Bool)
          → k.panicked ≡ b
          → Post Fails P
              (if b then none else callbacks w k.sent (record s { kcp = record k { sent = [] } }))
      by_flag true e = cl.runs _ q e
      by_flag false e = callbacks_lem k.sent _ q

  feed_lem :
      (bytes : List ℕ) (regular : Bool) (s : Session)
      → B bytes
      → P s
      → Keeps Fails P (feed w bytes regular s)
  unfolding feed
  feed_lem bytes regular s b p =
      Post-bind Fails _ (λ r. P r.1) (input w.clock bytes regular s.ack_no_delay s.kcp) _
        (cl.fed bytes regular s b p)
        (λ r q.
          Post-bind Fails P (λ r. P r.1) (with_kcp w r.1 s) _ (with_kcp_lem r.1 s q) (λ s' p'. p'))

  feed_regular_lem :
      (bytes : List ℕ) (t : Tally) (s : Session)
      → B bytes
      → P s
      → Keeps Fails P (feed_regular w bytes t s)
  unfolding feed_regular
  feed_regular_lem bytes t s b p =
      Post-bind Fails _ (λ r. P r.1) (feed w bytes true s) _ (feed_lem bytes true s b p) (λ r q. q)

  ranger_lem : (r : List ℕ) (t : Tally) (s : Session) → B r → P s → Keeps Fails P (ranger w r t s)
  unfolding ranger
  ranger_lem r t s b p = elim (Bool-cases (leb (get16 r) (length r) && leb 2 (get16 r))) [
    | inl whole ↦ rw whole (
        Post-bind Fails _ (λ r. P r.1) (feed w (drop 2 (take (get16 r) r)) false s) _
          (feed_lem _ false s (cl.dropped 2 _ (cl.taken _ r b)) p) (λ r q. q))
    | inr bad ↦ rw bad p
  ]

  either-Keeps :
      (b : Bool) (o o' : Option (Tally × Session))
      → Keeps Fails P o
      → Keeps Fails P o'
      → Keeps Fails P (if b then o else o')
  either-Keeps true o o' h h' = h
  either-Keeps false o o' h h' = h'

  recovers_lem :
      (rs : List (List ℕ)) (t : Tally) (s : Session)
      → All B rs
      → P s
      → Keeps Fails P (recovers w rs t s)
  unfolding recovers
  recovers_lem [] t s b p = p
  recovers_lem (r ∷ rs) t s (b, bs) p =
      Post-bind Fails (λ r. P r.1) (λ r. P r.1) _ (λ q. recovers w rs q.0 q.1)
        (either-Keeps (leb 2 (length r)) (ranger w r t s)
          (some (record t { fec_errs = t.fec_errs + 1 }, s)) (ranger_lem r t s b p) p)
        (λ q p'. recovers_lem rs q.0 q.1 bs p')

  decoded_lem :
      (bytes : List ℕ) (rs : List (List ℕ)) (s : Session)
      → B bytes
      → All B rs
      → P s
      → Keeps Fails P (decoded w bytes rs s)
  unfolding decoded
  decoded_lem bytes rs s b bs p =
      let flag = get16 (drop 4 bytes) in
      let t : Tally = record no_tally {
        fec_parity_shards = if flag == type_parity then 1 else 0;
      } in
      Post-bind Fails (λ r. P r.1) (λ r. P r.1) _ _
        (either-Keeps (flag == type_data) (feed_regular w (drop header_size_plus2 bytes) t s)
          (some (t, s)) (feed_regular_lem _ t s (cl.dropped header_size_plus2 bytes b) p) p)
        (λ q p'.
          Post-bind Fails (λ r. P r.1) (λ r. P r.1) (recovers w rs q.0 q.1) _
            (recovers_lem rs q.0 q.1 bs p') (λ q' p''. cl.writes _ (cl.notifies q'.1 p'')))

  bigger_than_lem :
      (bytes : List ℕ) (s : Session)
      → L bytes
      → B bytes
      → header_size_plus2 ≤ length bytes
      → P s
      → Keeps Fails P (bigger_than w bytes s)
  unfolding bigger_than
  bigger_than_lem bytes s l b h p =
      Post-bind Fails _ (λ r. P r.1) (decoder_of w.codec s.fec_decoder) _
        (cl.decodes bytes s l b h p)
        (λ dec q.
          Post-bind Fails _ (λ r. P r.1) (fec_decode w.codec w.fec_clock bytes dec) _ q
            (λ r rp. decoded_lem bytes r.0 (record s { fec_decoder = some r.1 }) b rp.0 rp.1))

  len_data_lem :
      (bytes : List ℕ) (s : Session) → L bytes → B bytes → P s → Keeps Fails P (len_data w bytes s)
  unfolding len_data
  len_data_lem bytes s l b p = elim (Bool-cases (leb header_size_plus2 (length bytes))) [
    | inl whole ↦ rw whole (bigger_than_lem bytes s l b (ground (arith, whole)) p)
    | inr short ↦ rw short (cl.counts _ s p)
  ]

  plain_input_lem :
      (bytes : List ℕ) (s : Session) → B bytes → P s → Keeps Fails P (plain_input w bytes s)
  unfolding plain_input
  plain_input_lem bytes s b p =
      Post-bind Fails (λ r. P r.1) (λ r. P r.1) (feed_regular w bytes no_tally s) _
        (feed_regular_lem bytes no_tally s b p) (λ q p'. cl.writes _ (cl.notifies q.1 p'))

  pub kcp_input_lem :
      (bytes : List ℕ) (s : Session) → L bytes → B bytes → P s → Post Fails P (kcp_input w bytes s)
  unfolding kcp_input count_input
  kcp_input_lem bytes s l b p =
      let flag = get16 (drop 4 bytes) in
      Post-bind Fails (λ r. P r.1) P _ _
        (either-Keeps (flag == type_data || flag == type_parity) (len_data w bytes s)
          (plain_input w bytes s) (len_data_lem bytes s l b p) (plain_input_lem bytes s b p))
        (λ q p'. cl.counts _ q.1 p')

  -- A property of sessions that the calls keep is kept by `packetInput`, with error correction and
  -- without.
  pub packet_input_lem :
      (bytes : List ℕ) (s : Session)
      → L bytes
      → B bytes
      → P s
      → Post Fails P (packet_input w bytes s)
  unfolding packet_input
  packet_input_lem bytes s l b p = elim (Bool-cases (leb overhead (length bytes))) [
    | inl whole ↦ rw whole (kcp_input_lem bytes s l b p)
    | inr short ↦ rw short p
  ]
