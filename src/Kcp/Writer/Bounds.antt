-- ===== src/Kcp/Writer/Bounds.antt =====
-- The output buffer of network/kcp/kcp.go is never written past its end, and no packet is longer than
-- the MTU.
use emt.Common.{
  ℕ, ◌+◌, ◌≤◌, ◌≡◌, ap, ◌∙◌, inl, inr, true, List, [], ◌∷◌, length, length-append, arith, ltb,
  Bool-cases, All, All-append,
}
use emt.Kcp.State.{Segment, overhead}
use emt.Kcp.Codec.{header}
use emt.Kcp.Codec.RoundTrip.{header-append, length-header}
use emt.Kcp.Writer.{Writer, Limits, make_space, encode, write_payload, flush_buffer}

-- The buffer is as long as the MTU, and holds a header behind the reserved bytes.
pub record IsWritable (l : Limits) : Type 0 where
  pub whole : l.size ≡ l.mtu
  pub header_fits : l.reserved + 24 ≤ l.mtu

-- A packet, with the reserved bytes, is no longer than the MTU.
abbrev pub IsPacket : Limits → List ℕ → Type 0
IsPacket l p = l.reserved + length p ≤ l.mtu

-- Nothing was written out of range, and all that was sent and is being written is a packet.
pub record IsWithin (l : Limits) (w : Writer) : Type 0 where
  pub room : IsPacket l w.written
  pub fits : w.fits ≡ true
  pub packets : All (IsPacket l) w.sent

pub length-header_append : (s : Segment) (p : List ℕ) → length (header s p) ≡ length p + 24
length-header_append s p =
    ap length (header-append s p)
    ∙ length-append p (header s [])
    ∙ ap (λ n. length p + n) (length-header s)

module _ (l : Limits) (ok : IsWritable l) (w : Writer) (v : IsWithin l w) where
  pub make_space-IsWithin :
      (space : ℕ)
      → l.reserved + space ≤ l.mtu
      → IsWithin l (make_space l space w)
        × (l.reserved + length (make_space l space w).written + space ≤ l.mtu)
  unfolding make_space
  make_space-IsWithin space h =
      elim (Bool-cases (ltb l.mtu (l.reserved + length w.written + space))) [
        | inl over ↦ rw over (
          record {
            room = omega arith;
            fits = v.fits;
            packets = All-append (IsPacket l) w.sent (w.written ∷ []) v.packets (v.room, tt);
          },
          omega arith,
        )
        | inr in_room ↦ rw in_room (v, ground arith)
      ]

  pub encode-IsWithin :
      (s : Segment)
      → l.reserved + length w.written + 24 ≤ l.mtu
      → IsWithin l (encode l s w) × (length (encode l s w).written ≡ length w.written + 24)
  unfolding encode
  encode-IsWithin s h = (
    record {
      room = omega (arith, length-header_append s w.written);
      fits = ground (arith, ok.whole);
      packets = v.packets;
    },
    length-header_append s w.written,
  )

  pub write_payload-IsWithin :
      (bytes : List ℕ)
      → l.reserved + length w.written + length bytes ≤ l.mtu
      → IsWithin l (write_payload l bytes w)
  unfolding write_payload
  write_payload-IsWithin bytes h = record {
    room = omega (arith, length-append {0} w.written bytes);
    fits = ground (arith, ok.whole);
    packets = v.packets;
  }

  pub flush_buffer-IsWithin : IsWithin l (flush_buffer w)
  unfolding flush_buffer
  flush_buffer-IsWithin = elim (Bool-cases (ltb 0 (length w.written))) [
    | inl some_bytes ↦ rw some_bytes (record {
      room = v.room;
      fits = v.fits;
      packets = All-append (IsPacket l) w.sent (w.written ∷ []) v.packets (v.room, tt);
    })
    | inr nothing ↦ rw nothing v
  ]

module _ (l : Limits) (ok : IsWritable l) (w : Writer) (v : IsWithin l w) where
  -- A command with no bytes of its own.
  pub command-IsWithin : (s : Segment) → IsWithin l (encode l s (make_space l overhead w))
  command-IsWithin s =
      let (v', h) = make_space-IsWithin l ok w v 24 ok.header_fits in
      (encode-IsWithin l ok (make_space l 24 w) v' s h).0

  -- A segment and its payload.
  pub segment-IsWithin :
      (s : Segment)
      → l.reserved + (24 + length s.payload) ≤ l.mtu
      → IsWithin l (write_payload l s.payload (encode l s (make_space l (24 + length s.payload) w)))
  segment-IsWithin s fit =
      let (v', h) = make_space-IsWithin l ok w v (24 + length s.payload) fit in
      let spaced = make_space l (24 + length s.payload) w in
      let (v'', e) = encode-IsWithin l ok spaced v' s (omega (arith, h)) in
      write_payload-IsWithin l ok (encode l s spaced) v'' s.payload (omega (arith, h, e))
