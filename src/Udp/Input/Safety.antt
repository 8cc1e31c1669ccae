-- ===== src/Udp/Input/Safety.antt =====
-- A session of network/kcp/udp.go takes every packet.
use emt.Common.{
  ℕ, ◌≤◌, ◌≡◌, refl, Bool, true, false, Option, none, some, List, [], ◌∷◌, length, length-drop,
  length-take, arith, All, All-drop, All-take, if◌then◌else◌,
}
use emt.Word.{IsByte}
use emt.Kcp.State.{Kcp}
use emt.Kcp.Flush.Packets.{IsPacketed}
use emt.Kcp.Input.{input}
use emt.Kcp.Invariant.{same_flow}
use emt.Kcp.Invariant.Packet.{IsWell, input-IsWell}
use emt.Fec.Packet.{mtu_limit}
use emt.Fec.Decoder.{Decoder, new_decoder, fec_decode}
use emt.Fec.Decoder.Sizes.{Fits, KeepsSize, AreKept, AllFits, fec_decode-AllFits}
use emt.Fec.Decoder.Octets.{GivesOctets, Yields, fec_decode-Yields}
use emt.Udp.Session.{World, Session, output, uncork, notify, notify_write, can_write}
use emt.Udp.Input.{decoder_of, packet_input, header_size_plus2}
use emt.Udp.Input.Closed.{Post, IsClosed, packet_input_lem}

-- The packets that the decoder keeps, if there is one, fit a buffer.
abbrev pub IsKept : Option Decoder → Type 0
IsKept none = Unit
IsKept (some dec) = AreKept dec

-- The connection is well and has not panicked, packets are sent without error correction, and those
-- that the decoder keeps fit a buffer.
pub record IsPlain (s : Session) : Type 0 where
  pub well : IsWell s.kcp
  pub plain : s.fec_encoder ≡ none
  pub kept : IsKept s.fec_decoder

-- Octets, and no more than a buffer of the pool takes.
abbrev pub IsPacketBytes : List ℕ → Type 0
IsPacketBytes bytes = All IsByte bytes × Fits bytes

output-IsPlain :
    (w : World) (packet : List ℕ) (s : Session) → IsPlain s → Post ⊥ IsPlain (output w packet s)
unfolding output
output-IsPlain w packet s p = rw p.plain (record { well = p.well; plain = refl; kept = p.kept })

either-IsPlain :
    (b : Bool) (s s' : Session) → IsPlain s → IsPlain s' → IsPlain (if b then s else s')
either-IsPlain true s s' p p' = p
either-IsPlain false s s' p p' = p'

notify_write-IsPlain : (s : Session) → IsPlain s → IsPlain (notify_write s)
unfolding notify_write
notify_write-IsPlain s p =
    either-IsPlain (can_write s.kcp) _ s (record { well = p.well; plain = p.plain; kept = p.kept })
      p

notify-IsPlain : (s : Session) → IsPlain s → IsPlain (notify s)
unfolding notify
notify-IsPlain s p = notify_write-IsPlain _ (
    either-IsPlain _ (record s { read_event = true }) s
      (record { well = p.well; plain = p.plain; kept = p.kept }) p)

uncork-IsPlain : (w : World) (s : Session) → IsPlain s → IsPlain (uncork w s)
unfolding uncork
uncork-IsPlain w s p = record { well = p.well; plain = p.plain; kept = p.kept }

-- The callback takes away what the protocol sent.
taken_away : (k : Kcp) → IsPacketed k → IsPacketed (record k { sent = [] })
taken_away k v = record {
  whole = v.whole;
  mss = v.mss;
  some_mss = v.some_mss;
  queue = v.queue;
  buf = v.buf;
  running = v.running;
  packets = tt;
}

input-Post :
    (w : World) (bytes : List ℕ) (regular : Bool) (s : Session)
    → IsPacketBytes bytes
    → IsPlain s
    → Post ⊥
        (λ r. IsPlain (record s { kcp = record r.1 { sent = [] } }))
        (input w.clock bytes regular s.ack_no_delay s.kcp)
input-Post w bytes regular s (b, l) p =
    let (code, k, e, v) = input-IsWell w.clock bytes regular s.ack_no_delay s.kcp l b p.well in
    rw e (record {
      well = record {
        connected = same_flow k _ refl v.connected;
        packeted = taken_away k v.packeted;
      };
      plain = p.plain;
      kept = p.kept;
    })

both_All : (rs : List (List ℕ)) → All (All IsByte) rs → All Fits rs → All IsPacketBytes rs
both_All [] h k = tt
both_All (r ∷ rs) (h, hs) (k, ks) = ((h, k), both_All rs hs ks)

module _ (w : World) (octets : GivesOctets w.codec) (sized : KeepsSize w.codec)
    (one_one : w.codec.accepts 1 1 ≡ true) where
  decoded-Post :
      (s : Session) (o : Option (List (List ℕ) × Decoder))
      → Yields o
      → AllFits o
      → IsPlain s
      → Post ⊥ (λ r. All IsPacketBytes r.0 × IsPlain (record s { fec_decoder = some r.1 })) o
  decoded-Post s none y f p = y
  decoded-Post s (some (rs, dec)) y (fs, kept) p =
      (both_All rs y fs, record { well = p.well; plain = p.plain; kept = kept })

  decodes-Post :
      (bytes : List ℕ) (s : Session) (decoder : Option Decoder)
      → Fits bytes
      → header_size_plus2 ≤ length bytes
      → IsKept decoder
      → IsPlain s
      → Post ⊥
          (λ dec.
            Post ⊥
              (λ r. All IsPacketBytes r.0 × IsPlain (record s { fec_decoder = some r.1 }))
              (fec_decode w.codec w.fec_clock bytes dec))
          (decoder_of w.codec decoder)
  decodes-Post bytes s (some dec) l h v p =
      decoded-Post s _ (fec_decode-Yields w.codec octets w.fec_clock bytes dec (omega (arith, h)) l)
        (fec_decode-AllFits w.codec sized w.fec_clock bytes dec l v) p
  decodes-Post bytes s none l h v p =
      unfold new_decoder in
      rw one_one (
        decoded-Post s _ (fec_decode-Yields w.codec octets w.fec_clock bytes _ (omega (arith, h)) l)
          (fec_decode-AllFits w.codec sized w.fec_clock bytes _ l tt) p)

  IsPlain-IsClosed : IsClosed w ⊥ Fits IsPacketBytes IsPlain
  IsPlain-IsClosed = record {
    dropped = λ n bytes (b, l). (All-drop IsByte n bytes b, omega (arith, length-drop {0} n bytes));
    taken = λ n bytes (b, l). (All-take IsByte n bytes b, omega (arith, length-take n bytes));
    fed = input-Post w;
    runs = λ s p e. absurd (cc (p.well.packeted.running, e));
    sends = output-IsPlain w;
    decodes = λ bytes s l b h p. decodes-Post bytes s s.fec_decoder l h p.kept p;
    writes = uncork-IsPlain w;
    notifies = notify-IsPlain;
    counts = λ c s p. record { well = p.well; plain = p.plain; kept = p.kept };
  }

  -- With a codec that gives octets, makes the shards no longer than they are, and takes one data and
  -- one parity shard: a session that sends without error correction, whose connection is well and whose
  -- decoder keeps packets that fit a buffer, takes every packet of octets of up to 1500 bytes, well
  -- formed or not, with error correction or without. Neither the decoder, nor the reading of the
  -- segments, nor the protocol panics, and all that holds of the session again.
  pub packet_input-IsPlain :
      (bytes : List ℕ) (s : Session)
      → length bytes ≤ mtu_limit
      → All IsByte bytes
      → IsPlain s
      → (s' : Session) × (packet_input w bytes s ≡ some s') × IsPlain s'
  packet_input-IsPlain bytes s l b p =
      from_Post (packet_input w bytes s)
        (packet_input_lem w ⊥ Fits IsPacketBytes IsPlain IsPlain-IsClosed bytes s l (b, l) p)
    where
      from_Post :
          (o : Option Session) → Post ⊥ IsPlain o → (s' : Session) × (o ≡ some s') × IsPlain s'
      from_Post none h = absurd h
      from_Post (some s') h = (s', refl, h)
