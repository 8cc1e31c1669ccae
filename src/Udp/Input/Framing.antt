-- ===== src/Udp/Input/Framing.antt =====
-- The packets that a session of network/kcp/udp.go makes, with error correction and without, as the
-- session at the other end, and the listener of ln.go, tell them apart.
use emt.Common.{
  ℕ, ◌+◌, ◌*◌, ◌/◌, ◌%◌, ◌≤◌, ◌≡◌, ◌≢◌, refl, ap₂, true, false, List, [], ◌++◌, length, replicate,
  drop, arith, leb, ◌==◌,
}
use emt.Word.{IsU32}
use emt.Kcp.State.{Segment}
use emt.Kcp.Codec.{header, encode8u, encode16u, encode32u}
use emt.Fec.Packet.{ReedSolomon, mark, type_data, type_parity}
use emt.Fec.Encoder.{Encoder, encode_packet, add_packet, mark_data}
use emt.Udp.Input.{get16, get32, header_size_plus2}
use emt.Udp.Listener.{packet_ids}

-- A packet of the protocol behind the room for the header.
abbrev pub with_room : List ℕ → List ℕ
with_room packet = replicate header_size_plus2 0 ++ packet

-- The data packet that a session with an encoder makes of a packet of the protocol: the other session
-- reads the flag of a data packet and the encoder's number, and gives its protocol the same packet.
pub encode_packet-framed :
    (codec : ReedSolomon) (enc : Encoder) (packet : List ℕ)
    → enc.header_offset ≡ 0
    → enc.payload_offset ≡ 6
    → IsU32 enc.next
    → let framed = (encode_packet codec (with_room packet) enc).0 in
      (get16 (drop 4 framed) ≡ type_data)
      × (get32 framed ≡ enc.next)
      × (drop header_size_plus2 framed ≡ packet)
unfolding encode_packet add_packet mark_data mark encode16u encode32u
encode_packet-framed codec enc packet h p u = rw (h, p) (refl, omega arith, refl)

-- A packet of the protocol, which begins with the header of a segment with one of the four commands,
-- is never taken for one with error correction, whatever the fragment number.
pub header-not_framed :
    (s : Segment) (rest : List ℕ)
    → 81 ≤ s.cmd
    → s.cmd ≤ 84
    → let flag = get16 (drop 4 (header s [] ++ rest)) in (flag ≢ type_data) × (flag ≢ type_parity)
unfolding header encode8u encode16u encode32u
header-not_framed s rest h l = (λ e. absurd (omega arith), λ e. absurd (omega arith))

-- A 32-bit word is put together from its bytes.
word :
    (n : ℕ)
    → IsU32 n
    → n % 256 + 256 * (n / 256 % 256) + 65536 * (n / 65536 % 256) + 16777216 * (n / 16777216 % 256)
      ≡ n
word n h = omega arith

-- What the listener reads of a packet without error correction: the conversation and the number of
-- its first segment.
pub packet_ids-header :
    (s : Segment) (rest : List ℕ)
    → 81 ≤ s.cmd
    → s.cmd ≤ 84
    → IsU32 s.conv
    → IsU32 s.sn
    → packet_ids (header s [] ++ rest) ≡ (s.conv, s.sn)
unfolding packet_ids header encode8u encode16u encode32u
packet_ids-header s rest h l c n =
    let plain : ((s.cmd + 256 * s.frg) == 241) ≡ false = ground arith in
    rw plain (ap₂ (λ a b. (a, b)) (word s.conv c) (word s.sn n))

-- The same of a data packet, behind the encoder.
pub packet_ids-framed :
    (codec : ReedSolomon) (enc : Encoder) (s : Segment) (rest : List ℕ)
    → enc.header_offset ≡ 0
    → enc.payload_offset ≡ 6
    → IsU32 s.conv
    → IsU32 s.sn
    → packet_ids (encode_packet codec (with_room (header s [] ++ rest)) enc).0 ≡ (s.conv, s.sn)
unfolding packet_ids encode_packet add_packet mark_data mark header encode8u encode16u encode32u
packet_ids-framed codec enc s rest h p c n =
    let whole : leb 32 (length (replicate 32 0 ++ rest)) ≡ true = ground arith in
    rw (h, p, whole) (ap₂ (λ a b. (a, b)) (word s.conv c) (word s.sn n))
