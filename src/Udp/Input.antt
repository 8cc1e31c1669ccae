-- ===== src/Udp/Input.antt =====
-- What a session of network/kcp/udp.go does with a packet: `packetInput`, `kcpInput`, `lendata`,
-- `biggerThan`, `ranger`.
pub mod Framing
pub mod Closed
pub mod Safety
pub mod Open
use emt.Common.{
  ℕ, ◌+◌, ◌*◌, ◌%◌, Bool, true, false, ◌&&◌, ◌||◌, Option, none, some, List, [], ◌∷◌, length, take,
  drop, ltb, leb, ◌==◌, if◌then◌else◌,
}
use emt.Word.{ℤ, pos, eqb_ℤ, u64_mod}
use emt.Kcp.State.{overhead}
use emt.Kcp.Codec.{decode16u, decode32u}
use emt.Kcp.Input.{input}
use emt.Fec.Packet.{ReedSolomon, type_data, type_parity, header_size}
use emt.Fec.Decoder.{Decoder, new_decoder, fec_decode}
use emt.Udp.Session.{World, Session, Counters, with_kcp, uncork, notify}

-- `binary.LittleEndian.Uint16` and `Uint32`; 0 where they panic, which the callers rule out.
abbrev pub get16 : List ℕ → ℕ
get16 (b0 ∷ b1 ∷ rest) = b0 + 256 * b1
get16 _ = 0

abbrev pub get32 : List ℕ → ℕ
get32 (b0 ∷ b1 ∷ b2 ∷ b3 ∷ rest) = b0 + 256 * b1 + 65536 * b2 + 16777216 * b3
get32 _ = 0

-- `fecHeaderSizePlus2`.
abbrev pub header_size_plus2 : ℕ
header_size_plus2 = header_size + 2

-- What a packet adds to the counters: `kcpInErrors`, `fecErrs`, `fecRecovered`, `fecParityShards`.
pub record Tally : Type 0 where
  pub kcp_in_errors : ℕ
  pub fec_errs : ℕ
  pub fec_recovered : ℕ
  pub fec_parity_shards : ℕ

abbrev pub no_tally : Tally
no_tally = record { kcp_in_errors = 0; fec_errs = 0; fec_recovered = 0; fec_parity_shards = 0 }

-- A call of the protocol's `Input`: whether it returned 0.
unfoldable pub feed : World → List ℕ → Bool → Session → Option (Bool × Session)
feed w bytes regular s = elim (input w.clock bytes regular s.ack_no_delay s.kcp) [
  | none ↦ none
  | some (code, k) ↦ elim (with_kcp w k s) [ none ↦ none | some s' ↦ some (eqb_ℤ code (pos 0), s') ]
]

-- The same with the errors counted.
unfoldable pub feed_regular : World → List ℕ → Tally → Session → Option (Tally × Session)
unfolding feed
feed_regular w bytes t s = elim (feed w bytes true s) [
  | none ↦ none
  | some (done, s') ↦
      some (if done then t else record t { kcp_in_errors = t.kcp_in_errors + 1 }, s')
]

-- `ranger`, of recovered bytes that hold a size.
unfoldable pub ranger : World → List ℕ → Tally → Session → Option (Tally × Session)
unfolding feed
ranger w r t s =
    let size = get16 r in
    if leb size (length r) && leb 2 size
    then elim (feed w (drop 2 (take size r)) false s) [
      | none ↦ none
      | some (done, s') ↦ some (
        if done
            then record t { fec_recovered = t.fec_recovered + 1 }
            else record t { kcp_in_errors = t.kcp_in_errors + 1 },
        s',
      )
    ]
    else some (record t { fec_errs = t.fec_errs + 1 }, s)

-- The loop of `biggerThan` over what was recovered.
unfoldable pub recovers : World → List (List ℕ) → Tally → Session → Option (Tally × Session)
unfolding ranger
recovers w [] t s = some (t, s)
recovers w (r ∷ rs) t s =
    elim (if leb 2 (length r)
      then ranger w r t s
      else some (record t { fec_errs = t.fec_errs + 1 }, s)) [
        | none ↦ none
        | some (t', s') ↦ recovers w rs t' s'
      ]

-- The decoder, made for one data and one parity shard if there is none.
abbrev pub decoder_of : ReedSolomon → Option Decoder → Option Decoder
decoder_of codec none = new_decoder codec (pos 1) (pos 1)
decoder_of codec (some dec) = some dec

-- The part of `biggerThan` behind the decoder.
unfoldable pub decoded : World → List ℕ → List (List ℕ) → Session → Option (Tally × Session)
unfolding feed_regular recovers
decoded w bytes rs s =
    let flag = get16 (drop 4 bytes) in
    let t = record no_tally { fec_parity_shards = if flag == type_parity then 1 else 0 } in
    elim (if flag == type_data
      then feed_regular w (drop header_size_plus2 bytes) t s
      else some (t, s)) [
        | none ↦ none
        | some (t', s') ↦ elim (recovers w rs t' s') [
          | none ↦ none
          | some (t'', s'') ↦ some (t'', uncork w (notify s''))
        ]
      ]

-- `biggerThan`; `none` where Go panics.
unfoldable pub bigger_than : World → List ℕ → Session → Option (Tally × Session)
unfolding decoded
bigger_than w bytes s = elim (decoder_of w.codec s.fec_decoder) [
  | none ↦ none
  | some dec ↦ elim (fec_decode w.codec w.fec_clock bytes dec) [
    | none ↦ none
    | some (rs, dec') ↦ decoded w bytes rs (record s { fec_decoder = some dec' })
  ]
]

-- `lendata`.
unfoldable pub len_data : World → List ℕ → Session → Option (Tally × Session)
unfolding bigger_than
len_data w bytes s =
    if leb header_size_plus2 (length bytes)
    then bigger_than w bytes s
    else some (
      no_tally,
      record s { counters = record s.counters { in_errs = (s.counters.in_errs + 1) % u64_mod } },
    )

-- The branch of `kcpInput` for a packet without error correction.
unfoldable pub plain_input : World → List ℕ → Session → Option (Tally × Session)
unfolding feed_regular
plain_input w bytes s = elim (feed_regular w bytes no_tally s) [
  | none ↦ none
  | some (t, s') ↦ some (t, uncork w (notify s'))
]

-- The counters at the end of `kcpInput`.
unfoldable pub count_input : ℕ → Tally → Session → Session
count_input n t s = record s {
  counters = record s.counters {
    in_pkts = (s.counters.in_pkts + 1) % u64_mod;
    in_bytes = (s.counters.in_bytes + n) % u64_mod;
    fec_parity_shards = (s.counters.fec_parity_shards + t.fec_parity_shards) % u64_mod;
    kcp_in_errors = (s.counters.kcp_in_errors + t.kcp_in_errors) % u64_mod;
    fec_errs = (s.counters.fec_errs + t.fec_errs) % u64_mod;
    fec_recovered = (s.counters.fec_recovered + t.fec_recovered) % u64_mod;
  };
}

-- `kcpInput`, of a packet that holds a flag.
unfoldable pub kcp_input : World → List ℕ → Session → Option Session
unfolding len_data plain_input count_input
kcp_input w bytes s =
    let flag = get16 (drop 4 bytes) in
    elim (if flag == type_data || flag == type_parity
      then len_data w bytes s
      else plain_input w bytes s) [
        | none ↦ none
        | some (t, s') ↦ some (count_input (length bytes) t s')
      ]

-- `packetInput`.
unfoldable pub packet_input : World → List ℕ → Session → Option Session
unfolding kcp_input
packet_input w bytes s = if leb overhead (length bytes) then kcp_input w bytes s else some s
