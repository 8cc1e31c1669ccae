-- ===== src/Kcp/Tests/Transmit.antt =====
-- The sender of network/kcp/kcp.go on a concrete connection.
use emt.Common.{ℕ, List, ◌≡◌, refl, false, [], ◌∷◌, ◌++◌, length, map, drop, arith}
use emt.Word.{pos, add32}
use emt.Kcp.State.{Kcp, new_kcp}
use emt.Kcp.Ack.{shrink_buf, parse_una, parse_ack}
use emt.Kcp.Ack.Flight.{IsSending, before, acknowledge_lem}
use emt.Kcp.Ack.Marks.{ack_mark, parse_ack_lem}
use emt.Kcp.Send.{send}
use emt.Kcp.Send.Fragments.{payloads, send-payloads}
use emt.Kcp.Flush.{flush}
use emt.Kcp.Flush.Packets.{IsPacketed, flush-IsPacketed}
use emt.Kcp.Invariant.{IsConnected, flush-IsConnected}
use emt.Kcp.Tests.{clock, data_segment, busy, busy-IsSending, busy-IsConnected, busy-IsPacketed}

flush-IsPacketed_example : IsPacketed (flush clock false busy).1
flush-IsPacketed_example = flush-IsPacketed clock false busy busy-IsPacketed

flush-IsConnected_example : IsConnected (flush clock false busy).1
flush-IsConnected_example = flush-IsConnected clock false busy busy-IsConnected

-- The segment 2 ^ 32 - 1 is acknowledged, the segment 0 is not.
acknowledge_lem_example :
    let n = before busy.snd_una 0 (length busy.snd_buf) in
    let (count, k') = parse_una 0 busy in
    (count ≡ n)
    × ((shrink_buf k').snd_buf ≡ drop n busy.snd_buf)
    × ((shrink_buf k').snd_una ≡ add32 busy.snd_una n)
    × IsSending (shrink_buf k')
acknowledge_lem_example = acknowledge_lem 0 busy (omega arith) busy-IsSending

parse_ack_lem_example : parse_ack 0 busy ≡ record busy { snd_buf = map (ack_mark 0) busy.snd_buf }
parse_ack_lem_example = parse_ack_lem 0 busy (omega arith) busy-IsSending

-- A stream that has room for one byte in its last segment.
unfoldable streaming : Kcp
unfolding new_kcp
streaming = record (new_kcp 7) {
  mtu = 26;
  mss = 2;
  stream = pos 1;
  snd_queue = data_segment 0 0 (1 ∷ []) ∷ [];
}

send-payloads_example :
    payloads (send (2 ∷ 3 ∷ 4 ∷ []) streaming).1.snd_queue
    ≡ payloads streaming.snd_queue ++ (2 ∷ 3 ∷ 4 ∷ [])
unfolding streaming send
send-payloads_example = send-payloads (2 ∷ 3 ∷ 4 ∷ []) streaming (omega arith) refl

abbrev three_bytes : List ℕ
three_bytes = 2 ∷ 3 ∷ 4 ∷ []
