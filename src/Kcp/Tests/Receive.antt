-- ===== src/Kcp/Tests/Receive.antt =====
-- The receiver of network/kcp/kcp.go on concrete segments and packets.
use emt.Common.{ℕ, ◌≡◌, refl, true, false, some, List, [], ◌∷◌, ◌++◌, arith, All}
use emt.Word.{ℤ, pos, negsuc, IsByte, IsU32}
use emt.Kcp.State.{Segment, Kcp, new_kcp}
use emt.Kcp.Codec.{header, decode_header}
use emt.Kcp.Codec.RoundTrip.{header_of, decode_header-header}
use emt.Kcp.Recv.{parse_data, recv}
use emt.Kcp.Recv.Order.{contains}
use emt.Kcp.Recv.Ready.{IsReceiving, Delivers}
use emt.Kcp.Recv.Deliver.{placed, parse_data_in_window}
use emt.Kcp.Recv.Message.{recv-send}
use emt.Kcp.Send.{send}
use emt.Kcp.Input.{input}
use emt.Kcp.Invariant.Packet.{IsWell, input-IsWell}
use emt.Kcp.Tests.{clock, data_segment, busy, busy-IsReceiving, busy-IsConnected, busy-IsPacketed}

-- A data segment with the bytes 65 and 66, and an acknowledgement behind it.
abbrev packet : List ℕ
packet =
    7 ∷ 0 ∷ 0 ∷ 0 ∷ 81 ∷ 0 ∷ 32 ∷ 0 ∷ 9 ∷ 0 ∷ 0 ∷ 0 ∷ 255 ∷ 255 ∷ 255 ∷ 255 ∷ 255 ∷ 255 ∷ 255 ∷ 255
    ∷ 2 ∷ 0 ∷ 0 ∷ 0 ∷ 65 ∷ 66 ∷ 7 ∷ 0 ∷ 0 ∷ 0 ∷ 82 ∷ 0 ∷ 32 ∷ 0 ∷ 9 ∷ 0 ∷ 0 ∷ 0 ∷ 0 ∷ 0 ∷ 0 ∷ 0
    ∷ 255 ∷ 255 ∷ 255 ∷ 255 ∷ 0 ∷ 0 ∷ 0 ∷ 0 ∷ []

packet-bytes : All IsByte packet
packet-bytes = ground arith

input-IsWell_example :
    (code : ℤ) × (k' : Kcp) × (input clock packet true false busy ≡ some (code, k')) × IsWell k'
input-IsWell_example =
    input-IsWell clock packet true false busy (omega arith) packet-bytes
      (record { connected = busy-IsConnected; packeted = busy-IsPacketed })

abbrev next_segment : Segment
next_segment = data_segment 4294967295 0 (7 ∷ [])

abbrev far_segment : Segment
far_segment = data_segment 100 0 (7 ∷ [])

parse_data_in_window_example :
    ((parse_data next_segment busy).0 ≡ contains next_segment.sn busy.rcv_buf)
    × (moved : List Segment) × Delivers
        (placed next_segment busy)
        (parse_data next_segment busy).1
        moved
unfolding busy emt.Word.sub32
parse_data_in_window_example =
    parse_data_in_window busy next_segment busy-IsReceiving (omega arith) (omega arith)

-- A receiver with a message in two segments, and the segment behind them in the buffer.
unfoldable arrived : Kcp
unfolding new_kcp
arrived = record (new_kcp 7) {
  rcv_nxt = 5;
  rcv_queue = data_segment 3 1 (1 ∷ 2 ∷ []) ∷ data_segment 4 0 (3 ∷ []) ∷ [];
  rcv_buf = data_segment 6 0 (4 ∷ []) ∷ [];
}

arrived-IsReceiving : IsReceiving arrived
unfolding arrived emt.Word.sub32
arrived-IsReceiving = record {
  nxt = omega arith;
  wnd = omega arith;
  buf = (omega arith, omega arith, omega arith, tt);
}

-- A sender that cuts messages into pieces of two bytes, as `arrived` has them.
unfoldable sender : Kcp
unfolding new_kcp
sender = record (new_kcp 7) { mtu = 26; mss = 2 }

recv-send_example : ((recv 10 arrived).0 ≡ pos 3) × ((recv 10 arrived).1 ≡ 1 ∷ 2 ∷ 3 ∷ [])
unfolding arrived sender send
recv-send_example =
    recv-send (1 ∷ 2 ∷ 3 ∷ []) 10 sender arrived arrived.rcv_queue [] refl (omega arith) refl refl
      (refl, refl, (refl, refl, tt)) refl (omega arith)

decode_header-header_example :
    decode_header (header next_segment [] ++ (7 ∷ [])) ≡ some (header_of next_segment, 7 ∷ [])
decode_header-header_example = decode_header-header next_segment (7 ∷ []) (record {
  conv = omega arith;
  cmd = omega arith;
  frg = omega arith;
  wnd = omega arith;
  ts = omega arith;
  sn = omega arith;
  una = omega arith;
  len = omega arith;
})
