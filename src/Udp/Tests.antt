-- ===== src/Udp/Tests.antt =====
-- The sessions and the listener of network/kcp on concrete packets.
use emt.Common.{
  ℕ, ◌≡◌, refl, true, Option, none, some, List, [], ◌∷◌, ◌++◌, drop, arith, All, ◌&&◌, ◌==◌,
}
use emt.Word.{pos, IsByte, sub32, add32, to_i32}
use emt.Kcp.Window.{itimediff}
use emt.Kcp.Input.{input, input_loop, input_segment, dispatch, input_end, input_push}
use emt.Kcp.Ack
use emt.Kcp.Ack.{shrink_buf, ack_push}
use emt.Kcp.Config.{wait_snd}
use emt.Kcp.Flush.{flush}
use emt.Kcp.State.{Kcp, new_kcp, blank}
use emt.Kcp.Codec.{decode_header}
use emt.Kcp.Recv.{recv, peek_size, parse_data, receive, take_message}
use emt.Kcp.Send.Fragments.{payloads}
use emt.Kcp.Tests.{data_segment}
use emt.Kcp.Invariant.{IsConnected}
use emt.Fec.Packet.{ReedSolomon, mark, type_data, type_parity}
use emt.Fec.Encoder.{encode_packet}
use emt.Fec.Tests.{empty_encoder}
use emt.Udp.Session.{World, Session, with_kcp, uncork, notify}
use emt.Udp.Input.{get16, get32, packet_input}
use emt.Udp.Input.Framing.{with_room, encode_packet-framed}
use emt.Kcp.Flush.Packets.{IsPacketed}
use emt.Udp.Input.Safety.{IsPlain, packet_input-IsPlain}
use emt.Udp.Control.{new_session}
use emt.Udp.Stream.{got, read, send_buffers}
use emt.Udp.Stream.Run.{accepted, Event, asks, arrives, run, IsStep, run-IsStep}
use emt.Udp.Stream.Stuck.{IsStuck, run-IsStuck}
use emt.Udp.Stream.Writing.{concat, send_buffers-payloads}
use emt.Udp.Listener.{Entry, Listener}
use emt.Udp.Listener
use emt.Udp.Listener.Sessions.{IsListening}
use emt.Udp.Listener.Reach.{new_listener, starts, steps, packet, Reaches-IsListening}
use emt.Udp.Listener.Parity.{parity_dropped}

-- A codec that takes one data and one parity shard, and mends nothing.
abbrev no_code : ReedSolomon
no_code = record {
  accepts = λ d p. d == 1 && p == 1;
  parity = λ d p shards. some shards;
  reconstruct = λ d p shards. none;
}

abbrev world : World
world = record { codec = no_code; clock = λ n. n; fec_clock = λ n. n; socket = λ n. true }

-- A session of the conversation 7 without error correction.
unfoldable fresh : Session
unfolding new_session
fresh = new_session no_code 7 (pos 0) (pos 0) true

-- The packet of a segment with two bytes.
abbrev hello : List ℕ
hello =
    7 ∷ 0 ∷ 0 ∷ 0 ∷ 81 ∷ 0 ∷ 32 ∷ 0 ∷ 0 ∷ 0 ∷ 0 ∷ 0 ∷ 0 ∷ 0 ∷ 0 ∷ 0 ∷ 0 ∷ 0 ∷ 0 ∷ 0 ∷ 2 ∷ 0 ∷ 0 ∷ 0
    ∷ 104 ∷ 105 ∷ []

abbrev session_of : Option Session → Session
session_of none = fresh
session_of (some s) = s

hello-read : (read 5 (session_of (packet_input world hello fresh))).0 ≡ got 2 (104 ∷ 105 ∷ [])
unfolding packet_input read fresh input input_loop decode_header input_segment sub32 dispatch
    with_kcp input_end Ack.settings input_push itimediff to_i32 add32 shrink_buf parse_data ack_push
    uncork notify flush peek_size wait_snd recv receive take_message
hello-read = refl

fresh-IsConnected : IsConnected fresh.kcp
unfolding fresh new_kcp sub32
fresh-IsConnected = record {
  receiving = record { nxt = omega arith; wnd = omega arith; buf = tt };
  sending = record {
    una = omega arith;
    numbers = tt;
    nxt = unfold add32 in refl;
    few = omega arith;
  };
  rmt = omega arith;
  few = omega arith;
}

fresh-IsPacketed : IsPacketed fresh.kcp
unfolding fresh new_kcp sub32 emt.Word.to_u32
fresh-IsPacketed = record {
  whole = refl;
  mss = refl;
  some_mss = omega arith;
  queue = tt;
  buf = tt;
  running = refl;
  packets = tt;
}

fresh-IsPlain : IsPlain fresh
fresh-IsPlain = record {
  well = record { connected = fresh-IsConnected; packeted = fresh-IsPacketed };
  plain = unfold fresh in refl;
  kept = unfold fresh in tt;
}

-- Two segments that come in the wrong order, and reads of one and of five bytes.
abbrev events : List Event
events =
    asks 1
    ∷ arrives (data_segment 1 0 (33 ∷ []))
    ∷ arrives (data_segment 0 0 (104 ∷ 105 ∷ []))
    ∷ asks 1
    ∷ asks 5
    ∷ asks 5
    ∷ []

events-run : (run events fresh).0 ≡ 104 ∷ 105 ∷ 33 ∷ []
unfolding run fresh read peek_size sub32 parse_data itimediff to_i32 add32 recv receive take_message
events-run = refl

run-IsStep_example : IsStep (accepted events fresh) fresh (run events fresh)
run-IsStep_example =
    run-IsStep events fresh fresh-IsConnected.receiving
      (tt, (omega arith, (omega arith, (tt, (tt, (tt, tt))))))

send_buffers-payloads_example :
    payloads (send_buffers ((1 ∷ 2 ∷ []) ∷ [] ∷ (3 ∷ []) ∷ []) (new_kcp 7)).snd_queue
    ≡ payloads (new_kcp 7).snd_queue ++ concat ((1 ∷ 2 ∷ []) ∷ [] ∷ (3 ∷ []) ∷ [])
send_buffers-payloads_example =
    send_buffers-payloads ((1 ∷ 2 ∷ []) ∷ [] ∷ (3 ∷ []) ∷ []) (new_kcp 7)
      (unfold new_kcp in omega arith)

-- A session that was given a segment without bytes.
abbrev stuck_session : Session
stuck_session = record fresh { kcp = record (new_kcp 7) { rcv_queue = data_segment 0 0 [] ∷ [] } }

stuck_session-IsStuck : IsStuck stuck_session
unfolding fresh
stuck_session-IsStuck = record {
  head = data_segment 0 0 [];
  rest = [];
  queue = refl;
  end = refl;
  empty = refl;
  read_all = refl;
}

run-IsStuck_example : ((run events stuck_session).0 ≡ []) × IsStuck (run events stuck_session).1
run-IsStuck_example = run-IsStuck events stuck_session stuck_session-IsStuck

-- In stream mode, with segments of 4 bytes, and one of 2 bytes queued.
abbrev streaming : Kcp
streaming = record (new_kcp 7) {
  mss = 4;
  stream = pos 1;
  snd_queue = record blank { payload = 1 ∷ 2 ∷ [] } ∷ [];
}

hello-IsByte : All IsByte hello
hello-IsByte = ground arith

packet_input-IsPlain_example :
    (s' : Session) × (packet_input world hello fresh ≡ some s') × IsPlain s'
packet_input-IsPlain_example =
    packet_input-IsPlain world (λ d p shards out e. absurd (cc e))
      (λ d p n shards out h e. absurd (cc e)) refl hello fresh (omega arith) hello-IsByte
      fresh-IsPlain

hello-taken : packet_input world hello fresh ≡ some (session_of (packet_input world hello fresh))
unfolding packet_input read fresh input input_loop decode_header input_segment sub32 dispatch
    with_kcp input_end Ack.settings input_push itimediff to_i32 add32 shrink_buf parse_data ack_push
    uncork notify flush peek_size wait_snd recv receive take_message
hello-taken = refl

encode_packet-framed_example :
    let framed = (encode_packet no_code (with_room hello) empty_encoder).0 in
    (get16 (drop 4 framed) ≡ type_data) × (get32 framed ≡ 0) × (drop 8 framed ≡ hello)
encode_packet-framed_example =
    encode_packet-framed no_code empty_encoder hello refl refl (omega arith)

-- A listener that took one session.
abbrev listener : Listener
listener = record {
  data_shards = pos 1;
  parity_shards = pos 1;
  store = record { remote = 10 ∷ []; session = fresh } ∷ [];
  sessions = (10 ∷ [], 0) ∷ [];
  accepts = [];
}

parity_dropped_example :
    Listener.packet_input world (mark 3 type_parity ++ hello) (10 ∷ []) listener ≡ some listener
parity_dropped_example =
    parity_dropped world 3 hello (10 ∷ []) listener 0 (record { remote = 10 ∷ []; session = fresh })
      refl (omega arith) (omega arith) (unfold fresh sub32 in λ e. absurd (omega arith))
      (λ e. absurd (omega arith))

-- It got its session from a packet.
abbrev listener_of : Option Listener → Listener
listener_of none = new_listener (pos 0) (pos 0)
listener_of (some l) = l

abbrev first_listener : Listener
first_listener =
    listener_of (Listener.packet_input world hello (10 ∷ []) (new_listener (pos 0) (pos 0)))

hello-heard :
    Listener.packet_input world hello (10 ∷ []) (new_listener (pos 0) (pos 0)) ≡ some first_listener
unfolding Listener.packet_input new_listener new_session packet_input read fresh input input_loop
    decode_header input_segment sub32 dispatch with_kcp input_end Ack.settings input_push itimediff
    to_i32 add32 shrink_buf parse_data ack_push uncork notify flush peek_size wait_snd recv receive
    take_message
hello-heard = refl

Reaches-IsListening_example : IsListening [] first_listener
Reaches-IsListening_example =
    Reaches-IsListening world (pos 0) (pos 0) (record { listener = first_listener; closers = [] })
      (steps starts (packet hello (10 ∷ []) hello-heard))
