-- ===== src/Kcp/Input.antt =====
-- `Input` of network/kcp/kcp.go: the segments of a packet, one after the other.
use emt.Common.{
  ℕ, zero, suc, ◌+◌, ◌%◌, Bool, true, false, ◌&&◌, ◌||◌, not, Option, none, some, List, bit_or,
  length, take, drop, ltb, ◌==◌, if◌then◌else◌,
}
use emt.Word.{ℤ, pos, negsuc, ltb_ℤ, leb_ℤ, eqb_ℤ, u64_mod, add32}
use emt.Kcp.State.{Segment, blank, Kcp, overhead, cmd_push, cmd_ack, cmd_wask, cmd_wins, ask_tell}
use emt.Kcp.Codec.{Header, decode_header}
use emt.Kcp.Window.{itimediff}
use emt.Kcp.Recv.{parse_data}
use emt.Kcp.Ack.{Clock, settings, shrink_buf, parse_ack, parse_fastack, ack_push, sample, grow_cwnd}
use emt.Kcp.Flush.{flush}

-- The variables of the loop that the code behind it reads: whether an acknowledgement was seen
-- (`flag`), its time, the number of segments, and whether the last segment moved the send window.
pub record Seen : Type 0 where
  pub acked : Bool
  pub latest : ℕ
  pub in_segs : ℕ
  pub slides : Bool

abbrev pub segment_of : Header → List ℕ → Segment
segment_of h payload = record blank {
  conv = h.conv;
  cmd = h.cmd;
  frg = h.frg;
  wnd = h.wnd;
  ts = h.ts;
  sn = h.sn;
  una = h.una;
  payload = payload;
}

-- The case `IKcpCmdPush`.
unfoldable pub input_push : Bool → Header → List ℕ → Kcp → Kcp
input_push regular h payload k =
    let in_window = ltb_ℤ (itimediff h.sn (add32 k.rcv_nxt k.rcv_wnd)) (pos 0) in
    let acked = if in_window then ack_push h.sn h.ts k else k in
    let (repeat, k') =
      if in_window && leb_ℤ (pos 0) (itimediff h.sn k.rcv_nxt)
      then parse_data (segment_of h payload) acked
      else (true, acked) in
    if regular && repeat
    then record k' { snmp = record k'.snmp { repeat_segs = (k'.snmp.repeat_segs + 1) % u64_mod } }
    else k'

-- The `switch` over the command; `none` is the default case, which returns -3.
unfoldable pub dispatch : Bool → Header → List ℕ → Kcp → Option Kcp
dispatch regular h payload k =
    if h.cmd == cmd_ack
    then some (parse_fastack h.sn h.ts (parse_ack h.sn k))
    else if h.cmd == cmd_push
    then some (input_push regular h payload k)
    else if h.cmd == cmd_wask
    then some (record k { probe = bit_or k.probe ask_tell })
    else if h.cmd == cmd_wins
    then some k
    else none

-- How the loop ends: by its test, by an early return with a code, or by a fault. `stuck` is no
-- outcome of the Go code: the fuel ran out.
pub data Outcome : Type 0 where
  done : Seen → Kcp → Outcome
  stop : ℤ → Kcp → Outcome
  fault : Outcome
  stuck : Outcome

-- One segment, its header read: an early return, or the state and the data behind the segment.
pub data Round : Type 0 where
  next : Seen → Kcp → List ℕ → Round
  return : ℤ → Kcp → Round

unfoldable pub input_segment : Bool → Header → List ℕ → Seen → Kcp → Round
input_segment regular h rest seen k =
    if not (h.conv == k.conv)
    then return (negsuc 0) k
    else if ltb (length rest) h.len
    then return (negsuc 1) k
    else let (slides, k1) = settings regular h.una h.wnd k in
      let k2 = shrink_buf k1 in
      let acked = h.cmd == cmd_ack in
      elim (dispatch regular h (take h.len rest) k2) [
        | none ↦ return (negsuc 2) k2
        | some k3 ↦
            next
              (record {
                acked = seen.acked || acked;
                latest = if acked then h.ts else seen.latest;
                in_segs = seen.in_segs + 1;
                slides = slides;
              })
              k3 (drop h.len rest)
      ]

unfoldable pub input_loop : ℕ → Bool → List ℕ → Seen → Kcp → Outcome
input_loop zero regular bytes seen k = stuck
input_loop (suc fuel) regular bytes seen k =
    if ltb (length bytes) overhead then done seen k else elim (decode_header bytes) [
      | none ↦ fault
      | some (h, rest) ↦ elim (input_segment regular h rest seen k) [
        | return code k' ↦ stop code k'
        | next seen' k' bytes' ↦ input_loop fuel regular bytes' seen' k'
      ]
    ]

-- What `Input` does behind the loop.
unfoldable pub input_end : Clock → Bool → Bool → ℕ → Seen → Kcp → Kcp
input_end clock regular ack_no_delay old_una seen k =
    let k0 = record k {
      snmp = record k.snmp { in_segs = (k.snmp.in_segs + seen.in_segs) % u64_mod };
    } in
    let k1 = if seen.acked && regular then sample clock seen.latest k0 else k0 in
    let k2 =
      if eqb_ℤ k1.nocwnd (pos 0) && ltb_ℤ (pos 0) (itimediff k1.snd_una old_una)
      then grow_cwnd k1
      else k1 in
    if seen.slides
    then (flush clock false k2).1
    else if ack_no_delay && ltb 0 (length k2.acklist)
    then (flush clock true k2).1
    else k2

abbrev pub nothing_seen : Seen
nothing_seen = record { acked = false; latest = 0; in_segs = 0; slides = false }

abbrev pub finish : Clock → Bool → Bool → ℕ → Outcome → Option (ℤ × Kcp)
finish clock regular ack_no_delay old_una (done seen k) =
    some (pos 0, input_end clock regular ack_no_delay old_una seen k)
finish clock regular ack_no_delay old_una (stop code k) = some (code, k)
finish clock regular ack_no_delay old_una fault = none
finish clock regular ack_no_delay old_una stuck = none

-- `Input`: 0, -1, -2 or -3, and the new state. A round takes 24 bytes at least, so the number of
-- bytes, and one for the last test, is fuel enough.
unfoldable pub input : Clock → List ℕ → Bool → Bool → Kcp → Option (ℤ × Kcp)
input clock bytes regular ack_no_delay k =
    if ltb (length bytes) overhead
    then some (negsuc 0, k)
    else finish clock regular ack_no_delay k.snd_una
        (input_loop (suc (length bytes)) regular bytes nothing_seen k)
