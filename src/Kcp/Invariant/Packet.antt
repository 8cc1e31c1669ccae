-- ===== src/Kcp/Invariant/Packet.antt =====
-- `Input` of network/kcp/kcp.go ends on every packet that fits a buffer, without a panic, and
-- leaves a connection that is well.
use emt.Common.{
  ℕ, zero, suc, ◌+◌, ◌%◌, ◌≤◌, ◌<◌, ◌≡◌, refl, inl, inr, Bool, true, false, ◌&&◌, Option, some,
  List, length, arith, ltb, Bool-cases, if◌then◌else◌, All,
}
use emt.Word.{ℤ, pos, IsByte, u64_mod, eqb_ℤ, ltb_ℤ}
use emt.Kcp.State.{Kcp, overhead}
use emt.Kcp.Codec.RoundTrip.{decode_header-IsWire}
use emt.Kcp.Window.{itimediff}
use emt.Kcp.Ack.{Clock, sample, grow_cwnd}
use emt.Kcp.Flush.{flush}
use emt.Kcp.Input.{
  Seen, Round, next, return, input_segment, Outcome, done, stop, fault, stuck, input_loop,
  input_end, nothing_seen, finish, input,
}
use emt.Kcp.Invariant.{IsConnected, flow, same_flow, flush-IsConnected}
use emt.Kcp.Invariant.Segments.{Leaves, input_segment-IsConnected}
use emt.Kcp.Invariant.Sizes.{
  LeavesSizes, input_segment-LeavesSizes, same_sizes, sample-IsPacketed, grow_cwnd-IsPacketed,
}
use emt.Kcp.Recv.{mtu_limit}
use emt.Kcp.Flush.Packets.{IsPacketed, flush-IsPacketed}

-- The connection's windows and numbers are right, its sizes fit, and it has not panicked.
pub record IsWell (k : Kcp) : Type 0 where
  pub connected : IsConnected k
  pub packeted : IsPacketed k

-- A loop that ended with a state, which is well.
Ends : Outcome → Type 0
Ends (done seen k) = IsWell k
Ends (stop code k) = IsWell k
Ends fault = ⊥
Ends stuck = ⊥

-- A round and the loop behind it, when the loop ends well on the bytes the round leaves.
round-Ends :
    (loop : List ℕ → Seen → Kcp → Outcome) (r : Round) (n : ℕ)
    → Leaves n r
    → LeavesSizes r
    → ((bytes : List ℕ) (seen : Seen) (k : Kcp)
        → length bytes ≤ n
        → All IsByte bytes
        → IsWell k
        → Ends (loop bytes seen k))
    → Ends (elim r [ return code k' ↦ stop code k' | next seen' k' bytes' ↦ loop bytes' seen' k' ])
unfolding Leaves LeavesSizes Ends
round-Ends loop (return code k) n w u rest = record { connected = w; packeted = u }
round-Ends loop (next seen k bytes) n ((v, hb), le) u rest =
    rest bytes seen k le hb (record { connected = v; packeted = u })

input_loop-IsWell :
    (fuel : ℕ) (regular : Bool) (bytes : List ℕ) (seen : Seen) (k : Kcp)
    → length bytes < fuel
    → length bytes ≤ mtu_limit
    → All IsByte bytes
    → IsWell k
    → Ends (input_loop fuel regular bytes seen k)
unfolding input_loop Ends
input_loop-IsWell zero regular bytes seen k h l hb v = absurd (omega (arith, h))
input_loop-IsWell (suc fuel) regular bytes seen k enough l hb v =
    elim (Bool-cases (ltb (length bytes) overhead)) [
      | inl short ↦ rw short v
      | inr long ↦
          let (h, rest, e, len, wire, hr) = decode_header-IsWire bytes hb (ground (arith, long)) in
          rw (long, e)
            (round-Ends (input_loop fuel regular) (input_segment regular h rest seen k)
              (length rest) (input_segment-IsConnected regular h rest seen k wire hr v.connected)
              (input_segment-LeavesSizes regular h rest seen k (omega (arith, len, l)) v.packeted)
              (λ bytes' seen' k' le hb' v'.
                input_loop-IsWell fuel regular bytes' seen' k' (omega (arith, len, enough, le))
                  (omega (arith, len, l, le)) hb' v'))
    ]

flow-sample : (clock : Clock) (latest : ℕ) (k : Kcp) → flow (sample clock latest k) ≡ flow k
unfolding sample
flow-sample clock latest k = ground arith

flow-grow_cwnd : (k : Kcp) → flow (grow_cwnd k) ≡ flow k
unfolding grow_cwnd
flow-grow_cwnd k = ground arith

either : (b : Bool) (k k' : Kcp) → IsWell k → IsWell k' → IsWell (if b then k else k')
either true k k' v v' = v
either false k k' v v' = v'

sample-IsWell : (clock : Clock) (latest : ℕ) (k : Kcp) → IsWell k → IsWell (sample clock latest k)
sample-IsWell clock latest k v = record {
  connected = same_flow k _ (flow-sample clock latest k) v.connected;
  packeted = sample-IsPacketed clock latest k v.packeted;
}

grow_cwnd-IsWell : (k : Kcp) → IsWell k → IsWell (grow_cwnd k)
grow_cwnd-IsWell k v = record {
  connected = same_flow k _ (flow-grow_cwnd k) v.connected;
  packeted = grow_cwnd-IsPacketed k v.packeted;
}

flush-IsWell :
    (clock : Clock) (ack_only : Bool) (k : Kcp) → IsWell k → IsWell (flush clock ack_only k).1
flush-IsWell clock ack_only k v = record {
  connected = flush-IsConnected clock ack_only k v.connected;
  packeted = flush-IsPacketed clock ack_only k v.packeted;
}

input_end-IsWell :
    (clock : Clock) (regular ack_no_delay : Bool) (old_una : ℕ) (seen : Seen) (k : Kcp)
    → IsWell k
    → IsWell (input_end clock regular ack_no_delay old_una seen k)
unfolding input_end
input_end-IsWell clock regular ack_no_delay old_una seen k v =
    let k0 = record k {
      snmp = record k.snmp { in_segs = (k.snmp.in_segs + seen.in_segs) % u64_mod };
    } in
    let v0 : IsWell k0 = record {
      connected = same_flow k k0 refl v.connected;
      packeted = same_sizes k k0 refl v.packeted;
    } in
    let timed = seen.acked && regular in
    let k1 = if timed then sample clock seen.latest k0 else k0 in
    let v1 =
      either timed (sample clock seen.latest k0) k0 (sample-IsWell clock seen.latest k0 v0) v0 in
    let grows = eqb_ℤ k1.nocwnd (pos 0) && ltb_ℤ (pos 0) (itimediff k1.snd_una old_una) in
    let k2 = if grows then grow_cwnd k1 else k1 in
    let v2 = either grows (grow_cwnd k1) k1 (grow_cwnd-IsWell k1 v1) v1 in
    either seen.slides (flush clock false k2).1 _ (flush-IsWell clock false k2 v2)
      (either _ (flush clock true k2).1 k2 (flush-IsWell clock true k2 v2) v2)

-- The call ended with a code, and with a connection that is well.
abbrev Settles : Option (ℤ × Kcp) → Type 0
Settles r = (code : ℤ) × (k' : Kcp) × (r ≡ some (code, k')) × IsWell k'

finish-Settles :
    (clock : Clock) (regular ack_no_delay : Bool) (old_una : ℕ) (o : Outcome)
    → Ends o
    → Settles (finish clock regular ack_no_delay old_una o)
unfolding Ends
finish-Settles clock regular ack_no_delay old_una (done seen k) w =
    (_, _, refl, input_end-IsWell clock regular ack_no_delay old_una seen k w)
finish-Settles clock regular ack_no_delay old_una (stop code k) w = (_, _, refl, w)
finish-Settles clock regular ack_no_delay old_una fault w = absurd w
finish-Settles clock regular ack_no_delay old_una stuck w = absurd w

-- If the sizes of a connection fit (no segment to send is longer than `Mss`, and so on: IsPacketed),
-- it has not panicked, and its windows and numbers are right: `Input` ends on every packet of octets
-- of up to 1500 bytes. It never reads past the packet, never runs out of fuel and does not panic, it
-- returns a code, and all of that holds of the connection again, whatever the packet holds and whether
-- or not an error is returned.
pub input-IsWell :
    (clock : Clock) (bytes : List ℕ) (regular ack_no_delay : Bool) (k : Kcp)
    → length bytes ≤ mtu_limit
    → All IsByte bytes
    → IsWell k
    → (code : ℤ) × (k' : Kcp) × (input clock bytes regular ack_no_delay k ≡ some (code, k'))
      × IsWell k'
unfolding input
input-IsWell clock bytes regular ack_no_delay k l hb v =
    elim (Bool-cases (ltb (length bytes) overhead)) [
      | inl short ↦ rw short (_, _, refl, v)
      | inr long ↦ rw long (
          finish-Settles clock regular ack_no_delay k.snd_una _ (
            input_loop-IsWell (suc (length bytes)) regular bytes nothing_seen k (omega arith) l hb
              v))
    ]
