-- ===== src/Kcp/Invariant/Segments.antt =====
-- Each segment of a packet keeps the invariant of the connection of network/kcp/kcp.go.
use emt.Common.{
  ℕ, ◌+◌, ◌%◌, ◌^◌, ◌≤◌, ◌<◌, ◌≡◌, refl, ap, inl, inr, Bool, true, false, ◌&&◌, ◌||◌, Option, none,
  some, List, drop, take, map, length, length-drop, length-map, All, All-drop, arith, ltb, ◌==◌,
  Bool-cases, if◌then◌else◌,
}
use emt.Word.{negsuc, IsByte, u64_mod, IsU32, add32, sub32, pos, ltb_ℤ, leb_ℤ}
use emt.Kcp.State.{Segment, Kcp, new_kcp, cmd_ack, cmd_push, cmd_wask, cmd_wins}
use emt.Kcp.Codec.{Header}
use emt.Kcp.Codec.RoundTrip.{IsWire}
use emt.Kcp.Window.{itimediff}
use emt.Kcp.Recv.{parse_data, move_ready}
use emt.Kcp.Recv.Ready.{IsReceiving}
use emt.Kcp.Recv.Deliver.{parse_data-IsReceiving}
use emt.Kcp.Ack.{parse_una, shrink_buf, parse_ack, parse_fastack, ack_push, settings}
use emt.Kcp.Ack.Flight.{IsSending, acknowledge_lem}
use emt.Kcp.Ack.Marks.{ack_mark, parse_ack_lem}
use emt.Kcp.Ack.Skips.{skip_mark, parse_fastack_lem, map-IsSending}
use emt.Kcp.Input.{Seen, segment_of, input_push, dispatch, Round, next, return, input_segment}
use emt.Kcp.Invariant.{IsConnected, flow, same_flow}

-- The fields of the sender that the invariant reads.
abbrev pub sender : Kcp → Kcp
sender k = record (new_kcp 0) {
  snd_una = k.snd_una;
  snd_nxt = k.snd_nxt;
  rmt_wnd = k.rmt_wnd;
  snd_queue = k.snd_queue;
  snd_buf = k.snd_buf;
}

-- The state with the sender of one state and the receiver of another.
abbrev joined : Kcp → Kcp → Kcp
joined s r = record s { rcv_nxt = r.rcv_nxt; rcv_wnd = r.rcv_wnd; rcv_buf = r.rcv_buf }

pub new_receiver :
    (k k' : Kcp) → sender k' ≡ sender k → IsReceiving k' → IsConnected k → IsConnected k'
new_receiver k k' e r v = same_flow (joined k k') k' (ap (λ s. flow (joined s k')) e) (record {
  receiving = record { nxt = r.nxt; wnd = r.wnd; buf = r.buf };
  sending = record {
    una = v.sending.una;
    numbers = v.sending.numbers;
    nxt = v.sending.nxt;
    few = v.sending.few;
  };
  rmt = v.rmt;
  few = v.few;
})

sender-parse_data : (seg : Segment) (k : Kcp) → sender (parse_data seg k).1 ≡ sender k
unfolding parse_data move_ready
sender-parse_data seg k =
    elim (Bool-cases (
      leb_ℤ (pos 0) (itimediff seg.sn (add32 k.rcv_nxt k.rcv_wnd))
      || ltb_ℤ (itimediff seg.sn k.rcv_nxt) (pos 0))) [
        | inl out ↦ rw out
        | inr in_window ↦ rw in_window
      ]

parse_data-IsConnected :
    (seg : Segment) (k : Kcp) → IsU32 seg.sn → IsConnected k → IsConnected (parse_data seg k).1
parse_data-IsConnected seg k hs v =
    new_receiver k _ (sender-parse_data seg k) (parse_data-IsReceiving k seg v.receiving hs) v

-- `settings` and `shrinkBuf`: the acknowledged front leaves, and `SndUna` moves up.
settled-IsConnected :
    (regular : Bool) (una wnd : ℕ) (k : Kcp)
    → IsU32 una
    → wnd < 2 ^ 16
    → IsConnected k
    → IsConnected (shrink_buf (settings regular una wnd k).1)
unfolding settings parse_una shrink_buf
settled-IsConnected regular una wnd k hu hw v =
    let k0 = record k { rmt_wnd = if regular then wnd else k.rmt_wnd } in
    let s0 : IsSending k0 = record {
      una = v.sending.una;
      numbers = v.sending.numbers;
      nxt = v.sending.nxt;
      few = v.sending.few;
    } in
    record {
      receiving = record { nxt = v.receiving.nxt; wnd = v.receiving.wnd; buf = v.receiving.buf };
      sending = (acknowledge_lem una k0 hu s0).3;
      rmt = ground (arith, v.rmt);
      few = omega (arith, v.few, length-drop {0} (parse_una una k).0 k.snd_buf);
    }

acked-IsConnected :
    (sn ts : ℕ) (k : Kcp)
    → IsU32 sn
    → IsConnected k
    → IsConnected (parse_fastack sn ts (parse_ack sn k))
acked-IsConnected sn ts k hs v = fast (parse_ack sn k) marked
  where
    with_buf :
        (k' : Kcp) (f : Segment → Segment)
        → ((s : Segment) → (f s).sn ≡ s.sn)
        → IsConnected k'
        → IsConnected (record k' { snd_buf = map f k'.snd_buf })
    with_buf k' f keep v' = record {
      receiving = record { nxt = v'.receiving.nxt; wnd = v'.receiving.wnd; buf = v'.receiving.buf };
      sending = map-IsSending f k' keep v'.sending;
      rmt = v'.rmt;
      few = rw length-map v'.few;
    }

    marked : IsConnected (parse_ack sn k)
    marked = rw (parse_ack_lem sn k hs v.sending) (with_buf k (ack_mark sn) (λ s. ground arith) v)

    fast : (k' : Kcp) → IsConnected k' → IsConnected (parse_fastack sn ts k')
    fast k' v' =
        let d = sub32 sn k'.snd_una in
        elim (Bool-cases (ltb d (length k'.snd_buf))) [
          | inl near ↦
              rw (parse_fastack_lem sn ts k' hs v'.sending, near)
                (with_buf k' (skip_mark k'.snd_una d ts) (λ s. ground arith) v')
          | inr far ↦ rw (parse_fastack_lem sn ts k' hs v'.sending, far) v'
        ]

flow-ack_push :
    (in_window : Bool) (sn ts : ℕ) (k : Kcp)
    → flow (if in_window then ack_push sn ts k else k) ≡ flow k
unfolding ack_push
flow-ack_push true sn ts k = refl
flow-ack_push false sn ts k = refl

input_push-IsConnected :
    (regular : Bool) (h : Header) (payload : List ℕ) (k : Kcp)
    → IsU32 h.sn
    → IsConnected k
    → IsConnected (input_push regular h payload k)
unfolding input_push
input_push-IsConnected regular h payload k hs v =
    let in_window = ltb_ℤ (itimediff h.sn (add32 k.rcv_nxt k.rcv_wnd)) (pos 0) in
    let acked = if in_window then ack_push h.sn h.ts k else k in
    let v' = same_flow k acked (flow-ack_push in_window h.sn h.ts k) v in
    let inside = in_window && leb_ℤ (pos 0) (itimediff h.sn k.rcv_nxt) in
    counted regular _ (data_or_not inside acked v')
  where
    data_or_not :
        (inside : Bool) (k' : Kcp)
        → IsConnected k'
        → IsConnected (if inside then parse_data (segment_of h payload) k' else (true, k')).1
    data_or_not true k' v' = parse_data-IsConnected (segment_of h payload) k' hs v'
    data_or_not false k' v' = v'

    counted :
        (b : Bool) (p : Bool × Kcp)
        → IsConnected p.1
        → IsConnected (
            if b && p.0
            then record p.1 {
              snmp = record p.1.snmp { repeat_segs = (p.1.snmp.repeat_segs + 1) % u64_mod };
            }
            else p.1)
    counted true (true, k') v' = same_flow k' _ refl v'
    counted true (false, k') v' = v'
    counted false (r, k') v' = v'

-- What holds of the state behind the `switch`, when the command was known.
Handled : Option Kcp → Type 0
Handled none = Unit
Handled (some k) = IsConnected k

-- Every command keeps the invariant.
dispatch-IsConnected :
    (regular : Bool) (h : Header) (payload : List ℕ) (k : Kcp)
    → IsU32 h.sn
    → IsConnected k
    → Handled (dispatch regular h payload k)
unfolding Handled dispatch
dispatch-IsConnected regular h payload k hs v = elim (Bool-cases (h.cmd == cmd_ack)) [
  | inl e ↦ rw e (acked-IsConnected h.sn h.ts k hs v)
  | inr e ↦ rw e (elim (Bool-cases (h.cmd == cmd_push)) [
    | inl e1 ↦ rw e1 (input_push-IsConnected regular h payload k hs v)
    | inr e1 ↦ rw e1 (elim (Bool-cases (h.cmd == cmd_wask)) [
      | inl e2 ↦ rw e2 (same_flow k _ refl v)
      | inr e2 ↦
          rw e2 (elim (Bool-cases (h.cmd == cmd_wins)) [ inl e3 ↦ rw e3 v | inr e3 ↦ rw e3 tt ])
    ])
  ])
]

-- What a segment leaves: a connection that is well, and, when the loop goes on, bytes that are
-- octets and no more than those there were.
unfoldable pub Leaves : ℕ → Round → Type 0
Leaves n (next seen k rest) = (IsConnected k × All IsByte rest) × (length rest ≤ n)
Leaves n (return code k) = IsConnected k

Handled-Leaves :
    (seen' : Seen) (h : Header) (rest : List ℕ) (k : Kcp) (o : Option Kcp)
    → All IsByte rest
    → IsConnected k
    → Handled o
    → Leaves
        (length rest)
        (elim o [ none ↦ return (negsuc 2) k | some k3 ↦ next seen' k3 (drop h.len rest) ])
unfolding Handled Leaves
Handled-Leaves seen' h rest k none hb v w = v
Handled-Leaves seen' h rest k (some k3) hb v w =
    ((w, All-drop IsByte h.len rest hb), omega (arith, length-drop {0} h.len rest))

pub input_segment-IsConnected :
    (regular : Bool) (h : Header) (rest : List ℕ) (seen : Seen) (k : Kcp)
    → IsWire h
    → All IsByte rest
    → IsConnected k
    → Leaves (length rest) (input_segment regular h rest seen k)
unfolding input_segment
input_segment-IsConnected regular h rest seen k wire hb v = elim (Bool-cases (h.conv == k.conv)) [
  | inr e ↦ rw e (unfold Leaves in v)
  | inl e ↦ rw e (elim (Bool-cases (ltb (length rest) h.len)) [
    | inl e1 ↦ rw e1 (unfold Leaves in v)
    | inr e1 ↦
        let k2 = shrink_buf (settings regular h.una h.wnd k).1 in
        let settled = settled-IsConnected regular h.una h.wnd k wire.una wire.wnd v in
        rw e1 (
          Handled-Leaves _ h rest k2 (dispatch regular h (take h.len rest) k2) hb settled
            (dispatch-IsConnected regular h (take h.len rest) k2 wire.sn settled))
  ])
]
