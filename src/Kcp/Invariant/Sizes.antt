-- ===== src/Kcp/Invariant/Sizes.antt =====
-- The sizes of segments and packets of network/kcp/kcp.go through `Input`.
use emt.Common.{
  ℕ, ◌+◌, ◌%◌, ◌≤◌, ◌≡◌, refl, sym, subst, inl, inr, Bool, true, false, not, ◌&&◌, ◌||◌, Option,
  none, some, List, [], ◌∷◌, drop, take, length, length-take, All-drop, arith, ltb, ◌==◌,
  Bool-cases, if◌then◌else◌,
}
use emt.Word.{negsuc, u64_mod, add32, pos, ltb_ℤ, leb_ℤ}
use emt.Kcp.State.{Segment, Kcp, new_kcp, cmd_ack, cmd_push, cmd_wask, cmd_wins}
use emt.Kcp.Codec.{Header}
use emt.Kcp.Window.{itimediff}
use emt.Kcp.Recv.{mtu_limit, parse_data, move_ready, find_slot, insert_slot}
use emt.Kcp.Ack.{
  Clock, parse_una, shrink_buf, parse_ack, mark_acked, parse_fastack, bump_fastack, out_of_flight,
  ack_push, settings, sample, grow_cwnd, incr, clip_cwnd,
}
use emt.Kcp.Flush.Packets.{AllShort, IsPacketed}
use emt.Kcp.Input.{Seen, segment_of, input_push, dispatch, Round, next, return, input_segment}

-- A state with other segments in `SndBuf`, none too long.
with_buf :
    (k : Kcp) (buf : List Segment)
    → AllShort k.mss buf
    → IsPacketed k
    → IsPacketed (record k { snd_buf = buf })
with_buf k buf h v = record {
  whole = v.whole;
  mss = v.mss;
  some_mss = v.some_mss;
  queue = v.queue;
  buf = h;
  running = v.running;
  packets = v.packets;
}

-- What the sizes are of.
abbrev pub sizes : Kcp → Kcp
sizes k = record (new_kcp 0) {
  buffer_len = k.buffer_len;
  mtu = k.mtu;
  mss = k.mss;
  reserved = k.reserved;
  snd_queue = k.snd_queue;
  snd_buf = k.snd_buf;
  panicked = k.panicked;
  sent = k.sent;
}

sizes-IsPacketed : (k : Kcp) → IsPacketed k → IsPacketed (sizes k)
unfolding new_kcp
sizes-IsPacketed k v = record {
  whole = v.whole;
  mss = v.mss;
  some_mss = v.some_mss;
  queue = v.queue;
  buf = v.buf;
  running = v.running;
  packets = v.packets;
}

IsPacketed-sizes : (k : Kcp) → IsPacketed (sizes k) → IsPacketed k
unfolding new_kcp
IsPacketed-sizes k v = record {
  whole = v.whole;
  mss = v.mss;
  some_mss = v.some_mss;
  queue = v.queue;
  buf = v.buf;
  running = v.running;
  packets = v.packets;
}

pub same_sizes : (k k' : Kcp) → sizes k' ≡ sizes k → IsPacketed k → IsPacketed k'
same_sizes k k' e v = IsPacketed-sizes k' (subst IsPacketed (sym e) (sizes-IsPacketed k v))

settled-IsPacketed :
    (regular : Bool) (una wnd : ℕ) (k : Kcp)
    → IsPacketed k
    → IsPacketed (shrink_buf (settings regular una wnd k).1)
unfolding settings parse_una shrink_buf
settled-IsPacketed regular una wnd k v =
    same_sizes (record k { snd_buf = drop (parse_una una k).0 k.snd_buf }) _ refl
      (with_buf k _ (All-drop (λ (s : Segment). length s.payload ≤ k.mss) _ k.snd_buf v.buf) v)

either_short :
    (mss : ℕ) (b : Bool) (ss ss' : List Segment)
    → AllShort mss ss
    → AllShort mss ss'
    → AllShort mss (if b then ss else ss')
either_short mss true ss ss' h h' = h
either_short mss false ss ss' h h' = h'

mark_acked-AllShort :
    (mss sn : ℕ) (ss : List Segment) → AllShort mss ss → AllShort mss (mark_acked sn ss)
unfolding mark_acked
mark_acked-AllShort mss sn [] h = tt
mark_acked-AllShort mss sn (s ∷ ss) (h, hs) =
    either_short mss (sn == s.sn) _ _ (omega arith, hs)
      (either_short mss (ltb_ℤ (itimediff sn s.sn) (pos 0)) _ _ (h, hs)
        (h, mark_acked-AllShort mss sn ss hs))

bump_fastack-AllShort :
    (mss sn ts : ℕ) (ss : List Segment) → AllShort mss ss → AllShort mss (bump_fastack sn ts ss)
unfolding bump_fastack
bump_fastack-AllShort mss sn ts [] h = tt
bump_fastack-AllShort mss sn ts (s ∷ ss) (h, hs) =
    let b = not (sn == s.sn) && leb_ℤ (itimediff s.ts ts) (pos 0) in
    either_short mss (ltb_ℤ (itimediff sn s.sn) (pos 0)) _ _ (h, hs)
      (bumped b, bump_fastack-AllShort mss sn ts ss hs)
  where
    bumped :
        (b : Bool)
        → length (if b then record s { fastack = add32 s.fastack 1 } else s).payload ≤ mss
    bumped true = h
    bumped false = h

either-IsPacketed :
    (b : Bool) (k k' : Kcp) → IsPacketed k → IsPacketed k' → IsPacketed (if b then k else k')
either-IsPacketed true k k' v v' = v
either-IsPacketed false k k' v v' = v'

acked-IsPacketed :
    (sn ts : ℕ) (k : Kcp) → IsPacketed k → IsPacketed (parse_fastack sn ts (parse_ack sn k))
unfolding parse_ack parse_fastack
acked-IsPacketed sn ts k v = fast (parse_ack sn k) (marked k v)
  where
    marked : (k' : Kcp) → IsPacketed k' → IsPacketed (parse_ack sn k')
    marked k' v' =
        either-IsPacketed (out_of_flight sn k') k' _ v'
          (with_buf k' _ (mark_acked-AllShort k'.mss sn k'.snd_buf v'.buf) v')

    fast : (k' : Kcp) → IsPacketed k' → IsPacketed (parse_fastack sn ts k')
    fast k' v' =
        either-IsPacketed (out_of_flight sn k') k' _ v'
          (with_buf k' _ (bump_fastack-AllShort k'.mss sn ts k'.snd_buf v'.buf) v')

-- A payload that fits a slice of the pool.
parse_data-IsPacketed :
    (seg : Segment) (k : Kcp)
    → length seg.payload ≤ mtu_limit
    → IsPacketed k
    → IsPacketed (parse_data seg k).1
unfolding parse_data move_ready
parse_data-IsPacketed seg k h v =
    elim (Bool-cases (
      leb_ℤ (pos 0) (itimediff seg.sn (add32 k.rcv_nxt k.rcv_wnd))
      || ltb_ℤ (itimediff seg.sn k.rcv_nxt) (pos 0))) [
        | inl out ↦ rw out v
        | inr in_window ↦ rw in_window (record {
          whole = v.whole;
          mss = v.mss;
          some_mss = v.some_mss;
          queue = v.queue;
          buf = v.buf;
          running =
              still _ (not (insert_slot (find_slot seg.sn k.rcv_buf) seg k.rcv_buf).0)
                (ltb mtu_limit (length seg.payload)) v.running (ground (arith, h));
          packets = v.packets;
        })
      ]
  where
    still : (p a b : Bool) → p ≡ false → b ≡ false → (p || (a && b)) ≡ false
    still p true b e f = rw (e, f) refl
    still p false b e f = rw e refl

input_push-IsPacketed :
    (regular : Bool) (h : Header) (payload : List ℕ) (k : Kcp)
    → length payload ≤ mtu_limit
    → IsPacketed k
    → IsPacketed (input_push regular h payload k)
unfolding input_push ack_push
input_push-IsPacketed regular h payload k l v =
    let in_window = ltb_ℤ (itimediff h.sn (add32 k.rcv_nxt k.rcv_wnd)) (pos 0) in
    let acked = if in_window then ack_push h.sn h.ts k else k in
    let v' = either-IsPacketed in_window _ k (same_sizes k _ refl v) v in
    let inside = in_window && leb_ℤ (pos 0) (itimediff h.sn k.rcv_nxt) in
    counted regular _ (data_or_not inside acked v')
  where
    data_or_not :
        (inside : Bool) (k' : Kcp)
        → IsPacketed k'
        → IsPacketed (if inside then parse_data (segment_of h payload) k' else (true, k')).1
    data_or_not true k' v' = parse_data-IsPacketed (segment_of h payload) k' l v'
    data_or_not false k' v' = v'

    counted :
        (b : Bool) (p : Bool × Kcp)
        → IsPacketed p.1
        → IsPacketed (
            if b && p.0
            then record p.1 {
              snmp = record p.1.snmp { repeat_segs = (p.1.snmp.repeat_segs + 1) % u64_mod };
            }
            else p.1)
    counted b p w = either-IsPacketed (b && p.0) _ p.1 (same_sizes p.1 _ refl w) w

Sized : Option Kcp → Type 0
Sized none = Unit
Sized (some k) = IsPacketed k

dispatch-Sized :
    (regular : Bool) (h : Header) (payload : List ℕ) (k : Kcp)
    → length payload ≤ mtu_limit
    → IsPacketed k
    → Sized (dispatch regular h payload k)
unfolding Sized dispatch
dispatch-Sized regular h payload k l v = elim (Bool-cases (h.cmd == cmd_ack)) [
  | inl e ↦ rw e (acked-IsPacketed h.sn h.ts k v)
  | inr e ↦ rw e (elim (Bool-cases (h.cmd == cmd_push)) [
    | inl e1 ↦ rw e1 (input_push-IsPacketed regular h payload k l v)
    | inr e1 ↦ rw e1 (elim (Bool-cases (h.cmd == cmd_wask)) [
      | inl e2 ↦ rw e2 (same_sizes k _ refl v)
      | inr e2 ↦
          rw e2 (elim (Bool-cases (h.cmd == cmd_wins)) [ inl e3 ↦ rw e3 v | inr e3 ↦ rw e3 tt ])
    ])
  ])
]

-- The sizes behind a segment.
unfoldable pub LeavesSizes : Round → Type 0
LeavesSizes (next seen k rest) = IsPacketed k
LeavesSizes (return code k) = IsPacketed k

Sized-LeavesSizes :
    (seen' : Seen) (rest : List ℕ) (k : Kcp) (o : Option Kcp)
    → IsPacketed k
    → Sized o
    → LeavesSizes (elim o [ none ↦ return (negsuc 2) k | some k3 ↦ next seen' k3 rest ])
unfolding Sized LeavesSizes
Sized-LeavesSizes seen' rest k none v w = v
Sized-LeavesSizes seen' rest k (some k3) v w = w

pub input_segment-LeavesSizes :
    (regular : Bool) (h : Header) (rest : List ℕ) (seen : Seen) (k : Kcp)
    → length rest ≤ mtu_limit
    → IsPacketed k
    → LeavesSizes (input_segment regular h rest seen k)
unfolding input_segment
input_segment-LeavesSizes regular h rest seen k l v = elim (Bool-cases (h.conv == k.conv)) [
  | inr e ↦ rw e (unfold LeavesSizes in v)
  | inl e ↦ rw e (elim (Bool-cases (ltb (length rest) h.len)) [
    | inl e1 ↦ rw e1 (unfold LeavesSizes in v)
    | inr e1 ↦
        let k2 = shrink_buf (settings regular h.una h.wnd k).1 in
        let settled = settled-IsPacketed regular h.una h.wnd k v in
        rw e1 (
          Sized-LeavesSizes _ _ k2 (dispatch regular h (take h.len rest) k2) settled (
            dispatch-Sized regular h (take h.len rest) k2 (omega (arith, length-take h.len rest))
              settled))
  ])
]

sizes-sample : (clock : Clock) (latest : ℕ) (k : Kcp) → sizes (sample clock latest k) ≡ sizes k
unfolding sample
sizes-sample clock latest k = ground arith

pub sample-IsPacketed :
    (clock : Clock) (latest : ℕ) (k : Kcp) → IsPacketed k → IsPacketed (sample clock latest k)
sample-IsPacketed clock latest k v = same_sizes k _ (sizes-sample clock latest k) v

sizes-clip_cwnd : (k : Kcp) → sizes (clip_cwnd k) ≡ sizes k
unfolding clip_cwnd
sizes-clip_cwnd k = ground arith

-- `incr` divides by no zero, since `Mss` is none.
incr-IsPacketed : (k : Kcp) → IsPacketed k → IsPacketed (incr k.mss k)
unfolding incr
incr-IsPacketed k v = record {
  whole = v.whole;
  mss = v.mss;
  some_mss = v.some_mss;
  queue = v.queue;
  buf = v.buf;
  running =
      let some_base : (if ltb k.incr k.mss then k.mss else k.incr) == 0 ≡ false =
        ground (arith, v.some_mss) in
      rw (v.running, some_base) refl;
  packets = v.packets;
}

pub grow_cwnd-IsPacketed : (k : Kcp) → IsPacketed k → IsPacketed (grow_cwnd k)
unfolding grow_cwnd
grow_cwnd-IsPacketed k v =
    let grown =
      either-IsPacketed (ltb k.cwnd k.ssthresh) _ (incr k.mss k) (same_sizes k _ refl v)
        (incr-IsPacketed k v) in
    same_sizes _ _ (sizes-clip_cwnd _) grown
