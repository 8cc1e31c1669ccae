-- ===== src/Kcp/Invariant.antt =====
-- What holds of a connection of network/kcp/kcp.go between any two calls, and that the timer's calls
-- keep it.
pub mod Segments
pub mod Sizes
pub mod Packet
pub mod Reading
use native.Mathlib.Nat.{add-zero}
use emt.Common.{
  ℕ, suc, ◌+◌, ◌-◌, ◌%◌, ◌^◌, ◌≤◌, ◌<◌, ◌≡◌, refl, sym, subst, ap, ap₂, ◌∙◌, inl, inr, Bool, true,
  false, not, ◌&&◌, ◌||◌, List, [], ◌∷◌, ◌++◌, drop, min, max, length, length-append, length-drop,
  arith, ltb, leb, ◌==◌, Bool-cases, if◌then◌else◌,
}
use emt.Word.{IsU32, u32_mod, add32, ℤ, pos, leb_ℤ, eqb_ℤ}
use emt.Kcp.State.{Segment, Kcp, new_kcp}
use emt.Kcp.Window.{imin, itimediff}
use emt.Kcp.Recv.Ready.{IsReceiving}
use emt.Kcp.Ack.{Clock, current_ms}
use emt.Kcp.Ack.Flight.{IsSending}
use emt.Kcp.Writer.{Writer}
use emt.Kcp.Flush.{
  take_new, fill_window, send_window, noc, send_all, segs, flush, resend_limit, start_scan,
}
use emt.Kcp.Announce.{probe_window}
use emt.Kcp.Config.{schedule, update}
use emt.Kcp.Flush.Window.{filled, admitted, fill_window_lem, fill_window-IsSending}
use emt.Kcp.Flush.Resend.{range_ref-KeepAll, KeepAll-IsConsecutive, KeepAll-length}
use emt.Kcp.Flush.Packets.{probe_window_frame, noc_frame, probed}

-- The receiver and the sender keep their places, and fewer than 2 ^ 31 segments wait or are in
-- flight.
pub record IsConnected (k : Kcp) : Type 0 where
  pub receiving : IsReceiving k
  pub sending : IsSending k
  pub rmt : k.rmt_wnd < 2 ^ 31
  pub few : length k.snd_buf + length k.snd_queue < 2 ^ 31

-- The fields that the invariant reads.
abbrev pub flow : Kcp → Kcp
flow k = record (new_kcp 0) {
  snd_una = k.snd_una;
  snd_nxt = k.snd_nxt;
  rcv_nxt = k.rcv_nxt;
  rcv_wnd = k.rcv_wnd;
  rmt_wnd = k.rmt_wnd;
  snd_queue = k.snd_queue;
  snd_buf = k.snd_buf;
  rcv_buf = k.rcv_buf;
}

to_flow : (k : Kcp) → IsConnected k → IsConnected (flow k)
to_flow k v = record {
  receiving = record { nxt = v.receiving.nxt; wnd = v.receiving.wnd; buf = v.receiving.buf };
  sending = record {
    una = v.sending.una;
    numbers = v.sending.numbers;
    nxt = v.sending.nxt;
    few = v.sending.few;
  };
  rmt = v.rmt;
  few = v.few;
}

from_flow : (k : Kcp) → IsConnected (flow k) → IsConnected k
from_flow k v = record {
  receiving = record { nxt = v.receiving.nxt; wnd = v.receiving.wnd; buf = v.receiving.buf };
  sending = record {
    una = v.sending.una;
    numbers = v.sending.numbers;
    nxt = v.sending.nxt;
    few = v.sending.few;
  };
  rmt = v.rmt;
  few = v.few;
}

pub same_flow : (k k' : Kcp) → flow k' ≡ flow k → IsConnected k → IsConnected k'
same_flow k k' e v = from_flow k' (subst IsConnected (sym e) (to_flow k v))

send_window_small : (k : Kcp) → k.rmt_wnd < 2 ^ 31 → send_window k < 2 ^ 31
unfolding send_window imin
send_window_small k h = ground arith

take_new-le :
    (conv bound nxt : ℕ) (queue : List Segment)
    → length (take_new conv bound nxt queue).1 ≤ length queue
unfolding take_new
take_new-le conv bound nxt [] = omega arith
take_new-le conv bound nxt (s ∷ ss) =
    let ih = take_new-le conv bound (add32 nxt 1) ss in
    elim (Bool-cases (leb_ℤ (pos 0) (itimediff nxt bound))) [
      | inl full ↦ rw full (omega arith)
      | inr room ↦ rw room (omega (arith, ih))
    ]

fill_window-few :
    (k : Kcp)
    → length (fill_window k).1.snd_buf + length (fill_window k).1.snd_queue
      ≡ length k.snd_buf + length k.snd_queue
unfolding fill_window
fill_window-few k =
    let bound = add32 k.snd_una (send_window k) in
    let new = (take_new k.conv bound k.snd_nxt k.snd_queue).1 in
    omega (
      arith,
      length-append {0} k.snd_buf new,
      length-drop {0} (length new) k.snd_queue,
      take_new-le k.conv bound k.snd_nxt k.snd_queue,
    )

fill_window-IsConnected : (k : Kcp) → IsConnected k → IsConnected (fill_window k).1
fill_window-IsConnected k v =
    let sent = (fill_window-IsSending k v.sending v.few (send_window_small k v.rmt)).0 in
    let few = fill_window-few k in
    record {
      receiving =
          unfold fill_window in
          record { nxt = v.receiving.nxt; wnd = v.receiving.wnd; buf = v.receiving.buf };
      sending = sent;
      rmt = unfold fill_window in v.rmt;
      few = omega (arith, few, v.few);
    }

send_all-IsConnected :
    (clock : Clock) (seg : Segment) (w : Writer) (new_count : ℕ) (k : Kcp)
    → IsConnected k
    → IsConnected (send_all clock seg w new_count k).1
unfolding send_all
send_all-IsConnected clock seg w new_count k v =
    let start = start_scan (clock k.reads % u32_mod) k.interval w (k.reads + 1) in
    let kept = range_ref-KeepAll clock k (resend_limit k) new_count seg k.snd_buf start in
    let len = KeepAll-length k.snd_buf _ kept in
    record {
      receiving = record { nxt = v.receiving.nxt; wnd = v.receiving.wnd; buf = v.receiving.buf };
      sending = record {
        una = v.sending.una;
        numbers = KeepAll-IsConsecutive k.snd_una k.snd_buf _ kept v.sending.numbers;
        nxt = rw len v.sending.nxt;
        few = rw len v.sending.few;
      };
      rmt = v.rmt;
      few = rw len v.few;
    }

noc-IsConnected :
    (losses changes cwnd resent : ℕ) (k : Kcp)
    → IsConnected k
    → IsConnected (noc losses changes cwnd resent k)
noc-IsConnected losses changes cwnd resent k v =
    same_flow k _ (ap flow (noc_frame losses changes cwnd resent k)) v

segs-IsConnected :
    (clock : Clock) (seg : Segment) (w : Writer) (k : Kcp)
    → IsConnected k
    → IsConnected (segs clock seg w k).1
unfolding segs
segs-IsConnected clock seg w k v = noc-IsConnected _ _ (send_window k) (resend_limit k) _ (
    send_all-IsConnected clock seg w (fill_window k).0 (fill_window k).1
      (fill_window-IsConnected k v))

-- `flush`, with acknowledgements alone or with data, and with any clock, keeps the invariant of the
-- connection.
pub flush-IsConnected :
    (clock : Clock) (ack_only : Bool) (k : Kcp)
    → IsConnected k
    → IsConnected (flush clock ack_only k).1
unfolding flush
flush-IsConnected clock true k v = same_flow k _ refl v
flush-IsConnected clock false k v = segs-IsConnected clock _ _ (probed clock k) (
    same_flow k (probed clock k) (ap flow (probe_window_frame clock (record k { acklist = [] }))) v)

flow-schedule : (now : ℕ) (k : Kcp) → flow (schedule now k) ≡ flow k
unfolding schedule
flow-schedule now k = ground arith

-- `Update`, with any clock, keeps the invariant of the connection, whether it flushes or not.
pub update-IsConnected : (clock : Clock) (k : Kcp) → IsConnected k → IsConnected (update clock k)
unfolding update current_ms
update-IsConnected clock k v =
    let now = clock k.reads % u32_mod in
    let k1 = record k { reads = k.reads + 1 } in
    let e = flow-schedule now k1 in
    let k2 = schedule now k1 in
    elim (Bool-cases (leb_ℤ (pos 0) (itimediff now k2.ts_flush))) [
      | inl due ↦ rw due (flush-IsConnected clock false _ (same_flow k _ e v))
      | inr early ↦ rw early (same_flow k _ e v)
    ]
