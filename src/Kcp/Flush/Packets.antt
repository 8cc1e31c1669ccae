-- ===== src/Kcp/Flush/Packets.antt =====
-- `flush` of network/kcp/kcp.go never writes past its buffer and sends no packet longer than the MTU.
use emt.Common.{
  ℕ, ◌+◌, ◌%◌, ◌≤◌, ◌<◌, ◌≡◌, refl, sym, subst, ap, inl, inr, Bool, true, false, not, ◌||◌, bit_and,
  List, [], ◌∷◌, length, arith, ◌==◌, Bool-cases, All, All-append, All-drop,
}
use emt.Word.{u32_mod, add32, pos, leb_ℤ}
use emt.Kcp.State.{Segment, AckItem, Kcp, ask_send, ask_tell, cmd_wask, cmd_wins}
use emt.Kcp.Window.{itimediff}
use emt.Kcp.Ack.{Clock, current_ms}
use emt.Kcp.Writer.{Writer, Limits, start_writer, limits}
use emt.Kcp.Writer.Bounds.{
  IsWritable, IsWithin, IsPacket, make_space-IsWithin, command-IsWithin, flush_buffer-IsWithin,
}
use emt.Kcp.Flush.{
  take_new, fill_window, send_window, noc, segs, flush, flush_seg, start_scan, send_all,
  resend_limit,
}
use emt.Kcp.Announce.{flush_ack, flush_acks, is_last, flush_probe, probe_window}
use emt.Kcp.Flush.Resend.{range_ref-KeepAll, range_ref-IsWithin, KeepAll-All}

-- No segment of the list is longer than `mss`.
abbrev pub AllShort : ℕ → List Segment → Type 0
AllShort mss ss = All (λ s. length s.payload ≤ mss) ss

-- The sizes fit: the MTU is that of the buffer and makes room for the reserved bytes, a header and
-- `Mss` bytes, at least one, no segment to send is longer, and what was sent is no longer than the MTU.
pub record IsPacketed (k : Kcp) : Type 0 where
  pub whole : k.buffer_len ≡ k.mtu
  pub mss : k.mss + (k.reserved + 24) ≡ k.mtu
  pub some_mss : 0 < k.mss
  pub queue : AllShort k.mss k.snd_queue
  pub buf : AllShort k.mss k.snd_buf
  pub running : k.panicked ≡ false
  pub packets : All (IsPacket (limits k)) k.sent

pub IsPacketed-IsWritable : {k : Kcp} → IsPacketed k → IsWritable (limits k)
IsPacketed-IsWritable v = record { whole = v.whole; header_fits = omega (arith, v.mss) }

flush_ack-IsWithin :
    (l : Limits) (rcv_nxt : ℕ) (last : Bool) (a : AckItem) (p : Segment × Writer)
    → IsWritable l
    → IsWithin l p.1
    → IsWithin l (flush_ack l rcv_nxt last a p).1
unfolding flush_ack
flush_ack-IsWithin l rcv_nxt last a (seg, w) ok v =
    elim (Bool-cases (leb_ℤ (pos 0) (itimediff a.sn rcv_nxt) || last)) [
      | inl yes_write ↦ rw yes_write (command-IsWithin l ok w v _)
      | inr no_write ↦ rw no_write (make_space-IsWithin l ok w v 24 ok.header_fits).0
    ]

flush_acks-IsWithin :
    (l : Limits) (rcv_nxt : ℕ) (acks : List AckItem) (p : Segment × Writer)
    → IsWritable l
    → IsWithin l p.1
    → IsWithin l (flush_acks l rcv_nxt acks p).1
unfolding flush_acks
flush_acks-IsWithin l rcv_nxt [] p ok v = v
flush_acks-IsWithin l rcv_nxt (a ∷ acks) p ok v =
    flush_acks-IsWithin l rcv_nxt acks _ ok (flush_ack-IsWithin l rcv_nxt (is_last acks) a p ok v)

flush_probe-IsWithin :
    (l : Limits) (probe bit cmd : ℕ) (p : Segment × Writer)
    → IsWritable l
    → IsWithin l p.1
    → IsWithin l (flush_probe l probe bit cmd p).1
unfolding flush_probe
flush_probe-IsWithin l probe bit cmd (seg, w) ok v =
    elim (Bool-cases (not (bit_and probe bit == 0))) [
      | inl asked ↦ rw asked (command-IsWithin l ok w v _)
      | inr no_ask ↦ rw no_ask v
    ]

take_new-AllShort :
    (mss conv bound nxt : ℕ) (queue : List Segment)
    → AllShort mss queue
    → AllShort mss (take_new conv bound nxt queue).1
unfolding take_new
take_new-AllShort mss conv bound nxt [] h = tt
take_new-AllShort mss conv bound nxt (s ∷ ss) (h, hs) =
    elim (Bool-cases (leb_ℤ (pos 0) (itimediff nxt bound))) [
      | inl full ↦ rw full tt
      | inr room ↦ rw room (h, take_new-AllShort mss conv bound (add32 nxt 1) ss hs)
    ]

fill_window-IsPacketed : (k : Kcp) → IsPacketed k → IsPacketed (fill_window k).1
unfolding fill_window
fill_window-IsPacketed k v = record {
  whole = v.whole;
  mss = v.mss;
  some_mss = v.some_mss;
  queue = All-drop (λ (s : Segment). length s.payload ≤ k.mss) _ k.snd_queue v.queue;
  buf =
      All-append (λ (s : Segment). length s.payload ≤ k.mss) k.snd_buf _ v.buf
        (take_new-AllShort k.mss k.conv _ k.snd_nxt k.snd_queue v.queue);
  running = v.running;
  packets = v.packets;
}

pub noc_frame :
    (losses changes cwnd resent : ℕ) (k : Kcp)
    → let k' = noc losses changes cwnd resent k in
      k' ≡ record k { ssthresh = k'.ssthresh; cwnd = k'.cwnd; incr = k'.incr }
unfolding noc
noc_frame losses changes cwnd resent k = ground arith

pub probe_window_frame :
    (clock : Clock) (k : Kcp)
    → let k' = probe_window clock k in
      k' ≡ record k {
        ts_probe = k'.ts_probe;
        probe_wait = k'.probe_wait;
        probe = k'.probe;
        reads = k'.reads;
      }
unfolding probe_window current_ms
probe_window_frame clock k = ground arith

noc-IsPacketed :
    (losses changes cwnd resent : ℕ) (k : Kcp)
    → IsPacketed k
    → IsPacketed (noc losses changes cwnd resent k)
noc-IsPacketed losses changes cwnd resent k v =
    subst IsPacketed (sym (noc_frame losses changes cwnd resent k)) (record {
      whole = v.whole;
      mss = v.mss;
      some_mss = v.some_mss;
      queue = v.queue;
      buf = v.buf;
      running = v.running;
      packets = v.packets;
    })

-- The output of `flush` stays within its bounds from its start.
start_writer-IsWithin : (k : Kcp) → IsPacketed k → IsWithin (limits k) (start_writer k)
start_writer-IsWithin k v = record {
  room = omega (arith, v.mss);
  fits = ground (arith, v.mss, v.whole);
  packets = v.packets;
}

no_panic : {a b : Bool} → a ≡ false → b ≡ true → (a || not b) ≡ false
no_panic p q = rw (p, q)

-- Every segment of `SndBuf` fits a packet.
fits_packet :
    (reserved mss mtu : ℕ) (ss : List Segment)
    → mss + (reserved + 24) ≡ mtu
    → AllShort mss ss
    → All (λ s. reserved + (24 + length s.payload) ≤ mtu) ss
fits_packet reserved mss mtu [] e h = tt
fits_packet reserved mss mtu (s ∷ ss) e (h, hs) =
    (omega arith, fits_packet reserved mss mtu ss e hs)

send_all-IsPacketed :
    (clock : Clock) (seg : Segment) (w : Writer) (new_count : ℕ) (k : Kcp)
    → IsPacketed k
    → IsWithin (limits k) w
    → IsPacketed (send_all clock seg w new_count k).1
unfolding send_all
send_all-IsPacketed clock seg w new_count k v b =
    let start = start_scan (clock k.reads % u32_mod) k.interval w (k.reads + 1) in
    let ok = IsPacketed-IsWritable v in
    let kept = range_ref-KeepAll clock k (resend_limit k) new_count seg k.snd_buf start in
    let within =
      range_ref-IsWithin clock k (resend_limit k) new_count seg k.snd_buf start ok
        (fits_packet k.reserved k.mss k.mtu k.snd_buf v.mss v.buf) b in
    let out = flush_buffer-IsWithin (limits k) ok _ within in
    record {
      whole = v.whole;
      mss = v.mss;
      some_mss = v.some_mss;
      queue = v.queue;
      buf = KeepAll-All k.mss k.snd_buf _ kept v.buf;
      running = no_panic v.running out.fits;
      packets = out.packets;
    }

limits-fill_window : (k : Kcp) → limits (fill_window k).1 ≡ limits k
unfolding fill_window
limits-fill_window k = refl

segs-IsPacketed :
    (clock : Clock) (seg : Segment) (w : Writer) (k : Kcp)
    → IsPacketed k
    → IsWithin (limits k) w
    → IsPacketed (segs clock seg w k).1
unfolding segs
segs-IsPacketed clock seg w k v b = noc-IsPacketed _ _ (send_window k) (resend_limit k) _ (
    send_all-IsPacketed clock seg w (fill_window k).0 (fill_window k).1 (fill_window-IsPacketed k v)
      (rw limits-fill_window b))

-- The state with which `flush` goes on to `segs`.
abbrev pub probed : Clock → Kcp → Kcp
probed clock k = record (probe_window clock (record k { acklist = [] })) { probe = 0 }

probed_lem :
    (clock : Clock) (k : Kcp)
    → IsPacketed k
    → IsPacketed (probed clock k) × (limits (probed clock k) ≡ limits k)
probed_lem clock k v =
    let frame = probe_window_frame clock (record k { acklist = [] }) in
    (
      subst (λ k'. IsPacketed (record k' { probe = 0 })) (sym frame)
          (record {
            whole = v.whole;
            mss = v.mss;
            some_mss = v.some_mss;
            queue = v.queue;
            buf = v.buf;
            running = v.running;
            packets = v.packets;
          }),
      ap (λ k'. limits (record k' { probe = 0 })) frame,
    )

-- If the sizes fit, that is, no queued segment is longer than an `Mss` of at least one byte, the MTU
-- has room for it, and what was sent so far is no longer than the MTU: `flush` keeps them so. In
-- particular it makes no write out of range, so that it does not panic, and every packet that it
-- sends is no longer than the MTU. (`SetMtu` to a smaller size while segments wait breaks the
-- condition.)
pub flush-IsPacketed :
    (clock : Clock) (ack_only : Bool) (k : Kcp)
    → IsPacketed k
    → IsPacketed (flush clock ack_only k).1
unfolding flush
flush-IsPacketed clock true k v =
    let ok = IsPacketed-IsWritable v in
    let acks =
      flush_acks-IsWithin (limits k) k.rcv_nxt k.acklist (flush_seg k, start_writer k) ok
        (start_writer-IsWithin k v) in
    let out = flush_buffer-IsWithin (limits k) ok _ acks in
    record {
      whole = v.whole;
      mss = v.mss;
      some_mss = v.some_mss;
      queue = v.queue;
      buf = v.buf;
      running = no_panic v.running out.fits;
      packets = out.packets;
    }
flush-IsPacketed clock false k v =
    let ok = IsPacketed-IsWritable v in
    let acks =
      flush_acks-IsWithin (limits k) k.rcv_nxt k.acklist (flush_seg k, start_writer k) ok
        (start_writer-IsWithin k v) in
    let asks = flush_acks (limits k) k.rcv_nxt k.acklist (flush_seg k, start_writer k) in
    let bits = (probe_window clock (record k { acklist = [] })).probe in
    let asked = flush_probe (limits k) bits ask_send cmd_wask asks in
    let within =
      flush_probe-IsWithin (limits k) bits ask_tell cmd_wins asked ok
        (flush_probe-IsWithin (limits k) bits ask_send cmd_wask asks ok acks) in
    let (v', same) = probed_lem clock k v in
    segs-IsPacketed clock _ _ (probed clock k) v' (rw same within)
