-- ===== src/Kcp/Flush.antt =====
-- `flush` of network/kcp/kcp.go with `wndUnused`, `segs`, `rangeRef` and `noc`.
pub mod Window
pub mod Resend
pub mod Packets
use emt.Kcp.Transmit.{
  Kind, kind_of, rearm, Scan, tally, needs_send, transmit, lower_minrto, attempt, visit, range_ref,
}
use emt.Kcp.Announce.{wnd_unused, is_last, flush_ack, flush_acks, probe_window, flush_probe}
use Prim.Native.Nat.{bit_and}
use emt.Common.{
  ℕ, ◌+◌, ◌-◌, ◌/◌, ◌%◌, ◌^◌, Bool, true, false, ◌&&◌, ◌||◌, not, List, [], ◌∷◌, ◌++◌, length, drop,
  bit_or, ltb, leb, ◌==◌, if◌then◌else◌,
}
use emt.Word.{pos, ltb_ℤ, leb_ℤ, eqb_ℤ, u32_mod, u64_mod, add32, sub32, mul32, to_u32}
use emt.Kcp.State.{
  Segment, blank, AckItem, Snmp, Kcp, overhead, cmd_push, cmd_ack, cmd_wask, cmd_wins, ask_send,
  thresh_min, ask_tell, probe_init, probe_limit,
}
use emt.Kcp.Window.{imin, itimediff}
use emt.Kcp.Ack.{Clock, current_ms}
use emt.Kcp.Writer.{
  Writer, Limits, make_space, encode, write_payload, flush_buffer, start_writer, limits,
}

-- The loop of `segs` that numbers queued segments: the next number and the segments taken.
unfoldable pub take_new : ℕ → ℕ → ℕ → List Segment → ℕ × List Segment
take_new conv bound nxt [] = (nxt, [])
take_new conv bound nxt (s ∷ ss) =
    let (nxt', new) = take_new conv bound (add32 nxt 1) ss in
    if leb_ℤ (pos 0) (itimediff nxt bound)
    then (nxt, [])
    else (nxt', record s { conv = conv; cmd = cmd_push; sn = nxt } ∷ new)

-- `noc`: the congestion window after losses and retransmissions.
unfoldable pub noc : ℕ → ℕ → ℕ → ℕ → Kcp → Kcp
noc losses changes cwnd resent k =
    if not (eqb_ℤ k.nocwnd (pos 0))
    then k
    else let low = (ltb 0 losses || ltb 0 changes) && ltb k.ssthresh thresh_min in
      let k1 = record k { ssthresh = if low then thresh_min else k.ssthresh } in
      let k2 =
        if ltb 0 losses then record k1 { ssthresh = cwnd / 2; cwnd = 1; incr = k.mss } else k1 in
      let half = sub32 k.snd_nxt k.snd_una / 2 in
      let grown = add32 half resent in
      let k3 =
        if ltb 0 changes
        then record k2 { ssthresh = half; cwnd = grown; incr = mul32 grown k.mss }
        else k2 in
      if ltb k3.cwnd 1 then record k3 { cwnd = 1; incr = k.mss } else k3

abbrev pub add_counts : Scan → Snmp → Snmp
add_counts a c = record c {
  out_segs = (c.out_segs + a.writer.segs) % u64_mod;
  lost_segs = (c.lost_segs + a.lost) % u64_mod;
  fast_retrans_segs = (c.fast_retrans_segs + a.fast) % u64_mod;
  early_retrans_segs = (c.early_retrans_segs + a.early) % u64_mod;
  retrans_segs = (c.retrans_segs + (a.lost + a.fast + a.early)) % u64_mod;
}

-- The window within which `segs` numbers new segments.
unfoldable pub send_window : Kcp → ℕ
unfolding imin
send_window k =
    let cwnd = imin k.snd_wnd k.rmt_wnd in if eqb_ℤ k.nocwnd (pos 0) then imin k.cwnd cwnd else cwnd

-- The first part of `segs`: queued segments enter the window.
unfoldable pub fill_window : Kcp → ℕ × Kcp
fill_window k =
    let (nxt, new) = take_new k.conv (add32 k.snd_una (send_window k)) k.snd_nxt k.snd_queue in
    (
      length new,
      record k {
        snd_nxt = nxt;
        snd_buf = k.snd_buf ++ new;
        snd_queue = drop (length new) k.snd_queue;
      },
    )

-- `uint32(kcp.Fastresend)`, or no limit if it is not positive.
unfoldable pub resend_limit : Kcp → ℕ
resend_limit k = if leb_ℤ k.fastresend (pos 0) then 0xffffffff else to_u32 k.fastresend

-- The variables of `rangeRef` at the start.
abbrev pub start_scan : ℕ → ℕ → Writer → ℕ → Scan
start_scan now interval w reads = record {
  now = now;
  minrto = interval;
  change = 0;
  lost = 0;
  fast = 0;
  early = 0;
  writer = w;
  dead = false;
  reads = reads;
}

-- The second part of `segs`: what is to be sent is sent, and counted.
unfoldable pub send_all : Clock → Segment → Writer → ℕ → Kcp → Scan × Kcp
send_all clock seg w new_count k =
    let now = clock k.reads % u32_mod in
    let (buf, a) =
      range_ref clock k (resend_limit k) new_count seg k.snd_buf
        (start_scan now k.interval w (k.reads + 1)) in
    let out = flush_buffer a.writer in
    (
      a,
      record k {
        snd_buf = buf;
        sent = out.sent;
        panicked = k.panicked || not out.fits;
        state = if a.dead then 0xffffffff else k.state;
        reads = a.reads;
        snmp = add_counts a k.snmp;
      },
    )

unfoldable pub segs : Clock → Segment → Writer → Kcp → ℕ × Kcp
segs clock seg w k0 =
    let (new_count, k) = fill_window k0 in
    let (a, k') = send_all clock seg w new_count k in
    (a.minrto, noc a.lost a.change (send_window k0) (resend_limit k0) k')

-- The segment that `flush` fills in for its commands.
abbrev pub flush_seg : Kcp → Segment
flush_seg k = record blank { conv = k.conv; cmd = cmd_ack; wnd = wnd_unused k; una = k.rcv_nxt }

-- `flush`: the time to the next call, and the new state.
unfoldable pub flush : Clock → Bool → Kcp → ℕ × Kcp
flush clock ack_only k =
    let (seg, w) = flush_acks (limits k) k.rcv_nxt k.acklist (flush_seg k, start_writer k) in
    let k1 = record k { acklist = [] } in
    if ack_only
    then (let out = flush_buffer w in
        (
          k.interval,
          record k1 {
            sent = out.sent;
            panicked = k.panicked || not out.fits;
            snmp = record k.snmp { out_segs = (k.snmp.out_segs + out.segs) % u64_mod };
          },
        ))
    else (let k2 = probe_window clock k1 in
        let asked = flush_probe (limits k) k2.probe ask_send cmd_wask (seg, w) in
        let (seg', w') = flush_probe (limits k) k2.probe ask_tell cmd_wins asked in
        segs clock seg' w' (record k2 { probe = 0 }))
