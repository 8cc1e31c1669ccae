-- ===== src/Kcp/Config/Timing.antt =====
-- The time that `Check` of network/kcp/kcp.go gives, and the retransmission timeout.
use emt.Common.{ℕ, ◌≤◌, Bool, true, false, Option, none, some, leb, arith, ◌==◌, if◌then◌else◌}
use emt.Word.{ℤ, pos, to_u32, leb_ℤ, IsU32, add32, sub32}
use emt.Kcp.State.{Kcp}
use emt.Kcp.Window.{ibound_bounds, itimediff}
use emt.Kcp.Ack.{update_ack}
use emt.Kcp.Config.{check, check_timers, delay, least_timer, far_off}

-- After any sample the timeout lies between `rx_minrto` and a minute, if `rx_minrto` is no more than
-- a minute.
pub update_ack_bounds :
    (rtt : ℤ) (k : Kcp)
    → k.rx_minrto ≤ 60000
    → (k.rx_minrto ≤ (update_ack rtt k).rx_rto) × ((update_ack rtt k).rx_rto ≤ 60000)
unfolding update_ack
update_ack_bounds rtt k h = ibound_bounds k.rx_minrto _ 60000 h

delay-le : (interval : ℕ) (tm_flush tm_packet : ℤ) → delay interval tm_flush tm_packet ≤ interval
unfolding delay
delay-le interval tm_flush tm_packet =
    go (if leb_ℤ tm_flush tm_packet then to_u32 tm_flush else to_u32 tm_packet)
  where
    go : (n : ℕ) → (if leb interval n then interval else n) ≤ interval
    go n = ground arith

now_soon : (now interval : ℕ) → IsU32 now → sub32 now now ≤ interval
unfolding sub32
now_soon now interval h = omega (arith, h)

later_soon :
    (now interval d : ℕ)
    → IsU32 now
    → IsU32 interval
    → d ≤ interval
    → sub32 (add32 now d) now ≤ interval
unfolding sub32 add32
later_soon now interval d h hi hd = omega (arith, h, hi, hd)

timers_soon :
    (now interval : ℕ) (tm_flush : ℤ) (o : Option ℤ)
    → IsU32 now
    → IsU32 interval
    → sub32 (check_timers now interval tm_flush o) now ≤ interval
timers_soon now interval tm_flush none h hi = now_soon now interval h
timers_soon now interval tm_flush (some tm_packet) h hi =
    later_soon now interval _ h hi (delay-le interval tm_flush tm_packet)

either :
    (b : Bool) (now interval t t' : ℕ)
    → sub32 t now ≤ interval
    → sub32 t' now ≤ interval
    → sub32 (if b then t else t') now ≤ interval
either true now interval t t' h h' = h
either false now interval t t' h h' = h'

-- `Check` gives a time from now on that lies no more than an interval ahead, whatever the timers of
-- the segments are.
pub check-le :
    (now : ℕ) (k : Kcp) → IsU32 now → IsU32 k.interval → sub32 (check now k) now ≤ k.interval
unfolding check
check-le now k hn hi =
    let ts_flush = if far_off (itimediff now k.ts_flush) then now else k.ts_flush in
    let soon = now_soon now k.interval hn in
    let tm_flush = itimediff ts_flush now in
    let least = least_timer now (pos 0x7fffffff) k.snd_buf in
    let next = check_timers now k.interval tm_flush least in
    let due = leb_ℤ (pos 0) (itimediff now ts_flush) in
    either (k.updated == 0) now k.interval now (if due then now else next) soon
      (either due now k.interval now next soon (timers_soon now k.interval tm_flush least hn hi))
