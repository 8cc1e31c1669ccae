-- ===== src/Kcp/Config.antt =====
-- The settings and the schedule of network/kcp/kcp.go: `ReserveBytes`, `SetMtu`, `NoDelay`,
-- `WndSize`, `WaitSnd`, `ReleaseTX`, `Update`, `Check`.
pub mod Timing
use emt.Common.{
  ℕ, ◌+◌, ◌%◌, Bool, true, false, ◌||◌, Option, none, some, List, [], ◌∷◌, length, leb, ◌==◌,
  if◌then◌else◌,
}
use emt.Word.{ℤ, pos, negsuc, ltb_ℤ, leb_ℤ, eqb_ℤ, pos_part, u32_mod, add32, sub32, to_u32, to_i32}
use emt.Kcp.State.{Segment, Kcp, overhead, rto_ndl, rto_min}
use emt.Kcp.Window.{itimediff}
use emt.Kcp.Ack.{Clock, current_ms}
use emt.Kcp.Flush.{flush}

unfoldable pub reserve_bytes : ℤ → Kcp → Bool × Kcp
reserve_bytes n k =
    if leb_ℤ (pos (sub32 k.mtu overhead)) n || ltb_ℤ n (pos 0)
    then (false, k)
    else (true, record k { reserved = pos_part n; mss = sub32 (sub32 k.mtu overhead) (to_u32 n) })

-- `SetMtu`. The bytes reserved are compared with the old `Mtu`.
unfoldable pub set_mtu : ℤ → Kcp → ℤ × Kcp
set_mtu mtu k =
    if ltb_ℤ mtu (pos 50) || ltb_ℤ mtu (pos overhead)
    then (negsuc 0, k)
    else if leb (sub32 k.mtu overhead) k.reserved
    then (negsuc 0, k)
    else (
      pos 0,
      record k {
        mtu = to_u32 mtu;
        mss = sub32 (sub32 (to_u32 mtu) overhead) (k.reserved % u32_mod);
        buffer_len = pos_part mtu;
      },
    )

abbrev pub set_nodelay : ℤ → Kcp → Kcp
set_nodelay nodelay k =
    if leb_ℤ (pos 0) nodelay
    then record k {
      nodelay = to_u32 nodelay;
      rx_minrto = if eqb_ℤ nodelay (pos 0) then rto_min else rto_ndl;
    }
    else k

abbrev pub set_interval : ℤ → Kcp → Kcp
set_interval interval k =
    if leb_ℤ (pos 0) interval
    then record k {
      interval =
          if ltb_ℤ (pos 5000) interval
          then 5000
          else if ltb_ℤ interval (pos 10)
          then 10
          else to_u32 interval;
    }
    else k

unfoldable pub no_delay : ℤ → ℤ → ℤ → ℤ → Kcp → Kcp
no_delay nodelay interval resend nc k =
    let k1 = set_interval interval (set_nodelay nodelay k) in
    let k2 =
      if leb_ℤ (pos 0) resend then record k1 { fastresend = to_i32 (to_u32 resend) } else k1 in
    if leb_ℤ (pos 0) nc then record k2 { nocwnd = to_i32 (to_u32 nc) } else k2

unfoldable pub wnd_size : ℤ → ℤ → Kcp → Kcp
wnd_size sndwnd rcvwnd k = record k {
  snd_wnd = if ltb_ℤ (pos 0) sndwnd then to_u32 sndwnd else k.snd_wnd;
  rcv_wnd = if ltb_ℤ (pos 0) rcvwnd then to_u32 rcvwnd else k.rcv_wnd;
}

unfoldable pub wait_snd : Kcp → ℕ
wait_snd k = length k.snd_buf + length k.snd_queue

unfoldable pub release_tx : Kcp → Kcp
release_tx k = record k { snd_queue = []; snd_buf = [] }

-- Whether a time lies 10 seconds or more from now.
abbrev pub far_off : ℤ → Bool
far_off slap = leb_ℤ (pos 10000) slap || ltb_ℤ slap (negsuc 9999)

-- The first part of `Update`: `TSFlush`, set at the first call and when it is far off.
unfoldable pub schedule : ℕ → Kcp → Kcp
schedule now k =
    let k' = if k.updated == 0 then record k { updated = 1; ts_flush = now } else k in
    if far_off (itimediff now k'.ts_flush) then record k' { ts_flush = now } else k'

-- The next flush time, an interval after the last or after now.
unfoldable pub next_flush : ℕ → Kcp → ℕ
next_flush now k =
    let due = add32 k.ts_flush k.interval in
    if leb_ℤ (pos 0) (itimediff now due) then add32 now k.interval else due

-- `Update`: flushes when the flush time has come, and sets the next one.
unfoldable pub update : Clock → Kcp → Kcp
update clock k0 =
    let (now, k1) = current_ms clock k0 in
    let k2 = schedule now k1 in
    if leb_ℤ (pos 0) (itimediff now k2.ts_flush)
    then (flush clock false (record k2 { ts_flush = next_flush now k2 })).1
    else k2

-- The loop of `Check`: `none` if a timer has run out, and the least of the times left.
unfoldable pub least_timer : ℕ → ℤ → List Segment → Option ℤ
least_timer now best [] = some best
least_timer now best (s ∷ ss) =
    let diff = itimediff s.resendts now in
    let rest = least_timer now (if ltb_ℤ diff best then diff else best) ss in
    if leb_ℤ diff (pos 0) then none else rest

-- The delay that `Check` adds to the time, from the time to the flush and the least timer.
unfoldable pub delay : ℕ → ℤ → ℤ → ℕ
delay interval tm_flush tm_packet =
    let minimal = if leb_ℤ tm_flush tm_packet then to_u32 tm_flush else to_u32 tm_packet in
    if leb interval minimal then interval else minimal

abbrev pub check_timers : ℕ → ℕ → ℤ → Option ℤ → ℕ
check_timers now interval tm_flush none = now
check_timers now interval tm_flush (some tm_packet) = add32 now (delay interval tm_flush tm_packet)

-- `Check`, at a reading of the clock: when to call `Update` next.
unfoldable pub check : ℕ → Kcp → ℕ
unfolding least_timer delay
check now k =
    let ts_flush = if far_off (itimediff now k.ts_flush) then now else k.ts_flush in
    if k.updated == 0
    then now
    else if leb_ℤ (pos 0) (itimediff now ts_flush)
    then now
    else check_timers now k.interval (itimediff ts_flush now)
        (least_timer now (pos 0x7fffffff) k.snd_buf)
