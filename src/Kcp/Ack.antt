-- ===== src/Kcp/Ack.antt =====
-- Acknowledgements in network/kcp/kcp.go: `updateAck`, `shrinkBuf`, `parseAck`, `parseFastack`,
-- `parseUna`, `ackPush`, `settings`, `nocwnd`, `incr`, and the clock.
pub mod Flight
pub mod Marks
pub mod Skips
use emt.Common.{
  ℕ, suc, ◌+◌, ◌/◌, ◌%◌, Bool, ◌&&◌, ◌||◌, not, List, [], ◌∷◌, ◌++◌, drop, ltb, leb, ◌==◌,
  if◌then◌else◌,
}
use emt.Word.{
  ℤ, pos, ltb_ℤ, leb_ℤ, eqb_ℤ, u32_mod, add32, sub32, mul32, to_u32, add_i32, sub_i32, sar,
}
use emt.Kcp.State.{Segment, Kcp, rto_max}
use emt.Kcp.Window.{imax, ibound, itimediff}

-- The readings of the clock in milliseconds, one after the other.
abbrev pub Clock : Type 0
Clock = ℕ → ℕ

-- `currentMs`: the next reading, as a uint32.
unfoldable pub current_ms : Clock → Kcp → ℕ × Kcp
current_ms clock k = (clock k.reads % u32_mod, record k { reads = k.reads + 1 })

-- The smoothed round trip time and its variation after a sample.
unfoldable pub smooth : ℤ → ℤ → ℤ → ℤ × ℤ
unfolding sub_i32 add_i32 sar
smooth rtt srtt rttvar =
    if eqb_ℤ srtt (pos 0)
    then (rtt, sar rtt 1)
    else let delta = sub_i32 rtt srtt in
      let srtt' = add_i32 srtt (sar delta 3) in
      let delta' = if ltb_ℤ delta (pos 0) then sub_i32 (pos 0) delta else delta in
      let k = if ltb_ℤ rtt (sub_i32 srtt' rttvar) then 5 else 2 in
      (srtt', add_i32 rttvar (sar (sub_i32 delta' rttvar) k))

unfoldable pub update_ack : ℤ → Kcp → Kcp
unfolding smooth ibound imax
update_ack rtt k =
    let (srtt, rttvar) = smooth rtt k.rx_srtt k.rx_rttvar in
    let rto = add32 (to_u32 srtt) (imax k.interval (mul32 (to_u32 rttvar) 4)) in
    record k { rx_srtt = srtt; rx_rttvar = rttvar; rx_rto = ibound k.rx_minrto rto rto_max }

abbrev pub first_sn : List Segment → ℕ → ℕ
first_sn [] nxt = nxt
first_sn (s ∷ ss) nxt = s.sn

unfoldable pub shrink_buf : Kcp → Kcp
shrink_buf k = record k { snd_una = first_sn k.snd_buf k.snd_nxt }

-- The loop of `parseAck`.
unfoldable pub mark_acked : ℕ → List Segment → List Segment
mark_acked sn [] = []
mark_acked sn (s ∷ ss) =
    let rest = s ∷ mark_acked sn ss in
    if sn == s.sn
    then record s { acked = 1; payload = [] } ∷ ss
    else if ltb_ℤ (itimediff sn s.sn) (pos 0)
    then s ∷ ss
    else rest

-- The guard of `parseAck` and `parseFastack`.
unfoldable pub out_of_flight : ℕ → Kcp → Bool
out_of_flight sn k =
    ltb_ℤ (itimediff sn k.snd_una) (pos 0) || leb_ℤ (pos 0) (itimediff sn k.snd_nxt)

unfoldable pub parse_ack : ℕ → Kcp → Kcp
unfolding mark_acked out_of_flight
parse_ack sn k = if out_of_flight sn k then k else record k { snd_buf = mark_acked sn k.snd_buf }

-- The loop of `parseFastack`.
unfoldable pub bump_fastack : ℕ → ℕ → List Segment → List Segment
bump_fastack sn ts [] = []
bump_fastack sn ts (s ∷ ss) =
    let bumped =
      if not (sn == s.sn) && leb_ℤ (itimediff s.ts ts) (pos 0)
      then record s { fastack = add32 s.fastack 1 }
      else s in
    let rest = bumped ∷ bump_fastack sn ts ss in
    if ltb_ℤ (itimediff sn s.sn) (pos 0) then s ∷ ss else rest

unfoldable pub parse_fastack : ℕ → ℕ → Kcp → Kcp
unfolding bump_fastack out_of_flight
parse_fastack sn ts k =
    if out_of_flight sn k then k else record k { snd_buf = bump_fastack sn ts k.snd_buf }

-- The loop of `parseUna`: how many segments at the front lie before `una`.
unfoldable pub count_before : ℕ → List Segment → ℕ
count_before una [] = 0
count_before una (s ∷ ss) =
    let rest = suc (count_before una ss) in if ltb_ℤ (pos 0) (itimediff una s.sn) then rest else 0

unfoldable pub parse_una : ℕ → Kcp → ℕ × Kcp
unfolding count_before
parse_una una k =
    let count = count_before una k.snd_buf in (count, record k { snd_buf = drop count k.snd_buf })

unfoldable pub ack_push : ℕ → ℕ → Kcp → Kcp
ack_push sn ts k = record k { acklist = k.acklist ++ (record { sn = sn; ts = ts } ∷ []) }

unfoldable pub settings : Bool → ℕ → ℕ → Kcp → Bool × Kcp
unfolding parse_una
settings regular una wnd k =
    let (count, k') = parse_una una (record k { rmt_wnd = if regular then wnd else k.rmt_wnd }) in
    (ltb 0 count, k')

-- `current`: a sample of the round trip time, unless the clock is behind the echoed time.
unfoldable pub sample : Clock → ℕ → Kcp → Kcp
unfolding current_ms update_ack
sample clock latest k =
    let (now, k') = current_ms clock k in
    if leb_ℤ (pos 0) (itimediff now latest) then update_ack (itimediff now latest) k' else k'

-- `incr`: growth of the congestion window beyond the slow start. `Incr` is not 0 where it divides
-- unless `mss` is, and then Go panics.
unfoldable pub incr : ℕ → Kcp → Kcp
incr mss k =
    let base = if ltb k.incr mss then mss else k.incr in
    let grown = add32 base (add32 (mul32 mss mss / base) (mss / 16)) in
    let cwnd =
      if leb (mul32 (add32 k.cwnd 1) mss) grown
      then (if ltb 0 mss then sub32 (add32 grown mss) 1 / mss else sub32 (add32 grown mss) 1)
      else k.cwnd in
    record k { incr = grown; cwnd = cwnd; panicked = k.panicked || base == 0 }

unfoldable pub clip_cwnd : Kcp → Kcp
clip_cwnd k =
    if ltb k.rmt_wnd k.cwnd then record k { cwnd = k.rmt_wnd; incr = mul32 k.rmt_wnd k.mss } else k

-- `nocwnd`: the window grows when new data is acknowledged.
unfoldable pub grow_cwnd : Kcp → Kcp
unfolding incr clip_cwnd
grow_cwnd k = clip_cwnd (
    if ltb k.cwnd k.ssthresh
    then record k { cwnd = add32 k.cwnd 1; incr = add32 k.incr k.mss }
    else incr k.mss k)
