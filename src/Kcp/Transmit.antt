-- ===== src/Kcp/Transmit.antt =====
-- `rangeRef` of network/kcp/kcp.go: which segments in flight are sent, and sent again.
use emt.Common.{
  ℕ, ◌+◌, ◌/◌, ◌%◌, Bool, true, false, ◌&&◌, ◌||◌, List, [], ◌∷◌, length, ltb, leb, ◌==◌,
  if◌then◌else◌,
}
use emt.Word.{pos, ltb_ℤ, leb_ℤ, u32_mod, add32, to_u32}
use emt.Kcp.State.{Segment, Kcp, overhead}
use emt.Kcp.Window.{itimediff}
use emt.Kcp.Ack.{Clock}
use emt.Kcp.Writer.{Writer, make_space, encode, write_payload, limits}

-- The cases of the `switch` in `rangeRef`.
pub data Kind : Type 0 where
  first fast early lost idle : Kind

unfoldable pub kind_of : ℕ → ℕ → ℕ → Segment → Kind
kind_of resent new_count now s =
    if s.xmit == 0
    then Kind.first
    else if leb resent s.fastack
    then Kind.fast
    else if ltb 0 s.fastack && new_count == 0
    then Kind.early
    else if leb_ℤ (pos 0) (itimediff now s.resendts)
    then Kind.lost
    else Kind.idle

-- The timers that each case sets.
unfoldable pub rearm : ℕ → ℕ → ℕ → Kind → Segment → Segment
rearm rx_rto nodelay now Kind.first s = record s { rto = rx_rto; resendts = add32 now rx_rto }
rearm rx_rto nodelay now Kind.fast s = record s {
  fastack = 0;
  rto = rx_rto;
  resendts = add32 now rx_rto;
}
rearm rx_rto nodelay now Kind.early s = record s {
  fastack = 0;
  rto = rx_rto;
  resendts = add32 now rx_rto;
}
rearm rx_rto nodelay now Kind.lost s =
    let rto' = add32 s.rto (if nodelay == 0 then rx_rto else rx_rto / 2) in
    record s { fastack = 0; rto = rto'; resendts = add32 now rto' }
rearm rx_rto nodelay now Kind.idle s = s

-- The variables of the loop of `rangeRef`. `dead` says that `State` was set to 0xFFFFFFFF.
pub record Scan : Type 0 where
  pub now : ℕ
  pub minrto : ℕ
  pub change : ℕ
  pub lost : ℕ
  pub fast : ℕ
  pub early : ℕ
  pub writer : Writer
  pub dead : Bool
  pub reads : ℕ

unfoldable pub tally : Kind → Scan → Scan
tally Kind.fast a = record a { change = a.change + 1; fast = a.fast + 1 }
tally Kind.early a = record a { change = a.change + 1; early = a.early + 1 }
tally Kind.lost a = record a { lost = a.lost + 1 }
tally Kind.first a = a
tally Kind.idle a = a

abbrev pub needs_send : Kind → Bool
needs_send Kind.idle = false
needs_send Kind.first = true
needs_send Kind.fast = true
needs_send Kind.early = true
needs_send Kind.lost = true

-- Sends a segment: stamps it, and writes header and payload.
unfoldable pub transmit : Clock → Kcp → Segment → Segment → Scan → Segment × Scan
transmit clock k seg s a =
    let now = clock a.reads % u32_mod in
    let s' = record s { xmit = add32 s.xmit 1; ts = now; wnd = seg.wnd; una = seg.una } in
    let spaced = make_space (limits k) (overhead + length s'.payload) a.writer in
    let written = write_payload (limits k) s'.payload (encode (limits k) s' spaced) in
    (
      s',
      record a {
        now = now;
        reads = a.reads + 1;
        writer = written;
        dead = a.dead || leb k.dead_link s'.xmit;
      },
    )

-- The timer of the segment bounds the time to the next flush.
unfoldable pub lower_minrto : Segment → Scan → Scan
lower_minrto s a =
    let rto = itimediff s.resendts a.now in
    if ltb_ℤ (pos 0) rto && ltb (to_u32 rto) a.minrto then record a { minrto = to_u32 rto } else a

-- The `switch` of `rangeRef` and the sending that it asks for.
unfoldable pub attempt : Clock → Kcp → Segment → Kind → Segment → Scan → Segment × Scan
attempt clock k seg kind s a =
    let s' = rearm k.rx_rto k.nodelay a.now kind s in
    if needs_send kind then transmit clock k seg s' (tally kind a) else (s', a)

-- One round of the loop of `rangeRef`.
unfoldable pub visit : Clock → Kcp → ℕ → ℕ → Segment → Segment → Scan → Segment × Scan
visit clock k resent new_count seg s a =
    if s.acked == 1
    then (s, a)
    else let (s', a') = attempt clock k seg (kind_of resent new_count a.now s) s a in
      (s', lower_minrto s' a')

unfoldable pub range_ref : Clock → Kcp → ℕ → ℕ → Segment → List Segment → Scan → List Segment × Scan
range_ref clock k resent new_count seg [] a = ([], a)
range_ref clock k resent new_count seg (s ∷ ss) a =
    let (s', a') = visit clock k resent new_count seg s a in
    let (rest, a'') = range_ref clock k resent new_count seg ss a' in (s' ∷ rest, a'')
