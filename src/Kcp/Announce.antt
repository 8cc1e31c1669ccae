-- ===== src/Kcp/Announce.antt =====
-- What `flush` of network/kcp/kcp.go sends besides data: acknowledgements and window commands.
use Prim.Native.Nat.{bit_and}
use emt.Common.{
  ℕ, ◌-◌, ◌/◌, ◌%◌, ◌^◌, Bool, true, false, ◌||◌, not, List, [], ◌∷◌, length, bit_or, ltb, ◌==◌,
  if◌then◌else◌,
}
use emt.Word.{pos, leb_ℤ, add32}
use emt.Kcp.State.{Segment, AckItem, Kcp, overhead, ask_send, probe_init, probe_limit}
use emt.Kcp.Window.{itimediff}
use emt.Kcp.Ack.{Clock, current_ms}
use emt.Kcp.Writer.{Writer, Limits, make_space, encode}

-- `wndUnused`, with its conversion to uint16.
unfoldable pub wnd_unused : Kcp → ℕ
wnd_unused k =
    if ltb (length k.rcv_queue) k.rcv_wnd then (k.rcv_wnd - length k.rcv_queue) % 2 ^ 16 else 0

abbrev pub is_last : List AckItem → Bool
is_last [] = true
is_last (_ ∷ _) = false

-- One round of the loop over `Acklist`. An acknowledgement of what is already in order is left out,
-- unless it is the last.
unfoldable pub flush_ack : Limits → ℕ → Bool → AckItem → Segment × Writer → Segment × Writer
flush_ack l rcv_nxt last a (seg, w) =
    let w' = make_space l overhead w in
    let seg' = record seg { sn = a.sn; ts = a.ts } in
    if leb_ℤ (pos 0) (itimediff a.sn rcv_nxt) || last then (seg', encode l seg' w') else (seg, w')

-- The loop over `Acklist`. The segment goes on with the `SN` and `TS` that it had at the end.
unfoldable pub flush_acks : Limits → ℕ → List AckItem → Segment × Writer → Segment × Writer
flush_acks l rcv_nxt [] p = p
flush_acks l rcv_nxt (a ∷ acks) p =
    flush_acks l rcv_nxt acks (flush_ack l rcv_nxt (is_last acks) a p)

-- The probe timer while the peer's window is 0.
unfoldable pub probe_window : Clock → Kcp → Kcp
probe_window clock k =
    if not (k.rmt_wnd == 0)
    then record k { ts_probe = 0; probe_wait = 0 }
    else if k.probe_wait == 0
    then (let (now, k') = current_ms clock k in
        record k' { probe_wait = probe_init; ts_probe = add32 now probe_init })
    else (let (now, k') = current_ms clock k in
        if leb_ℤ (pos 0) (itimediff now k.ts_probe)
        then (let base = if ltb k.probe_wait probe_init then probe_init else k.probe_wait in
            let longer = add32 base (base / 2) in
            let wait = if ltb probe_limit longer then probe_limit else longer in
            let (again, k'') = current_ms clock k' in
            record k'' {
              probe_wait = wait;
              ts_probe = add32 again wait;
              probe = bit_or k.probe ask_send;
            })
        else k')

-- Writes a window command if its bit of `Probe` is set.
unfoldable pub flush_probe : Limits → ℕ → ℕ → ℕ → Segment × Writer → Segment × Writer
flush_probe l probe bit cmd (seg, w) =
    let seg' = record seg { cmd = cmd } in
    if not (bit_and probe bit == 0)
    then (seg', encode l seg' (make_space l overhead w))
    else (seg, w)
