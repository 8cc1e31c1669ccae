-- ===== src/Udp/Session.antt =====
-- `UDPSession` of network/kcp/udp.go, and what it sends: `output`, `uncork`, and tx.go.
use emt.Common.{
  ℕ, suc, ◌+◌, ◌%◌, Bool, true, false, ◌&&◌, Option, none, some, List, [], ◌∷◌, ◌++◌, length,
  replicate, ltb, leb, if◌then◌else◌,
}
use emt.Word.{ℤ, pos, negsuc, u64_mod}
use emt.Kcp.State.{Kcp, overhead}
use emt.Kcp.Recv.{peek_size}
use emt.Kcp.Config.{wait_snd}
use emt.Kcp.Ack.{Clock}
use emt.Word.{ltb_ℤ}
use emt.Fec.Packet.{ReedSolomon}
use emt.Fec.Encoder.{Encoder, fec_encode}
use emt.Fec.Decoder.{Decoder}

-- The counters of `DefaultSnmp` that the session adds to.
pub record Counters : Type 0 where
  pub in_pkts : ℕ
  pub in_bytes : ℕ
  pub in_errs : ℕ
  pub kcp_in_errors : ℕ
  pub fec_errs : ℕ
  pub fec_recovered : ℕ
  pub fec_parity_shards : ℕ
  pub out_pkts : ℕ
  pub out_bytes : ℕ
  pub bytes_sent : ℕ
  pub bytes_received : ℕ

-- `UDPSession`. The channels of events hold one event at most, so each is a flag; `die` is one too.
-- `wire` is what was handed to the socket, oldest first, `writes` counts the calls, and
-- `write_failed` says that `notifyWriteError` was called.
pub record Session : Type 0 where
  pub fec_decoder : Option Decoder
  pub fec_encoder : Option Encoder
  pub kcp : Kcp
  pub has_listener : Bool
  pub header_size : ℕ
  pub dup : ℤ
  pub die : Bool
  pub read_event : Bool
  pub write_event : Bool
  pub write_failed : Bool
  pub bufptr : List ℕ
  pub txqueue : List (List ℕ)
  pub ack_no_delay : Bool
  pub write_delay : Bool
  pub wire : List (List ℕ)
  pub writes : ℕ
  pub counters : Counters

-- What the code takes from outside: the codec, the clock as the protocol and as the decoder read it,
-- and whether the n-th write to the socket succeeds.
pub record World : Type 0 where
  pub codec : ReedSolomon
  pub clock : Clock
  pub fec_clock : Clock
  pub socket : ℕ → Bool

-- How often `output` queues a packet: `dup + 1` times.
abbrev pub copies : ℤ → ℕ
copies (pos n) = suc n
copies (negsuc n) = 0

abbrev pub enqueue : List ℕ → List (List ℕ) → Session → Session
enqueue packet ecc s = record s { txqueue = s.txqueue ++ (replicate (copies s.dup) packet ++ ecc) }

-- `output`; `none` where the encoder panics.
unfoldable pub output : World → List ℕ → Session → Option Session
output w buf s = elim s.fec_encoder [
  | none ↦ some (enqueue buf [] s)
  | some enc ↦ elim (fec_encode w.codec buf enc) [
    | none ↦ none
    | some (packet, ecc, enc') ↦ some (enqueue packet ecc (record s { fec_encoder = some enc' }))
  ]
]

-- The callback of the protocol, for one packet. The reserved bytes in front of it are overwritten by
-- the encoder; without an encoder there are none.
unfoldable pub callback : World → List ℕ → Session → Option Session
unfolding output
callback w packet s =
    if leb (overhead + s.header_size) (s.kcp.reserved + length packet)
    then output w (replicate s.kcp.reserved 0 ++ packet) s
    else some s

unfoldable pub callbacks : World → List (List ℕ) → Session → Option Session
unfolding callback
callbacks w [] s = some s
callbacks w (p ∷ ps) s = elim (callback w p s) [ none ↦ none | some s' ↦ callbacks w ps s' ]

-- The session behind a call of the protocol, which ended with the state `k`: what the protocol sent
-- has gone through the callback. `none` where the protocol has panicked.
unfoldable pub with_kcp : World → Kcp → Session → Option Session
unfolding callbacks
with_kcp w k s =
    if k.panicked then none else callbacks w k.sent (record s { kcp = record k { sent = [] } })

-- The loop of `defaultTx`: what was written, and whether a write failed.
unfoldable pub default_tx : (ℕ → Bool) → ℕ → List (List ℕ) → List (List ℕ) × Bool
default_tx socket n [] = ([], false)
default_tx socket n (p ∷ ps) =
    let (rest, failed) = default_tx socket (suc n) ps in
    if socket n then (p ∷ rest, failed) else ([], true)

abbrev pub total : List (List ℕ) → ℕ
total [] = 0
total (p ∷ ps) = length p + total ps

-- `uncork`: the queue is written, as far as the socket takes it, and emptied.
unfoldable pub uncork : World → Session → Session
unfolding default_tx
uncork w s =
    let (written, failed) = default_tx w.socket s.writes s.txqueue in
    record s {
      txqueue = [];
      wire = s.wire ++ written;
      writes = s.writes + length written + (if failed then 1 else 0);
      write_failed = if failed then true else s.write_failed;
      counters = record s.counters {
        out_pkts = (s.counters.out_pkts + length written) % u64_mod;
        out_bytes = (s.counters.out_bytes + total written) % u64_mod;
      };
    }

-- Whether a write need not wait: `waitsnd` is below both windows.
abbrev pub can_write : Kcp → Bool
can_write k = ltb (wait_snd k) k.snd_wnd && ltb (wait_snd k) k.rmt_wnd

-- `notifyReadEvent` and `notifyWriteEvent`, where the code calls them.
unfoldable pub notify_write : Session → Session
notify_write s = if can_write s.kcp then record s { write_event = true } else s

unfoldable pub notify : Session → Session
unfolding notify_write
notify s =
    notify_write (if ltb_ℤ (pos 0) (peek_size s.kcp) then record s { read_event = true } else s)
