-- ===== src/Udp/Control.antt =====
-- The life of a session of network/kcp/udp.go, and its settings: `newUDPSession`, `update`, `Close`,
-- and the setters.
pub mod Closing
use emt.Common.{ℕ, Bool, true, false, Option, none, some, [], if◌then◌else◌}
use emt.Word.{ℤ, pos, ltb_ℤ}
use emt.Kcp.State.{new_kcp}
use emt.Kcp.Config.{reserve_bytes, release_tx, wnd_size, no_delay}
use emt.Kcp.Config
use emt.Kcp.Flush.{flush}
use emt.Fec.Packet.{ReedSolomon, mtu_limit}
use emt.Fec.Encoder.{Encoder, new_encoder}
use emt.Fec.Decoder.{Decoder, new_decoder, release}
use emt.Udp.Session.{World, Session, Counters, with_kcp, uncork, notify_write}
use emt.Udp.Input.{header_size_plus2}

abbrev pub no_counters : Counters
no_counters = record {
  in_pkts = 0;
  in_bytes = 0;
  in_errs = 0;
  kcp_in_errors = 0;
  fec_errs = 0;
  fec_recovered = 0;
  fec_parity_shards = 0;
  out_pkts = 0;
  out_bytes = 0;
  bytes_sent = 0;
  bytes_received = 0;
}

abbrev pub reserve : Option Encoder → ℕ
reserve none = 0
reserve (some enc) = header_size_plus2

-- `newUDPSession`, for a listener or a dialled connection.
unfoldable pub new_session : ReedSolomon → ℕ → ℤ → ℤ → Bool → Session
unfolding new_encoder new_decoder new_kcp reserve_bytes
new_session codec conv data_shards parity_shards has_listener =
    let encoder = new_encoder codec data_shards parity_shards 0 in
    record {
      fec_decoder = new_decoder codec data_shards parity_shards;
      fec_encoder = encoder;
      kcp = (reserve_bytes (pos (reserve encoder)) (new_kcp conv)).1;
      has_listener = has_listener;
      header_size = reserve encoder;
      dup = pos 0;
      die = false;
      read_event = false;
      write_event = false;
      write_failed = false;
      bufptr = [];
      txqueue = [];
      ack_no_delay = false;
      write_delay = false;
      wire = [];
      writes = 0;
      counters = no_counters;
    }

-- `update`: the time to the next call, if there is one; `none` where Go panics.
unfoldable pub update : World → Session → Option (Option ℕ × Session)
unfolding with_kcp uncork notify_write
update w s =
    if s.die
    then some (none, s)
    else let (interval, k) = flush w.clock false s.kcp in
      elim (with_kcp w k s) [
        | none ↦ none
        | some s' ↦ some (some interval, uncork w (notify_write s'))
      ]

abbrev pub release_decoder : Option Decoder → Option Decoder
release_decoder none = none
release_decoder (some dec) = some (release dec)

-- What the first `Close` does, but for the listener: what waits is sent, and the queues are emptied.
unfoldable pub close_first : World → Session → Option Session
unfolding with_kcp uncork release_tx release
close_first w s = elim (with_kcp w (flush w.clock false s.kcp).1 (record s { die = true })) [
  | none ↦ none
  | some s' ↦
      let s'' = uncork w s' in
      some (record s'' { kcp = release_tx s''.kcp; fec_decoder = release_decoder s''.fec_decoder })
]

abbrev pub closed : Option Session → Option (Bool × Session)
closed none = none
closed (some s) = some (true, s)

-- `Close`: whether it was the first; later ones return an error.
unfoldable pub close : World → Session → Option (Bool × Session)
unfolding close_first
close w s = if s.die then some (false, s) else closed (close_first w s)

-- `SetMtu`. What the protocol's `SetMtu` answers is not looked at.
unfoldable pub set_mtu : ℤ → Session → Bool × Session
unfolding Config.set_mtu
set_mtu mtu s =
    if ltb_ℤ (pos mtu_limit) mtu
    then (false, s)
    else (true, record s { kcp = (Config.set_mtu mtu s.kcp).1 })

unfoldable pub set_window_size : ℤ → ℤ → Session → Session
unfolding wnd_size
set_window_size sndwnd rcvwnd s = record s { kcp = wnd_size sndwnd rcvwnd s.kcp }

unfoldable pub set_stream_mode : Bool → Session → Session
set_stream_mode enable s = record s {
  kcp = record s.kcp { stream = pos (if enable then 1 else 0) };
}

unfoldable pub set_no_delay : ℤ → ℤ → ℤ → ℤ → Session → Session
unfolding no_delay
set_no_delay nodelay interval resend nc s = record s {
  kcp = no_delay nodelay interval resend nc s.kcp;
}

unfoldable pub set_ack_no_delay : Bool → Session → Session
set_ack_no_delay nodelay s = record s { ack_no_delay = nodelay }

unfoldable pub set_write_delay : Bool → Session → Session
set_write_delay delay s = record s { write_delay = delay }

unfoldable pub set_dup : ℤ → Session → Session
set_dup dup s = record s { dup = dup }
