-- ===== src/Kcp/Tests.antt =====
-- network/kcp/kcp.go on concrete connections and packets.
pub mod Receive
pub mod Transmit
use emt.Common.{
  ℕ, ◌+◌, ◌*◌, ◌^◌, ◌<◌, ◌≡◌, refl, Bool, true, false, Option, none, some, List, [], ◌∷◌, ◌++◌,
  length, arith, All,
}
use emt.Word.{ℤ, pos, negsuc, IsByte, IsU32}
use emt.Kcp.State.{Segment, blank, Kcp, new_kcp}
use emt.Kcp.Codec.{header}
use emt.Kcp.Recv.Ready.{IsReceiving}
use emt.Kcp.Ack.{Clock}
use emt.Kcp.Ack.Flight.{IsSending}
use emt.Kcp.Flush.Packets.{IsPacketed}
use emt.Kcp.Invariant.{IsConnected}

-- A clock that starts a second before the 32-bit time wraps, and gains 7 ms with every reading.
abbrev pub clock : Clock
clock n = 4294966296 + 7 * n

-- A data segment of the conversation 7.
abbrev pub data_segment : ℕ → ℕ → List ℕ → Segment
data_segment sn frg payload = record blank {
  conv = 7;
  cmd = 81;
  frg = frg;
  wnd = 32;
  sn = sn;
  payload = payload;
}

-- A connection with two segments in flight, the numbers round the end of the 32 bits, and two that
-- wait to be sent.
unfoldable pub busy : Kcp
unfolding new_kcp
busy = record (new_kcp 7) {
  snd_una = 4294967295;
  snd_nxt = 1;
  rcv_nxt = 4294967295;
  snd_buf = data_segment 4294967295 0 (1 ∷ 2 ∷ []) ∷ data_segment 0 0 (3 ∷ []) ∷ [];
  snd_queue = data_segment 0 1 (4 ∷ []) ∷ data_segment 0 0 (5 ∷ 6 ∷ []) ∷ [];
  rcv_buf = data_segment 0 0 (8 ∷ []) ∷ [];
}

pub busy-IsReceiving : IsReceiving busy
unfolding busy emt.Word.sub32
busy-IsReceiving = record {
  nxt = omega arith;
  wnd = omega arith;
  buf = (omega arith, omega arith, omega arith, tt);
}

pub busy-IsSending : IsSending busy
unfolding busy emt.Word.add32
busy-IsSending = record {
  una = omega arith;
  numbers = (refl, (refl, tt));
  nxt = refl;
  few = omega arith;
}

pub busy-IsConnected : IsConnected busy
unfolding busy
busy-IsConnected = record {
  receiving = busy-IsReceiving;
  sending = busy-IsSending;
  rmt = omega arith;
  few = omega arith;
}

pub busy-IsPacketed : IsPacketed busy
unfolding busy
busy-IsPacketed = record {
  whole = refl;
  mss = refl;
  some_mss = omega arith;
  queue = (omega arith, (omega arith, tt));
  buf = (omega arith, (omega arith, tt));
  running = refl;
  packets = tt;
}
