-- ===== src/Kcp/Invariant/Reading.antt =====
-- `Recv` of network/kcp/kcp.go keeps the invariant of the connection, which a new one has.
use emt.Common.{ℕ, ◌≡◌, refl, Bool, true, false, List, [], arith, if◌then◌else◌}
use emt.Word.{ℤ, pos, negsuc, ltb_ℤ}
use emt.Kcp.State.{Kcp, new_kcp}
use emt.Kcp.Recv.{peek_size, receive, recv, move_ready}
use emt.Kcp.Recv.Message.{receive_lem}
use emt.Kcp.Invariant.{IsConnected}
use emt.Kcp.Invariant.Segments.{sender, new_receiver}

-- A new connection has the invariant.
pub new_kcp-IsConnected : (conv : ℕ) → IsConnected (new_kcp conv)
unfolding new_kcp
new_kcp-IsConnected conv = record {
  receiving = record { nxt = omega arith; wnd = omega arith; buf = tt };
  sending = record {
    una = omega arith;
    numbers = tt;
    nxt = unfold emt.Word.add32 in refl;
    few = omega arith;
  };
  rmt = omega arith;
  few = omega arith;
}

sender-receive : (k : Kcp) → sender (receive k).2 ≡ sender k
unfolding receive move_ready
sender-receive k = ground arith

receive-IsConnected : (k : Kcp) → IsConnected k → IsConnected (receive k).2
receive-IsConnected k v =
    new_receiver k (receive k).2 (sender-receive k) (receive_lem k v.receiving).3 v

either :
    (b : Bool) (r r' : ℤ × List ℕ × Kcp)
    → IsConnected r.2
    → IsConnected r'.2
    → IsConnected (if b then r else r').2
either true r r' v v' = v
either false r r' v v' = v'

-- `Recv` keeps the invariant of the connection, for a buffer of any size, with a message and without.
pub recv-IsConnected : (size : ℕ) (k : Kcp) → IsConnected k → IsConnected (recv size k).2
unfolding recv
recv-IsConnected size k v =
    let long = ltb_ℤ (pos size) (peek_size k) in
    either (ltb_ℤ (peek_size k) (pos 0)) (negsuc 0, [], k)
      (if long then (negsuc 1, [], k) else receive k) v
      (either long (negsuc 1, [], k) (receive k) v (receive-IsConnected k v))
