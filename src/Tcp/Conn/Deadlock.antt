-- ===== src/Tcp/Conn/Deadlock.antt =====
-- A connection of network/tcp/conn.go whose socket fails while its channel is full.
use emt.Common.{◌≤◌, ◌≡◌, refl, inl, inr, true, false, Bool-cases, none, some, length, ◌==◌, arith}
use emt.Tcp.Conn.{
  left, Bytes, Conn, write, begin_write, close, Step, writes, sends, closes, locks, sends_nil,
  takes, finishes, Reaches, here, then_step,
}

-- The channel is full, a call of `Close` that has the lock waits to send nil, and the goroutine has
-- left its loop and waits for the lock.
pub record IsStuck (c : Conn) : Type 0 where
  pub full : c.capacity ≤ length c.w_ch
  pub locked : c.locked ≡ true
  pub gone : c.phase ≡ left
  pub opened : c.is_close ≡ false

begin_write-IsStuck : (d : Bytes) (c : Conn) → IsStuck c → IsStuck (begin_write d c)
begin_write-IsStuck d c v = elim (Bool-cases (length c.w_ch == c.capacity)) [
  | inl full ↦
      rw (v.opened, full)
        (record { full = v.full; locked = v.locked; gone = v.gone; opened = refl })
  | inr room ↦
      rw (v.opened, room)
        (record { full = v.full; locked = v.locked; gone = v.gone; opened = refl })
]

Step-IsStuck : {c c' : Conn} → Step c c' → IsStuck c → IsStuck c'
unfolding write close
Step-IsStuck {c} (writes none) v = v
Step-IsStuck {c} (writes (some d)) v = begin_write-IsStuck d c v
Step-IsStuck {c} (sends ds d ds' e l) v = absurd (omega (arith, v.full))
Step-IsStuck {c} closes v = record {
  full = v.full;
  locked = v.locked;
  gone = v.gone;
  opened = v.opened;
}
Step-IsStuck {c} (locks n e l) v = absurd (cc (v.locked, l))
Step-IsStuck {c} (sends_nil l s) v = absurd (omega (arith, v.full))
Step-IsStuck {c} (takes works d rest p e) v = absurd (cc (v.gone, p))
Step-IsStuck {c} (finishes p l) v = absurd (cc (v.locked, l))

-- Once the socket has failed while a call of Close waits for a place in the full channel with the
-- lock: whatever happens then, that call does not return, the connection does not become closed, and
-- its goroutine does not end.
pub Reaches-IsStuck : {c c' : Conn} → IsStuck c → Reaches c c' → IsStuck c'
Reaches-IsStuck v here = v
Reaches-IsStuck v (then_step r st) = Step-IsStuck st (Reaches-IsStuck v r)
