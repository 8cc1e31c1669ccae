-- ===== src/Tcp/Conn/Tests.antt =====
-- network/tcp/conn.go with a channel for one message.
use emt.Common.{refl, false, some, [], ◌∷◌, arith}
use emt.Tcp.Conn.{
  Conn, conn_of, write, lock, send, take, writes, sends, locks, takes, Reaches, here, then_step,
}
use emt.Tcp.Conn.Order.{IsOrdered, Reaches-IsOrdered}
use emt.Tcp.Conn.Deadlock.{IsStuck, Reaches-IsStuck}

-- Two writes pass their tests before either is sent, a third finds the channel full, and the socket
-- fails.
abbrev half_sent : Conn
half_sent =
    send [] (1 ∷ []) ((2 ∷ []) ∷ []) (write (some (2 ∷ [])) (write (some (1 ∷ [])) (conn_of 1)))

abbrev closing : Conn
closing = lock 0 (write (some (3 ∷ [])) half_sent)

abbrev stuck : Conn
stuck = send [] (2 ∷ []) [] (take false (some (1 ∷ [])) (record closing { w_ch = [] }))

stuck-Reaches : Reaches (conn_of 1) stuck
unfolding write send lock take
stuck-Reaches =
    then_step
      (then_step
        (then_step
          (then_step
            (then_step
              (then_step (then_step here (writes (some (1 ∷ [])))) (writes (some (2 ∷ []))))
              (sends [] (1 ∷ []) ((2 ∷ []) ∷ []) refl (omega arith)))
            (writes (some (3 ∷ []))))
          (locks 0 refl refl))
        (takes false (some (1 ∷ [])) [] refl refl))
      (sends [] (2 ∷ []) [] refl (omega arith))

stuck-IsStuck : IsStuck stuck
unfolding write send lock take
stuck-IsStuck = record { full = omega arith; locked = refl; gone = refl; opened = refl }

Reaches-IsStuck_example : IsStuck (write (some (4 ∷ [])) stuck)
Reaches-IsStuck_example = Reaches-IsStuck stuck-IsStuck (then_step here (writes (some (4 ∷ []))))

Reaches-IsOrdered_example : IsOrdered stuck
Reaches-IsOrdered_example = Reaches-IsOrdered 1 stuck-Reaches
