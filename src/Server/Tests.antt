-- ===== src/Server/Tests.antt =====
-- network/tcp/server.go and network/kcp/server.go with one connection, and Stop.
use emt.Common.{refl, true, false, [], ◌≡◌, arith}
use emt.Server.{
  tcp, kcp, accepted, Server, start, begin, fail, admit, launch, close, remove, finish, clear,
  unlistened, waited, stopped, begins, accepts, fails, admits, launches, closes, removes, finishes,
  stops, waits, clears, leaves, Reaches, here, then_step, delete, done_conn, done_ln,
}
use emt.Server.Serving.{IsServing}
use emt.Server.Reaching.{Reaches-IsServing}

abbrev began : Server
began = begin tcp (start 1)

abbrev one_served : Server
one_served = launch 0 (admit (record began { run = accepted }))

-- A second connection is one too many.
abbrev refused : Server
refused = admit (record one_served { run = accepted })

abbrev unlistening : Server
unlistening = record refused { listening = false; stop = unlistened }

abbrev awaited : Server
awaited = record (fail tcp unlistening) { stop = waited }

abbrev ended : Server
ended = finish [] [] (remove [] 0 [] (close [] 0 [] (clear awaited)))

ended-Reaches : Reaches tcp (start 1) (record ended { stop = stopped })
unfolding start begin admit launch fail clear close remove finish delete done_conn done_ln
ended-Reaches =
    then_step
      (then_step
        (then_step
          (then_step
            (then_step
              (then_step
                (then_step
                  (then_step
                    (then_step
                      (then_step
                        (then_step
                          (then_step
                            (then_step (then_step here refl (begins refl)) refl (accepts refl refl))
                            refl (admits refl))
                          refl (launches 0 refl))
                        refl (accepts refl refl))
                      refl (admits refl))
                    refl (stops refl))
                  refl (fails refl))
                refl (waits refl refl))
              refl (clears refl))
            refl (closes [] 0 [] refl))
          refl (removes [] 0 [] refl))
        refl (finishes [] 0 [] refl))
      refl (leaves refl refl)

Reaches-IsServing_example : IsServing (record ended { stop = stopped })
Reaches-IsServing_example = Reaches-IsServing 1 (omega arith) ended-Reaches

-- The accept loop of the package kcp panics behind Stop's first line.
abbrev kcp_unlistening : Server
kcp_unlistening = record (begin kcp (start 1)) { listening = false; stop = unlistened }

kcp-Reaches : Reaches kcp (start 1) (fail kcp kcp_unlistening)
unfolding start begin fail
kcp-Reaches =
    then_step (then_step (then_step here refl (begins refl)) refl (stops refl)) refl (fails refl)

kcp-panics : (fail kcp kcp_unlistening).panicked ≡ true
unfolding start begin fail
kcp-panics = refl
