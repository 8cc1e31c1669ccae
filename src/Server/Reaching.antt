-- ===== src/Server/Reaching.antt =====
-- What holds of the servers of network/tcp/server.go in every state.
use emt.Common.{
  ℕ, ◌<◌, ◌≡◌, refl, sym, subst, ap, ◌∙◌, inl, inr, false, Bool-cases, Option, List, ◌==◌, arith,
}
use emt.Word.{u32_mod}
use emt.Server.{
  tcp, Stop, idle, unlistened, waited, cleared, stopped, Server, start, clear, Step, begins,
  accepts, fails, admits, launches, closes, removes, finishes, stops, waits, clears, leaves,
  Reaches, here, then_step,
}
use emt.Server.Distinct.{served, pending}
use emt.Server.Serving.{
  map_at, is_idle, IsGone, IsMapped, IsServing, looping-not_holding, length-nil,
}
use emt.Server.Accepting.{
  begin-IsServing, accept-IsServing, fail-IsServing, admit-IsServing, launch-IsServing,
}
use emt.Server.Closing.{close-IsServing, remove-IsServing, finish-IsServing}

IsMapped-stop :
    {most next : ℕ} {st st' : Stop} {conns conns' : Option (List ℕ)} {l : List ℕ}
    → IsMapped most next st conns l
    → conns' ≡ map_at st' l
    → IsMapped most next st' conns' l
IsMapped-stop m e = record { bounded = m.bounded; rising = m.rising; below = m.below; listed = e }

stop-IsServing :
    (s : Server)
    → s.stop ≡ idle
    → IsServing s
    → IsServing (record s { listening = false; stop = unlistened })
stop-IsServing s e v = record {
  calm = v.calm;
  small = v.small;
  mapped =
      IsMapped-stop v.mapped
        (v.mapped.listed ∙ ap (λ st. map_at st (served s.clients (pending s.run))) e);
  listens = refl;
  counted = v.counted;
  counted_ln = v.counted_ln;
  gone = tt;
  empty = tt;
}

wait-IsServing :
    (s : Server)
    → s.stop ≡ unlistened
    → s.wg_ln ≡ 0
    → IsServing s
    → IsServing (record s { stop = waited })
wait-IsServing s e z v = record {
  calm = v.calm;
  small = v.small;
  mapped =
      IsMapped-stop v.mapped
        (v.mapped.listed ∙ ap (λ st. map_at st (served s.clients (pending s.run))) e);
  listens = v.listens ∙ ap is_idle e;
  counted = v.counted;
  counted_ln = v.counted_ln;
  gone = looping-not_holding s.run (sym v.counted_ln ∙ z);
  empty = tt;
}

clear-IsServing : (s : Server) → s.stop ≡ waited → IsServing s → IsServing (clear s)
unfolding clear
clear-IsServing s e v = record {
  calm = v.calm;
  small = v.small;
  mapped = IsMapped-stop v.mapped refl;
  listens = v.listens ∙ ap is_idle e;
  counted = v.counted;
  counted_ln = v.counted_ln;
  gone = subst (λ st. IsGone st s.run) e v.gone;
  empty = tt;
}

leave-IsServing :
    (s : Server)
    → s.stop ≡ cleared
    → s.wg_conns ≡ 0
    → IsServing s
    → IsServing (record s { stop = stopped })
leave-IsServing s e z v = record {
  calm = v.calm;
  small = v.small;
  mapped =
      IsMapped-stop v.mapped
        (v.mapped.listed ∙ ap (λ st. map_at st (served s.clients (pending s.run))) e);
  listens = v.listens ∙ ap is_idle e;
  counted = v.counted;
  counted_ln = v.counted_ln;
  gone = subst (λ st. IsGone st s.run) e v.gone;
  empty = length-nil s.clients (sym v.counted ∙ z);
}

Step-IsServing : {s s' : Server} → Step tcp s s' → IsServing s → IsServing s'
Step-IsServing {s} (begins e) v = begin-IsServing s e v
Step-IsServing {s} (accepts e l) v = accept-IsServing s e l v
Step-IsServing {s} (fails e) v = fail-IsServing s e v
Step-IsServing {s} (admits e) v = admit-IsServing s e v
Step-IsServing {s} (launches c e) v = launch-IsServing s c e v
Step-IsServing {s} (closes cs c cs' e) v = close-IsServing s cs c cs' e v
Step-IsServing {s} (removes cs c cs' e) v = remove-IsServing s cs c cs' e v
Step-IsServing {s} (finishes cs c cs' e) v = finish-IsServing s cs c cs' e v
Step-IsServing {s} (stops e) v = stop-IsServing s e v
Step-IsServing {s} (waits e z) v = wait-IsServing s e z v
Step-IsServing {s} (clears e) v = clear-IsServing s e v
Step-IsServing {s} (leaves e z) v = leave-IsServing s e z v

start-IsServing : (m : ℕ) → m < u32_mod → IsServing (start m)
unfolding start
start-IsServing m l = record {
  calm = refl;
  small = elim (Bool-cases (m == 0)) [
    | inl none_given ↦ rw none_given (omega arith)
    | inr given ↦ rw given l
  ];
  mapped = record { bounded = omega arith; rising = tt; below = tt; listed = refl };
  listens = refl;
  counted = refl;
  counted_ln = refl;
  gone = tt;
  empty = tt;
}

-- Whatever the goroutines of a server of the package tcp do, if its MaxConnNum is a uint32: neither
-- its map nor its wait groups panic; the connections that are served are distinct, not more than
-- MaxConnNum (3000 for 0), and the keys of the map until Stop sets it to nil; both wait groups count
-- what they are to count; behind wgLn.Wait no connection comes in; and when Stop has returned no
-- goroutine of a connection is left.
pub Reaches-IsServing : (m : ℕ) {s : Server} → m < u32_mod → Reaches tcp (start m) s → IsServing s
Reaches-IsServing m l here = start-IsServing m l
Reaches-IsServing m l (then_step r c st) = Step-IsServing st (Reaches-IsServing m l r)
