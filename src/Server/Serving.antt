-- ===== src/Server/Serving.antt =====
-- What the servers of network/tcp/server.go keep.
use emt.Common.{
  ℕ, ◌≤◌, ◌<◌, ◌≡◌, refl, Bool, true, false, Option, none, some, List, [], ◌∷◌, ◌++◌, All, length,
  arith,
}
use emt.Word.{u32_mod}
use emt.Server.{
  Run, starting, accepting, accepted, launching, returned, Client, Stop, idle, unlistened, waited,
  cleared, stopped, Server,
}
use emt.Server.Distinct.{Rising, served, pending}

-- The map while Stop stands there: nil once Stop had the lock.
abbrev pub map_at : Stop → List ℕ → Option (List ℕ)
map_at idle l = some l
map_at unlistened l = some l
map_at waited l = some l
map_at cleared l = none
map_at stopped l = none

abbrev pub is_idle : Stop → Bool
is_idle idle = true
is_idle unlistened = false
is_idle waited = false
is_idle cleared = false
is_idle stopped = false

-- What `run` counts in `wgLn`.
abbrev pub looping : Run → ℕ
looping starting = 0
looping accepting = 1
looping accepted = 1
looping (launching c) = 1
looping returned = 0

-- `run` has a connection in its hands.
abbrev pub is_holding : Run → Bool
is_holding starting = false
is_holding accepting = false
is_holding accepted = true
is_holding (launching c) = true
is_holding returned = false

-- Behind wgLn.Wait no connection comes in.
abbrev pub IsGone : Stop → Run → Type 0
IsGone idle r = Unit
IsGone unlistened r = Unit
IsGone waited r = is_holding r ≡ false
IsGone cleared r = is_holding r ≡ false
IsGone stopped r = is_holding r ≡ false

-- When Stop has returned there are no goroutines of connections.
abbrev pub IsEmpty : Stop → List Client → Type 0
IsEmpty idle cs = Unit
IsEmpty unlistened cs = Unit
IsEmpty waited cs = Unit
IsEmpty cleared cs = Unit
IsEmpty stopped cs = cs ≡ []

-- `l` are the connections that are served: distinct, no more than allowed, and the map's keys.
pub record IsMapped (most next : ℕ) (st : Stop) (conns : Option (List ℕ)) (l : List ℕ)
    : Type 0 where
  pub bounded : length l ≤ most
  pub rising : Rising l
  pub below : All (λ c. c < next) l
  pub listed : conns ≡ map_at st l

pub record IsServing (s : Server) : Type 0 where
  pub calm : s.panicked ≡ false
  pub small : s.max_conn_num < u32_mod
  pub mapped : IsMapped s.max_conn_num s.next s.stop s.conns (served s.clients (pending s.run))
  pub listens : s.listening ≡ is_idle s.stop
  pub counted : s.wg_conns ≡ length s.clients
  pub counted_ln : s.wg_ln ≡ looping s.run
  pub gone : IsGone s.stop s.run
  pub empty : IsEmpty s.stop s.clients

pub IsGone-not_holding : (st : Stop) (r : Run) → is_holding r ≡ false → IsGone st r
IsGone-not_holding idle r e = tt
IsGone-not_holding unlistened r e = tt
IsGone-not_holding waited r e = e
IsGone-not_holding cleared r e = e
IsGone-not_holding stopped r e = e

pub IsGone-idle : (st : Stop) (r : Run) → is_idle st ≡ true → IsGone st r
IsGone-idle idle r e = tt
IsGone-idle unlistened r e = tt
IsGone-idle waited r e = absurd (cc e)
IsGone-idle cleared r e = absurd (cc e)
IsGone-idle stopped r e = absurd (cc e)

-- While `run` has a connection in its hands the map is not nil.
pub map_at-holding :
    (st : Stop) (r : Run) (l : List ℕ) → is_holding r ≡ true → IsGone st r → map_at st l ≡ some l
map_at-holding idle r l e g = refl
map_at-holding unlistened r l e g = refl
map_at-holding waited r l e g = refl
map_at-holding cleared r l e g = absurd (cc (e, g))
map_at-holding stopped r l e g = absurd (cc (e, g))

pub IsGone-holding : (st : Stop) (r r' : Run) → is_holding r ≡ true → IsGone st r → IsGone st r'
IsGone-holding idle r r' e g = tt
IsGone-holding unlistened r r' e g = tt
IsGone-holding waited r r' e g = absurd (cc (e, g))
IsGone-holding cleared r r' e g = absurd (cc (e, g))
IsGone-holding stopped r r' e g = absurd (cc (e, g))

pub IsEmpty-holding :
    (st : Stop) (r : Run) (cs : List Client) → is_holding r ≡ true → IsGone st r → IsEmpty st cs
IsEmpty-holding idle r cs e g = tt
IsEmpty-holding unlistened r cs e g = tt
IsEmpty-holding waited r cs e g = tt
IsEmpty-holding cleared r cs e g = tt
IsEmpty-holding stopped r cs e g = absurd (cc (e, g))

append-ne-nil : (cs : List Client) (x : Client) (cs' : List Client) → cs ++ (x ∷ cs') ≡ [] → ⊥
append-ne-nil [] x cs' e = cc e
append-ne-nil (c ∷ cs) x cs' e = cc e

pub IsEmpty-other :
    (st : Stop) (cs : List Client) (x : Client) (cs' ds : List Client)
    → IsEmpty st (cs ++ (x ∷ cs'))
    → IsEmpty st ds
IsEmpty-other idle cs x cs' ds e = tt
IsEmpty-other unlistened cs x cs' ds e = tt
IsEmpty-other waited cs x cs' ds e = tt
IsEmpty-other cleared cs x cs' ds e = tt
IsEmpty-other stopped cs x cs' ds e = absurd (append-ne-nil cs x cs' e)

pub looping-not_holding : (r : Run) → looping r ≡ 0 → is_holding r ≡ false
looping-not_holding starting e = refl
looping-not_holding accepting e = refl
looping-not_holding accepted e = absurd (omega arith)
looping-not_holding (launching c) e = absurd (omega arith)
looping-not_holding returned e = refl

pub length-nil : (cs : List Client) → length cs ≡ 0 → cs ≡ []
length-nil [] e = refl
length-nil (c ∷ cs) e = absurd (omega arith)
