-- ===== src/App/Registering.antt =====
-- What the registry holds after app.go has registered its servers.
use emt.Common.{◌≡◌, refl, subst, Bool, true, false, some, List, [], ◌∷◌, All, Has}
use emt.Registry.{String, Service, plain}
use emt.App.{Server, Named, App}
use emt.App.Register.{
  Registrar, default_register_ttl, Env, Error, register_failed, Result, done, failed, panicked,
  and_then, ended, Located, located, lost, locate, register_located, register_all, register,
}

-- A service is listed under a domain.
abbrev pub IsListed : (R : Registrar) → String → Service → R.State → Type 0
IsListed R domain s st = (ls : List Service) × (R.list_services domain st ≡ some ls) × Has s ls

-- What the interface of the registry promises, for the domains that it can take: a service that was
-- registered is listed, and those that were listed stay so.
pub record IsRegistrar (R : Registrar) : Type 1 where
  pub IsDomain : String → Type 0
  pub listed :
      (domain : String) (s : Service) (st st' : R.State)
      → IsDomain domain
      → R.register domain default_register_ttl s st ≡ (false, st')
      → IsListed R domain (plain s.id s.addr) st'
  pub stays :
      (domain domain' : String) (s s' : Service) (st st' : R.State)
      → IsDomain domain'
      → R.register domain default_register_ttl s st ≡ (false, st')
      → IsListed R domain' s' st
      → IsListed R domain' s' st'

pub and_then-done :
    {S : Type 0} (r : Result S) (k : S → Result S) {s' : S}
    → and_then r k ≡ done s'
    → (s : S) × (r ≡ done s) × (k s ≡ done s')
and_then-done (done s) k e = (s, refl, e)
and_then-done (failed x s) k e = absurd (cc e)
and_then-done panicked k e = absurd (cc e)

ended-done : {S : Type 0} (x : Error) (p : Bool × S) {s : S} → ended x p ≡ done s → p ≡ (false, s)
ended-done x (false, s') e = cc e
ended-done x (true, s') e = absurd (cc e)

module _ (env : Env) (R : Registrar) (v : IsRegistrar R) where
  -- A server's service is listed under its name.
  abbrev pub IsRegistered : R.State → Server → Type 0
  IsRegistered st s =
      (svc : Service) × (locate env s ≡ located svc) × IsListed R s.name (plain svc.id svc.addr) st

  abbrev pub AreRegistered : R.State → Named Server → Type 0
  AreRegistered st = All (λ e. IsRegistered st e.1)

  abbrev pub AreNamed : Named Server → Type 0
  AreNamed = All (λ e. v.IsDomain e.1.name)

  abbrev pub AreKept : R.State → R.State → Type 0
  AreKept st st' =
      (domain : String) (s : Service)
      → v.IsDomain domain
      → IsListed R domain s st
      → IsListed R domain s st'

  register_located-IsRegistered :
      (b : Bool) (s : Server) (st st' : R.State)
      → v.IsDomain s.name
      → register_located env R b s.name (locate env s) st ≡ done st'
      → IsRegistered st' s × AreKept st st'
  register_located-IsRegistered b s st st' n e = by_location b (locate env s) refl e
    where
      by_location :
          (b : Bool) (l : Located)
          → locate env s ≡ l
          → register_located env R b s.name l st ≡ done st'
          → IsRegistered st' s × AreKept st st'
      by_location b (lost x) q e = absurd (cc e)
      by_location false (located svc) q e = absurd (cc e)
      by_location true (located svc) q e =
          let r = ended-done register_failed (R.register s.name default_register_ttl svc st) e in
          (
            (svc, q, v.listed s.name svc st st' n r),
            λ domain s' d h. v.stays s.name domain svc s' st st' d r h,
          )

  register_all-AreRegistered :
      (b : Bool) (ss : Named Server) (st st' : R.State)
      → AreNamed ss
      → register_all env R b ss st ≡ done st'
      → AreRegistered st' ss × AreKept st st'
  unfolding register_all
  register_all-AreRegistered b [] st st' n e =
      let same : st ≡ st' = cc e in (tt, λ domain s d h. subst (IsListed R domain s) same h)
  register_all-AreRegistered b ((k, s) ∷ ss) st st' (n, ns) e =
      let (st1, p, q) = and_then-done _ (register_all env R b ss) e in
      let ((svc, l, found), kept) = register_located-IsRegistered b s st st1 n p in
      let (all, kept') = register_all-AreRegistered b ss st1 st' ns q in
      (
        ((svc, l, kept' s.name (plain svc.id svc.addr) n found), all),
        λ domain s' d h. kept' domain s' d (kept domain s' d h),
      )

  stay_registered :
      (st st' : R.State)
      → AreKept st st'
      → (ss : Named Server) → AreNamed ss
      → AreRegistered st ss
      → AreRegistered st' ss
  stay_registered st st' kept [] n h = tt
  stay_registered st st' kept ((k, s) ∷ ss) (n, ns) ((svc, l, found), h) =
      ((svc, l, kept s.name (plain svc.id svc.addr) n found), stay_registered st st' kept ss ns h)

  -- If the servers' names are domains for the registry, and the registration ends without an error:
  -- each server, of the network and of RPC, is listed under its name with the address found for it,
  -- and nothing that was listed is gone.
  pub register-AreRegistered :
      (app : App) (st st' : R.State)
      → AreNamed app.svrs
      → AreNamed app.rpc_svrs
      → register env R app st ≡ done st'
      → AreRegistered st' app.svrs × AreRegistered st' app.rpc_svrs × AreKept st st'
  unfolding register
  register-AreRegistered app st st' n m e =
      let (st1, p, q) = and_then-done _ (register_all env R app.has_registry app.rpc_svrs) e in
      let (svrs, kept) = register_all-AreRegistered app.has_registry app.svrs st st1 n p in
      let (rpc_svrs, kept') =
        register_all-AreRegistered app.has_registry app.rpc_svrs st1 st' m q in
      (
        stay_registered st1 st' kept' app.svrs n svrs,
        rpc_svrs,
        λ domain s d h. kept' domain s d (kept domain s d h),
      )
