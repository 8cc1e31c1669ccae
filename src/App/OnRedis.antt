-- ===== src/App/OnRedis.antt =====
-- The registry of registry/redis/redis.go as that of app.go, when its server answers.
use emt.Common.{
  arith, ◌≡◌, refl, subst, inl, inr, Bool, true, false, Option, none, some, List, [], ◌∷◌, ◌++◌,
  Has,
}
use emt.Registry
use emt.Registry.{String, Service, plain, separator, contains, Redis, list_services}
use emt.Registry.Listing.{IsRedis, is_literal, list_services-register}
use emt.App.Register.{Registrar, default_register_ttl, Env, done, register}
use emt.App.{App}
use emt.App.Registering.{IsRegistrar, AreRegistered, AreNamed, AreKept, register-AreRegistered}

abbrev pub stored : {S : Type 0} → S → Option S → Bool × S
stored st none = (true, st)
stored st (some st') = (false, st')

abbrev pub redis_registrar : Redis → Registrar
redis_registrar r = record {
  State = r.State;
  init = λ st. (false, st);
  register = λ domain ttl s st. stored st (Registry.register r domain ttl s st);
  deregister = λ domain s st. stored st (Registry.deregister r domain s st);
  list_services = λ domain st. some (list_services r domain st);
  watch = λ domain st. (false, st);
  release = λ st. st;
}

-- A domain without a separator and without the characters of a pattern.
abbrev pub IsRedisDomain : String → Type 0
IsRedisDomain domain = (contains domain ≡ false) × (is_literal (domain ++ (separator ∷ [])) ≡ true)

pub stored-some :
    {S : Type 0} (st : S) (o : Option S) {st' : S} → stored st o ≡ (false, st') → o ≡ some st'
stored-some st none e = absurd (cc e)
stored-some st (some s) e = cc e

pub was_listed :
    (ls : List Service) (s : Service)
    → ((ls' : List Service) × (some ls ≡ some ls') × Has s ls')
    → Has s ls
was_listed ls s (ls', e, h) = let same : ls' ≡ ls = cc e in subst (Has s) same h

abbrev pub redis_laws : (r : Redis) → IsRedis r → IsRegistrar (redis_registrar r)
redis_laws r h = record {
  IsDomain = IsRedisDomain;
  listed = λ domain s st st' d e. (
    list_services r domain st',
    refl,
    (list_services-register r domain domain default_register_ttl s (plain s.id s.addr) st st' h
          (omega arith) (stored-some st _ e) d.0 d.1).1
        (inl (refl, refl)),
  );
  stays = λ domain domain' s s' st st' d e k. (
    list_services r domain' st',
    refl,
    (list_services-register r domain domain' default_register_ttl s s' st st' h (omega arith)
          (stored-some st _ e) d.0 d.1).1
        (inr (was_listed (list_services r domain' st) s' k)),
  );
}

-- With a server that does what redis says, on which no key expires while the program registers, and
-- servers whose names have no separator and no character of a pattern: if the registration ends without
-- an error, each server, of the network and of RPC, is listed under its name with its id and the
-- address found for it, and nothing that was listed is gone.
pub register-redis_registrar :
    (r : Redis) (h : IsRedis r) (env : Env) (app : App) (st st' : r.State)
    → AreNamed env (redis_registrar r) (redis_laws r h) app.svrs
    → AreNamed env (redis_registrar r) (redis_laws r h) app.rpc_svrs
    → register env (redis_registrar r) app st ≡ done st'
    → AreRegistered env (redis_registrar r) (redis_laws r h) st' app.svrs
      × AreRegistered env (redis_registrar r) (redis_laws r h) st' app.rpc_svrs
      × AreKept env (redis_registrar r) (redis_laws r h) st st'
register-redis_registrar r h env app st st' n m e =
    register-AreRegistered env (redis_registrar r) (redis_laws r h) app st st' n m e
