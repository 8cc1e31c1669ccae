-- ===== src/App/Register.antt =====
-- The registration of the servers of app.go, and its end.
use emt.Common.{ℕ, Bool, true, false, Option, none, some, List, [], ◌∷◌, ◌++◌}
use emt.Registry.{String, Service, plain}
use emt.Addr
use emt.Addr.{Net}
use emt.App.{Server, Named, App}

-- `Registry`: the flag of a result tells an error, and `none` is one. `register` takes the seconds of
-- its TTL.
pub record Registrar : Type 1 where
  pub State : Type 0
  pub init : State → Bool × State
  pub register : String → ℕ → Service → State → Bool × State
  pub deregister : String → Service → State → Bool × State
  pub list_services : String → State → Option (List Service)
  pub watch : String → State → Bool × State
  pub release : State → State

-- `DefaultRegisterTTL`, in seconds.
abbrev pub default_register_ttl : ℕ
default_register_ttl = 30

-- What the package net gives: its part for `Extract`, and `net.SplitHostPort`, `none` for an error.
pub record Env : Type 0 where
  pub net : Net
  pub split_host_port : String → Option (String × String)

pub data Error : Type 0 where
  init_failed split_failed extract_failed register_failed list_failed watch_failed : Error
  server_is_not_exist : Error

-- How a call ends: with the state then, or with a panic.
pub data Result (S : Type 0) : Type 0 where
  done : S → Result S
  failed : Error → S → Result S
  panicked : Result S

abbrev pub and_then : {S : Type 0} → Result S → (S → Result S) → Result S
and_then (done s) k = k s
and_then (failed e s) k = failed e s
and_then panicked k = panicked

abbrev pub ended : {S : Type 0} → Error → Bool × S → Result S
ended e (false, s) = done s
ended e (true, s) = failed e s

-- The service of a server: its id, and the address that is found for its host, with its port.
pub data Located : Type 0 where
  located : Service → Located
  lost : Error → Located

abbrev pub locate_at : Server → String → Addr.Result → Located
locate_at s port (Addr.ok host) = located (plain s.id (host ++ (58 ∷ port)))
locate_at s port (Addr.err e) = lost extract_failed

abbrev pub locate_split : Env → Server → Option (String × String) → Located
locate_split env s none = lost split_failed
locate_split env s (some (host, port)) = locate_at s port (Addr.extract env.net host)

unfoldable pub locate : Env → Server → Located
locate env s = locate_split env s (env.split_host_port s.addr)

module _ (env : Env) (R : Registrar) where
  -- A round of `doRegisterServer`, and of `doRegisterRPCServer`. Without a registry it panics.
  abbrev pub register_located : Bool → String → Located → R.State → Result R.State
  register_located has_registry name (lost e) st = failed e st
  register_located false name (located s) st = panicked
  register_located true name (located s) st =
      ended register_failed (R.register name default_register_ttl s st)

  unfoldable pub register_all : Bool → Named Server → R.State → Result R.State
  register_all has_registry [] st = done st
  register_all has_registry ((k, s) ∷ ss) st =
      and_then (register_located has_registry s.name (locate env s) st)
        (register_all has_registry ss)

  -- `register`.
  unfoldable pub register : App → R.State → Result R.State
  unfolding register_all
  register app st =
      and_then (register_all app.has_registry app.svrs st)
        (register_all app.has_registry app.rpc_svrs)

  -- A round of `doDeregisterServer`, and of `doDeregisterRPCServer`, which go on after an error.
  abbrev pub deregister_located : Bool → String → Located → R.State → Result R.State
  deregister_located has_registry name (lost e) st = failed e st
  deregister_located false name (located s) st = panicked
  deregister_located true name (located s) st = done (R.deregister name s st).1

  unfoldable pub deregister_all : Bool → Named Server → R.State → Result R.State
  deregister_all has_registry [] st = done st
  deregister_all has_registry ((k, s) ∷ ss) st =
      and_then (deregister_located has_registry s.name (locate env s) st)
        (deregister_all has_registry ss)
