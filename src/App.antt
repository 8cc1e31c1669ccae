-- ===== src/App.antt =====
-- app.go: the servers and clients of a program by their names, their registration, and what is
-- started and stopped. The registry is any implementation of its interface.
pub mod Names
pub mod Register
pub mod Run
pub mod Registering
pub mod Running
pub mod OnRedis
pub mod Tests
use emt.Common.{
  ℕ, Bool, true, false, not, ◌&&◌, Option, none, some, List, [], ◌∷◌, ◌++◌, same_bytes,
  if◌then◌else◌,
}
use emt.Registry.{String, Service}

-- What the program reads of the options of a server, network or RPC, and of a client.
pub record Server : Type 0 where
  pub name : String
  pub id : String
  pub addr : String

pub record Client : Type 0 where
  pub name : String
  pub addr : String

-- A `map[string]…`: the entries with their keys, each key once, in the order in which a loop takes
-- them.
abbrev pub Named : Type 0 → Type 0
Named V = List (String × V)

abbrev pub find : {V : Type 0} → String → Named V → Option V
find k [] = none
find k ((j, v) ∷ vs) = if same_bytes j k then some v else find k vs

-- `clientSet`.
pub record ClientSet : Type 0 where
  pub clis : Named Client
  pub template : Client

-- `app`. A broker is known by its name.
pub record App : Type 0 where
  pub has_registry : Bool
  pub brokers : Named String
  pub clis : Named Client
  pub svrs : Named Server
  pub rpc_clis : Named Client
  pub rpc_svrs : Named Server
  pub cli_composite_set : Named ClientSet

-- `NewApp`.
unfoldable pub new_app : App
new_app = record {
  has_registry = false;
  brokers = [];
  clis = [];
  svrs = [];
  rpc_clis = [];
  rpc_svrs = [];
  cli_composite_set = [];
}

-- `AddRegistry`.
unfoldable pub add_registry : App → App
add_registry app = record app { has_registry = true }

-- `newClientSet`.
unfoldable pub new_client_set : Client → ClientSet
new_client_set c = record { clis = []; template = c }

-- The loop that the calls below share: it ends at the first name that is there. The flag tells
-- `ErrorNameIsExist`.
abbrev pub add_new : {V : Type 0} → Option V → Bool × Named V → Named V → Bool × Named V
add_new none added vs = added
add_new (some v) added vs = (true, vs)

unfoldable pub add_all : {V : Type 0} → List (String × V) → Named V → Bool × Named V
add_all [] m = (false, m)
add_all ((k, v) ∷ vs) m = add_new (find k m) (add_all vs (m ++ ((k, v) ∷ []))) m

abbrev pub named_servers : List Server → List (String × Server)
named_servers [] = []
named_servers (s ∷ ss) = (s.name, s) ∷ named_servers ss

abbrev pub named_clients : List Client → List (String × Client)
named_clients [] = []
named_clients (c ∷ cs) = (c.name, c) ∷ named_clients cs

abbrev pub named_sets : List Client → List (String × ClientSet)
named_sets [] = []
named_sets (c ∷ cs) = (c.name, new_client_set c) ∷ named_sets cs

abbrev pub named_brokers : List String → List (String × String)
named_brokers [] = []
named_brokers (b ∷ bs) = (b, b) ∷ named_brokers bs

-- `AddServer`, `AddClient`, `AddClientSet`, `AddRPCServer`, `AddRPCClient`, `AddBroker`.
unfoldable pub add_server : List Server → App → Bool × App
unfolding add_all
add_server ss app =
    let added = add_all (named_servers ss) app.svrs in (added.0, record app { svrs = added.1 })

unfoldable pub add_client : List Client → App → Bool × App
unfolding add_all
add_client cs app =
    let added = add_all (named_clients cs) app.clis in (added.0, record app { clis = added.1 })

unfoldable pub add_client_set : List Client → App → Bool × App
unfolding add_all new_client_set
add_client_set cs app =
    let added = add_all (named_sets cs) app.cli_composite_set in
    (added.0, record app { cli_composite_set = added.1 })

unfoldable pub add_rpc_server : List Server → App → Bool × App
unfolding add_all
add_rpc_server ss app =
    let added = add_all (named_servers ss) app.rpc_svrs in
    (added.0, record app { rpc_svrs = added.1 })

unfoldable pub add_rpc_client : List Client → App → Bool × App
unfolding add_all
add_rpc_client cs app =
    let added = add_all (named_clients cs) app.rpc_clis in
    (added.0, record app { rpc_clis = added.1 })

unfoldable pub add_broker : List String → App → Bool × App
unfolding add_all
add_broker bs app =
    let added = add_all (named_brokers bs) app.brokers in
    (added.0, record app { brokers = added.1 })
