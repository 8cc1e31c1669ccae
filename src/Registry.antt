-- ===== src/Registry.antt =====
-- registry/redis/redis.go: services as keys of a redis server, and watchers that compare lists.
pub mod Keys
pub mod Listing
pub mod Watching
pub mod Tests
use emt.Common.{
  same_bytes, ℕ, Bool, true, false, not, ◌&&◌, ◌||◌, Option, none, some, List, [], ◌∷◌, ◌++◌, ◌==◌,
  if◌then◌else◌,
}

-- A string, as its bytes.
abbrev pub String : Type 0
String = List ℕ

-- `Service`. What `Version` and `Endpoints` hold is a number each, 0 for nothing.
pub record Service : Type 0 where
  pub id : String
  pub addr : String
  pub version : ℕ
  pub endpoints : ℕ

-- A service of which only the id and the address are known.
abbrev pub plain : String → String → Service
plain id addr = record { id = id; addr = addr; version = 0; endpoints = 0 }

-- `DefaultSeparator`, the underscore.
abbrev pub separator : ℕ
separator = 95

-- `strings.Contains(s, "_")`.
unfoldable pub contains : String → Bool
contains [] = false
contains (c ∷ cs) = c == separator || contains cs

-- `strings.Split(s, "_")`: one part more than there are separators.
abbrev pub to_first : ℕ → List String → List String
to_first c [] = (c ∷ []) ∷ []
to_first c (p ∷ ps) = (c ∷ p) ∷ ps

unfoldable pub split : String → List String
split [] = [] ∷ []
split (c ∷ cs) = let rest = split cs in if c == separator then [] ∷ rest else to_first c rest

-- `service2StringKey`; `none` is `ErrorInvalidKey`.
unfoldable pub service_to_key : String → Service → Option String
unfolding contains
service_to_key domain s =
    if contains domain || (contains s.id || contains s.addr)
    then none
    else some (domain ++ (separator ∷ (s.addr ++ (separator ∷ s.id))))

-- The part of `stringKey2Service` behind the split.
abbrev pub from_parts : List String → Option Service
from_parts (domain ∷ addr ∷ id ∷ []) = some (plain id addr)
from_parts _ = none

-- `stringKey2Service`.
unfoldable pub key_to_service : String → Option Service
unfolding split
key_to_service key = from_parts (split key)

-- The redis server: the state of its keys, what `SET` with the seconds of `EX` and `DEL` do with it,
-- and the keys that `KEYS` gives for a pattern of a prefix and a star.
pub record Redis : Type 1 where
  pub State : Type 0
  pub put : String → ℕ → State → State
  pub del : String → State → State
  pub keys : String → State → List String

-- `Register`, of so many seconds, and `DeRegister`, when the server answers; `none` is `ErrorInvalidKey`.
unfoldable pub register : (r : Redis) → String → ℕ → Service → r.State → Option r.State
unfolding service_to_key
register r domain ttl s st = elim (service_to_key domain s) [
  | none ↦ none
  | some key ↦ some (r.put key ttl st)
]

unfoldable pub deregister : (r : Redis) → String → Service → r.State → Option r.State
unfolding service_to_key
deregister r domain s st = elim (service_to_key domain s) [
  | none ↦ none
  | some key ↦ some (r.del key st)
]

-- The loop of `ListServices`: keys of another form are left out.
abbrev pub keep : Option Service → List Service → List Service
keep none services = services
keep (some s) services = s ∷ services

unfoldable pub services_of : List String → List Service
unfolding key_to_service
services_of [] = []
services_of (k ∷ ks) = keep (key_to_service k) (services_of ks)

-- `ListServices`.
unfoldable pub list_services : (r : Redis) → String → r.State → List Service
unfolding services_of
list_services r domain st = services_of (r.keys (domain ++ (separator ∷ [])) st)

-- The test of `Contain`.
abbrev pub is_same : Service → Service → Bool
is_same v s = same_bytes v.id s.id && same_bytes v.addr s.addr

-- `Contain`.
unfoldable pub contain : Service → List Service → Bool
contain s [] = false
contain s (v ∷ vs) = is_same v s || contain s vs

pub data Event : Type 0 where
  create : Service → Event
  delete : Service → Event

-- The two loops of the watcher's tick.
unfoldable pub created : List Service → List Service → List Event
unfolding contain
created old [] = []
created old (v ∷ vs) = if contain v old then created old vs else create v ∷ created old vs

unfoldable pub deleted : List Service → List Service → List Event
unfolding contain
deleted current [] = []
deleted current (v ∷ vs) =
    if contain v current then deleted current vs else delete v ∷ deleted current vs

-- The tick: the events for the handler, and the list that the watcher keeps.
unfoldable pub tick : List Service → List Service → List Event × List Service
unfolding created deleted
tick old current = (created old current ++ deleted current old, current)
