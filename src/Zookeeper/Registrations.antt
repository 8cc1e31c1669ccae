-- ===== src/Zookeeper/Registrations.antt =====
-- The calls of registry/zookeeper/zookeeper.go.
use emt.Common.{
  ℕ, Bool, true, false, Option, none, some, List, [], ◌∷◌, ◌==◌, same_bytes, if◌then◌else◌,
}
use emt.Registry
use emt.Registry.{String, plain, Event}
use emt.Zookeeper.{
  Service, Client, default_project_name, node_path, vague_path, Result, done, failed, panicked,
  ended, and_then, create_path, Hashes, find, erase, is_known,
}

module _ (c : Client) where
  abbrev pub store_node : String → List ℕ → Option Bool → c.State → Result c.State
  store_node path bytes none st = failed st
  store_node path bytes (some true) st = ended (c.set path bytes st)
  store_node path bytes (some false) st = create_path c path bytes st

  abbrev pub store_encoded : String → Option (List ℕ) → Option Bool → c.State → Result c.State
  store_encoded path none none st = failed st
  store_encoded path none (some b) st = failed st
  store_encoded path (some bytes) e st = store_node path bytes e st

  abbrev pub register_hashed :
      String → Service → Option ℕ → Hashes × c.State → Result (Hashes × c.State)
  register_hashed domain s none z = failed z
  register_hashed domain s (some h) (hs, st) =
      if is_known (find s.id hs) h
      then done (hs, st)
      else and_then
          (store_encoded (node_path domain s.id) (c.encode (record s { version = 0 }))
            (c.exists (node_path domain s.id) st) st)
          (λ st'. done ((s.id, h) ∷ hs, st')) (λ st'. (hs, st'))

  -- `Register`.
  unfoldable pub register : String → Service → Hashes × c.State → Result (Hashes × c.State)
  register domain s z = register_hashed domain s (c.hash s) z

  -- `DeRegister`; without an address it is `ErrorNoNode`.
  abbrev pub deregister_at : String → Service → Hashes × c.State → Result (Hashes × c.State)
  deregister_at domain s (hs, st) =
      and_then (ended (c.delete (node_path domain s.id) st)) (λ st'. done (erase s.id hs, st'))
        (λ st'. (erase s.id hs, st'))

  unfoldable pub deregister : String → Service → Hashes × c.State → Result (Hashes × c.State)
  deregister domain s z = elim s.addr [ [] ↦ failed z | b ∷ bs ↦ deregister_at domain s z ]

  -- A round of the loop of `ListServices`, and the rest of it. A node with children is left out.
  abbrev pub list_decoded :
      Option Service → Result (List Registry.Service) → Result (List Registry.Service)
  list_decoded none rest = failed []
  list_decoded (some s) (done ss) = done (plain s.id s.addr ∷ ss)
  list_decoded (some s) (failed ss) = failed ss
  list_decoded (some s) panicked = panicked

  abbrev pub decoded : Option (List ℕ) → Option Service
  decoded none = none
  decoded (some bytes) = c.decode bytes

  abbrev pub list_node :
      String → Option ℕ → c.State → Result (List Registry.Service) → Result (List Registry.Service)
  list_node key none st rest = failed []
  list_node key (some n) st rest =
      if n == 0 then list_decoded (decoded (c.get (node_path key []) st)) rest else rest

  abbrev pub list_key :
      String
      → String
      → Option String
      → c.State
      → Result (List Registry.Service)
      → Result (List Registry.Service)
  list_key domain key none st rest = panicked
  list_key domain key (some d) st rest =
      if same_bytes d domain
      then list_node key (c.num_children (node_path key []) st) st rest
      else rest

  unfoldable pub list_keys : String → List String → c.State → Result (List Registry.Service)
  list_keys domain [] st = done []
  list_keys domain (key ∷ keys) st =
      let rest = list_keys domain keys st in list_key domain key (vague_path key) st rest

  abbrev pub list_children :
      String → Option (List String) → c.State → Result (List Registry.Service)
  list_children domain none st = failed []
  list_children domain (some keys) st = list_keys domain keys st

  -- `ListServices`; the services come in any order.
  unfoldable pub list_services : String → c.State → Result (List Registry.Service)
  unfolding list_keys
  list_services domain st = list_children domain (c.children default_project_name st) st

  -- The tick of `Watch`: the events, and the services that the watcher keeps then.
  abbrev pub ticked :
      List Registry.Service
      → Result (List Registry.Service)
      → Result (List Event × List Registry.Service)
  ticked old (done current) = done (Registry.tick old current)
  ticked old (failed ss) = done ([], old)
  ticked old panicked = panicked

  unfoldable pub watch_tick :
      String → List Registry.Service → c.State → Result (List Event × List Registry.Service)
  unfolding list_services
  watch_tick domain old st = ticked old (list_services domain st)
