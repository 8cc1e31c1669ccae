-- ===== src/Zookeeper/Tests.antt =====
-- registry/zookeeper with a server that holds one node.
use emt.Common.{◌≡◌, ◌≢◌, refl, inl, false, some, List, [], ◌∷◌, length}
use emt.Registry.{String}
use emt.Zookeeper.{
  Service, Client, Hashes, Result, done, failed, panicked, node_name, node_path, vague_path,
}
use emt.Zookeeper.Registrations.{register, list_services}
use emt.Zookeeper.Paths.{list_services-ne-done}

-- The state is the names below the project's node; the bytes of a service are its id.
abbrev server : Client
server = record {
  State = List String;
  exists = λ path st. some false;
  create = λ path bytes st. (false, path ∷ st);
  set = λ path bytes st. (false, st);
  delete = λ path st. (false, []);
  children = λ path st. some st;
  num_children = λ path st. some 0;
  get = λ path st. some (49 ∷ []);
  encode = λ s. some s.id;
  decode = λ bytes. some (record { id = bytes; addr = []; version = 0; endpoints = 0 });
  hash = λ s. some (length s.addr);
}

-- The service 1 at a, and the domains d and e.
abbrev service : Service
service = record { id = 49 ∷ []; addr = 97 ∷ []; version = 0; endpoints = 0 }

abbrev stored : List String
stored =
    node_path (100 ∷ []) (49 ∷ [])
    ∷ (47 ∷ 101 ∷ 109 ∷ 116 ∷ 45 ∷ 114 ∷ 101 ∷ 103 ∷ 105 ∷ 115 ∷ 116 ∷ 114 ∷ 121 ∷ [])
    ∷ []

registered : register server (100 ∷ []) service ([], []) ≡ done ((49 ∷ [], 1) ∷ [], stored)
unfolding register emt.Zookeeper.create_path node_path
registered = refl

list_services-ne-done_example :
    list_services server (101 ∷ []) (node_name (100 ∷ []) [] ∷ []) ≢ done []
list_services-ne-done_example =
    list_services-ne-done server (100 ∷ []) (101 ∷ []) (node_name (100 ∷ []) [] ∷ [])
      (node_name (100 ∷ []) [] ∷ []) [] refl refl (inl refl)
