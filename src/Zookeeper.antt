-- ===== src/Zookeeper.antt =====
-- registry/zookeeper: services as nodes of a zookeeper server. The client of the server, JSON and the
-- hash are other code, and parameters.
pub mod Registrations
pub mod Paths
pub mod Repeated
pub mod Tests
use emt.Common.{
  ℕ, Bool, true, false, Option, none, some, List, [], ◌∷◌, ◌++◌, ◌==◌, same_bytes, if◌then◌else◌,
}
use emt.Registry.{String}

-- `Service`; the version and the endpoints are numbers, and 0 is the empty version.
pub record Service : Type 0 where
  pub id : String
  pub addr : String
  pub version : ℕ
  pub endpoints : ℕ

-- `zk.Conn`: its calls, whose flag or `none` tells an error, on the state of the server; and
-- `json.Marshal`, `json.Unmarshal` and `hash.Hash` on services.
pub record Client : Type 1 where
  pub State : Type 0
  pub exists : String → State → Option Bool
  pub create : String → List ℕ → State → Bool × State
  pub set : String → List ℕ → State → Bool × State
  pub delete : String → State → Bool × State
  pub children : String → State → Option (List String)
  pub num_children : String → State → Option ℕ
  pub get : String → State → Option (List ℕ)
  pub encode : Service → Option (List ℕ)
  pub decode : List ℕ → Option Service
  pub hash : Service → Option ℕ

-- "/emt-registry".
abbrev pub default_project_name : String
default_project_name =
    47 ∷ 101 ∷ 109 ∷ 116 ∷ 45 ∷ 114 ∷ 101 ∷ 103 ∷ 105 ∷ 115 ∷ 116 ∷ 114 ∷ 121 ∷ []

-- `strings.ReplaceAll(s, "/", "-")`.
abbrev pub replace_char : ℕ → ℕ
replace_char c = if c == 47 then 45 else c

unfoldable pub replace_all : String → String
replace_all [] = []
replace_all (c ∷ cs) = replace_char c ∷ replace_all cs

-- `path.Join(DefaultProjectName, p)`, for a `p` without a slash: the dots are taken out.
abbrev pub join_project : String → String
join_project p =
    if same_bytes p []
    then default_project_name
    else if same_bytes p (46 ∷ [])
    then default_project_name
    else if same_bytes p (46 ∷ 46 ∷ [])
    then 47 ∷ []
    else default_project_name ++ (47 ∷ p)

-- The name of a node in `nodePath`.
unfoldable pub node_name : String → String → String
unfolding replace_all
node_name s [] = replace_all s
node_name s (c ∷ cs) = replace_all s ++ (95 ∷ replace_all (c ∷ cs))

-- `nodePath`.
unfoldable pub node_path : String → String → String
unfolding node_name
node_path s id = join_project (node_name s id)

-- `vaguePath`: what stands before the first underscore; `none` is the panic of a slice without one.
abbrev pub cons_some : ℕ → Option String → Option String
cons_some c none = none
cons_some c (some cs) = some (c ∷ cs)

unfoldable pub vague_path : String → Option String
vague_path [] = none
vague_path (c ∷ cs) = let rest = vague_path cs in if c == 95 then some [] else cons_some c rest

-- `strings.Split(path, "/")` without its first and its last part.
abbrev pub onto_first : ℕ → List String → List String
onto_first c [] = (c ∷ []) ∷ []
onto_first c (p ∷ ps) = (c ∷ p) ∷ ps

unfoldable pub split_slashes : String → List String
split_slashes [] = [] ∷ []
split_slashes (c ∷ cs) =
    let rest = split_slashes cs in if c == 47 then [] ∷ rest else onto_first c rest

abbrev pub but_last : List String → List String
but_last [] = []
but_last (p ∷ []) = []
but_last (p ∷ q ∷ ps) = p ∷ but_last (q ∷ ps)

abbrev pub middle : List String → List String
middle [] = []
middle (p ∷ ps) = but_last ps

-- How a call ends.
pub data Result (S : Type 0) : Type 0 where
  done : S → Result S
  failed : S → Result S
  panicked : Result S

abbrev pub ended : {S : Type 0} → Bool × S → Result S
ended (false, s) = done s
ended (true, s) = failed s

abbrev pub and_then : {S T : Type 0} → Result S → (S → Result T) → (S → T) → Result T
and_then (done s) k f = k s
and_then (failed s) k f = failed (f s)
and_then panicked k f = panicked

module _ (c : Client) where
  -- The loop of `createPath`: a node whose test fails is created too.
  abbrev pub is_there : Option Bool → Bool
  is_there none = false
  is_there (some b) = b

  unfoldable pub create_parents : String → List String → c.State → Result c.State
  create_parents name [] st = done st
  create_parents name (p ∷ ps) st =
      and_then
        (if is_there (c.exists (name ++ p) st) then done st else ended (c.create (name ++ p) [] st))
        (create_parents (name ++ (p ++ (47 ∷ []))) ps) (λ st'. st')

  -- `createPath`.
  abbrev pub create_missing : String → List ℕ → Option Bool → c.State → Result c.State
  create_missing path bytes none st = failed st
  create_missing path bytes (some true) st = done st
  create_missing path bytes (some false) st =
      and_then (create_parents (47 ∷ []) (middle (split_slashes path)) st)
        (λ st'. ended (c.create path bytes st')) (λ st'. st')

  unfoldable pub create_path : String → List ℕ → c.State → Result c.State
  unfolding create_parents split_slashes
  create_path path bytes st = create_missing path bytes (c.exists path st) st

-- `zookeeperRegistry.register`: the hashes of the services that were registered, by their ids, the
-- last one first.
abbrev pub Hashes : Type 0
Hashes = List (String × ℕ)

abbrev pub find : String → Hashes → Option ℕ
find k [] = none
find k ((j, h) ∷ hs) = if same_bytes j k then some h else find k hs

abbrev pub erase : String → Hashes → Hashes
erase k [] = []
erase k ((j, h) ∷ hs) = let rest = erase k hs in if same_bytes j k then rest else (j, h) ∷ rest

abbrev pub is_known : Option ℕ → ℕ → Bool
is_known none h = false
is_known (some h') h = h' == h
