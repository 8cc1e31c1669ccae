-- ===== src/App/Run.antt =====
-- `Run` of app.go, and what it starts and stops.
use emt.Common.{
  ℕ, zero, suc, Bool, true, false, Option, none, some, List, [], ◌∷◌, ◌++◌, if◌then◌else◌,
}
use emt.Registry.{String, Service}
use emt.App.{Client, Named, find, ClientSet, App}
use emt.App.Register.{
  Registrar, Env, init_failed, list_failed, watch_failed, server_is_not_exist, Result, done, failed,
  panicked, and_then, ended, register, deregister_all,
}

-- What is started and stopped. `no_client` is a goroutine that calls `Start` on a client that is
-- not there.
pub data Part : Type 0 where
  server rpc_server client rpc_client set_client no_client : Part

pub data Action : Type 0 where
  starts : Part → String → Action
  starts_at : Part → String → String → Action
  stops : Part → String → Action

abbrev pub starts_all : {V : Type 0} → Part → Named V → List Action
starts_all p [] = []
starts_all p ((k, v) ∷ vs) = starts p k ∷ starts_all p vs

abbrev pub stops_all : {V : Type 0} → Part → Named V → List Action
stops_all p [] = []
stops_all p ((k, v) ∷ vs) = stops p k ∷ stops_all p vs

abbrev pub stops_sets : Named ClientSet → List Action
stops_sets [] = []
stops_sets ((k, set) ∷ sets) = stops_all set_client set.clis ++ stops_sets sets

pub record World (S : Type 0) : Type 0 where
  pub store : S
  pub actions : List Action

abbrev pub act : {S : Type 0} → List Action → World S → World S
act as' w = record w { actions = w.actions ++ as' }

abbrev pub on_world : {S : Type 0} → World S → Result S → Result (World S)
on_world w (done st) = done (record w { store = st })
on_world w (failed e st) = failed e (record w { store = st })
on_world w panicked = panicked

module _ (env : Env) (R : Registrar) where
  -- The watch at the end of a round; its handler does nothing.
  abbrev pub watched : String → World R.State → Result (World R.State)
  watched name w = on_world w (ended watch_failed (R.watch name w.store))

  -- The loop over the services of a set in `doClientSetStart`: for a service without a client it
  -- calls a method of the client that is not there.
  abbrev pub start_listed :
      String → Named Client → List Service → World R.State → Result (World R.State)
  start_listed name clis [] w = done w
  start_listed name clis (v ∷ vs) w = elim (find v.id clis) [
    | none ↦ panicked
    | some c ↦ start_listed name clis vs (act (starts_at set_client name v.id ∷ []) w)
  ]

  abbrev pub start_set :
      String → ClientSet → Option (List Service) → World R.State → Result (World R.State)
  start_set name set none w = failed list_failed w
  start_set name set (some []) w = failed server_is_not_exist w
  start_set name set (some (v ∷ vs)) w =
      and_then (start_listed name set.clis (v ∷ vs) w) (watched name)

  -- `doClientSetStart`.
  unfoldable pub do_client_set_start :
      Bool → Named ClientSet → World R.State → Result (World R.State)
  do_client_set_start has_registry [] w = done w
  do_client_set_start false ((k, set) ∷ sets) w = panicked
  do_client_set_start true ((k, set) ∷ sets) w =
      and_then (start_set k set (R.list_services k w.store) w) (do_client_set_start true sets)

  -- The rounds of `doClientStart` and of `doRPCClientStart`, which differ in what they start for a
  -- client with an address.
  abbrev pub start_found :
      Part → String → Option (List Service) → World R.State → Result (World R.State)
  start_found part name none w = failed list_failed w
  start_found part name (some []) w = failed server_is_not_exist w
  start_found part name (some (v ∷ vs)) w = watched name (act (starts_at part name v.addr ∷ []) w)

  abbrev pub start_client :
      Part → Action → Bool → Client → String → World R.State → Result (World R.State)
  start_client part direct has_registry c name w = elim c.addr [
    | [] ↦ elim has_registry [
      | false ↦ panicked
      | true ↦ start_found part name (R.list_services name w.store) w
    ]
    | b ∷ bs ↦ done (act (direct ∷ []) w)
  ]

  -- `doClientStart`.
  unfoldable pub do_client_start : Bool → Named Client → World R.State → Result (World R.State)
  do_client_start has_registry [] w = done w
  do_client_start has_registry ((k, c) ∷ cs) w =
      and_then (start_client client (starts client k) has_registry c k w)
        (do_client_start has_registry cs)

  abbrev pub direct_of : String → Option Client → Action
  direct_of k none = starts no_client k
  direct_of k (some c) = starts client k

  -- `doRPCClientStart`, which starts a client of the same name of the network in place of one of RPC.
  unfoldable pub do_rpc_client_start :
      Bool → Named Client → Named Client → World R.State → Result (World R.State)
  do_rpc_client_start has_registry clis [] w = done w
  do_rpc_client_start has_registry clis ((k, c) ∷ cs) w =
      and_then (start_client rpc_client (direct_of k (find k clis)) has_registry c k w)
        (do_rpc_client_start has_registry clis cs)

  -- The first lines of `Run`.
  abbrev pub run_registry : App → R.State → Result R.State
  run_registry app st =
      if app.has_registry
      then and_then (ended init_failed (R.init st)) (register env R app)
      else done st

  -- `Run` up to its ticker.
  unfoldable pub run_start : App → World R.State → Result (World R.State)
  unfolding register do_client_set_start do_client_start do_rpc_client_start
  run_start app w =
      and_then
        (and_then
          (and_then (on_world w (run_registry app w.store)) (λ w1.
            do_client_set_start app.has_registry app.cli_composite_set
              (act (starts_all server app.svrs ++ starts_all rpc_server app.rpc_svrs) w1)))
          (do_client_start app.has_registry app.clis))
        (do_rpc_client_start app.has_registry app.clis app.rpc_clis)

  -- The ticker registers again, and an error is left out.
  abbrev pub ticked : World R.State → Result R.State → Result (World R.State)
  ticked w (done st) = done (record w { store = st })
  ticked w (failed e st) = done (record w { store = st })
  ticked w panicked = panicked

  unfoldable pub tick : App → World R.State → Result (World R.State)
  unfolding register
  tick app w = ticked w (register env R app w.store)

  abbrev pub released : App → World R.State → Result (World R.State)
  released app w =
      if app.has_registry
      then done (
          act
            (stops_all client app.clis
              ++ (stops_sets app.cli_composite_set
                  ++ (stops_all server app.svrs ++ stops_all rpc_server app.rpc_svrs)))
            (record w { store = R.release w.store }))
      else panicked

  -- `doClose`, when the signal has come.
  unfoldable pub do_close : App → World R.State → Result (World R.State)
  unfolding deregister_all
  do_close app w =
      and_then
        (on_world w (
          and_then (deregister_all env R app.has_registry app.svrs w.store)
            (deregister_all env R app.has_registry app.rpc_svrs)))
        (released app)

  unfoldable pub ticks : App → ℕ → World R.State → Result (World R.State)
  unfolding tick
  ticks app zero w = done w
  ticks app (suc n) w = and_then (tick app w) (ticks app n)

  -- `Run`, with as many ticks before the signal.
  unfoldable pub run : App → ℕ → World R.State → Result (World R.State)
  unfolding run_start ticks do_close
  run app n w = and_then (and_then (run_start app w) (ticks app n)) (do_close app)
