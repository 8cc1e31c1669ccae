-- ===== src/App/Running.antt =====
-- Programs of app.go that do not run to their end.
use emt.Common.{
  ℕ, ◌⊎◌, Option-cases, ◌≡◌, ◌≢◌, refl, ap, sym, ◌∙◌, inl, inr, Bool, true, false, Option, none,
  some, List, [], ◌∷◌, ◌++◌, All, All-append,
}
use emt.Registry.{String, Service}
use emt.App.{
  Named, find, Client, ClientSet, App, new_client_set, named_sets, add_all, add_client_set,
}
use emt.App.Register.{Registrar, Env, done}
use emt.App.Registering.{and_then-done}
use emt.App.Run.{
  World, act, on_world, server, rpc_server, starts_all, run_registry, do_client_start,
  do_rpc_client_start, start_set, do_client_set_start, released, do_close, run_start, ticks, run,
}

-- No client is in a set: so they are added, and nothing puts one in.
abbrev pub AreEmpty : Named ClientSet → Type 0
AreEmpty = All (λ e. e.1.clis ≡ [])

abbrev pub HasSet : Named ClientSet → Type 0
HasSet m =
    (k : String) × (set : ClientSet) × (sets : Named ClientSet) × (m ≡ (k, set) ∷ sets)
    × AreEmpty ((k, set) ∷ sets)

add_all-AreEmpty :
    (vs : List (String × ClientSet)) (m : Named ClientSet)
    → AreEmpty vs
    → AreEmpty m
    → AreEmpty (add_all vs m).1
unfolding add_all
add_all-AreEmpty [] m h h' = h'
add_all-AreEmpty ((k, v) ∷ vs) m (h, hs) h' = elim (Option-cases (find k m)) [
  | inl e ↦ rw e (add_all-AreEmpty vs _ hs (All-append _ m ((k, v) ∷ []) h' (h, tt)))
  | inr (w, e) ↦ rw e h'
]

named_sets-AreEmpty : (cs : List Client) → AreEmpty (named_sets cs)
unfolding new_client_set
named_sets-AreEmpty [] = tt
named_sets-AreEmpty (c ∷ cs) = (refl, named_sets-AreEmpty cs)

-- AddClientSet leaves the sets empty.
pub add_client_set-AreEmpty :
    (cs : List Client) (app : App)
    → AreEmpty app.cli_composite_set
    → AreEmpty (add_client_set cs app).1.cli_composite_set
unfolding add_client_set
add_client_set-AreEmpty cs app h = add_all-AreEmpty (named_sets cs) _ (named_sets-AreEmpty cs) h

module _ (env : Env) (R : Registrar) where
  start_set-ne-done :
      (name : String) (set : ClientSet) (o : Option (List Service)) (w w' : World R.State)
      → set.clis ≡ []
      → start_set env R name set o w ≢ done w'
  start_set-ne-done name set none w w' e q = cc q
  start_set-ne-done name set (some []) w w' e q = cc q
  start_set-ne-done name set (some (v ∷ vs)) w w' e q = cc (rw e at q)

  -- A program with a set of clients does not come past the start of the sets: without a service of
  -- that name it ends with an error, and with one it panics.
  pub do_client_set_start-ne-done :
      (b : Bool) (k : String) (set : ClientSet) (sets : Named ClientSet) (w w' : World R.State)
      → AreEmpty ((k, set) ∷ sets)
      → do_client_set_start env R b ((k, set) ∷ sets) w ≢ done w'
  unfolding do_client_set_start
  do_client_set_start-ne-done false k set sets w w' (e, es) q = cc q
  do_client_set_start-ne-done true k set sets w w' (e, es) q =
      let (w1, p, r) = and_then-done (start_set env R k set (R.list_services k w.store) w) _ q in
      start_set-ne-done k set (R.list_services k w.store) w w1 e p

  -- A program without a registry, or one with a set of clients, in which nothing puts a client:
  -- whatever the registry does, and after any number of ticks, it ends with an error or a panic.
  pub run-ne-done :
      (app : App) (n : ℕ) (w w' : World R.State)
      → (app.has_registry ≡ false) ⊎ HasSet app.cli_composite_set
      → run env R app n w ≢ done w'
  unfolding run do_close run_start
  run-ne-done app n w w' (inl e) q =
      let (w1, p, r) = and_then-done _ (do_close env R app) q in
      let (w2, p2, r2) = and_then-done _ (released env R app) r in cc (rw e at r2)
  run-ne-done app n w w' (inr (k, set, sets, e, empty)) q =
      let (w1, p, r) = and_then-done _ (do_close env R app) q in
      let (w2, p2, r2) = and_then-done (run_start env R app w) (ticks env R app n) p in
      let (w3, p3, r3) =
        and_then-done _ (do_rpc_client_start env R app.has_registry app.clis app.rpc_clis) p2 in
      let (w4, p4, r4) = and_then-done _ (do_client_start env R app.has_registry app.clis) p3 in
      let (w5, p5, r5) = and_then-done (on_world w (run_registry env R app w.store)) _ p4 in
      do_client_set_start-ne-done app.has_registry k set sets _ w4 empty (
        ap
          (λ m.
            do_client_set_start env R app.has_registry m
              (act (starts_all server app.svrs ++ starts_all rpc_server app.rpc_svrs) w5))
          (sym e)
        ∙ r5)
