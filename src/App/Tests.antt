-- ===== src/App/Tests.antt =====
-- app.go with a network server, an RPC server, and the registry on redis of registry/redis.
use emt.Common.{◌≡◌, ◌≢◌, refl, inl, false, Option, none, some, List, [], ◌∷◌}
use emt.Registry.{String, Service}
use emt.Registry.Tests as RedisTests
use emt.Addr.{Net, Raw, ip_net, Interface}
use emt.App.{
  Server, Client, Named, App, new_app, add_registry, add_server, add_rpc_server, add_client_set,
  named_servers,
}
use emt.App.Register.{Env, Result, done, failed, panicked, register}
use emt.App.Registering.{AreRegistered, AreKept}
use emt.App.OnRedis.{redis_registrar, redis_laws, register-redis_registrar}
use emt.App.Run.{World, run}
use emt.App.Running.{run-ne-done}

-- The servers a and b, at the hosts 1 and 2 with the ports 8 and 9.
abbrev split : String → Option (String × String)
split [] = none
split (c ∷ cs) = some (c ∷ [], cs)

abbrev env : Env
env = record {
  net = record {
    interfaces = none;
    parse_ip = λ s. some s;
    contains = λ b s. false;
    private_blocks = [];
  };
  split_host_port = split;
}

abbrev server_a : Server
server_a = record { name = 97 ∷ []; id = 49 ∷ []; addr = 1 ∷ 8 ∷ [] }

abbrev server_b : Server
server_b = record { name = 98 ∷ []; id = 50 ∷ []; addr = 2 ∷ 9 ∷ [] }

abbrev program : App
program = (add_rpc_server (server_b ∷ []) (add_server (server_a ∷ []) (add_registry new_app)).1).1

abbrev store : List String
store = (98 ∷ 95 ∷ 2 ∷ 58 ∷ 9 ∷ 95 ∷ 50 ∷ []) ∷ (97 ∷ 95 ∷ 1 ∷ 58 ∷ 8 ∷ 95 ∷ 49 ∷ []) ∷ []

registered : register env (redis_registrar RedisTests.server) program [] ≡ done store
unfolding register add_server add_rpc_server add_registry new_app emt.App.Register.locate
    emt.Addr.extract emt.Registry.register
registered = refl

register-redis_registrar_example :
    AreRegistered env
      (redis_registrar RedisTests.server)
      (redis_laws RedisTests.server RedisTests.server-IsRedis)
      store
      program.svrs
    × AreRegistered env
        (redis_registrar RedisTests.server)
        (redis_laws RedisTests.server RedisTests.server-IsRedis)
        store
        program.rpc_svrs
    × AreKept env
        (redis_registrar RedisTests.server)
        (redis_laws RedisTests.server RedisTests.server-IsRedis)
        []
        store
unfolding add_server add_rpc_server add_registry new_app emt.Registry.contains
register-redis_registrar_example =
    register-redis_registrar RedisTests.server RedisTests.server-IsRedis env program [] store
      ((refl, refl), tt) ((refl, refl), tt) registered

-- A program without a registry; and one with a set of clients.
abbrev started : World (List String)
started = record { store = []; actions = [] }

run-ne-done_example : run env (redis_registrar RedisTests.server) new_app 2 started ≢ done started
unfolding new_app
run-ne-done_example =
    run-ne-done env (redis_registrar RedisTests.server) new_app 2 started started (inl refl)
