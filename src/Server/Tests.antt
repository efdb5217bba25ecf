-- ===== src/Server/Tests.antt =====
-- A network on which one address is taken, and instances of the theorems on it.
use yabber.Base.{
  ℕ, suc, ◌≡◌, refl, true, false, if◌then◌else◌, Option, none, some, [], ◌∷◌, ◌⊎◌, inl, inr, Bytes,
  str, bytes_eq, nat_eq, ◌==◌, lookup, insert, delete, any, pos,
}
use yabber.Config.{Config}
use yabber.Config.Tests.{sample_config}
use yabber.Server.{
  ListenerSpec, spec_eq, Snapshot, bound, Network, Server, bind_all, listen, unchanged, stale_names,
  stop_accepting, drain_stale, add_started, rebind, commit, sync_issuer, unused_transports, Failure,
  listener_error,
}
use yabber.Server.Lifecycle.{new, apply, after_binding, start, after_start, healthy}
use yabber.Server.Specs.{running_spec}
use yabber.Server.Apply.{setup, unrestored}
use yabber.Server.Replacing.{Replaced, Restored, apply-Replaced, apply-Restored}
use yabber.Server.Start.{start-healthy}
use yabber.Server.Reachable.{
  Reachable, created, applied, started, IsConsistent, Reachable-IsConsistent,
}

-- The world counts the calls; port 81 is taken.
abbrev pub sample_network : Network
sample_network = record {
  World = ℕ;
  Socket = ℕ;
  listen = λ address w. (suc w, if address == str ":81" then inl (str "in use") else inr w);
  address = λ socket. str "127.0.0.1:0";
  close = λ socket w. suc w;
  close_server = λ socket w. suc w;
  shutdown_server = λ socket w. (suc w, none);
}

abbrev pub sample_spec : Bytes → ListenerSpec
sample_spec address = record {
  address = address;
  tls = false;
  min_tls = 0;
  server = sample_config.server;
}

abbrev pub snapshot_of : Config → Snapshot
snapshot_of config = record {
  config = config;
  server = config.server;
  listeners = elim (config.version) [
    | pos v ↦
        (str "http", sample_spec (if v == 1 then str ":80" else str ":8080"))
        ∷ (if v == 3 then (str "admin", sample_spec (str ":81")) ∷ [] else [])
    | _ ↦ []
  ];
  acme = some 5;
  managed_hosts = [];
  transports = [];
}

abbrev pub sample_compile : Config → Option Snapshot → Bytes ⊎ Snapshot
sample_compile config previous = inr (snapshot_of config)

abbrev pub with_version : ℕ → Config
with_version v = record sample_config { version = pos v }

abbrev pub started_server : Server sample_network sample_compile
started_server = record {
  current = snapshot_of (with_version 1);
  running =
      (
        str "http",
        record { spec = sample_spec (str ":80"); socket = 0; closing = false; failure = none },
      )
      ∷ [];
  started = true;
  draining = [];
  issuer_of = some 5;
  refresher = true;
  assigned = [];
  idle_closed = [];
  world = 1;
}

abbrev stopped_server : Server sample_network sample_compile
stopped_server = record started_server {
  running = [];
  started = false;
  issuer_of = none;
  refresher = false;
}

abbrev switched_server : Server sample_network sample_compile
switched_server = (apply sample_network sample_compile (with_version 2) started_server).0

abbrev restored_server : Server sample_network sample_compile
restored_server = (apply sample_network sample_compile (with_version 3) started_server).0

abbrev in_use : Failure
in_use = listener_error (str "admin") (str "in use") []

abbrev running_server : Server sample_network sample_compile
running_server = (start sample_network sample_compile stopped_server).0

apply-Replaced_example :
    (next : Snapshot) × (sample_compile (with_version 2) (some started_server.current) ≡ inr next)
    × (switched_server.current ≡ next)
    × (switched_server.started ≡ started_server.started)
    × (switched_server.issuer_of ≡ (if started_server.started then next.acme else none))
    × (started_server.started ≡ false → switched_server.running ≡ started_server.running)
    × (started_server.started ≡ true
        → (j : Bytes)
        → Replaced sample_network sample_compile
            (lookup j (bound next))
            (lookup j started_server.running)
            (lookup j switched_server.running))
unfolding apply after_binding bind_all listen unchanged stale_names stop_accepting drain_stale
    add_started commit sync_issuer bound lookup insert delete
apply-Replaced_example =
    apply-Replaced sample_network sample_compile (with_version 2) started_server switched_server
      refl

apply-Restored_example :
    (setup sample_network sample_compile restored_server
      ≡ setup sample_network sample_compile started_server)
    × ((j : Bytes)
        → Restored sample_network sample_compile
            (any (λ err. err.0 == j) (unrestored sample_network sample_compile in_use))
            (lookup j started_server.running)
            (lookup j restored_server.running))
unfolding apply after_binding bind_all listen unchanged stale_names stop_accepting rebind bound
    lookup insert delete
apply-Restored_example =
    apply-Restored sample_network sample_compile (with_version 3) started_server restored_server
      in_use refl

start-healthy_example :
    (stopped_server.started ≡ false)
    × (setup sample_network sample_compile running_server
        ≡ (stopped_server.current, (true, (some 5, (true, ([], []))))))
    × ((j : Bytes)
        → running_spec sample_network sample_compile j running_server.running
          ≡ lookup j (bound stopped_server.current))
    × (healthy sample_network sample_compile running_server ≡ true)
unfolding start after_start bind_all listen unchanged sync_issuer bound lookup insert
start-healthy_example =
    start-healthy sample_network sample_compile stopped_server running_server refl

abbrev new_server : Server sample_network sample_compile
new_server = record {
  current = snapshot_of (with_version 1);
  running = [];
  started = false;
  draining = [];
  issuer_of = none;
  refresher = false;
  assigned = (5, ([], true)) ∷ [];
  idle_closed = [];
  world = 0;
}

created_server : Reachable sample_network sample_compile new_server
created_server =
    created 0 (with_version 1) new_server
      (unfold new commit sync_issuer unused_transports insert in refl)

Reachable-IsConsistent_example :
    IsConsistent sample_network sample_compile
      (apply sample_network sample_compile
        (with_version 3)
        (start sample_network sample_compile new_server).0).0
Reachable-IsConsistent_example =
    Reachable-IsConsistent sample_network sample_compile
      (apply sample_network sample_compile (with_version 3)
        (start sample_network sample_compile new_server).0).0
      (applied (with_version 3) (start sample_network sample_compile new_server).0
        (started new_server created_server))
