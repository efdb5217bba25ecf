-- ===== src/Server/Lifecycle.antt =====
-- server.go: New, Apply, Update, Start, Shutdown, the refresh of certificates, Status and Healthy.
use yabber.Base.{
  ℕ, ◌++◌, str, Bool, true, false, not, if◌then◌else◌, Option, none, some, List, [], ◌∷◌, ◌⊎◌, inl,
  inr, Bytes, bytes_eq, Dict, lookup,
}
use yabber.Config.{Config}
use yabber.Proxy.{TransportKey}
use yabber.Server.{
  ListenerSpec, Snapshot, bound, keys, Network, ListenerStatus, Status, Failure, not_compiled,
  already_running, listener_error, not_modified, UpdateError, RunningListener, Server, Bound,
  bound_all, not_bound, stale_names, stop_accepting, abandon, bind_all, sync_issuer, commit,
  drain_stale, add_started, rebind,
}

module _ (n : Network) (compile : Config → Option Snapshot → Bytes ⊎ Snapshot) where
  -- A stopped server.
  unfoldable pub new : n.World → Config → Bytes ⊎ Server n compile
  new w config = elim (compile config none) [
    | inl err ↦ inl err
    | inr snap ↦ inr (
        commit n compile none snap true (record {
          current = snap;
          running = [];
          started = false;
          draining = [];
          issuer_of = none;
          refresher = false;
          assigned = [];
          idle_closed = [];
          world = w;
        }))
  ]

  unfoldable pub after_binding :
      Snapshot → List Bytes → Server n compile → Bound n compile → Server n compile × Option Failure
  after_binding next stale s (not_bound w started name err) =
      let (s', errs) = rebind n compile stale (record s { world = abandon n compile started w }) in
      (s', some (listener_error name err errs))
  after_binding next stale s (bound_all w started) =
      let s' =
        drain_stale n compile stale
          (commit n compile (some s.current) next true (record s { world = w })) in
      (record s' { running = add_started n compile started s'.running }, none)

  -- Validates a configuration and switches to it; on an error, the previous one stays active.
  unfoldable pub apply : Config → Server n compile → Server n compile × Option Failure
  apply config s = elim (compile config (some s.current)) [
    | inl err ↦ (s, some (not_compiled err))
    | inr next ↦
        if not s.started
        then (commit n compile (some s.current) next true s, none)
        else let stale = stale_names n compile next s.running (keys s.running) in
          let (stopped, w) = stop_accepting n compile stale s.running s.world in
          after_binding next stale (record s { running = stopped; world = w })
            (bind_all n compile next stopped (keys (bound next)) [] w)
  ]

  -- Applies the result of modifying a copy of the active configuration.
  unfoldable pub update :
      (Config → UpdateError ⊎ Config) → Server n compile → Server n compile × Option Failure
  update modify s = elim (modify s.current.config) [
    | inl err ↦ (s, some (not_modified err))
    | inr config ↦ apply config s
  ]

  unfoldable pub after_start :
      Server n compile → Bound n compile → Server n compile × Option Failure
  after_start s (not_bound w started name err) =
      (record s { world = abandon n compile started w }, some (listener_error name err []))
  after_start s (bound_all w started) =
      let s' = sync_issuer n compile (record s { running = started; started = true; world = w }) in
      (record s' { refresher = true }, none)

  -- Binds every listener, or none.
  unfoldable pub start : Server n compile → Server n compile × Option Failure
  start s =
      if s.started
      then (s, some already_running)
      else after_start s (bind_all n compile s.current [] (keys (bound s.current)) [] s.world)

  -- Re-reads the certificates: `reload` gives the new managed hosts of the active snapshot.
  unfoldable pub refresh_certificates :
      (Snapshot → Bytes ⊎ List Bytes) → Server n compile → Server n compile
  refresh_certificates reload s = elim (reload s.current) [
    | inl err ↦ s
    | inr hosts ↦ commit n compile none (record s.current { managed_hosts = hosts }) false s
  ]

  pub shut_down : Dict Bytes (RunningListener n compile) → n.World → n.World × List (Bytes × Bytes)
  shut_down [] w = (w, [])
  shut_down ((name, r) ∷ running) w =
      let (w', result) = n.shutdown_server r.socket w in
      elim result [
        | none ↦ shut_down running w'
        | some err ↦
            let (w'', errs) = shut_down running (n.close_server r.socket w') in
            (w'', (name, err) ∷ errs)
      ]

  abbrev pools_in : Dict TransportKey ℕ → List ℕ
  pools_in [] = []
  pools_in ((key, pool) ∷ pools) = pool ∷ pools_in pools

  abbrev still_draining :
      Option Bytes → List (RunningListener n compile) → List (RunningListener n compile)
  still_draining none draining = []
  still_draining (some late) draining = draining

  abbrev late_error : Option Bytes → Option Bytes
  late_error none = none
  late_error (some late) = some (str "draining replaced listeners: " ++ late)

  -- The replaced listeners are done in time, or `late` is the error of the context. The result has the
  -- errors of the listeners, and that of the replaced ones.
  unfoldable pub shutdown :
      Option Bytes → Server n compile → Server n compile × (List (Bytes × Bytes) × Option Bytes)
  unfolding sync_issuer
  shutdown late s =
      let s' =
        sync_issuer n compile (record s { running = []; started = false; refresher = false }) in
      let (w, errs) = shut_down s.running s.world in
      (
        record s' {
          world = w;
          draining = still_draining late s.draining;
          idle_closed = pools_in s.current.transports ++ s'.idle_closed;
        },
        (errs, late_error late),
      )

  abbrev status_with : Bytes → ListenerSpec → Option (RunningListener n compile) → ListenerStatus
  status_with name spec none = record {
    name = name;
    address = spec.address;
    tls = spec.tls;
    running = false;
    error = [];
  }
  status_with name spec (some r) = elim (r.failure) [
    | none ↦ record {
      name = name;
      address = n.address r.socket;
      tls = spec.tls;
      running = true;
      error = [];
    }
    | some err ↦ record {
      name = name;
      address = n.address r.socket;
      tls = spec.tls;
      running = false;
      error = err;
    }
  ]

  unfoldable pub listener_statuses :
      Dict Bytes (RunningListener n compile) → Dict Bytes ListenerSpec → List ListenerStatus
  listener_statuses running [] = []
  listener_statuses running ((name, spec) ∷ listeners) =
      status_with name spec (lookup name running) ∷ listener_statuses running listeners

  -- The listeners come in the order of the snapshot, which the source sorts by name.
  unfoldable pub status : Server n compile → Status
  status s = record {
    running = s.started;
    enabled = not s.current.config.disabled;
    listeners = listener_statuses s.running s.current.listeners;
  }

  unfoldable pub all_running : List ListenerStatus → Bool
  all_running [] = true
  all_running (l ∷ ls) = if not l.running then false else all_running ls

  -- A gateway turned off is healthy.
  unfoldable pub healthy : Server n compile → Bool
  unfolding status
  healthy s =
      let st = status s in
      if not st.running then false else if not st.enabled then true else all_running st.listeners
