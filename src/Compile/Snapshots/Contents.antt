-- ===== src/Compile/Snapshots/Contents.antt =====
-- A compilation that succeeds, step by step.
use yabber.Base.{
  ℕ, ◌≡◌, refl, subst, not, ◌||◌, Option, List, [], Bytes, bytes_eq, ◌⊎◌, inl, inr, bind-inr,
  inr_injective, Dict, is_some,
}
use yabber.Config.{Config, Listener}
use yabber.Tls.{store_empty}
use yabber.RateLimit.{Rates}
use yabber.Policies.{Handler}
use yabber.Policies.Compile.{compile_policies}
use yabber.Handlers.{Pools}
use yabber.Acme.Managers.{acme_manager_for}
use yabber.Server.{ListenerSpec}
use yabber.Compile.{listeners}
use yabber.Compile.Tables.{Tables, compile_sites}
use yabber.Compile.Snapshots.{
  Failure, Options, Compilation, compile, or_failure, or_defaults, policies_before, acme_before,
  number, is_ip, proxies_ok, Parts, compile_parts, no_tables, pools_before, snapshot_of,
  compile_listeners, listener_handlers,
}

pub or_failure-inr {ℓ κ} :
    {E : Type ℓ} {A : Type κ} (wrap : E → Failure) (m : E ⊎ A) (a : A)
    → or_failure wrap m ≡ inr a
    → m ≡ inr a
or_failure-inr wrap (inl e) a h = cc
or_failure-inr wrap (inr b) a h = cc

module _ (r : Rates) (o : Options r) where
  -- The steps of a compilation, with the results that the snapshot keeps.
  pub record Steps (ls : List Listener) (cfg : Config) (prev : Option (Compilation r))
      (snap : Compilation r) : Type 0 where
    pub kept : snap.config ≡ cfg
    pub bound : listeners (proxies_ok r o) snap.server snap.min_tls ls ≡ inr snap.listeners
    pub tables : Tables r o.web
    pub pools : Pools
    pub served :
        compile_sites r o.web
          (is_ip r o)
          snap.certs
          (is_some snap.acme)
          snap.listeners
          snap.policies
          ls
          cfg.sites
          []
          (no_tables r o, pools_before r o prev)
        ≡ inr (tables, pools)
    pub handled : listener_handlers r o snap.policies tables ls [] ≡ inr snap.handlers
    pub noted : snap.tls_hosts ≡ tables.tls_hosts
    pub pooled : snap.transports ≡ pools.used

  abbrev pub Resulting :
      Parts r o → List Listener → Config → Option (Compilation r) → Compilation r → Type 0
  Resulting c ls cfg prev snap =
      Steps ls cfg prev snap × (snap.policies ≡ c.policies) × (snap.acme ≡ c.manager)

  snapshot_of-Steps :
      (c : Parts r o) (ls : List Listener) (cfg : Config) (prev : Option (Compilation r))
      (specs : Dict Bytes ListenerSpec) (tables : Tables r o.web) (pools : Pools)
      (managed : List Bytes) (handlers : Dict Bytes (Handler r))
      → listeners (proxies_ok r o) c.server c.min_tls ls ≡ inr specs
      → compile_sites r o.web
          (is_ip r o)
          c.certs
          (is_some c.manager)
          specs
          c.policies
          ls
          cfg.sites
          []
          (no_tables r o, pools_before r o prev)
        ≡ inr (tables, pools)
      → listener_handlers r o c.policies tables ls [] ≡ inr handlers
      → Resulting c ls cfg prev (snapshot_of r o c specs tables pools managed handlers cfg prev)
  snapshot_of-Steps c ls cfg prev specs tables pools managed handlers b s h = (
    record {
      kept = refl;
      bound = b;
      tables = tables;
      pools = pools;
      served = s;
      handled = h;
      noted = refl;
      pooled = refl;
    },
    refl,
    refl,
  )

  compile_listeners-Steps :
      (c : Parts r o) (ls : List Listener) (cfg : Config) (prev : Option (Compilation r))
      (snap : Compilation r)
      → compile_listeners r o c ls cfg prev ≡ inr snap
      → Resulting c ls cfg prev snap
  unfolding compile_listeners
  compile_listeners-Steps c ls cfg prev snap e =
      let (specs, (b, e1)) = bind-inr _ _ snap e in
      let ((tables, pools), (s, e2)) = bind-inr _ _ snap e1 in
      let (_, (_, e3)) = bind-inr _ _ snap e2 in
      let (handlers, (h, e4)) = bind-inr _ _ snap e3 in
      subst (Resulting c ls cfg prev) (inr_injective _ _ snap refl e4) (
        snapshot_of-Steps c ls cfg prev specs tables pools _ handlers (or_failure-inr _ _ specs b)
          (or_failure-inr _ _ (tables, pools) s) h)

  -- The steps before the listeners that take over state from the previous snapshot.
  pub record Taken (cfg : Config) (prev : Option (Compilation r)) (c : Parts r o) : Type 0 where
    pub compiled :
        compile_policies r o.same
          (policies_before r o prev)
          (number r o (λ p. p.next_policy) prev)
          cfg.policies
        ≡ inr c.policies
    pub managed :
        acme_manager_for o.files o.data_dir
          (number r o (λ p. p.next_manager) prev)
          cfg.tls.acme
          (acme_before r o prev)
        ≡ inr c.manager

  compile_parts-Taken :
      (now : ℕ) (cfg : Config) (prev : Option (Compilation r)) (c : Parts r o)
      → compile_parts r o now cfg prev ≡ inr c
      → Taken cfg prev c
  unfolding compile_parts
  compile_parts-Taken now cfg prev c e =
      let (_, (_, e1)) = bind-inr _ _ c e in
      let (server, (_, e2)) = bind-inr _ _ c e1 in
      let (min_tls, (_, e3)) = bind-inr _ _ c e2 in
      let (certs, (_, e4)) = bind-inr _ _ c e3 in
      let (policies, (p, e5)) = bind-inr _ _ c e4 in
      let (manager, (m, e6)) = bind-inr _ _ c e5 in
      subst (Taken cfg prev) (inr_injective _ _ c refl e6) (record {
        compiled = or_failure-inr _ _ policies p;
        managed = or_failure-inr _ _ manager m;
      })

  -- The listeners that a configuration is compiled for.
  pub effective : Config → Compilation r → List Listener
  effective cfg snap = or_defaults (not (store_empty snap.certs) || is_some snap.acme) cfg.listeners

  pub compile_lem :
      (now : ℕ) (cfg : Config) (prev : Option (Compilation r)) (snap : Compilation r)
      → compile r o now cfg prev ≡ inr snap
      → (ls : List Listener) × (c : Parts r o) × Resulting c ls cfg prev snap × Taken cfg prev c
  unfolding compile
  compile_lem now cfg prev snap e =
      let (c, (parts, e1)) = bind-inr _ _ snap e in
      (_, c, compile_listeners-Steps c _ cfg prev snap e1, compile_parts-Taken now cfg prev c parts)
