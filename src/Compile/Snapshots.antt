-- ===== src/Compile/Snapshots.antt =====
-- compile.go: the compilation of a whole configuration into a snapshot. What must outlive a reload is
-- taken from the previous snapshot: the policies, the upstream pools and the ACME manager, which are
-- known by numbers.
pub mod Contents
pub mod Reload
pub mod Tests
use yabber.Base.{
  ℕ, ◌+◌, Bool, true, false, not, ◌&&◌, ◌||◌, if◌then◌else◌, Option, none, some, List, [], ◌∷◌,
  Bytes, str, bytes_eq, ◌==◌, ◌⊎◌, inl, inr, ◌>>=◌, Dict, lookup, insert, is_some, any, length, ℤ,
  pos, eqb_ℤ,
}
use yabber.Config.{Config, Policy, Listener, AcmeConfig, ServerConfig, config_version}
use yabber.Tls.{
  CertificateReader, CertificateStore, Loaded, LoadError, tls_version, load_certificates,
  store_empty, managed_hosts,
}
use yabber.Tls
use yabber.ClientIp.{Netip, new_resolver, Compiled}
use yabber.ClientIp
use yabber.RateLimit.{Rates}
use yabber.Policies.{Handler, CompiledPolicy, apply_policies}
use yabber.Policies.Compile.{CompileError, compile_policies}
use yabber.Proxy.{TransportKey}
use yabber.Handlers.{Web, Pools}
use yabber.Acme.Managers.{AcmeFiles, ManagerError, ManagerFor, acme_manager_for}
use yabber.Server.{ListenerSpec}
use yabber.Compile.{ListenersError, with_defaults, default_listeners, listeners}
use yabber.Compile.Sites.{SiteError}
use yabber.Compile.Tables.{Tables, compile_sites, dispatch, table_of}

pub data Failure : Type 0 where
  unsupported_version : ℤ → Failure
  bad_listeners : ListenersError → Failure
  invalid_tls_version : Bytes → Failure
  bad_certificates : LoadError → Failure
  bad_policies : CompileError → Failure
  bad_acme : ManagerError → Failure
  bad_site : SiteError → Failure
  no_plain_listener : Failure
  unknown_policy : Bytes → Bytes → Failure

-- What a server gives to the compiler.
pub record Options (r : Rates) : Type 1 where
  pub web : Web r
  pub netip : Netip
  pub reader : CertificateReader
  pub files : AcmeFiles
  pub data_dir : Bytes
  -- reflect.DeepEqual on policies.
  pub same : Policy → Policy → Bool
  pub middleware : List (Handler r → Handler r)

pub record Compilation (r : Rates) : Type 0 where
  pub config : Config
  pub server : ServerConfig
  pub listeners : Dict Bytes ListenerSpec
  pub handlers : Dict Bytes (Handler r)
  pub certs : CertificateStore
  pub min_tls : ℕ
  pub policies : Dict Bytes (CompiledPolicy r)
  pub transports : Dict TransportKey ℕ
  pub tls_hosts : List Bytes
  pub acme : Option ManagerFor
  pub managed_hosts : List Bytes
  -- The first numbers not in use: of a policy, of a pool and of a manager.
  pub next_policy : ℕ
  pub next_pool : ℕ
  pub next_manager : ℕ

abbrev pub or_failure {ℓ κ} : {E : Type ℓ} {A : Type κ} → (E → Failure) → E ⊎ A → Failure ⊎ A
or_failure wrap (inl e) = inl (wrap e)
or_failure wrap (inr a) = inr a

abbrev loaded {ℓ} : {A : Type ℓ} → Loaded A → Failure ⊎ A
loaded (Tls.err e) = inl (bad_certificates e)
loaded (Tls.ok a) = inr a

abbrev version_of : Bytes → Option ℕ → Failure ⊎ ℕ
version_of value none = inl (invalid_tls_version value)
version_of value (some version) = inr version

abbrev pub Fine : Type 0
Fine = Unit

unless : Failure → Bool → Failure ⊎ Fine
unless e bad = if bad then inl e else inr tt

all_tls : List Listener → Bool
all_tls [] = true
all_tls (l ∷ ls) = l.tls && all_tls ls

has_items : List Bytes → Bool
has_items [] = false
has_items (_ ∷ _) = true

abbrev pub or_defaults : Bool → List Listener → List Listener
or_defaults with_tls [] = default_listeners with_tls
or_defaults with_tls (l ∷ ls) = l ∷ ls

module _ (r : Rates) (o : Options r) where
  pub is_ip : Bytes → Bool
  is_ip host = is_some (o.netip.parse_addr host)

  pub proxies_ok : List Bytes → Bool
  unfolding new_resolver
  proxies_ok values = by_result (new_resolver o.netip values)
    where
      by_result : Compiled (List o.netip.Prefix) → Bool
      by_result (ClientIp.ok trusted) = true
      by_result (ClientIp.err e) = false

  -- Chain: the first middleware of the list is the outermost.
  unfoldable pub chained : List (Handler r → Handler r) → Handler r → Handler r
  chained [] h = h
  chained (m ∷ ms) h = m (chained ms h)

  abbrev pub policies_before : Option (Compilation r) → Dict Bytes (CompiledPolicy r)
  policies_before none = []
  policies_before (some prev) = prev.policies

  abbrev pub acme_before : Option (Compilation r) → Option ManagerFor
  acme_before none = none
  acme_before (some prev) = prev.acme

  abbrev pub transports_before : Option (Compilation r) → Dict TransportKey ℕ
  transports_before none = []
  transports_before (some prev) = prev.transports

  abbrev pub number : (Compilation r → ℕ) → Option (Compilation r) → ℕ
  number field none = 0
  number field (some prev) = field prev

  module _ (policies : Dict Bytes (CompiledPolicy r)) (t : Tables r o.web) where
    -- The handlers of the listeners: the dispatchers, inside the policies and the middleware.
    unfoldable pub listener_handlers :
        List Listener → Dict Bytes (Handler r) → Failure ⊎ Dict Bytes (Handler r)
    unfolding apply_policies chained dispatch
    listener_handlers [] handlers = inr handlers
    listener_handlers (l ∷ ls) handlers =
        elim (apply_policies r (dispatch r o.web (table_of l.name t.tables)) l.policies policies) [
          | inr unknown ↦ inl (unknown_policy l.name unknown)
          | inl h ↦ listener_handlers ls (insert l.name (chained o.middleware h) handlers)
        ]

  -- What is compiled before the listeners and the sites.
  pub record Parts : Type 0 where
    pub server : ServerConfig
    pub min_tls : ℕ
    pub certs : CertificateStore
    pub policies : Dict Bytes (CompiledPolicy r)
    pub manager : Option ManagerFor

  -- `now` is the time of the compilation.
  unfoldable pub compile_parts : ℕ → Config → Option (Compilation r) → Failure ⊎ Parts
  unfolding with_defaults tls_version load_certificates compile_policies acme_manager_for unless
  compile_parts now cfg prev = do
    _ ←
        unless (unsupported_version cfg.version)
          (not (eqb_ℤ cfg.version (pos 0)) && not (eqb_ℤ cfg.version config_version))
    server ← or_failure bad_listeners (with_defaults cfg.server)
    min_tls ← version_of cfg.tls.min_version (tls_version cfg.tls.min_version)
    certs ← loaded (load_certificates o.reader now cfg.tls.certificates)
    policies ← or_failure bad_policies (
        compile_policies r o.same (policies_before prev) (number (λ p. p.next_policy) prev)
          cfg.policies)
    manager ← or_failure bad_acme (
        acme_manager_for o.files o.data_dir (number (λ p. p.next_manager) prev) cfg.tls.acme
          (acme_before prev))
    inr (record {
      server = server;
      min_tls = min_tls;
      certs = certs;
      policies = policies;
      manager = manager;
    })

  abbrev pub no_tables : Tables r o.web
  no_tables = record { tables = []; tls_hosts = [] }

  abbrev pub pools_before : Option (Compilation r) → Pools
  pools_before prev = record {
    used = [];
    previous = transports_before prev;
    next = number (λ p. p.next_pool) prev;
  }

  abbrev pub snapshot_of :
      Parts
      → Dict Bytes ListenerSpec
      → Tables r o.web
      → Pools
      → List Bytes
      → Dict Bytes (Handler r)
      → Config
      → Option (Compilation r)
      → Compilation r
  snapshot_of c specs tables pools managed handlers cfg prev = record {
    config = cfg;
    server = c.server;
    listeners = specs;
    handlers = handlers;
    certs = c.certs;
    min_tls = c.min_tls;
    policies = c.policies;
    transports = pools.used;
    tls_hosts = tables.tls_hosts;
    acme = c.manager;
    managed_hosts = managed;
    next_policy = number (λ p. p.next_policy) prev + length cfg.policies;
    next_pool = pools.next;
    next_manager = number (λ p. p.next_manager) prev + 1;
  }

  unfoldable pub compile_listeners :
      Parts → List Listener → Config → Option (Compilation r) → Failure ⊎ Compilation r
  unfolding listeners compile_sites managed_hosts listener_handlers unless all_tls has_items is_ip
      proxies_ok
  compile_listeners c ls cfg prev = do
    specs ← or_failure bad_listeners (listeners proxies_ok c.server c.min_tls ls)
    served ← or_failure bad_site (
        compile_sites r o.web is_ip c.certs (is_some c.manager) specs c.policies ls cfg.sites []
          (no_tables, pools_before prev))
    let managed = managed_hosts is_ip served.0.tls_hosts c.certs (is_some c.manager)
    _ ← unless no_plain_listener (has_items managed && all_tls ls)
    handlers ← listener_handlers c.policies served.0 ls []
    inr (snapshot_of c specs served.0 served.1 managed handlers cfg prev)

  unfoldable pub compile : ℕ → Config → Option (Compilation r) → Failure ⊎ Compilation r
  unfolding compile_parts compile_listeners default_listeners store_empty
  compile now cfg prev = do
    c ← compile_parts now cfg prev
    compile_listeners c (or_defaults (not (store_empty c.certs) || is_some c.manager) cfg.listeners)
        cfg prev
