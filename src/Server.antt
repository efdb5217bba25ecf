-- ===== src/Server.antt =====
-- server.go and the listenerSpec of compile.go: the life of a server, its listeners and its
-- background tasks, from one configuration to the next. The network is a parameter: a world, and
-- what listening, closing and shutting down do to it. `compile` stands for the compiler of
-- configurations, and a snapshot keeps of its result what this file reads. A loop over a Go map goes
-- over the keys of the map. The mutex of the server makes each of these functions one step, and the
-- messages of the log are left out.
pub mod Lifecycle
pub mod Specs
pub mod Restoring
pub mod Binding
pub mod Sockets
pub mod Replacing
pub mod Apply
pub mod Start
pub mod Reachable
pub mod Tests
use yabber.Base.{
  ℕ, Bool, true, false, not, ◌&&◌, if◌then◌else◌, Option, none, some, List, [], ◌∷◌, ◌++◌, map, ◌⊎◌,
  inl, inr, Bytes, ◌==◌, bytes_eq, nat_eq, int_eq, pair_eq, Eq, Dict, lookup, insert, delete, ◌↔◌,
  ◌≡◌, refl, ap, ◌∙◌, ==_iff, ℤ, list_test_iff, bool_eq, is_some,
}
use yabber.Config.{Config, ServerConfig}
use yabber.Proxy.{TransportKey, key_eq}

-- Everything that requires rebinding a listener when it changes.
pub record ListenerSpec : Type 0 where
  pub address : Bytes
  pub tls : Bool
  pub min_tls : ℕ
  pub server : ServerConfig

abbrev Code : Type 0
Code = Bytes × (Bool × (ℕ × (ℤ × (ℤ × (ℤ × (ℤ × (ℤ × ℤ)))))))

abbrev code_of : ListenerSpec → Code
code_of s = (
  s.address,
  (
    s.tls,
    (
      s.min_tls,
      (
        s.server.read_header_timeout,
        (
          s.server.read_timeout,
          (
            s.server.write_timeout,
            (s.server.idle_timeout, (s.server.shutdown_timeout, s.server.max_header_bytes)),
          ),
        ),
      ),
    ),
  ),
)

abbrev spec_with : Code → ListenerSpec
spec_with (address, rest) = record {
  address = address;
  tls = rest.0;
  min_tls = rest.1.0;
  server = record {
    read_header_timeout = rest.1.1.0;
    read_timeout = rest.1.1.1.0;
    write_timeout = rest.1.1.1.1.0;
    idle_timeout = rest.1.1.1.1.1.0;
    shutdown_timeout = rest.1.1.1.1.1.1.0;
    max_header_bytes = rest.1.1.1.1.1.1.1;
  };
}

pub spec_iff : (s t : ListenerSpec) → ((code_of s == code_of t) ≡ true) ↔ (s ≡ t)
spec_iff s t = (
  λ h. ap spec_with ((==_iff (code_of s) (code_of t)).0 h),
  λ e. (==_iff (code_of s) (code_of t)).1 (ap code_of e),
)

-- The == of Go on two specs: it compares all fields.
instance abbrev pub spec_eq : Eq ListenerSpec
spec_eq = record { test = λ s t. code_of s == code_of t; test_iff = spec_iff }

pub record Snapshot : Type 0 where
  pub config : Config
  -- config.server with the defaults applied.
  pub server : ServerConfig
  pub listeners : Dict Bytes ListenerSpec
  -- The number of the ACME manager, and the hosts it manages.
  pub acme : Option ℕ
  pub managed_hosts : List Bytes
  -- The numbers of the upstream connection pools.
  pub transports : Dict TransportKey ℕ

-- The listeners to bind: none while the configuration turns the gateway off.
unfoldable pub bound : Snapshot → Dict Bytes ListenerSpec
bound snap = if snap.config.disabled then [] else snap.listeners

abbrev pub keys {ℓ κ} : {K : Type ℓ} {V : Type κ} → Dict K V → List K
keys [] = []
keys ((k, v) ∷ m) = k ∷ keys m

-- The package net and the http.Server that serves a socket.
pub record Network : Type 1 where
  pub World : Type 0
  pub Socket : Type 0
  -- net.Listen: the socket, or the text of the error.
  pub listen : Bytes → World → World × (Bytes ⊎ Socket)
  pub address : Socket → Bytes
  -- Closing the socket, which leaves open connections alone.
  pub close : Socket → World → World
  -- http.Server.Close, and Shutdown with the error it can end in.
  pub close_server : Socket → World → World
  pub shutdown_server : Socket → World → World × Option Bytes

pub record ListenerStatus : Type 0 where
  pub name : Bytes
  pub address : Bytes
  pub tls : Bool
  pub running : Bool
  pub error : Bytes

pub record Status : Type 0 where
  pub running : Bool
  pub enabled : Bool
  pub listeners : List ListenerStatus

-- The error of a modification, with the HTTP status that it may carry out of an update.
pub record UpdateError : Type 0 where
  pub status : Option ℕ
  pub text : Bytes

pub data Failure : Type 0 where
  not_compiled : Bytes → Failure
  already_running : Failure
  -- The listener and its error, and the errors of restoring others.
  listener_error : Bytes → Bytes → List (Bytes × Bytes) → Failure
  not_modified : UpdateError → Failure

module _ (n : Network) (compile : Config → Option Snapshot → Bytes ⊎ Snapshot) where
  pub record RunningListener : Type 0 where
    pub spec : ListenerSpec
    pub socket : n.Socket
    pub closing : Bool
    pub failure : Option Bytes

  pub record Server : Type 0 where
    pub current : Snapshot
    pub running : Dict Bytes RunningListener
    pub started : Bool
    -- Replaced listeners that finish their requests.
    pub draining : List RunningListener
    -- The manager whose loop runs.
    pub issuer_of : Option ℕ
    pub refresher : Bool
    -- The hosts that the managers were given last, and whether by a reload.
    pub assigned : Dict ℕ (List Bytes × Bool)
    -- The connection pools whose idle connections were closed.
    pub idle_closed : List ℕ
    pub world : n.World

  pub data Bound : Type 0 where
    bound_all : n.World → Dict Bytes RunningListener → Bound
    not_bound : n.World → Dict Bytes RunningListener → Bytes → Bytes → Bound

  abbrev listener_on : ListenerSpec → n.Socket → RunningListener
  listener_on spec socket = record { spec = spec; socket = socket; closing = false; failure = none }

  unfoldable pub listen : ListenerSpec → n.World → n.World × (Bytes ⊎ RunningListener)
  listen spec w =
      let (w', result) = n.listen spec.address w in
      elim result [ inl err ↦ (w', inl err) | inr socket ↦ (w', inr (listener_on spec socket)) ]

  -- The goroutine of a listener ends with an error.
  pub listener_failed : Bytes → RunningListener → RunningListener
  listener_failed err r = if r.closing then r else record r { failure = some err }

  -- The listener runs already, with the spec that is wanted.
  unfoldable pub unchanged : Snapshot → Dict Bytes RunningListener → Bytes → Bool
  unchanged next running name = elim (lookup name running) [
    | none ↦ false
    | some r ↦ elim (lookup name (bound next)) [ none ↦ false | some spec ↦ spec == r.spec ]
  ]

  unfoldable pub stale_names : Snapshot → Dict Bytes RunningListener → List Bytes → List Bytes
  stale_names next running [] = []
  stale_names next running (name ∷ names) =
      let rest = stale_names next running names in
      if unchanged next running name then rest else name ∷ rest

  -- Closes the sockets; open connections keep being served.
  unfoldable pub stop_accepting :
      List Bytes → Dict Bytes RunningListener → n.World → Dict Bytes RunningListener × n.World
  stop_accepting [] running w = (running, w)
  stop_accepting (name ∷ names) running w = elim (lookup name running) [
    | none ↦ stop_accepting names running w
    | some r ↦
        stop_accepting names (insert name (record r { closing = true }) running)
          (n.close r.socket w)
  ]

  -- Closes the listeners that an attempt has bound before it failed.
  pub abandon : Dict Bytes RunningListener → n.World → n.World
  abandon [] w = w
  abandon ((_, r) ∷ started) w = abandon started (n.close_server r.socket (n.close r.socket w))

  -- Binds the listeners that do not run unchanged; those bound so far are `started`.
  unfoldable pub bind_all :
      Snapshot
      → Dict Bytes RunningListener
      → List Bytes
      → Dict Bytes RunningListener
      → n.World
      → Bound
  bind_all next running [] started w = bound_all w started
  bind_all next running (name ∷ names) started w = elim (lookup name (bound next)) [
    | none ↦ bind_all next running names started w
    | some spec ↦
        if unchanged next running name
        then bind_all next running names started w
        else let (w', result) = listen spec w in
          elim result [
            | inl err ↦ not_bound w' started name err
            | inr r ↦ bind_all next running names (insert name r started) w'
          ]
  ]

  abbrev set_hosts : Snapshot → Bool → Dict ℕ (List Bytes × Bool) → Dict ℕ (List Bytes × Bool)
  set_hosts next reload assigned = elim (next.acme) [
    | none ↦ assigned
    | some manager ↦ insert manager (next.managed_hosts, reload) assigned
  ]

  -- The background loop of the manager of the active snapshot runs while the server is started.
  unfoldable pub sync_issuer : Server → Server
  sync_issuer s = record s { issuer_of = if s.started then s.current.acme else none }

  unfoldable pub unused_transports : Dict TransportKey ℕ → Dict TransportKey ℕ → List ℕ
  unused_transports [] next = []
  unused_transports ((key, transport) ∷ previous) next =
      let rest = unused_transports previous next in
      elim (lookup key next) [
        | none ↦ transport ∷ rest
        | some t ↦ if t == transport then rest else transport ∷ rest
      ]

  abbrev pools_of : Option Snapshot → Dict TransportKey ℕ
  pools_of none = []
  pools_of (some previous) = previous.transports

  unfoldable pub commit : Option Snapshot → Snapshot → Bool → Server → Server
  unfolding sync_issuer
  commit previous next reload s =
      let s' =
        sync_issuer (record s { assigned = set_hosts next reload s.assigned; current = next }) in
      record s' {
        idle_closed = unused_transports (pools_of previous) next.transports ++ s'.idle_closed;
      }

  -- Starts draining the replaced listeners and forgets them.
  unfoldable pub drain_stale : List Bytes → Server → Server
  drain_stale [] s = s
  drain_stale (name ∷ names) s = elim (lookup name s.running) [
    | none ↦ drain_stale names s
    | some r ↦ drain_stale names (record s {
      draining = record r { closing = true } ∷ s.draining;
      running = delete name s.running;
    })
  ]

  unfoldable pub add_started :
      Dict Bytes RunningListener → Dict Bytes RunningListener → Dict Bytes RunningListener
  add_started [] running = running
  add_started ((name, r) ∷ started) running = insert name r (add_started started running)

  -- Restores listeners that apply stopped before failing.
  unfoldable pub rebind : List Bytes → Server → Server × List (Bytes × Bytes)
  rebind [] s = (s, [])
  rebind (name ∷ names) s = elim (lookup name s.running) [
    | none ↦ rebind names s
    | some old ↦
        let draining = record old { closing = true } ∷ s.draining in
        let (w, result) = listen old.spec s.world in
        elim result [
          | inl err ↦
              let (s', errs) =
                rebind names
                  (record s { running = delete name s.running; draining = draining; world = w }) in
              (s', (name, err) ∷ errs)
          | inr r ↦
              rebind names
                (record s { running = insert name r s.running; draining = draining; world = w })
        ]
  ]
