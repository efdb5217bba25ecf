-- ===== src/Serve.antt =====
-- serve.go and rateLimitKey of policy.go: the entry point of every request on a listener. The handler
-- of a listener is a function on what a request changes, and may panic; the observers change a
-- state of their own, and may panic too. Times and the fresh request id are given. The text of an
-- error response and the log are left out.
pub mod Recorded
pub mod Tests
use yabber.Base.{
  ℕ, ◌+◌, ◌-◌, Bool, true, false, not, ◌&&◌, ◌||◌, if◌then◌else◌, Option, none, some, List, [], ◌∷◌,
  ◌++◌, Bytes, str, bytes_eq, ◌==◌, eqb, Dict, lookup, insert, ℤ, pos, is_some,
}
use yabber.Hosts.{request_host}
use yabber.ClientIp.{Netip, Sender, resolve}
use yabber.Policies.{RequestState}
use yabber.Observability.{
  RequestRecord, Metrics, ResponseTracker, observe, write_header, write, request_id_or,
}
use yabber.Acme.{Manager, ChallengeRequest, serve_challenge}

pub data Panic : Type 0 where
  -- http.ErrAbortHandler
  abort_handler : Panic
  panicked : Bytes → Panic

abbrev pub Headers : Type 0
Headers = Dict Bytes Bytes

pub record Incoming : Type 0 where
  pub sender : Sender
  pub over_tls : Bool
  pub method : Bytes
  pub host : Bytes
  pub path : Bytes
  pub headers : Headers
  pub time : ℕ

-- What the serving of a request changes: its metadata and its response.
pub record Exchange : Type 0 where
  pub state : RequestState
  pub tracker : ResponseTracker
  pub headers : Headers

abbrev pub Serving : Type 0
Serving = Incoming → Exchange → Exchange × Option Panic

-- The state of the observers, and one observer with whether it panicked.
pub record Service (W : Type 0) : Type 0 where
  pub active : ℕ
  pub metrics : Metrics
  pub observed : W

abbrev pub Observer : Type 0 → Type 0
Observer W = RequestRecord → W → W × Bool

abbrev pub x_request_id : Bytes
x_request_id = str "X-Request-ID"

pub record Addresses (n : Netip) : Type 0 where
  pub text : n.Addr → Bytes
  pub is_6 : n.Addr → Bool
  -- The text of the /64 prefix.
  pub block : n.Addr → Bytes

-- What the client gets, and whether the connection is aborted.
pub record Answer : Type 0 where
  pub tracker : ResponseTracker
  pub headers : Headers
  pub aborted : Bool

abbrev pub unsent : ResponseTracker
unsent = record { status = 0; bytes = 0 }

module _ {W : Type 0} where
  -- Every observer sees the record; one that panics is recovered.
  unfoldable pub notify : List (Observer W) → RequestRecord → W → W
  notify [] record' w = w
  notify (o ∷ os) record' w = let (w', bad) = o record' w in notify os record' w'

  unfoldable pub record_request : List (Observer W) → RequestRecord → Service W → Service W
  unfolding observe notify
  record_request observers r s = record s {
    metrics = observe r s.metrics;
    observed = notify observers r s.observed;
  }

abbrev pub is_abort : Option Panic → Bool
is_abort none = false
is_abort (some abort_handler) = true
is_abort (some (panicked text)) = false

-- The answer 500 of a panic before a status was sent.
unfoldable pub recover_tracker : Option Panic → ResponseTracker → ResponseTracker
unfolding write_header
recover_tracker panic w =
    if is_some panic && not (is_abort panic) && eqb w.status 0 then (write_header 500 w).0 else w

unfoldable pub incomplete : Option Panic → ResponseTracker → Bool
incomplete panic w = is_abort panic || (is_some panic && not (eqb w.status 0))

module _ (n : Netip) (a : Addresses n) where
  unfoldable pub rate_limit_key : Option n.Addr → Bytes
  rate_limit_key none = str "unknown"
  rate_limit_key (some address) = if a.is_6 address then a.block address else a.text address

  abbrev text_of : Option n.Addr → Bytes
  text_of none = []
  text_of (some address) = a.text address

  unfoldable pub record_of : Incoming → Option n.Addr → Exchange → ℕ → Option Panic → RequestRecord
  record_of r client x duration panic = record {
    time = r.time;
    request_id = x.state.id;
    client_ip = text_of client;
    method = r.method;
    host = r.host;
    path = r.path;
    listener = x.state.listener;
    site = x.state.site;
    route = x.state.route;
    rejected_by = x.state.rejected_by;
    status = if eqb x.tracker.status 0 then 200 else x.tracker.status;
    bytes = pos x.tracker.bytes;
    duration = duration;
    panicked = is_some panic;
  }

  -- The metadata and the response of a request on a listener, before it is handled.
  unfoldable pub accept : Bytes → List n.Prefix → Bytes → Incoming → Exchange
  unfolding resolve request_id_or rate_limit_key
  accept name trusted fresh r =
      let (client, is_trusted) = resolve n trusted r.sender in
      let id = request_id_or fresh (lookup x_request_id r.headers) is_trusted in
      record {
        state = record {
          id = id;
          listener = name;
          site = [];
          route = [];
          client_key = rate_limit_key client;
          trusted_peer = is_trusted;
          rejected_by = [];
          applied = [];
        };
        tracker = unsent;
        headers = (x_request_id, id) ∷ [];
      }

  abbrev challenge_of : Incoming → ChallengeRequest
  challenge_of r = record {
    over_tls = r.over_tls;
    method = r.method;
    path = r.path;
    host = request_host r.host;
  }

  -- serveACMEChallenge, or else the handler of the listener.
  unfoldable pub handle_request :
      Option Manager
      → (Bytes → Bytes → Option Bytes)
      → Serving
      → Incoming
      → Exchange
      → Exchange × Option Panic
  unfolding serve_challenge request_host write insert
  handle_request manager store h r x = elim (serve_challenge manager store (challenge_of r)) [
    | none ↦ h r x
    | some body ↦ (
      record x {
        state = record x.state { route = str "acme-http-01" };
        tracker = if r.method == str "HEAD" then x.tracker else write (size body) x.tracker;
        headers =
            insert (str "Cache-Control") (str "no-store")
              (insert (str "Content-Type") (str "text/plain") x.headers);
      },
      none,
    )
  ]
    where
      size : Bytes → ℕ
      size [] = 0
      size (_ ∷ s) = size s + 1

  module _ {W : Type 0} (observers : List (Observer W)) where
    -- The deferred function: the panic is recovered, the request is recorded.
    unfoldable pub finish :
        Incoming → Option n.Addr → ℕ → Exchange × Option Panic → Service W → Service W × Answer
    unfolding recover_tracker incomplete record_of record_request
    finish r client duration (x, panic) s =
        let x' = record x { tracker = recover_tracker panic x.tracker } in
        (
          record_request observers (record_of r client x' duration panic)
              (record s { active = s.active - 1 }),
          record {
            tracker = x'.tracker;
            headers = x'.headers;
            aborted = incomplete panic x.tracker;
          },
        )

    -- `listeners` are those of the active snapshot, with their trusted proxies.
    unfoldable pub serve_http :
        Dict Bytes (List n.Prefix × Serving)
        → Option Manager
        → (Bytes → Bytes → Option Bytes)
        → Bytes
        → Bytes
        → ℕ
        → Incoming
        → Service W
        → Service W × Answer
    unfolding resolve accept handle_request finish write_header
    serve_http listeners manager store name fresh duration r s = elim (lookup name listeners) [
      | none ↦ (
        s,
        record {
          tracker = (write_header 503 unsent).0;
          headers = (str "Connection", str "close") ∷ [];
          aborted = false;
        },
      )
      | some (trusted, h) ↦
          let x = accept name trusted fresh r in
          let r' = record r { headers = insert x_request_id x.state.id r.headers } in
          finish r' (resolve n trusted r.sender).0 duration (handle_request manager store h r' x)
            (record s { active = s.active + 1 })
    ]
