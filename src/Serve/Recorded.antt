-- ===== src/Serve/Recorded.antt =====
-- Every request that a listener accepts is recorded once, also when its handler panics.
use yabber.Base.{
  ℕ, ◌+◌, ◌≡◌, refl, Bool, true, false, if◌then◌else◌, Option, none, some, List, [], ◌∷◌, Bytes,
  bytes_eq, pair_eq, ◌==◌, eqb, Dict, lookup, insert, arith, Bool-cases, inl, inr, is_some,
}
use yabber.ClientIp.{Netip, resolve}
use yabber.Observability.{
  RequestRecord, RouteMetrics, Metrics, MetricKey, ResponseTracker, observe, count_record,
  metrics_of, key_of, total, add_metrics, write_header,
}
use yabber.Acme.{Manager}
use yabber.Serve.{
  Panic, abort_handler, panicked, Incoming, Exchange, Serving, Service, Observer, Addresses, Answer,
  x_request_id, notify, record_request, recover_tracker, incomplete, record_of, accept,
  handle_request, finish, serve_http,
}

-- One request more in a route is one more in total.
total-insert :
    (key : MetricKey) (v : RouteMetrics) (m : Metrics)
    → v.requests ≡ (metrics_of (lookup key m)).requests + 1
    → (total (insert key v m)).requests ≡ (total m).requests + 1
unfolding total add_metrics insert lookup
total-insert key v [] h = omega (arith, h)
total-insert key v ((own, old) ∷ m) h = elim (Bool-cases (own == key)) [
  | inl e ↦ rw e (omega (arith, rw e at h))
  | inr e ↦ rw e (omega (arith, total-insert key v m (rw e at h)))
]

total-observe :
    (r : RequestRecord) (m : Metrics) → (total (observe r m)).requests ≡ (total m).requests + 1
unfolding observe count_record
total-observe r m =
    total-insert (key_of r) (count_record r (metrics_of (lookup (key_of r) m))) m refl

-- How a response ends for the client, after a panic of the handler or none: it is complete without a
-- panic, and with one it is the error 500 or the connection is aborted.
pub data Ends (panic : Option Panic) (tracker : ResponseTracker) (aborted : Bool) : Type 0 where
  completes : panic ≡ none → aborted ≡ false → Ends panic tracker aborted
  fails_500 :
      is_some panic ≡ true → tracker.status ≡ 500 → aborted ≡ false → Ends panic tracker aborted
  aborts : is_some panic ≡ true → aborted ≡ true → Ends panic tracker aborted

ends_lem :
    (panic : Option Panic) (w : ResponseTracker)
    → Ends panic (recover_tracker panic w) (incomplete panic w)
unfolding recover_tracker incomplete write_header
ends_lem none w = completes refl refl
ends_lem (some abort_handler) w = aborts refl refl
ends_lem (some (panicked text)) w = elim (Bool-cases (eqb w.status 0)) [
  | inl e ↦ fails_500 refl (rw (e, recover_tracker) refl) (rw (e, incomplete) refl)
  | inr e ↦ aborts refl (rw (e, incomplete) refl)
]

module _ {W : Type 0} (n : Netip) (a : Addresses n) (observers : List (Observer W)) where
  -- A request is counted once and shown to every observer once, as one record, and is not active
  -- afterwards; the response ends as its panic demands.
  pub record Recorded (panic : Option Panic) (s : Service W) (result : Service W × Answer)
      : Type 0 where
    pub entry : RequestRecord
    pub observed : result.0.observed ≡ notify observers entry s.observed
    pub measured : result.0.metrics ≡ observe entry s.metrics
    pub counted : (total result.0.metrics).requests ≡ (total s.metrics).requests + 1
    pub balanced : result.0.active ≡ s.active
    pub marked : entry.panicked ≡ is_some panic
    pub status :
        entry.status ≡ (if eqb result.1.tracker.status 0 then 200 else result.1.tracker.status)
    pub ends : Ends panic result.1.tracker result.1.aborted

  finish-Recorded :
      (r : Incoming) (client : Option n.Addr) (duration : ℕ) (x : Exchange) (panic : Option Panic)
      (s : Service W)
      → Recorded panic s
          (finish n a observers r client duration (x, panic) (record s { active = s.active + 1 }))
  unfolding finish record_request record_of
  finish-Recorded r client duration x panic s = record {
    entry = _;
    observed = refl;
    measured = refl;
    counted = total-observe _ s.metrics;
    balanced = omega arith;
    marked = refl;
    status = refl;
    ends = ends_lem panic x.tracker;
  }

  -- What the handler does to a request that is accepted.
  abbrev pub handled :
      Option Manager
      → (Bytes → Bytes → Option Bytes)
      → Bytes
      → Bytes
      → Incoming
      → List n.Prefix
      → Serving
      → Exchange × Option Panic
  handled manager store name fresh r trusted h =
      let x = accept n a name trusted fresh r in
      handle_request n a manager store h
        (record r { headers = insert x_request_id x.state.id r.headers }) x

  -- Whatever the handler of a listener does to a request, a panic included: the request is counted
  -- once and shown to every observer once, as one record that tells whether the handler
  -- panicked and with which status, and the number of active requests is what it was. The response
  -- completes without a panic; with one, the client gets the status 500 or the connection is aborted.
  pub serve_http-Recorded :
      (listeners : Dict Bytes (List n.Prefix × Serving)) (manager : Option Manager)
      (store : Bytes → Bytes → Option Bytes) (name fresh : Bytes) (duration : ℕ) (r : Incoming)
      (s : Service W) (trusted : List n.Prefix) (h : Serving)
      → lookup name listeners ≡ some (trusted, h)
      → Recorded
          (handled manager store name fresh r trusted h).1
          s
          (serve_http n a observers listeners manager store name fresh duration r s)
  unfolding serve_http
  serve_http-Recorded listeners manager store name fresh duration r s trusted h e =
      let x = accept n a name trusted fresh r in
      let r' : Incoming = record r { headers = insert x_request_id x.state.id r.headers } in
      let out = handle_request n a manager store h r' x in
      rw (e, serve_http) (finish-Recorded r' (resolve n trusted r.sender).0 duration out.0 out.1 s)
