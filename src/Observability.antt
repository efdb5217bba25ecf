-- ===== src/Observability.antt =====
-- observability.go: request records, metrics, the response tracker and request ids. Times are left
-- to the caller: a duration is nanoseconds. The counters are natural numbers, the uint64 of the
-- source without its wrap-around.
pub mod Counting
pub mod Tests
use yabber.Base.{
  ℕ, suc, ◌+◌, ◌/◌, Bool, true, false, ◌||◌, ◌&&◌, not, if◌then◌else◌, Option, none, some, List, [],
  ◌∷◌, Bytes, bytes_eq, pair_eq, ◌==◌, Dict, lookup, insert, ltb, leb, eqb, length, ℤ, pos, negsuc,
}

pub record RequestRecord : Type 0 where
  pub time : ℕ
  pub request_id : Bytes
  pub client_ip : Bytes
  pub method : Bytes
  pub host : Bytes
  pub path : Bytes
  pub listener : Bytes
  pub site : Bytes
  pub route : Bytes
  pub rejected_by : Bytes
  pub status : ℕ
  pub bytes : ℤ
  pub duration : ℕ
  pub panicked : Bool

pub record StatusClasses : Type 0 where
  pub informational : ℕ
  pub success : ℕ
  pub redirection : ℕ
  pub client_error : ℕ
  pub server_error : ℕ

pub record RouteMetrics : Type 0 where
  pub requests : ℕ
  pub errors : ℕ
  pub rejected : ℕ
  pub response_bytes : ℕ
  pub total_duration : ℕ
  pub status_classes : StatusClasses

-- Listener, site and route.
abbrev pub MetricKey : Type 0
MetricKey = Bytes × (Bytes × Bytes)

abbrev pub Metrics : Type 0
Metrics = Dict MetricKey RouteMetrics

abbrev pub no_classes : StatusClasses
no_classes = record {
  informational = 0;
  success = 0;
  redirection = 0;
  client_error = 0;
  server_error = 0;
}

abbrev pub no_requests : RouteMetrics
no_requests = record {
  requests = 0;
  errors = 0;
  rejected = 0;
  response_bytes = 0;
  total_duration = 0;
  status_classes = no_classes;
}

abbrev to_bytes : ℤ → ℕ
to_bytes (pos n) = n
to_bytes (negsuc n) = 0

abbrev one_if : Bool → ℕ
one_if b = if b then 1 else 0

unfoldable pub count_class : ℕ → StatusClasses → StatusClasses
count_class status c = record {
  informational = c.informational + one_if (eqb (status / 100) 1);
  success = c.success + one_if (eqb (status / 100) 2);
  redirection = c.redirection + one_if (eqb (status / 100) 3);
  client_error = c.client_error + one_if (eqb (status / 100) 4);
  server_error = c.server_error + one_if (eqb (status / 100) 5);
}

unfoldable pub count_record : RequestRecord → RouteMetrics → RouteMetrics
count_record r m = record {
  requests = m.requests + 1;
  errors = m.errors + one_if (leb 500 r.status || r.panicked);
  rejected = m.rejected + one_if (not (r.rejected_by == []));
  response_bytes = m.response_bytes + to_bytes r.bytes;
  total_duration = m.total_duration + r.duration;
  status_classes = count_class r.status m.status_classes;
}

abbrev pub key_of : RequestRecord → MetricKey
key_of r = (r.listener, (r.site, r.route))

abbrev pub metrics_of : Option RouteMetrics → RouteMetrics
metrics_of none = no_requests
metrics_of (some m) = m

unfoldable pub observe : RequestRecord → Metrics → Metrics
observe r m = insert (key_of r) (count_record r (metrics_of (lookup (key_of r) m))) m

abbrev add_classes : StatusClasses → StatusClasses → StatusClasses
add_classes a b = record {
  informational = a.informational + b.informational;
  success = a.success + b.success;
  redirection = a.redirection + b.redirection;
  client_error = a.client_error + b.client_error;
  server_error = a.server_error + b.server_error;
}

unfoldable pub add_metrics : RouteMetrics → RouteMetrics → RouteMetrics
add_metrics a b = record {
  requests = a.requests + b.requests;
  errors = a.errors + b.errors;
  rejected = a.rejected + b.rejected;
  response_bytes = a.response_bytes + b.response_bytes;
  total_duration = a.total_duration + b.total_duration;
  status_classes = add_classes a.status_classes b.status_classes;
}

-- The sum of the metrics of all routes.
unfoldable pub total : Metrics → RouteMetrics
total [] = no_requests
total ((_, r) ∷ routes) = add_metrics r (total routes)

-- The status that a response has sent, 0 before, and its size.
pub record ResponseTracker : Type 0 where
  pub status : ℕ
  pub bytes : ℕ

-- The status that is passed on to the client, if any; informational ones precede the real one.
unfoldable pub write_header : ℕ → ResponseTracker → ResponseTracker × Option ℕ
write_header status w =
    if not (eqb w.status 0)
    then (w, none)
    else (if leb 200 status || eqb status 101 then record w { status = status } else w, some status)

unfoldable pub implicit_status : ResponseTracker → ResponseTracker
implicit_status w = if eqb w.status 0 then record w { status = 200 } else w

-- `written` is how many bytes the connection took.
unfoldable pub write : ℕ → ResponseTracker → ResponseTracker
unfolding implicit_status
write written w = record (implicit_status w) { bytes = w.bytes + written }

unfoldable pub flush : ResponseTracker → ResponseTracker
unfolding implicit_status
flush w = implicit_status w

unfoldable pub printable : Bytes → Bool
printable [] = true
printable (c ∷ id) = if leb c 32 || ltb 126 c then false else printable id

unfoldable pub valid_request_id : Bytes → Bool
unfolding printable
valid_request_id id = if id == [] || ltb 128 (length id) then false else printable id

-- `fresh` is the generated id.
unfoldable pub request_id_or : Bytes → Option Bytes → Bool → Bytes
unfolding valid_request_id
request_id_or fresh none trusted = fresh
request_id_or fresh (some id) trusted = if trusted && valid_request_id id then id else fresh
