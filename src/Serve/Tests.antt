-- ===== src/Serve/Tests.antt =====
-- A handler that panics, and an instance of the theorem on it.
use yabber.Base.{
  ℕ, ◌≡◌, refl, true, false, none, some, List, [], ◌∷◌, str, bytes_eq, pair_eq, lookup, insert,
}
use yabber.ClientIp.Tests.{sample_netip}
use yabber.Acme.{serve_challenge}
use yabber.Observability.{write_header}
use yabber.Serve.{
  panicked, Incoming, Serving, Service, Observer, Addresses, Answer, serve_http, finish, accept,
  handle_request, recover_tracker, record_of, record_request, notify,
}
use yabber.Serve.Recorded.{Recorded, handled, serve_http-Recorded}

abbrev sample_addresses : Addresses sample_netip
sample_addresses = record {
  text = λ address. address;
  is_6 = λ address. false;
  block = λ address. address;
}

abbrev broken : Serving
broken r x = (x, some (panicked (str "index out of range")))

-- It keeps the statuses.
abbrev collecting : Observer (List ℕ)
collecting r seen = (r.status ∷ seen, true)

abbrev sample_service : Service (List ℕ)
sample_service = record { active = 2; metrics = []; observed = [] }

abbrev sample_incoming : Incoming
sample_incoming = record {
  sender = record { remote_addr = str "10.0.0.9:5000"; forwarded_for = [] };
  over_tls = false;
  method = str "GET";
  host = str "a.org";
  path = str "/";
  headers = [];
  time = 7;
}

abbrev served : Service (List ℕ) × Answer
served =
    serve_http sample_netip sample_addresses (collecting ∷ []) ((str "http", ([], broken)) ∷ [])
      none (λ host token. none) (str "http") (str "id1") 3 sample_incoming sample_service

-- The panic is answered with 500, which the observer sees.
answered : (served.1.tracker.status ≡ 500) × (served.0.observed ≡ 500 ∷ []) × (served.0.active ≡ 2)
unfolding serve_http finish accept handle_request recover_tracker record_of record_request notify
    write_header serve_challenge lookup insert
answered = (refl, refl, refl)

serve_http-Recorded_example :
    Recorded sample_netip sample_addresses
      (collecting ∷ [])
      (handled sample_netip sample_addresses
        (collecting ∷ [])
        none
        (λ host token. none)
        (str "http")
        (str "id1")
        sample_incoming
        []
        broken).1
      sample_service
      served
unfolding lookup
serve_http-Recorded_example =
    serve_http-Recorded sample_netip sample_addresses (collecting ∷ [])
      ((str "http", ([], broken)) ∷ []) none (λ host token. none) (str "http") (str "id1") 3
      sample_incoming sample_service [] broken refl
