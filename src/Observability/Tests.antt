-- ===== src/Observability/Tests.antt =====
-- Two requests to one route, and an instance of the theorem.
use yabber.Base.{ℕ, false, [], ◌∷◌, str, lookup, pos, bytes_eq, pair_eq}
use yabber.Observability.{RequestRecord, Metrics, metrics_of}
use yabber.Observability.Counting.{observe_all, served_on, chosen, Counts, observe_all-Counts}

abbrev sample_record : ℕ → RequestRecord
sample_record status = record {
  time = 0;
  request_id = str "r1";
  client_ip = str "10.0.0.1";
  method = str "GET";
  host = str "docs.example.com";
  path = str "/";
  listener = str "http";
  site = str "docs";
  route = str "/";
  rejected_by = [];
  status = status;
  bytes = pos 12;
  duration = 7;
  panicked = false;
}

abbrev no_metrics : Metrics
no_metrics = []

observe_all-Counts_example :
    Counts
      (chosen
        (served_on (str "http") (str "docs") (str "/"))
        (sample_record 200 ∷ sample_record 503 ∷ []))
      (metrics_of (lookup (str "http", (str "docs", str "/")) no_metrics))
      (metrics_of (
        lookup
          (str "http", (str "docs", str "/"))
          (observe_all (sample_record 200 ∷ sample_record 503 ∷ []) no_metrics)))
observe_all-Counts_example =
    observe_all-Counts (sample_record 200 ∷ sample_record 503 ∷ []) no_metrics (str "http")
      (str "docs") (str "/")
