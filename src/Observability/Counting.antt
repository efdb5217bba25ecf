-- ===== src/Observability/Counting.antt =====
-- The counters of a route count the records of that route, and the total counts all.
use yabber.Base.{
  ℕ, ◌+◌, Bool, true, not, ◌&&◌, ◌||◌, leb, eqb, ◌/◌, Bytes, sym, subst, ◌≡◌, refl, ap, ◌∙◌,
  if◌then◌else◌, some, List, [], ◌∷◌, bytes_eq, pair_eq, ◌==◌, ==_iff, lookup, lookup-insert, arith,
  Bool-cases, inl, inr,
}
use yabber.Observability.{
  RequestRecord, RouteMetrics, Metrics, MetricKey, key_of, metrics_of, count_record, count_class,
  observe,
}

unfoldable pub observe_all : List RequestRecord → Metrics → Metrics
observe_all [] m = m
observe_all (r ∷ rs) m = observe_all rs (observe r m)

-- The records of one route, counted from what the route had.
unfoldable pub count_all : MetricKey → List RequestRecord → RouteMetrics → RouteMetrics
count_all key [] m = m
count_all key (r ∷ rs) m =
    if key_of r == key then count_all key rs (count_record r m) else count_all key rs m

lookup-observe_all :
    (rs : List RequestRecord) (m : Metrics) (key : MetricKey)
    → metrics_of (lookup key (observe_all rs m)) ≡ count_all key rs (metrics_of (lookup key m))
unfolding observe_all count_all
lookup-observe_all [] m key = refl
lookup-observe_all (r ∷ rs) m key =
    lookup-observe_all rs (observe r m) key ∙ elim (Bool-cases (key_of r == key)) [
      | inl same ↦ rw same (ap (count_all key rs) (ground (arith, step, ==_iff (key_of r) key)))
      | inr other ↦ rw other (ap (count_all key rs) (ground (arith, step)))
    ]
  where
    step : lookup key (observe r m) ≡ (
        if key_of r == key
        then some (count_record r (metrics_of (lookup (key_of r) m)))
        else lookup key m)
    step =
        unfold observe in
        (lookup-insert (key_of r) key (count_record r (metrics_of (lookup (key_of r) m))) m)

-- The request was answered on this listener, for this site and by this route.
abbrev pub served_on : Bytes → Bytes → Bytes → RequestRecord → Bool
served_on listener site route r = r.listener == listener && (r.site == site && r.route == route)

unfoldable pub how_many : (RequestRecord → Bool) → List RequestRecord → ℕ
how_many test [] = 0
how_many test (r ∷ rs) = let rest = how_many test rs in if test r then rest + 1 else rest

unfoldable pub sum_of : (RequestRecord → ℕ) → List RequestRecord → ℕ
sum_of value [] = 0
sum_of value (r ∷ rs) = value r + sum_of value rs

unfoldable pub chosen : (RequestRecord → Bool) → List RequestRecord → List RequestRecord
chosen test [] = []
chosen test (r ∷ rs) = let rest = chosen test rs in if test r then r ∷ rest else rest

-- What a route had, and what these requests add.
abbrev pub Counts : List RequestRecord → RouteMetrics → RouteMetrics → Type 0
Counts rs m m' =
    (m'.requests ≡ m.requests + how_many (λ r. true) rs)
    × (m'.errors ≡ m.errors + how_many (λ r. leb 500 r.status || r.panicked) rs)
    × (m'.rejected ≡ m.rejected + how_many (λ r. not (r.rejected_by == [])) rs)
    × (m'.total_duration ≡ m.total_duration + sum_of (λ r. r.duration) rs)
    × (m'.status_classes.server_error
        ≡ m.status_classes.server_error + how_many (λ r. eqb (r.status / 100) 5) rs)

key_of-served_on :
    (listener site route : Bytes) (r : RequestRecord)
    → (key_of r == (listener, (site, route))) ≡ served_on listener site route r
key_of-served_on listener site route r = refl

count_record-Counts :
    (r : RequestRecord) (rs : List RequestRecord) (m m' : RouteMetrics)
    → Counts rs (count_record r m) m'
    → Counts (r ∷ rs) m m'
unfolding count_record how_many sum_of
count_record-Counts r rs m m' (a, b, c, d, e) =
    (ground arith, ground arith, ground arith, ground arith, unfold count_class in (ground arith))

count_all-Counts :
    (listener site route : Bytes) (rs : List RequestRecord) (m : RouteMetrics)
    → Counts
        (chosen (served_on listener site route) rs)
        m
        (count_all (listener, (site, route)) rs m)
unfolding count_all chosen
count_all-Counts listener site route [] m =
    unfold how_many sum_of in (omega arith, omega arith, omega arith, omega arith, omega arith)
count_all-Counts listener site route (r ∷ rs) m =
    elim (Bool-cases (served_on listener site route r)) [
      | inl on ↦
          rw (key_of-served_on listener site route r, on)
            (count_record-Counts r (chosen (served_on listener site route) rs) m
              (count_all (listener, (site, route)) rs (count_record r m))
              (count_all-Counts listener site route rs (count_record r m)))
      | inr off ↦
          rw (key_of-served_on listener site route r, off)
            (count_all-Counts listener site route rs m)
    ]

-- After any sequence of requests, the metrics of a listener, site and route have grown by the
-- requests of exactly that listener, site and route: by their number, by the number of those that
-- ended with a status from 500 on or a panic, of those that were rejected and of those with a status
-- of 5xx, and by the sum of their durations.
pub observe_all-Counts :
    (rs : List RequestRecord) (m : Metrics) (listener site route : Bytes)
    → Counts
        (chosen (served_on listener site route) rs)
        (metrics_of (lookup (listener, (site, route)) m))
        (metrics_of (lookup (listener, (site, route)) (observe_all rs m)))
observe_all-Counts rs m listener site route =
    subst
      (Counts (chosen (served_on listener site route) rs)
        (metrics_of (lookup (listener, (site, route)) m)))
      (sym (lookup-observe_all rs m (listener, (site, route))))
      (count_all-Counts listener site route rs (metrics_of (lookup (listener, (site, route)) m)))
