-- ===== src/RateLimit/Tests.antt =====
-- Runs of the limiter and instances of its theorems. A bucket is the number of requests it has left.
use yabber.Base.{
  ℕ, ◌-◌, ◌≡◌, refl, ℤ, pos, negsuc, Bool, none, some, List, [], ◌∷◌, Bytes, str, ltb, arith,
  lookup, trim_space, to_lower,
}
use yabber.Config.{RateLimitPolicy}
use yabber.RateLimit.{Rates, RateLimiter, ok, new_limiter, allow, find_element}
use yabber.RateLimit.Elements.{clients, find_key}
use yabber.RateLimit.Spec.{IsValid, Counted, allow_lru}
use yabber.RateLimit.Refinement.{allow-Counted}
use yabber.RateLimit.Runs.{run, spec_run, run-spec_run}

abbrev burst_of : ℤ → ℕ
burst_of (pos n) = n
burst_of (negsuc n) = 0

abbrev pub sample_rates : Rates
sample_rates = record {
  Bucket = ℕ;
  new_bucket = λ rate burst. burst_of burst;
  allow_n = λ left now. (left - 1, ltb 0 left);
  not_positive = λ rate. ltb rate 1;
  retry_seconds = λ rate. 1;
}

abbrev sample_policy : RateLimitPolicy
sample_policy = record {
  requests_per_second = 1;
  burst = pos 1;
  key = str "";
  max_keys = pos 2;
  idle_timeout = pos 100;
}

abbrev sample_limiter : RateLimiter sample_rates
sample_limiter = record {
  name = str "login";
  limit = 1;
  burst = pos 1;
  retry_after = 1;
  global = none;
  max_keys = 2;
  idle_timeout = 100;
  clients = [];
  recent = [];
  next = 0;
}

compiled : new_limiter sample_rates (str "login") sample_policy ≡ ok sample_limiter
unfolding new_limiter to_lower trim_space
compiled = refl

abbrev sample_calls : List (Bytes × ℕ)
sample_calls =
    (str "a", 1) ∷ (str "b", 2) ∷ (str "a", 3) ∷ (str "c", 4) ∷ (str "b", 5) ∷ (str "a", 6) ∷ []

run-spec_run_example :
    (l' : RateLimiter sample_rates) × (answers : List Bool) × (run sample_rates sample_limiter
        sample_calls
      ≡ some (l', answers))
    × IsValid sample_rates l'
    × ((clients sample_rates l'.recent, answers)
        ≡ spec_run sample_rates sample_limiter
            (clients sample_rates sample_limiter.recent)
            sample_calls)
run-spec_run_example =
    run-spec_run sample_rates (str "login") sample_policy sample_limiter sample_calls compiled refl

sample_limiter-IsValid : IsValid sample_rates sample_limiter
unfolding find_element find_key lookup
sample_limiter-IsValid = record {
  positive = omega arith;
  bounded = omega arith;
  distinct = tt;
  agrees = λ k. refl;
  fresh = λ p h. refl;
}

allow-Counted_example :
    Counted sample_rates sample_limiter
      (allow_lru sample_rates sample_limiter
        (str "a")
        1
        (clients sample_rates sample_limiter.recent))
      (allow sample_rates sample_limiter (str "a") 1)
allow-Counted_example =
    allow-Counted sample_rates sample_limiter (str "a") 1 sample_limiter-IsValid refl
