-- ===== src/RateLimit/Runs.antt =====
-- Every sequence of requests to a freshly compiled limiter.
use yabber.Base.{
  ℕ, ℤ, pos, ◌≡◌, refl, ap, subst, ◌∙◌, Bool, ◌||◌, Option, none, some, List, [], ◌∷◌, Bytes,
  bytes_eq, ◌==◌, arith, lookup, is_neg, ltb_ℤ, Bool-cases, inl, inr, to_lower, trim_space, str,
}
use yabber.Config.{RateLimitPolicy}
use yabber.RateLimit.{
  Rates, RateClient, RateLimiter, Compiled, ok, err, new_limiter, new_keyed, limiter_with,
  find_element, allow,
}
use yabber.RateLimit.Elements.{find_key, clients}
use yabber.RateLimit.Spec.{IsValid, allow_with}
use yabber.RateLimit.Refinement.{allow-Counted}

module _ (r : Rates) where
  limiter_with-IsValid :
      (name : Bytes) (config : RateLimitPolicy) (b : Option r.Bucket)
      → IsValid r (limiter_with r name config b)
  unfolding limiter_with find_element find_key lookup
  limiter_with-IsValid name config b = record {
    positive = ground arith;
    bounded = omega arith;
    distinct = tt;
    agrees = λ k. refl;
    fresh = λ p h. refl;
  }

  -- A refusal, or a valid limiter.
  abbrev Good : Compiled (RateLimiter r) → Type 0
  Good (ok l) = IsValid r l
  Good (err e) = Unit

  new_keyed-Good :
      (name : Bytes) (config : RateLimitPolicy) (key : Bytes) → Good (new_keyed r name config key)
  unfolding new_keyed
  new_keyed-Good name config key = elim (Bool-cases (key == [] || key == str "client_ip")) [
    | inl e ↦ rw e (limiter_with-IsValid name config none)
    | inr e ↦ elim (Bool-cases (key == str "global")) [
      | inl g ↦ rw e (rw g (limiter_with-IsValid name config _))
      | inr g ↦ rw e (rw g tt)
    ]
  ]

  new_limiter-Good : (name : Bytes) (config : RateLimitPolicy) → Good (new_limiter r name config)
  unfolding new_limiter
  new_limiter-Good name config =
      elim (Bool-cases (r.not_positive config.requests_per_second || ltb_ℤ config.burst (pos 1))) [
        | inl e ↦ rw e tt
        | inr e ↦ elim (Bool-cases (is_neg config.max_keys || is_neg config.idle_timeout)) [
          | inl n ↦ rw e (rw n tt)
          | inr n ↦ rw e (rw n (new_keyed-Good name config (to_lower (trim_space config.key))))
        ]
      ]

  -- A sequence of requests, each a client's key at a time.
  unfoldable pub run : RateLimiter r → List (Bytes × ℕ) → Option (RateLimiter r × List Bool)
  run l [] = some (l, [])
  run l ((key, now) ∷ rest) = elim (allow r l key now) [
    | none ↦ none
    | some (l', allowed) ↦ elim (run l' rest) [
      | none ↦ none
      | some (l'', answers) ↦ some (l'', allowed ∷ answers)
    ]
  ]

  -- The same sequence over the plain list of clients.
  unfoldable pub run_lru :
      ℕ → ℤ → ℕ → ℕ → List (RateClient r) → List (Bytes × ℕ) → List (RateClient r) × List Bool
  run_lru limit burst max_keys idle cs [] = (cs, [])
  run_lru limit burst max_keys idle cs ((key, now) ∷ rest) =
      let (cs', allowed) = allow_with r limit burst max_keys idle key now cs in
      let (cs'', answers) = run_lru limit burst max_keys idle cs' rest in (cs'', allowed ∷ answers)

  record Ran (l : RateLimiter r) (result : List (RateClient r) × List Bool)
      (o : Option (RateLimiter r × List Bool)) : Type 0 where
    after : RateLimiter r
    answers : List Bool
    returned : o ≡ some (after, answers)
    valid : IsValid r after
    view : (clients r after.recent, answers) ≡ result

  abbrev pub spec_run :
      RateLimiter r → List (RateClient r) → List (Bytes × ℕ) → List (RateClient r) × List Bool
  spec_run l = run_lru l.limit l.burst l.max_keys l.idle_timeout

  run-Ran :
      (l : RateLimiter r) (calls : List (Bytes × ℕ))
      → IsValid r l
      → l.global ≡ none
      → Ran l (spec_run l (clients r l.recent) calls) (run l calls)
  unfolding run run_lru
  run-Ran l [] v g = record { after = l; answers = []; returned = refl; valid = v; view = refl }
  run-Ran l ((key, now) ∷ rest) v g =
      let m = allow-Counted r l key now v g in
      let t = run-Ran m.after rest m.valid (m.same_global ∙ g) in
      record {
        after = t.after;
        answers = m.allowed ∷ t.answers;
        returned = rw (m.returned, run) (rw (t.returned) refl);
        valid = t.valid;
        view = ap (λ p. (p.0, m.allowed ∷ p.1)) t.view ∙ λ i. (
          (run_lru (m.same_limit i) (m.same_burst i) (m.same_bound i) (m.same_idle i) (m.view i).0
              rest).0,
          (m.view i).1
              ∷ (run_lru (m.same_limit i) (m.same_burst i) (m.same_bound i) (m.same_idle i)
                  (m.view i).0 rest).1,
        );
      }

  -- A limiter as it is compiled from a policy, with one bucket for each client, serves every
  -- sequence of requests without a bad pointer: the table ends valid, and the clients it ends with
  -- and the answers given are those of the plain list of clients in order of last use, from empty.
  pub run-spec_run :
      (name : Bytes) (config : RateLimitPolicy) (l : RateLimiter r) (calls : List (Bytes × ℕ))
      → new_limiter r name config ≡ ok l
      → l.global ≡ none
      → (l' : RateLimiter r) × (answers : List Bool) × (run l calls ≡ some (l', answers))
        × IsValid r l'
        × ((clients r l'.recent, answers) ≡ spec_run l (clients r l.recent) calls)
  run-spec_run name config l calls h g =
      let t = run-Ran l calls (subst Good h (new_limiter-Good name config)) g in
      (t.after, t.answers, t.returned, t.valid, t.view)
