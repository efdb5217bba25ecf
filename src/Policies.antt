-- ===== src/Policies.antt =====
-- policy.go and middleware.go: the policies of a configuration, the middleware that they stand for,
-- and the wrapping of handlers. A handler takes a request and what it shares with other requests.
-- A compiled policy carries a number, its identity: the state of its limiter and its slots are kept
-- under that number. `same`, in Compile, stands for reflect.DeepEqual. A timeout only sets
-- the deadline of the request. A handler that panics says so in what it leaves behind: only what is
-- deferred runs after it.
pub mod Compile
pub mod Reuse
pub mod Once
pub mod Slots
pub mod Tests
use yabber.Base.{
  ℕ, suc, ◌+◌, ◌-◌, Bool, true, false, not, ◌&&◌, ◌||◌, if◌then◌else◌, Option, none, some, List, [],
  ◌∷◌, ◌++◌, ltb, leb, min, any, ◌⊎◌, inl, inr, Bytes, str, bytes_eq, nat_eq, ◌==◌, Dict, lookup,
  insert, has, ℤ, pos, negsuc, ltb_ℤ, is_neg, eqb_ℤ,
}
use yabber.Config.{Policy, RequestPolicy, RateLimitPolicy, ConcurrencyPolicy}
use yabber.Proxy.{Url}
use yabber.RateLimit.{Rates, RateLimiter, LimitError, new_limiter, allow}
use yabber.RateLimit

-- Per-request routing metadata.
pub record RequestState : Type 0 where
  pub id : Bytes
  pub listener : Bytes
  pub site : Bytes
  pub route : Bytes
  -- The key that the rate limiter counts the client under.
  pub client_key : Bytes
  pub trusted_peer : Bool
  pub rejected_by : Bytes
  pub applied : List Bytes

-- The policy is recorded; the state afterwards if it is new.
unfoldable pub mark_applied : Bytes → RequestState → Option RequestState
unfolding any
mark_applied policy s =
    if any (λ p. p == policy) s.applied
    then none
    else some (record s { applied = policy ∷ s.applied })

pub record Request : Type 0 where
  -- The header Host.
  pub host : Bytes
  pub url : Url
  pub content_length : ℤ
  pub now : ℕ
  pub deadline : Option ℕ
  pub body_limits : List ℕ

pub record Response : Type 0 where
  pub status : Option ℕ
  -- The header Retry-After, in seconds.
  pub retry_after : Option ℕ
  pub location : Option Bytes
  pub headers : Dict Bytes Bytes
  pub body : Bytes

pub data Middleware : Type 0 where
  timeout : ℕ → Middleware
  body_limit : Bytes → ℕ → Middleware
  -- The policy's name, its number and the seconds to wait.
  rate_limit : Bytes → ℕ → ℕ → Middleware
  concurrency : Bytes → ℕ → ℕ → Middleware

abbrev earliest : Option ℕ → ℕ → Option ℕ
earliest none t = some t
earliest (some d) t = some (min d t)

module _ (r : Rates) where
  -- What requests share: the state of this request, which is reached through its context, the
  -- response, and the limiters and used slots of the compiled policies.
  pub record Shared : Type 0 where
    pub state : Option RequestState
    pub response : Response
    pub limiters : Dict ℕ (RateLimiter r)
    pub slots : Dict ℕ ℕ
    -- The handler panics: the code behind its call does not run, what was deferred does.
    pub panicking : Bool

  abbrev pub Handler : Type 0
  Handler = Request → Shared → Shared

  abbrev set_rejected : Bytes → Option RequestState → Option RequestState
  set_rejected by none = none
  set_rejected by (some s) = some (record s { rejected_by = by })

  abbrev pub write_header : ℕ → Response → Response
  write_header status w = elim (w.status) [ none ↦ record w { status = some status } | some _ ↦ w ]

  pub reject : Bytes → ℕ → Shared → Shared
  reject by status s = record s {
    state = set_rejected by s.state;
    response = write_header status s.response;
  }

  abbrev set_site : Bytes → Option RequestState → Option RequestState
  set_site name none = none
  set_site name (some s) = some (record s { site = name })

  unfoldable pub with_site : Bytes → Handler → Handler
  with_site name next q s = next q (record s { state = set_site name s.state })

  abbrev set_route : Bytes → Option RequestState → Option RequestState
  set_route name none = none
  set_route name (some s) = some (record s { route = name })

  unfoldable pub with_route : Bytes → Handler → Handler
  with_route name next q s = next q (record s { state = set_route name s.state })

  pub set_retry_after : ℕ → Shared → Shared
  set_retry_after seconds s = record s {
    response = record s.response { retry_after = some seconds };
  }

  abbrev key_of : Option RequestState → Bytes
  key_of none = str "unknown"
  key_of (some s) = s.client_key

  -- The limiter of a policy; a missing or faulty one lets nothing pass.
  unfoldable pub count_request : ℕ → Request → Shared → Shared × Bool
  count_request id q s = elim (lookup id s.limiters) [
    | none ↦ (s, false)
    | some l ↦ elim (allow r l (key_of s.state) q.now) [
      | none ↦ (s, false)
      | some (l', allowed) ↦ (record s { limiters = insert id l' s.limiters }, allowed)
    ]
  ]

  unfoldable pub used : ℕ → Dict ℕ ℕ → ℕ
  used id slots = elim (lookup id slots) [ none ↦ 0 | some n ↦ n ]

  pub take_slot : ℕ → Shared → Shared
  take_slot id s = record s { slots = insert id (used id s.slots + 1) s.slots }

  -- The deferred receive from the channel of slots: it runs also when the handler panics.
  pub free_slot : ℕ → Shared → Shared
  free_slot id s = record s { slots = insert id (used id s.slots - 1) s.slots }

  unfoldable pub run_middleware : Middleware → Handler → Handler
  unfolding reject set_retry_after take_slot free_slot
  run_middleware (timeout d) next q s =
      next (record q { deadline = earliest q.deadline (q.now + d) }) s
  run_middleware (body_limit policy limit) next q s =
      if ltb_ℤ (pos limit) q.content_length
      then reject (policy ++ str ":body") 413 s
      else next (record q { body_limits = limit ∷ q.body_limits }) s
  run_middleware (rate_limit policy id seconds) next q s =
      let (s', allowed) = count_request id q s in
      if allowed then next q s' else reject (policy ++ str ":rate") 429 (set_retry_after seconds s')
  run_middleware (concurrency policy id max) next q s =
      if ltb (used id s.slots) max
      then free_slot id (next q (take_slot id s))
      else reject (policy ++ str ":concurrency") 503 (set_retry_after 1 s)

  -- The middleware runs in the order of the list.
  unfoldable pub chain : Handler → List Middleware → Handler
  chain h [] = h
  chain h (m ∷ ms) = run_middleware m (chain h ms)

  pub record CompiledPolicy : Type 0 where
    pub definition : Policy
    pub middleware : List Middleware
    pub id : ℕ
    -- The limiter as it is when the policy is compiled.
    pub limiter : Option (RateLimiter r)

  -- The handler runs inside the policy, unless an outer scope has applied the policy already.
  unfoldable pub wrap : CompiledPolicy → Handler → Handler
  wrap p next q s = elim (s.state) [
    | none ↦ chain next p.middleware q s
    | some st ↦ elim (mark_applied p.definition.name st) [
      | none ↦ next q s
      | some st' ↦ chain next p.middleware q (record s { state = some st' })
    ]
  ]

  -- The first policy of the list is the outermost; `inr` names an unknown one.
  unfoldable pub apply_policies : Handler → List Bytes → Dict Bytes CompiledPolicy → Handler ⊎ Bytes
  apply_policies h [] policies = inl h
  apply_policies h (name ∷ names) policies = elim (apply_policies h names policies) [
    | inr unknown ↦ inr unknown
    | inl inner ↦ elim (lookup name policies) [ none ↦ inr name | some p ↦ inl (wrap p inner) ]
  ]
