-- ===== src/RateLimit.antt =====
-- policy.go: the rate limiter, a token bucket for each client in order of last use, or one bucket
-- for all. The buckets of golang.org/x/time/rate and the arithmetic of float64 are a parameter.
-- The linked list is kept oldest first, and its elements carry the pointers by which the map of
-- clients finds them; a dereference of a nil or foreign element is `none`.
pub mod Elements
pub mod Expiry
pub mod Spec
pub mod Known
pub mod New
pub mod Refinement
pub mod Runs
pub mod Tests
use yabber.Base.{
  ℕ, suc, ◌+◌, Bool, true, false, ◌||◌, if◌then◌else◌, Option, none, some, List, [], ◌∷◌, ◌++◌,
  length, ltb, leb, eqb, Bytes, str, bytes_eq, ◌==◌, Dict, lookup, insert, delete, ℤ, pos, negsuc,
  ltb_ℤ, is_neg, to_lower, trim_space,
}
use yabber.Config.{RateLimitPolicy}

-- What the source calls of golang.org/x/time/rate and of float64.
pub record Rates : Type 1 where
  pub Bucket : Type 0
  -- A rate in requests per second, and the burst.
  pub new_bucket : ℕ → ℤ → Bucket
  pub allow_n : Bucket → ℕ → Bucket × Bool
  -- requests_per_second <= 0
  pub not_positive : ℕ → Bool
  -- max(1, ceil(1 / requests_per_second))
  pub retry_seconds : ℕ → ℕ

abbrev pub default_max_keys : ℕ
default_max_keys = 10_000

-- Ten minutes.
abbrev pub default_idle_timeout : ℕ
default_idle_timeout = 600_000_000_000

pub data LimitError : Type 0 where
  not_positive negative : LimitError
  unsupported_key : Bytes → LimitError

pub data Compiled {ℓ} (A : Type ℓ) : Type ℓ where
  ok : A → Compiled A
  err : LimitError → Compiled A

-- A positive duration, or else the fallback.
abbrev pub duration_or : ℤ → ℕ → ℕ
duration_or (pos n) fallback = if ltb 0 n then n else fallback
duration_or (negsuc n) fallback = fallback

abbrev to_ℕ : ℤ → ℕ
to_ℕ (pos n) = n
to_ℕ (negsuc n) = 0

module _ (r : Rates) where
  open r use {Bucket, new_bucket, allow_n}

  pub record RateClient : Type 0 where
    pub key : Bytes
    pub limiter : Bucket
    pub seen : ℕ

  pub record RateLimiter : Type 0 where
    pub name : Bytes
    pub limit : ℕ
    pub burst : ℤ
    pub retry_after : ℕ
    pub global : Option Bucket
    pub max_keys : ℕ
    pub idle_timeout : ℕ
    pub clients : Dict Bytes ℕ
    pub recent : List (ℕ × RateClient)
    -- The pointer of the next element.
    pub next : ℕ

  abbrev max_keys_of : ℤ → ℕ
  max_keys_of n = if eqb (to_ℕ n) 0 then default_max_keys else to_ℕ n

  limiter_with : Bytes → RateLimitPolicy → Option Bucket → RateLimiter
  limiter_with name config global = record {
    name = name;
    limit = config.requests_per_second;
    burst = config.burst;
    retry_after = r.retry_seconds config.requests_per_second;
    global = global;
    max_keys = max_keys_of config.max_keys;
    idle_timeout = duration_or config.idle_timeout default_idle_timeout;
    clients = [];
    recent = [];
    next = 0;
  }

  new_keyed : Bytes → RateLimitPolicy → Bytes → Compiled RateLimiter
  unfolding limiter_with
  new_keyed name config key =
      if key == [] || key == str "client_ip"
      then ok (limiter_with name config none)
      else if key == str "global"
      then ok (limiter_with name config (some (new_bucket config.requests_per_second config.burst)))
      else err (unsupported_key config.key)

  unfoldable pub new_limiter : Bytes → RateLimitPolicy → Compiled RateLimiter
  unfolding new_keyed
  new_limiter name config =
      if r.not_positive config.requests_per_second || ltb_ℤ config.burst (pos 1)
      then err not_positive
      else if is_neg config.max_keys || is_neg config.idle_timeout
      then err negative
      else new_keyed name config (to_lower (trim_space config.key))

  -- The client that an element of the list holds.
  unfoldable pub find_element : ℕ → List (ℕ × RateClient) → Option RateClient
  find_element p [] = none
  find_element p ((q, c) ∷ es) = if eqb q p then some c else find_element p es

  unfoldable pub remove_element : ℕ → List (ℕ × RateClient) → List (ℕ × RateClient)
  remove_element p [] = []
  remove_element p ((q, c) ∷ es) = if eqb q p then es else (q, c) ∷ remove_element p es

  -- The loop that removes idle clients from the back of the list.
  unfoldable pub expire :
      ℕ → ℕ → List (ℕ × RateClient) → Dict Bytes ℕ → List (ℕ × RateClient) × Dict Bytes ℕ
  expire now idle [] clients = ([], clients)
  expire now idle ((p, c) ∷ es) clients =
      let rest = expire now idle es (delete c.key clients) in
      if ltb now (c.seen + idle) then ((p, c) ∷ es, clients) else rest

  -- The request is counted by the client's bucket, and the client becomes the most recent one.
  unfoldable pub serve : RateLimiter → ℕ → RateClient → ℕ → RateLimiter × Bool
  serve l p c now =
      let (bucket, allowed) = allow_n c.limiter now in
      (
        record l { recent = l.recent ++ (p, record c { limiter = bucket; seen = now }) ∷ [] },
        allowed,
      )

  -- l.remove(l.recent.Back()) where the table is full.
  make_room : RateLimiter → Option RateLimiter
  make_room l =
      if leb l.max_keys (length l.recent)
      then elim l.recent [
        | [] ↦ none
        | (p, c) ∷ es ↦ some (record l { recent = es; clients = delete c.key l.clients })
      ]
      else some l

  admit : RateLimiter → Bytes → ℕ → RateLimiter × Bool
  unfolding serve
  admit l key now =
      serve (record l { clients = insert key l.next l.clients; next = suc l.next }) l.next
        (record { key = key; limiter = new_bucket l.limit l.burst; seen = now }) now

  pub count_known : RateLimiter → ℕ → ℕ → Option (RateLimiter × Bool)
  unfolding serve find_element remove_element
  count_known l p now = elim (find_element p l.recent) [
    | none ↦ none
    | some c ↦ some (serve (record l { recent = remove_element p l.recent }) p c now)
  ]

  pub count_new : RateLimiter → Bytes → ℕ → Option (RateLimiter × Bool)
  unfolding make_room admit
  count_new l key now = elim (make_room l) [ none ↦ none | some l' ↦ some (admit l' key now) ]

  pub count_client : RateLimiter → Bytes → ℕ → Option (RateLimiter × Bool)
  unfolding count_known count_new
  count_client l key now = elim (lookup key l.clients) [
    | some p ↦ count_known l p now
    | none ↦ count_new l key now
  ]

  unfoldable pub forget_idle : RateLimiter → ℕ → RateLimiter
  unfolding expire
  forget_idle l now =
      let (recent, clients) = expire now l.idle_timeout l.recent l.clients in
      record l { recent = recent; clients = clients }

  -- One request of a client at a time; `none` is a panic.
  unfoldable pub allow : RateLimiter → Bytes → ℕ → Option (RateLimiter × Bool)
  unfolding forget_idle count_client
  allow l key now = elim l.global [
    | some bucket ↦
        let (bucket', allowed) = allow_n bucket now in
        some (record l { global = some bucket' }, allowed)
    | none ↦ count_client (forget_idle l now) key now
  ]
