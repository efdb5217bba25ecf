-- ===== src/RateLimit/Spec.antt =====
-- The limiter as a plain list of clients in order of last use, and when its list, map and pointers
-- agree with that.
use yabber.Base.{
  ℤ, ℕ, ◌≤◌, ◌<◌, ◌≡◌, Bool, if◌then◌else◌, Option, none, some, List, [], ◌∷◌, ◌++◌, length, leb,
  Bytes, bytes_eq,
}
use yabber.RateLimit.{Rates, RateClient, RateLimiter, find_element}
use yabber.RateLimit.Elements.{Distinct, Agrees, clients, find_client, remove_client, drop_idle}

module _ (r : Rates) where
  open r use {new_bucket, allow_n}

  -- The table is within its bound, and its map, list and pointers agree.
  pub record IsValid (l : RateLimiter r) : Type 0 where
    pub positive : 0 < l.max_keys
    pub bounded : length l.recent ≤ l.max_keys
    pub distinct : Distinct r l.recent
    pub agrees : Agrees r l.clients l.recent
    pub fresh : (p : ℕ) → l.next ≤ p → find_element r p l.recent ≡ none

  -- The abstract limiter: a list of clients, least recently seen first.
  unfoldable pub touch : ℕ → RateClient r → List (RateClient r) → List (RateClient r) × Bool
  touch now c cs =
      let (bucket, allowed) = allow_n c.limiter now in
      (cs ++ record c { limiter = bucket; seen = now } ∷ [], allowed)

  abbrev pub without_oldest : List (RateClient r) → List (RateClient r)
  without_oldest [] = []
  without_oldest (c ∷ cs) = cs

  unfoldable pub allow_with :
      ℕ → ℤ → ℕ → ℕ → Bytes → ℕ → List (RateClient r) → List (RateClient r) × Bool
  allow_with limit burst max_keys idle key now cs =
      let kept = drop_idle r now idle cs in
      elim (find_client r key kept) [
        | some c ↦ touch now c (remove_client r key kept)
        | none ↦
            touch now (record { key = key; limiter = new_bucket limit burst; seen = now })
              (if leb max_keys (length kept) then without_oldest kept else kept)
      ]

  abbrev pub allow_lru :
      RateLimiter r → Bytes → ℕ → List (RateClient r) → List (RateClient r) × Bool
  allow_lru l = allow_with l.limit l.burst l.max_keys l.idle_timeout

  -- A full table loses its least recently seen client.
  abbrev pub shrink : RateLimiter r → List (RateClient r) → List (RateClient r)
  shrink l cs = if leb l.max_keys (length cs) then without_oldest cs else cs

  -- What a counted request leaves behind, and what it answered.
  pub record Counted (l : RateLimiter r) (result : List (RateClient r) × Bool)
      (o : Option (RateLimiter r × Bool)) : Type 0 where
    pub after : RateLimiter r
    pub allowed : Bool
    pub returned : o ≡ some (after, allowed)
    pub valid : IsValid after
    pub view : (clients r after.recent, allowed) ≡ result
    pub same_limit : after.limit ≡ l.limit
    pub same_burst : after.burst ≡ l.burst
    pub same_bound : after.max_keys ≡ l.max_keys
    pub same_idle : after.idle_timeout ≡ l.idle_timeout
    pub same_global : after.global ≡ l.global
