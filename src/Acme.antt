-- ===== src/Acme.antt =====
-- acme.go: when the ACME manager asks for certificates, the backoff between attempts, and the answers
-- to HTTP-01 challenges. Times and durations are nanoseconds. The CA, the clock and the storage are a
-- parameter: a world, and what the calls of github.com/lsongdev/acme-go do to it. The account and
-- the order around the authorizations of a host, which Orders models, are its `obtain`, a parameter of
-- `maintain`.
pub mod Backoff
pub mod Maintain
pub mod Challenges
pub mod Managers
pub mod Orders
pub mod Tests
use yabber.Base.{
  ℕ, suc, ◌+◌, ◌-◌, ◌*◌, ◌/◌, ◌^◌, min, Bool, true, false, not, ◌&&◌, ◌||◌, if◌then◌else◌, Option,
  none, some, List, [], ◌∷◌, ◌⊎◌, inl, inr, Bytes, str, bytes_eq, ◌==◌, Dict, lookup, insert,
  delete, ltb, cut_prefix, contains_byte, is_some,
}

abbrev pub minute : ℕ
minute = 60_000_000_000

abbrev pub acme_check_interval : ℕ
acme_check_interval = 720 * minute

abbrev pub acme_min_retry : ℕ
acme_min_retry = 5 * minute

abbrev pub acme_max_retry : ℕ
acme_max_retry = 720 * minute

abbrev pub acme_reload_retry : ℕ
acme_reload_retry = minute

abbrev acme_challenge_prefix : Bytes
acme_challenge_prefix = str "/.well-known/acme-challenge/"

pub record Leaf : Type 0 where
  pub not_before : ℕ
  pub not_after : ℕ

pub record AcmeFailure : Type 0 where
  pub err : Bytes
  pub count : ℕ
  pub failed_at : ℕ
  pub retry_at : ℕ

pub record Manager : Type 0 where
  pub hosts : List Bytes
  pub certs : Dict Bytes Leaf
  pub failures : Dict Bytes AcmeFailure
  pub tokens : Dict Bytes Bytes
  -- A wake-up is waiting.
  pub wake : Bool

unfoldable pub earliest : ℕ → ℕ → ℕ
earliest a b = if ltb b a then b else a

-- Two thirds into the certificate's lifetime.
unfoldable pub renew_at : Leaf → ℕ
renew_at leaf = leaf.not_before + (leaf.not_after - leaf.not_before) * 2 / 3

unfoldable pub retry_at : Bytes → Manager → ℕ
retry_at host m = elim (lookup host m.failures) [ none ↦ 0 | some f ↦ f.retry_at ]

-- The wait after a number of failures in a row.
unfoldable pub delay : ℕ → ℕ
delay count = min (acme_min_retry * 2 ^ min (count - 1) 10) acme_max_retry

abbrev pub failures_of : Option AcmeFailure → ℕ
failures_of none = 0
failures_of (some f) = f.count

unfoldable pub record_failure : Bytes → Bytes → ℕ → Manager → Manager × ℕ
record_failure host err now m =
    let count = failures_of (lookup host m.failures) + 1 in
    let f : AcmeFailure = record {
      err = err;
      count = count;
      failed_at = now;
      retry_at = now + delay count;
    } in
    (record m { failures = insert host f m.failures }, f.retry_at)

-- A reload resets the backoff, but a host is not retried sooner than acme_reload_retry after its
-- last failure.
unfoldable pub reset_failures : Dict Bytes AcmeFailure → Dict Bytes AcmeFailure
reset_failures [] = []
reset_failures ((host, f) ∷ failures) =
    (host, record f { count = 0; retry_at = earliest f.retry_at (f.failed_at + acme_reload_retry) })
    ∷ reset_failures failures

-- What is stored for a host, if it can be read.
unfoldable pub load_stored : (Bytes → Option Leaf) → List Bytes → Dict Bytes Leaf → Dict Bytes Leaf
load_stored stored [] certs = certs
load_stored stored (host ∷ hosts) certs = elim (lookup host certs) [
  | some _ ↦ load_stored stored hosts certs
  | none ↦ elim (stored host) [
    | none ↦ load_stored stored hosts certs
    | some leaf ↦ load_stored stored hosts (insert host leaf certs)
  ]
]

unfoldable pub set_hosts : (Bytes → Option Leaf) → List Bytes → Bool → Manager → Manager
set_hosts stored hosts reload m = record m {
  hosts = hosts;
  failures = if reload then reset_failures m.failures else m.failures;
  certs = load_stored stored hosts m.certs;
  wake = true;
}

unfoldable pub certificate : Bytes → Manager → Option Leaf
certificate host m = lookup host m.certs

unfoldable pub challenge : Bytes → Manager → Option Bytes
challenge token m = lookup token m.tokens

pub record ChallengeRequest : Type 0 where
  pub over_tls : Bool
  pub method : Bytes
  pub path : Bytes
  -- requestHost of the request.
  pub host : Bytes

unfoldable pub or_store : Option Bytes → Option Bytes → Option Bytes
or_store none stored = stored
or_store (some key) stored = some key

unfoldable pub managed_answer : Bytes → Option Manager → Option Bytes
unfolding challenge
managed_answer token none = none
managed_answer token (some m) = challenge token m

-- The body of the answer to a challenge request, if the request is one and the token is known to
-- the manager of the active snapshot or to the external store.
unfoldable pub serve_challenge :
    Option Manager → (Bytes → Bytes → Option Bytes) → ChallengeRequest → Option Bytes
unfolding managed_answer or_store
serve_challenge manager store r =
    if r.over_tls || (not (r.method == str "GET") && not (r.method == str "HEAD"))
    then none
    else elim (cut_prefix r.path acme_challenge_prefix) [
      | none ↦ none
      | some token ↦
          if token == [] || contains_byte b'/' token
          then none
          else elim (or_store (managed_answer token manager) (store r.host token)) [
            | none ↦ none
            | some key ↦ some (if r.method == str "HEAD" then [] else key)
          ]
    ]

-- A certificate that is not due for renewal, or a failure whose retry is not due: the time to wait for.
unfoldable pub waits_until : ℕ → Bytes → Manager → Option ℕ
unfolding certificate
waits_until now host m =
    let retry = if ltb now (retry_at host m) then some (retry_at host m) else none in
    elim (certificate host m) [
      | none ↦ retry
      | some leaf ↦ if ltb now (renew_at leaf) then some (renew_at leaf) else retry
    ]

pub record Ca : Type 1 where
  pub World : Type 0
  pub now : World → ℕ
  -- The context is done.
  pub done : World → Bool

module _ (ca : Ca)
    (obtain : Bytes → Manager → ca.World → (Manager × ca.World) × (Bytes ⊎ Leaf)) where
  abbrev pub after_success : Bytes → Leaf → Manager → Manager
  after_success host leaf m = record m {
    certs = insert host leaf m.certs;
    failures = delete host m.failures;
  }

  -- `now` is the time that maintain read at its start.
  unfoldable pub maintain_hosts : ℕ → List Bytes → ℕ → Manager → ca.World → (Manager × ca.World) × ℕ
  maintain_hosts now [] next m w = ((m, w), next)
  maintain_hosts now (host ∷ hosts) next m w =
      if ca.done w then ((m, w), next) else elim (waits_until now host m) [
        | some t ↦ maintain_hosts now hosts (earliest next t) m w
        | none ↦
            let ((m', w'), result) = obtain host m w in
            elim result [
              | inl err ↦
                  if ca.done w'
                  then ((m', w'), next)
                  else let (m'', retry) = record_failure host err (ca.now w') m' in
                    maintain_hosts now hosts (earliest next retry) m'' w'
              | inr leaf ↦
                  maintain_hosts now hosts (earliest next (renew_at leaf))
                    (after_success host leaf m') w'
            ]
      ]

  unfoldable pub maintain : Manager → ca.World → (Manager × ca.World) × ℕ
  maintain m w = maintain_hosts (ca.now w) m.hosts (ca.now w + acme_check_interval) m w

pub record Challenge : Type 0 where
  pub kind : Bytes
  pub token : Bytes
  pub url : Bytes

pub record Authorization : Type 0 where
  pub valid : Bool
  pub challenges : List Challenge

-- What authorize calls of the ACME client. The CA may ask for the tokens while a call runs.
pub record AcmeClient : Type 1 where
  pub World : Type 0
  pub get_authorization : Bytes → World → World × (Bytes ⊎ Authorization)
  pub get_key_authorization : Bytes → Bytes ⊎ Bytes
  pub complete_challenge : Bytes → Dict Bytes Bytes → World → World × Option Bytes
  pub wait_authorization : Bytes → Dict Bytes Bytes → World → World × Option Bytes

unfoldable pub find_http01 : List Challenge → Option Challenge
find_http01 [] = none
find_http01 (c ∷ cs) = if c.kind == str "http-01" then some c else find_http01 cs

module _ (client : AcmeClient) where
  -- The token is answered while the CA validates, and removed when authorize returns.
  unfoldable pub authorize :
      Bytes → Manager → client.World → (Manager × client.World) × Option Bytes
  authorize url m w =
      let (w1, result) = client.get_authorization url w in
      elim result [
        | inl err ↦ ((m, w1), some err)
        | inr authorization ↦
            if authorization.valid
            then ((m, w1), none)
            else elim (find_http01 authorization.challenges) [
              | none ↦ ((m, w1), some (str "no http-01 challenge"))
              | some c ↦ elim (client.get_key_authorization c.token) [
                | inl err ↦ ((m, w1), some err)
                | inr key ↦
                    let tokens = insert c.token key m.tokens in
                    let m' = record m { tokens = delete c.token tokens } in
                    let (w2, started) = client.complete_challenge c.url tokens w1 in
                    elim started [
                      | some err ↦ ((m', w2), some err)
                      | none ↦
                          let (w3, waited) = client.wait_authorization url tokens w2 in
                          ((m', w3), waited)
                    ]
              ]
            ]
      ]
