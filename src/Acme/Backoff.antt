-- ===== src/Acme/Backoff.antt =====
-- The backoff of failing hosts.
use yabber.Base.{
  ℕ, zero, suc, ap, ◌∙◌, ◌+◌, ◌-◌, ◌*◌, ◌^◌, ◌≤◌, min, ◌≡◌, refl, true, Option, none, some, List,
  [], ◌∷◌, Bytes, bytes_eq, Dict, lookup, lookup-insert_self, arith,
}
use yabber.Acme.{
  Manager, AcmeFailure, Leaf, acme_min_retry, acme_max_retry, acme_reload_retry, delay,
  record_failure, failures_of, earliest, reset_failures, retry_at, set_hosts,
}

shift_bound : (count : ℕ) → 11 ≤ count → min (count - 1) 10 ≡ 10
shift_bound count h = ground arith

delay_late : (count : ℕ) → 11 ≤ count → delay count ≡ acme_max_retry
unfolding delay
delay_late count h = rw (shift_bound count h) refl

-- The wait after a number of failures in a row starts at five minutes and doubles with each failure,
-- up to twelve hours.
pub delay-doubles :
    (count : ℕ)
    → (delay 1 ≡ acme_min_retry) × (delay (count + 2) ≡ min (2 * delay (count + 1)) acme_max_retry)
unfolding delay
delay-doubles zero = (refl, refl)
delay-doubles (suc zero) = (refl, refl)
delay-doubles (suc (suc zero)) = (refl, refl)
delay-doubles (suc (suc (suc zero))) = (refl, refl)
delay-doubles (suc (suc (suc (suc zero)))) = (refl, refl)
delay-doubles (suc (suc (suc (suc (suc zero))))) = (refl, refl)
delay-doubles (suc (suc (suc (suc (suc (suc zero)))))) = (refl, refl)
delay-doubles (suc (suc (suc (suc (suc (suc (suc zero))))))) = (refl, refl)
delay-doubles (suc (suc (suc (suc (suc (suc (suc (suc zero)))))))) = (refl, refl)
delay-doubles (suc (suc (suc (suc (suc (suc (suc (suc (suc zero))))))))) = (refl, refl)
delay-doubles (suc (suc (suc (suc (suc (suc (suc (suc (suc (suc k)))))))))) =
    let count : ℕ = suc (suc (suc (suc (suc (suc (suc (suc (suc (suc k))))))))) in
    (refl, rw (delay_late (count + 2) (omega arith), delay_late (count + 1) (omega arith)) refl)

one≤pow : (k : ℕ) → 1 ≤ 2 ^ k
one≤pow zero = omega arith
one≤pow (suc k) = omega (arith, one≤pow k)

min≤delay : (count : ℕ) → acme_min_retry ≤ delay count
unfolding delay
min≤delay count = ground (arith, one≤pow (min (count - 1) 10))

abbrev after_reload : Option AcmeFailure → Option AcmeFailure
after_reload none = none
after_reload (some f) =
    some (record f { count = 0; retry_at = earliest f.retry_at (f.failed_at + acme_reload_retry) })

lookup-reset_failures :
    (host : Bytes) (failures : Dict Bytes AcmeFailure)
    → lookup host (reset_failures failures) ≡ after_reload (lookup host failures)
unfolding lookup reset_failures
lookup-reset_failures host [] = refl
lookup-reset_failures host ((k, f) ∷ failures) = ground (arith, lookup-reset_failures host failures)

failure-record_failure :
    (host err : Bytes) (now : ℕ) (m : Manager)
    → (f : AcmeFailure) × (lookup host (record_failure host err now m).0.failures ≡ some f)
      × (f.failed_at ≡ now)
      × (now + acme_min_retry ≤ f.retry_at)
unfolding record_failure
failure-record_failure host err now m =
    let count : ℕ = failures_of (lookup host m.failures) + 1 in
    (_, lookup-insert_self host _ m.failures, refl, omega (arith, min≤delay count))

-- When a host fails and the configuration is reloaded afterwards, at whatever hosts, the host is
-- retried exactly one minute after the failure, and the next failure counts as the first.
pub set_hosts-record_failure :
    (stored : Bytes → Option Leaf) (hosts : List Bytes) (host err err' : Bytes) (now later : ℕ)
    (m : Manager)
    → (retry_at host (set_hosts stored hosts true (record_failure host err now m).0)
        ≡ now + acme_reload_retry)
      × ((record_failure host err' later
            (set_hosts stored hosts true (record_failure host err now m).0)).1
          ≡ later + acme_min_retry)
set_hosts-record_failure stored hosts host err err' now later m =
    let (f, found, at, due) = failure-record_failure host err now m in
    let found' : lookup host (reset_failures (record_failure host err now m).0.failures)
        ≡ after_reload (some f) =
      lookup-reset_failures host (record_failure host err now m).0.failures
      ∙ ap after_reload found in
    (
      unfold set_hosts in (retry_found _ _ found') ∙ unfold earliest in (ground (arith, at, due)),
      unfold set_hosts in (next _ f _ found'),
    )
  where
    retry_found :
        (m' : Manager) (f : AcmeFailure)
        → lookup host m'.failures ≡ some f
        → retry_at host m' ≡ f.retry_at
    retry_found m' f h = unfold retry_at in (rw (h, retry_at) refl)

    next :
        (m' : Manager) (f : AcmeFailure) (at : ℕ)
        → lookup host m'.failures ≡ some (record f { count = 0; retry_at = at })
        → (record_failure host err' later m').1 ≡ later + acme_min_retry
    next m' f at h = unfold record_failure delay in (rw h refl)
