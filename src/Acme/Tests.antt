-- ===== src/Acme/Tests.antt =====
-- One host whose certificate is current, and instances of the theorems.
use yabber.Base.{
  subst, arith, ℕ, suc, ◌+◌, ◌*◌, min, ◌++◌, ◌≤◌, ◌≡◌, refl, true, false, none, some, [], ◌∷◌, ◌⊎◌,
  inl, inr, Bytes, str, bytes_eq, lookup, insert, delete,
}
use yabber.Acme.{
  Manager, Leaf, Ca, AcmeClient, challenge, authorize, find_http01, maintain, certificate, renew_at,
  retry_at, set_hosts, record_failure, delay, acme_min_retry, acme_max_retry, acme_reload_retry,
  acme_check_interval,
}
use yabber.Acme.Backoff.{delay-doubles, set_hosts-record_failure}
use yabber.Acme.Maintain.{Listed, NotDue, Waits, maintain-NotDue, maintain≤interval}
use yabber.Acme.Challenges.{challenge-authorize}

abbrev sample_manager : Manager
sample_manager = record {
  hosts = str "example.com" ∷ [];
  certs = (str "example.com", record { not_before = 0; not_after = 90 }) ∷ [];
  failures = [];
  tokens = (str "t0", str "k0") ∷ [];
  wake = false;
}

abbrev sample_ca : Ca
sample_ca = record { World = ℕ; now = λ w. w; done = λ w. false }

abbrev no_obtain : Bytes → Manager → ℕ → (Manager × ℕ) × (Bytes ⊎ Leaf)
no_obtain host m w = ((m, suc w), inl (str "unreachable"))

abbrev sample_client : AcmeClient
sample_client = record {
  World = ℕ;
  get_authorization = λ url w. (
    suc w,
    inr (record {
      valid = false;
      challenges = record { kind = str "http-01"; token = str "t1"; url = url } ∷ [];
    }),
  );
  get_key_authorization = λ token. inr (token ++ str ".thumb");
  complete_challenge = λ url tokens w. (suc w, none);
  wait_authorization = λ url tokens w. (suc w, none);
}

delay-doubles_example : (delay 1 ≡ acme_min_retry) × (delay 10 ≡ min (2 * delay 9) acme_max_retry)
delay-doubles_example = delay-doubles 8

set_hosts-record_failure_example :
    (retry_at (str "b.org") (
        set_hosts
          (λ _. none)
          (str "b.org" ∷ [])
          true
          (record_failure (str "b.org") (str "dns") 100 sample_manager).0)
      ≡ 100 + acme_reload_retry)
    × ((record_failure (str "b.org") (str "dns") 200 (
          set_hosts
            (λ _. none)
            (str "b.org" ∷ [])
            true
            (record_failure (str "b.org") (str "dns") 100 sample_manager).0)).1
        ≡ 200 + acme_min_retry)
set_hosts-record_failure_example =
    set_hosts-record_failure (λ _. none) (str "b.org" ∷ []) (str "b.org") (str "dns") (str "dns")
      100 200 sample_manager

maintain≤interval_example :
    (maintain sample_ca no_obtain sample_manager 70).1 ≤ 70 + acme_check_interval
maintain≤interval_example = maintain≤interval sample_ca no_obtain sample_manager 70

example_com-NotDue :
    (host : Bytes)
    → Listed sample_ca no_obtain host sample_manager.hosts
    → NotDue sample_ca no_obtain 10 sample_manager host
unfolding certificate lookup renew_at
example_com-NotDue host (inl same) =
    subst (NotDue sample_ca no_obtain 10 sample_manager) same (inl (_, refl, omega arith))
example_com-NotDue host (inr none_left) = absurd none_left

maintain-NotDue_example :
    (t : ℕ) × (maintain sample_ca no_obtain sample_manager 10 ≡ ((sample_manager, 10), t))
    × (t ≤ 10 + acme_check_interval)
    × ((host : Bytes)
        → Listed sample_ca no_obtain host sample_manager.hosts
        → (u : ℕ) × Waits sample_ca no_obtain 10 sample_manager host u × (t ≤ u))
    × ((t ≡ 10 + acme_check_interval)
        ⊎ ((host : Bytes) × Listed sample_ca no_obtain host sample_manager.hosts
            × Waits sample_ca no_obtain 10 sample_manager host t))
maintain-NotDue_example =
    maintain-NotDue sample_ca no_obtain sample_manager 10 refl example_com-NotDue

challenge-authorize_example : challenge (str "t0") sample_manager ≡ some (str "k0")
unfolding authorize challenge find_http01 lookup insert delete
challenge-authorize_example =
    challenge-authorize sample_client (str "u") (str "t0") (str "k0") sample_manager 0 refl
