-- ===== src/Policies/Tests.antt =====
-- A policy of one slot and one of a body limit, and instances of the theorems on them.
use yabber.Base.{
  ℕ, ◌≡◌, refl, ap, Bool, true, false, leb, if◌then◌else◌, ◌≤◌, arith, Option, none, some, [], ◌∷◌,
  Bytes, str, pos, lookup, insert, any, ◌==◌, bytes_eq, nat_eq, inl,
}
use yabber.Config.{Policy}
use yabber.RateLimit.Tests.{sample_rates}
use yabber.Policies.{
  RequestState, Request, Shared, Handler, concurrency, body_limit, CompiledPolicy, wrap,
  run_middleware, apply_policies, used, mark_applied, chain, take_slot, free_slot,
}
use yabber.Policies.Once.{wrap_once, under_policies}
use yabber.Policies.Compile.{
  compile_policies, compile_from, compile_policy, reusable, request_middleware, limiter_middleware,
  concurrency_middleware,
}
use yabber.Policies.Reuse.{lookup-compile_policies}
use yabber.Policies.Slots.{Balanced, apply_policies-Balanced, concurrency_bound}

abbrev pub no_policy : Bytes → Policy
no_policy name = record { name = name; request = none; rate_limit = none; concurrency = none }

abbrev pub one_slot : CompiledPolicy sample_rates
one_slot = record {
  definition = no_policy (str "login");
  middleware = concurrency (str "login") 7 1 ∷ [];
  id = 7;
  limiter = none;
}

abbrev small_body : CompiledPolicy sample_rates
small_body = record {
  definition = no_policy (str "small");
  middleware = body_limit (str "small") 10 ∷ [];
  id = 8;
  limiter = none;
}

abbrev answer : Handler sample_rates
answer q s = record s { response = record s.response { status = some 200 } }

abbrev pub sample_request : Request
sample_request = record {
  host = str "docs.example";
  url = record { path = str "/"; raw_path = []; raw_query = [] };
  content_length = pos 5;
  now = 0;
  deadline = none;
  body_limits = [];
}

abbrev sample_state : RequestState
sample_state = record {
  id = str "1";
  listener = str "http";
  site = str "docs";
  route = str "/";
  client_key = str "10.0.0.1";
  trusted_peer = false;
  rejected_by = [];
  applied = [];
}

abbrev pub sample_shared : Shared sample_rates
sample_shared = record {
  state = some sample_state;
  response = record { status = none; retry_after = none; location = none; headers = []; body = [] };
  limiters = [];
  slots = [];
  panicking = false;
}

abbrev status_of : Shared sample_rates → Option ℕ
status_of s = s.response.status

-- With one slot, the second of two nested applications would be refused if it counted.
nested :
    status_of
      (wrap sample_rates one_slot (wrap sample_rates one_slot answer) sample_request sample_shared)
    ≡ some 200
unfolding wrap mark_applied chain run_middleware used take_slot free_slot any lookup insert
nested = refl

wrap_once_example :
    wrap sample_rates one_slot
      (under_policies sample_rates (wrap sample_rates one_slot answer) (small_body ∷ []))
      sample_request
      sample_shared
    ≡ wrap sample_rates one_slot
        (under_policies sample_rates answer (small_body ∷ []))
        sample_request
        sample_shared
wrap_once_example =
    wrap_once sample_rates one_slot (small_body ∷ []) answer sample_request sample_shared
      sample_state refl

-- Panics, with the slots as they were.
abbrev panic : Handler sample_rates
panic q s = record s { panicking = true }

apply_policies-Balanced_example : Balanced sample_rates (wrap sample_rates one_slot panic)
unfolding apply_policies lookup
apply_policies-Balanced_example =
    apply_policies-Balanced sample_rates panic (wrap sample_rates one_slot panic) (str "login" ∷ [])
      ((str "login", one_slot) ∷ []) (λ q s id. refl) refl

-- Answers while one slot is used, and panics when more are.
abbrev at_most_one : Handler sample_rates
at_most_one q s =
    if leb (used sample_rates 7 s.slots) 1 then answer q s else record s { panicking = true }

at_most_one-answer :
    (q : Request) (s : Shared sample_rates)
    → used sample_rates 7 s.slots ≤ 1
    → at_most_one q s ≡ answer q s
at_most_one-answer q s room =
    ap (λ b. if b then answer q s else record s { panicking = true }) (within room)
  where
    within : used sample_rates 7 s.slots ≤ 1 → leb (used sample_rates 7 s.slots) 1 ≡ true
    within room = ground arith

concurrency_bound_example :
    run_middleware sample_rates
      (concurrency (str "login") 7 1)
      at_most_one
      sample_request
      sample_shared
    ≡ run_middleware sample_rates
        (concurrency (str "login") 7 1)
        answer
        sample_request
        sample_shared
concurrency_bound_example =
    concurrency_bound sample_rates (str "login") 7 1 at_most_one answer at_most_one-answer
      sample_request sample_shared

-- Two definitions are the same when the names are.
abbrev pub same_name : Policy → Policy → Bool
same_name p q = p.name == q.name

abbrev slots_policy : Policy
slots_policy = record (no_policy (str "slots")) { concurrency = some (record { max = pos 2 }) }

abbrev slots_compiled : CompiledPolicy sample_rates
slots_compiled = record {
  definition = slots_policy;
  middleware = concurrency (str "slots") 9 2 ∷ [];
  id = 9;
  limiter = none;
}

lookup-compile_policies_example :
    lookup (str "login") ((str "login", one_slot) ∷ (str "slots", slots_compiled) ∷ [])
    ≡ some one_slot
unfolding compile_policies compile_from compile_policy reusable request_middleware
    limiter_middleware concurrency_middleware lookup insert
lookup-compile_policies_example =
    lookup-compile_policies sample_rates same_name ((str "login", one_slot) ∷ [])
      (no_policy (str "login")) one_slot 9 (no_policy (str "login") ∷ slots_policy ∷ [])
      ((str "login", one_slot) ∷ (str "slots", slots_compiled) ∷ []) (inl refl) refl refl refl
