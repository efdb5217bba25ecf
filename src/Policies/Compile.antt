-- ===== src/Policies/Compile.antt =====
-- policy.go: compiling the policies of a configuration. A policy that is compiled anew gets the next
-- number; one whose definition is unchanged is taken over with its number, so its state goes on.
use yabber.Base.{
  ℕ, ◌+◌, Bool, ◌&&◌, ◌||◌, if◌then◌else◌, Option, none, some, List, [], ◌∷◌, ◌++◌, ◌⊎◌, inl, inr,
  Bytes, bytes_eq, ◌==◌, Dict, lookup, insert, ℤ, pos, negsuc, is_neg, eqb_ℤ, ltb_ℤ,
}
use yabber.Config.{Policy, RequestPolicy, RateLimitPolicy, ConcurrencyPolicy}
use yabber.RateLimit.{Rates, RateLimiter, LimitError, new_limiter}
use yabber.RateLimit
use yabber.Policies.{Middleware, timeout, body_limit, rate_limit, concurrency, CompiledPolicy}

pub data CompileError : Type 0 where
  name_required negative_limits no_request_limit max_not_positive no_limits : CompileError
  duplicate_name : Bytes → CompileError
  limiter_error : LimitError → CompileError

abbrev to_ℕ : ℤ → ℕ
to_ℕ (pos n) = n
to_ℕ (negsuc n) = 0

unfoldable pub request_middleware : Bytes → Option RequestPolicy → CompileError ⊎ List Middleware
request_middleware name none = inr []
request_middleware name (some config) =
    if is_neg config.max_body_bytes || is_neg config.timeout
    then inl negative_limits
    else if eqb_ℤ config.max_body_bytes (pos 0) && eqb_ℤ config.timeout (pos 0)
    then inl no_request_limit
    else inr (
        (if ltb_ℤ (pos 0) config.timeout then timeout (to_ℕ config.timeout) ∷ [] else [])
        ++ (if ltb_ℤ (pos 0) config.max_body_bytes
            then body_limit name (to_ℕ config.max_body_bytes) ∷ []
            else []))

unfoldable pub concurrency_middleware :
    Bytes → ℕ → Option ConcurrencyPolicy → CompileError ⊎ List Middleware
concurrency_middleware name id none = inr []
concurrency_middleware name id (some config) =
    if ltb_ℤ (pos 0) config.max
    then inr (concurrency name id (to_ℕ config.max) ∷ [])
    else inl max_not_positive

module _ (r : Rates) where
  unfoldable pub limiter_middleware :
      Bytes → ℕ → Option RateLimitPolicy → CompileError ⊎ (List Middleware × Option (RateLimiter r))
  limiter_middleware name id none = inr ([], none)
  limiter_middleware name id (some config) = elim (new_limiter r name config) [
    | RateLimit.err e ↦ inl (limiter_error e)
    | RateLimit.ok l ↦ inr (rate_limit name id l.retry_after ∷ [], some l)
  ]

  abbrev with_middleware :
      Policy → ℕ → List Middleware → Option (RateLimiter r) → CompileError ⊎ CompiledPolicy r
  with_middleware policy id [] l = inl no_limits
  with_middleware policy id (m ∷ ms) l =
      inr (record { definition = policy; middleware = m ∷ ms; id = id; limiter = l })

  unfoldable pub compile_policy : ℕ → Policy → CompileError ⊎ CompiledPolicy r
  compile_policy id policy = elim (request_middleware policy.name policy.request) [
    | inl e ↦ inl e
    | inr requests ↦ elim (limiter_middleware policy.name id policy.rate_limit) [
      | inl e ↦ inl e
      | inr (rates, l) ↦ elim (concurrency_middleware policy.name id policy.concurrency) [
        | inl e ↦ inl e
        | inr slots ↦ with_middleware policy id (requests ++ (rates ++ slots)) l
      ]
    ]
  ]

  module _ (same : Policy → Policy → Bool) (prev : Dict Bytes (CompiledPolicy r)) where
    -- The previous policy of that name, if its definition is the same.
    unfoldable pub reusable : Policy → Option (CompiledPolicy r)
    reusable policy = elim (lookup policy.name prev) [
      | none ↦ none
      | some existing ↦ if same existing.definition policy then some existing else none
    ]

    unfoldable pub compile_from :
        ℕ
        → List Policy
        → Dict Bytes (CompiledPolicy r)
        → CompileError ⊎ Dict Bytes (CompiledPolicy r)
    compile_from next [] result = inr result
    compile_from next (policy ∷ input) result =
        if policy.name == [] then inl name_required else elim (lookup policy.name result) [
          | some _ ↦ inl (duplicate_name policy.name)
          | none ↦ elim (reusable policy) [
            | some existing ↦ compile_from next input (insert policy.name existing result)
            | none ↦ elim (compile_policy next policy) [
              | inl e ↦ inl e
              | inr compiled ↦ compile_from (next + 1) input (insert policy.name compiled result)
            ]
          ]
        ]

    -- `next` is the first number that is not in use.
    unfoldable pub compile_policies : ℕ → List Policy → CompileError ⊎ Dict Bytes (CompiledPolicy r)
    unfolding compile_from
    compile_policies next input = compile_from next input []
