-- ===== src/Policies/Once.antt =====
-- A policy that is reached from several scopes acts once on a request.
use yabber.Base.{
  ℕ, ◌≡◌, refl, sym, ◌∙◌, true, none, some, List, [], ◌∷◌, any, inl, inr, Bytes, bytes_eq, nat_eq,
  ◌==◌, ==_refl, Dict, lookup, arith, Option-cases,
}
use yabber.RateLimit.{Rates}
use yabber.Policies.{
  RequestState, Request, Middleware, timeout, body_limit, rate_limit, concurrency, mark_applied,
  Shared, Handler, run_middleware, chain, CompiledPolicy, wrap, apply_policies, count_request,
  take_slot,
}

module _ (r : Rates) where
  -- The policy is recorded in the state of the request.
  pub Applied : Bytes → Shared r → Type 0
  Applied name s =
      (st : RequestState) × (s.state ≡ some st) × (any (λ p. p == name) st.applied ≡ true)

  -- Two handlers that do the same once the policy is recorded.
  abbrev Agree : Bytes → Handler r → Handler r → Type 0
  Agree name h h' = (q : Request) (s : Shared r) → Applied name s → h q s ≡ h' q s

  count_request-state :
      (id : ℕ) (q : Request) (s : Shared r) → (count_request r id q s).0.state ≡ s.state
  unfolding count_request
  count_request-state id q s = ground arith

  run_middleware-Agree :
      (name : Bytes) (m : Middleware) (h h' : Handler r)
      → Agree name h h'
      → Agree name (run_middleware r m h) (run_middleware r m h')
  unfolding run_middleware Applied
  run_middleware-Agree name (timeout d) h h' e q s a = e _ s a
  run_middleware-Agree name (body_limit policy limit) h h' e q s a =
      cc (e (record q { body_limits = limit ∷ q.body_limits }) s a)
  run_middleware-Agree name (rate_limit policy id seconds) h h' e q s (st, known, a) =
      cc (e q (count_request r id q s).0 (st, count_request-state id q s ∙ known, a))
  run_middleware-Agree name (concurrency policy id max) h h' e q s a = cc (e q (take_slot r id s) a)

  chain-Agree :
      (name : Bytes) (ms : List Middleware) (h h' : Handler r)
      → Agree name h h'
      → Agree name (chain r h ms) (chain r h' ms)
  unfolding chain
  chain-Agree name [] h h' e = e
  chain-Agree name (m ∷ ms) h h' e =
      run_middleware-Agree name m (chain r h ms) (chain r h' ms) (chain-Agree name ms h h' e)

  mark_applied-keeps :
      (name policy : Bytes) (st st' : RequestState)
      → mark_applied policy st ≡ some st'
      → any (λ p. p == name) st.applied ≡ true
      → any (λ p. p == name) st'.applied ≡ true
  unfolding mark_applied any
  mark_applied-keeps name policy st st' h a = ground arith

  mark_applied_self :
      (policy : Bytes) (st st' : RequestState)
      → mark_applied policy st ≡ some st'
      → any (λ p. p == policy) st'.applied ≡ true
  unfolding mark_applied any
  mark_applied_self policy st st' h = ground (arith, ==_refl policy)

  wrap_known :
      (p : CompiledPolicy r) (h : Handler r) (q : Request) (s : Shared r) (st : RequestState)
      → s.state ≡ some st
      → mark_applied p.definition.name st ≡ none
      → wrap r p h q s ≡ h q s
  unfolding wrap
  wrap_known p h q s st known m = ground arith

  wrap_new :
      (p : CompiledPolicy r) (h : Handler r) (q : Request) (s : Shared r) (st st' : RequestState)
      → s.state ≡ some st
      → mark_applied p.definition.name st ≡ some st'
      → wrap r p h q s ≡ chain r h p.middleware q (record s { state = some st' })
  unfolding wrap
  wrap_new p h q s st st' known m = ground arith

  wrap-Agree :
      (name : Bytes) (p : CompiledPolicy r) (h h' : Handler r)
      → Agree name h h'
      → Agree name (wrap r p h) (wrap r p h')
  unfolding Applied
  wrap-Agree name p h h' e q s (st, known, a) =
      elim (Option-cases (mark_applied p.definition.name st)) [
        | inl m ↦
            wrap_known p h q s st known m
            ∙ e q s (st, known, a)
            ∙ sym (wrap_known p h' q s st known m)
        | inr (st', m) ↦
            wrap_new p h q s st st' known m
            ∙ chain-Agree name p.middleware h h' e q (record s { state = some st' })
                (st', refl, mark_applied-keeps name p.definition.name st st' m a)
            ∙ sym (wrap_new p h' q s st st' known m)
      ]

  -- Once recorded, a policy lets its handler run as it is.
  wrap_applied : (p : CompiledPolicy r) (h : Handler r) → Agree p.definition.name (wrap r p h) h
  unfolding Applied mark_applied
  wrap_applied p h q s (st, known, a) = wrap_known p h q s st known (rw a refl)

  -- The handler under the policies of inner scopes.
  unfoldable pub under_policies : Handler r → List (CompiledPolicy r) → Handler r
  under_policies h [] = h
  under_policies h (p ∷ ps) = wrap r p (under_policies h ps)

  under_policies-Agree :
      (name : Bytes) (ps : List (CompiledPolicy r)) (h h' : Handler r)
      → Agree name h h'
      → Agree name (under_policies h ps) (under_policies h' ps)
  unfolding under_policies
  under_policies-Agree name [] h h' e = e
  under_policies-Agree name (p ∷ ps) h h' e =
      wrap-Agree name p (under_policies h ps) (under_policies h' ps)
        (under_policies-Agree name ps h h' e)

  -- For a request with a state, a policy that wraps a handler applies once: if it wraps the handler
  -- again further in, under any policies in between, the inner wrapping makes no difference.
  pub wrap_once :
      (p : CompiledPolicy r) (between : List (CompiledPolicy r)) (h : Handler r) (q : Request)
      (s : Shared r) (st : RequestState)
      → s.state ≡ some st
      → wrap r p (under_policies (wrap r p h) between) q s ≡ wrap r p (under_policies h between) q s
  wrap_once p between h q s st known = elim (Option-cases (mark_applied p.definition.name st)) [
    | inl m ↦
        wrap_known p _ q s st known m ∙ inner q s (recorded m) ∙ sym (wrap_known p _ q s st known m)
    | inr (st', m) ↦
        wrap_new p _ q s st st' known m
        ∙ chain-Agree p.definition.name p.middleware _ _ inner q (record s { state = some st' })
            (unfold Applied in (st', refl, mark_applied_self p.definition.name st st' m))
        ∙ sym (wrap_new p _ q s st st' known m)
  ]
    where
      inner :
          Agree p.definition.name (under_policies (wrap r p h) between) (under_policies h between)
      inner = under_policies-Agree p.definition.name between (wrap r p h) h (wrap_applied p h)

      recorded : mark_applied p.definition.name st ≡ none → Applied p.definition.name s
      recorded m = unfold Applied mark_applied in (st, known, ground arith)

  -- apply_policies is that nesting of the policies it finds under the names.
  abbrev Found : Dict Bytes (CompiledPolicy r) → List Bytes → List (CompiledPolicy r) → Type 0
  Found policies [] [] = Unit
  Found policies [] (p ∷ ps) = ⊥
  Found policies (name ∷ names) [] = ⊥
  Found policies (name ∷ names) (p ∷ ps) = (lookup name policies ≡ some p) × Found policies names ps

  pub apply_policies-under_policies :
      (h : Handler r) (names : List Bytes) (policies : Dict Bytes (CompiledPolicy r))
      (ps : List (CompiledPolicy r))
      → Found policies names ps
      → apply_policies r h names policies ≡ inl (under_policies h ps)
  unfolding apply_policies under_policies
  apply_policies-under_policies h [] policies [] f = refl
  apply_policies-under_policies h [] policies (p ∷ ps) f = absurd f
  apply_policies-under_policies h (name ∷ names) policies [] f = absurd f
  apply_policies-under_policies h (name ∷ names) policies (p ∷ ps) f =
      rw (apply_policies-under_policies h names policies ps f.1) (rw (f.0) refl)
