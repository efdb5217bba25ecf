-- ===== src/Policies/Slots.antt =====
-- Concurrency slots: every slot that a request takes is free again when its handler has returned or
-- panicked.
use yabber.Base.{
  ℕ, ◌+◌, ◌-◌, ◌≡◌, ◌≤◌, refl, ap, ◌∙◌, if◌then◌else◌, Option, none, some, List, [], ◌∷◌, ltb, ◌⊎◌,
  inl, inr, Bytes, bytes_eq, nat_eq, ◌==◌, ==_iff, ==_refl, Dict, lookup, insert, lookup-insert,
  subst, ltb→lt, arith, Bool-cases,
}
use yabber.RateLimit.{Rates}
use yabber.Policies.{
  RequestState, Request, Middleware, timeout, body_limit, rate_limit, concurrency, mark_applied,
  Shared, Handler, run_middleware, chain, CompiledPolicy, wrap, apply_policies, count_request, used,
  take_slot, free_slot,
}

module _ (r : Rates) where
  -- A handler that leaves as many slots used as it found, for every policy.
  abbrev pub Balanced : Handler r → Type 0
  Balanced h = (q : Request) (s : Shared r) (id : ℕ) → used r id (h q s).slots ≡ used r id s.slots

  count_request-slots :
      (id : ℕ) (q : Request) (s : Shared r) → (count_request r id q s).0.slots ≡ s.slots
  unfolding count_request
  count_request-slots id q s = ground arith

  used-insert :
      (id j n : ℕ) (m : Dict ℕ ℕ) → used r j (insert id n m) ≡ (if id == j then n else used r j m)
  unfolding used
  used-insert id j n m = ground (arith, lookup-insert id j n m)

  -- A slot is taken before the handler and freed behind it.
  slot-Balanced :
      (id : ℕ) (h : Handler r) (q : Request) (s : Shared r) (j : ℕ)
      → Balanced h
      → used r j (free_slot r id (h q (take_slot r id s))).slots ≡ used r j s.slots
  unfolding take_slot free_slot
  slot-Balanced id h q s j b =
      let taken : Shared r = record s { slots = insert id (used r id s.slots + 1) s.slots } in
      ground (
        arith,
        used-insert id j (used r id (h q taken).slots - 1) (h q taken).slots,
        used-insert id j (used r id s.slots + 1) s.slots,
        used-insert id id (used r id s.slots + 1) s.slots,
        b q taken j,
        b q taken id,
        ==_iff id j,
        ==_refl id,
      )

  run_middleware-Balanced :
      (m : Middleware) (h : Handler r) → Balanced h → Balanced (run_middleware r m h)
  unfolding run_middleware
  run_middleware-Balanced (timeout d) h b q s j = b _ s j
  run_middleware-Balanced (body_limit policy limit) h b q s j =
      ground (arith, b (record q { body_limits = limit ∷ q.body_limits }) s j)
  run_middleware-Balanced (rate_limit policy id seconds) h b q s j =
      elim (Bool-cases (count_request r id q s).1) [
        | inl e ↦
            rw e (b q (count_request r id q s).0 j ∙ ap (used r j) (count_request-slots id q s))
        | inr e ↦ rw e (ap (used r j) (count_request-slots id q s))
      ]
  run_middleware-Balanced (concurrency policy id max) h b q s j =
      elim (Bool-cases (ltb (used r id s.slots) max)) [
        | inl e ↦ rw e (slot-Balanced id h q s j b)
        | inr e ↦ rw e refl
      ]

  chain-Balanced : (ms : List Middleware) (h : Handler r) → Balanced h → Balanced (chain r h ms)
  unfolding chain
  chain-Balanced [] h b = b
  chain-Balanced (m ∷ ms) h b = run_middleware-Balanced m (chain r h ms) (chain-Balanced ms h b)

  wrap-Balanced : (p : CompiledPolicy r) (h : Handler r) → Balanced h → Balanced (wrap r p h)
  unfolding wrap
  wrap-Balanced p h b q s j = by_state s.state
    where
      by_mark :
          (st : RequestState) (o : Option RequestState)
          → mark_applied p.definition.name st ≡ o
          → used r j (wrap r p h q (record s { state = some st })).slots ≡ used r j s.slots
      by_mark st none m = rw (m, wrap) (b q (record s { state = some st }) j)
      by_mark st (some st') m =
          rw (m, wrap) (chain-Balanced p.middleware h b q (record s { state = some st' }) j)

      by_state :
          (o : Option RequestState)
          → used r j (wrap r p h q (record s { state = o })).slots ≡ used r j s.slots
      by_state none = chain-Balanced p.middleware h b q (record s { state = none }) j
      by_state (some st) = by_mark st (mark_applied p.definition.name st) refl

  abbrev BalancedResult : Handler r ⊎ Bytes → Type 0
  BalancedResult (inl h) = Balanced h
  BalancedResult (inr unknown) = Unit

  apply_policies-BalancedResult :
      (h : Handler r) (names : List Bytes) (policies : Dict Bytes (CompiledPolicy r))
      → Balanced h
      → BalancedResult (apply_policies r h names policies)
  unfolding apply_policies
  apply_policies-BalancedResult h [] policies b = b
  apply_policies-BalancedResult h (name ∷ names) policies b =
      by_rest (apply_policies r h names policies) (lookup name policies)
        (apply_policies-BalancedResult h names policies b)
    where
      by_rest :
          (rest : Handler r ⊎ Bytes) (found : Option (CompiledPolicy r))
          → BalancedResult rest
          → BalancedResult (elim rest [
            | inr unknown ↦ inr unknown
            | inl inner ↦ elim found [ none ↦ inr name | some p ↦ inl (wrap r p inner) ]
          ])
      by_rest (inr unknown) found c = tt
      by_rest (inl inner) none c = tt
      by_rest (inl inner) (some p) c = wrap-Balanced p inner c

  -- Whatever policies wrap a handler that leaves the used slots as it found them, whether it returns
  -- or panics, so does the result: every slot that a request takes is free again when it has been
  -- served or refused, or when serving it has panicked.
  pub apply_policies-Balanced :
      (h k : Handler r) (names : List Bytes) (policies : Dict Bytes (CompiledPolicy r))
      → Balanced h
      → apply_policies r h names policies ≡ inl k
      → Balanced k
  apply_policies-Balanced h k names policies b e =
      subst BalancedResult e (apply_policies-BalancedResult h names policies b)

  -- The handler behind a concurrency limit is entered only with at most max slots used, its own
  -- included: two handlers that do the same there do the same behind the limit, for every request.
  pub concurrency_bound :
      (policy : Bytes) (id max : ℕ) (h h' : Handler r)
      → ((q : Request) (s : Shared r) → used r id s.slots ≤ max → h q s ≡ h' q s)
      → (q : Request) (s : Shared r)
      → run_middleware r (concurrency policy id max) h q s
        ≡ run_middleware r (concurrency policy id max) h' q s
  unfolding run_middleware take_slot
  concurrency_bound policy id max h h' e q s = elim (Bool-cases (ltb (used r id s.slots) max)) [
    | inl room ↦ rw room (
        ap (free_slot r id) (
          e q (take_slot r id s) (
            ground (
              arith,
              used-insert id id (used r id s.slots + 1) s.slots,
              ==_refl id,
              ltb→lt _ _ room,
            ))))
    | inr full ↦ rw full refl
  ]
