-- ===== src/Policies/Reuse.antt =====
-- A policy whose definition is unchanged goes on with its state after a reload.
use yabber.Base.{
  ℕ, ◌+◌, ◌≡◌, ◌⊎◌, inl, inr, refl, sym, ap, ◌∙◌, subst, Bool, true, none, some, List, [], ◌∷◌,
  Bytes, bytes_eq, ◌==◌, ==_iff, Dict, lookup, insert, lookup-insert, lookup-insert_self, arith,
  Bool-cases, Option-cases, Sum-cases,
}
use yabber.Config.{Policy}
use yabber.RateLimit.{Rates}
use yabber.Policies.{CompiledPolicy}
use yabber.Policies.Compile.{CompileError, compile_from, compile_policies, compile_policy, reusable}

abbrev pub Member : Policy → List Policy → Type 0
Member p [] = ⊥
Member p (q ∷ qs) = (q ≡ p) ⊎ Member p qs

module _ (r : Rates) (same : Policy → Policy → Bool) (prev : Dict Bytes (CompiledPolicy r)) where
  abbrev Result : Type 0
  Result = CompileError ⊎ Dict Bytes (CompiledPolicy r)

  abbrev Holds : Bytes → CompiledPolicy r → Result → Type 0
  Holds name p (inl e) = Unit
  Holds name p (inr result) = lookup name result ≡ some p

  -- What is compiled under a name stays: a second policy of the name is an error.
  compile_from-keeps :
      (name : Bytes) (p : CompiledPolicy r) (next : ℕ) (input : List Policy)
      (result : Dict Bytes (CompiledPolicy r))
      → lookup name result ≡ some p
      → Holds name p (compile_from r same prev next input result)
  unfolding compile_from
  compile_from-keeps name p next [] result h = h
  compile_from-keeps name p next (policy ∷ input) result h = elim (Bool-cases (policy.name == [])) [
    | inl e ↦ rw (e, compile_from) tt
    | inr e ↦ elim (Option-cases (lookup policy.name result)) [
      | inr (old, f) ↦ rw (e, f, compile_from) tt
      | inl f ↦ elim (Option-cases (reusable r same prev policy)) [
        | inr (existing, u) ↦
            rw (e, f, u, compile_from)
              (compile_from-keeps name p next input (insert policy.name existing result)
                (other f existing))
        | inl u ↦ elim (Sum-cases (compile_policy r next policy)) [
          | inl (err, c) ↦ rw (e, f, u, c, compile_from) tt
          | inr (compiled, c) ↦
              rw (e, f, u, c, compile_from)
                (compile_from-keeps name p (next + 1) input (insert policy.name compiled result)
                  (other f compiled))
        ]
      ]
    ]
  ]
    where
      other :
          lookup policy.name result ≡ none
          → (q : CompiledPolicy r) → lookup name (insert policy.name q result) ≡ some p
      other f q = ground (arith, lookup-insert policy.name name q result, ==_iff policy.name name)

  compile_from-reuses :
      (policy : Policy) (p : CompiledPolicy r) (next : ℕ) (input : List Policy)
      (result : Dict Bytes (CompiledPolicy r))
      → reusable r same prev policy ≡ some p
      → Member policy input
      → Holds policy.name p (compile_from r same prev next input result)
  unfolding compile_from
  compile_from-reuses policy p next [] result h m = absurd m
  compile_from-reuses policy p next (q ∷ input) result h m = elim (Bool-cases (q.name == [])) [
    | inl e ↦ rw (e, compile_from) tt
    | inr e ↦ elim (Option-cases (lookup q.name result)) [
      | inr (old, f) ↦ rw (e, f, compile_from) tt
      | inl f ↦ elim (Option-cases (reusable r same prev q)) [
        | inr (existing, u) ↦
            rw (e, f, u, compile_from)
              (elim m [
                | inl is ↦
                    compile_from-keeps policy.name p next input (insert q.name existing result)
                      (here is existing u)
                | inr later ↦
                    compile_from-reuses policy p next input (insert q.name existing result) h later
              ])
        | inl u ↦ elim (Sum-cases (compile_policy r next q)) [
          | inl (err, c) ↦ rw (e, f, u, c, compile_from) tt
          | inr (compiled, c) ↦
              rw (e, f, u, c, compile_from)
                (elim m [
                  | inl is ↦ absurd (fresh is u)
                  | inr later ↦
                      compile_from-reuses policy p (next + 1) input (insert q.name compiled result)
                        h later
                ])
        ]
      ]
    ]
  ]
    where
      here :
          q ≡ policy
          → (existing : CompiledPolicy r) → reusable r same prev q ≡ some existing
          → lookup policy.name (insert q.name existing result) ≡ some p
      here is existing u =
          subst (λ name. lookup name (insert q.name existing result) ≡ some p) (ap (λ t. t.name) is)
            (lookup-insert_self q.name existing result
              ∙ (sym u ∙ (ap (reusable r same prev) is ∙ h)))

      fresh : q ≡ policy → reusable r same prev q ≡ none → ⊥
      fresh is u = ground (arith, ap (reusable r same prev) is, h, u)

  -- When the policies of a configuration compile, each whose definition is the same as that of the
  -- previous policy of its name is that previous policy, with its number, limiter and slots.
  pub lookup-compile_policies :
      (policy : Policy) (p : CompiledPolicy r) (next : ℕ) (input : List Policy)
      (result : Dict Bytes (CompiledPolicy r))
      → Member policy input
      → lookup policy.name prev ≡ some p
      → same p.definition policy ≡ true
      → compile_policies r same prev next input ≡ inr result
      → lookup policy.name result ≡ some p
  unfolding compile_policies
  lookup-compile_policies policy p next input result m known unchanged e =
      subst (Holds policy.name p) e (compile_from-reuses policy p next input [] reused m)
    where
      reused : reusable r same prev policy ≡ some p
      reused = unfold reusable in (rw (known, unchanged, reusable) refl)
