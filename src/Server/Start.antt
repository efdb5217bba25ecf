-- ===== src/Server/Start.antt =====
-- server.go: starting binds every listener or none.
use yabber.Base.{
  ◌≡◌, refl, sym, subst, true, false, Option, none, some, List, [], ◌∷◌, ◌⊎◌, inl, inr, Bytes,
  bytes_eq, ◌==◌, ==_refl, Dict, lookup, insert, any, arith, lookup-insert, Bool-cases,
  Option-cases, Sum-cases,
}
use yabber.Config.{Config}
use yabber.Server.{
  ListenerSpec, Snapshot, bound, keys, Network, Server, RunningListener, Bound, bound_all,
  not_bound, bind_all, listen, unchanged, sync_issuer, Failure, already_running,
}
use yabber.Server.Lifecycle.{start, after_start, healthy, all_running, listener_statuses, status}
use yabber.Server.Specs.{running_spec, key_of_lookup}
use yabber.Server.Binding.{Binds, bind_all-Binds}
use yabber.Server.Apply.{setup}

module _ (n : Network) (compile : Config → Option Snapshot → Bytes ⊎ Snapshot) where
  -- No listener has failed.
  abbrev Fresh : Dict Bytes (RunningListener n compile) → Type 0
  Fresh m = (j : Bytes) (r : RunningListener n compile) → lookup j m ≡ some r → r.failure ≡ none

  abbrev FreshResult : Bound n compile → Type 0
  FreshResult (not_bound w m name err) = Unit
  FreshResult (bound_all w m) = Fresh m

  listen_fresh :
      (spec : ListenerSpec) (w : n.World) (r : RunningListener n compile)
      → (listen n compile spec w).1 ≡ inr r
      → r.failure ≡ none
  unfolding listen
  listen_fresh spec w r h = ground arith

  insert-Fresh :
      (name : Bytes) (r : RunningListener n compile) (m : Dict Bytes (RunningListener n compile))
      → r.failure ≡ none
      → Fresh m
      → Fresh (insert name r m)
  insert-Fresh name r m f h j r' e = elim (Bool-cases (name == j)) [
    | inl same ↦ ground (arith, lookup-insert name j r m)
    | inr other ↦ h j r' (ground (arith, lookup-insert name j r m))
  ]

  bind_all-Fresh :
      (next : Snapshot) (m : Dict Bytes (RunningListener n compile)) (names : List Bytes)
      (started : Dict Bytes (RunningListener n compile)) (w : n.World)
      → Fresh started
      → FreshResult (bind_all n compile next m names started w)
  unfolding bind_all
  bind_all-Fresh next m [] started w f = f
  bind_all-Fresh next m (name ∷ names) started w f =
      elim (Option-cases (lookup name (bound next))) [
        | inl e ↦ rw (e, bind_all) (bind_all-Fresh next m names started w f)
        | inr (spec, e) ↦ elim (Bool-cases (unchanged n compile next m name)) [
          | inl u ↦ rw (e, u, bind_all) (bind_all-Fresh next m names started w f)
          | inr u ↦ elim (Sum-cases (listen n compile spec w).1) [
            | inl (err, l) ↦ rw (e, u, l, bind_all) tt
            | inr (r, l) ↦
                rw (e, u, l, bind_all)
                  (bind_all-Fresh next m names (insert name r started) (listen n compile spec w).0
                    (insert-Fresh name r started (listen_fresh spec w r l) f))
          ]
        ]
      ]

  -- A listener that runs without a failure is reported as running.
  all_running-listener_statuses :
      (m : Dict Bytes (RunningListener n compile)) (listeners : Dict Bytes ListenerSpec)
      → Fresh m
      → ((j : Bytes)
          → any (λ k. k == j) (keys listeners) ≡ true
          → (r : RunningListener n compile) × (lookup j m ≡ some r))
      → all_running n compile (listener_statuses n compile m listeners) ≡ true
  unfolding all_running listener_statuses any
  all_running-listener_statuses m [] f h = refl
  all_running-listener_statuses m ((name, spec) ∷ listeners) f h =
      let (r, e) = h name (ground (arith, ==_refl name)) in
      rw (e, f name r e) (all_running-listener_statuses m listeners f (λ j l. h j (ground arith)))

  lookup_key :
      {A : Type 0} (j : Bytes) (m : Dict Bytes A)
      → any (λ k. k == j) (keys m) ≡ true
      → (v : A) × (lookup j m ≡ some v)
  unfolding any lookup
  lookup_key j [] h = absurd (ground arith)
  lookup_key j ((k, v) ∷ m) h = elim (Bool-cases (k == j)) [
    | inl e ↦ (v, rw e refl)
    | inr e ↦ let (u, f) = lookup_key j m (ground arith) in (u, rw e f)
  ]

  abbrev Started : Server n compile → Server n compile × Option Failure → Type 0
  Started s (s', none) =
      (s.started ≡ false)
      × (setup n compile s'
          ≡ (s.current, (true, (s.current.acme, (true, (s.assigned, s.idle_closed))))))
      × ((j : Bytes) → running_spec n compile j s'.running ≡ lookup j (bound s.current))
      × (healthy n compile s' ≡ true)
  Started s (s', some f) = (setup n compile s' ≡ setup n compile s) × (s'.running ≡ s.running)

  started_healthy :
      (s : Server n compile)
      → s.started ≡ true
      → Fresh s.running
      → ((j : Bytes) → running_spec n compile j s.running ≡ lookup j (bound s.current))
      → healthy n compile s ≡ true
  unfolding healthy status
  started_healthy s on f specs = elim (Bool-cases s.current.config.disabled) [
    | inl off ↦ rw (on, off) refl
    | inr enabled ↦
        rw (on, enabled)
          (all_running-listener_statuses s.running s.current.listeners f
            (λ j l. runs j (lookup_key j s.current.listeners l) enabled))
  ]
    where
      runs :
          (j : Bytes)
          → (spec : ListenerSpec) × (lookup j s.current.listeners ≡ some spec)
          → s.current.config.disabled ≡ false
          → (r : RunningListener n compile) × (lookup j s.running ≡ some r)
      runs j (spec, e) enabled = elim (Option-cases (lookup j s.running)) [
        | inl missing ↦ absurd (unfold running_spec bound in (ground (arith, specs j)))
        | inr found ↦ found
      ]

  after_start-Started :
      (s : Server n compile) (b : Bound n compile)
      → s.started ≡ false
      → Binds n compile s.current [] (keys (bound s.current)) [] b
      → FreshResult b
      → Started s (after_start n compile s b)
  unfolding after_start sync_issuer
  after_start-Started s (not_bound w started name err) off h f = (refl, refl)
  after_start-Started s (bound_all w started) off h f =
      (off, refl, specs, started_healthy _ refl f specs)
    where
      fresh_start : (j : Bytes) → unchanged n compile s.current [] j ≡ false
      fresh_start j = unfold unchanged lookup in refl

      empty : (j : Bytes) → running_spec n compile j [] ≡ none
      empty j = unfold running_spec lookup in refl

      specs : (j : Bytes) → running_spec n compile j started ≡ lookup j (bound s.current)
      specs j = elim (Option-cases (lookup j (bound s.current))) [
        | inl e ↦ ground (arith, h j, empty j)
        | inr (spec, e) ↦
            ground (arith, h j, fresh_start j, key_of_lookup j spec (bound s.current) e)
      ]

  start-Started : (s : Server n compile) → Started s (start n compile s)
  unfolding start
  start-Started s = elim (Bool-cases s.started) [
    | inl on ↦ subst (Started s) (sym (rejected on)) (refl, refl)
    | inr off ↦ subst (Started s) (sym (proceeds off)) (
        after_start-Started s _ off
          (bind_all-Binds n compile s.current [] (keys (bound s.current)) [] s.world)
          (bind_all-Fresh s.current [] (keys (bound s.current)) [] s.world no_listener))
  ]
    where
      rejected : s.started ≡ true → start n compile s ≡ (s, some already_running)
      rejected on = unfold start in rw (on, start) refl

      proceeds :
          s.started ≡ false
          → start n compile s
            ≡ after_start n compile s
                (bind_all n compile s.current [] (keys (bound s.current)) [] s.world)
      proceeds off = unfold start in rw (off, start) refl

      no_listener : Fresh []
      no_listener j r e = absurd (unfold lookup in (ground arith))

  -- When start ends without an error, the server was stopped and is started now with the same
  -- snapshot, the loops of its ACME manager and of the certificates run, exactly the listeners of the
  -- snapshot run, each with its spec, and the server is healthy.
  pub start-healthy :
      (s s' : Server n compile)
      → start n compile s ≡ (s', none)
      → (s.started ≡ false)
        × (setup n compile s'
            ≡ (s.current, (true, (s.current.acme, (true, (s.assigned, s.idle_closed))))))
        × ((j : Bytes) → running_spec n compile j s'.running ≡ lookup j (bound s.current))
        × (healthy n compile s' ≡ true)
  start-healthy s s' e = subst (Started s) e (start-Started s)

  -- When start ends with an error, the server has the setup and the listeners of before.
  pub start_failed :
      (s s' : Server n compile) (f : Failure)
      → start n compile s ≡ (s', some f)
      → (setup n compile s' ≡ setup n compile s) × (s'.running ≡ s.running)
  start_failed s s' f e = subst (Started s) e (start-Started s)
