-- ===== src/Server/Apply.antt =====
-- server.go: what a change of the configuration leaves of the snapshot, of the flags, and of the specs
-- in the map of listeners.
use yabber.Base.{
  ℕ, ◌≡◌, refl, sym, ap, subst, ◌∙◌, Bool, true, false, not, ◌&&◌, if◌then◌else◌, Option, none,
  some, List, [], ◌∷◌, ◌⊎◌, inl, inr, Bytes, bytes_eq, ◌==◌, Dict, lookup, delete, any, arith,
  Bool-cases, Option-cases, Sum-cases,
}
use yabber.Config.{Config}
use yabber.Server.{
  Snapshot, bound, keys, Network, Server, RunningListener, Bound, bound_all, not_bound, unchanged,
  stale_names, stop_accepting, bind_all, drain_stale, rebind, commit, sync_issuer, abandon, Failure,
  not_compiled, listener_error, already_running, not_modified, listen,
}
use yabber.Server.Lifecycle.{apply, after_binding}
use yabber.Server.Specs.{
  running_spec, first, running_spec-stop_accepting, unchanged_specs, unchanged-bound,
  stale_names-any, running_spec-drain_stale, running_spec-add_started, running_spec_listed,
  key_of_lookup,
}
use yabber.Server.Restoring.{
  rebind_missing, rebind_failed, rebind_restored, after_failure, after_restoring,
  running_spec-rebind,
}
use yabber.Server.Binding.{Binds, bind_all-Binds}

module _ (n : Network) (compile : Config → Option Snapshot → Bytes ⊎ Snapshot) where
  -- What draining and restoring leave alone: the snapshot, the flags and the background tasks.
  abbrev pub Setup : Type 0
  Setup = Snapshot × (Bool × (Option ℕ × (Bool × (Dict ℕ (List Bytes × Bool) × List ℕ))))

  abbrev pub setup : Server n compile → Setup
  setup s = (s.current, (s.started, (s.issuer_of, (s.refresher, (s.assigned, s.idle_closed)))))

  drain_stale-setup :
      (names : List Bytes) (s : Server n compile) → setup (drain_stale n compile names s) ≡ setup s
  unfolding drain_stale
  drain_stale-setup [] s = refl
  drain_stale-setup (name ∷ names) s = elim (Option-cases (lookup name s.running)) [
    | inl e ↦ rw (e, drain_stale) (drain_stale-setup names s)
    | inr (r, e) ↦
        rw (e, drain_stale)
          (drain_stale-setup names (record s {
            draining = record r { closing = true } ∷ s.draining;
            running = delete name s.running;
          }))
  ]

  rebind-setup :
      (names : List Bytes) (s : Server n compile) → setup (rebind n compile names s).0 ≡ setup s
  rebind-setup [] s = unfold rebind in refl
  rebind-setup (name ∷ names) s = elim (Option-cases (lookup name s.running)) [
    | inl e ↦ rw (rebind_missing n compile name names s e) (rebind-setup names s)
    | inr (old, e) ↦ elim (Sum-cases (listen n compile old.spec s.world).1) [
      | inl (err, l) ↦
          rw (rebind_failed n compile name names s old err e l)
            (rebind-setup names (after_failure n compile name old s))
      | inr (r, l) ↦
          rw (rebind_restored n compile name names s old r e l)
            (rebind-setup names (after_restoring n compile name old r s))
    ]
  ]

  pub unchanged-stop_accepting :
      (next : Snapshot) (names : List Bytes) (m : Dict Bytes (RunningListener n compile))
      (w : n.World) (j : Bytes)
      → unchanged n compile next (stop_accepting n compile names m w).0 j
        ≡ unchanged n compile next m j
  unchanged-stop_accepting next names m w j =
      unchanged_specs n compile next (stop_accepting n compile names m w).0 j
      ∙ rw (running_spec-stop_accepting n compile names m w j)
          (sym (unchanged_specs n compile next m j))

  -- The specs in the map, from those of before, the stale names and the new ones.
  bound_specs :
      (next : Snapshot) (m : Dict Bytes (RunningListener n compile)) (j : Bytes)
      → first
          (if any (λ k. k == j) (keys (bound next)) && not (unchanged n compile next m j)
            then lookup j (bound next)
            else none)
          (if any (λ k. k == j) (keys m) && not (unchanged n compile next m j)
            then none
            else running_spec n compile j m)
        ≡ lookup j (bound next)
  bound_specs next m j = elim (Bool-cases (unchanged n compile next m j)) [
    | inl u ↦ ground (arith, unchanged-bound n compile next m j u)
    | inr u ↦ elim (Option-cases (lookup j (bound next))) [
      | inl e ↦ ground (arith, running_spec_listed n compile j m)
      | inr (spec, e) ↦ ground (arith, key_of_lookup j spec (bound next) e)
    ]
  ]

  abbrev pub unrestored : Failure → List (Bytes × Bytes)
  unrestored (listener_error name err errs) = errs
  unrestored (not_compiled err) = []
  unrestored already_running = []
  unrestored (not_modified err) = []

  abbrev Unchanged : Server n compile → Server n compile → List (Bytes × Bytes) → Type 0
  Unchanged s s' errs =
      (setup s' ≡ setup s)
      × ((j : Bytes)
          → running_spec n compile j s'.running
            ≡ (if any (λ err. err.0 == j) errs then none else running_spec n compile j s.running))

  abbrev Switched : Config → Server n compile → Server n compile → Type 0
  Switched config s s' =
      (next : Snapshot) × (compile config (some s.current) ≡ inr next)
      × (s'.current ≡ next)
      × (s'.started ≡ s.started)
      × (s'.issuer_of ≡ (if s.started then next.acme else none))
      × (s.started ≡ false → s'.running ≡ s.running)
      × (s.started ≡ true
          → (j : Bytes) → running_spec n compile j s'.running ≡ lookup j (bound next))

  abbrev Outcome : Config → Server n compile → Server n compile × Option Failure → Type 0
  Outcome config s (s', none) = Switched config s s'
  Outcome config s (s', some f) = Unchanged s s' (unrestored f)

  after_binding-Outcome :
      (config : Config) (s : Server n compile) (next : Snapshot) (b : Bound n compile)
      → compile config (some s.current) ≡ inr next
      → s.started ≡ true
      → (stale : List Bytes)
      → ((j : Bytes)
          → any (λ k. k == j) stale
            ≡ (any (λ k. k == j) (keys s.running) && not (unchanged n compile next s.running j)))
      → (stopped : Dict Bytes (RunningListener n compile)) (w : n.World)
      → ((j : Bytes) → running_spec n compile j stopped ≡ running_spec n compile j s.running)
      → ((j : Bytes) → unchanged n compile next stopped j ≡ unchanged n compile next s.running j)
      → Binds n compile next stopped (keys (bound next)) [] b
      → Outcome config s
          (after_binding n compile next stale (record s { running = stopped; world = w }) b)
  unfolding after_binding
  after_binding-Outcome config s next (not_bound w' started name err) c on stale listed stopped w
        same kept h =
      (
        rebind-setup stale (record s { running = stopped; world = abandon n compile started w' }),
        λ j.
            running_spec-rebind n compile stale
              (record s { running = stopped; world = abandon n compile started w' }) j
            ∙ rw (same j) refl,
      )
  after_binding-Outcome config s next (bound_all w' started) c on stale listed stopped w same kept
        h =
      let s1 : Server n compile =
        commit n compile (some s.current) next true (record s { running = stopped; world = w' }) in
      let kept_setup : setup (drain_stale n compile stale s1) ≡ setup s1 =
        drain_stale-setup stale s1 in
      (
        next,
        c,
        ap (λ t. t.0) kept_setup ∙ committed_snapshot,
        ap (λ t. t.1.0) kept_setup ∙ committed_started,
        ap (λ t. t.1.1.0) kept_setup ∙ committed_issuer,
        (λ off. absurd (ground arith)),
        λ _ j.
            running_spec-add_started n compile started (drain_stale n compile stale s1).running j
            ∙ ground (
              arith,
              h j,
              empty j,
              running_spec-drain_stale n compile stale s1 j,
              ap (running_spec n compile j) committed_running,
              same j,
              kept j,
              listed j,
              bound_specs next s.running j,
            ),
      )
    where
      before : Server n compile
      before = record s { running = stopped; world = w' }

      committed_snapshot : (commit n compile (some s.current) next true before).current ≡ next
      committed_snapshot = unfold commit in refl

      committed_started : (commit n compile (some s.current) next true before).started ≡ s.started
      committed_started = unfold commit sync_issuer in refl

      committed_issuer :
          (commit n compile (some s.current) next true before).issuer_of
          ≡ (if s.started then next.acme else none)
      committed_issuer = unfold commit sync_issuer in refl

      committed_running : (commit n compile (some s.current) next true before).running ≡ stopped
      committed_running = unfold commit in refl

      empty : (j : Bytes) → running_spec n compile j [] ≡ none
      empty j = unfold running_spec lookup in refl

  pub apply_rejected :
      (config : Config) (s : Server n compile) (err : Bytes)
      → compile config (some s.current) ≡ inl err
      → apply n compile config s ≡ (s, some (not_compiled err))
  unfolding apply
  apply_rejected config s err c = rw (c, apply) refl

  pub apply_stopped :
      (config : Config) (s : Server n compile) (next : Snapshot)
      → compile config (some s.current) ≡ inr next
      → s.started ≡ false
      → apply n compile config s ≡ (commit n compile (some s.current) next true s, none)
  unfolding apply
  apply_stopped config s next c off = rw (c, off, apply) refl

  abbrev pub stale_of : Snapshot → Server n compile → List Bytes
  stale_of next s = stale_names n compile next s.running (keys s.running)

  abbrev pub stopped_of :
      Snapshot → Server n compile → Dict Bytes (RunningListener n compile) × n.World
  stopped_of next s = stop_accepting n compile (stale_of next s) s.running s.world

  pub apply_running :
      (config : Config) (s : Server n compile) (next : Snapshot)
      → compile config (some s.current) ≡ inr next
      → s.started ≡ true
      → apply n compile config s
        ≡ after_binding n compile next
            (stale_of next s)
            (record s { running = (stopped_of next s).0; world = (stopped_of next s).1 })
            (bind_all n compile next
              (stopped_of next s).0
              (keys (bound next))
              []
              (stopped_of next s).1)
  unfolding apply
  apply_running config s next c on = rw (c, on, apply) refl

  apply-Outcome :
      (config : Config) (s : Server n compile) → Outcome config s (apply n compile config s)
  apply-Outcome config s = elim (Sum-cases (compile config (some s.current))) [
    | inl (err, c) ↦
        subst (Outcome config s) (sym (apply_rejected config s err c))
          (refl, λ j. unfold any in refl)
    | inr (next, c) ↦ elim (Bool-cases s.started) [
      | inl on ↦ subst (Outcome config s) (sym (apply_running config s next c on)) (
          after_binding-Outcome config s next _ c on (stale_of next s)
            (stale_names-any n compile next s.running (keys s.running)) (stopped_of next s).0
            (stopped_of next s).1
            (running_spec-stop_accepting n compile (stale_of next s) s.running s.world)
            (unchanged-stop_accepting next (stale_of next s) s.running s.world)
            (bind_all-Binds n compile next (stopped_of next s).0 (keys (bound next)) []
              (stopped_of next s).1))
      | inr off ↦ subst (Outcome config s) (sym (apply_stopped config s next c off)) (
        next,
        c,
        (unfold commit in refl),
        (unfold commit sync_issuer in refl),
        (unfold commit sync_issuer in refl),
        (λ _. unfold commit sync_issuer in refl),
        λ on. absurd (ground arith),
      )
    ]
  ]

  -- When apply ends without an error, the configuration compiled to a snapshot which is now the
  -- active one, the background loop of its ACME manager runs exactly if the server is started, the
  -- listeners of a stopped server stay as they were, and on a started server, which stays started,
  -- the map of listeners has exactly the names and the specs of the snapshot.
  pub apply-running_spec :
      (config : Config) (s s' : Server n compile)
      → apply n compile config s ≡ (s', none)
      → (next : Snapshot) × (compile config (some s.current) ≡ inr next)
        × (s'.current ≡ next)
        × (s'.started ≡ s.started)
        × (s'.issuer_of ≡ (if s.started then next.acme else none))
        × (s.started ≡ false → s'.running ≡ s.running)
        × (s.started ≡ true
            → (j : Bytes) → running_spec n compile j s'.running ≡ lookup j (bound next))
  apply-running_spec config s s' e = subst (Outcome config s) e (apply-Outcome config s)

  -- When apply ends with an error, the active snapshot, the flags and the background tasks are those
  -- of before, and the map of listeners has the specs of before, except for those that the error
  -- names as not restored, which are not in it.
  pub apply_failed :
      (config : Config) (s s' : Server n compile) (f : Failure)
      → apply n compile config s ≡ (s', some f)
      → (setup s' ≡ setup s)
        × ((j : Bytes)
            → running_spec n compile j s'.running ≡ (
                if any (λ err. err.0 == j) (unrestored f)
                then none
                else running_spec n compile j s.running))
  apply_failed config s s' f e = subst (Outcome config s) e (apply-Outcome config s)
