-- ===== src/Server/Replacing.antt =====
-- server.go, apply: what a change of the configuration does to the listeners and their sockets.
use yabber.Base.{
  ◌≡◌, ◌≢◌, refl, sym, ap, subst, ◌∙◌, Bool, true, false, if◌then◌else◌, Option, none, some, [],
  ◌⊎◌, inl, inr, Bytes, bytes_eq, ◌==◌, ==_iff, Dict, lookup, any, arith, inr_injective, Bool-cases,
  Option-cases, Sum-cases,
}
use yabber.Config.{Config}
use yabber.Server.{
  ListenerSpec, spec_eq, Snapshot, bound, keys, Network, Server, RunningListener, Bound, bound_all,
  add_started, not_bound, unchanged, drain_stale, rebind, commit, abandon, Failure,
}
use yabber.Server.Lifecycle.{apply, after_binding}
use yabber.Server.Specs.{running_spec, running_spec-stop_accepting, stale_names-any, key_of_lookup}
use yabber.Server.Sockets.{
  Opened, Rebound, Fills, Filled, lookup-stop_accepting, lookup-drain_stale, lookup-add_started,
  rebind-Rebound, bind_all-Fills, either_one,
}
use yabber.Server.Binding.{wanted}
use yabber.Server.Apply.{
  setup, unrestored, apply_failed, apply-running_spec, apply_rejected, apply_stopped, apply_running,
  unchanged-stop_accepting, stale_of, stopped_of,
}

module _ (n : Network) (compile : Config → Option Snapshot → Bytes ⊎ Snapshot) where
  -- The same listener as before, or one with its spec on a socket of its own.
  abbrev pub Kept : Option (RunningListener n compile) → Option (RunningListener n compile) → Type 0
  Kept none after = after ≡ none
  Kept (some old) after = (after ≡ some old) ⊎ Opened n compile old.spec after

  -- What stands under a name, by whether it could not be restored.
  abbrev pub Restored :
      Bool → Option (RunningListener n compile) → Option (RunningListener n compile) → Type 0
  Restored true before after = after ≡ none
  Restored false before after = Kept before after

  -- What stands under a name, by the spec that is wanted there and by what stood there before.
  abbrev pub Replaced :
      Option ListenerSpec
      → Option (RunningListener n compile)
      → Option (RunningListener n compile)
      → Type 0
  Replaced none before after = after ≡ none
  Replaced (some spec) none after = Opened n compile spec after
  Replaced (some spec) (some old) after =
      (old.spec ≡ spec → after ≡ some old) × (old.spec ≢ spec → Opened n compile spec after)

  pub Kept-refl : (o : Option (RunningListener n compile)) → Kept o o
  Kept-refl none = refl
  Kept-refl (some r) = inl refl

  abbrev spec_in : Option (RunningListener n compile) → Option ListenerSpec
  spec_in none = none
  spec_in (some r) = some r.spec

  spec_in-lookup :
      (j : Bytes) (m : Dict Bytes (RunningListener n compile))
      → running_spec n compile j m ≡ spec_in (lookup j m)
  unfolding running_spec
  spec_in-lookup j m = elim (Option-cases (lookup j m)) [
    | inl e ↦ rw (e, running_spec) refl
    | inr (r, e) ↦ rw (e, running_spec) refl
  ]

  by_spec :
      (stopped after : Option (RunningListener n compile)) (old : RunningListener n compile)
      → spec_in stopped ≡ some old.spec
      → Rebound n compile true false stopped after
      → Opened n compile old.spec after
  by_spec none after old e h = absurd (cc)
  by_spec (some r) after old e h = subst (λ spec. Opened n compile spec after) (ground arith) h

  -- The listener that was stopped had the spec of the one before.
  Rebound-Restored :
      (listed failed : Bool) (before stopped after : Option (RunningListener n compile))
      → (listed ≡ false → stopped ≡ before)
      → spec_in stopped ≡ spec_in before
      → Rebound n compile listed failed stopped after
      → Restored failed before after
  Rebound-Restored true true before stopped after same specs h = h
  Rebound-Restored false true before stopped after same specs h = h
  Rebound-Restored false false before stopped after same specs h =
      subst (Kept before) (sym (h ∙ same refl)) (Kept-refl before)
  Rebound-Restored true false none none after same specs h = h
  Rebound-Restored true false none (some r) after same specs h = absurd cc
  Rebound-Restored true false (some old) stopped after same specs h =
      inr (by_spec stopped after old specs h)

  abbrev Outcome : Config → Server n compile → Server n compile × Option Failure → Type 0
  Outcome config s (s', some f) =
      (j : Bytes)
      → Restored (any (λ err. err.0 == j) (unrestored n compile f)) (lookup j s.running)
          (lookup j s'.running)
  Outcome config s (s', none) =
      (next : Snapshot)
      → compile config (some s.current) ≡ inr next
      → s.started ≡ true
      → (j : Bytes) → Replaced (lookup j (bound next)) (lookup j s.running) (lookup j s'.running)

  -- The listener that is unchanged has the spec that is wanted.
  unchanged_found :
      (next : Snapshot) (m : Dict Bytes (RunningListener n compile)) (j : Bytes)
      → unchanged n compile next m j ≡ true
      → (old : RunningListener n compile) × (lookup j m ≡ some old)
        × (lookup j (bound next) ≡ some old.spec)
  unfolding unchanged
  unchanged_found next m j h = elim (Option-cases (lookup j m)) [
    | inl e ↦ absurd (ground arith)
    | inr (old, e) ↦ elim (Option-cases (lookup j (bound next))) [
      | inl f ↦ absurd (ground arith)
      | inr (spec, f) ↦ (old, e, ground (arith, ==_iff spec old.spec))
    ]
  ]

  changed_found :
      (next : Snapshot) (m : Dict Bytes (RunningListener n compile)) (j : Bytes)
      (old : RunningListener n compile)
      → unchanged n compile next m j ≡ false
      → lookup j m ≡ some old
      → lookup j (bound next) ≢ some old.spec
  unfolding unchanged
  changed_found next m j old h e f = ground (arith, ==_iff old.spec old.spec)

  kept-Replaced :
      (old : RunningListener n compile) (wanted : Option ListenerSpec)
      (before after : Option (RunningListener n compile))
      → wanted ≡ some old.spec
      → before ≡ some old
      → after ≡ some old
      → Replaced wanted before after
  kept-Replaced old none before after w b a = absurd cc
  kept-Replaced old (some spec) none after w b a = absurd cc
  kept-Replaced old (some spec) (some r) after w b a = (
    λ _. a ∙ sym b,
    λ other.
        absurd (other (ap (λ o. elim o [ none ↦ old.spec | some r' ↦ r'.spec ]) b ∙ ground arith)),
  )

  opened-Replaced :
      (wanted : Option ListenerSpec) (before after : Option (RunningListener n compile))
      → ((old : RunningListener n compile) → before ≡ some old → wanted ≢ some old.spec)
      → Filled n compile wanted none after
      → Replaced wanted before after
  opened-Replaced none before after other h = h
  opened-Replaced (some spec) none after other h = h
  opened-Replaced (some spec) (some old) after other h =
      (λ same. absurd (other old refl (ap some (sym same))), λ _. h)

  failed_binding :
      (s : Server n compile) (next : Snapshot) (w : n.World) (j : Bytes)
      → let s1 : Server n compile = record s {
        running = (stopped_of n compile next s).0;
        world = w;
      } in
        Restored
          (any (λ err. err.0 == j) (rebind n compile (stale_of n compile next s) s1).1)
          (lookup j s.running)
          (lookup j (rebind n compile (stale_of n compile next s) s1).0.running)
  failed_binding s next w j =
      let s1 : Server n compile = record s {
        running = (stopped_of n compile next s).0;
        world = w;
      } in
      Rebound-Restored (any (λ k. k == j) (stale_of n compile next s))
        (any (λ err. err.0 == j) (rebind n compile (stale_of n compile next s) s1).1)
        (lookup j s.running) (lookup j s1.running)
        (lookup j (rebind n compile (stale_of n compile next s) s1).0.running)
        (lookup-stop_accepting n compile (stale_of n compile next s) s.running s.world j)
        (sym (spec_in-lookup j s1.running)
          ∙ running_spec-stop_accepting n compile (stale_of n compile next s) s.running s.world j
          ∙ spec_in-lookup j s.running)
        (rebind-Rebound n compile (stale_of n compile next s) s1 j)

  abbrev switched :
      Snapshot
      → Server n compile
      → Dict Bytes (RunningListener n compile)
      → n.World
      → Server n compile
  switched next s started w =
      let s1 : Server n compile =
        commit n compile (some s.current) next true
          (record s { running = (stopped_of n compile next s).0; world = w }) in
      drain_stale n compile (stale_of n compile next s) s1

  -- What stands under a name when the new listeners have been added.
  lookup-switched :
      (s : Server n compile) (next : Snapshot) (started : Dict Bytes (RunningListener n compile))
      (w : n.World) (j : Bytes)
      → lookup j (add_started n compile started (switched next s started w).running)
        ≡ either_one n compile
            (lookup j started)
            (if any (λ k. k == j) (stale_of n compile next s) then none else lookup j s.running)
  lookup-switched s next started w j =
      lookup-add_started n compile started (switched next s started w).running j
      ∙ ap (either_one n compile (lookup j started)) (
          lookup-drain_stale n compile (stale_of n compile next s)
            (commit n compile (some s.current) next true
              (record s { running = (stopped_of n compile next s).0; world = w }))
            j
          ∙ unfold commit in
            ground (
              arith,
              lookup-stop_accepting n compile (stale_of n compile next s) s.running s.world j,
            ))

  wanted_changed :
      (s : Server n compile) (next : Snapshot) (j : Bytes)
      → unchanged n compile next s.running j ≡ false
      → wanted n compile next (stopped_of n compile next s).0 (keys (bound next)) j
        ≡ lookup j (bound next)
  wanted_changed s next j u = elim (Option-cases (lookup j (bound next))) [
    | inl e ↦ ground arith
    | inr (spec, e) ↦ ground (
      arith,
      key_of_lookup j spec (bound next) e,
      unchanged-stop_accepting n compile next (stale_of n compile next s) s.running s.world j,
    )
  ]

  wanted-unchanged :
      (s : Server n compile) (next : Snapshot) (j : Bytes)
      → unchanged n compile next s.running j ≡ true
      → wanted n compile next (stopped_of n compile next s).0 (keys (bound next)) j ≡ none
  wanted-unchanged s next j u = ground (
    arith,
    unchanged-stop_accepting n compile next (stale_of n compile next s) s.running s.world j,
  )

  -- What stood under a name stays exactly if it is unchanged.
  left_over :
      (s : Server n compile) (next : Snapshot) (j : Bytes)
      → (if any (λ k. k == j) (stale_of n compile next s) then none else lookup j s.running)
        ≡ (if unchanged n compile next s.running j then lookup j s.running else none)
  left_over s next j = elim (Option-cases (lookup j s.running)) [
    | inl e ↦ ground arith
    | inr (r, e) ↦ ground (
      arith,
      key_of_lookup j r s.running e,
      stale_names-any n compile next s.running (keys s.running) j,
    )
  ]

  bound-Replaced :
      (s : Server n compile) (next : Snapshot) (started : Dict Bytes (RunningListener n compile))
      (w : n.World)
      → Fills n compile next
          (stopped_of n compile next s).0
          (keys (bound next))
          []
          (bound_all w started)
      → (j : Bytes)
      → Replaced
          (lookup j (bound next))
          (lookup j s.running)
          (lookup j (add_started n compile started (switched next s started w).running))
  bound-Replaced s next started w h j = elim (Bool-cases (unchanged n compile next s.running j)) [
    | inl u ↦
        let (old, e, f) = unchanged_found next s.running j u in
        kept-Replaced old (lookup j (bound next)) (lookup j s.running) _ f e
          (after ∙ ground (arith, filled (wanted-unchanged s next j u), left_over s next j))
    | inr u ↦
        opened-Replaced (lookup j (bound next)) (lookup j s.running) _
          (λ old. changed_found next s.running j old u)
          (subst (Filled n compile (lookup j (bound next)) none)
            (sym (after ∙ ground (arith, left_over s next j, alone)))
            (filled (wanted_changed s next j u)))
  ]
    where
      after :
          lookup j (add_started n compile started (switched next s started w).running)
          ≡ either_one n compile
              (lookup j started)
              (if any (λ k. k == j) (stale_of n compile next s) then none else lookup j s.running)
      after = lookup-switched s next started w j

      alone : either_one n compile (lookup j started) none ≡ lookup j started
      alone = elim (Option-cases (lookup j started)) [ inl e ↦ rw e refl | inr (r, e) ↦ rw e refl ]

      empty : lookup {V = RunningListener n compile} j [] ≡ none
      empty = unfold lookup in refl

      filled :
          {o : Option ListenerSpec}
          → wanted n compile next (stopped_of n compile next s).0 (keys (bound next)) j ≡ o
          → Filled n compile o none (lookup j started)
      filled {o} e =
          subst (λ spec. Filled n compile spec none (lookup j started)) e
            (subst
              (λ before.
                Filled n compile
                  (wanted n compile next (stopped_of n compile next s).0 (keys (bound next)) j)
                  before (lookup j started))
              empty (h j))

  binding-Outcome :
      (config : Config) (s : Server n compile) (next : Snapshot) (b : Bound n compile)
      → compile config (some s.current) ≡ inr next
      → Fills n compile next (stopped_of n compile next s).0 (keys (bound next)) [] b
      → Outcome config s (
          after_binding n compile next
            (stale_of n compile next s)
            (record s {
              running = (stopped_of n compile next s).0;
              world = (stopped_of n compile next s).1;
            })
            b)
  unfolding after_binding
  binding-Outcome config s next (not_bound w started name err) c h =
      λ j. failed_binding s next (abandon n compile started w) j
  binding-Outcome config s next (bound_all w started) c h = λ next' c' on j.
      subst
        (λ snap.
          Replaced (lookup j (bound snap)) (lookup j s.running)
            (lookup j (add_started n compile started (switched next s started w).running)))
        (inr_injective (compile config (some s.current)) next next' c c')
        (bound-Replaced s next started w h j)

  apply-Outcome :
      (config : Config) (s : Server n compile) → Outcome config s (apply n compile config s)
  apply-Outcome config s = elim (Sum-cases (compile config (some s.current))) [
    | inl (err, c) ↦
        subst (Outcome config s) (sym (apply_rejected n compile config s err c))
          (λ j. unfold any in (Kept-refl (lookup j s.running)))
    | inr (next, c) ↦ elim (Bool-cases s.started) [
      | inl on ↦ subst (Outcome config s) (sym (apply_running n compile config s next c on)) (
          binding-Outcome config s next _ c (
            bind_all-Fills n compile next (stopped_of n compile next s).0 (keys (bound next)) []
              (stopped_of n compile next s).1))
      | inr off ↦
          subst (Outcome config s) (sym (apply_stopped n compile config s next c off))
            (λ next' c' on j. absurd (ground arith))
    ]
  ]

  -- When apply ends without an error, the configuration compiled to a snapshot, which is now the
  -- active one; the server is started exactly if it was, and the background loop of the snapshot's
  -- ACME manager runs exactly if the server is started. A stopped server keeps its listeners. On a
  -- started server, a name that the snapshot does not bind has no listener; a listener whose spec is
  -- the wanted one is kept as it is, with its socket, and even if it has failed; any other name of
  -- the snapshot has a new listener with the wanted spec, which accepts connections, has not failed,
  -- and stands on a socket that the network gave for the address.
  pub apply-Replaced :
      (config : Config) (s s' : Server n compile)
      → apply n compile config s ≡ (s', none)
      → (next : Snapshot) × (compile config (some s.current) ≡ inr next)
        × (s'.current ≡ next)
        × (s'.started ≡ s.started)
        × (s'.issuer_of ≡ (if s.started then next.acme else none))
        × (s.started ≡ false → s'.running ≡ s.running)
        × (s.started ≡ true
            → (j : Bytes)
            → Replaced (lookup j (bound next)) (lookup j s.running) (lookup j s'.running))
  apply-Replaced config s s' e =
      let (next, c, now, flag, loop, off, on) = apply-running_spec n compile config s s' e in
      (next, c, now, flag, loop, off, subst (Outcome config s) e (apply-Outcome config s) next c)

  -- When apply ends with an error, the active snapshot, the flags and the background tasks are those
  -- of before. A name that the error reports as not restored has no listener. Under any other name
  -- stands what stood there before: the same listener, or one with its spec that accepts
  -- connections, has not failed, and stands on a socket that the network gave for the address.
  pub apply-Restored :
      (config : Config) (s s' : Server n compile) (f : Failure)
      → apply n compile config s ≡ (s', some f)
      → (setup n compile s' ≡ setup n compile s)
        × ((j : Bytes)
            → Restored
                (any (λ err. err.0 == j) (unrestored n compile f))
                (lookup j s.running)
                (lookup j s'.running))
  apply-Restored config s s' f e = (
    (apply_failed n compile config s s' f e).0,
    subst (Outcome config s) e (apply-Outcome config s),
  )
