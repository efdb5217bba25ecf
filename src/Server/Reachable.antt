-- ===== src/Server/Reachable.antt =====
-- server.go: what holds of a server in every state that its methods can bring it to.
use yabber.Base.{
  ◌≡◌, refl, sym, ap, subst, ◌∙◌, false, if◌then◌else◌, Option, none, some, List, [], ◌⊎◌, inl, inr,
  Bytes, bytes_eq, lookup, arith, Bool-cases, Sum-cases,
}
use yabber.Config.{Config}
use yabber.Server.{
  ListenerSpec, Snapshot, bound, Network, Server, Failure, UpdateError, commit, sync_issuer,
}
use yabber.Server.Lifecycle.{new, apply, update, start, shutdown, refresh_certificates}
use yabber.Server.Specs.{running_spec}
use yabber.Server.Apply.{apply-running_spec, apply_failed}
use yabber.Server.Start.{start-healthy, start_failed}

module _ (n : Network) (compile : Config → Option Snapshot → Bytes ⊎ Snapshot) where
  -- New, and then any sequence of calls, whether they succeed or fail.
  pub data Reachable : Server n compile → Type 0 where
    created :
        (w : n.World) (config : Config) (s : Server n compile)
        → new n compile w config ≡ inr s
        → Reachable s
    applied :
        (config : Config) (s : Server n compile)
        → Reachable s
        → Reachable (apply n compile config s).0
    updated :
        (modify : Config → UpdateError ⊎ Config) (s : Server n compile)
        → Reachable s
        → Reachable (update n compile modify s).0
    started : (s : Server n compile) → Reachable s → Reachable (start n compile s).0
    shut :
        (late : Option Bytes) (s : Server n compile)
        → Reachable s
        → Reachable (shutdown n compile late s).0
    refreshed :
        (reload : Snapshot → Bytes ⊎ List Bytes) (s : Server n compile)
        → Reachable s
        → Reachable (refresh_certificates n compile reload s)

  -- Every listener that runs is one of the active snapshot, with its spec; a stopped server runs
  -- none; the loop that runs is the one of the active ACME manager, if the server is started.
  pub record IsConsistent (s : Server n compile) : Type 0 where
    pub active :
        (j : Bytes) (spec : ListenerSpec)
        → running_spec n compile j s.running ≡ some spec
        → lookup j (bound s.current) ≡ some spec
    pub idle : s.started ≡ false → (j : Bytes) → running_spec n compile j s.running ≡ none
    pub issuer : s.issuer_of ≡ (if s.started then s.current.acme else none)

  empty-spec : (j : Bytes) → running_spec n compile j [] ≡ none
  empty-spec j = unfold running_spec lookup in refl

  abbrev NewConsistent : Bytes ⊎ Server n compile → Type 0
  NewConsistent (inl err) = Unit
  NewConsistent (inr s) = IsConsistent s

  new-NewConsistent : (w : n.World) (config : Config) → NewConsistent (new n compile w config)
  new-NewConsistent w config = elim (Sum-cases (compile config none)) [
    | inl (err, c) ↦ unfold new in (rw (c, new) tt)
    | inr (snap, c) ↦
        unfold new commit sync_issuer in
        (rw (c, new)
          (record {
            active = λ j spec h. absurd (ground (arith, empty-spec j));
            idle = λ _ j. empty-spec j;
            issuer = refl;
          }))
  ]

  apply-IsConsistent :
      (config : Config) (s : Server n compile)
      → IsConsistent s
      → IsConsistent (apply n compile config s).0
  apply-IsConsistent config s ok = by_error (apply n compile config s).1 refl
    where
      s' : Server n compile
      s' = (apply n compile config s).0

      failed : (f : Failure) → apply n compile config s ≡ (s', some f) → IsConsistent s'
      failed f e =
          let (same, specs) = apply_failed n compile config s s' f e in
          record {
            active = λ j spec h.
                ap (λ snap. lookup j (bound snap)) (ap (λ t. t.0) same)
                ∙ ok.active j spec (ground (arith, specs j));
            idle = λ off j. ground (arith, specs j, ok.idle (sym (ap (λ t. t.1.0) same) ∙ off) j);
            issuer = ground (
              arith,
              ap (λ t. t.1.1.0) same,
              ap (λ t. t.1.0) same,
              ap (λ t. t.0.acme) same,
              ok.issuer,
            );
          }

      switched : apply n compile config s ≡ (s', none) → IsConsistent s'
      switched e =
          let (next, c, now, flag, loop, off, on) = apply-running_spec n compile config s s' e in
          elim (Bool-cases s.started) [
            | inl up ↦ record {
              active = λ j spec h. ap (λ snap. lookup j (bound snap)) now ∙ (sym (on up j) ∙ h);
              idle = λ down j. absurd (ground arith);
              issuer = ground (arith, ap (λ snap. snap.acme) now);
            }
            | inr down ↦ record {
              active = λ j spec h.
                  absurd (ground (arith, ok.idle down j, ap (running_spec n compile j) (off down)));
              idle = λ _ j. ap (running_spec n compile j) (off down) ∙ ok.idle down j;
              issuer = ground (arith, ap (λ snap. snap.acme) now);
            }
          ]

      by_error : (o : Option Failure) → (apply n compile config s).1 ≡ o → IsConsistent s'
      by_error none e = switched (ap (λ o. (s', o)) e)
      by_error (some f) e = failed f (ap (λ o. (s', o)) e)

  start-IsConsistent : (s : Server n compile) → IsConsistent s → IsConsistent (start n compile s).0
  start-IsConsistent s ok = by_error (start n compile s).1 refl
    where
      s' : Server n compile
      s' = (start n compile s).0

      failed : (f : Failure) → start n compile s ≡ (s', some f) → IsConsistent s'
      failed f e =
          let (same, run) = start_failed n compile s s' f e in
          record {
            active = λ j spec h.
                ap (λ snap. lookup j (bound snap)) (ap (λ t. t.0) same)
                ∙ ok.active j spec (sym (ap (running_spec n compile j) run) ∙ h);
            idle = λ off j.
                ap (running_spec n compile j) run ∙ ok.idle (sym (ap (λ t. t.1.0) same) ∙ off) j;
            issuer = ground (
              arith,
              ap (λ t. t.1.1.0) same,
              ap (λ t. t.1.0) same,
              ap (λ t. t.0.acme) same,
              ok.issuer,
            );
          }

      succeeded : start n compile s ≡ (s', none) → IsConsistent s'
      succeeded e =
          let (off, now, specs, up) = start-healthy n compile s s' e in
          record {
            active = λ j spec h. ap (λ t. lookup j (bound t.0)) now ∙ (sym (specs j) ∙ h);
            idle = λ down j. absurd (ground (arith, ap (λ t. t.1.0) now));
            issuer =
                ground (arith, ap (λ t. t.1.1.0) now, ap (λ t. t.1.0) now, ap (λ t. t.0.acme) now);
          }

      by_error : (o : Option Failure) → (start n compile s).1 ≡ o → IsConsistent s'
      by_error none e = succeeded (ap (λ o. (s', o)) e)
      by_error (some f) e = failed f (ap (λ o. (s', o)) e)

  shutdown-IsConsistent :
      (late : Option Bytes) (s : Server n compile) → IsConsistent (shutdown n compile late s).0
  unfolding shutdown sync_issuer
  shutdown-IsConsistent late s = record {
    active = λ j spec h. absurd (ground (arith, empty-spec j));
    idle = λ _ j. empty-spec j;
    issuer = refl;
  }

  refresh_certificates-IsConsistent :
      (reload : Snapshot → Bytes ⊎ List Bytes) (s : Server n compile)
      → IsConsistent s
      → IsConsistent (refresh_certificates n compile reload s)
  unfolding refresh_certificates commit sync_issuer bound
  refresh_certificates-IsConsistent reload s ok = elim (Sum-cases (reload s.current)) [
    | inl (err, e) ↦ rw (e, refresh_certificates) ok
    | inr (hosts, e) ↦
        rw (e, refresh_certificates) (record { active = ok.active; idle = ok.idle; issuer = refl })
  ]

  update-IsConsistent :
      (modify : Config → UpdateError ⊎ Config) (s : Server n compile)
      → IsConsistent s
      → IsConsistent (update n compile modify s).0
  unfolding update
  update-IsConsistent modify s ok = elim (Sum-cases (modify s.current.config)) [
    | inl (err, e) ↦ rw (e, update) ok
    | inr (config, e) ↦ rw (e, update) (apply-IsConsistent config s ok)
  ]

  -- In every state that New and any sequence of calls lead to, whether they succeed or fail, every
  -- listener that runs is one of the active snapshot, with its spec; a stopped server runs none; and
  -- the ACME loop that runs is that of the snapshot's manager, if the server is started.
  pub Reachable-IsConsistent : (s : Server n compile) → Reachable s → IsConsistent s
  Reachable-IsConsistent _ (created w config s e) =
      subst NewConsistent e (new-NewConsistent w config)
  Reachable-IsConsistent _ (applied config s r) =
      apply-IsConsistent config s (Reachable-IsConsistent s r)
  Reachable-IsConsistent _ (updated modify s r) =
      update-IsConsistent modify s (Reachable-IsConsistent s r)
  Reachable-IsConsistent _ (started s r) = start-IsConsistent s (Reachable-IsConsistent s r)
  Reachable-IsConsistent _ (shut late s r) = shutdown-IsConsistent late s
  Reachable-IsConsistent _ (refreshed reload s r) =
      refresh_certificates-IsConsistent reload s (Reachable-IsConsistent s r)
