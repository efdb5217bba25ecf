-- ===== src/Server/Sockets.antt =====
-- server.go: which listener stands under a name, with its socket, after each step of a change.
use yabber.Base.{
  ◌≡◌, refl, sym, ◌∙◌, subst, Bool, true, false, if◌then◌else◌, Option, none, some, List, [], ◌∷◌,
  ◌⊎◌, inl, inr, Bytes, bytes_eq, ◌==◌, Dict, lookup, insert, delete, any, arith, ==_iff,
  lookup-insert, lookup-delete, Bool-cases, Option-cases, Sum-cases,
}
use yabber.Config.{Config}
use yabber.Server.{
  ListenerSpec, spec_eq, Snapshot, bound, Network, RunningListener, Server, Bound, bound_all,
  not_bound, listen, unchanged, stop_accepting, bind_all, drain_stale, add_started, rebind,
}
use yabber.Server.Restoring.{
  rebind_missing, rebind_failed, rebind_restored, after_failure, after_restoring,
}
use yabber.Server.Binding.{wanted, bind_all_missing, bind_all_kept, bind_all_failed, bind_all_new}

module _ (n : Network) (compile : Config → Option Snapshot → Bytes ⊎ Snapshot) where
  -- A listener with this spec on a socket that the network gave for its address, which accepts
  -- connections and has not failed.
  abbrev pub Accepting : ListenerSpec → RunningListener n compile → Type 0
  Accepting spec r =
      (r.spec ≡ spec)
      × (r.closing ≡ false)
      × (r.failure ≡ none)
      × (w : n.World) × ((n.listen spec.address w).1 ≡ inr r.socket)

  abbrev pub Opened : ListenerSpec → Option (RunningListener n compile) → Type 0
  Opened spec found = (r : RunningListener n compile) × (found ≡ some r) × Accepting spec r

  listen-Accepting :
      (spec : ListenerSpec) (w : n.World) (r : RunningListener n compile)
      → (listen n compile spec w).1 ≡ inr r
      → Accepting spec r
  unfolding listen
  listen-Accepting spec w r h = elim (Sum-cases (n.listen spec.address w).1) [
    | inl (err, e) ↦ absurd (ground arith)
    | inr (socket, e) ↦ (ground arith, ground arith, ground arith, w, ground arith)
  ]

  abbrev pub either_one :
      Option (RunningListener n compile)
      → Option (RunningListener n compile)
      → Option (RunningListener n compile)
  either_one none other = other
  either_one (some r) other = some r

  pub lookup-stop_accepting :
      (names : List Bytes) (m : Dict Bytes (RunningListener n compile)) (w : n.World) (j : Bytes)
      → any (λ k. k == j) names ≡ false
      → lookup j (stop_accepting n compile names m w).0 ≡ lookup j m
  unfolding stop_accepting any
  lookup-stop_accepting [] m w j h = refl
  lookup-stop_accepting (name ∷ names) m w j h = elim (Option-cases (lookup name m)) [
    | inl e ↦ rw (e, stop_accepting) (lookup-stop_accepting names m w j (ground arith))
    | inr (r, e) ↦
        rw (e, stop_accepting)
          (lookup-stop_accepting names (insert name (record r { closing = true }) m)
              (n.close r.socket w) j (ground arith)
            ∙ ground (arith, lookup-insert name j (record r { closing = true }) m))
  ]

  pub lookup-drain_stale :
      (names : List Bytes) (s : Server n compile) (j : Bytes)
      → lookup j (drain_stale n compile names s).running
        ≡ (if any (λ k. k == j) names then none else lookup j s.running)
  unfolding drain_stale any
  lookup-drain_stale [] s j = refl
  lookup-drain_stale (name ∷ names) s j = elim (Option-cases (lookup name s.running)) [
    | inl e ↦ rw (e, drain_stale) (lookup-drain_stale names s j ∙ ground (arith, ==_iff name j))
    | inr (r, e) ↦
        rw (e, drain_stale)
          (lookup-drain_stale names
              (record s {
                draining = record r { closing = true } ∷ s.draining;
                running = delete name s.running;
              })
              j
            ∙ ground (arith, lookup-delete name j s.running))
  ]

  pub lookup-add_started :
      (started m : Dict Bytes (RunningListener n compile)) (j : Bytes)
      → lookup j (add_started n compile started m) ≡ either_one (lookup j started) (lookup j m)
  unfolding add_started lookup
  lookup-add_started [] m j = refl
  lookup-add_started ((k, r) ∷ started) m j =
      ground (
        arith,
        lookup-insert k j r (add_started n compile started m),
        lookup-add_started started m j,
      )

  -- What rebinding leaves under a name that is listed or not, and reported as failed or not.
  abbrev pub Rebound :
      Bool → Bool → Option (RunningListener n compile) → Option (RunningListener n compile) → Type 0
  Rebound listed true before after = after ≡ none
  Rebound false false before after = after ≡ before
  Rebound true false none after = after ≡ none
  Rebound true false (some old) after = Opened old.spec after

  Rebound-absent :
      (listed failed : Bool) (after : Option (RunningListener n compile))
      → Rebound listed failed none after
      → after ≡ none
  Rebound-absent true true after h = h
  Rebound-absent false true after h = h
  Rebound-absent true false after h = h
  Rebound-absent false false after h = h

  absent-Rebound :
      (failed : Bool) (after : Option (RunningListener n compile))
      → after ≡ none
      → Rebound true failed none after
  absent-Rebound true after h = h
  absent-Rebound false after h = h

  Rebound-again :
      (listed failed : Bool) (after : Option (RunningListener n compile))
      (old r : RunningListener n compile)
      → Accepting old.spec r
      → Rebound listed failed (some r) after
      → Rebound true failed (some old) after
  Rebound-again true true after old r a h = h
  Rebound-again false true after old r a h = h
  Rebound-again false false after old r a h = (r, h, a)
  Rebound-again true false after old r a h = subst (λ spec. Opened spec after) a.0 h

  Rebound-gone :
      (listed failed : Bool) (before after : Option (RunningListener n compile))
      → before ≡ none
      → Rebound listed failed before after
      → after ≡ none
  Rebound-gone listed failed before after gone h =
      Rebound-absent listed failed after (subst (λ o. Rebound listed failed o after) gone h)

  Rebound-missing :
      (listed failed : Bool) (before after : Option (RunningListener n compile))
      → before ≡ none
      → Rebound listed failed before after
      → Rebound true failed before after
  Rebound-missing listed failed before after gone h =
      subst (λ o. Rebound true failed o after) (sym gone)
        (absent-Rebound failed after (Rebound-gone listed failed before after gone h))

  Rebound-restored :
      (listed failed : Bool) (before between after : Option (RunningListener n compile))
      (old r : RunningListener n compile)
      → Accepting old.spec r
      → before ≡ some old
      → between ≡ some r
      → Rebound listed failed between after
      → Rebound true failed before after
  Rebound-restored listed failed before between after old r a was new h =
      subst (λ o. Rebound true failed o after) (sym was)
        (Rebound-again listed failed after old r a
          (subst (λ o. Rebound listed failed o after) new h))

  pub rebind-Rebound :
      (names : List Bytes) (s : Server n compile) (j : Bytes)
      → Rebound
          (any (λ k. k == j) names)
          (any (λ err. err.0 == j) (rebind n compile names s).1)
          (lookup j s.running)
          (lookup j (rebind n compile names s).0.running)
  rebind-Rebound [] s j = unfold rebind any in refl
  rebind-Rebound (name ∷ names) s j = elim (Option-cases (lookup name s.running)) [
    | inl e ↦ rw (rebind_missing n compile name names s e) (
        skipped (rebind n compile names s).0.running (rebind n compile names s).1 e
          (rebind-Rebound names s j))
    | inr (old, e) ↦ elim (Sum-cases (listen n compile old.spec s.world).1) [
      | inl (err, l) ↦
          rw (rebind_failed n compile name names s old err e l)
            (lost old err _ _ (rebind-Rebound names (after_failure n compile name old s) j))
      | inr (r, l) ↦ rw (rebind_restored n compile name names s old r e l) (
          restored old r _ _ e (listen-Accepting old.spec s.world r l)
            (rebind-Rebound names (after_restoring n compile name old r s) j))
    ]
  ]
    where
      skipped :
          (m' : Dict Bytes (RunningListener n compile)) (errs : List (Bytes × Bytes))
          → lookup name s.running ≡ none
          → Rebound
              (any (λ k. k == j) names)
              (any (λ err. err.0 == j) errs)
              (lookup j s.running)
              (lookup j m')
          → Rebound
              (any (λ k. k == j) (name ∷ names))
              (any (λ err. err.0 == j) errs)
              (lookup j s.running)
              (lookup j m')
      skipped m' errs e h = elim (Bool-cases (name == j)) [
        | inl same ↦
            unfold any in
            (rw same (
              Rebound-missing (any (λ k. k == j) names) (any (λ err. err.0 == j) errs)
                (lookup j s.running) (lookup j m') (ground (arith, ==_iff name j)) h))
        | inr other ↦ unfold any in (rw other h)
      ]

      lost :
          (old : RunningListener n compile) (err : Bytes)
          (m' : Dict Bytes (RunningListener n compile)) (errs : List (Bytes × Bytes))
          → Rebound
              (any (λ k. k == j) names)
              (any (λ err. err.0 == j) errs)
              (lookup j (delete name s.running))
              (lookup j m')
          → Rebound
              (any (λ k. k == j) (name ∷ names))
              (any (λ err. err.0 == j) ((name, err) ∷ errs))
              (lookup j s.running)
              (lookup j m')
      lost old err m' errs h = elim (Bool-cases (name == j)) [
        | inl same ↦
            unfold any in
            (rw same (
              Rebound-gone (any (λ k. k == j) names) (any (λ err'. err'.0 == j) errs)
                (lookup j (delete name s.running)) (lookup j m')
                (ground (arith, lookup-delete name j s.running)) h))
        | inr other ↦ unfold any in (rw (other, sym (deleted other)) h)
      ]
        where
          deleted : (name == j) ≡ false → lookup j (delete name s.running) ≡ lookup j s.running
          deleted other = ground (arith, lookup-delete name j s.running)

      restored :
          (old r : RunningListener n compile) (m' : Dict Bytes (RunningListener n compile))
          (errs : List (Bytes × Bytes))
          → lookup name s.running ≡ some old
          → Accepting old.spec r
          → Rebound
              (any (λ k. k == j) names)
              (any (λ err. err.0 == j) errs)
              (lookup j (insert name r s.running))
              (lookup j m')
          → Rebound
              (any (λ k. k == j) (name ∷ names))
              (any (λ err. err.0 == j) errs)
              (lookup j s.running)
              (lookup j m')
      restored old r m' errs e a h = elim (Bool-cases (name == j)) [
        | inl same ↦
            unfold any in
            (rw same (
              Rebound-restored (any (λ k. k == j) names) (any (λ err. err.0 == j) errs)
                (lookup j s.running) (lookup j (insert name r s.running)) (lookup j m') old r a
                (ground (arith, ==_iff name j)) (ground (arith, lookup-insert name j r s.running))
                h))
        | inr other ↦ unfold any in (rw (other, sym (inserted other)) h)
      ]
        where
          inserted : (name == j) ≡ false → lookup j (insert name r s.running) ≡ lookup j s.running
          inserted other = ground (arith, lookup-insert name j r s.running)

  abbrev pub Filled :
      Option ListenerSpec
      → Option (RunningListener n compile)
      → Option (RunningListener n compile)
      → Type 0
  Filled none before after = after ≡ before
  Filled (some spec) before after = Opened spec after

  abbrev pub Fills :
      Snapshot
      → Dict Bytes (RunningListener n compile)
      → List Bytes
      → Dict Bytes (RunningListener n compile)
      → Bound n compile
      → Type 0
  Fills next m names started (not_bound w started' name err) = Unit
  Fills next m names started (bound_all w started') =
      (j : Bytes) → Filled (wanted n compile next m names j) (lookup j started) (lookup j started')

  skip-Fills :
      (next : Snapshot) (m : Dict Bytes (RunningListener n compile)) (name : Bytes)
      (names : List Bytes) (started : Dict Bytes (RunningListener n compile)) (b : Bound n compile)
      → (lookup name (bound next) ≡ none) ⊎ (unchanged n compile next m name ≡ true)
      → Fills next m names started b
      → Fills next m (name ∷ names) started b
  skip-Fills next m name names started (not_bound w k failed err) settled h = tt
  skip-Fills next m name names started (bound_all w started') settled h =
      λ j. subst (λ spec. Filled spec (lookup j started) (lookup j started')) (same j) (h j)
    where
      same :
          (j : Bytes) → wanted n compile next m names j ≡ wanted n compile next m (name ∷ names) j
      same j = unfold any in (ground (arith, ==_iff name j))

  Filled-again :
      (o : Option ListenerSpec) (spec : ListenerSpec) (r : RunningListener n compile)
      (after : Option (RunningListener n compile))
      → Accepting spec r
      → ((spec' : ListenerSpec) → o ≡ some spec' → spec' ≡ spec)
      → Filled o (some r) after
      → Opened spec after
  Filled-again none spec r after a same h = (r, h, a)
  Filled-again (some spec') spec r after a same h =
      subst (λ sp. Opened sp after) (same spec' refl) h

  add-Fills :
      (next : Snapshot) (m : Dict Bytes (RunningListener n compile)) (name : Bytes)
      (names : List Bytes) (started : Dict Bytes (RunningListener n compile)) (spec : ListenerSpec)
      (r : RunningListener n compile) (b : Bound n compile)
      → lookup name (bound next) ≡ some spec
      → unchanged n compile next m name ≡ false
      → Accepting spec r
      → Fills next m names (insert name r started) b
      → Fills next m (name ∷ names) started b
  add-Fills next m name names started spec r (not_bound w k failed err) e u a h = tt
  add-Fills next m name names started spec r (bound_all w started') e u a h = λ j.
      elim (Bool-cases (name == j)) [
        | inl same ↦
            let new : lookup j (insert name r started) ≡ some r =
              ground (arith, lookup-insert name j r started) in
            subst (λ o. Filled o (lookup j started) (lookup j started')) (sym (is_wanted j same))
              (Filled-again (wanted n compile next m names j) spec r (lookup j started') a
                (only j same)
                (subst (λ o. Filled (wanted n compile next m names j) o (lookup j started')) new
                  (h j)))
        | inr other ↦
            let kept : lookup j (insert name r started) ≡ lookup j started =
              ground (arith, lookup-insert name j r started) in
            subst (λ o. Filled o (lookup j started) (lookup j started')) (unaffected j other)
              (subst (λ o. Filled (wanted n compile next m names j) o (lookup j started')) kept
                (h j))
      ]
    where
      is_wanted :
          (j : Bytes) → (name == j) ≡ true → wanted n compile next m (name ∷ names) j ≡ some spec
      is_wanted j same = unfold any in (ground (arith, ==_iff name j))

      only :
          (j : Bytes)
          → (name == j) ≡ true
          → (spec' : ListenerSpec) → wanted n compile next m names j ≡ some spec'
          → spec' ≡ spec
      only j same spec' f = ground (arith, ==_iff name j)

      unaffected :
          (j : Bytes)
          → (name == j) ≡ false
          → wanted n compile next m names j ≡ wanted n compile next m (name ∷ names) j
      unaffected j other = unfold any in (ground arith)

  pub bind_all-Fills :
      (next : Snapshot) (m : Dict Bytes (RunningListener n compile)) (names : List Bytes)
      (started : Dict Bytes (RunningListener n compile)) (w : n.World)
      → Fills next m names started (bind_all n compile next m names started w)
  bind_all-Fills next m [] started w = unfold bind_all any in λ j. refl
  bind_all-Fills next m (name ∷ names) started w = elim (Option-cases (lookup name (bound next))) [
    | inl e ↦
        rw (bind_all_missing n compile next m name names started w e)
          (skip-Fills next m name names started _ (inl e) (bind_all-Fills next m names started w))
    | inr (spec, e) ↦ elim (Bool-cases (unchanged n compile next m name)) [
      | inl u ↦
          rw (bind_all_kept n compile next m name names started w spec e u)
            (skip-Fills next m name names started _ (inr u) (bind_all-Fills next m names started w))
      | inr u ↦ elim (Sum-cases (listen n compile spec w).1) [
        | inl (err, l) ↦
            rw (bind_all_failed n compile next m name names started w spec err e u l) tt
        | inr (r, l) ↦ rw (bind_all_new n compile next m name names started w spec r e u l) (
            add-Fills next m name names started spec r _ e u (listen-Accepting spec w r l)
              (bind_all-Fills next m names (insert name r started) (listen n compile spec w).0))
      ]
    ]
  ]
