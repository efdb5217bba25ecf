-- ===== src/Server/Restoring.antt =====
-- Restoring the listeners that a failed change had stopped.
use yabber.Base.{
  ◌≡◌, refl, true, if◌then◌else◌, Option, none, some, List, [], ◌∷◌, ◌⊎◌, inl, inr, Bytes, bytes_eq,
  ◌==◌, lookup, insert, delete, any, arith, ==_iff, Option-cases, Sum-cases,
}
use yabber.Config.{Config}
use yabber.Server.{spec_eq, Snapshot, Network, RunningListener, Server, listen, rebind}
use yabber.Server.Specs.{
  running_spec, running_spec-insert, running_spec-delete, running_spec_found, listen-spec,
}

module _ (n : Network) (compile : Config → Option Snapshot → Bytes ⊎ Snapshot) where
  abbrev pub after_failure : Bytes → RunningListener n compile → Server n compile → Server n compile
  after_failure name old s = record s {
    running = delete name s.running;
    draining = record old { closing = true } ∷ s.draining;
    world = (listen n compile old.spec s.world).0;
  }

  abbrev pub after_restoring :
      Bytes
      → RunningListener n compile
      → RunningListener n compile
      → Server n compile
      → Server n compile
  after_restoring name old r s = record s {
    running = insert name r s.running;
    draining = record old { closing = true } ∷ s.draining;
    world = (listen n compile old.spec s.world).0;
  }

  pub rebind_missing :
      (name : Bytes) (names : List Bytes) (s : Server n compile)
      → lookup name s.running ≡ none
      → rebind n compile (name ∷ names) s ≡ rebind n compile names s
  unfolding rebind
  rebind_missing name names s e = rw (e, rebind) refl

  pub rebind_failed :
      (name : Bytes) (names : List Bytes) (s : Server n compile) (old : RunningListener n compile)
      (err : Bytes)
      → lookup name s.running ≡ some old
      → (listen n compile old.spec s.world).1 ≡ inl err
      → rebind n compile (name ∷ names) s ≡ (
        (rebind n compile names (after_failure name old s)).0,
        (name, err) ∷ (rebind n compile names (after_failure name old s)).1,
      )
  unfolding rebind
  rebind_failed name names s old err e l = rw (e, l, rebind) refl

  pub rebind_restored :
      (name : Bytes) (names : List Bytes) (s : Server n compile) (old r : RunningListener n compile)
      → lookup name s.running ≡ some old
      → (listen n compile old.spec s.world).1 ≡ inr r
      → rebind n compile (name ∷ names) s ≡ rebind n compile names (after_restoring name old r s)
  unfolding rebind
  rebind_restored name names s old r e l = rw (e, l, rebind) refl

  -- A listener that cannot be restored is reported and gone; all others keep their spec in the map.
  pub running_spec-rebind :
      (names : List Bytes) (s : Server n compile) (j : Bytes)
      → running_spec n compile j (rebind n compile names s).0.running ≡ (
          if any (λ err. err.0 == j) (rebind n compile names s).1
          then none
          else running_spec n compile j s.running)
  unfolding any
  running_spec-rebind [] s j = unfold rebind in refl
  running_spec-rebind (name ∷ names) s j = elim (Option-cases (lookup name s.running)) [
    | inl e ↦ rw (rebind_missing name names s e) (running_spec-rebind names s j)
    | inr (old, e) ↦ elim (Sum-cases (listen n compile old.spec s.world).1) [
      | inl (err, l) ↦ rw (rebind_failed name names s old err e l) (
          ground (
            arith,
            running_spec-rebind names (after_failure name old s) j,
            running_spec-delete n compile name j s.running,
          ))
      | inr (r, l) ↦ rw (rebind_restored name names s old r e l) (
          ground (
            arith,
            running_spec-rebind names (after_restoring name old r s) j,
            running_spec-insert n compile name j r s.running,
            running_spec_found n compile name old s.running e,
            listen-spec n compile old.spec s.world r l,
            ==_iff name j,
          ))
    ]
  ]
