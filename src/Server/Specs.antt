-- ===== src/Server/Specs.antt =====
-- Which specs stand in the map of listeners: what each step of a change of the configuration does to them.
use yabber.Base.{
  ◌≡◌, refl, ◌∙◌, true, false, not, ◌&&◌, if◌then◌else◌, Option, none, some, List, [], ◌∷◌, ◌⊎◌,
  inl, inr, Bytes, bytes_eq, ◌==◌, Dict, lookup, insert, delete, any, arith, ==_iff, lookup-insert,
  lookup-delete, Option-cases,
}
use yabber.Config.{Config}
use yabber.Server.{
  ListenerSpec, spec_eq, Snapshot, bound, keys, Network, RunningListener, Server, listen, unchanged,
  stale_names, stop_accepting, drain_stale, add_started,
}

pub key_of_lookup :
    {A : Type 0} (k : Bytes) (v : A) (m : Dict Bytes A)
    → lookup k m ≡ some v
    → any (λ j. j == k) (keys m) ≡ true
unfolding lookup any
key_of_lookup k v [] h = absurd (ground arith)
key_of_lookup k v ((j, w) ∷ m) h = ground (arith, key_of_lookup k v m)

abbrev pub first : Option ListenerSpec → Option ListenerSpec → Option ListenerSpec
first none other = other
first (some spec) other = some spec

module _ (n : Network) (compile : Config → Option Snapshot → Bytes ⊎ Snapshot) where
  -- The spec under which a name stands in the map of listeners, whether its socket is open or not.
  unfoldable pub running_spec : Bytes → Dict Bytes (RunningListener n compile) → Option ListenerSpec
  running_spec name m = elim (lookup name m) [ none ↦ none | some r ↦ some r.spec ]

  pub running_spec-insert :
      (k j : Bytes) (r : RunningListener n compile) (m : Dict Bytes (RunningListener n compile))
      → running_spec j (insert k r m) ≡ (if k == j then some r.spec else running_spec j m)
  unfolding running_spec
  running_spec-insert k j r m = ground (arith, lookup-insert k j r m)

  pub running_spec-delete :
      (k j : Bytes) (m : Dict Bytes (RunningListener n compile))
      → running_spec j (delete k m) ≡ (if k == j then none else running_spec j m)
  unfolding running_spec
  running_spec-delete k j m = ground (arith, lookup-delete k j m)

  pub running_spec_found :
      (k : Bytes) (r : RunningListener n compile) (m : Dict Bytes (RunningListener n compile))
      → lookup k m ≡ some r
      → running_spec k m ≡ some r.spec
  unfolding running_spec
  running_spec_found k r m h = rw (h, running_spec) refl

  pub running_spec_listed :
      (k : Bytes) (m : Dict Bytes (RunningListener n compile))
      → any (λ j. j == k) (keys m) ≡ false
      → running_spec k m ≡ none
  unfolding running_spec
  running_spec_listed k m h = elim (Option-cases (lookup k m)) [
    | inl e ↦ rw (e, running_spec) refl
    | inr (r, e) ↦ absurd (ground (arith, key_of_lookup k r m e))
  ]

  pub running_spec-stop_accepting :
      (names : List Bytes) (m : Dict Bytes (RunningListener n compile)) (w : n.World) (j : Bytes)
      → running_spec j (stop_accepting n compile names m w).0 ≡ running_spec j m
  unfolding stop_accepting
  running_spec-stop_accepting [] m w j = refl
  running_spec-stop_accepting (name ∷ names) m w j = elim (Option-cases (lookup name m)) [
    | inl e ↦ rw (e, stop_accepting) (running_spec-stop_accepting names m w j)
    | inr (r, e) ↦
        rw (e, stop_accepting)
          (running_spec-stop_accepting names (insert name (record r { closing = true }) m)
              (n.close r.socket w) j
            ∙ ground (
              arith,
              running_spec-insert name j (record r { closing = true }) m,
              running_spec_found name r m e,
              ==_iff name j,
            ))
  ]

  -- What `unchanged` says of the specs.
  pub unchanged_specs :
      (next : Snapshot) (m : Dict Bytes (RunningListener n compile)) (name : Bytes)
      → unchanged n compile next m name ≡ elim (running_spec name m) [
        | none ↦ false
        | some spec ↦ elim (lookup name (bound next)) [
          | none ↦ false
          | some wanted ↦ wanted == spec
        ]
      ]
  unfolding unchanged running_spec
  unchanged_specs next m name = elim (Option-cases (lookup name m)) [
    | inl e ↦ rw (e, unchanged, running_spec) refl
    | inr (r, e) ↦ rw (e, unchanged, running_spec) refl
  ]

  pub unchanged-bound :
      (next : Snapshot) (m : Dict Bytes (RunningListener n compile)) (name : Bytes)
      → unchanged n compile next m name ≡ true
      → running_spec name m ≡ lookup name (bound next)
  unchanged-bound next m name h = elim (Option-cases (running_spec name m)) [
    | inl e ↦ ground (arith, unchanged_specs next m name)
    | inr (spec, e) ↦ elim (Option-cases (lookup name (bound next))) [
      | inl f ↦ ground (arith, unchanged_specs next m name)
      | inr (wanted, f) ↦ ground (arith, unchanged_specs next m name, ==_iff wanted spec)
    ]
  ]

  pub stale_names-any :
      (next : Snapshot) (m : Dict Bytes (RunningListener n compile)) (names : List Bytes)
      (j : Bytes)
      → any (λ k. k == j) (stale_names n compile next m names)
        ≡ (any (λ k. k == j) names && not (unchanged n compile next m j))
  unfolding stale_names any
  stale_names-any next m [] j = refl
  stale_names-any next m (name ∷ names) j =
      ground (arith, stale_names-any next m names j, ==_iff name j)

  pub running_spec-drain_stale :
      (names : List Bytes) (s : Server n compile) (j : Bytes)
      → running_spec j (drain_stale n compile names s).running
        ≡ (if any (λ k. k == j) names then none else running_spec j s.running)
  unfolding drain_stale any
  running_spec-drain_stale [] s j = refl
  running_spec-drain_stale (name ∷ names) s j = elim (Option-cases (lookup name s.running)) [
    | inl e ↦
        rw (e, drain_stale)
          (running_spec-drain_stale names s j ∙ ground (arith, ==_iff name j, gone e))
    | inr (r, e) ↦
        rw (e, drain_stale)
          (running_spec-drain_stale names
              (record s {
                draining = record r { closing = true } ∷ s.draining;
                running = delete name s.running;
              })
              j
            ∙ ground (arith, running_spec-delete name j s.running))
  ]
    where
      gone : lookup name s.running ≡ none → running_spec name s.running ≡ none
      gone e = unfold running_spec in rw (e, running_spec) refl

  pub running_spec-add_started :
      (started m : Dict Bytes (RunningListener n compile)) (j : Bytes)
      → running_spec j (add_started n compile started m)
        ≡ first (running_spec j started) (running_spec j m)
  unfolding add_started running_spec lookup
  running_spec-add_started [] m j = refl
  running_spec-add_started ((k, r) ∷ started) m j = ground (
    arith,
    lookup-insert k j r (add_started n compile started m),
    running_spec-add_started started m j,
  )

  pub listen-spec :
      (spec : ListenerSpec) (w : n.World) (r : RunningListener n compile)
      → (listen n compile spec w).1 ≡ inr r
      → r.spec ≡ spec
  unfolding listen
  listen-spec spec w r h = ground arith
