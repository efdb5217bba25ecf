-- ===== src/Server/Binding.antt =====
-- Binding the listeners of a new configuration.
use yabber.Base.{
  ◌≡◌, refl, sym, ap, ◌∙◌, true, false, not, ◌&&◌, if◌then◌else◌, Option, none, some, List, [], ◌∷◌,
  ◌⊎◌, inl, inr, Bytes, bytes_eq, ◌==◌, Dict, lookup, insert, any, arith, ==_iff, Bool-cases,
  Option-cases, Sum-cases,
}
use yabber.Config.{Config}
use yabber.Server.{
  ListenerSpec, spec_eq, Snapshot, bound, Network, RunningListener, Bound, bound_all, not_bound,
  listen, unchanged, bind_all,
}
use yabber.Server.Specs.{first, running_spec, running_spec-insert, listen-spec}

module _ (n : Network) (compile : Config → Option Snapshot → Bytes ⊎ Snapshot) where
  -- The specs that a successful binding adds.
  abbrev pub wanted :
      Snapshot → Dict Bytes (RunningListener n compile) → List Bytes → Bytes → Option ListenerSpec
  wanted next m names j =
      if any (λ k. k == j) names && not (unchanged n compile next m j)
      then lookup j (bound next)
      else none

  abbrev pub Binds :
      Snapshot
      → Dict Bytes (RunningListener n compile)
      → List Bytes
      → Dict Bytes (RunningListener n compile)
      → Bound n compile
      → Type 0
  Binds next m names started (not_bound w started' name err) = Unit
  Binds next m names started (bound_all w started') =
      (j : Bytes)
      → running_spec n compile j started'
        ≡ first (wanted next m names j) (running_spec n compile j started)

  pub bind_all_missing :
      (next : Snapshot) (m : Dict Bytes (RunningListener n compile)) (name : Bytes)
      (names : List Bytes) (started : Dict Bytes (RunningListener n compile)) (w : n.World)
      → lookup name (bound next) ≡ none
      → bind_all n compile next m (name ∷ names) started w
        ≡ bind_all n compile next m names started w
  unfolding bind_all
  bind_all_missing next m name names started w e = rw (e, bind_all) refl

  pub bind_all_kept :
      (next : Snapshot) (m : Dict Bytes (RunningListener n compile)) (name : Bytes)
      (names : List Bytes) (started : Dict Bytes (RunningListener n compile)) (w : n.World)
      (spec : ListenerSpec)
      → lookup name (bound next) ≡ some spec
      → unchanged n compile next m name ≡ true
      → bind_all n compile next m (name ∷ names) started w
        ≡ bind_all n compile next m names started w
  unfolding bind_all
  bind_all_kept next m name names started w spec e u = rw (e, u, bind_all) refl

  pub bind_all_failed :
      (next : Snapshot) (m : Dict Bytes (RunningListener n compile)) (name : Bytes)
      (names : List Bytes) (started : Dict Bytes (RunningListener n compile)) (w : n.World)
      (spec : ListenerSpec) (err : Bytes)
      → lookup name (bound next) ≡ some spec
      → unchanged n compile next m name ≡ false
      → (listen n compile spec w).1 ≡ inl err
      → bind_all n compile next m (name ∷ names) started w
        ≡ not_bound (listen n compile spec w).0 started name err
  unfolding bind_all
  bind_all_failed next m name names started w spec err e u l = rw (e, u, l, bind_all) refl

  pub bind_all_new :
      (next : Snapshot) (m : Dict Bytes (RunningListener n compile)) (name : Bytes)
      (names : List Bytes) (started : Dict Bytes (RunningListener n compile)) (w : n.World)
      (spec : ListenerSpec) (r : RunningListener n compile)
      → lookup name (bound next) ≡ some spec
      → unchanged n compile next m name ≡ false
      → (listen n compile spec w).1 ≡ inr r
      → bind_all n compile next m (name ∷ names) started w
        ≡ bind_all n compile next m names (insert name r started) (listen n compile spec w).0
  unfolding bind_all
  bind_all_new next m name names started w spec r e u l = rw (e, u, l, bind_all) refl

  -- A name that is not to be bound, or is bound already, adds nothing.
  abbrev Settled : Snapshot → Dict Bytes (RunningListener n compile) → Bytes → Type 0
  Settled next m name = (lookup name (bound next) ≡ none) ⊎ (unchanged n compile next m name ≡ true)

  skip-Binds :
      (next : Snapshot) (m : Dict Bytes (RunningListener n compile)) (name : Bytes)
      (names : List Bytes) (started : Dict Bytes (RunningListener n compile)) (b : Bound n compile)
      → Settled next m name
      → Binds next m names started b
      → Binds next m (name ∷ names) started b
  skip-Binds next m name names started (not_bound w k failed err) settled h = tt
  skip-Binds next m name names started (bound_all w started') settled h =
      unfold any in λ j. ground (arith, h j, ==_iff name j)

  add-Binds :
      (next : Snapshot) (m : Dict Bytes (RunningListener n compile)) (name : Bytes)
      (names : List Bytes) (started : Dict Bytes (RunningListener n compile))
      (r : RunningListener n compile) (b : Bound n compile)
      → lookup name (bound next) ≡ some r.spec
      → unchanged n compile next m name ≡ false
      → Binds next m names (insert name r started) b
      → Binds next m (name ∷ names) started b
  add-Binds next m name names started r (not_bound w k failed err) e u h = tt
  add-Binds next m name names started r (bound_all w started') e u h =
      unfold any in
      λ j. ground (arith, h j, running_spec-insert n compile name j r started, ==_iff name j)

  pub bind_all-Binds :
      (next : Snapshot) (m : Dict Bytes (RunningListener n compile)) (names : List Bytes)
      (started : Dict Bytes (RunningListener n compile)) (w : n.World)
      → Binds next m names started (bind_all n compile next m names started w)
  bind_all-Binds next m [] started w = unfold bind_all any in λ j. refl
  bind_all-Binds next m (name ∷ names) started w = elim (Option-cases (lookup name (bound next))) [
    | inl e ↦
        rw (bind_all_missing next m name names started w e)
          (skip-Binds next m name names started _ (inl e) (bind_all-Binds next m names started w))
    | inr (spec, e) ↦ elim (Bool-cases (unchanged n compile next m name)) [
      | inl u ↦
          rw (bind_all_kept next m name names started w spec e u)
            (skip-Binds next m name names started _ (inr u) (bind_all-Binds next m names started w))
      | inr u ↦ elim (Sum-cases (listen n compile spec w).1) [
        | inl (err, l) ↦ rw (bind_all_failed next m name names started w spec err e u l) tt
        | inr (r, l) ↦ rw (bind_all_new next m name names started w spec r e u l) (
            add-Binds next m name names started r _
              (e ∙ ap some (sym (listen-spec n compile spec w r l))) u
              (bind_all-Binds next m names (insert name r started) (listen n compile spec w).0))
      ]
    ]
  ]
