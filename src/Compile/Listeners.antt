-- ===== src/Compile/Listeners.antt =====
-- The listeners of a configuration are compiled one by one, each under its name.
use yabber.Base.{
  ℕ, ◌≡◌, ◌⊎◌, inl, inr, refl, sym, subst, Bool, true, false, if◌then◌else◌, Option, none, some,
  List, [], ◌∷◌, Bytes, bytes_eq, ◌==◌, ==_iff, Dict, lookup, insert, lookup-insert, is_some, arith,
  Option-cases,
}
use yabber.Config.{ServerConfig, Listener}
use yabber.Server.{ListenerSpec}
use yabber.Compile.{ListenersError, spec_for, check_listener, listeners_from, listeners}

abbrev pub named : Bytes → List Listener → Option Listener
named name [] = none
named name (l ∷ ls) = if l.name == name then some l else named name ls

module _ (proxies_ok : List Bytes → Bool) (server : ServerConfig) (min_tls : ℕ) where
  abbrev spec_of : Option Listener → Option ListenerSpec → Option ListenerSpec
  spec_of none other = other
  spec_of (some l) other = some (spec_for server min_tls l)

  abbrev Compiles :
      List Listener → Dict Bytes ListenerSpec → ListenersError ⊎ Dict Bytes ListenerSpec → Type 0
  Compiles ls specs (inl e) = Unit
  Compiles ls specs (inr result) =
      (name : Bytes)
      → lookup name result
        ≡ (if is_some (lookup name specs) then lookup name specs else spec_of (named name ls) none)

  fresh_name :
      (l : Listener) (specs : Dict Bytes ListenerSpec) (addresses : Dict Bytes Bytes)
      → check_listener proxies_ok server min_tls l specs addresses ≡ none
      → lookup l.name specs ≡ none
  unfolding check_listener
  fresh_name l specs addresses h = ground arith

  cons-Compiles :
      (l : Listener) (ls : List Listener) (specs : Dict Bytes ListenerSpec)
      (result : ListenersError ⊎ Dict Bytes ListenerSpec)
      → lookup l.name specs ≡ none
      → Compiles ls (insert l.name (spec_for server min_tls l) specs) result
      → Compiles (l ∷ ls) specs result
  cons-Compiles l ls specs (inl e) f h = tt
  cons-Compiles l ls specs (inr result) f h = λ name. ground (
    arith,
    h name,
    lookup-insert l.name name (spec_for server min_tls l) specs,
    ==_iff l.name name,
  )

  listeners_from-Compiles :
      (ls : List Listener) (specs : Dict Bytes ListenerSpec) (addresses : Dict Bytes Bytes)
      → Compiles ls specs (listeners_from proxies_ok server min_tls ls specs addresses)
  listeners_from-Compiles [] specs addresses = unfold listeners_from in λ name. ground arith
  listeners_from-Compiles (l ∷ ls) specs addresses =
      elim (Option-cases (check_listener proxies_ok server min_tls l specs addresses)) [
        | inr (e, c) ↦ rw (rejected e c) tt
        | inl c ↦ rw (accepted c) (
            cons-Compiles l ls specs _ (fresh_name l specs addresses c) (
              listeners_from-Compiles ls (insert l.name (spec_for server min_tls l) specs)
                (insert l.address l.name addresses)))
      ]
    where
      rejected :
          (e : ListenersError)
          → check_listener proxies_ok server min_tls l specs addresses ≡ some e
          → listeners_from proxies_ok server min_tls (l ∷ ls) specs addresses ≡ inl e
      rejected e c = unfold listeners_from in (rw (c, listeners_from) refl)

      accepted :
          check_listener proxies_ok server min_tls l specs addresses ≡ none
          → listeners_from proxies_ok server min_tls (l ∷ ls) specs addresses
            ≡ listeners_from proxies_ok server min_tls ls
                (insert l.name (spec_for server min_tls l) specs)
                (insert l.address l.name addresses)
      accepted c = unfold listeners_from in (rw (c, listeners_from) refl)

  lookup-spec_of :
      (ls : List Listener) (specs : Dict Bytes ListenerSpec) (name : Bytes)
      → listeners proxies_ok server min_tls ls ≡ inr specs
      → lookup name specs ≡ spec_of (named name ls) none
  unfolding listeners lookup
  lookup-spec_of ls specs name e = subst (Compiles ls []) e (listeners_from-Compiles ls [] []) name

  -- A spec for a listener of the configuration, or none where there is no listener.
  abbrev pub Describes : Option Listener → Option ListenerSpec → Type 0
  Describes none none = Unit
  Describes none (some spec) = ⊥
  Describes (some l) none = ⊥
  Describes (some l) (some spec) =
      (spec.address ≡ l.address)
      × (spec.tls ≡ l.tls)
      × (spec.server ≡ server)
      × (l.tls ≡ true → spec.min_tls ≡ min_tls)
      × (l.tls ≡ false → spec.min_tls ≡ 0)

  spec_of-Describes : (o : Option Listener) → Describes o (spec_of o none)
  spec_of-Describes none = tt
  spec_of-Describes (some l) = (refl, refl, refl, (λ on. ground arith), (λ off. ground arith))

  -- When the listeners compile, exactly the names of the configuration's listeners have a spec: the
  -- first listener with the name has its address and its TLS mode there, the minimum TLS version if
  -- it speaks TLS and 0 if it does not, and the limits of the server.
  pub listeners-Describes :
      (ls : List Listener) (specs : Dict Bytes ListenerSpec) (name : Bytes)
      → listeners proxies_ok server min_tls ls ≡ inr specs
      → Describes (named name ls) (lookup name specs)
  listeners-Describes ls specs name e =
      subst (Describes (named name ls)) (sym (lookup-spec_of ls specs name e))
        (spec_of-Describes (named name ls))
