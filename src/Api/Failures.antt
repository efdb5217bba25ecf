-- ===== src/Api/Failures.antt =====
-- What a request that is answered with an error leaves of the server and of the saved configuration.
use yabber.Base.{
  ◌≡◌, ◌⊎◌, inr, if◌then◌else◌, false, true, Option, none, some, Bytes, bytes_eq, ◌==◌, lookup, any,
}
use yabber.Config.{Config}
use yabber.Server.{Network, Server, Snapshot, Failure, bound}
use yabber.Server.Apply.{setup, unrestored}
use yabber.Server.Replacing.{Restored, Replaced}
use yabber.Api.{Api, ApiResponse, Options, active, is_stale, failure_response}

module _ (n : Network) (compile : Config → Option Snapshot → Bytes ⊎ Snapshot) where
  -- The listeners that a failure leaves: those of before, less those that it reports as not restored.
  abbrev pub Left : Failure → Server n compile → Server n compile → Type 0
  Left f s s' =
      (j : Bytes)
      → Restored n compile (any (λ err. err.0 == j) (unrestored n compile f)) (lookup j s.running)
          (lookup j s'.running)

  -- The configuration that is active now was compiled after the one of before and switched to.
  abbrev pub SwitchedTo : Server n compile → Server n compile → Type 0
  SwitchedTo s s' =
      (compile s'.current.config (some s.current) ≡ inr s'.current)
      × (s'.started ≡ s.started)
      × (s'.issuer_of ≡ (if s.started then s'.current.acme else none))
      × (s.started ≡ false → s'.running ≡ s.running)
      × (s.started ≡ true
          → (j : Bytes)
          → Replaced n compile (lookup j (bound s'.current)) (lookup j s.running)
              (lookup j s'.running))

  -- The snapshot, the flags, the background tasks and what was saved are those of before, and either
  -- the listeners are too, or the response is that of a failure and they are what it leaves.
  abbrev pub Same : Api n compile → Api n compile × ApiResponse → Type 0
  Same a (a', r) =
      (setup n compile a'.server ≡ setup n compile a.server)
      × (a'.saved ≡ a.saved)
      × ((a'.server.running ≡ a.server.running)
          ⊎ ((f : Failure) × (r ≡ failure_response f) × Left f a.server a'.server))

  -- The change passed its If-Match and was applied, and saving what is active now failed.
  abbrev pub Unsaved : Options → Bytes → Api n compile → Api n compile × ApiResponse → Type 0
  Unsaved o if_match a (a', r) =
      (r.status ≡ 500)
      × (a'.saved ≡ a.saved)
      × (is_stale if_match (o.etag_of (active n compile a)) ≡ false)
      × SwitchedTo a.server a'.server
      × ((save : Config → Option Bytes) × (err : Bytes) × (o.save ≡ some save)
          × (save (active n compile a') ≡ some err))
