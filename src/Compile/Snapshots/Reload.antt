-- ===== src/Compile/Snapshots/Reload.antt =====
-- What a reload takes over from the previous snapshot.
use yabber.Base.{ℕ, ◌≡◌, sym, subst, true, Option, none, some, [], bytes_eq, inr, lookup}
use yabber.Config.{Config, Policy}
use yabber.RateLimit.{Rates}
use yabber.Policies.{CompiledPolicy}
use yabber.Policies.Reuse.{Member, lookup-compile_policies}
use yabber.Proxy.{TransportKey, key_eq}
use yabber.Compile.Pools.{Agrees, compile_sites-Follows}
use yabber.Compile.Snapshots.{Options, Compilation, compile, is_ip, pools_before, no_tables}
use yabber.Compile.Snapshots.Contents.{compile_lem}

module _ (r : Rates) (o : Options r) where
  pools_before-Agrees : (prev : Option (Compilation r)) → Agrees (pools_before r o prev)
  unfolding lookup
  pools_before-Agrees prev key n m u v = absurd (none_known u)
    where
      none_known : none ≡ some n → ⊥
      none_known u = cc

  -- When a configuration compiles after a previous one, every pool of upstream connections of the
  -- new snapshot whose key the previous snapshot had is the same pool.
  pub compile-reload_pool :
      (now : ℕ) (cfg : Config) (prev snap : Compilation r) (key : TransportKey) (n m : ℕ)
      → compile r o now cfg (some prev) ≡ inr snap
      → lookup key snap.transports ≡ some n
      → lookup key prev.transports ≡ some m
      → n ≡ m
  compile-reload_pool now cfg prev snap key n m e u v =
      let (ls, c, (steps, policies, acme), taken) = compile_lem r o now cfg (some prev) snap e in
      let follows =
        compile_sites-Follows r o.web snap.policies (is_ip r o) snap.certs _ snap.listeners ls
          cfg.sites [] (no_tables r o) (pools_before r o (some prev)) steps.tables steps.pools
          steps.served in
      follows.agrees (pools_before-Agrees (some prev)) key n m
        (subst (λ d. lookup key d ≡ some n) steps.pooled u)
        (subst (λ d. lookup key d ≡ some m) (sym follows.previous) v)

  -- When a configuration compiles after a previous one, a policy whose definition is the same as that
  -- of the previous policy of its name is that policy, with its limiter and its slots.
  pub compile-reload_policy :
      (now : ℕ) (cfg : Config) (prev snap : Compilation r) (policy : Policy) (p : CompiledPolicy r)
      → compile r o now cfg (some prev) ≡ inr snap
      → Member policy cfg.policies
      → lookup policy.name prev.policies ≡ some p
      → o.same p.definition policy ≡ true
      → lookup policy.name snap.policies ≡ some p
  compile-reload_policy now cfg prev snap policy p e is known same =
      let (ls, c, (steps, policies, acme), taken) = compile_lem r o now cfg (some prev) snap e in
      subst (λ d. lookup policy.name d ≡ some p) (sym policies)
        (lookup-compile_policies r o.same prev.policies policy p prev.next_policy cfg.policies
          c.policies is known same taken.compiled)
