-- ===== src/Compile/Pools.antt =====
-- The upstream pools while a configuration is compiled: a transport whose key the previous
-- configuration had is the previous one.
use yabber.Base.{
  ℕ, ◌+◌, ◌≡◌, refl, ap, subst, ◌∙◌, Bool, some, List, [], ◌∷◌, Bytes, bytes_eq, ◌==◌, ==_iff, ◌⊎◌,
  nat_eq, inl, inr, bind-inr, inr_injective, Dict, lookup, insert, lookup-insert, arith,
  Option-cases, Bool-cases, is_neg, ◌||◌,
}
use yabber.Config.{Listener, Site, Route, Proxy, site_id}
use yabber.Config
use yabber.Tls.{CertificateStore}
use yabber.RateLimit.{Rates}
use yabber.Policies.{Handler, CompiledPolicy}
use yabber.Proxy.{TransportKey, key_eq, parse_upstream}
use yabber.Handlers.{
  Web, Pools, HandlerError, transport, proxy_handler, key_for, keeping, chosen_handler, handler,
  handler_count,
}
use yabber.Server.{ListenerSpec}
use yabber.Compile.Sites.{Compiled, route, register_routes, site_handler, handled}
use yabber.Compile.Tables.{Tables, compile_site, compile_sites}

-- Where both have a pool for a key, it is the same.
abbrev pub Agrees : Pools → Type 0
Agrees p =
    (key : TransportKey) (n m : ℕ)
    → lookup key p.used ≡ some n
    → lookup key p.previous ≡ some m
    → n ≡ m

pub record Follows (p p' : Pools) : Type 0 where
  pub previous : p'.previous ≡ p.previous
  pub agrees : Agrees p → Agrees p'

Follows-refl : (p : Pools) → Follows p p
Follows-refl p = record { previous = refl; agrees = λ a. a }

pub Follows-trans : (p q u : Pools) → Follows p q → Follows q u → Follows p u
Follows-trans p q u f g = record {
  previous = g.previous ∙ f.previous;
  agrees = λ a. g.agrees (f.agrees a);
}

insert-Follows :
    (key : TransportKey) (p : Pools) (k : ℕ) (next : ℕ)
    → (Agrees p → (m : ℕ) → lookup key p.previous ≡ some m → k ≡ m)
    → Follows p (record { used = insert key k p.used; previous = p.previous; next = next })
insert-Follows key p k next same = record {
  previous = refl;
  agrees = λ a other n m u v.
      ground (arith, lookup-insert key other k p.used, ==_iff key other, a other n m, same a m);
}

transport-Follows : (key : TransportKey) (p : Pools) → Follows p (transport key p).1
unfolding transport
transport-Follows key p = elim (Option-cases (lookup key p.used)) [
  | inr (n, u) ↦ rw (u, transport) (insert-Follows key p n p.next (λ a m v. a key n m u v))
  | inl u ↦ elim (Option-cases (lookup key p.previous)) [
    | inr (n, v) ↦ rw (u, v, transport) (insert-Follows key p n p.next (λ a m w. ground arith))
    | inl v ↦
        rw (u, v, transport) (insert-Follows key p p.next (p.next + 1) (λ a m w. ground arith))
  ]
]

-- A step that succeeds leaves pools that follow those before.
abbrev pub Pooled {ℓ κ} : {E : Type ℓ} {A : Type κ} → Pools → E ⊎ (A × Pools) → Type 0
Pooled p (inl e) = Unit
Pooled p (inr (a, p')) = Follows p p'

module _ (r : Rates) (web : Web r) where
  keeping-Pooled : (p : Pools) (m : HandlerError ⊎ Handler r) → Pooled p (keeping r web p m)
  keeping-Pooled p (inl e) = tt
  keeping-Pooled p (inr h) = Follows-refl p

  proxy_handler-Pooled : (config : Proxy) (p : Pools) → Pooled p (proxy_handler r web config p)
  unfolding proxy_handler
  proxy_handler-Pooled config p =
      elim (Option-cases (parse_upstream web.parse_url config.upstream)) [
        | inl u ↦ rw (u, proxy_handler) tt
        | inr ((target, socket), u) ↦
            elim (Bool-cases (
              is_neg config.dial_timeout
              || is_neg config.response_header_timeout
              || is_neg config.max_conns)) [
                | inl n ↦ rw (u, n, proxy_handler) tt
                | inr n ↦
                    rw (u, n, proxy_handler) (transport-Follows (key_for r web config socket) p)
              ]
      ]

  chosen_handler-Pooled :
      (config : Config.Handler) (p : Pools) → Pooled p (chosen_handler r web config p)
  unfolding chosen_handler
  chosen_handler-Pooled config p = elim (Option-cases config.proxy) [
    | inr (proxy, e) ↦ rw (e, chosen_handler) (proxy_handler-Pooled proxy p)
    | inl e ↦ elim (Option-cases config.files) [
      | inr (files, f) ↦ rw (e, f, chosen_handler) (keeping-Pooled p _)
      | inl f ↦ elim (Option-cases config.respond) [
        | inr (respond, g) ↦ rw (e, f, g, chosen_handler) (keeping-Pooled p _)
        | inl g ↦ elim (Option-cases config.redirect) [
          | inr (redirect, h) ↦ rw (e, f, g, h, chosen_handler) (keeping-Pooled p _)
          | inl h ↦ rw (e, f, g, h, chosen_handler) (keeping-Pooled p _)
        ]
      ]
    ]
  ]

  handler-Pooled : (config : Config.Handler) (p : Pools) → Pooled p (handler r web config p)
  unfolding handler
  handler-Pooled config p = elim (Bool-cases (handler_count r web config == 1)) [
    | inl e ↦ rw (e, handler) (chosen_handler-Pooled config p)
    | inr e ↦ rw (e, handler) tt
  ]

  module _ (policies : Dict Bytes (CompiledPolicy r)) where
    pooled :
        (m : HandlerError ⊎ (Handler r × Pools)) (h : Handler r) (p q : Pools)
        → Pooled p m
        → handled r web policies m ≡ inr (h, q)
        → Follows p q
    pooled (inl x) h p q f e = absurd (by_error e)
      where
        by_error : handled r web policies (inl x) ≡ inr (h, q) → ⊥
        by_error e = cc
    pooled (inr (g, u)) h p q f e =
        subst (Follows p) (ap (λ x. x.1) (inr_injective _ (g, u) (h, q) refl e)) f

    route-Follows :
        (rt : Route) (p : Pools) (c : Compiled r)
        → route r web policies rt p ≡ inr c
        → Follows p c.pools
    unfolding route
    route-Follows rt p c e =
        let (_, (_, e1)) = bind-inr _ _ c e in
        let (_, (_, e2)) = bind-inr _ _ c e1 in
        let ((h, q), (b, e3)) = bind-inr _ _ c e2 in
        let (_, (_, e4)) = bind-inr _ _ c e3 in
        subst (λ d. Follows p d.pools) (inr_injective _ _ c refl e4)
          (pooled (handler r web rt.handler p) h p q (handler-Pooled rt.handler p) b)

    register_routes-Follows :
        (rts : List Route) (names : List Bytes) (mux : web.Mux) (p : Pools) (mux' : web.Mux)
        (p' : Pools)
        → register_routes r web policies rts names mux p ≡ inr (mux', p')
        → Follows p p'
    unfolding register_routes
    register_routes-Follows [] names mux p mux' p' e =
        subst (Follows p) (ap (λ x. x.1) (inr_injective _ (mux, p) (mux', p') refl e))
          (Follows-refl p)
    register_routes-Follows (rt ∷ rts) names mux p mux' p' e =
        let (c, (b, e1)) = bind-inr _ _ (mux', p') e in
        let (_, (_, e2)) = bind-inr _ _ (mux', p') e1 in
        let (next, (_, e3)) = bind-inr _ _ (mux', p') e2 in
        Follows-trans p c.pools p' (route-Follows rt p c b)
          (register_routes-Follows rts (c.name ∷ names) next c.pools mux' p' e3)

    site_handler-Follows :
        (site : Site) (p : Pools) (h : Handler r) (p' : Pools)
        → site_handler r web policies site p ≡ inr (h, p')
        → Follows p p'
    unfolding site_handler
    site_handler-Follows site p h p' e =
        let (_, (_, e1)) = bind-inr _ _ (h, p') e in
        let (rts, (_, e2)) = bind-inr _ _ (h, p') e1 in
        let ((mux, q), (b, e3)) = bind-inr _ _ (h, p') e2 in
        let (inner, (_, e4)) = bind-inr _ _ (h, p') e3 in
        subst (Follows p) (ap (λ x. x.1) (inr_injective _ _ (h, p') refl e4))
          (register_routes-Follows rts [] web.new_mux p mux q b)

    module _ (is_ip : Bytes → Bool) (certs : CertificateStore) (acme : Bool)
        (by_name : Dict Bytes ListenerSpec) (ls : List Listener) where
      compile_site-Follows :
          (site : Site) (t : Tables r web) (p : Pools) (t' : Tables r web) (p' : Pools)
          → compile_site r web is_ip certs acme by_name policies ls site (t, p) ≡ inr (t', p')
          → Follows p p'
      unfolding compile_site
      compile_site-Follows site t p t' p' e =
          let (_, (_, e1)) = bind-inr _ _ (t', p') e in
          let (_, (_, e2)) = bind-inr _ _ (t', p') e1 in
          let ((h, q), (b, e3)) = bind-inr _ _ (t', p') e2 in
          let (_, (_, e4)) = bind-inr _ _ (t', p') e3 in
          let (u, (_, e5)) = bind-inr _ _ (t', p') e4 in
          subst (Follows p) (ap (λ x. x.1) (inr_injective _ (u, q) (t', p') refl e5))
            (site_handler-Follows site p h q b)

      -- The pools after the sites follow those before.
      pub compile_sites-Follows :
          (sites : List Site) (ids : List Bytes) (t : Tables r web) (p : Pools) (t' : Tables r web)
          (p' : Pools)
          → compile_sites r web is_ip certs acme by_name policies ls sites ids (t, p) ≡ inr (t', p')
          → Follows p p'
      unfolding compile_sites
      compile_sites-Follows [] ids t p t' p' e =
          subst (Follows p) (ap (λ x. x.1) (inr_injective _ (t, p) (t', p') refl e))
            (Follows-refl p)
      compile_sites-Follows (site ∷ sites) ids t p t' p' e =
          let (_, (_, e1)) = bind-inr _ _ (t', p') e in
          let ((u, q), (b, e2)) = bind-inr _ _ (t', p') e1 in
          Follows-trans p q p' (compile_site-Follows site t p u q b)
            (compile_sites-Follows sites (site_id site ∷ ids) u q t' p' e2)
