-- ===== src/Compile/Tables/Dispatch.antt =====
-- Which site answers a request.
use yabber.Base.{
  ℕ, zero, suc, ◌≡◌, refl, ap, subst, ◌∙◌, Bool, true, none, some, List, [], ◌∷◌, Bytes, bytes_eq,
  inr, bind-inr, inr_injective, Dict, lookup, get_elem?, All, All-map, map,
}
use yabber.Config.{Listener, Site, site_id}
use yabber.Hosts.{HostTable, get, match, kind_of, named, star, normalize_host, request_host, or_try}
use yabber.Hosts.Table.{match-get, get_wildcard, wildcard_of}
use yabber.Tls.{CertificateStore}
use yabber.RateLimit.{Rates}
use yabber.Policies.{Handler, Request, Shared, CompiledPolicy}
use yabber.Handlers.{Web, Pools}
use yabber.Server.{ListenerSpec}
use yabber.Compile.Sites.{SiteEntry, site_handler}
use yabber.Compile.Tables.{
  Tables, table_of, is_tls, listener_handler, served_by, https_port, compile_site, compile_sites,
  dispatch,
}
use yabber.Compile.Tables.Inserting.{Covered}
use yabber.Compile.Tables.Loops.{
  Extends, Extends-refl, Extends-trans, Serves, Serves-Extends, serve_all-Serves,
}

pub All-get_elem? {ℓ κ} :
    {A : Type ℓ} (P : A → Type κ) (xs : List A) (i : ℕ) (x : A)
    → All P xs
    → get_elem? xs i ≡ some x
    → P x
All-get_elem? P [] i x all h = absurd (no_item h)
  where
    no_item : none ≡ some x → ⊥
    no_item h = cc
All-get_elem? P (y ∷ ys) zero x (p, ps) h = subst P (same_item h) p
  where
    same_item : some y ≡ some x → y ≡ x
    same_item h = cc
All-get_elem? P (y ∷ ys) (suc i) x (p, ps) h = All-get_elem? P ys i x ps h

module _ (r : Rates) (web : Web r) (is_ip : Bytes → Bool) (certs : CertificateStore) (acme : Bool)
    (by_name : Dict Bytes ListenerSpec) (policies : Dict Bytes (CompiledPolicy r))
    (ls : List Listener) where
  -- A site is compiled into a handler, which the tables have for its hosts on its listeners.
  pub record Serving (t : Tables r web) (site : Site) : Type 0 where
    pub handler : Handler r
    pub before : Pools
    pub after : Pools
    pub built : site_handler r web policies site before ≡ inr (handler, after)
    pub port : Bytes
    pub found : https_port by_name (served_by site ls) [] ≡ inr port
    pub served :
        All
          (Serves r web is_ip certs acme by_name site
            (map normalize_host site.hosts)
            port
            handler
            t)
          (served_by site ls)

  Serving-Extends :
      (t u : Tables r web) (site : Site)
      → Extends r web is_ip certs acme by_name t u
      → Serving t site
      → Serving u site
  Serving-Extends t u site x s = record {
    handler = s.handler;
    before = s.before;
    after = s.after;
    built = s.built;
    port = s.port;
    found = s.found;
    served =
        All-map _ _ (served_by site ls)
          (λ name.
            Serves-Extends r web is_ip certs acme by_name site (map normalize_host site.hosts)
              s.port s.handler t u name x)
          s.served;
  }

  compile_site-Serving :
      (site : Site) (t : Tables r web) (p : Pools) (t' : Tables r web) (p' : Pools)
      → compile_site r web is_ip certs acme by_name policies ls site (t, p) ≡ inr (t', p')
      → Extends r web is_ip certs acme by_name t t' × Serving t' site
  unfolding compile_site
  compile_site-Serving site t p t' p' e =
      let (_, (_, e1)) = bind-inr _ _ (t', p') e in
      let (_, (_, e2)) = bind-inr _ _ (t', p') e1 in
      let (built, (b, e3)) = bind-inr _ _ (t', p') e2 in
      let (port, (f, e4)) = bind-inr _ _ (t', p') e3 in
      let (u, (s, e5)) = bind-inr _ _ (t', p') e4 in
      let all =
        serve_all-Serves r web is_ip certs acme by_name site (map normalize_host site.hosts) port
          built.0 (served_by site ls) t u s in
      subst (λ v. Extends r web is_ip certs acme by_name t v × Serving v site)
        (ap (λ x. x.0) (inr_injective _ (u, built.1) (t', p') refl e5))
        (
          all.0,
          record {
            handler = built.0;
            before = p;
            after = built.1;
            built = b;
            port = port;
            found = f;
            served = all.1;
          },
        )

  compile_sites-Serving :
      (sites : List Site) (ids : List Bytes) (t : Tables r web) (p : Pools) (t' : Tables r web)
      (p' : Pools)
      → compile_sites r web is_ip certs acme by_name policies ls sites ids (t, p) ≡ inr (t', p')
      → Extends r web is_ip certs acme by_name t t' × All (Serving t') sites
  unfolding compile_sites
  compile_sites-Serving [] ids t p t' p' e = (
    subst (Extends r web is_ip certs acme by_name t)
        (ap (λ x. x.0) (inr_injective _ (t, p) (t', p') refl e))
        (Extends-refl r web is_ip certs acme by_name t),
    tt,
  )
  compile_sites-Serving (site ∷ sites) ids t p t' p' e =
      let (_, (_, e1)) = bind-inr _ _ (t', p') e in
      let ((u, q), (e2, e3)) = bind-inr _ _ (t', p') e1 in
      let (x, s) = compile_site-Serving site t p u q e2 in
      let (y, ss) = compile_sites-Serving sites (site_id site ∷ ids) u q t' p' e3 in
      (Extends-trans r web is_ip certs acme by_name t u t' x y, (Serving-Extends u t' site y s, ss))

  -- A host of a site, on one of the site's listeners, stands in the listener's table with the site.
  pub compile_sites_lem :
      (sites : List Site) (t : Tables r web) (p : Pools) (t' : Tables r web) (p' : Pools) (i : ℕ)
      (site : Site) (j : ℕ) (name : Bytes)
      → compile_sites r web is_ip certs acme by_name policies ls sites [] (t, p) ≡ inr (t', p')
      → get_elem? sites i ≡ some site
      → get_elem? (served_by site ls) j ≡ some name
      → (s : Serving t' site) × Serves r web is_ip certs acme by_name site
          (map normalize_host site.hosts)
          s.port
          s.handler
          t'
          name
  compile_sites_lem sites t p t' p' i site j name e at_i at_j =
      let all = (compile_sites-Serving sites [] t p t' p' e).1 in
      let s = All-get_elem? (Serving t') sites i site all at_i in
      (s, All-get_elem? _ (served_by site ls) j name s.served at_j)

  -- What a site answers on a listener: a handler that its routes compile to, or the redirect to the
  -- port of its first TLS listener with a port.
  pub record Answers (site : Site) (name : Bytes) (answer : Handler r) : Type 0 where
    pub handler : Handler r
    pub before : Pools
    pub after : Pools
    pub built : site_handler r web policies site before ≡ inr (handler, after)
    pub port : Bytes
    pub found : https_port by_name (served_by site ls) [] ≡ inr port
    pub is : answer ≡ listener_handler r web site port (is_tls (lookup name by_name)) handler

  dispatch-get :
      (table : HostTable (SiteEntry r)) (host : Bytes) (entry : SiteEntry r) (q : Request)
      (s : Shared r)
      → get table host ≡ some entry
      → kind_of host ≡ named host
      → request_host q.host ≡ host
      → dispatch r web table q s ≡ entry.handler q s
  unfolding dispatch
  dispatch-get table host entry q s g k h =
      let found : match table (request_host q.host) ≡ some entry =
        ap (match table) h ∙ match-get table host k ∙ found_first g in
      rw (found, dispatch) refl
    where
      found_first :
          get table host ≡ some entry
          → or_try
              (get table host)
              (or_try (get_wildcard table (wildcard_of host)) (get table star))
            ≡ some entry
      found_first g = rw g refl

  -- When the sites compile, a request on a listener of a site, for a host name that the site lists,
  -- is answered by that site: by the handler that its routes and policies compile to or, if the
  -- listener speaks plain HTTP, the site has a TLS listener with a port, and it does not allow HTTP, by
  -- the redirect to that port.
  pub dispatch-compile_sites :
      (sites : List Site) (t : Tables r web) (p : Pools) (t' : Tables r web) (p' : Pools) (i : ℕ)
      (site : Site) (j : ℕ) (name : Bytes) (k : ℕ) (host : Bytes) (q : Request) (s : Shared r)
      → compile_sites r web is_ip certs acme by_name policies ls sites [] (t, p) ≡ inr (t', p')
      → get_elem? sites i ≡ some site
      → get_elem? (served_by site ls) j ≡ some name
      → get_elem? (map normalize_host site.hosts) k ≡ some host
      → kind_of host ≡ named host
      → request_host q.host ≡ host
      → (answer : Handler r) × (dispatch r web (table_of name t'.tables) q s ≡ answer q s)
        × Answers site name answer
  dispatch-compile_sites sites t p t' p' i site j name k host q s e at_i at_j at_k kind asked =
      let (built, serves) = compile_sites_lem sites t p t' p' i site j name e at_i at_j in
      let answer =
        listener_handler r web site built.port (is_tls (lookup name by_name)) built.handler in
      (
        answer,
        dispatch-get (table_of name t'.tables) host
            (record { name = site_id site; handler = answer }) q s
            (All-get_elem? _ (map normalize_host site.hosts) k host serves.resolved at_k) kind
            asked,
        record {
          handler = built.handler;
          before = built.before;
          after = built.after;
          built = built.built;
          port = built.port;
          found = built.found;
          is = refl;
        },
      )

  -- When the sites compile, every host of a site on a TLS listener is noted as a TLS host, and passed
  -- the check that a certificate or ACME can serve it.
  pub require_certificate-compile_sites :
      (sites : List Site) (t : Tables r web) (p : Pools) (t' : Tables r web) (p' : Pools) (i : ℕ)
      (site : Site) (j : ℕ) (name : Bytes) (k : ℕ) (host : Bytes)
      → compile_sites r web is_ip certs acme by_name policies ls sites [] (t, p) ≡ inr (t', p')
      → get_elem? sites i ≡ some site
      → get_elem? (served_by site ls) j ≡ some name
      → get_elem? (map normalize_host site.hosts) k ≡ some host
      → is_tls (lookup name by_name) ≡ true
      → Covered r web is_ip certs acme by_name t'.tls_hosts host
  require_certificate-compile_sites sites t p t' p' i site j name k host e at_i at_j at_k tls =
      let (built, serves) = compile_sites_lem sites t p t' p' i site j name e at_i at_j in
      All-get_elem? _ (map normalize_host site.hosts) k host (serves.covered tls) at_k
