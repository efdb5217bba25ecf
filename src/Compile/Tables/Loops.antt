-- ===== src/Compile/Tables/Loops.antt =====
-- What the loop over the listeners of a site keeps and adds.
use yabber.Base.{
  ◌≡◌, refl, sym, subst, ◌∙◌, Bool, true, false, if◌then◌else◌, some, List, [], ◌∷◌, Bytes,
  bytes_eq, ◌==◌, ==_iff, ==_refl, inl, inr, bind-inr, inr_injective, Dict, lookup, insert,
  lookup-insert, All, All-map, any, Bool-cases,
}
use yabber.Config.{Site, site_id}
use yabber.Hosts.{HostTable, get}
use yabber.Tls.{CertificateStore}
use yabber.RateLimit.{Rates}
use yabber.Policies.{Handler}
use yabber.Handlers.{Web}
use yabber.Server.{ListenerSpec}
use yabber.Compile.Sites.{SiteEntry}
use yabber.Compile.Tables.{
  Tables, table_of, is_tls, listener_handler, require_all, serve_on, serve_all,
}
use yabber.Compile.Tables.Inserting.{Keeps, Covered, Grows, require_all_lem, enter_hosts-Entered}

pub table_of-insert {ℓ} :
    {V : Type ℓ} (name other : Bytes) (t : HostTable V) (tables : Dict Bytes (HostTable V))
    → table_of other (insert name t tables) ≡ (if name == other then t else table_of other tables)
table_of-insert name other t tables =
    rw (lookup-insert name other t tables)
      (elim (Bool-cases (name == other)) [ inl e ↦ rw e refl | inr e ↦ rw e refl ])

module _ (r : Rates) (web : Web r) (is_ip : Bytes → Bool) (certs : CertificateStore) (acme : Bool)
    (by_name : Dict Bytes ListenerSpec) where
  -- The tables of the second have the entries of the first, and the noted hosts.
  pub record Extends (t t' : Tables r web) : Type 0 where
    pub entries :
        (name host : Bytes) (e : SiteEntry r)
        → get (table_of name t.tables) host ≡ some e
        → get (table_of name t'.tables) host ≡ some e
    pub noted : Grows r web is_ip certs acme by_name t.tls_hosts t'.tls_hosts

  pub Extends-refl : (t : Tables r web) → Extends t t
  Extends-refl t = record { entries = λ name host e h. h; noted = λ host h. h }

  pub Extends-trans : (t u v : Tables r web) → Extends t u → Extends u v → Extends t v
  Extends-trans t u v a b = record {
    entries = λ name host e h. b.entries name host e (a.entries name host e h);
    noted = λ host h. b.noted host (a.noted host h);
  }

  abbrev entry_on : Site → Bytes → Handler r → Bytes → SiteEntry r
  entry_on site port h name = record {
    name = site_id site;
    handler = listener_handler r web site port (is_tls (lookup name by_name)) h;
  }

  -- On a listener the hosts of a site lead to it, and they are covered if it speaks TLS.
  pub record Serves (site : Site) (hosts : List Bytes) (port : Bytes) (h : Handler r)
      (t : Tables r web) (name : Bytes) : Type 0 where
    pub resolved :
        All (λ host. get (table_of name t.tables) host ≡ some (entry_on site port h name)) hosts
    pub covered :
        is_tls (lookup name by_name) ≡ true
        → All (Covered r web is_ip certs acme by_name t.tls_hosts) hosts

  pub Serves-Extends :
      (site : Site) (hosts : List Bytes) (port : Bytes) (h : Handler r) (t u : Tables r web)
      (name : Bytes)
      → Extends t u
      → Serves site hosts port h t name
      → Serves site hosts port h u name
  Serves-Extends site hosts port h t u name x s = record {
    resolved =
        All-map _ _ hosts (λ host. x.entries name host (entry_on site port h name)) s.resolved;
    covered = λ tls.
        All-map _ _ hosts
          (λ host c. record { certified = c.certified; noted = x.noted host c.noted })
          (s.covered tls);
  }

  required :
      (hosts before after : List Bytes) (tls : Bool)
      → (if tls then require_all r web is_ip certs acme by_name hosts before else inr before)
        ≡ inr after
      → Grows r web is_ip certs acme by_name before after
        × (tls ≡ true → All (Covered r web is_ip certs acme by_name after) hosts)
  required hosts before after true e =
      let both = require_all_lem r web is_ip certs acme by_name hosts before after e in
      (both.0, λ _. both.1)
  required hosts before after false e = (
    λ host n. subst (λ l. any (λ h. h == host) l ≡ true) (inr_injective _ before after refl e) n,
    λ h. absurd (not_true h),
  )
    where
      not_true : false ≡ true → ⊥
      not_true h = cc

  abbrev with_table : Bytes → HostTable (SiteEntry r) → List Bytes → Tables r web → Tables r web
  with_table name table tls_hosts t = record {
    tables = insert name table t.tables;
    tls_hosts = tls_hosts;
  }

  with_table-Extends :
      (name : Bytes) (table : HostTable (SiteEntry r)) (tls_hosts : List Bytes) (t : Tables r web)
      → Keeps (table_of name t.tables) table
      → Grows r web is_ip certs acme by_name t.tls_hosts tls_hosts
      → Extends t (with_table name table tls_hosts t)
  with_table-Extends name table tls_hosts t keeps grows = record {
    entries = λ other host e g.
        subst (λ u. get u host ≡ some e) (sym (table_of-insert name other table t.tables))
          (elim (Bool-cases (name == other)) [
            | inl same ↦ rw same (
                keeps host e (
                  subst (λ n. get (table_of n t.tables) host ≡ some e)
                    (sym ((==_iff name other).0 same)) g))
            | inr same ↦ rw same g
          ]);
    noted = grows;
  }

  table_of-with_table :
      (name : Bytes) (table : HostTable (SiteEntry r)) (tls_hosts : List Bytes) (t : Tables r web)
      → table_of name (with_table name table tls_hosts t).tables ≡ table
  table_of-with_table name table tls_hosts t =
      table_of-insert name name table t.tables ∙ rw (==_refl name) refl

  serve_on-Serves :
      (site : Site) (hosts : List Bytes) (port : Bytes) (h : Handler r) (name : Bytes)
      (t t' : Tables r web)
      → serve_on r web is_ip certs acme by_name site hosts port h name t ≡ inr t'
      → Extends t t' × Serves site hosts port h t' name
  unfolding serve_on
  serve_on-Serves site hosts port h name t t' e =
      let (tls_hosts, (e0, e1)) = bind-inr _ _ t' e in
      let (table, (e2, e3)) = bind-inr _ _ t' e1 in
      let noted = required hosts t.tls_hosts tls_hosts (is_tls (lookup name by_name)) e0 in
      let into =
        enter_hosts-Entered r web name (entry_on site port h name) hosts (table_of name t.tables)
          table e2 in
      subst (λ u. Extends t u × Serves site hosts port h u name)
        (inr_injective _ (with_table name table tls_hosts t) t' refl e3)
        (
          with_table-Extends name table tls_hosts t into.keeps noted.0,
          record {
            resolved =
                subst (λ u. All (λ host. get u host ≡ some (entry_on site port h name)) hosts)
                  (sym (table_of-with_table name table tls_hosts t)) into.entered;
            covered = noted.1;
          },
        )

  -- The loop over the listeners of a site keeps what the tables have, and on each of the listeners
  -- the hosts of the site lead to it.
  pub serve_all-Serves :
      (site : Site) (hosts : List Bytes) (port : Bytes) (h : Handler r) (names : List Bytes)
      (t t' : Tables r web)
      → serve_all r web is_ip certs acme by_name site hosts port h names t ≡ inr t'
      → Extends t t' × All (Serves site hosts port h t') names
  unfolding serve_all
  serve_all-Serves site hosts port h [] t t' e =
      (subst (Extends t) (inr_injective _ t t' refl e) (Extends-refl t), tt)
  serve_all-Serves site hosts port h (name ∷ names) t t' e =
      let (u, (e0, e1)) = bind-inr _ _ t' e in
      let (x, s) = serve_on-Serves site hosts port h name t u e0 in
      let (y, ss) = serve_all-Serves site hosts port h names u t' e1 in
      (Extends-trans t u t' x y, (Serves-Extends site hosts port h u t' name y s, ss))
