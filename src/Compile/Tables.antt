-- ===== src/Compile/Tables.antt =====
-- compile.go: the tables from hosts to sites. The address and the mode of a listener are read from
-- its spec. Every listener has a table, which is empty as long as the dictionary has none.
pub mod Inserting
pub mod Loops
pub mod Dispatch
pub mod Tests
use yabber.Base.{
  ℕ, Bool, true, false, not, ◌&&◌, ◌||◌, if◌then◌else◌, Option, none, some, List, [], ◌∷◌, ◌++◌,
  Bytes, str, bytes_eq, ◌==◌, ◌⊎◌, inl, inr, ◌>>=◌, Dict, lookup, insert, is_some, any, map,
  contains_byte, or_else, eqb,
}
use yabber.Config.{Listener, Site, site_id}
use yabber.Hosts.{
  HostTable, empty_table, set, get, match, normalize_host, split_host_port, request_host,
}
use yabber.Tls.{CertificateStore, CoverageError, require_certificate}
use yabber.RateLimit.{Rates}
use yabber.Policies.{Handler, CompiledPolicy, with_site, with_route, write_header}
use yabber.Handlers.{Web, Pools, redirect_to}
use yabber.Server.{ListenerSpec}
use yabber.Compile.Sites.{
  SiteError, SiteEntry, no_hosts, unknown_listener, not_covered, already_served, duplicate_site,
  unknown_extension, add_sorted, Done, or_error, none_or, is_nil, check_hosts, site_handler,
}

-- The names of the listeners that serve a site: by default, all.
names_of : List Listener → List Bytes
names_of [] = []
names_of (l ∷ ls) = l.name ∷ names_of ls

unfoldable pub served_by : Site → List Listener → List Bytes
unfolding names_of
served_by site ls = if is_nil site.listeners then names_of ls else site.listeners

abbrev port_of : Option (Bytes × Bytes) → Bytes
port_of none = []
port_of (some (host, port)) = port

abbrev next_port : ListenerSpec → Bytes → Bytes
next_port l port = if l.tls && port == [] then port_of (split_host_port l.address) else port

-- The port of the first TLS listener that has one, empty if there is none.
unfoldable pub https_port : Dict Bytes ListenerSpec → List Bytes → Bytes → SiteError ⊎ Bytes
unfolding split_host_port
https_port by_name [] port = inr port
https_port by_name (name ∷ names) port = elim (lookup name by_name) [
  | none ↦ inl (unknown_listener name)
  | some l ↦ https_port by_name names (next_port l port)
]

abbrev pub is_tls : Option ListenerSpec → Bool
is_tls none = false
is_tls (some l) = l.tls

-- The authority that an HTTPS redirect points to.
unfoldable pub redirect_host : Bytes → Bytes → Bytes
unfolding contains_byte
redirect_host port host =
    if not (port == str "443")
    then (if contains_byte b':' host
        then str "[" ++ (host ++ (str "]:" ++ port))
        else host ++ (str ":" ++ port))
    else if contains_byte b':' host
    then str "[" ++ (host ++ str "]")
    else host

-- A listener's table of a dictionary of tables.
abbrev pub table_of {ℓ} : {V : Type ℓ} → Bytes → Dict Bytes (HostTable V) → HostTable V
table_of name tables = or_else (lookup name tables) empty_table

module _ (r : Rates) (web : Web r) where
  unfoldable pub https_redirect : Bytes → Handler r
  unfolding redirect_host redirect_to
  https_redirect port =
      redirect_to r web
        (λ q. web.url_string (str "https") (redirect_host port (request_host q.host)) q.url) 308

  -- A request is dispatched by its host.
  unfoldable pub dispatch : HostTable (SiteEntry r) → Handler r
  dispatch sites q s = elim (match sites (request_host q.host)) [
    | none ↦ record s { response = write_header r 404 s.response }
    | some entry ↦ entry.handler q s
  ]

  pub record Tables : Type 0 where
    pub tables : Dict Bytes (HostTable (SiteEntry r))
    pub tls_hosts : List Bytes

  -- What a listener serves for a site: in plain HTTP a redirect, where the site has HTTPS.
  unfoldable pub listener_handler : Site → Bytes → Bool → Handler r → Handler r
  unfolding https_redirect
  listener_handler site port tls h =
      if not tls && not (port == []) && not site.allow_http
      then with_site r (site_id site) (with_route r (str "https-redirect") (https_redirect port))
      else h

  -- The loop that enters the hosts of a site in the table of a listener.
  unfoldable pub enter_hosts :
      Bytes
      → SiteEntry r
      → List Bytes
      → HostTable (SiteEntry r)
      → SiteError ⊎ HostTable (SiteEntry r)
  unfolding get set
  enter_hosts name entry [] t = inr t
  enter_hosts name entry (host ∷ hosts) t = elim (get t host) [
    | some other ↦ inl (already_served host name other.name)
    | none ↦ enter_hosts name entry hosts (set t host entry).0
  ]

  module _ (is_ip : Bytes → Bool) (certs : CertificateStore) (acme : Bool)
      (by_name : Dict Bytes ListenerSpec) where
    -- The certificates of the hosts on a TLS listener, whose hosts are noted.
    unfoldable pub require_all : List Bytes → List Bytes → SiteError ⊎ List Bytes
    unfolding add_sorted require_certificate
    require_all [] tls_hosts = inr tls_hosts
    require_all (host ∷ hosts) tls_hosts = elim (require_certificate is_ip certs acme host) [
      | some e ↦ inl (not_covered e)
      | none ↦ require_all hosts (add_sorted host tls_hosts)
    ]

    -- One round of the loop over the listeners of a site.
    unfoldable pub serve_on :
        Site → List Bytes → Bytes → Handler r → Bytes → Tables → SiteError ⊎ Tables
    unfolding require_all enter_hosts listener_handler
    serve_on site hosts port h name t = do
      let tls = is_tls (lookup name by_name)
      tls_hosts ← (if tls then require_all hosts t.tls_hosts else inr t.tls_hosts)
      table ←
          enter_hosts name
            (record { name = site_id site; handler = listener_handler site port tls h }) hosts
            (table_of name t.tables)
      inr (record { tables = insert name table t.tables; tls_hosts = tls_hosts })

    unfoldable pub serve_all :
        Site → List Bytes → Bytes → Handler r → List Bytes → Tables → SiteError ⊎ Tables
    unfolding serve_on
    serve_all site hosts port h [] t = inr t
    serve_all site hosts port h (name ∷ names) t = do
      t' ← serve_on site hosts port h name t
      serve_all site hosts port h names t'

    module _ (policies : Dict Bytes (CompiledPolicy r)) (ls : List Listener) where
      unfoldable pub compile_site : Site → Tables × Pools → SiteError ⊎ (Tables × Pools)
      unfolding check_hosts normalize_host site_handler served_by https_port serve_all
      compile_site site (t, pools) =
          let hosts = map normalize_host site.hosts in
          let names = served_by site ls in
          do
            _ ← or_error no_hosts (not (is_nil site.hosts))
            _ ← check_hosts is_ip hosts
            built ← site_handler r web policies site pools
            port ← https_port by_name names []
            t' ← serve_all site hosts port built.0 names t
            inr (t', built.1)

      -- The loop over the sites, with the ids so far.
      unfoldable pub compile_sites :
          List Site → List Bytes → Tables × Pools → SiteError ⊎ (Tables × Pools)
      unfolding compile_site site_id any
      compile_sites [] ids t = inr t
      compile_sites (site ∷ sites) ids t = do
        let id = site_id site
        _ ← or_error (duplicate_site id) (id == [] || not (any (λ i. i == id) ids))
        t' ← compile_site site t
        compile_sites sites (id ∷ ids) t'
