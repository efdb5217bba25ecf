-- ===== src/Compile/Sites.antt =====
-- compile.go: the routes of a site, and the handler that serves it. An error does not name the site
-- or the route that it was found in.
use yabber.Base.{
  Bool, true, false, not, ◌&&◌, ◌||◌, if◌then◌else◌, Option, none, some, List, [], ◌∷◌, ◌++◌, Bytes,
  str, bytes_eq, ◌==◌, ◌⊎◌, inl, inr, ◌>>=◌, Dict, any, has_prefix, to_upper, trim_space, ltb, eqb,
}
use yabber.Config.{Listener, Site, Route, site_id, defined}
use yabber.Config
use yabber.Hosts.{HostError, validate_host_pattern}
use yabber.Tls.{CoverageError}
use yabber.RateLimit.{Rates}
use yabber.Policies.{Handler, CompiledPolicy, apply_policies, with_site, with_route}
use yabber.Handlers.{Web, HandlerError, Pools, handler, check_extensions}

pub data SiteError : Type 0 where
  no_hosts no_routes routes_and_handler path_without_slash : SiteError
  bad_host : HostError → SiteError
  unknown_extension duplicate_route unknown_policy unknown_listener duplicate_site :
      Bytes → SiteError
  bad_handler : HandlerError → SiteError
  not_registered : Bytes → Bytes → SiteError
  not_covered : CoverageError → SiteError
  -- The host, the listener and the site that has it.
  already_served : Bytes → Bytes → Bytes → SiteError

pub record SiteEntry (r : Rates) : Type 0 where
  pub name : Bytes
  pub handler : Handler r

-- The byte order of strings.
before : Bytes → Bytes → Bool
before [] [] = false
before [] (d ∷ t) = true
before (c ∷ s) [] = false
before (c ∷ s) (d ∷ t) = ltb c d || (eqb c d && before s t)

-- A set of strings, kept in order.
unfoldable pub add_sorted : Bytes → List Bytes → List Bytes
unfolding before
add_sorted host [] = host ∷ []
add_sorted host (h ∷ hosts) =
    let rest = add_sorted host hosts in
    if h == host then h ∷ hosts else if before host h then host ∷ h ∷ hosts else h ∷ rest

abbrev pub Done : Type 0
Done = Unit

abbrev pub or_error : SiteError → Bool → SiteError ⊎ Done
or_error e ok = if ok then inr tt else inl e

abbrev pub none_or {ℓ} : {E : Type ℓ} → (E → SiteError) → Option E → SiteError ⊎ Done
none_or wrap none = inr tt
none_or wrap (some e) = inl (wrap e)

abbrev pub is_nil {ℓ} : {A : Type ℓ} → List A → Bool
is_nil [] = true
is_nil (_ ∷ _) = false

unfoldable pub check_hosts : (Bytes → Bool) → List Bytes → SiteError ⊎ Done
unfolding validate_host_pattern
check_hosts is_ip [] = inr tt
check_hosts is_ip (host ∷ hosts) = do
  _ ← none_or bad_host (validate_host_pattern is_ip host)
  check_hosts is_ip hosts

abbrev single_route : Config.Handler → Route
single_route h = record { name = []; method = []; path = []; policies = []; handler = h }

unfoldable pub routes_of : Site → SiteError ⊎ List Route
unfolding defined
routes_of site =
    if defined site.handler
    then (if is_nil site.routes
        then inr (single_route site.handler ∷ [])
        else inl routes_and_handler)
    else if is_nil site.routes
    then inl no_routes
    else inr site.routes

unfoldable pub route_pattern : Route → Bytes → Bytes
unfolding trim_space to_upper
route_pattern route path =
    let method = to_upper (trim_space route.method) in
    if method == [] then path else method ++ (str " " ++ path)

abbrev or_default : Bytes → Bytes → Bytes
or_default value fallback = if value == [] then fallback else value

pub record Compiled (r : Rates) : Type 0 where
  pub pattern : Bytes
  pub name : Bytes
  pub handler : Handler r
  pub pools : Pools

module _ (r : Rates) (web : Web r) (policies : Dict Bytes (CompiledPolicy r)) where
  abbrev pub policed : Handler r ⊎ Bytes → SiteError ⊎ Handler r
  policed (inl h) = inr h
  policed (inr unknown) = inl (unknown_policy unknown)

  abbrev pub handled : HandlerError ⊎ (Handler r × Pools) → SiteError ⊎ (Handler r × Pools)
  handled (inl e) = inl (bad_handler e)
  handled (inr built) = inr built

  unfoldable pub route : Route → Pools → SiteError ⊎ Compiled r
  unfolding route_pattern has_prefix check_extensions handler apply_policies
  route rt pools =
      let path = or_default rt.path (str "/") in
      let pattern = route_pattern rt path in
      let name = or_default rt.name pattern in
      do
        _ ← or_error path_without_slash (has_prefix path (str "/"))
        _ ← none_or unknown_extension (check_extensions r web rt.handler.extensions)
        built ← handled (handler r web rt.handler pools)
        h ← policed (apply_policies r built.0 rt.policies policies)
        inr (record {
          pattern = pattern;
          name = name;
          handler = with_route r name h;
          pools = built.1;
        })

  abbrev pub registered : Bytes → Bytes ⊎ web.Mux → SiteError ⊎ web.Mux
  registered name (inl panic) = inl (not_registered name panic)
  registered name (inr mux) = inr mux

  -- The loop over the routes of a site, with the names so far.
  unfoldable pub register_routes :
      List Route → List Bytes → web.Mux → Pools → SiteError ⊎ (web.Mux × Pools)
  unfolding route any
  register_routes [] names mux pools = inr (mux, pools)
  register_routes (rt ∷ rts) names mux pools = do
    c ← route rt pools
    _ ← or_error (duplicate_route c.name) (not (any (λ n. n == c.name) names))
    mux' ← registered c.name (web.handle mux c.pattern c.handler)
    register_routes rts (c.name ∷ names) mux' c.pools

  -- What serves a site, below withSite.
  unfoldable pub site_handler : Site → Pools → SiteError ⊎ (Handler r × Pools)
  unfolding routes_of register_routes apply_policies check_extensions
  site_handler site pools = do
    _ ← none_or unknown_extension (check_extensions r web site.handler.extensions)
    routes ← routes_of site
    served ← register_routes routes [] web.new_mux pools
    h ← policed (apply_policies r (web.serve_mux served.0) site.policies policies)
    inr (with_site r (site_id site) h, served.1)
