-- ===== src/Compile/Tables/Tests.antt =====
-- A site on a plain and on a TLS listener, and instances of the theorems on it.
use yabber.Base.{
  ◌≡◌, refl, Bool, true, false, none, some, List, [], ◌∷◌, ◌++◌, Bytes, str, ◌⊎◌, inl, inr, lookup,
  pos, ◌>>=◌, bytes_eq, has_prefix, cut_prefix, any, contains_byte, cut, insert, to_upper,
  trim_space,
}
use yabber.Config.{Listener, Site, site_id, defined}
use yabber.Config.Tests.{sample_config, sample_site}
use yabber.Hosts.{
  kind_of, get, set, normalize_host, request_host, validate_host_pattern, match, match_wildcard,
  parent_of, split_host_port,
}
use yabber.Tls.{CertificateStore, Cert, require_certificate, covers}
use yabber.RateLimit.Tests.{sample_rates}
use yabber.Policies.{apply_policies, with_site, with_route}
use yabber.Policies.Tests.{sample_shared, sample_request}
use yabber.Policies
use yabber.Handlers.{
  FileSystem, Web, Pools, handler, handler_count, chosen_handler, check_extensions, respond_handler,
  redirect_to, is_between, not_exist,
}
use yabber.Server.{ListenerSpec}
use yabber.Compile.{listener_at, spec_for}
use yabber.Compile.Sites.{
  check_hosts, routes_of, route_pattern, route, register_routes, site_handler, add_sorted,
  SiteError,
}
use yabber.Compile.Tables.{
  Tables, served_by, https_port, table_of, dispatch, enter_hosts, require_all, serve_on, serve_all,
  compile_site, compile_sites, listener_handler, https_redirect, redirect_host,
}
use yabber.Compile.Tables.Inserting.{Covered}
use yabber.Compile.Tables.Dispatch.{
  Answers, dispatch-compile_sites, require_certificate-compile_sites,
}

abbrev no_files : FileSystem
no_files = record {
  File = Bytes;
  stat_root = λ root. inr true;
  open_file = λ root name. inl not_exist;
  is_dir = λ file. inr false;
  join_path = λ dir name. dir ++ (str "/" ++ name);
}

-- A mux of one handler.
abbrev pub sample_web : Web sample_rates
sample_web = record {
  fs = no_files;
  file_server = λ opening q s. s;
  reverse_proxy = λ proxy q s. s;
  parse_url = λ raw. some (record { scheme = str "http"; host = raw });
  set_url = λ target url. url;
  request_uri = λ url. url.path;
  url_string = λ scheme host url. scheme ++ (str "://" ++ (host ++ url.path));
  canonical = λ name. name;
  location_of = λ q target. target;
  factory = λ name. none;
  Mux = Policies.Handler sample_rates;
  new_mux = λ q s. s;
  handle = λ mux pattern h. inr h;
  serve_mux = λ mux. mux;
}

abbrev hello : Site
hello = record sample_site {
  hosts = str "A.org" ∷ [];
  handler = record sample_site.handler {
    files = none;
    respond = some (record { status = pos 0; headers = []; body = str "hello" });
  };
}

abbrev sample_listeners : List Listener
sample_listeners =
    listener_at (str "http") (str ":80") false ∷ listener_at (str "https") (str ":443") true ∷ []

abbrev sample_specs : List (Bytes × ListenerSpec)
sample_specs =
    (str "http", spec_for sample_config.server 771 (listener_at (str "http") (str ":80") false))
    ∷ (str "https", spec_for sample_config.server 771 (listener_at (str "https") (str ":443") true))
    ∷ []

abbrev sample_cert : Cert
sample_cert = record { serial = 1; dns_names = []; not_before = 0; not_after = 9 }

abbrev sample_certs : CertificateStore
sample_certs = record {
  current = record { exact = (str "a.org", sample_cert) ∷ []; wildcard = []; fallback = none };
  stale = record { exact = []; wildcard = []; fallback = none };
}

abbrev empty : Tables sample_rates sample_web
empty = record { tables = []; tls_hosts = [] }

abbrev no_pools : Pools
no_pools = record { used = []; previous = []; next = 0 }

abbrev not_ip : Bytes → Bool
not_ip host = false

abbrev result_of :
    SiteError ⊎ (Tables sample_rates sample_web × Pools) → Tables sample_rates sample_web
result_of (inl e) = empty
result_of (inr (t, pools)) = t

abbrev sample_tables : Tables sample_rates sample_web
sample_tables = result_of (
    compile_sites sample_rates sample_web not_ip sample_certs false sample_specs [] sample_listeners
      (hello ∷ []) [] (empty, no_pools))

abbrev to_site : Policies.Request
to_site = record sample_request { host = str "a.ORG:80" }

dispatch-compile_sites_example :
    (answer : Policies.Handler sample_rates) × (dispatch sample_rates sample_web
        (table_of (str "http") sample_tables.tables)
        to_site
        sample_shared
      ≡ answer to_site sample_shared)
    × Answers sample_rates sample_web not_ip sample_certs false sample_specs [] sample_listeners
        hello
        (str "http")
        answer
unfolding compile_sites compile_site site_id any check_hosts normalize_host site_handler served_by
    https_port serve_all serve_on require_all enter_hosts get set add_sorted require_certificate
    covers routes_of register_routes route route_pattern to_upper trim_space has_prefix cut_prefix
    check_extensions handler handler_count chosen_handler respond_handler is_between apply_policies
    validate_host_pattern contains_byte kind_of match match_wildcard parent_of defined
    split_host_port cut lookup insert ◌>>=◌ request_host
dispatch-compile_sites_example =
    dispatch-compile_sites sample_rates sample_web not_ip sample_certs false sample_specs []
      sample_listeners (hello ∷ []) empty no_pools sample_tables no_pools 0 hello 0 (str "http") 0
      (str "a.org") to_site sample_shared refl refl refl refl refl refl

require_certificate-compile_sites_example :
    Covered sample_rates sample_web not_ip sample_certs false sample_specs sample_tables.tls_hosts
      (str "a.org")
unfolding compile_sites compile_site site_id any check_hosts normalize_host site_handler served_by
    https_port serve_all serve_on require_all enter_hosts get set add_sorted require_certificate
    covers routes_of register_routes route route_pattern to_upper trim_space has_prefix cut_prefix
    check_extensions handler handler_count chosen_handler respond_handler is_between apply_policies
    validate_host_pattern contains_byte kind_of match match_wildcard parent_of defined
    split_host_port cut lookup insert ◌>>=◌
require_certificate-compile_sites_example =
    require_certificate-compile_sites sample_rates sample_web not_ip sample_certs false sample_specs
      [] sample_listeners (hello ∷ []) empty no_pools sample_tables no_pools 0 hello 1 (str "https")
      0 (str "a.org") refl refl refl refl refl

-- The plain listener redirects, since the site has HTTPS.
redirected :
    (dispatch sample_rates sample_web
      (table_of (str "http") sample_tables.tables)
      to_site
      sample_shared).response.location
    ≡ some (str "https://a.org/")
unfolding compile_sites compile_site site_id any check_hosts normalize_host site_handler served_by
    https_port serve_all serve_on require_all enter_hosts get set add_sorted require_certificate
    covers routes_of register_routes route route_pattern to_upper trim_space has_prefix cut_prefix
    check_extensions handler handler_count chosen_handler respond_handler is_between apply_policies
    validate_host_pattern contains_byte kind_of match match_wildcard parent_of defined
    split_host_port cut lookup insert ◌>>=◌ request_host dispatch with_site with_route
    listener_handler https_redirect redirect_host redirect_to
redirected = refl
