-- ===== src/Compile/Snapshots/Tests.antt =====
-- A reload with a policy, a proxy and ACME, and an instance of the theorem on it.
use yabber.Base.{
  ℕ, ◌≡◌, refl, false, Option, none, some, [], ◌∷◌, ◌++◌, str, ◌⊎◌, inl, inr, lookup, pos, ◌>>=◌,
  bytes_eq, has_prefix, cut_prefix, any, contains_byte, cut, insert, to_upper, trim_space,
  trim_prefix,
}
use yabber.Config.{Config, Site, site_id, defined, AcmeConfig}
use yabber.Config.Tests.{sample_config, sample_site, no_handler}
use yabber.Hosts.{
  kind_of, get, set, normalize_host, validate_host_pattern, match, match_wildcard, parent_of,
  split_host_port, is_empty,
}
use yabber.Tls.{
  CertificateReader, Cert, empty_store, require_certificate, covers, acme_eligible, tls_version,
  load_certificates, store_empty, managed_hosts,
}
use yabber.ClientIp.{new_resolver}
use yabber.ClientIp.Tests.{sample_netip}
use yabber.RateLimit.Tests.{sample_rates}
use yabber.Policies.{apply_policies}
use yabber.Policies.Compile.{compile_policies, compile_from, reusable}
use yabber.Policies.Tests.{one_slot, no_policy, same_name}
use yabber.Proxy.{TransportKey, key_eq, parse_upstream}
use yabber.Handlers.{
  handler, handler_count, chosen_handler, check_extensions, proxy_handler, transport,
}
use yabber.Acme.Managers.{AcmeFiles, ManagerFor, acme_manager_for, same_config, with_directory}
use yabber.Compile.{with_defaults, default_listeners, listeners, listeners_from, check_listener}
use yabber.Compile.Sites.{
  check_hosts, routes_of, route_pattern, route, register_routes, site_handler, add_sorted,
}
use yabber.Compile.Tables.{
  served_by, https_port, dispatch, enter_hosts, require_all, serve_on, serve_all, compile_site,
  compile_sites,
}
use yabber.Compile.Tables.Tests.{sample_web}
use yabber.Compile.Snapshots.{
  Failure, Options, Compilation, compile, compile_parts, compile_listeners, listener_handlers,
  chained,
}
use yabber.Compile.Snapshots.Reload.{compile-reload_pool, compile-reload_policy}

abbrev no_certificates : CertificateReader
no_certificates = record {
  Chain = Cert;
  load_key_pair = λ cert key. none;
  source = none;
  parse_leaf = λ chain. some chain;
}

abbrev no_acme_files : AcmeFiles
no_acme_files = record {
  host_of = λ url. some url;
  read_file = λ path. inl (str "no such file");
  has_certificates = λ pem. false;
  client_error = λ directory. none;
  import_error = λ key. none;
  join = λ dir name. dir ++ (str "/" ++ name);
}

abbrev sample_options : Options sample_rates
sample_options = record {
  web = sample_web;
  netip = record sample_netip { parse_addr = λ s. none };
  reader = no_certificates;
  files = no_acme_files;
  data_dir = str "/var/lib/yabber";
  same = same_name;
  middleware = [];
}

abbrev sample_acme : AcmeConfig
sample_acme = record {
  email = [];
  account_key = [];
  account_url = [];
  directory = str "https://ca";
  ca_root = [];
}

abbrev forwarding : Site
forwarding = record sample_site {
  hosts = str "a.org" ∷ [];
  policies = str "login" ∷ [];
  handler = record no_handler {
    proxy = some (record {
      upstream = str "http://app";
      strip_prefix = [];
      host_header = [];
      dial_timeout = pos 0;
      response_header_timeout = pos 0;
      max_conns = pos 0;
      insecure_skip_verify = false;
    });
  };
}

abbrev reloaded : Config
reloaded = record sample_config {
  tls = record sample_config.tls { certificates = []; acme = some sample_acme };
  policies = no_policy (str "login") ∷ [];
  sites = forwarding ∷ [];
}

abbrev app_key : TransportKey
app_key = record {
  socket = [];
  insecure_skip_verify = false;
  dial_timeout = pos (5_000_000_000);
  response_header_timeout = pos 0;
  max_conns = pos 0;
}

abbrev sample_manager : ManagerFor
sample_manager = record { number = 3; config = sample_acme; account_path = []; cert_dir = [] }

abbrev before_reload : Compilation sample_rates
before_reload = record {
  config = sample_config;
  server = sample_config.server;
  listeners = [];
  handlers = [];
  certs = empty_store;
  min_tls = 771;
  policies = (str "login", one_slot) ∷ [];
  transports = (app_key, 7) ∷ [];
  tls_hosts = [];
  acme = some sample_manager;
  managed_hosts = [];
  next_policy = 9;
  next_pool = 8;
  next_manager = 4;
}

abbrev result_of : Failure ⊎ Compilation sample_rates → Compilation sample_rates
result_of (inl e) = before_reload
result_of (inr snap) = snap

abbrev after_reload : Compilation sample_rates
after_reload = result_of (compile sample_rates sample_options 5 reloaded (some before_reload))

abbrev pool_of : Option ℕ → ℕ
pool_of none = 0
pool_of (some n) = n

compile-reload_pool_example : pool_of (lookup app_key after_reload.transports) ≡ 7
unfolding compile compile_parts compile_listeners listener_handlers chained with_defaults
    tls_version trim_space to_upper trim_prefix cut_prefix load_certificates store_empty is_empty
    compile_policies compile_from reusable acme_manager_for same_config with_directory
    default_listeners listeners listeners_from check_listener managed_hosts acme_eligible has_prefix
    dispatch new_resolver compile_sites compile_site site_id any check_hosts normalize_host
    site_handler served_by https_port serve_all serve_on require_all enter_hosts get set add_sorted
    require_certificate covers routes_of register_routes route route_pattern check_extensions
    handler handler_count chosen_handler proxy_handler transport parse_upstream apply_policies
    validate_host_pattern contains_byte kind_of match match_wildcard parent_of defined
    split_host_port cut lookup insert ◌>>=◌
compile-reload_pool_example =
    compile-reload_pool sample_rates sample_options 5 reloaded before_reload after_reload app_key
      (pool_of (lookup app_key after_reload.transports)) 7 refl refl refl

compile-reload_policy_example : lookup (str "login") after_reload.policies ≡ some one_slot
unfolding compile compile_parts compile_listeners listener_handlers chained with_defaults
    tls_version trim_space to_upper trim_prefix cut_prefix load_certificates store_empty is_empty
    compile_policies compile_from reusable acme_manager_for same_config with_directory
    default_listeners listeners listeners_from check_listener managed_hosts acme_eligible has_prefix
    dispatch new_resolver compile_sites compile_site site_id any check_hosts normalize_host
    site_handler served_by https_port serve_all serve_on require_all enter_hosts get set add_sorted
    require_certificate covers routes_of register_routes route route_pattern check_extensions
    handler handler_count chosen_handler proxy_handler transport parse_upstream apply_policies
    validate_host_pattern contains_byte kind_of match match_wildcard parent_of defined
    split_host_port cut lookup insert ◌>>=◌
compile-reload_policy_example =
    compile-reload_policy sample_rates sample_options 5 reloaded before_reload after_reload
      (no_policy (str "login")) one_slot refl (inl refl) refl refl
