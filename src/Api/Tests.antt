-- ===== src/Api/Tests.antt =====
-- An API on a running server, and instances of the theorems on requests to it.
use yabber.Base.{
  ◌≡◌, ◌⊎◌, refl, sym, ap, true, false, none, some, List, [], ◌∷◌, ◌++◌, inl, inr, Bytes, str,
  bytes_eq, lookup, insert, delete, cut_prefix,
}
use yabber.Config.{Config, Site, site_id}
use yabber.Hosts.{normalize_host}
use yabber.Config.Tests.{sample_config, sample_site}
use yabber.Server.{
  Snapshot, bound, unchanged, stale_names, stop_accepting, bind_all, drain_stale, add_started,
  commit, sync_issuer, unused_transports, listen,
}
use yabber.Server.Lifecycle.{update, apply, after_binding}
use yabber.Server.Tests.{sample_network, sample_compile, started_server}
use yabber.Api.{
  Api, ApiRequest, Options, create_site, active, authorized, read_json, guarded, is_stale, add_site,
  replace_site, site_index, named_for,
}
use yabber.Api.Handlers.{
  serve_http, endpoint, create_site_handler, put_site_handler, get_site_handler, change,
  after_update,
}
use yabber.Api.Failures.{Same, Unsaved}
use yabber.Api.Writes.{Keeps, saved_after}
use yabber.Api.Endpoints.{is_write, serve_http_failed, serve_http_written}
use yabber.Api.Sites.{found_response, get_site-put_site}

abbrev config_of : Bytes ⊎ Snapshot → Config
config_of (inl err) = sample_config
config_of (inr snap) = snap.config

sample-Keeps : Keeps sample_network sample_compile
sample-Keeps config previous next e = ap config_of (sym e)

abbrev site_names : List Site → Bytes
site_names [] = []
site_names (s ∷ sites) = s.name ++ site_names sites

abbrev sample_options : Options
sample_options = record {
  token = str "secret";
  save = some (λ config. none);
  etag_of = λ config. site_names config.sites;
  path_escape = λ path. path;
}

abbrev sample_api : Api sample_network sample_compile
sample_api = record { server = started_server; saved = none }

abbrev blog : Site
blog = record sample_site { name = str "blog" }

abbrev sample_request : ApiRequest
sample_request = record {
  authorization = str "Bearer secret";
  if_match = str "docs";
  config = none;
  site = some (blog, false);
}

-- Without the token.
abbrev anonymous : ApiRequest
anonymous = record sample_request { authorization = [] }

serve_http_failed_example :
    Same sample_network sample_compile sample_api
      (serve_http sample_network sample_compile sample_options create_site anonymous sample_api)
    ⊎ Unsaved sample_network sample_compile sample_options anonymous.if_match sample_api
        (serve_http sample_network sample_compile sample_options create_site anonymous sample_api)
unfolding serve_http authorized cut_prefix
serve_http_failed_example =
    serve_http_failed sample_network sample_compile sample_options sample-Keeps create_site
      anonymous sample_api refl

serve_http_written_example :
    (is_stale (str "docs") (str "docs") ≡ false)
    × ((serve_http sample_network sample_compile sample_options create_site sample_request
          sample_api).1.etag
        ≡ some (str "docsblog"))
    × ((serve_http sample_network sample_compile sample_options create_site sample_request
          sample_api).0.saved
        ≡ saved_after sample_network sample_compile sample_options sample_api
            (serve_http sample_network sample_compile sample_options create_site sample_request
              sample_api).0)
unfolding serve_http authorized cut_prefix endpoint create_site_handler read_json change
    after_update guarded is_stale add_site site_index update apply after_binding unchanged
    stale_names stop_accepting bind_all drain_stale add_started commit sync_issuer unused_transports
    listen bound lookup insert delete site_id is_write
serve_http_written_example =
    serve_http_written sample_network sample_compile sample_options sample-Keeps create_site
      sample_request sample_api refl refl

abbrev renamed : Site
renamed = record sample_site { name = []; allow_http = true }

abbrev put_request : ApiRequest
put_request = record sample_request { site = some (renamed, false) }

get_site-put_site_example :
    (site_id (named_for (str "docs") renamed) ≡ str "docs")
    × (get_site_handler sample_network sample_compile sample_options
          (str "docs")
          (put_site_handler sample_network sample_compile sample_options
            (str "docs")
            put_request
            sample_api).0
        ≡ found_response sample_network sample_compile sample_options
            (active sample_network sample_compile
              (put_site_handler sample_network sample_compile sample_options
                (str "docs")
                put_request
                sample_api).0)
            (some (named_for (str "docs") renamed)))
unfolding put_site_handler read_json change after_update guarded is_stale replace_site named_for
    site_index update apply after_binding unchanged stale_names stop_accepting bind_all drain_stale
    add_started commit sync_issuer unused_transports listen bound lookup insert delete site_id
    normalize_host
get_site-put_site_example =
    get_site-put_site sample_network sample_compile sample_options sample-Keeps (str "docs")
      put_request sample_api renamed (str "docs") refl refl
