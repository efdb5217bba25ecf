-- ===== src/Api.antt =====
-- api/api.go and api/sites.go: the management API of a server, its requests and its responses, and the
-- changes that it makes to configurations. The JSON decoder gives a value and
-- whether more follows it; the entity tag of a configuration, which hashes its JSON text, and the
-- function that saves a configuration are parameters. The write lock makes each request one step.
pub mod Handlers
pub mod Configs
pub mod Failures
pub mod Writes
pub mod Endpoints
pub mod Sites
pub mod Tests
use yabber.Base.{
  ℕ, zero, suc, Bool, true, false, not, ◌&&◌, ◌||◌, if◌then◌else◌, Option, none, some, List, [],
  ◌∷◌, ◌++◌, ◌⊎◌, inl, inr, Bytes, str, bytes_eq, ◌==◌, cut_prefix, get_elem?, set,
}
use yabber.Config.{Config, Site, site_id}
use yabber.Server.{
  Network, Server, Snapshot, Status, Failure, UpdateError, not_modified, not_compiled,
  listener_error, already_running,
}
use yabber.Server.Lifecycle.{update, apply, status, healthy}

-- Some of these are on the server's mux under a pattern; `unknown` is every other request.
pub data Report : Type 0 where
  certificates events metrics : Report

pub data Endpoint : Type 0 where
  get_status get_config put_config list_sites create_site unknown : Endpoint
  get_site put_site delete_site : Bytes → Endpoint
  get_report : Report → Endpoint

pub record ApiRequest : Type 0 where
  pub authorization : Bytes
  pub if_match : Bytes
  -- The decoded body, and whether data follows it; `none` for text that is not JSON of the type.
  pub config : Option (Config × Bool)
  pub site : Option (Site × Bool)

pub data Body : Type 0 where
  empty : Body
  message : Bytes → Body
  failure : Failure → Body
  config_body : Config → Body
  sites_body : List Site → Body
  site_body : Site → Body
  status_body : Status → Bool → Body
  report_body : Report → Body

pub record ApiResponse : Type 0 where
  pub status : ℕ
  pub etag : Option Bytes
  pub location : Option Bytes
  pub www_authenticate : Bool
  pub body : Body

pub record Options : Type 0 where
  pub token : Bytes
  -- The error of saving a configuration, if it ends in one.
  pub save : Option (Config → Option Bytes)
  pub etag_of : Config → Bytes
  -- url.PathEscape
  pub path_escape : Bytes → Bytes

abbrev pub write_json : ℕ → Body → ApiResponse
write_json status body = record {
  status = status;
  etag = none;
  location = none;
  www_authenticate = false;
  body = body;
}

abbrev pub write_error : ℕ → Bytes → ApiResponse
write_error status text = write_json status (message text)

unfoldable pub authorized : Bytes → Bytes → Bool
authorized token header =
    if token == []
    then true
    else elim (cut_prefix header (str "Bearer ")) [ none ↦ false | some given ↦ given == token ]

unfoldable pub read_json {ℓ} : {A : Type ℓ} → Option (A × Bool) → ApiResponse ⊎ A
read_json none = inl (write_error 400 (str "invalid JSON"))
read_json (some (value, more)) =
    if more
    then inl (write_error 400 (str "invalid JSON: unexpected data after the value"))
    else inr value

unfoldable pub site_index : List Site → Bytes → Option ℕ
site_index [] id = none
site_index (s ∷ sites) id =
    if site_id s == id
    then some 0
    else elim (site_index sites id) [ none ↦ none | some i ↦ some (suc i) ]

-- slices.Delete of one item.
unfoldable pub remove_at {ℓ} : {A : Type ℓ} → List A → ℕ → List A
remove_at [] i = []
remove_at (x ∷ xs) zero = xs
remove_at (x ∷ xs) (suc i) = x ∷ remove_at xs i

abbrev status_error : ℕ → Bytes → UpdateError
status_error status text = record { status = some status; text = text }

-- The modification of the endpoints on a configuration.
unfoldable pub add_site : Site → Config → UpdateError ⊎ Config
add_site site config = elim (site_index config.sites (site_id site)) [
  | some _ ↦ inl (status_error 409 (str "site already exists"))
  | none ↦ inr (record config { sites = config.sites ++ site ∷ [] })
]

unfoldable pub replace_site : Bytes → Site → Config → UpdateError ⊎ Config
replace_site id site config = elim (site_index config.sites id) [
  | none ↦ inl (status_error 404 (str "no site"))
  | some i ↦ inr (record config { sites = set config.sites i site })
]

unfoldable pub drop_site : Bytes → Config → UpdateError ⊎ Config
drop_site id config = elim (site_index config.sites id) [
  | none ↦ inl (status_error 404 (str "no site"))
  | some i ↦ inr (record config { sites = remove_at config.sites i })
]

-- A body without a name gets the id of the URL.
unfoldable pub named_for : Bytes → Site → Site
named_for id site =
    if site.name == [] && not (site_id site == id) then record site { name = id } else site

-- If-Match names another configuration.
unfoldable pub is_stale : Bytes → Bytes → Bool
is_stale if_match current =
    not (if_match == []) && not (if_match == str "*") && not (if_match == current)

abbrev pub or_422 : Option ℕ → ℕ
or_422 none = 422
or_422 (some status) = status

-- A status error carries its status; all else is a configuration that does not compile or bind.
unfoldable pub failure_response : Failure → ApiResponse
failure_response (not_modified e) = write_json (or_422 e.status) (message e.text)
failure_response (not_compiled err) = write_json 422 (failure (not_compiled err))
failure_response already_running = write_json 422 (failure already_running)
failure_response (listener_error name err errs) =
    write_json 422 (failure (listener_error name err errs))

unfoldable pub guarded :
    Options → Bytes → (Config → UpdateError ⊎ Config) → Config → UpdateError ⊎ Config
guarded o if_match modify config =
    if is_stale if_match (o.etag_of config)
    then inl (status_error 412 (str "the configuration changed since it was read"))
    else modify config

-- `applied` holds a copy of the modified configuration.
abbrev pub applied_of : UpdateError ⊎ Config → Config → Config
applied_of (inl e) config = config
applied_of (inr applied) config = applied

-- The response of a write, given what it answers on success.
abbrev pub answer : ApiResponse → ApiResponse ⊎ Bytes → ApiResponse
answer done (inl err) = err
answer done (inr tag) = record done { etag = some tag }

module _ (n : Network) (compile : Config → Option Snapshot → Bytes ⊎ Snapshot) where
  pub record Api : Type 0 where
    pub server : Server n compile
    -- What was saved last.
    pub saved : Option Config

  abbrev pub active : Api → Config
  active a = a.server.current.config
