-- ===== src/Config.antt =====
-- config.go: the configuration of a gateway. Durations are nanoseconds, a float64 is its bit
-- pattern, and the value of an extension handler is its text.
pub mod Paths
pub mod Tests
use yabber.Base.{
  ℕ, ◌&&◌, ◌||◌, if◌then◌else◌, not, Bool, true, false, Option, none, some, List, [], ◌∷◌, map,
  Bytes, Dict, ◌==◌, bytes_eq, ℤ, pos, is_some,
}
use yabber.Hosts.{normalize_host}

abbrev pub config_version : ℤ
config_version = pos 1

pub record ServerConfig : Type 0 where
  pub read_header_timeout : ℤ
  pub read_timeout : ℤ
  pub write_timeout : ℤ
  pub idle_timeout : ℤ
  pub shutdown_timeout : ℤ
  pub max_header_bytes : ℤ

pub record Certificate : Type 0 where
  pub cert : Bytes
  pub key : Bytes

pub record AcmeConfig : Type 0 where
  pub email : Bytes
  pub account_key : Bytes
  pub account_url : Bytes
  pub directory : Bytes
  pub ca_root : Bytes

pub record TlsConfig : Type 0 where
  pub min_version : Bytes
  pub certificates : List Certificate
  pub acme : Option AcmeConfig

pub record Listener : Type 0 where
  pub name : Bytes
  pub address : Bytes
  pub tls : Bool
  pub trusted_proxies : List Bytes
  pub policies : List Bytes

pub record Proxy : Type 0 where
  pub upstream : Bytes
  pub strip_prefix : Bytes
  pub host_header : Bytes
  pub dial_timeout : ℤ
  pub response_header_timeout : ℤ
  pub max_conns : ℤ
  pub insecure_skip_verify : Bool

pub record Files : Type 0 where
  pub root : Bytes
  pub strip_prefix : Bytes
  pub browse : Bool

pub record Respond : Type 0 where
  pub status : ℤ
  pub headers : Dict Bytes Bytes
  pub body : Bytes

pub record Redirect : Type 0 where
  pub to : Bytes
  pub status : ℤ
  pub preserve_path : Bool

pub record Handler : Type 0 where
  pub proxy : Option Proxy
  pub files : Option Files
  pub respond : Option Respond
  pub redirect : Option Redirect
  pub extensions : Dict Bytes Bytes

abbrev no_entries {ℓ} : {A : Type ℓ} → List A → Bool
no_entries [] = true
no_entries (_ ∷ _) = false

unfoldable pub defined : Handler → Bool
defined h =
    is_some h.proxy
    || is_some h.files
    || is_some h.respond
    || is_some h.redirect
    || not (no_entries h.extensions)

pub record Route : Type 0 where
  pub name : Bytes
  pub method : Bytes
  pub path : Bytes
  pub policies : List Bytes
  pub handler : Handler

pub record Site : Type 0 where
  pub name : Bytes
  pub hosts : List Bytes
  pub listeners : List Bytes
  pub allow_http : Bool
  pub policies : List Bytes
  pub routes : List Route
  pub handler : Handler

abbrev first_host : List Bytes → Bytes
first_host [] = []
first_host (host ∷ _) = normalize_host host

-- The name, or else the first host.
unfoldable pub site_id : Site → Bytes
site_id s = if s.name == [] then first_host s.hosts else s.name

pub record RequestPolicy : Type 0 where
  pub max_body_bytes : ℤ
  pub timeout : ℤ

pub record RateLimitPolicy : Type 0 where
  pub requests_per_second : ℕ
  pub burst : ℤ
  pub key : Bytes
  pub max_keys : ℤ
  pub idle_timeout : ℤ

pub record ConcurrencyPolicy : Type 0 where
  pub max : ℤ

pub record Policy : Type 0 where
  pub name : Bytes
  pub request : Option RequestPolicy
  pub rate_limit : Option RateLimitPolicy
  pub concurrency : Option ConcurrencyPolicy

pub record Config : Type 0 where
  pub version : ℤ
  pub disabled : Bool
  pub server : ServerConfig
  pub tls : TlsConfig
  pub listeners : List Listener
  pub policies : List Policy
  pub sites : List Site

-- filepath.IsAbs and filepath.Join of a base directory and a relative path.
pub record FilePaths : Type 0 where
  pub is_abs : Bytes → Bool
  pub join : Bytes → Bytes → Bytes

module _ (f : FilePaths) (base : Bytes) where
  unfoldable pub resolve_path : Bytes → Bytes
  resolve_path path = if path == [] || f.is_abs path then path else f.join base path

  abbrev resolve_acme : Option AcmeConfig → Option AcmeConfig
  resolve_acme none = none
  resolve_acme (some acme) = some (record acme {
    ca_root = resolve_path acme.ca_root;
    account_key = resolve_path acme.account_key;
  })

  resolve_certificates : List Certificate → List Certificate
  resolve_certificates [] = []
  resolve_certificates (c ∷ cs) =
      record { cert = resolve_path c.cert; key = resolve_path c.key } ∷ resolve_certificates cs

  abbrev resolve_files : Option Files → Option Files
  resolve_files none = none
  resolve_files (some files) = some (record files { root = resolve_path files.root })

  abbrev resolve_handler : Handler → Handler
  resolve_handler h = record h { files = resolve_files h.files }

  resolve_routes : List Route → List Route
  resolve_routes [] = []
  resolve_routes (r ∷ rs) = record r { handler = resolve_handler r.handler } ∷ resolve_routes rs

  resolve_sites : List Site → List Site
  unfolding resolve_routes
  resolve_sites [] = []
  resolve_sites (s ∷ ss) =
      record s { handler = resolve_handler s.handler; routes = resolve_routes s.routes }
      ∷ resolve_sites ss

  unfoldable pub resolve_paths : Config → Config
  unfolding resolve_certificates resolve_sites
  resolve_paths c = record c {
    tls = record c.tls {
      acme = resolve_acme c.tls.acme;
      certificates = resolve_certificates c.tls.certificates;
    };
    sites = resolve_sites c.sites;
  }
