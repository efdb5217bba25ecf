-- ===== src/Config/Tests.antt =====
-- A configuration with relative paths.
use yabber.Base.{◌≡◌, refl, false, none, some, [], ◌∷◌, ◌++◌, str, pos, has_prefix}
use yabber.Config.{Config, FilePaths, Handler, Site, resolve_path, resolve_paths, config_version}

abbrev unix_paths : FilePaths
unix_paths = record {
  is_abs = λ path. has_prefix path (str "/");
  join = λ base path. base ++ (str "/" ++ path);
}

abbrev pub no_handler : Handler
no_handler = record { proxy = none; files = none; respond = none; redirect = none; extensions = [] }

abbrev pub sample_site : Site
sample_site = record {
  name = str "docs";
  hosts = str "docs.example.com" ∷ [];
  listeners = [];
  allow_http = false;
  policies = [];
  routes = [];
  handler = record no_handler {
    files = some (record { root = str "public"; strip_prefix = []; browse = false });
  };
}

abbrev pub sample_config : Config
sample_config = record {
  version = config_version;
  disabled = false;
  server = record {
    read_header_timeout = pos 0;
    read_timeout = pos 0;
    write_timeout = pos 0;
    idle_timeout = pos 0;
    shutdown_timeout = pos 0;
    max_header_bytes = pos 0;
  };
  tls = record {
    min_version = [];
    certificates = record { cert = str "tls/cert.pem"; key = str "/etc/key.pem" } ∷ [];
    acme = none;
  };
  listeners = [];
  policies = [];
  sites = sample_site ∷ [];
}

-- Absolute paths stay, and the others are joined to the base.
resolved_certificate :
    (resolve_paths unix_paths (str "/srv") sample_config).tls.certificates
    ≡ record { cert = str "/srv/tls/cert.pem"; key = str "/etc/key.pem" } ∷ []
unfolding resolve_paths resolve_path has_prefix
resolved_certificate = refl
