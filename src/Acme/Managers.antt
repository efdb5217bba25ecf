-- ===== src/Acme/Managers.antt =====
-- acme.go and acmeManagerFor of compile.go: the making of an ACME manager and its reuse. A manager is
-- known by a number, and keeps here what its configuration decides; what the source calls of os,
-- net/url, path/filepath, crypto/x509 and github.com/lsongdev/acme-go is a parameter.
use yabber.Base.{
  ℕ, Bool, not, ◌&&◌, if◌then◌else◌, Option, none, some, [], ◌++◌, Bytes, str, bytes_eq, ◌==◌, eqb,
  map, ◌⊎◌, inl, inr, ◌>>=◌,
}
use yabber.Config.{AcmeConfig}

pub record AcmeFiles : Type 0 where
  -- The host of a URL, if it can be parsed.
  pub host_of : Bytes → Option Bytes
  pub read_file : Bytes → Bytes ⊎ Bytes
  pub has_certificates : Bytes → Bool
  -- The errors of acme.NewClient for a directory, and of ImportKey for a key.
  pub client_error : Bytes → Option Bytes
  pub import_error : Bytes → Option Bytes
  pub join : Bytes → Bytes → Bytes

pub data ManagerError : Type 0 where
  no_data_dir url_without_key no_certificates : ManagerError
  invalid_directory unreadable client_failed key_rejected : Bytes → ManagerError

pub record ManagerFor : Type 0 where
  pub number : ℕ
  pub config : AcmeConfig
  pub account_path : Bytes
  pub cert_dir : Bytes

abbrev lets_encrypt_directory : Bytes
lets_encrypt_directory = str "https://acme-v02.api.letsencrypt.org/directory"

abbrev pub Fine : Type 0
Fine = Unit

unfoldable pub with_directory : AcmeConfig → AcmeConfig
with_directory config =
    if config.directory == [] then record config { directory = lets_encrypt_directory } else config

colons_out : Bytes → Bytes
colons_out = map (λ c. if eqb c b':' then b'_' else c)

abbrev or_fine : (Bytes → ManagerError) → Option Bytes → ManagerError ⊎ Fine
or_fine wrap none = inr tt
or_fine wrap (some e) = inl (wrap e)

unless : ManagerError → Bool → ManagerError ⊎ Fine
unless e bad = if bad then inl e else inr tt

module _ (f : AcmeFiles) (data_dir : Bytes) where
  abbrev host_in : Bytes → Option Bytes → ManagerError ⊎ Bytes
  host_in directory none = inl (invalid_directory directory)
  host_in directory (some host) = if host == [] then inl (invalid_directory directory) else inr host

  abbrev contents : Bytes ⊎ Bytes → ManagerError ⊎ Bytes
  contents (inl e) = inl (unreadable e)
  contents (inr text) = inr text

  check_root : Bytes → ManagerError ⊎ Fine
  unfolding unless
  check_root path = if path == [] then inr tt else do
    pem ← contents (f.read_file path)
    unless no_certificates (not (f.has_certificates pem))

  check_key : Bytes → ManagerError ⊎ Fine
  check_key path =
      if path == []
      then inr tt
      else do key ← contents (f.read_file path); or_fine key_rejected (f.import_error key)

  unfoldable pub new_manager : ℕ → AcmeConfig → ManagerError ⊎ ManagerFor
  unfolding unless with_directory check_root check_key colons_out
  new_manager number given =
      let config = with_directory given in
      let storage = f.join data_dir (str "acme") in
      do
        _ ← unless no_data_dir (data_dir == [])
        _ ← unless url_without_key (not (given.account_url == []) && given.account_key == [])
        host ← host_in config.directory (f.host_of config.directory)
        _ ← check_root config.ca_root
        _ ← or_fine client_failed (f.client_error config.directory)
        _ ← check_key config.account_key
        let name = colons_out host
        inr (record {
          number = number;
          config = config;
          account_path = f.join (f.join storage (str "accounts")) (name_json name);
          cert_dir = f.join (f.join storage (str "certificates")) name;
        })
    where
      name_json : Bytes → Bytes
      name_json name = name ++ str ".json"

  -- The == of Go on two configurations.
  unfoldable pub same_config : AcmeConfig → AcmeConfig → Bool
  same_config a b =
      a.email == b.email
      && a.account_key == b.account_key
      && a.account_url == b.account_url
      && a.directory == b.directory
      && a.ca_root == b.ca_root

  abbrev making : ManagerError ⊎ ManagerFor → ManagerError ⊎ Option ManagerFor
  making (inl e) = inl e
  making (inr m) = inr (some m)

  abbrev reuse_or_new : ℕ → AcmeConfig → Option ManagerFor → ManagerError ⊎ Option ManagerFor
  reuse_or_new number want none = making (new_manager number want)
  reuse_or_new number want (some m) =
      if same_config m.config want then inr (some m) else making (new_manager number want)

  -- `previous` is the manager of the previous snapshot, if there are both.
  unfoldable pub acme_manager_for :
      ℕ → Option AcmeConfig → Option ManagerFor → ManagerError ⊎ Option ManagerFor
  unfolding with_directory same_config new_manager
  acme_manager_for number none previous = inr none
  acme_manager_for number (some config) previous =
      reuse_or_new number (with_directory config) previous
