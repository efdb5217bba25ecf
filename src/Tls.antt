-- ===== src/Tls.antt =====
-- tls.go, and the parts of compile.go, acme.go and server.go that decide which certificate serves a
-- host: the store of listed certificates, the coverage of hosts, and the choice in a handshake.
-- Times are nanoseconds. Reading and parsing of certificates, and netip.ParseAddr, are parameters;
-- log lines are left out.
pub mod Store
pub mod Coverage
pub mod Tests
use yabber.Base.{
  ℕ, ◌+◌, Bool, true, false, not, ◌&&◌, ◌||◌, if◌then◌else◌, Option, none, some, List, [], ◌∷◌,
  ◌++◌, ltb, leb, Bytes, str, bytes_eq, ◌==◌, is_some, cut_prefix, has_prefix, trim_prefix,
  to_upper, trim_space,
}
use yabber.Config.{Certificate}
use yabber.Hosts.{
  HostTable, empty_table, set, get, match, is_empty, star, star_dot, normalize_host, request_host,
}

-- A parsed certificate: a number that tells it apart, and what is read of its leaf.
pub record Cert : Type 0 where
  pub serial : ℕ
  pub dns_names : List Bytes
  pub not_before : ℕ
  pub not_after : ℕ

abbrev pub CertificateTable : Type 0
CertificateTable = HostTable Cert

-- 24 hours.
abbrev pub certificate_grace : ℕ
certificate_grace = 86_400_000_000_000

pub record CertificateStore : Type 0 where
  pub current : CertificateTable
  pub stale : CertificateTable

abbrev pub empty_store : CertificateStore
empty_store = record { current = empty_table; stale = empty_table }

unfoldable pub store_empty : CertificateStore → Bool
unfolding is_empty
store_empty s = is_empty s.current && is_empty s.stale

pub data LoadError : Type 0 where
  missing_file no_dns_names parse_failed source_failed : LoadError
  load_failed : Bytes → LoadError

pub data Loaded {ℓ} (A : Type ℓ) : Type ℓ where
  ok : A → Loaded A
  err : LoadError → Loaded A

infixl 5 ◌>>=◌
abbrev pub ◌>>=◌ {ℓ κ} : {A : Type ℓ} {B : Type κ} → Loaded A → (A → Loaded B) → Loaded B
ok a >>= f = f a
err e >>= f = err e

-- Expired, about to expire, or not yet valid.
unfoldable pub is_stale : ℕ → Cert → Bool
is_stale now c = ltb now c.not_before || ltb c.not_after (now + certificate_grace)

-- A name keeps the certificate that expires last.
unfoldable pub add_name : Cert → CertificateTable → Bytes → CertificateTable
add_name c t name = elim (get t name) [
  | none ↦ (set t name c).0
  | some existing ↦ if leb c.not_after existing.not_after then t else (set t name c).0
]

unfoldable pub add_names : Cert → CertificateTable → List Bytes → CertificateTable
unfolding add_name
add_names c t [] = t
add_names c t (name ∷ names) = add_names c (add_name c t (normalize_host name)) names

unfoldable pub add_certificate : ℕ → CertificateStore → Cert → CertificateStore
unfolding add_names is_stale
add_certificate now s c =
    if is_stale now c
    then record s { stale = add_names c s.stale c.dns_names }
    else record s { current = add_names c s.current c.dns_names }

unfoldable pub add_certificates : ℕ → CertificateStore → List Cert → CertificateStore
unfolding add_certificate
add_certificates now s [] = s
add_certificates now s (c ∷ cs) = add_certificates now (add_certificate now s c) cs

-- What the source calls of crypto/tls and crypto/x509: a chain read from two files, the chains of
-- a certificate source, if there is one, and the leaf of a chain.
pub record CertificateReader : Type 1 where
  pub Chain : Type 0
  pub load_key_pair : Bytes → Bytes → Option Chain
  pub source : Option (Option (List Chain))
  pub parse_leaf : Chain → Option Cert

module _ (reader : CertificateReader) where
  open reader use {Chain, load_key_pair, source, parse_leaf}

  load_files : List Certificate → Loaded (List Chain)
  load_files [] = ok []
  load_files (file ∷ files) =
      if file.cert == [] || file.key == []
      then err missing_file
      else elim (load_key_pair file.cert file.key) [
        | none ↦ err (load_failed file.cert)
        | some chain ↦ do chains ← load_files files; ok (chain ∷ chains)
      ]

  with_source : List Chain → Loaded (List Chain)
  with_source chains = elim source [
    | none ↦ ok chains
    | some none ↦ err source_failed
    | some (some extra) ↦ ok (chains ++ extra)
  ]

  -- The loop that parses the chains and fills the store.
  fill : ℕ → CertificateStore → List Chain → Loaded CertificateStore
  unfolding add_certificate
  fill now s [] = ok s
  fill now s (chain ∷ chains) = elim (parse_leaf chain) [
    | none ↦ err parse_failed
    | some c ↦ elim c.dns_names [
      | [] ↦ err no_dns_names
      | _ ∷ _ ↦ fill now (add_certificate now s c) chains
    ]
  ]

  unfoldable pub load_certificates : ℕ → List Certificate → Loaded CertificateStore
  unfolding load_files with_source fill
  load_certificates now files = do
    chains ← load_files files
    chains ← with_source chains
    fill now empty_store chains

-- Whether a certificate of the table serves a host pattern.
unfoldable pub covers : CertificateTable → Bytes → Bool
covers t pattern = pattern == star || is_some (match t pattern)

-- TLS 1.2 or 1.3, by its wire number.
unfoldable pub tls_version : Bytes → Option ℕ
unfolding trim_prefix
tls_version value =
    let v = trim_prefix (to_upper (trim_space value)) (str "TLS") in
    if v == [] || v == str "1.2" || v == str "12"
    then some 0x0303
    else if v == str "1.3" || v == str "13"
    then some 0x0304
    else none

-- Whether HTTP-01 can issue for a host pattern.
unfoldable pub acme_eligible : (Bytes → Bool) → Bytes → Bool
unfolding has_prefix
acme_eligible is_ip host =
    if host == star || has_prefix host star_dot then false else not (is_ip host)

pub data CoverageError : Type 0 where
  no_certificate : Bytes → CoverageError
  no_certificate_nor_acme : Bytes → CoverageError

-- `acme` says whether an ACME manager is configured.
unfoldable pub require_certificate :
    (Bytes → Bool) → CertificateStore → Bool → Bytes → Option CoverageError
unfolding covers acme_eligible
require_certificate is_ip certs acme host =
    if covers certs.current host || (acme && acme_eligible is_ip host) || covers certs.stale host
    then none
    else if acme
    then some (no_certificate_nor_acme host)
    else some (no_certificate host)

-- The hosts that ACME must manage.
unfoldable pub managed_hosts : (Bytes → Bool) → List Bytes → CertificateStore → Bool → List Bytes
unfolding covers acme_eligible
managed_hosts is_ip [] certs acme = []
managed_hosts is_ip (host ∷ hosts) certs acme =
    let rest = managed_hosts is_ip hosts certs acme in
    if acme && acme_eligible is_ip host && not (covers certs.current host)
    then host ∷ rest
    else rest

-- Server.certificate: `issued` is the manager's table of issued certificates, if there is a manager.
abbrev issued_for : Option (Bytes → Option Cert) → Bytes → Option Cert
issued_for none host = none
issued_for (some issued) host = issued host

abbrev or_next : Option Cert → Option Cert → Option Cert
or_next (some c) _ = some c
or_next none o = o

unfoldable pub certificate : CertificateStore → Option (Bytes → Option Cert) → Bytes → Option Cert
certificate certs issued server_name =
    let host = request_host server_name in
    or_next (match certs.current host) (or_next (issued_for issued host) (match certs.stale host))
