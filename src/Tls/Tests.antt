-- ===== src/Tls/Tests.antt =====
-- Runs of the certificate store and instances of its theorems.
use yabber.Base.{
  ◌≤◌, ◌≡◌, ◌≢◌, refl, ◌⊎◌, true, false, none, some, [], ◌∷◌, ◌++◌, ◌*◌, ==_iff, sym, ◌∙◌,
  contains_byte, Bytes, str, bytes_eq, ◌==◌, any, lookup, insert, cut, trim_space, to_upper,
}
use yabber.Hosts.{
  get, set, star, request_host, match, kind_of, match_wildcard, parent_of, normalize_host,
}
use yabber.Tls.{
  Cert, CertificateStore, empty_store, add_certificates, is_stale, tls_version, require_certificate,
  managed_hosts, certificate, certificate_grace,
}
use yabber.Tls.Store.{Serves, names, get-add_certificates_latest}
use yabber.Tls.Coverage.{certificate-require_certificate, managed-or-certificate}

versions :
    (tls_version (str "tls1.3") ≡ some 0x0304)
    × (tls_version (str "") ≡ some 0x0303)
    × (tls_version (str "1.1") ≡ none)
unfolding tls_version trim_space to_upper
versions = (refl, refl, refl)

abbrev old_cert : Cert
old_cert = record {
  serial = 1;
  dns_names = str "a.org" ∷ [];
  not_before = 0;
  not_after = certificate_grace * 2;
}

abbrev new_cert : Cert
new_cert = record old_cert { serial = 2; not_after = certificate_grace * 3 }

old_cert-Serves : Serves 5 (str "a.org") old_cert
unfolding is_stale names normalize_host
old_cert-Serves = (refl, refl)

get-add_certificates_latest_example :
    (e : Cert) × (get
        (add_certificates 5 empty_store ((new_cert ∷ []) ++ old_cert ∷ [])).current
        (str "a.org")
      ≡ some e)
    × (old_cert.not_after ≤ e.not_after)
    × Serves 5 (str "a.org") e
get-add_certificates_latest_example =
    get-add_certificates_latest 5 (new_cert ∷ []) [] old_cert (str "a.org") old_cert-Serves

abbrev sample_store : CertificateStore
sample_store = add_certificates 5 empty_store (old_cert ∷ new_cert ∷ [])

host_name : request_host (str "A.org:443") ≡ str "a.org"
unfolding request_host cut contains_byte
host_name = refl

host_not_star : request_host (str "A.org:443") ≢ star
host_not_star e = cc ((==_iff (str "a.org") star).1 (sym host_name ∙ e))

host_listed :
    require_certificate (λ _. false) sample_store false (request_host (str "A.org:443")) ≡ none
unfolding request_host cut contains_byte require_certificate add_certificates get set lookup insert
    kind_of match match_wildcard parent_of normalize_host any
host_listed = refl

certificate-require_certificate_example :
    (c : Cert) × (certificate sample_store none (str "A.org:443") ≡ some c)
certificate-require_certificate_example =
    certificate-require_certificate (λ _. false) sample_store (str "A.org:443") host_not_star
      host_listed

abbrev new_host : Bytes
new_host = str "b.org"

managed-or-certificate_example :
    (any
        (λ h. h == request_host new_host)
        (managed_hosts (λ _. false) (new_host ∷ []) sample_store true)
      ≡ true)
    ⊎ ((c : Cert) × (certificate sample_store none new_host ≡ some c))
unfolding request_host cut contains_byte require_certificate add_certificates get set lookup insert
    kind_of match match_wildcard parent_of normalize_host any
managed-or-certificate_example =
    managed-or-certificate (λ _. false) sample_store none (new_host ∷ []) new_host
      (λ e. cc ((==_iff new_host star).1 e)) refl refl
