-- ===== src/Tls/Coverage.antt =====
-- A host that the configuration may serve over TLS has a certificate in the handshake, or is handed
-- to ACME.
use yabber.Base.{
  ◌≡◌, ◌≢◌, refl, ap, ◌∙◌, Bool, true, false, not, ◌&&◌, ◌||◌, ◌⊎◌, Option, none, some, List, [],
  ◌∷◌, any, Bytes, bytes_eq, ◌==◌, ==_iff, arith, Bool-cases, Option-cases, inl, inr,
}
use yabber.Hosts.{match, star, request_host}
use yabber.Tls.{
  Cert, CertificateTable, CertificateStore, covers, acme_eligible, require_certificate,
  managed_hosts, certificate, issued_for,
}

-- A listed certificate serves the host.
pub listed : CertificateStore → Bytes → Bool
unfolding covers
listed certs host = covers certs.current host || covers certs.stale host

covers-match :
    (t : CertificateTable) (host : Bytes)
    → host ≢ star
    → covers t host ≡ true
    → (c : Cert) × (match t host ≡ some c)
unfolding covers
covers-match t host h e = ground (arith, ==_iff host star)

certificate-listed :
    (certs : CertificateStore) (issued : Option (Bytes → Option Cert)) (name : Bytes)
    → request_host name ≢ star
    → listed certs (request_host name) ≡ true
    → (c : Cert) × (certificate certs issued name ≡ some c)
unfolding listed certificate covers
certificate-listed certs issued name h e =
    elim (Option-cases (match certs.current (request_host name))) [
      | inr (c, m) ↦ (c, rw m refl)
      | inl m ↦ elim (Option-cases (issued_for issued (request_host name))) [
        | inr (c, i) ↦ (c, rw m (rw i refl))
        | inl i ↦
            let found =
              covers-match certs.stale (request_host name) h
                (ground (arith, ==_iff (request_host name) star)) in
            (found.0, rw m (rw i (found.1)))
      ]
    ]

-- Without ACME, a host other than the catch-all that passes the check has a certificate in every
-- handshake that names it.
pub certificate-require_certificate :
    (is_ip : Bytes → Bool) (certs : CertificateStore) (name : Bytes)
    → request_host name ≢ star
    → require_certificate is_ip certs false (request_host name) ≡ none
    → (c : Cert) × (certificate certs none name ≡ some c)
unfolding require_certificate listed
certificate-require_certificate is_ip certs name h e =
    certificate-listed certs none name h (ground arith)

managed_hosts-eligible :
    (is_ip : Bytes → Bool) (hosts : List Bytes) (certs : CertificateStore) (host : Bytes)
    → any (λ h. h == host) hosts ≡ true
    → acme_eligible is_ip host ≡ true
    → covers certs.current host ≡ false
    → any (λ h. h == host) (managed_hosts is_ip hosts certs true) ≡ true
unfolding managed_hosts any
managed_hosts-eligible is_ip [] certs host m e c = m
managed_hosts-eligible is_ip (h ∷ hosts) certs host m e c = elim (Bool-cases (h == host)) [
  | inl q ↦
      let same = (==_iff h host).0 q in
      rw (ap (acme_eligible is_ip) same ∙ e) (rw (ap (covers certs.current) same ∙ c) (rw q refl))
  | inr q ↦
      let later = managed_hosts-eligible is_ip hosts certs host (rw q at m) e c in
      elim (Bool-cases (acme_eligible is_ip h && not (covers certs.current h))) [
        | inl t ↦ rw t (rw later (rw q refl))
        | inr t ↦ rw t later
      ]
]

-- With ACME, a host that passes the check and is served over TLS is managed by ACME, or a
-- listed certificate serves it in every handshake that names it, whatever ACME has issued.
pub managed-or-certificate :
    (is_ip : Bytes → Bool) (certs : CertificateStore) (issued : Option (Bytes → Option Cert))
    (tls_hosts : List Bytes) (name : Bytes)
    → request_host name ≢ star
    → any (λ h. h == request_host name) tls_hosts ≡ true
    → require_certificate is_ip certs true (request_host name) ≡ none
    → (any (λ h. h == request_host name) (managed_hosts is_ip tls_hosts certs true) ≡ true)
      ⊎ ((c : Cert) × (certificate certs issued name ≡ some c))
unfolding require_certificate listed
managed-or-certificate is_ip certs issued tls_hosts name h m e =
    elim (Bool-cases (covers certs.current host)) [
      | inl c ↦ inr (certificate-listed certs issued name h (ground arith))
      | inr c ↦ elim (Bool-cases (acme_eligible is_ip host)) [
        | inl a ↦ inl (managed_hosts-eligible is_ip tls_hosts certs host m a c)
        | inr a ↦ inr (certificate-listed certs issued name h (ground arith))
      ]
    ]
  where
    host : Bytes
    host = request_host name
