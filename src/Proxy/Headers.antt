-- ===== src/Proxy/Headers.antt =====
-- What an upstream learns of the client when a request does not come from a trusted proxy.
use yabber.Base.{
  ◌≡◌, ◌∙◌, false, if◌then◌else◌, Option, none, some, List, [], ◌∷◌, Bytes, str, bytes_eq, lookup,
  delete, lookup-insert, lookup-delete, Option-cases, inl, inr,
}
use yabber.Hosts.{split_host_port}
use yabber.Proxy.Forward.{
  Headers, Inbound, set_x_forwarded, set_forwarded_headers, x_forwarded_for, x_forwarded_host,
  x_forwarded_proto, x_real_ip,
}

-- The address of the connection, if it can be read.
abbrev pub peer_of : Option (Bytes × Bytes) → Option (List Bytes)
peer_of none = none
peer_of (some (ip, port)) = some (ip ∷ [])

abbrev pub one_value : Option Bytes → Option (List Bytes)
one_value none = none
one_value (some v) = some (v ∷ [])

module _ (r : Inbound) (h : Headers) where
  forwarded_for :
      lookup x_forwarded_for h ≡ none
      → lookup x_forwarded_for (set_x_forwarded r h) ≡ peer_of (split_host_port r.remote_addr)
  unfolding set_x_forwarded
  forwarded_for e = elim (Option-cases (split_host_port r.remote_addr)) [
    | inl u ↦ rw (u, set_x_forwarded) (simp (lookup-insert, lookup-delete))
    | inr ((ip, port), u) ↦ rw (u, set_x_forwarded) (simp (lookup-insert, e))
  ]

  forwarded_host : lookup x_forwarded_host (set_x_forwarded r h) ≡ some (r.host ∷ [])
  unfolding set_x_forwarded
  forwarded_host = simp (lookup-insert)

  forwarded_proto :
      lookup x_forwarded_proto (set_x_forwarded r h)
      ≡ some ((if r.over_tls then str "https" else str "http") ∷ [])
  unfolding set_x_forwarded
  forwarded_proto = simp (lookup-insert)

-- When the peer is no trusted proxy, and X-Forwarded-For is not set yet in the outgoing request, the forwarding headers that its request carries do not reach the
-- upstream: X-Forwarded-For is the address of the connection, X-Forwarded-Host and -Proto are
-- those of the request, and X-Real-IP is the client address, or missing.
pub set_forwarded_headers_untrusted :
    (ip : Option Bytes) (r : Inbound) (h : Headers)
    → lookup x_forwarded_for h ≡ none
    → (lookup x_forwarded_for
          (set_forwarded_headers (some (record { trusted = false; client_ip = ip })) r h)
        ≡ peer_of (split_host_port r.remote_addr))
      × (lookup x_forwarded_host
            (set_forwarded_headers (some (record { trusted = false; client_ip = ip })) r h)
          ≡ some (r.host ∷ []))
      × (lookup x_forwarded_proto
            (set_forwarded_headers (some (record { trusted = false; client_ip = ip })) r h)
          ≡ some ((if r.over_tls then str "https" else str "http") ∷ []))
      × (lookup x_real_ip
            (set_forwarded_headers (some (record { trusted = false; client_ip = ip })) r h)
          ≡ one_value ip)
unfolding set_forwarded_headers
set_forwarded_headers_untrusted none r h e = (
  lookup-delete x_real_ip x_forwarded_for (set_x_forwarded r h) ∙ forwarded_for r h e,
  lookup-delete x_real_ip x_forwarded_host (set_x_forwarded r h) ∙ forwarded_host r h,
  lookup-delete x_real_ip x_forwarded_proto (set_x_forwarded r h) ∙ forwarded_proto r h,
  lookup-delete x_real_ip x_real_ip (set_x_forwarded r h),
)
set_forwarded_headers_untrusted (some ip) r h e = (
  lookup-insert x_real_ip x_forwarded_for (ip ∷ []) (delete x_real_ip (set_x_forwarded r h))
      ∙ lookup-delete x_real_ip x_forwarded_for (set_x_forwarded r h)
      ∙ forwarded_for r h e,
  lookup-insert x_real_ip x_forwarded_host (ip ∷ []) (delete x_real_ip (set_x_forwarded r h))
      ∙ lookup-delete x_real_ip x_forwarded_host (set_x_forwarded r h)
      ∙ forwarded_host r h,
  lookup-insert x_real_ip x_forwarded_proto (ip ∷ []) (delete x_real_ip (set_x_forwarded r h))
      ∙ lookup-delete x_real_ip x_forwarded_proto (set_x_forwarded r h)
      ∙ forwarded_proto r h,
  lookup-insert x_real_ip x_real_ip (ip ∷ []) (delete x_real_ip (set_x_forwarded r h)),
)
