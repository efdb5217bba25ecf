-- ===== src/Proxy/Tests.antt =====
-- A prefix and a path, forged headers, and an instance of the theorem.
use yabber.Base.{
  ◌≡◌, refl, true, false, some, [], ◌∷◌, str, lookup, cut, contains_byte, bytes_eq, cut_prefix,
}
use yabber.Hosts.{split_host_port}
use yabber.Proxy.Forward.{
  Headers, Inbound, Peer, set_forwarded_headers, x_forwarded_for, x_forwarded_host,
  x_forwarded_proto, x_real_ip,
}
use yabber.Proxy.Headers.{set_forwarded_headers_untrusted}
use yabber.Proxy.{cut_path_prefix, starts_segment}

-- A prefix ends at a slash or at the end of the path.
stripped :
    (cut_path_prefix (str "/api") (str "/api") ≡ (str "/", true))
    × (cut_path_prefix (str "/api/v1") (str "/api") ≡ (str "/v1", true))
    × (cut_path_prefix (str "/apis") (str "/api") ≡ (str "/apis", false))
unfolding cut_path_prefix cut_prefix starts_segment
stripped = (refl, refl, refl)

abbrev forged : Headers
forged = (x_forwarded_for, str "1.1.1.1" ∷ []) ∷ (x_forwarded_proto, str "https" ∷ []) ∷ []

abbrev sample_inbound : Inbound
sample_inbound = record {
  host = str "a.org";
  remote_addr = str "10.0.0.9:5000";
  over_tls = false;
  headers = forged;
}

abbrev stranger : Peer
stranger = record { trusted = false; client_ip = some (str "10.0.0.9") }

set_forwarded_headers_untrusted_example :
    (lookup x_forwarded_for (set_forwarded_headers (some stranger) sample_inbound [])
      ≡ some (str "10.0.0.9" ∷ []))
    × (lookup x_forwarded_host (set_forwarded_headers (some stranger) sample_inbound [])
        ≡ some (str "a.org" ∷ []))
    × (lookup x_forwarded_proto (set_forwarded_headers (some stranger) sample_inbound [])
        ≡ some (str "http" ∷ []))
    × (lookup x_real_ip (set_forwarded_headers (some stranger) sample_inbound [])
        ≡ some (str "10.0.0.9" ∷ []))
unfolding split_host_port cut contains_byte lookup
set_forwarded_headers_untrusted_example =
    set_forwarded_headers_untrusted (some (str "10.0.0.9")) sample_inbound [] refl
