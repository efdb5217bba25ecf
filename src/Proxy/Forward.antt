-- ===== src/Proxy/Forward.antt =====
-- proxy.go: the request that a proxy sends to its upstream. A header has a list of values under its
-- canonical name. The functions of net/http/httputil that the source calls are written out where
-- they set headers; joining the URL of the target and of the request is a parameter.

use yabber.Base.{
  Bool, false, if◌then◌else◌, Option, none, some, List, [], ◌∷◌, ◌++◌, Bytes, str, bytes_eq, ◌==◌,
  Dict, lookup, insert, delete, or_else,
}
use yabber.Hosts.{split_host_port}
use yabber.Config.{Proxy}
use yabber.Proxy.{Url, Target, strip_path_prefix}

abbrev pub Headers : Type 0
Headers = Dict Bytes (List Bytes)

pub record Inbound : Type 0 where
  pub host : Bytes
  pub remote_addr : Bytes
  pub over_tls : Bool
  pub headers : Headers

pub record Outbound : Type 0 where
  pub host : Bytes
  pub url : Url
  pub target : Option Target
  pub headers : Headers

-- What the request's state says of its sender.
pub record Peer : Type 0 where
  pub trusted : Bool
  pub client_ip : Option Bytes

abbrev pub x_forwarded_for : Bytes
x_forwarded_for = str "X-Forwarded-For"

abbrev pub x_forwarded_host : Bytes
x_forwarded_host = str "X-Forwarded-Host"

abbrev pub x_forwarded_proto : Bytes
x_forwarded_proto = str "X-Forwarded-Proto"

-- X-Real-IP, in the form under which net/http keeps it.
abbrev pub x_real_ip : Bytes
x_real_ip = str "X-Real-Ip"

join_comma : List Bytes → Bytes
join_comma [] = []
join_comma (v ∷ []) = v
join_comma (v ∷ w ∷ vs) = v ++ (str ", " ++ join_comma (w ∷ vs))

abbrev extended : Bytes → Option (List Bytes) → Bytes
extended ip none = ip
extended ip (some []) = ip
extended ip (some (v ∷ vs)) = join_comma (v ∷ vs) ++ (str ", " ++ ip)

abbrev set_for : Option (Bytes × Bytes) → Headers → Headers
set_for none h = delete x_forwarded_for h
set_for (some (ip, _)) h = insert x_forwarded_for (extended ip (lookup x_forwarded_for h) ∷ []) h

-- httputil.ProxyRequest.SetXForwarded
unfoldable pub set_x_forwarded : Inbound → Headers → Headers
unfolding split_host_port join_comma
set_x_forwarded r h =
    insert x_forwarded_proto ((if r.over_tls then str "https" else str "http") ∷ [])
      (insert x_forwarded_host (r.host ∷ []) (set_for (split_host_port r.remote_addr) h))

-- http.Header.Get: the first value, empty when there is none.
abbrev pub first_value : Option (List Bytes) → Bytes
first_value none = []
first_value (some []) = []
first_value (some (v ∷ _)) = v

-- The trusted proxy's value of a header, where it sent one.
unfoldable pub keep_header : Bytes → Headers → Headers → Headers
keep_header name inbound h =
    let value = first_value (lookup name inbound) in
    if value == [] then h else insert name (value ∷ []) h

-- An assignment of what may be missing: a nil value lists nothing.
unfoldable pub copy_for : Headers → Headers → Headers
copy_for inbound h = insert x_forwarded_for (or_else (lookup x_forwarded_for inbound) []) h

abbrev set_real_ip : Option Bytes → Headers → Headers
set_real_ip none h = delete x_real_ip h
set_real_ip (some ip) h = insert x_real_ip (ip ∷ []) (delete x_real_ip h)

abbrev trusted_peer : Option Peer → Bool
trusted_peer none = false
trusted_peer (some p) = p.trusted

abbrev client_of : Option Peer → Option Bytes
client_of none = none
client_of (some p) = p.client_ip

unfoldable pub set_forwarded_headers : Option Peer → Inbound → Headers → Headers
unfolding set_x_forwarded keep_header copy_for
set_forwarded_headers peer r h =
    let trusted = trusted_peer peer in
    let copied = if trusted then copy_for r.headers h else h in
    let forwarded = set_x_forwarded r copied in
    let kept =
      if trusted
      then keep_header x_forwarded_proto r.headers
          (keep_header x_forwarded_host r.headers forwarded)
      else forwarded in
    set_real_ip (client_of peer) kept

module _ (set_url : Target → Url → Url) where
  abbrev stripped : Bytes → Url → Url
  stripped prefix url = if prefix == [] then url else strip_path_prefix url prefix

  -- The function Rewrite of the reverse proxy.
  unfoldable pub rewrite : Proxy → Target → Option Peer → Inbound → Outbound → Outbound
  unfolding strip_path_prefix set_forwarded_headers
  rewrite config target peer r out = record {
    host = if config.host_header == [] then r.host else config.host_header;
    url = set_url target (stripped config.strip_prefix out.url);
    target = some target;
    headers = set_forwarded_headers peer r out.headers;
  }
