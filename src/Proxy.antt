-- ===== src/Proxy.antt =====
-- proxy.go: the prefix that a proxy or a file handler strips, the upstream, and the status of an
-- upstream error. url.Parse is a parameter.
pub mod Prefixes
pub mod Forward
pub mod Headers
pub mod Tests
use yabber.Base.{
  ℕ, Bool, true, false, ◌||◌, ◌&&◌, not, if◌then◌else◌, Option, none, some, List, [], ◌∷◌, Bytes,
  str, bytes_eq, ◌==◌, eqb, ◌⊎◌, inl, inr, cut_prefix, has_prefix, trim_prefix, trim_suffix, ℤ,
  int_eq, bool_eq, pair_eq, Eq, ◌↔◌, ◌≡◌, ap, ==_iff,
}

unfoldable pub starts_segment : Bytes → Bool
starts_segment [] = true
starts_segment (c ∷ rest) = eqb c b'/'

abbrev pub or_root : Bytes → Bytes
or_root [] = str "/"
or_root (c ∷ rest) = c ∷ rest

-- The path behind a prefix of whole segments.
unfoldable pub cut_path_prefix : Bytes → Bytes → Bytes × Bool
cut_path_prefix path prefix = elim (cut_prefix path prefix) [
  | none ↦ (path, false)
  | some rest ↦ if starts_segment rest then (or_root rest, true) else (path, false)
]

-- A path, its escaped form where that is not the default one, and the query.
pub record Url : Type 0 where
  pub path : Bytes
  pub raw_path : Bytes
  pub raw_query : Bytes

abbrev raw_behind : Bytes → Bytes → Bytes
raw_behind raw prefix =
    if raw == []
    then raw
    else let (rest, ok) = cut_path_prefix raw prefix in if ok then rest else []

unfoldable pub strip_path_prefix : Url → Bytes → Url
strip_path_prefix u slashed =
    let prefix = trim_suffix slashed (str "/") in
    let (path, ok) = cut_path_prefix u.path prefix in
    if not ok then u else record u { path = path; raw_path = raw_behind u.raw_path prefix }

pub record Target : Type 0 where
  pub scheme : Bytes
  pub host : Bytes

-- The target and the unix socket to dial, if any.
unfoldable pub parse_upstream : (Bytes → Option Target) → Bytes → Option (Target × Bytes)
parse_upstream parse raw = elim (cut_prefix raw (str "unix:")) [
  | some rest ↦
      let socket = trim_prefix rest (str "//") in
      if has_prefix socket (str "/")
      then some (record { scheme = str "http"; host = str "localhost" }, socket)
      else none
  | none ↦ elim (parse raw) [
    | none ↦ none
    | some target ↦
        if target.host == []
          || (not (target.scheme == str "http") && not (target.scheme == str "https"))
        then none
        else some (target, [])
  ]
]

-- What tells interchangeable transports apart.
pub record TransportKey : Type 0 where
  -- The path of a unix socket, or empty for TCP.
  pub socket : Bytes
  pub insecure_skip_verify : Bool
  pub dial_timeout : ℤ
  pub response_header_timeout : ℤ
  pub max_conns : ℤ

abbrev KeyCode : Type 0
KeyCode = Bytes × (Bool × (ℤ × (ℤ × ℤ)))

abbrev pub key_code : TransportKey → KeyCode
key_code k =
    (k.socket, (k.insecure_skip_verify, (k.dial_timeout, (k.response_header_timeout, k.max_conns))))

abbrev key_with : KeyCode → TransportKey
key_with (socket, rest) = record {
  socket = socket;
  insecure_skip_verify = rest.0;
  dial_timeout = rest.1.0;
  response_header_timeout = rest.1.1.0;
  max_conns = rest.1.1.1;
}

pub key_iff : (k l : TransportKey) → ((key_code k == key_code l) ≡ true) ↔ (k ≡ l)
key_iff k l = (
  λ h. ap key_with ((==_iff (key_code k) (key_code l)).0 h),
  λ e. (==_iff (key_code k) (key_code l)).1 (ap key_code e),
)

-- The == of Go on two keys.
instance abbrev pub key_eq : Eq TransportKey
key_eq = record { test = λ k l. key_code k == key_code l; test_iff = key_iff }

pub record UpstreamError : Type 0 where
  pub body_too_large : Bool
  pub deadline_exceeded : Bool
  pub canceled : Bool

abbrev status_client_closed_request : ℕ
status_client_closed_request = 499

unfoldable pub proxy_error_status : UpstreamError → ℕ
proxy_error_status err =
    if err.body_too_large
    then 413
    else if err.deadline_exceeded
    then 504
    else if err.canceled
    then status_client_closed_request
    else 502
