-- ===== src/Hosts.antt =====
-- hosts.go: host patterns, the table from patterns to values, and host names of requests.
-- `is_ip` stands for a success of netip.ParseAddr; letters and white space are ASCII.
pub mod Table
pub mod Names
pub mod Tests
use yabber.Base.{
  ℕ, Bool, true, false, not, ◌&&◌, ◌||◌, if◌then◌else◌, Option, none, some, List, [], ◌∷◌, ◌++◌,
  Bytes, str, bytes_eq, ◌==◌, Dict, lookup, insert, is_some, cut_prefix, trim_prefix, trim_suffix,
  to_lower, trim_space, trim, cut, contains_byte, contains_any, eqb, or_else,
}

pub record HostTable {ℓ} (V : Type ℓ) : Type ℓ where
  pub exact : Dict Bytes V
  -- Keyed by the parent domain.
  pub wildcard : Dict Bytes V
  pub fallback : Option V

abbrev pub star : Bytes
star = str "*"

abbrev pub star_dot : Bytes
star_dot = str "*."

-- The three kinds of pattern, as the switches of set and get tell them apart.
pub data Kind : Type 0 where
  catch_all : Kind
  under : Bytes → Kind
  named : Bytes → Kind

abbrev prefix_kind : Bytes → Option Bytes → Kind
prefix_kind pattern (some parent) = under parent
prefix_kind pattern none = named pattern

unfoldable pub kind_of : Bytes → Kind
unfolding cut_prefix
kind_of pattern =
    if pattern == star then catch_all else prefix_kind pattern (cut_prefix pattern star_dot)

-- The parent domain that a host's wildcard entry is kept under.
unfoldable pub parent_of : Bytes → Option Bytes
unfolding cut
parent_of host = elim (cut host b'.') [
  | none ↦ none
  | some (label, parent) ↦ if label == [] then none else some parent
]

module _ {ℓ} {V : Type ℓ} where
  abbrev pub empty_table : HostTable V
  empty_table = record { exact = []; wildcard = []; fallback = none }

  abbrev pub set_kind : HostTable V → Kind → V → HostTable V × Bool
  set_kind t catch_all value = (record t { fallback = some value }, is_some t.fallback)
  set_kind t (under parent) value =
      (record t { wildcard = insert parent value t.wildcard }, is_some (lookup parent t.wildcard))
  set_kind t (named pattern) value =
      (record t { exact = insert pattern value t.exact }, is_some (lookup pattern t.exact))

  abbrev pub get_kind : HostTable V → Kind → Option V
  get_kind t catch_all = t.fallback
  get_kind t (under parent) = lookup parent t.wildcard
  get_kind t (named pattern) = lookup pattern t.exact

  -- The table afterwards, and whether the pattern was already set.
  unfoldable pub set : HostTable V → Bytes → V → HostTable V × Bool
  set t pattern = set_kind t (kind_of pattern)

  -- The value stored for exactly this pattern.
  unfoldable pub get : HostTable V → Bytes → Option V
  get t pattern = get_kind t (kind_of pattern)

  unfoldable pub match_wildcard : HostTable V → Bytes → Option V
  match_wildcard t host = elim (parent_of host) [
    | none ↦ none
    | some parent ↦ lookup parent t.wildcard
  ]

  abbrev pub or_try : Option V → Option V → Option V
  or_try (some v) _ = some v
  or_try none o = o

  -- An exact entry first, then a wildcard for the parent domain, then the catch-all.
  unfoldable pub match : HostTable V → Bytes → Option V
  match t host = or_try (lookup host t.exact) (or_try (match_wildcard t host) t.fallback)

  unfoldable pub is_empty : HostTable V → Bool
  is_empty t = no_entries t.exact && no_entries t.wildcard && not (is_some t.fallback)
    where
      no_entries : Dict Bytes V → Bool
      no_entries [] = true
      no_entries (_ ∷ _) = false

unfoldable pub normalize_host : Bytes → Bytes
unfolding trim_suffix to_lower trim_space
normalize_host host = trim_suffix (to_lower (trim_space host)) (str ".")

-- net.SplitHostPort: the host and the port, if there is exactly one port.
bracketed_host_port : Bytes → Option (Bytes × Bytes)
bracketed_host_port s = elim (cut s b']') [
  | none ↦ none
  | some (host, rest) ↦ elim rest [
    | [] ↦ none
    | c ∷ port ↦
        if eqb c b':'
          && not (contains_byte b':' port)
          && not (contains_byte b'[' s)
          && not (contains_byte b']' port)
        then some (host, port)
        else none
  ]
]

bare_host_port : Bytes → Option (Bytes × Bytes)
bare_host_port s = elim (cut s b':') [
  | none ↦ none
  | some (host, port) ↦
      if contains_byte b':' port || contains_byte b'[' s || contains_byte b']' s
      then none
      else some (host, port)
]

unfoldable pub split_host_port : Bytes → Option (Bytes × Bytes)
unfolding bracketed_host_port bare_host_port
split_host_port [] = none
split_host_port (c ∷ s) = if eqb c b'[' then bracketed_host_port s else bare_host_port (c ∷ s)

pub is_bracket : ℕ → Bool
is_bracket c = eqb c b'[' || eqb c b']'

abbrev pub host_part : Bytes → Option (Bytes × Bytes) → Bytes
host_part s none = s
host_part s (some (host, _)) = host

unfoldable pub request_host : Bytes → Bytes
unfolding split_host_port normalize_host is_bracket trim
request_host hostport =
    normalize_host (trim is_bracket (host_part hostport (split_host_port hostport)))

pub data HostError : Type 0 where
  empty_host : HostError
  invalid_host : Bytes → HostError

unfoldable pub validate_host_pattern : (Bytes → Bool) → Bytes → Option HostError
unfolding trim_prefix contains_any
validate_host_pattern is_ip pattern =
    if pattern == []
    then some empty_host
    else if is_ip pattern || pattern == star
    then none
    else let name = trim_prefix pattern star_dot in
      if name == []
        || contains_byte b'*' name
        || contains_any name (b'/' ∷ b':' ∷ b'@' ∷ b' ' ∷ 9 ∷ 13 ∷ 10 ∷ [])
      then some (invalid_host pattern)
      else none
