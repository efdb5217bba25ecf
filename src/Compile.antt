-- ===== src/Compile.antt =====
-- compile.go: the defaults of the server's limits, and the listeners of a configuration. A range over
-- a map literal of the source stops at the first negative limit in the order written here; the text
-- of the error is that of one such limit.
pub mod Listeners
pub mod Sites
pub mod Tables
pub mod Snapshots
pub mod Pools
pub mod Tests
use yabber.Base.{
  ℕ, ◌*◌, Bool, true, false, ◌||◌, if◌then◌else◌, Option, none, some, List, [], ◌∷◌, Bytes, str,
  bytes_eq, ◌==◌, ◌⊎◌, inl, inr, Dict, lookup, insert, is_some, has_suffix, ℤ, pos, is_neg, ltb_ℤ,
  eqb_ℤ,
}
use yabber.Config.{ServerConfig, Listener}
use yabber.Server.{ListenerSpec}

pub data ListenersError : Type 0 where
  negative_limit name_required invalid_proxy : ListenersError
  duplicate_listener no_address : Bytes → ListenersError
  -- The other listener, the listener and the address.
  same_address : Bytes → Bytes → Bytes → ListenersError

abbrev pub second : ℕ
second = 1_000_000_000

abbrev pub duration_or : ℤ → ℕ → ℤ
duration_or value fallback = if ltb_ℤ (pos 0) value then value else pos fallback

unfoldable pub with_defaults : ServerConfig → ListenersError ⊎ ServerConfig
with_defaults s =
    if is_neg s.read_header_timeout
      || is_neg s.read_timeout
      || is_neg s.write_timeout
      || is_neg s.idle_timeout
      || is_neg s.shutdown_timeout
      || is_neg s.max_header_bytes
    then inl negative_limit
    else inr (record s {
      read_header_timeout = duration_or s.read_header_timeout (10 * second);
      idle_timeout = duration_or s.idle_timeout (120 * second);
      shutdown_timeout = duration_or s.shutdown_timeout (10 * second);
      max_header_bytes =
          if eqb_ℤ s.max_header_bytes (pos 0) then pos 65_536 else s.max_header_bytes;
    })

abbrev pub listener_at : Bytes → Bytes → Bool → Listener
listener_at name address tls = record {
  name = name;
  address = address;
  tls = tls;
  trusted_proxies = [];
  policies = [];
}

unfoldable pub default_listeners : Bool → List Listener
default_listeners with_tls =
    listener_at (str "http") (str ":80") false
    ∷ (if with_tls then listener_at (str "https") (str ":443") true ∷ [] else [])

abbrev pub spec_for : ServerConfig → ℕ → Listener → ListenerSpec
spec_for server min_tls l = record {
  address = l.address;
  tls = l.tls;
  min_tls = if l.tls then min_tls else 0;
  server = server;
}

-- `proxies_ok` tells whether the trusted proxies of a listener can be parsed.
module _ (proxies_ok : List Bytes → Bool) (server : ServerConfig) (min_tls : ℕ) where
  -- The listeners and their addresses so far.
  unfoldable pub check_listener :
      Listener → Dict Bytes ListenerSpec → Dict Bytes Bytes → Option ListenersError
  check_listener l specs addresses =
      if l.name == []
      then some name_required
      else if is_some (lookup l.name specs)
      then some (duplicate_listener l.name)
      else if l.address == []
      then some (no_address l.name)
      else elim (lookup l.address addresses) [
        | some other ↦
            if has_suffix l.address (str ":0")
            then (if proxies_ok l.trusted_proxies then none else some invalid_proxy)
            else some (same_address other l.name l.address)
        | none ↦ if proxies_ok l.trusted_proxies then none else some invalid_proxy
      ]

  unfoldable pub listeners_from :
      List Listener
      → Dict Bytes ListenerSpec
      → Dict Bytes Bytes
      → ListenersError ⊎ Dict Bytes ListenerSpec
  listeners_from [] specs addresses = inr specs
  listeners_from (l ∷ ls) specs addresses = elim (check_listener l specs addresses) [
    | some e ↦ inl e
    | none ↦
        listeners_from ls (insert l.name (spec_for server min_tls l) specs)
          (insert l.address l.name addresses)
  ]

  unfoldable pub listeners : List Listener → ListenersError ⊎ Dict Bytes ListenerSpec
  unfolding listeners_from
  listeners ls = listeners_from ls [] []
