-- ===== src/ClientIp.antt =====
-- clientip.go: the trusted proxies of a listener, and the client address of a request.
-- The addresses and prefixes of net/netip are a parameter.
pub mod Spoofing
pub mod Tests
use yabber.Base.{
  ℕ, Bool, true, false, ◌||◌, if◌then◌else◌, Option, none, some, List, [], ◌∷◌, ◌++◌, reverse,
  Bytes, str, trim_space, split, any,
}
use yabber.Hosts.{split_host_port, host_part}

-- What the source calls of net/netip.
pub record Netip : Type 1 where
  pub Addr : Type 0
  pub Prefix : Type 0
  pub parse_addr : Bytes → Option Addr
  pub parse_prefix : Bytes → Option Prefix
  pub unmap : Addr → Addr
  -- netip.PrefixFrom(address, address.BitLen())
  pub whole_prefix : Addr → Prefix
  pub masked : Prefix → Prefix
  pub contains : Prefix → Addr → Bool

pub data ResolverError : Type 0 where
  invalid_trusted_proxy : Bytes → ResolverError

pub data Compiled {ℓ} (A : Type ℓ) : Type ℓ where
  ok : A → Compiled A
  err : ResolverError → Compiled A

-- What a request says of its sender.
pub record Sender : Type 0 where
  pub remote_addr : Bytes
  -- The values of X-Forwarded-For, in the order of the headers.
  pub forwarded_for : List Bytes

module _ (n : Netip) where
  open n use {Addr, Prefix, parse_addr, parse_prefix, unmap, whole_prefix, masked, contains}

  pub trusted_prefix : Bytes → Option Prefix
  trusted_prefix value = elim (parse_prefix value) [
    | some prefix ↦ some prefix
    | none ↦ elim (parse_addr value) [
      | none ↦ none
      | some address ↦ some (whole_prefix (unmap address))
    ]
  ]

  unfoldable pub new_resolver : List Bytes → Compiled (List Prefix)
  unfolding trusted_prefix
  new_resolver [] = ok []
  new_resolver (value ∷ values) = elim (trusted_prefix (trim_space value)) [
    | none ↦ err (invalid_trusted_proxy (trim_space value))
    | some prefix ↦ elim (new_resolver values) [
      | err e ↦ err e
      | ok trusted ↦ ok (masked prefix ∷ trusted)
    ]
  ]

  unfoldable pub is_trusted : List Prefix → Addr → Bool
  unfolding any
  is_trusted trusted address = any (λ prefix. contains prefix address) trusted

  unfoldable pub remote_address : Bytes → Option Addr
  remote_address value = elim (parse_addr (host_part value (split_host_port value))) [
    | none ↦ none
    | some address ↦ some (unmap address)
  ]

  -- The hops of all header values, in order.
  unfoldable pub hops_of : List Bytes → List Bytes
  hops_of [] = []
  hops_of (value ∷ values) = split value b',' ++ hops_of values

  unfoldable pub hop_addr : Bytes → Option Addr
  hop_addr hop = elim (parse_addr (trim_space hop)) [ none ↦ none | some a ↦ some (unmap a) ]

  -- The loop over the hops, from the right; it stops at the first malformed or untrusted one.
  unfoldable pub walk : List Prefix → Addr → List Bytes → Addr
  walk trusted client [] = client
  walk trusted client (hop ∷ hops) = elim (hop_addr hop) [
    | none ↦ client
    | some address ↦ if is_trusted trusted address then walk trusted address hops else address
  ]

  -- The client address, if the peer has one, and whether the peer is a trusted proxy.
  unfoldable pub resolve : List Prefix → Sender → Option Addr × Bool
  unfolding walk hop_addr
  resolve trusted s = elim (remote_address s.remote_addr) [
    | none ↦ (none, false)
    | some peer ↦
        if is_trusted trusted peer
        then (some (walk trusted peer (reverse (hops_of s.forwarded_for))), true)
        else (some peer, false)
  ]
