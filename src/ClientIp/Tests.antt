-- ===== src/ClientIp/Tests.antt =====
-- Runs of the address resolution and instances of its theorems. Addresses are texts that do not
-- begin with a question mark, and a prefix holds one address.
use yabber.Base.{
  ◌≡◌, refl, inl, inr, Bytes, bytes_eq, str, list_test, true, false, Option, none, some, List, [],
  ◌∷◌, ◌++◌, eqb, if◌then◌else◌, split, trim_space, cut, contains_byte,
}
use yabber.Hosts.{split_host_port}
use yabber.ClientIp.{
  Netip, new_resolver, ok, resolve, hops_of, remote_address, is_trusted, hop_addr,
}
use yabber.ClientIp.Spoofing.{Stops, resolve-prepend, resolve_untrusted}

abbrev address_of : Bytes → Option Bytes
address_of [] = none
address_of (c ∷ s) = if eqb c b'?' then none else some (c ∷ s)

abbrev pub sample_netip : Netip
sample_netip = record {
  Addr = Bytes;
  Prefix = Bytes;
  parse_addr = address_of;
  parse_prefix = λ s. none;
  unmap = λ a. a;
  whole_prefix = λ a. a;
  masked = λ p. p;
  contains = list_test;
}

abbrev proxies : List Bytes
proxies = str "10.0.0.1" ∷ str "10.0.0.2" ∷ []

proxies_resolver : new_resolver sample_netip (str " 10.0.0.1" ∷ str "10.0.0.2" ∷ []) ≡ ok proxies
unfolding new_resolver trim_space
proxies_resolver = refl

forwarded :
    resolve sample_netip proxies (record {
      remote_addr = str "10.0.0.1:5000";
      forwarded_for = str "1.1.1.1, 9.9.9.9, 10.0.0.2" ∷ [];
    })
    ≡ (some (str "9.9.9.9"), true)
unfolding resolve is_trusted remote_address split trim_space hops_of split_host_port cut
    contains_byte
forwarded = refl

real_hop-Stops : Stops sample_netip proxies (hops_of sample_netip (str "9.9.9.9" ∷ []))
unfolding hops_of split is_trusted hop_addr trim_space
real_hop-Stops = inl (inr (str "9.9.9.9", refl, refl))

resolve-prepend_example :
    resolve sample_netip proxies (record {
      remote_addr = str "10.0.0.1:5000";
      forwarded_for = (str "6.6.6.6" ∷ []) ++ (str "1.1.1.1" ++ b',' ∷ str "9.9.9.9") ∷ [];
    })
    ≡ resolve sample_netip proxies
        (record { remote_addr = str "10.0.0.1:5000"; forwarded_for = str "9.9.9.9" ∷ [] })
resolve-prepend_example =
    resolve-prepend sample_netip proxies (str "10.0.0.1:5000") (str "1.1.1.1") (str "9.9.9.9")
      (str "6.6.6.6" ∷ []) [] real_hop-Stops

resolve_untrusted_example :
    resolve sample_netip proxies
      (record { remote_addr = str "8.8.8.8:99"; forwarded_for = str "1.1.1.1" ∷ [] })
    ≡ (some (str "8.8.8.8"), false)
unfolding is_trusted remote_address split_host_port cut contains_byte
resolve_untrusted_example =
    resolve_untrusted sample_netip proxies
      (record { remote_addr = str "8.8.8.8:99"; forwarded_for = str "1.1.1.1" ∷ [] })
      (str "8.8.8.8") refl refl
