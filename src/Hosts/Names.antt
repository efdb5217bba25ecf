-- ===== src/Hosts/Names.antt =====
-- Host names of requests: ports, brackets, letter case and the final dot do not matter.
use yabber.Base.{
  ℕ, false, ◌||◌, none, some, [], ◌∷◌, ◌++◌, Bytes, ◌≡◌, refl, arith, cut, contains_byte,
}
use yabber.Hosts.{split_host_port, bracketed_host_port, bare_host_port, request_host}

-- A text without any of the bytes that separate a port.
pub record IsPlain (s : Bytes) : Type 0 where
  pub no_colon : contains_byte b':' s ≡ false
  pub no_open : contains_byte b'[' s ≡ false
  pub no_close : contains_byte b']' s ≡ false

cut-append : (s r : Bytes) (b : ℕ) → contains_byte b s ≡ false → cut (s ++ b ∷ r) b ≡ some (s, r)
unfolding cut contains_byte
cut-append [] r b h = ground arith
cut-append (c ∷ s) r b h = ground (arith, cut-append s r b)

cut_absent : (s : Bytes) (b : ℕ) → contains_byte b s ≡ false → cut s b ≡ none
unfolding cut contains_byte
cut_absent [] b h = refl
cut_absent (c ∷ s) b h = ground (arith, cut_absent s b)

contains_byte-append :
    (b : ℕ) (s r : Bytes) → contains_byte b (s ++ r) ≡ (contains_byte b s || contains_byte b r)
unfolding contains_byte
contains_byte-append b [] r = refl
contains_byte-append b (c ∷ s) r = ground (arith, contains_byte-append b s r)

split_host_port-bare :
    (host port : Bytes)
    → IsPlain host
    → IsPlain port
    → split_host_port (host ++ b':' ∷ port) ≡ some (host, port)
unfolding split_host_port bare_host_port contains_byte
split_host_port-bare [] port h p = ground (arith, cut-append [] port b':')
split_host_port-bare (c ∷ s) port h p = ground (
  arith,
  cut-append (c ∷ s) port b':' h.no_colon,
  contains_byte-append b'[' s (b':' ∷ port),
  contains_byte-append b']' s (b':' ∷ port),
)

split_host_port-none : (host : Bytes) → IsPlain host → split_host_port host ≡ none
unfolding split_host_port bare_host_port contains_byte
split_host_port-none [] h = refl
split_host_port-none (c ∷ s) h = ground (arith, cut_absent (c ∷ s) b':' h.no_colon)

split_host_port-bracketed :
    (host port : Bytes)
    → contains_byte b']' host ≡ false
    → contains_byte b'[' host ≡ false
    → IsPlain port
    → split_host_port (b'[' ∷ host ++ b']' ∷ b':' ∷ port) ≡ some (host, port)
unfolding split_host_port bracketed_host_port contains_byte
split_host_port-bracketed host port close no_open p = ground (
  arith,
  cut-append host (b':' ∷ port) b']' close,
  contains_byte-append b'[' host (b']' ∷ b':' ∷ port),
)

-- A port does not change the host of a request: a plain host with a plain port and the same host
-- alone give the same name.
pub request_host-port :
    (host port : Bytes)
    → IsPlain host
    → IsPlain port
    → request_host (host ++ b':' ∷ port) ≡ request_host host
unfolding request_host
request_host-port host port h p =
    rw (split_host_port-bare host port h p) (rw (split_host_port-none host h) refl)
