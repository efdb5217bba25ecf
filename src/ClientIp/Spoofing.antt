-- ===== src/ClientIp/Spoofing.antt =====
-- Clients cannot choose their address: what stands left of the first hop that is not a trusted
-- proxy never matters.
use mathlib.Core.List.{reverse-append, append_assoc}
use yabber.Base.{
  ℕ, false, none, some, List, [], ◌∷◌, ◌++◌, reverse, Bytes, ◌≡◌, refl, ap, ◌∙◌, split, arith,
  Option-cases, Bool-cases, inl, inr, ◌⊎◌, eqb,
}
use yabber.ClientIp.{Netip, Sender, is_trusted, remote_address, hops_of, hop_addr, walk, resolve}

split-cons : (s : Bytes) (b : ℕ) → (w : Bytes) × (ws : List Bytes) × (split s b ≡ w ∷ ws)
unfolding split
split-cons [] b = ([], [], refl)
split-cons (c ∷ s) b =
    let (w, ws, e) = split-cons s b in
    elim (Bool-cases (eqb c b)) [ inl h ↦ ([], split s b, rw h) | inr h ↦ (c ∷ w, ws, rw h (rw e)) ]

split-append : (f r : Bytes) (b : ℕ) → split (f ++ b ∷ r) b ≡ split f b ++ split r b
unfolding split
split-append [] r b = ground arith
split-append (c ∷ f) r b =
    let (w, ws, e) = split-cons f b in
    elim (Bool-cases (eqb c b)) [
      | inl h ↦ rw h (ap (◌∷◌ []) (split-append f r b))
      | inr h ↦ rw h (rw (split-append f r b) (rw e refl))
    ]

module _ (n : Netip) where
  open n use {Addr, Prefix}

  -- Some hop is malformed or not a trusted proxy.
  abbrev pub Stops : List Prefix → List Bytes → Type 0
  Stops trusted [] = ⊥
  Stops trusted (hop ∷ hops) =
      ((hop_addr n hop ≡ none)
        ⊎ ((a : Addr) × (hop_addr n hop ≡ some a) × (is_trusted n trusted a ≡ false)))
      ⊎ Stops trusted hops

  Stops-append :
      (trusted : List Prefix) (hops more : List Bytes)
      → Stops trusted hops
      → Stops trusted (hops ++ more)
  Stops-append trusted [] more h = elim h [ ]
  Stops-append trusted (hop ∷ hops) more (inl e) = inl e
  Stops-append trusted (hop ∷ hops) more (inr s) = inr (Stops-append trusted hops more s)

  Stops-append_right :
      (trusted : List Prefix) (hops more : List Bytes)
      → Stops trusted more
      → Stops trusted (hops ++ more)
  Stops-append_right trusted [] more h = h
  Stops-append_right trusted (hop ∷ hops) more h = inr (Stops-append_right trusted hops more h)

  Stops-reverse :
      (trusted : List Prefix) (hops : List Bytes)
      → Stops trusted hops
      → Stops trusted (reverse hops)
  Stops-reverse trusted [] h = elim h [ ]
  Stops-reverse trusted (hop ∷ hops) (inl e) =
      rw (reverse-append (hop ∷ []) hops)
        (Stops-append_right trusted (reverse hops) (hop ∷ []) (inl e))
  Stops-reverse trusted (hop ∷ hops) (inr s) =
      rw (reverse-append (hop ∷ []) hops)
        (Stops-append trusted (reverse hops) (hop ∷ []) (Stops-reverse trusted hops s))

  walk-append :
      (trusted : List Prefix) (client : Addr) (hops more : List Bytes)
      → Stops trusted hops
      → walk n trusted client (hops ++ more) ≡ walk n trusted client hops
  unfolding walk
  walk-append trusted client [] more h = elim h [ ]
  walk-append trusted client (hop ∷ hops) more (inl (inl e)) = rw (e, walk) refl
  walk-append trusted client (hop ∷ hops) more (inl (inr (a, e, u))) = rw (e, walk) (rw u refl)
  walk-append trusted client (hop ∷ hops) more (inr s) = elim (Option-cases (hop_addr n hop)) [
    | inl e ↦ rw (e, walk) refl
    | inr (a, e) ↦ elim (Bool-cases (is_trusted n trusted a)) [
      | inl t ↦ rw (e, walk) (rw t (walk-append trusted a hops more s))
      | inr t ↦ rw (e, walk) (rw t refl)
    ]
  ]

  resolve-eq :
      (trusted : List Prefix) (peer : Bytes) (xs ys : List Bytes)
      → ((client : Addr)
          → walk n trusted client (reverse (hops_of n xs))
            ≡ walk n trusted client (reverse (hops_of n ys)))
      → resolve n trusted (record { remote_addr = peer; forwarded_for = xs })
        ≡ resolve n trusted (record { remote_addr = peer; forwarded_for = ys })
  unfolding resolve
  resolve-eq trusted peer xs ys h = elim (Option-cases (remote_address n peer)) [
    | inl e ↦ rw (e, resolve) refl
    | inr (a, e) ↦ rw (e, resolve) (rw (h a) refl)
  ]

  hops_of-cons :
      (fake value : Bytes) (values : List Bytes)
      → hops_of n ((fake ++ b',' ∷ value) ∷ values) ≡ split fake b',' ++ hops_of n (value ∷ values)
  unfolding hops_of
  hops_of-cons fake value values =
      ap (λ hops. hops ++ hops_of n values) (split-append fake value b',')
      ∙ append_assoc (split fake b',') (split value b',') (hops_of n values)

  hops_of-append : (xs ys : List Bytes) → hops_of n (xs ++ ys) ≡ hops_of n xs ++ hops_of n ys
  unfolding hops_of
  hops_of-append [] ys = refl
  hops_of-append (x ∷ xs) ys = rw (hops_of-append xs ys) (simp append_assoc)

  walk-prepend :
      (trusted : List Prefix) (client : Addr) (fake hops : List Bytes)
      → Stops trusted hops
      → walk n trusted client (reverse (fake ++ hops)) ≡ walk n trusted client (reverse hops)
  walk-prepend trusted client fake hops s =
      rw (reverse-append fake hops)
        (walk-append trusted client (reverse hops) (reverse fake) (Stops-reverse trusted hops s))

  -- A client cannot spoof its address: if some hop of X-Forwarded-For is malformed or not a trusted
  -- proxy, then text put in front of the first value, as a list of further hops, and whole header
  -- values put in front of it, change neither the resolved address nor the trust in the peer.
  pub resolve-prepend :
      (trusted : List Prefix) (peer fake value : Bytes) (fakes values : List Bytes)
      → Stops trusted (hops_of n (value ∷ values))
      → resolve n trusted
          (record { remote_addr = peer; forwarded_for = fakes ++ (fake ++ b',' ∷ value) ∷ values })
        ≡ resolve n trusted (record { remote_addr = peer; forwarded_for = value ∷ values })
  resolve-prepend trusted peer fake value fakes values s = resolve-eq trusted peer _ _ (λ client.
      rw (hops_of-append fakes ((fake ++ b',' ∷ value) ∷ values)) (
        rw (hops_of-cons fake value values) (
          walk-prepend trusted client (hops_of n fakes)
            (split fake b',' ++ hops_of n (value ∷ values))
            (Stops-append_right trusted (split fake b',') (hops_of n (value ∷ values)) s)
          ∙ walk-prepend trusted client (split fake b',') (hops_of n (value ∷ values)) s)))

  -- The header of a peer that is not a trusted proxy is ignored: the client address is the peer's,
  -- and the peer is not reported as trusted.
  pub resolve_untrusted :
      (trusted : List Prefix) (s : Sender) (peer : Addr)
      → remote_address n s.remote_addr ≡ some peer
      → is_trusted n trusted peer ≡ false
      → resolve n trusted s ≡ (some peer, false)
  unfolding resolve
  resolve_untrusted trusted s peer e u = rw (e, resolve) (rw u refl)
