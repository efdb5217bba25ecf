-- ===== src/RateLimit/Expiry.antt =====
-- A key of the map leads to its client, and the loop over idle clients keeps the map in step.
use yabber.Base.{
  ℕ, suc, ◌+◌, ◌≤◌, ◌≡◌, refl, ap, false, none, some, [], ◌∷◌, length, ltb, eqb, Bytes, bytes_eq,
  ◌==◌, ==_iff, Dict, delete, arith, Bool-cases, inl, inr,
}
use yabber.RateLimit.{Rates, RateClient, find_element, remove_element, expire}
use yabber.RateLimit.Elements.{
  Entries, find_key, Distinct, Agrees, clients, find_client, remove_client, drop_idle, Agrees-tail,
}

module _ (r : Rates) where
  -- What the map says of a key that the list has.
  pub record Holds (k : Bytes) (p : ℕ) (es : Entries r) : Type 0 where
    pub client : RateClient r
    pub element : find_element r p es ≡ some client
    pub key : client.key ≡ k
    pub found : find_client r k (clients r es) ≡ some client
    pub removed : clients r (remove_element r p es) ≡ remove_client r k (clients r es)

  pub find_key-Holds :
      (k : Bytes) (p : ℕ) (es : Entries r) → Distinct r es → find_key r k es ≡ some p → Holds k p es
  unfolding find_key find_element remove_element clients find_client remove_client
  find_key-Holds k p [] d h = absurd (ground arith)
  find_key-Holds k p ((q, c) ∷ es) d h = elim (Bool-cases (c.key == k)) [
    | inl e ↦ record {
      client = c;
      element = ground arith;
      key = (==_iff c.key k).0 e;
      found = rw e refl;
      removed = ground arith;
    }
    | inr e ↦
        let rest : Holds k p es = find_key-Holds k p es d.2 (ground arith) in
        let other : eqb q p ≡ false = ground (arith, rest.element) in
        record {
          client = rest.client;
          element = rw other rest.element;
          key = rest.key;
          found = rw e rest.found;
          removed = rw other (rw e (ap (◌∷◌ c) rest.removed));
        }
  ]

  pub find_client-none :
      (k : Bytes) (es : Entries r) → find_key r k es ≡ none → find_client r k (clients r es) ≡ none
  unfolding find_key clients find_client
  find_client-none k [] h = refl
  find_client-none k ((p, c) ∷ es) h = ground (arith, find_client-none k es)

  -- What the loop over the idle clients r leaves.
  pub record Expired (now idle : ℕ) (es : Entries r) (m : Dict Bytes ℕ) : Type 0 where
    pub distinct : Distinct r (expire r now idle es m).0
    pub agrees : Agrees r (expire r now idle es m).1 (expire r now idle es m).0
    pub shorter : length (expire r now idle es m).0 ≤ length es
    pub fresh :
        (p : ℕ) → find_element r p es ≡ none → find_element r p (expire r now idle es m).0 ≡ none
    pub view : clients r (expire r now idle es m).0 ≡ drop_idle r now idle (clients r es)

  pub expire-Expired :
      (now idle : ℕ) (es : Entries r) (m : Dict Bytes ℕ)
      → Distinct r es
      → Agrees r m es
      → Expired now idle es m
  unfolding expire clients drop_idle find_element
  expire-Expired now idle [] m d a = record {
    distinct = tt;
    agrees = a;
    shorter = omega arith;
    fresh = λ p h. refl;
    view = refl;
  }
  expire-Expired now idle ((p, c) ∷ es) m d a =
      let rest : Expired now idle es (delete c.key m) =
        expire-Expired now idle es (delete c.key m) d.2 (Agrees-tail r m p c es a d.0) in
      elim (Bool-cases (ltb now (c.seen + idle))) [
        | inl e ↦ record {
          distinct = rw e d;
          agrees = rw e a;
          shorter = rw e (omega arith);
          fresh = rw e (λ q h. h);
          view = rw e refl;
        }
        | inr e ↦ record {
          distinct = rw e rest.distinct;
          agrees = rw e rest.agrees;
          shorter = rw e (omega (arith, rest.shorter));
          fresh = rw e (λ q h. rest.fresh q (ground arith));
          view = rw e rest.view;
        }
      ]

  pub length-remove :
      (p : ℕ) (es : Entries r) (c : RateClient r)
      → find_element r p es ≡ some c
      → suc (length (remove_element r p es)) ≡ length es
  unfolding remove_element find_element
  length-remove p [] c h = cc
  length-remove p ((q, b) ∷ es) c h = ground (arith, length-remove p es c)
