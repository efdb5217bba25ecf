-- ===== src/RateLimit/Known.antt =====
-- Idle clients are forgotten, and a known client moves to the young end.
use yabber.Base.{
  ℕ, ◌≡◌, refl, sym, ap, ◌∙◌, if◌then◌else◌, none, some, [], ◌∷◌, ◌++◌, Bytes, bytes_eq, ◌==◌,
  ==_iff, lookup, arith, length-append,
}
use yabber.RateLimit.{
  Rates, RateClient, RateLimiter, find_element, remove_element, serve, count_known, forget_idle,
}
use yabber.RateLimit.Elements.{
  Entries, find_key, Agrees, clients, find_client, remove_client, drop_idle, clients-append,
  find_key-append_or, find_element-append, Distinct-append, find_key-remove, find_element-remove,
  find_element-remove_self, Distinct-remove,
}
use yabber.RateLimit.Expiry.{Holds, find_key-Holds, expire-Expired, length-remove}
use yabber.RateLimit.Spec.{IsValid, touch, Counted}

module _ (r : Rates) where
  open r use {new_bucket, allow_n}

  pub forget_idle-IsValid :
      (l : RateLimiter r) (now : ℕ) → IsValid r l → IsValid r (forget_idle r l now)
  unfolding forget_idle
  forget_idle-IsValid l now v =
      let x = expire-Expired r now l.idle_timeout l.recent l.clients v.distinct v.agrees in
      record {
        positive = v.positive;
        bounded = omega (arith, x.shorter, v.bounded);
        distinct = x.distinct;
        agrees = x.agrees;
        fresh = λ p h. x.fresh p (v.fresh p h);
      }

  pub clients-forget_idle :
      (l : RateLimiter r) (now : ℕ)
      → IsValid r l
      → clients r (forget_idle r l now).recent ≡ drop_idle r now l.idle_timeout (clients r l.recent)
  unfolding forget_idle
  clients-forget_idle l now v =
      (expire-Expired r now l.idle_timeout l.recent l.clients v.distinct v.agrees).view

  -- A known client moves to the young end.
  module _ (l : RateLimiter r) (p : ℕ) (c c' : RateClient r) (v : IsValid r l)
      (element : find_element r p l.recent ≡ some c) (known : lookup c.key l.clients ≡ some p)
      (same : c'.key ≡ c.key) where
    gone :
        (k : Bytes)
        → find_key r k (remove_element r p l.recent)
          ≡ (if c.key == k then none else find_key r k l.recent)
    gone k = find_key-remove r k l.recent p c v.distinct element

    moved : Entries r
    moved = remove_element r p l.recent ++ (p, c') ∷ []

    moved-Agrees : Agrees r l.clients moved
    unfolding moved
    moved-Agrees k = ground (
      arith,
      gone k,
      find_key-append_or r k (remove_element r p l.recent) p c',
      v.agrees k,
      ==_iff c.key k,
      ==_iff c'.key k,
    )

    find_element-moved : (q : ℕ) → find_element r q l.recent ≡ none → find_element r q moved ≡ none
    unfolding moved
    find_element-moved q h = ground (
      arith,
      find_element-append r q (remove_element r p l.recent) p c',
      find_element-remove r q p l.recent h,
      element,
    )

    moved-IsValid : IsValid r (record l { recent = moved })
    unfolding moved
    moved-IsValid = record {
      positive = v.positive;
      bounded = omega (
        arith,
        v.bounded,
        length-append (remove_element r p l.recent) ((p, c') ∷ []),
        length-remove r p l.recent c element,
      );
      distinct =
          Distinct-append r (remove_element r p l.recent) p c'
            (Distinct-remove r p l.recent c v.distinct element)
            (ground (arith, gone c'.key, ==_iff c.key c'.key))
            (find_element-remove_self r p l.recent v.distinct);
      agrees = moved-Agrees;
      fresh = λ q h. find_element-moved q (v.fresh q h);
    }

  pub count_known-Counted :
      (l : RateLimiter r) (key : Bytes) (p now : ℕ) (v : IsValid r l)
      (e : lookup key l.clients ≡ some p)
      → (c : RateClient r) × (find_client r key (clients r l.recent) ≡ some c)
        × Counted r l
            (touch r now c (remove_client r key (clients r l.recent)))
            (count_known r l p now)
  unfolding count_known serve touch clients moved
  count_known-Counted l key p now v e =
      let h : Holds r key p l.recent =
        find_key-Holds r key p l.recent v.distinct (sym (v.agrees key) ∙ e) in
      let c' : RateClient r = record (h.client) {
        limiter = (allow_n h.client.limiter now).0;
        seen = now;
      } in
      (
        h.client,
        h.found,
        record {
          after = record l { recent = remove_element r p l.recent ++ (p, c') ∷ [] };
          allowed = (allow_n h.client.limiter now).1;
          returned = rw (h.element, count_known) refl;
          valid = moved-IsValid l p h.client c' v h.element (rw h.key e) refl;
          view =
              ap (λ cs. (cs, (allow_n h.client.limiter now).1))
                (clients-append r (remove_element r p l.recent) ((p, c') ∷ [])
                  ∙ ap (λ cs. cs ++ c' ∷ []) h.removed);
          same_limit = refl;
          same_burst = refl;
          same_bound = refl;
          same_idle = refl;
          same_global = refl;
        },
      )
