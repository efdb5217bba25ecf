-- ===== src/RateLimit/New.antt =====
-- A new client joins, in the place of the oldest one if the table is full.
use yabber.Base.{
  ℤ, ℕ, suc, ◌<◌, ◌≡◌, refl, sym, ap, ◌∙◌, true, none, some, List, [], ◌∷◌, ◌++◌, length, leb,
  Bytes, bytes_eq, ==_iff, lookup, insert, delete, lookup-insert, lookup-delete, arith, Bool-cases,
  inl, inr, length-append, leb→le, leb→lt,
}
use yabber.RateLimit.{
  Rates, RateClient, RateLimiter, find_element, serve, make_room, admit, count_new,
}
use yabber.RateLimit.Elements.{
  Entries, find_key, clients, Agrees-tail, length-clients, clients-append, find_key-append_or,
  find_element-append, Distinct-append,
}
use yabber.RateLimit.Spec.{IsValid, touch, shrink, Counted}

module _ (r : Rates) where
  open r use {new_bucket, allow_n}

  -- A new client joins at the young end, under a pointer that was never used.
  module _ (l : RateLimiter r) (key : Bytes) (c' : RateClient r) (v : IsValid r l)
      (room : length l.recent < l.max_keys) (unknown : lookup key l.clients ≡ none)
      (same : c'.key ≡ key) where
    absent : find_key r c'.key l.recent ≡ none
    absent = rw same (sym (v.agrees key) ∙ unknown)

    joined-IsValid : IsValid r (record l {
      clients = insert key l.next l.clients;
      next = suc l.next;
      recent = l.recent ++ (l.next, c') ∷ [];
    })
    joined-IsValid = record {
      positive = v.positive;
      bounded = omega (arith, length-append l.recent ((l.next, c') ∷ []));
      distinct =
          Distinct-append r l.recent l.next c' v.distinct absent (v.fresh l.next (omega arith));
      agrees = λ k. ground (
        arith,
        lookup-insert key k l.next l.clients,
        find_key-append_or r k l.recent l.next c',
        v.agrees k,
        ==_iff c'.key k,
        ==_iff key k,
      );
      fresh = λ q h.
          find_element-append r q l.recent l.next c' (v.fresh q (omega arith)) ∙ ground arith;
    }

  -- The table with a place for one more client.
  record Room (l : RateLimiter r) (key : Bytes) : Type 0 where
    after : RateLimiter r
    made : make_room r l ≡ some after
    valid : IsValid r after
    place : length after.recent < after.max_keys
    view : clients r after.recent ≡ shrink r l (clients r l.recent)
    unknown : lookup key after.clients ≡ none
    same_limit : after.limit ≡ l.limit
    same_burst : after.burst ≡ l.burst
    same_bound : after.max_keys ≡ l.max_keys
    same_idle : after.idle_timeout ≡ l.idle_timeout
    same_global : after.global ≡ l.global

  find_element_tail :
      (q p : ℕ) (c : RateClient r) (es : Entries r)
      → find_element r q ((p, c) ∷ es) ≡ none
      → find_element r q es ≡ none
  unfolding find_element
  find_element_tail q p c es h = ground arith

  full-Room :
      (l : RateLimiter r) (key : Bytes) (es : Entries r)
      → IsValid r (record l { recent = es })
      → lookup key l.clients ≡ none
      → leb l.max_keys (length es) ≡ true
      → Room (record l { recent = es }) key
  unfolding clients make_room
  full-Room l key [] v u full = absurd (omega (arith, v.positive, leb→le l.max_keys 0 full))
  full-Room l key ((p, c) ∷ es) v u full = record {
    after = record l { recent = es; clients = delete c.key l.clients };
    made = rw (full, make_room) refl;
    valid = record {
      positive = v.positive;
      bounded = omega (arith, v.bounded);
      distinct = v.distinct.2;
      agrees = Agrees-tail r l.clients p c es v.agrees v.distinct.0;
      fresh = λ q h. find_element_tail q p c es (v.fresh q h);
    };
    place = omega (arith, v.bounded);
    view = rw (length-clients r es) (rw full refl);
    unknown = ground (arith, lookup-delete c.key key l.clients);
    same_limit = refl;
    same_burst = refl;
    same_bound = refl;
    same_idle = refl;
    same_global = refl;
  }

  make-Room-Room :
      (l : RateLimiter r) (key : Bytes) → IsValid r l → lookup key l.clients ≡ none → Room l key
  unfolding make_room
  make-Room-Room l key v u = elim (Bool-cases (leb l.max_keys (length l.recent))) [
    | inl full ↦ full-Room l key l.recent v u full
    | inr free ↦ record {
      after = l;
      made = rw (free, make_room) refl;
      valid = v;
      place = leb→lt _ _ free;
      view = rw (length-clients r l.recent) (rw free refl);
      unknown = u;
      same_limit = refl;
      same_burst = refl;
      same_bound = refl;
      same_idle = refl;
      same_global = refl;
    }
  ]

  same_touch :
      (now : ℕ) (key : Bytes) {limit limit' : ℕ} {burst burst' : ℤ} {cs cs' : List (RateClient r)}
      → cs ≡ cs'
      → limit ≡ limit'
      → burst ≡ burst'
      → touch r now (record { key = key; limiter = new_bucket limit burst; seen = now }) cs
        ≡ touch r now (record { key = key; limiter = new_bucket limit' burst'; seen = now }) cs'
  same_touch now key p q e = cc

  pub count_new-Counted :
      (l : RateLimiter r) (key : Bytes) (now : ℕ)
      → IsValid r l
      → lookup key l.clients ≡ none
      → Counted r l
          (touch r now
            (record { key = key; limiter = new_bucket l.limit l.burst; seen = now })
            (shrink r l (clients r l.recent)))
          (count_new r l key now)
  unfolding count_new admit serve touch clients
  count_new-Counted l key now v u =
      let m : Room l key = make-Room-Room l key v u in
      let b = allow_n (new_bucket m.after.limit m.after.burst) now in
      let c' : RateClient r = record { key = key; limiter = b.0; seen = now } in
      record {
        after = record (m.after) {
          clients = insert key m.after.next m.after.clients;
          next = suc m.after.next;
          recent = m.after.recent ++ (m.after.next, c') ∷ [];
        };
        allowed = b.1;
        returned = rw (m.made, count_new) refl;
        valid = joined-IsValid m.after key c' m.valid m.place m.unknown refl;
        view =
            ap (λ cs. (cs, b.1)) (clients-append r m.after.recent ((m.after.next, c') ∷ []))
            ∙ same_touch now key m.view m.same_limit m.same_burst;
        same_limit = m.same_limit;
        same_burst = m.same_burst;
        same_bound = m.same_bound;
        same_idle = m.same_idle;
        same_global = m.same_global;
      }
