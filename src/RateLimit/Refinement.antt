-- ===== src/RateLimit/Refinement.antt =====
-- The limiter with its list, map and pointers does what a plain list of clients in order of last
-- use would do, and never dereferences a bad pointer.
use yabber.Base.{
  subst, ℕ, ◌≡◌, refl, sym, ap, ◌∙◌, none, some, List, Bytes, bytes_eq, lookup, arith, Option-cases,
  inl, inr,
}
use yabber.RateLimit.{Rates, RateClient, RateLimiter, count_client, forget_idle, allow}
use yabber.RateLimit.Elements.{clients, find_client, remove_client, drop_idle}
use yabber.RateLimit.Expiry.{find_client-none}
use yabber.RateLimit.Spec.{allow_with, IsValid, touch, allow_lru, shrink, Counted}
use yabber.RateLimit.Known.{forget_idle-IsValid, clients-forget_idle, count_known-Counted}
use yabber.RateLimit.New.{count_new-Counted}

module _ (r : Rates) where
  open r use {new_bucket, allow_n}

  module _ (l : RateLimiter r) (key : Bytes) (now : ℕ) (v : IsValid r l) where
    idle_free : RateLimiter r
    idle_free = forget_idle r l now

    kept : List (RateClient r)
    kept = drop_idle r now l.idle_timeout (clients r l.recent)

    fresh_client : RateClient r
    fresh_client = record { key = key; limiter = new_bucket l.limit l.burst; seen = now }

    allow_lru_known :
        (c : RateClient r)
        → find_client r key kept ≡ some c
        → allow_lru r l key now (clients r l.recent) ≡ touch r now c (remove_client r key kept)
    unfolding kept allow_with
    allow_lru_known c e = rw (e, allow_with) refl

    allow_lru_unknown :
        find_client r key kept ≡ none
        → allow_lru r l key now (clients r l.recent) ≡ touch r now fresh_client (shrink r l kept)
    unfolding kept allow_with fresh_client
    allow_lru_unknown e = rw (e, allow_with) refl

    count_client_known :
        (p : ℕ)
        → lookup key idle_free.clients ≡ some p
        → Counted r l
            (allow_lru r l key now (clients r l.recent))
            (count_client r idle_free key now)
    unfolding idle_free count_client kept
    count_client_known p e =
        let f = forget_idle r l now in
        let known = count_known-Counted r f key p now (forget_idle-IsValid r l now v) e in
        let m = known.2 in
        let same : clients r f.recent ≡ kept = clients-forget_idle r l now v in
        record {
          after = m.after;
          allowed = m.allowed;
          returned = rw (e, count_client) m.returned;
          valid = m.valid;
          view = m.view ∙ known_lru known.0 same known.1;
          same_limit = m.same_limit ∙ unfold forget_idle in refl;
          same_burst = m.same_burst ∙ unfold forget_idle in refl;
          same_bound = m.same_bound ∙ unfold forget_idle in refl;
          same_idle = m.same_idle ∙ unfold forget_idle in refl;
          same_global = m.same_global ∙ unfold forget_idle in refl;
        }
      where
        known_lru :
            (c : RateClient r) {cs : List (RateClient r)}
            → cs ≡ kept
            → find_client r key cs ≡ some c
            → touch r now c (remove_client r key cs) ≡ allow_lru r l key now (clients r l.recent)
        known_lru c same found =
            ap (λ ds. touch r now c (remove_client r key ds)) same
            ∙ sym (allow_lru_known c (sym (ap (find_client r key) same) ∙ found))

    count_client_unknown :
        lookup key idle_free.clients ≡ none
        → Counted r l
            (allow_lru r l key now (clients r l.recent))
            (count_client r idle_free key now)
    unfolding idle_free fresh_client count_client forget_idle kept
    count_client_unknown e =
        let f = forget_idle r l now in
        let vf = forget_idle-IsValid r l now v in
        let m = count_new-Counted r f key now vf e in
        let same : clients r f.recent ≡ kept = clients-forget_idle r l now v in
        record {
          after = m.after;
          allowed = m.allowed;
          returned = rw (e, count_client) m.returned;
          valid = m.valid;
          view =
              m.view
              ∙ ap (λ cs. touch r now fresh_client (shrink r l cs)) same
              ∙ sym (
                  allow_lru_unknown (
                    sym (ap (find_client r key) same)
                    ∙ find_client-none r key f.recent (sym (vf.agrees key) ∙ e)));
          same_limit = m.same_limit ∙ unfold forget_idle in refl;
          same_burst = m.same_burst ∙ unfold forget_idle in refl;
          same_bound = m.same_bound ∙ unfold forget_idle in refl;
          same_idle = m.same_idle ∙ unfold forget_idle in refl;
          same_global = m.same_global ∙ unfold forget_idle in refl;
        }

  allow_keyed :
      (l : RateLimiter r) (key : Bytes) (now : ℕ)
      → l.global ≡ none
      → allow r l key now ≡ count_client r (forget_idle r l now) key now
  unfolding allow
  allow_keyed l key now g = ground arith

  -- A limiter with one bucket for each client never dereferences a bad pointer, keeps its table
  -- valid (at most max_keys clients, each once, the map and the list in agreement), and answers and
  -- ends as the plain list of clients in order of last use does, in which the idle clients are
  -- forgotten first, a known client keeps its bucket and becomes the most recent one, and a new one
  -- takes the place of the least recently seen when the table is full.
  pub allow-Counted :
      (l : RateLimiter r) (key : Bytes) (now : ℕ)
      → IsValid r l
      → l.global ≡ none
      → Counted r l (allow_lru r l key now (clients r l.recent)) (allow r l key now)
  unfolding idle_free
  allow-Counted l key now v g =
      subst (Counted r l (allow_lru r l key now (clients r l.recent)))
        (sym (allow_keyed l key now g))
        (elim (Option-cases (lookup key (idle_free l key now v).clients)) [
          | inl e ↦ count_client_unknown l key now v e
          | inr (p, e) ↦ count_client_known l key now v p e
        ])
