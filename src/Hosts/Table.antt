-- ===== src/Hosts/Table.antt =====
-- The host table as a map from patterns, and what a lookup by host name finds in it.
use yabber.Base.{
  Bool-cases, inl, inr, sym, ap, ◌∙◌, lookup-insert_ne, if◌then◌else◌, Option, none, some, [], ◌∷◌,
  ◌++◌, Bytes, ◌≡◌, refl, ◌≢◌, arith, bytes_eq, ==_iff, ==_refl, ==_false, ◌==◌, lookup-insert,
  lookup, cut_prefix, is_some, cut, contains_byte, false, str,
}
use yabber.Hosts.{
  Kind, catch_all, under, named, kind_of, prefix_kind, get_kind, set_kind, HostTable, star,
  star_dot, empty_table, set, get, parent_of, match_wildcard, or_try, match,
}

-- A pattern that is cut at its prefix is the prefix and the rest.
pub cut_prefix-some : (s p r : Bytes) → cut_prefix s p ≡ some r → s ≡ p ++ r
unfolding cut_prefix
cut_prefix-some s [] r h = ground arith
cut_prefix-some [] (p ∷ ps) r h = cc
cut_prefix-some (c ∷ s) (p ∷ ps) r h = ground (arith, cut_prefix-some s ps r)

pub cut_prefix-append : (p r : Bytes) → cut_prefix (p ++ r) p ≡ some r
unfolding cut_prefix
cut_prefix-append [] r = refl
cut_prefix-append (p ∷ ps) r = ground (arith, cut_prefix-append ps r)

-- The pattern that a kind was read from.
render : Kind → Bytes
render catch_all = star
render (under parent) = star_dot ++ parent
render (named pattern) = pattern

render-kind_of : (p : Bytes) → render (kind_of p) ≡ p
unfolding kind_of render
render-kind_of p = elim (Bool-cases (p == star)) [
  | inl e ↦ rw e (sym ((==_iff p star).0 e))
  | inr e ↦ rw e (by_prefix (cut_prefix p star_dot) refl)
]
  where
    by_prefix : (o : Option Bytes) → cut_prefix p star_dot ≡ o → render (prefix_kind p o) ≡ p
    by_prefix none h = refl
    by_prefix (some r) h = sym (cut_prefix-some p star_dot r h)

kind_of_injective : (p q : Bytes) → kind_of p ≡ kind_of q → p ≡ q
kind_of_injective p q h = sym (render-kind_of p) ∙ ap render h ∙ render-kind_of q

module _ {ℓ} {V : Type ℓ} (t : HostTable V) (v : V) where
  get_kind-set_kind_self : (k : Kind) → get_kind (set_kind t k v).0 k ≡ some v
  get_kind-set_kind_self catch_all = refl
  get_kind-set_kind_self (under a) = simp (lookup-insert, ==_refl)
  get_kind-set_kind_self (named a) = simp (lookup-insert, ==_refl)

  get_kind-set_kind_ne : (k l : Kind) → k ≢ l → get_kind (set_kind t k v).0 l ≡ get_kind t l
  get_kind-set_kind_ne catch_all catch_all h = absurd (h refl)
  get_kind-set_kind_ne catch_all (under b) h = refl
  get_kind-set_kind_ne catch_all (named b) h = refl
  get_kind-set_kind_ne (under a) catch_all h = refl
  get_kind-set_kind_ne (under a) (under b) h =
      lookup-insert_ne a b v t.wildcard (λ e. h (ap under e))
  get_kind-set_kind_ne (under a) (named b) h = refl
  get_kind-set_kind_ne (named a) catch_all h = refl
  get_kind-set_kind_ne (named a) (under b) h = refl
  get_kind-set_kind_ne (named a) (named b) h = lookup-insert_ne a b v t.exact (λ e. h (ap named e))

  set_kind-replaced : (k : Kind) → (set_kind t k v).1 ≡ is_some (get_kind t k)
  set_kind-replaced catch_all = refl
  set_kind-replaced (under a) = refl
  set_kind-replaced (named a) = refl

  -- The table is a map from patterns: after set the pattern has the value, every other pattern what
  -- it had before, and set reports whether the pattern had a value.
  pub get-set :
      (p q : Bytes)
      → (get (set t p v).0 q ≡ (if p == q then some v else get t q))
        × ((set t p v).1 ≡ is_some (get t p))
  unfolding set get
  get-set p q = (
    elim (Bool-cases (p == q)) [
      | inl e ↦ rw e (rw (← (==_iff p q).0 e) (get_kind-set_kind_self (kind_of p)))
      | inr e ↦ rw e (
          get_kind-set_kind_ne (kind_of p) (kind_of q)
            (λ same. ==_false p q e (kind_of_injective p q same)))
    ],
    set_kind-replaced (kind_of p),
  )

-- The pattern under which the wildcard entry of a host is set.
pub wildcard_of : Bytes → Option Bytes
wildcard_of host = elim (parent_of host) [ none ↦ none | some parent ↦ some (star_dot ++ parent) ]

abbrev pub get_wildcard {ℓ} : {V : Type ℓ} → HostTable V → Option Bytes → Option V
get_wildcard t none = none
get_wildcard t (some pattern) = get t pattern

cut-label :
    (label parent : Bytes)
    → contains_byte b'.' label ≡ false
    → cut (label ++ (b'.' ∷ parent)) b'.' ≡ some (label, parent)
unfolding cut contains_byte
cut-label [] parent h = refl
cut-label (c ∷ label) parent h = ground (arith, cut-label label parent)

wildcard_of-label :
    (label parent : Bytes)
    → contains_byte b'.' label ≡ false
    → wildcard_of (label ++ (b'.' ∷ parent))
      ≡ (if label == [] then none else some (star_dot ++ parent))
unfolding wildcard_of parent_of
wildcard_of-label label parent h =
    rw (cut-label label parent h, wildcard_of, parent_of) (by_label label)
  where
    by_label :
        (l : Bytes)
        → elim (if l == [] then none else some parent) as (λ _. Option Bytes) [
          | none ↦ none
          | some p ↦ some (star_dot ++ p)
        ]
          ≡ (if l == [] then none else some (star_dot ++ parent))
    by_label [] = refl
    by_label (c ∷ l) = refl

kind_of-star_dot : (parent : Bytes) → kind_of (star_dot ++ parent) ≡ under parent
unfolding kind_of
kind_of-star_dot parent = refl

catch_all_star : kind_of star ≡ catch_all
unfolding kind_of
catch_all_star = refl

module _ {ℓ} {V : Type ℓ} (t : HostTable V) where
  match_wildcard-get : (host : Bytes) → match_wildcard t host ≡ get_wildcard t (wildcard_of host)
  unfolding match_wildcard wildcard_of get
  match_wildcard-get host = by_parent (parent_of host) refl
    where
      by_parent :
          (o : Option Bytes)
          → parent_of host ≡ o
          → match_wildcard t host ≡ get_wildcard t (wildcard_of host)
      by_parent none h = rw (h, match_wildcard, wildcard_of)
      by_parent (some parent) h = rw (h, match_wildcard, wildcard_of) (rw (kind_of-star_dot parent))

  pub match-get :
      (host : Bytes)
      → kind_of host ≡ named host
      → match t host ≡ or_try (get t host) (or_try (get_wildcard t (wildcard_of host)) (get t star))
  unfolding match get
  match-get host h = rw h (rw (match_wildcard-get host) (rw catch_all_star refl))

  -- For a host name that is not itself a pattern and starts with a label without a dot and the dot
  -- behind it, match is the value set for that name, or else the one set for "*." and all that stands
  -- behind that dot, or else the one set for the catch-all. If the label is empty, the wildcard is
  -- left out.
  pub match-label :
      (label parent : Bytes)
      → kind_of (label ++ (b'.' ∷ parent)) ≡ named (label ++ (b'.' ∷ parent))
      → contains_byte b'.' label ≡ false
      → match t (label ++ (b'.' ∷ parent))
        ≡ or_try
            (get t (label ++ (b'.' ∷ parent)))
            (or_try (if label == [] then none else get t (str "*." ++ parent)) (get t (str "*")))
  match-label label parent h free =
      match-get (label ++ (b'.' ∷ parent)) h
      ∙ rw (wildcard_of-label label parent free) (by_label label)
    where
      by_label :
          (l : Bytes)
          → or_try (get t (label ++ (b'.' ∷ parent))) (
              or_try
                (get_wildcard t (if l == [] then none else some (star_dot ++ parent)))
                (get t star))
            ≡ or_try
                (get t (label ++ (b'.' ∷ parent)))
                (or_try (if l == [] then none else get t (str "*." ++ parent)) (get t (str "*")))
      by_label [] = refl
      by_label (c ∷ l) = refl

-- No wildcard or catch-all stands among the exact names.
pub record IsValid {ℓ} {V : Type ℓ} (t : HostTable V) : Type ℓ where
  pub names_only : (p : Bytes) → kind_of p ≢ named p → lookup p t.exact ≡ none

pub empty_table-IsValid {ℓ} : (V : Type ℓ) → IsValid (empty_table {V = V})
unfolding lookup
empty_table-IsValid V = record { names_only = λ p h. refl }

kind_of-named : (p q : Bytes) → kind_of p ≡ named q → p ≡ q
unfolding render
kind_of-named p q h = sym (render-kind_of p) ∙ ap render h

module _ {ℓ} {V : Type ℓ} (t : HostTable V) (v : V) (valid : IsValid t) where
  set_kind-IsValid : (p : Bytes) (k : Kind) → kind_of p ≡ k → IsValid (set_kind t k v).0
  set_kind-IsValid p catch_all e = record { names_only = valid.names_only }
  set_kind-IsValid p (under a) e = record { names_only = valid.names_only }
  set_kind-IsValid p (named a) e = record {
    names_only = λ q h.
        lookup-insert_ne a q v t.exact
          (λ same. h (ap kind_of (sym same ∙ sym (kind_of-named p a e)) ∙ e ∙ ap named same))
        ∙ valid.names_only q h;
  }

  pub set-IsValid : (p : Bytes) → IsValid (set t p v).0
  unfolding set
  set-IsValid p = set_kind-IsValid p (kind_of p) refl

-- In a table built by set, the lookup of a wildcard pattern consults only that pattern and the
-- catch-all, never an exact name.
pub match-star_dot {ℓ} :
    {V : Type ℓ} (t : HostTable V) (parent : Bytes)
    → IsValid t
    → match t (star_dot ++ parent) ≡ or_try (get t (star_dot ++ parent)) (get t star)
unfolding match get match_wildcard parent_of
match-star_dot t parent valid = rw (kind_of-star_dot parent) (
    rw (valid.names_only (star_dot ++ parent) (λ e. not_named (sym (kind_of-star_dot parent) ∙ e)))
      (rw catch_all_star refl))
  where
    not_named : under parent ≡ named (star_dot ++ parent) → ⊥
    not_named e = cc
