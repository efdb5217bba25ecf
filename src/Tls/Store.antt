-- ===== src/Tls/Store.antt =====
-- Of the listed certificates for a name, the one that expires last is served.
use yabber.Base.{
  ℕ, ◌≤◌, ◌≡◌, refl, ap, ◌∙◌, Bool, true, false, if◌then◌else◌, Option, none, some, List, [], ◌∷◌,
  ◌++◌, leb, any, lookup, Bytes, bytes_eq, ◌==◌, ==_iff, arith, Bool-cases, inl, inr,
}
use yabber.Hosts.{get, normalize_host, kind_of, get_kind, Kind, catch_all, under, named}
use yabber.Hosts.Table.{get-set}
use yabber.Tls.{
  Cert, CertificateTable, CertificateStore, empty_store, is_stale, add_name, add_names,
  add_certificate, add_certificates,
}

-- Whether a certificate is for a name.
unfoldable pub names : Cert → Bytes → Bool
unfolding any
names c p = any (λ name. normalize_host name == p) c.dns_names

-- The later of the two, and the first one where they expire together.
pub pick : Option Cert → Cert → Option Cert
pick none c = some c
pick (some e) c = if leb c.not_after e.not_after then some e else some c

pick_idem : (o : Option Cert) (c : Cert) → pick (pick o c) c ≡ pick o c
unfolding pick
pick_idem none c = ground arith
pick_idem (some e) c = ground arith

get-add_name :
    (c : Cert) (t : CertificateTable) (name p : Bytes)
    → get (add_name c t name) p ≡ (if name == p then pick (get t p) c else get t p)
unfolding add_name pick
get-add_name c t name p =
    let g = (get-set t c name p).0 in
    elim (Bool-cases (name == p)) [
      | inl e ↦
          let same : get t name ≡ get t p = ap (get t) ((==_iff name p).0 e) in
          ground (arith, g, same)
      | inr e ↦ ground (arith, g)
    ]

get-add_names :
    (c : Cert) (t : CertificateTable) (ns : List Bytes) (p : Bytes)
    → get (add_names c t ns) p
      ≡ (if any (λ name. normalize_host name == p) ns then pick (get t p) c else get t p)
unfolding add_names any
get-add_names c t [] p = refl
get-add_names c t (n ∷ ns) p = ground (
  arith,
  get-add_names c (add_name c t (normalize_host n)) ns p,
  get-add_name c t (normalize_host n) p,
  pick_idem (get t p) c,
)

-- One more listed certificate, for a name that may have one already.
pub note : ℕ → Bytes → Option Cert → Cert → Option Cert
note now p o c = if is_stale now c then o else if names c p then pick o c else o

-- The certificate for a name among those of a list, starting from one that may be there already.
pub latest : ℕ → Bytes → Option Cert → List Cert → Option Cert
latest now p o [] = o
latest now p o (c ∷ cs) = latest now p (note now p o c) cs

get-add_certificate :
    (now : ℕ) (s : CertificateStore) (c : Cert) (p : Bytes)
    → get (add_certificate now s c).current p ≡ note now p (get s.current p) c
unfolding add_certificate note names
get-add_certificate now s c p = ground (arith, get-add_names c s.current c.dns_names p)

pub get-add_certificates :
    (now : ℕ) (s : CertificateStore) (cs : List Cert) (p : Bytes)
    → get (add_certificates now s cs).current p ≡ latest now p (get s.current p) cs
unfolding add_certificates latest
get-add_certificates now s [] p = refl
get-add_certificates now s (c ∷ cs) p =
    get-add_certificates now (add_certificate now s c) cs p
    ∙ ap (λ o. latest now p o cs) (get-add_certificate now s c p)

-- The certificate is for the name and not stale.
abbrev pub Serves : ℕ → Bytes → Cert → Type 0
Serves now p e = (is_stale now e ≡ false) × (names e p ≡ true)

abbrev Fits : ℕ → Bytes → Option Cert → Type 0
Fits now p none = Unit
Fits now p (some e) = Serves now p e

abbrev Reaches : ℕ → Option Cert → Type 0
Reaches n none = ⊥
Reaches n (some e) = n ≤ e.not_after

pick-Fits :
    (now : ℕ) (p : Bytes) (o : Option Cert) (c : Cert)
    → Fits now p o
    → Serves now p c
    → Fits now p (pick o c)
unfolding pick
pick-Fits now p none c f s = s
pick-Fits now p (some e) c f s = ground arith

pick-Reaches : (n : ℕ) (o : Option Cert) (c : Cert) → Reaches n o → Reaches n (pick o c)
unfolding pick
pick-Reaches n none c h = absurd h
pick-Reaches n (some e) c h = ground arith

pick-Reaches_self : (o : Option Cert) (c : Cert) → Reaches c.not_after (pick o c)
unfolding pick
pick-Reaches_self none c = omega arith
pick-Reaches_self (some e) c = ground arith

note-Fits :
    (now : ℕ) (p : Bytes) (o : Option Cert) (c : Cert) → Fits now p o → Fits now p (note now p o c)
unfolding note
note-Fits now p o c f = elim (Bool-cases (is_stale now c)) [
  | inl e ↦ rw e f
  | inr e ↦ elim (Bool-cases (names c p)) [
    | inl n ↦ rw e (rw n (pick-Fits now p o c f (e, n)))
    | inr n ↦ rw e (rw n f)
  ]
]

note-Reaches :
    (now : ℕ) (p : Bytes) (n : ℕ) (o : Option Cert) (c : Cert)
    → Reaches n o
    → Reaches n (note now p o c)
unfolding note
note-Reaches now p n o c h = elim (Bool-cases (is_stale now c)) [
  | inl e ↦ rw e h
  | inr e ↦ elim (Bool-cases (names c p)) [
    | inl m ↦ rw e (rw m (pick-Reaches n o c h))
    | inr m ↦ rw e (rw m h)
  ]
]

note-Reaches_self :
    (now : ℕ) (p : Bytes) (o : Option Cert) (c : Cert)
    → Serves now p c
    → Reaches c.not_after (note now p o c)
unfolding note
note-Reaches_self now p o c s = rw (s.0) (rw (s.1) (pick-Reaches_self o c))

latest-Fits :
    (now : ℕ) (p : Bytes) (o : Option Cert) (cs : List Cert)
    → Fits now p o
    → Fits now p (latest now p o cs)
unfolding latest
latest-Fits now p o [] f = f
latest-Fits now p o (c ∷ cs) f = latest-Fits now p (note now p o c) cs (note-Fits now p o c f)

latest-Reaches :
    (now : ℕ) (p : Bytes) (n : ℕ) (o : Option Cert) (cs : List Cert)
    → Reaches n o
    → Reaches n (latest now p o cs)
unfolding latest
latest-Reaches now p n o [] h = h
latest-Reaches now p n o (c ∷ cs) h =
    latest-Reaches now p n (note now p o c) cs (note-Reaches now p n o c h)

latest-Reaches_member :
    (now : ℕ) (p : Bytes) (o : Option Cert) (before after : List Cert) (c : Cert)
    → Serves now p c
    → Reaches c.not_after (latest now p o (before ++ c ∷ after))
unfolding latest
latest-Reaches_member now p o [] after c s =
    latest-Reaches now p c.not_after (note now p o c) after (note-Reaches_self now p o c s)
latest-Reaches_member now p o (b ∷ before) after c s =
    latest-Reaches_member now p (note now p o b) before after c s

found :
    (now n : ℕ) (p : Bytes) (o : Option Cert)
    → Fits now p o
    → Reaches n o
    → (e : Cert) × (o ≡ some e) × (n ≤ e.not_after) × Serves now p e
found now n p none f h = absurd h
found now n p (some e) f h = (e, refl, h, f)

get-empty : (p : Bytes) → get empty_store.current p ≡ none
unfolding get lookup
get-empty p = by_kind (kind_of p)
  where
    by_kind : (k : Kind) → get_kind empty_store.current k ≡ none
    by_kind catch_all = refl
    by_kind (under a) = refl
    by_kind (named a) = refl

-- Whenever a certificate that is not stale is listed for a name, the store's current table has for
-- that name a certificate that is for the name too, is not stale, and expires no earlier.
pub get-add_certificates_latest :
    (now : ℕ) (before after : List Cert) (c : Cert) (p : Bytes)
    → Serves now p c
    → (e : Cert) × (get (add_certificates now empty_store (before ++ c ∷ after)).current p ≡ some e)
      × (c.not_after ≤ e.not_after)
      × Serves now p e
get-add_certificates_latest now before after c p s =
    rw (get-add_certificates now empty_store (before ++ c ∷ after) p) (
      rw (get-empty p) (
        found now c.not_after p _ (latest-Fits now p none (before ++ c ∷ after) tt)
          (latest-Reaches_member now p none before after c s)))
