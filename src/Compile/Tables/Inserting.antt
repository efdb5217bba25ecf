-- ===== src/Compile/Tables/Inserting.antt =====
-- What entering the hosts of one site in the tables keeps and adds.
use yabber.Base.{
  ◌≡◌, refl, subst, Bool, true, ◌||◌, none, some, List, [], ◌∷◌, Bytes, bytes_eq, ◌==◌, ==_iff,
  ==_refl, ◌⊎◌, inl, inr, Dict, All, any, arith, Option-cases,
}
use yabber.Hosts.{HostTable, get, set}
use yabber.Hosts.Table.{get-set}
use yabber.Tls.{CertificateStore, require_certificate}
use yabber.RateLimit.{Rates}
use yabber.Handlers.{Web}
use yabber.Server.{ListenerSpec}
use yabber.Compile.Sites.{SiteError, SiteEntry, add_sorted}
use yabber.Compile.Tables.{enter_hosts, require_all}

-- What a set of strings has after an addition.
pub any-add_sorted :
    (host other : Bytes) (hosts : List Bytes)
    → any (λ h. h == other) (add_sorted host hosts) ≡ (host == other || any (λ h. h == other) hosts)
unfolding add_sorted any
any-add_sorted host other [] = refl
any-add_sorted host other (h ∷ hosts) =
    ground
      (arith, any-add_sorted host other hosts, ==_iff h host, ==_iff host other, ==_iff h other)

module _ {ℓ} {V : Type ℓ} where
  -- Every entry of the first table stands in the second.
  abbrev pub Keeps : HostTable V → HostTable V → Type ℓ
  Keeps t t' = (p : Bytes) (v : V) → get t p ≡ some v → get t' p ≡ some v

  pub Keeps-set :
      (t : HostTable V) (host : Bytes) (v : V) → get t host ≡ none → Keeps t (set t host v).0
  Keeps-set t host v f p w h = ground (arith, (get-set t v host p).0, ==_iff host p)

module _ (r : Rates) (web : Web r) where
  pub record Entered (hosts : List Bytes) (entry : SiteEntry r) (t t' : HostTable (SiteEntry r))
      : Type 0 where
    pub keeps : Keeps t t'
    pub entered : All (λ host. get t' host ≡ some entry) hosts

  abbrev Enters :
      List Bytes
      → SiteEntry r
      → HostTable (SiteEntry r)
      → SiteError ⊎ HostTable (SiteEntry r)
      → Type 0
  Enters hosts entry t (inl e) = Unit
  Enters hosts entry t (inr t') = Entered hosts entry t t'

  cons-Enters :
      (entry : SiteEntry r) (host : Bytes) (hosts : List Bytes) (t : HostTable (SiteEntry r))
      (result : SiteError ⊎ HostTable (SiteEntry r))
      → get t host ≡ none
      → Enters hosts entry (set t host entry).0 result
      → Enters (host ∷ hosts) entry t result
  cons-Enters entry host hosts t (inl e) g h = tt
  cons-Enters entry host hosts t (inr t') g h = record {
    keeps = λ p v f. h.keeps p v (Keeps-set t host entry g p v f);
    entered = (
      h.keeps host entry (ground (arith, (get-set t entry host host).0, ==_refl host)),
      h.entered,
    );
  }

  enter_hosts-Enters :
      (name : Bytes) (entry : SiteEntry r) (hosts : List Bytes) (t : HostTable (SiteEntry r))
      → Enters hosts entry t (enter_hosts r web name entry hosts t)
  unfolding enter_hosts
  enter_hosts-Enters name entry [] t = record { keeps = λ p v g. g; entered = tt }
  enter_hosts-Enters name entry (host ∷ hosts) t = elim (Option-cases (get t host)) [
    | inr (other, g) ↦ rw (g, enter_hosts) tt
    | inl g ↦
        rw (g, enter_hosts)
          (cons-Enters entry host hosts t _ g
            (enter_hosts-Enters name entry hosts (set t host entry).0))
  ]

  module _ (is_ip : Bytes → Bool) (certs : CertificateStore) (acme : Bool)
      (by_name : Dict Bytes ListenerSpec) where
    -- A host can be served over TLS, and is noted for it.
    pub record Covered (tls_hosts : List Bytes) (host : Bytes) : Type 0 where
      pub certified : require_certificate is_ip certs acme host ≡ none
      pub noted : any (λ h. h == host) tls_hosts ≡ true

    -- A list of hosts has every host of another.
    abbrev pub Grows : List Bytes → List Bytes → Type 0
    Grows before after =
        (host : Bytes) → any (λ h. h == host) before ≡ true → any (λ h. h == host) after ≡ true

    abbrev Requires : List Bytes → List Bytes → SiteError ⊎ List Bytes → Type 0
    Requires hosts before (inl e) = Unit
    Requires hosts before (inr after) = Grows before after × All (Covered after) hosts

    cons-Requires :
        (host : Bytes) (hosts before : List Bytes) (result : SiteError ⊎ List Bytes)
        → require_certificate is_ip certs acme host ≡ none
        → Requires hosts (add_sorted host before) result
        → Requires (host ∷ hosts) before result
    cons-Requires host hosts before (inl e) c h = tt
    cons-Requires host hosts before (inr after) c (grows, covered) = (
      λ other n. grows other (ground (arith, any-add_sorted host other before)),
      (
        record {
          certified = c;
          noted = grows host (ground (arith, any-add_sorted host host before, ==_refl host));
        },
        covered,
      ),
    )

    require_all-Requires :
        (hosts before : List Bytes)
        → Requires hosts before (require_all r web is_ip certs acme by_name hosts before)
    unfolding require_all
    require_all-Requires [] before = (λ host h. h, tt)
    require_all-Requires (host ∷ hosts) before =
        elim (Option-cases (require_certificate is_ip certs acme host)) [
          | inr (e, c) ↦ rw (c, require_all) tt
          | inl c ↦
              rw (c, require_all)
                (cons-Requires host hosts before _ c
                  (require_all-Requires hosts (add_sorted host before)))
        ]

    -- The result of require_all or enter_hosts where they succeed.
    pub require_all_lem :
        (hosts before after : List Bytes)
        → require_all r web is_ip certs acme by_name hosts before ≡ inr after
        → Grows before after × All (Covered after) hosts
    require_all_lem hosts before after h =
        subst (Requires hosts before) h (require_all-Requires hosts before)

  pub enter_hosts-Entered :
      (name : Bytes) (entry : SiteEntry r) (hosts : List Bytes) (t t' : HostTable (SiteEntry r))
      → enter_hosts r web name entry hosts t ≡ inr t'
      → Entered hosts entry t t'
  enter_hosts-Entered name entry hosts t t' h =
      subst (Enters hosts entry t) h (enter_hosts-Enters name entry hosts t)
