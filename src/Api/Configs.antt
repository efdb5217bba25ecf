-- ===== src/Api/Configs.antt =====
-- The sites of a configuration by their ids, under the modifications of the endpoints.
use yabber.Base.{
  ℕ, zero, suc, ◌≡◌, refl, sym, ap, ◌∙◌, false, if◌then◌else◌, Option, none, some, List, [], ◌∷◌,
  ◌++◌, Bytes, bytes_eq, ◌==◌, ==_iff, get_elem?, set, arith, Bool-cases, Option-cases, inl, inr,
}
use yabber.Config.{Site, site_id}
use yabber.Api.{site_index}

-- The first site with the id.
unfoldable pub find_site : List Site → Bytes → Option Site
find_site [] id = none
find_site (s ∷ sites) id = if site_id s == id then some s else find_site sites id

abbrev pub at : List Site → Option ℕ → Option Site
at sites none = none
at sites (some i) = get_elem? sites i

pub find_site-at :
    (sites : List Site) (id : Bytes) → at sites (site_index sites id) ≡ find_site sites id
unfolding site_index find_site
find_site-at [] id = refl
find_site-at (s ∷ sites) id = elim (Bool-cases (site_id s == id)) [
  | inl e ↦ rw e refl
  | inr e ↦ elim (Option-cases (site_index sites id)) [
    | inl u ↦ rw (e, u) (ap (at sites) (sym u) ∙ find_site-at sites id)
    | inr (i, u) ↦ rw (e, u) (ap (at sites) (sym u) ∙ find_site-at sites id)
  ]
]

pub site_index-none :
    (sites : List Site) (id : Bytes) → site_index sites id ≡ none → find_site sites id ≡ none
site_index-none sites id h = sym (find_site-at sites id) ∙ ap (at sites) h

pub find_site-append :
    (sites : List Site) (s : Site) (id : Bytes)
    → find_site sites (site_id s) ≡ none
    → find_site (sites ++ s ∷ []) id ≡ (if site_id s == id then some s else find_site sites id)
unfolding find_site
find_site-append [] s id h = refl
find_site-append (t ∷ sites) s id h = ground (
  arith,
  find_site-append sites s id,
  ==_iff (site_id t) id,
  ==_iff (site_id s) id,
  ==_iff (site_id t) (site_id s),
)

index_zero :
    (t : Site) (sites : List Site) (own : Bytes)
    → site_index (t ∷ sites) own ≡ some 0
    → site_id t ≡ own
unfolding site_index
index_zero t sites own h = elim (Option-cases (site_index sites own)) [
  | inl u ↦ ground (arith, ==_iff (site_id t) own)
  | inr (i, u) ↦ ground (arith, ==_iff (site_id t) own)
]

index_suc :
    (t : Site) (sites : List Site) (own : Bytes) (i : ℕ)
    → site_index (t ∷ sites) own ≡ some (suc i)
    → ((site_id t == own) ≡ false) × (site_index sites own ≡ some i)
unfolding site_index
index_suc t sites own i h = elim (Option-cases (site_index sites own)) [
  | inl u ↦ ground arith
  | inr (j, u) ↦ ground arith
]

pub find_site-set :
    (sites : List Site) (s : Site) (own id : Bytes) (i : ℕ)
    → site_index sites own ≡ some i
    → site_id s ≡ own
    → find_site (set sites i s) id ≡ (if own == id then some s else find_site sites id)
unfolding site_index find_site
find_site-set [] s own id i h e = absurd (ground arith)
find_site-set (t ∷ sites) s own id zero h e =
    let here : site_id t ≡ own = index_zero t sites own h in
    ground (arith, ==_iff (site_id s) id, ==_iff (site_id t) id, ==_iff own id)
find_site-set (t ∷ sites) s own id (suc i) h e =
    let (other, later) = index_suc t sites own i h in
    ground (
      arith,
      find_site-set sites s own id i later e,
      ==_iff (site_id t) id,
      ==_iff own id,
      ==_iff (site_id t) own,
    )
