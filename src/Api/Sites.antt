-- ===== src/Api/Sites.antt =====
-- A site that was written can be read back, and the other sites stay as they were.
use yabber.Base.{
  ℕ, ◌≡◌, ◌⊎◌, refl, sym, ap, subst, ◌∙◌, true, false, if◌then◌else◌, Option, none, some, List, [],
  ◌∷◌, ◌++◌, Bytes, str, bytes_eq, ◌==◌, ==_iff, get_elem?, set, leb, arith, Bool-cases,
  Option-cases, inl, inr,
}
use yabber.Config.{Config, Site, site_id}
use yabber.Server.{Network, Snapshot, UpdateError}
use yabber.Api.{
  Api, ApiRequest, ApiResponse, Options, active, read_json, answer, write_json, write_error,
  named_for, add_site, replace_site, site_body, site_index,
}
use yabber.Api.Handlers.{change, create_site_handler, put_site_handler, get_site_handler, with_etag}
use yabber.Api.Configs.{
  find_site, find_site-at, find_site-append, find_site-set, site_index-none, at,
}
use yabber.Api.Writes.{
  Keeps, Modified, change-Changed, answer-Modified, add_site-Fails400, replace_site-Fails400,
}

module _ (n : Network) (compile : Config → Option Snapshot → Bytes ⊎ Snapshot) (o : Options) where
  -- The answer of GET for a site, if there is one.
  abbrev pub found_response : Config → Option Site → ApiResponse
  found_response config none = write_error 404 (str "no site")
  found_response config (some site) = with_etag n compile o config (write_json 200 (site_body site))

  get_site-found :
      (id : Bytes) (a : Api n compile)
      → get_site_handler n compile o id a
        ≡ found_response (active n compile a) (find_site (active n compile a).sites id)
  unfolding get_site_handler
  get_site-found id a =
      by_index (site_index (active n compile a).sites id)
      ∙ ap (found_response (active n compile a)) (find_site-at (active n compile a).sites id)
    where
      by_index :
          (i : Option ℕ)
          → elim i [
            | none ↦ write_error 404 (str "no site")
            | some i ↦ elim (get_elem? (active n compile a).sites i) [
              | none ↦ write_error 404 (str "no site")
              | some site ↦
                  with_etag n compile o (active n compile a) (write_json 200 (site_body site))
            ]
          ]
            ≡ found_response (active n compile a) (at (active n compile a).sites i)
      by_index none = refl
      by_index (some i) = ground arith

abbrev sites_of : UpdateError ⊎ Config → List Site
sites_of (inl e) = []
sites_of (inr config) = config.sites

add_site-find :
    (site : Site) (config config' : Config) (id : Bytes)
    → add_site site config ≡ inr config'
    → find_site config'.sites id
      ≡ (if site_id site == id then some site else find_site config.sites id)
add_site-find site config config' id h =
    elim (Option-cases (site_index config.sites (site_id site))) [
      | inl e ↦
          let added : add_site site config
              ≡ inr (record config { sites = config.sites ++ site ∷ [] }) =
            unfold add_site in rw (e, add_site) refl in
          ap (λ result. find_site (sites_of result) id) (sym h ∙ added)
          ∙ find_site-append config.sites site id (site_index-none config.sites (site_id site) e)
      | inr (i, e) ↦ absurd (unfold add_site in (ground arith))
    ]

replace_site-find :
    (own : Bytes) (site : Site) (config config' : Config) (id : Bytes)
    → site_id site ≡ own
    → replace_site own site config ≡ inr config'
    → find_site config'.sites id ≡ (if own == id then some site else find_site config.sites id)
replace_site-find own site config config' id same h =
    elim (Option-cases (site_index config.sites own)) [
      | inl e ↦ absurd (unfold replace_site in (ground arith))
      | inr (i, e) ↦
          let replaced : replace_site own site config
              ≡ inr (record config { sites = set config.sites i site }) =
            unfold replace_site in rw (e, replace_site) refl in
          ap (λ result. find_site (sites_of result) id) (sym h ∙ replaced)
          ∙ find_site-set config.sites site own id i e same
    ]

module _ (n : Network) (compile : Config → Option Snapshot → Bytes ⊎ Snapshot) (o : Options)
    (keeps : Keeps n compile) where
  create_site-Modified :
      (r : ApiRequest) (a : Api n compile) (site : Site)
      → r.site ≡ some (site, false)
      → Modified n compile o (add_site site) a (create_site_handler n compile o r a)
  create_site-Modified r a site h = elim (Bool-cases (site_id site == [])) [
    | inl b ↦
        subst (Modified n compile o (add_site site) a) (sym (refused b))
          (λ ok. absurd (ground arith))
    | inr b ↦ subst (Modified n compile o (add_site site) a) (sym (changed b)) (
        answer-Modified n compile o r.if_match (add_site site) a done
          (change n compile o r.if_match (add_site site) a)
          (change-Changed n compile o keeps r.if_match (add_site site) a (add_site-Fails400 site)))
  ]
    where
      done : ApiResponse
      done = record (write_json 201 (site_body site)) {
        location = some (str "/api/sites/" ++ o.path_escape (site_id site));
      }

      refused :
          (site_id site == []) ≡ true
          → create_site_handler n compile o r a
            ≡ (a, write_error 400 (str "a site needs a name or at least one host"))
      refused b =
          unfold create_site_handler read_json in rw (h, b, create_site_handler, read_json) refl

      changed :
          (site_id site == []) ≡ false
          → create_site_handler n compile o r a ≡ (
            (change n compile o r.if_match (add_site site) a).0,
            answer done (change n compile o r.if_match (add_site site) a).1,
          )
      changed b =
          unfold create_site_handler read_json in rw (h, b, create_site_handler, read_json) refl

  -- After a site was created, GET of its id answers that site, and GET of any other id what it would
  -- have answered before, with the entity tag of the new configuration.
  pub get_site-create_site :
      (r : ApiRequest) (a : Api n compile) (site : Site) (id : Bytes)
      → r.site ≡ some (site, false)
      → leb 400 (create_site_handler n compile o r a).1.status ≡ false
      → get_site_handler n compile o id (create_site_handler n compile o r a).0
        ≡ found_response n compile o
            (active n compile (create_site_handler n compile o r a).0)
            (if site_id site == id then some site else find_site (active n compile a).sites id)
  get_site-create_site r a site id h ok =
      let a' : Api n compile = (create_site_handler n compile o r a).0 in
      get_site-found n compile o id a'
      ∙ ap (found_response n compile o (active n compile a')) (
          add_site-find site (active n compile a) (active n compile a') id
            (create_site-Modified r a site h ok))

  abbrev Replaces : Bytes → ApiRequest → Api n compile → Site → Api n compile × ApiResponse → Type 0
  Replaces id r a site p =
      leb 400 p.1.status ≡ false
      → (site_id site ≡ id)
        × (replace_site id site (active n compile a) ≡ inr (active n compile p.0))

  put_site-Replaces :
      (id : Bytes) (r : ApiRequest) (a : Api n compile) (body : Site)
      → r.site ≡ some (body, false)
      → Replaces id r a (named_for id body) (put_site_handler n compile o id r a)
  put_site-Replaces id r a body h = elim (Bool-cases (site_id (named_for id body) == id)) [
    | inr b ↦
        subst (Replaces id r a (named_for id body)) (sym (refused b)) (λ ok. absurd (ground arith))
    | inl b ↦ subst (Replaces id r a (named_for id body)) (sym (changed b)) (λ ok. (
      (==_iff (site_id (named_for id body)) id).0 b,
      answer-Modified n compile o r.if_match modify a done (change n compile o r.if_match modify a)
          (change-Changed n compile o keeps r.if_match modify a
            (replace_site-Fails400 id (named_for id body)))
          ok,
    ))
  ]
    where
      modify : Config → UpdateError ⊎ Config
      modify = replace_site id (named_for id body)

      done : ApiResponse
      done = write_json 200 (site_body (named_for id body))

      refused :
          (site_id (named_for id body) == id) ≡ false
          → put_site_handler n compile o id r a
            ≡ (a, write_error 400 (str "site name does not match the URL"))
      refused b = unfold put_site_handler read_json in rw (h, b, put_site_handler, read_json) refl

      changed :
          (site_id (named_for id body) == id) ≡ true
          → put_site_handler n compile o id r a ≡ (
            (change n compile o r.if_match modify a).0,
            answer done (change n compile o r.if_match modify a).1,
          )
      changed b = unfold put_site_handler read_json in rw (h, b, put_site_handler, read_json) refl

  -- After a site was put, GET of the id in the URL answers that site, which has the id, and GET of any
  -- other id what it would have answered before, with the entity tag of the new configuration. A
  -- snapshot is taken to keep the configuration that it was compiled from.
  pub get_site-put_site :
      (own : Bytes) (r : ApiRequest) (a : Api n compile) (body : Site) (id : Bytes)
      → r.site ≡ some (body, false)
      → leb 400 (put_site_handler n compile o own r a).1.status ≡ false
      → (site_id (named_for own body) ≡ own)
        × (get_site_handler n compile o id (put_site_handler n compile o own r a).0
            ≡ found_response n compile o
                (active n compile (put_site_handler n compile o own r a).0)
                (if own == id
                  then some (named_for own body)
                  else find_site (active n compile a).sites id))
  get_site-put_site own r a body id h ok =
      let a' : Api n compile = (put_site_handler n compile o own r a).0 in
      let (same, replaced) = put_site-Replaces own r a body h ok in
      (
        same,
        get_site-found n compile o id a'
            ∙ ap (found_response n compile o (active n compile a')) (
                replace_site-find own (named_for own body) (active n compile a)
                  (active n compile a') id same replaced),
      )
