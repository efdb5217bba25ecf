-- ===== src/Api/Endpoints.antt =====
-- What a request to the API may change, at every endpoint.
use yabber.Base.{
  ◌≡◌, ◌⊎◌, refl, ap, subst, Bool, true, false, Option, some, [], ◌++◌, Bytes, str, bytes_eq, ◌==◌,
  leb, arith, Bool-cases, Sum-cases, inl, inr,
}
use yabber.Config.{Config, site_id}
use yabber.Server.{Network, Snapshot}
use yabber.Server.Apply.{setup}
use yabber.Api.{
  Api, ApiRequest, ApiResponse, Endpoint, Options, active, is_stale, read_json, write_json,
  authorized, write_error, named_for, add_site, replace_site, drop_site, get_status, get_config,
  put_config, list_sites, create_site, unknown, get_site, put_site, delete_site, get_report,
  config_body, site_body, empty,
}
use yabber.Api.Handlers.{
  change, endpoint, serve_http, put_config_handler, create_site_handler, put_site_handler,
  delete_site_handler,
}
use yabber.Api.Failures.{Same, Unsaved}
use yabber.Api.Writes.{
  Keeps, saved_after, Outcome, change-Changed, answer-Outcome, unchanged-Outcome, add_site-Fails400,
  replace_site-Fails400, drop_site-Fails400, read_json-error,
}

unfoldable pub is_write : Endpoint → Bool
is_write put_config = true
is_write create_site = true
is_write (put_site id) = true
is_write (delete_site id) = true
is_write get_status = false
is_write get_config = false
is_write list_sites = false
is_write unknown = false
is_write (get_site id) = false
is_write (get_report report) = false

module _ (n : Network) (compile : Config → Option Snapshot → Bytes ⊎ Snapshot) (o : Options)
    (keeps : Keeps n compile) where
  put_config-Outcome :
      (r : ApiRequest) (a : Api n compile)
      → Outcome n compile o r.if_match a (put_config_handler n compile o r a)
  unfolding put_config_handler
  put_config-Outcome r a = elim (Sum-cases (read_json r.config)) [
    | inl (err, e) ↦
        rw (e, put_config_handler)
          (unchanged-Outcome n compile o r.if_match a err (read_json-error r.config err e))
    | inr (next, e) ↦
        rw (e, put_config_handler)
          (answer-Outcome n compile o r.if_match (λ config. inr next) a
            (write_json 200 (
              config_body
                (active n compile (change n compile o r.if_match (λ config. inr next) a).0)))
            (change n compile o r.if_match (λ config. inr next) a) refl
            (change-Changed n compile o keeps r.if_match (λ config. inr next) a
              (λ config err h. absurd (ground arith))))
  ]

  create_site-Outcome :
      (r : ApiRequest) (a : Api n compile)
      → Outcome n compile o r.if_match a (create_site_handler n compile o r a)
  unfolding create_site_handler
  create_site-Outcome r a = elim (Sum-cases (read_json r.site)) [
    | inl (err, e) ↦
        rw (e, create_site_handler)
          (unchanged-Outcome n compile o r.if_match a err (read_json-error r.site err e))
    | inr (site, e) ↦ elim (Bool-cases (site_id site == [])) [
      | inl b ↦
          rw (e, b, create_site_handler)
            (unchanged-Outcome n compile o r.if_match a
              (write_error 400 (str "a site needs a name or at least one host")) refl)
      | inr b ↦
          rw (e, b, create_site_handler)
            (answer-Outcome n compile o r.if_match (add_site site) a
              (record (write_json 201 (site_body site)) {
                location = some (str "/api/sites/" ++ o.path_escape (site_id site));
              })
              (change n compile o r.if_match (add_site site) a) refl
              (change-Changed n compile o keeps r.if_match (add_site site) a
                (add_site-Fails400 site)))
    ]
  ]

  put_site-Outcome :
      (id : Bytes) (r : ApiRequest) (a : Api n compile)
      → Outcome n compile o r.if_match a (put_site_handler n compile o id r a)
  unfolding put_site_handler
  put_site-Outcome id r a = elim (Sum-cases (read_json r.site)) [
    | inl (err, e) ↦
        rw (e, put_site_handler)
          (unchanged-Outcome n compile o r.if_match a err (read_json-error r.site err e))
    | inr (body, e) ↦ elim (Bool-cases (site_id (named_for id body) == id)) [
      | inr b ↦
          rw (e, b, put_site_handler)
            (unchanged-Outcome n compile o r.if_match a
              (write_error 400 (str "site name does not match the URL")) refl)
      | inl b ↦
          rw (e, b, put_site_handler)
            (answer-Outcome n compile o r.if_match (replace_site id (named_for id body)) a
              (write_json 200 (site_body (named_for id body)))
              (change n compile o r.if_match (replace_site id (named_for id body)) a) refl
              (change-Changed n compile o keeps r.if_match (replace_site id (named_for id body)) a
                (replace_site-Fails400 id (named_for id body))))
    ]
  ]

  delete_site-Outcome :
      (id : Bytes) (r : ApiRequest) (a : Api n compile)
      → Outcome n compile o r.if_match a (delete_site_handler n compile o id r a)
  unfolding delete_site_handler
  delete_site-Outcome id r a =
      answer-Outcome n compile o r.if_match (drop_site id) a (write_json 204 empty)
        (change n compile o r.if_match (drop_site id) a) refl
        (change-Changed n compile o keeps r.if_match (drop_site id) a (drop_site-Fails400 id))

  -- A read leaves everything as it was.
  abbrev Result : Bool → Bytes → Api n compile → Api n compile × ApiResponse → Type 0
  Result true if_match a p = Outcome n compile o if_match a p
  Result false if_match a p = p.0 ≡ a

  endpoint-Result :
      (e : Endpoint) (r : ApiRequest) (a : Api n compile)
      → Result (is_write e) r.if_match a (endpoint n compile o e r a)
  unfolding endpoint is_write
  endpoint-Result put_config r a = put_config-Outcome r a
  endpoint-Result create_site r a = create_site-Outcome r a
  endpoint-Result (put_site id) r a = put_site-Outcome id r a
  endpoint-Result (delete_site id) r a = delete_site-Outcome id r a
  endpoint-Result get_status r a = refl
  endpoint-Result get_config r a = refl
  endpoint-Result list_sites r a = refl
  endpoint-Result unknown r a = refl
  endpoint-Result (get_site id) r a = refl
  endpoint-Result (get_report report) r a = refl

  refused-Result :
      (write : Bool) (if_match : Bytes) (a : Api n compile) (r : ApiResponse)
      → leb 400 r.status ≡ true
      → Result write if_match a (a, r)
  refused-Result true if_match a r h = unchanged-Outcome n compile o if_match a r h
  refused-Result false if_match a r h = refl

  serve_http-Result :
      (e : Endpoint) (r : ApiRequest) (a : Api n compile)
      → Result (is_write e) r.if_match a (serve_http n compile o e r a)
  unfolding serve_http
  serve_http-Result e r a = elim (Bool-cases (authorized o.token r.authorization)) [
    | inl yes' ↦ rw (yes', serve_http) (endpoint-Result e r a)
    | inr no' ↦ rw (no', serve_http) (refused-Result (is_write e) r.if_match a _ refl)
  ]

  abbrev after : Endpoint → ApiRequest → Api n compile → Api n compile
  after e r a = (serve_http n compile o e r a).0

  abbrev response : Endpoint → ApiRequest → Api n compile → ApiResponse
  response e r a = (serve_http n compile o e r a).1

  -- A request that is answered with an error leaves the active snapshot, the flags and the background
  -- tasks of the server, and what was saved last, as they were. The listeners are those of before as
  -- well, or the response is that of a failure to apply the change: then a name that the failure
  -- reports as not restored has no listener, and any other has the one of before or a new one with
  -- its spec. The exception is a status of 500: the change passed its If-Match, the configuration
  -- that is active now was compiled and switched to, and saving it failed, so that what was saved
  -- last is as before. A snapshot is taken to keep the configuration that it was compiled from.
  pub serve_http_failed :
      (e : Endpoint) (r : ApiRequest) (a : Api n compile)
      → leb 400 (response e r a).status ≡ true
      → Same n compile a (serve_http n compile o e r a)
        ⊎ Unsaved n compile o r.if_match a (serve_http n compile o e r a)
  serve_http_failed e r a h =
      by_write (is_write e) (serve_http n compile o e r a) (serve_http-Result e r a) h
    where
      by_write :
          (write : Bool) (p : Api n compile × ApiResponse)
          → Result write r.if_match a p
          → leb 400 p.1.status ≡ true
          → Same n compile a p ⊎ Unsaved n compile o r.if_match a p
      by_write true p (inl (refused, outcome)) h = outcome
      by_write true p (inr (ok, fresh, tagged, saved)) h = absurd (ground arith)
      by_write false p same h = inl (
        ap (λ a'. setup n compile a'.server) same,
        ap (λ a'. a'.saved) same,
        inl (ap (λ a'. a'.server.running) same),
      )

  -- A write that succeeds had an If-Match that was empty, the wildcard, or the entity tag of the
  -- configuration that it replaced; it answers with the entity tag of the configuration that is active
  -- now, and, where configurations are saved, that one is what was saved last. A snapshot is taken to
  -- keep the configuration that it was compiled from.
  pub serve_http_written :
      (e : Endpoint) (r : ApiRequest) (a : Api n compile)
      → is_write e ≡ true
      → leb 400 (response e r a).status ≡ false
      → (is_stale r.if_match (o.etag_of (active n compile a)) ≡ false)
        × ((response e r a).etag ≡ some (o.etag_of (active n compile (after e r a))))
        × ((after e r a).saved ≡ saved_after n compile o a (after e r a))
  serve_http_written e r a w h =
      by_outcome (serve_http n compile o e r a)
        (subst (λ write. Result write r.if_match a (serve_http n compile o e r a)) w
          (serve_http-Result e r a))
        h
    where
      by_outcome :
          (p : Api n compile × ApiResponse)
          → Outcome n compile o r.if_match a p
          → leb 400 p.1.status ≡ false
          → (is_stale r.if_match (o.etag_of (active n compile a)) ≡ false)
            × (p.1.etag ≡ some (o.etag_of (active n compile p.0)))
            × (p.0.saved ≡ saved_after n compile o a p.0)
      by_outcome p (inl (refused, outcome)) h = absurd (ground arith)
      by_outcome p (inr (ok, fresh, tagged, saved)) h = (fresh, tagged, saved)
