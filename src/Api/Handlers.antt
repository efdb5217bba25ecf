-- ===== src/Api/Handlers.antt =====
-- api/api.go and api/sites.go: the endpoints of the management API.
use yabber.Base.{
  ℕ, true, not, if◌then◌else◌, Option, none, some, [], ◌++◌, ◌⊎◌, inl, inr, Bytes, str, bytes_eq,
  ◌==◌, get_elem?,
}
use yabber.Config.{Config, site_id}
use yabber.Server.{Network, Server, Snapshot, Failure, UpdateError}
use yabber.Server.Lifecycle.{update, apply, status, healthy}
use yabber.Api.{
  Endpoint, get_status, get_config, put_config, list_sites, create_site, unknown, get_site,
  put_site, delete_site, get_report, ApiRequest, empty, config_body, sites_body, site_body,
  status_body, report_body, ApiResponse, Options, write_json, write_error, authorized, read_json,
  site_index, add_site, replace_site, drop_site, named_for, failure_response, guarded, applied_of,
  answer, Api, active,
}

module _ (n : Network) (compile : Config → Option Snapshot → Bytes ⊎ Snapshot) (o : Options) where
  unfoldable pub after_update :
      Config
      → Server n compile × Option Failure
      → Api n compile
      → Api n compile × (ApiResponse ⊎ Bytes)
  after_update applied (server, some f) a = (record a { server = server }, inl (failure_response f))
  after_update applied (server, none) a = elim (o.save) [
    | none ↦ (record a { server = server }, inr (o.etag_of applied))
    | some save ↦ elim (save applied) [
      | some err ↦ (record a { server = server }, inl (write_error 500 err))
      | none ↦ (record { server = server; saved = some applied }, inr (o.etag_of applied))
    ]
  ]

  -- The error response, or the entity tag of the new configuration.
  unfoldable pub change :
      Bytes
      → (Config → UpdateError ⊎ Config)
      → Api n compile
      → Api n compile × (ApiResponse ⊎ Bytes)
  change if_match modify a =
      let modify' = guarded o if_match modify in
      after_update (applied_of (modify' (active n compile a)) (active n compile a))
        (update n compile modify' a.server) a

  unfoldable pub put_config_handler : ApiRequest → Api n compile → Api n compile × ApiResponse
  put_config_handler r a = elim (read_json r.config) [
    | inl err ↦ (a, err)
    | inr next ↦
        let (a', result) = change r.if_match (λ config. inr next) a in
        (a', answer (write_json 200 (config_body (active n compile a'))) result)
  ]

  unfoldable pub create_site_handler : ApiRequest → Api n compile → Api n compile × ApiResponse
  create_site_handler r a = elim (read_json r.site) [
    | inl err ↦ (a, err)
    | inr site ↦
        if site_id site == []
        then (a, write_error 400 (str "a site needs a name or at least one host"))
        else let (a', result) = change r.if_match (add_site site) a in
          (
            a',
            answer
                (record (write_json 201 (site_body site)) {
                  location = some (str "/api/sites/" ++ o.path_escape (site_id site));
                })
                result,
          )
  ]

  unfoldable pub put_site_handler : Bytes → ApiRequest → Api n compile → Api n compile × ApiResponse
  put_site_handler id r a = elim (read_json r.site) [
    | inl err ↦ (a, err)
    | inr body ↦
        let site = named_for id body in
        if not (site_id site == id)
        then (a, write_error 400 (str "site name does not match the URL"))
        else let (a', result) = change r.if_match (replace_site id site) a in
          (a', answer (write_json 200 (site_body site)) result)
  ]

  unfoldable pub delete_site_handler :
      Bytes → ApiRequest → Api n compile → Api n compile × ApiResponse
  delete_site_handler id r a =
      let (a', result) = change r.if_match (drop_site id) a in
      (a', answer (write_json 204 empty) result)

  abbrev pub with_etag : Config → ApiResponse → ApiResponse
  with_etag config response = record response { etag = some (o.etag_of config) }

  unfoldable pub get_site_handler : Bytes → Api n compile → ApiResponse
  get_site_handler id a = elim (site_index (active n compile a).sites id) [
    | none ↦ write_error 404 (str "no site")
    | some i ↦ elim (get_elem? (active n compile a).sites i) [
      | none ↦ write_error 404 (str "no site")
      | some site ↦ with_etag (active n compile a) (write_json 200 (site_body site))
    ]
  ]

  unfoldable pub endpoint : Endpoint → ApiRequest → Api n compile → Api n compile × ApiResponse
  endpoint get_status r a =
      (a, write_json 200 (status_body (status n compile a.server) (healthy n compile a.server)))
  endpoint get_config r a =
      (a, with_etag (active n compile a) (write_json 200 (config_body (active n compile a))))
  endpoint put_config r a = put_config_handler r a
  endpoint list_sites r a =
      (a, with_etag (active n compile a) (write_json 200 (sites_body (active n compile a).sites)))
  endpoint create_site r a = create_site_handler r a
  endpoint (get_site id) r a = (a, get_site_handler id a)
  endpoint (put_site id) r a = put_site_handler id r a
  endpoint (delete_site id) r a = delete_site_handler id r a
  endpoint (get_report report) r a = (a, write_json 200 (report_body report))
  endpoint unknown r a = (a, write_error 404 (str "no such endpoint"))

  -- Every endpoint stands behind the token.
  unfoldable pub serve_http : Endpoint → ApiRequest → Api n compile → Api n compile × ApiResponse
  serve_http e r a = if authorized o.token r.authorization then endpoint e r a else (
    a,
    record (write_error 401 (str "missing or invalid token")) { www_authenticate = true },
  )

  -- API.Apply: a change from elsewhere, which is not saved.
  unfoldable pub apply_unsaved : Config → Api n compile → Api n compile × Option Failure
  apply_unsaved config a =
      let (server, result) = apply n compile config a.server in
      (record a { server = server }, result)

  -- API.Update: saved like an API write.
  unfoldable pub update_saved :
      (Config → UpdateError ⊎ Config) → Api n compile → Api n compile × (Failure ⊎ Option Bytes)
  update_saved modify a =
      let (server, result) = update n compile modify a.server in
      elim result [
        | some f ↦ (record a { server = server }, inl f)
        | none ↦ elim (o.save) [
          | none ↦ (record a { server = server }, inr none)
          | some save ↦ elim (save server.current.config) [
            | some err ↦ (record a { server = server }, inr (some err))
            | none ↦ (record { server = server; saved = some server.current.config }, inr none)
          ]
        ]
      ]

  -- Healthz: 200 or 503.
  unfoldable pub healthz : Api n compile → ℕ
  healthz a = if healthy n compile a.server then 200 else 503
