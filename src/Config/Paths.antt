-- ===== src/Config/Paths.antt =====
-- Relative paths are resolved once.
use yabber.Base.{
  ◌≡◌, refl, ap, ap₂, ◌∙◌, true, Option, none, some, List, [], ◌∷◌, Bytes, bytes_eq, arith,
}
use yabber.Config.{
  Config, FilePaths, Certificate, AcmeConfig, Files, Handler, Route, Site, resolve_path,
  resolve_acme, resolve_certificates, resolve_files, resolve_handler, resolve_routes, resolve_sites,
  resolve_paths,
}

module _ (f : FilePaths) (base : Bytes)
    (absolute : (p : Bytes) → f.is_abs (f.join base p) ≡ true) where
  resolve_path_idem :
      (p : Bytes) → resolve_path f base (resolve_path f base p) ≡ resolve_path f base p
  unfolding resolve_path
  resolve_path_idem p = ground (arith, absolute p)

  resolve_certificates_idem :
      (cs : List Certificate)
      → resolve_certificates f base (resolve_certificates f base cs)
        ≡ resolve_certificates f base cs
  unfolding resolve_certificates
  resolve_certificates_idem [] = refl
  resolve_certificates_idem (c ∷ cs) =
      cc (resolve_certificates_idem cs, resolve_path_idem c.cert, resolve_path_idem c.key)

  resolve_handler_idem :
      (h : Handler) → resolve_handler f base (resolve_handler f base h) ≡ resolve_handler f base h
  resolve_handler_idem h = by_files h.files
    where
      by_files :
          (o : Option Files)
          → record h { files = resolve_files f base (resolve_files f base o) }
            ≡ record h { files = resolve_files f base o }
      by_files none = refl
      by_files (some files) =
          ap (λ root. record h { files = some (record files { root = root }) })
            (resolve_path_idem files.root)

  resolve_routes_idem :
      (rs : List Route)
      → resolve_routes f base (resolve_routes f base rs) ≡ resolve_routes f base rs
  unfolding resolve_routes
  resolve_routes_idem [] = refl
  resolve_routes_idem (r ∷ rs) =
      ap₂ (λ h rest. record r { handler = h } ∷ rest) (resolve_handler_idem r.handler)
        (resolve_routes_idem rs)

  resolve_site_idem :
      (s : Site) (h : Handler) (rs : List Route) (rest more : List Site)
      → rest ≡ more
      → record s {
        handler = resolve_handler f base (resolve_handler f base h);
        routes = resolve_routes f base (resolve_routes f base rs);
      }
          ∷ rest
        ≡ record s { handler = resolve_handler f base h; routes = resolve_routes f base rs } ∷ more
  resolve_site_idem s h rs rest more e =
      ap₂ (λ h' rs'. record s { handler = h'; routes = rs' } ∷ rest) (resolve_handler_idem h)
        (resolve_routes_idem rs)
      ∙ ap
          (◌∷◌ (record s { handler = resolve_handler f base h; routes = resolve_routes f base rs }))
          e

  resolve_sites_idem :
      (ss : List Site) → resolve_sites f base (resolve_sites f base ss) ≡ resolve_sites f base ss
  unfolding resolve_sites
  resolve_sites_idem [] = refl
  resolve_sites_idem (s ∷ ss) = resolve_site_idem s s.handler s.routes _ _ (resolve_sites_idem ss)

  resolve_acme_idem :
      (o : Option AcmeConfig) → resolve_acme f base (resolve_acme f base o) ≡ resolve_acme f base o
  resolve_acme_idem none = refl
  resolve_acme_idem (some acme) =
      ap₂ (λ root key. some (record acme { ca_root = root; account_key = key }))
        (resolve_path_idem acme.ca_root) (resolve_path_idem acme.account_key)

  -- Where joining to the base directory gives an absolute path, resolving the paths of a
  -- configuration a second time changes nothing, in any section of it.
  pub resolve_paths_idem :
      (c : Config) → resolve_paths f base (resolve_paths f base c) ≡ resolve_paths f base c
  unfolding resolve_paths
  resolve_paths_idem c = cc (
    resolve_acme_idem c.tls.acme,
    resolve_certificates_idem c.tls.certificates,
    resolve_sites_idem c.sites,
  )
