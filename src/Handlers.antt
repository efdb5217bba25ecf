-- ===== src/Handlers.antt =====
-- handlers.go, and the compiler's functions proxy and transport: the handler that a configuration
-- names. What the source calls of os, net/http and net/http/httputil, and the registered extensions,
-- are a parameter. The keys of the extensions stand in their order. A pool of upstream connections
-- is a number.
pub mod Opening
pub mod Tests
use yabber.Base.{
  ℕ, suc, ◌+◌, ◌*◌, nat_eq, Bool, true, false, not, ◌&&◌, ◌||◌, if◌then◌else◌, Option, none, some,
  List, [], ◌∷◌, ◌++◌, Bytes, str, bytes_eq, ◌==◌, ◌⊎◌, inl, inr, ◌>>=◌, Dict, lookup, insert,
  is_some, any, length, has_prefix, trim_suffix, split, ℤ, pos, negsuc, is_neg, ltb_ℤ, eqb_ℤ, ltb,
  leb,
}
use yabber.Config.{Proxy, Files, Respond, Redirect}
use yabber.Config
use yabber.RateLimit.{Rates}
use yabber.Proxy.{
  Url, Target, TransportKey, key_eq, UpstreamError, parse_upstream, proxy_error_status,
  strip_path_prefix,
}
use yabber.Proxy.Forward.{Peer, Inbound, Outbound, rewrite}
use yabber.Policies.{Request, Shared, Handler, write_header}
use yabber.Compile.{duration_or, second}

pub data FileError : Type 0 where
  not_exist : FileError
  other_error : Bytes → FileError

-- The files of the operating system; an open takes the root of an http.Dir and a name.
pub record FileSystem : Type 1 where
  pub File : Type 0
  pub stat_root : Bytes → Bytes ⊎ Bool
  pub open_file : Bytes → Bytes → FileError ⊎ File
  pub is_dir : File → FileError ⊎ Bool
  pub join_path : Bytes → Bytes → Bytes

unfoldable pub is_hidden : Bytes → Bool
unfolding has_prefix
is_hidden part = has_prefix part (str ".") && not (part == str ".well-known")

module _ (fs : FileSystem) (root : Bytes) (browse : Bool) where
  abbrev pub with_index : Bytes → fs.File → FileError ⊎ fs.File → FileError ⊎ fs.File
  with_index name file (inl e) = inl not_exist
  with_index name file (inr index) = inr file

  unfoldable pub open_public : Bytes → FileError ⊎ fs.File
  unfolding any is_hidden split
  open_public name =
      if any is_hidden (split name b'/') then inl not_exist else elim (fs.open_file root name) [
        | inl e ↦ inl e
        | inr file ↦ if browse then inr file else elim (fs.is_dir file) [
          | inl e ↦ inl e
          | inr dir ↦
              if dir
              then with_index name file (fs.open_file root (fs.join_path name (str "index.html")))
              else inr file
        ]
      ]

-- What httputil.ReverseProxy is given: the pool of its transport, and the functions it calls.
pub record ReverseProxy : Type 0 where
  pub pool : ℕ
  pub rewriting : Option Peer → Inbound → Outbound → Outbound
  pub error_status : UpstreamError → ℕ

module _ (r : Rates) where
  pub record Web : Type 1 where
    pub fs : FileSystem
    pub file_server : (Bytes → FileError ⊎ fs.File) → Handler r
    pub reverse_proxy : ReverseProxy → Handler r
    pub parse_url : Bytes → Option Target
    pub set_url : Target → Url → Url
    pub request_uri : Url → Bytes
    -- url.URL.String with a scheme and a host.
    pub url_string : Bytes → Bytes → Url → Bytes
    -- The canonical form of the name of a header.
    pub canonical : Bytes → Bytes
    -- The Location that http.Redirect writes for a target.
    pub location_of : Request → Bytes → Bytes
    pub factory : Bytes → Option (Bytes → Bytes ⊎ Handler r)
    -- http.ServeMux, and the text of the panic of a registration.
    pub Mux : Type 0
    pub new_mux : Mux
    pub handle : Mux → Bytes → Handler r → Bytes ⊎ Mux
    pub serve_mux : Mux → Handler r

pub data HandlerError : Type 0 where
  not_exactly_one root_required not_a_directory target_required : HandlerError
  negative_proxy_limit : HandlerError
  invalid_upstream root_failed unknown_extension : Bytes → HandlerError
  extension_failed : Bytes → Bytes → HandlerError
  invalid_status invalid_redirect_status : ℤ → HandlerError

-- The pools in use, those of the previous configuration, and the first number not in use.
pub record Pools : Type 0 where
  pub used : Dict TransportKey ℕ
  pub previous : Dict TransportKey ℕ
  pub next : ℕ

abbrev or_look : Option ℕ → Option ℕ → Option ℕ
or_look (some n) other = some n
or_look none other = other

abbrev use_pool : TransportKey → Pools → Option ℕ → ℕ × Pools
use_pool key p (some n) = (n, record p { used = insert key n p.used })
use_pool key p none = (p.next, record p { used = insert key p.next p.used; next = p.next + 1 })

unfoldable pub transport : TransportKey → Pools → ℕ × Pools
transport key p = use_pool key p (or_look (lookup key p.used) (lookup key p.previous))

abbrev pub status_or : ℕ → ℤ → ℤ
status_or fallback status = if eqb_ℤ status (pos 0) then pos fallback else status

abbrev status_number : ℤ → ℕ
status_number (pos n) = n
status_number (negsuc n) = 0

unfoldable pub is_between : ℕ → ℕ → ℤ → Bool
is_between low high status = not (ltb_ℤ status (pos low)) && not (ltb_ℤ (pos high) status)

module _ (r : Rates) (web : Web r) where
  pub key_for : Proxy → Bytes → TransportKey
  key_for config socket = record {
    socket = socket;
    insecure_skip_verify = config.insecure_skip_verify;
    dial_timeout = duration_or config.dial_timeout (5 * second);
    response_header_timeout = config.response_header_timeout;
    max_conns = config.max_conns;
  }

  unfoldable pub proxy_handler : Proxy → Pools → HandlerError ⊎ (Handler r × Pools)
  unfolding parse_upstream key_for transport
  proxy_handler config p = elim (parse_upstream web.parse_url config.upstream) [
    | none ↦ inl (invalid_upstream config.upstream)
    | some (target, socket) ↦
        if is_neg config.dial_timeout
          || is_neg config.response_header_timeout
          || is_neg config.max_conns
        then inl negative_proxy_limit
        else let (pool, p') = transport (key_for config socket) p in
          inr (
            web.reverse_proxy (record {
              pool = pool;
              rewriting = rewrite web.set_url config target;
              error_status = proxy_error_status;
            }),
            p',
          )
  ]

  unfoldable pub strip_prefix : Bytes → Handler r → Handler r
  unfolding strip_path_prefix
  strip_prefix prefix next q s = next (record q { url = strip_path_prefix q.url prefix }) s

  unfoldable pub files_handler : Files → HandlerError ⊎ Handler r
  unfolding strip_prefix
  files_handler config =
      if config.root == [] then inl root_required else elim (web.fs.stat_root config.root) [
        | inl err ↦ inl (root_failed err)
        | inr dir ↦
            let h = web.file_server (open_public web.fs config.root config.browse) in
            if not dir
            then inl not_a_directory
            else if config.strip_prefix == []
            then inr h
            else inr (strip_prefix config.strip_prefix h)
      ]

  -- The headers of the configuration, under their canonical names, replace those of the response.
  unfoldable pub copy_headers : Dict Bytes Bytes → Dict Bytes Bytes → Dict Bytes Bytes
  copy_headers [] headers = headers
  copy_headers ((name, value) ∷ more) headers =
      copy_headers more (insert (web.canonical name) value headers)

  unfoldable pub respond_handler : Respond → HandlerError ⊎ Handler r
  unfolding is_between copy_headers
  respond_handler config =
      let status = status_or 200 config.status in
      if not (is_between 200 599 status)
      then inl (invalid_status status)
      else inr (λ q s. record s {
        response = write_header r (status_number status) (record s.response {
          headers = copy_headers config.headers s.response.headers;
          body = s.response.body ++ config.body;
        });
      })

  unfoldable pub redirect_to : (Request → Bytes) → ℕ → Handler r
  redirect_to target status q s = record s {
    response =
        write_header r status
          (record s.response { location = some (web.location_of q (target q)) });
  }

  unfoldable pub redirect_handler : Redirect → HandlerError ⊎ Handler r
  unfolding is_between trim_suffix redirect_to
  redirect_handler config =
      let status = status_or 308 config.status in
      if config.to == []
      then inl target_required
      else if not (is_between 300 399 status)
      then inl (invalid_redirect_status status)
      else if not config.preserve_path
      then inr (redirect_to (λ q. config.to) (status_number status))
      else inr (
          redirect_to (λ q. trim_suffix config.to (str "/") ++ web.request_uri q.url)
            (status_number status))

  abbrev one_if : Bool → ℕ
  one_if set = if set then 1 else 0

  unfoldable pub handler_count : Config.Handler → ℕ
  handler_count config =
      length config.extensions
      + (one_if (is_some config.proxy)
          + (one_if (is_some config.files)
              + (one_if (is_some config.respond) + one_if (is_some config.redirect))))

  abbrev pub extension_handler : Dict Bytes Bytes → HandlerError ⊎ Handler r
  extension_handler [] = inl not_exactly_one
  extension_handler ((name, value) ∷ more) = elim (web.factory name) [
    | none ↦ inl (unknown_extension name)
    | some build ↦ elim (build value) [ inl err ↦ inl (extension_failed name err) | inr h ↦ inr h ]
  ]

  abbrev pub keeping : Pools → HandlerError ⊎ Handler r → HandlerError ⊎ (Handler r × Pools)
  keeping p (inl e) = inl e
  keeping p (inr h) = inr (h, p)

  -- The switch over the fields that are set.
  unfoldable pub chosen_handler : Config.Handler → Pools → HandlerError ⊎ (Handler r × Pools)
  unfolding proxy_handler files_handler respond_handler redirect_handler
  chosen_handler config p = elim (config.proxy) [
    | some proxy ↦ proxy_handler proxy p
    | none ↦ elim (config.files) [
      | some files ↦ keeping p (files_handler files)
      | none ↦ elim (config.respond) [
        | some respond ↦ keeping p (respond_handler respond)
        | none ↦ elim (config.redirect) [
          | some redirect ↦ keeping p (redirect_handler redirect)
          | none ↦ keeping p (extension_handler config.extensions)
        ]
      ]
    ]
  ]

  unfoldable pub handler : Config.Handler → Pools → HandlerError ⊎ (Handler r × Pools)
  unfolding handler_count chosen_handler
  handler config p =
      if handler_count config == 1 then chosen_handler config p else inl not_exactly_one

  -- The first key that is not a registered handler.
  unfoldable pub check_extensions : Dict Bytes Bytes → Option Bytes
  check_extensions [] = none
  check_extensions ((name, value) ∷ more) =
      if is_some (web.factory name) then check_extensions more else some name
