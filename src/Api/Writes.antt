-- ===== src/Api/Writes.antt =====
-- What the writes of the API do to the active configuration and to the saved one.
use yabber.Base.{
  ◌≡◌, ◌⊎◌, refl, sym, ap, subst, ◌∙◌, Bool, true, false, Option, none, some, List, Bytes, bytes_eq,
  lookup, any, if◌then◌else◌, leb, arith, Bool-cases, Option-cases, Sum-cases, inl, inr,
}
use yabber.Config.{Config, Site}
use yabber.Server.{
  Network, Server, Snapshot, Failure, UpdateError, Bound, bound_all, not_bound, bound,
}
use yabber.Server.Lifecycle.{update, apply, after_binding}
use yabber.Server.Apply.{setup, apply_rejected, apply_stopped, apply_running}
use yabber.Server.Replacing.{Replaced, Kept-refl, apply-Replaced, apply-Restored}
use yabber.Api.{
  Api, ApiResponse, Options, active, guarded, is_stale, read_json, answer, failure_response,
  add_site, replace_site, drop_site, write_error, applied_of, or_422,
}
use yabber.Api.Failures.{Left, SwitchedTo, Same, Unsaved}
use yabber.Api.Handlers.{change, after_update}

abbrev pub saved_to : Option (Config → Option Bytes) → Option Config → Config → Option Config
saved_to none saved config = saved
saved_to (some save) saved config = some config

module _ (n : Network) (compile : Config → Option Snapshot → Bytes ⊎ Snapshot) where
  -- A snapshot keeps the configuration that it was compiled from.
  abbrev pub Keeps : Type 0
  Keeps =
      (config : Config) (previous : Option Snapshot) (next : Snapshot)
      → compile config previous ≡ inr next
      → next.config ≡ config

  abbrev Updated :
      (Config → UpdateError ⊎ Config)
      → Server n compile
      → Server n compile × Option Failure
      → Type 0
  Updated modify s (s', some f) =
      (setup n compile s' ≡ setup n compile s)
      × (leb 400 (failure_response f).status ≡ true)
      × Left n compile f s s'
  Updated modify s (s', none) =
      (modify s.current.config ≡ inr s'.current.config) × SwitchedTo n compile s s'

  abbrev Applied : Config → Server n compile → Server n compile × Option Failure → Type 0
  Applied config s (s', some f) =
      (setup n compile s' ≡ setup n compile s)
      × (leb 400 (failure_response f).status ≡ true)
      × Left n compile f s s'
  Applied config s (s', none) = (s'.current.config ≡ config) × SwitchedTo n compile s s'

  abbrev Refuses : Server n compile × Option Failure → Type 0
  Refuses (s', none) = Unit
  Refuses (s', some f) = leb 400 (failure_response f).status ≡ true

  after_binding-Refuses :
      (next : Snapshot) (stale : List Bytes) (s : Server n compile) (b : Bound n compile)
      → Refuses (after_binding n compile next stale s b)
  unfolding after_binding failure_response
  after_binding-Refuses next stale s (bound_all w started) = tt
  after_binding-Refuses next stale s (not_bound w started name err) = refl

  apply-Refuses : (config : Config) (s : Server n compile) → Refuses (apply n compile config s)
  apply-Refuses config s = elim (Sum-cases (compile config (some s.current))) [
    | inl (err, c) ↦
        subst Refuses (sym (apply_rejected n compile config s err c))
          (unfold failure_response in refl)
    | inr (next, c) ↦ elim (Bool-cases s.started) [
      | inl on ↦
          subst Refuses (sym (apply_running n compile config s next c on))
            (after_binding-Refuses next _ _ _)
      | inr off ↦ subst Refuses (sym (apply_stopped n compile config s next c off)) tt
    ]
  ]

  apply-Applied :
      Keeps → (config : Config) (s : Server n compile) → Applied config s (apply n compile config s)
  apply-Applied keeps config s = by_error (apply n compile config s).1 refl
    where
      s' : Server n compile
      s' = (apply n compile config s).0

      by_error : (o : Option Failure) → (apply n compile config s).1 ≡ o → Applied config s (s', o)
      by_error (some f) e = (
        (apply-Restored n compile config s s' f (ap (λ o. (s', o)) e)).0,
        subst Refuses (ap (λ o. (s', o)) e) (apply-Refuses config s),
        (apply-Restored n compile config s s' f (ap (λ o. (s', o)) e)).1,
      )
      by_error none e =
          let (next, c, now, flag, loop, off, on) =
            apply-Replaced n compile config s s' (ap (λ o. (s', o)) e) in
          let kept : s'.current.config ≡ config =
            ap (λ snap. snap.config) now ∙ keeps config (some s.current) next c in
          (
            kept,
            (
              ap (λ cfg. compile cfg (some s.current)) kept ∙ c ∙ ap inr (sym now),
              flag,
              loop ∙ ap (λ snap. if s.started then snap.acme else none) (sym now),
              off,
              λ up j.
                  subst
                    (λ snap.
                      Replaced n compile (lookup j (bound snap)) (lookup j s.running)
                        (lookup j s'.running))
                    (sym now) (on up j),
            ),
          )

  -- A modification that fails does so with a client's error.
  abbrev pub Fails400 : (Config → UpdateError ⊎ Config) → Type 0
  Fails400 modify =
      (config : Config) (e : UpdateError) → modify config ≡ inl e → leb 400 (or_422 e.status) ≡ true

  update-Updated :
      Keeps
      → (modify : Config → UpdateError ⊎ Config) (s : Server n compile) → Fails400 modify
      → Updated modify s (update n compile modify s)
  unfolding update
  update-Updated keeps modify s fails = elim (Sum-cases (modify s.current.config)) [
    | inl (err, e) ↦
        rw (e, update)
          (
            refl,
            (unfold failure_response in (fails s.current.config err e)),
            λ j. unfold any in (Kept-refl n compile (lookup j s.running)),
          )
    | inr (config, e) ↦
        rw (e, update)
          (from_apply config e (apply n compile config s) (apply-Applied keeps config s))
  ]
    where
      from_apply :
          (config : Config)
          → modify s.current.config ≡ inr config
          → (result : Server n compile × Option Failure) → Applied config s result
          → Updated modify s result
      from_apply config e (s', some f) h = h
      from_apply config e (s', none) (h, switched) = (e ∙ ap inr (sym h), switched)

  module _ (o : Options) where
    abbrev pub saved_after : Api n compile → Api n compile → Option Config
    saved_after a a' = saved_to o.save a.saved (active n compile a')

    -- What a change did, by its result.
    abbrev pub Changed :
        Bytes
        → (Config → UpdateError ⊎ Config)
        → Api n compile
        → Api n compile × (ApiResponse ⊎ Bytes)
        → Type 0
    Changed if_match modify a (a', inl r) =
        (leb 400 r.status ≡ true)
        × (Same n compile a (a', r) ⊎ Unsaved n compile o if_match a (a', r))
    Changed if_match modify a (a', inr tag) =
        (is_stale if_match (o.etag_of (active n compile a)) ≡ false)
        × (modify (active n compile a) ≡ inr (active n compile a'))
        × (tag ≡ o.etag_of (active n compile a'))
        × (a'.saved ≡ saved_after a a')

    guarded-Fails400 :
        (if_match : Bytes) (modify : Config → UpdateError ⊎ Config)
        → Fails400 modify
        → Fails400 (guarded o if_match modify)
    unfolding guarded
    guarded-Fails400 if_match modify fails config e h =
        elim (Bool-cases (is_stale if_match (o.etag_of config))) [
          | inl stale ↦ ground arith
          | inr fresh ↦ fails config e (sym (rw fresh refl) ∙ h)
        ]

    after_update-Changed :
        (if_match : Bytes) (modify : Config → UpdateError ⊎ Config) (a : Api n compile)
        (result : Server n compile × Option Failure)
        → Updated (guarded o if_match modify) a.server result
        → Changed if_match modify a (
            after_update n compile o
              (applied_of (guarded o if_match modify (active n compile a)) (active n compile a))
              result
              a)
    unfolding after_update
    after_update-Changed if_match modify a (s', some f) (same, refused, left) =
        (refused, inl (same, refl, inr (f, refl, left)))
    after_update-Changed if_match modify a (s', none) (h, switched) = elim (Option-cases o.save) [
      | inl e ↦ rw (e, after_update) (fresh, modified, ap o.etag_of is_applied, refl)
      | inr (save, e) ↦ elim (Option-cases (save applied)) [
        | inl k ↦
            rw (e, k, after_update) (fresh, modified, ap o.etag_of is_applied, ap some is_applied)
        | inr (err, k) ↦
            subst (Changed if_match modify a) (sym (unsaved save err e k)) (
              refl,
              inr (refl, refl, fresh, switched, (save, err, e, ap save (sym is_applied) ∙ k)),
            )
      ]
    ]
      where
        applied : Config
        applied = applied_of (guarded o if_match modify (active n compile a)) (active n compile a)

        unsaved :
            (save : Config → Option Bytes) (err : Bytes)
            → o.save ≡ some save
            → save applied ≡ some err
            → after_update n compile o applied (s', none) a
              ≡ (record a { server = s' }, inl (write_error 500 err))
        unsaved save err e k = unfold after_update in (rw (e, k, after_update) refl)

        is_applied : applied ≡ s'.current.config
        is_applied = rw h refl

        fresh : is_stale if_match (o.etag_of (active n compile a)) ≡ false
        fresh = elim (Bool-cases (is_stale if_match (o.etag_of (active n compile a)))) [
          | inl stale ↦ absurd (unfold guarded in (ground (arith, h)))
          | inr f ↦ f
        ]

        modified : modify (active n compile a) ≡ inr s'.current.config
        modified = unfold guarded in (sym (rw fresh refl) ∙ h)

    pub change-Changed :
        Keeps
        → (if_match : Bytes) (modify : Config → UpdateError ⊎ Config) (a : Api n compile)
        → Fails400 modify
        → Changed if_match modify a (change n compile o if_match modify a)
    unfolding change
    change-Changed keeps if_match modify a fails =
        after_update-Changed if_match modify a
          (update n compile (guarded o if_match modify) a.server)
          (update-Updated keeps (guarded o if_match modify) a.server
            (guarded-Fails400 if_match modify fails))

    -- An error leaves everything as it was, or reports that the change was not saved; a success met
    -- the If-Match, carries the new entity tag and is saved.
    abbrev pub Outcome : Bytes → Api n compile → Api n compile × ApiResponse → Type 0
    Outcome if_match a (a', r) =
        ((leb 400 r.status ≡ true)
          × (Same n compile a (a', r) ⊎ Unsaved n compile o if_match a (a', r)))
        ⊎ ((leb 400 r.status ≡ false)
            × (is_stale if_match (o.etag_of (active n compile a)) ≡ false)
            × (r.etag ≡ some (o.etag_of (active n compile a')))
            × (a'.saved ≡ saved_after a a'))

    pub answer-Outcome :
        (if_match : Bytes) (modify : Config → UpdateError ⊎ Config) (a : Api n compile)
        (done : ApiResponse) (p : Api n compile × (ApiResponse ⊎ Bytes))
        → leb 400 done.status ≡ false
        → Changed if_match modify a p
        → Outcome if_match a (p.0, answer done p.1)
    answer-Outcome if_match modify a done (a', inl r) d (refused, h) = inl (refused, h)
    answer-Outcome if_match modify a done (a', inr tag) d (fresh, modified, tagged, saved) =
        inr (d, fresh, ap some tagged, saved)

    pub unchanged-Outcome :
        (if_match : Bytes) (a : Api n compile) (r : ApiResponse)
        → leb 400 r.status ≡ true
        → Outcome if_match a (a, r)
    unchanged-Outcome if_match a r h = inl (h, inl (refl, refl, inl refl))

pub add_site-Fails400 :
    (site : Site) (config : Config) (e : UpdateError)
    → add_site site config ≡ inl e
    → leb 400 (or_422 e.status) ≡ true
unfolding add_site
add_site-Fails400 site config e h = ground arith

pub replace_site-Fails400 :
    (id : Bytes) (site : Site) (config : Config) (e : UpdateError)
    → replace_site id site config ≡ inl e
    → leb 400 (or_422 e.status) ≡ true
unfolding replace_site
replace_site-Fails400 id site config e h = ground arith

pub drop_site-Fails400 :
    (id : Bytes) (config : Config) (e : UpdateError)
    → drop_site id config ≡ inl e
    → leb 400 (or_422 e.status) ≡ true
unfolding drop_site
drop_site-Fails400 id config e h = ground arith

pub read_json-error :
    {A : Type 0} (body : Option (A × Bool)) (r : ApiResponse)
    → read_json body ≡ inl r
    → leb 400 r.status ≡ true
unfolding read_json
read_json-error none r h = ground arith
read_json-error (some (value, more)) r h = ground arith

module _ (n : Network) (compile : Config → Option Snapshot → Bytes ⊎ Snapshot) (o : Options) where
  abbrev pub Modified :
      (Config → UpdateError ⊎ Config) → Api n compile → Api n compile × ApiResponse → Type 0
  Modified modify a (a', r) =
      leb 400 r.status ≡ false → modify (active n compile a) ≡ inr (active n compile a')

  pub answer-Modified :
      (if_match : Bytes) (modify : Config → UpdateError ⊎ Config) (a : Api n compile)
      (done : ApiResponse) (p : Api n compile × (ApiResponse ⊎ Bytes))
      → Changed n compile o if_match modify a p
      → Modified modify a (p.0, answer done p.1)
  answer-Modified if_match modify a done (a', inl r) (refused, h) = λ ok. absurd (ground arith)
  answer-Modified if_match modify a done (a', inr tag) (fresh, modified, tagged, saved) =
      λ ok. modified
