-- ===== src/Acme/Orders.antt =====
-- acme.go: the account, and the order of a certificate. A step of the manager goes from its state, the
-- files and the world of the ACME client to new ones, and ends in an error or a value; the calls of
-- the client, of crypto and of the encoders are a parameter. Messages of the log, and the prefixes
-- of errors, are left out, and so is the making of directories.
pub mod Safety
pub mod Tests
use yabber.Base.{
  ℕ, Bool, true, false, not, ◌&&◌, ◌||◌, if◌then◌else◌, Option, none, some, List, [], ◌∷◌, ◌++◌,
  ◌⊎◌, inl, inr, Bytes, str, bytes_eq, ◌==◌, Dict, lookup, to_lower,
}
use yabber.Config.{AcmeConfig}
use yabber.Disk.{Disk, File, after, fails, rename, write_file_atomic}
use yabber.Acme.{Manager, AcmeClient, Leaf, authorize}

pub record Order : Type 0 where
  pub valid : Bool
  pub authorizations : List Bytes
  pub finalize : Bytes
  pub certificate : Bytes

-- An error of the client, with what the CA says if it comes from there.
pub record Problem : Type 0 where
  pub text : Bytes
  pub kind : Bytes
  pub detail : Bytes

pub record OrderClient : Type 1 where
  pub client : AcmeClient
  pub account_url : client.World → Bytes
  pub set_account_url : Bytes → client.World → client.World
  -- Registering gives the URL of the account.
  pub register : List Bytes → client.World → client.World × (Bytes ⊎ Bytes)
  pub import_key : Bytes → client.World → client.World × Option Bytes
  pub generate_key : client.World → client.World × Option Bytes
  pub export_key : client.World → Bytes ⊎ Bytes
  pub create_order : Bytes → client.World → client.World × (Problem ⊎ (Bytes × Order))
  pub wait_order : Bytes → client.World → client.World × (Bytes ⊎ Order)
  pub finalize_order : Bytes → Bytes → client.World → client.World × Option Bytes
  pub get_certificate : Bytes → client.World → client.World × (Bytes ⊎ Bytes)
  -- A fresh key in PEM, a request for a host, and the pair that is parsed to its leaf.
  pub new_key : client.World → client.World × (Bytes ⊎ Bytes)
  pub request_for : Bytes → Bytes → Bytes ⊎ Bytes
  pub key_pair : Bytes → Bytes → Bytes ⊎ Leaf
  -- The URL and the key of an account, as JSON.
  pub decode_account : Bytes → Bytes ⊎ (Bytes × Bytes)
  pub encode_account : Bytes → Bytes → Bytes
  pub archive_suffix : client.World → Bytes
  -- strings.Contains
  pub contains : Bytes → Bytes → Bool

-- The paths of a manager, and the temporary file of a path.
pub record Paths : Type 0 where
  pub account : Bytes
  pub cert : Bytes → Bytes
  pub key : Bytes → Bytes
  pub temp : Bytes → Bytes

module _ (o : OrderClient) where
  open o use {client}

  pub record State : Type 0 where
    pub manager : Manager
    pub world : client.World
    pub disk : Disk

  abbrev pub Run {ℓ} : Type ℓ → Type ℓ
  Run A = State → State × (Bytes ⊎ A)

  abbrev pub Done : Type 0
  Done = Unit

  abbrev pub continue {ℓ κ} :
      {A : Type ℓ} {B : Type κ} → (A → Run B) → State × (Bytes ⊎ A) → State × (Bytes ⊎ B)
  continue f (s, inl e) = (s, inl e)
  continue f (s, inr a) = f a s

  infixl 5 ◌>>=◌
  unfoldable pub ◌>>=◌ {ℓ κ} : {A : Type ℓ} {B : Type κ} → Run A → (A → Run B) → Run B
  (m >>= f) s = continue f (m s)

  abbrev pub done : Run Done
  done s = (s, inr tt)

  unfoldable pub fail {ℓ} : {A : Type ℓ} → Bytes → Run A
  fail e s = (s, inl e)

  abbrev pub or_done : Option Bytes → Bytes ⊎ Done
  or_done none = inr tt
  or_done (some e) = inl e

  -- A call of the client.
  unfoldable pub call {ℓ} : {A : Type ℓ} → (client.World → client.World × (Bytes ⊎ A)) → Run A
  call f s = let (w, result) = f s.world in (record s { world = w }, result)

  unfoldable pub call_done : (client.World → client.World × Option Bytes) → Run Done
  call_done f s = let (w, result) = f s.world in (record s { world = w }, or_done result)

  unfoldable pub pure_call {ℓ} : {A : Type ℓ} → Bytes ⊎ A → Run A
  pure_call result s = (s, result)

  -- accountGone: the CA no longer accepts the account.
  unfoldable pub account_gone : Problem → Bool
  unfolding to_lower
  account_gone p =
      if p.kind == str "urn:ietf:params:acme:error:accountDoesNotExist"
      then true
      else if p.kind == str "urn:ietf:params:acme:error:unauthorized"
      then o.contains (to_lower p.detail) (str "account")
      else false

  abbrev pub text_of {ℓ} : {A : Type ℓ} → Problem ⊎ A → Bytes ⊎ A
  text_of (inl p) = inl p.text
  text_of (inr a) = inr a

  abbrev contact_for : Bytes → List Bytes
  contact_for email = if email == [] then [] else (str "mailto:" ++ email) ∷ []

  module _ (config : AcmeConfig) (paths : Paths) (torn : Bytes → Bytes) where
    unfoldable pub write_to : Bytes → Bytes → ℕ → Run Done
    unfolding write_file_atomic
    write_to path text mode s =
        let (d, bad) = write_file_atomic torn (paths.temp path) path text mode s.disk in
        (record s { disk = d }, if bad then inl (str "write") else inr tt)

    -- The stored account: its text, or `none` if the file does not exist.
    unfoldable pub read_account : Run (Option Bytes)
    read_account s = (
      record s { disk = after s.disk.files s.disk },
      if fails s.disk
          then inl (str "read")
          else inr (content_of (lookup paths.account s.disk.files)),
    )
      where
        content_of : Option File → Option Bytes
        content_of none = none
        content_of (some f) = some f.content

    unfoldable pub new_account : Run Done
    unfolding call_done call write_to
    new_account = do
      _ ← call_done o.generate_key
      url ← call (o.register (contact_for config.email))
      key ← call (λ w. (w, o.export_key w))
      write_to paths.account (o.encode_account url key) 384

    abbrev load_account : Bytes → Run Done
    load_account text = do
      account ← pure_call (o.decode_account text)
      _ ← call_done (o.import_key account.1)
      call_done (λ w. (o.set_account_url account.0 w, none))

    abbrev load_or_new : Option Bytes → Run Done
    load_or_new none = new_account
    load_or_new (some text) = load_account text

    abbrev pub configured_account : Run Done
    configured_account =
        if config.account_url == []
        then (call (o.register []) >>= λ _. done)
        else call_done (λ w. (o.set_account_url config.account_url w, none))

    unfoldable pub ensure_account : Run Done
    unfolding call_done call read_account new_account pure_call
    ensure_account s =
        if not (o.account_url s.world == [])
        then done s
        else if not (config.account_key == [])
        then configured_account s
        else (read_account >>= load_or_new) s

    -- A rename of a file that does not exist is no error.
    unfoldable pub archive : Run Done
    unfolding rename
    archive s =
        let (d, bad) =
          rename paths.account (paths.account ++ (str ".invalid-" ++ o.archive_suffix s.world))
            s.disk in
        (
          record s { disk = d },
          if bad && has_account (lookup paths.account s.disk.files)
              then inl (str "rename")
              else inr tt,
        )
      where
        has_account : Option File → Bool
        has_account none = false
        has_account (some f) = true

    unfoldable pub replace_account : Problem → Run Done
    unfolding fail archive ensure_account call_done
    replace_account cause =
        if not (config.account_key == [])
        then fail cause.text
        else do _ ← archive; _ ← call_done (λ w. (o.set_account_url [] w, none)); ensure_account

    abbrev pub retry_order : Bytes → Problem ⊎ (Bytes × Order) → Run (Bytes × Order)
    retry_order host (inr created) = pure_call (inr created)
    retry_order host (inl p) =
        if account_gone p
        then (do
          _ ← replace_account p
          call (λ w. let (w', result) = o.create_order host w in (w', text_of result)))
        else fail p.text

    unfoldable pub start_order : Bytes → Run (Bytes × Order)
    unfolding replace_account pure_call call fail account_gone
    start_order host s =
        let (w, result) = o.create_order host s.world in
        retry_order host result (record s { world = w })

    unfoldable pub one_authorization : Bytes → Run Done
    unfolding authorize
    one_authorization url s =
        let ((m, w), result) = authorize client url s.manager s.world in
        (record s { manager = m; world = w }, or_done result)

    unfoldable pub authorize_all : List Bytes → Run Done
    unfolding one_authorization
    authorize_all [] = done
    authorize_all (url ∷ urls) = one_authorization url >>= λ _. authorize_all urls

    -- An order that is not valid yet is finalized.
    unfoldable pub finalized : Bytes → Bytes → Bytes → Order → Run Order
    unfolding pure_call call_done call fail
    finalized host url key order = if order.valid then pure_call (inr order) else do
      csr ← pure_call (o.request_for key host)
      _ ← call_done (o.finalize_order order.finalize csr)
      order' ← call (o.wait_order url)
      if order'.valid then pure_call (inr order') else fail (str "order is not valid")

    unfoldable pub obtain : Bytes → Run Leaf
    unfolding ensure_account start_order authorize_all finalized write_to call pure_call
    obtain host = do
      _ ← ensure_account
      created ← start_order host
      _ ← authorize_all created.1.authorizations
      order ← call (o.wait_order created.0)
      key ← call o.new_key
      ready ← finalized host created.0 key order
      chain ← call (o.get_certificate ready.certificate)
      leaf ← pure_call (o.key_pair chain key)
      _ ← write_to (paths.key host) key 384
      _ ← write_to (paths.cert host) chain 420
      pure_call (inr leaf)
