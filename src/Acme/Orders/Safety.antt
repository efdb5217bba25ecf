-- ===== src/Acme/Orders/Safety.antt =====
-- What is left of an order, whatever the CA and the disk do.
use yabber.Base.{
  ℕ, ◌≡◌, ◌≢◌, refl, Bool, false, if◌then◌else◌, Option, none, some, List, [], ◌∷◌, ◌⊎◌, inl, inr,
  Bytes, str, bytes_eq, ◌==◌, lookup, Bool-cases,
}
use yabber.Config.{AcmeConfig}
use yabber.Disk.{Files}
use yabber.Disk.Atomic.{fresh}
use yabber.Disk.Steps.{Always, write_file_atomic-Always}
use yabber.Acme.{Manager, challenge}
use yabber.Acme.Challenges.{challenge-authorize}
use yabber.Acme.Orders.{
  OrderClient, Order, Problem, Paths, State, Run, Done, continue, ◌>>=◌, done, fail, call,
  call_done, pure_call, account_gone, write_to, configured_account, ensure_account, replace_account,
  retry_order, start_order, authorize_all, one_authorization, finalized, obtain,
}

module _ (o : OrderClient) (config : AcmeConfig) (paths : Paths) (torn : Bytes → Bytes)
    (start : State o) where
  -- No challenge is answered that was not answered before, and the account file is what it was.
  pub record Harmless (s : State o) : Type 0 where
    pub tokens :
        (token key : Bytes)
        → challenge token s.manager ≡ some key
        → challenge token start.manager ≡ some key
    pub account : Always (λ f. f ≡ lookup paths.account start.disk.files) paths.account s.disk

  abbrev Keeps {ℓ} : {A : Type ℓ} → Run o A → Type 0
  Keeps m = (s : State o) → Harmless s → Harmless (m s).0

  continue-Harmless {ℓ κ} :
      {A : Type ℓ} {B : Type κ} (f : A → Run o B) (p : State o × (Bytes ⊎ A))
      → ((a : A) → Keeps (f a))
      → Harmless p.0
      → Harmless (continue o f p).0
  continue-Harmless f (s, inl e) k h = h
  continue-Harmless f (s, inr a) k h = k a s h

  bind-Keeps {ℓ κ} :
      {A : Type ℓ} {B : Type κ} (m : Run o A) (f : A → Run o B)
      → Keeps m
      → ((a : A) → Keeps (f a))
      → Keeps (◌>>=◌ o m f)
  unfolding ◌>>=◌
  bind-Keeps m f km kf s h = continue-Harmless f (m s) kf (km s h)

  done-Keeps : Keeps (done o)
  done-Keeps s h = h

  fail-Keeps {ℓ} : (A : Type ℓ) (e : Bytes) → Keeps (fail o {A = A} e)
  unfolding fail
  fail-Keeps A e s h = h

  in_world : (s : State o) (w : o.client.World) → Harmless s → Harmless (record s { world = w })
  in_world s w h = record { tokens = h.tokens; account = h.account }

  call-Keeps {ℓ} :
      {A : Type ℓ} (f : o.client.World → o.client.World × (Bytes ⊎ A)) → Keeps (call o f)
  unfolding call
  call-Keeps f s h = in_world s (f s.world).0 h

  call_done-Keeps : (f : o.client.World → o.client.World × Option Bytes) → Keeps (call_done o f)
  unfolding call_done
  call_done-Keeps f s h = in_world s (f s.world).0 h

  pure_call-Keeps {ℓ} : {A : Type ℓ} (result : Bytes ⊎ A) → Keeps (pure_call o result)
  unfolding pure_call
  pure_call-Keeps result s h = h

  write_to-Keeps :
      (path text : Bytes) (mode : ℕ)
      → paths.temp path ≢ paths.account
      → path ≢ paths.account
      → Keeps (write_to o config paths torn path text mode)
  unfolding write_to
  write_to-Keeps path text mode ne ne' s h = record {
    tokens = h.tokens;
    account =
        write_file_atomic-Always _ paths.account torn (paths.temp path) path text mode s.disk ne ne'
          h.account;
  }

  one_authorization-Keeps : (url : Bytes) → Keeps (one_authorization o config paths torn url)
  unfolding one_authorization
  one_authorization-Keeps url s h = record {
    tokens = λ token key known.
        h.tokens token key (challenge-authorize o.client url token key s.manager s.world known);
    account = h.account;
  }

  authorize_all-Keeps : (urls : List Bytes) → Keeps (authorize_all o config paths torn urls)
  unfolding authorize_all
  authorize_all-Keeps [] = done-Keeps
  authorize_all-Keeps (url ∷ urls) =
      bind-Keeps _ _ (one_authorization-Keeps url) (λ _. authorize_all-Keeps urls)

  finalized-Keeps :
      (host url key : Bytes) (order : Order)
      → Keeps (finalized o config paths torn host url key order)
  unfolding finalized
  finalized-Keeps host url key order = elim (Bool-cases order.valid) [
    | inl v ↦ rw v (pure_call-Keeps (inr order))
    | inr v ↦ rw v (
        bind-Keeps _ _ (pure_call-Keeps (o.request_for key host)) (λ csr.
          bind-Keeps _ _ (call_done-Keeps (o.finalize_order order.finalize csr))
            (λ _. bind-Keeps _ _ (call-Keeps (o.wait_order url)) (λ order'. checked order'))))
  ]
    where
      checked :
          (order' : Order)
          → Keeps
              (if order'.valid then pure_call o (inr order') else fail o (str "order is not valid"))
      checked order' = elim (Bool-cases order'.valid) [
        | inl v ↦ rw v (pure_call-Keeps (inr order'))
        | inr v ↦ rw v (fail-Keeps Order (str "order is not valid"))
      ]

  module _ (configured : (config.account_key == []) ≡ false) where
    configured_account-Keeps : Keeps (configured_account o config paths torn)
    configured_account-Keeps = elim (Bool-cases (config.account_url == [])) [
      | inl u ↦ rw u (bind-Keeps _ _ (call-Keeps (o.register [])) (λ _. done-Keeps))
      | inr u ↦ rw u (call_done-Keeps (λ w. (o.set_account_url config.account_url w, none)))
    ]

    ensure_account-Keeps : Keeps (ensure_account o config paths torn)
    unfolding ensure_account
    ensure_account-Keeps s h = elim (Bool-cases (o.account_url s.world == [])) [
      | inr u ↦ rw u h
      | inl u ↦ rw (u, configured) (configured_account-Keeps s h)
    ]

    replace_account-Keeps : (p : Problem) → Keeps (replace_account o config paths torn p)
    unfolding replace_account
    replace_account-Keeps p = rw configured (fail-Keeps (Done o) p.text)

    retry_order-Keeps :
        (host : Bytes) (result : Problem ⊎ (Bytes × Order))
        → Keeps (retry_order o config paths torn host result)
    retry_order-Keeps host (inr created) = pure_call-Keeps (inr created)
    retry_order-Keeps host (inl p) = elim (Bool-cases (account_gone o p)) [
      | inl g ↦ rw g (bind-Keeps _ _ (replace_account-Keeps p) (λ _. call-Keeps _))
      | inr g ↦ rw g (fail-Keeps (Bytes × Order) p.text)
    ]

    start_order-Keeps : (host : Bytes) → Keeps (start_order o config paths torn host)
    unfolding start_order
    start_order-Keeps host s h =
        retry_order-Keeps host (o.create_order host s.world).1 _
          (in_world s (o.create_order host s.world).0 h)

    obtain-Keeps :
        (host : Bytes)
        → paths.temp (paths.key host) ≢ paths.account
        → paths.key host ≢ paths.account
        → paths.temp (paths.cert host) ≢ paths.account
        → paths.cert host ≢ paths.account
        → Keeps (obtain o config paths torn host)
    unfolding obtain
    obtain-Keeps host a b c d = bind-Keeps _ _ ensure_account-Keeps (λ _.
        bind-Keeps _ _ (start_order-Keeps host) (λ created.
          bind-Keeps _ _ (authorize_all-Keeps created.1.authorizations) (λ _.
            bind-Keeps _ _ (call-Keeps (o.wait_order created.0)) (λ order.
              bind-Keeps _ _ (call-Keeps o.new_key) (λ key.
                bind-Keeps _ _ (finalized-Keeps host created.0 key order) (λ ready.
                  bind-Keeps _ _ (call-Keeps (o.get_certificate ready.certificate)) (λ chain.
                    bind-Keeps _ _ (pure_call-Keeps (o.key_pair chain key)) (λ leaf.
                      bind-Keeps _ _ (write_to-Keeps (paths.key host) key 384 a b) (λ _.
                        bind-Keeps _ _ (write_to-Keeps (paths.cert host) chain 420 c d)
                          (λ _. pure_call-Keeps (inr leaf)))))))))))

-- With a configured account key, whatever the CA and the disk do during an order: a token that is
-- answered afterwards was answered before, with the same key authorization, and the file of the generated
-- account is at every moment what it was, so a rejected account is not replaced. The files of the
-- host, and the temporary files, are other files.
pub obtain-Harmless :
    (o : OrderClient) (config : AcmeConfig) (paths : Paths) (torn : Bytes → Bytes) (m : Manager)
    (w : o.client.World) (files : Files) (faults : List Bool) (host : Bytes)
    → (config.account_key == []) ≡ false
    → paths.temp (paths.key host) ≢ paths.account
    → paths.key host ≢ paths.account
    → paths.temp (paths.cert host) ≢ paths.account
    → paths.cert host ≢ paths.account
    → Harmless o config paths torn
        (record { manager = m; world = w; disk = fresh files faults })
        (obtain o config paths torn host
          (record { manager = m; world = w; disk = fresh files faults })).0
obtain-Harmless o config paths torn m w files faults host configured a b c d =
    obtain-Keeps o config paths torn (record { manager = m; world = w; disk = fresh files faults })
      configured host a b c d (record { manager = m; world = w; disk = fresh files faults })
      (record { tokens = λ token key h. h; account = record { now = refl; seen = tt } })
