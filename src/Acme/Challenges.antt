-- ===== src/Acme/Challenges.antt =====
-- acme.go, authorize: a challenge is answered only while the CA validates it.
use yabber.Base.{
  ◌≡◌, inl, inr, some, Bytes, bytes_eq, Dict, lookup, insert, delete, lookup-insert, lookup-delete,
  arith, Bool-cases, Option-cases, Sum-cases,
}
use yabber.Acme.{Manager, AcmeClient, find_http01, authorize, challenge}

module _ (client : AcmeClient) where
  removed :
      (token other key answer : Bytes) (tokens : Dict Bytes Bytes)
      → lookup token (delete other (insert other answer tokens)) ≡ some key
      → lookup token tokens ≡ some key
  removed token other key answer tokens h = ground (
    arith,
    lookup-delete other token (insert other answer tokens),
    lookup-insert other token answer tokens,
  )

  -- Whatever the CA answers, authorize leaves no token behind: a token that is answered afterwards
  -- was answered before, with the same key authorization.
  pub challenge-authorize :
      (url token key : Bytes) (m : Manager) (w : client.World)
      → challenge token (authorize client url m w).0.0 ≡ some key
      → challenge token m ≡ some key
  unfolding authorize challenge
  challenge-authorize url token key m w = elim (Sum-cases (client.get_authorization url w).1) [
    | inl (err, e) ↦ rw (e, authorize) (λ h. h)
    | inr (authorization, e) ↦ elim (Bool-cases authorization.valid) [
      | inl v ↦ rw (e, v, authorize) (λ h. h)
      | inr v ↦ elim (Option-cases (find_http01 authorization.challenges)) [
        | inl f ↦ rw (e, v, f, authorize) (λ h. h)
        | inr (c, f) ↦ elim (Sum-cases (client.get_key_authorization c.token)) [
          | inl (err, k) ↦ rw (e, v, f, k, authorize) (λ h. h)
          | inr (answer, k) ↦
              let tokens : Dict Bytes Bytes = insert c.token answer m.tokens in
              elim (Option-cases
                (client.complete_challenge c.url tokens (client.get_authorization url w).0).1) [
                  | inl s ↦
                      rw (e, v, f, k, s, authorize) (removed token c.token key answer m.tokens)
                  | inr (err, s) ↦
                      rw (e, v, f, k, s, authorize) (removed token c.token key answer m.tokens)
                ]
        ]
      ]
    ]
  ]
