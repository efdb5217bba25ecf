-- ===== src/Acme/Maintain.antt =====
-- acme.go, maintain: which hosts the CA is asked about, and how long the loop sleeps.
use yabber.Base.{
  ℕ, ◌+◌, ◌≤◌, ◌<◌, ◌≡◌, sym, subst, ◌∙◌, ltb, ltb→lt, lt→ltb, ltb→le, ◌⊎◌, inl, inr, refl, false,
  some, List, [], ◌∷◌, Bytes, bytes_eq, arith, Bool-cases, Option-cases, Sum-cases,
}
use yabber.Acme.{
  Manager, Leaf, Ca, earliest, waits_until, maintain_hosts, maintain, acme_check_interval,
  record_failure, renew_at, after_success, certificate, retry_at,
}

module _ (ca : Ca)
    (obtain : Bytes → Manager → ca.World → (Manager × ca.World) × (Bytes ⊎ Leaf)) where
  earliest≤left : (a b : ℕ) → earliest a b ≤ a
  unfolding earliest
  earliest≤left a b = ground arith

  maintain_hosts≤next :
      (now : ℕ) (hosts : List Bytes) (next : ℕ) (m : Manager) (w : ca.World)
      → (maintain_hosts ca obtain now hosts next m w).1 ≤ next
  unfolding maintain_hosts
  maintain_hosts≤next now [] next m w = omega arith
  maintain_hosts≤next now (host ∷ hosts) next m w = elim (Bool-cases (ca.done w)) [
    | inl d ↦ rw (d, maintain_hosts) (omega arith)
    | inr d ↦ elim (Option-cases (waits_until now host m)) [
      | inr (t, e) ↦
          rw (d, e, maintain_hosts)
            (omega
              (arith, maintain_hosts≤next now hosts (earliest next t) m w, earliest≤left next t))
      | inl e ↦
          let m' : Manager = (obtain host m w).0.0 in
          let w' : ca.World = (obtain host m w).0.1 in
          elim (Sum-cases (obtain host m w).1) [
            | inl (err, o) ↦ elim (Bool-cases (ca.done w')) [
              | inl d' ↦ rw (d, e, o, d', maintain_hosts) (omega arith)
              | inr d' ↦
                  let retry : Manager × ℕ = record_failure host err (ca.now w') m' in
                  rw (d, e, o, d', maintain_hosts)
                    (omega (
                      arith,
                      maintain_hosts≤next now hosts (earliest next retry.1) retry.0 w',
                      earliest≤left next retry.1,
                    ))
            ]
            | inr (leaf, o) ↦
                rw (d, e, o, maintain_hosts)
                  (omega (
                    arith,
                    maintain_hosts≤next now hosts (earliest next (renew_at leaf))
                        (after_success ca obtain host leaf m') w',
                    earliest≤left next (renew_at leaf),
                  ))
          ]
    ]
  ]

  -- Whatever obtain does, the loop sleeps at most twelve hours from the time that maintain read.
  pub maintain≤interval :
      (m : Manager) (w : ca.World) → (maintain ca obtain m w).1 ≤ ca.now w + acme_check_interval
  unfolding maintain
  maintain≤interval m w =
      maintain_hosts≤next (ca.now w) m.hosts (ca.now w + acme_check_interval) m w

  -- The host has a certificate that is not to be renewed yet, or its last failure is too recent.
  abbrev pub NotDue : ℕ → Manager → Bytes → Type 0
  NotDue now m host =
      ((leaf : Leaf) × (certificate host m ≡ some leaf) × (now < renew_at leaf))
      ⊎ (now < retry_at host m)

  -- The time of a host's renewal or, where it has none to wait for, of its retry.
  abbrev pub Waits : ℕ → Manager → Bytes → ℕ → Type 0
  Waits now m host t =
      ((leaf : Leaf) × (certificate host m ≡ some leaf)
        × (now < renew_at leaf)
        × (t ≡ renew_at leaf))
      ⊎ ((now < retry_at host m)
          × (t ≡ retry_at host m)
          × ((leaf : Leaf) → certificate host m ≡ some leaf → renew_at leaf ≤ now))

  abbrev pub Listed : Bytes → List Bytes → Type 0
  Listed host [] = ⊥
  Listed host (h ∷ hosts) = (h ≡ host) ⊎ Listed host hosts

  -- A host that is not due is waited for.
  NotDue-Waits :
      (now : ℕ) (m : Manager) (host : Bytes)
      → NotDue now m host
      → (t : ℕ) × (waits_until now host m ≡ some t) × Waits now m host t
  unfolding waits_until
  NotDue-Waits now m host due = elim (Option-cases (certificate host m)) [
    | inl none_yet ↦ elim due [
      | inl (leaf, e, later) ↦ absurd (ground arith)
      | inr later ↦ (
        retry_at host m,
        rw (none_yet, lt→ltb _ _ later, waits_until) refl,
        inr (later, refl, λ leaf e. absurd (ground arith)),
      )
    ]
    | inr (leaf, e) ↦ elim (Bool-cases (ltb now (renew_at leaf))) [
      | inl fresh ↦
          (renew_at leaf, rw (e, fresh, waits_until) refl, inl (leaf, e, ltb→lt _ _ fresh, refl))
      | inr old ↦ elim due [
        | inl (leaf', e', later) ↦ absurd (ground (arith, ltb→le now (renew_at leaf) old))
        | inr later ↦ (
          retry_at host m,
          rw (e, old, lt→ltb _ _ later, waits_until) refl,
          inr (later, refl, λ leaf' e'. ground (arith, ltb→le now (renew_at leaf) old)),
        )
      ]
    ]
  ]

  earliest-either : (a b : ℕ) → (earliest a b ≡ a) ⊎ (earliest a b ≡ b)
  unfolding earliest
  earliest-either a b = elim (Bool-cases (ltb b a)) [
    | inl e ↦ inr (ground arith)
    | inr e ↦ inl (ground arith)
  ]

  earliest≤right : (a b : ℕ) → earliest a b ≤ b
  unfolding earliest
  earliest≤right a b = elim (Bool-cases (ltb b a)) [
    | inl e ↦ ground arith
    | inr e ↦ ground (arith, ltb→le b a e)
  ]

  -- The loop over hosts that are not due, from the time found so far.
  abbrev Sleeps : ℕ → List Bytes → Manager → ℕ → ℕ → Type 0
  Sleeps now hosts m next t =
      (t ≤ next)
      × ((host : Bytes) → Listed host hosts → (u : ℕ) × Waits now m host u × (t ≤ u))
      × ((t ≡ next) ⊎ ((host : Bytes) × Listed host hosts × Waits now m host t))

  maintain_hosts-Sleeps :
      (now : ℕ) (hosts : List Bytes) (next : ℕ) (m : Manager) (w : ca.World)
      → ca.done w ≡ false
      → ((host : Bytes) → Listed host hosts → NotDue now m host)
      → (t : ℕ) × (maintain_hosts ca obtain now hosts next m w ≡ ((m, w), t))
        × Sleeps now hosts m next t
  unfolding maintain_hosts
  maintain_hosts-Sleeps now [] next m w on h =
      (next, refl, (omega arith, (λ host l. absurd l), inl refl))
  maintain_hosts-Sleeps now (host ∷ hosts) next m w on h =
      let (u, e, waits) = NotDue-Waits now m host (h host (inl refl)) in
      let (t, run, (below, all, attained)) =
        maintain_hosts-Sleeps now hosts (earliest next u) m w on (λ k l. h k (inr l)) in
      (
        t,
        rw (on, e, maintain_hosts) run,
        (
          omega (arith, earliest≤left next u),
          (λ k l. elim l [
            | inl same ↦
                subst (λ k'. (v : ℕ) × Waits now m k' v × (t ≤ v)) same
                  (u, waits, omega (arith, earliest≤right next u))
            | inr l' ↦ all k l'
          ]),
          elim attained [
            | inr (k, l, wk) ↦ inr (k, inr l, wk)
            | inl same ↦ elim (earliest-either next u) [
              | inl first ↦ inl (same ∙ first)
              | inr second ↦
                  inr (host, inl refl, subst (Waits now m host) (sym (same ∙ second)) waits)
            ]
          ],
        ),
      )

  -- While the context is open and each managed host has a certificate not yet to be renewed or a
  -- failure too recent for a retry, maintain asks the CA about none: the manager and the world stay
  -- as they are. The loop then sleeps until a time t that is at most twelve hours away and no later
  -- than what any of the hosts waits for, its renewal or else its retry; and t is one of these.
  pub maintain-NotDue :
      (m : Manager) (w : ca.World)
      → ca.done w ≡ false
      → ((host : Bytes) → Listed host m.hosts → NotDue (ca.now w) m host)
      → (t : ℕ) × (maintain ca obtain m w ≡ ((m, w), t))
        × (t ≤ ca.now w + acme_check_interval)
        × ((host : Bytes) → Listed host m.hosts → (u : ℕ) × Waits (ca.now w) m host u × (t ≤ u))
        × ((t ≡ ca.now w + acme_check_interval)
            ⊎ ((host : Bytes) × Listed host m.hosts × Waits (ca.now w) m host t))
  unfolding maintain
  maintain-NotDue m w on h =
      let (t, run, (below, all, attained)) =
        maintain_hosts-Sleeps (ca.now w) m.hosts (ca.now w + acme_check_interval) m w on h in
      (t, run, below, all, attained)
