-- ===== src/RateLimit/Elements.antt =====
-- The list of clients with its pointers, against the map of clients and against the list of clients
-- without pointers.
use yabber.Base.{
  ℕ, suc, ◌+◌, ◌≡◌, refl, ap, true, if◌then◌else◌, Option, none, some, List, [], ◌∷◌, ◌++◌, length,
  ltb, eqb, Bytes, bytes_eq, ◌==◌, ==_iff, ==_refl, Dict, lookup, delete, lookup-delete, arith,
  Bool-cases, inl, inr, is_some,
}
use yabber.RateLimit.{Rates, RateClient, find_element, remove_element}

module _ (r : Rates) where
  abbrev pub Entries : Type 0
  Entries = List (ℕ × RateClient r)

  -- The pointer of the client with a key.
  unfoldable pub find_key : Bytes → Entries → Option ℕ
  find_key k [] = none
  find_key k ((p, c) ∷ es) = if c.key == k then some p else find_key k es

  -- No key and no pointer stands twice.
  abbrev pub Distinct : Entries → Type 0
  Distinct [] = Unit {0}
  Distinct ((p, c) ∷ es) = (find_key c.key es ≡ none) × (find_element r p es ≡ none) × Distinct es

  -- The map leads from each key to the element that holds its client.
  abbrev pub Agrees : Dict Bytes ℕ → Entries → Type 0
  Agrees m es = (k : Bytes) → lookup k m ≡ find_key k es

  unfoldable pub clients : Entries → List (RateClient r)
  clients [] = []
  clients ((p, c) ∷ es) = c ∷ clients es

  unfoldable pub find_client : Bytes → List (RateClient r) → Option (RateClient r)
  find_client k [] = none
  find_client k (c ∷ cs) = if c.key == k then some c else find_client k cs

  unfoldable pub remove_client : Bytes → List (RateClient r) → List (RateClient r)
  remove_client k [] = []
  remove_client k (c ∷ cs) = if c.key == k then cs else c ∷ remove_client k cs

  -- The clients behind the idle ones at the old end.
  unfoldable pub drop_idle : ℕ → ℕ → List (RateClient r) → List (RateClient r)
  drop_idle now idle [] = []
  drop_idle now idle (c ∷ cs) = if ltb now (c.seen + idle) then c ∷ cs else drop_idle now idle cs

  pub Agrees-tail :
      (m : Dict Bytes ℕ) (p : ℕ) (c : RateClient r) (es : Entries)
      → Agrees m ((p, c) ∷ es)
      → find_key c.key es ≡ none
      → Agrees (delete c.key m) es
  unfolding find_key
  Agrees-tail m p c es a n k = ground (arith, lookup-delete c.key k m, a k, ==_iff c.key k)

  pub length-clients : (es : Entries) → length (clients es) ≡ length es
  unfolding clients
  length-clients [] = refl
  length-clients ((p, c) ∷ es) = ap suc (length-clients es)

  pub clients-append : (es fs : Entries) → clients (es ++ fs) ≡ clients es ++ clients fs
  unfolding clients
  clients-append [] fs = refl
  clients-append ((p, c) ∷ es) fs = ap (◌∷◌ c) (clients-append es fs)

  pub find_key-append :
      (k : Bytes) (es : Entries) (p : ℕ) (c : RateClient r)
      → find_key k es ≡ none
      → find_key k (es ++ (p, c) ∷ []) ≡ (if c.key == k then some p else none)
  unfolding find_key
  find_key-append k [] p c h = refl
  find_key-append k ((q, d) ∷ es) p c h = ground (arith, find_key-append k es p c)

  abbrev pub or_found : Option ℕ → Option ℕ → Option ℕ
  or_found none o = o
  or_found (some p) o = some p

  pub find_key-append_or :
      (k : Bytes) (es : Entries) (p : ℕ) (c : RateClient r)
      → find_key k (es ++ (p, c) ∷ [])
        ≡ or_found (find_key k es) (if c.key == k then some p else none)
  unfolding find_key
  find_key-append_or k [] p c = refl
  find_key-append_or k ((q, d) ∷ es) p c = ground (arith, find_key-append_or k es p c)

  pub find_element-append :
      (q : ℕ) (es : Entries) (p : ℕ) (c : RateClient r)
      → find_element r q es ≡ none
      → find_element r q (es ++ (p, c) ∷ []) ≡ (if eqb p q then some c else none)
  unfolding find_element
  find_element-append q [] p c h = refl
  find_element-append q ((o, d) ∷ es) p c h = ground (arith, find_element-append q es p c)

  pub Distinct-append :
      (es : Entries) (p : ℕ) (c : RateClient r)
      → Distinct es
      → find_key c.key es ≡ none
      → find_element r p es ≡ none
      → Distinct (es ++ (p, c) ∷ [])
  unfolding find_key find_element
  Distinct-append [] p c d k e = (refl, refl, tt)
  Distinct-append ((q, b) ∷ es) p c d k e = ground (
    arith,
    Distinct-append es p c d.2,
    find_key-append b.key es p c,
    find_element-append q es p c,
    ==_iff c.key b.key,
    ==_iff b.key c.key,
  )

  pub find_key_of_element :
      (p : ℕ) (es : Entries) (c : RateClient r)
      → find_element r p es ≡ some c
      → is_some (find_key c.key es) ≡ true
  unfolding find_key find_element
  find_key_of_element p [] c h = cc
  find_key_of_element p ((q, b) ∷ es) c h =
      ground (arith, find_key_of_element p es c, ==_refl c.key, ==_iff b.key c.key)

  -- An element is removed with its key and its pointer.
  pub find_key-remove :
      (j : Bytes) (es : Entries) (p : ℕ) (c : RateClient r)
      → Distinct es
      → find_element r p es ≡ some c
      → find_key j (remove_element r p es) ≡ (if c.key == j then none else find_key j es)
  unfolding find_key find_element remove_element
  find_key-remove j [] p c d h = cc
  find_key-remove j ((q, b) ∷ es) p c d h = ground (
    arith,
    find_key-remove j es p c d.2,
    find_key_of_element p es c,
    ==_iff c.key j,
    ==_iff b.key j,
  )

  pub find_element-remove :
      (q p : ℕ) (es : Entries)
      → find_element r q es ≡ none
      → find_element r q (remove_element r p es) ≡ none
  unfolding find_element remove_element
  find_element-remove q p [] h = refl
  find_element-remove q p ((o, b) ∷ es) h = ground (arith, find_element-remove q p es)

  pub find_element-remove_self :
      (p : ℕ) (es : Entries) → Distinct es → find_element r p (remove_element r p es) ≡ none
  unfolding find_element remove_element
  find_element-remove_self p [] d = refl
  find_element-remove_self p ((q, b) ∷ es) d = ground (arith, find_element-remove_self p es d.2)

  pub Distinct-remove :
      (p : ℕ) (es : Entries) (c : RateClient r)
      → Distinct es
      → find_element r p es ≡ some c
      → Distinct (remove_element r p es)
  unfolding remove_element find_element
  Distinct-remove p [] c d h = cc
  Distinct-remove p ((q, b) ∷ es) c d h = elim (Bool-cases (eqb q p)) [
    | inl e ↦ rw e d.2
    | inr e ↦ rw e (
      find_key-remove_none b.key es p c d.2 (ground arith) d.0,
      find_element-remove q p es d.1,
      Distinct-remove p es c d.2 (ground arith),
    )
  ]
    where
      find_key-remove_none :
          (j : Bytes) (fs : Entries) (o : ℕ) (a : RateClient r)
          → Distinct fs
          → find_element r o fs ≡ some a
          → find_key j fs ≡ none
          → find_key j (remove_element r o fs) ≡ none
      find_key-remove_none j fs o a df hf n = ground (arith, find_key-remove j fs o a df hf)
