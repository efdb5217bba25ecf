-- ===== src/Events/Ring.antt =====
-- The ring keeps the last `max_events` of everything added, in order.
use mathlib.Core.List.{append-nil, append_assoc}
use native.Mathlib.Decide.{dec_lt}
use yabber.Base.{
  if◌then◌else◌, ltb_ℤ, min, zero, ℕ, suc, ◌+◌, ◌-◌, ◌≤◌, ◌<◌, ◌≡◌, refl, ap, sym, ◌∙◌, inl, inr,
  List, [], ◌∷◌, ◌++◌, length, set, take, drop, arith, lt→ltb, Bool-cases, length-append,
  length-set, length-drop, drop-set, take-set, drop-cons, drop-append, drop_all, take_all,
  length-take,
}
use yabber.Events.{
  Event, EventLog, max_events, empty, add, list, Record, EventHandler, handle, event_of, level_info,
}

-- The write position stays in range, and is moved only once the ring is full.
pub record IsValid (l : EventLog) : Type 0 where
  pub bounded : length l.events ≤ max_events
  pub in_range : l.next < max_events
  pub filling : length l.events < max_events → l.next ≡ 0

-- The last `max_events` items of a history.
pub recent : List Event → List Event
recent h = drop (length h - max_events) h

pub record Tracks (l : EventLog) (h : List Event) : Type 0 where
  pub valid : IsValid l
  pub window : list l ≡ recent h

pub add-IsValid : (l : EventLog) (e : Event) → IsValid l → IsValid (add l e)
unfolding add
add-IsValid l e v = ground (arith, length-append l.events (e ∷ []), length-set l.events l.next e)

-- While the ring fills, the view grows at its end.
list-add_filling :
    (l : EventLog) (e : Event)
    → IsValid l
    → length l.events < max_events
    → list (add l e) ≡ list l ++ e ∷ []
unfolding add list
list-add_filling l e v h = rw (lt→ltb _ _ h) (rw (v.filling h) (simp (append-nil)))

-- Overwriting one slot and stepping past it drops the oldest item and appends the new one.
rotate :
    (xs : List Event) (i : ℕ) (e : Event)
    → i < length xs
    → drop (suc i) (set xs i e) ++ take (suc i) (set xs i e)
      ≡ drop 1 (drop i xs ++ take i xs) ++ e ∷ []
rotate xs i e h =
    let (x, split) = drop-cons xs i h in
    rw (drop-set xs i e) (rw (take-set xs i e h) (rw split (simp append_assoc)))

rotate_last :
    (xs : List Event) (i : ℕ) (e : Event)
    → suc i ≡ length xs
    → set xs i e ++ [] ≡ drop 1 (drop i xs ++ take i xs) ++ e ∷ []
rotate_last xs i e h =
    let n : length (set xs i e) ≤ suc i = omega (arith, length-set xs i e) in
    let gone : drop (suc i) (set xs i e) ≡ [] = drop_all (suc i) (set xs i e) n in
    let whole : take (suc i) (set xs i e) ≡ set xs i e = take_all (suc i) (set xs i e) n in
    append-nil (set xs i e) ∙ sym (rw (gone, whole) refl) ∙ rotate xs i e (omega arith)

-- A full ring loses its oldest event.
list-add_full :
    (l : EventLog) (e : Event)
    → IsValid l
    → length l.events ≡ max_events
    → list (add l e) ≡ drop 1 (list l) ++ e ∷ []
unfolding add list
list-add_full l e v h = elim (dec_lt (l.next + 1) max_events) [
  | yes p ↦ ground (arith, rotate l.events l.next e (omega arith))
  | no p ↦ ground (arith, rotate_last l.events l.next e (omega arith))
]

length-list : (l : EventLog) → length (list l) ≡ length l.events
unfolding list
length-list l = omega (
  arith,
  length-append (drop l.next l.events) (take l.next l.events),
  length-drop l.next l.events,
  length-take l.next l.events,
)

recent_short : (h : List Event) → length h ≤ max_events → recent h ≡ h
unfolding recent
recent_short h p = let e : length h - max_events ≡ 0 = omega arith in rw e

length-recent : (h : List Event) → length (recent h) ≡ min (length h) max_events
unfolding recent
length-recent h = omega (arith, length-drop (length h - max_events) h)

drop-drop : (n : ℕ) (xs : List Event) → drop 1 (drop n xs) ≡ drop (suc n) xs
drop-drop zero [] = refl
drop-drop zero (x ∷ xs) = refl
drop-drop (suc n) [] = refl
drop-drop (suc n) (x ∷ xs) = drop-drop n xs

recent_full :
    (h : List Event) (e : Event)
    → max_events ≤ length h
    → recent (h ++ e ∷ []) ≡ drop 1 (recent h) ++ e ∷ []
unfolding recent
recent_full h e p =
    let n : length (h ++ e ∷ []) - max_events ≡ suc (length h - max_events) =
      omega (arith, length-append h (e ∷ [])) in
    rw n (
      drop-append (suc (length h - max_events)) h (e ∷ []) (omega arith)
      ∙ ap (λ xs. xs ++ e ∷ []) (sym (drop-drop (length h - max_events) h)))

add-Tracks :
    (l : EventLog) (e : Event) (h : List Event) → Tracks l h → Tracks (add l e) (h ++ e ∷ [])
add-Tracks l e h t = record {
  valid = add-IsValid l e t.valid;
  window = elim (dec_lt (length l.events) max_events) [
    | yes p ↦
        let n : length h < max_events =
          omega (arith, ap length t.window, length-list l, length-recent h) in
        list-add_filling l e t.valid p
        ∙ ap (λ xs. xs ++ e ∷ []) (t.window ∙ recent_short h (omega arith))
        ∙ sym (recent_short (h ++ e ∷ []) (omega (arith, length-append h (e ∷ []))))
    | no p ↦
        let full : length l.events ≡ max_events = omega (arith, t.valid.bounded) in
        let n : max_events ≤ length h =
          omega (arith, ap length t.window, length-list l, length-recent h) in
        list-add_full l e t.valid full
        ∙ ap (λ xs. drop 1 xs ++ e ∷ []) t.window
        ∙ sym (recent_full h e n)
  ];
}

add_all : EventLog → List Event → EventLog
add_all l [] = l
add_all l (e ∷ es) = add_all (add l e) es

add_all-Tracks : (l : EventLog) (h es : List Event) → Tracks l h → Tracks (add_all l es) (h ++ es)
unfolding add_all
add_all-Tracks l h [] t = rw append-nil t
add_all-Tracks l h (e ∷ es) t =
    rw (← append_assoc h (e ∷ []) es)
      (add_all-Tracks (add l e) (h ++ e ∷ []) es (add-Tracks l e h t))

empty-Tracks : Tracks empty []
unfolding list recent
empty-Tracks = record {
  valid = record { bounded = omega arith; in_range = omega arith; filling = λ _. refl };
  window = refl;
}

-- A run of log records through the event handler.
unfoldable pub record_all : EventHandler → EventLog → List Record → EventLog
record_all h l [] = l
record_all h l (r ∷ rs) = record_all h (handle h l r).0 rs

-- The events that the records at Info and above stand for.
pub notable : EventHandler → List Record → List Event
notable h [] = []
notable h (r ∷ rs) = if ltb_ℤ r.level level_info then notable h rs else event_of h r ∷ notable h rs

record_all-add_all :
    (h : EventHandler) (l : EventLog) (rs : List Record)
    → record_all h l rs ≡ add_all l (notable h rs)
unfolding record_all add_all notable handle
record_all-add_all h l [] = refl
record_all-add_all h l (r ∷ rs) = elim (Bool-cases (ltb_ℤ r.level level_info)) [
  | inl low ↦ rw low (record_all-add_all h l rs)
  | inr notable_level ↦ rw notable_level (record_all-add_all h (add l (event_of h r)) rs)
]

-- After any sequence of log records through the event handler, list returns the last max_events of
-- the events at Info and above, oldest first, and all of them while there are no more than that.
pub list-record_all :
    (h : EventHandler) (rs : List Record) → list (record_all h empty rs) ≡ recent (notable h rs)
list-record_all h rs =
    ap list (record_all-add_all h empty rs)
    ∙ (add_all-Tracks empty [] (notable h rs) empty-Tracks).window
