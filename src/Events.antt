-- ===== src/Events.antt =====
-- events.go: the ring of recent events, and the log handler that fills it.
-- Times and attribute values are opaque numbers and bytes; the mutex makes each call one step.
pub mod Ring
pub mod Tests
use yabber.Base.{
  ℕ, ◌+◌, ◌%◌, ltb, Bool, not, ◌||◌, if◌then◌else◌, List, [], ◌∷◌, ◌++◌, length, set, take, drop,
  Bytes, Dict, bytes_eq, insert, ℤ, pos, ltb_ℤ,
}

abbrev pub max_events : ℕ
max_events = 256

-- slog.LevelInfo
abbrev pub level_info : ℤ
level_info = pos 0

pub record Event : Type 0 where
  pub time : ℕ
  pub level : ℤ
  pub message : Bytes
  pub attrs : Dict Bytes Bytes

pub record EventLog : Type 0 where
  pub events : List Event
  pub next : ℕ

-- The zero value.
abbrev pub empty : EventLog
empty = record { events = []; next = 0 }

pub add : EventLog → Event → EventLog
add l event =
    if ltb (length l.events) max_events
    then record l { events = l.events ++ event ∷ [] }
    else record { events = set l.events l.next event; next = (l.next + 1) % max_events }

-- Oldest first.
pub list : EventLog → List Event
list l = drop l.next l.events ++ take l.next l.events

-- A log record as slog passes it on.
pub record Record : Type 0 where
  pub time : ℕ
  pub level : ℤ
  pub message : Bytes
  pub attrs : List (Bytes × Bytes)

-- The configured handler behind the event handler, seen through its threshold.
pub record EventHandler : Type 0 where
  pub next_enabled : ℤ → Bool
  pub attrs : List (Bytes × Bytes)

pub enabled : EventHandler → ℤ → Bool
enabled h level = not (ltb_ℤ level level_info) || h.next_enabled level

add_attrs : Dict Bytes Bytes → List (Bytes × Bytes) → Dict Bytes Bytes
unfolding insert
add_attrs m [] = m
add_attrs m ((k, v) ∷ rest) = add_attrs (insert k v m) rest

pub event_of : EventHandler → Record → Event
unfolding add_attrs
event_of h r = record {
  time = r.time;
  level = r.level;
  message = r.message;
  attrs = add_attrs (add_attrs [] h.attrs) r.attrs;
}

-- The log afterwards, and whether the record was passed on to the next handler.
pub handle : EventHandler → EventLog → Record → EventLog × Bool
unfolding add
handle h l r =
    (if ltb_ℤ r.level level_info then l else add l (event_of h r), h.next_enabled r.level)

pub with_attrs : EventHandler → List (Bytes × Bytes) → EventHandler
with_attrs h more = record h { attrs = h.attrs ++ more }
