-- ===== src/Events/Tests.antt =====
-- Runs of the event log and instances of its theorems.
use yabber.Base.{◌≡◌, refl, List, [], ◌∷◌, pos, negsuc, str, true, bytes_eq}
use yabber.Events.{Record, EventHandler, empty, list, handle, event_of}
use yabber.Events.Ring.{record_all, notable, recent, list-record_all}

abbrev sample_handler : EventHandler
sample_handler = record { next_enabled = λ _. true; attrs = (str "unit", str "gateway") ∷ [] }

abbrev applied_record : Record
applied_record = record {
  time = 7;
  level = pos 0;
  message = str "configuration applied";
  attrs = [];
}

abbrev debug_record : Record
debug_record = record applied_record { level = negsuc 3 }

abbrev sample_records : List Record
sample_records =
    debug_record ∷ applied_record ∷ debug_record ∷ record applied_record { time = 9 } ∷ []

list-record_all_example :
    list (record_all sample_handler empty sample_records)
    ≡ recent (notable sample_handler sample_records)
list-record_all_example = list-record_all sample_handler sample_records

two_events :
    list (record_all sample_handler empty sample_records)
    ≡ event_of sample_handler applied_record
      ∷ event_of sample_handler (record applied_record { time = 9 })
      ∷ []
unfolding record_all handle list event_of
two_events = refl
