-- ===== src/Journal/Store.antt =====
-- engine/journal/store.py: the store of a process, and emit.
pub mod History
pub mod Append
pub mod Growth
pub mod Writers
use optimaler_status.Base.{
  ℕ, Bool, true, false, ◌||◌, not, Option, none, some, String, List, [], ◌∷◌, ◌++◌, map, length,
  ◌==◌, str_eq, if◌then◌else◌,
}
use optimaler_status.Base.Sorting.{sorted}
use optimaler_status.Base.TextOrder.{str_le}
use optimaler_status.Base.Dict.{Dict, get, contains, put}
use optimaler_status.Python.Result.{
  Result, ok, err, sequence_conflict_error, duplicate_event_error, require, ◌>>=◌, ◌>>◌,
}
use optimaler_status.Python.Value.{Fields}
use optimaler_status.Contracts.Common.{VersionStamp}
use optimaler_status.Journal.Events.{EventType, Actor, Event, notification_invariants}

-- The events of each case, by its id.
abbrev pub Store : Type 0
Store = Dict (List Event)

abbrev pub or_empty : Option (List Event) → List Event
or_empty none = []
or_empty (some events) = events

unfoldable pub read : Store → String → List Event
unfolding get
read store case_id = or_empty (get store case_id)

unfoldable pub next_sequence : Store → String → ℕ
unfolding read
next_sequence store case_id = length (read store case_id)

-- any(known.event_id == event_id for known in events)
unfoldable pub knows : String → List Event → Bool
knows event_id [] = false
knows event_id (known ∷ events) = str_eq known.event_id event_id || knows event_id events

unfoldable pub check_appendable : Event → List Event → Result (Unit {0})
unfolding knows
check_appendable event existing =
    require (event.sequence == length existing) sequence_conflict_error
    >> require (not (knows event.event_id existing)) duplicate_event_error

-- store.setdefault(case_id, [])
unfoldable pub set_default : Store → String → Store
unfolding contains put
set_default store case_id = if contains store case_id then store else put store case_id []

-- The end of append: the events of the case are there, and the check was made.
abbrev pub finish : Event → Store → Result (Unit {0}) → Store × Result Event
finish event store (err e) = (store, err e)
finish event store (ok checked) =
    (put store event.case_id (read store event.case_id ++ event ∷ []), ok event)

-- The store after the call, and what it returns: a refused event leaves an empty case behind.
unfoldable pub append : Event → Store → Store × Result Event
unfolding set_default check_appendable read put
append event store =
    let opened = set_default store event.case_id in
    finish event opened (check_appendable event (read opened event.case_id))

-- The keyword arguments of make_event.
pub record EventArguments : Type 0 where
  pub case_id : String
  pub type : EventType
  pub versions : VersionStamp
  pub payload : Fields
  pub actor : Actor
  pub occurred_at : Option ℕ
  pub informational_only : Option Bool
  pub template_id : Option String

abbrev pub time_or : ℕ → Option ℕ → ℕ
time_or now none = now
time_or now (some t) = t

abbrev pub event_of : String → ℕ → ℕ → EventArguments → Event
event_of fresh now sequence a = record {
  event_id = fresh;
  case_id = a.case_id;
  sequence = sequence;
  type = a.type;
  occurred_at = time_or now a.occurred_at;
  actor = a.actor;
  versions = a.versions;
  payload = a.payload;
  informational_only = a.informational_only;
  template_id = a.template_id;
}

-- make_event, with the fresh id and the clock as arguments: the validator of Event may raise.
unfoldable pub make_event : String → ℕ → ℕ → EventArguments → Result Event
unfolding notification_invariants
make_event fresh now sequence a =
    notification_invariants (event_of fresh now sequence a) >> ok (event_of fresh now sequence a)

abbrev pub append_made : Store → Result Event → Store × Result Event
append_made store (err e) = (store, err e)
append_made store (ok event) = append event store

unfoldable pub emit : String → ℕ → EventArguments → Store → Store × Result Event
unfolding next_sequence make_event append
emit fresh now a store = append_made store (make_event fresh now (next_sequence store a.case_id) a)

-- A sequence of calls of append, by whichever writers, refusals included.
unfoldable pub append_all : Store → List Event → Store
unfolding append
append_all store [] = store
append_all store (event ∷ events) = append_all (append event store).0 events

-- sorted(self._events)
unfoldable pub case_ids : Store → List String
case_ids store = sorted str_le (map (λ (entry : String × List Event). entry.0) store)
