-- ===== src/Review/Queues.antt =====
-- engine/review/queues.py: the open cases of a unit, and the queues that there are.
pub mod Partition
use optimaler_status.Base.{
  ℕ, Bool, true, false, ◌&&◌, ◌||◌, Option, none, some, String, List, [], ◌∷◌, ◌++◌, keep, str_eq,
  is_member, if◌then◌else◌,
}
use optimaler_status.Base.Sorting.{sorted}
use optimaler_status.Base.TextOrder.{str_le}
use optimaler_status.Python.Float.{Float, finite, lt, eq}
use optimaler_status.Base.Int.{pos}
use optimaler_status.Journal.Store.{Store, read, case_ids}
use optimaler_status.Review.State.{ReviewState, is_open, review_state}

-- build_index: the state of every case of the store.
unfoldable pub states_of : Store → List String → List ReviewState
unfolding read review_state
states_of store [] = []
states_of store (case_id ∷ ids) = review_state case_id (read store case_id) ∷ states_of store ids

unfoldable pub build_index : Store → List ReviewState
unfolding states_of case_ids
build_index store = states_of store (case_ids store)

-- state.unit_id == unit_id
abbrev pub same_unit : Option String → Option String → Bool
same_unit none none = true
same_unit none (some v) = false
same_unit (some u) none = false
same_unit (some u) (some v) = str_eq u v

-- (now - received_at).total_seconds() / 3600.0 of two timestamps.
abbrev pub Hours : Type 0
Hours = ℕ → ℕ → Float

-- age_hours or 0.0
abbrev pub age_or_zero : Hours → ℕ → Option ℕ → Float
age_or_zero hours now none = finite (pos 0)
age_or_zero hours now (some received) = hours received now

-- The keys (-age, case_id) in their order: the oldest case first.
unfoldable pub row_le : Hours → ℕ → ReviewState → ReviewState → Bool
unfolding lt eq str_le
row_le hours now a b =
    let age = age_or_zero hours now a.case_state.received_at in
    let other = age_or_zero hours now b.case_state.received_at in
    lt other age || (eq age other && str_le a.case_id b.case_id)

abbrev pub belongs : Option String → ReviewState → Bool
belongs unit_id s = is_open s && same_unit s.unit_id unit_id

-- The states of the rows of build_queue.
unfoldable pub queue_states : Hours → ℕ → List ReviewState → Option String → List ReviewState
unfolding sorted row_le keep
queue_states hours now index unit_id = sorted (row_le hours now) (keep (belongs unit_id) index)

abbrev pub clearing_queue : String
clearing_queue = "__clearing__"

-- unit_id or CLEARING_QUEUE
abbrev pub queue_id : Option String → String
queue_id none = clearing_queue
queue_id (some String.[]) = clearing_queue
queue_id (some (String.◌∷◌ c s)) = String.◌∷◌ c s

-- The units of the states, each of them once.
abbrev pub with_unit : Option String → List String → List String
with_unit none units = units
with_unit (some u) units = if is_member u units then units else u ∷ units

unfoldable pub units_of : List ReviewState → List String
unfolding is_member
units_of [] = []
units_of (s ∷ states) = with_unit s.unit_id (units_of states)

unfoldable pub queue_ids : List ReviewState → List String
unfolding sorted units_of str_le keep
queue_ids index = sorted str_le (units_of (keep is_open index)) ++ clearing_queue ∷ []
