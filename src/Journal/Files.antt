-- ===== src/Journal/Files.antt =====
-- engine/journal/store.py: the store with one file of JSON lines for each case.
pub mod Lines
pub mod Refinement
pub mod Separator
use optimaler_status.Base.{
  ℕ, ◌≡◌, Bool, true, false, ◌||◌, ◌&&◌, not, Option, none, some, String, List, [], ◌∷◌, ◌++◌, All,
  keep, length, leb, ◌==◌, if◌then◌else◌,
}
use optimaler_status.Base.Dict.{Dict, get, put}
use optimaler_status.Base.Sorting.{sorted}
use optimaler_status.Python.Result.{Result, ok, err, value_error, require, ◌>>=◌, ◌>>◌}
use optimaler_status.Python.Text.{Text, is_boundary, is_space}
use optimaler_status.Journal.Events.{Event}
use optimaler_status.Journal.Store.{check_appendable}
use optimaler_status.Journal.Projection.{sequence_le}

-- The lines from here on, after a carriage return or not, with the line that was begun.
unfoldable pub lines_from : Bool → Text → Text → List Text
lines_from after_return [] [] = []
lines_from after_return (c ∷ begun) [] = (c ∷ begun) ∷ []
lines_from after_return begun (c ∷ text) =
    if after_return && (c == 10)
    then lines_from false begun text
    else if is_boundary c
    then begun ∷ lines_from (c == 13) [] text
    else lines_from false (begun ++ c ∷ []) text

unfoldable pub splitlines : Text → List Text
unfolding lines_from
splitlines text = lines_from false [] text

-- bool(line.strip())
unfoldable pub is_written : Text → Bool
unfolding is_space
is_written [] = false
is_written (c ∷ line) = not (is_space c) || is_written line

-- What json and pydantic do: json.dumps(event.model_dump(mode="json"), ensure_ascii=False), and
-- Event.model_validate_json.
pub record Json : Type 0 where
  pub dump : Event → Text
  pub load : Text → Result Event

-- The files of the directory, by the case id of their name.
abbrev pub Files : Type 0
Files = Dict Text

unfoldable pub load_all : Json → List Text → Result (List Event)
load_all j [] = ok []
load_all j (line ∷ lines) = do event ← j.load line; rest ← load_all j lines; ok (event ∷ rest)

abbrev pub text_or_empty : Option Text → Text
text_or_empty none = []
text_or_empty (some text) = text

-- The text of a case's file; a file that is not there gives the empty list of events too.
unfoldable pub content : Files → String → Text
unfolding get
content files case_id = text_or_empty (get files case_id)

-- read, with the test _SAFE_CASE_ID for a case id.
unfoldable pub read_file : Json → (String → Bool) → Files → String → Result (List Event)
unfolding load_all keep splitlines is_written content
read_file j safe files case_id = do
  _ ← require (safe case_id) value_error
  events ← load_all j (keep is_written (splitlines (content files case_id)))
  ok (sorted sequence_le events)

abbrev pub checked_append : Json → Event → Files → Result (Unit {0}) → Files × Result Event
checked_append j event files (err e) = (files, err e)
checked_append j event files (ok passed) =
    (put files event.case_id (content files event.case_id ++ (j.dump event ++ 10 ∷ [])), ok event)

unfoldable pub append_file : Json → (String → Bool) → Event → Files → Files × Result Event
unfolding read_file check_appendable put content
append_file j safe event files =
    checked_append j event files
      (read_file j safe files event.case_id >>= λ events. check_appendable event events)
