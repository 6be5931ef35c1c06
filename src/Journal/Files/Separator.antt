-- ===== src/Journal/Files/Separator.antt =====
-- A line separator in an event makes the file of its case unreadable.
use optimaler_status.Base.{
  ◌≡◌, refl, ap, ◌∙◌, ◌==◌, Bool, true, String, [], ◌∷◌, ◌++◌, All, keep, eq_iff,
}
use mathlib.Core.List.{append_assoc}
use optimaler_status.Base.Dict.{put}
use optimaler_status.Base.Sorting.{sorted}
use optimaler_status.Python.Result.{
  Error, Result, ok, err, require, ◌>>◌, sequence_conflict_error, duplicate_event_error,
}
use optimaler_status.Journal.Events.{Event}
use optimaler_status.Journal.Store.{check_appendable, knows}
use optimaler_status.Python.Text.{Text}
use optimaler_status.Journal.Files.{
  Json, Files, content, load_all, splitlines, lines_from, is_written, checked_append, read_file,
  append_file,
}
use optimaler_status.Journal.Files.Lines.{IsInner, lines_from-line}
use optimaler_status.Journal.Files.Refinement.{content-put}

module _ (j : Json) (safe : String → Bool) where
  read_first :
      (files : Files) (case_id : String)
      → safe case_id ≡ true
      → content files case_id ≡ []
      → read_file j safe files case_id ≡ ok []
  unfolding read_file load_all splitlines lines_from keep sorted
  read_first files case_id s c = rw (s, c) refl

  check_first : (e : Event) → e.sequence ≡ 0 → check_appendable e [] ≡ ok tt
  unfolding check_appendable knows
  check_first e n =
      ap (λ m. require (m == 0) sequence_conflict_error >> require true duplicate_event_error) n

  new_case :
      (files : Files) (e : Event)
      → safe e.case_id ≡ true
      → content files e.case_id ≡ []
      → e.sequence ≡ 0
      → append_file j safe e files ≡ (put files e.case_id (j.dump e ++ 10 ∷ []), ok e)
  unfolding append_file
  new_case files e s c n = rw (read_first files e.case_id s c) (
      ap (checked_append j e files) (check_first e n)
      ∙ ap (λ t. (put files e.case_id (t ++ (j.dump e ++ 10 ∷ [])), ok e)) c)

  unreadable :
      (files : Files) (case_id : String) (before rest : Text) (why : Error)
      → safe case_id ≡ true
      → content files case_id ≡ before ++ 8232 ∷ rest
      → All IsInner before
      → is_written before ≡ true
      → j.load before ≡ err why
      → read_file j safe files case_id ≡ err why
  unfolding read_file splitlines keep load_all
  unreadable files c before rest why s d i w l =
      rw (s, d, lines_from-line 8232 [] before rest refl refl i, w, l) refl

  append_unreadable :
      (files : Files) (e : Event) (why : Error)
      → read_file j safe files e.case_id ≡ err why
      → (append_file j safe e files).1 ≡ err why
  unfolding append_file
  append_unreadable files e why h = rw h refl

  stored_content :
      (files : Files) (e : Event)
      → safe e.case_id ≡ true
      → content files e.case_id ≡ []
      → e.sequence ≡ 0
      → content (append_file j safe e files).0 e.case_id ≡ j.dump e ++ 10 ∷ []
  stored_content files e s c n =
      rw (new_case files e s c n, content-put, (eq_iff e.case_id e.case_id).1 refl) refl

  -- The JSON of an event is written without escapes, so a text in it may hold U+2028, at which
  -- splitlines ends a line. Where what stands before it does not load, the append of the first
  -- event of a case returns, and then every read of the case raises, and so does every append.
  pub separator_unreadable :
      (files : Files) (e next : Event) (before after : Text) (why : Error)
      → safe e.case_id ≡ true
      → content files e.case_id ≡ []
      → e.sequence ≡ 0
      → j.dump e ≡ before ++ 8232 ∷ after
      → All IsInner before
      → is_written before ≡ true
      → j.load before ≡ err why
      → next.case_id ≡ e.case_id
      → ((append_file j safe e files).1 ≡ ok e)
        × (read_file j safe (append_file j safe e files).0 e.case_id ≡ err why)
        × ((append_file j safe next (append_file j safe e files).0).1 ≡ err why)
  separator_unreadable files e next before after why s c n d i w l k =
      let stored = (append_file j safe e files).0 in
      let unread =
        unreadable stored e.case_id before (after ++ 10 ∷ []) why s
          (stored_content files e s c n
            ∙ ap (λ t. t ++ 10 ∷ []) d
            ∙ append_assoc before (8232 ∷ after) (10 ∷ []))
          i w l in
      (
        ap (λ (x : Files × Result Event). x.1) (new_case files e s c n),
        unread,
        append_unreadable stored next why (ap (read_file j safe stored) k ∙ unread),
      )
