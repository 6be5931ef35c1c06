-- ===== src/Journal/Files/Lines.antt =====
-- The lines of a file of whole lines.
use mathlib.Core.List.{append-nil, append_assoc}
use optimaler_status.Base.{
  ℕ, ◌≡◌, refl, sym, ap, ◌∙◌, ◌==◌, true, false, List, [], ◌∷◌, ◌++◌, All, keep,
}
use optimaler_status.Python.Result.{ok}
use optimaler_status.Journal.Events.{Event}
use optimaler_status.Python.Text.{Text, is_boundary}
use optimaler_status.Journal.Files.{lines_from, splitlines, is_written, Json, load_all}

abbrev pub IsInner : ℕ → Type 0
IsInner c = is_boundary c ≡ false

-- The event's JSON is one line that is not blank, and loads to the event.
pub record IsPlain (j : Json) (e : Event) : Type 0 where
  pub one_line : All IsInner (j.dump e)
  pub written : is_written (j.dump e) ≡ true
  pub loads : j.load (j.dump e) ≡ ok e

-- A line ends at the first boundary.
pub lines_from-line :
    (b : ℕ) (begun line rest : Text)
    → is_boundary b ≡ true
    → (b == 13) ≡ false
    → All IsInner line
    → lines_from false begun (line ++ b ∷ rest) ≡ (begun ++ line) ∷ lines_from false [] rest
unfolding lines_from
lines_from-line b [] [] rest f g h = rw (f, g) refl
lines_from-line b (x ∷ begun) [] rest f g h =
    (rw (f, g) refl) ∙ ap (λ l. l ∷ lines_from false [] rest) (sym (append-nil (x ∷ begun)))
lines_from-line b begun (c ∷ line) rest f g h =
    (rw h.0 refl)
    ∙ lines_from-line b (begun ++ c ∷ []) line rest f g h.1
    ∙ ap (λ l. l ∷ lines_from false [] rest) (append_assoc begun (c ∷ []) line)

-- The file of a list of events.
abbrev pub text_of : Json → List Event → Text
text_of j [] = []
text_of j (e ∷ events) = j.dump e ++ 10 ∷ text_of j events

pub text_of-append :
    (j : Json) (events : List Event) (e : Event)
    → text_of j (events ++ e ∷ []) ≡ text_of j events ++ (j.dump e ++ 10 ∷ [])
text_of-append j [] e = refl
text_of-append j (x ∷ events) e =
    ap (λ t. j.dump x ++ 10 ∷ t) (text_of-append j events e)
    ∙ sym (append_assoc (j.dump x) (10 ∷ text_of j events) (j.dump e ++ 10 ∷ []))

-- What the lines of the file of plain events load to.
pub load_all-text_of :
    (j : Json) (events : List Event)
    → All (IsPlain j) events
    → load_all j (keep is_written (splitlines (text_of j events))) ≡ ok events
unfolding load_all splitlines keep lines_from
load_all-text_of j [] h = refl
load_all-text_of j (e ∷ events) h =
    ap (λ ls. load_all j (keep is_written ls))
      (lines_from-line 10 [] (j.dump e) (text_of j events) refl refl h.0.one_line)
    ∙ (rw (h.0.written, h.0.loads, load_all-text_of j events h.1) refl)
