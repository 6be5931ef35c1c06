-- ===== src/Evidence/Completeness/Messages.antt =====
-- The failures of a check, with what their sentences are rendered from.
use optimaler_status.Base.{Bool, Option, String, List, if◌then◌else◌}
use optimaler_status.Base.Int.{ℤ}
use optimaler_status.Python.Text.{Text}
use optimaler_status.Contracts.Common.{Span}
use optimaler_status.Contracts.Evidence.{RequirementStatus}
use optimaler_status.Evidence.Completeness.Dates.{Date}

-- An observed value in a sentence, or the stand-in without it.
pub data Shown : Type 0 where
  concealed : Shown
  quoted : Text → Shown

-- _quoted, _dated and _named
abbrev pub show_unless : Bool → Text → Shown
show_unless hidden value = if hidden then concealed else quoted value

pub data Constraint : Type 0 where
  pattern one_of min_length max_length date date_min date_max : Constraint
  not_before not_after min_years_after max_years_after birthdate_in_vsnr : Constraint

-- What a sentence is rendered from: the field's own value, and where a rule names another field, its
-- id and its value. `explained` is the sentence that the configuration gives.
pub data Message : Type 0 where
  explained : String → Message
  wrong_format : Shown → Text → Message
  not_allowed : Shown → List Text → Message
  too_short : Shown → ℤ → Message
  too_long : Shown → ℤ → Message
  no_date : Shown → Message
  below_minimum : Shown → Date → Message
  above_maximum : Shown → Date → Message
  before_other : Shown → String → Shown → Message
  after_other : Shown → String → Shown → Message
  too_few_years : Shown → String → Shown → ℤ → Message
  too_many_years : Shown → String → Shown → ℤ → Message
  no_birthdate : Shown → Message
  other_birthdate : String → Message
  named_birthdates : Text → Date → String → Date → Message

-- ValidationFailure
pub record Failure : Type 0 where
  pub constraint : Constraint
  pub message : Message

-- What the detail of a gap is rendered from, besides the field and its path.
pub data GapDetail : Type 0 where
  document_unchecked : String → GapDetail
  value_missing : String → GapDetail
  unresolved : GapDetail
  failed : Failure → GapDetail

-- A gap before its detail is rendered; `path` is the provenance.
pub record Gap : Type 0 where
  pub requirement_id : String
  pub status : RequirementStatus
  pub span : Option Span
  pub detail : GapDetail
  pub path : Option String
