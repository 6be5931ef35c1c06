-- ===== src/Contracts/Anomaly.antt =====
-- schemas/anomaly.py: the scorer's evidence, read by downgrade conditions only.
use optimaler_status.Base.{ℕ, Bool, true, false, ◌&&◌, not, String, List, [], ◌∷◌}
use optimaler_status.Python.Result.{Result, ok, value_error, ◌>>◌, require}
use optimaler_status.Python.Float.{Float}
use optimaler_status.Contracts.Common.{VersionStamp}
use optimaler_status.Contracts.Config.{ScorerMode}

pub record AnomalyReason : Type 0 where
  pub feature : String
  pub observed : String
  pub expected : String
  pub contribution : Float

pub record AnomalyEvidence : Type 0 where
  pub envelope_id : String
  pub case_id : String
  pub score : Float
  pub threshold_ref : String
  pub flagged : Bool
  pub reasons : List AnomalyReason
  pub mode : ScorerMode
  pub created_at : ℕ
  pub versions : VersionStamp

abbrev is_empty : List AnomalyReason → Bool
is_empty [] = true
is_empty (r ∷ rs) = false

-- model_post_init: no flag without readable reasons
unfoldable pub flag_has_reasons : AnomalyEvidence → Result AnomalyEvidence
flag_has_reasons a = do require (not (a.flagged && is_empty a.reasons)) value_error; ok a
