-- ===== src/Decide/Drawing.antt =====
-- The audit sample can only add review.
use optimaler_status.Base.{
  ◌≡◌, refl, Bool, true, false, ◌||◌, List, arith, Option, none, some, String, if◌then◌else◌,
}
use optimaler_status.Base.Int.{pos}
use optimaler_status.Python.Result.{Result, Error, ok, err, ◌>>=◌}
use optimaler_status.Python.Float
use optimaler_status.Python.Float.{Float, finite}
use optimaler_status.Python.Float.Order.{lt-le_trans, le-le_trans}
use optimaler_status.Contracts.Common.{Tier, ◌⊑◌, ⊑-full}
use optimaler_status.Contracts.Decision.{AuditSample}
use optimaler_status.Decide.Rows.{Verdict}
use optimaler_status.Decide.Downgrades.{DowngradeOutcome, apply_outcomes}
use optimaler_status.Decide.Sample.{
  Digest, audit_sample_draw, evaluate_audit_sample, is_blank, text_of,
}
use optimaler_status.Decide.Record.{Inputs, decide, sampled_tier}
use optimaler_status.Decide.Outcome.{
  outcome_tier, rows_of, downgrades_of, decide-tier, le-sampled_tier,
}

abbrev pub with_rate : Inputs → Float → Inputs
with_rate i rate = record i { risk = record i.risk { audit_sample_rate = rate } }

-- What a higher rate may make of a sample: nothing becomes anything, a drawn item stays drawn,
-- and an exception stays one.
data DrawsMore : Result (Option AuditSample) → Result (Option AuditSample) → Type 0 where
  unsampled : {r : Result (Option AuditSample)} → DrawsMore (ok none) r
  redrawn :
      (s t : AuditSample)
      → (s.sampled ≡ true → t.sampled ≡ true)
      → DrawsMore (ok (some s)) (ok (some t))
  raised_before : {e f : Error} → DrawsMore (err e) (err f)

sampled_more :
    (s t : AuditSample) (x : Tier)
    → (s.sampled ≡ true → t.sampled ≡ true)
    → sampled_tier (some s) x ⊑ sampled_tier (some t) x
sampled_more s t x h = ground arith

tier_draws_more :
    (v : Result Verdict) (os : Result (List DowngradeOutcome)) {r q : Result (Option AuditSample)}
    → DrawsMore r q
    → outcome_tier v os r ⊑ outcome_tier v os q
tier_draws_more (err e) os h = omega arith
tier_draws_more (ok v) (err e) h = omega arith
tier_draws_more (ok v) (ok os) (unsampled {r = ok s}) = le-sampled_tier s (apply_outcomes v.0 os)
tier_draws_more (ok v) (ok os) (unsampled {r = err e}) = ⊑-full (apply_outcomes v.0 os)
tier_draws_more (ok v) (ok os) (redrawn s t h) = sampled_more s t (apply_outcomes v.0 os) h
tier_draws_more (ok v) (ok os) raised_before = omega arith

-- The answer of `evaluate_audit_sample` where sampling is on, from the draw.
abbrev taken : String → Float → Result Float → Result (Option AuditSample)
taken case_id rate drawn = do
  draw ← drawn
  ok (some (record { case_id = case_id; rate = rate; draw = draw; sampled = Float.lt draw rate }))

taken_more :
    (case_id : String) (r q : Float) (drawn : Result Float)
    → Float.le r q ≡ true
    → DrawsMore (taken case_id r drawn) (taken case_id q drawn)
taken_more case_id r q (ok x) h = redrawn _ _ (λ k. lt-le_trans x r q k h)
taken_more case_id r q (err e) h = raised_before

abbrev sample_unless : Bool → Result (Option AuditSample) → Result (Option AuditSample)
sample_unless off rest = if off then ok none else rest

still_on :
    (a b off : Bool) (r q : Result (Option AuditSample))
    → (b ≡ true → a ≡ true)
    → DrawsMore r q
    → DrawsMore (sample_unless (a || off) r) (sample_unless (b || off) q)
still_on true b off r q h k = unsampled
still_on false b true r q h k = unsampled
still_on false false false r q h k = k
still_on false true false r q h k = ground (arith, h refl)

more_drawn :
    (digest : Digest) (case_id : String) (r q : Float) (salt : Option String)
    → Float.le r q ≡ true
    → DrawsMore
        (evaluate_audit_sample digest case_id r salt)
        (evaluate_audit_sample digest case_id q salt)
unfolding evaluate_audit_sample
more_drawn digest case_id r q salt h =
    let zero_rate : Float = finite (pos 0) in
    still_on (Float.le r zero_rate) (Float.le q zero_rate) (is_blank salt) _ _
      (λ k. le-le_trans r q zero_rate h k)
      (taken_more case_id r q (audit_sample_draw digest case_id (text_of salt)) h)

-- A higher audit rate never gives an item a tier with less oversight.
pub decide_rate_monotone :
    (digest : Digest) (i : Inputs) (r q : Float)
    → Float.le r q ≡ true
    → (decide digest (with_rate i r)).tier ⊑ (decide digest (with_rate i q)).tier
decide_rate_monotone digest i r q h =
    rw (decide-tier digest (with_rate i r), decide-tier digest (with_rate i q))
      (tier_draws_more (rows_of i) (downgrades_of i)
        (more_drawn digest i.evidence.case_id r q i.audit_salt h))
