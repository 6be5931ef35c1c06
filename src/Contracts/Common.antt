-- ===== src/Contracts/Common.antt =====
-- schemas/common.py. A timestamp is a number of microseconds.
use optimaler_status.Base.{
  ℕ, ◌≤◌, ◌≡◌, ◌≢◌, ◌⊎◌, inl, inr, refl, String, Option, arith, leb, if◌then◌else◌,
}

pub data Tier : Type 0 where
  clear_and_complete incomplete_but_routable full_human_review : Tier

-- Tier.value: more human oversight is higher.
abbrev pub value : Tier → ℕ
value clear_and_complete = 1
value incomplete_but_routable = 2
value full_human_review = 3

-- Tier(max(a.value, b.value))
abbrev pub max_tier : Tier → Tier → Tier
max_tier a b = if leb (value a) (value b) then b else a

infix 50 ◌⊑◌
-- b has at least the oversight of a
abbrev pub ◌⊑◌ : Tier → Tier → Type 0
a ⊑ b = value a ≤ value b

pub ⊑-full : (a : Tier) → a ⊑ full_human_review
⊑-full a = ground arith

pub le-max_tier_left : (a b : Tier) → a ⊑ max_tier a b
le-max_tier_left a b = ground arith

pub le-max_tier_right : (a b : Tier) → b ⊑ max_tier a b
le-max_tier_right a b = ground arith

pub max_tier-le : (a b c : Tier) → a ⊑ c → b ⊑ c → max_tier a b ⊑ c
max_tier-le a b c h k = ground arith

pub max_tier_mono : (a b c : Tier) → a ⊑ b → max_tier a c ⊑ max_tier b c
max_tier_mono a b c h = ground arith

pub tier_cases : (t : Tier) → (t ≡ full_human_review) ⊎ (t ≢ full_human_review)
tier_cases clear_and_complete = inr (λ e. cc)
tier_cases incomplete_but_routable = inr (λ e. cc)
tier_cases full_human_review = inl refl

pub record Span : Type 0 where
  pub part_id : String
  pub start : ℕ
  pub stop : ℕ

pub record VersionStamp : Type 0 where
  pub schema_version : String
  pub taxonomy_version : Option String
  pub rules_version : Option String
  pub decision_table_version : Option String
  pub thresholds_version : Option String
  pub prompt_version : Option String
  pub model_id : Option String
  pub feature_set_version : Option String
