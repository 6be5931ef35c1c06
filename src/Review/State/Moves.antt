-- ===== src/Review/State/Moves.antt =====
-- About the body of the loop over the overrides, by what an override says.
use optimaler_status.Base.{
  ◌≡◌, ◌≢◌, ◌↔◌, refl, ap, true, false, Option, none, some, String, Bool-cases, inl, inr, eq_iff,
  arith,
}
use optimaler_status.Base.Int.{ℤ}
use optimaler_status.Python.Float.{eq}
use optimaler_status.Python.Value.{
  Value, null, bool, int, float, str, seq, mapping, Fields, field_of, py_eq,
}
use optimaler_status.Journal.Projection.{Override, as_int}
use optimaler_status.Review.State.{Position, is_field, moved_to, as_str_or_none, apply_override}

-- What a target means for the unit: a string that is not empty, or no unit.
pub data IsUnit (target : Option Value) : Option String → Type 0 where
  named : (u : String) → target ≡ some (str u) → u ≢ "" → IsUnit target (some u)
  unnamed : ((u : String) → target ≡ some (str u) → u ≡ "") → IsUnit target none

-- What a target means for the tier: an int, or the tier that was there.
pub data IsTier (target : Option Value) (tier : Option ℤ) : Option ℤ → Type 0 where
  chosen : (n : ℤ) → target ≡ some (int n) → IsTier target tier (some n)
  kept : ((n : ℤ) → ¬ (target ≡ some (int n))) → IsTier target tier tier

-- What an override makes of a position, by the field that it names.
pub data IsMoved (payload : Fields) (p q : Position) : Type 0 where
  rerouted :
      field_of payload "field" ≡ some (str "unit")
      → IsUnit (field_of payload "to") q.unit_id
      → q.tier ≡ p.tier
      → q.escalated ≡ p.escalated
      → IsMoved payload p q
  retiered :
      field_of payload "field" ≡ some (str "tier")
      → IsTier (field_of payload "to") p.tier q.tier
      → q.unit_id ≡ p.unit_id
      → q.escalated ≡ p.escalated
      → IsMoved payload p q
  raised :
      field_of payload "field" ≡ some (str "escalation")
      → IsTier (field_of payload "to") p.tier q.tier
      → q.unit_id ≡ p.unit_id
      → q.escalated ≡ true
      → IsMoved payload p q
  ignored :
      ¬ (field_of payload "field" ≡ some (str "unit"))
      → ¬ (field_of payload "field" ≡ some (str "tier"))
      → ¬ (field_of payload "field" ≡ some (str "escalation"))
      → q ≡ p
      → IsMoved payload p q

as_str_or_none-IsUnit : (target : Option Value) → IsUnit target (as_str_or_none target)
unfolding as_str_or_none
as_str_or_none-IsUnit none = unnamed (λ u h. absurd (cc h))
as_str_or_none-IsUnit (some null) = unnamed (λ u h. absurd (cc h))
as_str_or_none-IsUnit (some (bool b)) = unnamed (λ u h. absurd (cc h))
as_str_or_none-IsUnit (some (int n)) = unnamed (λ u h. absurd (cc h))
as_str_or_none-IsUnit (some (float x)) = unnamed (λ u h. absurd (cc h))
as_str_or_none-IsUnit (some (str String.[])) = unnamed (λ u h. cc h)
as_str_or_none-IsUnit (some (str (String.◌∷◌ c s))) = named (String.◌∷◌ c s) refl (λ h. cc h)
as_str_or_none-IsUnit (some (seq items)) = unnamed (λ u h. absurd (cc h))
as_str_or_none-IsUnit (some (mapping fields)) = unnamed (λ u h. absurd (cc h))

as_int-IsTier :
    (target : Option Value) (tier : Option ℤ) → IsTier target tier (moved_to (as_int target) tier)
unfolding as_int
as_int-IsTier none tier = kept (λ n h. cc h)
as_int-IsTier (some null) tier = kept (λ n h. cc h)
as_int-IsTier (some (bool b)) tier = kept (λ n h. cc h)
as_int-IsTier (some (int n)) tier = chosen n refl
as_int-IsTier (some (float x)) tier = kept (λ n h. cc h)
as_int-IsTier (some (str s)) tier = kept (λ n h. cc h)
as_int-IsTier (some (seq items)) tier = kept (λ n h. cc h)
as_int-IsTier (some (mapping fields)) tier = kept (λ n h. cc h)

is_field_iff : (name : String) (v : Option Value) → (is_field name v ≡ true) ↔ (v ≡ some (str name))
unfolding py_eq eq
is_field_iff name none = (λ h. absurd (cc h), λ h. absurd (cc h))
is_field_iff name (some null) = (λ h. absurd (cc h), λ h. absurd (cc h))
is_field_iff name (some (bool true)) = (λ h. absurd (cc h), λ h. absurd (cc h))
is_field_iff name (some (bool false)) = (λ h. absurd (cc h), λ h. absurd (cc h))
is_field_iff name (some (int n)) = (λ h. absurd (cc h), λ h. absurd (cc h))
is_field_iff name (some (float x)) = (λ h. absurd (cc h), λ h. absurd (cc h))
is_field_iff name (some (str s)) =
    (λ h. ap (λ t. some (str t)) ((eq_iff s name).0 h), λ h. (eq_iff s name).1 (cc h))
is_field_iff name (some (seq items)) = (λ h. absurd (cc h), λ h. absurd (cc h))
is_field_iff name (some (mapping fields)) = (λ h. absurd (cc h), λ h. absurd (cc h))

refuted : (name : String) (v : Option Value) → is_field name v ≡ false → ¬ (v ≡ some (str name))
refuted name v h e = cc (h, (is_field_iff name v).1 e)

pub apply_override-IsMoved :
    (o : Override) (p : Position) → IsMoved o.payload p (apply_override o p)
unfolding apply_override
apply_override-IsMoved o p =
    let which = field_of o.payload "field" in
    let target = field_of o.payload "to" in
    elim (Bool-cases (is_field "unit" which)) [
      | inl a ↦
          rw a (rerouted ((is_field_iff "unit" which).0 a) (as_str_or_none-IsUnit target) refl refl)
      | inr a ↦ elim (Bool-cases (is_field "tier" which)) [
        | inl b ↦
            let named = (is_field_iff "tier" which).0 b in
            let other : is_field "escalation" which ≡ false = rw named refl in
            rw (a, b, other) (retiered named (as_int-IsTier target p.tier) refl (ground arith))
        | inr b ↦ elim (Bool-cases (is_field "escalation" which)) [
          | inl c ↦
              rw (a, b, c)
                (raised ((is_field_iff "escalation" which).0 c) (as_int-IsTier target p.tier) refl
                  (ground arith))
          | inr c ↦
              rw (a, b, c)
                (ignored (refuted "unit" which a) (refuted "tier" which b)
                  (refuted "escalation" which c) refl)
        ]
      ]
    ]
