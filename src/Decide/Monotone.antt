-- ===== src/Decide/Monotone.antt =====
-- A downgrade rule that passed its validator is monotone in the anomaly evidence.
use optimaler_status.Base.{
  ◌≡◌, refl, Bool, true, false, ◌⊎◌, inl, inr, String, List, [], ◌∷◌, arith, none, some, Bool-cases,
  str_eq, eq_iff, All,
}
use optimaler_status.Python.Result.{Result, Error, ok, err, Result-cases}
use optimaler_status.Python.Float
use optimaler_status.Python.Float.{Float}
use optimaler_status.Python.Float.Order.{lt-le_trans, le-le_trans}
use optimaler_status.Python.Value.{Value, bool, float}
use optimaler_status.Predicate.Compare.{Op, as_number, compare_op}
use optimaler_status.Predicate.Ast.{field_value, and_then}
use optimaler_status.Contracts.Config.{DowngradeCondition, monotone_anomaly_only}
use optimaler_status.Contracts.Anomaly.{AnomalyEvidence}
use optimaler_status.Decide.Downgrades.{resolve_anomaly_fields, fires}

-- `b` is at least as anomalous as `a`.
pub record IsRaised (a b : AnomalyEvidence) : Type 0 where
  pub score : Float.le a.score b.score ≡ true
  pub flagged : a.flagged ≡ true → b.flagged ≡ true

-- A condition that held still holds, and one that raised still raises.
pub data Rises : Result Bool → Result Bool → Type 0 where
  was_false : {r : Result Bool} → Rises (ok false) r
  still_true : Rises (ok true) (ok true)
  still_raised : {e f : Error} → Rises (err e) (err f)

Rises-and_then :
    {p q r s : Result Bool} → Rises p q → Rises r s → Rises (and_then p r) (and_then q s)
Rises-and_then was_false k = was_false
Rises-and_then still_true k = k
Rises-and_then still_raised k = still_raised

Rises-ok : (p q : Bool) → (p ≡ true → q ≡ true) → Rises (ok p) (ok q)
Rises-ok false q h = was_false
Rises-ok true true h = still_true
Rises-ok true false h = ground (arith, h refl)

Rises-gt :
    (x y : Float) (w : Value)
    → Float.le x y ≡ true
    → Rises (compare_op Op.gt (float x) w) (compare_op Op.gt (float y) w)
unfolding compare_op
Rises-gt x y w h = elim (Result-cases (as_number w)) [
  | inr (e, raised) ↦ rw raised still_raised
  | inl (none, e) ↦ rw e was_false
  | inl (some z, e) ↦ rw e (Rises-ok (Float.lt z x) (Float.lt z y) (λ k. lt-le_trans z x y k h))
]

Rises-ge :
    (x y : Float) (w : Value)
    → Float.le x y ≡ true
    → Rises (compare_op Op.ge (float x) w) (compare_op Op.ge (float y) w)
unfolding compare_op
Rises-ge x y w h = elim (Result-cases (as_number w)) [
  | inr (e, raised) ↦ rw raised still_raised
  | inl (none, e) ↦ rw e was_false
  | inl (some z, e) ↦ rw e (Rises-ok (Float.le z x) (Float.le z y) (λ k. le-le_trans z x y k h))
]

Rises-flag :
    (p q : Bool)
    → (p ≡ true → q ≡ true)
    → Rises (compare_op Op.eq (bool p) (bool true)) (compare_op Op.eq (bool q) (bool true))
unfolding compare_op
Rises-flag false q h = was_false
Rises-flag true true h = still_true
Rises-flag true false h = ground (arith, h refl)

-- What the validator leaves of a downgrade condition.
data Form (name : String) (o : Op) (v : Value) : Type 0 where
  above : name ≡ "anomaly.score" → o ≡ Op.gt → Form name o v
  reaches : name ≡ "anomaly.score" → o ≡ Op.ge → Form name o v
  flag : name ≡ "anomaly.flagged" → o ≡ Op.eq → v ≡ bool true → Form name o v

score_ops :
    (c : DowngradeCondition)
    → str_eq c.field "anomaly.score" ≡ true
    → monotone_anomaly_only c ≡ ok c
    → (c.op ≡ Op.gt) ⊎ (c.op ≡ Op.ge)
unfolding monotone_anomaly_only
score_ops c h k = ground arith

flag_op :
    (c : DowngradeCondition)
    → str_eq c.field "anomaly.score" ≡ false
    → monotone_anomaly_only c ≡ ok c
    → (str_eq c.field "anomaly.flagged" ≡ true) × (c.op ≡ Op.eq) × (c.value ≡ bool true)
unfolding monotone_anomaly_only
flag_op c h k = ground arith

Form-of : (c : DowngradeCondition) → monotone_anomaly_only c ≡ ok c → Form c.field c.op c.value
Form-of c k = elim (Bool-cases (str_eq c.field "anomaly.score")) [
  | inl score ↦ elim (score_ops c score k) [
    | inl o ↦ above ((eq_iff _ _).0 score) o
    | inr o ↦ reaches ((eq_iff _ _).0 score) o
  ]
  | inr other ↦ let p = flag_op c other k in flag ((eq_iff _ _).0 p.0) p.1 p.2
]

compare_op-Rises :
    (a b : AnomalyEvidence) (name : String) (o : Op) (w : Value)
    → IsRaised a b
    → Form name o w
    → Rises
        (compare_op o (field_value (resolve_anomaly_fields a) name) w)
        (compare_op o (field_value (resolve_anomaly_fields b) name) w)
unfolding resolve_anomaly_fields field_value
compare_op-Rises a b name o w h (above n p) = rw (n, p) (Rises-gt a.score b.score w h.score)
compare_op-Rises a b name o w h (reaches n p) = rw (n, p) (Rises-ge a.score b.score w h.score)
compare_op-Rises a b name o w h (flag n p v) =
    rw (n, p, v) (Rises-flag a.flagged b.flagged h.flagged)

pub fires-Rises :
    (a b : AnomalyEvidence) (cs : List DowngradeCondition)
    → IsRaised a b
    → All (λ (c : DowngradeCondition). monotone_anomaly_only c ≡ ok c) cs
    → Rises (fires cs (resolve_anomaly_fields a)) (fires cs (resolve_anomaly_fields b))
unfolding fires
fires-Rises a b [] h k = still_true
fires-Rises a b (c ∷ cs) h k =
    Rises-and_then (compare_op-Rises a b c.field c.op c.value h (Form-of c k.0))
      (fires-Rises a b cs h k.1)
