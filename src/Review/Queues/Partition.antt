-- ===== src/Review/Queues/Partition.antt =====
-- About the states of the queues, and the list of queues.
use mathlib.Core.List.{Memᴰ}
use mathlib.Core.List.Memᴰ
use optimaler_status.Base.{
  ℕ, ◌≡◌, refl, sym, ap, ◌∙◌, true, Option, none, some, String, List, [], ◌∷◌, keep, str_eq, eq_iff,
  is_member, is_member-append, Bool-cases, inl, inr, arith, ◌↔◌,
}
use optimaler_status.Base.Members.{Memᴰ-keep, keep-Memᴰ, sorted-Memᴰ, Memᴰ-sorted}
use optimaler_status.Base.Sorting.{sorted}
use optimaler_status.Base.TextOrder.{str_le}
use optimaler_status.Review.State.{ReviewState, is_open}
use optimaler_status.Review.Queues.{
  same_unit, Hours, row_le, belongs, queue_states, clearing_queue, queue_id, with_unit, units_of,
  queue_ids,
}

same_unit_sound : (a b : Option String) → same_unit a b ≡ true → a ≡ b
same_unit_sound none none h = refl
same_unit_sound none (some v) h = absurd (cc h)
same_unit_sound (some u) none h = absurd (cc h)
same_unit_sound (some u) (some v) h = ap some ((eq_iff u v).0 h)

same_unit_refl : (a : Option String) → same_unit a a ≡ true
same_unit_refl none = refl
same_unit_refl (some u) = (eq_iff u u).1 refl

belongs-open :
    (s : ReviewState) (unit_id : Option String)
    → is_open s ≡ true
    → s.unit_id ≡ unit_id
    → belongs unit_id s ≡ true
belongs-open s unit_id h e = rw (h, sym e) (same_unit_refl s.unit_id)

Memᴰ-is_member : (x : String) (xs : List String) → Memᴰ x xs → is_member x xs ≡ true
unfolding is_member
Memᴰ-is_member x [] m = absurd (Memᴰ.not-nil m)
Memᴰ-is_member x (y ∷ xs) m = elim (Memᴰ.cases_cons m) [
  | inl e ↦ ground (arith, (eq_iff x y).1 e)
  | inr later ↦ ground (arith, Memᴰ-is_member x xs later)
]

is_member-Memᴰ : (x : String) (xs : List String) → is_member x xs ≡ true → Memᴰ x xs
unfolding is_member
is_member-Memᴰ x [] h = absurd (cc h)
is_member-Memᴰ x (y ∷ xs) h = elim (Bool-cases (str_eq x y)) [
  | inl b ↦ Memᴰ.head ((eq_iff x y).0 b)
  | inr b ↦ Memᴰ.tail (is_member-Memᴰ x xs (ground (arith, h, b)))
]

with_unit-here : (u : String) (units : List String) → is_member u (with_unit (some u) units) ≡ true
unfolding is_member
with_unit-here u units = elim (Bool-cases (is_member u units)) [
  | inl b ↦ rw b b
  | inr b ↦ rw b (ground (arith, (eq_iff u u).1 refl))
]

with_unit-there :
    (u : String) (o : Option String) (units : List String)
    → is_member u units ≡ true
    → is_member u (with_unit o units) ≡ true
unfolding is_member
with_unit-there u none units h = h
with_unit-there u (some v) units h = elim (Bool-cases (is_member v units)) [
  | inl b ↦ rw b h
  | inr b ↦ rw b (ground (arith, h))
]

units_of-listed :
    (states : List ReviewState) (s : ReviewState) (u : String)
    → Memᴰ s states
    → s.unit_id ≡ some u
    → is_member u (units_of states) ≡ true
unfolding units_of
units_of-listed [] s u m h = absurd (Memᴰ.not-nil m)
units_of-listed (t ∷ states) s u m h = elim (Memᴰ.cases_cons m) [
  | inl e ↦
      let unit : t.unit_id ≡ some u = ap (λ x. x.unit_id) (sym e) ∙ h in
      rw unit (with_unit-here u (units_of states))
  | inr later ↦ with_unit-there u t.unit_id (units_of states) (units_of-listed states s u later h)
]

ends_in_clearing : (index : List ReviewState) → is_member clearing_queue (queue_ids index) ≡ true
unfolding queue_ids is_member
ends_in_clearing index =
    let units = sorted str_le (units_of (keep is_open index)) in
    ground (
      arith,
      is_member-append clearing_queue units (clearing_queue ∷ []),
      (eq_iff clearing_queue clearing_queue).1 refl,
    )

queue_ids-listed :
    (index : List ReviewState) (s : ReviewState) (o : Option String)
    → Memᴰ s index
    → is_open s ≡ true
    → s.unit_id ≡ o
    → is_member (queue_id o) (queue_ids index) ≡ true
unfolding queue_ids is_member
queue_ids-listed index s none m h e = ends_in_clearing index
queue_ids-listed index s (some String.[]) m h e = ends_in_clearing index
queue_ids-listed index s (some (String.◌∷◌ c u)) m h e =
    let name = String.◌∷◌ c u in
    let units = units_of (keep is_open index) in
    let there = units_of-listed (keep is_open index) s name (keep-Memᴰ is_open index m h) e in
    let ordered =
      Memᴰ-is_member name (sorted str_le units)
        (sorted-Memᴰ str_le units (is_member-Memᴰ name units there)) in
    ground (arith, ordered, is_member-append name (sorted str_le units) (clearing_queue ∷ []))

-- A state stands in the queue of a unit exactly where it is a state of the index, still open, and
-- routed to that unit (to none, for the clearing queue), and queue_ids names every queue that such a
-- state stands in.
pub queue_states-Partition :
    (hours : Hours) (now : ℕ) (index : List ReviewState) (s : ReviewState) (unit_id : Option String)
    → Memᴰ s (queue_states hours now index unit_id) ↔ (
        Memᴰ s index
        × (is_open s ≡ true)
        × (s.unit_id ≡ unit_id)
        × (is_member (queue_id unit_id) (queue_ids index) ≡ true))
unfolding queue_states
queue_states-Partition hours now index s unit_id =
    let le = row_le hours now in
    let test = belongs unit_id in
    (
      λ m.
          let (listed, passes) = Memᴰ-keep test index (Memᴰ-sorted le (keep test index) m) in
          let waits : is_open s ≡ true = ground (arith, passes) in
          let same = same_unit_sound s.unit_id unit_id (ground (arith, passes)) in
          (listed, waits, same, queue_ids-listed index s unit_id listed waits same),
      λ (listed, waits, same, _).
          let passes : belongs unit_id s ≡ true = belongs-open s unit_id waits same in
          sorted-Memᴰ le (keep test index) (keep-Memᴰ test index listed passes),
    )
