-- ===== src/Evidence/Routing/Order.antt =====
-- The order of rules and of units is total and transitive.
use optimaler_status.Base.{ℕ, ◌≡◌, true, false, String, arith}
use optimaler_status.Base.Sorting.{IsOrder}
use optimaler_status.Base.TextOrder.{str_le_total, str_le_trans}
use optimaler_status.Evidence.Routing.{key_le, rule_le, candidate_le, first_id}

key_le_total : (p q : ℕ) (s t : String) → key_le p s q t ≡ false → key_le q t p s ≡ true
unfolding key_le
key_le_total p q s t h = ground (arith, str_le_total s t)

key_le_trans :
    (p q r : ℕ) (s t u : String)
    → key_le p s q t ≡ true
    → key_le q t r u ≡ true
    → key_le p s r u ≡ true
unfolding key_le
key_le_trans p q r s t u h k = ground (arith, str_le_trans s t u)

pub rule_le-IsOrder : IsOrder rule_le
rule_le-IsOrder = record {
  total = λ a b h. key_le_total a.priority b.priority a.rule_id b.rule_id h;
  trans =
      λ a b c h k. key_le_trans a.priority b.priority c.priority a.rule_id b.rule_id c.rule_id h k;
}

pub candidate_le-IsOrder : IsOrder candidate_le
candidate_le-IsOrder = record {
  total = λ a b h. key_le_total a.priority b.priority (first_id a.rule_ids) (first_id b.rule_ids) h;
  trans = λ a b c h k.
      key_le_trans a.priority b.priority c.priority (first_id a.rule_ids) (first_id b.rule_ids)
        (first_id c.rule_ids) h k;
}
