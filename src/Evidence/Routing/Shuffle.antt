-- ===== src/Evidence/Routing/Shuffle.antt =====
-- File order is never load-bearing: shuffled rules arbitrate alike.
use mathlib.Core.List.{Permᴰ}
use mathlib.Core.List.Permᴰ
use optimaler_status.Base.{
  ◌≡◌, refl, ◌≢◌, Bool, true, false, String, List, [], ◌∷◌, All, arith, if◌then◌else◌, subst,
  subst₂, ap, sym, ◌∙◌, not, ℕ,
}
use optimaler_status.Base.Sorting.{sorted-perm, Apart, Distinct}
use optimaler_status.Base.TextOrder.{str_le_total, str_le_antisymm}
use optimaler_status.Python.Result.{ok, bind-ok, ok_injective}
use optimaler_status.Predicate.Compare.{TextLib}
use optimaler_status.Predicate.Ast.{Context, evaluate}
use optimaler_status.Contracts.Config.{RoutingRule}
use optimaler_status.Evidence.Routing.{
  Loaded, RoutingOutcome, key_le, rule_le, holding, matching_rules, candidates_of, outcome_of,
  arbitrate,
}
use optimaler_status.Evidence.Routing.Order.{rule_le-IsOrder}

abbrev DifferentId : Loaded → Loaded → Type 0
DifferentId x y = x.0.rule_id ≢ y.0.rule_id

-- No two rules have the same id.
abbrev pub HasUniqueIds : List Loaded → Type 0
HasUniqueIds [] = Unit
HasUniqueIds (x ∷ xs) = All (DifferentId x) xs × HasUniqueIds xs

key_le_flip : (p q : ℕ) (s t : String) → s ≢ t → key_le p s q t ≡ not (key_le q t p s)
unfolding key_le
key_le_flip p q s t h = ground (arith, str_le_total s t, str_le_total t s, str_le_antisymm s t)

rule_ids-Apart : (a b : RoutingRule) → a.rule_id ≢ b.rule_id → Apart rule_le a b
rule_ids-Apart a b h = (
  key_le_flip a.priority b.priority a.rule_id b.rule_id h,
  key_le_flip b.priority a.priority b.rule_id a.rule_id (λ e. h (sym e)),
)

module _ (t : TextLib) (context : Context) where
  abbrev consider : Bool → RoutingRule → List RoutingRule → List RoutingRule
  consider holds rule rest = if holds then rule ∷ rest else rest

  holding_cons :
      (x : Loaded) (l : List Loaded) (holds : Bool) (rest : List RoutingRule)
      → evaluate t context x.1 ≡ ok holds
      → holding t context l ≡ ok rest
      → holding t context (x ∷ l) ≡ ok (consider holds x.0 rest)
  unfolding holding
  holding_cons (rule, node) l holds rest h k = rw (h, k) refl

  -- What the first entry of the file gave, and the rest.
  record Split (x : Loaded) (l : List Loaded) (rs : List RoutingRule) : Type 0 where
    holds : Bool
    rest : List RoutingRule
    evaluated : evaluate t context x.1 ≡ ok holds
    held : holding t context l ≡ ok rest
    joined : consider holds x.0 rest ≡ rs

  split :
      (x : Loaded) (l : List Loaded) (rs : List RoutingRule)
      → holding t context (x ∷ l) ≡ ok rs
      → Split x l rs
  unfolding holding
  split (rule, node) l rs h =
      let (holds, p, q) = bind-ok (evaluate t context node) _ h in
      let (rest, r, s) = bind-ok (holding t context l) _ q in
      record { holds = holds; rest = rest; evaluated = p; held = r; joined = ok_injective s }

  consider-Permᴰ :
      (holds : Bool) (rule : RoutingRule) {rs qs : List RoutingRule}
      → Permᴰ rs qs
      → Permᴰ (consider holds rule rs) (consider holds rule qs)
  consider-Permᴰ true rule p = Permᴰ.cons refl p
  consider-Permᴰ false rule p = p

  consider_swap :
      (f g : Bool) (a b : RoutingRule) (rs : List RoutingRule)
      → Permᴰ (consider f a (consider g b rs)) (consider g b (consider f a rs))
  consider_swap true true a b rs = Permᴰ.swap refl refl
  consider_swap true false a b rs = Permᴰ.refl (a ∷ rs)
  consider_swap false true a b rs = Permᴰ.refl (b ∷ rs)
  consider_swap false false a b rs = Permᴰ.refl rs

  -- The matching rules of a shuffled file: the same ones, shuffled.
  abbrev Shuffled : List Loaded → List RoutingRule → Type 0
  Shuffled m rs = (qs : List RoutingRule) × (holding t context m ≡ ok qs) × Permᴰ rs qs

  holding_perm :
      {l m : List Loaded} (rs : List RoutingRule)
      → Permᴰ l m
      → holding t context l ≡ ok rs
      → Shuffled m rs
  holding_perm rs Permᴰ.nil h = (rs, h, Permᴰ.refl rs)
  holding_perm rs (Permᴰ.cons {a = x} {l₁ = l} {l₂ = m} e p) h =
      let s = split x l rs h in
      let (qs, k, r) = holding_perm s.rest p s.held in
      subst (λ y. Shuffled (y ∷ m) rs) e
        (
          consider s.holds x.0 qs,
          holding_cons x m s.holds qs s.evaluated k,
          subst (λ z. Permᴰ z (consider s.holds x.0 qs)) s.joined (consider-Permᴰ s.holds x.0 r),
        )
  holding_perm rs (Permᴰ.swap {a = x} {b = y} {l = l} e f) h =
      let s = split x (y ∷ l) rs h in
      let u = split y l s.rest s.held in
      let inner = holding_cons x l s.holds u.rest s.evaluated u.held in
      subst₂ (λ z w. Shuffled (z ∷ w ∷ l) rs) f e
        (
          consider u.holds y.0 (consider s.holds x.0 u.rest),
          holding_cons y (x ∷ l) u.holds _ u.evaluated inner,
          subst (λ z. Permᴰ z (consider u.holds y.0 (consider s.holds x.0 u.rest)))
              (ap (consider s.holds x.0) u.joined ∙ s.joined)
              (consider_swap s.holds u.holds x.0 y.0 u.rest),
        )
  holding_perm rs (Permᴰ.trans p q) h =
      let (qs, k, r) = holding_perm rs p h in
      let (ts, m, v) = holding_perm qs q k in (ts, m, Permᴰ.trans r v)

  holding-All :
      (P : RoutingRule → Type 0) (l : List Loaded) (rs : List RoutingRule)
      → All (λ (x : Loaded). P x.0) l
      → holding t context l ≡ ok rs
      → All P rs
  unfolding holding
  holding-All P [] rs h k = rw (← (ok_injective k)) tt
  holding-All P (x ∷ l) rs h k =
      let s = split x l rs k in
      subst (All P) s.joined (go s.holds s.rest (holding-All P l s.rest h.1 s.held))
    where
      go : (b : Bool) (rest : List RoutingRule) → All P rest → All P (consider b x.0 rest)
      go true rest q = (h.0, q)
      go false rest q = q

  All-Apart :
      (x : Loaded) (l : List Loaded)
      → All (DifferentId x) l
      → All (λ (y : Loaded). Apart rule_le x.0 y.0) l
  All-Apart x [] h = tt
  All-Apart x (y ∷ l) h = (rule_ids-Apart x.0 y.0 h.0, All-Apart x l h.1)

  holding-Distinct :
      (l : List Loaded) (rs : List RoutingRule)
      → HasUniqueIds l
      → holding t context l ≡ ok rs
      → Distinct rule_le rs
  unfolding holding
  holding-Distinct [] rs h k = rw (← (ok_injective k)) tt
  holding-Distinct (x ∷ l) rs h k =
      let s = split x l rs k in
      subst (Distinct rule_le) s.joined (
        go s.holds s.rest (holding-All (Apart rule_le x.0) l s.rest (All-Apart x l h.0) s.held)
          (holding-Distinct l s.rest h.1 s.held))
    where
      go :
          (b : Bool) (rest : List RoutingRule)
          → All (Apart rule_le x.0) rest
          → Distinct rule_le rest
          → Distinct rule_le (consider b x.0 rest)
      go true rest q r = (q, r)
      go false rest q r = r

-- Where no two rules have the same id, a shuffled file gives the very same arbitration: the same
-- units in the same order with the same rules, confidences and conflict, provided that no
-- evaluation raises.
pub arbitrate-perm :
    (t : TextLib) (context : Context) {l m : List Loaded} (o : RoutingOutcome)
    → Permᴰ l m
    → HasUniqueIds l
    → arbitrate t context l ≡ ok o
    → arbitrate t context m ≡ ok o
unfolding arbitrate
arbitrate-perm t context {l} {m} o p h k =
    let (rules, e, f) = bind-ok (matching_rules t context l) _ k in
    let (rs, x, y) = bind-ok (holding t context l) _ e in
    let (qs, z, r) = holding_perm t context rs p x in
    rw z (
      ap (λ (s : List RoutingRule). ok (outcome_of (candidates_of s)))
        (sym (sorted-perm rule_le rule_le-IsOrder r (holding-Distinct t context l rs h x))
          ∙ ok_injective y)
      ∙ f)
