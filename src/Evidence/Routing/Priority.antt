-- ===== src/Evidence/Routing/Priority.antt =====
-- The winner of the arbitration, among the rules that match.
use optimaler_status.Base.{
  ℕ, ◌≤◌, ◌≡◌, refl, true, inl, inr, String, List, [], ◌∷◌, ◌++◌, map, All, arith, if◌then◌else◌,
  sym, ap, ◌∙◌, Bool-cases, str_eq, eq_iff, ltb,
}
use optimaler_status.Base.Sorting.{sorted_first, sorted}
use optimaler_status.Python.Result.{ok, bind-ok, ok_injective}
use optimaler_status.Predicate.Compare.{TextLib}
use optimaler_status.Predicate.Ast.{Context}
use optimaler_status.Contracts.Config.{RoutingRule}
use optimaler_status.Evidence.Routing.{
  Loaded, UnitCandidate, RoutingOutcome, Group, key_le, candidate_le, add_to_group, group_by_unit,
  least_priority, candidate_of, candidates_of, matching_rules, arbitrate,
}
use optimaler_status.Evidence.Routing.Order.{candidate_le-IsOrder}

-- The priority of a rule is not below the least of its group.
least-le-start : (p : ℕ) (rules : List RoutingRule) → least_priority p rules ≤ p
unfolding least_priority
least-le-start p [] = omega arith
least-le-start p (r ∷ rules) =
    ground (arith, least-le-start (if ltb r.priority p then r.priority else p) rules)

-- Some group of the list is for this unit, with a least priority of at most p.
data Served (unit : String) (p : ℕ) : List Group → Type 0 where
  served_here :
      {u : String} {r : RoutingRule} {hits : List RoutingRule} {gs : List Group}
      → u ≡ unit
      → least_priority r.priority hits ≤ p
      → Served unit p ((u, r ∷ hits) ∷ gs)
  served_later : {g : Group} {gs : List Group} → Served unit p gs → Served unit p (g ∷ gs)

least-append :
    (p : ℕ) (hits : List RoutingRule) (r : RoutingRule)
    → (least_priority p (hits ++ r ∷ []) ≤ least_priority p hits)
      × (least_priority p (hits ++ r ∷ []) ≤ r.priority)
unfolding least_priority
least-append p [] r = ground arith
least-append p (h ∷ hits) r = least-append (if ltb h.priority p then h.priority else p) hits r

Served-add :
    (unit : String) (p : ℕ) (r : RoutingRule) (gs : List Group)
    → Served unit p gs
    → Served unit p (add_to_group r gs)
unfolding add_to_group
Served-add unit p r ((u, h ∷ hits) ∷ gs) (served_here e k) =
    elim (Bool-cases (str_eq u r.unit_id)) [
      | inl q ↦ rw q (served_here e (omega (arith, k, least-append h.priority hits r)))
      | inr q ↦ rw q (served_here e k)
    ]
Served-add unit p r ((u, hits) ∷ gs) (served_later s) = elim (Bool-cases (str_eq u r.unit_id)) [
  | inl q ↦ rw q (served_later s)
  | inr q ↦ rw q (served_later (Served-add unit p r gs s))
]
Served-add unit p r [] s = elim s [ ]

-- A rule joins the group of its unit.
Served-joined :
    (r : RoutingRule) {u : String} (hits : List RoutingRule) (gs : List Group)
    → u ≡ r.unit_id
    → Served r.unit_id r.priority ((u, hits ++ r ∷ []) ∷ gs)
Served-joined r [] gs e = served_here e (least-le-start r.priority [])
Served-joined r (h ∷ hits) gs e = served_here e (least-append h.priority hits r).1

Served-rule : (r : RoutingRule) (gs : List Group) → Served r.unit_id r.priority (add_to_group r gs)
unfolding add_to_group
Served-rule r [] = served_here refl (least-le-start r.priority [])
Served-rule r ((u, hits) ∷ gs) = elim (Bool-cases (str_eq u r.unit_id)) [
  | inl q ↦ rw q (Served-joined r hits gs ((eq_iff _ _).0 q))
  | inr q ↦ rw q (served_later (Served-rule r gs))
]

Served-group :
    (unit : String) (p : ℕ) (gs : List Group) (rules : List RoutingRule)
    → Served unit p gs
    → Served unit p (group_by_unit gs rules)
unfolding group_by_unit
Served-group unit p gs [] s = s
Served-group unit p gs (r ∷ rules) s =
    Served-group unit p (add_to_group r gs) rules (Served-add unit p r gs s)

abbrev ServedBy : List Group → RoutingRule → Type 0
ServedBy gs r = Served r.unit_id r.priority gs

-- Each rule is in the group of its unit.
group_by_unit-Served :
    (gs : List Group) (rules : List RoutingRule) → All (ServedBy (group_by_unit gs rules)) rules
unfolding group_by_unit
group_by_unit-Served gs [] = tt
group_by_unit-Served gs (r ∷ rules) = (
  Served-group r.unit_id r.priority (add_to_group r gs) rules (Served-rule r gs),
  group_by_unit-Served (add_to_group r gs) rules,
)

key_le-priority : (p q : ℕ) (s t : String) → key_le p s q t ≡ true → p ≤ q
unfolding key_le
key_le-priority p q s t h = ground (arith, h)

-- A candidate before every group's is not behind a rule that a group serves.
Served-le :
    (w : UnitCandidate) {unit : String} {p : ℕ} (gs : List Group)
    → All (λ (c : UnitCandidate). candidate_le w c ≡ true) (map candidate_of gs)
    → Served unit p gs
    → w.priority ≤ p
unfolding candidate_of
Served-le w ((u, r ∷ hits) ∷ gs) h (served_here e k) =
    let first : w.priority ≤ least_priority r.priority hits = key_le-priority _ _ _ _ h.0 in
    omega (arith, first, k)
Served-le w (g ∷ gs) h (served_later s) = Served-le w gs h.1 s
Served-le w [] h s = elim s [ ]

abbrev pub NotAhead : UnitCandidate → RoutingRule → Type 0
NotAhead w r = w.priority ≤ r.priority

All-NotAhead :
    (w : UnitCandidate) (gs : List Group) (rules : List RoutingRule)
    → All (λ (c : UnitCandidate). candidate_le w c ≡ true) (map candidate_of gs)
    → All (ServedBy gs) rules
    → All (NotAhead w) rules
All-NotAhead w gs [] h k = tt
All-NotAhead w gs (r ∷ rules) h k = (Served-le w gs h k.0, All-NotAhead w gs rules h k.1)

-- The winner of an arbitration: no rule that matches has a lower priority number than it.
pub arbitrate_winner :
    (t : TextLib) (context : Context) (loaded : List Loaded) (o : RoutingOutcome)
    (rules : List RoutingRule) (w : UnitCandidate) (rest : List UnitCandidate)
    → arbitrate t context loaded ≡ ok o
    → matching_rules t context loaded ≡ ok rules
    → o.candidates ≡ w ∷ rest
    → All (NotAhead w) rules
unfolding arbitrate candidates_of
arbitrate_winner t context loaded o rules w rest h k e =
    let (qs, m, f) = bind-ok (matching_rules t context loaded) _ h in
    let same : qs ≡ rules = ok_injective (sym m ∙ k) in
    let gs = group_by_unit [] rules in
    let found : sorted candidate_le (map candidate_of gs) ≡ w ∷ rest =
      ap (λ (x : List RoutingRule). candidates_of x) (sym same)
      ∙ ap (λ (x : RoutingOutcome). x.candidates) (ok_injective f)
      ∙ e in
    All-NotAhead w gs rules
      (sorted_first candidate_le candidate_le-IsOrder (map candidate_of gs) found)
      (group_by_unit-Served [] rules)
