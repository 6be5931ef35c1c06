-- ===== src/Journal/Store/Growth.antt =====
-- What a journal holds after any calls of append.
use mathlib.Core.List.{append-nil, append_assoc}
use optimaler_status.Base.{
  ◌≡◌, refl, sym, ap, ◌∙◌, false, inl, inr, String, List, [], ◌∷◌, ◌++◌, str_eq, eq_iff,
  if◌then◌else◌, Bool-cases, subst,
}
use optimaler_status.Python.Result.{Result, ok, err}
use optimaler_status.Journal.Events.{Event}
use optimaler_status.Journal.Store.{Store, read, next_sequence, append, append_all}
use optimaler_status.Journal.Store.History.{IsHistory, IsJournal, IsHistory-append}
use optimaler_status.Journal.Store.Append.{Appended, Outcome, append-Outcome}

module _ {e : Event} {before after : Store} (a : Appended e before after) where
  pub grown_same : read after e.case_id ≡ read before e.case_id ++ e ∷ []
  grown_same =
      a.grown e.case_id
      ∙ ap (λ b. if b then read before e.case_id ++ e ∷ [] else read before e.case_id)
          ((eq_iff e.case_id e.case_id).1 refl)

  pub grown_other :
      (other : String) → str_eq e.case_id other ≡ false → read after other ≡ read before other
  grown_other other h =
      a.grown other ∙ ap (λ b. if b then read before e.case_id ++ e ∷ [] else read before other) h

  pub Appended-IsHistory : (c : String) → IsHistory c (read before c) → IsHistory c (read after c)
  unfolding next_sequence
  Appended-IsHistory c h = elim (Bool-cases (str_eq e.case_id c)) [
    | inl p ↦
        let same : e.case_id ≡ c = (eq_iff e.case_id c).0 p in
        subst (λ k. IsHistory k (read after k)) same
          (subst (IsHistory e.case_id) (sym grown_same) (
            IsHistory-append e.case_id (read before e.case_id) e
              (subst (λ k. IsHistory k (read before k)) (sym same) h) a.next a.fresh refl))
    | inr p ↦ subst (IsHistory c) (sym (grown_other c p)) h
  ]

  Appended-more : (c : String) → (more : List Event) × (read after c ≡ read before c ++ more)
  Appended-more c = elim (Bool-cases (str_eq e.case_id c)) [
    | inl p ↦
        subst (λ k. (more : List Event) × (read after k ≡ read before k ++ more))
          ((eq_iff e.case_id c).0 p) (e ∷ [], grown_same)
    | inr p ↦ ([], grown_other c p ∙ sym (append-nil (read before c)))
  ]

Outcome-IsJournal :
    (e : Event) (before : Store) (o : Store × Result Event)
    → Outcome e before o
    → IsJournal before
    → IsJournal o.0
Outcome-IsJournal e before (after, ok r) o h c = Appended-IsHistory o.1 c (h c)
Outcome-IsJournal e before (after, err why) o h c = subst (IsHistory c) (sym (o.unchanged c)) (h c)

Outcome-more :
    (e : Event) (before : Store) (o : Store × Result Event) (c : String)
    → Outcome e before o
    → (more : List Event) × (read o.0 c ≡ read before c ++ more)
Outcome-more e before (after, ok r) c o = Appended-more o.1 c
Outcome-more e before (after, err why) c o = ([], o.unchanged c ∙ sym (append-nil (read before c)))

append_all_from-IsJournal :
    (store : Store) (events : List Event) → IsJournal store → IsJournal (append_all store events)
unfolding append_all
append_all_from-IsJournal store [] h = h
append_all_from-IsJournal store (e ∷ events) h =
    append_all_from-IsJournal (append e store).0 events
      (Outcome-IsJournal e store (append e store) (append-Outcome e store) h)

-- Whatever events are offered to an empty store, in any order and by any number of writers, the
-- log of each case then has the sequence numbers 0, 1, 2 and so on without a gap, no event id
-- twice, and only events of that case.
pub append_all-IsJournal : (events : List Event) → IsJournal (append_all [] events)
unfolding read
append_all-IsJournal events =
    append_all_from-IsJournal [] events (λ c. record { in_sequence = tt; unique = tt; own = tt })

-- No later call changes or removes what was read of a case: the log only gets longer.
pub append_all-more :
    (store : Store) (events : List Event) (case_id : String)
    → (more : List Event) × (read (append_all store events) case_id ≡ read store case_id ++ more)
unfolding append_all
append_all-more store [] c = ([], sym (append-nil (read store c)))
append_all-more store (e ∷ events) c =
    let (first, p) = Outcome-more e store (append e store) c (append-Outcome e store) in
    let (rest, q) = append_all-more (append e store).0 events c in
    (first ++ rest, q ∙ ap (λ es. es ++ rest) p ∙ append_assoc (read store c) first rest)
