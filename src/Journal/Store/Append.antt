-- ===== src/Journal/Store/Append.antt =====
-- What a call of append comes to.
use optimaler_status.Base.{
  ◌≡◌, ◌≢◌, refl, sym, ap, ◌∙◌, true, false, not, ◌⊎◌, inl, inr, String, List, [], ◌∷◌, ◌++◌,
  length, arith, str_eq, if◌then◌else◌, ◌==◌,
}
use optimaler_status.Base.Dict.{put}
use optimaler_status.Python.Result.{
  Result, ok, err, require-both, require-raised, Error, sequence_conflict_error,
  duplicate_event_error,
}
use optimaler_status.Journal.Events.{Event}
use optimaler_status.Journal.Store.{
  Store, read, next_sequence, knows, check_appendable, set_default, finish, append,
}
use optimaler_status.Journal.Store.History.{read-put, read-set_default}

-- What the check makes sure of.
appendable :
    (e : Event) (es : List Event)
    → check_appendable e es ≡ ok tt
    → (e.sequence ≡ length es) × (knows e.event_id es ≡ false)
unfolding check_appendable
appendable e es h =
    let (p, q) = require-both (e.sequence == length es) (not (knows e.event_id es)) _ _ h in
    (ground (arith, p), ground (arith, q))

-- The event is the last one of its case now, and all else is as before.
pub record Appended (e : Event) (before after : Store) : Type 0 where
  pub next : e.sequence ≡ next_sequence before e.case_id
  pub fresh : knows e.event_id (read before e.case_id) ≡ false
  pub grown :
      (other : String)
      → read after other
        ≡ (if str_eq e.case_id other then read before e.case_id ++ e ∷ [] else read before other)

-- A stale or leaping sequence number, or else an id that the case has, and no read changes.
pub record Refused (e : Event) (before after : Store) (why : Error) : Type 0 where
  pub reason :
      ((why ≡ sequence_conflict_error) × (e.sequence ≢ next_sequence before e.case_id))
      ⊎ ((why ≡ duplicate_event_error)
          × (e.sequence ≡ next_sequence before e.case_id)
          × (knows e.event_id (read before e.case_id) ≡ true))
  pub unchanged : (other : String) → read after other ≡ read before other

-- What a call of append comes to.
abbrev pub Outcome : Event → Store → Store × Result Event → Type 0
Outcome e before (after, ok r) = (r ≡ e) × Appended e before after
Outcome e before (after, err why) = Refused e before after why

refusal :
    (e : Event) (es : List Event) (why : Error)
    → check_appendable e es ≡ err why
    → ((why ≡ sequence_conflict_error) × (e.sequence ≢ length es))
      ⊎ ((why ≡ duplicate_event_error) × (e.sequence ≡ length es) × (knows e.event_id es ≡ true))
unfolding check_appendable
refusal e es why h =
    elim (require-raised (e.sequence == length es) (not (knows e.event_id es)) _ _ why h) [
      | inl (w, p) ↦ inl (w, ground (arith, p))
      | inr (w, p, q) ↦ inr (w, ground (arith, p), ground (arith, q))
    ]

grown_by :
    (e : Event) (store : Store) (other : String)
    → read
        (put
          (set_default store e.case_id)
          e.case_id
          (read (set_default store e.case_id) e.case_id ++ e ∷ []))
        other
      ≡ (if str_eq e.case_id other then read store e.case_id ++ e ∷ [] else read store other)
grown_by e store other =
    rw
      (read-put, read-set_default store e.case_id e.case_id, read-set_default store e.case_id other)
      refl

-- Each call of append either puts the event, with the next sequence number and a fresh id, at the
-- end of its case and leaves the other cases alone, or raises the exception for the condition that
-- fails and leaves what is read of every case as it was.
pub append-Outcome : (e : Event) (store : Store) → Outcome e store (append e store)
unfolding append next_sequence
append-Outcome e store = go (check_appendable e (read opened e.case_id)) refl
  where
    opened : Store
    opened = set_default store e.case_id

    go :
        (r : Result (Unit {0}))
        → check_appendable e (read opened e.case_id) ≡ r
        → Outcome e store (finish e opened r)
    go (err why) h = record {
      reason =
          refusal e (read store e.case_id) why
            (ap (check_appendable e) (sym (read-set_default store e.case_id e.case_id)) ∙ h);
      unchanged = read-set_default store e.case_id;
    }
    go (ok tt) h =
        let same = read-set_default store e.case_id in
        let (p, q) =
          appendable e (read store e.case_id)
            (ap (check_appendable e) (sym (same e.case_id)) ∙ h) in
        (refl, record { next = p; fresh = q; grown = λ other. grown_by e store other })

-- The call, on the outcome of the check of the events before it.
pub append-finish :
    (e : Event) (store : Store) (r : Result (Unit {0}))
    → check_appendable e (read store e.case_id) ≡ r
    → append e store ≡ finish e (set_default store e.case_id) r
unfolding append
append-finish e store r h =
    ap (λ x. finish e (set_default store e.case_id) (check_appendable e x))
      (read-set_default store e.case_id e.case_id)
    ∙ ap (finish e (set_default store e.case_id)) h
