-- ===== src/Journal/Store/Writers.antt =====
-- Writers of one case: a race for a sequence number, and emit.
use optimaler_status.Base.{
  ℕ, suc, ◌≡◌, ◌≢◌, sym, ap, ◌∙◌, false, inl, inr, String, [], ◌∷◌, length, length-append, arith,
}
use optimaler_status.Python.Result.{Result, ok, err, bind-ok, ok_injective, sequence_conflict_error}
use optimaler_status.Journal.Events.{Event}
use optimaler_status.Journal.Store.{Store, read, next_sequence, knows, append}
use optimaler_status.Journal.Store.Append.{Appended, Outcome, append-Outcome}
use optimaler_status.Journal.Store.{EventArguments, event_of, make_event, emit}
use optimaler_status.Journal.Events.{notification_invariants}
use optimaler_status.Journal.Store.Growth.{grown_same}

Outcome-Appended :
    {e : Event} {before : Store} (o : Store × Result Event)
    → Outcome e before o
    → (r : Event) → o.1 ≡ ok r
    → Appended e before o.0
Outcome-Appended (after, ok x) o r h = o.1
Outcome-Appended (after, err why) o r h = absurd (cc h)

next_sequence-Appended :
    {e : Event} {before after : Store}
    → Appended e before after
    → next_sequence after e.case_id ≡ suc e.sequence
unfolding next_sequence
next_sequence-Appended {e} {before} a =
    omega (arith, a.next, ap length (grown_same a), length-append (read before e.case_id) (e ∷ []))

stale :
    (e : Event) (store : Store) (o : Store × Result Event)
    → Outcome e store o
    → e.sequence ≢ next_sequence store e.case_id
    → o.1 ≡ err sequence_conflict_error
stale e store (after, ok r) o h = absurd (h o.1.next)
stale e store (after, err why) o h = elim o.reason [
  | inl (w, p) ↦ ap err w
  | inr (w, p, q) ↦ absurd (h p)
]

-- Two writers read the same state of a case and build their event on it: where the first one's
-- event is appended, the second one's is refused with the exception for a sequence conflict.
pub append_race :
    (a b : Event) (store : Store)
    → a.case_id ≡ b.case_id
    → a.sequence ≡ b.sequence
    → (append a store).1 ≡ ok a
    → (append b (append a store).0).1 ≡ err sequence_conflict_error
append_race a b store c n h =
    let next =
      next_sequence-Appended (Outcome-Appended (append a store) (append-Outcome a store) a h) in
    stale b (append a store).0 (append b (append a store).0) (append-Outcome b (append a store).0)
      (λ e. omega (arith, n, e, next, ap (next_sequence (append a store).0) c))

-- What make_event fills in.
made :
    (fresh : String) (now n : ℕ) (a : EventArguments) (event : Event)
    → make_event fresh now n a ≡ ok event
    → (event.event_id ≡ fresh) × (event.sequence ≡ n) × (event.case_id ≡ a.case_id)
unfolding make_event
made fresh now n a event h =
    let (u, p, q) = bind-ok (notification_invariants (event_of fresh now n a)) _ h in
    let same = sym (ok_injective q) in
    (
      ap (λ (e : Event). e.event_id) same,
      ap (λ (e : Event). e.sequence) same,
      ap (λ (e : Event). e.case_id) same,
    )

-- Where the event passes its validator and its id is not yet in the case, emit never raises: it
-- puts the event, with the next sequence number, at the end of the case.
pub emit-Appended :
    (fresh : String) (now : ℕ) (a : EventArguments) (store : Store) (event : Event)
    → make_event fresh now (next_sequence store a.case_id) a ≡ ok event
    → knows fresh (read store a.case_id) ≡ false
    → ((emit fresh now a store).1 ≡ ok event) × Appended event store (emit fresh now a store).0
unfolding emit
emit-Appended fresh now a store event h k =
    let (i, n, c) = made fresh now (next_sequence store a.case_id) a event h in
    rw h (
      go (append event store) (append-Outcome event store)
        (ap (λ x. knows x (read store event.case_id)) i
          ∙ ap (λ x. knows fresh (read store x)) c
          ∙ k)
        (n ∙ ap (next_sequence store) (sym c)))
  where
    go :
        (o : Store × Result Event)
        → Outcome event store o
        → knows event.event_id (read store event.case_id) ≡ false
        → event.sequence ≡ next_sequence store event.case_id
        → (o.1 ≡ ok event) × Appended event store o.0
    go (after, ok r) o q n = (ap ok o.0, o.1)
    go (after, err why) o q n = elim o.reason [
      | inl (w, p) ↦ absurd (p n)
      | inr (w, p, r) ↦ absurd (cc (q, r))
    ]
