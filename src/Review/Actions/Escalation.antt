-- ===== src/Review/Actions/Escalation.antt =====
-- About a case that was escalated, and its journal.
pub mod Totality
use optimaler_status.Base.{
  ℕ, ◌≡◌, refl, sym, ap, ◌∙◌, Bool, true, false, not, Option, some, String, List, [], ◌∷◌, ◌++◌,
  All, subst, arith, eq_iff, is_some,
}
use optimaler_status.Base.Int.{pos}
use optimaler_status.Python.Value.{py_eq, field_of}
use optimaler_status.Python.Result.{Result, ok_injective, bind-ok, ok, err, ◌>>=◌, ◌>>◌}
use optimaler_status.Contracts.Common.{VersionStamp}
use optimaler_status.Journal.Events.{Event, Actor, notification_invariants}
use optimaler_status.Journal.Store.{
  Store, EventArguments, event_of, read, next_sequence, make_event, emit,
}
use optimaler_status.Journal.Store.History.{IsOf, IsHistory, IsHistory-append}
use optimaler_status.Journal.Store.Append.{Outcome, Appended, append-Outcome}
use optimaler_status.Review.State.{ReviewState, Position, is_open, apply_override, review_state}
use optimaler_status.Review.State.Overrides.{override_of, IsStep, review_state-override}
use optimaler_status.Review.Actions.{
  Correction, refuse_unless, acting, case_id_of, from_value, is_filled, strip, is_override_field,
  arguments_of, override_arguments, emit_given, is_full_review, escalation, escalate_case,
}

past_guard :
    (test : Bool) (rest : Result EventArguments) {a : EventArguments}
    → (refuse_unless test >> rest) ≡ ok a
    → (test ≡ true) × (rest ≡ ok a)
past_guard true rest h = (refl, h)
past_guard false rest h = absurd (cc h)

case_id_of-own :
    (case_id : String) (events : List Event) {found : String}
    → All (IsOf case_id) events
    → case_id_of events ≡ ok found
    → found ≡ case_id
case_id_of-own case_id [] own h = absurd (cc h)
case_id_of-own case_id (e ∷ events) own h = sym (ok_injective h) ∙ own.0

-- What override_case passes on to emit.
abbrev Passed : ReviewState → Correction → EventArguments → Type 0
Passed s c a = (is_open s ≡ true) × ((actor : Actor) × (arguments_of s c actor ≡ a))

override_arguments-Passed :
    (s : ReviewState) (c : Correction) {a : EventArguments}
    → override_arguments s c ≡ ok a
    → Passed s c a
unfolding override_arguments
override_arguments-Passed s c h =
    let given : Actor → Result EventArguments = λ actor. ok (arguments_of s c actor) in
    let acted = acting c.unit_id >>= given in
    let changes = not (py_eq (from_value s c.name) c.to_value) in
    let third = refuse_unless changes >> acted in
    let second = refuse_unless (is_filled (strip c.reason)) >> third in
    let (waits, h1) =
      past_guard (is_open s) (refuse_unless (is_override_field c.name) >> second) h in
    let (_, h2) = past_guard (is_override_field c.name) second h1 in
    let (_, h3) = past_guard (is_filled (strip c.reason)) third h2 in
    let (_, h4) = past_guard changes acted h3 in
    let (actor, _, h5) = bind-ok (acting c.unit_id) given h4 in (waits, (actor, ok_injective h5))

emit-Appended :
    (fresh : String) (now : ℕ) (s : ReviewState) (c : Correction) (actor : Actor) (store : Store)
    {after : Store} {e : Event}
    → emit fresh now (arguments_of s c actor) store ≡ (after, ok e)
    → (e ≡ event_of fresh now (next_sequence store s.case_id) (arguments_of s c actor))
      × Appended
          (event_of fresh now (next_sequence store s.case_id) (arguments_of s c actor))
          store
          after
unfolding emit make_event notification_invariants
emit-Appended fresh now s c actor store h =
    let event = event_of fresh now (next_sequence store s.case_id) (arguments_of s c actor) in
    subst (Outcome event store) h (append-Outcome event store)

emit_given-ok :
    (fresh : String) (now : ℕ) (store : Store) (r : Result EventArguments) {after : Store}
    {e : Event}
    → emit_given fresh now store r ≡ (after, ok e)
    → (a : EventArguments) × (r ≡ ok a) × (emit fresh now a store ≡ (after, ok e))
emit_given-ok fresh now store (err why) h = absurd (cc (ap (λ p. p.1) h))
emit_given-ok fresh now store (ok a) h = (a, refl, h)

-- What an escalation left behind.
pub record IsEscalated (before after : ReviewState) : Type 0 where
  pub waited : is_open before ≡ true
  pub below : is_full_review before.tier ≡ false
  pub tier : after.tier ≡ some (pos 3)
  pub escalated : after.escalated ≡ true
  pub unit_id : after.unit_id ≡ before.unit_id
  pub machine_tier : after.machine_tier ≡ before.machine_tier
  pub waits : is_open after ≡ true

module _ (versions : VersionStamp) (unit_id reason : String) (at : Option ℕ) where
  abbrev pub wanted : Correction
  wanted = escalation versions unit_id reason at

  module _ (fresh : String) (now : ℕ) (store : Store) (case_id : String) where
    abbrev pub log : List Event
    log = read store case_id

    abbrev pub before : ReviewState
    before = review_state case_id log

    abbrev journaled : Actor → Event
    journaled actor =
        event_of fresh now (next_sequence store case_id) (arguments_of before wanted actor)

    escalation_step :
        (actor : Actor) (after : ReviewState)
        → is_open before ≡ true
        → is_full_review before.tier ≡ false
        → is_open after ≡ is_open before
        → IsStep (override_of (journaled actor)) before after
        → IsEscalated before after
    unfolding apply_override field_of py_eq
    escalation_step actor after waits below still step = record {
      waited = waits;
      below = below;
      tier = ap (λ (p : Position). p.tier) step.moved;
      escalated = ap (λ (p : Position). p.escalated) step.moved ∙ ground arith;
      unit_id = ap (λ (p : Position). p.unit_id) step.moved;
      machine_tier = step.machine_tier;
      waits = still ∙ waits;
    }

    still_open :
        (events : List Event)
        → (review_state case_id events).confirmed_at ≡ before.confirmed_at
        → is_open (review_state case_id events) ≡ is_open before
    unfolding review_state
    still_open events h = ap (λ t. not (is_some t)) h

    Appended-IsEscalated :
        (actor : Actor) {after : Store}
        → IsHistory case_id log
        → is_open before ≡ true
        → is_full_review before.tier ≡ false
        → Appended (journaled actor) store after
        → IsEscalated before (review_state case_id (read after case_id))
    unfolding next_sequence review_state
    Appended-IsEscalated actor {after} history waits below appended =
        let event = journaled actor in
        let longer = IsHistory-append case_id log event history appended.next appended.fresh refl in
        let step = review_state-override case_id log event longer refl in
        let grown : read after case_id ≡ log ++ event ∷ [] =
          ground (arith, appended.grown case_id, (eq_iff case_id case_id).1 refl) in
        let Left : List Event → Type 0 =
          λ events. IsEscalated before (review_state case_id events) in
        subst Left (sym grown) (
          escalation_step actor _ waits below (still_open (log ++ event ∷ []) step.confirmed_at)
            step)

    from_log :
        (found : String) {after : Store} {e : Event} (a : EventArguments)
        → found ≡ case_id
        → IsHistory case_id log
        → (refuse_unless (not (is_full_review (review_state found log).tier))
            >> override_arguments (review_state found log) wanted)
          ≡ ok a
        → emit fresh now a store ≡ (after, ok e)
        → IsEscalated before (review_state case_id (read after case_id))
    unfolding review_state
    from_log found {after} {e} a same history given emitted =
        let Given : String → Type 0 = λ k.
          (refuse_unless (not (is_full_review (review_state k log).tier))
            >> override_arguments (review_state k log) wanted)
          ≡ ok a in
        let (below, passed) =
          past_guard (not (is_full_review before.tier)) (override_arguments before wanted)
            (subst Given same given) in
        let (waits, (actor, args)) = override_arguments-Passed before wanted passed in
        let call =
          subst (λ (b : EventArguments). emit fresh now b store ≡ (after, ok e)) (sym args)
            emitted in
        let (_, appended) = emit-Appended fresh now before wanted actor store call in
        Appended-IsEscalated actor history waits (ground (arith, below)) appended

    -- Where escalate_case returns on the log of a case, the case was open and not in full review
    -- before, and is open and in full review, escalated, after it, in the journal that it left; the
    -- unit of the case and the machine's tier are as they were.
    pub escalate_case-IsEscalated :
        {after : Store} {e : Event}
        → IsHistory case_id log
        → escalate_case fresh now versions unit_id reason at log store ≡ (after, ok e)
        → IsEscalated before (review_state case_id (read after case_id))
    unfolding escalate_case
    escalate_case-IsEscalated history h =
        let Body : String → Result EventArguments = λ k.
          refuse_unless (not (is_full_review (review_state k log).tier))
          >> override_arguments (review_state k log) wanted in
        let (a, args, emitted) = emit_given-ok fresh now store (case_id_of log >>= Body) h in
        let (found, named, given) = bind-ok (case_id_of log) Body args in
        from_log found a (case_id_of-own case_id log history.own named) history given emitted
