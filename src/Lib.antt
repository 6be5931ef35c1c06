-- ===== src/Lib.antt =====
-- EingangsLotse: an intake assistant that prepares triage decisions and never takes one.
--
-- An inbound item becomes an envelope, its identity is sealed, values are extracted, the evidence
-- plane derives the procedure, routes by declarative rules and checks completeness, a shadow scorer
-- adds anomaly evidence, and the decision plane assigns one of three tiers with reasons. Every
-- stage appends events to a journal, from which the state of a case is folded, and humans review,
-- confirm and override in the same journal. Modelled here are the predicate language that all
-- declarative configuration shares, the decision plane, the routing rules, the derivation of the
-- procedure and the completeness check of the evidence plane, the journal, the normalized text of an
-- item, the verification of extracted values against it, and the placeholders of sealed values.
--
-- Files, and the code they model:
-- - Base, Python: what the models share. Base has lists, dictionaries in insertion order, the stable
--   sort by a key and the order of strings. Python has exceptions as values (Result), the objects of
--   YAML and JSON with Python's == (Value), and doubles (Float).
-- - Predicate: engine/predicate.py. Compare: _as_number, _equal, _contained, compare,
--   _compare_text. Ast: Comparison, AllOf, AnyOf and evaluate, with the early ends of all() and
--   any() and with exceptions. Parse: parse_op, _compiled, parse_predicate.
-- - Contracts: schemas/common.py, config.py, evidence.py, anomaly.py, decision.py, envelope.py and
--   textlayer.py, as far as the other parts read them, with the validators of QualifyingCondition, DowngradeCondition,
--   AnomalyEvidence and DecisionRecord.
-- - Decide: engine/decide/interpreter.py. Fields: admitted_routing, resolve_qualifying_fields,
--   _routed_unit. Rows: _evaluate_rows. Downgrades: evaluate_downgrades and the fold of its
--   outcomes over the tier. Sample: audit_sample_draw, evaluate_audit_sample,
--   is_audit_sample_reason. Record: decide, with
--   the rail that turns every exception into tier 3.
-- - Evidence/Routing: engine/evidence/routing.py and rule_order_key of engine/config_loader.py:
--   RoutingEngine, _candidates, RoutingOutcome. Evidence/Derive: engine/evidence/derive.py.
--   Evidence/ClearCut: engine/evidence/clearcut.py.
-- - Evidence/Completeness: engine/evidence/completeness.py. Evaluate: evaluate_completeness,
--   _resolve, _check_requirement. Checks and CrossField: validation_problem and its checks. Dates:
--   datetime.date and _years_between. Messages: what the sentence of a gap is rendered from.
-- - Journal: schemas/events.py (Events), engine/journal/store.py (Store: InMemoryJournalStore,
--   make_event, emit; Files: JsonlJournalStore), engine/journal/projection.py (Projection: derive_case_state).
-- - TextLayer: engine/textlayer. Normalize: normalize.py, with _emit as a step on a cursor and
--   _segments. Translate: translate_span. Layer: layer.py.
-- - Review: engine/review. State: state.py. Queues: which cases build_queue and queue_ids of queues.py
--   select, and in which order. Actions: override_case and escalate_case of actions.py.
-- - Extract: engine/extract. Records: proposal.py, schemas/extraction.py and the policies of
--   engine/config_loader.py. Verify: verify.py. Mapper: mapper.py and scalar_text of
--   engine/redact/seal.py. Orchestrate: extract_all of orchestrate.py.
-- - Redact: engine/redact. Placeholders: the syntax and parse_placeholder of placeholders.py.
--   Registry: PlaceholderRegistry. Witness: Witness of seal.py.
-- The modules below these hold proofs, named for what they prove, and Tests the runs.
--
-- How they interact: arbitrate gives the suggestions of an evidence record, decide reads them after
-- admission by source, and both read fields by compare; emit is how a stage writes to the journal,
-- and the projection reads what append wrote. The layer that is built of an envelope is what
-- proposals are verified against, the records of extraction are what the completeness check reads,
-- and a value that is a placeholder is resolved by the witness first. The queues stand on the states
-- under review, which are folded out of the events that the journal's store reads.
--
-- Conventions of the models:
-- - A float is infinite, no number, or an exact multiple of 2^-1074; float(int) rounds to 53 bits,
--   half to even, and raises OverflowError from 2^1024 - 2^970 on. The bit length that rounding needs is
--   computed on 1024 steps of fuel, which suffice below that bound.
-- - x / 100.0 is rounded likewise, to a multiple of 2^-1074 below 2^-1022; the bit length has 2200 steps
--   of fuel there, for the at most 2098 bits of a float.
-- - An exception is a value of Result, with the class of the exception. decide catches all.
-- - Unicode case folding and Python's re are one parameter (TextLib), blake2b is another (Digest),
--   and so are the fresh id and the clock of make_event, and
--   the JSON library (Json) and the test of a case id of the store of files. The file of a case is
--   its text by code points.
-- - Texts that are taken apart are lists of code points. unicodedata and str.isalpha are one parameter
--   (Unicode), rapidfuzz, str.casefold and round another (Matching), and date.fromisoformat,
--   re.match, str.isdigit and the value of a digit a third (Parsers). The source of random tokens is
--   the function that gives its n-th draw.
-- - The pass of normalize over a text has as much fuel as the text has code points, which suffices
--   since each step takes at least one; mint draws at most 64 times, as the code does.
-- - extract_all is given the proposals of its readers, and a queue the function that gives the hours
--   between two timestamps (Hours).
-- - Keys of mappings are strings. A timestamp is a number of microseconds. A sequence number and a
--   priority are natural numbers, as their validators demand.
-- - The German sentence of a reason, a conflict or a derivation is kept as the data that it is
--   rendered from. An override's entry in the case state keeps the payload beside the three keys
--   that the code writes over it.
-- - A refused append in memory still creates the empty list of its case, as setdefault does.
--
-- Not modelled: the channels; of the redaction boundary sealing, the vault, the policies and the
-- recognizers; of extraction the replay reader and the calls of a language model; the classifier and
-- the shadow scorer, the confirmation of a case, the metrics of reviews, the flags and budgets of queue rows, drafts, notices and dispatch, the loader's cross-file
-- checks, the web application, the evaluation harness and the corpus generators. Of these, the web
-- application, the harness and the generators are input, output and rendering around the parts above.
pub mod Base
pub mod Python
pub mod Predicate
pub mod Contracts
pub mod Decide
pub mod Evidence
pub mod Journal
pub mod TextLayer
pub mod Review
pub mod Redact
pub mod Extract
