-- ===== src/Lib.antt =====
-- LUNATIC-IT is a security event platform; its core runs under backend/app. Events are normalized,
-- detection rules are evaluated on each of them, detections and events are correlated into chains
-- of stages, and what fires becomes an alert, which analysts take through a lifecycle, into
-- incidents, and answer with playbooks. This library models that path and states what makes it
-- correct.
--
-- The parts, and how they meet:
--
-- - Audit.antt: backend/app/audit/service.py. `record_audit_event` adds a row; the services call it
--   in the transaction of the change.
-- - Sequences.antt and Sequences/: the counters behind display ids, `next_display_id` of
--   backend/app/services/alerts.py with `AlertSequence` of backend/app/models/alerts.py.
-- - Alerts.antt and Alerts/: backend/app/services/alerts.py and backend/app/models/alerts.py. Model
--   has the rows and the transition table, Dedup `find_duplicate` and `create_or_update`, Lifecycle
--   `get_alert`, `transition`, `assign` and `add_note`, Queries the listings and counts. The tables
--   are the record `AlertDb`; every operation takes them and returns them. Run puts the operations
--   together into `apply` and the reachable states `Reach`, and Effect says once, for all of them,
--   what a call may have done. The other files prove from that what they are named for.
-- - Detection.antt and Detection/: backend/app/detection. Value has documents, Schema the rules and
--   their validators (schema.py), Paths, Operators and Conditions the evaluation (conditions.py),
--   Suppression `InMemorySuppressionStore` and Engine `StreamingEngine` (engine.py); Evaluation and
--   Firing state what evaluation means and when a rule fires, Raising what makes a condition raise.
-- - Correlation.antt and Correlation/: backend/app/correlation. Schema has rules with
--   `_check_shape`, hits and inputs (schema.py, state.py), State `InMemoryCorrelationStateStore`
--   (state.py), Time `effective_time`, Completion `_ordered_completion` and
--   `_unordered_completion`, Evaluation `_evaluate` (engine.py), which claims from
--   Detection/Suppression, Process `_process_rule` and `process`, and Inputs `event_input`,
--   `detection_input` and `_graft_entity`. Chain says what a chain is, apart from the search for
--   it, by what Selection has on hits chosen in order; Order and Membership are about the hits of a
--   window, Claims about the suppression of a match, Windows about what the evaluation of a rule
--   reports, Frames about the chains that an input may touch, and Grafts about what is grafted.
-- - Incidents.antt and Incidents/: backend/app/services/incidents.py and
--   backend/app/models/incidents.py. Model has the rows and the transition table, Links the
--   timeline and what is linked to an incident, Opening `create_incident`, Lifecycle `transition`
--   and `update_incident`, Work notes and tasks, Queries the reads. Run puts the calls together,
--   with the look-up that backend/app/api/incidents.py makes before a link. Writes has the kinds of
--   write that there are, and Effect says that every call is a sequence of them; History,
--   Consistency and Reached, Timeline, Ownership and Owned prove by cases on the writes what
--   Induction carries to all reachable tables, Evidence is about `evidence_event_ids`, and Frame
--   about what calls leave alone.
-- - Playbooks.antt and Playbooks/: backend/app/playbooks, backend/app/services/playbooks.py and
--   backend/app/models/playbooks.py. Model has the rows and the interface of actions, `Action` and
--   `Platform`; Gate `require_approved` and `_verify_grant`, Progress what a step does to a run,
--   Engine `run_playbook` step by step, Service playbooks and runs, Approvals the decisions,
--   Install the shipped playbooks and their loading, Run the calls and the reachable tables.
--   Targets, Actions and Registry are the actions of backend/app/playbooks/actions.py over the
--   tables of Incidents. Turns says what one pass of the loop may do and gives induction over the
--   passes; Guards, Underway, Kept, Guarded and Reached are about approvals and the order of
--   results, DryRun about dry runs, Settles about how a call ends, and Confined about what plain
--   actions leave alone.
-- - Auth.antt and Auth/: backend/app/services/auth.py, backend/app/models/identity.py and
--   backend/app/auth. Login has `authenticate`, Sessions the rotation and revocation of refresh
--   tokens and the second factor, Run the calls and what they do to the sessions, Rotation what
--   becomes of a token; Permissions has the catalog and the matrix of roles and Tiers compares
--   roles.
-- - Common.antt and Common/: tests, lists, tables, integers and decimal numerals over the native
--   numbers.
-- - Examples.antt under Alerts, Detection, Correlation, Incidents, Playbooks and Auth run the code
--   at concrete inputs.
--
-- Parameters of the model: the clock, the year, and fresh ids are arguments of the calls that read
-- them. Numbers of a document are of any type, and Python's float, str, repr, casefold, strip and
-- decimal digits, `ipaddress`, `regex` and `datetime.fromisoformat` are functions given by the
-- record `Runtime` or as arguments. A UUID is a number, a time is in microseconds in the alert and
-- incident tables and in milliseconds in correlation, a JSON column is its text, or one constructor
-- for each form that the code writes (`Detail` of a timeline entry, `Details` of a step). The
-- platform that the engine works on is a parameter of its theorems; the actions fill it. Indicator
-- look-up, `ipaddress` and the folding of e-mail addresses are the record `Services`; hashing, TOTP
-- and encryption are the record `Primitives`, and a digest is a number. The calls on the tables run
-- one after another, as a sequence of operations; the code takes row locks for the counters and for
-- folding an alert, but none to rotate a refresh token, so concurrent rotations are outside the
-- model; a call that raises leaves the tables as they were, since its transaction is rolled back.
-- No function runs on fuel: the loops are over lists and documents, and end by structure.
--
-- Not modelled: the other services, the workers, the HTTP interface, and the Redis stores, whose
-- atomic commands are Redis's; metrics and logging; random ids of matches and the copies of event
-- fields that they carry as evidence.
pub mod Common
pub mod Audit
pub mod Alerts
pub mod Sequences
pub mod Detection
pub mod Correlation
pub mod Incidents
pub mod Playbooks
pub mod Auth
