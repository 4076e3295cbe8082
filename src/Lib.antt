-- ===== src/Lib.antt =====
-- A case-automation server for law and consulting practices: workflows made of steps that a
-- deployment registers, which stop at gates for a person's approval; connectors to vendors; an audit
-- log that chains hashes; checks of what goes out to clients; the routing of documents into folders;
-- and deadlines that are computed from rules.
--
-- How the parts interact. A trigger (src/cam/core/orchestrator/triggers.py) makes a run and its steps
-- in the run store (store.py). The engine (engine.py) takes a run through its steps with the handlers
-- of its definition (dsl.py). It skips a step whose output the idempotency store has (idempotency.py),
-- holds a lock on the run (locking.py), and writes every change of state to the store, which allows
-- only the moves of the two tables in states.py. At a gate it saves a request with signed tokens and
-- stops; a token that comes back (gates.py) is verified, spent, and checked against the role of its
-- bearer (src/cam/security/rbac.py) before the run goes on. After a crash a sweep
-- (recovery.py) takes up the runs that were under way. A handler calls vendors through the
-- outbound client (src/cam/connectors/middleware.py), which classifies failures (errors.py), retries
-- some of them, and keeps a circuit breaker (health.py). Actions are recorded in the audit log
-- (src/cam/core/audit/service.py), and packets are verified before they leave
-- (src/cam/core/services/qc). Documents are classified, filed and shielded by the routing service
-- (src/cam/core/workflows/document_routing). The deadline engine (src/cam/core/services/deadline) computes
-- due dates with a calendar of business days, arms reminders twice, and compares what it holds with the
-- case system. Webhooks of the vendors are verified and deduplicated before they become triggers
-- (src/cam/connectors/webhook/pipeline.py), leads are matched against contacts
-- (src/cam/core/workflows/intake/dedupe.py), and generated documents are stored under versions
-- (src/cam/core/workflows/document_gen/version_store.py). Changes of a matter's status start runs that
-- write to the client (src/cam/core/workflows/status_update).
--
-- Which file models which part:
--   Common, Json: Boolean tests, lists, dicts, methods that may raise, JSON documents.
--   Orchestrator/States: states.py. Orchestrator/Store: InMemoryRunStore of store.py.
--   Orchestrator/Gates: gates.py. Orchestrator/Engine, Orchestrator/Machine: engine.py.
--   Orchestrator/Dsl: dsl.py.
--   Orchestrator/Idempotency: the in-memory store of idempotency.py, and locking.py.
--   Orchestrator/Triggers: triggers.py. Orchestrator/Recovery: recovery.py.
--   Orchestrator/Fixtures: data for the tests.
--   Rbac: rbac.py. Audit: service.py, with AuditRepository of
--   src/cam/persistence/_repositories_legacy.py.
--   Connectors/Errors, Connectors/Health, Connectors/Outbound: errors.py, health.py, middleware.py.
--   Qc/Types, Qc/Registry, Qc/Privilege: types.py, packet.py, registry.py and checks/privilege.py.
--   Routing/Types, Routing/Config, Routing/Classifier, Routing/Resolver, Routing/Acl,
--   Routing/PrivilegeGate, Routing/Service: types.py, config.py, classifier.py, namer.py, acl_builder.py,
--   privilege_gate.py and service.py of document_routing.
--   Deadline/Dates: what the engine uses of Python's datetime. Deadline/Types, Deadline/Calendar,
--   Deadline/Compute, Deadline/Schedule, Deadline/Firing, Deadline/Rules: the files of the same names.
--   Connectors/Webhook: pipeline.py and models.py of webhook. Intake/Dedupe: dedupe.py.
--   DocumentGen/VersionStore: version_store.py. StatusUpdate: store.py, change_id.py, types.py and the
--   handler of events of status_update; StatusUpdate/Sweep, StatusUpdate/Steps: its workflow.py.
--   Deadline/Reconcile: reconcile.py and deadman.py. Deadline/Fixtures: data for the tests.
-- Child modules hold the proofs and are named for what they prove; Tests modules run the definitions
-- on concrete data.
--
-- How state and operations correspond. The mutable attributes of an object are the fields of a record,
-- and a method of the same name is a function to an outcome and the next record, so that what was
-- written before a raise stays written. Reading the clock and drawing a uuid are arguments or fields
-- of the record. Times are numbers: of seconds in the orchestrator and in the audit log, of microseconds in
-- the webhooks, of ticks in the other connectors. A date is its ordinal, and every datetime of the deadlines is in UTC. One call of
-- the engine or of a gate reads the clock once. The outside world (handlers, the server behind the
-- client) is a function of the number of calls made so far, which lets it answer differently each time. HMAC, SHA-256, base64, JSON, float, uuid5 and the random draw are parameters.
--
-- Bounds and fuel. The retry loop of the client has as much fuel as the policy has attempts, and one at
-- least: a round takes one attempt, and the loop is left after the last. The fuel of the engine bounds
-- the nesting of the calls of `execute` that a retry makes; the write that comes before such a call is
-- refused by the store. The walks of the calendar need no fuel: they end with the dates of Python, where
-- the source raises. Numbers are unbounded in the source and in the model.
--
-- What is not modelled: the relational stores, the errors of Redis but for webhooks, the expiry and the
-- extension of a lock, the text of log lines and of error details, tracing and metrics, OCR, language
-- models and templates, servers and the command line, and, among the parts with logic of their own, the
-- other steps of intake, of document generation and of status updates, and extraction.
mod Common
pub mod Json
pub mod Orchestrator
pub mod Rbac
pub mod Audit
pub mod Connectors
pub mod Qc
pub mod Routing
pub mod Deadline
pub mod DocumentGen
pub mod Intake
pub mod StatusUpdate
