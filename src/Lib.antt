-- ===== src/Lib.antt =====
-- AisleSignals: the custody engine, the mapping of local observations for the cloud, the
-- outboxes that deliver them and their frames, the limits of an external review,
-- the accounts and sessions of the local application, and the jobs that analyse interactions.
--
-- The program watches a shop through local cameras. services/api/custody_engine.py follows a
-- product through the facts that a tracker and a checkout reconciliation report, and decides when
-- a sequence may raise an alarm. services/api/cloud_observation.py turns a persisted interaction or
-- live event into a minimal observation, or into the reason why it stays local.
-- services/api/cloud_outbox.py keeps mapped observations encrypted in SQLite, gives them out one
-- at a time under a lease, and keeps an obligation to withdraw every delivery that may have
-- happened. services/api/cloud_media_outbox.py sends an encrypted frame after its observation, by
-- the same leases and the same reservation of the installation.
--
-- Custody: `ProductCustodyEngine`. Model has the values and `CustodyObservation.valid`; Steps has
-- the statements of `observe` and `_transition` on a record, one function for each group, in the
-- order of the source; Covers is `_covers`; Assess is `_assessment`; Engine has the records by
-- key, `observe` and `observe_many`; Window is `sampled_window_interpretation`. A raised
-- `ValueError` is `none`. Python's integers are the integers of Common/Int, dictionaries are
-- association lists in the order of insertion, and the texts of the reasons are an enumeration.
-- No recursion needs fuel: the loops go over lists.
--
-- Observation: `map_observation` with `source_event_id` and `validate_payload`. An exclusion and a
-- mapped observation are the two outcomes. An instant is a number of microseconds; a sum
-- beyond the range of `datetime` is the exclusion that its `OverflowError` leads to. A persisted item
-- is a record of optional fields. UUIDs, ISO times and the validation of a camera context are
-- parameters, since they are calls of libraries.
--
-- Outbox: the tables are lists of rows in the order of insertion. Rows has the lookups and row
-- updates; Bindings, Queue, Leases and Upkeep have the operations of `Outbox` and `mark_restored`;
-- Returns has what holds of an operation's value. An operation returns its tables, or an error
-- code without tables, as the surrounding transaction rolls back. Identifiers, tokens and nonces
-- that the source draws at random are arguments; encryption, digests and sizes are fields of the
-- parameter Vault. A claim keeps its times as the row has them. Times are whole milliseconds.
--
-- Media: the table of media items beside the tables of the outbox. Model has the rows, Queue has
-- `enqueue_overview`, `_sync_parent`, `reconcile` and the media part of a restore, Leases has
-- `claim` and the operations on a claim. The entry of an interaction is a record of optional
-- fields.
--
-- Review: services/api/xai_verifier.py. Ledger is `load_global_usage` and `reserve_global_usage` on
-- the row of the settings table, read as its JSON; `granted` asks for reservations one after the
-- other. Breaker is `CircuitBreaker` with the reading of its clock as an argument. Review itself is
-- `compare_blind_result`. The HTTP client and the images are not modelled.
--
-- Vision: services/api/interaction_vision.py. The module itself has the answer of a model and
-- `public_observation`; Frames has `validate_jpeg` and `validate_frames`, with the library for
-- images as a parameter. A `VisionError` is `none`.
--
-- Accounts: services/api/pilot_identity.py, services/api/pilot_admin.py, and the parts of
-- services/api/store.py and services/api/app.py that accounts rest on. Model has the tables, Store
-- `put`, `get`, `audit`, `allowed_sites` and `resolve_session_user`, Checks the checks of what is
-- typed in, Creation new branches and accounts, Managers `_preserve_manager` and the writes to
-- memberships and sessions, Local the commands of the local operator, Login `login`, Requests
-- `context`, `switch_site` and `logout`, and Admin with its children the requests of a manager. An
-- error that rolls its transaction back returns the database as it was; an error that is committed
-- (a wrong password) returns the database with it. Random values are read from streams by a
-- counter of the database. Hashes and Python's functions on texts are fields of the parameter
-- Host. Times are whole microseconds. Chains of checks are values of `Answer`; Gives has what holds
-- of the value of such a chain.
--
-- Delivery: services/api/cloud_delivery.py. Authority has `DeliveryPolicy` and the authority of a claim
-- (`_same`, `_row`, `_source_reason`, `_authorize`), Settlement `_settle`, over the operations of the
-- outbox. The provider of the connection and the state of a source are a parameter; an answer is a
-- receipt or a code with a time to retry after. An error of the outbox is the error of the step.
--
-- Interactions: services/api/interactions.py. Model has the stored interaction, `ACTIVE_JOBS`, the
-- inference slot, `expired` and `authorized`, which reads the accounts; Jobs has the parts of `worker`
-- between its transactions (`begin`, `abandon`, `finish`, `fail`, each with its `finally`), `submit`
-- from `make_room` on, `cancel`, `review`, `create_case` on the record, `delete` and `cleanup`; the
-- calls for the cloud are kept as a record. Reach has the interleavings of requests and jobs as a
-- relation, which leaves `cleanup` out.
--
-- Not modelled: the installation of the schemas, their triggers and the report of `inspect`; the
-- counts that the outbox's `mark_restored` reports; isinstance tests, which the types of the model
-- make; the rounding of a float in the outbox's `_stamp`, which the model divides exactly; a dispatch
-- that fails after `submit` has taken the slot; the HTTP, database, camera and model code around
-- these parts.
pub mod Common
pub mod Custody
pub mod Observation
pub mod Outbox
pub mod Media
pub mod Review
pub mod Vision
pub mod Accounts
pub mod Delivery
pub mod Interactions
