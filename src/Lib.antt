-- ===== src/Lib.antt =====
-- The Smartsupervision integration: its contingency queue, its idempotency store, and the services
-- around them.
--
-- A complaint of the CRM goes to the SFC at once or, while the SFC is down, over a queue in Redis
-- that a scheduler empties. An idempotency store, in Redis too, keeps a request from being sent
-- twice. Producers, workers and an operator act at the same time on both; each change of the queue
-- is one Lua script that Redis runs atomically, guarded by an expiring claim per item and by a
-- version that grows when an event overwrites a pending item.
--
-- Which file models which part:
--   app/services/queue_service.py, the ten Lua scripts: Queue/Script/, a file per family, each
--     script a function from the keyspace and its arguments to its reply and the writes it makes.
--   app/services/queue_service.py, `QueueService`: Queue/Service.antt and its children.
--   app/services/idempotency_service.py: IdempotencyRecord.antt, Idempotency.antt (the check of a
--     request), Idempotency/Payload.antt (hash, keys, records), Idempotency/Records.antt (the other
--     writes and their retries).
--   app/core/clasificacion_operacion.py and `infer_operation_type`: Text.antt, Classification.antt.
--   app/core/distributed_lock.py: Lock.antt, with the map that it stands for in Lock/Spec.antt.
--   app/workers/scheduler.py: Scheduler.antt (the turn of an item), Scheduler/Cycle.antt (the cycle
--     and its job), Errors.antt (`_es_falla_infraestructura`).
--   app/core/exceptions.py: Errors.antt (the exception and the matrix), Errors/Extract.antt (the
--     text of an error), Errors/MissingCase.antt (`procesar_y_lanzar`), Text/Search.antt (`_coincide`).
--   app/services/despacho_queja_orchestrator.py: Orchestrator.antt.
--   app/services/momento_1_sync.py: Momento1.antt; app/services/momento_4_sync.py: Momento4.antt.
--   app/services/momento_2_sync.py: Momento2.antt; app/services/momento_3_sync.py: Momento3.antt.
--   app/services/s3_service.py: Storage.antt, Storage/FileType.antt, and Storage/Inbound.antt for the
--     files that come from the SFC, with the theorems in Storage/.
--   app/core/auth.py: Auth.antt, the tokens of the SFC and their renewal.
--   app/core/mapping.py: Mapping.antt (the catalogues), Mapping/Cache.antt (their refresh).
--   app/core/security/sanitizer.py: Sanitizer.antt; app/services/crm_webhook_service.py: Webhook.antt.
--   app/services/email_service.py: Alerts.antt, which alerts are sent.
--   app/core/constants.py, the states of the queue: Status.antt; `ColaItemRedis`: Item.antt.
--   Redis: Redis.antt, a record of the replies of a keyspace and of what each command does to them,
--     as the documentation of Redis says; Redis/Memory.antt is a keyspace in memory with that
--     behaviour. The connection, which may lose a call or the answer to it: Remote.antt.
-- Proofs: Queue/Consistent and Queue/Keeps (the invariant and its preservation by each script),
--   Queue/History (any interleaving of scripts, expiries and writes beside the queue), Queue/Race
--   (claims, overwriting and completion), Idempotency/Barrier, EndToEnd, Lock/Exclusion,
--   Scheduler/Steps (a cycle as a history of the queue), Scheduler/Completion, Scheduler/Recorded,
--   Scheduler/Contacts and Scheduler/Outage,
--   Classification/Fields, Errors/Match, Orchestrator/Bounds, Orchestrator/Recovery and
--   Orchestrator/Route,
--   Momento1/Once, Momento1/Complete, Momento2/Delivered, Momento3/Closing, Momento4/Batches and
--   Momento4/Pages, Auth/Waiting (the wait for another instance), Auth/Success,
--   Auth/Rejected, Auth/Malformed, Sanitizer/Masking and Sanitizer/Nested, Webhook/Contract, Alerts/Bounded and
--   Alerts/Window, Mapping/Index, Mapping/Reception, Mapping/Cache/Stale and
--   Storage/Inbound/Safe. Instances: the files named Examples.
--
-- Conventions. A key of Redis is given by its parts; two keys with different parts are taken to
-- differ, as they do when a case code has no colon. An item's text is given by what `cjson.decode`
-- reads from it; a text that cannot be decoded is a value of its own. Times and expiries are
-- milliseconds in ℕ, a time is an argument, and a field that an older release did not store is an
-- option. The id of an item, a counter of INCR, and its version are below 2^53 in practice and are
-- unbounded here. The end of a lease is an event of a history. `none` as the result of a call is an
-- exception. SHA-256 over the JSON text of a payload, `json.dumps`, `json.loads` and the hash of an
-- item without one are parameters, and so are the settings. An alert e-mail is a value of the
-- result and is taken not to raise. The retry loops recurse on the number of attempts left, as
-- `range` does, so they need no fuel.
--
-- The parts meet so: the scheduler's turn calls the methods of `QueueService` and of the lock, each of
-- which is a history of scripts; the answer of the orchestrator in a turn is data of that turn, and
-- the orchestrator's dispatch is modelled over what the services of Momento 2 and 3 answer, which may
-- depend on every call before. `str.lower`, `json.loads` and `str` of a JSON value are parameters of
-- the parts that use them. The heartbeats of a turn are events of the history beside it. The cycle
-- recurses on its batch, the recovery runs once, a page loop recurses on the pages that the settings
-- leave, and the batches of ids on the number of ids, which is enough since each takes one at least.
--
-- The renewal of a token waits in turns of 250 ms for ten seconds at most; its loop has fuel for 41
-- turns, enough where each turn is at least 250 ms after the one before it. A text of
-- the catalogues and of a log is its list of code points. The decoding of a JWT, Unicode's tables and
-- `str` of a number are parameters, and so is the host that `urlparse` finds in a URL. The tasks of a
-- batch of files are run in their order, since none reads what another writes.
--
-- Not modelled: the HTTP handlers, the schemas, the SFC client, the headers and signatures of a
-- request, the metadata and the stream of a file that leaves S3, SMTP, the HTML of mails and PDF, and
-- logging, which are I/O or declarations; the refresh of the matrix of errors, the start and stop of
-- timers, the metrics, the listing of all items, the fields of a payload that do not go through a
-- catalogue, and the two fields of DIVIPOLA.
mod Prelude
pub mod Status
pub mod Storage
pub mod Mapping
pub mod Alerts
pub mod Sanitizer
pub mod Webhook
pub mod Auth
pub mod Item
pub mod IdempotencyRecord
pub mod Text
pub mod Classification
pub mod Remote
pub mod Errors
pub mod Lock
pub mod Momento1
pub mod Momento2
pub mod Momento3
pub mod Momento4
pub mod Orchestrator
pub mod Idempotency
pub mod EndToEnd
pub mod Scheduler
mod Examples
pub mod Redis
pub mod Queue
