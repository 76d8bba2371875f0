-- ===== src/Lib.antt =====
-- The core of the multilingual task API: the parts of its Django applications that decide something
-- and can be described without the database's and the framework's code.
--
-- Parts, and how they correspond to the code:
--
-- - Merkle (apps/core/merkle.py): the transparency tree over the audit log and over exported data
--   sets. `compute_merkle_root`, `build_merkle_inclusion_proof` and `verify_merkle_inclusion_path`
--   are functions of the same names; Merkle/Digest has the hashes of leaves and nodes, and
--   Merkle/Consistency the proofs between two sizes of a tree, `build_merkle_consistency_proof` and
--   `verify_merkle_consistency_proof`. SHA-256 is a parameter, a function with 32 bytes of result.
--   Merkle/Complete, Merkle/Theorem and Merkle/Consistency/Complete have the results; the other
--   children split them: Tree and Root give the tree that a list of digests has, Path and Plan the
--   proofs read off it, Climb and Ascent what the verifiers' index arithmetic does on the way up.
--   PyText has what these functions use of Python's `str` and `bytes`, on ASCII texts.
-- - Breaker (apps/ai_assist/circuit_breaker.py): the circuit breaker around the calls of a language
--   model. A record holds its fields, and each method is a function on it and on the cache. Local
--   is about one process, Flight about calls of several threads that overlap, Shared and Count about
--   several workers that meet in the cache; Status is what the breaker reports.
-- - Throttle (apps/core/throttling.py): the sliding window of requests per organization and plan and
--   the one for health probes. The framework's own class is a parameter.
-- - Outbox (apps/core/outbox.py, and `OutboxEvent` of apps/core/models.py): the transactional outbox.
--   The table is a list of rows. `drain_outbox_batch` is `reclaim`, `claim` and `relay_all`; Claims is
--   about which rows a worker takes, Relays about one attempt and the counters, Rows and Drains about one
--   row of a table that a drain goes through, Lifecycle about an event over many drains, Prunes and
--   History about deletion. What sending does is a parameter.
-- - Idempotency (apps/core/idempotency.py): the middleware for repeated POST requests.
--   `process_request` decides to answer, to refuse or to let through, `process_response` stores an
--   answer. Replays is about completed requests, Locks about those in progress.
-- - Finops (apps/core/finops.py, and the columns of apps/core/models.py that it uses): an
--   organization's budgets, `get_monthly_org_ai_burn`, `enforce_org_ai_budget` and
--   `record_org_ai_spend_and_alerts`. Counters and Totals are about the counters in the cache, Alerts
--   about the alerts' locks, Runs about all sequences of operations, Limits about the ceilings.
-- - Webhooks (apps/core/webhooks.py): the check of a URL (Urls), deliveries and the dispatch of an event
--   (Deliveries). URL parsing, addresses, DNS and HTTP are parameters.
-- - Rls (apps/core/rls.py): the scope of row-level security and how it reaches a PostgreSQL session,
--   which is a parameter; Bound is about the session variables that a query meets.
-- - Audit (apps/core/audit_chain.py, and `AuditLog` and `AuditChainCheckpoint` of apps/core/models.py): the
--   hash chain over an organization's audit log and its checkpoints. `seal_and_insert_audit_log` and the
--   canonical document are in Audit itself; Scan, Checkpoints and Verification are
--   `verify_organization_audit_chain`, Signatures the keys and `sign_checkpoint_asymmetrically`, Anchors
--   the creation of a checkpoint and the sweep, Documents, Bundles and Histories the bundles for
--   auditors. Proofs: Chain, Scanned and Leaves are about sealed entries, Anchored, Created, Intact and
--   Runs about checkpoints and whole histories, Sweeps and Swept about the sweep, Tamper and Pinned about
--   what an accepted verification shows, Keys about settings, Offline about bundles. It takes the Merkle
--   tree of Merkle and the outbox of Outbox. The digests, `json.dumps` and the package `cryptography` are
--   parameters; PyText/Base64 has the base64 of the signatures.
-- - Tasks (apps/tasks/models.py, apps/tasks/views.py, apps/tasks/calibration.py and
--   apps/tasks/consensus.py): tasks for annotators. Claims is `TaskViewSet.claim`, here `claim_task`,
--   Annotations the submission of an annotation and `adjudicate`, Calibration the weights of annotators
--   and Consensus the vote, `evaluate_task_consensus`. Leases, Available and Guards are about claims,
--   Skills about weights, Totals, Ranks, Majority and Verdicts about the vote. `claim_task` takes the
--   routing of `get_annotator_claim_routing` as an argument. Weights and ratios are in ten-thousandths,
--   to which the source rounds, without the errors of floats before the rounding. The uncertainty of a
--   vote is an argument, a function of the totals.
-- - Cache: Django's cache, an interface that Breaker, Throttle, Idempotency and Finops take, with the
--   effect of each call that the documentation states. Cache/Table is an instance, used by the tests. An
--   expiry is a step of its own; a call that raises is described by an argument of the operations.
--
-- Bounds and fuel: Python's integers are ℕ or ℤ, both without bound. The recursions of the Merkle
-- tree on slices of a list take fuel, one more than the number of leaves; the results prove that this
-- gives a value. Loops that shift a number right take the number itself as fuel. Times are whole
-- seconds. All other recursions are on the structure of a list or on a loop's count.
--
-- Not modelled: the views but for those of Tasks, serializers and GraphQL schema, which are the
-- framework's classes with settings; the database itself; logging and tracing; network calls, among
-- them the requests to AWS KMS and S3. Also not modelled: single sign-on (apps/core/sso.py), the exports
-- of annotations, and the thresholds of uncertainty and mean scores of rubrics (apps/tasks), which are
-- queries and float arithmetic.
pub mod Prelude
pub mod PyText
pub mod Cache
pub mod Audit
pub mod Breaker
pub mod Finops
pub mod Idempotency
pub mod Merkle
pub mod Outbox
pub mod Rls
pub mod Tasks
pub mod Throttle
pub mod Webhooks
