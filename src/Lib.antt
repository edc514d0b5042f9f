-- ===== src/Lib.antt =====
-- The coordinator of the Worker Context Protocol (wcp_coordinator/): its task lifecycle, its
-- attestation verifier, its hash-linked audit log, its capability matcher, its transports, its
-- identifiers and its federation; and the Python SDK (wcp_sdk_python/wcp_sdk/) that calls it, as
-- executable definitions, with the theorems that make them correct.
--
-- Parts, and where they are modelled.
--   Prelude, Prelude/*: numbers, Boolean tests, lists and integers that all modules share.
--   Json, Json/*: decoded JSON values, and what Python's built-ins do with them (truth value,
--     membership, sets, `int`, `sorted`); a TypeError, KeyError or AttributeError is `crash`.
--   Models: the rows of wcp_coordinator/models.py and the tables of a session (`Db`).
--   Platform, Resolver: what comes from outside the source, as records of functions: the clock,
--     uuid4, fromisoformat, isoformat, f-strings, json.dumps, SHA-256, the signer's key pair, and
--     the DID resolver's two answers.
--   Result, Exec: the exceptions of the services, and methods as functions on the session that may
--     raise. What was written before a raise stays, as in the source's session.
--   Verifier/*: wcp_coordinator/attestation_verifier/, one module per file, `Registry` for the
--     dispatch by mode and kind, `Threshold` for `evaluate_threshold`; then `Quorum` and
--     `OrderFree` for what holds of them.
--   Audit: `append` and `verify_chain` of wcp_coordinator/audit_chain.py; Audit/Order and
--     Audit/Append for the proofs about it.
--   Tables: `db.get` and the writes to loaded rows.
--   Capabilities, Capabilities/Matching: wcp_coordinator/capabilities_service.py; then `Invariance`
--     and `Registration`.
--   Tasks/*: wcp_coordinator/tasks_service.py, one module per method: Post, Claim, Execute (with
--     events and heartbeats), Attest, Supervise (with abort), Observe.
--   Requests: the calls that wcp_coordinator/rpc_dispatch.py makes on the services, as steps of one
--     machine over the session, and the heartbeat check.
--   Rpc, Rpc/*: wcp_coordinator/rpc_dispatch.py: `Binding` for the keyword arguments of each
--     method, `Serve` for the dicts that they return, `Dispatch` for `dispatch` and the error
--     codes; then `Codes` and `Steps`.
--   Router, Router/*: wcp_coordinator/router.py: the HTTP route and the WebSocket loop with their
--     commits and rollbacks, and in `Export` the federation endpoint; then `Transactions`, `Traffic`.
--   Did, Did/*: wcp_coordinator/did_resolver.py: `Base58` for the codec and `Resolve` for the
--     resolver; then `Bytes`, `Digits`, `RoundTrip` and `Identifiers`.
--   Federation, Federation/*: wcp_coordinator/federation/: `Anchors` for trust_anchor.py, `Segment`
--     for `verify_chain_segment`, `Operations` for the rest of audit_export.py, router.py and
--     capability_sync.py; then `Effects`, `Genuine`, `Revocation`, `Selection`, `Interop`, `Ledger`.
--   Sdk, Sdk/*: wcp_sdk_python/wcp_sdk/: `Types`, `Identity`, `Calls` (session.py) and `Client`
--     (rpc_client.py); then `Codec`, `Bindings`, `Signatures`, `Accepted`, and `Settling` and
--     `Lasting` of Client.
--   Preview, Preview/*: wcp_sdk_python/wcp_sdk/preview/: `Lite` for wcp_lite.py, `Trust` for
--     trust_classes.py, `Multibase` for multibase_identifier.py, `Roots` for
--     external_trust_root.py; then `Buffer`, `Minimum`, `Legacy`, `Vouched` and `Registered`.
--   Coordinators, Coordinators/*: infrastructure/public-registry/app/: models.py and schemas.py,
--     `Signature` for verify.py, `Service` for main.py; then `Effects`, `Pinned` and `Signed`.
--   Lifecycle: the state machine of a task as a relation: the edges of spec/0.955.md, the departures
--     of the coordinator from them, the moves of a row, and the proofs about it.
--   History, History/*: the audit log over whole runs.
--   Tests, Tests/*: concrete data, and the theorems applied to it.
--
-- How the parts interact. A request calls a method of the services with the session's rows, the
-- platform and the resolver. A method loads a claim and its task, tests the state, checks
-- signatures through the resolver, asks the verifier, writes rows, and appends audit entries. A
-- transport decodes a message, dispatch binds its parameters to a request and maps what the method
-- raises to an error code, and the transport commits or rolls back. The federation's objects share
-- a store of trust anchors and append to the local audit log. The SDK makes the parameters and the
-- signatures that dispatch binds and the services check.
--
-- Choices. A datetime is a number of microseconds on the UTC line. `value_error` carries the
-- literal head of the message, up to its first interpolated value. A float is m / 2 ^ e. The
-- 90% rule on durations is exact where the source computes in floats. Rows with equal times come
-- back in insertion order; what is stated of a chain is stated where its times differ. `now`, `uuid4` and `time` are sequences, and the state counts their
-- readings; a rollback does not take the readings back. Loops over rows, evidence, JSON and texts are
-- structural recursions. The loop that makes base 58 digits, and Python's `bit_length`, run on fuel,
-- the number itself, which is enough since each round divides it. An argument of a method that is
-- not of its annotated type is answered as unmodelled. A forwarder, a fetcher and a coordinator that
-- answers a replay are functions. The futures of the RPC client are a list of ids and a list of what
-- they were settled with; a caller that stops waiting is left out.
--
-- Not modelled: FastAPI's objects, the health route and the stub of a DID document; the HTTP calls
-- of federation/transport.py; the socket, the reconnects and the key files of the SDK, and
-- its v2; the public registry's pages and prober; subclasses of the external trust roots; the
-- previews' warnings; the SDKs in other languages, the command line, the conformance runners, the
-- examples and the adapters.
pub mod Prelude
pub mod Json
pub mod Result
pub mod Platform
pub mod Verifier
pub mod Models
pub mod Exec
pub mod Audit
pub mod Resolver
pub mod Tables
pub mod Capabilities
pub mod Tasks
pub mod Requests
pub mod Lifecycle
pub mod History
pub mod Rpc
pub mod Router
pub mod Did
pub mod Sdk
pub mod Preview
pub mod Coordinators
pub mod Federation
pub mod Tests
