-- ===== src/Lib.antt =====
-- Virtual Cloud Help Service: the control plane that publishes signed manifests of VPN nodes, and
-- the client code that fetches and uses them.
--
-- An operator's catalog of nodes (internal/catalog) is signed by the issuer (internal/service),
-- which serves one manifest per version and stores its state in a file (internal/issuance). The
-- format, its validation and the client's checks are internal/manifest: an envelope holds a
-- document, its signing key is granted the document's version by a key policy, and an offline root
-- key signs the policy. A client fetches an envelope from mirrors (internal/discovery), verifies it
-- against the state that it trusts, and ranks the endpoints (internal/selector). internal/vpnnode
-- checks what nodes report. The manifest is served over HTTP (internal/api); beside it an
-- administration (internal/pilotapi) registers and revokes the accesses of a pilot's devices
-- (internal/pilotaccess) and records and reports test results (internal/pilottelemetry), each in a
-- database. internal/config reads what all of this is started with.
--
-- Files:
--   Prelude          shared names, lists over native numbers, texts as bytes, results, sorting
--   GoTime           time.Time and time.Duration as nanoseconds
--   Patterns         the regular expressions; Strconv: strconv.Atoi
--   Platform         cryptography, Base64, JSON, URL and address readers: parameters
--   Manifest         internal/manifest: Types the documents, KeyPolicy keypolicy.go (Find, Ranges,
--                    Grants, Granted, Canonical its lemmas), Validate, Canonical, Transition and
--                    Envelope manifest.go (validate, the canonical order, validateStateTransition,
--                    Issue and Verify), Client a client that keeps its state over many envelopes
--   Issuance         internal/issuance/state.go: State the record, FileStore Load and Save
--   CatalogFile      internal/catalog/file.go
--   Issuer           internal/service/issuer.go: Issue and refresh; Start NewIssuer and Close;
--                    Invariant, Refresh, Steps, Issue, Run, Served, Lock and Restart its proofs
--   Discovery        internal/discovery/client.go; Selector internal/selector; VpnNode
--                    internal/vpnnode/node.go, VpnNode/Provider provider.go
--   PilotAccess      internal/pilotaccess/access.go (validation), Service its Register and Revoke,
--                    Uuid newUUID; Store postgres/store.go over the tables of migrations/, with
--                    Moves, Registry, Audit and Answers its proofs
--   PilotTelemetry   internal/pilottelemetry/telemetry.go: Record, and Report in Report; Table
--                    postgres/store.go; Groups, Summaries, Failures, Reported, Recorded, Retention
--                    and Runs its proofs
--   Http             requests and responses
--   Api              internal/api/handler.go, with Flow its proofs
--   PilotApi         internal/pilotapi/handler.go: Handler its handlers, Requests and Guard what
--                    they can do, Pilot the handlers over the service of accesses and its tables
--   Config           internal/config/config.go, with Accepted what the other parts make of it
--   ArtifactLock     internal/artifactlock/lock.go, Fetch its fetch.go; Found and Published proofs
--   SigningKey       internal/signingkey/key.go, with Generated its proof
--   Tests            a platform that meets the laws, sample documents, and examples
--
-- How the code is written down: a struct is a record with the same fields, a method that changes
-- its receiver returns the new one, an error is the constructor `err` with a value of a fault type
-- in place of its text. `issue` is manifest.Issue and
-- `issuer_issue` the method of Issuer. An unsigned integer is a number, and arithmetic on it
-- writes its wrap-around (`u64`). A map is a list of its keys or a function. Loops are structural
-- recursions on the list they walk or on the number of turns, so no fuel is needed. The issuer's
-- mutex makes each of its methods one step; the clock, the loaded catalog and the outcome of every
-- system call are inputs of the step (`Tick`, `Calls`). A `Disk` is what the file system holds at
-- one state path and in its directory: stores of different paths work on different ones. The mirrors' answers and the time left are
-- inputs of a fetch (`Attempt`). An SQL statement is a function of the tables' rows, by the
-- constraints of the migrations; a transaction works on a copy that its commit puts in place, and
-- each statement and commit may fail, a commit also after it took effect (`DatabaseCalls`).
-- Concurrent transactions are taken one after the other. HTTP requests in flight are a list, and
-- arrivals and ends of requests the events of a sequence (`Event`).
--
-- Parameters: `Platform` holds what the code takes from Go's standard library and does not
-- implement. `Laws` names what some theorems rely on: decoding undoes encoding, lengths of digests
-- and signatures, and that a signature verifies under its own key. `UniqueKeyId` says that no other
-- 32-byte key has the same SHA-256 key id, and `JsonRoundTrip` and `StateRoundTrip` that JSON gives
-- a particular value back. Tests.Toy is a platform that meets them. `TextRules`, `Wire`,
-- `Environment` and the Base64 decoders of `validate_access` are what the other parts take from it.
--
-- Not modelled: the Timeweb client, the metrics page and the commands; the flock system calls of the
-- process lock; floating-point metrics of nodes and success rates; CheckSchema, which only reads.
-- Error texts are not kept. The readers of envelopes and key policies are texts, so a read that fails
-- is not modelled. A timestamptz keeps nanoseconds; the times of the accesses and the recording times
-- are whole seconds, so that rounding to microseconds keeps the comparisons of the constraints.
pub mod Prelude
pub mod GoTime
pub mod Patterns
pub mod PilotAccess
pub mod PilotTelemetry
pub mod Http
pub mod Api
pub mod PilotApi
pub mod Config
pub mod SigningKey
pub mod ArtifactLock
pub mod Strconv
pub mod Platform
pub mod Issuance
pub mod Manifest
pub mod CatalogFile
pub mod Issuer
pub mod Selector
pub mod Discovery
pub mod VpnNode
mod Tests
