-- ===== src/Lib.antt =====
-- Lynceus watches PostgreSQL servers. A collector beside each server reads its statistics and ships
-- snapshots to the ingestion server, which writes them to the stats store; the api server keeps the
-- fleet's configuration, the policy of what may be collected, and the audit log of who changed it.
-- Data is in two tiers: tier 1 has no literal of the monitored database, tier 2 is raw query text
-- and is shipped and read only where it is enabled.
--
-- What stands where, with the code it follows:
--   Prelude         what the others share: equality tests and total orders as interfaces, lists over
--                   the native numbers, maps as association lists, stable sorting, Go's errors
--   Caps            internal/caps/caps.go: the capabilities and `Discover`; Caps/Gate is
--                   internal/caps/gate.go, the collector's policy snapshot
--   Policy          internal/store/capability_policy.go (readers), internal/caps/policy.go,
--                   `ServerT2Enabled` of internal/store/t2_read.go; Policy/Snapshot carries policy
--                   from the database to the gate: `handlePolicySnapshot`
--                   (internal/api/capabilities.go), `FetchPolicySnapshot`
--                   (internal/collector/policy_refresh.go), `refreshPolicy` (cmd/collector/main.go)
--   PolicyWrite     internal/store/capability_policy.go (writers): `SetCapabilityPolicy`; Batch is
--                   `DeleteCapabilityPolicy` and `ApplyCapabilityPoliciesBatch`
--   PolicyResolve   internal/policyresolve/flatten.go: policies of four scopes made into stored rows
--   Audit           internal/store/audit_hash.go and the log in internal/store/config.go: Canonical
--                   is `canonicalJSON`, Hash is `hashAuditRow`, Log is `AppendAudit`, Verify is
--                   `VerifyChain`
--   T2Read          internal/store/t2_read.go: the gateway to raw query text
--   Collector       internal/collector/reader.go and internal/normalize/normalize.go: Reader is `Read`
--   Ingest          internal/ingest/server.go: Convert and Health are the `snapshotTo` functions,
--                   Persist is `persistSnapshot`, Handle is `handle`; Wire has the messages of
--                   proto/lynceus/v1, Rows the row types of internal/store
--   LogTail         internal/collector/logsource.go: `FileTail`, over the file system's answers
--   Fanout          internal/collector/fanout.go: `RunBounded` as interleaved goroutines
--   Activity        internal/collector/activity_aggregator.go: `Observe` and `Flush`
--   Checks          internal/checks/: the checks with their registry and `Run`
--   Scheduler       internal/checks/scheduler.go: Assemble is `assembleInput`, Tick is `RunOnce`
--   Advisor         internal/advisor/vacuum.go, index.go and config.go
--   Console         internal/console/: Sessions is session.go, Export is export.go;
--                   Handlers is internal/api/console.go: Execute is `handleConsoleRun` and
--                   `runConsoleHandoff`, Page is what `buildConsoleVM`
--                   shows of the sessions, Export is `handleConsoleExport`
--   PlanExtract     internal/planextract/: `Extract` and `NormalizeCondition`
--   FleetView       internal/fleetview/: Summary is `ListClusterSummaries`, Dashboard is
--                   `BuildFleetView`, Issues is `ScopeIssues`
--   LogParse        internal/logparse/: Scan is the scanner, Stderr and Csv the parsers, Classify the
--                   classifier and its rules, Stream `ParseStream`
--   LogPipeline     internal/collector/log_pipeline.go and plan_pipeline.go: `Drain`, `ExtractPlans`
--   Insight         internal/insight/: the detectors, by what they look at; Registry is `DetectAll`
--   UiScope         internal/scope/scope.go: `Encode` and `Parse`
-- Laws stand in child modules named for what they show, runs and examples in modules named Tests.
--
-- How the code is read. A struct is a record, an error result is `Result` with Go's wrapped errors,
-- a Go map is the list of its entries, where a missing key reads as none and a write replaces; where
-- the code ranges over a map, the order of the visit is an argument (`MapOrder`), so what is shown
-- holds for every order. A slice kept in a map is its first element and the rest. PostgreSQL tables
-- are lists of rows, and the order that ORDER BY leaves open is an argument (`order_by`). A read is
-- of the table as it then stands, though the source reads through a pool that may be of a replica. A
-- transaction is one step, since the advisory lock serialises appends; each of its statements may
-- fail (`Faults`), and a rollback returns the rows but not the number taken from the sequence. The
-- lock of the gate and of the limiters makes their methods atomic. Text that is compared is a
-- String, text that is hashed is its bytes. A float64 is its bit pattern where it is only passed on.
-- Bytes written big-endian keep the wrap-around of their width; times that are hashed are
-- nanoseconds since 1970 truncated to microseconds, and earlier times are not modelled. Scopes of
-- policies are the four declared ones; the text of a reason is an argument (`render`), as is the
-- writing of times and numbers (`Render`); a check's detail is kept as the arguments of its
-- `fmt.Sprintf` (`Detail`), as is a detector's. A log is a list of code points. Loops are structural
-- but for two: the scanner runs on one unit of fuel for each line and one more, and the search for a
-- power of two on 64 doublings, after which an int64 has wrapped around to 0; `none` stands for a
-- search that does not end. Goroutines are steps of a relation, picked in any order.
--
-- Arguments, for code outside the repository: SHA-256, encoding/json and jsonb (`Codec`), the probes
-- of `Discover`, the rate limiter, the protobuf decoder, the clock, the stats store's answers,
-- pg_query, the file system, the grant reader, the executor of statements, float64 arithmetic, the
-- matches of a regular expression, time.Parse, encoding/csv, and the insight detectors as ingestion
-- calls them. The lines that bufio.Reader answers are computed from the stream, with the error that
-- ends it. Nothing is assumed of the arguments but what a theorem names, such as that the detail of
-- an audit row reads back from its jsonb column as it was written, that no two different rows of the
-- compared logs have one hash, that the dead-letter queue takes what it is given.
--
-- Not modelled: the web views and HTTP handlers other than the policy snapshot and those that run,
-- hand over and export the console's statements; the SQL of the stats store; the capability probes
-- and the collector's other readers, which are queries. So far also the groups of nodes and
-- databases and the details of the fleet view, and the console's stubs of a grant service and an
-- executor.
pub mod Activity
pub mod Advisor
pub mod Audit
pub mod Caps
pub mod Checks
pub mod Collector
pub mod Console
pub mod Fanout
pub mod FleetView
pub mod Ingest
pub mod Insight
pub mod LogParse
pub mod LogPipeline
pub mod LogTail
pub mod PlanExtract
pub mod Policy
pub mod PolicyResolve
pub mod PolicyWrite
pub mod Prelude
pub mod Scheduler
pub mod T2Read
pub mod UiScope
