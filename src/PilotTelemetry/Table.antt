-- ===== src/PilotTelemetry/Table.antt =====
-- internal/pilottelemetry/postgres/store.go over the table of migrations/000003_pilot_test_results.sql:
-- each statement as a function of the rows. What the connection does is an input.
use virtual_cloud_help_servi.Prelude.{
  ℕ, ◌+◌, ◌-◌, Bool, true, false, not, ◌&&◌, ◌||◌, List, [], ◌∷◌, Option, none, some, map, ◌++◌,
  ◌*◌, leb, ltb, ◌==◌, length, take, is_none, if◌then◌else◌, Result, ok, err, reject, ◌>>◌,
}
use virtual_cloud_help_servi.Prelude.Text.{Text, bytes, text_eq, text_lt, contains}
use virtual_cloud_help_servi.Prelude.Sort.{sort_by}
use virtual_cloud_help_servi.GoTime.{Instant, Duration, hour, before}
use virtual_cloud_help_servi.PilotAccess.{Access, status_active}
use virtual_cloud_help_servi.PilotAccess.Store.{
  SqlFault, unique_violation, foreign_key_violation, check_violation,
}
use virtual_cloud_help_servi.PilotTelemetry.{
  TestResult, TelemetryFault, invalid_result, result_conflict, result_failure,
  refused_by_result_table, or_absent,
}
use virtual_cloud_help_servi.PilotTelemetry.Report.{
  TransportSummary, IspFailure, FailureSummary, Aggregate,
}

-- The rows, the accesses, and the devices' ids with their accounts.
pub record TelemetryTables : Type 0 where
  pub results : List TestResult
  pub accesses : List Access
  pub devices : List (Text × Text)

module _ {A : Type 0} where
  -- WHERE
  unfoldable pub where_rows : (A → Bool) → List A → List A
  where_rows p [] = []
  where_rows p (x ∷ xs) = elim (p x) [ true ↦ x ∷ where_rows p xs | false ↦ where_rows p xs ]

  -- count(*)
  abbrev pub count_rows : (A → Bool) → List A → ℕ
  count_rows p xs = length (where_rows p xs)

-- The distinct keys of GROUP BY and DISTINCT.
unfoldable pub distinct_keys : List Text → List Text
unfolding contains
distinct_keys [] = []
distinct_keys (k ∷ ks) =
    let rest = distinct_keys ks in elim (contains rest k) [ true ↦ rest | false ↦ k ∷ rest ]

-- occurred_at >= current_timestamp - interval '30 days'
abbrev pub recent : Instant → TestResult → Bool
recent now result = leb (now - 2_592_000_000_000_000) result.occurred_at

-- SELECT transport, count(*), count(*) FILTER (WHERE success) ... GROUP BY transport ORDER BY transport
abbrev pub summary_of : List TestResult → Text → TransportSummary
summary_of rows transport = record {
  transport = transport;
  tests = count_rows (λ (r : TestResult). text_eq r.transport transport) rows;
  successes = count_rows (λ (r : TestResult). text_eq r.transport transport && r.success) rows;
}

unfoldable pub transport_summaries : List TestResult → List TransportSummary
transport_summaries rows =
    map (summary_of rows)
      (sort_by text_lt (distinct_keys (map (λ (r : TestResult). r.transport) rows)))

-- A column that may be NULL: its values.
unfoldable pub present : List (Option Text) → List Text
present [] = []
present (none ∷ rest) = present rest
present (some s ∷ rest) = s ∷ present rest

abbrev pub column_is : Text → Option Text → Bool
column_is s none = false
column_is s (some t) = text_eq t s

-- SELECT failure_stage, count(*) ... WHERE success = false GROUP BY failure_stage
unfoldable pub failure_summaries : List TestResult → List FailureSummary
failure_summaries rows =
    map
      (λ stage. record {
        stage = stage;
        failures = count_rows (λ (r : TestResult). column_is stage r.failure_stage) rows;
      })
      (sort_by text_lt (distinct_keys (present (map (λ (r : TestResult). r.failure_stage) rows))))

-- ORDER BY count(*) DESC, isp
abbrev pub failure_less : IspFailure → IspFailure → Bool
failure_less a b = ltb b.failures a.failures || (a.failures == b.failures && text_lt a.isp b.isp)

-- SELECT isp, count(*) ... GROUP BY isp
abbrev pub isp_groups : List TestResult → List IspFailure
isp_groups rows =
    map
      (λ isp. record {
        isp = isp;
        failures = count_rows (λ (r : TestResult). column_is isp r.isp) rows;
      })
      (distinct_keys (present (map (λ (r : TestResult). r.isp) rows)))

-- HAVING count(*) >= 2 ORDER BY count(*) DESC, isp LIMIT 100
unfoldable pub isp_failures : List TestResult → List IspFailure
unfolding where_rows
isp_failures rows =
    take 100
      (sort_by failure_less (where_rows (λ (f : IspFailure). leb 2 f.failures) (isp_groups rows)))

-- min(occurred_at) and max(occurred_at)
unfoldable pub first_test : List TestResult → Option Instant
first_test [] = none
first_test (r ∷ rs) = elim (first_test rs) [
  | none ↦ some r.occurred_at
  | some t ↦ some (if ltb t r.occurred_at then t else r.occurred_at)
]

unfoldable pub last_test : List TestResult → Option Instant
last_test [] = none
last_test (r ∷ rs) = elim (last_test rs) [
  | none ↦ some r.occurred_at
  | some t ↦ some (if ltb t r.occurred_at then r.occurred_at else t)
]

-- access.status = 'active' AND access.expires_at > at
abbrev pub is_current : Instant → Access → Bool
is_current at access = elim access.expires_at [
  | none ↦ false
  | some t ↦ text_eq access.status status_active && before at t
]

-- The accounts of a device, by the join.
unfoldable pub accounts_of : Text → List (Text × Text) → List Text
accounts_of device [] = []
accounts_of device ((id, account) ∷ rest) = elim (text_eq id device) [
  | true ↦ account ∷ accounts_of device rest
  | false ↦ accounts_of device rest
]

unfoldable pub joined : List Text → List (Text × Text) → List (Text × Text)
joined [] devices = []
joined (device ∷ rest) devices =
    (map (λ account. (device, account)) (accounts_of device devices)) ++ (joined rest devices)

-- The reads of one report, in one transaction of which `now` is the current_timestamp.
unfoldable pub aggregate : TelemetryTables → Instant → Instant → Aggregate
unfolding where_rows distinct_keys joined
aggregate tables now at =
    let rows = where_rows (recent now) tables.results in
    let failed = where_rows (λ (r : TestResult). not r.success) rows in
    let pairs =
      joined (map (λ (a : Access). a.device_id) (where_rows (is_current at) tables.accesses))
        tables.devices in
    record {
      active_users = length (distinct_keys (map (λ (p : Text × Text). p.1) pairs));
      active_devices = length (distinct_keys (map (λ (p : Text × Text). p.0) pairs));
      first_test_at = first_test rows;
      last_test_at = last_test rows;
      transports = transport_summaries rows;
      failures_by_stage = failure_summaries failed;
      failures_by_isp = isp_failures failed;
    }

-- The value lists of the migration.
abbrev pub sql_platforms : List Text
sql_platforms = map bytes ("android" ∷ "ios" ∷ "linux" ∷ "macos" ∷ "windows" ∷ [])

abbrev pub sql_failure_stages : List Text
sql_failure_stages = map bytes (
    "server_health" ∷ "public_ip" ∷ "transport" ∷ "port" ∷ "server_outbound" ∷ "tunnel" ∷ "dns"
    ∷ "https" ∷ "ipv4_leak" ∷ "ipv6_leak" ∷ "upload" ∷ "download" ∷ "reconnect" ∷ [])

abbrev pub sql_connection_buckets : List Text
sql_connection_buckets = map bytes ("lt_3s" ∷ "3_10s" ∷ "10_30s" ∷ "gt_30s" ∷ "unknown" ∷ [])

abbrev pub sql_throughput_buckets : List Text
sql_throughput_buckets = map bytes ("lt_1_mbps" ∷ "1_10_mbps" ∷ "10_50_mbps" ∷ "gte_50_mbps" ∷ [])

-- interval '30 days' and interval '5 minutes'; the session's time zone is UTC
abbrev pub sql_result_age : Duration
sql_result_age = 2_592_000_000_000_000

abbrev pub sql_clock_skew : Duration
sql_clock_skew = 300_000_000_000

-- The CHECK constraints of app_private.pilot_test_results with the literals of the migration,
-- those on the label of the ISP aside.
unfoldable pub result_row_ok : TestResult → Bool
result_row_ok r =
    contains sql_platforms r.client_platform
    && (text_eq r.transport (bytes "amneziawg") || text_eq r.transport (bytes "xray_reality"))
    && or_absent (contains sql_failure_stages) r.failure_stage
    && contains sql_connection_buckets r.connection_time_bucket
    && or_absent (contains sql_throughput_buckets) r.throughput_bucket
    && (if r.success then is_none r.failure_stage else not (is_none r.failure_stage))
    && leb (r.recorded_at - sql_result_age) r.occurred_at
    && leb r.occurred_at (r.recorded_at + sql_clock_skew)

-- Any of the statements may fail, and then the report's transaction is rolled back.
unfoldable pub read_aggregate :
    Bool → TelemetryTables → Instant → Instant → Result TelemetryFault Aggregate
read_aggregate works tables now at =
    if works then ok (aggregate tables now at) else err result_failure

abbrev older : TestResult → TestResult → Bool
older a b = ltb a.occurred_at b.occurred_at

-- DELETE ... WHERE id IN (SELECT id ... WHERE occurred_at < limit ORDER BY occurred_at LIMIT 1000)
unfoldable pub delete_expired : Instant → List TestResult → List TestResult
unfolding where_rows
delete_expired limit rows =
    let expired =
      take 1000
        (sort_by older (where_rows (λ (r : TestResult). before r.occurred_at limit) rows)) in
    where_rows (λ (r : TestResult). not (contains (map (λ (x : TestResult). x.id) expired) r.id))
      rows

abbrev pub telemetry_retention : Duration
telemetry_retention = 30 * 24 * hour

unfoldable pub classify_create : SqlFault → TelemetryFault
classify_create unique_violation = result_conflict
classify_create foreign_key_violation = invalid_result refused_by_result_table
classify_create check_violation = invalid_result refused_by_result_table
classify_create _ = result_failure

-- INSERT INTO app_private.pilot_test_results; `label_ok` is the constraint on the ISP's label.
unfoldable pub insert_result :
    (Text → Bool) → TelemetryTables → TestResult → Result SqlFault TelemetryTables
insert_result label_ok tables result = do
  reject (not (result_row_ok result) || not (or_absent label_ok result.isp)) check_violation
  reject (contains (map (λ (r : TestResult). r.id) tables.results) result.id) unique_violation
  reject (not (contains (map (λ (d : Text × Text). d.0) tables.devices) result.device_id))
      foreign_key_violation
  ok (record tables { results = result ∷ tables.results })

-- The two statements of `Create` are not one transaction. Each may fail for another reason.
unfoldable pub create_result :
    (Text → Bool)
    → Bool
    → Bool
    → TelemetryTables
    → TestResult
    → TelemetryTables × Result TelemetryFault TestResult
unfolding delete_expired insert_result
create_result label_ok deletes inserts tables result =
    let kept : TelemetryTables = record tables {
      results = delete_expired (result.recorded_at - telemetry_retention) tables.results;
    } in
    if not deletes
    then (tables, err result_failure)
    else if not inserts
    then (kept, err result_failure)
    else elim (insert_result label_ok kept result) [
      | err fault ↦ (kept, err (classify_create fault))
      | ok after ↦ (after, ok result)
    ]
