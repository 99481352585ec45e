-- ===== src/Tests/Results.antt =====
-- Two test results that are recorded, and the report over them.
use virtual_cloud_help_servi.Prelude.{
  ℕ, ◌-◌, ◌*◌, ◌^◌, ◌≤◌, ◌<◌, ◌≡◌, refl, Bool, true, false, List, [], ◌∷◌, none, some, ok, arith,
  length, All, all,
}
use virtual_cloud_help_servi.Prelude.Text.{Text, bytes, text_eq, text_lt, contains}
use virtual_cloud_help_servi.Prelude.Sort.{insert_by, sort_by}
use virtual_cloud_help_servi.GoTime.{Instant, second, hour, truncate, before}
use virtual_cloud_help_servi.VpnNode.{validate_transport}
use virtual_cloud_help_servi.PilotAccess.{matches_each}
use virtual_cloud_help_servi.PilotTelemetry.{
  TestResult, RecordInput, TextRules, checked_result, new_result, validate_result, valid_isp,
  record_result, check_stored, maximum_result_age,
}
use virtual_cloud_help_servi.PilotTelemetry.Report.{Report, report_of}
use virtual_cloud_help_servi.PilotTelemetry.Table.{
  TelemetryTables, where_rows, count_rows, recent, delete_expired, insert_result, create_result,
  result_row_ok, read_aggregate, aggregate,
}
use virtual_cloud_help_servi.PilotTelemetry.Reported.{IsCounted, aggregate-failures_by_isp}
use virtual_cloud_help_servi.PilotTelemetry.Recorded.{checked_result-row_ok}
use virtual_cloud_help_servi.PilotTelemetry.Retention.{record_result-retention}
use virtual_cloud_help_servi.PilotTelemetry.Runs.{Recording, record_all, record_all-report}

abbrev rules : TextRules
rules = record { trim_space = λ s. s; runes = λ s. some s; is_ip = λ s. false }

abbrev label_ok : Text → Bool
label_ok s = true

abbrev device : Text
device = bytes "0b9f2a34-90e3-4d2f-8a53-6c1d9e5f7a10"

abbrev result_id : Text
result_id = bytes "7c1e0d52-11aa-4b3c-9d4e-5f60718293a4"

abbrev now : Instant
now = 1000 * hour

abbrev failed_input : RecordInput
failed_input = record {
  device_id = device;
  client_platform = bytes "linux";
  isp = some (bytes "Example ISP");
  transport = bytes "amneziawg";
  occurred_at = 999 * hour;
  success = false;
  failure_stage = some (bytes "dns");
  connection_time_bucket = bytes "unknown";
  throughput_bucket = none;
}

abbrev empty_tables : TelemetryTables
empty_tables = record { results = []; accesses = []; devices = (device, bytes "account") ∷ [] }

abbrev recording : Text → Recording
recording id = record {
  now = now;
  new_id = some id;
  input = failed_input;
  deletes = true;
  inserts = true;
}

-- Names all that a record computes with.
unfoldable record_run : Unit {0}
unfolding text_eq text_lt contains all matches_each validate_transport new_result validate_result
    valid_isp checked_result check_stored record_result create_result insert_result delete_expired
    where_rows result_row_ok sort_by insert_by record_all
record_run = tt

abbrev failed_result : TestResult
failed_result = new_result rules now result_id failed_input

recorded : checked_result rules now result_id failed_input ≡ ok failed_result
unfolding record_run
recorded = refl

checked_result-row_ok_example : result_row_ok failed_result ≡ true
checked_result-row_ok_example = checked_result-row_ok rules now result_id failed_input recorded

stored :
    (record_result rules
      (create_result label_ok true true)
      empty_tables
      now
      (some result_id)
      failed_input).1
    ≡ ok failed_result
unfolding record_run
stored = refl

few_expired :
    count_rows
      (λ (r : TestResult). before r.occurred_at (truncate now second - maximum_result_age))
      empty_tables.results
    ≤ 1000
unfolding record_run
few_expired = omega arith

record_result-retention_example :
    (rest : List TestResult) × ((record_result rules
        (create_result label_ok true true)
        empty_tables
        now
        (some result_id)
        failed_input).0.results
      ≡ failed_result ∷ rest)
    × All
        (λ (r : TestResult).
          before r.occurred_at (truncate now second - maximum_result_age) ≡ false)
        (failed_result ∷ rest)
record_result-retention_example =
    record_result-retention rules label_ok true true empty_tables now result_id failed_input stored
      few_expired

-- The second call repeats the identifier and is refused.
abbrev calls : List Recording
calls = recording result_id ∷ recording result_id ∷ []

one_recorded :
    count_rows (recent now) (record_all rules label_ok empty_tables calls).results < 2 ^ 64
unfolding record_run
one_recorded = omega arith

record_all-report_example :
    (report : Report ℕ) × (report_of
        (λ (m : ℕ). true)
        now
        (read_aggregate true (record_all rules label_ok empty_tables calls) now now)
        none
      ≡ ok report)
    × (report.total_tests
        ≡ count_rows (recent now) (record_all rules label_ok empty_tables calls).results)
record_all-report_example =
    record_all-report rules label_ok (λ (m : ℕ). true) empty_tables calls now now none tt
      one_recorded

-- Two failed tests of one ISP.
abbrev two_failed : TelemetryTables
two_failed = record { results = failed_result ∷ failed_result ∷ []; accesses = []; devices = [] }

aggregate-failures_by_isp_example :
    (length (aggregate two_failed now now).failures_by_isp ≤ 100)
    × All (IsCounted two_failed now) (aggregate two_failed now now).failures_by_isp
aggregate-failures_by_isp_example = aggregate-failures_by_isp two_failed now now
