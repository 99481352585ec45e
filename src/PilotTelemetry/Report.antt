-- ===== src/PilotTelemetry/Report.antt =====
-- The report of internal/pilottelemetry/telemetry.go over what the store aggregates.
use virtual_cloud_help_servi.Prelude.{
  ℕ, ◌+◌, ◌%◌, ◌^◌, Bool, true, false, not, ◌||◌, List, [], ◌∷◌, Option, none, some, ltb, ◌==◌,
  if◌then◌else◌, Result, ok, reject, wrap, ◌>>=◌, ◌>>◌,
}
use virtual_cloud_help_servi.Prelude.Text.{Text, text_lt, contains}
use virtual_cloud_help_servi.Prelude.Sort.{sort_by}
use virtual_cloud_help_servi.GoTime.{Instant, before, truncate, second}
use virtual_cloud_help_servi.VpnNode.{validate_transport}
use virtual_cloud_help_servi.PilotAccess.Service.{clone_time}
use virtual_cloud_help_servi.PilotTelemetry.{
  TelemetryFault, bad_test_period, bad_aggregate, bad_failure_aggregate, failure_stages,
}

pub record TransportSummary : Type 0 where
  pub transport : Text
  pub tests : ℕ  -- uint64
  pub successes : ℕ

pub record IspFailure : Type 0 where
  pub isp : Text
  pub failures : ℕ

pub record FailureSummary : Type 0 where
  pub stage : Text
  pub failures : ℕ

pub record Aggregate : Type 0 where
  pub active_users : ℕ
  pub active_devices : ℕ
  pub first_test_at : Option Instant
  pub last_test_at : Option Instant
  pub transports : List TransportSummary
  pub failures_by_stage : List FailureSummary
  pub failures_by_isp : List IspFailure

pub data MetricsStatus : Type 0 where
  metrics_not_configured metrics_available metrics_unavailable : MetricsStatus

pub record Report (M : Type 0) : Type 0 where
  pub generated_at : Instant
  pub total_tests : ℕ
  pub first_test_at : Option Instant
  pub last_test_at : Option Instant
  pub active_users : ℕ
  pub active_devices : ℕ
  pub transports : List TransportSummary
  pub failures_by_stage : List FailureSummary
  pub failures_by_isp : List IspFailure
  pub server_metrics_status : MetricsStatus
  pub server_metrics : Option M

unfoldable pub bad_period : Option Instant → Option Instant → Bool
bad_period none none = false
bad_period (some first) (some last) = before last first
bad_period _ _ = true

-- The loop over the transports: it adds up the tests.
unfoldable pub add_tests : ℕ → List TransportSummary → Result TelemetryFault ℕ
add_tests total [] = ok total
add_tests total (summary ∷ rest) = do
  wrap (λ _. bad_aggregate) (validate_transport summary.transport)
  reject (ltb summary.tests summary.successes) bad_aggregate
  add_tests ((total + summary.tests) % 2 ^ 64) rest

unfoldable pub check_failures : List FailureSummary → Result TelemetryFault (Unit {0})
check_failures [] = ok tt
check_failures (failure ∷ rest) = do
  reject (not (contains failure_stages failure.stage) || failure.failures == 0)
      bad_failure_aggregate
  check_failures rest

abbrev pub transport_less : TransportSummary → TransportSummary → Bool
transport_less a b = text_lt a.transport b.transport

-- The metrics source, if there is one, gives metrics or an error; ValidateMetrics is `valid`.
module _ {M : Type 0} (valid : M → Bool) where
  unfoldable pub metrics_of : Option (Option M) → MetricsStatus × Option M
  metrics_of none = (metrics_not_configured, none)
  metrics_of (some none) = (metrics_unavailable, none)
  metrics_of (some (some m)) =
      if valid m then (metrics_available, some m) else (metrics_unavailable, none)

  unfoldable pub report_of :
      Instant
      → Result TelemetryFault Aggregate
      → Option (Option M)
      → Result TelemetryFault (Report M)
  unfolding bad_period add_tests check_failures metrics_of clone_time
  report_of now aggregated metrics = do
    aggregate ← aggregated
    let first = clone_time aggregate.first_test_at
    let last = clone_time aggregate.last_test_at
    reject (bad_period first last) bad_test_period
    total ← add_tests 0 aggregate.transports
    check_failures aggregate.failures_by_stage
    let (status, shown) = metrics_of metrics
    ok (record {
      generated_at = truncate now second;
      total_tests = total;
      first_test_at = first;
      last_test_at = last;
      active_users = aggregate.active_users;
      active_devices = aggregate.active_devices;
      transports = sort_by transport_less aggregate.transports;
      failures_by_stage = aggregate.failures_by_stage;
      failures_by_isp = aggregate.failures_by_isp;
      server_metrics_status = status;
      server_metrics = shown;
    })
