-- ===== src/PilotTelemetry.antt =====
-- internal/pilottelemetry/telemetry.go: results of the pilot's connection tests, their validation,
-- and the report over them. Success rates are not modelled: they are floating-point numbers.
pub mod Report
pub mod Table
pub mod Groups
pub mod Summaries
pub mod Failures
pub mod Reported
pub mod Recorded
pub mod Retention
pub mod Runs
use virtual_cloud_help_servi.Prelude.{
  ℕ, ◌+◌, ◌-◌, ◌*◌, ◌%◌, ◌^◌, Bool, true, false, not, ◌&&◌, ◌||◌, List, [], ◌∷◌, Option, none, some,
  map, all, leb, ltb, ◌==◌, length, is_none, if◌then◌else◌, Result, ok, err, reject, wrap, ◌>>=◌,
  ◌>>◌, is_ok,
}
use virtual_cloud_help_servi.Prelude.Text.{Text, bytes, text_eq, text_lt, contains}
use virtual_cloud_help_servi.Prelude.Sort.{sort_by}
use virtual_cloud_help_servi.GoTime.{
  Instant, Duration, second, minute, hour, is_zero, before, truncate,
}
use virtual_cloud_help_servi.VpnNode.{validate_transport}
use virtual_cloud_help_servi.PilotAccess.{uuid_pattern}
use virtual_cloud_help_servi.PilotAccess.Service.{clone_time}

abbrev pub maximum_result_age : Duration
maximum_result_age = 30 * 24 * hour

abbrev pub maximum_clock_skew : Duration
maximum_clock_skew = 5 * minute

abbrev pub maximum_isp_codepoints : ℕ
maximum_isp_codepoints = 100

pub data InvalidResult : Type 0 where
  bad_result_ids bad_platform bad_result_transport times_required bad_isp : InvalidResult
  inconsistent_failure bad_failure_stage bad_connection_bucket bad_throughput_bucket : InvalidResult
  outside_window refused_by_result_table : InvalidResult

-- `invalid_result` and `result_conflict` wrap ErrInvalid and ErrConflict.
pub data TelemetryFault : Type 0 where
  invalid_result returned_invalid_result : InvalidResult → TelemetryFault
  result_conflict no_result_id result_failure : TelemetryFault
  bad_test_period bad_aggregate bad_failure_aggregate : TelemetryFault

pub record TestResult : Type 0 where
  pub id : Text
  pub device_id : Text
  pub client_platform : Text
  pub isp : Option Text
  pub transport : Text
  pub occurred_at : Instant
  pub success : Bool
  pub failure_stage : Option Text
  pub connection_time_bucket : Text
  pub throughput_bucket : Option Text
  pub recorded_at : Instant

pub record RecordInput : Type 0 where
  pub device_id : Text
  pub client_platform : Text
  pub isp : Option Text
  pub transport : Text
  pub occurred_at : Instant
  pub success : Bool
  pub failure_stage : Option Text
  pub connection_time_bucket : Text
  pub throughput_bucket : Option Text

abbrev pub platforms : List Text
platforms = map bytes ("android" ∷ "ios" ∷ "linux" ∷ "macos" ∷ "windows" ∷ [])

abbrev pub failure_stages : List Text
failure_stages = map bytes (
    "server_health" ∷ "public_ip" ∷ "transport" ∷ "port" ∷ "server_outbound" ∷ "tunnel" ∷ "dns"
    ∷ "https" ∷ "ipv4_leak" ∷ "ipv6_leak" ∷ "upload" ∷ "download" ∷ "reconnect" ∷ [])

abbrev pub connection_buckets : List Text
connection_buckets = map bytes ("lt_3s" ∷ "3_10s" ∷ "10_30s" ∷ "gt_30s" ∷ "unknown" ∷ [])

abbrev pub throughput_buckets : List Text
throughput_buckets = map bytes ("lt_1_mbps" ∷ "1_10_mbps" ∷ "10_50_mbps" ∷ "gte_50_mbps" ∷ [])

-- What the program asks of Go's strings, utf8 and net.
pub record TextRules : Type 0 where
  -- strings.TrimSpace
  pub trim_space : Text → Text
  -- the runes of a string, or none where it is not valid UTF-8
  pub runes : Text → Option (List ℕ)
  -- net.ParseIP(s) != nil
  pub is_ip : Text → Bool

-- unicode.IsControl
abbrev pub is_control : ℕ → Bool
is_control c = ltb c 0x20 || (leb 0x7f c && ltb c 0xa0)

abbrev pub or_absent : (Text → Bool) → Option Text → Bool
or_absent p none = true
or_absent p (some s) = p s

module _ (rules : TextRules) where
  unfoldable pub valid_isp : Text → Bool
  unfolding all
  valid_isp value = elim (rules.runes value) [
    | none ↦ false
    | some characters ↦
        text_eq value (rules.trim_space value)
        && not (rules.is_ip value)
        && leb 1 (length characters)
        && leb (length characters) maximum_isp_codepoints
        && all (λ c. not (is_control c)) characters
  ]

  unfoldable pub validate_result : TestResult → Result InvalidResult (Unit {0})
  unfolding contains valid_isp
  validate_result result = do
    reject (not (uuid_pattern result.id) || not (uuid_pattern result.device_id)) bad_result_ids
    reject (not (contains platforms result.client_platform)) bad_platform
    wrap (λ _. bad_result_transport) (validate_transport result.transport)
    reject (is_zero result.occurred_at || is_zero result.recorded_at) times_required
    reject (not (or_absent valid_isp result.isp)) bad_isp
    reject
        (if result.success
          then not (is_none result.failure_stage)
          else is_none result.failure_stage)
        inconsistent_failure
    reject (not (or_absent (contains failure_stages) result.failure_stage)) bad_failure_stage
    reject (not (contains connection_buckets result.connection_time_bucket)) bad_connection_bucket
    reject (not (or_absent (contains throughput_buckets) result.throughput_bucket))
        bad_throughput_bucket

  abbrev trimmed : Option Text → Option Text
  trimmed none = none
  trimmed (some s) = some (rules.trim_space s)

  unfoldable pub new_result : Instant → Text → RecordInput → TestResult
  new_result now identifier input = record {
    id = identifier;
    device_id = input.device_id;
    client_platform = input.client_platform;
    isp = trimmed input.isp;
    transport = input.transport;
    occurred_at = truncate input.occurred_at second;
    success = input.success;
    failure_stage = input.failure_stage;
    connection_time_bucket = input.connection_time_bucket;
    throughput_bucket = input.throughput_bucket;
    recorded_at = now;
  }

  -- What `Record` hands to the store, or why it does not.
  unfoldable pub checked_result : Instant → Text → RecordInput → Result InvalidResult TestResult
  unfolding validate_result new_result
  checked_result now identifier input = do
    let result = new_result now identifier input
    reject
        (before result.occurred_at (now - maximum_result_age)
          || before (now + maximum_clock_skew) result.occurred_at)
        outside_window
    validate_result result
    ok result

  module _ {S : Type 0} (create : S → TestResult → S × Result TelemetryFault TestResult) where
    -- The check on what the store returned.
    unfoldable pub check_stored :
        S × Result TelemetryFault TestResult → S × Result TelemetryFault TestResult
    check_stored (s, err fault) = (s, err fault)
    check_stored (s, ok stored) = elim (validate_result stored) [
      | err reason ↦ (s, err (returned_invalid_result reason))
      | ok done ↦ (s, ok stored)
    ]

    unfoldable pub record_result :
        S → Instant → Option Text → RecordInput → S × Result TelemetryFault TestResult
    unfolding checked_result check_stored
    record_result s now none input = (s, err no_result_id)
    record_result s now (some identifier) input =
        elim (checked_result (truncate now second) identifier input) [
          | err reason ↦ (s, err (invalid_result reason))
          | ok result ↦ check_stored (create s result)
        ]
