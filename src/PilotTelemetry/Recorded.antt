-- ===== src/PilotTelemetry/Recorded.antt =====
-- What the service records, and what the store keeps of earlier results.
use virtual_cloud_help_servi.Prelude.{
  ◌+◌, ◌-◌, ◌≡◌, refl, Bool, true, false, not, ◌&&◌, ◌||◌, arith, if◌then◌else◌, ok, is_none,
}
use virtual_cloud_help_servi.Prelude.Text.{Text, bytes, text_eq, contains}
use virtual_cloud_help_servi.GoTime.{Instant, before}
use virtual_cloud_help_servi.VpnNode.{validate_transport}
use virtual_cloud_help_servi.PilotTelemetry.{
  platforms, failure_stages, connection_buckets, throughput_buckets, or_absent, TestResult,
  RecordInput, TextRules, checked_result, new_result, validate_result, maximum_result_age,
  maximum_clock_skew,
}
use virtual_cloud_help_servi.PilotTelemetry.Table.{result_row_ok}

-- The constraints of a row, one by one.
all_true :
    (a b c d e f g h : Bool)
    → a ≡ true
    → b ≡ true
    → c ≡ true
    → d ≡ true
    → e ≡ true
    → f ≡ true
    → g ≡ true
    → h ≡ true
    → (a && b && c && d && e && f && g && h) ≡ true
all_true a b c d e f g h p q r s t u v w = rw (p, q, r, s, t, u, v, w) refl

stage_flips :
    (success missing : Bool)
    → (if success then not missing else missing) ≡ false
    → (if success then missing else not missing) ≡ true
stage_flips success missing h = ground arith

-- What validation finds, without the label of the ISP and the identifiers.
Validated : TestResult → Type 0
Validated r =
    (contains platforms r.client_platform ≡ true)
    × (validate_transport r.transport ≡ ok tt)
    × ((if r.success then not (is_none r.failure_stage) else is_none r.failure_stage) ≡ false)
    × (or_absent (contains failure_stages) r.failure_stage ≡ true)
    × (contains connection_buckets r.connection_time_bucket ≡ true)
    × (or_absent (contains throughput_buckets) r.throughput_bucket ≡ true)

validate_result-Validated :
    (rules : TextRules) (r : TestResult) → validate_result rules r ≡ ok tt → Validated r
unfolding validate_result Validated
validate_result-Validated rules r h =
    (ground arith, ground arith, ground arith, ground arith, ground arith, ground arith)

transport-checked :
    (t : Text)
    → validate_transport t ≡ ok tt
    → (text_eq t (bytes "amneziawg") || text_eq t (bytes "xray_reality")) ≡ true
unfolding validate_transport
transport-checked t h = ground arith

Validated-row_ok :
    (r : TestResult)
    → Validated r
    → before r.occurred_at (r.recorded_at - maximum_result_age) ≡ false
    → before (r.recorded_at + maximum_clock_skew) r.occurred_at ≡ false
    → result_row_ok r ≡ true
unfolding result_row_ok Validated
Validated-row_ok r (platform, transport, stage, known, bucket, throughput) early late =
    all_true (contains platforms r.client_platform) _ _ _ _ _ _ _ platform
      (transport-checked r.transport transport) known bucket throughput
      (stage_flips r.success (is_none r.failure_stage) stage) (ground (arith, early))
      (ground (arith, late))

-- What the service hands to the store keeps the constraints of the table, those on the label of
-- the ISP aside.
pub checked_result-row_ok :
    (rules : TextRules) (now : Instant) (id : Text) (input : RecordInput) {result : TestResult}
    → checked_result rules now id input ≡ ok result
    → result_row_ok result ≡ true
unfolding checked_result new_result
checked_result-row_ok rules now id input {result} h =
    let r = new_result rules now id input in
    let valid : validate_result rules r ≡ ok tt = ground arith in
    let same : r ≡ result = ground arith in
    rw (← same)
      (Validated-row_ok r (validate_result-Validated rules r valid) (ground arith) (ground arith))

-- It was recorded now, and did not occur more than 30 days before.
pub checked_result-recorded :
    (rules : TextRules) (now : Instant) (id : Text) (input : RecordInput) {result : TestResult}
    → checked_result rules now id input ≡ ok result
    → (result.recorded_at ≡ now) × (before result.occurred_at (now - maximum_result_age) ≡ false)
unfolding checked_result new_result
checked_result-recorded rules now id input {result} h =
    let valid : validate_result rules (new_result rules now id input) ≡ ok tt = ground arith in
    let same : new_result rules now id input ≡ result = ground arith in
    rw (← same) (refl, ground arith)
