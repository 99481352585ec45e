-- ===== src/PilotTelemetry/Runs.antt =====
-- A report after any records.
use virtual_cloud_help_servi.Prelude.{
  ◌^◌, ◌<◌, ◌≡◌, refl, Bool, true, List, [], ◌∷◌, Option, none, some, arith, inl, inr, All, Result,
  ok, err,
}
use virtual_cloud_help_servi.Prelude.Text.{Text}
use virtual_cloud_help_servi.GoTime.{Instant, truncate, second}
use virtual_cloud_help_servi.PilotTelemetry.{
  TestResult, RecordInput, InvalidResult, TextRules, TelemetryFault, invalid_result, checked_result,
  record_result, check_stored,
}
use virtual_cloud_help_servi.PilotTelemetry.Table.{
  TelemetryTables, count_rows, delete_expired, create_result,
}
use virtual_cloud_help_servi.PilotTelemetry.Summaries.{where_rows-All}
use virtual_cloud_help_servi.PilotTelemetry.Report.{Report, report_of}
use virtual_cloud_help_servi.PilotTelemetry.Table.{recent, read_aggregate}
use virtual_cloud_help_servi.PilotTelemetry.Summaries.{IsValidRow}
use virtual_cloud_help_servi.PilotTelemetry.Reported.{report-aggregate}
use virtual_cloud_help_servi.PilotTelemetry.Retention.{create_result-rows}

-- A call of `Record`: the clock, what `newID` gives, and which statements of the store work.
pub record Recording : Type 0 where
  pub now : Instant
  pub new_id : Option Text
  pub input : RecordInput
  pub deletes : Bool
  pub inserts : Bool

module _ (rules : TextRules) (label_ok : Text → Bool) where
  unfoldable pub record_all : TelemetryTables → List Recording → TelemetryTables
  unfolding record_result
  record_all tables [] = tables
  record_all tables (r ∷ rest) =
      record_all
        (record_result rules (create_result label_ok r.deletes r.inserts) tables r.now r.new_id
          r.input).0
        rest

  create_result-IsValid :
      (deletes inserts : Bool) (tables : TelemetryTables) (r : TestResult)
      → All IsValidRow tables.results
      → All IsValidRow (create_result label_ok deletes inserts tables r).0.results
  unfolding delete_expired
  create_result-IsValid deletes inserts tables r valid =
      let kept = where_rows-All IsValidRow _ tables.results valid in
      elim (create_result-rows label_ok deletes inserts tables r) [
        | inl (f, failed, inl same) ↦ rw same valid
        | inl (f, failed, inr same) ↦ rw same kept
        | inr (made, rows, row) ↦ rw rows (row, kept)
      ]

  check_stored-tables :
      (create : TelemetryTables → TestResult → TelemetryTables × Result TelemetryFault TestResult)
      (out : TelemetryTables × Result TelemetryFault TestResult)
      → (check_stored rules create out).0 ≡ out.0
  unfolding check_stored
  check_stored-tables create (s, err fault) = refl
  check_stored-tables create (s, ok stored) = ground arith

  record_result-IsValid :
      (deletes inserts : Bool) (tables : TelemetryTables) (now : Instant) (id : Option Text)
      (input : RecordInput)
      → All IsValidRow tables.results
      → All IsValidRow
          (record_result rules
            (create_result label_ok deletes inserts)
            tables
            now
            id
            input).0.results
  unfolding record_result
  record_result-IsValid deletes inserts tables now none input valid = valid
  record_result-IsValid deletes inserts tables now (some id) input valid =
      by_check (checked_result rules (truncate now second) id input)
    where
      by_check :
          (checked : Result InvalidResult TestResult)
          → (let out : TelemetryTables × Result TelemetryFault TestResult = elim checked [
            | err reason ↦ (tables, err (invalid_result reason))
            | ok r ↦
                check_stored rules
                  (create_result label_ok deletes inserts)
                  (create_result label_ok deletes inserts tables r)
          ] in
              All IsValidRow out.0.results)
      by_check (err reason) = valid
      by_check (ok r) =
          rw
            (check_stored-tables (create_result label_ok deletes inserts)
              (create_result label_ok deletes inserts tables r))
            (create_result-IsValid deletes inserts tables r valid)

  record_all-IsValid :
      (tables : TelemetryTables) (calls : List Recording)
      → All IsValidRow tables.results
      → All IsValidRow (record_all tables calls).results
  unfolding record_all
  record_all-IsValid tables [] valid = valid
  record_all-IsValid tables (r ∷ rest) valid =
      record_all-IsValid
        (record_result rules (create_result label_ok r.deletes r.inserts) tables r.now r.new_id
          r.input).0
        rest (record_result-IsValid r.deletes r.inserts tables r.now r.new_id r.input valid)

  -- From a table that keeps its constraints, after any calls of `Record`, whichever fail, reads
  -- that work give a report, whatever the metrics source does; its total is the number of results
  -- of the last 30 days, provided that is below 2^64.
  pub record_all-report :
      {M : Type 0} (valid : M → Bool) (tables : TelemetryTables) (calls : List Recording)
      (now at : Instant) (metrics : Option (Option M))
      → All IsValidRow tables.results
      → let after = record_all tables calls in
        count_rows (recent now) after.results < 2 ^ 64
        → (report : Report M) × (report_of valid at (read_aggregate true after now at) metrics
            ≡ ok report)
          × (report.total_tests ≡ count_rows (recent now) after.results)
  record_all-report valid tables calls now at metrics rows_ok small =
      report-aggregate valid (record_all tables calls) now at metrics
        (record_all-IsValid tables calls rows_ok) small
