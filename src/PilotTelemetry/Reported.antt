-- ===== src/PilotTelemetry/Reported.antt =====
-- The report over the table: from rows that keep the constraints it is always made.
use virtual_cloud_help_servi.Prelude.{
  ℕ, zero, suc, ◌^◌, ◌≤◌, ◌<◌, ◌≡◌, refl, Bool, true, false, not, List, [], ◌∷◌, Option, length,
  take, leb, leb→le, arith, All, ok, map, ◌∙◌, ◌&&◌,
}
use virtual_cloud_help_servi.Prelude.Sort.{sort_by-All}
use virtual_cloud_help_servi.Prelude.Text.{Text}
use virtual_cloud_help_servi.GoTime.{Instant}
use virtual_cloud_help_servi.PilotTelemetry.{TestResult}
use virtual_cloud_help_servi.PilotTelemetry.Report.{IspFailure, Report, report_of}
use virtual_cloud_help_servi.PilotTelemetry.Table.{
  TelemetryTables, where_rows, count_rows, recent, transport_summaries, failure_summaries,
  isp_failures, isp_groups, aggregate, read_aggregate, column_is,
}
use virtual_cloud_help_servi.PilotTelemetry.Summaries.{
  All-map, where_rows-All, IsValidRow, add_tests-sum, summaries-sum, summaries-IsSound,
}
use virtual_cloud_help_servi.PilotTelemetry.Failures.{
  check_failures-lem, failures-IsFailure, bad_period-lem,
}

-- From a table whose rows keep its constraints and of which fewer than 2^64 are of the last 30
-- days, reads that work give a report, whatever the metrics source does; its total is the number
-- of those rows.
pub report-aggregate :
    {M : Type 0} (valid : M → Bool) (tables : TelemetryTables) (now at : Instant)
    (metrics : Option (Option M))
    → All IsValidRow tables.results
    → count_rows (recent now) tables.results < 2 ^ 64
    → (report : Report M) × (report_of valid at (read_aggregate true tables now at) metrics
        ≡ ok report)
      × (report.total_tests ≡ count_rows (recent now) tables.results)
unfolding report_of read_aggregate aggregate
report-aggregate valid tables now at metrics rows_ok small =
    let rows = where_rows (recent now) tables.results in
    let recent_ok = where_rows-All IsValidRow (recent now) tables.results rows_ok in
    let failed = where_rows (λ (r : TestResult). not r.success) rows in
    let failed_ok = where_rows-All IsValidRow (λ (r : TestResult). not r.success) rows recent_ok in
    let sum = summaries-sum rows in
    let total =
      add_tests-sum 0 (transport_summaries rows) (summaries-IsSound rows recent_ok) (omega arith) in
    let failures =
      check_failures-lem (failure_summaries failed) (failures-IsFailure failed failed_ok) in
    let period = bad_period-lem rows in rw (period, total, failures) (_, refl, omega (arith, sum))

take-All : {A : Type 0} (P : A → Type 0) (n : ℕ) (xs : List A) → All P xs → All P (take n xs)
take-All P zero xs h = tt
take-All P (suc n) [] h = tt
take-All P (suc n) (x ∷ xs) h = (h.0, take-All P n xs h.1)

take_at_most : {A : Type 0} (n : ℕ) (xs : List A) → length (take n xs) ≤ n
take_at_most zero xs = omega arith
take_at_most (suc n) [] = omega arith
take_at_most (suc n) (x ∷ xs) = omega (arith, take_at_most n xs)

where_rows-test :
    {A : Type 0} (p : A → Bool) (xs : List A) → All (λ x. p x ≡ true) (where_rows p xs)
unfolding where_rows
where_rows-test p [] = tt
where_rows-test p (x ∷ xs) = by_test (p x) refl (where_rows-test p xs)
  where
    by_test :
        (keep : Bool)
        → p x ≡ keep
        → All (λ y. p y ≡ true) (where_rows p xs)
        → All (λ y. p y ≡ true) (elim keep [ true ↦ x ∷ where_rows p xs | false ↦ where_rows p xs ])
    by_test true e rest = (e, rest)
    by_test false e rest = rest

count_rows-where :
    {A : Type 0} (p q : A → Bool) (xs : List A)
    → count_rows q (where_rows p xs) ≡ count_rows (λ x. p x && q x) xs
unfolding where_rows
count_rows-where p q [] = refl
count_rows-where p q (x ∷ xs) = ground (arith, count_rows-where p q xs)

-- A failed test of the last 30 days from the ISP.
abbrev pub failed_at : Instant → Text → TestResult → Bool
failed_at now isp r = recent now r && (not r.success && column_is isp r.isp)

abbrev pub HasCount : TelemetryTables → Instant → IspFailure → Type 0
HasCount tables now f = f.failures ≡ count_rows (failed_at now f.isp) tables.results

abbrev enough : IspFailure → Bool
enough f = leb 2 f.failures

-- An ISP with its failed tests of the last 30 days, two at least.
abbrev pub IsCounted : TelemetryTables → Instant → IspFailure → Type 0
IsCounted tables now f = HasCount tables now f × (2 ≤ f.failures)

count_failed :
    (tables : TelemetryTables) (now : Instant) (isp : Text)
    → count_rows
        (λ (r : TestResult). column_is isp r.isp)
        (where_rows (λ (r : TestResult). not r.success) (where_rows (recent now) tables.results))
      ≡ count_rows (failed_at now isp) tables.results
count_failed tables now isp =
    count_rows-where (λ (r : TestResult). not r.success) (λ (r : TestResult). column_is isp r.isp)
      (where_rows (recent now) tables.results)
    ∙ count_rows-where (recent now) (λ (r : TestResult). not r.success && column_is isp r.isp)
        tables.results

map-All :
    {A B : Type 0} (P : B → Type 0) (f : A → B) (xs : List A)
    → ((x : A) → P (f x))
    → All P (map f xs)
map-All P f [] h = tt
map-All P f (x ∷ xs) h = (h x, map-All P f xs h)

both-All :
    {A : Type 0} (P Q : A → Type 0) (xs : List A) → All P xs → All Q xs → All (λ x. P x × Q x) xs
both-All P Q [] h k = tt
both-All P Q (x ∷ xs) (h, hs) (k, ks) = ((h, k), both-All P Q xs hs ks)

-- The aggregate names at most a hundred ISPs, each with the number of its failed tests of the last
-- 30 days, which is two at least.
pub aggregate-failures_by_isp :
    (tables : TelemetryTables) (now at : Instant)
    → (length (aggregate tables now at).failures_by_isp ≤ 100)
      × All (IsCounted tables now) (aggregate tables now at).failures_by_isp
unfolding aggregate isp_failures
aggregate-failures_by_isp tables now at =
    let failed =
      where_rows (λ (r : TestResult). not r.success) (where_rows (recent now) tables.results) in
    let groups = isp_groups failed in
    let counted : All (HasCount tables now) groups =
      map-All (HasCount tables now) _ _ (λ isp. count_failed tables now isp) in
    (
      take_at_most 100 _,
      take-All (IsCounted tables now) 100 _ (
          sort_by-All _ (IsCounted tables now) _ (
            both-All (HasCount tables now) (λ (f : IspFailure). 2 ≤ f.failures) _
              (where_rows-All (HasCount tables now) enough groups counted)
              (All-map _ (λ (f : IspFailure). 2 ≤ f.failures) _
                (λ (f : IspFailure) (h : leb 2 f.failures ≡ true). leb→le 2 f.failures h)
                (where_rows-test enough groups)))),
    )
