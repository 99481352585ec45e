-- ===== src/PilotTelemetry/Failures.antt =====
-- The failures and the period that the store reads are ones that the report accepts.
use virtual_cloud_help_servi.Prelude.{
  ℕ, ◌≤◌, ◌≡◌, refl, true, false, List, [], ◌∷◌, Option, none, some, map, ltb, arith, ◌⊎◌, inl, inr,
  if◌then◌else◌, All, ok,
}
use virtual_cloud_help_servi.Prelude.Text.{Text, text_eq_refl, text_lt, contains}
use virtual_cloud_help_servi.Prelude.Sort.{sort_by, sort_by-All}
use virtual_cloud_help_servi.PilotAccess.Service.{clone_time}
use virtual_cloud_help_servi.PilotTelemetry.{TestResult, failure_stages}
use virtual_cloud_help_servi.PilotTelemetry.Report.{FailureSummary, bad_period, check_failures}
use virtual_cloud_help_servi.PilotTelemetry.Table.{
  where_rows, count_rows, distinct_keys, present, column_is, failure_summaries, first_test,
  last_test, result_row_ok,
}
use virtual_cloud_help_servi.PilotTelemetry.Summaries.{All-map, distinct_keys-All, IsValidRow}

-- A failure summary that the report accepts.
abbrev pub IsFailure : FailureSummary → Type 0
IsFailure f = (contains failure_stages f.stage ≡ true) × (1 ≤ f.failures)

pub check_failures-lem : (xs : List FailureSummary) → All IsFailure xs → check_failures xs ≡ ok tt
unfolding check_failures
check_failures-lem [] h = refl
check_failures-lem (f ∷ xs) (here, rest) = ground (arith, here, check_failures-lem xs rest)

abbrev stage_of : TestResult → Option Text
stage_of r = r.failure_stage

abbrev stages_counted : List TestResult → Text → ℕ
stages_counted rows k = count_rows (λ (r : TestResult). column_is k r.failure_stage) rows

row-stage :
    (r : TestResult) (k : Text)
    → IsValidRow r
    → r.failure_stage ≡ some k
    → contains failure_stages k ≡ true
unfolding result_row_ok
row-stage r k h found = ground (arith, found)

one_more :
    (r : TestResult) (rows : List TestResult) (k : Text)
    → stages_counted rows k ≤ stages_counted (r ∷ rows) k
unfolding where_rows
one_more r rows k = ground arith

counted_here :
    (r : TestResult) (rows : List TestResult) (k : Text)
    → r.failure_stage ≡ some k
    → 1 ≤ stages_counted (r ∷ rows) k
unfolding where_rows
counted_here r rows k found = ground (arith, found, text_eq_refl k)

abbrev IsStage : List TestResult → Text → Type 0
IsStage rows k = (contains failure_stages k ≡ true) × (1 ≤ stages_counted rows k)

stages-All :
    (rows : List TestResult)
    → All IsValidRow rows
    → All (IsStage rows) (present (map stage_of rows))
unfolding present
stages-All [] h = tt
stages-All (r ∷ rows) h = by_stage r.failure_stage refl (
    All-map (IsStage rows) (IsStage (r ∷ rows)) (present (map stage_of rows))
      (λ k s. (s.0, omega (arith, s.1, one_more r rows k))) (stages-All rows h.1))
  where
    by_stage :
        (stage : Option Text)
        → r.failure_stage ≡ stage
        → All (IsStage (r ∷ rows)) (present (map stage_of rows))
        → All (IsStage (r ∷ rows)) (present (stage ∷ map stage_of rows))
    by_stage none e rest = rest
    by_stage (some k) e rest = ((row-stage r k h.0 e, counted_here r rows k e), rest)

pub failures-IsFailure :
    (rows : List TestResult) → All IsValidRow rows → All IsFailure (failure_summaries rows)
unfolding failure_summaries
failures-IsFailure rows valid = each (sort_by text_lt keys) (
    sort_by-All text_lt (IsStage rows) keys
      (distinct_keys-All (IsStage rows) (present (map stage_of rows)) (stages-All rows valid)))
  where
    keys : List Text
    keys = distinct_keys (present (map stage_of rows))

    each :
        (ks : List Text)
        → All (IsStage rows) ks
        → All IsFailure (map (λ k. record { stage = k; failures = stages_counted rows k }) ks)
    each [] h = tt
    each (k ∷ ks) h = (h.0, each ks h.1)

-- The first and the last test are there together, and in order.
pub period-lem :
    (rows : List TestResult)
    → (first_test rows ≡ none) × (last_test rows ≡ none)
      ⊎ (a b : ℕ) × (first_test rows ≡ some a) × (last_test rows ≡ some b) × (a ≤ b)
unfolding first_test last_test
period-lem [] = inl (refl, refl)
period-lem (r ∷ rows) = inr (by_rest (period-lem rows))
  where
    by_rest :
        (first_test rows ≡ none) × (last_test rows ≡ none)
          ⊎ (a b : ℕ) × (first_test rows ≡ some a) × (last_test rows ≡ some b) × (a ≤ b)
        → (a b : ℕ) × (first_test (r ∷ rows) ≡ some a) × (last_test (r ∷ rows) ≡ some b) × (a ≤ b)
    by_rest (inl (e, k)) = (r.occurred_at, r.occurred_at, rw e refl, rw k refl, omega arith)
    by_rest (inr (a, b, e, k, le)) = (
      if ltb a r.occurred_at then a else r.occurred_at,
      if ltb b r.occurred_at then r.occurred_at else b,
      rw e refl,
      rw k refl,
      ground arith,
    )

pub bad_period-lem :
    (rows : List TestResult)
    → bad_period (clone_time (first_test rows)) (clone_time (last_test rows)) ≡ false
unfolding bad_period clone_time
bad_period-lem rows = elim (period-lem rows) [
  | inl (e, k) ↦ rw (e, k) refl
  | inr (a, b, e, k, le) ↦ rw (e, k) (ground arith)
]
