-- ===== src/PilotTelemetry/Retention.antt =====
-- What the store keeps of earlier results when it adds one.
use virtual_cloud_help_servi.Prelude.{
  ℕ, zero, suc, ◌-◌, ◌≤◌, ◌≡◌, refl, Bool, true, false, not, List, [], ◌∷◌, some, map, length, take,
  ltb, arith, ap, ◌∙◌, ◌⊎◌, inl, inr, All, Result, ok, err,
}
use virtual_cloud_help_servi.Prelude.Text.{Text, text_eq_refl, contains}
use virtual_cloud_help_servi.Prelude.Sort.{insert_by, sort_by}
use virtual_cloud_help_servi.Prelude.Keyed.{length-sort_by}
use virtual_cloud_help_servi.GoTime.{Instant, before, truncate, second}
use virtual_cloud_help_servi.PilotTelemetry.{
  TestResult, RecordInput, InvalidResult, TextRules, TelemetryFault, result_failure, invalid_result,
  checked_result, record_result, check_stored, maximum_result_age,
}
use virtual_cloud_help_servi.PilotTelemetry.Table.{
  TelemetryTables, where_rows, count_rows, delete_expired, insert_result, classify_create,
  create_result, result_row_ok,
}
use virtual_cloud_help_servi.PilotAccess.Store.{SqlFault}
use virtual_cloud_help_servi.PilotTelemetry.Summaries.{All-map}
use virtual_cloud_help_servi.PilotTelemetry.Recorded.{checked_result-recorded}

abbrev ids_of : List TestResult → List Text
ids_of = map (λ (r : TestResult). r.id)

contains-insert_by :
    (less : TestResult → TestResult → Bool) (r : TestResult) (rows : List TestResult) (k : Text)
    → contains (ids_of (insert_by less r rows)) k ≡ contains (ids_of (r ∷ rows)) k
unfolding contains insert_by
contains-insert_by less r [] k = refl
contains-insert_by less r (x ∷ rows) k = ground (arith, contains-insert_by less r rows k)

contains-sort_by :
    (less : TestResult → TestResult → Bool) (rows : List TestResult) (k : Text)
    → contains (ids_of (sort_by less rows)) k ≡ contains (ids_of rows) k
unfolding contains sort_by
contains-sort_by less [] k = refl
contains-sort_by less (r ∷ rows) k =
    contains-insert_by less r (sort_by less rows) k ∙ ground (arith, contains-sort_by less rows k)

take_all : {A : Type 0} (n : ℕ) (xs : List A) → length xs ≤ n → take n xs ≡ xs
take_all zero [] h = refl
take_all zero (x ∷ xs) h = absurd (omega arith)
take_all (suc n) [] h = refl
take_all (suc n) (x ∷ xs) h = ap (λ ys. x ∷ ys) (take_all n xs (omega arith))

abbrev expired : Instant → TestResult → Bool
expired limit r = before r.occurred_at limit

-- Rows whose expired ones are all listed lose them all.
unlisted :
    (limit : Instant) (listed : List Text) (rows : List TestResult)
    → All (λ (r : TestResult). (expired limit r ≡ true → contains listed r.id ≡ true)) rows
    → All
        (λ (r : TestResult). expired limit r ≡ false)
        (where_rows (λ (r : TestResult). not (contains listed r.id)) rows)
unfolding where_rows
unlisted limit listed [] h = tt
unlisted limit listed (r ∷ rows) h =
    by_id (contains listed r.id) refl (unlisted limit listed rows h.1)
  where
    kept : List TestResult
    kept = where_rows (λ (r : TestResult). not (contains listed r.id)) rows

    by_id :
        (found : Bool)
        → contains listed r.id ≡ found
        → All (λ (r : TestResult). expired limit r ≡ false) kept
        → All
            (λ (r : TestResult). expired limit r ≡ false)
            (elim (not found) [ true ↦ r ∷ kept | false ↦ kept ])
    by_id true e rest = rest
    by_id false e rest = (ground (arith, h.0), rest)

listed_expired :
    (limit : Instant) (rows : List TestResult)
    → All
        (λ (r : TestResult).
          (expired limit r ≡ true
            → contains (ids_of (where_rows (expired limit) rows)) r.id ≡ true))
        rows
unfolding where_rows contains
listed_expired limit [] = tt
listed_expired limit (r ∷ rows) = (
  λ old. ground (arith, text_eq_refl r.id),
  All-map _ _ rows (λ x f old. ground (arith, f old)) (listed_expired limit rows),
)

delete_expired-none_expired :
    (limit : Instant) (rows : List TestResult)
    → count_rows (expired limit) rows ≤ 1000
    → All (λ (r : TestResult). expired limit r ≡ false) (delete_expired limit rows)
unfolding delete_expired
delete_expired-none_expired limit rows few =
    let old = where_rows (expired limit) rows in
    let sorted = sort_by (λ (a b : TestResult). ltb a.occurred_at b.occurred_at) old in
    let all_of : take 1000 sorted ≡ sorted = take_all 1000 sorted (
      omega
        (arith, few, length-sort_by (λ (a b : TestResult). ltb a.occurred_at b.occurred_at) old)) in
    rw all_of (
      unlisted limit (ids_of sorted) rows (
        All-map _ _ rows
          (λ x f is_old.
            contains-sort_by (λ (a b : TestResult). ltb a.occurred_at b.occurred_at) old x.id
            ∙ f is_old)
          (listed_expired limit rows)))

insert_result-ok :
    (label_ok : Text → Bool) (tables : TelemetryTables) (r : TestResult) {after : TelemetryTables}
    → insert_result label_ok tables r ≡ ok after
    → (after.results ≡ r ∷ tables.results) × (result_row_ok r ≡ true)
unfolding insert_result
insert_result-ok label_ok tables r h = ground arith

-- What one call of `Create` does to the rows.
pub create_result-rows :
    (label_ok : Text → Bool) (deletes inserts : Bool) (tables : TelemetryTables) (r : TestResult)
    → let out = create_result label_ok deletes inserts tables r in
      let kept = delete_expired (r.recorded_at - maximum_result_age) tables.results in
      ((f : TelemetryFault) × (out.1 ≡ err f)
        × ((out.0.results ≡ tables.results) ⊎ (out.0.results ≡ kept)))
      ⊎ (out.1 ≡ ok r) × (out.0.results ≡ r ∷ kept) × (result_row_ok r ≡ true)
unfolding create_result
create_result-rows label_ok false inserts tables r = inl (result_failure, refl, inl refl)
create_result-rows label_ok true false tables r = inl (result_failure, refl, inr refl)
create_result-rows label_ok true true tables r = by_insert (insert_result label_ok cleared r) refl
  where
    kept : List TestResult
    kept = delete_expired (r.recorded_at - maximum_result_age) tables.results

    cleared : TelemetryTables
    cleared = record tables { results = kept }

    by_insert :
        (done : Result SqlFault TelemetryTables)
        → insert_result label_ok cleared r ≡ done
        → (let out : TelemetryTables × Result TelemetryFault TestResult = elim done [
          | err fault ↦ (cleared, err (classify_create fault))
          | ok after ↦ (after, ok r)
        ] in
            ((f : TelemetryFault) × (out.1 ≡ err f)
              × ((out.0.results ≡ tables.results) ⊎ (out.0.results ≡ kept)))
            ⊎ (out.1 ≡ ok r) × (out.0.results ≡ r ∷ kept) × (result_row_ok r ≡ true))
    by_insert (err fault) e = inl (classify_create fault, refl, inr refl)
    by_insert (ok after) e =
        let (rows, row) = insert_result-ok label_ok cleared r {after = after} e in
        inr (refl, rows, row)

pub check_stored-ok :
    (rules : TextRules)
    (create : TelemetryTables → TestResult → TelemetryTables × Result TelemetryFault TestResult)
    (out : TelemetryTables × Result TelemetryFault TestResult) {result : TestResult}
    → (check_stored rules create out).1 ≡ ok result
    → (out.1 ≡ ok result) × ((check_stored rules create out).0 ≡ out.0)
unfolding check_stored
check_stored-ok rules create (s, err fault) h = absurd (ground arith)
check_stored-ok rules create (s, ok stored) h = ground arith

-- Where at most a thousand results are older than 30 days, a result that the service records is
-- added, and what is left of the others is not older than that.
pub record_result-retention :
    (rules : TextRules) (label_ok : Text → Bool) (deletes inserts : Bool) (tables : TelemetryTables)
    (now : Instant) (id : Text) (input : RecordInput) {result : TestResult}
    → let out =
        record_result rules (create_result label_ok deletes inserts) tables now (some id) input in
      let limit = truncate now second - maximum_result_age in
      out.1 ≡ ok result
      → count_rows (λ (r : TestResult). before r.occurred_at limit) tables.results ≤ 1000
      → (rest : List TestResult) × (out.0.results ≡ result ∷ rest)
        × All (λ (r : TestResult). before r.occurred_at limit ≡ false) (result ∷ rest)
unfolding record_result
record_result-retention rules label_ok deletes inserts tables now id input {result} h few =
    by_check (checked_result rules (truncate now second) id input) refl h
  where
    limit : Instant
    limit = truncate now second - maximum_result_age

    by_check :
        (checked : Result InvalidResult TestResult)
        → checked_result rules (truncate now second) id input ≡ checked
        → (let out : TelemetryTables × Result TelemetryFault TestResult = elim checked [
          | err reason ↦ (tables, err (invalid_result reason))
          | ok r ↦
              check_stored rules
                (create_result label_ok deletes inserts)
                (create_result label_ok deletes inserts tables r)
        ] in
            out.1 ≡ ok result
            → (rest : List TestResult) × (out.0.results ≡ result ∷ rest)
              × All (λ (r : TestResult). before r.occurred_at limit ≡ false) (result ∷ rest))
    by_check (err reason) e k = absurd (ground arith)
    by_check (ok r) e k =
        let (recorded, late) =
          checked_result-recorded rules (truncate now second) id input {result = r} e in
        let (stored, same) =
          check_stored-ok rules (create_result label_ok deletes inserts)
            (create_result label_ok deletes inserts tables r) {result = result} k in
        elim (create_result-rows label_ok deletes inserts tables r) [
          | inl (f, failed, rows) ↦ absurd (ground arith)
          | inr (made, rows, row) ↦
              let equal : result ≡ r = ground arith in
              let kept = delete_expired-none_expired limit tables.results few in
              rw equal (
                delete_expired limit tables.results,
                ap (λ (t : TelemetryTables). t.results) same
                    ∙ rows
                    ∙ ap
                        (λ (t : Instant).
                          r ∷ delete_expired (t - maximum_result_age) tables.results)
                        recorded,
                (late, kept),
              )
        ]
