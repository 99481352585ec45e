-- ===== src/PilotTelemetry/Summaries.antt =====
-- The summaries of transports that the store reads are ones that the report accepts.
use virtual_cloud_help_servi.Prelude.{
  ℕ, ◌+◌, ◌%◌, ◌^◌, ◌≤◌, ◌<◌, ◌≡◌, refl, Bool, true, false, ◌&&◌, List, [], ◌∷◌, map, length, arith,
  ap, ◌∙◌, All, ok,
}
use virtual_cloud_help_servi.Prelude.Text.{Text, text_eq, text_lt, contains}
use virtual_cloud_help_servi.Prelude.Sort.{sort_by, sort_by-All}
use virtual_cloud_help_servi.VpnNode.{validate_transport}
use virtual_cloud_help_servi.PilotTelemetry.{TestResult}
use virtual_cloud_help_servi.PilotTelemetry.Report.{TransportSummary, add_tests}
use virtual_cloud_help_servi.PilotTelemetry.Table.{
  where_rows, count_rows, distinct_keys, summary_of, transport_summaries, result_row_ok,
}
use virtual_cloud_help_servi.PilotTelemetry.Groups.{sum_of, sum-sort_by, rows_of, sum-groups}

module _ {A : Type 0} where
  pub All-map : (P Q : A → Type 0) (xs : List A) → ((x : A) → P x → Q x) → All P xs → All Q xs
  All-map P Q [] f h = tt
  All-map P Q (x ∷ xs) f h = (f x h.0, All-map P Q xs f h.1)

  pub where_rows-All :
      (P : A → Type 0) (p : A → Bool) (xs : List A) → All P xs → All P (where_rows p xs)
  unfolding where_rows
  where_rows-All P p [] h = tt
  where_rows-All P p (x ∷ xs) h = by_test (p x) (where_rows-All P p xs h.1)
    where
      by_test :
          (keep : Bool)
          → All P (where_rows p xs)
          → All P (elim keep [ true ↦ x ∷ where_rows p xs | false ↦ where_rows p xs ])
      by_test true rest = (h.0, rest)
      by_test false rest = rest

  fewer_rows : (p q : A → Bool) (xs : List A) → count_rows (λ x. p x && q x) xs ≤ count_rows p xs
  unfolding where_rows
  fewer_rows p q [] = omega arith
  fewer_rows p q (x ∷ xs) = ground (arith, fewer_rows p q xs)

pub distinct_keys-All : (P : Text → Type 0) (ks : List Text) → All P ks → All P (distinct_keys ks)
unfolding distinct_keys
distinct_keys-All P [] h = tt
distinct_keys-All P (k ∷ ks) h =
    by_seen (contains (distinct_keys ks) k) (distinct_keys-All P ks h.1)
  where
    by_seen :
        (seen : Bool)
        → All P (distinct_keys ks)
        → All P (elim seen [ true ↦ distinct_keys ks | false ↦ k ∷ distinct_keys ks ])
    by_seen true rest = rest
    by_seen false rest = (h.0, rest)

-- A summary that the report accepts.
abbrev pub IsSound : TransportSummary → Type 0
IsSound s = (validate_transport s.transport ≡ ok tt) × (s.successes ≤ s.tests)

pub add_tests-sum :
    (total : ℕ) (xs : List TransportSummary)
    → All IsSound xs
    → total + sum_of (λ (s : TransportSummary). s.tests) xs < 2 ^ 64
    → add_tests total xs ≡ ok (total + sum_of (λ (s : TransportSummary). s.tests) xs)
unfolding add_tests
add_tests-sum total [] sound lt = ap ok (omega arith)
add_tests-sum total (s ∷ xs) (here, rest) lt =
    let small : (total + s.tests) % 2 ^ 64 ≡ total + s.tests = omega arith in
    let more = add_tests-sum (total + s.tests) xs rest (omega arith) in
    let same : total + s.tests + sum_of (λ (s : TransportSummary). s.tests) xs
        ≡ total + (s.tests + sum_of (λ (s : TransportSummary). s.tests) xs) =
      omega arith in
    rw (here.0) (ground (arith, here.1, small, more, same))

sum-map_summary :
    (rows : List TestResult) (keys : List Text)
    → sum_of (λ (s : TransportSummary). s.tests) (map (summary_of rows) keys)
      ≡ sum_of (rows_of (λ (r : TestResult). r.transport) rows) keys
sum-map_summary rows [] = refl
sum-map_summary rows (k ∷ keys) =
    ap (λ n. rows_of (λ (r : TestResult). r.transport) rows k + n) (sum-map_summary rows keys)

pub summaries-sum :
    (rows : List TestResult)
    → sum_of (λ (s : TransportSummary). s.tests) (transport_summaries rows) ≡ length rows
unfolding transport_summaries
summaries-sum rows =
    let keys = distinct_keys (map (λ (r : TestResult). r.transport) rows) in
    sum-map_summary rows (sort_by text_lt keys)
    ∙ sum-sort_by (rows_of (λ (r : TestResult). r.transport) rows) text_lt keys
    ∙ sum-groups (λ (r : TestResult). r.transport) rows

abbrev pub IsValidRow : TestResult → Type 0
IsValidRow r = result_row_ok r ≡ true

row-transport : (r : TestResult) → IsValidRow r → validate_transport r.transport ≡ ok tt
unfolding result_row_ok validate_transport
row-transport r h = ground arith

pub summaries-IsSound :
    (rows : List TestResult) → All IsValidRow rows → All IsSound (transport_summaries rows)
unfolding transport_summaries
summaries-IsSound rows valid = each (sort_by text_lt keys) (
    sort_by-All text_lt _ keys
      (distinct_keys-All _ (map (λ (r : TestResult). r.transport) rows) (of_rows rows valid)))
  where
    keys : List Text
    keys = distinct_keys (map (λ (r : TestResult). r.transport) rows)

    of_rows :
        (rs : List TestResult)
        → All IsValidRow rs
        → All (λ k. validate_transport k ≡ ok tt) (map (λ (r : TestResult). r.transport) rs)
    of_rows [] h = tt
    of_rows (r ∷ rs) h = (row-transport r h.0, of_rows rs h.1)

    each :
        (ks : List Text)
        → All (λ k. validate_transport k ≡ ok tt) ks
        → All IsSound (map (summary_of rows) ks)
    each [] h = tt
    each (k ∷ ks) h = (
      (
        h.0,
        fewer_rows (λ (r : TestResult). text_eq r.transport k) (λ (r : TestResult). r.success) rows,
      ),
      each ks h.1,
    )
