-- ===== src/PilotTelemetry/Groups.antt =====
-- Counts by group: the counts of the distinct keys of some rows add up to the rows.
use virtual_cloud_help_servi.Prelude.{
  ℕ, suc, ◌+◌, ◌≡◌, refl, Bool, true, false, List, [], ◌∷◌, map, length, arith, if◌then◌else◌,
}
use virtual_cloud_help_servi.Prelude.Text.{Text, text_eq, text_eq_iff, text_eq_refl, contains}
use virtual_cloud_help_servi.Prelude.Sort.{insert_by, sort_by}
use virtual_cloud_help_servi.PilotTelemetry.Table.{where_rows, count_rows, distinct_keys}

module _ {A : Type 0} where
  abbrev pub sum_of : (A → ℕ) → List A → ℕ
  sum_of f [] = 0
  sum_of f (x ∷ xs) = f x + sum_of f xs

  sum-insert_by :
      (f : A → ℕ) (less : A → A → Bool) (x : A) (xs : List A)
      → sum_of f (insert_by less x xs) ≡ f x + sum_of f xs
  unfolding insert_by
  sum-insert_by f less x [] = refl
  sum-insert_by f less x (y ∷ ys) = ground (arith, sum-insert_by f less x ys)

  pub sum-sort_by :
      (f : A → ℕ) (less : A → A → Bool) (xs : List A) → sum_of f (sort_by less xs) ≡ sum_of f xs
  unfolding sort_by
  sum-sort_by f less [] = refl
  sum-sort_by f less (x ∷ xs) =
      omega (arith, sum-insert_by f less x (sort_by less xs), sum-sort_by f less xs)

-- How often a key occurs.
abbrev occurrences : Text → List Text → ℕ
occurrences k [] = 0
occurrences k (x ∷ xs) = (if text_eq x k then 1 else 0) + occurrences k xs

occurrences-distinct_keys :
    (k : Text) (ks : List Text)
    → occurrences k (distinct_keys ks) ≡ (if contains (distinct_keys ks) k then 1 else 0)
unfolding distinct_keys contains
occurrences-distinct_keys k [] = refl
occurrences-distinct_keys k (x ∷ xs) =
    ground (arith, occurrences-distinct_keys k xs, text_eq_iff x k)

contains-distinct_keys : (k : Text) (ks : List Text) → contains (distinct_keys ks) k ≡ contains ks k
unfolding distinct_keys contains
contains-distinct_keys k [] = refl
contains-distinct_keys k (x ∷ xs) = ground (arith, contains-distinct_keys k xs, text_eq_iff x k)

-- The rows of a key.
module _ {A : Type 0} (key : A → Text) where
  abbrev pub rows_of : List A → Text → ℕ
  rows_of rows k = count_rows (λ r. text_eq (key r) k) rows

  -- One more row adds its key's occurrences among the keys.
  sum-rows_of :
      (r : A) (rows : List A) (keys : List Text)
      → sum_of (rows_of (r ∷ rows)) keys ≡ occurrences (key r) keys + sum_of (rows_of rows) keys
  unfolding where_rows
  sum-rows_of r rows [] = refl
  sum-rows_of r rows (k ∷ keys) =
      ground (arith, sum-rows_of r rows keys, text_eq_iff (key r) k, text_eq_iff k (key r))

  no_rows : (k : Text) (rows : List A) → contains (map key rows) k ≡ false → rows_of rows k ≡ 0
  unfolding where_rows contains
  no_rows k [] h = refl
  no_rows k (r ∷ rows) h = ground (arith, no_rows k rows)

  pub sum-groups :
      (rows : List A) → sum_of (rows_of rows) (distinct_keys (map key rows)) ≡ length rows
  unfolding distinct_keys where_rows
  sum-groups [] = refl
  sum-groups (r ∷ rows) = by_key (contains keys (key r)) refl (sum-groups rows)
    where
      keys : List Text
      keys = distinct_keys (map key rows)

      by_key :
          (seen : Bool)
          → contains keys (key r) ≡ seen
          → sum_of (rows_of rows) keys ≡ length rows
          → sum_of (rows_of (r ∷ rows)) (elim seen [ true ↦ keys | false ↦ key r ∷ keys ])
            ≡ suc (length rows)
      by_key true h sum =
          ground (arith, sum-rows_of r rows keys, occurrences-distinct_keys (key r) (map key rows))
      by_key false h sum = ground (
        arith,
        sum-rows_of r rows keys,
        occurrences-distinct_keys (key r) (map key rows),
        no_rows (key r) rows,
        contains-distinct_keys (key r) (map key rows),
        text_eq_refl (key r),
      )
