-- ===== src/Prelude/Keyed.antt =====
-- Lists whose entries have a text for a key: lookup of the first entry with a key, and what
-- sorting does to it. With distinct keys, a lookup does not depend on the order.
use mathlib.Core.Path.{◌≡◌, refl, ◌∙◌}
use mathlib.Core.Logic.{inl, inr}
use mathlib.Core.Bool.{Bool}
use mathlib.Core.Option.{Option, none, some}
use mathlib.Core.List.{List, [], ◌∷◌}
use native.Mathlib.Omega.{arith}
use virtual_cloud_help_servi.Prelude.Tests.{if◌then◌else◌, Bool-cases}
use virtual_cloud_help_servi.Prelude.Text.{Text, text_eq, text_eq_iff}
use virtual_cloud_help_servi.Prelude.Lists.{length}
use Prim.Native.Nat.{suc}
use virtual_cloud_help_servi.Prelude.Sort.{insert_by, sort_by}

module _ {A : Type 0} (less : A → A → Bool) where
  length-insert_by : (x : A) (xs : List A) → length (insert_by less x xs) ≡ suc (length xs)
  unfolding insert_by
  length-insert_by x [] = refl
  length-insert_by x (y ∷ ys) = ground (arith, length-insert_by x ys)

  pub length-sort_by : (xs : List A) → length (sort_by less xs) ≡ length xs
  unfolding sort_by
  length-sort_by [] = refl
  length-sort_by (x ∷ xs) = length-insert_by x (sort_by less xs) ∙ ground (arith, length-sort_by xs)

module _ {A : Type 0} (key : A → Text) where
  unfoldable pub lookup_key : List A → Text → Option A
  lookup_key [] k = none
  lookup_key (x ∷ xs) k = if text_eq (key x) k then some x else lookup_key xs k

  -- No two entries have one key.
  abbrev pub Distinct : List A → Type 0
  Distinct [] = Unit
  Distinct (x ∷ xs) = (lookup_key xs (key x) ≡ none) × Distinct xs

module _ {A : Type 0} (key : A → Text) (less : A → A → Bool) where
  -- What the distinct list `insert_by x ys` says of `ys`.
  record Inserted (x : A) (ys : List A) : Type 0 where
    fresh : lookup_key key ys (key x) ≡ none
    rest : Distinct key ys
    same : (k : Text) → lookup_key key (insert_by less x ys) k ≡ lookup_key key (x ∷ ys) k

  insert_by-Inserted : (x : A) (ys : List A) → Distinct key (insert_by less x ys) → Inserted x ys
  unfolding insert_by lookup_key
  insert_by-Inserted x [] d = record { fresh = refl; rest = tt; same = λ k. refl }
  insert_by-Inserted x (y ∷ ys) d = elim (Bool-cases (less y x)) [
    | inl p ↦
        let d' : Distinct key (y ∷ insert_by less x ys) = rw p at d in
        let ih = insert_by-Inserted x ys d'.1 in
        record {
          fresh = ground (
            arith,
            ih.same (key y),
            text_eq_iff (key x) (key y),
            text_eq_iff (key y) (key x),
            ih.fresh,
            d'.0,
          );
          rest = (ground (arith, ih.same (key y), d'.0), ih.rest);
          same = λ k. rw p (
              ground (
                arith,
                ih.same k,
                ih.same (key y),
                d'.0,
                text_eq_iff (key x) (key y),
                text_eq_iff (key x) k,
                text_eq_iff (key y) k,
              ));
        }
    | inr p ↦
        let d' : Distinct key (x ∷ y ∷ ys) = rw p at d in
        record { fresh = d'.0; rest = d'.1; same = λ k. rw p refl }
  ]

  pub lookup_key-sort_by :
      (xs : List A) (k : Text)
      → Distinct key (sort_by less xs)
      → lookup_key key (sort_by less xs) k ≡ lookup_key key xs k
  unfolding sort_by lookup_key
  lookup_key-sort_by [] k d = refl
  lookup_key-sort_by (x ∷ xs) k d =
      let i = insert_by-Inserted x (sort_by less xs) d in
      i.same k ∙ rw (lookup_key-sort_by xs k i.rest) refl

  pub Distinct-sort_by : (xs : List A) → Distinct key (sort_by less xs) → Distinct key xs
  unfolding sort_by
  Distinct-sort_by [] d = tt
  Distinct-sort_by (x ∷ xs) d =
      let i = insert_by-Inserted x (sort_by less xs) d in
      (rw (← lookup_key-sort_by xs (key x) i.rest) i.fresh, Distinct-sort_by xs i.rest)
