-- ===== src/Prelude/Sort.antt =====
-- `sort.Slice` with a comparison that orders distinct entries: the sorted list is then unique, and
-- an insertion sort computes it. (Entries that compare equal keep their order here.)
use mathlib.Core.Path.{◌≡◌, refl}
use mathlib.Core.Bool.{Bool, true, false}
use mathlib.Core.List.{List, [], ◌∷◌, Perm}
use mathlib.Core.List.Perm
use virtual_cloud_help_servi.Prelude.Lists.{All}
use virtual_cloud_help_servi.Prelude.Tests.{if◌then◌else◌, Bool-cases}
use mathlib.Core.Logic.{inl, inr}

module _ {A : Type 0} (less : A → A → Bool) where
  unfoldable pub insert_by : A → List A → List A
  insert_by x [] = x ∷ []
  insert_by x (y ∷ ys) = if less y x then y ∷ insert_by x ys else x ∷ y ∷ ys

  unfoldable pub sort_by : List A → List A
  unfolding insert_by
  sort_by [] = []
  sort_by (x ∷ xs) = insert_by x (sort_by xs)

  -- No entry is below the one before it.
  abbrev pub IsSorted : List A → Type 0
  IsSorted [] = Unit
  IsSorted (x ∷ []) = Unit
  IsSorted (x ∷ y ∷ ys) = (less y x ≡ false) × IsSorted (y ∷ ys)

  tail-IsSorted : (x : A) (xs : List A) → IsSorted (x ∷ xs) → IsSorted xs
  tail-IsSorted x [] h = tt
  tail-IsSorted x (y ∷ ys) h = h.1

  pub insert_by-perm : (x : A) (xs : List A) → Perm (insert_by x xs) (x ∷ xs)
  unfolding insert_by
  insert_by-perm x [] = Perm.refl (x ∷ [])
  insert_by-perm x (y ∷ ys) = elim (Bool-cases (less y x)) [
    | inl p ↦ rw p (Perm.trans (Perm.cons y (insert_by-perm x ys)) (Perm.swap x y ys))
    | inr p ↦ rw p (Perm.refl (x ∷ y ∷ ys))
  ]

  pub sort_by-perm : (xs : List A) → Perm (sort_by xs) xs
  unfolding sort_by
  sort_by-perm [] = Perm.refl []
  sort_by-perm (x ∷ xs) = Perm.trans (insert_by-perm x (sort_by xs)) (Perm.cons x (sort_by-perm xs))

  insert_by-All : (P : A → Type 0) (x : A) (xs : List A) → P x → All P xs → All P (insert_by x xs)
  unfolding insert_by
  insert_by-All P x [] h k = (h, tt)
  insert_by-All P x (y ∷ ys) h k = elim (Bool-cases (less y x)) [
    | inl p ↦ rw p (k.0, insert_by-All P x ys h k.1)
    | inr p ↦ rw p (h, k)
  ]

  pub sort_by-All : (P : A → Type 0) (xs : List A) → All P xs → All P (sort_by xs)
  unfolding sort_by
  sort_by-All P [] h = tt
  sort_by-All P (x ∷ xs) h = insert_by-All P x (sort_by xs) h.0 (sort_by-All P xs h.1)

  pub sort_by-IsSorted_id : (xs : List A) → IsSorted xs → sort_by xs ≡ xs
  unfolding sort_by
  sort_by-IsSorted_id [] h = refl
  sort_by-IsSorted_id (x ∷ []) h = refl
  sort_by-IsSorted_id (x ∷ y ∷ ys) h = rw (sort_by-IsSorted_id (y ∷ ys) h.1) (rw h.0)

module _ {A : Type 0} (less : A → A → Bool)
    (asymm : (x y : A) → less x y ≡ true → less y x ≡ false) where
  insert_by-IsSorted_after :
      (x y : A) (ys : List A)
      → less y x ≡ true
      → IsSorted less (y ∷ ys)
      → IsSorted less (insert_by less x ys)
      → IsSorted less (y ∷ insert_by less x ys)
  unfolding insert_by
  insert_by-IsSorted_after x y [] p h k = (asymm y x p, tt)
  insert_by-IsSorted_after x y (z ∷ zs) p h k = elim (Bool-cases (less z x)) [
    | inl q ↦ rw q (h.0, rw q at k)
    | inr q ↦ rw q (asymm y x p, rw q at k)
  ]

  insert_by-IsSorted :
      (x : A) (xs : List A) → IsSorted less xs → IsSorted less (insert_by less x xs)
  unfolding insert_by
  insert_by-IsSorted x [] h = tt
  insert_by-IsSorted x (y ∷ ys) h = elim (Bool-cases (less y x)) [
    | inl p ↦
        rw p (
          insert_by-IsSorted_after x y ys p h (insert_by-IsSorted x ys (tail-IsSorted less y ys h)))
    | inr p ↦ rw p (p, h)
  ]

  pub sort_by-IsSorted : (xs : List A) → IsSorted less (sort_by less xs)
  unfolding sort_by
  sort_by-IsSorted [] = tt
  sort_by-IsSorted (x ∷ xs) = insert_by-IsSorted x (sort_by less xs) (sort_by-IsSorted xs)

  -- Sorting what is sorted changes nothing.
  pub sort_by_idem : (xs : List A) → sort_by less (sort_by less xs) ≡ sort_by less xs
  sort_by_idem xs = sort_by-IsSorted_id less (sort_by less xs) (sort_by-IsSorted xs)
