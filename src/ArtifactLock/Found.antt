-- ===== src/ArtifactLock/Found.antt =====
-- The artifacts of a lock that was loaded.
use virtual_cloud_help_servi.Prelude.{◌≡◌, Bool, false, List, [], ◌∷◌, Option, arith, All, ok}
use virtual_cloud_help_servi.Prelude.Text.{Text, text_eq_refl, contains}
use virtual_cloud_help_servi.Platform.{Url, Trailing}
use virtual_cloud_help_servi.ArtifactLock.{
  Artifact, Lock, validate_artifact, check_artifacts, validate_lock, load_lock, find,
}

module _ (parse_uri : Text → Option Url) where
  -- Valid, and of a name that is not among `names`.
  abbrev IsNew : List Text → Artifact → Type 0
  IsNew names a = (contains names a.name ≡ false) × (validate_artifact parse_uri a ≡ ok tt)

  All-IsNew :
      (seen : Text) (names : List Text) (xs : List Artifact)
      → All (IsNew (seen ∷ names)) xs
      → All (IsNew names) xs
  unfolding contains
  All-IsNew seen names [] h = tt
  All-IsNew seen names (a ∷ xs) h = (ground (arith, h.0), All-IsNew seen names xs h.1)

  check_artifacts-IsNew :
      (names files : List Text) (xs : List Artifact)
      → check_artifacts parse_uri names files xs ≡ ok tt
      → All (IsNew names) xs
  unfolding check_artifacts
  check_artifacts-IsNew names files [] h = tt
  check_artifacts-IsNew names files (a ∷ xs) h =
      let rest : check_artifacts parse_uri (a.name ∷ names) (a.file_name ∷ files) xs ≡ ok tt =
        ground arith in
      (
        ground arith,
        All-IsNew a.name names xs
            (check_artifacts-IsNew (a.name ∷ names) (a.file_name ∷ files) xs rest),
      )

  -- An artifact is found by its name, and is valid.
  abbrev pub IsFound : List Artifact → Artifact → Type 0
  IsFound artifacts a = (find a.name artifacts ≡ ok a) × (validate_artifact parse_uri a ≡ ok tt)

  IsFound-cons :
      (first : Artifact) (names : List Text) (all_of xs : List Artifact)
      → All (IsNew (first.name ∷ names)) xs
      → All (IsFound all_of) xs
      → All (IsFound (first ∷ all_of)) xs
  unfolding find contains
  IsFound-cons first names all_of [] new h = tt
  IsFound-cons first names all_of (a ∷ xs) new h =
      (ground (arith, h.0, new.0), IsFound-cons first names all_of xs new.1 h.1)

  check_artifacts-IsFound :
      (names files : List Text) (xs : List Artifact)
      → check_artifacts parse_uri names files xs ≡ ok tt
      → All (IsFound xs) xs
  unfolding check_artifacts find
  check_artifacts-IsFound names files [] h = tt
  check_artifacts-IsFound names files (a ∷ xs) h =
      let valid : validate_artifact parse_uri a ≡ ok tt = ground arith in
      let rest : check_artifacts parse_uri (a.name ∷ names) (a.file_name ∷ files) xs ≡ ok tt =
        ground arith in
      (
        (ground (arith, text_eq_refl a.name), valid),
        IsFound-cons a names xs xs
            (check_artifacts-IsNew (a.name ∷ names) (a.file_name ∷ files) xs rest)
            (check_artifacts-IsFound (a.name ∷ names) (a.file_name ∷ files) xs rest),
      )

  -- In a lock that was loaded every artifact is valid and is the one found by its name.
  pub load_lock-IsFound :
      (date_ok : Text → Bool) (read_lock : Text → Option (Lock × Trailing)) (file : Option Text)
      {lock : Lock}
      → load_lock parse_uri date_ok read_lock file ≡ ok lock
      → All (IsFound lock.artifacts) lock.artifacts
  unfolding load_lock validate_lock
  load_lock-IsFound date_ok read_lock file {lock} h =
      check_artifacts-IsFound [] [] lock.artifacts (ground arith)
