-- ===== src/ArtifactLock.antt =====
-- internal/artifactlock: lock.go, the list of the artifacts that may be fetched, and fetch.go in the
-- child Fetch. `date_ok` is that time.Parse and Format give a date back, `parse_uri` is
-- url.ParseRequestURI, and `read_lock` decodes JSON with unknown fields refused.
pub mod Fetch
pub mod Published
pub mod Found
use virtual_cloud_help_servi.Prelude.{
  ℕ, ◌*◌, ◌^◌, Bool, true, false, not, ◌&&◌, ◌||◌, List, [], ◌∷◌, Option, none, some, ltb, ◌==◌,
  length, Result, ok, err, reject, or_fail, ◌>>=◌, ◌>>◌,
}
use virtual_cloud_help_servi.Prelude.Text.{Text, bytes, text_eq, contains}
use virtual_cloud_help_servi.Patterns.{
  matches, matches_exactly, is_lower_alnum, is_id_char, is_alnum,
}
use virtual_cloud_help_servi.Platform.{Url, Trailing, eof, malformed, value}
use virtual_cloud_help_servi.PilotAccess.{is_hex}

abbrev pub schema_version : ℕ
schema_version = 1

abbrev pub max_lock_bytes : ℕ
max_lock_bytes = 2 ^ 20

abbrev pub max_artifact : ℕ
max_artifact = 512 * 2 ^ 20

pub data LockFault : Type 0 where
  lock_unreadable lock_size lock_decode lock_trailing unsupported_schema bad_cutoff : LockFault
  artifacts_range duplicate_name duplicate_file : LockFault
  bad_name bad_file bad_version bad_commit bad_kind bad_url bad_digest bad_max_bytes : LockFault
  bad_purpose artifact_not_found : LockFault

pub record Artifact : Type 0 where
  pub name : Text
  pub file_name : Text
  pub version : Text
  pub commit : Text
  pub kind : Text
  pub url : Text
  pub sha256 : Text
  pub max_bytes : ℕ  -- int64; a negative one is refused as 0 is
  pub purpose : Text

pub record Lock : Type 0 where
  pub schema : ℕ
  pub evidence_cutoff : Text
  pub artifacts : List Artifact

abbrev pub name_pattern : Text → Bool
name_pattern = matches is_lower_alnum is_id_char 62

abbrev pub file_pattern : Text → Bool
file_pattern = matches is_alnum (λ c. is_alnum c || c == b'.' || c == b'_' || c == b'-') 127

abbrev pub version_pattern : Text → Bool
version_pattern =
    matches is_alnum (λ c. is_alnum c || c == b'.' || c == b'_' || c == b'+' || c == b'-') 63

unfoldable pub allowed_host : Text → Bool
allowed_host host =
    text_eq host (bytes "github.com")
    || text_eq host (bytes "codeload.github.com")
    || text_eq host (bytes "release-assets.githubusercontent.com")

abbrev pub approved_url : Url → Bool
approved_url url = text_eq url.scheme (bytes "https") && allowed_host url.hostname

module _ (parse_uri : Text → Option Url) where
  unfoldable pub url_ok : Text → Bool
  unfolding allowed_host
  url_ok text = elim (parse_uri text) [
    | none ↦ false
    | some url ↦
        approved_url url && not url.has_user && text_eq url.raw_query [] && text_eq url.fragment []
  ]

  unfoldable pub validate_artifact : Artifact → Result LockFault (Unit {0})
  unfolding matches matches_exactly url_ok
  validate_artifact artifact = do
    reject (not (name_pattern artifact.name)) bad_name
    reject (not (file_pattern artifact.file_name)) bad_file
    reject (not (version_pattern artifact.version)) bad_version
    reject (not (matches_exactly is_hex 40 artifact.commit)) bad_commit
    reject
        (not (text_eq artifact.kind (bytes "source"))
          && not (text_eq artifact.kind (bytes "binary")))
        bad_kind
    reject (not (url_ok artifact.url)) bad_url
    reject (not (matches_exactly is_hex 64 artifact.sha256)) bad_digest
    reject (ltb artifact.max_bytes 1 || ltb max_artifact artifact.max_bytes) bad_max_bytes
    reject (ltb (length artifact.purpose) 1 || ltb 256 (length artifact.purpose)) bad_purpose

  -- The loop of `Validate`.
  unfoldable pub check_artifacts :
      List Text → List Text → List Artifact → Result LockFault (Unit {0})
  unfolding validate_artifact
  check_artifacts names files [] = ok tt
  check_artifacts names files (artifact ∷ rest) = do
    validate_artifact artifact
    reject (contains names artifact.name) duplicate_name
    reject (contains files artifact.file_name) duplicate_file
    check_artifacts (artifact.name ∷ names) (artifact.file_name ∷ files) rest

  module _ (date_ok : Text → Bool) where
    unfoldable pub validate_lock : Lock → Result LockFault (Unit {0})
    unfolding check_artifacts
    validate_lock lock = do
      reject (not (lock.schema == schema_version)) unsupported_schema
      reject (not (date_ok lock.evidence_cutoff)) bad_cutoff
      reject (length lock.artifacts == 0 || ltb 32 (length lock.artifacts)) artifacts_range
      check_artifacts [] [] lock.artifacts

    -- `file` is what opening and reading the file gives, or none for an error.
    unfoldable pub load_lock :
        (Text → Option (Lock × Trailing)) → Option Text → Result LockFault Lock
    unfolding validate_lock
    load_lock read_lock file = do
      contents ← or_fail file lock_unreadable
      reject (length contents == 0 || ltb max_lock_bytes (length contents)) lock_size
      decoded ← or_fail (read_lock contents) lock_decode
      elim decoded.1 [ eof ↦ ok tt | malformed ↦ err lock_trailing | value ↦ err lock_trailing ]
      validate_lock decoded.0
      ok decoded.0

unfoldable pub find : Text → List Artifact → Result LockFault Artifact
find name [] = err artifact_not_found
find name (artifact ∷ rest) = elim (text_eq artifact.name name) [
  | true ↦ ok artifact
  | false ↦ find name rest
]
