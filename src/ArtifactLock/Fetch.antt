-- ===== src/ArtifactLock/Fetch.antt =====
-- internal/artifactlock/fetch.go: the download of an artifact into a directory. What the network
-- answers and which system calls fail are inputs; another process may make a file of the same name
-- meanwhile.
use virtual_cloud_help_servi.Prelude.{
  ℕ, ◌+◌, Bool, true, false, not, ◌||◌, List, [], ◌∷◌, Option, none, some, ltb, ◌==◌, length, take,
  is_none, if◌then◌else◌, Result, ok, err, reject, or_fail, wrap, ◌>>=◌, ◌>>◌,
}
use virtual_cloud_help_servi.Prelude.Text.{Text, text_eq}
use virtual_cloud_help_servi.Platform.{Url}
use virtual_cloud_help_servi.PilotAccess.Uuid.{hex_of}
use virtual_cloud_help_servi.ArtifactLock.{Artifact, LockFault, validate_artifact, approved_url}

pub data FetchFault : Type 0 where
  invalid_artifact : LockFault → FetchFault
  directory_failed destination_exists inspect_failed request_failed bad_status : FetchFault
  declared_too_long final_url_refused temporary_failed download_failed bad_size : FetchFault
  digest_mismatch sync_failed publish_failed remove_failed : FetchFault

pub record Download : Type 0 where
  pub status : ℕ
  pub content_length : Option ℕ  -- none where it is not known
  pub final_url : Url
  pub body : Text

pub record FetchCalls : Type 0 where
  pub make_directory : Bool
  pub inspect : Bool
  pub response : Option Download
  pub create_temporary : Bool
  pub chmod : Bool
  pub copy : Bool
  pub sync : Bool
  pub close : Bool
  pub link : Bool
  pub remove_source : Bool
  pub remove_destination : Bool
  pub remove_temporary : Bool
  -- what another process has written to the destination before the link
  pub appeared : Option Text

-- The files of the output directory by their names, and the temporary file.
pub record Folder : Type 0 where
  pub files : List (Text × Text)
  pub temporary : Option Text

unfoldable pub contents_of : Text → List (Text × Text) → Option Text
contents_of name [] = none
contents_of name ((key, contents) ∷ rest) = elim (text_eq key name) [
  | true ↦ some contents
  | false ↦ contents_of name rest
]

module _ (parse_uri : Text → Option Url) (sha256 : Text → Text) where
  -- All before the temporary file.
  unfoldable pub request_artifact : Folder → FetchCalls → Artifact → Result FetchFault Download
  unfolding contents_of
  request_artifact folder calls artifact = do
    wrap invalid_artifact (validate_artifact parse_uri artifact)
    reject (not calls.make_directory) directory_failed
    reject (not calls.inspect) inspect_failed
    reject (not (is_none (contents_of artifact.file_name folder.files))) destination_exists
    response ← or_fail calls.response request_failed
    reject (not (response.status == 200)) bad_status
    reject (elim response.content_length [ none ↦ false | some n ↦ ltb artifact.max_bytes n ])
        declared_too_long
    reject (not (approved_url response.final_url)) final_url_refused
    reject (not calls.create_temporary) temporary_failed
    ok response

  -- What the temporary file then holds.
  abbrev pub written : Artifact → Download → Text
  written artifact response = take (artifact.max_bytes + 1) response.body

  -- The checks of what was written.
  unfoldable pub verify_download : FetchCalls → Artifact → Text → Result FetchFault (Unit {0})
  unfolding hex_of
  verify_download calls artifact body = do
    reject (not calls.chmod) temporary_failed
    reject (not calls.copy) download_failed
    reject (length body == 0 || ltb artifact.max_bytes (length body)) bad_size
    reject (not (text_eq (hex_of (sha256 body)) artifact.sha256)) digest_mismatch
    reject (not calls.sync) sync_failed
    reject (not calls.close) sync_failed

  -- The deferred removal of a temporary file that is not published.
  abbrev pub cleaned : FetchCalls → Text → List (Text × Text) → Folder
  cleaned calls body files = record {
    files = files;
    temporary = if calls.remove_temporary then none else some body;
  }

  -- What stands in the directory when the link is made.
  abbrev pub then_there : FetchCalls → Artifact → Folder → List (Text × Text)
  then_there calls artifact folder = elim calls.appeared [
    | none ↦ folder.files
    | some contents ↦ (artifact.file_name, contents) ∷ folder.files
  ]

  -- `publishExclusive`: a link never replaces a file.
  unfoldable pub publish_exclusive :
      FetchCalls → Artifact → Text → List (Text × Text) → Folder × Result FetchFault Text
  unfolding contents_of
  publish_exclusive calls artifact body files =
      if not (is_none (contents_of artifact.file_name files))
      then (cleaned calls body files, err destination_exists)
      else if not calls.link
      then (cleaned calls body files, err publish_failed)
      else if calls.remove_source
      then (
        record { files = (artifact.file_name, body) ∷ files; temporary = none },
        ok artifact.file_name,
      )
      else if calls.remove_destination
      then (cleaned calls body files, err remove_failed)
      else (cleaned calls body ((artifact.file_name, body) ∷ files), err remove_failed)

  unfoldable pub fetch_artifact : Folder → FetchCalls → Artifact → Folder × Result FetchFault Text
  unfolding request_artifact verify_download publish_exclusive
  fetch_artifact folder calls artifact = elim (request_artifact folder calls artifact) [
    | err fault ↦ (folder, err fault)
    | ok response ↦ elim (verify_download calls artifact (written artifact response)) [
      | err fault ↦ (cleaned calls (written artifact response) folder.files, err fault)
      | ok done ↦
          publish_exclusive calls artifact (written artifact response)
            (then_there calls artifact folder)
    ]
  ]
