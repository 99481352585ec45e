-- ===== src/ArtifactLock/Published.antt =====
-- What a fetch leaves in its directory.
use virtual_cloud_help_servi.Prelude.{
  ◌≤◌, ◌≡◌, refl, Bool, true, false, not, List, ◌∷◌, Option, none, some, length, is_none, arith,
  sym, ◌⊎◌, inl, inr, if◌then◌else◌, Result, ok, err,
}
use virtual_cloud_help_servi.Prelude.Text.{Text, text_eq, text_eq_iff, text_eq_refl}
use virtual_cloud_help_servi.Platform.{Url}
use virtual_cloud_help_servi.PilotAccess.Uuid.{hex_of}
use virtual_cloud_help_servi.ArtifactLock.{Artifact}
use virtual_cloud_help_servi.ArtifactLock.Fetch.{
  FetchFault, Download, FetchCalls, Folder, contents_of, request_artifact, verify_download, written,
  publish_exclusive, cleaned, then_there, fetch_artifact, destination_exists, publish_failed,
  remove_failed,
}

module _ (parse_uri : Text → Option Url) (sha256 : Text → Text) where
  -- Contents of the locked digest and of a size within the locked bound.
  abbrev pub IsLocked : Artifact → Text → Type 0
  IsLocked artifact body =
      (hex_of (sha256 body) ≡ artifact.sha256)
      × (1 ≤ length body)
      × (length body ≤ artifact.max_bytes)

  verify_download-IsLocked :
      (calls : FetchCalls) (artifact : Artifact) (body : Text)
      → verify_download parse_uri sha256 calls artifact body ≡ ok tt
      → IsLocked artifact body
  unfolding verify_download
  verify_download-IsLocked calls artifact body h =
      ground (arith, text_eq_iff (hex_of (sha256 body)) artifact.sha256)

  -- Each file of `files` is as it was, each other file is the artifact as it is locked, and an
  -- answer without an error means that it is there and was not before.
  pub record Safe (artifact : Artifact) (files : List (Text × Text)) (after : Folder)
      (answer : Result FetchFault Text) : Type 0 where
    pub kept :
        (name contents : Text)
        → contents_of name files ≡ some contents
        → contents_of name after.files ≡ some contents
    pub only :
        (name contents : Text)
        → contents_of name after.files ≡ some contents
        → (contents_of name files ≡ some contents)
          ⊎ (name ≡ artifact.file_name) × IsLocked artifact contents
    pub fetched :
        (path : Text)
        → answer ≡ ok path
        → (body : Text) × (contents_of artifact.file_name after.files ≡ some body)
          × IsLocked artifact body
          × (contents_of artifact.file_name files ≡ none)

  unchanged :
      (artifact : Artifact) (files : List (Text × Text)) (temporary : Option Text)
      (fault : FetchFault)
      → Safe artifact files (record { files = files; temporary = temporary }) (err fault)
  unchanged artifact files temporary fault = record {
    kept = λ name contents h. h;
    only = λ name contents h. inl h;
    fetched = λ path h. absurd (ground arith);
  }

  linked :
      (artifact : Artifact) (body : Text) (files : List (Text × Text)) (temporary : Option Text)
      (answer : Result FetchFault Text)
      → IsLocked artifact body
      → contents_of artifact.file_name files ≡ none
      → Safe artifact files
          (record { files = (artifact.file_name, body) ∷ files; temporary = temporary })
          answer
  unfolding contents_of
  linked artifact body files temporary answer locked free = record {
    kept = λ name contents h. ground (arith, free, text_eq_iff artifact.file_name name);
    only = λ name contents h. by_name name contents (text_eq artifact.file_name name) refl h;
    fetched = λ path h. (body, ground (arith, text_eq_refl artifact.file_name), locked, free);
  }
    where
      by_name :
          (name contents : Text) (same : Bool)
          → text_eq artifact.file_name name ≡ same
          → elim same [ true ↦ some body | false ↦ contents_of name files ] ≡ some contents
          → (contents_of name files ≡ some contents)
            ⊎ (name ≡ artifact.file_name) × IsLocked artifact contents
      by_name name contents true e h =
          let is : body ≡ contents = ground arith in
          inr (sym ((text_eq_iff artifact.file_name name).0 e), rw (← is) locked)
      by_name name contents false e h = inl h

  publish_exclusive-Safe :
      (calls : FetchCalls) (artifact : Artifact) (body : Text) (files : List (Text × Text))
      → IsLocked artifact body
      → let out = publish_exclusive parse_uri sha256 calls artifact body files in
        Safe artifact files out.0 out.1
  unfolding publish_exclusive
  publish_exclusive-Safe calls artifact body files locked =
      by_tests (contents_of artifact.file_name files) refl calls.link calls.remove_source
        calls.remove_destination
    where
      left : List (Text × Text) → Folder
      left = cleaned parse_uri sha256 calls body

      by_tests :
          (there : Option Text)
          → contents_of artifact.file_name files ≡ there
          → (link source destination : Bool)
          → (let out : Folder × Result FetchFault Text =
                if not (is_none there)
                then (left files, err destination_exists)
                else if not link
                then (left files, err publish_failed)
                else if source
                then (
                  record { files = (artifact.file_name, body) ∷ files; temporary = none },
                  ok artifact.file_name,
                )
                else if destination
                then (left files, err remove_failed)
                else (left ((artifact.file_name, body) ∷ files), err remove_failed) in
              Safe artifact files out.0 out.1)
      by_tests (some old) e link source destination = unchanged artifact files _ destination_exists
      by_tests none e false source destination = unchanged artifact files _ publish_failed
      by_tests none e true true destination = linked artifact body files none _ locked e
      by_tests none e true false true = unchanged artifact files _ remove_failed
      by_tests none e true false false = linked artifact body files _ _ locked e

  -- Whatever the network answers and whichever system calls fail: compared with the directory
  -- before the fetch, or with it and the file that another process puts at the destination
  -- meanwhile, each file is as it was; what is added has the locked digest and a size within the
  -- locked bound; and where the fetch succeeds, the artifact is there and was not there before.
  pub fetch_artifact-Safe :
      (folder : Folder) (calls : FetchCalls) (artifact : Artifact)
      → let out = fetch_artifact parse_uri sha256 folder calls artifact in
        Safe artifact folder.files out.0 out.1
        ⊎ Safe artifact (then_there parse_uri sha256 calls artifact folder) out.0 out.1
  unfolding fetch_artifact
  fetch_artifact-Safe folder calls artifact =
      by_request (request_artifact parse_uri sha256 folder calls artifact)
    where
      Result_of : Folder × Result FetchFault Text → Type 0
      Result_of out =
          Safe artifact folder.files out.0 out.1
          ⊎ Safe artifact (then_there parse_uri sha256 calls artifact folder) out.0 out.1

      by_request :
          (request : Result FetchFault Download)
          → (let out : Folder × Result FetchFault Text = elim request [
            | err fault ↦ (folder, err fault)
            | ok response ↦
                elim (verify_download parse_uri sha256 calls artifact
                  (written parse_uri sha256 artifact response)) [
                    | err fault ↦ (
                      cleaned parse_uri sha256 calls
                          (written parse_uri sha256 artifact response)
                          folder.files,
                      err fault,
                    )
                    | ok done ↦
                        publish_exclusive parse_uri sha256 calls artifact
                          (written parse_uri sha256 artifact response)
                          (then_there parse_uri sha256 calls artifact folder)
                  ]
          ] in
              Result_of out)
      by_request (err fault) = inl (unchanged artifact folder.files folder.temporary fault)
      by_request (ok response) =
          by_check (verify_download parse_uri sha256 calls artifact body) refl
        where
          body : Text
          body = written parse_uri sha256 artifact response

          by_check :
              (check : Result FetchFault (Unit {0}))
              → verify_download parse_uri sha256 calls artifact body ≡ check
              → (let out : Folder × Result FetchFault Text = elim check [
                | err fault ↦ (cleaned parse_uri sha256 calls body folder.files, err fault)
                | ok done ↦
                    publish_exclusive parse_uri sha256 calls artifact body
                      (then_there parse_uri sha256 calls artifact folder)
              ] in
                  Result_of out)
          by_check (err fault) e = inl (unchanged artifact folder.files _ fault)
          by_check (ok done) e = inr (
              publish_exclusive-Safe calls artifact body
                (then_there parse_uri sha256 calls artifact folder)
                (verify_download-IsLocked calls artifact body e))
