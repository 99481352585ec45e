-- ===== src/Tests/Artifacts.antt =====
-- An artifact lock of one artifact, and a fetch of it.
use virtual_cloud_help_servi.Prelude.{
  ◌≡◌, ◌⊎◌, refl, true, false, [], ◌∷◌, Option, none, some, ok, replicate, All, all,
}
use virtual_cloud_help_servi.Prelude.Text.{Text, bytes, text_eq, contains}
use virtual_cloud_help_servi.Patterns.{matches, matches_exactly}
use virtual_cloud_help_servi.Platform.{Url, Trailing, eof}
use virtual_cloud_help_servi.ArtifactLock.{
  Artifact, Lock, validate_artifact, check_artifacts, validate_lock, load_lock, url_ok,
  allowed_host,
}
use virtual_cloud_help_servi.ArtifactLock.Fetch.{FetchCalls, Folder, fetch_artifact, then_there}
use virtual_cloud_help_servi.ArtifactLock.Published.{Safe, fetch_artifact-Safe}
use virtual_cloud_help_servi.ArtifactLock.Found.{IsFound, load_lock-IsFound}

abbrev github : Url
github = record {
  scheme = bytes "https";
  host = bytes "github.com";
  hostname = bytes "github.com";
  port = [];
  has_user = false;
  raw_query = [];
  fragment = [];
}

abbrev parse_uri : Text → Option Url
parse_uri text = some github

abbrev sha256 : Text → Text
sha256 text = replicate 32 0x11

abbrev artifact : Artifact
artifact = record {
  name = bytes "amneziawg";
  file_name = bytes "amneziawg.tar.gz";
  version = bytes "1.0";
  commit = replicate 40 b'a';
  kind = bytes "source";
  url = bytes "https://github.com/amnezia-vpn/amneziawg";
  sha256 = replicate 64 b'1';
  max_bytes = 100;
  purpose = bytes "tunnel";
}

abbrev lock : Lock
lock = record { schema = 1; evidence_cutoff = bytes "2026-01-01"; artifacts = artifact ∷ [] }

abbrev read_lock : Text → Option (Lock × Trailing)
read_lock text = some (lock, eof)

loaded : load_lock parse_uri (λ s. true) read_lock (some (bytes "lock")) ≡ ok lock
unfolding load_lock validate_lock check_artifacts validate_artifact matches matches_exactly all
    url_ok allowed_host text_eq contains
loaded = refl

load_lock-IsFound_example : All (IsFound parse_uri lock.artifacts) lock.artifacts
load_lock-IsFound_example =
    load_lock-IsFound parse_uri (λ s. true) read_lock (some (bytes "lock")) loaded

abbrev folder : Folder
folder = record { files = (bytes "other", bytes "contents") ∷ []; temporary = none }

-- The removal of the temporary link fails, and so does that of the destination.
abbrev calls : FetchCalls
calls = record {
  make_directory = true;
  inspect = true;
  response =
      some (record {
        status = 200;
        content_length = none;
        final_url = github;
        body = bytes "archive";
      });
  create_temporary = true;
  chmod = true;
  copy = true;
  sync = true;
  close = true;
  link = true;
  remove_source = false;
  remove_destination = false;
  remove_temporary = true;
  appeared = none;
}

fetch_artifact-Safe_example :
    (let out = fetch_artifact parse_uri sha256 folder calls artifact in
      Safe parse_uri sha256 artifact folder.files out.0 out.1
      ⊎ Safe parse_uri sha256 artifact
          (then_there parse_uri sha256 calls artifact folder)
          out.0
          out.1)
fetch_artifact-Safe_example = fetch_artifact-Safe parse_uri sha256 folder calls artifact
