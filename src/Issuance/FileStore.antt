-- ===== src/Issuance/FileStore.antt =====
-- `FileStore` of internal/issuance/state.go over a model of the file system: the file at the
-- store's path, its directory, and the temporary files that saves left there. A `Disk` is what is
-- at one path: stores of different paths work on different ones. Each system call may fail, as
-- `Calls` says. The program is modelled as it runs on Linux (`runtime.GOOS` is not "windows").
pub mod RoundTrip
use Prim.Native.Nat.{bit_and}
use virtual_cloud_help_servi.Prelude.{
  ℕ, Bool, true, false, not, ◌&&◌, ◌||◌, Option, none, some, List, [], ◌∷◌, take, ltb, ◌==◌, length,
  if◌then◌else◌, Result, ok, err, reject, or_fail, ◌>>=◌, ◌>>◌,
}
use virtual_cloud_help_servi.Prelude.Text.{Text, text_eq}
use virtual_cloud_help_servi.GoTime.{is_zero}
use virtual_cloud_help_servi.Platform.{Platform}
use virtual_cloud_help_servi.Manifest.KeyPolicy.{decode_strict}
use virtual_cloud_help_servi.Issuance.State.{
  IssuerState, StoreFault, path_required, state_incomplete, catalog_digest_invalid,
  policy_incomplete, policy_digest_invalid, directory_stat, directory_kind, directory_writable,
  open_failed, stat_failed, not_regular, permissions, read_failed, size_invalid, decode_failed,
  create_directory, create_temporary, restrict_temporary, encode_failed, sync_failed, close_failed,
  replace_failed, open_directory, sync_directory,
}

abbrev pub max_state_bytes : ℕ
max_state_bytes = 16_384

pub record StateFile : Type 0 where
  pub regular : Bool
  pub mode : ℕ  -- permission bits
  pub contents : Text

pub record Directory : Type 0 where
  pub is_dir : Bool
  pub mode : ℕ

pub record Disk : Type 0 where
  pub file : Option StateFile
  pub directory : Option Directory
  pub temporaries : List Text  -- what the `.issuer-state-*` files hold

-- Which of the system calls succeed, and how much a failing write has written.
pub record Calls : Type 0 where
  pub stat_directory : Bool
  pub open_file : Bool
  pub stat_file : Bool
  pub read_file : Bool
  pub make_directory : Bool
  pub create_file : Bool
  pub chmod : Bool
  pub write : Bool
  pub written : ℕ
  pub sync : Bool
  pub close : Bool
  pub rename : Bool
  pub remove : Bool
  pub open_parent : Bool
  pub sync_parent : Bool

-- `os.Stat` finds nothing, fails, or gives the directory.
unfoldable pub check_directory : Calls → Option Directory → Result StoreFault (Unit {0})
check_directory calls none = err directory_stat
check_directory calls (some directory) = do
  reject (not calls.stat_directory) directory_stat
  reject (not directory.is_dir) directory_kind
  reject (not (bit_and directory.mode 0o022 == 0)) directory_writable

-- `Load` goes on where the directory does not exist, and not where the stat fails otherwise.
unfoldable pub check_existing_directory : Calls → Option Directory → Result StoreFault (Unit {0})
unfolding check_directory
check_existing_directory calls none = reject (not calls.stat_directory) directory_stat
check_existing_directory calls (some directory) = check_directory calls (some directory)

module _ (p : Platform) where
  unfoldable pub is_digest : Text → Bool
  is_digest encoded = elim (p.decode64 encoded) [ none ↦ false | some raw ↦ length raw == 32 ]

  unfoldable pub is_legacy : IssuerState → Bool
  is_legacy state =
      state.key_epoch == 0 && state.policy_version == 0 && text_eq state.policy_sha256 []

  unfoldable pub check_policy_fields : IssuerState → Result StoreFault (Unit {0})
  check_policy_fields state = do
    reject (state.key_epoch == 0 || state.policy_version == 0 || text_eq state.policy_sha256 [])
        policy_incomplete
    reject (not (is_digest state.policy_sha256)) policy_digest_invalid

  unfoldable pub validate_state : IssuerState → Bool → Result StoreFault (Unit {0})
  validate_state state allow_legacy = do
    reject
        (text_eq state.key_id []
          || state.last_version == 0
          || state.catalog_revision == 0
          || is_zero state.last_issued_at)
        state_incomplete
    reject (not (is_digest state.catalog_sha256)) catalog_digest_invalid
    (if is_legacy state && allow_legacy then ok tt else check_policy_fields state)

  -- The part of `Load` after `os.Open`.
  unfoldable pub read_state_file : Calls → StateFile → Result StoreFault IssuerState
  read_state_file calls file = do
    reject (not calls.stat_file) stat_failed
    reject (not file.regular) not_regular
    reject (not (bit_and file.mode 0o077 == 0)) permissions
    reject (not calls.read_file) read_failed
    reject (length file.contents == 0 || ltb max_state_bytes (length file.contents)) size_invalid
    state ← or_fail (decode_strict p.read_state p.next_value file.contents) decode_failed
    validate_state state true
    ok state

  -- The result is none where there is no file.
  unfoldable pub load : Disk → Calls → Text → Result StoreFault (Option IssuerState)
  load disk calls path = do
    reject (text_eq path []) path_required
    check_existing_directory calls disk.directory
    elim disk.file [
      | none ↦ do reject (not calls.open_file) open_failed; ok none
      | some file ↦ do
        reject (not calls.open_file) open_failed
        state ← read_state_file calls file
        ok (some state)
    ]

-- `os.MkdirAll(directory, 0o700)`
abbrev pub made : Option Directory → Directory
made none = record { is_dir = true; mode = 0o700 }
made (some directory) = directory

-- `cleanup`, and the single `os.Remove` after a close: the temporary file of these contents is
-- removed, or the removal fails and it stays.
abbrev pub cleanup : Calls → Text → Disk → Disk
cleanup calls contents disk =
    if calls.remove then disk else record disk { temporaries = contents ∷ disk.temporaries }

-- The part of `Save` after the rename has replaced the file.
unfoldable pub sync_replaced : Calls → Disk → Disk × Result StoreFault (Unit {0})
sync_replaced calls disk =
    if not calls.open_parent
    then (disk, err open_directory)
    else if not calls.sync_parent
    then (disk, err sync_directory)
    else (disk, ok tt)

-- The part of `Save` that writes the temporary file and renames it.
unfoldable pub write_and_rename : Calls → Disk → Option Text → Disk × Result StoreFault (Unit {0})
unfolding sync_replaced
write_and_rename calls disk encoded =
    if not calls.create_file
    then (disk, err create_temporary)
    else if not calls.chmod
    then (cleanup calls [] disk, err restrict_temporary)
    else elim encoded [
      | none ↦ (cleanup calls [] disk, err encode_failed)
      | some contents ↦
          if not calls.write
          then (cleanup calls (take calls.written contents) disk, err encode_failed)
          else if not calls.sync
          then (cleanup calls contents disk, err sync_failed)
          else if not calls.close
          then (cleanup calls contents disk, err close_failed)
          else if not calls.rename
          then (cleanup calls contents disk, err replace_failed)
          else sync_replaced calls (record disk {
            file = some (record { regular = true; mode = 0o600; contents = contents });
          })
    ]

module _ (p : Platform) where
  -- The part of `Save` after the directory was made.
  unfoldable pub save_in : Calls → Disk → IssuerState → Disk × Result StoreFault (Unit {0})
  save_in calls disk state = elim (check_directory calls disk.directory) [
    | err fault ↦ (disk, err fault)
    | ok checked ↦ write_and_rename calls disk (p.write_state state)
  ]

  unfoldable pub save : Disk → Calls → Text → IssuerState → Disk × Result StoreFault (Unit {0})
  unfolding save_in
  save disk calls path state =
      if text_eq path [] then (disk, err path_required) else elim (validate_state p state false) [
        | err fault ↦ (disk, err fault)
        | ok valid ↦
            if not calls.make_directory
            then (disk, err create_directory)
            else save_in calls (record disk { directory = some (made disk.directory) }) state
      ]
