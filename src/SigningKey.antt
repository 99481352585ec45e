-- ===== src/SigningKey.antt =====
-- internal/signingkey/key.go: the files of the Ed25519 keys, on Linux. Files are named by their
-- cleaned paths. Which system calls fail, and what stands in the parent directories, are inputs;
-- `trim_space` is strings.TrimSpace and `clean` filepath.Clean.
pub mod Generated
use Prim.Native.Nat.{bit_and}
use virtual_cloud_help_servi.Prelude.{
  ℕ, ◌+◌, Bool, true, false, not, ◌&&◌, ◌||◌, List, [], ◌∷◌, ◌++◌, Option, none, some, ltb, ◌==◌,
  length, take, is_none, if◌then◌else◌, Result, ok, err, reject, or_fail, ◌>>=◌, ◌>>◌,
}
use virtual_cloud_help_servi.Prelude.Text.{Text, text_eq}
use virtual_cloud_help_servi.Platform.{Platform, public_of}

pub data KeyFault : Type 0 where
  key_unreadable key_kind key_permissions key_size key_encoding key_halves key_length : KeyFault
  public_unreadable public_kind public_size public_encoding : KeyFault
  paths_required same_paths no_key parent_failed parent_kind parent_writable : KeyFault
  write_private_failed write_public_failed : KeyFault

pub record KeyFile : Type 0 where
  pub regular : Bool
  pub mode : ℕ  -- permission bits
  pub contents : Text

pub record Parent : Type 0 where
  pub is_dir : Bool
  pub mode : ℕ

pub record WriteCalls : Type 0 where
  pub opens : Bool
  pub writes : Bool
  pub syncs : Bool
  pub closes : Bool
  pub removes : Bool
  pub left : Text  -- what a failed write has written

pub record GenerateCalls : Type 0 where
  -- the private key of ed25519.GenerateKey, or none for an error
  pub key : Option Text
  -- what Stat gives for a parent directory once it is made, or none for an error
  pub private_parent : Option Parent
  pub public_parent : Option Parent
  pub private_calls : WriteCalls
  pub public_calls : WriteCalls
  pub removes_private : Bool

unfoldable pub file_at : Text → List (Text × KeyFile) → Option KeyFile
file_at path [] = none
file_at path ((key, file) ∷ rest) = elim (text_eq key path) [
  | true ↦ some file
  | false ↦ file_at path rest
]

-- os.Remove
unfoldable pub without : Text → List (Text × KeyFile) → List (Text × KeyFile)
without path [] = []
without path ((key, file) ∷ rest) = elim (text_eq key path) [
  | true ↦ without path rest
  | false ↦ (key, file) ∷ without path rest
]

unfoldable pub ensure_parent : Option Parent → Result KeyFault (Unit {0})
ensure_parent none = err parent_failed
ensure_parent (some parent) = do
  reject (not parent.is_dir) parent_kind
  reject (not (bit_and parent.mode 0o022 == 0)) parent_writable

unfoldable pub write_exclusive :
    KeyFault
    → WriteCalls
    → Text
    → Text
    → ℕ
    → List (Text × KeyFile)
    → List (Text × KeyFile) × Result KeyFault (Unit {0})
unfolding file_at
write_exclusive fault calls path contents mode files =
    if not (is_none (file_at path files)) || not calls.opens
    then (files, err fault)
    else if calls.writes && calls.syncs && calls.closes
    then ((path, record { regular = true; mode = mode; contents = contents }) ∷ files, ok tt)
    else if calls.removes
    then (files, err fault)
    else ((path, record { regular = true; mode = mode; contents = calls.left }) ∷ files, err fault)

module _ (p : Platform) (trim_space clean : Text → Text) where
  -- What reading the file up to `limit` bytes and one more gives.
  abbrev pub read_at_most : ℕ → KeyFile → Text
  read_at_most limit file = take (limit + 1) file.contents

  -- The raw bytes of a private key, as `LoadPrivate` accepts them.
  unfoldable pub private_of : Text → Result KeyFault Text
  private_of raw =
      if length raw == 32
      then ok (p.key_from_seed raw)
      else if length raw == 64
      then (if text_eq (p.key_from_seed (take 32 raw)) raw then ok raw else err key_halves)
      else err key_length

  -- `reads` is that opening, Stat and reading work.
  unfoldable pub load_private : Bool → Text → List (Text × KeyFile) → Result KeyFault Text
  unfolding file_at private_of
  load_private reads path files = do
    file ← or_fail (file_at (clean path) files) key_unreadable
    reject (not reads) key_unreadable
    reject (not file.regular) key_kind
    reject (not (bit_and file.mode 0o077 == 0)) key_permissions
    let encoded = read_at_most 256 file
    reject (length encoded == 0 || ltb 256 (length encoded)) key_size
    raw ← or_fail (p.decode64 (trim_space encoded)) key_encoding
    private_of raw

  unfoldable pub load_public : Bool → Text → List (Text × KeyFile) → Result KeyFault Text
  unfolding file_at
  load_public reads path files = do
    file ← or_fail (file_at (clean path) files) public_unreadable
    reject (not reads) public_unreadable
    reject (not file.regular) public_kind
    let encoded = read_at_most 128 file
    reject (length encoded == 0 || ltb 128 (length encoded)) public_size
    raw ← or_fail (p.decode64 (trim_space encoded)) public_encoding
    reject (not (length raw == 32)) public_encoding
    ok raw

  -- base64 and a newline
  abbrev pub key_text : Text → Text
  key_text raw = p.encode64 raw ++ 10 ∷ []

  -- All before the first file is written.
  unfoldable pub prepare_keys : GenerateCalls → Text → Text → Result KeyFault Text
  unfolding ensure_parent
  prepare_keys calls private_path public_path = do
    reject (text_eq private_path [] || text_eq public_path []) paths_required
    reject (text_eq (clean private_path) (clean public_path)) same_paths
    key ← or_fail calls.key no_key
    ensure_parent calls.private_parent
    ensure_parent calls.public_parent
    ok key

  unfoldable pub write_keys :
      GenerateCalls
      → Text
      → Text
      → Text
      → List (Text × KeyFile)
      → List (Text × KeyFile) × Result KeyFault Text
  unfolding write_exclusive without
  write_keys calls key private_path public_path files =
      let (one, wrote) =
        write_exclusive write_private_failed calls.private_calls (clean private_path) (key_text key)
          0o600 files in
      elim wrote [
        | err fault ↦ (one, err fault)
        | ok done ↦
            let (two, published) =
              write_exclusive write_public_failed calls.public_calls (clean public_path)
                (key_text (public_of key)) 0o644 one in
            elim published [
              | err fault ↦ (
                if calls.removes_private then without (clean private_path) two else two,
                err fault,
              )
              | ok done ↦ (two, ok (public_of key))
            ]
      ]

  unfoldable pub generate_files :
      GenerateCalls
      → Text
      → Text
      → List (Text × KeyFile)
      → List (Text × KeyFile) × Result KeyFault Text
  unfolding prepare_keys write_keys
  generate_files calls private_path public_path files =
      elim (prepare_keys calls private_path public_path) [
        | err fault ↦ (files, err fault)
        | ok key ↦ write_keys calls key private_path public_path files
      ]
