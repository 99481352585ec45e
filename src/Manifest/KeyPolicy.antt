-- ===== src/Manifest/KeyPolicy.antt =====
-- internal/manifest/keypolicy.go: the offline root's signed grants of online signing keys.
mod Find
pub mod Ranges
pub mod Grants
pub mod Granted
pub mod Canonical
pub mod Signed
use virtual_cloud_help_servi.Prelude.{
  ℕ, ◌+◌, Bool, false, not, ◌&&◌, ◌||◌, Option, none, some, List, [], ◌∷◌, ltb, ◌==◌, length, take,
  if◌then◌else◌, ok, err, reject, or_fail, ◌>>=◌, ◌>>◌,
}
use virtual_cloud_help_servi.Prelude.Text.{Text, bytes, text_eq, text_lt, contains}
use virtual_cloud_help_servi.Prelude.Sort.{sort_by}
use virtual_cloud_help_servi.Platform.{
  Platform, Trailing, eof, malformed, value, encoded_len, public_of,
}
use virtual_cloud_help_servi.Manifest.Types.{KeyGrant, KeyPolicy, u64, max_u64}
use virtual_cloud_help_servi.Manifest.Fault.{
  Outcome, invalid_manifest_public_key, invalid_root_private_key, invalid_root_public_key,
  policy_version_zero, policy_root_key_id_invalid, policy_grant_count, policy_signature_size,
  grant_invalid_key, grant_duplicate, grant_zero_start, grant_invalid_range, first_grant_start,
  grant_open_ended_before_final, grants_not_contiguous, final_grant_closed, policy_root_mismatch,
  policy_signature_invalid, policy_signature_failed, policy_encode, key_not_authorized,
  policy_public_key_invalid, key_absent, policy_size_invalid, policy_decode,
}

abbrev pub key_policy_context : Text
key_policy_context = bytes "virtual-cloud-help-service/manifest-key-policy/v1"

abbrev pub max_key_policy_bytes : ℕ
max_key_policy_bytes = 32_768

abbrev pub max_policy_keys : ℕ
max_policy_keys = 64

abbrev pub grant_key : KeyGrant → Text
grant_key g = g.key_id

-- The comparison of `canonicalKeyGrants`.
unfoldable pub grant_less : KeyGrant → KeyGrant → Bool
grant_less a b =
    if a.not_before_version == b.not_before_version
    then text_lt a.key_id b.key_id
    else ltb a.not_before_version b.not_before_version

unfoldable pub canonical_key_grants : List KeyGrant → List KeyGrant
canonical_key_grants grants = sort_by grant_less grants

unfoldable pub canonical_key_policy : KeyPolicy → KeyPolicy
canonical_key_policy policy = record policy { keys = canonical_key_grants policy.keys }

-- `grants[len(grants)-1].NotAfterVersion == 0`; the caller has refused an empty list.
unfoldable pub ends_open : List KeyGrant → Bool
ends_open [] = false
ends_open (g ∷ []) = g.not_after_version == 0
ends_open (g ∷ h ∷ gs) = ends_open (h ∷ gs)

-- The first grant starts at epoch and version 1; each later one continues the one before it.
unfoldable pub follows : Option KeyGrant → KeyGrant → Outcome (Unit {0})
follows none g = reject (not (g.epoch == 1) || not (g.not_before_version == 1)) first_grant_start
follows (some previous) g = do
  reject (previous.not_after_version == 0 || previous.not_after_version == max_u64)
      grant_open_ended_before_final
  reject
      (not (g.epoch == u64 (previous.epoch + 1))
        || not (g.not_before_version == u64 (previous.not_after_version + 1)))
      grants_not_contiguous

-- `authorizes g version`: the version lies in the grant's range.
unfoldable pub authorizes : KeyGrant → ℕ → Bool
authorizes g version = not (
    ltb version g.not_before_version
    || not (g.not_after_version == 0) && ltb g.not_after_version version)

-- `decodeStrict`: one JSON value, and nothing after it.
unfoldable pub decode_strict :
    {A : Type 0} → (Text → Option (A × Text)) → (Text → Trailing) → Text → Option A
decode_strict read next_value data_bytes = elim (read data_bytes) [
  | none ↦ none
  | some (a, rest) ↦ elim (next_value rest) [ eof ↦ some a | malformed ↦ none | value ↦ none ]
]

module _ (p : Platform) where
  unfoldable pub key_id_of : Text → Text
  key_id_of public_key = p.encode64 (p.sha256 public_key)

  unfoldable pub new_key_grant : Text → ℕ → ℕ → ℕ → Outcome KeyGrant
  new_key_grant public_key epoch not_before not_after = do
    reject (not (length public_key == 32)) invalid_manifest_public_key
    ok (record {
      key_id = key_id_of public_key;
      public_key = p.encode64 public_key;
      epoch = epoch;
      not_before_version = not_before;
      not_after_version = not_after;
    })

  unfoldable pub valid_private_key : Text → Bool
  valid_private_key key = length key == 64 && text_eq (p.key_from_seed (take 32 key)) key

  unfoldable pub grant_key_valid : KeyGrant → Bool
  grant_key_valid g = elim (p.decode64 g.public_key) [
    | none ↦ false
    | some raw ↦ length raw == 32 && text_eq (key_id_of raw) g.key_id
  ]

  -- The body of the loop over the canonical grants; `previous` is none at index 0.
  unfoldable pub check_grant : List Text → Option KeyGrant → KeyGrant → Outcome (Unit {0})
  check_grant seen previous g = do
    reject (not (grant_key_valid g)) grant_invalid_key
    reject (contains seen g.key_id) grant_duplicate
    reject (g.epoch == 0 || g.not_before_version == 0) grant_zero_start
    reject (not (g.not_after_version == 0) && ltb g.not_after_version g.not_before_version)
        grant_invalid_range
    follows previous g

  unfoldable pub check_grants : List Text → Option KeyGrant → List KeyGrant → Outcome (Unit {0})
  check_grants seen previous [] = ok tt
  check_grants seen previous (g ∷ gs) = do
    check_grant seen previous g
    check_grants (g.key_id ∷ seen) (some g) gs

  unfoldable pub validate_key_policy_shape : KeyPolicy → Outcome (Unit {0})
  validate_key_policy_shape policy = do
    reject (policy.version == 0) policy_version_zero
    reject (not (length policy.root_key_id == encoded_len 32)) policy_root_key_id_invalid
    reject (length policy.keys == 0 || ltb max_policy_keys (length policy.keys)) policy_grant_count
    reject (not (text_eq policy.signature []) && not (length policy.signature == encoded_len 64))
        policy_signature_size
    let grants = canonical_key_grants policy.keys
    check_grants [] none grants
    reject (not (ends_open grants)) final_grant_closed

  unfoldable pub key_policy_signing_bytes : KeyPolicy → Outcome Text
  key_policy_signing_bytes policy =
      or_fail
        (p.marshal_policy_payload (record {
          context = key_policy_context;
          version = policy.version;
          root_key_id = policy.root_key_id;
          keys = canonical_key_grants policy.keys;
        }))
        policy_encode

  unfoldable pub sign_key_policy : Text → ℕ → List KeyGrant → Outcome KeyPolicy
  sign_key_policy root_private_key version grants = do
    reject (not (valid_private_key root_private_key)) invalid_root_private_key
    let root_public_key = public_of root_private_key
    let policy : KeyPolicy = record {
      version = version;
      root_key_id = key_id_of root_public_key;
      keys = canonical_key_grants grants;
      signature = [];
    }
    validate_key_policy_shape policy
    payload ← key_policy_signing_bytes policy
    ok (record policy { signature = p.encode64 (p.sign root_private_key payload) })

  -- The signature's bytes, if they decode to the right number.
  unfoldable pub signature_bytes : Text → Outcome Text
  signature_bytes encoded = do
    signature ← or_fail (p.decode64 encoded) policy_signature_invalid
    reject (not (length signature == 64)) policy_signature_invalid
    ok signature

  unfoldable pub validate_key_policy : KeyPolicy → Text → Outcome Text
  validate_key_policy policy root_public_key = do
    reject (not (length root_public_key == 32)) invalid_root_public_key
    validate_key_policy_shape policy
    reject (not (text_eq policy.root_key_id (key_id_of root_public_key))) policy_root_mismatch
    signature ← signature_bytes policy.signature
    payload ← key_policy_signing_bytes policy
    reject (not (p.verify_signature root_public_key payload signature)) policy_signature_failed
    canonical ← or_fail (p.marshal_policy (canonical_key_policy policy)) policy_encode
    ok (p.encode64 (p.sha256 canonical))

  -- The loop of `KeyPolicyGrant` over `policy.Keys`.
  unfoldable pub find_grant : List KeyGrant → Text → ℕ → Outcome (KeyGrant × Text)
  find_grant [] key_id version = err key_absent
  find_grant (g ∷ gs) key_id version =
      let others = find_grant gs key_id version in
      if not (text_eq g.key_id key_id) then others else do
        reject (not (authorizes g version)) key_not_authorized
        raw ← or_fail (p.decode64 g.public_key) policy_public_key_invalid
        reject (not (length raw == 32)) policy_public_key_invalid
        ok (g, raw)

  unfoldable pub key_policy_grant : KeyPolicy → Text → ℕ → Outcome (KeyGrant × Text)
  unfolding find_grant
  key_policy_grant policy key_id version = find_grant policy.keys key_id version

  unfoldable pub decode_key_policy : Text → Outcome KeyPolicy
  decode_key_policy data_bytes = do
    reject (length data_bytes == 0 || ltb max_key_policy_bytes (length data_bytes))
        policy_size_invalid
    or_fail (decode_strict p.read_policy p.next_value data_bytes) policy_decode
