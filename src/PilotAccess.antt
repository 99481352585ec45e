-- ===== src/PilotAccess.antt =====
-- internal/pilotaccess/access.go: the records of a pilot's VPN accesses and their life cycle.
-- The service is written over a store of any state; postgres/store.go is the child PilotAccess/Store.
pub mod Uuid
pub mod Service
pub mod Store
use virtual_cloud_help_servi.Prelude.{
  ℕ, ◌+◌, ◌*◌, Bool, true, false, not, ◌&&◌, ◌||◌, List, [], ◌∷◌, ◌++◌, Option, none, some, map,
  leb, ltb, ◌==◌, length, take, drop, is_none, if◌then◌else◌, replicate, Result, ok, err, reject,
  wrap, ◌>>=◌, ◌>>◌, get_elem?,
}
use Prim.Native.Nat.{bit_and, bit_or, ◌/◌, ◌%◌}
use virtual_cloud_help_servi.Prelude.Text.{Text, bytes, text_eq}
use virtual_cloud_help_servi.GoTime.{Instant, Duration, second, hour, is_zero, before, truncate}
use virtual_cloud_help_servi.Patterns.{is_digit, is_lower, is_upper, is_alnum, between, matches}
use virtual_cloud_help_servi.VpnNode.{validate_transport}
use virtual_cloud_help_servi.VpnNode.Provider.{validate_id}

abbrev pub maximum_pilot_access_lifetime : Duration
maximum_pilot_access_lifetime = 90 * 24 * hour

-- Why an access is invalid (ErrInvalid).
pub data Invalid : Type 0 where
  bad_ids bad_node bad_transport bad_reference secret_reference : Invalid
  creation_required bad_expiry active_with_revocation bad_revocation : Invalid
  unsupported_status bad_access_id refused_by_table : Invalid

-- `invalid`, `not_found` and `conflict` wrap the errors of those names.
pub data AccessFault : Type 0 where
  invalid returned_invalid : Invalid → AccessFault
  not_found conflict no_id failure : AccessFault

abbrev pub status_active : Text
status_active = bytes "active"

abbrev pub status_revoked : Text
status_revoked = bytes "revoked"

pub record Access : Type 0 where
  pub id : Text
  pub device_id : Text
  pub node_id : Text
  pub transport : Text
  pub external_reference : Text
  pub created_at : Instant
  pub expires_at : Option Instant
  pub revoked_at : Option Instant
  pub status : Text

pub record RegisterInput : Type 0 where
  pub device_id : Text
  pub node_id : Text
  pub transport : Text
  pub external_reference : Text
  pub expires_at : Option Instant

-- [0-9a-f]
abbrev pub is_hex : ℕ → Bool
is_hex c = is_digit c || between b'a' b'f' c

-- ^[class][class]...$
unfoldable pub matches_each : List (ℕ → Bool) → Text → Bool
matches_each [] [] = true
matches_each (class ∷ classes) (c ∷ cs) = class c && matches_each classes cs
matches_each _ _ = false

abbrev pub dash : List (ℕ → Bool)
dash = (λ c. c == b'-') ∷ []

abbrev pub uuid_classes : List (ℕ → Bool)
uuid_classes =
    replicate 8 is_hex
    ++ dash
    ++ replicate 4 is_hex
    ++ dash
    ++ between b'1' b'5' ∷ replicate 3 is_hex
    ++ dash
    ++ (λ c. c == b'8' || c == b'9' || c == b'a' || c == b'b') ∷ replicate 3 is_hex
    ++ dash
    ++ replicate 12 is_hex

abbrev pub uuid_pattern : Text → Bool
uuid_pattern = matches_each uuid_classes

-- [A-Za-z0-9._:@/+\-=]
abbrev pub is_reference_char : ℕ → Bool
is_reference_char c =
    is_alnum c
    || c == b'.'
    || c == b'_'
    || c == b':'
    || c == b'@'
    || c == b'/'
    || c == b'+'
    || c == b'-'
    || c == b'='

abbrev pub external_reference_pattern : Text → Bool
external_reference_pattern = matches is_alnum is_reference_char 255

-- strings.ToLower on ASCII; the program applies it to such references only.
abbrev pub to_lower : Text → Text
to_lower = map (λ c. if is_upper c then c + 32 else c)

-- strings.HasPrefix(s, prefix)
unfoldable pub has_prefix : Text → Text → Bool
has_prefix s [] = true
has_prefix [] (c ∷ prefix) = false
has_prefix (d ∷ s) (c ∷ prefix) = d == c && has_prefix s prefix

-- strings.Contains(s, part)
unfoldable pub has_part : Text → Text → Bool
unfolding has_prefix
has_part [] part = has_prefix [] part
has_part (c ∷ s) part = has_prefix (c ∷ s) part || has_part s part

-- The loop of `resemblesSecret` over the encodings.
unfoldable pub decodes_to_key : List (Text → Option Text) → Text → Bool
decodes_to_key [] value = false
decodes_to_key (decode ∷ rest) value = elim (decode value) [
  | none ↦ decodes_to_key rest value
  | some raw ↦ leb 32 (length raw) || decodes_to_key rest value
]

-- `value.Add(d)` for a bound that the source compares with.
unfoldable pub expiry_ok : Instant → Option Instant → Bool
expiry_ok created none = false
expiry_ok created (some expires) =
    before created expires && not (before (created + maximum_pilot_access_lifetime) expires)

-- `access.RevokedAt == nil || access.RevokedAt.Before(access.CreatedAt)`
unfoldable pub lacks_revocation : Access → Bool
lacks_revocation access = elim access.revoked_at [
  | none ↦ true
  | some revoked ↦ before revoked access.created_at
]

unfoldable pub check_status : Access → Result Invalid (Unit {0})
unfolding lacks_revocation
check_status access =
    if text_eq access.status status_active
    then reject (not (is_none access.revoked_at)) active_with_revocation
    else if text_eq access.status status_revoked
    then reject (lacks_revocation access) bad_revocation
    else err unsupported_status

-- `decoders` are DecodeString of base64's StdEncoding, RawStdEncoding, URLEncoding and
-- RawURLEncoding, with none for an error.
module _ (decoders : List (Text → Option Text)) where
  unfoldable pub resembles_secret : Text → Bool
  unfolding has_part decodes_to_key
  resembles_secret value =
      has_part (to_lower value) (bytes "private")
      || has_prefix (to_lower value) (bytes "vpn://")
      || has_prefix value (bytes "-----BEGIN")
      || decodes_to_key decoders value

  unfoldable pub validate_access : Access → Result Invalid (Unit {0})
  unfolding resembles_secret expiry_ok check_status
  validate_access access = do
    reject (not (uuid_pattern access.id) || not (uuid_pattern access.device_id)) bad_ids
    wrap (λ _. bad_node) (validate_id access.node_id)
    wrap (λ _. bad_transport) (validate_transport access.transport)
    reject (not (external_reference_pattern access.external_reference)) bad_reference
    reject (resembles_secret access.external_reference) secret_reference
    reject (is_zero access.created_at) creation_required
    reject (not (expiry_ok access.created_at access.expires_at)) bad_expiry
    check_status access
