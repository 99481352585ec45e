-- ===== src/Manifest/Types.antt =====
-- The documents of internal/manifest/manifest.go and keypolicy.go, with the source's fields.
-- A string or a byte slice is its list of bytes; uint64, uint32 and uint16 fields are numbers,
-- and an operation on them writes its wrap-around out.
use virtual_cloud_help_servi.Prelude.{ℕ, ◌^◌, ◌-◌, ◌%◌, List}
use virtual_cloud_help_servi.Prelude.Text.{Text, bytes}
use virtual_cloud_help_servi.GoTime.{Instant}

abbrev pub u64 : ℕ → ℕ
u64 n = n % 2 ^ 64

abbrev pub max_u64 : ℕ
max_u64 = 2 ^ 64 - 1

pub record KeyGrant : Type 0 where
  pub key_id : Text
  pub public_key : Text
  pub epoch : ℕ  -- uint64
  pub not_before_version : ℕ  -- uint64
  pub not_after_version : ℕ  -- uint64

pub record KeyPolicy : Type 0 where
  pub version : ℕ  -- uint64
  pub root_key_id : Text
  pub keys : List KeyGrant
  pub signature : Text

pub record KeyPolicyPayload : Type 0 where
  pub context : Text
  pub version : ℕ  -- uint64
  pub root_key_id : Text
  pub keys : List KeyGrant

pub record DiscoveryEndpoint : Type 0 where
  pub id : Text
  pub url : Text
  pub priority : ℕ  -- uint16

pub record Endpoint : Type 0 where
  pub id : Text
  pub transport : Text
  pub address : Text
  pub server_name : Text
  pub credential_ref : Text
  pub priority : ℕ  -- uint16

pub record Node : Type 0 where
  pub id : Text
  pub region : Text
  pub country_code : Text
  pub provider : Text
  pub asn : ℕ  -- uint32
  pub endpoints : List Endpoint

pub record Catalog : Type 0 where
  pub revision : ℕ  -- uint64
  pub discovery : List DiscoveryEndpoint
  pub nodes : List Node

pub record Document : Type 0 where
  pub schema_version : ℕ
  pub version : ℕ  -- uint64
  pub catalog_revision : ℕ  -- uint64
  pub issued_at : Instant
  pub expires_at : Instant
  pub key_policy : KeyPolicy
  pub discovery : List DiscoveryEndpoint
  pub nodes : List Node

pub record Envelope : Type 0 where
  pub algorithm : Text
  pub key_id : Text
  pub payload : Text
  pub signature : Text

pub record TrustedState : Type 0 where
  pub version : ℕ  -- uint64
  pub issued_at : Instant
  pub payload_sha256 : Text
  pub policy_version : ℕ  -- uint64
  pub policy_sha256 : Text
  pub signing_key_id : Text
  pub signing_key_epoch : ℕ  -- uint64

abbrev pub schema_version : ℕ
schema_version = 3

abbrev pub algorithm : Text
algorithm = bytes "Ed25519"

abbrev pub max_manifest_bytes : ℕ
max_manifest_bytes = 1_048_576

abbrev pub transport_amneziawg : Text
transport_amneziawg = bytes "amneziawg"

abbrev pub transport_reality : Text
transport_reality = bytes "vless-reality"
