-- ===== src/Manifest/Envelope.antt =====
-- `Issue`, `DecodeEnvelope` and `Verify` of internal/manifest/manifest.go.
pub mod Issued
pub mod Encoded
pub mod RoundTrip
pub mod Sequence
use virtual_cloud_help_servi.Prelude.{
  ℕ, ◌+◌, ◌-◌, not, ◌||◌, ltb, ◌==◌, length, if◌then◌else◌, [], ok, reject, or_fail, ◌>>=◌, ◌>>◌,
}
use virtual_cloud_help_servi.Prelude.Text.{Text, text_eq}
use virtual_cloud_help_servi.GoTime.{Instant, Duration, second, minute, before, truncate}
use virtual_cloud_help_servi.Platform.{Platform, encoded_len, public_of}
use virtual_cloud_help_servi.Manifest.Types.{
  Catalog, Document, Envelope, KeyGrant, KeyPolicy, TrustedState, schema_version, algorithm,
  max_manifest_bytes,
}
use virtual_cloud_help_servi.Manifest.Fault.{
  Outcome, invalid_root_public_key, invalid_private_key, issued_version_zero, ttl_range,
  payload_encode, payload_too_big, envelope_size, envelope_decode, unsupported_algorithm,
  key_id_required, encoded_payload_size, encoded_signature_size, payload_base64, payload_size,
  signature_base64, document_decode, signature_failed, not_valid_yet, expired,
}
use virtual_cloud_help_servi.Manifest.KeyPolicy.{
  canonical_key_policy, decode_strict, key_id_of, valid_private_key, validate_key_policy,
  key_policy_grant,
}
use virtual_cloud_help_servi.Manifest.Validate.{validate, max_manifest_life, allowed_clock_skew}
use virtual_cloud_help_servi.Manifest.Canonical.{canonical_discovery, canonical_nodes}
use virtual_cloud_help_servi.Manifest.Transition.{validate_state_transition}

-- The document that `Issue` signs.
unfoldable pub issued_document : Catalog → ℕ → KeyPolicy → Instant → Duration → Document
issued_document catalog version key_policy now ttl =
    let issued_at = truncate now second in
    record {
      schema_version = schema_version;
      version = version;
      catalog_revision = catalog.revision;
      issued_at = issued_at;
      expires_at = issued_at + ttl;
      key_policy = canonical_key_policy key_policy;
      discovery = canonical_discovery catalog.discovery;
      nodes = canonical_nodes catalog.nodes;
    }

module _ (p : Platform) where
  unfoldable pub issue :
      Catalog → ℕ → KeyPolicy → Text → Instant → Duration → Text → Outcome Envelope
  issue catalog version key_policy root_public_key now ttl private_key = do
    reject (not (valid_private_key p private_key)) invalid_private_key
    reject (version == 0) issued_version_zero
    reject (ltb ttl minute || ltb max_manifest_life ttl) ttl_range
    digest ← validate_key_policy p key_policy root_public_key
    let public_key = public_of private_key
    granted ← key_policy_grant p key_policy (key_id_of p public_key) version
    let document = issued_document catalog version key_policy now ttl
    validate p document
    payload ← or_fail (p.marshal_document document) payload_encode
    reject (ltb max_manifest_bytes (length payload)) payload_too_big
    let signature = p.sign private_key payload
    ok (record {
      algorithm = algorithm;
      key_id = key_id_of p public_key;
      payload = p.encode64 payload;
      signature = p.encode64 signature;
    })

  -- The limit on the reader leaves at most one byte over `max_envelope_bytes`, which is refused.
  unfoldable pub decode_envelope : Text → Outcome Envelope
  decode_envelope response = do
    let max_envelope_bytes = encoded_len max_manifest_bytes + 1024
    reject (length response == 0 || ltb max_envelope_bytes (length response)) envelope_size
    or_fail (decode_strict p.read_envelope p.next_value response) envelope_decode

  -- The state that accepting the document would leave.
  unfoldable pub candidate_state : Document → Text → Text → KeyGrant → TrustedState
  candidate_state document payload policy_digest grant = record {
    version = document.version;
    issued_at = document.issued_at;
    payload_sha256 = p.encode64 (p.sha256 payload);
    policy_version = document.key_policy.version;
    policy_sha256 = policy_digest;
    signing_key_id = grant.key_id;
    signing_key_epoch = grant.epoch;
  }

  -- The part of `Verify` after decoding: authentication, lifetime, and the state's transition.
  unfoldable pub verify_document :
      Envelope
      → Text
      → Text
      → Document
      → Text
      → Instant
      → TrustedState
      → Outcome (Document × TrustedState)
  verify_document envelope payload signature document root_public_key now trusted = do
    validate p document
    policy_digest ← validate_key_policy p document.key_policy root_public_key
    (grant, signing_public_key) ←
        key_policy_grant p document.key_policy envelope.key_id document.version
    reject
        (not (length signature == 64)
          || not (p.verify_signature signing_public_key payload signature))
        signature_failed
    reject (before now (document.issued_at - allowed_clock_skew)) not_valid_yet
    reject (not (before now document.expires_at)) expired
    let candidate = candidate_state document payload policy_digest grant
    validate_state_transition p trusted candidate
    ok (document, (if trusted.version == candidate.version then trusted else candidate))

  -- On an error the caller's state stays as it was.
  unfoldable pub verify :
      Envelope → Text → Instant → TrustedState → Outcome (Document × TrustedState)
  verify envelope root_public_key now trusted = do
    reject (not (length root_public_key == 32)) invalid_root_public_key
    reject (not (text_eq envelope.algorithm algorithm)) unsupported_algorithm
    reject (text_eq envelope.key_id []) key_id_required
    let max_encoded_payload = encoded_len max_manifest_bytes
    reject (length envelope.payload == 0 || ltb max_encoded_payload (length envelope.payload))
        encoded_payload_size
    reject (not (length envelope.signature == encoded_len 64)) encoded_signature_size
    payload ← or_fail (p.decode64 envelope.payload) payload_base64
    reject (length payload == 0 || ltb max_manifest_bytes (length payload)) payload_size
    signature ← or_fail (p.decode64 envelope.signature) signature_base64
    document ← or_fail (decode_strict p.read_document p.next_value payload) document_decode
    verify_document envelope payload signature document root_public_key now trusted
