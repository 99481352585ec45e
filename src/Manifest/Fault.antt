-- ===== src/Manifest/Fault.antt =====
-- The errors of internal/manifest, one constructor for each message.
use virtual_cloud_help_servi.Prelude.{Result}

pub data Fault : Type 0 where
  -- keypolicy.go
  invalid_manifest_public_key invalid_root_private_key invalid_root_public_key : Fault
  policy_version_zero policy_root_key_id_invalid policy_grant_count : Fault
  policy_signature_size grant_invalid_key grant_duplicate grant_zero_start : Fault
  grant_invalid_range first_grant_start grant_open_ended_before_final : Fault
  grants_not_contiguous final_grant_closed policy_root_mismatch : Fault
  policy_signature_invalid policy_signature_failed policy_encode : Fault
  key_not_authorized policy_public_key_invalid key_absent : Fault
  policy_size_invalid policy_decode : Fault
  -- manifest.go: documents
  unsupported_schema document_version_zero catalog_revision_zero times_required : Fault
  expiry_not_after_issuance lifetime_too_long policy_unsigned : Fault
  discovery_count discovery_invalid_id discovery_duplicate_id discovery_priority : Fault
  discovery_url discovery_host discovery_port : Fault
  node_count node_invalid_id node_duplicate_id node_region node_country node_provider : Fault
  node_asn node_endpoint_count endpoint_duplicate_id : Fault
  endpoint_invalid_id endpoint_address endpoint_port endpoint_credential : Fault
  endpoint_priority endpoint_server_name endpoint_transport : Fault
  -- manifest.go: issuing and verifying
  invalid_private_key issued_version_zero ttl_range payload_encode payload_too_big : Fault
  envelope_size envelope_decode unsupported_algorithm key_id_required : Fault
  encoded_payload_size encoded_signature_size payload_base64 payload_size : Fault
  signature_base64 document_decode signature_failed not_valid_yet expired : Fault
  -- manifest.go: the client's state
  state_inconsistent state_incomplete state_invalid_digests : Fault
  policy_rollback policy_equivocation version_rollback payload_equivocation : Fault
  issuance_backwards epoch_backwards epoch_changed key_without_epoch : Fault

abbrev pub Outcome : Type 0 → Type 0
Outcome A = Result Fault A
