-- ===== src/Tests/Manifests.antt =====
-- Two signing keys under one root: key A signs versions 1 to 5, key B the later ones.
use virtual_cloud_help_servi.Prelude.{
  ℕ, ◌+◌, ◌*◌, ◌≡◌, refl, [], ◌∷◌, replicate, ok, ltb, if◌then◌else◌, all,
}
use virtual_cloud_help_servi.Prelude.Text.{Text, bytes, text_eq, text_lt, contains}
use virtual_cloud_help_servi.Prelude.Sort.{sort_by}
use virtual_cloud_help_servi.Patterns.{matches, matches_exactly, is_hostname}
use virtual_cloud_help_servi.Strconv.{valid_port}
use virtual_cloud_help_servi.GoTime.{Instant, minute, hour, zero_instant}
use virtual_cloud_help_servi.Platform.{Platform, public_of}
use virtual_cloud_help_servi.Manifest.Types.{
  Catalog, Document, Envelope, KeyGrant, KeyPolicy, transport_amneziawg,
}
use virtual_cloud_help_servi.Manifest.KeyPolicy.{
  key_id_of, valid_private_key, grant_less, canonical_key_grants, canonical_key_policy, ends_open,
  follows, authorizes, decode_strict, grant_key_valid, check_grant, check_grants,
  validate_key_policy_shape, key_policy_signing_bytes, signature_bytes, validate_key_policy,
  find_grant, key_policy_grant,
}
use virtual_cloud_help_servi.Manifest.Validate.{
  id_pattern, region_pattern, country_pattern, credential_pattern, public_https, valid_host,
  check_source, check_sources, validate_discovery, check_transport, validate_endpoint,
  check_endpoints, check_node, check_nodes, validate_catalog_contents, validate,
}
use virtual_cloud_help_servi.Manifest.Canonical.{
  source_less, endpoint_less, node_less, canonical_discovery, canonical_nodes,
}
use virtual_cloud_help_servi.Manifest.Transition.{validate_state_transition, valid_sha256_digest}
use virtual_cloud_help_servi.Manifest.Envelope.{
  issued_document, issue, candidate_state, verify_document, verify,
}
use virtual_cloud_help_servi.Tests.Toy.{toy, toy_encode, toy_sha256, toy_sign}

abbrev pub root_key : Text
root_key = replicate 64 7

abbrev pub key_a : Text
key_a = replicate 64 1

abbrev pub key_b : Text
key_b = replicate 64 2

abbrev pub grant_of : Text → ℕ → ℕ → ℕ → KeyGrant
grant_of key epoch first last = record {
  key_id = toy_encode (toy_sha256 (public_of key));
  public_key = toy_encode (public_of key);
  epoch = epoch;
  not_before_version = first;
  not_after_version = last;
}

-- The grants stand out of order.
abbrev pub sample_policy : KeyPolicy
sample_policy = record {
  version = 1;
  root_key_id = toy_encode (toy_sha256 (public_of root_key));
  keys = grant_of key_b 2 6 0 ∷ grant_of key_a 1 1 5 ∷ [];
  signature = toy_encode (toy_sign root_key (1 ∷ []));
}

abbrev pub sample_catalog : Catalog
sample_catalog = record {
  revision = 1;
  discovery = record { id = bytes "main"; url = bytes "https://a.example/"; priority = 10 } ∷ [];
  nodes =
      record {
        id = bytes "fra-1";
        region = bytes "fra";
        country_code = bytes "DE";
        provider = bytes "timeweb";
        asn = 9123;
        endpoints =
            record {
              id = bytes "fra-1-awg";
              transport = transport_amneziawg;
              address = bytes "a.example";
              server_name = [];
              credential_ref = bytes "awg.1";
              priority = 10;
            }
            ∷ [];
      }
      ∷ [];
}

abbrev pub start : Instant
start = zero_instant + 1000 * hour

-- Version 5 is issued at the start, and every other version a minute later.
abbrev pub issue_time : ℕ → Instant
issue_time version = if ltb 5 version then start + minute else start

abbrev pub sample_document : ℕ → Instant → Document
sample_document version now = issued_document sample_catalog version sample_policy now hour

abbrev pub sample : Platform
sample = toy sample_document

-- Names all that a run of `Issue` and `Verify` computes with.
unfoldable pub manifest_run : Unit {0}
unfolding text_eq text_lt contains all sort_by matches matches_exactly is_hostname valid_port
    key_id_of valid_private_key grant_less canonical_key_grants canonical_key_policy ends_open
    follows authorizes decode_strict grant_key_valid check_grant check_grants
    validate_key_policy_shape key_policy_signing_bytes signature_bytes validate_key_policy
    find_grant key_policy_grant id_pattern region_pattern country_pattern credential_pattern
    public_https valid_host check_source check_sources validate_discovery check_transport
    validate_endpoint check_endpoints check_node check_nodes validate_catalog_contents validate
    source_less endpoint_less node_less canonical_discovery canonical_nodes issued_document issue
    candidate_state verify_document verify validate_state_transition valid_sha256_digest
manifest_run = tt

sample_policy_valid : validate_key_policy_shape sample sample_policy ≡ ok tt
unfolding manifest_run
sample_policy_valid = refl

abbrev pub sample_envelope : ℕ → Text → Envelope
sample_envelope version key = record {
  algorithm = bytes "Ed25519";
  key_id = toy_encode (toy_sha256 (public_of key));
  payload = toy_encode (version ∷ issue_time version ∷ []);
  signature = toy_encode (toy_sign key (version ∷ issue_time version ∷ []));
}

abbrev pub root_public : Text
root_public = public_of root_key

pub issued_5 :
    issue sample sample_catalog 5 sample_policy root_public (issue_time 5) hour key_a
    ≡ ok (sample_envelope 5 key_a)
unfolding manifest_run
issued_5 = refl

pub issued_6 :
    issue sample sample_catalog 6 sample_policy root_public (issue_time 6) hour key_b
    ≡ ok (sample_envelope 6 key_b)
unfolding manifest_run
issued_6 = refl
