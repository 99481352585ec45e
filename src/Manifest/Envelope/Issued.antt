-- ===== src/Manifest/Envelope/Issued.antt =====
-- What a successful `Issue` has computed and checked on the way.
use virtual_cloud_help_servi.Prelude.{ℕ, ◌<◌, ◌≤◌, ◌≡◌, true, some, arith, length, ok}
use virtual_cloud_help_servi.Prelude.Text.{Text}
use virtual_cloud_help_servi.GoTime.{Instant, Duration, minute}
use virtual_cloud_help_servi.Platform.{Platform, public_of}
use virtual_cloud_help_servi.Manifest.Types.{
  Catalog, Envelope, KeyGrant, KeyPolicy, algorithm, max_manifest_bytes,
}
use virtual_cloud_help_servi.Manifest.KeyPolicy.{
  key_id_of, valid_private_key, validate_key_policy, key_policy_grant,
}
use virtual_cloud_help_servi.Manifest.Validate.{validate, max_manifest_life}
use virtual_cloud_help_servi.Manifest.Envelope.{issued_document, issue}

module _ (p : Platform) where
  pub record Issued (catalog : Catalog) (version : ℕ) (key_policy : KeyPolicy) (root : Text)
      (now : Instant) (ttl : Duration) (key : Text) (envelope : Envelope) : Type 0 where
    pub payload : Text
    pub digest : Text
    pub grant : KeyGrant
    pub raw : Text
    pub valid_key : valid_private_key p key ≡ true
    pub version_pos : 0 < version
    pub ttl_bounds : (minute ≤ ttl) × (ttl ≤ max_manifest_life)
    pub policy_valid : validate_key_policy p key_policy root ≡ ok digest
    pub granted :
        key_policy_grant p key_policy (key_id_of p (public_of key)) version ≡ ok (grant, raw)
    pub valid : validate p (issued_document catalog version key_policy now ttl) ≡ ok tt
    pub encoded :
        p.marshal_document (issued_document catalog version key_policy now ttl) ≡ some payload
    pub fits : length payload ≤ max_manifest_bytes
    pub sealed : envelope ≡ record {
      algorithm = algorithm;
      key_id = key_id_of p (public_of key);
      payload = p.encode64 payload;
      signature = p.encode64 (p.sign key payload);
    }

  pub issue-Issued :
      (catalog : Catalog) (version : ℕ) (key_policy : KeyPolicy) (root : Text) (now : Instant)
      (ttl : Duration) (key : Text) {envelope : Envelope}
      → issue p catalog version key_policy root now ttl key ≡ ok envelope
      → Issued catalog version key_policy root now ttl key envelope
  unfolding issue
  issue-Issued catalog version key_policy root now ttl key {envelope} h =
      let checked : (digest : Text) × (validate_key_policy p key_policy root ≡ ok digest) =
        ground arith in
      let found : (found : KeyGrant × Text) × (key_policy_grant p key_policy
              (key_id_of p (public_of key)) version
            ≡ ok found) =
        ground arith in
      let written : (payload : Text) × (p.marshal_document
              (issued_document catalog version key_policy now ttl)
            ≡ some payload) =
        ground arith in
      record {
        payload = written.0;
        digest = checked.0;
        grant = found.0.0;
        raw = found.0.1;
        valid_key = ground arith;
        version_pos = ground arith;
        ttl_bounds = (ground arith, ground arith);
        policy_valid = checked.1;
        granted = found.1;
        valid = ground arith;
        encoded = written.1;
        fits = ground (arith, written.1);
        sealed = ground (arith, written.1);
      }
