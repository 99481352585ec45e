-- ===== src/Manifest/Envelope/Encoded.antt =====
-- `Verify` on an envelope that `Issue` has encoded, up to the client's own state.
use virtual_cloud_help_servi.Prelude.{
  ℕ, ◌+◌, ◌<◌, ◌≤◌, ◌≡◌, true, some, [], arith, length, take, ok, ◌==◌, ◌>>◌, if◌then◌else◌,
}
use virtual_cloud_help_servi.Prelude.Text.{Text, text_eq_iff, text_eq_refl}
use virtual_cloud_help_servi.GoTime.{Instant, Duration, second, truncate}
use virtual_cloud_help_servi.Platform.{Platform, Laws, encoded_len, public_of}
use virtual_cloud_help_servi.Manifest.Types.{
  Catalog, Document, Envelope, KeyGrant, KeyPolicy, TrustedState, algorithm, max_manifest_bytes,
}
use virtual_cloud_help_servi.Manifest.KeyPolicy.{
  decode_strict, key_id_of, valid_private_key, validate_key_policy_shape, key_policy_grant,
}
use virtual_cloud_help_servi.Manifest.KeyPolicy.Granted.{
  granted_key_id, validate_key_policy-PolicyChecked,
}
use virtual_cloud_help_servi.Manifest.KeyPolicy.Canonical.{
  validate_key_policy-canonical, key_policy_grant-canonical,
}
use virtual_cloud_help_servi.Manifest.Validate.{allowed_clock_skew}
use virtual_cloud_help_servi.Manifest.Transition.{validate_state_transition}
use virtual_cloud_help_servi.Manifest.Envelope.{
  issued_document, candidate_state, verify_document, verify,
}
use virtual_cloud_help_servi.Manifest.Envelope.Issued.{Issued}

module _ (p : Platform) where
  -- No other key of 32 bytes has the id of this public key (SHA-256 does not collide on it).
  pub record UniqueKeyId (public_key : Text) : Type 0 where
    pub same :
        (raw : Text) → length raw ≡ 32 → key_id_of p raw ≡ key_id_of p public_key → raw ≡ public_key

  encoded_len_bounds :
      (n : ℕ)
      → 0 < n
      → n ≤ max_manifest_bytes
      → (0 < encoded_len n) × (encoded_len n ≤ encoded_len max_manifest_bytes)
  encoded_len_bounds n h k = omega arith

  -- The tests of `Verify` before the document's own pass for an envelope that was encoded.
  pub verify-encoded :
      (laws : Laws p) (payload key_id private_key root : Text) (document : Document)
      (arrival : Instant) (trusted : TrustedState)
      → length root ≡ 32
      → (0 < length key_id)
      → (0 < length payload)
      → length payload ≤ max_manifest_bytes
      → p.read_document payload ≡ some (document, [])
      → let envelope : Envelope = record {
        algorithm = algorithm;
        key_id = key_id;
        payload = p.encode64 payload;
        signature = p.encode64 (p.sign private_key payload);
      } in
        verify p envelope root arrival trusted
        ≡ verify_document p envelope payload
            (p.sign private_key payload)
            document
            root
            arrival
            trusted
  unfolding verify decode_strict
  verify-encoded laws payload key_id private_key root document arrival trusted sized named
        some_bytes fits reads =
      ground (
        arith,
        text_eq_refl algorithm,
        text_eq_iff key_id [],
        laws.decode-encode payload,
        laws.decode-encode (p.sign private_key payload),
        laws.length-encode payload,
        laws.length-encode (p.sign private_key payload),
        laws.length-sign private_key payload,
        laws.next_value-nil,
        encoded_len_bounds (length payload) some_bytes fits,
      )

  -- The key that the policy grants to the issuer is the issuer's own.
  grant-own_key :
      (policy : KeyPolicy) (key : Text) (version : ℕ) {g : KeyGrant} {raw : Text}
      → UniqueKeyId (public_of key)
      → validate_key_policy_shape p policy ≡ ok tt
      → key_policy_grant p policy (key_id_of p (public_of key)) version ≡ ok (g, raw)
      → raw ≡ public_of key
  grant-own_key policy key version {g} {raw} unique shape granted =
      let k =
        granted_key_id p policy (key_id_of p (public_of key)) version {g = g} {raw = raw} shape
          granted in
      unique.same raw k.0 k.1

  signature_verifies :
      (laws : Laws p) (key payload : Text)
      → valid_private_key p key ≡ true
      → p.verify_signature (public_of key) payload (p.sign key payload) ≡ true
  unfolding valid_private_key
  signature_verifies laws key payload h =
      laws.verify-sign key payload (ground arith)
        (ground (arith, text_eq_iff (p.key_from_seed (take 32 key)) key))

  pub verify_document-issue :
      (laws : Laws p) (catalog : Catalog) (version : ℕ) (key_policy : KeyPolicy) (root key : Text)
      (now arrival : Instant) (ttl : Duration) (trusted : TrustedState) {envelope : Envelope}
      → UniqueKeyId (public_of key)
      → (i : Issued p catalog version key_policy root now ttl key envelope)
      → truncate now second ≤ arrival + allowed_clock_skew
      → arrival < truncate now second + ttl
      → let document = issued_document catalog version key_policy now ttl in
        let candidate = candidate_state p document i.payload i.digest i.grant in
        verify_document p envelope i.payload (p.sign key i.payload) document root arrival trusted
        ≡ (validate_state_transition p trusted candidate
            >> ok (document, if trusted.version == version then trusted else candidate))
  unfolding verify_document candidate_state issued_document
  verify_document-issue laws catalog version key_policy root key now arrival ttl trusted {envelope}
        unique i early late =
      let shape =
        (validate_key_policy-PolicyChecked p key_policy root {digest = i.digest}
          i.policy_valid).shape in
      let own =
        grant-own_key key_policy key version {g = i.grant} {raw = i.raw} unique shape i.granted in
      ground (
        arith,
        validate_key_policy-canonical p key_policy root,
        key_policy_grant-canonical p key_policy (key_id_of p (public_of key)) version {g = i.grant}
            {raw = i.raw} shape i.granted,
        own,
        signature_verifies laws key i.payload i.valid_key,
        laws.length-sign key i.payload,
      )
