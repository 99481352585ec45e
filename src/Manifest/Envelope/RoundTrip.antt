-- ===== src/Manifest/Envelope/RoundTrip.antt =====
-- What `Issue` signs, `Verify` accepts: both sides of the signed manifest together.
use virtual_cloud_help_servi.Prelude.{
  ℕ, ◌+◌, ◌<◌, ◌≤◌, ◌≡◌, refl, false, [], arith, length, ok, ◌∙◌, ◌==◌, ◌>>◌, if◌then◌else◌,
}
use virtual_cloud_help_servi.Prelude.Text.{Text, text_eq_refl}
use virtual_cloud_help_servi.GoTime.{Instant, Duration, second, truncate, is_zero, zero_instant}
use virtual_cloud_help_servi.Platform.{Platform, Laws, JsonRoundTrip, public_of}
use virtual_cloud_help_servi.Manifest.Types.{
  Catalog, Document, Envelope, KeyGrant, KeyPolicy, TrustedState,
}
use virtual_cloud_help_servi.Manifest.KeyPolicy.{
  canonical_key_policy, key_id_of, validate_key_policy, key_policy_grant,
}
use virtual_cloud_help_servi.Manifest.KeyPolicy.Granted.{
  granted_grant_key, length-key_id_of, length-key_id_of-pos, granted_epoch-pos,
  validate_key_policy-PolicyChecked,
}
use virtual_cloud_help_servi.Manifest.Validate.{validate, allowed_clock_skew}
use virtual_cloud_help_servi.Manifest.Transition.{check_complete, validate_state_transition}
use virtual_cloud_help_servi.Manifest.Transition.Steps.{check_complete_of}
use virtual_cloud_help_servi.Manifest.Envelope.{
  issued_document, issue, candidate_state, verify_document, verify,
}
use virtual_cloud_help_servi.Manifest.Envelope.Issued.{issue-Issued}
use virtual_cloud_help_servi.Manifest.Envelope.Encoded.{
  UniqueKeyId, verify-encoded, verify_document-issue,
}
use mathlib.Core.Path.{ap, sym}

module _ (p : Platform) where
  -- The tests of `Verify` that come before the state's transition pass, and it goes on with it.
  pub record Accepts (catalog : Catalog) (version : ℕ) (key_policy : KeyPolicy) (root : Text)
      (now arrival : Instant) (ttl : Duration) (key : Text) (envelope : Envelope)
      (candidate : TrustedState) : Type 0 where
    pub version_is : candidate.version ≡ version
    pub issued_is : candidate.issued_at ≡ truncate now second
    pub policy_is : candidate.policy_version ≡ key_policy.version
    pub policy_digest_is : validate_key_policy p key_policy root ≡ ok candidate.policy_sha256
    pub key_is : candidate.signing_key_id ≡ key_id_of p (public_of key)
    pub epoch_is :
        (grant : KeyGrant) × (raw : Text) × (key_policy_grant p key_policy
            (key_id_of p (public_of key))
            version
          ≡ ok (grant, raw))
        × (candidate.signing_key_epoch ≡ grant.epoch)
    pub complete : check_complete p candidate ≡ ok tt
    pub verifies :
        (trusted : TrustedState)
        → verify p envelope root arrival trusted ≡ (
            validate_state_transition p trusted candidate
            >> ok (
              issued_document catalog version key_policy now ttl,
              (if trusted.version == version then trusted else candidate),
            ))

  validate-issued_at :
      (document : Document) → validate p document ≡ ok tt → is_zero document.issued_at ≡ false
  unfolding validate
  validate-issued_at document h = ground arith

  pub issue-Accepts :
      (laws : Laws p) (catalog : Catalog) (version : ℕ) (key_policy : KeyPolicy) (root key : Text)
      (now arrival : Instant) (ttl : Duration) {envelope : Envelope}
      → UniqueKeyId p (public_of key)
      → JsonRoundTrip p (issued_document catalog version key_policy now ttl)
      → issue p catalog version key_policy root now ttl key ≡ ok envelope
      → truncate now second ≤ arrival + allowed_clock_skew
      → arrival < truncate now second + ttl
      → (candidate : TrustedState) × Accepts catalog version key_policy root now arrival ttl key
          envelope candidate
  issue-Accepts laws catalog version key_policy root key now arrival ttl {envelope} unique json
        issued early late =
      let i =
        issue-Issued p catalog version key_policy root now ttl key {envelope = envelope} issued in
      let document = issued_document catalog version key_policy now ttl in
      let checked =
        validate_key_policy-PolicyChecked p key_policy root {digest = i.digest} i.policy_valid in
      let r = json.read-marshal i.payload i.encoded in
      let g =
        granted_grant_key p key_policy (key_id_of p (public_of key)) version {g = i.grant}
          {raw = i.raw} i.granted in
      (
        candidate_state p document i.payload i.digest i.grant,
        unfold candidate_state issued_document canonical_key_policy in
            record {
              version_is = refl;
              issued_is = refl;
              policy_is = refl;
              policy_digest_is = i.policy_valid;
              key_is = g;
              epoch_is = (i.grant, i.raw, i.granted, refl);
              complete =
                  check_complete_of p laws (candidate_state p document i.payload i.digest i.grant)
                    i.payload checked.digested.0 refl checked.digested.1
                    (validate-issued_at document i.valid) checked.version_pos
                    (ap length g ∙ length-key_id_of p laws (public_of key))
                    (granted_epoch-pos p key_policy (key_id_of p (public_of key)) version
                      {g = i.grant} {raw = i.raw} checked.shape i.granted);
              verifies = λ trusted.
                  ap (λ (e : Envelope). verify p e root arrival trusted) i.sealed
                  ∙ verify-encoded p laws i.payload (key_id_of p (public_of key)) key root document
                      arrival trusted checked.root_sized
                      (length-key_id_of-pos p laws (public_of key)) r.0 i.fits r.1
                  ∙ ap
                      (λ (e : Envelope).
                        verify_document p e i.payload (p.sign key i.payload) document root arrival
                          trusted)
                      (sym i.sealed)
                  ∙ verify_document-issue p laws catalog version key_policy root key now arrival ttl
                      trusted {envelope = envelope} unique i early late;
            },
      )

-- A client that has accepted no manifest.
abbrev pub fresh_state : TrustedState
fresh_state = record {
  version = 0;
  issued_at = zero_instant;
  payload_sha256 = [];
  policy_version = 0;
  policy_sha256 = [];
  signing_key_id = [];
  signing_key_epoch = 0;
}

module _ (p : Platform) (laws : Laws p) where
  pub transition_fresh :
      (candidate : TrustedState) → validate_state_transition p fresh_state candidate ≡ ok tt
  unfolding validate_state_transition
  transition_fresh candidate = ground (arith, text_eq_refl [])

  -- A fresh client that receives an issued manifest within its lifetime accepts the issued
  -- document, and then trusts its version.
  pub verify-issue_fresh :
      (catalog : Catalog) (version : ℕ) (key_policy : KeyPolicy) (root key : Text)
      (now arrival : Instant) (ttl : Duration) {envelope : Envelope}
      → UniqueKeyId p (public_of key)
      → JsonRoundTrip p (issued_document catalog version key_policy now ttl)
      → issue p catalog version key_policy root now ttl key ≡ ok envelope
      → truncate now second ≤ arrival + allowed_clock_skew
      → arrival < truncate now second + ttl
      → (trusted : TrustedState) × (trusted.version ≡ version)
        × (verify p envelope root arrival fresh_state
            ≡ ok (issued_document catalog version key_policy now ttl, trusted))
  verify-issue_fresh catalog version key_policy root key now arrival ttl {envelope} unique json
        issued early late =
      let (c, a) =
        issue-Accepts p laws catalog version key_policy root key now arrival ttl
          {envelope = envelope} unique json issued early late in
      let i =
        issue-Issued p catalog version key_policy root now ttl key {envelope = envelope} issued in
      (c, a.version_is, a.verifies fresh_state ∙ ground (arith, transition_fresh c, i.version_pos))
