-- ===== src/Manifest/Client/Verified.antt =====
-- What a successful `Verify` has established.
use virtual_cloud_help_servi.Prelude.{
  ◌+◌, ◌<◌, ◌≤◌, ◌≡◌, true, some, ok, arith, ◌==◌, if◌then◌else◌,
}
use virtual_cloud_help_servi.Prelude.Text.{Text}
use virtual_cloud_help_servi.GoTime.{Instant}
use virtual_cloud_help_servi.Platform.{Platform}
use virtual_cloud_help_servi.Manifest.Types.{Document, Envelope, KeyGrant, TrustedState}
use virtual_cloud_help_servi.Manifest.KeyPolicy.{
  decode_strict, validate_key_policy, key_policy_grant,
}
use virtual_cloud_help_servi.Manifest.Validate.{validate, allowed_clock_skew}
use virtual_cloud_help_servi.Manifest.Transition.{validate_state_transition}
use virtual_cloud_help_servi.Manifest.Envelope.{candidate_state, verify_document, verify}

module _ (p : Platform) where
  pub record Verified (envelope : Envelope) (root : Text) (now : Instant) (trusted : TrustedState)
      (document : Document) (next : TrustedState) : Type 0 where
    pub payload : Text
    pub digest : Text
    pub signature : Text
    pub grant : KeyGrant
    pub signing_key : Text
    pub decoded : p.decode64 envelope.payload ≡ some payload
    pub read : decode_strict p.read_document p.next_value payload ≡ some document
    pub signature_decoded : p.decode64 envelope.signature ≡ some signature
    pub valid : validate p document ≡ ok tt
    pub policy_valid : validate_key_policy p document.key_policy root ≡ ok digest
    pub granted :
        key_policy_grant p document.key_policy envelope.key_id document.version
        ≡ ok (grant, signing_key)
    pub signed : p.verify_signature signing_key payload signature ≡ true
    pub begun : document.issued_at ≤ now + allowed_clock_skew
    pub alive : now < document.expires_at
    pub passed :
        validate_state_transition p trusted (candidate_state p document payload digest grant)
        ≡ ok tt
    pub next_is : next ≡ (
        if trusted.version == document.version
        then trusted
        else candidate_state p document payload digest grant)

  verify_document-Verified :
      (envelope : Envelope) (payload signature : Text) (document' : Document) (root : Text)
      (now : Instant) (trusted : TrustedState) {document : Document} {next : TrustedState}
      → p.decode64 envelope.payload ≡ some payload
      → p.decode64 envelope.signature ≡ some signature
      → decode_strict p.read_document p.next_value payload ≡ some document'
      → verify_document p envelope payload signature document' root now trusted
        ≡ ok (document, next)
      → Verified envelope root now trusted document next
  unfolding verify_document
  verify_document-Verified envelope payload signature document' root now trusted {document} {next} d
        s r h =
      let same : document' ≡ document = ground arith in
      let policy : (digest : Text) × (validate_key_policy p document'.key_policy root ≡ ok digest) =
        ground arith in
      let found : (found : KeyGrant × Text) × (key_policy_grant p document'.key_policy
              envelope.key_id document'.version
            ≡ ok found) =
        ground arith in
      rw (← same) (record {
        payload = payload;
        digest = policy.0;
        signature = signature;
        grant = found.0.0;
        signing_key = found.0.1;
        decoded = d;
        read = r;
        signature_decoded = s;
        valid = ground arith;
        policy_valid = policy.1;
        granted = found.1;
        signed = ground (arith, policy.1, found.1);
        begun = ground (arith, policy.1, found.1);
        alive = ground (arith, policy.1, found.1);
        passed = ground (arith, policy.1, found.1);
        next_is = unfold candidate_state in ground (arith, policy.1, found.1);
      })

  verify-decoded :
      (envelope : Envelope) (payload signature : Text) (document' : Document) (root : Text)
      (now : Instant) (trusted : TrustedState) {r : Document × TrustedState}
      → p.decode64 envelope.payload ≡ some payload
      → p.decode64 envelope.signature ≡ some signature
      → decode_strict p.read_document p.next_value payload ≡ some document'
      → verify p envelope root now trusted ≡ ok r
      → verify_document p envelope payload signature document' root now trusted ≡ ok r
  unfolding verify
  verify-decoded envelope payload signature document' root now trusted d s r h = ground arith

  pub verify-Verified :
      (envelope : Envelope) (root : Text) (now : Instant) (trusted : TrustedState)
      {document : Document} {next : TrustedState}
      → verify p envelope root now trusted ≡ ok (document, next)
      → Verified envelope root now trusted document next
  unfolding verify
  verify-Verified envelope root now trusted {document} {next} h =
      let decoded : (payload : Text) × (p.decode64 envelope.payload ≡ some payload) =
        ground arith in
      let sealed : (signature : Text) × (p.decode64 envelope.signature ≡ some signature) =
        ground arith in
      let read : (found : Document) × (decode_strict p.read_document p.next_value decoded.0
            ≡ some found) =
        ground (arith, decoded.1) in
      verify_document-Verified envelope decoded.0 sealed.0 read.0 root now trusted decoded.1
        sealed.1 read.1
        (verify-decoded envelope decoded.0 sealed.0 read.0 root now trusted decoded.1 sealed.1
          read.1 h)
