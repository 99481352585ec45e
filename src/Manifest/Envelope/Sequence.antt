-- ===== src/Manifest/Envelope/Sequence.antt =====
-- Two manifests of one policy, one after the other: the client that accepted the first accepts the
-- second, also where the signing key was rotated in between.
use virtual_cloud_help_servi.Prelude.{ℕ, ◌+◌, ◌<◌, ◌≤◌, ◌≡◌, ◌∙◌, sym, ok, arith, All, ◌⊎◌, ◌≢◌}
use virtual_cloud_help_servi.Prelude.Text.{Text}
use virtual_cloud_help_servi.GoTime.{Instant, Duration, second, truncate}
use virtual_cloud_help_servi.Platform.{Platform, Laws, JsonRoundTrip, public_of}
use virtual_cloud_help_servi.Manifest.Types.{Catalog, Document, Envelope, KeyPolicy, TrustedState}
use virtual_cloud_help_servi.Manifest.KeyPolicy.{key_id_of}
use virtual_cloud_help_servi.Manifest.KeyPolicy.Ranges.{IsWord}
use virtual_cloud_help_servi.Manifest.KeyPolicy.Grants.{grant_epoch_order}
use virtual_cloud_help_servi.Manifest.KeyPolicy.Granted.{validate_key_policy-PolicyChecked}
use virtual_cloud_help_servi.Manifest.Validate.{allowed_clock_skew}
use virtual_cloud_help_servi.Manifest.Transition.{validate_state_transition}
use virtual_cloud_help_servi.Manifest.Transition.Steps.{transition_later}
use virtual_cloud_help_servi.Manifest.Envelope.{issued_document, issue, verify}
use virtual_cloud_help_servi.Manifest.Envelope.Encoded.{UniqueKeyId}
use virtual_cloud_help_servi.Manifest.Envelope.Issued.{issue-Issued}
use virtual_cloud_help_servi.Manifest.Envelope.RoundTrip.{
  Accepts, issue-Accepts, fresh_state, transition_fresh,
}

-- One manifest on its way: what it was issued from and when it reached the client.
pub record Publication : Type 0 where
  pub catalog : Catalog
  pub version : ℕ
  pub key : Text
  pub now : Instant
  pub ttl : Duration
  pub envelope : Envelope
  pub arrival : Instant

abbrev pub document_of : KeyPolicy → Publication → Document
document_of key_policy x = issued_document x.catalog x.version key_policy x.now x.ttl

-- `Issue` made the envelope, and it arrives within its lifetime.
pub record IsPublished (p : Platform) (key_policy : KeyPolicy) (root : Text) (x : Publication)
    : Type 0 where
  pub unique : UniqueKeyId p (public_of x.key)
  pub json : JsonRoundTrip p (document_of key_policy x)
  pub issued : issue p x.catalog x.version key_policy root x.now x.ttl x.key ≡ ok x.envelope
  pub early : truncate x.now second ≤ x.arrival + allowed_clock_skew
  pub late : x.arrival < truncate x.now second + x.ttl

module _ (p : Platform) (laws : Laws p) (key_policy : KeyPolicy) (root : Text) where
  accepted :
      (x : Publication)
      → IsPublished p key_policy root x
      → (c : TrustedState) × Accepts p x.catalog x.version key_policy root x.now x.arrival x.ttl
          x.key x.envelope c
  accepted x i =
      issue-Accepts p laws x.catalog x.version key_policy root x.key x.now x.arrival x.ttl
        {envelope = x.envelope} i.unique i.json i.issued i.early i.late

  -- Where each of two manifests arrives no earlier than the clock skew before it was issued and
  -- before it expires: a fresh client that accepts the one accepts the other of the same policy,
  -- where its version is later and it was not issued before, and then trusts that version.
  pub verify-issue_next :
      (x y : Publication)
      → All IsWord key_policy.keys
      → IsPublished p key_policy root x
      → IsPublished p key_policy root y
      → x.version < y.version
      → truncate x.now second ≤ truncate y.now second
      → (s t : TrustedState) × (verify p x.envelope root x.arrival fresh_state
          ≡ ok (document_of key_policy x, s))
        × (verify p y.envelope root y.arrival s ≡ ok (document_of key_policy y, t))
        × (s.version ≡ x.version)
        × (t.version ≡ y.version)
  verify-issue_next x y word i j later order =
      let (s, a) = accepted x i in
      let (t, b) = accepted y j in
      let first =
        issue-Issued p x.catalog x.version key_policy root x.now x.ttl x.key {envelope = x.envelope}
          i.issued in
      let shape =
        (validate_key_policy-PolicyChecked p key_policy root {digest = first.digest}
          first.policy_valid).shape in
      let epochs =
        grant_epoch_order p key_policy (key_id_of p (public_of x.key))
          (key_id_of p (public_of y.key)) x.version y.version {g = a.epoch_is.0} {h = b.epoch_is.0}
          {raw = a.epoch_is.1} {raw' = b.epoch_is.1} shape word (omega (arith, first.version_pos))
          (omega arith) a.epoch_is.2 b.epoch_is.2 in
      let keys : ((s.signing_key_id ≡ t.signing_key_id)
            × (s.signing_key_epoch ≡ t.signing_key_epoch))
          ⊎ ((s.signing_key_id ≢ t.signing_key_id) × (s.signing_key_epoch < t.signing_key_epoch)) =
        ground (arith, epochs, a.key_is, b.key_is, a.epoch_is.3, b.epoch_is.3) in
      let passes : validate_state_transition p s t ≡ ok tt =
        transition_later p s t (omega (arith, a.version_is, first.version_pos)) a.complete
          (b.policy_is ∙ sym a.policy_is) (cc (a.policy_digest_is, b.policy_digest_is))
          (omega (arith, a.version_is, b.version_is))
          (omega (arith, a.issued_is, b.issued_is, order)) keys in
      (
        s,
        t,
        a.verifies fresh_state
            ∙ ground (arith, transition_fresh p laws s, a.version_is, first.version_pos),
        b.verifies s ∙ ground (arith, passes, a.version_is),
        a.version_is,
        b.version_is,
      )
