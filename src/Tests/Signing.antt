-- ===== src/Tests/Signing.antt =====
-- The theorems on key policies and signed manifests, at the sample policy.
use virtual_cloud_help_servi.Prelude.{
  ℕ, some, [], ◌∷◌, ◌+◌, ap, ◌≡◌, ◌≢◌, ◌⊎◌, ◌<◌, refl, arith, ok,
}
use virtual_cloud_help_servi.Prelude.Text.{Text}
use virtual_cloud_help_servi.GoTime.{Instant, second, hour, truncate}
use virtual_cloud_help_servi.Issuer.Invariant.{truncate_idem}
use virtual_cloud_help_servi.Platform.{public_of, JsonRoundTrip}
use virtual_cloud_help_servi.Manifest.Types.{Envelope, KeyGrant, KeyPolicy, TrustedState}
use virtual_cloud_help_servi.Manifest.Client.{client_run}
use virtual_cloud_help_servi.Manifest.Client.History.{
  Advances, client_run-Advances, no_equivocation,
}
use virtual_cloud_help_servi.Manifest.KeyPolicy.{
  key_policy_grant, validate_key_policy_shape, validate_key_policy, canonical_key_grants,
  sign_key_policy,
}
use virtual_cloud_help_servi.Manifest.KeyPolicy.Signed.{sign_key_policy-validate}
use virtual_cloud_help_servi.Manifest.KeyPolicy.Grants.{
  grant_exclusive, grant_total, grant_epoch_order,
}
use virtual_cloud_help_servi.Manifest.Envelope.{issued_document, verify}
use virtual_cloud_help_servi.Manifest.Envelope.RoundTrip.{fresh_state, verify-issue_fresh}
use virtual_cloud_help_servi.Manifest.Envelope.Sequence.{
  Publication, IsPublished, document_of, verify-issue_next,
}
use virtual_cloud_help_servi.Tests.Toy.{toy_encode, toy_sha256, toy-Laws, toy-UniqueKeyId}
use virtual_cloud_help_servi.Tests.Manifests.{
  manifest_run, sample, sample_document, sample_policy, sample_catalog, sample_envelope, root_key,
  root_public, start, key_a, key_b, issue_time, grant_of, issued_5, issued_6,
}

truncated_twice :
    (version : ℕ) (now : Instant)
    → sample_document version (truncate now second) ≡ sample_document version now
unfolding issued_document
truncated_twice version now =
    ap
      (λ (t : Instant). record (sample_document version now) {
        issued_at = t;
        expires_at = t + hour;
      })
      (truncate_idem now)

pub sample-JsonRoundTrip :
    (version : ℕ) (now : Instant) → JsonRoundTrip sample (sample_document version now)
unfolding manifest_run
sample-JsonRoundTrip version now = record {
  read-marshal = λ payload e. ground (arith, truncated_twice version now);
}

abbrev fifth : Publication
fifth = record {
  catalog = sample_catalog;
  version = 5;
  key = key_a;
  now = issue_time 5;
  ttl = hour;
  envelope = sample_envelope 5 key_a;
  arrival = issue_time 5;
}

abbrev sixth : Publication
sixth = record {
  catalog = sample_catalog;
  version = 6;
  key = key_b;
  now = issue_time 6;
  ttl = hour;
  envelope = sample_envelope 6 key_b;
  arrival = issue_time 6;
}

fifth-IsPublished : IsPublished sample sample_policy root_public fifth
fifth-IsPublished = record {
  unique = toy-UniqueKeyId sample_document (public_of key_a) refl;
  json = sample-JsonRoundTrip 5 (issue_time 5);
  issued = issued_5;
  early = omega arith;
  late = omega arith;
}

sixth-IsPublished : IsPublished sample sample_policy root_public sixth
sixth-IsPublished = record {
  unique = toy-UniqueKeyId sample_document (public_of key_b) refl;
  json = sample-JsonRoundTrip 6 (issue_time 6);
  issued = issued_6;
  early = omega arith;
  late = omega arith;
}

-- The key rotates from A to B between the two versions.
verify-issue_next_example :
    (s t : TrustedState) × (verify sample fifth.envelope root_public fifth.arrival fresh_state
      ≡ ok (document_of sample_policy fifth, s))
    × (verify sample sixth.envelope root_public sixth.arrival s
        ≡ ok (document_of sample_policy sixth, t))
    × (s.version ≡ fifth.version)
    × (t.version ≡ sixth.version)
verify-issue_next_example =
    verify-issue_next sample (toy-Laws sample_document) sample_policy root_public fifth sixth
      (omega arith) fifth-IsPublished sixth-IsPublished (omega arith) (omega arith)

verify-issue_fresh_example :
    (trusted : TrustedState) × (trusted.version ≡ 5)
    × (verify sample (sample_envelope 5 key_a) root_public (issue_time 5) fresh_state
        ≡ ok (sample_document 5 (issue_time 5), trusted))
verify-issue_fresh_example =
    verify-issue_fresh sample (toy-Laws sample_document) sample_catalog 5 sample_policy root_public
      key_a (issue_time 5) (issue_time 5) hour
      (toy-UniqueKeyId sample_document (public_of key_a) refl)
      (sample-JsonRoundTrip 5 (issue_time 5)) issued_5 (omega arith) (omega arith)

abbrev id_a : Text
id_a = (grant_of key_a 1 1 5).key_id

abbrev id_b : Text
id_b = (grant_of key_b 2 6 0).key_id

shape_valid : validate_key_policy_shape sample sample_policy ≡ ok tt
unfolding manifest_run
shape_valid = refl

granted_a :
    key_policy_grant sample sample_policy id_a 3 ≡ ok (grant_of key_a 1 1 5, public_of key_a)
unfolding manifest_run
granted_a = refl

granted_b :
    key_policy_grant sample sample_policy id_b 9 ≡ ok (grant_of key_b 2 6 0, public_of key_b)
unfolding manifest_run
granted_b = refl

grant_exclusive_example : id_a ≡ id_a
grant_exclusive_example =
    grant_exclusive sample sample_policy id_a id_a 3 shape_valid (omega arith) granted_a granted_a

grant_total_example :
    (g : KeyGrant) × (raw : Text) × (key_policy_grant sample sample_policy g.key_id 7 ≡ ok (g, raw))
grant_total_example = grant_total sample sample_policy 7 shape_valid (omega arith) (omega arith)

grant_epoch_order_example : ((id_a ≡ id_b) × (◌≡◌ {A = ℕ} 1 2)) ⊎ ((id_a ≢ id_b) × (1 < 2))
grant_epoch_order_example =
    grant_epoch_order sample sample_policy id_a id_b 3 9 shape_valid (omega arith) (omega arith)
      (omega arith) granted_a granted_b

abbrev altered : Envelope
altered = record sixth.envelope { key_id = fifth.envelope.key_id }

-- What a client trusts that accepted version 5.
abbrev trusted_5 : TrustedState
trusted_5 = record {
  version = 5;
  issued_at = issue_time 5;
  payload_sha256 = toy_encode (toy_sha256 (5 ∷ issue_time 5 ∷ []));
  policy_version = 1;
  policy_sha256 = toy_encode (toy_sha256 (1 ∷ []));
  signing_key_id = id_a;
  signing_key_epoch = 1;
}

accepted_5 :
    (verify sample fifth.envelope root_public fifth.arrival fresh_state)
    ≡ ok (document_of sample_policy fifth, trusted_5)
unfolding manifest_run
accepted_5 = refl

accepted_again :
    verify sample fifth.envelope root_public sixth.arrival
      (client_run sample root_public trusted_5 ((altered, start) ∷ []))
    ≡ ok (document_of sample_policy fifth, trusted_5)
unfolding manifest_run client_run
accepted_again = refl

client_run-Advances_example : Advances fresh_state (
    client_run sample root_public fresh_state
      ((fifth.envelope, fifth.arrival) ∷ (sixth.envelope, sixth.arrival) ∷ []))
client_run-Advances_example =
    client_run-Advances sample root_public fresh_state
      ((fifth.envelope, fifth.arrival) ∷ (sixth.envelope, sixth.arrival) ∷ [])

-- Between the two acceptances a manifest with another key id arrives and is refused.
no_equivocation_example :
    (x y : Text) × (sample.decode64 fifth.envelope.payload ≡ some x)
    × (sample.decode64 fifth.envelope.payload ≡ some y)
    × (sample.encode64 (sample.sha256 x) ≡ sample.encode64 (sample.sha256 y))
no_equivocation_example =
    no_equivocation sample root_public fresh_state trusted_5 trusted_5 fifth.envelope fifth.envelope
      fifth.arrival sixth.arrival ((altered, start) ∷ []) (document_of sample_policy fifth)
      (document_of sample_policy fifth) accepted_5 accepted_again refl

-- Signing puts the later key first.
abbrev signed_policy : KeyPolicy
signed_policy = record sample_policy { keys = canonical_key_grants sample_policy.keys }

signed_again : sign_key_policy sample root_key 1 sample_policy.keys ≡ ok signed_policy
unfolding manifest_run sign_key_policy
signed_again = refl

sign_key_policy-validate_example :
    (digest : Text) × (validate_key_policy sample signed_policy root_public ≡ ok digest)
    × (signed_policy.version ≡ 1)
    × (signed_policy.keys ≡ canonical_key_grants sample_policy.keys)
sign_key_policy-validate_example =
    sign_key_policy-validate sample (toy-Laws sample_document) root_key 1 sample_policy.keys
      (λ q. (q.version ∷ [], refl)) signed_again
