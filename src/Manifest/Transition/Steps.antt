-- ===== src/Manifest/Transition/Steps.antt =====
-- Transitions that `validateStateTransition` lets pass.
use virtual_cloud_help_servi.Prelude.{◌<◌, ◌≤◌, ◌≡◌, ◌≢◌, ◌⊎◌, true, false, [], arith, length, ok}
use virtual_cloud_help_servi.Prelude.Text.{Text, text_eq, text_eq_iff}
use virtual_cloud_help_servi.GoTime.{is_zero}
use virtual_cloud_help_servi.Platform.{Platform, Laws, encoded_len}
use virtual_cloud_help_servi.Manifest.Types.{TrustedState}
use virtual_cloud_help_servi.Manifest.Transition.{
  valid_sha256_digest, check_complete, validate_state_transition,
}

not_empty : (t : Text) → 0 < length t → text_eq t [] ≡ false
not_empty t h = ground (arith, text_eq_iff t [])

module _ (p : Platform) (laws : Laws p) where
  digest_sized : (x : Text) → length (p.encode64 (p.sha256 x)) ≡ encoded_len 32
  digest_sized x = omega (arith, laws.length-encode (p.sha256 x), laws.length-sha256 x)

  digest_valid : (x : Text) → valid_sha256_digest p (p.encode64 (p.sha256 x)) ≡ true
  unfolding valid_sha256_digest
  digest_valid x = ground (arith, laws.decode-encode (p.sha256 x), laws.length-sha256 x)

  -- A state whose digests were computed, with its other fields set, is complete.
  pub check_complete_of :
      (s : TrustedState) (x y : Text)
      → s.payload_sha256 ≡ p.encode64 (p.sha256 x)
      → s.policy_sha256 ≡ p.encode64 (p.sha256 y)
      → is_zero s.issued_at ≡ false
      → 0 < s.policy_version
      → length s.signing_key_id ≡ encoded_len 32
      → 0 < s.signing_key_epoch
      → check_complete p s ≡ ok tt
  unfolding check_complete
  check_complete_of s x y a b issued policy key epoch = ground (
    arith,
    digest_valid x,
    digest_valid y,
    not_empty (p.encode64 (p.sha256 x)) (omega (arith, digest_sized x)),
    not_empty (p.encode64 (p.sha256 y)) (omega (arith, digest_sized y)),
    not_empty s.signing_key_id (omega (arith, key)),
  )

module _ (p : Platform) where
  -- Under one policy, a later version that was not issued earlier may follow, from the same key in
  -- the same epoch or from another key in a larger epoch.
  pub transition_later :
      (trusted candidate : TrustedState)
      → 0 < trusted.version
      → check_complete p trusted ≡ ok tt
      → candidate.policy_version ≡ trusted.policy_version
      → candidate.policy_sha256 ≡ trusted.policy_sha256
      → trusted.version < candidate.version
      → trusted.issued_at ≤ candidate.issued_at
      → ((trusted.signing_key_id ≡ candidate.signing_key_id)
          × (trusted.signing_key_epoch ≡ candidate.signing_key_epoch))
        ⊎ ((trusted.signing_key_id ≢ candidate.signing_key_id)
            × (trusted.signing_key_epoch < candidate.signing_key_epoch))
      → validate_state_transition p trusted candidate ≡ ok tt
  unfolding validate_state_transition
  transition_later t c v complete pv ps later issued key = ground (
    arith,
    text_eq_iff c.policy_sha256 t.policy_sha256,
    text_eq_iff c.signing_key_id t.signing_key_id,
  )
