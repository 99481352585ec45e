-- ===== src/Manifest/Transition.antt =====
-- `validateStateTransition` of internal/manifest/manifest.go: when a client's durable state may
-- advance to that of a candidate manifest.
pub mod Steps
use virtual_cloud_help_servi.Prelude.{
  Bool, false, not, ◌&&◌, ◌||◌, none, some, [], ltb, leb, ◌==◌, length, if◌then◌else◌, reject, ◌>>◌,
}
use virtual_cloud_help_servi.Prelude.Text.{Text, text_eq}
use virtual_cloud_help_servi.GoTime.{is_zero, before}
use virtual_cloud_help_servi.Platform.{Platform, encoded_len}
use virtual_cloud_help_servi.Manifest.Types.{TrustedState}
use virtual_cloud_help_servi.Manifest.Fault.{
  Outcome, state_inconsistent, state_incomplete, state_invalid_digests, policy_rollback,
  policy_equivocation, version_rollback, payload_equivocation, issuance_backwards, epoch_backwards,
  epoch_changed, key_without_epoch,
}

module _ (p : Platform) where
  unfoldable pub valid_sha256_digest : Text → Bool
  valid_sha256_digest encoded = elim (p.decode64 encoded) [
    | none ↦ false
    | some raw ↦ length raw == 32
  ]

  -- The tests on a state that has accepted no manifest yet.
  unfoldable pub check_initial : TrustedState → Outcome (Unit {0})
  check_initial trusted =
      reject
        (not (text_eq trusted.payload_sha256 [])
          || not (is_zero trusted.issued_at)
          || not (trusted.policy_version == 0)
          || not (text_eq trusted.policy_sha256 [])
          || not (text_eq trusted.signing_key_id [])
          || not (trusted.signing_key_epoch == 0))
        state_inconsistent

  -- The tests on a state that holds an accepted manifest.
  unfoldable pub check_complete : TrustedState → Outcome (Unit {0})
  check_complete trusted = do
    reject
        (text_eq trusted.payload_sha256 []
          || is_zero trusted.issued_at
          || trusted.policy_version == 0
          || text_eq trusted.policy_sha256 []
          || text_eq trusted.signing_key_id []
          || trusted.signing_key_epoch == 0)
        state_incomplete
    reject
        (not (valid_sha256_digest trusted.payload_sha256)
          || not (valid_sha256_digest trusted.policy_sha256)
          || not (length trusted.signing_key_id == encoded_len 32))
        state_invalid_digests

  -- The tests on a candidate of a later version.
  unfoldable pub check_newer : TrustedState → TrustedState → Outcome (Unit {0})
  check_newer trusted candidate = do
    reject (before candidate.issued_at trusted.issued_at) issuance_backwards
    reject (ltb candidate.signing_key_epoch trusted.signing_key_epoch) epoch_backwards
    reject
        (text_eq candidate.signing_key_id trusted.signing_key_id
          && not (candidate.signing_key_epoch == trusted.signing_key_epoch))
        epoch_changed
    reject
        (not (text_eq candidate.signing_key_id trusted.signing_key_id)
          && leb candidate.signing_key_epoch trusted.signing_key_epoch)
        key_without_epoch

  -- The tests on a candidate that is not of an older version.
  unfoldable pub check_version : TrustedState → TrustedState → Outcome (Unit {0})
  unfolding check_newer
  check_version trusted candidate =
      if candidate.version == trusted.version
      then reject
          (not (text_eq candidate.payload_sha256 trusted.payload_sha256)
            || not (candidate.issued_at == trusted.issued_at))
          payload_equivocation
      else check_newer trusted candidate

  unfoldable pub validate_state_transition : TrustedState → TrustedState → Outcome (Unit {0})
  unfolding check_initial check_complete check_version
  validate_state_transition trusted candidate =
      if trusted.version == 0 then check_initial trusted else do
        check_complete trusted
        reject (ltb candidate.policy_version trusted.policy_version) policy_rollback
        reject
            (candidate.policy_version == trusted.policy_version
              && not (text_eq candidate.policy_sha256 trusted.policy_sha256))
            policy_equivocation
        reject (ltb candidate.version trusted.version) version_rollback
        check_version trusted candidate
