-- ===== src/Issuance/State.antt =====
-- `State` of internal/issuance/state.go, and the errors of its file store.
use virtual_cloud_help_servi.Prelude.{ℕ, []}
use virtual_cloud_help_servi.Prelude.Text.{Text}
use virtual_cloud_help_servi.GoTime.{Instant, zero_instant}

pub record IssuerState : Type 0 where
  pub key_id : Text
  pub key_epoch : ℕ  -- uint64
  pub policy_version : ℕ  -- uint64
  pub policy_sha256 : Text
  pub last_version : ℕ  -- uint64
  pub catalog_revision : ℕ  -- uint64
  pub catalog_sha256 : Text
  pub last_issued_at : Instant

-- `State{}`
abbrev pub no_state : IssuerState
no_state = record {
  key_id = [];
  key_epoch = 0;
  policy_version = 0;
  policy_sha256 = [];
  last_version = 0;
  catalog_revision = 0;
  catalog_sha256 = [];
  last_issued_at = zero_instant;
}

pub data StoreFault : Type 0 where
  path_required state_incomplete catalog_digest_invalid policy_incomplete : StoreFault
  policy_digest_invalid directory_stat directory_kind directory_writable : StoreFault
  open_failed stat_failed not_regular permissions read_failed size_invalid : StoreFault
  decode_failed create_directory create_temporary restrict_temporary encode_failed : StoreFault
  sync_failed close_failed replace_failed open_directory sync_directory : StoreFault
