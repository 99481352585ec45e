-- ===== src/PilotAccess/Service.antt =====
-- The service of internal/pilotaccess/access.go over any store.
use virtual_cloud_help_servi.Prelude.{not, List, Option, none, some, Result, ok, err, if◌then◌else◌}
use virtual_cloud_help_servi.Prelude.Text.{Text}
use virtual_cloud_help_servi.GoTime.{Instant, second, truncate}
use virtual_cloud_help_servi.PilotAccess.{
  Access, RegisterInput, AccessFault, invalid, returned_invalid, bad_access_id, no_id,
  validate_access, status_active, uuid_pattern,
}

-- The interface `Store`, over the state `S` of the store behind it.
pub record AccessStore (S : Type 0) : Type 0 where
  pub create : S → Access → S × Result AccessFault Access
  pub revoke : S → Text → Instant → S × Result AccessFault Access

unfoldable pub clone_time : Option Instant → Option Instant
clone_time none = none
clone_time (some t) = some (truncate t second)

unfoldable pub new_access : Instant → Text → RegisterInput → Access
unfolding clone_time
new_access now identifier input = record {
  id = identifier;
  device_id = input.device_id;
  node_id = input.node_id;
  transport = input.transport;
  external_reference = input.external_reference;
  created_at = now;
  expires_at = clone_time input.expires_at;
  revoked_at = none;
  status = status_active;
}

module _ (decoders : List (Text → Option Text)) {S : Type 0} where
  -- The checks on what the store returned.
  unfoldable pub check_returned : S × Result AccessFault Access → S × Result AccessFault Access
  check_returned (s, err fault) = (s, err fault)
  check_returned (s, ok access) = elim (validate_access decoders access) [
    | err reason ↦ (s, err (returned_invalid reason))
    | ok done ↦ (s, ok access)
  ]

module _ (decoders : List (Text → Option Text)) {S : Type 0} (store : AccessStore S) where
  -- `now` is what the clock reads and `new_id` what `newID` returns, or none for an error.
  unfoldable pub register :
      S → Instant → Option Text → RegisterInput → S × Result AccessFault Access
  unfolding check_returned new_access
  register s now none input = (s, err no_id)
  register s now (some identifier) input =
      let access = new_access (truncate now second) identifier input in
      elim (validate_access decoders access) [
        | err reason ↦ (s, err (invalid reason))
        | ok done ↦ check_returned decoders (store.create s access)
      ]

  unfoldable pub revoke_access : S → Instant → Text → S × Result AccessFault Access
  unfolding check_returned
  revoke_access s now id =
      let revoked = check_returned decoders (store.revoke s id (truncate now second)) in
      if not (uuid_pattern id) then (s, err (invalid bad_access_id)) else revoked
