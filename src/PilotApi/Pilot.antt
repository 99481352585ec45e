-- ===== src/PilotApi/Pilot.antt =====
-- The administration over the service of accesses and its tables, without telemetry.
use virtual_cloud_help_servi.Prelude.{List, Option, none, Result, ok, err}
use virtual_cloud_help_servi.Prelude.Text.{Text}
use virtual_cloud_help_servi.GoTime.{Instant}
use virtual_cloud_help_servi.Http.{HttpRequest}
use virtual_cloud_help_servi.PilotAccess.{
  Access, AccessFault, invalid, returned_invalid, not_found, conflict, no_id, failure,
}
use virtual_cloud_help_servi.PilotAccess.Store.{Database, DatabaseCalls}
use virtual_cloud_help_servi.PilotAccess.Store.Moves.{registering, revoking, serve}
use virtual_cloud_help_servi.PilotApi.{
  ServiceFault, is_invalid, is_not_found, is_conflict, other_error, Services,
}

-- What the errors of the service wrap.
unfoldable pub fault_of : AccessFault → ServiceFault
fault_of (invalid reason) = is_invalid
fault_of (returned_invalid reason) = is_invalid
fault_of not_found = is_not_found
fault_of conflict = is_conflict
fault_of no_id = other_error
fault_of failure = other_error

abbrev pub with_fault : Database × Result AccessFault Access → Database × Result ServiceFault Access
with_fault (db, ok access) = (db, ok access)
with_fault (db, err fault) = (db, err (fault_of fault))

-- A request, the clock, what `newID` gives, and the connection's behaviour.
pub record AdminCall : Type 0 where
  pub request : HttpRequest
  pub now : Instant
  pub new_id : Option Text
  pub calls : DatabaseCalls

-- The service of accesses as one request meets it.
abbrev pub access_services :
    {M : Type 0} → List (Text → Option Text) → AdminCall → Services Database M
access_services decoders call = record {
  register = λ db input.
      with_fault (serve decoders db (registering call.now call.new_id input call.calls));
  revoke = λ db id. with_fault (serve decoders db (revoking call.now id call.calls));
  record_result = none;
  report = none;
}
