-- ===== src/Tests/Accesses.antt =====
-- A pilot access that is registered and revoked, with a commit whose answer is lost.
use virtual_cloud_help_servi.Prelude.{
  ◌+◌, ◌*◌, ◌<◌, ◌≡◌, refl, true, false, List, [], ◌∷◌, Option, none, some, ok, err, arith,
  replicate, All,
}
use virtual_cloud_help_servi.Prelude.Text.{Text, bytes, text_eq, contains}
use virtual_cloud_help_servi.GoTime.{second, hour, truncate}
use virtual_cloud_help_servi.Patterns.{matches}
use virtual_cloud_help_servi.PilotAccess.{
  failure, Access, RegisterInput, validate_access, uuid_pattern, matches_each, validate_access,
}
use virtual_cloud_help_servi.PilotAccess.Uuid.{new_uuid, new_uuid-uuid_pattern}
use virtual_cloud_help_servi.PilotAccess.Service.{
  check_returned, register, revoke_access, new_access,
}
use virtual_cloud_help_servi.VpnNode.{validate_transport}
use virtual_cloud_help_servi.VpnNode.Provider.{validate_id}
use virtual_cloud_help_servi.PilotAccess.Store.{
  insert_access, insert_audit, create, revoke, revoke_steps, in_transaction, with_status,
  end_access, has_audit, replace_access, reference_taken, Database, DatabaseCalls, Commit,
  committed, lost, find_access, row_ok, create_steps,
}
use virtual_cloud_help_servi.PilotAccess.Store.Moves.{
  Request, registering, revoking, serve, with_access, with_revoked,
}
use virtual_cloud_help_servi.PilotAccess.Store.Registry.{
  Change, IsValid, registry_of, ended_at, serve-Change,
}
use virtual_cloud_help_servi.PilotAccess.Store.Audit.{
  serve_all, IsAudited, serve_all-IsAudited, IsLater, serve_all-IsLater, count_events,
}
use virtual_cloud_help_servi.PilotAccess.Store.Answers.{
  validate_access-row_ok, revoke-again, register-new,
}

abbrev pub decoders : List (Text → Option Text)
decoders = (λ value. none) ∷ []

abbrev device : Text
device = bytes "0b9f2a34-90e3-4d2f-8a53-6c1d9e5f7a10"

abbrev pub access_id : Text
access_id = bytes "7c1e0d52-11aa-4b3c-9d4e-5f60718293a4"

abbrev pub empty : Database
empty = record { devices = device ∷ []; nodes = bytes "node-1" ∷ []; accesses = []; audits = [] }

abbrev pub input : RegisterInput
input = record {
  device_id = device;
  node_id = bytes "node-1";
  transport = bytes "amneziawg";
  external_reference = bytes "peer:17";
  expires_at = some (100 * hour);
}

abbrev pub calls : Text → Commit → DatabaseCalls
calls audit_id commit = record {
  audit_id = some audit_id;
  begins = true;
  query_works = true;
  audit_works = true;
  commit = commit;
}

abbrev pub committed_calls : DatabaseCalls
committed_calls = calls (bytes "1") committed

abbrev registration : Request
registration = registering (second + 5) (some access_id) input (calls (bytes "1") lost)

abbrev revocation : Request
revocation = revoking (9 * second) access_id (calls (bytes "2") committed)

abbrev access : Access
access = new_access (truncate (second + 5) second) access_id input

-- Names all that a call of the service computes with.
unfoldable access_run : Unit {0}
unfolding text_eq contains validate_access matches_each validate_id matches validate_transport
    new_access serve serve_all find_access row_ok count_events revoke create_steps revoke_steps
    in_transaction with_status end_access has_audit replace_access check_returned register
    revoke_access create reference_taken insert_access insert_audit
access_run = tt

access_valid : validate_access decoders access ≡ ok tt
unfolding access_run
access_valid = refl

-- The registration takes effect though its answer is lost.
abbrev registered : Database
registered = with_access empty (bytes "1") access

abbrev ended : Database
ended = with_revoked registered (bytes "2") (truncate (9 * second) second) access

registered_lost : serve decoders empty registration ≡ (registered, err failure)
unfolding access_run
registered_lost = refl

revoked_once : serve decoders registered revocation ≡ (ended, ok (ended_at (9 * second) access))
unfolding access_run
revoked_once = refl

registered-IsValid : IsValid registered
unfolding access_run
registered-IsValid = (refl, tt)

serve-Change_example :
    (let out = serve decoders registered revocation in
      Change (registry_of registered) (registry_of out.0)
      × IsValid out.0
      × ((b : Access) → out.1 ≡ ok b → registry_of out.0 b.id ≡ some b))
serve-Change_example = serve-Change decoders registered revocation registered-IsValid

pub empty-IsAudited : IsAudited empty
unfolding access_run
empty-IsAudited = λ id. (refl, refl)

serve_all-IsAudited_example :
    IsAudited (serve_all decoders empty (registration ∷ revocation ∷ revocation ∷ []))
serve_all-IsAudited_example =
    serve_all-IsAudited decoders empty (registration ∷ revocation ∷ revocation ∷ []) empty-IsAudited

registered_found : registry_of registered access_id ≡ some access
unfolding access_run
registered_found = refl

serve_all-IsLater_example :
    (b : Access) × (registry_of
        (serve_all decoders registered (revocation ∷ registration ∷ []))
        access_id
      ≡ some b)
    × IsLater access b
serve_all-IsLater_example =
    serve_all-IsLater decoders registered (revocation ∷ registration ∷ []) access_id
      registered-IsValid registered_found

validate_access-row_ok_example : row_ok access ≡ true
validate_access-row_ok_example = validate_access-row_ok decoders access access_valid

ended_valid : validate_access decoders (ended_at (9 * second) access) ≡ ok tt
unfolding access_run
ended_valid = refl

ended_found : find_access access_id ended.accesses ≡ some (ended_at (9 * second) access)
unfolding access_run
ended_found = refl

abbrev fresh_3 : has_audit (bytes "3") ended.audits ≡ false
unfolding access_run
fresh_3 = refl

good_id : uuid_pattern access_id ≡ true
unfolding access_run
good_id = refl

revoke-again_example :
    serve decoders ended (revoking (20 * second) access_id (calls (bytes "3") committed))
    ≡ (ended, ok (ended_at (9 * second) access))
revoke-again_example =
    revoke-again decoders ended (calls (bytes "3") committed) (bytes "3") access_id (20 * second)
      (refl, refl, refl, refl, refl, fresh_3) good_id ended_found refl ended_valid

known_device : contains empty.devices access.device_id ≡ true
unfolding access_run
known_device = refl

known_node : contains empty.nodes access.node_id ≡ true
unfolding access_run
known_node = refl

none_registered :
    (find_access access_id empty.accesses ≡ none)
    × (reference_taken access empty.accesses ≡ false)
    × (has_audit (bytes "1") empty.audits ≡ false)
unfolding access_run
none_registered = (refl, refl, refl)

register-new_example :
    serve decoders empty
      (registering (second + 5) (some access_id) input (calls (bytes "1") committed))
    ≡ (registered, ok access)
register-new_example =
    register-new decoders empty (calls (bytes "1") committed) (bytes "1") access_id (second + 5)
      input (refl, refl, refl, refl, refl, none_registered.2) access_valid none_registered.0
      none_registered.1 known_device known_node

new_uuid-uuid_pattern_example :
    (id : Text) × (new_uuid (some (replicate 16 255)) ≡ some id) × (uuid_pattern id ≡ true)
new_uuid-uuid_pattern_example = new_uuid-uuid_pattern (replicate 16 255) refl all_bytes
  where
    all_bytes : All (λ b. b < 256) (replicate 16 255)
    all_bytes = omega arith
