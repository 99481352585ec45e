-- ===== src/PilotAccess/Store.antt =====
-- internal/pilotaccess/postgres/store.go over the tables of migrations/000001_initial.sql and
-- 000002_pilot_vpn_access.sql. A transaction works on a copy of the tables, which its commit puts
-- in their place; concurrent transactions are taken one after the other. What the connection does
-- is an input.
pub mod Moves
pub mod Registry
pub mod Audit
pub mod Answers
use virtual_cloud_help_servi.Prelude.{
  ℕ, ◌+◌, ◌≡◌, Bool, true, false, not, ◌&&◌, ◌||◌, List, [], ◌∷◌, Option, none, some, leb, ltb,
  length, is_none, if◌then◌else◌, Result, ok, err, reject, wrap, ◌>>=◌, ◌>>◌,
}
use virtual_cloud_help_servi.Prelude.Text.{Text, bytes, text_eq, contains}
use virtual_cloud_help_servi.GoTime.{Instant, Duration}
use virtual_cloud_help_servi.PilotAccess.{
  Access, AccessFault, invalid, not_found, conflict, no_id, failure, refused_by_table,
  status_active, status_revoked,
}
use virtual_cloud_help_servi.PilotAccess.Service.{AccessStore}

pub record Metadata : Type 0 where
  pub node_id : Text
  pub transport : Text
  pub expires_at : Option Instant

pub record AuditEvent : Type 0 where
  pub id : Text
  pub action : Text
  pub object_id : Text
  pub metadata : Option Metadata

pub record Database : Type 0 where
  pub devices : List Text  -- the ids of app_private.devices
  pub nodes : List Text
  pub accesses : List Access
  pub audits : List AuditEvent

-- How COMMIT ends: a lost answer is an error after the commit took effect.
pub data Commit : Type 0 where
  committed refused lost : Commit

pub record DatabaseCalls : Type 0 where
  pub audit_id : Option Text
  pub begins : Bool
  pub query_works : Bool
  pub audit_works : Bool
  pub commit : Commit

-- sql.ErrNoRows and the codes 23505, 23503 and 23514.
pub data SqlFault : Type 0 where
  no_rows unique_violation foreign_key_violation check_violation other : SqlFault

unfoldable pub classify : SqlFault → AccessFault
classify no_rows = not_found
classify unique_violation = conflict
classify foreign_key_violation = invalid refused_by_table
classify check_violation = invalid refused_by_table
classify other = failure

-- interval '90 days', as the migration writes it; the session's time zone is UTC
abbrev pub sql_lifetime : Duration
sql_lifetime = 7_776_000_000_000_000

-- expires_at > created_at AND expires_at <= created_at + interval '90 days', and NOT NULL
unfoldable pub expiry_check : Access → Bool
expiry_check access = elim access.expires_at [
  | none ↦ false
  | some expires ↦ ltb access.created_at expires && leb expires (access.created_at + sql_lifetime)
]

-- revoked_at IS NULL OR revoked_at >= created_at
unfoldable pub revocation_check : Access → Bool
revocation_check access = elim access.revoked_at [
  | none ↦ true
  | some revoked ↦ leb access.created_at revoked
]

-- The NOT NULL and CHECK constraints of a row of app_private.vpn_accesses, with the literals of
-- the migration. A timestamptz keeps microseconds; the service hands over whole seconds.
unfoldable pub row_ok : Access → Bool
unfolding expiry_check revocation_check
row_ok access =
    (text_eq access.transport (bytes "amneziawg")
      || text_eq access.transport (bytes "xray_reality"))
    && leb 1 (length access.external_reference)
    && leb (length access.external_reference) 256
    && (text_eq access.status (bytes "active") || text_eq access.status (bytes "revoked"))
    && expiry_check access
    && revocation_check access
    && (if text_eq access.status (bytes "revoked")
        then not (is_none access.revoked_at)
        else is_none access.revoked_at)

unfoldable pub find_access : Text → List Access → Option Access
find_access id [] = none
find_access id (row ∷ rows) = elim (text_eq row.id id) [
  | true ↦ some row
  | false ↦ find_access id rows
]

-- UNIQUE (node_id, transport, external_reference)
unfoldable pub reference_taken : Access → List Access → Bool
reference_taken access [] = false
reference_taken access (row ∷ rows) =
    text_eq row.node_id access.node_id
      && text_eq row.transport access.transport
      && text_eq row.external_reference access.external_reference
    || reference_taken access rows

-- INSERT INTO app_private.vpn_accesses; the row it returns is the access.
unfoldable pub insert_access : Database → Access → Result SqlFault Database
insert_access db access = do
  reject (is_none access.expires_at) other
  reject (not (row_ok access)) check_violation
  reject (not (is_none (find_access access.id db.accesses)) || reference_taken access db.accesses)
      unique_violation
  reject (not (contains db.devices access.device_id) || not (contains db.nodes access.node_id))
      foreign_key_violation
  ok (record db { accesses = access ∷ db.accesses })

unfoldable pub has_audit : Text → List AuditEvent → Bool
has_audit id [] = false
has_audit id (event ∷ events) = text_eq event.id id || has_audit id events

-- INSERT INTO app_private.admin_audit_events
unfoldable pub insert_audit : Database → Bool → AuditEvent → Result AccessFault Database
insert_audit db works event = do
  reject (not works || has_audit event.id db.audits) failure
  ok (record db { audits = event ∷ db.audits })

-- The deferred Rollback undoes a transaction that fails before its commit.
unfoldable pub in_transaction :
    Database
    → Commit
    → Result AccessFault (Database × Access)
    → Database × Result AccessFault Access
in_transaction db commit (err fault) = (db, err fault)
in_transaction db committed (ok (after, access)) = (after, ok access)
in_transaction db refused (ok (after, access)) = (db, err failure)
in_transaction db lost (ok (after, access)) = (after, err failure)

abbrev pub action_registered : Text
action_registered = bytes "pilot_access_registered"

abbrev pub action_revoked : Text
action_revoked = bytes "pilot_access_revoked"

abbrev pub registered_event : Text → Access → AuditEvent
registered_event audit_id access = record {
  id = audit_id;
  action = action_registered;
  object_id = access.id;
  metadata = some (record {
    node_id = access.node_id;
    transport = access.transport;
    expires_at = access.expires_at;
  });
}

abbrev pub revoked_event : Text → Access → AuditEvent
revoked_event audit_id access = record {
  id = audit_id;
  action = action_revoked;
  object_id = access.id;
  metadata = none;
}

unfoldable pub create_steps :
    Database → DatabaseCalls → Text → Access → Result AccessFault (Database × Access)
create_steps db calls audit_id access = do
  reject (not calls.query_works) failure
  inserted ← wrap classify (insert_access db access)
  after ← insert_audit inserted calls.audit_works (registered_event audit_id access)
  ok (after, access)

unfoldable pub create : DatabaseCalls → Database → Access → Database × Result AccessFault Access
create calls db access = elim calls.audit_id [
  | none ↦ (db, err no_id)
  | some audit_id ↦
      if calls.begins
      then in_transaction db calls.commit (create_steps db calls audit_id access)
      else (db, err failure)
]

-- SET status = 'revoked', revoked_at = COALESCE(revoked_at, at)
abbrev pub mark_revoked : Instant → Access → Access
mark_revoked at access = record access {
  status = status_revoked;
  revoked_at = elim access.revoked_at [ none ↦ some at | some t ↦ some t ];
}

-- The row of the same id becomes `access`.
unfoldable pub replace_access : Access → List Access → List Access
replace_access access [] = []
replace_access access (row ∷ rows) = elim (text_eq row.id access.id) [
  | true ↦ access ∷ rows
  | false ↦ row ∷ replace_access access rows
]

-- The row of primary key `id`, if its status is `status`.
unfoldable pub with_status : Text → Text → List Access → Result SqlFault Access
with_status status id rows = elim (find_access id rows) [
  | none ↦ err no_rows
  | some row ↦ if text_eq row.status status then ok row else err no_rows
]

unfoldable pub end_access :
    Database → DatabaseCalls → Text → Instant → Access → Result AccessFault (Database × Access)
end_access db calls audit_id at row = do
  reject (not (row_ok (mark_revoked at row))) (classify check_violation)
  after ←
      insert_audit (record db { accesses = replace_access (mark_revoked at row) db.accesses })
        calls.audit_works (revoked_event audit_id row)
  ok (after, mark_revoked at row)

-- Where no active row has the id, a revoked one is returned as it is.
unfoldable pub revoke_steps :
    Database → DatabaseCalls → Text → Text → Instant → Result AccessFault (Database × Access)
revoke_steps db calls audit_id id at =
    if not calls.query_works then err failure else elim (with_status status_active id db.accesses) [
      | ok row ↦ end_access db calls audit_id at row
      | err none_active ↦ do
        row ← wrap classify (with_status status_revoked id db.accesses)
        ok (db, row)
    ]

unfoldable pub revoke :
    DatabaseCalls → Database → Text → Instant → Database × Result AccessFault Access
revoke calls db id at = elim calls.audit_id [
  | none ↦ (db, err no_id)
  | some audit_id ↦
      if calls.begins
      then in_transaction db calls.commit (revoke_steps db calls audit_id id at)
      else (db, err failure)
]

abbrev pub postgres_store : DatabaseCalls → AccessStore Database
postgres_store calls = record { create = create calls; revoke = revoke calls }
