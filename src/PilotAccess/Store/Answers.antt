-- ===== src/PilotAccess/Store/Answers.antt =====
-- What the service answers over the tables of postgres/store.go where the connection works.
use virtual_cloud_help_servi.Prelude.{
  ℕ, ◌+◌, ◌≤◌, ◌≡◌, refl, Bool, true, false, List, [], ◌∷◌, Option, none, some, ok, arith, length,
  is_none, ◌⊎◌, inl, inr, Option-cases,
}
use virtual_cloud_help_servi.Prelude.Text.{Text, text_eq, text_eq_iff, contains}
use virtual_cloud_help_servi.GoTime.{Instant, truncate, second}
use virtual_cloud_help_servi.Patterns.{matches, is_alnum}
use virtual_cloud_help_servi.VpnNode.{validate_transport}
use virtual_cloud_help_servi.PilotAccess.{
  Access, RegisterInput, status_active, status_revoked, validate_access, check_status,
  lacks_revocation, expiry_ok, uuid_pattern, external_reference_pattern, is_reference_char,
}
use virtual_cloud_help_servi.PilotAccess.Service.{
  check_returned, register, revoke_access, new_access,
}
use virtual_cloud_help_servi.PilotAccess.Store.{
  Database, DatabaseCalls, committed, find_access, insert_access, insert_audit, in_transaction,
  create_steps, create, with_status, revoke_steps, revoke, row_ok, reference_taken, has_audit,
}
use virtual_cloud_help_servi.PilotAccess.Store.Moves.{registering, revoking, serve, with_access}

matches-length :
    (first rest : ℕ → Bool) (most : ℕ) (s : Text)
    → matches first rest most s ≡ true
    → (1 ≤ length s) × (length s ≤ most + 1)
unfolding matches
matches-length first rest most [] h = absurd (ground arith)
matches-length first rest most (c ∷ cs) h = ground arith

active_revoked_differ : text_eq status_active status_revoked ≡ false
unfolding text_eq
active_revoked_differ = refl

active-not_revoked : (s : Text) → text_eq s status_active ≡ true → text_eq s status_revoked ≡ false
active-not_revoked s h = rw ((text_eq_iff s status_active).0 h) active_revoked_differ

row-expires : (a : Access) → row_ok a ≡ true → is_none a.expires_at ≡ false
unfolding row_ok expiry_ok
row-expires a row = elim (Option-cases a.expires_at) [
  | inl missing ↦ absurd (ground arith)
  | inr (at, found) ↦ ground arith
]

module _ (decoders : List (Text → Option Text)) where
  check_status-row :
      (a : Access)
      → check_status a ≡ ok tt
      → (text_eq a.status status_active ≡ true) × (is_none a.revoked_at ≡ true)
        ⊎ (text_eq a.status status_active ≡ false)
          × (text_eq a.status status_revoked ≡ true)
          × (lacks_revocation a ≡ false)
  unfolding check_status
  check_status-row a h = ground arith

  -- What the service's validation accepts, the constraints of the table accept.
  pub validate_access-row_ok : (a : Access) → validate_access decoders a ≡ ok tt → row_ok a ≡ true
  unfolding validate_access row_ok validate_transport
  validate_access-row_ok a h =
      let pattern : external_reference_pattern a.external_reference ≡ true = ground arith in
      let sized = matches-length is_alnum is_reference_char 255 a.external_reference pattern in
      let expiry : expiry_ok a.created_at a.expires_at ≡ true = ground arith in
      let transport : validate_transport a.transport ≡ ok tt = ground arith in
      let status : check_status a ≡ ok tt = ground arith in
      ground (arith, sized, check_status-row a status, active-not_revoked a.status)

  -- The connection works and the audit event's id is new.
  abbrev Works : Database → DatabaseCalls → Text → Type 0
  Works db calls audit_id =
      (calls.audit_id ≡ some audit_id)
      × (calls.begins ≡ true)
      × (calls.query_works ≡ true)
      × (calls.audit_works ≡ true)
      × (calls.commit ≡ committed)
      × (has_audit audit_id db.audits ≡ false)

  -- Revoking an access that is revoked already answers it as it is, with the time of its first
  -- revocation, and adds no event.
  pub revoke-again :
      (db : Database) (calls : DatabaseCalls) (audit_id id : Text) (now : Instant) {a : Access}
      → Works db calls audit_id
      → uuid_pattern id ≡ true
      → find_access id db.accesses ≡ some a
      → a.status ≡ status_revoked
      → validate_access decoders a ≡ ok tt
      → serve decoders db (revoking now id calls) ≡ (db, ok a)
  unfolding serve revoke_access check_returned revoke revoke_steps with_status in_transaction
      text_eq
  revoke-again db calls audit_id id now {a} (e1, e2, e3, e4, e5, e6) good found ended valid =
      let inactive : text_eq a.status status_active ≡ false = rw ended refl in
      let revoked : text_eq a.status status_revoked ≡ true = rw ended refl in
      ground (arith, e1, e2, e3, e5)

  -- A valid access of a new id and a free reference, for a device and a node that exist, is
  -- registered and answered.
  pub register-new :
      (db : Database) (calls : DatabaseCalls) (audit_id id : Text) (now : Instant)
      (input : RegisterInput)
      → let a = new_access (truncate now second) id input in
        Works db calls audit_id
        → validate_access decoders a ≡ ok tt
        → find_access id db.accesses ≡ none
        → reference_taken a db.accesses ≡ false
        → contains db.devices a.device_id ≡ true
        → contains db.nodes a.node_id ≡ true
        → serve decoders db (registering now (some id) input calls)
          ≡ (with_access db audit_id a, ok a)
  unfolding serve register check_returned create create_steps insert_access insert_audit
      in_transaction
  register-new db calls audit_id id now input (e1, e2, e3, e4, e5, e6) valid fresh free device
        node =
      let a = new_access (truncate now second) id input in
      let row = validate_access-row_ok a valid in
      let expires = row-expires a row in ground (arith, row, expires, e1, e2, e3, e4, e5, e6)
