-- ===== src/PilotAccess/Store/Moves.antt =====
-- What a call of the pilot-access service does to the tables of postgres/store.go.
use virtual_cloud_help_servi.Prelude.{
  ◌≡◌, refl, Bool, true, false, not, List, [], ◌∷◌, Option, none, some, Result, ok, err, arith, ap,
  ◌∙◌, inl, inr, Bool-cases, Option-cases, if◌then◌else◌,
}
use virtual_cloud_help_servi.Prelude.Text.{Text, text_eq, text_eq_iff}
use virtual_cloud_help_servi.GoTime.{Instant, second, truncate}
use virtual_cloud_help_servi.PilotAccess.{
  Access, AccessFault, Invalid, invalid, bad_access_id, uuid_pattern, returned_invalid, no_id,
  failure, RegisterInput, status_active, status_revoked, validate_access,
}
use virtual_cloud_help_servi.PilotAccess.Service.{
  check_returned, register, revoke_access, new_access,
}
use virtual_cloud_help_servi.PilotAccess.Store.{
  Database, DatabaseCalls, Commit, committed, refused, lost, find_access, insert_access,
  insert_audit, in_transaction, create_steps, create, registered_event, revoked_event, mark_revoked,
  replace_access, with_status, end_access, revoke_steps, revoke, postgres_store, row_ok,
}

-- A call of the service: the clock, what `newID` gives, and the connection's behaviour.
pub data Request : Type 0 where
  registering : Instant → Option Text → RegisterInput → DatabaseCalls → Request
  revoking : Instant → Text → DatabaseCalls → Request

unfoldable pub serve :
    List (Text → Option Text) → Database → Request → Database × Result AccessFault Access
unfolding register revoke_access
serve decoders db (registering now new_id input calls) =
    register decoders (postgres_store calls) db now new_id input
serve decoders db (revoking now id calls) = revoke_access decoders (postgres_store calls) db now id

-- The tables with a new access, and with one that is revoked, each with its event.
abbrev pub with_access : Database → Text → Access → Database
with_access db audit_id a = record db {
  accesses = a ∷ db.accesses;
  audits = registered_event audit_id a ∷ db.audits;
}

abbrev pub with_revoked : Database → Text → Instant → Access → Database
with_revoked db audit_id at row = record db {
  accesses = replace_access (mark_revoked at row) db.accesses;
  audits = revoked_event audit_id row ∷ db.audits;
}

-- The three things that a call can do, and what it may then answer.
pub data Move (db after : Database) (answer : Result AccessFault Access) : Type 0 where
  kept :
      after ≡ db
      → ((b : Access)
          → answer ≡ ok b
          → (find_access b.id db.accesses ≡ some b) × (b.status ≡ status_revoked))
      → Move db after answer
  created :
      (audit_id : Text) (a : Access)
      → after ≡ with_access db audit_id a
      → find_access a.id db.accesses ≡ none
      → a.status ≡ status_active
      → row_ok a ≡ true
      → ((b : Access) → answer ≡ ok b → b ≡ a)
      → Move db after answer
  ended :
      (audit_id : Text) (at : Instant) (row : Access)
      → after ≡ with_revoked db audit_id at row
      → find_access row.id db.accesses ≡ some row
      → row.status ≡ status_active
      → row_ok (mark_revoked at row) ≡ true
      → ((b : Access) → answer ≡ ok b → b ≡ mark_revoked at row)
      → Move db after answer

pub find_access-id :
    (id : Text) (rows : List Access) {row : Access} → find_access id rows ≡ some row → row.id ≡ id
unfolding find_access
find_access-id id [] {row} h = absurd (ground arith)
find_access-id id (first ∷ rows) {row} h =
    ground (arith, find_access-id id rows {row = row}, text_eq_iff first.id id)

-- A row that is found is found by its own id.
find_access-own :
    (id : Text) (rows : List Access) {row : Access}
    → find_access id rows ≡ some row
    → find_access row.id rows ≡ some row
find_access-own id rows {row} found =
    ap (λ (k : Text). find_access k rows) (find_access-id id rows {row = row} found) ∙ found

Move-weaken :
    {db after : Database} {answer answer' : Result AccessFault Access}
    → ((b : Access) → answer' ≡ ok b → answer ≡ ok b)
    → Move db after answer
    → Move db after answer'
Move-weaken weaker (kept same found) = kept same (λ b e. found b (weaker b e))
Move-weaken weaker (created audit_id a is none_yet active valid answers) =
    created audit_id a is none_yet active valid (λ b e. answers b (weaker b e))
Move-weaken weaker (ended audit_id at row is found active valid answers) =
    ended audit_id at row is found active valid (λ b e. answers b (weaker b e))

-- A call that answers with an error and leaves the tables alone.
Move-fault : {db : Database} {fault : AccessFault} → Move db db (err fault)
Move-fault = kept refl (λ b e. absurd (ground arith))

-- What a call answers after the checks of the service is what the store answered, or an error.
Move-check_returned :
    (decoders : List (Text → Option Text)) (db : Database)
    (out : Database × Result AccessFault Access)
    → Move db out.0 out.1
    → let checked = check_returned decoders out in Move db checked.0 checked.1
unfolding check_returned
Move-check_returned decoders db (after, err fault) m = m
Move-check_returned decoders db (after, ok a) m = by_check (validate_access decoders a)
  where
    by_check :
        (r : Result Invalid (Unit {0}))
        → (let checked : Database × Result AccessFault Access = elim r [
          | err reason ↦ (after, err (returned_invalid reason))
          | ok done ↦ (after, ok a)
        ] in
            Move db checked.0 checked.1)
    by_check (ok done) = m
    by_check (err reason) = Move-weaken (λ b e. absurd (ground arith)) m

create_steps-with_access :
    (db : Database) (calls : DatabaseCalls) (audit_id : Text) (a : Access) {after : Database}
    {b : Access}
    → create_steps db calls audit_id a ≡ ok (after, b)
    → (b ≡ a)
      × (after ≡ with_access db audit_id a)
      × (find_access a.id db.accesses ≡ none)
      × (row_ok a ≡ true)
unfolding create_steps insert_access insert_audit
create_steps-with_access db calls audit_id a h = ground arith

-- A transaction leaves the tables alone, or does all its steps.
Move-in_transaction :
    (db : Database) (commit : Commit) (steps : Result AccessFault (Database × Access))
    → ((after : Database) (a : Access) → steps ≡ ok (after, a) → Move db after (ok a))
    → let out = in_transaction db commit steps in Move db out.0 out.1
unfolding in_transaction
Move-in_transaction db commit (err fault) moves = Move-fault
Move-in_transaction db committed (ok (after, a)) moves = moves after a refl
Move-in_transaction db refused (ok (after, a)) moves = Move-fault
Move-in_transaction db lost (ok (after, a)) moves =
    Move-weaken (λ b e. absurd (ground arith)) (moves after a refl)

create-Move :
    (calls : DatabaseCalls) (db : Database) (a : Access)
    → a.status ≡ status_active
    → let out = create calls db a in Move db out.0 out.1
unfolding create
create-Move calls db a active = by_id calls.audit_id calls.begins
  where
    by_id :
        (id : Option Text) (begins : Bool)
        → (let out : Database × Result AccessFault Access = elim id [
          | none ↦ (db, err no_id)
          | some audit_id ↦
              if begins
              then in_transaction db calls.commit (create_steps db calls audit_id a)
              else (db, err failure)
        ] in
            Move db out.0 out.1)
    by_id none begins = Move-fault
    by_id (some audit_id) false = Move-fault
    by_id (some audit_id) true =
        Move-in_transaction db calls.commit (create_steps db calls audit_id a) (λ after b done.
          let (same, is, fresh, valid) =
            create_steps-with_access db calls audit_id a {after = after} {b = b} done in
          created audit_id a is fresh active valid (λ c e. ground arith))

revoke_steps-Move :
    (db : Database) (calls : DatabaseCalls) (audit_id id : Text) (at : Instant) (after : Database)
    (a : Access)
    → revoke_steps db calls audit_id id at ≡ ok (after, a)
    → Move db after (ok a)
unfolding revoke_steps end_access insert_audit with_status
revoke_steps-Move db calls audit_id id at after a h =
    elim (Option-cases (find_access id db.accesses)) [
      | inl missing ↦ absurd (ground arith)
      | inr (row, found) ↦
          let here = find_access-own id db.accesses {row = row} found in
          elim (Bool-cases (text_eq row.status status_active)) [
            | inl active ↦
                let ends : end_access db calls audit_id at row ≡ ok (after, a) = ground arith in
                ended audit_id at row (ground arith) (ground arith)
                  ((text_eq_iff row.status status_active).0 active) (ground arith)
                  (λ b e. ground arith)
            | inr inactive ↦
                let is : (after ≡ db) × (a ≡ row) × (text_eq row.status status_revoked ≡ true) =
                  ground arith in
                kept is.0 (λ b e.
                  let same : b ≡ row = ground (arith, is) in
                  rw same (here, (text_eq_iff row.status status_revoked).0 is.2))
          ]
    ]

revoke-Move :
    (calls : DatabaseCalls) (db : Database) (id : Text) (at : Instant)
    → let out = revoke calls db id at in Move db out.0 out.1
unfolding revoke
revoke-Move calls db id at = by_id calls.audit_id calls.begins
  where
    by_id :
        (audit : Option Text) (begins : Bool)
        → (let out : Database × Result AccessFault Access = elim audit [
          | none ↦ (db, err no_id)
          | some audit_id ↦
              if begins
              then in_transaction db calls.commit (revoke_steps db calls audit_id id at)
              else (db, err failure)
        ] in
            Move db out.0 out.1)
    by_id none begins = Move-fault
    by_id (some audit_id) false = Move-fault
    by_id (some audit_id) true =
        Move-in_transaction db calls.commit (revoke_steps db calls audit_id id at)
          (revoke_steps-Move db calls audit_id id at)

pub serve-Move :
    (decoders : List (Text → Option Text)) (db : Database) (request : Request)
    → let out = serve decoders db request in Move db out.0 out.1
unfolding serve register revoke_access
serve-Move decoders db (registering now none input calls) = Move-fault
serve-Move decoders db (registering now (some id) input calls) =
    by_check (validate_access decoders access)
  where
    access : Access
    access = new_access (truncate now second) id input

    by_check :
        (r : Result Invalid (Unit {0}))
        → (let out : Database × Result AccessFault Access = elim r [
          | err reason ↦ (db, err (invalid reason))
          | ok done ↦ check_returned decoders (create calls db access)
        ] in
            Move db out.0 out.1)
    by_check (err reason) = Move-fault
    by_check (ok done) =
        Move-check_returned decoders db (create calls db access) (create-Move calls db access refl)
serve-Move decoders db (revoking now id calls) = by_pattern (uuid_pattern id)
  where
    revoked : Database × Result AccessFault Access
    revoked = revoke calls db id (truncate now second)

    by_pattern :
        (good : Bool)
        → (let out : Database × Result AccessFault Access =
              if not good
              then (db, err (invalid bad_access_id))
              else check_returned decoders revoked in
            Move db out.0 out.1)
    by_pattern false = Move-fault
    by_pattern true =
        Move-check_returned decoders db revoked (revoke-Move calls db id (truncate now second))
