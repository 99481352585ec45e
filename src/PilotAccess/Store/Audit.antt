-- ===== src/PilotAccess/Store/Audit.antt =====
-- Runs of calls of the service over the tables of postgres/store.go: the audit events they leave,
-- and what becomes of an access.
use virtual_cloud_help_servi.Prelude.{
  ℕ, ◌+◌, ◌≡◌, refl, false, List, [], ◌∷◌, Option, none, some, Result, arith, ap, ◌∙◌, inl, inr,
  Bool-cases, if◌then◌else◌,
}
use virtual_cloud_help_servi.Prelude.Text.{Text, text_eq, text_eq_iff}
use virtual_cloud_help_servi.GoTime.{Instant, before}
use virtual_cloud_help_servi.PilotAccess.{Access, AccessFault, status_active, status_revoked}
use virtual_cloud_help_servi.PilotAccess.Store.{
  Database, AuditEvent, find_access, mark_revoked, action_registered, action_revoked,
}
use virtual_cloud_help_servi.PilotAccess.Store.Moves.{
  Request, serve, serve-Move, Move, kept, created, ended, find_access-id,
}
use virtual_cloud_help_servi.PilotAccess.Store.Registry.{
  Registry, registry_of, ended_at, Change, same, add, end, IsValid, serve-Change,
  find_access-replace,
}

-- The calls one after the other, whatever they answer.
unfoldable pub serve_all : List (Text → Option Text) → Database → List Request → Database
serve_all decoders db [] = db
serve_all decoders db (request ∷ rest) = serve_all decoders (serve decoders db request).0 rest

-- How many events of an action an object has.
unfoldable pub count_events : Text → Text → List AuditEvent → ℕ
count_events action id [] = 0
count_events action id (event ∷ events) =
    let rest = count_events action id events in
    if text_eq event.action action
    then (if text_eq event.object_id id then rest + 1 else rest)
    else rest

abbrev pub registrations : Option Access → ℕ
registrations none = 0
registrations (some a) = 1

abbrev pub revocations : Option Access → ℕ
revocations none = 0
revocations (some a) = if text_eq a.status status_revoked then 1 else 0

-- Each access has one event of its registration and, once it is revoked, one of its revocation;
-- an id of no access has none.
abbrev pub IsAudited : Database → Type 0
IsAudited db =
    (id : Text)
    → (count_events action_registered id db.audits ≡ registrations (find_access id db.accesses))
      × (count_events action_revoked id db.audits ≡ revocations (find_access id db.accesses))

pub serve-IsAudited :
    (decoders : List (Text → Option Text)) (db : Database) (request : Request)
    → IsAudited db
    → IsAudited (serve decoders db request).0
unfolding count_events text_eq find_access
serve-IsAudited decoders db request audited = by_move (serve-Move decoders db request)
  where
    by_move :
        {after : Database} {answer : Result AccessFault Access}
        → Move db after answer
        → IsAudited after
    by_move (kept is found) = rw is audited
    by_move (created audit_id a is fresh active ok_a answers) = rw is (λ id.
        let (r, v) = audited id in
        let inactive : text_eq a.status status_revoked ≡ false = rw active refl in
        ground (arith, r, v, fresh, inactive, text_eq_iff a.id id))
    by_move (ended audit_id at row is found active ok_row answers) = rw is (λ id.
        let (r, v) = audited id in
        let inactive : text_eq row.status status_revoked ≡ false = rw active refl in
        let now = find_access-replace (mark_revoked at row) id db.accesses {row = row} found in
        ground (arith, r, v, found, now, inactive, text_eq_iff row.id id))

-- Whatever calls are made, and whichever of them fail or lose their answer, each access keeps one
-- event of its registration and one of its revocation where it is revoked, and an id that is not
-- registered has none, provided this held before the calls.
pub serve_all-IsAudited :
    (decoders : List (Text → Option Text)) (db : Database) (requests : List Request)
    → IsAudited db
    → IsAudited (serve_all decoders db requests)
unfolding serve_all
serve_all-IsAudited decoders db [] audited = audited
serve_all-IsAudited decoders db (request ∷ rest) audited =
    serve_all-IsAudited decoders (serve decoders db request).0 rest
      (serve-IsAudited decoders db request audited)

-- What a registered access may be later: itself, or, if it was active, itself revoked at a time
-- not before its creation.
pub data IsLater (a b : Access) : Type 0 where
  unchanged : b ≡ a → IsLater a b
  revoked :
      (at : Instant)
      → a.status ≡ status_active
      → before at a.created_at ≡ false
      → b ≡ ended_at at a
      → IsLater a b

Change-IsLater :
    {registry after : Registry} (id : Text) (a : Access)
    → Change registry after
    → a.id ≡ id
    → registry id ≡ some a
    → (b : Access) × (after id ≡ some b) × IsLater a b × (b.id ≡ id)
Change-IsLater id a (same is) own found = (a, is id ∙ found, unchanged refl, own)
Change-IsLater {registry} id a (add c fresh active missing expiry is) own found =
    elim (Bool-cases (text_eq c.id id)) [
      | inl here ↦ absurd (ground (arith, text_eq_iff c.id id))
      | inr there ↦ (a, is id ∙ ground arith, unchanged refl, own)
    ]
Change-IsLater {registry} id a (end at c found_c active late is) own found =
    elim (Bool-cases (text_eq c.id id)) [
      | inl here ↦
          let equal : c ≡ a = ground (arith, text_eq_iff c.id id) in
          rw (← equal) (
            ended_at at c,
            is id ∙ ground arith,
            revoked at active late refl,
            (text_eq_iff c.id id).0 here,
          )
      | inr there ↦ (a, is id ∙ ground arith, unchanged refl, own)
    ]

IsLater-trans : {a b c : Access} → IsLater a b → IsLater b c → IsLater a c
unfolding text_eq
IsLater-trans {a} (unchanged e) later = rw (← e) later
IsLater-trans {a} (revoked at active late e) (unchanged k) = revoked at active late (k ∙ e)
IsLater-trans {a} {b} (revoked at active late e) (revoked at' active' late' k) =
    let ended : b.status ≡ status_revoked = ap (λ (x : Access). x.status) e in
    let inactive : text_eq b.status status_active ≡ false = rw ended refl in
    absurd (ground (arith, text_eq_iff b.status status_active))

-- From tables that keep their constraints, whatever calls follow and whichever of them fail, a
-- registered access stays registered and unchanged, except that an active one may become revoked,
-- once and for good, at a time not before its creation.
pub serve_all-IsLater :
    (decoders : List (Text → Option Text)) (db : Database) (requests : List Request) (id : Text)
    {a : Access}
    → IsValid db
    → registry_of db id ≡ some a
    → (b : Access) × (registry_of (serve_all decoders db requests) id ≡ some b) × IsLater a b
unfolding serve_all
serve_all-IsLater decoders db [] id {a} valid found = (a, found, unchanged refl)
serve_all-IsLater decoders db (request ∷ rest) id {a} valid found =
    let (change, valid', answered) = serve-Change decoders db request valid in
    let (b, found_b, later, own) =
      Change-IsLater id a change (find_access-id id db.accesses {row = a} found) found in
    let (c, found_c, later') =
      serve_all-IsLater decoders (serve decoders db request).0 rest id {a = b} valid' found_b in
    (c, found_c, IsLater-trans later later')
