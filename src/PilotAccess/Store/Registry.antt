-- ===== src/PilotAccess/Store/Registry.antt =====
-- The registry of accesses that the tables of postgres/store.go stand for: a partial function from
-- ids. A call of the service is one step of it, and the steps keep what is registered.
use virtual_cloud_help_servi.Prelude.{
  ◌≡◌, refl, Bool, true, false, List, [], ◌∷◌, Option, none, some, Result, ok, arith, ap, ◌∙◌, inl,
  inr, Option-cases, All,
}
use virtual_cloud_help_servi.Prelude.Text.{Text, text_eq, text_eq_iff, text_eq_refl}
use virtual_cloud_help_servi.GoTime.{Instant, before}
use virtual_cloud_help_servi.PilotAccess.{
  Access, AccessFault, status_active, status_revoked, lacks_revocation, expiry_ok,
}
use virtual_cloud_help_servi.PilotAccess.Store.{
  Database, find_access, mark_revoked, replace_access, row_ok, expiry_check,
}
use virtual_cloud_help_servi.PilotAccess.Store.Moves.{
  Request, serve, serve-Move, Move, kept, created, ended,
}

abbrev pub Registry : Type 0
Registry = Text → Option Access

abbrev pub registry_of : Database → Registry
registry_of db id = find_access id db.accesses

abbrev pub put : Access → Registry → Registry
put a registry id = elim (text_eq a.id id) [ true ↦ some a | false ↦ registry id ]

abbrev pub ended_at : Instant → Access → Access
ended_at at a = record a { status = status_revoked; revoked_at = some at }

-- What one call may do to the registry.
pub data Change (registry after : Registry) : Type 0 where
  same : ((id : Text) → after id ≡ registry id) → Change registry after
  add :
      (a : Access)
      → registry a.id ≡ none
      → a.status ≡ status_active
      → a.revoked_at ≡ none
      → expiry_ok a.created_at a.expires_at ≡ true
      → ((id : Text) → after id ≡ put a registry id)
      → Change registry after
  end :
      (at : Instant) (a : Access)
      → registry a.id ≡ some a
      → a.status ≡ status_active
      → before at a.created_at ≡ false
      → ((id : Text) → after id ≡ put (ended_at at a) registry id)
      → Change registry after

-- Every row keeps the table's constraints.
abbrev pub IsValid : Database → Type 0
IsValid db = All (λ row. row_ok row ≡ true) db.accesses

find_access-row_ok :
    (id : Text) (rows : List Access) {row : Access}
    → All (λ row. row_ok row ≡ true) rows
    → find_access id rows ≡ some row
    → row_ok row ≡ true
unfolding find_access
find_access-row_ok id [] {row} valid h = absurd (ground arith)
find_access-row_ok id (first ∷ rows) {row} valid h =
    ground (arith, valid, find_access-row_ok id rows {row = row} valid.1)

pub find_access-replace :
    (a : Access) (id : Text) (rows : List Access) {row : Access}
    → find_access a.id rows ≡ some row
    → find_access id (replace_access a rows) ≡ put a (λ k. find_access k rows) id
unfolding find_access replace_access
find_access-replace a id [] {row} h = absurd (ground arith)
find_access-replace a id (first ∷ rows) {row} h = ground (
  arith,
  find_access-replace a id rows {row = row},
  text_eq_iff first.id a.id,
  text_eq_iff first.id id,
  text_eq_iff a.id id,
)

replace-IsValid :
    (a : Access) (rows : List Access)
    → row_ok a ≡ true
    → All (λ row. row_ok row ≡ true) rows
    → All (λ row. row_ok row ≡ true) (replace_access a rows)
unfolding replace_access
replace-IsValid a [] ok_a valid = tt
replace-IsValid a (first ∷ rows) ok_a valid =
    by_id (text_eq first.id a.id) (replace-IsValid a rows ok_a valid.1)
  where
    by_id :
        (found : Bool)
        → All (λ row. row_ok row ≡ true) (replace_access a rows)
        → All
            (λ row. row_ok row ≡ true)
            (elim found [ true ↦ a ∷ rows | false ↦ first ∷ replace_access a rows ])
    by_id true rest = (ok_a, valid.1)
    by_id false rest = (valid.0, rest)

-- An active row has no revocation, and an ended one ends no earlier than it was created.
active-row : (a : Access) → row_ok a ≡ true → a.status ≡ status_active → a.revoked_at ≡ none
unfolding row_ok text_eq
active-row a valid active =
    let inactive : text_eq a.status status_revoked ≡ false = rw active refl in
    elim (Option-cases a.revoked_at) [
      | inl missing ↦ missing
      | inr (at, found) ↦ absurd (ground (arith, inactive))
    ]

ended-row :
    (at : Instant) (a : Access) → row_ok (ended_at at a) ≡ true → before at a.created_at ≡ false
unfolding row_ok lacks_revocation text_eq
ended-row at a valid = ground arith

mark_revoked-ended_at :
    (at : Instant) (a : Access) → a.revoked_at ≡ none → mark_revoked at a ≡ ended_at at a
mark_revoked-ended_at at a missing =
    ap
      (λ (o : Option Instant). record a {
        status = status_revoked;
        revoked_at = elim o [ none ↦ some at | some t ↦ some t ];
      })
      missing

row-expiry : (a : Access) → row_ok a ≡ true → expiry_ok a.created_at a.expires_at ≡ true
unfolding row_ok expiry_check expiry_ok
row-expiry a valid = elim (Option-cases a.expires_at) [
  | inl missing ↦ absurd (ground (arith, missing))
  | inr (at, found) ↦ ground (arith, found)
]

put-own : (a : Access) (registry : Registry) → put a registry a.id ≡ some a
put-own a registry = rw (text_eq_refl a.id, put) refl

-- On tables that keep their constraints, one call of the service, whatever fails in it, is one
-- step of the registry and keeps the constraints; an access that it answers is the registry's
-- entry of its id afterwards.
pub serve-Change :
    (decoders : List (Text → Option Text)) (db : Database) (request : Request)
    → IsValid db
    → let out = serve decoders db request in
      Change (registry_of db) (registry_of out.0)
      × IsValid out.0
      × ((b : Access) → out.1 ≡ ok b → registry_of out.0 b.id ≡ some b)
unfolding find_access
serve-Change decoders db request valid = by_move (serve-Move decoders db request)
  where
    by_move :
        {after : Database} {answer : Result AccessFault Access}
        → Move db after answer
        → Change (registry_of db) (registry_of after)
          × IsValid after
          × ((b : Access) → answer ≡ ok b → registry_of after b.id ≡ some b)
    by_move {after} (kept is found) = rw is (same (λ id. refl), valid, λ b e. (found b e).0)
    by_move {after} (created audit_id a is fresh active ok_a answers) = rw is (
      add a fresh active (active-row a ok_a active) (row-expiry a ok_a) (λ id. refl),
      (ok_a, valid),
      λ b e. rw (answers b e) (put-own a (registry_of db)),
    )
    by_move {after} (ended audit_id at row is found active ok_row answers) =
        let is_ended : mark_revoked at row ≡ ended_at at row =
          mark_revoked-ended_at at row (
            active-row row (find_access-row_ok row.id db.accesses {row = row} valid found)
              active) in
        rw is (
          end at row found active (ended-row at row (rw (← is_ended) ok_row)) (λ id.
              find_access-replace (mark_revoked at row) id db.accesses {row = row} found
              ∙ ap (λ (x : Access). put x (registry_of db) id) is_ended),
          replace-IsValid (mark_revoked at row) db.accesses ok_row valid,
          λ b e. rw (answers b e) (
              find_access-replace (mark_revoked at row) row.id db.accesses {row = row} found
              ∙ put-own (mark_revoked at row) (registry_of db)),
        )
