-- ===== src/Issuer.antt =====
-- internal/service/issuer.go: the issuer that serves signed manifests from a cache. Its mutex makes
-- each method one step. The clock, the loaded catalog and the outcome of system calls are inputs.
pub mod Start
pub mod Lock
pub mod Invariant
pub mod Refresh
pub mod Steps
pub mod Issue
pub mod Run
pub mod Served
pub mod Restart
use virtual_cloud_help_servi.Prelude.{
  ℕ, ◌+◌, ◌*◌, min, Bool, true, false, not, ◌&&◌, Option, none, some, [], ltb, ◌==◌, if◌then◌else◌,
  Result, ok, err, reject, wrap, ◌>>=◌, ◌>>◌,
}
use virtual_cloud_help_servi.Prelude.Text.{Text, text_eq}
use virtual_cloud_help_servi.GoTime.{Instant, Duration, second, zero_instant, before, truncate}
use virtual_cloud_help_servi.Platform.{Platform}
use virtual_cloud_help_servi.CatalogFile.{CatalogFault}
use virtual_cloud_help_servi.Manifest.Types.{Catalog, Envelope, KeyPolicy, u64, max_u64}
use virtual_cloud_help_servi.Manifest.Fault.{Fault}
use virtual_cloud_help_servi.Manifest.Canonical.{catalog_digest}
use virtual_cloud_help_servi.Manifest.Envelope.{issue}
use virtual_cloud_help_servi.Issuance.State.{IssuerState, StoreFault}
use virtual_cloud_help_servi.Issuance.FileStore.{Disk, Calls, save}

pub data IssuerFault : Type 0 where
  private_key_invalid issuer_ttl_range cache_range lock_unavailable : IssuerFault
  policy_refused : Fault → IssuerFault
  load_state : StoreFault → IssuerFault
  legacy_key_refused : Fault → IssuerFault
  migrate_state : StoreFault → IssuerFault
  versions_exhausted durable_policy_rollback durable_policy_changed : IssuerFault
  durable_key_inconsistent durable_epoch_changed durable_epoch_not_advanced : IssuerFault
  key_refused : Fault → IssuerFault
  issuer_closed clock_backwards : IssuerFault
  load_catalog : CatalogFault → IssuerFault
  catalog_refused : Fault → IssuerFault
  catalog_rollback catalog_changed : IssuerFault
  sign_manifest : Fault → IssuerFault
  persist_state : StoreFault → IssuerFault

-- The fields of `Issuer` that never change.
pub record Config : Type 0 where
  pub state_path : Text
  pub ttl : Duration
  pub cache_for : Duration
  pub private_key : Text
  pub key_id : Text
  pub key_epoch : ℕ  -- uint64
  pub root_key : Text
  pub key_policy : KeyPolicy
  pub policy_sha : Text

pub record Issuer : Type 0 where
  pub config : Config
  pub state : IssuerState
  pub cached : Envelope
  pub cache_until : Instant
  pub valid_until : Instant
  pub retry_at : Instant
  pub last_error : Option IssuerFault
  pub closed : Bool

-- What the surroundings give to one call of `Issue`.
pub record Tick : Type 0 where
  pub now : Instant
  pub loaded : Result CatalogFault Catalog
  pub calls : Calls

-- `issuer.cached.Payload != ""`
abbrev pub has_cached : Issuer → Bool
has_cached issuer = not (text_eq issuer.cached.payload [])

-- The tests of `refresh` against the durable state, where there is one.
unfoldable pub check_durable :
    IssuerState → Catalog → Text → Instant → Result IssuerFault (Unit {0})
check_durable state catalog digest now =
    if ltb 0 state.last_version
    then (do
      reject (ltb catalog.revision state.catalog_revision) catalog_rollback
      reject
          (catalog.revision == state.catalog_revision && not (text_eq digest state.catalog_sha256))
          catalog_changed
      reject (before now state.last_issued_at) clock_backwards
      reject (state.last_version == max_u64) versions_exhausted)
    else ok tt

abbrev pub next_state : Config → Catalog → Text → ℕ → Instant → IssuerState
next_state config catalog digest version now = record {
  key_id = config.key_id;
  key_epoch = config.key_epoch;
  policy_version = config.key_policy.version;
  policy_sha256 = config.policy_sha;
  last_version = version;
  catalog_revision = catalog.revision;
  catalog_sha256 = digest;
  last_issued_at = now;
}

module _ (p : Platform) where
  -- `refresh` up to the save: the new envelope and the state to store.
  unfoldable pub prepare :
      Issuer → Instant → Result CatalogFault Catalog → Result IssuerFault (Envelope × IssuerState)
  prepare issuer now loaded = do
    catalog ← wrap load_catalog loaded
    digest ← wrap catalog_refused (catalog_digest p catalog)
    check_durable issuer.state catalog digest now
    let config = issuer.config
    let next_version = u64 (issuer.state.last_version + 1)
    envelope ← wrap sign_manifest (
        issue p catalog next_version config.key_policy config.root_key now config.ttl
          config.private_key)
    ok (envelope, next_state config catalog digest next_version now)

  -- The save, and the assignment of the new state after it.
  unfoldable pub persist :
      Disk → Issuer → Calls → Envelope → IssuerState → Disk × Issuer × Result IssuerFault Envelope
  persist disk issuer calls envelope next =
      let (after, saved) = save p disk calls issuer.config.state_path next in
      elim saved [
        | err fault ↦ (after, issuer, err (persist_state fault))
        | ok done ↦ (after, record issuer { state = next }, ok envelope)
      ]

  unfoldable pub refresh :
      Disk → Issuer → Instant → Tick → Disk × Issuer × Result IssuerFault Envelope
  refresh disk issuer now tick = elim (prepare issuer now tick.loaded) [
    | err fault ↦ (disk, issuer, err fault)
    | ok (envelope, next) ↦ persist disk issuer tick.calls envelope next
  ]

-- The part of `Issue` after a refresh that failed.
unfoldable pub after_failure :
    Instant → Disk → Issuer → IssuerFault → Disk × Issuer × Result IssuerFault Envelope
after_failure now disk issuer fault =
    let retry_at = now + min (5 * second) issuer.config.cache_for in
    if has_cached issuer && before now issuer.valid_until
    then (
      disk,
      record issuer {
        last_error = some fault;
        retry_at = retry_at;
        cache_until = min retry_at issuer.valid_until;
      },
      ok issuer.cached,
    )
    else (disk, record issuer { last_error = some fault; retry_at = retry_at }, err fault)

-- The part of `Issue` after a refresh that succeeded.
unfoldable pub after_success :
    Instant → Disk → Issuer → Envelope → Disk × Issuer × Result IssuerFault Envelope
after_success now disk issuer envelope = (
  disk,
  record issuer {
    last_error = none;
    retry_at = zero_instant;
    cached = envelope;
    cache_until = now + issuer.config.cache_for;
    valid_until = now + issuer.config.ttl;
  },
  ok envelope,
)

abbrev pub settle :
    Instant
    → Disk × Issuer × Result IssuerFault Envelope
    → Disk × Issuer × Result IssuerFault Envelope
settle now (disk, issuer, err fault) = after_failure now disk issuer fault
settle now (disk, issuer, ok envelope) = after_success now disk issuer envelope

module _ (p : Platform) where
  unfoldable pub attempt :
      Disk → Issuer → Instant → Tick → Disk × Issuer × Result IssuerFault Envelope
  attempt disk issuer now tick = settle now (refresh p disk issuer now tick)

  -- A recent failure is remembered until `retry_at`.
  unfoldable pub retry :
      Disk
      → Issuer
      → Instant
      → Tick
      → Option IssuerFault
      → Disk × Issuer × Result IssuerFault Envelope
  retry disk issuer now tick none = attempt disk issuer now tick
  retry disk issuer now tick (some fault) =
      if before now issuer.retry_at
      then (if has_cached issuer && before now issuer.valid_until
          then (disk, issuer, ok issuer.cached)
          else (disk, issuer, err fault))
      else attempt disk issuer now tick

  unfoldable pub issuer_issue : Disk → Issuer → Tick → Disk × Issuer × Result IssuerFault Envelope
  unfolding retry
  issuer_issue disk issuer tick =
      let now = truncate tick.now second in
      if issuer.closed
      then (disk, issuer, err issuer_closed)
      else if ltb 0 issuer.state.last_version && before now issuer.state.last_issued_at
      then (disk, issuer, err clock_backwards)
      else if has_cached issuer && before now issuer.cache_until
      then (disk, issuer, ok issuer.cached)
      else retry disk issuer now tick issuer.last_error
