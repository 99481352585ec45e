-- ===== src/Issuer/Invariant.antt =====
-- What holds of an issuer, and what one call of `Issue` may do and return.
use virtual_cloud_help_servi.Prelude.{
  ℕ, suc, ◌+◌, ◌^◌, ◌<◌, ◌≤◌, ◌≡◌, ◌⊎◌, false, some, arith, Result, ok,
}
use virtual_cloud_help_servi.Prelude.Text.{Text}
use virtual_cloud_help_servi.GoTime.{Instant, second, truncate}
use virtual_cloud_help_servi.Platform.{Platform, JsonRoundTrip}
use virtual_cloud_help_servi.CatalogFile.{CatalogFault}
use virtual_cloud_help_servi.Manifest.Types.{Catalog, Envelope, u64}
use virtual_cloud_help_servi.Manifest.KeyPolicy.{decode_strict}
use virtual_cloud_help_servi.Manifest.Canonical.{catalog_digest}
use virtual_cloud_help_servi.Manifest.Envelope.{issue, issued_document}
use virtual_cloud_help_servi.Issuance.State.{IssuerState}
use virtual_cloud_help_servi.Issuance.FileStore.{StateFile, Disk}
use virtual_cloud_help_servi.Issuance.FileStore.RoundTrip.{file_of}
use virtual_cloud_help_servi.Issuer.{
  IssuerFault, Config, Issuer, has_cached, check_durable, next_state,
}

-- `truncate` leaves whole seconds alone.
pub truncate_idem : (t : Instant) → truncate (truncate t second) second ≡ truncate t second
truncate_idem t = omega arith

module _ (p : Platform) where
  -- Every document issued from the catalog survives JSON.
  abbrev pub Readable : Config → Catalog → Type 0
  Readable config catalog =
      (version : ℕ) (now : Instant)
      → JsonRoundTrip p (issued_document catalog version config.key_policy now config.ttl)

  -- The cached envelope is the one of the durable state's version and time.
  pub record Backed (issuer : Issuer) : Type 0 where
    pub catalog : Catalog
    pub readable : Readable issuer.config catalog
    pub made :
        issue p catalog issuer.state.last_version issuer.config.key_policy issuer.config.root_key
          issuer.state.last_issued_at issuer.config.ttl issuer.config.private_key
        ≡ ok issuer.cached
    pub whole_seconds : truncate issuer.state.last_issued_at second ≡ issuer.state.last_issued_at
    pub expiry : issuer.valid_until ≡ issuer.state.last_issued_at + issuer.config.ttl
    pub cache : issuer.cache_until ≤ issuer.valid_until

  pub record Inv (issuer : Issuer) : Type 0 where
    pub word : issuer.state.last_version < 2 ^ 64
    pub sane : issuer.config.cache_for ≤ issuer.config.ttl
    pub backed : (has_cached issuer ≡ false) ⊎ Backed issuer

  -- The envelope is the cached one, and at `now` it has begun and has not expired.
  pub record Serves (issuer : Issuer) (now : Instant) (envelope : Envelope) : Type 0 where
    pub is_cached : issuer.cached ≡ envelope
    pub behind : Backed issuer
    pub begun : issuer.state.last_issued_at ≤ now
    pub alive : now < issuer.valid_until

  -- The stored file holds the whole state.
  pub record Durable (disk : Disk) (state : IssuerState) : Type 0 where
    pub contents : Text
    pub written : p.write_state state ≡ some contents
    pub stored : disk.file ≡ some (file_of contents)

  -- The state is the next version's, and it is in the file already.
  pub record Advanced (state : IssuerState) (disk : Disk) (next : IssuerState) : Type 0 where
    pub version_is : next.last_version ≡ suc state.last_version
    pub revision : 0 < state.last_version → state.catalog_revision ≤ next.catalog_revision
    pub catalog :
        0 < state.last_version
        → state.catalog_revision ≡ next.catalog_revision
        → next.catalog_sha256 ≡ state.catalog_sha256
    pub time : 0 < state.last_version → state.last_issued_at ≤ next.last_issued_at
    pub durable : Durable disk next

  -- The file holds a state of at least this version.
  pub record Covered (disk : Disk) (version : ℕ) : Type 0 where
    pub stored_state : IssuerState
    pub durable : Durable disk stored_state
    pub covers : version ≤ stored_state.last_version

  abbrev pub Safe : Disk → ℕ → Type 0
  Safe disk version = 0 < version → Covered disk version

  -- JSON restores the states that an issuer of this configuration stores, whose digest is that of
  -- their catalog.
  abbrev pub Restores : Config → Type 0
  Restores config =
      (catalog : Catalog) (digest : Text) (version : ℕ) (now : Instant) (contents : Text)
      → version < 2 ^ 64
      → catalog_digest p catalog ≡ ok digest
      → p.write_state (next_state config catalog digest version now) ≡ some contents
      → decode_strict p.read_state p.next_value contents
        ≡ some (next_state config catalog digest version now)

  -- The file can be read, and holds a state of at least this version.
  pub record Restorable (disk : Disk) (version : ℕ) : Type 0 where
    pub stored_state : IssuerState
    pub file : StateFile
    pub stored : disk.file ≡ some file
    pub reads : decode_strict p.read_state p.next_value file.contents ≡ some stored_state
    pub word : stored_state.last_version < 2 ^ 64
    pub covers : version ≤ stored_state.last_version

  abbrev pub Kept : Config → Disk → ℕ → Disk → ℕ → Type 0
  Kept config disk version after next =
      Restores config → (0 < version → Restorable disk version) → 0 < next → Restorable after next

  -- The state and the cached envelope are as they were, or the state has advanced.
  abbrev pub Progress : Issuer → Disk → Issuer → Type 0
  Progress issuer disk after =
      ((after.state ≡ issuer.state) × (after.cached ≡ issuer.cached))
      ⊎ Advanced issuer.state disk after.state

  pub record Step (disk : Disk) (issuer : Issuer) (now : Instant)
      (out : Disk × Issuer × Result IssuerFault Envelope) : Type 0 where
    pub config_same : out.1.config ≡ issuer.config
    pub inv : Inv out.1
    pub progress : Progress issuer out.0 out.1
    pub covered : Safe disk issuer.state.last_version → Safe out.0 out.1.state.last_version
    pub restorable :
        Kept issuer.config disk issuer.state.last_version out.0 out.1.state.last_version
    pub served : (envelope : Envelope) → out.2 ≡ ok envelope → Serves out.1 now envelope

  pub record Prepared (issuer : Issuer) (now : Instant) (loaded : Result CatalogFault Catalog)
      (envelope : Envelope) (next : IssuerState) : Type 0 where
    pub catalog : Catalog
    pub digest : Text
    pub was_loaded : loaded ≡ ok catalog
    pub digest_is : catalog_digest p catalog ≡ ok digest
    pub checked : check_durable issuer.state catalog digest now ≡ ok tt
    pub made :
        issue p catalog
          (u64 (issuer.state.last_version + 1))
          issuer.config.key_policy
          issuer.config.root_key
          now
          issuer.config.ttl
          issuer.config.private_key
        ≡ ok envelope
    pub next_is :
        next ≡ next_state issuer.config catalog digest (u64 (issuer.state.last_version + 1)) now
