-- ===== src/Issuer/Run.antt =====
-- Sequences of calls of `Issue`: versions, times, and what the state file holds.
use virtual_cloud_help_servi.Prelude.{
  ◌<◌, ◌≤◌, ◌≡◌, ◌∙◌, inl, inr, refl, ap, List, [], ◌∷◌, arith, Result, ok, All,
}
use virtual_cloud_help_servi.GoTime.{Instant}
use virtual_cloud_help_servi.Platform.{Platform}
use virtual_cloud_help_servi.Manifest.Types.{Catalog, Envelope}
use virtual_cloud_help_servi.Issuance.State.{IssuerState}
use virtual_cloud_help_servi.Issuance.FileStore.{Disk}
use virtual_cloud_help_servi.Issuer.{IssuerFault, Config, Issuer, Tick, issuer_issue}
use virtual_cloud_help_servi.Issuer.Invariant.{Readable, Inv, Safe, Kept, Step}
use virtual_cloud_help_servi.Issuer.Issue.{issuer_issue-Step}

-- The issuer and its disk after a sequence of calls.
unfoldable pub issuer_run : Platform → Disk → Issuer → List Tick → Disk × Issuer
issuer_run p disk issuer [] = (disk, issuer)
issuer_run p disk issuer (tick ∷ ticks) =
    let (after, next, result) = issuer_issue p disk issuer tick in issuer_run p after next ticks

module _ (p : Platform) where
  -- Each catalog that the calls load makes documents that survive JSON.
  abbrev pub ReadableTick : Config → Tick → Type 0
  ReadableTick config tick = (c : Catalog) → tick.loaded ≡ ok c → Readable p config c

  -- The later issuer has a larger version, no earlier time and no older catalog; or nothing has
  -- changed of what it issues.
  pub record Later (issuer later : Issuer) : Type 0 where
    pub config_same : later.config ≡ issuer.config
    pub version : issuer.state.last_version ≤ later.state.last_version
    pub revision :
        0 < issuer.state.last_version → issuer.state.catalog_revision ≤ later.state.catalog_revision
    pub time :
        0 < issuer.state.last_version → issuer.state.last_issued_at ≤ later.state.last_issued_at
    pub same :
        issuer.state.last_version ≡ later.state.last_version
        → (later.state ≡ issuer.state) × (later.cached ≡ issuer.cached)

  Later-refl : (issuer : Issuer) → Later issuer issuer
  Later-refl issuer = record {
    config_same = refl;
    version = omega arith;
    revision = λ h. omega arith;
    time = λ h. omega arith;
    same = λ e. (refl, refl);
  }

  pub Later-trans : {i j k : Issuer} → Later i j → Later j k → Later i k
  Later-trans {i} {j} {k} a b = record {
    config_same = b.config_same ∙ a.config_same;
    version = omega (arith, a.version, b.version);
    revision = λ h. omega (arith, a.version, a.revision h, b.revision (omega (arith, a.version)));
    time = λ h. omega (arith, a.version, a.time h, b.time (omega (arith, a.version)));
    same = λ e.
        let (s, c) = a.same (omega (arith, a.version, b.version)) in
        let (t, d) = b.same (omega (arith, a.version, b.version)) in (t ∙ s, d ∙ c);
  }

  pub Step-Later :
      {disk : Disk} {issuer : Issuer} {now : Instant}
      {out : Disk × Issuer × Result IssuerFault Envelope}
      → Step p disk issuer now out
      → Later issuer out.1
  Step-Later {disk} {issuer} {now} {out} s = elim s.progress [
    | inl (e, c) ↦ record {
      config_same = s.config_same;
      version = omega (arith, ap (λ (x : IssuerState). x.last_version) e);
      revision = λ h. omega (arith, ap (λ (x : IssuerState). x.catalog_revision) e);
      time = λ h. omega (arith, ap (λ (x : IssuerState). x.last_issued_at) e);
      same = λ h. (e, c);
    }
    | inr a ↦ record {
      config_same = s.config_same;
      version = omega (arith, a.version_is);
      revision = a.revision;
      time = a.time;
      same = λ h. absurd (omega (arith, a.version_is));
    }
  ]

  -- What any sequence of calls keeps.
  pub record Ran (disk : Disk) (issuer : Issuer) (out : Disk × Issuer) : Type 0 where
    pub later : Later issuer out.1
    pub inv : Inv p out.1
    pub covered : Safe p disk issuer.state.last_version → Safe p out.0 out.1.state.last_version
    pub restorable :
        Kept p issuer.config disk issuer.state.last_version out.0 out.1.state.last_version

  -- Along any sequence of calls of a well-formed issuer, whichever system calls fail: the version
  -- never decreases, and once there is one, neither do the catalog's revision and the time; while
  -- the version stays, so do the state and the cached envelope; and where the state file holds at
  -- least the issuer's version before, it does so after.
  pub issuer_run-Ran :
      (disk : Disk) (issuer : Issuer) (ticks : List Tick)
      → Inv p issuer
      → All (ReadableTick issuer.config) ticks
      → Ran disk issuer (issuer_run p disk issuer ticks)
  unfolding issuer_run
  issuer_run-Ran disk issuer [] inv readable = record {
    later = Later-refl issuer;
    inv = inv;
    covered = λ c. c;
    restorable = λ r c. c;
  }
  issuer_run-Ran disk issuer (tick ∷ ticks) inv (now, rest) =
      let s = issuer_issue-Step p disk issuer tick inv now in
      let out = issuer_issue p disk issuer tick in
      let r = issuer_run-Ran out.0 out.1 ticks s.inv (rw s.config_same rest) in
      record {
        later = Later-trans (Step-Later s) r.later;
        inv = r.inv;
        covered = λ c. r.covered (s.covered c);
        restorable = λ h c. r.restorable (rw s.config_same h) (s.restorable h c);
      }
