-- ===== src/Issuer/Refresh.antt =====
-- What a refresh prepares, and what a save then makes of the state file.
use virtual_cloud_help_servi.Prelude.{
  suc, ◌+◌, ◌^◌, ◌<◌, ◌≡◌, inl, inr, refl, arith, Result, ok, err, ap, ◌∙◌,
}
use virtual_cloud_help_servi.Prelude.Text.{Text, text_eq_iff}
use virtual_cloud_help_servi.GoTime.{Instant}
use virtual_cloud_help_servi.Platform.{Platform}
use virtual_cloud_help_servi.CatalogFile.{CatalogFault}
use virtual_cloud_help_servi.Manifest.Types.{Catalog, Envelope, u64}
use virtual_cloud_help_servi.Manifest.Canonical.{catalog_digest}
use virtual_cloud_help_servi.Issuance.State.{IssuerState}
use virtual_cloud_help_servi.Issuance.FileStore.{Disk, save}
use virtual_cloud_help_servi.Issuance.FileStore.RoundTrip.{file_of, save-Replaced}
use virtual_cloud_help_servi.Issuer.{Issuer, Tick, check_durable, next_state, prepare}
use virtual_cloud_help_servi.Issuer.Invariant.{
  Durable, Advanced, Covered, Prepared, Restores, Restorable,
}

module _ (p : Platform) where
  -- What `prepare` has computed and checked.
  pub prepare-Prepared :
      (issuer : Issuer) (now : Instant) (loaded : Result CatalogFault Catalog) {envelope : Envelope}
      {next : IssuerState}
      → prepare p issuer now loaded ≡ ok (envelope, next)
      → Prepared p issuer now loaded envelope next
  unfolding prepare
  prepare-Prepared issuer now (err fault) h = absurd (ground arith)
  prepare-Prepared issuer now (ok catalog) h =
      let digest : (d : Text) × (catalog_digest p catalog ≡ ok d) = ground arith in
      record {
        catalog = catalog;
        digest = digest.0;
        was_loaded = refl;
        digest_is = digest.1;
        checked = ground (arith, digest.1);
        made = ground (arith, digest.1);
        next_is = ground (arith, digest.1);
      }

  next_version :
      (state : IssuerState) (catalog : Catalog) (digest : Text) (now : Instant)
      → state.last_version < 2 ^ 64
      → check_durable state catalog digest now ≡ ok tt
      → u64 (state.last_version + 1) ≡ suc state.last_version
  unfolding check_durable
  next_version state catalog digest now w h = ground arith

  -- A prepared state that is in the file has advanced.
  pub persisted :
      (issuer : Issuer) (now : Instant) (loaded : Result CatalogFault Catalog) (disk : Disk)
      {envelope : Envelope} {next : IssuerState}
      → issuer.state.last_version < 2 ^ 64
      → Prepared p issuer now loaded envelope next
      → Durable p disk next
      → Advanced p issuer.state disk next
  unfolding check_durable
  persisted issuer now loaded disk w q d =
      let v = next_version issuer.state q.catalog q.digest now w q.checked in
      record {
        version_is = ground (arith, q.next_is, v);
        revision = λ h. ground (arith, q.next_is, q.checked);
        catalog = λ h e.
            ground (arith, q.next_is, q.checked, text_eq_iff q.digest issuer.state.catalog_sha256);
        time = λ h. ground (arith, q.next_is, q.checked);
        durable = d;
      }

  -- A save keeps the issuer's version covered, also where it fails.
  pub save-Covered :
      (issuer : Issuer) (now : Instant) (tick : Tick) (disk : Disk) {envelope : Envelope}
      {next : IssuerState}
      → issuer.state.last_version < 2 ^ 64
      → Prepared p issuer now tick.loaded envelope next
      → Covered p disk issuer.state.last_version
      → Covered p (save p disk tick.calls issuer.config.state_path next).0 issuer.state.last_version
  save-Covered issuer now tick disk {envelope} {next} w q c =
      elim (save-Replaced p disk tick.calls issuer.config.state_path next).atomic [
        | inl same ↦ record {
          stored_state = c.stored_state;
          durable = record {
            contents = c.durable.contents;
            written = c.durable.written;
            stored = same ∙ c.durable.stored;
          };
          covers = c.covers;
        }
        | inr (contents, written, stored) ↦ record {
          stored_state = next;
          durable = record { contents = contents; written = written; stored = stored };
          covers = omega (
            arith,
            next_version issuer.state q.catalog q.digest now w q.checked,
            ap (λ (s : IssuerState). s.last_version) q.next_is,
          );
        }
      ]

  -- What a file holds that a prepared state was written to.
  pub written-Restorable :
      (issuer : Issuer) (now : Instant) (loaded : Result CatalogFault Catalog) (disk : Disk)
      {envelope : Envelope} {next : IssuerState}
      → Restores p issuer.config
      → Prepared p issuer now loaded envelope next
      → Durable p disk next
      → Restorable p disk next.last_version
  written-Restorable issuer now loaded disk restores q d =
      let v = u64 (issuer.state.last_version + 1) in
      record {
        stored_state = next_state issuer.config q.catalog q.digest v now;
        file = file_of d.contents;
        stored = d.stored;
        reads =
            restores q.catalog q.digest v now d.contents (omega arith) q.digest_is
              (rw q.next_is at d.written);
        word = omega arith;
        covers = omega (arith, ap (λ (s : IssuerState). s.last_version) q.next_is);
      }

  -- A save keeps the file readable, also where it fails.
  pub save-Restorable :
      (issuer : Issuer) (now : Instant) (tick : Tick) (disk : Disk) {envelope : Envelope}
      {next : IssuerState}
      → issuer.state.last_version < 2 ^ 64
      → Prepared p issuer now tick.loaded envelope next
      → Restores p issuer.config
      → (0 < issuer.state.last_version → Restorable p disk issuer.state.last_version)
      → 0 < issuer.state.last_version
      → Restorable p
          (save p disk tick.calls issuer.config.state_path next).0
          issuer.state.last_version
  save-Restorable issuer now tick disk {envelope} {next} w q restores c pos =
      elim (save-Replaced p disk tick.calls issuer.config.state_path next).atomic [
        | inl same ↦
            let old = c pos in
            record {
              stored_state = old.stored_state;
              file = old.file;
              stored = same ∙ old.stored;
              reads = old.reads;
              word = old.word;
              covers = old.covers;
            }
        | inr (contents, written, stored) ↦
            let d : Durable p (save p disk tick.calls issuer.config.state_path next).0 next =
              record { contents = contents; written = written; stored = stored } in
            let new = written-Restorable issuer now tick.loaded _ restores q d in
            record {
              stored_state = new.stored_state;
              file = new.file;
              stored = new.stored;
              reads = new.reads;
              word = new.word;
              covers = omega (
                arith,
                new.covers,
                next_version issuer.state q.catalog q.digest now w q.checked,
                ap (λ (s : IssuerState). s.last_version) q.next_is,
              );
            }
      ]
