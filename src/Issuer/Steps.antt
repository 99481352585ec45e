-- ===== src/Issuer/Steps.antt =====
-- One call of `Issue`: what it does to the issuer, branch by branch.
use virtual_cloud_help_servi.Prelude.{
  ◌+◌, ◌*◌, min, ◌<◌, ◌≤◌, ◌≡◌, ◌⊎◌, inl, inr, refl, Bool-cases, false, ◌&&◌, Option, some, arith,
  Result, ok, err, ap,
}
use virtual_cloud_help_servi.GoTime.{Instant, second, minute, truncate, before}
use virtual_cloud_help_servi.Platform.{Platform}
use virtual_cloud_help_servi.CatalogFile.{CatalogFault}
use virtual_cloud_help_servi.Manifest.Types.{Catalog, Envelope, u64}
use virtual_cloud_help_servi.Manifest.Validate.{max_manifest_life}
use virtual_cloud_help_servi.Manifest.Envelope.Issued.{issue-Issued}
use virtual_cloud_help_servi.Issuance.State.{IssuerState}
use virtual_cloud_help_servi.Issuance.FileStore.{Disk}
use virtual_cloud_help_servi.Issuer.{IssuerFault, Issuer, has_cached, after_failure, after_success}
use virtual_cloud_help_servi.Issuer.Invariant.{
  Readable, Backed, Inv, Durable, Safe, Kept, Step, Prepared,
}
use virtual_cloud_help_servi.Issuer.Refresh.{persisted, written-Restorable}

module _ (p : Platform) where
  Backed-cache :
      (issuer : Issuer) (last : Option IssuerFault) (retry_at until : Instant)
      → Backed p issuer
      → until ≤ issuer.valid_until
      → Backed p (record issuer { last_error = last; retry_at = retry_at; cache_until = until })
  Backed-cache issuer last retry_at until b h = record {
    catalog = b.catalog;
    readable = b.readable;
    made = b.made;
    whole_seconds = b.whole_seconds;
    expiry = b.expiry;
    cache = h;
  }

  pub Backed-pos : (issuer : Issuer) → Backed p issuer → 0 < issuer.state.last_version
  Backed-pos issuer b =
      (issue-Issued p b.catalog issuer.state.last_version issuer.config.key_policy
        issuer.config.root_key issuer.state.last_issued_at issuer.config.ttl
        issuer.config.private_key {envelope = issuer.cached} b.made).version_pos

  -- The issuer is as it was, and its error is returned.
  pub refused-Step :
      (issuer : Issuer) (now : Instant) (disk : Disk) (fault : IssuerFault)
      → Inv p issuer
      → Step p disk issuer now (disk, issuer, err fault)
  refused-Step issuer now disk fault inv = record {
    config_same = refl;
    inv = inv;
    progress = inl (refl, refl);
    covered = λ c. c;
    restorable = λ r c. c;
    served = λ e h. absurd (ground arith);
  }

  -- The issuer is as it was, and it serves its cached envelope.
  pub cached-Step :
      (issuer : Issuer) (now : Instant) (disk : Disk)
      → Inv p issuer
      → Backed p issuer
      → (0 < issuer.state.last_version → issuer.state.last_issued_at ≤ now)
      → now < issuer.valid_until
      → Step p disk issuer now (disk, issuer, ok issuer.cached)
  cached-Step issuer now disk inv b clock alive = record {
    config_same = refl;
    inv = inv;
    progress = inl (refl, refl);
    covered = λ c. c;
    restorable = λ r c. c;
    served = λ e h. record {
      is_cached = cc h;
      behind = b;
      begun = clock (Backed-pos issuer b);
      alive = alive;
    };
  }

  -- A failed refresh that may have replaced the file.
  pub after_failure-Step :
      (issuer : Issuer) (now : Instant) (disk after : Disk) (fault : IssuerFault)
      → Inv p issuer
      → (0 < issuer.state.last_version → issuer.state.last_issued_at ≤ now)
      → (Safe p disk issuer.state.last_version → Safe p after issuer.state.last_version)
      → Kept p issuer.config disk issuer.state.last_version after issuer.state.last_version
      → Step p disk issuer now (after_failure now after issuer fault)
  unfolding after_failure
  after_failure-Step issuer now disk after fault inv clock cover keep = elim inv.backed [
    | inl e ↦
        let same : (has_cached issuer && before now issuer.valid_until) ≡ false = ground arith in
        rw same (refusal (inl e))
    | inr b ↦ elim (Bool-cases (has_cached issuer && before now issuer.valid_until)) [
      | inl e ↦
          let retry_at = now + min (5 * second) issuer.config.cache_for in
          let until = min retry_at issuer.valid_until in
          let b' = Backed-cache issuer (some fault) retry_at until b (omega arith) in
          let s =
            cached-Step
              (record issuer { last_error = some fault; retry_at = retry_at; cache_until = until })
              now after (record { word = inv.word; sane = inv.sane; backed = inr b' }) b' clock
              (ground arith) in
          rw e (record {
            config_same = refl;
            inv = s.inv;
            progress = inl (refl, refl);
            covered = cover;
            restorable = keep;
            served = s.served;
          })
      | inr e ↦ rw e (
          refusal (
            inr (
              Backed-cache issuer (some fault) (now + min (5 * second) issuer.config.cache_for)
                issuer.cache_until b b.cache)))
    ]
  ]
    where
      refusal :
          let failed = record issuer {
            last_error = some fault;
            retry_at = now + min (5 * second) issuer.config.cache_for;
          } in
          ((has_cached issuer ≡ false) ⊎ Backed p failed)
          → Step p disk issuer now (after, failed, err fault)
      refusal b = record {
        config_same = refl;
        inv = record { word = inv.word; sane = inv.sane; backed = b };
        progress = inl (refl, refl);
        covered = cover;
        restorable = keep;
        served = λ e h. absurd (ground arith);
      }

  pub after_success-Step :
      (issuer : Issuer) (now : Instant) (disk after : Disk) (next : IssuerState)
      (loaded : Result CatalogFault Catalog) (envelope : Envelope)
      → Inv p issuer
      → truncate now second ≡ now
      → ((c : Catalog) → loaded ≡ ok c → Readable p issuer.config c)
      → Prepared p issuer now loaded envelope next
      → Durable p after next
      → Step p disk issuer now (after_success now after (record issuer { state = next }) envelope)
  unfolding after_success
  after_success-Step issuer now disk after next loaded envelope inv whole readable q d =
      let a = persisted p issuer now loaded after inv.word q d in
      let at_time : next.last_issued_at ≡ now =
        ap (λ (s : IssuerState). s.last_issued_at) q.next_is in
      let at_version : next.last_version ≡ u64 (issuer.state.last_version + 1) =
        ap (λ (s : IssuerState). s.last_version) q.next_is in
      let b : Backed p (after_success now after (record issuer { state = next }) envelope).1 =
        record {
          catalog = q.catalog;
          readable = readable q.catalog q.was_loaded;
          made = rw (at_time, at_version) q.made;
          whole_seconds = rw at_time whole;
          expiry = rw at_time refl;
          cache = omega (arith, inv.sane);
        } in
      record {
        config_same = refl;
        inv = record { word = omega (arith, at_version); sane = inv.sane; backed = inr b };
        progress = inr a;
        covered = λ c h. record { stored_state = next; durable = d; covers = omega arith };
        restorable = λ r c h. written-Restorable p issuer now loaded after r q d;
        served = λ e h. record {
          is_cached = cc h;
          behind = b;
          begun = omega (arith, at_time);
          alive =
              alive_at
                (issue-Issued p q.catalog (u64 (issuer.state.last_version + 1))
                  issuer.config.key_policy issuer.config.root_key now issuer.config.ttl
                  issuer.config.private_key {envelope = envelope} q.made).ttl_bounds;
        };
      }
    where
      alive_at :
          (minute ≤ issuer.config.ttl) × (issuer.config.ttl ≤ max_manifest_life)
          → now < now + issuer.config.ttl
      alive_at t = omega arith
