-- ===== src/Issuer/Served.antt =====
-- What the clients make of the manifests that an issuer serves.
use virtual_cloud_help_servi.Prelude.{◌<◌, ◌≡◌, ◌⊎◌, ◌∙◌, inl, inr, sym, ap, List, arith, ok, All}
use virtual_cloud_help_servi.GoTime.{Instant, second, truncate}
use virtual_cloud_help_servi.Platform.{Platform, Laws, public_of}
use virtual_cloud_help_servi.Manifest.Types.{Document, Envelope, TrustedState}
use virtual_cloud_help_servi.Manifest.KeyPolicy.Ranges.{IsWord}
use virtual_cloud_help_servi.Manifest.Envelope.{issued_document, verify}
use virtual_cloud_help_servi.Manifest.Envelope.Encoded.{UniqueKeyId}
use virtual_cloud_help_servi.Manifest.Envelope.RoundTrip.{fresh_state, verify-issue_fresh}
use virtual_cloud_help_servi.Manifest.Envelope.Sequence.{
  Publication, IsPublished, document_of, verify-issue_next,
}
use virtual_cloud_help_servi.Issuance.FileStore.{Disk}
use virtual_cloud_help_servi.Issuer.{Config, Issuer, Tick, issuer_issue}
use virtual_cloud_help_servi.Issuer.Invariant.{Inv, Backed, Serves}
use virtual_cloud_help_servi.Issuer.Steps.{Backed-pos}
use virtual_cloud_help_servi.Issuer.Issue.{issuer_issue-Step}
use virtual_cloud_help_servi.Issuer.Run.{
  issuer_run, ReadableTick, Later, Later-trans, Step-Later, issuer_run-Ran,
}

module _ (p : Platform) where
  -- The manifest that a call served, as it reaches a client at the call's time in whole seconds.
  abbrev pub publication : (issuer : Issuer) → Backed p issuer → Instant → Publication
  publication issuer b arrival = record {
    catalog = b.catalog;
    version = issuer.state.last_version;
    key = issuer.config.private_key;
    now = issuer.state.last_issued_at;
    ttl = issuer.config.ttl;
    envelope = issuer.cached;
    arrival = arrival;
  }

  Serves-IsPublished :
      (config : Config) (issuer : Issuer) (now : Instant) (envelope : Envelope)
      → issuer.config ≡ config
      → UniqueKeyId p (public_of config.private_key)
      → (s : Serves p issuer now envelope)
      → IsPublished p config.key_policy config.root_key (publication issuer s.behind now)
  Serves-IsPublished config issuer now envelope same unique s = rw (← same) (record {
    unique = rw same unique;
    json = s.behind.readable issuer.state.last_version issuer.state.last_issued_at;
    issued = s.behind.made;
    early = omega (arith, s.begun);
    late = omega (arith, s.alive, s.behind.expiry, s.behind.whole_seconds);
  })

  -- What clients make of two served envelopes, the second served by a later issuer.
  Serves-verify :
      (laws : Laws p) (config : Config) (issuer later : Issuer) (now now' : Instant)
      (first next : Envelope)
      → UniqueKeyId p (public_of config.private_key)
      → All IsWord config.key_policy.keys
      → issuer.config ≡ config
      → later.config ≡ config
      → Later p issuer later
      → Serves p issuer now first
      → Serves p later now' next
      → (first ≡ next)
        ⊎ ((d e : Document) × (s t : TrustedState) × (verify p first config.root_key now fresh_state
              ≡ ok (d, s))
            × (verify p next config.root_key now' s ≡ ok (e, t))
            × (s.version < t.version))
  Serves-verify laws config issuer later now now' first next unique word c c' l s t =
      let split : (issuer.state.last_version < later.state.last_version)
          ⊎ (issuer.state.last_version ≡ later.state.last_version) =
        ground (arith, l.version) in
      elim split [
        | inl more ↦
            let begun = Backed-pos p issuer s.behind in
            let x = publication issuer s.behind now in
            let y = publication later t.behind now' in
            let (a, b, accepted, accepts, at, by) =
              verify-issue_next p laws config.key_policy config.root_key x y word
                (Serves-IsPublished config issuer now first c unique s)
                (Serves-IsPublished config later now' next c' unique t) more
                (omega (arith, l.time begun, s.behind.whole_seconds, t.behind.whole_seconds)) in
            inr (
              document_of config.key_policy x,
              document_of config.key_policy y,
              a,
              b,
              ap (λ (e : Envelope). verify p e config.root_key now fresh_state) (sym s.is_cached)
                  ∙ accepted,
              ap (λ (e : Envelope). verify p e config.root_key now' a) (sym t.is_cached) ∙ accepts,
              omega (arith, at, by, more),
            )
        | inr same ↦ inl (sym s.is_cached ∙ sym (l.same same).1 ∙ t.is_cached)
      ]

  module _ (laws : Laws p) (disk : Disk) (issuer : Issuer) (tick : Tick) (inv : Inv p issuer)
      (readable : ReadableTick p issuer.config tick)
      (unique : UniqueKeyId p (public_of issuer.config.private_key)) where
    -- Where the platform's laws hold, the signing key's id is unique and the documents of the loaded
    -- catalog survive JSON: an envelope that a call of a well-formed issuer returns, be it new or
    -- cached, a fresh client
    -- accepts at the call's time in whole seconds, and it then trusts the issuer's version.
    pub issuer_issue-verify :
        {envelope : Envelope}
        → (issuer_issue p disk issuer tick).2 ≡ ok envelope
        → (document : Document) × (trusted : TrustedState) × (trusted.version
            ≡ (issuer_issue p disk issuer tick).1.state.last_version)
          × (verify p envelope issuer.config.root_key (truncate tick.now second) fresh_state
              ≡ ok (document, trusted))
    issuer_issue-verify {envelope} h =
        let step = issuer_issue-Step p disk issuer tick inv readable in
        let s = step.served envelope h in
        let x =
          Serves-IsPublished issuer.config (issuer_issue p disk issuer tick).1
            (truncate tick.now second) envelope step.config_same unique s in
        let after = (issuer_issue p disk issuer tick).1 in
        let (trusted, version, accepted) =
          verify-issue_fresh p laws s.behind.catalog after.state.last_version
            issuer.config.key_policy issuer.config.root_key after.config.private_key
            after.state.last_issued_at (truncate tick.now second) after.config.ttl
            {envelope = after.cached} x.unique x.json x.issued x.early x.late in
        (
          issued_document s.behind.catalog after.state.last_version issuer.config.key_policy
              after.state.last_issued_at after.config.ttl,
          trusted,
          version,
          ap
                (λ (e : Envelope).
                  verify p e issuer.config.root_key (truncate tick.now second) fresh_state)
                (sym s.is_cached)
              ∙ accepted,
        )

    -- Under the same conditions, for every call's catalog, and for grants with 64-bit versions:
    -- two envelopes that calls of one well-formed issuer return, with any calls between, are the
    -- same, or the second has a later version, and the fresh client that accepts the first accepts
    -- the second after it.
    pub issuer_run-verify :
        (between : List Tick) (last : Tick) {first next : Envelope}
        → All IsWord issuer.config.key_policy.keys
        → All (ReadableTick p issuer.config) between
        → ReadableTick p issuer.config last
        → let out = issuer_issue p disk issuer tick in
          let ran = issuer_run p out.0 out.1 between in
          let final = issuer_issue p ran.0 ran.1 last in
          out.2 ≡ ok first
          → final.2 ≡ ok next
          → (first ≡ next)
            ⊎ ((d e : Document) × (s t : TrustedState) × (verify p first issuer.config.root_key
                    (truncate tick.now second)
                    fresh_state
                  ≡ ok (d, s))
                × (verify p next issuer.config.root_key (truncate last.now second) s ≡ ok (e, t))
                × (s.version < t.version))
    issuer_run-verify between last {first} {next} word steady final_readable a b =
        let out = issuer_issue p disk issuer tick in
        let ran = issuer_run p out.0 out.1 between in
        let final = issuer_issue p ran.0 ran.1 last in
        let one = issuer_issue-Step p disk issuer tick inv readable in
        let run = issuer_run-Ran p out.0 out.1 between one.inv (rw one.config_same steady) in
        let kept : ran.1.config ≡ issuer.config = run.later.config_same ∙ one.config_same in
        let two = issuer_issue-Step p ran.0 ran.1 last run.inv (rw kept final_readable) in
        Serves-verify laws issuer.config out.1 final.1 (truncate tick.now second)
          (truncate last.now second) first next unique word one.config_same (two.config_same ∙ kept)
          (Later-trans p run.later (Step-Later p two)) (one.served first a) (two.served next b)
