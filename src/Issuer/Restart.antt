-- ===== src/Issuer/Restart.antt =====
-- An issuer that starts over the state file of an earlier one.
use virtual_cloud_help_servi.Prelude.{
  ℕ, ◌-◌, ◌^◌, ◌<◌, ◌≤◌, ◌≡◌, ◌∙◌, ◌⊎◌, inl, inr, refl, ap, ◌≢◌, false, true, Option, some, List,
  [], arith, length, Result, ok, err, All,
}
use virtual_cloud_help_servi.Prelude.Text.{Text, text_eq, text_eq_iff}
use virtual_cloud_help_servi.GoTime.{Instant, second, truncate}
use virtual_cloud_help_servi.Platform.{Platform, Laws}
use virtual_cloud_help_servi.Manifest.Types.{Envelope}
use virtual_cloud_help_servi.Manifest.KeyPolicy.{decode_strict, validate_key_policy}
use virtual_cloud_help_servi.Manifest.Envelope.Issued.{issue-Issued}
use virtual_cloud_help_servi.Issuance.State.{IssuerState}
use virtual_cloud_help_servi.Issuance.FileStore.{StateFile, Disk, Calls, load, read_state_file}
use virtual_cloud_help_servi.Issuer.{IssuerFault, Issuer, Tick, has_cached, issuer_issue}
use virtual_cloud_help_servi.Issuer.Start.{
  IssuerOptions, World, StartCalls, then_do, check_options, migrated, migrate, check_policy_of,
  current_grant, check_epoch_of, started, start_over, start_loaded, start_locked, new_issuer,
}
use virtual_cloud_help_servi.Issuer.Invariant.{Inv, Restores, Restorable, Serves}
use virtual_cloud_help_servi.Issuer.Issue.{issuer_issue-Step}
use virtual_cloud_help_servi.Issuer.Run.{
  issuer_run, ReadableTick, Later-trans, Step-Later, issuer_run-Ran,
}

lt_or_eq : (a b : ℕ) → a ≤ b → (a < b) ⊎ (a ≡ b)
lt_or_eq a b h = ground arith

then_do-ok :
    {A B : Type 0} (out : World × Result IssuerFault A)
    (next : World → A → World × Result IssuerFault B) {b : B}
    → (then_do out next).1 ≡ ok b
    → (a : A) × (out.1 ≡ ok a) × ((next out.0 a).1 ≡ ok b)
unfolding then_do
then_do-ok (world, err fault) next h = absurd (ground arith)
then_do-ok (world, ok a) next h = (a, refl, h)

module _ (p : Platform) where
  -- What `Load` finds is what the file reads as.
  load-read :
      (disk : Disk) (calls : Calls) (path : Text) (file : StateFile) (state : IssuerState)
      {found : Option IssuerState}
      → disk.file ≡ some file
      → decode_strict p.read_state p.next_value file.contents ≡ some state
      → load p disk calls path ≡ ok found
      → found ≡ some state
  unfolding load read_state_file
  load-read disk calls path file state h r e = ground (arith, h, r)

  module _ (options : IssuerOptions) where
    migrate-version :
        (world : World) (calls : Calls) (digest : Text) (state : IssuerState) {next : IssuerState}
        → (migrate p options world calls digest state).1 ≡ ok next
        → next.last_version ≡ state.last_version
    unfolding migrate migrated
    migrate-version world calls digest state h = ground arith

    -- The new issuer has cached nothing, and its lifetimes are in order.
    record Fresh (state : IssuerState) (issuer : Issuer) : Type 0 where
      state_is : issuer.state ≡ state
      nothing_cached : has_cached issuer ≡ false
      sane : issuer.config.cache_for ≤ issuer.config.ttl
      not_last : state.last_version ≢ 2 ^ 64 - 1

    start_over-Fresh :
        (world : World) (digest : Text) (state : IssuerState) {issuer : Issuer}
        → check_options p options ≡ ok digest
        → (start_over p options world digest (some state)).1 ≡ ok issuer
        → Fresh state issuer
    unfolding start_over check_options check_policy_of started
    start_over-Fresh world digest state {issuer} o h =
        let (n, policy, h) = then_do-ok (check_policy_of p options world digest state) _ h in
        let (granted, grant, h) = then_do-ok (current_grant p options _ n) _ h in
        let (checked, epoch, h) = then_do-ok (check_epoch_of p options _ _ _ state) _ h in
        let is : started p options digest granted.0.epoch state ≡ issuer = ground (arith, h) in
        let d : (d : Text) × (validate_key_policy p options.key_policy options.root_key ≡ ok d) =
          ground arith in
        rw (← is) (record {
          state_is = refl;
          nothing_cached = unfold text_eq in refl;
          sane = ground (arith, d.1);
          not_last = ground (arith, policy);
        })

    start_loaded-Fresh :
        (world : World) (calls : Calls) (digest : Text) (state : IssuerState) {issuer : Issuer}
        → check_options p options ≡ ok digest
        → (start_loaded p options world calls digest (some state)).1 ≡ ok issuer
        → (current : IssuerState) × (current.last_version ≡ state.last_version)
          × Fresh current issuer
    unfolding start_loaded
    start_loaded-Fresh world calls digest state {issuer} o h =
        let (current, found, h) = then_do-ok (migrate p options world calls digest state) _ h in
        (
          current,
          migrate-version world calls digest state {next = current} found,
          start_over-Fresh _ digest current {issuer = issuer} o h,
        )

    new_issuer-Fresh :
        (world : World) (calls : StartCalls) (file : StateFile) (state : IssuerState)
        {issuer : Issuer}
        → world.disk.file ≡ some file
        → decode_strict p.read_state p.next_value file.contents ≡ some state
        → (new_issuer p options world calls).1 ≡ ok issuer
        → (current : IssuerState) × (current.last_version ≡ state.last_version)
          × Fresh current issuer
    unfolding new_issuer start_locked
    new_issuer-Fresh world calls file state {issuer} f r h =
        let o : (digest : Text) × (check_options p options ≡ ok digest) = ground arith in
        let l : (found : Option IssuerState) × (load p world.disk calls.load_calls
                options.state_path
              ≡ ok found) =
          ground (arith, o.1) in
        let same =
          load-read world.disk calls.load_calls options.state_path file state {found = l.0} f r
            l.1 in
        start_loaded-Fresh (record world { locked = true }) calls.save_calls o.0 state
          {issuer = issuer} o.1 (ground (arith, o.1, l.1, same))

  served-has_cached :
      (laws : Laws p) (issuer : Issuer) (now : Instant) (envelope : Envelope)
      → Serves p issuer now envelope
      → has_cached issuer ≡ true
  served-has_cached laws issuer now envelope s =
      let b = s.behind in
      let i =
        issue-Issued p b.catalog issuer.state.last_version issuer.config.key_policy
          issuer.config.root_key issuer.state.last_issued_at issuer.config.ttl
          issuer.config.private_key {envelope = issuer.cached} b.made in
      let json =
        (b.readable issuer.state.last_version issuer.state.last_issued_at).read-marshal i.payload
          i.encoded in
      let sealed : issuer.cached.payload ≡ p.encode64 i.payload =
        ap (λ (e : Envelope). e.payload) i.sealed in
      let long : 0 < length issuer.cached.payload =
        omega (arith, ap (λ (t : Text). length t) sealed, laws.length-encode i.payload, json.0) in
      ground (arith, text_eq_iff issuer.cached.payload [], long)

  module _ (laws : Laws p) (disk : Disk) (issuer : Issuer) (ticks : List Tick) (inv : Inv p issuer)
      (readable : All (ReadableTick p issuer.config) ticks) (restores : Restores p issuer.config)
      (restorable : 0 < issuer.state.last_version
        → Restorable p disk issuer.state.last_version) where
    -- Where the platform's laws hold and JSON restores the issuer's states and documents: after
    -- any calls of a well-formed issuer that have issued some version, an issuer that starts over
    -- what is at the same state path, with whatever other options, serves later versions only.
    pub new_issuer-later :
        (options : IssuerOptions) (calls : StartCalls) (more : List Tick) (last : Tick)
        {next : Issuer} {envelope : Envelope}
        → let ran = issuer_run p disk issuer ticks in
          let began = new_issuer p options (record { disk = ran.0; locked = false }) calls in
          let again = issuer_run p began.0.disk next more in
          let final = issuer_issue p again.0 again.1 last in
          0 < ran.1.state.last_version
          → options.state_path ≡ issuer.config.state_path
          → began.1 ≡ ok next
          → All (ReadableTick p next.config) more
          → ReadableTick p next.config last
          → final.2 ≡ ok envelope
          → ran.1.state.last_version < final.1.state.last_version
    new_issuer-later options calls more last {next} {envelope} issued same_path began readable_more
          readable_last served =
        let ran = issuer_run p disk issuer ticks in
        let world : World = record { disk = ran.0; locked = false } in
        let kept =
          (issuer_run-Ran p disk issuer ticks inv readable).restorable restores restorable issued in
        let (current, version, fresh) =
          new_issuer-Fresh options world calls kept.file kept.stored_state {issuer = next}
            kept.stored kept.reads began in
        let same_version : next.state.last_version ≡ kept.stored_state.last_version =
          ap (λ (s : IssuerState). s.last_version) fresh.state_is ∙ version in
        let inv' : Inv p next = record {
          word = omega (arith, kept.word, same_version);
          sane = fresh.sane;
          backed = inl fresh.nothing_cached;
        } in
        let again = issuer_run p (new_issuer p options world calls).0.disk next more in
        let run =
          issuer_run-Ran p (new_issuer p options world calls).0.disk next more inv' readable_more in
        let step =
          issuer_issue-Step p again.0 again.1 last run.inv
            (rw run.later.config_same readable_last) in
        let later = Later-trans p run.later (Step-Later p step) in
        let final = issuer_issue p again.0 again.1 last in
        let cached =
          served-has_cached laws final.1 (truncate last.now second) envelope
            (step.served envelope served) in
        elim (lt_or_eq next.state.last_version final.1.state.last_version later.version) [
          | inl more_recent ↦ omega (arith, kept.covers, same_version)
          | inr same ↦ absurd (ground (arith, fresh.nothing_cached, cached, (later.same same).1))
        ]
