-- ===== src/Tests/Issuing.antt =====
-- An issuer that starts with no state file and issues two manifests; the call between them fails.
use virtual_cloud_help_servi.Prelude.{
  ℕ, ◌+◌, ◌*◌, ◌≡◌, ◌⊎◌, ◌<◌, inl, refl, true, false, none, some, [], ◌∷◌, arith, ok, err,
}
use virtual_cloud_help_servi.Prelude.Text.{bytes}
use virtual_cloud_help_servi.GoTime.{Instant, second, minute, hour, truncate}
use virtual_cloud_help_servi.Platform.{public_of}
use virtual_cloud_help_servi.CatalogFile.{open_catalog}
use virtual_cloud_help_servi.Manifest.Types.{Document, Envelope, TrustedState}
use virtual_cloud_help_servi.Manifest.Canonical.{catalog_digest, canonical_catalog}
use virtual_cloud_help_servi.Manifest.Envelope.{verify}
use virtual_cloud_help_servi.Manifest.Envelope.RoundTrip.{fresh_state}
use virtual_cloud_help_servi.Issuance.State.{IssuerState, no_state}
use virtual_cloud_help_servi.Issuance.FileStore.{
  Disk, Calls, check_directory, check_existing_directory, is_digest, is_legacy, check_policy_fields,
  validate_state, read_state_file, load, sync_replaced, write_and_rename, save_in, save,
}
use virtual_cloud_help_servi.Issuance.FileStore.RoundTrip.{
  StateRoundTrip, Replaced, save-Replaced, load-save,
}
use virtual_cloud_help_servi.Issuer.{
  Config, Issuer, Tick, check_durable, prepare, persist, refresh, after_failure, after_success,
  attempt, retry, issuer_issue,
}
use virtual_cloud_help_servi.Issuer.Invariant.{Inv}
use virtual_cloud_help_servi.Issuer.Run.{issuer_run, ReadableTick, Ran, issuer_run-Ran}
use virtual_cloud_help_servi.Issuer.Served.{issuer_issue-verify, issuer_run-verify}
use virtual_cloud_help_servi.Tests.Toy.{
  toy-Laws, toy-UniqueKeyId, toy_encode, toy_sha256, toy_sign, toy_state,
}
use virtual_cloud_help_servi.Tests.Manifests.{
  manifest_run, sample, sample_document, sample_policy, sample_catalog, root_public, key_a, start,
}
use virtual_cloud_help_servi.Tests.Signing.{sample-JsonRoundTrip}

abbrev pub all_well : Calls
all_well = record {
  stat_directory = true;
  open_file = true;
  stat_file = true;
  read_file = true;
  make_directory = true;
  create_file = true;
  chmod = true;
  write = true;
  written = 0;
  sync = true;
  close = true;
  rename = true;
  remove = true;
  open_parent = true;
  sync_parent = true;
}

abbrev pub empty_disk : Disk
empty_disk = record { file = none; directory = none; temporaries = [] }

abbrev pub sample_config : Config
sample_config = record {
  state_path = bytes "/var/lib/vchs/issuer-state.json";
  ttl = hour;
  cache_for = 30 * minute;
  private_key = key_a;
  key_id = toy_encode (toy_sha256 (public_of key_a));
  key_epoch = 1;
  root_key = root_public;
  key_policy = sample_policy;
  policy_sha = toy_encode (toy_sha256 (1 ∷ []));
}

abbrev pub sample_issuer : Issuer
sample_issuer = record {
  config = sample_config;
  state = no_state;
  cached = record { algorithm = []; key_id = []; payload = []; signature = [] };
  cache_until = start;
  valid_until = start;
  retry_at = start;
  last_error = none;
  closed = false;
}

abbrev pub tick_at : Instant → Tick
tick_at now = record { now = now; loaded = ok sample_catalog; calls = all_well }

abbrev no_catalog_at : Instant → Tick
no_catalog_at now = record { now = now; loaded = err open_catalog; calls = all_well }

abbrev pub envelope_of : ℕ → Instant → Envelope
envelope_of version time = record {
  algorithm = bytes "Ed25519";
  key_id = toy_encode (toy_sha256 (public_of key_a));
  payload = toy_encode (version ∷ time ∷ []);
  signature = toy_encode (toy_sign key_a (version ∷ time ∷ []));
}

-- Names all that a run of the issuer computes with.
unfoldable pub issuer_steps : Unit {0}
unfolding manifest_run canonical_catalog catalog_digest check_directory check_existing_directory
    is_digest is_legacy check_policy_fields validate_state read_state_file load sync_replaced
    write_and_rename save_in save check_durable prepare persist refresh after_failure after_success
    attempt retry issuer_issue issuer_run
issuer_steps = tt

first_issue :
    (issuer_issue sample empty_disk sample_issuer (tick_at start)).2 ≡ ok (envelope_of 1 start)
unfolding issuer_steps
first_issue = refl

abbrev between : Tick
between = no_catalog_at (start + 31 * minute)

abbrev last : Tick
last = tick_at (start + 40 * minute)

second_issue :
    let out = issuer_issue sample empty_disk sample_issuer (tick_at start) in
    let ran = issuer_run sample out.0 out.1 (between ∷ []) in
    (issuer_issue sample ran.0 ran.1 last).2 ≡ ok (envelope_of 2 (start + 40 * minute))
unfolding issuer_steps
second_issue = refl

pub sample-Inv : Inv sample sample_issuer
unfolding issuer_steps
sample-Inv = record { word = omega arith; sane = omega arith; backed = inl refl }

pub tick_at-ReadableTick : (now : Instant) → ReadableTick sample sample_config (tick_at now)
tick_at-ReadableTick now c e version time =
    let same : sample_catalog ≡ c = ground arith in rw (← same) (sample-JsonRoundTrip version time)

no_catalog_at-ReadableTick : (now : Instant) → ReadableTick sample sample_config (no_catalog_at now)
no_catalog_at-ReadableTick now c e = absurd (ground arith)

issuer_run-Ran_example :
    Ran sample empty_disk sample_issuer
      (issuer_run sample empty_disk sample_issuer (tick_at start ∷ between ∷ last ∷ []))
issuer_run-Ran_example =
    issuer_run-Ran sample empty_disk sample_issuer (tick_at start ∷ between ∷ last ∷ []) sample-Inv
      (
        tick_at-ReadableTick start,
        (
          no_catalog_at-ReadableTick (start + 31 * minute),
          (tick_at-ReadableTick (start + 40 * minute), tt),
        ),
      )

issuer_issue-verify_example :
    (document : Document) × (trusted : TrustedState) × (trusted.version
      ≡ (issuer_issue sample empty_disk sample_issuer (tick_at start)).1.state.last_version)
    × (verify sample (envelope_of 1 start) root_public (truncate start second) fresh_state
        ≡ ok (document, trusted))
issuer_issue-verify_example =
    issuer_issue-verify sample (toy-Laws sample_document) empty_disk sample_issuer (tick_at start)
      sample-Inv (tick_at-ReadableTick start)
      (toy-UniqueKeyId sample_document (public_of key_a) refl) first_issue

issuer_run-verify_example :
    (envelope_of 1 start ≡ envelope_of 2 (start + 40 * minute))
    ⊎ ((d e : Document) × (s t : TrustedState) × (verify sample
            (envelope_of 1 start)
            root_public
            (truncate start second)
            fresh_state
          ≡ ok (d, s))
        × (verify sample
              (envelope_of 2 (start + 40 * minute))
              root_public
              (truncate (start + 40 * minute) second)
              s
            ≡ ok (e, t))
        × (s.version < t.version))
issuer_run-verify_example =
    issuer_run-verify sample (toy-Laws sample_document) empty_disk sample_issuer (tick_at start)
      sample-Inv (tick_at-ReadableTick start)
      (toy-UniqueKeyId sample_document (public_of key_a) refl) (between ∷ []) last (omega arith)
      (no_catalog_at-ReadableTick (start + 31 * minute), tt)
      (tick_at-ReadableTick (start + 40 * minute)) first_issue second_issue

-- `IssuerState` in the form that the sample platform stores.
abbrev sample_state : IssuerState
sample_state = toy_state 1 1 start (toy_encode (toy_sha256 (1 ∷ [])))

abbrev refused_rename : Calls
refused_rename = record all_well { rename = false; remove = false }

save-Replaced_example :
    Replaced sample refused_rename empty_disk
      (save sample empty_disk refused_rename sample_config.state_path sample_state).0
      sample_state
      (save sample empty_disk refused_rename sample_config.state_path sample_state).1
save-Replaced_example =
    save-Replaced sample empty_disk refused_rename sample_config.state_path sample_state

sample_state-StateRoundTrip : StateRoundTrip sample sample_state
unfolding issuer_steps
sample_state-StateRoundTrip = record {
  read-write = λ contents e.
      let same : 1 ∷ 1 ∷ start ∷ toy_encode (toy_sha256 (1 ∷ [])) ≡ contents = ground arith in
      rw (← same) (omega arith, omega arith, refl);
}

saved : (save sample empty_disk all_well sample_config.state_path sample_state).1 ≡ ok tt
unfolding issuer_steps
saved = refl

load-save_example :
    load sample
      (save sample empty_disk all_well sample_config.state_path sample_state).0
      all_well
      sample_config.state_path
    ≡ ok (some sample_state)
load-save_example =
    load-save sample empty_disk all_well all_well sample_config.state_path sample_state
      sample_state-StateRoundTrip
      (record { stat_directory = refl; open_file = refl; stat_file = refl; read_file = refl }) saved
