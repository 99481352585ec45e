-- ===== src/Tests/Starting.antt =====
-- Starting an issuer where there is no state file.
use virtual_cloud_help_servi.Prelude.{
  ◌+◌, ◌<◌, ◌≡◌, refl, true, false, [], ◌∷◌, Result, ok, err, arith,
}
use virtual_cloud_help_servi.GoTime.{zero_instant, minute}
use virtual_cloud_help_servi.Issuance.FileStore.{Disk}
use virtual_cloud_help_servi.Issuer.Invariant.{Restores}
use virtual_cloud_help_servi.Issuer.Run.{issuer_run}
use virtual_cloud_help_servi.Issuer.Restart.{new_issuer-later}
use virtual_cloud_help_servi.Tests.Toy.{toy-Laws}
use virtual_cloud_help_servi.Issuer.{IssuerFault, Issuer, issuer_issue}
use virtual_cloud_help_servi.Issuer.Start.{
  IssuerOptions, World, StartCalls, check_options, migrated, migrate, same_epoch, check_policy_of,
  check_epoch_of, current_grant, then_do, start_over, start_loaded, start_locked, started,
  new_issuer, close,
}
use virtual_cloud_help_servi.Issuer.Lock.{new_issuer-lock}
use virtual_cloud_help_servi.Tests.Manifests.{sample, sample_document, start}
use virtual_cloud_help_servi.Tests.Issuing.{
  all_well, empty_disk, sample_config, sample_issuer, issuer_steps, tick_at, envelope_of,
  sample-Inv, tick_at-ReadableTick,
}

abbrev sample_options : IssuerOptions
sample_options = record {
  state_path = sample_config.state_path;
  ttl = sample_config.ttl;
  cache_for = sample_config.cache_for;
  private_key = sample_config.private_key;
  root_key = sample_config.root_key;
  key_policy = sample_config.key_policy;
}

abbrev unlocked : World
unlocked = record { disk = empty_disk; locked = false }

abbrev start_calls : StartCalls
start_calls = record { lock_free = true; load_calls = all_well; save_calls = all_well }

-- A start with no state file gives an issuer with nothing cached.
starts :
    (new_issuer sample sample_options unlocked start_calls).1
    ≡ ok (record sample_issuer {
      cache_until = zero_instant;
      valid_until = zero_instant;
      retry_at = zero_instant;
    })
unfolding issuer_steps check_options started current_grant then_do start_over start_loaded
    start_locked new_issuer
starts = refl

new_issuer-lock_example :
    ((fault : IssuerFault)
      → (new_issuer sample sample_options unlocked start_calls).1 ≡ err fault
      → (new_issuer sample sample_options unlocked start_calls).0.locked ≡ false)
    × ((issuer : Issuer)
        → (new_issuer sample sample_options unlocked start_calls).1 ≡ ok issuer
        → (start_calls.lock_free ≡ true)
          × ((new_issuer sample sample_options unlocked start_calls).0.locked ≡ true)
          × ((close (new_issuer sample sample_options unlocked start_calls).0 issuer).0.locked
              ≡ false))
new_issuer-lock_example = new_issuer-lock sample sample_options unlocked start_calls refl

sample-Restores : Restores sample sample_config
unfolding issuer_steps
sample-Restores catalog digest version now contents word is_digest e =
    let same : version ∷ catalog.revision ∷ now ∷ digest ≡ contents = ground arith in rw (← same)

abbrev first_run : Disk × Issuer
first_run = issuer_run sample empty_disk sample_issuer (tick_at start ∷ [])

abbrev second_start : World × Result IssuerFault Issuer
second_start =
    new_issuer sample sample_options (record { disk = first_run.0; locked = false }) start_calls

-- The issuer of the second start: it has the state of version 1, and nothing cached.
abbrev second_issuer : Issuer
second_issuer = record sample_issuer {
  state = first_run.1.state;
  cache_until = zero_instant;
  valid_until = zero_instant;
  retry_at = zero_instant;
}

starts_again : second_start.1 ≡ ok second_issuer
unfolding issuer_steps check_options migrated migrate same_epoch check_policy_of check_epoch_of
    current_grant then_do started start_over start_loaded start_locked new_issuer
starts_again = refl

abbrev second_run : Disk × Issuer
second_run = issuer_run sample second_start.0.disk second_issuer []

serves_again :
    (issuer_issue sample second_run.0 second_run.1 (tick_at (start + minute))).2
    ≡ ok (envelope_of 2 (start + minute))
unfolding issuer_steps check_options migrated migrate same_epoch check_policy_of check_epoch_of
    current_grant then_do started start_over start_loaded start_locked new_issuer
serves_again = refl

issued_before : 0 < first_run.1.state.last_version
unfolding issuer_steps
issued_before = omega arith

new_issuer-later_example :
    first_run.1.state.last_version
    < (issuer_issue sample second_run.0 second_run.1
        (tick_at (start + minute))).1.state.last_version
new_issuer-later_example =
    new_issuer-later sample (toy-Laws sample_document) empty_disk sample_issuer (tick_at start ∷ [])
      sample-Inv (tick_at-ReadableTick start, tt) sample-Restores (λ h. absurd (omega arith))
      sample_options start_calls [] (tick_at (start + minute)) {next = second_issuer}
      {envelope = envelope_of 2 (start + minute)} issued_before refl starts_again tt
      (tick_at-ReadableTick (start + minute)) serves_again
