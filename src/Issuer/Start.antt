-- ===== src/Issuer/Start.antt =====
-- `NewIssuer` and `Close` of internal/service/issuer.go: the start of an issuer over the state file
-- that an earlier process left, under the process lock.
use virtual_cloud_help_servi.Prelude.{
  ℕ, ◌+◌, ◌/◌, Bool, true, false, not, ◌&&◌, ◌||◌, Option, none, some, [], ltb, leb, ◌==◌, length,
  if◌then◌else◌, Result, ok, err, reject, wrap, ◌>>=◌, ◌>>◌,
}
use virtual_cloud_help_servi.Prelude.Text.{Text, text_eq}
use virtual_cloud_help_servi.GoTime.{Duration, second, minute, hour, zero_instant}
use virtual_cloud_help_servi.Platform.{Platform, public_of}
use virtual_cloud_help_servi.Manifest.Types.{KeyGrant, KeyPolicy, u64, max_u64}
use virtual_cloud_help_servi.Manifest.Fault.{Fault}
use virtual_cloud_help_servi.Manifest.KeyPolicy.{validate_key_policy, key_policy_grant, key_id_of}
use virtual_cloud_help_servi.Issuance.State.{IssuerState, no_state}
use virtual_cloud_help_servi.Issuance.FileStore.{Disk, Calls, load, save}
use virtual_cloud_help_servi.Issuer.{
  IssuerFault, Issuer, private_key_invalid, issuer_ttl_range, cache_range, lock_unavailable,
  policy_refused, load_state, legacy_key_refused, migrate_state, versions_exhausted,
  durable_policy_rollback, durable_policy_changed, durable_key_inconsistent, durable_epoch_changed,
  durable_epoch_not_advanced, key_refused,
}

pub record IssuerOptions : Type 0 where
  pub state_path : Text
  pub ttl : Duration
  pub cache_for : Duration
  pub private_key : Text
  pub root_key : Text
  pub key_policy : KeyPolicy

-- The disk at one state path, and whether this process holds the lock of that path.
pub record World : Type 0 where
  pub disk : Disk
  pub locked : Bool

-- How the surroundings answer: the lock is free or not, and the system calls of `Load` and `Save`.
pub record StartCalls : Type 0 where
  pub lock_free : Bool
  pub load_calls : Calls
  pub save_calls : Calls

-- `_ = processLock.Close()`
abbrev pub release : World → World
release world = record world { locked = false }

-- What comes after a part of `NewIssuer` that returned no error.
unfoldable pub then_do :
    {A B : Type 0}
    → World × Result IssuerFault A
    → (World → A → World × Result IssuerFault B)
    → World × Result IssuerFault B
then_do (world, err fault) next = (world, err fault)
then_do (world, ok value) next = next world value

module _ (p : Platform) (options : IssuerOptions) where
  -- The tests before the lock is taken; the result is the policy's digest.
  unfoldable pub check_options : Result IssuerFault Text
  check_options = do
    reject (not (length options.private_key == 64)) private_key_invalid
    digest ← wrap policy_refused (validate_key_policy p options.key_policy options.root_key)
    reject (ltb options.ttl minute || ltb hour options.ttl) issuer_ttl_range
    reject (ltb options.cache_for second || ltb (options.ttl / 2) options.cache_for) cache_range
    ok digest

  -- The legacy state with the policy's fields filled in.
  unfoldable pub migrated : Text → IssuerState → Result IssuerFault IssuerState
  migrated digest state = do
    granted ←
        wrap legacy_key_refused
          (key_policy_grant p options.key_policy state.key_id state.last_version)
    ok (record state {
      key_epoch = granted.0.epoch;
      policy_version = options.key_policy.version;
      policy_sha256 = digest;
    })

  unfoldable pub migrate :
      World → Calls → Text → IssuerState → World × Result IssuerFault IssuerState
  migrate world calls digest state =
      if not (state.policy_version == 0) then (world, ok state) else elim (migrated digest state) [
        | err fault ↦ (release world, err fault)
        | ok next ↦
            let (after, saved) = save p world.disk calls options.state_path next in
            elim saved [
              | err fault ↦ (release (record world { disk = after }), err (migrate_state fault))
              | ok done ↦ (record world { disk = after }, ok next)
            ]
      ]

  unfoldable pub same_epoch : Result Fault (KeyGrant × Text) → ℕ → Bool
  same_epoch (err fault) epoch = false
  same_epoch (ok (grant, raw)) epoch = grant.epoch == epoch

  -- The tests of an existing state against the policy; the result is the next version.
  unfoldable pub check_policy_of : World → Text → IssuerState → World × Result IssuerFault ℕ
  check_policy_of world digest state =
      if state.last_version == max_u64
      then (release world, err versions_exhausted)
      else if ltb options.key_policy.version state.policy_version
      then (release world, err durable_policy_rollback)
      else if options.key_policy.version == state.policy_version
          && not (text_eq digest state.policy_sha256)
      then (release world, err durable_policy_changed)
      else if options.key_policy.version == state.policy_version
          && not (
              same_epoch (key_policy_grant p options.key_policy state.key_id state.last_version)
                state.key_epoch)
      then (release world, err durable_key_inconsistent)
      else (world, ok (u64 (state.last_version + 1)))

  -- The grant of the current key for the next version.
  unfoldable pub current_grant : World → ℕ → World × Result IssuerFault (KeyGrant × Text)
  current_grant world next_version =
      elim (key_policy_grant p options.key_policy (key_id_of p (public_of options.private_key))
        next_version) [
          | err fault ↦ (release world, err (key_refused fault))
          | ok granted ↦ (world, ok granted)
        ]

  -- The key may stay in its epoch, and another key must come with a larger one.
  unfoldable pub check_epoch_of :
      World → Text → ℕ → IssuerState → World × Result IssuerFault (Unit {0})
  check_epoch_of world key_id epoch state =
      if text_eq key_id state.key_id && not (epoch == state.key_epoch)
      then (release world, err durable_epoch_changed)
      else if not (text_eq key_id state.key_id) && leb epoch state.key_epoch
      then (release world, err durable_epoch_not_advanced)
      else (world, ok tt)

  unfoldable pub started : Text → ℕ → IssuerState → Issuer
  started digest epoch state = record {
    config = record {
      state_path = options.state_path;
      ttl = options.ttl;
      cache_for = options.cache_for;
      private_key = options.private_key;
      key_id = key_id_of p (public_of options.private_key);
      key_epoch = epoch;
      root_key = options.root_key;
      key_policy = options.key_policy;
      policy_sha = digest;
    };
    state = state;
    cached = record { algorithm = []; key_id = []; payload = []; signature = [] };
    cache_until = zero_instant;
    valid_until = zero_instant;
    retry_at = zero_instant;
    last_error = none;
    closed = false;
  }

  -- The start over the state that was found, or over none.
  unfoldable pub start_over : World → Text → Option IssuerState → World × Result IssuerFault Issuer
  unfolding then_do
  start_over world digest none =
      then_do (current_grant world 1)
        (λ world granted. (world, ok (started digest granted.0.epoch no_state)))
  start_over world digest (some state) =
      then_do (check_policy_of world digest state) (λ world next_version.
        then_do (current_grant world next_version) (λ world granted.
          then_do
            (check_epoch_of world (key_id_of p (public_of options.private_key)) granted.0.epoch
              state)
            (λ world checked. (world, ok (started digest granted.0.epoch state)))))

  -- `NewIssuer` after `Load`.
  unfoldable pub start_loaded :
      World → Calls → Text → Option IssuerState → World × Result IssuerFault Issuer
  unfolding then_do
  start_loaded world calls digest none = start_over world digest none
  start_loaded world calls digest (some state) =
      then_do (migrate world calls digest state)
        (λ world current. start_over world digest (some current))

  -- `NewIssuer` once the lock is held.
  unfoldable pub start_locked : World → StartCalls → Text → World × Result IssuerFault Issuer
  start_locked world calls digest = elim (load p world.disk calls.load_calls options.state_path) [
    | err fault ↦ (release world, err (load_state fault))
    | ok found ↦ start_loaded world calls.save_calls digest found
  ]

  unfoldable pub new_issuer : World → StartCalls → World × Result IssuerFault Issuer
  unfolding start_locked
  new_issuer world calls = elim check_options [
    | err fault ↦ (world, err fault)
    | ok digest ↦
        let held = record world { locked = true } in
        let run = start_locked held calls digest in
        if not calls.lock_free then (world, err lock_unavailable) else run
  ]

-- `Close` releases the lock once.
unfoldable pub close : World → Issuer → World × Issuer
close world issuer =
    if issuer.closed
    then (world, issuer)
    else (record world { locked = false }, record issuer { closed = true })
